-- ===== src/Pipe/Ring.antt =====
-- The bytes that a pipe holds, oldest first, and its invariant.
use os_lab.Base.{
  length, set, get_or, get_or-set_self, get_or-set_ne, ℕ, zero, suc, ◌+◌, ◌-◌, ◌%◌, ◌^◌, ◌≤◌, ◌<◌,
  ◌≡◌, refl, ap, ap₂, List, [], ◌∷◌, ◌++◌, arith,
}
use os_lab.Pipe.{pipesize, Pipe}

-- The `n` bytes from the counter `r` on.
abbrev pub window : List ℕ → ℕ → ℕ → List ℕ
window ring r zero = []
window ring r (suc n) = get_or ring (r % pipesize) 0 ∷ window ring (r + 1) n

-- How many bytes are in the pipe: the difference of the counters, modulo 2 ^ 32.
abbrev pub count : Pipe → ℕ
count p = (p.nwrite + 2 ^ 32 - p.nread) % 2 ^ 32

abbrev pub contents : Pipe → List ℕ
contents p = window p.ring p.nread (count p)

pub record IsPipe (p : Pipe) : Type 0 where
  pub room : length p.ring ≡ pipesize
  pub read_word : p.nread < 2 ^ 32
  pub write_word : p.nwrite < 2 ^ 32
  pub bounded : count p ≤ pipesize

-- A window depends on its start modulo the size only, so the counters may wrap.
pub window-congr :
    (ring : List ℕ) (n r s : ℕ) → r % pipesize ≡ s % pipesize → window ring r n ≡ window ring s n
window-congr ring zero r s e = refl
window-congr ring (suc n) r s e =
    ap₂ ◌∷◌ (ap (λ i. get_or ring i 0) e) (window-congr ring n (r + 1) (s + 1) (omega arith))

-- A write just past a window extends it.
pub window-set :
    (ring : List ℕ) (b n r i : ℕ)
    → length ring ≡ pipesize
    → n < pipesize
    → i ≡ (r + n) % pipesize
    → window (set ring i b) r (suc n) ≡ window ring r n ++ b ∷ []
window-set ring b zero r i l lt e =
    let at : i ≡ r % pipesize = omega arith in
    rw at (rw (get_or-set_self ring (r % pipesize) b 0 (omega arith)) refl)
window-set ring b (suc n) r i l lt e =
    ap₂ ◌∷◌ (get_or-set_ne ring i (r % pipesize) b 0 (λ h. omega arith))
      (window-set ring b n (r + 1) i l (omega arith) (omega arith))

pub length-window : (ring : List ℕ) (n r : ℕ) → length (window ring r n) ≡ n
length-window ring zero r = refl
length-window ring (suc n) r = ap suc (length-window ring n (r + 1))
