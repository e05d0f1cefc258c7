-- ===== src/Log/Ops/Absorb.antt =====
-- `log_write` keeps the state ready for `commit`.
use native.Mathlib.Nat.{suc-add}
use os_lab.Base.{
  ◌==◌, if◌then◌else◌, ==_iff, Bool-cases, length, get_elem?, set, length-set, take, NotIn, ℕ, zero,
  suc, ◌+◌, ◌<◌, ◌≡◌, refl, sym, ap, ◌∙◌, ◌⊎◌, inl, inr, true, false, false≢true, some,
  some-injective, List, [], ◌∷◌, ◌++◌, arith,
}
use os_lab.Log.{logsize, LogHeader}
use os_lab.Log.Header.{IsHeader}
use os_lab.Log.Restore.{length-take_fits}
use os_lab.Log.Ops.{find_block, absorb}

-- Where the loop of `log_write` stops: at the block, or at the end if the block is not there.
abbrev pub Finds : List ℕ → ℕ → ℕ → Type 0
Finds xs b i = ((get_elem? xs i ≡ some b) × (i < length xs)) ⊎ ((i ≡ length xs) × NotIn b xs)

find_block-Finds : (xs : List ℕ) (b : ℕ) → Finds xs b (find_block xs b)
unfolding find_block
find_block-Finds [] b = inr (refl, tt)
find_block-Finds (x ∷ xs) b = elim (Bool-cases (x == b)) [
  | inl e ↦ rw (e, find_block) (inl (ap some ((==_iff x b).0 e), omega arith))
  | inr e ↦
      rw (e, find_block)
        (elim (find_block-Finds xs b) [
          | inl (f, lt) ↦ inl (f, omega arith)
          | inr (l, k) ↦ inr (ap suc l, (λ h. false≢true (sym e ∙ (==_iff x b).1 (sym h)), k))
        ])
]

-- Overwriting an entry by itself changes nothing.
set-get_elem? : (n i b : ℕ) (xs : List ℕ) → get_elem? (take n xs) i ≡ some b → set xs i b ≡ xs
set-get_elem? zero i b xs e = cc
set-get_elem? (suc n) i b [] e = refl
set-get_elem? (suc n) zero b (x ∷ xs) e = ap (λ y. y ∷ xs) (sym (some-injective _ _ e))
set-get_elem? (suc n) (suc i) b (x ∷ xs) e = ap (◌∷◌ x) (set-get_elem? n i b xs e)

take-set_end :
    (n b : ℕ) (xs : List ℕ) → n < length xs → take (n + 1) (set xs n b) ≡ take n xs ++ b ∷ []
take-set_end n b [] h = absurd (omega arith)
take-set_end zero b (x ∷ xs) h = refl
take-set_end (suc n) b (x ∷ xs) h = rw suc-add (ap (◌∷◌ x) (take-set_end n b xs (omega arith)))

-- What `log_write` makes of the transaction's block numbers.
abbrev pub Absorbed : List ℕ → ℕ → List ℕ → Type 0
Absorbed xs b ys =
    ((ys ≡ xs) × ((j : ℕ) × (get_elem? xs j ≡ some b))) ⊎ ((ys ≡ xs ++ b ∷ []) × NotIn b xs)

-- A block already logged is absorbed, and another one is appended.
pub absorb-Absorbed :
    (lh : LogHeader) (b : ℕ)
    → IsHeader lh
    → lh.n + 1 < logsize
    → IsHeader (absorb lh b)
      × Absorbed (take lh.n lh.block) b (take (absorb lh b).n (absorb lh b).block)
unfolding absorb
absorb-Absorbed lh b v lt =
    go (find_block (take lh.n lh.block) b) (find_block-Finds (take lh.n lh.block) b)
  where
    len : length (take lh.n lh.block) ≡ lh.n
    len = length-take_fits lh.n lh.block (omega (arith, v.array))

    after : ℕ → LogHeader
    after i = record { n = if i == lh.n then lh.n + 1 else lh.n; block = set lh.block i b }

    go :
        (i : ℕ)
        → Finds (take lh.n lh.block) b i
        → IsHeader (after i) × Absorbed (take lh.n lh.block) b (take (after i).n (after i).block)
    go i (inl (e, l)) =
        let ne : (i == lh.n) ≡ false = ground (arith, len) in
        rw (ne, set-get_elem? lh.n i b lh.block e) (v, inl (refl, (i, e)))
    go i (inr (e, k)) =
        let at : i ≡ lh.n = e ∙ len in
        let eq : (lh.n == lh.n) ≡ true = ground arith in
        rw (at, eq)
          (
            record { array = length-set lh.block lh.n b ∙ v.array; fits = omega arith },
            inr (take-set_end lh.n b lh.block (omega (arith, v.array)), k),
          )
