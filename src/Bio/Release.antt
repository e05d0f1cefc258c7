-- ===== src/Bio/Release.antt =====
-- `brelse`, and the order of use.
use os_lab.Base.Outcome.{panic, Returns}
use os_lab.Base.Int.{ℤ}
use os_lab.Base.{
  ltb, ◌==◌, if◌then◌else◌, Bool-cases, get_elem?, set, modify-eq-set, ℕ, zero, suc, ◌+◌, ◌-◌, ◌^◌,
  ◌<◌, ◌≡◌, refl, sym, ap, ◌∙◌, subst, ◌≢◌, ◌⊎◌, inl, inr, true, false, some, some-injective, List,
  [], ◌∷◌, arith, ℕ_discrete,
}
use os_lab.Bio.{Buf, unlink, let_go, brelse}
use os_lab.SleepLock.{holdingsleep}
use os_lab.Bio.Unique.{IsCache, IsCache-set}

-- Where entry `j` of the shortened list was.
abbrev skip : ℕ → ℕ → ℕ
skip i j = if ltb j i then j else suc j

skip_zero : (j : ℕ) → skip 0 j ≡ suc j
skip_zero j = ground arith

skip_first : (i : ℕ) → skip (suc i) 0 ≡ 0
skip_first i = ground arith

skip-suc : (i j : ℕ) → skip (suc i) (suc j) ≡ suc (skip i j)
skip-suc i j = ground arith

skip_ne : (i j : ℕ) → skip i j ≢ i
skip_ne i j e = ground arith

skip_injective : (i j k : ℕ) → skip i j ≡ skip i k → j ≡ k
skip_injective i j k e = ground arith

get_elem?-unlink : (bs : List Buf) (i j : ℕ) → get_elem? (unlink bs i) j ≡ get_elem? bs (skip i j)
unfolding unlink
get_elem?-unlink [] i j = refl
get_elem?-unlink (b ∷ bs) zero j = sym (ap (get_elem? (b ∷ bs)) (skip_zero j))
get_elem?-unlink (b ∷ bs) (suc i) zero = sym (ap (get_elem? (b ∷ bs)) (skip_first i))
get_elem?-unlink (b ∷ bs) (suc i) (suc j) =
    get_elem?-unlink bs i j ∙ sym (ap (get_elem? (b ∷ bs)) (skip-suc i j))

-- The entry `b` of `bs` changed to `c`, with the same block, and put first.
module _ (bs : List Buf) (i : ℕ) (b c : Buf) where
  IsCache-front :
      get_elem? bs i ≡ some b
      → IsCache bs
      → c.dev ≡ b.dev
      → c.blockno ≡ b.blockno
      → c.refcnt + 1 < 2 ^ 32
      → IsCache (c ∷ unlink bs i)
  IsCache-front g v sd sb small = record { unique = unique; counted = counted }
    where
      counted : (j : ℕ) (d : Buf) → get_elem? (c ∷ unlink bs i) j ≡ some d → d.refcnt + 1 < 2 ^ 32
      counted zero d e = subst (λ (r : Buf). r.refcnt + 1 < 2 ^ 32) (some-injective _ _ e) small
      counted (suc j) d e = v.counted (skip i j) d (sym (get_elem?-unlink bs i j) ∙ e)

      unique :
          (j k : ℕ) (d e : Buf)
          → get_elem? (c ∷ unlink bs i) j ≡ some d
          → get_elem? (c ∷ unlink bs i) k ≡ some e
          → 0 < d.dev
          → d.dev ≡ e.dev
          → d.blockno ≡ e.blockno
          → j ≡ k
      unique zero zero d e gd ge real dd bb = refl
      unique zero (suc k) d e gd ge real dd bb =
          let cd : c ≡ d = some-injective _ _ gd in
          let at_k =
            v.unique i (skip i k) b e g (sym (get_elem?-unlink bs i k) ∙ ge)
              (omega (arith, ap (λ (r : Buf). r.dev) cd, sd))
              (sym sd ∙ ap (λ (r : Buf). r.dev) cd ∙ dd)
              (sym sb ∙ ap (λ (r : Buf). r.blockno) cd ∙ bb) in
          absurd (skip_ne i k (sym at_k))
      unique (suc j) zero d e gd ge real dd bb =
          let ce : c ≡ e = some-injective _ _ ge in
          let at_j =
            v.unique (skip i j) i d b (sym (get_elem?-unlink bs i j) ∙ gd) g real
              (dd ∙ sym (ap (λ (r : Buf). r.dev) ce) ∙ sd)
              (bb ∙ sym (ap (λ (r : Buf). r.blockno) ce) ∙ sb) in
          absurd (skip_ne i j at_j)
      unique (suc j) (suc k) d e gd ge real dd bb = ap suc (
          skip_injective i j k (
            v.unique (skip i j) (skip i k) d e (sym (get_elem?-unlink bs i j) ∙ gd)
              (sym (get_elem?-unlink bs i k) ∙ ge) real dd bb))

-- What `brelse` leaves of the buffer `b` at `i`.
pub data Releases (bs : List Buf) (i : ℕ) (b : Buf) : List Buf → Type 0 where
  still_held :
      (n : ℕ) (c : Buf)
      → b.refcnt ≡ n + 2
      → c.refcnt ≡ n + 1
      → c.lock.locked ≡ false
      → c.bytes ≡ b.bytes
      → Releases bs i b (set bs i c)
  moves_up :
      (c : Buf)
      → b.refcnt ≡ 1
      → c.refcnt ≡ 0
      → c.lock.locked ≡ false
      → c.bytes ≡ b.bytes
      → Releases bs i b (c ∷ unlink bs i)

-- `brelse` of a buffer that somebody holds panics exactly if the caller has not locked it. Otherwise it unlocks
-- it and counts one reference fewer; with the last reference gone the buffer becomes the most recently
-- used, and the others stay in their order. The cache has still one buffer for a block.
pub brelse-Releases :
    (bs : List Buf) (i : ℕ) (b : Buf) (pid : ℤ)
    → IsCache bs
    → get_elem? bs i ≡ some b
    → 0 < b.refcnt
    → ((holdingsleep b.lock pid ≡ false) × (brelse bs i b pid ≡ panic))
      ⊎ ((holdingsleep b.lock pid ≡ true)
          × Returns (λ bs'. Releases bs i b bs' × IsCache bs') (brelse bs i b pid))
unfolding brelse
brelse-Releases bs i b pid v g held = elim (Bool-cases (holdingsleep b.lock pid)) [
  | inr strange ↦ inl (strange, rw (strange, brelse) refl)
  | inl mine ↦ inr (
    mine,
    elim (ℕ_discrete b.refcnt 1) [
      | yes one ↦
          let last : ((let_go b).refcnt == 0) ≡ true = ground (arith, one) in
          rw (mine, last, brelse)
            (
              moves_up (let_go b) one (omega arith) refl refl,
              IsCache-front bs i b (let_go b) g v refl refl (omega arith),
            )
      | no more ↦
          let stays : ((let_go b).refcnt == 0) ≡ false = ground (arith, more, v.counted i b g) in
          rw (mine, stays, modify-eq-set bs i let_go b g, brelse)
            (let small = v.counted i b g in
              (
                still_held (b.refcnt - 2) (let_go b) (omega arith) (omega arith) refl refl,
                IsCache-set bs i b (let_go b) g v
                    (λ j c h ne real sd sb. ne (v.unique i j b c g h real sd sb)) (omega arith),
              ))
    ],
  )
]
