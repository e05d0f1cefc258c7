-- ===== src/Fs/Alloc.antt =====
-- What `balloc` and `bfree` do to the bit map.
use os_lab.Base.Outcome.{Outcome, ok, panic}
use os_lab.Base.{
  Bool-cases, ℕ, zero, suc, ◌+◌, ◌≤◌, ◌<◌, ◌≡◌, refl, subst, inl, inr, Bool, true, false, Option,
  none, some, arith, ℕ_discrete,
}
use os_lab.Fs.{Fs, first_free, mark, bzero, balloc}

-- The first block that is free.
data First (used : ℕ → Bool) (n b : ℕ) : Option ℕ → Type 0 where
  no_free : ((x : ℕ) → b ≤ x → x < b + n → used x ≡ true) → First used n b none
  at_block :
      (a : ℕ)
      → b ≤ a
      → a < b + n
      → used a ≡ false
      → ((x : ℕ) → b ≤ x → x < a → used x ≡ true)
      → First used n b (some a)

first_free-First : (used : ℕ → Bool) (n b : ℕ) → First used n b (first_free used n b)
unfolding first_free
first_free-First used zero b = no_free (λ x le lt. absurd (omega arith))
first_free-First used (suc n) b = elim (Bool-cases (used b)) [
  | inr free ↦
      rw (free, first_free)
        (at_block b (omega arith) (omega arith) free (λ x le lt. absurd (omega arith)))
  | inl taken ↦
      rw (taken, first_free)
        (later (first_free used n (suc b)) (first_free-First used n (suc b)) taken)
]
  where
    here_too : (x : ℕ) → b ≤ x → used b ≡ true → (suc b ≤ x → used x ≡ true) → used x ≡ true
    here_too x le t rest = elim (ℕ_discrete b x) [
      | yes e ↦ subst (λ y. used y ≡ true) e t
      | no ne ↦ rest (omega arith)
    ]

    later : (o : Option ℕ) → First used n (suc b) o → used b ≡ true → First used (suc n) b o
    later o (no_free h) t = no_free (λ x le lt. here_too x le t (λ g. h x g (omega arith)))
    later o (at_block a le lt f before) t =
        at_block a (omega arith) (omega arith) f
          (λ x xle xlt. here_too x xle t (λ g. before x g xlt))

-- The two ways out of `balloc`.
pub data Allocs (fs : Fs) : Outcome (ℕ × Fs) → Type 0 where
  full : ((x : ℕ) → x < fs.size → fs.used x ≡ true) → Allocs fs panic
  got :
      (a : ℕ)
      → a < fs.size
      → fs.used a ≡ false
      → Allocs fs (ok (a, record fs { used = mark fs.used a true; cells = bzero fs.cells a }))

pub balloc-Allocs : (fs : Fs) → Allocs fs (balloc fs)
unfolding balloc
balloc-Allocs fs = by_first (first_free fs.used fs.size 0) (first_free-First fs.used fs.size 0) refl
  where
    by_first :
        (o : Option ℕ)
        → First fs.used fs.size 0 o
        → first_free fs.used fs.size 0 ≡ o
        → Allocs fs (balloc fs)
    by_first o (no_free h) e = rw (e, balloc) (full (λ x lt. h x (omega arith) (omega arith)))
    by_first o (at_block a le lt f before) e = rw (e, balloc) (got a (omega arith) f)
