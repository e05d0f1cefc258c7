-- ===== src/Base/Find.antt =====
-- The search for the first entry of a table that meets a test.
use os_lab.Base.{
  if◌then◌else◌, Bool-cases, get_elem?, ℕ, zero, suc, ◌<◌, ◌≡◌, refl, subst, inl, inr, Bool, true,
  false, Option, none, some, some-injective, List, [], ◌∷◌, arith,
}

abbrev pub next_index : Option ℕ → Option ℕ
next_index none = none
next_index (some i) = some (suc i)

unfoldable pub find_index {ℓ} : {A : Type ℓ} → (A → Bool) → List A → Option ℕ
find_index test [] = none
find_index test (x ∷ xs) =
    let rest = find_index test xs in if test x then some 0 else next_index rest

module _ {ℓ} {A : Type ℓ} (test : A → Bool) where
  -- No entry meets the test, or the entry `i` is the first that does.
  pub data Found (xs : List A) : Option ℕ → Type ℓ where
    missing : ((j : ℕ) (y : A) → get_elem? xs j ≡ some y → test y ≡ false) → Found xs none
    found :
        (i : ℕ) (x : A)
        → get_elem? xs i ≡ some x
        → test x ≡ true
        → ((j : ℕ) (y : A) → get_elem? xs j ≡ some y → j < i → test y ≡ false)
        → Found xs (some i)

  Found-cons :
      (x : A) (xs : List A) (o : Option ℕ)
      → test x ≡ false
      → Found xs o
      → Found (x ∷ xs) (next_index o)
  Found-cons x xs o e (missing n) = missing none_meets
    where
      none_meets : (j : ℕ) (y : A) → get_elem? (x ∷ xs) j ≡ some y → test y ≡ false
      none_meets zero y g = subst (λ z. test z ≡ false) (some-injective _ _ g) e
      none_meets (suc j) y g = n j y g
  Found-cons x xs o e (found i z g t before) = found (suc i) z g t first
    where
      first : (j : ℕ) (y : A) → get_elem? (x ∷ xs) j ≡ some y → j < suc i → test y ≡ false
      first zero y h lt = subst (λ z. test z ≡ false) (some-injective _ _ h) e
      first (suc j) y h lt = before j y h (omega arith)

  pub find_index-Found : (xs : List A) → Found xs (find_index test xs)
  unfolding find_index
  find_index-Found [] = missing (λ j y g. cc)
  find_index-Found (x ∷ xs) = elim (Bool-cases (test x)) [
    | inl meets ↦ rw (meets, find_index) (found 0 x refl meets (λ j y g lt. absurd (omega arith)))
    | inr fails ↦
        rw (fails, find_index) (Found-cons x xs (find_index test xs) fails (find_index-Found xs))
  ]
