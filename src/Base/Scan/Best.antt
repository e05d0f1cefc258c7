-- ===== src/Base/Scan/Best.antt =====
-- What the scan finds: an eligible entry that no eligible entry beats, if one beats the sentinel.
use os_lab.Base.{
  Bool-cases, get_elem?, ℕ, zero, suc, ◌+◌, ◌≡◌, refl, sym, ◌∙◌, ◌⊎◌, inl, inr, Bool, true, false,
  false≢true, Option, some, List, [], ◌∷◌, arith,
}
use os_lab.Base.Scan.{scan}

module _ {A K : Type 0} (eligible : A → Bool) (key : A → K) (beats : K → K → Bool)
    (trans : (a b c : K) → beats a b ≡ true → beats b c ≡ true → beats a c ≡ true)
    (irrefl : (a : K) → beats a a ≡ false) where
  -- No eligible entry of `ps` beats `best`.
  abbrev pub Unbeaten : List A → K → Type 0
  Unbeaten ps best =
      (j : ℕ) (p : A) → get_elem? ps j ≡ some p → eligible p ≡ true → beats (key p) best ≡ false

  -- Either nothing beat the sentinel, or the loop ends at an eligible entry that nothing beats.
  abbrev pub Chosen : List A → ℕ → K → Option ℕ → Option ℕ → Type 0
  Chosen ps i best res out =
      ((out ≡ res) × Unbeaten ps best)
      ⊎ ((j : ℕ) × (p : A) × (out ≡ some (i + j))
          × (get_elem? ps j ≡ some p)
          × (eligible p ≡ true)
          × (beats (key p) best ≡ true)
          × Unbeaten ps (key p))

  below : (a b c : K) → beats a c ≡ false → beats b c ≡ true → beats a b ≡ false
  below a b c p q = elim (Bool-cases (beats a b)) [
    | inl t ↦ absurd (false≢true (sym p ∙ trans a b c t q))
    | inr f ↦ f
  ]

  asym : (a b : K) → beats a b ≡ true → beats b a ≡ false
  asym a b p = below b a b (irrefl b) p

  Unbeaten-cons :
      (p : A) (ps : List A) (best : K)
      → (eligible p ≡ true → beats (key p) best ≡ false)
      → Unbeaten ps best
      → Unbeaten (p ∷ ps) best
  Unbeaten-cons p ps best h t zero q e el = ground (arith, h)
  Unbeaten-cons p ps best h t (suc j) q e el = t j q e el

  -- The step past an entry that is not taken.
  skip :
      (p : A) (ps : List A) (i : ℕ) (best : K) (res out : Option ℕ)
      → (eligible p ≡ true → beats (key p) best ≡ false)
      → Chosen ps (i + 1) best res out
      → Chosen (p ∷ ps) i best res out
  skip p ps i best res out h (inl (e, u)) = inl (e, Unbeaten-cons p ps best h u)
  skip p ps i best res out h (inr (j, q, e, g, el, b, u)) = inr (
    suc j,
    q,
    ground arith,
    g,
    el,
    b,
    Unbeaten-cons p ps (key q) (λ t. below (key p) (key q) best (h t) b) u,
  )

  -- The step past an entry that becomes the best so far.
  take_best :
      (p : A) (ps : List A) (i : ℕ) (best : K) (res out : Option ℕ)
      → eligible p ≡ true
      → beats (key p) best ≡ true
      → Chosen ps (i + 1) (key p) (some i) out
      → Chosen (p ∷ ps) i best res out
  take_best p ps i best res out el b (inl (e, u)) =
      inr (0, p, ground arith, refl, el, b, Unbeaten-cons p ps (key p) (λ _. irrefl (key p)) u)
  take_best p ps i best res out el b (inr (j, q, e, g, elq, bq, u)) = inr (
    suc j,
    q,
    ground arith,
    g,
    elq,
    trans (key q) (key p) best bq b,
    Unbeaten-cons p ps (key q) (λ _. asym (key q) (key p) bq) u,
  )

  pub scan-Chosen :
      (ps : List A) (i : ℕ) (best : K) (res : Option ℕ)
      → Chosen ps i best res (scan eligible key beats ps i best res)
  unfolding scan
  scan-Chosen [] i best res = inl (refl, λ j p e el. cc)
  scan-Chosen (p ∷ ps) i best res = elim (Bool-cases (eligible p)) [
    | inl el ↦ elim (Bool-cases (beats (key p) best)) [
      | inl b ↦
          rw (el, b) (take_best p ps i best res _ el b (scan-Chosen ps (i + 1) (key p) (some i)))
      | inr b ↦ rw (el, b) (skip p ps i best res _ (λ _. b) (scan-Chosen ps (i + 1) best res))
    ]
    | inr ne ↦ rw ne (
        skip p ps i best res _ (λ t. absurd (false≢true (sym ne ∙ t)))
          (scan-Chosen ps (i + 1) best res))
  ]
