-- ===== src/Dir/Lookup.antt =====
-- What a directory holds, as a function of its bytes.
use os_lab.Base.{
  ◌==◌, if◌then◌else◌, Bool-cases, Option-cases, ℕ, zero, suc, ◌+◌, ◌*◌, ◌<◌, ◌≡◌, refl, sym, ap,
  ◌∙◌, ◌⊎◌, inl, inr, true, false, ◌&&◌, not, Option, none, some, arith,
}
use os_lab.Dir.{namecmp}

abbrev pub inum_at : (ℕ → ℕ) → ℕ → ℕ
inum_at view o = view o + 256 * view (o + 1)

abbrev pub name_at : (ℕ → ℕ) → ℕ → ℕ → ℕ
name_at view o i = view (o + 2 + i)

-- The number in the entry at `o`, if it is in use and has the name.
unfoldable pub hit : (ℕ → ℕ) → (ℕ → ℕ) → ℕ → Option ℕ
hit view name o =
    if not (inum_at view o == 0) && namecmp name (name_at view o)
    then some (inum_at view o)
    else none

-- The first of the `n` entries from `o` on that has the name.
unfoldable pub entry_of : (ℕ → ℕ) → (ℕ → ℕ) → ℕ → ℕ → Option (ℕ × ℕ)
entry_of view name zero o = none
entry_of view name (suc n) o = elim (hit view name o) [
  | some i ↦ some (o, i)
  | none ↦ entry_of view name n (o + 16)
]

-- The first of them that is empty, or the end.
unfoldable pub empty_of : (ℕ → ℕ) → ℕ → ℕ → ℕ
empty_of view zero o = o
empty_of view (suc n) o = elim (inum_at view o == 0) [ true ↦ o | false ↦ empty_of view n (o + 16) ]

first : (o : ℕ) → o + 16 * 0 ≡ o
first o = omega arith

next : (o k : ℕ) → o + 16 + 16 * k ≡ o + 16 * suc k
next o k = omega arith

module _ (view : ℕ → ℕ) (name : ℕ → ℕ) where
  pub entry_of-hit :
      (n o i : ℕ) → hit view name o ≡ some i → entry_of view name (suc n) o ≡ some (o, i)
  unfolding entry_of
  entry_of-hit n o i e = rw (entry_of, e) refl

  pub entry_of_skip :
      (n o : ℕ)
      → hit view name o ≡ none
      → entry_of view name (suc n) o ≡ entry_of view name n (o + 16)
  unfolding entry_of
  entry_of_skip n o e = rw (entry_of, e) refl

  pub entry_of-none :
      (n o k : ℕ) → entry_of view name n o ≡ none → k < n → hit view name (o + 16 * k) ≡ none
  entry_of-none zero o k e lt = absurd (omega arith)
  entry_of-none (suc n) o k e lt = elim (Option-cases (hit view name o)) [
    | inr (i, h) ↦ cc (entry_of-hit n o i h)
    | inl h ↦
        elim k as (λ k. k < suc n → hit view name (o + 16 * k) ≡ none) [
          | zero ↦ λ lt. ap (hit view name) (first o) ∙ h
          | suc k ↦ λ lt.
              ap (hit view name) (sym (next o k))
              ∙ entry_of-none n (o + 16) k (sym (entry_of_skip n o h) ∙ e) (omega arith)
        ]
          lt
  ]

  pub entry_of_absent :
      (n o : ℕ)
      → ((k : ℕ) → k < n → hit view name (o + 16 * k) ≡ none)
      → entry_of view name n o ≡ none
  unfolding entry_of
  entry_of_absent zero o h = refl
  entry_of_absent (suc n) o h =
      entry_of_skip n o (ap (hit view name) (sym (first o)) ∙ h 0 (omega arith))
      ∙ entry_of_absent n (o + 16) (λ k lt. ap (hit view name) (next o k) ∙ h (suc k) (omega arith))

  pub entry_of_snoc :
      (n o : ℕ)
      → hit view name (o + 16 * n) ≡ none
      → entry_of view name (suc n) o ≡ entry_of view name n o
  unfolding entry_of
  entry_of_snoc zero o e = entry_of_skip 0 o (ap (hit view name) (sym (first o)) ∙ e)
  entry_of_snoc (suc n) o e = elim (Option-cases (hit view name o)) [
    | inr (i, h) ↦ entry_of-hit (suc n) o i h ∙ sym (entry_of-hit n o i h)
    | inl h ↦
        entry_of_skip (suc n) o h
        ∙ entry_of_snoc n (o + 16) (ap (hit view name) (next o n) ∙ e)
        ∙ sym (entry_of_skip n o h)
  ]

  pub entry_of_first :
      (n o m i : ℕ)
      → m < n
      → ((k : ℕ) → k < m → hit view name (o + 16 * k) ≡ none)
      → hit view name (o + 16 * m) ≡ some i
      → entry_of view name n o ≡ some (o + 16 * m, i)
  entry_of_first zero o m i lt before h = absurd (omega arith)
  entry_of_first (suc n) o zero i lt before h =
      entry_of-hit n o i (ap (hit view name) (sym (first o)) ∙ h)
      ∙ ap (λ p. some (p, i)) (sym (first o))
  entry_of_first (suc n) o (suc m) i lt before h =
      entry_of_skip n o (ap (hit view name) (sym (first o)) ∙ before 0 (omega arith))
      ∙ entry_of_first n (o + 16) m i (omega arith)
          (λ k lt. ap (hit view name) (next o k) ∙ before (suc k) (omega arith))
          (ap (hit view name) (next o m) ∙ h)
      ∙ ap (λ p. some (p, i)) (next o m)

pub entry_of_cong :
    (view view' name : ℕ → ℕ) (n o : ℕ)
    → ((k : ℕ) → k < n → hit view name (o + 16 * k) ≡ hit view' name (o + 16 * k))
    → entry_of view name n o ≡ entry_of view' name n o
unfolding entry_of
entry_of_cong view view' name zero o h = refl
entry_of_cong view view' name (suc n) o h = elim (Option-cases (hit view name o)) [
  | inr (i, e) ↦ entry_of-hit view name n o i e ∙ sym (entry_of-hit view' name n o i (sym here ∙ e))
  | inl e ↦
      entry_of_skip view name n o e
      ∙ entry_of_cong view view' name n (o + 16) there
      ∙ sym (entry_of_skip view' name n o (sym here ∙ e))
]
  where
    here : hit view name o ≡ hit view' name o
    here = ap (hit view name) (sym (first o)) ∙ h 0 (omega arith) ∙ ap (hit view' name) (first o)

    there : (k : ℕ) → k < n → hit view name (o + 16 + 16 * k) ≡ hit view' name (o + 16 + 16 * k)
    there k lt =
        ap (hit view name) (next o k)
        ∙ h (suc k) (omega arith)
        ∙ ap (hit view' name) (sym (next o k))

-- Where the first empty entry stands: at one of the `n`, which is empty, or behind them.
pub empty_of-at :
    (view : ℕ → ℕ) (n o : ℕ)
    → (m : ℕ) × (empty_of view n o ≡ o + 16 * m)
      × ((m ≡ n) ⊎ ((m < n) × (inum_at view (o + 16 * m) ≡ 0)))
unfolding empty_of
empty_of-at view zero o = (0, sym (first o), inl refl)
empty_of-at view (suc n) o = elim (Bool-cases (inum_at view o == 0)) [
  | inl e ↦ (
    0,
    rw (empty_of, e) (sym (first o)),
    inr (omega arith, ap (inum_at view) (first o) ∙ ground arith),
  )
  | inr ne ↦
      let (m, stop, which) = empty_of-at view n (o + 16) in
      (
        suc m,
        rw (empty_of, ne) (stop ∙ next o m),
        elim which [
          | inl e ↦ inl (ap suc e)
          | inr (lt, z) ↦ inr (omega arith, ap (inum_at view) (sym (next o m)) ∙ z)
        ],
      )
]
