-- ===== src/Path/Elements.antt =====
-- The elements of a path, and the bytes that `skipelem` passes over.
use os_lab.Base.{
  ◌==◌, if◌then◌else◌, Bool-cases, length, ℕ, ◌≤◌, ◌<◌, ◌≡◌, refl, sym, ap, ◌∙◌, inl, inr, false,
  Option, none, some, List, [], ◌∷◌, ◌++◌, append-nil, append_assoc, arith,
}
use os_lab.Path.{slash, skip_slashes, span_elem, name_of, skipelem, is_nil}

-- What `cur` becomes at the end of an element.
abbrev pub flush : List ℕ → List (List ℕ) → List (List ℕ)
flush [] es = es
flush (c ∷ cur) es = (c ∷ cur) ∷ es

-- The longest runs of bytes that are no slashes, `cur` being the one that is under way.
unfoldable pub elements_from : List ℕ → List ℕ → List (List ℕ)
elements_from cur [] = flush cur []
elements_from cur (c ∷ path) =
    let next = elements_from [] path in
    let more = elements_from (cur ++ c ∷ []) path in if c == slash then flush cur next else more

abbrev pub elements : List ℕ → List (List ℕ)
elements path = elements_from [] path

elements-skip_slashes : (path : List ℕ) → elements (skip_slashes path) ≡ elements path
unfolding skip_slashes elements_from
elements-skip_slashes [] = refl
elements-skip_slashes (c ∷ path) = ground (arith, elements-skip_slashes path)

flush-span_elem :
    (c : ℕ) (cur path : List ℕ)
    → elements_from (c ∷ cur) path ≡ ((c ∷ cur) ++ (span_elem path).0) ∷ elements (span_elem path).1
unfolding span_elem elements_from
flush-span_elem c cur [] = ap (λ e. (c ∷ e) ∷ []) (sym (append-nil cur))
flush-span_elem c cur (d ∷ path) = elim (Bool-cases (d == slash)) [
  | inl at_slash ↦
      rw (at_slash)
        (rw at_slash (ap (λ (e : List ℕ). (c ∷ e) ∷ elements_from [] path) (sym (append-nil cur))))
  | inr inside ↦ rw (inside) (
      flush-span_elem c (cur ++ d ∷ []) path
      ∙ ap (λ (e : List ℕ). (c ∷ e) ∷ elements_from [] (span_elem path).1)
          (append_assoc cur (d ∷ []) (span_elem path).0))
]

length-skip_slashes : (path : List ℕ) → length (skip_slashes path) ≤ length path
unfolding skip_slashes
length-skip_slashes [] = omega arith
length-skip_slashes (c ∷ path) = ground (arith, length-skip_slashes path)

length-span_elem : (path : List ℕ) → length (span_elem path).1 ≤ length path
unfolding span_elem
length-span_elem [] = omega arith
length-span_elem (c ∷ path) = ground (arith, length-span_elem path)

-- What is left of the slashes starts with another byte.
skip_slashes-first :
    (path : List ℕ) (c : ℕ) (s : List ℕ) → skip_slashes path ≡ c ∷ s → (c == slash) ≡ false
unfolding skip_slashes
skip_slashes-first [] c s e = cc
skip_slashes-first (d ∷ path) c s e = elim (Bool-cases (d == slash)) [
  | inl at_slash ↦ skip_slashes-first path c s (rw at_slash at e)
  | inr inside ↦ let same = rw inside at e in ground (arith, same, inside)
]

-- What `skipelem` takes off a path, in terms of the elements.
pub data Skips (path : List ℕ) : Option (List ℕ × List ℕ) → Type 0 where
  at_end : elements path ≡ [] → Skips path none
  takes :
      (elem rest : List ℕ)
      → elements path ≡ elem ∷ elements rest
      → length rest < length path
      → is_nil rest ≡ is_nil (elements rest)
      → Skips path (some (name_of elem, rest))

elements_cons :
    (c : ℕ) (s : List ℕ)
    → (c == slash) ≡ false
    → elements (c ∷ s) ≡ (c ∷ (span_elem s).0) ∷ elements (span_elem s).1
unfolding elements_from
elements_cons c s inside = rw inside (flush-span_elem c [] s)

is_nil-skip_slashes :
    (path : List ℕ) → is_nil (skip_slashes path) ≡ is_nil (elements (skip_slashes path))
unfolding elements_from
is_nil-skip_slashes path = first_kept (skip_slashes path) (skip_slashes-first path)
  where
    first_kept :
        (s : List ℕ)
        → ((c : ℕ) (r : List ℕ) → s ≡ c ∷ r → (c == slash) ≡ false)
        → is_nil s ≡ is_nil (elements s)
    first_kept [] h = refl
    first_kept (c ∷ r) h = sym (ap is_nil (elements_cons c r (h c r refl)))

pub skipelem-Skips : (path : List ℕ) → Skips path (skipelem path)
unfolding skipelem span_elem elements_from
skipelem-Skips path = skips (skip_slashes path) refl
  where
    skips : (s : List ℕ) → skip_slashes path ≡ s → Skips path (skipelem path)
    skips [] e = rw (e, skipelem) (at_end (sym (elements-skip_slashes path) ∙ ap elements e))
    skips (c ∷ s) e =
        let inside = skip_slashes-first path c s e in
        rw (e, inside, skipelem)
          (takes (c ∷ (span_elem s).0) (skip_slashes (span_elem s).1)
            (sym (elements-skip_slashes path)
              ∙ ap elements e
              ∙ elements_cons c s inside
              ∙ ap (◌∷◌ (c ∷ (span_elem s).0)) (sym (elements-skip_slashes (span_elem s).1)))
            (omega (
              arith,
              ap length e,
              length-skip_slashes path,
              length-skip_slashes (span_elem s).1,
              length-span_elem s,
            ))
            (is_nil-skip_slashes (span_elem s).1))
