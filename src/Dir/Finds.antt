-- ===== src/Dir/Finds.antt =====
-- `dirlookup` against what it is to find, said without its own loop and comparison.
use os_lab.CString.Strings.{compare_bytes}
use os_lab.Base.{
  Option-cases, ℕ, zero, suc, ◌+◌, ◌*◌, ◌/◌, ◌≤◌, ◌<◌, ◌≡◌, refl, sym, subst, ◌≢◌, ◌↔◌, inl, inr,
  true, Option, none, some, List, arith, ℕ_discrete,
}
use os_lab.Base.Int.{pos, eqb_ℤ_iff}
use os_lab.Base.Outcome.{ok}
use os_lab.Fs.{Fs, Inode, ReadDevices}
use os_lab.Fs.Slots.{byte_at}
use os_lab.Dir.{bytes_of, namecmp, dirlookup}
use os_lab.Dir.Lookup.{inum_at, name_at, hit, entry_of, entry_of-hit, entry_of_skip}
use os_lab.Dir.Scan.{IsDir}
use os_lab.Dir.Link.{entry_named, dirlookup-eq-entry_named}

-- Two names are the same if their bytes are, up to the first NUL and as far as the 14th.
abbrev pub IsSameName : (ℕ → ℕ) → (ℕ → ℕ) → Type 0
IsSameName s t = (i : ℕ) → i < 14 → ((j : ℕ) → j < i → s j ≢ 0) → s i ≡ t i

-- The entry at the offset `o` is in use, for the inode `i`, and has the name.
abbrev pub IsEntry : (ℕ → ℕ) → (ℕ → ℕ) → ℕ → ℕ → Type 0
IsEntry view name o i =
    (i ≡ view o + 256 * view (o + 1)) × (i ≢ 0) × IsSameName name (λ k. view (o + 2 + k))

-- The offset and the inode of the first of the `n` entries from `o` on that is in use and has the name.
pub data FirstEntry (view name : ℕ → ℕ) (n o : ℕ) : Option (ℕ × ℕ) → Type 0 where
  found :
      (k i : ℕ)
      → k < n
      → IsEntry view name (o + 16 * k) i
      → ((j m : ℕ) → j < k → IsEntry view name (o + 16 * j) m → ⊥)
      → FirstEntry view name n o (some (o + 16 * k, i))
  missing :
      ((j m : ℕ) → j < n → IsEntry view name (o + 16 * j) m → ⊥) → FirstEntry view name n o none

module _ (p q : ℕ → ℕ) where
  abbrev SameFrom : ℕ → ℕ → Type 0
  SameFrom at n = (i : ℕ) → at ≤ i → i < at + n → ((j : ℕ) → at ≤ j → j < i → p j ≢ 0) → p i ≡ q i

  compare_bytes_same : (at n : ℕ) → compare_bytes p q at n ≡ pos 0 → SameFrom at n
  unfolding compare_bytes
  compare_bytes_same at zero e i le lt before = absurd (omega arith)
  compare_bytes_same at (suc n) e i le lt before = elim (ℕ_discrete at i) [
    | yes here ↦ subst (λ k. p k ≡ q k) here first
    | no there ↦
        compare_bytes_same (at + 1) n (on (before at (omega arith) (omega arith))) i (omega arith)
          (omega arith) (λ j l. before j (omega arith))
  ]
    where
      first : p at ≡ q at
      first = ground (arith, e)

      on : p at ≢ 0 → compare_bytes p q (at + 1) n ≡ pos 0
      on ne = ground (arith, e, first)

  same_after : (at n : ℕ) → p at ≢ 0 → SameFrom at (suc n) → SameFrom (at + 1) n
  same_after at n ne h i le lt before = h i (omega arith) (omega arith) (λ j l k.
      elim (ℕ_discrete at j) [
        | yes e ↦ subst (λ z. p z ≢ 0) e ne
        | no other ↦ before j (omega arith) k
      ])

  same_compare_bytes : (at n : ℕ) → SameFrom at n → compare_bytes p q at n ≡ pos 0
  unfolding compare_bytes
  same_compare_bytes at zero h = refl
  same_compare_bytes at (suc n) h =
      let on = λ (ne : p at ≢ 0). same_compare_bytes (at + 1) n (same_after at n ne h) in
      ground (arith, h at (omega arith) (omega arith) (λ j l k. absurd (omega arith)), on)

namecmp-IsSameName : (s t : ℕ → ℕ) → (namecmp s t ≡ true) ↔ IsSameName s t
namecmp-IsSameName s t = (
  λ e i lt before.
      compare_bytes_same s t 0 14 ((eqb_ℤ_iff _ _).0 e) i (omega arith) lt (λ j l. before j),
  λ h.
      (eqb_ℤ_iff _ _).1
        (same_compare_bytes s t 0 14 (λ i l lt before. h i lt (λ j. before j (omega arith)))),
)

module _ (view name : ℕ → ℕ) where
  hit_parts :
      (o i : ℕ)
      → hit view name o ≡ some i
      → (inum_at view o ≡ i) × (i ≢ 0) × (namecmp name (name_at view o) ≡ true)
  unfolding hit
  hit_parts o i e = ground (arith, e)

  hit_made :
      (o i : ℕ)
      → i ≡ inum_at view o
      → i ≢ 0
      → namecmp name (name_at view o) ≡ true
      → hit view name o ≡ some i
  unfolding hit
  hit_made o i e ne same = ground (arith, e, ne, same)

  hit-IsEntry : (o i : ℕ) → (hit view name o ≡ some i) ↔ IsEntry view name o i
  unfolding hit
  hit-IsEntry o i = (
    λ e.
        let (used, ne, same) = hit_parts o i e in
        (sym used, ne, (namecmp-IsSameName name (name_at view o)).0 same),
    λ (number, ne, same).
        hit_made o i number ne ((namecmp-IsSameName name (name_at view o)).1 same),
  )

  no_entry : (o i : ℕ) → hit view name o ≡ none → IsEntry view name o i → ⊥
  no_entry o i none_here entry = let e = (hit-IsEntry o i).1 entry in cc

  earlier :
      (o k : ℕ)
      → hit view name o ≡ none
      → ((j m : ℕ) → j < k → IsEntry view name (o + 16 + 16 * j) m → ⊥)
      → (j m : ℕ) → j < suc k
      → IsEntry view name (o + 16 * j) m
      → ⊥
  earlier o k h before zero m lt entry =
      no_entry o m h (subst (λ z. IsEntry view name z m) (omega arith) entry)
  earlier o k h before (suc j) m lt entry =
      before j m (omega arith) (subst (λ z. IsEntry view name z m) (omega arith) entry)

  -- One entry more before the others.
  later :
      (n o : ℕ) (r : Option (ℕ × ℕ))
      → hit view name o ≡ none
      → FirstEntry view name n (o + 16) r
      → FirstEntry view name (suc n) o r
  later n o r h (found k i lt entry before) =
      subst (λ z. FirstEntry view name (suc n) o (some (z, i))) (omega arith)
        (found (suc k) i (omega arith) (subst (λ z. IsEntry view name z i) (omega arith) entry)
          (earlier o k h before))
  later n o r h (missing none_there) = missing (earlier o n h none_there)

  pub entry_of-FirstEntry : (n o : ℕ) → FirstEntry view name n o (entry_of view name n o)
  unfolding entry_of
  entry_of-FirstEntry zero o = missing (λ j m lt. absurd (omega arith))
  entry_of-FirstEntry (suc n) o = elim (Option-cases (hit view name o)) [
    | inr (i, h) ↦ subst (FirstEntry view name (suc n) o) (sym (entry_of-hit view name n o i h)) (
        subst (λ z. FirstEntry view name (suc n) o (some (z, i))) (omega arith)
          (found 0 i (omega arith)
            (subst (λ z. IsEntry view name z i) (omega arith) ((hit-IsEntry o i).0 h))
            (λ j m lt. absurd (omega arith))))
    | inl h ↦
        subst (FirstEntry view name (suc n) o) (sym (entry_of_skip view name n o h))
          (later n o (entry_of view name n (o + 16)) h (entry_of-FirstEntry n (o + 16)))
  ]

-- `dirlookup` on a directory whose blocks are its own and whose size is that of whole entries: it
-- returns, within its fuel and without a panic, the offset and the inode number of the first entry
-- that is in use and has the same bytes for a name up to a NUL or the 14th, or none if there is no
-- such entry, and changes neither the disk nor the inode.
pub dirlookup-FirstEntry :
    (devsw : ReadDevices) (fs : Fs) (dp : Inode) (name : List ℕ)
    → IsDir fs dp
    → (r : Option (ℕ × ℕ)) × (dirlookup devsw fs dp name ≡ some (ok (r, fs, dp)))
      × FirstEntry (byte_at fs dp) (bytes_of name) (dp.size / 16) 0 r
dirlookup-FirstEntry devsw fs dp name d = (
  entry_named fs dp name,
  dirlookup-eq-entry_named devsw fs dp name d,
  entry_of-FirstEntry (byte_at fs dp) (bytes_of name) (dp.size / 16) 0,
)
