-- ===== src/FileTable/Counts.antt =====
-- The counts of references are the numbers of holders.
use os_lab.Base.Find.{find_index, Found, missing, found, find_index-Found}
use os_lab.Base.Outcome.{panic, Returns}
use os_lab.Base.{
  ◌==◌, if◌then◌else◌, Bool-cases, get_elem?, modify, get_elem?-modify_self, get_elem?-modify_ne, ℕ,
  ◌+◌, ◌-◌, ◌^◌, ◌<◌, ◌≡◌, refl, sym, ap, ◌∙◌, subst, ◌⊎◌, inl, inr, true, false, Option, none,
  some, some-injective, List, [], arith, ℕ_discrete,
}
use os_lab.Base.Int.{
  ℤ, pos, pos_part, ltb_ℤ, sub_int, gtb_ℤ, eqb_ℤ, eqb_ℤ_iff, add_int, add_int_one, sub_int_one,
}
use os_lab.FileTable.{fd_none, File, CloseCall, filealloc, filedup, close_calls, fileclose}

-- `c i` is how many descriptors and processes hold the file at `i`; no count comes near an overflow.
pub record IsCounted (files : List File) (c : ℕ → ℕ) : Type 0 where
  pub counts : (i : ℕ) (f : File) → get_elem? files i ≡ some f → f.ref ≡ pos (c i)
  pub small : (i : ℕ) → c i + 1 < 2 ^ 31

-- The count of `i` set to `n`.
abbrev pub recount : (ℕ → ℕ) → ℕ → ℕ → ℕ → ℕ
recount c i n j = if i == j then n else c j

pos_of_gtb_ℤ : (z : ℤ) (n : ℕ) → z ≡ pos n → gtb_ℤ z (pos 0) ≡ true → 0 < n
pos_of_gtb_ℤ z n e h = let h' = subst (λ y. gtb_ℤ y (pos 0) ≡ true) e h in ground arith

zero_of_gtb_ℤ : (z : ℤ) (n : ℕ) → z ≡ pos n → gtb_ℤ z (pos 0) ≡ false → n ≡ 0
zero_of_gtb_ℤ z n e h = let h' = subst (λ y. gtb_ℤ y (pos 0) ≡ false) e h in ground arith

pub pos_of_eqb_ℤ : (z : ℤ) (n : ℕ) → z ≡ pos n → eqb_ℤ z (pos 0) ≡ false → 0 < n
pos_of_eqb_ℤ z n e h = let h' = subst (λ y. eqb_ℤ y (pos 0) ≡ false) e h in ground arith

module _ (files : List File) (c : ℕ → ℕ) (i : ℕ) (f : File) where
  pub counts_kept :
      (g : File → File) (n : ℕ)
      → get_elem? files i ≡ some f
      → IsCounted files c
      → (g f).ref ≡ pos n
      → n + 1 < 2 ^ 31
      → IsCounted (modify files i g) (recount c i n)
  counts_kept g n e v same lt = record { counts = counts; small = small }
    where
      small : (j : ℕ) → recount c i n j + 1 < 2 ^ 31
      small j = elim (ℕ_discrete i j) [
        | yes ij ↦ ground (arith, ij)
        | no ne ↦ ground (arith, ne, v.small j)
      ]

      counts :
          (j : ℕ) (h : File)
          → get_elem? (modify files i g) j ≡ some h
          → h.ref ≡ pos (recount c i n j)
      counts j h k = elim (ℕ_discrete i j) [
        | yes ij ↦
            let at_i =
              sym (get_elem?-modify_self files i g f e)
              ∙ ap (get_elem? (modify files i g)) ij
              ∙ k in
            sym (ap (λ (r : File). r.ref) (some-injective _ _ at_i))
            ∙ same
            ∙ ap pos (ground (arith, ij))
        | no ne ↦
            v.counts j h (sym (get_elem?-modify_ne files i j g ne) ∙ k)
            ∙ ap pos (ground (arith, ne))
      ]

-- What `filealloc` answers.
abbrev pub Allocated : List File → (ℕ → ℕ) → Option ℕ × List File → Type 0
Allocated files c (none, files') =
    (files' ≡ files) × ((j : ℕ) (f : File) → get_elem? files j ≡ some f → 0 < c j)
Allocated files c (some i, files') = (c i ≡ 0) × IsCounted files' (recount c i 1)

-- `filealloc` hands out a file that nobody holds and counts one holder for it; it returns 0, and changes
-- nothing, only if every file is held.
pub filealloc-Allocated :
    (files : List File) (c : ℕ → ℕ) → IsCounted files c → Allocated files c (filealloc files)
unfolding filealloc
filealloc-Allocated files c v =
    go (find_index (λ f. eqb_ℤ f.ref (pos 0)) files) refl
      (find_index-Found (λ f. eqb_ℤ f.ref (pos 0)) files)
  where
    go :
        (o : Option ℕ)
        → find_index (λ f. eqb_ℤ f.ref (pos 0)) files ≡ o
        → Found (λ f. eqb_ℤ f.ref (pos 0)) files o
        → Allocated files c (filealloc files)
    go o e (missing n) =
        rw (e, filealloc) (refl, λ j f g. pos_of_eqb_ℤ f.ref (c j) (v.counts j f g) (n j f g))
    go o e (found i f g free before) =
        let zero_ref : f.ref ≡ pos 0 = (eqb_ℤ_iff f.ref (pos 0)).0 free in
        rw (e, filealloc)
          (
            ap pos_part (sym (v.counts i f g) ∙ zero_ref),
            counts_kept files c i f (λ h. record h { ref = pos 1 }) 1 g v refl (omega arith),
          )

module _ (files : List File) (c : ℕ → ℕ) (i : ℕ) (f : File) where
  -- `filedup` of a file that somebody holds does not panic and counts one more holder; of a file that
  -- nobody holds it panics.
  pub filedup-IsCounted :
      get_elem? files i ≡ some f
      → IsCounted files c
      → c i + 2 < 2 ^ 31
      → ((c i ≡ 0) × (filedup files i f ≡ panic))
        ⊎ ((0 < c i)
            × Returns (λ files'. IsCounted files' (recount c i (c i + 1))) (filedup files i f))
  unfolding filedup
  filedup-IsCounted g v lt = elim (ℕ_discrete (c i) 0) [
    | yes free ↦ inl (free, rw (v.counts i f g ∙ ap pos free, filedup) refl)
    | no held ↦
        let guard : ltb_ℤ f.ref (pos 1) ≡ false = rw (v.counts i f g) (ground (arith, held)) in
        inr (
          omega arith,
          rw (guard, filedup)
              (counts_kept files c i f (λ h. record h { ref = add_int h.ref (pos 1) }) (c i + 1) g v
                (ap (λ z. add_int z (pos 1)) (v.counts i f g) ∙ add_int_one (c i) (v.small i))
                (omega arith)),
        )
  ]

  -- What `fileclose` leaves, by the number of holders before.
  abbrev pub Closed : ℕ → List CloseCall × List File → Type 0
  Closed n (calls, files') =
      IsCounted files' (recount c i n)
      × (((n ≡ 0) × (calls ≡ close_calls f)) ⊎ ((0 < n) × (calls ≡ [])))

  -- `fileclose` of a file that nobody holds panics. Otherwise it does not panic, counts one holder fewer,
  -- and gives back the pipe or the inode exactly when that was the last holder.
  pub fileclose-Closed :
      get_elem? files i ≡ some f
      → IsCounted files c
      → ((c i ≡ 0) × (fileclose files i f ≡ panic))
        ⊎ ((n : ℕ) × (c i ≡ n + 1) × Returns (Closed n) (fileclose files i f))
  unfolding fileclose
  fileclose-Closed g v = elim (ℕ_discrete (c i) 0) [
    | yes free ↦ inl (free, rw (v.counts i f g ∙ ap pos free, fileclose) refl)
    | no held ↦
        let guard : ltb_ℤ f.ref (pos 1) ≡ false = rw (v.counts i f g) (ground (arith, held)) in
        let n = c i - 1 in
        let more : c i ≡ n + 1 = omega arith in
        let fits : n + 1 + 1 < 2 ^ 31 = omega (arith, v.small i) in
        let left : sub_int f.ref (pos 1) ≡ pos n =
          ap (λ z. sub_int z (pos 1)) (v.counts i f g ∙ ap pos more)
          ∙ sub_int_one n (omega arith) in
        inr (
          n,
          more,
          elim (Bool-cases (gtb_ℤ (sub_int f.ref (pos 1)) (pos 0))) [
            | inl others ↦
                rw (guard, others, fileclose)
                  (
                    counts_kept files c i f (λ h. record h { ref = sub_int f.ref (pos 1) }) n g v
                        left (omega arith),
                    inr (pos_of_gtb_ℤ (sub_int f.ref (pos 1)) n left others, refl),
                  )
            | inr last ↦
                let none_left : n ≡ 0 = zero_of_gtb_ℤ (sub_int f.ref (pos 1)) n left last in
                rw (guard, last, fileclose)
                  (
                    counts_kept files c i f (λ h. record h { ref = pos 0; type = fd_none }) n g v
                        (ap pos (sym none_left)) (omega arith),
                    inl (none_left, refl),
                  )
          ],
        )
  ]
