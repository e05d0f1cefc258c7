-- ===== src/Pipe/Files.antt =====
-- The entries of the table of files that `pipealloc` takes, and those that it gives back.
use os_lab.Base.{
  get_elem?, modify, get_elem?-modify_ne, ℕ, zero, suc, ◌+◌, ◌^◌, ◌<◌, ◌≡◌, refl, sym, ap, ◌∙◌,
  fun_ext, subst, ◌≢◌, Option, none, some, some-injective, List, [], ◌∷◌, arith, ℕ_discrete,
}
use os_lab.Base.Int.{pos, pos_part, ◌-ℤ◌, eqb_ℤ, eqb_ℤ_iff}
use os_lab.Base.Find.{find_index, Found, missing, found, find_index-Found}
use os_lab.Base.Outcome.{ok}
use os_lab.FileTable.{fd_none, File, filealloc, close_calls, fileclose}
use os_lab.FileTable.Counts.{IsCounted, recount, pos_of_eqb_ℤ, counts_kept}
use os_lab.Pipe.Alloc.{drop_end}

-- The counts are the numbers of holders, and a file that nobody holds has the type FD_NONE.
pub record IsTable (files : List File) (c : ℕ → ℕ) : Type 0 where
  pub counted : IsCounted files c
  pub blank : (i : ℕ) (f : File) → get_elem? files i ≡ some f → c i ≡ 0 → f.type ≡ fd_none

-- What a free entry turns into.
abbrev pub take_file : File → File
take_file f = record f { ref = pos 1 }

abbrev pub free_file : File → File
free_file f = record f { ref = pos 0; type = fd_none }

module _ (files : List File) (c : ℕ → ℕ) (i : ℕ) (f : File) (e : get_elem? files i ≡ some f)
    (v : IsTable files c) where
  -- An entry with another number of holders, that is not 0.
  pub entry_kept :
      (g : File → File) (n : ℕ)
      → (g f).ref ≡ pos n
      → 0 < n
      → n + 1 < 2 ^ 31
      → IsTable (modify files i g) (recount c i n)
  entry_kept g n same held lt = record {
    counted = counts_kept files c i f g n e v.counted same lt;
    blank = λ j h k z. elim (ℕ_discrete i j) [
      | yes ij ↦ absurd (ground (arith, ij, z))
      | no ne ↦ v.blank j h (sym (get_elem?-modify_ne files i j g ne) ∙ k) (ground (arith, ne, z))
    ];
  }

  pub free_entry : c i ≡ 0 → free_file f ≡ f
  free_entry z = ground (arith, v.counted.counts i f e, v.blank i f e z)

pub recount_same : (c : ℕ → ℕ) (i n : ℕ) → c i ≡ n → recount c i n ≡ c
recount_same c i n e = fun_ext (λ j. elim (ℕ_discrete i j) [
  | yes ij ↦ subst (λ k. recount c i n k ≡ c k) ij (ground arith)
  | no ne ↦ ground arith
])

-- `filealloc`, with the entry that it takes.
pub data Allocs (files : List File) (c : ℕ → ℕ) : Option ℕ × List File → Type 0 where
  all_held :
      ((j : ℕ) (f : File) → get_elem? files j ≡ some f → 0 < c j) → Allocs files c (none, files)
  takes :
      (i : ℕ) (f : File)
      → get_elem? files i ≡ some f
      → c i ≡ 0
      → Allocs files c (some i, modify files i take_file)

pub filealloc-Allocs :
    (files : List File) (c : ℕ → ℕ) → IsCounted files c → Allocs files c (filealloc files)
unfolding filealloc
filealloc-Allocs files c v =
    go (find_index (λ f. eqb_ℤ f.ref (pos 0)) files) refl
      (find_index-Found (λ f. eqb_ℤ f.ref (pos 0)) files)
  where
    go :
        (o : Option ℕ)
        → find_index (λ f. eqb_ℤ f.ref (pos 0)) files ≡ o
        → Found (λ f. eqb_ℤ f.ref (pos 0)) files o
        → Allocs files c (filealloc files)
    go o e (missing n) =
        rw (e, filealloc) (all_held (λ j f g. pos_of_eqb_ℤ f.ref (c j) (v.counts j f g) (n j f g)))
    go o e (found i f g free before) =
        rw (e, filealloc)
          (takes i f g (ap pos_part (sym (v.counts i f g) ∙ (eqb_ℤ_iff f.ref (pos 0)).0 free)))

pub modify_twice {ℓ} :
    {A : Type ℓ} (xs : List A) (i : ℕ) (g h : A → A) (x : A)
    → get_elem? xs i ≡ some x
    → h (g x) ≡ x
    → modify (modify xs i g) i h ≡ xs
modify_twice [] i g h x e back = refl
modify_twice (y ∷ xs) zero g h x e back =
    let same = some-injective _ _ e in
    ap (λ w. h (g w) ∷ xs) same ∙ ap (λ w. w ∷ xs) (back ∙ sym same)
modify_twice (y ∷ xs) (suc i) g h x e back = ap (◌∷◌ y) (modify_twice xs i g h x e back)

pub modify_comm {ℓ} :
    {A : Type ℓ} (xs : List A) (i j : ℕ) (g h : A → A)
    → i ≢ j
    → modify (modify xs i g) j h ≡ modify (modify xs j h) i g
modify_comm [] i j g h ne = refl
modify_comm (x ∷ xs) zero zero g h ne = absurd (ne refl)
modify_comm (x ∷ xs) zero (suc j) g h ne = refl
modify_comm (x ∷ xs) (suc i) zero g h ne = refl
modify_comm (x ∷ xs) (suc i) (suc j) g h ne =
    ap (◌∷◌ x) (modify_comm xs i j g h (λ e. ne (ap suc e)))

no_calls : (f : File) → f.type ≡ fd_none → close_calls f ≡ []
unfolding close_calls
no_calls f e = ground arith

-- The end of the only holder of a file that has no type.
pub drop_taken :
    (files : List File) (i : ℕ) (f : File)
    → get_elem? files i ≡ some (take_file f)
    → f.type ≡ fd_none
    → drop_end files (some i) ≡ ok ([], modify files i free_file)
unfolding drop_end fileclose ◌-ℤ◌
drop_taken files i f e none_type =
    rw (e, drop_end)
      (ap (λ calls. ok (calls, modify files i free_file)) (no_calls (take_file f) none_type))

-- Whether another file is free after `filealloc`.
pub only_free :
    (files : List File) (c : ℕ → ℕ) (i : ℕ)
    → ((j : ℕ) (f : File) → get_elem? (modify files i take_file) j ≡ some f → 0 < recount c i 1 j)
    → (j : ℕ) (f : File) → get_elem? files j ≡ some f
    → c j ≡ 0
    → i ≡ j
only_free files c i h j f e z = elim (ℕ_discrete i j) [
  | yes ij ↦ ij
  | no ne ↦ absurd (ground (arith, z, ne, h j f (get_elem?-modify_ne files i j take_file ne ∙ e)))
]
