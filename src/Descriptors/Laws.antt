-- ===== src/Descriptors/Laws.antt =====
-- The counts of references stay the numbers of holders.
use os_lab.Base.{
  Bool-cases, Option-cases, length, get_elem?, set, length-set, get_elem?-set_self,
  get_elem?-set_ne, length-modify, lt_of_get_elem?, ℕ, ◌+◌, ◌^◌, ◌<◌, ◌≡◌, refl, sym, ap, ◌∙◌,
  subst, ◌≢◌, inl, inr, false≢true, Option, none, some, some-injective, List, arith, ℕ_discrete,
}
use os_lab.Base.Int.{pos, negsuc, ltb_ℤ, add_int}
use os_lab.Base.Find.{find_index, Found, missing, found, find_index-Found}
use os_lab.Base.Outcome.{Outcome, ok, panic, Returns, panics, ok-injective}
use os_lab.Syscall.{User}
use os_lab.FileTable.{File, filedup}
use os_lab.FileTable.Counts.{IsCounted, recount, filedup-IsCounted}
use os_lab.Descriptors.{nofile, Ofile, is_free, argfd, fdalloc, Result, sys_dup}
use os_lab.Descriptors.Holders.{
  holds, holds-set-some, IsCounted-cong, get_elem?_of_lt, argfd_open, holds_pos,
}

-- The counts of the files are the holders elsewhere and the descriptors of this process.
pub record IsOpen (files : List File) (ofile : Ofile) (others : ℕ → ℕ) : Type 0 where
  pub sixteen : length ofile ≡ nofile
  pub counted : IsCounted files (λ i. others i + holds i ofile)
  pub valid : (fd i : ℕ) → get_elem? ofile fd ≡ some (some i) → i < length files

-- The answers of `sys_dup`.
pub data Dups (u : User) (files : List File) (ofile : Ofile) (others : ℕ → ℕ)
    : Result (Unit {0}) → Type 0 where
  no_file : argfd u ofile 0 ≡ none → Dups u files ofile others (ok (negsuc 0, tt, files, ofile))
  no_descriptor :
      ((fd : ℕ) → get_elem? ofile fd ≢ some none)
      → Dups u files ofile others (ok (negsuc 0, tt, files, ofile))
  duped :
      (fd i new : ℕ) (files' : List File)
      → argfd u ofile 0 ≡ some (fd, i)
      → get_elem? ofile new ≡ some none
      → ((j : ℕ) → j < new → get_elem? ofile j ≢ some none)
      → IsOpen files' (set ofile new (some i)) others
      → Dups u files ofile others (ok (pos new, tt, files', set ofile new (some i)))

length-filedup :
    (files : List File) (i : ℕ) (f : File) (files' : List File)
    → filedup files i f ≡ ok files'
    → length files' ≡ length files
unfolding filedup
length-filedup files i f files' e = elim (Bool-cases (ltb_ℤ f.ref (pos 1))) [
  | inl bad ↦ absurd (panics _ (sym (rw (filedup, bad) refl) ∙ e))
  | inr fine ↦
      ap length (sym (ok-injective _ _ (sym (rw (filedup, fine) refl) ∙ e)))
      ∙ length-modify files i (λ g. record g { ref = add_int g.ref (pos 1) })
]

IsOpen-dup :
    (files files' : List File) (ofile : Ofile) (others : ℕ → ℕ) (i new : ℕ)
    → IsOpen files ofile others
    → i < length files
    → get_elem? ofile new ≡ some none
    → length files' ≡ length files
    → IsCounted files' (recount (λ j. others j + holds j ofile) i (others i + holds i ofile + 1))
    → IsOpen files' (set ofile new (some i)) others
IsOpen-dup files files' ofile others i new inv lt free same v = record {
  sixteen = length-set ofile new (some i) ∙ inv.sixteen;
  counted = IsCounted-cong files' _ _ counts v;
  valid = valid;
}
  where
    at_i :
        recount (λ j. others j + holds j ofile) i (others i + holds i ofile + 1) i
        ≡ others i + holds i (set ofile new (some i))
    at_i = ground (arith, holds-set-some i i new ofile free)

    counts :
        (j : ℕ)
        → recount (λ j. others j + holds j ofile) i (others i + holds i ofile + 1) j
          ≡ others j + holds j (set ofile new (some i))
    counts j = elim (ℕ_discrete i j) [
      | yes e ↦
          subst
            (λ j.
              recount (λ j'. others j' + holds j' ofile) i (others i + holds i ofile + 1) j
              ≡ others j + holds j (set ofile new (some i)))
            e at_i
      | no ne ↦ ground (arith, ne, holds-set-some j i new ofile free)
    ]

    valid : (fd k : ℕ) → get_elem? (set ofile new (some i)) fd ≡ some (some k) → k < length files'
    valid fd k e = elim (ℕ_discrete new fd) [
      | yes here ↦
          let same_entry =
            sym (get_elem?-set_self ofile new (some i) (lt_of_get_elem? ofile new none free))
            ∙ ap (get_elem? (set ofile new (some i))) here
            ∙ e in
          let same_file = some-injective _ _ (some-injective _ _ same_entry) in
          omega (arith, same_file, lt, same)
      | no ne ↦
          subst (λ n. k < n) (sym same)
            (inv.valid fd k (sym (get_elem?-set_ne ofile (some i) ne) ∙ e))
    ]

-- `sys_dup` never panics: it returns -1 and changes nothing if its argument is no descriptor in use or if
-- all are; else it returns the lowest free descriptor, which then holds the same file, and the counts
-- of references are again the numbers of holders.
pub sys_dup-Dups :
    (u : User) (files : List File) (ofile : Ofile) (others : ℕ → ℕ)
    → IsOpen files ofile others
    → ((i : ℕ) → others i + holds i ofile + 2 < 2 ^ 31)
    → Dups u files ofile others (sys_dup u files ofile)
unfolding sys_dup fdalloc
sys_dup-Dups u files ofile others inv small = elim (Option-cases (argfd u ofile 0)) [
  | inl bad ↦ rw (sys_dup, bad) (no_file bad)
  | inr ((fd, i), e) ↦
      by_free fd i e (find_index is_free ofile) refl (find_index-Found is_free ofile)
]
  where
    by_dup :
        (fd i new : ℕ) (f : File)
        → argfd u ofile 0 ≡ some (fd, i)
        → find_index is_free ofile ≡ some new
        → get_elem? ofile new ≡ some none
        → ((j : ℕ) → j < new → get_elem? ofile j ≢ some none)
        → get_elem? files i ≡ some f
        → (r : Outcome (List File)) → filedup files i f ≡ r
        → Returns
            (λ files'.
              IsCounted files'
                (recount (λ j. others j + holds j ofile) i (others i + holds i ofile + 1)))
            r
        → Dups u files ofile others (sys_dup u files ofile)
    by_dup fd i new f e g free before ef panic d v = absurd v
    by_dup fd i new f e g free before ef (ok files') d v =
        rw (sys_dup, e, fdalloc, g, ef, d)
          (duped fd i new files' e free before (
            IsOpen-dup files files' ofile others i new inv (lt_of_get_elem? files i f ef) free
              (length-filedup files i f files' d) v))

    by_free :
        (fd i : ℕ)
        → argfd u ofile 0 ≡ some (fd, i)
        → (o : Option ℕ) → find_index is_free ofile ≡ o
        → Found is_free ofile o
        → Dups u files ofile others (sys_dup u files ofile)
    by_free fd i e o g (missing n) =
        rw (sys_dup, e, fdalloc, g) (no_descriptor (λ d h. false≢true (sym (n d none h))))
    by_free fd i e o g (found new (some k) at free before) = absurd (false≢true free)
    by_free fd i e o g (found new none at free before) =
        let held = argfd_open u ofile 0 fd i e in
        let (f, ef) = get_elem?_of_lt files i (inv.valid fd i held) in
        elim (filedup-IsCounted files (λ j. others j + holds j ofile) i f ef inv.counted
          (small i)) [
            | inl (no_one, p) ↦ absurd (omega (arith, no_one, holds_pos i fd ofile held))
            | inr (some_one, v) ↦
                by_dup fd i new f e g at (λ j lt h. false≢true (sym (before j none h lt))) ef
                  (filedup files i f) refl v
          ]
