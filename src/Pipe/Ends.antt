-- ===== src/Pipe/Ends.antt =====
-- What `pipealloc` answers.
use os_lab.FileTable.{fd_pipe, File, filealloc}
use os_lab.Pipe.{pipe_init}
use os_lab.Pipe.Alloc.{
  read_end, write_end, drop_end, PipeEnd, bad_pipe, pipe_files, second_file, first_file, pipealloc,
}
use os_lab.Pipe.Files.{
  IsTable, take_file, free_file, entry_kept, free_entry, recount_same, Allocs, all_held, takes,
  filealloc-Allocs, modify_twice, modify_comm, drop_taken, only_free,
}
use os_lab.Base.Outcome.{ok, Returns}
use os_lab.FileTable.Counts.{recount}
use os_lab.Base.{
  get_elem?, modify, get_elem?-modify_self, get_elem?-modify_ne, ℕ, ◌≡◌, refl, sym, ap, ◌∙◌, subst,
  ◌≢◌, ◌⊎◌, inl, inr, true, false, Option, none, some, List, [], arith,
}

-- One holder for each of two files.
abbrev pub both : (ℕ → ℕ) → ℕ → ℕ → ℕ → ℕ
both c i j = recount (recount c i 1) j 1

-- What `pipealloc` answers.
abbrev pub PipeMade : List File → (ℕ → ℕ) → Option (ℕ × List ℕ) → PipeEnd → Type 0
PipeMade files c page (none, calls, files') =
    (calls ≡ [])
    × (files' ≡ files)
    × ((page ≡ none)
        ⊎ ((j k : ℕ) (f g : File)
            → get_elem? files j ≡ some f
            → get_elem? files k ≡ some g
            → c j ≡ 0
            → c k ≡ 0
            → j ≡ k))
PipeMade files c page (some (i, j, pipe), calls, files') =
    (calls ≡ [])
    × (i ≢ j)
    × (c i ≡ 0)
    × (c j ≡ 0)
    × IsTable files' (both c i j)
    × ((p : ℕ) × (bytes : List ℕ) × (f : File) × (g : File) × (page ≡ some (p, bytes))
        × (pipe ≡ record { ring = bytes; nread = 0; nwrite = 0; readopen = true; writeopen = true })
        × (get_elem? files' i
            ≡ some (record f { type = fd_pipe; readable = true; writable = false; pipe = some p }))
        × (get_elem? files' j
            ≡ some (record g { type = fd_pipe; readable = false; writable = true; pipe = some p })))

module _ (files : List File) (c : ℕ → ℕ) (v : IsTable files c) (i : ℕ) (f : File)
    (e : get_elem? files i ≡ some f) (z : c i ≡ 0) where
  -- The table with the first file taken, and what is left when it is dropped.
  one_taken : IsTable (modify files i take_file) (recount c i 1)
  one_taken = entry_kept files c i f e v take_file 1 refl (omega arith) (omega arith)

  dropped_one :
      (rest : List File)
      → get_elem? rest i ≡ some (take_file f)
      → drop_end rest (some i) ≡ ok ([], modify rest i free_file)
  dropped_one rest k = drop_taken rest i f k (v.blank i f e z)

  put_back : modify (modify files i take_file) i free_file ≡ files
  put_back = modify_twice files i take_file free_file f e (free_entry files c i f e v z)

  undone_one : bad_pipe (modify files i take_file) (some i) none ≡ ok (none, [], files)
  unfolding bad_pipe
  undone_one =
      rw
        (
          dropped_one (modify files i take_file) (get_elem?-modify_self files i take_file f e),
          bad_pipe,
        )
        (ap (λ fs. ok (none, [], fs)) put_back)

  module _ (j : ℕ) (g : File) (k : get_elem? (modify files i take_file) j ≡ some g)
      (y : recount c i 1 j ≡ 0) where
    apart : i ≢ j
    apart same = absurd (ground (arith, y, same))

    was_free : c j ≡ 0
    was_free = ground (arith, y, apart)

    before : get_elem? files j ≡ some g
    before = sym (get_elem?-modify_ne files i j take_file apart) ∙ k

    first_entry : get_elem? (modify (modify files i take_file) j take_file) i ≡ some (take_file f)
    first_entry =
        get_elem?-modify_ne (modify files i take_file) j i take_file (λ same. apart (sym same))
        ∙ get_elem?-modify_self files i take_file f e

    dropped_two :
        drop_end (modify (modify (modify files i take_file) j take_file) i free_file) (some j)
        ≡ ok ([], files)
    dropped_two =
        ap (λ fs. drop_end fs (some j))
          (modify_comm (modify files i take_file) j i take_file free_file (λ same. apart (sym same))
            ∙ ap (λ fs. modify fs j take_file) put_back)
        ∙ drop_taken (modify files j take_file) j g
            (get_elem?-modify_self files j take_file g before) (v.blank j g before was_free)
        ∙ ap (λ fs. ok ([], fs))
            (modify_twice files j take_file free_file g before
              (free_entry files c j g before v was_free))

    undone_two :
        bad_pipe (modify (modify files i take_file) j take_file) (some i) (some j)
        ≡ ok (none, [], files)
    unfolding bad_pipe
    undone_two =
        rw (dropped_one (modify (modify files i take_file) j take_file) first_entry, bad_pipe)
          (rw (dropped_two) refl)

    two_taken : IsTable (modify (modify files i take_file) j take_file) (both c i j)
    two_taken =
        entry_kept (modify files i take_file) (recount c i 1) j g k one_taken take_file 1 refl
          (omega arith) (omega arith)

    -- The fields of the first file, and of the second.
    first_set :
        (p : ℕ)
        → IsTable
            (modify (modify (modify files i take_file) j take_file) i (read_end p))
            (both c i j)
    first_set p = subst (IsTable _) (recount_same (both c i j) i 1 (ground arith)) (
        entry_kept _ (both c i j) i (take_file f) first_entry two_taken (read_end p) 1 refl
          (omega arith) (omega arith))

    second_entry :
        (p : ℕ)
        → get_elem? (modify (modify (modify files i take_file) j take_file) i (read_end p)) j
          ≡ some (take_file g)
    second_entry p =
        get_elem?-modify_ne (modify (modify files i take_file) j take_file) i j (read_end p) apart
        ∙ get_elem?-modify_self (modify files i take_file) j take_file g k

    second_set :
        (p : ℕ)
        → IsTable
            (modify
              (modify (modify (modify files i take_file) j take_file) i (read_end p))
              j
              (write_end p))
            (both c i j)
    second_set p = subst (IsTable _) (recount_same (both c i j) j 1 (ground arith)) (
        entry_kept _ (both c i j) j (take_file g) (second_entry p) (first_set p) (write_end p) 1
          refl (omega arith) (omega arith))

    with_page :
        (page : Option (ℕ × List ℕ))
        → Returns
            (PipeMade files c page)
            (pipe_files (modify (modify files i take_file) j take_file) i j page)
    unfolding pipe_files pipe_init
    with_page none = subst (Returns (PipeMade files c none)) (sym undone_two) (refl, refl, inl refl)
    with_page (some (p, bytes)) = (
      refl,
      apart,
      z,
      was_free,
      second_set p,
      (
        p,
        bytes,
        take_file f,
        take_file g,
        refl,
        refl,
        get_elem?-modify_ne _ j i (write_end p) (λ same. apart (sym same))
            ∙ get_elem?-modify_self _ i (read_end p) (take_file f) first_entry,
        get_elem?-modify_self _ j (write_end p) (take_file g) (second_entry p),
      ),
    )

module _ (files : List File) (c : ℕ → ℕ) (page : Option (ℕ × List ℕ)) (v : IsTable files c) where
  with_first :
      (i : ℕ) (f : File) (e : get_elem? files i ≡ some f) (z : c i ≡ 0) (o : Option ℕ × List File)
      → Allocs (modify files i take_file) (recount c i 1) o
      → Returns (PipeMade files c page) (second_file i page o)
  unfolding second_file
  with_first i f e z _ (all_held h) =
      subst (Returns (PipeMade files c page)) (sym (undone_one files c v i f e z)) (
        refl,
        refl,
        inr (λ j k g g' at_j at_k free_j free_k.
            sym (only_free files c i h j g at_j free_j) ∙ only_free files c i h k g' at_k free_k),
      )
  with_first i f e z _ (takes j g k y) = with_page files c v i f e z j g k y page

  with_none :
      (o : Option ℕ × List File)
      → Allocs files c o
      → Returns (PipeMade files c page) (first_file page o)
  unfolding first_file bad_pipe drop_end
  with_none _ (all_held h) = (refl, refl, inr (λ j k f g e _ z _. absurd (ground (arith, h j f e))))
  with_none _ (takes i f e z) =
      with_first i f e z (filealloc (modify files i take_file))
        (filealloc-Allocs _ _ (one_taken files c v i f e z).counted)

  -- On a table of files whose counts are the numbers of holders, and whose files that nobody holds have
  -- the type FD_NONE: `pipealloc` does not panic and gives no pipe or inode back. With an answer of two
  -- files they are two that nobody held, each has one holder now and the counts of the others
  -- stay; the table is in order; the first is the read end and the second the write end of the page that
  -- `kalloc` gave, which is an empty pipe with both ends open. At the answer -1 the table is as it was,
  -- and `kalloc` gave no page or fewer than two files were free.
  pub pipealloc-PipeMade : Returns (PipeMade files c page) (pipealloc files page)
  unfolding pipealloc
  pipealloc-PipeMade = with_none (filealloc files) (filealloc-Allocs files c v.counted)
