-- ===== src/Proc/Life/Fork.antt =====
-- What `fork` makes of the table, and the pids it gives out.
use os_lab.Base.{
  if◌then◌else◌, Bool-cases, length, get_elem?, take, modify, get_elem?-modify_self,
  get_elem?-modify_ne, ℕ, zero, suc, ◌<◌, ◌≡◌, refl, ◌∙◌, ◌≢◌, ◌⊎◌, inl, inr, true, false, Option,
  none, some, List, [], ◌∷◌, ◌++◌, arith,
}
use os_lab.Base.Int.{ℤ, pos, negsuc, ◌+ℤ◌, to_int, to_uint, eqb_ℤ}
use os_lab.Proc.{unused, runnable, Proc, ProcTable, rr, lcfs}
use os_lab.Proc.Float.{FloatOps}
use os_lab.Base.Find.{find_index, Found, missing, found, find_index-Found}
use os_lab.Proc.Life.{
  Call, idup, kfree, copy_files, dup_calls, is_unused, embryo_of, allocproc, child_of, fork_into,
  fork,
}

-- The result of `fork`, the calls it makes, and the table.
abbrev pub Answer : Type 0 → Type 0
Answer F = ℤ × List Call × ProcTable F

module _ {F : Type 0} (t : ProcTable F) where
  -- The entry `i` holds `q`, the others are as in `t`, and one pid is used up.
  pub record Places (i : ℕ) (q : Proc F) (t' : ProcTable F) : Type 0 where
    pub here : get_elem? t'.procs i ≡ some q
    pub others : (j : ℕ) → i ≢ j → get_elem? t'.procs j ≡ get_elem? t.procs j
    pub next : t'.nextpid ≡ to_int (to_uint (t.nextpid +ℤ pos 1))

  -- The new process `q` of the process `cur`, whose entry is `parent`; `p` is what the entry was.
  pub record IsForked (cur : ℕ) (stack dir : Option ℕ) (parent p q : Proc F) : Type 0 where
    pub own_memory : q.pgdir ≡ dir
    pub own_stack : q.kstack ≡ stack
    pub same_name : q.name ≡ take 15 parent.name
    pub same_files :
        (fd i : ℕ)
        → get_elem? parent.ofile fd ≡ some (some i)
        → fd < length p.ofile
        → get_elem? q.ofile fd ≡ some (some i)
    pub other_files :
        (fd : ℕ)
        → get_elem? parent.ofile fd ≡ some none
        → get_elem? q.ofile fd ≡ get_elem? p.ofile fd
    pub born : q.creation_time ≡ to_int t.ticks
    pub is_runnable : q.state ≡ runnable
    pub fresh : q.pid ≡ t.nextpid
    pub belongs : q.parent ≡ some cur
    pub same_size : q.sz ≡ parent.sz
    pub answers_0 : q.tf ≡ record parent.tf { eax = 0 }
    pub same_cwd : q.cwd ≡ parent.cwd
    pub in_queue : (q.que_id ≡ rr) ⊎ (q.que_id ≡ lcfs)

  -- What `fork` comes to: no entry is UNUSED; or memory runs out, and the entry is UNUSED again; or
  -- there is a new process.
  pub data Forks (cur : ℕ) (parent : Proc F) (stack dir : Option ℕ) : Answer F → Type 0 where
    full :
        ((j : ℕ) (q : Proc F) → get_elem? t.procs j ≡ some q → is_unused q ≡ false)
        → Forks cur parent stack dir (negsuc 0, [], t)
    no_memory :
        (i : ℕ) (q : Proc F) {calls : List Call} {t' : ProcTable F}
        → ((stack ≡ none) × (calls ≡ [])) ⊎ ((dir ≡ none) × (calls ≡ kfree stack ∷ []))
        → is_unused q ≡ true
        → Places i q t'
        → Forks cur parent stack dir (negsuc 0, calls, t')
    forked :
        (i : ℕ) (p q : Proc F) {t' : ProcTable F}
        → get_elem? t.procs i ≡ some p
        → is_unused p ≡ true
        → IsForked cur stack dir parent p q
        → Places i q t'
        → Forks cur parent stack dir (t.nextpid, dup_calls parent.ofile ++ idup parent.cwd ∷ [], t')

module _ {F : Type 0} (t : ProcTable F) (i : ℕ) where
  Places-first :
      (p : Proc F) (f : Proc F → Proc F)
      → get_elem? t.procs i ≡ some p
      → Places t i
          (f p)
          (record t { procs = modify t.procs i f; nextpid = to_int (to_uint (t.nextpid +ℤ pos 1)) })
  Places-first p f e = record {
    here = get_elem?-modify_self t.procs i f p e;
    others = λ j ne. get_elem?-modify_ne t.procs i j f ne;
    next = refl;
  }

  -- One more write to the entry.
  Places-again :
      (q : Proc F) (g : Proc F → Proc F) {t' : ProcTable F}
      → Places t i q t'
      → Places t i (g q) (record t' { procs = modify t'.procs i g })
  Places-again q g {t'} h = record {
    here = get_elem?-modify_self t'.procs i g q h.here;
    others = λ j ne. get_elem?-modify_ne t'.procs i j g ne ∙ h.others j ne;
    next = h.next;
  }

copy_files_open :
    (files old : List (Option ℕ)) (fd i : ℕ)
    → get_elem? files fd ≡ some (some i)
    → fd < length old
    → get_elem? (copy_files files old) fd ≡ some (some i)
unfolding copy_files
copy_files_open [] old fd i e lt = cc
copy_files_open (x ∷ files) [] fd i e lt = absurd (omega arith)
copy_files_open (some f ∷ files) (o ∷ old) zero i e lt = e
copy_files_open (none ∷ files) (o ∷ old) zero i e lt = cc
copy_files_open (some f ∷ files) (o ∷ old) (suc fd) i e lt =
    copy_files_open files old fd i e (omega arith)
copy_files_open (none ∷ files) (o ∷ old) (suc fd) i e lt =
    copy_files_open files old fd i e (omega arith)

copy_files_closed :
    (files old : List (Option ℕ)) (fd : ℕ)
    → get_elem? files fd ≡ some none
    → get_elem? (copy_files files old) fd ≡ get_elem? old fd
unfolding copy_files
copy_files_closed [] old fd e = cc
copy_files_closed (x ∷ files) [] fd e = refl
copy_files_closed (some f ∷ files) (o ∷ old) zero e = cc
copy_files_closed (none ∷ files) (o ∷ old) zero e = refl
copy_files_closed (some f ∷ files) (o ∷ old) (suc fd) e = copy_files_closed files old fd e
copy_files_closed (none ∷ files) (o ∷ old) (suc fd) e = copy_files_closed files old fd e

module _ {F : Type 0} (fl : FloatOps F) (t : ProcTable F) where
  queue_lem : (pid : ℤ) → let q = (if eqb_ℤ pid (pos 2) then rr else lcfs) in (q ≡ rr) ⊎ (q ≡ lcfs)
  queue_lem pid = elim (Bool-cases (eqb_ℤ pid (pos 2))) [
    | inl second ↦ rw second (inl refl)
    | inr other ↦ rw other (inr refl)
  ]

  -- The three ways out of `allocproc`.
  data Allocs : Option ℕ → Option ℕ × ProcTable F → Type 0 where
    none_unused :
        {stack : Option ℕ}
        → ((j : ℕ) (q : Proc F) → get_elem? t.procs j ≡ some q → is_unused q ≡ false)
        → Allocs stack (none, t)
    no_stack :
        (i : ℕ) (q : Proc F) {t' : ProcTable F}
        → is_unused q ≡ true
        → Places t i q t'
        → Allocs none (none, t')
    taken :
        (i k : ℕ) (p : Proc F) {t' : ProcTable F}
        → get_elem? t.procs i ≡ some p
        → is_unused p ≡ true
        → Places t i (record (embryo_of fl t.nextpid p) { kstack = some k }) t'
        → Allocs (some k) (some i, t')

  allocproc-Allocs :
      (stack o : Option ℕ)
      → find_index is_unused t.procs ≡ o
      → Found is_unused t.procs o
      → Allocs stack (allocproc fl t stack)
  unfolding allocproc
  allocproc-Allocs stack o e (missing n) = rw (e, allocproc) (none_unused n)
  allocproc-Allocs none o e (found i p g u before) =
      let placed = Places-first t i p (embryo_of fl t.nextpid) g in
      rw (e, allocproc)
        (no_stack i (record (embryo_of fl t.nextpid p) { kstack = none; state = unused }) refl
          (Places-again t i (embryo_of fl t.nextpid p)
            (λ p. record p { kstack = none; state = unused }) placed))
  allocproc-Allocs (some k) o e (found i p g u before) =
      let placed = Places-first t i p (embryo_of fl t.nextpid) g in
      rw (e, allocproc)
        (taken i k p g u
          (Places-again t i (embryo_of fl t.nextpid p) (λ p. record p { kstack = some k }) placed))

  -- `fork` has three ways out. It returns -1 and changes nothing if no entry is UNUSED. It returns
  -- -1 if `kalloc` or `copyuvm` fails: then the entry it took is UNUSED again, its stack is given
  -- back, and the others are as before. Otherwise it returns the next pid, and the entry that was
  -- UNUSED is a RUNNABLE child of the process with that pid, the memory that `copyuvm` made and the
  -- stack that `kalloc` gave; it has the size, the registers but for the answer 0, the current
  -- directory, the open files and the first 15 bytes of the name of its parent. A descriptor that
  -- the parent has closed is in the child as the entry had it. The other entries are as before.
  pub fork-Forks :
      (cur : ℕ) (parent : Proc F) (stack dir : Option ℕ)
      → Forks t cur parent stack dir (fork fl t cur parent stack dir)
  unfolding fork fork_into embryo_of child_of
  fork-Forks cur parent stack dir = after stack dir (allocproc fl t stack) (
      allocproc-Allocs stack (find_index is_unused t.procs) refl
        (find_index-Found is_unused t.procs))
    where
      after :
          (stack dir : Option ℕ) (r : Option ℕ × ProcTable F)
          → Allocs stack r
          → Forks t cur parent stack dir (fork_into fl t cur parent stack dir r)
      after stack dir r (none_unused n) = full n
      after stack dir r (no_stack i q u h) = no_memory i q (inl (refl, refl)) u h
      after stack none r (taken i k p g u h) =
          no_memory i _ (inr (refl, refl)) refl
            (Places-again t i _ (λ p. record p { kstack = none; state = unused }) h)
      after stack (some d) r (taken i k p g u h) =
          forked i p _ g u
            (record {
              own_memory = refl;
              own_stack = refl;
              same_name = refl;
              same_files = λ fd f. copy_files_open parent.ofile p.ofile fd f;
              other_files = λ fd. copy_files_closed parent.ofile p.ofile fd;
              born = refl;
              is_runnable = refl;
              fresh = refl;
              belongs = refl;
              same_size = refl;
              answers_0 = refl;
              same_cwd = refl;
              in_queue = queue_lem t.nextpid;
            })
            (Places-again t i _ (child_of fl t cur d parent) h)
