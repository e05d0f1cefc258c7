-- ===== src/Proc/Life.antt =====
-- proc.c: the life of a process: `allocproc`, `fork`, `exit` up to its `sched`, and `wait`. Calls of
-- other components are listed in the order in which they are made, and what `kalloc` and `copyuvm`
-- answer is an argument. `fork` and `exit` are one step each. What a new stack
-- holds until the frames are written is left out.
pub mod Wait
pub mod Exit
pub mod Parents
pub mod Awake
pub mod Fork
pub mod Numbers
mod Tests
use os_lab.Base.{
  ◌==◌, if◌then◌else◌, length, get_elem?, take, modify, ℕ, zero, suc, Bool, true, false, ◌||◌, not,
  Option, none, some, List, [], ◌∷◌, ◌++◌, map,
}
use os_lab.Base.Find.{find_index}
use os_lab.Base.Int.{ℤ, pos, negsuc, ◌+ℤ◌, to_int, to_uint, eqb_ℤ}
use os_lab.Base.Outcome.{Outcome, ok, ◌>>◌, panic_if}
use os_lab.Proc.{
  unused, embryo, runnable, zombie, state_eq, process, chan_of, Proc, ProcTable, rr, lcfs,
  priority_def,
}
use os_lab.Proc.Float.{FloatOps}
use os_lab.Proc.Wakeup.{sleep, wakeup1}

-- `filedup`, `idup`, `kfree`, `freevm`, `fileclose` and `iput`.
pub data Call : Type 0 where
  filedup : ℕ → Call
  idup : Option ℕ → Call
  kfree : Option ℕ → Call
  freevm : Option ℕ → Call
  fileclose : ℕ → Call
  iput : Option ℕ → Call

-- The loop over `ofile`: an entry that is 0 in the parent stays what it was in the child.
unfoldable pub copy_files : List (Option ℕ) → List (Option ℕ) → List (Option ℕ)
copy_files [] old = old
copy_files files [] = []
copy_files (some f ∷ files) (o ∷ old) = some f ∷ copy_files files old
copy_files (none ∷ files) (o ∷ old) = o ∷ copy_files files old

abbrev pub dup_calls : List (Option ℕ) → List Call
dup_calls [] = []
dup_calls (some f ∷ files) = filedup f ∷ dup_calls files
dup_calls (none ∷ files) = dup_calls files

abbrev pub close_calls : List (Option ℕ) → List Call
close_calls [] = []
close_calls (some f ∷ files) = fileclose f ∷ close_calls files
close_calls (none ∷ files) = close_calls files

abbrev pub points_to : ℕ → Option ℕ → Bool
points_to cur none = false
points_to cur (some i) = i == cur

abbrev pub is_unused : {F : Type 0} → Proc F → Bool
is_unused p = state_eq p.state unused

module _ {F : Type 0} (fl : FloatOps F) where
  -- What `allocproc` writes under the lock into the entry that it found.
  unfoldable pub embryo_of : ℤ → Proc F → Proc F
  embryo_of pid p = record p {
    state = embryo;
    pid = pid;
    que_id = if eqb_ℤ pid (pos 2) then rr else lcfs;
    priority = priority_def;
    priority_ratio = fl.one;
    creation_time_ratio = fl.one;
    executed_cycle = fl.tenth;
    executed_cycle_ratio = fl.one;
    process_size_ratio = fl.one;
  }

  -- `allocproc`, given the page that `kalloc` returns. The frames that it lays out on the new stack
  -- are left out.
  unfoldable pub allocproc : ProcTable F → Option ℕ → Option ℕ × ProcTable F
  allocproc t stack = elim (find_index is_unused t.procs) [
    | none ↦ (none, t)
    | some i ↦
        let t' = record t {
          procs = modify t.procs i (embryo_of t.nextpid);
          nextpid = to_int (to_uint (t.nextpid +ℤ pos 1));
        } in
        elim stack [
          | none ↦ (
            none,
            record t' { procs = modify t'.procs i λ p. record p { kstack = none; state = unused } },
          )
          | some k ↦
              (some i, record t' { procs = modify t'.procs i λ p. record p { kstack = some k } })
        ]
  ]

  -- The child's entry from its parent's at `cur`, as it stands when `fork` returns.
  unfoldable pub child_of : ProcTable F → ℕ → ℕ → Proc F → Proc F → Proc F
  child_of t cur dir parent p = record p {
    pgdir = some dir;
    sz = parent.sz;
    parent = some cur;
    tf = record parent.tf { eax = 0 };
    ofile = copy_files parent.ofile p.ofile;
    cwd = parent.cwd;
    name = take 15 parent.name;
    state = runnable;
    creation_time = to_int t.ticks;
    preemption_time = to_int t.ticks;
  }

  -- `fork` after `allocproc`, given what `copyuvm` returns.
  unfoldable pub fork_into :
      ProcTable F
      → ℕ
      → Proc F
      → Option ℕ
      → Option ℕ
      → Option ℕ × ProcTable F
      → ℤ × List Call × ProcTable F
  unfolding child_of
  fork_into t cur parent stack dir (none, t') = (negsuc 0, [], t')
  fork_into t cur parent stack none (some i, t') = (
    negsuc 0,
    kfree stack ∷ [],
    record t' { procs = modify t'.procs i λ p. record p { kstack = none; state = unused } },
  )
  fork_into t cur parent stack (some d) (some i, t') = (
    t.nextpid,
    dup_calls parent.ofile ++ idup parent.cwd ∷ [],
    record t' { procs = modify t'.procs i (child_of t cur d parent) },
  )

  -- `fork` of the process `cur`, given what `kalloc` and `copyuvm` return.
  unfoldable pub fork : ProcTable F → ℕ → Proc F → Option ℕ → Option ℕ → ℤ × List Call × ProcTable F
  unfolding fork_into allocproc
  fork t cur parent stack dir = fork_into t cur parent stack dir (allocproc t stack)

-- What one round of `wait` comes to: a child's pid, -1, or a sleep until a child exits.
pub data Waited (F : Type 0) : Type 0 where
  reaped : ℤ → List Call → ProcTable F → Waited F
  no_child : Waited F
  sleeps : Outcome (ProcTable F) → Waited F

module _ {F : Type 0} where
  abbrev pub is_child : ℕ → Proc F → Bool
  is_child cur p = points_to cur p.parent

  -- The body of the loop of `exit` at entry `i`.
  unfoldable pub reparent : Option ℕ → ℕ → ℕ → List (Proc F) → List (Proc F)
  reparent init cur i ps = elim (get_elem? ps i) [
    | none ↦ ps
    | some p ↦
        let given = modify ps i λ q. record q { parent = init } in
        if is_child cur p
        then (if state_eq p.state zombie then wakeup1 given (chan_of init) else given)
        else ps
  ]

  -- The loop, over the `n` entries from `i` on.
  unfoldable pub reparent_loop : Option ℕ → ℕ → ℕ → ℕ → List (Proc F) → List (Proc F)
  reparent_loop init cur zero i ps = ps
  reparent_loop init cur (suc n) i ps = reparent_loop init cur n (suc i) (reparent init cur i ps)

  -- `exit` of the process `cur`, up to `sched`.
  unfoldable pub exit : ProcTable F → ℕ → Proc F → Outcome (List Call × ProcTable F)
  exit t cur p = do
    panic_if (points_to cur t.initproc)
    let closed = modify t.procs cur λ q. record q { ofile = map (λ _. none) q.ofile; cwd = none }
    let woken = wakeup1 closed (chan_of p.parent)
    let given = reparent_loop t.initproc cur (length t.procs) 0 woken
    ok (
      close_calls p.ofile ++ iput p.cwd ∷ [],
      record t { procs = modify given cur λ q. record q { state = zombie } },
    )

  -- The scan of `wait`: whether it meets a child, and the first child that is a ZOMBIE.
  unfoldable pub wait_scan : ℕ → ℕ → List (Proc F) → Bool × Option ℕ
  wait_scan cur i [] = (false, none)
  wait_scan cur i (p ∷ ps) =
      let (kids, exited) = wait_scan cur (suc i) ps in
      if is_child cur p
      then if state_eq p.state zombie then (true, some i) else (true, exited)
      else (kids, exited)

  -- The entry of a child that was waited for.
  unfoldable pub free_entry : Proc F → Proc F
  free_entry p = record p {
    kstack = none;
    pid = pos 0;
    parent = none;
    name = [];
    killed = false;
    state = unused;
  }

  -- What follows the scan.
  unfoldable pub answer_wait : ProcTable F → ℕ → Bool → Bool × Option ℕ → Waited F
  answer_wait t cur killed (kids, none) =
      if not kids || killed then no_child else sleeps (sleep t (some cur) true (process cur))
  answer_wait t cur killed (kids, some i) = elim (get_elem? t.procs i) [
    | none ↦ no_child
    | some p ↦
        reaped p.pid (kfree p.kstack ∷ freevm p.pgdir ∷ [])
          (record t { procs = modify t.procs i free_entry })
  ]

  -- One round of `wait` of the process `cur`, whose flag `killed` is given.
  unfoldable pub wait : ProcTable F → ℕ → Bool → Waited F
  unfolding answer_wait
  wait t cur killed = answer_wait t cur killed (wait_scan cur 0 t.procs)
