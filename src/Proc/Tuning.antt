-- ===== src/Proc/Tuning.antt =====
-- proc.c and sysproc.c: the calls that change the queue of a process and the ratios of its rank.
pub mod Laws
use os_lab.Base.{ltb, if◌then◌else◌, length, modify, ℕ, Option, none, some, List, map}
use os_lab.Base.Find.{find_index}
use os_lab.Base.Int.{ℤ, pos, negsuc, eqb_ℤ}
use os_lab.Proc.{unused, state_eq, Proc, ProcTable}
use os_lab.Proc.Float.{FloatOps}

-- `find_proc`: an index, which is the one past the table if no entry has the pid.
unfoldable pub find_proc : {F : Type 0} → List (Proc F) → ℤ → ℕ
find_proc ps pid = elim (find_index (λ p. eqb_ℤ p.pid pid) ps) [ none ↦ length ps | some i ↦ i ]

-- What a call does: it returns, or it writes past the table.
pub data Written (F : Type 0) : Type 0 where
  returns : ℤ → ProcTable F → Written F
  past_table : Written F

-- A write through a pointer into the table.
unfoldable pub write_at : {F : Type 0} → ProcTable F → ℕ → (Proc F → Proc F) → Written F
write_at t i f =
    if ltb i (length t.procs)
    then returns (pos 0) (record t { procs = modify t.procs i f })
    else past_table

-- `sys_change_queue`, given the arguments that `argint` fetches.
unfoldable pub sys_change_queue : {F : Type 0} → ProcTable F → Option ℤ → Option ℤ → Written F
unfolding find_proc write_at
sys_change_queue t (some pid) (some que_id) =
    write_at t (find_proc t.procs pid) λ p. record p { que_id = que_id }
sys_change_queue t _ _ = returns (negsuc 0) t

-- The four ratios, in the order of the calls' arguments.
pub record Ratios : Type 0 where
  pub priority : ℤ
  pub creation_time : ℤ
  pub exec_cycle : ℤ
  pub size : ℤ

module _ {F : Type 0} (fl : FloatOps F) where
  unfoldable pub set_ratios : Ratios → Proc F → Proc F
  set_ratios r p = record p {
    priority_ratio = fl.of_int r.priority;
    creation_time_ratio = fl.of_int r.creation_time;
    executed_cycle_ratio = fl.of_int r.exec_cycle;
    process_size_ratio = fl.of_int r.size;
  }

  -- `sys_bjf_validation_process`, when `argint` fetches all five arguments.
  unfoldable pub sys_bjf_validation_process : ProcTable F → ℤ → Ratios → Written F
  unfolding find_proc write_at set_ratios
  sys_bjf_validation_process t pid r = write_at t (find_proc t.procs pid) (set_ratios r)

  -- `reset_bjf_attributes`, as `sys_bjf_validation_system` calls it.
  unfoldable pub reset_bjf_attributes : ProcTable F → Ratios → ProcTable F
  unfolding set_ratios
  reset_bjf_attributes t r = record t {
    procs = map (λ p. if state_eq p.state unused then p else set_ratios r p) t.procs;
  }
