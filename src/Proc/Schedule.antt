-- ===== src/Proc/Schedule.antt =====
-- proc.c: the three schedulers, `scheduler` up to its `swtch`, `yield` and `aging`.
pub mod Choice
pub mod Policy
pub mod Aging
use os_lab.Base.{if◌then◌else◌, modify, ℕ, Bool, ◌&&◌, not, Option, none, some, map}
use os_lab.Base.Int.{ℤ, to_int, sub_int, gtb_ℤ, eqb_ℤ}
use os_lab.Base.Scan.{scan}
use os_lab.Proc.{
  runnable, running, state_eq, Proc, ProcTable, rr, lcfs, bjf, aging_thrs, min_int, max_int,
}
use os_lab.Proc.Float.{FloatOps}

module _ {F : Type 0} (fl : FloatOps F) where
  unfoldable pub calculate_rank : Proc F → F
  calculate_rank p =
      fl.add
        (fl.add
          (fl.add (fl.mul (fl.of_int p.priority) p.priority_ratio)
            (fl.mul (fl.of_int p.creation_time) p.creation_time_ratio))
          (fl.mul p.executed_cycle p.executed_cycle_ratio))
        (fl.mul (fl.of_uint p.sz) p.process_size_ratio)

-- The test of the three loops, `p->state != RUNNABLE || p->que_id != q`, negated.
abbrev pub ready : {F : Type 0} → ℤ → Proc F → Bool
ready q p = state_eq p.state runnable && eqb_ℤ p.que_id q

-- `now - p->preemption_time`
abbrev pub waited : {F : Type 0} → ProcTable F → Proc F → ℤ
waited t p = sub_int (to_int t.ticks) p.preemption_time

-- The longest wait in queue RR.
unfoldable pub round_robin : {F : Type 0} → ProcTable F → Option ℕ
round_robin t = scan (ready rr) (waited t) gtb_ℤ t.procs 0 min_int none

-- The latest creation in queue LCFS.
unfoldable pub last_come_first_serve : {F : Type 0} → ProcTable F → Option ℕ
last_come_first_serve t = scan (ready lcfs) (λ p. p.creation_time) gtb_ℤ t.procs 0 min_int none

module _ {F : Type 0} (fl : FloatOps F) where
  -- The least rank in queue BJF, below `(float)MAX_INT`.
  unfoldable pub best_job_first : ProcTable F → Option ℕ
  best_job_first t = scan (ready bjf) (calculate_rank fl) fl.lt t.procs 0 (fl.of_int max_int) none

  -- The body of the loop of `scheduler` up to its choice: `none` when it goes round again.
  unfoldable pub scheduler_choice : ProcTable F → Option ℕ
  scheduler_choice t = elim (round_robin t) [
    | some i ↦ some i
    | none ↦ elim (last_come_first_serve t) [ some i ↦ some i | none ↦ best_job_first t ]
  ]

  -- The writes before `swtch`.
  unfoldable pub dispatch : ProcTable F → ℕ → ProcTable F
  dispatch t i = record t {
    procs = modify t.procs i λ p. record p {
      state = running;
      preemption_time = to_int t.ticks;
      executed_cycle = fl.add p.executed_cycle fl.tenth;
    };
  }

  -- One round of `scheduler`: the process that it switches to, in `c->proc`, and the table.
  unfoldable pub scheduler_round : ProcTable F → Option ℕ × ProcTable F
  unfolding dispatch
  scheduler_round t = elim (scheduler_choice t) [
    | none ↦ (none, t)
    | some i ↦ (some i, dispatch t i)
  ]

  -- `yield` of the process `cur`, up to `sched`.
  unfoldable pub yield : ProcTable F → ℕ → ProcTable F
  yield t cur = record t {
    procs = modify t.procs cur λ p. record p {
      state = runnable;
      preemption_time = to_int t.ticks;
      executed_cycle = fl.add_tenth_double p.executed_cycle;
    };
  }

-- The body of the loop of `aging`, at the time `time`.
unfoldable pub age : {F : Type 0} → ℤ → Proc F → Proc F
age time p =
    if state_eq p.state runnable && not (eqb_ℤ p.que_id rr)
    then if gtb_ℤ (sub_int time p.preemption_time) aging_thrs then record p { que_id = rr } else p
    else p

unfoldable pub aging : {F : Type 0} → ProcTable F → ProcTable F
unfolding age
aging t = record t { procs = map (age (to_int t.ticks)) t.procs }
