-- ===== src/Proc/Tests.antt =====
-- Small tables, and the theorems about proc.c at them.
use os_lab.Base.Outcome.{ok}
use os_lab.Base.{get_elem?, ℕ, ◌≡◌, refl, true, false, none, some, List, [], ◌∷◌}
use os_lab.Base.Int.{ℤ, pos, negsuc, ◌+ℤ◌, ◌-ℤ◌, gtb_ℤ}
use os_lab.Base.Scan.{scan}
use os_lab.Proc.{
  unused, sleeping, runnable, null, object, Proc, ProcTable, rr, lcfs, bjf, aging_thrs,
}
use os_lab.Proc.Float.{whole, whole-FloatLaws}
use os_lab.Proc.Schedule.{
  calculate_rank, waited, round_robin, best_job_first, scheduler_choice, scheduler_round, aging,
}
use os_lab.Proc.Schedule.Choice.{IsReady}
use os_lab.Proc.Schedule.Policy.{Follows, scheduler_choice-Follows}
use os_lab.Proc.Schedule.Aging.{aging_serves}
use os_lab.Proc.Wakeup.{sleep, wakeup_pl, kill}
use os_lab.Proc.Wakeup.Laws.{WokeOne, wakeup_pl-WokeOne}
use os_lab.Proc.Wakeup.Kill.{Kills, kill-Kills}
use os_lab.Base.Find.{find_index}
use os_lab.Proc.Tuning.{
  find_proc, past_table, write_at, sys_change_queue, Ratios, sys_bjf_validation_process,
}
use os_lab.Proc.Tuning.Laws.{Tunes, sys_change_queue-Tunes}
use os_lab.Proc.Digits.{find_digital_root}
use os_lab.Proc.Digits.Laws.{root, find_digital_root-eq-root}

abbrev pub blank : Proc ℤ
blank = record {
  sz = 0;
  pgdir = none;
  kstack = none;
  state = unused;
  pid = pos 0;
  parent = none;
  tf = record { eax = 0; others = [] };
  creation_time = pos 0;
  preemption_time = pos 0;
  que_id = pos 0;
  chan = null;
  killed = false;
  ofile = [];
  cwd = none;
  name = [];
  priority = pos 3;
  priority_ratio = pos 1;
  creation_time_ratio = pos 1;
  executed_cycle = pos 0;
  executed_cycle_ratio = pos 1;
  process_size_ratio = pos 1;
  shm = none;
}

abbrev ready_proc : ℤ → ℤ → ℕ → Proc ℤ
ready_proc pid queue size = record blank {
  state = runnable;
  pid = pid;
  que_id = queue;
  sz = size;
  chan = null;
}

abbrev sleeper : ℤ → ℕ → Proc ℤ
sleeper pid c = record blank { state = sleeping; pid = pid; chan = object c }

abbrev pub table : List (Proc ℤ) → ProcTable ℤ
table procs = record { procs = procs; initproc = some 0; nextpid = pos 9; ticks = 9000 }

abbrev three_queues : ProcTable ℤ
three_queues = table (
    blank
    ∷ ready_proc (pos 5) bjf 400
    ∷ ready_proc (pos 6) lcfs 100
    ∷ ready_proc (pos 7) rr 20
    ∷ [])

abbrev halves : Ratios
halves = record { priority = pos 2; creation_time = pos 2; exec_cycle = pos 2; size = pos 2 }

abbrev two_sleepers : ProcTable ℤ
two_sleepers = table (sleeper (pos 4) 1 ∷ sleeper (pos 8) 1 ∷ sleeper (pos 9) 2 ∷ [])

-- The queue RR goes first.
choice_rr : scheduler_choice whole three_queues ≡ some 3
unfolding scheduler_choice round_robin scan ◌-ℤ◌
choice_rr = refl

-- A process of 12288 bytes is never the best job: its rank is above MAX_INT.
choice_large : best_job_first whole (table (ready_proc (pos 5) bjf 12288 ∷ [])) ≡ none
unfolding best_job_first scan calculate_rank ◌+ℤ◌
choice_large = refl

scheduler_choice-Follows_example : Follows whole three_queues (scheduler_choice whole three_queues)
scheduler_choice-Follows_example = scheduler_choice-Follows whole three_queues whole-FloatLaws

scheduler_round_example : (scheduler_round whole three_queues).0 ≡ some 3
unfolding scheduler_round scheduler_choice round_robin scan ◌-ℤ◌
scheduler_round_example = refl

aging_serves_example :
    (k : ℕ) × (q : Proc ℤ) × (round_robin (aging three_queues) ≡ some k)
    × (get_elem? (aging three_queues).procs k ≡ some q)
    × IsReady rr q
    × (gtb_ℤ (waited three_queues (ready_proc (pos 5) bjf 400)) (waited three_queues q) ≡ false)
unfolding ◌-ℤ◌
aging_serves_example =
    aging_serves three_queues 1 (ready_proc (pos 5) bjf 400) refl refl waited_long
  where
    waited_long : gtb_ℤ (waited three_queues (ready_proc (pos 5) bjf 400)) aging_thrs ≡ true
    waited_long = refl

abbrev one_asleep : ProcTable ℤ
one_asleep = table (record (ready_proc (pos 5) rr 1) { chan = object 1; state = sleeping } ∷ [])

one_sleeps : sleep (table (ready_proc (pos 5) rr 1 ∷ [])) (some 0) true (object 1) ≡ ok one_asleep
unfolding sleep
one_sleeps = refl

wakeup_pl-WokeOne_example : WokeOne two_sleepers (object 1) (wakeup_pl two_sleepers (object 1))
wakeup_pl-WokeOne_example = wakeup_pl-WokeOne two_sleepers (object 1)

kill-Kills_example : Kills (pos 8) two_sleepers (kill two_sleepers (pos 8))
kill-Kills_example = kill-Kills (pos 8) two_sleepers

find_digital_root-eq-root_example :
    (find_digital_root (pos 987) ≡ some (pos (root 987)))
    × (find_digital_root (negsuc 987) ≡ some (negsuc 987))
find_digital_root-eq-root_example = find_digital_root-eq-root 987

sys_change_queue-Tunes_example :
    Tunes three_queues
      (pos 6)
      (λ p. record p { que_id = bjf })
      (sys_change_queue three_queues (some (pos 6)) (some bjf))
    × Tunes three_queues
        (pos 6)
        (λ p. record p {
          priority_ratio = whole.of_int (pos 2);
          creation_time_ratio = whole.of_int (pos 2);
          executed_cycle_ratio = whole.of_int (pos 2);
          process_size_ratio = whole.of_int (pos 2);
        })
        (sys_bjf_validation_process whole three_queues (pos 6) halves)
sys_change_queue-Tunes_example = sys_change_queue-Tunes whole three_queues (pos 6) bjf halves

-- No process has the pid 77.
strays_77 : sys_change_queue three_queues (some (pos 77)) (some bjf) ≡ past_table
unfolding sys_change_queue write_at find_proc find_index
strays_77 = refl
