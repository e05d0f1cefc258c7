-- ===== src/Proc/Wakeup.antt =====
-- proc.c: `sleep` on both sides of its `sched`, `wakeup1`, `wakeup`, `wakeup_pl` and `kill`.
pub mod Laws
pub mod Kill
use os_lab.Base.{
  if◌then◌else◌, modify, ℕ, Bool, true, false, ◌&&◌, not, Option, none, some, List, [], ◌∷◌, map,
}
use os_lab.Base.Int.{ℤ, pos, negsuc, gtb_ℤ, eqb_ℤ}
use os_lab.Base.Outcome.{Outcome, ok, panic, ◌>>◌, panic_if}
use os_lab.Base.Scan.{scan}
use os_lab.Proc.{sleeping, runnable, state_eq, Chan, null, chan_eq, Proc, ProcTable}

module _ {F : Type 0} where
  -- `sleep` of the process `cur` up to `sched`; `has_lock` says that `lk` is not null.
  unfoldable pub sleep : ProcTable F → Option ℕ → Bool → Chan → Outcome (ProcTable F)
  sleep t none has_lock c = panic
  sleep t (some cur) has_lock c = do
    panic_if (not has_lock)
    ok (record t { procs = modify t.procs cur λ p. record p { chan = c; state = sleeping } })

  -- The rest of `sleep`, once the scheduler has switched back.
  unfoldable pub resume : ProcTable F → ℕ → ProcTable F
  resume t cur = record t { procs = modify t.procs cur λ p. record p { chan = null } }

  abbrev pub sleeps_on : Chan → Proc F → Bool
  sleeps_on c p = state_eq p.state sleeping && chan_eq p.chan c

  -- The body of the loop of `wakeup1`.
  unfoldable pub wake : Chan → Proc F → Proc F
  wake c p = if sleeps_on c p then record p { state = runnable } else p

  unfoldable pub wakeup1 : List (Proc F) → Chan → List (Proc F)
  wakeup1 procs c = map (wake c) procs

  unfoldable pub wakeup : ProcTable F → Chan → ProcTable F
  wakeup t c = record t { procs = wakeup1 t.procs c }

  -- The loop of `wakeup_pl`: `max_pid` starts at 0, and it stays 0 exactly as long as nothing is chosen.
  unfoldable pub highest_waiter : List (Proc F) → Chan → Option ℕ
  highest_waiter procs c = scan (sleeps_on c) (λ p. p.pid) gtb_ℤ procs 0 (pos 0) none

  unfoldable pub wakeup_pl : ProcTable F → Chan → ProcTable F
  unfolding highest_waiter
  wakeup_pl t c = elim (highest_waiter t.procs c) [
    | none ↦ t
    | some i ↦ record t { procs = modify t.procs i λ p. record p { state = runnable } }
  ]

  -- What `kill` does to the process that it finds.
  unfoldable pub mark_killed : Proc F → Proc F
  mark_killed p = record p {
    killed = true;
    state = if state_eq p.state sleeping then runnable else p.state;
  }

  -- The loop of `kill`: the table it leaves and whether it found the pid.
  unfoldable pub kill_loop : List (Proc F) → ℤ → List (Proc F) × Bool
  unfolding mark_killed
  kill_loop [] pid = ([], false)
  kill_loop (p ∷ ps) pid =
      let (ps', found) = kill_loop ps pid in
      if eqb_ℤ p.pid pid then (mark_killed p ∷ ps, true) else (p ∷ ps', found)

  unfoldable pub kill : ProcTable F → ℤ → ProcTable F × ℤ
  unfolding kill_loop
  kill t pid =
      let (procs, found) = kill_loop t.procs pid in
      (record t { procs = procs }, if found then pos 0 else negsuc 0)
