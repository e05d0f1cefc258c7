-- ===== src/SleepLock.antt =====
-- sleeplock.c and priority_lock.c: locks that processes sleep for. Each body under the lock's spin lock
-- is one step; a round of the loop of `acquiresleep` or `acquir_priority` that sleeps ends there.
pub mod Exclusion
mod Tests
use os_lab.Base.{if◌then◌else◌, ℕ, Bool, true, false, ◌&&◌, some}
use os_lab.Base.Int.{ℤ, pos, eqb_ℤ}
use os_lab.Base.Outcome.{Outcome, ok, ◌>>=◌}
use os_lab.Proc.{Chan, ProcTable}
use os_lab.Proc.Wakeup.{sleep, wakeup, wakeup_pl}

-- `struct sleeplock` and `struct priority_lock`, which have the same fields, without the name.
pub record SleepLock : Type 0 where
  pub locked : Bool
  pub pid : ℤ

unfoldable pub initsleeplock : SleepLock
initsleeplock = record { locked = false; pid = pos 0 }

unfoldable pub init_priority : SleepLock
init_priority = record { locked = false; pid = pos 0 }

module _ {F : Type 0} where
  -- A round of `acquiresleep` by the process at `cur` with the pid `pid`, on the lock at the address `c`:
  -- whether it took the lock.
  unfoldable pub acquiresleep :
      SleepLock → ProcTable F → ℕ → ℤ → Chan → Outcome (Bool × SleepLock × ProcTable F)
  acquiresleep lk t cur pid c =
      if lk.locked
      then (sleep t (some cur) true c >>= λ t'. ok (false, lk, t'))
      else ok (true, record { locked = true; pid = pid }, t)

  unfoldable pub releasesleep : SleepLock → ProcTable F → Chan → SleepLock × ProcTable F
  releasesleep lk t c = (record { locked = false; pid = pos 0 }, wakeup t c)

  -- The same of `acquir_priority`.
  unfoldable pub acquir_priority :
      SleepLock → ProcTable F → ℕ → ℤ → Chan → Outcome (Bool × SleepLock × ProcTable F)
  acquir_priority lk t cur pid c =
      if lk.locked
      then (sleep t (some cur) true c >>= λ t'. ok (false, lk, t'))
      else ok (true, record { locked = true; pid = pid }, t)

  unfoldable pub release_priority : SleepLock → ProcTable F → Chan → SleepLock × ProcTable F
  release_priority lk t c = (record { locked = false; pid = pos 0 }, wakeup_pl t c)

unfoldable pub holdingsleep : SleepLock → ℤ → Bool
holdingsleep lk pid = lk.locked && eqb_ℤ lk.pid pid

unfoldable pub holding_priority : SleepLock → ℤ → Bool
holding_priority lk pid = lk.locked && eqb_ℤ lk.pid pid
