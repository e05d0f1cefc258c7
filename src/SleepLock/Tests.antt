-- ===== src/SleepLock/Tests.antt =====
-- A priority lock that one process takes and leaves.
use os_lab.Base.{refl, true, none, [], ◌∷◌}
use os_lab.Base.Int.{ℤ, pos}
use os_lab.Proc.{object, ProcTable}
use os_lab.SleepLock.{init_priority, acquir_priority}
use os_lab.SleepLock.Exclusion.{
  priority_lock, System, IsExclusive, free, enters, Steps, none_yet, one_more, Steps-IsExclusive,
}

abbrev nobody : ProcTable ℤ
nobody = record { procs = []; initproc = none; nextpid = pos 1; ticks = 0 }

abbrev at_first : System ℤ
at_first = record { lock = init_priority; table = nobody; inside = [] }

abbrev taken : System ℤ
taken = record { lock = record { locked = true; pid = pos 4 }; table = nobody; inside = pos 4 ∷ [] }

taking : Steps priority_lock (object 1) at_first taken
unfolding init_priority acquir_priority
taking = one_more none_yet (enters 0 (pos 4) refl)

Steps-IsExclusive_example : IsExclusive (record { locked = true; pid = pos 4 }) (pos 4 ∷ [])
unfolding init_priority
Steps-IsExclusive_example =
    Steps-IsExclusive priority_lock (object 1) at_first taken taking (free refl refl)
