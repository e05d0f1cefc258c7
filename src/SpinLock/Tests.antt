-- ===== src/SpinLock/Tests.antt =====
-- Two nested sections on a CPU with interrupts on.
use os_lab.Base.{◌≡◌, refl, true, false, some, arith}
use os_lab.Base.Int.{pos}
use os_lab.Base.Outcome.{Returns}
use os_lab.SpinLock.{Cpu, initlock, acquire_start, acquire_try}
use os_lab.SpinLock.Section.{taken_by, IsInside, acquire-IsInside}
use os_lab.SpinLock.Nesting.{IsNested}

abbrev idle : Cpu
idle = record { ncli = pos 0; intena = false; interrupts = true }

idle-IsNested : IsNested true 0 idle
idle-IsNested = record { nested = refl; outside = λ e. refl; inside = λ k. absurd (omega arith) }

acquire-IsInside_example :
    Returns (IsInside 1 true 0 initlock idle) (acquire_start 1 initlock idle)
    × (acquire_try 1 initlock ≡ some (taken_by 1))
unfolding initlock
acquire-IsInside_example = acquire-IsInside 1 true 0 initlock idle idle-IsNested (omega arith) refl
