-- ===== src/SpinLock.antt =====
-- spinlock.c: `pushcli` and `popcli` on one CPU, and the spin lock. The name of a lock and the call
-- stack that it records are for debugging and are left out.
pub mod Nesting
pub mod Section
mod Tests
use os_lab.Base.{◌==◌, if◌then◌else◌, ℕ, Bool, true, false, ◌&&◌, not, Option, none, some}
use os_lab.Base.Int.{ℤ, pos, ltb_ℤ, sub_int, eqb_ℤ, add_int}
use os_lab.Base.Outcome.{Outcome, ok, ◌>>=◌, ◌>>◌, panic_if}

-- What a CPU keeps for `cli`: `ncli` and `intena` of `struct cpu`, and FL_IF of its flags.
pub record Cpu : Type 0 where
  pub ncli : ℤ
  pub intena : Bool
  pub interrupts : Bool

unfoldable pub pushcli : Cpu → Cpu
pushcli c = record {
  ncli = add_int c.ncli (pos 1);
  intena = if eqb_ℤ c.ncli (pos 0) then c.interrupts else c.intena;
  interrupts = false;
}

unfoldable pub popcli : Cpu → Outcome Cpu
popcli c = do
  panic_if c.interrupts
  let n = sub_int c.ncli (pos 1)
  panic_if (ltb_ℤ n (pos 0))
  ok (record c {
    ncli = n;
    interrupts = if eqb_ℤ n (pos 0) && c.intena then true else c.interrupts;
  })

-- `struct spinlock`: `cpu` is the index of the CPU that holds it.
pub record Spinlock : Type 0 where
  pub locked : Bool
  pub cpu : Option ℕ

abbrev pub is_cpu : ℕ → Option ℕ → Bool
is_cpu id none = false
is_cpu id (some i) = i == id

unfoldable pub initlock : Spinlock
initlock = record { locked = false; cpu = none }

-- `holding` on the CPU `id`.
unfoldable pub holding : ℕ → Spinlock → Cpu → Outcome (Bool × Cpu)
unfolding pushcli popcli
holding id lk c = popcli (pushcli c) >>= λ c'. ok (lk.locked && is_cpu id lk.cpu, c')

-- `acquire` up to its loop.
unfoldable pub acquire_start : ℕ → Spinlock → Cpu → Outcome Cpu
unfolding holding
acquire_start id lk c = holding id lk (pushcli c) >>= λ (held, c'). panic_if held >> ok c'

-- One `xchg` of the loop, with what follows it when it finds the lock free; `none` goes round again.
unfoldable pub acquire_try : ℕ → Spinlock → Option Spinlock
acquire_try id lk = if lk.locked then none else some (record { locked = true; cpu = some id })

unfoldable pub release : ℕ → Spinlock → Cpu → Outcome (Spinlock × Cpu)
unfolding holding popcli
release id lk c = holding id lk c >>= λ (held, c').
    panic_if (not held) >> (popcli c' >>= λ c''. ok (record { locked = false; cpu = none }, c''))
