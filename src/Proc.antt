-- ===== src/Proc.antt =====
-- The process table of proc.c and proc.h. A pointer to an entry of `ptable.proc` is its index. The
-- functions that hold `ptable.lock` for their whole body are single steps on the table.
pub mod Float
pub mod Schedule
pub mod Wakeup
pub mod Digits
pub mod Tuning
mod Tests
pub mod Life
use os_lab.Base.{◌==◌, ℕ, Bool, true, false, Option, none, some, List}
use os_lab.Base.Int.{ℤ, pos, negsuc}

-- `enum procstate`
pub data ProcState : Type 0 where
  unused embryo sleeping runnable running zombie : ProcState

abbrev pub state_eq : ProcState → ProcState → Bool
state_eq unused unused = true
state_eq embryo embryo = true
state_eq sleeping sleeping = true
state_eq runnable runnable = true
state_eq running running = true
state_eq zombie zombie = true
state_eq _ _ = false

-- The addresses that code sleeps on: an entry of `ptable.proc`, or another object of the kernel.
pub data Chan : Type 0 where
  null : Chan
  process : ℕ → Chan
  object : ℕ → Chan

abbrev pub chan_eq : Chan → Chan → Bool
chan_eq null null = true
chan_eq (process i) (process j) = i == j
chan_eq (object i) (object j) = i == j
chan_eq _ _ = false

-- The address of a process, or 0.
abbrev pub chan_of : Option ℕ → Chan
chan_of none = null
chan_of (some i) = process i

-- `struct trapframe`: the register that carries a system call's result, and the others together.
pub record TrapFrame : Type 0 where
  pub eax : ℕ
  pub others : List ℕ

-- `struct proc`, over the machine's `float`. Addresses are numbers, and `none` is the null pointer.
-- The saved `context` belongs to the stack switch and is left out.
pub record Proc (F : Type 0) : Type 0 where
  pub sz : ℕ
  pub pgdir : Option ℕ
  pub kstack : Option ℕ
  pub state : ProcState
  pub pid : ℤ
  pub parent : Option ℕ
  pub tf : TrapFrame
  pub creation_time : ℤ
  pub preemption_time : ℤ
  pub que_id : ℤ
  pub chan : Chan
  pub killed : Bool
  pub ofile : List (Option ℕ)
  pub cwd : Option ℕ
  pub name : List ℕ
  pub priority : ℤ
  pub priority_ratio : F
  pub creation_time_ratio : F
  pub executed_cycle : F
  pub executed_cycle_ratio : F
  pub process_size_ratio : F
  pub shm : Option ℕ

-- `ptable`, with the globals `initproc`, `nextpid` and `ticks`.
pub record ProcTable (F : Type 0) : Type 0 where
  pub procs : List (Proc F)
  pub initproc : Option ℕ
  pub nextpid : ℤ
  pub ticks : ℕ

-- RR, LCFS and BJF.
abbrev pub rr : ℤ
rr = pos 1

abbrev pub lcfs : ℤ
lcfs = pos 2

abbrev pub bjf : ℤ
bjf = pos 3

abbrev pub aging_thrs : ℤ
aging_thrs = pos 8000

-- MIN_INT and MAX_INT, which defs.h defines as -10000 and 10000.
abbrev pub min_int : ℤ
min_int = negsuc 9999

abbrev pub max_int : ℤ
max_int = pos 10000

abbrev pub priority_def : ℤ
priority_def = pos 3
