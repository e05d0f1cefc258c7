-- ===== src/Descriptors.antt =====
-- sysfile.c: the file descriptors of a process, and the calls that only move references to files.
pub mod Holders
pub mod Laws
pub mod Close
mod Tests
use os_lab.Base.{
  leb, if◌then◌else◌, get_elem?, set, get_or, ℕ, Bool, true, false, Option, none, some, List, [],
}
use os_lab.Base.Int.{ℤ, pos, negsuc}
use os_lab.Base.Find.{find_index}
use os_lab.Base.Outcome.{Outcome, ok, panic, ◌>>=◌}
use os_lab.Syscall.{User, argint, argptr}
use os_lab.FileTable.{File, CloseCall, filedup, fileclose}

-- NOFILE
abbrev pub nofile : ℕ
nofile = 16

-- `ofile`: the index in the table of files, or the null pointer.
abbrev pub Ofile : Type 0
Ofile = List (Option ℕ)

abbrev pub is_free : Option ℕ → Bool
is_free none = true
is_free (some i) = false

-- The file at a descriptor.
abbrev pub file_of : Ofile → ℤ → Option (ℕ × ℕ)
file_of ofile (negsuc fd) = none
file_of ofile (pos fd) =
    if leb nofile fd
    then none
    else elim (get_or ofile fd none) [ none ↦ none | some i ↦ some (fd, i) ]

-- The descriptor and the file; `none` for -1.
unfoldable pub argfd : User → Ofile → ℕ → Option (ℕ × ℕ)
argfd u ofile n = elim (argint u n) [ none ↦ none | some fd ↦ file_of ofile fd ]

unfoldable pub fdalloc : Ofile → ℕ → Option (ℕ × Ofile)
fdalloc ofile i = elim (find_index is_free ofile) [
  | none ↦ none
  | some fd ↦ some (fd, set ofile fd (some i))
]

-- The result, the files and the descriptors. A pointer to a file is never out of its table.
abbrev pub Result : Type 0 → Type 0
Result A = Outcome (ℤ × A × List File × Ofile)

unfoldable pub sys_dup : User → List File → Ofile → Result (Unit {0})
sys_dup u files ofile = elim (argfd u ofile 0) [
  | none ↦ ok (negsuc 0, tt, files, ofile)
  | some (fd, i) ↦ elim (fdalloc ofile i) [
    | none ↦ ok (negsuc 0, tt, files, ofile)
    | some (new, ofile') ↦ elim (get_elem? files i) [
      | none ↦ panic
      | some f ↦ filedup files i f >>= λ files'. ok (pos new, tt, files', ofile')
    ]
  ]
]

-- With the calls that `fileclose` makes.
unfoldable pub sys_close : User → List File → Ofile → Result (List CloseCall)
sys_close u files ofile = elim (argfd u ofile 0) [
  | none ↦ ok (negsuc 0, [], files, ofile)
  | some (fd, i) ↦ elim (get_elem? files i) [
    | none ↦ panic
    | some f ↦
        fileclose files i f >>= λ (calls, files'). ok (pos 0, calls, files', set ofile fd none)
  ]
]

-- What `sys_read` and `sys_write` pass on to `fileread` and `filewrite`: the file, the address and
-- the number of bytes; `none` where they return -1.
unfoldable pub io_args : User → Ofile → Option (ℕ × ℕ × ℤ)
io_args u ofile = elim (argfd u ofile 0) [
  | none ↦ none
  | some (fd, i) ↦ elim (argint u 2) [
    | none ↦ none
    | some n ↦ elim (argptr u 1 n) [ none ↦ none | some p ↦ some (i, p, n) ]
  ]
]
