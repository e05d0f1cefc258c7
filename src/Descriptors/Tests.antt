-- ===== src/Descriptors/Tests.antt =====
-- A process with the file 0 at descriptor 1, which another process holds too.
use os_lab.Base.Find.{find_index}
use os_lab.Base.Outcome.{ok}
use os_lab.Base.{
  ◌==◌, if◌then◌else◌, replicate, ℕ, zero, suc, ◌≡◌, refl, true, false, none, some, List, [], ◌∷◌,
}
use os_lab.Base.Int.{pos, ◌+ℤ◌}
use os_lab.Syscall.{User, fetchint, argint}
use os_lab.FileTable.{fd_inode, File, filedup}
use os_lab.Descriptors.{Ofile, argfd, fdalloc, sys_dup}

abbrev user : User
user = record { mem = λ a. if a == 12 then 1 else 0; sz = 64; esp = 8 }

abbrev file : File
file = record {
  type = fd_inode;
  ref = pos 2;
  readable = true;
  writable = false;
  pipe = none;
  ip = some 7;
  off = 0;
}

abbrev files : List File
files = file ∷ []

abbrev ofile : Ofile
ofile = none ∷ some 0 ∷ replicate 14 none

abbrev others : ℕ → ℕ
others zero = 1
others (suc i) = 0

-- The duplicate is descriptor 0.
dup_run :
    sys_dup user files ofile
    ≡ ok (pos 0, tt, record file { ref = pos 3 } ∷ [], some 0 ∷ some 0 ∷ replicate 14 none)
unfolding sys_dup argfd argint fetchint fdalloc find_index filedup ◌+ℤ◌
dup_run = refl
