-- ===== src/Syscall/Tests.antt =====
-- A process whose stack pointer is 8, with the pointer 20 as its first argument, to the string "AA".
use os_lab.Base.{ltb, leb, ◌==◌, if◌then◌else◌, ◌≡◌, refl, ◌↔◌, ◌&&◌, some, arith}
use os_lab.Base.Int.{pos}
use os_lab.Syscall.{User, fetchint, find_nul, fetchstr, argint, argptr, argstr}
use os_lab.Syscall.Bounds.{IsUser, Within, argptr-Within}

abbrev user : User
user = record {
  mem = λ a. if a == 12 then 20 else (if leb 20 a && ltb a 22 then 65 else 0);
  sz = 64;
  esp = 8;
}

argstr_run : argstr user 0 ≡ some (20, 2)
unfolding argstr argint fetchint fetchstr find_nul
argstr_run = refl

user-IsUser : IsUser user
user-IsUser = record { bytes = λ a. ground arith; below = omega arith }

argptr-Within_example : (argptr user 0 (pos 8) ≡ some 20) ↔ Within user 0 (pos 8) 20
argptr-Within_example = argptr-Within user 0 (pos 8) 20 user-IsUser (omega arith)
