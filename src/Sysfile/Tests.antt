-- ===== src/Sysfile/Tests.antt =====
-- Runs of the calls on the paths "a" and "b" of a process, with the answers of a file system in order.
use os_lab.Base.{
  ◌==◌, if◌then◌else◌, get_or, ◌≡◌, refl, true, false, Option, none, some, [], ◌∷◌, arith,
}
use os_lab.Sysfile.Ledger.{Ledger, Fresh, after, zeros, AtRest, Answers, RunsUnder}
use os_lab.Sysfile.{
  Attrs, Op, begin_op, end_op, namei, nameiparent, ilock, iunlock, iput, ialloc, dirlookup, dirlink,
  read_entry, clear_entry, more_links, fewer_links, init_inode, filealloc, pipealloc, fdalloc,
  fileclose, clear_fd, set_file, get_cwd, set_cwd, fileread, filewrite, Ans, Prog, ret, panic, call,
}
use os_lab.Sysfile.Names.{sys_link, sys_unlink, create}
use os_lab.Sysfile.Open.{open_path, sys_open, sys_copy_file}
use os_lab.CString.Strings.{compare_bytes}
use os_lab.Base.Int.{pos}
use os_lab.Fs.{FileKind, t_none, t_dir, t_file}
use os_lab.Syscall.{User, fetchint, find_nul, fetchstr, argint, argstr}
use os_lab.Sysfile.Unlink.{sys_unlink-Runs}
use os_lab.Sysfile.Settles.{OpenedOne, sys_open-Runs}
use os_lab.Sysfile.Removes.{Unlinked}
use os_lab.Sysfile.Copies.{Copied, sys_copy_file-Runs}

-- The strings "a" at 32 and "b" at 34, and their addresses as the arguments at 4 and 8.
abbrev caller : User
caller = record {
  sz = 64;
  mem = λ i.
      get_or (0 ∷ 0 ∷ 0 ∷ 0 ∷ 32 ∷ 0 ∷ 0 ∷ 0 ∷ 34 ∷ 0 ∷ 0 ∷ 0 ∷ []) i
        (if i == 32 then b'a' else if i == 34 then b'b' else 0);
  esp = 0;
}

abbrev attrs : FileKind → Attrs
attrs kind = record { dev = 1; kind = kind; nlink = 1; size = 32 }

-- The inode 1 is the directory, 2 its file and 3 a new one.
abbrev answers : (o : Op) → Ans o
answers (namei _) = some 2
answers (nameiparent _) = some (1, b'b' ∷ [])
answers (ilock i) = attrs (if i == 1 then t_dir else t_file)
answers (ialloc _ _) = 3
answers (dirlookup _ _) = some (2, 16)
answers (dirlink _ _ _) = true
answers (read_entry _ _) = some 0
answers (clear_entry _ _ _) = true
answers filealloc = some 5
answers pipealloc = some (5, 6)
answers (fdalloc f) = some f
answers get_cwd = 1
answers (fileread _ n) = n
answers (filewrite _ n) = n
answers begin_op = tt
answers end_op = tt
answers (iunlock _) = tt
answers (iput _) = tt
answers (more_links _) = tt
answers (fewer_links _) = tt
answers (init_inode _ _ _) = tt
answers (fileclose _) = tt
answers (clear_fd _ _) = tt
answers (set_file _ _ _ _) = tt
answers (set_cwd _) = tt

abbrev play : {A : Type 0} → Prog A → Option A
play (ret a) = some a
play panic = none
play (call o k) = play (k (answers o))

links : play (sys_link caller) ≡ some (pos 0)
unfolding sys_link argstr argint fetchint fetchstr find_nul
links = refl

unlinks : play (sys_unlink caller) ≡ some (pos 0)
unfolding sys_unlink argstr argint fetchint fetchstr find_nul compare_bytes
unlinks = refl

opens : play (sys_open caller) ≡ some (pos 5)
unfolding sys_open argstr argint fetchint fetchstr find_nul create
opens = refl

copies : play (sys_copy_file caller) ≡ some (pos 0)
unfolding sys_copy_file argstr argint fetchint fetchstr find_nul create open_path
copies = refl

-- The answers that fit the ledger, of which those above are some.
abbrev usual : Answers
usual o a l = Fresh o a l

usual-Fresh : (o : Op) (a : Ans o) (l : Ledger) → usual o a l → Fresh o a l
usual-Fresh o a l f = f

abbrev Plays : {A : Type 0} → Prog A → Ledger → Type 0
Plays (ret a) l = Unit
Plays panic l = ⊥
Plays (call o k) l = usual o (answers o) l × Plays (k (answers o)) (after o (answers o) l)

abbrev idle : Ledger
idle = record {
  in_op = false;
  refs = zeros;
  locks = zeros;
  files = zeros;
  up = zeros;
  down = zeros;
  named = zeros;
  unnamed = zeros;
  kinds = λ _. t_none;
  opened = 3;
  trouble = false;
}

idle-AtRest : AtRest 3 idle
idle-AtRest = record {
  has = record {
    in_op = refl;
    refs = λ j. refl;
    locks = λ j. refl;
    files = λ j. refl;
    links = λ j. refl;
  };
  opened = refl;
}

sys_unlink-Runs_example : RunsUnder usual (Unlinked idle) (sys_unlink caller) idle
sys_unlink-Runs_example = sys_unlink-Runs usual usual-Fresh caller idle idle-AtRest

sys_open-Runs_example : RunsUnder usual (OpenedOne idle) (sys_open caller) idle
sys_open-Runs_example = sys_open-Runs usual usual-Fresh caller idle idle-AtRest

sys_copy_file-Runs_example : RunsUnder usual (Copied idle) (sys_copy_file caller) idle
sys_copy_file-Runs_example = sys_copy_file-Runs usual usual-Fresh caller idle idle-AtRest

-- The answers of the runs above are usual ones.
usual_links : Plays (sys_link caller) idle
unfolding sys_link argstr argint fetchint fetchstr find_nul
usual_links = ground arith

usual_unlinks : Plays (sys_unlink caller) idle
unfolding sys_unlink argstr argint fetchint fetchstr find_nul compare_bytes
usual_unlinks = ground arith
