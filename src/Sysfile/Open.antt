-- ===== src/Sysfile/Open.antt =====
-- sysfile.c: `sys_open`, `sys_mkdir`, `sys_mknod`, `sys_chdir`, `sys_pipe` and `sys_copy_file`.
use os_lab.Fs.{FileKind, t_dir, t_file, t_dev}
use os_lab.Sysfile.Names.{create}
use os_lab.Sysfile.{
  Str, begin_op, end_op, namei, ilock, iunlock, iput, filealloc, pipealloc, fdalloc, fileclose,
  clear_fd, set_file, get_cwd, set_cwd, fileread, filewrite, Prog, ret, ◌>>=◌, ◌>>◌, step,
  iunlockput, o_wronly, o_rdwr, o_create, has_flag, to_short, is_dir,
}
use os_lab.Base.Int.{ℤ, pos, negsuc, eqb_ℤ}
use os_lab.Base.{◌==◌, if◌then◌else◌, ℕ, Bool, false, ◌&&◌, ◌||◌, not, Option, none, some}
use os_lab.Syscall.{User, argint, argptr, argstr}

-- The transaction ends, and the call fails.
unfoldable pub fail_op : Prog ℤ
fail_op = do step end_op; ret (negsuc 0)

unfoldable pub fail_locked : ℕ → Prog ℤ
unfolding fail_op
fail_locked ip = do iunlockput ip; fail_op

-- The inode of `sys_open`, locked; `none` where the transaction is to end with -1. `bars` is the test
-- beside `ip->type == T_DIR`.
unfoldable pub open_inode : Str → ℤ → Bool → Prog (Option ℕ)
open_inode path mode bars =
    if has_flag mode o_create then create path t_file (pos 0) (pos 0) else (do
      found ← step (namei path)
      elim found [
        | none ↦ ret none
        | some ip ↦ do
          a ← step (ilock ip)
          if is_dir a.kind && bars then (do iunlockput ip; ret none) else ret (some ip)
      ])

-- What `fdalloc` gave for the file `f` of the locked inode.
unfoldable pub open_slot : ℕ → ℤ → ℕ → Option ℕ → Prog (ℤ × Option ℕ)
unfolding fail_locked
open_slot ip mode f none = do step (fileclose f); r ← fail_locked ip; ret (r, none)
open_slot ip mode f (some fd) = do
  step (iunlock ip)
  step end_op
  step (
      set_file f ip (not (has_flag mode o_wronly)) (has_flag mode o_wronly || has_flag mode o_rdwr))
  ret (pos fd, some f)

-- What `filealloc` gave.
unfoldable pub open_file : ℕ → ℤ → Option ℕ → Prog (ℤ × Option ℕ)
unfolding open_slot fail_locked
open_file ip mode none = do r ← fail_locked ip; ret (r, none)
open_file ip mode (some f) = do slot ← step (fdalloc f); open_slot ip mode f slot

-- What `create` or `namei` found, once it is locked.
unfoldable pub open_found : ℤ → Option ℕ → Prog (ℤ × Option ℕ)
unfolding open_file fail_op
open_found mode none = do r ← fail_op; ret (r, none)
open_found mode (some ip) = do file ← step filealloc; open_file ip mode file

-- From `begin_op` on: the result, and the file if there is one.
unfoldable pub open_path : Str → ℤ → Bool → Prog (ℤ × Option ℕ)
unfolding open_inode open_found
open_path path mode bars = do
  step begin_op
  found ← open_inode path mode bars
  open_found mode found

unfoldable pub sys_open : User → Prog ℤ
unfolding open_path
sys_open u = elim (argstr u 0) [
  | none ↦ ret (negsuc 0)
  | some path ↦ elim (argint u 1) [
    | none ↦ ret (negsuc 0)
    | some mode ↦ do (r, f) ← open_path path mode (not (eqb_ℤ mode (pos 0))); ret r
  ]
]

-- `create`, and its end in `sys_mkdir` and `sys_mknod`.
unfoldable pub make : Str → FileKind → ℤ → ℤ → Prog ℤ
unfolding fail_op
make path kind major minor = do
  made ← create path kind major minor
  elim made [ none ↦ fail_op | some ip ↦ do iunlockput ip; step end_op; ret (pos 0) ]

unfoldable pub sys_mkdir : User → Prog ℤ
unfolding make
sys_mkdir u = do
  step begin_op
  elim (argstr u 0) [ none ↦ fail_op | some path ↦ make path t_dir (pos 0) (pos 0) ]

unfoldable pub sys_mknod : User → Prog ℤ
unfolding make
sys_mknod u = do
  step begin_op
  elim (argstr u 0) [
    | none ↦ fail_op
    | some path ↦ elim (argint u 1) [
      | none ↦ fail_op
      | some major ↦ elim (argint u 2) [
        | none ↦ fail_op
        | some minor ↦ make path t_dev (to_short major) (to_short minor)
      ]
    ]
  ]

-- What `namei` found.
unfoldable pub chdir_found : Option ℕ → Prog ℤ
unfolding fail_op fail_locked
chdir_found none = fail_op
chdir_found (some ip) = do
  a ← step (ilock ip)
  if not (is_dir a.kind) then fail_locked ip else (do
    step (iunlock ip)
    cwd ← step get_cwd
    step (iput cwd)
    step end_op
    step (set_cwd ip)
    ret (pos 0))

unfoldable pub chdir_path : Str → Prog ℤ
unfolding chdir_found
chdir_path path = do found ← step (namei path); chdir_found found

unfoldable pub sys_chdir : User → Prog ℤ
unfolding chdir_path
sys_chdir u = do step begin_op; elim (argstr u 0) [ none ↦ fail_op | some path ↦ chdir_path path ]

-- Both ends are closed.
unfoldable pub close_ends : ℕ → ℕ → Prog (Option (ℕ × ℕ))
close_ends rf wf = do step (fileclose rf); step (fileclose wf); ret none

-- What `fdalloc` gave for the end that writes.
unfoldable pub pipe_second : ℕ → ℕ → ℕ → Option ℕ → Prog (Option (ℕ × ℕ))
unfolding close_ends
pipe_second rf wf fd0 none = do step (clear_fd fd0 rf); close_ends rf wf
pipe_second rf wf fd0 (some fd1) = ret (some (fd0, fd1))

-- And for the end that reads.
unfoldable pub pipe_first : ℕ → ℕ → Option ℕ → Prog (Option (ℕ × ℕ))
unfolding pipe_second close_ends
pipe_first rf wf none = close_ends rf wf
pipe_first rf wf (some fd0) = do slot ← step (fdalloc wf); pipe_second rf wf fd0 slot

unfoldable pub pipe_got : Option (ℕ × ℕ) → Prog (Option (ℕ × ℕ))
unfolding pipe_first
pipe_got none = ret none
pipe_got (some (rf, wf)) = do slot ← step (fdalloc rf); pipe_first rf wf slot

-- `sys_pipe` once the array is fetched: the two descriptors, or -1.
unfoldable pub pipe_ends : Prog (Option (ℕ × ℕ))
unfolding pipe_got
pipe_ends = do ends ← step pipealloc; pipe_got ends

unfoldable pub sys_pipe : User → Prog (Option (ℕ × ℕ))
unfolding pipe_ends
sys_pipe u = elim (argptr u 0 (pos 8)) [ none ↦ ret none | some fd ↦ pipe_ends ]

-- `sys_copy_file` once the destination is open: the answer of `filewrite`.
unfoldable pub copy_out : ℤ → ℤ × Option ℕ → Prog ℤ
copy_out n (r, none) = ret r
copy_out n (r, some f2) = do
  written ← step (filewrite f2 n)
  ret (if eqb_ℤ written n then pos 0 else negsuc 0)

-- Once the source is open.
unfoldable pub copy_into : Str → ℤ × Option ℕ → Prog ℤ
unfolding copy_out
copy_into dest (r, none) = ret r
copy_into dest (r, some f) = do
  n ← step (fileread f (pos 4096))
  opened ← open_path dest (pos 1) (not (dest.0 == 0))
  copy_out n opened

unfoldable pub sys_copy_file : User → Prog ℤ
unfolding copy_into
sys_copy_file u = elim (argstr u 0) [
  | none ↦ ret (negsuc 0)
  | some src ↦ elim (argstr u 1) [
    | none ↦ ret (negsuc 0)
    | some dest ↦ do opened ← open_path src (pos 0) false; copy_into dest opened
  ]
]
