-- ===== src/Sysfile.antt =====
-- sysfile.c: the calls on path names, as programs over the calls that they make of the log, the inodes,
-- the directories and the file table. The answer of each is whatever it can be at that moment, other
-- processes included, and a call that panics or sleeps for ever answers nothing. An inode or a file
-- stands for its address.
pub mod Names
pub mod Open
pub mod Ledger
pub mod Rules
pub mod Links
pub mod Link
pub mod Removes
pub mod Unlink
pub mod Creates
pub mod Create
pub mod Opens
pub mod Settles
pub mod Pipes
pub mod Copies
mod Tests
use os_lab.Base.Int.{ℤ, pos, negsuc, to_uint}
use os_lab.Base.{ltb, ◌==◌, if◌then◌else◌, ℕ, ◌-◌, ◌%◌, ◌^◌, Bool, true, false, not, Option, List}
use Prim.Native.Nat.{bit_and}
use os_lab.Fs.{FileKind, t_dir, t_file}

-- The address of a string and its length, as `argstr` gives them.
abbrev pub Str : Type 0
Str = ℕ × ℕ

-- The fields of an inode that its lock lets the process read.
pub record Attrs : Type 0 where
  pub dev : ℕ
  pub kind : FileKind
  pub nlink : ℕ
  pub size : ℕ

pub data Op : Type 0 where
  begin_op end_op : Op
  namei nameiparent : Str → Op
  ilock iunlock iput : ℕ → Op
  ialloc : ℕ → FileKind → Op
  dirlookup : ℕ → List ℕ → Op
  -- `dirlink(dp, name, ip->inum)`
  dirlink : ℕ → List ℕ → ℕ → Op
  -- `readi` of the entry at an offset
  read_entry : ℕ → ℕ → Op
  -- `writei` of zeros over the entry at an offset, which is the second inode's
  clear_entry : ℕ → ℕ → ℕ → Op
  -- `ip->nlink++` and `ip->nlink--`, each with its `iupdate`
  more_links fewer_links : ℕ → Op
  -- `major`, `minor` and `nlink = 1` of a new inode, with `iupdate`
  init_inode : ℕ → ℤ → ℤ → Op
  filealloc pipealloc : Op
  fdalloc fileclose : ℕ → Op
  -- `myproc()->ofile[fd] = 0`, and the file that was there
  clear_fd : ℕ → ℕ → Op
  -- the fields of a file that is an inode: whether it is readable and writable
  set_file : ℕ → ℕ → Bool → Bool → Op
  get_cwd : Op
  set_cwd : ℕ → Op
  -- into and from the buffer of `sys_copy_file`
  fileread filewrite : ℕ → ℤ → Op

-- What a call answers; an `Option` is a pointer or the null pointer, or a number or -1.
abbrev pub Ans : Op → Type 0
Ans (namei _) = Option ℕ
Ans (nameiparent _) = Option (ℕ × List ℕ)
Ans (ilock _) = Attrs
Ans (ialloc _ _) = ℕ
Ans (dirlookup _ _) = Option (ℕ × ℕ)  -- the inode, and the offset of its entry
Ans (dirlink _ _ _) = Bool  -- whether it returned 0
Ans (read_entry _ _) = Option ℕ  -- the number in it, if 16 bytes were read
Ans (clear_entry _ _ _) = Bool  -- whether 16 bytes were written
Ans filealloc = Option ℕ
Ans pipealloc = Option (ℕ × ℕ)
Ans (fdalloc _) = Option ℕ
Ans get_cwd = ℕ
Ans (fileread _ _) = ℤ
Ans (filewrite _ _) = ℤ
Ans _ = Unit

-- A call of the kernel: it returns, panics, or makes a call and goes on with its answer.
pub data Prog (A : Type 0) : Type 0 where
  ret : A → Prog A
  panic : Prog A
  call : (o : Op) → (Ans o → Prog A) → Prog A

infixl 5 ◌>>=◌ ◌>>◌
abbrev pub ◌>>=◌ : {A B : Type 0} → Prog A → (A → Prog B) → Prog B
ret a >>= f = f a
panic >>= f = panic
call o k >>= f = call o (λ a. k a >>= f)

abbrev pub ◌>>◌ : {B : Type 0} → Prog (Unit {0}) → Prog B → Prog B
m >> k = m >>= λ _. k

abbrev pub step : (o : Op) → Prog (Ans o)
step o = call o ret

abbrev pub iunlockput : ℕ → Prog (Unit {0})
iunlockput ip = call (iunlock ip) (λ _. call (iput ip) (λ _. ret tt))

-- O_WRONLY, O_RDWR and O_CREATE
abbrev pub o_wronly : ℕ
o_wronly = 0x001

abbrev pub o_rdwr : ℕ
o_rdwr = 0x002

abbrev pub o_create : ℕ
o_create = 0x200

-- `mode & flag`
abbrev pub has_flag : ℤ → ℕ → Bool
has_flag mode flag = not (bit_and (to_uint mode) flag == 0)

-- A `short` from an `int`.
abbrev pub to_short : ℤ → ℤ
to_short z = let w = to_uint z % 2 ^ 16 in if ltb w (2 ^ 15) then pos w else negsuc (2 ^ 16 - w - 1)

abbrev pub is_dir : FileKind → Bool
is_dir t_dir = true
is_dir _ = false

abbrev pub is_file : FileKind → Bool
is_file t_file = true
is_file _ = false
