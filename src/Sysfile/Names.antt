-- ===== src/Sysfile/Names.antt =====
-- sysfile.c: `sys_link`, `sys_unlink` and `create`.
use os_lab.Syscall.{User, argstr}
use os_lab.Fs.{FileKind}
use os_lab.Sysfile.{
  Str, Attrs, begin_op, end_op, namei, nameiparent, ilock, iunlock, iput, ialloc, dirlookup,
  dirlink, read_entry, clear_entry, more_links, fewer_links, init_inode, Prog, ret, panic, ◌>>=◌,
  ◌>>◌, step, iunlockput, is_dir, is_file,
}
use os_lab.Base.Int.{ℤ, pos, negsuc}
use os_lab.Base.{
  leb, ◌==◌, if◌then◌else◌, ℕ, zero, suc, ◌+◌, ◌-◌, ◌/◌, ◌^◌, Bool, true, false, ◌&&◌, ◌||◌, not,
  Option, none, some, List, [], ◌∷◌,
}
use os_lab.Dir

-- The label `bad` of `sys_link`.
unfoldable pub undo_link : ℕ → Prog ℤ
undo_link ip = do
  _ ← step (ilock ip)
  step (fewer_links ip)
  iunlockput ip
  step end_op
  ret (negsuc 0)

-- The end of `sys_link`, with the directory still locked.
unfoldable pub end_link : ℕ → ℕ → Bool → Prog ℤ
unfolding undo_link
end_link ip dp linked = do
  iunlockput dp
  if linked then (do step (iput ip); step end_op; ret (pos 0)) else undo_link ip

-- What `nameiparent` found for the new name; `a` is what the lock of `ip` showed.
unfoldable pub link_parent : ℕ → Attrs → Option (ℕ × List ℕ) → Prog ℤ
unfolding end_link undo_link
link_parent ip a none = undo_link ip
link_parent ip a (some (dp, name)) = do
  d ← step (ilock dp)
  linked ← (if not (d.dev == a.dev) then ret false else step (dirlink dp name ip))
  end_link ip dp linked

-- What the lock of the inode showed.
unfoldable pub link_locked : ℕ → Str → Attrs → Prog ℤ
unfolding link_parent
link_locked ip new a =
    if is_dir a.kind then (do iunlockput ip; step end_op; ret (negsuc 0)) else (do
      step (more_links ip)
      step (iunlock ip)
      parent ← step (nameiparent new)
      link_parent ip a parent)

-- What `namei` found for the old name.
unfoldable pub link_found : Str → Option ℕ → Prog ℤ
unfolding link_locked
link_found new none = do step end_op; ret (negsuc 0)
link_found new (some ip) = do a ← step (ilock ip); link_locked ip new a

unfoldable pub link_paths : Str → Str → Prog ℤ
unfolding link_found
link_paths old new = do step begin_op; found ← step (namei old); link_found new found

unfoldable pub sys_link : User → Prog ℤ
unfolding link_paths
sys_link u = elim (argstr u 0) [
  | none ↦ ret (negsuc 0)
  | some old ↦ elim (argstr u 1) [ none ↦ ret (negsuc 0) | some new ↦ link_paths old new ]
]

-- An entry that has been read: the rest of the loop is `rest`.
abbrev pub check_entry : Prog Bool → Option ℕ → Prog Bool
check_entry rest none = panic
check_entry rest (some inum) = if inum == 0 then rest else ret false

-- The loop of `isdirempty`, with `n` rounds left.
unfoldable pub isdirempty_loop : ℕ → ℕ → ℕ → Prog Bool
isdirempty_loop zero dp off = ret true
isdirempty_loop (suc n) dp off = do
  entry ← step (read_entry dp off)
  check_entry (isdirempty_loop n dp (off + 16)) entry

-- `isdirempty` of a directory with `size` bytes.
unfoldable pub isdirempty : ℕ → ℕ → Prog Bool
unfolding isdirempty_loop
isdirempty dp size = isdirempty_loop ((size - 32 + 15) / 16) dp 32

-- The label `bad` of `sys_unlink`.
unfoldable pub give_up : ℕ → Prog ℤ
give_up dp = do iunlockput dp; step end_op; ret (negsuc 0)

-- The entry of `ip` is cleared, and the counts of links follow.
unfoldable pub cleared_entry : ℕ → ℕ → FileKind → Bool → Prog ℤ
cleared_entry dp ip kind false = panic
cleared_entry dp ip kind true = do
  (if is_dir kind then step (fewer_links dp) else ret tt)
  iunlockput dp
  step (fewer_links ip)
  iunlockput ip
  step end_op
  ret (pos 0)

-- An inode that may go, or a directory that is not empty.
unfoldable pub unlink_empty : ℕ → ℕ → ℕ → FileKind → Bool → Prog ℤ
unfolding cleared_entry give_up
unlink_empty dp ip off kind false = do iunlockput ip; give_up dp
unlink_empty dp ip off kind true = do
  cleared ← step (clear_entry dp off ip)
  cleared_entry dp ip kind cleared

-- A `short` below 1.
abbrev pub no_links : ℕ → Bool
no_links nlink = (nlink == 0) || leb (2 ^ 15) nlink

unfoldable pub unlink_locked : ℕ → ℕ → ℕ → Attrs → Prog ℤ
unfolding isdirempty unlink_empty
unlink_locked dp ip off a = if no_links a.nlink then panic else (do
  empty ← (if is_dir a.kind then isdirempty ip a.size else ret true)
  unlink_empty dp ip off a.kind empty)

-- What `dirlookup` found.
unfoldable pub unlink_found : ℕ → Option (ℕ × ℕ) → Prog ℤ
unfolding unlink_locked give_up
unlink_found dp none = give_up dp
unlink_found dp (some (ip, off)) = do a ← step (ilock ip); unlink_locked dp ip off a

abbrev pub is_dots : List ℕ → Bool
is_dots name =
    Dir.namecmp (Dir.bytes_of name) (Dir.bytes_of (b'.' ∷ []))
    || Dir.namecmp (Dir.bytes_of name) (Dir.bytes_of (b'.' ∷ b'.' ∷ []))

unfoldable pub unlink_parent : Option (ℕ × List ℕ) → Prog ℤ
unfolding unlink_found
unlink_parent none = do step end_op; ret (negsuc 0)
unlink_parent (some (dp, name)) = do
  _ ← step (ilock dp)
  if is_dots name then give_up dp else (do found ← step (dirlookup dp name); unlink_found dp found)

unfoldable pub unlink_path : Str → Prog ℤ
unfolding unlink_parent
unlink_path path = do step begin_op; parent ← step (nameiparent path); unlink_parent parent

unfoldable pub sys_unlink : User → Prog ℤ
unfolding unlink_path
sys_unlink u = elim (argstr u 0) [ none ↦ ret (negsuc 0) | some path ↦ unlink_path path ]

-- The entries "." and ".." of a new directory.
unfoldable pub link_dots : ℕ → ℕ → Prog (Unit {0})
link_dots dp ip = do
  step (more_links dp)
  dot ← step (dirlink ip (b'.' ∷ []) ip)
  dots ← (if dot then step (dirlink ip (b'.' ∷ b'.' ∷ []) dp) else ret false)
  if dots then ret tt else panic

-- The end of `create`.
unfoldable pub created : ℕ → ℕ → Bool → Prog (Option ℕ)
created dp ip false = panic
created dp ip true = do iunlockput dp; ret (some ip)

-- `create` of a name that `dp` does not have.
unfoldable pub create_new : ℕ → ℕ → List ℕ → FileKind → ℤ → ℤ → Prog (Option ℕ)
unfolding link_dots created
create_new dp dev name kind major minor = do
  ip ← step (ialloc dev kind)
  _ ← step (ilock ip)
  step (init_inode ip major minor)
  (if is_dir kind then link_dots dp ip else ret tt)
  linked ← step (dirlink dp name ip)
  created dp ip linked

-- What `dirlookup` found.
unfoldable pub create_found : ℕ → ℕ → List ℕ → FileKind → ℤ → ℤ → Option (ℕ × ℕ) → Prog (Option ℕ)
unfolding create_new
create_found dp dev name kind major minor none = create_new dp dev name kind major minor
create_found dp dev name kind major minor (some (ip, off)) = do
  iunlockput dp
  a ← step (ilock ip)
  if is_file kind && is_file a.kind then ret (some ip) else (do iunlockput ip; ret none)

unfoldable pub create_parent : FileKind → ℤ → ℤ → Option (ℕ × List ℕ) → Prog (Option ℕ)
unfolding create_found
create_parent kind major minor none = ret none
create_parent kind major minor (some (dp, name)) = do
  d ← step (ilock dp)
  found ← step (dirlookup dp name)
  create_found dp d.dev name kind major minor found

unfoldable pub create : Str → FileKind → ℤ → ℤ → Prog (Option ℕ)
unfolding create_parent
create path kind major minor = do
  parent ← step (nameiparent path)
  create_parent kind major minor parent
