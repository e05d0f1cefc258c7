-- ===== src/Icache.antt =====
-- fs.c: the table of inodes in memory. An inode's place in `icache.inode` stands for its address, and
-- a place outside it for the null pointer. Each body under `icache.lock` is one step; a call whose
-- `acquiresleep` has to wait is `none`, and is made again when the lock is free.
pub mod Invariant
pub mod Get
pub mod Lock
pub mod Put
pub mod Alloc
mod Tests
use os_lab.Base.{
  ◌==◌, if◌then◌else◌, get_elem?, set, replicate, modify, ℕ, zero, suc, ◌-◌, Bool, true, false,
  ◌&&◌, ◌||◌, not, Option, none, some, List,
}
use os_lab.Base.Int.{ℤ, pos, ltb_ℤ, sub_int, gtb_ℤ, eqb_ℤ, add_int}
use os_lab.Base.Find.{find_index}
use os_lab.Base.Outcome.{Outcome, ok, panic, ◌>>=◌, ◌>>◌}
use os_lab.SleepLock.{SleepLock, holdingsleep}
use os_lab.Fs.{Fs, FileKind, t_none, Inode}
use os_lab.Fs.Trunc.{itrunc}

-- `struct dinode`; `nlink` is the 16-bit pattern of a `short`.
pub record Dinode : Type 0 where
  pub kind : FileKind
  pub major : ℤ
  pub minor : ℤ
  pub nlink : ℕ
  pub size : ℕ
  pub addrs : List ℕ

-- `struct inode`; `copy` has the fields of its content.
pub record CachedInode : Type 0 where
  pub dev : ℕ
  pub inum : ℕ
  pub ref : ℤ
  pub lock : SleepLock
  pub valid : Bool
  pub minor : ℤ
  pub nlink : ℕ
  pub copy : Inode

-- The table, and on the disk the inodes of each device, how many there are, and the blocks.
pub record Icache : Type 0 where
  pub inodes : List CachedInode
  pub dinodes : ℕ → ℕ → Dinode
  pub ninodes : ℕ
  pub fs : Fs

abbrev pub is_cached : ℕ → ℕ → CachedInode → Bool
is_cached dev inum ip = gtb_ℤ ip.ref (pos 0) && ((ip.dev == dev) && (ip.inum == inum))

abbrev pub is_unused : CachedInode → Bool
is_unused ip = eqb_ℤ ip.ref (pos 0)

abbrev pub count_one : CachedInode → CachedInode
count_one ip = record ip { ref = add_int ip.ref (pos 1) }

abbrev pub recycle : ℕ → ℕ → CachedInode → CachedInode
recycle dev inum ip = record ip { dev = dev; inum = inum; ref = pos 1; valid = false }

abbrev pub with_inodes : Icache → List CachedInode → Icache
with_inodes st inodes = record st { inodes = inodes }

unfoldable pub iget : Icache → ℕ → ℕ → Outcome (ℕ × Icache)
iget st dev inum = elim (find_index (is_cached dev inum) st.inodes) [
  | some i ↦ ok (i, with_inodes st (modify st.inodes i count_one))
  | none ↦ elim (find_index is_unused st.inodes) [
    | some i ↦ ok (i, with_inodes st (modify st.inodes i (recycle dev inum)))
    | none ↦ panic
  ]
]

unfoldable pub idup : Icache → ℕ → Icache
idup st i = with_inodes st (modify st.inodes i count_one)

-- What `ilock` reads from the disk.
abbrev pub loaded : CachedInode → Dinode → CachedInode
loaded ip d = record ip {
  valid = true;
  minor = d.minor;
  nlink = d.nlink;
  copy = record { kind = d.kind; major = d.major; size = d.size; addrs = d.addrs };
}

-- What `iupdate` writes to it.
abbrev pub stored : CachedInode → Dinode
stored ip = record {
  kind = ip.copy.kind;
  major = ip.copy.major;
  minor = ip.minor;
  nlink = ip.nlink;
  size = ip.copy.size;
  addrs = ip.copy.addrs;
}

abbrev pub put_dinode : (ℕ → ℕ → Dinode) → ℕ → ℕ → Dinode → ℕ → ℕ → Dinode
put_dinode dinodes dev inum d x y = if (x == dev) && (y == inum) then d else dinodes x y

-- `iupdate` of the inode `ip`.
unfoldable pub iupdate : Icache → CachedInode → Icache
iupdate st ip = record st { dinodes = put_dinode st.dinodes ip.dev ip.inum (stored ip) }

abbrev pub locked_by : ℤ → CachedInode → CachedInode
locked_by pid ip = record ip { lock = record { locked = true; pid = pid } }

abbrev pub is_free : FileKind → Bool
is_free t_none = true
is_free _ = false

-- `ilock` by the process `pid`.
unfoldable pub ilock : Icache → ℕ → ℤ → Option (Outcome Icache)
ilock st i pid = elim (get_elem? st.inodes i) [
  | none ↦ some panic
  | some ip ↦
      if ltb_ℤ ip.ref (pos 1)
      then some panic
      else (if ip.lock.locked
          then none
          else (if ip.valid
              then some (ok (with_inodes st (set st.inodes i (locked_by pid ip))))
              else (if is_free (st.dinodes ip.dev ip.inum).kind
                  then some panic
                  else some (
                      ok (
                        with_inodes st (
                          set st.inodes i
                            (loaded (locked_by pid ip) (st.dinodes ip.dev ip.inum))))))))
]

abbrev pub unlocked : CachedInode → CachedInode
unlocked ip = record ip { lock = record { locked = false; pid = pos 0 } }

unfoldable pub iunlock : Icache → ℕ → ℤ → Outcome Icache
unfolding holdingsleep
iunlock st i pid = elim (get_elem? st.inodes i) [
  | none ↦ panic
  | some ip ↦
      if not (holdingsleep ip.lock pid) || ltb_ℤ ip.ref (pos 1)
      then panic
      else ok (with_inodes st (set st.inodes i (unlocked ip)))
]

-- The last reference to an inode with no links: the file goes, and the inode is free on the disk.
unfoldable pub free_inode : Icache → CachedInode → Outcome (CachedInode × Icache)
unfolding iupdate
free_inode st ip = do
  (fs', copy) ← itrunc st.fs ip.copy
  let freed = record ip { copy = record copy { kind = t_none } }
  ok (record freed { valid = false }, iupdate (record st { fs = fs' }) freed)

abbrev pub drop_one : CachedInode → CachedInode
drop_one ip = record ip { ref = sub_int ip.ref (pos 1) }

abbrev pub is_last : CachedInode → Bool
is_last ip = (ip.valid && (ip.nlink == 0)) && eqb_ℤ ip.ref (pos 1)

-- `iput`
unfoldable pub iput : Icache → ℕ → Option (Outcome Icache)
unfolding free_inode
iput st i = elim (get_elem? st.inodes i) [
  | none ↦ some panic
  | some ip ↦
      if ip.lock.locked
      then none
      else some (
          (if is_last ip then free_inode st ip else ok (ip, st)) >>= λ (ip', st').
          ok (with_inodes st' (set st'.inodes i (drop_one (unlocked ip')))))
]

unfoldable pub iunlockput : Icache → ℕ → ℤ → Option (Outcome Icache)
iunlockput st i pid = elim (iunlock st i pid) [ panic ↦ some panic | ok st' ↦ iput st' i ]

-- The loop of `ialloc`: the first free inode, with `n` of them left from `inum` on.
unfoldable pub free_inum : (ℕ → Dinode) → ℕ → ℕ → Option ℕ
free_inum dinodes zero inum = none
free_inum dinodes (suc n) inum =
    let rest = free_inum dinodes n (suc inum) in
    if is_free (dinodes inum).kind then some inum else rest

-- `memset(dip, 0, sizeof(*dip))` and the type.
abbrev pub new_dinode : FileKind → Dinode
new_dinode kind = record {
  kind = kind;
  major = pos 0;
  minor = pos 0;
  nlink = 0;
  size = 0;
  addrs = replicate 13 0;
}

unfoldable pub ialloc : Icache → ℕ → FileKind → Outcome (ℕ × Icache)
unfolding free_inum iget
ialloc st dev kind = elim (free_inum (st.dinodes dev) (st.ninodes - 1) 1) [
  | none ↦ panic
  | some inum ↦
      iget (record st { dinodes = put_dinode st.dinodes dev inum (new_dinode kind) }) dev inum
]
