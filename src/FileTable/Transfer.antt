-- ===== src/FileTable/Transfer.antt =====
-- file.c: `filestat`, `fileread` and `filewrite` over the pipe, or the inode and the disk, that a file
-- stands for. The calls on locks and the log are listed in order. `n` is a number of bytes that
-- `argptr` has let pass, so it is not negative.
pub mod Pieces
pub mod Write
mod Tests
use os_lab.Base.{
  ltb, ◌==◌, if◌then◌else◌, length, take, drop, ℕ, zero, suc, true, false, ◌+◌, ◌-◌, ◌*◌, ◌/◌, Bool,
  not, Option, none, some, List, [], ◌∷◌,
}
use os_lab.Base.Int.{ℤ, pos, negsuc, pos_part, gtb_ℤ}
use os_lab.Base.Outcome.{Outcome, ok, panic}
use os_lab.FileTable.{FileType, fd_none, fd_pipe, fd_inode, File}
use os_lab.Fs.{Fs, FileKind, Inode, ReadDevices, WriteDevices, readi, writei}
use os_lab.Log.{maxopblocks}
use os_lab.Icache.{CachedInode}
use os_lab.Pipe.{add_uint, Pipe, Side, Wrote, pipewrite, Got, piperead}

-- A file, with what its `pipe` and `ip` point to, and the disk.
pub record Io : Type 0 where
  pub file : File
  pub pipe : Pipe
  pub fs : Fs
  pub ip : Inode

-- The calls before and after those to `readi`, `writei` and `stati`, of the inode of the file.
pub data IoCall : Type 0 where
  begin_op ilock iunlock end_op : IoCall

-- `struct stat`
pub record Stat : Type 0 where
  pub type : FileKind
  pub dev : ℕ
  pub ino : ℕ
  pub nlink : ℕ
  pub size : ℕ

unfoldable pub stati : CachedInode → Stat
stati ip = record {
  dev = ip.dev;
  ino = ip.inum;
  type = ip.copy.kind;
  nlink = ip.nlink;
  size = ip.copy.size;
}

-- `none` for -1. The inode is as `ilock` leaves it.
unfoldable pub filestat : File → CachedInode → Option (Stat × List IoCall)
unfolding stati
filestat f ip = elim f.type [ fd_inode ↦ some (stati ip, ilock ∷ iunlock ∷ []) | _ ↦ none ]

-- `f->off += r`, where `r` is above 0, and what the call on the inode has left.
abbrev pub advance : Io → ℤ → Fs → Inode → Io
advance io r fs ip =
    let off = if gtb_ℤ r (pos 0) then add_uint io.file.off (pos_part r) else io.file.off in
    record io { file = record io.file { off = off }; fs = fs; ip = ip }

-- The first test of `fileread` and `filewrite`, and the type of the file: -1, the way of the pipe or
-- that of the inode.
abbrev pub by_type :
    {A : Type 0} → Bool → FileType → A → A → Option (Outcome A) → Option (Outcome A)
by_type false type refused from_pipe from_inode = some (ok refused)
by_type true fd_none refused from_pipe from_inode = some panic
by_type true fd_pipe refused from_pipe from_inode = some (ok from_pipe)
by_type true fd_inode refused from_pipe from_inode = from_inode

-- How `fileread` ends: -1 at once, with what a run of `piperead` does, or with the result of `readi`, its bytes
-- and the calls about it.
pub data ReadEnd : Type 0 where
  unreadable : ReadEnd
  piped : Pipe × Got × List Side → ReadEnd
  filled : ℤ → List ℕ → Io → List IoCall → ReadEnd

abbrev pub end_read : Io → Option (Outcome (ℤ × List ℕ × Fs × Inode)) → Option (Outcome ReadEnd)
end_read io none = none
end_read io (some panic) = some panic
end_read io (some (ok (r, bytes, fs, ip))) =
    some (ok (filled r bytes (advance io r fs ip) (ilock ∷ iunlock ∷ [])))

unfoldable pub fileread : ReadDevices → Bool → Io → ℕ → Option (Outcome ReadEnd)
fileread devsw killed io n =
    by_type io.file.readable io.file.type unreadable (piped (piperead io.pipe killed n))
      (end_read io (readi devsw io.fs io.ip io.file.off n))

-- The most bytes that `filewrite` writes in one transaction.
abbrev pub max_piece : ℕ
max_piece = (maxopblocks - 1 - 1 - 2) / 2 * 512

-- `n1`, with `n` bytes left.
abbrev pub piece_size : ℕ → ℕ
piece_size n = if ltb max_piece n then max_piece else n

-- The calls of a round.
abbrev pub transaction : List IoCall → List IoCall
transaction rest = begin_op ∷ ilock ∷ iunlock ∷ end_op ∷ rest

-- `i`, the state and the calls, of a round and the rounds after it.
unfoldable pub after_round :
    Option (Outcome (ℕ × Io × List IoCall)) → Option (Outcome (ℕ × Io × List IoCall))
after_round none = none
after_round (some panic) = some panic
after_round (some (ok (i, io, calls))) = some (ok (i, io, transaction calls))

-- The loop of `filewrite` over the bytes that are left, `i` being written. Before a round the inode is
-- not locked: `others i` is what other processes do then. `none` when the fuel runs out.
unfoldable pub piece_loop :
    WriteDevices → (ℕ → Io → Io) → ℕ → Io → ℕ → List ℕ → Option (Outcome (ℕ × Io × List IoCall))
unfolding after_round
piece_loop devsw others fuel io i [] = some (ok (i, io, []))
piece_loop devsw others zero io i (c ∷ src) = none
piece_loop devsw others (suc fuel) io i (c ∷ src) =
    let n1 = piece_size (length (c ∷ src)) in
    let here = others i io in
    elim (writei devsw here.fs here.ip here.file.off (take n1 (c ∷ src))) [
      | none ↦ none
      | some panic ↦ some panic
      | some (ok (negsuc r, fs, ip)) ↦ some (ok (i, advance here (negsuc r) fs ip, transaction []))
      | some (ok (pos r, fs, ip)) ↦
          let rest =
            piece_loop devsw others fuel (advance here (pos r) fs ip) (i + r) (drop n1 (c ∷ src)) in
          if r == n1 then after_round rest else some panic
    ]

-- How `filewrite` ends: -1 at once, with what a run of `pipewrite` does, or with a result and the calls.
pub data WriteEnd : Type 0 where
  unwritable : WriteEnd
  piped : Pipe × Wrote × List Side → WriteEnd
  sent : ℤ → Io → List IoCall → WriteEnd

-- `i == n ? n : -1`
abbrev pub end_write : ℕ → Option (Outcome (ℕ × Io × List IoCall)) → Option (Outcome WriteEnd)
end_write n none = none
end_write n (some panic) = some panic
end_write n (some (ok (i, io, calls))) =
    some (ok (sent (if i == n then pos n else negsuc 0) io calls))

unfoldable pub filewrite :
    WriteDevices → (ℕ → Io → Io) → Bool → Io → List ℕ → Option (Outcome WriteEnd)
unfolding piece_loop
filewrite devsw others killed io src =
    by_type io.file.writable io.file.type unwritable (piped (pipewrite io.pipe killed src))
      (end_write (length src) (piece_loop devsw others (length src) io 0 src))
