-- ===== src/FileTable/Transfer/Write.antt =====
-- `filewrite` on a file: its pieces make one write.
use os_lab.Pipe.{pipewrite}
use os_lab.Fs.File.Write.{writei-WroteFile}
use os_lab.Base.{
  if◌then◌else◌, ==_iff, length, length-append, take, drop, take-append-drop, length-drop, ℕ, zero,
  suc, ◌+◌, ◌*◌, ◌≤◌, ◌≡◌, sym, ap, ◌∙◌, subst, ap₂, Bool, true, Option, some, List, [], ◌∷◌, ◌++◌,
  arith,
}
use os_lab.Base.Int.{pos, negsuc}
use os_lab.Base.Outcome.{Outcome, ok}
use os_lab.FileTable.{fd_inode, File}
use os_lab.Fs.{bsize, maxfile, Inode, WriteDevices}
use os_lab.Fs.Slots.{free_blocks}
use os_lab.Fs.File.{IsFile}
use os_lab.FileTable.Transfer.{
  Io, IoCall, advance, by_type, piped, piece_size, after_round, piece_loop, WriteEnd, unwritable,
  sent, end_write, filewrite,
}
use os_lab.FileTable.Transfer.Pieces.{
  piece_count, transactions, LeavesFile, Spares, Stored, rounds_step, Stored-nil, Stored-LeavesFile,
  Stored-append, WroteFile-Stored, piece_bounds, taken, room_for_piece, room_after, next_le,
}

-- The loop has ended with all of the bytes written.
record LoopStored (io : Io) (i : ℕ) (src : List ℕ) (o : Option (Outcome (ℕ × Io × List IoCall)))
    : Type 0 where
  new_io : Io
  returned : o ≡ some (ok (i + length src, new_io, transactions (piece_count (length src))))
  written : Stored io src new_io

-- `filewrite` has returned the number of bytes, all of which are written, with the calls of a
-- transaction for each piece.
pub record FileWritten (io : Io) (src : List ℕ) (o : Option (Outcome WriteEnd)) : Type 0 where
  pub new_io : Io
  pub returned :
      o ≡ some (ok (sent (pos (length src)) new_io (transactions (piece_count (length src)))))
  pub written : Stored io src new_io

-- A round that has written its piece, and the rounds after it.
after_round-LoopStored :
    (io next : Io) (i : ℕ) (xs ys : List ℕ) (o : Option (Outcome (ℕ × Io × List IoCall)))
    → io.file.off ≤ io.ip.size
    → piece_count (length (xs ++ ys)) ≡ suc (piece_count (length ys))
    → Stored io xs next
    → LoopStored next (i + length xs) ys o
    → LoopStored io i (xs ++ ys) (after_round o)
unfolding after_round transactions
after_round-LoopStored io next i xs ys o le one s r = record {
  new_io = r.new_io;
  returned =
      ap after_round r.returned
      ∙ ap₂ (λ (j : ℕ) calls. some (ok (j, r.new_io, calls))) (omega (arith, length-append xs ys))
          (ap transactions (sym one));
  written = Stored-append io next xs ys r.new_io le s r.written;
}

LoopStored-LeavesFile :
    (io here : Io) (i : ℕ) (src : List ℕ) (o : Option (Outcome (ℕ × Io × List IoCall)))
    → LeavesFile io here
    → LoopStored here i src o
    → LoopStored io i src o
LoopStored-LeavesFile io here i src o l r = record {
  new_io = r.new_io;
  returned = r.returned;
  written = Stored-LeavesFile io here src r.new_io l r.written;
}

module _ (devsw : WriteDevices) (others : ℕ → Io → Io) (spares : Spares others) where
  loop-LoopStored :
      (fuel : ℕ) (io : Io) (i : ℕ) (src : List ℕ)
      → length src ≤ fuel
      → IsFile io.fs io.ip
      → io.file.off ≤ io.ip.size
      → io.file.off + length src ≤ maxfile * bsize
      → 8 * piece_count (length src) ≤ free_blocks io.fs
      → LoopStored io i src (piece_loop devsw others fuel io i src)
  unfolding piece_loop transactions
  loop-LoopStored fuel io i [] enough v le fits room = record {
    new_io = io;
    returned = ap (λ j. some (ok (j, io, []))) (omega arith);
    written = Stored-nil io v le;
  }
  loop-LoopStored zero io i (c ∷ src) enough v le fits room = absurd (omega arith)
  loop-LoopStored (suc fuel) io i (c ∷ src) enough v le fits room =
      let len = length (c ∷ src) in
      let n1 = piece_size len in
      let xs = take n1 (c ∷ src) in
      let ys = drop n1 (c ∷ src) in
      let whole = take-append-drop n1 (c ∷ src) in
      let here = others i io in
      let l = spares i io v in
      let offset = ap (λ (f : File). f.off) l.same_file in
      let end = ap (λ (ip : Inode). ip.size) l.same_ip in
      let full = taken c src in
      let left = length-drop n1 (c ∷ src) in
      let small = piece_bounds len (omega arith) in
      let room' : 8 * piece_count len ≤ free_blocks here.fs = omega (arith, l.no_fewer) in
      let w =
        writei-WroteFile devsw here.fs here.ip here.file.off xs l.in_order
          (omega (arith, offset, end)) (omega (arith, offset, full, small))
          (room_for_piece here.file.off len _ _ full (omega arith) room') in
      let s =
        WroteFile-Stored here xs _ (omega (arith, offset, full, small)) (omega (arith, full, small))
          w in
      let next = advance here (pos (length xs)) w.new_fs w.new_ip in
      let moved = ap (λ (f : File). f.off) s.moved in
      let r =
        loop-LoopStored fuel next (i + length xs) ys (omega (arith, left, small)) w.file
          (next_le here xs next s) (omega (arith, moved, offset, left, full, small))
          (room_after here.file.off len _ _ _ _ full left (omega arith) room' w.spent) in
      rw (piece_loop, w.returned)
        (rw ((==_iff _ _).1 full) (
          LoopStored-LeavesFile io here i (c ∷ src) _ l (
            subst
              (λ zs.
                LoopStored here i zs
                  (after_round (piece_loop devsw others fuel next (i + length xs) ys)))
              whole
              (after_round-LoopStored here next i xs ys _ (omega (arith, offset, end))
                (ap (λ (zs : List ℕ). piece_count (length zs)) whole
                  ∙ rounds_step len (omega arith)
                  ∙ ap (λ k. suc (piece_count k)) (sym left))
                s r))))

  inode_way :
      (killed : Bool) (io io' : Io) (src : List ℕ) (n : ℕ) (calls : List IoCall)
      → io.file.writable ≡ true
      → io.file.type ≡ fd_inode
      → piece_loop devsw others (length src) io 0 src ≡ some (ok (n, io', calls))
      → n ≡ length src
      → filewrite devsw others killed io src ≡ some (ok (sent (pos (length src)) io' calls))
  unfolding filewrite
  inode_way killed io io' src n calls writable inode e all =
      ap₂
        (λ b t.
          by_type b t unwritable (piped (pipewrite io.pipe killed src))
            (end_write (length src) (piece_loop devsw others (length src) io 0 src)))
        writable inode
      ∙ ap (end_write (length src)) e
      ∙ ap (λ (b : Bool). some (ok (sent (if b then pos (length src) else negsuc 0) io' calls)))
          ((==_iff n (length src)).1 all)

  -- On an open file that may be written, whose inode is a file or a directory with its own blocks,
  -- from an offset up to its end and up to MAXFILE blocks, with eight free blocks for each piece of
  -- at most 1536 bytes; whatever other processes do before each transaction, if they leave this file,
  -- its inode and its content as they are and no fewer blocks free: `filewrite` returns, within its
  -- fuel and without a panic, the number of bytes, with the calls of one transaction for each piece.
  -- The pieces make one write: the content is the old one with all of the bytes from the offset on, the
  -- size grows to their end if that is further, the offset is at their end, the other fields of the
  -- file are as before, and the inode's blocks are its own.
  pub filewrite-FileWritten :
      (killed : Bool) (io : Io) (src : List ℕ)
      → io.file.writable ≡ true
      → io.file.type ≡ fd_inode
      → IsFile io.fs io.ip
      → io.file.off ≤ io.ip.size
      → io.file.off + length src ≤ maxfile * bsize
      → 8 * piece_count (length src) ≤ free_blocks io.fs
      → FileWritten io src (filewrite devsw others killed io src)
  unfolding filewrite
  filewrite-FileWritten killed io src writable inode v le fits room =
      let r = loop-LoopStored (length src) io 0 src (omega arith) v le fits room in
      record {
        new_io = r.new_io;
        returned = inode_way killed io r.new_io src _ _ writable inode r.returned (omega arith);
        written = r.written;
      }
