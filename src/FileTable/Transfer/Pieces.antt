-- ===== src/FileTable/Transfer/Pieces.antt =====
-- What `filewrite` is to do on a file: the rounds, their calls, and what each leaves.
use os_lab.Base.{
  length, length-append, take, length-take, ℕ, zero, suc, ◌+◌, ◌-◌, ◌*◌, ◌/◌, ◌≤◌, ◌<◌, ◌≡◌, sym,
  ap, ◌∙◌, subst, ap₂, Option, List, [], ◌∷◌, ◌++◌, arith,
}
use os_lab.Base.Int.{ℤ, pos}
use os_lab.Base.Outcome.{Outcome}
use os_lab.FileTable.{File}
use os_lab.Fs.{bsize, maxfile, Fs, Inode}
use os_lab.Fs.Slots.{byte_at, free_blocks}
use os_lab.Fs.Content.{patch, patch_out, patch_cong, patch-append}
use os_lab.Fs.Content.Write.{needed}
use os_lab.Fs.File.{IsFile}
use os_lab.Fs.File.Write.{new_end, WroteFile}
use os_lab.FileTable.Transfer.{
  Io, IoCall, advance, max_piece, piece_size, begin_op, ilock, iunlock, end_op,
}

-- The number of transactions for `n` bytes, and their calls.
abbrev pub piece_count : ℕ → ℕ
piece_count n = (n + (max_piece - 1)) / max_piece

unfoldable pub transactions : ℕ → List IoCall
transactions zero = []
transactions (suc k) = begin_op ∷ ilock ∷ iunlock ∷ end_op ∷ transactions k

-- What others leave alone while the inode is not locked: the file and the inode are as they were, the
-- inode's blocks are its own and its content is the same, and no fewer blocks are free.
pub record LeavesFile (io io' : Io) : Type 0 where
  pub same_file : io'.file ≡ io.file
  pub same_ip : io'.ip ≡ io.ip
  pub in_order : IsFile io'.fs io'.ip
  pub same_bytes : (o : ℕ) → byte_at io'.fs io'.ip o ≡ byte_at io.fs io.ip o
  pub no_fewer : free_blocks io.fs ≤ free_blocks io'.fs

abbrev pub Spares : (ℕ → Io → Io) → Type 0
Spares others = (i : ℕ) (io : Io) → IsFile io.fs io.ip → LeavesFile io (others i io)

-- The file with its offset at `off`.
abbrev pub at_offset : File → ℕ → File
at_offset f off = record f { off = off }

-- The bytes `src` have been written from the file's offset on, and the offset is at their end.
pub record Stored (io : Io) (src : List ℕ) (io' : Io) : Type 0 where
  pub file : IsFile io'.fs io'.ip
  pub moved : io'.file ≡ at_offset io.file (io.file.off + length src)
  pub end : io'.ip.size ≡ new_end io.ip.size io.file.off (length src)
  pub content :
      (o : ℕ)
      → o < maxfile * bsize
      → byte_at io'.fs io'.ip o ≡ patch (byte_at io.fs io.ip) io.file.off src o

pub rounds_step : (n : ℕ) → 0 < n → piece_count n ≡ suc (piece_count (n - piece_size n))
rounds_step n lt = ground arith

pub needed_piece : (off n : ℕ) → needed off (piece_size n) ≤ 8
needed_piece off n = ground arith

pub Stored-nil : (io : Io) → IsFile io.fs io.ip → io.file.off ≤ io.ip.size → Stored io [] io
Stored-nil io v le = record {
  file = v;
  moved = ap (at_offset io.file) (omega arith);
  end = ground arith;
  content = λ o lt. sym (patch_out (byte_at io.fs io.ip) io.file.off [] o (ground arith));
}

-- What others do before the write.
pub Stored-LeavesFile :
    (io here : Io) (src : List ℕ) (io' : Io)
    → LeavesFile io here
    → Stored here src io'
    → Stored io src io'
Stored-LeavesFile io here src io' l s = record {
  file = s.file;
  moved = s.moved ∙ ap (λ (f : File). at_offset f (f.off + length src)) l.same_file;
  end =
      s.end
      ∙ ap₂ (λ (ip : Inode) (f : File). new_end ip.size f.off (length src)) l.same_ip l.same_file;
  content = λ o lt.
      s.content o lt
      ∙ patch_cong _ _ here.file.off src o (l.same_bytes o)
      ∙ ap (λ (f : File). patch (byte_at io.fs io.ip) f.off src o) l.same_file;
}

new_end_twice :
    (end off a b : ℕ)
    → off ≤ end
    → new_end (new_end end off a) (off + a) b ≡ new_end end off (a + b)
new_end_twice end off a b le = ground arith

-- A write, and the rest.
pub Stored-append :
    (io next : Io) (xs ys : List ℕ) (io' : Io)
    → io.file.off ≤ io.ip.size
    → Stored io xs next
    → Stored next ys io'
    → Stored io (xs ++ ys) io'
Stored-append io next xs ys io' le s t = record {
  file = t.file;
  moved =
      t.moved
      ∙ ap (λ (f : File). at_offset f (f.off + length ys)) s.moved
      ∙ ap (at_offset io.file) (omega (arith, length-append xs ys));
  end =
      t.end
      ∙ ap₂ (λ (n : ℕ) (f : File). new_end n f.off (length ys)) s.end s.moved
      ∙ new_end_twice io.ip.size io.file.off (length xs) (length ys) le
      ∙ ap (new_end io.ip.size io.file.off) (sym (length-append xs ys));
  content = λ o lt.
      t.content o lt
      ∙ ap (λ (f : File). patch (byte_at next.fs next.ip) f.off ys o) s.moved
      ∙ patch_cong _ _ (io.file.off + length xs) ys o (s.content o lt)
      ∙ patch-append (byte_at io.fs io.ip) io.file.off xs ys o;
}

-- `writei`, and the new offset.
pub WroteFile-Stored :
    (io : Io) (src : List ℕ) (o : Option (Outcome (ℤ × Fs × Inode)))
    → io.file.off + length src ≤ maxfile * bsize
    → 0 < length src
    → (w : WroteFile io.fs io.ip io.file.off src o)
    → Stored io src (advance io (pos (length src)) w.new_fs w.new_ip)
WroteFile-Stored io src o fits some_byte w = record {
  file = w.file;
  moved = ap (at_offset io.file) (ground arith);
  end = w.end;
  content = w.content;
}

pub piece_bounds : (n : ℕ) → 0 < n → (0 < piece_size n) × (piece_size n ≤ n)
piece_bounds n lt = ground arith

pub taken :
    (c : ℕ) (src : List ℕ)
    → length (take (piece_size (length (c ∷ src))) (c ∷ src)) ≡ piece_size (length (c ∷ src))
taken c src =
    length-take (piece_size (length (c ∷ src))) (c ∷ src)
    ∙ omega (arith, piece_bounds (length (c ∷ src)))

pub room_for_piece :
    (off len n free : ℕ)
    → n ≡ piece_size len
    → 0 < len
    → 8 * piece_count len ≤ free
    → needed off n ≤ free
room_for_piece off len n free e lt room =
    subst (λ k. needed off k ≤ free) (sym e)
      (omega (arith, rounds_step len lt, needed_piece off len))

pub room_after :
    (off len n rest free free' : ℕ)
    → n ≡ piece_size len
    → rest ≡ len - piece_size len
    → 0 < len
    → 8 * piece_count len ≤ free
    → free ≤ needed off n + free'
    → 8 * piece_count rest ≤ free'
room_after off len n rest free free' e left lt room spent =
    let cost = subst (λ k. free ≤ needed off k + free') e spent in
    subst (λ k. 8 * piece_count k ≤ free') (sym left)
      (omega (arith, rounds_step len lt, needed_piece off len))

new_end_le : (end off n : ℕ) → off + n ≤ new_end end off n
new_end_le end off n = ground arith

pub next_le :
    (io : Io) (src : List ℕ) (next : Io) → Stored io src next → next.file.off ≤ next.ip.size
next_le io src next s =
    subst (λ (f : File). f.off ≤ next.ip.size) (sym s.moved)
      (subst (λ n. io.file.off + length src ≤ n) (sym s.end)
        (new_end_le io.ip.size io.file.off (length src)))
