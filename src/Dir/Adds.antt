-- ===== src/Dir/Adds.antt =====
-- `dirlink` of a name that a directory does not have.
use os_lab.Dir.Link.{
  entry_named, dirlookup-eq-entry_named, length-dirent, entry_of-added, entry_of-kept,
}
use os_lab.Fs.Content.{patch}
use os_lab.Fs.Content.Write.{needed}
use os_lab.Base.{
  length, ℕ, suc, ◌+◌, ◌*◌, ◌/◌, ◌%◌, ◌≤◌, ◌<◌, ◌≡◌, refl, ap, ◌∙◌, ◌⊎◌, inl, inr, true, false,
  Option, none, some, List, arith,
}
use os_lab.Base.Int.{ℤ, pos}
use os_lab.Base.Outcome.{Outcome, ok}
use os_lab.Fs.{bsize, maxfile, Fs, Inode, ReadDevices, WriteDevices, writei}
use os_lab.Fs.Slots.{byte_at, free_blocks, Foreign}
use os_lab.Fs.File.Write.{new_end, writei-WroteFile}
use os_lab.Dir.{bytes_of, namecmp, rounds, dirlookup, empty_loop, dirent, dirlink}
use os_lab.Dir.Lookup.{inum_at, empty_of-at}
use os_lab.Dir.Scan.{IsDir, empty_loop-eq}

-- A link that has succeeded: the directory it leaves, in which the name has the number and every
-- name that `namecmp` tells from it has what it had.
pub record LinkedDir (fs : Fs) (dp : Inode) (name : List ℕ) (inum : ℕ)
    (o : Option (Outcome (ℤ × Option ℕ × Fs × Inode))) : Type 0 where
  pub new_fs : Fs
  pub new_dp : Inode
  pub at : ℕ
  pub returned : o ≡ some (ok (pos 0, none, new_fs, new_dp))
  pub dir : IsDir new_fs new_dp
  pub added : entry_named new_fs new_dp name ≡ some (at, inum)
  pub others :
      (name' : List ℕ)
      → namecmp (bytes_of name') (bytes_of name) ≡ false
      → entry_named new_fs new_dp name' ≡ entry_named fs dp name'
  pub foreign :
      (x : ℕ) → Foreign fs dp x → new_fs.used x ≡ true × ((o : ℕ) → new_fs.cells x o ≡ fs.cells x o)

linked :
    (read_dev : ReadDevices) (write_dev : WriteDevices) (fs : Fs) (dp : Inode) (name : List ℕ)
    (inum off : ℕ) (r : ℕ) (fs' : Fs) (dp' : Inode)
    → dirlookup read_dev fs dp name ≡ some (ok (none, fs, dp))
    → empty_loop (rounds dp) read_dev fs dp 0 ≡ some (ok (off, fs, dp))
    → writei write_dev fs dp off (dirent name inum) ≡ some (ok (pos r, fs', dp'))
    → r ≡ 16
    → dirlink read_dev write_dev fs dp name inum ≡ some (ok (pos 0, none, fs', dp'))
unfolding dirlink
linked read_dev write_dev fs dp name inum off r fs' dp' new free wrote all =
    rw (new, dirlink) (rw (free, dirlink) (rw (wrote, dirlink) (rw all refl)))

-- The size after an entry at place `m` of `n`, or behind them.
grown-end :
    (size m len : ℕ)
    → size % 16 ≡ 0
    → len ≡ 16
    → m ≡ size / 16
    → new_end size (0 + 16 * m) len ≡ size + 16
grown-end size m len whole e last = ground arith

same-end :
    (size m len : ℕ)
    → size % 16 ≡ 0
    → len ≡ 16
    → m < size / 16
    → new_end size (0 + 16 * m) len ≡ size
same-end size m len whole e inside = ground arith

module _ (view : ℕ → ℕ) (size m end : ℕ) (whole : size % 16 ≡ 0) where
  -- The place of the first free entry, and the sizes around it.
  abbrev Place : Type 0
  Place = (m ≡ size / 16) ⊎ ((m < size / 16) × (inum_at view (0 + 16 * m) ≡ 0))

  abbrev Placed : Type 0
  Placed =
      ((m ≡ size / 16) × (end / 16 ≡ suc (size / 16)))
      ⊎ ((m < size / 16) × (inum_at view (0 + 16 * m) ≡ 0) × (end / 16 ≡ size / 16))

  placed :
      (len : ℕ)
      → len ≡ 16
      → end ≡ new_end size (0 + 16 * m) len
      → Place
      → Placed × (end % 16 ≡ 0) × (0 + 16 * m ≤ size) × (16 * m + 16 ≤ end) × (end ≤ size + 16)
  placed len e grown (inl last) =
      let bigger = grown ∙ grown-end size m len whole e last in
      (inl (last, omega arith), omega arith, omega arith, omega arith, omega arith)
  placed len e grown (inr (lt, free)) =
      let same = grown ∙ same-end size m len whole e lt in
      (inr (lt, free, omega arith), omega arith, omega arith, omega arith, omega arith)

entry_room : (off len : ℕ) → off % 16 ≡ 0 → len ≡ 16 → needed off len ≡ 2
entry_room off len aligned e = ground arith

-- `dirlink` on a directory whose blocks are its own, with room for one more entry below MAXFILE
-- blocks and two free blocks, of a name that it does not have and a number of an inode: it returns 0
-- within its fuel and without a panic; the name then has the number, each name that `namecmp` tells
-- from it has the entry that it had, the directory is well formed again, and the blocks in use by
-- others are still in use and as they were.
pub dirlink-LinkedDir :
    (read_dev : ReadDevices) (write_dev : WriteDevices) (fs : Fs) (dp : Inode) (name : List ℕ)
    (inum : ℕ)
    → IsDir fs dp
    → dp.size + 16 ≤ maxfile * bsize
    → 2 ≤ free_blocks fs
    → 0 < inum
    → inum < 65536
    → entry_named fs dp name ≡ none
    → LinkedDir fs dp name inum (dirlink read_dev write_dev fs dp name inum)
dirlink-LinkedDir read_dev write_dev fs dp name inum d room free nonzero low absent =
    let (m, stop, place) = empty_of-at (byte_at fs dp) (dp.size / 16) 0 in
    let len = length-dirent name inum in
    let before = placed (byte_at fs dp) dp.size m _ d.whole 16 refl refl place in
    let w =
      writei-WroteFile write_dev fs dp (0 + 16 * m) (dirent name inum) d.file before.2 (omega arith)
        (omega (arith, entry_room (0 + 16 * m) (length (dirent name inum)) (omega arith) len)) in
    let after =
      placed (byte_at fs dp) dp.size m w.new_ip.size d.whole (length (dirent name inum)) len w.end
        place in
    record {
      new_fs = w.new_fs;
      new_dp = w.new_ip;
      at = 0 + 16 * m;
      returned =
          linked read_dev write_dev fs dp name inum (0 + 16 * m) (length (dirent name inum))
            w.new_fs w.new_ip
            (dirlookup-eq-entry_named read_dev fs dp name d
              ∙ ap (λ r. some (ok (r, fs, dp))) absent)
            (empty_loop-eq read_dev fs dp d.file (rounds dp) (dp.size / 16) 0
                (omega (arith, d.whole)) (omega arith)
              ∙ ap (λ o. some (ok (o, fs, dp))) stop)
            w.returned len;
      dir = record { file = w.file; kind = w.kind ∙ d.kind; whole = after.1 };
      added =
          entry_of-added (byte_at fs dp) (byte_at w.new_fs w.new_ip) name inum m w.new_ip.size low
            after.3
            (λ o lt.
              w.content o (omega (arith, after.4))
              ∙ ap (λ b. patch (byte_at fs dp) b (dirent name inum) o) (omega arith))
            (dp.size / 16) (w.new_ip.size / 16) (omega arith) (omega arith) after.0 absent;
      others = λ name' other.
          entry_of-kept (byte_at fs dp) (byte_at w.new_fs w.new_ip) name inum m w.new_ip.size low
            after.3
            (λ o lt.
              w.content o (omega (arith, after.4))
              ∙ ap (λ b. patch (byte_at fs dp) b (dirent name inum) o) (omega arith))
            (dp.size / 16) (w.new_ip.size / 16) (bytes_of name') (omega arith) after.0 other;
      foreign = w.foreign;
    }
