-- ===== src/Dir/Scan.antt =====
-- The loops of `dirlookup` and `dirlink` over a directory whose blocks are its own.
use os_lab.CString.Strings.{compare_bytes}
use os_lab.Path.{dirsiz}
use os_lab.Base.{
  ltb, ◌==◌, if◌then◌else◌, lt→ltb, Bool-cases, get_or, ℕ, zero, suc, ◌+◌, ◌*◌, ◌%◌, ◌≤◌, ◌<◌, ◌≡◌,
  refl, sym, ap, ◌∙◌, ap₂, inl, inr, Bool, true, false, ◌&&◌, not, none, some, List, arith,
}
use os_lab.Base.Int.{pos, eqb_ℤ}
use os_lab.Base.Outcome.{ok}
use os_lab.Fs.{Fs, t_dir, Inode, read_cells, ReadDevices, readi}
use os_lab.Fs.Slots.{byte_at}
use os_lab.Fs.File.{IsFile, found, readi-eq}
use os_lab.Dir.{dirent_size, bytes_of, de_inum, de_name, namecmp, dirlookup_loop, empty_loop}
use os_lab.Dir.Lookup.{inum_at, name_at, hit, entry_of, empty_of, entry_of-hit, entry_of_skip}

-- A directory: a file of entries.
pub record IsDir (fs : Fs) (dp : Inode) : Type 0 where
  pub file : IsFile fs dp
  pub kind : dp.kind ≡ t_dir
  pub whole : dp.size % 16 ≡ 0

cells_at : (f : ℕ → ℕ) (n o i : ℕ) → i < n → get_or (read_cells f o n) i 0 ≡ f (o + i)
unfolding read_cells
cells_at f zero o i lt = absurd (omega arith)
cells_at f (suc n) o zero lt = ap f (omega arith)
cells_at f (suc n) o (suc i) lt = cells_at f n (o + 1) i (omega arith) ∙ ap f (omega arith)

-- The next entry that is read.
pub entry_at : Fs → Inode → ℕ → List ℕ
entry_at fs dp off = read_cells (byte_at fs dp) off 16

pub inum-entry_at :
    (fs : Fs) (dp : Inode) (off : ℕ) → de_inum (entry_at fs dp off) ≡ inum_at (byte_at fs dp) off
unfolding entry_at
inum-entry_at fs dp off =
    ap₂ (λ a b. a + 256 * b)
      (cells_at (byte_at fs dp) 16 off 0 (omega arith) ∙ ap (byte_at fs dp) (omega arith))
      (cells_at (byte_at fs dp) 16 off 1 (omega arith))

name-entry_at :
    (fs : Fs) (dp : Inode) (off i : ℕ)
    → i < dirsiz
    → de_name (entry_at fs dp off) i ≡ name_at (byte_at fs dp) off i
unfolding entry_at
name-entry_at fs dp off i lt =
    cells_at (byte_at fs dp) 16 off (2 + i) (omega arith) ∙ ap (byte_at fs dp) (omega arith)

-- The comparison reads the first `DIRSIZ` bytes.
pub compare_bytes_cong :
    (p q p' q' : ℕ → ℕ) (at n : ℕ)
    → ((i : ℕ) → i < at + n → p i ≡ p' i)
    → ((i : ℕ) → i < at + n → q i ≡ q' i)
    → compare_bytes p q at n ≡ compare_bytes p' q' at n
unfolding compare_bytes
compare_bytes_cong p q p' q' at zero h k = refl
compare_bytes_cong p q p' q' at (suc n) h k = ground (
  arith,
  h at,
  k at,
  compare_bytes_cong p q p' q' (at + 1) n (λ i lt. h i (omega arith)) (λ i lt. k i (omega arith)),
)

pub hit-entry_at :
    (fs : Fs) (dp : Inode) (name : ℕ → ℕ) (off : ℕ)
    → hit (byte_at fs dp) name off ≡ (
        if not (de_inum (entry_at fs dp off) == 0) && namecmp name (de_name (entry_at fs dp off))
        then some (de_inum (entry_at fs dp off))
        else none)
unfolding hit
hit-entry_at fs dp name off =
    ap₂ (λ i c. if not (i == 0) && eqb_ℤ c (pos 0) then some i else none)
      (sym (inum-entry_at fs dp off))
      (compare_bytes_cong name _ name _ 0 dirsiz (λ i lt. refl)
        (λ i lt. sym (name-entry_at fs dp off i (omega arith))))

-- One read of the loops.
pub read_entry :
    (devsw : ReadDevices) (fs : Fs) (dp : Inode) (off : ℕ)
    → IsFile fs dp
    → off + 16 ≤ dp.size
    → readi devsw fs dp off dirent_size ≡ some (ok (pos 16, entry_at fs dp off, fs, dp))
unfolding entry_at
read_entry devsw fs dp off file le =
    readi-eq devsw fs dp off 16 file (omega arith) (omega (arith, file.bounded))
    ∙ ap (λ n. some (ok (pos n, read_cells (byte_at fs dp) off n, fs, dp))) all
  where
    all : found dp.size off 16 ≡ 16
    all = ground arith

past : (off end : ℕ) → end ≤ off → ltb off end ≡ false
past off end le = ground arith

-- Whether the bytes that are read are an entry in use with the name.
pub is_entry : List ℕ → List ℕ → Bool
is_entry name de = not (de_inum de == 0) && namecmp (bytes_of name) (de_name de)

module _ (devsw : ReadDevices) (fs : Fs) (dp : Inode) (file : IsFile fs dp) where
  lookup_end :
      (fuel : ℕ) (name : List ℕ) (off : ℕ)
      → dp.size ≤ off
      → dirlookup_loop (suc fuel) devsw fs dp name off ≡ some (ok (none, fs, dp))
  unfolding dirlookup_loop
  lookup_end fuel name off le = rw (past off dp.size le, dirlookup_loop) refl

  lookup_found :
      (fuel : ℕ) (name : List ℕ) (off : ℕ)
      → off + 16 ≤ dp.size
      → is_entry name (entry_at fs dp off) ≡ true
      → dirlookup_loop (suc fuel) devsw fs dp name off
        ≡ some (ok (some (off, de_inum (entry_at fs dp off)), fs, dp))
  unfolding dirlookup_loop is_entry
  lookup_found fuel name off le e =
      rw (lt→ltb off dp.size (omega arith), dirlookup_loop)
        (rw (read_entry devsw fs dp off file le, dirlookup_loop) (rw (e, dirlookup_loop) refl))

  lookup_next :
      (fuel : ℕ) (name : List ℕ) (off : ℕ)
      → off + 16 ≤ dp.size
      → is_entry name (entry_at fs dp off) ≡ false
      → dirlookup_loop (suc fuel) devsw fs dp name off
        ≡ dirlookup_loop fuel devsw fs dp name (off + 16)
  unfolding dirlookup_loop is_entry
  lookup_next fuel name off le e =
      rw (lt→ltb off dp.size (omega arith), dirlookup_loop)
        (rw (read_entry devsw fs dp off file le, dirlookup_loop) (rw (e, dirlookup_loop) refl))

  pub dirlookup_loop-eq :
      (fuel : ℕ) (name : List ℕ) (n off : ℕ)
      → dp.size ≡ off + 16 * n
      → n < fuel
      → dirlookup_loop fuel devsw fs dp name off
        ≡ some (ok (entry_of (byte_at fs dp) (bytes_of name) n off, fs, dp))
  unfolding is_entry entry_of
  dirlookup_loop-eq zero name n off e lt = absurd (omega arith)
  dirlookup_loop-eq (suc fuel) name zero off e lt = lookup_end fuel name off (omega arith)
  dirlookup_loop-eq (suc fuel) name (suc n) off e lt =
      elim (Bool-cases (is_entry name (entry_at fs dp off))) [
        | inl t ↦
            lookup_found fuel name off (omega arith) t
            ∙ ap (λ r. some (ok (r, fs, dp)))
                (sym (
                  entry_of-hit (byte_at fs dp) (bytes_of name) n off _
                    (hit-entry_at fs dp (bytes_of name) off ∙ rw t refl)))
        | inr t ↦
            lookup_next fuel name off (omega arith) t
            ∙ dirlookup_loop-eq fuel name n (off + 16) (omega arith) (omega arith)
            ∙ ap (λ r. some (ok (r, fs, dp)))
                (sym (
                  entry_of_skip (byte_at fs dp) (bytes_of name) n off
                    (hit-entry_at fs dp (bytes_of name) off ∙ rw t refl)))
      ]

  empty_end :
      (fuel off : ℕ)
      → dp.size ≤ off
      → empty_loop (suc fuel) devsw fs dp off ≡ some (ok (off, fs, dp))
  unfolding empty_loop
  empty_end fuel off le = rw (past off dp.size le, empty_loop) refl

  empty_found :
      (fuel off : ℕ)
      → off + 16 ≤ dp.size
      → (de_inum (entry_at fs dp off) == 0) ≡ true
      → empty_loop (suc fuel) devsw fs dp off ≡ some (ok (off, fs, dp))
  unfolding empty_loop
  empty_found fuel off le e =
      rw (lt→ltb off dp.size (omega arith), empty_loop)
        (rw (read_entry devsw fs dp off file le, empty_loop) (rw (e, empty_loop) refl))

  empty_next :
      (fuel off : ℕ)
      → off + 16 ≤ dp.size
      → (de_inum (entry_at fs dp off) == 0) ≡ false
      → empty_loop (suc fuel) devsw fs dp off ≡ empty_loop fuel devsw fs dp (off + 16)
  unfolding empty_loop
  empty_next fuel off le e =
      rw (lt→ltb off dp.size (omega arith), empty_loop)
        (rw (read_entry devsw fs dp off file le, empty_loop) (rw (e, empty_loop) refl))

  pub empty_loop-eq :
      (fuel n off : ℕ)
      → dp.size ≡ off + 16 * n
      → n < fuel
      → empty_loop fuel devsw fs dp off ≡ some (ok (empty_of (byte_at fs dp) n off, fs, dp))
  unfolding empty_of
  empty_loop-eq zero n off e lt = absurd (omega arith)
  empty_loop-eq (suc fuel) zero off e lt = empty_end fuel off (omega arith)
  empty_loop-eq (suc fuel) (suc n) off e lt =
      elim (Bool-cases (de_inum (entry_at fs dp off) == 0)) [
        | inl t ↦
            empty_found fuel off (omega arith) t
            ∙ ap (λ r. some (ok (r, fs, dp))) (rw (same t, empty_of) refl)
        | inr t ↦
            empty_next fuel off (omega arith) t
            ∙ empty_loop-eq fuel n (off + 16) (omega arith) (omega arith)
            ∙ ap (λ r. some (ok (r, fs, dp))) (rw (same t, empty_of) refl)
      ]
    where
      same :
          {b : Bool}
          → (de_inum (entry_at fs dp off) == 0) ≡ b
          → (inum_at (byte_at fs dp) off == 0) ≡ b
      same e = ap (λ i. i == 0) (sym (inum-entry_at fs dp off)) ∙ e
