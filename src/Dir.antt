-- ===== src/Dir.antt =====
-- fs.c: directories, as the bytes of an inode that `readi` and `writei` read and write.
pub mod Lookup
pub mod Scan
pub mod Link
pub mod Finds
pub mod Adds
mod Tests
use os_lab.Base.{
  ltb, ◌==◌, if◌then◌else◌, get_or, ℕ, zero, suc, ◌+◌, ◌*◌, ◌/◌, ◌%◌, Bool, true, false, ◌&&◌, not,
  Option, none, some, List, [], ◌∷◌,
}
use os_lab.Base.Int.{ℤ, pos, negsuc, eqb_ℤ}
use os_lab.Base.Outcome.{Outcome, ok, panic}
use os_lab.Fs.{Fs, FileKind, t_dir, Inode, ReadDevices, WriteDevices, readi, writei}
use os_lab.Path.{dirsiz}
use os_lab.CString.Strings.{compare_bytes}

-- sizeof(struct dirent)
abbrev pub dirent_size : ℕ
dirent_size = 16

-- A string by its bytes; the NUL stands behind the last.
abbrev pub bytes_of : List ℕ → ℕ → ℕ
bytes_of s i = get_or s i 0

-- `de.inum` and `de.name` of the bytes of a `struct dirent`.
abbrev pub de_inum : List ℕ → ℕ
de_inum de = get_or de 0 0 + 256 * get_or de 1 0

abbrev pub de_name : List ℕ → ℕ → ℕ
de_name de i = get_or de (2 + i) 0

-- `namecmp(s, t) == 0`
abbrev pub namecmp : (ℕ → ℕ) → (ℕ → ℕ) → Bool
namecmp s t = eqb_ℤ (compare_bytes s t 0 dirsiz) (pos 0)

-- The loop of `dirlookup`: the offset and the inode's number; `none` when the fuel runs out. The
-- `iget` of the number is left to the caller.
unfoldable pub dirlookup_loop :
    ℕ → ReadDevices → Fs → Inode → List ℕ → ℕ → Option (Outcome (Option (ℕ × ℕ) × Fs × Inode))
dirlookup_loop zero devsw fs dp name off = none
dirlookup_loop (suc fuel) devsw fs dp name off = elim (ltb off dp.size) [
  | false ↦ some (ok (none, fs, dp))
  | true ↦ elim (readi devsw fs dp off dirent_size) [
    | none ↦ none
    | some panic ↦ some panic
    | some (ok (r, de, fs', dp')) ↦ elim (eqb_ℤ r (pos dirent_size)) [
      | false ↦ some panic
      | true ↦ elim (not (de_inum de == 0) && namecmp (bytes_of name) (de_name de)) [
        | true ↦ some (ok (some (off, de_inum de), fs', dp'))
        | false ↦ dirlookup_loop fuel devsw fs' dp' name (off + dirent_size)
      ]
    ]
  ]
]

abbrev pub is_dir : FileKind → Bool
is_dir t_dir = true
is_dir _ = false

abbrev pub rounds : Inode → ℕ
rounds dp = dp.size / dirent_size + 1

unfoldable pub dirlookup :
    ReadDevices → Fs → Inode → List ℕ → Option (Outcome (Option (ℕ × ℕ) × Fs × Inode))
dirlookup devsw fs dp name =
    if not (is_dir dp.kind) then some panic else dirlookup_loop (rounds dp) devsw fs dp name 0

-- The loop of `dirlink` for an empty entry: the offset at which it stops.
unfoldable pub empty_loop : ℕ → ReadDevices → Fs → Inode → ℕ → Option (Outcome (ℕ × Fs × Inode))
empty_loop zero devsw fs dp off = none
empty_loop (suc fuel) devsw fs dp off = elim (ltb off dp.size) [
  | false ↦ some (ok (off, fs, dp))
  | true ↦ elim (readi devsw fs dp off dirent_size) [
    | none ↦ none
    | some panic ↦ some panic
    | some (ok (r, de, fs', dp')) ↦ elim (eqb_ℤ r (pos dirent_size)) [
      | false ↦ some panic
      | true ↦ elim (de_inum de == 0) [
        | true ↦ some (ok (off, fs', dp'))
        | false ↦ empty_loop fuel devsw fs' dp' (off + dirent_size)
      ]
    ]
  ]
]

-- `strncpy(de.name, name, n)`
abbrev pub pad : ℕ → List ℕ → List ℕ
pad zero name = []
pad (suc n) [] = 0 ∷ pad n []
pad (suc n) (c ∷ name) = c ∷ pad n name

-- The bytes of the new entry; `inum` is cut to a `ushort`.
abbrev pub dirent : List ℕ → ℕ → List ℕ
dirent name inum = (inum % 256) ∷ (inum / 256 % 256) ∷ pad dirsiz name

-- `dirlink`; for a name that is there the result is -1, and the inode's number for its `iput`.
unfoldable pub dirlink :
    ReadDevices
    → WriteDevices
    → Fs
    → Inode
    → List ℕ
    → ℕ
    → Option (Outcome (ℤ × Option ℕ × Fs × Inode))
dirlink read_dev write_dev fs dp name inum = elim (dirlookup read_dev fs dp name) [
  | none ↦ none
  | some panic ↦ some panic
  | some (ok (some (off, i), fs', dp')) ↦ some (ok (negsuc 0, some i, fs', dp'))
  | some (ok (none, fs', dp')) ↦ elim (empty_loop (rounds dp') read_dev fs' dp' 0) [
    | none ↦ none
    | some panic ↦ some panic
    | some (ok (off, fs₂, dp₂)) ↦ elim (writei write_dev fs₂ dp₂ off (dirent name inum)) [
      | none ↦ none
      | some panic ↦ some panic
      | some (ok (r, fs₃, dp₃)) ↦
          if eqb_ℤ r (pos dirent_size) then some (ok (pos 0, none, fs₃, dp₃)) else some panic
    ]
  ]
]
