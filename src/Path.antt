-- ===== src/Path.antt =====
-- fs.c: `skipelem`, on the bytes of a path up to its NUL.
pub mod Elements
pub mod Walk
pub mod Parents
pub mod Namex
mod Tests
use os_lab.Base.{
  leb, ◌==◌, if◌then◌else◌, length, take, ℕ, zero, suc, ◌+◌, Bool, true, false, ◌&&◌, not, Option,
  none, some, List, [], ◌∷◌, ◌++◌,
}

abbrev pub dirsiz : ℕ
dirsiz = 14

abbrev pub slash : ℕ
slash = b'/'

-- `while(*path == '/') path++`
unfoldable pub skip_slashes : List ℕ → List ℕ
skip_slashes [] = []
skip_slashes (c ∷ path) = let rest = skip_slashes path in if c == slash then rest else c ∷ path

-- `while(*path != '/' && *path != 0) path++`: the bytes passed over, and those from there on.
unfoldable pub span_elem : List ℕ → List ℕ × List ℕ
span_elem [] = ([], [])
span_elem (c ∷ path) =
    let (elem, rest) = span_elem path in if c == slash then ([], c ∷ path) else (c ∷ elem, rest)

-- The name that the two branches of `if(len >= DIRSIZ)` leave, up to its NUL or its 14 bytes.
abbrev pub name_of : List ℕ → List ℕ
name_of s = if leb dirsiz (length s) then take dirsiz s else s

-- The name, and the path that is returned; `none` for the null pointer.
unfoldable pub skipelem : List ℕ → Option (List ℕ × List ℕ)
unfolding skip_slashes span_elem
skipelem path = elim (skip_slashes path) [
  | [] ↦ none
  | c ∷ s ↦ let (elem, rest) = span_elem (c ∷ s) in some (name_of elem, skip_slashes rest)
]

-- The calls that `namex` makes on inodes; `iget` is the one inside `dirlookup`.
pub data Call : Type 0 where
  ilock iunlock iput iget : ℕ → Call

-- What a path leads through: whether an inode is a directory, and what `dirlookup` finds there.
pub record Tree : Type 0 where
  pub is_dir : ℕ → Bool
  pub look : ℕ → List ℕ → Option ℕ

-- The inode that is returned, what `name` holds, and the calls.
abbrev pub Answer : Type 0
Answer = Option ℕ × List ℕ × List Call

abbrev pub calls_first : List Call → Answer → Answer
calls_first cs (r, name, ds) = (r, name, cs ++ ds)

abbrev pub is_nil {ℓ} : {A : Type ℓ} → List A → Bool
is_nil [] = true
is_nil (x ∷ xs) = false

-- A round of `namex` on the inode `ip`, once `skipelem` has given `name` and `rest`.
unfoldable pub round : Tree → Bool → ℕ → List ℕ → Bool → (ℕ → Option Answer) → Option Answer
round tree parent ip name last go =
    if not (tree.is_dir ip)
    then some (none, name, ilock ip ∷ iunlock ip ∷ iput ip ∷ [])
    else (if parent && last
        then some (some ip, name, ilock ip ∷ iunlock ip ∷ [])
        else elim (tree.look ip name) [
          | none ↦ some (none, name, ilock ip ∷ iunlock ip ∷ iput ip ∷ [])
          | some next ↦ elim (go next) [
            | none ↦ none
            | some a ↦ some (calls_first (ilock ip ∷ iget next ∷ iunlock ip ∷ iput ip ∷ []) a)
          ]
        ])

-- The end of the loop.
abbrev pub arrive : Bool → ℕ → List ℕ → Answer
arrive parent ip name = if parent then (none, name, iput ip ∷ []) else (some ip, name, [])

-- The loop of `namex`; `none` when the fuel runs out.
unfoldable pub namex_loop : ℕ → Tree → Bool → List ℕ → ℕ → List ℕ → Option Answer
unfolding skipelem round
namex_loop zero tree parent path ip name = none
namex_loop (suc fuel) tree parent path ip name = elim (skipelem path) [
  | none ↦ some (arrive parent ip name)
  | some (elem, rest) ↦
      round tree parent ip elem (is_nil rest) λ next. namex_loop fuel tree parent rest next elem
]

-- The inode that the loop starts from: the root's, or the current directory's.
abbrev pub start_of : List ℕ → ℕ → ℕ → ℕ
start_of [] root cwd = cwd
start_of (c ∷ path) root cwd = if c == slash then root else cwd

-- `namex`, with `iget` also for the `idup` of the current directory.
unfoldable pub namex : Tree → Bool → List ℕ → ℕ → ℕ → Option Answer
unfolding namex_loop
namex tree parent path root cwd =
    elim (namex_loop (length path + 1) tree parent path (start_of path root cwd) []) [
      | none ↦ none
      | some a ↦ some (calls_first (iget (start_of path root cwd) ∷ []) a)
    ]
