-- ===== src/Sysfile/Ledger.antt =====
-- What a call of the kernel holds while it runs: its transaction, its references to inodes and files, its
-- locks, and the links that it has counted and made.
use os_lab.Sysfile.Names.{no_links}
use os_lab.Sysfile.{
  Op, begin_op, end_op, namei, nameiparent, ilock, iunlock, iput, ialloc, dirlookup, dirlink,
  read_entry, clear_entry, more_links, fewer_links, init_inode, filealloc, pipealloc, fdalloc,
  fileclose, clear_fd, set_file, get_cwd, set_cwd, fileread, filewrite, Ans, Prog, ret, panic, call,
  is_dir,
}
use os_lab.Fs.{FileKind, t_none}
use os_lab.Base.{
  ◌==◌, if◌then◌else◌, ℕ, ◌+◌, ◌-◌, ◌<◌, ◌≡◌, ◌⊎◌, Bool, true, false, ◌||◌, none, some, List, [],
  ◌∷◌,
}

-- The entry of a directory for itself counts no link. Each function counts for an inode or a file.
-- `up` and `down` are the changes of `nlink`, `named` and `unnamed` the entries made and cleared;
-- the `trouble` is an answer that directories in order do not give: no link to an inode that was
-- looked up, half an entry, a new name that is there already.
pub record Ledger : Type 0 where
  pub in_op : Bool
  pub refs : ℕ → ℕ
  pub locks : ℕ → ℕ
  pub files : ℕ → ℕ
  pub up : ℕ → ℕ
  pub down : ℕ → ℕ
  pub named : ℕ → ℕ
  pub unnamed : ℕ → ℕ
  pub kinds : ℕ → FileKind
  pub opened : ℕ  -- descriptors
  pub trouble : Bool

abbrev pub inc : (ℕ → ℕ) → ℕ → ℕ → ℕ
inc c i j = (if j == i then 1 else 0) + c j

abbrev pub dec : (ℕ → ℕ) → ℕ → ℕ → ℕ
dec c i j = c j - (if j == i then 1 else 0)

abbrev pub see : (ℕ → FileKind) → ℕ → FileKind → ℕ → FileKind
see kinds i k j = if j == i then k else kinds j

abbrev pub is_none : FileKind → Bool
is_none t_none = true
is_none _ = false

-- The entry ".." of the directory `i` in `dp` goes with the last name of `i`.
abbrev pub unname : Ledger → ℕ → ℕ → Ledger
unname l dp i = record l {
  unnamed = if is_dir (l.kinds i) then inc (inc l.unnamed i) dp else inc l.unnamed i;
}

abbrev pub NoLock : Ledger → Type 0
NoLock l = (j : ℕ) → l.locks j ≡ 0

-- When a call may be made: what its argument needs, and that the process does not wait for itself. A
-- call that looks up a path, or starts or ends a transaction, is made with no inode locked.
abbrev pub May : Op → Ledger → Type 0
May begin_op l = (l.in_op ≡ false) × NoLock l
May end_op l = (l.in_op ≡ true) × NoLock l
May (namei _) l = (l.in_op ≡ true) × NoLock l
May (nameiparent _) l = (l.in_op ≡ true) × NoLock l
May (ilock i) l = (0 < l.refs i) × (l.locks i ≡ 0)
May (iunlock i) l = 0 < l.locks i
May (iput i) l = (l.in_op ≡ true) × (0 < l.refs i) × (l.locks i ≡ 0)
May (ialloc _ _) l = l.in_op ≡ true
May (dirlookup i _) l = 0 < l.locks i
May (dirlink i _ _) l = (l.in_op ≡ true) × (0 < l.locks i)
May (read_entry i _) l = 0 < l.locks i
May (clear_entry i _ _) l = (l.in_op ≡ true) × (0 < l.locks i)
May (more_links i) l = (l.in_op ≡ true) × (0 < l.locks i)
May (fewer_links i) l = (l.in_op ≡ true) × (0 < l.locks i)
May (init_inode i _ _) l = (l.in_op ≡ true) × (0 < l.locks i)
May (fdalloc f) l = 0 < l.files f
May (fileclose f) l = 0 < l.files f
May (set_file f i _ _) l = 0 < l.refs i
May (set_cwd i) l = 0 < l.refs i
May (fileread _ _) l = (l.in_op ≡ false) × NoLock l
May (filewrite _ _) l = (l.in_op ≡ false) × NoLock l
May _ l = Unit

-- The names by which a directory holds itself and its parent.
abbrev pub IsDots : List ℕ → Type 0
IsDots name = (name ≡ b'.' ∷ []) ⊎ (name ≡ b'.' ∷ b'.' ∷ [])

-- What an answer tells: an inode that `ilock` returns is in use; `nameiparent` gives no inode that the
-- process has seen not to be a directory; a new inode is another than those that the process has locked,
-- and so is one that is looked up, unless it is the directory itself by the name "." or "..".
abbrev pub Fresh : (o : Op) → Ans o → Ledger → Type 0
Fresh (ilock _) a l = is_none a.kind ≡ false
Fresh (nameiparent _) (some (i, _)) l = (is_dir (l.kinds i) || is_none (l.kinds i)) ≡ true
Fresh (ialloc _ _) i l = l.locks i ≡ 0
Fresh (dirlookup dp name) (some (i, _)) l = (l.locks i ≡ 0) ⊎ ((i ≡ dp) × IsDots name)
Fresh _ _ l = Unit

-- What the call leaves.
abbrev pub after : (o : Op) → Ans o → Ledger → Ledger
after begin_op a l = record l { in_op = true }
after end_op a l = record l { in_op = false }
after (namei _) (some i) l = record l { refs = inc l.refs i }
after (nameiparent _) (some (i, _)) l = record l { refs = inc l.refs i }
after (ilock i) a l = record l {
  locks = inc l.locks i;
  kinds = see l.kinds i a.kind;
  trouble = l.trouble || no_links a.nlink;
}
after (iunlock i) a l = record l { locks = dec l.locks i }
after (iput i) a l = record l { refs = dec l.refs i }
after (ialloc _ k) i l = record l { refs = inc l.refs i; kinds = see l.kinds i k }
after (dirlookup _ _) (some (i, _)) l = record l { refs = inc l.refs i }
after (dirlink dp _ i) true l = record l { named = if dp == i then l.named else inc l.named i }
after (dirlink _ _ _) false l = record l { trouble = true }
after (read_entry _ _) none l = record l { trouble = true }
after (clear_entry dp _ i) true l = unname l dp i
after (clear_entry dp _ i) false l = record l { trouble = true }
after (more_links i) a l = record l { up = inc l.up i }
after (fewer_links i) a l = record l { down = inc l.down i }
after (init_inode i _ _) a l = record l { up = inc l.up i }
after filealloc (some f) l = record l { files = inc l.files f }
after pipealloc (some (f, g)) l = record l { files = inc (inc l.files f) g }
after (fdalloc f) (some fd) l = record l { files = dec l.files f; opened = l.opened + 1 }
after (fileclose f) a l = record l { files = dec l.files f }
after (clear_fd fd f) a l = record l { files = inc l.files f; opened = l.opened - 1 }
after (set_file f i _ _) a l = record l { refs = dec l.refs i }
after get_cwd i l = record l { refs = inc l.refs i }
after (set_cwd i) a l = record l { refs = dec l.refs i }
after _ a l = l

abbrev pub zeros : ℕ → ℕ
zeros j = 0

abbrev pub one : ℕ → ℕ → ℕ
one i j = if j == i then 1 else 0

-- A ledger with these references and locks, no file, and `more` links counted than entries made.
pub record Has (op : Bool) (held locked more : ℕ → ℕ) (l : Ledger) : Type 0 where
  pub in_op : l.in_op ≡ op
  pub refs : (j : ℕ) → l.refs j ≡ held j
  pub locks : (j : ℕ) → l.locks j ≡ locked j
  pub files : (j : ℕ) → l.files j ≡ 0
  pub links : (j : ℕ) → l.up j + l.unnamed j ≡ l.down j + l.named j + more j

-- Nothing is held, no transaction is open, the links that were counted are the entries that were
-- made, and `n` descriptors have been opened.
pub record AtRest (n : ℕ) (l : Ledger) : Type 0 where
  pub has : Has false zeros zeros zeros l
  pub opened : l.opened ≡ n

-- What the calls may answer.
abbrev pub Answers : Type 1
Answers = (o : Op) → Ans o → Ledger → Type 0

-- Whatever the answers, of those that there can be, each call is one that may be made, the program returns
-- with the property, and it panics only after trouble.
abbrev pub RunsUnder : {A : Type 0} → Answers → (A → Ledger → Type 0) → Prog A → Ledger → Type 0
RunsUnder can P (ret a) l = P a l
RunsUnder can P panic l = l.trouble ≡ true
RunsUnder can P (call o k) l =
    May o l × ((a : Ans o) → can o a l → RunsUnder can P (k a) (after o a l))

abbrev pub Runs : {A : Type 0} → (A → Ledger → Type 0) → Prog A → Ledger → Type 0
Runs P m l = RunsUnder Fresh P m l
