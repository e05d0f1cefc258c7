-- ===== src/FileTable.antt =====
-- file.c: the table of open files and its counts of references. Each body under `ftable.lock` is one
-- step; the calls that follow it are listed in order.
pub mod Counts
pub mod Transfer
mod Tests
use os_lab.Base.{if◌then◌else◌, modify, ℕ, Bool, Option, none, some, List, [], ◌∷◌}
use os_lab.Base.Find.{find_index}
use os_lab.Base.Int.{ℤ, pos, ltb_ℤ, sub_int, gtb_ℤ, eqb_ℤ, add_int}
use os_lab.Base.Outcome.{Outcome, ok, ◌>>◌, panic_if}

-- FD_NONE, FD_PIPE and FD_INODE
pub data FileType : Type 0 where
  fd_none fd_pipe fd_inode : FileType

-- `struct file`
pub record File : Type 0 where
  pub type : FileType
  pub ref : ℤ
  pub readable : Bool
  pub writable : Bool
  pub pipe : Option ℕ
  pub ip : Option ℕ
  pub off : ℕ

-- The calls of `fileclose` to the pipe, and to the log and the inodes.
pub data CloseCall : Type 0 where
  pipeclose : Option ℕ → Bool → CloseCall
  begin_op : CloseCall
  iput : Option ℕ → CloseCall
  end_op : CloseCall

unfoldable pub filealloc : List File → Option ℕ × List File
filealloc files = elim (find_index (λ f. eqb_ℤ f.ref (pos 0)) files) [
  | none ↦ (none, files)
  | some i ↦ (some i, modify files i λ f. record f { ref = pos 1 })
]

-- `filedup` of the file at `i`, whose entry is `f`.
unfoldable pub filedup : List File → ℕ → File → Outcome (List File)
filedup files i f = do
  panic_if (ltb_ℤ f.ref (pos 1))
  ok (modify files i λ g. record g { ref = add_int g.ref (pos 1) })

-- What `fileclose` does with the last reference to a file.
unfoldable pub close_calls : File → List CloseCall
close_calls f = elim f.type [
  | fd_none ↦ []
  | fd_pipe ↦ pipeclose f.pipe f.writable ∷ []
  | fd_inode ↦ begin_op ∷ iput f.ip ∷ end_op ∷ []
]

unfoldable pub fileclose : List File → ℕ → File → Outcome (List CloseCall × List File)
fileclose files i f = do
  panic_if (ltb_ℤ f.ref (pos 1))
  let left = sub_int f.ref (pos 1)
  ok (
      if gtb_ℤ left (pos 0)
      then ([], modify files i λ g. record g { ref = left })
      else (close_calls f, modify files i λ g. record g { ref = pos 0; type = fd_none }))
