-- ===== src/Descriptors/Close.antt =====
-- `sys_close`: the count of the file goes down with its holders.
use os_lab.Base.{get_elem?, set, ℕ, ◌+◌, ◌<◌, ◌≡◌, ◌⊎◌, none, some, List, [], ◌∷◌}
use os_lab.Base.Int.{pos, negsuc}
use os_lab.Base.Outcome.{Outcome, ok}
use os_lab.Syscall.{User}
use os_lab.FileTable.{
  fd_none, fd_pipe, fd_inode, File, CloseCall, pipeclose, begin_op, iput, end_op,
}
use os_lab.Descriptors.{Ofile, argfd, Result}
use os_lab.Descriptors.Holders.{holds}
use os_lab.Descriptors.Laws.{IsOpen}

-- What the last reference to a file gives back: its end of the pipe, or the inode, in a transaction.
abbrev pub GivesBack : File → List CloseCall → Type 0
GivesBack f calls =
    (f.type ≡ fd_pipe → calls ≡ pipeclose f.pipe f.writable ∷ [])
    × (f.type ≡ fd_inode → calls ≡ begin_op ∷ iput f.ip ∷ end_op ∷ [])
    × (f.type ≡ fd_none → calls ≡ [])

-- The answers of `sys_close`; the calls are those of the last reference, exactly where this was it.
pub data Closes (u : User) (files : List File) (ofile : Ofile) (others : ℕ → ℕ)
    : Result (List CloseCall) → Type 0 where
  no_file : argfd u ofile 0 ≡ none → Closes u files ofile others (ok (negsuc 0, [], files, ofile))
  closed :
      (fd i : ℕ) (f : File) (calls : List CloseCall) (files' : List File)
      → argfd u ofile 0 ≡ some (fd, i)
      → get_elem? files i ≡ some f
      → ((others i + holds i (set ofile fd none) ≡ 0) × GivesBack f calls)
        ⊎ ((0 < others i + holds i (set ofile fd none)) × (calls ≡ []))
      → IsOpen files' (set ofile fd none) others
      → Closes u files ofile others (ok (pos 0, calls, files', set ofile fd none))
