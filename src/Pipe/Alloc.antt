-- ===== src/Pipe/Alloc.antt =====
-- pipe.c: `pipealloc`. All of its jumps to `bad` are made before a page has been given, so nothing is
-- ever given back there by `kfree`.
use os_lab.Base.{get_elem?, modify, ℕ, true, false, Option, none, some, List, [], ◌++◌}
use os_lab.Base.Outcome.{Outcome, ok, panic, ◌>>=◌}
use os_lab.FileTable.{fd_pipe, File, CloseCall, filealloc, fileclose}
use os_lab.Pipe.{Pipe, pipe_init}

-- The fields of `*f0` and of `*f1`, with the page `p`.
abbrev pub read_end : ℕ → File → File
read_end p f = record f { type = fd_pipe; readable = true; writable = false; pipe = some p }

abbrev pub write_end : ℕ → File → File
write_end p f = record f { type = fd_pipe; readable = false; writable = true; pipe = some p }

-- `if(*f) fileclose(*f)`
unfoldable pub drop_end : List File → Option ℕ → Outcome (List CloseCall × List File)
drop_end files none = ok ([], files)
drop_end files (some i) = elim (get_elem? files i) [ none ↦ panic | some f ↦ fileclose files i f ]

-- The two files and the pipe, or `none` for -1; the calls of `fileclose`; and the table.
abbrev pub PipeEnd : Type 0
PipeEnd = Option (ℕ × ℕ × Pipe) × List CloseCall × List File

-- From `bad` on.
unfoldable pub bad_pipe : List File → Option ℕ → Option ℕ → Outcome PipeEnd
unfolding drop_end
bad_pipe files f0 f1 = drop_end files f0 >>= λ (calls, files').
    (drop_end files' f1 >>= λ (calls', files''). ok (none, calls ++ calls', files''))

-- With both files. `page` is the answer of `kalloc`: an address and the bytes there.
unfoldable pub pipe_files : List File → ℕ → ℕ → Option (ℕ × List ℕ) → Outcome PipeEnd
unfolding bad_pipe
pipe_files files i j none = bad_pipe files (some i) (some j)
pipe_files files i j (some (p, bytes)) =
    ok (some (i, j, pipe_init bytes), [], modify (modify files i (read_end p)) j (write_end p))

-- With the answer of the second `filealloc`, and of the first.
unfoldable pub second_file : ℕ → Option (ℕ × List ℕ) → Option ℕ × List File → Outcome PipeEnd
unfolding bad_pipe pipe_files
second_file i page (none, files) = bad_pipe files (some i) none
second_file i page (some j, files) = pipe_files files i j page

unfoldable pub first_file : Option (ℕ × List ℕ) → Option ℕ × List File → Outcome PipeEnd
unfolding bad_pipe second_file
first_file page (none, files) = bad_pipe files none none
first_file page (some i, files) = second_file i page (filealloc files)

unfoldable pub pipealloc : List File → Option (ℕ × List ℕ) → Outcome PipeEnd
unfolding first_file
pipealloc files page = first_file page (filealloc files)
