-- ===== src/Pipe/Tests.antt =====
-- A pipe whose counters are about to wrap.
use os_lab.Base.{
  get_elem?, replicate, ℕ, zero, suc, ◌+◌, ◌^◌, ◌<◌, ◌≡◌, refl, sym, ap, true, false, none, some,
  some-injective, List, [], ◌∷◌, arith,
}
use os_lab.Base.Int.{pos}
use os_lab.Base.Outcome.{Returns}
use os_lab.FileTable.{fd_none, fd_pipe, File}
use os_lab.Pipe.Alloc.{pipealloc}
use os_lab.Pipe.Files.{IsTable}
use os_lab.Pipe.Ends.{PipeMade, pipealloc-PipeMade}
use os_lab.Pipe.{Pipe, pipe_init, pipewrite}
use os_lab.Pipe.Ring.{IsPipe}
use os_lab.Pipe.Stream.{writes, reads, closes, run, InOrder, run-pipe_init-InOrder}

abbrev page : List ℕ
page = replicate 512 7

abbrev wrapping : Pipe
wrapping = record {
  ring = page;
  nread = 0xffff_fffe;
  nwrite = 0xffff_ffff;
  readopen = true;
  writeopen = true;
}

wrapping-IsPipe : IsPipe wrapping
wrapping-IsPipe = record {
  room = refl;
  read_word = omega arith;
  write_word = omega arith;
  bounded = omega arith;
}

write_wraps : (pipewrite wrapping false (1 ∷ 2 ∷ [])).0.nwrite ≡ 1
unfolding pipewrite
write_wraps = refl

run-pipe_init-InOrder_example : InOrder (
    run
      (record { pipe = pipe_init page; sent = []; received = [] })
      (writes false (1 ∷ 2 ∷ 3 ∷ []) ∷ reads false 2 ∷ closes true ∷ reads false 9 ∷ []))
run-pipe_init-InOrder_example =
    run-pipe_init-InOrder page
      (writes false (1 ∷ 2 ∷ 3 ∷ []) ∷ reads false 2 ∷ closes true ∷ reads false 9 ∷ []) refl

abbrev held : File
held = record {
  type = fd_pipe;
  ref = pos 1;
  readable = true;
  writable = false;
  pipe = some 5;
  ip = none;
  off = 0;
}

-- A file that is held, and two that are free.
abbrev files : List File
files =
    held
    ∷ record held { type = fd_none; ref = pos 0 }
    ∷ record held { type = fd_none; ref = pos 0 }
    ∷ []

abbrev holders : ℕ → ℕ
holders zero = 1
holders (suc i) = 0

files-IsTable : IsTable files holders
files-IsTable = record { counted = record { counts = counts; small = small }; blank = blank }
  where
    counts : (i : ℕ) (f : File) → get_elem? files i ≡ some f → f.ref ≡ pos (holders i)
    counts zero f g = sym (ap (λ (r : File). r.ref) (some-injective _ _ g))
    counts (suc zero) f g = sym (ap (λ (r : File). r.ref) (some-injective _ _ g))
    counts (suc (suc zero)) f g = sym (ap (λ (r : File). r.ref) (some-injective _ _ g))
    counts (suc (suc (suc i))) f g = cc

    small : (i : ℕ) → holders i + 1 < 2 ^ 31
    small zero = omega arith
    small (suc i) = omega arith

    blank : (i : ℕ) (f : File) → get_elem? files i ≡ some f → holders i ≡ 0 → f.type ≡ fd_none
    blank zero f g z = absurd (omega arith)
    blank (suc zero) f g z = sym (ap (λ (r : File). r.type) (some-injective _ _ g))
    blank (suc (suc zero)) f g z = sym (ap (λ (r : File). r.type) (some-injective _ _ g))
    blank (suc (suc (suc i))) f g z = cc

pipealloc-PipeMade_example :
    Returns
      (PipeMade files holders (some (0x8040_0000, page)))
      (pipealloc files (some (0x8040_0000, page)))
pipealloc-PipeMade_example =
    pipealloc-PipeMade files holders (some (0x8040_0000, page)) files-IsTable
