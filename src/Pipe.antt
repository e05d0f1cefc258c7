-- ===== src/Pipe.antt =====
-- pipe.c: a pipe as a ring of 512 bytes under two 32-bit counters that wrap round. Each body under
-- `p->lock` is one step; a body that sleeps ends there, and is entered again with what is left to do.
pub mod Ring
pub mod Write
pub mod Read
pub mod Stream
pub mod Alloc
pub mod Files
pub mod Ends
mod Tests
use os_lab.Base.{
  ◌==◌, if◌then◌else◌, set, get_or, ℕ, zero, suc, ◌+◌, ◌%◌, ◌^◌, Bool, true, false, ◌&&◌, ◌||◌, not,
  List, [], ◌∷◌,
}

abbrev pub pipesize : ℕ
pipesize = 512

-- `uint` arithmetic.
abbrev pub add_uint : ℕ → ℕ → ℕ
add_uint a b = (a + b) % 2 ^ 32

-- `struct pipe`; the array `data` is called `ring`.
pub record Pipe : Type 0 where
  pub ring : List ℕ
  pub nread : ℕ
  pub nwrite : ℕ
  pub readopen : Bool
  pub writeopen : Bool

-- What `wakeup` is called with: `&p->nread` or `&p->nwrite`.
pub data Side : Type 0 where
  readers writers : Side

-- The fields that `pipealloc` sets in the page that it was given, whose bytes are `page`.
unfoldable pub pipe_init : List ℕ → Pipe
pipe_init page = record { ring = page; nread = 0; nwrite = 0; readopen = true; writeopen = true }

-- Whether `pipeclose` frees the page, and whom it wakes.
unfoldable pub pipeclose : Pipe → Bool → Pipe × Side × Bool
pipeclose p writable =
    let p' = if writable then record p { writeopen = false } else record p { readopen = false } in
    (p', if writable then readers else writers, not p'.readopen && not p'.writeopen)

-- The end of a run of `pipewrite`: it returns `n`, returns -1, or sleeps on `&p->nwrite` with these
-- bytes still to write.
pub data Wrote : Type 0 where
  wrote : Wrote
  broken : Wrote
  full : List ℕ → Wrote

-- The test of the inner loop of `pipewrite`.
abbrev pub is_full : Pipe → Bool
is_full p = p.nwrite == add_uint p.nread pipesize

-- `p->data[p->nwrite++ % PIPESIZE] = b`
unfoldable pub put_byte : Pipe → ℕ → Pipe
put_byte p b = record p { ring = set p.ring (p.nwrite % pipesize) b; nwrite = add_uint p.nwrite 1 }

-- The loop of `pipewrite` over the bytes that are left; `killed` is the writer's flag.
unfoldable pub write_loop : Pipe → Bool → List ℕ → Pipe × Wrote
unfolding put_byte
write_loop p killed [] = (p, wrote)
write_loop p killed (b ∷ bs) =
    let more = write_loop (put_byte p b) killed bs in
    if is_full p then (p, if not p.readopen || killed then broken else full (b ∷ bs)) else more

-- The readers are woken before a sleep and at the end, and not on a broken pipe.
unfoldable pub pipewrite : Pipe → Bool → List ℕ → Pipe × Wrote × List Side
unfolding write_loop
pipewrite p killed bs =
    let (p', w) = write_loop p killed bs in (p', w, elim w [ broken ↦ [] | _ ↦ readers ∷ [] ])

-- The end of a run of `piperead`: it returns these bytes, returns -1, or sleeps on `&p->nread`.
pub data Got : Type 0 where
  got : List ℕ → Got
  interrupted : Got
  starved : Got

-- The copy loop of `piperead`, with `n` rounds left.
unfoldable pub read_loop : Pipe → ℕ → Pipe × List ℕ
read_loop p zero = (p, [])
read_loop p (suc n) =
    let more = read_loop (record p { nread = add_uint p.nread 1 }) n in
    if p.nread == p.nwrite then (p, []) else (more.0, get_or p.ring (p.nread % pipesize) 0 ∷ more.1)

unfoldable pub piperead : Pipe → Bool → ℕ → Pipe × Got × List Side
unfolding read_loop
piperead p killed n =
    let (p', bs) = read_loop p n in
    if p.nread == p.nwrite && p.writeopen
    then (p, if killed then interrupted else starved, [])
    else (p', got bs, writers ∷ [])
