-- ===== src/Shm.antt =====
-- vm.c: the table of shared segments. Each call is one step; the page table of the caller is seen by the
-- calls that change it.
pub mod Attached
pub mod Calls
mod Tests
use os_lab.Base.{◌==◌, if◌then◌else◌, replicate, ℕ, List, [], ◌∷◌, map}
use os_lab.Base.Int.{ℤ, pos, negsuc, sub_int, eqb_ℤ, add_int}
use os_lab.Kalloc.{pg_round_up}

-- `struct shmid_ds`, without its lock; a null frame is 0.
pub record Shmid : Type 0 where
  pub ref_count : ℤ
  pub attached_processes : List ℤ
  pub frame : ℕ
  pub marked : ℕ

-- What the calls read and write of the process.
pub record Attacher : Type 0 where
  pub pid : ℤ
  pub sz : ℕ
  pub shm : ℕ

-- The calls on pages: `mappages(pgdir, start, 16, V2P(frame), ...)`, `freevm(pgdir)` and `kfree(frame)`.
pub data PageCall : Type 0 where
  maps : ℕ → ℕ → PageCall
  frees_vm : PageCall
  frees_page : ℕ → PageCall

-- MAX_ATTACHED_PROCS
abbrev pub max_attached_procs : ℕ
max_attached_procs = 23

abbrev pub new_segment : Shmid → Shmid
new_segment s = record s {
  ref_count = pos 0;
  marked = 0;
  attached_processes = replicate max_attached_procs (negsuc 0);
}

abbrev pub shared_memory_init : List Shmid → List Shmid
shared_memory_init table = map new_segment table

-- The result, the segment, the process and the calls; `mem` is what `kalloc` returns.
abbrev pub Attach : Type 0
Attach = ℕ × Shmid × Attacher × List PageCall

-- `open_shared_memory` on the segment that `id` is the index of.
unfoldable pub open_shared_memory : ℕ → Shmid → Attacher → Attach
open_shared_memory mem s proc =
    let frame = (if eqb_ℤ s.ref_count (pos 0) then mem else s.frame) in
    let start_addr = pg_round_up proc.sz in
    if proc.shm == 0
    then (
      start_addr,
      record s { frame = frame; ref_count = add_int s.ref_count (pos 1) },
      record proc { shm = start_addr },
      maps start_addr frame ∷ [],
    )
    else (0, s, proc, [])

-- The process is taken from the list of those attached.
abbrev pub forget : ℤ → List ℤ → List ℤ
forget pid = map (λ q. if eqb_ℤ q pid then negsuc 0 else q)

-- `close_shm` on that segment.
unfoldable pub close_shm : Shmid → Attacher → Shmid × Attacher × List PageCall
close_shm s proc =
    let left = sub_int s.ref_count (pos 1) in
    let attached = forget proc.pid s.attached_processes in
    let proc' = record proc { shm = 0 } in
    if eqb_ℤ s.ref_count (pos 0)
    then (s, proc', [])
    else (if eqb_ℤ left (pos 0)
        then (
          record s { ref_count = left; attached_processes = attached; frame = 0 },
          proc',
          frees_vm ∷ frees_page s.frame ∷ [],
        )
        else (record s { ref_count = left; attached_processes = attached }, proc', []))
