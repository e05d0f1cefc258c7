-- ===== src/Kalloc.antt =====
-- kalloc.c: the allocator of 4096-byte pages. The free pages are linked through their first words.
-- Each body between `acquire(&kmem.lock)` and `release(&kmem.lock)` is one step.
pub mod Chain
pub mod Range
mod Tests
use os_lab.Base.{
  ltb, leb, ◌==◌, if◌then◌else◌, ℕ, zero, suc, ◌+◌, ◌-◌, ◌*◌, ◌/◌, ◌%◌, ◌^◌, Bool, true, false,
  ◌&&◌, ◌||◌, not, Option, none, some,
}
use os_lab.Base.Outcome.{Outcome, ok, panic, ◌>>◌, panic_if}

abbrev pub pgsize : ℕ
pgsize = 4096

abbrev pub kernbase : ℕ
kernbase = 0x8000_0000

abbrev pub phystop : ℕ
phystop = 0xe00_0000

-- `V2P`, on 32-bit addresses.
abbrev pub v2p : ℕ → ℕ
v2p a = (a + 2 ^ 32 - kernbase) % 2 ^ 32

-- `PGROUNDUP`
abbrev pub pg_round_up : ℕ → ℕ
pg_round_up sz = (sz + (pgsize - 1)) % 2 ^ 32 / pgsize * pgsize

-- `kmem`, with the memory that its pages lie in: `mem a` is the word at the aligned address `a`.
-- The null pointer is 0.
pub record Kmem : Type 0 where
  pub freelist : ℕ
  pub use_lock : Bool
  pub mem : ℕ → ℕ

-- `memset(v, 1, PGSIZE)`
abbrev pub junk : ℕ → (ℕ → ℕ) → ℕ → ℕ
junk v mem a = if leb v a && ltb a (v + pgsize) then 0x0101_0101 else mem a

abbrev pub write : (ℕ → ℕ) → ℕ → ℕ → ℕ → ℕ
write mem a w b = if b == a then w else mem b

-- The test of `kfree`; `end` is the first address after the kernel.
abbrev pub bad_page : ℕ → ℕ → Bool
bad_page end v = not (v % pgsize == 0) || (ltb v end || leb phystop (v2p v))

unfoldable pub kfree : ℕ → ℕ → Kmem → Outcome Kmem
kfree end v k = do
  panic_if (bad_page end v)
  ok (record k { mem = write (junk v k.mem) v k.freelist; freelist = v })

unfoldable pub kalloc : Kmem → ℕ × Kmem
kalloc k =
    if k.freelist == 0 then (0, k) else (k.freelist, record k { freelist = k.mem k.freelist })

-- The loop of `freerange` on fuel; running out of it is no outcome of the code.
unfoldable pub freerange_loop : ℕ → ℕ → ℕ → ℕ → Kmem → Option (Outcome Kmem)
freerange_loop zero end p vend k = none
freerange_loop (suc fuel) end p vend k = elim (leb ((p + pgsize) % 2 ^ 32) vend) [
  | true ↦ elim (kfree end p k) [
    | ok k' ↦ freerange_loop fuel end ((p + pgsize) % 2 ^ 32) vend k'
    | panic ↦ some panic
  ]
  | false ↦ some (ok k)
]

-- One round for each page below 2 ^ 32, and one more.
unfoldable pub freerange : ℕ → ℕ → ℕ → Kmem → Option (Outcome Kmem)
unfolding freerange_loop
freerange end vstart vend k = freerange_loop (2 ^ 20 + 1) end (pg_round_up vstart) vend k

unfoldable pub kinit1 : ℕ → ℕ → ℕ → Kmem → Option (Outcome Kmem)
unfolding freerange
kinit1 end vstart vend k = freerange end vstart vend (record k { use_lock = false })

with_lock : Option (Outcome Kmem) → Option (Outcome Kmem)
with_lock none = none
with_lock (some panic) = some panic
with_lock (some (ok k)) = some (ok (record k { use_lock = true }))

unfoldable pub kinit2 : ℕ → ℕ → ℕ → Kmem → Option (Outcome Kmem)
unfolding freerange with_lock
kinit2 end vstart vend k = with_lock (freerange end vstart vend k)
