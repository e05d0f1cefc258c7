-- ===== src/Bio.antt =====
-- bio.c: the buffer cache. The list from `bcache.head.next` to `bcache.head.prev` is a list of buffers,
-- the most recently used first; a buffer's place in it stands for its address.
pub mod Search
pub mod Unique
pub mod Release
mod Tests
use os_lab.Base.Find.{find_index}
use os_lab.Base.Outcome.{Outcome, ok, panic, ◌>>◌, panic_if}
use os_lab.Base.Int.{ℤ, pos}
use os_lab.Base.{
  ◌==◌, if◌then◌else◌, modify, ℕ, zero, suc, ◌+◌, ◌-◌, ◌%◌, ◌^◌, Bool, false, ◌&&◌, not, Option,
  none, some, List, [], ◌∷◌,
}
use os_lab.SleepLock.{SleepLock, holdingsleep}

-- `struct buf`, without the links.
pub record Buf : Type 0 where
  pub valid : Bool  -- B_VALID
  pub dirty : Bool  -- B_DIRTY
  pub dev : ℕ
  pub blockno : ℕ
  pub lock : SleepLock
  pub refcnt : ℕ
  pub bytes : List ℕ

abbrev pub holds_block : ℕ → ℕ → Buf → Bool
holds_block dev blockno b = (b.dev == dev) && (b.blockno == blockno)

-- A buffer that the second loop of `bget` takes.
abbrev pub is_spare : Buf → Bool
is_spare b = (b.refcnt == 0) && not b.dirty

-- The scan from the tail: the last entry that meets the test.
unfoldable pub find_last : (Buf → Bool) → List Buf → Option ℕ
find_last test [] = none
find_last test (b ∷ bs) = elim (find_last test bs) [
  | some i ↦ some (suc i)
  | none ↦ if test b then some 0 else none
]

-- `bget`, up to the `acquiresleep` of the buffer that it returns.
unfoldable pub bget : List Buf → ℕ → ℕ → Outcome (ℕ × List Buf)
bget bs dev blockno = elim (find_index (holds_block dev blockno) bs) [
  | some i ↦ ok (i, modify bs i λ b. record b { refcnt = (b.refcnt + 1) % 2 ^ 32 })
  | none ↦ elim (find_last is_spare bs) [
    | some i ↦ ok (
      i,
      modify bs i
          λ b. record b { dev = dev; blockno = blockno; valid = false; dirty = false; refcnt = 1 },
    )
    | none ↦ panic
  ]
]

-- The list without its entry `i`.
unfoldable pub unlink : List Buf → ℕ → List Buf
unlink [] i = []
unlink (b ∷ bs) zero = bs
unlink (b ∷ bs) (suc i) = b ∷ unlink bs i

-- What `releasesleep` and `b->refcnt--` write.
abbrev pub let_go : Buf → Buf
let_go b = record b {
  lock = record { locked = false; pid = pos 0 };
  refcnt = (b.refcnt + 2 ^ 32 - 1) % 2 ^ 32;
}

-- `brelse` of the buffer `b` at `i` by the process `pid`.
unfoldable pub brelse : List Buf → ℕ → Buf → ℤ → Outcome (List Buf)
unfolding unlink holdingsleep
brelse bs i b pid = do
  panic_if (not (holdingsleep b.lock pid))
  ok (if (let_go b).refcnt == 0 then let_go b ∷ unlink bs i else modify bs i let_go)
