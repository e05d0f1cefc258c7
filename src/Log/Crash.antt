-- ===== src/Log/Crash.antt =====
-- Atomicity: commit and recovery, stopped at any write.
use os_lab.Base.{
  length, take, replicate, NotIn, Distinct, ℕ, suc, ◌≤◌, ◌<◌, ◌≡◌, ◌⊎◌, List, ◌∷◌, arith,
}
use os_lab.Log.Header.{take-copy_first, IsHeader}
use os_lab.Log.{
  logsize, Block, block_words, LogHeader, Machine, logged, head_of, read_head, recover_from_log,
  boot, initlog,
}
use os_lab.Log.Restore.{IsHome, AllHome, Restorable, Installing, finish-Restorable}

-- What recovery reads from a restorable disk.
boot-Installing :
    (start size n power : ℕ) (d f : ℕ → Block)
    → Restorable start n d f
    → Installing n (read_head (boot start size d power)) f
unfolding read_head
boot-Installing start size n power d f r = record {
  pending = r;
  log_blocks = blocks;
  cache_head = r.head;
  cache_copies = r.copies;
}
  where
    lh0 : LogHeader
    lh0 = record { n = 0; block = replicate logsize 0 }

    blocks : take (head_of (d start) lh0).n (head_of (d start) lh0).block ≡ take n r.ws
    blocks = rw r.head (
        take-copy_first n r.ws (replicate logsize 0) (omega (arith, r.words, r.fits))
          (omega (arith, r.fits)))

-- A recovery, stopped at any write, leaves a disk that the next recovery turns into the same content;
-- with more writes left than the transaction has blocks it leaves that content itself.
pub initlog-Restorable :
    (start size n power : ℕ) (d f : ℕ → Block)
    → Restorable start n d f
    → ((power ≤ n) × Restorable start n (initlog start size d power).disk f)
      ⊎ ((n < power) × Restorable start 0 (initlog start size d power).disk f)
unfolding initlog recover_from_log read_head
initlog-Restorable start size n power d f r =
    finish-Restorable n (read_head (boot start size d power)) f
      (boot-Installing start size n power d f r)

-- The state in which `commit` is called: the header on the disk is clear, the blocks of the
-- transaction are distinct home blocks, and every other home block in the cache is as on the disk.
pub record IsReady (m : Machine) : Type 0 where
  pub words : List ℕ
  pub header : IsHeader m.log.lh
  pub distinct : Distinct (logged m.log)
  pub homes : AllHome m.log.start (logged m.log)
  pub head : m.disk m.log.start ≡ 0 ∷ words
  pub head_words : suc (length words) ≡ block_words
  pub head_cached : m.cache m.log.start ≡ m.disk m.log.start
  pub clean : (a : ℕ) → IsHome m.log.start a → NotIn a (logged m.log) → m.cache a ≡ m.disk a
