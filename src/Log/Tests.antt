-- ===== src/Log/Tests.antt =====
-- A log at block 2, as mkfs makes it, and a transaction of the first block behind it.
use os_lab.Base.{
  ◌==◌, if◌then◌else◌, replicate, ℕ, ◌≤◌, ◌<◌, ◌≡◌, refl, ◌⊎◌, inr, true, false, some, [], ◌∷◌,
  arith,
}
use os_lab.Base.Int.{pos, ◌+ℤ◌, ltb_ℤ}
use os_lab.Base.Outcome.{panic, Returns}
use os_lab.Log.{Block, Log, Machine, logged, commit, initlog}
use os_lab.Log.Restore.{Restorable}
use os_lab.Log.Crash.{IsReady}
use os_lab.Log.Commit.{commit-Restorable}
use os_lab.Log.Atomic.{recoveries, Restored, crash_atomicity}
use os_lab.Log.Ops.{begin_op, too_big, log_write}
use os_lab.Log.Ops.Absorb.{Absorbed}
use os_lab.Log.Ops.Ready.{change_block, change_block-IsReady}
use os_lab.Log.Ops.Reserve.{IsReserved, log_write-IsReserved}

abbrev empty_block : Block
empty_block = replicate 128 0

-- Block 32 is the first behind the log. It has a new content in the cache; the disk stops after `power` writes.
abbrev machine : ℕ → Machine
machine power = record {
  log = record {
    start = 2;
    size = 30;
    outstanding = pos 1;
    committing = false;
    lh = record { n = 1; block = 32 ∷ replicate 29 0 };
  };
  disk = λ b. empty_block;
  cache = λ b. if b == 32 then replicate 128 5 else empty_block;
  dirty = λ b. b == 32;
  power = power;
}

machine-IsReady : (power : ℕ) → IsReady (machine power)
machine-IsReady power = record {
  words = replicate 127 0;
  header = record { array = refl; fits = omega arith };
  distinct = (tt, tt);
  homes = (inr (omega arith), tt);
  head = refl;
  head_words = refl;
  head_cached = refl;
  clean = λ a h n. let ne : (a == 32) ≡ false = ground (arith, n.0) in rw ne refl;
}

-- The header of the transaction reached the disk, nothing is installed yet.
crash_atomicity_example :
    let d = (initlog 2 30 (recoveries 2 30 (commit (machine 2)).disk (1 ∷ [])) 31).disk in
    ((2 ≤ 1) × Restored 2 d (machine 2).disk) ⊎ Restored 2 d (machine 2).cache
crash_atomicity_example =
    crash_atomicity (machine 2) 30 (1 ∷ []) 31 (machine-IsReady 2) (omega arith)

commit-Restorable_example :
    ((9 ≤ 1) × Restorable 2 0 (commit (machine 9)).disk (machine 9).disk)
    ⊎ ((k : ℕ) × ((k ≡ 0) ⊎ (9 ≤ 3)) × Restorable 2 k (commit (machine 9)).disk (machine 9).cache)
commit-Restorable_example = commit-Restorable (machine 9) (machine-IsReady 9)

change_block-IsReady_example :
    ((change_block (machine 9) 50 empty_block ≡ panic)
      × ((too_big (machine 9).log ≡ true) ⊎ (ltb_ℤ (pos 1) (pos 1) ≡ true)))
    ⊎ Returns
        (λ m'.
          IsReady m'
          × (m'.cache 50 ≡ empty_block)
          × Absorbed (32 ∷ []) 50 (logged m'.log)
          × (m'.disk ≡ (machine 9).disk))
        (change_block (machine 9) 50 empty_block)
change_block-IsReady_example =
    change_block-IsReady (machine 9) 50 empty_block (machine-IsReady 9) (inr (omega arith))
      (omega arith)

one_used-IsReserved : IsReserved (machine 9).log (1 ∷ [])
one_used-IsReserved = record { running = refl; room = omega arith }

abbrev second_op : Log
second_op = record (machine 9).log { outstanding = pos 2 }

begin_second : begin_op (machine 9).log ≡ some second_op
unfolding begin_op ◌+ℤ◌
begin_second = refl

-- Three operations on a log as mkfs makes it: the last one may log one more block.
abbrev nearly_full : Machine
nearly_full = record (machine 9) {
  log = record (machine 9).log {
    size = 30;
    outstanding = pos 3;
    lh = record { n = 29; block = replicate 30 32 };
  };
}

nearly_full-IsReserved : IsReserved nearly_full.log (9 ∷ 10 ∷ 10 ∷ [])
nearly_full-IsReserved = record { running = refl; room = omega arith }

log_write-IsReserved_example :
    ((1 < 29) × Returns (λ m'. IsReserved m'.log (2 ∷ [])) (log_write (machine 9) 50))
    ⊎ ((◌≡◌ {A = ℕ} 1 29) × (log_write (machine 9) 50 ≡ panic))
log_write-IsReserved_example =
    log_write-IsReserved (machine 9) (1 ∷ []) 0 1 50 one_used-IsReserved refl (omega arith) refl

reserved_panics : log_write nearly_full 50 ≡ panic
unfolding log_write
reserved_panics = refl
