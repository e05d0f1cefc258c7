-- ===== src/Log/Ops.antt =====
-- log.c: `begin_op`, `end_op` and `log_write`. Each body under `log.lock` is one step; a pass of the
-- loop of `begin_op` that sleeps ends there, and is made again after the wakeup.
pub mod Absorb
pub mod Ready
pub mod Reserve
use os_lab.Base.{
  leb, ◌==◌, if◌then◌else◌, set, take, ℕ, suc, ◌+◌, ◌*◌, Bool, true, false, ◌||◌, Option, none,
  some, List, [], ◌∷◌,
}
use os_lab.Base.Int.{ℤ, pos, pos_part, neg_part, sub_ℕ, ◌+ℤ◌, ◌-ℤ◌, ltb_ℤ, gtb_ℤ, eqb_ℤ}
use os_lab.Base.Outcome.{Outcome, ok, ◌>>=◌, ◌>>◌, panic_if}
use os_lab.Log.{logsize, maxopblocks, LogHeader, Log, Machine, update, commit}

-- `log.lh.n + (log.outstanding+1)*MAXOPBLOCKS`
abbrev pub demand : Log → ℤ
demand l =
    let ops = l.outstanding +ℤ pos 1 in
    pos l.lh.n +ℤ sub_ℕ (pos_part ops * maxopblocks) (neg_part ops * maxopblocks)

-- One pass of the loop of `begin_op`: `none` when it sleeps on `&log`.
unfoldable pub begin_op : Log → Option Log
begin_op l =
    if l.committing
    then none
    else if gtb_ℤ (demand l) (pos logsize)
    then none
    else some (record l { outstanding = l.outstanding +ℤ pos 1 })

-- The first half of `end_op`, and whether it is to commit. Otherwise it wakes the sleepers on `&log`.
unfoldable pub end_op_start : Log → Outcome (Log × Bool)
end_op_start l = do
  let l' = record l { outstanding = l.outstanding -ℤ pos 1 }
  panic_if l.committing
  ok (if eqb_ℤ l'.outstanding (pos 0) then (record l' { committing = true }, true) else (l', false))

-- The second half, after `commit`; it wakes the sleepers on `&log`.
abbrev pub end_commit : Machine → Machine
end_commit m = record m { log = record m.log { committing = false } }

-- `end_op` as a whole, if nothing else runs between its halves.
unfoldable pub end_op : Machine → Outcome Machine
unfolding end_op_start commit
end_op m = do
  (l, do_commit) ← end_op_start m.log
  let m' = record m { log = l }
  ok (if do_commit then end_commit (commit m') else m')

-- The loop of `log_write` over the block numbers that are left: the index where it stops.
unfoldable pub find_block : List ℕ → ℕ → ℕ
find_block [] b = 0
find_block (x ∷ xs) b = let i = find_block xs b in if x == b then 0 else suc i

-- The header after `log_write` of block `b`.
unfoldable pub absorb : LogHeader → ℕ → LogHeader
unfolding find_block
absorb lh b =
    let i = find_block (take lh.n lh.block) b in
    record { n = if i == lh.n then lh.n + 1 else lh.n; block = set lh.block i b }

-- `n >= size - 1`
abbrev pub too_big : Log → Bool
too_big l = leb logsize l.lh.n || leb l.size (l.lh.n + 1)

unfoldable pub log_write : Machine → ℕ → Outcome Machine
unfolding absorb
log_write m b = do
  panic_if (too_big m.log)
  panic_if (ltb_ℤ m.log.outstanding (pos 1))
  ok (record m { log = record m.log { lh = absorb m.log.lh b }; dirty = update m.dirty b true })
