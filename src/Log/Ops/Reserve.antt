-- ===== src/Log/Ops/Reserve.antt =====
-- The space that `begin_op` reserves: each running operation may log MAXOPBLOCKS blocks.
use os_lab.Base.{
  length, get_elem?, set, length-set, lt_of_get_elem?, ℕ, zero, suc, ◌+◌, ◌-◌, ◌*◌, ◌≤◌, ◌<◌, ◌≡◌,
  refl, sym, ap, ◌∙◌, ◌⊎◌, inl, inr, true, false, some, some-injective, List, [], ◌∷◌, arith,
  dec_lt,
}
use os_lab.Base.Int.{pos, ◌+ℤ◌, ltb_ℤ}
use os_lab.Base.Outcome.{panic, Returns}
use os_lab.Log.{logsize, maxopblocks, LogHeader, Log, Machine}
use os_lab.Log.Ops.{demand, begin_op, absorb, too_big, log_write}

-- The blocks that the running operations may still log; `used` holds how often each has called
-- `log_write`.
abbrev pub reserved : List ℕ → ℕ
reserved [] = 0
reserved (u ∷ us) = (maxopblocks - u) + reserved us

pub record IsReserved (l : Log) (used : List ℕ) : Type 0 where
  pub running : l.outstanding ≡ pos (length used)
  pub room : l.lh.n + reserved used ≤ logsize

reserved-le : (used : List ℕ) → reserved used ≤ length used * maxopblocks
reserved-le [] = omega arith
reserved-le (u ∷ us) = omega (arith, reserved-le us)

reserved-set :
    (used : List ℕ) (i u : ℕ)
    → get_elem? used i ≡ some u
    → u < maxopblocks
    → reserved (set used i (u + 1)) + 1 ≡ reserved used
reserved-set [] i u e lt = cc
reserved-set (x ∷ us) zero u e lt = let same : x ≡ u = some-injective _ _ e in omega arith
reserved-set (x ∷ us) (suc i) u e lt = omega (arith, reserved-set us i u e lt)

demand_lem :
    (l : Log) (k : ℕ) → l.outstanding ≡ pos k → demand l ≡ pos (l.lh.n + (k + 1) * maxopblocks)
unfolding ◌+ℤ◌
demand_lem l k e = rw e (ground arith)

-- An operation that `begin_op` lets in has its MAXOPBLOCKS blocks reserved beside what the others have.
pub begin_op-IsReserved :
    (l : Log) (used : List ℕ) {l' : Log}
    → IsReserved l used
    → begin_op l ≡ some l'
    → IsReserved l' (0 ∷ used)
unfolding begin_op ◌+ℤ◌
begin_op-IsReserved l used {l'} r e =
    ground (arith, demand_lem l (length used) r.running, reserved-le used)

lh_n-absorb : (lh : LogHeader) (b : ℕ) → (absorb lh b).n ≤ lh.n + 1
unfolding absorb
lh_n-absorb lh b = ground arith

-- The log has LOGSIZE blocks in all, as mkfs makes it, one of which is the header. An operation that
-- `begin_op` has let in and that has called `log_write` fewer than MAXOPBLOCKS times can call it again
-- if fewer than 29 blocks are logged: it does not panic, and the reservations of all operations
-- stay. Otherwise 29 are, and the call panics: the reservations count one block too many.
pub log_write-IsReserved :
    (m : Machine) (used : List ℕ) (i u b : ℕ)
    → IsReserved m.log used
    → get_elem? used i ≡ some u
    → u < maxopblocks
    → m.log.size ≡ logsize
    → ((m.log.lh.n < 29) × Returns (λ m'. IsReserved m'.log (set used i (u + 1))) (log_write m b))
      ⊎ ((m.log.lh.n ≡ 29) × (log_write m b ≡ panic))
unfolding log_write
log_write-IsReserved m used i u b r e lt size = elim (dec_lt m.log.lh.n 29) [
  | yes few ↦
      let fits : too_big m.log ≡ false = ground arith in
      inl (
        few,
        rw (fits, log_write)
            (rw (running, log_write)
              (record {
                running = r.running ∙ ap pos (sym (length-set used i (u + 1)));
                room = omega (arith, lh_n-absorb m.log.lh b, reserved-set used i u e lt, r.room);
              })),
      )
  | no many ↦
      let big : too_big m.log ≡ true = ground arith in
      inr (omega (arith, reserved-set used i u e lt, r.room), rw (big, log_write) refl)
]
  where
    some_run : 0 < length used
    some_run = omega (arith, lt_of_get_elem? used i u e)

    running : ltb_ℤ m.log.outstanding (pos 1) ≡ false
    running = rw r.running (ground (arith, some_run))
