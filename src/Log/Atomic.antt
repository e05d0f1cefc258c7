-- ===== src/Log/Atomic.antt =====
-- A transaction is all or nothing, also if recovery itself is cut short again and again.
use os_lab.Base.{ℕ, ◌≤◌, ◌<◌, ◌≡◌, ◌⊎◌, inl, inr, List, [], ◌∷◌, arith}
use os_lab.Log.{logsize, Block, Machine, commit, initlog}
use os_lab.Log.Restore.{IsHome, Restorable}
use os_lab.Log.Crash.{initlog-Restorable, IsReady}
use os_lab.Log.Commit.{commit-Restorable}

-- The disk after a row of boots, each of which stops after the given number of writes.
unfoldable pub recoveries : ℕ → ℕ → (ℕ → Block) → List ℕ → ℕ → Block
recoveries start size d [] = d
recoveries start size d (power ∷ ps) = recoveries start size (initlog start size d power).disk ps

-- The home blocks of the disk have the content `f`.
abbrev pub Restored : ℕ → (ℕ → Block) → (ℕ → Block) → Type 0
Restored start d f = (a : ℕ) → IsHome start a → d a ≡ f a

module _ (start size : ℕ) (f : ℕ → Block) where
  abbrev Pending : (ℕ → Block) → Type 0
  Pending d = (k : ℕ) × Restorable start k d f

  initlog-Pending :
      (power : ℕ) (d : ℕ → Block) → Pending d → Pending (initlog start size d power).disk
  initlog-Pending power d (k, r) = elim (initlog-Restorable start size k power d f r) [
    | inl (_, q) ↦ (k, q)
    | inr (_, q) ↦ (0, q)
  ]

  recoveries-Pending :
      (ps : List ℕ) (d : ℕ → Block) → Pending d → Pending (recoveries start size d ps)
  unfolding recoveries
  recoveries-Pending [] d p = p
  recoveries-Pending (power ∷ ps) d p =
      recoveries-Pending ps (initlog start size d power).disk (initlog-Pending power d p)

  -- A recovery that is not cut short restores the content.
  full_recovery :
      (power : ℕ) (d : ℕ → Block)
      → logsize < power
      → Pending d
      → Restored start (initlog start size d power).disk f
  full_recovery power d p (k, r) a h = elim (initlog-Restorable start size k power d f r) [
    | inl (le, q) ↦ absurd (let fits = r.fits in omega arith)
    | inr (lt, q) ↦ q.rest a h tt
  ]

  after_crashes :
      (ps : List ℕ) (power : ℕ) (d : ℕ → Block)
      → logsize < power
      → Pending d
      → Restored start (initlog start size (recoveries start size d ps) power).disk f
  after_crashes ps power d p q =
      full_recovery power (recoveries start size d ps) p (recoveries-Pending ps d q)

-- The machine stops at any write of `commit`, then at any write of each of any number of recoveries,
-- and at last one recovery runs to its end. Then either every home block has the content that it had
-- on the disk before the commit, which happens only if the machine stopped within the writes to the
-- log; or every home block has the new content, which the cache held. The state is one in which
-- `commit` may be called.
pub crash_atomicity :
    (m : Machine) (size : ℕ) (ps : List ℕ) (power : ℕ)
    → IsReady m
    → logsize < power
    → let start = m.log.start in
      let d = (initlog start size (recoveries start size (commit m).disk ps) power).disk in
      ((m.power ≤ m.log.lh.n) × Restored start d m.disk) ⊎ Restored start d m.cache
crash_atomicity m size ps power v p = elim (commit-Restorable m v) [
  | inl (le, r) ↦ inl (le, after_crashes m.log.start size m.disk ps power (commit m).disk p (0, r))
  | inr (k, _, r) ↦ inr (after_crashes m.log.start size m.cache ps power (commit m).disk p (k, r))
]
