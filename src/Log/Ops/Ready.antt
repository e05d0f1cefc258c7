-- ===== src/Log/Ops/Ready.antt =====
-- A file system operation changes a block in the cache and calls `log_write`: the state stays one in
-- which `commit` may be called.
use os_lab.Base.{
  Bool-cases, NotIn, Distinct, NotIn-get_elem?, ℕ, ◌+◌, ◌≤◌, ◌<◌, ◌≡◌, refl, sym, ◌∙◌, ◌≢◌, ◌⊎◌,
  inl, inr, true, List, [], ◌∷◌, ◌++◌, arith,
}
use os_lab.Base.Int.{pos, ltb_ℤ}
use os_lab.Base.Outcome.{Outcome, panic, Returns}
use os_lab.Log.{logsize, Block, Machine, update, logged}
use os_lab.Log.Loops.{update_same, update_other}
use os_lab.Log.Restore.{IsHome, AllHome}
use os_lab.Log.Crash.{IsReady}
use os_lab.Log.Ops.{absorb, too_big, log_write}
use os_lab.Log.Ops.Absorb.{Absorbed, absorb-Absorbed}

NotIn-append : (a b : ℕ) (xs : List ℕ) → NotIn a (xs ++ b ∷ []) → NotIn a xs × (a ≢ b)
NotIn-append a b [] k = (tt, k.0)
NotIn-append a b (x ∷ xs) k = let (r, ne) = NotIn-append a b xs k.1 in ((k.0, r), ne)

NotIn-snoc : (a b : ℕ) (xs : List ℕ) → a ≢ b → NotIn a xs → NotIn a (xs ++ b ∷ [])
NotIn-snoc a b [] ne k = (ne, tt)
NotIn-snoc a b (x ∷ xs) ne k = (k.0, NotIn-snoc a b xs ne k.1)

Distinct-snoc : (b : ℕ) (xs : List ℕ) → NotIn b xs → Distinct xs → Distinct (xs ++ b ∷ [])
Distinct-snoc b [] k d = (tt, tt)
Distinct-snoc b (x ∷ xs) k d =
    (NotIn-snoc x b xs (λ e. k.0 (sym e)) d.0, Distinct-snoc b xs k.1 d.1)

AllHome-snoc :
    (start b : ℕ) (xs : List ℕ) → IsHome start b → AllHome start xs → AllHome start (xs ++ b ∷ [])
AllHome-snoc start b [] h k = (h, tt)
AllHome-snoc start b (x ∷ xs) h k = (k.0, AllHome-snoc start b xs h k.1)

-- The three facts about the new block numbers that a ready state needs.
record Extends (start b : ℕ) (xs ys : List ℕ) : Type 0 where
  distinct : Distinct ys
  homes : AllHome start ys
  covers : (a : ℕ) → NotIn a ys → NotIn a xs × (a ≢ b)

Absorbed-Extends :
    (start b : ℕ) (xs ys : List ℕ)
    → IsHome start b
    → Distinct xs
    → AllHome start xs
    → Absorbed xs b ys
    → Extends start b xs ys
Absorbed-Extends start b xs ys h d k (inl (e, (j, g))) =
    rw e (record { distinct = d; homes = k; covers = λ a n. (n, NotIn-get_elem? a b j xs n g) })
Absorbed-Extends start b xs ys h d k (inr (e, n)) = rw e (record {
  distinct = Distinct-snoc b xs n d;
  homes = AllHome-snoc start b xs h k;
  covers = λ a n. NotIn-append a b xs n;
})

-- The change of a block in the cache, and its `log_write`.
unfoldable pub change_block : Machine → ℕ → Block → Outcome Machine
change_block m b v = log_write (record m { cache = update m.cache b v }) b

changed : Machine → ℕ → Block → Machine
changed m b v = record m {
  log = record m.log { lh = absorb m.log.lh b };
  cache = update m.cache b v;
  dirty = update m.dirty b true;
}

changed-IsReady :
    (m : Machine) (b : ℕ) (v : Block)
    → IsReady m
    → IsHome m.log.start b
    → m.log.lh.n + 1 < logsize
    → IsReady (changed m b v)
unfolding changed
changed-IsReady m b v r h lt =
    let (hd, ab) = absorb-Absorbed m.log.lh b r.header lt in
    let x = Absorbed-Extends m.log.start b (logged m.log) _ h r.distinct r.homes ab in
    record {
      words = r.words;
      header = hd;
      distinct = x.distinct;
      homes = x.homes;
      head = r.head;
      head_words = r.head_words;
      head_cached = update_other m.cache b m.log.start v (λ e. omega arith) ∙ r.head_cached;
      clean =
          λ a ha n. let (k, ne) = x.covers a n in update_other m.cache b a v ne ∙ r.clean a ha k;
    }

-- A block change within a transaction either panics, and then because the transaction is too big or
-- there is none, or it leaves the block's new content in the cache, the block in the transaction, the
-- disk as it was, and again a state in which `commit` may be called. The block is a home
-- block, and the log has at most LOGSIZE blocks with its header, which is the size that mkfs gives it.
pub change_block-IsReady :
    (m : Machine) (b : ℕ) (v : Block)
    → IsReady m
    → IsHome m.log.start b
    → m.log.size ≤ logsize
    → ((change_block m b v ≡ panic)
        × ((too_big m.log ≡ true) ⊎ (ltb_ℤ m.log.outstanding (pos 1) ≡ true)))
      ⊎ Returns
          (λ m'.
            IsReady m'
            × (m'.cache b ≡ v)
            × Absorbed (logged m.log) b (logged m'.log)
            × (m'.disk ≡ m.disk))
          (change_block m b v)
unfolding change_block log_write changed
change_block-IsReady m b v r h size = elim (Bool-cases (too_big m.log)) [
  | inl big ↦ inl (rw (big, log_write) refl, inl big)
  | inr fits ↦ elim (Bool-cases (ltb_ℤ m.log.outstanding (pos 1))) [
    | inl idle ↦ inl (rw (fits, log_write) (rw (idle, log_write) refl), inr idle)
    | inr running ↦
        let lt : m.log.lh.n + 1 < logsize = ground arith in
        inr (
          rw (fits, log_write)
            (rw (running, log_write)
              (
                changed-IsReady m b v r h lt,
                update_same m.cache b v,
                (absorb-Absorbed m.log.lh b r.header lt).1,
                refl,
              )))
  ]
]
