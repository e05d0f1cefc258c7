-- ===== src/Log/Commit.antt =====
-- `commit`, stopped at any write.
use os_lab.Base.{
  ltb, Bool-cases, length, get_elem?, take, NotIn, Distinct, ℕ, suc, ◌+◌, ◌-◌, ◌≤◌, ◌<◌, ◌≡◌, refl,
  sym, ap, ◌∙◌, subst, ◌⊎◌, inl, inr, some, List, ◌∷◌, arith, dec_lt,
}
use os_lab.Log.{
  logsize, Log, Machine, bwrite, copy_first, logged, install_loop, install_trans, write_log,
  head_block, write_head, clear_head, commit,
}
use os_lab.Log.Header.{take-copy_first, length-copy_first}
use os_lab.Log.Loops.{
  log-bwrite, power-bwrite, cache-bwrite_same, cache-bwrite_other, disk-bwrite_other,
  disk-bwrite_dead, disk-bwrite_same, Logged, Clear, write_log_loop-Logged,
}
use os_lab.Log.Install.{install_loop-Installed}
use os_lab.Log.Restore.{
  IsHome, AllHome, AllHome-Clear, Restorable, InstallingAt, length-take_fits, finish,
  finish-Restorable,
}
use os_lab.Log.Crash.{IsReady}

-- `commit` up to its first `write_head`.
abbrev committed : Machine → Machine
committed m = write_head (write_log m)

Clear-zero :
    (start : ℕ) (bs : List ℕ)
    → length bs < logsize
    → AllHome start bs
    → Clear (start + 0) (length bs) bs
Clear-zero start bs le h =
    subst (λ x. Clear x (length bs) bs) (omega arith) (AllHome-Clear start (length bs) bs le h)

-- Without power the end of `commit` does not reach the disk.
finish_dead :
    (m : Machine)
    → Distinct (logged m.log)
    → Clear (m.log.start + 0) (length (logged m.log)) (logged m.log)
    → m.power ≡ 0
    → (finish m).disk ≡ m.disk
unfolding write_head install_trans
finish_dead m d c z =
    let i = install_loop-Installed (logged m.log) 0 m d c in
    let mc = clear_head (install_loop (logged m.log) 0 m) in
    disk-bwrite_dead mc mc.log.start (head_block mc.log.lh (mc.cache mc.log.start))
      (omega (arith, i.power_left))
    ∙ i.disk_dead z

module _ (m : Machine) (v : IsReady m) where
  abbrev n : ℕ
  n = m.log.lh.n

  abbrev start : ℕ
  start = m.log.start

  len : length (logged m.log) ≡ n
  len = length-take_fits n m.log.lh.block (omega (arith, v.header.fits, v.header.array))

  blocks-Clear : Clear (start + 0) (length (logged m.log)) (logged m.log)
  blocks-Clear = Clear-zero start (logged m.log) (omega (arith, len, v.header.fits)) v.homes

  wrote : Logged (logged m.log) 0 m (write_log m)
  unfolding write_log
  wrote = write_log_loop-Logged (logged m.log) 0 m blocks-Clear

  -- The header block that makes the transaction permanent.
  abbrev new_words : List ℕ
  new_words = copy_first n m.log.lh.block v.words

  names : take n new_words ≡ logged m.log
  names =
      take-copy_first n m.log.lh.block v.words (omega (arith, v.header.fits, v.header.array))
        (omega (arith, v.header.fits, v.head_words))

  new_head : head_block m.log.lh ((write_log m).cache start) ≡ n ∷ new_words
  new_head =
      ap (head_block m.log.lh) (wrote.cache_kept start (inl (omega arith)) ∙ v.head_cached ∙ v.head)

  committed-eq : committed m ≡ bwrite (write_log m) start (n ∷ new_words)
  unfolding write_head
  committed-eq =
      ap (λ (l : Log). bwrite (write_log m) l.start (head_block l.lh ((write_log m).cache l.start)))
        wrote.log_kept
      ∙ ap (bwrite (write_log m) start) new_head

  log-committed : (committed m).log ≡ m.log
  log-committed =
      ap (λ (k : Machine). k.log) committed-eq
      ∙ log-bwrite (write_log m) start (n ∷ new_words)
      ∙ wrote.log_kept

  power-committed : (committed m).power ≡ m.power - n - 1
  power-committed =
      ap (λ (k : Machine). k.power) committed-eq
      ∙ power-bwrite (write_log m) start (n ∷ new_words)
      ∙ ap (λ (k : ℕ). k - 1) (wrote.power_left ∙ ap (λ k. m.power - k) len)

  far : (a : ℕ) → IsHome start a → (a ≤ start + 0) ⊎ (start + 0 + length (logged m.log) < a)
  far a h = omega (arith, len, v.header.fits)

  -- The disk stopped before the header was written: nothing has happened.
  aborted : m.power ≤ n → Restorable start 0 (finish (committed m)).disk m.disk
  aborted p = rw unchanged (record {
    ws = v.words;
    head = wrote.disk_kept start (inl (omega arith)) ∙ v.head;
    words = v.head_words;
    fits = omega arith;
    distinct = tt;
    homes = tt;
    copies = λ j b e. cc;
    rest = λ a h k. wrote.disk_kept a (far a h);
  })
    where
      unchanged : (finish (committed m)).disk ≡ (write_log m).disk
      unchanged =
          finish_dead (committed m) (rw log-committed v.distinct) (rw log-committed blocks-Clear)
            (omega (arith, power-committed))
          ∙ ap (λ (k : Machine). k.disk) committed-eq
          ∙ disk-bwrite_dead (write_log m) start (n ∷ new_words)
              (omega (arith, wrote.power_left, len))

  -- The machine once the header is written.
  abbrev headed : Machine
  headed = bwrite (write_log m) start (n ∷ new_words)

  named : (j b : ℕ) → get_elem? (take n new_words) j ≡ some b → get_elem? (logged m.log) j ≡ some b
  named j b e = subst (λ l. get_elem? l j ≡ some b) names e

  -- The log blocks hold the new contents, in the cache and, if they reached it, on the disk.
  disk_log :
      n < m.power
      → (j b : ℕ) → get_elem? (logged m.log) j ≡ some b
      → headed.disk (start + 1 + j) ≡ m.cache b
  disk_log p j b e =
      let same : start + 0 + 1 + j ≡ start + 1 + j = omega arith in
      disk-bwrite_other (write_log m) start (n ∷ new_words) (start + 1 + j) (λ h. omega arith)
      ∙ ap (write_log m).disk (sym same)
      ∙ wrote.disk_copied j b e (omega (arith, len))

  cache_log :
      (j b : ℕ) → get_elem? (logged m.log) j ≡ some b → headed.cache (start + 1 + j) ≡ m.cache b
  cache_log j b e =
      let same : start + 0 + 1 + j ≡ start + 1 + j = omega arith in
      cache-bwrite_other (write_log m) start (n ∷ new_words) (start + 1 + j) (λ h. omega arith)
      ∙ ap (write_log m).cache (sym same)
      ∙ wrote.cache_copied j b e

  -- The header reached the disk: the transaction is there to stay.
  pending : n < m.power → Restorable start n headed.disk m.cache
  pending p = record {
    ws = new_words;
    head =
        disk-bwrite_same (write_log m) start (n ∷ new_words) (omega (arith, wrote.power_left, len));
    words = ap suc (length-copy_first n m.log.lh.block v.words) ∙ v.head_words;
    fits = v.header.fits;
    distinct = rw names v.distinct;
    homes = rw names v.homes;
    copies = λ j b e. disk_log p j b (named j b e);
    rest = λ a h k.
        disk-bwrite_other (write_log m) start (n ∷ new_words) a (λ e. omega arith)
        ∙ wrote.disk_kept a (far a h)
        ∙ sym (v.clean a h (subst (NotIn a) names k));
  }

  made : n < m.power → InstallingAt start n (committed m) m.cache
  unfolding pending
  made p = rw committed-eq (record {
    pending = pending p;
    log_blocks =
        ap logged (log-bwrite (write_log m) start (n ∷ new_words) ∙ wrote.log_kept) ∙ sym names;
    cache_head = cache-bwrite_same (write_log m) start (n ∷ new_words);
    cache_copies = λ j b e. cache_log j b (named j b e);
  })

  start-committed : (committed m).log.start ≡ start
  start-committed = ap (λ (l : Log). l.start) log-committed

  -- What a non-empty `commit` leaves on the disk.
  finished :
      n < m.power
      → (k : ℕ) × ((k ≡ 0) ⊎ (m.power ≤ n + 1 + n))
        × Restorable start k (finish (committed m)).disk m.cache
  finished p =
      subst
        (λ s.
          (k : ℕ) × ((k ≡ 0) ⊎ (m.power ≤ n + 1 + n))
          × Restorable s k (finish (committed m)).disk m.cache)
        start-committed
        (outcome (
          finish-Restorable n (committed m) m.cache
            (subst (λ s. InstallingAt s n (committed m) m.cache) (sym start-committed) (made p))))
    where
      outcome :
          (((committed m).power ≤ n)
              × Restorable (committed m).log.start n (finish (committed m)).disk m.cache)
            ⊎ ((n < (committed m).power)
                × Restorable (committed m).log.start 0 (finish (committed m)).disk m.cache)
          → (k : ℕ) × ((k ≡ 0) ⊎ (m.power ≤ n + 1 + n))
            × Restorable (committed m).log.start k (finish (committed m)).disk m.cache
      outcome (inl (q, r)) = (n, inr (omega (arith, power-committed)), r)
      outcome (inr (q, r)) = (0, inl refl, r)

  -- A commit is all or nothing. If the disk stops within the writes to the log, then it holds the old
  -- contents of all home blocks; after that it holds the new ones, as they are in the cache, if need
  -- be with the help of the transaction in the log, which recovery installs. With power for all of its
  -- writes nothing is left to recover. The state is one in which `commit` may be called.
  pub commit-Restorable :
      ((m.power ≤ n) × Restorable start 0 (commit m).disk m.disk)
      ⊎ ((k : ℕ) × ((k ≡ 0) ⊎ (m.power ≤ n + 1 + n)) × Restorable start k (commit m).disk m.cache)
  unfolding commit
  commit-Restorable = elim (Bool-cases (ltb 0 n)) [
    | inr none_logged ↦ inr (0, inl refl, rw (none_logged, commit) (unchanged (ground arith)))
    | inl some_logged ↦
        rw (some_logged, commit)
          (elim (dec_lt n m.power) [
            | yes p ↦ inr (finished p)
            | no p ↦ inl (omega arith, aborted (omega arith))
          ])
  ]
    where
      unchanged : n ≡ 0 → Restorable start 0 m.disk m.cache
      unchanged z = record {
        ws = v.words;
        head = v.head;
        words = v.head_words;
        fits = omega arith;
        distinct = tt;
        homes = tt;
        copies = λ j b e. cc;
        rest = λ a h k. sym (v.clean a h (rw z tt));
      }
