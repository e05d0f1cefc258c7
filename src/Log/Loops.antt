-- ===== src/Log/Loops.antt =====
-- The two copy loops of log.c, at any number of writes before the disk stops.
use os_lab.Base.{
  ◌==◌, ==_iff, Bool-cases, length, get_elem?, ℕ, zero, suc, ◌+◌, ◌-◌, ◌≤◌, ◌<◌, ◌≡◌, refl, sym, ap,
  ◌∙◌, subst, ◌≢◌, ◌⊎◌, inl, inr, false, some, some-injective, List, [], ◌∷◌, arith,
}
use os_lab.Log.{Block, Machine, update, bwrite, write_log_loop}

pub update_same : (f : ℕ → Block) (a : ℕ) (v : Block) → update f a v a ≡ v
update_same f a v = rw ((==_iff a a).1 refl) refl

pub update_other : (f : ℕ → Block) (a b : ℕ) (v : Block) → b ≢ a → update f a v b ≡ f b
update_other f a b v ne = elim (Bool-cases (b == a)) [
  | inl e ↦ absurd (ne ((==_iff b a).0 e))
  | inr e ↦ rw e refl
]

module _ (m : Machine) (b : ℕ) (v : Block) where
  pub log-bwrite : (bwrite m b v).log ≡ m.log
  unfolding bwrite
  log-bwrite = refl

  pub power-bwrite : (bwrite m b v).power ≡ m.power - 1
  unfolding bwrite
  power-bwrite = refl

  pub cache-bwrite_same : (bwrite m b v).cache b ≡ v
  unfolding bwrite
  cache-bwrite_same = update_same m.cache b v

  pub cache-bwrite_other : (a : ℕ) → a ≢ b → (bwrite m b v).cache a ≡ m.cache a
  unfolding bwrite
  cache-bwrite_other a ne = update_other m.cache b a v ne

  pub disk-bwrite_other : (a : ℕ) → a ≢ b → (bwrite m b v).disk a ≡ m.disk a
  unfolding bwrite
  disk-bwrite_other a ne = elim (Bool-cases (m.power == 0)) [
    | inl e ↦ rw e refl
    | inr e ↦ rw e (update_other m.disk b a v ne)
  ]

  -- Without power the disk stays as it is, and with power it takes the write.
  pub disk-bwrite_dead : m.power ≡ 0 → (bwrite m b v).disk ≡ m.disk
  unfolding bwrite
  disk-bwrite_dead z = rw ((==_iff m.power 0).1 z) refl

  pub disk-bwrite_same : 0 < m.power → (bwrite m b v).disk b ≡ v
  unfolding bwrite
  disk-bwrite_same p =
      let e : (m.power == 0) ≡ false = ground arith in rw e (update_same m.disk b v)

-- What the loop of `write_log` leaves. Blocks outside the log blocks `from + tail + 1 …` stay.
pub record Logged (bs : List ℕ) (tail : ℕ) (m m' : Machine) : Type 0 where
  pub log_kept : m'.log ≡ m.log
  pub power_left : m'.power ≡ m.power - length bs
  pub cache_kept :
      (a : ℕ)
      → (a ≤ m.log.start + tail) ⊎ (m.log.start + tail + length bs < a)
      → m'.cache a ≡ m.cache a
  pub disk_kept :
      (a : ℕ)
      → (a ≤ m.log.start + tail) ⊎ (m.log.start + tail + length bs < a)
      → m'.disk a ≡ m.disk a
  pub cache_copied :
      (j b : ℕ) → get_elem? bs j ≡ some b → m'.cache (m.log.start + tail + 1 + j) ≡ m.cache b
  pub disk_copied :
      (j b : ℕ)
      → get_elem? bs j ≡ some b
      → length bs ≤ m.power
      → m'.disk (m.log.start + tail + 1 + j) ≡ m.cache b

-- No block number of the list is one of the `n` blocks behind `first`.
abbrev pub Clear : ℕ → ℕ → List ℕ → Type 0
Clear first n [] = Unit {0}
Clear first n (b ∷ bs) = ((b ≤ first) ⊎ (first + n < b)) × Clear first n bs

pub Clear-get_elem? :
    (first n j b : ℕ) (bs : List ℕ)
    → Clear first n bs
    → get_elem? bs j ≡ some b
    → (b ≤ first) ⊎ (first + n < b)
Clear-get_elem? first n j b [] c e = cc
Clear-get_elem? first n zero b (x ∷ bs) c e = rw (sym (some-injective _ _ e)) c.0
Clear-get_elem? first n (suc j) b (x ∷ bs) c e = Clear-get_elem? first n j b bs c.1 e

pub Clear-mono : (first n : ℕ) (bs : List ℕ) → Clear first (suc n) bs → Clear (first + 1) n bs
Clear-mono first n [] c = tt
Clear-mono first n (b ∷ bs) c = (omega arith, Clear-mono first n bs c.1)

Logged-cons :
    (b : ℕ) (bs : List ℕ) (tail : ℕ) (m m' : Machine)
    → Clear (m.log.start + tail) (suc (length bs)) (b ∷ bs)
    → Logged bs (tail + 1) (bwrite m (m.log.start + tail + 1) (m.cache b)) m'
    → Logged (b ∷ bs) tail m m'
unfolding bwrite
Logged-cons b bs tail m m' c r = record {
  log_kept = r.log_kept;
  power_left = omega (arith, r.power_left);
  cache_kept = λ a o. r.cache_kept a (omega arith) ∙ cache-bwrite_other m at v a (λ e. omega arith);
  disk_kept = λ a o. r.disk_kept a (omega arith) ∙ disk-bwrite_other m at v a (λ e. omega arith);
  cache_copied = cached;
  disk_copied = stored;
}
  where
    at : ℕ
    at = m.log.start + tail + 1

    v : Block
    v = m.cache b

    other : (j x : ℕ) → get_elem? bs j ≡ some x → (bwrite m at v).cache x ≡ m.cache x
    other j x e =
        let far = Clear-get_elem? (m.log.start + tail) (suc (length bs)) j x bs c.1 e in
        cache-bwrite_other m at v x (λ h. omega arith)

    first : (x : ℕ) → get_elem? (b ∷ bs) 0 ≡ some x → v ≡ m.cache x
    first x e = ap m.cache (some-injective _ _ e)

    cached :
        (j x : ℕ)
        → get_elem? (b ∷ bs) j ≡ some x
        → m'.cache (m.log.start + tail + 1 + j) ≡ m.cache x
    cached zero x e =
        let here : m.log.start + tail + 1 + 0 ≡ at = omega arith in
        rw here (r.cache_kept at (omega arith) ∙ cache-bwrite_same m at v ∙ first x e)
    cached (suc j) x e =
        let there : m.log.start + tail + 1 + suc j ≡ m.log.start + (tail + 1) + 1 + j =
          omega arith in
        rw there (r.cache_copied j x e ∙ other j x e)

    stored :
        (j x : ℕ)
        → get_elem? (b ∷ bs) j ≡ some x
        → suc (length bs) ≤ m.power
        → m'.disk (m.log.start + tail + 1 + j) ≡ m.cache x
    stored zero x e p =
        let here : m.log.start + tail + 1 + 0 ≡ at = omega arith in
        rw here (r.disk_kept at (omega arith) ∙ disk-bwrite_same m at v (omega arith) ∙ first x e)
    stored (suc j) x e p =
        let there : m.log.start + tail + 1 + suc j ≡ m.log.start + (tail + 1) + 1 + j =
          omega arith in
        rw there (r.disk_copied j x e (omega arith) ∙ other j x e)

pub write_log_loop-Logged :
    (bs : List ℕ) (tail : ℕ) (m : Machine)
    → Clear (m.log.start + tail) (length bs) bs
    → Logged bs tail m (write_log_loop bs tail m)
unfolding write_log_loop bwrite
write_log_loop-Logged [] tail m c = record {
  log_kept = refl;
  power_left = omega arith;
  cache_kept = λ a o. refl;
  disk_kept = λ a o. refl;
  cache_copied = λ j b e. cc;
  disk_copied = λ j b e p. cc;
}
write_log_loop-Logged (b ∷ bs) tail m c =
    Logged-cons b bs tail m _ c (
      write_log_loop-Logged bs (tail + 1) (bwrite m (m.log.start + tail + 1) (m.cache b))
        (next c.1))
  where
    next :
        Clear (m.log.start + tail) (suc (length bs)) bs
        → Clear
            ((bwrite m (m.log.start + tail + 1) (m.cache b)).log.start + (tail + 1))
            (length bs)
            bs
    next k =
        subst (λ x. Clear x (length bs) bs) (omega arith)
          (Clear-mono (m.log.start + tail) (length bs) bs k)
