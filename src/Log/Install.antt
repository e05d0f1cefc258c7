-- ===== src/Log/Install.antt =====
-- The loop of `install_trans`, at any number of writes before the disk stops.
use os_lab.Base.{
  length, get_elem?, lt_of_get_elem?, NotIn, Distinct, ℕ, zero, suc, ◌+◌, ◌-◌, ◌≤◌, ◌<◌, ◌≡◌, refl,
  ap, ◌∙◌, subst, ◌⊎◌, some, some-injective, List, [], ◌∷◌, arith,
}
use os_lab.Log.{Block, Machine, bwrite, install_loop}
use os_lab.Log.Loops.{
  cache-bwrite_same, cache-bwrite_other, disk-bwrite_other, disk-bwrite_dead, disk-bwrite_same,
  Clear, Clear-mono,
}

-- What the loop of `install_trans` leaves, for distinct blocks `bs` outside the log blocks.
pub record Installed (bs : List ℕ) (tail : ℕ) (m m' : Machine) : Type 0 where
  pub log_kept : m'.log ≡ m.log
  pub power_left : m'.power ≡ m.power - length bs
  pub cache_kept : (a : ℕ) → NotIn a bs → m'.cache a ≡ m.cache a
  pub disk_kept : (a : ℕ) → NotIn a bs → m'.disk a ≡ m.disk a
  pub disk_dead : m.power ≡ 0 → m'.disk ≡ m.disk
  pub cache_copied :
      (j b : ℕ) → get_elem? bs j ≡ some b → m'.cache b ≡ m.cache (m.log.start + tail + 1 + j)
  pub disk_copied :
      (j b : ℕ)
      → get_elem? bs j ≡ some b
      → length bs ≤ m.power
      → m'.disk b ≡ m.cache (m.log.start + tail + 1 + j)

Installed-cons :
    (b : ℕ) (bs : List ℕ) (tail : ℕ) (m m' : Machine)
    → NotIn b bs
    → (b ≤ m.log.start + tail) ⊎ (m.log.start + tail + suc (length bs) < b)
    → Installed bs (tail + 1) (bwrite m b (m.cache (m.log.start + tail + 1))) m'
    → Installed (b ∷ bs) tail m m'
unfolding bwrite
Installed-cons b bs tail m m' n c r = record {
  log_kept = r.log_kept;
  power_left = omega (arith, r.power_left);
  cache_kept = λ a k. r.cache_kept a k.1 ∙ cache-bwrite_other m b v a k.0;
  disk_kept = λ a k. r.disk_kept a k.1 ∙ disk-bwrite_other m b v a k.0;
  disk_dead = λ z. r.disk_dead (omega arith) ∙ disk-bwrite_dead m b v z;
  cache_copied = cached;
  disk_copied = stored;
}
  where
    v : Block
    v = m.cache (m.log.start + tail + 1)

    source :
        (j x : ℕ)
        → get_elem? bs j ≡ some x
        → (bwrite m b v).cache (m.log.start + (tail + 1) + 1 + j)
          ≡ m.cache (m.log.start + tail + 1 + suc j)
    source j x e =
        let lt = lt_of_get_elem? bs j x e in
        let same : m.log.start + (tail + 1) + 1 + j ≡ m.log.start + tail + 1 + suc j =
          omega arith in
        rw same (cache-bwrite_other m b v _ (λ h. omega arith))

    here : m.log.start + tail + 1 ≡ m.log.start + tail + 1 + 0
    here = omega arith

    cached :
        (j x : ℕ)
        → get_elem? (b ∷ bs) j ≡ some x
        → m'.cache x ≡ m.cache (m.log.start + tail + 1 + j)
    cached zero x e =
        let same : b ≡ x = some-injective _ _ e in
        rw (← same) (r.cache_kept b n ∙ cache-bwrite_same m b v ∙ ap m.cache here)
    cached (suc j) x e = r.cache_copied j x e ∙ source j x e

    stored :
        (j x : ℕ)
        → get_elem? (b ∷ bs) j ≡ some x
        → suc (length bs) ≤ m.power
        → m'.disk x ≡ m.cache (m.log.start + tail + 1 + j)
    stored zero x e p =
        let same : b ≡ x = some-injective _ _ e in
        rw (← same) (r.disk_kept b n ∙ disk-bwrite_same m b v (omega arith) ∙ ap m.cache here)
    stored (suc j) x e p = r.disk_copied j x e (omega arith) ∙ source j x e

pub install_loop-Installed :
    (bs : List ℕ) (tail : ℕ) (m : Machine)
    → Distinct bs
    → Clear (m.log.start + tail) (length bs) bs
    → Installed bs tail m (install_loop bs tail m)
unfolding install_loop bwrite
install_loop-Installed [] tail m d c = record {
  log_kept = refl;
  power_left = omega arith;
  cache_kept = λ a n. refl;
  disk_kept = λ a n. refl;
  disk_dead = λ z. refl;
  cache_copied = λ j b e. cc;
  disk_copied = λ j b e p. cc;
}
install_loop-Installed (b ∷ bs) tail m d c = Installed-cons b bs tail m _ d.0 c.0 (
    install_loop-Installed bs (tail + 1) (bwrite m b (m.cache (m.log.start + tail + 1))) d.1 (
      subst (λ x. Clear x (length bs) bs) (omega arith)
        (Clear-mono (m.log.start + tail) (length bs) bs c.1)))
