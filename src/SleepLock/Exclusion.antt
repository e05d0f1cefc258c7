-- ===== src/SleepLock/Exclusion.antt =====
-- One process at a time, for both kinds of lock, and who is next.
use os_lab.Base.{
  Bool-cases, modify, ℕ, ◌≡◌, refl, sym, ap, ◌∙◌, subst, ◌⊎◌, inl, inr, Bool, true, false,
  false≢true, List, [], ◌∷◌,
}
use os_lab.Base.Int.{ℤ}
use os_lab.Base.Outcome.{Outcome, ok}
use os_lab.Proc.{sleeping, Chan, ProcTable}
use os_lab.Proc.Wakeup.{sleep}
use os_lab.SleepLock.{
  SleepLock, acquiresleep, releasesleep, acquir_priority, release_priority, holdingsleep,
  holding_priority,
}

pub data Kind : Type 0 where
  sleeping_lock priority_lock : Kind

module _ {F : Type 0} where
  abbrev pub acquire_of :
      Kind → SleepLock → ProcTable F → ℕ → ℤ → Chan → Outcome (Bool × SleepLock × ProcTable F)
  acquire_of sleeping_lock = acquiresleep
  acquire_of priority_lock = acquir_priority

  abbrev pub release_of : Kind → SleepLock → ProcTable F → Chan → SleepLock × ProcTable F
  release_of sleeping_lock = releasesleep
  release_of priority_lock = release_priority

abbrev pub holding_of : Kind → SleepLock → ℤ → Bool
holding_of sleeping_lock = holdingsleep
holding_of priority_lock = holding_priority

-- The lock, the process table, and the pids of the processes between `acquire` and `release`.
pub record System (F : Type 0) : Type 0 where
  pub lock : SleepLock
  pub table : ProcTable F
  pub inside : List ℤ

-- Nobody is inside and the lock is free, or one process is inside and holds it.
pub data IsExclusive (lk : SleepLock) (inside : List ℤ) : Type 0 where
  free : lk.locked ≡ false → inside ≡ [] → IsExclusive lk inside
  held : (pid : ℤ) → lk.locked ≡ true → lk.pid ≡ pid → inside ≡ pid ∷ [] → IsExclusive lk inside

cons_ne : {p : ℤ} {ps : List ℤ} → ◌≡◌ {A = List ℤ} [] (p ∷ ps) → ⊥
cons_ne h = cc

tail_eq : {p q : ℤ} {ps qs : List ℤ} → ◌≡◌ {A = List ℤ} (p ∷ ps) (q ∷ qs) → ps ≡ qs
tail_eq h = cc

module _ {F : Type 0} where
  abbrev slept : ProcTable F → ℕ → Chan → ProcTable F
  slept t cur c = record t {
    procs = modify t.procs cur λ p. record p { chan = c; state = sleeping };
  }

  -- The two answers of a round.
  acquire_lem :
      (k : Kind) (c : Chan) (lk : SleepLock) (t : ProcTable F) (cur : ℕ) (pid : ℤ)
      → ((lk.locked ≡ false)
          × (acquire_of k lk t cur pid c ≡ ok (true, record { locked = true; pid = pid }, t)))
        ⊎ ((lk.locked ≡ true)
            × (t' : ProcTable F) × (acquire_of k lk t cur pid c ≡ ok (false, lk, t')))
  unfolding acquiresleep acquir_priority sleep
  acquire_lem sleeping_lock c lk t cur pid = elim (Bool-cases lk.locked) [
    | inl taken ↦ inr (taken, slept t cur c, rw (taken, acquiresleep) refl)
    | inr unlocked ↦ inl (unlocked, rw (unlocked, acquiresleep) refl)
  ]
  acquire_lem priority_lock c lk t cur pid = elim (Bool-cases lk.locked) [
    | inl taken ↦ inr (taken, slept t cur c, rw (taken, acquir_priority) refl)
    | inr unlocked ↦ inl (unlocked, rw (unlocked, acquir_priority) refl)
  ]

  release_lem :
      (k : Kind) (c : Chan) (lk : SleepLock) (t : ProcTable F)
      → ((release_of k lk t c).0).locked ≡ false
  unfolding releasesleep release_priority
  release_lem sleeping_lock c lk t = refl
  release_lem priority_lock c lk t = refl

  got_ne :
      {l m : SleepLock} {u v : ProcTable F}
      → ◌≡◌ {A = Outcome (Bool × SleepLock × ProcTable F)} (ok (true, l, u)) (ok (false, m, v))
      → ⊥
  got_ne h = cc

  same_lock :
      {b b' : Bool} {l m : SleepLock} {u v : ProcTable F}
      → ◌≡◌ {A = Outcome (Bool × SleepLock × ProcTable F)} (ok (b, l, u)) (ok (b', m, v))
      → l ≡ m
  same_lock h = cc

module _ {F : Type 0} (k : Kind) (c : Chan) where
  -- The steps of the processes, in any order.
  pub data Step (s : System F) : System F → Type 0 where
    enters :
        (cur : ℕ) (pid : ℤ) {lk : SleepLock} {t : ProcTable F}
        → acquire_of k s.lock s.table cur pid c ≡ ok (true, lk, t)
        → Step s (record { lock = lk; table = t; inside = pid ∷ s.inside })
    waits :
        (cur : ℕ) (pid : ℤ) {lk : SleepLock} {t : ProcTable F}
        → acquire_of k s.lock s.table cur pid c ≡ ok (false, lk, t)
        → Step s (record { lock = lk; table = t; inside = s.inside })
    leaves :
        (pid : ℤ) (rest : List ℤ) {lk : SleepLock} {t : ProcTable F}
        → s.inside ≡ pid ∷ rest
        → release_of k s.lock s.table c ≡ (lk, t)
        → Step s (record { lock = lk; table = t; inside = rest })
    others : (t : ProcTable F) → Step s (record s { table = t })

  pub data Steps (s : System F) : System F → Type 0 where
    none_yet : Steps s s
    one_more : {u v : System F} → Steps s u → Step u v → Steps s v

  enters-IsExclusive :
      (s : System F) (cur : ℕ) (pid : ℤ) (lk : SleepLock) (t : ProcTable F)
      → acquire_of k s.lock s.table cur pid c ≡ ok (true, lk, t)
      → IsExclusive s.lock s.inside
      → IsExclusive lk (pid ∷ s.inside)
  enters-IsExclusive s cur pid lk t e x = elim (acquire_lem k c s.lock s.table cur pid) [
    | inr (taken, t', e') ↦ absurd (got_ne (sym e ∙ e'))
    | inl (unlocked, e') ↦
        subst (λ l. IsExclusive l (pid ∷ s.inside)) (same_lock (sym e' ∙ e))
          (held pid refl refl (ap (◌∷◌ pid) (alone x unlocked)))
  ]
    where
      alone : IsExclusive s.lock s.inside → s.lock.locked ≡ false → s.inside ≡ []
      alone (free _ e) u = e
      alone (held p l _ _) u = absurd (false≢true (sym u ∙ l))

  waits-IsExclusive :
      (s : System F) (cur : ℕ) (pid : ℤ) (lk : SleepLock) (t : ProcTable F)
      → acquire_of k s.lock s.table cur pid c ≡ ok (false, lk, t)
      → IsExclusive s.lock s.inside
      → IsExclusive lk s.inside
  waits-IsExclusive s cur pid lk t e x = elim (acquire_lem k c s.lock s.table cur pid) [
    | inr (taken, t', e') ↦ subst (λ l. IsExclusive l s.inside) (same_lock (sym e' ∙ e)) x
    | inl (unlocked, e') ↦ absurd (got_ne (sym e' ∙ e))
  ]

  leaves-IsExclusive :
      (s : System F) (pid : ℤ) (rest : List ℤ) (lk : SleepLock) (t : ProcTable F)
      → s.inside ≡ pid ∷ rest
      → release_of k s.lock s.table c ≡ (lk, t)
      → IsExclusive s.lock s.inside
      → IsExclusive lk rest
  leaves-IsExclusive s pid rest lk t e h x = free unlocked (emptied x)
    where
      unlocked : lk.locked ≡ false
      unlocked =
          ap (λ (r : SleepLock × ProcTable F). (r.0).locked) (sym h)
          ∙ release_lem k c s.lock s.table

      emptied : IsExclusive s.lock s.inside → rest ≡ []
      emptied (free _ none_in) = absurd (cons_ne (sym none_in ∙ e))
      emptied (held p _ _ one_in) = tail_eq (sym e ∙ one_in)

  Step-IsExclusive :
      (s s' : System F) → Step s s' → IsExclusive s.lock s.inside → IsExclusive s'.lock s'.inside
  Step-IsExclusive s s' (enters cur pid e) x = enters-IsExclusive s cur pid _ _ e x
  Step-IsExclusive s s' (waits cur pid e) x = waits-IsExclusive s cur pid _ _ e x
  Step-IsExclusive s s' (leaves pid rest e h) x = leaves-IsExclusive s pid rest _ _ e h x
  Step-IsExclusive s s' (others t) x = x

  -- A sleep lock and a priority lock hold one process at a time. Either nobody is inside and the lock is
  -- free, or exactly one process is inside and the lock holds its pid: if this is so in a state, it is
  -- so after any steps that the processes make from there, in any order.
  pub Steps-IsExclusive :
      (s s' : System F) → Steps s s' → IsExclusive s.lock s.inside → IsExclusive s'.lock s'.inside
  Steps-IsExclusive s s' none_yet x = x
  Steps-IsExclusive s s' (one_more {u} ss st) x =
      Step-IsExclusive u s' st (Steps-IsExclusive s u ss x)
