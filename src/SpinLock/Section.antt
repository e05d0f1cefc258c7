-- ===== src/SpinLock/Section.antt =====
-- A section between `acquire` and `release`.
use os_lab.Base.{
  ℕ, suc, ◌+◌, ◌^◌, ◌<◌, ◌≡◌, refl, ap, ◌∙◌, Bool, true, false, ◌&&◌, not, false≢true, none, some,
  arith,
}
use os_lab.Base.Outcome.{
  ok, panic, ◌>>=◌, ◌>>◌, panic_if, Returns, Returns-bind, Returns-imp, panic_after,
}
use os_lab.SpinLock.{
  Cpu, pushcli, popcli, Spinlock, is_cpu, initlock, holding, acquire_start, acquire_try, release,
}
use os_lab.SpinLock.Nesting.{IsNested, pushcli-IsNested, popcli-IsNested}

-- The lock while the CPU `id` holds it.
abbrev pub taken_by : ℕ → Spinlock
taken_by id = record { locked = true; cpu = some id }

module _ (id : ℕ) (before : Bool) (d : ℕ) (lk : Spinlock) (c : Cpu) where
  -- The answer of `holding`, which leaves the nesting as it was.
  abbrev Held : Bool × Cpu → Type 0
  Held (held, c') = (held ≡ (lk.locked && is_cpu id lk.cpu)) × IsNested before d c'

  pub holding-Held : IsNested before d c → d + 1 < 2 ^ 31 → Returns Held (holding id lk c)
  unfolding holding
  holding-Held v lt =
      Returns-bind (IsNested before d) Held (popcli (pushcli c))
        (λ c'. ok (lk.locked && is_cpu id lk.cpu, c'))
        (popcli-IsNested before d (pushcli c) (pushcli-IsNested before d c v lt) lt)
        (λ c' w. (refl, w))

module _ (id : ℕ) (before : Bool) (d : ℕ) (lk : Spinlock) (c : Cpu) where
  -- `acquire` up to its loop: it panics if this CPU holds the lock, and is one level deeper otherwise.
  acquire_start_lem :
      IsNested before d c
      → d + 2 < 2 ^ 31
      → lk.locked ≡ false
      → Returns (IsNested before (suc d)) (acquire_start id lk c)
  unfolding acquire_start
  acquire_start_lem v lt free =
      Returns-bind (Held id before (suc d) lk (pushcli c)) (IsNested before (suc d))
        (holding id lk (pushcli c)) (λ (held, c'). panic_if held >> ok c')
        (holding-Held id before (suc d) lk (pushcli c) (pushcli-IsNested before d c v (omega arith))
          (omega arith))
        (λ (held, c') (e, w). rw (e ∙ ap (λ b. b && is_cpu id lk.cpu) free) w)

  -- What `release` leaves.
  abbrev pub Released : Spinlock × Cpu → Type 0
  Released (lk', c') = (lk' ≡ initlock) × IsNested before d c'

  release_rest :
      (held : Bool) (c' : Cpu)
      → held ≡ true
      → IsNested before (suc d) c'
      → d + 2 < 2 ^ 31
      → Returns Released (
          panic_if (not held)
          >> (popcli c' >>= λ c''. ok (record { locked = false; cpu = none }, c'')))
  unfolding initlock
  release_rest true c' e w lt =
      Returns-bind (IsNested before d) Released (popcli c')
        (λ c''. ok (record { locked = false; cpu = none }, c''))
        (popcli-IsNested before d c' w (omega arith)) (λ c'' u. (refl, u))
  release_rest false c' e w lt = absurd (false≢true e)

  release_lem :
      IsNested before (suc d) c
      → d + 2 < 2 ^ 31
      → lk.locked && is_cpu id lk.cpu ≡ true
      → Returns Released (release id lk c)
  unfolding release
  release_lem v lt mine =
      Returns-bind (Held id before (suc d) lk c) Released (holding id lk c)
        (λ (held, c').
          panic_if (not held)
          >> (popcli c' >>= λ c''. ok (record { locked = false; cpu = none }, c'')))
        (holding-Held id before (suc d) lk c v (omega arith))
        (λ (held, c') (e, w). release_rest held c' (e ∙ mine) w lt)

  acquire_again :
      IsNested before d c
      → d + 2 < 2 ^ 31
      → lk.locked && is_cpu id lk.cpu ≡ true
      → acquire_start id lk c ≡ panic
  unfolding acquire_start
  acquire_again v lt mine =
      panic_after (Held id before (suc d) lk (pushcli c)) (holding id lk (pushcli c))
        (λ (held, c'). panic_if held >> ok c')
        (holding-Held id before (suc d) lk (pushcli c) (pushcli-IsNested before d c v (omega arith))
          (omega arith))
        (λ (held, c') (e, w). rw (e ∙ mine) refl)

module _ (id : ℕ) (before : Bool) (d : ℕ) (lk : Spinlock) (c : Cpu) where
  -- The CPU between `acquire` and `release`.
  pub record IsInside (c' : Cpu) : Type 0 where
    pub interrupts_off : c'.interrupts ≡ false
    pub no_other : (other : ℕ) → acquire_try other (taken_by id) ≡ none
    pub not_again : acquire_start id (taken_by id) c' ≡ panic
    pub leaves : Returns (Released id before d (taken_by id) c') (release id (taken_by id) c')

  -- A section under a lock that is free. `acquire` does not panic and takes the lock at its first `xchg`.
  -- Inside, interrupts are off, no CPU can take the lock, and another `acquire` by this CPU panics.
  -- `release` does not panic, and leaves the lock free and the CPU's interrupts as before `acquire`. The CPU
  -- is nested to a depth `d` with `d + 3 < 2 ^ 31`.
  pub acquire-IsInside :
      IsNested before d c
      → d + 3 < 2 ^ 31
      → lk.locked ≡ false
      → Returns IsInside (acquire_start id lk c) × (acquire_try id lk ≡ some (taken_by id))
  unfolding acquire_try
  acquire-IsInside v lt free = (
    Returns-imp (IsNested before (suc d)) IsInside (acquire_start id lk c)
        (acquire_start_lem id before d lk c v (omega arith) free)
        (λ c' w. record {
          interrupts_off = (w.inside (omega arith)).0;
          no_other = λ other. refl;
          not_again =
              acquire_again id before (suc d) (taken_by id) c' w (omega arith) (ground arith);
          leaves = release_lem id before d (taken_by id) c' w (omega arith) (ground arith);
        }),
    rw (free, acquire_try) refl,
  )
