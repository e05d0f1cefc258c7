-- ===== src/Proc/Wakeup/Kill.antt =====
-- What `kill` does to the table.
use os_lab.Base.{
  if◌then◌else◌, Bool-cases, get_elem?, set, ℕ, zero, suc, ◌<◌, ◌≡◌, refl, sym, ap, ◌∙◌, ◌≢◌, inl,
  inr, Bool, true, false, false≢true, some, some-injective, List, [], ◌∷◌, arith,
}
use os_lab.Proc.Schedule.Choice.{state_eq_iff}
use os_lab.Base.Int.{ℤ, pos, negsuc, eqb_ℤ, eqb_ℤ_iff}
use os_lab.Proc.{sleeping, runnable, state_eq, Proc, ProcTable}
use os_lab.Proc.Wakeup.{mark_killed, kill_loop, kill}

-- What becomes of a process that is killed.
pub record IsKilled {F : Type 0} (p q : Proc F) : Type 0 where
  pub marked : q ≡ record p { killed = true; state = q.state }
  pub woken : p.state ≡ sleeping → q.state ≡ runnable
  pub kept : p.state ≢ sleeping → q.state ≡ p.state

mark_killed-IsKilled : {F : Type 0} (p : Proc F) → IsKilled p (mark_killed p)
unfolding mark_killed
mark_killed-IsKilled p = record {
  marked = refl;
  woken = λ e. ap (λ s. if state_eq s sleeping then runnable else s) e;
  kept = λ ne. elim (Bool-cases (state_eq p.state sleeping)) [
    | inl s ↦ absurd (ne (state_eq_iff p.state sleeping s))
    | inr n ↦ rw n refl
  ];
}

module _ {F : Type 0} (pid : ℤ) where
  abbrev NoPid : List (Proc F) → Type 0
  NoPid ps = (i : ℕ) (p : Proc F) → get_elem? ps i ≡ some p → p.pid ≢ pid

  -- The first process with the pid, at index `i`.
  pub record IsFirst (ps : List (Proc F)) (i : ℕ) (p : Proc F) : Type 0 where
    pub found : get_elem? ps i ≡ some p
    pub same_pid : p.pid ≡ pid
    pub first : (j : ℕ) (q : Proc F) → get_elem? ps j ≡ some q → j < i → q.pid ≢ pid

  -- The table and the answer of the loop.
  pub data Loop (ps : List (Proc F)) : List (Proc F) × Bool → Type 0 where
    missed : NoPid ps → Loop ps (ps, false)
    hit : (i : ℕ) (p q : Proc F) → IsFirst ps i p → IsKilled p q → Loop ps (set ps i q, true)

  NoPid-cons : (p : Proc F) (ps : List (Proc F)) → p.pid ≢ pid → NoPid ps → NoPid (p ∷ ps)
  NoPid-cons p ps ne n zero q e = λ h. ne (ap (λ (r : Proc F). r.pid) (some-injective _ _ e) ∙ h)
  NoPid-cons p ps ne n (suc i) q e = n i q e

  IsFirst-cons :
      (p : Proc F) (ps : List (Proc F)) (i : ℕ) (q : Proc F)
      → p.pid ≢ pid
      → IsFirst ps i q
      → IsFirst (p ∷ ps) (suc i) q
  IsFirst-cons p ps i q ne f = record { found = f.found; same_pid = f.same_pid; first = before }
    where
      before : (j : ℕ) (r : Proc F) → get_elem? (p ∷ ps) j ≡ some r → j < suc i → r.pid ≢ pid
      before zero r e lt = λ h. ne (ap (λ (r : Proc F). r.pid) (some-injective _ _ e) ∙ h)
      before (suc j) r e lt = f.first j r e (omega arith)

  Loop-cons :
      (p : Proc F) (ps : List (Proc F)) (r : List (Proc F) × Bool)
      → p.pid ≢ pid
      → Loop ps r
      → Loop (p ∷ ps) (p ∷ r.0, r.1)
  Loop-cons p ps r ne (missed n) = missed (NoPid-cons p ps ne n)
  Loop-cons p ps r ne (hit i q q' f k) = hit (suc i) q q' (IsFirst-cons p ps i q ne f) k

  IsFirst-head : (p : Proc F) (ps : List (Proc F)) → p.pid ≡ pid → IsFirst (p ∷ ps) 0 p
  IsFirst-head p ps e = record {
    found = refl;
    same_pid = e;
    first = λ j q g lt. absurd (omega arith);
  }

  kill_loop-Loop : (ps : List (Proc F)) → Loop ps (kill_loop ps pid)
  unfolding kill_loop
  kill_loop-Loop [] = missed (λ i p e. cc)
  kill_loop-Loop (p ∷ ps) = elim (Bool-cases (eqb_ℤ p.pid pid)) [
    | inl same ↦
        rw (same, kill_loop)
          (hit 0 p (mark_killed p) (IsFirst-head p ps ((eqb_ℤ_iff p.pid pid).0 same))
            (mark_killed-IsKilled p))
    | inr other ↦
        rw (other, kill_loop)
          (Loop-cons p ps (kill_loop ps pid)
            (λ e. false≢true (sym other ∙ (eqb_ℤ_iff p.pid pid).1 e)) (kill_loop-Loop ps))
  ]

  -- The table and the answer of `kill`.
  pub data Kills (t : ProcTable F) : ProcTable F × ℤ → Type 0 where
    missed : NoPid t.procs → Kills t (t, negsuc 0)
    hit :
        (i : ℕ) (p q : Proc F)
        → IsFirst t.procs i p
        → IsKilled p q
        → Kills t (record t { procs = set t.procs i q }, pos 0)

  Kills-of_Loop :
      (t : ProcTable F) (r : List (Proc F) × Bool)
      → Loop t.procs r
      → Kills t (record t { procs = r.0 }, if r.1 then pos 0 else negsuc 0)
  Kills-of_Loop t r (missed n) = missed n
  Kills-of_Loop t r (hit i p q f k) = hit i p q f k

  -- `kill(pid)` answers -1 and changes nothing if no entry of the table has the pid; otherwise it
  -- answers 0 and marks the first entry with the pid, and that entry only, as killed, making it
  -- RUNNABLE if it sleeps and leaving all else of it.
  pub kill-Kills : (t : ProcTable F) → Kills t (kill t pid)
  unfolding kill
  kill-Kills t = Kills-of_Loop t (kill_loop t.procs pid) (kill_loop-Loop t.procs)
