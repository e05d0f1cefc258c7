-- ===== src/Proc/Schedule/Choice.antt =====
-- What the three loops of proc.c choose.
use os_lab.Base.{
  get_elem?, ℕ, ◌≡◌, sym, ◌∙◌, subst, inl, inr, Bool, true, false, Option, none, some,
  some-injective, arith,
}
use os_lab.Base.Int.{ℤ, gtb_ℤ, eqb_ℤ_iff, gtb_ℤ_trans, gtb_ℤ_irrefl}
use os_lab.Base.Scan.{scan}
use os_lab.Base.Scan.Best.{Chosen, scan-Chosen}
use os_lab.Proc.{ProcState, runnable, state_eq, Proc, ProcTable, rr, lcfs, bjf, min_int, max_int}
use os_lab.Proc.Float.{FloatOps, FloatLaws}
use os_lab.Proc.Schedule.{
  calculate_rank, ready, waited, round_robin, last_come_first_serve, best_job_first,
}

-- A process that may run from the queue `q`.
pub record IsReady {F : Type 0} (q : ℤ) (p : Proc F) : Type 0 where
  pub is_runnable : p.state ≡ runnable
  pub in_queue : p.que_id ≡ q

pub state_eq_iff : (s t : ProcState) → state_eq s t ≡ true → s ≡ t
state_eq_iff s t h = ground arith

pub ready→IsReady : {F : Type 0} (q : ℤ) (p : Proc F) → ready q p ≡ true → IsReady q p
ready→IsReady q p h = ground (arith, eqb_ℤ_iff p.que_id q, state_eq_iff p.state runnable)

pub IsReady→ready : {F : Type 0} (q : ℤ) (p : Proc F) → IsReady q p → ready q p ≡ true
IsReady→ready q p r = ground (arith, eqb_ℤ_iff p.que_id q)

module _ {F K : Type 0} (q : ℤ) (key : Proc F → K) (beats : K → K → Bool) (t : ProcTable F) where
  -- No process of the queue `q` has a key that beats `limit`.
  abbrev pub NoneBeats : K → Type 0
  NoneBeats limit =
      (j : ℕ) (p : Proc F)
      → get_elem? t.procs j ≡ some p
      → IsReady q p
      → beats (key p) limit ≡ false

  -- `i` is a process of the queue `q` whose key beats `limit`, and no process of the queue beats it.
  pub record IsBest (limit : K) (i : ℕ) : Type 0 where
    pub chosen : Proc F
    pub found : get_elem? t.procs i ≡ some chosen
    pub is_ready : IsReady q chosen
    pub over : beats (key chosen) limit ≡ true
    pub unbeaten : NoneBeats (key chosen)

  pub IsBest-IsReady :
      (limit : K) (i : ℕ) (p : Proc F) → IsBest limit i → get_elem? t.procs i ≡ some p → IsReady q p
  IsBest-IsReady limit i p b g = subst (IsReady q) (some-injective _ _ (sym b.found ∙ g)) b.is_ready

  -- The outcome of a loop over the queue `q` with the sentinel `limit`.
  abbrev pub Picks : K → Option ℕ → Type 0
  Picks limit none = NoneBeats limit
  Picks limit (some i) = IsBest limit i

  module _ (trans : (a b c : K) → beats a b ≡ true → beats b c ≡ true → beats a c ≡ true)
      (irrefl : (a : K) → beats a a ≡ false) where
    Picks-of_Chosen :
        (limit : K) (out : Option ℕ)
        → Chosen (ready q) key beats trans irrefl t.procs 0 limit none out
        → Picks limit out
    Picks-of_Chosen limit none (inl (e, u)) = λ j p g r. u j p g (IsReady→ready q p r)
    Picks-of_Chosen limit (some i) (inl (e, u)) = cc
    Picks-of_Chosen limit none (inr (j, p, e, g, el, b, u)) = cc
    Picks-of_Chosen limit (some i) (inr (j, p, e, g, el, b, u)) = record {
      chosen = p;
      found = let at : i ≡ j = ground arith in rw at g;
      is_ready = ready→IsReady q p el;
      over = b;
      unbeaten = λ k r gk rk. u k r gk (IsReady→ready q r rk);
    }

    pub scan-Picks : (limit : K) → Picks limit (scan (ready q) key beats t.procs 0 limit none)
    scan-Picks limit =
        Picks-of_Chosen limit _ (scan-Chosen (ready q) key beats trans irrefl t.procs 0 limit none)

module _ {F : Type 0} (t : ProcTable F) where
  -- `round_robin` returns a RUNNABLE process of queue RR that has waited more than MIN_INT and that
  -- no RUNNABLE process of that queue has waited longer than; it returns 0 only if no RUNNABLE
  -- process of queue RR has waited more than MIN_INT.
  pub round_robin-Picks : Picks rr (waited t) gtb_ℤ t min_int (round_robin t)
  unfolding round_robin
  round_robin-Picks = scan-Picks rr (waited t) gtb_ℤ t gtb_ℤ_trans gtb_ℤ_irrefl min_int

  -- `last_come_first_serve` returns a RUNNABLE process of queue LCFS that was created after MIN_INT
  -- and that no RUNNABLE process of that queue was created after; it returns 0 only if no RUNNABLE
  -- process of queue LCFS was created after MIN_INT.
  pub last_come_first_serve-Picks :
      Picks lcfs (λ p. p.creation_time) gtb_ℤ t min_int (last_come_first_serve t)
  unfolding last_come_first_serve
  last_come_first_serve-Picks =
      scan-Picks lcfs (λ p. p.creation_time) gtb_ℤ t gtb_ℤ_trans gtb_ℤ_irrefl min_int

  -- `best_job_first` returns a RUNNABLE process of queue BJF with a rank below MAX_INT, such that no
  -- RUNNABLE process of that queue has a lower rank; it returns 0 only if no RUNNABLE process of
  -- queue BJF has a rank below MAX_INT. The order of `float` is transitive and irreflexive.
  pub best_job_first-Picks :
      (fl : FloatOps F)
      → FloatLaws fl
      → Picks bjf (calculate_rank fl) fl.lt t (fl.of_int max_int) (best_job_first fl t)
  unfolding best_job_first
  best_job_first-Picks fl laws =
      scan-Picks bjf (calculate_rank fl) fl.lt t laws.lt_trans laws.lt_irrefl (fl.of_int max_int)
