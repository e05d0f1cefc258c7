-- ===== src/Proc/Schedule/Policy.antt =====
-- How `scheduler` joins the three queues, and what `aging` changes in its choice.
use os_lab.Base.{
  Option-cases, get_elem?, get_elem?-modify_self, get_elem?-modify_ne, ℕ, ◌≡◌, ◌∙◌, ◌≢◌, ◌⊎◌, inl,
  inr, Option, none, some, some-injective, arith,
}
use os_lab.Base.Int.{ℤ, to_int, gtb_ℤ}
use os_lab.Proc.{runnable, running, Proc, ProcTable, rr, lcfs, bjf, min_int, max_int}
use os_lab.Proc.Float.{FloatOps, FloatLaws}
use os_lab.Proc.Schedule.{
  calculate_rank, waited, round_robin, last_come_first_serve, best_job_first, scheduler_choice,
  scheduler_round,
}
use os_lab.Proc.Schedule.Choice.{
  NoneBeats, IsBest, IsBest-IsReady, Picks, round_robin-Picks, last_come_first_serve-Picks,
  best_job_first-Picks,
}

module _ {F : Type 0} (fl : FloatOps F) (t : ProcTable F) where
  -- Queue by queue: a lower queue is served only if no higher one has a process to run.
  pub data Follows : Option ℕ → Type 0 where
    from_rr : {i : ℕ} → IsBest rr (waited t) gtb_ℤ t min_int i → Follows (some i)
    from_lcfs :
        {i : ℕ}
        → NoneBeats rr (waited t) gtb_ℤ t min_int
        → IsBest lcfs (λ p. p.creation_time) gtb_ℤ t min_int i
        → Follows (some i)
    from_bjf :
        {i : ℕ}
        → NoneBeats rr (waited t) gtb_ℤ t min_int
        → NoneBeats lcfs (λ p. p.creation_time) gtb_ℤ t min_int
        → IsBest bjf (calculate_rank fl) fl.lt t (fl.of_int max_int) i
        → Follows (some i)
    idle :
        NoneBeats rr (waited t) gtb_ℤ t min_int
        → NoneBeats lcfs (λ p. p.creation_time) gtb_ℤ t min_int
        → NoneBeats bjf (calculate_rank fl) fl.lt t (fl.of_int max_int)
        → Follows none

  choice_of : Option ℕ → Option ℕ → Option ℕ → Option ℕ
  choice_of (some i) b c = some i
  choice_of none (some i) c = some i
  choice_of none none c = c

  choice-Follows :
      (a b c : Option ℕ)
      → Picks rr (waited t) gtb_ℤ t min_int a
      → Picks lcfs (λ p. p.creation_time) gtb_ℤ t min_int b
      → Picks bjf (calculate_rank fl) fl.lt t (fl.of_int max_int) c
      → Follows (choice_of a b c)
  unfolding choice_of
  choice-Follows (some i) b c p q r = from_rr p
  choice-Follows none (some i) c p q r = from_lcfs p q
  choice-Follows none none (some i) p q r = from_bjf p q r
  choice-Follows none none none p q r = idle p q r

  scheduler_choice_lem :
      scheduler_choice fl t
      ≡ choice_of (round_robin t) (last_come_first_serve t) (best_job_first fl t)
  unfolding scheduler_choice choice_of
  scheduler_choice_lem = ground arith

  -- `scheduler` serves the best process of queue RR; if `round_robin` finds none, the best of LCFS;
  -- if that finds none either, the best of BJF; and it goes round again only if all three find none.
  -- The order of `float` is transitive and irreflexive.
  pub scheduler_choice-Follows : FloatLaws fl → Follows (scheduler_choice fl t)
  scheduler_choice-Follows laws = rw scheduler_choice_lem (
      choice-Follows (round_robin t) (last_come_first_serve t) (best_job_first fl t)
        (round_robin-Picks t) (last_come_first_serve-Picks t) (best_job_first-Picks t fl laws))

  -- A queue that `scheduler` serves.
  abbrev pub Served : ℤ → Type 0
  Served q = (q ≡ rr) ⊎ ((q ≡ lcfs) ⊎ (q ≡ bjf))

  Follows-Served :
      {out : Option ℕ} (i : ℕ) (p : Proc F)
      → Follows out
      → out ≡ some i
      → get_elem? t.procs i ≡ some p
      → (p.state ≡ runnable) × Served p.que_id
  Follows-Served i p (from_rr {i = k} b) e g =
      let r = IsBest-IsReady rr (waited t) gtb_ℤ t min_int k p b (rw (some-injective _ _ e) g) in
      (r.is_runnable, inl r.in_queue)
  Follows-Served i p (from_lcfs {i = k} n b) e g =
      let r =
        IsBest-IsReady lcfs (λ p. p.creation_time) gtb_ℤ t min_int k p b
          (rw (some-injective _ _ e) g) in
      (r.is_runnable, inr (inl r.in_queue))
  Follows-Served i p (from_bjf {i = k} n m b) e g =
      let r =
        IsBest-IsReady bjf (calculate_rank fl) fl.lt t (fl.of_int max_int) k p b
          (rw (some-injective _ _ e) g) in
      (r.is_runnable, inr (inr r.in_queue))
  Follows-Served i p (idle _ _ _) e g = cc

  -- A process that `scheduler` switches to was RUNNABLE in queue RR, LCFS or BJF, and is then RUNNING
  -- with its wait counted from now and its cycles one tenth up; any other entry `j` of the
  -- table is unchanged. The order of `float` is transitive and irreflexive.
  pub scheduler_round_lem :
      FloatLaws fl
      → (i : ℕ) (p : Proc F) → get_elem? t.procs i ≡ some p
      → (scheduler_round fl t).0 ≡ some i
      → (j : ℕ) → i ≢ j
      → let t' = (scheduler_round fl t).1 in
        (p.state ≡ runnable)
        × Served p.que_id
        × (get_elem? t'.procs i
            ≡ some (record p {
              state = running;
              preemption_time = to_int t.ticks;
              executed_cycle = fl.add p.executed_cycle fl.tenth;
            }))
        × (get_elem? t'.procs j ≡ get_elem? t.procs j)
  unfolding scheduler_round
  scheduler_round_lem laws i p g = elim (Option-cases (scheduler_choice fl t)) [
    | inl e ↦ rw (e, scheduler_round) (λ h j ne. cc)
    | inr (k, e) ↦
        rw (e, scheduler_round)
          λ h j ne.
            let ki : k ≡ i = some-injective _ _ h in
            let r = Follows-Served i p (scheduler_choice-Follows laws) (e ∙ h) g in
            rw ki (
              r.0,
              r.1,
              get_elem?-modify_self t.procs i _ p g,
              get_elem?-modify_ne t.procs i j _ ne,
            )
  ]
