-- ===== src/Proc/Schedule/Aging.antt =====
-- What `aging` does for a process that has waited long, and what the scheduler never serves.
use os_lab.Base.{
  get_elem?, get_elem?-map, ℕ, ◌≡◌, refl, sym, ap, ◌∙◌, true, false, false≢true, Option, none, some,
  arith,
}
use os_lab.Base.Int.{to_int, gtb_ℤ, eqb_ℤ_iff, gtb_ℤ_trans}
use os_lab.Proc.{runnable, Proc, ProcTable, rr, aging_thrs, min_int}
use os_lab.Proc.Schedule.{waited, round_robin, age, aging}
use os_lab.Proc.Schedule.Choice.{IsReady, Picks, round_robin-Picks}

module _ {F : Type 0} (t : ProcTable F) where
  -- A RUNNABLE process that has waited more than AGING_THRS ticks is moved to queue RR.
  get_elem?-aging :
      (i : ℕ) (p : Proc F)
      → get_elem? t.procs i ≡ some p
      → p.state ≡ runnable
      → gtb_ℤ (waited t p) aging_thrs ≡ true
      → get_elem? (aging t).procs i ≡ some (record p { que_id = rr })
  unfolding aging
  get_elem?-aging i p g r w =
      get_elem?-map (age (to_int t.ticks)) t.procs i p g
      ∙ ap some (ground (arith, eqb_ℤ_iff p.que_id rr))

  -- No process waits for ever behind the other queues: once `aging` has run, if some RUNNABLE process
  -- has waited more than AGING_THRS ticks, then `round_robin` finds a process of queue RR that has
  -- waited at least as long.
  pub aging_serves :
      (i : ℕ) (p : Proc F)
      → get_elem? t.procs i ≡ some p
      → p.state ≡ runnable
      → gtb_ℤ (waited t p) aging_thrs ≡ true
      → (k : ℕ) × (q : Proc F) × (round_robin (aging t) ≡ some k)
        × (get_elem? (aging t).procs k ≡ some q)
        × IsReady rr q
        × (gtb_ℤ (waited t p) (waited t q) ≡ false)
  unfolding aging
  aging_serves i p g r w = served (round_robin (aging t)) refl (round_robin-Picks (aging t))
    where
      moved : get_elem? (aging t).procs i ≡ some (record p { que_id = rr })
      moved = get_elem?-aging i p g r w

      now_ready : IsReady rr (record p { que_id = rr })
      now_ready = record { is_runnable = r; in_queue = refl }

      served :
          (out : Option ℕ)
          → round_robin (aging t) ≡ out
          → Picks rr (waited (aging t)) gtb_ℤ (aging t) min_int out
          → (k : ℕ) × (q : Proc F) × (round_robin (aging t) ≡ some k)
            × (get_elem? (aging t).procs k ≡ some q)
            × IsReady rr q
            × (gtb_ℤ (waited t p) (waited t q) ≡ false)
      served none e none_beats = absurd (
          false≢true (
            sym (none_beats i _ moved now_ready)
            ∙ gtb_ℤ_trans (waited t p) aging_thrs min_int w refl))
      served (some k) e b = (k, b.chosen, e, b.found, b.is_ready, b.unbeaten i _ moved now_ready)
