-- ===== src/Proc/Tuning/Laws.antt =====
-- Which entry the calls change.
use os_lab.Base.{
  ltb, length, get_elem?, get_elem?-modify_self, get_elem?-modify_ne, lt_of_get_elem?, ℕ, ◌≡◌, sym,
  ◌∙◌, ◌≢◌, true, false, false≢true, Option, none, some, arith,
}
use os_lab.Base.Int.{ℤ, pos, eqb_ℤ, eqb_ℤ_iff}
use os_lab.Proc.{Proc, ProcTable}
use os_lab.Base.Find.{find_index, Found, missing, found, find_index-Found}
use os_lab.Proc.Float.{FloatOps}
use os_lab.Proc.Tuning.{
  find_proc, Written, returns, past_table, write_at, sys_change_queue, Ratios, set_ratios,
  sys_bjf_validation_process,
}

module _ {F : Type 0} (t : ProcTable F) (pid : ℤ) (f : Proc F → Proc F) where
  -- What a call writes that looks up a pid.
  pub data Tunes : Written F → Type 0 where
    tunes :
        (i : ℕ) (p : Proc F) {t' : ProcTable F}
        → get_elem? t.procs i ≡ some p
        → p.pid ≡ pid
        → get_elem? t'.procs i ≡ some (f p)
        → ((j : ℕ) → i ≢ j → get_elem? t'.procs j ≡ get_elem? t.procs j)
        → Tunes (returns (pos 0) t')
    strays : ((j : ℕ) (q : Proc F) → get_elem? t.procs j ≡ some q → q.pid ≢ pid) → Tunes past_table

  Tunes-of_Found :
      (o : Option ℕ)
      → Found (λ (p : Proc F). eqb_ℤ p.pid pid) t.procs o
      → Tunes (write_at t (elim o [ none ↦ length t.procs | some i ↦ i ]) f)
  unfolding write_at
  Tunes-of_Found o (missing n) =
      let past : ltb (length t.procs) (length t.procs) ≡ false = ground arith in
      rw (past, write_at) (strays λ j q g e. false≢true (sym (n j q g) ∙ (eqb_ℤ_iff q.pid pid).1 e))
  Tunes-of_Found o (found i p g same before) =
      let within : ltb i (length t.procs) ≡ true = ground (arith, lt_of_get_elem? t.procs i p g) in
      rw (within, write_at)
        (tunes i p g ((eqb_ℤ_iff p.pid pid).0 same) (get_elem?-modify_self t.procs i f p g)
          (λ j ne. get_elem?-modify_ne t.procs i j f ne))

  write_at-Tunes : Tunes (write_at t (find_proc t.procs pid) f)
  unfolding find_proc
  write_at-Tunes =
      Tunes-of_Found (find_index (λ p. eqb_ℤ p.pid pid) t.procs)
        (find_index-Found (λ p. eqb_ℤ p.pid pid) t.procs)

module _ {F : Type 0} (fl : FloatOps F) (t : ProcTable F) (pid : ℤ) where
  -- `sys_change_queue` sets the queue of a process with the pid, and `sys_bjf_validation_process`
  -- its four ratios, each to the number given for it, as a `float`; they change nothing else of it,
  -- answer 0 and change no other entry. They write past the table only if no entry has the pid.
  pub sys_change_queue-Tunes :
      (que_id : ℤ) (r : Ratios)
      → Tunes t pid
          (λ p. record p { que_id = que_id })
          (sys_change_queue t (some pid) (some que_id))
        × Tunes t pid
            (λ p. record p {
              priority_ratio = fl.of_int r.priority;
              creation_time_ratio = fl.of_int r.creation_time;
              executed_cycle_ratio = fl.of_int r.exec_cycle;
              process_size_ratio = fl.of_int r.size;
            })
            (sys_bjf_validation_process fl t pid r)
  unfolding sys_change_queue sys_bjf_validation_process set_ratios
  sys_change_queue-Tunes que_id r = (
    write_at-Tunes t pid (λ p. record p { que_id = que_id }),
    write_at-Tunes t pid (set_ratios fl r),
  )
