-- ===== src/Proc/Life/Numbers.antt =====
-- The pids that `fork` gives out.
use os_lab.Base.{
  get_elem?, ℕ, ◌+◌, ◌^◌, ◌<◌, ◌≡◌, sym, ap, ◌∙◌, subst, ◌≢◌, ◌⊎◌, inl, inr, true, false,
  false≢true, Option, some, some-injective, arith, ℕ_discrete,
}
use os_lab.Base.Int.{ℤ, pos, ◌+ℤ◌, ltb_ℤ, to_int, to_uint, gtb_ℤ_irrefl}
use os_lab.Proc.{Proc, ProcTable}
use os_lab.Proc.Float.{FloatOps}
use os_lab.Proc.Life.{is_unused, fork}
use os_lab.Proc.Life.Fork.{Answer, Places, Forks, full, no_memory, forked, fork-Forks}

module _ {F : Type 0} (t : ProcTable F) where
  -- Entries in use have pids below `nextpid`, each its own.
  pub record IsNumbered : Type 0 where
    pub below :
        (i : ℕ) (p : Proc F)
        → get_elem? t.procs i ≡ some p
        → is_unused p ≡ false
        → ltb_ℤ p.pid t.nextpid ≡ true
    pub own :
        (i j : ℕ) (p q : Proc F)
        → get_elem? t.procs i ≡ some p
        → get_elem? t.procs j ≡ some q
        → is_unused p ≡ false
        → is_unused q ≡ false
        → p.pid ≡ q.pid
        → i ≡ j

next_pid_lem : (n : ℕ) → n + 1 < 2 ^ 31 → to_int (to_uint (pos n +ℤ pos 1)) ≡ pos (n + 1)
unfolding ◌+ℤ◌
next_pid_lem n lt = ground arith

ltb_ℤ-suc : (a : ℤ) (n : ℕ) → ltb_ℤ a (pos n) ≡ true → ltb_ℤ a (pos (n + 1)) ≡ true
ltb_ℤ-suc a n h = ground arith

-- The table with a new entry that is UNUSED or has the next pid.
module _ {F : Type 0} (t t' : ProcTable F) (i n : ℕ) (q : Proc F) where
  module _ (v : IsNumbered t) (h : Places t i q t') where
    old_below :
        (j : ℕ) (p : Proc F)
        → i ≢ j
        → get_elem? t'.procs j ≡ some p
        → is_unused p ≡ false
        → ltb_ℤ p.pid t.nextpid ≡ true
    old_below j p ne g u = v.below j p (sym (h.others j ne) ∙ g) u

    not_below : (a : ℤ) → a ≡ t.nextpid → ¬ (ltb_ℤ a t.nextpid ≡ true)
    not_below a e b =
        false≢true (sym (gtb_ℤ_irrefl t.nextpid) ∙ subst (λ z. ltb_ℤ z t.nextpid ≡ true) e b)

    module _ (new : (is_unused q ≡ true) ⊎ (q.pid ≡ t.nextpid)) where
      new_pid :
          (p : Proc F) → get_elem? t'.procs i ≡ some p → is_unused p ≡ false → p.pid ≡ t.nextpid
      new_pid p g u =
          let same : q ≡ p = some-injective _ _ (sym h.here ∙ g) in
          elim new [
            | inl free ↦
                absurd (false≢true (sym u ∙ sym (ap (λ (r : Proc F). is_unused r) same) ∙ free))
            | inr e ↦ sym (ap (λ (r : Proc F). r.pid) same) ∙ e
          ]

      own_kept :
          (j k : ℕ) (p r : Proc F)
          → get_elem? t'.procs j ≡ some p
          → get_elem? t'.procs k ≡ some r
          → is_unused p ≡ false
          → is_unused r ≡ false
          → p.pid ≡ r.pid
          → j ≡ k
      own_kept j k p r g g' u u' e = elim (ℕ_discrete i j) [
        | yes ij ↦ elim (ℕ_discrete i k) [
          | yes ik ↦ sym ij ∙ ik
          | no nk ↦
              let top = new_pid p (ap (get_elem? t'.procs) ij ∙ g) u in
              let under = old_below k r nk g' u' in absurd (not_below r.pid (sym e ∙ top) under)
        ]
        | no nj ↦ elim (ℕ_discrete i k) [
          | yes ik ↦
              let top = new_pid r (ap (get_elem? t'.procs) ik ∙ g') u' in
              let under = old_below j p nj g u in absurd (not_below p.pid (e ∙ top) under)
          | no nk ↦ v.own j k p r (sym (h.others j nj) ∙ g) (sym (h.others k nk) ∙ g') u u' e
        ]
      ]

      below_kept :
          t.nextpid ≡ pos n
          → n + 1 < 2 ^ 31
          → (j : ℕ) (p : Proc F) → get_elem? t'.procs j ≡ some p
          → is_unused p ≡ false
          → ltb_ℤ p.pid t'.nextpid ≡ true
      below_kept e lt j p g u = elim (ℕ_discrete i j) [
        | yes ij ↦
            let top = new_pid p (ap (get_elem? t'.procs) ij ∙ g) u ∙ e in
            rw (next, top) (ground arith)
        | no nj ↦
            let under = subst (λ z. ltb_ℤ p.pid z ≡ true) e (old_below j p nj g u) in
            rw next (ltb_ℤ-suc p.pid n under)
      ]
        where
          next : t'.nextpid ≡ pos (n + 1)
          next = h.next ∙ ap (λ z. to_int (to_uint (z +ℤ pos 1))) e ∙ next_pid_lem n lt

      IsNumbered-Places : t.nextpid ≡ pos n → n + 1 < 2 ^ 31 → IsNumbered t'
      IsNumbered-Places e lt = record { below = below_kept e lt; own = own_kept }

module _ {F : Type 0} (fl : FloatOps F) (t : ProcTable F) where
  -- `fork` keeps the numbering: the processes in use have pids below `nextpid`, each its own. `nextpid` has
  -- not reached the largest `int`.
  pub fork-IsNumbered :
      (cur : ℕ) (parent : Proc F) (stack dir : Option ℕ) (n : ℕ)
      → IsNumbered t
      → t.nextpid ≡ pos n
      → n + 1 < 2 ^ 31
      → IsNumbered (fork fl t cur parent stack dir).2
  fork-IsNumbered cur parent stack dir n v e lt =
      numbered (fork fl t cur parent stack dir) (fork-Forks fl t cur parent stack dir)
    where
      numbered : (r : Answer F) → Forks t cur parent stack dir r → IsNumbered r.2
      numbered r (full h) = v
      numbered r (no_memory i q h u p) = IsNumbered-Places t r.2 i n q v p (inl u) e lt
      numbered r (forked i p q g u c h) = IsNumbered-Places t r.2 i n q v h (inr c.fresh) e lt
