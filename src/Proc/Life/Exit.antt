-- ===== src/Proc/Life/Exit.antt =====
-- What `exit` leaves behind: who the children belong to, and what the parent finds.
use os_lab.Proc.{sleeping, zombie, state_eq, Chan, process, chan_of, Proc, ProcTable}
use os_lab.Base.Outcome.{Returns}
use os_lab.Base.{
  Bool-cases, Option-cases, length, get_elem?, length-map, modify, length-modify,
  get_elem?-modify_self, get_elem?-modify_ne, lt_of_get_elem?, ℕ, ◌≡◌, refl, sym, ap, ◌∙◌, subst,
  ◌≢◌, inl, inr, Bool, true, false, Option, none, some, some-injective, List, [], ◌∷◌, map, arith,
  ℕ_discrete,
}
use os_lab.Proc.Life.Awake.{
  Awake, ExitedAt, sleeper, wakeup1-Awake, modify-Awake, reparent_loop-Awake, wakeup1-ExitedAt,
  reparent_loop_wakes,
}
use os_lab.Proc.Life.{kfree, freevm, points_to, reaped, is_child, reparent_loop, exit, wait}
use os_lab.Proc.Life.Wait.{released, exited_child, wait-Answered, reaped-of_Answered}
use os_lab.Proc.Life.Parents.{
  new_parent, map_parent, some-ne_none, parent_of, parent_at, parent_at-wakeup1, parent_at-modify,
  some_of_parent_at, parent_at-given,
}
use os_lab.Proc.Wakeup.{wake, wakeup1}

module _ {F : Type 0} where
  -- The table that `exit` leaves.
  pub record Exits (t : ProcTable F) (cur : ℕ) (p : Proc F) (t' : ProcTable F) : Type 0 where
    pub abandoned : (j : ℕ) (q : Proc F) → get_elem? t'.procs j ≡ some q → is_child cur q ≡ false
    pub given :
        (j : ℕ) (q : Proc F)
        → get_elem? t'.procs j ≡ some q
        → (r : Proc F) × (get_elem? t.procs j ≡ some r)
          × (q.parent ≡ new_parent t.initproc cur r.parent)
    pub parent_awake :
        (par : ℕ)
        → p.parent ≡ some par
        → (j : ℕ) (q : Proc F) → get_elem? t'.procs j ≡ some q
        → q.state ≡ sleeping
        → q.chan ≢ process par
    pub init_awake :
        (init k : ℕ) (z : Proc F)
        → t.initproc ≡ some init
        → get_elem? t.procs k ≡ some z
        → z.parent ≡ some cur
        → z.state ≡ zombie
        → (j : ℕ) (q : Proc F) → get_elem? t'.procs j ≡ some q
        → q.state ≡ sleeping
        → q.chan ≢ process init
    pub reaps :
        (par : ℕ) (killed : Bool)
        → p.parent ≡ some par
        → par ≢ cur
        → (k : ℕ) × (q : Proc F) × (get_elem? t'.procs k ≡ some q)
          × (exited_child par q ≡ true)
          × (wait t' par killed
              ≡ reaped q.pid
                  (kfree q.kstack ∷ freevm q.pgdir ∷ [])
                  (record t' { procs = modify t'.procs k released }))

  -- The table of `exit`, step by step.
  abbrev closed : ProcTable F → ℕ → List (Proc F)
  closed t cur = modify t.procs cur λ q. record q { ofile = map (λ _. none) q.ofile; cwd = none }

  abbrev given_away : ProcTable F → ℕ → Proc F → List (Proc F)
  given_away t cur p =
      reparent_loop t.initproc cur (length t.procs) 0 (wakeup1 (closed t cur) (chan_of p.parent))

  module _ (t : ProcTable F) (cur : ℕ) (p : Proc F) where
    parent_at-given_away :
        (j : ℕ) → parent_at (given_away t cur p) j ≡ map_parent t.initproc cur (parent_at t.procs j)
    unfolding wakeup1
    parent_at-given_away j =
        parent_at-given t.initproc cur (length t.procs) j
          (wakeup1 (closed t cur) (chan_of p.parent))
          (sym (
            length-map (closed t cur) (wake (chan_of p.parent))
            ∙ length-modify t.procs cur
                (λ q. record q { ofile = map (λ _. none) q.ofile; cwd = none })))
        ∙ ap (map_parent t.initproc cur) (
            parent_at-wakeup1 (chan_of p.parent) (closed t cur) j
            ∙ parent_at-modify (λ q. record q { ofile = map (λ _. none) q.ofile; cwd = none })
                t.procs cur j (λ q. refl))

    abbrev left : ProcTable F
    left = record t { procs = modify (given_away t cur p) cur λ q. record q { state = zombie } }

    parent_at-left :
        (j : ℕ) → parent_at left.procs j ≡ map_parent t.initproc cur (parent_at t.procs j)
    parent_at-left j =
        parent_at-modify (λ q. record q { state = zombie }) (given_away t cur p) cur j (λ q. refl)
        ∙ parent_at-given_away j

    -- `cur` itself is a ZOMBIE now, with its parent as before.
    zombie_left :
        (par : ℕ)
        → get_elem? t.procs cur ≡ some p
        → p.parent ≡ some par
        → par ≢ cur
        → (q : Proc F) × (get_elem? left.procs cur ≡ some q) × (exited_child par q ≡ true)
    zombie_left par g e ne =
        let (q, h, s) =
          some_of_parent_at (given_away t cur p) cur (some par)
            (parent_at-given_away cur ∙ rw (g, e) (ap some keeps)) in
        (
          record q { state = zombie },
          get_elem?-modify_self (given_away t cur p) cur (λ r. record r { state = zombie }) q h,
          rw s (ground arith),
        )
      where
        keeps : new_parent t.initproc cur (some par) ≡ some par
        keeps = ground arith

    given_left :
        (j : ℕ) (q : Proc F)
        → get_elem? left.procs j ≡ some q
        → (r : Proc F) × (get_elem? t.procs j ≡ some r)
          × (q.parent ≡ new_parent t.initproc cur r.parent)
    given_left j q h =
        let same : some q.parent ≡ map_parent t.initproc cur (parent_at t.procs j) =
          sym (ap parent_of h) ∙ parent_at-left j in
        elim (Option-cases (get_elem? t.procs j)) [
          | inl n ↦
              absurd (some-ne_none (same ∙ ap (λ o. map_parent t.initproc cur (parent_of o)) n))
          | inr (r, g) ↦ (
            r,
            g,
            some-injective _ _ (same ∙ ap (λ o. map_parent t.initproc cur (parent_of o)) g),
          )
        ]

    new_parent_lem :
        (o : Option ℕ)
        → points_to cur t.initproc ≡ false
        → points_to cur (new_parent t.initproc cur o) ≡ false
    new_parent_lem o first = elim (Bool-cases (points_to cur o)) [
      | inl child ↦ rw child first
      | inr other ↦ rw other other
    ]

    -- Nobody sleeps on `c` when nobody did once the children were given away.
    left-Awake : (c : Chan) → Awake c (given_away t cur p) → Awake c left.procs
    left-Awake c a =
        modify-Awake c (λ q. record q { state = zombie }) (given_away t cur p) cur (λ q h. refl) a

    parent_woken : Awake (chan_of p.parent) left.procs
    parent_woken = left-Awake (chan_of p.parent) (
        reparent_loop-Awake t.initproc cur (chan_of p.parent) (length t.procs) 0 _
          (wakeup1-Awake (chan_of p.parent) (closed t cur)))

    exited_closed :
        (k : ℕ) (z : Proc F)
        → get_elem? t.procs k ≡ some z
        → z.parent ≡ some cur
        → z.state ≡ zombie
        → ExitedAt cur k (closed t cur)
    exited_closed k z g child gone =
        let f = λ (q : Proc F). record q { ofile = map (λ _. none) q.ofile; cwd = none } in
        let child' : is_child cur z ≡ true = ap (points_to cur) child ∙ ground arith in
        let gone' : state_eq z.state zombie ≡ true = ap (λ s. state_eq s zombie) gone in
        elim (ℕ_discrete cur k) [
          | yes ck ↦ (
            f z,
            subst (λ m. get_elem? (modify t.procs cur f) m ≡ some (f z)) ck
                (get_elem?-modify_self t.procs cur f z
                  (subst (λ m. get_elem? t.procs m ≡ some z) (sym ck) g)),
            child',
            gone',
          )
          | no ne ↦ (z, get_elem?-modify_ne t.procs cur k f ne ∙ g, child', gone')
        ]

    init_woken :
        (k : ℕ) (z : Proc F)
        → get_elem? t.procs k ≡ some z
        → z.parent ≡ some cur
        → z.state ≡ zombie
        → Awake (chan_of t.initproc) left.procs
    init_woken k z g child gone = left-Awake (chan_of t.initproc) (
        reparent_loop_wakes t.initproc cur (length t.procs) 0 k
          (wakeup1 (closed t cur) (chan_of p.parent)) (omega arith)
          (omega (arith, lt_of_get_elem? t.procs k z g))
          (wakeup1-ExitedAt t.initproc cur (chan_of p.parent) k (closed t cur)
            (exited_closed k z g child gone)))

    left-Exits :
        get_elem? t.procs cur ≡ some p → points_to cur t.initproc ≡ false → Exits t cur p left
    left-Exits g first = record {
      abandoned =
          λ j q h. let (r, _, same) = given_left j q h in rw same (new_parent_lem r.parent first);
      given = given_left;
      parent_awake = λ par e j q g s.
          subst (λ o. q.chan ≢ chan_of o) e (sleeper (chan_of p.parent) q (parent_woken j q g) s);
      init_awake = λ init k z i g child gone j q h s.
          subst (λ o. q.chan ≢ chan_of o) i
            (sleeper (chan_of t.initproc) q (init_woken k z g child gone j q h) s);
      reaps = λ par killed e ne.
          let (q, h, gone) = zombie_left par g e ne in
          reaped-of_Answered par left killed (wait left par killed) (wait-Answered par left killed)
            cur q h gone;
    }

    -- `exit` of a process other than `initproc` does not panic. After it no process has `cur` as
    -- its parent: the children of `cur` have `initproc`, and the parents of all others are as
    -- before. And no child is lost: nobody sleeps on the parent of `cur`, nor, if a child of `cur`
    -- had exited, on `initproc`, so that a parent that slept in `wait` is awake; and the parent of
    -- `cur`, if it is another process, gets the pid of a child that has exited from its next round
    -- of `wait`, which neither sleeps nor returns -1.
    pub exit-Exits :
        get_elem? t.procs cur ≡ some p
        → points_to cur t.initproc ≡ false
        → Returns (λ (calls, t'). Exits t cur p t') (exit t cur p)
    unfolding exit
    exit-Exits g first = rw (first, exit) (left-Exits g first)
