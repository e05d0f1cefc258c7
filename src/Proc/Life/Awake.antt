-- ===== src/Proc/Life/Awake.antt =====
-- Whom `exit` wakes: nobody sleeps on the addresses that it has called `wakeup1` for.
use os_lab.Proc.Schedule.Choice.{state_eq_iff}
use os_lab.Proc.{
  ProcState, sleeping, zombie, state_eq, Chan, null, process, object, chan_eq, chan_of, Proc,
}
use os_lab.Base.{
  Bool-cases, Option-cases, get_elem?, modify, get_elem?-modify_ne, get_elem?-map, get_elem?_of_map,
  ℕ, zero, suc, ◌+◌, ◌≤◌, ◌<◌, ◌≡◌, refl, sym, ap, ◌∙◌, subst, ap₂, ◌≢◌, inl, inr, true, false,
  ◌&&◌, false≢true, Option, some, some-injective, List, [], ◌∷◌, arith, ℕ_discrete,
}
use os_lab.Proc.Life.{is_child, reparent, reparent_loop}
use os_lab.Proc.Wakeup.{sleeps_on, wake, wakeup1}

chan_eq_self : (c : Chan) → chan_eq c c ≡ true
chan_eq_self null = refl
chan_eq_self (process i) = ground arith
chan_eq_self (object i) = ground arith

module _ {F : Type 0} where
  -- No process sleeps on `c`.
  abbrev pub Awake : Chan → List (Proc F) → Type 0
  Awake c ps = (j : ℕ) (q : Proc F) → get_elem? ps j ≡ some q → sleeps_on c q ≡ false

  -- A child of `cur` that has exited stands at `j`.
  abbrev pub ExitedAt : ℕ → ℕ → List (Proc F) → Type 0
  ExitedAt cur j ps =
      (q : Proc F) × (get_elem? ps j ≡ some q)
      × (is_child cur q ≡ true)
      × (state_eq q.state zombie ≡ true)

  pub sleeper : (c : Chan) (q : Proc F) → sleeps_on c q ≡ false → q.state ≡ sleeping → q.chan ≢ c
  sleeper c q e s d =
      false≢true (sym e ∙ ap₂ (λ t x. state_eq t sleeping && chan_eq x c) s d ∙ chan_eq_self c)

  wake_old :
      (ps : List (Proc F)) (d : Chan) (j : ℕ) (q : Proc F)
      → get_elem? (wakeup1 ps d) j ≡ some q
      → (r : Proc F) × (get_elem? ps j ≡ some r) × (q ≡ wake d r)
  unfolding wakeup1
  wake_old ps d j q e = get_elem?_of_map (wake d) ps j q e

  wake_zombie : (c : Chan) (p : Proc F) → state_eq p.state zombie ≡ true → wake c p ≡ p
  unfolding wake
  wake_zombie c p gone =
      let awake : sleeps_on c p ≡ false =
        ap (λ (s : ProcState). state_eq s sleeping && chan_eq p.chan c)
          (state_eq_iff p.state zombie gone) in
      rw awake refl

  wake_kept : (c d : Chan) (r : Proc F) → sleeps_on c r ≡ false → sleeps_on c (wake d r) ≡ false
  unfolding wake
  wake_kept c d r e = elim (Bool-cases (sleeps_on d r)) [
    | inl woken ↦ rw woken refl
    | inr other ↦ rw other e
  ]

  wake_done : (c : Chan) (r : Proc F) → sleeps_on c (wake c r) ≡ false
  unfolding wake
  wake_done c r = elim (Bool-cases (sleeps_on c r)) [
    | inl woken ↦ rw woken refl
    | inr other ↦ rw other other
  ]

  pub wakeup1-Awake : (c : Chan) (ps : List (Proc F)) → Awake c (wakeup1 ps c)
  wakeup1-Awake c ps j q e =
      let (r, _, same) = wake_old ps c j q e in ap (sleeps_on c) same ∙ wake_done c r

  wakeup1-Awake_kept : (c d : Chan) (ps : List (Proc F)) → Awake c ps → Awake c (wakeup1 ps d)
  wakeup1-Awake_kept c d ps a j q e =
      let (r, g, same) = wake_old ps d j q e in ap (sleeps_on c) same ∙ wake_kept c d r (a j r g)

  -- A write that sends nobody to sleep.
  pub modify-Awake :
      (c : Chan) (f : Proc F → Proc F) (ps : List (Proc F)) (i : ℕ)
      → ((q : Proc F) → sleeps_on c q ≡ false → sleeps_on c (f q) ≡ false)
      → Awake c ps
      → Awake c (modify ps i f)
  modify-Awake c f [] i keeps a j q e = cc
  modify-Awake c f (p ∷ ps) zero keeps a zero q e =
      ap (sleeps_on c) (sym (some-injective _ _ e)) ∙ keeps p (a 0 p refl)
  modify-Awake c f (p ∷ ps) zero keeps a (suc j) q e = a (suc j) q e
  modify-Awake c f (p ∷ ps) (suc i) keeps a zero q e = a 0 q e
  modify-Awake c f (p ∷ ps) (suc i) keeps a (suc j) q e =
      modify-Awake c f ps i keeps (λ j q g. a (suc j) q g) j q e

  module _ (init : Option ℕ) (cur : ℕ) where
    reparent-Awake :
        (c : Chan) (i : ℕ) (ps : List (Proc F)) → Awake c ps → Awake c (reparent init cur i ps)
    unfolding reparent
    reparent-Awake c i ps a = elim (Option-cases (get_elem? ps i)) [
      | inl n ↦ rw (n, reparent) a
      | inr (p, g) ↦
          let given = modify-Awake c (λ q. record q { parent = init }) ps i (λ q h. h) a in
          elim (Bool-cases (is_child cur p)) [
            | inr other ↦ rw (g, reparent) (rw other a)
            | inl child ↦ elim (Bool-cases (state_eq p.state zombie)) [
              | inl gone ↦
                  rw (g, reparent) (rw (child, gone) (wakeup1-Awake_kept c (chan_of init) _ given))
              | inr lives ↦ rw (g, reparent) (rw (child, lives) given)
            ]
          ]
    ]

    pub reparent_loop-Awake :
        (c : Chan) (n i : ℕ) (ps : List (Proc F))
        → Awake c ps
        → Awake c (reparent_loop init cur n i ps)
    unfolding reparent_loop
    reparent_loop-Awake c zero i ps a = a
    reparent_loop-Awake c (suc n) i ps a =
        reparent_loop-Awake c n (suc i) (reparent init cur i ps) (reparent-Awake c i ps a)

    -- The round for a child that has exited wakes `init`.
    reparent_wakes :
        (i : ℕ) (ps : List (Proc F))
        → ExitedAt cur i ps
        → Awake (chan_of init) (reparent init cur i ps)
    unfolding reparent
    reparent_wakes i ps (p, g, child, gone) =
        rw (g, reparent) (rw (child, gone) (wakeup1-Awake (chan_of init) _))

    pub wakeup1-ExitedAt :
        (c : Chan) (j : ℕ) (ps : List (Proc F)) → ExitedAt cur j ps → ExitedAt cur j (wakeup1 ps c)
    unfolding wakeup1 wake
    wakeup1-ExitedAt c j ps (p, g, child, gone) =
        (p, get_elem?-map (wake c) ps j p g ∙ ap some (wake_zombie c p gone), child, gone)

    reparent-ExitedAt :
        (i j : ℕ) (ps : List (Proc F))
        → i ≢ j
        → ExitedAt cur j ps
        → ExitedAt cur j (reparent init cur i ps)
    unfolding reparent
    reparent-ExitedAt i j ps ne (z, gz, child_z, gone_z) = elim (Option-cases (get_elem? ps i)) [
      | inl n ↦ rw (n, reparent) (z, gz, child_z, gone_z)
      | inr (p, g) ↦
          let kept : ExitedAt cur j (modify ps i λ q. record q { parent = init }) = (
            z,
            get_elem?-modify_ne ps i j (λ q. record q { parent = init }) ne ∙ gz,
            child_z,
            gone_z,
          ) in
          elim (Bool-cases (is_child cur p)) [
            | inr other ↦ rw (g, reparent) (rw other (z, gz, child_z, gone_z))
            | inl child ↦ elim (Bool-cases (state_eq p.state zombie)) [
              | inl gone ↦
                  rw (g, reparent) (rw (child, gone) (wakeup1-ExitedAt (chan_of init) j _ kept))
              | inr lives ↦ rw (g, reparent) (rw (child, lives) kept)
            ]
          ]
    ]

    pub reparent_loop_wakes :
        (n i j : ℕ) (ps : List (Proc F))
        → i ≤ j
        → j < i + n
        → ExitedAt cur j ps
        → Awake (chan_of init) (reparent_loop init cur n i ps)
    unfolding reparent_loop
    reparent_loop_wakes zero i j ps le lt z = absurd (omega arith)
    reparent_loop_wakes (suc n) i j ps le lt z = elim (ℕ_discrete i j) [
      | yes here ↦
          reparent_loop-Awake (chan_of init) n (suc i) (reparent init cur i ps)
            (reparent_wakes i ps (subst (λ k. ExitedAt cur k ps) (sym here) z))
      | no ne ↦
          reparent_loop_wakes n (suc i) j (reparent init cur i ps) (omega (arith, ne)) (omega arith)
            (reparent-ExitedAt i j ps ne z)
    ]
