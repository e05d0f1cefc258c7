-- ===== src/Proc/Life/Parents.antt =====
-- The parents in the table, under the loop by which `exit` gives the children to `initproc`.
use os_lab.Base.{
  if◌then◌else◌, Bool-cases, Option-cases, length, get_elem?, modify, get_elem?-modify_self,
  get_elem?-modify_ne, ℕ, zero, suc, ◌+◌, ◌≤◌, ◌<◌, ◌≡◌, refl, sym, ap, ◌∙◌, subst, ◌≢◌, ◌⊎◌, inl,
  inr, Option, none, some, some-injective, List, [], ◌∷◌, arith, dec_lt, ℕ_discrete,
}
use os_lab.Proc.{zombie, state_eq, Chan, chan_of, Proc}
use os_lab.Proc.Life.{points_to, is_child, reparent, reparent_loop}
use os_lab.Proc.Wakeup.{wake, wakeup1}

abbrev pub new_parent : Option ℕ → ℕ → Option ℕ → Option ℕ
new_parent init cur o = if points_to cur o then init else o

abbrev pub map_parent : Option ℕ → ℕ → Option (Option ℕ) → Option (Option ℕ)
map_parent init cur none = none
map_parent init cur (some o) = some (new_parent init cur o)

pub some-ne_none : {o : Option ℕ} → some o ≢ none
some-ne_none e = cc

module _ {F : Type 0} where
  abbrev pub parent_of : Option (Proc F) → Option (Option ℕ)
  parent_of none = none
  parent_of (some p) = some p.parent

  -- The parent in entry `j`.
  abbrev pub parent_at : List (Proc F) → ℕ → Option (Option ℕ)
  parent_at ps j = parent_of (get_elem? ps j)

  wake_parent : (c : Chan) (p : Proc F) → (wake c p).parent ≡ p.parent
  unfolding wake
  wake_parent c p = ground arith

  pub parent_at-wakeup1 :
      (c : Chan) (ps : List (Proc F)) (j : ℕ) → parent_at (wakeup1 ps c) j ≡ parent_at ps j
  unfolding wakeup1
  parent_at-wakeup1 c [] j = refl
  parent_at-wakeup1 c (p ∷ ps) zero = ap some (wake_parent c p)
  parent_at-wakeup1 c (p ∷ ps) (suc j) = parent_at-wakeup1 c ps j

  pub parent_at-modify :
      (f : Proc F → Proc F) (ps : List (Proc F)) (i j : ℕ)
      → ((p : Proc F) → (f p).parent ≡ p.parent)
      → parent_at (modify ps i f) j ≡ parent_at ps j
  parent_at-modify f [] i j k = refl
  parent_at-modify f (p ∷ ps) zero zero k = ap some (k p)
  parent_at-modify f (p ∷ ps) zero (suc j) k = refl
  parent_at-modify f (p ∷ ps) (suc i) zero k = refl
  parent_at-modify f (p ∷ ps) (suc i) (suc j) k = parent_at-modify f ps i j k

  module _ (init : Option ℕ) (cur : ℕ) where
    -- The parents after the loop's body at `i`.
    parent_at-reparent_self :
        (i : ℕ) (ps : List (Proc F))
        → parent_at (reparent init cur i ps) i ≡ map_parent init cur (parent_at ps i)
    unfolding reparent
    parent_at-reparent_self i ps = elim (Option-cases (get_elem? ps i)) [
      | inl e ↦ rw (e, reparent) (rw e refl)
      | inr (p, e) ↦ elim (Bool-cases (is_child cur p)) [
        | inr other ↦ rw (e, other, reparent) (rw e refl)
        | inl child ↦
            let given : parent_at (modify ps i λ q. record q { parent = init }) i ≡ some init =
              rw (get_elem?-modify_self ps i (λ q. record q { parent = init }) p e) refl in
            elim (Bool-cases (state_eq p.state zombie)) [
              | inl gone ↦
                  rw (e, child, gone, reparent)
                    (parent_at-wakeup1 (chan_of init) (modify ps i λ q. record q { parent = init })
                        i
                      ∙ given)
              | inr lives ↦ rw (e, child, lives, reparent) given
            ]
      ]
    ]

    parent_at-reparent_ne :
        (i j : ℕ) (ps : List (Proc F))
        → i ≢ j
        → parent_at (reparent init cur i ps) j ≡ parent_at ps j
    unfolding reparent
    parent_at-reparent_ne i j ps ne = elim (Option-cases (get_elem? ps i)) [
      | inl e ↦ rw (e, reparent) refl
      | inr (p, e) ↦
          let given : parent_at (modify ps i λ q. record q { parent = init }) j ≡ parent_at ps j =
            rw (get_elem?-modify_ne ps i j (λ q. record q { parent = init }) ne) refl in
          elim (Bool-cases (is_child cur p)) [
            | inr other ↦ rw (e, other, reparent) refl
            | inl child ↦ elim (Bool-cases (state_eq p.state zombie)) [
              | inl gone ↦
                  rw (e, child, gone, reparent)
                    (parent_at-wakeup1 (chan_of init) (modify ps i λ q. record q { parent = init })
                        j
                      ∙ given)
              | inr lives ↦ rw (e, child, lives, reparent) given
            ]
          ]
    ]

    parent_at-reparent_loop_outside :
        (n i j : ℕ) (ps : List (Proc F))
        → ((j < i) ⊎ (i + n ≤ j))
        → parent_at (reparent_loop init cur n i ps) j ≡ parent_at ps j
    unfolding reparent_loop
    parent_at-reparent_loop_outside zero i j ps out = refl
    parent_at-reparent_loop_outside (suc n) i j ps (inl lt) =
        parent_at-reparent_loop_outside n (suc i) j (reparent init cur i ps) (inl (omega arith))
        ∙ parent_at-reparent_ne i j ps (λ e. omega arith)
    parent_at-reparent_loop_outside (suc n) i j ps (inr le) =
        parent_at-reparent_loop_outside n (suc i) j (reparent init cur i ps) (inr (omega arith))
        ∙ parent_at-reparent_ne i j ps (λ e. omega arith)

    parent_at-reparent_loop :
        (n i j : ℕ) (ps : List (Proc F))
        → i ≤ j
        → j < i + n
        → parent_at (reparent_loop init cur n i ps) j ≡ map_parent init cur (parent_at ps j)
    unfolding reparent_loop
    parent_at-reparent_loop zero i j ps le lt = absurd (omega arith)
    parent_at-reparent_loop (suc n) i j ps le lt = elim (ℕ_discrete i j) [
      | yes e ↦
          parent_at-reparent_loop_outside n (suc i) j (reparent init cur i ps) (inl (omega arith))
          ∙ subst (λ k. parent_at (reparent init cur i ps) k ≡ map_parent init cur (parent_at ps k))
              e (parent_at-reparent_self i ps)
      | no ne ↦
          parent_at-reparent_loop n (suc i) j (reparent init cur i ps) (omega arith) (omega arith)
          ∙ ap (map_parent init cur) (parent_at-reparent_ne i j ps ne)
    ]

  parent_at_beyond : (ps : List (Proc F)) (j : ℕ) → length ps ≤ j → parent_at ps j ≡ none
  parent_at_beyond [] j le = refl
  parent_at_beyond (p ∷ ps) zero le = absurd (omega arith)
  parent_at_beyond (p ∷ ps) (suc j) le = parent_at_beyond ps j (omega arith)

  pub some_of_parent_at :
      (ps : List (Proc F)) (j : ℕ) (o : Option ℕ)
      → parent_at ps j ≡ some o
      → (q : Proc F) × (get_elem? ps j ≡ some q) × (q.parent ≡ o)
  some_of_parent_at [] j o e = cc
  some_of_parent_at (p ∷ ps) zero o e = (p, refl, some-injective _ _ e)
  some_of_parent_at (p ∷ ps) (suc j) o e = some_of_parent_at ps j o e

  -- The whole loop.
  pub parent_at-given :
      (init : Option ℕ) (cur n j : ℕ) (ps : List (Proc F))
      → n ≡ length ps
      → parent_at (reparent_loop init cur n 0 ps) j ≡ map_parent init cur (parent_at ps j)
  parent_at-given init cur n j ps e = elim (dec_lt j n) [
    | yes lt ↦ parent_at-reparent_loop init cur n 0 j ps (omega arith) (omega arith)
    | no ge ↦
        let none_at = parent_at_beyond ps j (omega arith) in
        parent_at-reparent_loop_outside init cur n 0 j ps (inr (omega arith))
        ∙ none_at
        ∙ ap (map_parent init cur) (sym none_at)
  ]
