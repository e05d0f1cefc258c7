-- ===== src/Shm/Attached.antt =====
-- The counts of the segments are the processes that are attached.
use os_lab.Base.{
  length, get_elem?, set, get_elem?-set_self, get_elem?-set_ne, lt_of_get_elem?, ℕ, ◌<◌, ◌≡◌, sym,
  ap, ◌∙◌, subst, ◌≢◌, ◌↔◌, ◌⊎◌, inl, inr, Option, none, some, some-injective, List, ℕ_discrete,
}
use os_lab.Base.Int.{pos}
use os_lab.Descriptors.Holders.{holds}
use os_lab.Shm.{Shmid, Attacher}

-- `att` tells for each process which segment it has opened and not closed.
pub record Shared (table : List Shmid) (procs : List Attacher) (att : List (Option ℕ))
    : Type 0 where
  pub counted :
      (id : ℕ) (s : Shmid) → get_elem? table id ≡ some s → s.ref_count ≡ pos (holds id att)
  pub framed : (id : ℕ) (s : Shmid) → get_elem? table id ≡ some s → 0 < holds id att → s.frame ≢ 0
  pub pointers :
      (p : ℕ) (c : Attacher) (a : Option ℕ)
      → get_elem? procs p ≡ some c
      → get_elem? att p ≡ some a
      → (c.shm ≡ 0) ↔ (a ≡ none)

set-cases {ℓ} :
    {A : Type ℓ} (xs : List A) (i : ℕ) (v : A) (j : ℕ) (x : A)
    → i < length xs
    → get_elem? (set xs i v) j ≡ some x
    → ((i ≡ j) × (v ≡ x)) ⊎ ((i ≢ j) × (get_elem? xs j ≡ some x))
set-cases xs i v j x lt e = elim (ℕ_discrete i j) [
  | yes same ↦ inl (
    same,
    some-injective _ _ (sym (get_elem?-set_self xs i v lt) ∙ ap (get_elem? (set xs i v)) same ∙ e),
  )
  | no ne ↦ inr (ne, sym (get_elem?-set_ne xs v ne) ∙ e)
]

-- A step of the process `p` on the segment `id`.
pub Shared-set :
    (table : List Shmid) (procs : List Attacher) (att : List (Option ℕ)) (p id : ℕ) (s s' : Shmid)
    (c c' : Attacher) (a a' : Option ℕ)
    → Shared table procs att
    → get_elem? table id ≡ some s
    → get_elem? procs p ≡ some c
    → get_elem? att p ≡ some a
    → s'.ref_count ≡ pos (holds id (set att p a'))
    → (0 < holds id (set att p a') → s'.frame ≢ 0)
    → ((j : ℕ) → id ≢ j → holds j (set att p a') ≡ holds j att)
    → (c'.shm ≡ 0) ↔ (a' ≡ none)
    → Shared (set table id s') (set procs p c') (set att p a')
Shared-set table procs att p id s s' c c' a a' inv at_id at_p att_p count frame same pointer =
    record { counted = counted; framed = framed; pointers = pointers }
  where
    counted :
        (j : ℕ) (t : Shmid)
        → get_elem? (set table id s') j ≡ some t
        → t.ref_count ≡ pos (holds j (set att p a'))
    counted j t e = elim (set-cases table id s' j t (lt_of_get_elem? table id s at_id) e) [
      | inl (ij, st) ↦
          ap (λ (x : Shmid). x.ref_count) (sym st)
          ∙ count
          ∙ ap (λ k. pos (holds k (set att p a'))) ij
      | inr (ne, old) ↦ inv.counted j t old ∙ ap pos (sym (same j ne))
    ]

    framed :
        (j : ℕ) (t : Shmid)
        → get_elem? (set table id s') j ≡ some t
        → 0 < holds j (set att p a')
        → t.frame ≢ 0
    framed j t e held = elim (set-cases table id s' j t (lt_of_get_elem? table id s at_id) e) [
      | inl (ij, st) ↦
          subst (λ (x : Shmid). x.frame ≢ 0) st
            (frame (subst (λ k. 0 < holds k (set att p a')) (sym ij) held))
      | inr (ne, old) ↦ inv.framed j t old (subst (λ n. 0 < n) (same j ne) held)
    ]

    pointers :
        (q : ℕ) (d : Attacher) (b : Option ℕ)
        → get_elem? (set procs p c') q ≡ some d
        → get_elem? (set att p a') q ≡ some b
        → (d.shm ≡ 0) ↔ (b ≡ none)
    pointers q d b e f = elim (set-cases procs p c' q d (lt_of_get_elem? procs p c at_p) e) [
      | inl (pq, cd) ↦ elim (set-cases att p a' q b (lt_of_get_elem? att p a att_p) f) [
        | inl (_, ab) ↦ (
          λ z. sym ab ∙ pointer.0 (ap (λ (x : Attacher). x.shm) cd ∙ z),
          λ z. ap (λ (x : Attacher). x.shm) (sym cd) ∙ pointer.1 (ab ∙ z),
        )
        | inr (ne, _) ↦ absurd (ne pq)
      ]
      | inr (ne, old) ↦ elim (set-cases att p a' q b (lt_of_get_elem? att p a att_p) f) [
        | inl (pq, _) ↦ absurd (ne pq)
        | inr (_, old_b) ↦ inv.pointers q d b old old_b
      ]
    ]
