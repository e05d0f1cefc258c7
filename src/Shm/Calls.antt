-- ===== src/Shm/Calls.antt =====
-- Processes that open and close a segment.
use os_lab.Base.{
  get_elem?, set, ℕ, ◌+◌, ◌^◌, ◌<◌, ◌≡◌, refl, ap, ◌∙◌, ◌≢◌, ◌↔◌, true, false, Option, none, some,
  List, [], ◌∷◌, arith, dec_lt,
}
use os_lab.Base.Int.{pos, sub_int, eqb_ℤ, sub_int_one}
use os_lab.Kalloc.{pg_round_up}
use os_lab.Descriptors.Holders.{holds, holds-set-none}
use os_lab.Shm.{Shmid, Attacher, PageCall, maps, frees_vm, frees_page, Attach, close_shm}
use os_lab.Shm.Attached.{Shared, Shared-set}

module _ (table : List Shmid) (procs : List Attacher) (att : List (Option ℕ)) (p id : ℕ) (s : Shmid)
    (c : Attacher) where
  -- The answers to the process `p`.
  pub data Opens (mem : ℕ) : Attach → Type 0 where
    refused : (i : ℕ) → get_elem? att p ≡ some (some i) → Opens mem (0, s, c, [])
    opened :
        (s' : Shmid) (c' : Attacher)
        → get_elem? att p ≡ some none
        → (0 < holds id att → s'.frame ≡ s.frame)
        → (holds id att ≡ 0 → s'.frame ≡ mem)
        → Shared (set table id s') (set procs p c') (set att p (some id))
        → Opens mem (pg_round_up c.sz, s', c', maps (pg_round_up c.sz) s'.frame ∷ [])

  pub data Shuts : Shmid × Attacher × List PageCall → Type 0 where
    others_left :
        (s' : Shmid) (c' : Attacher)
        → 0 < holds id (set att p none)
        → s'.frame ≡ s.frame
        → Shared (set table id s') (set procs p c') (set att p none)
        → Shuts (s', c', [])
    last_left :
        (s' : Shmid) (c' : Attacher)
        → holds id (set att p none) ≡ 0
        → s'.frame ≡ 0
        → Shared (set table id s') (set procs p c') (set att p none)
        → Shuts (s', c', frees_vm ∷ frees_page s.frame ∷ [])

  -- `close_shm` by a process that has the segment open, where the count is no larger than an `int`: the
  -- count is again that of the processes attached; while some are left the segment keeps its page, and
  -- with the last the page is given back and the caller's page table with it.
  pub close_shm-Shuts :
      Shared table procs att
      → get_elem? table id ≡ some s
      → get_elem? procs p ≡ some c
      → get_elem? att p ≡ some (some id)
      → holds id att < 2 ^ 31
      → Shuts (close_shm s c)
  unfolding close_shm
  close_shm-Shuts inv at_id at_p att_p small = elim (dec_lt 0 (holds id (set att p none))) [
    | yes others ↦
        rw (close_shm, in_use, left, still others)
          (others_left _ _ others refl (
            Shared-set table procs att p id s _ c _ (some id) none inv at_id at_p att_p refl
              (λ _. inv.framed id s at_id (omega (arith, one_fewer))) same pointer))
    | no no_one ↦
        rw (close_shm, in_use, left, over no_one)
          (last_left _ _ (omega arith) refl (
            Shared-set table procs att p id s _ c _ (some id) none inv at_id at_p att_p refl
              (λ h. absurd (no_one h)) same pointer))
  ]
    where
      one_fewer : holds id att ≡ holds id (set att p none) + 1
      one_fewer = ground (arith, holds-set-none id id p att att_p)

      count : s.ref_count ≡ pos (holds id (set att p none) + 1)
      count = inv.counted id s at_id ∙ ap pos one_fewer

      in_use : eqb_ℤ s.ref_count (pos 0) ≡ false
      in_use = ap (λ z. eqb_ℤ z (pos 0)) count ∙ ground arith

      left : sub_int s.ref_count (pos 1) ≡ pos (holds id (set att p none))
      left =
          ap (λ z. sub_int z (pos 1)) count
          ∙ sub_int_one (holds id (set att p none)) (omega (arith, one_fewer))

      still :
          0 < holds id (set att p none) → eqb_ℤ (pos (holds id (set att p none))) (pos 0) ≡ false
      still h = ground arith

      over :
          (0 < holds id (set att p none) → ⊥)
          → eqb_ℤ (pos (holds id (set att p none))) (pos 0) ≡ true
      over h = ground arith

      same : (j : ℕ) → id ≢ j → holds j (set att p none) ≡ holds j att
      same j ne = ground (arith, ne, holds-set-none j id p att att_p)

      pointer : (◌≡◌ {A = ℕ} 0 0) ↔ (◌≡◌ {A = Option ℕ} none none)
      pointer = (λ _. refl, λ _. refl)
