-- ===== src/Shm/Tests.antt =====
-- Two processes, of which the second has the segment 0 open.
use os_lab.Base.{
  get_elem?, replicate, ℕ, zero, suc, ◌<◌, ◌≡◌, refl, sym, ap, ◌∙◌, subst, ◌≢◌, ◌↔◌, Option, none,
  some, some-injective, List, [], ◌∷◌, arith,
}
use os_lab.Base.Int.{pos, negsuc, ◌+ℤ◌}
use os_lab.Descriptors.Holders.{holds}
use os_lab.Shm.{Shmid, Attacher, maps, max_attached_procs, open_shared_memory, close_shm}
use os_lab.Shm.Attached.{Shared}
use os_lab.Shm.Calls.{Shuts, close_shm-Shuts}

abbrev segment : Shmid
segment = record {
  ref_count = pos 1;
  attached_processes = replicate max_attached_procs (negsuc 0);
  frame = 4096;
  marked = 0;
}

abbrev first : Attacher
first = record { pid = pos 3; sz = 5000; shm = 0 }

abbrev second : Attacher
second = record { pid = pos 4; sz = 4096; shm = 4096 }

abbrev att : List (Option ℕ)
att = none ∷ some 0 ∷ []

segments-Shared : Shared (segment ∷ []) (first ∷ second ∷ []) att
segments-Shared = record { counted = counted; framed = framed; pointers = pointers }
  where
    counted :
        (id : ℕ) (s : Shmid)
        → get_elem? (segment ∷ []) id ≡ some s
        → s.ref_count ≡ pos (holds id att)
    counted zero s e = sym (ap (λ (x : Shmid). x.ref_count) (some-injective _ _ e))
    counted (suc id) s e = cc

    page : ◌≢◌ {A = ℕ} 4096 0
    page = omega arith

    framed :
        (id : ℕ) (s : Shmid) → get_elem? (segment ∷ []) id ≡ some s → 0 < holds id att → s.frame ≢ 0
    framed zero s e lt = subst (λ (x : Shmid). x.frame ≢ 0) (some-injective _ _ e) page
    framed (suc id) s e lt = cc

    some_ne : (i : ℕ) → ◌≢◌ {A = Option ℕ} (some i) none
    some_ne i e = cc

    pointers :
        (p : ℕ) (c : Attacher) (a : Option ℕ)
        → get_elem? (first ∷ second ∷ []) p ≡ some c
        → get_elem? att p ≡ some a
        → (c.shm ≡ 0) ↔ (a ≡ none)
    pointers zero c a e f = (
      λ _. sym (some-injective _ _ f),
      λ _. ap (λ (x : Attacher). x.shm) (sym (some-injective _ _ e)),
    )
    pointers (suc zero) c a e f = (
      λ z. absurd (page (ap (λ (x : Attacher). x.shm) (some-injective _ _ e) ∙ z)),
      λ z. absurd (some_ne 0 (some-injective _ _ f ∙ z)),
    )
    pointers (suc (suc p)) c a e f = cc

open_run :
    open_shared_memory 12288 segment first
    ≡ (8192, record segment { ref_count = pos 2 }, record first { shm = 8192 }, maps 8192 4096 ∷ [])
unfolding open_shared_memory ◌+ℤ◌
open_run = refl

page : ◌≢◌ {A = ℕ} 12288 0
page = omega arith

close_shm-Shuts_example :
    Shuts (segment ∷ []) (first ∷ second ∷ []) att 1 0 segment second (close_shm segment second)
close_shm-Shuts_example =
    close_shm-Shuts (segment ∷ []) (first ∷ second ∷ []) att 1 0 segment second segments-Shared refl
      refl refl (omega arith)
