-- ===== src/Bio/Unique.antt =====
-- One buffer for a block.
use os_lab.Base.Find.{find_index, Found, missing, found, find_index-Found}
use os_lab.Base.Outcome.{Outcome, ok, panic}
use os_lab.Base.{
  get_elem?, set, get_elem?-set_self, get_elem?-set_ne, modify, modify-eq-set, lt_of_get_elem?, ℕ,
  ◌+◌, ◌%◌, ◌^◌, ◌<◌, ◌≡◌, refl, sym, ap, ◌∙◌, subst, ◌≢◌, false, Option, none, some,
  some-injective, List, arith, ℕ_discrete,
}
use os_lab.Bio.{Buf, holds_block, is_spare, find_last, bget}
use os_lab.Bio.Search.{Last, nowhere, last_at, find_last-Last}

-- Two buffers with the same block of a real device are one. The cache starts with all buffers at device 0.
pub record IsCache (bs : List Buf) : Type 0 where
  pub unique :
      (i j : ℕ) (b c : Buf)
      → get_elem? bs i ≡ some b
      → get_elem? bs j ≡ some c
      → 0 < b.dev
      → b.dev ≡ c.dev
      → b.blockno ≡ c.blockno
      → i ≡ j
  pub counted : (i : ℕ) (b : Buf) → get_elem? bs i ≡ some b → b.refcnt + 1 < 2 ^ 32

-- What `bget` comes to.
pub data Gets (bs : List Buf) (dev blockno : ℕ) : Outcome (ℕ × List Buf) → Type 0 where
  cached :
      (i : ℕ) (b : Buf)
      → get_elem? bs i ≡ some b
      → b.dev ≡ dev
      → b.blockno ≡ blockno
      → Gets bs dev blockno (ok (i, set bs i (record b { refcnt = b.refcnt + 1 })))
  recycled :
      (i : ℕ) (b : Buf)
      → ((j : ℕ) (c : Buf) → get_elem? bs j ≡ some c → holds_block dev blockno c ≡ false)
      → get_elem? bs i ≡ some b
      → b.refcnt ≡ 0
      → b.dirty ≡ false
      → ((j : ℕ) (c : Buf) → get_elem? bs j ≡ some c → i < j → is_spare c ≡ false)
      → Gets bs dev blockno (
          ok (
            i,
            set bs i (record b {
              dev = dev;
              blockno = blockno;
              valid = false;
              dirty = false;
              refcnt = 1;
            }),
          ))
  none_spare :
      ((j : ℕ) (c : Buf)
        → get_elem? bs j ≡ some c
        → (holds_block dev blockno c ≡ false) × (is_spare c ≡ false))
      → Gets bs dev blockno panic

pub bget-Gets :
    (bs : List Buf) (dev blockno : ℕ) → IsCache bs → Gets bs dev blockno (bget bs dev blockno)
unfolding bget
bget-Gets bs dev blockno v =
    by_find (find_index (holds_block dev blockno) bs)
      (find_index-Found (holds_block dev blockno) bs) refl
  where
    by_last :
        (o : Option ℕ)
        → Last is_spare bs o
        → find_last is_spare bs ≡ o
        → ((j : ℕ) (c : Buf) → get_elem? bs j ≡ some c → holds_block dev blockno c ≡ false)
        → find_index (holds_block dev blockno) bs ≡ none
        → Gets bs dev blockno (bget bs dev blockno)
    by_last o (nowhere m) e n absent =
        rw (absent, e, bget) (none_spare (λ j c g. (n j c g, m j c g)))
    by_last o (last_at i b g spare after) e n absent =
        rw (absent, e, modify-eq-set bs i _ b g, bget)
          (recycled i b n g (ground (arith, spare)) (ground (arith, spare)) after)

    by_find :
        (o : Option ℕ)
        → Found (holds_block dev blockno) bs o
        → find_index (holds_block dev blockno) bs ≡ o
        → Gets bs dev blockno (bget bs dev blockno)
    by_find o (found i b g h before) e =
        let small = v.counted i b g in
        let same : modify bs i (λ c. record c { refcnt = (c.refcnt + 1) % 2 ^ 32 })
            ≡ set bs i (record b { refcnt = b.refcnt + 1 }) =
          modify-eq-set bs i (λ c. record c { refcnt = (c.refcnt + 1) % 2 ^ 32 }) b g
          ∙ ap (λ r. set bs i (record b { refcnt = r })) (omega arith) in
        rw (e, same, bget) (cached i b g (ground (arith, h)) (ground (arith, h)))
    by_find o (missing n) e = by_last (find_last is_spare bs) (find_last-Last is_spare bs) refl n e

module _ (bs : List Buf) (i : ℕ) (b c : Buf) where
  -- A new entry whose block no other entry has.
  pub IsCache-set :
      get_elem? bs i ≡ some b
      → IsCache bs
      → ((j : ℕ) (d : Buf)
          → get_elem? bs j ≡ some d
          → i ≢ j
          → 0 < c.dev
          → c.dev ≡ d.dev
          → c.blockno ≡ d.blockno
          → ⊥)
      → c.refcnt + 1 < 2 ^ 32
      → IsCache (set bs i c)
  IsCache-set g v alone small = record { unique = unique; counted = counted }
    where
      new : get_elem? (set bs i c) i ≡ some c
      new = get_elem?-set_self bs i c (lt_of_get_elem? bs i b g)

      counted : (j : ℕ) (d : Buf) → get_elem? (set bs i c) j ≡ some d → d.refcnt + 1 < 2 ^ 32
      counted j d e = elim (ℕ_discrete i j) [
        | yes ij ↦
            subst (λ (r : Buf). r.refcnt + 1 < 2 ^ 32)
              (some-injective _ _ (sym new ∙ ap (get_elem? (set bs i c)) ij ∙ e)) small
        | no ne ↦ v.counted j d (sym (get_elem?-set_ne bs c ne) ∙ e)
      ]

      unique :
          (j k : ℕ) (d e : Buf)
          → get_elem? (set bs i c) j ≡ some d
          → get_elem? (set bs i c) k ≡ some e
          → 0 < d.dev
          → d.dev ≡ e.dev
          → d.blockno ≡ e.blockno
          → j ≡ k
      unique j k d e gd ge real same_dev same_block = elim (ℕ_discrete i j) [
        | yes ij ↦ elim (ℕ_discrete i k) [
          | yes ik ↦ sym ij ∙ ik
          | no nk ↦
              let cd = some-injective _ _ (sym new ∙ ap (get_elem? (set bs i c)) ij ∙ gd) in
              absurd (
                alone k e (sym (get_elem?-set_ne bs c nk) ∙ ge) nk
                  (omega (arith, ap (λ (r : Buf). r.dev) cd))
                  (ap (λ (r : Buf). r.dev) cd ∙ same_dev)
                  (ap (λ (r : Buf). r.blockno) cd ∙ same_block))
        ]
        | no nj ↦ elim (ℕ_discrete i k) [
          | yes ik ↦
              let cd = some-injective _ _ (sym new ∙ ap (get_elem? (set bs i c)) ik ∙ ge) in
              absurd (
                alone j d (sym (get_elem?-set_ne bs c nj) ∙ gd) nj
                  (omega (arith, ap (λ (r : Buf). r.dev) cd))
                  (ap (λ (r : Buf). r.dev) cd ∙ sym same_dev)
                  (ap (λ (r : Buf). r.blockno) cd ∙ sym same_block))
          | no nk ↦
              v.unique j k d e (sym (get_elem?-set_ne bs c nj) ∙ gd)
                (sym (get_elem?-set_ne bs c nk) ∙ ge) real same_dev same_block
        ]
      ]

-- The buffer that `bget` returns, and the cache that it leaves.
abbrev pub Kept : ℕ → ℕ → Outcome (ℕ × List Buf) → Type 0
Kept dev blockno panic = Unit
Kept dev blockno (ok (i, bs')) =
    IsCache bs'
    × ((b : Buf) × (get_elem? bs' i ≡ some b)
        × (b.dev ≡ dev)
        × (b.blockno ≡ blockno)
        × (0 < b.refcnt))
