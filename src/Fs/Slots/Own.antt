-- ===== src/Fs/Slots/Own.antt =====
-- A block for one of the 13 addresses of an inode.
use os_lab.Base.Outcome.{Outcome, ok, panic, ◌>>=◌}
use os_lab.Base.{
  set, length-set, get_or, get_or-set_self, get_or-set_ne, ℕ, zero, suc, ◌+◌, ◌-◌, ◌≤◌, ◌<◌, ◌≡◌,
  refl, sym, ap, ◌∙◌, subst, ◌≢◌, Bool, true, false, false≢true, arith, dec_lt, ℕ_discrete,
}
use os_lab.Fs.{Fs, Inode, mark, bzero, balloc, set_cell, own_block}
use os_lab.Fs.Slots.{
  slot, slot_own, slot_indirect, slot_absent, slot_same, HasBlocks, indirect_used, free_from,
  free_blocks, Adds,
}
use os_lab.Fs.Alloc.{Allocs, full, got, balloc-Allocs}

pub free_from_full :
    (used : ℕ → Bool) (n b : ℕ)
    → ((x : ℕ) → b ≤ x → x < b + n → used x ≡ true)
    → free_from used n b ≡ 0
unfolding free_from
free_from_full used zero b h = refl
free_from_full used (suc n) b h = rw (
  h b (omega arith) (omega arith),
  free_from_full used n (suc b) (λ x le lt. h x (omega arith) (omega arith)),
)

free_from-mark_out :
    (used : ℕ → Bool) (n b a : ℕ) → a < b → free_from (mark used a true) n b ≡ free_from used n b
unfolding free_from
free_from-mark_out used zero b a lt = refl
free_from-mark_out used (suc n) b a lt =
    rw (free_from-mark_out used n (suc b) a (omega arith)) (ground arith)

pub free_from-mark :
    (used : ℕ → Bool) (n b a : ℕ)
    → b ≤ a
    → a < b + n
    → used a ≡ false
    → free_from used n b ≡ suc (free_from (mark used a true) n b)
unfolding free_from
free_from-mark used zero b a le lt free = absurd (omega arith)
free_from-mark used (suc n) b a le lt free = elim (ℕ_discrete b a) [
  | yes e ↦ rw (e, free, free_from-mark_out used n (suc a) a (omega arith)) (ground arith)
  | no ne ↦ rw (free_from-mark used n (suc b) a (omega arith) (omega arith) free) (ground arith)
]

pub bzero_used :
    (fs : Fs) (a x o : ℕ)
    → fs.used a ≡ false
    → fs.used x ≡ true
    → bzero fs.cells a x o ≡ fs.cells x o
bzero_used fs a x o free used = elim (ℕ_discrete x a) [
  | yes same ↦ absurd (false≢true (sym free ∙ ap fs.used (sym same) ∙ used))
  | no d ↦ ground arith
]

pub set_cell_ne :
    (cells : ℕ → ℕ → ℕ) (b j a x o : ℕ)
    → ((x ≡ b) → (o ≡ j) → ⊥)
    → set_cell cells b j a x o ≡ cells x o
set_cell_ne cells b j a x o ne = elim (ℕ_discrete x b) [
  | yes e ↦ elim (ℕ_discrete o j) [ yes f ↦ absurd (ne e f) | no g ↦ ground arith ]
  | no d ↦ ground arith
]

-- What happens where a slot is looked up, and filled if it is empty.
pub data Owns (fs : Fs) (ip : Inode) (at : ℕ) : Outcome (ℕ × Fs × Inode) → Type 0 where
  had : slot fs ip at ≢ 0 → Owns fs ip at (ok (slot fs ip at, fs, ip))
  disk_full : free_blocks fs ≡ 0 → Owns fs ip at panic
  added :
      (a : ℕ) (fs' : Fs) (ip' : Inode) → Adds fs ip at a fs' ip' → Owns fs ip at (ok (a, fs', ip'))

pub own_block-Owns :
    (fs : Fs) (ip : Inode) (k : ℕ) → k < 13 → HasBlocks fs ip → Owns fs ip k (own_block fs ip k)
unfolding own_block
own_block-Owns fs ip k lt inv = elim (ℕ_discrete (get_or ip.addrs k 0) 0) [
  | no ne ↦
      subst (Owns fs ip k) (rw (slot_own fs ip k lt) (ground arith))
        (had (λ z. ne (sym (slot_own fs ip k lt) ∙ z)))
  | yes e ↦ rw (own_block, e) (new e (balloc fs) (balloc-Allocs fs))
]
  where
    empty : get_or ip.addrs k 0 ≡ 0 → slot fs ip k ≡ 0
    empty e = slot_own fs ip k lt ∙ e

    far_kept :
        get_or ip.addrs k 0 ≡ 0
        → (a : ℕ) → fs.used a ≡ false
        → (j : ℕ) → 13 ≤ j
        → slot
            (record fs { used = mark fs.used a true; cells = bzero fs.cells a })
            (record ip { addrs = set ip.addrs k a })
            j
          ≡ slot fs ip j
    far_kept e a free j le = elim (ℕ_discrete k 12) [
      | yes twelve ↦
          slot_indirect _ _ j le (λ z. fresh (sym (now_at twelve) ∙ z))
          ∙ ap zero_at (now_at twelve)
          ∙ ground arith
          ∙ sym (slot_absent fs ip j le (sym (ap (λ i. get_or ip.addrs i 0) twelve) ∙ e))
      | no ne ↦
          slot_same fs _ ip _ j le (get_or-set_ne ip.addrs k 12 a 0 ne)
            (λ nz. bzero_used fs a _ _ free (indirect_used fs ip inv nz))
    ]
      where
        zero_at : ℕ → ℕ
        zero_at b = bzero fs.cells a b (j - 13)

        fresh : a ≢ 0
        fresh z = false≢true (sym free ∙ ap fs.used z ∙ inv.zero_used)

        now_at : k ≡ 12 → get_or (set ip.addrs k a) 12 0 ≡ a
        now_at twelve =
            ap (λ i. get_or (set ip.addrs k a) i 0) (sym twelve)
            ∙ get_or-set_self ip.addrs k a 0 (omega (arith, inv.thirteen))

    new :
        get_or ip.addrs k 0 ≡ 0
        → (o : Outcome (ℕ × Fs)) → Allocs fs o
        → Owns fs ip k (o >>= λ (a, fs'). ok (a, fs', record ip { addrs = set ip.addrs k a }))
    new e o (full h) = disk_full (free_from_full fs.used fs.size 0 (λ x le lt. h x (omega arith)))
    new e o (got a lta free) = added a _ _ (record {
      was_free = free;
      in_range = lta;
      was_empty = empty e;
      here = slot_own _ _ k lt ∙ get_or-set_self ip.addrs k a 0 (omega (arith, inv.thirteen));
      others = λ j ltj ne. elim (dec_lt j 13) [
        | yes own ↦
            slot_own _ _ j own
            ∙ get_or-set_ne ip.addrs k j a 0 (λ z. ne (sym z))
            ∙ sym (slot_own fs ip j own)
        | no far ↦ far_kept e a free j (omega arith)
      ];
      marks = λ x. refl;
      zeroed = λ o. ground arith;
      kept = λ x o u ne. bzero_used fs a x o free u;
      counted = free_from-mark fs.used fs.size 0 a (omega arith) (omega arith) free;
      same_size = refl;
      same_length = length-set ip.addrs k a;
      same_kind = refl;
      same_end = refl;
    })
