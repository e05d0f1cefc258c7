-- ===== src/Fs/Slots/Indirect.antt =====
-- A block for one of the addresses of the indirect block.
use os_lab.Base.Outcome.{Outcome, ok, ◌>>=◌}
use os_lab.Base.{
  get_or, ℕ, ◌+◌, ◌-◌, ◌<◌, ◌≡◌, refl, sym, ap, ◌∙◌, subst, ap₂, ◌≢◌, true, false, false≢true,
  arith, dec_lt, ℕ_discrete,
}
use os_lab.Fs.{Fs, Inode, mark, bzero, balloc, set_cell, indirect_block}
use os_lab.Fs.Slots.{slot, slot_own, slot_indirect, slot_same, HasBlocks, indirect_used}
use os_lab.Fs.Alloc.{Allocs, full, got, balloc-Allocs}
use os_lab.Fs.Slots.Own.{
  free_from_full, free_from-mark, bzero_used, set_cell_ne, Owns, had, disk_full, added,
}

pub indirect_block-Owns :
    (fs : Fs) (ip : Inode) (b j : ℕ)
    → slot fs ip 12 ≡ b
    → b ≢ 0
    → j < 128
    → HasBlocks fs ip
    → Owns fs ip (13 + j) (indirect_block fs b j >>= λ (a, fs'). ok (a, fs', ip))
unfolding indirect_block
indirect_block-Owns fs ip b j at_b b≢0 lt inv = elim (ℕ_discrete (fs.cells b j) 0) [
  | no ne ↦ subst (Owns fs ip (13 + j)) (rw (cell) (ground arith)) (had (λ z. ne (sym cell ∙ z)))
  | yes e ↦ rw (indirect_block, e) (new e (balloc fs) (balloc-Allocs fs))
]
  where
    own : get_or ip.addrs 12 0 ≡ b
    own = sym (slot_own fs ip 12 (omega arith)) ∙ at_b

    index : 13 + j - 13 ≡ j
    index = omega arith

    cell : slot fs ip (13 + j) ≡ fs.cells b j
    cell =
        slot_indirect fs ip (13 + j) (omega arith) (λ z. b≢0 (sym own ∙ z)) ∙ ap₂ fs.cells own index

    used_b : fs.used b ≡ true
    used_b = subst (λ x. fs.used x ≡ true) own (indirect_used fs ip inv (λ z. b≢0 (sym own ∙ z)))

    apart : {a : ℕ} → fs.used a ≡ false → a ≢ b
    apart free z = false≢true (sym free ∙ ap fs.used z ∙ used_b)

    -- The cells after the two writes.
    after : ℕ → ℕ → ℕ → ℕ
    after a = set_cell (bzero fs.cells a) b j a

    filled : ℕ → Fs
    filled a = record fs { used = mark fs.used a true; cells = after a }

    after_at : (a : ℕ) → after a (get_or ip.addrs 12 0) (13 + j - 13) ≡ a
    after_at a = ap₂ (after a) own index ∙ ground arith

    after_else :
        (a x o : ℕ)
        → fs.used a ≡ false
        → fs.used x ≡ true
        → ((x ≡ b) → (o ≡ j) → ⊥)
        → after a x o ≡ fs.cells x o
    after_else a x o free u ne =
        set_cell_ne (bzero fs.cells a) b j a x o ne ∙ bzero_used fs a x o free u

    new :
        fs.cells b j ≡ 0
        → (o : Outcome (ℕ × Fs)) → Allocs fs o
        → Owns fs ip (13 + j) (
            o
            >>= (λ (a, fs'). ok (a, record fs' { cells = set_cell fs'.cells b j a }))
            >>= λ (a, fs'). ok (a, fs', ip))
    new e o (full h) = disk_full (free_from_full fs.used fs.size 0 (λ x le lt. h x (omega arith)))
    new e o (got a lta free) = added a (filled a) ip (record {
      was_free = free;
      in_range = lta;
      was_empty = cell ∙ e;
      here =
          slot_indirect (filled a) ip (13 + j) (omega arith) (λ z. b≢0 (sym own ∙ z)) ∙ after_at a;
      others = λ k ltk ne. elim (dec_lt k 13) [
        | yes near ↦ slot_own (filled a) ip k near ∙ sym (slot_own fs ip k near)
        | no far ↦ slot_same fs (filled a) ip ip k (omega arith) refl (λ nz.
            after_else a _ (k - 13) free (indirect_used fs ip inv nz) (λ _ z. ne (omega arith)))
      ];
      marks = λ x. refl;
      zeroed = λ o. set_cell_ne (bzero fs.cells a) b j a a o (λ z _. apart free z) ∙ ground arith;
      kept = λ x o u ne. after_else a x o free u (λ z _. ne (z ∙ sym at_b));
      counted = free_from-mark fs.used fs.size 0 a (omega arith) (omega arith) free;
      same_size = refl;
      same_length = refl;
      same_kind = refl;
      same_end = refl;
    })
