-- ===== src/Fs/Content/Store.antt =====
-- `memmove(bp->data + off%BSIZE, src, m)` on a block of the inode.
use os_lab.Base.{
  length, get_or, ℕ, ◌+◌, ◌-◌, ◌*◌, ◌/◌, ◌%◌, ◌≤◌, ◌<◌, ◌≡◌, refl, sym, ap, ◌∙◌, ◌≢◌, ◌⊎◌, inl, inr,
  List, arith, dec_lt, ℕ_discrete,
}
use os_lab.Fs.{bsize, maxfile, Fs, Inode, fill}
use os_lab.Fs.Slots.{
  slot, slot_own, slot_same, key, key_ne_12, key_injective, key_lt, HasBlocks, byte_at,
  byte_at_none, byte_at_some,
}
use os_lab.Fs.Content.{patch, patch_in, patch_out, range-cases, Written}

module _ (fs : Fs) (ip : Inode) (a off : ℕ) (src : List ℕ) (inv : HasBlocks fs ip)
    (here : slot fs ip (key (off / 512)) ≡ a) (a≢0 : a ≢ 0) (fits : off % 512 + length src ≤ 512)
    (small : off + length src ≤ maxfile * bsize) (some_byte : 0 < length src) where
  abbrev pub stored : Fs
  stored = record fs { cells = fill fs.cells a (off % 512) src }

  other_block : (x o : ℕ) → x ≢ a → fill fs.cells a (off % 512) src x o ≡ fs.cells x o
  other_block x o ne = ground arith

  slot-stored : (k : ℕ) → k < 141 → slot stored ip k ≡ slot fs ip k
  slot-stored k lt = elim (dec_lt k 13) [
    | yes near ↦ slot_own stored ip k near ∙ sym (slot_own fs ip k near)
    | no far ↦ slot_same fs stored ip ip k (omega arith) refl (λ ne.
        other_block (get_or ip.addrs 12 0) (k - 13)
          (λ e. indirect_apart (slot_own fs ip 12 (omega arith) ∙ e)))
  ]
    where
      indirect_apart : slot fs ip 12 ≡ a → ⊥
      indirect_apart e = key_ne_12 (off / 512) (
          inv.apart _ 12 (key_lt off (omega arith)) (omega arith) (λ z. a≢0 (sym here ∙ z))
            (here ∙ sym e))

  stored-HasBlocks : HasBlocks stored ip
  stored-HasBlocks = record {
    thirteen = inv.thirteen;
    zero_used = inv.zero_used;
    all_used =
        λ k lt ne. rw (slot-stored k lt) (inv.all_used k lt (λ z. ne (slot-stored k lt ∙ z)));
    apart = λ j k ltj ltk ne e.
        inv.apart j k ltj ltk (λ z. ne (slot-stored j ltj ∙ z))
          (sym (slot-stored j ltj) ∙ e ∙ slot-stored k ltk);
  }

  in_piece :
      (p : ℕ)
      → off % 512 ≤ p
      → p < off % 512 + length src
      → fill fs.cells a (off % 512) src a p ≡ get_or src (p - off % 512) 0
  in_piece p le lt = ground arith

  out_of_piece :
      (p : ℕ)
      → (p < off % 512) ⊎ (off % 512 + length src ≤ p)
      → fill fs.cells a (off % 512) src a p ≡ fs.cells a p
  out_of_piece p out = ground arith

  byte_at-stored :
      (o : ℕ) → o < maxfile * bsize → byte_at stored ip o ≡ patch (byte_at fs ip) off src o
  byte_at-stored o lt = elim (ℕ_discrete (o / 512) (off / 512)) [
    | yes e ↦ byte_at_some stored ip o a (slot-stored _ (key_lt o lt) ∙ at_a e) a≢0 ∙ same_block e
    | no ne ↦ other_place ne ∙ sym (patch_out (byte_at fs ip) off src o (grind arith))
  ]
    where
      at_a : o / 512 ≡ off / 512 → slot fs ip (key (o / 512)) ≡ a
      at_a e = ap (λ bn. slot fs ip (key bn)) e ∙ here

      same_block :
          o / 512 ≡ off / 512
          → fill fs.cells a (off % 512) src a (o % 512) ≡ patch (byte_at fs ip) off src o
      same_block e = elim (range-cases off (length src) o) [
        | inl (from, to) ↦
            in_piece (o % 512) (omega arith) (omega arith)
            ∙ ap (λ i. get_or src i 0) (omega arith)
            ∙ sym (patch_in (byte_at fs ip) off src o from to)
        | inr out ↦
            out_of_piece (o % 512) (grind arith)
            ∙ sym (byte_at_some fs ip o a (at_a e) a≢0)
            ∙ sym (patch_out (byte_at fs ip) off src o out)
      ]

      not_a : o / 512 ≢ off / 512 → slot fs ip (key (o / 512)) ≢ a
      not_a ne e = ne (
          key_injective (o / 512) (off / 512) (
            inv.apart _ _ (key_lt o lt) (key_lt off (omega arith)) (λ z. a≢0 (sym e ∙ z))
              (e ∙ sym here)))

      other_place : o / 512 ≢ off / 512 → byte_at stored ip o ≡ byte_at fs ip o
      other_place ne = elim (ℕ_discrete (slot fs ip (key (o / 512))) 0) [
        | yes z ↦
            byte_at_none stored ip o (slot-stored _ (key_lt o lt) ∙ z)
            ∙ sym (byte_at_none fs ip o z)
        | no nz ↦
            byte_at_some stored ip o _ (slot-stored _ (key_lt o lt)) nz
            ∙ other_block _ (o % 512) (not_a ne)
            ∙ sym (byte_at_some fs ip o _ refl nz)
      ]

  one_block : (o : ℕ) → off ≤ o → o < off + length src → o / 512 ≡ off / 512
  one_block o from to = omega arith

  -- The content of the inode with the bytes of `src` in place.
  pub stored-Written : Written fs ip off src stored ip
  stored-Written = record {
    has_blocks = stored-HasBlocks;
    content = byte_at-stored;
    backed = λ o from to z. a≢0 (
        sym (
          slot-stored _ (key_lt o (omega arith))
          ∙ ap (λ bn. slot fs ip (key bn)) (one_block o from to)
          ∙ here)
        ∙ z);
    keeps = λ k lt ne. slot-stored k lt;
    same_end = refl;
    same_kind = refl;
    foreign = λ x f. (
      record {
        in_use = f.in_use;
        elsewhere = λ k lt e. f.elsewhere k lt (sym (slot-stored k lt) ∙ e);
      },
      λ o.
          other_block x o
            (λ e. f.elsewhere (key (off / 512)) (key_lt off (omega arith)) (here ∙ sym e)),
    );
  }
