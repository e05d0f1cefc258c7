-- ===== src/Fs/Content/Read.antt =====
-- The loop of `readi` over bytes that the inode has blocks for.
use os_lab.Base.Outcome.{ok}
use os_lab.Base.{
  ltb, lt→ltb, tests, Bool-cases, get_or, ℕ, zero, suc, ◌+◌, ◌-◌, ◌*◌, ◌/◌, ◌%◌, ◌≤◌, ◌<◌, ◌≡◌,
  refl, sym, ap, ◌∙◌, ap₂, ◌≢◌, inl, inr, false, some, ◌∷◌, ◌++◌, arith,
}
use os_lab.Fs.{
  bsize, maxfile, Fs, Inode, own_block, indirect_block, bmap, piece, read_cells, read_loop,
}
use os_lab.Fs.Slots.{slot, slot_own, slot_indirect, slot_absent, key, byte_at, byte_at_some}
use os_lab.Fs.Content.{piece_lt, piece_le, piece_pos}

read_cells_cong :
    (f g : ℕ → ℕ) (p q m : ℕ)
    → ((i : ℕ) → i < m → f (p + i) ≡ g (q + i))
    → read_cells f p m ≡ read_cells g q m
unfolding read_cells
read_cells_cong f g p q zero h = refl
read_cells_cong f g p q (suc m) h =
    ap₂ ◌∷◌ (ap f plus_zero ∙ h 0 (omega arith) ∙ ap g (omega arith)) (
      read_cells_cong f g (p + 1) (q + 1) m
        (λ i lt. ap f (next_p i) ∙ h (suc i) (omega arith) ∙ ap g (omega arith)))
  where
    plus_zero : p ≡ p + 0
    plus_zero = omega arith

    next_p : (i : ℕ) → p + 1 + i ≡ p + suc i
    next_p i = omega arith

read_cells_append :
    (f : ℕ → ℕ) (p m k : ℕ) → read_cells f p m ++ read_cells f (p + m) k ≡ read_cells f p (m + k)
unfolding read_cells
read_cells_append f p zero k = ap₂ (read_cells f) plus_zero zero_plus
  where
    plus_zero : p + 0 ≡ p
    plus_zero = omega arith

    zero_plus : k ≡ 0 + k
    zero_plus = omega arith
read_cells_append f p (suc m) k =
    ap (◌∷◌ (f p)) (
      ap (λ q. read_cells f (p + 1) m ++ read_cells f q k) next_p ∙ read_cells_append f (p + 1) m k)
    ∙ ap (read_cells f p) next_m
  where
    next_p : p + suc m ≡ p + 1 + m
    next_p = omega arith

    next_m : suc (m + k) ≡ suc m + k
    next_m = omega arith

own_block_had :
    (fs : Fs) (ip : Inode) (k : ℕ)
    → get_or ip.addrs k 0 ≢ 0
    → own_block fs ip k ≡ ok (get_or ip.addrs k 0, fs, ip)
unfolding own_block
own_block_had fs ip k ne = ground arith

indirect_block_had :
    (fs : Fs) (b j : ℕ) → fs.cells b j ≢ 0 → indirect_block fs b j ≡ ok (fs.cells b j, fs)
unfolding indirect_block
indirect_block_had fs b j ne = ground arith

-- `bmap` allocates nothing where there is a block.
bmap_backed :
    (fs : Fs) (ip : Inode) (bn : ℕ)
    → bn < 140
    → slot fs ip (key bn) ≢ 0
    → bmap fs ip bn ≡ ok (slot fs ip (key bn), fs, ip)
unfolding bmap
bmap_backed fs ip bn lt ne = elim (Bool-cases (ltb bn 12)) [
  | inl near ↦ rw (bmap, near) (direct (omega tests) (λ z. ne (ap (slot fs ip) (ground arith) ∙ z)))
  | inr far ↦
      rw
        (
          bmap,
          far,
          lt→ltb (bn - 12) 128 (omega arith),
          own_block_had fs ip 12 (own_ne (behind far)),
          indirect_block_had fs (get_or ip.addrs 12 0) (bn - 12)
              (λ z. behind far (cell (own_ne (behind far)) ∙ z)),
        )
        (ap (λ a. ok (a, fs, ip)) (sym (cell (own_ne (behind far))))
          ∙ ap (λ k. ok (slot fs ip k, fs, ip)) (next (twelve far)))
]
  where
    direct : bn < 12 → slot fs ip bn ≢ 0 → own_block fs ip bn ≡ ok (slot fs ip bn, fs, ip)
    direct near ne =
        own_block_had fs ip bn (λ z. ne (slot_own fs ip bn (omega arith) ∙ z))
        ∙ ap (λ a. ok (a, fs, ip)) (sym (slot_own fs ip bn (omega arith)))

    twelve : ltb bn 12 ≡ false → 12 ≤ bn
    twelve far = ground arith

    next : 12 ≤ bn → 13 + (bn - 12) ≡ bn + 1
    next le = omega arith

    behind : ltb bn 12 ≡ false → slot fs ip (13 + (bn - 12)) ≢ 0
    behind far z = ne (ap (slot fs ip) (grind (arith, twelve far)) ∙ z)

    own_ne : slot fs ip (13 + (bn - 12)) ≢ 0 → get_or ip.addrs 12 0 ≢ 0
    own_ne ne z = ne (slot_absent fs ip (13 + (bn - 12)) (omega arith) z)

    index : 13 + (bn - 12) - 13 ≡ bn - 12
    index = omega arith

    cell :
        get_or ip.addrs 12 0 ≢ 0
        → slot fs ip (13 + (bn - 12)) ≡ fs.cells (get_or ip.addrs 12 0) (bn - 12)
    cell ne =
        slot_indirect fs ip (13 + (bn - 12)) (omega arith) ne
        ∙ ap (fs.cells (get_or ip.addrs 12 0)) index

-- The bytes of one block.
piece-eq :
    (fs : Fs) (ip : Inode) (off m : ℕ)
    → off % 512 + m ≤ 512
    → ((o : ℕ) → off ≤ o → o < off + m → slot fs ip (key (o / 512)) ≢ 0)
    → read_cells (fs.cells (slot fs ip (key (off / 512)))) (off % 512) m
      ≡ read_cells (byte_at fs ip) off m
piece-eq fs ip off m fits backed = read_cells_cong _ _ (off % 512) off m (λ i lt.
    ap₂ fs.cells (ap (λ bn. slot fs ip (key bn)) (same_block i lt)) (same_place i lt)
    ∙ sym (byte_at_some fs ip (off + i) _ refl (backed (off + i) (omega arith) (omega arith))))
  where
    same_block : (i : ℕ) → i < m → off / 512 ≡ (off + i) / 512
    same_block i lt = omega arith

    same_place : (i : ℕ) → i < m → off % 512 + i ≡ (off + i) % 512
    same_place i lt = omega arith

pub read_loop-eq :
    (fuel : ℕ) (fs : Fs) (ip : Inode) (off n : ℕ)
    → n ≤ fuel
    → off + n ≤ maxfile * bsize
    → ((o : ℕ) → off ≤ o → o < off + n → slot fs ip (key (o / 512)) ≢ 0)
    → read_loop fuel fs ip off n ≡ some (ok (read_cells (byte_at fs ip) off n, fs, ip))
unfolding read_loop read_cells
read_loop-eq fuel fs ip off zero le small backed = refl
read_loop-eq zero fs ip off (suc n) le small backed = absurd (omega arith)
read_loop-eq (suc fuel) fs ip off (suc n) le small backed =
    let m : ℕ = piece off (suc n) in
    rw
      (
        read_loop,
        bmap_backed fs ip (off / 512) (omega arith) (backed off (omega arith) (omega arith)),
        read_loop-eq fuel fs ip (off + m) (suc n - m)
            (omega (arith, piece_le off (suc n), piece_lt off (suc n), piece_pos off (suc n)))
            (omega (arith, piece_le off (suc n), piece_lt off (suc n), piece_pos off (suc n)))
            (λ o from to.
              backed o
                (omega (arith, piece_le off (suc n), piece_lt off (suc n), piece_pos off (suc n)))
                (omega (arith, piece_le off (suc n), piece_lt off (suc n), piece_pos off (suc n)))),
      )
      (ap (λ bytes. some (ok (bytes, fs, ip)))
        (ap (λ xs. xs ++ read_cells (byte_at fs ip) (off + m) (suc n - m))
            (piece-eq fs ip off m
              (omega (arith, piece_le off (suc n), piece_lt off (suc n), piece_pos off (suc n)))
              (λ o from to.
                backed o from (
                  omega
                    (arith, piece_le off (suc n), piece_lt off (suc n), piece_pos off (suc n)))))
          ∙ read_cells_append (byte_at fs ip) off m (suc n - m)
          ∙ ap (read_cells (byte_at fs ip) off) all))
  where
    all : piece off (suc n) + (suc n - piece off (suc n)) ≡ suc n
    all = omega (arith, piece_le off (suc n))
