-- ===== src/Fs/Trunc/Owned.antt =====
-- The blocks that `itrunc` frees, in its order, and their slots.
use os_lab.Base.{
  ltb, ◌==◌, if◌then◌else◌, length, get_elem?, get_or, take, length-take, ℕ, zero, suc, ◌+◌, ◌-◌,
  ◌≤◌, ◌<◌, ◌≡◌, refl, sym, ap, ◌∙◌, ◌≢◌, inl, inr, none, some, some-injective, List, [], ◌∷◌, ◌++◌,
  arith, dec_lt, ℕ_discrete,
}
use os_lab.Fs.{Fs, Inode, read_cells}
use os_lab.Fs.Slots.{slot, slot_own, slot_indirect, slot_absent, HasBlocks}
use os_lab.Fs.Trunc.Entries.{
  append_inv, append_left, append_right, take_inv, take_at, read_cells_inv, read_cells_at,
  length-read_cells,
}

abbrev pub behind : Fs → Inode → List ℕ
behind fs ip =
    let b = get_or ip.addrs 12 0 in if b == 0 then [] else read_cells (fs.cells b) 0 128 ++ b ∷ []

abbrev pub blocks_of : Fs → Inode → List ℕ
blocks_of fs ip = take 12 ip.addrs ++ behind fs ip

-- The slot of the block `i` of the list.
abbrev pub place : ℕ → ℕ
place i = if ltb i 12 then i else (if ltb i 140 then i + 1 else 12)

pub place_lt : (i : ℕ) → place i < 141
place_lt i = ground arith

pub place_injective : (i j : ℕ) → i < 141 → j < 141 → place i ≡ place j → i ≡ j
place_injective i j lti ltj e = ground arith

module _ (fs : Fs) (ip : Inode) (inv : HasBlocks fs ip) where
  twelve : length (take 12 ip.addrs) ≡ 12
  twelve = length-take 12 ip.addrs ∙ omega (arith, inv.thirteen)

  pub behind_some :
      get_or ip.addrs 12 0 ≢ 0
      → behind fs ip
        ≡ read_cells (fs.cells (get_or ip.addrs 12 0)) 0 128 ++ get_or ip.addrs 12 0 ∷ []
  behind_some ne = ground arith

  pub behind_none : get_or ip.addrs 12 0 ≡ 0 → behind fs ip ≡ []
  behind_none e = ground arith

  behind_inv :
      (j x : ℕ)
      → get_elem? (behind fs ip) j ≡ some x
      → (12 + j < 141) × (slot fs ip (place (12 + j)) ≡ x)
  behind_inv j x e = elim (ℕ_discrete (get_or ip.addrs 12 0) 0) [
    | yes z ↦ absurd (nothing (sym (ap (λ l. get_elem? l j) (behind_none z)) ∙ e))
    | no ne ↦
        elim (append_inv (read_cells (fs.cells (get_or ip.addrs 12 0)) 0 128)
          (get_or ip.addrs 12 0 ∷ []) j x (sym (ap (λ l. get_elem? l j) (behind_some ne)) ∙ e)) [
            | inl f ↦
                let (lt, c) = read_cells_inv _ 0 128 j x f in
                (
                  omega arith,
                  ap (slot fs ip) (deep lt)
                      ∙ slot_indirect fs ip (13 + j) (omega arith) ne
                      ∙ ap (fs.cells (get_or ip.addrs 12 0)) (omega arith)
                      ∙ c,
                )
            | inr (k, at, f) ↦
                let at' : j ≡ 128 + k =
                  at
                  ∙ ap (λ n. n + k) (length-read_cells (fs.cells (get_or ip.addrs 12 0)) 0 128) in
                let (zero_k, same) = single k f in
                (
                  omega (arith, at', zero_k),
                  ap (slot fs ip) (last (at' ∙ ap (λ n. 128 + n) zero_k))
                      ∙ slot_own fs ip 12 (omega arith)
                      ∙ same,
                )
          ]
  ]
    where
      nothing : none ≢ some x
      nothing e = cc

      deep : j < 128 → place (12 + j) ≡ 13 + j
      deep lt = ground arith

      last : j ≡ 128 + 0 → place (12 + j) ≡ 12
      last e = ground arith

      single :
          (k : ℕ)
          → get_elem? (get_or ip.addrs 12 0 ∷ []) k ≡ some x
          → (k ≡ 0) × (get_or ip.addrs 12 0 ≡ x)
      single zero f = (refl, some-injective _ _ f)
      single (suc k) f = cc

  pub blocks_of_inv :
      (i x : ℕ) → get_elem? (blocks_of fs ip) i ≡ some x → (i < 141) × (slot fs ip (place i) ≡ x)
  blocks_of_inv i x e = elim (append_inv (take 12 ip.addrs) (behind fs ip) i x e) [
    | inl f ↦
        let (lt, g) = take_inv 12 ip.addrs i x f in
        (omega arith, ap (slot fs ip) (near i lt) ∙ slot_own fs ip i (omega arith) ∙ g)
    | inr (j, at, f) ↦
        let at' : i ≡ 12 + j = at ∙ ap (λ n. n + j) twelve in
        let (lt, g) = behind_inv j x f in (omega arith, ap (λ n. slot fs ip (place n)) at' ∙ g)
  ]
    where
      near : (i : ℕ) → i < 12 → place i ≡ i
      near i lt = ground arith

  pub blocks_of_at :
      (k : ℕ)
      → k < 141
      → slot fs ip k ≢ 0
      → (i : ℕ) × (get_elem? (blocks_of fs ip) i ≡ some (slot fs ip k))
  blocks_of_at k lt ne = elim (dec_lt k 12) [
    | yes near ↦ (
      k,
      append_left (take 12 ip.addrs) (behind fs ip) k _ (
          take_at 12 ip.addrs k near (omega (arith, inv.thirteen))
          ∙ ap some (sym (slot_own fs ip k (omega arith)))),
    )
    | no far ↦
        let (j, e) = in_behind (omega arith) in
        append_right (take 12 ip.addrs) (behind fs ip) j (slot fs ip k) e
  ]
    where
      has_indirect : 12 ≤ k → get_or ip.addrs 12 0 ≢ 0
      has_indirect le z = elim (ℕ_discrete k 12) [
        | yes e ↦ ne (ap (slot fs ip) e ∙ slot_own fs ip 12 (omega arith) ∙ z)
        | no d ↦ ne (slot_absent fs ip k (omega arith) z)
      ]

      in_list :
          12 ≤ k
          → (i : ℕ) × (get_elem?
                (read_cells (fs.cells (get_or ip.addrs 12 0)) 0 128 ++ get_or ip.addrs 12 0 ∷ [])
                i
              ≡ some (slot fs ip k))
      in_list le = elim (ℕ_discrete k 12) [
        | yes e ↦
            append_right (read_cells (fs.cells (get_or ip.addrs 12 0)) 0 128)
              (get_or ip.addrs 12 0 ∷ []) 0 (slot fs ip k)
              (ap some (sym (ap (slot fs ip) e ∙ slot_own fs ip 12 (omega arith))))
        | no d ↦ (
          k - 13,
          append_left (read_cells (fs.cells (get_or ip.addrs 12 0)) 0 128)
              (get_or ip.addrs 12 0 ∷ []) (k - 13) (slot fs ip k)
              (read_cells_at (fs.cells (get_or ip.addrs 12 0)) 0 128 (k - 13) (omega arith)
                ∙ ap some (
                    ap (fs.cells (get_or ip.addrs 12 0)) (omega arith)
                    ∙ sym (slot_indirect fs ip k (omega arith) (has_indirect le)))),
        )
      ]

      in_behind : 12 ≤ k → (i : ℕ) × (get_elem? (behind fs ip) i ≡ some (slot fs ip k))
      in_behind le =
          let (i, e) = in_list le in
          (i, ap (λ l. get_elem? l i) (behind_some (has_indirect le)) ∙ e)
