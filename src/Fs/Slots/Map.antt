-- ===== src/Fs/Slots/Map.antt =====
-- `bmap`: the block that it returns, and the blocks that it has allocated.
use os_lab.Base.Outcome.{Outcome, ok, panic, ◌>>=◌}
use os_lab.Base.{
  ltb, lt→ltb, tests, Bool-cases, ℕ, suc, ◌+◌, ◌-◌, ◌*◌, ◌≤◌, ◌<◌, ◌≡◌, refl, sym, ap, ◌∙◌, ◌≢◌,
  inl, inr, arith,
}
use os_lab.Fs.{bsize, maxfile, Fs, Inode, own_block, indirect_block, bmap}
use os_lab.Fs.Slots.{slot, key, HasBlocks, byte_at, free_blocks, Adds, Foreign}
use os_lab.Fs.Slots.New.{a≢0, Adds-HasBlocks, byte_at-Adds, Foreign-Adds}
use os_lab.Fs.Slots.Own.{Owns, had, disk_full, added, own_block-Owns}
use os_lab.Fs.Slots.Indirect.{indirect_block-Owns}

module _ (fs : Fs) (ip : Inode) where
  -- `n` blocks have been added, one after the other.
  pub data Grown : ℕ → Fs → Inode → Type 0 where
    same : Grown 0 fs ip
    more :
        (n at a : ℕ) (fs₁ : Fs) (ip₁ : Inode) (fs₂ : Fs) (ip₂ : Inode)
        → Grown n fs₁ ip₁
        → Adds fs₁ ip₁ at a fs₂ ip₂
        → Grown (suc n) fs₂ ip₂

  -- The two ways out of `bmap`.
  pub data Maps (bn : ℕ) : Outcome (ℕ × Fs × Inode) → Type 0 where
    out_of_blocks : free_blocks fs < 2 → Maps bn panic
    mapped :
        (n a : ℕ) (fs' : Fs) (ip' : Inode)
        → n ≤ 2
        → Grown n fs' ip'
        → slot fs' ip' (key bn) ≡ a
        → a ≢ 0
        → Maps bn (ok (a, fs', ip'))

  pub Grown-HasBlocks :
      (n : ℕ) (fs' : Fs) (ip' : Inode) → HasBlocks fs ip → Grown n fs' ip' → HasBlocks fs' ip'
  Grown-HasBlocks n fs' ip' inv same = inv
  Grown-HasBlocks _ fs' ip' inv (more n at a fs₁ ip₁ _ _ g adds) =
      Adds-HasBlocks fs₁ ip₁ at a fs' ip' (Grown-HasBlocks n fs₁ ip₁ inv g) adds

  pub byte_at-Grown :
      (n : ℕ) (fs' : Fs) (ip' : Inode)
      → HasBlocks fs ip
      → Grown n fs' ip'
      → (o : ℕ) → o < maxfile * bsize
      → byte_at fs' ip' o ≡ byte_at fs ip o
  byte_at-Grown n fs' ip' inv same o lt = refl
  byte_at-Grown _ fs' ip' inv (more n at a fs₁ ip₁ _ _ g adds) o lt =
      byte_at-Adds fs₁ ip₁ at a fs' ip' (Grown-HasBlocks n fs₁ ip₁ inv g) adds o lt
      ∙ byte_at-Grown n fs₁ ip₁ inv g o lt

  pub free_blocks-Grown :
      (n : ℕ) (fs' : Fs) (ip' : Inode) → Grown n fs' ip' → free_blocks fs ≡ n + free_blocks fs'
  free_blocks-Grown n fs' ip' same = omega arith
  free_blocks-Grown _ fs' ip' (more n at a fs₁ ip₁ _ _ g adds) =
      free_blocks-Grown n fs₁ ip₁ g ∙ omega (arith, adds.counted)

  pub slot-Grown :
      (n : ℕ) (fs' : Fs) (ip' : Inode)
      → HasBlocks fs ip
      → Grown n fs' ip'
      → (k : ℕ) → k < 141
      → slot fs ip k ≢ 0
      → slot fs' ip' k ≡ slot fs ip k
  slot-Grown n fs' ip' inv same k lt ne = refl
  slot-Grown _ fs' ip' inv (more n at a fs₁ ip₁ _ _ g adds) k lt ne =
      let before = slot-Grown n fs₁ ip₁ inv g k lt ne in
      adds.others k lt (λ e. ne (sym before ∙ ap (slot fs₁ ip₁) e ∙ adds.was_empty)) ∙ before

  -- What does not change in the inode.
  pub end-Grown : (n : ℕ) (fs' : Fs) (ip' : Inode) → Grown n fs' ip' → ip'.size ≡ ip.size
  end-Grown n fs' ip' same = refl
  end-Grown _ fs' ip' (more n at a fs₁ ip₁ _ _ g adds) = adds.same_end ∙ end-Grown n fs₁ ip₁ g

  pub kind-Grown : (n : ℕ) (fs' : Fs) (ip' : Inode) → Grown n fs' ip' → ip'.kind ≡ ip.kind
  kind-Grown n fs' ip' same = refl
  kind-Grown _ fs' ip' (more n at a fs₁ ip₁ _ _ g adds) = adds.same_kind ∙ kind-Grown n fs₁ ip₁ g

  -- The block `x` of another file is still in use, and no block of this one.
  pub Foreign-Grown :
      (n : ℕ) (fs' : Fs) (ip' : Inode) (x : ℕ)
      → Grown n fs' ip'
      → Foreign fs ip x
      → Foreign fs' ip' x × ((o : ℕ) → fs'.cells x o ≡ fs.cells x o)
  Foreign-Grown n fs' ip' x same f = (f, λ o. refl)
  Foreign-Grown _ fs' ip' x (more n at a fs₁ ip₁ _ _ g adds) f =
      let (f₁, kept) = Foreign-Grown n fs₁ ip₁ x g f in
      let (f₂, kept₂) = Foreign-Adds fs₁ ip₁ at a fs' ip' x adds f₁ in (f₂, λ o. kept₂ o ∙ kept o)

-- Where `n` blocks have been added before the last step of `bmap`.
last_step :
    (fs : Fs) (ip : Inode) (bn n at : ℕ) (fs' : Fs) (ip' : Inode)
    → n ≤ 1
    → HasBlocks fs' ip'
    → Grown fs ip n fs' ip'
    → at ≡ key bn
    → (o : Outcome (ℕ × Fs × Inode)) → Owns fs' ip' at o
    → Maps fs ip bn o
last_step fs ip bn n at fs' ip' le inv g e o (had ne) =
    mapped n (slot fs' ip' at) fs' ip' (omega arith) g (ap (slot fs' ip') (sym e)) ne
last_step fs ip bn n at fs' ip' le inv g e o (disk_full z) =
    out_of_blocks (omega (arith, z, free_blocks-Grown fs ip n fs' ip' g))
last_step fs ip bn n at fs' ip' le inv g e o (added a fs₂ ip₂ adds) =
    mapped (suc n) a fs₂ ip₂ (omega arith) (more n at a fs' ip' fs₂ ip₂ g adds)
      (ap (slot fs₂ ip₂) (sym e) ∙ adds.here) (a≢0 fs' ip' at a fs₂ ip₂ inv adds)

-- What `bmap` does for the block `bn` of the content, where the blocks of the inode are in use and
-- apart: it returns a block that is now in the slot of `bn`, and adds at most two blocks, one after
-- the other; it panics only where fewer than two blocks are free.
pub bmap-Maps :
    (fs : Fs) (ip : Inode) (bn : ℕ) → HasBlocks fs ip → bn < 140 → Maps fs ip bn (bmap fs ip bn)
unfolding bmap
bmap-Maps fs ip bn inv lt = elim (Bool-cases (ltb bn 12)) [
  | inl near ↦
      rw (bmap, near)
        (last_step fs ip bn 0 bn fs ip (omega arith) inv same (ground arith) _
          (own_block-Owns fs ip bn (omega tests) inv))
  | inr far ↦
      rw (bmap, far, lt→ltb (bn - 12) 128 (omega arith))
        (behind (ground arith) (own_block fs ip 12) (own_block-Owns fs ip 12 (omega arith) inv))
]
  where
    then_indirect :
        (n b : ℕ) (fs' : Fs) (ip' : Inode)
        → n ≤ 1
        → HasBlocks fs' ip'
        → Grown fs ip n fs' ip'
        → 12 ≤ bn
        → slot fs' ip' 12 ≡ b
        → b ≢ 0
        → Maps fs ip bn (indirect_block fs' b (bn - 12) >>= λ (a, fs''). ok (a, fs'', ip'))
    then_indirect n b fs' ip' le inv' g far e ne =
        last_step fs ip bn n (13 + (bn - 12)) fs' ip' le inv' g (ground arith) _
          (indirect_block-Owns fs' ip' b (bn - 12) e ne (omega arith) inv')

    behind :
        12 ≤ bn
        → (o : Outcome (ℕ × Fs × Inode)) → Owns fs ip 12 o
        → Maps fs ip bn (
            o >>= λ (b, fs', ip').
            (indirect_block fs' b (bn - 12) >>= λ (a, fs''). ok (a, fs'', ip')))
    behind far o (had ne) = then_indirect 0 _ fs ip (omega arith) inv same far refl ne
    behind far o (disk_full z) = out_of_blocks (omega (arith, z))
    behind far o (added a fs' ip' adds) =
        then_indirect 1 a fs' ip' (omega arith) (Adds-HasBlocks fs ip 12 a fs' ip' inv adds)
          (more 0 12 a fs ip fs' ip' same adds) far adds.here (a≢0 fs ip 12 a fs' ip' inv adds)
