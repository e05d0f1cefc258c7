-- ===== src/Icache/Invariant.antt =====
-- When the table of inodes is in order.
use os_lab.Base.{
  get_elem?, set, get_elem?-set_self, get_elem?-set_ne, lt_of_get_elem?, ℕ, ◌+◌, ◌^◌, ◌<◌, ◌≡◌, sym,
  ap, ◌∙◌, subst, ◌≢◌, ◌⊎◌, inl, inr, true, false, some, some-injective, arith, ℕ_discrete,
}
use os_lab.Base.Int.{pos}
use os_lab.Fs.{Fs}
use os_lab.FileTable.Counts.{recount}
use os_lab.Icache.{Dinode, CachedInode, Icache, stored}

-- `c i` is how many hold the inode at `i`. An inode that is held is held at one place, and unless it
-- is locked its copy, when it is valid, is what the disk has; no count comes near an overflow.
pub record IsIcache (st : Icache) (c : ℕ → ℕ) : Type 0 where
  pub counts : (i : ℕ) (ip : CachedInode) → get_elem? st.inodes i ≡ some ip → ip.ref ≡ pos (c i)
  pub small : (i : ℕ) → c i + 1 < 2 ^ 31
  pub unique :
      (i j : ℕ) (ip jp : CachedInode)
      → get_elem? st.inodes i ≡ some ip
      → get_elem? st.inodes j ≡ some jp
      → 0 < c i
      → 0 < c j
      → ip.dev ≡ jp.dev
      → ip.inum ≡ jp.inum
      → i ≡ j
  pub synced :
      (i : ℕ) (ip : CachedInode)
      → get_elem? st.inodes i ≡ some ip
      → 0 < c i
      → ip.lock.locked ≡ false
      → ip.valid ≡ true
      → stored ip ≡ st.dinodes ip.dev ip.inum

-- A new entry at `i`, and other inodes on the disk.
module _ (st : Icache) (c : ℕ → ℕ) (i n : ℕ) (ip ip' : CachedInode) (dinodes' : ℕ → ℕ → Dinode)
    (fs' : Fs) where
  abbrev after : Icache
  after = record {
    inodes = set st.inodes i ip';
    dinodes = dinodes';
    ninodes = st.ninodes;
    fs = fs';
  }

  -- An entry after that: the new one, or one that was there.
  entry-cases :
      (j : ℕ) (jp : CachedInode)
      → get_elem? st.inodes i ≡ some ip
      → get_elem? (set st.inodes i ip') j ≡ some jp
      → ((i ≡ j) × (ip' ≡ jp) × (recount c i n j ≡ n))
        ⊎ ((i ≢ j) × (get_elem? st.inodes j ≡ some jp) × (recount c i n j ≡ c j))
  entry-cases j jp e g = elim (ℕ_discrete i j) [
    | yes ij ↦ inl (
      ij,
      some-injective _ _ (
          sym (get_elem?-set_self st.inodes i ip' (lt_of_get_elem? st.inodes i ip e))
          ∙ ap (get_elem? (set st.inodes i ip')) ij
          ∙ g),
      ground (arith, ij),
    )
    | no ne ↦ inr (ne, sym (get_elem?-set_ne st.inodes ip' ne) ∙ g, ground (arith, ne))
  ]

  pub IsIcache-set :
      get_elem? st.inodes i ≡ some ip
      → IsIcache st c
      → ip'.ref ≡ pos n
      → n + 1 < 2 ^ 31
      → ((j : ℕ) (jp : CachedInode)
          → get_elem? st.inodes j ≡ some jp
          → i ≢ j
          → 0 < n
          → 0 < c j
          → ip'.dev ≡ jp.dev
          → ip'.inum ≡ jp.inum
          → ⊥)
      → ((j : ℕ) (jp : CachedInode)
          → get_elem? st.inodes j ≡ some jp
          → i ≢ j
          → 0 < c j
          → dinodes' jp.dev jp.inum ≡ st.dinodes jp.dev jp.inum)
      → (0 < n
          → ip'.lock.locked ≡ false
          → ip'.valid ≡ true
          → stored ip' ≡ dinodes' ip'.dev ip'.inum)
      → IsIcache after (recount c i n)
  IsIcache-set e v ref fits alone kept fresh = record {
    counts = λ j jp g. elim (entry-cases j jp e g) [
      | inl (ij, same, m) ↦ ap (λ (r : CachedInode). r.ref) (sym same) ∙ ref ∙ ap pos (sym m)
      | inr (ne, old, m) ↦ v.counts j jp old ∙ ap pos (sym m)
    ];
    small = λ j. elim (ℕ_discrete i j) [
      | yes ij ↦ ground (arith, ij)
      | no ne ↦ ground (arith, ne, v.small j)
    ];
    unique = λ j k jp kp g h held held' dev inum. elim (entry-cases j jp e g) [
      | inl (ij, same, m) ↦ elim (entry-cases k kp e h) [
        | inl (ik, _, _) ↦ sym ij ∙ ik
        | inr (ne, old, m') ↦ absurd (
            alone k kp old ne (subst (λ z. 0 < z) m held) (subst (λ z. 0 < z) m' held')
              (ap (λ (r : CachedInode). r.dev) same ∙ dev)
              (ap (λ (r : CachedInode). r.inum) same ∙ inum))
      ]
      | inr (ne, old, m) ↦ elim (entry-cases k kp e h) [
        | inl (ik, same, m') ↦ absurd (
            alone j jp old ne (subst (λ z. 0 < z) m' held') (subst (λ z. 0 < z) m held)
              (ap (λ (r : CachedInode). r.dev) same ∙ sym dev)
              (ap (λ (r : CachedInode). r.inum) same ∙ sym inum))
        | inr (_, old', m') ↦
            v.unique j k jp kp old old' (subst (λ z. 0 < z) m held) (subst (λ z. 0 < z) m' held')
              dev inum
      ]
    ];
    synced = λ j jp g held free valid. elim (entry-cases j jp e g) [
      | inl (_, same, m) ↦
          subst
            (λ (r : CachedInode).
              r.lock.locked ≡ false → r.valid ≡ true → stored r ≡ dinodes' r.dev r.inum)
            same (fresh (subst (λ z. 0 < z) m held)) free valid
      | inr (ne, old, m) ↦
          let held_before = subst (λ z. 0 < z) m held in
          v.synced j jp old held_before free valid ∙ sym (kept j jp old ne held_before)
    ];
  }
