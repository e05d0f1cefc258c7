-- ===== src/Icache/Get.antt =====
-- References to inodes: `iget` and `idup`.
use os_lab.Base.{
  ◌==◌, get_elem?, set, modify, modify-eq-set, ℕ, ◌+◌, ◌^◌, ◌<◌, ◌≡◌, refl, sym, ap, ◌∙◌, subst,
  Bool, true, false, ◌&&◌, Option, none, some, arith,
}
use os_lab.Base.Int.{pos, gtb_ℤ, eqb_ℤ, add_int, add_int_one}
use os_lab.Base.Find.{find_index, Found, missing, found, find_index-Found}
use os_lab.Base.Outcome.{Outcome, ok, panic}
use os_lab.FileTable.Counts.{recount}
use os_lab.Icache.{
  CachedInode, Icache, is_cached, is_unused, count_one, recycle, with_inodes, iget, idup,
}
use os_lab.Icache.Invariant.{IsIcache, IsIcache-set}

-- What `iget` comes to: a place of the inode where somebody holds it already, or the first place that
-- nobody holds, whose copy is not valid; a panic if neither is there.
pub data Gets (st : Icache) (c : ℕ → ℕ) (dev inum : ℕ) : Outcome (ℕ × Icache) → Type 0 where
  again :
      (i : ℕ) (ip : CachedInode) (st' : Icache)
      → get_elem? st.inodes i ≡ some ip
      → 0 < c i
      → ip.dev ≡ dev
      → ip.inum ≡ inum
      → st' ≡ with_inodes st (set st.inodes i (record ip { ref = pos (c i + 1) }))
      → IsIcache st' (recount c i (c i + 1))
      → Gets st c dev inum (ok (i, st'))
  first :
      (i : ℕ) (ip : CachedInode) (st' : Icache)
      → ((j : ℕ) (jp : CachedInode)
          → get_elem? st.inodes j ≡ some jp
          → 0 < c j
          → jp.dev ≡ dev
          → jp.inum ≡ inum
          → ⊥)
      → get_elem? st.inodes i ≡ some ip
      → c i ≡ 0
      → ((j : ℕ) (jp : CachedInode) → get_elem? st.inodes j ≡ some jp → j < i → 0 < c j)
      → st'
        ≡ with_inodes st
            (set st.inodes i (record ip { dev = dev; inum = inum; ref = pos 1; valid = false }))
      → IsIcache st' (recount c i 1)
      → Gets st c dev inum (ok (i, st'))
  none_left :
      ((j : ℕ) (jp : CachedInode)
        → get_elem? st.inodes j ≡ some jp
        → (0 < c j) × (jp.dev ≡ dev → jp.inum ≡ inum → ⊥))
      → Gets st c dev inum panic

module _ (st : Icache) (c : ℕ → ℕ) (v : IsIcache st c) where
  -- One more holder of an inode that is held.
  pub IsIcache-count_one :
      (i : ℕ) (ip : CachedInode)
      → get_elem? st.inodes i ≡ some ip
      → 0 < c i
      → c i + 2 < 2 ^ 31
      → IsIcache
          (with_inodes st (set st.inodes i (record ip { ref = pos (c i + 1) })))
          (recount c i (c i + 1))
  IsIcache-count_one i ip e held fits =
      IsIcache-set st c i (c i + 1) ip (record ip { ref = pos (c i + 1) }) st.dinodes st.fs e v refl
        (omega arith)
        (λ j jp g ne _ held' dev inum. ne (v.unique i j ip jp e g held held' dev inum))
        (λ j jp g ne held'. refl) (λ _ free valid. v.synced i ip e held free valid)

  pub counted_one :
      (i : ℕ) (ip : CachedInode)
      → get_elem? st.inodes i ≡ some ip
      → modify st.inodes i count_one ≡ set st.inodes i (record ip { ref = pos (c i + 1) })
  counted_one i ip e =
      modify-eq-set st.inodes i count_one ip e
      ∙ ap (λ r. set st.inodes i (record ip { ref = r }))
          (ap (λ z. add_int z (pos 1)) (v.counts i ip e) ∙ add_int_one (c i) (v.small i))

  cached-parts :
      (dev inum i : ℕ) (ip : CachedInode)
      → get_elem? st.inodes i ≡ some ip
      → is_cached dev inum ip ≡ true
      → (0 < c i) × (ip.dev ≡ dev) × (ip.inum ≡ inum)
  cached-parts dev inum i ip e t =
      let t' =
        subst (λ z. (gtb_ℤ z (pos 0) && ((ip.dev == dev) && (ip.inum == inum))) ≡ true)
          (v.counts i ip e) t in
      (ground arith, ground arith, ground arith)

  not_cached :
      (dev inum i : ℕ) (ip : CachedInode)
      → get_elem? st.inodes i ≡ some ip
      → is_cached dev inum ip ≡ false
      → 0 < c i
      → ip.dev ≡ dev
      → ip.inum ≡ inum
      → ⊥
  not_cached dev inum i ip e t held d n =
      let t' =
        subst (λ z. (gtb_ℤ z (pos 0) && ((ip.dev == dev) && (ip.inum == inum))) ≡ false)
          (v.counts i ip e) t in
      ground arith

  unused_iff :
      (b : Bool) (i : ℕ) (ip : CachedInode)
      → get_elem? st.inodes i ≡ some ip
      → is_unused ip ≡ b
      → (c i == 0) ≡ b
  unused_iff b i ip e t = sym (ap (λ z. eqb_ℤ z (pos 0)) (v.counts i ip e)) ∙ t

  -- `iget` returns a place that the inode has alone among those that are held, with one more holder
  -- counted there, and keeps the table in order: the place where it is held already, of which nothing
  -- else changes, or else the first that nobody holds, with a copy that is not valid. It panics
  -- only if every place is held and none is the inode's. No count comes near an overflow.
  pub iget-Gets :
      (dev inum : ℕ) → ((i : ℕ) → c i + 2 < 2 ^ 31) → Gets st c dev inum (iget st dev inum)
  unfolding iget
  iget-Gets dev inum room =
      by_find (find_index (is_cached dev inum) st.inodes)
        (find_index-Found (is_cached dev inum) st.inodes) refl
    where
      by_unused :
          (o : Option ℕ)
          → Found is_unused st.inodes o
          → find_index is_unused st.inodes ≡ o
          → ((j : ℕ) (jp : CachedInode)
              → get_elem? st.inodes j ≡ some jp
              → is_cached dev inum jp ≡ false)
          → find_index (is_cached dev inum) st.inodes ≡ none
          → Gets st c dev inum (iget st dev inum)
      by_unused o (missing m) e n absent =
          rw (absent, e, iget)
            (none_left (λ j jp g.
              let u = unused_iff false j jp g (m j jp g) in
              let held : 0 < c j = ground arith in
              (held, λ d k. not_cached dev inum j jp g (n j jp g) held d k)))
      by_unused o (found i ip g free before) e n absent =
          let zero_refs : c i ≡ 0 = (let u = unused_iff true i ip g free in ground arith) in
          rw (absent, e, iget)
            (first i ip _ (λ j jp h held d k. not_cached dev inum j jp h (n j jp h) held d k) g
              zero_refs
              (λ j jp h lt. let u = unused_iff false j jp h (before j jp h lt) in ground arith)
              (ap (with_inodes st) (modify-eq-set st.inodes i (recycle dev inum) ip g))
              (subst (λ l. IsIcache (with_inodes st l) (recount c i 1))
                (sym (modify-eq-set st.inodes i (recycle dev inum) ip g))
                (IsIcache-set st c i 1 ip (recycle dev inum ip) st.dinodes st.fs g v refl
                  (omega arith)
                  (λ j jp h ne _ held d k.
                    not_cached dev inum j jp h (n j jp h) held (sym d) (sym k))
                  (λ j jp h ne held. refl) (λ _ _ valid. cc))))

      by_find :
          (o : Option ℕ)
          → Found (is_cached dev inum) st.inodes o
          → find_index (is_cached dev inum) st.inodes ≡ o
          → Gets st c dev inum (iget st dev inum)
      by_find o (missing n) e =
          by_unused (find_index is_unused st.inodes) (find_index-Found is_unused st.inodes) refl n e
      by_find o (found i ip g t before) e =
          let (held, d, k) = cached-parts dev inum i ip g t in
          rw (e, iget)
            (again i ip _ g held d k (ap (with_inodes st) (counted_one i ip g)) (
              subst (λ l. IsIcache (with_inodes st l) (recount c i (c i + 1)))
                (sym (counted_one i ip g)) (IsIcache-count_one i ip g held (room i))))

  -- `idup` of an inode that somebody holds counts one more holder.
  pub idup-IsIcache :
      (i : ℕ) (ip : CachedInode)
      → get_elem? st.inodes i ≡ some ip
      → 0 < c i
      → c i + 2 < 2 ^ 31
      → IsIcache (idup st i) (recount c i (c i + 1))
  unfolding idup
  idup-IsIcache i ip e held fits =
      subst (λ l. IsIcache (with_inodes st l) (recount c i (c i + 1))) (sym (counted_one i ip e))
        (IsIcache-count_one i ip e held fits)
