-- ===== src/Icache/Put.antt =====
-- `iput`.
use os_lab.Base.{
  ◌==◌, Bool-cases, get_elem?, set, ℕ, ◌+◌, ◌<◌, ◌≡◌, refl, sym, ap, ◌∙◌, subst, ◌≢◌, ◌⊎◌, inl, inr,
  true, false, ◌&&◌, Option, some, arith, ℕ_discrete,
}
use os_lab.Base.Int.{pos, sub_int, eqb_ℤ, sub_int_one}
use os_lab.Base.Outcome.{Outcome, ok}
use os_lab.Fs.{t_none, Inode}
use os_lab.Fs.Slots.{HasBlocks}
use os_lab.Fs.Trunc.Truncates.{Truncates, itrunc-Truncates}
use os_lab.FileTable.Counts.{recount}
use os_lab.Icache.{
  Dinode, CachedInode, Icache, with_inodes, stored, put_dinode, iupdate, unlocked, free_inode,
  drop_one, is_last, iput,
}
use os_lab.Icache.Invariant.{IsIcache, IsIcache-set}

-- The inode may be freed: it has no links, and the reference is the last.
abbrev pub Unlinked : CachedInode → ℕ → Type 0
Unlinked ip n = (ip.valid ≡ true) × (ip.nlink ≡ 0) × (n ≡ 0)

-- What `iput` leaves, with `n` references.
pub data Puts (st : Icache) (c : ℕ → ℕ) (i n : ℕ) (ip : CachedInode)
    : Option (Outcome Icache) → Type 0 where
  freed :
      (st' : Icache) (copy : Inode)
      → Unlinked ip n
      → Truncates st.fs ip.copy (ok (st'.fs, copy))
      → (st'.dinodes ip.dev ip.inum).kind ≡ t_none
      → ((x y : ℕ) → (x ≢ ip.dev) ⊎ (y ≢ ip.inum) → st'.dinodes x y ≡ st.dinodes x y)
      → IsIcache st' (recount c i n)
      → Puts st c i n ip (some (ok st'))
  dropped :
      (st' : Icache)
      → ¬ (Unlinked ip n)
      → st' ≡ with_inodes st (set st.inodes i (record (unlocked ip) { ref = pos n }))
      → IsIcache st' (recount c i n)
      → Puts st c i n ip (some (ok st'))

put_self : (f : ℕ → ℕ → Dinode) (dev inum : ℕ) (d : Dinode) → put_dinode f dev inum d dev inum ≡ d
put_self f dev inum d = ground arith

pub put_ne :
    (f : ℕ → ℕ → Dinode) (dev inum : ℕ) (d : Dinode) (x y : ℕ)
    → (x ≢ dev) ⊎ (y ≢ inum)
    → put_dinode f dev inum d x y ≡ f x y
put_ne f dev inum d x y (inl ne) = ground arith
put_ne f dev inum d x y (inr ne) = ground arith

module _ (st : Icache) (c : ℕ → ℕ) (v : IsIcache st c) (i n : ℕ) (ip : CachedInode)
    (e : get_elem? st.inodes i ≡ some ip) (more : c i ≡ n + 1) where
  counted : ip.ref ≡ pos (n + 1)
  counted = v.counts i ip e ∙ ap pos more

  left : sub_int ip.ref (pos 1) ≡ pos n
  left = ap (λ z. sub_int z (pos 1)) counted ∙ sub_int_one n (omega (arith, v.small i))

  last-Unlinked : is_last ip ≡ true → Unlinked ip n
  last-Unlinked t =
      let t' = subst (λ z. ((ip.valid && (ip.nlink == 0)) && eqb_ℤ z (pos 1)) ≡ true) counted t in
      (ground arith, ground arith, ground arith)

  not_last : is_last ip ≡ false → ¬ (Unlinked ip n)
  not_last t (valid, no_links, last) =
      let t' = subst (λ z. ((ip.valid && (ip.nlink == 0)) && eqb_ℤ z (pos 1)) ≡ false) counted t in
      ground arith

  -- `iput` of an inode that somebody holds, whose lock is free and whose blocks, if its copy is valid,
  -- are in use and its own: it returns without a panic and counts one holder fewer. If that was the last, the
  -- copy is valid and the inode has no links, its blocks and the inode on the disk are free and
  -- no other inode there changes; otherwise nothing on the disk changes. The table stays in order.
  pub iput-Puts :
      ip.lock.locked ≡ false
      → (ip.valid ≡ true → HasBlocks st.fs ip.copy)
      → Puts st c i n ip (iput st i)
  unfolding iput free_inode iupdate
  iput-Puts free blocks = elim (Bool-cases (is_last ip)) [
    | inr t ↦
        let st' = with_inodes st (set st.inodes i (drop_one (unlocked ip))) in
        subst (Puts st c i n ip) (sym (rw (e, iput) (rw free (rw t refl)))) (
          dropped st' (not_last t)
            (ap (λ r. with_inodes st (set st.inodes i (record (unlocked ip) { ref = r }))) left)
            (IsIcache-set st c i n ip (drop_one (unlocked ip)) st.dinodes st.fs e v left
              (omega (arith, v.small i))
              (λ j jp g ne _ held' d k. ne (v.unique i j ip jp e g (omega arith) held' d k))
              (λ j jp g ne held'. refl) (λ _ _ valid. v.synced i ip e (omega arith) free valid)))
    | inl t ↦
        let u = last-Unlinked t in
        let r = itrunc-Truncates st.fs ip.copy (blocks u.0) in
        let ip' = record ip { copy = record r.new_ip { kind = t_none } } in
        let dinodes' = put_dinode st.dinodes ip.dev ip.inum (stored ip') in
        let gone = drop_one (unlocked (record ip' { valid = false })) in
        subst (Puts st c i n ip)
          (sym (rw (e, iput) (rw free (rw t (rw (r.returned, free_inode) refl)))))
          (freed
            (record {
              inodes = set st.inodes i gone;
              dinodes = dinodes';
              ninodes = st.ninodes;
              fs = r.new_fs;
            })
            r.new_ip u
            (subst (Truncates st.fs ip.copy) r.returned
              (itrunc-Truncates st.fs ip.copy (blocks u.0)))
            (ap (λ (d : Dinode). d.kind) (put_self st.dinodes ip.dev ip.inum (stored ip')))
            (put_ne st.dinodes ip.dev ip.inum (stored ip'))
            (IsIcache-set st c i n ip gone dinodes' r.new_fs e v left (omega (arith, v.small i))
              (λ j jp g ne pos_n held' d k. absurd (omega (arith, u.2)))
              (λ j jp g ne held'.
                put_ne st.dinodes ip.dev ip.inum (stored ip') jp.dev jp.inum
                  (other j jp g ne held'))
              (λ pos_n _ valid. absurd (omega (arith, u.2)))))
  ]
    where
      other :
          (j : ℕ) (jp : CachedInode)
          → get_elem? st.inodes j ≡ some jp
          → i ≢ j
          → 0 < c j
          → (jp.dev ≢ ip.dev) ⊎ (jp.inum ≢ ip.inum)
      other j jp g ne held' = elim (ℕ_discrete jp.dev ip.dev) [
        | no far ↦ inl far
        | yes d ↦ inr (λ k. ne (v.unique i j ip jp e g (omega arith) held' (sym d) (sym k)))
      ]
