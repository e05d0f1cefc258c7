-- ===== src/Icache/Lock.antt =====
-- `ilock` and `iunlock`.
use os_lab.Base.{
  Bool-cases, get_elem?, set, ℕ, ◌<◌, ◌≡◌, refl, sym, ap, ◌∙◌, fun_ext, subst, ◌⊎◌, inl, inr, true,
  false, Option, some, arith, ℕ_discrete,
}
use os_lab.Base.Int.{ℤ, pos, ltb_ℤ, eqb_ℤ, eqb_ℤ_iff}
use os_lab.Base.Outcome.{Outcome, ok, panic}
use os_lab.SleepLock.{holdingsleep}
use os_lab.FileTable.Counts.{recount}
use os_lab.Icache.{
  CachedInode, Icache, with_inodes, loaded, stored, locked_by, is_free, ilock, unlocked, iunlock,
}
use os_lab.Icache.Invariant.{IsIcache, IsIcache-set}

-- A lock that has been taken: of the table only the inode's entry changes, and its copy is what the
-- disk has.
pub record Locks (st : Icache) (c : ℕ → ℕ) (i : ℕ) (ip : CachedInode) (pid : ℤ)
    (o : Option (Outcome Icache)) : Type 0 where
  pub new_ip : CachedInode
  pub returned : o ≡ some (ok (with_inodes st (set st.inodes i new_ip)))
  pub in_order : IsIcache (with_inodes st (set st.inodes i new_ip)) c
  pub held : holdingsleep new_ip.lock pid ≡ true
  pub valid : new_ip.valid ≡ true
  pub same : (new_ip.dev ≡ ip.dev) × (new_ip.inum ≡ ip.inum)
  pub copied : stored new_ip ≡ st.dinodes ip.dev ip.inum

pid_self : (z : ℤ) → eqb_ℤ z z ≡ true
pid_self z = (eqb_ℤ_iff z z).1 refl

recount_same : (c : ℕ → ℕ) (i : ℕ) → recount c i (c i) ≡ c
recount_same c i = fun_ext (λ j. elim (ℕ_discrete i j) [
  | yes ij ↦ subst (λ k. recount c i (c i) k ≡ c k) ij (ground arith)
  | no ne ↦ ground arith
])

module _ (st : Icache) (c : ℕ → ℕ) (v : IsIcache st c) (i : ℕ) (ip : CachedInode)
    (e : get_elem? st.inodes i ≡ some ip) (pid : ℤ) where
  -- An entry with the same inode and the same count.
  entry_kept :
      (ip' : CachedInode)
      → 0 < c i
      → ip'.ref ≡ ip.ref
      → ip'.dev ≡ ip.dev
      → ip'.inum ≡ ip.inum
      → (ip'.lock.locked ≡ false → ip'.valid ≡ true → stored ip' ≡ st.dinodes ip'.dev ip'.inum)
      → IsIcache (with_inodes st (set st.inodes i ip')) c
  entry_kept ip' held ref dev inum fresh =
      subst (IsIcache (with_inodes st (set st.inodes i ip'))) (recount_same c i) (
        IsIcache-set st c i (c i) ip ip' st.dinodes st.fs e v (ref ∙ v.counts i ip e) (v.small i)
          (λ j jp g ne _ held' d n.
            ne (v.unique i j ip jp e g held held' (sym dev ∙ d) (sym inum ∙ n)))
          (λ j jp g ne held'. refl) (λ _. fresh))

  referenced : 0 < c i → ltb_ℤ ip.ref (pos 1) ≡ false
  referenced held = ap (λ z. ltb_ℤ z (pos 1)) (v.counts i ip e) ∙ ground arith

  -- `ilock` of an inode that somebody holds, whose lock is free and which is in use on the disk: it
  -- does not panic, the process has the lock, the copy is valid and what the disk has, read from
  -- it if it was not valid; no other entry changes.
  pub ilock-Locks :
      0 < c i
      → ip.lock.locked ≡ false
      → is_free (st.dinodes ip.dev ip.inum).kind ≡ false
      → Locks st c i ip pid (ilock st i pid)
  unfolding ilock holdingsleep
  ilock-Locks held free in_use = elim (Bool-cases ip.valid) [
    | inl valid ↦ record {
      new_ip = locked_by pid ip;
      returned = rw (e, ilock) (rw (referenced held, free) (rw valid refl));
      in_order = entry_kept (locked_by pid ip) held refl refl refl (λ l. cc);
      held = pid_self pid;
      valid = valid;
      same = (refl, refl);
      copied = v.synced i ip e held free valid;
    }
    | inr stale ↦ record {
      new_ip = loaded (locked_by pid ip) (st.dinodes ip.dev ip.inum);
      returned = rw (e, ilock) (rw (referenced held, free) (rw (stale, in_use) refl));
      in_order =
          entry_kept (loaded (locked_by pid ip) (st.dinodes ip.dev ip.inum)) held refl refl refl
            (λ l. cc);
      held = pid_self pid;
      valid = refl;
      same = (refl, refl);
      copied = refl;
    }
  ]

  -- `iunlock` by the process that has the lock, of an inode that somebody holds and whose copy, if
  -- it is valid, has been written to the disk: it does not panic and keeps the table in order. By a process that does not have the lock it panics.
  pub iunlock-IsIcache :
      0 < c i
      → (ip.valid ≡ true → stored ip ≡ st.dinodes ip.dev ip.inum)
      → ((holdingsleep ip.lock pid ≡ true)
          × (iunlock st i pid ≡ ok (with_inodes st (set st.inodes i (unlocked ip))))
          × IsIcache (with_inodes st (set st.inodes i (unlocked ip))) c)
        ⊎ ((holdingsleep ip.lock pid ≡ false) × (iunlock st i pid ≡ panic))
  unfolding iunlock
  iunlock-IsIcache held written = elim (Bool-cases (holdingsleep ip.lock pid)) [
    | inl has ↦ inl (
      has,
      rw (e, iunlock) (rw (has, referenced held) refl),
      entry_kept (unlocked ip) held refl refl refl (λ _. written),
    )
    | inr not_has ↦ inr (not_has, rw (e, iunlock) (rw not_has refl))
  ]
