-- ===== src/Icache/Tests.antt =====
-- Two places for inodes: inode 5 of device 1, whose last link is gone and which one process holds, and
-- a place that nobody holds. On the disk inode 2 is the first that is free.
use os_lab.Icache.Lock.{Locks, ilock-Locks}
use os_lab.Base.Find.{find_index}
use os_lab.Base.{
  leb, ◌==◌, if◌then◌else◌, get_elem?, get_or, replicate, ℕ, zero, suc, ◌+◌, ◌^◌, ◌<◌, ◌≡◌, refl,
  sym, ap, ◌∙◌, subst, true, false, none, some, some-injective, [], ◌∷◌, arith, dec_lt,
}
use os_lab.Base.Int.{pos, ◌+ℤ◌}
use os_lab.Base.Outcome.{ok}
use os_lab.Fs.{t_none, t_dir, t_file}
use os_lab.Fs.Slots.{slot, slot_own, slot_absent, HasBlocks}
use os_lab.Icache.{
  Dinode, CachedInode, Icache, iget, stored, locked_by, is_free, ilock, iput, new_dinode, ialloc,
}
use os_lab.Icache.Invariant.{IsIcache}
use os_lab.Icache.Get.{Gets, iget-Gets}
use os_lab.Icache.Put.{Puts, iput-Puts}
use os_lab.Icache.Alloc.{Allocs, ialloc-Allocs}

abbrev gone_file : CachedInode
gone_file = record {
  dev = 1;
  inum = 5;
  ref = pos 1;
  lock = record { locked = false; pid = pos 0 };
  valid = true;
  minor = pos 0;
  nlink = 0;
  copy = record { kind = t_file; major = pos 0; size = 0; addrs = replicate 13 0 };
}

abbrev unused : CachedInode
unused = record gone_file { dev = 0; inum = 0; ref = pos 0; valid = false }

abbrev on_disk : ℕ → ℕ → Dinode
on_disk dev inum =
    if inum == 5 then stored gone_file else new_dinode (if inum == 1 then t_file else t_none)

abbrev table : Icache
table = record {
  inodes = gone_file ∷ unused ∷ [];
  dinodes = on_disk;
  ninodes = 8;
  fs = record { size = 20; used = λ b. leb b 5; cells = λ b o. 0 };
}

abbrev holders : ℕ → ℕ
holders i = if i == 0 then 1 else 0

one_held : (i : ℕ) → 0 < holders i → i ≡ 0
one_held i h = ground arith

held_entry :
    (i : ℕ) (ip : CachedInode) → get_elem? table.inodes i ≡ some ip → 0 < holders i → gone_file ≡ ip
held_entry i ip e h =
    some-injective _ _ (subst (λ k. get_elem? table.inodes k ≡ some ip) (one_held i h) e)

table-IsIcache : IsIcache table holders
table-IsIcache = record {
  counts = counts;
  small = λ i. ground arith;
  unique = λ i j ip jp e g h k _ _. one_held i h ∙ sym (one_held j k);
  synced = λ i ip e h _ _.
      subst (λ (r : CachedInode). stored r ≡ on_disk r.dev r.inum) (held_entry i ip e h) refl;
}
  where
    counts :
        (i : ℕ) (ip : CachedInode) → get_elem? table.inodes i ≡ some ip → ip.ref ≡ pos (holders i)
    counts zero ip e = ap (λ (r : CachedInode). r.ref) (sym (some-injective _ _ e))
    counts (suc zero) ip e = ap (λ (r : CachedInode). r.ref) (sym (some-injective _ _ e))
    counts (suc (suc i)) ip e = cc

few : (i : ℕ) → holders i + 2 < 2 ^ 31
few i = ground arith

gone_file-HasBlocks : HasBlocks table.fs gone_file.copy
gone_file-HasBlocks = record {
  thirteen = refl;
  zero_used = refl;
  all_used = λ k lt ne. absurd (ne (no_slot k));
  apart = λ j k ltj ltk ne e. absurd (ne (no_slot j));
}
  where
    no_address : (n k : ℕ) → get_or {A = ℕ} (replicate n 0) k 0 ≡ 0
    no_address zero k = refl
    no_address (suc n) zero = refl
    no_address (suc n) (suc k) = no_address n k

    no_slot : (k : ℕ) → slot table.fs gone_file.copy k ≡ 0
    no_slot k = elim (dec_lt k 13) [
      | yes lt ↦ slot_own table.fs gone_file.copy k lt ∙ no_address 13 k
      | no far ↦ slot_absent table.fs gone_file.copy k (omega arith) refl
    ]

-- A held inode is found, and its entry is free on the disk after the last `iput`.
second_holder :
    iget table 1 5
    ≡ ok (0, record table { inodes = record gone_file { ref = pos 2 } ∷ unused ∷ [] })
unfolding iget find_index ◌+ℤ◌
second_holder = refl

waits : ilock (record table { inodes = locked_by (pos 3) gone_file ∷ [] }) 0 (pos 4) ≡ none
unfolding ilock
waits = refl

used_on_disk :
    (j : ℕ) (jp : CachedInode)
    → get_elem? table.inodes j ≡ some jp
    → 0 < holders j
    → is_free (table.dinodes jp.dev jp.inum).kind ≡ false
used_on_disk j jp e h =
    subst (λ (r : CachedInode). is_free (on_disk r.dev r.inum).kind ≡ false) (held_entry j jp e h)
      refl

iget-Gets_example : Gets table holders 1 6 (iget table 1 6)
iget-Gets_example = iget-Gets table holders table-IsIcache 1 6 few

ilock-Locks_example : Locks table holders 0 gone_file (pos 4) (ilock table 0 (pos 4))
ilock-Locks_example =
    ilock-Locks table holders table-IsIcache 0 gone_file refl (pos 4) (omega arith) refl refl

iput-Puts_example : Puts table holders 0 0 gone_file (iput table 0)
iput-Puts_example =
    iput-Puts table holders table-IsIcache 0 0 gone_file refl refl refl (λ _. gone_file-HasBlocks)

ialloc-Allocs_example : Allocs table holders 1 t_dir (ialloc table 1 t_dir)
ialloc-Allocs_example =
    ialloc-Allocs table holders 1 t_dir table-IsIcache few used_on_disk (omega arith)
