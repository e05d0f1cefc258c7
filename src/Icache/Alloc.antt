-- ===== src/Icache/Alloc.antt =====
-- `ialloc`.
use os_lab.Base.{
  ◌==◌, if◌then◌else◌, Bool-cases, get_elem?, replicate, ℕ, zero, suc, ◌+◌, ◌-◌, ◌^◌, ◌≤◌, ◌<◌, ◌≡◌,
  refl, sym, ◌∙◌, subst, ap₂, ◌≢◌, ◌⊎◌, inl, inr, true, false, ◌&&◌, false≢true, Option, none, some,
  arith, dec_lt, ℕ_discrete,
}
use os_lab.Base.Int.{pos}
use os_lab.Base.Outcome.{Outcome, panic}
use os_lab.Fs.{FileKind}
use os_lab.Icache.{Dinode, CachedInode, Icache, is_free, free_inum, ialloc}
use os_lab.Icache.Invariant.{IsIcache}
use os_lab.Icache.Get.{Gets, iget-Gets}
use os_lab.Icache.Put.{put_ne}

-- The first free inode of those from `from` on and below `end`.
abbrev pub FirstFree : (ℕ → Dinode) → ℕ → ℕ → Option ℕ → Type 0
FirstFree dinodes from end none = (k : ℕ) → from ≤ k → k < end → is_free (dinodes k).kind ≡ false
FirstFree dinodes from end (some inum) =
    (from ≤ inum)
    × (inum < end)
    × (is_free (dinodes inum).kind ≡ true)
    × ((k : ℕ) → from ≤ k → k < inum → is_free (dinodes k).kind ≡ false)

free_inum-FirstFree :
    (dinodes : ℕ → Dinode) (n from : ℕ)
    → FirstFree dinodes from (from + n) (free_inum dinodes n from)
unfolding free_inum
free_inum-FirstFree dinodes zero from = λ k le lt. absurd (omega arith)
free_inum-FirstFree dinodes (suc n) from = elim (Bool-cases (is_free (dinodes from).kind)) [
  | inl free ↦ rw free (omega arith, omega arith, free, λ k le lt. absurd (omega arith))
  | inr used ↦
      rw used
        (later (free_inum dinodes n (suc from)) (free_inum-FirstFree dinodes n (suc from)) used)
]
  where
    first_used :
        is_free (dinodes from).kind ≡ false
        → (k : ℕ) → from ≤ k
        → ¬ (suc from ≤ k)
        → is_free (dinodes k).kind ≡ false
    first_used used k le not_later =
        subst (λ m. is_free (dinodes m).kind ≡ false) (omega arith) used

    later :
        (o : Option ℕ)
        → FirstFree dinodes (suc from) (suc from + n) o
        → is_free (dinodes from).kind ≡ false
        → FirstFree dinodes from (from + suc n) o
    later none all used = λ k le lt. elim (dec_lt from k) [
      | yes above ↦ all k (omega arith) (omega arith)
      | no not_above ↦ first_used used k le (λ h. not_above (omega arith))
    ]
    later (some inum) (from_le, lt, free, before) used = (
      omega arith,
      omega arith,
      free,
      λ k le below. elim (dec_lt from k) [
        | yes above ↦ before k (omega arith) below
        | no not_above ↦ first_used used k le (λ h. not_above (omega arith))
      ],
    )

abbrev pub with_dinode : Icache → ℕ → ℕ → FileKind → Icache
with_dinode st dev inum kind = record st {
  dinodes = λ x y.
      if (x == dev) && (y == inum)
      then record {
        kind = kind;
        major = pos 0;
        minor = pos 0;
        nlink = 0;
        size = 0;
        addrs = replicate 13 0;
      }
      else st.dinodes x y;
}

-- What `ialloc` comes to.
abbrev pub Allocs : Icache → (ℕ → ℕ) → ℕ → FileKind → Outcome (ℕ × Icache) → Type 0
Allocs st c dev kind o =
    (((k : ℕ) → 1 ≤ k → k < st.ninodes → is_free (st.dinodes dev k).kind ≡ false) × (o ≡ panic))
    ⊎ ((inum : ℕ) × FirstFree (st.dinodes dev) 1 st.ninodes (some inum)
        × IsIcache (with_dinode st dev inum kind) c
        × Gets (with_dinode st dev inum kind) c dev inum o)

IsIcache-with_dinode :
    (st : Icache) (c : ℕ → ℕ) (dev inum : ℕ) (kind : FileKind)
    → IsIcache st c
    → ((j : ℕ) (jp : CachedInode)
        → get_elem? st.inodes j ≡ some jp
        → 0 < c j
        → is_free (st.dinodes jp.dev jp.inum).kind ≡ false)
    → is_free (st.dinodes dev inum).kind ≡ true
    → IsIcache (with_dinode st dev inum kind) c
IsIcache-with_dinode st c dev inum kind v used free = record {
  counts = v.counts;
  small = v.small;
  unique = v.unique;
  synced = λ j jp g held open_lock valid.
      v.synced j jp g held open_lock valid
      ∙ sym (put_ne st.dinodes dev inum _ jp.dev jp.inum (other j jp g held));
}
  where
    other :
        (j : ℕ) (jp : CachedInode)
        → get_elem? st.inodes j ≡ some jp
        → 0 < c j
        → (jp.dev ≢ dev) ⊎ (jp.inum ≢ inum)
    other j jp g held = elim (ℕ_discrete jp.dev dev) [
      | no far ↦ inl far
      | yes d ↦ inr (λ k.
          false≢true
            (sym (used j jp g held) ∙ ap₂ (λ x y. is_free (st.dinodes x y).kind) d k ∙ free))
    ]

-- `ialloc` on a table in order in which nobody holds an inode that is free on the disk: it gives
-- the first inode of the device from 1 on and below `sb.ninodes` that is free there the kind, with
-- all other fields and addresses 0, changes no other inode, and returns what `iget` of it comes to;
-- it panics if none of them is free. No count comes near an overflow.
pub ialloc-Allocs :
    (st : Icache) (c : ℕ → ℕ) (dev : ℕ) (kind : FileKind)
    → IsIcache st c
    → ((i : ℕ) → c i + 2 < 2 ^ 31)
    → ((j : ℕ) (jp : CachedInode)
        → get_elem? st.inodes j ≡ some jp
        → 0 < c j
        → is_free (st.dinodes jp.dev jp.inum).kind ≡ false)
    → 1 ≤ st.ninodes
    → Allocs st c dev kind (ialloc st dev kind)
unfolding ialloc
ialloc-Allocs st c dev kind v room used some_inodes =
    by_first (free_inum (st.dinodes dev) (st.ninodes - 1) 1) refl (
      subst (λ m. FirstFree (st.dinodes dev) 1 m (free_inum (st.dinodes dev) (st.ninodes - 1) 1))
        (omega arith) (free_inum-FirstFree (st.dinodes dev) (st.ninodes - 1) 1))
  where
    by_first :
        (o : Option ℕ)
        → free_inum (st.dinodes dev) (st.ninodes - 1) 1 ≡ o
        → FirstFree (st.dinodes dev) 1 st.ninodes o
        → Allocs st c dev kind (ialloc st dev kind)
    by_first none e all = rw (e, ialloc) (inl (all, refl))
    by_first (some inum) e f =
        let v' = IsIcache-with_dinode st c dev inum kind v used f.2 in
        rw (e, ialloc)
          (inr (inum, f, v', iget-Gets (with_dinode st dev inum kind) c v' dev inum room))
