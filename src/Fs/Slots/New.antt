-- ===== src/Fs/Slots/New.antt =====
-- What a new block leaves as it was: the content of the inode, and the blocks of the others.
use os_lab.Base.{
  ℕ, ◌*◌, ◌/◌, ◌%◌, ◌<◌, ◌≡◌, refl, sym, ap, ◌∙◌, ◌≢◌, true, false≢true, arith, ℕ_discrete,
}
use os_lab.Fs.{bsize, maxfile, Fs, Inode}
use os_lab.Fs.Slots.{slot, key, key_ne_12, key_lt, HasBlocks, byte_at, Adds, Foreign}

module _ (fs : Fs) (ip : Inode) (at a : ℕ) (fs' : Fs) (ip' : Inode) (inv : HasBlocks fs ip)
    (adds : Adds fs ip at a fs' ip') where
  a≢used : (x : ℕ) → fs.used x ≡ true → x ≢ a
  a≢used x u e = cc (adds.was_free)

  pub a≢0 : a ≢ 0
  a≢0 e = a≢used 0 inv.zero_used (sym e)

  still_used : (x : ℕ) → fs.used x ≡ true → fs'.used x ≡ true
  still_used x u = adds.marks x ∙ ground arith

  now_used : fs'.used a ≡ true
  now_used = adds.marks a ∙ ground arith

  pub Adds-HasBlocks : HasBlocks fs' ip'
  Adds-HasBlocks = record {
    thirteen = adds.same_length ∙ inv.thirteen;
    zero_used = still_used 0 inv.zero_used;
    all_used = used_too;
    apart = apart_too;
  }
    where
      used_too : (k : ℕ) → k < 141 → slot fs' ip' k ≢ 0 → fs'.used (slot fs' ip' k) ≡ true
      used_too k lt ne = elim (ℕ_discrete k at) [
        | yes e ↦ rw (e, adds.here) now_used
        | no d ↦
            rw (adds.others k lt d)
              (still_used (slot fs ip k) (inv.all_used k lt (λ z. ne (adds.others k lt d ∙ z))))
      ]

      -- The new block is not in another slot.
      alone : (k : ℕ) → k < 141 → k ≢ at → slot fs' ip' k ≢ a
      alone k lt d e = a≢used (slot fs ip k) (inv.all_used k lt old_ne) old
        where
          old : slot fs ip k ≡ a
          old = sym (adds.others k lt d) ∙ e

          old_ne : slot fs ip k ≢ 0
          old_ne z = a≢0 (sym old ∙ z)

      apart_too :
          (j k : ℕ)
          → j < 141
          → k < 141
          → slot fs' ip' j ≢ 0
          → slot fs' ip' j ≡ slot fs' ip' k
          → j ≡ k
      apart_too j k ltj ltk ne e = elim (ℕ_discrete j at) [
        | yes ej ↦ elim (ℕ_discrete k at) [
          | yes ek ↦ ej ∙ sym ek
          | no dk ↦ absurd (alone k ltk dk (sym e ∙ ap (slot fs' ip') ej ∙ adds.here))
        ]
        | no dj ↦ elim (ℕ_discrete k at) [
          | yes ek ↦ absurd (alone j ltj dj (e ∙ ap (slot fs' ip') ek ∙ adds.here))
          | no dk ↦
              inv.apart j k ltj ltk (λ z. ne (adds.others j ltj dj ∙ z))
                (sym (adds.others j ltj dj) ∙ e ∙ adds.others k ltk dk)
        ]
      ]

  -- The content stays as it was.
  pub byte_at-Adds : (o : ℕ) → o < maxfile * bsize → byte_at fs' ip' o ≡ byte_at fs ip o
  unfolding byte_at
  byte_at-Adds o lt = elim (ℕ_discrete (key (o / 512)) at) [ yes e ↦ at_new e | no d ↦ at_old d ]
    where
      at_new : key (o / 512) ≡ at → byte_at fs' ip' o ≡ byte_at fs ip o
      at_new e = rw (e, adds.here, adds.was_empty, adds.zeroed (o % 512)) (ground arith)

      small : key (o / 512) < 141
      small = key_lt o lt

      not_indirect : slot fs ip (key (o / 512)) ≢ 0 → slot fs ip (key (o / 512)) ≢ slot fs ip 12
      not_indirect ne e = key_ne_12 (o / 512) (inv.apart _ 12 small (omega arith) ne e)

      at_old : key (o / 512) ≢ at → byte_at fs' ip' o ≡ byte_at fs ip o
      at_old d = elim (ℕ_discrete (slot fs ip (key (o / 512))) 0) [
        | yes z ↦ rw (adds.others (key (o / 512)) small d, z) refl
        | no ne ↦ rw (
          adds.others (key (o / 512)) small d,
          adds.kept _ (o % 512) (inv.all_used _ small ne) (not_indirect ne),
        )
      ]

-- A block of another file is still in use, as it was, and no block of this inode.
pub Foreign-Adds :
    (fs : Fs) (ip : Inode) (at a : ℕ) (fs' : Fs) (ip' : Inode) (x : ℕ)
    → Adds fs ip at a fs' ip'
    → Foreign fs ip x
    → Foreign fs' ip' x × ((o : ℕ) → fs'.cells x o ≡ fs.cells x o)
Foreign-Adds fs ip at a fs' ip' x adds f = (
  record {
    in_use = adds.marks x ∙ ground (arith, f.in_use);
    elsewhere = λ k lt e. elim (ℕ_discrete k at) [
      | yes same ↦ false≢true (
          sym adds.was_free
          ∙ ap fs.used (sym adds.here ∙ ap (slot fs' ip') (sym same) ∙ e)
          ∙ f.in_use)
      | no d ↦ f.elsewhere k lt (sym (adds.others k lt d) ∙ e)
    ];
  },
  λ o. adds.kept x o f.in_use (λ e. f.elsewhere 12 (omega arith) (sym e)),
)
