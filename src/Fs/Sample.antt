-- ===== src/Fs/Sample.antt =====
-- A disk of 40 blocks, and a file of three bytes in block 5, at which the theorems are tried.
use os_lab.Base.Int.{pos}
use os_lab.Base.{
  leb, get_or, replicate, ℕ, zero, suc, ◌+◌, ◌/◌, ◌<◌, ◌≡◌, refl, sym, ap, ◌∙◌, ◌≢◌, none, ◌∷◌,
  arith, dec_lt,
}
use os_lab.Fs.{Fs, t_file, t_dev, Inode, ReadDevices, WriteDevices}
use os_lab.Fs.Slots.{slot, slot_own, slot_absent, key, HasBlocks}
use os_lab.Fs.File.{IsFile}

abbrev pub disk : Fs
disk = record { size = 40; used = λ b. leb b 5; cells = λ b o. o + 65 }

abbrev pub abc : Inode
abc = record { kind = t_file; major = pos 0; size = 3; addrs = 5 ∷ replicate 12 0 }

abbrev pub no_read : ReadDevices
no_read major = none

abbrev pub no_write : WriteDevices
no_write major = none

get_or-replicate : (z n k : ℕ) → get_or (replicate n z) k z ≡ z
get_or-replicate z zero k = refl
get_or-replicate z (suc n) zero = refl
get_or-replicate z (suc n) (suc k) = get_or-replicate z n k

slot_zero : slot disk abc 0 ≡ 5
unfolding slot
slot_zero = refl

slot-suc : (k : ℕ) → slot disk abc (suc k) ≡ 0
slot-suc k = elim (dec_lt (suc k) 13) [
  | yes lt ↦ slot_own disk abc (suc k) lt ∙ get_or-replicate 0 12 k
  | no far ↦ slot_absent disk abc (suc k) (omega arith) refl
]

only_zero : (k : ℕ) → slot disk abc k ≢ 0 → k ≡ 0
only_zero zero ne = refl
only_zero (suc k) ne = absurd (ne (slot-suc k))

pub abc-HasBlocks : HasBlocks disk abc
abc-HasBlocks = record {
  thirteen = refl;
  zero_used = refl;
  all_used = λ k lt ne. rw (only_zero k ne, slot_zero) refl;
  apart = λ j k ltj ltk ne e. only_zero j ne ∙ sym (only_zero k (λ z. ne (e ∙ z)));
}

file_kind : t_file ≢ t_dev
file_kind e = cc

five : ◌≢◌ {A = ℕ} 5 0
five = omega arith

pub abc-IsFile : IsFile disk abc
abc-IsFile = record {
  no_device = file_kind;
  has_blocks = abc-HasBlocks;
  bounded = omega arith;
  no_hole = λ o lt z. five (sym slot_zero ∙ ap (slot disk abc) (first o lt) ∙ z);
}
  where
    first : (o : ℕ) → o < 3 → 0 ≡ key (o / 512)
    first o lt = ground arith
