-- ===== src/Dir/Tests.antt =====
-- A directory in block 5 with the name "a" for inode 2, and a free entry behind it.
use os_lab.Dir.Finds.{FirstEntry, dirlookup-FirstEntry}
use os_lab.Dir.{bytes_of, dirlookup_loop, dirlookup, dirlink}
use os_lab.Base.{
  leb, get_or, replicate, ℕ, zero, suc, ◌/◌, ◌≤◌, ◌<◌, ◌≡◌, refl, sym, ap, ◌∙◌, ◌≢◌, Option, none,
  some, [], ◌∷◌, arith, dec_lt,
}
use os_lab.Base.Int.{pos, negsuc}
use os_lab.Base.Outcome.{ok}
use os_lab.Fs.{
  Fs, t_dir, t_dev, Inode, own_block, bmap, read_cells, read_loop, ReadDevices, WriteDevices, readi,
}
use os_lab.Fs.Slots.{slot, slot_own, slot_absent, key, byte_at, free_from, free_blocks}
use os_lab.CString.Strings.{compare_bytes}
use os_lab.Dir.Lookup.{hit, entry_of}
use os_lab.Dir.Scan.{IsDir}
use os_lab.Dir.Link.{entry_named}
use os_lab.Dir.Adds.{LinkedDir, dirlink-LinkedDir}

abbrev disk : Fs
disk = record { size = 20; used = λ b. leb b 5; cells = λ b o. get_or (2 ∷ 0 ∷ b'a' ∷ []) o 0 }

abbrev etc : Inode
etc = record { kind = t_dir; major = pos 0; size = 32; addrs = 5 ∷ replicate 12 0 }

abbrev no_read : ReadDevices
no_read major = none

abbrev no_write : WriteDevices
no_write major = none

slot_zero : slot disk etc 0 ≡ 5
unfolding slot
slot_zero = refl

no_address : (n k : ℕ) → get_or {A = ℕ} (replicate n 0) k 0 ≡ 0
no_address zero k = refl
no_address (suc n) zero = refl
no_address (suc n) (suc k) = no_address n k

slot-suc : (k : ℕ) → slot disk etc (suc k) ≡ 0
slot-suc k = elim (dec_lt (suc k) 13) [
  | yes lt ↦ slot_own disk etc (suc k) lt ∙ no_address 12 k
  | no far ↦ slot_absent disk etc (suc k) (omega arith) refl
]

only_zero : (k : ℕ) → slot disk etc k ≢ 0 → k ≡ 0
only_zero zero ne = refl
only_zero (suc k) ne = absurd (ne (slot-suc k))

five : ◌≢◌ {A = ℕ} 5 0
five = omega arith

dir_kind : t_dir ≢ t_dev
dir_kind e = cc

etc-IsDir : IsDir disk etc
etc-IsDir = record {
  file = record {
    no_device = dir_kind;
    has_blocks = record {
      thirteen = refl;
      zero_used = refl;
      all_used = λ k lt ne. rw (only_zero k ne, slot_zero) refl;
      apart = λ j k ltj ltk ne e. only_zero j ne ∙ sym (only_zero k (λ z. ne (e ∙ z)));
    };
    bounded = omega arith;
    no_hole = λ o lt z. five (sym slot_zero ∙ ap (slot disk etc) (first o lt) ∙ z);
  };
  kind = refl;
  whole = refl;
}
  where
    first : (o : ℕ) → o < 32 → 0 ≡ key (o / 512)
    first o lt = ground arith

new : entry_named disk etc (b'b' ∷ []) ≡ none
unfolding entry_of hit compare_bytes byte_at slot
new = refl

room : 2 ≤ free_blocks disk
unfolding free_from
room = omega arith

-- The name is found, and the bytes of the new entry.
finds_a : dirlookup no_read disk etc (b'a' ∷ []) ≡ some (ok (some (0, 2), disk, etc))
unfolding dirlookup dirlookup_loop readi read_loop bmap own_block read_cells compare_bytes
finds_a = refl

-- Its entry is kept.
no_second_a :
    dirlink no_read no_write disk etc (b'a' ∷ []) 7 ≡ some (ok (negsuc 0, some 2, disk, etc))
unfolding dirlink dirlookup dirlookup_loop readi read_loop bmap own_block read_cells compare_bytes
no_second_a = refl

dirlookup-FirstEntry_example :
    (r : Option (ℕ × ℕ)) × (dirlookup no_read disk etc (b'a' ∷ []) ≡ some (ok (r, disk, etc)))
    × FirstEntry (byte_at disk etc) (bytes_of (b'a' ∷ [])) 2 0 r
dirlookup-FirstEntry_example = dirlookup-FirstEntry no_read disk etc (b'a' ∷ []) etc-IsDir

dirlink-LinkedDir_example :
    LinkedDir disk etc (b'b' ∷ []) 300 (dirlink no_read no_write disk etc (b'b' ∷ []) 300)
dirlink-LinkedDir_example =
    dirlink-LinkedDir no_read no_write disk etc (b'b' ∷ []) 300 etc-IsDir (omega arith) room
      (omega arith) (omega arith) new
