-- ===== src/Dir/Link.antt =====
-- What `dirlookup` and `dirlink` do to a directory.
use os_lab.Base.{
  ◌==◌, if◌then◌else◌, length, get_or, ℕ, zero, suc, ◌+◌, ◌*◌, ◌/◌, ◌≤◌, ◌<◌, ◌≡◌, refl, sym, ap,
  ◌∙◌, subst, ap₂, ◌≢◌, ◌⊎◌, inl, inr, false, ◌&&◌, not, Option, none, some, List, [], ◌∷◌, arith,
  ℕ_discrete,
}
use os_lab.Base.Int.{pos, eqb_ℤ}
use os_lab.Base.Outcome.{ok}
use os_lab.Fs.{Fs, Inode, ReadDevices}
use os_lab.Fs.Slots.{byte_at}
use os_lab.Fs.Content.{patch, patch_in, patch_out}
use os_lab.Path.{dirsiz}
use os_lab.CString.Strings.{compare_bytes}
use os_lab.Dir.{bytes_of, namecmp, is_dir, rounds, dirlookup, pad, dirent}
use os_lab.Dir.Lookup.{
  inum_at, name_at, hit, entry_of, entry_of-none, entry_of_snoc, entry_of_first, entry_of_cong,
}
use os_lab.Dir.Scan.{IsDir, compare_bytes_cong, dirlookup_loop-eq}

-- What a directory maps a name to: the offset of the first entry in use that has it, and its number.
abbrev pub entry_named : Fs → Inode → List ℕ → Option (ℕ × ℕ)
entry_named fs dp name = entry_of (byte_at fs dp) (bytes_of name) (dp.size / 16) 0

-- `dirlookup` on a directory whose blocks are its own and whose size is that of whole entries: it
-- returns, within its fuel and without a panic, the first entry in use with the name, or none if
-- there is no such entry, and changes neither the disk nor the inode.
pub dirlookup-eq-entry_named :
    (devsw : ReadDevices) (fs : Fs) (dp : Inode) (name : List ℕ)
    → IsDir fs dp
    → dirlookup devsw fs dp name ≡ some (ok (entry_named fs dp name, fs, dp))
unfolding dirlookup
dirlookup-eq-entry_named devsw fs dp name d = simp (ap is_dir d.kind) (
    dirlookup_loop-eq devsw fs dp d.file (rounds dp) name (dp.size / 16) 0 (omega (arith, d.whole))
      (omega arith))

-- The bytes of the new entry.
get_or-pad : (n : ℕ) (name : List ℕ) (i : ℕ) → i < n → get_or (pad n name) i 0 ≡ get_or name i 0
get_or-pad zero name i lt = absurd (omega arith)
get_or-pad (suc n) [] zero lt = refl
get_or-pad (suc n) [] (suc i) lt = get_or-pad n [] i (omega arith)
get_or-pad (suc n) (c ∷ name) zero lt = refl
get_or-pad (suc n) (c ∷ name) (suc i) lt = get_or-pad n name i (omega arith)

length-pad : (n : ℕ) (name : List ℕ) → length (pad n name) ≡ n
length-pad zero name = refl
length-pad (suc n) [] = ap suc (length-pad n [])
length-pad (suc n) (c ∷ name) = ap suc (length-pad n name)

pub length-dirent : (name : List ℕ) (inum : ℕ) → length (dirent name inum) ≡ 16
length-dirent name inum = omega (arith, length-pad dirsiz name)

-- A name is itself, as far as `namecmp` looks.
compare_bytes_self : (p : ℕ → ℕ) (at n : ℕ) → compare_bytes p p at n ≡ pos 0
unfolding compare_bytes
compare_bytes_self p at zero = refl
compare_bytes_self p at (suc n) = ground (arith, compare_bytes_self p (at + 1) n)

-- The content after the entry at `16 * m` is written.
module _ (view view' : ℕ → ℕ) (name : List ℕ) (inum m end : ℕ) (low : inum < 65536)
    (inside : 16 * m + 16 ≤ end)
    (wrote : (o : ℕ) → o < end → view' o ≡ patch view (16 * m) (dirent name inum) o) where
  byte : (i : ℕ) → i < 16 → view' (0 + 16 * m + i) ≡ get_or (dirent name inum) i 0
  byte i lt =
      ap view' (omega arith)
      ∙ wrote (16 * m + i) (omega arith)
      ∙ patch_in view (16 * m) (dirent name inum) (16 * m + i) (omega arith)
          (omega (arith, length-dirent name inum))
      ∙ ap (λ j. get_or (dirent name inum) j 0) (omega arith)

  new_inum : inum_at view' (0 + 16 * m) ≡ inum
  new_inum =
      ap₂ (λ a b. a + 256 * b) (ap view' (omega arith) ∙ byte 0 (omega arith))
        (byte 1 (omega arith))
      ∙ omega arith

  new_name :
      (name' : ℕ → ℕ) → namecmp name' (name_at view' (0 + 16 * m)) ≡ namecmp name' (bytes_of name)
  new_name name' =
      ap (λ c. eqb_ℤ c (pos 0))
        (compare_bytes_cong name' _ name' _ 0 dirsiz (λ i lt. refl)
          (λ i lt.
            ap view' (omega arith)
            ∙ byte (suc (suc i)) (omega arith)
            ∙ get_or-pad dirsiz name i (omega arith)))

  new_hit : inum ≢ 0 → hit view' (bytes_of name) (0 + 16 * m) ≡ some inum
  unfolding hit
  new_hit ne =
      rw (new_inum, new_name (bytes_of name), compare_bytes_self (bytes_of name) 0 dirsiz)
        (ground arith)

  new_miss :
      (name' : ℕ → ℕ) → namecmp name' (bytes_of name) ≡ false → hit view' name' (0 + 16 * m) ≡ none
  unfolding hit
  new_miss name' e = rw (new_name name') (ground arith)

  other_hit :
      (name' : ℕ → ℕ) (k : ℕ)
      → k ≢ m
      → 16 * k + 16 ≤ end
      → hit view' name' (0 + 16 * k) ≡ hit view name' (0 + 16 * k)
  unfolding hit
  other_hit name' k ne le =
      ap₂ (λ i c. if not (i == 0) && eqb_ℤ c (pos 0) then some i else none)
        (ap₂ (λ a b. a + 256 * b) (same (0 + 16 * k) (omega arith) (omega arith))
          (same (0 + 16 * k + 1) (omega arith) (omega arith)))
        (compare_bytes_cong name' _ name' _ 0 dirsiz (λ i lt. refl)
          (λ i lt. same (0 + 16 * k + 2 + i) (omega arith) (omega arith)))
    where
      same : (o : ℕ) → 16 * k ≤ o → o < 16 * k + 16 → view' o ≡ view o
      same o from to =
          wrote o (omega arith)
          ∙ patch_out view (16 * m) (dirent name inum) o (grind (arith, length-dirent name inum))

  empty_hit : (name' : ℕ → ℕ) → inum_at view (0 + 16 * m) ≡ 0 → hit view name' (0 + 16 * m) ≡ none
  unfolding hit
  empty_hit name' z = ground arith

  -- The first free place was `m` of `n`: the name is found there, and other names where they were.
  pub entry_of-added :
      (n n' : ℕ)
      → inum ≢ 0
      → 16 * n' ≤ end
      → ((m ≡ n) × (n' ≡ suc n)) ⊎ ((m < n) × (inum_at view (0 + 16 * m) ≡ 0) × (n' ≡ n))
      → entry_of view (bytes_of name) n 0 ≡ none
      → entry_of view' (bytes_of name) n' 0 ≡ some (0 + 16 * m, inum)
  entry_of-added n n' ne le place absent =
      entry_of_first view' (bytes_of name) n' 0 m inum (ground arith)
        (λ k lt.
          other_hit (bytes_of name) k (omega arith) (omega arith)
          ∙ entry_of-none view (bytes_of name) n 0 k absent (grind arith))
        (new_hit ne)

  pub entry_of-kept :
      (n n' : ℕ) (name' : ℕ → ℕ)
      → 16 * n' ≤ end
      → ((m ≡ n) × (n' ≡ suc n)) ⊎ ((m < n) × (inum_at view (0 + 16 * m) ≡ 0) × (n' ≡ n))
      → namecmp name' (bytes_of name) ≡ false
      → entry_of view' name' n' 0 ≡ entry_of view name' n 0
  entry_of-kept n n' name' le place other = elim place [
    | inl (at_end, grown) ↦
        subst (λ j. entry_of view' name' j 0 ≡ entry_of view name' n 0) (sym grown)
          (entry_of_snoc view' name' n 0
              (subst (λ j. hit view' name' (0 + 16 * j) ≡ none) at_end (new_miss name' other))
            ∙ entry_of_cong view' view name' n 0
                (λ k lt. other_hit name' k (omega arith) (omega arith)))
    | inr (lt, free, same) ↦
        subst (λ j. entry_of view' name' j 0 ≡ entry_of view name' n 0) (sym same)
          (entry_of_cong view' view name' n 0 (λ k below. elim (ℕ_discrete k m) [
            | yes e ↦
                subst (λ j. hit view' name' (0 + 16 * j) ≡ hit view name' (0 + 16 * j)) (sym e)
                  (new_miss name' other ∙ sym (empty_hit name' free))
            | no ne ↦ other_hit name' k ne (omega arith)
          ]))
  ]
