-- ===== src/Fs/Content.antt =====
-- The content of an inode while `writei` changes it.
use os_lab.Base.{
  ltb, leb, if◌then◌else◌, length, length-append, get_or, ℕ, zero, suc, ◌+◌, ◌-◌, ◌*◌, ◌/◌, ◌%◌,
  ◌≤◌, ◌<◌, ◌≡◌, refl, sym, ap, ◌∙◌, ◌≢◌, ◌⊎◌, inl, inr, ◌&&◌, List, [], ◌∷◌, ◌++◌, arith,
}
use os_lab.Fs.{bsize, maxfile, Fs, Inode, piece}
use os_lab.Fs.Slots.{slot, key, key_lt, HasBlocks, byte_at, Foreign}
pub mod Store
pub mod Write
pub mod Read

-- The bytes of `src` from `off` on, and what was there before elsewhere.
unfoldable pub patch : (ℕ → ℕ) → ℕ → List ℕ → ℕ → ℕ
patch view off src o =
    if leb off o && ltb o (off + length src) then get_or src (o - off) 0 else view o

pub patch_in :
    (view : ℕ → ℕ) (off : ℕ) (src : List ℕ) (o : ℕ)
    → off ≤ o
    → o < off + length src
    → patch view off src o ≡ get_or src (o - off) 0
unfolding patch
patch_in view off src o le lt = ground arith

pub patch_out :
    (view : ℕ → ℕ) (off : ℕ) (src : List ℕ) (o : ℕ)
    → (o < off) ⊎ (off + length src ≤ o)
    → patch view off src o ≡ view o
unfolding patch
patch_out view off src o out = ground arith

pub patch_cong :
    (view view' : ℕ → ℕ) (off : ℕ) (src : List ℕ) (o : ℕ)
    → view o ≡ view' o
    → patch view off src o ≡ patch view' off src o
unfolding patch
patch_cong view view' off src o e = rw e refl

-- Whether `o` is one of the `n` places from `off` on.
pub range-cases : (off n o : ℕ) → ((off ≤ o) × (o < off + n)) ⊎ ((o < off) ⊎ (off + n ≤ o))
range-cases off n o = ground arith

-- The content of `fs'` and `ip'` is that of `fs` and `ip` with `src` at `off`, and the blocks of
-- other files are as they were.
pub record Written (fs : Fs) (ip : Inode) (off : ℕ) (src : List ℕ) (fs' : Fs) (ip' : Inode)
    : Type 0 where
  pub has_blocks : HasBlocks fs' ip'
  pub content : (o : ℕ) → o < maxfile * bsize → byte_at fs' ip' o ≡ patch (byte_at fs ip) off src o
  pub backed : (o : ℕ) → off ≤ o → o < off + length src → slot fs' ip' (key (o / 512)) ≢ 0
  pub keeps : (k : ℕ) → k < 141 → slot fs ip k ≢ 0 → slot fs' ip' k ≡ slot fs ip k
  pub same_end : ip'.size ≡ ip.size
  pub same_kind : ip'.kind ≡ ip.kind
  pub foreign :
      (x : ℕ) → Foreign fs ip x → Foreign fs' ip' x × ((o : ℕ) → fs'.cells x o ≡ fs.cells x o)

pub Written-nil : (fs : Fs) (ip : Inode) (off : ℕ) → HasBlocks fs ip → Written fs ip off [] fs ip
Written-nil fs ip off inv = record {
  has_blocks = inv;
  content = λ o lt. sym (patch_out (byte_at fs ip) off [] o (ground arith));
  backed = λ o le lt. absurd (omega arith);
  keeps = λ k lt ne. refl;
  same_end = refl;
  same_kind = refl;
  foreign = λ x f. (f, λ o. refl);
}

pub get_or-append_left :
    (xs ys : List ℕ) (i : ℕ) → i < length xs → get_or (xs ++ ys) i 0 ≡ get_or xs i 0
get_or-append_left [] ys i lt = absurd (omega arith)
get_or-append_left (x ∷ xs) ys zero lt = refl
get_or-append_left (x ∷ xs) ys (suc i) lt = get_or-append_left xs ys i (omega arith)

pub get_or-append_right :
    (xs ys : List ℕ) (i : ℕ) → length xs ≤ i → get_or (xs ++ ys) i 0 ≡ get_or ys (i - length xs) 0
get_or-append_right [] ys i le = ap (λ j. get_or ys j 0) (omega arith)
get_or-append_right (x ∷ xs) ys zero le = absurd (omega arith)
get_or-append_right (x ∷ xs) ys (suc i) le =
    get_or-append_right xs ys i (omega arith) ∙ ap (λ j. get_or ys j 0) (omega arith)

pub patch-append :
    (view : ℕ → ℕ) (off : ℕ) (xs ys : List ℕ) (o : ℕ)
    → patch (patch view off xs) (off + length xs) ys o ≡ patch view off (xs ++ ys) o
patch-append view off xs ys o = elim (range-cases (off + length xs) (length ys) o) [
  | inl (le, lt) ↦
      patch_in _ _ ys o le lt
      ∙ ap (λ j. get_or ys j 0) (omega arith)
      ∙ sym (get_or-append_right xs ys (o - off) (omega arith))
      ∙ sym (patch_in view off (xs ++ ys) o (omega arith) (omega (arith, length-append xs ys)))
  | inr out ↦ patch_out _ _ ys o out ∙ elim (range-cases off (length xs) o) [
    | inl (le, lt) ↦
        patch_in view off xs o le lt
        ∙ sym (get_or-append_left xs ys (o - off) (omega arith))
        ∙ sym (patch_in view off (xs ++ ys) o (omega arith) (omega (arith, length-append xs ys)))
    | inr far ↦
        patch_out view off xs o far
        ∙ sym (patch_out view off (xs ++ ys) o (grind (arith, length-append xs ys)))
  ]
]

pub Written-append :
    (fs : Fs) (ip : Inode) (off : ℕ) (xs ys : List ℕ) (fs₁ : Fs) (ip₁ : Inode) (fs₂ : Fs)
    (ip₂ : Inode)
    → off + length (xs ++ ys) ≤ maxfile * bsize
    → Written fs ip off xs fs₁ ip₁
    → Written fs₁ ip₁ (off + length xs) ys fs₂ ip₂
    → Written fs ip off (xs ++ ys) fs₂ ip₂
Written-append fs ip off xs ys fs₁ ip₁ fs₂ ip₂ le w v = record {
  has_blocks = v.has_blocks;
  content = λ o lt.
      v.content o lt
      ∙ patch_cong _ _ (off + length xs) ys o (w.content o lt)
      ∙ patch-append (byte_at fs ip) off xs ys o;
  backed = λ o from to. elim (range-cases off (length xs) o) [
    | inl (near, before) ↦ λ z.
        w.backed o near before
          (sym (v.keeps (key (o / 512)) (key_lt o (omega arith)) (w.backed o near before)) ∙ z)
    | inr out ↦ v.backed o (grind arith) (omega (arith, length-append xs ys))
  ];
  keeps = λ k lt ne. v.keeps k lt (λ z. ne (sym (w.keeps k lt ne) ∙ z)) ∙ w.keeps k lt ne;
  same_end = v.same_end ∙ w.same_end;
  same_kind = v.same_kind ∙ w.same_kind;
  foreign = λ x f.
      let (f₁, kept) = w.foreign x f in
      let (f₂, kept₂) = v.foreign x f₁ in (f₂, λ o. kept₂ o ∙ kept o);
}

-- The sizes of a round.
pub piece_lt : (off n : ℕ) → off % 512 + piece off n ≤ 512
piece_lt off n = ground arith

pub piece_le : (off n : ℕ) → piece off n ≤ n
piece_le off n = ground arith

pub piece_pos : (off n : ℕ) → 0 < n → 0 < piece off n
piece_pos off n lt = ground arith
