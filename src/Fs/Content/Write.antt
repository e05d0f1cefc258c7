-- ===== src/Fs/Content/Write.antt =====
-- The loop of `writei`.
use os_lab.Base.Outcome.{Outcome, ok}
use os_lab.Base.{
  ◌==◌, if◌then◌else◌, length, take, drop, take-append-drop, length-take, length-drop, ℕ, zero, suc,
  ◌+◌, ◌-◌, ◌*◌, ◌/◌, ◌%◌, ◌≤◌, ◌<◌, ◌≡◌, refl, sym, ◌∙◌, subst, ◌≢◌, Option, some, List, [], ◌∷◌,
  ◌++◌, arith,
}
use os_lab.Fs.{bsize, maxfile, Fs, Inode, bmap, fill, piece, write_loop}
use os_lab.Fs.Slots.{slot, key, HasBlocks, free_blocks}
use os_lab.Fs.Slots.Map.{
  Grown, Maps, out_of_blocks, mapped, Grown-HasBlocks, byte_at-Grown, free_blocks-Grown, slot-Grown,
  end-Grown, kind-Grown, Foreign-Grown, bmap-Maps,
}
use os_lab.Fs.Content.{
  patch_cong, Written, Written-nil, Written-append, piece_lt, piece_le, piece_pos,
}
use os_lab.Fs.Content.Store.{stored-Written}

-- Two blocks for each block of the content that the bytes touch.
abbrev pub needed : ℕ → ℕ → ℕ
needed off n = if n == 0 then 0 else 2 * ((off % 512 + n + 511) / 512)

Written-Grown :
    (fs : Fs) (ip : Inode) (off : ℕ) (src : List ℕ) (n : ℕ) (fs' : Fs) (ip' : Inode) (fs₂ : Fs)
    → HasBlocks fs ip
    → Grown fs ip n fs' ip'
    → Written fs' ip' off src fs₂ ip'
    → Written fs ip off src fs₂ ip'
Written-Grown fs ip off src n fs' ip' fs₂ inv g w = record {
  has_blocks = w.has_blocks;
  content =
      λ o lt. w.content o lt ∙ patch_cong _ _ off src o (byte_at-Grown fs ip n fs' ip' inv g o lt);
  backed = w.backed;
  keeps = λ k lt ne.
      let same = slot-Grown fs ip n fs' ip' inv g k lt ne in
      w.keeps k lt (λ z. ne (sym same ∙ z)) ∙ same;
  same_end = w.same_end ∙ end-Grown fs ip n fs' ip' g;
  same_kind = w.same_kind ∙ kind-Grown fs ip n fs' ip' g;
  foreign = λ x f.
      let (f₁, kept) = Foreign-Grown fs ip n fs' ip' x g f in
      let (f₂, kept₂) = w.foreign x f₁ in (f₂, λ o. kept₂ o ∙ kept o);
}

-- The loop has returned with the bytes written.
pub record Wrote (fs : Fs) (ip : Inode) (off : ℕ) (src : List ℕ) (o : Option (Outcome (Fs × Inode)))
    : Type 0 where
  pub new_fs : Fs
  pub new_ip : Inode
  pub returned : o ≡ some (ok (new_fs, new_ip))
  pub written : Written fs ip off src new_fs new_ip
  pub spent : free_blocks fs ≤ needed off (length src) + free_blocks new_fs

needed_step : (off n : ℕ) → 0 < n → needed (off + piece off n) (n - piece off n) + 2 ≤ needed off n
needed_step off n lt = ground arith

room_spent :
    (off len rest free n free' : ℕ)
    → 0 < len
    → n ≤ 2
    → rest ≡ len - piece off len
    → free ≡ n + free'
    → free + needed (off + piece off len) rest ≤ needed off len + free'
room_spent off len rest free n free' nonempty two e used =
    subst (λ k. free + needed (off + piece off len) k ≤ needed off len + free') (sym e)
      (omega (arith, needed_step off len nonempty))

room_left :
    (off len rest free n free' : ℕ)
    → 0 < len
    → n ≤ 2
    → rest ≡ len - piece off len
    → free ≡ n + free'
    → needed off len ≤ free
    → needed (off + piece off len) rest ≤ free'
room_left off len rest free n free' nonempty two e used room =
    subst (λ k. needed (off + piece off len) k ≤ free') (sym e)
      (omega (arith, needed_step off len nonempty))

-- One round of the loop: `bmap`, and `memmove` into the block that it returns.
round-Written :
    (fs : Fs) (ip : Inode) (off : ℕ) (xs : List ℕ) (n a : ℕ) (fs' : Fs) (ip' : Inode)
    → HasBlocks fs ip
    → Grown fs ip n fs' ip'
    → slot fs' ip' (key (off / 512)) ≡ a
    → a ≢ 0
    → off % 512 + length xs ≤ 512
    → off + length xs ≤ maxfile * bsize
    → 0 < length xs
    → Written fs ip off xs (record fs' { cells = fill fs'.cells a (off % 512) xs }) ip'
round-Written fs ip off xs n a fs' ip' inv g here ne fits small some_byte =
    Written-Grown fs ip off xs n fs' ip' _ inv g (
      stored-Written fs' ip' a off xs (Grown-HasBlocks fs ip n fs' ip' inv g) here ne fits small
        some_byte)

-- A round, and the rest of the loop.
next-Wrote :
    (fs : Fs) (ip : Inode) (off : ℕ) (xs ys : List ℕ) (fs₁ : Fs) (ip₁ : Inode)
    (o : Option (Outcome (Fs × Inode)))
    → off + length (xs ++ ys) ≤ maxfile * bsize
    → Written fs ip off xs fs₁ ip₁
    → free_blocks fs + needed (off + length xs) (length ys)
      ≤ needed off (length (xs ++ ys)) + free_blocks fs₁
    → Wrote fs₁ ip₁ (off + length xs) ys o
    → Wrote fs ip off (xs ++ ys) o
next-Wrote fs ip off xs ys fs₁ ip₁ o small w cost r = record {
  new_fs = r.new_fs;
  new_ip = r.new_ip;
  returned = r.returned;
  written = Written-append fs ip off xs ys fs₁ ip₁ r.new_fs r.new_ip small w r.written;
  spent = omega (arith, r.spent);
}

resumed :
    (fs : Fs) (ip : Inode) (off m : ℕ) (src : List ℕ) (fs₁ : Fs) (ip₁ : Inode)
    (o : Option (Outcome (Fs × Inode)))
    → off + length src ≤ maxfile * bsize
    → length (take m src) ≡ m
    → Written fs ip off (take m src) fs₁ ip₁
    → free_blocks fs + needed (off + m) (length (drop m src))
      ≤ needed off (length src) + free_blocks fs₁
    → Wrote fs₁ ip₁ (off + m) (drop m src) o
    → Wrote fs ip off src o
resumed fs ip off m src fs₁ ip₁ o small taken w cost r =
    subst (λ xs. Wrote fs ip off xs o) (take-append-drop m src)
      (next-Wrote fs ip off (take m src) (drop m src) fs₁ ip₁ o (rw (take-append-drop m src) small)
        w (rw (take-append-drop m src, taken) cost)
        (subst (λ k. Wrote fs₁ ip₁ (off + k) (drop m src) o) (sym taken) r))

length-take-piece :
    (off : ℕ) (src : List ℕ) → length (take (piece off (length src)) src) ≡ piece off (length src)
length-take-piece off src =
    length-take (piece off (length src)) src ∙ omega (arith, piece_le off (length src))

pub write_loop-Wrote :
    (fuel : ℕ) (fs : Fs) (ip : Inode) (off : ℕ) (src : List ℕ)
    → length src ≤ fuel
    → HasBlocks fs ip
    → off + length src ≤ maxfile * bsize
    → needed off (length src) ≤ free_blocks fs
    → Wrote fs ip off src (write_loop fuel fs ip off src)
unfolding write_loop
write_loop-Wrote fuel fs ip off [] le inv small room = record {
  new_fs = fs;
  new_ip = ip;
  returned = refl;
  written = Written-nil fs ip off inv;
  spent = omega arith;
}
write_loop-Wrote zero fs ip off (c ∷ src) le inv small room = absurd (omega arith)
write_loop-Wrote (suc fuel) fs ip off (c ∷ src) le inv small room =
    by_map (λ fs' ip' off' rest. write_loop-Wrote fuel fs' ip' off' rest) (bmap fs ip (off / 512))
      (bmap-Maps fs ip (off / 512) inv (omega arith)) refl
  where
    by_map :
        ((fs' : Fs) (ip' : Inode) (off' : ℕ) (rest : List ℕ)
          → length rest ≤ fuel
          → HasBlocks fs' ip'
          → off' + length rest ≤ maxfile * bsize
          → needed off' (length rest) ≤ free_blocks fs'
          → Wrote fs' ip' off' rest (write_loop fuel fs' ip' off' rest))
        → (o : Outcome (ℕ × Fs × Inode)) → Maps fs ip (off / 512) o
        → bmap fs ip (off / 512) ≡ o
        → Wrote fs ip off (c ∷ src) (write_loop (suc fuel) fs ip off (c ∷ src))
    by_map go _ (out_of_blocks few) e = absurd (ground arith)
    by_map go _ (mapped n a fs' ip' two g here ne) e =
        let m = piece off (length (c ∷ src)) in
        let taken = length-take-piece off (c ∷ src) in
        let left = length-drop m (c ∷ src) in
        let w =
          round-Written fs ip off (take m (c ∷ src)) n a fs' ip' inv g here ne
            (omega (arith, taken, piece_lt off (length (c ∷ src))))
            (omega (arith, taken, piece_le off (length (c ∷ src))))
            (omega (arith, taken, piece_pos off (length (c ∷ src)))) in
        rw (write_loop, e)
          (resumed fs ip off m (c ∷ src) _ ip' _ small taken w
            (room_spent off (length (c ∷ src)) _ _ n _ (omega arith) two left
              (free_blocks-Grown fs ip n fs' ip' g))
            (go _ ip' (off + m) (drop m (c ∷ src))
              (omega (arith, left, piece_pos off (length (c ∷ src)))) w.has_blocks
              (omega (arith, left, piece_le off (length (c ∷ src))))
              (room_left off (length (c ∷ src)) _ _ n _ (omega arith) two left
                (free_blocks-Grown fs ip n fs' ip' g) room)))
