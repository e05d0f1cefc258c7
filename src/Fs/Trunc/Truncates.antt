-- ===== src/Fs/Trunc/Truncates.antt =====
-- What `itrunc` does to the disk and the inode.
use os_lab.Base.Outcome.{Outcome, ok, panic, ◌>>=◌}
use os_lab.Base.{
  ◌==◌, if◌then◌else◌, Bool-cases, get_elem?, get_or, take, ℕ, zero, suc, ◌<◌, ◌≡◌, refl, sym, ap,
  ◌∙◌, fun_ext, subst, ◌≢◌, inl, inr, true, false, some, List, [], ◌∷◌, ◌++◌, map, arith, dec_lt,
  ℕ_discrete,
}
use os_lab.Fs.{Fs, Inode, bfree, read_cells}
use os_lab.Fs.Slots.{slot, slot_own, slot_absent, HasBlocks}
use os_lab.Fs.Trunc.{free_addrs, itrunc}
use os_lab.Fs.Trunc.Owned.{
  behind, blocks_of, place, place_lt, place_injective, behind_some, behind_none, blocks_of_inv,
  blocks_of_at,
}
use os_lab.Fs.Trunc.Frees.{free_addrs-Frees}

pub record Truncates (fs : Fs) (ip : Inode) (o : Outcome (Fs × Inode)) : Type 0 where
  pub new_fs : Fs
  pub new_ip : Inode
  pub returned : o ≡ ok (new_fs, new_ip)
  pub empty : new_ip.size ≡ 0
  pub no_block : (k : ℕ) → slot new_fs new_ip k ≡ 0
  pub same_cells : new_fs.cells ≡ fs.cells
  pub gone : (k : ℕ) → k < 141 → slot fs ip k ≢ 0 → new_fs.used (slot fs ip k) ≡ false
  pub stays : (x : ℕ) → ((k : ℕ) → k < 141 → slot fs ip k ≢ x) → new_fs.used x ≡ fs.used x

free_addrs_append :
    (fs : Fs) (xs ys : List ℕ)
    → free_addrs fs (xs ++ ys) ≡ (free_addrs fs xs >>= λ fs'. free_addrs fs' ys)
unfolding free_addrs
free_addrs_append fs [] ys = refl
free_addrs_append fs (x ∷ xs) ys = elim (Bool-cases (x == 0)) [
  | inl zero_x ↦ rw zero_x (free_addrs_append fs xs ys)
  | inr some_x ↦ rw some_x (after (bfree fs x) (λ fs'. free_addrs_append fs' xs ys))
]
  where
    after :
        (o : Outcome Fs)
        → ((fs' : Fs) → free_addrs fs' (xs ++ ys) ≡ (free_addrs fs' xs >>= λ f. free_addrs f ys))
        → (o >>= λ fs'. free_addrs fs' (xs ++ ys))
          ≡ ((o >>= λ fs'. free_addrs fs' xs) >>= λ f. free_addrs f ys)
    after (ok fs') ih = ih fs'
    after panic ih = refl

-- The code changes no cell, if it returns at all.
abbrev KeepsCells : Fs → Outcome Fs → Type 0
KeepsCells fs (ok f) = f.cells ≡ fs.cells
KeepsCells fs panic = Unit

bfree_cells : (fs : Fs) (x : ℕ) → KeepsCells fs (bfree fs x)
unfolding bfree
bfree_cells fs x = elim (Bool-cases (fs.used x)) [ inl u ↦ rw u refl | inr u ↦ rw u tt ]

free_addrs_cells : (fs : Fs) (xs : List ℕ) → KeepsCells fs (free_addrs fs xs)
unfolding free_addrs
free_addrs_cells fs [] = refl
free_addrs_cells fs (x ∷ xs) = elim (Bool-cases (x == 0)) [
  | inl zero_x ↦ rw zero_x (free_addrs_cells fs xs)
  | inr some_x ↦ rw some_x (after (bfree fs x) (bfree_cells fs x) (λ f. free_addrs_cells f xs))
]
  where
    weaken : (f : Fs) (o : Outcome Fs) → f.cells ≡ fs.cells → KeepsCells f o → KeepsCells fs o
    weaken f (ok g) e h = h ∙ e
    weaken f panic e h = tt

    after :
        (o : Outcome Fs)
        → KeepsCells fs o
        → ((f : Fs) → KeepsCells f (free_addrs f xs))
        → KeepsCells fs (o >>= λ f. free_addrs f xs)
    after (ok f) k ih = weaken f (free_addrs f xs) k (ih f)
    after panic k ih = tt

free_one : (fs : Fs) (b : ℕ) → b ≢ 0 → free_addrs fs (b ∷ []) ≡ bfree fs b
unfolding free_addrs
free_one fs b ne = skip (ground arith) ∙ right (bfree fs b)
  where
    right : (o : Outcome Fs) → (o >>= λ f. ok f) ≡ o
    right (ok f) = refl
    right panic = refl

    skip : (b == 0) ≡ false → free_addrs fs (b ∷ []) ≡ (bfree fs b >>= λ f. ok f)
    skip e = rw e refl

free_addrs_nil : (fs : Fs) → free_addrs fs [] ≡ ok fs
unfolding free_addrs
free_addrs_nil fs = refl

-- The answer, with the inode emptied.
emptied : Inode → Outcome Fs → Outcome (Fs × Inode)
emptied ip o = o >>= λ fs'. ok (fs', record ip { addrs = map (λ _. 0) ip.addrs; size = 0 })

itrunc-eq :
    (fs : Fs) (ip : Inode)
    → HasBlocks fs ip
    → itrunc fs ip ≡ emptied ip (free_addrs fs (blocks_of fs ip))
unfolding itrunc emptied
itrunc-eq fs ip inv = by_first (free_addrs fs (take 12 ip.addrs)) refl
  where
    rest :
        (fs₁ : Fs)
        → fs₁.cells ≡ fs.cells
        → (if get_or ip.addrs 12 0 == 0
            then ok fs₁
            else (free_addrs fs₁ (read_cells (fs₁.cells (get_or ip.addrs 12 0)) 0 128) >>= λ fs'.
                bfree fs' (get_or ip.addrs 12 0)))
          ≡ free_addrs fs₁ (behind fs ip)
    rest fs₁ e = elim (ℕ_discrete (get_or ip.addrs 12 0) 0) [
      | yes z ↦ rw (behind_none fs ip inv z, z) (sym (free_addrs_nil fs₁))
      | no ne ↦
          rw
            (
              behind_some fs ip inv ne,
              free_addrs_append fs₁ (read_cells (fs.cells (get_or ip.addrs 12 0)) 0 128)
                  (get_or ip.addrs 12 0 ∷ []),
              some_block ne,
            )
            (ap
                (λ c. free_addrs fs₁ (read_cells (c (get_or ip.addrs 12 0)) 0 128) >>= λ f.
                  bfree f (get_or ip.addrs 12 0))
                e
              ∙ ap (λ k. free_addrs fs₁ (read_cells (fs.cells (get_or ip.addrs 12 0)) 0 128) >>= k)
                  (fun_ext (λ f. sym (free_one f (get_or ip.addrs 12 0) ne))))
    ]
      where
        some_block : get_or ip.addrs 12 0 ≢ 0 → (get_or ip.addrs 12 0 == 0) ≡ false
        some_block ne = ground arith

    by_first :
        (o : Outcome Fs)
        → free_addrs fs (take 12 ip.addrs) ≡ o
        → itrunc fs ip ≡ emptied ip (free_addrs fs (blocks_of fs ip))
    by_first panic e = rw (itrunc, free_addrs_append fs (take 12 ip.addrs) (behind fs ip), e) refl
    by_first (ok fs₁) e =
        rw
          (
            itrunc,
            free_addrs_append fs (take 12 ip.addrs) (behind fs ip),
            e,
            rest fs₁ (subst (KeepsCells fs) e (free_addrs_cells fs (take 12 ip.addrs))),
          )
          refl

-- `itrunc` of an inode whose blocks are in use and its own does not panic: it frees exactly those
-- blocks, changes no block's content, and leaves the inode with size 0 and no block.
pub itrunc-Truncates : (fs : Fs) (ip : Inode) → HasBlocks fs ip → Truncates fs ip (itrunc fs ip)
unfolding emptied
itrunc-Truncates fs ip inv =
    let r = free_addrs-Frees fs (blocks_of fs ip) used apart in
    record {
      new_fs = r.new_fs;
      new_ip = record ip { addrs = map (λ _. 0) ip.addrs; size = 0 };
      returned = itrunc-eq fs ip inv ∙ ap (emptied ip) r.returned;
      empty = refl;
      no_block = λ k. no_slot r.new_fs k;
      same_cells = r.same_cells;
      gone = λ k lt ne. let (i, e) = blocks_of_at fs ip inv k lt ne in r.gone i _ e ne;
      stays = λ x h.
          r.stays x
            (λ i e. let (lt, s) = blocks_of_inv fs ip inv i x e in h (place i) (place_lt i) s);
    }
  where
    used : (i x : ℕ) → get_elem? (blocks_of fs ip) i ≡ some x → x ≢ 0 → fs.used x ≡ true
    used i x e ne =
        let (lt, s) = blocks_of_inv fs ip inv i x e in
        subst (λ y. fs.used y ≡ true) s (inv.all_used (place i) (place_lt i) (λ z. ne (sym s ∙ z)))

    apart :
        (i j x : ℕ)
        → get_elem? (blocks_of fs ip) i ≡ some x
        → get_elem? (blocks_of fs ip) j ≡ some x
        → x ≢ 0
        → i ≡ j
    apart i j x e f ne =
        let (lti, s) = blocks_of_inv fs ip inv i x e in
        let (ltj, t) = blocks_of_inv fs ip inv j x f in
        place_injective i j lti ltj (
          inv.apart (place i) (place j) (place_lt i) (place_lt j) (λ z. ne (sym s ∙ z)) (s ∙ sym t))

    zeros : (xs : List ℕ) (k : ℕ) → get_or {A = ℕ} (map (λ _. 0) xs) k 0 ≡ 0
    zeros [] k = refl
    zeros (x ∷ xs) zero = refl
    zeros (x ∷ xs) (suc k) = zeros xs k

    no_slot :
        (f : Fs) (k : ℕ) → slot f (record ip { addrs = map (λ _. 0) ip.addrs; size = 0 }) k ≡ 0
    no_slot f k = elim (dec_lt k 13) [
      | yes near ↦ slot_own f _ k near ∙ zeros ip.addrs k
      | no far ↦ slot_absent f _ k (omega arith) (zeros ip.addrs 12)
    ]
