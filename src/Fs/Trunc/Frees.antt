-- ===== src/Fs/Trunc/Frees.antt =====
-- A list of blocks that are in use and apart is freed.
use os_lab.Base.Outcome.{Outcome, ok}
use os_lab.Base.{
  get_elem?, ℕ, zero, suc, ◌≡◌, refl, sym, ap, ◌∙◌, ◌≢◌, ◌⊎◌, inl, inr, Bool, true, false, some,
  some-injective, List, [], ◌∷◌, arith, ℕ_discrete,
}
use os_lab.Fs.{Fs, mark, bfree}
use os_lab.Fs.Trunc.{free_addrs}

-- The blocks of the list, but for 0, are free, and the others as they were.
pub record Frees (fs : Fs) (addrs : List ℕ) (o : Outcome Fs) : Type 0 where
  pub new_fs : Fs
  pub returned : o ≡ ok new_fs
  pub same_cells : new_fs.cells ≡ fs.cells
  pub same_size : new_fs.size ≡ fs.size
  pub gone : (i x : ℕ) → get_elem? addrs i ≡ some x → x ≢ 0 → new_fs.used x ≡ false
  pub stays : (x : ℕ) → ((i : ℕ) → get_elem? addrs i ≢ some x) → new_fs.used x ≡ fs.used x

freed : Fs → ℕ → Fs
freed fs a = record fs { used = mark fs.used a false }

bfree_used : (fs : Fs) (a : ℕ) → fs.used a ≡ true → bfree fs a ≡ ok (freed fs a)
unfolding bfree freed
bfree_used fs a u = rw u refl

mark_ne : (used : ℕ → Bool) (a x : ℕ) → x ≢ a → mark used a false x ≡ used x
mark_ne used a x ne = ground arith

cons_inv :
    (a : ℕ) (rest : List ℕ) (i x : ℕ)
    → get_elem? (a ∷ rest) i ≡ some x
    → (a ≡ x) ⊎ ((j : ℕ) × (get_elem? rest j ≡ some x))
cons_inv a rest zero x e = inl (some-injective _ _ e)
cons_inv a rest (suc i) x e = inr (i, e)

pub free_addrs-Frees :
    (fs : Fs) (addrs : List ℕ)
    → ((i x : ℕ) → get_elem? addrs i ≡ some x → x ≢ 0 → fs.used x ≡ true)
    → ((i j x : ℕ) → get_elem? addrs i ≡ some x → get_elem? addrs j ≡ some x → x ≢ 0 → i ≡ j)
    → Frees fs addrs (free_addrs fs addrs)
unfolding free_addrs freed
free_addrs-Frees fs [] used apart = record {
  new_fs = fs;
  returned = refl;
  same_cells = refl;
  same_size = refl;
  gone = λ i x e. cc;
  stays = λ x h. refl;
}
free_addrs-Frees fs (a ∷ rest) used apart = elim (ℕ_discrete a 0) [
  | yes z ↦
      let r =
        free_addrs-Frees fs rest (λ i. used (suc i))
          (λ i j x e f ne. suc_inj (apart (suc i) (suc j) x e f ne)) in
      record {
        new_fs = r.new_fs;
        returned = rw (z) r.returned;
        same_cells = r.same_cells;
        same_size = r.same_size;
        gone = λ i x e ne. elim (cons_inv a rest i x e) [
          | inl same ↦ absurd (ne (sym same ∙ z))
          | inr (j, f) ↦ r.gone j x f ne
        ];
        stays = λ x h. r.stays x (λ i. h (suc i));
      }
  | no ne ↦
      let r =
        free_addrs-Frees (freed fs a) rest
          (λ i x e nx.
            mark_ne fs.used a x (λ same. zero_suc (apart 0 (suc i) x (ap some (sym same)) e nx))
            ∙ used (suc i) x e nx)
          (λ i j x e f nx. suc_inj (apart (suc i) (suc j) x e f nx)) in
      record {
        new_fs = r.new_fs;
        returned = ground (arith, bfree_used fs a (used 0 a refl ne), r.returned);
        same_cells = r.same_cells;
        same_size = r.same_size;
        gone = λ i x e nx. elim (cons_inv a rest i x e) [
          | inl same ↦
              ap r.new_fs.used (sym same)
              ∙ r.stays a (λ i e. zero_suc (apart 0 (suc i) a refl e ne))
              ∙ ground arith
          | inr (j, f) ↦ r.gone j x f nx
        ];
        stays =
            λ x h. r.stays x (λ i. h (suc i)) ∙ mark_ne fs.used a x (λ e. h 0 (ap some (sym e)));
      }
]
  where
    suc_inj : {i j : ℕ} → suc i ≡ suc j → i ≡ j
    suc_inj e = omega arith

    zero_suc : {i : ℕ} → 0 ≡ suc i → ⊥
    zero_suc e = omega arith
