-- ===== src/Fs/Trunc/Entries.antt =====
-- Lists by their entries.
use os_lab.Base.{
  length, get_elem?, get_or, take, ℕ, zero, suc, ◌+◌, ◌<◌, ◌≡◌, refl, ap, ◌∙◌, ◌⊎◌, inl, inr, some,
  some-injective, List, [], ◌∷◌, ◌++◌, arith,
}
use os_lab.Fs.{read_cells}

pub append_inv :
    (xs ys : List ℕ) (i x : ℕ)
    → get_elem? (xs ++ ys) i ≡ some x
    → (get_elem? xs i ≡ some x) ⊎ ((j : ℕ) × (i ≡ length xs + j) × (get_elem? ys j ≡ some x))
append_inv [] ys i x e = inr (i, omega arith, e)
append_inv (y ∷ xs) ys zero x e = inl e
append_inv (y ∷ xs) ys (suc i) x e = elim (append_inv xs ys i x e) [
  | inl f ↦ inl f
  | inr (j, k, f) ↦ inr (j, omega arith, f)
]

pub append_left :
    (xs ys : List ℕ) (i x : ℕ) → get_elem? xs i ≡ some x → get_elem? (xs ++ ys) i ≡ some x
append_left [] ys i x e = cc
append_left (y ∷ xs) ys zero x e = e
append_left (y ∷ xs) ys (suc i) x e = append_left xs ys i x e

pub append_right :
    (xs ys : List ℕ) (j x : ℕ)
    → get_elem? ys j ≡ some x
    → (i : ℕ) × (get_elem? (xs ++ ys) i ≡ some x)
append_right [] ys j x e = (j, e)
append_right (y ∷ xs) ys j x e = let (i, f) = append_right xs ys j x e in (suc i, f)

pub take_inv :
    (n : ℕ) (xs : List ℕ) (i x : ℕ)
    → get_elem? (take n xs) i ≡ some x
    → (i < n) × (get_or xs i 0 ≡ x)
take_inv zero xs i x e = cc
take_inv (suc n) [] i x e = cc
take_inv (suc n) (y ∷ xs) zero x e = (omega arith, some-injective _ _ e)
take_inv (suc n) (y ∷ xs) (suc i) x e = let (lt, f) = take_inv n xs i x e in (omega arith, f)

pub take_at :
    (n : ℕ) (xs : List ℕ) (i : ℕ)
    → i < n
    → i < length xs
    → get_elem? (take n xs) i ≡ some (get_or xs i 0)
take_at zero xs i lt in_list = absurd (omega arith)
take_at (suc n) [] i lt in_list = absurd (omega arith)
take_at (suc n) (y ∷ xs) zero lt in_list = refl
take_at (suc n) (y ∷ xs) (suc i) lt in_list = take_at n xs i (omega arith) (omega arith)

pub read_cells_inv :
    (f : ℕ → ℕ) (p n i x : ℕ) → get_elem? (read_cells f p n) i ≡ some x → (i < n) × (f (p + i) ≡ x)
unfolding read_cells
read_cells_inv f p zero i x e = cc
read_cells_inv f p (suc n) zero x e = (omega arith, ap f (omega arith) ∙ some-injective _ _ e)
read_cells_inv f p (suc n) (suc i) x e =
    let (lt, g) = read_cells_inv f (p + 1) n i x e in (omega arith, ap f (omega arith) ∙ g)

pub read_cells_at :
    (f : ℕ → ℕ) (p n i : ℕ) → i < n → get_elem? (read_cells f p n) i ≡ some (f (p + i))
unfolding read_cells
read_cells_at f p zero i lt = absurd (omega arith)
read_cells_at f p (suc n) zero lt = ap (λ q. some (f q)) (omega arith)
read_cells_at f p (suc n) (suc i) lt =
    read_cells_at f (p + 1) n i (omega arith) ∙ ap (λ q. some (f q)) (omega arith)

pub length-read_cells : (f : ℕ → ℕ) (p n : ℕ) → length (read_cells f p n) ≡ n
unfolding read_cells
length-read_cells f p zero = refl
length-read_cells f p (suc n) = ap suc (length-read_cells f (p + 1) n)
