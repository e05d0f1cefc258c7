-- ===== src/Path/Parents.antt =====
-- Where the elements of a path lead: the directory that the last one is looked up in.
use os_lab.Base.{
  take, drop, ℕ, ◌≡◌, refl, sym, ap, ◌∙◌, subst, Bool, true, false, ◌&&◌, false≢true, some, List,
  [], ◌∷◌, ◌++◌, arith,
}
use os_lab.Path.{Tree, is_nil}
use os_lab.Path.Walk.{Leads, here, down}

pub more_of : {parent last : Bool} → parent ≡ true → (parent && last) ≡ false → last ≡ false
more_of h on = ground (arith, h, on)

pub snoc_ne : (before : List (List ℕ)) (e : List ℕ) → [] ≡ before ++ e ∷ [] → ⊥
snoc_ne [] e eq = cc
snoc_ne (g ∷ before) e eq = cc

module _ (tree : Tree) where
  -- The last element, and the directory that it is looked up in.
  abbrev pub ParentOf : List (List ℕ) → ℕ → ℕ → List ℕ → Type 0
  ParentOf es ip r name =
      (before : List (List ℕ)) × (e : List ℕ) × (es ≡ before ++ e ∷ [])
      × Leads tree ip before r
      × (tree.is_dir r ≡ true)
      × (name ≡ take 14 e)

  -- The elements but the last lead to the directory `r`.
  abbrev pub IsParent : List (List ℕ) → ℕ → ℕ → Type 0
  IsParent es ip r =
      (before : List (List ℕ)) × (e : List ℕ) × (es ≡ before ++ e ∷ [])
      × Leads tree ip before r
      × (tree.is_dir r ≡ true)

  pub Leads-inv :
      (ip : ℕ) (e : List ℕ) (es : List (List ℕ)) (r : ℕ)
      → Leads tree ip (e ∷ es) r
      → (tree.is_dir ip ≡ true)
        × ((next : ℕ) × (tree.look ip (take 14 e) ≡ some next) × Leads tree next es r)
  Leads-inv ip e es r (down _ _ _ next _ d l rest) = (d, (next, l, rest))

  pub here_inv : (ip r : ℕ) → Leads tree ip [] r → ip ≡ r
  here_inv ip r (here _) = refl

  -- The last element but one.
  pub IsParent-dir :
      (e : List ℕ) (es : List (List ℕ)) (ip r : ℕ) → IsParent (e ∷ es) ip r → tree.is_dir ip ≡ true
  IsParent-dir e es ip r ([], f, eq, ld, d) =
      subst (λ z. tree.is_dir z ≡ true) (sym (here_inv ip r ld)) d
  IsParent-dir e es ip r (g ∷ before, f, eq, ld, d) = (Leads-inv ip g before r ld).0

  pub only_parent :
      (e : List ℕ) (es : List (List ℕ)) (ip r : ℕ) → es ≡ [] → IsParent (e ∷ es) ip r → ip ≡ r
  only_parent e es ip r nil ([], f, eq, ld, d) = here_inv ip r ld
  only_parent e es ip r nil (g ∷ before, f, eq, ld, d) =
      absurd (snoc_ne before f (sym nil ∙ ap (drop 1) eq))

  pub next-IsParent :
      (e : List ℕ) (es : List (List ℕ)) (ip r : ℕ)
      → is_nil es ≡ false
      → IsParent (e ∷ es) ip r
      → (next : ℕ) × (tree.look ip (take 14 e) ≡ some next) × IsParent es next r
  next-IsParent e es ip r more ([], f, eq, ld, d) =
      absurd (false≢true (sym more ∙ ap is_nil (ap (drop 1) eq)))
  next-IsParent e es ip r more (g ∷ before, f, eq, ld, d) =
      let (_, (next, found, on)) = Leads-inv ip g before r ld in
      let same : e ≡ g = cc in
      (next, ap (λ z. tree.look ip (take 14 z)) same ∙ found, (before, f, ap (drop 1) eq, on, d))
