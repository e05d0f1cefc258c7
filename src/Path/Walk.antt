-- ===== src/Path/Walk.antt =====
-- The loop of `namex` as a walk over the elements of the path, and what it calls.
use os_lab.Path.{
  dirsiz, name_of, skipelem, Call, ilock, iunlock, iput, iget, Tree, Answer, calls_first, is_nil,
  round, arrive, namex_loop,
}
use os_lab.Base.{
  leb, ◌==◌, if◌then◌else◌, Bool-cases, Option-cases, length, take, ℕ, zero, suc, ◌+◌, ◌<◌, ◌≡◌,
  refl, sym, ap, ◌∙◌, fun_ext, inl, inr, Bool, true, false, ◌&&◌, Option, none, some, List, [], ◌∷◌,
  arith,
}
use os_lab.Path.Elements.{elements, Skips, at_end, takes, skipelem-Skips}

abbrev pub one : ℕ → ℕ → ℕ
one i j = if i == j then 1 else 0

-- How often the calls put, get, lock and unlock the inode `j`.
abbrev pub puts : ℕ → List Call → ℕ
puts j [] = 0
puts j (iput i ∷ cs) = one i j + puts j cs
puts j (_ ∷ cs) = puts j cs

abbrev pub gets : ℕ → List Call → ℕ
gets j [] = 0
gets j (iget i ∷ cs) = one i j + gets j cs
gets j (_ ∷ cs) = gets j cs

abbrev pub locks : ℕ → List Call → ℕ
locks j [] = 0
locks j (ilock i ∷ cs) = one i j + locks j cs
locks j (_ ∷ cs) = locks j cs

abbrev pub unlocks : ℕ → List Call → ℕ
unlocks j [] = 0
unlocks j (iunlock i ∷ cs) = one i j + unlocks j cs
unlocks j (_ ∷ cs) = unlocks j cs

-- Whether `j` is the inode that is returned.
abbrev pub returned : ℕ → Option ℕ → ℕ
returned j none = 0
returned j (some r) = one r j

pub nil_of_is_nil : (es : List (List ℕ)) → is_nil es ≡ true → es ≡ []
nil_of_is_nil [] h = refl
nil_of_is_nil (e ∷ es) h = cc

take_short : (n : ℕ) (s : List ℕ) → leb n (length s) ≡ false → take n s ≡ s
take_short zero s h = ground arith
take_short (suc n) [] h = refl
take_short (suc n) (x ∷ s) h = ap (◌∷◌ x) (take_short n s (ground (arith, h)))

pub name_of-eq-take : (s : List ℕ) → name_of s ≡ take 14 s
name_of-eq-take s = elim (Bool-cases (leb dirsiz (length s))) [
  | inl long ↦ rw long refl
  | inr short ↦ rw short (sym (take_short 14 s short))
]

module _ (tree : Tree) where
  -- From the inode `ip` the elements, cut to 14 bytes each, lead to `r` by way of directories.
  pub data Leads : ℕ → List (List ℕ) → ℕ → Type 0 where
    here : (ip : ℕ) → Leads ip [] ip
    down :
        (ip : ℕ) (e : List ℕ) (es : List (List ℕ)) (next r : ℕ)
        → tree.is_dir ip ≡ true
        → tree.look ip (take 14 e) ≡ some next
        → Leads next es r
        → Leads ip (e ∷ es) r

  module _ (parent : Bool) where
    -- The loop over the elements.
    unfoldable pub walk : List (List ℕ) → ℕ → List ℕ → Option Answer
    unfolding round
    walk [] ip name = some (arrive parent ip name)
    walk (e ∷ es) ip name =
        round tree parent ip (name_of e) (is_nil es) λ next. walk es next (name_of e)

    pub namex_loop-eq-walk :
        (fuel : ℕ) (path : List ℕ) (ip : ℕ) (name : List ℕ)
        → length path < fuel
        → namex_loop fuel tree parent path ip name ≡ walk (elements path) ip name
    unfolding namex_loop walk
    namex_loop-eq-walk zero path ip name lt = absurd (omega arith)
    namex_loop-eq-walk (suc fuel) path ip name lt =
        by_skip (skipelem path) (skipelem-Skips path) refl
          (λ rest next nm less. namex_loop-eq-walk fuel rest next nm (omega arith))
      where
        by_skip :
            (o : Option (List ℕ × List ℕ))
            → Skips path o
            → skipelem path ≡ o
            → ((rest : List ℕ) (next : ℕ) (nm : List ℕ)
                → length rest < length path
                → namex_loop fuel tree parent rest next nm ≡ walk (elements rest) next nm)
            → namex_loop (suc fuel) tree parent path ip name ≡ walk (elements path) ip name
        by_skip o (at_end e) s ih = rw (s, e, namex_loop, walk) refl
        by_skip o (takes elem rest e less nil) s ih =
            rw (s, e, namex_loop, walk)
              (ap
                  (λ b.
                    round tree parent ip (name_of elem) b
                      (λ next. namex_loop fuel tree parent rest next (name_of elem)))
                  nil
                ∙ ap (round tree parent ip (name_of elem) (is_nil (elements rest)))
                    (fun_ext (λ next. ih rest next (name_of elem) less)))

  -- The answer of `round`, by cases.
  module _ (parent : Bool) (ip : ℕ) (name : List ℕ) (last : Bool) (go : ℕ → Option Answer) where
    pub data Rounds : Option Answer → Type 0 where
      no_dir :
          tree.is_dir ip ≡ false → Rounds (some (none, name, ilock ip ∷ iunlock ip ∷ iput ip ∷ []))
      stops :
          tree.is_dir ip ≡ true
          → parent ≡ true
          → last ≡ true
          → Rounds (some (some ip, name, ilock ip ∷ iunlock ip ∷ []))
      no_entry :
          tree.is_dir ip ≡ true
          → (parent && last) ≡ false
          → tree.look ip name ≡ none
          → Rounds (some (none, name, ilock ip ∷ iunlock ip ∷ iput ip ∷ []))
      goes :
          (next : ℕ) (a : Answer)
          → tree.is_dir ip ≡ true
          → (parent && last) ≡ false
          → tree.look ip name ≡ some next
          → go next ≡ some a
          → Rounds (some (calls_first (ilock ip ∷ iget next ∷ iunlock ip ∷ iput ip ∷ []) a))

    pub round-Rounds :
        ((next : ℕ) → (a : Answer) × (go next ≡ some a))
        → Rounds (round tree parent ip name last go)
    unfolding round
    round-Rounds total = elim (Bool-cases (tree.is_dir ip)) [
      | inr no_directory ↦ rw (no_directory, round) (no_dir no_directory)
      | inl dir ↦ elim (Bool-cases (parent && last)) [
        | inl stop ↦ rw (dir, stop, round) (stops dir (ground arith) (ground arith))
        | inr on ↦ elim (Option-cases (tree.look ip name)) [
          | inl absent ↦ rw (dir, on, absent, round) (no_entry dir on absent)
          | inr (next, found) ↦
              let (a, e) = total next in rw (dir, on, found, e, round) (goes next a dir on found e)
        ]
      ]
    ]
