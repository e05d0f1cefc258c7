-- ===== src/Path/Namex.antt =====
-- What `namex` finds, and which inodes it still holds.
use os_lab.Base.{
  ◌==◌, if◌then◌else◌, length, ℕ, ◌+◌, ◌≡◌, refl, sym, ap, ◌∙◌, subst, ◌↔◌, Bool, true, false,
  false≢true, Option, some, some-injective, List, [], ◌∷◌, arith,
}
use os_lab.Path.{name_of, iget, Tree, Answer, calls_first, is_nil, arrive, start_of, namex}
use os_lab.Path.Elements.{elements}
use os_lab.Path.Parents.{
  more_of, snoc_ne, ParentOf, IsParent, Leads-inv, here_inv, IsParent-dir, only_parent,
  next-IsParent,
}
use os_lab.Path.Walk.{
  one, puts, gets, locks, unlocks, returned, nil_of_is_nil, name_of-eq-take, Leads, here, down,
  walk, namex_loop-eq-walk, Rounds, no_dir, stops, no_entry, goes, round-Rounds,
}

abbrev pub begins_with_slash : List ℕ → Bool
begins_with_slash [] = false
begins_with_slash (c ∷ path) = c == b'/'

start_of_lem :
    (path : List ℕ) (root cwd : ℕ)
    → start_of path root cwd ≡ (if begins_with_slash path then root else cwd)
start_of_lem [] root cwd = refl
start_of_lem (c ∷ path) root cwd = refl

module _ (tree : Tree) where
  -- The answer to the elements `es` from `ip`, to which there is one reference at the start.
  pub record Walked (parent : Bool) (es : List (List ℕ)) (ip : ℕ) (a : Answer) : Type 0 where
    pub balanced : (j : ℕ) → puts j a.2 + returned j a.0 ≡ gets j a.2 + one ip j
    pub unlocked : (j : ℕ) → locks j a.2 ≡ unlocks j a.2
    pub leads : parent ≡ false → (r : ℕ) → (a.0 ≡ some r) ↔ Leads tree ip es r
    pub parents : parent ≡ true → (r : ℕ) → a.0 ≡ some r → ParentOf tree es ip r a.1
    pub none_missed : parent ≡ true → (r : ℕ) → IsParent tree es ip r → a.0 ≡ some r

  arrive-Walked :
      (parent : Bool) (ip : ℕ) (name : List ℕ) → Walked parent [] ip (arrive parent ip name)
  arrive-Walked true ip name = record {
    balanced = λ j. omega arith;
    unlocked = λ j. refl;
    leads = λ h. absurd (false≢true (sym h));
    parents = λ h r e. cc;
    none_missed = λ h r (before, e, eq, _, _). absurd (snoc_ne before e eq);
  }
  arrive-Walked false ip name = record {
    balanced = λ j. omega arith;
    unlocked = λ j. refl;
    leads = λ h r. (
      λ e. subst (Leads tree ip []) (some-injective _ _ e) (here ip),
      λ l. ap some (here_inv tree ip r l),
    );
    parents = λ h. absurd (false≢true h);
    none_missed = λ h. absurd (false≢true h);
  }

  round-Walked :
      (parent : Bool) (e : List ℕ) (es : List (List ℕ)) (ip : ℕ) (go : ℕ → Option Answer)
      → ((next : ℕ) (a : Answer) → go next ≡ some a → Walked parent es next a)
      → (o : Option Answer) → Rounds tree parent ip (name_of e) (is_nil es) go o
      → (a : Answer) × (o ≡ some a) × Walked parent (e ∷ es) ip a
  round-Walked parent e es ip go ih o (no_dir d) = (
    _,
    refl,
    record {
      balanced = λ j. omega arith;
      unlocked = λ j. omega arith;
      leads = λ h r. (λ x. cc, λ l. absurd (false≢true (sym d ∙ (Leads-inv tree ip e es r l).0)));
      parents = λ h r x. cc;
      none_missed = λ h r up. absurd (false≢true (sym d ∙ IsParent-dir tree e es ip r up));
    },
  )
  round-Walked parent e es ip go ih o (stops d p l) = (
    _,
    refl,
    record {
      balanced = λ j. omega arith;
      unlocked = λ j. omega arith;
      leads = λ h. absurd (false≢true (sym h ∙ p));
      parents = λ h r x. (
        [],
        e,
        ap (◌∷◌ e) (nil_of_is_nil es l),
        subst (Leads tree ip []) (some-injective _ _ x) (here ip),
        subst (λ z. tree.is_dir z ≡ true) (some-injective _ _ x) d,
        name_of-eq-take e,
      );
      none_missed = λ h r up. ap some (only_parent tree e es ip r (nil_of_is_nil es l) up);
    },
  )
  round-Walked parent e es ip go ih o (no_entry d on absent) =
      let l = ap (tree.look ip) (sym (name_of-eq-take e)) ∙ absent in
      (
        _,
        refl,
        record {
          balanced = λ j. omega arith;
          unlocked = λ j. omega arith;
          leads =
              λ h r. (λ x. cc, λ k. let (_, (next, found, _)) = Leads-inv tree ip e es r k in cc);
          parents = λ h r x. cc;
          none_missed =
              λ h r up. let (next, found, _) = next-IsParent tree e es ip r (more_of h on) up in cc;
        },
      )
  round-Walked parent e es ip go ih o (goes next a d on look g) =
      let w = ih next a g in
      let l = ap (tree.look ip) (sym (name_of-eq-take e)) ∙ look in
      (
        _,
        refl,
        record {
          balanced = λ j. omega (arith, w.balanced j);
          unlocked = λ j. omega (arith, w.unlocked j);
          leads = λ h r. (
            λ x. down ip e es next r d l ((w.leads h r).0 x),
            λ k.
                let (_, (n, found, rest)) = Leads-inv tree ip e es r k in
                (w.leads h r).1
                  (subst (λ z. Leads tree z es r) (some-injective _ _ (sym found ∙ l)) rest),
          );
          parents = λ h r x.
              let (before, f, eq, ld, dr, nm) = w.parents h r x in
              (e ∷ before, f, ap (◌∷◌ e) eq, down ip e before next r d l ld, dr, nm);
          none_missed = λ h r up.
              let (n, found, rest) = next-IsParent tree e es ip r (more_of h on) up in
              w.none_missed h r
                (subst (λ z. IsParent tree es z r) (some-injective _ _ (sym found ∙ l)) rest);
        },
      )

  walk-Walked :
      (parent : Bool) (es : List (List ℕ)) (ip : ℕ) (name : List ℕ)
      → (a : Answer) × (walk tree parent es ip name ≡ some a) × Walked parent es ip a
  unfolding walk
  walk-Walked parent [] ip name = (arrive parent ip name, refl, arrive-Walked parent ip name)
  walk-Walked parent (e ∷ es) ip name =
      round-Walked parent e es ip (λ next. walk tree parent es next (name_of e))
        (λ next a eq.
          let (b, same, w) = walk-Walked parent es next (name_of e) in
          subst (Walked parent es next) (some-injective _ _ (sym same ∙ eq)) w)
        (walk tree parent (e ∷ es) ip name)
        (round-Rounds tree parent ip (name_of e) (is_nil es)
          (λ next. walk tree parent es next (name_of e))
          (λ next. let (a, eq, _) = walk-Walked parent es next (name_of e) in (a, eq)))

  -- The answer of `namex` to `path`, where `start` is the inode that it starts from.
  pub record Named (parent : Bool) (path : List ℕ) (start : ℕ) (a : Answer) : Type 0 where
    pub balanced : (j : ℕ) → puts j a.2 + returned j a.0 ≡ gets j a.2
    pub unlocked : (j : ℕ) → locks j a.2 ≡ unlocks j a.2
    pub leads : parent ≡ false → (r : ℕ) → (a.0 ≡ some r) ↔ Leads tree start (elements path) r
    pub parents : parent ≡ true → (r : ℕ) → a.0 ≡ some r → ParentOf tree (elements path) start r a.1
    pub none_missed : parent ≡ true → (r : ℕ) → IsParent tree (elements path) start r → a.0 ≡ some r

  -- `namex` ends within the fuel given. It starts from the root if the path begins with a slash, and
  -- else from the current directory; let each element of the path be cut to 14 bytes. `namei` returns
  -- the inode to which the elements lead by way of directories, and none exactly if they lead
  -- nowhere. `nameiparent` returns the directory to which the elements but the last lead, with the last
  -- one as the name, and none exactly if there is no last element or no such directory. Every inode is
  -- put as often as it was got, but for the one returned, and unlocked as often as it was locked.
  pub namex-Named :
      (parent : Bool) (path : List ℕ) (root cwd : ℕ)
      → (a : Answer) × (namex tree parent path root cwd ≡ some a)
        × Named parent path (if begins_with_slash path then root else cwd) a
  unfolding namex
  namex-Named parent path root cwd =
      let start = start_of path root cwd in
      let (a, eq, w) = walk-Walked parent (elements path) start [] in
      let ends =
        namex_loop-eq-walk tree parent (length path + 1) path start [] (omega arith) ∙ eq in
      (
        calls_first (iget start ∷ []) a,
        rw (ends, namex) refl,
        subst (λ s. Named parent path s (calls_first (iget start ∷ []) a))
            (start_of_lem path root cwd)
            (record {
              balanced = λ j. omega (arith, w.balanced j);
              unlocked = λ j. omega (arith, w.unlocked j);
              leads = w.leads;
              parents = w.parents;
              none_missed = w.none_missed;
            }),
      )
