-- ===== src/Proc/Life/Wait.antt =====
-- What a round of `wait` answers.
use os_lab.Base.{
  Bool-cases, get_elem?, modify, ℕ, zero, suc, ◌+◌, ◌<◌, ◌≡◌, refl, sym, ◌∙◌, subst, ◌⊎◌, inl, inr,
  Bool, true, false, ◌&&◌, false≢true, Option, none, some, some-injective, List, [], ◌∷◌, arith,
}
use os_lab.Proc.{unused, zombie, state_eq, process, Proc, ProcTable}
use os_lab.Base.Int.{pos}
use os_lab.Proc.Life.{
  kfree, freevm, Waited, reaped, no_child, sleeps, is_child, wait_scan, free_entry, answer_wait,
  wait,
}
use os_lab.Proc.Wakeup.{sleep}

-- An entry that is free for the next process: UNUSED, without pid, parent, name, stack or kill.
abbrev pub released : {F : Type 0} → Proc F → Proc F
released p = record p {
  state = unused;
  pid = pos 0;
  parent = none;
  name = [];
  kstack = none;
  killed = false;
}

module _ {F : Type 0} (cur : ℕ) where
  -- A child of `cur` that has exited.
  abbrev pub exited_child : Proc F → Bool
  exited_child p = is_child cur p && state_eq p.state zombie

  abbrev pub NoneExited : List (Proc F) → Type 0
  NoneExited ps = (j : ℕ) (q : Proc F) → get_elem? ps j ≡ some q → exited_child q ≡ false

  -- What the scan from index `i` on finds.
  data Scanned (i : ℕ) (ps : List (Proc F)) : Bool × Option ℕ → Type 0 where
    exited :
        (k m : ℕ) (p : Proc F) {kids : Bool}
        → m ≡ i + k
        → get_elem? ps k ≡ some p
        → exited_child p ≡ true
        → ((j : ℕ) (q : Proc F) → get_elem? ps j ≡ some q → j < k → exited_child q ≡ false)
        → Scanned i ps (kids, some m)
    living :
        (k : ℕ) (p : Proc F)
        → get_elem? ps k ≡ some p
        → is_child cur p ≡ true
        → NoneExited ps
        → Scanned i ps (true, none)
    childless :
        ((j : ℕ) (q : Proc F) → get_elem? ps j ≡ some q → is_child cur q ≡ false)
        → Scanned i ps (false, none)

  NoneExited-cons :
      (p : Proc F) (ps : List (Proc F))
      → exited_child p ≡ false
      → NoneExited ps
      → NoneExited (p ∷ ps)
  NoneExited-cons p ps e n zero q g = subst (λ r. exited_child r ≡ false) (some-injective _ _ g) e
  NoneExited-cons p ps e n (suc j) q g = n j q g

  childless-NoneExited :
      (ps : List (Proc F))
      → ((j : ℕ) (q : Proc F) → get_elem? ps j ≡ some q → is_child cur q ≡ false)
      → NoneExited ps
  childless-NoneExited ps n j q g = rw (n j q g) refl

  -- A child that has not exited in front.
  Scanned-child :
      (i : ℕ) (p : Proc F) (ps : List (Proc F)) (r : Bool × Option ℕ)
      → is_child cur p ≡ true
      → exited_child p ≡ false
      → Scanned (suc i) ps r
      → Scanned i (p ∷ ps) (true, r.1)
  Scanned-child i p ps r c e (exited k m q em g x before) =
      exited (suc k) m q (omega arith) g x first
    where
      first :
          (j : ℕ) (z : Proc F) → get_elem? (p ∷ ps) j ≡ some z → j < suc k → exited_child z ≡ false
      first zero z h lt = subst (λ r. exited_child r ≡ false) (some-injective _ _ h) e
      first (suc j) z h lt = before j z h (omega arith)
  Scanned-child i p ps r c e (living k q g x n) = living 0 p refl c (NoneExited-cons p ps e n)
  Scanned-child i p ps r c e (childless n) =
      living 0 p refl c (NoneExited-cons p ps e (childless-NoneExited ps n))

  -- Another process in front.
  Scanned-other :
      (i : ℕ) (p : Proc F) (ps : List (Proc F)) (r : Bool × Option ℕ)
      → is_child cur p ≡ false
      → Scanned (suc i) ps r
      → Scanned i (p ∷ ps) (r.0, r.1)
  Scanned-other i p ps r c (exited k m q em g x before) = exited (suc k) m q (omega arith) g x first
    where
      first :
          (j : ℕ) (z : Proc F) → get_elem? (p ∷ ps) j ≡ some z → j < suc k → exited_child z ≡ false
      first zero z h lt = subst (λ r. exited_child r ≡ false) (some-injective _ _ h) (rw c refl)
      first (suc j) z h lt = before j z h (omega arith)
  Scanned-other i p ps r c (living k q g x n) =
      living (suc k) q g x (NoneExited-cons p ps (rw c refl) n)
  Scanned-other i p ps r c (childless n) = childless none_here
    where
      none_here : (j : ℕ) (q : Proc F) → get_elem? (p ∷ ps) j ≡ some q → is_child cur q ≡ false
      none_here zero q h = subst (λ r. is_child cur r ≡ false) (some-injective _ _ h) c
      none_here (suc j) q h = n j q h

  wait_scan-Scanned : (i : ℕ) (ps : List (Proc F)) → Scanned i ps (wait_scan cur i ps)
  unfolding wait_scan
  wait_scan-Scanned i [] = childless (λ j q g. cc)
  wait_scan-Scanned i (p ∷ ps) = elim (Bool-cases (is_child cur p)) [
    | inr other ↦
        rw (other, wait_scan)
          (Scanned-other i p ps (wait_scan cur (suc i) ps) other (wait_scan-Scanned (suc i) ps))
    | inl child ↦ elim (Bool-cases (state_eq p.state zombie)) [
      | inl gone ↦
          rw (child, gone, wait_scan)
            (exited 0 i p (omega arith) refl (rw (child, gone) refl)
              (λ j q g lt. absurd (omega arith)))
      | inr lives ↦
          rw (child, lives, wait_scan)
            (Scanned-child i p ps (wait_scan cur (suc i) ps) child (rw (child, lives) refl)
              (wait_scan-Scanned (suc i) ps))
    ]
  ]

  -- What a round of `wait` comes to.
  pub data Answered (t : ProcTable F) (killed : Bool) : Waited F → Type 0 where
    reaps :
        (k : ℕ) (p : Proc F)
        → get_elem? t.procs k ≡ some p
        → exited_child p ≡ true
        → ((j : ℕ) (q : Proc F) → get_elem? t.procs j ≡ some q → j < k → exited_child q ≡ false)
        → Answered t killed (
            reaped p.pid
              (kfree p.kstack ∷ freevm p.pgdir ∷ [])
              (record t { procs = modify t.procs k released }))
    denied :
        NoneExited t.procs
        → ((killed ≡ true)
            ⊎ ((j : ℕ) (q : Proc F) → get_elem? t.procs j ≡ some q → is_child cur q ≡ false))
        → Answered t killed no_child
    waits :
        (k : ℕ) (p : Proc F)
        → NoneExited t.procs
        → get_elem? t.procs k ≡ some p
        → is_child cur p ≡ true
        → killed ≡ false
        → Answered t killed (sleeps (sleep t (some cur) true (process cur)))

  -- `wait` reaps the first child of `cur` that has exited: it returns its pid, gives back its stack and
  -- its memory and makes its entry UNUSED, without pid, parent, name, stack or kill, and changes no
  -- other. With no such child it returns -1 exactly if
  -- `cur` has no child at all or is killed, and sleeps otherwise.
  pub wait-Answered : (t : ProcTable F) (killed : Bool) → Answered t killed (wait t cur killed)
  unfolding wait answer_wait free_entry
  wait-Answered t killed = answer (wait_scan cur 0 t.procs) (wait_scan-Scanned 0 t.procs)
    where
      answer :
          (r : Bool × Option ℕ)
          → Scanned 0 t.procs r
          → Answered t killed (answer_wait t cur killed r)
      answer r (exited k m p em g x before) =
          let same : m ≡ k = omega arith in
          let here : get_elem? t.procs m ≡ some p = rw same g in
          rw (here, answer_wait) (reaps m p here x (λ j q h lt. before j q h (omega arith)))
      answer r (childless n) = denied (childless-NoneExited t.procs n) (inr n)
      answer r (living k p g c n) = elim (Bool-cases killed) [
        | inl dies ↦ rw (dies, answer_wait) (denied n (inl refl))
        | inr goes_on ↦ rw (goes_on, answer_wait) (waits k p n g c refl)
      ]

  -- With a child that has exited, the answer is a child's pid.
  pub reaped-of_Answered :
      (t : ProcTable F) (killed : Bool) (w : Waited F)
      → Answered t killed w
      → (j : ℕ) (q : Proc F) → get_elem? t.procs j ≡ some q
      → exited_child q ≡ true
      → (k : ℕ) × (p : Proc F) × (get_elem? t.procs k ≡ some p)
        × (exited_child p ≡ true)
        × (w
            ≡ reaped p.pid
                (kfree p.kstack ∷ freevm p.pgdir ∷ [])
                (record t { procs = modify t.procs k released }))
  reaped-of_Answered t killed w (reaps k p g x before) j q h y = (k, p, g, x, refl)
  reaped-of_Answered t killed w (denied n r) j q h y = absurd (false≢true (sym (n j q h) ∙ y))
  reaped-of_Answered t killed w (waits k p n g c r) j q h y =
      absurd (false≢true (sym (n j q h) ∙ y))
