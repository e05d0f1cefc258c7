-- ===== src/Kalloc/Chain.antt =====
-- The free list as a list of pages.
use os_lab.Base.{
  Bool-cases, NotIn, ℕ, ◌%◌, ◌≤◌, ◌<◌, ◌≡◌, refl, sym, ◌∙◌, ◌≢◌, ◌⊎◌, inl, inr, true, false,
  false≢true, List, [], ◌∷◌, arith,
}
use os_lab.Base.Outcome.{Outcome, ok, panic, Returns}
use os_lab.Kalloc.{pgsize, phystop, v2p, Kmem, junk, write, bad_page, kfree, kalloc}

-- A page that `kfree` accepts.
pub record IsPage (end v : ℕ) : Type 0 where
  pub aligned : v % pgsize ≡ 0
  pub above : end ≤ v
  pub below : v2p v < phystop

-- From `head` the first words of the pages lead through `vs`, which are distinct, to 0.
abbrev pub Linked : ℕ → (ℕ → ℕ) → ℕ → List ℕ → Type 0
Linked end mem head [] = head ≡ 0
Linked end mem head (v ∷ vs) = (head ≡ v) × IsPage end v × NotIn v vs × Linked end mem (mem v) vs

abbrev pub Holds : ℕ → Kmem → List ℕ → Type 0
Holds end k vs = Linked end k.mem k.freelist vs

-- Writes to another page do not break a chain.
Linked-frame :
    (end head v w : ℕ) (mem : ℕ → ℕ) (vs : List ℕ)
    → v % pgsize ≡ 0
    → NotIn v vs
    → Linked end mem head vs
    → Linked end (write (junk v mem) v w) head vs
Linked-frame end head v w mem [] a n l = l
Linked-frame end head v w mem (x ∷ vs) a n (e, p, o, l) =
    let same : write (junk v mem) v w x ≡ mem x = ground (arith, p.aligned) in
    (e, p, o, rw same (Linked-frame end (mem x) v w mem vs a n.1 l))

IsPage-of_good : (end v : ℕ) → bad_page end v ≡ false → IsPage end v
IsPage-of_good end v h = record {
  aligned = ground arith;
  above = ground arith;
  below = ground arith;
}

pub bad_page_of_IsPage : (end v : ℕ) → IsPage end v → bad_page end v ≡ false
bad_page_of_IsPage end v p = ground arith

-- What `kfree` does, on both branches: it panics exactly on an address that is no page, and otherwise
-- puts the page in front of the free pages. The page must not be free already.
pub kfree-Holds :
    (end v : ℕ) (k : Kmem) (vs : List ℕ)
    → NotIn v vs
    → Holds end k vs
    → ((bad_page end v ≡ true) × (kfree end v k ≡ panic))
      ⊎ (IsPage end v × Returns (λ k'. Holds end k' (v ∷ vs)) (kfree end v k))
unfolding kfree
kfree-Holds end v k vs n h = elim (Bool-cases (bad_page end v)) [
  | inl bad ↦ inl (bad, rw (bad, kfree))
  | inr good ↦
      let p = IsPage-of_good end v good in
      let l = Linked-frame end k.freelist v k.freelist k.mem vs p.aligned n h in
      let same : write (junk v k.mem) v k.freelist v ≡ k.freelist = ground arith in
      rw (good, kfree) (inr (p, (refl, p, n, rw same l)))
]

-- A page is not the null pointer.
IsPage-ne-zero : (end v : ℕ) → IsPage end v → v ≢ 0
IsPage-ne-zero end v p e = let b : v2p v < phystop = p.below in omega arith

-- The answer of `kalloc`: the first free page, which is then no longer free, or 0 if none is free.
abbrev pub Allocated : ℕ → List ℕ → ℕ × Kmem → Type 0
Allocated end [] (a, k') = (a ≡ 0) × Holds end k' []
Allocated end (v ∷ vs) (a, k') = (a ≡ v) × (v ≢ 0) × IsPage end v × NotIn v vs × Holds end k' vs

-- `kalloc` returns the page that was freed last and takes it off the free pages, and 0 exactly when no
-- page is free. A page that it hands out is not among the free pages any more.
pub kalloc-Holds : (end : ℕ) (k : Kmem) (vs : List ℕ) → Holds end k vs → Allocated end vs (kalloc k)
unfolding kalloc
kalloc-Holds end k [] h = ground arith
kalloc-Holds end k (v ∷ vs) (e, p, n, l) =
    let nz = IsPage-ne-zero end v p in
    let eq : kalloc k ≡ (v, record k { freelist = k.mem v }) = ground arith in
    rw eq (refl, nz, p, n, l)

-- A page that is freed is the next one that `kalloc` returns, and the free pages are then those from
-- before. The page must be one that `kfree` accepts and must not be free already.
kalloc-kfree :
    (end v : ℕ) (k : Kmem) (vs : List ℕ)
    → IsPage end v
    → NotIn v vs
    → Holds end k vs
    → Returns (λ k'. ((kalloc k').0 ≡ v) × Holds end (kalloc k').1 vs) (kfree end v k)
kalloc-kfree end v k vs p n h = after (kfree end v k) (kfree-Holds end v k vs n h)
  where
    after :
        (r : Outcome Kmem)
        → ((bad_page end v ≡ true) × (r ≡ panic))
          ⊎ (IsPage end v × Returns (λ k'. Holds end k' (v ∷ vs)) r)
        → Returns (λ k'. ((kalloc k').0 ≡ v) × Holds end (kalloc k').1 vs) r
    after r (inl (b, e)) = absurd (false≢true (sym (bad_page_of_IsPage end v p) ∙ b))
    after (ok k') (inr (q, h')) = let a = kalloc-Holds end k' (v ∷ vs) h' in (a.0, a.4)
    after panic (inr (q, h')) = absurd h'
