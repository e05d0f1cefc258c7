-- ===== src/Kalloc/Range.antt =====
-- `freerange`: every whole page of the range becomes free.
use os_lab.Base.{ℕ, zero, suc, ◌+◌, ◌≤◌, ◌<◌, ◌⊎◌, Option, none, some, List, [], ◌∷◌}
use os_lab.Base.Outcome.{Outcome, Returns}
use os_lab.Kalloc.{pgsize, kernbase, phystop, Kmem}
use os_lab.Kalloc.Chain.{Holds}

-- The free pages after `n` pages from `p` on were freed in order.
abbrev pub pages : ℕ → ℕ → List ℕ → List ℕ
pages zero p vs = vs
pages (suc n) p vs = pages n (p + pgsize) (p ∷ vs)

-- No page of the list lies between `p` and `vend`.
abbrev pub Outside : ℕ → ℕ → List ℕ → Type 0
Outside p vend [] = Unit {0}
Outside p vend (w ∷ ws) = ((w < p) ⊎ (vend ≤ w)) × Outside p vend ws

-- The loop ends with every page free.
abbrev pub Frees : ℕ → List ℕ → Option (Outcome Kmem) → Type 0
Frees end vs none = ⊥
Frees end vs (some r) = Returns (λ k. Holds end k vs) r

-- A range that the kernel maps: from an address of the kernel's half to the top of physical memory.
pub record IsRange (end p vend : ℕ) : Type 0 where
  pub start : kernbase ≤ p
  pub over : end ≤ p
  pub top : vend ≤ kernbase + phystop
  pub near : p ≤ vend + pgsize
