-- ===== src/Base/Scan.antt =====
-- The loop that the kernel uses to choose from a table: it keeps the entry whose key beats the best
-- key so far, which starts at a sentinel.
pub mod Best
use os_lab.Base.{if◌then◌else◌, ℕ, ◌+◌, Bool, ◌&&◌, Option, some, List, [], ◌∷◌}

module _ {ℓ κ} {A : Type ℓ} {K : Type κ} (eligible : A → Bool) (key : A → K)
    (beats : K → K → Bool) where
  -- `i` is the index of the head of the list, `best` and `res` are the loop's variables.
  unfoldable pub scan : List A → ℕ → K → Option ℕ → Option ℕ
  scan [] i best res = res
  scan (p ∷ ps) i best res =
      let hit = eligible p && beats (key p) best in
      scan ps (i + 1) (if hit then key p else best) (if hit then some i else res)
