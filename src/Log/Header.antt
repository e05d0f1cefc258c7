-- ===== src/Log/Header.antt =====
-- The header block: what `write_head` writes is what `read_head` reads.
use os_lab.Base.{length, take, ℕ, zero, suc, ◌≤◌, ◌<◌, ◌≡◌, refl, ap, ◌∙◌, List, [], ◌∷◌, arith}
use os_lab.Log.{logsize, Block, block_words, LogHeader, copy_first, head_block, head_of}

pub take-copy_first :
    (n : ℕ) (src dst : List ℕ)
    → n ≤ length src
    → n ≤ length dst
    → take n (copy_first n src dst) ≡ take n src
take-copy_first zero src dst h k = refl
take-copy_first (suc n) [] dst h k = absurd (omega arith)
take-copy_first (suc n) (s ∷ src) [] h k = absurd (omega arith)
take-copy_first (suc n) (s ∷ src) (d ∷ dst) h k =
    ap (◌∷◌ s) (take-copy_first n src dst (omega arith) (omega arith))

pub length-copy_first : (n : ℕ) (src dst : List ℕ) → length (copy_first n src dst) ≡ length dst
length-copy_first zero src dst = refl
length-copy_first (suc n) [] dst = refl
length-copy_first (suc n) (s ∷ src) [] = refl
length-copy_first (suc n) (s ∷ src) (d ∷ dst) = ap suc (length-copy_first n src dst)

-- A header that fits its array.
pub record IsHeader (lh : LogHeader) : Type 0 where
  pub array : length lh.block ≡ logsize
  pub fits : lh.n < logsize

-- Reading back a written header block gives its count and its block numbers, into whatever header the
-- kernel holds in memory.
pub head_of-head_block :
    (lh old : LogHeader) (buf : Block)
    → IsHeader lh
    → length old.block ≡ logsize
    → length buf ≡ block_words
    → let r = head_of (head_block lh buf) old in
      (r.n ≡ lh.n) × (take r.n r.block ≡ take lh.n lh.block) × (length r.block ≡ logsize)
head_of-head_block lh old [] v l b = absurd (omega arith)
head_of-head_block lh old (w ∷ ws) v l b = (
  refl,
  take-copy_first lh.n (copy_first lh.n lh.block ws) old.block
        (rw (length-copy_first lh.n lh.block ws) (omega (arith, v.fits))) (omega (arith, v.fits))
      ∙ take-copy_first lh.n lh.block ws (omega (arith, v.fits, v.array)) (omega (arith, v.fits)),
  length-copy_first lh.n (copy_first lh.n lh.block ws) old.block ∙ l,
)
