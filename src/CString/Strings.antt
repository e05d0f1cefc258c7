-- ===== src/CString/Strings.antt =====
-- string.c: `memset`, the comparisons and the copies of strings. A byte is a number below 256.
use os_lab.Base.{
  ltb, leb, ◌==◌, if◌then◌else◌, Bool-cases, ℕ, zero, suc, ◌+◌, ◌*◌, ◌/◌, ◌%◌, ◌≡◌, ap, ◌∙◌, inl,
  inr, true, ◌&&◌, not, arith,
}
use os_lab.Base.Int.{ℤ, pos, negsuc, sub_ℕ}
use os_lab.CString.{store}

-- `stosb(dst, c, n)`
unfoldable pub stosb : (ℕ → ℕ) → ℕ → ℕ → ℕ → ℕ → ℕ
stosb mem dst c zero = mem
stosb mem dst c (suc n) = stosb (store mem dst c) (dst + 1) c n

-- `stosl`, for the word whose four bytes are `c`.
unfoldable pub stosl : (ℕ → ℕ) → ℕ → ℕ → ℕ → ℕ → ℕ
stosl mem dst c zero = mem
stosl mem dst c (suc n) =
    stosl (store (store (store (store mem dst c) (dst + 1) c) (dst + 2) c) (dst + 3) c) (dst + 4) c
      n

unfoldable pub memset : (ℕ → ℕ) → ℕ → ℕ → ℕ → ℕ → ℕ
memset mem dst c n =
    if (dst % 4 == 0) && (n % 4 == 0)
    then stosl mem dst (c % 256) (n / 4)
    else stosb mem dst (c % 256) n

unfoldable pub memcmp : (ℕ → ℕ) → ℕ → ℕ → ℕ → ℤ
memcmp mem v1 v2 zero = pos 0
memcmp mem v1 v2 (suc n) =
    let rest = memcmp mem (v1 + 1) (v2 + 1) n in
    if mem v1 == mem v2 then rest else sub_ℕ (mem v1) (mem v2)

-- The loop of `strncmp` on two strings, from the byte `at` on.
unfoldable pub compare_bytes : (ℕ → ℕ) → (ℕ → ℕ) → ℕ → ℕ → ℤ
compare_bytes p q at zero = pos 0
compare_bytes p q at (suc n) =
    let rest = compare_bytes p q (at + 1) n in
    if not (p at == 0) && (p at == q at) then rest else sub_ℕ (p at) (q at)

unfoldable pub strncmp : (ℕ → ℕ) → ℕ → ℕ → ℕ → ℤ
strncmp mem p q n = compare_bytes (λ i. mem (p + i)) (λ i. mem (q + i)) 0 n

-- The loops of `strncpy`, for a count that is not negative.
unfoldable pub copy_padded : (ℕ → ℕ) → ℕ → ℕ → ℕ → ℕ → ℕ
copy_padded mem s t zero = mem
copy_padded mem s t (suc n) =
    let copied = store mem s (mem t) in
    let rest = copy_padded copied (s + 1) (t + 1) n in
    if mem t == 0 then stosb copied (s + 1) 0 n else rest

unfoldable pub strncpy : (ℕ → ℕ) → ℕ → ℕ → ℤ → ℕ → ℕ
strncpy mem s t (negsuc n) = mem
strncpy mem s t (pos n) = copy_padded mem s t n

-- The loop of `safestrcpy` and the NUL after it; `n` bytes may still be copied.
unfoldable pub copy_safe : (ℕ → ℕ) → ℕ → ℕ → ℕ → ℕ → ℕ
copy_safe mem s t zero = store mem s 0
copy_safe mem s t (suc n) =
    let copied = store mem s (mem t) in
    let rest = copy_safe copied (s + 1) (t + 1) n in
    if mem t == 0 then store copied (s + 1) 0 else rest

unfoldable pub safestrcpy : (ℕ → ℕ) → ℕ → ℕ → ℤ → ℕ → ℕ
safestrcpy mem s t (negsuc n) = mem
safestrcpy mem s t (pos zero) = mem
safestrcpy mem s t (pos (suc n)) = copy_safe mem s t n

stosb-at :
    (mem : ℕ → ℕ) (dst c n x : ℕ)
    → stosb mem dst c n x ≡ (if leb dst x && ltb x (dst + n) then c else mem x)
unfolding stosb
stosb-at mem dst c zero x = ground arith
stosb-at mem dst c (suc n) x = stosb-at (store mem dst c) (dst + 1) c n x ∙ ground arith

stosl-at :
    (mem : ℕ → ℕ) (dst c n x : ℕ)
    → stosl mem dst c n x ≡ (if leb dst x && ltb x (dst + 4 * n) then c else mem x)
unfolding stosl
stosl-at mem dst c zero x = ground arith
stosl-at mem dst c (suc n) x =
    stosl-at (store (store (store (store mem dst c) (dst + 1) c) (dst + 2) c) (dst + 3) c) (dst + 4)
      c n x
    ∙ ground arith

-- `memset` writes the low byte of `c` to the `n` bytes from `dst` on, by words or by bytes, and to no other.
pub memset-at :
    (mem : ℕ → ℕ) (dst c n x : ℕ)
    → memset mem dst c n x ≡ (if leb dst x && ltb x (dst + n) then c % 256 else mem x)
unfolding memset
memset-at mem dst c n x = elim (Bool-cases ((dst % 4 == 0) && (n % 4 == 0))) [
  | inl whole ↦
      rw (memset, whole)
        (stosl-at mem dst (c % 256) (n / 4) x
          ∙ ap (λ k. if leb dst x && ltb x (dst + k) then c % 256 else mem x) (words whole))
  | inr odd ↦ rw (memset, odd) (stosb-at mem dst (c % 256) n x)
]
  where
    words : ((dst % 4 == 0) && (n % 4 == 0)) ≡ true → 4 * (n / 4) ≡ n
    words h = ground arith
