-- ===== src/CString/Move.antt =====
-- A move copies the bytes as they were, also where the ranges overlap.
use os_lab.Base.{
  ltb, Bool-cases, ℕ, zero, suc, ◌+◌, ◌≤◌, ◌<◌, ◌≡◌, refl, sym, ap, ◌∙◌, ◌≢◌, ◌⊎◌, inl, inr, ◌&&◌,
  arith, dec_lt,
}
use os_lab.CString.{store, copy_up, copy_down, memmove}

-- `after` has at `d` the `n` bytes that `mem` has at `s`, and is as `mem` elsewhere.
pub record IsMoved (mem : ℕ → ℕ) (d s n : ℕ) (after : ℕ → ℕ) : Type 0 where
  pub copied : (k : ℕ) → k < n → after (d + k) ≡ mem (s + k)
  pub below : (a : ℕ) → a < d → after a ≡ mem a
  pub above : (a : ℕ) → d + n ≤ a → after a ≡ mem a

store_self : (mem : ℕ → ℕ) (a b x : ℕ) → x ≡ a → store mem a b x ≡ b
store_self mem a b x e = ground arith

store_ne : (mem : ℕ → ℕ) (a b x : ℕ) → x ≢ a → store mem a b x ≡ mem x
store_ne mem a b x ne = ground arith

-- One round of each loop.
IsMoved-down :
    (mem after : ℕ → ℕ) (d s n : ℕ)
    → s < d
    → IsMoved (store mem (d + n) (mem (s + n))) d s n after
    → IsMoved mem d s (suc n) after
IsMoved-down mem after d s n lt rest = record {
  copied = copied;
  below = λ a h. rest.below a h ∙ store_ne mem (d + n) (mem (s + n)) a (λ e. omega arith);
  above =
      λ a h. rest.above a (omega arith) ∙ store_ne mem (d + n) (mem (s + n)) a (λ e. omega arith);
}
  where
    copied : (k : ℕ) → k < suc n → after (d + k) ≡ mem (s + k)
    copied k h = elim (dec_lt k n) [
      | yes less ↦
          rest.copied k less ∙ store_ne mem (d + n) (mem (s + n)) (s + k) (λ e. omega arith)
      | no last ↦
          let top : k ≡ n = omega arith in
          rest.above (d + k) (omega arith)
          ∙ store_self mem (d + n) (mem (s + n)) (d + k) (ap (λ j. d + j) top)
          ∙ ap (λ j. mem (s + j)) (sym top)
    ]

IsMoved-up :
    (mem after : ℕ → ℕ) (d s n : ℕ)
    → (d ≤ s) ⊎ (s + suc n ≤ d)
    → IsMoved (store mem d (mem s)) (d + 1) (s + 1) n after
    → IsMoved mem d s (suc n) after
IsMoved-up mem after d s n apart rest = record {
  copied = copied;
  below = λ a h. rest.below a (omega arith) ∙ store_ne mem d (mem s) a (λ e. omega arith);
  above = λ a h. rest.above a (omega arith) ∙ store_ne mem d (mem s) a (λ e. omega arith);
}
  where
    copied : (k : ℕ) → k < suc n → after (d + k) ≡ mem (s + k)
    copied zero h =
        rest.below (d + 0) (omega arith)
        ∙ store_self mem d (mem s) (d + 0) (omega arith)
        ∙ ap mem (omega arith)
    copied (suc k) h =
        ap after (omega arith)
        ∙ rest.copied k (omega arith)
        ∙ store_ne mem d (mem s) (s + 1 + k)
            (λ e. elim apart [ inl le ↦ omega arith | inr ge ↦ omega arith ])
        ∙ ap mem (omega arith)

IsMoved-none : (mem : ℕ → ℕ) (d s : ℕ) → IsMoved mem d s 0 mem
IsMoved-none mem d s = record {
  copied = λ k h. absurd (omega arith);
  below = λ a h. refl;
  above = λ a h. refl;
}

copy_down-IsMoved : (mem : ℕ → ℕ) (d s n : ℕ) → s < d → IsMoved mem d s n (copy_down mem d s n)
unfolding copy_down
copy_down-IsMoved mem d s zero lt = IsMoved-none mem d s
copy_down-IsMoved mem d s (suc n) lt =
    IsMoved-down mem (copy_down (store mem (d + n) (mem (s + n))) d s n) d s n lt
      (copy_down-IsMoved (store mem (d + n) (mem (s + n))) d s n lt)

shift_apart : (d s n : ℕ) → (d ≤ s) ⊎ (s + suc n ≤ d) → (d + 1 ≤ s + 1) ⊎ (s + 1 + n ≤ d + 1)
shift_apart d s n (inl le) = inl (omega arith)
shift_apart d s n (inr ge) = inr (omega arith)

copy_up-IsMoved :
    (mem : ℕ → ℕ) (d s n : ℕ) → (d ≤ s) ⊎ (s + n ≤ d) → IsMoved mem d s n (copy_up mem d s n)
unfolding copy_up
copy_up-IsMoved mem d s zero apart = IsMoved-none mem d s
copy_up-IsMoved mem d s (suc n) apart =
    IsMoved-up mem (copy_up (store mem d (mem s)) (d + 1) (s + 1) n) d s n apart
      (copy_up-IsMoved (store mem d (mem s)) (d + 1) (s + 1) n (shift_apart d s n apart))

-- `memmove` leaves at `d` the `n` bytes that were at `s`, and all other bytes as they were, however the
-- two ranges overlap.
pub memmove-IsMoved : (mem : ℕ → ℕ) (d s n : ℕ) → IsMoved mem d s n (memmove mem d s n)
unfolding memmove
memmove-IsMoved mem d s n = elim (Bool-cases (ltb s d && ltb d (s + n))) [
  | inl over ↦ rw (over, memmove) (copy_down-IsMoved mem d s n (ground (arith, over)))
  | inr apart ↦
      rw (apart, memmove)
        (copy_up-IsMoved mem d s n (elim (dec_lt s d) [
          | yes lt ↦ inr (ground (arith, apart, lt))
          | no ge ↦ inl (omega arith)
        ]))
]
