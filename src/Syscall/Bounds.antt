-- ===== src/Syscall/Bounds.antt =====
-- What the fetch of an argument lets through.
use os_lab.Base.{
  ltb, leb, if◌then◌else◌, Bool-cases, ℕ, ◌+◌, ◌*◌, ◌%◌, ◌^◌, ◌≤◌, ◌<◌, ◌≡◌, refl, sym, ap, ◌∙◌,
  subst, ◌≢◌, ◌↔◌, inl, inr, ◌||◌, Option, none, some, arith,
}
use os_lab.Base.Int.{ℤ, pos, negsuc, pos_part, ◌≤ℤ◌, ltb_ℤ, to_int, to_uint}
use os_lab.Syscall.{User, word, fetchint, argint, check_block, argptr}
use os_lab.Kalloc.{kernbase}

-- The address of the word `n` of the arguments.
abbrev pub arg_address : User → ℕ → ℕ
arg_address u n = (u.esp + 4 + 4 * n) % 2 ^ 32

-- Memory holds bytes, and ends below the kernel's.
pub record IsUser (u : User) : Type 0 where
  pub bytes : (a : ℕ) → u.mem a < 256
  pub below : u.sz ≤ kernbase

-- The word `n` of the arguments lies in the memory, and it is a pointer to `size` bytes that do too.
pub record Within (u : User) (n : ℕ) (size : ℤ) (p : ℕ) : Type 0 where
  pub arg_in : arg_address u n + 4 ≤ u.sz
  pub pointer : p ≡ word u.mem (arg_address u n)
  pub not_negative : pos 0 ≤ℤ size
  pub start_in : p < u.sz
  pub end_in : p + pos_part size ≤ u.sz

word_lt : (u : User) (a : ℕ) → IsUser u → word u.mem a < 2 ^ 32
word_lt u a user =
    omega (arith, user.bytes a, user.bytes (a + 1), user.bytes (a + 2), user.bytes (a + 3))

to_uint_to_int : (w : ℕ) → w < 2 ^ 32 → to_uint (to_int w) ≡ w
to_uint_to_int w lt = ground arith

data Fetches (u : User) (addr : ℕ) : Option ℤ → Type 0 where
  outside : u.sz < addr + 4 → Fetches u addr none
  inside : addr + 4 ≤ u.sz → Fetches u addr (some (to_int (word u.mem addr)))

fetchint-Fetches : (u : User) (addr : ℕ) → IsUser u → Fetches u addr (fetchint u addr)
unfolding fetchint
fetchint-Fetches u addr user = elim (Bool-cases (leb u.sz addr || ltb u.sz ((addr + 4) % 2 ^ 32))) [
  | inl out ↦ rw out (outside (ground (arith, user.below)))
  | inr in_bounds ↦ rw in_bounds (inside (ground (arith, user.below)))
]

argint-Fetches : (u : User) (n : ℕ) → IsUser u → Fetches u (arg_address u n) (argint u n)
unfolding argint
argint-Fetches u n user = fetchint-Fetches u (arg_address u n) user

plain_block :
    (u : User) (m w : ℕ)
    → w < 2 ^ 32
    → check_block u (pos m) (to_int w) ≡ (
        if ltb_ℤ (pos m) (pos 0) || (leb u.sz w || ltb u.sz ((w + m % 2 ^ 32) % 2 ^ 32))
        then none
        else some w)
plain_block u m w lt = rw (to_uint_to_int w lt) refl

-- The tests of `argptr` on the word `w`.
check_block-of :
    (u : User) (size : ℤ) (w p : ℕ)
    → u.sz ≤ kernbase
    → pos_part size < 2 ^ 31
    → w < 2 ^ 32
    → check_block u size (to_int w) ≡ some p
    → (p ≡ w) × (pos 0 ≤ℤ size) × (w < u.sz) × (w + pos_part size ≤ u.sz)
check_block-of u (pos m) w p below small lt e =
    let h = sym (plain_block u m w lt) ∙ e in
    (ground (arith, h), omega arith, ground (arith, h, below), ground (arith, h, below))
check_block-of u (negsuc m) w p below small lt e = absurd (ground arith)

check_block_passes :
    (u : User) (size : ℤ) (w : ℕ)
    → u.sz ≤ kernbase
    → pos 0 ≤ℤ size
    → w < u.sz
    → w + pos_part size ≤ u.sz
    → check_block u size (to_int w) ≡ some w
check_block_passes u (pos m) w below signed start end =
    rw (to_uint_to_int w (omega arith)) (ground arith)
check_block_passes u (negsuc m) w below signed start end = absurd (omega arith)

-- Where the process's memory ends below the kernel's, `argptr` succeeds with `p` exactly if the word
-- of the argument lies in the memory, `p` is that word, the size is not negative, and all the bytes
-- from `p` on, as many as the size says, lie in the memory, with `p` itself also where the size is 0;
-- no sum wraps around in a way that lets others through.
pub argptr-Within :
    (u : User) (n : ℕ) (size : ℤ) (p : ℕ)
    → IsUser u
    → pos_part size < 2 ^ 31
    → (argptr u n size ≡ some p) ↔ Within u n size p
unfolding argptr
argptr-Within u n size p user small = by_fetch (argint u n) (argint-Fetches u n user) refl
  where
    nothing : none ≢ some p
    nothing h = cc

    found :
        argint u n ≡ some (to_int (word u.mem (arg_address u n)))
        → argptr u n size ≡ check_block u size (to_int (word u.mem (arg_address u n)))
    found e = rw (argptr, e) refl

    by_fetch :
        (o : Option ℤ)
        → Fetches u (arg_address u n) o
        → argint u n ≡ o
        → (argptr u n size ≡ some p) ↔ Within u n size p
    by_fetch o (outside out) e = (
      λ h. absurd (nothing (sym (rw (argptr, e) refl) ∙ h)),
      λ i. absurd (omega (arith, i.arg_in)),
    )
    by_fetch o (inside arg) e = (
      λ h.
          let (pointer, signed, start, end) =
            check_block-of u size (word u.mem (arg_address u n)) p user.below small
              (word_lt u (arg_address u n) user) (sym (found e) ∙ h) in
          record {
            arg_in = arg;
            pointer = pointer;
            not_negative = signed;
            start_in = subst (λ q. q < u.sz) (sym pointer) start;
            end_in = subst (λ q. q + pos_part size ≤ u.sz) (sym pointer) end;
          },
      λ i.
          found e
          ∙ check_block_passes u size (word u.mem (arg_address u n)) user.below i.not_negative
              (subst (λ q. q < u.sz) i.pointer i.start_in)
              (subst (λ q. q + pos_part size ≤ u.sz) i.pointer i.end_in)
          ∙ ap some (sym i.pointer),
    )
