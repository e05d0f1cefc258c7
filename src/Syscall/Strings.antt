-- ===== src/Syscall/Strings.antt =====
-- The strings that `fetchstr` lets through.
use os_lab.Base.Find.{next_index}
use os_lab.Base.{
  leb, ◌==◌, Bool-cases, ℕ, zero, suc, ◌+◌, ◌-◌, ◌<◌, ◌≡◌, refl, sym, ap, ◌∙◌, ◌≢◌, ◌↔◌, inl, inr,
  false, Option, none, some, some-injective, arith, ℕ_discrete,
}
use os_lab.Syscall.{User, find_nul, fetchstr}

-- The string at `s` ends after `len` bytes, and before the `n` bytes from `s` on do.
abbrev pub Ends : (ℕ → ℕ) → ℕ → ℕ → ℕ → Type 0
Ends mem n s len = (len < n) × (mem (s + len) ≡ 0) × ((i : ℕ) → i < len → mem (s + i) ≢ 0)

next_index_inv :
    (o : Option ℕ) (len : ℕ) → next_index o ≡ some len → (k : ℕ) × (len ≡ suc k) × (o ≡ some k)
next_index_inv none len e = cc
next_index_inv (some k) len e = (k, sym (some-injective _ _ e), refl)

shift : (mem : ℕ → ℕ) (s i : ℕ) → mem (s + 1 + i) ≡ mem (s + suc i)
shift mem s i = ap mem next
  where
    next : s + 1 + i ≡ s + suc i
    next = omega arith

find_nul-Ends : (mem : ℕ → ℕ) (n s len : ℕ) → find_nul mem n s ≡ some len → Ends mem n s len
unfolding find_nul
find_nul-Ends mem zero s len e = cc
find_nul-Ends mem (suc n) s len e = elim (ℕ_discrete (mem s) 0) [
  | yes z ↦ at_once z (ground arith)
  | no ne ↦
      let (k, same, f) = next_index_inv (find_nul mem n (s + 1)) len (ground arith) in
      later ne k same (find_nul-Ends mem n (s + 1) k f)
]
  where
    at_once : mem s ≡ 0 → 0 ≡ len → Ends mem (suc n) s len
    at_once z e = (omega arith, ap mem (omega arith) ∙ z, λ i lt. absurd (omega arith))

    later : mem s ≢ 0 → (k : ℕ) → len ≡ suc k → Ends mem n (s + 1) k → Ends mem (suc n) s len
    later ne k same (lt, nul, before) =
        (omega arith, ap (λ l. mem (s + l)) same ∙ sym (shift mem s k) ∙ nul, λ i. all i)
      where
        all : (i : ℕ) → i < len → mem (s + i) ≢ 0
        all zero l z = ne (ap mem (omega arith) ∙ z)
        all (suc i) l z = before i (omega arith) (shift mem s i ∙ z)

plus_zero : (s : ℕ) → s ≡ s + 0
plus_zero s = omega arith

find_nul_of : (mem : ℕ → ℕ) (n s len : ℕ) → Ends mem n s len → find_nul mem n s ≡ some len
unfolding find_nul
find_nul_of mem zero s len (lt, nul, before) = absurd (omega arith)
find_nul_of mem (suc n) s zero (lt, nul, before) = rw (ap mem (plus_zero s) ∙ nul) refl
find_nul_of mem (suc n) s (suc len) (lt, nul, before) =
    let rest = find_nul_of mem n (s + 1) len (
      omega arith,
      shift mem s len ∙ nul,
      λ i l z. before (suc i) (omega arith) (sym (shift mem s i) ∙ z),
    ) in
    rw (nonzero (λ z. before 0 (omega arith) (ap mem (omega arith) ∙ z)), rest) refl
  where
    nonzero : mem s ≢ 0 → (mem s == 0) ≡ false
    nonzero ne = ground arith

-- `fetchstr` succeeds with `len` exactly if the string at `addr` ends in the memory, after `len`
-- bytes that are not 0.
pub fetchstr_iff :
    (u : User) (addr len : ℕ)
    → (fetchstr u addr ≡ some len) ↔ (
        (addr + len < u.sz) × (u.mem (addr + len) ≡ 0) × ((i : ℕ) → i < len → u.mem (addr + i) ≢ 0))
unfolding fetchstr
fetchstr_iff u addr len = elim (Bool-cases (leb u.sz addr)) [
  | inl out ↦
      (λ h. absurd (nothing (sym (rw (fetchstr, out) refl) ∙ h)), λ e. absurd (ground (arith, e.0)))
  | inr in_memory ↦ (
    λ h.
        let (lt, nul, before) =
          find_nul-Ends u.mem (u.sz - addr) addr len (sym (rw (fetchstr, in_memory) refl) ∙ h) in
        (omega arith, nul, before),
    λ (lt, nul, before).
        rw (fetchstr, in_memory)
          (find_nul_of u.mem (u.sz - addr) addr len (omega arith, nul, before)),
  )
]
  where
    nothing : none ≢ some len
    nothing h = cc
