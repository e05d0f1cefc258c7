-- ===== src/Descriptors/Holders.antt =====
-- The descriptors that hold a file.
use os_lab.Base.{
  leb, ◌==◌, if◌then◌else◌, Bool-cases, Option-cases, length, get_elem?, set, get_or, ℕ, zero, suc,
  ◌+◌, ◌<◌, ◌≡◌, refl, sym, ap, ◌∙◌, fun_ext, subst, ◌≢◌, inl, inr, Option, none, some,
  some-injective, List, [], ◌∷◌, arith,
}
use os_lab.Base.Int.{ℤ, pos, negsuc}
use os_lab.Syscall.{User, argint}
use os_lab.FileTable.{File}
use os_lab.FileTable.Counts.{IsCounted}
use os_lab.Descriptors.{nofile, Ofile, file_of, argfd}

-- How many descriptors hold the file `i`.
abbrev pub holds : ℕ → Ofile → ℕ
holds i [] = 0
holds i (none ∷ ofile) = holds i ofile
holds i (some j ∷ ofile) = (if i == j then 1 else 0) + holds i ofile

pub holds-set-some :
    (j i fd : ℕ) (ofile : Ofile)
    → get_elem? ofile fd ≡ some none
    → holds j (set ofile fd (some i)) ≡ (if j == i then 1 else 0) + holds j ofile
holds-set-some j i fd [] e = cc
holds-set-some j i zero (none ∷ ofile) e = refl
holds-set-some j i zero (some k ∷ ofile) e = cc
holds-set-some j i (suc fd) (none ∷ ofile) e = holds-set-some j i fd ofile e
holds-set-some j i (suc fd) (some k ∷ ofile) e = omega (arith, holds-set-some j i fd ofile e)

pub holds-set-none :
    (j i fd : ℕ) (ofile : Ofile)
    → get_elem? ofile fd ≡ some (some i)
    → holds j ofile ≡ (if j == i then 1 else 0) + holds j (set ofile fd none)
holds-set-none j i fd [] e = cc
holds-set-none j i zero (none ∷ ofile) e = cc
holds-set-none j i zero (some k ∷ ofile) e =
    ap (λ x. (if j == x then 1 else 0) + holds j ofile) (some-injective _ _ (some-injective _ _ e))
holds-set-none j i (suc fd) (none ∷ ofile) e = holds-set-none j i fd ofile e
holds-set-none j i (suc fd) (some k ∷ ofile) e = omega (arith, holds-set-none j i fd ofile e)

pub IsCounted-cong :
    (files : List File) (c d : ℕ → ℕ)
    → ((i : ℕ) → c i ≡ d i)
    → IsCounted files c
    → IsCounted files d
IsCounted-cong files c d e v = subst (IsCounted files) (fun_ext e) v

pub get_elem?_of_lt :
    (files : List File) (i : ℕ) → i < length files → (f : File) × (get_elem? files i ≡ some f)
get_elem?_of_lt [] i lt = absurd (omega arith)
get_elem?_of_lt (f ∷ files) zero lt = (f, refl)
get_elem?_of_lt (f ∷ files) (suc i) lt = get_elem?_of_lt files i (omega arith)

get_elem?_of_get_or :
    (ofile : Ofile) (fd i : ℕ) → get_or ofile fd none ≡ some i → get_elem? ofile fd ≡ some (some i)
get_elem?_of_get_or [] fd i e = cc
get_elem?_of_get_or (x ∷ ofile) zero i e = ap some e
get_elem?_of_get_or (x ∷ ofile) (suc fd) i e = get_elem?_of_get_or ofile fd i e

pub nothing {ℓ} : {A : Type ℓ} (a : A) → ◌≢◌ {A = Option A} none (some a)
nothing a e = cc

file_of_open :
    (ofile : Ofile) (z : ℤ) (fd i : ℕ)
    → file_of ofile z ≡ some (fd, i)
    → get_elem? ofile fd ≡ some (some i)
file_of_open ofile (negsuc m) fd i e = cc
file_of_open ofile (pos m) fd i e = elim (Bool-cases (leb nofile m)) [
  | inl out ↦ absurd (nothing _ (sym (rw out refl) ∙ e))
  | inr in_table ↦ by_entry (get_or ofile m none) refl (sym (rw in_table refl) ∙ e)
]
  where
    by_entry :
        (o : Option ℕ)
        → get_or ofile m none ≡ o
        → (elim o as (λ _. Option (ℕ × ℕ)) [ none ↦ none | some j ↦ some (m, j) ]) ≡ some (fd, i)
        → get_elem? ofile fd ≡ some (some i)
    by_entry none g h = absurd (nothing _ h)
    by_entry (some j) g h =
        let same = some-injective _ _ h in
        subst (λ k. get_elem? ofile k ≡ some (some i)) (ap (λ (q : ℕ × ℕ). q.0) same)
          (get_elem?_of_get_or ofile m i (g ∙ ap (λ (q : ℕ × ℕ). some (q.1)) same))

-- The answers of `argfd` are descriptors in use.
pub argfd_open :
    (u : User) (ofile : Ofile) (n fd i : ℕ)
    → argfd u ofile n ≡ some (fd, i)
    → get_elem? ofile fd ≡ some (some i)
unfolding argfd
argfd_open u ofile n fd i e = elim (Option-cases (argint u n)) [
  | inl fails ↦ absurd (nothing _ (sym (rw (argfd, fails) refl) ∙ e))
  | inr (z, fetched) ↦ file_of_open ofile z fd i (sym (rw (argfd, fetched) refl) ∙ e)
]

pub holds_pos : (i fd : ℕ) (ofile : Ofile) → get_elem? ofile fd ≡ some (some i) → 0 < holds i ofile
holds_pos i fd ofile e = ground (arith, holds-set-none i i fd ofile e)
