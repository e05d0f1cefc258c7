-- ===== src/Proc/Digits/Laws.antt =====
-- The digit loops end, and what they return.

use native.Mathlib.Nat.{pow-suc}
use os_lab.Base.Int.{pos, negsuc}
use os_lab.Base.{
  leb, ◌==◌, if◌then◌else◌, leb→le, Bool-cases, ℕ, zero, suc, ◌+◌, ◌-◌, ◌/◌, ◌%◌, ◌^◌, ◌≤◌, ◌<◌,
  ◌≡◌, refl, ap, ◌∙◌, ap₂, inl, inr, some, arith, dec_lt,
}
use os_lab.Proc.Digits.{digit_loop, how_many_digit, sum_loop, root_loop, find_digital_root}

-- What the inner loop returns is below the number from 10 on, and equal to it modulo 9.
record IsDigitSum (temp acc res : ℕ) : Type 0 where
  congruent : res % 9 ≡ (acc + temp) % 9
  grows : acc ≤ res
  at_most : res ≤ acc + temp
  below : 10 ≤ temp → res < acc + temp
  positive : 0 < temp → acc < res

sum_loop-IsDigitSum :
    (fuel temp acc : ℕ)
    → temp < fuel
    → (res : ℕ) × (sum_loop fuel temp acc ≡ some res) × IsDigitSum temp acc res
unfolding sum_loop
sum_loop-IsDigitSum zero temp acc h = absurd (omega arith)
sum_loop-IsDigitSum (suc fuel) temp acc h = elim (Bool-cases (temp == 0)) [
  | inl done ↦
      let z : temp ≡ 0 = ground arith in
      (
        acc,
        rw (done, sum_loop),
        record {
          congruent = ground arith;
          grows = omega arith;
          at_most = omega arith;
          below = λ p. absurd (omega arith);
          positive = λ p. absurd (omega arith);
        },
      )
  | inr more ↦
      let lt : temp / 10 < fuel = ground arith in
      let (res, e, s) = sum_loop-IsDigitSum fuel (temp / 10) (acc + temp % 10) lt in
      (
        res,
        rw (more, sum_loop) e,
        record {
          congruent = omega (arith, s.congruent);
          grows = omega (arith, s.grows);
          at_most = omega (arith, s.at_most);
          below = λ p. omega (arith, s.at_most);
          positive = λ p. elim (dec_lt temp 10) [
            | yes low ↦ omega (arith, s.grows)
            | no high ↦ omega (arith, s.positive (omega arith))
          ];
        },
      )
]

-- The digital root by its closed form.
abbrev pub root : ℕ → ℕ
root n = if n == 0 then 0 else (n - 1) % 9 + 1

root_of_big : (num res : ℕ) → 10 ≤ num → IsDigitSum num 0 res → root res ≡ root num
root_of_big num res big s =
    let c : res % 9 ≡ num % 9 = omega (arith, s.congruent) in
    let p : 0 < res = s.positive (omega arith) in ground arith

root_loop-eq-root : (fuel num : ℕ) → num < fuel → root_loop fuel num ≡ some (root num)
unfolding root_loop
root_loop-eq-root zero num h = absurd (omega arith)
root_loop-eq-root (suc fuel) num h = elim (Bool-cases (leb 10 num)) [
  | inr small ↦ rw (small, root_loop) (ap some (ground arith))
  | inl big ↦
      let ten : 10 ≤ num = leb→le 10 num big in
      let (res, e, s) = sum_loop-IsDigitSum (num + 1) num 0 (omega arith) in
      let lt : res < fuel = omega (arith, s.below ten) in
      rw (big, root_loop)
        (rw (e, root_loop) (root_loop-eq-root fuel res lt ∙ ap some (root_of_big num res ten s)))
]

-- `find_digital_root` ends within the fuel given. On a number that is not negative it returns the
-- digital root: 0 for 0, and otherwise one more than the remainder of `num - 1` by 9. A negative
-- number it returns as it is.
pub find_digital_root-eq-root :
    (num : ℕ)
    → (find_digital_root (pos num) ≡ some (pos (root num)))
      × (find_digital_root (negsuc num) ≡ some (negsuc num))
unfolding find_digital_root
find_digital_root-eq-root num =
    (rw (root_loop-eq-root (num + 1) num (omega arith), find_digital_root), refl)

-- The loop of `how_many_digit` adds the number `d` of digits, for `10 ^ (d - 1) ≤ num < 10 ^ d`.
abbrev pub HasDigits : ℕ → ℕ → Type 0
HasDigits num zero = num ≡ 0
HasDigits num (suc d) = (10 ^ d ≤ num) × (num < 10 ^ suc d)

HasDigits-div : (num d : ℕ) → 0 < num → HasDigits (num / 10) d → HasDigits num (suc d)
HasDigits-div num zero p h = omega arith
HasDigits-div num (suc d) p h = omega (arith, pow-suc 10 d, pow-suc 10 (suc d))

digit_loop-HasDigits :
    (fuel num count : ℕ)
    → num < fuel
    → (d : ℕ) × (digit_loop fuel num count ≡ some (count + d)) × HasDigits num d
unfolding digit_loop
digit_loop-HasDigits zero num count h = absurd (omega arith)
digit_loop-HasDigits (suc fuel) num count h = elim (Bool-cases (num == 0)) [
  | inl done ↦ (0, rw (done, digit_loop) (ap some (omega arith)), ground arith)
  | inr more ↦
      let lt : num / 10 < fuel = ground arith in
      let pos_num : 0 < num = ground arith in
      let (d, e, k) = digit_loop-HasDigits fuel (num / 10) (count + 1) lt in
      (suc d, rw (more, digit_loop) (e ∙ ap some (omega arith)), HasDigits-div num d pos_num k)
]

-- `how_many_digit` ends within the fuel given, and returns the number of decimal digits: for `num`
-- not 0 the number `d + 1` with `10 ^ d ≤ num < 10 ^ (d + 1)`, the same for `-num`, and 1 for 0.
pub how_many_digit_lem :
    (n : ℕ)
    → (how_many_digit (pos 0) ≡ some 1)
      × ((d : ℕ) × (how_many_digit (pos (suc n)) ≡ some (suc d))
          × (how_many_digit (negsuc n) ≡ some (suc d))
          × (10 ^ d ≤ suc n)
          × (suc n < 10 ^ suc d))
unfolding how_many_digit
how_many_digit_lem n =
    let (d, e, k) = digit_loop-HasDigits (suc n + 1) (suc n) 0 (omega arith) in (refl, count d e k)
  where
    same : digit_loop (n + 2) (n + 1) 0 ≡ digit_loop (suc n + 1) (suc n) 0
    same =
        let fuel : n + 2 ≡ suc n + 1 = omega arith in
        let num : n + 1 ≡ suc n = omega arith in ap₂ (λ f m. digit_loop f m 0) fuel num

    count :
        (d : ℕ)
        → digit_loop (suc n + 1) (suc n) 0 ≡ some (0 + d)
        → HasDigits (suc n) d
        → (d : ℕ) × (how_many_digit (pos (suc n)) ≡ some (suc d))
          × (how_many_digit (negsuc n) ≡ some (suc d))
          × (10 ^ d ≤ suc n)
          × (suc n < 10 ^ suc d)
    count zero e k = absurd (omega arith)
    count (suc d) e k =
        let e' : digit_loop (suc n + 1) (suc n) 0 ≡ some (suc d) = e ∙ ap some (omega arith) in
        (d, ground arith, same ∙ e', k.0, k.1)
