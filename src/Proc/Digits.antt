-- ===== src/Proc/Digits.antt =====
-- proc.c: `how_many_digit` and `find_digital_root`. Division of an `int` truncates towards 0.
pub mod Laws
use os_lab.Base.{
  leb, ◌==◌, if◌then◌else◌, ℕ, zero, suc, ◌+◌, ◌/◌, ◌%◌, true, false, Option, none, some,
}
use os_lab.Base.Int.{ℤ, pos, negsuc}

-- The loop of `how_many_digit` on fuel, over the magnitude of `num`.
pub digit_loop : ℕ → ℕ → ℕ → Option ℕ
digit_loop zero num count = none
digit_loop (suc fuel) num count =
    let rest = digit_loop fuel (num / 10) (count + 1) in if num == 0 then some count else rest

-- A number has fewer digits than its value plus two.
pub how_many_digit : ℤ → Option ℕ
unfolding digit_loop
how_many_digit (pos num) = if num == 0 then some 1 else digit_loop (num + 1) num 0
how_many_digit (negsuc n) = digit_loop (n + 2) (n + 1) 0

-- The inner loop of `find_digital_root` on fuel: the sum of the digits of `temp`, added to `res`.
pub sum_loop : ℕ → ℕ → ℕ → Option ℕ
sum_loop zero temp res = none
sum_loop (suc fuel) temp res =
    let rest = sum_loop fuel (temp / 10) (res + temp % 10) in if temp == 0 then some res else rest

-- The outer loop, whose body runs only on numbers from 10 on.
pub root_loop : ℕ → ℕ → Option ℕ
root_loop zero num = none
root_loop (suc fuel) num = elim (leb 10 num) [
  | true ↦ elim (sum_loop (num + 1) num 0) [ none ↦ none | some res ↦ root_loop fuel res ]
  | false ↦ some num
]

pub find_digital_root : ℤ → Option ℤ
unfolding root_loop
find_digital_root (pos num) = elim (root_loop (num + 1) num) [
  | none ↦ none
  | some res ↦ some (pos res)
]
find_digital_root (negsuc n) = some (negsuc n)
