-- ===== src/Proc/Float.antt =====
-- The machine's `float`, which the kernel only computes with: a parameter of the model.
use os_lab.Base.{ℕ, ◌+◌, ◌*◌, ◌≡◌, Bool, true, false, arith}
use os_lab.Base.Int.{ℤ, pos, pos_part, neg_part, sub_ℕ, ◌+ℤ◌, ltb_ℤ}

-- The operations that proc.c and sysproc.c use, at single precision.
pub record FloatOps (F : Type 0) : Type 0 where
  pub of_int : ℤ → F
  pub of_uint : ℕ → F
  pub add : F → F → F
  pub mul : F → F → F
  pub lt : F → F → Bool
  pub to_int : F → ℤ
  pub one : F  -- 1.0f
  pub tenth : F  -- 0.1f
  pub add_tenth_double : F → F  -- x += 0.1, by way of `double`

-- What IEEE 754 says of `<`, also for NaN.
pub record FloatLaws {F : Type 0} (fl : FloatOps F) : Type 0 where
  pub lt_trans : (a b c : F) → fl.lt a b ≡ true → fl.lt b c ≡ true → fl.lt a c ≡ true
  pub lt_irrefl : (a : F) → fl.lt a a ≡ false

-- Whole numbers meet the laws; a tenth is rounded to zero.
abbrev pub whole : FloatOps ℤ
whole = record {
  of_int = λ a. a;
  of_uint = pos;
  add = ◌+ℤ◌;
  mul = λ a b.
      sub_ℕ (pos_part a * pos_part b + neg_part a * neg_part b)
        (pos_part a * neg_part b + neg_part a * pos_part b);
  lt = ltb_ℤ;
  to_int = λ a. a;
  one = pos 1;
  tenth = pos 0;
  add_tenth_double = λ a. a;
}

pub whole-FloatLaws : FloatLaws whole
whole-FloatLaws = record { lt_trans = λ a b c p q. ground arith; lt_irrefl = λ a. ground arith }
