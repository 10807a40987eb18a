-- ===== src/Operators/Tests.antt =====
-- internal/lang/eval.go: operators on small values, with numbers in place of floats.

use quark_lang.Base.{arith, leb, ltb, refl, some, ℕ, ◌*◌, ◌+◌, ◌-◌, ◌/◌, ◌<◌, ◌==◌, ◌^◌, ◌↔◌, ◌≡◌}
use quark_lang.Base.Result.{ok}
use quark_lang.Operators.{Floats, arith_int, op_add, op_div, op_mul, pow2, shr_int, two_31, two_64}
use quark_lang.Operators.Pow2.{pow2_iff}

abbrev number_floats : Floats ℕ
number_floats = record {
  of_int = λ n. n;
  f_add = λ a b. a + b;
  f_sub = λ a b. a - b;
  f_mul = λ a b. a * b;
  f_div = λ a b. a / b;
  f_is_zero = λ a. a == 0;
  f_eq = λ a b. a == b;
  f_lt = ltb;
  f_le = leb;
}

pow2_example : (pow2 8 ≡ some 3) ↔ ((3 < 31) × (8 ≡ 2 ^ 3))
pow2_example = pow2_iff 8 3

number_eq_sym : (x y : ℕ) → number_floats.f_eq x y ≡ number_floats.f_eq y x
number_eq_sym x y = ground arith

wrapped_sum : arith_int op_add 2147483647 1 ≡ some (ok (two_64 - two_31))
unfolding arith_int
wrapped_sum = refl

negative_quotient : arith_int op_div (two_64 - 7) 2 ≡ some (ok (two_64 - 3))
unfolding arith_int
negative_quotient = refl

shifted_product : arith_int op_mul (two_64 - 3) 4 ≡ some (ok (two_64 - 12))
unfolding arith_int
shifted_product = refl

shifted_right : shr_int (two_64 - 5) 1 ≡ two_64 - 3
unfolding shr_int
shifted_right = refl
