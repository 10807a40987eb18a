-- ===== src/Operators.antt =====
-- internal/lang/eval.go: arithmetic, shifts and comparisons of values. An int64 is the natural number
-- below 2 ^ 64 that has the same bits.
pub mod Arith
pub mod Division
pub mod Laws
pub mod Pow2
mod Tests
use quark_lang.Base.{
  Bool, Bytes, Option, [], equal, false, if◌then◌else◌, leb, ltb, none, not, some, suc, true, zero,
  ℕ, ◌%◌, ◌&&◌, ◌*◌, ◌++◌, ◌+◌, ◌-◌, ◌/◌, ◌==◌, ◌^◌, ◌||◌, ◌∷◌,
}
use quark_lang.Base.Result.{Result, err, ok, ◌>>=◌}
use quark_lang.Value.{Value, bool_v, float_v, int_v, is_str, nil_v, ref_iota, ref_v, str_v}

pub data Op : Type 0 where
  op_add op_sub op_mul op_div op_mod op_shl op_shr op_eq op_ne op_lt op_le op_gt op_ge : Op

pub data OpError : Type 0 where
  division_by_zero float_division_by_zero mod_requires_ints shift_requires_ints : OpError
  not_a_number not_ordered : OpError

-- What the code uses of float64: its operations, and the conversion of an int64.
pub record Floats (F : Type 0) : Type 0 where
  pub of_int : ℕ → F
  pub f_add : F → F → F
  pub f_sub : F → F → F
  pub f_mul : F → F → F
  pub f_div : F → F → F
  pub f_is_zero : F → Bool
  pub f_eq : F → F → Bool
  pub f_lt : F → F → Bool
  pub f_le : F → F → Bool

abbrev pub two_64 : ℕ
two_64 = 18446744073709551616

abbrev pub two_63 : ℕ
two_63 = 9223372036854775808

abbrev pub two_32 : ℕ
two_32 = 4294967296

abbrev pub two_31 : ℕ
two_31 = 2147483648

-- `int64(int32(x))`, which is `wrapI32`.
unfoldable pub wrap_i32 : ℕ → ℕ
wrap_i32 x = let low = x % two_32 in if ltb low two_31 then low else low + (two_64 - two_32)

abbrev pub is_neg : ℕ → Bool
is_neg x = leb two_63 x

abbrev pub neg_64 : ℕ → ℕ
neg_64 x = (two_64 - x) % two_64

abbrev pub abs_64 : ℕ → ℕ
abs_64 x = if is_neg x then two_64 - x else x

abbrev pub differ : Bool → Bool → Bool
differ true b = not b
differ false b = b

-- Go's `/` and `%` on int64, which round to zero; the divisor is not 0.
unfoldable pub quot_64 : ℕ → ℕ → ℕ
quot_64 x y = let q = abs_64 x / abs_64 y in if differ (is_neg x) (is_neg y) then neg_64 q else q

unfoldable pub rem_64 : ℕ → ℕ → ℕ
rem_64 x y = let r = abs_64 x % abs_64 y in if is_neg x then neg_64 r else r

-- The loop of `pow2`, on fuel; a positive int32 is halved at most 30 times.
unfoldable pub pow2_from : ℕ → ℕ → ℕ → Option ℕ
pow2_from zero v n = none
pow2_from (suc f) v n =
    let more = pow2_from f (v / 2) (n + 1) in
    if leb v 1 then some n else if v % 2 == 1 then none else more

-- `pow2`, of the low 32 bits of a word.
unfoldable pub pow2 : ℕ → Option ℕ
unfolding pow2_from
pow2 v = if v == 0 || leb two_31 v then none else pow2_from 32 v 0

abbrev pub times : ℕ → ℕ → Option ℕ → ℕ
times li ri none = wrap_i32 (li * ri % two_64)
times li ri (some n) = wrap_i32 (wrap_i32 (li % two_32 * 2 ^ n))

-- The cases of `arith` for two ints, and `<<` and `>>`; `none` for another operator.
unfoldable pub arith_int : Op → ℕ → ℕ → Option (Result OpError ℕ)
unfolding wrap_i32 pow2 quot_64 rem_64
arith_int op_add li ri = some (ok (wrap_i32 ((li + ri) % two_64)))
arith_int op_sub li ri = some (ok (wrap_i32 ((li + (two_64 - ri)) % two_64)))
arith_int op_mul li ri = some (ok (times li ri (pow2 (ri % two_32))))
arith_int op_div li ri =
    some (if ri == 0 then err division_by_zero else ok (wrap_i32 (quot_64 li ri)))
arith_int op_mod li ri =
    some (if ri == 0 then err division_by_zero else ok (wrap_i32 (rem_64 li ri)))
arith_int _ li ri = none

module _ {F : Type 0} (fl : Floats F) where
  unfoldable pub to_float : Value F → Result OpError F
  to_float (int_v n) = ok (fl.of_int n)
  to_float (float_v x) = ok x
  to_float _ = err not_a_number

  abbrev pub arith_float : Op → F → F → Result OpError (Value F)
  arith_float op_add a b = ok (float_v (fl.f_add a b))
  arith_float op_sub a b = ok (float_v (fl.f_sub a b))
  arith_float op_mul a b = ok (float_v (fl.f_mul a b))
  arith_float op_div a b =
      if fl.f_is_zero b then err float_division_by_zero else ok (float_v (fl.f_div a b))
  arith_float _ a b = err mod_requires_ints

  abbrev pub int_result : Option (Result OpError ℕ) → Result OpError (Value F)
  int_result none = err not_a_number
  int_result (some r) = r >>= λ n. ok (int_v n)

  -- `arith`, for the operators `+`, `-`, `*`, `/` and `%`.
  unfoldable pub arith_values : Op → Value F → Value F → Result OpError (Value F)
  unfolding arith_int to_float
  arith_values op (int_v li) (int_v ri) = int_result (arith_int op li ri)
  arith_values op l r = to_float l >>= λ a. to_float r >>= λ b. arith_float op a b

  -- `equalValues`.
  unfoldable pub equal_values : Value F → Value F → Bool
  unfolding equal
  equal_values (int_v a) (int_v b) = a == b
  equal_values (int_v a) (float_v y) = fl.f_eq (fl.of_int a) y
  equal_values (int_v a) r = false
  equal_values (float_v x) (float_v y) = fl.f_eq x y
  equal_values (float_v x) (int_v b) = fl.f_eq x (fl.of_int b)
  equal_values (float_v x) r = false
  equal_values (str_v s) (str_v t) = equal s t
  equal_values (str_v s) r = false
  equal_values (bool_v true) (bool_v true) = true
  equal_values (bool_v false) (bool_v false) = true
  equal_values (bool_v b) r = false
  equal_values nil_v nil_v = true
  equal_values nil_v r = false
  equal_values (ref_v k a) (ref_v j b) = ref_iota k == ref_iota j && a == b
  equal_values (ref_v k a) r = false

  -- `ordCmp`.
  abbrev pub ord_cmp : Op → F → F → Bool
  ord_cmp op_lt a b = fl.f_lt a b
  ord_cmp op_le a b = fl.f_le a b
  ord_cmp op_gt a b = fl.f_lt b a
  ord_cmp op_ge a b = fl.f_le b a
  ord_cmp _ a b = false

  -- The order of Go strings, bytewise.
  unfoldable pub text_lt : Bytes → Bytes → Bool
  text_lt s [] = false
  text_lt [] (d ∷ t) = true
  text_lt (c ∷ s) (d ∷ t) = ltb c d || c == d && text_lt s t

  -- `ordCmpStr`.
  abbrev pub ord_cmp_str : Op → Bytes → Bytes → Bool
  ord_cmp_str op_lt a b = text_lt a b
  ord_cmp_str op_le a b = not (text_lt b a)
  ord_cmp_str op_gt a b = text_lt b a
  ord_cmp_str op_ge a b = not (text_lt a b)
  ord_cmp_str _ a b = false

  -- The part of `cmp` that orders: ints are compared as floats.
  unfoldable pub order_values : Op → Value F → Value F → Result OpError Bool
  unfolding text_lt
  order_values op (int_v a) (int_v b) = ok (ord_cmp op (fl.of_int a) (fl.of_int b))
  order_values op (int_v a) (float_v y) = ok (ord_cmp op (fl.of_int a) y)
  order_values op (float_v x) (float_v y) = ok (ord_cmp op x y)
  order_values op (float_v x) (int_v b) = ok (ord_cmp op x (fl.of_int b))
  order_values op (str_v s) (str_v t) = ok (ord_cmp_str op s t)
  order_values op l r = err not_ordered

  unfoldable pub cmp_values : Op → Value F → Value F → Result OpError Bool
  unfolding equal_values order_values
  cmp_values op_eq l r = ok (equal_values l r)
  cmp_values op_ne l r = ok (not (equal_values l r))
  cmp_values op l r = order_values op l r

-- `<<` and `>>` of `binOp`: the low 32 bits, by the low 5 bits of the count.
unfoldable pub shl_int : ℕ → ℕ → ℕ
unfolding wrap_i32
shl_int li sh = wrap_i32 (li % two_32 * 2 ^ (sh % 32))

unfoldable pub shr_int : ℕ → ℕ → ℕ
shr_int li sh =
    let low = li % two_32 in
    let k = 2 ^ (sh % 32) in
    if ltb low two_31 then low / k else two_64 - (two_32 - low + (k - 1)) / k

module _ {F : Type 0} (fl : Floats F) (show : Value F → Bytes) where
  abbrev pub shift_values : (ℕ → ℕ → ℕ) → Value F → Value F → Result OpError (Value F)
  shift_values f (int_v li) (int_v sh) = ok (int_v (f li sh))
  shift_values f l r = err shift_requires_ints

  abbrev pub bool_result : Result OpError Bool → Result OpError (Value F)
  bool_result r = r >>= λ b. ok (bool_v b)

  abbrev pub plus_values : Value F → Value F → Result OpError (Value F)
  plus_values l r =
      if is_str l || is_str r then ok (str_v (show l ++ show r)) else arith_values fl op_add l r

  -- `binOp`; `show` is `Value.String`.
  unfoldable pub bin_op : Op → Value F → Value F → Result OpError (Value F)
  unfolding arith_values cmp_values shl_int shr_int
  bin_op op_add l r = plus_values l r
  bin_op op_sub l r = arith_values fl op_sub l r
  bin_op op_mul l r = arith_values fl op_mul l r
  bin_op op_div l r = arith_values fl op_div l r
  bin_op op_mod l r = arith_values fl op_mod l r
  bin_op op_shl l r = shift_values shl_int l r
  bin_op op_shr l r = shift_values shr_int l r
  bin_op op l r = bool_result (cmp_values fl op l r)
