-- ===== src/Operators/Laws.antt =====
-- internal/lang/eval.go: equality of values is symmetric.
use quark_lang.Base.{Bytes, arith, equal, equal_iff, false, refl, true, ℕ, ◌==◌, ◌≡◌}
use quark_lang.Operators.{Floats, equal_values}
use quark_lang.Value.{Value, bool_v, float_v, int_v, nil_v, ref_iota, ref_v, str_v}

-- Equality of values does not depend on their order, if that of floats does not.
module _ {F : Type 0} (fl : Floats F) (f_sym : (x y : F) → fl.f_eq x y ≡ fl.f_eq y x) where
  ==_comm : (a b : ℕ) → (a == b) ≡ (b == a)
  ==_comm a b = ground arith

  equal_comm : (s t : Bytes) → equal s t ≡ equal t s
  equal_comm s t = ground (arith, equal_iff s t, equal_iff t s)

  -- `==` on values is symmetric where it is on floats.
  pub equal_values_comm : (l r : Value F) → equal_values fl l r ≡ equal_values fl r l
  unfolding equal_values
  equal_values_comm (int_v a) (int_v b) = ==_comm a b
  equal_values_comm (int_v a) (float_v y) = f_sym (fl.of_int a) y
  equal_values_comm (float_v x) (float_v y) = f_sym x y
  equal_values_comm (float_v x) (int_v b) = f_sym x (fl.of_int b)
  equal_values_comm (str_v s) (str_v t) = equal_comm s t
  equal_values_comm (ref_v k a) (ref_v j b) =
      rw (==_comm (ref_iota k) (ref_iota j), ==_comm a b) refl
  equal_values_comm nil_v nil_v = refl
  equal_values_comm nil_v (int_v b) = refl
  equal_values_comm nil_v (float_v y) = refl
  equal_values_comm nil_v (str_v t) = refl
  equal_values_comm nil_v (bool_v true) = refl
  equal_values_comm nil_v (bool_v false) = refl
  equal_values_comm nil_v (ref_v j b) = refl
  equal_values_comm (int_v a) nil_v = refl
  equal_values_comm (int_v a) (str_v t) = refl
  equal_values_comm (int_v a) (bool_v true) = refl
  equal_values_comm (int_v a) (bool_v false) = refl
  equal_values_comm (int_v a) (ref_v j b) = refl
  equal_values_comm (float_v x) nil_v = refl
  equal_values_comm (float_v x) (str_v t) = refl
  equal_values_comm (float_v x) (bool_v true) = refl
  equal_values_comm (float_v x) (bool_v false) = refl
  equal_values_comm (float_v x) (ref_v j b) = refl
  equal_values_comm (str_v s) nil_v = refl
  equal_values_comm (str_v s) (int_v b) = refl
  equal_values_comm (str_v s) (float_v y) = refl
  equal_values_comm (str_v s) (bool_v true) = refl
  equal_values_comm (str_v s) (bool_v false) = refl
  equal_values_comm (str_v s) (ref_v j b) = refl
  equal_values_comm (bool_v true) nil_v = refl
  equal_values_comm (bool_v true) (int_v b) = refl
  equal_values_comm (bool_v true) (float_v y) = refl
  equal_values_comm (bool_v true) (str_v t) = refl
  equal_values_comm (bool_v true) (bool_v true) = refl
  equal_values_comm (bool_v true) (bool_v false) = refl
  equal_values_comm (bool_v true) (ref_v j b) = refl
  equal_values_comm (bool_v false) nil_v = refl
  equal_values_comm (bool_v false) (int_v b) = refl
  equal_values_comm (bool_v false) (float_v y) = refl
  equal_values_comm (bool_v false) (str_v t) = refl
  equal_values_comm (bool_v false) (bool_v true) = refl
  equal_values_comm (bool_v false) (bool_v false) = refl
  equal_values_comm (bool_v false) (ref_v j b) = refl
  equal_values_comm (ref_v k a) nil_v = refl
  equal_values_comm (ref_v k a) (int_v b) = refl
  equal_values_comm (ref_v k a) (float_v y) = refl
  equal_values_comm (ref_v k a) (str_v t) = refl
  equal_values_comm (ref_v k a) (bool_v true) = refl
  equal_values_comm (ref_v k a) (bool_v false) = refl
