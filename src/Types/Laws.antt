-- ===== src/Types/Laws.antt =====
-- internal/lang/typecheck.go: `assignable` on one type, and `join` on types of different kinds and on
-- one type twice.
use quark_lang.Base.{
  ==_refl, Bool, Bool-cases, Bytes, [], arith, equal, equal_refl, false, if◌then◌else◌, inl, inr,
  refl, true, ◌&&◌, ◌||◌, ◌≡◌, ◌≢◌,
}
use quark_lang.Types.{
  Ty, Tys, args_assignable, assignable, copy_of, func_assignable, func_of, has_kind, interface_of,
  is_any, join_tests, join_types, k_any, k_float, k_int, k_nil, kind_iota, kind_of, list_of, no_tys,
  plain, ptr_to, same_kind, struct_of, table_of, type_var, tys_cons,
}

-- No part of the type is nil or `Copyd`; `parseTypeStr` makes no other types.
unfoldable mutual
  pub IsRegular : Ty → Type 0
  IsRegular (plain k) = k ≢ k_nil
  IsRegular (list_of t) = IsRegular t
  IsRegular (ptr_to t) = IsRegular t
  IsRegular (copy_of t) = ⊥
  IsRegular (table_of k v) = IsRegular k × IsRegular v
  IsRegular (struct_of n ts) = AreRegular ts
  IsRegular _ = Unit

  pub AreRegular : Tys → Type 0
  AreRegular no_tys = Unit
  AreRegular (tys_cons t ts) = IsRegular t × AreRegular ts

near_true : (a b : Ty) → assignable a b ≡ true → (is_any a || is_any b || assignable a b) ≡ true
near_true a b h = ground arith

or_first : (a b c : Bool) → a ≡ true → (a || b || c) ≡ true
or_first a b c h = ground arith

and_true : (a b : Bool) → a ≡ true → b ≡ true → (a && b) ≡ true
and_true a b h k = ground arith

func_assignable_refl : (n : Bytes) → func_assignable n n ≡ true
unfolding func_assignable
func_assignable_refl n = or_true4 (equal n []) _ _ (equal_refl n)
  where
    or_true4 : (a b c : Bool) → equal n n ≡ true → (a || b || c || equal n n) ≡ true
    or_true4 a b c h = ground arith

mutual
  unfolding assignable IsRegular

  assignable_refl : (t : Ty) → IsRegular t → assignable t t ≡ true
  assignable_refl (plain k_nil) h = absurd (h refl)
  assignable_refl (plain _) h = refl
  assignable_refl (list_of t) h = near_true t t (assignable_refl t h)
  assignable_refl (ptr_to t) h =
      or_first (assignable t t) (is_any t) (is_any t) (assignable_refl t h)
  assignable_refl (copy_of t) h = absurd h
  assignable_refl (table_of k v) (h, i) =
      and_true _ _ (near_true k k (assignable_refl k h)) (near_true v v (assignable_refl v i))
  assignable_refl (func_of n) h = func_assignable_refl n
  assignable_refl (interface_of n) h = equal_refl n
  assignable_refl (type_var n) h = refl
  assignable_refl (struct_of n ts) h = and_true _ _ (equal_refl n) (args_assignable_refl ts h)

  args_assignable_refl : (ts : Tys) → AreRegular ts → args_assignable ts ts ≡ true
  args_assignable_refl no_tys h = refl
  args_assignable_refl (tys_cons t ts) (h, i) =
      and_true _ _ (near_true t t (assignable_refl t h)) (args_assignable_refl ts i)

-- A type with no nil and no `Copyd` in it is assignable to itself.
pub assignable_self : (t : Ty) → IsRegular t → assignable t t ≡ true
assignable_self t h = assignable_refl t h

join_types-tests : (a b : Ty) → (same : Ty) × (join_types a b ≡ join_tests a b same)
unfolding join_types
join_types-tests (list_of d) (list_of e) = (_, refl)
join_types-tests (list_of d) b = (list_of d, refl)
join_types-tests a b = (a, refl)

numeric-float :
    (a : Ty) → (has_kind a k_int || has_kind a k_float) ≡ true → assignable a (plain k_float) ≡ true
unfolding assignable
numeric-float (plain k_int) h = refl
numeric-float (plain k_float) h = refl
numeric-float (plain _) h = cc
numeric-float _ h = cc

both_numeric : (p q r s : Bool) → (p && q || r && s) ≡ true → ((p || r) ≡ true) × ((s || q) ≡ true)
both_numeric p q r s h = ground arith

-- The type that `join` gives two types of different kinds is one that both are assignable to.
pub join_types-assignable :
    (a b : Ty)
    → same_kind a b ≡ false
    → (assignable a (join_types a b) ≡ true) × (assignable b (join_types a b) ≡ true)
unfolding assignable
join_types-assignable a b h =
    let (x, e) = join_types-tests a b in
    elim (Bool-cases (is_any a || is_any b)) [
      | inl k ↦ rw (e, k) (refl, refl)
      | inr k ↦
          elim (Bool-cases
            (has_kind a k_int && has_kind b k_float || has_kind a k_float && has_kind b k_int)) [
              | inl n ↦
                  let (p, q) =
                    both_numeric (has_kind a k_int) (has_kind b k_float) (has_kind a k_float)
                      (has_kind b k_int) n in
                  rw (e, k, h, n) (numeric-float a p, numeric-float b q)
              | inr n ↦ rw (e, k, h, n) (refl, refl)
            ]
    ]

same_kind_refl : (t : Ty) → same_kind t t ≡ true
same_kind_refl t = ==_refl (kind_iota (kind_of t))

if_same : (b : Bool) (t : Ty) → is_any t ≡ b → (if b || b then plain k_any else t) ≡ t
if_same true (plain k_any) h = refl
if_same true (plain _) h = cc
if_same true _ h = cc
if_same false t h = refl

join_tests_refl : (t : Ty) → join_tests t t t ≡ t
join_tests_refl t = rw (same_kind_refl t) (if_same (is_any t) t refl)

-- The `join` of a type with itself is that type.
pub join_types_self : (t : Ty) → join_types t t ≡ t
unfolding join_types
join_types_self (list_of t) = rw (same_kind_refl t, join_types_self t) refl
join_types_self (plain k) = join_tests_refl (plain k)
join_types_self t = join_tests_refl t
