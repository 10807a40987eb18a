-- ===== src/Front/Fresh/Nodes.antt =====
-- internal/lang/ast.go: the indices at the calls in an expression, from those in its parts.

use quark_lang.Base.{Bool, Bytes, List, none, ℕ}
use quark_lang.Front.Calls.Laws.{AllIndexed, AreIndexed, FieldsIndexed}
use quark_lang.Macro.{Pos}
use quark_lang.Syntax.{
  Expr, Exprs, Fields, bin_expr, bool_lit, call_expr, expr_and, field_and, float_lit, ident,
  index_expr, int_lit, list_lit, member_expr, new_expr, new_sized, no_exprs, no_fields, null_lit,
  scope_call, str_lit, struct_lit, un_expr,
}

module _ (fs : List Bytes) where
  pub int_lit-AreIndexed : (n : ℕ) (p : Pos) → AreIndexed fs (int_lit n p)
  unfolding AreIndexed
  int_lit-AreIndexed n p = tt

  pub float_lit-AreIndexed : (s : Bytes) (p : Pos) → AreIndexed fs (float_lit s p)
  unfolding AreIndexed
  float_lit-AreIndexed s p = tt

  pub str_lit-AreIndexed : (s : Bytes) (p : Pos) → AreIndexed fs (str_lit s p)
  unfolding AreIndexed
  str_lit-AreIndexed s p = tt

  pub bool_lit-AreIndexed : (b : Bool) (p : Pos) → AreIndexed fs (bool_lit b p)
  unfolding AreIndexed
  bool_lit-AreIndexed b p = tt

  pub null_lit-AreIndexed : (p : Pos) → AreIndexed fs (null_lit p)
  unfolding AreIndexed
  null_lit-AreIndexed p = tt

  pub ident-AreIndexed : (s : Bytes) (p : Pos) → AreIndexed fs (ident s p)
  unfolding AreIndexed
  ident-AreIndexed s p = tt

  pub new_expr-AreIndexed : (s : Bytes) (p : Pos) → AreIndexed fs (new_expr s p)
  unfolding AreIndexed
  new_expr-AreIndexed s p = tt

  pub new_sized-AreIndexed :
      (s : Bytes) (x : Expr) (p : Pos) → AreIndexed fs x → AreIndexed fs (new_sized s x p)
  unfolding AreIndexed
  new_sized-AreIndexed s x p h = h

  pub list_lit-AreIndexed : (xs : Exprs) → AllIndexed fs xs → AreIndexed fs (list_lit xs)
  unfolding AreIndexed
  list_lit-AreIndexed xs h = h

  pub struct_lit-AreIndexed :
      (xs : Fields) (p : Pos) → FieldsIndexed fs xs → AreIndexed fs (struct_lit xs p)
  unfolding AreIndexed
  struct_lit-AreIndexed xs p h = h

  pub bin_expr-AreIndexed :
      (s : Bytes) (x y : Expr) (p : Pos)
      → AreIndexed fs x
      → AreIndexed fs y
      → AreIndexed fs (bin_expr s x y p)
  unfolding AreIndexed
  bin_expr-AreIndexed s x y p h k = (h, k)

  pub un_expr-AreIndexed :
      (s : Bytes) (x : Expr) (p : Pos) → AreIndexed fs x → AreIndexed fs (un_expr s x p)
  unfolding AreIndexed
  un_expr-AreIndexed s x p h = h

  pub call_expr-AreIndexed :
      (x : Expr) (xs : Exprs) (p : Pos)
      → AreIndexed fs x
      → AllIndexed fs xs
      → AreIndexed fs (call_expr x xs p none)
  unfolding AreIndexed
  call_expr-AreIndexed x xs p h k = (tt, (h, k))

  pub member_expr-AreIndexed :
      (x : Expr) (s : Bytes) (p : Pos) → AreIndexed fs x → AreIndexed fs (member_expr x s p)
  unfolding AreIndexed
  member_expr-AreIndexed x s p h = h

  pub scope_call-AreIndexed :
      (s m : Bytes) (xs : Exprs) (p : Pos) → AllIndexed fs xs → AreIndexed fs (scope_call s m xs p)
  unfolding AreIndexed
  scope_call-AreIndexed s m xs p h = h

  pub index_expr-AreIndexed :
      (x y : Expr) (p : Pos) → AreIndexed fs x → AreIndexed fs y → AreIndexed fs (index_expr x y p)
  unfolding AreIndexed
  index_expr-AreIndexed x y p h k = (h, k)

  pub no_exprs-AllIndexed : AllIndexed fs no_exprs
  unfolding AreIndexed
  no_exprs-AllIndexed = tt

  pub expr_and-AllIndexed :
      (x : Expr) (xs : Exprs) → AreIndexed fs x → AllIndexed fs xs → AllIndexed fs (expr_and x xs)
  unfolding AreIndexed
  expr_and-AllIndexed x xs h k = (h, k)

  pub no_fields-FieldsIndexed : FieldsIndexed fs no_fields
  unfolding AreIndexed
  no_fields-FieldsIndexed = tt

  pub field_and-FieldsIndexed :
      (s : Bytes) (x : Expr) (xs : Fields)
      → AreIndexed fs x
      → FieldsIndexed fs xs
      → FieldsIndexed fs (field_and s x xs)
  unfolding AreIndexed
  field_and-FieldsIndexed s x xs h k = (h, k)
