-- ===== src/Front/Fresh.antt =====
-- internal/lang/parser.go: the calls in the tree of an expression have no index yet.
pub mod Nodes
pub mod Stmts
pub mod Programs
use quark_lang.Base.{Bool, Bytes, List, codes, none, suc, zero, ℕ}
use quark_lang.Front.Calls.Laws.{AllIndexed, AreIndexed, FieldsIndexed}
use quark_lang.Front.Fresh.Nodes.{
  bin_expr-AreIndexed, bool_lit-AreIndexed, call_expr-AreIndexed, expr_and-AllIndexed,
  field_and-FieldsIndexed, float_lit-AreIndexed, ident-AreIndexed, index_expr-AreIndexed,
  int_lit-AreIndexed, list_lit-AreIndexed, member_expr-AreIndexed, new_expr-AreIndexed,
  new_sized-AreIndexed, no_exprs-AllIndexed, no_fields-FieldsIndexed, null_lit-AreIndexed,
  scope_call-AreIndexed, str_lit-AreIndexed, struct_lit-AreIndexed, un_expr-AreIndexed,
}
use quark_lang.Macro.{Pos}
use quark_lang.Parser.{Parser, expect, pure, ◌>>=◌, ◌>>◌}
use quark_lang.Parser.Exprs.{
  bin_tail, expr_items, exprs_until, index_of, int_literal, member_of, new_object, parse_add,
  parse_and, parse_args, parse_bin, parse_cmp, parse_expr, parse_mul, parse_or, parse_postfix,
  parse_primary, parse_shift, parse_unary, pos_at, postfix_tail, scope_of, scoped, sign_of, signed,
  struct_field, struct_fields, struct_literal,
}
use quark_lang.Parser.Gives.{
  Gives, after-Gives, bind-Gives, fail_at-Gives, fail_here-Gives, give_steps, no_fuel-Gives,
  on_kind-Gives, on_word-Gives, pure-Gives, test_if-Gives, then-Gives,
}
use quark_lang.Syntax.{
  Expr, Exprs, Fields, bin_expr, bool_lit, call_expr, expr_and, field_and, float_lit, ident,
  index_expr, int_lit, list_lit, member_expr, new_expr, new_sized, no_exprs, no_fields, null_lit,
  scope_call, signed_call, str_lit, struct_lit, un_expr,
}
use quark_lang.Token.{Kind, Token, t_rbracket, t_rparen}

module _ (fs : List Bytes) (expr : Parser Expr) (e : Gives (AreIndexed fs) expr) where
  -- What is read with an expression first.
  with_expr :
      {A : Type 0} (P : A → Type 0) (f : Expr → Parser A)
      → ((x : Expr) → AreIndexed fs x → Gives P (f x))
      → Gives P (expr >>= f)
  with_expr P f k = bind-Gives (AreIndexed fs) P expr f e k

  expr_items-Gives : (f : ℕ) → Gives (AllIndexed fs) (expr_items f expr)
  unfolding expr_items
  expr_items-Gives zero = no_fuel-Gives (AllIndexed fs)
  expr_items-Gives (suc f) = with_expr (AllIndexed fs) _ λ x h.
      on_kind-Gives (AllIndexed fs) _ _ _
        (λ t.
          bind-Gives (AllIndexed fs) (AllIndexed fs) _ _ (expr_items-Gives f)
            λ xs k. pure-Gives (AllIndexed fs) _ (expr_and-AllIndexed fs x xs h k))
        (pure-Gives (AllIndexed fs) _
          (expr_and-AllIndexed fs x no_exprs h (no_exprs-AllIndexed fs)))

  exprs_until-Gives :
      (f : ℕ) (close : Kind) (what : Bytes) → Gives (AllIndexed fs) (exprs_until f expr close what)
  unfolding exprs_until
  exprs_until-Gives f close what =
      on_kind-Gives (AllIndexed fs) _ _ _
        (λ t. pure-Gives (AllIndexed fs) _ (no_exprs-AllIndexed fs))
        (bind-Gives (AllIndexed fs) (AllIndexed fs) _ _ (expr_items-Gives f)
          λ xs k. then-Gives (AllIndexed fs) _ _ (pure-Gives (AllIndexed fs) xs k))

  parse_args-Gives : (f : ℕ) → Gives (AllIndexed fs) (parse_args f expr)
  unfolding parse_args
  parse_args-Gives f = then-Gives (AllIndexed fs) _ _ (exprs_until-Gives f t_rparen _)

  with_args :
      {A : Type 0} (P : A → Type 0) (n : ℕ) (f : Exprs → Parser A)
      → ((xs : Exprs) → AllIndexed fs xs → Gives P (f xs))
      → Gives P (parse_args n expr >>= f)
  with_args P n f k = bind-Gives (AllIndexed fs) P (parse_args n expr) f (parse_args-Gives n) k

  struct_field-Gives : Gives (λ nx. AreIndexed fs nx.1) (struct_field expr)
  unfolding struct_field
  struct_field-Gives = search (give_steps, with_expr) depth 9

  struct_fields-Gives : (f : ℕ) → Gives (FieldsIndexed fs) (struct_fields f expr)
  unfolding struct_fields
  struct_fields-Gives zero = no_fuel-Gives (FieldsIndexed fs)
  struct_fields-Gives (suc f) =
      bind-Gives (λ nx. AreIndexed fs nx.1) (FieldsIndexed fs) _ _ struct_field-Gives
        λ nx h.
          on_kind-Gives (FieldsIndexed fs) _ _ _
            (λ t.
              bind-Gives (FieldsIndexed fs) (FieldsIndexed fs) _ _ (struct_fields-Gives f) λ xs k.
                pure-Gives (FieldsIndexed fs) _ (field_and-FieldsIndexed fs nx.0 nx.1 xs h k))
            (pure-Gives (FieldsIndexed fs) _
              (field_and-FieldsIndexed fs nx.0 nx.1 no_fields h (no_fields-FieldsIndexed fs)))

  struct_literal-Gives : (f : ℕ) (t : Token) → Gives (AreIndexed fs) (struct_literal f expr t)
  unfolding struct_literal
  struct_literal-Gives f t = then-Gives (AreIndexed fs) _ _ (
      on_kind-Gives (AreIndexed fs) _ _ _
        (λ u.
          pure-Gives (AreIndexed fs) _ (struct_lit-AreIndexed fs _ _ (no_fields-FieldsIndexed fs)))
        (bind-Gives (FieldsIndexed fs) (AreIndexed fs) _ _ (struct_fields-Gives f) λ xs k.
          then-Gives (AreIndexed fs) _ _
            (pure-Gives (AreIndexed fs) _ (struct_lit-AreIndexed fs xs _ k))))

  new_object-Gives : (f : ℕ) (t : Token) → Gives (AreIndexed fs) (new_object f expr t)
  unfolding new_object
  new_object-Gives f t = after-Gives (AreIndexed fs) _ _ λ ty.
      on_kind-Gives (AreIndexed fs) _ _ _
        (λ u. with_expr (AreIndexed fs) _ λ x h.
          then-Gives (AreIndexed fs) _ _
            (pure-Gives (AreIndexed fs) _ (new_sized-AreIndexed fs _ _ _ h)))
        (pure-Gives (AreIndexed fs) _ (new_expr-AreIndexed fs _ _))

  int_literal-Gives : (t : Token) → Gives (AreIndexed fs) (int_literal t)
  unfolding int_literal
  int_literal-Gives t = search (give_steps, int_lit-AreIndexed)

  list_rest-Gives :
      (f : ℕ)
      → Gives
          (AreIndexed fs)
          (exprs_until f expr t_rbracket (codes "']'") >>= λ xs. pure (list_lit xs))
  list_rest-Gives f =
      bind-Gives (AllIndexed fs) (AreIndexed fs) _ _ (exprs_until-Gives f t_rbracket _)
        λ xs h. pure-Gives (AreIndexed fs) _ (list_lit-AreIndexed fs xs h)

  in_parens-Gives : Gives (AreIndexed fs) (expr >>= λ x. expect t_rparen (codes "')'") >> pure x)
  in_parens-Gives =
      with_expr (AreIndexed fs) _
        λ x h. then-Gives (AreIndexed fs) _ _ (pure-Gives (AreIndexed fs) x h)

  parse_primary-Gives : (f : ℕ) → Gives (AreIndexed fs) (parse_primary f expr)
  unfolding parse_primary
  parse_primary-Gives f =
      search
        (
          on_kind-Gives, on_word-Gives, fail_here-Gives, pure-Gives, int_literal-Gives,
          struct_literal-Gives, new_object-Gives, list_rest-Gives, in_parens-Gives,
          float_lit-AreIndexed, str_lit-AreIndexed, bool_lit-AreIndexed, null_lit-AreIndexed,
          ident-AreIndexed,
        )
        depth 16

  module _ (x : Expr) (h : AreIndexed fs x) where
    member_of-Gives : (f : ℕ) → Gives (AreIndexed fs) (member_of f expr x)
    unfolding member_of
    member_of-Gives f = after-Gives (AreIndexed fs) _ _ λ name.
        test_if-Gives (AreIndexed fs) _ _ _
          (with_args (AreIndexed fs) f _ λ xs k.
            pure-Gives (AreIndexed fs) _
              (call_expr-AreIndexed fs _ xs _ (member_expr-AreIndexed fs x _ _ h) k))
          (pure-Gives (AreIndexed fs) _ (member_expr-AreIndexed fs x _ _ h))

    index_of-Gives : Gives (AreIndexed fs) (index_of expr x)
    unfolding index_of
    index_of-Gives = with_expr (AreIndexed fs) _ λ y k.
        after-Gives (AreIndexed fs) _ _
          λ t. pure-Gives (AreIndexed fs) _ (index_expr-AreIndexed fs x y _ h k)

  scoped-Gives :
      (x : Expr) (t : Token) (xs : Exprs) → AllIndexed fs xs → Gives (AreIndexed fs) (scoped x t xs)
  unfolding scoped
  scoped-Gives (ident s p) t xs k =
      pure-Gives (AreIndexed fs) _ (scope_call-AreIndexed fs _ _ xs _ k)
  scoped-Gives x t xs k = fail_at-Gives (AreIndexed fs) _ _

  scope_of-Gives : (f : ℕ) (x : Expr) → Gives (AreIndexed fs) (scope_of f expr x)
  unfolding scope_of
  scope_of-Gives f x =
      after-Gives (AreIndexed fs) _ _
        λ name. with_args (AreIndexed fs) f _ λ xs k. scoped-Gives x name xs k

  signed-Gives :
      (x : Expr) (t : Token) (xs : Exprs)
      → AreIndexed fs x
      → AllIndexed fs xs
      → Gives (AreIndexed fs) (signed x t xs)
  unfolding signed AreIndexed
  signed-Gives (call_expr fn args p i) t xs (a, (b, c)) k =
      pure-Gives (AreIndexed fs) _ (a, (b, (c, k)))
  signed-Gives (signed_call fn args n ns p i) t xs h k = fail_at-Gives (AreIndexed fs) _ _
  signed-Gives x t xs h k = fail_at-Gives (AreIndexed fs) _ _

  sign_of-Gives : (f : ℕ) (x : Expr) → AreIndexed fs x → Gives (AreIndexed fs) (sign_of f expr x)
  unfolding sign_of
  sign_of-Gives f x h =
      after-Gives (AreIndexed fs) _ _
        λ name. with_args (AreIndexed fs) f _ λ xs k. signed-Gives x name xs h k

  postfix_tail-Gives :
      (f : ℕ) (x : Expr) → AreIndexed fs x → Gives (AreIndexed fs) (postfix_tail f expr x)
  unfolding postfix_tail
  postfix_tail-Gives zero x h = no_fuel-Gives (AreIndexed fs)
  postfix_tail-Gives (suc f) x h =
      let more : (m : Parser Expr)
          → Gives (AreIndexed fs) m
          → Gives (AreIndexed fs) (m >>= postfix_tail f expr) =
        λ m g. bind-Gives (AreIndexed fs) (AreIndexed fs) m _ g (postfix_tail-Gives f) in
      on_kind-Gives (AreIndexed fs) _ _ _ (λ t. more _ (member_of-Gives x h f))
        (test_if-Gives (AreIndexed fs) _ _ _
          (after-Gives (AreIndexed fs) _ _ λ p.
            with_args (AreIndexed fs) f _
              λ xs k. postfix_tail-Gives f _ (call_expr-AreIndexed fs x xs _ h k))
          (on_kind-Gives (AreIndexed fs) _ _ _ (λ t. more _ (index_of-Gives x h))
            (on_kind-Gives (AreIndexed fs) _ _ _ (λ t. more _ (scope_of-Gives f x))
              (on_kind-Gives (AreIndexed fs) _ _ _ (λ t. more _ (sign_of-Gives f x h))
                (pure-Gives (AreIndexed fs) x h)))))

  parse_unary-Gives : (f : ℕ) → Gives (AreIndexed fs) (parse_unary f expr)
  unfolding parse_unary parse_postfix
  parse_unary-Gives zero = no_fuel-Gives (AreIndexed fs)
  parse_unary-Gives (suc f) =
      let operand : (t : Token)
          → Gives (AreIndexed fs) (parse_unary f expr >>= λ x. pure (un_expr t.text x (pos_at t))) =
        λ t.
          bind-Gives (AreIndexed fs) (AreIndexed fs) _ _ (parse_unary-Gives f)
            λ x h. pure-Gives (AreIndexed fs) _ (un_expr-AreIndexed fs _ x _ h) in
      let postfix =
        bind-Gives (AreIndexed fs) (AreIndexed fs) _ (postfix_tail f expr) (parse_primary-Gives f)
          (postfix_tail-Gives f) in
      search (on_kind-Gives, operand)

module _ (fs : List Bytes) where
  bin_tail-Gives :
      (n : ℕ) (left : Parser Expr) (ks : List Kind) (x : Expr)
      → Gives (AreIndexed fs) left
      → AreIndexed fs x
      → Gives (AreIndexed fs) (bin_tail n left ks x)
  unfolding bin_tail
  bin_tail-Gives zero left ks x e h = no_fuel-Gives (AreIndexed fs)
  bin_tail-Gives (suc n) left ks x e h =
      test_if-Gives (AreIndexed fs) _ _ _
        (after-Gives (AreIndexed fs) _ _ λ t.
          bind-Gives (AreIndexed fs) (AreIndexed fs) _ _ e
            λ y k. bin_tail-Gives n left ks _ e (bin_expr-AreIndexed fs _ x y _ h k))
        (pure-Gives (AreIndexed fs) x h)

  parse_bin-Gives :
      (n : ℕ) (left : Parser Expr) (ks : List Kind)
      → Gives (AreIndexed fs) left
      → Gives (AreIndexed fs) (parse_bin n left ks)
  unfolding parse_bin
  parse_bin-Gives n left ks e =
      bind-Gives (AreIndexed fs) (AreIndexed fs) left _ e λ x h. bin_tail-Gives n left ks x e h

  pub parse_expr-Gives : (n : ℕ) → Gives (AreIndexed fs) (parse_expr n)
  unfolding parse_expr parse_or parse_and parse_cmp parse_add parse_shift parse_mul
  parse_expr-Gives zero = no_fuel-Gives (AreIndexed fs)
  parse_expr-Gives (suc f) =
      let unary = parse_unary-Gives fs (parse_expr f) (parse_expr-Gives f) (suc f) in
      search parse_bin-Gives depth 9
