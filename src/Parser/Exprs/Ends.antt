-- ===== src/Parser/Exprs/Ends.antt =====
-- internal/lang/parser.go: `parseExpr` ends.

use quark_lang.Base.{Bytes, List, codes, none, refl, suc, zero, ℕ}
use quark_lang.Parser.{Parser, any_token, ◌>>=◌}
use quark_lang.Parser.Exprs.{
  bin_tail, expr_items, exprs_until, index_of, int_literal, member_of, new_object, parse_add,
  parse_and, parse_args, parse_bin, parse_cmp, parse_expr, parse_mul, parse_or, parse_postfix,
  parse_primary, parse_shift, parse_unary, pos_at, postfix_tail, scope_of, scoped, sign_of, signed,
  struct_field, struct_fields, struct_literal,
}
use quark_lang.Parser.Steps.{
  Good, Good-less, NotEof, Strict, Strict-Good, Strict-less, Strict-zero, fail_here-Strict,
  on_kind-Good_drop, on_kind-Strict_drop, on_word-Strict_drop, pure-Good, test_if-Good,
}
use quark_lang.Parser.Steps.Rules.{
  any_token-Strict, bind-Good, bind-Strict, bind-Strict_drop, expect-Strict, fail_at-Good,
  good_steps, here_token-Good, strict_steps, then-Strict_drop,
}
use quark_lang.Parser.Types.{parse_type}
use quark_lang.Parser.Types.Ends.{parse_type-Strict}
use quark_lang.Syntax.{Expr, Exprs, bin_expr, call_expr, ident, signed_call}
use quark_lang.Token.{Kind, Token, t_lparen, t_rbracket, t_rparen}

pub parse_type-Good : (n : ℕ) → Good n (parse_type n)
parse_type-Good n = Strict-Good n _ (parse_type-Strict n)

-- What the parts of an expression read, if the expressions inside are read from at most `f` tokens.
module _ (expr : Parser Expr) where
  expr_items-Strict : (f : ℕ) → Strict f expr → Strict f (expr_items f expr)
  unfolding expr_items
  expr_items-Strict zero e = Strict-zero _
  expr_items-Strict (suc f) e =
      let more = Strict-Good f _ (expr_items-Strict f (Strict-less f expr e)) in
      bind-Strict_drop f expr _ e λ x. search good_steps

  exprs_until-Good :
      (f : ℕ) (close : Kind) (what : Bytes)
      → NotEof close
      → Strict f expr
      → Good f (exprs_until f expr close what)
  unfolding exprs_until
  exprs_until-Good f close what c e =
      let items = Strict-Good f _ (expr_items-Strict f e) in search good_steps

  parse_args-Strict : (f : ℕ) → Strict f expr → Strict (suc f) (parse_args f expr)
  unfolding parse_args
  parse_args-Strict f e =
      then-Strict_drop f _ _ (expect-Strict (suc f) t_lparen _ refl)
        (exprs_until-Good f t_rparen _ refl e)

  parse_args-Good : (f : ℕ) → Strict f expr → Good f (parse_args f expr)
  parse_args-Good f e = Good-less f _ (Strict-Good (suc f) _ (parse_args-Strict f e))

  struct_field-Strict : (f : ℕ) → Strict f expr → Strict f (struct_field expr)
  unfolding struct_field
  struct_field-Strict f e =
      let inner = Strict-Good f expr e in search (strict_steps, good_steps) depth 7

  struct_fields-Strict : (f : ℕ) → Strict f expr → Strict f (struct_fields f expr)
  unfolding struct_fields
  struct_fields-Strict zero e = Strict-zero _
  struct_fields-Strict (suc f) e =
      let more = Strict-Good f _ (struct_fields-Strict f (Strict-less f expr e)) in
      bind-Strict_drop f _ _ (struct_field-Strict (suc f) e) λ x. search good_steps

  struct_literal-Good : (f : ℕ) (t : Token) → Strict f expr → Good f (struct_literal f expr t)
  unfolding struct_literal
  struct_literal-Good f t e =
      let fields = Strict-Good f _ (struct_fields-Strict f e) in search good_steps depth 9

  new_object-Good : (f : ℕ) (t : Token) → Strict f expr → Good f (new_object f expr t)
  unfolding new_object
  new_object-Good f t e =
      let inner = Strict-Good f expr e in search (good_steps, parse_type-Good) depth 9

  int_literal-Good : (f : ℕ) (t : Token) → Good f (int_literal t)
  unfolding int_literal
  int_literal-Good f t = search good_steps

  parse_primary-Strict : (f : ℕ) → Strict f expr → Strict (suc f) (parse_primary f expr)
  unfolding parse_primary
  parse_primary-Strict f e =
      let inner = Strict-Good f expr e in
      let list = exprs_until-Good f t_rbracket (codes "']'") refl e in
      let literal : (t : Token) → Good f (struct_literal f expr t) =
        λ t. struct_literal-Good f t e in
      let object : (t : Token) → Good f (new_object f expr t) = λ t. new_object-Good f t e in
      search
        (
          on_kind-Strict_drop, on_word-Strict_drop, fail_here-Strict, good_steps, int_literal-Good,
          literal, object,
        )
        depth 16

-- The parts behind an expression.
module _ (expr : Parser Expr) where
  member_of-Good : (f : ℕ) (x : Expr) → Strict f expr → Good f (member_of f expr x)
  unfolding member_of
  member_of-Good f x e = let args = parse_args-Good expr f e in search good_steps depth 9

  index_of-Good : (f : ℕ) (x : Expr) → Strict f expr → Good f (index_of expr x)
  unfolding index_of
  index_of-Good f x e = let inner = Strict-Good f expr e in search good_steps depth 9

  scoped-Good : (f : ℕ) (x : Expr) (t : Token) (a : Exprs) → Good f (scoped x t a)
  unfolding scoped
  scoped-Good f (ident s p) t a = pure-Good f _
  scoped-Good f x t a = fail_at-Good f _ _

  signed-Good : (f : ℕ) (x : Expr) (t : Token) (a : Exprs) → Good f (signed x t a)
  unfolding signed
  signed-Good f (call_expr fn args p i) t a = pure-Good f _
  signed-Good f (signed_call fn args n ns p i) t a = fail_at-Good f _ _
  signed-Good f x t a = fail_at-Good f _ _

  scope_of-Good : (f : ℕ) (x : Expr) → Strict f expr → Good f (scope_of f expr x)
  unfolding scope_of
  scope_of-Good f x e =
      let args = parse_args-Good expr f e in search (good_steps, scoped-Good) depth 9

  sign_of-Good : (f : ℕ) (x : Expr) → Strict f expr → Good f (sign_of f expr x)
  unfolding sign_of
  sign_of-Good f x e =
      let args = parse_args-Good expr f e in search (good_steps, signed-Good) depth 9

  postfix_tail-Good : (k : ℕ) (x : Expr) → Strict k expr → Good k (postfix_tail k expr x)
  unfolding postfix_tail
  postfix_tail-Good zero x e = Strict-Good 0 _ (Strict-zero _)
  postfix_tail-Good (suc k) x e =
      let d = Strict-less k expr e in
      let more : (y : Expr) → Good k (postfix_tail k expr y) = λ y. postfix_tail-Good k y d in
      let member = member_of-Good k x d in
      let index = index_of-Good k x d in
      let scope = scope_of-Good k x d in
      let sign = sign_of-Good k x d in
      let call : (p : Token)
          → Good (suc k) (
              parse_args k expr >>= λ args.
              postfix_tail k expr (call_expr x args (pos_at p) none)) =
        λ p.
          Strict-Good (suc k) _ (bind-Strict_drop k _ _ (parse_args-Strict expr k d) λ a. more _) in
      search (on_kind-Good_drop, test_if-Good, bind-Good, pure-Good, here_token-Good, more, call)
        depth 12

  parse_postfix-Strict : (f : ℕ) → Strict f expr → Strict (suc f) (parse_postfix f expr)
  unfolding parse_postfix
  parse_postfix-Strict f e =
      bind-Strict_drop f _ _ (parse_primary-Strict expr f e) λ x. postfix_tail-Good f x e

  parse_unary-Strict : (f : ℕ) → Strict f expr → Strict (suc f) (parse_unary (suc f) expr)
  unfolding parse_unary
  parse_unary-Strict zero e =
      let postfix = parse_postfix-Strict zero e in
      let rest = Strict-Good 0 _ (Strict-zero (parse_unary 0 expr)) in
      search (on_kind-Strict_drop, good_steps) depth 9
  parse_unary-Strict (suc f) e =
      let postfix = parse_postfix-Strict (suc f) e in
      let rest = Strict-Good (suc f) _ (parse_unary-Strict f (Strict-less f expr e)) in
      search (on_kind-Strict_drop, good_steps) depth 9

bin_tail-Good :
    (n : ℕ) (left : Parser Expr) (ks : List Kind) (x : Expr)
    → Strict n left
    → Good n (bin_tail n left ks x)
unfolding bin_tail
bin_tail-Good zero left ks x e = Strict-Good 0 _ (Strict-zero _)
bin_tail-Good (suc n) left ks x e =
    let d = Strict-less n left e in
    let operand = Strict-Good n left d in
    let more : (y : Expr) → Good n (bin_tail n left ks y) = λ y. bin_tail-Good n left ks y d in
    let step : Good (suc n) (
        any_token (codes "expression") >>= λ op.
        left >>= λ r. bin_tail n left ks (bin_expr op.text x r (pos_at op))) =
      Strict-Good (suc n) _ (
        bind-Strict_drop n _ _ (any_token-Strict (suc n) _)
          λ op. bind-Good n _ _ operand λ r. more _) in
    search (test_if-Good, pure-Good)

parse_bin-Strict :
    (n : ℕ) (left : Parser Expr) (ks : List Kind) → Strict n left → Strict n (parse_bin n left ks)
unfolding parse_bin
parse_bin-Strict n left ks e = bind-Strict n left _ e λ x. bin_tail-Good n left ks x (e)

parse_or-Strict :
    (n : ℕ) (expr : Parser Expr) → Strict n (parse_unary n expr) → Strict n (parse_or n expr)
unfolding parse_or parse_and parse_cmp parse_add parse_shift parse_mul
parse_or-Strict n expr e = search parse_bin-Strict depth 9

pub parse_expr-Strict : (n : ℕ) → Strict n (parse_expr n)
unfolding parse_expr
parse_expr-Strict zero = Strict-zero _
parse_expr-Strict (suc f) =
    parse_or-Strict (suc f) (parse_expr f)
      (parse_unary-Strict (parse_expr f) f (parse_expr-Strict f))
