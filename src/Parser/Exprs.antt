-- ===== src/Parser/Exprs.antt =====
-- internal/lang/parser.go: the expressions. `expr` reads an expression from fewer tokens; a loop takes
-- one unit of fuel in each round.
pub mod Ends
use quark_lang.Base.{Bool, Bytes, List, [], codes, false, ltb, none, suc, true, zero, ℕ, ◌||◌, ◌∷◌}
use quark_lang.Macro.{Pos, pos_of}
use quark_lang.Parser.{
  Cursor, Parser, any_token, cur_is, expect, expect_ident, expect_member_name, fail_at, fail_here,
  here_token, int_out_of_range, no_fuel, on_kind, on_word, peek_is, pure, scope_needs_ident,
  sign_needs_call, sign_twice, test_if, unexpected, ◌>>=◌, ◌>>◌,
}
use quark_lang.Parser.Types.{parse_type}
use quark_lang.Syntax.{
  Expr, Exprs, Fields, bin_expr, bool_lit, call_expr, expr_and, field_and, float_lit, ident,
  index_expr, int_lit, list_lit, member_expr, new_expr, new_sized, no_exprs, no_fields, null_lit,
  scope_call, signed_call, str_lit, struct_lit, un_expr,
}
use quark_lang.Token.{
  Kind, Token, t_and, t_at, t_bang, t_colon, t_comma, t_dot, t_eq, t_false, t_float, t_ge, t_gt,
  t_ident, t_int, t_lbrace, t_lbracket, t_le, t_lparen, t_lt, t_minus, t_ne, t_null, t_or,
  t_percent, t_plus, t_rbrace, t_rbracket, t_rparen, t_scope, t_shl, t_shr, t_slash, t_star, t_str,
  t_true,
}

abbrev pub pos_at : Token → Pos
pos_at t = pos_of t

-- The expressions of a list, up to the token behind the last one.
unfoldable pub expr_items : ℕ → Parser Expr → Parser Exprs
expr_items zero expr = no_fuel
expr_items (suc f) expr = do
  x ← expr
  on_kind t_comma (λ _. do xs ← expr_items f expr; pure (expr_and x xs))
      (pure (expr_and x no_exprs))

-- `parseArgs`, and the elements of a list literal, behind their left delimiter.
unfoldable pub exprs_until : ℕ → Parser Expr → Kind → Bytes → Parser Exprs
exprs_until f expr close what =
    on_kind close (λ _. pure no_exprs) do xs ← expr_items f expr; expect close what; pure xs

unfoldable pub parse_args : ℕ → Parser Expr → Parser Exprs
parse_args f expr = expect t_lparen (codes "'('") >> exprs_until f expr t_rparen (codes "')'")

-- `name : value` or a value, of a struct literal.
unfoldable pub struct_field : Parser Expr → Parser (Bytes × Expr)
struct_field expr =
    test_if (peek_is t_colon)
      (do
        name ← any_token (codes "struct literal")
        expect t_colon (codes "':'")
        x ← expr
        pure (name.text, x))
      (do x ← expr; pure ([], x))

unfoldable pub struct_fields : ℕ → Parser Expr → Parser Fields
struct_fields zero expr = no_fuel
struct_fields (suc f) expr = do
  nx ← struct_field expr
  on_kind t_comma (λ _. do fs ← struct_fields f expr; pure (field_and nx.0 nx.1 fs))
      (pure (field_and nx.0 nx.1 no_fields))

unfoldable pub struct_literal : ℕ → Parser Expr → Token → Parser Expr
struct_literal f expr t = do
  expect t_lbrace (codes "'{'")
  on_kind t_rbrace (λ _. pure (struct_lit no_fields (pos_at t)))
      do fs ← struct_fields f expr; expect t_rbrace (codes "'}'"); pure (struct_lit fs (pos_at t))

unfoldable pub new_object : ℕ → Parser Expr → Token → Parser Expr
new_object f expr t = do
  typ ← parse_type f
  on_kind t_lbracket
      (λ _. do n ← expr; expect t_rbracket (codes "']'"); pure (new_sized typ n (pos_at t)))
      (pure (new_expr typ (pos_at t)))

unfoldable pub int_literal : Token → Parser Expr
int_literal t =
    test_if (λ _. ltb 2147483647 t.int) (fail_at t (int_out_of_range t.int))
      (pure (int_lit t.int (pos_at t)))

-- `parsePrimary`.
unfoldable pub parse_primary : ℕ → Parser Expr → Parser Expr
parse_primary f expr = on_kind t_int int_literal (
    on_kind t_float (λ t. pure (float_lit t.flt (pos_at t)))
      (on_kind t_str (λ t. pure (str_lit t.text (pos_at t)))
        (on_kind t_true (λ t. pure (bool_lit true (pos_at t)))
          (on_kind t_false (λ t. pure (bool_lit false (pos_at t)))
            (on_kind t_null (λ t. pure (null_lit (pos_at t)))
              (on_kind t_dot (struct_literal f expr) (
                on_word (codes "new") (new_object f expr) (
                  on_kind t_ident (λ t. pure (ident t.text (pos_at t)))
                    (on_kind t_lbracket
                      (λ _. do xs ← exprs_until f expr t_rbracket (codes "']'"); pure (list_lit xs))
                      (on_kind t_lparen (λ _. do x ← expr; expect t_rparen (codes "')'"); pure x)
                        (fail_here unexpected)))))))))))

unfoldable pub member_of : ℕ → Parser Expr → Expr → Parser Expr
member_of f expr x = do
  name ← expect_member_name (codes "member name")
  test_if (cur_is t_lparen)
      (do
        args ← parse_args f expr
        pure (call_expr (member_expr x name.text (pos_at name)) args (pos_at name) none))
      (pure (member_expr x name.text (pos_at name)))

unfoldable pub index_of : Parser Expr → Expr → Parser Expr
index_of expr x = do i ← expr; t ← expect t_rbracket (codes "']'"); pure (index_expr x i (pos_at t))

-- `x.(*Ident)`.
unfoldable pub scoped : Expr → Token → Exprs → Parser Expr
scoped (ident s p) name args = pure (scope_call s name.text args (pos_at name))
scoped x name args = fail_at name scope_needs_ident

unfoldable pub scope_of : ℕ → Parser Expr → Expr → Parser Expr
scope_of f expr x = do
  name ← expect_member_name (codes "method name")
  args ← parse_args f expr
  scoped x name args

-- `x.(*CallExpr)`.
unfoldable pub signed : Expr → Token → Exprs → Parser Expr
signed (call_expr fn args p i) s sargs = pure (signed_call fn args s.text sargs p i)
signed (signed_call fn args n ns p i) s sargs = fail_at s sign_twice
signed x s sargs = fail_at s sign_needs_call

unfoldable pub sign_of : ℕ → Parser Expr → Expr → Parser Expr
sign_of f expr x = do
  s ← expect_ident (codes "signature name")
  args ← parse_args f expr
  signed x s args

-- The loop of `parsePostfix`.
unfoldable pub postfix_tail : ℕ → Parser Expr → Expr → Parser Expr
postfix_tail zero expr x = no_fuel
postfix_tail (suc f) expr x =
    let more = postfix_tail f expr in
    on_kind t_dot (λ _. member_of f expr x >>= more)
      (test_if (cur_is t_lparen)
        (do lp ← here_token; args ← parse_args f expr; more (call_expr x args (pos_at lp) none))
        (on_kind t_lbracket (λ _. index_of expr x >>= more)
          (on_kind t_scope (λ _. scope_of f expr x >>= more)
            (on_kind t_at (λ _. sign_of f expr x >>= more) (pure x)))))

unfoldable pub parse_postfix : ℕ → Parser Expr → Parser Expr
parse_postfix f expr = parse_primary f expr >>= postfix_tail f expr

unfoldable pub parse_unary : ℕ → Parser Expr → Parser Expr
parse_unary zero expr = no_fuel
parse_unary (suc f) expr =
    let operand : Token → Parser Expr =
      λ t. parse_unary f expr >>= λ x. pure (un_expr t.text x (pos_at t)) in
    on_kind t_bang operand (on_kind t_minus operand (on_kind t_star operand (parse_postfix f expr)))

-- Whether one of the kinds is the current one.
abbrev pub one_of_kinds : List Kind → Cursor → Bool
one_of_kinds [] c = false
one_of_kinds (k ∷ ks) c = cur_is k c || one_of_kinds ks c

-- The loop of `parseBin`.
unfoldable pub bin_tail : ℕ → Parser Expr → List Kind → Expr → Parser Expr
bin_tail zero left ks x = no_fuel
bin_tail (suc f) left ks x =
    test_if (one_of_kinds ks)
      (do
        op ← any_token (codes "expression")
        r ← left
        bin_tail f left ks (bin_expr op.text x r (pos_at op)))
      (pure x)

unfoldable pub parse_bin : ℕ → Parser Expr → List Kind → Parser Expr
parse_bin f left ks = left >>= bin_tail f left ks

unfoldable pub parse_mul : ℕ → Parser Expr → Parser Expr
parse_mul f expr = parse_bin f (parse_unary f expr) (t_star ∷ t_slash ∷ t_percent ∷ [])

unfoldable pub parse_shift : ℕ → Parser Expr → Parser Expr
parse_shift f expr = parse_bin f (parse_mul f expr) (t_shl ∷ t_shr ∷ [])

unfoldable pub parse_add : ℕ → Parser Expr → Parser Expr
parse_add f expr = parse_bin f (parse_shift f expr) (t_plus ∷ t_minus ∷ [])

unfoldable pub parse_cmp : ℕ → Parser Expr → Parser Expr
parse_cmp f expr = parse_bin f (parse_add f expr) (t_eq ∷ t_ne ∷ t_lt ∷ t_le ∷ t_gt ∷ t_ge ∷ [])

unfoldable pub parse_and : ℕ → Parser Expr → Parser Expr
parse_and f expr = parse_bin f (parse_cmp f expr) (t_and ∷ [])

unfoldable pub parse_or : ℕ → Parser Expr → Parser Expr
parse_or f expr = parse_bin f (parse_and f expr) (t_or ∷ [])

unfoldable pub parse_expr : ℕ → Parser Expr
parse_expr zero = no_fuel
parse_expr (suc f) = parse_or (suc f) (parse_expr f)
