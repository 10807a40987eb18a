-- ===== src/Parser/Stmts.antt =====
-- internal/lang/parser.go: the statements. `typ`, `expr`, `block` and `stmt` read the parts of a
-- statement.
pub mod Ends
use quark_lang.Base.{Bool, Bytes, List, [], codes, equal, false, suc, zero, ℕ, ◌&&◌, ◌||◌, ◌∷◌}
use quark_lang.Parser.{
  Parser, cur, cur_is, expect, expect_ident, no_fuel, on_kind, on_word, peek_token, pure, test_if,
  ◌>>=◌, ◌>>◌,
}
use quark_lang.Parser.Exprs.{parse_expr, pos_at}
use quark_lang.Parser.Lists.{until_brace}
use quark_lang.Parser.Types.{parse_type}
use quark_lang.Syntax.{
  Block, Expr, Stmt, assign_stmt, break_stmt, decl_init, decl_stmt, delete_stmt, expr_stmt,
  for_stmt, if_else, if_stmt, log_stmt, no_stmts, return_none, return_stmt, stmt_and, try_stmt,
  while_stmt,
}
use quark_lang.Token.{
  Token, t_assign, t_catch, t_colon, t_else, t_for, t_ident, t_if, t_interface, t_lbrace, t_log,
  t_lparen, t_return, t_rparen, t_semi, t_try, t_while, ◌is◌,
}

unfoldable pub is_builtin_type_name : Bytes → Bool
is_builtin_type_name s = any_equal s (
    codes "int"
    ∷ codes "float"
    ∷ codes "bool"
    ∷ codes "String"
    ∷ codes "void"
    ∷ codes "List"
    ∷ codes "HashTable"
    ∷ codes "Channel"
    ∷ codes "thread"
    ∷ codes "Task"
    ∷ codes "memorize"
    ∷ codes "memory"
    ∷ codes "IOStream"
    ∷ codes "Copyd"
    ∷ codes "istream"
    ∷ codes "ostream"
    ∷ codes "ifstream"
    ∷ codes "ofstream"
    ∷ codes "iofstream"
    ∷ codes "InputStream"
    ∷ codes "OutputStream"
    ∷ [])
  where
    any_equal : Bytes → List Bytes → Bool
    any_equal s [] = false
    any_equal s (w ∷ ws) = equal s w || any_equal s ws

-- `x` behind its semicolon.
unfoldable pub ended {ℓ} : {A : Type ℓ} → A → Parser A
ended x = expect t_semi (codes "';'") >> pure x

-- The value and the semicolon of a declaration.
unfoldable pub decl_end : Parser Expr → Token → Bytes → Bytes → Parser Stmt
decl_end expr name ty decor =
    on_kind t_assign (λ _. do init ← expr; ended (decl_init name.text ty init decor (pos_at name)))
      (ended (decl_stmt name.text ty decor (pos_at name)))

-- `<type> <name>`, behind its decoration.
unfoldable pub type_first : Parser Bytes → Parser Expr → Bytes → Parser Stmt
type_first typ expr decor = do
  ty ← typ
  name ← expect_ident (codes "variable name")
  decl_end expr name ty decor

-- `parseDecl`.
unfoldable pub parse_decl : Parser Bytes → Parser Expr → Parser Stmt
parse_decl typ expr = do
  name ← expect_ident (codes "variable name")
  ty ← typ
  decl_end expr name ty []

unfoldable pub break_rest : Token → Parser Stmt
break_rest t = on_kind t_semi (λ _. pure (break_stmt (pos_at t))) (pure (break_stmt (pos_at t)))

unfoldable pub delete_rest : Parser Expr → Token → Parser Stmt
delete_rest expr t = do x ← expr; ended (delete_stmt x (pos_at t))

unfoldable pub log_rest : Parser Expr → Token → Parser Stmt
log_rest expr t = do x ← expr; ended (log_stmt x (pos_at t))

unfoldable pub return_rest : Parser Expr → Token → Parser Stmt
return_rest expr t =
    on_kind t_semi (λ _. pure (return_none (pos_at t)))
      do x ← expr; ended (return_stmt x (pos_at t))

unfoldable pub try_rest : Parser Bytes → Parser Block → Token → Parser Stmt
try_rest typ block t = do
  body ← block
  expect t_catch (codes "'catch'")
  expect t_lparen (codes "'('")
  v ← expect_ident (codes "catch variable")
  ty ← typ
  expect t_rparen (codes "')'")
  handler ← block
  pure (try_stmt body v.text ty handler (pos_at t))

-- `( expression )` of `if` and `while`.
unfoldable pub condition : Parser Expr → Parser Expr
condition expr = do expect t_lparen (codes "'('"); x ← expr; expect t_rparen (codes "')'"); pure x

unfoldable pub else_part : Parser Block → Parser Stmt → Expr → Block → Parser Stmt
else_part block stmt x body =
    on_kind t_else
      (λ _.
        test_if (cur_is t_if) (do nested ← stmt; pure (if_else x body (stmt_and nested no_stmts)))
          (do other ← block; pure (if_else x body other)))
      (pure (if_stmt x body))

unfoldable pub if_rest : Parser Expr → Parser Block → Parser Stmt → Parser Stmt
if_rest expr block stmt = do x ← condition expr; body ← block; else_part block stmt x body

unfoldable pub while_rest : Parser Expr → Parser Block → Parser Stmt
while_rest expr block = do x ← condition expr; body ← block; pure (while_stmt x body)

unfoldable pub for_rest : Parser Expr → Parser Block → Token → Parser Stmt
for_rest expr block t = do
  expect t_lparen (codes "'('")
  v ← expect_ident (codes "loop variable")
  expect t_colon (codes "':'")
  x ← expr
  expect t_rparen (codes "')'")
  body ← block
  pure (for_stmt v.text x body (pos_at t))

-- An expression, or an assignment to it.
unfoldable pub plain_stmt : Parser Expr → Parser Stmt
plain_stmt expr = do
  x ← expr
  on_kind t_assign (λ t. do v ← expr; ended (assign_stmt x v (pos_at t))) (ended (expr_stmt x))

-- The statements that do not start with a keyword.
unfoldable pub open_stmt : Parser Bytes → Parser Expr → Parser Stmt
open_stmt typ expr =
    on_word (codes "const") (λ t. type_first typ expr t.text)
      (on_word (codes "copyd") (λ t. type_first typ expr t.text)
        (test_if (λ c. cur_is t_ident c && is_builtin_type_name (cur c).text)
          (type_first typ expr [])
          (test_if
            (λ c.
              cur_is t_ident c
              && ((peek_token c).kind is t_ident || (peek_token c).kind is t_interface))
            (parse_decl typ expr) (plain_stmt expr))))

unfoldable pub stmt_cases : Parser Bytes → Parser Expr → Parser Block → Parser Stmt → Parser Stmt
stmt_cases typ expr block stmt = on_word (codes "break") break_rest (
    on_word (codes "delete") (delete_rest expr) (
      on_kind t_try (try_rest typ block) (
        on_kind t_log (log_rest expr) (
          on_kind t_return (return_rest expr) (
            on_kind t_if (λ _. if_rest expr block stmt)
              (on_kind t_while (λ _. while_rest expr block)
                (on_kind t_for (for_rest expr block) (open_stmt typ expr))))))))

abbrev pub block_of : List Stmt → Block
block_of [] = no_stmts
block_of (s ∷ ss) = stmt_and s (block_of ss)

unfoldable pub parse_block : ℕ → Parser Stmt → Parser Block
parse_block f stmt = do
  expect t_lbrace (codes "'{'")
  ss ← until_brace f (codes "block (missing '}')") stmt
  pure (block_of ss)

unfoldable pub parse_stmt : ℕ → Parser Stmt
parse_stmt zero = no_fuel
parse_stmt (suc f) =
    stmt_cases (parse_type (suc f)) (parse_expr (suc f)) (parse_block f (parse_stmt f))
      (parse_stmt f)
