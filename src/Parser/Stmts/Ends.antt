-- ===== src/Parser/Stmts/Ends.antt =====
-- internal/lang/parser.go: `parseStmt` and `parseBlock` end.

use quark_lang.Base.{Bytes, [], refl, suc, zero, ℕ}
use quark_lang.Parser.{Parser}
use quark_lang.Parser.Exprs.{parse_expr}
use quark_lang.Parser.Exprs.Ends.{parse_expr-Strict}
use quark_lang.Parser.Lists.Ends.{until_brace-Good}
use quark_lang.Parser.Steps.{
  Good, Good-less, Strict, Strict-Good, Strict-zero, on_kind-Strict_drop, on_word-Strict_drop,
  pure-Good, test_if-Strict,
}
use quark_lang.Parser.Steps.Rules.{
  bind-Good, bind-Strict, expect-Strict, good_steps, on_word-Strict, then-Strict,
}
use quark_lang.Parser.Stmts.{
  break_rest, condition, decl_end, delete_rest, else_part, ended, for_rest, if_rest, log_rest,
  open_stmt, parse_block, parse_decl, parse_stmt, plain_stmt, return_rest, stmt_cases, try_rest,
  type_first, while_rest,
}
use quark_lang.Parser.Types.{parse_type}
use quark_lang.Parser.Types.Ends.{parse_type-Strict}
use quark_lang.Syntax.{Block, Expr, Stmt}
use quark_lang.Token.{Token, t_ident, t_lbrace}

pub ended-Good {ℓ} : {A : Type ℓ} (n : ℕ) (x : A) → Good n (ended x)
unfolding ended
ended-Good n x = search good_steps

module _ (n : ℕ) (expr : Parser Expr) (e : Good n expr) where
  decl_end-Good : (t : Token) (ty decor : Bytes) → Good n (decl_end expr t ty decor)
  unfolding decl_end
  decl_end-Good t ty decor = search (good_steps, ended-Good) depth 9

  type_first-Strict :
      (typ : Parser Bytes) (decor : Bytes) → Strict n typ → Strict n (type_first typ expr decor)
  unfolding type_first
  type_first-Strict typ decor y = search (bind-Strict, good_steps, decl_end-Good) depth 9

  parse_decl-Strict : (typ : Parser Bytes) → Good n typ → Strict n (parse_decl typ expr)
  unfolding parse_decl
  parse_decl-Strict typ y =
      bind-Strict n _ _ (expect-Strict n t_ident _ refl)
        λ t. bind-Good n _ _ y λ ty. decl_end-Good t ty []

  delete_rest-Good : (t : Token) → Good n (delete_rest expr t)
  unfolding delete_rest
  delete_rest-Good t = search (good_steps, ended-Good)

  log_rest-Good : (t : Token) → Good n (log_rest expr t)
  unfolding log_rest
  log_rest-Good t = search (good_steps, ended-Good)

  return_rest-Good : (t : Token) → Good n (return_rest expr t)
  unfolding return_rest
  return_rest-Good t = search (good_steps, ended-Good) depth 9

  condition-Good : Good n (condition expr)
  unfolding condition
  condition-Good = search good_steps depth 9

  while_rest-Good : (block : Parser Block) → Good n block → Good n (while_rest expr block)
  unfolding while_rest
  while_rest-Good block b = search (good_steps, condition-Good) depth 9

  for_rest-Good : (block : Parser Block) (t : Token) → Good n block → Good n (for_rest expr block t)
  unfolding for_rest
  for_rest-Good block t b = search good_steps depth 16

  if_rest-Good :
      (block : Parser Block) (stmt : Parser Stmt)
      → Good n block
      → Good n stmt
      → Good n (if_rest expr block stmt)
  unfolding if_rest else_part
  if_rest-Good block stmt b s = search (good_steps, condition-Good) depth 16

  try_rest-Good :
      (typ : Parser Bytes) (block : Parser Block) (t : Token)
      → Good n typ
      → Good n block
      → Good n (try_rest typ block t)
  unfolding try_rest
  try_rest-Good typ block t y b = search good_steps depth 16

break_rest-Good : (n : ℕ) (t : Token) → Good n (break_rest t)
unfolding break_rest
break_rest-Good n t = search good_steps

module _ (n : ℕ) (typ : Parser Bytes) (expr : Parser Expr) (y : Strict n typ)
    (e : Strict n expr) where
  plain_stmt-Strict : Strict n (plain_stmt expr)
  unfolding plain_stmt
  plain_stmt-Strict =
      let inner = Strict-Good n expr e in search (bind-Strict, good_steps, ended-Good) depth 9

  open_stmt-Strict : Strict n (open_stmt typ expr)
  unfolding open_stmt
  open_stmt-Strict =
      let g = Strict-Good n expr e in
      let first : (decor : Bytes) → Strict n (type_first typ expr decor) =
        λ d. type_first-Strict n expr g typ d y in
      let first' : (decor : Bytes) → Good n (type_first typ expr decor) =
        λ d. Strict-Good n _ (first d) in
      let decl = parse_decl-Strict n expr g typ (Strict-Good n typ y) in
      search (on_word-Strict, test_if-Strict, first, first', plain_stmt-Strict) depth 12

pub parse_block-Strict :
    (n : ℕ) (stmt : Parser Stmt) → Strict n stmt → Strict n (parse_block n stmt)
unfolding parse_block
parse_block-Strict n stmt s =
    then-Strict n _ _ (expect-Strict n t_lbrace _ refl)
      (bind-Good n _ _ (until_brace-Good stmt n _ s) λ ss. pure-Good n _)

module _ (n : ℕ) (typ : Parser Bytes) (expr : Parser Expr) (block : Parser Block)
    (stmt : Parser Stmt) (y : Strict (suc n) typ) (e : Strict (suc n) expr) (b : Good n block)
    (s : Good n stmt) where
  stmt_cases-Strict : Strict (suc n) (stmt_cases typ expr block stmt)
  unfolding stmt_cases
  stmt_cases-Strict =
      let x = Good-less n expr (Strict-Good (suc n) expr e) in
      let u = Good-less n typ (Strict-Good (suc n) typ y) in
      let plain = open_stmt-Strict (suc n) typ expr y e in
      let delete = delete_rest-Good n expr x in
      let log = log_rest-Good n expr x in
      let return = return_rest-Good n expr x in
      let branch = if_rest-Good n expr x block stmt b s in
      let loop = while_rest-Good n expr x block b in
      let each : (t : Token) → Good n (for_rest expr block t) =
        λ t. for_rest-Good n expr x block t b in
      let guarded : (t : Token) → Good n (try_rest typ block t) =
        λ t. try_rest-Good n expr x typ block t u b in
      search
        (
          on_kind-Strict_drop, on_word-Strict_drop, break_rest-Good, delete, log, return, each,
          guarded,
        )
        depth 12

pub parse_stmt-Strict : (n : ℕ) → Strict n (parse_stmt n)
unfolding parse_stmt
parse_stmt-Strict zero = Strict-zero _
parse_stmt-Strict (suc f) =
    let s = parse_stmt-Strict f in
    stmt_cases-Strict f (parse_type (suc f)) (parse_expr (suc f)) (parse_block f (parse_stmt f))
      (parse_stmt f) (parse_type-Strict (suc f)) (parse_expr-Strict (suc f))
      (Strict-Good f _ (parse_block-Strict f (parse_stmt f) s)) (Strict-Good f _ s)
