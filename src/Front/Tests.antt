-- ===== src/Front/Tests.antt =====
-- internal/lang/parser.go: runs of the front end.

use quark_lang.Base.{
  Bytes, List, Option, [], codes, equal, insert, map, none, refl, some, ℕ, ◌∷◌, ◌≡◌, ◌≢◌,
}
use quark_lang.Base.Result.{Ensures, Ensures-ok, Result, ok, out_of_fuel}
use quark_lang.Front.{syntax_tree, without_macros}
use quark_lang.Front.Calls.{fn_index, link_calls, walk_block, walk_main}
use quark_lang.Front.Calls.Linked.{IsLinked}
use quark_lang.Front.Ends.{syntax_tree-ne-out_of_fuel, without_macros-IsStream}
use quark_lang.Front.Fresh.Programs.{parse-link_calls}
use quark_lang.Lexer.{lex}
use quark_lang.Lexer.Progress.{IsStream, lex-IsStream}
use quark_lang.Macro.{MacroError, Pos, Tokens}
use quark_lang.Macro.Define.{split_macro_defs}
use quark_lang.Macro.Expand.{expand_macros}
use quark_lang.Parser.Programs.{empty_program}
use quark_lang.Parser.Tests.{library_parsed, library_program, library_source, tokens_of}
use quark_lang.Syntax.{
  Block, Expr, Exprs, FuncDecl, Program, bin_expr, call_expr, expr_and, expr_stmt, ident, int_lit,
  no_exprs, no_stmts, stmt_and,
}

abbrev macro_source : Bytes
macro_source = codes "#macro twice(x) { #insert(#ast(x)) + x } fn main() { log twice(2); }"

abbrev texts : Result MacroError Tokens → List Bytes
texts (ok ts) = map (λ t. t.text) ts
texts _ = []

-- The macro is expanded, and its definition is gone.
expanded :
    texts (without_macros (tokens_of (lex macro_source)))
    ≡ map (λ t. t.text) (tokens_of (lex (codes "fn main() { log 2 + 2; }")))
unfolding without_macros lex split_macro_defs expand_macros
expanded = refl

macro_source-IsStream : IsStream (tokens_of (lex macro_source))
unfolding lex
macro_source-IsStream =
    Ensures-ok IsStream (lex macro_source) {a = tokens_of (lex macro_source)}
      (lex-IsStream macro_source) refl

without_macros_example : Ensures IsStream (without_macros (tokens_of (lex macro_source)))
without_macros_example =
    without_macros-IsStream (tokens_of (lex macro_source)) macro_source-IsStream

syntax_tree_example : syntax_tree macro_source ≢ out_of_fuel
syntax_tree_example = syntax_tree-ne-out_of_fuel macro_source

abbrev here : Pos
here = record { line = 1; col = 1 }

abbrev func_of_body : Bytes → Block → FuncDecl
func_of_body s b = record {
  name = s;
  type_params = [];
  params = [];
  ret = codes "int";
  body = b;
  body_start = here;
  body_end = none;
  pos = here;
}

abbrev call_of : Bytes → Exprs → Option ℕ → Expr
call_of s args i = call_expr (ident s here) args here i

-- `f(1) + g()`, where `g` is no function.
abbrev body_with : Option ℕ → Block
body_with i =
    stmt_and
      (expr_stmt (
        bin_expr (codes "+") (call_of (codes "f") (expr_and (int_lit 1 here) no_exprs) i)
          (call_of (codes "g") no_exprs none) here))
      no_stmts

-- The name `f` is that of two functions.
abbrev funcs_with : Option ℕ → List FuncDecl
funcs_with i =
    func_of_body (codes "f") no_stmts
    ∷ func_of_body (codes "main") (body_with i)
    ∷ func_of_body (codes "f") no_stmts
    ∷ []

abbrev calls_program : Program
calls_program = record empty_program { funcs = funcs_with none }

last_is_called : link_calls calls_program ≡ record empty_program { funcs = funcs_with (some 2) }
unfolding link_calls walk_main equal walk_block fn_index insert
last_is_called = refl

parse-link_calls_example : IsLinked (link_calls library_program)
parse-link_calls_example =
    parse-link_calls (tokens_of (lex library_source)) library_program library_parsed
