-- ===== src/Parser/Programs/Ends.antt =====
-- internal/lang/parser.go: `Parse` ends.

use quark_lang.Base.{Bytes, Option, arith, codes, length, none, refl, some, suc, zero, ℕ, ◌≢◌}
use quark_lang.Base.Result.{Ensures, Result, err, ok, out_of_fuel}
use quark_lang.Lexer.Progress.{IsStream}
use quark_lang.Macro.{Tokens}
use quark_lang.Parser.{Cursor, ParseError}
use quark_lang.Parser.Decls.{parse_func}
use quark_lang.Parser.Decls.Ends.{
  parse_func-Strict, parse_impl-Strict, parse_interface-Strict, parse_struct-Strict,
  signature-Strict,
}
use quark_lang.Parser.Exprs.Ends.{parse_type-Good}
use quark_lang.Parser.Lists.Ends.{until_brace-Good}
use quark_lang.Parser.Programs.{
  alias_decl, empty_program, func_decl, impl_decl, import_decl, interface_decl, kind_decl,
  kind_named, kind_rest, library_decl, library_method, library_methods, no_decl, parse,
  parse_program, program_of, pub_decl, set_kind, space_decl, struct_decl, text_or_ident, top_decl,
  type_decl, word_decl,
}
use quark_lang.Parser.Steps.{
  Good, Strict, Strict-Good, Strict-zero, pure-Good, test_if-Good, test_if-Strict,
}
use quark_lang.Parser.Steps.Rules.{
  bind-Good, bind-Strict, bind-Strict_drop, expect-Good, fail_at-Good, good_steps, strict_steps,
}
use quark_lang.Parser.Stmts.Ends.{ended-Good}
use quark_lang.Parser.Types.Ends.{parse_type-Strict}
use quark_lang.Syntax.{Program}
use quark_lang.Token.{Token, t_ident}

module _ (n : ℕ) (prog : Program) where
  func_decl-Strict : Strict n (func_decl n prog)
  unfolding func_decl
  func_decl-Strict = search (bind-Strict, parse_func-Strict, pure-Good)

  struct_decl-Strict : Strict n (struct_decl n prog)
  unfolding struct_decl
  struct_decl-Strict = search (bind-Strict, parse_struct-Strict, pure-Good)

  interface_decl-Strict : Strict n (interface_decl n prog)
  unfolding interface_decl
  interface_decl-Strict = search (bind-Strict, parse_interface-Strict, pure-Good)

  impl_decl-Strict : Strict n (impl_decl n prog)
  unfolding impl_decl
  impl_decl-Strict = search (bind-Strict, parse_impl-Strict, pure-Good)

  alias_decl-Strict : Strict n (alias_decl n prog)
  unfolding alias_decl
  alias_decl-Strict = search (bind-Strict, parse_type-Strict, good_steps) depth 9

  type_decl-Good : Good n (type_decl n prog)
  unfolding type_decl
  type_decl-Good =
      Strict-Good n _
        (search (test_if-Strict, interface_decl-Strict, struct_decl-Strict, alias_decl-Strict))

  space_decl-Good : Good n (space_decl n prog)
  unfolding space_decl
  space_decl-Good =
      let ms = until_brace-Good (parse_func n) n (codes "space body") (parse_func-Strict n) in
      search (good_steps, parse_type-Good) depth 20

  text_or_ident-Good : (what : Bytes) → Good n (text_or_ident what)
  unfolding text_or_ident
  text_or_ident-Good what = search good_steps depth 9

  library_method-Strict : Strict n (library_method n)
  unfolding library_method
  library_method-Strict = search (strict_steps, signature-Strict)

  library_decl-Good : (t : Token) → Good n (library_decl n prog t)
  unfolding library_decl library_methods
  library_decl-Good t =
      let ms = until_brace-Good (library_method n) n (codes "library body") library_method-Strict in
      search (good_steps, ended-Good, text_or_ident-Good) depth 12

  kind_rest-Good : (t : Token) (k : Option Bytes) → Good n (kind_rest prog t k)
  unfolding kind_rest set_kind
  kind_rest-Good t none = fail_at-Good n _ _
  kind_rest-Good t (some k) = search good_steps depth 9

  kind_decl-Good : Good n (kind_decl prog)
  unfolding kind_decl
  kind_decl-Good =
      bind-Good n _ _ (expect-Good n t_ident _ refl) λ t. kind_rest-Good t (kind_named t.text)

  import_decl-Good : Good n (import_decl prog)
  unfolding import_decl
  import_decl-Good = search (bind-Good, ended-Good, text_or_ident-Good)

  pub_decl-Good : Good n (pub_decl n prog)
  unfolding pub_decl
  pub_decl-Good =
      Strict-Good n _
        (search (strict_steps, pure-Good, parse_func-Strict, parse_struct-Strict) depth 9)

  word_decl-Strict : Strict n (word_decl n prog)
  unfolding word_decl no_decl
  word_decl-Strict =
      search
        (
          strict_steps, fail_at-Good, type_decl-Good, space_decl-Good, library_decl-Good,
          kind_decl-Good, import_decl-Good, pub_decl-Good,
        )
        depth 12

  top_decl-Strict : Strict n (top_decl n prog)
  unfolding top_decl
  top_decl-Strict =
      search
        (
          test_if-Strict, func_decl-Strict, struct_decl-Strict, interface_decl-Strict,
          impl_decl-Strict, word_decl-Strict,
        )
        depth 9

parse_program-Good : (f : ℕ) (prog : Program) → Good f (parse_program f prog)
unfolding parse_program
parse_program-Good zero prog = Strict-Good 0 _ (Strict-zero _)
parse_program-Good (suc f) prog = test_if-Good (suc f) _ _ _ (pure-Good (suc f) prog) (
    Strict-Good (suc f) _
      (bind-Strict_drop f _ _ (top_decl-Strict (suc f) prog) λ p. parse_program-Good f p))

-- On every list of tokens that ends with the end-of-file token, and holds no other, `Parse` ends, with a
-- program or with an error: one unit of fuel for each token is enough.
pub parse-ne-out_of_fuel : (ts : Tokens) → IsStream ts → parse ts ≢ out_of_fuel
unfolding parse
parse-ne-out_of_fuel ts h =
    let c : Cursor = record { before = none; toks = ts } in
    go _ (parse_program (length ts) empty_program c)
      ((parse_program-Good (length ts) empty_program).good c h (omega arith))
  where
    go :
        (P : Program × Cursor → Type 0) (r : Result ParseError (Program × Cursor))
        → Ensures P r
        → program_of r ≢ out_of_fuel
    go P (ok x) e = λ q. cc
    go P (err x) e = λ q. cc
    go P out_of_fuel e = absurd e
