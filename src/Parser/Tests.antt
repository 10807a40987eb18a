-- ===== src/Parser/Tests.antt =====
-- internal/lang/parser.go: runs of the parser on small sources.

use quark_lang.Base.{Bytes, List, Option, [], codes, equal, map, none, refl, some, ◌∷◌, ◌≡◌, ◌≢◌}
use quark_lang.Base.Result.{Ensures-ok, Result, err, ok, out_of_fuel}
use quark_lang.Lexer.{lex}
use quark_lang.Lexer.Progress.{IsStream, lex-IsStream}
use quark_lang.Lexer.State.{LexError}
use quark_lang.Macro.{Tokens}
use quark_lang.Parser.{
  ParseError, ParseMsg, any_token, expect, expect_member_name, expected, fail_at, fail_here,
  here_token, is_word_token, no_fuel, on_kind, on_word, program_twice, pure, test_if, token_before,
  unterminated, ◌>>=◌, ◌>>◌,
}
use quark_lang.Parser.Decls.{
  expand_rest, impl_names, interface_line, interface_name, maybe_type_params, name_in_parens,
  parse_func, parse_impl, parse_interface, parse_member, parse_method_sig, parse_param,
  parse_param_list, parse_struct, parse_struct_name, return_type, signature, skip_params,
  type_param, type_params_rest,
}
use quark_lang.Parser.Exprs.{
  bin_tail, expr_items, exprs_until, index_of, int_literal, member_of, new_object, parse_add,
  parse_and, parse_args, parse_bin, parse_cmp, parse_expr, parse_mul, parse_or, parse_postfix,
  parse_primary, parse_shift, parse_unary, postfix_tail, scope_of, scoped, sign_of, signed,
  struct_field, struct_fields, struct_literal,
}
use quark_lang.Parser.Lists.{comma_list, until_brace}
use quark_lang.Parser.Programs.{
  add_alias, add_func, add_impl, add_interface, add_library, add_public, add_struct, alias_decl,
  func_decl, impl_decl, import_decl, interface_decl, kind_decl, kind_named, kind_rest, library_decl,
  library_method, library_methods, no_decl, parse, parse_program, pub_decl, set_kind, space_decl,
  struct_decl, text_or_ident, top_decl, type_decl, word_decl,
}
use quark_lang.Parser.Programs.Ends.{parse-ne-out_of_fuel}
use quark_lang.Parser.Programs.TypeArgs.{
  base_name, inner_types, split_commas_from, split_top_commas,
}
use quark_lang.Parser.Programs.Valid.{IsProgram, parse-IsProgram}
use quark_lang.Parser.Stmts.{
  break_rest, condition, decl_end, delete_rest, else_part, ended, for_rest, if_rest,
  is_builtin_type_name, log_rest, open_stmt, parse_block, parse_decl, parse_stmt, plain_stmt,
  return_rest, stmt_cases, try_rest, type_first, while_rest,
}
use quark_lang.Parser.Types.{
  array_suffix, function_args, generic_suffix, parse_named, parse_type, pointer_suffix, type_args,
}
use quark_lang.Syntax.{
  Block, Program, assign_stmt, bin_expr, call_expr, ident, int_lit, no_exprs, no_stmts, return_stmt,
  stmt_and,
}
use quark_lang.Token.{t_log}

abbrev pub tokens_of : Result LexError Tokens → Tokens
tokens_of (ok ts) = ts
tokens_of _ = []

unfoldable parsed : Bytes → Result ParseError Program
unfolding lex equal pure no_fuel fail_at fail_here test_if on_kind on_word here_token token_before
    any_token expect is_word_token expect_member_name ◌>>=◌ ◌>>◌ function_args type_args
    pointer_suffix array_suffix generic_suffix parse_named parse_type until_brace comma_list
    expr_items exprs_until parse_args struct_field struct_fields struct_literal new_object
    int_literal parse_primary member_of index_of scoped scope_of signed sign_of postfix_tail
    parse_postfix parse_unary bin_tail parse_bin parse_mul parse_shift parse_add parse_cmp parse_and
    parse_or parse_expr is_builtin_type_name ended decl_end type_first parse_decl break_rest
    delete_rest log_rest return_rest try_rest condition else_part if_rest while_rest for_rest
    plain_stmt open_stmt stmt_cases parse_block parse_stmt parse_param parse_param_list type_param
    type_params_rest maybe_type_params return_type parse_func parse_member name_in_parens
    parse_struct_name parse_struct signature parse_method_sig expand_rest interface_line skip_params
    interface_name parse_interface impl_names parse_impl add_func add_struct add_interface add_impl
    add_library add_alias add_public func_decl struct_decl interface_decl impl_decl alias_decl
    type_decl space_decl text_or_ident library_method library_methods library_decl kind_named
    set_kind kind_rest kind_decl import_decl pub_decl no_decl word_decl top_decl parse_program parse
    split_commas_from split_top_commas base_name inner_types
parsed src = parse (tokens_of (lex src))

abbrev shown : Result ParseError Program → List Block
shown (ok p) = map (λ f. f.body) p.funcs
shown _ = []

abbrev error_of : Result ParseError Program → Option ParseMsg
error_of (err e) = some e.msg
error_of _ = none

-- Multiplication binds more tightly than addition, and a shift lies between the two.
precedence :
    shown (parsed (codes "fn main() { x = 1 + 2 << 3 * 4; }"))
    ≡ stmt_and
        (assign_stmt
          (ident (codes "x") (record { line = 1; col = 13 }))
          (bin_expr
            (codes "+")
            (int_lit 1 (record { line = 1; col = 17 }))
            (bin_expr
              (codes "<<")
              (int_lit 2 (record { line = 1; col = 21 }))
              (bin_expr
                (codes "*")
                (int_lit 3 (record { line = 1; col = 26 }))
                (int_lit 4 (record { line = 1; col = 30 }))
                (record { line = 1; col = 28 }))
              (record { line = 1; col = 23 }))
            (record { line = 1; col = 19 }))
          (record { line = 1; col = 15 }))
        no_stmts
      ∷ []
unfolding parsed
precedence = refl

-- `>>` does not close the brackets of a function type, as it does those of other types.
nested_function_type :
    error_of (parsed (codes "fn f(a function<int, List<List<int>>>) int { return 1; }"))
    ≡ some (unterminated (codes "function type"))
unfolding parsed
nested_function_type = refl

nested_list_type :
    error_of (parsed (codes "fn f(a Map<int, List<List<int>>>) int { return 1; }")) ≡ none
unfolding parsed
nested_list_type = refl

-- A keyword that is a word of the language is a member's name, but `log` is not.
keyword_member :
    (error_of (parsed (codes "fn main() { a.return; }")) ≡ none)
    × (error_of (parsed (codes "fn main() { a.log; }"))
        ≡ some (expected (codes "member name") t_log))
unfolding parsed
keyword_member = (refl, refl)

repeated_kind : error_of (parsed (codes "program main; program lib;")) ≡ some program_twice
unfolding parsed
repeated_kind = refl

abbrev source : Bytes
source = codes "fn main() { a[1].f(2) = 3; }"

sample-IsStream : IsStream (tokens_of (lex source))
unfolding lex
sample-IsStream =
    Ensures-ok IsStream (lex source) {a = tokens_of (lex source)} (lex-IsStream source) refl

parse_example : parse (tokens_of (lex source)) ≢ out_of_fuel
parse_example = parse-ne-out_of_fuel (tokens_of (lex source)) sample-IsStream

-- A library with a public function, which calls itself.
abbrev pub library_source : Bytes
library_source = codes "program lib; pub fn f() int { return f(); }"

abbrev pub library_program : Program
library_program = record {
  funcs =
      record {
        name = codes "f";
        type_params = [];
        params = [];
        ret = codes "int";
        body =
            stmt_and
              (return_stmt
                (call_expr (ident (codes "f") (record { line = 1; col = 38 })) no_exprs
                  (record { line = 1; col = 39 }) none)
                (record { line = 1; col = 31 }))
              no_stmts;
        body_start = record { line = 1; col = 29 };
        body_end = some (record { line = 1; col = 43 });
        pos = record { line = 1; col = 18 };
      }
      ∷ [];
  structs = [];
  libraries = [];
  interfaces = [];
  impls = [];
  type_aliases = [];
  kind = codes "library";
  imports = [];
  public_names = codes "f" ∷ [];
}

pub library_parsed : parse (tokens_of (lex library_source)) ≡ ok library_program
unfolding parsed
library_parsed = refl

library_example : IsProgram library_program
library_example = parse-IsProgram (tokens_of (lex library_source)) library_program library_parsed

-- The last byte of the type of a space is taken to be `>`, also if it is `&`.
space_of_pointers :
    (base_name (codes "node<T>&") ≡ codes "node")
    × (inner_types (codes "node<T>&") ≡ codes "T>" ∷ [])
unfolding base_name inner_types split_top_commas split_commas_from equal
space_of_pointers = (refl, refl)
