-- ===== src/Cgen/Parser/Tests.antt =====
-- Runs of the compiler's parser.
use Prim.Native.String.{String}
use quark_lang.Base.{Option, [], codes, equal, none, refl, some, starts, ◌∷◌, ◌≡◌, ◌≢◌}
use quark_lang.Base.Result.{Result, err, ok, out_of_fuel}
use quark_lang.Cgen.{
  CBlock, CExpr, FuncDef, assign, branch, decl, give, item_and, k_bin, k_call, k_cmp, k_ident,
  k_index, k_int, k_list, k_method, k_not, k_string, no_items, println_stmt, stmt_then, stop,
}
use quark_lang.Cgen.Parser.{
  CParseError, Spot, at_text, expect_char, expect_word, ident_part, ident_start, lex_word, move,
  no_fuel_left, on_char, on_span, optional_char, refuse, refuse_at, skip_from, skipped, space, span,
  span_from, unterminated_block, value, when, ◌>>=◌, ◌>>◌,
}
use quark_lang.Cgen.Parser.Exprs.{
  add_level, add_ops, and_level, and_ops, bad_char, call_rest, chain_rest, cmp_level, cmp_ops,
  expr_of, generic_rest, index_rest, int_of, items_until, method_rest, mul_level, mul_ops,
  name_rest, op_chain, or_level, or_ops, paren_rest, parse_operand, past_angle, primary_cases,
  signed_check, string_literal, string_rest, struct_rest, take_op, unescaped, values_rest,
  word_expr,
}
use quark_lang.Cgen.Parser.Funcs.{
  c_func, func_params, impl_method, method_end, method_params, optional_word, skip_type_params,
}
use quark_lang.Cgen.Parser.Program.{
  CProgram, add_top, c_decl, c_decls, c_program, impl_decl_rest, impl_methods, kind_line, no_decls,
  parse_source, skip_macro, skip_macro_block, struct_decl_rest, struct_fields_rest,
}
use quark_lang.Cgen.Parser.Program.Ends.{parse_source-ends}
use quark_lang.Cgen.Parser.Stmts.{
  after_expr, assign_rest, block_cases, braced, c_block, catch_name, catch_part, semi_after,
  decl_rest, element_of, element_rest, else_block, equals_sign, expr_stmt_from, first_word,
  free_rest, if_stmt_rest, io_rest, is_stmt_word, keyword_stmt, more_args, move_by, named_stmt,
  print_args, print_rest, printed, return_stmt_rest, skip_chars, test_of, try_stmt_rest,
  c_type_name, while_stmt_rest,
}

abbrev start : String → Spot
start text = record { pos = 0; braces = 0; rest = codes text }

abbrev value_of {ℓ} : {A : Type ℓ} → Result CParseError (A × Spot) → Option A
value_of (ok (a, s)) = some a
value_of _ = none

unfoldable parsed_expr : String → Option CExpr
unfolding equal starts at_text ident_start ident_part skip_from skipped span_from span value
    no_fuel_left refuse refuse_at when on_char on_span ◌>>=◌ ◌>>◌ move space expect_char
    optional_char lex_word expect_word or_ops and_ops cmp_ops add_ops mul_ops take_op chain_rest
    op_chain mul_level add_level cmp_level and_level or_level expr_of int_of unescaped string_rest
    string_literal items_until values_rest past_angle signed_check call_rest generic_rest index_rest
    method_rest name_rest word_expr bad_char struct_rest paren_rest primary_cases parse_operand
parsed_expr text = value_of (expr_of 40 (parse_operand 40) (start text))

sum_expr :
    parsed_expr " 1 + 2*x // end"
    ≡ some (k_bin (codes "+") (k_int 1) (k_bin (codes "*") (k_int 2) (k_ident (codes "x"))))
unfolding parsed_expr
sum_expr = refl

-- The commas between arguments may be left out.
no_comma :
    parsed_expr "f(1 2)"
    ≡ some (k_call (codes "f") (item_and (k_int 1) (item_and (k_int 2) no_items)))
unfolding parsed_expr
no_comma = refl

-- `a < b` is taken for a call with type arguments where a `>` with a parenthesis comes later.
compared_twice :
    parsed_expr "a < b && c > (d)"
    ≡ some (k_call (codes "a") (item_and (k_ident (codes "d")) no_items))
unfolding parsed_expr
compared_twice = refl

text_and_list :
    parsed_expr "[\"a\\n\", -x.m(1), !l[2]] "
    ≡ some (
        k_list (
          item_and (k_string (97 ∷ 10 ∷ [])) (
            item_and
              (k_bin
                (codes "-")
                (k_int 0)
                (k_method (codes "x") (codes "m") (item_and (k_int 1) no_items)))
              (item_and (k_not (k_index (codes "l") (k_int 2))) no_items))))
unfolding parsed_expr
text_and_list = refl

abbrev outcome : Result CParseError CProgram → Option CProgram
outcome (ok p) = some p
outcome _ = none

unfoldable parsed_program : String → Result CParseError CProgram
unfolding equal starts at_text ident_start ident_part skip_from skipped span_from span value
    no_fuel_left refuse refuse_at when on_char on_span ◌>>=◌ ◌>>◌ move space expect_char
    optional_char lex_word expect_word or_ops and_ops cmp_ops add_ops mul_ops take_op chain_rest
    op_chain mul_level add_level cmp_level and_level or_level expr_of int_of unescaped string_rest
    string_literal items_until values_rest past_angle signed_check call_rest generic_rest index_rest
    method_rest name_rest word_expr struct_rest paren_rest bad_char primary_cases parse_operand
    c_type_name move_by skip_chars semi_after braced catch_name catch_part try_stmt_rest free_rest
    return_stmt_rest more_args print_args printed print_rest io_rest test_of else_block if_stmt_rest
    while_stmt_rest assign_rest equals_sign decl_rest named_stmt keyword_stmt is_stmt_word
    element_of element_rest after_expr expr_stmt_from first_word block_cases c_block optional_word
    func_params skip_type_params c_func method_params method_end impl_method struct_fields_rest
    struct_decl_rest skip_macro_block skip_macro kind_line impl_methods impl_decl_rest c_decl
    add_top c_decls c_program parse_source
parsed_program text = parse_source (codes text)

abbrev main_func : CBlock → FuncDef
main_func body = record {
  name = codes "main";
  params = [];
  ret = [];
  body = body;
  self_typ = [];
  self_param = [];
}

one_main :
    parsed_program
      "program main; fn main() { x int = 1; if (x < 2) { io.println(x); } else { x = 3; } }"
    ≡ ok (record {
      funcs =
          main_func (
            stmt_then (decl (codes "x") (codes "int") (k_int 1)) (
              stmt_then
                (branch
                  (k_cmp (codes "slt") (k_ident (codes "x")) (k_int 2))
                  (stmt_then (println_stmt (item_and (k_ident (codes "x")) no_items)) stop)
                  (stmt_then (assign (codes "x") (k_int 3)) stop))
                stop))
          ∷ [];
      main_stmts = stmt_then (decl (codes "x") (codes "int") (k_int 1)) (
          stmt_then
            (branch
              (k_cmp (codes "slt") (k_ident (codes "x")) (k_int 2))
              (stmt_then (println_stmt (item_and (k_ident (codes "x")) no_items)) stop)
              (stmt_then (assign (codes "x") (k_int 3)) stop))
            stop);
      structs = [];
    })
unfolding parsed_program
one_main = refl

-- The call of `io.print` is read and dropped.
print_dropped :
    parsed_program "fn main() { io.print(1); }"
    ≡ ok (record { funcs = main_func stop ∷ []; main_stmts = stop; structs = [] })
unfolding parsed_program
print_dropped = refl

-- A macro before the first function: the block behind it that is skipped is the body of `main`.
macro_takes_main : parsed_program "macro m { a } { b } fn main() { f(); }" ≡ ok no_decls
unfolding parsed_program
macro_takes_main = refl

struct_and_method :
    parsed_program "type struct { a int; } T; impl T { fn get(self T) int { return self.a; } }"
    ≡ ok (record {
      funcs =
          record {
            name = codes "T_get";
            params = [];
            ret = codes "int";
            body = stmt_then (give (k_method (codes "self") (codes "a") no_items)) stop;
            self_typ = codes "T";
            self_param = codes "self";
          }
          ∷ [];
      main_stmts = stop;
      structs = record { name = codes "T"; fields = codes "a" ∷ [] } ∷ [];
    })
unfolding parsed_program
struct_and_method = refl

unclosed : parsed_program "fn main() { return 1;" ≡ err unterminated_block
unfolding parsed_program
unclosed = refl

parse_source-ends_example : parse_source (codes "fn main() { }") ≢ out_of_fuel
parse_source-ends_example = parse_source-ends (codes "fn main() { }")
