-- ===== src/Parser/Programs.antt =====
-- internal/lang/parser.go: `parseProgram`, and `Parse`. `n` is the fuel of a declaration. The declarations
-- are added to the program behind the others.
pub mod Ends
pub mod TypeArgs
pub mod Valid
use quark_lang.Base.{
  Bytes, List, Option, [], codes, equal, false, if◌then◌else◌, length, none, some, suc, zero, ℕ,
  ◌++◌, ◌||◌, ◌∷◌,
}
use quark_lang.Base.Int.{pos}
use quark_lang.Base.Result.{Result, err, ok, out_of_fuel}
use quark_lang.Macro.{Tokens}
use quark_lang.Parser.{
  Cursor, ParseError, Parser, bad_program_kind, bad_pub, cur_is, expect, expect_ident, expected,
  fail_at, fail_here, func_is_fn, here_token, no_fuel, on_kind, on_word, only_signatures,
  program_twice, pure, test_if, ◌>>=◌, ◌>>◌,
}
use quark_lang.Parser.Decls.{parse_func, parse_impl, parse_interface, parse_struct, signature}
use quark_lang.Parser.Exprs.{pos_at}
use quark_lang.Parser.Lists.{until_brace}
use quark_lang.Parser.Programs.TypeArgs.{base_name, inner_types}
use quark_lang.Parser.Stmts.{ended}
use quark_lang.Parser.Types.{parse_type}
use quark_lang.Syntax.{
  FuncDecl, ImplDecl, InterfaceDecl, LibraryDecl, MethodSig, Program, StructDecl, TypeAlias,
}
use quark_lang.Token.{
  Token, t_eof, t_func, t_impl, t_interface, t_lbrace, t_lparen, t_rparen, t_semi, t_str, t_struct,
}

abbrev pub empty_program : Program
empty_program = record {
  funcs = [];
  structs = [];
  libraries = [];
  interfaces = [];
  impls = [];
  type_aliases = [];
  kind = [];
  imports = [];
  public_names = [];
}

unfoldable pub add_func : Program → FuncDecl → Program
add_func prog d = record prog { funcs = prog.funcs ++ (d ∷ []) }

unfoldable pub add_struct : Program → StructDecl → Program
add_struct prog d = record prog { structs = prog.structs ++ (d ∷ []) }

unfoldable pub add_interface : Program → InterfaceDecl → Program
add_interface prog d = record prog { interfaces = prog.interfaces ++ (d ∷ []) }

unfoldable pub add_impl : Program → ImplDecl → Program
add_impl prog d = record prog { impls = prog.impls ++ (d ∷ []) }

unfoldable pub add_library : Program → LibraryDecl → Program
add_library prog d = record prog { libraries = prog.libraries ++ (d ∷ []) }

unfoldable pub add_alias : Program → TypeAlias → Program
add_alias prog d = record prog { type_aliases = prog.type_aliases ++ (d ∷ []) }

unfoldable pub add_public : Program → Bytes → Program
add_public prog s = record prog { public_names = prog.public_names ++ (s ∷ []) }

unfoldable pub func_decl : ℕ → Program → Parser Program
func_decl n prog = do d ← parse_func n; pure (add_func prog d)

unfoldable pub struct_decl : ℕ → Program → Parser Program
struct_decl n prog = do d ← parse_struct n; pure (add_struct prog d)

unfoldable pub interface_decl : ℕ → Program → Parser Program
interface_decl n prog = do d ← parse_interface n; pure (add_interface prog d)

unfoldable pub impl_decl : ℕ → Program → Parser Program
impl_decl n prog = do d ← parse_impl n; pure (add_impl prog d)

unfoldable pub alias_decl : ℕ → Program → Parser Program
alias_decl n prog = do
  ty ← parse_type n
  t ← expect_ident (codes "type alias name")
  expect t_semi (codes "';'")
  pure (add_alias prog (record { name = t.text; typ = ty; pos = pos_at t }))

-- `type interface`, `type struct`, or an alias.
unfoldable pub type_decl : ℕ → Program → Parser Program
type_decl n prog =
    test_if (cur_is t_interface) (interface_decl n prog)
      (test_if (cur_is t_struct) (struct_decl n prog) (alias_decl n prog))

-- `space { ... } (Name);`.
unfoldable pub space_decl : ℕ → Program → Parser Program
space_decl n prog = do
  expect t_lbrace (codes "'{'")
  start ← here_token
  ms ← until_brace n (codes "space body") (parse_func n)
  expect t_lparen (codes "'('")
  ty ← parse_type n
  expect t_rparen (codes "')'")
  expect t_semi (codes "';'")
  pure (
      add_impl prog (record {
        iface = [];
        typ = base_name ty;
        type_params = inner_types ty;
        methods = ms;
        pos = pos_at start;
      }))

-- A text or an identifier.
unfoldable pub text_or_ident : Bytes → Parser Bytes
text_or_ident what = on_kind t_str (λ t. pure t.text) do t ← expect_ident what; pure t.text

unfoldable pub library_method : ℕ → Parser MethodSig
library_method n =
    test_if (cur_is t_func) (signature n (codes "function symbol name") (codes "void") false)
      (fail_here (λ _. only_signatures))

unfoldable pub library_methods : ℕ → Parser (List MethodSig)
library_methods n =
    on_kind t_lbrace
      (λ _. do
        ms ← until_brace n (codes "library body") (library_method n)
        on_kind t_semi (λ _. pure ms) (pure ms))
      (ended [])

unfoldable pub library_decl : ℕ → Program → Token → Parser Program
library_decl n prog t = do
  s ← text_or_ident (codes "library name")
  ms ← library_methods n
  pure (add_library prog (record { name = s; lib = s; methods = ms; pos = pos_at t }))

-- The kind that a `program` declaration names.
unfoldable pub kind_named : Bytes → Option Bytes
kind_named s =
    if equal s (codes "main")
    then some (codes "main")
    else if equal s (codes "library") || equal s (codes "lib")
    then some (codes "library")
    else none

unfoldable pub set_kind : Program → Token → Bytes → Parser Program
set_kind prog t k = do
  expect t_semi (codes "';'")
  test_if (λ _. equal prog.kind []) (pure (record prog { kind = k })) (fail_at t program_twice)

unfoldable pub kind_rest : Program → Token → Option Bytes → Parser Program
kind_rest prog t none = fail_at t bad_program_kind
kind_rest prog t (some k) = set_kind prog t k

unfoldable pub kind_decl : Program → Parser Program
kind_decl prog = do
  t ← expect_ident (codes "program kind (main|library)")
  kind_rest prog t (kind_named t.text)

unfoldable pub import_decl : Program → Parser Program
import_decl prog = do
  s ← text_or_ident (codes "import path")
  ended (record prog { imports = prog.imports ++ (s ∷ []) })

unfoldable pub pub_decl : ℕ → Program → Parser Program
pub_decl n prog =
    test_if (cur_is t_func) (do d ← parse_func n; pure (add_func (add_public prog d.name) d))
      (test_if (cur_is t_struct)
        (do d ← parse_struct n; pure (add_struct (add_public prog d.name) d))
        (fail_here (λ _. bad_pub)))

unfoldable pub no_decl : Parser Program
no_decl =
    on_word (codes "func") (λ t. fail_at t func_is_fn)
      (fail_here
        (expected (codes "a top-level declaration (fn/struct/impl/interface/program/import/pub)")))

-- The declarations that start with an identifier.
unfoldable pub word_decl : ℕ → Program → Parser Program
word_decl n prog =
    on_word (codes "type") (λ _. type_decl n prog)
      (on_word (codes "space") (λ _. space_decl n prog)
        (on_word (codes "library") (library_decl n prog) (
          on_word (codes "program") (λ _. kind_decl prog)
            (on_word (codes "import") (λ _. import_decl prog)
              (on_word (codes "pub") (λ _. pub_decl n prog) no_decl)))))

unfoldable pub top_decl : ℕ → Program → Parser Program
top_decl n prog = test_if (cur_is t_func) (func_decl n prog) (
    test_if (cur_is t_struct) (struct_decl n prog) (
      test_if (cur_is t_interface) (interface_decl n prog)
        (test_if (cur_is t_impl) (impl_decl n prog) (word_decl n prog))))

unfoldable pub parse_program : ℕ → Program → Parser Program
parse_program zero prog = no_fuel
parse_program (suc f) prog =
    test_if (cur_is t_eof) (pure prog) do prog' ← top_decl (suc f) prog; parse_program f prog'

abbrev pub program_of : Result ParseError (Program × Cursor) → Result ParseError Program
program_of (ok (prog, c)) = ok prog
program_of (err e) = err e
program_of out_of_fuel = out_of_fuel

-- `Parse`.
unfoldable pub parse : Tokens → Result ParseError Program
parse ts =
    program_of (parse_program (length ts) empty_program (record { before = none; toks = ts }))
