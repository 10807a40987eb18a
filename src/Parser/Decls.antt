-- ===== src/Parser/Decls.antt =====
-- internal/lang/parser.go: functions, structures, interfaces and implementations. `n` is the fuel of the
-- loops and of the parts.
pub mod Ends
use quark_lang.Base.{
  Bool, Bytes, List, Option, [], codes, equal, false, if◌then◌else◌, none, some, suc, true, zero, ℕ,
  ◌&&◌, ◌||◌, ◌∷◌,
}
use quark_lang.Base.Int.{pos}
use quark_lang.Macro.{Pos}
use quark_lang.Parser.{
  Cursor, Parser, any_token, cur, cur_is, expect, expect_ident, fail_here, here_token,
  needs_return_type, no_fuel, on_kind, on_word, peek_text_is, pure, test_if, token_before, ◌>>=◌,
  ◌>>◌,
}
use quark_lang.Parser.Exprs.{pos_at}
use quark_lang.Parser.Lists.{comma_list, until_brace}
use quark_lang.Parser.Stmts.{parse_block, parse_stmt}
use quark_lang.Parser.Types.{parse_type}
use quark_lang.Syntax.{FuncDecl, ImplDecl, InterfaceDecl, MethodSig, Param, StructDecl}
use quark_lang.Token.{
  Token, t_comma, t_func, t_gt, t_ident, t_impl, t_interface, t_lbrace, t_lparen, t_lt, t_rparen,
  t_semi, t_struct, ◌is◌,
}

-- `name Type`, of which the type can be missing.
unfoldable pub parse_param : ℕ → Parser Param
parse_param n = do
  t ← expect_ident (codes "parameter name")
  test_if (λ c. cur_is t_comma c || cur_is t_rparen c)
      (pure (record { name = t.text; typ = []; pos = pos_at t }))
      (do ty ← parse_type n; pure (record { name = t.text; typ = ty; pos = pos_at t }))

unfoldable pub parse_param_list : ℕ → Parser (List Param)
parse_param_list n =
    on_kind t_rparen (λ _. pure [])
      do ps ← comma_list n (parse_param n); expect t_rparen (codes "')'"); pure ps

unfoldable pub type_param : Parser Bytes
type_param = do t ← expect_ident (codes "type parameter"); pure t.text

-- `T, ... >`, behind `<`.
unfoldable pub type_params_rest : ℕ → Parser (List Bytes)
type_params_rest n = do ts ← comma_list n type_param; expect t_gt (codes "'>'"); pure ts

-- `parseTypeParams` where it is called, and the loop in `parseFunc`.
unfoldable pub maybe_type_params : ℕ → Parser (List Bytes)
maybe_type_params n = on_kind t_lt (λ _. type_params_rest n) (pure [])

-- Whether a type can follow: `p.curIs(TIdent) || p.curIs(TInterface)`.
abbrev pub at_type : Cursor → Bool
at_type c = cur_is t_ident c || cur_is t_interface c

-- The type a function returns: only `main` can leave it out.
unfoldable pub return_type : ℕ → Bytes → Parser Bytes
return_type n name = test_if at_type (parse_type n) (
    test_if (λ _. equal name (codes "main")) (pure (codes "void"))
      (fail_here (λ _. needs_return_type name)))

abbrev pub maybe_pos : Option Token → Option Pos
maybe_pos none = none
maybe_pos (some t) = some (pos_at t)

unfoldable pub parse_func : ℕ → Parser FuncDecl
parse_func n = do
  kw ← expect t_func (codes "'fn'")
  tps ← maybe_type_params n
  t ← expect_ident (codes "function name")
  expect t_lparen (codes "'('")
  ps ← parse_param_list n
  r ← return_type n t.text
  start ← here_token
  b ← parse_block n (parse_stmt n)
  last ← token_before
  pure (record {
    name = t.text;
    type_params = tps;
    params = ps;
    ret = r;
    body = b;
    body_start = pos_at start;
    body_end = maybe_pos last;
    pos = pos_at kw;
  })

unfoldable pub parse_member : ℕ → Parser Param
parse_member n = do
  t ← expect_ident (codes "member name")
  ty ← parse_type n
  expect t_semi (codes "';'")
  pure (record { name = t.text; typ = ty; pos = pos_at t })

-- `( name )`, behind its parenthesis.
unfoldable pub name_in_parens : Bytes → Parser Bytes
name_in_parens what = do t ← expect_ident what; expect t_rparen (codes "')'"); pure t.text

unfoldable pub parse_struct_name : Parser Bytes
parse_struct_name =
    on_kind t_lparen (λ _. name_in_parens (codes "struct name"))
      (on_kind t_ident (λ t. pure t.text) (pure []))

unfoldable pub parse_struct : ℕ → Parser StructDecl
parse_struct n = do
  kw ← expect t_struct (codes "'struct'")
  tps ← maybe_type_params n
  expect t_lbrace (codes "'{")
  ms ← until_brace n (codes "struct body (missing '}')") (parse_member n)
  s ← parse_struct_name
  expect t_semi (codes "';'")
  pure (record { name = s; type_params = tps; members = ms; pos = pos_at kw })

-- `fn name(params) Ret;` with the type that stands for a missing one.
unfoldable pub signature : ℕ → Bytes → Bytes → Bool → Parser MethodSig
signature n what missing dyn = do
  kw ← expect t_func (codes "'fn'")
  t ← expect_ident what
  expect t_lparen (codes "'('")
  ps ← parse_param_list n
  r ← test_if at_type (parse_type n) (pure missing)
  expect t_semi (codes "';'")
  pure (record { name = t.text; params = ps; ret = r; dynamic = dyn; pos = pos_at kw })

unfoldable pub parse_method_sig : ℕ → Parser MethodSig
parse_method_sig n =
    on_word (codes "dynamic") (λ _. signature n (codes "method name") [] true)
      (signature n (codes "method name") [] false)

-- A line of an interface: an interface that it expands, or a method.
pub data InterfaceLine : Type 0 where
  expand_line : Bytes → InterfaceLine
  method_line : MethodSig → InterfaceLine

unfoldable pub expand_rest : Parser InterfaceLine
expand_rest = do
  expect t_interface (codes "'interface'")
  t ← expect_ident (codes "expanded interface name")
  expect t_semi (codes "';'")
  pure (expand_line t.text)

unfoldable pub interface_line : ℕ → Parser InterfaceLine
interface_line n =
    on_word (codes "expand") (λ _. expand_rest)
      (test_if
        (λ c.
          cur_is t_ident c
          && (equal (cur c).text (codes "dynamic") && peek_text_is (codes "expand") c))
        (any_token (codes "line") >> any_token (codes "line") >> expand_rest)
        (do s ← parse_method_sig n; pure (method_line s)))

abbrev pub methods_of : List InterfaceLine → List MethodSig
methods_of [] = []
methods_of (expand_line x ∷ ls) = methods_of ls
methods_of (method_line s ∷ ls) = s ∷ methods_of ls

abbrev pub expands_of : List InterfaceLine → List Bytes
expands_of [] = []
expands_of (expand_line x ∷ ls) = x ∷ expands_of ls
expands_of (method_line s ∷ ls) = expands_of ls

-- The parameters behind the name of an interface are passed over, with `<` and `>` in balance.
unfoldable pub skip_params : ℕ → ℕ → Parser (Unit {0})
skip_params f zero = pure tt
skip_params zero (suc d) = no_fuel
skip_params (suc f) (suc d) = do
  t ← any_token (codes "interface type parameters")
  skip_params f (if t.kind is t_lt then suc (suc d) else if t.kind is t_gt then d else suc d)

unfoldable pub interface_name : ℕ → Parser Bytes
interface_name n =
    on_kind t_lparen (λ _. name_in_parens (codes "interface name"))
      (on_kind t_ident (λ t. on_kind t_lt (λ _. skip_params n 1 >> pure t.text) (pure t.text))
        (pure []))

unfoldable pub parse_interface : ℕ → Parser InterfaceDecl
parse_interface n = do
  kw ← expect t_interface (codes "'interface'")
  expect t_lbrace (codes "'{")
  ls ← until_brace n (codes "interface body (missing '}')") (interface_line n)
  s ← interface_name n
  expect t_semi (codes "';'")
  pure (record { name = s; methods = methods_of ls; expands = expands_of ls; pos = pos_at kw })

-- The type and the interface before the body, each of which can be missing.
unfoldable pub impl_names : Parser (Bytes × Bytes)
impl_names =
    on_kind t_ident (λ t. on_kind t_ident (λ i. pure (t.text, i.text)) (pure (t.text, [])))
      (pure ([], []))

unfoldable pub parse_impl : ℕ → Parser ImplDecl
parse_impl n = do
  kw ← expect t_impl (codes "'impl'")
  tps ← maybe_type_params n
  heads ← impl_names
  expect t_lbrace (codes "'{'")
  ms ← until_brace n (codes "impl body (missing '}')") (parse_func n)
  ty ← on_kind t_ident (λ t. pure t.text) (pure heads.0)
  on_kind t_semi (λ _. pure ty) (pure ty)
  pure (record { iface = heads.1; typ = ty; type_params = tps; methods = ms; pos = pos_at kw })
