-- ===== src/Parser/Types.antt =====
-- internal/lang/parser.go: `parseType`, whose result is the text of the annotation.
pub mod Ends
use quark_lang.Base.{Bytes, codes, equal, if◌then◌else◌, not, suc, zero, ℕ, ◌&&◌, ◌++◌, ◌-◌}
use quark_lang.Parser.{
  Parser, any_token, expect, expect_ident, no_fuel, on_kind, peek_is, pure, test_if, ◌>>=◌, ◌>>◌,
}
use quark_lang.Token.{
  Kind, Token, t_amper, t_gt, t_int, t_interface, t_lbrace, t_lbracket, t_lt, t_minus, t_rbrace,
  t_rbracket, t_shr, ◌is◌,
}

-- The loop of `function<...>`: it ends when the depth is 0, and it does not count `>>`.
unfoldable pub function_args : ℕ → ℕ → Bytes → Parser Bytes
function_args f zero name = pure name
function_args zero (suc d) name = no_fuel
function_args (suc f) (suc d) name = do
  t ← any_token (codes "function type")
  function_args f (if t.kind is t_lt then suc (suc d) else if t.kind is t_gt then d else suc d)
      (name ++ t.text)

-- The loop of the type arguments; `>>` closes two.
abbrev pub depth_after_arg : Kind → ℕ → ℕ
depth_after_arg k d =
    if k is t_lt then suc (suc d) else if k is t_gt then d else if k is t_shr then d - 1 else suc d

abbrev pub arg_text : Token → Bytes
arg_text t = if t.kind is t_shr then codes ">>" else t.text

unfoldable pub type_args : ℕ → ℕ → Bytes → Parser Bytes
type_args f zero name = pure name
type_args zero (suc d) name = no_fuel
type_args (suc f) (suc d) name = do
  t ← any_token (codes "type arguments")
  type_args f (depth_after_arg t.kind d) (name ++ arg_text t)

-- `&`.
unfoldable pub pointer_suffix : Bytes → Parser Bytes
pointer_suffix name = on_kind t_amper (λ _. pure (name ++ codes "&")) (pure name)

-- `[]` and `[Copyd]`; the size of `new` is left.
unfoldable pub array_suffix : Bytes → Parser Bytes
array_suffix name =
    test_if (λ c. not (peek_is t_int c) && not (peek_is t_minus c))
      (on_kind t_lbracket
        (λ _.
          on_kind t_rbracket (λ _. pointer_suffix (name ++ codes "[]"))
            do
              inner ← expect_ident (codes "type suffix (e.g. Copyd)")
              expect t_rbracket (codes "']'")
              pointer_suffix (name ++ (codes "[" ++ (inner.text ++ codes "]"))))
        (pointer_suffix name))
      (pointer_suffix name)

unfoldable pub generic_suffix : ℕ → Bytes → Parser Bytes
generic_suffix zero name = no_fuel
generic_suffix (suc f) name =
    on_kind t_lt (λ _. do name' ← type_args f 1 (name ++ codes "<"); generic_suffix f name')
      (array_suffix name)

-- What follows the name of a type; `pointed` reads the type of a pointer.
unfoldable pub parse_named : ℕ → Bytes → Parser Bytes → Parser Bytes
parse_named f name pointed =
    test_if (λ _. equal name (codes "function"))
      (on_kind t_lt (λ _. function_args f 1 (name ++ codes "<")) (generic_suffix f name))
      (test_if (λ _. equal name (codes "pointer")) pointed (generic_suffix f name))

unfoldable pub parse_type : ℕ → Parser Bytes
parse_type zero = no_fuel
parse_type (suc f) =
    on_kind t_interface
      (λ _. do
        expect t_lbrace (codes "'{'")
        expect t_rbrace (codes "'}'")
        pure (codes "interface{}"))
      do
        t ← expect_ident (codes "type name")
        parse_named f t.text (do rest ← parse_type f; pure (codes "pointer " ++ rest))
