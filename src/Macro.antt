-- ===== src/Macro.antt =====
-- internal/lang/macro.go: macro definitions, the errors of macro expansion, and delimiters. A
-- position in a token slice is held as the rest of the slice from there on.
pub mod Balance
pub mod Stream
pub mod Body
pub mod Expand
pub mod Define
mod Tests
use quark_lang.Base.{Bool, Bytes, List, Option, none, some, ℕ, ◌||◌}
use quark_lang.Token.{
  Kind, Token, t_lbrace, t_lbracket, t_lparen, t_rbrace, t_rbracket, t_rparen, ◌is◌,
}

-- `Pos` (internal/lang/ast.go).
pub record Pos : Type 0 where
  pub line : ℕ
  pub col : ℕ

abbrev pub pos_of : Token → Pos
pos_of t = record { line = t.line; col = t.col }

abbrev pub Tokens : Type 0
Tokens = List Token

-- `MacroDef` (internal/lang/ast.go).
pub record MacroDef : Type 0 where
  pub name : Bytes
  pub params : List Bytes
  pub body : Tokens
  pub pos : Pos

-- The errors of the file, each with what its message shows; the last number is the line.
pub data MacroError : Type 0 where
  needs_name unpaired : ℕ → MacroError
  no_params params_open bad_param no_body body_open : Bytes → ℕ → MacroError
  bad_arity : Bytes → ℕ → ℕ → ℕ → MacroError
  needs_command when_condition when_block error_message execute_name : ℕ → MacroError
  needs_parens not_a_param unknown_command user_error : Bytes → ℕ → MacroError
  bad_ast : MacroError
  in_macro : Bytes → MacroError → MacroError

-- `closeOf`: the right delimiter of a left one.
unfoldable pub close_of : Kind → Option Kind
close_of t_lparen = some t_rparen
close_of t_lbracket = some t_rbracket
close_of t_lbrace = some t_rbrace
close_of _ = none

abbrev pub is_open : Kind → Bool
is_open k = k is t_lparen || k is t_lbracket || k is t_lbrace

abbrev pub is_close : Kind → Bool
is_close k = k is t_rparen || k is t_rbracket || k is t_rbrace
