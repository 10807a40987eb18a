-- ===== src/Parser.antt =====
-- internal/lang/parser.go: the parser's state and its steps. A parser stands at the token before the
-- others that are left; the tokens behind it are needed only as far as the last one. `Parse` is given
-- the tokens of `Lex` after the macros, which end with the one end-of-file token.

pub mod Steps
pub mod Gives
pub mod Types
pub mod Exprs
pub mod Lists
pub mod Stmts
pub mod Decls
pub mod Programs
pub mod Tests
use quark_lang.Base.{
  Bool, Bytes, Option, [], equal, false, if◌then◌else◌, ltb, not, some, ℕ, ◌&&◌, ◌||◌, ◌∷◌,
}
use quark_lang.Base.Result.{Result, err, ok, out_of_fuel}
use quark_lang.Lexer.Literals.{token}
use quark_lang.Macro.{Tokens}
use quark_lang.Token.{Kind, Token, iota, t_eof, t_ident, t_lparen, t_str, ◌is◌}

pub data ParseMsg : Type 0 where
  -- "expected %s, got %s".
  expected : Bytes → Kind → ParseMsg
  unterminated : Bytes → ParseMsg
  int_out_of_range : ℕ → ParseMsg
  unexpected : Kind → ParseMsg
  scope_needs_ident sign_needs_call sign_twice : ParseMsg
  needs_return_type : Bytes → ParseMsg
  only_signatures bad_program_kind program_twice bad_pub func_is_fn : ParseMsg

pub record ParseError : Type 0 where
  pub msg : ParseMsg
  pub line : ℕ
  pub col : ℕ

pub record Cursor : Type 0 where
  pub before : Option Token
  pub toks : Tokens

-- `p.toks[p.i]`; without any token the program panics.
abbrev pub first_token : Tokens → Token
first_token [] = token t_eof [] 0 0
first_token (t ∷ ts) = t

abbrev pub cur : Cursor → Token
cur c = first_token c.toks

abbrev pub cur_is : Kind → Cursor → Bool
cur_is k c = (cur c).kind is k

-- `peekIs`.
abbrev pub peek_is : Kind → Cursor → Bool
peek_is k c = elim c.toks [ t ∷ u ∷ ts ↦ u.kind is k | _ ↦ false ]

-- `peek`: the last token stands for the one behind it.
abbrev pub peek_token : Cursor → Token
peek_token c = elim c.toks [ t ∷ u ∷ ts ↦ u | _ ↦ cur c ]

-- `peekTextIs`.
abbrev pub peek_text_is : Bytes → Cursor → Bool
peek_text_is w c = elim c.toks [ t ∷ u ∷ ts ↦ not (u.kind is t_eof) && equal u.text w | _ ↦ false ]

abbrev pub moved : Option Token → Tokens → Cursor
moved b (t ∷ u ∷ ts) = record { before = some t; toks = u ∷ ts }
moved b ts = record { before = b; toks = ts }

-- `advance`, which does not go beyond the last token.
abbrev pub advanced : Cursor → Cursor
advanced c = moved c.before c.toks

abbrev pub Parser {ℓ} : Type ℓ → Type ℓ
Parser A = Cursor → Result ParseError (A × Cursor)

module _ {ℓ} {A : Type ℓ} where
  unfoldable pub pure : A → Parser A
  pure a c = ok (a, c)

  unfoldable pub no_fuel : Parser A
  no_fuel c = out_of_fuel

  -- `return nil, p.errf(tok, ...)`.
  unfoldable pub fail_at : Token → ParseMsg → Parser A
  fail_at t m c = err (record { msg = m; line = t.line; col = t.col })

  unfoldable pub fail_here : (Kind → ParseMsg) → Parser A
  fail_here m c = err (record { msg = m (cur c).kind; line = (cur c).line; col = (cur c).col })

  -- A test of the state.
  unfoldable pub test_if : (Cursor → Bool) → Parser A → Parser A → Parser A
  test_if b hit miss c = if b c then hit c else miss c

  -- `if p.curIs(k) { t := p.advance(); ... }`.
  unfoldable pub on_kind : Kind → (Token → Parser A) → Parser A → Parser A
  on_kind k hit miss c = if cur_is k c then hit (cur c) (advanced c) else miss c

  -- The same for an identifier with this text.
  unfoldable pub on_word : Bytes → (Token → Parser A) → Parser A → Parser A
  unfolding equal
  on_word w hit miss c =
      if cur_is t_ident c && equal (cur c).text w then hit (cur c) (advanced c) else miss c

unfoldable pub here_token : Parser Token
here_token c = ok (cur c, c)

unfoldable pub token_before : Parser (Option Token)
token_before c = ok (c.before, c)

-- `if p.curIs(TEOF) { return ... }`, and `p.advance()`.
unfoldable pub any_token : Bytes → Parser Token
any_token what c =
    if cur_is t_eof c
    then err (record { msg = unterminated what; line = (cur c).line; col = (cur c).col })
    else ok (cur c, advanced c)

unfoldable pub expect : Kind → Bytes → Parser Token
unfolding on_kind pure fail_here
expect k what = on_kind k pure (fail_here (expected what))

abbrev pub expect_ident : Bytes → Parser Token
expect_ident what = expect t_ident what

-- `isWordToken`.
unfoldable pub is_word_token : Kind → Bool
is_word_token k = k is t_ident || ltb (iota t_str) (iota k) && ltb (iota k) (iota t_lparen)

unfoldable pub expect_member_name : Bytes → Parser Token
unfolding is_word_token
expect_member_name what c =
    if is_word_token (cur c).kind
    then ok (cur c, advanced c)
    else err (record { msg = expected what (cur c).kind; line = (cur c).line; col = (cur c).col })

module _ {ℓ κ} {A : Type ℓ} {B : Type κ} where
  abbrev pub feed : Result ParseError (A × Cursor) → (A → Parser B) → Result ParseError (B × Cursor)
  feed (ok (a, c)) f = f a c
  feed (err e) f = err e
  feed out_of_fuel f = out_of_fuel

  infixl 1 ◌>>=◌ ◌>>◌
  unfoldable pub ◌>>=◌ : Parser A → (A → Parser B) → Parser B
  (m >>= f) c = feed (m c) f

  unfoldable pub ◌>>◌ : Parser A → Parser B → Parser B
  unfolding ◌>>=◌
  m >> k = m >>= λ _. k
