-- ===== src/Lexer.antt =====
-- internal/lang/token.go: `next` and `Lex`.
pub mod State
pub mod Literals
pub mod Shrink
pub mod Progress
pub mod Words
pub mod Strings
mod Tests
use quark_lang.Base.{Bytes, List, [], codes, if◌then◌else◌, length, suc, zero, ℕ, ◌==◌, ◌∷◌}
use quark_lang.Base.Result.{Result, ok, out_of_fuel, ◌>>=◌}
use quark_lang.Lexer.Literals.{lex_ident, lex_number, lex_raw_string, lex_string, token}
use quark_lang.Lexer.State.{
  LexError, Lexer, advance, at_, fail, is_digit, is_ident_start, peek_byte_at, skip_space,
  unexpected_bar, unexpected_char,
}
use quark_lang.Token.{
  Kind, Token, t_amper, t_and, t_assign, t_at, t_bang, t_colon, t_comma, t_dot, t_eof, t_eq, t_ge,
  t_gt, t_lbrace, t_lbracket, t_le, t_lparen, t_lt, t_minus, t_ne, t_or, t_percent, t_plus,
  t_rbrace, t_rbracket, t_rparen, t_scope, t_semi, t_sharp, t_shl, t_shr, t_slash, t_star, ◌is◌,
}

-- `one(k)`, and the tokens of two bytes.
abbrev one : ℕ → Lexer → Kind → Result LexError (Token × Lexer)
one c lx k = ok (token k (c ∷ []) lx.line lx.col, advance lx)

abbrev two : Bytes → Lexer → Kind → Result LexError (Token × Lexer)
two t lx k = ok (token k t lx.line lx.col, advance (advance lx))

-- The `switch c` of `next`, at the first byte `c` of `lx`.
unfoldable pub lex_punct : ℕ → Lexer → Result LexError (Token × Lexer)
lex_punct c lx =
    let d = peek_byte_at lx 1 in
    if c == b'#'
    then one c lx t_sharp
    else if c == b'('
    then one c lx t_lparen
    else if c == b')'
    then one c lx t_rparen
    else if c == b'{'
    then one c lx t_lbrace
    else if c == b'}'
    then one c lx t_rbrace
    else if c == b'['
    then one c lx t_lbracket
    else if c == b']'
    then one c lx t_rbracket
    else if c == b';'
    then one c lx t_semi
    else if c == b','
    then one c lx t_comma
    else if c == b'.'
    then one c lx t_dot
    else if c == b'@'
    then one c lx t_at
    else if c == b'+'
    then one c lx t_plus
    else if c == b'-'
    then one c lx t_minus
    else if c == b'*'
    then one c lx t_star
    else if c == b'/'
    then one c lx t_slash
    else if c == b'%'
    then one c lx t_percent
    else if c == b'='
    then (if d == b'=' then two (codes "==") lx t_eq else one c lx t_assign)
    else if c == b'!'
    then (if d == b'=' then two (codes "!=") lx t_ne else one c lx t_bang)
    else if c == b'<'
    then (if d == b'='
        then two (codes "<=") lx t_le
        else if d == b'<'
        then two (codes "<<") lx t_shl
        else one c lx t_lt)
    else if c == b'>'
    then (if d == b'='
        then two (codes ">=") lx t_ge
        else if d == b'>'
        then two (codes ">>") lx t_shr
        else one c lx t_gt)
    else if c == b':'
    then (if d == b':' then two (codes "::") lx t_scope else one c lx t_colon)
    else if c == b'&'
    then (if d == b'&' then two (codes "&&") lx t_and else one c lx t_amper)
    else if c == b'|'
    then (if d == b'|' then two (codes "||") lx t_or else fail lx.line lx.col unexpected_bar)
    else fail lx.line lx.col (unexpected_char c)

-- `next` behind `skipSpace`.
unfoldable pub dispatch : Bytes → Lexer → Result LexError (Token × Lexer)
unfolding lex_number lex_string lex_raw_string lex_ident lex_punct is_digit is_ident_start
dispatch [] lx = ok (token t_eof [] lx.line lx.col, lx)
dispatch (c ∷ cs) lx =
    if is_digit c
    then lex_number lx
    else if c == b'"'
    then lex_string lx
    else if c == b'`'
    then lex_raw_string lx
    else if is_ident_start c
    then lex_ident lx
    else lex_punct c lx

unfoldable pub next : Lexer → Result LexError (Token × Lexer)
unfolding skip_space dispatch
next lx = skip_space lx >>= λ s. dispatch s.rest s

-- `Lex`, on fuel; each round but the last reads a byte or more.
unfoldable pub lex_from : ℕ → Lexer → Result LexError (List Token)
unfolding next
lex_from zero lx = out_of_fuel
lex_from (suc f) lx = next lx >>= λ (tok, after).
    let more = lex_from f after in
    if tok.kind is t_eof then ok (tok ∷ []) else more >>= λ toks. ok (tok ∷ toks)

unfoldable pub lex : Bytes → Result LexError (List Token)
unfolding lex_from
lex src = lex_from (suc (length src)) (at_ src 1 1)
