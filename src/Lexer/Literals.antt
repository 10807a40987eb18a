-- ===== src/Lexer/Literals.antt =====
-- internal/lang/token.go: the literals and words (`lexNumber`, `lexString`, `lexRawString`,
-- `lexIdent`). A token's position is that of its first byte.
use quark_lang.Base.{
  Bytes, Option, [], if◌then◌else◌, leb, lookup, ltb, none, some, ℕ, ◌&&◌, ◌*◌, ◌++◌, ◌+◌, ◌-◌,
  ◌==◌, ◌^◌, ◌∷◌,
}
use quark_lang.Base.Result.{Result, ok}
use quark_lang.Lexer.State.{
  LexError, Lexer, advance, advance_while, at_, fail, invalid_float, invalid_int, is_digit,
  is_ident_part, next_col, next_line, peek_byte, peek_byte_at, slice, unterminated_escape,
  unterminated_raw, unterminated_string,
}
use quark_lang.Token.{Kind, Token, t_float, t_ident, t_int, t_str}
use quark_lang.Token.Names.{keywords}

abbrev pub token : Kind → Bytes → ℕ → ℕ → Token
token k t l c = record { kind = k; text = t; int = 0; flt = []; line = l; col = c }

-- The largest int64, and the least integer that `ParseFloat` rounds to infinity.
abbrev pub max_int64 : ℕ
max_int64 = 2 ^ 63 - 1

abbrev pub float_limit : ℕ
float_limit = 2 ^ 1024 - 2 ^ 970

-- The number that a text of decimal digits stands for.
unfoldable pub digits_value : ℕ → Bytes → ℕ
digits_value n [] = n
digits_value n (c ∷ cs) = digits_value (n * 10 + (c - b'0')) cs

-- `strconv.ParseInt(text, 10, 64)` on digits.
unfoldable pub parse_int : Bytes → Option ℕ
unfolding digits_value
parse_int text = let n = digits_value 0 text in if leb n max_int64 then some n else none

abbrev pub lex_int : ℕ → ℕ → Lexer → Bytes → Option ℕ → Result LexError (Token × Lexer)
lex_int l k after text none = fail l k (invalid_int text)
lex_int l k after text (some n) = ok (record (token t_int text l k) { int = n }, after)

-- `strconv.ParseFloat` refuses digits, a dot and digits only if the value is out of range, which
-- the digits before the dot decide.
abbrev pub lex_float : ℕ → ℕ → Lexer → Bytes → Bytes → Result LexError (Token × Lexer)
lex_float l k after whole text =
    if ltb (digits_value 0 whole) float_limit
    then ok (record (token t_float text l k) { flt = text }, after)
    else fail l k (invalid_float text)

unfoldable pub lex_number : Lexer → Result LexError (Token × Lexer)
unfolding advance_while is_digit parse_int
lex_number lx =
    let whole = advance_while is_digit lx.rest lx.line lx.col in
    let dot = advance whole in
    let frac = advance_while is_digit dot.rest dot.line dot.col in
    if peek_byte whole == b'.' && is_digit (peek_byte_at whole 1)
    then lex_float lx.line lx.col frac (slice lx whole) (slice lx frac)
    else lex_int lx.line lx.col whole (slice lx whole) (parse_int (slice lx whole))

-- The loop of `lexString`: the text so far, and the input from the next byte on. A backslash takes
-- the byte behind it too; an unknown escape is kept as it is written.
abbrev pub escaped : ℕ → Bytes
escaped e =
    if e == b'n'
    then b'\n' ∷ []
    else if e == b't'
    then b'\t' ∷ []
    else if e == b'r'
    then b'\r' ∷ []
    else if e == b'"'
    then b'"' ∷ []
    else if e == b'\\'
    then b'\\' ∷ []
    else b'\\' ∷ e ∷ []

unfoldable pub string_from : ℕ → ℕ → Bytes → Bytes → ℕ → ℕ → Result LexError (Token × Lexer)
string_from l0 k0 sb [] l k = fail l0 k0 unterminated_string
string_from l0 k0 sb (c ∷ []) l k =
    if c == b'"'
    then ok (token t_str sb l0 k0, advance (at_ (c ∷ []) l k))
    else if c == b'\\'
    then fail l0 k0 unterminated_escape
    else fail l0 k0 unterminated_string
string_from l0 k0 sb (c ∷ e ∷ cs) l k =
    let plain = string_from l0 k0 (sb ++ c ∷ []) (e ∷ cs) (next_line c l) (next_col c k) in
    let escape =
      string_from l0 k0 (sb ++ escaped e) cs (next_line e (next_line c l))
        (next_col e (next_col c k)) in
    if c == b'"'
    then ok (token t_str sb l0 k0, advance (at_ (c ∷ e ∷ cs) l k))
    else if c == b'\\'
    then escape
    else plain

unfoldable pub lex_string : Lexer → Result LexError (Token × Lexer)
unfolding string_from
lex_string lx = let lx' = advance lx in string_from lx.line lx.col [] lx'.rest lx'.line lx'.col

-- The loop of `lexRawString`: at a newline the code counts the line, and `advance` counts it again.
unfoldable pub raw_end : Bytes → ℕ → ℕ → Option Lexer
raw_end [] l k = none
raw_end (c ∷ cs) l k =
    if c == b'`'
    then some (at_ (c ∷ cs) l k)
    else if c == b'\n'
    then raw_end cs (next_line c (l + 1)) (next_col c 0)
    else raw_end cs (next_line c l) (next_col c k)

unfoldable pub lex_raw_string : Lexer → Result LexError (Token × Lexer)
unfolding raw_end
lex_raw_string lx =
    let start = advance lx in
    elim (raw_end start.rest start.line start.col) [
      | none ↦ fail lx.line lx.col unterminated_raw
      | some e ↦ ok (token t_str (slice start e) lx.line lx.col, advance e)
    ]

abbrev pub word_kind : Option Kind → Kind
word_kind (some kw) = kw
word_kind none = t_ident

unfoldable pub lex_ident : Lexer → Result LexError (Token × Lexer)
unfolding advance_while is_ident_part lookup
lex_ident lx =
    let e = advance_while is_ident_part lx.rest lx.line lx.col in
    let text = slice lx e in ok (token (word_kind (lookup text keywords)) text lx.line lx.col, e)
