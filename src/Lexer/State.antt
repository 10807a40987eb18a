-- ===== src/Lexer/State.antt =====
-- internal/lang/token.go: the lexer's state, its byte classes, and the skipping of space. A lexer
-- holds the unread rest of the source, `src[pos:]`, with the line and column of its first byte.
use quark_lang.Base.{
  Bool, Bytes, Option, [], if◌then◌else◌, leb, length, none, not, some, suc, take, zero, ℕ, ◌&&◌,
  ◌+◌, ◌-◌, ◌==◌, ◌||◌, ◌∷◌,
}
use quark_lang.Base.Result.{Result, err, ok, out_of_fuel}

-- The message of a `LexError`, with what its format string shows.
pub data Msg : Type 0 where
  unterminated_comment unexpected_bar unterminated_raw unterminated_string : Msg
  unterminated_escape : Msg
  unexpected_char : ℕ → Msg
  invalid_int invalid_float : Bytes → Msg

pub record LexError : Type 0 where
  pub msg : Msg
  pub line : ℕ
  pub col : ℕ

pub record Lexer : Type 0 where
  pub rest : Bytes
  pub line : ℕ
  pub col : ℕ

abbrev pub at_ : Bytes → ℕ → ℕ → Lexer
at_ bs l k = record { rest = bs; line = l; col = k }

-- `lx.errf`.
abbrev pub fail {ℓ} : {A : Type ℓ} → ℕ → ℕ → Msg → Result LexError A
fail l k m = err (record { msg = m; line = l; col = k })

-- `lx.src[lx.pos+off]`, or 0 behind the end.
abbrev pub byte_at : Bytes → ℕ → ℕ
byte_at [] i = 0
byte_at (c ∷ cs) zero = c
byte_at (c ∷ cs) (suc i) = byte_at cs i

abbrev pub peek_byte_at : Lexer → ℕ → ℕ
peek_byte_at lx off = byte_at lx.rest off

abbrev pub peek_byte : Lexer → ℕ
peek_byte lx = byte_at lx.rest 0

abbrev pub next_line : ℕ → ℕ → ℕ
next_line c l = if c == b'\n' then l + 1 else l

abbrev pub next_col : ℕ → ℕ → ℕ
next_col c k = if c == b'\n' then 1 else k + 1

abbrev pub advance_on : Bytes → ℕ → ℕ → Lexer
advance_on [] l k = at_ [] l k
advance_on (c ∷ cs) l k = at_ cs (next_line c l) (next_col c k)

abbrev pub advance : Lexer → Lexer
advance lx = advance_on lx.rest lx.line lx.col

-- `src[start.pos:now.pos]`.
abbrev pub slice : Lexer → Lexer → Bytes
slice start now = take (length start.rest - length now.rest) start.rest

unfoldable pub is_digit : ℕ → Bool
is_digit c = leb b'0' c && leb c b'9'

unfoldable pub is_ident_start : ℕ → Bool
is_ident_start c = c == b'_' || leb b'a' c && leb c b'z' || leb b'A' c && leb c b'Z'

unfoldable pub is_ident_part : ℕ → Bool
unfolding is_ident_start is_digit
is_ident_part c = is_ident_start c || is_digit c

-- `for p(lx.peekByte()) { lx.advance() }`, for a test that the 0 behind the end does not pass.
unfoldable pub advance_while : (ℕ → Bool) → Bytes → ℕ → ℕ → Lexer
advance_while p [] l k = at_ [] l k
advance_while p (c ∷ cs) l k =
    if p c then advance_while p cs (next_line c l) (next_col c k) else at_ (c ∷ cs) l k

-- The loop of a block comment: `none` if it is not closed.
unfoldable pub skip_block : Bytes → ℕ → ℕ → Option Lexer
skip_block [] l k = none
skip_block (c ∷ cs) l k =
    if c == b'*' && byte_at cs 0 == b'/'
    then some (advance (advance (at_ (c ∷ cs) l k)))
    else skip_block cs (next_line c l) (next_col c k)

abbrev pub is_space : ℕ → Bool
is_space c = c == b' ' || c == b'\t' || c == b'\r' || c == b'\n'

-- What one round of `skipSpace` finds at the byte `c`.
pub data Round : Type 0 where
  stop unclosed : Round
  again : Lexer → Round

abbrev pub closed : Option Lexer → Round
closed none = unclosed
closed (some e) = again e

unfoldable pub space_round : ℕ → Bytes → ℕ → ℕ → Round
unfolding advance_while skip_block
space_round c cs l k =
    let opened = advance (advance (at_ (c ∷ cs) l k)) in
    if is_space c
    then again (at_ cs (next_line c l) (next_col c k))
    else if c == b'/' && byte_at cs 0 == b'/'
    then again (advance_while (λ b. not (b == b'\n')) (c ∷ cs) l k)
    else if c == b'/' && byte_at cs 0 == b'*'
    then closed (skip_block opened.rest opened.line opened.col)
    else stop

-- The loop, on fuel: a comment's end is not a structural part of the input.
unfoldable pub skip_space_from : ℕ → Bytes → ℕ → ℕ → Result LexError Lexer
unfolding space_round
skip_space_from zero bs l k = out_of_fuel
skip_space_from (suc f) [] l k = ok (at_ [] l k)
skip_space_from (suc f) (c ∷ cs) l k = elim (space_round c cs l k) [
  | stop ↦ ok (at_ (c ∷ cs) l k)
  | unclosed ↦ fail l k unterminated_comment
  | again e ↦ skip_space_from f e.rest e.line e.col
]

unfoldable pub skip_space : Lexer → Result LexError Lexer
unfolding skip_space_from
skip_space lx = skip_space_from (suc (length lx.rest)) lx.rest lx.line lx.col
