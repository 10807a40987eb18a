-- ===== src/Lexer/Words.antt =====
-- internal/lang/token.go: numbers and words are read whole, and their texts are kept as written.
use quark_lang.Base.{
  All, Bool, Bool-cases, Bytes, [], ap, arith, false, if◌then◌else◌, inl, inr, leb, length,
  length-append, lookup, refl, take-length_append, true, ℕ, ◌&&◌, ◌++◌, ◌+◌, ◌-◌, ◌==◌, ◌∙◌, ◌∷◌,
  ◌≡◌, ◌≢◌,
}
use quark_lang.Base.Result.{ok}
use quark_lang.Lexer.{dispatch, next}
use quark_lang.Lexer.Literals.{
  digits_value, lex_ident, lex_int, lex_number, max_int64, parse_int, token, word_kind,
}
use quark_lang.Lexer.State.{
  Lexer, advance_while, at_, byte_at, fail, invalid_int, is_digit, is_ident_part, is_ident_start,
  is_space, next_col, next_line, skip_space, skip_space_from, slice, space_round, stop,
}
use quark_lang.Token.{t_int}
use quark_lang.Token.Names.{keywords}

-- The input does not go on with a byte that passes the test.
abbrev pub StopsAt : (ℕ → Bool) → Bytes → Type 0
StopsAt p [] = Unit
StopsAt p (c ∷ cs) = p c ≡ false

abbrev pub Passes : (ℕ → Bool) → Bytes → Type 0
Passes p cs = All (λ c. p c ≡ true) cs

pub advance_while-append :
    (p : ℕ → Bool) (cs rest : Bytes) (l k : ℕ)
    → p b'\n' ≡ false
    → Passes p cs
    → StopsAt p rest
    → advance_while p (cs ++ rest) l k ≡ at_ rest l (k + length cs)
unfolding advance_while
advance_while-append p [] [] l k n h s = ground arith
advance_while-append p [] (c ∷ rest) l k n h s = rw s (ground arith)
advance_while-append p (c ∷ cs) rest l k n h s =
    let ne : c ≢ b'\n' = λ e. cc (n, h.0, ap p e) in
    rw h.0
      (rw (advance_while-append p cs rest (next_line c l) (next_col c k) n h.1 s) (ground arith))

pub slice-append :
    (cs rest : Bytes) (l k l' k' : ℕ) → slice (at_ (cs ++ rest) l k) (at_ rest l' k') ≡ cs
slice-append cs rest l k l' k' =
    let e : length (cs ++ rest) - length rest ≡ length cs = omega (arith, length-append cs rest) in
    rw e (take-length_append cs rest)

-- A byte that begins neither a space nor a comment.
abbrev pub StartsToken : ℕ → Type 0
StartsToken c = (is_space c ≡ false) × (c ≢ b'/')

space_round-StartsToken :
    (c : ℕ) (cs : Bytes) (l k : ℕ) → StartsToken c → space_round c cs l k ≡ stop
unfolding space_round
space_round-StartsToken c cs l k (h, n) =
    let slash : (c == b'/') ≡ false = ground arith in rw (h, slash)

pub skip_space-StartsToken :
    (c : ℕ) (cs : Bytes) (l k : ℕ)
    → StartsToken c
    → skip_space (at_ (c ∷ cs) l k) ≡ ok (at_ (c ∷ cs) l k)
unfolding skip_space
skip_space-StartsToken c cs l k h = rw (space_round-StartsToken c cs l k h, skip_space_from)

pub next-StartsToken :
    (c : ℕ) (cs : Bytes) (l k : ℕ)
    → StartsToken c
    → next (at_ (c ∷ cs) l k) ≡ dispatch (c ∷ cs) (at_ (c ∷ cs) l k)
unfolding next
next-StartsToken c cs l k h = rw (skip_space-StartsToken c cs l k h)

lex_ident-append :
    (w rest : Bytes) (l k : ℕ)
    → Passes is_ident_part w
    → StopsAt is_ident_part rest
    → lex_ident (at_ (w ++ rest) l k)
      ≡ ok (token (word_kind (lookup w keywords)) w l k, at_ rest l (k + length w))
unfolding lex_ident
lex_ident-append w rest l k h s =
    rw (advance_while-append is_ident_part w rest l k (unfold is_ident_part in refl) h s)
      (rw (slice-append w rest l k l (k + length w)))

lex_number-append :
    (w rest : Bytes) (l k : ℕ)
    → Passes is_digit w
    → StopsAt is_digit rest
    → (byte_at rest 0 == b'.' && is_digit (byte_at rest 1)) ≡ false
    → lex_number (at_ (w ++ rest) l k) ≡ lex_int l k (at_ rest l (k + length w)) w (parse_int w)
unfolding lex_number
lex_number-append w rest l k h s d =
    rw (advance_while-append is_digit w rest l k (unfold is_digit in refl) h s)
      (rw (d, slice-append w rest l k l (k + length w)))

starts_word :
    (c : ℕ)
    → is_ident_start c ≡ true
    → StartsToken c × (is_digit c ≡ false) × (c ≢ b'"') × (c ≢ b'`') × (is_ident_part c ≡ true)
unfolding is_ident_start is_digit is_ident_part
starts_word c h = ground arith

dispatch_word :
    (c : ℕ) (cs : Bytes) (l k : ℕ)
    → is_ident_start c ≡ true
    → is_digit c ≡ false
    → c ≢ b'"'
    → c ≢ b'`'
    → dispatch (c ∷ cs) (at_ (c ∷ cs) l k) ≡ lex_ident (at_ (c ∷ cs) l k)
unfolding dispatch
dispatch_word c cs l k h d q b =
    let quote : (c == b'"') ≡ false = ground arith in
    let back : (c == b'`') ≡ false = ground arith in rw (d, quote, back, h)

starts_digits : (c : ℕ) → is_digit c ≡ true → StartsToken c
unfolding is_digit
starts_digits c h = ground arith

dispatch_digits :
    (c : ℕ) (cs : Bytes) (l k : ℕ)
    → is_digit c ≡ true
    → dispatch (c ∷ cs) (at_ (c ∷ cs) l k) ≡ lex_number (at_ (c ∷ cs) l k)
unfolding dispatch
dispatch_digits c cs l k h = rw h

lex_int-parse_int :
    (w : Bytes) (l k : ℕ) (e : Lexer)
    → lex_int l k e w (parse_int w) ≡ (
        if leb (digits_value 0 w) max_int64
        then ok (record (token t_int w l k) { int = digits_value 0 w }, e)
        else fail l k (invalid_int w))
unfolding parse_int
lex_int-parse_int w l k e = elim (Bool-cases (leb (digits_value 0 w) max_int64)) [
  | inl h ↦ rw h
  | inr h ↦ rw h
]

-- A word that is followed by no letter, digit or underscore is one token: of a keyword's kind
-- exactly if it stands in the keyword table, and an identifier otherwise.
pub next-word :
    (c : ℕ) (cs rest : Bytes) (l k : ℕ)
    → is_ident_start c ≡ true
    → Passes is_ident_part cs
    → StopsAt is_ident_part rest
    → next (at_ ((c ∷ cs) ++ rest) l k)
      ≡ ok (
        token (word_kind (lookup (c ∷ cs) keywords)) (c ∷ cs) l k,
        at_ rest l (k + length (c ∷ cs)),
      )
next-word c cs rest l k h hs s =
    let (start, digit, quote, back, part) = starts_word c h in
    next-StartsToken c (cs ++ rest) l k start
    ∙ dispatch_word c (cs ++ rest) l k h digit quote back
    ∙ lex_ident-append (c ∷ cs) rest l k (part, hs) s

-- A run of digits with no fraction behind it is one token: an int literal of their value, or an
-- error if that is no int64.
pub next-digits :
    (c : ℕ) (cs rest : Bytes) (l k : ℕ)
    → Passes is_digit (c ∷ cs)
    → StopsAt is_digit rest
    → (byte_at rest 0 == b'.' && is_digit (byte_at rest 1)) ≡ false
    → next (at_ ((c ∷ cs) ++ rest) l k) ≡ (
        if leb (digits_value 0 (c ∷ cs)) max_int64
        then ok (
          record (token t_int (c ∷ cs) l k) { int = digits_value 0 (c ∷ cs) },
          at_ rest l (k + length (c ∷ cs)),
        )
        else fail l k (invalid_int (c ∷ cs)))
next-digits c cs rest l k h s d =
    next-StartsToken c (cs ++ rest) l k (starts_digits c h.0)
    ∙ dispatch_digits c (cs ++ rest) l k h.0
    ∙ lex_number-append (c ∷ cs) rest l k h s d
    ∙ lex_int-parse_int (c ∷ cs) l k (at_ rest l (k + length (c ∷ cs)))
