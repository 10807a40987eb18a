-- ===== src/Lexer/Tests.antt =====
-- Runs of the lexer on small sources.
use quark_lang.Base.{
  Bytes, List, [], codes, if◌then◌else◌, leb, length, lookup, refl, ℕ, ◌*◌, ◌++◌, ◌+◌, ◌∷◌, ◌≡◌,
}
use quark_lang.Base.Result.{Ensures, Result, ok}
use quark_lang.Lexer.{lex, next}
use quark_lang.Lexer.Literals.{digits_value, max_int64, token, word_kind}
use quark_lang.Lexer.Progress.{IsStream, lex-IsStream}
use quark_lang.Lexer.State.{
  LexError, at_, fail, invalid_int, is_digit, is_ident_part, is_ident_start,
}
use quark_lang.Lexer.Strings.{escape_onto, newlines, next-quoted, next-raw, width}
use quark_lang.Lexer.Words.{next-digits, next-word}
use quark_lang.Token.{Kind, Token, t_eof, t_float, t_func, t_ge, t_ident, t_int, t_or, t_str}
use quark_lang.Token.Names.{keywords}

abbrev shown : Result LexError (List Token) → List (Kind × Bytes × ℕ)
shown (ok []) = []
shown (ok (t ∷ ts)) = (t.kind, t.text, t.line) ∷ shown (ok ts)
shown _ = []

statement :
    shown (lex (codes "fn f1 /* a\n*/ >= 12 // b\n\"x\\ty\\q\" 1.5|| "))
    ≡ (t_func, codes "fn", 1)
      ∷ (t_ident, codes "f1", 1)
      ∷ (t_ge, codes ">=", 2)
      ∷ (t_int, codes "12", 2)
      ∷ (t_str, codes "x\ty\\q", 3)
      ∷ (t_float, codes "1.5", 3)
      ∷ (t_or, codes "||", 3)
      ∷ (t_eof, [], 3)
      ∷ []
unfolding lex
statement = refl

lex-IsStream_example : Ensures IsStream (lex (codes "a = 1; // b"))
lex-IsStream_example = lex-IsStream (codes "a = 1; // b")

next-quoted_example :
    next (at_ (b'"' ∷ escape_onto (codes "a\n\"\\") (codes " + 1")) 3 7)
    ≡ ok (token t_str (codes "a\n\"\\") 3 7, at_ (codes " + 1") 3 (7 + width (codes "a\n\"\\") + 2))
next-quoted_example = next-quoted (codes "a\n\"\\") (codes " + 1") 3 7

next-word_example :
    next (at_ (codes "return" ++ codes " x") 2 5)
    ≡ ok (
      token (word_kind (lookup (codes "return") keywords)) (codes "return") 2 5,
      at_ (codes " x") 2 (5 + length (codes "return")),
    )
unfolding is_ident_start is_ident_part is_digit
next-word_example =
    next-word b'r' (codes "eturn") (codes " x") 2 5 refl (refl, (refl, (refl, (refl, (refl, tt)))))
      refl

next-digits_example : next (at_ (codes "10" ++ codes ".f") 1 1) ≡ (
    if leb (digits_value 0 (codes "10")) max_int64
    then ok (
      record (token t_int (codes "10") 1 1) { int = digits_value 0 (codes "10") },
      at_ (codes ".f") 1 (1 + length (codes "10")),
    )
    else fail 1 1 (invalid_int (codes "10")))
unfolding is_digit
next-digits_example = next-digits b'1' (codes "0") (codes ".f") 1 1 (refl, (refl, tt)) refl refl

next-raw_example :
    (k' : ℕ) × (next (at_ (b'`' ∷ (codes "a\nb\r" ++ b'`' ∷ codes "+ 1")) 4 2)
      ≡ ok (
        token t_str (codes "a\nb\r") 4 2,
        at_ (codes "+ 1") (4 + 2 * newlines (codes "a\nb\r")) k',
      ))
next-raw_example = next-raw (codes "a\nb\r") (codes "+ 1") 4 2 (refl, (refl, (refl, (refl, tt))))
