-- ===== src/Lexer/Progress.antt =====
-- internal/lang/token.go: every token but the last takes a byte or more, so that `Lex` ends.
use quark_lang.Base.{
  Bool-cases, Bytes, List, Option, [], arith, false, inl, inr, length, none, refl, some, suc, true,
  zero, ℕ, ◌&&◌, ◌++◌, ◌+◌, ◌<◌, ◌==◌, ◌∷◌, ◌≡◌, ◌≢◌, ◌≤◌, ◌⊎◌,
}
use quark_lang.Base.Result.{Ensures, Ensures->>=, Ensures-if, Ensures-weaken, Result, ok}
use quark_lang.Lexer.{dispatch, lex, lex_from, lex_punct, next}
use quark_lang.Lexer.Literals.{
  escaped, lex_float, lex_ident, lex_int, lex_number, lex_raw_string, lex_string, parse_int,
  raw_end, string_from, token,
}
use quark_lang.Lexer.Shrink.{Shorter, advance-le, advance_while-le, advance_while-lt, skip_space-le}
use quark_lang.Lexer.State.{
  LexError, Lexer, advance, advance_while, at_, fail, is_digit, is_ident_part, is_ident_start,
  next_col, next_line, peek_byte, peek_byte_at, skip_space, slice, unterminated_raw,
}
use quark_lang.Token.{Token, is_iff, t_eof, t_str, ◌is◌}

-- What a token leaves is shorter than what it was read from, but for the end of the input.
abbrev pub Consumes : ℕ → Token × Lexer → Type 0
Consumes n (t, e) = length e.rest < n

lex_int-Consumes :
    (n l k : ℕ) (e : Lexer) (text : Bytes) (o : Option ℕ)
    → length e.rest < n
    → Ensures (Consumes n) (lex_int l k e text o)
lex_int-Consumes n l k e text none h = tt
lex_int-Consumes n l k e text (some m) h = h

lex_float-Consumes :
    (n l k : ℕ) (e : Lexer) (whole text : Bytes)
    → length e.rest < n
    → Ensures (Consumes n) (lex_float l k e whole text)
lex_float-Consumes n l k e whole text h = ground arith

lex_number-Consumes :
    (c : ℕ) (cs : Bytes) (l k : ℕ)
    → is_digit c ≡ true
    → Ensures (Consumes (length (c ∷ cs))) (lex_number (at_ (c ∷ cs) l k))
unfolding lex_number
lex_number-Consumes c cs l k h =
    let whole = advance_while is_digit (c ∷ cs) l k in
    let dot = advance whole in
    let read = advance_while-lt is_digit c cs l k h in
    Ensures-if (Consumes (length (c ∷ cs)))
      (peek_byte whole == b'.' && is_digit (peek_byte_at whole 1)) _ _
      (λ _.
        lex_float-Consumes (length (c ∷ cs)) l k (advance_while is_digit dot.rest dot.line dot.col)
          (slice (at_ (c ∷ cs) l k) whole)
          (slice (at_ (c ∷ cs) l k) (advance_while is_digit dot.rest dot.line dot.col))
          (omega
            (arith, read, advance-le whole, advance_while-le is_digit dot.rest dot.line dot.col)))
      (λ _.
        lex_int-Consumes (length (c ∷ cs)) l k whole (slice (at_ (c ∷ cs) l k) whole)
          (parse_int (slice (at_ (c ∷ cs) l k) whole)) read)

string_from-Consumes :
    (l0 k0 : ℕ) (sb : Bytes) (bs : Bytes) (l k : ℕ)
    → Ensures (Consumes (suc (length bs))) (string_from l0 k0 sb bs l k)
unfolding string_from
string_from-Consumes l0 k0 sb [] l k = tt
string_from-Consumes l0 k0 sb (c ∷ []) l k = ground arith
string_from-Consumes l0 k0 sb (c ∷ e ∷ cs) l k =
    let P = Consumes (suc (length (c ∷ e ∷ cs))) in
    Ensures-if P (c == b'"') _ _ (λ _. omega arith)
      λ _.
        Ensures-if P (c == b'\\') _ _
          (λ _.
            Ensures-weaken (Consumes (suc (length cs))) P _ (λ a h. omega arith)
              (string_from-Consumes l0 k0 (sb ++ escaped e) cs (next_line e (next_line c l))
                (next_col e (next_col c k))))
          (λ _.
            Ensures-weaken (Consumes (suc (length (e ∷ cs)))) P _ (λ a h. omega arith)
              (string_from-Consumes l0 k0 (sb ++ c ∷ []) (e ∷ cs) (next_line c l) (next_col c k)))

lex_string-Consumes :
    (c : ℕ) (cs : Bytes) (l k : ℕ)
    → Ensures (Consumes (length (c ∷ cs))) (lex_string (at_ (c ∷ cs) l k))
unfolding lex_string
lex_string-Consumes c cs l k = string_from-Consumes l k [] cs (next_line c l) (next_col c k)

raw_end-Shorter : (bs : Bytes) (l k : ℕ) → Shorter (length bs) (raw_end bs l k)
unfolding raw_end
raw_end-Shorter [] l k = tt
raw_end-Shorter (c ∷ cs) l k = elim (Bool-cases (c == b'`')) [
  | inl e ↦ rw e (omega arith)
  | inr e ↦ rw e (
      ground (
        arith,
        raw_end-Shorter cs (next_line c (l + 1)) (next_col c 0),
        raw_end-Shorter cs (next_line c l) (next_col c k),
      ))
]

lex_raw_string-Consumes :
    (c : ℕ) (cs : Bytes) (l k : ℕ)
    → Ensures (Consumes (length (c ∷ cs))) (lex_raw_string (at_ (c ∷ cs) l k))
unfolding lex_raw_string
lex_raw_string-Consumes c cs l k =
    go (raw_end cs (next_line c l) (next_col c k))
      (raw_end-Shorter cs (next_line c l) (next_col c k))
  where
    go :
        (o : Option Lexer)
        → Shorter (length cs) o
        → Ensures (Consumes (length (c ∷ cs))) (elim o [
          | none ↦ fail l k unterminated_raw
          | some e ↦
              ok (token t_str (slice (at_ cs (next_line c l) (next_col c k)) e) l k, advance e)
        ])
    go none h = tt
    go (some e) h = omega (arith, advance-le e)

lex_ident-Consumes :
    (c : ℕ) (cs : Bytes) (l k : ℕ)
    → is_ident_start c ≡ true
    → Ensures (Consumes (length (c ∷ cs))) (lex_ident (at_ (c ∷ cs) l k))
unfolding lex_ident
lex_ident-Consumes c cs l k h =
    advance_while-lt is_ident_part c cs l k (unfold is_ident_part in rw h)

lex_punct-Consumes :
    (c : ℕ) (cs : Bytes) (l k : ℕ)
    → Ensures (Consumes (length (c ∷ cs))) (lex_punct c (at_ (c ∷ cs) l k))
unfolding lex_punct
lex_punct-Consumes c cs l k = ground (arith, advance-le (at_ cs (next_line c l) (next_col c k)))

-- `next` behind the space: it is at the end, or it reads a byte or more.
pub dispatch-Consumes :
    (bs : Bytes) (l k : ℕ)
    → Ensures (λ r. (r.0.kind ≡ t_eof) ⊎ Consumes (length bs) r) (dispatch bs (at_ bs l k))
unfolding dispatch
dispatch-Consumes [] l k = inl refl
dispatch-Consumes (c ∷ cs) l k =
    Ensures-if P (is_digit c) _ _
      (λ h. any (lex_number (at_ (c ∷ cs) l k)) (lex_number-Consumes c cs l k h))
      λ _.
        Ensures-if P (c == b'"') _ _
          (λ _. any (lex_string (at_ (c ∷ cs) l k)) (lex_string-Consumes c cs l k))
          λ _.
            Ensures-if P (c == b'`') _ _
              (λ _. any (lex_raw_string (at_ (c ∷ cs) l k)) (lex_raw_string-Consumes c cs l k))
              λ _.
                Ensures-if P (is_ident_start c) _ _
                  (λ h. any (lex_ident (at_ (c ∷ cs) l k)) (lex_ident-Consumes c cs l k h))
                  λ _. any (lex_punct c (at_ (c ∷ cs) l k)) (lex_punct-Consumes c cs l k)
  where
    P : Token × Lexer → Type 0
    P r = (r.0.kind ≡ t_eof) ⊎ Consumes (length (c ∷ cs)) r

    any :
        (r : Result LexError (Token × Lexer)) → Ensures (Consumes (length (c ∷ cs))) r → Ensures P r
    any r = Ensures-weaken (Consumes (length (c ∷ cs))) P r (λ a h. inr h)

-- `ts` is a token list as `Lex` returns it: its last token, and only that, is of kind `t_eof`.
abbrev pub IsStream : List Token → Type 0
IsStream [] = ⊥
IsStream (t ∷ []) = t.kind ≡ t_eof
IsStream (t ∷ u ∷ ts) = (t.kind ≢ t_eof) × IsStream (u ∷ ts)

pub cons-IsStream : (t : Token) (ts : List Token) → t.kind ≢ t_eof → IsStream ts → IsStream (t ∷ ts)
cons-IsStream t [] h k = absurd k
cons-IsStream t (u ∷ ts) h k = (h, k)

next-Consumes :
    (lx : Lexer) → Ensures (λ r. (r.0.kind ≡ t_eof) ⊎ Consumes (length lx.rest) r) (next lx)
unfolding next
next-Consumes lx =
    Ensures->>= (λ e. length e.rest ≤ length lx.rest)
      (λ r. (r.0.kind ≡ t_eof) ⊎ Consumes (length lx.rest) r) (skip_space lx)
      (λ s. dispatch s.rest s) (skip_space-le lx)
      λ s h.
        Ensures-weaken (λ r. (r.0.kind ≡ t_eof) ⊎ Consumes (length s.rest) r) _ (dispatch s.rest s)
          (λ r. weaken s h r) (dispatch-Consumes s.rest s.line s.col)
  where
    weaken :
        (s : Lexer)
        → length s.rest ≤ length lx.rest
        → (r : Token × Lexer) → (r.0.kind ≡ t_eof) ⊎ Consumes (length s.rest) r
        → (r.0.kind ≡ t_eof) ⊎ Consumes (length lx.rest) r
    weaken s h r (inl e) = inl e
    weaken s h r (inr c) = inr (omega arith)

lex_from-IsStream : (f : ℕ) (lx : Lexer) → length lx.rest < f → Ensures IsStream (lex_from f lx)
unfolding lex_from
lex_from-IsStream zero lx h = elim h [ ]
lex_from-IsStream (suc f) lx h =
    Ensures->>= (λ r. (r.0.kind ≡ t_eof) ⊎ Consumes (length lx.rest) r) IsStream (next lx) _
      (next-Consumes lx)
      λ (tok, after) c. elim (Bool-cases (tok.kind is t_eof)) [
        | inl e ↦ rw e ((is_iff tok.kind t_eof).0 e)
        | inr e ↦ rw e (
            Ensures->>= IsStream IsStream (lex_from f after) _
              (lex_from-IsStream f after (later tok after c e))
              λ ts s. cons-IsStream tok ts (λ q. cc (e, (is_iff tok.kind t_eof).1 q)) s)
      ]
  where
    later :
        (tok : Token) (after : Lexer)
        → (tok.kind ≡ t_eof) ⊎ Consumes (length lx.rest) (tok, after)
        → (tok.kind is t_eof) ≡ false
        → length after.rest < f
    later tok after (inl q) e = cc (e, (is_iff tok.kind t_eof).1 q)
    later tok after (inr c) e = omega arith

-- `Lex` ends on every source: the fuel of one round for each byte and one more is enough. If it
-- returns tokens, the last one is the end of file, and no other is.
pub lex-IsStream : (src : Bytes) → Ensures IsStream (lex src)
unfolding lex
lex-IsStream src = lex_from-IsStream (suc (length src)) (at_ src 1 1) (omega arith)
