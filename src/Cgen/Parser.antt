-- ===== src/Cgen/Parser.antt =====
-- compiler/internal/cgen/cgen.go: the state of the compiler's parser and its steps on characters. A
-- parser stands before the bytes that are left; it knows how many are behind it, and how many of those
-- are opening braces.
pub mod Steps
pub mod Exprs
pub mod Stmts
pub mod Funcs
pub mod Program
mod Tests
use quark_lang.Base.{
  Bool, Bytes, [], codes, false, if◌then◌else◌, leb, length, ltb, not, starts, true, ℕ, ◌&&◌, ◌+◌,
  ◌==◌, ◌||◌, ◌∷◌,
}
use quark_lang.Base.Result.{Result, err, ok, out_of_fuel}

pub data CParseError : Type 0 where
  -- With the position.
  expected_char : ℕ → ℕ → CParseError
  expected_identifier : ℕ → CParseError
  unterminated_block unterminated_string unexpected_end signature_unsupported : CParseError
  unexpected_char : ℕ → CParseError
  only_println no_equals only_declarations : Bytes → CParseError
  func_should_be_fn : CParseError

pub record Spot : Type 0 where
  pub pos : ℕ
  pub braces : ℕ
  pub rest : Bytes

abbrev pub brace : ℕ → ℕ
brace c = if c == b'{' then 1 else 0

-- `p.pos++`.
abbrev pub bump : Spot → Spot
bump s = elim s.rest [
  | [] ↦ record s { pos = s.pos + 1 }
  | c ∷ cs ↦ record { pos = s.pos + 1; braces = s.braces + brace c; rest = cs }
]

abbrev pub at_eof : Spot → Bool
at_eof s = elim s.rest [ [] ↦ true | c ∷ cs ↦ false ]

abbrev pub at_char : ℕ → Spot → Bool
at_char ch s = elim s.rest [ [] ↦ false | c ∷ cs ↦ c == ch ]

-- The text stands here, and more behind it.
unfoldable pub at_text : Bytes → Spot → Bool
unfolding starts
at_text w s = starts w s.rest && ltb (length w) (length s.rest)

-- `isIdentStart` and `isIdentPart`.
unfoldable pub ident_start : ℕ → Bool
ident_start c = c == b'_' || leb b'a' c && leb c b'z' || leb b'A' c && leb c b'Z'

abbrev pub is_decimal : ℕ → Bool
is_decimal c = leb b'0' c && leb c b'9'

unfoldable pub ident_part : ℕ → Bool
unfolding ident_start
ident_part c = ident_start c || is_decimal c

abbrev pub at_class : (ℕ → Bool) → Spot → Bool
at_class p s = elim s.rest [ [] ↦ false | c ∷ cs ↦ p c ]

abbrev pub is_blank : ℕ → Bool
is_blank c = c == b' ' || c == 9 || c == 13 || c == 10

-- The loop of `skipSpace`, inside a comment or not.
unfoldable pub skip_from : Bool → ℕ → ℕ → Bytes → Spot
unfolding starts
skip_from inside pos br [] = record { pos = pos; braces = br; rest = [] }
skip_from true pos br (c ∷ cs) = skip_from (not (c == 10)) (pos + 1) (br + brace c) cs
skip_from false pos br (c ∷ cs) =
    let on = skip_from (not (is_blank c)) (pos + 1) br cs in
    if is_blank c || starts (codes "//") (c ∷ cs)
    then on
    else record { pos = pos; braces = br; rest = c ∷ cs }

-- `skipSpace`.
unfoldable pub skipped : Spot → Spot
unfolding skip_from
skipped s = skip_from false s.pos s.braces s.rest

-- The loop of `lexIdent` and of others: the bytes of a class, and where they end.
unfoldable pub span_from : (ℕ → Bool) → ℕ → ℕ → Bytes → Bytes × Spot
span_from p pos br [] = ([], record { pos = pos; braces = br; rest = [] })
span_from p pos br (c ∷ cs) =
    let more = span_from p (pos + 1) (br + brace c) cs in
    if p c then (c ∷ more.0, more.1) else ([], record { pos = pos; braces = br; rest = c ∷ cs })

unfoldable pub span : (ℕ → Bool) → Spot → Bytes × Spot
unfolding span_from
span p s = span_from p s.pos s.braces s.rest

abbrev pub CParser {ℓ} : Type ℓ → Type ℓ
CParser A = Spot → Result CParseError (A × Spot)

module _ {ℓ} {A : Type ℓ} where
  unfoldable pub value : A → CParser A
  value a s = ok (a, s)

  unfoldable pub no_fuel_left : CParser A
  no_fuel_left s = out_of_fuel

  unfoldable pub refuse : CParseError → CParser A
  refuse e s = err e

  -- An error with the position.
  unfoldable pub refuse_at : (ℕ → CParseError) → CParser A
  refuse_at e s = err (e s.pos)

  unfoldable pub when : (Spot → Bool) → CParser A → CParser A → CParser A
  when b hit miss s = if b s then hit s else miss s

  -- `if p.pos < len(p.src) && p.src[p.pos] == ch { p.pos++ ... }`.
  unfoldable pub on_char : ℕ → CParser A → CParser A → CParser A
  on_char ch hit miss s = if at_char ch s then hit (bump s) else miss s

  -- The same for a class of characters, with the characters of a second class.
  unfoldable pub on_span : (ℕ → Bool) → (ℕ → Bool) → (Bytes → CParser A) → CParser A → CParser A
  on_span p q hit miss s = if at_class p s then hit (span q s).0 (span q s).1 else miss s

module _ {ℓ κ} {A : Type ℓ} {B : Type κ} where
  abbrev pub pass_on :
      Result CParseError (A × Spot) → (A → CParser B) → Result CParseError (B × Spot)
  pass_on (ok (a, s)) f = f a s
  pass_on (err e) f = err e
  pass_on out_of_fuel f = out_of_fuel

  infixl 1 ◌>>=◌ ◌>>◌
  unfoldable pub ◌>>=◌ : CParser A → (A → CParser B) → CParser B
  (m >>= f) s = pass_on (m s) f

  unfoldable pub ◌>>◌ : CParser A → CParser B → CParser B
  m >> k = m >>= λ _. k

-- Moves that never fail.
unfoldable pub move : (Spot → Spot) → CParser (Unit {0})
move f s = ok (tt, f s)

unfoldable pub space : CParser (Unit {0})
space s = ok (tt, skipped s)

-- `expect`.
unfoldable pub expect_char : ℕ → CParser (Unit {0})
expect_char ch = on_char ch (value tt) (refuse_at (expected_char ch))

unfoldable pub optional_char : ℕ → CParser (Unit {0})
optional_char ch = on_char ch (value tt) (value tt)

-- `lexIdent`.
unfoldable pub lex_word : CParser Bytes
lex_word s = ok (span ident_part s)

-- `expectIdent`.
unfoldable pub expect_word : CParser Bytes
expect_word = on_span ident_start ident_part value (refuse_at expected_identifier)
