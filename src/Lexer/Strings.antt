-- ===== src/Lexer/Strings.antt =====
-- internal/lang/token.go: what is read back from string literals.
use quark_lang.Base.{
  ==_iff, All, Bool-cases, Bytes, [], ap, append-nil, append_assoc, arith, false, if◌then◌else◌,
  inl, inr, length, refl, some, true, ℕ, ◌*◌, ◌++◌, ◌+◌, ◌==◌, ◌∙◌, ◌∷◌, ◌≡◌, ◌⊎◌,
}
use quark_lang.Base.Result.{ok}
use quark_lang.Lexer.{dispatch, next}
use quark_lang.Lexer.Literals.{escaped, lex_raw_string, raw_end, string_from, token}
use quark_lang.Lexer.State.{at_, next_col, next_line}
use quark_lang.Lexer.Words.{next-StartsToken, slice-append}
use quark_lang.Token.{t_str}

-- A text as a string literal holds it: a quote, a backslash and the three control bytes that have
-- an escape are written by it.
abbrev pub escape_byte : ℕ → Bytes
escape_byte c =
    if c == b'\n'
    then b'\\' ∷ b'n' ∷ []
    else if c == b'\t'
    then b'\\' ∷ b't' ∷ []
    else if c == b'\r'
    then b'\\' ∷ b'r' ∷ []
    else if c == b'"'
    then b'\\' ∷ b'"' ∷ []
    else if c == b'\\'
    then b'\\' ∷ b'\\' ∷ []
    else c ∷ []

-- The escaped text, a closing quote, and what follows.
unfoldable pub escape_onto : Bytes → Bytes → Bytes
escape_onto [] rest = b'"' ∷ rest
escape_onto (c ∷ cs) rest = escape_byte c ++ escape_onto cs rest

-- A byte is written as itself, or by a backslash and a letter that the lexer takes for it.
abbrev Plain : ℕ → Type 0
Plain c =
    (escape_byte c ≡ c ∷ [])
    × ((c == b'"') ≡ false)
    × ((c == b'\\') ≡ false)
    × ((c == b'\n') ≡ false)

abbrev Coded : ℕ → Type 0
Coded c = (e : ℕ) × (escape_byte c ≡ b'\\' ∷ e ∷ []) × (escaped e ≡ c ∷ []) × ((e == b'\n') ≡ false)

coded :
    (c d e : ℕ)
    → (c == d) ≡ true
    → escape_byte d ≡ b'\\' ∷ e ∷ []
    → escaped e ≡ d ∷ []
    → (e == b'\n') ≡ false
    → Coded c
coded c d e h p q r = rw ((==_iff c d).0 h) (e, p, q, r)

escape_byte-cases : (c : ℕ) → Plain c ⊎ Coded c
escape_byte-cases c = elim (Bool-cases (c == b'\n')) [
  | inl h ↦ inr (coded c b'\n' b'n' h refl refl refl)
  | inr n ↦ elim (Bool-cases (c == b'\t')) [
    | inl h ↦ inr (coded c b'\t' b't' h refl refl refl)
    | inr t ↦ elim (Bool-cases (c == b'\r')) [
      | inl h ↦ inr (coded c b'\r' b'r' h refl refl refl)
      | inr r ↦ elim (Bool-cases (c == b'"')) [
        | inl h ↦ inr (coded c b'"' b'"' h refl refl refl)
        | inr q ↦ elim (Bool-cases (c == b'\\')) [
          | inl h ↦ inr (coded c b'\\' b'\\' h refl refl refl)
          | inr b ↦ inl (rw (n, t, r, q, b), q, b, n)
        ]
      ]
    ]
  ]
]

escape_onto-cons : (s rest : Bytes) → (e : ℕ) × (more : Bytes) × (escape_onto s rest ≡ e ∷ more)
unfolding escape_onto
escape_onto-cons [] rest = (b'"', rest, refl)
escape_onto-cons (c ∷ cs) rest = elim (escape_byte-cases c) [
  | inl (p, _, _, _) ↦ (c, escape_onto cs rest, ap (λ w. w ++ escape_onto cs rest) p)
  | inr (e, p, _, _) ↦ (b'\\', e ∷ escape_onto cs rest, ap (λ w. w ++ escape_onto cs rest) p)
]

string_from-quote :
    (l0 k0 : ℕ) (sb rest : Bytes) (l k : ℕ)
    → string_from l0 k0 sb (b'"' ∷ rest) l k ≡ ok (token t_str sb l0 k0, at_ rest l (k + 1))
unfolding string_from
string_from-quote l0 k0 sb [] l k = refl
string_from-quote l0 k0 sb (c ∷ rest) l k = refl

string_from-plain :
    (l0 k0 : ℕ) (sb : Bytes) (c e : ℕ) (more : Bytes) (l k : ℕ)
    → (c == b'"') ≡ false
    → (c == b'\\') ≡ false
    → string_from l0 k0 sb (c ∷ e ∷ more) l k
      ≡ string_from l0 k0 (sb ++ c ∷ []) (e ∷ more) (next_line c l) (next_col c k)
unfolding string_from
string_from-plain l0 k0 sb c e more l k q b = rw (q, b)

string_from-coded :
    (l0 k0 : ℕ) (sb : Bytes) (e : ℕ) (more : Bytes) (l k : ℕ)
    → string_from l0 k0 sb (b'\\' ∷ e ∷ more) l k
      ≡ string_from l0 k0 (sb ++ escaped e) more (next_line e l) (next_col e (k + 1))
unfolding string_from
string_from-coded l0 k0 sb e more l k = refl

string_from-escape_byte :
    (l0 k0 : ℕ) (sb : Bytes) (c e : ℕ) (more : Bytes) (l k : ℕ)
    → string_from l0 k0 sb (escape_byte c ++ e ∷ more) l k
      ≡ string_from l0 k0 (sb ++ c ∷ []) (e ∷ more) l (k + length (escape_byte c))
string_from-escape_byte l0 k0 sb c e more l k = elim (escape_byte-cases c) [
  | inl (p, q, b, n) ↦ rw p (string_from-plain l0 k0 sb c e more l k q b ∙ rw n)
  | inr (d, p, q, n) ↦ rw p (
      string_from-coded l0 k0 sb d (e ∷ more) l k
      ∙ rw (q, n) (ap (string_from l0 k0 (sb ++ c ∷ []) (e ∷ more) l) (omega arith)))
]

-- The columns that the escaped text takes.
abbrev pub width : Bytes → ℕ
width [] = 0
width (c ∷ cs) = length (escape_byte c) + width cs

string_from-escape_onto :
    (s rest : Bytes) (l0 k0 : ℕ) (sb : Bytes) (l k : ℕ)
    → string_from l0 k0 sb (escape_onto s rest) l k
      ≡ ok (token t_str (sb ++ s) l0 k0, at_ rest l (k + width s + 1))
unfolding escape_onto
string_from-escape_onto [] rest l0 k0 sb l k =
    string_from-quote l0 k0 sb rest l k ∙ rw append-nil (ground arith)
string_from-escape_onto (c ∷ s) rest l0 k0 sb l k =
    let (e, more, p) = escape_onto-cons s rest in
    let ih = string_from-escape_onto s rest l0 k0 (sb ++ c ∷ []) l (k + length (escape_byte c)) in
    rw p
      (string_from-escape_byte l0 k0 sb c e more l k ∙ rw p at ih ∙ rw append_assoc (ground arith))

-- A text that is escaped and put in quotes is read back as one string token with that text,
-- whatever bytes it holds and whatever follows.
pub next-quoted :
    (s rest : Bytes) (l k : ℕ)
    → next (at_ (b'"' ∷ escape_onto s rest) l k)
      ≡ ok (token t_str s l k, at_ rest l (k + width s + 2))
unfolding dispatch string_from
next-quoted s rest l k =
    next-StartsToken b'"' (escape_onto s rest) l k (refl, λ e. absurd (omega arith))
    ∙ string_from-escape_onto s rest l k [] l (k + 1)
    ∙ ap (λ n. ok (token t_str s l k, at_ rest l n)) (omega arith)

-- The newlines of a text.
abbrev pub newlines : Bytes → ℕ
newlines [] = 0
newlines (c ∷ cs) = (if c == b'\n' then 1 else 0) + newlines cs

abbrev pub IsBackquoteFree : Bytes → Type 0
IsBackquoteFree s = All (λ c. (c == b'`') ≡ false) s

raw_end-append :
    (s rest : Bytes) (l k : ℕ)
    → IsBackquoteFree s
    → (k' : ℕ) × (raw_end (s ++ b'`' ∷ rest) l k ≡ some (at_ (b'`' ∷ rest) (l + 2 * newlines s) k'))
unfolding raw_end
raw_end-append [] rest l k h = (k, ground arith)
raw_end-append (c ∷ s) rest l k (h, hs) = elim (Bool-cases (c == b'\n')) [
  | inl n ↦
      let (k', ih) = raw_end-append s rest (l + 1 + 1) 1 hs in
      (k', rw (h, n) (ih ∙ ap (λ m. some (at_ (b'`' ∷ rest) m k')) (omega arith)))
  | inr n ↦
      let (k', ih) = raw_end-append s rest l (k + 1) hs in
      (k', rw (h, n) (ih ∙ ap (λ m. some (at_ (b'`' ∷ rest) m k')) (omega arith)))
]

lex_raw_string-append :
    (s rest : Bytes) (l k k' : ℕ) (n : ℕ)
    → raw_end (s ++ b'`' ∷ rest) l (k + 1) ≡ some (at_ (b'`' ∷ rest) n k')
    → lex_raw_string (at_ (b'`' ∷ (s ++ b'`' ∷ rest)) l k)
      ≡ ok (token t_str s l k, at_ rest n (k' + 1))
unfolding lex_raw_string
lex_raw_string-append s rest l k k' n e =
    rw (e, lex_raw_string) (rw (slice-append s (b'`' ∷ rest) l (k + 1) n k'))

-- A raw string is read back as one string token that holds every byte between the backquotes, the
-- carriage returns too, and the lines are then counted twice for each newline in it.
pub next-raw :
    (s rest : Bytes) (l k : ℕ)
    → IsBackquoteFree s
    → (k' : ℕ) × (next (at_ (b'`' ∷ (s ++ b'`' ∷ rest)) l k)
        ≡ ok (token t_str s l k, at_ rest (l + 2 * newlines s) k'))
unfolding dispatch
next-raw s rest l k h =
    let (k', e) = raw_end-append s rest l (k + 1) h in
    (
      k' + 1,
      next-StartsToken b'`' (s ++ b'`' ∷ rest) l k (refl, λ e. absurd (omega arith))
          ∙ lex_raw_string-append s rest l k k' (l + 2 * newlines s) e,
    )
