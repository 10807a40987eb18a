-- ===== src/Lexer/Shrink.antt =====
-- internal/lang/token.go: what is left of the source after white space, comments and runs of bytes.

use quark_lang.Base.{
  Bool, Bool-cases, Bytes, Option, [], arith, false, if◌then◌else◌, inl, inr, length, none, not,
  refl, some, suc, true, zero, ℕ, ◌&&◌, ◌<◌, ◌==◌, ◌∷◌, ◌≡◌, ◌≤◌,
}
use quark_lang.Base.Result.{Ensures, Ensures-weaken, ok}
use quark_lang.Lexer.State.{
  Lexer, Round, advance, advance_on, advance_while, again, at_, byte_at, closed, fail, is_space,
  next_col, next_line, skip_block, skip_space, skip_space_from, space_round, stop, unclosed,
  unterminated_comment,
}

pub advance-le : (lx : Lexer) → length (advance lx).rest ≤ length lx.rest
advance-le lx = go lx.rest lx.line lx.col
  where
    go : (bs : Bytes) (l k : ℕ) → length (advance_on bs l k).rest ≤ length bs
    go [] l k = omega arith
    go (c ∷ cs) l k = omega arith

pub advance_while-le :
    (p : ℕ → Bool) (bs : Bytes) (l k : ℕ) → length (advance_while p bs l k).rest ≤ length bs
unfolding advance_while
advance_while-le p [] l k = omega arith
advance_while-le p (c ∷ cs) l k =
    ground (arith, advance_while-le p cs (next_line c l) (next_col c k))

-- At a byte that passes the test the loop makes a round.
pub advance_while-lt :
    (p : ℕ → Bool) (c : ℕ) (cs : Bytes) (l k : ℕ)
    → p c ≡ true
    → length (advance_while p (c ∷ cs) l k).rest < length (c ∷ cs)
unfolding advance_while
advance_while-lt p c cs l k h =
    rw h (omega (arith, advance_while-le p cs (next_line c l) (next_col c k)))

abbrev pub Shorter : ℕ → Option Lexer → Type 0
Shorter n none = Unit
Shorter n (some e) = length e.rest ≤ n

Shorter-suc : (n : ℕ) (o : Option Lexer) → Shorter n o → Shorter (suc n) o
Shorter-suc n none h = tt
Shorter-suc n (some e) h = omega arith

skip_block-Shorter : (bs : Bytes) (l k : ℕ) → Shorter (length bs) (skip_block bs l k)
unfolding skip_block
skip_block-Shorter [] l k = tt
skip_block-Shorter (c ∷ cs) l k = elim (Bool-cases (c == b'*' && byte_at cs 0 == b'/')) [
  | inl e ↦ rw e (omega (arith, advance-le (at_ cs (next_line c l) (next_col c k))))
  | inr e ↦ rw e (
      Shorter-suc _ (skip_block cs (next_line c l) (next_col c k))
        (skip_block-Shorter cs (next_line c l) (next_col c k)))
]

abbrev IsSmaller : ℕ → Round → Type 0
IsSmaller n stop = Unit
IsSmaller n unclosed = Unit
IsSmaller n (again e) = length e.rest < n

closed-IsSmaller : (n : ℕ) (o : Option Lexer) → Shorter n o → IsSmaller (suc n) (closed o)
closed-IsSmaller n none h = tt
closed-IsSmaller n (some e) h = omega arith

IsSmaller-if :
    (n : ℕ) (b : Bool) (x y : Round)
    → (b ≡ true → IsSmaller n x)
    → (b ≡ false → IsSmaller n y)
    → IsSmaller n (if b then x else y)
IsSmaller-if n true x y h k = h refl
IsSmaller-if n false x y h k = k refl

slash-ne-newline : (c b : ℕ) → (c == b'/' && b == b'/') ≡ true → not (c == b'\n') ≡ true
slash-ne-newline c b h = ground arith

Shorter-le : (m n : ℕ) (o : Option Lexer) → m ≤ n → Shorter m o → Shorter n o
Shorter-le m n none l h = tt
Shorter-le m n (some e) l h = omega arith

space_round-IsSmaller :
    (c : ℕ) (cs : Bytes) (l k : ℕ) → IsSmaller (length (c ∷ cs)) (space_round c cs l k)
unfolding space_round
space_round-IsSmaller c cs l k =
    IsSmaller-if _ (is_space c) _ _ (λ _. omega arith)
      λ _.
        IsSmaller-if _ (c == b'/' && byte_at cs 0 == b'/') _ _
          (λ e.
            advance_while-lt (λ b. not (b == b'\n')) c cs l k (slash-ne-newline c (byte_at cs 0) e))
          λ _.
            IsSmaller-if _ (c == b'/' && byte_at cs 0 == b'*') _ _
              (λ _.
                let opened = advance (at_ cs (next_line c l) (next_col c k)) in
                closed-IsSmaller (length cs) _ (
                  Shorter-le _ _ _ (advance-le (at_ cs (next_line c l) (next_col c k)))
                    (skip_block-Shorter opened.rest opened.line opened.col)))
              (λ _. tt)

skip_space_from-le :
    (f : ℕ) (bs : Bytes) (l k : ℕ)
    → length bs < f
    → Ensures (λ e. length e.rest ≤ length bs) (skip_space_from f bs l k)
unfolding skip_space_from
skip_space_from-le zero bs l k h = elim h [ ]
skip_space_from-le (suc f) [] l k h = omega arith
skip_space_from-le (suc f) (c ∷ cs) l k h =
    go (space_round c cs l k) (space_round-IsSmaller c cs l k) (skip_space_from-le f)
  where
    go :
        (r : Round)
        → IsSmaller (length (c ∷ cs)) r
        → ((bs : Bytes) (l k : ℕ)
            → length bs < f
            → Ensures (λ e. length e.rest ≤ length bs) (skip_space_from f bs l k))
        → Ensures
            (λ e. length e.rest ≤ length (c ∷ cs))
            (elim r [
              | stop ↦ ok (at_ (c ∷ cs) l k)
              | unclosed ↦ fail l k unterminated_comment
              | again e ↦ skip_space_from f e.rest e.line e.col
            ])
    go stop s ih = omega arith
    go unclosed s ih = tt
    go (again e) s ih =
        Ensures-weaken (λ a. length a.rest ≤ length e.rest) (λ a. length a.rest ≤ length (c ∷ cs)) _
          (λ a p. omega arith) (ih e.rest e.line e.col (omega arith))

pub skip_space-le : (lx : Lexer) → Ensures (λ e. length e.rest ≤ length lx.rest) (skip_space lx)
unfolding skip_space
skip_space-le lx = skip_space_from-le (suc (length lx.rest)) lx.rest lx.line lx.col (omega arith)
