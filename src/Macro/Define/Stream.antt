-- ===== src/Macro/Define/Stream.antt =====
-- internal/lang/macro.go: `SplitMacroDefs` keeps the end of file at the end.

-- The bodies hold no end of file, and the rest, behind the token `p`, ends with it.
use mathlib.Core.List.{tail}
use quark_lang.Base.{
  All, Bool, Bool-cases, Bytes, List, Option, [], false, inl, inr, length, none, not, refl, some,
  suc, sym, true, zero, ℕ, ◌||◌, ◌∙◌, ◌∷◌, ◌≡◌, ◌≢◌,
}
use quark_lang.Lexer.Literals.{token}
use quark_lang.Lexer.Progress.{IsStream, cons-IsStream}
use quark_lang.Macro.{MacroDef, Tokens, close_of}
use quark_lang.Macro.Balance.{split_top}
use quark_lang.Macro.Body.{kind_at}
use quark_lang.Macro.Define.{
  Split, add_def, add_token, define, define_body, define_params, param_names, split_defs_from,
  split_macro_defs, split_round,
}
use quark_lang.Macro.Stream.{
  >>=-Yields, IsInner, Yields, Yields-weaken, any-Yields, choice-Yields, fails, if-Yields, runs_out,
  tail-IsStream, take_balanced-IsCut, yields,
}
use quark_lang.Token.{Kind, Token, is_iff, t_comma, t_eof, t_ident, t_macro, t_sharp, ◌is◌}

abbrev IsSplit : Token → List MacroDef × Tokens → Type 0
IsSplit p (defs, rest) = All (λ m. IsInner m.body) defs × IsStream (p ∷ rest)

add_def-IsSplit :
    (p : Token) (m : MacroDef) {r : Split}
    → IsInner m.body
    → Yields (IsSplit p) r
    → Yields (IsSplit p) (add_def m r)
add_def-IsSplit p m h (yields (k, l)) = yields ((h, k), l)
add_def-IsSplit p m h fails = fails
add_def-IsSplit p m h runs_out = runs_out

add_token-IsSplit :
    (p t : Token) {r : Split}
    → p.kind ≢ t_eof
    → Yields (IsSplit t) r
    → Yields (IsSplit p) (add_token t r)
add_token-IsSplit p t n (yields {a = (defs, rest)} (k, l)) =
    yields (k, cons-IsStream p (t ∷ rest) n l)
add_token-IsSplit p t n fails = fails
add_token-IsSplit p t n runs_out = runs_out

second_holds : (a b : Bool) → (not a || not b) ≡ false → b ≡ true
second_holds true true e = refl
second_holds true false e = cc
second_holds false b e = cc

kind-ne-eof : (k c : Kind) → (c is k) ≡ true → k ≢ t_eof → c ≢ t_eof
kind-ne-eof k c e n = λ q. n (sym ((is_iff c k).0 e) ∙ q)

module _ (p : Token) (go : Tokens → Split)
    (ends : (us : Tokens) → IsStream us → Yields (IsSplit p) (go us)) (t : Token) where
  define_body-IsSplit :
      (name : Bytes) (names : List Bytes) (o : Option Kind) (ts : Tokens)
      → IsStream ts
      → Yields (IsSplit p) (define_body go t name names o ts)
  unfolding define_body
  define_body-IsSplit name names none ts h = search (choice-Yields, fails)
  define_body-IsSplit name names (some close) ts h =
      >>=-Yields (take_balanced-IsCut close ts h)
        λ (inner, after) (k, l). add_def-IsSplit p _ k (ends after l)

  define_params-IsSplit :
      (name : Bytes) (o : Option Kind) (ts : Tokens)
      → IsStream ts
      → Yields (IsSplit p) (define_params go t name o ts)
  unfolding define_params
  define_params-IsSplit name none ts h = search (choice-Yields, fails)
  define_params-IsSplit name (some close) ts h =
      >>=-Yields (take_balanced-IsCut close ts h) λ (inner, after) (k, l).
        >>=-Yields (any-Yields (param_names name t.line (split_top inner)))
          λ names _. define_body-IsSplit name names (close_of (kind_at after 0)) after l

  define-IsSplit : (ts : Tokens) → IsStream ts → Yields (IsSplit p) (define go t ts)
  unfolding define
  define-IsSplit [] h = fails
  define-IsSplit (u ∷ ts) h = elim (Bool-cases (u.kind is t_ident)) [
    | inl e ↦ rw e (
        define_params-IsSplit u.text (close_of (kind_at ts 0)) ts
          (tail-IsStream u ts (kind-ne-eof t_ident u.kind e (λ q. cc)) h))
    | inr e ↦ rw e fails
  ]

  -- A definition begins with `#` and `macro`.
  define_tail-IsSplit :
      (ts : Tokens)
      → (not (t.kind is t_sharp) || not (kind_at ts 0 is t_macro)) ≡ false
      → IsStream (t ∷ ts)
      → Yields (IsSplit p) (define go t (tail ts))
  define_tail-IsSplit [] e h =
      absurd (empty (second_holds (t.kind is t_sharp) (kind_at [] 0 is t_macro) e))
    where
      empty : (t_eof is t_macro) ≡ true → ⊥
      empty q = cc
  define_tail-IsSplit (u ∷ ts) e h = define-IsSplit ts (
      tail-IsStream u ts
        (kind-ne-eof t_macro u.kind (second_holds (t.kind is t_sharp) (u.kind is t_macro) e)
          (λ q. cc))
        h.1)

split_defs_from-IsSplit :
    (f : ℕ) (p : Token) (ts : Tokens)
    → IsStream (p ∷ ts)
    → Yields (IsSplit p) (split_defs_from f ts)
unfolding split_defs_from split_round
split_defs_from-IsSplit zero p ts h = runs_out
split_defs_from-IsSplit (suc f) p [] h = yields (tt, h)
split_defs_from-IsSplit (suc f) p (t ∷ ts) (n, h) =
    if-Yields (not (t.kind is t_sharp) || not (kind_at ts 0 is t_macro))
      (λ _. add_token-IsSplit p t n (split_defs_from-IsSplit f t ts h))
      (λ e.
        define_tail-IsSplit p (split_defs_from f)
          (λ us k. split_defs_from-IsSplit f p us (cons-IsStream p us n k)) t ts e h)

-- From tokens that end with the end of file, and hold no other, `SplitMacroDefs` makes bodies without it
-- and a rest that ends with it, and holds no other.
pub split_macro_defs-Yields :
    (ts : Tokens)
    → IsStream ts
    → Yields (λ (defs, rest). All (λ m. IsInner m.body) defs × IsStream rest) (split_macro_defs ts)
unfolding split_macro_defs
split_macro_defs-Yields ts h =
    Yields-weaken (λ (defs, rest) (k, l). (k, tail-IsStream first rest (λ q. cc) l))
      (split_defs_from-IsSplit (suc (length ts)) first ts (cons-IsStream first ts (λ q. cc) h))
  where
    first : Token
    first = token t_comma [] 0 0
