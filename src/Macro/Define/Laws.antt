-- ===== src/Macro/Define/Laws.antt =====
-- internal/lang/macro.go: what `SplitMacroDefs` takes out of the tokens.
use mathlib.Core.List.{tail}
use quark_lang.Base.{
  Bool-cases, Bytes, List, Option, [], ap, append_assoc, arith, inl, inr, length, length-append,
  none, refl, some, suc, sym, zero, ℕ, ◌++◌, ◌+◌, ◌<◌, ◌∙◌, ◌∷◌, ◌≡◌, ◌≢◌, ◌≤◌,
}
use quark_lang.Base.Int.{pos}
use quark_lang.Base.Result.{ok, out_of_fuel}
use quark_lang.Macro.{MacroDef, Tokens, close_of, pos_of}
use quark_lang.Macro.Balance.{
  IsNested, close_of-is_close, split_top, take_balanced, take_balanced_iff,
}
use quark_lang.Macro.Body.{kind_at}
use quark_lang.Macro.Body.Fuel.{
  >>=-Ends, Ends, Ends-ne-out_of_fuel, Ensures-Ends, Fits, done, if-Ends, refused,
  take_balanced-Fits,
}
use quark_lang.Macro.Define.{
  Split, add_def, add_token, define, define_body, define_params, param_names, split_defs_from,
  split_macro_defs, split_round,
}
use quark_lang.Token.{Kind, Token, is_iff, t_ident, t_macro, t_sharp, ◌is◌}

param_names-Ends :
    (name : Bytes) (line : ℕ) (parts : List Tokens) → Ends (param_names name line parts)
unfolding param_names
param_names-Ends name line [] = done
param_names-Ends name line ([] ∷ parts) = param_names-Ends name line parts
param_names-Ends name line ((p ∷ []) ∷ parts) =
    let more = param_names-Ends name line parts in search (if-Ends, >>=-Ends, done, refused)
param_names-Ends name line ((p ∷ q ∷ ps) ∷ parts) = refused

add_def-Ends : {r : Split} (m : MacroDef) → Ends r → Ends (add_def m r)
add_def-Ends m done = done
add_def-Ends m refused = refused

add_token-Ends : {r : Split} (t : Token) → Ends r → Ends (add_token t r)
add_token-Ends t done = done
add_token-Ends t refused = refused

length-tail : (ts : Tokens) → length (tail ts) ≤ length ts
length-tail [] = omega arith
length-tail (t ∷ ts) = omega arith

module _ (n : ℕ) (go : Tokens → Split) (ends : (ts : Tokens) → length ts ≤ n → Ends (go ts))
    (t : Token) where
  define_body-Ends :
      (name : Bytes) (names : List Bytes) (o : Option Kind) (ts : Tokens)
      → length ts ≤ n
      → Ends (define_body go t name names o ts)
  unfolding define_body
  define_body-Ends name names none ts h = search (if-Ends, refused)
  define_body-Ends name names (some close) ts h =
      Ensures-Ends (Fits (length ts)) (take_balanced close ts) (take_balanced-Fits close ts)
        λ (inner, after) fits. add_def-Ends _ (ends after (omega arith))

  define_params-Ends :
      (name : Bytes) (o : Option Kind) (ts : Tokens)
      → length ts ≤ n
      → Ends (define_params go t name o ts)
  unfolding define_params
  define_params-Ends name none ts h = search (if-Ends, refused)
  define_params-Ends name (some close) ts h =
      Ensures-Ends (Fits (length ts)) (take_balanced close ts) (take_balanced-Fits close ts)
        λ (inner, after) fits.
          >>=-Ends (param_names-Ends name t.line (split_top inner))
            λ names. define_body-Ends name names (close_of (kind_at after 0)) after (omega arith)

  define-Ends : (ts : Tokens) → length ts ≤ n → Ends (define go t ts)
  unfolding define
  define-Ends [] h = refused
  define-Ends (u ∷ ts) h =
      let params = define_params-Ends u.text (close_of (kind_at ts 0)) ts (omega arith) in
      search (if-Ends, refused)

  split_round-Ends : (ts : Tokens) → length ts ≤ n → Ends (split_round go t ts)
  unfolding split_round
  split_round-Ends ts h =
      let kept = add_token-Ends t (ends ts h) in
      let def = define-Ends (tail ts) (omega (arith, length-tail ts)) in search if-Ends

split_defs_from-Ends : (f : ℕ) (ts : Tokens) → length ts < f → Ends (split_defs_from f ts)
unfolding split_defs_from
split_defs_from-Ends zero ts h = elim h [ ]
split_defs_from-Ends (suc f) [] h = done
split_defs_from-Ends (suc f) (t ∷ ts) h =
    split_round-Ends (length ts) (split_defs_from f)
      (λ us l. split_defs_from-Ends f us (omega arith)) t ts (omega arith)

-- `SplitMacroDefs` ends on every token list.
pub split_macro_defs-ne-out_of_fuel : (ts : Tokens) → split_macro_defs ts ≢ out_of_fuel
unfolding split_macro_defs
split_macro_defs-ne-out_of_fuel ts =
    Ends-ne-out_of_fuel (split_defs_from-Ends (suc (length ts)) ts (omega arith))

-- The tokens of `#macro name (params) { body }`, the delimiters being any of the three kinds.
pub record IsDefinition (ts : Tokens) (m : MacroDef) : Type 0 where
  pub sharp : Token
  pub keyword : Token
  pub name : Token
  pub params_open : Token
  pub params_inner : Tokens
  pub params_close : Token
  pub body_open : Token
  pub body_close : Token
  pub tokens :
      ts
      ≡ sharp
        ∷ keyword
        ∷ name
        ∷ params_open
        ∷ (params_inner ++ params_close ∷ body_open ∷ (m.body ++ body_close ∷ []))
  pub is_sharp : sharp.kind ≡ t_sharp
  pub is_keyword : keyword.kind ≡ t_macro
  pub is_name : name.kind ≡ t_ident
  pub params_pair : close_of params_open.kind ≡ some params_close.kind
  pub body_pair : close_of body_open.kind ≡ some body_close.kind
  pub params_nested : IsNested (pos 1) params_inner
  pub body_nested : IsNested (pos 1) m.body
  pub named : m.name ≡ name.text
  pub params_are : param_names name.text sharp.line (split_top params_inner) ≡ ok m.params
  pub position : m.pos ≡ pos_of sharp

-- `ts` is made of definitions and of tokens that are no `#`; in order, the definitions are `defs`
-- and the other tokens `rest`.
pub data Layout : Tokens → List MacroDef → Tokens → Type 0 where
  layout_end : Layout [] [] []
  layout_keep :
      {t : Token} {ts : Tokens} {defs : List MacroDef} {rest : Tokens}
      → t.kind ≢ t_sharp
      → Layout ts defs rest
      → Layout (t ∷ ts) defs (t ∷ rest)
  layout_def :
      {ds us ts : Tokens} {m : MacroDef} {defs : List MacroDef} {rest : Tokens}
      → IsDefinition ds m
      → us ≡ ds ++ ts
      → Layout ts defs rest
      → Layout us (m ∷ defs) rest

split_round-keep :
    (go : Tokens → Split) (t : Token) (ts : Tokens)
    → t.kind ≢ t_sharp
    → split_round go t ts ≡ add_token t (go ts)
unfolding split_round
split_round-keep go t ts n = elim (Bool-cases (t.kind is t_sharp)) [
  | inl e ↦ absurd (n ((is_iff t.kind t_sharp).0 e))
  | inr e ↦ rw e
]

tokens-append :
    (a b c o : Token) (p q : Tokens) (pc bo bc : Token) (ts : Tokens)
    → (a ∷ b ∷ c ∷ o ∷ (p ++ pc ∷ bo ∷ (q ++ bc ∷ []))) ++ ts
      ≡ a ∷ b ∷ c ∷ o ∷ (p ++ pc ∷ bo ∷ (q ++ bc ∷ ts))
tokens-append a b c o p q pc bo bc ts = simp append_assoc

split_round-def :
    (go : Tokens → Split) (ds ts : Tokens) {m : MacroDef} (d : IsDefinition ds m)
    → split_round go d.sharp (
        d.keyword
        ∷ d.name
        ∷ d.params_open
        ∷ (d.params_inner ++ d.params_close ∷ d.body_open ∷ (m.body ++ d.body_close ∷ ts)))
      ≡ add_def m (go ts)
unfolding split_round define define_params define_body
split_round-def go ds ts {m} d =
    let s = (is_iff d.sharp.kind t_sharp).1 d.is_sharp in
    let k = (is_iff d.keyword.kind t_macro).1 d.is_keyword in
    let n = (is_iff d.name.kind t_ident).1 d.is_name in
    let body_taken =
      (take_balanced_iff d.body_close.kind d.body_open (m.body ++ d.body_close ∷ ts) m.body ts
          (close_of-is_close _ _ d.body_pair)).1
        (d.body_close, refl, d.body_nested, refl) in
    let after = d.body_open ∷ (m.body ++ d.body_close ∷ ts) in
    let params_taken =
      (take_balanced_iff d.params_close.kind d.params_open
          (d.params_inner ++ d.params_close ∷ after) d.params_inner after
          (close_of-is_close _ _ d.params_pair)).1
        (d.params_close, refl, d.params_nested, refl) in
    let same : record { name = d.name.text; params = m.params; body = m.body; pos = pos_of d.sharp }
        ≡ m =
      rw (sym d.named, sym d.position) refl in
    rw (s, k, n, d.params_pair, params_taken, d.params_are, d.body_pair, body_taken)
      (ap (λ x. add_def x (go ts)) same)

split_defs_from-Layout :
    {ts : Tokens} {defs : List MacroDef} {rest : Tokens} (f : ℕ)
    → Layout ts defs rest
    → length ts < f
    → split_defs_from f ts ≡ ok (defs, rest)
unfolding split_defs_from
split_defs_from-Layout zero l h = elim h [ ]
split_defs_from-Layout (suc f) layout_end h = refl
split_defs_from-Layout (suc f) (layout_keep {t} {ts} n l) h =
    rw (split_round-keep (split_defs_from f) t ts n, split_defs_from-Layout f l (omega arith)) refl
split_defs_from-Layout (suc f) (layout_def {ds} {us} {ts} {m} d e l) h =
    let shape : us
        ≡ d.sharp
          ∷ d.keyword
          ∷ d.name
          ∷ d.params_open
          ∷ (d.params_inner ++ d.params_close ∷ d.body_open ∷ (m.body ++ d.body_close ∷ ts)) =
      e
      ∙ ap (λ x. x ++ ts) d.tokens
      ∙ tokens-append d.sharp d.keyword d.name d.params_open d.params_inner m.body d.params_close
          d.body_open d.body_close ts in
    let whole : length us ≡ length ds + length ts = rw e (length-append ds ts) in
    let first : length ds ≡ suc (length (tail ds)) = rw d.tokens refl in
    let more = split_defs_from-Layout f l (omega arith) in
    rw shape (rw (split_round-def (split_defs_from f) ds ts d, more) refl)

-- Tokens that are laid out as macro definitions among tokens that are no `#` are split into exactly
-- these definitions, in order, and the tokens outside of them, in order.
pub split_macro_defs-Layout :
    {ts : Tokens} {defs : List MacroDef} {rest : Tokens}
    → Layout ts defs rest
    → split_macro_defs ts ≡ ok (defs, rest)
unfolding split_macro_defs
split_macro_defs-Layout {ts} l = split_defs_from-Layout (suc (length ts)) l (omega arith)
