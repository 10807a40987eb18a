-- ===== src/Macro/Define.antt =====
-- internal/lang/macro.go: `SplitMacroDefs`.
pub mod Laws
pub mod Stream
use mathlib.Core.List.{tail}
use quark_lang.Base.{
  Bool, Bytes, List, Option, [], false, if◌then◌else◌, length, none, not, some, suc, true, zero, ℕ,
  ◌||◌, ◌∷◌,
}
use quark_lang.Base.Int.{pos}
use quark_lang.Base.Result.{Result, err, ok, out_of_fuel, ◌>>=◌}
use quark_lang.Macro.{
  MacroDef, MacroError, Tokens, bad_param, body_open, close_of, needs_name, no_body, no_params,
  params_open, pos_of,
}
use quark_lang.Macro.Balance.{split_top, take_balanced}
use quark_lang.Macro.Body.{kind_at}
use quark_lang.Token.{Kind, Token, t_ident, t_macro, t_sharp, ◌is◌}

-- The names among the parameters' parts; an empty part is passed over.
unfoldable pub param_names : Bytes → ℕ → List Tokens → Result MacroError (List Bytes)
param_names name line [] = ok []
param_names name line ([] ∷ parts) = param_names name line parts
param_names name line ((p ∷ []) ∷ parts) =
    let more = param_names name line parts in
    if p.kind is t_ident then (more >>= λ names. ok (p.text ∷ names)) else err (bad_param name line)
param_names name line ((p ∷ q ∷ ps) ∷ parts) = err (bad_param name line)

abbrev pub Split : Type 0
Split = Result MacroError (List MacroDef × Tokens)

abbrev pub line_at : Tokens → ℕ
line_at [] = 0
line_at (t ∷ ts) = t.line

abbrev pub is_empty : Tokens → Bool
is_empty [] = true
is_empty (t ∷ ts) = false

abbrev pub add_def : MacroDef → Split → Split
add_def m more = more >>= λ (defs, rest). ok (m ∷ defs, rest)

abbrev pub add_token : Token → Split → Split
add_token t more = more >>= λ (defs, rest). ok (defs, t ∷ rest)

-- The body of the definition that begins at the `#` token `t`.
pub define_body : (Tokens → Split) → Token → Bytes → List Bytes → Option Kind → Tokens → Split
define_body go t name names none ts =
    if is_empty ts then err (no_body name t.line) else err (body_open name (line_at ts))
define_body go t name names (some close) ts = take_balanced close ts >>= λ (inner, after).
    add_def (record { name = name; params = names; body = inner; pos = pos_of t }) (go after)

-- Its parameters.
pub define_params : (Tokens → Split) → Token → Bytes → Option Kind → Tokens → Split
define_params go t name none ts =
    if is_empty ts then err (no_params name t.line) else err (params_open name (line_at ts))
define_params go t name (some close) ts = take_balanced close ts >>= λ (inner, after).
    param_names name t.line (split_top inner) >>= λ names.
    define_body go t name names (close_of (kind_at after 0)) after

-- Its name.
pub define : (Tokens → Split) → Token → Tokens → Split
define go t [] = err (needs_name t.line)
define go t (n ∷ ts) =
    if not (n.kind is t_ident)
    then err (needs_name t.line)
    else define_params go t n.text (close_of (kind_at ts 0)) ts

-- One round of the loop, at the token `t`.
unfoldable pub split_round : (Tokens → Split) → Token → Tokens → Split
unfolding define define_params define_body param_names split_top take_balanced close_of
split_round go t ts =
    if not (t.kind is t_sharp) || not (kind_at ts 0 is t_macro)
    then add_token t (go ts)
    else define go t (tail ts)

unfoldable pub split_defs_from : ℕ → Tokens → Split
unfolding split_round
split_defs_from zero ts = out_of_fuel
split_defs_from (suc f) [] = ok ([], [])
split_defs_from (suc f) (t ∷ ts) = split_round (split_defs_from f) t ts

unfoldable pub split_macro_defs : Tokens → Split
unfolding split_defs_from
split_macro_defs ts = split_defs_from (suc (length ts)) ts
