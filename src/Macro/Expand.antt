-- ===== src/Macro/Expand.antt =====
-- internal/lang/macro.go: `macroCallExcluded` and `ExpandMacros`.
pub mod Laws
pub mod Stream
pub mod Call
use quark_lang.Base.{
  Bool, Bytes, List, Option, [], false, if◌then◌else◌, insert, length, lookup, none, not, some, suc,
  zero, ℕ, ◌&&◌, ◌++◌, ◌==◌, ◌||◌, ◌∷◌,
}
use quark_lang.Base.Result.{Result, err, ok, out_of_fuel, ◌>>=◌}
use quark_lang.Macro.{MacroDef, MacroError, Tokens, bad_arity, close_of, in_macro}
use quark_lang.Macro.Balance.{split_top, take_balanced}
use quark_lang.Macro.Body.{Context, Subst, expand_body, kind_at}
use quark_lang.Token.{
  Kind, Token, t_dot, t_func, t_ident, t_impl, t_interface, t_macro, t_scope, t_sharp, t_struct,
  ◌is◌,
}

abbrev pub Macros : Type 0
Macros = List (Bytes × MacroDef)

-- `byName`: of two definitions of one name the later one stays.
abbrev pub by_name_onto : Macros → List MacroDef → Macros
by_name_onto ms [] = ms
by_name_onto ms (m ∷ rest) = by_name_onto (insert m.name m ms) rest

unfoldable pub by_name : List MacroDef → Macros
unfolding insert
by_name defs = by_name_onto [] defs

-- `macroCallExcluded`, on the kind of the token before, if there is one.
unfoldable pub macro_call_excluded : Option Kind → Bool
macro_call_excluded none = false
macro_call_excluded (some k) =
    k is t_func
    || k is t_struct
    || k is t_impl
    || k is t_interface
    || k is t_macro
    || k is t_dot
    || k is t_scope
    || k is t_sharp

abbrev pub callee : Option MacroDef → Option Kind → Option (MacroDef × Kind)
callee (some m) (some close) = some (m, close)
callee _ _ = none

-- The macro that is called at `t`, and the delimiter that ends its arguments.
unfoldable pub call_at : Macros → Option Kind → Token → Tokens → Option (MacroDef × Kind)
unfolding macro_call_excluded lookup close_of
call_at ms prev t ts =
    if t.kind is t_ident && not (macro_call_excluded prev)
    then callee (lookup t.text ms) (close_of (kind_at ts 0))
    else none

abbrev pub call_args : List Tokens → List Tokens
call_args ([] ∷ []) = []
call_args ps = ps

abbrev pub bind_params : Subst → List Bytes → List Tokens → Subst
bind_params s (p ∷ ps) (a ∷ args) = bind_params (insert p a s) ps args
bind_params s _ _ = s

-- The error of a body is wrapped with the macro's name.
abbrev pub wrap {ℓ} : {A : Type ℓ} → Bytes → Result MacroError A → Result MacroError A
wrap name (ok a) = ok a
wrap name (err e) = err (in_macro name e)
wrap name out_of_fuel = out_of_fuel

abbrev pub context : MacroDef → Bytes → List Tokens → Context
context m mode args = record {
  subst = bind_params [] m.params args;
  mode = mode;
  param_order = m.params;
}

-- The body of `m` for these arguments, `line` being that of the call.
unfoldable pub instantiate : MacroDef → Bytes → ℕ → List Tokens → Result MacroError Tokens
unfolding expand_body insert
instantiate m mode line args =
    if not (length args == length m.params)
    then err (bad_arity m.name (length m.params) (length args) line)
    else wrap m.name (expand_body (suc (length m.body)) (context m mode args) m.body)
      >>= λ (body, _). ok body

abbrev pub append_to : Tokens → Result MacroError Tokens → Result MacroError Tokens
append_to out more = more >>= λ rest. ok (out ++ rest)

-- One round, at the token `t`; `go` expands what follows, given the kind of the token before it.
unfoldable pub expand_round :
    (Option Kind → Tokens → Result MacroError Tokens)
    → Macros
    → Bytes
    → Option Kind
    → Token
    → Tokens
    → Result MacroError Tokens
unfolding call_at take_balanced split_top instantiate
expand_round go ms mode prev t ts = elim (call_at ms prev t ts) [
  | none ↦ append_to (t ∷ []) (go (some t.kind) ts)
  | some (m, close) ↦ take_balanced close ts >>= λ (inner, after).
      instantiate m mode t.line (call_args (split_top inner)) >>= λ body.
      append_to body (go (some close) after)
]

unfoldable pub expand_from : ℕ → Macros → Bytes → Option Kind → Tokens → Result MacroError Tokens
unfolding expand_round
expand_from zero ms mode prev ts = out_of_fuel
expand_from (suc f) ms mode prev [] = ok []
expand_from (suc f) ms mode prev (t ∷ ts) = expand_round (expand_from f ms mode) ms mode prev t ts

unfoldable pub expand_macros : Tokens → List MacroDef → Bytes → Result MacroError Tokens
unfolding expand_from by_name
expand_macros toks [] mode = ok toks
expand_macros toks (m ∷ defs) mode =
    expand_from (suc (length toks)) (by_name (m ∷ defs)) mode none toks
