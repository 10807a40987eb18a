-- ===== src/Macro/Expand/Laws.antt =====
-- internal/lang/macro.go: what `ExpandMacros` does with calls and with all other tokens.
use quark_lang.Base.{
  All, Bool-cases, Bytes, List, Option, [], and→both, arith, inl, inr, length, lookup, none, not,
  refl, some, suc, zero, ℕ, ◌&&◌, ◌<◌, ◌∷◌, ◌≡◌, ◌≢◌, ◌≤◌,
}
use quark_lang.Base.Result.{Result, ok, out_of_fuel, ◌>>=◌}
use quark_lang.Macro.{MacroDef, MacroError, Tokens}
use quark_lang.Macro.Balance.{split_top, take_balanced}
use quark_lang.Macro.Body.Fuel.{
  >>=-Ends, Ends, Ends-ne-out_of_fuel, Ensures-Ends, done, expand_body-Ends, if-Ends, refused,
  take_balanced-Fits,
}
use quark_lang.Macro.Expand.{
  Macros, append_to, by_name, call_args, call_at, context, expand_from, expand_macros, expand_round,
  instantiate, macro_call_excluded, wrap,
}
use quark_lang.Token.{Kind, Token, is_iff, t_ident, ◌is◌}

wrap-Ends {ℓ} : {A : Type ℓ} {r : Result MacroError A} (name : Bytes) → Ends r → Ends (wrap name r)
wrap-Ends name done = done
wrap-Ends name refused = refused

instantiate-Ends :
    (m : MacroDef) (mode : Bytes) (line : ℕ) (args : List Tokens)
    → Ends (instantiate m mode line args)
unfolding instantiate
instantiate-Ends m mode line args =
    let body =
      wrap-Ends m.name
        (expand_body-Ends (suc (length m.body)) (context m mode args) m.body (omega arith)) in
    search (if-Ends, refused, >>=-Ends, done)

append_to-Ends : {r : Result MacroError Tokens} (out : Tokens) → Ends r → Ends (append_to out r)
append_to-Ends out done = done
append_to-Ends out refused = refused

expand_round-Ends :
    (go : Option Kind → Tokens → Result MacroError Tokens) (ms : Macros) (mode : Bytes)
    (prev : Option Kind) (t : Token) (ts : Tokens)
    → ((k : Option Kind) (us : Tokens) → length us ≤ length ts → Ends (go k us))
    → Ends (expand_round go ms mode prev t ts)
unfolding expand_round
expand_round-Ends go ms mode prev t ts ends = by_call (call_at ms prev t ts)
  where
    by_call :
        (o : Option (MacroDef × Kind))
        → Ends (elim o [
          | none ↦ append_to (t ∷ []) (go (some t.kind) ts)
          | some (m, close) ↦ take_balanced close ts >>= λ (inner, after).
              instantiate m mode t.line (call_args (split_top inner)) >>= λ body.
              append_to body (go (some close) after)
        ])
    by_call none = append_to-Ends (t ∷ []) (ends (some t.kind) ts (omega arith))
    by_call (some (m, close)) =
        Ensures-Ends _ (take_balanced close ts) (take_balanced-Fits close ts) λ (inner, after) fits.
          >>=-Ends (instantiate-Ends m mode t.line _)
            λ body. append_to-Ends body (ends (some close) after (omega arith))

expand_from-Ends :
    (f : ℕ) (ms : Macros) (mode : Bytes) (prev : Option Kind) (ts : Tokens)
    → length ts < f
    → Ends (expand_from f ms mode prev ts)
unfolding expand_from
expand_from-Ends zero ms mode prev ts h = elim h [ ]
expand_from-Ends (suc f) ms mode prev [] h = done
expand_from-Ends (suc f) ms mode prev (t ∷ ts) h =
    expand_round-Ends (expand_from f ms mode) ms mode prev t ts
      λ k us l. expand_from-Ends f ms mode k us (omega arith)

-- `ExpandMacros` ends on every token list, with every list of macros and in every mode.
pub expand_macros-ne-out_of_fuel :
    (ts : Tokens) (defs : List MacroDef) (mode : Bytes) → expand_macros ts defs mode ≢ out_of_fuel
unfolding expand_macros
expand_macros-ne-out_of_fuel ts [] mode = λ e. cc
expand_macros-ne-out_of_fuel ts (m ∷ defs) mode =
    Ends-ne-out_of_fuel
      (expand_from-Ends (suc (length ts)) (by_name (m ∷ defs)) mode none ts (omega arith))

-- No identifier of the list is the name of a macro.
abbrev pub AreNoCalls : Macros → Tokens → Type 0
AreNoCalls ms ts = All (λ t. (t.kind ≡ t_ident) → lookup t.text ms ≡ none) ts

pub call_at-none :
    (ms : Macros) (prev : Option Kind) (t : Token) (ts : Tokens)
    → (t.kind ≡ t_ident → lookup t.text ms ≡ none)
    → call_at ms prev t ts ≡ none
unfolding call_at
call_at-none ms prev t ts h =
    elim (Bool-cases (t.kind is t_ident && not (macro_call_excluded prev))) [
      | inl e ↦ rw e (rw (h ((is_iff t.kind t_ident).0 (and→both _ _ e).0)))
      | inr e ↦ rw e
    ]

pub expand_from-AreNoCalls :
    (f : ℕ) (ms : Macros) (mode : Bytes) (prev : Option Kind) (ts : Tokens)
    → length ts < f
    → AreNoCalls ms ts
    → expand_from f ms mode prev ts ≡ ok ts
unfolding expand_from
expand_from-AreNoCalls zero ms mode prev ts l h = elim l [ ]
expand_from-AreNoCalls (suc f) ms mode prev [] l h = refl
expand_from-AreNoCalls (suc f) ms mode prev (t ∷ ts) l (h, hs) =
    rw (call_at-none ms prev t ts h, expand_round)
      (rw (expand_from-AreNoCalls f ms mode (some t.kind) ts (omega arith) hs))

-- Tokens among which no macro's name stands are given back unchanged.
pub expand_macros-AreNoCalls :
    (ts : Tokens) (defs : List MacroDef) (mode : Bytes)
    → AreNoCalls (by_name defs) ts
    → expand_macros ts defs mode ≡ ok ts
unfolding expand_macros
expand_macros-AreNoCalls ts [] mode h = refl
expand_macros-AreNoCalls ts (m ∷ defs) mode h =
    expand_from-AreNoCalls (suc (length ts)) (by_name (m ∷ defs)) mode none ts (omega arith) h
