-- ===== src/Macro/Expand/Stream.antt =====
-- internal/lang/macro.go: `ExpandMacros` keeps the end of file at the end.

use mathlib.Core.Path.{subst}
use quark_lang.Base.{
  All, Bool, Bytes, List, Option, [], and→both, false, if◌then◌else◌, insert, length, lookup, none,
  not, refl, some, suc, true, zero, ℕ, ◌&&◌, ◌++◌, ◌∷◌, ◌≡◌, ◌≢◌,
}
use quark_lang.Base.Result.{Result, ok, ◌>>=◌}
use quark_lang.Lexer.Literals.{token}
use quark_lang.Lexer.Progress.{IsStream, cons-IsStream}
use quark_lang.Macro.{MacroDef, MacroError, Tokens, close_of}
use quark_lang.Macro.Balance.{split_top, take_balanced}
use quark_lang.Macro.Body.{Output, Subst, kind_at}
use quark_lang.Macro.Body.Inner.{IsInnerOut, IsInnerSubst, expand_body-IsInner}
use quark_lang.Macro.Expand.{
  Macros, append_to, bind_params, by_name, by_name_onto, call_args, call_at, callee, context,
  expand_from, expand_macros, expand_round, instantiate, macro_call_excluded, wrap,
}
use quark_lang.Macro.Stream.{
  >>=-Yields, IsInner, IsMapOf, Yields, Yields-weaken, append-IsStream, choice-Yields,
  empty-IsMapOf, fails, insert-IsMapOf, runs_out, split_top-IsInner, tail-IsStream,
  take_balanced-IsCut, yields,
}
use quark_lang.Token.{Kind, Token, is_iff, t_comma, t_eof, t_ident, ◌is◌}

abbrev AreInner : Macros → Type 0
AreInner ms = IsMapOf (λ m. IsInner m.body) ms

by_name_onto-AreInner :
    (ms : Macros) (defs : List MacroDef)
    → AreInner ms
    → All (λ m. IsInner m.body) defs
    → AreInner (by_name_onto ms defs)
by_name_onto-AreInner ms [] h k = h
by_name_onto-AreInner ms (m ∷ defs) h (k, ks) =
    by_name_onto-AreInner (insert m.name m ms) defs (insert-IsMapOf _ m.name m ms k h) ks

by_name-AreInner : (defs : List MacroDef) → All (λ m. IsInner m.body) defs → AreInner (by_name defs)
unfolding by_name
by_name-AreInner defs h = by_name_onto-AreInner [] defs (empty-IsMapOf _) h

-- The parameters of a call stand for arguments without the end of file.
bind_params-IsInnerSubst :
    (s : Subst) (ps : List Bytes) (args : List Tokens)
    → IsInnerSubst s
    → All IsInner args
    → IsInnerSubst (bind_params s ps args)
bind_params-IsInnerSubst s [] args c h = c
bind_params-IsInnerSubst s (p ∷ ps) [] c h = c
bind_params-IsInnerSubst s (p ∷ ps) (a ∷ args) c (h, hs) =
    bind_params-IsInnerSubst (insert p a s) ps args (insert-IsMapOf IsInner p a s h c) hs

call_args-IsInner : (ps : List Tokens) → All IsInner ps → All IsInner (call_args ps)
call_args-IsInner [] h = h
call_args-IsInner ([] ∷ []) h = tt
call_args-IsInner ([] ∷ p ∷ ps) h = h
call_args-IsInner ((t ∷ p) ∷ ps) h = h

wrap-Yields {ℓ} :
    {A : Type ℓ} {P : A → Type 0} (name : Bytes) {r : Result MacroError A}
    → Yields P r
    → Yields P (wrap name r)
wrap-Yields name (yields p) = yields p
wrap-Yields name fails = fails
wrap-Yields name runs_out = runs_out

instantiate-IsInner :
    (m : MacroDef) (mode : Bytes) (line : ℕ) (args : List Tokens)
    → IsInner m.body
    → All IsInner args
    → Yields IsInner (instantiate m mode line args)
unfolding instantiate
instantiate-IsInner m mode line args b h =
    let c = bind_params-IsInnerSubst [] m.params args (empty-IsMapOf IsInner) h in
    let body = only_tokens (
      wrap-Yields m.name
        (expand_body-IsInner (suc (length m.body)) (context m mode args) m.body c b)) in
    search (choice-Yields, fails)
  where
    only_tokens : {r : Output} → Yields IsInnerOut r → Yields IsInner (r >>= λ (body, _). ok body)
    only_tokens (yields p) = yields p
    only_tokens fails = fails
    only_tokens runs_out = runs_out

append_to-Yields :
    {P Q : Tokens → Type 0} (out : Tokens) {r : Result MacroError Tokens}
    → ((us : Tokens) → P us → Q (out ++ us))
    → Yields P r
    → Yields Q (append_to out r)
append_to-Yields out k (yields {a} p) = yields (k a p)
append_to-Yields out k fails = fails
append_to-Yields out k runs_out = runs_out

callee-IsInner :
    (o : Option MacroDef) (c : Option Kind) (m : MacroDef) (close : Kind)
    → ((d : MacroDef) → o ≡ some d → IsInner d.body)
    → callee o c ≡ some (m, close)
    → IsInner m.body
callee-IsInner (some d) (some k) m close h e =
    let same : d ≡ m = cc in subst (λ x. IsInner x.body) same (h d refl)
callee-IsInner (some d) none m close h e = cc
callee-IsInner none c m close h e = cc

-- A macro is called at an identifier, and its body holds no end of file.
call_at-IsInner :
    (ms : Macros) (prev : Option Kind) (t : Token) (ts : Tokens) (m : MacroDef) (close : Kind)
    → AreInner ms
    → call_at ms prev t ts ≡ some (m, close)
    → (t.kind ≢ t_eof) × IsInner m.body
unfolding call_at
call_at-IsInner ms prev t ts m close a e =
    go (t.kind is t_ident && not (macro_call_excluded prev)) refl e
  where
    go :
        (b : Bool)
        → (t.kind is t_ident && not (macro_call_excluded prev)) ≡ b
        → (if b then callee (lookup t.text ms) (close_of (kind_at ts 0)) else none)
          ≡ some (m, close)
        → (t.kind ≢ t_eof) × IsInner m.body
    go true q r =
        let s = (is_iff t.kind t_ident).0 (and→both _ _ q).0 in
        (λ v. cc, callee-IsInner _ _ m close (a t.text) r)
    go false q r = cc

module _ (go : Option Kind → Tokens → Result MacroError Tokens) (ms : Macros) (mode : Bytes)
    (a : AreInner ms)
    (ends : (p : Token) (k : Option Kind) (us : Tokens)
      → IsStream (p ∷ us)
      → Yields (λ vs. IsStream (p ∷ vs)) (go k us)) where
  -- What follows the body of a call.
  after_call :
      (p : Token) (k : Option Kind) (body after : Tokens)
      → p.kind ≢ t_eof
      → IsInner body
      → IsStream after
      → Yields (λ us. IsStream (p ∷ us)) (append_to body (go k after))
  after_call p k body after n b h =
      append_to-Yields body
        (λ us l.
          cons-IsStream p (body ++ us) n (append-IsStream body us b (tail-IsStream p us n l)))
        (ends p k after (cons-IsStream p after n h))

  expand_round-IsStream :
      (p : Token) (prev : Option Kind) (t : Token) (ts : Tokens)
      → p.kind ≢ t_eof
      → IsStream (t ∷ ts)
      → Yields (λ us. IsStream (p ∷ us)) (expand_round go ms mode prev t ts)
  unfolding expand_round
  expand_round-IsStream p prev t ts n h = by_call (call_at ms prev t ts) refl
    where
      by_call :
          (o : Option (MacroDef × Kind))
          → call_at ms prev t ts ≡ o
          → Yields
              (λ us. IsStream (p ∷ us))
              (elim o [
                | none ↦ append_to (t ∷ []) (go (some t.kind) ts)
                | some (m, close) ↦ take_balanced close ts >>= λ (inner, after).
                    instantiate m mode t.line (call_args (split_top inner)) >>= λ body.
                    append_to body (go (some close) after)
              ])
      by_call none e =
          append_to-Yields (t ∷ []) (λ us l. cons-IsStream p (t ∷ us) n l)
            (ends t (some t.kind) ts h)
      by_call (some (m, close)) e =
          let (q, b) = call_at-IsInner ms prev t ts m close a e in
          >>=-Yields (take_balanced-IsCut close ts (tail-IsStream t ts q h))
            λ (inner, after) (k, l).
              >>=-Yields
                (instantiate-IsInner m mode t.line _ b
                  (call_args-IsInner _ (split_top-IsInner inner k)))
                λ body i. after_call p (some close) body after n i l

expand_from-IsStream :
    (f : ℕ) (ms : Macros) (mode : Bytes) (p : Token) (prev : Option Kind) (ts : Tokens)
    → AreInner ms
    → IsStream (p ∷ ts)
    → Yields (λ us. IsStream (p ∷ us)) (expand_from f ms mode prev ts)
unfolding expand_from
expand_from-IsStream zero ms mode p prev ts a h = runs_out
expand_from-IsStream (suc f) ms mode p prev [] a h = yields h
expand_from-IsStream (suc f) ms mode p prev (t ∷ ts) a (n, h) =
    expand_round-IsStream (expand_from f ms mode) ms mode a
      (λ q k us l. expand_from-IsStream f ms mode q k us a l) p prev t ts n h

-- From tokens that end with the end of file, and hold no other, `ExpandMacros` makes such tokens.
pub expand_macros-Yields :
    (ts : Tokens) (defs : List MacroDef) (mode : Bytes)
    → All (λ m. IsInner m.body) defs
    → IsStream ts
    → Yields IsStream (expand_macros ts defs mode)
unfolding expand_macros
expand_macros-Yields ts [] mode d h = yields h
expand_macros-Yields ts (m ∷ defs) mode d h =
    Yields-weaken (λ us l. tail-IsStream first us (λ q. cc) l)
      (expand_from-IsStream (suc (length ts)) (by_name (m ∷ defs)) mode first none ts
        (by_name-AreInner (m ∷ defs) d) (cons-IsStream first ts (λ q. cc) h))
  where
    first : Token
    first = token t_comma [] 0 0
