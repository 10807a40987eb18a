-- ===== src/Macro/Expand/Call.antt =====
-- internal/lang/macro.go: a macro call is replaced by the macro's body with its arguments.
use quark_lang.Base.{
  ==_iff, All, Bytes, List, Option, [], arith, false, length, length-append, lookup, none, refl,
  some, suc, zero, ℕ, ◌++◌, ◌<◌, ◌∷◌, ◌≡◌,
}
use quark_lang.Base.Int.{pos}
use quark_lang.Base.Result.{ok}
use quark_lang.Macro.{MacroDef, Tokens, close_of}
use quark_lang.Macro.Balance.{IsNested, close_of-is_close, split_top, take_balanced_iff}
use quark_lang.Macro.Body.{Context, Subst, expand_body, substitute}
use quark_lang.Macro.Expand.{
  Macros, bind_params, by_name, call_args, call_at, context, expand_from, expand_macros,
  expand_round, instantiate, macro_call_excluded,
}
use quark_lang.Macro.Expand.Laws.{AreNoCalls, call_at-none, expand_from-AreNoCalls}
use quark_lang.Token.{Kind, Token, is_iff, t_ident, t_sharp, ◌is◌}

abbrev pub IsPlain : Tokens → Type 0
IsPlain ts = All (λ t. (t.kind is t_sharp) ≡ false) ts

abbrev pub substitute_all : Subst → Tokens → Tokens
substitute_all s [] = []
substitute_all s (t ∷ ts) = substitute s t ++ substitute_all s ts

-- A body with no directive has its parameters replaced, and nothing else.
pub expand_body-IsPlain :
    (f : ℕ) (cx : Context) (ts : Tokens)
    → length ts < f
    → IsPlain ts
    → expand_body f cx ts ≡ ok (substitute_all cx.subst ts, false)
unfolding expand_body
expand_body-IsPlain zero cx ts l h = elim l [ ]
expand_body-IsPlain (suc f) cx [] l h = refl
expand_body-IsPlain (suc f) cx (t ∷ ts) l (h, hs) =
    rw (h, expand_body-IsPlain f cx ts (omega arith) hs)

instantiate-IsPlain :
    (m : MacroDef) (mode : Bytes) (line : ℕ) (args : List Tokens)
    → length args ≡ length m.params
    → IsPlain m.body
    → instantiate m mode line args ≡ ok (substitute_all (bind_params [] m.params args) m.body)
unfolding instantiate
instantiate-IsPlain m mode line args n h =
    let e = (==_iff (length args) (length m.params)).1 n in
    rw (e, expand_body-IsPlain (suc (length m.body)) (context m mode args) m.body (omega arith) h)

-- `t o inner c` is a call of `m` with these arguments.
pub record IsCall (ms : Macros) (m : MacroDef) (t o : Token) (inner : Tokens) (c : Token)
    (args : List Tokens) : Type 0 where
  pub ident : t.kind ≡ t_ident
  pub known : lookup t.text ms ≡ some m
  pub opened : close_of o.kind ≡ some c.kind
  pub nested : IsNested (pos 1) inner
  pub arguments : call_args (split_top inner) ≡ args
  pub enough : length args ≡ length m.params

module _ {ms : Macros} {m : MacroDef} {t o : Token} {inner : Tokens} {c : Token} where
  call_at-IsCall :
      (prev : Option Kind) (rest : Tokens) {args : List Tokens}
      → macro_call_excluded prev ≡ false
      → IsCall ms m t o inner c args
      → call_at ms prev t (o ∷ (inner ++ c ∷ rest)) ≡ some (m, c.kind)
  unfolding call_at
  call_at-IsCall prev rest p h =
      let e = (is_iff t.kind t_ident).1 h.ident in rw (e, p) (rw (h.known, h.opened))

  expand_from-IsCall :
      (f : ℕ) (mode : Bytes) (prev : Option Kind) (rest : Tokens) {args : List Tokens}
      → macro_call_excluded prev ≡ false
      → IsCall ms m t o inner c args
      → IsPlain m.body
      → AreNoCalls ms rest
      → length rest < f
      → expand_from (suc f) ms mode prev (t ∷ o ∷ (inner ++ c ∷ rest))
        ≡ ok (substitute_all (bind_params [] m.params args) m.body ++ rest)
  unfolding expand_from
  expand_from-IsCall f mode prev rest {args} p h plain quiet l =
      let taken =
        (take_balanced_iff c.kind o (inner ++ c ∷ rest) inner rest
            (close_of-is_close o.kind c.kind h.opened)).1
          (c, refl, h.nested, refl) in
      rw (call_at-IsCall prev rest p h, expand_round)
        (rw (
          taken,
          h.arguments,
          instantiate-IsPlain m mode t.line args h.enough plain,
          expand_from-AreNoCalls f ms mode (some c.kind) rest l quiet,
        ))

-- The kind of the token before what follows `pre`.
abbrev pub last_kind : Option Kind → Tokens → Option Kind
last_kind prev [] = prev
last_kind prev (t ∷ ts) = last_kind (some t.kind) ts

expand_from-append :
    (f : ℕ) (ms : Macros) (mode : Bytes) (prev : Option Kind) (pre ts : Tokens) (out : Tokens)
    → length (pre ++ ts) < f
    → AreNoCalls ms pre
    → ((g : ℕ) → length ts < g → expand_from g ms mode (last_kind prev pre) ts ≡ ok out)
    → expand_from f ms mode prev (pre ++ ts) ≡ ok (pre ++ out)
unfolding expand_from
expand_from-append f ms mode prev [] ts out l h k = k f l
expand_from-append zero ms mode prev (t ∷ pre) ts out l h k = elim l [ ]
expand_from-append (suc f) ms mode prev (t ∷ pre) ts out l (h, hs) k =
    rw (call_at-none ms prev t (pre ++ ts) h, expand_round)
      (rw (expand_from-append f ms mode (some t.kind) pre ts out (omega arith) hs k))

-- A call of a macro whose body has no directive is replaced by that body, in which each parameter's
-- name is replaced by its argument, and the tokens before and behind the call are kept. The macro is
-- the last one defined under the name, and the call does not stand behind a token that excludes it.
pub expand_macros-IsCall :
    (pre rest : Tokens) (d : MacroDef) (defs : List MacroDef) (mode : Bytes) (m : MacroDef)
    (t o : Token) (inner : Tokens) (c : Token) (args : List Tokens)
    → AreNoCalls (by_name (d ∷ defs)) pre
    → macro_call_excluded (last_kind none pre) ≡ false
    → IsCall (by_name (d ∷ defs)) m t o inner c args
    → IsPlain m.body
    → AreNoCalls (by_name (d ∷ defs)) rest
    → expand_macros (pre ++ t ∷ o ∷ (inner ++ c ∷ rest)) (d ∷ defs) mode
      ≡ ok (pre ++ (substitute_all (bind_params [] m.params args) m.body ++ rest))
unfolding expand_macros
expand_macros-IsCall pre rest d defs mode m t o inner c args np ex call plain nr =
    let call_tokens = t ∷ o ∷ (inner ++ c ∷ rest) in
    expand_from-append (suc (length (pre ++ call_tokens))) _ mode none pre call_tokens _
      (omega arith) np (go (last_kind none pre) ex)
  where
    go :
        (prev : Option Kind)
        → macro_call_excluded prev ≡ false
        → (g : ℕ) → length (t ∷ o ∷ (inner ++ c ∷ rest)) < g
        → expand_from g (by_name (d ∷ defs)) mode prev (t ∷ o ∷ (inner ++ c ∷ rest))
          ≡ ok (substitute_all (bind_params [] m.params args) m.body ++ rest)
    go prev e zero l = elim l [ ]
    go prev e (suc g) l =
        expand_from-IsCall g mode prev rest e call plain nr
          (omega (arith, length-append inner (c ∷ rest)))
