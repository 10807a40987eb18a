-- ===== src/Macro/Body/Inner.antt =====
-- internal/lang/macro.go: `expandBody` makes no end of file.

-- The tokens that the parameters stand for hold no end of file.
use quark_lang.Base.{
  All-append, Bool, Bool-cases, Bytes, List, Option, [], codes, equal, false, if◌then◌else◌, inl,
  inr, lookup, none, refl, some, suc, true, zero, ℕ, ◌∷◌, ◌≡◌, ◌≢◌,
}
use quark_lang.Base.Result.{err, ok, ◌>>=◌}
use quark_lang.Lexer.Literals.{token}
use quark_lang.Macro.{Tokens, close_of, not_a_param}
use quark_lang.Macro.Body.{
  Context, Output, Subst, applies, body_round, emit, expand_body, insert_all, insert_one, kind_at,
  or_else, parse_ast_arg, run_block, run_command, run_error, run_execute, run_insert, run_parens,
  run_sharp, run_when, substitute, text_at,
}
use quark_lang.Macro.Stream.{
  >>=-Yields, IsCutInner, IsInner, IsMapOf, Yields, any-Yields, choice-Yields, fails, runs_out,
  take_balanced-IsCutInner, yields,
}
use quark_lang.Token.{Kind, Token, t_comma, t_eof, t_ident, t_rbrace, ◌is◌}

abbrev pub IsInnerSubst : Subst → Type 0
IsInnerSubst s = IsMapOf IsInner s

abbrev pub IsInnerOut : Tokens × Bool → Type 0
IsInnerOut (ts, ended) = IsInner ts

or_else-IsInner :
    (d : Tokens) (o : Option Tokens)
    → IsInner d
    → ((ts : Tokens) → o ≡ some ts → IsInner ts)
    → IsInner (or_else d o)
or_else-IsInner d none h k = h
or_else-IsInner d (some ts) h k = k ts refl

substitute-IsInner :
    (s : Subst) (t : Token) → IsInnerSubst s → t.kind ≢ t_eof → IsInner (substitute s t)
unfolding substitute
substitute-IsInner s t c h = elim (Bool-cases (t.kind is t_ident)) [
  | inl e ↦ rw e (or_else-IsInner (t ∷ []) (lookup t.text s) (h, tt) (c t.text))
  | inr e ↦ rw e (h, tt)
]

separator-IsInner :
    (t : Token) (first : Bool)
    → IsInner (if first then [] else (token t_comma (codes ",") t.line t.col ∷ []))
separator-IsInner t true = tt
separator-IsInner t false = (λ e. cc, tt)

insert_all-IsInner :
    (t : Token) (s : Subst) (first : Bool) (ps : List Bytes)
    → IsInnerSubst s
    → IsInner (insert_all t s first ps)
unfolding insert_all
insert_all-IsInner t s first [] c = tt
insert_all-IsInner t s first (p ∷ ps) c = All-append _ _ _ (separator-IsInner t first) (
    All-append _ _ _ (or_else-IsInner [] (lookup p s) tt (c p)) (insert_all-IsInner t s false ps c))

insert_one-IsInner :
    (line : ℕ) (s : Subst) (name : Bytes) → IsInnerSubst s → Yields IsInner (insert_one line s name)
unfolding insert_one
insert_one-IsInner line s name c = go (lookup name s) (c name)
  where
    go :
        (o : Option Tokens)
        → ((ts : Tokens) → o ≡ some ts → IsInner ts)
        → Yields IsInner (elim o [ none ↦ err (not_a_param name line) | some ts ↦ ok ts ])
    go none k = fails
    go (some ts) k = yields (k ts refl)

emit-IsInner :
    (out : Tokens) {r : Output} → IsInner out → Yields IsInnerOut r → Yields IsInnerOut (emit out r)
emit-IsInner out h (yields p) = yields (All-append _ _ _ h p)
emit-IsInner out h fails = fails
emit-IsInner out h runs_out = runs_out

ended-IsInner :
    {r : Output} → Yields IsInnerOut r → Yields IsInnerOut (r >>= λ (sub, ended). ok (sub, true))
ended-IsInner (yields p) = yields p
ended-IsInner fails = fails
ended-IsInner runs_out = runs_out

module _ (go : Tokens → Output) (ends : (ts : Tokens) → IsInner ts → Yields IsInnerOut (go ts))
    (cx : Context) (c : IsInnerSubst cx.subst) (t : Token) where
  run_block-IsInner :
      (taken : Bool) (p : Tokens × Tokens) → IsCutInner p → Yields IsInnerOut (run_block go taken p)
  unfolding run_block
  run_block-IsInner taken (blk, after) (h, k) =
      choice-Yields taken (inside (ends blk h)) (ends after k)
    where
      inside :
          {r : Output}
          → Yields IsInnerOut r
          → Yields IsInnerOut
              (r >>= λ (sub, ended). if ended then ok (sub, true) else emit sub (go after))
      inside (yields {a = (sub, ended)} p) =
          choice-Yields ended (yields p) (emit-IsInner sub p (ends after k))
      inside fails = fails
      inside runs_out = runs_out

  run_when-IsInner :
      (args rest : Tokens) → IsInner rest → Yields IsInnerOut (run_when go cx t args rest)
  unfolding run_when
  run_when-IsInner args rest h =
      let block =
        >>=-Yields {f = run_block go (applies cx.mode (text_at args 0))}
          (take_balanced-IsCutInner t_rbrace rest h) λ p k. run_block-IsInner _ p k in
      search (choice-Yields, fails)

  run_insert-IsInner :
      (args rest : Tokens) → IsInner rest → Yields IsInnerOut (run_insert go cx t args rest)
  unfolding run_insert
  run_insert-IsInner args rest h = >>=-Yields (any-Yields (parse_ast_arg args)) λ inner _.
      choice-Yields (equal inner (codes "..."))
        (emit-IsInner _ (insert_all-IsInner t cx.subst true cx.param_order c) (ends rest h))
        (>>=-Yields (insert_one-IsInner t.line cx.subst inner c)
          λ captured k. emit-IsInner captured k (ends rest h))

  run_execute-IsInner :
      (args rest : Tokens) → IsInner rest → Yields IsInnerOut (run_execute go t args rest)
  unfolding run_execute
  run_execute-IsInner args rest h =
      let name =
        emit-IsInner (token t_ident (text_at args 0) t.line t.col ∷ []) (λ e. cc, tt)
          (ends rest h) in
      search (choice-Yields, fails)

  run_command-IsInner :
      (cmd : Bytes) (args rest : Tokens)
      → IsInner rest
      → Yields IsInnerOut (run_command go cx t cmd args rest)
  unfolding run_command run_error
  run_command-IsInner cmd args rest h =
      let when = run_when-IsInner args rest h in
      let insert = run_insert-IsInner args rest h in
      let execute = run_execute-IsInner args rest h in search (choice-Yields, fails) depth 9

  run_parens-IsInner :
      (cmd : Bytes) (o : Option Kind) (rest : Tokens)
      → IsInner rest
      → Yields IsInnerOut (run_parens go cx t cmd o rest)
  unfolding run_parens
  run_parens-IsInner cmd none rest h = fails
  run_parens-IsInner cmd (some close) rest h =
      >>=-Yields (take_balanced-IsCutInner close rest h)
        λ (args, after) k. run_command-IsInner cmd args after k.1

  run_sharp-IsInner : (ts : Tokens) → IsInner ts → Yields IsInnerOut (run_sharp go cx t ts)
  unfolding run_sharp
  run_sharp-IsInner [] h = fails
  run_sharp-IsInner (d ∷ rest) (h, hs) =
      let later = ended-IsInner (ends rest hs) in
      let parens = run_parens-IsInner d.text (close_of (kind_at rest 0)) rest hs in
      search (choice-Yields, fails)

  body_round-IsInner :
      (ts : Tokens) → t.kind ≢ t_eof → IsInner ts → Yields IsInnerOut (body_round go cx t ts)
  unfolding body_round
  body_round-IsInner ts h hs =
      let kept = emit-IsInner _ (substitute-IsInner cx.subst t c h) (ends ts hs) in
      let sharp = run_sharp-IsInner ts hs in search choice-Yields

pub expand_body-IsInner :
    (f : ℕ) (cx : Context) (ts : Tokens)
    → IsInnerSubst cx.subst
    → IsInner ts
    → Yields IsInnerOut (expand_body f cx ts)
unfolding expand_body
expand_body-IsInner zero cx ts c h = runs_out
expand_body-IsInner (suc f) cx [] c h = yields tt
expand_body-IsInner (suc f) cx (t ∷ ts) c (h, hs) =
    body_round-IsInner (expand_body f cx) (λ us k. expand_body-IsInner f cx us c k) cx c t ts h hs
