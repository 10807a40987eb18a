-- ===== src/Macro/Body/Fuel.antt =====
-- internal/lang/macro.go: `expandBody` ends: every call is on fewer tokens.
use quark_lang.Base.{
  Bool, Bytes, Option, [], arith, false, if◌then◌else◌, length, lookup, none, some, suc, true, zero,
  ℕ, ◌&&◌, ◌+◌, ◌<◌, ◌∷◌, ◌≢◌, ◌≤◌,
}
use quark_lang.Base.Int.{inc, is_zero, pos, ℤ}
use quark_lang.Base.Result.{
  Ensures, Ensures->>=, Ensures-if, Ensures-weaken, Result, err, ok, out_of_fuel, ◌>>=◌,
}
use quark_lang.Macro.{MacroError, Tokens, close_of, is_close, not_a_param}
use quark_lang.Macro.Balance.{depth_after, take_balanced, take_from}
use quark_lang.Macro.Body.{
  Context, Output, Subst, applies, body_round, emit, expand_body, insert_one, kind_at,
  parse_ast_arg, run_block, run_command, run_error, run_execute, run_insert, run_parens, run_sharp,
  run_when, text_at,
}
use quark_lang.Token.{Kind, Token, t_rbrace, ◌is◌}

pub data Ends {ℓ} {A : Type ℓ} : Result MacroError A → Type ℓ where
  done : {a : A} → Ends (ok a)
  refused : {e : MacroError} → Ends (err e)

pub Ends-ne-out_of_fuel {ℓ} : {A : Type ℓ} {r : Result MacroError A} → Ends r → r ≢ out_of_fuel
Ends-ne-out_of_fuel done = cc
Ends-ne-out_of_fuel refused = cc

-- `go` ends on lists of at most `n` tokens.
abbrev pub EndsBelow : ℕ → (Tokens → Output) → Type 0
EndsBelow n go = (ts : Tokens) → length ts ≤ n → Ends (go ts)

abbrev pub Fits : ℕ → Tokens × Tokens → Type 0
Fits n (inner, rest) = length inner + length rest < n

pub take_from-Fits :
    (close : Kind) (line : ℕ) (d : ℤ) (ts : Tokens)
    → Ensures (Fits (length ts)) (take_from close line d ts)
unfolding take_from
take_from-Fits close line d [] = tt
take_from-Fits close line d (t ∷ ts) =
    Ensures-if (Fits (length (t ∷ ts))) (is_close t.kind && is_zero (depth_after d t.kind)) _ _
      (λ _. Ensures-if (Fits (length (t ∷ ts))) (t.kind is close) _ _ (λ _. omega arith) (λ _. tt))
      (λ _.
        Ensures->>= (Fits (length ts)) (Fits (length (t ∷ ts)))
          (take_from close line (depth_after d t.kind) ts) _
          (take_from-Fits close line (depth_after d t.kind) ts) λ (inner, rest) h. omega arith)

pub take_balanced-Fits :
    (close : Kind) (ts : Tokens) → Ensures (Fits (length ts)) (take_balanced close ts)
unfolding take_balanced
take_balanced-Fits close [] = tt
take_balanced-Fits close (t ∷ ts) =
    Ensures-weaken (Fits (length ts)) (Fits (length (t ∷ ts))) _ (λ (i, r) h. omega arith)
      (take_from-Fits close t.line (inc (pos 0)) ts)

emit-Ends : {r : Output} (out : Tokens) → Ends r → Ends (emit out r)
emit-Ends out done = done
emit-Ends out refused = refused

module _ {ℓ κ} {A : Type ℓ} {B : Type κ} where
  pub >>=-Ends :
      {r : Result MacroError A} {f : A → Result MacroError B}
      → Ends r
      → ((a : A) → Ends (f a))
      → Ends (r >>= f)
  >>=-Ends (done {a}) k = k a
  >>=-Ends refused k = refused

  pub Ensures-Ends :
      (P : A → Type 0) (r : Result MacroError A) {f : A → Result MacroError B}
      → Ensures P r
      → ((a : A) → P a → Ends (f a))
      → Ends (r >>= f)
  Ensures-Ends P (ok a) h k = k a h
  Ensures-Ends P (err e) h k = refused
  Ensures-Ends P out_of_fuel h k = absurd h

pub if-Ends {ℓ} :
    {A : Type ℓ} (b : Bool) {x y : Result MacroError A}
    → Ends x
    → Ends y
    → Ends (if b then x else y)
if-Ends true h k = h
if-Ends false h k = k

parse_ast_arg-Ends : (args : Tokens) → Ends (parse_ast_arg args)
unfolding parse_ast_arg
parse_ast_arg-Ends args = search (if-Ends, done, refused)

insert_one-Ends : (line : ℕ) (s : Subst) (name : Bytes) → Ends (insert_one line s name)
unfolding insert_one
insert_one-Ends line s name = go (lookup name s)
  where
    go :
        (o : Option Tokens) → Ends (elim o [ none ↦ err (not_a_param name line) | some ts ↦ ok ts ])
    go none = refused
    go (some ts) = done

module _ (n : ℕ) (go : Tokens → Output) (ends : EndsBelow n go) (cx : Context) (t : Token) where
  run_block-Ends :
      (taken : Bool) (p : Tokens × Tokens) → Fits (suc n) p → Ends (run_block go taken p)
  unfolding run_block
  run_block-Ends taken (blk, after) fits =
      let later = ends after (omega arith) in
      let inside = ends blk (omega arith) in search (if-Ends, done, emit-Ends, >>=-Ends)

  run_when-Ends : (args rest : Tokens) → length rest ≤ n → Ends (run_when go cx t args rest)
  unfolding run_when
  run_when-Ends args rest h =
      let block =
        Ensures-Ends (Fits (length rest)) (take_balanced t_rbrace rest)
          {f = run_block go (applies cx.mode (text_at args 0))} (take_balanced-Fits t_rbrace rest)
          λ p fits. run_block-Ends _ p (omega arith) in
      search (if-Ends, refused)

  run_command-Ends :
      (cmd : Bytes) (args rest : Tokens)
      → length rest ≤ n
      → Ends (run_command go cx t cmd args rest)
  unfolding run_command run_error run_insert run_execute
  run_command-Ends cmd args rest h =
      let later = ends rest h in
      let when = run_when-Ends args rest h in
      search (if-Ends, refused, emit-Ends, >>=-Ends, parse_ast_arg-Ends, insert_one-Ends) depth 9

  run_parens-Ends :
      (cmd : Bytes) (o : Option Kind) (rest : Tokens)
      → length rest ≤ n
      → Ends (run_parens go cx t cmd o rest)
  unfolding run_parens
  run_parens-Ends cmd none rest h = refused
  run_parens-Ends cmd (some close) rest h =
      Ensures-Ends (Fits (length rest)) (take_balanced close rest) (take_balanced-Fits close rest)
        λ (args, after) fits. run_command-Ends cmd args after (omega arith)

  run_sharp-Ends : (ts : Tokens) → length ts ≤ n → Ends (run_sharp go cx t ts)
  unfolding run_sharp
  run_sharp-Ends [] h = refused
  run_sharp-Ends (c ∷ rest) h =
      let later = ends rest (omega arith) in
      let parens = run_parens-Ends c.text (close_of (kind_at rest 0)) rest (omega arith) in
      search (if-Ends, refused, done, >>=-Ends)

  body_round-Ends : (ts : Tokens) → length ts ≤ n → Ends (body_round go cx t ts)
  unfolding body_round
  body_round-Ends ts h =
      let later = ends ts h in let sharp = run_sharp-Ends ts h in search (if-Ends, emit-Ends)

pub expand_body-Ends :
    (f : ℕ) (cx : Context) (ts : Tokens) → length ts < f → Ends (expand_body f cx ts)
unfolding expand_body
expand_body-Ends zero cx ts h = elim h [ ]
expand_body-Ends (suc f) cx [] h = done
expand_body-Ends (suc f) cx (t ∷ ts) h =
    body_round-Ends (length ts) (expand_body f cx) (λ us l. expand_body-Ends f cx us (omega arith))
      cx t ts (omega arith)

-- `expandBody` ends on every macro body, in every mode and with every argument: the fuel of one
-- round for each token and one more is enough.
pub expand_body-ne-out_of_fuel :
    (f : ℕ) (cx : Context) (ts : Tokens) → length ts < f → expand_body f cx ts ≢ out_of_fuel
expand_body-ne-out_of_fuel f cx ts h = Ends-ne-out_of_fuel (expand_body-Ends f cx ts h)
