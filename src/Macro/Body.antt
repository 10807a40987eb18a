-- ===== src/Macro/Body.antt =====
-- internal/lang/macro.go: `parseAstArg` and `expandBody`.
pub mod Fuel
pub mod Inner
use quark_lang.Base.{
  Bool, Bytes, List, Option, [], codes, equal, false, if◌then◌else◌, leb, length, lookup, ltb, none,
  not, some, suc, true, zero, ℕ, ◌&&◌, ◌++◌, ◌-◌, ◌||◌, ◌∷◌,
}
use quark_lang.Base.Result.{Result, err, ok, out_of_fuel, ◌>>=◌}
use quark_lang.Lexer.Literals.{token}
use quark_lang.Macro.{
  MacroError, Tokens, bad_ast, close_of, error_message, execute_name, needs_command, needs_parens,
  not_a_param, unknown_command, user_error, when_block, when_condition,
}
use quark_lang.Macro.Balance.{take_balanced}
use quark_lang.Token.{
  Kind, Token, t_comma, t_dot, t_eof, t_ident, t_lbrace, t_lparen, t_rbrace, t_return, t_rparen,
  t_sharp, t_str, ◌is◌,
}

abbrev pub Subst : Type 0
Subst = List (Bytes × Tokens)

-- The kind of the i-th token, end of file behind the last one.
abbrev pub kind_at : Tokens → ℕ → Kind
kind_at [] i = t_eof
kind_at (t ∷ ts) zero = t.kind
kind_at (t ∷ ts) (suc i) = kind_at ts i

abbrev pub text_at : Tokens → ℕ → Bytes
text_at [] i = []
text_at (t ∷ ts) zero = t.text
text_at (t ∷ ts) (suc i) = text_at ts i

unfoldable pub parse_ast_arg : Tokens → Result MacroError Bytes
parse_ast_arg args =
    let n = length args in
    if ltb n 4
      || not (kind_at args 0 is t_sharp)
      || not (kind_at args 1 is t_ident)
      || not (equal (text_at args 1) (codes "ast"))
      || not (kind_at args 2 is t_lparen)
      || not (kind_at args (n - 1) is t_rparen)
    then err bad_ast
    else if leb 5 n
        && (kind_at args 3 is t_dot)
        && (kind_at args 4 is t_dot)
        && leb 6 n
        && (kind_at args 5 is t_dot)
    then ok (codes "...")
    else if kind_at args 3 is t_ident
    then ok (text_at args 3)
    else err bad_ast

-- What `expandBody` is given besides the tokens.
pub record Context : Type 0 where
  pub subst : Subst
  pub mode : Bytes
  pub param_order : List Bytes

-- The tokens produced, and whether `#return` ended the expansion.
abbrev pub Output : Type 0
Output = Result MacroError (Tokens × Bool)

abbrev pub emit : Tokens → Output → Output
emit out more = more >>= λ (rest, ended). ok (out ++ rest, ended)

abbrev pub or_else : Tokens → Option Tokens → Tokens
or_else d none = d
or_else d (some ts) = ts

-- The parameter's tokens, or the token itself.
unfoldable pub substitute : Subst → Token → Tokens
unfolding lookup
substitute s t = if t.kind is t_ident then or_else (t ∷ []) (lookup t.text s) else t ∷ []

-- `#insert(#ast(...))`: every parameter in order, with commas between.
unfoldable pub insert_all : Token → Subst → Bool → List Bytes → Tokens
unfolding lookup
insert_all t s first [] = []
insert_all t s first (p ∷ ps) =
    (if first then [] else (token t_comma (codes ",") t.line t.col ∷ []))
    ++ (or_else [] (lookup p s) ++ insert_all t s false ps)

pub insert_one : ℕ → Subst → Bytes → Result MacroError Tokens
insert_one line s name = elim (lookup name s) [
  | none ↦ err (not_a_param name line)
  | some ts ↦ ok ts
]

-- `args[0].Text == mode || (mode == "explain" && args[0].Text == "run")`.
unfoldable pub applies : Bytes → Bytes → Bool
unfolding equal
applies mode arg = equal arg mode || equal mode (codes "explain") && equal arg (codes "run")

-- `go` expands the tokens of a shorter list. A block that `#when` selects is expanded in place.
pub run_block : (Tokens → Output) → Bool → Tokens × Tokens → Output
run_block go taken (blk, after) =
    if taken
    then (go blk >>= λ (sub, ended). if ended then ok (sub, true) else emit sub (go after))
    else go after

-- The commands behind the `#` token `t`, each with its arguments and what follows them.
pub run_when : (Tokens → Output) → Context → Token → Tokens → Tokens → Output
run_when go cx t args rest =
    if ltb (length args) 1 || not (kind_at args 0 is t_ident)
    then err (when_condition t.line)
    else if not (kind_at rest 0 is t_lbrace)
    then err (when_block t.line)
    else take_balanced t_rbrace rest >>= run_block go (applies cx.mode (text_at args 0))

pub run_error : Token → Tokens → Output
run_error t args =
    if ltb (length args) 1 || not (kind_at args 0 is t_str)
    then err (error_message t.line)
    else err (user_error (text_at args 0) t.line)

pub run_insert : (Tokens → Output) → Context → Token → Tokens → Tokens → Output
run_insert go cx t args rest = parse_ast_arg args >>= λ inner.
    if equal inner (codes "...")
    then emit (insert_all t cx.subst true cx.param_order) (go rest)
    else insert_one t.line cx.subst inner >>= λ captured. emit captured (go rest)

pub run_execute : (Tokens → Output) → Token → Tokens → Tokens → Output
run_execute go t args rest =
    if ltb (length args) 1 || not (kind_at args 0 is t_ident)
    then err (execute_name t.line)
    else emit (token t_ident (text_at args 0) t.line t.col ∷ []) (go rest)

-- The `switch cmd`.
pub run_command : (Tokens → Output) → Context → Token → Bytes → Tokens → Tokens → Output
run_command go cx t cmd args rest =
    if equal cmd (codes "when")
    then run_when go cx t args rest
    else if equal cmd (codes "error")
    then run_error t args
    else if equal cmd (codes "insert")
    then run_insert go cx t args rest
    else if equal cmd (codes "execute")
    then run_execute go t args rest
    else err (unknown_command cmd t.line)

-- `args, ni, err := takeBalancedPair(body, i, closeK)`, and the switch.
pub run_parens : (Tokens → Output) → Context → Token → Bytes → Option Kind → Tokens → Output
run_parens go cx t cmd none rest = err (needs_parens cmd t.line)
run_parens go cx t cmd (some close) rest =
    take_balanced close rest >>= λ (args, after). run_command go cx t cmd args after

-- What stands behind a `#`.
pub run_sharp : (Tokens → Output) → Context → Token → Tokens → Output
run_sharp go cx t [] = err (needs_command t.line)
run_sharp go cx t (c ∷ rest) =
    if not (c.kind is t_ident) && not (c.kind is t_return)
    then err (needs_command t.line)
    else if equal c.text (codes "return")
    then (go rest >>= λ (sub, _). ok (sub, true))
    else run_parens go cx t c.text (close_of (kind_at rest 0)) rest

-- One round of `expandBody`, at the token `t`.
unfoldable pub body_round : (Tokens → Output) → Context → Token → Tokens → Output
unfolding substitute insert_all insert_one applies parse_ast_arg run_block run_when run_error
    run_insert run_execute run_command run_parens run_sharp take_balanced close_of equal
body_round go cx t ts =
    if not (t.kind is t_sharp) then emit (substitute cx.subst t) (go ts) else run_sharp go cx t ts

-- `expandBody`, on fuel: a block's inside is not a structural part of the tokens.
unfoldable pub expand_body : ℕ → Context → Tokens → Output
unfolding body_round
expand_body zero cx ts = out_of_fuel
expand_body (suc f) cx [] = ok ([], false)
expand_body (suc f) cx (t ∷ ts) = body_round (expand_body f cx) cx t ts
