-- ===== src/Front/Ends.antt =====
-- internal/lang/parser.go: the front end of `compileSlow` ends.

use quark_lang.Base.{Bytes, codes, refl, ◌≢◌}
use quark_lang.Base.Result.{
  Ensures, Ensures->>=, Ensures-ne-out_of_fuel, Result, err, ok, out_of_fuel,
}
use quark_lang.Front.{
  CompileError, lex_failed, macro_failed, parse_failed, raise, syntax_tree, without_macros,
}
use quark_lang.Lexer.Progress.{IsStream, lex-IsStream}
use quark_lang.Macro.{Tokens}
use quark_lang.Macro.Define.{split_macro_defs}
use quark_lang.Macro.Define.Laws.{split_macro_defs-ne-out_of_fuel}
use quark_lang.Macro.Define.Stream.{split_macro_defs-Yields}
use quark_lang.Macro.Expand.Laws.{expand_macros-ne-out_of_fuel}
use quark_lang.Macro.Expand.Stream.{expand_macros-Yields}
use quark_lang.Macro.Stream.{Yields-Ensures}
use quark_lang.Parser.Programs.{parse}
use quark_lang.Parser.Programs.Ends.{parse-ne-out_of_fuel}

-- From tokens that end with the end-of-file token, and hold no other, taking out the macro definitions
-- and expanding the calls ends, and makes such tokens again if it is not refused.
pub without_macros-IsStream : (ts : Tokens) → IsStream ts → Ensures IsStream (without_macros ts)
unfolding without_macros
without_macros-IsStream ts h =
    Ensures->>= _ _ (split_macro_defs ts) _
      (Yields-Ensures (split_macro_defs-Yields ts h) (split_macro_defs-ne-out_of_fuel ts))
      λ (defs, rest) (d, l).
        Yields-Ensures (expand_macros-Yields rest defs (codes "explain") d l)
          (expand_macros-ne-out_of_fuel rest defs (codes "explain"))

raise-Ensures {ℓ} :
    {E : Type 0} {A : Type ℓ} (P : A → Type 0) (f : E → CompileError) (r : Result E A)
    → Ensures P r
    → Ensures P (raise f r)
raise-Ensures P f (ok a) h = h
raise-Ensures P f (err e) h = tt
raise-Ensures P f out_of_fuel h = absurd h

ends-Ensures {ℓ} :
    {E : Type 0} {A : Type ℓ} (r : Result E A) → r ≢ out_of_fuel → Ensures (λ _. Unit {0}) r
ends-Ensures (ok a) h = tt
ends-Ensures (err e) h = tt
ends-Ensures out_of_fuel h = h refl

-- On every source the lexer, the macros and the parser end, one after the other, with a program or with
-- an error.
pub syntax_tree-ne-out_of_fuel : (src : Bytes) → syntax_tree src ≢ out_of_fuel
unfolding syntax_tree
syntax_tree-ne-out_of_fuel src =
    Ensures-ne-out_of_fuel (λ _. Unit) _
      (Ensures->>= IsStream (λ _. Unit) _ _ (raise-Ensures IsStream lex_failed _ (lex-IsStream src))
        λ ts s.
          Ensures->>= IsStream (λ _. Unit) _ _
            (raise-Ensures IsStream macro_failed _ (without_macros-IsStream ts s))
            λ rest l.
              raise-Ensures (λ _. Unit) parse_failed (parse rest)
                (ends-Ensures (parse rest) (parse-ne-out_of_fuel rest l)))
