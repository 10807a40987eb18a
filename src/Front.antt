-- ===== src/Front.antt =====
-- internal/lang/parser.go: `compileSlow` up to the syntax tree: the lexer, the macros and the parser in turn.
pub mod Ends
pub mod Calls
pub mod Fresh
pub mod Tests
use quark_lang.Base.{Bytes, codes}
use quark_lang.Base.Result.{Result, err, ok, out_of_fuel, ◌>>=◌}
use quark_lang.Lexer.{lex}
use quark_lang.Lexer.State.{LexError}
use quark_lang.Macro.{MacroError, Tokens}
use quark_lang.Macro.Define.{split_macro_defs}
use quark_lang.Macro.Expand.{expand_macros}
use quark_lang.Parser.{ParseError}
use quark_lang.Parser.Programs.{parse}
use quark_lang.Syntax.{Program}

pub data CompileError : Type 0 where
  lex_failed : LexError → CompileError
  macro_failed : MacroError → CompileError
  parse_failed : ParseError → CompileError

abbrev pub raise {ℓ} :
    {E : Type 0} {A : Type ℓ} → (E → CompileError) → Result E A → Result CompileError A
raise f (ok a) = ok a
raise f (err e) = err (f e)
raise f out_of_fuel = out_of_fuel

-- `SplitMacroDefs`, and `ExpandMacros` if there is a definition.
unfoldable pub without_macros : Tokens → Result MacroError Tokens
without_macros ts =
    split_macro_defs ts >>= λ (defs, rest). expand_macros rest defs (codes "explain")

unfoldable pub syntax_tree : Bytes → Result CompileError Program
syntax_tree src = raise lex_failed (lex src) >>= λ toks.
    raise macro_failed (without_macros toks) >>= λ rest. raise parse_failed (parse rest)
