-- ===== src/Macro/Tests.antt =====
-- internal/lang/macro.go: small token lists through the macro system.
use quark_lang.Base.{Bytes, [], codes, equal, insert, lookup, refl, ◌++◌, ◌↔◌, ◌∷◌, ◌≡◌}
use quark_lang.Base.Int.{pos}
use quark_lang.Base.Result.{ok}
use quark_lang.Lexer.Literals.{token}
use quark_lang.Macro.{MacroDef, Tokens, close_of}
use quark_lang.Macro.Balance.{
  IsNested, join, split_top, split_top-join, take_balanced, take_balanced_iff,
}
use quark_lang.Macro.Define.{param_names, split_macro_defs}
use quark_lang.Macro.Define.Laws.{
  IsDefinition, layout_def, layout_end, layout_keep, split_macro_defs-Layout,
}
use quark_lang.Macro.Expand.{bind_params, by_name, expand_macros, macro_call_excluded}
use quark_lang.Macro.Expand.Call.{IsCall, expand_macros-IsCall, substitute_all}
use quark_lang.Token.{
  Kind, Token, t_comma, t_ident, t_lbrace, t_lparen, t_macro, t_plus, t_rbrace, t_rparen, t_sharp,
}

abbrev tok : Kind → Bytes → Token
tok k s = token k s 1 1

abbrev word : Bytes → Token
word s = tok t_ident s

abbrev comma : Token
comma = tok t_comma (codes ",")

abbrev lparen : Token
lparen = tok t_lparen (codes "(")

abbrev rparen : Token
rparen = tok t_rparen (codes ")")

abbrev lbrace : Token
lbrace = tok t_lbrace (codes "{")

abbrev rbrace : Token
rbrace = tok t_rbrace (codes "}")

abbrev plus : Token
plus = tok t_plus (codes "+")

take_balanced_example :
    (take_balanced t_rparen (lparen ∷ (lparen ∷ rparen ∷ []) ++ rparen ∷ comma ∷ [])
      ≡ ok (lparen ∷ rparen ∷ [], comma ∷ []))
    ↔ ((c : Token) × ((lparen ∷ rparen ∷ []) ++ rparen ∷ comma ∷ []
          ≡ (lparen ∷ rparen ∷ []) ++ c ∷ comma ∷ [])
        × IsNested (pos 1) (lparen ∷ rparen ∷ [])
        × (c.kind ≡ t_rparen))
take_balanced_example =
    take_balanced_iff t_rparen lparen ((lparen ∷ rparen ∷ []) ++ rparen ∷ comma ∷ [])
      (lparen ∷ rparen ∷ []) (comma ∷ []) refl

abbrev nested_part : Tokens
nested_part = lparen ∷ comma ∷ rparen ∷ []

split_top_example : split_top (join comma (nested_part ∷ [] ∷ [])) ≡ nested_part ∷ [] ∷ []
split_top_example =
    split_top-join comma (nested_part ∷ [] ∷ []) refl (λ e. cc)
      ((refl, (refl, (refl, refl))), (refl, tt))

-- `#macro twice (x) { x + x }`.
abbrev twice_body : Tokens
twice_body = word (codes "x") ∷ plus ∷ word (codes "x") ∷ []

abbrev twice : MacroDef
twice = record {
  name = codes "twice";
  params = codes "x" ∷ [];
  body = twice_body;
  pos = record { line = 1; col = 1 };
}

abbrev twice_tokens : Tokens
twice_tokens =
    tok t_sharp (codes "#")
    ∷ tok t_macro (codes "macro")
    ∷ word (codes "twice")
    ∷ lparen
    ∷ word (codes "x")
    ∷ rparen
    ∷ lbrace
    ∷ (twice_body ++ rbrace ∷ [])

twice-IsDefinition : IsDefinition twice_tokens twice
unfolding close_of param_names split_top
twice-IsDefinition = record {
  sharp = tok t_sharp (codes "#");
  keyword = tok t_macro (codes "macro");
  name = word (codes "twice");
  params_open = lparen;
  params_inner = word (codes "x") ∷ [];
  params_close = rparen;
  body_open = lbrace;
  body_close = rbrace;
  tokens = refl;
  is_sharp = refl;
  is_keyword = refl;
  is_name = refl;
  params_pair = refl;
  body_pair = refl;
  params_nested = (refl, refl);
  body_nested = (refl, (refl, (refl, refl)));
  named = refl;
  params_are = refl;
  position = refl;
}

split_macro_defs_example :
    split_macro_defs (plus ∷ twice_tokens ++ plus ∷ []) ≡ ok (twice ∷ [], plus ∷ plus ∷ [])
split_macro_defs_example =
    split_macro_defs-Layout (
      layout_keep (λ e. cc) (layout_def twice-IsDefinition refl (layout_keep (λ e. cc) layout_end)))

abbrev run : Bytes
run = codes "run"

twice-IsCall :
    IsCall
      (by_name (twice ∷ []))
      twice
      (word (codes "twice"))
      lparen
      (word (codes "y") ∷ [])
      rparen
      ((word (codes "y") ∷ []) ∷ [])
unfolding by_name lookup equal insert close_of split_top
twice-IsCall = record {
  ident = refl;
  known = refl;
  opened = refl;
  nested = (refl, refl);
  arguments = refl;
  enough = refl;
}

expand_call_example :
    expand_macros
      ((plus ∷ [])
        ++ word (codes "twice") ∷ lparen ∷ ((word (codes "y") ∷ []) ++ rparen ∷ comma ∷ []))
      (twice ∷ [])
      run
    ≡ ok (
        (plus ∷ [])
        ++ (substitute_all
              (bind_params [] (codes "x" ∷ []) ((word (codes "y") ∷ []) ∷ []))
              twice_body
            ++ comma ∷ []))
unfolding macro_call_excluded
expand_call_example =
    expand_macros-IsCall (plus ∷ []) (comma ∷ []) twice [] run twice (word (codes "twice")) lparen
      (word (codes "y") ∷ []) rparen ((word (codes "y") ∷ []) ∷ []) (λ e. cc, tt) refl twice-IsCall
      (refl, (refl, (refl, tt))) (λ e. cc, tt)
