-- ===== src/Parser/Lists.antt =====
-- internal/lang/parser.go: the loops over members in braces and over lists with commas.
pub mod Ends
use quark_lang.Base.{Bytes, List, [], suc, zero, ℕ, ◌∷◌}
use quark_lang.Parser.{
  Parser, cur_is, fail_here, no_fuel, on_kind, pure, test_if, unterminated, ◌>>=◌, ◌>>◌,
}
use quark_lang.Token.{t_comma, t_eof, t_rbrace}

module _ {ℓ} {A : Type ℓ} where
  -- `for !p.curIs(TRBrace) { if p.curIs(TEOF) { return ... } ... }; p.advance()`.
  unfoldable pub until_brace : ℕ → Bytes → Parser A → Parser (List A)
  until_brace zero what item = no_fuel
  until_brace (suc f) what item =
      on_kind t_rbrace (λ _. pure [])
        (test_if (cur_is t_eof) (fail_here (λ _. unterminated what))
          do x ← item; xs ← until_brace f what item; pure (x ∷ xs))

  -- `for { ...; if p.curIs(TComma) { p.advance(); continue }; break }`.
  unfoldable pub comma_list : ℕ → Parser A → Parser (List A)
  comma_list zero item = no_fuel
  comma_list (suc f) item = do
    x ← item
    on_kind t_comma (λ _. do xs ← comma_list f item; pure (x ∷ xs)) (pure (x ∷ []))
