-- ===== src/Cgen/Parser/Funcs/Ends.antt =====
-- compiler/internal/cgen/cgen.go: functions and methods end.
use quark_lang.Base.{Bool, Bytes, List, [], arith, false, if◌then◌else◌, suc, true, zero, ℕ, ◌≤◌}
use quark_lang.Base.Result.{Ensures-if, ok}
use quark_lang.Cgen.{CBlock}
use quark_lang.Cgen.Parser.{
  CParser, Spot, at_char, at_class, expect_word, ident_part, ident_start, on_span, span, value,
}
use quark_lang.Cgen.Parser.Exprs.{past_angle}
use quark_lang.Cgen.Parser.Exprs.Ends.{past_angle-le}
use quark_lang.Cgen.Parser.Funcs.{
  c_func, func_params, impl_method, method_end, method_params, optional_word, skip_type_params,
}
use quark_lang.Cgen.Parser.Steps.{
  Eats-Sound, Sound, left, on_char-Sound, span-le, value-Sound, when-Sound,
}
use quark_lang.Cgen.Parser.Steps.Rules.{
  bind-Eats_drop, bind-Eats_zero, expect_word-Eats, optional_char-Sound, sound_steps, space-Sound,
  then-Sound,
}
use quark_lang.Cgen.Parser.Stmts.Ends.{skip_chars-Sound, type_name-Sound}

pub optional_word-Sound : (n : ℕ) → Sound n optional_word
unfolding optional_word on_span value
optional_word-Sound n = record {
  sound = λ s l.
      Ensures-if _ (at_class ident_start s) (ok ((span ident_part s).0, (span ident_part s).1))
        (ok ([], s)) (λ e. omega (arith, span-le ident_part s)) (λ e. omega arith);
}

func_params-Sound : (n : ℕ) → Sound n (func_params (suc n))
unfolding func_params
func_params-Sound zero =
    let name = Eats-Sound 0 _ (bind-Eats_zero expect_word _ (expect_word-Eats 0)) in
    then-Sound 0 _ _ (space-Sound 0) (on_char-Sound 0 b')' _ _ (value-Sound 0 _) name)
func_params-Sound (suc n) =
    let more = func_params-Sound n in
    let name = Eats-Sound (suc n) _ (
      bind-Eats_drop n expect_word _ (expect_word-Eats (suc n))
        λ x. search (sound_steps, optional_word-Sound) depth 16) in
    then-Sound (suc n) _ _ (space-Sound (suc n))
      (on_char-Sound (suc n) b')' _ _ (value-Sound (suc n) _) name)

past_angle-if : (b : Bool) (s : Spot) → left (if b then past_angle s else s) ≤ left s
past_angle-if true s = past_angle-le s
past_angle-if false s = omega arith

skip_type_params-Sound : (n : ℕ) → Sound n skip_type_params
unfolding skip_type_params
skip_type_params-Sound n = record { sound = λ s l. omega (arith, past_angle-if (at_char b'<' s) s) }

module _ (n : ℕ) (block : CParser CBlock) (b : Sound n block) where
  pub c_func-Sound : Sound n (c_func (suc n) block)
  unfolding c_func
  c_func-Sound =
      let params = func_params-Sound n in
      search (sound_steps, optional_word-Sound, skip_type_params-Sound) depth 24

  method_end-Sound : (t w v : Bytes) (ps : List Bytes) → Sound n (method_end block t w v ps)
  unfolding method_end
  method_end-Sound t w v ps = search (sound_steps, optional_word-Sound, skip_chars-Sound) depth 20

method_params-Sound : (n : ℕ) → Sound n (method_params (suc n))
unfolding method_params
method_params-Sound zero =
    let name = Eats-Sound 0 _ (bind-Eats_zero expect_word _ (expect_word-Eats 0)) in
    when-Sound 0 _ _ _ (value-Sound 0 _)
      (then-Sound 0 _ _ (optional_char-Sound 0 b',') (then-Sound 0 _ _ (space-Sound 0) name))
method_params-Sound (suc n) =
    let more = method_params-Sound n in
    let name = Eats-Sound (suc n) _ (
      bind-Eats_drop n expect_word _ (expect_word-Eats (suc n))
        λ x. search (sound_steps, type_name-Sound) depth 16) in
    when-Sound (suc n) _ _ _ (value-Sound (suc n) _) (
      then-Sound (suc n) _ _ (optional_char-Sound (suc n) b',')
        (then-Sound (suc n) _ _ (space-Sound (suc n)) name))

pub impl_method-Sound :
    (n : ℕ) (block : CParser CBlock) (styp : Bytes)
    → Sound n block
    → Sound n (impl_method (suc n) block styp)
unfolding impl_method
impl_method-Sound n block styp b =
    let params = method_params-Sound n in
    search (sound_steps, type_name-Sound, method_end-Sound) depth 24
