-- ===== src/Cgen/Parser/Funcs.antt =====
-- compiler/internal/cgen/cgen.go: functions and methods. `block` reads a body, and `f` bounds the
-- rounds of a loop.
pub mod Ends
use quark_lang.Base.{Bytes, List, [], if◌then◌else◌, suc, zero, ℕ, ◌++◌, ◌||◌, ◌∷◌}
use quark_lang.Base.Result.{ok}
use quark_lang.Cgen.{CBlock, FuncDef}
use quark_lang.Cgen.Parser.{
  CParser, at_char, at_eof, expect_char, expect_word, ident_part, ident_start, no_fuel_left,
  on_char, on_span, optional_char, space, value, when, ◌>>=◌, ◌>>◌,
}
use quark_lang.Cgen.Parser.Exprs.{past_angle}
use quark_lang.Cgen.Parser.Stmts.{skip_chars, c_type_name}

-- An identifier, if one stands here.
unfoldable pub optional_word : CParser Bytes
optional_word = on_span ident_start ident_part value (value [])

-- The loop over the parameters of a function; types and commas may be missing.
unfoldable pub func_params : ℕ → CParser (List Bytes)
func_params zero = no_fuel_left
func_params (suc f) = do
  space
  on_char b')' (value []) do
    name ← expect_word
    space
    optional_word
    space
    optional_char b','
    names ← func_params f
    value (name ∷ names)

unfoldable pub skip_type_params : CParser (Unit {0})
skip_type_params s = ok (tt, if at_char b'<' s then past_angle s else s)

-- `parseFunc`.
unfoldable pub c_func : ℕ → CParser CBlock → CParser FuncDef
c_func f block = do
  space
  name ← expect_word
  space
  skip_type_params
  params ← on_char b'(' (func_params f) (value [])
  space
  ret ← optional_word
  space
  expect_char b'{'
  body ← block
  value (record {
    name = name;
    params = params;
    ret = ret;
    body = body;
    self_typ = [];
    self_param = [];
  })

unfoldable pub method_params : ℕ → CParser (List Bytes)
method_params zero = no_fuel_left
method_params (suc f) =
    when (λ s. at_eof s || at_char b')' s) (value [])
      do
        optional_char b','
        space
        name ← expect_word
        space
        c_type_name
        space
        names ← method_params f
        value (name ∷ names)

unfoldable pub method_end : CParser CBlock → Bytes → Bytes → Bytes → List Bytes → CParser FuncDef
method_end block styp name self params = do
  skip_chars 1
  space
  ret ← optional_word
  space
  expect_char b'{'
  body ← block
  value (record {
    name = styp ++ (b'_' ∷ name);
    params = params;
    ret = ret;
    body = body;
    self_typ = styp;
    self_param = self;
  })

-- `parseImplMethod`, behind `fn`.
unfoldable pub impl_method : ℕ → CParser CBlock → Bytes → CParser FuncDef
impl_method f block styp = do
  space
  name ← expect_word
  space
  expect_char b'('
  space
  self ← expect_word
  space
  c_type_name
  space
  params ← method_params f
  method_end block styp name self params
