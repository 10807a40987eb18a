-- ===== src/Cgen/Parser/Program.antt =====
-- compiler/internal/cgen/cgen.go: the declarations of a source, `parseProgram`.
pub mod Ends
use quark_lang.Base.{
  Bool, Bytes, List, [], codes, equal, false, if◌then◌else◌, length, not, suc, true, zero, ℕ, ◌%◌,
  ◌&&◌, ◌++◌, ◌+◌, ◌==◌, ◌||◌, ◌∷◌,
}
use quark_lang.Base.Int.{dec, inc, is_zero, pos, ℤ}
use quark_lang.Base.Result.{Result, err, ok, out_of_fuel}
use quark_lang.Cgen.{CBlock, FuncDef, StructDef, stop}
use quark_lang.Cgen.Parser.{
  CParseError, CParser, Spot, at_char, at_eof, at_text, brace, expect_char, expect_word,
  func_should_be_fn, no_fuel_left, only_declarations, refuse, space, span, value, when, ◌>>=◌, ◌>>◌,
}
use quark_lang.Cgen.Parser.Funcs.{c_func, impl_method}
use quark_lang.Cgen.Parser.Stmts.{c_block, skip_chars, c_type_name}

pub record CProgram : Type 0 where
  pub funcs : List FuncDef
  pub main_stmts : CBlock
  pub structs : List StructDef

pub data CTop : Type 0 where
  top_struct : StructDef → CTop
  top_methods : List FuncDef → CTop
  top_func : FuncDef → CTop
  top_none : CTop

unfoldable pub struct_fields_rest : ℕ → CParser (List Bytes)
struct_fields_rest zero = no_fuel_left
struct_fields_rest (suc f) =
    when (λ s. at_eof s || at_char b'}' s) (value [])
      do
        name ← expect_word
        space
        c_type_name
        space
        expect_char b';'
        space
        names ← struct_fields_rest f
        value (name ∷ names)

unfoldable pub struct_decl_rest : ℕ → CParser CTop
struct_decl_rest f = do
  space
  expect_word
  space
  expect_char b'{'
  space
  fields ← struct_fields_rest f
  skip_chars 1
  space
  name ← expect_word
  space
  expect_char b';'
  value (top_struct (record { name = name; fields = fields }))

abbrev pub deeper : ℕ → ℤ → ℤ
deeper c depth = if c == b'{' then inc depth else if c == b'}' then dec depth else depth

-- The block ends with this byte, before which there are `br` opening braces; the first block of a
-- macro is to end behind an even number of them.
abbrev pub block_ends : Bool → ℕ → ℕ → ℤ → Bool
block_ends first c br depth = c == b'}' && is_zero depth && (not first || br % 2 == 0)

-- The loops that skip a block of a macro.
unfoldable pub skip_macro_block : Bool → ℤ → ℕ → ℕ → Bytes → Spot
skip_macro_block first depth i br [] = record { pos = i; braces = br; rest = [] }
skip_macro_block first depth i br (c ∷ cs) =
    let now = deeper c depth in
    let on = skip_macro_block first now (i + 1) (br + brace c) cs in
    if block_ends first c br now then record { pos = i + 1; braces = br; rest = cs } else on

abbrev pub block_from : Bool → Spot → Spot
block_from first s = skip_macro_block first (pos 0) s.pos s.braces s.rest

unfoldable pub skip_macro : CParser CTop
skip_macro s =
    let behind = (span (λ c. not (c == b'{')) (block_from true s)).1 in
    ok (top_none, if at_eof behind then behind else block_from false behind)

unfoldable pub kind_line : CParser CTop
kind_line = do
  space
  when (λ s. at_eof s || at_char b';' s) (value []) expect_word
  space
  expect_char b';'
  value top_none

-- The loop over the methods of an implementation, which passes over anything else.
unfoldable pub impl_methods : ℕ → CParser FuncDef → CParser (List FuncDef)
impl_methods zero method = no_fuel_left
impl_methods (suc f) method = when at_eof (value []) do
  space
  when (at_char b'}') (value []) (
      when (at_text (codes "fn"))
        (do skip_chars 2; m ← method; ms ← impl_methods f method; value (m ∷ ms))
        (when at_eof (do skip_chars 1; value []) (do skip_chars 1; impl_methods f method)))

unfoldable pub impl_decl_rest : ℕ → CParser CBlock → CParser CTop
impl_decl_rest f block = do
  space
  styp ← expect_word
  space
  expect_char b'{'
  methods ← impl_methods f (impl_method f block styp)
  skip_chars 1
  value (top_methods methods)

unfoldable pub c_decl : ℕ → CParser CBlock → Bytes → CParser CTop
c_decl f block w =
    if equal w (codes "type")
    then struct_decl_rest f
    else if equal w (codes "macro")
    then skip_macro
    else if equal w (codes "program") || equal w (codes "library") || equal w (codes "lib")
    then kind_line
    else if equal w (codes "impl")
    then impl_decl_rest f block
    else if equal w (codes "fn")
    then (do fd ← c_func f block; value (top_func fd))
    else if equal w (codes "func")
    then refuse func_should_be_fn
    else refuse (only_declarations w)

-- What a declaration adds to `p.funcs`, `p.stmts` and `p.structs`.
unfoldable pub add_top : CTop → CProgram → CProgram
add_top (top_struct d) p = record p { structs = p.structs ++ (d ∷ []) }
add_top (top_methods fds) p = record p { funcs = p.funcs ++ fds }
add_top (top_func fd) p = record p {
  funcs = p.funcs ++ (fd ∷ []);
  main_stmts = if equal fd.name (codes "main") then fd.body else p.main_stmts;
}
add_top top_none p = p

-- The loop of `parseProgram`.
unfoldable pub c_decls : ℕ → CProgram → CParser CProgram
c_decls zero p = no_fuel_left
c_decls (suc f) p =
    when at_eof (value p)
      do w ← expect_word; d ← c_decl f (c_block f) w; space; c_decls f (add_top d p)

abbrev pub no_decls : CProgram
no_decls = record { funcs = []; main_stmts = stop; structs = [] }

-- `parseProgram`.
unfoldable pub c_program : ℕ → CParser CProgram
c_program f = do space; c_decls f no_decls

abbrev pub source_start : Bytes → Spot
source_start src = record { pos = 0; braces = 0; rest = src }

abbrev pub program_read : Result CParseError (CProgram × Spot) → Result CParseError CProgram
program_read (ok (p, s)) = ok p
program_read (err e) = err e
program_read out_of_fuel = out_of_fuel

-- The parser on a whole source.
unfoldable pub parse_source : Bytes → Result CParseError CProgram
parse_source src = program_read (c_program (suc (length src)) (source_start src))
