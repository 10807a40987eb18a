-- ===== src/Cgen/Parser/Program/Ends.antt =====
-- compiler/internal/cgen/cgen.go: `parseProgram` ends.
use quark_lang.Base.{
  Bool, Bool-cases, Bytes, [], arith, codes, false, if◌then◌else◌, inl, inr, length, ltb, not, refl,
  starts, suc, true, zero, ℕ, ◌&&◌, ◌+◌, ◌==◌, ◌∷◌, ◌≡◌, ◌≢◌, ◌≤◌,
}
use quark_lang.Base.Int.{pos, ℤ}
use quark_lang.Base.Result.{Ensures, Ensures-if, Ensures-weaken, Result, err, ok, out_of_fuel}
use quark_lang.Cgen.{CBlock, FuncDef}
use quark_lang.Cgen.Parser.{
  CParseError, CParser, Spot, at_char, at_eof, at_text, brace, bump, expect_word, span, value, when,
  ◌>>=◌, ◌>>◌,
}
use quark_lang.Cgen.Parser.Funcs.{impl_method}
use quark_lang.Cgen.Parser.Funcs.Ends.{c_func-Sound, impl_method-Sound}
use quark_lang.Cgen.Parser.Program.{
  CProgram, add_top, block_ends, block_from, c_decl, c_decls, c_program, deeper, impl_decl_rest,
  impl_methods, kind_line, no_decls, parse_source, program_read, skip_macro, skip_macro_block,
  source_start, struct_decl_rest, struct_fields_rest,
}
use quark_lang.Cgen.Parser.Steps.{
  Eats-Sound, IsMove, Sound, Sound-less, bump-lt, left, span-le, value-Sound, when-Sound,
  when_eof-Sound_zero,
}
use quark_lang.Cgen.Parser.Steps.Rules.{
  bind-Eats_drop, bind-Eats_zero, bind-Sound, expect_word-Eats, sound_steps, space-Sound,
  then-Sound,
}
use quark_lang.Cgen.Parser.Stmts.{c_block, move_by, skip_chars}
use quark_lang.Cgen.Parser.Stmts.Ends.{c_block-Eats, move_by-le, skip_chars-Sound, type_name-Sound}

struct_fields_rest-Sound : (n : ℕ) → Sound n (struct_fields_rest (suc n))
unfolding struct_fields_rest
struct_fields_rest-Sound zero =
    when-Sound 0 _ _ _ (value-Sound 0 _)
      (Eats-Sound 0 _ (bind-Eats_zero expect_word _ (expect_word-Eats 0)))
struct_fields_rest-Sound (suc n) =
    let more = struct_fields_rest-Sound n in
    let name = Eats-Sound (suc n) _ (
      bind-Eats_drop n expect_word _ (expect_word-Eats (suc n))
        λ x. search (sound_steps, type_name-Sound) depth 16) in
    when-Sound (suc n) _ _ _ (value-Sound (suc n) _) name

struct_decl_rest-Sound : (n : ℕ) → Sound n (struct_decl_rest (suc n))
unfolding struct_decl_rest
struct_decl_rest-Sound n =
    let fields = struct_fields_rest-Sound n in search (sound_steps, skip_chars-Sound) depth 24

skip_macro_block-le :
    (first : Bool) (depth : ℤ) (i b : ℕ) (r : Bytes)
    → left (skip_macro_block first depth i b r) ≤ length r
unfolding skip_macro_block
skip_macro_block-le first depth i b [] = omega arith
skip_macro_block-le first depth i b (c ∷ cs) =
    let now = deeper c depth in
    let ih = skip_macro_block-le first now (i + 1) (b + brace c) cs in
    elim (Bool-cases (block_ends first c b now)) [
      | inl e ↦ rw e (omega arith)
      | inr e ↦ rw e (omega arith)
    ]

block_from-le : (first : Bool) → IsMove (block_from first)
block_from-le first s = skip_macro_block-le first (pos 0) s.pos s.braces s.rest

second_block-le : (b : Bool) (t : Spot) → left (if b then t else block_from false t) ≤ left t
second_block-le true t = omega arith
second_block-le false t = block_from-le false t

skip_macro-Sound : (n : ℕ) → Sound n skip_macro
unfolding skip_macro
skip_macro-Sound n = record {
  sound = λ s l.
      let behind = (span (λ c. not (c == b'{')) (block_from true s)).1 in
      omega (
        arith,
        second_block-le (at_eof behind) behind,
        span-le (λ c. not (c == b'{')) (block_from true s),
        block_from-le true s,
      );
}

kind_line-Sound : (n : ℕ) → Sound n kind_line
unfolding kind_line
kind_line-Sound n = search sound_steps depth 12

-- A step over characters, of which there is one.
module _ {ℓ} {A : Type ℓ} where
  after_skip :
      (n j : ℕ) (k : CParser A) (s : Spot)
      → at_eof s ≡ false
      → left s ≤ suc n
      → Sound n k
      → Ensures (λ (a, t). 0 + left t ≤ left s) ((skip_chars (suc j) >> k) s)
  unfolding skip_chars ◌>>◌ ◌>>=◌ move_by
  after_skip n j k s e l h =
      let far = move_by-le j (bump s) in
      let lt = bump-lt s e in
      Ensures-weaken _ _ (k (move_by j (bump s))) (λ (a, t) u. omega arith)
        (h.sound (move_by j (bump s)) (omega arith))

  when_skip-Sound :
      (n j : ℕ) (b : Spot → Bool) (k y : CParser A)
      → ((s : Spot) → b s ≡ true → at_eof s ≡ false)
      → Sound n k
      → Sound (suc n) y
      → Sound (suc n) (when b (skip_chars (suc j) >> k) y)
  unfolding when
  when_skip-Sound n j b k y o h p = record {
    sound = λ s l.
        Ensures-if _ (b s) ((skip_chars (suc j) >> k) s) (y s) (λ e. after_skip n j k s (o s e) l h)
          (λ e. p.sound s l);
  }

  unless_eof-Sound :
      (n j : ℕ) (x k : CParser A)
      → Sound (suc n) x
      → Sound n k
      → Sound (suc n) (when at_eof x (skip_chars (suc j) >> k))
  unfolding when
  unless_eof-Sound n j x k p h = record {
    sound = λ s l.
        Ensures-if _ (at_eof s) (x s) ((skip_chars (suc j) >> k) s) (λ e. p.sound s l)
          (λ e. after_skip n j k s e l h);
  }

fn-at_eof : (s : Spot) → at_text (codes "fn") s ≡ true → at_eof s ≡ false
unfolding at_text starts
fn-at_eof s h = go s.rest h
  where
    go :
        (r : Bytes)
        → (starts (codes "fn") r && ltb 2 (length r)) ≡ true
        → at_eof (record { pos = 0; braces = 0; rest = r }) ≡ false
    go [] h = cc
    go (c ∷ cs) h = refl

impl_methods-Sound :
    (n : ℕ) (method : CParser FuncDef) → Sound n method → Sound n (impl_methods (suc n) method)
unfolding impl_methods
impl_methods-Sound zero method h = when_eof-Sound_zero _ _ (value-Sound 0 _)
impl_methods-Sound (suc n) method h =
    let more = impl_methods-Sound n method (Sound-less n method h) in
    let last =
      unless_eof-Sound n 0 (skip_chars 1 >> value []) _ (search (sound_steps, skip_chars-Sound))
        more in
    let first =
      when_skip-Sound n 1 (at_text (codes "fn"))
        (method >>= λ m. impl_methods (suc n) method >>= λ ms. value (m ∷ ms)) _ fn-at_eof
        (bind-Sound n _ _ (Sound-less n method h)
          (λ m. bind-Sound n _ _ more (λ ms. value-Sound n _)))
        last in
    when-Sound (suc n) at_eof _ _ (value-Sound (suc n) _) (
      then-Sound (suc n) _ _ (space-Sound (suc n))
        (when-Sound (suc n) (at_char b'}') _ _ (value-Sound (suc n) _) first))

module _ (n : ℕ) (block : CParser CBlock) (b : Sound n block) where
  impl_decl_rest-Sound : Sound n (impl_decl_rest (suc n) block)
  unfolding impl_decl_rest
  impl_decl_rest-Sound =
      let methods : (t : Bytes) → Sound n (impl_methods (suc n) (impl_method (suc n) block t)) =
        λ t. impl_methods-Sound n _ (impl_method-Sound n block t b) in
      search (sound_steps, methods, skip_chars-Sound) depth 16

  c_decl-Sound : (w : Bytes) → Sound n (c_decl (suc n) block w)
  unfolding c_decl
  c_decl-Sound w =
      let func = c_func-Sound n block b in
      search
        (
          sound_steps, struct_decl_rest-Sound, skip_macro-Sound, kind_line-Sound,
          impl_decl_rest-Sound,
        )
        depth 16

c_decls-Sound : (n : ℕ) (p : CProgram) → Sound n (c_decls (suc n) p)
unfolding c_decls
c_decls-Sound zero p = when_eof-Sound_zero _ _ (value-Sound 0 _)
c_decls-Sound (suc n) p =
    let block = Eats-Sound n _ (c_block-Eats n) in
    let decl = bind-Eats_drop n expect_word _ (expect_word-Eats (suc n)) λ w.
      bind-Sound n _ _ (c_decl-Sound n (c_block (suc n)) block w)
        λ d. then-Sound n _ _ (space-Sound n) (c_decls-Sound n (add_top d p)) in
    when-Sound (suc n) at_eof _ _ (value-Sound (suc n) _) (Eats-Sound (suc n) _ decl)

program_read-ne :
    (P : CProgram × Spot → Type 0) (r : Result CParseError (CProgram × Spot))
    → Ensures P r
    → program_read r ≢ out_of_fuel
program_read-ne P (ok (p, s)) h = cc
program_read-ne P (err e) h = cc
program_read-ne P out_of_fuel h = absurd h

-- The parser of the compiler ends on every source, with a program or with an error.
pub parse_source-ends : (src : Bytes) → parse_source src ≢ out_of_fuel
unfolding parse_source c_program
parse_source-ends src =
    let n = length src in
    let whole = then-Sound n _ _ (space-Sound n) (c_decls-Sound n no_decls) in
    program_read-ne _ _ (whole.sound (source_start src) (omega arith))
