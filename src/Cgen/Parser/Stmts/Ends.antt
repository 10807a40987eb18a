-- ===== src/Cgen/Parser/Stmts/Ends.antt =====
-- compiler/internal/cgen/cgen.go: `parseBlock` ends.
use quark_lang.Base.{
  Bool, Bool-cases, Bytes, Option, arith, codes, equal, false, if◌then◌else◌, inl, inr, none, not,
  some, suc, true, zero, ℕ, ◌&&◌, ◌==◌, ◌||◌, ◌≤◌,
}
use quark_lang.Base.Result.{Ensures-if, Ensures-weaken}
use quark_lang.Cgen.{CBlock, CExpr, CStmt}
use quark_lang.Cgen.Parser.{
  CParser, Spot, at_char, at_class, at_eof, bump, ident_part, ident_start, skipped, span, value,
  ◌>>=◌,
}
use quark_lang.Cgen.Parser.Exprs.Ends.{expr_of-Eats, parse_operand-Eats}
use quark_lang.Cgen.Parser.Steps.{
  Eats, Eats-Sound, Eats-less, IsMove, Sound, bump-le, if-Sound, left, on_char-Eats_drop,
  on_char-Sound, refuse-Eats, skipped-le, span-le, span-lt, value-Sound, when-Eats,
  when_eof-Eats_zero,
}
use quark_lang.Cgen.Parser.Steps.Rules.{
  bind-Eats, bind-Eats_drop, bind-Eats_zero, bind-Sound, sound_steps, space-Sound, start-part,
  then-Sound, then-Sound-Eats,
}
use quark_lang.Cgen.Parser.Stmts.{
  after_expr, after_type, assign_rest, block_cases, braced, c_block, catch_name, catch_part,
  semi_after, decl_rest, element_of, element_rest, else_block, equals_sign, expr_stmt_from,
  first_word, free_rest, if_stmt_rest, io_rest, is_stmt_word, joined, keyword_stmt, more_args,
  move_by, named_stmt, past_generics, print_args, print_rest, return_stmt_rest, skip_chars, test_of,
  try_stmt_rest, c_type_name, while_stmt_rest,
}

pub move_by-le : (k : ℕ) → IsMove (move_by k)
unfolding move_by
move_by-le zero s = omega arith
move_by-le (suc k) s = omega (arith, move_by-le k (bump s), bump-le s)

pub skip_chars-Sound : (n k : ℕ) → Sound n (skip_chars k)
unfolding skip_chars
skip_chars-Sound n k = record { sound = λ s l. omega (arith, move_by-le k s) }

past_generics-le : IsMove past_generics
past_generics-le s =
    let inner = (span (λ c. not (c == b'>')) (bump s)).1 in
    go inner (omega (arith, span-le (λ c. not (c == b'>')) (bump s), bump-le s))
  where
    go : (t : Spot) → left t ≤ left s → left (if at_eof t then t else bump t) ≤ left s
    go t h = elim (Bool-cases (at_eof t)) [
      | inl e ↦ rw e h
      | inr e ↦ rw e (omega (arith, bump-le t))
    ]

after_type-le : (w : Bytes) → IsMove (after_type w)
after_type-le w s = go (equal w (codes "List") && at_char b'<' s)
  where
    go : (b : Bool) → left (if b then past_generics s else s) ≤ left s
    go true = past_generics-le s
    go false = omega arith

pub type_name-Sound : (n : ℕ) → Sound n c_type_name
unfolding c_type_name
type_name-Sound n = record {
  sound = λ s l.
      let word = span ident_part s in
      omega (arith, after_type-le word.0 word.1, span-le ident_part s);
}

pub semi_after-Sound {ℓ} : {A : Type ℓ} (n : ℕ) (x : A) → Sound n (semi_after x)
unfolding semi_after
semi_after-Sound n x = search sound_steps

catch_name-Sound : (n : ℕ) → Sound n catch_name
unfolding catch_name
catch_name-Sound n = search sound_steps depth 12

module _ (n : ℕ) (block : CParser CBlock) (b : Sound n block) where
  pub braced-Sound : Sound n (braced block)
  unfolding braced
  braced-Sound = search sound_steps

  catch_part-Sound : Sound n (catch_part block)
  unfolding catch_part
  catch_part-Sound = search (sound_steps, braced-Sound, catch_name-Sound, skip_chars-Sound) depth 12

  else_block-Sound : Sound n (else_block block)
  unfolding else_block
  else_block-Sound = search (sound_steps, braced-Sound, skip_chars-Sound) depth 12

  try_stmt_rest-Sound : Sound n (try_stmt_rest block)
  unfolding try_stmt_rest
  try_stmt_rest-Sound = search (sound_steps, braced-Sound, catch_part-Sound) depth 12

free_rest-Sound : (n : ℕ) → Sound n free_rest
unfolding free_rest
free_rest-Sound n = search (sound_steps, semi_after-Sound) depth 12

more_args-Sound : (n : ℕ) (expr : CParser CExpr) → Eats n expr → Sound n (more_args (suc n) expr)
unfolding more_args
more_args-Sound zero expr h = then-Sound 0 _ _ (space-Sound 0) (
    on_char-Sound 0 b',' _ _
      (then-Sound 0 _ _ (space-Sound 0) (Eats-Sound 0 _ (bind-Eats_zero expr _ h)))
      (value-Sound 0 _))
more_args-Sound (suc n) expr h =
    let more = more_args-Sound n expr (Eats-less n expr h) in
    let item = Eats-Sound (suc n) _ (bind-Eats_drop n expr _ h λ x. search sound_steps depth 12) in
    then-Sound (suc n) _ _ (space-Sound (suc n)) (
      on_char-Sound (suc n) b',' _ _ (then-Sound (suc n) _ _ (space-Sound (suc n)) item)
        (value-Sound (suc n) _))

module _ (n : ℕ) (expr : CParser CExpr) (h : Eats n expr) where
  print_args-Sound : Sound n (print_args (suc n) expr)
  unfolding print_args
  print_args-Sound =
      let e = Eats-Sound n expr h in
      let more = more_args-Sound n expr h in search sound_steps depth 12

  io_rest-Sound : Sound n (io_rest (suc n) expr)
  unfolding io_rest print_rest
  io_rest-Sound = search (sound_steps, print_args-Sound, semi_after-Sound) depth 16

  return_stmt_rest-Sound : Sound n (return_stmt_rest expr)
  unfolding return_stmt_rest
  return_stmt_rest-Sound = let e = Eats-Sound n expr h in search (sound_steps, semi_after-Sound)

  test_of-Sound : Sound n (test_of expr)
  unfolding test_of
  test_of-Sound = let e = Eats-Sound n expr h in search sound_steps depth 12

  equals_sign-Sound : (w : Bytes) → Sound n (equals_sign w)
  unfolding equals_sign
  equals_sign-Sound w = search sound_steps

  named_stmt-Sound : (w : Bytes) → Sound n (named_stmt expr w)
  unfolding named_stmt assign_rest decl_rest
  named_stmt-Sound w =
      let e = Eats-Sound n expr h in
      search (sound_steps, semi_after-Sound, type_name-Sound, equals_sign-Sound) depth 16

  element_rest-Sound : (w : Bytes) (i : CExpr) → Sound n (element_rest expr w i)
  unfolding element_rest
  element_rest-Sound w i =
      let e = Eats-Sound n expr h in search (sound_steps, semi_after-Sound) depth 12

  after_expr-Sound : (x : CExpr) (o : Option (Bytes × CExpr)) → Sound n (after_expr expr x o)
  unfolding after_expr
  after_expr-Sound x none = search sound_steps
  after_expr-Sound x (some (w, i)) = search (sound_steps, element_rest-Sound) depth 12

  expr_stmt_from-Eats : Eats n (expr_stmt_from expr)
  unfolding expr_stmt_from
  expr_stmt_from-Eats =
      bind-Eats n expr _ h λ x. then-Sound n _ _ (space-Sound n) (after_expr-Sound x (element_of x))

  if_stmt_rest-Sound : (block : CParser CBlock) → Sound n block → Sound n (if_stmt_rest expr block)
  unfolding if_stmt_rest
  if_stmt_rest-Sound block b =
      search (sound_steps, test_of-Sound, braced-Sound, else_block-Sound) depth 12

  while_stmt_rest-Sound :
      (block : CParser CBlock) → Sound n block → Sound n (while_stmt_rest expr block)
  unfolding while_stmt_rest
  while_stmt_rest-Sound block b = search (sound_steps, test_of-Sound, braced-Sound) depth 12

  keyword_stmt-Sound :
      (block : CParser CBlock) (w : Bytes)
      → Sound n block
      → Sound n (keyword_stmt (suc n) expr block w)
  unfolding keyword_stmt
  keyword_stmt-Sound block w b =
      search
        (
          if-Sound, try_stmt_rest-Sound, if_stmt_rest-Sound, while_stmt_rest-Sound, free_rest-Sound,
          io_rest-Sound, return_stmt_rest-Sound, named_stmt-Sound,
        )
        depth 12

first_word-Eats_drop :
    (n : ℕ) (hit : Bytes → CParser (Option CStmt)) (miss : CParser (Option CStmt))
    → ((w : Bytes) → Sound n (hit w))
    → Eats (suc n) miss
    → Eats (suc n) (first_word hit miss)
unfolding first_word
first_word-Eats_drop n hit miss h k = record {
  eats = λ s l.
      let word = span ident_part s in
      let behind = skipped word.1 in
      elim (Bool-cases (at_class ident_start s)) [
        | inl e ↦
            let lt = span-lt ident_start ident_part s start-part e in
            let le = skipped-le word.1 in
            rw e (
              Ensures-if _
                (is_stmt_word word.0 || at_char b'=' behind || at_class ident_start behind)
                (hit word.0 behind) (miss s)
                (λ _.
                  Ensures-weaken _ _ (hit word.0 behind) (λ (a, r) u. omega arith)
                    ((h word.0).sound behind (omega arith)))
                (λ _. k.eats s l))
        | inr e ↦ rw e tt
      ];
}

block_cases-Eats :
    (n : ℕ) (expr : CParser CExpr) (block : CParser CBlock)
    → Eats (suc n) expr
    → Sound n block
    → Eats (suc n) (block_cases (suc n) expr block)
unfolding block_cases
block_cases-Eats n expr block h b =
    let less = Eats-less n expr h in
    let words : (w : Bytes) → Sound n (keyword_stmt (suc n) expr block w) =
      λ w. keyword_stmt-Sound n expr less block w b in
    let stmt = first_word-Eats_drop n _ _ words (expr_stmt_from-Eats (suc n) expr h) in
    let more =
      bind-Eats_drop n _ (λ s. block >>= λ r. value (joined s r)) stmt
        (λ s. bind-Sound n _ _ b (λ r. value-Sound n _)) in
    then-Sound-Eats (suc n) _ _ (space-Sound (suc n)) (
      when-Eats (suc n) at_eof _ _ (refuse-Eats (suc n) _)
        (on_char-Eats_drop n b'}' _ _ (value-Sound n _) more))

pub c_block-Eats : (n : ℕ) → Eats n (c_block (suc n))
unfolding c_block block_cases
c_block-Eats zero = then-Sound-Eats 0 _ _ (space-Sound 0) (when_eof-Eats_zero _ _ (refuse-Eats 0 _))
c_block-Eats (suc n) =
    block_cases-Eats n _ _ (expr_of-Eats (suc n) _ (parse_operand-Eats (suc n)))
      (Eats-Sound n _ (c_block-Eats n))
