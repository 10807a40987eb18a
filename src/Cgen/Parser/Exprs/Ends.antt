-- ===== src/Cgen/Parser/Exprs/Ends.antt =====
-- compiler/internal/cgen/cgen.go: `parseExpr` ends.
use quark_lang.Base.{
  Bool, Bytes, Option, [], arith, false, if◌then◌else◌, length, none, not, refl, some, starts, suc,
  true, zero, ℕ, ◌+◌, ◌==◌, ◌∷◌, ◌≡◌, ◌≤◌,
}
use quark_lang.Base.Result.{Ensures, Ensures-weaken}
use quark_lang.Cgen.{CExpr}
use quark_lang.Cgen.Parser.{CParser, Spot, at_eof, brace, bump, is_decimal, move, span}
use quark_lang.Cgen.Parser.Exprs.{
  Operators, add_level, add_ops, after_byte, and_level, and_ops, bad_char, call_rest, chain_rest,
  closed_string, cmp_level, cmp_ops, expr_of, generic_rest, index_rest, items_until, method_rest,
  mul_level, mul_ops, name_rest, op_chain, or_level, or_ops, paren_rest, parse_operand, past_angle,
  past_op, primary_cases, signed_check, string_literal, string_rest, struct_rest, take_op,
  unescaped, values_rest, word_expr,
}
use quark_lang.Cgen.Parser.Steps.{
  Eats, Eats-Sound, Eats-less, IsMove, Sound, Sound-less, bump-le, bump-lt, left, on_char-Eats_drop,
  on_char-Sound, on_span-Eats_drop, refuse-Eats, skipped-le, span-le, value-Sound, when-Eats,
  when-Sound, when_eof-Eats_zero,
}
use quark_lang.Cgen.Parser.Steps.Rules.{
  bind-Eats, bind-Eats_drop, bind-Eats_zero, bind-Sound, move-Sound, sound_steps, space-Sound,
  start-part, then-Sound, then-Sound-Eats,
}

past_op-lt : (two : Bool) (s : Spot) → at_eof s ≡ false → suc (left (past_op two s)) ≤ left s
past_op-lt true s e = omega (arith, bump-lt s e, bump-le (bump s))
past_op-lt false s e = bump-lt s e

-- An operator stands only before a byte.
abbrev pub IsOps : Operators → Type 0
IsOps ops = ops [] ≡ none

op-at_eof :
    (ops : Operators) (s : Spot) {found : Bool × (CExpr → CExpr → CExpr)}
    → IsOps ops
    → ops s.rest ≡ some found
    → at_eof s ≡ false
op-at_eof ops s {found} o e = go s.rest e
  where
    go :
        (r : Bytes) → ops r ≡ some found → at_eof (record { pos = 0; braces = 0; rest = r }) ≡ false
    go [] e = cc
    go (c ∷ cs) e = refl

module _ (ops : Operators) (x : (CExpr → CExpr → CExpr) → CParser CExpr) (y : CParser CExpr)
    (o : IsOps ops) where
  take_op-Sound_zero : Sound 0 y → Sound 0 (take_op ops x y)
  unfolding take_op
  take_op-Sound_zero k = record { sound = λ s l. go s l (ops s.rest) refl }
    where
      go :
          (s : Spot)
          → left s ≤ 0
          → (r : Option (Bool × (CExpr → CExpr → CExpr))) → ops s.rest ≡ r
          → Ensures
              (λ (a, t). 0 + left t ≤ left s)
              (elim r [ none ↦ y s | some (two, build) ↦ x build (past_op two s) ])
      go s l none e = k.sound s l
      go s l (some (two, build)) e = absurd (omega (arith, past_op-lt two s (op-at_eof ops s o e)))

  take_op-Sound_drop :
      (n : ℕ)
      → ((build : CExpr → CExpr → CExpr) → Sound n (x build))
      → Sound (suc n) y
      → Sound (suc n) (take_op ops x y)
  unfolding take_op
  take_op-Sound_drop n h k = record { sound = λ s l. go s l (ops s.rest) refl }
    where
      go :
          (s : Spot)
          → left s ≤ suc n
          → (r : Option (Bool × (CExpr → CExpr → CExpr))) → ops s.rest ≡ r
          → Ensures
              (λ (a, t). 0 + left t ≤ left s)
              (elim r [ none ↦ y s | some (two, build) ↦ x build (past_op two s) ])
      go s l none e = k.sound s l
      go s l (some (two, build)) e =
          let lt = past_op-lt two s (op-at_eof ops s o e) in
          Ensures-weaken _ _ (x build (past_op two s)) (λ (a, t) u. omega arith)
            ((h build).sound (past_op two s) (omega arith))

module _ (operand : CParser CExpr) (ops : Operators) (o : IsOps ops) where
  chain_rest-Sound :
      (n : ℕ) (l : CExpr) → Sound n operand → Sound n (chain_rest (suc n) ops operand l)
  unfolding chain_rest
  chain_rest-Sound zero l h =
      then-Sound 0 _ _ (space-Sound 0) (take_op-Sound_zero ops _ _ o (value-Sound 0 l))
  chain_rest-Sound (suc n) l h = then-Sound (suc n) _ _ (space-Sound (suc n)) (
      take_op-Sound_drop ops _ _ o n
        (λ build.
          bind-Sound n _ _ (Sound-less n _ h)
            (λ r. chain_rest-Sound n (build l r) (Sound-less n _ h)))
        (value-Sound (suc n) l))

  pub op_chain-Eats : (n : ℕ) → Eats n operand → Eats n (op_chain (suc n) ops operand)
  unfolding op_chain
  op_chain-Eats n h = bind-Eats n _ _ h (λ l. chain_rest-Sound n l (Eats-Sound n _ h))

pub expr_of-Eats :
    (n : ℕ) (operand : CParser CExpr) → Eats n operand → Eats n (expr_of (suc n) operand)
unfolding expr_of or_level and_level cmp_level add_level mul_level or_ops and_ops cmp_ops add_ops
    mul_ops starts
expr_of-Eats n operand h =
    let products = op_chain-Eats operand mul_ops refl n h in
    let sums = op_chain-Eats _ add_ops refl n products in
    let comparisons = op_chain-Eats _ cmp_ops refl n sums in
    let ands = op_chain-Eats _ and_ops refl n comparisons in
    then-Sound-Eats n _ _ (space-Sound n) (op_chain-Eats _ or_ops refl n ands)

-- What is left behind a literal, if it is closed.
abbrev Fits : ℕ → Option (Bytes × Spot) → Type 0
Fits n none = Unit
Fits n (some (s, t)) = left t ≤ n

after_byte-Fits : (n c : ℕ) (o : Option (Bytes × Spot)) → Fits n o → Fits (suc n) (after_byte c o)
after_byte-Fits n c none h = tt
after_byte-Fits n c (some (s, t)) h = omega arith

Fits-suc : (n : ℕ) (o : Option (Bytes × Spot)) → Fits n o → Fits (suc n) o
Fits-suc n none h = tt
Fits-suc n (some (s, t)) h = omega arith

Fits-if :
    (n : ℕ) (b : Bool) (x y : Option (Bytes × Spot))
    → Fits n x
    → Fits n y
    → Fits n (if b then x else y)
Fits-if n true x y h k = h
Fits-if n false x y h k = k

string_rest-Fits : (i b : ℕ) (r : Bytes) → Fits (length r) (string_rest i b r)
unfolding string_rest
string_rest-Fits i b [] = tt
string_rest-Fits i b (c ∷ []) = Fits-if 1 (c == b'"') _ _ (omega arith) tt
string_rest-Fits i b (c ∷ d ∷ cs) =
    let n = length cs in
    Fits-if (suc (suc n)) (c == b'"') _ _ (omega arith) (
      Fits-if (suc (suc n)) (c == 92) _ _
        (Fits-suc (suc n) _
          (after_byte-Fits n (unescaped d) _ (string_rest-Fits (i + 2) (b + brace d) cs)))
        (after_byte-Fits (suc n) c _ (string_rest-Fits (i + 1) (b + brace c) (d ∷ cs))))

string_literal-Sound : (n : ℕ) → Sound n string_literal
unfolding string_literal
string_literal-Sound n = record {
  sound = λ s l.
      go (left s) (string_rest s.pos s.braces s.rest) (string_rest-Fits s.pos s.braces s.rest);
}
  where
    go :
        (k : ℕ) (o : Option (Bytes × Spot))
        → Fits k o
        → Ensures (λ (a, t). 0 + left t ≤ k) (closed_string o)
    go k none h = tt
    go k (some (w, t)) h = omega arith

items_until-Sound :
    (n close : ℕ) (expr : CParser CExpr) → Eats n expr → Sound n (items_until (suc n) close expr)
unfolding items_until
items_until-Sound zero close expr h =
    let item = Eats-Sound 0 _ (bind-Eats_zero expr _ h) in
    then-Sound 0 _ _ (space-Sound 0) (on_char-Sound 0 close _ _ (value-Sound 0 _) item)
items_until-Sound (suc n) close expr h =
    let more = items_until-Sound n close expr (Eats-less n expr h) in
    let item = Eats-Sound (suc n) _ (bind-Eats_drop n expr _ h λ x. search sound_steps depth 12) in
    then-Sound (suc n) _ _ (space-Sound (suc n))
      (on_char-Sound (suc n) close _ _ (value-Sound (suc n) _) item)

bump-Sound : (n : ℕ) → Sound n (move bump)
bump-Sound n = move-Sound n bump bump-le

values_rest-Sound :
    (n : ℕ) (expr : CParser CExpr) → Eats n expr → Sound n (values_rest (suc n) expr)
unfolding values_rest
values_rest-Sound zero expr h =
    let item = Eats-Sound 0 _ (bind-Eats_zero expr _ h) in
    when-Sound 0 _ _ _ (then-Sound 0 _ _ (bump-Sound 0) (value-Sound 0 _)) item
values_rest-Sound (suc n) expr h =
    let more = values_rest-Sound n expr (Eats-less n expr h) in
    let item = Eats-Sound (suc n) _ (bind-Eats_drop n expr _ h λ x. search sound_steps depth 12) in
    when-Sound (suc n) _ _ _ (then-Sound (suc n) _ _ (bump-Sound (suc n)) (value-Sound (suc n) _))
      item

pub past_angle-le : IsMove past_angle
unfolding past_angle
past_angle-le s =
    let behind = span (λ c. not (c == b'>')) s in
    omega (arith, skipped-le (bump behind.1), bump-le behind.1, span-le (λ c. not (c == b'>')) s)

module _ (n : ℕ) (expr : CParser CExpr) (h : Eats n expr) where
  index_rest-Sound : (w : Bytes) → Sound n (index_rest expr w)
  unfolding index_rest
  index_rest-Sound w = let e = Eats-Sound n expr h in search sound_steps depth 12

  call_rest-Sound : (w : Bytes) → Sound n (call_rest (suc n) expr w)
  unfolding call_rest signed_check
  call_rest-Sound w = let items = items_until-Sound n b')' expr h in search sound_steps depth 12

  generic_rest-Sound : (w : Bytes) → Sound n (generic_rest (suc n) expr w)
  unfolding generic_rest
  generic_rest-Sound w =
      let items = items_until-Sound n b')' expr h in
      let angle = move-Sound n past_angle past_angle-le in
      then-Sound n _ _ angle (then-Sound n _ _ (bump-Sound n) (search sound_steps depth 12))

  method_rest-Sound : (w : Bytes) → Sound n (method_rest (suc n) expr w)
  unfolding method_rest
  method_rest-Sound w = let items = items_until-Sound n b')' expr h in search sound_steps depth 12

  word_expr-Sound : (w : Bytes) → Sound n (word_expr (suc n) expr w)
  unfolding word_expr name_rest
  word_expr-Sound w =
      search (sound_steps, index_rest-Sound, call_rest-Sound, generic_rest-Sound, method_rest-Sound)
        depth 12

  struct_rest-Sound : Sound n (struct_rest (suc n) expr)
  unfolding struct_rest
  struct_rest-Sound = let values = values_rest-Sound n expr h in search sound_steps depth 12

  paren_rest-Sound : Sound n (paren_rest expr)
  unfolding paren_rest
  paren_rest-Sound = let e = Eats-Sound n expr h in search sound_steps depth 12

bad_char-Eats : (n : ℕ) → Eats n bad_char
unfolding bad_char
bad_char-Eats n = record { eats = λ s l. tt }

primary_cases-Eats :
    (n : ℕ) (expr operand : CParser CExpr)
    → Eats n expr
    → Eats n operand
    → Eats (suc n) (primary_cases (suc n) expr operand)
unfolding primary_cases
primary_cases-Eats n expr operand h k =
    let inner = Eats-Sound n operand k in
    let lists = items_until-Sound n b']' expr h in
    let same : (c : ℕ) → is_decimal c ≡ true → is_decimal c ≡ true = λ c e. e in
    search
      (
        on_span-Eats_drop, on_char-Eats_drop, bad_char-Eats, start-part, same, string_literal-Sound,
        word_expr-Sound, struct_rest-Sound, paren_rest-Sound, sound_steps,
      )
      depth 16

pub parse_operand-Eats : (n : ℕ) → Eats n (parse_operand (suc n))
unfolding parse_operand
parse_operand-Eats zero =
    then-Sound-Eats 0 _ _ (space-Sound 0) (when_eof-Eats_zero _ _ (refuse-Eats 0 _))
parse_operand-Eats (suc n) =
    let operand = parse_operand-Eats n in
    let expr = expr_of-Eats n _ operand in
    then-Sound-Eats (suc n) _ _ (space-Sound (suc n))
      (when-Eats (suc n) at_eof _ _ (refuse-Eats (suc n) _) (primary_cases-Eats n _ _ expr operand))
