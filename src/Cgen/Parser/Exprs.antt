-- ===== src/Cgen/Parser/Exprs.antt =====
-- compiler/internal/cgen/cgen.go: the expressions. A parser of operands, or of expressions, that a
-- function calls is its argument; `f` bounds the rounds of its loops.
pub mod Ends
use quark_lang.Base.{
  Bool, Bytes, Option, [], codes, equal, false, if◌then◌else◌, none, not, some, starts, suc, true,
  zero, ℕ, ◌%◌, ◌&&◌, ◌*◌, ◌+◌, ◌-◌, ◌==◌, ◌||◌, ◌∷◌,
}
use quark_lang.Base.Int.{pos}
use quark_lang.Base.Result.{Result, err, ok}
use quark_lang.Cgen.{
  CExpr, CExprs, item_and, k_and_or, k_bin, k_bool, k_call, k_cmp, k_ident, k_index, k_int, k_list,
  k_method, k_not, k_string, k_struct_lit, no_items,
}
use quark_lang.Cgen.Parser.{
  CParseError, CParser, Spot, at_char, at_eof, brace, bump, expect_char, expect_word, ident_part,
  ident_start, is_decimal, move, no_fuel_left, on_char, on_span, optional_char, refuse,
  signature_unsupported, skipped, space, span, unexpected_char, unexpected_end, unterminated_string,
  value, when, ◌>>=◌, ◌>>◌,
}
use quark_lang.Lexer.Literals.{escaped}
use quark_lang.Operators.{two_64}

-- An operator that stands at the front: whether it has two characters, and the expression it makes.
abbrev pub Operators : Type 0
Operators = Bytes → Option (Bool × (CExpr → CExpr → CExpr))

abbrev pub past_op : Bool → Spot → Spot
past_op two s = if two then bump (bump s) else bump s

unfoldable pub or_ops : Operators
or_ops s = if starts (codes "||") s then some (true, k_and_or (codes "||")) else none

unfoldable pub and_ops : Operators
and_ops s = if starts (codes "&&") s then some (true, k_and_or (codes "&&")) else none

unfoldable pub cmp_ops : Operators
cmp_ops s =
    if starts (codes "==") s
    then some (true, k_cmp (codes "eq"))
    else if starts (codes "!=") s
    then some (true, k_cmp (codes "ne"))
    else if starts (codes "<=") s
    then some (true, k_cmp (codes "sle"))
    else if starts (codes ">=") s
    then some (true, k_cmp (codes "sge"))
    else if starts (codes "<") s
    then some (false, k_cmp (codes "slt"))
    else if starts (codes ">") s
    then some (false, k_cmp (codes "sgt"))
    else none

unfoldable pub add_ops : Operators
add_ops s =
    if starts (codes "+") s
    then some (false, k_bin (codes "+"))
    else if starts (codes "-") s
    then some (false, k_bin (codes "-"))
    else none

unfoldable pub mul_ops : Operators
mul_ops s =
    if starts (codes "<<") s
    then some (true, k_bin (codes "<<"))
    else if starts (codes ">>") s
    then some (true, k_bin (codes ">>"))
    else if starts (codes "*") s
    then some (false, k_bin (codes "*"))
    else if starts (codes "/") s
    then some (false, k_bin (codes "/"))
    else if starts (codes "%") s
    then some (false, k_bin (codes "%"))
    else none

unfoldable pub take_op {ℓ} :
    {A : Type ℓ} → Operators → ((CExpr → CExpr → CExpr) → CParser A) → CParser A → CParser A
take_op ops hit miss s = elim (ops s.rest) [
  | none ↦ miss s
  | some (two, build) ↦ hit build (past_op two s)
]

-- The loop of `parseOr`, `parseAnd`, `parseCmp`, `parseAdd` and `parseMul`, behind the operand `l`.
unfoldable pub chain_rest : ℕ → Operators → CParser CExpr → CExpr → CParser CExpr
chain_rest zero ops operand l = no_fuel_left
chain_rest (suc f) ops operand l = do
  space
  take_op ops (λ build. do r ← operand; chain_rest f ops operand (build l r)) (value l)

unfoldable pub op_chain : ℕ → Operators → CParser CExpr → CParser CExpr
op_chain f ops operand = do l ← operand; chain_rest f ops operand l

unfoldable pub mul_level : ℕ → CParser CExpr → CParser CExpr
mul_level f primary = op_chain f mul_ops primary

unfoldable pub add_level : ℕ → CParser CExpr → CParser CExpr
add_level f primary = op_chain f add_ops (mul_level f primary)

unfoldable pub cmp_level : ℕ → CParser CExpr → CParser CExpr
cmp_level f primary = op_chain f cmp_ops (add_level f primary)

unfoldable pub and_level : ℕ → CParser CExpr → CParser CExpr
and_level f primary = op_chain f and_ops (cmp_level f primary)

unfoldable pub or_level : ℕ → CParser CExpr → CParser CExpr
or_level f primary = op_chain f or_ops (and_level f primary)

-- `parseExpr`.
unfoldable pub expr_of : ℕ → CParser CExpr → CParser CExpr
expr_of f primary = do space; or_level f primary

-- The value of decimal digits, as an int64.
unfoldable pub int_of : ℕ → Bytes → ℕ
int_of v [] = v
int_of v (d ∷ ds) = int_of ((v * 10 + (d - b'0')) % two_64) ds

unfoldable pub unescaped : ℕ → ℕ
unescaped n = if n == b'n' then 10 else if n == b't' then 9 else if n == b'r' then 13 else n

abbrev pub after_byte : ℕ → Option (Bytes × Spot) → Option (Bytes × Spot)
after_byte c none = none
after_byte c (some (s, e)) = some (c ∷ s, e)

-- The loop over a string literal; `none` where it is not closed.
unfoldable pub string_rest : ℕ → ℕ → Bytes → Option (Bytes × Spot)
string_rest i br [] = none
string_rest i br (c ∷ []) =
    if c == b'"' then some ([], record { pos = i + 1; braces = br; rest = [] }) else none
string_rest i br (c ∷ d ∷ cs) =
    let escaped = after_byte (unescaped d) (string_rest (i + 2) (br + brace d) cs) in
    let plain_byte = after_byte c (string_rest (i + 1) (br + brace c) (d ∷ cs)) in
    if c == b'"'
    then some ([], record { pos = i + 1; braces = br; rest = d ∷ cs })
    else if c == 92
    then escaped
    else plain_byte

abbrev pub closed_string : Option (Bytes × Spot) → Result CParseError (CExpr × Spot)
closed_string none = err unterminated_string
closed_string (some (s, e)) = ok (k_string s, e)

unfoldable pub string_literal : CParser CExpr
string_literal s = closed_string (string_rest s.pos s.braces s.rest)

-- The loop over the items up to a closing character, that of arguments and of a list; the comma
-- between two items may be missing.
unfoldable pub items_until : ℕ → ℕ → CParser CExpr → CParser CExprs
items_until zero close expr = no_fuel_left
items_until (suc f) close expr = do
  space
  on_char close (value no_items)
      do x ← expr; space; optional_char b','; xs ← items_until f close expr; value (item_and x xs)

-- The loop over the values of a structure, which also ends at the end of the source.
unfoldable pub values_rest : ℕ → CParser CExpr → CParser CExprs
values_rest zero expr = no_fuel_left
values_rest (suc f) expr =
    when (λ s. at_eof s || at_char b'}' s) (do move bump; value no_items)
      do
        x ← expr
        space
        on_char b',' space (value tt)
        xs ← values_rest f expr
        value (item_and x xs)

-- Behind the type arguments of a call.
unfoldable pub past_angle : Spot → Spot
past_angle s = skipped (bump (span (λ c. not (c == b'>')) s).1)

unfoldable pub signed_check : CExpr → CParser CExpr
signed_check x = do space; when (at_char b'@') (refuse signature_unsupported) (value x)

unfoldable pub call_rest : ℕ → CParser CExpr → Bytes → CParser CExpr
call_rest f expr name = do args ← items_until f b')' expr; signed_check (k_call name args)

unfoldable pub generic_rest : ℕ → CParser CExpr → Bytes → CParser CExpr
generic_rest f expr name = do
  move past_angle
  move bump
  args ← items_until f b')' expr
  value (k_call name args)

unfoldable pub index_rest : CParser CExpr → Bytes → CParser CExpr
index_rest expr name = do i ← expr; space; expect_char b']'; value (k_index name i)

unfoldable pub method_rest : ℕ → CParser CExpr → Bytes → CParser CExpr
method_rest f expr name = do
  m ← expect_word
  space
  on_char b'(' (do args ← items_until f b')' expr; value (k_method name m args))
      (value (k_method name m no_items))

-- Behind a name that is no literal. The way back after type arguments without a call is to the same
-- place, behind the white space.
unfoldable pub name_rest : ℕ → CParser CExpr → Bytes → CParser CExpr
name_rest f expr name = do
  space
  on_char b'(' (call_rest f expr name) (
      when (λ s. at_char b'<' s && at_char b'(' (past_angle s)) (generic_rest f expr name)
        (on_char b'[' (index_rest expr name)
          (on_char b'.' (method_rest f expr name) (value (k_ident name)))))

unfoldable pub word_expr : ℕ → CParser CExpr → Bytes → CParser CExpr
word_expr f expr w =
    if equal w (codes "true")
    then value (k_bool true)
    else if equal w (codes "false")
    then value (k_bool false)
    else name_rest f expr w

unfoldable pub struct_rest : ℕ → CParser CExpr → CParser CExpr
struct_rest f expr = do expect_char b'{'; space; vs ← values_rest f expr; value (k_struct_lit vs)

unfoldable pub paren_rest : CParser CExpr → CParser CExpr
paren_rest expr = do x ← expr; space; expect_char b')'; value x

abbrev error_at : Bytes → CParseError
error_at [] = unexpected_end
error_at (c ∷ cs) = unexpected_char c

unfoldable pub bad_char : CParser CExpr
bad_char s = err (error_at s.rest)

-- The cases of `parsePrimary`.
unfoldable pub primary_cases : ℕ → CParser CExpr → CParser CExpr → CParser CExpr
primary_cases f expr primary =
    on_span is_decimal is_decimal (λ ds. value (k_int (int_of 0 ds)))
      (on_char b'"' string_literal (
        on_span ident_start ident_part (word_expr f expr) (
          on_char b'.' (struct_rest f expr) (
            on_char b'-' (do x ← primary; value (k_bin (codes "-") (k_int 0) x))
              (on_char b'!' (do x ← primary; value (k_not x))
                (on_char b'(' (paren_rest expr)
                  (on_char b'[' (do xs ← items_until f b']' expr; value (k_list xs)) bad_char)))))))

-- `parsePrimary`.
unfoldable pub parse_operand : ℕ → CParser CExpr
parse_operand zero = no_fuel_left
parse_operand (suc f) = do
  space
  when at_eof (refuse unexpected_end)
      (primary_cases f (expr_of f (parse_operand f)) (parse_operand f))
