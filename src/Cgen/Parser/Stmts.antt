-- ===== src/Cgen/Parser/Stmts.antt =====
-- compiler/internal/cgen/cgen.go: the statements. `expr` and `block` read the parts of a statement, and
-- `f` bounds the rounds of a loop. A statement is none where the source reads one and keeps nothing.
pub mod Ends
use quark_lang.Base.{
  Bool, Bytes, Option, codes, equal, if◌then◌else◌, none, not, some, starts, suc, zero, ℕ, ◌&&◌,
  ◌==◌, ◌||◌,
}
use quark_lang.Base.Result.{err, ok}
use quark_lang.Cgen.{
  CBlock, CExpr, CExprs, CStmt, assign, attempt, branch, decl, free, give, index_assign, item_and,
  k_index, loop, no_items, plain_expr, println_stmt, stmt_then, stop,
}
use quark_lang.Cgen.Parser.{
  CParser, Spot, at_char, at_class, at_eof, at_text, bump, expect_char, expect_word,
  expected_identifier, ident_part, ident_start, move, no_equals, no_fuel_left, on_char,
  only_println, refuse, skipped, space, span, unterminated_block, value, when, ◌>>=◌, ◌>>◌,
}
use quark_lang.Cgen.Parser.Exprs.{expr_of, parse_operand}

-- `parseTypeName`.
abbrev pub past_generics : Spot → Spot
past_generics s =
    let inner = (span (λ c. not (c == b'>')) (bump s)).1 in
    if at_eof inner then inner else bump inner

abbrev pub after_type : Bytes → Spot → Spot
after_type w s = if equal w (codes "List") && at_char b'<' s then past_generics s else s

abbrev pub type_text : Bytes → Spot → Bytes
type_text w s = if equal w (codes "List") && at_char b'<' s then codes "List<int>" else w

unfoldable pub c_type_name : CParser Bytes
c_type_name s =
    let word = span ident_part s in ok (type_text word.0 word.1, after_type word.0 word.1)

unfoldable pub move_by : ℕ → Spot → Spot
move_by zero s = s
move_by (suc k) s = move_by k (bump s)

-- `p.pos += k`.
unfoldable pub skip_chars : ℕ → CParser (Unit {0})
skip_chars k s = ok (tt, move_by k s)

-- `x` behind its semicolon.
unfoldable pub semi_after {ℓ} : {A : Type ℓ} → A → CParser A
semi_after x = do space; expect_char b';'; value x

unfoldable pub braced : CParser CBlock → CParser CBlock
braced block = do space; expect_char b'{'; block

unfoldable pub catch_name : CParser (Unit {0})
catch_name = do expect_word; space; expect_word; space; expect_char b')'

unfoldable pub catch_part : CParser CBlock → CParser CBlock
catch_part block =
    when (at_text (codes "catch"))
      (do skip_chars 5; space; on_char b'(' catch_name (value tt); braced block) (value stop)

unfoldable pub try_stmt_rest : CParser CBlock → CParser (Option CStmt)
try_stmt_rest block = do
  body ← braced block
  space
  handler ← catch_part block
  value (some (attempt body handler))

unfoldable pub free_rest : CParser (Option CStmt)
free_rest = do space; name ← expect_word; semi_after (some (free name))

unfoldable pub return_stmt_rest : CParser CExpr → CParser (Option CStmt)
return_stmt_rest expr = do x ← expr; semi_after (some (give x))

-- The loop over the arguments of `io.println`, behind the first.
unfoldable pub more_args : ℕ → CParser CExpr → CParser CExprs
more_args zero expr = no_fuel_left
more_args (suc f) expr = do
  space
  on_char b',' (do space; x ← expr; xs ← more_args f expr; value (item_and x xs)) (value no_items)

unfoldable pub print_args : ℕ → CParser CExpr → CParser CExprs
print_args f expr =
    when (λ s. at_eof s || at_char b')' s) (value no_items)
      do x ← expr; xs ← more_args f expr; value (item_and x xs)

-- `io.print` leaves no statement.
unfoldable pub printed : Bytes → CExprs → Option CStmt
printed m args = if equal m (codes "println") then some (println_stmt args) else none

unfoldable pub print_rest : ℕ → CParser CExpr → Bytes → CParser (Option CStmt)
print_rest f expr m = do
  space
  expect_char b'('
  space
  args ← print_args f expr
  expect_char b')'
  semi_after (printed m args)

unfoldable pub io_rest : ℕ → CParser CExpr → CParser (Option CStmt)
io_rest f expr = do
  expect_char b'.'
  m ← expect_word
  if equal m (codes "println") || equal m (codes "print")
      then print_rest f expr m
      else refuse (only_println m)

unfoldable pub test_of : CParser CExpr → CParser CExpr
test_of expr = do expect_char b'('; x ← expr; expect_char b')'; value x

unfoldable pub else_block : CParser CBlock → CParser CBlock
else_block block =
    when (λ s. starts (codes "else") s.rest) (do skip_chars 4; braced block) (value stop)

unfoldable pub if_stmt_rest : CParser CExpr → CParser CBlock → CParser (Option CStmt)
if_stmt_rest expr block = do
  x ← test_of expr
  body ← braced block
  space
  other ← else_block block
  value (some (branch x body other))

unfoldable pub while_stmt_rest : CParser CExpr → CParser CBlock → CParser (Option CStmt)
while_stmt_rest expr block = do x ← test_of expr; body ← braced block; value (some (loop x body))

unfoldable pub assign_rest : CParser CExpr → Bytes → CParser (Option CStmt)
assign_rest expr name = do space; x ← expr; semi_after (some (assign name x))

unfoldable pub equals_sign : Bytes → CParser (Unit {0})
equals_sign name = on_char b'=' (value tt) (refuse (no_equals name))

unfoldable pub decl_rest : CParser CExpr → Bytes → CParser (Option CStmt)
decl_rest expr name = do
  typ ← c_type_name
  space
  equals_sign name
  space
  x ← expr
  semi_after (some (decl name typ x))

-- An assignment, or a declaration.
unfoldable pub named_stmt : CParser CExpr → Bytes → CParser (Option CStmt)
named_stmt expr name = on_char b'=' (assign_rest expr name) (decl_rest expr name)

-- What stands behind the first word and white space.
unfoldable pub keyword_stmt : ℕ → CParser CExpr → CParser CBlock → Bytes → CParser (Option CStmt)
keyword_stmt f expr block w =
    if equal w (codes "try")
    then try_stmt_rest block
    else if equal w (codes "delete") || equal w (codes "clear") || equal w (codes "compact")
    then free_rest
    else if equal w (codes "return")
    then return_stmt_rest expr
    else if equal w (codes "io")
    then io_rest f expr
    else if equal w (codes "if")
    then if_stmt_rest expr block
    else if equal w (codes "while")
    then while_stmt_rest expr block
    else named_stmt expr w

unfoldable pub is_stmt_word : Bytes → Bool
is_stmt_word w =
    equal w (codes "try")
    || equal w (codes "delete")
    || equal w (codes "clear")
    || equal w (codes "compact")
    || equal w (codes "return")
    || equal w (codes "io")
    || equal w (codes "if")
    || equal w (codes "while")

-- An assignment to an element, for an index expression; `none` for another one.
unfoldable pub element_of : CExpr → Option (Bytes × CExpr)
element_of (k_index name i) = some (name, i)
element_of _ = none

unfoldable pub element_rest : CParser CExpr → Bytes → CExpr → CParser (Option CStmt)
element_rest expr name i = do space; x ← expr; semi_after (some (index_assign name i x))

unfoldable pub after_expr : CParser CExpr → CExpr → Option (Bytes × CExpr) → CParser (Option CStmt)
after_expr expr x none = do expect_char b';'; value (some (plain_expr x))
after_expr expr x (some (name, i)) =
    on_char b'=' (element_rest expr name i) (do expect_char b';'; value (some (plain_expr x)))

-- An expression statement, or an assignment to an element, from the start of the statement.
unfoldable pub expr_stmt_from : CParser CExpr → CParser (Option CStmt)
expr_stmt_from expr = do x ← expr; space; after_expr expr x (element_of x)

-- The first word is read; the statement goes on behind it and the white space, or starts again.
unfoldable pub first_word :
    (Bytes → CParser (Option CStmt)) → CParser (Option CStmt) → CParser (Option CStmt)
first_word hit miss s =
    let word = span ident_part s in
    let behind = skipped word.1 in
    if not (at_class ident_start s)
    then err (expected_identifier s.pos)
    else if is_stmt_word word.0 || at_char b'=' behind || at_class ident_start behind
    then hit word.0 behind
    else miss s

abbrev pub joined : Option CStmt → CBlock → CBlock
joined none b = b
joined (some s) b = stmt_then s b

-- `parseBlock`.
unfoldable pub block_cases : ℕ → CParser CExpr → CParser CBlock → CParser CBlock
block_cases f expr block = do
  space
  when at_eof (refuse unterminated_block) (
      on_char b'}' (value stop) do
        s ← first_word (keyword_stmt f expr block) (expr_stmt_from expr)
        b ← block
        value (joined s b))

unfoldable pub c_block : ℕ → CParser CBlock
c_block zero = no_fuel_left
c_block (suc f) = block_cases f (expr_of (suc f) (parse_operand (suc f))) (c_block f)
