-- ===== src/Front/Fresh/Stmts.antt =====
-- internal/lang/parser.go: the calls in the programs that `Parse` returns have no index yet.

use quark_lang.Base.{All, Bytes, List, [], suc, zero, ℕ, ◌∷◌}
use quark_lang.Front.Calls.Laws.{AreIndexed, BlockIndexed, StmtIndexed}
use quark_lang.Front.Calls.Linked.{MethodsFresh}
use quark_lang.Front.Fresh.{parse_expr-Gives}
use quark_lang.Parser.{Parser, ◌>>=◌}
use quark_lang.Parser.Decls.{parse_func, parse_impl}
use quark_lang.Parser.Exprs.{parse_expr}
use quark_lang.Parser.Gives.{
  Gives, after-Gives, bind-Gives, fail_here-Gives, no_fuel-Gives, on_kind-Gives, on_word-Gives,
  pure-Gives, test_if-Gives, then-Gives,
}
use quark_lang.Parser.Lists.{until_brace}
use quark_lang.Parser.Stmts.{
  block_of, break_rest, condition, decl_end, delete_rest, else_part, ended, for_rest, if_rest,
  log_rest, open_stmt, parse_block, parse_decl, parse_stmt, plain_stmt, return_rest, stmt_cases,
  try_rest, type_first, while_rest,
}
use quark_lang.Parser.Types.{parse_type}
use quark_lang.Syntax.{Block, Expr, Stmt}
use quark_lang.Token.{Token}

module _ (fs : List Bytes) (expr : Parser Expr) (e : Gives (AreIndexed fs) expr) where
  with_expr :
      (f : Expr → Parser Stmt)
      → ((x : Expr) → AreIndexed fs x → Gives (StmtIndexed fs) (f x))
      → Gives (StmtIndexed fs) (expr >>= f)
  with_expr f k = bind-Gives (AreIndexed fs) (StmtIndexed fs) expr f e k

  ended-Gives : (s : Stmt) → StmtIndexed fs s → Gives (StmtIndexed fs) (ended s)
  unfolding ended
  ended-Gives s h = then-Gives (StmtIndexed fs) _ _ (pure-Gives (StmtIndexed fs) s h)

  decl_end-Gives : (t : Token) (ty d : Bytes) → Gives (StmtIndexed fs) (decl_end expr t ty d)
  unfolding decl_end StmtIndexed
  decl_end-Gives t ty d =
      on_kind-Gives (StmtIndexed fs) _ _ _ (λ u. with_expr _ λ x h. ended-Gives _ h)
        (ended-Gives _ tt)

  type_first-Gives :
      (typ : Parser Bytes) (d : Bytes) → Gives (StmtIndexed fs) (type_first typ expr d)
  unfolding type_first
  type_first-Gives typ d =
      after-Gives (StmtIndexed fs) _ _
        λ ty. after-Gives (StmtIndexed fs) _ _ λ t. decl_end-Gives t ty d

  parse_decl-Gives : (typ : Parser Bytes) → Gives (StmtIndexed fs) (parse_decl typ expr)
  unfolding parse_decl
  parse_decl-Gives typ =
      after-Gives (StmtIndexed fs) _ _
        λ t. after-Gives (StmtIndexed fs) _ _ λ ty. decl_end-Gives t ty []

  break_rest-Gives : (t : Token) → Gives (StmtIndexed fs) (break_rest t)
  unfolding break_rest StmtIndexed
  break_rest-Gives t =
      on_kind-Gives (StmtIndexed fs) _ _ _ (λ u. pure-Gives (StmtIndexed fs) _ tt)
        (pure-Gives (StmtIndexed fs) _ tt)

  delete_rest-Gives : (t : Token) → Gives (StmtIndexed fs) (delete_rest expr t)
  unfolding delete_rest StmtIndexed
  delete_rest-Gives t = with_expr _ λ x h. ended-Gives _ h

  log_rest-Gives : (t : Token) → Gives (StmtIndexed fs) (log_rest expr t)
  unfolding log_rest StmtIndexed
  log_rest-Gives t = with_expr _ λ x h. ended-Gives _ h

  return_rest-Gives : (t : Token) → Gives (StmtIndexed fs) (return_rest expr t)
  unfolding return_rest StmtIndexed
  return_rest-Gives t =
      on_kind-Gives (StmtIndexed fs) _ _ _ (λ u. pure-Gives (StmtIndexed fs) _ tt)
        (with_expr _ λ x h. ended-Gives _ h)

  plain_stmt-Gives : Gives (StmtIndexed fs) (plain_stmt expr)
  unfolding plain_stmt StmtIndexed
  plain_stmt-Gives = with_expr _ λ x h.
      on_kind-Gives (StmtIndexed fs) _ _ _ (λ t. with_expr _ λ y k. ended-Gives _ (h, k))
        (ended-Gives _ h)

  open_stmt-Gives : (typ : Parser Bytes) → Gives (StmtIndexed fs) (open_stmt typ expr)
  unfolding open_stmt
  open_stmt-Gives typ =
      search (on_word-Gives, test_if-Gives, type_first-Gives, parse_decl-Gives, plain_stmt-Gives)
        depth 9

  condition-Gives : Gives (AreIndexed fs) (condition expr)
  unfolding condition
  condition-Gives = then-Gives (AreIndexed fs) _ _ (
      bind-Gives (AreIndexed fs) (AreIndexed fs) _ _ e
        λ x h. then-Gives (AreIndexed fs) _ _ (pure-Gives (AreIndexed fs) x h))

  module _ (block : Parser Block) (b : Gives (BlockIndexed fs) block) where
    with_block :
        (f : Block → Parser Stmt)
        → ((s : Block) → BlockIndexed fs s → Gives (StmtIndexed fs) (f s))
        → Gives (StmtIndexed fs) (block >>= f)
    with_block f k = bind-Gives (BlockIndexed fs) (StmtIndexed fs) block f b k

    with_condition :
        (f : Expr → Parser Stmt)
        → ((x : Expr) → AreIndexed fs x → Gives (StmtIndexed fs) (f x))
        → Gives (StmtIndexed fs) (condition expr >>= f)
    with_condition f k =
        bind-Gives (AreIndexed fs) (StmtIndexed fs) (condition expr) f condition-Gives k

    try_rest-Gives :
        (typ : Parser Bytes) (t : Token) → Gives (StmtIndexed fs) (try_rest typ block t)
    unfolding try_rest StmtIndexed
    try_rest-Gives typ t = with_block _ λ body h. then-Gives (StmtIndexed fs) _ _ (
        then-Gives (StmtIndexed fs) _ _ (
          after-Gives (StmtIndexed fs) _ _ λ v. after-Gives (StmtIndexed fs) _ _ λ ty.
            then-Gives (StmtIndexed fs) _ _
              (with_block _ λ handler k. pure-Gives (StmtIndexed fs) _ (h, k))))

    while_rest-Gives : Gives (StmtIndexed fs) (while_rest expr block)
    unfolding while_rest StmtIndexed
    while_rest-Gives =
        with_condition _ λ x h. with_block _ λ body k. pure-Gives (StmtIndexed fs) _ (h, k)

    for_rest-Gives : (t : Token) → Gives (StmtIndexed fs) (for_rest expr block t)
    unfolding for_rest StmtIndexed
    for_rest-Gives t = then-Gives (StmtIndexed fs) _ _ (
        after-Gives (StmtIndexed fs) _ _ λ v. then-Gives (StmtIndexed fs) _ _ (
          with_expr _ λ x h.
            then-Gives (StmtIndexed fs) _ _
              (with_block _ λ body k. pure-Gives (StmtIndexed fs) _ (h, k))))

    if_rest-Gives :
        (stmt : Parser Stmt)
        → Gives (StmtIndexed fs) stmt
        → Gives (StmtIndexed fs) (if_rest expr block stmt)
    unfolding if_rest else_part StmtIndexed
    if_rest-Gives stmt s = with_condition _ λ x h. with_block _ λ body k.
        on_kind-Gives (StmtIndexed fs) _ _ _
          (λ t.
            test_if-Gives (StmtIndexed fs) _ _ _
              (bind-Gives (StmtIndexed fs) (StmtIndexed fs) _ _ s
                λ nested l. pure-Gives (StmtIndexed fs) _ (h, (k, (l, tt))))
              (with_block _ λ other l. pure-Gives (StmtIndexed fs) _ (h, (k, l))))
          (pure-Gives (StmtIndexed fs) _ (h, k))

    stmt_cases-Gives :
        (typ : Parser Bytes) (stmt : Parser Stmt)
        → Gives (StmtIndexed fs) stmt
        → Gives (StmtIndexed fs) (stmt_cases typ expr block stmt)
    unfolding stmt_cases
    stmt_cases-Gives typ stmt s =
        let branch = if_rest-Gives stmt s in
        search
          (
            on_kind-Gives, on_word-Gives, break_rest-Gives, delete_rest-Gives, log_rest-Gives,
            return_rest-Gives, try_rest-Gives, while_rest-Gives, for_rest-Gives, open_stmt-Gives,
          )
          depth 12

-- The members of a list up to its brace.
until_brace-Gives {ℓ} :
    {A : Type ℓ} (P : A → Type 0) (f : ℕ) (what : Bytes) (item : Parser A)
    → Gives P item
    → Gives (λ xs. All P xs) (until_brace f what item)
unfolding until_brace
until_brace-Gives P zero what item g = no_fuel-Gives (λ xs. All P xs)
until_brace-Gives P (suc f) what item g =
    on_kind-Gives (λ xs. All P xs) _ _ _ (λ t. pure-Gives (λ xs. All P xs) [] tt)
      (test_if-Gives (λ xs. All P xs) _ _ _ (fail_here-Gives (λ xs. All P xs) _)
        (bind-Gives P (λ xs. All P xs) _ _ g
          λ x h.
            bind-Gives (λ xs. All P xs) (λ xs. All P xs) _ _ (until_brace-Gives P f what item g)
              λ xs k. pure-Gives (λ xs. All P xs) (x ∷ xs) (h, k)))

module _ (fs : List Bytes) where
  block_of-BlockIndexed : (ss : List Stmt) → All (StmtIndexed fs) ss → BlockIndexed fs (block_of ss)
  unfolding StmtIndexed
  block_of-BlockIndexed [] h = tt
  block_of-BlockIndexed (s ∷ ss) (h, hs) = (h, block_of-BlockIndexed ss hs)

  parse_block-Gives :
      (n : ℕ) (stmt : Parser Stmt)
      → Gives (StmtIndexed fs) stmt
      → Gives (BlockIndexed fs) (parse_block n stmt)
  unfolding parse_block
  parse_block-Gives n stmt s = then-Gives (BlockIndexed fs) _ _ (
      bind-Gives (λ ss. All (StmtIndexed fs) ss) (BlockIndexed fs) _ _
        (until_brace-Gives (StmtIndexed fs) n _ stmt s)
        λ ss h. pure-Gives (BlockIndexed fs) _ (block_of-BlockIndexed ss h))

  parse_stmt-Gives : (n : ℕ) → Gives (StmtIndexed fs) (parse_stmt n)
  unfolding parse_stmt
  parse_stmt-Gives zero = no_fuel-Gives (StmtIndexed fs)
  parse_stmt-Gives (suc f) =
      let s = parse_stmt-Gives f in
      stmt_cases-Gives fs (parse_expr (suc f)) (parse_expr-Gives fs (suc f))
        (parse_block f (parse_stmt f)) (parse_block-Gives f (parse_stmt f) s) (parse_type (suc f))
        (parse_stmt f) s

  pub parse_func-Gives : (n : ℕ) → Gives (λ d. BlockIndexed fs d.body) (parse_func n)
  unfolding parse_func
  parse_func-Gives n =
      after-Gives (λ d. BlockIndexed fs d.body) _ _
        λ kw.
          after-Gives (λ d. BlockIndexed fs d.body) _ _
            λ tps.
              after-Gives (λ d. BlockIndexed fs d.body) _ _
                λ t.
                  then-Gives (λ d. BlockIndexed fs d.body) _ _
                    (after-Gives (λ d. BlockIndexed fs d.body) _ _
                      λ ps.
                        after-Gives (λ d. BlockIndexed fs d.body) _ _
                          λ r.
                            after-Gives (λ d. BlockIndexed fs d.body) _ _
                              λ start.
                                bind-Gives (BlockIndexed fs) (λ d. BlockIndexed fs d.body) _ _
                                  (parse_block-Gives n _ (parse_stmt-Gives n))
                                  λ b h.
                                    after-Gives (λ d. BlockIndexed fs d.body) _ _
                                      λ last. pure-Gives (λ d. BlockIndexed fs d.body) _ h)

-- The methods of an implementation.
pub methods-Gives :
    (n : ℕ) (what : Bytes)
    → Gives (λ ds. All (λ d. BlockIndexed [] d.body) ds) (until_brace n what (parse_func n))
methods-Gives n what =
    until_brace-Gives (λ d. BlockIndexed [] d.body) n what (parse_func n) (parse_func-Gives [] n)

pub parse_impl-Gives : (n : ℕ) → Gives MethodsFresh (parse_impl n)
unfolding parse_impl
parse_impl-Gives n = after-Gives MethodsFresh _ _ λ kw. after-Gives MethodsFresh _ _ λ tps.
    after-Gives MethodsFresh _ _ λ heads. then-Gives MethodsFresh _ _ (
      bind-Gives (λ ds. All (λ d. BlockIndexed [] d.body) ds) MethodsFresh _ _ (methods-Gives n _)
        λ ms h.
          after-Gives MethodsFresh _ _
            λ ty. then-Gives MethodsFresh _ _ (pure-Gives MethodsFresh _ h))
