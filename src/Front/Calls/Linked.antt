-- ===== src/Front/Calls/Linked.antt =====
-- internal/lang/parser.go: what linking makes of calls that have no index yet.
use mathlib.Core.Path.{subst}
use quark_lang.Base.{
  All, Bytes, List, Option, [], ap, lookup, map, none, refl, some, sym, ℕ, ◌∷◌, ◌≡◌,
}
use quark_lang.Front.Calls.{
  callee_index, fn_index, link_calls, walk_block, walk_expr, walk_exprs, walk_func, walk_stmt,
}
use quark_lang.Front.Calls.Laws.{
  AllIndexed, AreIndexed, BlockIndexed, IsIndex, IsLast, StmtIndexed, fn_index-IsLast, names_of,
}
use quark_lang.Front.Calls.Twice.{link_calls-once}
use quark_lang.Syntax.{
  Block, Expr, Exprs, FuncDecl, ImplDecl, Program, Stmt, assign_stmt, bin_expr, call_expr,
  decl_init, expr_and, expr_stmt, for_stmt, ident, if_else, if_stmt, no_exprs, no_stmts,
  return_stmt, signed_call, stmt_and, try_stmt, while_stmt,
}

-- A call of a name has the index of the last function of that name, and none if there is no such
-- function; a call of anything else has none.
abbrev pub IsResolved : List Bytes → Expr → Option ℕ → Type 0
IsResolved fs (ident s p) i = IsLast fs s i
IsResolved fs fn i = i ≡ none

-- The calls that stand in calls and in operands of binary operators are resolved, and the calls in any
-- other expression have no index.
unfoldable mutual
  unfolding AreIndexed

  pub ExprLinked : List Bytes → Expr → Type 0
  ExprLinked fs (call_expr fn args p i) =
      IsResolved fs fn i × (ExprLinked fs fn × ExprsLinked fs args)
  ExprLinked fs (signed_call fn args s sargs p i) =
      IsResolved fs fn i × (ExprLinked fs fn × (ExprsLinked fs args × AllIndexed [] sargs))
  ExprLinked fs (bin_expr op x y p) = ExprLinked fs x × ExprLinked fs y
  ExprLinked fs x = AreIndexed [] x

  pub ExprsLinked : List Bytes → Exprs → Type 0
  ExprsLinked fs no_exprs = Unit
  ExprsLinked fs (expr_and x xs) = ExprLinked fs x × ExprsLinked fs xs

-- So are those of statements, but for `log` and `delete`, where calls have no index.
unfoldable mutual
  unfolding StmtIndexed

  pub StmtLinked : List Bytes → Stmt → Type 0
  StmtLinked fs (decl_init s ty x d p) = ExprLinked fs x
  StmtLinked fs (assign_stmt x y p) = ExprLinked fs x × ExprLinked fs y
  StmtLinked fs (return_stmt x p) = ExprLinked fs x
  StmtLinked fs (expr_stmt x) = ExprLinked fs x
  StmtLinked fs (if_stmt x b) = ExprLinked fs x × BlockLinked fs b
  StmtLinked fs (if_else x b c) = ExprLinked fs x × (BlockLinked fs b × BlockLinked fs c)
  StmtLinked fs (while_stmt x b) = ExprLinked fs x × BlockLinked fs b
  StmtLinked fs (for_stmt v x b p) = ExprLinked fs x × BlockLinked fs b
  StmtLinked fs (try_stmt b v ty c p) = BlockLinked fs b × BlockLinked fs c
  StmtLinked fs s = StmtIndexed [] s

  pub BlockLinked : List Bytes → Block → Type 0
  BlockLinked fs no_stmts = Unit
  BlockLinked fs (stmt_and s b) = StmtLinked fs s × BlockLinked fs b

no_index : (fn : Expr) (i : Option ℕ) → IsIndex [] fn i → i ≡ none
no_index fn none h = refl
no_index (ident s p) (some i) h = cc
no_index fn (some i) h = absurd h

module _ (fs : List Bytes) (idx : List (Bytes × ℕ))
    (k : (s : Bytes) → IsLast fs s (lookup s idx)) where
  callee_index-IsResolved :
      (fn : Expr) (i : Option ℕ)
      → IsIndex [] fn i
      → IsResolved fs (walk_expr idx fn) (callee_index idx fn i)
  unfolding walk_expr
  callee_index-IsResolved (ident s p) i h = k s
  callee_index-IsResolved fn i h = no_index fn i h

  mutual
    unfolding walk_expr ExprLinked AreIndexed

    walk_expr-ExprLinked : (x : Expr) → AreIndexed [] x → ExprLinked fs (walk_expr idx x)
    walk_expr-ExprLinked (call_expr fn args p i) (h, (hf, ha)) = (
      callee_index-IsResolved fn i h,
      (walk_expr-ExprLinked fn hf, walk_exprs-ExprsLinked args ha),
    )
    walk_expr-ExprLinked (signed_call fn args s sargs p i) (h, (hf, (ha, hs))) = (
      callee_index-IsResolved fn i h,
      (walk_expr-ExprLinked fn hf, (walk_exprs-ExprsLinked args ha, hs)),
    )
    walk_expr-ExprLinked (bin_expr op x y p) (h, l) =
        (walk_expr-ExprLinked x h, walk_expr-ExprLinked y l)
    walk_expr-ExprLinked x h = h

    walk_exprs-ExprsLinked : (xs : Exprs) → AllIndexed [] xs → ExprsLinked fs (walk_exprs idx xs)
    walk_exprs-ExprsLinked no_exprs h = tt
    walk_exprs-ExprsLinked (expr_and x xs) (h, hs) =
        (walk_expr-ExprLinked x h, walk_exprs-ExprsLinked xs hs)

  mutual
    unfolding walk_stmt StmtLinked StmtIndexed

    walk_stmt-StmtLinked : (s : Stmt) → StmtIndexed [] s → StmtLinked fs (walk_stmt idx s)
    walk_stmt-StmtLinked (decl_init s ty x d p) h = walk_expr-ExprLinked x h
    walk_stmt-StmtLinked (assign_stmt x y p) (h, l) =
        (walk_expr-ExprLinked x h, walk_expr-ExprLinked y l)
    walk_stmt-StmtLinked (return_stmt x p) h = walk_expr-ExprLinked x h
    walk_stmt-StmtLinked (expr_stmt x) h = walk_expr-ExprLinked x h
    walk_stmt-StmtLinked (if_stmt x b) (h, l) =
        (walk_expr-ExprLinked x h, walk_block-BlockLinked b l)
    walk_stmt-StmtLinked (if_else x b c) (h, (l, r)) =
        (walk_expr-ExprLinked x h, (walk_block-BlockLinked b l, walk_block-BlockLinked c r))
    walk_stmt-StmtLinked (while_stmt x b) (h, l) =
        (walk_expr-ExprLinked x h, walk_block-BlockLinked b l)
    walk_stmt-StmtLinked (for_stmt v x b p) (h, l) =
        (walk_expr-ExprLinked x h, walk_block-BlockLinked b l)
    walk_stmt-StmtLinked (try_stmt b v ty c p) (h, l) =
        (walk_block-BlockLinked b h, walk_block-BlockLinked c l)
    walk_stmt-StmtLinked s h = h

    walk_block-BlockLinked : (b : Block) → BlockIndexed [] b → BlockLinked fs (walk_block idx b)
    walk_block-BlockLinked no_stmts h = tt
    walk_block-BlockLinked (stmt_and s b) (h, hs) =
        (walk_stmt-StmtLinked s h, walk_block-BlockLinked b hs)

  walk_func-Linked :
      (ds : List FuncDecl)
      → All (λ d. BlockIndexed [] d.body) ds
      → All (λ d. BlockLinked fs d.body) (map (walk_func idx) ds)
  walk_func-Linked [] h = tt
  walk_func-Linked (d ∷ ds) (h, hs) = (walk_block-BlockLinked d.body h, walk_func-Linked ds hs)

names_of-walk_func :
    (idx : List (Bytes × ℕ)) (fs : List FuncDecl) → names_of (map (walk_func idx) fs) ≡ names_of fs
names_of-walk_func idx [] = refl
names_of-walk_func idx (f ∷ fs) = ap (λ ns. f.name ∷ ns) (names_of-walk_func idx fs)

-- A method that has no index at any call.
abbrev pub MethodsFresh : ImplDecl → Type 0
MethodsFresh d = All (λ f. BlockIndexed [] f.body) d.methods

-- The functions and the methods of a program, before its calls are linked and afterwards.
abbrev pub IsFresh : Program → Type 0
IsFresh prog = All (λ d. BlockIndexed [] d.body) prog.funcs × All MethodsFresh prog.impls

abbrev pub IsLinked : Program → Type 0
IsLinked prog =
    All (λ d. BlockLinked (names_of prog.funcs) d.body) prog.funcs × All MethodsFresh prog.impls

pub link_calls-IsLinked : (prog : Program) → IsFresh prog → IsLinked (link_calls prog)
link_calls-IsLinked prog (h, m) =
    let idx = fn_index prog.funcs in
    let linked =
      walk_func-Linked (names_of prog.funcs) idx (fn_index-IsLast prog.funcs) prog.funcs h in
    let same = names_of-walk_func idx prog.funcs in
    subst IsLinked (sym (link_calls-once prog)) (
      subst (λ ns. All (λ d. BlockLinked ns d.body) (map (walk_func idx) prog.funcs)) (sym same)
          linked,
      m,
    )
