-- ===== src/Front/Calls.antt =====
-- internal/lang/parser.go: `walkNode`, `walkCallRefs` and the indices of calls that `compileSlow` fills in. A
-- walk that writes to the nodes is a function from trees to trees.
pub mod Laws
pub mod Linked
pub mod Twice
use quark_lang.Base.{
  Bytes, List, Option, [], codes, equal, if◌then◌else◌, insert, lookup, map, suc, ℕ, ◌∷◌,
}
use quark_lang.Syntax.{
  Block, Expr, Exprs, FuncDecl, Program, Stmt, assign_stmt, bin_expr, call_expr, decl_init,
  expr_and, expr_stmt, for_stmt, ident, if_else, if_stmt, no_exprs, no_stmts, return_stmt,
  signed_call, stmt_and, try_stmt, while_stmt,
}

-- What `walkCallRefs` stores at a call: an index only if the callee is an identifier.
abbrev pub callee_index : List (Bytes × ℕ) → Expr → Option ℕ → Option ℕ
callee_index idx (ident s p) i = lookup s idx
callee_index idx fn i = i

-- `walkNode` on expressions: only calls and binary operators are gone into.
unfoldable mutual
  unfolding lookup

  pub walk_expr : List (Bytes × ℕ) → Expr → Expr
  walk_expr idx (call_expr fn args p i) =
      call_expr (walk_expr idx fn) (walk_exprs idx args) p (callee_index idx fn i)
  walk_expr idx (signed_call fn args s sargs p i) =
      signed_call (walk_expr idx fn) (walk_exprs idx args) s sargs p (callee_index idx fn i)
  walk_expr idx (bin_expr op x y p) = bin_expr op (walk_expr idx x) (walk_expr idx y) p
  walk_expr idx x = x

  pub walk_exprs : List (Bytes × ℕ) → Exprs → Exprs
  walk_exprs idx no_exprs = no_exprs
  walk_exprs idx (expr_and x xs) = expr_and (walk_expr idx x) (walk_exprs idx xs)

-- On statements, of which `log` and `delete` are passed over.
unfoldable mutual
  unfolding walk_expr

  pub walk_stmt : List (Bytes × ℕ) → Stmt → Stmt
  walk_stmt idx (decl_init s ty x d p) = decl_init s ty (walk_expr idx x) d p
  walk_stmt idx (assign_stmt x y p) = assign_stmt (walk_expr idx x) (walk_expr idx y) p
  walk_stmt idx (return_stmt x p) = return_stmt (walk_expr idx x) p
  walk_stmt idx (expr_stmt x) = expr_stmt (walk_expr idx x)
  walk_stmt idx (if_stmt x b) = if_stmt (walk_expr idx x) (walk_block idx b)
  walk_stmt idx (if_else x b c) = if_else (walk_expr idx x) (walk_block idx b) (walk_block idx c)
  walk_stmt idx (while_stmt x b) = while_stmt (walk_expr idx x) (walk_block idx b)
  walk_stmt idx (for_stmt v x b p) = for_stmt v (walk_expr idx x) (walk_block idx b) p
  walk_stmt idx (try_stmt b v ty c p) = try_stmt (walk_block idx b) v ty (walk_block idx c) p
  walk_stmt idx s = s

  pub walk_block : List (Bytes × ℕ) → Block → Block
  walk_block idx no_stmts = no_stmts
  walk_block idx (stmt_and s b) = stmt_and (walk_stmt idx s) (walk_block idx b)

-- `FnIndex`: of two functions of one name the later one stays.
abbrev pub index_onto : List (Bytes × ℕ) → ℕ → List FuncDecl → List (Bytes × ℕ)
index_onto idx i [] = idx
index_onto idx i (f ∷ fs) = index_onto (insert f.name i idx) (suc i) fs

unfoldable pub fn_index : List FuncDecl → List (Bytes × ℕ)
fn_index fs = index_onto [] 0 fs

abbrev pub walk_func : List (Bytes × ℕ) → FuncDecl → FuncDecl
walk_func idx f = record f { body = walk_block idx f.body }

-- `walkCallRefs(mainBody(prog), ...)`: the first function named `main` is walked once more.
unfoldable pub walk_main : List (Bytes × ℕ) → List FuncDecl → List FuncDecl
walk_main idx [] = []
walk_main idx (f ∷ fs) =
    if equal f.name (codes "main") then walk_func idx f ∷ fs else f ∷ walk_main idx fs

unfoldable pub link_calls : Program → Program
link_calls prog =
    let idx = fn_index prog.funcs in
    record prog { funcs = walk_main idx (map (walk_func idx) prog.funcs) }
