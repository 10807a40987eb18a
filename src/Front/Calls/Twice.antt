-- ===== src/Front/Calls/Twice.antt =====
-- internal/lang/parser.go: a second walk over the calls changes nothing.

use quark_lang.Base.{
  Bool-cases, Bytes, List, Option, [], ap, codes, equal, inl, inr, map, refl, ℕ, ◌∷◌, ◌≡◌,
}
use quark_lang.Front.Calls.{
  callee_index, fn_index, link_calls, walk_block, walk_expr, walk_exprs, walk_func, walk_main,
  walk_stmt,
}
use quark_lang.Syntax.{
  Block, Expr, Exprs, FuncDecl, Program, Stmt, assign_stmt, bin_expr, call_expr, decl_init,
  expr_and, expr_stmt, for_stmt, ident, if_else, if_stmt, no_exprs, no_stmts, return_stmt,
  signed_call, stmt_and, try_stmt, while_stmt,
}

callee_index_twice :
    (idx : List (Bytes × ℕ)) (fn : Expr) (i : Option ℕ)
    → callee_index idx (walk_expr idx fn) (callee_index idx fn i) ≡ callee_index idx fn i
unfolding walk_expr
callee_index_twice idx (ident s p) i = refl
callee_index_twice idx fn i = refl

mutual
  unfolding walk_expr

  walk_expr_twice :
      (idx : List (Bytes × ℕ)) (x : Expr) → walk_expr idx (walk_expr idx x) ≡ walk_expr idx x
  walk_expr_twice idx (call_expr fn args p i) =
      let f = walk_expr_twice idx fn in
      let a = walk_exprs_twice idx args in let c = callee_index_twice idx fn i in cc
  walk_expr_twice idx (signed_call fn args s sargs p i) =
      let f = walk_expr_twice idx fn in
      let a = walk_exprs_twice idx args in let c = callee_index_twice idx fn i in cc
  walk_expr_twice idx (bin_expr op x y p) =
      let l = walk_expr_twice idx x in let r = walk_expr_twice idx y in cc
  walk_expr_twice idx x = refl

  walk_exprs_twice :
      (idx : List (Bytes × ℕ)) (xs : Exprs) → walk_exprs idx (walk_exprs idx xs) ≡ walk_exprs idx xs
  walk_exprs_twice idx no_exprs = refl
  walk_exprs_twice idx (expr_and x xs) =
      let l = walk_expr_twice idx x in let r = walk_exprs_twice idx xs in cc

mutual
  unfolding walk_stmt

  walk_stmt_twice :
      (idx : List (Bytes × ℕ)) (s : Stmt) → walk_stmt idx (walk_stmt idx s) ≡ walk_stmt idx s
  walk_stmt_twice idx (decl_init s ty x d p) = let l = walk_expr_twice idx x in cc
  walk_stmt_twice idx (assign_stmt x y p) =
      let l = walk_expr_twice idx x in let r = walk_expr_twice idx y in cc
  walk_stmt_twice idx (return_stmt x p) = let l = walk_expr_twice idx x in cc
  walk_stmt_twice idx (expr_stmt x) = let l = walk_expr_twice idx x in cc
  walk_stmt_twice idx (if_stmt x b) =
      let l = walk_expr_twice idx x in let r = walk_block_twice idx b in cc
  walk_stmt_twice idx (if_else x b c) =
      let l = walk_expr_twice idx x in
      let r = walk_block_twice idx b in let t = walk_block_twice idx c in cc
  walk_stmt_twice idx (while_stmt x b) =
      let l = walk_expr_twice idx x in let r = walk_block_twice idx b in cc
  walk_stmt_twice idx (for_stmt v x b p) =
      let l = walk_expr_twice idx x in let r = walk_block_twice idx b in cc
  walk_stmt_twice idx (try_stmt b v ty c p) =
      let l = walk_block_twice idx b in let r = walk_block_twice idx c in cc
  walk_stmt_twice idx s = refl

  walk_block_twice :
      (idx : List (Bytes × ℕ)) (b : Block) → walk_block idx (walk_block idx b) ≡ walk_block idx b
  walk_block_twice idx no_stmts = refl
  walk_block_twice idx (stmt_and s b) =
      let l = walk_stmt_twice idx s in let r = walk_block_twice idx b in cc

walk_main_twice :
    (idx : List (Bytes × ℕ)) (fs : List FuncDecl)
    → walk_main idx (map (walk_func idx) fs) ≡ map (walk_func idx) fs
unfolding walk_main
walk_main_twice idx [] = refl
walk_main_twice idx (f ∷ fs) =
    let again = ap (λ b. record f { body = b }) (walk_block_twice idx f.body) in
    elim (Bool-cases (equal f.name (codes "main"))) [
      | inl e ↦ rw e (ap (λ g. g ∷ map (walk_func idx) fs) again)
      | inr e ↦ rw e (ap (λ gs. walk_func idx f ∷ gs) (walk_main_twice idx fs))
    ]

-- The second walk over the function `main` changes nothing: linking the calls is one walk over every
-- function.
pub link_calls-once :
    (prog : Program)
    → link_calls prog ≡ record prog { funcs = map (walk_func (fn_index prog.funcs)) prog.funcs }
unfolding link_calls
link_calls-once prog =
    ap (λ fs. record prog { funcs = fs }) (walk_main_twice (fn_index prog.funcs) prog.funcs)
