-- ===== src/Cgen/Meta/Calls.antt =====
-- compiler/internal/cgen/cgen.go: which calls of a body the analysis collects.

-- The calls of an expression, wherever they stand.
use quark_lang.Base.{
  Bytes, List, [], arith, codes, equal, if◌then◌else◌, refl, true, ◌++◌, ◌||◌, ◌∷◌, ◌≡◌,
}
use quark_lang.Cgen.{
  CBlock, CExpr, CExprs, CStmt, assign, attempt, branch, decl, free, give, index_assign, item_and,
  k_and_or, k_bin, k_bool, k_call, k_cmp, k_ident, k_index, k_int, k_list, k_method, k_not,
  k_string, k_struct_lit, loop, no_items, plain_expr, println_stmt, stmt_then, stop,
}
use quark_lang.Cgen.Meta.{
  FnMeta, analyze_block, analyze_expr, analyze_exprs, analyze_stmt, has, no_meta,
}

unfoldable mutual
  pub all_expr : CExpr → List Bytes
  all_expr (k_call name args) = name ∷ all_exprs args
  all_expr (k_method name meth args) = all_exprs args
  all_expr (k_bin op l r) = all_expr l ++ all_expr r
  all_expr (k_cmp op l r) = all_expr l ++ all_expr r
  all_expr (k_and_or op l r) = all_expr l ++ all_expr r
  all_expr (k_not x) = all_expr x
  all_expr (k_index name i) = all_expr i
  all_expr (k_list items) = all_exprs items
  all_expr (k_struct_lit values) = all_exprs values
  all_expr (k_int i) = []
  all_expr (k_string s) = []
  all_expr (k_ident s) = []
  all_expr (k_bool b) = []

  pub all_exprs : CExprs → List Bytes
  all_exprs no_items = []
  all_exprs (item_and x xs) = all_expr x ++ all_exprs xs

-- The calls in the arguments of a call, in a comparison and in a logical operation.
unfoldable mutual
  unfolding all_expr all_exprs

  pub hidden_expr : CExpr → List Bytes
  hidden_expr (k_call name args) = all_exprs args
  hidden_expr (k_method name meth args) = hidden_exprs args
  hidden_expr (k_bin op l r) = hidden_expr l ++ hidden_expr r
  hidden_expr (k_cmp op l r) = all_expr l ++ all_expr r
  hidden_expr (k_and_or op l r) = all_expr l ++ all_expr r
  hidden_expr (k_not x) = all_expr x
  hidden_expr (k_index name i) = hidden_expr i
  hidden_expr (k_list items) = hidden_exprs items
  hidden_expr (k_struct_lit values) = hidden_exprs values
  hidden_expr (k_int i) = []
  hidden_expr (k_string s) = []
  hidden_expr (k_ident s) = []
  hidden_expr (k_bool b) = []

  pub hidden_exprs : CExprs → List Bytes
  hidden_exprs no_items = []
  hidden_exprs (item_and x xs) = hidden_expr x ++ hidden_exprs xs

-- The same for the expressions of a block, by a function on expressions and one on lists of them.
module _ (of_expr : CExpr → List Bytes) (of_exprs : CExprs → List Bytes) where
  unfoldable mutual
    pub in_stmt : CStmt → List Bytes
    in_stmt (decl name typ init) = of_expr init
    in_stmt (assign name x) = of_expr x
    in_stmt (println_stmt args) = of_exprs args
    in_stmt (branch test then_ else_) = of_expr test ++ (in_block then_ ++ in_block else_)
    in_stmt (loop test body) = of_expr test ++ in_block body
    in_stmt (give x) = of_expr x
    in_stmt (plain_expr x) = of_expr x
    in_stmt (index_assign name i x) = of_expr i ++ of_expr x
    in_stmt (attempt body handler) = in_block body ++ in_block handler
    in_stmt (free name) = []

    pub in_block : CBlock → List Bytes
    in_block stop = []
    in_block (stmt_then s ss) = in_stmt s ++ in_block ss

unfoldable pub all_calls : CBlock → List Bytes
unfolding in_block in_stmt all_expr all_exprs
all_calls = in_block all_expr all_exprs

unfoldable pub hidden_calls : CBlock → List Bytes
unfolding in_block in_stmt hidden_expr hidden_exprs
hidden_calls = in_block hidden_expr hidden_exprs

-- The function that a call of `sum` is handed, which the code of the sum calls in a loop.
abbrev pub summed : Bytes → CExprs → List Bytes
summed name (item_and (k_ident g) (item_and x (item_and y rest))) =
    if equal name (codes "sum") then g ∷ [] else []
summed name args = []

unfoldable mutual
  pub summed_expr : CExpr → List Bytes
  summed_expr (k_call name args) = summed name args ++ summed_exprs args
  summed_expr (k_method name meth args) = summed_exprs args
  summed_expr (k_bin op l r) = summed_expr l ++ summed_expr r
  summed_expr (k_cmp op l r) = summed_expr l ++ summed_expr r
  summed_expr (k_and_or op l r) = summed_expr l ++ summed_expr r
  summed_expr (k_not x) = summed_expr x
  summed_expr (k_index name i) = summed_expr i
  summed_expr (k_list items) = summed_exprs items
  summed_expr (k_struct_lit values) = summed_exprs values
  summed_expr (k_int i) = []
  summed_expr (k_string s) = []
  summed_expr (k_ident s) = []
  summed_expr (k_bool b) = []

  pub summed_exprs : CExprs → List Bytes
  summed_exprs no_items = []
  summed_exprs (item_and x xs) = summed_expr x ++ summed_exprs xs

unfoldable pub summed_calls : CBlock → List Bytes
unfolding in_block in_stmt summed_expr summed_exprs equal
summed_calls = in_block summed_expr summed_exprs

has-append : (v : Bytes) (xs ys : List Bytes) → has v (xs ++ ys) ≡ (has v xs || has v ys)
unfolding has
has-append v [] ys = refl
has-append v (x ∷ xs) ys = ground (arith, has-append v xs ys)

-- What is called in a part is called in the outcome or is hidden, and nothing else is.
abbrev Splits : Bytes → List Bytes → List Bytes → FnMeta → FnMeta → Type 0
Splits v all hidden m r = (has v m.callees || has v all) ≡ (has v r.callees || has v hidden)

Splits-append :
    (v : Bytes) (a b h k : List Bytes) (m r s : FnMeta)
    → Splits v a h m r
    → Splits v b k r s
    → Splits v (a ++ b) (h ++ k) m s
Splits-append v a b h k m r s p q = ground (arith, has-append v a b, has-append v h k)

mutual
  unfolding analyze_expr analyze_exprs all_expr all_exprs hidden_expr hidden_exprs has

  expr-Splits :
      (v : Bytes) (e : CExpr) (m : FnMeta)
      → Splits v (all_expr e) (hidden_expr e) m (analyze_expr e m)
  expr-Splits v (k_call name args) m = ground (arith, has-append v m.callees (name ∷ []))
  expr-Splits v (k_method name meth args) m = exprs-Splits v args (record m { has_meth = true })
  expr-Splits v (k_bin op l r) m =
      Splits-append v _ _ _ _ m (analyze_expr l m) (analyze_expr r (analyze_expr l m))
        (expr-Splits v l m) (expr-Splits v r (analyze_expr l m))
  expr-Splits v (k_cmp op l r) m = refl
  expr-Splits v (k_and_or op l r) m = refl
  expr-Splits v (k_not x) m = refl
  expr-Splits v (k_index name i) m = expr-Splits v i (record m { impure = true })
  expr-Splits v (k_list items) m = exprs-Splits v items (record m { impure = true })
  expr-Splits v (k_struct_lit values) m = exprs-Splits v values (record m { impure = true })
  expr-Splits v (k_int i) m = refl
  expr-Splits v (k_string s) m = refl
  expr-Splits v (k_ident s) m = refl
  expr-Splits v (k_bool b) m = refl

  exprs-Splits :
      (v : Bytes) (es : CExprs) (m : FnMeta)
      → Splits v (all_exprs es) (hidden_exprs es) m (analyze_exprs es m)
  exprs-Splits v no_items m = refl
  exprs-Splits v (item_and x xs) m =
      Splits-append v _ _ _ _ m (analyze_expr x m) (analyze_exprs xs (analyze_expr x m))
        (expr-Splits v x m) (exprs-Splits v xs (analyze_expr x m))

mutual
  unfolding analyze_stmt analyze_block in_stmt in_block has

  stmt-Splits :
      (v : Bytes) (s : CStmt) (m : FnMeta)
      → Splits v
          (in_stmt all_expr all_exprs s)
          (in_stmt hidden_expr hidden_exprs s)
          m
          (analyze_stmt s m)
  stmt-Splits v (decl name typ init) m = expr-Splits v init m
  stmt-Splits v (assign name x) m = expr-Splits v x m
  stmt-Splits v (println_stmt args) m = exprs-Splits v args m
  stmt-Splits v (branch test a b) m =
      let m1 = analyze_expr test m in
      let m2 = analyze_block a m1 in
      Splits-append v _ _ _ _ m m1 (analyze_block b m2) (expr-Splits v test m) (
        Splits-append v _ _ _ _ m1 m2 (analyze_block b m2) (block-Splits v a m1)
          (block-Splits v b m2))
  stmt-Splits v (loop test body) m =
      let m1 = analyze_expr test (record m { has_loop = true }) in
      Splits-append v _ _ _ _ (record m { has_loop = true }) m1 (analyze_block body m1)
        (expr-Splits v test (record m { has_loop = true })) (block-Splits v body m1)
  stmt-Splits v (give x) m = expr-Splits v x m
  stmt-Splits v (plain_expr x) m = expr-Splits v x m
  stmt-Splits v (index_assign name i x) m =
      let m1 = analyze_expr i m in
      Splits-append v _ _ _ _ m m1 (analyze_expr x m1) (expr-Splits v i m) (expr-Splits v x m1)
  stmt-Splits v (attempt a b) m =
      let m1 = analyze_block a m in
      Splits-append v _ _ _ _ m m1 (analyze_block b m1) (block-Splits v a m) (block-Splits v b m1)
  stmt-Splits v (free name) m = refl

  block-Splits :
      (v : Bytes) (b : CBlock) (m : FnMeta)
      → Splits v
          (in_block all_expr all_exprs b)
          (in_block hidden_expr hidden_exprs b)
          m
          (analyze_block b m)
  block-Splits v stop m = refl
  block-Splits v (stmt_then s ss) m =
      let m1 = analyze_stmt s m in
      Splits-append v _ _ _ _ m m1 (analyze_block ss m1) (stmt-Splits v s m) (block-Splits v ss m1)

pub analyze_block-calls :
    (v : Bytes) (body : CBlock)
    → has v (all_calls body)
      ≡ (has v (analyze_block body no_meta).callees || has v (hidden_calls body))
unfolding all_calls hidden_calls no_meta has
analyze_block-calls v body = block-Splits v body no_meta
