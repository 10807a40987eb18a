-- ===== src/Cgen/Meta.antt =====
-- compiler/internal/cgen/cgen.go: what the compiler finds out about the calls and loops of functions,
-- and the attributes that it gives them for LLVM.
pub mod Walk
pub mod Calls
pub mod Attrs
pub mod Program
use quark_lang.Base.{
  Bool, Bytes, List, Option, [], codes, equal, false, if◌then◌else◌, insert, length, lookup, none,
  not, some, suc, true, zero, ℕ, ◌&&◌, ◌++◌, ◌||◌, ◌∷◌,
}
use quark_lang.Cgen.{
  CBlock, CExpr, CExprs, CStmt, FuncDef, assign, attempt, branch, decl, free, give, index_assign,
  item_and, k_and_or, k_bin, k_bool, k_call, k_cmp, k_ident, k_index, k_int, k_list, k_method,
  k_not, k_string, k_struct_lit, loop, no_items, plain_expr, println_stmt, stmt_then, stop,
}
use quark_lang.Lexer.{next}

pub record FnMeta : Type 0 where
  pub callees : List Bytes
  pub has_loop : Bool
  pub has_meth : Bool
  pub impure : Bool

unfoldable pub no_meta : FnMeta
no_meta = record { callees = []; has_loop = false; has_meth = false; impure = false }

unfoldable mutual
  pub analyze_expr : CExpr → FnMeta → FnMeta
  analyze_expr (k_call name args) m = record m { callees = m.callees ++ (name ∷ []); impure = true }
  analyze_expr (k_method name meth args) m = analyze_exprs args (record m { has_meth = true })
  analyze_expr (k_bin op l r) m = analyze_expr r (analyze_expr l m)
  analyze_expr (k_index name i) m = analyze_expr i (record m { impure = true })
  analyze_expr (k_list items) m = analyze_exprs items (record m { impure = true })
  analyze_expr (k_struct_lit values) m = analyze_exprs values (record m { impure = true })
  analyze_expr (k_int i) m = m
  analyze_expr (k_string s) m = m
  analyze_expr (k_ident s) m = m
  analyze_expr (k_cmp op l r) m = m
  analyze_expr (k_and_or op l r) m = m
  analyze_expr (k_not x) m = m
  analyze_expr (k_bool b) m = m

  pub analyze_exprs : CExprs → FnMeta → FnMeta
  analyze_exprs no_items m = m
  analyze_exprs (item_and x xs) m = analyze_exprs xs (analyze_expr x m)

unfoldable mutual
  unfolding analyze_expr analyze_exprs

  pub analyze_stmt : CStmt → FnMeta → FnMeta
  analyze_stmt (decl name typ init) m = analyze_expr init m
  analyze_stmt (assign name x) m = analyze_expr x m
  analyze_stmt (println_stmt args) m = analyze_exprs args m
  analyze_stmt (branch test then_ else_) m =
      analyze_block else_ (analyze_block then_ (analyze_expr test m))
  analyze_stmt (loop test body) m =
      analyze_block body (analyze_expr test (record m { has_loop = true }))
  analyze_stmt (give x) m = analyze_expr x m
  analyze_stmt (plain_expr x) m = analyze_expr x m
  analyze_stmt (index_assign name i x) m = analyze_expr x (analyze_expr i m)
  analyze_stmt (attempt body handler) m = analyze_block handler (analyze_block body m)
  analyze_stmt (free name) m = m

  pub analyze_block : CBlock → FnMeta → FnMeta
  analyze_block stop m = m
  analyze_block (stmt_then s ss) m = analyze_block ss (analyze_stmt s m)

-- `map[string]*fnMeta`.
abbrev pub MetaTable : Type 0
MetaTable = List (Bytes × FnMeta)

abbrev pub func_meta : CBlock → FnMeta
func_meta body = analyze_block body no_meta

unfoldable pub funcs_meta : List FuncDef → MetaTable → MetaTable
unfolding insert analyze_block no_meta
funcs_meta [] t = t
funcs_meta (fd ∷ fds) t = funcs_meta fds (insert fd.name (func_meta fd.body) t)

unfoldable pub program_meta : List FuncDef → CBlock → MetaTable
unfolding insert funcs_meta
program_meta funcs main_stmts = insert (codes "main") (func_meta main_stmts) (funcs_meta funcs [])

abbrev pub meta_of : Option FnMeta → FnMeta
meta_of none = no_meta
meta_of (some m) = m

abbrev pub is_known : Option FnMeta → Bool
is_known none = false
is_known (some m) = true

-- `_, ok := meta[c]`.
unfoldable pub is_fn : MetaTable → Bytes → Bool
unfolding lookup
is_fn t c = is_known (lookup c t)

-- `meta[n].callees`, of a function of the table. It is not read for another name, for which the program
-- would panic: `fnAttrs` has found its name in the table, and `walk` goes on to such callees only.
unfoldable pub callees_of : MetaTable → Bytes → List Bytes
unfolding lookup no_meta
callees_of t n = (meta_of (lookup n t)).callees

unfoldable pub has : Bytes → List Bytes → Bool
unfolding equal
has n [] = false
has n (x ∷ xs) = equal x n || has n xs

-- The end of a `walk`: the function was found, or it was not, after the visits of the names listed.
pub data Walked : Type 0 where
  found : Walked
  missed : List Bytes → Walked
  too_deep : Walked

abbrev pub after : Walked → (List Bytes → Walked) → Walked
after found next = found
after (missed seen) next = next seen
after too_deep next = too_deep

-- The loop over the callees in `walk`.
unfoldable pub walk_each :
    MetaTable → (List Bytes → Bytes → Walked) → List Bytes → List Bytes → Walked
unfolding is_fn
walk_each t walk_one seen [] = missed seen
walk_each t walk_one seen (c ∷ cs) =
    let rest = λ (seen' : List Bytes). walk_each t walk_one seen' cs in
    if is_fn t c then after (walk_one seen c) rest else rest seen

-- `walk`, for the function `name`; the depth is at most the number of functions.
unfoldable pub walk : MetaTable → Bytes → ℕ → List Bytes → Bytes → Walked
unfolding equal has walk_each callees_of
walk t name zero seen n = too_deep
walk t name (suc f) seen n =
    let inner = walk_each t (walk t name f) (n ∷ seen) (callees_of t n) in
    if equal n name then found else if has n seen then missed seen else inner

abbrev pub answered : Walked → Option Bool → Option Bool
answered found rest = some true
answered (missed seen) rest = rest
answered too_deep rest = none

-- The loop of `reachesSelf`, where each round starts with nothing seen.
unfoldable pub reaches_from : MetaTable → Bytes → List Bytes → Option Bool
unfolding walk is_fn
reaches_from t name [] = some false
reaches_from t name (c ∷ cs) =
    let rest = reaches_from t name cs in
    if is_fn t c then answered (walk t name (suc (length t)) [] c) rest else rest

-- `reachesSelf`; `none` for a walk that is too deep.
unfoldable pub reaches_self : Bytes → MetaTable → Option Bool
unfolding reaches_from callees_of
reaches_self name t = reaches_from t name (callees_of t name)

abbrev pub memory_attr : List Bytes → Bool → Bytes
memory_attr [] false = codes " memory(none)"
memory_attr callees impure = []

abbrev pub attrs_text : FnMeta → Bool → Bytes
attrs_text m recursive =
    (if m.has_loop then codes " mustprogress" else [])
    ++ ((if not m.has_meth && not recursive then codes " norecurse" else [])
        ++ memory_attr m.callees m.impure)

abbrev pub attrs_from : FnMeta → Option Bool → Option Bytes
attrs_from m none = none
attrs_from m (some recursive) = some (attrs_text m recursive)

abbrev pub attrs_at : Option FnMeta → Option Bool → Option Bytes
attrs_at none recursive = some []
attrs_at (some m) recursive = attrs_from m recursive

-- `fnAttrs`.
unfoldable pub fn_attrs : Bytes → MetaTable → Option Bytes
unfolding lookup reaches_self
fn_attrs name t = attrs_at (lookup name t) (reaches_self name t)
