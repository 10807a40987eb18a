-- ===== src/Cgen/Fold.antt =====
-- compiler/internal/cgen/cgen.go: the folding of constants, and the variables that are assigned to.
pub mod Laws
use quark_lang.Base.{
  Bytes, List, Option, codes, equal, if◌then◌else◌, none, some, ℕ, ◌%◌, ◌*◌, ◌+◌, ◌-◌, ◌==◌, ◌∷◌,
}
use quark_lang.Cgen.{
  CBlock, CExpr, CStmt, assign, attempt, branch, decl, free, give, index_assign, k_bin, k_int, loop,
  plain_expr, println_stmt, stmt_then, stop,
}
use quark_lang.Operators.{quot_64, rem_64, shl_int, shr_int, two_64}

abbrev divided : (ℕ → ℕ → ℕ) → ℕ → ℕ → Option ℕ
divided f l r = if r == 0 then none else some (f l r)

-- The cases of `constEval` for two constants, which are int64.
unfoldable pub fold_op : Bytes → ℕ → ℕ → Option ℕ
unfolding equal quot_64 rem_64 shl_int shr_int
fold_op op l r =
    if equal op (codes "+")
    then some ((l + r) % two_64)
    else if equal op (codes "-")
    then some ((l + (two_64 - r % two_64)) % two_64)
    else if equal op (codes "*")
    then some (l * r % two_64)
    else if equal op (codes "/")
    then divided quot_64 l r
    else if equal op (codes "%")
    then divided rem_64 l r
    else if equal op (codes "<<")
    then some (shl_int l r)
    else if equal op (codes ">>")
    then some (shr_int l r)
    else none

abbrev both : Option ℕ → Option ℕ → (ℕ → ℕ → Option ℕ) → Option ℕ
both none r f = none
both (some l) none f = none
both (some l) (some r) f = f l r

-- `constEval`.
unfoldable pub const_eval : CExpr → Option ℕ
unfolding fold_op
const_eval (k_int i) = some i
const_eval (k_bin op l r) = both (const_eval l) (const_eval r) (fold_op op)
const_eval _ = none

-- `scanAssigned`; the names stand in a list instead of a set.
unfoldable mutual
  pub scan_stmt : CStmt → List Bytes → List Bytes
  scan_stmt (assign name x) out = name ∷ out
  scan_stmt (branch test a b) out = scan_assigned b (scan_assigned a out)
  scan_stmt (loop test body) out = scan_assigned body out
  scan_stmt (println_stmt args) out = out
  scan_stmt (decl name typ init) out = out
  scan_stmt (give x) out = out
  scan_stmt (plain_expr x) out = out
  scan_stmt (index_assign name i x) out = out
  scan_stmt (attempt a b) out = out
  scan_stmt (free name) out = out

  pub scan_assigned : CBlock → List Bytes → List Bytes
  scan_assigned stop out = out
  scan_assigned (stmt_then s ss) out = scan_assigned ss (scan_stmt s out)
