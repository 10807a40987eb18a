-- ===== src/Cgen/Tests.antt =====
-- Runs of the compiler's definitions.

use quark_lang.Base.{
  Bool, Bytes, List, [], arith, codes, false, inl, inr, none, refl, some, true, ℕ, ◌%◌, ◌-◌, ◌<◌,
  ◌↔◌, ◌∷◌, ◌≡◌,
}
use quark_lang.Cgen.{
  CBlock, CExpr, FuncDef, assign, attempt, give, item_and, k_bin, k_bool, k_call, k_ident, k_int,
  loop, no_items, println_stmt, stmt_then, stop,
}
use quark_lang.Cgen.Fold.{const_eval, scan_assigned}
use quark_lang.Cgen.Fold.Laws.{const_eval-run_i32, literal, operation, run_i32}
use quark_lang.Cgen.Meta.{
  MetaTable, analyze_block, attrs_from, fn_attrs, func_meta, no_meta, program_meta, reaches_self,
}
use quark_lang.Cgen.Meta.Attrs.{contains}
use quark_lang.Cgen.Meta.Calls.{hidden_calls, summed_calls}
use quark_lang.Cgen.Meta.Program.{NoneHidden, CallsItself, body_of, program-norecurse}
use quark_lang.Cgen.Meta.Walk.{IsRecursive, reaches_self-decides}
use quark_lang.Operators.{two_32, two_64}

abbrev a_name : Bytes
a_name = codes "a"

abbrev b_name : Bytes
b_name = codes "b"

-- `fn a() { return b(); }` and `fn b() { return <x>; }`.
abbrev two_funcs : CExpr → List FuncDef
two_funcs x =
    func a_name (stmt_then (give (k_call b_name no_items)) stop)
    ∷ func b_name (stmt_then (give x) stop)
    ∷ []
  where
    func : Bytes → CBlock → FuncDef
    func name body = record {
      name = name;
      params = [];
      ret = [];
      body = body;
      self_typ = [];
      self_param = [];
    }

abbrev table : CExpr → MetaTable
table x = program_meta (two_funcs x) stop

-- A call of `a` in `b` makes both functions recursive.
recursive_pair : reaches_self a_name (table (k_call a_name no_items)) ≡ some true
unfolding reaches_self program_meta analyze_block
recursive_pair = refl

plain_pair : fn_attrs b_name (table (k_int 1)) ≡ some (codes " norecurse memory(none)")
unfolding fn_attrs program_meta analyze_block
plain_pair = refl

-- The call of `a` in an argument is not seen, and `b` gets the attribute of a function that does
-- not call itself.
hidden_call :
    fn_attrs b_name (table (k_call (codes "print") (item_and (k_call a_name no_items) no_items)))
    ≡ some (codes " norecurse")
unfolding fn_attrs program_meta analyze_block
hidden_call = refl

-- `a` calls `b`, which hands `a` to `sum`, and `b` gets the attribute of a function that does not call
-- itself.
summed_call :
    fn_attrs b_name (
      table (
        k_call
          (codes "sum")
          (item_and (k_ident a_name) (item_and (k_int 0) (item_and (k_int 9) no_items)))))
    ≡ some (codes " norecurse")
unfolding fn_attrs program_meta analyze_block
summed_call = refl

-- A function that prints is said to read and write no memory.
printing_func :
    attrs_from
      (func_meta (stmt_then (println_stmt (item_and (k_int 1) no_items)) stop))
      (some false)
    ≡ some (codes " norecurse memory(none)")
unfolding analyze_block no_meta
printing_func = refl

-- `(2147483647 + 1) / 2`, where the instructions would give -1073741824.
halved_overflow :
    const_eval (k_bin (codes "/") (k_bin (codes "+") (k_int 2147483647) (k_int 1)) (k_int 2))
    ≡ some 1073741824
unfolding const_eval
halved_overflow = refl

-- `-7 / 2 * (1 << 33)`.
signed_fold :
    const_eval (
      k_bin
        (codes "*")
        (k_bin (codes "/") (k_bin (codes "-") (k_int 0) (k_int 7)) (k_int 2))
        (k_bin (codes "<<") (k_int 1) (k_int 33)))
    ≡ some (two_64 - 6)
unfolding const_eval
signed_fold = refl

divided_by_zero : const_eval (k_bin (codes "%") (k_int 4) (k_int 0)) ≡ none
unfolding const_eval
divided_by_zero = refl

-- An assignment in a `try` block is not seen.
assigned_in_try :
    scan_assigned
      (stmt_then
        (attempt (stmt_then (assign a_name (k_int 1)) stop) stop)
        (stmt_then (loop (k_bool true) (stmt_then (assign b_name (k_int 2)) stop)) stop))
      []
    ≡ b_name ∷ []
unfolding scan_assigned
assigned_in_try = refl

count_in_range : run_i32 (k_int 17) < 32
unfolding run_i32
count_in_range = omega arith

const_eval-run_i32_example :
    (v : ℕ) × (const_eval
        (k_bin (codes "*") (k_int 65536) (k_bin (codes "<<") (k_int 1) (k_int 17)))
      ≡ some v)
    × (v % two_32
        ≡ run_i32 (k_bin (codes "*") (k_int 65536) (k_bin (codes "<<") (k_int 1) (k_int 17))))
const_eval-run_i32_example = const_eval-run_i32 (
    operation (codes "*") (literal 65536 (omega arith))
      (operation (codes "<<") (literal 1 (omega arith)) (literal 17 (omega arith))
        (inr (inr (inr (refl, count_in_range)))))
      (inr (inr (inl refl))))

reaches_self-decides_example :
    (b : Bool) × (reaches_self a_name (table (k_call a_name no_items)) ≡ some b)
    × ((b ≡ true) ↔ ∥ IsRecursive (table (k_call a_name no_items)) a_name ∥₁)
reaches_self-decides_example = reaches_self-decides (table (k_call a_name no_items)) a_name

first_body :
    body_of (two_funcs (k_int 1)) stop a_name
    ≡ some (stmt_then (give (k_call b_name no_items)) stop)
unfolding body_of
first_body = refl

none_hidden : NoneHidden (two_funcs (k_int 1)) stop
unfolding hidden_calls summed_calls
none_hidden = ((refl, refl), ((refl, refl), ((refl, refl), tt)))

program-norecurse_example :
    (a : Bytes) × (fn_attrs a_name (program_meta (two_funcs (k_int 1)) stop) ≡ some a)
    × ((contains (codes "norecurse") a ≡ true) ↔ (
        ((analyze_block (stmt_then (give (k_call b_name no_items)) stop) no_meta).has_meth ≡ false)
        × (¬ ∥ CallsItself (two_funcs (k_int 1)) stop a_name ∥₁)))
program-norecurse_example =
    program-norecurse (two_funcs (k_int 1)) stop (stmt_then (give (k_call b_name no_items)) stop)
      a_name none_hidden first_body
