-- ===== src/Front/Calls/Laws.antt =====
-- internal/lang/parser.go: the indices of calls, and the map that they are taken from.
use mathlib.Core.Path.{subst}
use quark_lang.Base.{
  ==_iff, Bool-cases, Bytes, List, Option, [], ap, arith, equal, equal_iff, get_elem?,
  if◌then◌else◌, inl, inr, insert, lookup, lookup-insert, ltb, ltb→lt, map, none, some, suc, sym, ℕ,
  ◌+◌, ◌-◌, ◌<◌, ◌==◌, ◌∙◌, ◌∷◌, ◌≡◌, ◌≢◌, ◌≤◌,
}
use quark_lang.Front.Calls.{fn_index, index_onto}
use quark_lang.Syntax.{
  Block, Expr, Exprs, Fields, FuncDecl, Stmt, assign_stmt, bin_expr, call_expr, decl_init,
  delete_stmt, expr_and, expr_stmt, field_and, for_stmt, ident, if_else, if_stmt, index_expr,
  list_lit, log_stmt, member_expr, new_sized, no_exprs, no_fields, no_stmts, return_stmt,
  scope_call, signed_call, stmt_and, struct_lit, try_stmt, un_expr, while_stmt,
}

-- An index at a call, if there is one, is that of the callee's name among the names; among no names,
-- there is none.
abbrev pub IsIndex : List Bytes → Expr → Option ℕ → Type 0
IsIndex fs fn none = Unit
IsIndex fs (ident s p) (some i) = get_elem? fs i ≡ some s
IsIndex fs fn (some i) = ⊥

unfoldable mutual
  -- Every call in the expression has such an index.
  pub AreIndexed : List Bytes → Expr → Type 0
  AreIndexed fs (call_expr fn args p i) = IsIndex fs fn i × (AreIndexed fs fn × AllIndexed fs args)
  AreIndexed fs (signed_call fn args s sargs p i) =
      IsIndex fs fn i × (AreIndexed fs fn × (AllIndexed fs args × AllIndexed fs sargs))
  AreIndexed fs (bin_expr op x y p) = AreIndexed fs x × AreIndexed fs y
  AreIndexed fs (un_expr op x p) = AreIndexed fs x
  AreIndexed fs (list_lit xs) = AllIndexed fs xs
  AreIndexed fs (struct_lit xs p) = FieldsIndexed fs xs
  AreIndexed fs (new_sized ty x p) = AreIndexed fs x
  AreIndexed fs (member_expr x s p) = AreIndexed fs x
  AreIndexed fs (scope_call s m args p) = AllIndexed fs args
  AreIndexed fs (index_expr x y p) = AreIndexed fs x × AreIndexed fs y
  AreIndexed fs x = Unit

  pub AllIndexed : List Bytes → Exprs → Type 0
  AllIndexed fs no_exprs = Unit
  AllIndexed fs (expr_and x xs) = AreIndexed fs x × AllIndexed fs xs

  pub FieldsIndexed : List Bytes → Fields → Type 0
  FieldsIndexed fs no_fields = Unit
  FieldsIndexed fs (field_and s x xs) = AreIndexed fs x × FieldsIndexed fs xs

unfoldable mutual
  pub StmtIndexed : List Bytes → Stmt → Type 0
  StmtIndexed fs (expr_stmt x) = AreIndexed fs x
  StmtIndexed fs (log_stmt x p) = AreIndexed fs x
  StmtIndexed fs (delete_stmt x p) = AreIndexed fs x
  StmtIndexed fs (return_stmt x p) = AreIndexed fs x
  StmtIndexed fs (try_stmt b v ty c p) = BlockIndexed fs b × BlockIndexed fs c
  StmtIndexed fs (if_stmt x b) = AreIndexed fs x × BlockIndexed fs b
  StmtIndexed fs (if_else x b c) = AreIndexed fs x × (BlockIndexed fs b × BlockIndexed fs c)
  StmtIndexed fs (while_stmt x b) = AreIndexed fs x × BlockIndexed fs b
  StmtIndexed fs (for_stmt v x b p) = AreIndexed fs x × BlockIndexed fs b
  StmtIndexed fs (decl_init s ty x d p) = AreIndexed fs x
  StmtIndexed fs (assign_stmt x y p) = AreIndexed fs x × AreIndexed fs y
  StmtIndexed fs s = Unit

  pub BlockIndexed : List Bytes → Block → Type 0
  BlockIndexed fs no_stmts = Unit
  BlockIndexed fs (stmt_and s b) = StmtIndexed fs s × BlockIndexed fs b

abbrev pub names_of : List FuncDecl → List Bytes
names_of fs = map (λ f. f.name) fs

-- The index is that of the last function of the name; there is none if no function has it.
abbrev pub IsLast : List Bytes → Bytes → Option ℕ → Type 0
IsLast fs s none = (j : ℕ) → get_elem? fs j ≢ some s
IsLast fs s (some i) = (get_elem? fs i ≡ some s) × ((j : ℕ) → i < j → get_elem? fs j ≢ some s)

-- The same among the first `n` functions.
abbrev LastBelow : ℕ → List Bytes → Bytes → Option ℕ → Type 0
LastBelow n fs s none = (j : ℕ) → j < n → get_elem? fs j ≢ some s
LastBelow n fs s (some i) =
    (get_elem? fs i ≡ some s) × ((j : ℕ) → i < j → j < n → get_elem? fs j ≢ some s)

none_behind :
    (all : List Bytes) (n : ℕ) (s : Bytes) (o : Option ℕ)
    → ((j : ℕ) → n ≤ j → get_elem? all j ≡ none)
    → LastBelow n all s o
    → IsLast all s o
none_behind all n s none out h = λ j e. elim (Bool-cases (ltb j n)) [
  | inl l ↦ h j (ltb→lt _ _ l) e
  | inr l ↦ let no = out j (ground arith) in absurd (cc)
]
none_behind all n s (some i) out (h, k) = (
  h,
  λ j m e. elim (Bool-cases (ltb j n)) [
    | inl l ↦ k j m (ltb→lt _ _ l) e
    | inr l ↦ let no = out j (ground arith) in absurd (cc)
  ],
)

-- One function more.
with_function :
    (all : List Bytes) (n : ℕ) (f s : Bytes) (o : Option ℕ)
    → get_elem? all n ≡ some f
    → LastBelow n all s o
    → LastBelow (suc n) all s (if equal f s then some n else o)
with_function all n f s o e h = elim (Bool-cases (equal f s)) [
  | inl b ↦ rw b (e ∙ ap some ((equal_iff f s).0 b), λ j m l d. absurd (omega arith))
  | inr b ↦ rw b (older o h (λ d. let y = (equal_iff f s).1 d in cc))
]
  where
    older : (o : Option ℕ) → LastBelow n all s o → f ≢ s → LastBelow (suc n) all s o
    older none h ne = λ j l d. elim (Bool-cases (j == n)) [
      | inl b ↦
          let same : j ≡ n = (==_iff j n).0 b in
          let found : some f ≡ some s = sym e ∙ (sym (ap (get_elem? all) same) ∙ d) in ne (cc)
      | inr b ↦ h j (ground arith) d
    ]
    older (some i) (h, k) ne = (
      h,
      λ j m l d. elim (Bool-cases (j == n)) [
        | inl b ↦
            let same : j ≡ n = (==_iff j n).0 b in
            let found : some f ≡ some s = sym e ∙ (sym (ap (get_elem? all) same) ∙ d) in ne (cc)
        | inr b ↦ k j m (ground arith) d
      ],
    )

index_onto-IsLast :
    (all : List Bytes) (fs : List FuncDecl) (i : ℕ) (idx : List (Bytes × ℕ)) (s : Bytes)
    → ((j : ℕ) → get_elem? all (i + j) ≡ get_elem? (names_of fs) j)
    → LastBelow i all s (lookup s idx)
    → IsLast all s (lookup s (index_onto idx i fs))
index_onto-IsLast all [] i idx s at h =
    none_behind all i s (lookup s idx)
      (λ j l. let split : j ≡ i + (j - i) = omega arith in ap (get_elem? all) split ∙ at (j - i)) h
index_onto-IsLast all (f ∷ fs) i idx s at h =
    let here : i ≡ i + 0 = omega arith in
    let met : get_elem? all i ≡ some f.name = ap (get_elem? all) here ∙ at 0 in
    index_onto-IsLast all fs (suc i) (insert f.name i idx) s
      (λ j.
        let moved : suc i + j ≡ i + suc j = omega arith in ap (get_elem? all) moved ∙ at (suc j))
      (subst (LastBelow (suc i) all s) (sym (lookup-insert f.name s i idx))
        (with_function all i f.name s (lookup s idx) met h))

-- The map gives to each name the index of the last function of the name.
pub fn_index-IsLast :
    (fs : List FuncDecl) (s : Bytes) → IsLast (names_of fs) s (lookup s (fn_index fs))
unfolding fn_index lookup
fn_index-IsLast fs s =
    index_onto-IsLast (names_of fs) fs 0 [] s
      (λ j. let start : 0 + j ≡ j = omega arith in ap (get_elem? (names_of fs)) start)
      (λ j l. absurd (omega arith))
