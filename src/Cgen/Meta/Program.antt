-- ===== src/Cgen/Meta/Program.antt =====
-- compiler/internal/cgen/cgen.go: the attribute "norecurse" for a whole program.
use mathlib.Core.Logic.{∥∥₁_map}
use mathlib.Core.Path.{subst}
use quark_lang.Base.{
  All, Bool, Bool-cases, Bytes, List, Option, [], ap, arith, codes, equal, false, if◌then◌else◌,
  inl, inr, insert, lookup, lookup-insert, none, refl, some, sym, true, ◌↔◌, ◌∙◌, ◌∷◌, ◌≡◌, ◌||◌,
}
use quark_lang.Cgen.{CBlock, FuncDef}
use quark_lang.Cgen.Meta.{
  FnMeta, MetaTable, analyze_block, callees_of, fn_attrs, func_meta, funcs_meta, has, is_fn,
  is_known, meta_of, no_meta, program_meta,
}
use quark_lang.Cgen.Meta.Attrs.{contains, fn_attrs-IsRecursive}
use quark_lang.Cgen.Meta.Calls.{all_calls, analyze_block-calls, hidden_calls, summed_calls}
use quark_lang.Cgen.Meta.Walk.{Edge, IsRecursive, Reaches, here, step}

-- The body that a name stands for: that of the last function of the name, and for "main" the main
-- statements.
abbrev last_body : List FuncDef → Option CBlock → Bytes → Option CBlock
last_body [] old n = old
last_body (fd ∷ fds) old n = last_body fds (if equal fd.name n then some fd.body else old) n

unfoldable pub body_of : List FuncDef → CBlock → Bytes → Option CBlock
unfolding equal
body_of funcs main_stmts n =
    if equal (codes "main") n then some main_stmts else last_body funcs none n

abbrev metas : Option CBlock → Option FnMeta
metas none = none
metas (some b) = some (func_meta b)

metas-if :
    (b : Bool) (x : CBlock) (o : Option CBlock)
    → (if b then some (func_meta x) else metas o) ≡ metas (if b then some x else o)
metas-if true x o = refl
metas-if false x o = refl

lookup-funcs_meta :
    (fds : List FuncDef) (t : MetaTable) (old : Option CBlock) (n : Bytes)
    → lookup n t ≡ metas old
    → lookup n (funcs_meta fds t) ≡ metas (last_body fds old n)
unfolding funcs_meta
lookup-funcs_meta [] t old n h = h
lookup-funcs_meta (fd ∷ fds) t old n h =
    lookup-funcs_meta fds (insert fd.name (func_meta fd.body) t)
      (if equal fd.name n then some fd.body else old) n
      (lookup-insert fd.name n (func_meta fd.body) t
        ∙ rw h (metas-if (equal fd.name n) fd.body old))

lookup-program_meta :
    (funcs : List FuncDef) (main_stmts : CBlock) (n : Bytes)
    → lookup n (program_meta funcs main_stmts) ≡ metas (body_of funcs main_stmts n)
unfolding program_meta body_of lookup
lookup-program_meta funcs main_stmts n =
    lookup-insert (codes "main") n (func_meta main_stmts) (funcs_meta funcs [])
    ∙ rw (lookup-funcs_meta funcs [] none n refl)
        (metas-if (equal (codes "main") n) main_stmts (last_body funcs none n))

has-nil : (v : Bytes) → has v no_meta.callees ≡ true → ⊥
unfolding has no_meta
has-nil v h = cc

-- No call stands where the analysis does not look, and no function is handed to `sum`.
abbrev pub NoneMissed : CBlock → Type 0
NoneMissed b = (hidden_calls b ≡ []) × (summed_calls b ≡ [])

abbrev PlainBody : Option CBlock → Type 0
PlainBody none = Unit {0}
PlainBody (some b) = NoneMissed b

last_body-PlainBody :
    (fds : List FuncDef) (old : Option CBlock) (n : Bytes)
    → All (λ fd. NoneMissed fd.body) fds
    → PlainBody old
    → PlainBody (last_body fds old n)
last_body-PlainBody [] old n hs h = h
last_body-PlainBody (fd ∷ fds) old n (k, hs) h =
    last_body-PlainBody fds (if equal fd.name n then some fd.body else old) n hs
      (either (equal fd.name n))
  where
    either : (b : Bool) → PlainBody (if b then some fd.body else old)
    either true = k
    either false = h

with_summed : (x y : Bool) → x ≡ true → (x || y) ≡ true
with_summed x y e = ground arith

collected :
    (v : Bytes) (b : CBlock)
    → hidden_calls b ≡ []
    → summed_calls b ≡ []
    → (has v (all_calls b) || has v (summed_calls b)) ≡ true
    → has v (func_meta b).callees ≡ true
unfolding has
collected v b h w m =
    let k = analyze_block-calls v b in
    let none_hidden : has v (hidden_calls b) ≡ false = rw h refl in
    let none_summed : has v (summed_calls b) ≡ false = rw w refl in ground arith

module _ (funcs : List FuncDef) (main_stmts : CBlock) where
  abbrev pub Body : Bytes → CBlock → Type 0
  Body n b = body_of funcs main_stmts n ≡ some b

  -- The body of `u` has a call of `v` by its name, wherever it stands, or hands `v` to `sum`, and `v` is
  -- a function of the program. Calls of methods are not followed.
  abbrev pub CallsOf : Bytes → Bytes → Type 0
  CallsOf u v =
      (b : CBlock) × (c : CBlock) × Body u b
      × Body v c
      × ((has v (all_calls b) || has v (summed_calls b)) ≡ true)

  pub data CallChain (goal : Bytes) : Bytes → Type 0 where
    at_goal : CallChain goal goal
    by_call : {u v : Bytes} → CallsOf u v → CallChain goal v → CallChain goal u

  -- A chain of such calls leads from the function to itself.
  abbrev pub CallsItself : Bytes → Type 0
  CallsItself n = (c : Bytes) × CallsOf n c × CallChain n c

  abbrev pub NoneHidden : Type 0
  NoneHidden = NoneMissed main_stmts × All (λ fd. NoneMissed fd.body) funcs

  Body-NoneMissed : NoneHidden → (n : Bytes) (b : CBlock) → Body n b → NoneMissed b
  unfolding body_of
  Body-NoneMissed (h, hs) n b e = elim (Bool-cases (equal (codes "main") n)) [
    | inl m ↦ let same : some main_stmts ≡ some b = rw m at e in subst PlainBody same h
    | inr m ↦
        let last : last_body funcs none n ≡ some b = rw m at e in
        subst PlainBody last (last_body-PlainBody funcs none n hs tt)
  ]

  -- The table of the program.
  abbrev pub the_table : MetaTable
  the_table = program_meta funcs main_stmts

  is_fn-Body : (v : Bytes) → is_fn the_table v ≡ true → (c : CBlock) × Body v c
  unfolding is_fn
  is_fn-Body v h =
      go (body_of funcs main_stmts v) refl
        (ap is_known (sym (lookup-program_meta funcs main_stmts v)) ∙ h)
    where
      go :
          (o : Option CBlock)
          → body_of funcs main_stmts v ≡ o
          → is_known (metas o) ≡ true
          → (c : CBlock) × (o ≡ some c)
      go none e k = cc
      go (some c) e k = (c, refl)

  Body-lookup : (u : Bytes) (b : CBlock) → Body u b → lookup u the_table ≡ some (func_meta b)
  Body-lookup u b e = lookup-program_meta funcs main_stmts u ∙ ap metas e

  Body-is_fn : (v : Bytes) (c : CBlock) → Body v c → is_fn the_table v ≡ true
  unfolding is_fn
  Body-is_fn v c e = ap is_known (Body-lookup v c e)

  Edge-CallsOf : (u v : Bytes) → Edge the_table u v → CallsOf u v
  unfolding callees_of
  Edge-CallsOf u v (m, d) =
      let (c, e) = is_fn-Body v d in
      go (body_of funcs main_stmts u) refl
        (ap (λ o. has v (meta_of o).callees) (sym (lookup-program_meta funcs main_stmts u)) ∙ m) c e
    where
      go :
          (o : Option CBlock)
          → body_of funcs main_stmts u ≡ o
          → has v (meta_of (metas o)).callees ≡ true
          → (c : CBlock) → Body v c
          → CallsOf u v
      go none e k c d = absurd (has-nil v k)
      go (some b) e k c d = (b, c, e, d, with_summed _ _ (analyze_block-calls v b ∙ rw k refl))

  Reaches-CallChain : {goal u : Bytes} → Reaches the_table goal u → CallChain goal u
  Reaches-CallChain here = at_goal
  Reaches-CallChain (step {u} {v} e p) = by_call (Edge-CallsOf u v e) (Reaches-CallChain p)

  module _ (in_sight : NoneHidden) where
    CallsOf-Edge : (u v : Bytes) → CallsOf u v → Edge the_table u v
    unfolding callees_of
    CallsOf-Edge u v (b, c, e, d, m) = (
      ap (λ o. has v (meta_of o).callees) (Body-lookup u b e) ∙ go (Body-NoneMissed in_sight u b e),
      Body-is_fn v c d,
    )
      where
        go : NoneMissed b → has v (func_meta b).callees ≡ true
        go (h, w) = collected v b h w m

    CallChain-Reaches : {goal u : Bytes} → CallChain goal u → Reaches the_table goal u
    CallChain-Reaches at_goal = here
    CallChain-Reaches (by_call {u} {v} e p) = step (CallsOf-Edge u v e) (CallChain-Reaches p)

-- In a program in which no call stands in the arguments of a call, in a comparison or in a logical
-- operation, and no function is handed to `sum`, the definition of a function, or of "main", is given
-- the attribute "norecurse" exactly if the analysis has seen no method call in it, and no chain of calls
-- by name leads from it to itself. What methods call is not followed.
pub program-norecurse :
    (funcs : List FuncDef) (main_stmts body : CBlock) (name : Bytes)
    → NoneHidden funcs main_stmts
    → body_of funcs main_stmts name ≡ some body
    → (a : Bytes) × (fn_attrs name (program_meta funcs main_stmts) ≡ some a)
      × ((contains (codes "norecurse") a ≡ true) ↔ (
          ((analyze_block body no_meta).has_meth ≡ false)
          × (¬ ∥ CallsItself funcs main_stmts name ∥₁)))
program-norecurse funcs main_stmts body name in_sight e =
    let t = program_meta funcs main_stmts in
    let (a, given, _, attr, _) =
      fn_attrs-IsRecursive t name (func_meta body) (Body-lookup funcs main_stmts name body e) in
    (
      a,
      given,
      (
        λ h.
            let (meth, none_again) = attr.0 h in
            (meth, λ r. none_again (∥∥₁_map r (to_table in_sight))),
        λ (meth, none_again). attr.1 (meth, λ r. none_again (∥∥₁_map r from_table)),
      ),
    )
  where
    to_table :
        NoneHidden funcs main_stmts
        → CallsItself funcs main_stmts name
        → IsRecursive (program_meta funcs main_stmts) name
    to_table in_sight (c, e, p) = (
      c,
      CallsOf-Edge funcs main_stmts in_sight name c e,
      CallChain-Reaches funcs main_stmts in_sight p,
    )

    from_table :
        IsRecursive (program_meta funcs main_stmts) name → CallsItself funcs main_stmts name
    from_table (c, e, p) =
        (c, Edge-CallsOf funcs main_stmts name c e, Reaches-CallChain funcs main_stmts p)
