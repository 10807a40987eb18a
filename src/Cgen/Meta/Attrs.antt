-- ===== src/Cgen/Meta/Attrs.antt =====
-- compiler/internal/cgen/cgen.go: the attributes of a function say what was found out about it.

use quark_lang.Base.{
  Bool, Bytes, List, Option, [], arith, codes, false, lookup, none, not, refl, some, starts, true,
  ◌&&◌, ◌||◌, ◌↔◌, ◌∷◌, ◌≡◌,
}
use quark_lang.Cgen.Meta.{FnMeta, MetaTable, attrs_at, attrs_from, attrs_text, fn_attrs}
use quark_lang.Cgen.Meta.Walk.{IsRecursive, reaches_self-decides}

-- `strings.Contains(s, w)`.
unfoldable pub contains : Bytes → Bytes → Bool
unfolding starts
contains w [] = starts w []
contains w (c ∷ cs) = starts w (c ∷ cs) || contains w cs

module _ (loops meth impure rec : Bool) (callees : List Bytes) where
  abbrev the_meta : FnMeta
  the_meta = record { callees = callees; has_loop = loops; has_meth = meth; impure = impure }

  abbrev Says : Option Bytes → Type 0
  Says none = ⊥
  Says (some a) =
      (contains (codes "mustprogress") a ≡ loops)
      × (contains (codes "norecurse") a ≡ (not meth && not rec))
      × ((contains (codes "memory(none)") a ≡ true) ↔ ((callees ≡ []) × (impure ≡ false)))

attrs_from-Says :
    (loops meth impure rec : Bool) (callees : List Bytes)
    → Says loops meth impure rec callees
        (attrs_from (the_meta loops meth impure rec callees) (some rec))
unfolding contains
attrs_from-Says true true impure rec [] = ground arith
attrs_from-Says true false impure rec [] = ground arith
attrs_from-Says false meth impure rec [] = ground arith
attrs_from-Says loops meth impure rec (c ∷ cs) = ground arith

norecurse_iff :
    (meth rec a : Bool) (P : Type 0)
    → a ≡ (not meth && not rec)
    → ((rec ≡ true) ↔ P)
    → (a ≡ true) ↔ ((meth ≡ false) × (¬ P))
norecurse_iff true rec a P e d = (λ h. cc, λ (h, _). cc)
norecurse_iff false true a P e d = (λ h. cc, λ (_, not_p). absurd (not_p (d.0 refl)))
norecurse_iff false false a P e d = (λ _. (refl, λ p. let x = d.1 p in cc), λ _. e)

-- A function of the table gets "mustprogress" exactly if it has a loop, "norecurse" exactly if it has no
-- method call and no chain of calls among the functions of the table leads from it to itself, and
-- "memory(none)" exactly if the analysis found no call and nothing impure in it.
pub fn_attrs-IsRecursive :
    (t : MetaTable) (name : Bytes) (m : FnMeta)
    → lookup name t ≡ some m
    → (a : Bytes) × (fn_attrs name t ≡ some a)
      × ((contains (codes "mustprogress") a ≡ true) ↔ (m.has_loop ≡ true))
      × ((contains (codes "norecurse") a ≡ true)
          ↔ ((m.has_meth ≡ false) × (¬ ∥ IsRecursive t name ∥₁)))
      × ((contains (codes "memory(none)") a ≡ true) ↔ ((m.callees ≡ []) × (m.impure ≡ false)))
unfolding fn_attrs
fn_attrs-IsRecursive t name m known =
    let (b, e, d) = reaches_self-decides t name in
    let (loops, recs, mem) = attrs_from-Says m.has_loop m.has_meth m.impure b m.callees in
    (
      attrs_text m b,
      λ i. attrs_at (known i) (e i),
      rw loops (λ h. h, λ h. h),
      norecurse_iff m.has_meth b _ ∥ IsRecursive t name ∥₁ recs d,
      mem,
    )
