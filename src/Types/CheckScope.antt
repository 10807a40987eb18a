-- ===== src/Types/CheckScope.antt =====
-- internal/lang/typecheck.go: `cVar` and `cScope`, the scopes of the checker. A chain of scopes is the
-- list of their maps, the innermost one first.

use quark_lang.Base.{
  Bool, Bytes, List, Option, Option-cases, [], equal_refl, inl, inr, insert, lookup, lookup-insert,
  none, refl, some, ◌∷◌, ◌≡◌, ◌≢◌,
}
use quark_lang.Scope.Laws.{equal-ne}
use quark_lang.Types.{Ty}

pub record CVar : Type 0 where
  pub typ : Ty
  pub init : Bool
  pub is_const : Bool

abbrev pub CScope : Type 0
CScope = List (List (Bytes × CVar))

abbrev pub declare_c_at : Option CVar → Bytes → CVar → List (Bytes × CVar) → CScope → Option CScope
declare_c_at (some old) name v vars outer = none
declare_c_at none name v vars outer = some (insert name v vars ∷ outer)

-- `declare`: `none` for the error of a duplicate declaration.
unfoldable pub declare_c : Bytes → CVar → List (Bytes × CVar) → CScope → Option CScope
unfolding lookup insert
declare_c name v vars outer = declare_c_at (lookup name vars) name v vars outer

abbrev pub or_outer : Option CVar → Option CVar → Option CVar
or_outer (some v) more = some v
or_outer none more = more

unfoldable pub lookup_c : Bytes → CScope → Option CVar
unfolding lookup
lookup_c name [] = none
lookup_c name (vars ∷ outer) = or_outer (lookup name vars) (lookup_c name outer)

-- What `declare` gives: an error for a name of the innermost scope, and otherwise a chain in which the
-- name is the new variable and every other name is what it was.
abbrev pub IsDeclared : Bytes → CVar → List (Bytes × CVar) → CScope → Option CScope → Type 0
IsDeclared name v vars outer none = lookup name vars ≢ none
IsDeclared name v vars outer (some sc) =
    (lookup name vars ≡ none)
    × (lookup_c name sc ≡ some v)
    × ((n : Bytes) → n ≢ name → lookup_c n sc ≡ lookup_c n (vars ∷ outer))

-- `declare` of the checker refuses exactly the names of the innermost scope, and otherwise makes the
-- name the new variable and leaves every other name as it was.
pub declare_c-IsDeclared :
    (name : Bytes) (v : CVar) (vars : List (Bytes × CVar)) (outer : CScope)
    → IsDeclared name v vars outer (declare_c name v vars outer)
unfolding declare_c lookup_c
declare_c-IsDeclared name v vars outer = elim (Option-cases (lookup name vars)) [
  | inr (old, e) ↦ rw e (λ p. cc)
  | inl e ↦ rw e (
    e,
    rw (lookup-insert name name v vars, equal_refl name) refl,
    λ n ne. rw (lookup-insert name n v vars, equal-ne name n ne) refl,
  )
]
