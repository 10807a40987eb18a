-- ===== src/Overload.antt =====
-- internal/lang/eval.go: the choice of an overload by the values of the arguments, and
-- internal/lang/typecheck.go: by their types.
pub mod Choice
pub mod Laws
mod Tests
use quark_lang.Base.{
  Bool, Bytes, List, Option, [], codes, equal, false, if◌then◌else◌, length, ltb, none, some, ℕ,
  ◌&&◌, ◌+◌, ◌==◌, ◌||◌, ◌∷◌,
}
use quark_lang.Types.{Ty, assignable, is_any, same_kind}
use quark_lang.Value.{Value, is_bool, is_float, is_int, is_str}

-- The types of a function's parameters, as they are written.
abbrev pub Params : Type 0
Params = List Bytes

abbrev one_of : Bytes → List Bytes → Bool
one_of s [] = false
one_of s (t ∷ ts) = equal s t || one_of s ts

abbrev pub plus_score : ℕ → Option ℕ → Option ℕ
plus_score n none = none
plus_score n (some m) = some (n + m)

module _ {F : Type 0} where
  -- The `switch` of the scores.
  unfoldable pub score_of : Bytes → Value F → ℕ
  unfolding equal
  score_of tp v =
      if one_of tp (codes "int" ∷ codes "long" ∷ codes "char" ∷ []) && is_int v
      then 10
      else if one_of tp (codes "float" ∷ codes "double" ∷ []) && is_float v
      then 10
      else if equal tp (codes "f32") && is_float v
      then 10
      else if equal tp (codes "String") && is_str v
      then 10
      else if equal tp (codes "bool") && is_bool v
      then 10
      else if one_of tp (codes "any" ∷ codes "interface{}" ∷ [] ∷ [])
      then 2
      else 3

  -- The score of one definition; `none` if the number of the parameters is not that of the arguments.
  unfoldable pub score : Params → List (Value F) → Option ℕ
  unfolding score_of
  score [] [] = some 0
  score (p ∷ ps) (v ∷ vs) = plus_score (score_of p v) (score ps vs)
  score _ _ = none

-- The best definition so far and its score; `none` for the score -1.
abbrev pub Best : Type 0 → Type 0
Best A = Option (A × ℕ)

module _ {A : Type 0} where
  abbrev pub better : A → Option ℕ → Best A → Best A
  better d none best = best
  better d (some s) none = some (d, s)
  better d (some s) (some (b, t)) = if ltb t s then some (d, s) else some (b, t)

-- The loop over the definitions.
module _ {A : Type 0} (sc : A → Option ℕ) where
  unfoldable pub best_from : Best A → List A → Best A
  best_from best [] = best
  best_from best (d ∷ ds) = best_from (better d (sc d) best) ds

-- `bestMatchV`, for definitions of which only the parameters are read.
unfoldable pub best_match_v : {F A : Type 0} → (A → Params) → List (Value F) → List A → Best A
unfolding best_from score
best_match_v params_of args ds = best_from (λ d. score (params_of d) args) none ds

-- The score of one parameter type and one argument type in `bestMatchT`.
unfoldable pub param_score : Ty → Ty → Option ℕ
param_score p t =
    if same_kind t p
    then some 10
    else if assignable t p
    then some 5
    else if is_any p
    then some 1
    else none

abbrev pub plus_scores : Option ℕ → Option ℕ → Option ℕ
plus_scores (some n) (some m) = some (n + m)
plus_scores _ _ = none

unfoldable pub type_score : List Ty → List Ty → Option ℕ
unfolding param_score
type_score [] [] = some 0
type_score (p ∷ ps) (t ∷ ts) = plus_scores (param_score p t) (type_score ps ts)
type_score _ _ = none

-- `bestMatchT`, for definitions of which only the parameters' types are read; a type is what
-- `substType` makes of an annotation, `any` where it fails.
unfoldable pub best_match_t : {A : Type 0} → (A → List Ty) → List Ty → List A → Best A
unfolding best_from type_score
best_match_t types_of tys ds = best_from (λ d. type_score (types_of d) tys) none ds

-- `overloadErr`: what the message shows.
pub data OverloadError : Type 0 where
  expects_args : Bytes → ℕ → ℕ → OverloadError
  no_match : Bytes → OverloadError

unfoldable pub overload_err : List Params → Bytes → ℕ → OverloadError
overload_err [] name n = no_match name
overload_err (d ∷ ds) name n =
    if length d == n then overload_err ds name n else expects_args name (length d) n
