-- ===== src/Overload/Tests.antt =====
-- internal/lang/eval.go: overloads of one function.

use quark_lang.Base.{List, [], codes, length, refl, some, ℕ, ◌∷◌, ◌≡◌}
use quark_lang.Overload.{Params, best_match_t, best_match_v}
use quark_lang.Overload.Choice.{IsBest}
use quark_lang.Overload.Laws.{
  AreAccepted, best_match_t-IsBest, best_match_v-IsBest, points_t, points_v,
}
use quark_lang.Types.{Ty, k_any, k_float, k_int, k_string, plain}
use quark_lang.Value.{Value, int_v, str_v}

abbrev overloads : List Params
overloads = (codes "any" ∷ []) ∷ (codes "int" ∷ []) ∷ (codes "int" ∷ codes "int" ∷ []) ∷ []

abbrev same_params : Params → Params
same_params ps = ps

abbrev one_int : List (Value ℕ)
one_int = int_v 3 ∷ []

abbrev one_text : List (Value ℕ)
one_text = str_v (codes "a") ∷ []

best_match_v-IsBest_example :
    IsBest
      (λ d. length (same_params d) ≡ length one_int)
      (λ d. points_v (same_params d) one_int)
      (best_match_v same_params one_int overloads)
      overloads
best_match_v-IsBest_example = best_match_v-IsBest same_params one_int overloads

int_chosen : best_match_v same_params one_int overloads ≡ some (codes "int" ∷ [], 10)
unfolding best_match_v
int_chosen = refl

-- For a text the parameter of type int is preferred to the one of type any.
text_to_int : best_match_v same_params one_text overloads ≡ some (codes "int" ∷ [], 3)
unfolding best_match_v
text_to_int = refl

abbrev typed : List (List Ty)
typed = (plain k_any ∷ []) ∷ (plain k_float ∷ []) ∷ (plain k_string ∷ []) ∷ []

abbrev same_types : List Ty → List Ty
same_types ts = ts

best_match_t-IsBest_example :
    IsBest
      (λ d. AreAccepted (same_types d) (plain k_int ∷ []))
      (λ d. points_t (same_types d) (plain k_int ∷ []))
      (best_match_t same_types (plain k_int ∷ []) typed)
      typed
best_match_t-IsBest_example = best_match_t-IsBest same_types (plain k_int ∷ []) typed
