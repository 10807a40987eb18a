-- ===== src/Types/Tests.antt =====
-- internal/lang/typecheck.go: types of a small program.

use quark_lang.Base.{[], codes, false, refl, true, ◌≡◌}
use quark_lang.Types.{Ty, assignable, join_types, k_int, k_string, list_of, plain, table_of}
use quark_lang.Types.CheckScope.{CVar, IsDeclared, declare_c, declare_c-IsDeclared}
use quark_lang.Types.Laws.{IsRegular, assignable_self}
use quark_lang.Types.Show.{type_string}

abbrev int_lists : Ty
int_lists = table_of (plain k_string) (list_of (plain k_int))

assignable_self_example : assignable int_lists int_lists ≡ true
unfolding IsRegular
assignable_self_example = assignable_self int_lists (λ e. cc, λ e. cc)

-- Two lists whose elements differ are joined to the first one, which does not take the second.
lists_joined : join_types (list_of (plain k_int)) (list_of (plain k_string)) ≡ list_of (plain k_int)
unfolding join_types
lists_joined = refl

lists_kept_apart : assignable (list_of (plain k_string)) (list_of (plain k_int)) ≡ false
unfolding assignable
lists_kept_apart = refl

abbrev int_var : CVar
int_var = record { typ = plain k_int; init = true; is_const = false }

declare_c_example : IsDeclared (codes "x") int_var [] [] (declare_c (codes "x") int_var [] [])
declare_c_example = declare_c-IsDeclared (codes "x") int_var [] []

table_shown : type_string int_lists ≡ codes "HashTable<String, List<int>>"
unfolding type_string
table_shown = refl
