-- ===== src/Parser/Types/Ends.antt =====
-- internal/lang/parser.go: `parseType` ends.

use quark_lang.Base.{Bytes, codes, refl, suc, zero, ℕ, ◌++◌}
use quark_lang.Parser.{Parser, no_fuel, pure}
use quark_lang.Parser.Steps.{
  Good, Strict, Strict-Good, Strict-zero, on_kind-Good_drop, on_kind-Strict_drop, pure-Good,
}
use quark_lang.Parser.Steps.Rules.{
  any_token-Strict, bind-Good, bind-Strict_drop, expect-Strict, good_steps,
}
use quark_lang.Parser.Types.{
  array_suffix, function_args, generic_suffix, parse_named, parse_type, pointer_suffix, type_args,
}
use quark_lang.Token.{t_ident}

function_args-Good : (f d : ℕ) (name : Bytes) → Good f (function_args f d name)
unfolding function_args
function_args-Good f zero name = pure-Good f name
function_args-Good zero (suc d) name = Strict-Good 0 _ (Strict-zero no_fuel)
function_args-Good (suc f) (suc d) name =
    Strict-Good (suc f) _
      (bind-Strict_drop f _ _ (any_token-Strict (suc f) _) λ t. function_args-Good f _ _)

type_args-Good : (f d : ℕ) (name : Bytes) → Good f (type_args f d name)
unfolding type_args
type_args-Good f zero name = pure-Good f name
type_args-Good zero (suc d) name = Strict-Good 0 _ (Strict-zero no_fuel)
type_args-Good (suc f) (suc d) name =
    Strict-Good (suc f) _
      (bind-Strict_drop f _ _ (any_token-Strict (suc f) _) λ t. type_args-Good f _ _)

pointer_suffix-Good : (n : ℕ) (name : Bytes) → Good n (pointer_suffix name)
unfolding pointer_suffix
pointer_suffix-Good n name = search good_steps

array_suffix-Good : (n : ℕ) (name : Bytes) → Good n (array_suffix name)
unfolding array_suffix
array_suffix-Good n name = search (good_steps, pointer_suffix-Good) depth 9

generic_suffix-Good : (f : ℕ) (name : Bytes) → Good f (generic_suffix f name)
unfolding generic_suffix
generic_suffix-Good zero name = Strict-Good 0 _ (Strict-zero no_fuel)
generic_suffix-Good (suc f) name =
    on_kind-Good_drop f _ _ _ refl
      (λ t. bind-Good f _ _ (type_args-Good f 1 (name ++ codes "<")) (generic_suffix-Good f))
      (array_suffix-Good (suc f) name)

parse_named-Good :
    (f : ℕ) (name : Bytes) (pointed : Parser Bytes)
    → Good f pointed
    → Good f (parse_named f name pointed)
unfolding parse_named
parse_named-Good f name pointed p = search (good_steps, function_args-Good, generic_suffix-Good)

-- `parseType` ends, and reads a token or more if it succeeds.
pub parse_type-Strict : (n : ℕ) → Strict n (parse_type n)
unfolding parse_type
parse_type-Strict zero = Strict-zero no_fuel
parse_type-Strict (suc f) =
    let pointed =
      bind-Good f _ (λ rest. pure (codes "pointer " ++ rest))
        (Strict-Good f _ (parse_type-Strict f)) (λ rest. pure-Good f _) in
    on_kind-Strict_drop f _ _ _ refl (λ t. search good_steps)
      (bind-Strict_drop f _ _ (expect-Strict (suc f) t_ident _ refl)
        λ t. parse_named-Good f t.text _ pointed)
