-- ===== src/Parser/Lists/Ends.antt =====
-- internal/lang/parser.go: the loops over lists end if their items read something.

use quark_lang.Base.{Bytes, suc, zero, ℕ, ◌∷◌}
use quark_lang.Parser.{Parser, pure, ◌>>=◌}
use quark_lang.Parser.Lists.{comma_list, until_brace}
use quark_lang.Parser.Steps.{
  Good, Strict, Strict-Good, Strict-less, Strict-zero, on_kind-Good_drop, pure-Good, test_if-Good,
}
use quark_lang.Parser.Steps.Rules.{bind-Good, bind-Strict_drop, fail_here-Good, good_steps}

module _ {ℓ} {A : Type ℓ} (item : Parser A) where
  pub until_brace-Good : (f : ℕ) (what : Bytes) → Strict f item → Good f (until_brace f what item)
  unfolding until_brace
  until_brace-Good zero what e = Strict-Good 0 _ (Strict-zero _)
  until_brace-Good (suc f) what e =
      let more = until_brace-Good f what (Strict-less f item e) in
      let round : Good (suc f) (item >>= λ x. until_brace f what item >>= λ xs. pure (x ∷ xs)) =
        Strict-Good (suc f) _
          (bind-Strict_drop f _ _ e λ x. bind-Good f _ _ more λ xs. pure-Good f _) in
      search (on_kind-Good_drop, test_if-Good, pure-Good, fail_here-Good)

  pub comma_list-Strict : (f : ℕ) → Strict f item → Strict f (comma_list f item)
  unfolding comma_list
  comma_list-Strict zero e = Strict-zero _
  comma_list-Strict (suc f) e =
      let more = Strict-Good f _ (comma_list-Strict f (Strict-less f item e)) in
      bind-Strict_drop f _ _ e λ x. search good_steps
