-- ===== src/Base/Result.antt =====
-- The outcome of a run: a value, an error value of the program, or fuel that ran out, which has
-- no counterpart in the program and which each component proves never to happen.

use mathlib.Core.Path.{◌≡◌, refl, subst}
use mathlib.Core.Logic.{◌≢◌}
use mathlib.Core.Bool.{Bool, true, false}
use quark_lang.Base.Tests.{if◌then◌else◌}

pub data Result {ℓ} (E : Type 0) (A : Type ℓ) : Type ℓ where
  ok : A → Result E A
  err : E → Result E A
  out_of_fuel : Result E A

-- The run kept within its fuel, and `P` holds of its value if it has one.
abbrev pub Ensures {ℓ} : {E : Type 0} {A : Type ℓ} → (A → Type 0) → Result E A → Type 0
Ensures P (ok a) = P a
Ensures P (err e) = Unit
Ensures P out_of_fuel = ⊥

module _ {ℓ κ} {E : Type 0} {A : Type ℓ} {B : Type κ} where
  infixl 5 ◌>>=◌
  abbrev pub ◌>>=◌ : Result E A → (A → Result E B) → Result E B
  ok a >>= f = f a
  err e >>= f = err e
  out_of_fuel >>= f = out_of_fuel

  pub >>=-eq-ok :
      (run : Result E A) (next : A → Result E B) {y : B}
      → (run >>= next) ≡ ok y
      → (x : A) × (run ≡ ok x) × (next x ≡ ok y)
  >>=-eq-ok (ok x) next e = (x, refl, e)
  >>=-eq-ok (err y) next e = cc
  >>=-eq-ok out_of_fuel next e = cc

  pub Ensures->>= :
      (P : A → Type 0) (Q : B → Type 0) (m : Result E A) (f : A → Result E B)
      → Ensures P m
      → ((a : A) → P a → Ensures Q (f a))
      → Ensures Q (m >>= f)
  Ensures->>= P Q (ok a) f h k = k a h
  Ensures->>= P Q (err e) f h k = tt
  Ensures->>= P Q out_of_fuel f h k = absurd h

module _ {ℓ} {E : Type 0} {A : Type ℓ} (P : A → Type 0) where
  pub Ensures-ok : (r : Result E A) {a : A} → Ensures P r → r ≡ ok a → P a
  Ensures-ok (ok b) h e = subst P (cc) h
  Ensures-ok (err x) h e = cc
  Ensures-ok out_of_fuel h e = cc

  pub Ensures-ne-out_of_fuel : (r : Result E A) → Ensures P r → r ≢ out_of_fuel
  Ensures-ne-out_of_fuel (ok b) h = cc
  Ensures-ne-out_of_fuel (err x) h = cc
  Ensures-ne-out_of_fuel out_of_fuel h = absurd h

  pub Ensures-if :
      (b : Bool) (x y : Result E A)
      → (b ≡ true → Ensures P x)
      → (b ≡ false → Ensures P y)
      → Ensures P (if b then x else y)
  Ensures-if true x y hx hy = hx refl
  Ensures-if false x y hx hy = hy refl

  pub Ensures-weaken :
      (Q : A → Type 0) (r : Result E A) → ((a : A) → P a → Q a) → Ensures P r → Ensures Q r
  Ensures-weaken Q (ok a) k h = k a h
  Ensures-weaken Q (err e) k h = tt
  Ensures-weaken Q out_of_fuel k h = absurd h
