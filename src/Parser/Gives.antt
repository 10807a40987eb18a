-- ===== src/Parser/Gives.antt =====
-- internal/lang/parser.go: what the parser's steps give, whatever the tokens.

use quark_lang.Base.{Bool, Bytes, equal, false, if◌then◌else◌, true, ◌&&◌}
use quark_lang.Base.Result.{Result, err, ok, out_of_fuel}
use quark_lang.Parser.{
  Cursor, ParseError, ParseMsg, Parser, advanced, cur, cur_is, fail_at, fail_here, feed, no_fuel,
  on_kind, on_word, pure, test_if, ◌>>=◌, ◌>>◌,
}
use quark_lang.Token.{Kind, Token, t_ident}

abbrev pub Holds {ℓ} : {A : Type ℓ} → (A → Type 0) → Result ParseError (A × Cursor) → Type 0
Holds P (ok (a, c)) = P a
Holds P (err e) = Unit
Holds P out_of_fuel = Unit

-- If the parser returns, `P` holds of its value.
pub record Gives {ℓ} {A : Type ℓ} (P : A → Type 0) (m : Parser A) : Type 0 where
  pub gives : (c : Cursor) → Holds P (m c)

module _ {ℓ} {A : Type ℓ} (P : A → Type 0) where
  pub pure-Gives : (a : A) → P a → Gives P (pure a)
  unfolding pure
  pure-Gives a h = record { gives = λ c. h }

  pub no_fuel-Gives : Gives P no_fuel
  unfolding no_fuel
  no_fuel-Gives = record { gives = λ c. tt }

  pub fail_at-Gives : (t : Token) (m : ParseMsg) → Gives P (fail_at t m)
  unfolding fail_at
  fail_at-Gives t m = record { gives = λ c. tt }

  pub fail_here-Gives : (m : Kind → ParseMsg) → Gives P (fail_here m)
  unfolding fail_here
  fail_here-Gives m = record { gives = λ c. tt }

  Holds-if :
      (b : Bool) (x y : Result ParseError (A × Cursor))
      → Holds P x
      → Holds P y
      → Holds P (if b then x else y)
  Holds-if true x y h k = h
  Holds-if false x y h k = k

  pub test_if-Gives :
      (b : Cursor → Bool) (x y : Parser A) → Gives P x → Gives P y → Gives P (test_if b x y)
  unfolding test_if
  test_if-Gives b x y h k = record {
    gives = λ c. Holds-if (b c) (x c) (y c) (h.gives c) (k.gives c);
  }

  pub on_word-Gives :
      (w : Bytes) (x : Token → Parser A) (y : Parser A)
      → ((t : Token) → Gives P (x t))
      → Gives P y
      → Gives P (on_word w x y)
  unfolding on_word
  on_word-Gives w x y h k = record {
    gives = λ c.
        Holds-if (cur_is t_ident c && equal (cur c).text w) (x (cur c) (advanced c)) (y c)
          ((h (cur c)).gives (advanced c)) (k.gives c);
  }

  pub on_kind-Gives :
      (k : Kind) (x : Token → Parser A) (y : Parser A)
      → ((t : Token) → Gives P (x t))
      → Gives P y
      → Gives P (on_kind k x y)
  unfolding on_kind
  on_kind-Gives k x y h g = record {
    gives = λ c.
        Holds-if (cur_is k c) (x (cur c) (advanced c)) (y c) ((h (cur c)).gives (advanced c))
          (g.gives c);
  }

module _ {ℓ κ} {A : Type ℓ} {B : Type κ} (P : A → Type 0) (Q : B → Type 0) where
  feed-Holds :
      (r : Result ParseError (A × Cursor)) (f : A → Parser B)
      → Holds P r
      → ((a : A) → P a → Gives Q (f a))
      → Holds Q (feed r f)
  feed-Holds (ok (a, c)) f h k = (k a h).gives c
  feed-Holds (err e) f h k = tt
  feed-Holds out_of_fuel f h k = tt

  pub bind-Gives :
      (m : Parser A) (f : A → Parser B)
      → Gives P m
      → ((a : A) → P a → Gives Q (f a))
      → Gives Q (m >>= f)
  unfolding ◌>>=◌
  bind-Gives m f h k = record { gives = λ c. feed-Holds (m c) f (h.gives c) k }

module _ {ℓ κ} {A : Type ℓ} {B : Type κ} (Q : B → Type 0) where
  any-Gives : (m : Parser A) → Gives (λ _. Unit) m
  any-Gives m = record { gives = λ c. go (m c) }
    where
      go : (r : Result ParseError (A × Cursor)) → Holds (λ _. Unit) r
      go (ok (a, c)) = tt
      go (err e) = tt
      go out_of_fuel = tt

  -- A step whose value does not matter.
  pub after-Gives :
      (m : Parser A) (f : A → Parser B) → ((a : A) → Gives Q (f a)) → Gives Q (m >>= f)
  after-Gives m f h = bind-Gives (λ _. Unit) Q m f (any-Gives m) λ a _. h a

  pub then-Gives : (m : Parser A) (k : Parser B) → Gives Q k → Gives Q (m >> k)
  unfolding ◌>>◌
  then-Gives m k h = after-Gives m (λ _. k) λ _. h

pub ruleset give_steps = (
  pure-Gives, fail_at-Gives, fail_here-Gives, test_if-Gives, on_kind-Gives, on_word-Gives,
  after-Gives, then-Gives,
)
