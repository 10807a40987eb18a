-- ===== src/Parser/Steps/Rules.antt =====
-- internal/lang/parser.go: what a chain of the parser's steps reads.

use quark_lang.Base.{Bytes, arith, false, suc, true, zero, ℕ, ◌≡◌}
use quark_lang.Base.Result.{Ensures, Ensures-if, Ensures-weaken, Result, err, ok, out_of_fuel}
use quark_lang.Parser.{
  Cursor, ParseError, ParseMsg, Parser, any_token, cur, cur_is, expect, expect_member_name,
  expected, fail_at, fail_here, feed, here_token, is_word_token, on_kind, on_word, pure,
  token_before, ◌>>=◌, ◌>>◌,
}
use quark_lang.Parser.Steps.{
  Good, Good-if, Good-less, Good-mono, Good-pos, IsOpen, NotEof, Reads, Strict, Strict-Good,
  Strict-less, Strict-mono, Strict-pos, Strict-zero, advanced-IsOpen, fail_at-Strict,
  fail_here-Strict, on_kind-Good_drop, on_kind-Strict_drop, on_word-Good_drop, on_word-Strict_drop,
  pure-Good, size, test_if-Good, test_if-Strict,
}
use quark_lang.Token.{Kind, Token, t_eof, ◌is◌}

-- The rules above that give up a unit of fuel, without doing so.
module _ {ℓ} {A : Type ℓ} where
  pub on_kind-Strict :
      (n : ℕ) (k : Kind) (x : Token → Parser A) (y : Parser A)
      → NotEof k
      → ((t : Token) → Good n (x t))
      → Strict n y
      → Strict n (on_kind k x y)
  on_kind-Strict zero k x y e p q = Strict-zero _
  on_kind-Strict (suc n) k x y e p q =
      on_kind-Strict_drop n k x y e (λ t. Good-less n (x t) (p t)) q

  pub on_kind-Good :
      (n : ℕ) (k : Kind) (x : Token → Parser A) (y : Parser A)
      → NotEof k
      → ((t : Token) → Good n (x t))
      → Good n y
      → Good n (on_kind k x y)
  on_kind-Good zero k x y e p q = Strict-Good 0 _ (Strict-zero _)
  on_kind-Good (suc n) k x y e p q = on_kind-Good_drop n k x y e (λ t. Good-less n (x t) (p t)) q

  pub on_word-Strict :
      (n : ℕ) (w : Bytes) (x : Token → Parser A) (y : Parser A)
      → ((t : Token) → Good n (x t))
      → Strict n y
      → Strict n (on_word w x y)
  on_word-Strict zero w x y p q = Strict-zero _
  on_word-Strict (suc n) w x y p q = on_word-Strict_drop n w x y (λ t. Good-less n (x t) (p t)) q

  pub on_word-Good :
      (n : ℕ) (w : Bytes) (x : Token → Parser A) (y : Parser A)
      → ((t : Token) → Good n (x t))
      → Good n y
      → Good n (on_word w x y)
  on_word-Good zero w x y p q = Strict-Good 0 _ (Strict-zero _)
  on_word-Good (suc n) w x y p q = on_word-Good_drop n w x y (λ t. Good-less n (x t) (p t)) q

module _ {ℓ κ} {A : Type ℓ} {B : Type κ} where
  feed-Ensures :
      (P : A × Cursor → Type 0) (Q : B × Cursor → Type 0) (r : Result ParseError (A × Cursor))
      (f : A → Parser B)
      → Ensures P r
      → ((a : A) (c : Cursor) → P (a, c) → Ensures Q (f a c))
      → Ensures Q (feed r f)
  feed-Ensures P Q (ok (a, c)) f h k = k a c h
  feed-Ensures P Q (err e) f h k = tt
  feed-Ensures P Q out_of_fuel f h k = absurd h

  pub bind-Strict_drop :
      (n : ℕ) (m : Parser A) (f : A → Parser B)
      → Strict (suc n) m
      → ((a : A) → Good n (f a))
      → Strict (suc n) (m >>= f)
  unfolding ◌>>=◌
  bind-Strict_drop n m f p q = record {
    strict = λ c h l. feed-Ensures _ _ (m c) f (p.strict c h l) λ a c' (o, s).
        Ensures-weaken _ _ (f a c') (λ (b, d) (u, v). (u, omega arith))
          ((q a).good c' o (omega arith));
  }

  pub bind-Good :
      (n : ℕ) (m : Parser A) (f : A → Parser B)
      → Good n m
      → ((a : A) → Good n (f a))
      → Good n (m >>= f)
  unfolding ◌>>=◌
  bind-Good n m f p q = record {
    good = λ c h l. feed-Ensures _ _ (m c) f (p.good c h l) λ a c' (o, s).
        Ensures-weaken _ _ (f a c') (λ (b, d) (u, v). (u, omega arith))
          ((q a).good c' o (omega arith));
  }

  pub bind-Good-Strict :
      (n : ℕ) (m : Parser A) (f : A → Parser B)
      → Good n m
      → ((a : A) → Strict n (f a))
      → Strict n (m >>= f)
  unfolding ◌>>=◌
  bind-Good-Strict n m f p q = record {
    strict = λ c h l. feed-Ensures _ _ (m c) f (p.good c h l) λ a c' (o, s).
        Ensures-weaken _ _ (f a c') (λ (b, d) (u, v). (u, omega arith))
          ((q a).strict c' o (omega arith));
  }

  pub then-Strict_drop :
      (n : ℕ) (m : Parser A) (k : Parser B) → Strict (suc n) m → Good n k → Strict (suc n) (m >> k)
  unfolding ◌>>◌
  then-Strict_drop n m k p q = bind-Strict_drop n m (λ _. k) p (λ _. q)

  pub then-Good : (n : ℕ) (m : Parser A) (k : Parser B) → Good n m → Good n k → Good n (m >> k)
  unfolding ◌>>◌
  then-Good n m k p q = bind-Good n m (λ _. k) p (λ _. q)

  pub bind-Strict :
      (n : ℕ) (m : Parser A) (f : A → Parser B)
      → Strict n m
      → ((a : A) → Good n (f a))
      → Strict n (m >>= f)
  bind-Strict zero m f p q = Strict-zero _
  bind-Strict (suc n) m f p q = bind-Strict_drop n m f p (λ a. Good-less n (f a) (q a))

  pub then-Strict :
      (n : ℕ) (m : Parser A) (k : Parser B) → Strict n m → Good n k → Strict n (m >> k)
  then-Strict zero m k p q = Strict-zero _
  then-Strict (suc n) m k p q = then-Strict_drop n m k p (Good-less n k q)

pub expect-Strict : (n : ℕ) (k : Kind) (what : Bytes) → NotEof k → Strict n (expect k what)
unfolding expect
expect-Strict n k what e =
    on_kind-Strict n k pure (fail_here (expected what)) e (pure-Good n)
      (fail_here-Strict n (expected what))

pub expect-Good : (n : ℕ) (k : Kind) (what : Bytes) → NotEof k → Good n (expect k what)
expect-Good n k what e = Strict-Good n _ (expect-Strict n k what e)

pub here_token-Good : (n : ℕ) → Good n here_token
unfolding here_token
here_token-Good n = record { good = λ c h l. (h, omega arith) }

pub token_before-Good : (n : ℕ) → Good n token_before
unfolding token_before
token_before-Good n = record { good = λ c h l. (h, omega arith) }

pub any_token-Strict : (n : ℕ) (what : Bytes) → Strict n (any_token what)
unfolding any_token
any_token-Strict n what = record {
  strict = λ c h l. Ensures-if _ (cur_is t_eof c) _ _ (λ e. tt) (λ e. advanced-IsOpen c e h);
}

word_token-NotEof : (k : Kind) → is_word_token k ≡ true → (k is t_eof) ≡ false
unfolding is_word_token
word_token-NotEof k h = ground arith

pub expect_member_name-Strict : (n : ℕ) (what : Bytes) → Strict n (expect_member_name what)
unfolding expect_member_name
expect_member_name-Strict n what = record {
  strict = λ c h l.
      Ensures-if _ (is_word_token (cur c).kind) _ _
        (λ e. advanced-IsOpen c (word_token-NotEof (cur c).kind e) h) (λ e. tt);
}

pub any_token-Good : (n : ℕ) (what : Bytes) → Good n (any_token what)
any_token-Good n what = Strict-Good n _ (any_token-Strict n what)

pub expect_member_name-Good : (n : ℕ) (what : Bytes) → Good n (expect_member_name what)
expect_member_name-Good n what = Strict-Good n _ (expect_member_name-Strict n what)

pub fail_at-Good {ℓ} :
    {A : Type ℓ} (n : ℕ) (t : Token) (m : ParseMsg) → Good n (fail_at {A = A} t m)
fail_at-Good n t m = Strict-Good n _ (fail_at-Strict n t m)

pub fail_here-Good {ℓ} : {A : Type ℓ} (n : ℕ) (m : Kind → ParseMsg) → Good n (fail_here {A = A} m)
fail_here-Good n m = Strict-Good n _ (fail_here-Strict n m)

-- The steps that a search for the end of a parser takes.
pub ruleset good_steps = (
  pure-Good, fail_at-Good, fail_here-Good, test_if-Good, Good-if, on_kind-Good, on_word-Good,
  bind-Good, then-Good, expect-Good, any_token-Good, expect_member_name-Good, here_token-Good,
  token_before-Good,
)

pub ruleset strict_steps = (
  fail_at-Strict, fail_here-Strict, test_if-Strict, on_kind-Strict, on_word-Strict, bind-Strict,
  then-Strict, expect-Strict, any_token-Strict, expect_member_name-Strict,
)
