-- ===== src/Parser/Steps.antt =====
-- internal/lang/parser.go: the parser's steps end, and they move on but not beyond the end of file.
pub mod Rules
use quark_lang.Base.{
  Bool, Bytes, Option, [], and→both, arith, equal, false, if◌then◌else◌, length, refl, suc, true,
  zero, ℕ, ◌&&◌, ◌+◌, ◌∷◌, ◌≡◌, ◌≤◌,
}
use quark_lang.Base.Result.{Ensures, Ensures-if, Ensures-weaken, Result, err, ok, out_of_fuel}
use quark_lang.Lexer.Progress.{IsStream}
use quark_lang.Macro.{Tokens}
use quark_lang.Parser.{
  Cursor, ParseError, ParseMsg, Parser, advanced, any_token, cur, cur_is, expect,
  expect_member_name, expected, fail_at, fail_here, feed, first_token, here_token, is_word_token,
  moved, on_kind, on_word, pure, test_if, token_before, ◌>>=◌, ◌>>◌,
}
use quark_lang.Token.{Kind, Token, is_iff, t_eof, t_ident, ◌is◌}

abbrev pub size : Cursor → ℕ
size c = length c.toks

abbrev pub IsOpen : Cursor → Type 0
IsOpen c = IsStream c.toks

-- On every open state with at most `n` tokens left, the parser ends; if it returns, the state is open
-- still, and at least `k` tokens have been read.
abbrev pub Reads {ℓ} : {A : Type ℓ} → ℕ → ℕ → Parser A → Type 0
Reads k n m =
    (c : Cursor)
    → IsOpen c
    → size c ≤ n
    → Ensures (λ (a, c'). IsOpen c' × (k + size c' ≤ size c)) (m c)

-- No parser is asked to go on without fuel, or it reads nothing, or at least one token.
pub record Good {ℓ} {A : Type ℓ} (n : ℕ) (m : Parser A) : Type 0 where
  pub good : Reads 0 n m

pub record Strict {ℓ} {A : Type ℓ} (n : ℕ) (m : Parser A) : Type 0 where
  pub strict : Reads 1 n m

abbrev pub NotEof : Kind → Type 0
NotEof k = (k is t_eof) ≡ false

pub advanced-IsOpen :
    (c : Cursor)
    → ((cur c).kind is t_eof) ≡ false
    → IsOpen c
    → IsOpen (advanced c) × (1 + size (advanced c) ≤ size c)
advanced-IsOpen c e h = go c.before c.toks e h
  where
    go :
        (b : Option Token) (ts : Tokens)
        → ((first_token ts).kind is t_eof) ≡ false
        → IsStream ts
        → IsOpen (moved b ts) × (1 + size (moved b ts) ≤ length ts)
    go b [] e h = absurd h
    go b (t ∷ []) e h = let k = (is_iff t.kind t_eof).1 h in cc
    go b (t ∷ u ∷ ts) e h = (h.1, omega arith)

kind-NotEof : (a k : Kind) → NotEof k → (a is k) ≡ true → (a is t_eof) ≡ false
kind-NotEof a k n e = let s = (is_iff a k).0 e in rw s n

module _ {ℓ} {A : Type ℓ} where
  pub pure-Good : (n : ℕ) (a : A) → Good n (pure a)
  unfolding pure
  pure-Good n a = record { good = λ c h l. (h, omega arith) }

  pub fail_at-Strict : (n : ℕ) (t : Token) (m : ParseMsg) → Strict n (fail_at {A = A} t m)
  unfolding fail_at
  fail_at-Strict n t m = record { strict = λ c h l. tt }

  pub fail_here-Strict : (n : ℕ) (m : Kind → ParseMsg) → Strict n (fail_here {A = A} m)
  unfolding fail_here
  fail_here-Strict n m = record { strict = λ c h l. tt }

  pub Strict-Good : (n : ℕ) (m : Parser A) → Strict n m → Good n m
  Strict-Good n m s = record {
    good = λ c h l. Ensures-weaken _ _ (m c) (λ (a, c') (p, q). (p, omega arith)) (s.strict c h l);
  }

  pub Good-mono : (n k : ℕ) (m : Parser A) → k ≤ n → Good n m → Good k m
  Good-mono n k m l g = record { good = λ c h b. g.good c h (omega arith) }

  pub Strict-mono : (n k : ℕ) (m : Parser A) → k ≤ n → Strict n m → Strict k m
  Strict-mono n k m l g = record { strict = λ c h b. g.strict c h (omega arith) }

  pub Strict-zero : (m : Parser A) → Strict 0 m
  Strict-zero m = record { strict = λ c h l. absurd (go c.toks h l) }
    where
      go : (ts : Tokens) → IsStream ts → length ts ≤ 0 → ⊥
      go [] h l = absurd h
      go (t ∷ ts) h l = elim l [ ]

  pub Good-pos : (n : ℕ) (m : Parser A) → ((f : ℕ) → Good (suc f) m) → Good n m
  Good-pos zero m g = Strict-Good 0 m (Strict-zero m)
  Good-pos (suc f) m g = g f

  pub Strict-pos : (n : ℕ) (m : Parser A) → ((f : ℕ) → Strict (suc f) m) → Strict n m
  Strict-pos zero m g = Strict-zero m
  Strict-pos (suc f) m g = g f

  pub Good-if :
      (n : ℕ) (b : Bool) (x y : Parser A) → Good n x → Good n y → Good n (if b then x else y)
  Good-if n true x y p q = p
  Good-if n false x y p q = q

  pub Good-less : (n : ℕ) (m : Parser A) → Good (suc n) m → Good n m
  Good-less n m g = Good-mono (suc n) n m (omega arith) g

  pub Strict-less : (n : ℕ) (m : Parser A) → Strict (suc n) m → Strict n m
  Strict-less n m g = Strict-mono (suc n) n m (omega arith) g

  pub test_if-Strict :
      (n : ℕ) (b : Cursor → Bool) (x y : Parser A)
      → Strict n x
      → Strict n y
      → Strict n (test_if b x y)
  unfolding test_if
  test_if-Strict n b x y p q = record {
    strict = λ c h l. Ensures-if _ (b c) (x c) (y c) (λ e. p.strict c h l) (λ e. q.strict c h l);
  }

  pub test_if-Good :
      (n : ℕ) (b : Cursor → Bool) (x y : Parser A) → Good n x → Good n y → Good n (test_if b x y)
  unfolding test_if
  test_if-Good n b x y p q = record {
    good = λ c h l. Ensures-if _ (b c) (x c) (y c) (λ e. p.good c h l) (λ e. q.good c h l);
  }

  -- What follows a token that is not the end of file.
  after_token :
      (n : ℕ) (k : Kind) (x : Token → Parser A)
      → NotEof k
      → ((t : Token) → Good n (x t))
      → (c : Cursor) → IsOpen c
      → size c ≤ suc n
      → cur_is k c ≡ true
      → Ensures (λ (a, c'). IsOpen c' × (1 + size c' ≤ size c)) (x (cur c) (advanced c))
  after_token n k x e p c h l q =
      let (o, d) = advanced-IsOpen c (kind-NotEof (cur c).kind k e q) h in
      Ensures-weaken _ _ (x (cur c) (advanced c)) (λ (a, c') (r, s). (r, omega arith))
        ((p (cur c)).good (advanced c) o (omega arith))

  pub on_kind-Strict_drop :
      (n : ℕ) (k : Kind) (x : Token → Parser A) (y : Parser A)
      → NotEof k
      → ((t : Token) → Good n (x t))
      → Strict (suc n) y
      → Strict (suc n) (on_kind k x y)
  unfolding on_kind
  on_kind-Strict_drop n k x y e p q = record {
    strict = λ c h l.
        Ensures-if _ (cur_is k c) (x (cur c) (advanced c)) (y c) (after_token n k x e p c h l)
          (λ _. q.strict c h l);
  }

  pub on_kind-Good_drop :
      (n : ℕ) (k : Kind) (x : Token → Parser A) (y : Parser A)
      → NotEof k
      → ((t : Token) → Good n (x t))
      → Good (suc n) y
      → Good (suc n) (on_kind k x y)
  unfolding on_kind
  on_kind-Good_drop n k x y e p q = record {
    good = λ c h l.
        Ensures-if _ (cur_is k c) (x (cur c) (advanced c)) (y c)
          (λ r.
            Ensures-weaken _ _ (x (cur c) (advanced c)) (λ (a, c') (u, v). (u, omega arith))
              (after_token n k x e p c h l r))
          (λ _. q.good c h l);
  }

  pub on_word-Strict_drop :
      (n : ℕ) (w : Bytes) (x : Token → Parser A) (y : Parser A)
      → ((t : Token) → Good n (x t))
      → Strict (suc n) y
      → Strict (suc n) (on_word w x y)
  unfolding on_word
  on_word-Strict_drop n w x y p q = record {
    strict = λ c h l.
        Ensures-if _ (cur_is t_ident c && equal (cur c).text w) (x (cur c) (advanced c)) (y c)
          (λ r. after_token n t_ident x refl p c h l (and→both _ _ r).0) (λ _. q.strict c h l);
  }

  pub on_word-Good_drop :
      (n : ℕ) (w : Bytes) (x : Token → Parser A) (y : Parser A)
      → ((t : Token) → Good n (x t))
      → Good (suc n) y
      → Good (suc n) (on_word w x y)
  unfolding on_word
  on_word-Good_drop n w x y p q = record {
    good = λ c h l.
        Ensures-if _ (cur_is t_ident c && equal (cur c).text w) (x (cur c) (advanced c)) (y c)
          (λ r.
            Ensures-weaken _ _ (x (cur c) (advanced c)) (λ (a, c') (u, v). (u, omega arith))
              (after_token n t_ident x refl p c h l (and→both _ _ r).0))
          (λ _. q.good c h l);
  }
