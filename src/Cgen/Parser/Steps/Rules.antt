-- ===== src/Cgen/Parser/Steps/Rules.antt =====
-- compiler/internal/cgen/cgen.go: what a chain of the steps of the compiler's parser reads.
use quark_lang.Base.{Bool, Bytes, arith, suc, true, zero, ℕ, ◌==◌, ◌≡◌}
use quark_lang.Base.Result.{Ensures, Ensures-if, Ensures-weaken, Result, err, ok, out_of_fuel}
use quark_lang.Cgen.Parser.{
  CParseError, CParser, Spot, at_char, at_class, bump, expect_char, expect_word,
  expected_identifier, ident_part, ident_start, lex_word, move, on_char, on_span, optional_char,
  pass_on, space, span, value, ◌>>=◌, ◌>>◌,
}
use quark_lang.Cgen.Parser.Steps.{
  Eats, Eats-Sound, IsMove, Sound, Sound-less, at_class-at_eof, bump-lt, if-Sound,
  on_char-Eats_drop, on_char-Sound, on_span-Eats_drop, refuse-Sound, refuse_at-Eats,
  refuse_at-Sound, skipped-le, span-le, value-Sound, when-Sound,
}

module _ {ℓ κ} {A : Type ℓ} {B : Type κ} where
  pass_on-Ensures :
      (P : A × Spot → Type 0) (Q : B × Spot → Type 0) (r : Result CParseError (A × Spot))
      (f : A → CParser B)
      → Ensures P r
      → ((a : A) (s : Spot) → P (a, s) → Ensures Q (f a s))
      → Ensures Q (pass_on r f)
  pass_on-Ensures P Q (ok (a, s)) f h k = k a s h
  pass_on-Ensures P Q (err e) f h k = tt
  pass_on-Ensures P Q out_of_fuel f h k = absurd h

  pub bind-Eats_drop :
      (n : ℕ) (m : CParser A) (f : A → CParser B)
      → Eats (suc n) m
      → ((a : A) → Sound n (f a))
      → Eats (suc n) (m >>= f)
  unfolding ◌>>=◌
  bind-Eats_drop n m f p q = record {
    eats = λ s l.
        pass_on-Ensures _ _ (m s) f (p.eats s l) λ a r h.
          Ensures-weaken _ _ (f a r) (λ (b, t) u. omega arith) ((q a).sound r (omega arith));
  }

  -- Without bytes nothing follows a step that reads one.
  pub bind-Eats_zero : (m : CParser A) (f : A → CParser B) → Eats 0 m → Eats 0 (m >>= f)
  unfolding ◌>>=◌
  bind-Eats_zero m f p = record {
    eats = λ s l. pass_on-Ensures _ _ (m s) f (p.eats s l) λ a r h. absurd (omega arith);
  }

  pub bind-Eats :
      (n : ℕ) (m : CParser A) (f : A → CParser B)
      → Eats n m
      → ((a : A) → Sound n (f a))
      → Eats n (m >>= f)
  unfolding ◌>>=◌
  bind-Eats n m f p q = record {
    eats = λ s l.
        pass_on-Ensures _ _ (m s) f (p.eats s l) λ a r h.
          Ensures-weaken _ _ (f a r) (λ (b, t) u. omega arith) ((q a).sound r (omega arith));
  }

  pub bind-Sound :
      (n : ℕ) (m : CParser A) (f : A → CParser B)
      → Sound n m
      → ((a : A) → Sound n (f a))
      → Sound n (m >>= f)
  unfolding ◌>>=◌
  bind-Sound n m f p q = record {
    sound = λ s l.
        pass_on-Ensures _ _ (m s) f (p.sound s l) λ a r h.
          Ensures-weaken _ _ (f a r) (λ (b, t) u. omega arith) ((q a).sound r (omega arith));
  }

  pub bind-Sound-Eats :
      (n : ℕ) (m : CParser A) (f : A → CParser B)
      → Sound n m
      → ((a : A) → Eats n (f a))
      → Eats n (m >>= f)
  unfolding ◌>>=◌
  bind-Sound-Eats n m f p q = record {
    eats = λ s l.
        pass_on-Ensures _ _ (m s) f (p.sound s l) λ a r h.
          Ensures-weaken _ _ (f a r) (λ (b, t) u. omega arith) ((q a).eats r (omega arith));
  }

  pub then-Eats_drop :
      (n : ℕ) (m : CParser A) (k : CParser B) → Eats (suc n) m → Sound n k → Eats (suc n) (m >> k)
  unfolding ◌>>◌
  then-Eats_drop n m k p q = bind-Eats_drop n m (λ _. k) p (λ _. q)

  pub then-Eats : (n : ℕ) (m : CParser A) (k : CParser B) → Eats n m → Sound n k → Eats n (m >> k)
  unfolding ◌>>◌
  then-Eats n m k p q = bind-Eats n m (λ _. k) p (λ _. q)

  pub then-Sound :
      (n : ℕ) (m : CParser A) (k : CParser B) → Sound n m → Sound n k → Sound n (m >> k)
  unfolding ◌>>◌
  then-Sound n m k p q = bind-Sound n m (λ _. k) p (λ _. q)

  pub then-Sound-Eats :
      (n : ℕ) (m : CParser A) (k : CParser B) → Sound n m → Eats n k → Eats n (m >> k)
  unfolding ◌>>◌
  then-Sound-Eats n m k p q = bind-Sound-Eats n m (λ _. k) p (λ _. q)

pub space-Sound : (n : ℕ) → Sound n space
unfolding space
space-Sound n = record { sound = λ s l. omega (arith, skipped-le s) }

pub move-Sound : (n : ℕ) (f : Spot → Spot) → IsMove f → Sound n (move f)
unfolding move
move-Sound n f h = record { sound = λ s l. omega (arith, h s) }

pub lex_word-Sound : (n : ℕ) → Sound n lex_word
unfolding lex_word
lex_word-Sound n = record { sound = λ s l. omega (arith, span-le ident_part s) }

-- The rules above that give up a unit of fuel, without doing so.
module _ {ℓ} {A : Type ℓ} where
  pub on_char-Eats :
      (n : ℕ) (ch : ℕ) (x y : CParser A) → Sound n x → Eats n y → Eats n (on_char ch x y)
  unfolding on_char
  on_char-Eats zero ch x y p q = record {
    eats = λ s l.
        Ensures-if _ (at_char ch s) (x (bump s)) (y s)
          (λ e. absurd (omega (arith, bump-lt s (at_class-at_eof (λ c. c == ch) s e))))
          (λ e. q.eats s l);
  }
  on_char-Eats (suc n) ch x y p q = on_char-Eats_drop n ch x y (Sound-less n x p) q

  pub on_span-Eats :
      (n : ℕ) (p q : ℕ → Bool) (x : Bytes → CParser A) (y : CParser A)
      → ((c : ℕ) → p c ≡ true → q c ≡ true)
      → ((w : Bytes) → Sound n (x w))
      → Eats n y
      → Eats n (on_span p q x y)
  unfolding on_span
  on_span-Eats zero p q x y sub h k = record {
    eats = λ s l.
        Ensures-if _ (at_class p s) (x (span q s).0 (span q s).1) (y s)
          (λ e. absurd (omega (arith, bump-lt s (at_class-at_eof p s e)))) (λ e. k.eats s l);
  }
  on_span-Eats (suc n) p q x y sub h k =
      on_span-Eats_drop n p q x y sub (λ w. Sound-less n (x w) (h w)) k

pub expect_char-Eats : (n ch : ℕ) → Eats n (expect_char ch)
unfolding expect_char
expect_char-Eats n ch = on_char-Eats n ch _ _ (value-Sound n _) (refuse_at-Eats n _)

pub expect_char-Sound : (n ch : ℕ) → Sound n (expect_char ch)
expect_char-Sound n ch = Eats-Sound n _ (expect_char-Eats n ch)

pub optional_char-Sound : (n ch : ℕ) → Sound n (optional_char ch)
unfolding optional_char
optional_char-Sound n ch = on_char-Sound n ch _ _ (value-Sound n _) (value-Sound n _)

pub start-part : (c : ℕ) → ident_start c ≡ true → ident_part c ≡ true
unfolding ident_part
start-part c h = ground arith

pub expect_word-Eats : (n : ℕ) → Eats n expect_word
unfolding expect_word
expect_word-Eats n =
    on_span-Eats n ident_start ident_part value _ start-part (λ w. value-Sound n w)
      (refuse_at-Eats n expected_identifier)

pub expect_word-Sound : (n : ℕ) → Sound n expect_word
expect_word-Sound n = Eats-Sound n _ (expect_word-Eats n)

-- The steps that a search for the end of a parser takes.
pub ruleset sound_steps = (
  value-Sound, refuse-Sound, refuse_at-Sound, when-Sound, if-Sound, on_char-Sound, bind-Sound,
  then-Sound, expect_char-Sound, expect_word-Sound, optional_char-Sound, lex_word-Sound,
  space-Sound,
)
