-- ===== src/Cgen/Parser/Steps.antt =====
-- compiler/internal/cgen/cgen.go: the steps of the compiler's parser end, and none of them goes back.
pub mod Rules
use quark_lang.Base.{
  Bool, Bytes, [], arith, false, if◌then◌else◌, length, not, refl, suc, true, ℕ, ◌+◌, ◌==◌, ◌∷◌,
  ◌≡◌, ◌≤◌,
}
use quark_lang.Base.Int.{pos}
use quark_lang.Base.Result.{Ensures, Ensures-if, Ensures-weaken}
use quark_lang.Cgen.Parser.{
  CParseError, CParser, Spot, at_char, at_class, at_eof, brace, bump, is_blank, on_char, on_span,
  refuse, refuse_at, skip_from, skipped, span, span_from, value, when,
}

abbrev pub left : Spot → ℕ
left s = length s.rest

-- With at most `n` bytes left the parser ends; if it returns, at least `k` of them have been read.
abbrev pub Uses {ℓ} : {A : Type ℓ} → ℕ → ℕ → CParser A → Type 0
Uses k n m = (s : Spot) → left s ≤ n → Ensures (λ (a, r). k + left r ≤ left s) (m s)

pub record Sound {ℓ} {A : Type ℓ} (n : ℕ) (m : CParser A) : Type 0 where
  pub sound : Uses 0 n m

pub record Eats {ℓ} {A : Type ℓ} (n : ℕ) (m : CParser A) : Type 0 where
  pub eats : Uses 1 n m

-- A move that does not go back.
abbrev pub IsMove : (Spot → Spot) → Type 0
IsMove f = (s : Spot) → left (f s) ≤ left s

pub bump-le : IsMove bump
bump-le s = go s.rest s.pos s.braces
  where
    go : (r : Bytes) (i b : ℕ) → left (bump (record { pos = i; braces = b; rest = r })) ≤ length r
    go [] i b = omega arith
    go (c ∷ cs) i b = omega arith

pub bump-lt : (s : Spot) → at_eof s ≡ false → suc (left (bump s)) ≤ left s
bump-lt s e = go s.rest s.pos s.braces e
  where
    go :
        (r : Bytes) (i b : ℕ)
        → at_eof (record { pos = i; braces = b; rest = r }) ≡ false
        → suc (left (bump (record { pos = i; braces = b; rest = r }))) ≤ length r
    go [] i b e = cc
    go (c ∷ cs) i b e = omega arith

pub at_class-at_eof : (p : ℕ → Bool) (s : Spot) → at_class p s ≡ true → at_eof s ≡ false
at_class-at_eof p s e = go s.rest e
  where
    go :
        (r : Bytes)
        → at_class p (record { pos = 0; braces = 0; rest = r }) ≡ true
        → at_eof (record { pos = 0; braces = 0; rest = r }) ≡ false
    go [] e = cc
    go (c ∷ cs) e = refl

skip_from-le : (inside : Bool) (i b : ℕ) (r : Bytes) → left (skip_from inside i b r) ≤ length r
unfolding skip_from
skip_from-le inside i b [] = ground arith
skip_from-le true i b (c ∷ cs) =
    omega (arith, skip_from-le (not (c == 10)) (i + 1) (b + brace c) cs)
skip_from-le false i b (c ∷ cs) = ground (arith, skip_from-le (not (is_blank c)) (i + 1) b cs)

pub skipped-le : IsMove skipped
unfolding skipped
skipped-le s = skip_from-le false s.pos s.braces s.rest

span_from-le : (p : ℕ → Bool) (i b : ℕ) (r : Bytes) → left (span_from p i b r).1 ≤ length r
unfolding span_from
span_from-le p i b [] = omega arith
span_from-le p i b (c ∷ cs) = ground (arith, span_from-le p (i + 1) (b + brace c) cs)

pub span-le : (p : ℕ → Bool) (s : Spot) → left (span p s).1 ≤ left s
unfolding span
span-le p s = span_from-le p s.pos s.braces s.rest

-- A class that has the first character is left behind it.
pub span-lt :
    (p q : ℕ → Bool) (s : Spot)
    → ((c : ℕ) → p c ≡ true → q c ≡ true)
    → at_class p s ≡ true
    → suc (left (span q s).1) ≤ left s
unfolding span span_from
span-lt p q s sub e = go s.rest s.pos s.braces e
  where
    go :
        (r : Bytes) (i b : ℕ)
        → at_class p (record { pos = i; braces = b; rest = r }) ≡ true
        → suc (left (span_from q i b r).1) ≤ length r
    go [] i b e = cc
    go (c ∷ cs) i b e = rw (sub c e) (omega (arith, span_from-le q (i + 1) (b + brace c) cs))

module _ {ℓ} {A : Type ℓ} where
  pub value-Sound : (n : ℕ) (a : A) → Sound n (value a)
  unfolding value
  value-Sound n a = record { sound = λ s l. omega arith }

  pub refuse-Eats : (n : ℕ) (e : CParseError) → Eats n (refuse {A = A} e)
  unfolding refuse
  refuse-Eats n e = record { eats = λ s l. tt }

  pub refuse_at-Eats : (n : ℕ) (e : ℕ → CParseError) → Eats n (refuse_at {A = A} e)
  unfolding refuse_at
  refuse_at-Eats n e = record { eats = λ s l. tt }

  pub Eats-Sound : (n : ℕ) (m : CParser A) → Eats n m → Sound n m
  Eats-Sound n m h = record {
    sound = λ s l. Ensures-weaken _ _ (m s) (λ (a, r) p. omega arith) (h.eats s l);
  }

  pub Sound-mono : (n k : ℕ) (m : CParser A) → k ≤ n → Sound n m → Sound k m
  Sound-mono n k m l h = record { sound = λ s b. h.sound s (omega arith) }

  pub Eats-mono : (n k : ℕ) (m : CParser A) → k ≤ n → Eats n m → Eats k m
  Eats-mono n k m l h = record { eats = λ s b. h.eats s (omega arith) }

  pub Sound-less : (n : ℕ) (m : CParser A) → Sound (suc n) m → Sound n m
  Sound-less n m h = Sound-mono (suc n) n m (omega arith) h

  pub Eats-less : (n : ℕ) (m : CParser A) → Eats (suc n) m → Eats n m
  Eats-less n m h = Eats-mono (suc n) n m (omega arith) h

  pub refuse-Sound : (n : ℕ) (e : CParseError) → Sound n (refuse {A = A} e)
  refuse-Sound n e = Eats-Sound n _ (refuse-Eats n e)

  pub refuse_at-Sound : (n : ℕ) (e : ℕ → CParseError) → Sound n (refuse_at {A = A} e)
  refuse_at-Sound n e = Eats-Sound n _ (refuse_at-Eats n e)

  pub when-Sound :
      (n : ℕ) (b : Spot → Bool) (x y : CParser A) → Sound n x → Sound n y → Sound n (when b x y)
  unfolding when
  when-Sound n b x y p q = record {
    sound = λ s l. Ensures-if _ (b s) (x s) (y s) (λ e. p.sound s l) (λ e. q.sound s l);
  }

  pub when-Eats :
      (n : ℕ) (b : Spot → Bool) (x y : CParser A) → Eats n x → Eats n y → Eats n (when b x y)
  unfolding when
  when-Eats n b x y p q = record {
    eats = λ s l. Ensures-if _ (b s) (x s) (y s) (λ e. p.eats s l) (λ e. q.eats s l);
  }

  -- Without bytes only the branch for the end of the source is taken.
  pub when_eof-Eats_zero : (x y : CParser A) → Eats 0 x → Eats 0 (when at_eof x y)
  unfolding when
  when_eof-Eats_zero x y p = record {
    eats = λ s l.
        Ensures-if _ (at_eof s) (x s) (y s) (λ e. p.eats s l)
          (λ e. absurd (omega (arith, bump-lt s e)));
  }

  pub when_eof-Sound_zero : (x y : CParser A) → Sound 0 x → Sound 0 (when at_eof x y)
  unfolding when
  when_eof-Sound_zero x y p = record {
    sound = λ s l.
        Ensures-if _ (at_eof s) (x s) (y s) (λ e. p.sound s l)
          (λ e. absurd (omega (arith, bump-lt s e)));
  }

  pub if-Sound :
      (n : ℕ) (b : Bool) (x y : CParser A) → Sound n x → Sound n y → Sound n (if b then x else y)
  if-Sound n true x y p q = p
  if-Sound n false x y p q = q

  pub on_char-Eats_drop :
      (n : ℕ) (ch : ℕ) (x y : CParser A)
      → Sound n x
      → Eats (suc n) y
      → Eats (suc n) (on_char ch x y)
  unfolding on_char
  on_char-Eats_drop n ch x y p q = record {
    eats = λ s l.
        Ensures-if _ (at_char ch s) (x (bump s)) (y s)
          (λ e.
            let lt = bump-lt s (at_class-at_eof (λ c. c == ch) s e) in
            Ensures-weaken _ _ (x (bump s)) (λ (a, r) h. omega arith)
              (p.sound (bump s) (omega arith)))
          (λ e. q.eats s l);
  }

  pub on_char-Sound :
      (n : ℕ) (ch : ℕ) (x y : CParser A) → Sound n x → Sound n y → Sound n (on_char ch x y)
  unfolding on_char
  on_char-Sound n ch x y p q = record {
    sound = λ s l.
        Ensures-if _ (at_char ch s) (x (bump s)) (y s)
          (λ e.
            let lt = bump-le s in
            Ensures-weaken _ _ (x (bump s)) (λ (a, r) h. omega arith)
              (p.sound (bump s) (omega arith)))
          (λ e. q.sound s l);
  }

  pub on_span-Eats_drop :
      (n : ℕ) (p q : ℕ → Bool) (x : Bytes → CParser A) (y : CParser A)
      → ((c : ℕ) → p c ≡ true → q c ≡ true)
      → ((w : Bytes) → Sound n (x w))
      → Eats (suc n) y
      → Eats (suc n) (on_span p q x y)
  unfolding on_span
  on_span-Eats_drop n p q x y sub h k = record {
    eats = λ s l.
        Ensures-if _ (at_class p s) (x (span q s).0 (span q s).1) (y s)
          (λ e.
            let lt = span-lt p q s sub e in
            Ensures-weaken _ _ (x (span q s).0 (span q s).1) (λ (a, r) u. omega arith)
              ((h (span q s).0).sound (span q s).1 (omega arith)))
          (λ e. k.eats s l);
  }
