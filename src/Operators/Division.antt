-- ===== src/Operators/Division.antt =====
-- internal/lang/eval.go: Go's `/` and `%` on int64 are the division that rounds to zero.
use native.Mathlib.Nat.{add-mul, div-add-mod', div-le_self, mod-lt, mul-add, mul_assoc}
use quark_lang.Base.{
  Bool, Bool-cases, ap, arith, false, if◌then◌else◌, inl, inr, refl, sym, true, ℕ, ◌==◌, ◌%◌, ◌*◌,
  ◌+◌, ◌/◌, ◌<◌, ◌∙◌, ◌≡◌, ◌≢◌, ◌≤◌, ◌⊎◌,
}
use quark_lang.Operators.{abs_64, differ, is_neg, neg_64, quot_64, rem_64, two_63, two_64}

-- `q` and `r` divide `x` by `y`: `q * y + r` has the bits of `x`, the rest is smaller than the divisor,
-- and has the sign of `x` if it is not 0.
abbrev pub IsDivision : ℕ → ℕ → ℕ → ℕ → Type 0
IsDivision x y q r =
    ((q * y + r) % two_64 ≡ x) × (abs_64 r < abs_64 y) × ((r ≡ 0) ⊎ (is_neg r ≡ is_neg x))

-- A word and its negation add up to a multiple of 2 ^ 64.
neg_64_lem : (q : ℕ) → q ≤ two_64 → (k : ℕ) × (neg_64 q + q ≡ two_64 * k)
neg_64_lem q h = ((neg_64 q + q) / two_64, omega arith)

-- Multiples of 2 ^ 64 stay so under a factor.
times_word : (z q k y : ℕ) → z + q ≡ two_64 * k → z * y + q * y ≡ two_64 * (k * y)
times_word z q k y e = sym (add-mul z q y) ∙ (ap (λ t. t * y) e ∙ mul_assoc two_64 k y)

word_times : (q y b : ℕ) → y + b ≡ two_64 → q * y + q * b ≡ q * two_64
word_times q y b e = sym (mul-add q y b) ∙ ap (λ t. q * t) e

-- The four cases of the signs, for the magnitudes `a` and `b` and their quotient and rest.
module _ (q b r a : ℕ) (divides : q * b + r ≡ a) (bound : q ≤ two_63) (small : r ≤ two_63) where
  negative_dividend : (x : ℕ) → x < two_64 → x + a ≡ two_64 → (neg_64 q * b + neg_64 r) % two_64 ≡ x
  negative_dividend x l e =
      let (k, z) = neg_64_lem q (omega arith) in
      let (j, w) = neg_64_lem r (omega arith) in
      congruent (neg_64 q * b) (neg_64 r) (q * b) (k * b) j x divides l e
        (times_word (neg_64 q) q k b z) w
    where
      congruent :
          (t w u v j x : ℕ)
          → u + r ≡ a
          → x < two_64
          → x + a ≡ two_64
          → t + u ≡ two_64 * v
          → w + r ≡ two_64 * j
          → (t + w) % two_64 ≡ x
      congruent t w u v j x d l e f g = omega arith

  negative_divisor : (y : ℕ) → a < two_64 → y + b ≡ two_64 → (neg_64 q * y + r) % two_64 ≡ a
  negative_divisor y l e =
      let (k, z) = neg_64_lem q (omega arith) in
      congruent (neg_64 q * y) (neg_64 q * b) (neg_64 q) (q * b) (k * b) divides l
        (word_times (neg_64 q) y b e) (times_word (neg_64 q) q k b z)
    where
      congruent :
          (t s z u v : ℕ)
          → u + r ≡ a
          → a < two_64
          → t + s ≡ z * two_64
          → s + u ≡ two_64 * v
          → (t + r) % two_64 ≡ a
      congruent t s z u v d l f g = omega arith

  both_negative :
      (x y : ℕ) → x < two_64 → x + a ≡ two_64 → y + b ≡ two_64 → (q * y + neg_64 r) % two_64 ≡ x
  both_negative x y l e f =
      let (j, w) = neg_64_lem r (omega arith) in
      congruent (q * y) (neg_64 r) (q * b) j x divides l e (word_times q y b f) w
    where
      congruent :
          (t w u j x : ℕ)
          → u + r ≡ a
          → x < two_64
          → x + a ≡ two_64
          → t + u ≡ q * two_64
          → w + r ≡ two_64 * j
          → (t + w) % two_64 ≡ x
      congruent t w u j x d l e f g = omega arith

abs_64-neg_64 : (r : ℕ) → r < two_63 → abs_64 (neg_64 r) ≡ r
abs_64-neg_64 r h = ground arith

neg_64-sign : (r : ℕ) → r < two_63 → (neg_64 r ≡ 0) ⊎ (is_neg (neg_64 r) ≡ true)
neg_64-sign r h = elim (Bool-cases (r == 0)) [
  | inl e ↦ inl (ground arith)
  | inr e ↦ inr (ground arith)
]

abs_64-small : (r : ℕ) → r < two_63 → (abs_64 r ≡ r) × (is_neg r ≡ false)
abs_64-small r h = ground arith

-- The word `x` of magnitude `a`, negative or not.
abbrev Signed : Bool → ℕ → ℕ → Type 0
Signed true x a = x + a ≡ two_64
Signed false x a = a ≡ x

abs_64-Signed : (x : ℕ) → x < two_64 → Signed (is_neg x) x (abs_64 x)
abs_64-Signed x l = elim (Bool-cases (is_neg x)) [ inl n ↦ rw n (ground arith) | inr n ↦ rw n refl ]

abs_64-le : (x : ℕ) → x < two_64 → abs_64 x ≤ two_63
abs_64-le x l = ground arith

abs_64-pos : (x : ℕ) → x < two_64 → x ≢ 0 → 0 < abs_64 x
abs_64-pos x l n = ground arith

abbrev Divides : Bool → Bool → ℕ → ℕ → ℕ → ℕ → ℕ → Type 0
Divides p s x y b q r =
    let rest = if p then neg_64 r else r in
    (((if differ p s then neg_64 q else q) * y + rest) % two_64 ≡ x)
    × (abs_64 rest < b)
    × ((rest ≡ 0) ⊎ (is_neg rest ≡ p))

signs-Divides :
    (p s : Bool) (x y a b q r : ℕ)
    → x < two_64
    → Signed p x a
    → Signed s y b
    → q * b + r ≡ a
    → q ≤ two_63
    → a ≤ two_63
    → r < two_63
    → r < b
    → Divides p s x y b q r
signs-Divides true true x y a b q r l e f d u v w z =
    (both_negative q b r a d u (omega arith) x y l e f, rw (abs_64-neg_64 r w) z, neg_64-sign r w)
signs-Divides true false x y a b q r l e f d u v w z = (
  rw (← f) (negative_dividend q b r a d u (omega arith) x l e),
  rw (abs_64-neg_64 r w) z,
  neg_64-sign r w,
)
signs-Divides false true x y a b q r l e f d u v w z = (
  negative_divisor q b r a d u (omega arith) y (omega arith) f ∙ e,
  rw ((abs_64-small r w).0) z,
  inr ((abs_64-small r w).1),
)
signs-Divides false false x y a b q r l e f d u v w z = (
  ap (λ t. (q * t + r) % two_64) (sym f) ∙ (ap (λ t. t % two_64) d ∙ kept a (omega arith) ∙ e),
  rw ((abs_64-small r w).0) z,
  inr ((abs_64-small r w).1),
)
  where
    kept : (t : ℕ) → t < two_64 → t % two_64 ≡ t
    kept t h = omega arith

-- `/` and `%` on int64 divide.
pub quot_64-IsDivision :
    (x y : ℕ) → x < two_64 → y < two_64 → y ≢ 0 → IsDivision x y (quot_64 x y) (rem_64 x y)
unfolding quot_64 rem_64
quot_64-IsDivision x y l k n =
    let a = abs_64 x in
    let b = abs_64 y in
    let rest : a % b < b = mod-lt a (abs_64-pos y k n) in
    let quotient : a / b ≤ a = div-le_self a b in
    signs-Divides (is_neg x) (is_neg y) x y a b (a / b) (a % b) l (abs_64-Signed x l)
      (abs_64-Signed y k) (div-add-mod' a b) (omega (arith, abs_64-le x l)) (abs_64-le x l)
      (omega (arith, abs_64-le y k)) rest
