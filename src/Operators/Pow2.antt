-- ===== src/Operators/Pow2.antt =====
-- internal/lang/eval.go: `pow2` finds the exponents of the powers of two among the positive int32.
use mathlib.Core.Path.{subst}
use native.Mathlib.Nat.{mul_assoc, mul_comm, pow-le-pow_right, pow-suc}
use quark_lang.Base.{
  ==_iff, Bool, Bool-cases, Option, ap, arith, false, inl, inr, leb, leb→le, ltb, none, refl, some,
  suc, sym, true, zero, ℕ, ◌%◌, ◌&&◌, ◌*◌, ◌+◌, ◌/◌, ◌<◌, ◌==◌, ◌^◌, ◌||◌, ◌↔◌, ◌∙◌, ◌≡◌, ◌≤◌,
}
use quark_lang.Operators.{pow2, pow2_from, two_31}

half_power : (v h n k : ℕ) → v ≡ 2 * h → h * 2 ^ (n + 1) ≡ 2 ^ k → v * 2 ^ n ≡ 2 ^ k
half_power v h n k e i =
    let s : n + 1 ≡ suc n = omega arith in
    let p : 2 ^ (n + 1) ≡ 2 ^ n * 2 = ap (λ x. 2 ^ x) s ∙ pow-suc 2 n in
    let q : h * (2 ^ n * 2) ≡ 2 ^ k = rw p at i in
    rw e (mul_assoc 2 h (2 ^ n) ∙ mul_comm 2 (h * 2 ^ n) ∙ mul_assoc h (2 ^ n) 2 ∙ q)

pow2_from-some : (f v n k : ℕ) → pow2_from f v n ≡ some k → 1 ≤ v → v * 2 ^ n ≡ 2 ^ k
unfolding pow2_from
pow2_from-some zero v n k e h = cc
pow2_from-some (suc f) v n k e h = elim (Bool-cases (leb v 1)) [
  | inl l ↦
      let same : n ≡ k = cc (rw l at e) in
      let one : v ≡ 1 = omega (arith, leb→le _ _ l) in rw (one, same) (omega arith)
  | inr l ↦ elim (Bool-cases (v % 2 == 1)) [
    | inl o ↦ absurd (not_some (rw (l, o) at e))
    | inr o ↦
        let ih = pow2_from-some f (v / 2) (n + 1) k (rw (l, o) at e) (ground arith) in
        let half : v ≡ 2 * (v / 2) = ground arith in half_power v (v / 2) n k half ih
  ]
]
  where
    not_some : ¬ (none ≡ some k)
    not_some e = cc

pow2-some : (v n : ℕ) → pow2 v ≡ some n → v ≡ 2 ^ n
unfolding pow2
pow2-some v n e = elim (Bool-cases (v == 0 || leb two_31 v)) [
  | inl h ↦ absurd (not_found (rw h at e))
  | inr h ↦
      let one_le : 1 ≤ v = ground arith in mul_one v ∙ pow2_from-some 32 v 0 n (rw h at e) one_le
]
  where
    not_found : ¬ (none ≡ some n)
    not_found e = cc

    mul_one : (x : ℕ) → x ≡ x * 2 ^ 0
    mul_one x = omega arith

pow2-lt : (v n : ℕ) → pow2 v ≡ some n → v < two_31
unfolding pow2
pow2-lt v n e = elim (Bool-cases (v == 0 || leb two_31 v)) [
  | inl h ↦ absurd (let no : none ≡ some n = rw h at e in cc)
  | inr h ↦ ground arith
]

exponent-lt : (n : ℕ) → 2 ^ n < two_31 → n < 31
exponent-lt n h = elim (Bool-cases (ltb n 31)) [
  | inl e ↦ ground arith
  | inr e ↦
      let big : 2 ^ 31 ≤ 2 ^ n = pow-le-pow_right (omega arith) {i = 31} {j = n} (ground arith) in
      absurd (omega arith)
]

abbrev is_exponent : ℕ → Option ℕ → Bool
is_exponent n none = false
is_exponent n (some k) = n == k

all_found : ℕ → Bool
all_found zero = true
all_found (suc n) = is_exponent n (pow2 (2 ^ n)) && all_found n

all_found_below : (k n : ℕ) → all_found k ≡ true → n < k → is_exponent n (pow2 (2 ^ n)) ≡ true
unfolding all_found
all_found_below zero n h l = elim l [ ]
all_found_below (suc k) n h l = elim (Bool-cases (n == k)) [
  | inl e ↦ subst (λ j. is_exponent j (pow2 (2 ^ j)) ≡ true) (sym ((==_iff n k).0 e)) (ground arith)
  | inr e ↦ all_found_below k n (ground arith) (ground arith)
]

found_at : (n : ℕ) (o : Option ℕ) → is_exponent n o ≡ true → o ≡ some n
found_at n none h = cc
found_at n (some k) h = ap some (sym ((==_iff n k).0 h))

all_31 : all_found 31 ≡ true
unfolding all_found pow2
all_31 = refl

-- `pow2` finds the exponent of every power of two among the positive int32, and of no other operand.
pub pow2_iff : (v n : ℕ) → (pow2 v ≡ some n) ↔ ((n < 31) × (v ≡ 2 ^ n))
pow2_iff v n = (
  λ e.
      let power = pow2-some v n e in
      let small = pow2-lt v n e in (exponent-lt n (subst (λ x. x < two_31) power small), power),
  λ (l, e). ap pow2 e ∙ found_at n (pow2 (2 ^ n)) (all_found_below 31 n all_31 l),
)
