-- ===== src/Operators/Arith.antt =====
-- internal/lang/eval.go: arithmetic on two ints.

-- The word has the bits of an int64 between -2 ^ 31 and 2 ^ 31 - 1.
use quark_lang.Base.{Option, none, some, ℕ, ◌%◌, ◌*◌, ◌+◌, ◌-◌, ◌<◌, ◌≡◌, ◌≢◌, ◌≤◌, ◌⊎◌}
use quark_lang.Base.Result.{Result, err, ok}
use quark_lang.Operators.{
  Op, OpError, division_by_zero, op_add, op_div, op_mod, op_mul, op_sub, two_31, two_32, two_64,
}
use quark_lang.Operators.Division.{IsDivision}

abbrev pub IsInt32 : ℕ → Type 0
IsInt32 n = (n < two_31) ⊎ ((two_64 - two_31 ≤ n) × (n < two_64))

-- Arithmetic gives an int32 of which the statement holds.
abbrev pub GivesInt : (ℕ → Type 0) → Option (Result OpError ℕ) → Type 0
GivesInt P (some (ok n)) = IsInt32 n × P n
GivesInt P _ = ⊥

-- What each operator gives for two ints; the int32 is known by its low 32 bits. Only division fails, and
-- only by 0; the result of `/` and of `%` has the low bits of a quotient and of a rest of one division.
abbrev pub IsArith : Op → ℕ → ℕ → Option (Result OpError ℕ) → Type 0
IsArith op_add li ri r = GivesInt (λ n. n % two_32 ≡ (li + ri) % two_32) r
IsArith op_sub li ri r = GivesInt (λ n. (n + ri) % two_32 ≡ li % two_32) r
IsArith op_mul li ri r = GivesInt (λ n. n % two_32 ≡ li * ri % two_32) r
IsArith op_div li ri r =
    (ri ≡ 0 → r ≡ some (err division_by_zero))
    × (ri ≢ 0
        → (q : ℕ) × (m : ℕ) × IsDivision li ri q m × GivesInt (λ n. n % two_32 ≡ q % two_32) r)
IsArith op_mod li ri r =
    (ri ≡ 0 → r ≡ some (err division_by_zero))
    × (ri ≢ 0
        → (q : ℕ) × (m : ℕ) × IsDivision li ri q m × GivesInt (λ n. n % two_32 ≡ m % two_32) r)
IsArith _ li ri r = r ≡ none
