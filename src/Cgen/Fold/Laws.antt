-- ===== src/Cgen/Fold/Laws.antt =====
-- compiler/internal/cgen/cgen.go: a folded constant is what the i32 instructions would compute.

-- The LLVM instructions `add`, `sub`, `mul` and, for counts below 32, `shl`, on i32 words.
use native.Mathlib.Nat.{add-mul-mod_self_left, mod-add-div}
use quark_lang.Base.{
  Bytes, ap, arith, codes, equal, if◌then◌else◌, inl, inr, refl, some, sym, ℕ, ◌%◌, ◌*◌, ◌+◌, ◌-◌,
  ◌/◌, ◌<◌, ◌^◌, ◌∙◌, ◌≡◌, ◌⊎◌,
}
use quark_lang.Cgen.{CExpr, k_bin, k_int}
use quark_lang.Cgen.Fold.{const_eval, fold_op}
use quark_lang.Operators.{shl_int, two_32, two_64, wrap_i32}

unfoldable pub i32_instr : Bytes → ℕ → ℕ → ℕ
unfolding equal
i32_instr op l r =
    if equal op (codes "+")
    then (l + r) % two_32
    else if equal op (codes "-")
    then (l + (two_32 - r)) % two_32
    else if equal op (codes "*")
    then l * r % two_32
    else l * 2 ^ r % two_32

-- The value that the instructions for an expression compute.
unfoldable pub run_i32 : CExpr → ℕ
unfolding i32_instr
run_i32 (k_int i) = i % two_32
run_i32 (k_bin op l r) = i32_instr op (run_i32 l) (run_i32 r)
run_i32 _ = 0

abbrev pub IsWrapOp : Bytes → ℕ → Type 0
IsWrapOp op r =
    (op ≡ codes "+") ⊎ (op ≡ codes "-") ⊎ (op ≡ codes "*") ⊎ ((op ≡ codes "<<") × (r < 32))

-- Literals below additions, subtractions, multiplications and shifts to the left by counts below 32.
pub data IsWrapTree : CExpr → Type 0 where
  literal : (i : ℕ) → i < two_64 → IsWrapTree (k_int i)
  operation :
      (op : Bytes) {l r : CExpr}
      → IsWrapTree l
      → IsWrapTree r
      → IsWrapOp op (run_i32 r)
      → IsWrapTree (k_bin op l r)

mul_parts : (p q r s m : ℕ) → (p + m * q) * (r + m * s) ≡ p * r + m * (p * s + q * (r + m * s))
mul_parts p q r s m = grind arith

mul-mod : (a b m : ℕ) → a * b % m ≡ (a % m) * (b % m) % m
mul-mod a b m =
    ap (λ (x : ℕ). x % m)
      ((λ i. sym (mod-add-div a m) i * sym (mod-add-div b m) i)
        ∙ mul_parts (a % m) (a / m) (b % m) (b / m) m)
    ∙ add-mul-mod_self_left ((a % m) * (b % m)) m _

low_low : (x : ℕ) → x % two_64 % two_32 ≡ x % two_32
low_low x = omega arith

wrap_low : (x : ℕ) → wrap_i32 x % two_32 ≡ x % two_32
unfolding wrap_i32
wrap_low x = ground arith

-- On the low 32 bits the folding of an operator is its instruction.
fold_op_low :
    (op : Bytes) (l r : ℕ)
    → IsWrapOp op (r % two_32)
    → (v : ℕ) × (fold_op op l r ≡ some v) × (v % two_32 ≡ i32_instr op (l % two_32) (r % two_32))
unfolding fold_op i32_instr shl_int
fold_op_low op l r (inl e) = ((l + r) % two_64, rw e refl, rw e (omega arith))
fold_op_low op l r (inr (inl e)) =
    ((l + (two_64 - r % two_64)) % two_64, rw e refl, rw e (omega arith))
fold_op_low op l r (inr (inr (inl e))) =
    (l * r % two_64, rw e refl, rw e (low_low (l * r) ∙ mul-mod l r two_32))
fold_op_low op l r (inr (inr (inr (e, h)))) = (
  shl_int l r,
  rw e refl,
  let count : r % 32 ≡ r % two_32 = omega (arith, h) in
      rw e (
        wrap_low (l % two_32 * 2 ^ (r % 32)) ∙ ap (λ (k : ℕ). (l % two_32) * 2 ^ k % two_32) count),
)

-- Trees of literals under operators that wrap around are folded, and the low 32 bits of the constant are
-- what the instructions would compute.
pub const_eval-run_i32 :
    {x : CExpr} → IsWrapTree x → (v : ℕ) × (const_eval x ≡ some v) × (v % two_32 ≡ run_i32 x)
unfolding const_eval run_i32
const_eval-run_i32 (literal i h) = (i, refl, refl)
const_eval-run_i32 (operation op hl hr ho) =
    let (a, ea, la) = const_eval-run_i32 hl in
    let (b, eb, lb) = const_eval-run_i32 hr in
    let (v, ev, lv) = fold_op_low op a b (rw lb ho) in
    (v, rw (ea, eb) ev, lv ∙ (λ i. i32_instr op (la i) (lb i)))
