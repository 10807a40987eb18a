-- ===== src/Token.antt =====
-- internal/lang/token.go: token kinds, tokens, the keyword table and the table of display names.
pub mod Names
use quark_lang.Base.{
  ℕ, Bool, true, List, [], ◌∷◌, some, ◌≡◌, refl, ap, ◌↔◌, Bytes, ◌==◌, ==_iff, get_elem?,
}

-- The `const` block, in its order.
pub data Kind : Type 0 where
  t_eof t_ident t_int t_float t_str t_func t_struct t_impl t_interface t_return : Kind
  t_if t_else t_while t_for t_true t_false t_lparen t_rparen t_lbrace t_rbrace : Kind
  t_lbracket t_rbracket t_semi t_comma t_dot t_colon t_scope t_at t_assign t_plus : Kind
  t_minus t_star t_slash t_percent t_bang t_eq t_ne t_lt t_le t_gt : Kind
  t_ge t_and t_or t_shl t_shr t_log t_amper t_null t_try t_catch : Kind
  t_sharp t_macro : Kind

-- The value that `iota` gives the constant.
abbrev pub iota : Kind → ℕ
iota t_eof = 0
iota t_ident = 1
iota t_int = 2
iota t_float = 3
iota t_str = 4
iota t_func = 5
iota t_struct = 6
iota t_impl = 7
iota t_interface = 8
iota t_return = 9
iota t_if = 10
iota t_else = 11
iota t_while = 12
iota t_for = 13
iota t_true = 14
iota t_false = 15
iota t_lparen = 16
iota t_rparen = 17
iota t_lbrace = 18
iota t_rbrace = 19
iota t_lbracket = 20
iota t_rbracket = 21
iota t_semi = 22
iota t_comma = 23
iota t_dot = 24
iota t_colon = 25
iota t_scope = 26
iota t_at = 27
iota t_assign = 28
iota t_plus = 29
iota t_minus = 30
iota t_star = 31
iota t_slash = 32
iota t_percent = 33
iota t_bang = 34
iota t_eq = 35
iota t_ne = 36
iota t_lt = 37
iota t_le = 38
iota t_gt = 39
iota t_ge = 40
iota t_and = 41
iota t_or = 42
iota t_shl = 43
iota t_shr = 44
iota t_log = 45
iota t_amper = 46
iota t_null = 47
iota t_try = 48
iota t_catch = 49
iota t_sharp = 50
iota t_macro = 51

infix 50 ◌is◌
-- `a == b` on kinds.
abbrev pub ◌is◌ : Kind → Kind → Bool
a is b = iota a == iota b

abbrev kinds : List Kind
kinds =
    t_eof ∷ t_ident ∷ t_int ∷ t_float ∷ t_str ∷ t_func ∷ t_struct ∷ t_impl ∷ t_interface ∷ t_return
    ∷ t_if ∷ t_else ∷ t_while ∷ t_for ∷ t_true ∷ t_false ∷ t_lparen ∷ t_rparen ∷ t_lbrace ∷ t_rbrace
    ∷ t_lbracket ∷ t_rbracket ∷ t_semi ∷ t_comma ∷ t_dot ∷ t_colon ∷ t_scope ∷ t_at ∷ t_assign
    ∷ t_plus ∷ t_minus ∷ t_star ∷ t_slash ∷ t_percent ∷ t_bang ∷ t_eq ∷ t_ne ∷ t_lt ∷ t_le ∷ t_gt
    ∷ t_ge ∷ t_and ∷ t_or ∷ t_shl ∷ t_shr ∷ t_log ∷ t_amper ∷ t_null ∷ t_try ∷ t_catch ∷ t_sharp
    ∷ t_macro ∷ []

get_elem?-iota : (k : Kind) → get_elem? kinds (iota k) ≡ some k
get_elem?-iota t_eof = refl
get_elem?-iota _ = refl

pub is_iff : (a b : Kind) → ((a is b) ≡ true) ↔ (a ≡ b)
is_iff a b = (
  λ h.
      let e = ap (get_elem? kinds) ((==_iff (iota a) (iota b)).0 h) in
      cc (get_elem?-iota a, get_elem?-iota b, e),
  λ e. (==_iff (iota a) (iota b)).1 (ap iota e),
)

-- `Int` is the value of an int literal. `flt` is the decimal text whose nearest float64 is `Flt`;
-- floats themselves are not represented here.
pub record Token : Type 0 where
  pub kind : Kind
  pub text : Bytes
  pub int : ℕ
  pub flt : Bytes
  pub line : ℕ
  pub col : ℕ
