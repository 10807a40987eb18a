-- ===== src/Overload/Laws.antt =====
-- internal/lang/eval.go, internal/lang/typecheck.go: the overload that is chosen fits the arguments and
-- has the most points.
use quark_lang.Base.{
  Bool-cases, List, Option-cases, [], ap, arith, if◌then◌else◌, inl, inr, length, none, refl, some,
  suc, true, ℕ, ◌+◌, ◌∷◌, ◌≡◌, ◌⊎◌,
}
use quark_lang.Overload.{
  Params, best_match_t, best_match_v, param_score, score, score_of, type_score,
}
use quark_lang.Types.{Ty, assignable, is_any, same_kind}
use quark_lang.Value.{Value}
use quark_lang.Overload.Choice.{IsBest, IsChoice-IsBest, best_from-IsChoice}

-- The points of the arguments of a call, each with the parameter at its place.
abbrev pub points_v : {F : Type 0} → Params → List (Value F) → ℕ
points_v (p ∷ ps) (v ∷ vs) = score_of p v + points_v ps vs
points_v _ _ = 0

score-length :
    {F : Type 0} (ps : Params) (vs : List (Value F))
    → length ps ≡ length vs
    → score ps vs ≡ some (points_v ps vs)
unfolding score
score-length [] [] e = refl
score-length [] (v ∷ vs) e = absurd (omega arith)
score-length (p ∷ ps) [] e = absurd (omega arith)
score-length (p ∷ ps) (v ∷ vs) e = rw (score-length ps vs (omega arith)) refl

score-some :
    {F : Type 0} (ps : Params) (vs : List (Value F)) (s : ℕ)
    → score ps vs ≡ some s
    → (length ps ≡ length vs) × (s ≡ points_v ps vs)
unfolding score
score-some [] [] s e = (refl, cc)
score-some [] (v ∷ vs) s e = absurd (cc)
score-some (p ∷ ps) [] s e = absurd (cc)
score-some (p ∷ ps) (v ∷ vs) s e = elim (Option-cases (score ps vs)) [
  | inl k ↦ absurd (let no : none ≡ some s = rw k at e in cc)
  | inr (t, k) ↦
      let (l, q) = score-some ps vs t k in
      let sum : some (score_of p v + t) ≡ some s = rw k at e in
      let total : score_of p v + t ≡ s = cc in (ap suc l, omega arith)
]

-- `bestMatchV` returns a definition with as many parameters as there are arguments, with its score: the
-- sum of the points that each argument has for the parameter at its place, which no other definition
-- with that many parameters exceeds. It returns none only if no definition has that many parameters.
pub best_match_v-IsBest :
    {F A : Type 0} (params_of : A → Params) (args : List (Value F)) (ds : List A)
    → IsBest
        (λ d. length (params_of d) ≡ length args)
        (λ d. points_v (params_of d) args)
        (best_match_v params_of args ds)
        ds
unfolding best_match_v
best_match_v-IsBest params_of args ds =
    IsChoice-IsBest (λ d. score (params_of d) args) (λ d. length (params_of d) ≡ length args)
      (λ d. points_v (params_of d) args) (λ d. score-length (params_of d) args)
      (λ d. score-some (params_of d) args) (best_match_v params_of args ds) ds
      (best_from-IsChoice (λ d. score (params_of d) args) ds)

-- A parameter takes an argument: they are of one kind, or the argument's type is assignable to it, or
-- it is `any`.
abbrev pub Accepts : Ty → Ty → Type 0
Accepts p t = (same_kind t p ≡ true) ⊎ ((assignable t p ≡ true) ⊎ (is_any p ≡ true))

abbrev pub AreAccepted : List Ty → List Ty → Type 0
AreAccepted [] [] = Unit
AreAccepted (p ∷ ps) (t ∷ ts) = Accepts p t × AreAccepted ps ts
AreAccepted _ _ = ⊥

-- 10 points for the same kind, 5 for an assignable type, and 1 for `any`.
abbrev pub points_t : List Ty → List Ty → ℕ
points_t (p ∷ ps) (t ∷ ts) =
    (if same_kind t p then 10 else if assignable t p then 5 else 1) + points_t ps ts
points_t _ _ = 0

param_score-Accepts :
    (p t : Ty)
    → Accepts p t
    → param_score p t ≡ some (if same_kind t p then 10 else if assignable t p then 5 else 1)
unfolding param_score
param_score-Accepts p t (inl a) = rw a refl
param_score-Accepts p t (inr (inl a)) = ground arith
param_score-Accepts p t (inr (inr a)) = ground arith

param_score-some :
    (p t : Ty) (s : ℕ)
    → param_score p t ≡ some s
    → Accepts p t × (s ≡ (if same_kind t p then 10 else if assignable t p then 5 else 1))
unfolding param_score
param_score-some p t s e = elim (Bool-cases (same_kind t p)) [
  | inl a ↦ (inl a, ground arith)
  | inr a ↦ elim (Bool-cases (assignable t p)) [
    | inl b ↦ (inr (inl b), ground arith)
    | inr b ↦ elim (Bool-cases (is_any p)) [
      | inl c ↦ (inr (inr c), ground arith)
      | inr c ↦ absurd (let no : none ≡ some s = rw (a, b, c) at e in cc)
    ]
  ]
]

type_score-AreAccepted :
    (ps ts : List Ty) → AreAccepted ps ts → type_score ps ts ≡ some (points_t ps ts)
unfolding type_score
type_score-AreAccepted [] [] h = refl
type_score-AreAccepted [] (t ∷ ts) h = absurd h
type_score-AreAccepted (p ∷ ps) [] h = absurd h
type_score-AreAccepted (p ∷ ps) (t ∷ ts) (a, h) =
    rw (param_score-Accepts p t a, type_score-AreAccepted ps ts h) refl

type_score-some :
    (ps ts : List Ty) (s : ℕ) → type_score ps ts ≡ some s → AreAccepted ps ts × (s ≡ points_t ps ts)
unfolding type_score
type_score-some [] [] s e = (tt, cc)
type_score-some [] (t ∷ ts) s e = absurd (cc)
type_score-some (p ∷ ps) [] s e = absurd (cc)
type_score-some (p ∷ ps) (t ∷ ts) s e = elim (Option-cases (param_score p t)) [
  | inl k ↦ absurd (let no : none ≡ some s = rw k at e in cc)
  | inr (m, k) ↦ elim (Option-cases (type_score ps ts)) [
    | inl l ↦ absurd (let no : none ≡ some s = rw (k, l) at e in cc)
    | inr (n, l) ↦
        let (a, x) = param_score-some p t m k in
        let (h, y) = type_score-some ps ts n l in
        let sum : some (m + n) ≡ some s = rw (k, l) at e in
        let total : m + n ≡ s = cc in ((a, h), omega arith)
  ]
]

-- `bestMatchT` returns a definition that takes as many arguments as there are, each of a type that the
-- parameter at its place accepts, with its score: 10 points for an argument of the parameter's kind, 5
-- for another one that is assignable, and 1 otherwise, which no other such definition exceeds. It
-- returns none only if there is no such definition.
pub best_match_t-IsBest :
    {A : Type 0} (types_of : A → List Ty) (tys : List Ty) (ds : List A)
    → IsBest
        (λ d. AreAccepted (types_of d) tys)
        (λ d. points_t (types_of d) tys)
        (best_match_t types_of tys ds)
        ds
unfolding best_match_t
best_match_t-IsBest types_of tys ds =
    IsChoice-IsBest (λ d. type_score (types_of d) tys) (λ d. AreAccepted (types_of d) tys)
      (λ d. points_t (types_of d) tys) (λ d. type_score-AreAccepted (types_of d) tys)
      (λ d. type_score-some (types_of d) tys) (best_match_t types_of tys ds) ds
      (best_from-IsChoice (λ d. type_score (types_of d) tys) ds)
