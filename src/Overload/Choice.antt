-- ===== src/Overload/Choice.antt =====
-- internal/lang/eval.go: the loop over the overloads chooses one of the highest score.

-- A score of no more than `s`, or none.
use quark_lang.Base.{
  All, Bool-cases, List, Option, Option-cases, [], arith, inl, inr, ltb, ltb→lt, none, refl, some,
  ℕ, ◌<◌, ◌∷◌, ◌≡◌, ◌≤◌, ◌⊎◌,
}
use quark_lang.Overload.{Best, best_from}

abbrev pub UpTo : ℕ → Option ℕ → Type 0
UpTo s none = Unit
UpTo s (some t) = t ≤ s

-- A definition stands in the list.
abbrev pub Among : {A : Type 0} → A → List A → Type 0
Among d [] = ⊥
Among d (e ∷ es) = (d ≡ e) ⊎ Among d es

UpTo-mono : (s t : ℕ) (o : Option ℕ) → s ≤ t → UpTo s o → UpTo t o
UpTo-mono s t none l h = tt
UpTo-mono s t (some u) l h = omega arith

module _ {A : Type 0} (sc : A → Option ℕ) where
  -- What a choice returns: no definition has a score, or one that has and whose score no other
  -- exceeds.
  abbrev pub IsChoice : Best A → List A → Type 0
  IsChoice none ds = All (λ e. sc e ≡ none) ds
  IsChoice (some (d, s)) ds = Among d ds × (sc d ≡ some s) × All (λ e. UpTo s (sc e)) ds

  -- The choice from `ds`, given the best one before.
  abbrev Improves : A → ℕ → List A → Best A → Type 0
  Improves b t ds none = ⊥
  Improves b t ds (some (d, s)) =
      ((d ≡ b) ⊎ Among d ds) × (t ≤ s) × (sc d ≡ some s) × All (λ e. UpTo s (sc e)) ds

  cons-Improves :
      (b d : A) (t u : ℕ) (ds : List A) (r : Best A)
      → sc d ≡ some u
      → t < u
      → Improves d u ds r
      → Improves b t (d ∷ ds) r
  cons-Improves b d t u ds none e l h = h
  cons-Improves b d t u ds (some (x, s)) e l (w, p, q, r) = (inr w, omega arith, q, (rw e p, r))

  skip-Improves :
      (b d : A) (t : ℕ) (ds : List A) (r : Best A)
      → UpTo t (sc d)
      → Improves b t ds r
      → Improves b t (d ∷ ds) r
  skip-Improves b d t ds none e h = h
  skip-Improves b d t ds (some (x, s)) e (inl w, p, q, r) =
      (inl w, p, q, (UpTo-mono t s (sc d) p e, r))
  skip-Improves b d t ds (some (x, s)) e (inr w, p, q, r) =
      (inr (inr w), p, q, (UpTo-mono t s (sc d) p e, r))

  best_from-Improves :
      (b : A) (t : ℕ) (ds : List A)
      → sc b ≡ some t
      → Improves b t ds (best_from sc (some (b, t)) ds)
  unfolding best_from
  best_from-Improves b t [] e = (inl refl, omega arith, e, tt)
  best_from-Improves b t (d ∷ ds) e = elim (Option-cases (sc d)) [
    | inl k ↦ rw k (skip-Improves b d t ds _ (rw k tt) (best_from-Improves b t ds e))
    | inr (u, k) ↦ elim (Bool-cases (ltb t u)) [
      | inl l ↦
          rw (k, l) (cons-Improves b d t u ds _ k (ltb→lt _ _ l) (best_from-Improves d u ds k))
      | inr l ↦
          rw (k, l) (skip-Improves b d t ds _ (rw k (ground arith)) (best_from-Improves b t ds e))
    ]
  ]

  first-IsChoice :
      (d : A) (u : ℕ) (ds : List A) (r : Best A)
      → sc d ≡ some u
      → Improves d u ds r
      → IsChoice r (d ∷ ds)
  first-IsChoice d u ds none k h = absurd h
  first-IsChoice d u ds (some (x, s)) k (w, p, q, r) = (w, q, (rw k p, r))

  skip-IsChoice :
      (d : A) (ds : List A) (r : Best A) → sc d ≡ none → IsChoice r ds → IsChoice r (d ∷ ds)
  skip-IsChoice d ds none k h = (k, h)
  skip-IsChoice d ds (some (x, s)) k (w, q, r) = (inr w, q, (rw k tt, r))

  pub best_from-IsChoice : (ds : List A) → IsChoice (best_from sc none ds) ds
  unfolding best_from
  best_from-IsChoice [] = tt
  best_from-IsChoice (d ∷ ds) = elim (Option-cases (sc d)) [
    | inl k ↦ rw k (skip-IsChoice d ds _ k (best_from-IsChoice ds))
    | inr (u, k) ↦ rw k (first-IsChoice d u ds _ k (best_from-Improves d u ds k))
  ]

module _ {A : Type 0} (Fits : A → Type 0) (points : A → ℕ) where
  -- A definition of those that fit, with the most points; none only if none fits.
  abbrev pub IsBest : Best A → List A → Type 0
  IsBest none ds = All (λ e. ¬ Fits e) ds
  IsBest (some (d, s)) ds =
      Among d ds × Fits d × (s ≡ points d) × All (λ e. Fits e → points e ≤ s) ds

module _ {A : Type 0} (sc : A → Option ℕ) (Fits : A → Type 0) (points : A → ℕ) where
  module _ (fitting : (d : A) → Fits d → sc d ≡ some (points d))
      (scored : (d : A) (s : ℕ) → sc d ≡ some s → Fits d × (s ≡ points d)) where
    none-Fits : (ds : List A) → All (λ e. sc e ≡ none) ds → All (λ e. ¬ Fits e) ds
    none-Fits [] h = tt
    none-Fits (d ∷ ds) (e, h) = (λ f. let k = fitting d f in cc, none-Fits ds h)

    most_points :
        (s : ℕ) (ds : List A) → All (λ e. UpTo s (sc e)) ds → All (λ e. Fits e → points e ≤ s) ds
    most_points s [] h = tt
    most_points s (d ∷ ds) (u, h) = (λ f. rw (fitting d f) at u, most_points s ds h)

    pub IsChoice-IsBest : (r : Best A) (ds : List A) → IsChoice sc r ds → IsBest Fits points r ds
    IsChoice-IsBest none ds h = none-Fits ds h
    IsChoice-IsBest (some (d, s)) ds (w, e, u) =
        let (f, p) = scored d s e in (w, f, p, most_points s ds u)
