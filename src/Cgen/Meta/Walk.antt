-- ===== src/Cgen/Meta/Walk.antt =====
-- compiler/internal/cgen/cgen.go: the walk of `reachesSelf` ends, and it finds a function exactly if a
-- chain of calls leads to it.
pub mod Seen
use mathlib.Core.Path.{subst}
use mathlib.Core.Logic.{∥∥₁_elim}
use mathlib.Core.Bool.{So-prop}
use quark_lang.Base.{
  Bool, Bool-cases, Bytes, List, Option, [], ap, arith, equal, equal_iff, equal_refl, false, inl,
  inr, length, none, refl, some, suc, sym, true, zero, ℕ, ◌<◌, ◌↔◌, ◌∷◌, ◌≡◌,
}
use quark_lang.Cgen.Meta.{
  MetaTable, Walked, after, answered, callees_of, found, has, is_fn, missed, reaches_from,
  reaches_self, too_deep, walk, walk_each,
}
use quark_lang.Cgen.Meta.Walk.Seen.{Sub, or_true, unseen, unseen-cons, unseen-le, unseen_mono}
use quark_lang.Lexer.{next}

-- A call of a function of the table.
abbrev pub Edge : MetaTable → Bytes → Bytes → Type 0
Edge t u v = (has v (callees_of t u) ≡ true) × (is_fn t v ≡ true)

-- A chain of calls leads to `goal`.
pub data Reaches (t : MetaTable) (goal : Bytes) : Bytes → Type 0 where
  here : Reaches t goal goal
  step : {u v : Bytes} → Edge t u v → Reaches t goal v → Reaches t goal u

-- A chain of calls, at least one, leads from the function to itself.
abbrev pub IsRecursive : MetaTable → Bytes → Type 0
IsRecursive t name = (c : Bytes) × Edge t name c × Reaches t name c

module _ (t : MetaTable) (name : Bytes) where
  -- A name that is not the one that is looked for, with all its callees among those seen.
  abbrev pub Closed : List Bytes → Bytes → Type 0
  Closed s u = (equal u name ≡ false) × ((v : Bytes) → Edge t u v → has v s ≡ true)

  abbrev ClosedNew : List Bytes → List Bytes → Type 0
  ClosedNew seen s = (u : Bytes) → has u s ≡ true → has u seen ≡ false → Closed s u

  abbrev WalkPost : List Bytes → Bytes → Walked → Type 0
  WalkPost seen n found = Reaches t name n
  WalkPost seen n (missed s) = Sub seen s × (has n s ≡ true) × ClosedNew seen s
  WalkPost seen n too_deep = ⊥

  abbrev EachPost : List Bytes → List Bytes → Walked → Type 0
  EachPost seen cs found = (c : Bytes) × (has c cs ≡ true) × (is_fn t c ≡ true) × Reaches t name c
  EachPost seen cs (missed s) =
      Sub seen s
      × ((c : Bytes) → has c cs ≡ true → is_fn t c ≡ true → has c s ≡ true)
      × ClosedNew seen s
  EachPost seen cs too_deep = ⊥

  abbrev Walks : ℕ → (List Bytes → Bytes → Walked) → Type 0
  Walks f w =
      (seen : List Bytes) (n : Bytes)
      → unseen t seen < f
      → is_fn t n ≡ true
      → WalkPost seen n (w seen n)

  ClosedNew-trans :
      (seen s r : List Bytes) → Sub s r → ClosedNew seen s → ClosedNew s r → ClosedNew seen r
  ClosedNew-trans seen s r sub old new u h e = elim (Bool-cases (has u s)) [
    | inl k ↦ let c = old u k e in (c.0, λ v edge. sub v (c.1 v edge))
    | inr k ↦ new u h k
  ]

  after-EachPost :
      (seen cs : List Bytes) (c : Bytes) (r : Walked) (next : List Bytes → Walked)
      → is_fn t c ≡ true
      → WalkPost seen c r
      → ((s : List Bytes) → Sub seen s → EachPost s cs (next s))
      → EachPost seen (c ∷ cs) (after r next)
  unfolding has
  after-EachPost seen cs c found next d p q = (c, rw (equal_refl c) refl, d, p)
  after-EachPost seen cs c (missed s) next d p q = go (next s) (q s p.0)
    where
      go : (r : Walked) → EachPost s cs r → EachPost seen (c ∷ cs) r
      go found (x, m, y, z) = (x, rw (m, or_true) refl, y, z)
      go (missed r) (sub, all, new) = (
        λ x h. sub x (p.0 x h),
        λ x m y. elim (Bool-cases (equal c x)) [
          | inl e ↦ sub x (subst (λ k. has k s ≡ true) ((equal_iff c x).0 e) p.1)
          | inr e ↦ all x (rw (e, has) at m) y
        ],
        ClosedNew-trans seen s r sub p.2 new,
      )
      go too_deep h = h
  after-EachPost seen cs c too_deep next d p q = p

  walk_each-Post :
      (f : ℕ) (w : List Bytes → Bytes → Walked) (seen cs : List Bytes)
      → Walks f w
      → unseen t seen < f
      → EachPost seen cs (walk_each t w seen cs)
  unfolding walk_each has
  walk_each-Post f w seen [] h l = (λ x m. m, λ c m d. cc, λ u m e. cc)
  walk_each-Post f w seen (c ∷ cs) h l = elim (Bool-cases (is_fn t c)) [
    | inl d ↦
        let rest : (s : List Bytes) → Sub seen s → EachPost s cs (walk_each t w s cs) =
          λ s sub. walk_each-Post f w s cs h (omega (arith, unseen_mono t seen s sub)) in
        rw d (after-EachPost seen cs c (w seen c) (λ s. walk_each t w s cs) d (h seen c l d) rest)
    | inr d ↦ rw d (skip d (walk_each t w seen cs) (walk_each-Post f w seen cs h l))
  ]
    where
      skip : is_fn t c ≡ false → (r : Walked) → EachPost seen cs r → EachPost seen (c ∷ cs) r
      skip d found (x, m, y, z) = (x, rw (m, or_true) refl, y, z)
      skip d (missed s) (sub, all, new) = (
        sub,
        λ x m y. elim (Bool-cases (equal c x)) [
          | inl e ↦ let same = ap (is_fn t) ((equal_iff c x).0 e) in cc
          | inr e ↦ all x (rw (e, has) at m) y
        ],
        new,
      )
      skip d too_deep h = h

  visit-Post :
      (seen : List Bytes) (n : Bytes) (r : Walked)
      → equal n name ≡ false
      → EachPost (n ∷ seen) (callees_of t n) r
      → WalkPost seen n r
  unfolding has
  visit-Post seen n found e (c, m, d, p) = step (m, d) p
  visit-Post seen n (missed s) e (sub, all, new) = (
    λ x h. sub x (rw (h, or_true) refl),
    sub n (rw (equal_refl n) refl),
    λ u h k. elim (Bool-cases (equal n u)) [
      | inl same ↦ subst (Closed s) ((equal_iff n u).0 same) (e, λ v edge. all v edge.0 edge.1)
      | inr other ↦ new u h (rw other k)
    ],
  )
  visit-Post seen n too_deep e p = p

  pub walk-Walks : (f : ℕ) → Walks f (walk t name f)
  unfolding walk
  walk-Walks zero seen n l d = elim l [ ]
  walk-Walks (suc f) seen n l d = elim (Bool-cases (equal n name)) [
    | inl e ↦ rw e (subst (Reaches t name) (sym ((equal_iff n name).0 e)) here)
    | inr e ↦ elim (Bool-cases (has n seen)) [
      | inl m ↦ rw (e, m) (λ x h. h, m, λ u h k. cc)
      | inr m ↦
          let each =
            walk_each-Post f (walk t name f) (n ∷ seen) (callees_of t n) (walk-Walks f)
              (omega (arith, unseen-cons t seen n d m)) in
          rw (e, m) (visit-Post seen n _ e each)
    ]
  ]

  -- What is closed is left by no chain of calls.
  Closed-Reaches :
      (s : List Bytes) {n : Bytes}
      → ((u : Bytes) → has u s ≡ true → Closed s u)
      → Reaches t name n
      → has n s ≡ true
      → ⊥
  Closed-Reaches s all here h = let no_self = (all name h).0 in let self = equal_refl name in cc
  Closed-Reaches s all (step {u} {v} edge p) h = Closed-Reaches s all p ((all u h).1 v edge)

  abbrev Decides : Option Bool → Type 0 → Type 0
  Decides none P = ⊥
  Decides (some true) P = P
  Decides (some false) P = ¬ P

  abbrev ReachesOne : List Bytes → Type 0
  ReachesOne cs = (c : Bytes) × (has c cs ≡ true) × (is_fn t c ≡ true) × Reaches t name c

  others-Decides :
      (c : Bytes) (cs : List Bytes) (r : Option Bool)
      → ((is_fn t c ≡ true) × Reaches t name c → ⊥)
      → Decides r (ReachesOne cs)
      → Decides r (ReachesOne (c ∷ cs))
  unfolding has
  others-Decides c cs none no_c h = h
  others-Decides c cs (some true) no_c (x, m, d, p) = (x, rw (m, or_true) refl, d, p)
  others-Decides c cs (some false) no_c h = λ (x, m, d, p). elim (Bool-cases (equal c x)) [
    | inl e ↦
        subst (λ k. (is_fn t k ≡ true) × Reaches t name k → ⊥) ((equal_iff c x).0 e) no_c (d, p)
    | inr e ↦ h (x, rw (e, has) at m, d, p)
  ]

  first-Decides :
      (c : Bytes) (cs : List Bytes) (w : Walked) (rest : Option Bool)
      → is_fn t c ≡ true
      → WalkPost [] c w
      → Decides rest (ReachesOne cs)
      → Decides (answered w rest) (ReachesOne (c ∷ cs))
  unfolding has
  first-Decides c cs found rest d p h = (c, rw (equal_refl c) refl, d, p)
  first-Decides c cs (missed s) rest d (sub, m, new) h =
      others-Decides c cs rest (λ p. Closed-Reaches s (λ u k. new u k refl) p.1 m) h
  first-Decides c cs too_deep rest d p h = p

  reaches_from-Decides : (cs : List Bytes) → Decides (reaches_from t name cs) (ReachesOne cs)
  unfolding reaches_from has
  reaches_from-Decides [] = λ (c, m, d, p). cc
  reaches_from-Decides (c ∷ cs) = elim (Bool-cases (is_fn t c)) [
    | inl d ↦
        let reached = walk-Walks (suc (length t)) [] c (omega (arith, unseen-le t [])) d in
        rw d (first-Decides c cs _ (reaches_from t name cs) d reached (reaches_from-Decides cs))
    | inr d ↦
        rw d (others-Decides c cs (reaches_from t name cs) (λ p. cc) (reaches_from-Decides cs))
  ]

-- `reachesSelf` ends on every table, and answers whether a chain of calls among the functions of the
-- table, at least one, leads from the function to itself.
pub reaches_self-decides :
    (t : MetaTable) (name : Bytes)
    → (b : Bool) × (reaches_self name t ≡ some b) × ((b ≡ true) ↔ ∥ IsRecursive t name ∥₁)
unfolding reaches_self
reaches_self-decides t name =
    go (reaches_self name t) (reaches_from-Decides t name (callees_of t name))
  where
    go :
        (r : Option Bool)
        → Decides t name r (ReachesOne t name (callees_of t name))
        → (b : Bool) × (r ≡ some b) × ((b ≡ true) ↔ ∥ IsRecursive t name ∥₁)
    go none h = absurd h
    go (some true) (c, m, d, p) = (true, refl, (λ _. ∣ (c, (m, d), p) ∣₁, λ _. refl))
    go (some false) h = (
      false,
      refl,
      (λ e. cc, λ w. ∥∥₁_elim w (So-prop _) (λ (c, edge, p). absurd (h (c, edge.0, edge.1, p)))),
    )
