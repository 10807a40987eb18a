-- ===== src/Memory/Heap.antt =====
-- `container/heap` as eval.go uses it, on the array of a `memHeap`, least key first. The indices are
-- in range where the code swaps; a swap out of range changes nothing.
use mathlib.Core.Path.{subst}
use quark_lang.Base.{
  All, All-append, Bool, Bool-cases, List, Option, Option-cases, [], arith, false, get_elem?,
  if◌then◌else◌, inl, inr, leb, length, length-append, length-set, length-take_le, ltb, none, not,
  refl, set, some, suc, take, true, zero, ℕ, ◌&&◌, ◌*◌, ◌++◌, ◌+◌, ◌-◌, ◌/◌, ◌==◌, ◌||◌, ◌∙◌, ◌∷◌,
  ◌≡◌,
}

abbrev key_or : (ℕ → ℕ) → Option ℕ → ℕ
key_or key none = 0
key_or key (some x) = key x

-- `memHeap.Less`.
unfoldable pub less : (ℕ → ℕ) → List ℕ → ℕ → ℕ → Bool
less key h i j = ltb (key_or key (get_elem? h i)) (key_or key (get_elem? h j))

abbrev swapped : List ℕ → ℕ → ℕ → Option ℕ → Option ℕ → List ℕ
swapped h i j (some x) (some y) = set (set h i y) j x
swapped h i j _ _ = h

-- `memHeap.Swap`.
unfoldable pub swap : List ℕ → ℕ → ℕ → List ℕ
swap h i j = swapped h i j (get_elem? h i) (get_elem? h j)

-- Each round at least halves the index, so that `j` rounds are enough for the index `j`.
unfoldable pub up : (ℕ → ℕ) → ℕ → List ℕ → ℕ → List ℕ
unfolding less swap
up key zero h j = h
up key (suc f) h j =
    let i = (j - 1) / 2 in
    let more = up key f (swap h i j) i in if i == j || not (less key h j i) then h else more

-- Each round raises the index, so that `n` rounds are enough. The index that is reached is returned.
unfoldable pub down : (ℕ → ℕ) → ℕ → List ℕ → ℕ → ℕ → List ℕ × ℕ
unfolding less swap
down key zero h i n = (h, i)
down key (suc f) h i n =
    let left = 2 * i + 1 in
    let j = if ltb (left + 1) n && less key h (left + 1) left then left + 1 else left in
    let more = down key f (swap h i j) j n in
    if leb n left || not (less key h j i) then (h, i) else more

unfoldable pub fix : (ℕ → ℕ) → List ℕ → ℕ → List ℕ
unfolding up down
fix key h i =
    let moved = down key (length h) h i (length h) in
    if ltb i moved.1 then moved.0 else up key i moved.0 i

-- The element that is taken off is the first one; the callers do not use it.
unfoldable pub pop : (ℕ → ℕ) → List ℕ → List ℕ
unfolding down swap
pop key h = let n = length h - 1 in take n (down key n (swap h 0 n) 0 n).0

unfoldable pub push : (ℕ → ℕ) → List ℕ → ℕ → List ℕ
unfolding up
push key h x = up key (length h) (h ++ x ∷ []) (length h)

All-set : (P : ℕ → Type 0) (h : List ℕ) (i x : ℕ) → P x → All P h → All P (set h i x)
All-set P [] i x p q = q
All-set P (y ∷ h) zero x p q = (p, q.1)
All-set P (y ∷ h) (suc i) x p q = (q.0, All-set P h i x p q.1)

All-get_elem? :
    (P : ℕ → Type 0) (h : List ℕ) (i : ℕ) {x : ℕ} → All P h → get_elem? h i ≡ some x → P x
All-get_elem? P [] i q e = cc
All-get_elem? P (y ∷ h) zero q e = let same : y ≡ _ = cc in subst P same q.0
All-get_elem? P (y ∷ h) (suc i) q e = All-get_elem? P h i q.1 e

All-take : (P : ℕ → Type 0) (n : ℕ) (h : List ℕ) → All P h → All P (take n h)
All-take P zero h q = tt
All-take P (suc n) [] q = tt
All-take P (suc n) (x ∷ h) q = (q.0, All-take P n h q.1)

-- What the operations keep: the elements' property and the length.
module _ (P : ℕ → Type 0) where
  abbrev Kept : List ℕ → List ℕ → Type 0
  Kept h h' = All P h' × (length h' ≡ length h)

  swap-Kept : (h : List ℕ) (i j : ℕ) → All P h → Kept h (swap h i j)
  unfolding swap
  swap-Kept h i j q = elim (Option-cases (get_elem? h i)) [
    | inl e ↦ rw e (q, refl)
    | inr (x, e) ↦ elim (Option-cases (get_elem? h j)) [
      | inl k ↦ rw (e, k) (q, refl)
      | inr (y, k) ↦
          rw (e, k)
            (
              All-set P (set h i y) j x (All-get_elem? P h i q e)
                  (All-set P h i y (All-get_elem? P h j q k) q),
              length-set (set h i y) j x ∙ length-set h i y,
            )
    ]
  ]

  Kept-if : (b : Bool) (h x y : List ℕ) → Kept h x → Kept h y → Kept h (if b then x else y)
  Kept-if true h x y p q = p
  Kept-if false h x y p q = q

  up-Kept : (key : ℕ → ℕ) (f : ℕ) (h : List ℕ) (j : ℕ) → All P h → Kept h (up key f h j)
  unfolding up
  up-Kept key zero h j q = (q, refl)
  up-Kept key (suc f) h j q =
      let s = swap-Kept h ((j - 1) / 2) j q in
      let r = up-Kept key f (swap h ((j - 1) / 2) j) ((j - 1) / 2) s.0 in
      Kept-if _ h h _ (q, refl) (r.0, r.1 ∙ s.1)

  down-Kept : (key : ℕ → ℕ) (f : ℕ) (h : List ℕ) (i n : ℕ) → All P h → Kept h (down key f h i n).0
  unfolding down
  down-Kept key zero h i n q = (q, refl)
  down-Kept key (suc f) h i n q =
      let j =
        if ltb (2 * i + 1 + 1) n && less key h (2 * i + 1 + 1) (2 * i + 1)
        then 2 * i + 1 + 1
        else 2 * i + 1 in
      let s = swap-Kept h i j q in
      let r = down-Kept key f (swap h i j) j n s.0 in
      elim (Bool-cases (leb n (2 * i + 1) || not (less key h j i))) [
        | inl e ↦ rw e (q, refl)
        | inr e ↦ rw e (r.0, r.1 ∙ s.1)
      ]

  pub fix-Kept : (key : ℕ → ℕ) (h : List ℕ) (i : ℕ) → All P h → Kept h (fix key h i)
  unfolding fix
  fix-Kept key h i q =
      let d = down-Kept key (length h) h i (length h) q in
      let u = up-Kept key i (down key (length h) h i (length h)).0 i d.0 in
      Kept-if _ h _ _ d (u.0, u.1 ∙ d.1)

  pub pop-Kept :
      (key : ℕ → ℕ) (h : List ℕ) → All P h → All P (pop key h) × (length (pop key h) ≡ length h - 1)
  unfolding pop
  pop-Kept key h q =
      let n = length h - 1 in
      let s = swap-Kept h 0 n q in
      let d = down-Kept key n (swap h 0 n) 0 n s.0 in
      (All-take P n _ d.0, length-take_le n _ (omega (arith, s.1, d.1)))

  pub push-Kept :
      (key : ℕ → ℕ) (h : List ℕ) (x : ℕ)
      → All P h
      → P x
      → All P (push key h x) × (length (push key h x) ≡ suc (length h))
  unfolding push
  push-Kept key h x q p =
      let u = up-Kept key (length h) (h ++ x ∷ []) (length h) (All-append P h (x ∷ []) q (p, tt)) in
      (u.0, u.1 ∙ omega (arith, length-append h (x ∷ [])))
