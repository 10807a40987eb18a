-- ===== src/Rolling/Laws.antt =====
-- internal/lang/value.go: a rolling list behaves as the queue of its visible elements.

use quark_lang.Base.{
  ==_iff, Bool-cases, List, [], ap, arith, drop, false, get_elem?, get_elem?-some, inl, inr, length,
  length-append, length-drop, ltb, ltb→lt, none, refl, set, some, suc, sym, take, zero, ℕ, ◌++◌,
  ◌+◌, ◌-◌, ◌<◌, ◌==◌, ◌∙◌, ◌∷◌, ◌≡◌, ◌≤◌,
}
use quark_lang.Base.Result.{err, ok}
use quark_lang.Memory.{MemoryManager}
use quark_lang.Rolling.{RollingList, append, exhausted, next_item, peek, visible}

module _ {ℓ} {V : Type ℓ} where
  take-length : (xs : List V) → take (length xs) xs ≡ xs
  take-length [] = refl
  take-length (x ∷ xs) = ap (◌∷◌ x) (take-length xs)

  pub drop-get_elem? :
      (n : ℕ) (xs : List V) {x : V} → get_elem? xs n ≡ some x → drop n xs ≡ x ∷ drop (n + 1) xs
  drop-get_elem? n [] e = cc
  drop-get_elem? zero (y ∷ xs) e = cc
  drop-get_elem? (suc n) (y ∷ xs) e =
      let s : suc n + 1 ≡ suc (n + 1) = omega arith in rw s (drop-get_elem? n xs e)

  pub get_elem?-drop : (n i : ℕ) (xs : List V) → get_elem? (drop n xs) i ≡ get_elem? xs (n + i)
  get_elem?-drop zero i xs = ap (get_elem? xs) (omega arith)
  get_elem?-drop (suc n) i [] = refl
  get_elem?-drop (suc n) i (x ∷ xs) =
      let s : suc n + i ≡ suc (n + i) = omega arith in rw s (get_elem?-drop n i xs)

  drop-append : (n : ℕ) (xs ys : List V) → n ≤ length xs → drop n (xs ++ ys) ≡ drop n xs ++ ys
  drop-append zero xs ys h = refl
  drop-append (suc n) [] ys h = elim h [ ]
  drop-append (suc n) (x ∷ xs) ys h = drop-append n xs ys (omega arith)

  pub drop-set : (n i : ℕ) (xs : List V) (v : V) → drop n (set xs (n + i) v) ≡ set (drop n xs) i v
  drop-set zero i xs v = ap (λ k. set xs k v) (omega arith)
  drop-set (suc n) i [] v = refl
  drop-set (suc n) i (x ∷ xs) v =
      let s : suc n + i ≡ suc (n + i) = omega arith in rw s (drop-set n i xs v)

  pub drop-length : (xs : List V) → drop (length xs) xs ≡ []
  drop-length [] = refl
  drop-length (x ∷ xs) = drop-length xs

  pub get_elem?-none : (xs : List V) (i : ℕ) → length xs ≤ i → get_elem? xs i ≡ none
  get_elem?-none [] i h = refl
  get_elem?-none (x ∷ xs) zero h = elim h [ ]
  get_elem?-none (x ∷ xs) (suc i) h = get_elem?-none xs i (omega arith)

  pub take-append-drop : (n : ℕ) (xs : List V) → take n xs ++ drop n xs ≡ xs
  take-append-drop zero xs = refl
  take-append-drop (suc n) [] = refl
  take-append-drop (suc n) (x ∷ xs) = ap (◌∷◌ x) (take-append-drop n xs)

  -- The tail is the end of the items, and the head has not passed it.
  pub record IsRolling (l : RollingList V) : Type 0 where
    pub at_end : l.tail ≡ length l.items
    pub within : l.head ≤ l.tail

  pub visible-drop : (l : RollingList V) → IsRolling l → visible l ≡ drop l.head l.items
  unfolding visible
  visible-drop l h = ap (drop l.head) (rw h.at_end (take-length l.items))

  pub length-visible : (l : RollingList V) → IsRolling l → length (visible l) ≡ l.tail - l.head
  length-visible l h =
      ap length (visible-drop l h) ∙ length-drop l.head l.items ∙ omega (arith, h.at_end)

  -- `peek` and `next_item` on the visible elements: what they return, and what then stands for the
  -- list.
  abbrev pub Takes : List V → RollingList V → Type ℓ
  Takes [] l = (peek l ≡ err exhausted) × (next_item l ≡ err exhausted)
  Takes (v ∷ vs) l =
      (peek l ≡ ok v)
      × ((l' : RollingList V) × (next_item l ≡ ok (v, l'))
          × IsRolling l'
          × (visible l' ≡ vs)
          × (l'.items ≡ l.items))

  at_tail-Takes : (l : RollingList V) → IsRolling l → l.head ≡ l.tail → Takes (visible l) l
  unfolding peek next_item
  at_tail-Takes l h e =
      let v : visible l ≡ [] = visible-drop l h ∙ rw (e, h.at_end) (drop-length l.items) in
      let b = (==_iff l.head l.tail).1 e in rw (v, b) (refl, refl)

  before_tail-Takes : (l : RollingList V) → IsRolling l → l.head < l.tail → Takes (visible l) l
  unfolding peek next_item
  before_tail-Takes l h e =
      let (x, g) = get_elem?-some l.items l.head (omega (arith, h.at_end)) in
      let v : visible l ≡ x ∷ drop (l.head + 1) l.items =
        visible-drop l h ∙ drop-get_elem? l.head l.items g in
      let l' : RollingList V = record l { head = l.head + 1 } in
      let b : (l.head == l.tail) ≡ false = ground arith in
      let r : IsRolling l' = record { at_end = h.at_end; within = omega arith } in
      rw (v, b, g) (refl, (l', refl, r, visible-drop l' r, refl))

  -- `*list` and `next` of a rolling list give its first visible element, and an error if there is
  -- none; after `next` the other visible elements remain, and no element is lost.
  pub visible-Takes : (l : RollingList V) → IsRolling l → Takes (visible l) l
  visible-Takes l h = elim (Bool-cases (ltb l.head l.tail)) [
    | inl e ↦ before_tail-Takes l h (ltb→lt _ _ e)
    | inr e ↦ at_tail-Takes l h (ground (arith, h.within))
  ]

  -- `Append` puts an element behind the visible ones and marks the block of the list.
  pub append-IsRolling :
      (v : V) (l : RollingList V) (m : MemoryManager)
      → IsRolling l
      → IsRolling (append v l m).0 × (visible (append v l m).0 ≡ visible l ++ v ∷ [])
  unfolding append
  append-IsRolling v l m h =
      let l' : RollingList V = record l { items = l.items ++ v ∷ []; tail = l.tail + 1 } in
      let r : IsRolling l' = record {
        at_end = omega (arith, h.at_end, length-append l.items (v ∷ []));
        within = omega (arith, h.within);
      } in
      (
        r,
        visible-drop l' r
            ∙ drop-append l.head l.items (v ∷ []) (omega (arith, h.at_end, h.within))
            ∙ ap (λ xs. xs ++ v ∷ []) (sym (visible-drop l h)),
      )
