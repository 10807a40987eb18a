-- ===== src/Rolling/Copies.antt =====
-- internal/lang/value.go: `AppendAll`, `Reset` and `copyVisible` of the rolling list.
use quark_lang.Base.{
  List, [], ap, append-nil, append_assoc, arith, drop, get_elem?-some, length, none, refl, suc, sym,
  take, zero, ℕ, ◌++◌, ◌+◌, ◌-◌, ◌∙◌, ◌∷◌, ◌≡◌,
}
use quark_lang.Base.Result.{ok}
use quark_lang.Memory.{MemoryManager}
use quark_lang.Rolling.{
  RollingList, append, append_all, append_from, copy_from, copy_visible, new_list, rewind, visible,
}
use quark_lang.Rolling.Laws.{
  IsRolling, append-IsRolling, drop-get_elem?, drop-length, take-append-drop, visible-drop,
}

module _ {ℓ} {V : Type ℓ} where
  append-head : (v : V) (l : RollingList V) (m : MemoryManager) → (append v l m).0.head ≡ l.head
  unfolding append
  append-head v l m = refl

  append-block_id :
      (v : V) (l : RollingList V) (m : MemoryManager) → (append v l m).0.block_id ≡ l.block_id
  unfolding append
  append-block_id v l m = refl

  append_from-IsRolling :
      (k i : ℕ) (items : List V) (l : RollingList V) (m : MemoryManager)
      → i + k ≡ length items
      → IsRolling l
      → (l' : RollingList V) × (m' : MemoryManager) × (append_from k i items l m ≡ ok (l', m'))
        × IsRolling l'
        × (visible l' ≡ visible l ++ drop i items)
        × (l'.head ≡ l.head)
        × (l'.block_id ≡ l.block_id)
  unfolding append_from
  append_from-IsRolling zero i items l m e h =
      let at_end : i ≡ length items = omega arith in
      let none_left : drop i items ≡ [] = rw at_end (drop-length items) in
      (l, m, refl, h, rw none_left (sym (append-nil (visible l))), refl, refl)
  append_from-IsRolling (suc k) i items l m e h =
      let (x, g) = get_elem?-some items i (omega arith) in
      let (r, v) = append-IsRolling x l m h in
      let (l', m', run, r', v', same_head, same_block) =
        append_from-IsRolling k (i + 1) items (append x l m).0 (append x l m).1 (omega arith) r in
      (
        l',
        m',
        rw g run,
        r',
        v'
            ∙ (ap (λ xs. xs ++ drop (i + 1) items) v
                ∙ (append_assoc (visible l) (x ∷ []) (drop (i + 1) items)
                    ∙ ap (λ xs. visible l ++ xs) (sym (drop-get_elem? i items g)))),
        same_head ∙ append-head x l m,
        same_block ∙ append-block_id x l m,
      )

  -- `AppendAll` of another list succeeds and puts its visible elements, in order, behind those of this
  -- one; the head and the block of this list stay as they are.
  pub append_all-IsRolling :
      (o l : RollingList V) (m : MemoryManager)
      → IsRolling o
      → IsRolling l
      → (l' : RollingList V) × (m' : MemoryManager) × (append_all o l m ≡ ok (l', m'))
        × IsRolling l'
        × (visible l' ≡ visible l ++ visible o)
        × (l'.head ≡ l.head)
        × (l'.block_id ≡ l.block_id)
  unfolding append_all
  append_all-IsRolling o l m k h = rw (visible-drop o k) (
      append_from-IsRolling (o.tail - o.head) o.head o.items l m (omega (arith, k.at_end, k.within))
        h)

  copy_from-drop :
      (k i : ℕ) (items copied : List V)
      → i + k ≡ length items
      → copy_from k i items copied ≡ ok (copied ++ drop i items)
  unfolding copy_from
  copy_from-drop zero i items copied e =
      let at_end : i ≡ length items = omega arith in
      let none_left : drop i items ≡ [] = rw at_end (drop-length items) in
      rw none_left (ap ok (sym (append-nil copied)))
  copy_from-drop (suc k) i items copied e =
      let (x, g) = get_elem?-some items i (omega arith) in
      rw g (
        copy_from-drop k (i + 1) items (copied ++ x ∷ []) (omega arith)
        ∙ ap ok (
            append_assoc copied (x ∷ []) (drop (i + 1) items)
            ∙ ap (λ xs. copied ++ xs) (sym (drop-get_elem? i items g))))

  -- `copyVisible` succeeds with a list that belongs to no block and shows the visible elements of this
  -- one. `Reset` of this list shows all of its elements again, those that have been read too; `Reset`
  -- of the copy shows no more than was copied.
  pub rewind-visible :
      (l : RollingList V)
      → IsRolling l
      → (visible (rewind l) ≡ take l.head l.items ++ visible l)
        × IsRolling (rewind l)
        × ((c : RollingList V) × (copy_visible l ≡ ok c)
            × IsRolling c
            × (visible c ≡ visible l)
            × (visible (rewind c) ≡ visible l)
            × (c.block_id ≡ none))
  unfolding rewind copy_visible new_list
  rewind-visible l h =
      let r : IsRolling (record l { head = 0 }) = record {
        at_end = h.at_end;
        within = omega arith;
      } in
      let xs = drop l.head l.items in
      let c : IsRolling (new_list xs) = record { at_end = refl; within = omega arith } in
      let shown = visible-drop l h in
      (
        visible-drop _ r
            ∙ (sym (take-append-drop l.head l.items)
                ∙ ap (λ ys. take l.head l.items ++ ys) (sym shown)),
        r,
        (
          new_list xs,
          rw
              (copy_from-drop (l.tail - l.head) l.head l.items []
                (omega (arith, h.at_end, h.within)))
              refl,
          c,
          visible-drop _ c ∙ sym shown,
          visible-drop _ c ∙ sym shown,
          refl,
        ),
      )
