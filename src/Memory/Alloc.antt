-- ===== src/Memory/Alloc.antt =====
-- internal/lang/eval.go: `Alloc`.

-- What `pop_full` leaves: a heap of known blocks, empty or with a block at the top that has the room.
use quark_lang.Base.{
  ==_refl, All, Bool-cases, List, Option, [], arith, false, inl, inr, leb→le, length, none, refl,
  some, suc, true, zero, ℕ, ◌+◌, ◌<◌, ◌==◌, ◌∙◌, ◌∷◌, ◌≡◌, ◌≢◌, ◌≤◌,
}
use quark_lang.Memory.{
  MemBlock, MemoryManager, alloc, alloc_at, block_at, fits, new_block, occupy, pop_full,
  update_block, used_of,
}
use quark_lang.Memory.Heap.{fix-Kept, pop, pop-Kept, push-Kept}
use quark_lang.Memory.Laws.{
  All-imp, IsKnown, IsKnown-update_block, IsValid, All-IsKnown, block_at-update_block, given_kept,
  within_kept,
}

abbrev HasRoom : List MemBlock → ℕ → List ℕ → Type 0
HasRoom bs size [] = Unit
HasRoom bs size (i ∷ h) = fits size (block_at i bs) ≡ true

pop_full-HasRoom :
    (f : ℕ) (bs : List MemBlock) (size : ℕ) (h : List ℕ)
    → length h ≤ f
    → All (IsKnown bs) h
    → All (IsKnown bs) (pop_full f bs size h) × HasRoom bs size (pop_full f bs size h)
unfolding pop_full
pop_full-HasRoom f bs size [] l k = (tt, tt)
pop_full-HasRoom zero bs size (i ∷ h) l k = elim l [ ]
pop_full-HasRoom (suc f) bs size (i ∷ h) l k = elim (Bool-cases (fits size (block_at i bs))) [
  | inl e ↦ rw e (k, e)
  | inr e ↦
      let (q, n) = pop-Kept (IsKnown bs) (used_of bs) (i ∷ h) k in
      rw e (pop_full-HasRoom f bs size (pop (used_of bs) (i ∷ h)) (omega (arith, n)) q)
]

block_at-given :
    (n i : ℕ) (bs : List MemBlock) → All (λ b. b.id ≤ n) bs → n < i → block_at i bs ≡ none
unfolding block_at
block_at-given n i [] h l = refl
block_at-given n i (b ∷ bs) h l =
    let e : (b.id == i) ≡ false = ground (arith, h.0) in rw e (block_at-given n i bs h.1 l)

-- How the block that `Alloc` returns came to be: a known block with room for the request, or a new
-- block of the current block size.
abbrev pub Source : ℕ → ℕ → Option MemBlock → MemBlock → Type 0
Source block_size size none b = (b.used ≡ size) × (b.size ≡ block_size)
Source block_size size (some old) b =
    (b.used ≡ old.used + size) × (b.size ≡ old.size) × (b.used ≤ b.size)

-- The manager `m'` grants the block `i` for a request made of `m`.
pub record Grants (block_size : ℕ) (m m' : MemoryManager) (size owner i : ℕ) : Type 0 where
  pub block : MemBlock
  pub found : block_at i m'.blocks ≡ some block
  pub source : Source block_size size (block_at i m.blocks) block
  pub owned : block.owner_pid ≡ owner
  pub is_dirty : block.dirty ≡ true
  pub taken : block.reclaimable ≡ false
  pub others : (j : ℕ) → j ≢ i → block_at j m'.blocks ≡ block_at j m.blocks
  pub called : m'.alloc_calls ≡ m.alloc_calls + 1

module _ {extra : ℕ} (block_size : ℕ) (m : MemoryManager) (size owner : ℕ)
    (v : IsValid extra m) where
  alloc_at-Grants :
      (h : List ℕ)
      → All (IsKnown m.blocks) h
      → HasRoom m.blocks size h
      → Grants block_size m
          (alloc_at block_size m size owner h).0
          size
          owner
          (alloc_at block_size m size owner h).1
  unfolding alloc_at block_at
  alloc_at-Grants [] k r =
      let fresh = block_at-given m.next_id (m.next_id + 1) m.blocks v.given (omega arith) in
      record {
        block = new_block block_size (m.next_id + 1) size owner;
        found = rw (==_refl (m.next_id + 1)) refl;
        source = rw fresh (refl, refl);
        owned = refl;
        is_dirty = refl;
        taken = refl;
        others = λ j n. let e : (m.next_id + 1 == j) ≡ false = ground arith in rw e refl;
        called = refl;
      }
  alloc_at-Grants (i ∷ h) (known, k) r =
      let (old, e) = known in
      let f = occupy size owner in
      record {
        block = f old;
        found = block_at-update_block f (λ b. refl) i i m.blocks ∙ rw (==_refl i, e) refl;
        source = rw e (refl, refl, leb→le _ _ (rw e at r));
        owned = refl;
        is_dirty = refl;
        taken = refl;
        others = λ j n.
            let d : (i == j) ≡ false = ground arith in
            block_at-update_block f (λ b. refl) i j m.blocks ∙ rw d refl;
        called = refl;
      }

  alloc_at-IsValid :
      (h : List ℕ)
      → size ≤ block_size + extra
      → All (IsKnown m.blocks) h
      → HasRoom m.blocks size h
      → IsValid extra (alloc_at block_size m size owner h).0
  unfolding alloc_at
  alloc_at-IsValid [] l k r =
      let bs = new_block block_size (m.next_id + 1) size owner ∷ m.blocks in
      record {
        heap_known =
            (push-Kept (IsKnown bs) (used_of bs) [] (m.next_id + 1) tt (All-IsKnown bs).0).0;
        within = (l, v.within);
        given = (
          omega arith,
          All-imp (λ b. b.id ≤ m.next_id) (λ b. b.id ≤ m.next_id + 1) m.blocks (λ b q. omega arith)
              v.given,
        );
        counted = omega (arith, v.counted);
      }
  alloc_at-IsValid (i ∷ h) l k r =
      let f = occupy size owner in
      let bs = update_block i f m.blocks in
      record {
        heap_known =
            (fix-Kept (IsKnown bs) (used_of bs) (i ∷ h) 0 (
              All-imp (IsKnown m.blocks) (IsKnown bs) (i ∷ h)
                (λ j. IsKnown-update_block f (λ b. refl) i j m.blocks) k)).0;
        within =
            within_kept m v i f (λ b. refl)
              (λ b e q. let room = leb→le _ _ (rw e at r) in omega arith);
        given = given_kept m v i f (λ b. refl);
        counted = omega (arith, v.counted);
      }

-- `Alloc` of a valid manager returns the id of a block that it gives to the owner: a block with room
-- for the request, whose use grows by it, or a new one. Every other block is as before.
pub alloc-Grants :
    {extra : ℕ} (block_size : ℕ) (m : MemoryManager) (size owner : ℕ)
    → IsValid extra m
    → Grants block_size m
        (alloc block_size m size owner).0
        size
        owner
        (alloc block_size m size owner).1
unfolding alloc
alloc-Grants block_size m size owner v =
    let (k, r) =
      pop_full-HasRoom (length m.min_heap) m.blocks size m.min_heap (omega arith) v.heap_known in
    alloc_at-Grants block_size m size owner v _ k r

-- `Alloc` of no more than `extra` beyond the block size keeps the manager valid.
pub alloc-IsValid :
    {extra : ℕ} (block_size : ℕ) (m : MemoryManager) (size owner : ℕ)
    → size ≤ block_size + extra
    → IsValid extra m
    → IsValid extra (alloc block_size m size owner).0
unfolding alloc
alloc-IsValid block_size m size owner l v =
    let (k, r) =
      pop_full-HasRoom (length m.min_heap) m.blocks size m.min_heap (omega arith) v.heap_known in
    alloc_at-IsValid block_size m size owner v _ l k r
