-- ===== src/Memory/Reach.antt =====
-- internal/lang/eval.go: the managers that a run can come to, and `Delete`.
use quark_lang.Base.{
  ==_refl, All, Bool-cases, List, [], ap, arith, false, inl, inr, length, refl, some, suc, true, ℕ,
  ◌+◌, ◌<◌, ◌==◌, ◌∙◌, ◌∷◌, ◌≡◌, ◌≢◌, ◌≤◌, ◌⊎◌, ◌↔◌,
}
use quark_lang.Memory.{
  InSomeOrder, MemBlock, MemoryManager, alloc, alloc_at, block_at, block_count, clear, compact,
  delete, live, mark_dirty, new_memory_manager, pop_full, reclaim_task, release, reset,
  update_block, used_of,
}
use quark_lang.Memory.Alloc.{alloc-IsValid}
use quark_lang.Memory.Heap.{push-Kept}
use quark_lang.Memory.Laws.{
  IsKnown, IsValid, block_at-update_block, clear-IsValid, compact-IsValid, delete-IsValid,
  mark_dirty-IsValid, push_all-IsKnown, reclaim_task-IsValid,
}

-- A manager that `NewMemoryManager` makes, after any calls of its operations; a request exceeds the block
-- size at that time by no more than `extra`, so that every run is one of these for some `extra`.
pub data Reachable (extra : ℕ) : MemoryManager → Type 0 where
  made : Reachable extra new_memory_manager
  by_alloc :
      {m : MemoryManager} (block_size size owner : ℕ)
      → size ≤ block_size + extra
      → Reachable extra m
      → Reachable extra (alloc block_size m size owner).0
  by_mark_dirty : {m : MemoryManager} (i : ℕ) → Reachable extra m → Reachable extra (mark_dirty i m)
  by_reclaim_task :
      {m : MemoryManager} (pid : ℕ) (visited : List MemBlock)
      → InSomeOrder visited m.blocks
      → Reachable extra m
      → Reachable extra (reclaim_task pid visited m)
  by_compact : {m : MemoryManager} → Reachable extra m → Reachable extra (compact m).0
  by_delete : {m : MemoryManager} (i : ℕ) → Reachable extra m → Reachable extra (delete i m)
  by_clear :
      {m : MemoryManager} (visited : List MemBlock)
      → InSomeOrder visited (live m.blocks)
      → Reachable extra m
      → Reachable extra (clear visited m)

-- In every manager that is reached by requests that exceed the block size by `extra` at most, the heap
-- holds ids of blocks only, no block is used beyond its size by more than `extra`, every id has been
-- given out, and each call of `Alloc` has reused or made a block.
pub Reachable-IsValid : {extra : ℕ} {m : MemoryManager} → Reachable extra m → IsValid extra m
unfolding new_memory_manager
Reachable-IsValid made = record { heap_known = tt; within = tt; given = tt; counted = omega arith }
Reachable-IsValid (by_alloc {m} block_size size owner l r) =
    alloc-IsValid block_size m size owner l (Reachable-IsValid r)
Reachable-IsValid (by_mark_dirty {m} i r) = mark_dirty-IsValid m i (Reachable-IsValid r)
Reachable-IsValid (by_reclaim_task {m} pid visited o r) =
    reclaim_task-IsValid m pid visited o (Reachable-IsValid r)
Reachable-IsValid (by_compact {m} r) = compact-IsValid m (Reachable-IsValid r)
Reachable-IsValid (by_delete {m} i r) = delete-IsValid m i (Reachable-IsValid r)
Reachable-IsValid (by_clear {m} visited o r) = clear-IsValid m visited o (Reachable-IsValid r)

All-unit {ℓ} : {A : Type ℓ} (xs : List A) → All {ℓ, 0} (λ x. Unit) xs
All-unit [] = tt
All-unit (x ∷ xs) = (tt, All-unit xs)

-- `Delete` of a block sets its use and its owner to 0, leaves every other block as it was, and pushes
-- the block although it may stand in the heap: the heap grows by one at each call.
pub delete-block_at :
    {extra : ℕ} (m : MemoryManager) (i : ℕ) (b : MemBlock)
    → IsValid extra m
    → block_at i m.blocks ≡ some b
    → (block_at i (delete i m).blocks ≡ some (reset b))
      × ((j : ℕ) → j ≢ i → block_at j (delete i m).blocks ≡ block_at j m.blocks)
      × (length (delete i m).min_heap ≡ suc (length m.min_heap))
unfolding delete release
delete-block_at m i b v e =
    let bs = update_block i reset m.blocks in
    let found : block_at i bs ≡ some (reset b) =
      block_at-update_block reset (λ x. refl) i i m.blocks ∙ rw (==_refl i, e) refl in
    let kept : (j : ℕ) → j ≢ i → block_at j bs ≡ block_at j m.blocks = λ j n.
      let d : (i == j) ≡ false = ground arith in
      block_at-update_block reset (λ x. refl) i j m.blocks ∙ rw d refl in
    let pushed = push-Kept (λ x. Unit) (used_of bs) m.min_heap i (All-unit m.min_heap) tt in
    rw e (found, kept, pushed.1)

-- A block stands in the list.
abbrev pub HasBlock : MemBlock → List MemBlock → Type 0
HasBlock b [] = ⊥
HasBlock b (x ∷ xs) = (b ≡ x) ⊎ HasBlock b xs

HasBlock-live :
    (b : MemBlock) (bs : List MemBlock) → HasBlock b (live bs) ↔ (HasBlock b bs × (0 < b.used))
unfolding live
HasBlock-live b [] = (λ h. absurd h, λ (h, _). h)
HasBlock-live b (x ∷ xs) =
    let (to, from) = HasBlock-live b xs in
    elim (Bool-cases (x.used == 0)) [
      | inl e ↦ rw e (λ h. (inr (to h).0, (to h).1), λ h. dropped e from h.0 h.1)
      | inr e ↦ rw e (λ h. kept e to h, λ h. held from h.0 h.1)
    ]
  where
    dropped :
        (x.used == 0) ≡ true
        → ((HasBlock b xs × (0 < b.used)) → HasBlock b (live xs))
        → HasBlock b (x ∷ xs)
        → 0 < b.used
        → HasBlock b (live xs)
    dropped e from (inl same) l =
        let zero_used : b.used ≡ x.used = ap (λ y. y.used) same in absurd (ground arith)
    dropped e from (inr h) l = from (h, l)

    kept :
        (x.used == 0) ≡ false
        → (HasBlock b (live xs) → HasBlock b xs × (0 < b.used))
        → HasBlock b (x ∷ live xs)
        → HasBlock b (x ∷ xs) × (0 < b.used)
    kept e to (inl same) =
        let its : b.used ≡ x.used = ap (λ y. y.used) same in (inl same, ground arith)
    kept e to (inr h) = (inr (to h).0, (to h).1)

    held :
        ((HasBlock b xs × (0 < b.used)) → HasBlock b (live xs))
        → HasBlock b (x ∷ xs)
        → 0 < b.used
        → HasBlock b (x ∷ live xs)
    held from (inl same) l = inl same
    held from (inr h) l = inr (from (h, l))

length-live : (bs : List MemBlock) → length (live bs) ≤ length bs
unfolding live
length-live [] = omega arith
length-live (b ∷ bs) = ground (arith, length-live bs)

-- After `Compact` no block is found by `Alloc`.
Alloc-compact :
    (m : MemoryManager) (block_size size owner : ℕ)
    → (alloc block_size (compact m).0 size owner).1 ≡ m.next_id + 1
unfolding alloc compact pop_full alloc_at
Alloc-compact m block_size size owner = refl

-- `Compact` and `Clear` keep exactly the blocks that are in use, as they are, and `Compact` returns how
-- many blocks it has dropped. Behind `Clear`, in whatever order it pushes the blocks, the heap has as
-- many entries as there are blocks, all of them ids of kept blocks. Behind `Compact` the kept blocks are
-- not reused: the next `Alloc` makes a new block whatever room they have.
pub clear-compact :
    (m : MemoryManager) (visited : List MemBlock)
    → InSomeOrder visited (live m.blocks)
    → ((b : MemBlock) → HasBlock b (compact m).0.blocks ↔ (HasBlock b m.blocks × (0 < b.used)))
      × ((b : MemBlock)
          → HasBlock b (clear visited m).blocks ↔ (HasBlock b m.blocks × (0 < b.used)))
      × (block_count (compact m).0 + (compact m).1 ≡ block_count m)
      × (length (clear visited m).min_heap ≡ block_count (clear visited m))
      × All (IsKnown (clear visited m).blocks) (clear visited m).min_heap
      × ((block_size size owner : ℕ)
          → (alloc block_size (compact m).0 size owner).1 ≡ m.next_id + 1)
unfolding clear compact block_count
clear-compact m visited o =
    let (known, entries) = push_all-IsKnown visited m o in
    (
      λ b. HasBlock-live b m.blocks,
      λ b. HasBlock-live b m.blocks,
      omega (arith, length-live m.blocks),
      entries,
      known,
      Alloc-compact m,
    )
