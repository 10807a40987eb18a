-- ===== src/Memory/Tests.antt =====
-- internal/lang/eval.go: a small run of the memory manager.

use quark_lang.Base.{All, [], arith, inl, length, refl, some, suc, ℕ, ◌+◌, ◌<◌, ◌∷◌, ◌↔◌, ◌≡◌, ◌≢◌}
use quark_lang.Memory.{
  MemBlock, MemoryManager, alloc, block_at, block_count, clear, compact, delete, live, new_block,
  new_memory_manager, reset, used_of,
}
use quark_lang.Memory.Alloc.{Grants, alloc-Grants}
use quark_lang.Memory.Laws.{IsKnown, IsValid}
use quark_lang.Memory.Reach.{
  HasBlock, Reachable, Reachable-IsValid, by_alloc, by_delete, clear-compact, delete-block_at, made,
}

abbrev one_block : MemoryManager
one_block = (alloc 4096 new_memory_manager 512 7).0

one_block-Reachable : Reachable 0 one_block
one_block-Reachable = by_alloc 4096 512 7 (omega arith) made

-- A second request goes into the same block, and a third one needs a new block.
second : (alloc 4096 one_block 3000 8).1 ≡ 1
unfolding alloc new_memory_manager
second = refl

third : (alloc 4096 (alloc 4096 one_block 3000 8).0 1000 9).1 ≡ 2
unfolding alloc new_memory_manager
third = refl

-- A request of 8000 in blocks of 4096, and the block is used beyond its size by 3904.
abbrev one_large : MemoryManager
one_large = (alloc 4096 one_block 8000 7).0

large_used : used_of one_large.blocks 2 ≡ 4096 + 3904
unfolding alloc new_memory_manager used_of
large_used = refl

Reachable_example : IsValid 3904 (delete 1 one_large)
Reachable_example =
    Reachable-IsValid
      (by_delete 1 (by_alloc 4096 8000 7 (omega arith) (by_alloc 4096 512 7 (omega arith) made)))

alloc_example :
    Grants 4096 one_block (alloc 4096 one_block 3000 8).0 3000 8 (alloc 4096 one_block 3000 8).1
alloc_example = alloc-Grants 4096 one_block 3000 8 (Reachable-IsValid one_block-Reachable)

abbrev first_block : MemBlock
first_block = new_block 4096 1 512 7

delete_example :
    (block_at 1 (delete 1 one_block).blocks ≡ some (reset first_block))
    × ((j : ℕ) → j ≢ 1 → block_at j (delete 1 one_block).blocks ≡ block_at j one_block.blocks)
    × (length (delete 1 one_block).min_heap ≡ suc (length one_block.min_heap))
unfolding alloc new_memory_manager block_at
delete_example =
    delete-block_at one_block 1 first_block (Reachable-IsValid one_block-Reachable) refl

clear_example :
    ((b : MemBlock)
      → HasBlock b (compact one_block).0.blocks ↔ (HasBlock b one_block.blocks × (0 < b.used)))
    × ((b : MemBlock)
        → HasBlock b (clear (first_block ∷ []) one_block).blocks
          ↔ (HasBlock b one_block.blocks × (0 < b.used)))
    × (block_count (compact one_block).0 + (compact one_block).1 ≡ block_count one_block)
    × (length (clear (first_block ∷ []) one_block).min_heap
        ≡ block_count (clear (first_block ∷ []) one_block))
    × All
        (IsKnown (clear (first_block ∷ []) one_block).blocks)
        (clear (first_block ∷ []) one_block).min_heap
    × ((block_size size owner : ℕ)
        → (alloc block_size (compact one_block).0 size owner).1 ≡ one_block.next_id + 1)
unfolding alloc new_memory_manager live
clear_example = clear-compact one_block (first_block ∷ []) ([], inl (refl, refl), refl)
