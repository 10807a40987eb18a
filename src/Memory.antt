-- ===== src/Memory.antt =====
-- internal/lang/eval.go: `MemBlock`, `memHeap` and `MemoryManager`. A block is known by its id, which
-- stands for the pointer to it; sizes are not negative. A Go map is visited in an order that is not
-- fixed: `reclaim_task` and `clear` take that order as an argument.
pub mod Heap
pub mod Laws
pub mod Alloc
pub mod Reach
mod Tests
use quark_lang.Base.{
  Bool, List, Option, [], false, if◌then◌else◌, leb, length, ltb, none, some, suc, true, zero, ℕ,
  ◌&&◌, ◌+◌, ◌-◌, ◌==◌, ◌∷◌, ◌≡◌, ◌⊎◌,
}
use quark_lang.Memory.Heap.{fix, pop, push}

pub record MemBlock : Type 0 where
  pub id : ℕ
  pub size : ℕ
  pub used : ℕ
  pub dirty : Bool
  pub owner_pid : ℕ
  pub reclaimable : Bool

pub record MemoryManager : Type 0 where
  pub next_id : ℕ
  pub blocks : List MemBlock
  pub min_heap : List ℕ
  pub alloc_calls : ℕ
  pub reused_count : ℕ
  pub new_blocks : ℕ

unfoldable pub new_memory_manager : MemoryManager
new_memory_manager = record {
  next_id = 0;
  blocks = [];
  min_heap = [];
  alloc_calls = 0;
  reused_count = 0;
  new_blocks = 0;
}

-- `m.blocks[id]`.
unfoldable pub block_at : ℕ → List MemBlock → Option MemBlock
block_at i [] = none
block_at i (b ∷ bs) = if b.id == i then some b else block_at i bs

-- A write through the pointer to the block.
unfoldable pub update_block : ℕ → (MemBlock → MemBlock) → List MemBlock → List MemBlock
update_block i f [] = []
update_block i f (b ∷ bs) = if b.id == i then f b ∷ bs else b ∷ update_block i f bs

abbrev used_or : Option MemBlock → ℕ
used_or none = 0
used_or (some b) = b.used

-- The key of `memHeap.Less`.
unfoldable pub used_of : List MemBlock → ℕ → ℕ
unfolding block_at
used_of bs i = used_or (block_at i bs)

abbrev pub fits : ℕ → Option MemBlock → Bool
fits size none = false
fits size (some b) = leb (b.used + size) b.size

-- The loop of `Alloc`: blocks at the top of the heap are popped until one has the room.
unfoldable pub pop_full : ℕ → List MemBlock → ℕ → List ℕ → List ℕ
unfolding pop block_at used_of
pop_full f bs size [] = []
pop_full zero bs size (i ∷ h) = i ∷ h
pop_full (suc f) bs size (i ∷ h) =
    let more = pop_full f bs size (pop (used_of bs) (i ∷ h)) in
    if fits size (block_at i bs) then i ∷ h else more

abbrev pub occupy : ℕ → ℕ → MemBlock → MemBlock
occupy size owner b = record b {
  used = b.used + size;
  dirty = true;
  owner_pid = owner;
  reclaimable = false;
}

abbrev pub new_block : ℕ → ℕ → ℕ → ℕ → MemBlock
new_block block_size i size owner = record {
  id = i;
  size = block_size;
  used = size;
  dirty = true;
  owner_pid = owner;
  reclaimable = false;
}

-- The block at the top is taken, or a new one is made.
unfoldable pub alloc_at : ℕ → MemoryManager → ℕ → ℕ → List ℕ → MemoryManager × ℕ
unfolding fix push update_block used_of
alloc_at block_size m size owner (i ∷ h) =
    let bs = update_block i (occupy size owner) m.blocks in
    (
      record m {
        blocks = bs;
        min_heap = fix (used_of bs) (i ∷ h) 0;
        alloc_calls = m.alloc_calls + 1;
        reused_count = m.reused_count + 1;
      },
      i,
    )
alloc_at block_size m size owner [] =
    let b = new_block block_size (m.next_id + 1) size owner in
    (
      record m {
        next_id = m.next_id + 1;
        blocks = b ∷ m.blocks;
        min_heap = push (used_of (b ∷ m.blocks)) [] (m.next_id + 1);
        alloc_calls = m.alloc_calls + 1;
        new_blocks = m.new_blocks + 1;
      },
      m.next_id + 1,
    )

-- `Alloc`; `block_size` is `globalMemory.BlockSize`.
unfoldable pub alloc : ℕ → MemoryManager → ℕ → ℕ → MemoryManager × ℕ
unfolding pop_full alloc_at
alloc block_size m size owner =
    alloc_at block_size m size owner (pop_full (length m.min_heap) m.blocks size m.min_heap)

unfoldable pub mark_dirty : ℕ → MemoryManager → MemoryManager
unfolding update_block
mark_dirty i m = record m { blocks = update_block i (λ b. record b { dirty = true }) m.blocks }

abbrev pub reset : MemBlock → MemBlock
reset b = record b { used = 0; owner_pid = 0 }

-- `b.Used = 0; b.OwnerPID = 0; heap.Push(&m.minHeap, b)`.
unfoldable pub release : ℕ → MemoryManager → MemoryManager
unfolding push update_block used_of
release i m =
    let bs = update_block i reset m.blocks in
    record m { blocks = bs; min_heap = push (used_of bs) m.min_heap i }

unfoldable pub reclaim_from : ℕ → List MemBlock → MemoryManager → MemoryManager
unfolding release
reclaim_from pid [] m = m
reclaim_from pid (b ∷ bs) m =
    if b.owner_pid == pid && ltb 0 b.used
    then reclaim_from pid bs (release b.id m)
    else reclaim_from pid bs m

-- `ReclaimTask`, where `visited` holds the blocks in the order in which the map is gone through.
unfoldable pub reclaim_task : ℕ → List MemBlock → MemoryManager → MemoryManager
unfolding reclaim_from
reclaim_task pid visited m = reclaim_from pid visited m

-- One list is the other in some order.
abbrev pub WithOne : {A : Type 0} → A → List A → List A → Type 0
WithOne x xs [] = ⊥
WithOne {A} x xs (y ∷ ys) =
    ((x ≡ y) × (xs ≡ ys)) ⊎ ((zs : List A) × (xs ≡ y ∷ zs) × WithOne x zs ys)

abbrev pub InSomeOrder : {A : Type 0} → List A → List A → Type 0
InSomeOrder [] ys = ys ≡ []
InSomeOrder {A} (x ∷ xs) ys = (zs : List A) × WithOne x zs ys × InSomeOrder xs zs

-- The blocks that are in use, which `Compact` and `Clear` keep.
unfoldable pub live : List MemBlock → List MemBlock
live [] = []
live (b ∷ bs) = if b.used == 0 then live bs else b ∷ live bs

unfoldable pub compact : MemoryManager → MemoryManager × ℕ
unfolding live
compact m =
    (record m { blocks = live m.blocks; min_heap = [] }, length m.blocks - length (live m.blocks))

abbrev delete_at : ℕ → MemoryManager → Option MemBlock → MemoryManager
delete_at i m none = m
delete_at i m (some b) = release i m

unfoldable pub delete : ℕ → MemoryManager → MemoryManager
unfolding block_at release
delete i m = delete_at i m (block_at i m.blocks)

-- Every block is pushed, in order.
unfoldable pub push_all : List MemBlock → List MemBlock → List ℕ → List ℕ
unfolding push used_of
push_all all [] h = h
push_all all (b ∷ bs) h = push_all all bs (push (used_of all) h b.id)

-- `Clear`, where `visited` holds the kept blocks in the order in which they are pushed.
unfoldable pub clear : List MemBlock → MemoryManager → MemoryManager
unfolding live push_all
clear visited m = record m {
  blocks = live m.blocks;
  min_heap = push_all (live m.blocks) visited [];
}

unfoldable pub block_count : MemoryManager → ℕ
block_count m = length m.blocks
