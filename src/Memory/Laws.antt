-- ===== src/Memory/Laws.antt =====
-- internal/lang/eval.go: what the memory manager keeps, and what `Alloc` grants.

use mathlib.Core.Path.{subst}
use quark_lang.Base.{
  ==_refl, All, Bool-cases, List, Option, Option-cases, [], ap, arith, if◌then◌else◌, inl, inr,
  length, ltb, none, refl, some, suc, sym, true, ℕ, ◌&&◌, ◌+◌, ◌==◌, ◌∙◌, ◌∷◌, ◌≡◌, ◌≤◌,
}
use quark_lang.Memory.{
  InSomeOrder, MemBlock, MemoryManager, WithOne, block_at, clear, compact, delete, live, mark_dirty,
  push_all, reclaim_from, reclaim_task, release, reset, update_block, used_of,
}
use quark_lang.Memory.Heap.{push, push-Kept}

abbrev pub IsKnown : List MemBlock → ℕ → Type 0
IsKnown bs i = (b : MemBlock) × (block_at i bs ≡ some b)

abbrev pub map_some : (MemBlock → MemBlock) → Option MemBlock → Option MemBlock
map_some f none = none
map_some f (some b) = some (f b)

-- The heap holds ids of blocks only, no block is used beyond its size by more than `extra`, every id has
-- been given out, and each call of `Alloc` has either reused a block or made one.
pub record IsValid (extra : ℕ) (m : MemoryManager) : Type 0 where
  pub heap_known : All (IsKnown m.blocks) m.min_heap
  pub within : All (λ b. b.used ≤ b.size + extra) m.blocks
  pub given : All (λ b. b.id ≤ m.next_id) m.blocks
  pub counted : m.alloc_calls ≡ m.reused_count + m.new_blocks

module _ (f : MemBlock → MemBlock) (same : (b : MemBlock) → (f b).id ≡ b.id) where
  pub block_at-update_block :
      (i j : ℕ) (bs : List MemBlock)
      → block_at j (update_block i f bs)
        ≡ (if i == j then map_some f (block_at j bs) else block_at j bs)
  unfolding block_at update_block
  block_at-update_block i j [] = ground arith
  block_at-update_block i j (b ∷ bs) = ground (arith, same b, block_at-update_block i j bs)

  pub IsKnown-update_block :
      (i j : ℕ) (bs : List MemBlock) → IsKnown bs j → IsKnown (update_block i f bs) j
  IsKnown-update_block i j bs (b, e) = elim (Bool-cases (i == j)) [
    | inl h ↦ (f b, block_at-update_block i j bs ∙ rw (h, e) refl)
    | inr h ↦ (b, block_at-update_block i j bs ∙ rw h e)
  ]

  All-update_block :
      (P : MemBlock → Type 0) (i : ℕ) (bs : List MemBlock)
      → ((b : MemBlock) → block_at i bs ≡ some b → P b → P (f b))
      → All P bs
      → All P (update_block i f bs)
  unfolding block_at update_block
  All-update_block P i [] k h = tt
  All-update_block P i (b ∷ bs) k h = elim (Bool-cases (b.id == i)) [
    | inl e ↦ rw e ((rw e at k) b refl h.0, h.1)
    | inr e ↦ rw e (h.0, All-update_block P i bs (rw e at k) h.1)
  ]

pub All-imp :
    {A : Type 0} (P Q : A → Type 0) (xs : List A) → ((x : A) → P x → Q x) → All P xs → All Q xs
All-imp P Q [] k h = tt
All-imp P Q (x ∷ xs) k h = (k x h.0, All-imp P Q xs k h.1)

-- The blocks that stand in the map after a write to one of them.
module _ {extra : ℕ} (m : MemoryManager) (v : IsValid extra m) (i : ℕ) (f : MemBlock → MemBlock)
    (same : (b : MemBlock) → (f b).id ≡ b.id) where
  pub IsKnown-kept : All (IsKnown (update_block i f m.blocks)) m.min_heap
  IsKnown-kept =
      All-imp (IsKnown m.blocks) (IsKnown (update_block i f m.blocks)) m.min_heap
        (λ j. IsKnown-update_block f same i j m.blocks) v.heap_known

  pub given_kept : All (λ b. b.id ≤ m.next_id) (update_block i f m.blocks)
  given_kept =
      All-update_block f same (λ b. b.id ≤ m.next_id) i m.blocks (λ b e h. rw (same b) h) v.given

  pub within_kept :
      ((b : MemBlock)
        → block_at i m.blocks ≡ some b
        → b.used ≤ b.size + extra
        → (f b).used ≤ (f b).size + extra)
      → All (λ b. b.used ≤ b.size + extra) (update_block i f m.blocks)
  within_kept k = All-update_block f same (λ b. b.used ≤ b.size + extra) i m.blocks k v.within

-- `MarkDirty` keeps the manager valid.
pub mark_dirty-IsValid :
    {extra : ℕ} (m : MemoryManager) (i : ℕ) → IsValid extra m → IsValid extra (mark_dirty i m)
unfolding mark_dirty
mark_dirty-IsValid m i v =
    let f : MemBlock → MemBlock = λ b. record b { dirty = true } in
    record {
      heap_known = IsKnown-kept m v i f (λ b. refl);
      within = within_kept m v i f (λ b. refl) (λ b e h. h);
      given = given_kept m v i f (λ b. refl);
      counted = v.counted;
    }

pub release-IsValid :
    {extra : ℕ} (m : MemoryManager) (i : ℕ)
    → IsKnown m.blocks i
    → IsValid extra m
    → IsValid extra (release i m)
unfolding release
release-IsValid m i known v =
    let bs = update_block i reset m.blocks in
    record {
      heap_known =
          (push-Kept (IsKnown bs) (used_of bs) m.min_heap i (IsKnown-kept m v i reset (λ b. refl))
            (IsKnown-update_block reset (λ b. refl) i i m.blocks known)).0;
      within = within_kept m v i reset (λ b. refl) (λ b e h. omega arith);
      given = given_kept m v i reset (λ b. refl);
      counted = v.counted;
    }

-- `Delete` keeps the manager valid, whether or not there is such a block.
pub delete-IsValid :
    {extra : ℕ} (m : MemoryManager) (i : ℕ) → IsValid extra m → IsValid extra (delete i m)
unfolding delete
delete-IsValid m i v = elim (Option-cases (block_at i m.blocks)) [
  | inl e ↦ rw e v
  | inr (b, e) ↦ rw e (release-IsValid m i (b, e) v)
]

-- Every block is found under its id.
IsKnown-cons : (b : MemBlock) (bs : List MemBlock) (i : ℕ) → IsKnown bs i → IsKnown (b ∷ bs) i
unfolding block_at
IsKnown-cons b bs i (x, e) = elim (Bool-cases (b.id == i)) [
  | inl h ↦ (b, rw h refl)
  | inr h ↦ (x, rw (h, e) refl)
]

pub All-IsKnown : (bs : List MemBlock) → All (λ b. IsKnown bs b.id) bs
unfolding block_at
All-IsKnown [] = tt
All-IsKnown (b ∷ bs) = (
  (b, rw (==_refl b.id) refl),
  All-imp (λ x. IsKnown bs x.id) (λ x. IsKnown (b ∷ bs) x.id) bs (λ x. IsKnown-cons b bs x.id)
      (All-IsKnown bs),
)

reclaim_from-IsValid :
    {extra : ℕ} (pid : ℕ) (bs : List MemBlock) (m : MemoryManager)
    → All (λ b. IsKnown m.blocks b.id) bs
    → IsValid extra m
    → IsValid extra (reclaim_from pid bs m)
unfolding reclaim_from release
reclaim_from-IsValid pid [] m k v = v
reclaim_from-IsValid pid (b ∷ bs) m k v = elim (Bool-cases (b.owner_pid == pid && ltb 0 b.used)) [
  | inl e ↦ rw e (
      reclaim_from-IsValid pid bs (release b.id m)
        (All-imp (λ x. IsKnown m.blocks x.id) (λ x. IsKnown (release b.id m).blocks x.id) bs
          (λ x. IsKnown-update_block reset (λ y. refl) b.id x.id m.blocks) k.1)
        (release-IsValid m b.id k.0 v))
  | inr e ↦ rw e (reclaim_from-IsValid pid bs m k.1 v)
]

All-WithOne :
    {A : Type 0} (P : A → Type 0) (x : A) (xs ys : List A)
    → WithOne x xs ys
    → All P ys
    → P x × All P xs
All-WithOne P x xs [] w h = absurd w
All-WithOne P x xs (y ∷ ys) (inl (e, d)) (h, hs) = (subst P (sym e) h, subst (All P) (sym d) hs)
All-WithOne P x xs (y ∷ ys) (inr (zs, e, w)) (h, hs) =
    let (k, ks) = All-WithOne P x zs ys w hs in (k, subst (All P) (sym e) (h, ks))

All-InSomeOrder :
    {A : Type 0} (P : A → Type 0) (xs ys : List A) → InSomeOrder xs ys → All P ys → All P xs
All-InSomeOrder P [] ys o h = tt
All-InSomeOrder P (x ∷ xs) ys (zs, w, o) h =
    let (k, ks) = All-WithOne P x zs ys w h in (k, All-InSomeOrder P xs zs o ks)

-- `ReclaimTask` keeps the manager valid, in whatever order it visits the blocks.
pub reclaim_task-IsValid :
    {extra : ℕ} (m : MemoryManager) (pid : ℕ) (visited : List MemBlock)
    → InSomeOrder visited m.blocks
    → IsValid extra m
    → IsValid extra (reclaim_task pid visited m)
unfolding reclaim_task
reclaim_task-IsValid m pid visited o v =
    reclaim_from-IsValid pid visited m
      (All-InSomeOrder (λ b. IsKnown m.blocks b.id) visited m.blocks o (All-IsKnown m.blocks)) v

All-live : (P : MemBlock → Type 0) (bs : List MemBlock) → All P bs → All P (live bs)
unfolding live
All-live P [] h = tt
All-live P (b ∷ bs) h = elim (Bool-cases (b.used == 0)) [
  | inl e ↦ rw e (All-live P bs h.1)
  | inr e ↦ rw e (h.0, All-live P bs h.1)
]

-- `Compact` keeps the manager valid.
pub compact-IsValid :
    {extra : ℕ} (m : MemoryManager) → IsValid extra m → IsValid extra (compact m).0
unfolding compact
compact-IsValid {extra} m v = record {
  heap_known = tt;
  within = All-live (λ b. b.used ≤ b.size + extra) m.blocks v.within;
  given = All-live (λ b. b.id ≤ m.next_id) m.blocks v.given;
  counted = v.counted;
}

push_all-kept :
    (P : ℕ → Type 0) (all bs : List MemBlock) (h : List ℕ)
    → All (λ b. P b.id) bs
    → All P h
    → All P (push_all all bs h) × (length (push_all all bs h) ≡ length bs + length h)
unfolding push_all
push_all-kept P all [] h k q = (q, omega arith)
push_all-kept P all (b ∷ bs) h k q =
    let (q', l) = push-Kept P (used_of all) h b.id q k.0 in
    let (r, n) = push_all-kept P all bs (push (used_of all) h b.id) k.1 q' in
    (r, omega (arith, l, n))

length-WithOne :
    {A : Type 0} (x : A) (xs ys : List A) → WithOne x xs ys → length ys ≡ suc (length xs)
length-WithOne x xs [] w = absurd w
length-WithOne x xs (y ∷ ys) (inl (e, d)) = ap suc (ap length (sym d))
length-WithOne x xs (y ∷ ys) (inr (zs, e, w)) =
    ap suc (length-WithOne x zs ys w ∙ ap length (sym e))

length-InSomeOrder : {A : Type 0} (xs ys : List A) → InSomeOrder xs ys → length xs ≡ length ys
length-InSomeOrder [] ys o = ap length (sym o)
length-InSomeOrder (x ∷ xs) ys (zs, w, o) =
    ap suc (length-InSomeOrder xs zs o) ∙ sym (length-WithOne x zs ys w)

-- The heap behind `Clear`.
pub push_all-IsKnown :
    (visited : List MemBlock) (m : MemoryManager)
    → InSomeOrder visited (live m.blocks)
    → All (IsKnown (live m.blocks)) (push_all (live m.blocks) visited [])
      × (length (push_all (live m.blocks) visited []) ≡ length (live m.blocks))
push_all-IsKnown visited m o =
    let bs = live m.blocks in
    let (known, n) =
      push_all-kept (IsKnown bs) bs visited []
        (All-InSomeOrder (λ b. IsKnown bs b.id) visited bs o (All-IsKnown bs)) tt in
    (known, omega (arith, n, length-InSomeOrder visited bs o))

-- `Clear` keeps the manager valid, in whatever order it pushes the blocks.
pub clear-IsValid :
    {extra : ℕ} (m : MemoryManager) (visited : List MemBlock)
    → InSomeOrder visited (live m.blocks)
    → IsValid extra m
    → IsValid extra (clear visited m)
unfolding clear
clear-IsValid {extra} m visited o v = record {
  heap_known = (push_all-IsKnown visited m o).0;
  within = All-live (λ b. b.used ≤ b.size + extra) m.blocks v.within;
  given = All-live (λ b. b.id ≤ m.next_id) m.blocks v.given;
  counted = v.counted;
}
