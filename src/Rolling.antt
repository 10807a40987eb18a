-- ===== src/Rolling.antt =====
-- internal/lang/value.go: `List`, the rolling list. Its elements are of any type here. A list that is
-- attached to the memory manager holds the id of its block; the operations that write pass the
-- manager on.

pub mod Copies
pub mod Index
pub mod Laws
mod Tests
use quark_lang.Base.{
  List, Option, [], drop, get_elem?, if◌then◌else◌, leb, length, none, set, some, suc, take, zero,
  ℕ, ◌++◌, ◌+◌, ◌-◌, ◌==◌, ◌∷◌,
}
use quark_lang.Base.Int.{negsuc, pos, ℤ}
use quark_lang.Base.Result.{Result, err, ok, ◌>>=◌}
use quark_lang.Memory.{MemoryManager, mark_dirty}

pub data ListError : Type 0 where
  exhausted : ListError
  out_of_bounds : ℤ → ℕ → ListError
  -- An index that is out of the range of `items`, where the program panics.
  no_item : ListError

module _ {ℓ} (V : Type ℓ) where
  pub record RollingList : Type ℓ where
    pub items : List V
    pub head : ℕ
    pub tail : ℕ
    pub block_id : Option ℕ

-- `l.mem.MarkDirty(l.blockID)`, if the list is attached.
abbrev pub dirtied : Option ℕ → MemoryManager → MemoryManager
dirtied none m = m
dirtied (some b) m = mark_dirty b m

module _ {ℓ} {V : Type ℓ} where
  unfoldable pub new_list : List V → RollingList V
  new_list items = record { items = items; head = 0; tail = length items; block_id = none }

  -- `reset`, of the pool of lists.
  unfoldable pub reset_list : RollingList V → RollingList V
  reset_list l = record { items = []; head = 0; tail = 0; block_id = none }

  unfoldable pub list_size : RollingList V → ℕ
  list_size l = l.tail - l.head

  abbrev pub item_or : Option V → Result ListError V
  item_or none = err no_item
  item_or (some v) = ok v

  unfoldable pub peek : RollingList V → Result ListError V
  peek l = if l.head == l.tail then err exhausted else item_or (get_elem? l.items l.head)

  unfoldable pub next_item : RollingList V → Result ListError (V × RollingList V)
  next_item l =
      if l.head == l.tail
      then err exhausted
      else item_or (get_elem? l.items l.head) >>= λ v. ok (v, record l { head = l.head + 1 })

  unfoldable pub rewind : RollingList V → RollingList V
  rewind l = record l { head = 0 }

  unfoldable pub append : V → RollingList V → MemoryManager → RollingList V × MemoryManager
  append v l m = (record l { items = l.items ++ v ∷ []; tail = l.tail + 1 }, dirtied l.block_id m)

  -- The visible elements, `items[head:tail]`.
  unfoldable pub visible : RollingList V → List V
  visible l = drop l.head (take l.tail l.items)

  -- The loop of `AppendAll` over the other list's items, by the rounds left; `i` is its index.
  unfoldable pub append_from :
      ℕ
      → ℕ
      → List V
      → RollingList V
      → MemoryManager
      → Result ListError (RollingList V × MemoryManager)
  unfolding append
  append_from zero i items l m = ok (l, m)
  append_from (suc k) i items l m = item_or (get_elem? items i) >>= λ v.
      let (l', m') = append v l m in append_from k (i + 1) items l' m'

  -- `l.AppendAll(o)`, where `o` is another list than `l`, so that `o.tail` stays as it is.
  unfoldable pub append_all :
      RollingList V
      → RollingList V
      → MemoryManager
      → Result ListError (RollingList V × MemoryManager)
  unfolding append_from
  append_all o l m = append_from (o.tail - o.head) o.head o.items l m

  unfoldable pub set_index :
      ℤ → V → RollingList V → MemoryManager → Result ListError (RollingList V × MemoryManager)
  unfolding list_size
  set_index (negsuc i) v l m = err (out_of_bounds (negsuc i) (list_size l))
  set_index (pos i) v l m =
      if leb l.tail (l.head + i)
      then err (out_of_bounds (pos i) (list_size l))
      else ok (record l { items = set l.items (l.head + i) v }, dirtied l.block_id m)

  unfoldable pub get_index : ℤ → RollingList V → Result ListError V
  unfolding list_size
  get_index (negsuc i) l = err (out_of_bounds (negsuc i) (list_size l))
  get_index (pos i) l =
      if leb l.tail (l.head + i)
      then err (out_of_bounds (pos i) (list_size l))
      else item_or (get_elem? l.items (l.head + i))

  -- The loop of `copyVisible`, by the rounds left, with the copied elements.
  unfoldable pub copy_from : ℕ → ℕ → List V → List V → Result ListError (List V)
  copy_from zero i items copied = ok copied
  copy_from (suc k) i items copied =
      item_or (get_elem? items i) >>= λ v. copy_from k (i + 1) items (copied ++ v ∷ [])

  unfoldable pub copy_visible : RollingList V → Result ListError (RollingList V)
  unfolding copy_from new_list
  copy_visible l = copy_from (l.tail - l.head) l.head l.items [] >>= λ vs. ok (new_list vs)
