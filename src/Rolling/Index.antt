-- ===== src/Rolling/Index.antt =====
-- internal/lang/value.go: `Get` and `setIndex` of the rolling list.
use quark_lang.Base.{List, Option, get_elem?, length, none, some, ℕ, ◌≡◌, ◌≢◌}
use quark_lang.Base.Int.{negsuc, pos, ℤ}
use quark_lang.Base.Result.{Result, err, ok}
use quark_lang.Memory.{MemoryManager}
use quark_lang.Rolling.{ListError, RollingList, dirtied, out_of_bounds, set_index, visible}
use quark_lang.Rolling.Laws.{IsRolling}

module _ {ℓ} {V : Type ℓ} where
  -- The element at an index of the program.
  abbrev pub at : List V → ℤ → Option V
  at xs (pos i) = get_elem? xs i
  at xs (negsuc i) = none

  -- What `Get` returns for the element at an index of a list of `n` visible elements.
  abbrev pub element : ℤ → ℕ → Option V → Result ListError V
  element i n none = err (out_of_bounds i n)
  element i n (some v) = ok v

  -- What `setIndex` does where that element stands.
  abbrev pub Sets : ℤ → V → RollingList V → MemoryManager → Option V → Type ℓ
  Sets i v l m none = set_index i v l m ≡ err (out_of_bounds i (length (visible l)))
  Sets i v l m (some old) =
      (l' : RollingList V) × (set_index i v l m ≡ ok (l', dirtied l.block_id m))
      × IsRolling l'
      × (at (visible l') i ≡ some v)
      × ((j : ℤ) → j ≢ i → at (visible l') j ≡ at (visible l) j)
