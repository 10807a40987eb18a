-- ===== src/Rolling/Tests.antt =====
-- internal/lang/value.go: a rolling list of three numbers, one of them read.

use quark_lang.Base.{[], arith, none, refl, some, take, ℕ, ◌++◌, ◌∷◌, ◌≡◌}
use quark_lang.Base.Int.{negsuc}
use quark_lang.Base.Result.{err, ok}
use quark_lang.Memory.{MemoryManager, new_memory_manager}
use quark_lang.Rolling.{
  RollingList, append_all, copy_visible, out_of_bounds, rewind, set_index, visible,
}
use quark_lang.Rolling.Copies.{append_all-IsRolling, rewind-visible}
use quark_lang.Rolling.Laws.{IsRolling, Takes, visible-Takes}

abbrev rolled : RollingList ℕ
rolled = record { items = 4 ∷ 5 ∷ 6 ∷ []; head = 1; tail = 3; block_id = some 1 }

rolled-IsRolling : IsRolling rolled
rolled-IsRolling = record { at_end = refl; within = omega arith }

peek_next_example : Takes (visible rolled) rolled
peek_next_example = visible-Takes rolled rolled-IsRolling

abbrev other : RollingList ℕ
other = record { items = 1 ∷ 7 ∷ 8 ∷ []; head = 1; tail = 3; block_id = none }

other-IsRolling : IsRolling other
other-IsRolling = record { at_end = refl; within = omega arith }

append_all_example :
    (l' : RollingList ℕ) × (m' : MemoryManager) × (append_all other rolled new_memory_manager
      ≡ ok (l', m'))
    × IsRolling l'
    × (visible l' ≡ visible rolled ++ visible other)
    × (l'.head ≡ rolled.head)
    × (l'.block_id ≡ rolled.block_id)
append_all_example =
    append_all-IsRolling other rolled new_memory_manager other-IsRolling rolled-IsRolling

negative_refused :
    set_index (negsuc 0) 9 rolled new_memory_manager ≡ err (out_of_bounds (negsuc 0) 2)
unfolding set_index
negative_refused = refl

rewind_example :
    (visible (rewind rolled) ≡ take rolled.head rolled.items ++ visible rolled)
    × IsRolling (rewind rolled)
    × ((c : RollingList ℕ) × (copy_visible rolled ≡ ok c)
        × IsRolling c
        × (visible c ≡ visible rolled)
        × (visible (rewind c) ≡ visible rolled)
        × (c.block_id ≡ none))
rewind_example = rewind-visible rolled rolled-IsRolling
