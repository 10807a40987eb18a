-- ===== src/Scope.antt =====
-- internal/lang/eval.go: `scope`, the chain of variable scopes. A scope chain is the list of its
-- frames, the innermost one first; a value is of any type here. A nil map is an empty one.
pub mod Laws
pub mod Declare
mod Tests
use quark_lang.Base.{
  Bool, Bytes, List, Option, [], equal, false, get_elem?, if◌then◌else◌, insert, length, lookup,
  ltb, none, set, some, suc, ℕ, ◌++◌, ◌∷◌,
}
use quark_lang.Base.Result.{Result, err, ok, ◌>>=◌}

pub data ScopeError : Type 0 where
  assigned undeclared : Bytes → ScopeError
  -- An index that is out of the range of `slots`, where the program panics.
  no_slot : ScopeError

module _ {ℓ} (V : Type ℓ) where
  pub record Frame : Type ℓ where
    pub vars : List (Bytes × V)
    pub slots : List V
    pub param_names : List Bytes
    pub n_params : ℕ

module _ {ℓ} {V : Type ℓ} where
  -- `newScope`, the frame that it puts before `outer`.
  abbrev pub new_frame : Frame V
  new_frame = record { vars = []; slots = []; param_names = []; n_params = 0 }

  abbrev pub set_params : List Bytes → List V → Frame V → Frame V
  set_params names args s = record s { param_names = names; n_params = length names; slots = args }

abbrev pub shift : Option ℕ → Option ℕ
shift none = none
shift (some i) = some (suc i)

-- `paramIndex`: `none` for -1.
unfoldable pub param_index : Bytes → List Bytes → Option ℕ
unfolding equal
param_index name [] = none
param_index name (n ∷ names) = if equal n name then some 0 else shift (param_index name names)

-- What a frame knows of a name: a slot, an entry of `vars`, or nothing.
pub data Place {ℓ} (V : Type ℓ) : Type ℓ where
  slot : ℕ → Place V
  entry : V → Place V
  absent : Place V

abbrev pub is_first : Bytes → List Bytes → Bool
is_first name [] = false
is_first name (n ∷ names) = equal n name

module _ {ℓ} {V : Type ℓ} where
  -- `s.slots[i] = v`.
  unfoldable pub write_slot : ℕ → V → Frame V → Result ScopeError (Frame V)
  write_slot i v s =
      if ltb i (length s.slots) then ok (record s { slots = set s.slots i v }) else err no_slot

  -- `declare`; the second loop of the code looks for a name that `paramIndex` has not found.
  abbrev pub declare_at : Option ℕ → Bytes → V → Frame V → Result ScopeError (Frame V)
  declare_at (some i) name v s = if ltb i s.n_params then ok s else write_slot i v s
  declare_at none name v s =
      ok (record s { param_names = s.param_names ++ name ∷ []; slots = s.slots ++ v ∷ [] })

  unfoldable pub declare : Bytes → V → Frame V → Result ScopeError (Frame V)
  unfolding param_index write_slot
  declare name v s = declare_at (param_index name s.param_names) name v s

  abbrev pub read_slot : Option V → Result ScopeError V
  read_slot none = err no_slot
  read_slot (some v) = ok v

  abbrev pub place_in : Option V → Option ℕ → Place V
  place_in o (some i) = slot i
  place_in (some v) none = entry v
  place_in none none = absent

  -- One round of the loops of `set` and `get`: the first name is looked at before the search.
  unfoldable pub place : Bytes → Frame V → Place V
  unfolding param_index lookup equal
  place name s =
      if is_first name s.param_names
      then slot 0
      else place_in (lookup name s.vars) (param_index name s.param_names)

  -- The frame in which `set` finds the name is written, and the frames before it are kept.
  abbrev pub set_at :
      Place V
      → Bytes
      → V
      → Frame V
      → Result ScopeError (List (Frame V))
      → List (Frame V)
      → Result ScopeError (List (Frame V))
  set_at (slot i) name v s more outer = write_slot i v s >>= λ s'. ok (s' ∷ outer)
  set_at (entry _) name v s more outer = ok (record s { vars = insert name v s.vars } ∷ outer)
  set_at absent name v s more outer = more >>= λ outer'. ok (s ∷ outer')

  unfoldable pub set_var : Bytes → V → List (Frame V) → Result ScopeError (List (Frame V))
  unfolding place write_slot insert
  set_var name v [] = err (assigned name)
  set_var name v (s ∷ outer) = set_at (place name s) name v s (set_var name v outer) outer

  abbrev pub get_at : Place V → Frame V → Result ScopeError V → Result ScopeError V
  get_at (slot i) s more = read_slot (get_elem? s.slots i)
  get_at (entry v) s more = ok v
  get_at absent s more = more

  unfoldable pub get_var : Bytes → List (Frame V) → Result ScopeError V
  unfolding place
  get_var name [] = err (undeclared name)
  get_var name (s ∷ outer) = get_at (place name s) s (get_var name outer)
