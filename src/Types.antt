-- ===== src/Types.antt =====
-- internal/lang/typecheck.go: the types of the checker, `assignable`, `join`. A nil `*Type` is no value
-- here; the field table of anonymous structs is not represented.

-- `tKind`.
pub mod Laws
pub mod CheckScope
pub mod Show
mod Tests
use quark_lang.Base.{
  Bool, Bytes, [], codes, equal, false, if◌then◌else◌, true, ℕ, ◌&&◌, ◌==◌, ◌||◌, ◌∷◌,
}

pub data TKind : Type 0 where
  k_int k_float k_string k_bool k_nil k_any k_list k_hash_table k_func_buffer k_io_stream : TKind
  k_input_stream k_output_stream k_channel k_task k_memorize k_memory k_func k_struct : TKind
  k_taskm k_ptr k_copyd k_null k_type_var k_lib k_interface k_file : TKind

-- The value that `iota` gives the kind.
abbrev pub kind_iota : TKind → ℕ
kind_iota k_int = 0
kind_iota k_float = 1
kind_iota k_string = 2
kind_iota k_bool = 3
kind_iota k_nil = 4
kind_iota k_any = 5
kind_iota k_list = 6
kind_iota k_hash_table = 7
kind_iota k_func_buffer = 8
kind_iota k_io_stream = 9
kind_iota k_input_stream = 10
kind_iota k_output_stream = 11
kind_iota k_channel = 12
kind_iota k_task = 13
kind_iota k_memorize = 14
kind_iota k_memory = 15
kind_iota k_func = 16
kind_iota k_struct = 17
kind_iota k_taskm = 18
kind_iota k_ptr = 19
kind_iota k_copyd = 20
kind_iota k_null = 21
kind_iota k_type_var = 22
kind_iota k_lib = 23
kind_iota k_interface = 24
kind_iota k_file = 25

-- `Type`: the kinds that have parts, and `plain` for the others. A type variable, a function, a struct
-- and an interface have a name.
mutual
  pub data Ty : Type 0 where
    plain : TKind → Ty
    list_of ptr_to copy_of : Ty → Ty
    table_of : Ty → Ty → Ty
    func_of interface_of type_var : Bytes → Ty
    struct_of : Bytes → Tys → Ty

  pub data Tys : Type 0 where
    no_tys : Tys
    tys_cons : Ty → Tys → Tys

abbrev pub kind_of : Ty → TKind
kind_of (plain k) = k
kind_of (list_of t) = k_list
kind_of (ptr_to t) = k_ptr
kind_of (copy_of t) = k_copyd
kind_of (table_of k v) = k_hash_table
kind_of (func_of n) = k_func
kind_of (interface_of n) = k_interface
kind_of (type_var n) = k_type_var
kind_of (struct_of n ts) = k_struct

abbrev pub has_kind : Ty → TKind → Bool
has_kind t k = kind_iota (kind_of t) == kind_iota k

abbrev pub same_kind : Ty → Ty → Bool
same_kind a b = has_kind a (kind_of b)

abbrev pub is_any : Ty → Bool
is_any t = has_kind t k_any

-- `strings.HasPrefix(s, p)`.
unfoldable pub has_prefix : Bytes → Bytes → Bool
has_prefix s [] = true
has_prefix [] (c ∷ p) = false
has_prefix (d ∷ s) (c ∷ p) = c == d && has_prefix s p

-- A function type is taken for another by its name, loosely where it is a signature.
unfoldable pub func_assignable : Bytes → Bytes → Bool
unfolding has_prefix equal
func_assignable n m =
    equal m [] || has_prefix m (codes "function<") || has_prefix n (codes "function<") || equal n m

-- `assignable`; the clauses stand in the order of the code's tests.
unfoldable mutual
  unfolding func_assignable equal

  pub assignable : Ty → Ty → Bool
  assignable from (plain k_any) = true
  assignable (plain k_any) to = true
  assignable (plain k_nil) to = false
  assignable (plain k_int) (plain k_float) = true
  assignable (plain k_null) (ptr_to e) = true
  assignable (ptr_to d) (ptr_to e) = assignable d e || is_any e || is_any d
  assignable from (ptr_to e) = assignable from e || is_any e
  assignable (type_var n) to = true
  assignable from (type_var m) = true
  assignable (interface_of n) (interface_of m) = equal n m
  assignable (struct_of n ds) (interface_of m) = true
  assignable from (interface_of m) = false
  assignable (copy_of d) to = assignable d to
  assignable from (copy_of e) = assignable from e
  assignable (list_of d) (list_of e) = is_any d || is_any e || assignable d e
  assignable (table_of k v) (table_of j w) =
      (is_any k || is_any j || assignable k j) && (is_any v || is_any w || assignable v w)
  assignable (func_of n) (func_of m) = func_assignable n m
  assignable (struct_of n ds) (struct_of m es) = equal n m && args_assignable ds es
  assignable from to = same_kind from to

  pub args_assignable : Tys → Tys → Bool
  args_assignable no_tys no_tys = true
  args_assignable (tys_cons a as') (tys_cons b bs) =
      (is_any a || is_any b || assignable a b) && args_assignable as' bs
  args_assignable _ _ = false

abbrev pub join_other : Ty → Ty → Ty
join_other a b =
    if has_kind a k_int && has_kind b k_float || has_kind a k_float && has_kind b k_int
    then plain k_float
    else plain k_any

-- The tests of `join`, given what it makes of two types of one kind.
abbrev pub join_tests : Ty → Ty → Ty → Ty
join_tests a b same =
    if is_any a || is_any b then plain k_any else if same_kind a b then same else join_other a b

-- `join`.
unfoldable pub join_types : Ty → Ty → Ty
join_types (list_of d) (list_of e) =
    let elem = join_types d e in
    join_tests (list_of d) (list_of e) (if same_kind d e then list_of elem else list_of d)
join_types a b = join_tests a b a
