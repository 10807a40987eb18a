-- ===== src/Value.antt =====
-- internal/lang/value.go: `Value` and the tests and names of its kinds. An int is a 64-bit word; a
-- float is of the type `F`, which stands for float64; an object is known by its kind and an address.

-- The kinds of the objects among `ValueKind`.
use quark_lang.Base.{Bool, Bytes, codes, ℕ, ◌==◌}

pub data RefKind : Type 0 where
  v_list v_table v_io v_in v_out v_memorize v_memory v_taskm v_task v_thread : RefKind
  v_func v_copyd v_chan v_struct v_lib v_file : RefKind

-- The value that `iota` gives the kind.
abbrev pub ref_iota : RefKind → ℕ
ref_iota v_list = 5
ref_iota v_table = 6
ref_iota v_io = 7
ref_iota v_in = 8
ref_iota v_out = 9
ref_iota v_memorize = 10
ref_iota v_memory = 11
ref_iota v_taskm = 12
ref_iota v_task = 13
ref_iota v_thread = 14
ref_iota v_func = 15
ref_iota v_copyd = 16
ref_iota v_chan = 17
ref_iota v_struct = 18
ref_iota v_lib = 19
ref_iota v_file = 20

pub data Value (F : Type 0) : Type 0 where
  nil_v : Value F
  int_v : ℕ → Value F
  float_v : F → Value F
  bool_v : Bool → Value F
  str_v : Bytes → Value F
  ref_v : RefKind → ℕ → Value F

module _ {F : Type 0} where
  -- The tag of the value.
  abbrev pub tag : Value F → ℕ
  tag nil_v = 0
  tag (int_v n) = 1
  tag (float_v x) = 2
  tag (bool_v b) = 3
  tag (str_v s) = 4
  tag (ref_v k a) = ref_iota k

  abbrev pub is_int : Value F → Bool
  is_int v = tag v == 1

  abbrev pub is_float : Value F → Bool
  is_float v = tag v == 2

  abbrev pub is_bool : Value F → Bool
  is_bool v = tag v == 3

  abbrev pub is_str : Value F → Bool
  is_str v = tag v == 4

  -- `TypeName`; `struct_type` is the name of a struct's type.
  unfoldable pub type_name : (ℕ → Bytes) → Value F → Bytes
  type_name struct_type nil_v = codes "nil"
  type_name struct_type (int_v n) = codes "int"
  type_name struct_type (float_v x) = codes "float"
  type_name struct_type (bool_v b) = codes "bool"
  type_name struct_type (str_v s) = codes "String"
  type_name struct_type (ref_v v_list a) = codes "List"
  type_name struct_type (ref_v v_table a) = codes "HashTable"
  type_name struct_type (ref_v v_io a) = codes "IOStream"
  type_name struct_type (ref_v v_in a) = codes "InputStream"
  type_name struct_type (ref_v v_out a) = codes "OutputStream"
  type_name struct_type (ref_v v_memorize a) = codes "memorize"
  type_name struct_type (ref_v v_memory a) = codes "memory"
  type_name struct_type (ref_v v_taskm a) = codes "taskm"
  type_name struct_type (ref_v v_task a) = codes "Task"
  type_name struct_type (ref_v v_thread a) = codes "thread"
  type_name struct_type (ref_v v_func a) = codes "fn"
  type_name struct_type (ref_v v_copyd a) = codes "Copyd"
  type_name struct_type (ref_v v_chan a) = codes "Channel"
  type_name struct_type (ref_v v_struct a) = struct_type a
  type_name struct_type (ref_v _ a) = codes "<unknown>"
