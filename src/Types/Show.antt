-- ===== src/Types/Show.antt =====
-- internal/lang/typecheck.go: `kindName` and `Type.String`.

-- `kindName`, where it has an entry for a kind that is shown by it.
use quark_lang.Base.{Bytes, [], codes, ◌++◌, ◌∷◌}
use quark_lang.Types.{
  TKind, Ty, Tys, copy_of, func_of, interface_of, k_any, k_bool, k_channel, k_copyd, k_file,
  k_float, k_func, k_func_buffer, k_input_stream, k_int, k_interface, k_io_stream, k_lib,
  k_memorize, k_memory, k_nil, k_null, k_output_stream, k_ptr, k_string, k_struct, k_task, k_taskm,
  k_type_var, list_of, no_tys, plain, ptr_to, struct_of, table_of, type_var, tys_cons,
}

unfoldable pub kind_name : TKind → Bytes
kind_name k_int = codes "int"
kind_name k_float = codes "float"
kind_name k_string = codes "String"
kind_name k_bool = codes "bool"
kind_name k_nil = codes "nil"
kind_name k_any = codes "interface{}"
kind_name k_func_buffer = codes "FuncBuffer"
kind_name k_io_stream = codes "IOStream"
kind_name k_input_stream = codes "InputStream"
kind_name k_output_stream = codes "OutputStream"
kind_name k_channel = codes "Channel"
kind_name k_task = codes "Task"
kind_name k_memorize = codes "memorize"
kind_name k_memory = codes "memory"
kind_name k_func = codes "fn"
kind_name k_struct = codes "struct"
kind_name k_taskm = codes "taskm"
kind_name k_ptr = codes "ptr"
kind_name k_copyd = codes "Copyd"
kind_name k_null = codes "null"
kind_name k_type_var = codes "typevar"
kind_name k_lib = codes "library"
kind_name k_interface = codes "interface"
kind_name k_file = codes "file"
kind_name _ = codes "unknown"

abbrev pub fn_string : Bytes → Bytes
fn_string [] = codes "fn"
fn_string (c ∷ n) = codes "fn " ++ (c ∷ n)

-- `Type.String`; the arguments of a struct are joined by a comma and a space.
unfoldable mutual
  unfolding kind_name

  pub type_string : Ty → Bytes
  type_string (plain k) = kind_name k
  type_string (list_of t) = codes "List<" ++ (type_string t ++ codes ">")
  type_string (table_of k v) =
      codes "HashTable<" ++ (type_string k ++ (codes ", " ++ (type_string v ++ codes ">")))
  type_string (func_of n) = fn_string n
  type_string (struct_of n no_tys) = n
  type_string (struct_of n (tys_cons t ts)) =
      n ++ (codes "<" ++ (type_string t ++ (args_string ts ++ codes ">")))
  type_string (ptr_to t) = type_string t ++ codes "&"
  type_string (copy_of t) = codes "Copyd<" ++ (type_string t ++ codes ">")
  type_string (interface_of n) = kind_name k_interface
  type_string (type_var n) = kind_name k_type_var

  pub args_string : Tys → Bytes
  args_string no_tys = []
  args_string (tys_cons t ts) = codes ", " ++ (type_string t ++ args_string ts)
