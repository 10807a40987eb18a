-- ===== src/Parser/Programs/Valid.antt =====
-- internal/lang/parser.go: what `parseProgram` keeps true of the program it builds.

use mathlib.Core.Path.{subst}
use mathlib.Core.List.{Mem, mem-append_left, mem-append_right, mem-cons_self}
use quark_lang.Base.{
  All, All-append, Bool, Bytes, List, Option, [], codes, equal, false, if◌then◌else◌, inl, inr,
  length, none, refl, some, suc, sym, true, zero, ℕ, ◌||◌, ◌∷◌, ◌≡◌, ◌⊎◌,
}
use quark_lang.Base.Result.{Result, err, ok, out_of_fuel}
use quark_lang.Macro.{Tokens}
use quark_lang.Parser.{Cursor, ParseError}
use quark_lang.Parser.Gives.{
  Gives, Holds, after-Gives, bind-Gives, fail_at-Gives, give_steps, no_fuel-Gives, pure-Gives,
  test_if-Gives,
}
use quark_lang.Parser.Programs.{
  add_alias, add_func, add_impl, add_interface, add_library, add_public, add_struct, alias_decl,
  empty_program, func_decl, impl_decl, import_decl, interface_decl, kind_decl, kind_named,
  kind_rest, library_decl, no_decl, parse, parse_program, program_of, pub_decl, set_kind,
  space_decl, struct_decl, top_decl, type_decl, word_decl,
}
use quark_lang.Parser.Stmts.{ended}
use quark_lang.Syntax.{
  FuncDecl, ImplDecl, InterfaceDecl, LibraryDecl, Program, StructDecl, TypeAlias,
}
use quark_lang.Token.{Token}

-- `Kind`: none, or one of the two that a `program` line can set.
abbrev pub IsKind : Bytes → Type 0
IsKind k = (k ≡ []) ⊎ ((k ≡ codes "main") ⊎ (k ≡ codes "library"))

-- The name is that of a function or of a structure of the program.
abbrev pub IsDeclared : Program → Bytes → Type 0
IsDeclared p s =
    ((d : FuncDecl) × Mem d p.funcs × (d.name ≡ s))
    ⊎ ((d : StructDecl) × Mem d p.structs × (d.name ≡ s))

pub record IsProgram (p : Program) : Type 0 where
  pub kind_known : IsKind p.kind
  pub names_declared : All (IsDeclared p) p.public_names

module _ (p : Program) (s : Bytes) where
  IsDeclared-func : (d : FuncDecl) → IsDeclared p s → IsDeclared (add_func p d) s
  unfolding add_func
  IsDeclared-func d (inl (f, m, e)) = inl (f, mem-append_left (d ∷ []) m, e)
  IsDeclared-func d (inr h) = inr h

  IsDeclared-struct : (d : StructDecl) → IsDeclared p s → IsDeclared (add_struct p d) s
  unfolding add_struct
  IsDeclared-struct d (inl h) = inl h
  IsDeclared-struct d (inr (f, m, e)) = inr (f, mem-append_left (d ∷ []) m, e)

All-map : (P Q : Bytes → Type 0) (xs : List Bytes) → ((x : Bytes) → P x → Q x) → All P xs → All Q xs
All-map P Q [] k h = tt
All-map P Q (x ∷ xs) k (h, hs) = (k x h, All-map P Q xs k hs)

module _ (prog : Program) (v : IsProgram prog) where
  add_func-IsProgram : (d : FuncDecl) → IsProgram (add_func prog d)
  unfolding add_func
  add_func-IsProgram d = record {
    kind_known = v.kind_known;
    names_declared = All-map _ _ prog.public_names (λ s. IsDeclared-func prog s d) v.names_declared;
  }

  add_struct-IsProgram : (d : StructDecl) → IsProgram (add_struct prog d)
  unfolding add_struct
  add_struct-IsProgram d = record {
    kind_known = v.kind_known;
    names_declared =
        All-map _ _ prog.public_names (λ s. IsDeclared-struct prog s d) v.names_declared;
  }

  public_func-IsProgram : (d : FuncDecl) → IsProgram (add_func (add_public prog d.name) d)
  unfolding add_func add_public
  public_func-IsProgram d = record {
    kind_known = v.kind_known;
    names_declared =
        All-append _ prog.public_names (d.name ∷ [])
          (All-map _ _ prog.public_names (λ s. IsDeclared-func prog s d) v.names_declared)
          (inl (d, mem-append_right prog.funcs mem-cons_self, refl), tt);
  }

  public_struct-IsProgram : (d : StructDecl) → IsProgram (add_struct (add_public prog d.name) d)
  unfolding add_struct add_public
  public_struct-IsProgram d = record {
    kind_known = v.kind_known;
    names_declared =
        All-append _ prog.public_names (d.name ∷ [])
          (All-map _ _ prog.public_names (λ s. IsDeclared-struct prog s d) v.names_declared)
          (inr (d, mem-append_right prog.structs mem-cons_self, refl), tt);
  }

  add_interface-IsProgram : (d : InterfaceDecl) → IsProgram (add_interface prog d)
  unfolding add_interface
  add_interface-IsProgram d = record {
    kind_known = v.kind_known;
    names_declared = v.names_declared;
  }

  add_impl-IsProgram : (d : ImplDecl) → IsProgram (add_impl prog d)
  unfolding add_impl
  add_impl-IsProgram d = record { kind_known = v.kind_known; names_declared = v.names_declared }

  add_library-IsProgram : (d : LibraryDecl) → IsProgram (add_library prog d)
  unfolding add_library
  add_library-IsProgram d = record { kind_known = v.kind_known; names_declared = v.names_declared }

  add_alias-IsProgram : (d : TypeAlias) → IsProgram (add_alias prog d)
  unfolding add_alias
  add_alias-IsProgram d = record { kind_known = v.kind_known; names_declared = v.names_declared }

  imports-IsProgram : (paths : List Bytes) → IsProgram (record prog { imports = paths })
  imports-IsProgram paths = record { kind_known = v.kind_known; names_declared = v.names_declared }

  kind-IsProgram : (k : Bytes) → IsKind k → IsProgram (record prog { kind = k })
  kind-IsProgram k h = record { kind_known = h; names_declared = v.names_declared }

  kind_named-IsKind : (s k : Bytes) → kind_named s ≡ some k → IsKind k
  unfolding kind_named
  kind_named-IsKind s k e =
      go (equal s (codes "main")) (equal s (codes "library") || equal s (codes "lib")) e
    where
      go :
          (a b : Bool)
          → (if a then some (codes "main") else if b then some (codes "library") else none) ≡ some k
          → IsKind k
      go true b q = let same : codes "main" ≡ k = cc in inr (inl (sym same))
      go false true q = let same : codes "library" ≡ k = cc in inr (inr (sym same))
      go false false q = cc

  kind_decl-Gives : Gives IsProgram (kind_decl prog)
  unfolding kind_decl kind_rest set_kind
  kind_decl-Gives =
      after-Gives IsProgram _ _ λ t. go t (kind_named t.text) λ k e. kind_named-IsKind t.text k e
    where
      go :
          (t : Token) (o : Option Bytes)
          → ((k : Bytes) → o ≡ some k → IsKind k)
          → Gives IsProgram (kind_rest prog t o)
      go t none h = fail_at-Gives IsProgram _ _
      go t (some k) h = let known = kind-IsProgram k (h k refl) in search give_steps

  type_decl-Gives : (n : ℕ) → Gives IsProgram (type_decl n prog)
  unfolding type_decl struct_decl interface_decl alias_decl
  type_decl-Gives n =
      search (give_steps, add_struct-IsProgram, add_interface-IsProgram, add_alias-IsProgram) depth
        12

  space_decl-Gives : (n : ℕ) → Gives IsProgram (space_decl n prog)
  unfolding space_decl
  space_decl-Gives n = search (give_steps, add_impl-IsProgram) depth 12

  pub_decl-Gives : (n : ℕ) → Gives IsProgram (pub_decl n prog)
  unfolding pub_decl
  pub_decl-Gives n = search (give_steps, public_func-IsProgram, public_struct-IsProgram) depth 9

  library_decl-Gives : (n : ℕ) (t : Token) → Gives IsProgram (library_decl n prog t)
  unfolding library_decl
  library_decl-Gives n t = search (give_steps, add_library-IsProgram) depth 9

  import_decl-Gives : Gives IsProgram (import_decl prog)
  unfolding import_decl ended
  import_decl-Gives = search (give_steps, imports-IsProgram) depth 9

  top_decl-Gives : (n : ℕ) → Gives IsProgram (top_decl n prog)
  unfolding top_decl func_decl struct_decl interface_decl impl_decl word_decl no_decl
  top_decl-Gives n =
      search
        (
          give_steps, add_func-IsProgram, add_struct-IsProgram, add_interface-IsProgram,
          add_impl-IsProgram, kind_decl-Gives, type_decl-Gives, space_decl-Gives, pub_decl-Gives,
          library_decl-Gives, import_decl-Gives,
        )
        depth 16

parse_program-Gives :
    (f : ℕ) (prog : Program) → IsProgram prog → Gives IsProgram (parse_program f prog)
unfolding parse_program
parse_program-Gives zero prog v = no_fuel-Gives IsProgram
parse_program-Gives (suc f) prog v =
    test_if-Gives IsProgram _ _ _ (pure-Gives IsProgram prog v)
      (bind-Gives IsProgram IsProgram _ _ (top_decl-Gives prog v (suc f)) (parse_program-Gives f))

-- What holds of the program that the loop gives holds of the program that `Parse` returns.
pub parse-Holds :
    (P : Program → Type 0)
    → ((f : ℕ) → Gives P (parse_program f empty_program))
    → (ts : Tokens) (p : Program) → parse ts ≡ ok p
    → P p
unfolding parse
parse-Holds P g ts p e = go (parse_program (length ts) empty_program c) ((g (length ts)).gives c) e
  where
    c : Cursor
    c = record { before = none; toks = ts }

    go : (r : Result ParseError (Program × Cursor)) → Holds P r → program_of r ≡ ok p → P p
    go (ok (q, d)) h e = let same : q ≡ p = cc in subst P same h
    go (err x) h e = cc
    go out_of_fuel h e = cc

-- In every program that `Parse` returns, each public name is that of a function or of a structure of the
-- program, and the kind is none, `main` or `library`.
pub parse-IsProgram : (ts : Tokens) (p : Program) → parse ts ≡ ok p → IsProgram p
parse-IsProgram =
    parse-Holds IsProgram λ f.
      parse_program-Gives f empty_program (record { kind_known = inl refl; names_declared = tt })
