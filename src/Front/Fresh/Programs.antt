-- ===== src/Front/Fresh/Programs.antt =====
-- internal/lang/parser.go: the calls of a program that was parsed and then linked.

-- The indices at the calls of the program's functions.
use quark_lang.Base.{All, All-append, Bytes, Option, [], none, some, suc, zero, ℕ, ◌∷◌, ◌≡◌}
use quark_lang.Base.Result.{ok}
use quark_lang.Front.Calls.{link_calls}
use quark_lang.Front.Calls.Laws.{BlockIndexed}
use quark_lang.Front.Calls.Linked.{IsFresh, IsLinked, MethodsFresh, link_calls-IsLinked}
use quark_lang.Front.Fresh.Stmts.{methods-Gives, parse_func-Gives, parse_impl-Gives}
use quark_lang.Macro.{Tokens}
use quark_lang.Parser.{Parser, ◌>>=◌}
use quark_lang.Parser.Decls.{parse_func}
use quark_lang.Parser.Gives.{
  Gives, after-Gives, bind-Gives, fail_at-Gives, fail_here-Gives, give_steps, no_fuel-Gives,
  on_word-Gives, pure-Gives, test_if-Gives, then-Gives,
}
use quark_lang.Parser.Programs.{
  add_alias, add_func, add_impl, add_interface, add_library, add_public, add_struct, alias_decl,
  empty_program, func_decl, impl_decl, import_decl, interface_decl, kind_decl, kind_named,
  kind_rest, library_decl, no_decl, parse, parse_program, pub_decl, set_kind, space_decl,
  struct_decl, top_decl, type_decl, word_decl,
}
use quark_lang.Parser.Programs.Valid.{parse-Holds}
use quark_lang.Parser.Stmts.{ended}
use quark_lang.Syntax.{FuncDecl, ImplDecl, Program}
use quark_lang.Token.{Token}

module _ (prog : Program) (v : IsFresh prog) where
  with_func :
      (n : ℕ) (f : FuncDecl → Parser Program)
      → ((d : FuncDecl) → BlockIndexed [] d.body → Gives IsFresh (f d))
      → Gives IsFresh (parse_func n >>= f)
  with_func n f k =
      bind-Gives (λ d. BlockIndexed [] d.body) IsFresh (parse_func n) f (parse_func-Gives [] n) k

  func_decl-Gives : (n : ℕ) → Gives IsFresh (func_decl n prog)
  unfolding func_decl add_func
  func_decl-Gives n =
      with_func n _ λ d h. pure-Gives IsFresh _ (All-append _ prog.funcs (d ∷ []) v.0 (h, tt), v.1)

  pub_decl-Gives : (n : ℕ) → Gives IsFresh (pub_decl n prog)
  unfolding pub_decl add_func add_struct add_public
  pub_decl-Gives n =
      test_if-Gives IsFresh _ _ _
        (with_func n _
          λ d h. pure-Gives IsFresh _ (All-append _ prog.funcs (d ∷ []) v.0 (h, tt), v.1))
        (test_if-Gives IsFresh _ _ _ (after-Gives IsFresh _ _ λ d. pure-Gives IsFresh _ v)
          (fail_here-Gives IsFresh _))

  -- The other declarations leave the functions and the methods as they are.
  kind_rest-Gives : (t : Token) (o : Option Bytes) → Gives IsFresh (kind_rest prog t o)
  unfolding kind_rest set_kind
  kind_rest-Gives t none = fail_at-Gives IsFresh _ _
  kind_rest-Gives t (some k) =
      then-Gives IsFresh _ _
        (test_if-Gives IsFresh _ _ _ (pure-Gives IsFresh _ v) (fail_at-Gives IsFresh _ _))

  type_decl-Gives : (n : ℕ) → Gives IsFresh (type_decl n prog)
  unfolding type_decl struct_decl interface_decl alias_decl add_struct add_interface add_alias
  type_decl-Gives n = search give_steps depth 12

  with_methods : (d : ImplDecl) → MethodsFresh d → IsFresh (add_impl prog d)
  unfolding add_impl
  with_methods d h = (v.0, All-append _ prog.impls (d ∷ []) v.1 (h, tt))

  impl_decl-Gives : (n : ℕ) → Gives IsFresh (impl_decl n prog)
  unfolding impl_decl
  impl_decl-Gives n =
      bind-Gives MethodsFresh IsFresh _ _ (parse_impl-Gives n)
        λ d h. pure-Gives IsFresh _ (with_methods d h)

  space_decl-Gives : (n : ℕ) → Gives IsFresh (space_decl n prog)
  unfolding space_decl
  space_decl-Gives n = then-Gives IsFresh _ _ (
      after-Gives IsFresh _ _ λ start.
        bind-Gives (λ ds. All (λ d. BlockIndexed [] d.body) ds) IsFresh _ _ (methods-Gives n _)
          λ ms h. then-Gives IsFresh _ _ (
            after-Gives IsFresh _ _ λ ty.
              then-Gives IsFresh _ _
                (then-Gives IsFresh _ _ (pure-Gives IsFresh _ (with_methods _ h)))))

  library_decl-Gives : (n : ℕ) (t : Token) → Gives IsFresh (library_decl n prog t)
  unfolding library_decl add_library
  library_decl-Gives n t = search give_steps depth 9

  import_decl-Gives : Gives IsFresh (import_decl prog)
  unfolding import_decl ended
  import_decl-Gives = search give_steps depth 9

  kind_decl-Gives : Gives IsFresh (kind_decl prog)
  unfolding kind_decl
  kind_decl-Gives = after-Gives IsFresh _ _ λ t. kind_rest-Gives t (kind_named t.text)

  word_decl-Gives : (n : ℕ) → Gives IsFresh (word_decl n prog)
  unfolding word_decl no_decl
  word_decl-Gives n =
      search
        (
          on_word-Gives, fail_at-Gives, fail_here-Gives, kind_decl-Gives, type_decl-Gives,
          space_decl-Gives, pub_decl-Gives, library_decl-Gives, import_decl-Gives,
        )
        depth 12

  top_decl-Gives : (n : ℕ) → Gives IsFresh (top_decl n prog)
  unfolding top_decl struct_decl interface_decl add_struct add_interface
  top_decl-Gives n =
      let func = func_decl-Gives n in
      let impl = impl_decl-Gives n in let word = word_decl-Gives n in search give_steps depth 12

parse_program-Gives : (f : ℕ) (prog : Program) → IsFresh prog → Gives IsFresh (parse_program f prog)
unfolding parse_program
parse_program-Gives zero prog v = no_fuel-Gives IsFresh
parse_program-Gives (suc f) prog v =
    test_if-Gives IsFresh _ _ _ (pure-Gives IsFresh prog v)
      (bind-Gives IsFresh IsFresh _ _ (top_decl-Gives prog v (suc f)) (parse_program-Gives f))

-- In every program that `Parse` returns, once its calls are linked, a call of a name in a function has
-- the index of the last function of that name, and no index if no function has it. That is so for the
-- calls in the statements of the function, in calls and in operands of binary operators; the calls in
-- `log` and `delete`, in other expressions and in methods have no index.
pub parse-link_calls : (ts : Tokens) (p : Program) → parse ts ≡ ok p → IsLinked (link_calls p)
parse-link_calls ts p e =
    link_calls-IsLinked p
      (parse-Holds IsFresh (λ f. parse_program-Gives f empty_program (tt, tt)) ts p e)
