-- ===== src/Parser/Decls/Ends.antt =====
-- internal/lang/parser.go: the declarations end.

use quark_lang.Base.{Bool, Bytes, codes, suc, zero, ℕ}
use quark_lang.Parser.Decls.{
  expand_rest, impl_names, interface_line, interface_name, maybe_type_params, name_in_parens,
  parse_func, parse_impl, parse_interface, parse_member, parse_method_sig, parse_param,
  parse_param_list, parse_struct, parse_struct_name, return_type, signature, skip_params,
  type_param, type_params_rest,
}
use quark_lang.Parser.Exprs.Ends.{parse_type-Good}
use quark_lang.Parser.Lists.Ends.{comma_list-Strict, until_brace-Good}
use quark_lang.Parser.Steps.{Good, Strict, Strict-Good, Strict-zero, pure-Good}
use quark_lang.Parser.Steps.Rules.{
  any_token-Strict, bind-Strict, bind-Strict_drop, expect-Strict, good_steps, on_word-Strict,
  strict_steps,
}
use quark_lang.Parser.Stmts.{parse_block, parse_stmt}
use quark_lang.Parser.Stmts.Ends.{parse_block-Strict, parse_stmt-Strict}

module _ (n : ℕ) where
  parse_param-Strict : Strict n (parse_param n)
  unfolding parse_param
  parse_param-Strict = search (bind-Strict, expect-Strict, good_steps, parse_type-Good) depth 9

  parse_param_list-Good : Good n (parse_param_list n)
  unfolding parse_param_list
  parse_param_list-Good =
      let ps = Strict-Good n _ (comma_list-Strict (parse_param n) n parse_param-Strict) in
      search good_steps depth 9

  type_param-Strict : Strict n type_param
  unfolding type_param
  type_param-Strict = search (bind-Strict, expect-Strict, good_steps)

  maybe_type_params-Good : Good n (maybe_type_params n)
  unfolding maybe_type_params type_params_rest
  maybe_type_params-Good =
      let ts = Strict-Good n _ (comma_list-Strict type_param n type_param-Strict) in
      search good_steps depth 9

  return_type-Good : (name : Bytes) → Good n (return_type n name)
  unfolding return_type
  return_type-Good name = search (good_steps, parse_type-Good) depth 9

  parse_stmt_block-Good : Good n (parse_block n (parse_stmt n))
  parse_stmt_block-Good = Strict-Good n _ (parse_block-Strict n _ (parse_stmt-Strict n))

  pub parse_func-Strict : Strict n (parse_func n)
  unfolding parse_func
  parse_func-Strict =
      search
        (
          bind-Strict, expect-Strict, good_steps, maybe_type_params-Good, parse_param_list-Good,
          return_type-Good, parse_stmt_block-Good,
        )
        depth 24

  parse_member-Strict : Strict n (parse_member n)
  unfolding parse_member
  parse_member-Strict = search (bind-Strict, expect-Strict, good_steps, parse_type-Good) depth 9

  name_in_parens-Good : (what : Bytes) → Good n (name_in_parens what)
  unfolding name_in_parens
  name_in_parens-Good what = search good_steps

  parse_struct_name-Good : Good n parse_struct_name
  unfolding parse_struct_name
  parse_struct_name-Good = search (good_steps, name_in_parens-Good)

  pub parse_struct-Strict : Strict n (parse_struct n)
  unfolding parse_struct
  parse_struct-Strict =
      let ms =
        until_brace-Good (parse_member n) n (codes "struct body (missing '}')")
          parse_member-Strict in
      search
        (bind-Strict, expect-Strict, good_steps, maybe_type_params-Good, parse_struct_name-Good)
        depth 16

  pub signature-Strict :
      (what missing : Bytes) (dyn : Bool) → Strict n (signature n what missing dyn)
  unfolding signature
  signature-Strict what missing dyn =
      search (bind-Strict, expect-Strict, good_steps, parse_param_list-Good, parse_type-Good) depth
        20

  signature-Good : (what missing : Bytes) (dyn : Bool) → Good n (signature n what missing dyn)
  signature-Good what missing dyn = Strict-Good n _ (signature-Strict what missing dyn)

  parse_method_sig-Strict : Strict n (parse_method_sig n)
  unfolding parse_method_sig
  parse_method_sig-Strict = search (on_word-Strict, signature-Strict, signature-Good)

  expand_rest-Good : Good n expand_rest
  unfolding expand_rest
  expand_rest-Good = search good_steps depth 9

  interface_line-Strict : Strict n (interface_line n)
  unfolding interface_line
  interface_line-Strict =
      search (strict_steps, good_steps, expand_rest-Good, parse_method_sig-Strict) depth 12

skip_params-Good : (f d : ℕ) → Good f (skip_params f d)
unfolding skip_params
skip_params-Good f zero = pure-Good f tt
skip_params-Good zero (suc d) = Strict-Good 0 _ (Strict-zero _)
skip_params-Good (suc f) (suc d) =
    Strict-Good (suc f) _
      (bind-Strict_drop f _ _ (any_token-Strict (suc f) _) λ t. skip_params-Good f _)

module _ (n : ℕ) where
  interface_name-Good : Good n (interface_name n)
  unfolding interface_name
  interface_name-Good = search (good_steps, name_in_parens-Good, skip_params-Good) depth 12

  pub parse_interface-Strict : Strict n (parse_interface n)
  unfolding parse_interface
  parse_interface-Strict =
      let ls =
        until_brace-Good (interface_line n) n (codes "interface body (missing '}')")
          (interface_line-Strict n) in
      search (bind-Strict, expect-Strict, good_steps, interface_name-Good) depth 16

  impl_names-Good : Good n impl_names
  unfolding impl_names
  impl_names-Good = search good_steps depth 9

  pub parse_impl-Strict : Strict n (parse_impl n)
  unfolding parse_impl
  parse_impl-Strict =
      let ms =
        until_brace-Good (parse_func n) n (codes "impl body (missing '}')") (parse_func-Strict n) in
      search (bind-Strict, expect-Strict, good_steps, maybe_type_params-Good, impl_names-Good) depth
        20
