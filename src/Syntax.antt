-- ===== src/Syntax.antt =====
-- internal/lang/ast.go: expressions, statements and declarations. A list or an optional part of a
-- node's own type is a type or a constructor of its own; a float literal keeps its decimal text. The
-- names that the checker fills in later (`StructLit.Name`) are not represented.

use quark_lang.Base.{Bool, Bytes, List, Option, ℕ}
use quark_lang.Macro.{Pos}

mutual
  pub data Expr : Type 0 where
    int_lit : ℕ → Pos → Expr
    float_lit str_lit ident : Bytes → Pos → Expr
    bool_lit : Bool → Pos → Expr
    null_lit : Pos → Expr
    list_lit : Exprs → Expr
    struct_lit : Fields → Pos → Expr
    new_expr : Bytes → Pos → Expr
    new_sized : Bytes → Expr → Pos → Expr
    bin_expr : Bytes → Expr → Expr → Pos → Expr
    un_expr : Bytes → Expr → Pos → Expr
    -- The last number is the index that `FnIdx` holds, none for -1.
    call_expr : Expr → Exprs → Pos → Option ℕ → Expr
    -- A call with the name and the arguments of a signature.
    signed_call : Expr → Exprs → Bytes → Exprs → Pos → Option ℕ → Expr
    member_expr : Expr → Bytes → Pos → Expr
    scope_call : Bytes → Bytes → Exprs → Pos → Expr
    index_expr : Expr → Expr → Pos → Expr

  pub data Exprs : Type 0 where
    no_exprs : Exprs
    expr_and : Expr → Exprs → Exprs

  -- A field without a name has the empty one.
  pub data Fields : Type 0 where
    no_fields : Fields
    field_and : Bytes → Expr → Fields → Fields

mutual
  pub data Stmt : Type 0 where
    expr_stmt : Expr → Stmt
    log_stmt delete_stmt return_stmt : Expr → Pos → Stmt
    return_none break_stmt : Pos → Stmt
    try_stmt : Block → Bytes → Bytes → Block → Pos → Stmt
    if_stmt : Expr → Block → Stmt
    if_else : Expr → Block → Block → Stmt
    while_stmt : Expr → Block → Stmt
    for_stmt : Bytes → Expr → Block → Pos → Stmt
    -- The name, the type and the decoration.
    decl_stmt : Bytes → Bytes → Bytes → Pos → Stmt
    decl_init : Bytes → Bytes → Expr → Bytes → Pos → Stmt
    assign_stmt : Expr → Expr → Pos → Stmt

  pub data Block : Type 0 where
    no_stmts : Block
    stmt_and : Stmt → Block → Block

-- `Param` and `Member`.
pub record Param : Type 0 where
  pub name : Bytes
  pub typ : Bytes
  pub pos : Pos

pub record FuncDecl : Type 0 where
  pub name : Bytes
  pub type_params : List Bytes
  pub params : List Param
  pub ret : Bytes
  pub body : Block
  pub body_start : Pos
  pub body_end : Option Pos
  pub pos : Pos

pub record StructDecl : Type 0 where
  pub name : Bytes
  pub type_params : List Bytes
  pub members : List Param
  pub pos : Pos

pub record MethodSig : Type 0 where
  pub name : Bytes
  pub params : List Param
  pub ret : Bytes
  pub dynamic : Bool
  pub pos : Pos

pub record InterfaceDecl : Type 0 where
  pub name : Bytes
  pub methods : List MethodSig
  pub expands : List Bytes
  pub pos : Pos

pub record ImplDecl : Type 0 where
  pub iface : Bytes
  pub typ : Bytes
  pub type_params : List Bytes
  pub methods : List FuncDecl
  pub pos : Pos

pub record LibraryDecl : Type 0 where
  pub name : Bytes
  pub lib : Bytes
  pub methods : List MethodSig
  pub pos : Pos

pub record TypeAlias : Type 0 where
  pub name : Bytes
  pub typ : Bytes
  pub pos : Pos

pub record Program : Type 0 where
  pub funcs : List FuncDecl
  pub structs : List StructDecl
  pub libraries : List LibraryDecl
  pub interfaces : List InterfaceDecl
  pub impls : List ImplDecl
  pub type_aliases : List TypeAlias
  pub kind : Bytes
  pub imports : List Bytes
  pub public_names : List Bytes
