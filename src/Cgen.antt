-- ===== src/Cgen.antt =====
-- compiler/internal/cgen/cgen.go: the syntax tree of the compiler to LLVM. A list of expressions or of
-- statements is a type of its own, and the operator "!", which has one operand, is a constructor.
pub mod Meta
pub mod Fold
pub mod Parser
mod Tests
use quark_lang.Base.{Bool, Bytes, List, ℕ}

mutual
  pub data CExpr : Type 0 where
    -- An int64 is the natural number below 2 ^ 64 that has its bits.
    k_int : ℕ → CExpr
    k_string k_ident : Bytes → CExpr
    k_bin k_cmp k_and_or : Bytes → CExpr → CExpr → CExpr
    k_not : CExpr → CExpr
    k_bool : Bool → CExpr
    k_call : Bytes → CExprs → CExpr
    k_list k_struct_lit : CExprs → CExpr
    k_index : Bytes → CExpr → CExpr
    k_method : Bytes → Bytes → CExprs → CExpr

  pub data CExprs : Type 0 where
    no_items : CExprs
    item_and : CExpr → CExprs → CExprs

mutual
  pub data CStmt : Type 0 where
    println_stmt : CExprs → CStmt
    -- The name, the type and the value.
    decl : Bytes → Bytes → CExpr → CStmt
    assign : Bytes → CExpr → CStmt
    branch : CExpr → CBlock → CBlock → CStmt
    loop : CExpr → CBlock → CStmt
    give : CExpr → CStmt
    plain_expr : CExpr → CStmt
    index_assign : Bytes → CExpr → CExpr → CStmt
    attempt : CBlock → CBlock → CStmt
    free : Bytes → CStmt

  pub data CBlock : Type 0 where
    stop : CBlock
    stmt_then : CStmt → CBlock → CBlock

-- `funcDef`; the receiver's type and name are empty for a function.
pub record FuncDef : Type 0 where
  pub name : Bytes
  pub params : List Bytes
  pub ret : Bytes
  pub body : CBlock
  pub self_typ : Bytes
  pub self_param : Bytes

pub record StructDef : Type 0 where
  pub name : Bytes
  pub fields : List Bytes
