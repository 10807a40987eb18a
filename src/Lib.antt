-- ===== src/Lib.antt =====
-- QuarkLang: a model of the language front end, with its proofs.
--
-- The program (Go) is an interpreter and a C compiler for the QuarkLang language. A source is turned
-- into tokens (internal/lang/token.go), macro definitions are taken out of them and macro calls
-- expanded (internal/lang/macro.go), and the rest is parsed (internal/lang/parser.go), checked and run.
--
-- Base: Boolean tests, lists over the native numbers, texts as lists of bytes, association lists for Go
--   maps, the result type of a fallible run, integers.
-- Token, Token.Names: `TokenKind`, `Token`, `keywords`, `tokenNames`.
-- Lexer.State, Lexer.Literals, Lexer: the lexer of token.go. Its state is the unread rest of the source
--   and a position. Lexer.Shrink, Lexer.Progress, Lexer.Words and
--   Lexer.Strings hold the proofs.
-- Macro: macro.go. Macro.Balance has `takeBalancedPair` and `splitTop`, Macro.Body `expandBody`,
--   Macro.Expand `ExpandMacros`, Macro.Define `SplitMacroDefs`; the proofs stand below them.
-- Memory: `MemoryManager` and its blocks (internal/lang/eval.go); Memory.Heap is `container/heap` on
--   its array of blocks. Memory.Laws has the invariant, Memory.Alloc what `Alloc` grants, Memory.Reach
--   the managers that a run can come to. The map and the heap hold ids in place of pointers; the order
--   in which Go goes through the map is an argument.
-- Scope: `scope` (internal/lang/eval.go). Scope.Laws is about `set` and `get`, Scope.Declare about
--   `declare`.
-- Rolling: `List`, the rolling list (internal/lang/value.go), with the writes that it makes through to
--   the memory manager; `AppendAll` is that of another list. Rolling.Laws shows that it is the queue of
--   its visible elements, Rolling.Index is on `Get` and `setIndex`, Rolling.Copies on `AppendAll` and
--   `copyVisible`.
-- Types: the checker's types, `assignable` and `join` (internal/lang/typecheck.go), and in
--   Types.CheckScope the scopes of the checker; Types.Show is `Type.String`.
-- Value: `Value`, its kinds and their names (internal/lang/value.go). Floats are of a type that is a
--   parameter.
-- Overload: `bestMatchV` and `overloadErr` (internal/lang/eval.go) and `bestMatchT`
--   (internal/lang/typecheck.go); Overload.Choice is on the loop that both share, Overload.Laws on what
--   each of them chooses.
-- Operators: `binOp`, `arith`, `cmp` and `equalValues` (internal/lang/eval.go).
--   An int64 is the natural number below 2 ^ 64 that has its bits. Operators.Pow2 is on `pow2`,
--   Operators.Division on `/` and `%`, Operators.Arith on arithmetic, Operators.Laws on equality.
-- Syntax: expressions, statements, declarations and programs (internal/lang/ast.go).
-- Parser: the parser (internal/lang/parser.go) as steps on the tokens that are left. Parser.Types is
--   `parseType`, Parser.Exprs the expressions from `parsePrimary` to `parseExpr`, Parser.Lists the loops
--   over members, Parser.Stmts `parseStmt` and `parseBlock`, Parser.Decls functions, structures,
--   interfaces and implementations, and Parser.Programs `parseProgram` and `Parse`. Parser.Steps and
--   Parser.Steps.Rules say what a step and a chain of steps read, and each part has a module Ends on
--   that; Parser.Gives and Parser.Programs.Valid are on the program that is returned.
-- Front: `compileSlow` (internal/lang/parser.go) up to the syntax tree: the lexer, the macros and the
--   parser in turn; Front.Calls has `walkNode`, `walkCallRefs` and the indices of calls, with
--   their laws in Laws and Linked and the second walk in Twice, and Front.Fresh what is known of the
--   calls before. Macro.Stream and the modules Stream and Inner below Macro are on
--   the end of file that the macros keep.
-- Cgen: the compiler to LLVM (compiler/internal/cgen/cgen.go). Cgen.Meta is `fnMeta`, `analyzeStmt`,
--   `programMeta`, `reachesSelf` and `fnAttrs`, a Go map being an association list; below it Walk is on
--   the search in the call graph, Calls and Attrs on the analysis and the attributes of one function,
--   and Program on those of a program, where calls by name and the functions handed to `sum` are
--   followed and method calls are not. Cgen.Fold is `constEval` and `scanAssigned`. Cgen.Parser is the
--   compiler's own parser on bytes, from `skipSpace` to `parseProgram`; Cgen.Parser.Steps and
--   Cgen.Parser.Steps.Rules say what a chain of its steps reads, and each part has a module Ends. The
--   search runs on one unit of fuel for each function and one more, and the parser on one for each
--   byte and one more.
-- CtxPool: `newCtx` and `putCtx` (internal/lang/value.go) as a step relation on shared memory, whose
--   steps are the loads, the reads of `link`, each write of it, and the swaps; CtxPool.Invariant and
--   CtxPool.Single are on the runs in which one thread takes, CtxPool.Progress on a thread that runs alone.
--
-- A result is a value, an error of the program, or `out_of_fuel`. The loops of `Lex`, `SplitMacroDefs`,
-- `ExpandMacros` and `expandBody` run on the fuel of one round per byte or token and one more, and those
-- of the parser on one unit for each token, which is proved to be enough.
--
-- Byte counts, positions, and the memory manager's counters and sizes are natural numbers without an
-- upper bound; the ints of a program wrap as in the code. The loops of `container/heap` and `pow2` run
-- on a number of rounds that their indices cannot exceed.
--
-- Not modelled: the evaluation of expressions and statements, the checker's inference, the LLVM text
-- that the compiler writes; float values (a literal keeps its decimal text, and operators take the
-- operations on floats as a parameter), the text of error messages, files, the debugger, foreign
-- functions, threads and the screen.

pub mod Base
pub mod Lexer
pub mod Macro
pub mod Memory
pub mod Scope
pub mod Token
pub mod Rolling
pub mod Types
pub mod Value
pub mod Overload
pub mod Operators
pub mod Syntax
pub mod Parser
pub mod Front
pub mod Cgen
pub mod CtxPool
