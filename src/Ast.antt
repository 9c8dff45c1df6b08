-- ===== src/Ast.antt =====
-- include/mylang/ast.h and ast.c: the syntax tree. An `AstNode` is a tag and a pointer to the struct of
-- that tag: here a constructor with the struct's fields. `AST_BOOL_EXPR` is built nowhere.
use my_lang.Prelude.{ℕ, suc, Option, none, List, Bytes}
use my_lang.Prelude.Int.{ℤ}
use my_lang.Lex.Token.{TokenType}

-- `SymTabEntry *`: the place of the entry in the store of entries; `none` before `sema_check` sets it.
abbrev pub SymbolRef : Type 0
SymbolRef = Option ℕ

-- `struct Param`.
pub record Param : Type 0 where
  pub value : Bytes
  pub type : Bytes
  pub symbol : SymbolRef

-- `Nodes` is a `Vector` of nodes, and `MaybeNode` a pointer that may be NULL.
mutual
  pub data AstNode : Type 0 where
    int_const : ℤ → AstNode
    bin_exp : Bytes → TokenType → AstNode → AstNode → AstNode
    func_def : Bytes → Bytes → AstNode → List Param → SymbolRef → AstNode
    var_def : Bytes → Bytes → MaybeNode → SymbolRef → AstNode
    ident : Bytes → SymbolRef → AstNode
    comp_stmt : Nodes → AstNode
    func_call : Bytes → Nodes → SymbolRef → AstNode
    ret : AstNode → SymbolRef → AstNode
    if_else : AstNode → AstNode → MaybeNode → AstNode
    enum : Bytes → List Bytes → AstNode
    var_dec : Bytes → Bytes → SymbolRef → AstNode
    var_asgn : AstNode → AstNode → AstNode
    while_loop : AstNode → AstNode → AstNode
    for_loop : AstNode → AstNode → AstNode → AstNode → AstNode
    empty_expr : AstNode
    expr_stmt : AstNode → AstNode
    unary_expr : AstNode → Bytes → TokenType → AstNode
    lval : AstNode → AstNode

  pub data Nodes : Type 0 where
    no_nodes : Nodes
    node : AstNode → Nodes → Nodes

  pub data MaybeNode : Type 0 where
    null : MaybeNode
    just : AstNode → MaybeNode

-- `args->length`
abbrev pub nodes_length : Nodes → ℕ
nodes_length no_nodes = 0
nodes_length (node a rest) = suc (nodes_length rest)

abbrev pub make_ast_lval : AstNode → AstNode
make_ast_lval ident_node = lval ident_node

abbrev pub make_ast_unary_expr : AstNode → Bytes → TokenType → AstNode
make_ast_unary_expr postfix_expr value op_type = unary_expr postfix_expr value op_type

abbrev pub make_expr_stmt : AstNode → AstNode
make_expr_stmt expr = expr_stmt expr

abbrev pub make_ast_enum : Bytes → List Bytes → AstNode
make_ast_enum value enums = enum value enums

abbrev pub make_ast_comp_stmt : Nodes → AstNode
make_ast_comp_stmt body = comp_stmt body

abbrev pub make_int_const : ℤ → AstNode
make_int_const value = int_const value

abbrev pub make_ast_bin_exp : Bytes → TokenType → AstNode → AstNode → AstNode
make_ast_bin_exp value op_type left right = bin_exp value op_type left right

abbrev pub make_ast_func_def : Bytes → Bytes → AstNode → List Param → AstNode
make_ast_func_def value type body params = func_def value type body params none

abbrev pub make_ast_ident : Bytes → AstNode
make_ast_ident value = ident value none

abbrev pub make_ast_ret : AstNode → AstNode
make_ast_ret expr = ret expr none

abbrev pub make_ast_func_call : Bytes → Nodes → AstNode
make_ast_func_call value args = func_call value args none

abbrev pub make_ast_var_dec : Bytes → Bytes → AstNode
make_ast_var_dec value type = var_dec value type none

abbrev pub make_ast_var_asgn : AstNode → AstNode → AstNode
make_ast_var_asgn lval_node rval = var_asgn lval_node rval

abbrev pub make_ast_var_def : Bytes → Bytes → MaybeNode → AstNode
make_ast_var_def value type expr = var_def value type expr none

abbrev pub make_ast_if_else : AstNode → AstNode → MaybeNode → AstNode
make_ast_if_else if_expr if_body else_body = if_else if_expr if_body else_body

abbrev pub make_ast_while : AstNode → AstNode → AstNode
make_ast_while expr body = while_loop expr body

abbrev pub make_ast_for : AstNode → AstNode → AstNode → AstNode → AstNode
make_ast_for init cond step body = for_loop init cond step body
