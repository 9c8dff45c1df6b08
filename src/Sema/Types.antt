-- ===== src/Sema/Types.antt =====
-- sema.c: `type_check`, over the tree and the entries that `sym_check` leaves.
use my_lang.Prelude.{ℕ, true, false, none, some, List, Outcome, ok, stop, Stop, bind, ◌==◌}
use my_lang.Symbol.{
  SymTabEntry, TypeSpecifier, ts_int, ts_void, ts_char, ts_long, ts_double, ts_float,
}
use my_lang.Ast.{
  SymbolRef, AstNode, int_const, bin_exp, func_def, var_def, ident, comp_stmt, func_call, ret,
  if_else, enum, var_dec, var_asgn, while_loop, for_loop, empty_expr, expr_stmt, unary_expr, lval,
  Nodes, no_nodes, node, MaybeNode, null, just,
}
use my_lang.Sema.State.{entry_at}

-- The number that C gives the enumerator.
abbrev pub ts_number : TypeSpecifier → ℕ
ts_number ts_int = 0
ts_number ts_void = 1
ts_number ts_char = 2
ts_number ts_long = 3
ts_number ts_double = 4
ts_number ts_float = 5

-- "Type Error" ends the compiler; the first type is returned.
unfoldable pub assert_type_eq : TypeSpecifier → TypeSpecifier → Outcome TypeSpecifier
assert_type_eq type1 type2 = elim (ts_number type1 == ts_number type2) [
  | true ↦ ok type1
  | false ↦ stop Stop.failure
]

module _ (entries : List SymTabEntry) where
  -- `symbol->type`
  unfoldable pub type_of_symbol : SymbolRef → Outcome TypeSpecifier
  type_of_symbol none = stop Stop.null_pointer
  type_of_symbol (some place) = bind (entry_at entries place) λ entry. ok entry.type

  -- AST_LVAL: `as` of a node that is no identifier is read as one.
  unfoldable pub type_of_lval : AstNode → Outcome TypeSpecifier
  unfolding type_of_symbol
  type_of_lval (ident value symbol) = type_of_symbol symbol
  type_of_lval other = stop Stop.undefined

  unfoldable mutual
    unfolding assert_type_eq type_of_symbol type_of_lval

    pub type_check : AstNode → Outcome TypeSpecifier
    type_check (comp_stmt body) = bind (type_nodes body) λ _. ok ts_void
    type_check (if_else if_expr if_body else_body) =
        bind (type_check if_body) λ _. bind (type_maybe else_body) λ _. ok ts_void
    type_check (var_def value type expr symbol) = bind (type_of_symbol symbol) λ expected.
        bind (type_init expr) λ actual. bind (assert_type_eq expected actual) λ _. ok ts_void
    type_check (bin_exp value op left right) =
        bind (type_check left)
          λ expected. bind (type_check left) λ actual. assert_type_eq expected actual
    type_check (int_const value) = ok ts_int
    type_check (func_def value type body params symbol) = bind (type_check body) λ _. ok ts_void
    type_check (ident value symbol) = type_of_symbol symbol
    type_check (func_call value args symbol) = type_of_symbol symbol
    type_check (ret expr func) =
        bind (type_of_symbol func)
          λ expected. bind (type_check expr) λ actual. assert_type_eq expected actual
    type_check (var_asgn left right) =
        bind (type_check left)
          λ expected. bind (type_check right) λ actual. assert_type_eq expected actual
    type_check (while_loop expr body) = type_check body
    type_check (for_loop init cond step body) = type_check body
    type_check (expr_stmt expr) = type_check expr
    type_check (unary_expr expr value op) = type_check expr
    type_check (enum value enums) = ok ts_void
    type_check (var_dec value type symbol) = ok ts_void
    type_check empty_expr = ok ts_void
    type_check (lval ident_node) = type_of_lval ident_node

    pub type_nodes : Nodes → Outcome (Unit {0})
    type_nodes no_nodes = ok tt
    type_nodes (node a rest) = bind (type_check a) λ _. type_nodes rest

    pub type_maybe : MaybeNode → Outcome (Unit {0})
    type_maybe null = ok tt
    type_maybe (just a) = bind (type_check a) λ _. ok tt

    pub type_init : MaybeNode → Outcome TypeSpecifier
    type_init null = stop Stop.null_pointer
    type_init (just a) = type_check a
