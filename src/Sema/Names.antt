-- ===== src/Sema/Names.antt =====
-- sema.c: `sym_check`. The tree is written to in place: here the tree with its pointers set is returned.
use my_lang.Prelude.{
  ℕ, suc, Option, none, some, List, [], ◌∷◌, length, ◌==◌, if◌then◌else◌, Stop, ◌>>=◌, ◌>>◌, pure,
  fail, lift, initialized, Bytes,
}
use my_lang.Symbol.{
  SymTabEntry, TypeEnvEntry, make_symtab_entry, sym_variable, sym_function, sym_const, ts_int,
}
use my_lang.Ast.{
  Param, AstNode, int_const, bin_exp, func_def, var_def, ident, comp_stmt, func_call, ret, if_else,
  enum, var_dec, var_asgn, while_loop, for_loop, empty_expr, expr_stmt, unary_expr, lval, Nodes,
  no_nodes, node, MaybeNode, null, just, nodes_length,
}
use my_lang.HashMap.Table.{HashMap}
use my_lang.Sema.State.{
  Check, in_block, lookup, check_new, allocate, new_frame, push_symbol, add_entry, mark_used,
  add_slot, function_of, type_named,
}

-- AST_ENUM: a constant for each name, from `i` on.
unfoldable pub sym_enums : ℕ → List Bytes → Check (Unit {0})
sym_enums i [] = pure tt
sym_enums i (name ∷ names) = do
  let entry = record (make_symtab_entry name ts_int sym_const) { const_value = some i }
  place ← allocate entry
  add_entry place entry
  sym_enums (suc i) names

-- AST_IDENT, behind the lookup.
unfoldable pub use_variable : Bytes → Option ℕ → Check AstNode
use_variable value none = fail Stop.failure
use_variable value (some place) = do _ ← mark_used place; pure (ident value (some place))

-- AST_FUNC_CALL, behind the lookup: `entry->params` is read before the test for NULL.
unfoldable pub use_function : ℕ → Option ℕ → Check ℕ
use_function count none = fail Stop.null_pointer
use_function count (some place) = do
  entry ← mark_used place
  params ← initialized entry.params
  if length params == count then pure place else fail Stop.failure

module _ (type_env : HashMap TypeEnvEntry) where
  -- The loop over the parameters of a function: each is put in the scope that the function stands in.
  unfoldable pub sym_params : List Param → Check (List Param)
  sym_params [] = pure []
  sym_params (p ∷ ps) = do
    ts ← lift (type_named type_env p.type)
    let entry = make_symtab_entry p.value ts sym_variable
    place ← allocate entry
    add_entry place entry
    rest ← sym_params ps
    pure (record p { symbol = some place } ∷ rest)

  -- AST_FUNC_DEF before the body: the parameters and the frame are returned with the function's entry.
  unfoldable pub sym_function_head : Bytes → Bytes → List Param → Check (List Param × ℕ × ℕ)
  unfolding sym_params type_named
  sym_function_head value type params = do
    check_new value
    frame ← new_frame value
    params' ← sym_params params
    ts ← lift (type_named type_env type)
    let entry = record (make_symtab_entry value ts sym_function) {
      params = some params';
      frame = some frame;
    }
    place ← allocate entry
    push_symbol place
    add_entry place entry
    pure (params', frame, place)

  -- A variable with a word of the frame; a definition is looked at by `warn_unused`.
  unfoldable pub new_variable : Bytes → Bytes → Option ℕ → Check (ℕ × SymTabEntry)
  unfolding type_named add_slot
  new_variable value type frame = do
    ts ← lift (type_named type_env type)
    offset ← add_slot frame
    let entry = record (make_symtab_entry value ts sym_variable) { offset = some offset }
    place ← allocate entry
    pure (place, entry)

  unfoldable mutual
    unfolding in_block sym_enums use_variable use_function sym_function_head new_variable
        function_of

    pub sym_check : AstNode → Option ℕ → Check AstNode
    sym_check (comp_stmt body) frame = do
      body' ← in_block (sym_nodes body frame)
      pure (comp_stmt body')
    sym_check (if_else if_expr if_body else_body) frame = do
      if_body' ← sym_check if_body frame
      if_expr' ← sym_check if_expr frame
      else_body' ← sym_maybe else_body frame
      pure (if_else if_expr' if_body' else_body')
    sym_check (var_def value type expr symbol) frame = do
      check_new value
      expr' ← sym_init expr frame
      (place, entry) ← new_variable value type frame
      push_symbol place
      add_entry place entry
      pure (var_def value type expr' (some place))
    sym_check (bin_exp value op left right) frame = do
      left' ← sym_check left frame
      right' ← sym_check right frame
      pure (bin_exp value op left' right')
    sym_check (int_const value) frame = pure (int_const value)
    sym_check (func_def value type body params symbol) frame = do
      (params', frame', place) ← sym_function_head value type params
      body' ← sym_check body (some frame')
      pure (func_def value type body' params' (some place))
    sym_check (ident value symbol) frame = do entry ← lookup value; use_variable value entry
    sym_check (func_call value args symbol) frame = do
      entry ← lookup value
      place ← use_function (nodes_length args) entry
      args' ← sym_nodes args frame
      pure (func_call value args' (some place))
    sym_check (ret expr func) frame = do
      name ← function_of frame
      entry ← lookup name
      expr' ← sym_check expr frame
      pure (ret expr' entry)
    sym_check (enum value enums) frame = do sym_enums 0 enums; pure (enum value enums)
    sym_check (var_dec value type symbol) frame = do
      check_new value
      (place, entry) ← new_variable value type frame
      add_entry place entry
      pure (var_dec value type (some place))
    sym_check (var_asgn left right) frame = do
      left' ← sym_check left frame
      right' ← sym_check right frame
      pure (var_asgn left' right')
    sym_check (while_loop expr body) frame = do
      expr' ← sym_check expr frame
      body' ← sym_check body frame
      pure (while_loop expr' body')
    sym_check (for_loop init cond step body) frame = do
      in_block (do
        init' ← sym_check init frame
        cond' ← sym_check cond frame
        step' ← sym_check step frame
        body' ← sym_check body frame
        pure (for_loop init' cond' step' body'))
    sym_check (expr_stmt expr) frame = do expr' ← sym_check expr frame; pure (expr_stmt expr')
    sym_check (unary_expr expr value op) frame = do
      expr' ← sym_check expr frame
      pure (unary_expr expr' value op)
    sym_check (lval ident_node) frame = do
      ident_node' ← sym_check ident_node frame
      pure (lval ident_node')
    sym_check empty_expr frame = pure empty_expr

    pub sym_nodes : Nodes → Option ℕ → Check Nodes
    sym_nodes no_nodes frame = pure no_nodes
    sym_nodes (node a rest) frame = do
      a' ← sym_check a frame
      rest' ← sym_nodes rest frame
      pure (node a' rest')

    -- `else_body`, which may be NULL.
    pub sym_maybe : MaybeNode → Option ℕ → Check MaybeNode
    sym_maybe null frame = pure null
    sym_maybe (just a) frame = do a' ← sym_check a frame; pure (just a')

    -- `var_def->expr`, which is read through.
    pub sym_init : MaybeNode → Option ℕ → Check MaybeNode
    sym_init null frame = fail Stop.null_pointer
    sym_init (just a) frame = do a' ← sym_check a frame; pure (just a')
