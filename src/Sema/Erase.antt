-- ===== src/Sema/Erase.antt =====
-- sema.c: the tree without its pointers to entries, before and behind `sym_check`.
use my_lang.Prelude.{
  ℕ, ◌≡◌, refl, ap, Option, none, some, List, [], ◌∷◌, length, Outcome, ok, stop, Stop, Post,
  returns, stops, Post-bind, Post-ok, Bytes, lift, ◌++◌,
}
use my_lang.HashMap.Table.{HashMap}
use my_lang.Symbol.{TypeEnvEntry, SymTabEntry, make_symtab_entry, sym_variable, sym_function}
use my_lang.Ast.{
  Param, AstNode, int_const, bin_exp, func_def, var_def, ident, comp_stmt, func_call, ret, if_else,
  enum, var_dec, var_asgn, while_loop, for_loop, empty_expr, expr_stmt, unary_expr, lval, Nodes,
  no_nodes, node, MaybeNode, null, just, nodes_length,
}
use my_lang.Sema.Scope.{scope_lookup, make_stack_frame}
use my_lang.Sema.State.{
  Sema, Check, add_entry, type_named, in_block, enter, leave, mark_used, function_of, check_new,
}
use my_lang.Sema.Names.{
  sym_check, sym_nodes, sym_maybe, sym_init, sym_params, sym_function_head, use_variable,
  use_function, new_variable, sym_enums,
}

unfoldable pub erase_params : List Param → List Param
erase_params [] = []
erase_params (p ∷ ps) = record p { symbol = none } ∷ erase_params ps

unfoldable mutual
  unfolding erase_params

  pub erase : AstNode → AstNode
  erase (int_const value) = int_const value
  erase (bin_exp value op left right) = bin_exp value op (erase left) (erase right)
  erase (func_def value type body params symbol) =
      func_def value type (erase body) (erase_params params) none
  erase (var_def value type expr symbol) = var_def value type (erase_maybe expr) none
  erase (ident value symbol) = ident value none
  erase (comp_stmt body) = comp_stmt (erase_nodes body)
  erase (func_call value args symbol) = func_call value (erase_nodes args) none
  erase (ret expr func) = ret (erase expr) none
  erase (if_else if_expr if_body else_body) =
      if_else (erase if_expr) (erase if_body) (erase_maybe else_body)
  erase (enum value enums) = enum value enums
  erase (var_dec value type symbol) = var_dec value type none
  erase (var_asgn left right) = var_asgn (erase left) (erase right)
  erase (while_loop expr body) = while_loop (erase expr) (erase body)
  erase (for_loop init cond step body) =
      for_loop (erase init) (erase cond) (erase step) (erase body)
  erase empty_expr = empty_expr
  erase (expr_stmt expr) = expr_stmt (erase expr)
  erase (unary_expr expr value op) = unary_expr (erase expr) value op
  erase (lval ident_node) = lval (erase ident_node)

  pub erase_nodes : Nodes → Nodes
  erase_nodes no_nodes = no_nodes
  erase_nodes (node a rest) = node (erase a) (erase_nodes rest)

  pub erase_maybe : MaybeNode → MaybeNode
  erase_maybe null = null
  erase_maybe (just a) = just (erase a)

abbrev Any : Stop → Type 0
Any e = Unit

anything : {A : Type 0} (r : Outcome A) → Post (λ (a : A). Unit {0}) Any r
anything (ok a) = returns tt
anything (stop e) = stops tt

-- The value that is left, if there is one, looks like `b`.
abbrev Leaves : {A B : Type 0} → (A → B) → B → Outcome (A × Sema) → Type 0
Leaves {A} f b r = Post (λ (x : A × Sema). f x.0 ≡ b) Any r

module _ (type_env : HashMap TypeEnvEntry) where
  params-Leaves :
      (ps : List Param) (s : Sema)
      → Leaves erase_params (erase_params ps) (sym_params type_env ps s)
  unfolding sym_params erase_params
  params-Leaves [] s = returns refl
  params-Leaves (p ∷ ps) s =
      Post-bind (anything (lift (type_named type_env p.type) s)) λ (ts, s₁) _.
        let entry = make_symtab_entry p.value ts sym_variable in
        Post-bind
          (anything (
            add_entry (length s₁.entries) entry (record s₁ { entries = s₁.entries ++ entry ∷ [] })))
          λ (_, s₂) _.
            Post-bind (params-Leaves ps s₂)
              λ (rest, s₃) e. returns (ap (λ z. record p { symbol = none } ∷ z) e)

  head-Leaves :
      (value type : Bytes) (ps : List Param) (s : Sema)
      → Leaves
          (λ (x : List Param × ℕ × ℕ). erase_params x.0)
          (erase_params ps)
          (sym_function_head type_env value type ps s)
  unfolding sym_function_head
  head-Leaves value type ps s = Post-bind (anything (check_new value s)) λ (_, s₁) _.
      Post-bind (params-Leaves ps (record s₁ { frames = s₁.frames ++ make_stack_frame value ∷ [] }))
        λ (ps', s₂) e. Post-bind (anything (lift (type_named type_env type) s₂)) λ (ts, s₃) _.
          let entry : SymTabEntry = record (make_symtab_entry value ts sym_function) {
            params = some ps';
            frame = some (length s₁.frames);
          } in
          Post-bind
            (anything (
              add_entry (length s₃.entries) entry (record s₃ {
                entries = s₃.entries ++ entry ∷ [];
                symbols = s₃.symbols ++ length s₃.entries ∷ [];
              })))
            λ (_, s₄) _. returns e

  use_variable-Leaves :
      (value : Bytes) (o : Option ℕ) (s : Sema)
      → Leaves erase (ident value none) (use_variable value o s)
  unfolding use_variable erase
  use_variable-Leaves value none s = stops tt
  use_variable-Leaves value (some place) s =
      Post-bind (anything (mark_used place s)) λ (e, s₁) _. returns refl

  in_block-Leaves :
      {A B : Type 0} (f : A → B) (b : B) (m : Check A) (s : Sema)
      → ((s : Sema) → Leaves f b (m s))
      → Leaves f b (in_block m s)
  unfolding in_block
  in_block-Leaves f b m s h = Post-bind (anything (enter s)) λ (_, s₁) _.
      Post-bind (h s₁) λ (a, s₂) e. Post-bind (anything (leave s₂)) λ (_, s₃) _. returns e

  mutual
    unfolding sym_check erase

    check-Leaves :
        (a : AstNode) (frame : Option ℕ) (s : Sema)
        → Leaves erase (erase a) (sym_check type_env a frame s)
    check-Leaves (comp_stmt body) frame s =
        Post-bind
          (in_block-Leaves erase_nodes (erase_nodes body) (sym_nodes type_env body frame) s
            (nodes-Leaves body frame))
          λ (b, s₁) e. returns (ap comp_stmt e)
    check-Leaves (if_else if_expr if_body else_body) frame s =
        Post-bind (check-Leaves if_body frame s) λ (b, s₁) eb.
          Post-bind (check-Leaves if_expr frame s₁)
            λ (c, s₂) ec. Post-bind (maybe-Leaves else_body frame s₂) λ (m, s₃) em. returns (cc)
    check-Leaves (var_def value type expr symbol) frame s =
        Post-bind (anything (check_new value s)) λ (_, s₁) _.
          Post-bind (init-Leaves expr frame s₁) λ (e, s₂) ee.
            Post-bind (anything (new_variable type_env value type frame s₂))
              λ ((place, entry), s₃) _.
                Post-bind
                  (anything
                    (add_entry place entry (record s₃ { symbols = s₃.symbols ++ place ∷ [] })))
                  λ (_, s₄) _. returns (cc)
    check-Leaves (bin_exp value op left right) frame s =
        Post-bind (check-Leaves left frame s)
          λ (l, s₁) el. Post-bind (check-Leaves right frame s₁) λ (r, s₂) er. returns (cc)
    check-Leaves (int_const value) frame s = returns refl
    check-Leaves (func_def value type body params symbol) frame s =
        Post-bind (head-Leaves value type params s) λ ((ps, f, place), s₁) ep.
          Post-bind (check-Leaves body (some f) s₁) λ (b, s₂) eb. returns (cc)
    check-Leaves (ident value symbol) frame s =
        use_variable-Leaves value (scope_lookup s.scope value) s
    check-Leaves (func_call value args symbol) frame s =
        Post-bind (anything (use_function (nodes_length args) (scope_lookup s.scope value) s))
          λ (place, s₁) _. Post-bind (nodes-Leaves args frame s₁) λ (as', s₂) e. returns (cc)
    check-Leaves (ret expr func) frame s =
        Post-bind (anything (function_of frame s))
          λ (name, s₀) _. Post-bind (check-Leaves expr frame s₀) λ (e, s₁) ee. returns (cc)
    check-Leaves (enum value enums) frame s =
        Post-bind (anything (sym_enums 0 enums s)) λ (_, s₁) _. returns refl
    check-Leaves (var_dec value type symbol) frame s =
        Post-bind (anything (check_new value s)) λ (_, s₁) _.
          Post-bind (anything (new_variable type_env value type frame s₁)) λ ((place, entry), s₂) _.
            Post-bind (anything (add_entry place entry s₂)) λ (_, s₃) _. returns refl
    check-Leaves (var_asgn left right) frame s =
        Post-bind (check-Leaves left frame s)
          λ (l, s₁) el. Post-bind (check-Leaves right frame s₁) λ (r, s₂) er. returns (cc)
    check-Leaves (while_loop expr body) frame s =
        Post-bind (check-Leaves expr frame s)
          λ (l, s₁) el. Post-bind (check-Leaves body frame s₁) λ (r, s₂) er. returns (cc)
    check-Leaves (for_loop init cond step body) frame s =
        in_block-Leaves erase (erase (for_loop init cond step body)) _ s λ s.
          Post-bind (check-Leaves init frame s) λ (a, s₁) ea.
            Post-bind (check-Leaves cond frame s₁) λ (b, s₂) eb.
              Post-bind (check-Leaves step frame s₂)
                λ (c, s₃) ec. Post-bind (check-Leaves body frame s₃) λ (d, s₄) ed. returns (cc)
    check-Leaves (expr_stmt expr) frame s =
        Post-bind (check-Leaves expr frame s) λ (e, s₁) ee. returns (cc)
    check-Leaves (unary_expr expr value op) frame s =
        Post-bind (check-Leaves expr frame s) λ (e, s₁) ee. returns (cc)
    check-Leaves (lval ident_node) frame s =
        Post-bind (check-Leaves ident_node frame s) λ (e, s₁) ee. returns (cc)
    check-Leaves empty_expr frame s = returns refl

    nodes-Leaves :
        (as' : Nodes) (frame : Option ℕ) (s : Sema)
        → Leaves erase_nodes (erase_nodes as') (sym_nodes type_env as' frame s)
    nodes-Leaves no_nodes frame s = returns refl
    nodes-Leaves (node a rest) frame s =
        Post-bind (check-Leaves a frame s)
          λ (a', s₁) ea. Post-bind (nodes-Leaves rest frame s₁) λ (r, s₂) er. returns (cc)

    maybe-Leaves :
        (m : MaybeNode) (frame : Option ℕ) (s : Sema)
        → Leaves erase_maybe (erase_maybe m) (sym_maybe type_env m frame s)
    maybe-Leaves null frame s = returns refl
    maybe-Leaves (just a) frame s = Post-bind (check-Leaves a frame s) λ (a', s₁) e. returns (cc)

    init-Leaves :
        (m : MaybeNode) (frame : Option ℕ) (s : Sema)
        → Leaves erase_maybe (erase_maybe m) (sym_init type_env m frame s)
    init-Leaves null frame s = stops tt
    init-Leaves (just a) frame s = Post-bind (check-Leaves a frame s) λ (a', s₁) e. returns (cc)

-- `sym_check` writes to nothing of a tree but its pointers to entries: where it returns, the trees are the
-- same without them.
pub erase-sym_check :
    (type_env : HashMap TypeEnvEntry) (a a' : AstNode) (frame : Option ℕ) (s s' : Sema)
    → sym_check type_env a frame s ≡ ok (a', s')
    → erase a' ≡ erase a
erase-sym_check type_env a a' frame s s' e = Post-ok (check-Leaves type_env a frame s) e
