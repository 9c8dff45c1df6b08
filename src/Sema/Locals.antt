-- ===== src/Sema/Locals.antt =====
-- sema.c: the places of the variables of a function, in the order in which the walk comes to them.
use my_lang.Prelude.{
  ℕ, ◌≡◌, ap, ◌∙◌, Option, none, some, Bool, true, false, List, [], ◌∷◌, ◌++◌, ok, returns, stops,
  Post-bind, Post-ok, Bytes,
}
use my_lang.HashMap.Table.{HashMap}
use my_lang.Symbol.{TypeEnvEntry}
use my_lang.Ast.{
  SymbolRef, AstNode, int_const, bin_exp, func_def, var_def, ident, comp_stmt, func_call, ret,
  if_else, enum, var_dec, var_asgn, while_loop, for_loop, empty_expr, expr_stmt, unary_expr, lval,
  Nodes, no_nodes, node, MaybeNode, null, just, nodes_length,
}
use my_lang.Sema.Scope.{scope_lookup}
use my_lang.Sema.State.{Sema}
use my_lang.Sema.Names.{sym_check, sym_nodes, sym_maybe, sym_init, use_variable}
use my_lang.Sema.Slots.{size_at, Slots, Whose, ours, other, Stacked, seq, still}
use my_lang.Sema.Stacking.{
  Stacks, same_entries, add_entry-Stacks, check_new-Stacks, mark_used-Stacks,
}
use my_lang.Sema.Taking.{
  new_variable-Stacks, sym_enums-Stacks, sym_function_head-Stacks, in_block-Stacks,
  use_function-Stacks, function_of-Stacks,
}

abbrev pub placed : SymbolRef → List ℕ
placed none = []
placed (some place) = place ∷ []

-- A function inside has a frame of its own.
unfoldable mutual
  pub locals : AstNode → List ℕ
  locals (int_const value) = []
  locals (bin_exp value op left right) = locals left ++ locals right
  locals (func_def value type body params symbol) = []
  locals (var_def value type expr symbol) = locals_maybe expr ++ placed symbol
  locals (ident value symbol) = []
  locals (comp_stmt body) = locals_nodes body
  locals (func_call value args symbol) = locals_nodes args
  locals (ret expr func) = locals expr
  locals (if_else if_expr if_body else_body) =
      locals if_body ++ (locals if_expr ++ locals_maybe else_body)
  locals (enum value enums) = []
  locals (var_dec value type symbol) = placed symbol
  locals (var_asgn left right) = locals left ++ locals right
  locals (while_loop expr body) = locals expr ++ locals body
  locals (for_loop init cond step body) =
      locals init ++ (locals cond ++ (locals step ++ locals body))
  locals empty_expr = []
  locals (expr_stmt expr) = locals expr
  locals (unary_expr expr value op) = locals expr
  locals (lval ident_node) = locals ident_node

  pub locals_nodes : Nodes → List ℕ
  locals_nodes no_nodes = []
  locals_nodes (node a rest) = locals a ++ locals_nodes rest

  pub locals_maybe : MaybeNode → List ℕ
  locals_maybe null = []
  locals_maybe (just a) = locals a

use_variable-Stacks :
    (f : ℕ) (b : Bool) (value : Bytes) (o : Option ℕ) → Stacks f b locals (use_variable value o)
unfolding use_variable locals
use_variable-Stacks f b value none s z h = stops tt
use_variable-Stacks f b value (some place) s z h =
    Post-bind (mark_used-Stacks f b place s z h) λ (e, s₁) k. returns k

module _ (type_env : HashMap TypeEnvEntry) (f : ℕ) where
  mutual
    unfolding sym_check locals

    check-Stacks :
        (a : AstNode) (g : Option ℕ) (b : Bool)
        → Whose f g b
        → Stacks f b locals (sym_check type_env a g)
    check-Stacks (comp_stmt body) g b w s z h =
        Post-bind
          (in_block-Stacks type_env locals_nodes (sym_nodes type_env body g)
            (nodes-Stacks body g b w) s z h)
          λ (b', s₁) k. returns k
    check-Stacks (if_else if_expr if_body else_body) g b w s z h =
        Post-bind (check-Stacks if_body g b w s z h) λ (_, s₁) k₁.
          Post-bind (check-Stacks if_expr g b w s₁ k₁.top k₁.size) λ (_, s₂) k₂.
            Post-bind (maybe-Stacks else_body g b w s₂ k₂.top k₂.size)
              λ (_, s₃) k₃. returns (seq k₁ (seq k₂ k₃))
    check-Stacks (var_def value type expr symbol) g b w s z h =
        Post-bind (check_new-Stacks f b value s z h) λ (_, s₁) k₁.
          Post-bind (init-Stacks expr g b w s₁ k₁.top k₁.size) λ (_, s₂) k₂.
            Post-bind (new_variable-Stacks type_env value type g w s₂ k₂.top k₂.size)
              λ ((place, entry), s₃) k₃.
                let k₄ : Stacked f b k₃.top [] s₃
                    (record s₃ { symbols = s₃.symbols ++ place ∷ [] }) =
                  still (same_entries s₃.entries) k₃.size in
                Post-bind (add_entry-Stacks f b place entry _ k₄.top k₄.size)
                  λ (_, s₅) k₅. returns (seq k₁ (seq k₂ (seq k₃ (seq k₄ k₅))))
    check-Stacks (bin_exp value op left right) g b w s z h =
        Post-bind (check-Stacks left g b w s z h) λ (_, s₁) k₁.
          Post-bind (check-Stacks right g b w s₁ k₁.top k₁.size) λ (_, s₂) k₂. returns (seq k₁ k₂)
    check-Stacks (int_const value) g b w s z h = returns (still (same_entries s.entries) h)
    check-Stacks (func_def value type body params symbol) g b w s z h =
        Post-bind (sym_function_head-Stacks type_env value type params s z h)
          λ ((ps, f', place), s₁) (k₁, n).
            Post-bind (check-Stacks body (some f') false (other n) s₁ k₁.top (k₁.size))
              λ (_, s₂) k₂. returns (seq k₁ (still k₂.kept (k₂.size ∙ ap some k₂.slots)))
    check-Stacks (ident value symbol) g b w s z h =
        use_variable-Stacks f b value (scope_lookup s.scope value) s z h
    check-Stacks (func_call value args symbol) g b w s z h =
        Post-bind
          (use_function-Stacks type_env (nodes_length args) (scope_lookup s.scope value) s z h)
          λ (_, s₁) k₁.
            Post-bind (nodes-Stacks args g b w s₁ k₁.top k₁.size) λ (_, s₂) k₂. returns (seq k₁ k₂)
    check-Stacks (ret expr func) g b w s z h =
        Post-bind (function_of-Stacks type_env g s z h) λ (_, s₁) k₁.
          Post-bind (check-Stacks expr g b w s₁ k₁.top k₁.size) λ (_, s₂) k₂. returns (seq k₁ k₂)
    check-Stacks (enum value enums) g b w s z h =
        Post-bind (sym_enums-Stacks type_env 0 enums s z h) λ (_, s₁) k. returns k
    check-Stacks (var_dec value type symbol) g b w s z h =
        Post-bind (check_new-Stacks f b value s z h) λ (_, s₁) k₁.
          Post-bind (new_variable-Stacks type_env value type g w s₁ k₁.top k₁.size)
            λ ((place, entry), s₂) k₂.
              Post-bind (add_entry-Stacks f b place entry s₂ k₂.top k₂.size)
                λ (_, s₃) k₃. returns (seq k₁ (seq k₂ k₃))
    check-Stacks (var_asgn left right) g b w s z h =
        Post-bind (check-Stacks left g b w s z h) λ (_, s₁) k₁.
          Post-bind (check-Stacks right g b w s₁ k₁.top k₁.size) λ (_, s₂) k₂. returns (seq k₁ k₂)
    check-Stacks (while_loop expr body) g b w s z h =
        Post-bind (check-Stacks expr g b w s z h) λ (_, s₁) k₁.
          Post-bind (check-Stacks body g b w s₁ k₁.top k₁.size) λ (_, s₂) k₂. returns (seq k₁ k₂)
    check-Stacks (for_loop init cond step body) g b w s z h =
        in_block-Stacks type_env locals _
          (λ s z h. Post-bind (check-Stacks init g b w s z h) λ (_, s₁) k₁.
            Post-bind (check-Stacks cond g b w s₁ k₁.top k₁.size) λ (_, s₂) k₂.
              Post-bind (check-Stacks step g b w s₂ k₂.top k₂.size) λ (_, s₃) k₃.
                Post-bind (check-Stacks body g b w s₃ k₃.top k₃.size)
                  λ (_, s₄) k₄. returns (seq k₁ (seq k₂ (seq k₃ k₄))))
          s z h
    check-Stacks (expr_stmt expr) g b w s z h =
        Post-bind (check-Stacks expr g b w s z h) λ (_, s₁) k. returns k
    check-Stacks (unary_expr expr value op) g b w s z h =
        Post-bind (check-Stacks expr g b w s z h) λ (_, s₁) k. returns k
    check-Stacks (lval ident_node) g b w s z h =
        Post-bind (check-Stacks ident_node g b w s z h) λ (_, s₁) k. returns k
    check-Stacks empty_expr g b w s z h = returns (still (same_entries s.entries) h)

    nodes-Stacks :
        (as' : Nodes) (g : Option ℕ) (b : Bool)
        → Whose f g b
        → Stacks f b locals_nodes (sym_nodes type_env as' g)
    nodes-Stacks no_nodes g b w s z h = returns (still (same_entries s.entries) h)
    nodes-Stacks (node a rest) g b w s z h = Post-bind (check-Stacks a g b w s z h) λ (_, s₁) k₁.
        Post-bind (nodes-Stacks rest g b w s₁ k₁.top k₁.size) λ (_, s₂) k₂. returns (seq k₁ k₂)

    maybe-Stacks :
        (m : MaybeNode) (g : Option ℕ) (b : Bool)
        → Whose f g b
        → Stacks f b locals_maybe (sym_maybe type_env m g)
    maybe-Stacks null g b w s z h = returns (still (same_entries s.entries) h)
    maybe-Stacks (just a) g b w s z h =
        Post-bind (check-Stacks a g b w s z h) λ (_, s₁) k. returns k

    init-Stacks :
        (m : MaybeNode) (g : Option ℕ) (b : Bool)
        → Whose f g b
        → Stacks f b locals_maybe (sym_init type_env m g)
    init-Stacks null g b w s z h = stops tt
    init-Stacks (just a) g b w s z h = Post-bind (check-Stacks a g b w s z h) λ (_, s₁) k. returns k

-- In a function, the variables that `sym_check` comes to in a tree get consecutive words of the stack
-- frame: where it returns, they have the offsets from the frame's size before on, in steps of 4, in the
-- order in which it comes to them, and the frame ends behind the last.
pub sym_check-Slots :
    (type_env : HashMap TypeEnvEntry) (a a' : AstNode) (f z : ℕ) (s s' : Sema)
    → size_at s.frames f ≡ some z
    → sym_check type_env a (some f) s ≡ ok (a', s')
    → (top : ℕ) × (size_at s'.frames f ≡ some top) × Slots s'.entries z (locals a') top
sym_check-Slots type_env a a' f z s s' h e =
    let k = Post-ok (check-Stacks type_env f a (some f) true ours s z h) e in
    (k.top, k.size, k.slots)
