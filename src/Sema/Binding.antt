-- ===== src/Sema/Binding.antt =====
-- sema.c: the trees that `sym_check` leaves.
use my_lang.Prelude.{ℕ, ◌>>=◌, pure, Option, some, length, arith, returns, stops, Post-bind}
use my_lang.HashMap.Table.{HashMap}
use my_lang.Symbol.{TypeEnvEntry}
use my_lang.Ast.{
  AstNode, int_const, bin_exp, func_def, var_def, ident, comp_stmt, func_call, ret, if_else, enum,
  var_dec, var_asgn, while_loop, for_loop, empty_expr, expr_stmt, unary_expr, lval, Nodes, no_nodes,
  node, MaybeNode, null, just, nodes_length,
}
use my_lang.Sema.Scope.{scope_lookup}
use my_lang.Sema.State.{Check}
use my_lang.Sema.Names.{sym_check, sym_nodes, sym_maybe, sym_init}
use my_lang.Sema.Resolved.{
  ArePlaced-mono, IsResolved, AreResolved, IsMaybeResolved, IsInitialized, IsPlaced-mono,
  IsResolved-mono, IsInitialized-mono,
}
use my_lang.Sema.Later.{Later-trans, Within-Later, scope_lookup-lt}
use my_lang.Sema.Steps.{Walks, unchanged, check_new-Done}
use my_lang.Sema.Walk.{in_block-Done, add_entry-Done, pushed-Done}
use my_lang.Sema.Entries.{
  sym_enums-Done, sym_function_head-Done, new_variable-Done, use_variable-Done, use_function-Done,
  function_of-Named,
}

-- The four parts of a `for`, one behind the other.
pub for-Walks :
    {m₁ m₂ m₃ m₄ : Check AstNode} (frame : Option ℕ)
    → Walks frame IsResolved m₁
    → Walks frame IsResolved m₂
    → Walks frame IsResolved m₃
    → Walks frame IsResolved m₄
    → Walks frame IsResolved
        (do init' ← m₁; cond' ← m₂; step' ← m₃; body' ← m₄; pure (for_loop init' cond' step' body'))
unfolding IsResolved
for-Walks frame walks_init walks_cond walks_step walks_body s w i =
    Post-bind (walks_init s w i) λ (a, s₁) d₁.
      let i₁ = Within-Later frame d₁.later i in
      Post-bind (walks_cond s₁ d₁.well i₁) λ (b, s₂) d₂.
        let i₂ = Within-Later frame d₂.later i₁ in
        Post-bind (walks_step s₂ d₂.well i₂) λ (c, s₃) d₃.
          Post-bind (walks_body s₃ d₃.well (Within-Later frame d₃.later i₂)) λ (d, s₄) d₄.
            let g₃ = Later-trans d₃.later d₄.later in
            let g₂ = Later-trans d₂.later g₃ in
            returns (record {
              well = d₄.well;
              later = Later-trans d₁.later g₂;
              result = (
                IsResolved-mono g₂.grown a d₁.result,
                IsResolved-mono g₃.grown b d₂.result,
                IsResolved-mono d₄.later.grown c d₃.result,
                d₄.result,
              );
            })

module _ (type_env : HashMap TypeEnvEntry) where
  mutual
    unfolding sym_check IsResolved

    pub check-Walks :
        (a : AstNode) (frame : Option ℕ) → Walks frame IsResolved (sym_check type_env a frame)
    check-Walks (comp_stmt body) frame s w i =
        Post-bind (in_block-Done frame (nodes-Walks body frame) s w i)
          λ (body', s₁) d. returns (record { well = d.well; later = d.later; result = d.result })
    check-Walks (if_else if_expr if_body else_body) frame s w i =
        Post-bind (check-Walks if_body frame s w i) λ (b, s₁) d₁.
          let i₁ = Within-Later frame d₁.later i in
          Post-bind (check-Walks if_expr frame s₁ d₁.well i₁) λ (e, s₂) d₂.
            Post-bind (maybe-Walks else_body frame s₂ d₂.well (Within-Later frame d₂.later i₁))
              λ (m, s₃) d₃. returns (record {
                well = d₃.well;
                later = Later-trans d₁.later (Later-trans d₂.later d₃.later);
                result = (
                  IsResolved-mono d₃.later.grown e d₂.result,
                  IsResolved-mono (omega (arith, d₂.later.grown, d₃.later.grown)) b d₁.result,
                  d₃.result,
                );
              })
    check-Walks (var_def value type expr symbol) frame s w i =
        Post-bind (check_new-Done value s w) λ (_, s₁) d₁.
          Post-bind (init-Walks expr frame s₁ d₁.well (Within-Later frame d₁.later i)) λ (e, s₂) d₂.
            Post-bind (new_variable-Done type_env value type frame s₂ d₂.well)
              λ ((place, entry), s₃) d₃.
                Post-bind (pushed-Done place entry s₃ d₃.result d₃.well) λ (_, s₄) d₄.
                  returns (record {
                    well = d₄.well;
                    later =
                        Later-trans d₁.later (Later-trans d₂.later (Later-trans d₃.later d₄.later));
                    result = (
                      IsInitialized-mono (omega (arith, d₃.later.grown, d₄.later.grown)) e
                          d₂.result,
                      omega (arith, d₃.result, d₄.later.grown),
                    );
                  })
    check-Walks (bin_exp value op left right) frame s w i =
        Post-bind (check-Walks left frame s w i) λ (l, s₁) d₁.
          Post-bind (check-Walks right frame s₁ d₁.well (Within-Later frame d₁.later i))
            λ (r, s₂) d₂. returns (record {
              well = d₂.well;
              later = Later-trans d₁.later d₂.later;
              result = (IsResolved-mono d₂.later.grown l d₁.result, d₂.result);
            })
    check-Walks (int_const value) frame s w i = returns (unchanged s w tt)
    check-Walks (func_def value type body params symbol) frame s w i =
        Post-bind (sym_function_head-Done type_env value type params s w)
          λ ((ps, f, place), s₁) (d₁, i₁, known).
            Post-bind (check-Walks body (some f) s₁ d₁.well i₁) λ (b, s₂) d₂. returns (record {
              well = d₂.well;
              later = Later-trans d₁.later d₂.later;
              result = (
                d₂.result,
                omega (arith, d₁.result.0, d₂.later.grown),
                ArePlaced-mono d₂.later.grown ps d₁.result.1,
              );
            })
    check-Walks (ident value symbol) frame s w i =
        use_variable-Done type_env value (scope_lookup s.scope value) s w
          λ place e. scope_lookup-lt (length s.entries) s.scope value place w.below e
    check-Walks (func_call value args symbol) frame s w i =
        Post-bind
          (use_function-Done type_env (nodes_length args) (scope_lookup s.scope value) s w
            λ place e. scope_lookup-lt (length s.entries) s.scope value place w.below e)
          λ (place, s₁) d₁.
            Post-bind (nodes-Walks args frame s₁ d₁.well (Within-Later frame d₁.later i))
              λ (as', s₂) d₂. returns (record {
                well = d₂.well;
                later = Later-trans d₁.later d₂.later;
                result = (d₂.result, omega (arith, d₁.result, d₂.later.grown));
              })
    check-Walks (ret expr func) frame s w i =
        Post-bind (function_of-Named type_env frame s w i) λ (name, s₀) (w₀, i₀, l₀, placed).
          Post-bind (check-Walks expr frame s₀ w₀ i₀) λ (e, s₁) d. returns (record {
            well = d.well;
            later = Later-trans l₀ d.later;
            result = (d.result, IsPlaced-mono d.later.grown (scope_lookup s₀.scope name) placed);
          })
    check-Walks (enum value enums) frame s w i =
        Post-bind (sym_enums-Done type_env 0 enums s w)
          λ (_, s₁) d. returns (record { well = d.well; later = d.later; result = tt })
    check-Walks (var_dec value type symbol) frame s w i =
        Post-bind (check_new-Done value s w) λ (_, s₁) d₁.
          Post-bind (new_variable-Done type_env value type frame s₁ d₁.well)
            λ ((place, entry), s₂) d₂.
              Post-bind (add_entry-Done place entry s₂ d₂.result d₂.well) λ (_, s₃) (d₃, k).
                returns (record {
                  well = d₃.well;
                  later = Later-trans d₁.later (Later-trans d₂.later d₃.later);
                  result = omega (arith, d₂.result, d₃.later.grown);
                })
    check-Walks (var_asgn left right) frame s w i =
        Post-bind (check-Walks left frame s w i) λ (l, s₁) d₁.
          Post-bind (check-Walks right frame s₁ d₁.well (Within-Later frame d₁.later i))
            λ (r, s₂) d₂. returns (record {
              well = d₂.well;
              later = Later-trans d₁.later d₂.later;
              result = (IsResolved-mono d₂.later.grown l d₁.result, d₂.result);
            })
    check-Walks (while_loop expr body) frame s w i =
        Post-bind (check-Walks expr frame s w i) λ (l, s₁) d₁.
          Post-bind (check-Walks body frame s₁ d₁.well (Within-Later frame d₁.later i))
            λ (r, s₂) d₂. returns (record {
              well = d₂.well;
              later = Later-trans d₁.later d₂.later;
              result = (IsResolved-mono d₂.later.grown l d₁.result, d₂.result);
            })
    check-Walks (for_loop init cond step body) frame s w i =
        in_block-Done frame
          (for-Walks frame (check-Walks init frame) (check-Walks cond frame)
            (check-Walks step frame) (check-Walks body frame))
          s w i
    check-Walks (expr_stmt expr) frame s w i =
        Post-bind (check-Walks expr frame s w i)
          λ (e, s₁) d. returns (record { well = d.well; later = d.later; result = d.result })
    check-Walks (unary_expr expr value op) frame s w i =
        Post-bind (check-Walks expr frame s w i)
          λ (e, s₁) d. returns (record { well = d.well; later = d.later; result = d.result })
    check-Walks (lval ident_node) frame s w i =
        Post-bind (check-Walks ident_node frame s w i)
          λ (e, s₁) d. returns (record { well = d.well; later = d.later; result = d.result })
    check-Walks empty_expr frame s w i = returns (unchanged s w tt)

    pub nodes-Walks :
        (as' : Nodes) (frame : Option ℕ) → Walks frame AreResolved (sym_nodes type_env as' frame)
    nodes-Walks no_nodes frame s w i = returns (unchanged s w tt)
    nodes-Walks (node a rest) frame s w i = Post-bind (check-Walks a frame s w i) λ (a', s₁) d₁.
        Post-bind (nodes-Walks rest frame s₁ d₁.well (Within-Later frame d₁.later i)) λ (r, s₂) d₂.
          returns (record {
            well = d₂.well;
            later = Later-trans d₁.later d₂.later;
            result = (IsResolved-mono d₂.later.grown a' d₁.result, d₂.result);
          })

    maybe-Walks :
        (m : MaybeNode) (frame : Option ℕ)
        → Walks frame IsMaybeResolved (sym_maybe type_env m frame)
    maybe-Walks null frame s w i = returns (unchanged s w tt)
    maybe-Walks (just a) frame s w i =
        Post-bind (check-Walks a frame s w i)
          λ (a', s₁) d. returns (record { well = d.well; later = d.later; result = d.result })

    init-Walks :
        (m : MaybeNode) (frame : Option ℕ) → Walks frame IsInitialized (sym_init type_env m frame)
    init-Walks null frame s w i = stops (cc)
    init-Walks (just a) frame s w i =
        Post-bind (check-Walks a frame s w i)
          λ (a', s₁) d. returns (record { well = d.well; later = d.later; result = d.result })
