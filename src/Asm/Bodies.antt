-- ===== src/Asm/Bodies.antt =====
-- asm.c: what the code of a statement adds.
use my_lang.Prelude.{ℕ, refl, [], ◌∷◌, ◌++◌, arith, returns, stops}
use my_lang.Ast.{
  SymbolRef, AstNode, func_def, var_def, comp_stmt, ret, if_else, enum, var_dec, while_loop,
  for_loop, empty_expr, expr_stmt, Nodes, no_nodes, node, MaybeNode, null, just,
}
use my_lang.Asm.Target.{
  LabelKind, lbl_for, lbl_while, lbl_else, no_suffix, end_suffix, cond_suffix, body_suffix,
  step_suffix, Label, cond_label, label,
}
use my_lang.Asm.State.{Riscv, free_register, create_base_cond_label}
use my_lang.Asm.Gen.{
  restore_frame, eval_discarded, ret_expr, ret_value, gen_ret, eval_maybe, gen_var_def,
  branch_if_zero, gen_for_init, gen_for_cond, gen_expr_stmt, gen_node, gen_nodes, gen_maybe,
}
use my_lang.Asm.Machine.{find_label}
use my_lang.Asm.Registers.{symbol_at-Keeps}
use my_lang.Asm.Balance.{frame_size_of-Keeps}
use my_lang.Asm.Labels.{
  Extends, Lower, Lower-grows, Extends-trans, plain-Extends, same-Extends, same-Adds, label-Extends,
  Adds, after, Adds-bind, Adds-extend,
}
use my_lang.Asm.Starts.{
  if_start, if_start-Extends, while_start, while_start-Extends, for_start, for_start-Extends,
}
use my_lang.Asm.Extending.{eval_asm-Adds, initialized-Adds}

-- No function stands inside.
unfoldable mutual
  pub IsStatement : AstNode → Type 0
  IsStatement (func_def value type body params symbol) = ⊥
  IsStatement (if_else e body else_body) = IsStatement body × MaybeStatement else_body
  IsStatement (comp_stmt body) = AreStatements body
  IsStatement (while_loop e body) = IsStatement body
  IsStatement (for_loop init cond step body) = IsStatement body
  IsStatement other = Unit

  pub AreStatements : Nodes → Type 0
  AreStatements no_nodes = Unit
  AreStatements (node a rest) = IsStatement a × AreStatements rest

  pub MaybeStatement : MaybeNode → Type 0
  MaybeStatement null = Unit
  MaybeStatement (just a) = IsStatement a

module _ {lo : LabelKind → ℕ} where
  eval_discarded-Adds : (e : AstNode) (s : Riscv) → Lower lo s → Adds lo s (eval_discarded e s)
  unfolding eval_discarded free_register
  eval_discarded-Adds e s h =
      Adds-bind _ h (eval_asm-Adds e s h)
        λ x s₁ h₁. returns (same-Extends s₁ _ refl refl (λ k. refl))

  ret_expr-Adds : (e : AstNode) (s : Riscv) → Lower lo s → Adds lo s (ret_expr e s)
  unfolding ret_expr free_register find_label
  ret_expr-Adds e s h = after (plain-Extends s _ _ refl refl (λ k. refl) (λ k n t. refl)) (
      Adds-bind _ h (eval_asm-Adds e (record s { out = _ }) h)
        λ x s₁ h₁. returns (plain-Extends s₁ _ _ refl refl (λ k. refl) (λ k n t. refl)))

  ret_value-Adds : (e : AstNode) (s : Riscv) → Lower lo s → Adds lo s (ret_value e s)
  unfolding ret_value
  ret_value-Adds empty_expr s h = returns (same-Extends s s refl refl (λ k. refl))
  ret_value-Adds e s h = ret_expr-Adds e s h

  gen_ret-Adds :
      (e : AstNode) (func : SymbolRef) (s : Riscv) → Lower lo s → Adds lo s (gen_ret e func s)
  unfolding gen_ret restore_frame find_label
  gen_ret-Adds e func s h = Adds-bind _ h (same-Adds (symbol_at-Keeps func s)) λ entry s₁ h₁.
      Adds-bind _ h₁ (same-Adds (frame_size_of-Keeps entry s₁)) λ size s₂ h₂.
        Adds-bind _ h₂ (ret_value-Adds e s₂ h₂) λ u s₃ h₃. returns (
          Extends-trans (plain-Extends s₃ _ _ refl refl (λ k. refl) (λ k n t. refl)) (
            Extends-trans
              (plain-Extends (record s₃ { out = _ }) _ _ refl refl (λ k. refl) (λ k n t. refl))
              (Extends-trans
                (plain-Extends (record s₃ { out = _ }) _ _ refl refl (λ k. refl) (λ k n t. refl))
                (Extends-trans
                  (plain-Extends (record s₃ { out = _ }) _ _ refl refl (λ k. refl) (λ k n t. refl))
                  (plain-Extends (record s₃ { out = _ }) _ _ refl refl (λ k. refl)
                    (λ k n t. refl))))))

  gen_var_def-Adds :
      (e : MaybeNode) (symbol : SymbolRef) (s : Riscv)
      → Lower lo s
      → Adds lo s (gen_var_def e symbol s)
  unfolding gen_var_def eval_maybe free_register find_label
  gen_var_def-Adds e symbol s h =
      Adds-bind _ h (same-Adds (symbol_at-Keeps symbol s)) λ entry s₁ h₁.
        Adds-bind _ h₁ (initialized-Adds entry.offset s₁) λ offset s₂ h₂.
          after (plain-Extends s₂ _ _ refl refl (λ k. refl) (λ k n t. refl)) (
            Adds-bind _ h₂ (value e (record s₂ { out = _ }) h₂)
              λ x s₃ h₃. returns (plain-Extends s₃ _ _ refl refl (λ k. refl) (λ k n t. refl)))
    where
      value : (e : MaybeNode) (s : Riscv) → Lower lo s → Adds lo s (eval_maybe e s)
      value null s h = stops tt
      value (just e) s h = eval_asm-Adds e s h

  pub branch_if_zero-Adds :
      (e : AstNode) (target : Label) (s : Riscv)
      → Lower lo s
      → Adds lo s (branch_if_zero e target s)
  unfolding branch_if_zero free_register find_label
  branch_if_zero-Adds e target s h =
      Adds-bind _ h (eval_asm-Adds e s h)
        λ x s₁ h₁. returns (plain-Extends s₁ _ _ refl refl (λ k. refl) (λ k n t. refl))

  pub gen_for_init-Adds : (e : AstNode) (s : Riscv) → Lower lo s → Adds lo s (gen_for_init e s)
  unfolding gen_for_init
  gen_for_init-Adds (var_dec value type symbol) s h =
      returns (same-Extends s s refl refl (λ k. refl))
  gen_for_init-Adds (var_def value type e symbol) s h = gen_var_def-Adds e symbol s h
  gen_for_init-Adds empty_expr s h = returns (same-Extends s s refl refl (λ k. refl))
  gen_for_init-Adds e s h = eval_discarded-Adds e s h

  pub gen_for_cond-Adds :
      (e : AstNode) (target : Label) (s : Riscv) → Lower lo s → Adds lo s (gen_for_cond e target s)
  unfolding gen_for_cond
  gen_for_cond-Adds empty_expr target s h = returns (same-Extends s s refl refl (λ k. refl))
  gen_for_cond-Adds e target s h = branch_if_zero-Adds e target s h

  pub gen_expr_stmt-Adds : (e : AstNode) (s : Riscv) → Lower lo s → Adds lo s (gen_expr_stmt e s)
  unfolding gen_expr_stmt
  gen_expr_stmt-Adds empty_expr s h = returns (same-Extends s s refl refl (λ k. refl))
  gen_expr_stmt-Adds e s h = eval_discarded-Adds e s h

  mutual
    unfolding gen_node create_base_cond_label IsStatement find_label

    node-Adds : (a : AstNode) (s : Riscv) → Lower lo s → IsStatement a → Adds lo s (gen_node a s)
    node-Adds (ret e func) s h p = gen_ret-Adds e func s h
    node-Adds (if_else e body else_body) s h p =
        let s₂ = if_start s in
        let x₂ : Extends lo s s₂ = if_start-Extends s h in
        after x₂ (
          Adds-extend _ (branch_if_zero-Adds e _ s₂ (Lower-grows h x₂)) λ u s₃ x₃.
            Adds-extend _ (node-Adds body s₃ (Lower-grows (Lower-grows h x₂) x₃) p.0) λ u s₄ x₄.
              let s₅ : Riscv = record s₄ {
                out = s₄.out ++ label (cond_label lbl_else s.else_count no_suffix) ∷ [];
              } in
              let h₄ = Lower-grows (Lower-grows (Lower-grows h x₂) x₃) x₄ in
              let g₂ = x₂.grows lbl_else in
              let g₃ = x₃.grows lbl_else in
              let g₄ = x₄.grows lbl_else in
              after
                (label-Extends s₄ s₅ lbl_else s.else_count no_suffix refl refl (λ k. refl)
                  (h lbl_else) (omega arith))
                (maybe-Adds else_body s₅ h₄ p.1))
    node-Adds (comp_stmt body) s h p = nodes-Adds body s h p
    node-Adds (func_def value type body params symbol) s h p = elim p [ ]
    node-Adds (var_def value type e symbol) s h p = gen_var_def-Adds e symbol s h
    node-Adds (while_loop e body) s h p =
        let s₂ = while_start s in
        let x₂ : Extends lo s s₂ = while_start-Extends s h in
        after x₂ (
          Adds-extend _ (branch_if_zero-Adds e _ s₂ (Lower-grows h x₂)) λ u s₃ x₃.
            Adds-extend _ (node-Adds body s₃ (Lower-grows (Lower-grows h x₂) x₃) p) λ u s₄ x₄.
              let g₃ = x₃.grows lbl_while in
              let g₄ = x₄.grows lbl_while in
              returns (
                Extends-trans (plain-Extends s₄ _ _ refl refl (λ k. refl) (λ k n t. refl)) (
                  label-Extends (record s₄ { out = _ }) _ lbl_while s.while_count end_suffix refl
                    refl (λ k. refl) (h lbl_while) (omega arith))))
    node-Adds (for_loop init cond step body) s h p =
        let s₂ = for_start s in
        let x₂ : Extends lo s s₂ = for_start-Extends s h in
        let h₂ = Lower-grows h x₂ in
        let g₂ = x₂.grows lbl_for in
        after x₂ (
          Adds-extend _ (gen_for_init-Adds init s₂ h₂) λ u s₃ x₃.
            let g₃ = x₃.grows lbl_for in
            let h₃ = Lower-grows h₂ x₃ in
            after
              (label-Extends s₃ (record s₃ { out = _ }) lbl_for s.for_count cond_suffix refl refl
                (λ k. refl) (h lbl_for) (omega arith))
              (Adds-extend _ (gen_for_cond-Adds cond _ (record s₃ { out = _ }) h₃) λ u s₄ x₄.
                let g₄ = x₄.grows lbl_for in
                let h₄ = Lower-grows h₃ x₄ in
                after
                  (label-Extends s₄ (record s₄ { out = _ }) lbl_for s.for_count body_suffix refl
                    refl (λ k. refl) (h lbl_for) (omega arith))
                  (Adds-extend _ (node-Adds body (record s₄ { out = _ }) h₄ p) λ u s₅ x₅.
                    let g₅ = x₅.grows lbl_for in
                    let h₅ = Lower-grows h₄ x₅ in
                    after
                      (label-Extends s₅ (record s₅ { out = _ }) lbl_for s.for_count step_suffix refl
                        refl (λ k. refl) (h lbl_for) (omega arith))
                      (Adds-extend _ (gen_expr_stmt-Adds step (record s₅ { out = _ }) h₅) λ u s₆ x₆.
                        let g₆ = x₆.grows lbl_for in
                        returns (
                          Extends-trans (plain-Extends s₆ _ _ refl refl (λ k. refl) (λ k n t. refl))
                            (label-Extends (record s₆ { out = _ }) _ lbl_for s.for_count end_suffix
                              refl refl (λ k. refl) (h lbl_for) (omega arith)))))))
    node-Adds (expr_stmt e) s h p = gen_expr_stmt-Adds e s h
    node-Adds (enum value enums) s h p = returns (same-Extends s s refl refl (λ k. refl))
    node-Adds empty_expr s h p = returns (same-Extends s s refl refl (λ k. refl))
    node-Adds (var_dec value type symbol) s h p = returns (same-Extends s s refl refl (λ k. refl))
    node-Adds other s h p = stops tt

    nodes-Adds :
        (list : Nodes) (s : Riscv) → Lower lo s → AreStatements list → Adds lo s (gen_nodes list s)
    nodes-Adds no_nodes s h p = returns (same-Extends s s refl refl (λ k. refl))
    nodes-Adds (node a rest) s h p =
        Adds-bind _ h (node-Adds a s h p.0) λ u s₁ h₁. nodes-Adds rest s₁ h₁ p.1

    maybe-Adds :
        (m : MaybeNode) (s : Riscv) → Lower lo s → MaybeStatement m → Adds lo s (gen_maybe m s)
    maybe-Adds null s h p = returns (same-Extends s s refl refl (λ k. refl))
    maybe-Adds (just a) s h p = node-Adds a s h p

  -- Where the generator returns from a statement with no function inside, it has only added lines, left
  -- the entries of the names alone, and made no counter of labels smaller; the labels of the new lines
  -- have numbers below the counters behind them, and from any bound on that is below the counters before.
  pub gen_node-Adds :
      (a : AstNode) (s : Riscv) → Lower lo s → IsStatement a → Adds lo s (gen_node a s)
  gen_node-Adds = node-Adds

  pub gen_maybe-Adds :
      (m : MaybeNode) (s : Riscv) → Lower lo s → MaybeStatement m → Adds lo s (gen_maybe m s)
  gen_maybe-Adds = maybe-Adds
