-- ===== src/Asm/Extending.antt =====
-- asm.c: what `eval_asm` adds, calls included.
use my_lang.Prelude.{
  ℕ, zero, suc, ◌+◌, refl, Bool, true, false, Option, none, some, List, [], ◌∷◌, append_assoc, set,
  get_or, ok, stop, Stop, returns, stops, initialized, if◌then◌else◌, Bytes,
}
use my_lang.Prelude.Int.{ℤ}
use my_lang.Lex.Token.{tok_not}
use my_lang.Symbol.{SymTabEntry, SymbolType, sym_const}
use my_lang.Ast.{
  AstNode, int_const, bin_exp, ident, func_call, var_asgn, unary_expr, lval, Nodes, no_nodes, node,
  nodes_length, SymbolRef,
}
use my_lang.Asm.Target.{LabelKind}
use my_lang.Asm.State.{Riscv, first_free, alloc_register, free_register, arg_count, temp_count}
use my_lang.Asm.Eval.{
  eval_int_const, load_const, load_arg, load_local, load_variable, eval_ident, eval_lval,
  store_lval, save_temps, take_register, restore_temp, restore_temps, load_args, finish_call,
  begin_call, store_arg, eval_asm, eval_args,
}
use my_lang.Asm.Machine.{find_label}
use my_lang.Asm.Registers.{symbol_at-Keeps}
use my_lang.Asm.Balance.{frame_size_of-Keeps}
use my_lang.Asm.Adding.{eval_operator-Adds}
use my_lang.Asm.Labels.{
  count, Lower, plain-Extends, same-Extends, same-Adds, Adds, after, Adds-bind,
}

pub initialized-Adds {ℓ} :
    {A : Type ℓ} {lo : LabelKind → ℕ} (o : Option A) (s : Riscv) → Adds lo s (initialized o s)
initialized-Adds none s = stops tt
initialized-Adds (some a) s = returns (same-Extends s s refl refl (λ k. refl))

alloc-Adds : {lo : LabelKind → ℕ} (s : Riscv) → Adds lo s (alloc_register s)
unfolding alloc_register
alloc-Adds s = of (first_free s.temp_free)
  where
    of :
        {lo : LabelKind → ℕ} (o : Option ℕ)
        → Adds lo s (elim o [
          | none ↦ stop Stop.failure
          | some i ↦ ok (i, record s { temp_free = set s.temp_free i false })
        ])
    of none = stops tt
    of (some i) = returns (same-Extends s _ refl refl (λ k. refl))

module _ {lo : LabelKind → ℕ} where
  -- Lines of the simplest kind.
  eval_int_const-Adds : (z : ℤ) (s : Riscv) → Lower lo s → Adds lo s (eval_int_const z s)
  unfolding eval_int_const find_label
  eval_int_const-Adds z s h =
      Adds-bind _ h (alloc-Adds s)
        λ x s₁ h₁. returns (plain-Extends s₁ _ _ refl refl (λ k. refl) (λ k n t. refl))

  load_const-Adds : (e : SymTabEntry) (s : Riscv) → Lower lo s → Adds lo s (load_const e s)
  unfolding load_const find_label
  load_const-Adds e s h = Adds-bind _ h (alloc-Adds s) λ x s₁ h₁.
      Adds-bind _ h₁ (initialized-Adds e.const_value s₁)
        λ v s₂ h₂. returns (plain-Extends s₂ _ _ refl refl (λ k. refl) (λ k n t. refl))

  load_arg-Adds : (e : SymTabEntry) (s : Riscv) → Lower lo s → Adds lo s (load_arg e s)
  unfolding load_arg find_label
  load_arg-Adds e s h = after (plain-Extends s _ _ refl refl (λ k. refl) (λ k n t. refl)) (
      Adds-bind _ h (alloc-Adds (record s { out = _ })) λ x s₁ h₁.
        Adds-bind _ h₁ (initialized-Adds e.arg_reg s₁)
          λ v s₂ h₂. returns (plain-Extends s₂ _ _ refl refl (λ k. refl) (λ k n t. refl)))

  load_local-Adds : (e : SymTabEntry) (s : Riscv) → Lower lo s → Adds lo s (load_local e s)
  unfolding load_local find_label
  load_local-Adds e s h = after (plain-Extends s _ _ refl refl (λ k. refl) (λ k n t. refl)) (
      Adds-bind _ h (alloc-Adds (record s { out = _ })) λ x s₁ h₁.
        Adds-bind _ h₁ (initialized-Adds e.offset s₁)
          λ v s₂ h₂. returns (plain-Extends s₂ _ _ refl refl (λ k. refl) (λ k n t. refl)))

  load_variable-Adds :
      (k : SymbolType) (e : SymTabEntry) (s : Riscv) → Lower lo s → Adds lo s (load_variable k e s)
  unfolding load_variable
  load_variable-Adds sym_const e s h = load_const-Adds e s h
  load_variable-Adds k e s h = of e.is_arg_loaded
    where
      of : (b : Bool) → Adds lo s ((if b then load_arg e else load_local e) s)
      of true = load_arg-Adds e s h
      of false = load_local-Adds e s h

  eval_ident-Adds : (symbol : SymbolRef) (s : Riscv) → Lower lo s → Adds lo s (eval_ident symbol s)
  unfolding eval_ident
  eval_ident-Adds symbol s h =
      Adds-bind _ h (same-Adds (symbol_at-Keeps symbol s))
        λ e s₁ h₁. load_variable-Adds e.symbol e s₁ h₁

  eval_lval-Adds : (a : AstNode) (s : Riscv) → Lower lo s → Adds lo s (eval_lval a s)
  unfolding eval_lval find_label
  eval_lval-Adds (ident value symbol) s h = Adds-bind _ h (alloc-Adds s) λ x s₁ h₁.
      Adds-bind _ h₁ (same-Adds (symbol_at-Keeps symbol s₁)) λ e s₂ h₂.
        Adds-bind _ h₂ (initialized-Adds e.offset s₂)
          λ v s₃ h₃. returns (plain-Extends s₃ _ _ refl refl (λ k. refl) (λ k n t. refl))
  eval_lval-Adds other s h = stops tt

  -- The pieces of a call.
  save_temps-Adds :
      (i : ℕ) (free : List Bool) (offset : ℕ) (s : Riscv) → Adds lo s (save_temps i free offset s)
  unfolding save_temps free_register find_label
  save_temps-Adds i [] offset s = returns (same-Extends s s refl refl (λ k. refl))
  save_temps-Adds i (true ∷ free) offset s = save_temps-Adds (suc i) free offset s
  save_temps-Adds i (false ∷ free) offset s =
      after (plain-Extends s _ _ refl refl (λ k. refl) (λ k n t. refl))
        (save_temps-Adds (suc i) free (offset + 4) _)

  restore_temp-Adds :
      (i : ℕ) (b : Bool) (offset : ℕ) (s : Riscv) → Adds lo s (restore_temp i b offset s)
  unfolding restore_temp take_register find_label
  restore_temp-Adds i true offset s = returns (same-Extends s s refl refl (λ k. refl))
  restore_temp-Adds i false offset s =
      returns (plain-Extends s _ _ refl refl (λ k. refl) (λ k n t. refl))

  restore_temps-Adds :
      (i : ℕ) (free : List Bool) (offset : ℕ) (s : Riscv)
      → Lower lo s
      → Adds lo s (restore_temps i free offset s)
  unfolding restore_temps
  restore_temps-Adds zero free offset s h = returns (same-Extends s s refl refl (λ k. refl))
  restore_temps-Adds (suc i) free offset s h =
      Adds-bind _ h (restore_temp-Adds i (get_or free i true) offset s)
        λ below s₁ h₁. restore_temps-Adds i free below s₁ h₁

  load_args-Adds :
      (count places i offset : ℕ) (s : Riscv) → Adds lo s (load_args count places i offset s)
  unfolding load_args find_label
  load_args-Adds zero places i offset s = returns (same-Extends s s refl refl (λ k. refl))
  load_args-Adds (suc count) zero i offset s = returns (same-Extends s s refl refl (λ k. refl))
  load_args-Adds (suc count) (suc places) i offset s =
      after (plain-Extends s _ _ refl refl (λ k. refl) (λ k n t. refl))
        (load_args-Adds count places (suc i) (offset + 4) _)

  begin_call-Adds : (symbol : SymbolRef) (s : Riscv) → Lower lo s → Adds lo s (begin_call symbol s)
  unfolding begin_call find_label
  begin_call-Adds symbol s h = Adds-bind _ h (same-Adds (symbol_at-Keeps symbol s)) λ e s₁ h₁.
      Adds-bind _ h₁ (same-Adds (frame_size_of-Keeps e s₁)) λ size s₂ h₂.
        after (plain-Extends s₂ _ _ refl refl (λ k. refl) (λ k n t. refl)) (
          Adds-bind _ h₂ (save_temps-Adds 0 s.temp_free _ (record s₂ { out = _ }))
            λ offset s₃ h₃. returns (plain-Extends s₃ _ _ refl refl (λ k. refl) (λ k n t. refl)))

  finish_call-Adds :
      (name : Bytes) (free : List Bool) (n offset : ℕ) (s : Riscv)
      → Lower lo s
      → Adds lo s (finish_call name free n offset s)
  unfolding finish_call find_label
  finish_call-Adds name free n offset s h =
      after (plain-Extends s _ _ refl refl (λ k. refl) (λ k n t. refl)) (
        Adds-bind _ h (load_args-Adds n arg_count 0 offset (record s { out = _ })) λ u s₁ h₁.
          after (plain-Extends s₁ _ _ refl refl (λ k. refl) (λ k n t. refl)) (
            Adds-bind _ h₁ (restore_temps-Adds temp_count free offset (record s₁ { out = _ }) h₁)
              λ u s₂ h₂.
                Adds-bind _ h₂ (alloc-Adds s₂)
                  λ x s₃ h₃. returns (plain-Extends s₃ _ _ refl refl (λ k. refl) (λ k n t. refl))))

  store_lval-Adds : (l r : ℕ) (s : Riscv) → Adds lo s (store_lval l r s)
  unfolding store_lval free_register find_label
  store_lval-Adds l r s =
      returns (plain-Extends s _ _ (append_assoc s.out _ _) refl (λ k. refl) (λ k n t. refl))

  mutual
    unfolding eval_asm free_register store_arg find_label

    expr-Adds : (a : AstNode) (s : Riscv) → Lower lo s → Adds lo s (eval_asm a s)
    expr-Adds (unary_expr e value tok_not) s h = Adds-bind _ h (alloc-Adds s) λ x s₁ h₁.
        Adds-bind _ h₁ (expr-Adds e s₁ h₁)
          λ y s₂ h₂. returns (plain-Extends s₂ _ _ refl refl (λ k. refl) (λ k n t. refl))
    expr-Adds (int_const z) s h = eval_int_const-Adds z s h
    expr-Adds (func_call name args symbol) s h =
        Adds-bind _ h (begin_call-Adds symbol s h) λ offset s₁ h₁.
          Adds-bind _ h₁ (args-Adds args offset s₁ h₁)
            λ u s₂ h₂. finish_call-Adds name s.temp_free (nodes_length args) offset s₂ h₂
    expr-Adds (ident value symbol) s h = eval_ident-Adds symbol s h
    expr-Adds (bin_exp value op left right) s h =
        Adds-bind _ h (expr-Adds left s h) λ l s₁ h₁.
          Adds-bind _ h₁ (expr-Adds right s₁ h₁) λ r s₂ h₂. eval_operator-Adds l r s₂ h₂ op
    expr-Adds (var_asgn left right) s h =
        Adds-bind _ h (expr-Adds left s h)
          λ l s₁ h₁. Adds-bind _ h₁ (expr-Adds right s₁ h₁) λ r s₂ h₂. store_lval-Adds l r s₂
    expr-Adds (lval e) s h = eval_lval-Adds e s h
    expr-Adds other s h = stops tt

    args-Adds :
        (args : Nodes) (offset : ℕ) (s : Riscv) → Lower lo s → Adds lo s (eval_args args offset s)
    args-Adds no_nodes offset s h = returns (same-Extends s s refl refl (λ k. refl))
    args-Adds (node a rest) offset s h = Adds-bind _ h (expr-Adds a s h) λ x s₁ h₁.
        after (plain-Extends s₁ _ _ refl refl (λ k. refl) (λ k n t. refl))
          (args-Adds rest (offset + 4) _ h₁)

  pub eval_asm-Adds : (a : AstNode) (s : Riscv) → Lower lo s → Adds lo s (eval_asm a s)
  eval_asm-Adds = expr-Adds
