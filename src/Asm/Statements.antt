-- ===== src/Asm/Statements.antt =====
-- asm.c: the temporary registers in use before and after the code of a statement.
use my_lang.Prelude.{
  Fueled, pure, ℕ, suc, ◌≡◌, refl, ap, ◌∙◌, Bool, true, false, List, [], ◌∷◌, length, get_elem?, ok,
  stop, Stop, Post, returns, stops, Post-bind, Option, none, some, Bytes, set, bytes, if◌then◌else◌,
  strcmp_eq,
}
use mathlib.Core.Path.{subst}
use my_lang.Symbol.{SymTabEntry}
use my_lang.Ast.{
  SymbolRef, Param, AstNode, func_def, var_def, comp_stmt, ret, if_else, enum, var_dec, while_loop,
  for_loop, empty_expr, expr_stmt, Nodes, no_nodes, node, MaybeNode, null, just,
}
use my_lang.Asm.Target.{Label}
use my_lang.Asm.State.{Riscv, Gen, temp_count, free_register, create_base_cond_label}
use my_lang.Asm.Eval.{eval_asm}
use my_lang.Asm.Gen.{
  restore_frame, eval_discarded, ret_value, ret_expr, gen_ret, load_param, load_params,
  gen_prologue, gen_epilogue, begin_func, eval_maybe, gen_var_def, branch_if_zero, gen_for_init,
  gen_for_cond, gen_expr_stmt, gen_node, gen_nodes, gen_maybe,
}
use my_lang.Asm.Flags.{release}
use my_lang.Asm.Registers.{Keeps, Yields, symbol_at-Keeps, initialized-Keeps}
use my_lang.Asm.Balance.{frame_size_of-Keeps, eval_asm-Takes}

-- A run over a state with all seven flags leaves them as they are.
abbrev pub Neutral {ℓ} : {A : Type ℓ} → Gen A → Type ℓ
Neutral m = (f : List Bool) (s : Riscv) → length f ≡ temp_count → s.temp_free ≡ f → Keeps f (m s)

eval-Takes :
    (e : AstNode) (f : List Bool) (s : Riscv)
    → length f ≡ temp_count
    → s.temp_free ≡ f
    → Yields f (eval_asm e s)
eval-Takes e f s h k = subst (λ g. Yields g (eval_asm e s)) k (eval_asm-Takes e s (ap length k ∙ h))

eval_discarded-Neutral : (e : AstNode) → Neutral (eval_discarded e)
unfolding eval_discarded free_register
eval_discarded-Neutral e f s h k = Post-bind (eval-Takes e f s h k) λ (x, s') t. returns (release t)

ret_expr-Neutral : (e : AstNode) → Neutral (ret_expr e)
unfolding ret_expr free_register
ret_expr-Neutral e f s h k = Post-bind (eval-Takes e f _ h k) λ (x, s') t. returns (release t)

ret_value-Neutral : (e : AstNode) → Neutral (ret_value e)
unfolding ret_value
ret_value-Neutral empty_expr f s h k = returns k
ret_value-Neutral e f s h k = ret_expr-Neutral e f s h k

gen_ret-Neutral : (e : AstNode) (func : SymbolRef) → Neutral (gen_ret e func)
unfolding gen_ret restore_frame
gen_ret-Neutral e func f s h k = Post-bind (symbol_at-Keeps func s) λ (entry, s₁) k₁.
    Post-bind (frame_size_of-Keeps entry s₁) λ (size, s₂) k₂.
      Post-bind (ret_value-Neutral e f s₂ h (ap (λ x. x.temp_free) (k₂ ∙ k₁) ∙ k))
        λ (_, s₃) k₃. returns k₃

load_param-Neutral : (i : ℕ) (symbol : SymbolRef) → Neutral (load_param i symbol)
unfolding load_param
load_param-Neutral i none f s h k = stops (cc)
load_param-Neutral i (some p) f s h k = of (get_elem? s.symbols p)
  where
    of :
        (o : Option SymTabEntry)
        → Keeps {0} {A = Unit {0}} f (elim o [
          | none ↦ stop Stop.undefined
          | some e ↦ ok (
            tt,
            record s {
              symbols = set s.symbols p (record e { is_arg_loaded = true; arg_reg = some i });
            },
          )
        ])
    of none = stops (cc)
    of (some e) = returns k

load_params-Neutral : (i : ℕ) (params : List Param) → Neutral (load_params i params)
unfolding load_params
load_params-Neutral i [] f s h k = returns k
load_params-Neutral i (p ∷ ps) f s h k =
    Post-bind (load_param-Neutral i p.symbol f s h k)
      λ (_, s₁) k₁. load_params-Neutral (suc i) ps f s₁ h k₁

begin_func-Neutral :
    (value : Bytes) (params : List Param) (symbol : SymbolRef)
    → Neutral (begin_func value params symbol)
unfolding begin_func gen_prologue
begin_func-Neutral value params symbol f s h k =
    Post-bind (load_params-Neutral 0 params f _ h k) λ (_, s₁) k₁.
      Post-bind (symbol_at-Keeps symbol s₁) λ (entry, s₂) k₂.
        Post-bind (frame_size_of-Keeps entry s₂)
          λ (size, s₃) k₃. returns (ap (λ x. x.temp_free) (k₃ ∙ k₂) ∙ k₁)

gen_epilogue-Neutral : (type : Bytes) (size : ℕ) → Neutral (gen_epilogue type size)
unfolding gen_epilogue restore_frame
gen_epilogue-Neutral type size f s h k =
    Post-bind (of (strcmp_eq (bytes "void") type)) λ (_, s₁) k₁. returns k₁
  where
    of : (b : Bool) → Keeps f ((if b then restore_frame size else pure tt) s)
    of true = returns k
    of false = returns k

gen_var_def-Neutral : (e : MaybeNode) (symbol : SymbolRef) → Neutral (gen_var_def e symbol)
unfolding gen_var_def eval_maybe free_register
gen_var_def-Neutral e symbol f s h k = Post-bind (symbol_at-Keeps symbol s) λ (entry, s₁) k₁.
    initialized-Keeps entry.offset _ λ offset.
      Post-bind (value e _ (ap (λ x. x.temp_free) k₁ ∙ k)) λ (x, s₂) t. returns (release t)
  where
    value : (e : MaybeNode) (s' : Riscv) → s'.temp_free ≡ f → Yields f (eval_maybe e s')
    value null s' k' = stops (cc)
    value (just e) s' k' = eval-Takes e f s' h k'

pub branch_if_zero-Neutral : (e : AstNode) (target : Label) → Neutral (branch_if_zero e target)
unfolding branch_if_zero free_register
branch_if_zero-Neutral e target f s h k =
    Post-bind (eval-Takes e f s h k) λ (x, s') t. returns (release t)

pub gen_for_init-Neutral : (e : AstNode) → Neutral (gen_for_init e)
unfolding gen_for_init
gen_for_init-Neutral (var_dec value type symbol) f s h k = returns k
gen_for_init-Neutral (var_def value type e symbol) f s h k = gen_var_def-Neutral e symbol f s h k
gen_for_init-Neutral empty_expr f s h k = returns k
gen_for_init-Neutral e f s h k = eval_discarded-Neutral e f s h k

pub gen_for_cond-Neutral : (e : AstNode) (target : Label) → Neutral (gen_for_cond e target)
unfolding gen_for_cond
gen_for_cond-Neutral empty_expr target f s h k = returns k
gen_for_cond-Neutral e target f s h k = branch_if_zero-Neutral e target f s h k

pub gen_expr_stmt-Neutral : (e : AstNode) → Neutral (gen_expr_stmt e)
unfolding gen_expr_stmt
gen_expr_stmt-Neutral empty_expr f s h k = returns k
gen_expr_stmt-Neutral e f s h k = eval_discarded-Neutral e f s h k

mutual
  unfolding gen_node create_base_cond_label

  node-Neutral : (e : AstNode) → Neutral (gen_node e)
  node-Neutral (ret e func) f s h k = gen_ret-Neutral e func f s h k
  node-Neutral (if_else e body else_body) f s h k =
      Post-bind (branch_if_zero-Neutral e _ f _ h k) λ (_, s₁) k₁.
        Post-bind (node-Neutral body f s₁ h k₁) λ (_, s₂) k₂. maybe-Neutral else_body f _ h k₂
  node-Neutral (comp_stmt body) f s h k = nodes-Neutral body f s h k
  node-Neutral (func_def value type body params symbol) f s h k =
      Post-bind (begin_func-Neutral value params symbol f s h k) λ (size, s₁) k₁.
        Post-bind (node-Neutral body f s₁ h k₁)
          λ (_, s₂) k₂. gen_epilogue-Neutral type size f s₂ h k₂
  node-Neutral (var_def value type e symbol) f s h k = gen_var_def-Neutral e symbol f s h k
  node-Neutral (while_loop e body) f s h k =
      Post-bind (branch_if_zero-Neutral e _ f _ h k)
        λ (_, s₁) k₁. Post-bind (node-Neutral body f s₁ h k₁) λ (_, s₂) k₂. returns k₂
  node-Neutral (for_loop init cond step body) f s h k =
      Post-bind (gen_for_init-Neutral init f _ h k) λ (_, s₁) k₁.
        Post-bind (gen_for_cond-Neutral cond _ f _ h k₁) λ (_, s₂) k₂.
          Post-bind (node-Neutral body f _ h k₂)
            λ (_, s₃) k₃. Post-bind (gen_expr_stmt-Neutral step f _ h k₃) λ (_, s₄) k₄. returns k₄
  node-Neutral (expr_stmt e) f s h k = gen_expr_stmt-Neutral e f s h k
  node-Neutral (enum value enums) f s h k = returns k
  node-Neutral empty_expr f s h k = returns k
  node-Neutral (var_dec value type symbol) f s h k = returns k
  node-Neutral other f s h k = stops (cc)

  nodes-Neutral : (es : Nodes) → Neutral (gen_nodes es)
  nodes-Neutral no_nodes f s h k = returns k
  nodes-Neutral (node e rest) f s h k =
      Post-bind (node-Neutral e f s h k) λ (_, s₁) k₁. nodes-Neutral rest f s₁ h k₁

  maybe-Neutral : (m : MaybeNode) → Neutral (gen_maybe m)
  maybe-Neutral null f s h k = returns k
  maybe-Neutral (just e) f s h k = node-Neutral e f s h k

-- Where all seven flags are there and the code of a statement, or of a function, is written, it leaves as
-- many temporary registers free as it found, and the same ones.
pub gen_node-Keeps :
    (e : AstNode) (s : Riscv)
    → length s.temp_free ≡ temp_count
    → Post (λ (_, s'). s'.temp_free ≡ s.temp_free) Fueled (gen_node e s)
gen_node-Keeps e s h = node-Neutral e s.temp_free s h refl
