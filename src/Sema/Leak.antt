-- ===== src/Sema/Leak.antt =====
-- sema.c: the parameters of a function behind its end.
use my_lang.Prelude.{
  ap, Outcome, ok, bind, Bool, true, false, ℕ, ◌≡◌, Option, none, some, List, [], All, All-mono,
  stop, Stop, Post, returns, Fueled, Post-bind, Bytes,
}
use my_lang.HashMap.Table.{HashMap}
use my_lang.Symbol.{TypeEnvEntry}
use my_lang.Ast.{SymbolRef, Param, AstNode, MaybeNode, func_def, var_def, var_dec, null, empty_expr}
use my_lang.Sema.Scope.{in_scope}
use my_lang.Sema.State.{Sema, check_new}
use my_lang.Sema.Names.{sym_check, sym_function_head}
use my_lang.Sema.Later.{IsWell, Known, Known-Later}
use my_lang.Sema.Entries.{sym_function_head-Done}
use my_lang.Sema.Binding.{check-Walks}

in_scope-Known : (name : Bytes) (s : Sema) → Known s name → in_scope s.scope name ≡ true
unfolding in_scope
in_scope-Known name s (place, e) = ap seen e
  where
    seen : Option ℕ → Bool
    seen none = false
    seen (some place) = true

refused :
    {A : Type 0} (name : Bytes) (s : Sema) (k : Unit {0} × Sema → Outcome A)
    → Known s name
    → bind (check_new name s) k ≡ stop Stop.failure
refused name s k h =
    ap (λ b. bind (elim b [ true ↦ stop Stop.failure | false ↦ ok (tt, s) ]) k)
      (in_scope-Known name s h)

bind_stop :
    {A B : Type 0} (r : Outcome A) (k : A → Outcome B) (e : Stop) → r ≡ stop e → bind r k ≡ stop e
bind_stop r k e h = ap (λ r. bind r k) h

module _ (type_env : HashMap TypeEnvEntry) where
  head_refused :
      (value type : Bytes) (params : List Param) (s : Sema)
      → Known s value
      → sym_function_head type_env value type params s ≡ stop Stop.failure
  unfolding sym_function_head
  head_refused value type params s h = refused value s _ h

  sym_check-Known :
      (value type : Bytes) (symbol : SymbolRef) (expr : MaybeNode) (body : AstNode)
      (params : List Param) (frame : Option ℕ) (s : Sema)
      → Known s value
      → (sym_check type_env (var_dec value type symbol) frame s ≡ stop Stop.failure)
        × (sym_check type_env (var_def value type expr symbol) frame s ≡ stop Stop.failure)
        × (sym_check type_env (func_def value type body params symbol) frame s ≡ stop Stop.failure)
  unfolding sym_check
  sym_check-Known value type symbol expr body params frame s h = (
    refused value s _ h,
    refused value s _ h,
    bind_stop _ _ _ (head_refused value type params s h),
  )

  -- Behind a function its parameters are still known: no variable of that name is declared after it, in
  -- the scope that the function stands in, be it inside another function.
  pub sym_check-params :
      (value type : Bytes) (body : AstNode) (params : List Param) (symbol : SymbolRef)
      (frame : Option ℕ) (s : Sema)
      → IsWell s
      → Post
          (λ (r : AstNode × Sema).
            All
              (λ p.
                (type : Bytes) (symbol : SymbolRef) (frame : Option ℕ)
                → sym_check type_env (var_dec p.value type symbol) frame r.1 ≡ stop Stop.failure)
              params)
          Fueled
          (sym_check type_env (func_def value type body params symbol) frame s)
  unfolding sym_check
  sym_check-params value type body params symbol frame s w =
      Post-bind (sym_function_head-Done type_env value type params s w)
        λ (head, s₁) (d₁, i₁, known).
          Post-bind (check-Walks type_env body (some head.1) s₁ d₁.well i₁) λ (b, s₂) d₂. returns (
            All-mono _ _ params
              (λ p k type symbol frame.
                (sym_check-Known p.value type symbol null empty_expr [] frame s₂
                  (Known-Later p.value d₂.later k)).0)
              known)
