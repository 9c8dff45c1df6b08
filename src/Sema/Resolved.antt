-- ===== src/Sema/Resolved.antt =====
-- sema.c: trees in which every pointer to an entry is set, and points into the store.
use my_lang.Prelude.{ℕ, ◌<◌, ◌≤◌, none, some, List, All, All-mono, arith}
use my_lang.Ast.{
  SymbolRef, Param, AstNode, int_const, bin_exp, func_def, var_def, ident, comp_stmt, func_call,
  ret, if_else, enum, var_dec, var_asgn, while_loop, for_loop, empty_expr, expr_stmt, unary_expr,
  lval, Nodes, no_nodes, node, MaybeNode, null, just,
}

-- The pointer is set, to one of the first `n` entries.
abbrev pub IsPlaced : ℕ → SymbolRef → Type 0
IsPlaced n none = ⊥
IsPlaced n (some place) = place < n

-- Every parameter of a function has its entry.
abbrev pub ArePlaced : ℕ → List Param → Type 0
ArePlaced n params = All (λ p. IsPlaced n p.symbol) params

unfoldable mutual
  pub IsResolved : ℕ → AstNode → Type 0
  IsResolved n (int_const value) = Unit
  IsResolved n (bin_exp value op left right) = IsResolved n left × IsResolved n right
  IsResolved n (func_def value type body params symbol) =
      IsResolved n body × IsPlaced n symbol × ArePlaced n params
  IsResolved n (var_def value type expr symbol) = IsInitialized n expr × IsPlaced n symbol
  IsResolved n (ident value symbol) = IsPlaced n symbol
  IsResolved n (comp_stmt body) = AreResolved n body
  IsResolved n (func_call value args symbol) = AreResolved n args × IsPlaced n symbol
  IsResolved n (ret expr func) = IsResolved n expr × IsPlaced n func
  IsResolved n (if_else if_expr if_body else_body) =
      IsResolved n if_expr × IsResolved n if_body × IsMaybeResolved n else_body
  IsResolved n (enum value enums) = Unit
  IsResolved n (var_dec value type symbol) = IsPlaced n symbol
  IsResolved n (var_asgn left right) = IsResolved n left × IsResolved n right
  IsResolved n (while_loop expr body) = IsResolved n expr × IsResolved n body
  IsResolved n (for_loop init cond step body) =
      IsResolved n init × IsResolved n cond × IsResolved n step × IsResolved n body
  IsResolved n empty_expr = Unit
  IsResolved n (expr_stmt expr) = IsResolved n expr
  IsResolved n (unary_expr expr value op) = IsResolved n expr
  IsResolved n (lval ident_node) = IsResolved n ident_node

  pub AreResolved : ℕ → Nodes → Type 0
  AreResolved n no_nodes = Unit
  AreResolved n (node a rest) = IsResolved n a × AreResolved n rest

  pub IsMaybeResolved : ℕ → MaybeNode → Type 0
  IsMaybeResolved n null = Unit
  IsMaybeResolved n (just a) = IsResolved n a

  pub IsInitialized : ℕ → MaybeNode → Type 0
  IsInitialized n null = ⊥
  IsInitialized n (just a) = IsResolved n a

module _ {m n : ℕ} (le : m ≤ n) where
  pub IsPlaced-mono : (symbol : SymbolRef) → IsPlaced m symbol → IsPlaced n symbol
  IsPlaced-mono none h = h
  IsPlaced-mono (some place) h = omega arith

  pub ArePlaced-mono : (params : List Param) → ArePlaced m params → ArePlaced n params
  ArePlaced-mono params h = All-mono _ _ params (λ p k. IsPlaced-mono p.symbol k) h

  mutual
    unfolding IsResolved

    pub IsResolved-mono : (a : AstNode) → IsResolved m a → IsResolved n a
    IsResolved-mono (int_const value) h = tt
    IsResolved-mono (bin_exp value op left right) h =
        (IsResolved-mono left h.0, IsResolved-mono right h.1)
    IsResolved-mono (func_def value type body params symbol) h =
        (IsResolved-mono body h.0, IsPlaced-mono symbol h.1, ArePlaced-mono params h.2)
    IsResolved-mono (var_def value type expr symbol) h =
        (IsInitialized-mono expr h.0, IsPlaced-mono symbol h.1)
    IsResolved-mono (ident value symbol) h = IsPlaced-mono symbol h
    IsResolved-mono (comp_stmt body) h = AreResolved-mono body h
    IsResolved-mono (func_call value args symbol) h =
        (AreResolved-mono args h.0, IsPlaced-mono symbol h.1)
    IsResolved-mono (ret expr func) h = (IsResolved-mono expr h.0, IsPlaced-mono func h.1)
    IsResolved-mono (if_else if_expr if_body else_body) h = (
      IsResolved-mono if_expr h.0,
      IsResolved-mono if_body h.1,
      IsMaybeResolved-mono else_body h.2,
    )
    IsResolved-mono (enum value enums) h = tt
    IsResolved-mono (var_dec value type symbol) h = IsPlaced-mono symbol h
    IsResolved-mono (var_asgn left right) h = (IsResolved-mono left h.0, IsResolved-mono right h.1)
    IsResolved-mono (while_loop expr body) h = (IsResolved-mono expr h.0, IsResolved-mono body h.1)
    IsResolved-mono (for_loop init cond step body) h = (
      IsResolved-mono init h.0,
      IsResolved-mono cond h.1,
      IsResolved-mono step h.2,
      IsResolved-mono body h.3,
    )
    IsResolved-mono empty_expr h = tt
    IsResolved-mono (expr_stmt expr) h = IsResolved-mono expr h
    IsResolved-mono (unary_expr expr value op) h = IsResolved-mono expr h
    IsResolved-mono (lval ident_node) h = IsResolved-mono ident_node h

    pub AreResolved-mono : (as' : Nodes) → AreResolved m as' → AreResolved n as'
    AreResolved-mono no_nodes h = tt
    AreResolved-mono (node a rest) h = (IsResolved-mono a h.0, AreResolved-mono rest h.1)

    IsMaybeResolved-mono : (a : MaybeNode) → IsMaybeResolved m a → IsMaybeResolved n a
    IsMaybeResolved-mono null h = tt
    IsMaybeResolved-mono (just a) h = IsResolved-mono a h

    pub IsInitialized-mono : (a : MaybeNode) → IsInitialized m a → IsInitialized n a
    IsInitialized-mono null h = h
    IsInitialized-mono (just a) h = IsResolved-mono a h
