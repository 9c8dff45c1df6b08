-- ===== src/Sema/Sound.antt =====
-- sema.c: `type_check` over the tree and the entries that `sym_check` leaves.
use my_lang.Prelude.{
  ℕ, ◌≡◌, ◌≢◌, refl, Option, none, some, List, [], ◌∷◌, All, length, get_elem?, arith, Outcome, ok,
  stop, Stop, Post, returns, stops, Fueled, Post-ok, Post-stop, Post-bind, bind, ◌>>◌, pure, ap,
  ◌==◌, Bool, true, false, Bytes,
}
use my_lang.HashMap.Table.{HashMap}
use my_lang.Symbol.{TypeEnvEntry, SymTabEntry, TypeSpecifier, ts_void}
use my_lang.Ast.{
  SymbolRef, AstNode, int_const, bin_exp, func_def, var_def, ident, comp_stmt, func_call, ret,
  if_else, enum, var_dec, var_asgn, while_loop, for_loop, empty_expr, expr_stmt, unary_expr, lval,
  Nodes, no_nodes, node, MaybeNode, null, just,
}
use my_lang.Sema.Scope.{Scope, no_scope, scope, exit_scope}
use my_lang.Sema.State.{Sema, leave}
use my_lang.Sema.Types.{
  ts_number, assert_type_eq, type_of_symbol, type_of_lval, type_check, type_nodes, type_maybe,
  type_init,
}
use my_lang.Sema.Program.{sym_program, type_program, global, sema_check, warn_unused}
use my_lang.Sema.Resolved.{IsPlaced, IsResolved, AreResolved, IsMaybeResolved, IsInitialized}
use my_lang.Sema.Later.{IsFrame}
use my_lang.Sema.Steps.{Done}
use my_lang.Sema.Bound.{global-IsWell, program-Done}
use my_lang.Lex.Token.{TokenType}

-- Neither NULL nor the end of the fuel.
abbrev pub Sound : Stop → Type 0
Sound e = (e ≢ Stop.null_pointer) × (e ≢ Stop.out_of_fuel)

abbrev Safe : {A : Type 0} → Outcome A → Type 0
Safe {A} r = Post (λ (a : A). Unit {0}) Sound r

module _ (entries : List SymTabEntry) where
  type_of_symbol-Sound :
      (symbol : SymbolRef) → IsPlaced (length entries) symbol → Safe (type_of_symbol entries symbol)
  unfolding type_of_symbol
  type_of_symbol-Sound none h = absurd h
  type_of_symbol-Sound (some place) h = of (get_elem? entries place)
    where
      of :
          (o : Option SymTabEntry)
          → Safe (
              bind
                (elim o [ none ↦ stop Stop.undefined | some entry ↦ ok entry ])
                λ entry. ok entry.type)
      of none = stops ((λ e. cc), λ e. cc)
      of (some e) = returns tt

  assert_type_eq-Sound : (t u : TypeSpecifier) → Safe (assert_type_eq t u)
  unfolding assert_type_eq
  assert_type_eq-Sound t u = of (ts_number t == ts_number u)
    where
      of : (b : Bool) → Safe (elim b [ true ↦ ok t | false ↦ stop Stop.failure ])
      of true = returns tt
      of false = stops ((λ e. cc), λ e. cc)

  type_of_lval-Sound : (a : AstNode) → IsResolved (length entries) a → Safe (type_of_lval entries a)
  unfolding type_of_lval IsResolved
  type_of_lval-Sound (ident value symbol) h = type_of_symbol-Sound symbol h
  type_of_lval-Sound a h = stops ((λ e. cc), λ e. cc)

  both :
      {r r' : Outcome TypeSpecifier}
      → Safe r
      → Safe r'
      → Safe (bind r λ t. bind r' λ u. assert_type_eq t u)
  both p q = Post-bind p λ t _. Post-bind q λ u _. assert_type_eq-Sound t u

  void : {A : Type 0} {r : Outcome A} → Safe r → Safe (bind r λ _. ok ts_void)
  void p = Post-bind p λ _ _. returns tt

  mutual
    unfolding type_check IsResolved

    check-Sound : (a : AstNode) → IsResolved (length entries) a → Safe (type_check entries a)
    check-Sound (comp_stmt body) h = void (nodes-Sound body h)
    check-Sound (if_else if_expr if_body else_body) h =
        Post-bind (check-Sound if_body h.1) λ _ _. void (maybe-Sound else_body h.2)
    check-Sound (var_def value type expr symbol) h =
        Post-bind (type_of_symbol-Sound symbol h.1)
          λ t _. Post-bind (init-Sound expr h.0) λ u _. void (assert_type_eq-Sound t u)
    check-Sound (bin_exp value op left right) h = both (check-Sound left h.0) (check-Sound left h.0)
    check-Sound (int_const value) h = returns tt
    check-Sound (func_def value type body params symbol) h = void (check-Sound body h.0)
    check-Sound (ident value symbol) h = type_of_symbol-Sound symbol h
    check-Sound (func_call value args symbol) h = type_of_symbol-Sound symbol h.1
    check-Sound (ret expr func) h = both (type_of_symbol-Sound func h.1) (check-Sound expr h.0)
    check-Sound (var_asgn left right) h = both (check-Sound left h.0) (check-Sound right h.1)
    check-Sound (while_loop expr body) h = check-Sound body h.1
    check-Sound (for_loop init cond step body) h = check-Sound body h.3
    check-Sound (expr_stmt expr) h = check-Sound expr h
    check-Sound (unary_expr expr value op) h = check-Sound expr h
    check-Sound (enum value enums) h = returns tt
    check-Sound (var_dec value type symbol) h = returns tt
    check-Sound empty_expr h = returns tt
    check-Sound (lval ident_node) h = type_of_lval-Sound ident_node h

    nodes-Sound : (as' : Nodes) → AreResolved (length entries) as' → Safe (type_nodes entries as')
    nodes-Sound no_nodes h = returns tt
    nodes-Sound (node a rest) h = Post-bind (check-Sound a h.0) λ _ _. nodes-Sound rest h.1

    maybe-Sound : (m : MaybeNode) → IsMaybeResolved (length entries) m → Safe (type_maybe entries m)
    maybe-Sound null h = returns tt
    maybe-Sound (just a) h = Post-bind (check-Sound a h) λ _ _. returns tt

    init-Sound : (m : MaybeNode) → IsInitialized (length entries) m → Safe (type_init entries m)
    init-Sound null h = absurd h
    init-Sound (just a) h = check-Sound a h

  type_program-Sound :
      (prog : List AstNode)
      → All (IsResolved (length entries)) prog
      → Safe (type_program entries prog)
  unfolding type_program
  type_program-Sound [] h = returns tt
  type_program-Sound (a ∷ prog) h = Post-bind (check-Sound a h.0) λ _ _. type_program-Sound prog h.1

-- Where `sym_check` came through a whole program, every pointer to an entry, those of the parameters of
-- functions too, is set and points into the store, and `type_check`, over the tree and the store that it left, reads through no NULL pointer.
pub type_program-ne-null_pointer :
    (type_env : HashMap TypeEnvEntry) (prog prog' : List AstNode) (s : Sema)
    → sym_program type_env prog global ≡ ok (prog', s)
    → All (IsResolved (length s.entries)) prog'
      × (type_program s.entries prog' ≢ stop Stop.null_pointer)
type_program-ne-null_pointer type_env prog prog' s e =
    let d = Post-ok (program-Done type_env prog global global-IsWell) e in
    (d.result, λ z. (Post-stop (type_program-Sound s.entries prog' d.result) z).0 refl)

-- The type of a binary expression is that of its left operand, whatever the right one is: the left one
-- is checked twice.
pub type_check-bin_exp :
    (entries : List SymTabEntry) (value : Bytes) (op : TokenType) (left right : AstNode)
    → type_check entries (bin_exp value op left right) ≡ type_check entries left
unfolding type_check assert_type_eq
type_check-bin_exp entries value op left right = of (type_check entries left)
  where
    same : (n : ℕ) → (n == n) ≡ true
    same n = ground arith

    of :
        (r : Outcome TypeSpecifier)
        → bind r (λ t.
          bind r λ u. elim (ts_number t == ts_number u) [ true ↦ ok t | false ↦ stop Stop.failure ])
          ≡ r
    of (ok t) = ap (λ b. elim b [ true ↦ ok t | false ↦ stop Stop.failure ]) (same (ts_number t))
    of (stop e) = refl

warn_unused-Fueled :
    (entries : List SymTabEntry) (places : List ℕ)
    → Post (λ (ws : List Bytes). Unit {0}) Fueled (warn_unused entries places)
unfolding warn_unused
warn_unused-Fueled entries [] = returns tt
warn_unused-Fueled entries (place ∷ places) =
    Post-bind (of (get_elem? entries place))
      λ symbol _. Post-bind (warn_unused-Fueled entries places) λ ws _. returns tt
  where
    of :
        (o : Option SymTabEntry)
        → Post
            (λ (e : SymTabEntry). Unit {0})
            Fueled
            (elim o [ none ↦ stop Stop.undefined | some entry ↦ ok entry ])
    of none = stops (cc)
    of (some e) = returns tt

leave_global :
    (prog' : List AstNode) (s : Sema)
    → All (IsResolved (length s.entries)) prog' × All IsFrame s.frames
    → (sc : Scope)
    → Post
        (λ (r : List AstNode × Sema).
          All (IsResolved (length r.1.entries)) r.0 × All IsFrame r.1.frames)
        Fueled
        (bind
          (bind (exit_scope sc) λ parent. ok (tt {0}, record s { scope = parent }))
          λ (u, s'). ok (prog', s'))
unfolding exit_scope
leave_global prog' s h no_scope = stops (cc)
leave_global prog' s h (scope t p) = returns h

pub sema_check-Fueled :
    (prog : List AstNode) (type_env : HashMap TypeEnvEntry)
    → Post
        (λ (r : List AstNode × Sema × List Bytes).
          All (IsResolved (length r.1.entries)) r.0 × All IsFrame r.1.frames)
        Fueled
        (sema_check prog type_env)
unfolding sema_check
sema_check-Fueled prog type_env =
    Post-bind (left (program-Done type_env prog global global-IsWell)) λ (prog', s) h.
      Post-bind (fueled (type_program-Sound s.entries prog' h.0))
        λ _ _. Post-bind (warn_unused-Fueled s.entries s.symbols) λ ws _. returns h
  where
    fueled : {A : Type 0} {r : Outcome A} → Safe r → Post (λ (a : A). Unit {0}) Fueled r
    fueled (returns h) = returns tt
    fueled (stops h) = stops h.1

    left :
        {r : Outcome (List AstNode × Sema)}
        → Post (Done (λ n (p : List AstNode). All (IsResolved n) p) global) Fueled r
        → Post
            (λ (r : List AstNode × Sema).
              All (IsResolved (length r.1.entries)) r.0 × All IsFrame r.1.frames)
            Fueled
            (bind r λ (prog', s). (do leave; pure prog') s)
    left h =
        Post-bind h λ (prog', s) d. leave_global prog' s (d.result, d.well.store.framed) s.scope

-- Where the semantic analysis returns, every pointer to an entry in the tree, those of the parameters of
-- functions too, is set and points into the store that it leaves, and the size of every frame is a number
-- of words.
pub sema_check-IsResolved :
    (prog prog' : List AstNode) (type_env : HashMap TypeEnvEntry) (s : Sema) (warnings : List Bytes)
    → sema_check prog type_env ≡ ok (prog', s, warnings)
    → All (IsResolved (length s.entries)) prog' × All IsFrame s.frames
sema_check-IsResolved prog prog' type_env s warnings e = Post-ok (sema_check-Fueled prog type_env) e
