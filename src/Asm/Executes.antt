-- ===== src/Asm/Executes.antt =====
-- asm.c: what a statement of the program does to the words of a stack frame, as an inductive family of its
-- own, for statements that come to their end without a `return`.
use my_lang.Prelude.{ℕ, ◌+◌, ◌≤◌, ◌≡◌, ◌≢◌, some, List, get_elem?, Bytes}
use my_lang.Symbol.{SymTabEntry}
use my_lang.Ast.{
  SymbolRef, AstNode, var_def, comp_stmt, if_else, enum, var_dec, while_loop, for_loop, empty_expr,
  expr_stmt, Nodes, no_nodes, node, MaybeNode, null, just,
}
use my_lang.Asm.Eval.{locals_base}
use my_lang.Asm.Machine.{minus, put}
use my_lang.Asm.Meaning.{Memory, Evaluates}
use my_lang.Asm.Bodies.{IsStatement}

-- `Executes a m m'`: in the memory `m` the statement comes to its end, and leaves the memory `m'`. Of an
-- `if` with an `else`, only the way through the `else` is here.
mutual
  pub data Executes (symbols : List SymTabEntry) (fp : ℕ) : AstNode → Memory → Memory → Type 0 where
    nothing : {m : Memory} → Executes symbols fp empty_expr m m
    declaration :
        {x t : Bytes} {r : SymbolRef} {m : Memory} → Executes symbols fp (var_dec x t r) m m
    enumeration : {x : Bytes} {es : List Bytes} {m : Memory} → Executes symbols fp (enum x es) m m
    semicolon : {m : Memory} → Executes symbols fp (expr_stmt empty_expr) m m
    expression :
        {e : AstNode} {v : ℕ} {m m' : Memory}
        → Evaluates symbols fp e m v m'
        → Executes symbols fp (expr_stmt e) m m'
    definition :
        {x t : Bytes} {p o v : ℕ} {y : SymTabEntry} {e : AstNode} {m m' : Memory}
        → get_elem? symbols p ≡ some y
        → y.offset ≡ some o
        → o + locals_base ≤ 2048
        → Evaluates symbols fp e m v m'
        → Executes symbols fp
            (var_def x t (just e) (some p))
            m
            (put m' (minus fp (o + locals_base)) v)
    block_end : {m : Memory} → Executes symbols fp (comp_stmt no_nodes) m m
    block_next :
        {a : AstNode} {rest : Nodes} {m m₁ m₂ : Memory}
        → Executes symbols fp a m m₁
        → Executes symbols fp (comp_stmt rest) m₁ m₂
        → Executes symbols fp (comp_stmt (node a rest)) m m₂
    if_true :
        {c body : AstNode} {v : ℕ} {m m₁ m₂ : Memory}
        → Evaluates symbols fp c m v m₁
        → v ≢ 0
        → Executes symbols fp body m₁ m₂
        → Executes symbols fp (if_else c body null) m m₂
    if_false :
        {c body : AstNode} {m m₁ : Memory}
        → Evaluates symbols fp c m 0 m₁
        → IsStatement body
        → Executes symbols fp (if_else c body null) m m₁
    if_else_false :
        {c body other : AstNode} {m m₁ m₂ : Memory}
        → Evaluates symbols fp c m 0 m₁
        → IsStatement body
        → Executes symbols fp other m₁ m₂
        → Executes symbols fp (if_else c body (just other)) m m₂
    while_end :
        {c body : AstNode} {m m₁ : Memory}
        → Evaluates symbols fp c m 0 m₁
        → IsStatement body
        → Executes symbols fp (while_loop c body) m m₁
    while_next :
        {c body : AstNode} {v : ℕ} {m m₁ m₂ m₃ : Memory}
        → Evaluates symbols fp c m v m₁
        → v ≢ 0
        → Executes symbols fp body m₁ m₂
        → Executes symbols fp (while_loop c body) m₂ m₃
        → Executes symbols fp (while_loop c body) m m₃
    for_definition :
        {x ty : Bytes} {e : MaybeNode} {p : SymbolRef} {c step body : AstNode} {m m₁ m₂ : Memory}
        → Executes symbols fp (var_def x ty e p) m m₁
        → Rounds symbols fp c step body m₁ m₂
        → Executes symbols fp (for_loop (var_def x ty e p) c step body) m m₂
    for_expression :
        {e c step body : AstNode} {m m₁ m₂ : Memory}
        → Executes symbols fp (expr_stmt e) m m₁
        → Rounds symbols fp c step body m₁ m₂
        → Executes symbols fp (for_loop e c step body) m m₂

  -- From the condition of a `for` to its end.
  pub data Rounds (symbols : List SymTabEntry) (fp : ℕ)
      : AstNode → AstNode → AstNode → Memory → Memory → Type 0 where
    last_round :
        {c step body : AstNode} {m m₁ : Memory}
        → Evaluates symbols fp c m 0 m₁
        → IsStatement body
        → Rounds symbols fp c step body m m₁
    round :
        {c step body : AstNode} {v : ℕ} {m m₁ m₂ m₃ m₄ : Memory}
        → Evaluates symbols fp c m v m₁
        → v ≢ 0
        → Executes symbols fp body m₁ m₂
        → Executes symbols fp (expr_stmt step) m₂ m₃
        → Rounds symbols fp c step body m₃ m₄
        → Rounds symbols fp c step body m m₄

mutual
  unfolding IsStatement

  pub Executes-IsStatement :
      {symbols : List SymTabEntry} {fp : ℕ} {a : AstNode} {m m' : Memory}
      → Executes symbols fp a m m'
      → IsStatement a
  Executes-IsStatement nothing = tt
  Executes-IsStatement declaration = tt
  Executes-IsStatement enumeration = tt
  Executes-IsStatement semicolon = tt
  Executes-IsStatement (expression d) = tt
  Executes-IsStatement (definition h k s d) = tt
  Executes-IsStatement block_end = tt
  Executes-IsStatement (block_next d e) = (Executes-IsStatement d, Executes-IsStatement e)
  Executes-IsStatement (if_true d h e) = (Executes-IsStatement e, tt)
  Executes-IsStatement (if_false d p) = (p, tt)
  Executes-IsStatement (if_else_false d p e) = (p, Executes-IsStatement e)
  Executes-IsStatement (while_end d p) = p
  Executes-IsStatement (while_next d h e f) = Executes-IsStatement e
  Executes-IsStatement (for_definition d e) = Rounds-IsStatement e
  Executes-IsStatement (for_expression d e) = Rounds-IsStatement e

  pub Rounds-IsStatement :
      {symbols : List SymTabEntry} {fp : ℕ} {c step body : AstNode} {m m' : Memory}
      → Rounds symbols fp c step body m m'
      → IsStatement body
  Rounds-IsStatement (last_round d p) = p
  Rounds-IsStatement (round d n e f g) = Executes-IsStatement e
