-- ===== src/Sema/Blocks.antt =====
-- sema.c: names behind the end of a block.
use my_lang.Prelude.{ℕ, ◌≡◌, Option, Post, returns, Fueled, Post-bind}
use my_lang.HashMap.Table.{HashMap}
use my_lang.Symbol.{TypeEnvEntry}
use my_lang.Ast.{AstNode, Nodes, comp_stmt, for_loop}
use my_lang.Sema.State.{Sema}
use my_lang.Sema.Names.{sym_check}
use my_lang.Sema.Later.{IsWell, Within}
use my_lang.Sema.Walk.{in_block-same}
use my_lang.Sema.Binding.{nodes-Walks, for-Walks, check-Walks}

-- From a well-formed state, and in a function whose name stands for something, where the walk over a block
-- or over a `for` returns, the scope is the one before it, with its table and with every scope around it:
-- whatever stands inside, other blocks and functions too, no name stands for anything else behind it.
pub sym_check-scope :
    (type_env : HashMap TypeEnvEntry) (list : Nodes) (init cond step body : AstNode)
    (frame : Option ℕ) (s : Sema)
    → IsWell s
    → Within frame s
    → Post
        (λ (r : AstNode × Sema). r.1.scope ≡ s.scope)
        Fueled
        (sym_check type_env (comp_stmt list) frame s)
      × Post
          (λ (r : AstNode × Sema). r.1.scope ≡ s.scope)
          Fueled
          (sym_check type_env (for_loop init cond step body) frame s)
unfolding sym_check
sym_check-scope type_env list init cond step body frame s w i = (
  Post-bind (in_block-same frame (nodes-Walks type_env list frame) s w i) λ (b, s₁) e. returns e,
  in_block-same frame
      (for-Walks frame (check-Walks type_env init frame) (check-Walks type_env cond frame)
        (check-Walks type_env step frame) (check-Walks type_env body frame))
      s w i,
)
