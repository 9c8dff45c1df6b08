-- ===== src/Sema/Bound.antt =====
-- sema.c: `sym_check` over a whole program.
use my_lang.Prelude.{
  ℕ, Option, none, List, [], ◌∷◌, All, length, Post, returns, Fueled, Post-bind, Post-mono,
}
use my_lang.HashMap.Table.{HashMap}
use my_lang.HashMap.Lookup.{hashmap_get-new}
use my_lang.HashMap.Clone.{hashmap_new-IsSymtab}
use my_lang.Symbol.{TypeEnvEntry}
use my_lang.Ast.{AstNode}
use my_lang.Sema.State.{Sema}
use my_lang.Sema.Names.{sym_check}
use my_lang.Sema.Program.{sym_program, global}
use my_lang.Sema.Resolved.{IsResolved, IsResolved-mono}
use my_lang.Sema.Later.{IsWell, Within, Within-Later}
use my_lang.Sema.Steps.{Done, unchanged, from}
use my_lang.Sema.Binding.{check-Walks}

pub global-IsWell : IsWell global
global-IsWell = record {
  tables = (hashmap_new-IsSymtab, tt);
  below = ((λ key place e. (cc (hashmap_get-new key, e))), tt);
  store = record { framed = tt; listed = tt };
}

-- From a well-formed state, and in a function whose name stands for something, where the walk over a tree
-- returns, the state is well formed, and in the tree that it returns every pointer to an entry is set,
-- those of the parameters of functions too, and points into the store.
pub sym_check-IsResolved :
    (type_env : HashMap TypeEnvEntry) (a : AstNode) (frame : Option ℕ) (s : Sema)
    → IsWell s
    → Within frame s
    → Post
        (λ (r : AstNode × Sema).
          IsWell r.1 × Within frame r.1 × IsResolved (length r.1.entries) r.0)
        Fueled
        (sym_check type_env a frame s)
sym_check-IsResolved type_env a frame s w i =
    Post-mono (check-Walks type_env a frame s w i)
      λ r d. (d.well, Within-Later frame d.later i, d.result)

pub program-Done :
    (type_env : HashMap TypeEnvEntry) (prog : List AstNode) (s : Sema)
    → IsWell s
    → Post
        (Done (λ n (p : List AstNode). All (IsResolved n) p) s)
        Fueled
        (sym_program type_env prog s)
unfolding sym_program
program-Done type_env [] s w = returns (unchanged s w tt)
program-Done type_env (a ∷ prog) s w = Post-bind (check-Walks type_env a none s w tt) λ (a', s₁) d₁.
    Post-bind (program-Done type_env prog s₁ d₁.well) λ (prog', s₂) d₂. returns (
      from d₁.later (record {
        well = d₂.well;
        later = d₂.later;
        result = (IsResolved-mono d₂.later.grown a' d₁.result, d₂.result);
      }))
