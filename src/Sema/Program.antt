-- ===== src/Sema/Program.antt =====
-- sema.c: `warn_unused` and `sema_check`; hashmap.c: `type_env_init`.
use my_lang.Prelude.{
  ℕ, none, List, [], ◌∷◌, Outcome, ok, bind, ◌>>=◌, ◌>>◌, pure, Bytes, bytes, strcmp_eq,
  if◌then◌else◌, ◌||◌,
}
use my_lang.Symbol.{
  SymTabEntry, TypeSpecifier, TypeEnvEntry, make_type_env_entry, ts_int, ts_void, ts_char, ts_long,
  ts_double, ts_float,
}
use my_lang.Ast.{AstNode}
use my_lang.HashMap.Table.{HashMap, hashmap_new, hashmap_add}
use my_lang.Sema.Scope.{no_scope, scope}
use my_lang.Sema.State.{Sema, Check, entry_at, leave}
use my_lang.Sema.Names.{sym_check}
use my_lang.Sema.Types.{type_check}

abbrev add_type : HashMap TypeEnvEntry → Bytes → TypeSpecifier → HashMap TypeEnvEntry
add_type type_env value ts = hashmap_add type_env (make_type_env_entry value ts) value

-- `type_env_init` on the map that `hashmap_new` made.
unfoldable pub type_env_init : HashMap TypeEnvEntry → HashMap TypeEnvEntry
type_env_init type_env =
    add_type
      (add_type
        (add_type
          (add_type (add_type (add_type type_env (bytes "int") ts_int) (bytes "void") ts_void)
            (bytes "char") ts_char)
          (bytes "float") ts_float)
        (bytes "double") ts_double)
      (bytes "long") ts_long

-- The keys that warnings are printed for, in order.
unfoldable pub warn_unused : List SymTabEntry → List ℕ → Outcome (List Bytes)
warn_unused entries [] = ok []
warn_unused entries (place ∷ places) = bind (entry_at entries place) λ symbol.
    bind (warn_unused entries places) λ warnings. ok (
      if symbol.is_used || strcmp_eq symbol.key (bytes "main")
      then warnings
      else symbol.key ∷ warnings)

unfoldable pub sym_program : HashMap TypeEnvEntry → List AstNode → Check (List AstNode)
unfolding sym_check
sym_program type_env [] = pure []
sym_program type_env (a ∷ prog) = do
  a' ← sym_check type_env a none
  prog' ← sym_program type_env prog
  pure (a' ∷ prog')

unfoldable pub type_program : List SymTabEntry → List AstNode → Outcome (Unit {0})
unfolding type_check
type_program entries [] = ok tt
type_program entries (a ∷ prog) = bind (type_check entries a) λ _. type_program entries prog

-- The global scope, whose parent is NULL, and no entry yet.
abbrev pub global : Sema
global = record { scope = scope hashmap_new no_scope; entries = []; frames = []; symbols = [] }

-- The tree with its pointers set, the state, and the warnings.
unfoldable pub sema_check :
    List AstNode → HashMap TypeEnvEntry → Outcome (List AstNode × Sema × List Bytes)
unfolding sym_program type_program warn_unused
sema_check prog type_env =
    bind ((do prog' ← sym_program type_env prog; leave; pure prog') global) λ (prog', s).
      bind (type_program s.entries prog')
        λ _. bind (warn_unused s.entries s.symbols) λ warnings. ok (prog', s, warnings)
