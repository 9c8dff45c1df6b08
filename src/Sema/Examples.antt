-- ===== src/Sema/Examples.antt =====
-- Runs of the semantic analysis.
use my_lang.Prelude.{
  ℕ, ◌+◌, ◌*◌, ◌%◌, ◌≤◌, ◌≡◌, ◌≢◌, refl, Option, none, some, List, [], ◌∷◌, All, length, ok, stop,
  Stop, Post, Fueled, Bytes, bytes, strcmp_eq, true,
}
use my_lang.Prelude.Int.{pos}
use my_lang.Lex.Token.{tok_add}
use my_lang.HashMap.Table.{
  HashMap, hashmap_new, hashmap_add, hashmap_get, symtab_clone, bucket_index,
}
use my_lang.HashMap.Chain.{insert, find}
use my_lang.Symbol.{
  TypeEnvEntry, SymTabEntry, make_symtab_entry, ts_int, sym_function, sym_variable,
}
use my_lang.Ast.{
  Param, AstNode, int_const, bin_exp, func_def, ident, comp_stmt, ret, var_dec, var_def, node,
  no_nodes, just,
}
use my_lang.Asm.State.{temp_count, arg_count}
use my_lang.Asm.Eval.{locals_base}
use my_lang.Asm.Gen.{frame_size}
use my_lang.Sema.Scope.{
  make_stack_frame, no_scope, scope, enter_scope, exit_scope, scope_add, scope_lookup, in_scope,
  stackframe_add,
}
use my_lang.Sema.State.{Sema}
use my_lang.Sema.Names.{sym_check}
use my_lang.Sema.Types.{type_check}
use my_lang.Sema.Program.{type_env_init, sym_program, type_program, global, sema_check}
use my_lang.Sema.Resolved.{IsResolved}
use my_lang.Sema.Later.{IsWell, IsFrame, Within}
use my_lang.Sema.Bound.{global-IsWell, sym_check-IsResolved}
use my_lang.Sema.Sound.{type_program-ne-null_pointer, type_check-bin_exp, sema_check-IsResolved}
use my_lang.Sema.Accepted.{sema_check-accepts, frame_size-sema_check}
use my_lang.Sema.Erase.{erase, erase-sym_check}
use my_lang.Sema.Slots.{Slots, size_at}
use my_lang.Sema.Locals.{locals, sym_check-Slots}
use my_lang.Prelude.{◌↔◌, false}
use my_lang.Sema.State.{type_named}
use my_lang.Sema.TypeNames.{named_in, type_names, type_named-type_env_init}
use my_lang.Sema.Warnings.{Among, IsUnused, warn_unused-IsUnused}
use my_lang.Sema.Program.{warn_unused}
use my_lang.Sema.Leak.{sym_check-params}
use my_lang.Sema.Blocks.{sym_check-scope}
use my_lang.Ast.{Nodes, for_loop, empty_expr}

abbrev types : HashMap TypeEnvEntry
types = type_env_init hashmap_new

-- int main() { int x = 1; return x; }
abbrev main_function : AstNode
main_function =
    func_def (bytes "main") (bytes "int")
      (comp_stmt (
        node (var_def (bytes "x") (bytes "int") (just (int_const (pos 1))) none)
          (node (ret (ident (bytes "x") none) none) no_nodes)))
      [] none

abbrev main_resolved : AstNode
main_resolved =
    func_def (bytes "main") (bytes "int")
      (comp_stmt (
        node (var_def (bytes "x") (bytes "int") (just (int_const (pos 1))) (some 1))
          (node (ret (ident (bytes "x") (some 1)) (some 0)) no_nodes)))
      [] (some 0)

abbrev main_entry : SymTabEntry
main_entry = record (make_symtab_entry (bytes "main") ts_int sym_function) {
  params = some [];
  frame = some 0;
}

abbrev x_entry : SymTabEntry
x_entry = record (make_symtab_entry (bytes "x") ts_int sym_variable) {
  offset = some 0;
  is_used = true;
}

abbrev main_state : Sema
main_state = record {
  scope = scope (hashmap_add hashmap_new 0 (bytes "main")) no_scope;
  entries = main_entry ∷ x_entry ∷ [];
  frames = record { size = 4; func = bytes "main" } ∷ [];
  symbols = 0 ∷ 1 ∷ [];
}

main_checked : sym_program types (main_function ∷ []) global ≡ ok (main_resolved ∷ [], main_state)
unfolding strcmp_eq sym_program type_env_init make_symtab_entry enter_scope exit_scope scope_add
    scope_lookup in_scope stackframe_add hashmap_new hashmap_add hashmap_get symtab_clone
    bucket_index insert find
main_checked = refl

main_typed : type_program main_state.entries (main_resolved ∷ []) ≡ ok tt
unfolding type_program make_symtab_entry
main_typed = refl

main_accepted :
    sema_check (main_function ∷ []) types
    ≡ ok (main_resolved ∷ [], record main_state { scope = no_scope }, [])
unfolding strcmp_eq sema_check type_env_init make_symtab_entry enter_scope exit_scope scope_add
    scope_lookup in_scope stackframe_add hashmap_new hashmap_add hashmap_get symtab_clone
    bucket_index insert find
main_accepted = refl

abbrev a_param : Param
a_param = record { value = bytes "a"; type = bytes "int"; symbol = none }

-- int f(int a) { return a; }
abbrev identity : AstNode
identity =
    func_def (bytes "f") (bytes "int")
      (comp_stmt (node (ret (ident (bytes "a") none) none) no_nodes)) (a_param ∷ []) none

sym_check-IsResolved_example :
    Post
      (λ (r : AstNode × Sema). IsWell r.1 × Within none r.1 × IsResolved (length r.1.entries) r.0)
      Fueled
      (sym_check types identity none global)
sym_check-IsResolved_example = sym_check-IsResolved types identity none global global-IsWell tt

type_program-ne-null_pointer_example :
    All (IsResolved (length main_state.entries)) (main_resolved ∷ [])
    × (type_program main_state.entries (main_resolved ∷ []) ≢ stop Stop.null_pointer)
type_program-ne-null_pointer_example =
    type_program-ne-null_pointer types (main_function ∷ []) (main_resolved ∷ []) main_state
      main_checked

type_check-bin_exp_example :
    type_check
      (x_entry ∷ [])
      (bin_exp (bytes "+") tok_add (ident (bytes "x") (some 0)) (ident (bytes "y") none))
    ≡ type_check (x_entry ∷ []) (ident (bytes "x") (some 0))
type_check-bin_exp_example =
    type_check-bin_exp (x_entry ∷ []) (bytes "+") tok_add (ident (bytes "x") (some 0))
      (ident (bytes "y") none)

sema_check-IsResolved_example :
    All (IsResolved (length main_state.entries)) (main_resolved ∷ [])
    × All IsFrame main_state.frames
sema_check-IsResolved_example =
    sema_check-IsResolved (main_function ∷ []) (main_resolved ∷ []) types
      (record main_state { scope = no_scope }) [] main_accepted

sema_check-accepts_example :
    (warnings : List Bytes) × (sema_check (main_function ∷ []) types
      ≡ ok (main_resolved ∷ [], record main_state { scope = no_scope }, warnings))
sema_check-accepts_example =
    sema_check-accepts types (main_function ∷ []) (main_resolved ∷ []) main_state main_checked
      main_typed

frame_size-sema_check_example :
    All
      (λ frame.
        (frame_size frame.size % 16 ≡ 0)
        × (locals_base + frame.size + 4 * temp_count + 4 * arg_count ≤ frame_size frame.size))
      main_state.frames
frame_size-sema_check_example =
    frame_size-sema_check (main_function ∷ []) (main_resolved ∷ []) types
      (record main_state { scope = no_scope }) [] main_accepted

main_known : scope_lookup main_state.scope (bytes "main") ≡ some 0
unfolding strcmp_eq scope_lookup hashmap_new hashmap_add hashmap_get bucket_index insert find
main_known = refl

sym_check-params_example :
    Post
      (λ (r : AstNode × Sema).
        All
          (λ p.
            (type : Bytes) (symbol : Option ℕ) (frame : Option ℕ)
            → sym_check types (var_dec p.value type symbol) frame r.1 ≡ stop Stop.failure)
          (a_param ∷ []))
      Fueled
      (sym_check types
        (func_def (bytes "f") (bytes "int") (comp_stmt no_nodes) (a_param ∷ []) none)
        none
        global)
sym_check-params_example =
    sym_check-params types (bytes "f") (bytes "int") (comp_stmt no_nodes) (a_param ∷ []) none none
      global global-IsWell

main_walked : sym_check types main_function none global ≡ ok (main_resolved, main_state)
unfolding strcmp_eq sym_check type_env_init make_symtab_entry enter_scope exit_scope scope_add
    scope_lookup in_scope stackframe_add hashmap_new hashmap_add hashmap_get symtab_clone
    bucket_index insert find
main_walked = refl

erase-sym_check_example : erase main_resolved ≡ erase main_function
erase-sym_check_example =
    erase-sym_check types main_function main_resolved none global main_state main_walked

-- { int x; int y; }
abbrev two_variables : AstNode
two_variables = comp_stmt (
    node (var_dec (bytes "x") (bytes "int") none)
      (node (var_dec (bytes "y") (bytes "int") none) no_nodes))

abbrev two_resolved : AstNode
two_resolved = comp_stmt (
    node (var_dec (bytes "x") (bytes "int") (some 0))
      (node (var_dec (bytes "y") (bytes "int") (some 1)) no_nodes))

abbrev in_main : Sema
in_main = record global { frames = make_stack_frame (bytes "main") ∷ [] }

abbrev two_state : Sema
two_state = record global {
  entries =
      record (make_symtab_entry (bytes "x") ts_int sym_variable) { offset = some 0 }
      ∷ record (make_symtab_entry (bytes "y") ts_int sym_variable) { offset = some 4 }
      ∷ [];
  frames = record { size = 8; func = bytes "main" } ∷ [];
}

two_walked : sym_check types two_variables (some 0) in_main ≡ ok (two_resolved, two_state)
unfolding strcmp_eq sym_check type_env_init make_symtab_entry enter_scope exit_scope scope_add
    scope_lookup in_scope stackframe_add hashmap_new hashmap_add hashmap_get symtab_clone
    bucket_index insert find
two_walked = refl

sym_check-Slots_example :
    (top : ℕ) × (size_at two_state.frames 0 ≡ some top)
    × Slots two_state.entries 0 (locals two_resolved) top
sym_check-Slots_example =
    sym_check-Slots types two_variables two_resolved 0 0 in_main two_state refl two_walked

type_named-type_env_init_example :
    type_named types (bytes "char") ≡ named_in type_names (bytes "char")
type_named-type_env_init_example = type_named-type_env_init (bytes "char")

abbrev y_entry : SymTabEntry
y_entry = record x_entry { key = bytes "y"; is_used = false }

two_warned : warn_unused (x_entry ∷ y_entry ∷ []) (0 ∷ 1 ∷ []) ≡ ok (bytes "y" ∷ [])
unfolding warn_unused strcmp_eq make_symtab_entry
two_warned = refl

warn_unused-IsUnused_example :
    Among (λ w. w ≡ bytes "y") (bytes "y" ∷ [])
    ↔ Among (IsUnused (x_entry ∷ y_entry ∷ []) (bytes "y")) (0 ∷ 1 ∷ [])
warn_unused-IsUnused_example =
    warn_unused-IsUnused (x_entry ∷ y_entry ∷ []) (0 ∷ 1 ∷ []) (bytes "y" ∷ []) (bytes "y")
      two_warned

-- `int x = 1;`
abbrev define_x : AstNode
define_x = var_def (bytes "x") (bytes "int") (just (int_const (pos 1))) none

abbrev one_variable : Nodes
one_variable = node define_x no_nodes

sym_check-scope_example :
    Post
      (λ (r : AstNode × Sema). r.1.scope ≡ global.scope)
      Fueled
      (sym_check types (comp_stmt one_variable) none global)
    × Post
        (λ (r : AstNode × Sema). r.1.scope ≡ global.scope)
        Fueled
        (sym_check types
          (for_loop define_x (int_const (pos 1)) empty_expr (comp_stmt one_variable))
          none
          global)
sym_check-scope_example =
    sym_check-scope types one_variable define_x (int_const (pos 1)) empty_expr
      (comp_stmt one_variable) none global global-IsWell tt
