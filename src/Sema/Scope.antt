-- ===== src/Sema/Scope.antt =====
-- sema.c: scopes and stack frames. A table holds the places of entries in the store.
use my_lang.Prelude.{
  ℕ, ◌+◌, ◌*◌, Bool, true, false, Option, none, some, Outcome, ok, stop, Stop, Bytes,
}
use my_lang.HashMap.Table.{HashMap, hashmap_add, hashmap_get, symtab_clone}
use my_lang.Symbol.{SymTabEntry, StackFrame}

-- `struct Scope *`: NULL, or a table and the parent.
pub data Scope : Type 0 where
  no_scope : Scope
  scope : (symtab : HashMap ℕ) → (parent : Scope) → Scope

abbrev pub make_stack_frame : Bytes → StackFrame
make_stack_frame func = record { size = 0; func = func }

-- The offset of the new variable, and the frame behind it.
unfoldable pub stackframe_add : StackFrame → ℕ → ℕ → ℕ × StackFrame
stackframe_add frame n type_size = (frame.size, record frame { size = frame.size + type_size * n })

unfoldable pub enter_scope : Scope → Outcome Scope
enter_scope no_scope = stop Stop.null_pointer
enter_scope (scope symtab parent) = ok (scope (symtab_clone symtab) (scope symtab parent))

unfoldable pub exit_scope : Scope → Outcome Scope
exit_scope no_scope = stop Stop.null_pointer
exit_scope (scope symtab parent) = ok parent

-- The entry at a place is put under its key.
unfoldable pub scope_add : Scope → ℕ → SymTabEntry → Outcome Scope
scope_add no_scope place entry = stop Stop.null_pointer
scope_add (scope symtab parent) place entry = ok (scope (hashmap_add symtab place entry.key) parent)

-- `if (entry) return entry;`, else what the outer scopes hold.
abbrev pub or_outer : Option ℕ → Option ℕ → Option ℕ
or_outer (some entry) outer = some entry
or_outer none outer = outer

unfoldable pub scope_lookup : Scope → Bytes → Option ℕ
scope_lookup no_scope key = none
scope_lookup (scope symtab parent) key = or_outer (hashmap_get symtab key) (scope_lookup parent key)

unfoldable pub in_scope : Scope → Bytes → Bool
in_scope s key = elim (scope_lookup s key) [ none ↦ false | some entry ↦ true ]
