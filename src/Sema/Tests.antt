-- ===== src/Sema/Tests.antt =====
-- Runs over scopes.
use my_lang.Prelude.{◌≡◌, some, Post, Stop, bytes, if◌then◌else◌, strcmp_eq}
use my_lang.HashMap.Table.{hashmap_new}
use my_lang.HashMap.Clone.{hashmap_new-IsSymtab}
use my_lang.Symbol.{SymTabEntry, make_symtab_entry, ts_int, sym_variable}
use my_lang.Sema.Scope.{Scope, no_scope, scope, scope_add, scope_lookup}
use my_lang.Sema.Lookup.{IsScope, scope_lookup-scope_add}

abbrev global : Scope
global = scope hashmap_new no_scope

abbrev variable : SymTabEntry
variable = make_symtab_entry (bytes "x") ts_int sym_variable

scope_lookup-scope_add_example :
    Post
      (λ s'.
        IsScope s'
        × (scope_lookup s' (bytes "y") ≡ (
            if strcmp_eq variable.key (bytes "y")
            then some 0
            else scope_lookup global (bytes "y"))))
      (λ e. e ≡ Stop.null_pointer)
      (scope_add global 0 variable)
scope_lookup-scope_add_example =
    scope_lookup-scope_add global 0 variable (bytes "y") (hashmap_new-IsSymtab, tt)
