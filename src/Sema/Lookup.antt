-- ===== src/Sema/Lookup.antt =====
-- sema.c: what names stand for in a scope.
use my_lang.Prelude.{
  ℕ, ◌≡◌, refl, ap, ◌∙◌, Bool, true, false, Option, none, some, Stop, Post, returns, stops, Bytes,
  strcmp_eq, if◌then◌else◌,
}
use my_lang.HashMap.Table.{HashMap, hashmap_get, symtab_clone}
use my_lang.HashMap.Lookup.{hashmap_get-add}
use my_lang.HashMap.Clone.{IsSymtab, hashmap_add-IsSymtab, hashmap_get-symtab_clone}
use my_lang.Symbol.{SymTabEntry}
use my_lang.Sema.Scope.{Scope, no_scope, scope, scope_add, or_outer, scope_lookup}

-- Every table on the way to the outermost scope is well formed.
abbrev pub IsScope : Scope → Type 0
IsScope no_scope = Unit
IsScope (scope symtab parent) = IsSymtab symtab × IsScope parent

twice : (o r : Option ℕ) → or_outer o (or_outer o r) ≡ or_outer o r
twice none r = refl
twice (some e) r = refl

found_or :
    (b : Bool) (place : ℕ) (o r : Option ℕ)
    → or_outer (if b then some place else o) r ≡ (if b then some place else or_outer o r)
found_or true place o r = refl
found_or false place o r = refl

pub scope_lookup-child :
    (symtab : HashMap ℕ) (parent : Scope) (key : Bytes)
    → IsSymtab symtab
    → scope_lookup (scope (symtab_clone symtab) (scope symtab parent)) key
      ≡ scope_lookup (scope symtab parent) key
unfolding scope_lookup
scope_lookup-child symtab parent key h =
    ap (λ o. or_outer o (or_outer (hashmap_get symtab key) (scope_lookup parent key)))
      (hashmap_get-symtab_clone symtab key h)
    ∙ twice (hashmap_get symtab key) (scope_lookup parent key)

-- In a scope whose tables are well formed: an entry that is added is found under its key, whatever
-- outer scopes hold, every other name is found as before, and the tables stay well formed. Only a NULL
-- scope is read through.
pub scope_lookup-scope_add :
    (s : Scope) (place : ℕ) (entry : SymTabEntry) (key : Bytes)
    → IsScope s
    → Post
        (λ s'.
          IsScope s'
          × (scope_lookup s' key
              ≡ (if strcmp_eq entry.key key then some place else scope_lookup s key)))
        (λ e. e ≡ Stop.null_pointer)
        (scope_add s place entry)
unfolding scope_add scope_lookup
scope_lookup-scope_add no_scope place entry key h = stops refl
scope_lookup-scope_add (scope symtab parent) place entry key h = returns (
  (hashmap_add-IsSymtab symtab place entry.key h.0, h.1),
  ap (λ o. or_outer o (scope_lookup parent key))
        ((hashmap_get-add symtab place entry.key key h.0.valid).1)
      ∙ found_or (strcmp_eq entry.key key) place (hashmap_get symtab key) (scope_lookup parent key),
)
