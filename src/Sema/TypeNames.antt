-- ===== src/Sema/TypeNames.antt =====
-- hashmap.c and sema.c: the types that a program can name.
use my_lang.Prelude.{
  ◌≡◌, refl, ap, ◌∙◌, Bool, true, false, Option, none, some, List, [], ◌∷◌, Outcome, ok, stop, Stop,
  Bytes, bytes, strcmp_eq, if◌then◌else◌,
}
use my_lang.HashMap.Table.{HashMap, hashmap_new, hashmap_add, hashmap_get}
use my_lang.HashMap.Lookup.{IsValid, hashmap_new-IsValid, hashmap_get-add, hashmap_get-new}
use my_lang.Symbol.{
  TypeSpecifier, TypeEnvEntry, make_type_env_entry, ts_int, ts_void, ts_char, ts_long, ts_double,
  ts_float,
}
use my_lang.Sema.State.{type_named}
use my_lang.Sema.Program.{type_env_init}

-- The first type of the list whose name it is.
unfoldable pub named_in : List (Bytes × TypeSpecifier) → Bytes → Outcome TypeSpecifier
named_in [] name = stop Stop.null_pointer
named_in ((value, ts) ∷ rest) name = if strcmp_eq value name then ok ts else named_in rest name

abbrev pub type_names : List (Bytes × TypeSpecifier)
type_names =
    (bytes "long", ts_long)
    ∷ (bytes "double", ts_double)
    ∷ (bytes "float", ts_float)
    ∷ (bytes "char", ts_char)
    ∷ (bytes "void", ts_void)
    ∷ (bytes "int", ts_int)
    ∷ []

-- An environment in which the names of the list, and no others, have their types.
record Names (type_env : HashMap TypeEnvEntry) (names : List (Bytes × TypeSpecifier)) : Type 0 where
  valid : IsValid type_env
  same : (name : Bytes) → type_named type_env name ≡ named_in names name

new-Names : Names hashmap_new []
unfolding type_named named_in
new-Names = record {
  valid = hashmap_new-IsValid;
  same = λ name.
      ap (λ o. elim o [ none ↦ stop Stop.null_pointer | some e ↦ ok e.ts ])
        (hashmap_get-new {V = TypeEnvEntry} name);
}

add-Names :
    (type_env : HashMap TypeEnvEntry) (names : List (Bytes × TypeSpecifier)) (value : Bytes)
    (ts : TypeSpecifier)
    → Names type_env names
    → Names (hashmap_add type_env (make_type_env_entry value ts) value) ((value, ts) ∷ names)
unfolding type_named named_in
add-Names type_env names value ts h = record {
  valid = (hashmap_get-add type_env (make_type_env_entry value ts) value value h.valid).0;
  same = λ name.
      ap (λ o. elim o [ none ↦ stop Stop.null_pointer | some e ↦ ok e.ts ])
        (hashmap_get-add type_env (make_type_env_entry value ts) value name h.valid).1
      ∙ split (strcmp_eq value name) (hashmap_get type_env name)
      ∙ ap (λ r. if strcmp_eq value name then ok ts else r) (h.same name);
}
  where
    split :
        (b : Bool) (o : Option TypeEnvEntry)
        → elim (if b then some (make_type_env_entry value ts) else o) [
          | none ↦ stop Stop.null_pointer
          | some e ↦ ok e.ts
        ]
          ≡ (if b then ok ts else elim o [ none ↦ stop Stop.null_pointer | some e ↦ ok e.ts ])
    split true o = refl
    split false o = refl

-- The names of types that the compiler knows are those of the six types, with their types; for any other
-- name a NULL pointer is read through.
pub type_named-type_env_init :
    (name : Bytes) → type_named (type_env_init hashmap_new) name ≡ named_in type_names name
unfolding type_env_init
type_named-type_env_init name =
    (add-Names _ _ (bytes "long") ts_long (
        add-Names _ _ (bytes "double") ts_double (
          add-Names _ _ (bytes "float") ts_float (
            add-Names _ _ (bytes "char") ts_char (
              add-Names _ _ (bytes "void") ts_void
                (add-Names _ _ (bytes "int") ts_int new-Names)))))).same
      name
