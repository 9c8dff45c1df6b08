-- ===== src/Sema/State.antt =====
-- sema.c: the state that the walk over the tree writes to, and the steps that its cases are made of.
use my_lang.Prelude.{
  ℕ, true, false, Option, none, some, List, [], ◌∷◌, ◌++◌, length, get_elem?, set, Outcome, ok,
  stop, Stop, bind, Stateful, ◌>>=◌, ◌>>◌, pure, Bytes,
}
use my_lang.Symbol.{SymTabEntry, StackFrame, TypeSpecifier, TypeEnvEntry}
use my_lang.HashMap.Table.{HashMap, hashmap_get}
use my_lang.Sema.Scope.{
  Scope, make_stack_frame, stackframe_add, enter_scope, exit_scope, scope_add, scope_lookup,
  in_scope,
}

-- The current scope; the stores of entries and of frames, in the order in which they were allocated;
-- `symbols`, the entries that `warn_unused` looks at.
pub record Sema : Type 0 where
  pub scope : Scope
  pub entries : List SymTabEntry
  pub frames : List StackFrame
  pub symbols : List ℕ

abbrev pub Check {ℓ} : Type ℓ → Type ℓ
Check = Stateful Sema

-- `INT_SIZE`
abbrev pub int_size : ℕ
int_size = 4

abbrev pub enter : Check (Unit {0})
enter s = bind (enter_scope s.scope) λ child. ok (tt, record s { scope = child })

-- The scope that the walk goes on with is the parent.
abbrev pub leave : Check (Unit {0})
leave s = bind (exit_scope s.scope) λ parent. ok (tt, record s { scope = parent })

-- A walk in a new scope, which is left at its end.
unfoldable pub in_block {ℓ} : {A : Type ℓ} → Check A → Check A
in_block m = do enter; a ← m; leave; pure a

-- `scope_lookup` in the current scope.
abbrev pub lookup : Bytes → Check (Option ℕ)
lookup key s = ok (scope_lookup s.scope key, s)

-- "Redefinition": a key that any scope on the way out knows ends the compiler.
abbrev pub check_new : Bytes → Check (Unit {0})
check_new key s = elim (in_scope s.scope key) [ true ↦ stop Stop.failure | false ↦ ok (tt, s) ]

-- A new entry of the store; its place is the pointer.
abbrev pub allocate : SymTabEntry → Check ℕ
allocate entry s = ok (length s.entries, record s { entries = s.entries ++ entry ∷ [] })

abbrev pub new_frame : Bytes → Check ℕ
new_frame func s =
    ok (length s.frames, record s { frames = s.frames ++ make_stack_frame func ∷ [] })

-- `vector_push(symbols, entry)`
abbrev pub push_symbol : ℕ → Check (Unit {0})
push_symbol place s = ok (tt, record s { symbols = s.symbols ++ place ∷ [] })

-- `scope_add(scope, entry)`
abbrev pub add_entry : ℕ → SymTabEntry → Check (Unit {0})
add_entry place entry s =
    bind (scope_add s.scope place entry) λ scope. ok (tt, record s { scope = scope })

-- The entry at a place.
abbrev pub entry_at : List SymTabEntry → ℕ → Outcome SymTabEntry
entry_at entries place = elim (get_elem? entries place) [
  | none ↦ stop Stop.undefined
  | some entry ↦ ok entry
]

-- `is_used = true`
abbrev pub mark_used : ℕ → Check SymTabEntry
mark_used place s =
    bind (entry_at s.entries place)
      λ e. ok (e, record s { entries = set s.entries place (record e { is_used = true }) })

-- `stackframe_add(frame, 1, INT_SIZE)`; outside a function there is no frame.
unfoldable pub add_slot : Option ℕ → Check ℕ
add_slot none s = stop Stop.null_pointer
add_slot (some place) s = elim (get_elem? s.frames place) [
  | none ↦ stop Stop.undefined
  | some frame ↦
      let (offset, frame') = stackframe_add frame 1 int_size in
      ok (offset, record s { frames = set s.frames place frame' })
]

-- `frame->func`
unfoldable pub function_of : Option ℕ → Check Bytes
function_of none s = stop Stop.null_pointer
function_of (some place) s = elim (get_elem? s.frames place) [
  | none ↦ stop Stop.undefined
  | some frame ↦ ok (frame.func, s)
]

-- `((TypeEnvEntry *)hashmap_get(type_env, name))->ts`
unfoldable pub type_named : HashMap TypeEnvEntry → Bytes → Outcome TypeSpecifier
type_named type_env name = elim (hashmap_get type_env name) [
  | none ↦ stop Stop.null_pointer
  | some entry ↦ ok entry.ts
]
