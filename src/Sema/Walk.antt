-- ===== src/Sema/Walk.antt =====
-- sema.c: entries put in scopes, and blocks, from well-formed states.
use my_lang.Prelude.{
  ℕ, ◌<◌, ◌≤◌, ◌≡◌, refl, sym, ap, ◌∙◌, Option, none, some, [], ◌∷◌, ◌++◌, length, arith, ok, Post,
  returns, stops, Fueled, Post-bind, Post-mono, bind, Bytes, strcmp_eq, strcmp_eq_refl,
  if◌then◌else◌, Bool-cases, inl, inr,
}
use mathlib.Core.Path.{subst}
use my_lang.HashMap.Table.{HashMap, hashmap_get, hashmap_add, symtab_clone}
use my_lang.HashMap.Lookup.{hashmap_get-add}
use my_lang.HashMap.Clone.{
  IsSymtab, hashmap_add-IsSymtab, symtab_clone-IsSymtab, hashmap_get-symtab_clone,
}
use my_lang.Symbol.{SymTabEntry}
use my_lang.Sema.Scope.{
  Scope, no_scope, scope, enter_scope, exit_scope, scope_add, scope_lookup, or_outer,
}
use my_lang.Sema.Lookup.{IsScope, scope_lookup-child}
use my_lang.Sema.State.{Sema, Check, leave, in_block, add_entry}
use my_lang.Sema.Later.{
  Holds, ScopeBelow, ScopeBelow-mono, IsWell, Extends, wider, Extends-refl, frame_func, Within,
}
use my_lang.Sema.Steps.{Done, Walks, Nothing, from, push_symbol-Done}

module _ (t : HashMap ℕ) (place : ℕ) (e : SymTabEntry) (h : IsSymtab t) where
  get-added :
      (key : Bytes)
      → hashmap_get (hashmap_add t place e.key) key
        ≡ (if strcmp_eq e.key key then some place else hashmap_get t key)
  get-added key = (hashmap_get-add t place e.key key h.valid).1

  added-Holds : (key : Bytes) → Holds t key → Holds (hashmap_add t place e.key) key
  added-Holds key (p, k) = elim (Bool-cases (strcmp_eq e.key key)) [
    | inl b ↦ (place, get-added key ∙ rw b)
    | inr b ↦ (p, get-added key ∙ rw b k)
  ]

  added-lt :
      (n : ℕ)
      → place < n
      → ((key : Bytes) (p : ℕ) → hashmap_get t key ≡ some p → p < n)
      → (key : Bytes) (p : ℕ) → hashmap_get (hashmap_add t place e.key) key ≡ some p
      → p < n
  added-lt n lt below key p k = ground (arith, get-added key, below key p)

-- The entry is put in the current scope.
pub add_entry-Done :
    (place : ℕ) (e : SymTabEntry) (s : Sema)
    → place < length s.entries
    → IsWell s
    → Post
        (λ (r : Unit {0} × Sema). Done Nothing s r × (scope_lookup r.1.scope e.key ≡ some place))
        Fueled
        (add_entry place e s)
unfolding scope_add scope_lookup
add_entry-Done place e s lt w = of s.scope refl w.tables w.below
  where
    of :
        (sc : Scope)
        → s.scope ≡ sc
        → IsScope sc
        → ScopeBelow (length s.entries) sc
        → Post
            (λ (r : Unit {0} × Sema).
              Done Nothing s r × (scope_lookup r.1.scope e.key ≡ some place))
            Fueled
            (bind (scope_add sc place e) λ scope. ok (tt, record s { scope = scope }))
    of no_scope eq h b = stops (cc)
    of (scope t parent) eq h b = returns (
      record {
        well = record {
          tables = (hashmap_add-IsSymtab t place e.key h.0, h.1);
          below = (added-lt t place e h.0 (length s.entries) lt b.0, b.1);
          store = w.store;
        };
        later = record {
          grown = omega arith;
          named = λ i name k. k;
          extended =
              subst (λ sc. Extends sc (scope (hashmap_add t place e.key) parent)) (sym eq)
                (wider parent (added-Holds t place e h.0));
        };
        result = tt;
      },
      ap (λ o. or_outer o (scope_lookup parent e.key))
          (get-added t place e h.0 e.key
            ∙ ap (λ b. if b then some place else hashmap_get t e.key) (strcmp_eq_refl e.key)),
    )

-- The same, behind `vector_push(symbols, entry)`.
pub pushed-Done :
    (place : ℕ) (e : SymTabEntry) (s : Sema)
    → place < length s.entries
    → IsWell s
    → Post
        (Done Nothing s)
        Fueled
        (add_entry place e (record s { symbols = s.symbols ++ place ∷ [] }))
pushed-Done place e s lt w =
    let p = push_symbol-Done place s lt w in
    Post-mono (add_entry-Done place e _ lt p.well) λ r (d, k). from p.later d

Extends-shape :
    {t : HashMap ℕ} {parent sc : Scope}
    → Extends (scope t parent) sc
    → (t' : HashMap ℕ) × (sc ≡ scope t' parent)
Extends-shape (wider {t' = t'} parent f) = (t', refl)

Within-child :
    (frame : Option ℕ) (t : HashMap ℕ) (parent : Scope) (s : Sema)
    → s.scope ≡ scope t parent
    → IsSymtab t
    → Within frame s
    → Within frame (record s { scope = scope (symtab_clone t) (scope t parent) })
Within-child none t parent s eq h i = tt
Within-child (some f) t parent s eq h (name, place, e, k) = (
  name,
  place,
  e,
  scope_lookup-child t parent name h ∙ subst (λ sc. scope_lookup sc name ≡ some place) eq k,
)

child-IsWell :
    (t : HashMap ℕ) (parent : Scope) (s : Sema)
    → s.scope ≡ scope t parent
    → IsWell s
    → IsWell (record s { scope = scope (symtab_clone t) (scope t parent) })
child-IsWell t parent s eq w =
    let h : IsScope (scope t parent) = subst IsScope eq w.tables in
    let b : ScopeBelow (length s.entries) (scope t parent) =
      subst (ScopeBelow (length s.entries)) eq w.below in
    record {
      tables = (symtab_clone-IsSymtab t, h);
      below = ((λ key p e. b.0 key p (sym (hashmap_get-symtab_clone t key h.0) ∙ e)), b);
      store = w.store;
    }

module _ {A : Type 0} {R : ℕ → A → Type 0} {m : Check A} (frame : Option ℕ)
    (walks : Walks frame R m) where
  leave-Done :
      (t t₂ : HashMap ℕ) (parent : Scope) (s s₂ : Sema) (a : A)
      → s.scope ≡ scope t parent
      → IsWell s
      → IsWell s₂
      → length s.entries ≤ length s₂.entries
      → ((i : ℕ) (name : Bytes)
          → frame_func s.frames i ≡ some name
          → frame_func s₂.frames i ≡ some name)
      → R (length s₂.entries) a
      → s₂.scope ≡ scope t₂ (scope t parent)
      → Post (Done R s) Fueled (bind (leave s₂) λ (_, s₃). ok (a, s₃))
  unfolding exit_scope
  leave-Done t t₂ parent s s₂ a eq w w₂ le names r eq₂ = rw eq₂ (
      returns (record {
        well = record {
          tables = subst IsScope eq w.tables;
          below =
              ScopeBelow-mono (scope t parent) le
                (subst (ScopeBelow (length s.entries)) eq w.below);
          store = w₂.store;
        };
        later = record {
          grown = le;
          named = names;
          extended = subst (Extends s.scope) eq (Extends-refl s.scope);
        };
        result = r;
      }))

  pub in_block-Done : Walks frame R (in_block m)
  unfolding in_block enter_scope
  in_block-Done s w i = of s.scope refl
    where
      of :
          (sc : Scope)
          → s.scope ≡ sc
          → Post (Done R s) Fueled (
              bind
                (bind (enter_scope sc) λ child. ok (tt {0}, record s { scope = child }))
                λ (_, s₁). bind (m s₁) λ (a, s₂). bind (leave s₂) λ (_, s₃). ok (a, s₃))
      of no_scope eq = stops (cc)
      of (scope t parent) eq =
          let h : IsScope (scope t parent) = subst IsScope eq w.tables in
          let s₁ : Sema = record s { scope = scope (symtab_clone t) (scope t parent) } in
          Post-bind
            (walks s₁ (child-IsWell t parent s eq w) (Within-child frame t parent s eq h.0 i))
            λ (a, s₂) d.
              let (t₂, eq₂) = Extends-shape d.later.extended in
              leave-Done t t₂ parent s s₂ a eq w d.well d.later.grown d.later.named d.result eq₂

  leave-same :
      (t₂ : HashMap ℕ) (outer : Scope) (s₂ : Sema) (a : A)
      → s₂.scope ≡ scope t₂ outer
      → Post (λ (r : A × Sema). r.1.scope ≡ outer) Fueled (bind (leave s₂) λ (_, s₃). ok (a, s₃))
  unfolding exit_scope
  leave-same t₂ outer s₂ a eq = rw eq (returns refl)

  -- What runs in a block leaves the scopes outside as they were.
  pub in_block-same :
      (s : Sema)
      → IsWell s
      → Within frame s
      → Post (λ (r : A × Sema). r.1.scope ≡ s.scope) Fueled (in_block m s)
  unfolding in_block enter_scope
  in_block-same s w i = of s.scope refl
    where
      of :
          (sc : Scope)
          → s.scope ≡ sc
          → Post
              (λ (r : A × Sema). r.1.scope ≡ sc)
              Fueled
              (bind
                (bind (enter_scope sc) λ child. ok (tt {0}, record s { scope = child }))
                λ (_, s₁). bind (m s₁) λ (a, s₂). bind (leave s₂) λ (_, s₃). ok (a, s₃))
      of no_scope eq = stops (cc)
      of (scope t parent) eq =
          let s₁ : Sema = record s { scope = scope (symtab_clone t) (scope t parent) } in
          let h : IsScope (scope t parent) = subst IsScope eq w.tables in
          Post-bind
            (walks s₁ (child-IsWell t parent s eq w) (Within-child frame t parent s eq h.0 i))
            λ (a, s₂) d.
              let (t₂, eq₂) = Extends-shape d.later.extended in
              leave-same t₂ (scope t parent) s₂ a eq₂
