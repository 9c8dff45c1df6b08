-- ===== src/Sema/Entries.antt =====
-- sema.c: the helpers of `sym_check` that look at names and types, from well-formed states.
use my_lang.Prelude.{
  ℕ, suc, ◌<◌, ◌≡◌, refl, sym, Option, none, some, Bool, true, false, List, [], ◌∷◌, ◌++◌, length,
  All, All-mono, get_elem?, arith, ok, stop, Stop, Post, returns, stops, ◌>>=◌, pure, lift, fail,
  initialized, Fueled, Post-bind, Post-mono, Bytes, if◌then◌else◌, ◌==◌,
}
use mathlib.Core.Path.{subst}
use my_lang.HashMap.Table.{HashMap, hashmap_get}
use my_lang.Symbol.{
  StackFrame, SymTabEntry, TypeSpecifier, TypeEnvEntry, make_symtab_entry, sym_variable,
  sym_function,
}
use my_lang.Ast.{Param}
use my_lang.Sema.Scope.{scope_lookup}
use my_lang.Sema.State.{Sema, add_entry, function_of, type_named}
use my_lang.Sema.Later.{Known, Known-Later, IsWell, Later, Later-trans, Within, scope_lookup-lt}
use my_lang.Sema.Walk.{add_entry-Done}
use my_lang.Sema.Steps.{
  Done, Nothing, Below, unchanged, from, check_new-Done, allocate-Done, push_symbol-Done,
  new_frame-Done, add_slot-Done, mark_used-Done, Later-refl, frame_func-get,
}
use my_lang.Sema.Names.{
  sym_enums, use_variable, use_function, sym_params, sym_function_head, new_variable,
}
use my_lang.Sema.Resolved.{IsPlaced, ArePlaced, ArePlaced-mono, IsResolved}

module _ (type_env : HashMap TypeEnvEntry) where
  type_named-Done :
      (name : Bytes) (s : Sema)
      → IsWell s
      → Post (Done (λ n (_ : TypeSpecifier). Unit) s) Fueled (lift (type_named type_env name) s)
  unfolding type_named
  type_named-Done name s w = of (hashmap_get type_env name)
    where
      of :
          (o : Option TypeEnvEntry)
          → Post
              (Done (λ n (_ : TypeSpecifier). Unit) s)
              Fueled
              (lift (elim o [ none ↦ stop Stop.null_pointer | some entry ↦ ok entry.ts ]) s)
      of none = stops (cc)
      of (some e) = returns (unchanged s w tt)

  -- An entry for a name is allocated and added to the scope.
  fresh-Done :
      (e : SymTabEntry) (s : Sema)
      → IsWell s
      → Post
          (λ (r : Unit {0} × Sema).
            Done (λ n _. length s.entries < n) s r
            × (scope_lookup r.1.scope e.key ≡ some (length s.entries)))
          Fueled
          (add_entry (length s.entries) e (record s { entries = s.entries ++ e ∷ [] }))
  fresh-Done e s w =
      let d = allocate-Done e s w in
      Post-mono (add_entry-Done (length s.entries) e _ d.result d.well) λ r (d', k). (
        record {
          well = d'.well;
          later = Later-trans d.later d'.later;
          result = omega (arith, d.result, d'.later.grown);
        },
        k,
      )

  -- The same, with the entry among those that `warn_unused` looks at.
  fresh_symbol-Done :
      (e : SymTabEntry) (s : Sema)
      → IsWell s
      → Post
          (λ (r : Unit {0} × Sema).
            Done (λ n _. length s.entries < n) s r
            × (scope_lookup r.1.scope e.key ≡ some (length s.entries)))
          Fueled
          (add_entry (length s.entries) e (record s {
            entries = s.entries ++ e ∷ [];
            symbols = s.symbols ++ length s.entries ∷ [];
          }))
  fresh_symbol-Done e s w =
      let d = allocate-Done e s w in
      let p =
        push_symbol-Done (length s.entries) (record s { entries = s.entries ++ e ∷ [] }) d.result
          d.well in
      Post-mono (add_entry-Done (length s.entries) e _ d.result p.well) λ r (d', k). (
        record {
          well = d'.well;
          later = Later-trans d.later (Later-trans p.later d'.later);
          result = omega (arith, d.result, d'.later.grown);
        },
        k,
      )

  pub sym_enums-Done :
      (i : ℕ) (names : List Bytes) (s : Sema)
      → IsWell s
      → Post (Done Nothing s) Fueled (sym_enums i names s)
  unfolding sym_enums
  sym_enums-Done i [] s w = returns (unchanged s w tt)
  sym_enums-Done i (name ∷ names) s w =
      Post-bind (fresh-Done _ s w)
        λ (_, s₁) (d, k). Post-mono (sym_enums-Done (suc i) names s₁ d.well) λ r d'. from d.later d'

  sym_params-Done :
      (ps : List Param) (s : Sema)
      → IsWell s
      → Post
          (λ (r : List Param × Sema). Done ArePlaced s r × All (λ p. Known r.1 p.value) ps)
          Fueled
          (sym_params type_env ps s)
  unfolding sym_params make_symtab_entry
  sym_params-Done [] s w = returns (unchanged s w tt, tt)
  sym_params-Done (p ∷ ps) s w = Post-bind (type_named-Done p.type s w) λ (ts, s₁) d₁.
      Post-bind (fresh-Done (make_symtab_entry p.value ts sym_variable) s₁ d₁.well)
        λ (_, s₂) (d₂, k). Post-bind (sym_params-Done ps s₂ d₂.well) λ (rest, s₃) (d₃, ks).
          returns (
            from (Later-trans d₁.later (Later-trans d₂.later d₃.later))
                (unchanged s₃ d₃.well (omega (arith, d₂.result, d₃.later.grown), d₃.result)),
            (Known-Later p.value d₃.later (length s₁.entries, k), ks),
          )

  -- The head of a function: its entry stands under its name, which is that of its frame, and every
  -- parameter stands for an entry.
  pub sym_function_head-Done :
      (value type : Bytes) (ps : List Param) (s : Sema)
      → IsWell s
      → Post
          (λ (r : (List Param × ℕ × ℕ) × Sema).
            Done (λ n (x : List Param × ℕ × ℕ). (x.2 < n) × ArePlaced n x.0) s r
            × Within (some r.0.1) r.1
            × All (λ p. Known r.1 p.value) ps)
          Fueled
          (sym_function_head type_env value type ps s)
  unfolding sym_function_head make_symtab_entry
  sym_function_head-Done value type ps s w = Post-bind (check_new-Done value s w) λ (_, s₁) d₁.
      let frame = length s₁.frames in
      let (d₂, named) = new_frame-Done value s₁ d₁.well in
      Post-bind (sym_params-Done ps _ d₂.well) λ (ps', s₃) (d₃, ks).
        Post-bind (type_named-Done type s₃ d₃.well) λ (ts, s₄) d₄.
          let entry : SymTabEntry = record (make_symtab_entry value ts sym_function) {
            params = some ps';
            frame = some frame;
          } in
          Post-bind (fresh_symbol-Done entry s₄ d₄.well) λ (_, s₅) (d₅, k).
            let l = Later-trans d₄.later d₅.later in
            let l' = Later-trans d₃.later l in
            returns (
              record {
                well = d₅.well;
                later = Later-trans d₁.later (Later-trans d₂.later l');
                result = (d₅.result, ArePlaced-mono l.grown ps' d₃.result);
              },
              (value, length s₄.entries, l'.named frame value named, k),
              All-mono _ _ ps (λ p known. Known-Later p.value l known) ks,
            )

  pub new_variable-Done :
      (value type : Bytes) (frame : Option ℕ) (s : Sema)
      → IsWell s
      → Post
          (Done (λ n (x : ℕ × SymTabEntry). x.0 < n) s)
          Fueled
          (new_variable type_env value type frame s)
  unfolding new_variable
  new_variable-Done value type frame s w = Post-bind (type_named-Done type s w) λ (ts, s₁) d₁.
      Post-bind (add_slot-Done frame s₁ d₁.well) λ (offset, s₂) d₂.
        let d₃ =
          allocate-Done (record (make_symtab_entry value ts sym_variable) { offset = some offset })
            s₂ d₂.well in
        returns (record {
          well = d₃.well;
          later = Later-trans d₁.later (Later-trans d₂.later d₃.later);
          result = d₃.result;
        })

  pub use_variable-Done :
      (value : Bytes) (o : Option ℕ) (s : Sema)
      → IsWell s
      → ((place : ℕ) → o ≡ some place → place < length s.entries)
      → Post (Done IsResolved s) Fueled (use_variable value o s)
  unfolding use_variable IsResolved
  use_variable-Done value none s w lt = stops (cc)
  use_variable-Done value (some place) s w lt = Post-bind (mark_used-Done place s w) λ (e, s₁) d.
      returns (record {
        well = d.well;
        later = d.later;
        result = omega (arith, lt place refl, d.later.grown);
      })

  pub use_function-Done :
      (count : ℕ) (o : Option ℕ) (s : Sema)
      → IsWell s
      → ((place : ℕ) → o ≡ some place → place < length s.entries)
      → Post (Done Below s) Fueled (use_function count o s)
  unfolding use_function
  use_function-Done count none s w lt = stops (cc)
  use_function-Done count (some place) s w lt =
      Post-bind (mark_used-Done place s w) λ (e, s₁) d. known d e.params
    where
      counted :
          {s₁ : Sema} {e : SymTabEntry}
          → Done (λ n entry. Unit) s (e, s₁)
          → (b : Bool)
          → Post (Done Below s) Fueled ((if b then pure place else fail Stop.failure) s₁)
      counted d true = returns (record {
        well = d.well;
        later = d.later;
        result = omega (arith, lt place refl, d.later.grown);
      })
      counted d false = stops (cc)

      known :
          {s₁ : Sema} {e : SymTabEntry}
          → Done (λ n entry. Unit) s (e, s₁)
          → (o : Option (List Param))
          → Post (Done Below s) Fueled (
              (initialized o >>= λ params.
              if length params == count then pure place else fail Stop.failure)
                s₁)
      known d none = stops (cc)
      known d (some params) = counted d (length params == count)

  -- `ret->func`, from the frame that the walk is in: the name stands for an entry.
  abbrev Named : Option ℕ → Sema → Bytes × Sema → Type 0
  Named frame s r =
      IsWell r.1
      × Within frame r.1
      × Later s r.1
      × IsPlaced (length r.1.entries) (scope_lookup r.1.scope r.0)

  pub function_of-Named :
      (frame : Option ℕ) (s : Sema)
      → IsWell s
      → Within frame s
      → Post (Named frame s) Fueled (function_of frame s)
  unfolding function_of
  function_of-Named none s w i = stops (cc)
  function_of-Named (some f) s w (name, place, e, k) = of (get_elem? s.frames f) refl
    where
      of :
          (o : Option StackFrame)
          → get_elem? s.frames f ≡ o
          → Post
              (Named (some f) s)
              Fueled
              (elim o [ none ↦ stop Stop.undefined | some frame ↦ ok (frame.func, s) ])
      of none g = stops (cc)
      of (some frame) g =
          let named : scope_lookup s.scope frame.func ≡ some place =
            subst (λ x. scope_lookup s.scope x ≡ some place)
              (cc (frame_func-get s.frames f frame g)) k in
          returns (
            w,
            (name, place, e, k),
            Later-refl s,
            subst (IsPlaced (length s.entries)) (sym named)
                (scope_lookup-lt (length s.entries) s.scope frame.func place w.below named),
          )
