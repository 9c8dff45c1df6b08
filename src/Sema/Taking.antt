-- ===== src/Sema/Taking.antt =====
-- sema.c: variables, parameters and blocks, for the words that they take of one stack frame.
use my_lang.Prelude.{
  ℕ, suc, ◌+◌, ◌*◌, ◌≡◌, ◌≢◌, refl, sym, ap, ◌∙◌, Option, none, some, Bool, true, false, List, [],
  ◌∷◌, ◌++◌, append-nil, length, get_elem?, set, arith, ok, stop, Stop, Post, returns, stops,
  Post-bind, Post-mono, Bytes, initialized, pure, fail, ◌==◌, ◌>>=◌, if◌then◌else◌,
}
use mathlib.Core.Path.{subst}
use my_lang.HashMap.Table.{HashMap}
use my_lang.Symbol.{
  StackFrame, SymTabEntry, TypeEnvEntry, make_symtab_entry, sym_variable, sym_function, sym_const,
  ts_int,
}
use my_lang.Ast.{Param}
use my_lang.Sema.Scope.{make_stack_frame, stackframe_add}
use my_lang.Sema.State.{Sema, Check, in_block, add_entry, add_slot, type_named, function_of}
use my_lang.Sema.Names.{sym_enums, sym_params, sym_function_head, new_variable, use_function}
use my_lang.Sema.Stacking.{
  Any, Stacks, nowhere, same_entries, offset_at-append, offset_at-last, size_at-append, size_at-lt,
  size_at-get, size_at-set_same, size_at-set_other, lifted, add_entry-Stacks, enter-Stacks,
  leave-Stacks, check_new-Stacks, mark_used-Stacks, allocated,
}
use my_lang.Sema.Slots.{size_at, Kept, Whose, ours, other, Stacked, seq, still}

some_injective : (a b : ℕ) → some a ≡ some b → a ≡ b
some_injective a b e = cc

-- The word of a new variable, in the frame looked at or in another.
abbrev Grown : ℕ → Bool → ℕ → Sema → ℕ × Sema → Type 0
Grown f true z s r = (r.1.entries ≡ s.entries) × (size_at r.1.frames f ≡ some (z + 4)) × (r.0 ≡ z)
Grown f false z s r = (r.1.entries ≡ s.entries) × (size_at r.1.frames f ≡ some z) × Unit

add_slot-Grown :
    (f : ℕ) (g : Option ℕ) (b : Bool) (s : Sema) (z : ℕ)
    → Whose f g b
    → size_at s.frames f ≡ some z
    → Post (Grown f b z s) Any (add_slot g s)
unfolding add_slot stackframe_add
add_slot-Grown f (some place) true s z ours h = of (get_elem? s.frames place) refl
  where
    of :
        (o : Option StackFrame)
        → get_elem? s.frames place ≡ o
        → Post (Grown place true z s) Any (elim o [
          | none ↦ stop Stop.undefined
          | some frame ↦ ok (
            frame.size,
            record s { frames = set s.frames place (record frame { size = frame.size + 4 * 1 }) },
          )
        ])
    of none g = stops tt
    of (some x) g =
        let e : x.size ≡ z = some_injective x.size z (sym (size_at-get s.frames place x g) ∙ h) in
        returns (
          refl,
          size_at-set_same s.frames place x (record x { size = x.size + 4 * 1 }) g
              ∙ ap some (omega arith),
          e,
        )
add_slot-Grown f none true s z w h = elim w [ ]
add_slot-Grown f none false s z (other n) h = stops tt
add_slot-Grown f (some place) false s z (other n) h = of (get_elem? s.frames place)
  where
    of :
        (o : Option StackFrame)
        → Post (Grown f false z s) Any (elim o [
          | none ↦ stop Stop.undefined
          | some frame ↦ ok (
            frame.size,
            record s { frames = set s.frames place (record frame { size = frame.size + 4 * 1 }) },
          )
        ])
    of none = stops tt
    of (some x) = returns (refl, size_at-set_other s.frames f place z _ (λ e. n (ap some e)) h, tt)

filled :
    (f : ℕ) (b : Bool) (z offset : ℕ) (e : SymTabEntry) (s s₁ : Sema)
    → Grown f b z s (offset, s₁)
    → e.offset ≡ some offset
    → Stacked f b z (length s₁.entries ∷ []) s (record s₁ { entries = s₁.entries ++ e ∷ [] })
filled f true z offset e s s₁ (same, size, first) o = record {
  kept = subst (λ es. Kept es (s₁.entries ++ e ∷ [])) same (offset_at-append s₁.entries e);
  top = z + 4;
  size = size;
  slots = (offset_at-last s₁.entries e ∙ o ∙ ap some first, refl);
}
filled f false z offset e s s₁ (same, size, _) o = record {
  kept = subst (λ es. Kept es (s₁.entries ++ e ∷ [])) same (offset_at-append s₁.entries e);
  top = z;
  size = size;
  slots = refl;
}

module _ (type_env : HashMap TypeEnvEntry) {f : ℕ} {b : Bool} where
  pub new_variable-Stacks :
      (value type : Bytes) (g : Option ℕ)
      → Whose f g b
      → Stacks f b (λ (x : ℕ × SymTabEntry). x.0 ∷ []) (new_variable type_env value type g)
  unfolding new_variable
  new_variable-Stacks value type g w s z h =
      Post-bind (lifted f b (type_named type_env type) s z h) λ (ts, s₁) k.
        Post-bind (add_slot-Grown f g b s₁ k.top w k.size) λ (offset, s₂) grown. returns (
          seq k (
            filled f b k.top offset
              (record (make_symtab_entry value ts sym_variable) { offset = some offset }) s₁ s₂
              grown refl))

  -- An entry that is allocated and added to the scope.
  fresh-Stacks :
      (e : SymTabEntry) (s : Sema) (z : ℕ)
      → size_at s.frames f ≡ some z
      → Post
          (λ (r : Unit {0} × Sema). Stacked f b z [] s r.1)
          Any
          (add_entry (length s.entries) e (record s { entries = s.entries ++ e ∷ [] }))
  fresh-Stacks e s z h =
      let k = allocated f b e s z h in
      Post-mono (add_entry-Stacks f b (length s.entries) e _ k.top k.size) λ r k'. seq k k'

  pub sym_enums-Stacks : (i : ℕ) (names : List Bytes) → Stacks f b nowhere (sym_enums i names)
  unfolding sym_enums
  sym_enums-Stacks i [] s z h = returns (still (same_entries s.entries) h)
  sym_enums-Stacks i (name ∷ names) s z h =
      Post-bind
        (fresh-Stacks (record (make_symtab_entry name ts_int sym_const) { const_value = some i }) s
          z h)
        λ (_, s₁) k. Post-mono (sym_enums-Stacks (suc i) names s₁ k.top k.size) λ r k'. seq k k'

  sym_params-Stacks : (ps : List Param) → Stacks f b nowhere (sym_params type_env ps)
  unfolding sym_params
  sym_params-Stacks [] s z h = returns (still (same_entries s.entries) h)
  sym_params-Stacks (p ∷ ps) s z h =
      Post-bind (lifted f b (type_named type_env p.type) s z h) λ (ts, s₁) k₁.
        Post-bind (fresh-Stacks (make_symtab_entry p.value ts sym_variable) s₁ k₁.top k₁.size)
          λ (_, s₂) k₂.
            Post-bind (sym_params-Stacks ps s₂ k₂.top k₂.size)
              λ (rest, s₃) k₃. returns (seq k₁ (seq k₂ k₃))

  -- The frame of a function is a new one.
  pub sym_function_head-Stacks :
      (value type : Bytes) (ps : List Param) (s : Sema) (z : ℕ)
      → size_at s.frames f ≡ some z
      → Post
          (λ (r : (List Param × ℕ × ℕ) × Sema). Stacked f b z [] s r.1 × (some r.0.1 ≢ some f))
          Any
          (sym_function_head type_env value type ps s)
  unfolding sym_function_head
  sym_function_head-Stacks value type ps s z h =
      Post-bind (check_new-Stacks f b value s z h) λ (_, s₁) k₁.
        let s₂ : Sema = record s₁ { frames = s₁.frames ++ make_stack_frame value ∷ [] } in
        let k₂ : Stacked f b k₁.top [] s₁ s₂ =
          still (same_entries s₁.entries)
            (size_at-append s₁.frames (make_stack_frame value) f k₁.top k₁.size) in
        Post-bind (sym_params-Stacks ps s₂ k₂.top k₂.size) λ (ps', s₃) k₃.
          Post-bind (lifted f b (type_named type_env type) s₃ k₃.top k₃.size) λ (ts, s₄) k₄.
            let entry : SymTabEntry = record (make_symtab_entry value ts sym_function) {
              params = some ps';
              frame = some (length s₁.frames);
            } in
            let s₅ : Sema = record s₄ {
              entries = s₄.entries ++ entry ∷ [];
              symbols = s₄.symbols ++ length s₄.entries ∷ [];
            } in
            let k₅ : Stacked f b k₄.top [] s₄ s₅ =
              still (offset_at-append s₄.entries entry) k₄.size in
            Post-bind (add_entry-Stacks f b (length s₄.entries) entry s₅ k₅.top k₅.size)
              λ (_, s₆) k₆. returns (
                seq k₁ (seq k₂ (seq k₃ (seq k₄ (seq k₅ k₆)))),
                (λ e. absurd (
                    omega (
                      arith,
                      some_injective (length s₁.frames) f e,
                      size_at-lt s₁.frames f k₁.top k₁.size,
                    ))),
              )

  pub in_block-Stacks :
      {A : Type 0} (ps : A → List ℕ) (m : Check A) → Stacks f b ps m → Stacks f b ps (in_block m)
  unfolding in_block
  in_block-Stacks ps m run s z h = Post-bind (enter-Stacks f b s z h) λ (_, s₁) k₁.
      Post-bind (run s₁ k₁.top k₁.size) λ (a, s₂) k₂.
        Post-bind (leave-Stacks f b s₂ k₂.top k₂.size) λ (_, s₃) k₃.
          returns (subst (λ l. Stacked f b z l s s₃) (append-nil (ps a)) (seq k₁ (seq k₂ k₃)))

  pub use_function-Stacks : (count : ℕ) (o : Option ℕ) → Stacks f b nowhere (use_function count o)
  unfolding use_function
  use_function-Stacks count none s z h = stops tt
  use_function-Stacks count (some place) s z h =
      Post-bind (mark_used-Stacks f b place s z h) λ (e, s₁) k. known k e.params
    where
      counted :
          {s₁ : Sema}
          → Stacked f b z [] s s₁
          → (t : Bool)
          → Post
              (λ (r : ℕ × Sema). Stacked f b z [] s r.1)
              Any
              ((if t then pure place else fail Stop.failure) s₁)
      counted k true = returns k
      counted k false = stops tt

      known :
          {s₁ : Sema}
          → Stacked f b z [] s s₁
          → (o : Option (List Param))
          → Post
              (λ (r : ℕ × Sema). Stacked f b z [] s r.1)
              Any
              ((initialized o >>= λ params.
                  if length params == count then pure place else fail Stop.failure)
                s₁)
      known k none = stops tt
      known k (some params) = counted k (length params == count)

  pub function_of-Stacks : (g : Option ℕ) → Stacks f b nowhere (function_of g)
  unfolding function_of
  function_of-Stacks none s z h = stops tt
  function_of-Stacks (some place) s z h = of (get_elem? s.frames place)
    where
      of :
          (o : Option StackFrame)
          → Post
              (λ (r : Bytes × Sema). Stacked f b z [] s r.1)
              Any
              (elim o [ none ↦ stop Stop.undefined | some frame ↦ ok (frame.func, s) ])
      of none = stops tt
      of (some x) = returns (still (same_entries s.entries) h)
