-- ===== src/HashMap/Clone.antt =====
-- hashmap.c: `symtab_clone`, and the invariant of a table that it rests on.
use my_lang.Prelude.{
  ℕ, zero, suc, ◌+◌, ◌<◌, ◌≡◌, ◌≢◌, refl, ap, sym, ◌∙◌, Option, none, some, List, [], ◌∷◌, get_or,
  set, replicate, arith, Bytes, strcmp_eq, strcmp_eq→eq, Bool-cases, inl, inr,
}
use my_lang.HashMap.Chain.{TableNode, find, insert, find-insert}
use my_lang.HashMap.Table.{
  HashMap, bucket_index, hashmap_new, hashmap_add, hashmap_get, clone_chain, clone_table,
  symtab_clone, table_size,
}
use my_lang.HashMap.Lookup.{
  IsValid, hashmap_new-IsValid, hashmap_add-IsValid, hashmap_get-new, hashmap_get-add,
}

abbrev or_else {ℓ} : {V : Type ℓ} → Option V → Option V → Option V
or_else none b = b
or_else (some v) b = some v

or_else-none {ℓ} : {V : Type ℓ} (a : Option V) → or_else a none ≡ a
or_else-none none = refl
or_else-none (some v) = refl

or_else_assoc {ℓ} :
    {V : Type ℓ} (a b c : Option V) → or_else a (or_else b c) ≡ or_else (or_else a b) c
or_else_assoc none b c = refl
or_else_assoc (some v) b c = refl

module _ {ℓ} {V : Type ℓ} where
  -- No key stands twice in a chain.
  abbrev pub Distinct : TableNode V → Type ℓ
  Distinct [] = Unit
  Distinct ((k, v) ∷ nodes) = (find nodes k ≡ none) × Distinct nodes

  -- The chains from place `i` on: their keys are distinct, and belong there.
  abbrev pub Placed : ℕ → ℕ → List (TableNode V) → Type ℓ
  Placed size i [] = Unit
  Placed size i (nodes ∷ rest) =
      Distinct nodes
      × ((q : Bytes) → bucket_index size q ≢ i → find nodes q ≡ none)
      × Placed size (suc i) rest

  clone_chain-IsValid :
      (nodes : TableNode V) (c : HashMap V) → IsValid c → IsValid (clone_chain nodes c)
  unfolding clone_chain
  clone_chain-IsValid [] c valid = valid
  clone_chain-IsValid ((k, v) ∷ nodes) c valid =
      clone_chain-IsValid nodes (hashmap_add c v k) (hashmap_add-IsValid v k valid)

  hashmap_get-clone_chain :
      (nodes : TableNode V) (c : HashMap V) (q : Bytes)
      → Distinct nodes
      → IsValid c
      → hashmap_get (clone_chain nodes c) q ≡ or_else (find nodes q) (hashmap_get c q)
  unfolding clone_chain find
  hashmap_get-clone_chain [] c q d valid = refl
  hashmap_get-clone_chain ((k, v) ∷ nodes) c q d valid =
      hashmap_get-clone_chain nodes (hashmap_add c v k) q d.1 (hashmap_add-IsValid v k valid)
      ∙ ap (or_else (find nodes q)) ((hashmap_get-add c v k q valid).1)
      ∙ elim (Bool-cases (strcmp_eq k q)) [
        | inl e ↦ rw (e, ap (find nodes) (sym (strcmp_eq→eq k q e)) ∙ d.0)
        | inr e ↦ rw e
      ]

  -- What stands under a key in the chains, the last one first.
  found : List (TableNode V) → Bytes → Option V
  found [] q = none
  found (nodes ∷ rest) q = or_else (found rest q) (find nodes q)

  hashmap_get-clone_table :
      (size i : ℕ) (chains : List (TableNode V)) (c : HashMap V) (q : Bytes)
      → Placed size i chains
      → IsValid c
      → hashmap_get (clone_table chains c) q ≡ or_else (found chains q) (hashmap_get c q)
  unfolding clone_table found
  hashmap_get-clone_table size i [] c q p valid = refl
  hashmap_get-clone_table size i (nodes ∷ rest) c q p valid =
      hashmap_get-clone_table size (suc i) rest (clone_chain nodes c) q p.2
        (clone_chain-IsValid nodes c valid)
      ∙ ap (or_else (found rest q)) (hashmap_get-clone_chain nodes c q p.0 valid)
      ∙ or_else_assoc (found rest q) (find nodes q) (hashmap_get c q)

  found-beyond :
      (size i : ℕ) (chains : List (TableNode V)) (q : Bytes)
      → Placed size i chains
      → bucket_index size q < i
      → found chains q ≡ none
  unfolding found
  found-beyond size i [] q p h = refl
  found-beyond size i (nodes ∷ rest) q p h =
      rw (found-beyond size (suc i) rest q p.2 (omega arith), p.1 q (omega arith))

  found-at :
      (size i j : ℕ) (chains : List (TableNode V)) (q : Bytes)
      → Placed size i chains
      → bucket_index size q ≡ i + j
      → found chains q ≡ find (get_or chains j []) q
  unfolding found find
  found-at size i j [] q p h = refl
  found-at size i zero (nodes ∷ rest) q p h =
      ap (λ x. or_else x (find nodes q)) (found-beyond size (suc i) rest q p.2 (omega arith))
  found-at size i (suc j) (nodes ∷ rest) q p h =
      ap (or_else (found rest q)) (p.1 q (omega arith))
      ∙ or_else-none (found rest q)
      ∙ found-at size (suc i) j rest q p.2 (omega arith)

  insert-Distinct :
      (nodes : TableNode V) (v : V) (key : Bytes) → Distinct nodes → Distinct (insert nodes v key)
  unfolding insert find
  insert-Distinct [] v key d = (refl, tt)
  insert-Distinct ((k, w) ∷ nodes) v key d = elim (Bool-cases (strcmp_eq key k)) [
    | inl e ↦ rw e d
    | inr e ↦ rw e (find-insert nodes v key k ∙ rw (e, d.0), insert-Distinct nodes v key d.1)
  ]

  pub set-Placed :
      (size i j : ℕ) (chains : List (TableNode V)) (v : V) (key : Bytes)
      → Placed size i chains
      → bucket_index size key ≡ i + j
      → Placed size i (set chains j (insert (get_or chains j []) v key))
  set-Placed size i j [] v key p h = tt
  set-Placed size i zero (nodes ∷ rest) v key p h = (insert-Distinct nodes v key p.0, other, p.2)
    where
      other : (q : Bytes) → bucket_index size q ≢ i → find (insert nodes v key) q ≡ none
      other q n = find-insert nodes v key q ∙ elim (Bool-cases (strcmp_eq key q)) [
        | inl e ↦ absurd (n (ap (bucket_index size) (sym (strcmp_eq→eq key q e)) ∙ h ∙ omega arith))
        | inr e ↦ rw e (p.1 q n)
      ]
  set-Placed size i (suc j) (nodes ∷ rest) v key p h =
      (p.0, p.1, set-Placed size (suc i) j rest v key p.2 (omega arith))

pub replicate-Placed {ℓ} :
    (V : Type ℓ) (size i n : ℕ) → Placed {V = V} size i (replicate {A = TableNode V} n [])
unfolding find
replicate-Placed V size i zero = tt
replicate-Placed V size i (suc n) = (tt, (λ q h. refl), replicate-Placed V size (suc i) n)

module _ {ℓ} {V : Type ℓ} where
  -- What `hashmap_new` and `hashmap_add` keep true of a table.
  pub record IsSymtab (map : HashMap V) : Type ℓ where
    pub valid : IsValid map
    pub placed : Placed map.size 0 map.table

  pub hashmap_new-IsSymtab : IsSymtab (hashmap_new {V = V})
  unfolding hashmap_new
  hashmap_new-IsSymtab = record {
    valid = hashmap_new-IsValid;
    placed = replicate-Placed V table_size 0 table_size;
  }

  -- Adding keeps a table well formed: as many buckets as it says, no key twice in a chain, and every key
  -- in the chain of its bucket.
  pub hashmap_add-IsSymtab :
      (map : HashMap V) (v : V) (key : Bytes) → IsSymtab map → IsSymtab (hashmap_add map v key)
  unfolding hashmap_add
  hashmap_add-IsSymtab map v key h = record {
    valid = hashmap_add-IsValid v key h.valid;
    placed =
        set-Placed map.size 0 (bucket_index map.size key) map.table v key h.placed (omega arith);
  }

  -- The clone of a well-formed table finds under every key what the table finds.
  pub hashmap_get-symtab_clone :
      (map : HashMap V) (q : Bytes)
      → IsSymtab map
      → hashmap_get (symtab_clone map) q ≡ hashmap_get map q
  unfolding symtab_clone hashmap_get
  hashmap_get-symtab_clone map q h =
      hashmap_get-clone_table map.size 0 map.table hashmap_new q h.placed hashmap_new-IsValid
      ∙ ap (or_else (found map.table q)) (hashmap_get-new q)
      ∙ or_else-none (found map.table q)
      ∙ found-at map.size 0 (bucket_index map.size q) map.table q h.placed (omega arith)

  clone_chain-IsSymtab :
      (nodes : TableNode V) (c : HashMap V) → IsSymtab c → IsSymtab (clone_chain nodes c)
  unfolding clone_chain
  clone_chain-IsSymtab [] c h = h
  clone_chain-IsSymtab ((k, v) ∷ nodes) c h =
      clone_chain-IsSymtab nodes (hashmap_add c v k) (hashmap_add-IsSymtab c v k h)

  clone_table-IsSymtab :
      (chains : List (TableNode V)) (c : HashMap V) → IsSymtab c → IsSymtab (clone_table chains c)
  unfolding clone_table
  clone_table-IsSymtab [] c h = h
  clone_table-IsSymtab (nodes ∷ rest) c h =
      clone_table-IsSymtab rest (clone_chain nodes c) (clone_chain-IsSymtab nodes c h)

  pub symtab_clone-IsSymtab : (map : HashMap V) → IsSymtab (symtab_clone map)
  unfolding symtab_clone
  symtab_clone-IsSymtab map = clone_table-IsSymtab map.table hashmap_new hashmap_new-IsSymtab
