-- ===== src/HashMap/Lookup.antt =====
-- hashmap.c: the table as a map from keys to data.
use my_lang.Prelude.{
  ℕ, zero, suc, ◌<◌, ◌≡◌, refl, ap, ◌∙◌, ◌≢◌, true, false, none, some, List, [], ◌∷◌, length,
  get_or, set, replicate, length-set, length-replicate, if◌then◌else◌, arith, Bytes, strcmp_eq,
  strcmp_eq→eq, Bool-cases, inl, inr, ◌==◌, ==_iff,
}
use my_lang.HashMap.Chain.{TableNode, find, insert, find-insert}
use my_lang.HashMap.Table.{HashMap, bucket_index, hashmap_new, hashmap_add, hashmap_get, table_size}
use my_lang.HashMap.Index.{bucket_index-lt}

module _ {ℓ} {A : Type ℓ} where
  get_or-set :
      (xs : List A) (i j : ℕ) (v d : A)
      → i < length xs
      → get_or (set xs i v) j d ≡ (if i == j then v else get_or xs j d)
  get_or-set [] i j v d h = absurd (omega arith)
  get_or-set (x ∷ xs) zero zero v d h = refl
  get_or-set (x ∷ xs) zero (suc j) v d h = ground arith
  get_or-set (x ∷ xs) (suc i) zero v d h = ground arith
  get_or-set (x ∷ xs) (suc i) (suc j) v d h = ground (arith, get_or-set xs i j v d)

  get_or-replicate : (n i : ℕ) (a : A) → get_or (replicate n a) i a ≡ a
  get_or-replicate zero i a = refl
  get_or-replicate (suc n) zero a = refl
  get_or-replicate (suc n) (suc i) a = get_or-replicate n i a

same_bucket :
    (size : ℕ) (key q : Bytes)
    → strcmp_eq key q ≡ true
    → bucket_index size key ≡ bucket_index size q
same_bucket size key q e = ap (bucket_index size) (strcmp_eq→eq key q e)

apart : (i j : ℕ) → (i == j) ≡ false → i ≢ j
apart i j h = ground arith

module _ {ℓ} {V : Type ℓ} where
  -- `size` is the number of buckets, and there are some.
  pub record IsValid (map : HashMap V) : Type 0 where
    pub sized : length map.table ≡ map.size
    pub some_bucket : 0 < map.size

  pub hashmap_new-IsValid : IsValid (hashmap_new {V = V})
  unfolding hashmap_new
  hashmap_new-IsValid = record {
    sized = length-replicate {A = TableNode V} table_size [];
    some_bucket = omega arith;
  }

  pub hashmap_add-IsValid :
      {map : HashMap V} (v : V) (key : Bytes) → IsValid map → IsValid (hashmap_add map v key)
  unfolding hashmap_add
  hashmap_add-IsValid {map} v key valid = record {
    sized = length-set map.table _ _ ∙ valid.sized;
    some_bucket = valid.some_bucket;
  }

  -- A new table holds no key.
  pub hashmap_get-new : (q : Bytes) → hashmap_get (hashmap_new {V = V}) q ≡ none
  unfolding hashmap_new hashmap_get find
  hashmap_get-new q =
      rw (get_or-replicate {A = TableNode V} table_size (bucket_index table_size q) [])

  pick :
      (map : HashMap V) (i j : ℕ) (v : V) (key q : Bytes)
      → (strcmp_eq key q ≡ true → i ≡ j)
      → find (if i == j then insert (get_or map.table i []) v key else get_or map.table j []) q
        ≡ (if strcmp_eq key q then some v else find (get_or map.table j []) q)
  pick map i j v key q same = elim (Bool-cases (i == j)) [
    | inl e ↦
        let p = (==_iff i j).0 e in
        rw e (
          find-insert (get_or map.table i []) v key q
          ∙ ap (λ k. if strcmp_eq key q then some v else find (get_or map.table k []) q) p)
    | inr ne ↦ elim (Bool-cases (strcmp_eq key q)) [
      | inl s ↦ absurd (omega (arith, same s, apart i j ne))
      | inr d ↦ rw (ne, d)
    ]
  ]

  -- In a table with as many buckets as it says, what is added under a key is found under it, in the
  -- place of what was there, every other key is found as before, and the table stays such a table.
  pub hashmap_get-add :
      (map : HashMap V) (v : V) (key q : Bytes)
      → IsValid map
      → IsValid (hashmap_add map v key)
        × (hashmap_get (hashmap_add map v key) q
            ≡ (if strcmp_eq key q then some v else hashmap_get map q))
  unfolding hashmap_add hashmap_get
  hashmap_get-add map v key q valid =
      let i = bucket_index map.size key in
      let j = bucket_index map.size q in
      let nodes = get_or map.table i [] in
      (
        hashmap_add-IsValid v key valid,
        ap (λ c. find c q)
              (get_or-set map.table i j (insert nodes v key) []
                (rw valid.sized (bucket_index-lt map.size key valid.some_bucket)))
            ∙ pick map i j v key q (same_bucket map.size key q),
      )
