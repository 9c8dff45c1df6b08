-- ===== src/HashMap/Table.antt =====
-- hashmap.c: the hash function, the table and its operations.
use Prim.Native.Nat.{bit_and, bit_xor}
use my_lang.Prelude.{
  ℕ, ◌+◌, ◌-◌, ◌*◌, ◌%◌, ◌^◌, Option, List, [], ◌∷◌, get_or, set, replicate, ltb, if◌then◌else◌,
  Bytes,
}
use my_lang.HashMap.Chain.{TableNode, find, insert}

abbrev pub fnv_offset : ℕ
fnv_offset = 14695981039346656037

abbrev pub fnv_prime : ℕ
fnv_prime = 1099511628211

abbrev pub table_size : ℕ
table_size = 100

-- The loop of `hash`, over `uint64_t`.
unfoldable pub hash_loop : ℕ → Bytes → ℕ
hash_loop h [] = h
hash_loop h (c ∷ key) = hash_loop (bit_xor h (c % 256) * fnv_prime % 2 ^ 64) key

unfoldable pub hash : Bytes → ℕ
unfolding hash_loop
hash key = hash_loop fnv_offset key

-- `int h = hash(key)` keeps 32 bits; converted to `uint64_t` again its sign is extended.
abbrev pub sign_extend : ℕ → ℕ
sign_extend h = let w = h % 2 ^ 32 in if ltb w (2 ^ 31) then w else w + (2 ^ 64 - 2 ^ 32)

-- `(size_t)(h & (uint64_t)(map->size - 1))`
unfoldable pub bucket_index : ℕ → Bytes → ℕ
unfolding hash
bucket_index size key = bit_and (sign_extend (hash key)) (size - 1)

module _ {ℓ} (V : Type ℓ) where
  pub record HashMap : Type ℓ where
    pub size : ℕ
    pub table : List (TableNode V)

module _ {ℓ} {V : Type ℓ} where
  unfoldable pub hashmap_new : HashMap V
  hashmap_new = record { size = table_size; table = replicate table_size [] }

  unfoldable pub hashmap_add : HashMap V → V → Bytes → HashMap V
  hashmap_add map v key =
      let i = bucket_index map.size key in
      record map { table = set map.table i (insert (get_or map.table i []) v key) }

  unfoldable pub hashmap_get : HashMap V → Bytes → Option V
  hashmap_get map key = find (get_or map.table (bucket_index map.size key) []) key

  -- The inner loop of `symtab_clone`, over one chain.
  unfoldable pub clone_chain : TableNode V → HashMap V → HashMap V
  clone_chain [] clone = clone
  clone_chain ((k, v) ∷ nodes) clone = clone_chain nodes (hashmap_add clone v k)

  unfoldable pub clone_table : List (TableNode V) → HashMap V → HashMap V
  clone_table [] clone = clone
  clone_table (nodes ∷ rest) clone = clone_table rest (clone_chain nodes clone)

  -- The clone is another table; what is stored is shared.
  unfoldable pub symtab_clone : HashMap V → HashMap V
  unfolding clone_table clone_chain
  symtab_clone symtab = clone_table symtab.table hashmap_new
