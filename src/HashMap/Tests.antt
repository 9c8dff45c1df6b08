-- ===== src/HashMap/Tests.antt =====
-- Runs of the hash map.
use my_lang.Prelude.{ℕ, ◌≡◌, some, ◌<◌, ◌/◌, ◌%◌, bytes, if◌then◌else◌, strcmp_eq}
use my_lang.HashMap.Table.{
  HashMap, bucket_index, table_size, hashmap_new, hashmap_add, hashmap_get, symtab_clone,
}
use my_lang.HashMap.Index.{bucket_index_sparse}
use my_lang.HashMap.Clone.{
  IsSymtab, hashmap_new-IsSymtab, hashmap_add-IsSymtab, hashmap_get-symtab_clone,
}
use my_lang.HashMap.Lookup.{IsValid, hashmap_new-IsValid, hashmap_get-add}

abbrev counts : HashMap ℕ
counts = hashmap_add hashmap_new 3 (bytes "x")

bucket_index_sparse_example :
    (bucket_index table_size (bytes "main") < table_size)
    × (bucket_index table_size (bytes "main") / 4 % 8 ≡ 0)
bucket_index_sparse_example = bucket_index_sparse (bytes "main")

hashmap_get-add_example :
    IsValid counts
    × (hashmap_get counts (bytes "y") ≡ (
        if strcmp_eq (bytes "x") (bytes "y") then some 3 else hashmap_get hashmap_new (bytes "y")))
hashmap_get-add_example = hashmap_get-add hashmap_new 3 (bytes "x") (bytes "y") hashmap_new-IsValid

hashmap_add-IsSymtab_example : IsSymtab counts
hashmap_add-IsSymtab_example = hashmap_add-IsSymtab hashmap_new 3 (bytes "x") hashmap_new-IsSymtab

counts-IsSymtab : IsSymtab counts
counts-IsSymtab = hashmap_add-IsSymtab hashmap_new 3 (bytes "x") hashmap_new-IsSymtab

hashmap_get-symtab_clone_example :
    hashmap_get (symtab_clone counts) (bytes "x") ≡ hashmap_get counts (bytes "x")
hashmap_get-symtab_clone_example = hashmap_get-symtab_clone counts (bytes "x") counts-IsSymtab
