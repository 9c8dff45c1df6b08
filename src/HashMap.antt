-- ===== src/HashMap.antt =====
-- hashmap.c: the chained hash table. Keys are C strings, and what is stored under one is a pointer.
pub mod Chain
pub mod Table
pub mod Index
pub mod Lookup
pub mod Clone
mod Tests
