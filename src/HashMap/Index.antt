-- ===== src/HashMap/Index.antt =====
-- hashmap.c: the index that `hashmap_add` and `hashmap_get` compute for a key, `hash & (size - 1)`.
use Prim.Native.Nat.{bit_and, digits, bit_and-bitwise, min}
use my_lang.Prelude.{ℕ, zero, suc, ◌+◌, ◌-◌, ◌*◌, ◌/◌, ◌%◌, ◌≤◌, ◌<◌, ◌≡◌, arith, Bytes}
use my_lang.HashMap.Table.{hash, sign_extend, bucket_index, table_size}

and_digits-le : (n a b : ℕ) → digits (λ _. zero) min n a b ≤ b
and_digits-le zero zero b = omega arith
and_digits-le zero (suc a) b = omega arith
and_digits-le (suc n) zero b = omega arith
and_digits-le (suc n) (suc a) b = omega (arith, and_digits-le n (suc a / 2) (b / 2))

bit_and-le : (a b : ℕ) → bit_and a b ≤ b
bit_and-le a b = omega (arith, bit_and-bitwise a b, and_digits-le a a b)

pub bucket_index-lt : (size : ℕ) (key : Bytes) → 0 < size → bucket_index size key < size
unfolding bucket_index
bucket_index-lt size key h = omega (arith, bit_and-le (sign_extend (hash key)) (size - 1))

abbrev and_digits : ℕ → ℕ → ℕ → ℕ
and_digits = digits (λ _. zero) min

-- One digit less.
and_digits_step :
    (n a b : ℕ)
    → (n' : ℕ) × (a' : ℕ) × (r : ℕ) × (and_digits n a b ≡ and_digits n' a' (b / 2) * 2 + r)
      × (r ≤ b % 2)
and_digits_step zero zero b = (0, 0, 0, omega arith, omega arith)
and_digits_step zero (suc a) b = (0, 0, 0, omega arith, omega arith)
and_digits_step (suc n) zero b = (0, 0, 0, omega arith, omega arith)
and_digits_step (suc n) (suc a) b =
    (n, suc a / 2, min (suc a % 2) (b % 2), omega arith, omega arith)

-- 99 is 1100011 in binary: digits 2, 3 and 4 of the index are 0.
and-99 : (n a : ℕ) → and_digits n a 99 / 4 % 8 ≡ 0
and-99 n a =
    let (n₁, a₁, r₁, e₁, l₁) = and_digits_step n a 99 in
    let (n₂, a₂, r₂, e₂, l₂) = and_digits_step n₁ a₁ 49 in
    let (n₃, a₃, r₃, e₃, l₃) = and_digits_step n₂ a₂ 24 in
    let (n₄, a₄, r₄, e₄, l₄) = and_digits_step n₃ a₃ 12 in
    let (n₅, a₅, r₅, e₅, l₅) = and_digits_step n₄ a₄ 6 in omega arith

-- In a table of the size that `hashmap_new` gives it every key goes to a bucket below 100 that is one
-- of 0-3, 32-35, 64-67 and 96-99: sixteen of the hundred.
pub bucket_index_sparse :
    (key : Bytes)
    → (bucket_index table_size key < table_size) × (bucket_index table_size key / 4 % 8 ≡ 0)
unfolding bucket_index
bucket_index_sparse key =
    let h = sign_extend (hash key) in
    (bucket_index-lt table_size key (omega arith), omega (arith, bit_and-bitwise h 99, and-99 h h))
