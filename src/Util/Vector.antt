-- ===== src/Util/Vector.antt =====
-- util.c: `Vector`, an array that grows. Memory does not run out.
use my_lang.Prelude.{
  ℕ, ◌+◌, ◌*◌, Option, none, some, List, ◌++◌, get_elem?, set, replicate, leb, if◌then◌else◌,
  Outcome, ok, stop, Stop,
}

-- `VECTOR_INIT_SIZE`
abbrev pub vector_init_size : ℕ
vector_init_size = 10

module _ {ℓ} (A : Type ℓ) where
  -- A cell of the array that was never written holds no value.
  pub record Vector : Type ℓ where
    pub array : List (Option A)
    pub size : ℕ
    pub length : ℕ

module _ {ℓ} {A : Type ℓ} where
  unfoldable pub vector_new : Vector A
  vector_new = record { array = replicate vector_init_size none; size = 10; length = 0 }

  -- `arena_realloc` keeps the cells and adds as many as there are.
  unfoldable pub vector_grow : Vector A → Vector A
  vector_grow v =
      if leb v.size v.length
      then record v { array = v.array ++ replicate v.size none; size = v.size * 2 }
      else v

  unfoldable pub vector_push : Vector A → A → Vector A
  unfolding vector_grow
  vector_push v ptr =
      let v' = vector_grow v in
      record v' { array = set v'.array v'.length (some ptr); length = v'.length + 1 }

  unfoldable pub vector_set : Vector A → ℕ → A → Outcome (Vector A)
  vector_set v index ptr =
      if leb v.length index
      then stop Stop.failure
      else ok (record v { array = set v.array index (some ptr) })

  -- The cell at the index.
  abbrev pub cell : Option (Option A) → Outcome A
  cell none = stop Stop.undefined
  cell (some none) = stop Stop.undefined
  cell (some (some ptr)) = ok ptr

  unfoldable pub vector_get : Vector A → ℕ → Outcome A
  vector_get v index =
      if leb v.length index then stop Stop.failure else cell (get_elem? v.array index)
