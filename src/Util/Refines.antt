-- ===== src/Util/Refines.antt =====
-- util.c: a vector as the list of what was pushed.
use my_lang.Prelude.{
  ℕ, zero, suc, ◌+◌, ◌*◌, ◌<◌, ◌≤◌, ◌≡◌, refl, sym, ap, ◌∙◌, true, false, Option, none, some, List,
  [], ◌∷◌, ◌++◌, length, get_elem?, set, replicate, length-append, length-replicate, leb, arith, ok,
  stop, Stop, Post, Bool-cases, inl, inr, leb→le, length-set, returns, stops,
}
use mathlib.Core.Path.{subst}
use my_lang.Util.Vector.{Vector, vector_new, vector_grow, vector_push, vector_set, vector_get}

module _ {ℓ} {A : Type ℓ} where
  -- The cells that hold the elements, then the others.
  abbrev pub cells : List A → List (Option A) → List (Option A)
  cells [] rest = rest
  cells (x ∷ xs) rest = some x ∷ cells xs rest

  abbrev pub vector_of : List A → List (Option A) → Vector A
  vector_of xs rest = record {
    array = cells xs rest;
    size = length xs + length rest;
    length = length xs;
  }

  -- The vector holds the elements of the list in order, and has some cell.
  pub record Represents (v : Vector A) (xs : List A) : Type ℓ where
    pub rest : List (Option A)
    pub same : v ≡ vector_of xs rest
    pub some_cell : 0 < length xs + length rest

  cells-append :
      (xs : List A) (rest more : List (Option A)) → cells xs rest ++ more ≡ cells xs (rest ++ more)
  cells-append [] rest more = refl
  cells-append (x ∷ xs) rest more = ap (λ z. some x ∷ z) (cells-append xs rest more)

  set-cells :
      (xs : List A) (c : Option A) (rest : List (Option A)) (x : A)
      → set (cells xs (c ∷ rest)) (length xs) (some x) ≡ cells (xs ++ x ∷ []) rest
  set-cells [] c rest x = refl
  set-cells (y ∷ xs) c rest x = ap (λ z. some y ∷ z) (set-cells xs c rest x)

  set-cells_inside :
      (xs : List A) (rest : List (Option A)) (i : ℕ) (x : A)
      → i < length xs
      → set (cells xs rest) i (some x) ≡ cells (set xs i x) rest
  set-cells_inside [] rest i x h = absurd (omega arith)
  set-cells_inside (y ∷ xs) rest zero x h = refl
  set-cells_inside (y ∷ xs) rest (suc i) x h =
      ap (λ z. some y ∷ z) (set-cells_inside xs rest i x (omega arith))

  get-cells :
      (xs : List A) (rest : List (Option A)) (i : ℕ)
      → i < length xs
      → (x : A) × (get_elem? xs i ≡ some x) × (get_elem? (cells xs rest) i ≡ some (some x))
  get-cells [] rest i h = absurd (omega arith)
  get-cells (y ∷ xs) rest zero h = (y, refl, refl)
  get-cells (y ∷ xs) rest (suc i) h = get-cells xs rest i (omega arith)

  pub vector_new-Represents : Represents vector_new []
  unfolding vector_new
  vector_new-Represents = record { rest = replicate 10 none; same = refl; some_cell = omega arith }

  abbrev made : List (Option A) → ℕ → ℕ → Vector A
  made array size length = record { array = array; size = size; length = length }

  same_vector :
      {a b : List (Option A)} {s t l m : ℕ} → a ≡ b → s ≡ t → l ≡ m → made a s l ≡ made b t m
  same_vector {a} {b} {s} {t} {l} {m} p q r =
      ap (λ a. made a s l) p ∙ ap (λ s. made b s l) q ∙ ap (λ l. made b t l) r

  -- With a cell behind the elements, it is written.
  push_room :
      (xs : List A) (c : Option A) (rest : List (Option A)) (x : A)
      → vector_push (vector_of xs (c ∷ rest)) x ≡ vector_of (xs ++ x ∷ []) rest
  unfolding vector_push vector_grow
  push_room xs c rest x =
      let full : leb (length xs + suc (length rest)) (length xs) ≡ false = ground arith in
      let l : length (xs ++ x ∷ []) ≡ length xs + 1 = length-append xs (x ∷ []) in
      rw full (same_vector (set-cells xs c rest x) (omega arith) (omega arith))

  grow_full :
      (array : List (Option A)) (size length : ℕ)
      → size ≤ length
      → vector_grow (made array size length) ≡ made (array ++ replicate size none) (size * 2) length
  unfolding vector_grow
  grow_full array size length h = let full : leb size length ≡ true = ground arith in rw full refl

  -- Without one, there are as many new ones as there were.
  push_full :
      (y : A) (ys : List A) (x : A)
      → vector_push (vector_of (y ∷ ys) []) x
        ≡ vector_of ((y ∷ ys) ++ x ∷ []) (replicate (length ys) none)
  unfolding vector_push vector_grow
  push_full y ys x =
      let n : suc (length ys) + 0 ≡ suc (length ys) = omega arith in
      let l : length (ys ++ x ∷ []) ≡ length ys + 1 = length-append ys (x ∷ []) in
      let r : length (replicate {A = Option A} (length ys) none) ≡ length ys =
        length-replicate (length ys) none in
      ap (λ w. made (set w.array w.length (some x)) w.size (w.length + 1))
        (grow_full (cells (y ∷ ys) []) (suc (length ys) + 0) (suc (length ys)) (omega arith))
      ∙ same_vector
          (ap (λ z. set z (suc (length ys)) (some x))
              (cells-append (y ∷ ys) [] (replicate (suc (length ys) + 0) none))
            ∙ ap (λ n. set (cells (y ∷ ys) (replicate n none)) (suc (length ys)) (some x)) n
            ∙ set-cells (y ∷ ys) none (replicate (length ys) none) x)
          (omega arith) (omega arith)

  push-Represents :
      (v : Vector A) (xs : List A) (x : A)
      → Represents v xs
      → Represents (vector_push v x) (xs ++ x ∷ [])
  push-Represents v xs x r = of xs r.rest r.same r.some_cell
    where
      of :
          (xs : List A) (rest : List (Option A))
          → v ≡ vector_of xs rest
          → 0 < length xs + length rest
          → Represents (vector_push v x) (xs ++ x ∷ [])
      of xs (c ∷ rest) e h = record {
        rest = rest;
        same = ap (λ v. vector_push v x) e ∙ push_room xs c rest x;
        some_cell = omega (arith, length-append xs (x ∷ []));
      }
      of (y ∷ ys) [] e h = record {
        rest = replicate (length ys) none;
        same = ap (λ v. vector_push v x) e ∙ push_full y ys x;
        some_cell = omega arith;
      }
      of [] [] e h = absurd (omega arith)

  outside : (xs : List A) (i : ℕ) → length xs ≤ i → get_elem? xs i ≡ none
  outside [] i h = refl
  outside (x ∷ xs) zero h = absurd (omega arith)
  outside (x ∷ xs) (suc i) h = outside xs i (omega arith)

  get-of :
      (xs : List A) (rest : List (Option A)) (i : ℕ)
      → vector_get (vector_of xs rest) i
        ≡ elim (get_elem? xs i) [ none ↦ stop Stop.failure | some a ↦ ok a ]
  unfolding vector_get
  get-of xs rest i = elim (Bool-cases (leb (length xs) i)) [
    | inl b ↦ rw (b, outside xs i (leb→le (length xs) i b)) refl
    | inr b ↦ let (a, e, e') = get-cells xs rest i (ground (arith, b)) in rw (b, e, e') refl
  ]

  set-of :
      (xs : List A) (rest : List (Option A)) (i : ℕ) (x : A)
      → 0 < length xs + length rest
      → Post
          (λ v'. (i < length xs) × Represents v' (set xs i x))
          (λ e. (length xs ≤ i) × (e ≡ Stop.failure))
          (vector_set (vector_of xs rest) i x)
  unfolding vector_set
  set-of xs rest i x h = elim (Bool-cases (leb (length xs) i)) [
    | inl b ↦ rw b (stops (leb→le (length xs) i b, refl))
    | inr b ↦
        let lt : i < length xs = ground (arith, b) in
        let l : length (set xs i x) ≡ length xs = length-set xs i x in
        rw b (
          returns (
            lt,
            record {
              rest = rest;
              same = same_vector (set-cells_inside xs rest i x lt) (omega arith) (omega arith);
              some_cell = omega arith;
            },
          ))
  ]

  pub get-Represents :
      (v : Vector A) (xs : List A) (i : ℕ)
      → Represents v xs
      → vector_get v i ≡ elim (get_elem? xs i) [ none ↦ stop Stop.failure | some a ↦ ok a ]
  get-Represents v xs i r = ap (λ v. vector_get v i) r.same ∙ get-of xs r.rest i

  -- A vector that represents a list: a new one represents the empty list; pushing adds an element at the
  -- end, whether or not the array has to grow; reading and writing give the element and replace it at an
  -- index below the length, and at any other a message ends the compiler.
  pub vector-Represents :
      (v : Vector A) (xs : List A) (x : A) (i : ℕ)
      → Represents v xs
      → Represents (vector_push v x) (xs ++ x ∷ [])
        × (vector_get v i ≡ elim (get_elem? xs i) [ none ↦ stop Stop.failure | some a ↦ ok a ])
        × Post
            (λ v'. (i < length xs) × Represents v' (set xs i x))
            (λ e. (length xs ≤ i) × (e ≡ Stop.failure))
            (vector_set v i x)
  vector-Represents v xs x i r = (
    push-Represents v xs x r,
    get-Represents v xs i r,
    subst
        (λ v.
          Post (λ v'. (i < length xs) × Represents v' (set xs i x))
            (λ e. (length xs ≤ i) × (e ≡ Stop.failure)) (vector_set v i x))
        (sym r.same) (set-of xs r.rest i x r.some_cell),
  )
