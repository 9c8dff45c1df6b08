-- ===== src/Util/Strings.antt =====
-- util.c: `String`, a vector of pointers to characters, each to a place of its own, which is written once;
-- here the character stands for the pointer. A `char *` is its characters before the terminating 0.
use my_lang.Prelude.{
  ℕ, zero, suc, ◌+◌, ◌==◌, Bool, true, false, [], ◌∷◌, length, get_or, if◌then◌else◌, Outcome, ok,
  bind, Bytes,
}
use my_lang.Util.Vector.{Vector, vector_new, vector_push, vector_get}

pub record String : Type 0 where
  pub vector : Vector ℕ
  pub length : ℕ

unfoldable pub string_new : String
unfolding vector_new
string_new = record { vector = vector_new; length = 0 }

unfoldable pub string_append : String → ℕ → String
unfolding vector_push
string_append s c = record { vector = vector_push s.vector c; length = s.length + 1 }

-- The loop of `string`, over the characters that remain.
unfoldable pub append_all : String → Bytes → String
unfolding string_append
append_all s [] = s
append_all s (c ∷ str) = append_all (string_append s c) str

unfoldable pub string : Bytes → String
unfolding append_all string_new
string str = append_all string_new str

-- The loop of `string_clone`: `n` characters remain, from `i` on.
unfoldable pub clone_loop : ℕ → ℕ → Vector ℕ → String → Outcome String
unfolding string_append vector_get
clone_loop zero i vector s = ok s
clone_loop (suc n) i vector s =
    bind (vector_get vector i) λ c. clone_loop n (i + 1) vector (string_append s c)

unfoldable pub string_clone : String → Outcome String
unfolding clone_loop string_new
string_clone string = clone_loop string.length 0 string.vector string_new

-- The loop of `string_eq`.
unfoldable pub eq_loop : ℕ → ℕ → Vector ℕ → Bytes → Outcome Bool
unfolding vector_get
eq_loop zero i vector cmp = ok true
eq_loop (suc n) i vector cmp =
    let rest = eq_loop n (i + 1) vector cmp in
    bind (vector_get vector i) λ c. if c == get_or cmp i 0 then rest else ok false

unfoldable pub string_eq : String → Bytes → Outcome Bool
unfolding eq_loop
string_eq string cmp =
    if string.length == length cmp then eq_loop string.length 0 string.vector cmp else ok false

-- The loop of `as_str`: the characters from `i` on.
unfoldable pub chars : ℕ → ℕ → Vector ℕ → Outcome Bytes
unfolding vector_get
chars zero i vector = ok []
chars (suc n) i vector =
    bind (vector_get vector i) λ c. bind (chars n (i + 1) vector) λ s. ok (c ∷ s)

unfoldable pub as_str : String → Outcome Bytes
unfolding chars
as_str string = chars string.length 0 string.vector
