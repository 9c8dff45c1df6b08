-- ===== src/Util/Tests.antt =====
-- Runs of the conversions between numbers and text, and of vectors and strings.
use my_lang.Prelude.{
  ℕ, List, ◌≤◌, ◌++◌, [], ◌∷◌, some, none, ok, stop, Stop, Post, get_elem?, set, strcmp_eq, ◌≡◌,
  ◌<◌, refl, arith, bytes, length,
}
use my_lang.Prelude.Int.{negsuc}
use my_lang.Util.{success, error, overflow, inconvertible, digits, decimal, int_to_str, str2int}
use my_lang.Util.Vector.{vector_push, vector_get, vector_set}
use my_lang.Util.Strings.{String, string, append_all, string_clone, string_eq, as_str}
use my_lang.Util.Refines.{Represents, vector_of, vector-Represents}
use my_lang.Util.Copies.{as_str-string}
use my_lang.Util.RoundTrip.{str2int-int_to_str}

str2int_negative : str2int (bytes "-2147483648") ≡ success (negsuc 2147483647)
unfolding str2int
str2int_negative = refl

str2int_large : str2int (bytes "2147483648") ≡ error overflow
unfolding str2int
str2int_large = refl

str2int_trailing : str2int (bytes "12a") ≡ error inconvertible
unfolding str2int
str2int_trailing = refl

lowest_room : length (decimal (negsuc 2147483647)) < 12
unfolding digits
lowest_room = omega arith

str2int-int_to_str_example :
    str2int (int_to_str (negsuc 2147483647) 12) ≡ success (negsuc 2147483647)
str2int-int_to_str_example = str2int-int_to_str (negsuc 2147483647) 12 (omega arith) lowest_room

abbrev full : List ℕ
full = 1 ∷ 2 ∷ 3 ∷ 4 ∷ 5 ∷ 6 ∷ 7 ∷ 8 ∷ 9 ∷ 10 ∷ []

full-Represents : Represents (vector_of full []) full
full-Represents = record { rest = []; same = refl; some_cell = omega arith }

vector-Represents_example :
    Represents (vector_push (vector_of full []) 11) (full ++ 11 ∷ [])
    × (vector_get (vector_of full []) 4
        ≡ elim (get_elem? full 4) [ none ↦ stop Stop.failure | some a ↦ ok a ])
    × Post
        (λ v'. (4 < length full) × Represents v' (set full 4 11))
        (λ e. (length full ≤ 4) × (e ≡ Stop.failure))
        (vector_set (vector_of full []) 4 11)
vector-Represents_example = vector-Represents (vector_of full []) full 11 4 full-Represents

as_str-string_example :
    (as_str (append_all (string (bytes "ma")) (bytes "in")) ≡ ok (bytes "ma" ++ bytes "in"))
    × ((s' : String) × (string_clone (append_all (string (bytes "ma")) (bytes "in")) ≡ ok s')
        × (as_str s' ≡ ok (bytes "ma" ++ bytes "in")))
    × (string_eq (append_all (string (bytes "ma")) (bytes "in")) (bytes "main")
        ≡ ok (strcmp_eq (bytes "ma" ++ bytes "in") (bytes "main")))
as_str-string_example = as_str-string (bytes "ma") (bytes "in") (bytes "main")
