-- ===== src/Prelude/Text.antt =====
-- Text as the program walks it: a C string is the list of its bytes, without the final NUL.
use Prim.Native.Nat.{ℕ, compare, Ordering}
use Prim.Native.Char.{code}
use Prim.Native.String.{String}
use mathlib.Core.Bool.{Bool, true, false, ◌&&◌}
use mathlib.Core.List.{List, [], ◌∷◌}
use mathlib.Core.Path.{◌≡◌, refl}
use native.Mathlib.Omega.{arith}

abbrev pub Bytes : Type 0
Bytes = List ℕ

abbrev pub bytes : String → Bytes
bytes String.[] = []
bytes (String.◌∷◌ c s) = code c ∷ bytes s

abbrev pub byte_eq : ℕ → ℕ → Bool
byte_eq a b = elim (compare a b) [ Ordering.eq ↦ true | _ ↦ false ]

-- `!strcmp(a, b)`
unfoldable pub strcmp_eq : Bytes → Bytes → Bool
strcmp_eq [] [] = true
strcmp_eq [] (b ∷ t) = false
strcmp_eq (a ∷ s) [] = false
strcmp_eq (a ∷ s) (b ∷ t) = byte_eq a b && strcmp_eq s t

pub strcmp_eq_refl : (s : Bytes) → strcmp_eq s s ≡ true
unfolding strcmp_eq
strcmp_eq_refl [] = refl
strcmp_eq_refl (a ∷ s) = ground (arith, strcmp_eq_refl s)

pub strcmp_eq→eq : (s t : Bytes) → strcmp_eq s t ≡ true → s ≡ t
unfolding strcmp_eq
strcmp_eq→eq [] [] h = refl
strcmp_eq→eq [] (b ∷ t) h = cc
strcmp_eq→eq (a ∷ s) [] h = cc
strcmp_eq→eq (a ∷ s) (b ∷ t) h = ground (arith, strcmp_eq→eq s t)
