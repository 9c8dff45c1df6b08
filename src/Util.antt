-- ===== src/Util.antt =====
-- util.c: numbers as text; in the modules below, vectors and strings.
pub mod RoundTrip
pub mod Vector
pub mod Strings
pub mod Refines
pub mod Copies
mod Tests
use my_lang.Prelude.{
  ℕ, zero, suc, ◌+◌, ◌-◌, ◌*◌, ◌/◌, ◌%◌, ◌^◌, Bool, true, false, ◌&&◌, ◌||◌, [], ◌∷◌, ◌++◌, ltb,
  leb, ◌==◌, if◌then◌else◌, take, Bytes,
}
use my_lang.Prelude.Int.{ℤ, pos, negsuc}

abbrev pub int_max : ℕ
int_max = 2 ^ 31 - 1

-- `isdigit`
abbrev pub is_digit : ℕ → Bool
is_digit c = leb b'0' c && leb c b'9'

-- `isspace`
abbrev is_space : ℕ → Bool
is_space c = c == 32 || leb 9 c && leb c 13

-- The decimal digits of a number below 10 ^ f.
unfoldable pub digits : ℕ → ℕ → Bytes
digits zero n = []
digits (suc f) n = elim (ltb n 10) [
  | true ↦ (48 + n) ∷ []
  | false ↦ digits f (n / 10) ++ (48 + n % 10) ∷ []
]

-- `%d`: at most ten digits, behind a sign if the number is negative.
abbrev pub decimal : ℤ → Bytes
decimal (pos n) = digits 10 n
decimal (negsuc n) = b'-' ∷ digits 10 (suc n)

-- `snprintf(str, size, "%d", num)` keeps `size - 1` characters.
unfoldable pub int_to_str : ℤ → ℕ → Bytes
unfolding digits
int_to_str num size = take (size - 1) (decimal num)

-- `enum str2int_errno`
pub data Str2intErrno : Type 0 where
  overflow underflow inconvertible : Str2intErrno

pub data Converted : Type 0 where
  success : ℤ → Converted
  error : Str2intErrno → Converted

-- The digits that `strtol` reads at base 10, on top of `acc`, and what it leaves.
unfoldable pub strtol_digits : ℕ → Bytes → ℕ × Bytes
strtol_digits acc [] = (acc, [])
strtol_digits acc (c ∷ s) =
    let rest = strtol_digits (acc * 10 + (c - 48)) s in if is_digit c then rest else (acc, c ∷ s)

-- The tests behind `strtol`, whose value is `m`, or `-m` if `negative`. Where no digit stands,
-- `strtol` gives 0 and leaves `end` at the start of the whole text.
classify : Bool → Bytes → ℕ × Bytes → Converted
classify negative s (m, end) =
    if (if negative then ltb (int_max + 1) m else ltb int_max m)
    then error (if negative then underflow else overflow)
    else elim s [
      | [] ↦ error inconvertible
      | c ∷ _ ↦
          if is_digit c
          then elim end [
            | [] ↦ success (if negative && ltb 0 m then negsuc (m - 1) else pos m)
            | _ ∷ _ ↦ error inconvertible
          ]
          else error inconvertible
    ]

-- `str2int(&out, s, 10)`
unfoldable pub str2int : Bytes → Converted
unfolding strtol_digits classify
str2int [] = error inconvertible
str2int (c ∷ s) =
    if is_space c
    then error inconvertible
    else if c == b'-'
    then classify true s (strtol_digits 0 s)
    else if c == b'+'
    then classify false s (strtol_digits 0 s)
    else classify false (c ∷ s) (strtol_digits 0 (c ∷ s))
