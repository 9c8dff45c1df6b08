-- ===== src/Lex/Token.antt =====
-- include/mylang/lex.h: token types and tokens.
use my_lang.Prelude.{
  ℕ, ◌≡◌, refl, ap, ◌∙◌, sym, Bool, true, List, [], ◌∷◌, get_or, ◌==◌, ==_iff, Bytes,
}

-- `enum TokenType`, in the order of the header.
pub data TokenType : Type 0 where
  tok_ident tok_num tok_add tok_sub tok_mult tok_div : TokenType
  tok_lbracket tok_rbracket tok_lparen tok_rparen tok_lbrace tok_rbrace : TokenType
  tok_semicolon tok_assign tok_type tok_comma tok_return tok_if : TokenType
  tok_else tok_equal tok_not_equal tok_not tok_enum tok_while : TokenType
  tok_for tok_and tok_or tok_xor tok_log_or tok_log_and : TokenType
  tok_lshift tok_rshift tok_gt tok_lt tok_gt_eq tok_lt_eq : TokenType

-- The number that C gives the enumerator.
abbrev pub number : TokenType → ℕ
number tok_ident = 0
number tok_num = 1
number tok_add = 2
number tok_sub = 3
number tok_mult = 4
number tok_div = 5
number tok_lbracket = 6
number tok_rbracket = 7
number tok_lparen = 8
number tok_rparen = 9
number tok_lbrace = 10
number tok_rbrace = 11
number tok_semicolon = 12
number tok_assign = 13
number tok_type = 14
number tok_comma = 15
number tok_return = 16
number tok_if = 17
number tok_else = 18
number tok_equal = 19
number tok_not_equal = 20
number tok_not = 21
number tok_enum = 22
number tok_while = 23
number tok_for = 24
number tok_and = 25
number tok_or = 26
number tok_xor = 27
number tok_log_or = 28
number tok_log_and = 29
number tok_lshift = 30
number tok_rshift = 31
number tok_gt = 32
number tok_lt = 33
number tok_gt_eq = 34
number tok_lt_eq = 35

abbrev token_types : List TokenType
token_types =
    tok_ident ∷ tok_num ∷ tok_add ∷ tok_sub ∷ tok_mult ∷ tok_div ∷ tok_lbracket ∷ tok_rbracket
    ∷ tok_lparen ∷ tok_rparen ∷ tok_lbrace ∷ tok_rbrace ∷ tok_semicolon ∷ tok_assign ∷ tok_type
    ∷ tok_comma ∷ tok_return ∷ tok_if ∷ tok_else ∷ tok_equal ∷ tok_not_equal ∷ tok_not ∷ tok_enum
    ∷ tok_while ∷ tok_for ∷ tok_and ∷ tok_or ∷ tok_xor ∷ tok_log_or ∷ tok_log_and ∷ tok_lshift
    ∷ tok_rshift ∷ tok_gt ∷ tok_lt ∷ tok_gt_eq ∷ tok_lt_eq ∷ []

abbrev of_number : ℕ → TokenType
of_number n = get_or token_types n tok_ident

of_number-number : (t : TokenType) → of_number (number t) ≡ t
of_number-number tok_ident = refl
of_number-number tok_num = refl
of_number-number tok_add = refl
of_number-number tok_sub = refl
of_number-number tok_mult = refl
of_number-number tok_div = refl
of_number-number tok_lbracket = refl
of_number-number tok_rbracket = refl
of_number-number tok_lparen = refl
of_number-number tok_rparen = refl
of_number-number tok_lbrace = refl
of_number-number tok_rbrace = refl
of_number-number tok_semicolon = refl
of_number-number tok_assign = refl
of_number-number tok_type = refl
of_number-number tok_comma = refl
of_number-number tok_return = refl
of_number-number tok_if = refl
of_number-number tok_else = refl
of_number-number tok_equal = refl
of_number-number tok_not_equal = refl
of_number-number tok_not = refl
of_number-number tok_enum = refl
of_number-number tok_while = refl
of_number-number tok_for = refl
of_number-number tok_and = refl
of_number-number tok_or = refl
of_number-number tok_xor = refl
of_number-number tok_log_or = refl
of_number-number tok_log_and = refl
of_number-number tok_lshift = refl
of_number-number tok_rshift = refl
of_number-number tok_gt = refl
of_number-number tok_lt = refl
of_number-number tok_gt_eq = refl
of_number-number tok_lt_eq = refl

-- `a == b` on the enumeration.
unfoldable pub type_eq : TokenType → TokenType → Bool
type_eq a b = number a == number b

pub type_eq→eq : (a b : TokenType) → type_eq a b ≡ true → a ≡ b
unfolding type_eq
type_eq→eq a b h =
    sym (of_number-number a)
    ∙ ap of_number ((==_iff (number a) (number b)).0 h)
    ∙ of_number-number b

pub type_eq_refl : (a : TokenType) → type_eq a a ≡ true
unfolding type_eq
type_eq_refl a = (==_iff (number a) (number a)).1 refl

-- `struct Token`.
pub record Token : Type 0 where
  pub type : TokenType
  pub value : Bytes
  pub pos : ℕ
  pub line : ℕ
