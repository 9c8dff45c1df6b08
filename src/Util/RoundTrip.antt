-- ===== src/Util/RoundTrip.antt =====
-- util.c: `str2int` behind `int_to_str`.
use my_lang.Prelude.{
  ℕ, zero, suc, ◌+◌, ◌-◌, ◌*◌, ◌/◌, ◌%◌, ◌≤◌, ◌<◌, ◌≡◌, refl, ap, sym, ◌∙◌, true, false, [], ◌∷◌,
  ◌++◌, append_assoc, append-nil, ltb, ◌==◌, take, length, Bytes, if◌then◌else◌, arith, inl, inr,
  ◌⊎◌,
}
use my_lang.Prelude.Int.{ℤ, pos, negsuc}
use my_lang.Util.{
  int_max, is_digit, digits, decimal, int_to_str, success, strtol_digits, classify, str2int,
  is_space,
}

abbrev pow_ten : ℕ → ℕ
pow_ten zero = 1
pow_ten (suc f) = 10 * pow_ten f

is_digit-digit : (d : ℕ) → d < 10 → is_digit (48 + d) ≡ true
is_digit-digit d h = ground arith

digit_step :
    (acc d : ℕ) (s : Bytes)
    → d < 10
    → strtol_digits acc ((48 + d) ∷ s) ≡ strtol_digits (acc * 10 + d) s
unfolding strtol_digits
digit_step acc d s h =
    rw (is_digit-digit d h) (ap (λ k. strtol_digits (acc * 10 + k) s) (omega arith))

digits-small : (f n : ℕ) → n < 10 → digits (suc f) n ≡ (48 + n) ∷ []
unfolding digits
digits-small f n h = ground arith

digits-large : (f n : ℕ) → 10 ≤ n → digits (suc f) n ≡ digits f (n / 10) ++ (48 + n % 10) ∷ []
unfolding digits
digits-large f n h = ground arith

ten_cases : (n : ℕ) → (n < 10) ⊎ (10 ≤ n)
ten_cases n = omega arith

digits-none : (n : ℕ) (s : Bytes) → digits zero n ++ s ≡ s
unfolding digits
digits-none n s = refl

-- The digits of a number are read back, whatever stands behind them.
strtol_digits-digits :
    (f n : ℕ) (s : Bytes) → n < pow_ten f → strtol_digits 0 (digits f n ++ s) ≡ strtol_digits n s
strtol_digits-digits zero n s h =
    ap (strtol_digits 0) (digits-none n s) ∙ ap (λ k. strtol_digits k s) (omega arith)
strtol_digits-digits (suc f) n s h = elim (ten_cases n) [
  | inl e ↦
      ap (λ x. strtol_digits 0 (x ++ s)) (digits-small f n e)
      ∙ digit_step 0 n s e
      ∙ ap (λ k. strtol_digits k s) (omega arith)
  | inr e ↦
      ap (λ x. strtol_digits 0 (x ++ s)) (digits-large f n e)
      ∙ ap (strtol_digits 0) (append_assoc (digits f (n / 10)) ((48 + n % 10) ∷ []) s)
      ∙ strtol_digits-digits f (n / 10) ((48 + n % 10) ∷ s) (omega arith)
      ∙ digit_step (n / 10) (n % 10) s (omega arith)
      ∙ ap (λ k. strtol_digits k s) (omega arith)
]

-- There is a first digit.
record Headed (s : Bytes) : Type 0 where
  head : ℕ
  tail : Bytes
  shape : s ≡ head ∷ tail
  digit : is_digit head ≡ true

digits-Headed : (f n : ℕ) → Headed (digits (suc f) n)
digits-Headed zero n = elim (ten_cases n) [
  | inl e ↦ record {
    head = 48 + n;
    tail = [];
    shape = digits-small zero n e;
    digit = is_digit-digit n e;
  }
  | inr e ↦ record {
    head = 48 + n % 10;
    tail = [];
    shape = digits-large zero n e ∙ digits-none (n / 10) _;
    digit = is_digit-digit (n % 10) (omega arith);
  }
]
digits-Headed (suc f) n = elim (ten_cases n) [
  | inl e ↦ record {
    head = 48 + n;
    tail = [];
    shape = digits-small (suc f) n e;
    digit = is_digit-digit n e;
  }
  | inr e ↦
      let d = digits-Headed f (n / 10) in
      record {
        head = d.head;
        tail = d.tail ++ (48 + n % 10) ∷ [];
        shape = digits-large (suc f) n e ∙ ap (λ x. x ++ (48 + n % 10) ∷ []) d.shape;
        digit = d.digit;
      }
]

module _ (c : ℕ) (s : Bytes) (d : is_digit c ≡ true) where
  not_space : is_space c ≡ false
  not_space = ground arith

  not_minus : (c == b'-') ≡ false
  not_minus = ground arith

  not_plus : (c == b'+') ≡ false
  not_plus = ground arith

  str2int-classify : str2int (c ∷ s) ≡ classify false (c ∷ s) (strtol_digits 0 (c ∷ s))
  unfolding str2int
  str2int-classify = rw (not_space, not_minus, not_plus)

  classify-success : (n : ℕ) → n ≤ int_max → classify false (c ∷ s) (n, []) ≡ success (pos n)
  unfolding classify
  classify-success n h = rw (in_range n h, d)
    where
      in_range : (n : ℕ) → n ≤ int_max → ltb int_max n ≡ false
      in_range n h = ground arith

take-length : (m : ℕ) (xs : Bytes) → length xs ≤ m → take m xs ≡ xs
take-length zero [] h = refl
take-length zero (x ∷ xs) h = absurd (omega arith)
take-length (suc m) [] h = refl
take-length (suc m) (x ∷ xs) h = ap (λ ys. x ∷ ys) (take-length m xs (omega arith))

nothing-read : (n : ℕ) → strtol_digits n [] ≡ (n, [])
unfolding strtol_digits
nothing-read n = refl

digits-read : (n : ℕ) → n ≤ int_max + 1 → strtol_digits 0 (digits 10 n) ≡ (n, [])
digits-read n h =
    ap (strtol_digits 0) (sym (append-nil (digits 10 n)))
    ∙ strtol_digits-digits 10 n [] (omega arith)
    ∙ nothing-read n

-- Behind a sign.
str2int-minus : (s : Bytes) → str2int (b'-' ∷ s) ≡ classify true s (strtol_digits 0 s)
unfolding str2int
str2int-minus s = refl

classify-negative :
    (c : ℕ) (s : Bytes) (n : ℕ)
    → is_digit c ≡ true
    → n ≤ int_max
    → classify true (c ∷ s) (suc n, []) ≡ success (negsuc n)
unfolding classify
classify-negative c s n d h =
    rw (in_range n h, d)
      (ap (λ b. success (if b then negsuc (suc n - 1) else pos (suc n))) (above n)
        ∙ ap (λ k. success (negsuc k)) (omega arith))
  where
    in_range : (n : ℕ) → n ≤ int_max → ltb (int_max + 1) (suc n) ≡ false
    in_range n h = ground arith

    above : (n : ℕ) → ltb 0 (suc n) ≡ true
    above n = ground arith

-- The numbers of an `int`.
abbrev pub IsInt : ℤ → Type 0
IsInt (pos n) = n ≤ int_max
IsInt (negsuc n) = n ≤ int_max

str2int-decimal : (z : ℤ) → IsInt z → str2int (decimal z) ≡ success z
str2int-decimal (pos n) h =
    let d = digits-Headed 9 n in
    ap str2int d.shape
    ∙ str2int-classify d.head d.tail d.digit
    ∙ ap (classify false (d.head ∷ d.tail))
        (ap (strtol_digits 0) (sym d.shape) ∙ digits-read n (omega arith))
    ∙ classify-success d.head d.tail d.digit n h
str2int-decimal (negsuc n) h =
    let d = digits-Headed 9 (suc n) in
    str2int-minus (digits 10 (suc n))
    ∙ ap (λ s. classify true s (strtol_digits 0 s)) d.shape
    ∙ ap (classify true (d.head ∷ d.tail))
        (ap (strtol_digits 0) (sym d.shape) ∙ digits-read (suc n) (omega arith))
    ∙ classify-negative d.head d.tail n d.digit h

-- A number of an `int`, of either sign, written with room for its sign and digits, is read back as itself.
pub str2int-int_to_str :
    (z : ℤ) (size : ℕ)
    → IsInt z
    → length (decimal z) < size
    → str2int (int_to_str z size) ≡ success z
unfolding int_to_str
str2int-int_to_str z size h room =
    ap str2int (take-length (size - 1) (decimal z) (omega (arith, room))) ∙ str2int-decimal z h
