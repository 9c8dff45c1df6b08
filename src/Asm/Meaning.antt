-- ===== src/Asm/Meaning.antt =====
-- asm.c: what an expression of the program means where the code and C agree, over the words of a stack frame: an inductive family of
-- its own, without registers. `symbols` are the entries of the names, `fp` is the frame pointer.
use Prim.Native.Nat.{bit_and, bit_or, bit_xor}
use my_lang.Prelude.{
  ℕ, ◌+◌, ◌*◌, ◌%◌, ◌^◌, ◌<◌, ◌≤◌, ◌≡◌, ◌≢◌, ◌⊎◌, Bool, true, false, some, List, get_elem?, ◌==◌,
  ◌&&◌, ◌||◌, not, Bytes, arith,
}
use my_lang.Prelude.Int.{ℤ, pos, negsuc}
use my_lang.Lex.Token.{
  TokenType, tok_add, tok_sub, tok_mult, tok_div, tok_equal, tok_not_equal, tok_not, tok_and,
  tok_or, tok_xor, tok_log_or, tok_log_and, tok_lshift, tok_rshift, tok_gt, tok_lt, tok_gt_eq,
  tok_lt_eq,
}
use my_lang.Symbol.{SymTabEntry, sym_const, sym_variable}
use my_lang.Ast.{AstNode, int_const, bin_exp, ident, var_asgn, unary_expr, lval}
use my_lang.Asm.Machine.{word, word_of, minus, signed_lt, divide, shift_right, bit, put, fits}
use my_lang.Asm.Eval.{locals_base}

-- The value of an operator, a word.
unfoldable pub meaning : TokenType → ℕ → ℕ → ℕ
unfolding divide shift_right
meaning tok_add a b = word (a + b)
meaning tok_sub a b = word (minus a b)
meaning tok_mult a b = word (a * b)
meaning tok_div a b = word (divide a b)
meaning tok_equal a b = bit (a == b)
meaning tok_not_equal a b = bit (not (a == b))
meaning tok_log_and a b = bit (not (a == 0) && not (b == 0))
meaning tok_log_or a b = bit (not (a == 0) || not (b == 0))
meaning tok_lt a b = bit (signed_lt a b)
meaning tok_lt_eq a b = bit (not (signed_lt b a))
meaning tok_gt a b = bit (signed_lt b a)
meaning tok_gt_eq a b = bit (not (signed_lt a b))
meaning tok_lshift a b = word (a * 2 ^ (b % 32))
meaning tok_rshift a b = word (shift_right a b)
meaning tok_and a b = word (bit_and a b)
meaning tok_or a b = word (bit_or a b)
meaning tok_xor a b = word (bit_xor a b)
meaning op a b = 0

abbrev pub Memory : Type 0
Memory = ℕ → ℕ

-- Where an operator means in the code what it means in C. C asks for no division by zero and no shift by
-- a word or more. The code evaluates the right operand of `&&` and `||` always, also where C skips it: there,
-- the operand must leave the memory as it was, which C does not ask for.
abbrev pub IsDefined : TokenType → ℕ → ℕ → Memory → Memory → Type 0
IsDefined tok_div a b m m' = b ≢ 0
IsDefined tok_lshift a b m m' = b < 32
IsDefined tok_rshift a b m m' = b < 32
IsDefined tok_log_and a b m m' = (a ≢ 0) ⊎ (m ≡ m')
IsDefined tok_log_or a b m m' = (a ≡ 0) ⊎ (m ≡ m')
IsDefined tok_add a b m m' = Unit
IsDefined tok_sub a b m m' = Unit
IsDefined tok_mult a b m m' = Unit
IsDefined tok_equal a b m m' = Unit
IsDefined tok_not_equal a b m m' = Unit
IsDefined tok_lt a b m m' = Unit
IsDefined tok_lt_eq a b m m' = Unit
IsDefined tok_gt a b m m' = Unit
IsDefined tok_gt_eq a b m m' = Unit
IsDefined tok_and a b m m' = Unit
IsDefined tok_or a b m m' = Unit
IsDefined tok_xor a b m m' = Unit
IsDefined op a b m m' = ⊥

-- `Evaluates a m v m'`: in the memory `m` the expression has the value `v`, and leaves the memory `m'`. There
-- is no rule for a call, none for an assignment to a parameter (asm.c reads it at one address and stores it
-- at another), and a number, a constant or an address that an instruction holds must fit its twelve bits.
-- An operand of `&&` or `||` that C skips must have a meaning too, since the code evaluates it.
pub data Evaluates (symbols : List SymTabEntry) (fp : ℕ)
    : AstNode → Memory → ℕ → Memory → Type 0 where
  number : {z : ℤ} {m : Memory} → fits z ≡ true → Evaluates symbols fp (int_const z) m (word_of z) m
  constant :
      {x : Bytes} {p n : ℕ} {e : SymTabEntry} {m : Memory}
      → get_elem? symbols p ≡ some e
      → e.symbol ≡ sym_const
      → e.const_value ≡ some n
      → n < 2048
      → Evaluates symbols fp (ident x (some p)) m (word n) m
  parameter :
      {x : Bytes} {p i : ℕ} {e : SymTabEntry} {m : Memory}
      → get_elem? symbols p ≡ some e
      → e.symbol ≡ sym_variable
      → e.is_arg_loaded ≡ true
      → e.arg_reg ≡ some i
      → 4 * (3 + i) ≤ 2048
      → Evaluates symbols fp (ident x (some p)) m (word (m (minus fp (4 * (3 + i))))) m
  variable :
      {x : Bytes} {p o : ℕ} {e : SymTabEntry} {m : Memory}
      → get_elem? symbols p ≡ some e
      → e.symbol ≡ sym_variable
      → e.is_arg_loaded ≡ false
      → e.offset ≡ some o
      → o + locals_base ≤ 2048
      → Evaluates symbols fp (ident x (some p)) m (word (m (minus fp (o + locals_base)))) m
  negation :
      {x : Bytes} {a : AstNode} {v : ℕ} {m m' : Memory}
      → Evaluates symbols fp a m v m'
      → Evaluates symbols fp (unary_expr a x tok_not) m (bit (v == 0)) m'
  operation :
      {x : Bytes} {op : TokenType} {l r : AstNode} {v w : ℕ} {m m₁ m₂ : Memory}
      → Evaluates symbols fp l m v m₁
      → Evaluates symbols fp r m₁ w m₂
      → IsDefined op v w m₁ m₂
      → Evaluates symbols fp (bin_exp x op l r) m (meaning op v w) m₂
  assignment :
      {x : Bytes} {p o v : ℕ} {e : SymTabEntry} {r : AstNode} {m m' : Memory}
      → get_elem? symbols p ≡ some e
      → e.is_arg_loaded ≡ false
      → e.offset ≡ some o
      → o + locals_base < 2048
      → Evaluates symbols fp r m v m'
      → Evaluates symbols fp
          (var_asgn (lval (ident x (some p))) r)
          m
          v
          (put m' (minus fp (o + locals_base)) v)

bit-lt : (b : Bool) → bit b < 4294967296
bit-lt true = omega arith
bit-lt false = omega arith

meaning-lt : (op : TokenType) (a b : ℕ) → meaning op a b < 4294967296
unfolding meaning
meaning-lt tok_add a b = omega arith
meaning-lt tok_sub a b = omega arith
meaning-lt tok_mult a b = omega arith
meaning-lt tok_div a b = omega arith
meaning-lt tok_equal a b = bit-lt (a == b)
meaning-lt tok_not_equal a b = bit-lt (not (a == b))
meaning-lt tok_log_and a b = bit-lt (not (a == 0) && not (b == 0))
meaning-lt tok_log_or a b = bit-lt (not (a == 0) || not (b == 0))
meaning-lt tok_lt a b = bit-lt (signed_lt a b)
meaning-lt tok_lt_eq a b = bit-lt (not (signed_lt b a))
meaning-lt tok_gt a b = bit-lt (signed_lt b a)
meaning-lt tok_gt_eq a b = bit-lt (not (signed_lt a b))
meaning-lt tok_lshift a b = omega arith
meaning-lt tok_rshift a b = omega arith
meaning-lt tok_and a b = omega arith
meaning-lt tok_or a b = omega arith
meaning-lt tok_xor a b = omega arith
meaning-lt op a b = omega arith

word_of-lt : (z : ℤ) → word_of z < 4294967296
word_of-lt (pos n) = omega arith
word_of-lt (negsuc n) = omega arith

pub Evaluates-lt :
    {symbols : List SymTabEntry} {fp v : ℕ} {a : AstNode} {m m' : Memory}
    → Evaluates symbols fp a m v m'
    → v < 4294967296
Evaluates-lt (number {z} s) = word_of-lt z
Evaluates-lt (constant h k l s) = omega arith
Evaluates-lt (parameter h k l n s) = omega arith
Evaluates-lt (variable h k l n s) = omega arith
Evaluates-lt (negation {v = v} h) = bit-lt (v == 0)
Evaluates-lt (operation {op = op} {v = v} {w} h k d) = meaning-lt op v w
Evaluates-lt (assignment h k l s n) = Evaluates-lt n
