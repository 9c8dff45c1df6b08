-- ===== src/Asm/Values.antt =====
-- asm.c: the code of `eval_operator`, over its operands in two registers.
use my_lang.Prelude.{
  some, ℕ, ◌<◌, ◌≡◌, refl, ap, ◌∙◌, Bool, not, List, arith, ◌==◌, stops, Bool-cases, inl, inr,
}
use my_lang.Lex.Token.{
  TokenType, tok_add, tok_sub, tok_mult, tok_div, tok_equal, tok_not_equal, tok_and, tok_or,
  tok_xor, tok_log_or, tok_log_and, tok_lshift, tok_rshift, tok_gt, tok_lt, tok_gt_eq, tok_lt_eq,
}
use my_lang.Asm.Target.{temp, Line, BinOp, seqz, snez}
use my_lang.Asm.State.{Riscv}
use my_lang.Asm.Eval.{eval_operator}
use my_lang.Asm.Machine.{Machine, word, minus, signed_lt, bit, write, exec, alu}
use my_lang.Asm.Meaning.{Memory, meaning}
use my_lang.Asm.Flags.{Takes}
use my_lang.Asm.Operators.{
  Operands, Leaves, operands, swapped, word-bit, emit_in_place-Leaves, eval_to_new-Leaves,
  eval_to_new-Leaves_swapped, eval_equality-Leaves, eval_inverted-Leaves,
}
use my_lang.Asm.Shortcut.{eval_log_and-Leaves, eval_log_or-Leaves}

exec-seqz :
    (x : ℕ) (prog : List Line) (m : Machine)
    → exec prog (seqz (temp x) (temp x)) m ≡ some (write m (temp x) (bit (m.regs (temp x) == 0)))
unfolding exec
exec-seqz x prog m = refl

exec-snez :
    (x : ℕ) (prog : List Line) (m : Machine)
    → exec prog (snez (temp x) (temp x)) m
      ≡ some (write m (temp x) (bit (not (m.regs (temp x) == 0))))
unfolding exec
exec-snez x prog m = refl

-- The difference of two words is zero just when they are equal.
minus-zero : (a b : ℕ) → a < 4294967296 → b < 4294967296 → (word (minus b a) == 0) ≡ (a == b)
minus-zero a b h k = elim (Bool-cases (a == b)) [
  | inl e ↦ let z : word (minus b a) ≡ 0 = ground (arith, e) in ground (arith, e, z)
  | inr e ↦ let z : 0 < word (minus b a) = ground (arith, e) in ground (arith, e, z)
]

module _ {f f₁ f₂ : List Bool} {l r : ℕ} (p : Takes f l f₁) (q : Takes f₁ r f₂) (s : Riscv)
    (e : s.temp_free ≡ f₂) {fp a b : ℕ} {mem : Memory} (a_word : a < 4294967296)
    (b_word : b < 4294967296) where
  pub eval_operator-Leaves :
      (op : TokenType)
      → Leaves s fp f (Operands l r a b) mem (meaning op a b) (eval_operator op l r s)
  unfolding eval_operator meaning alu
  eval_operator-Leaves tok_add = emit_in_place-Leaves p q s e BinOp.add (omega arith)
  eval_operator-Leaves tok_sub = emit_in_place-Leaves p q s e BinOp.sub refl
  eval_operator-Leaves tok_mult = emit_in_place-Leaves p q s e BinOp.mul (omega arith)
  eval_operator-Leaves tok_div = emit_in_place-Leaves p q s e BinOp.div refl
  eval_operator-Leaves tok_equal =
      eval_equality-Leaves p q s e seqz (λ d. bit (d == 0)) (λ x n s. (refl, refl)) exec-seqz
        (word-bit (word (minus b a) == 0) ∙ ap bit (minus-zero a b a_word b_word))
  eval_operator-Leaves tok_not_equal =
      eval_equality-Leaves p q s e snez (λ d. bit (not (d == 0))) (λ x n s. (refl, refl)) exec-snez
        (word-bit (not (word (minus b a) == 0))
          ∙ ap (λ t. bit (not t)) (minus-zero a b a_word b_word))
  eval_operator-Leaves tok_log_and = eval_log_and-Leaves p q s e
  eval_operator-Leaves tok_log_or = eval_log_or-Leaves p q s e
  eval_operator-Leaves tok_lt = eval_to_new-Leaves p q s e BinOp.slt (word-bit (signed_lt a b))
  eval_operator-Leaves tok_lt_eq =
      eval_inverted-Leaves p q s e r l (signed_lt b a) (λ m k. swapped signed_lt m k) refl
  eval_operator-Leaves tok_gt =
      eval_to_new-Leaves_swapped p q s e BinOp.slt (word-bit (signed_lt b a))
  eval_operator-Leaves tok_gt_eq =
      eval_inverted-Leaves p q s e l r (signed_lt a b) (λ m k. operands signed_lt m k) refl
  eval_operator-Leaves tok_lshift = eval_to_new-Leaves p q s e BinOp.sll (omega arith)
  eval_operator-Leaves tok_rshift = eval_to_new-Leaves p q s e BinOp.sra refl
  eval_operator-Leaves tok_and = eval_to_new-Leaves p q s e BinOp.and refl
  eval_operator-Leaves tok_or = eval_to_new-Leaves p q s e BinOp.or refl
  eval_operator-Leaves tok_xor = eval_to_new-Leaves p q s e BinOp.xor refl
  eval_operator-Leaves op = stops tt
