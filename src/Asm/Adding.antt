-- ===== src/Asm/Adding.antt =====
-- asm.c: what the code of an expression adds, calls included.
use my_lang.Prelude.{
  ℕ, ◌≤◌, ◌<◌, ◌≡◌, refl, ap, ◌∙◌, Bool, false, none, ◌++◌, append_assoc, arith, set, returns,
  stops,
}
use my_lang.Prelude.Int.{ℤ, pos}
use my_lang.Lex.Token.{
  TokenType, tok_add, tok_sub, tok_mult, tok_div, tok_equal, tok_not_equal, tok_and, tok_or,
  tok_xor, tok_log_or, tok_log_and, tok_lshift, tok_rshift, tok_gt, tok_lt, tok_gt_eq, tok_lt_eq,
}
use my_lang.Asm.Target.{
  LabelKind, lbl_log_and, lbl_log_or, Suffix, false_suffix, true_suffix, end_suffix, Label,
  cond_label, Line, Register, temp, zero_reg, BinOp, seqz, snez, beq, bne,
}
use my_lang.Asm.State.{Riscv, free_register, create_base_cond_label}
use my_lang.Asm.Eval.{
  emit_in_place, free_operands, eval_log_and, eval_log_or, eval_to_new, eval_equality,
  eval_inverted, eval_operator,
}
use my_lang.Asm.Machine.{is_label, later, first, find_label}
use my_lang.Asm.Registers.{alloc_register-bind}
use my_lang.Asm.Logic.{logic_code}
use my_lang.Asm.Starts.{every}
use my_lang.Asm.Labels.{count, Extends, Lower, plain-Extends, other-label, Adds}

-- The seven lines of a `&&` or a `||`, with two labels of one number.
logic-Extends :
    {lo : LabelKind → ℕ} (s s' : Riscv) (branch : Register → Register → Label → Line) (l r x : ℕ)
    (kind : LabelKind) (i : ℕ) (u : Suffix) (below at : ℤ)
    → s'.out
      ≡ s.out
        ++ logic_code branch l r x (cond_label kind i u) (cond_label kind i end_suffix) below at
    → s'.symbols ≡ s.symbols
    → ((k : LabelKind) → count s k ≤ count s' k)
    → lo kind ≤ i
    → i < count s' kind
    → ((k : LabelKind) (n : ℕ) (t : Suffix) (q : ℕ)
        → is_label (cond_label k n t) (branch (temp q) zero_reg (cond_label kind i u)) ≡ false)
    → Extends lo s s'
unfolding find_label
logic-Extends {lo} s s' branch l r x kind i u below at written symbols grows low high plain =
    record {
      code = logic_code branch l r x (cond_label kind i u) (cond_label kind i end_suffix) below at;
      written = written;
      symbols = symbols;
      grows = grows;
      labels = λ k n t h.
          chain (plain k n t l) (plain k n t r)
            (other-label lo (count s') kind i u k n t low high h)
            (other-label lo (count s') kind i end_suffix k n t low high h);
    }
  where
    chain :
        {a b c d : Bool}
        → a ≡ false
        → b ≡ false
        → c ≡ false
        → d ≡ false
        → first a (first b (later (later (first c (later (first d none)))))) ≡ none
    chain {b = b} {c} {d} h k m n =
        ap (λ a. first a (first b (later (later (first c (later (first d none))))))) h
        ∙ ap (λ b. later (first b (later (later (first c (later (first d none))))))) k
        ∙ ap (λ c. later (later (later (later (first c (later (first d none))))))) m
        ∙ ap (λ d. later (later (later (later (later (later (first d none))))))) n

module _ {lo : LabelKind → ℕ} (l r : ℕ) (s : Riscv) (h : Lower lo s) where
  eval_to_new-Adds : (op : BinOp) (a b : ℕ) → Adds lo s (eval_to_new op a b l r s)
  unfolding eval_to_new free_operands free_register find_label
  eval_to_new-Adds op a b =
      alloc_register-bind _ s tt
        λ x free. returns (plain-Extends s _ _ refl refl (λ k. refl) (λ k n t. refl))

  emit_in_place-Adds : (op : BinOp) → Adds lo s (emit_in_place op l r s)
  unfolding emit_in_place free_register find_label
  emit_in_place-Adds op = returns (plain-Extends s _ _ refl refl (λ k. refl) (λ k n t. refl))

  eval_equality-Adds :
      (test : Register → Register → Line)
      → ((k : LabelKind) (n : ℕ) (t : Suffix) (x : ℕ)
          → is_label (cond_label k n t) (test (temp x) (temp x)) ≡ false)
      → Adds lo s (eval_equality test l r s)
  unfolding eval_equality free_operands free_register find_label
  eval_equality-Adds test plain = alloc_register-bind _ s tt λ x free. returns (
      plain-Extends s _ _ (append_assoc s.out _ _) refl (λ k. refl)
        (λ k n t. ap (λ b. later (first b none)) (plain k n t x)))

  eval_inverted-Adds : (a b : ℕ) → Adds lo s (eval_inverted a b l r s)
  unfolding eval_inverted free_operands free_register find_label
  eval_inverted-Adds a b = alloc_register-bind _ s tt λ x free.
      alloc_register-bind _ (record s { temp_free = set s.temp_free x false }) tt
        λ y free'.
          returns (plain-Extends s _ _ (append_assoc s.out _ _) refl (λ k. refl) (λ k n t. refl))

  eval_log_and-Adds : Adds lo s (eval_log_and l r s)
  unfolding eval_log_and create_base_cond_label free_operands free_register find_label
  eval_log_and-Adds = alloc_register-bind _ s tt λ x free. returns (
      logic-Extends s _ beq l r x lbl_log_and s.and_count false_suffix (pos 1) (pos 0)
        (simp append_assoc) refl
        (every _ (omega arith) (omega arith) (omega arith) (omega arith) (omega arith)
          (omega arith))
        (h lbl_log_and) (omega arith) (λ k n t q. refl))

  eval_log_or-Adds : Adds lo s (eval_log_or l r s)
  unfolding eval_log_or create_base_cond_label free_operands free_register find_label
  eval_log_or-Adds = alloc_register-bind _ s tt λ x free. returns (
      logic-Extends s _ bne l r x lbl_log_or s.or_count true_suffix (pos 0) (pos 1)
        (simp append_assoc) refl
        (every _ (omega arith) (omega arith) (omega arith) (omega arith) (omega arith)
          (omega arith))
        (h lbl_log_or) (omega arith) (λ k n t q. refl))

  pub eval_operator-Adds : (op : TokenType) → Adds lo s (eval_operator op l r s)
  unfolding eval_operator
  eval_operator-Adds tok_add = emit_in_place-Adds BinOp.add
  eval_operator-Adds tok_sub = emit_in_place-Adds BinOp.sub
  eval_operator-Adds tok_mult = emit_in_place-Adds BinOp.mul
  eval_operator-Adds tok_div = emit_in_place-Adds BinOp.div
  eval_operator-Adds tok_equal = eval_equality-Adds seqz (λ k n t x. refl)
  eval_operator-Adds tok_not_equal = eval_equality-Adds snez (λ k n t x. refl)
  eval_operator-Adds tok_log_and = eval_log_and-Adds
  eval_operator-Adds tok_log_or = eval_log_or-Adds
  eval_operator-Adds tok_lt = eval_to_new-Adds BinOp.slt l r
  eval_operator-Adds tok_lt_eq = eval_inverted-Adds r l
  eval_operator-Adds tok_gt = eval_to_new-Adds BinOp.slt r l
  eval_operator-Adds tok_gt_eq = eval_inverted-Adds l r
  eval_operator-Adds tok_lshift = eval_to_new-Adds BinOp.sll l r
  eval_operator-Adds tok_rshift = eval_to_new-Adds BinOp.sra l r
  eval_operator-Adds tok_and = eval_to_new-Adds BinOp.and l r
  eval_operator-Adds tok_or = eval_to_new-Adds BinOp.or l r
  eval_operator-Adds tok_xor = eval_to_new-Adds BinOp.xor l r
  eval_operator-Adds op = stops tt
