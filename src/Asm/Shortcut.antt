-- ===== src/Asm/Shortcut.antt =====
-- asm.c: `eval_log_and` and `eval_log_or`.
use my_lang.Prelude.{
  ℕ, ◌+◌, ◌≤◌, ◌≡◌, ◌≢◌, refl, ap, ◌∙◌, Bool, true, false, not, ◌&&◌, ◌||◌, some, List, [], ◌∷◌,
  ◌++◌, append_assoc, length, length-append, arith, ◌==◌, if◌then◌else◌, returns,
}
use my_lang.Prelude.Int.{ℤ, pos}
use my_lang.Asm.Target.{
  Register, temp, zero_reg, Line, Label, cond_label, lbl_log_and, lbl_log_or, false_suffix,
  true_suffix, end_suffix, Suffix, addi, beq, bne, j, label,
}
use my_lang.Asm.State.{Riscv, free_register, create_base_cond_label}
use my_lang.Asm.Eval.{eval_log_and, eval_log_or, free_operands}
use my_lang.Asm.Machine.{Machine, word_of, fits, bit, skip, go, is_label, find_label, exec}
use my_lang.Asm.Meaning.{Memory}
use my_lang.Asm.Flags.{Takes}
use my_lang.Asm.Registers.{alloc_register-bind}
use my_lang.Asm.Code.{find_label-append, Fresh, IsFresh, InUse, Codes}
use my_lang.Asm.Pieces.{==-refl}
use my_lang.Asm.Operators.{Operands, Leaves, new-other}
use my_lang.Asm.Logic.{logic_code, code-Landed, Fresh-label}

logic-Codes :
    {fp a b v : ℕ} {mem : Memory} {f : List Bool} (branch : Register → Register → Label → Line)
    (jumps : ℕ → Bool) (l r x : ℕ) (target end : Label) (below at : ℤ) (s s' : Riscv)
    → fits below ≡ true
    → fits at ≡ true
    → s'.out ≡ s.out ++ logic_code branch l r x target end below at
    → s'.symbols ≡ s.symbols
    → (IsFresh s → IsFresh s')
    → (IsFresh s
        → (rest : List Line)
        → (find_label target (s.out ++ (logic_code branch l r x target end below at ++ rest))
            ≡ some (length s.out + 4))
          × (find_label end (s.out ++ (logic_code branch l r x target end below at ++ rest))
              ≡ some (length s.out + 6)))
    → ((prog : List Line) (i : ℕ) (m : Machine)
        → exec prog (branch (temp i) zero_reg target) m
          ≡ (if jumps (m.regs (temp i)) then go prog target m else some (skip m)))
    → ((i : ℕ) → InUse f i → x ≢ i)
    → (if jumps a then word_of at else (if jumps b then word_of at else word_of below)) ≡ v
    → Codes s s' x fp f (Operands l r a b) mem v mem
logic-Codes {fp} {a} {b} {v} {mem} {f} branch jumps l r x target end below at s s' small small'
      written symbols fresh finds branches other result =
    record {
      code = logic_code branch l r x target end below at;
      written = written;
      symbols = symbols;
      fresh = fresh;
      does = λ prog rest m h e here k.
          let code = logic_code branch l r x target end below at in
          let whole : prog ≡ s.out ++ (code ++ rest) =
            e ∙ ap (λ o. o ++ rest) written ∙ append_assoc s.out code rest in
          let (t, d) = finds h rest in
          let done =
            code-Landed branch jumps prog s.out rest l r x target end below at whole small small'
              (ap (λ p. find_label target p) whole ∙ t) (ap (λ p. find_label end p) whole ∙ d)
              (branches prog) m here.place in
          record {
            last = done.last;
            run = done.run;
            at = record {
              place = done.place ∙ omega (arith, ap length written, length-append s.out code);
              frame = done.frame ∙ here.frame;
              memory = done.memory ∙ here.memory;
            };
            value =
                done.value
                ∙ ap
                    (λ z.
                      if jumps z
                      then word_of at
                      else (if jumps (m.regs (temp r)) then word_of at else word_of below))
                    k.0
                ∙ ap
                    (λ z.
                      if jumps a
                      then word_of at
                      else (if jumps z then word_of at else word_of below))
                    k.1
                ∙ result;
            kept = λ i u. done.others i (other i u);
          };
    }

-- A label whose number is below.
number-other : (n c : ℕ) (b : Bool) → c + 1 ≤ n → ((n == c) && b) ≡ false
number-other n c b h = let e : (n == c) ≡ false = ground arith in ap (λ t. t && b) e

exec-beq :
    (prog : List Line) (i : ℕ) (target : Label) (m : Machine)
    → exec prog (beq (temp i) zero_reg target) m
      ≡ (if m.regs (temp i) == 0 then go prog target m else some (skip m))
unfolding exec
exec-beq prog i target m = refl

exec-bne :
    (prog : List Line) (i : ℕ) (target : Label) (m : Machine)
    → exec prog (bne (temp i) zero_reg target) m
      ≡ (if not (m.regs (temp i) == 0) then go prog target m else some (skip m))
unfolding exec
exec-bne prog i target m = refl

-- The line is no label with a number from the counters on.
abbrev Below : ℕ → ℕ → Line → Type 0
Below ands ors line =
    (n : ℕ) (s : Suffix)
    → (ands ≤ n → is_label (cond_label lbl_log_and n s) line ≡ false)
      × (ors ≤ n → is_label (cond_label lbl_log_or n s) line ≡ false)

code-Fresh :
    (b₁ b₂ : Line) (x : ℕ) (target end : Label) (below at : ℤ) (out : List Line) (ands ors : ℕ)
    → Below ands ors b₁
    → Below ands ors b₂
    → Below ands ors (label target)
    → Below ands ors (label end)
    → Fresh out ands ors
    → Fresh
        (((((((out ++ b₁ ∷ []) ++ b₂ ∷ []) ++ addi (temp x) zero_reg below ∷ []) ++ j end ∷ [])
              ++ label target ∷ [])
            ++ addi (temp x) zero_reg at ∷ [])
          ++ label end ∷ [])
        ands
        ors
code-Fresh b₁ b₂ x target end below at out ands ors h₁ h₂ t e h = more (label end) e (
    more (addi (temp x) zero_reg at) (λ n s. ((λ le. refl), λ le. refl))
      (more (label target) t (
        more (j end) (λ n s. ((λ le. refl), λ le. refl))
          (more (addi (temp x) zero_reg below) (λ n s. ((λ le. refl), λ le. refl))
            (more b₂ h₂ (more b₁ h₁ h))))))
  where
    more :
        {out : List Line} (line : Line)
        → Below ands ors line
        → Fresh out ands ors
        → Fresh (out ++ line ∷ []) ands ors
    more {out} line b h = Fresh-label out ands ors line (λ n s. (b n s).0) (λ n s. (b n s).1) h

and_value :
    (a b : ℕ)
    → (if a == 0 then 0 else (if b == 0 then 0 else 1)) ≡ bit (not (a == 0) && not (b == 0))
and_value a b = of (a == 0) (b == 0)
  where
    of : (p q : Bool) → (if p then 0 else (if q then 0 else 1)) ≡ bit (not p && not q)
    of true q = refl
    of false true = refl
    of false false = refl

or_value :
    (a b : ℕ)
    → (if not (a == 0) then 1 else (if not (b == 0) then 1 else 0))
      ≡ bit (not (a == 0) || not (b == 0))
or_value a b = of (a == 0) (b == 0)
  where
    of : (p q : Bool) → (if not p then 1 else (if not q then 1 else 0)) ≡ bit (not p || not q)
    of true true = refl
    of true false = refl
    of false q = refl

module _ {f f₁ f₂ : List Bool} {l r : ℕ} (p : Takes f l f₁) (q : Takes f₁ r f₂) (s : Riscv)
    (e : s.temp_free ≡ f₂) {fp a b : ℕ} {mem : Memory} where
  pub eval_log_and-Leaves :
      Leaves s fp f (Operands l r a b) mem (bit (not (a == 0) && not (b == 0))) (eval_log_and l r s)
  unfolding eval_log_and create_base_cond_label free_operands free_register find_label
  eval_log_and-Leaves =
      let target = cond_label lbl_log_and s.and_count false_suffix in
      let end = cond_label lbl_log_and s.and_count end_suffix in
      alloc_register-bind _ s tt λ x free. returns (
        logic-Codes beq (λ v. v == 0) l r x target end (pos 1) (pos 0) s _ refl refl
          (simp append_assoc) refl
          (λ h.
            code-Fresh (beq (temp l) zero_reg target) (beq (temp r) zero_reg target) x target end
              (pos 1) (pos 0) s.out (s.and_count + 1) s.or_count (λ n t. ((λ le. refl), λ le. refl))
              (λ n t. ((λ le. refl), λ le. refl))
              (λ n t. ((λ le. number-other n s.and_count _ le), λ le. refl))
              (λ n t. ((λ le. number-other n s.and_count _ le), λ le. refl))
              (record { no_and = λ n t le. h.no_and n t (omega arith); no_or = h.no_or }))
          (λ h rest. (
            find_label-append target s.out _ 4 (h.no_and s.and_count false_suffix (omega arith))
                (rw (==-refl s.and_count) refl),
            find_label-append end s.out _ 6 (h.no_and s.and_count end_suffix (omega arith))
                (rw (==-refl s.and_count) refl),
          ))
          (λ prog i m. exec-beq prog i target m) (new-other p q s e x free) (and_value a b))

  pub eval_log_or-Leaves :
      Leaves s fp f (Operands l r a b) mem (bit (not (a == 0) || not (b == 0))) (eval_log_or l r s)
  unfolding eval_log_or create_base_cond_label free_operands free_register find_label
  eval_log_or-Leaves =
      let target = cond_label lbl_log_or s.or_count true_suffix in
      let end = cond_label lbl_log_or s.or_count end_suffix in
      alloc_register-bind _ s tt λ x free. returns (
        logic-Codes bne (λ v. not (v == 0)) l r x target end (pos 0) (pos 1) s _ refl refl
          (simp append_assoc) refl
          (λ h.
            code-Fresh (bne (temp l) zero_reg target) (bne (temp r) zero_reg target) x target end
              (pos 0) (pos 1) s.out s.and_count (s.or_count + 1) (λ n t. ((λ le. refl), λ le. refl))
              (λ n t. ((λ le. refl), λ le. refl))
              (λ n t. ((λ le. refl), λ le. number-other n s.or_count _ le))
              (λ n t. ((λ le. refl), λ le. number-other n s.or_count _ le))
              (record { no_and = h.no_and; no_or = λ n t le. h.no_or n t (omega arith) }))
          (λ h rest. (
            find_label-append target s.out _ 4 (h.no_or s.or_count true_suffix (omega arith))
                (rw (==-refl s.or_count) refl),
            find_label-append end s.out _ 6 (h.no_or s.or_count end_suffix (omega arith))
                (rw (==-refl s.or_count) refl),
          ))
          (λ prog i m. exec-bne prog i target m) (new-other p q s e x free) (or_value a b))
