-- ===== src/Asm/Operators.antt =====
-- asm.c: the code of the operators of one or two lines.
use my_lang.Prelude.{
  ℕ, ◌≡◌, ◌≢◌, refl, sym, ap, ◌∙◌, Bool, true, false, not, some, List, [], ◌∷◌, ◌++◌, get_or, set,
  Outcome, Stop, Post, returns,
}
use mathlib.Core.Path.{subst}
use Prim.Native.Nat.{bit_xor}
use my_lang.Asm.Target.{Register, temp, Line, BinOp, sub, slt, binary, xori}
use my_lang.Asm.State.{Riscv, free_register}
use my_lang.Asm.Eval.{emit_in_place, free_operands, eval_to_new, eval_equality, eval_inverted}
use my_lang.Asm.Machine.{Machine, word, minus, signed_lt, bit, write, exec, alu}
use my_lang.Asm.Meaning.{Memory}
use my_lang.Asm.Flags.{Takes}
use my_lang.Asm.Registers.{alloc_register-bind}
use my_lang.Asm.Code.{InUse, IsPlain, Codes}
use my_lang.Asm.Pieces.{InUse-Takes, InUse-other, seq, writes}

abbrev pub Any : Stop → Type 0
Any e = Unit

abbrev pub Operands : ℕ → ℕ → ℕ → ℕ → Machine → Type 0
Operands l r a b m = (m.regs (temp l) ≡ a) × (m.regs (temp r) ≡ b)

-- The run writes code that leaves the value of an operator.
abbrev pub Leaves :
    Riscv → ℕ → List Bool → (Machine → Type 0) → Memory → ℕ → Outcome (ℕ × Riscv) → Type 0
Leaves s fp f K mem v = Post (λ (r : ℕ × Riscv). Codes s r.1 r.0 fp f K mem v mem) Any

exec-binary :
    (op : BinOp) (x l r : ℕ) (prog : List Line) (m : Machine)
    → exec prog (binary op (temp x) (temp l) (temp r)) m
      ≡ some (write m (temp x) (alu op (m.regs (temp l)) (m.regs (temp r))))
unfolding exec
exec-binary op x l r prog m = refl

pub operands :
    {B : Type 0} {l r a b : ℕ} (op : ℕ → ℕ → B) (m : Machine)
    → Operands l r a b m
    → op (m.regs (temp l)) (m.regs (temp r)) ≡ op a b
operands {l} {r} {a} op m k = ap (λ c. op c (m.regs (temp r))) k.0 ∙ ap (λ d. op a d) k.1

pub swapped :
    {B : Type 0} {l r a b : ℕ} (op : ℕ → ℕ → B) (m : Machine)
    → Operands l r a b m
    → op (m.regs (temp r)) (m.regs (temp l)) ≡ op b a
swapped {l} {r} {b = b} op m k = ap (λ d. op d (m.regs (temp l))) k.1 ∙ ap (λ c. op b c) k.0

exec-xori :
    (x y : ℕ) (prog : List Line) (m : Machine)
    → exec prog (xori (temp x) (temp y) 1) m ≡ some (write m (temp x) (bit_xor (m.regs (temp y)) 1))
unfolding exec
exec-xori x y prog m = refl

pub word-bit : (t : Bool) → word (bit t) ≡ bit t
word-bit true = refl
word-bit false = refl

flipped : (t : Bool) → word (bit_xor (bit t) 1) ≡ bit (not t)
flipped true = refl
flipped false = refl

module _ {f f₁ f₂ : List Bool} {l r : ℕ} (p : Takes f l f₁) (q : Takes f₁ r f₂) (s : Riscv)
    (e : s.temp_free ≡ f₂) where
  -- What was free before the operands, or is taken after them, is not in use.
  pub left-other : (i : ℕ) → InUse f i → l ≢ i
  left-other i u = InUse-other f l i p.was_free u

  pub new-other : (x : ℕ) → get_or s.temp_free x false ≡ true → (i : ℕ) → InUse f i → x ≢ i
  new-other x free i u =
      InUse-other f₂ x i (subst (λ f. get_or f x false ≡ true) e free)
        (InUse-Takes i q (InUse-Takes i p u))

  module _ {fp a b v : ℕ} {mem : Memory} where
    pub emit_in_place-Leaves :
        (op : BinOp)
        → word (alu op a b) ≡ v
        → Leaves s fp f (Operands l r a b) mem v (emit_in_place op l r s)
    unfolding emit_in_place free_register
    emit_in_place-Leaves op h = returns (
        writes s _ (binary op (temp l) (temp l) (temp r))
          (λ m. alu op (m.regs (temp l)) (m.regs (temp r))) refl refl refl refl
          (λ n s. (refl, refl)) (exec-binary op l l r) left-other
          (λ m at k. operands (λ a b. word (alu op a b)) m k ∙ h))

    pub eval_to_new-Leaves :
        (op : BinOp)
        → word (alu op a b) ≡ v
        → Leaves s fp f (Operands l r a b) mem v (eval_to_new op l r l r s)
    unfolding eval_to_new free_operands free_register
    eval_to_new-Leaves op h = alloc_register-bind _ s tt λ x free. returns (
        writes s _ (binary op (temp x) (temp l) (temp r))
          (λ m. alu op (m.regs (temp l)) (m.regs (temp r))) refl refl refl refl
          (λ n s. (refl, refl)) (exec-binary op x l r) (new-other x free)
          (λ m at k. operands (λ a b. word (alu op a b)) m k ∙ h))

    pub eval_to_new-Leaves_swapped :
        (op : BinOp)
        → word (alu op b a) ≡ v
        → Leaves s fp f (Operands l r a b) mem v (eval_to_new op r l l r s)
    unfolding eval_to_new free_operands free_register
    eval_to_new-Leaves_swapped op h = alloc_register-bind _ s tt λ x free. returns (
        writes s _ (binary op (temp x) (temp r) (temp l))
          (λ m. alu op (m.regs (temp r)) (m.regs (temp l))) refl refl refl refl
          (λ n s. (refl, refl)) (exec-binary op x r l) (new-other x free)
          (λ m at k. swapped (λ a b. word (alu op a b)) m k ∙ h))

    -- The difference, then the test, which gives `g` of it.
    pub eval_equality-Leaves :
        (test : Register → Register → Line) (g : ℕ → ℕ)
        → ((x : ℕ) → IsPlain (test (temp x) (temp x)))
        → ((x : ℕ) (prog : List Line) (m : Machine)
            → exec prog (test (temp x) (temp x)) m ≡ some (write m (temp x) (g (m.regs (temp x)))))
        → word (g (word (minus b a))) ≡ v
        → Leaves s fp f (Operands l r a b) mem v (eval_equality test l r s)
    unfolding eval_equality free_operands free_register alu
    eval_equality-Leaves test g plain exec_test h = alloc_register-bind _ s tt λ x free.
        let line = binary sub (temp x) (temp r) (temp l) in
        let s₁ : Riscv = record s {
          temp_free = set s.temp_free x false;
          out = s.out ++ line ∷ [];
        } in
        returns (
          seq
            (writes {v = word (minus b a)} s s₁ line
              (λ m. minus (m.regs (temp r)) (m.regs (temp l))) refl refl refl refl
              (λ n s. (refl, refl)) (exec-binary sub x r l) (new-other x free)
              (λ m at k. swapped (λ a b. word (minus a b)) m k))
            (writes {K = λ m. m.regs (temp x) ≡ word (minus b a)} s₁ _ (test (temp x) (temp x))
              (λ m. g (m.regs (temp x))) refl refl refl refl (plain x) (exec_test x)
              (new-other x free) (λ m at k. ap (λ y. word (g y)) k ∙ h))
            (λ i u. u) (λ i u. u) (λ prog m done k. done.value))

    -- The strict comparison of two of the operands, inverted.
    pub eval_inverted-Leaves :
        (c d : ℕ) (t : Bool)
        → ((m : Machine) → Operands l r a b m → signed_lt (m.regs (temp c)) (m.regs (temp d)) ≡ t)
        → bit (not t) ≡ v
        → Leaves s fp f (Operands l r a b) mem v (eval_inverted c d l r s)
    unfolding eval_inverted free_operands free_register alu
    eval_inverted-Leaves c d t h result = alloc_register-bind _ s tt λ x free.
        alloc_register-bind _ (record s { temp_free = set s.temp_free x false }) tt
          λ y free'.
            let taken : Takes s.temp_free x (set s.temp_free x false) = record {
              was_free = free;
              becomes = refl;
            } in
            let y-other : (i : ℕ) → InUse f i → y ≢ i = λ i u.
              InUse-other (set s.temp_free x false) y i free' (
                InUse-Takes i taken
                  (subst (λ g. InUse g i) (sym e) (InUse-Takes i q (InUse-Takes i p u)))) in
            let line = binary slt (temp y) (temp c) (temp d) in
            let s₁ : Riscv = record s {
              temp_free = set (set s.temp_free x false) y false;
              out = s.out ++ line ∷ [];
            } in
            returns (
              seq
                (writes {v = bit t} s s₁ line
                  (λ m. bit (signed_lt (m.regs (temp c)) (m.regs (temp d)))) refl refl refl refl
                  (λ n s. (refl, refl)) (exec-binary slt y c d) y-other
                  (λ m at k. ap (λ t. word (bit t)) (h m k) ∙ word-bit t))
                (writes {K = λ m. m.regs (temp y) ≡ bit t} s₁ _ (xori (temp x) (temp y) 1)
                  (λ m. bit_xor (m.regs (temp y)) 1) refl refl refl refl (λ n s. (refl, refl))
                  (exec-xori x y) (new-other x free)
                  (λ m at k. ap (λ z. word (bit_xor z 1)) k ∙ flipped t ∙ result))
                (λ i u. u) (λ i u. u) (λ prog m done k. done.value))
