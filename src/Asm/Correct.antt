-- ===== src/Asm/Correct.antt =====
-- asm.c: the code of `eval_asm` on the machine, against what the expression means.
use my_lang.Prelude.{
  ℕ, ◌+◌, ◌<◌, ◌≡◌, refl, sym, ap, ◌∙◌, Bool, true, false, some, List, length, get_elem?, Bytes,
  arith, set, ◌==◌, Outcome, Stop, Post, returns, stops, Post-bind, Post-mono, Post-ok,
}
use mathlib.Core.Path.{subst}
use my_lang.Symbol.{SymTabEntry}
use my_lang.Ast.{AstNode, ident, lval}
use my_lang.Asm.Target.{temp, seqz}
use my_lang.Asm.State.{Riscv, temp_count, free_register}
use my_lang.Asm.Eval.{eval_asm, eval_lval, locals_base}
use my_lang.Asm.Machine.{Machine, word, bit}
use my_lang.Asm.Meaning.{
  Memory, Evaluates, number, constant, parameter, variable, negation, operation, assignment,
  Evaluates-lt,
}
use my_lang.Asm.Flags.{Takes, Takes-length}
use my_lang.Asm.Registers.{alloc_register-bind}
use my_lang.Asm.Balance.{eval_asm-Takes}
use my_lang.Asm.Code.{Codes}
use my_lang.Asm.Pieces.{InUse-Takes, InUse-taken, InUse-other, seq, strengthen, writes}
use my_lang.Asm.Operators.{Operands, word-bit}
use my_lang.Asm.Values.{eval_operator-Leaves}
use my_lang.Asm.Compute.{
  Nothing, Computes, exec-seqz, eval_int_const-Computes, load_const-Computes, load_arg-Computes,
  load_local-Computes, eval_ident-Computes, eval_lval-Computes, load_variable-const,
  load_variable-frame, store_lval-Computes,
}

-- Two postconditions of one run.
pub Post-and :
    {A : Type 0} {P Q : A → Type 0} {E E' : Stop → Type 0} {r : Outcome A}
    → Post P E r
    → Post Q E' r
    → Post (λ a. P a × Q a) E r
Post-and (returns {a} h) k = returns (h, Post-ok k refl)
Post-and (stops h) k = stops h

-- The code starts with other flags.
flags-Codes :
    {s s' : Riscv} {x fp v : ℕ} {f : List Bool} {K : Machine → Type 0} {mem mem' : Memory}
    (g : List Bool)
    → Codes (record s { temp_free = g }) s' x fp f K mem v mem'
    → Codes s s' x fp f K mem v mem'
flags-Codes g c = record {
  code = c.code;
  written = c.written;
  symbols = c.symbols;
  fresh = c.fresh;
  does = λ prog rest m h e at k.
      c.does prog rest m h e (record { place = at.place; frame = at.frame; memory = at.memory }) k;
}

-- Two operands one behind the other, then code that uses both.
behind :
    {s s₁ s₂ s₃ : Riscv} {x y z fp a b v : ℕ} {mem mem₁ mem₂ mem₃ : Memory}
    → Takes s.temp_free x s₁.temp_free
    → Codes s s₁ x fp s.temp_free Nothing mem a mem₁
    → Codes s₁ s₂ y fp s₁.temp_free Nothing mem₁ b mem₂
    → Codes s₂ s₃ z fp s.temp_free (Operands x y a b) mem₂ v mem₃
    → Codes s s₃ z fp s.temp_free Nothing mem v mem₃
behind {s} {s₁} {x = x} {a = a} t c d o =
    seq c
      (seq {f = s.temp_free} {K = λ m. m.regs (temp x) ≡ a} (strengthen (λ m k. tt) d) o
        (λ i u. InUse-Takes i t u) (λ i u. u)
        (λ prog m done k. (done.kept x (InUse-taken t) ∙ k, done.value)))
      (λ i u. u) (λ i u. u) (λ prog m done k. done.value)

pub entry :
    {symbols symbols' : List SymTabEntry} {y : SymTabEntry} (p : ℕ)
    → symbols' ≡ symbols
    → get_elem? symbols p ≡ some y
    → get_elem? symbols' p ≡ some y
entry p e found = ap (λ l. get_elem? l p) e ∙ found

-- The address of a variable, as the distance to the frame pointer.
pub lval-Computes :
    {fp : ℕ} (x : Bytes) (p o : ℕ) (e : SymTabEntry) (s : Riscv) (m : Memory)
    → get_elem? s.symbols p ≡ some e
    → e.offset ≡ some o
    → o + locals_base < 2048
    → Computes s fp s.temp_free Nothing m
        (word (o + locals_base))
        m
        (eval_asm (lval (ident x (some p))) s)
unfolding eval_asm
lval-Computes {fp} x p o e s m found place small =
    subst (λ n. Computes s fp s.temp_free Nothing m (word n) m (eval_lval (ident x (some p)) s))
      (omega arith) (eval_lval-Computes s p e found x o place small)

module _ {symbols : List SymTabEntry} {fp : ℕ} where
  pub code-Computes :
      {a : AstNode} {v : ℕ} {m m' : Memory}
      → Evaluates symbols fp a m v m'
      → (s : Riscv) → length s.temp_free ≡ temp_count
      → s.symbols ≡ symbols
      → Computes s fp s.temp_free Nothing m v m' (eval_asm a s)
  unfolding eval_asm free_register
  code-Computes (number {z} small) s h e = eval_int_const-Computes s z small
  code-Computes (constant {p = p} {n} {e = y} found kind value small) s h e =
      eval_ident-Computes s p y (entry p e found) (
        subst (Computes s fp s.temp_free Nothing _ _ _) (sym (load_variable-const _ y s kind))
          (load_const-Computes s y n value small))
  code-Computes (parameter {p = p} {i} {e = y} found kind loaded place small) s h e =
      eval_ident-Computes s p y (entry p e found) (
        subst (Computes s fp s.temp_free Nothing _ _ _)
          (sym (load_variable-frame _ y s true kind loaded)) (load_arg-Computes s y i place small))
  code-Computes (variable {p = p} {o} {e = y} found kind loaded place small) s h e =
      eval_ident-Computes s p y (entry p e found) (
        subst (Computes s fp s.temp_free Nothing _ _ _)
          (sym (load_variable-frame _ y s false kind loaded))
          (load_local-Computes s y o place small))
  code-Computes (negation {x} {a} {v = v} d) s h e = alloc_register-bind _ s tt λ r free.
      let s₁ : Riscv = record s { temp_free = set s.temp_free r false } in
      let taken : Takes s.temp_free r s₁.temp_free = record { was_free = free; becomes = refl } in
      Post-bind (code-Computes d s₁ (Takes-length taken ∙ h) e) λ (y, s₂) c. returns (
        seq (flags-Codes s₁.temp_free c)
          (writes {K = λ m. m.regs (temp y) ≡ v} s₂ _ (seqz (temp r) (temp y))
            (λ m. bit (m.regs (temp y) == 0)) refl refl refl refl (λ n t. (refl, refl))
            (exec-seqz r y) (λ i u. InUse-other s.temp_free r i free u)
            (λ m at k. ap (λ w. word (bit (w == 0))) k ∙ word-bit (v == 0)))
          (λ i u. InUse-Takes i taken u) (λ i u. u) (λ prog m done k. done.value))
  code-Computes (operation {op = op} {l} {r} {v = v} {w = w} d d' defined) s h e =
      Post-bind (Post-and (code-Computes d s h e) (eval_asm-Takes l s h)) λ (x, s₁) (c, t).
        Post-bind
          (Post-and (code-Computes d' s₁ (Takes-length t ∙ h) (c.symbols ∙ e))
            (eval_asm-Takes r s₁ (Takes-length t ∙ h)))
          λ (y, s₂) (c', u).
            Post-mono (eval_operator-Leaves t u s₂ refl (Evaluates-lt d) (Evaluates-lt d') op)
              λ (z, s₃) o. behind t c c' o
  code-Computes (assignment {x} {p} {o} {v} {e = y} {r} {m} found loaded place small d) s h e =
      Post-bind
        (Post-and (lval-Computes x p o y s m (entry p e found) place small)
          (eval_asm-Takes (lval (ident x (some p))) s h))
        λ (x, s₁) (c, t).
          Post-bind
            (Post-and (code-Computes d s₁ (Takes-length t ∙ h) (c.symbols ∙ e))
              (eval_asm-Takes r s₁ (Takes-length t ∙ h)))
            λ (y, s₂) (c', u).
              Post-mono (store_lval-Computes t u s₂ (o + locals_base)) λ (z, s₃) o. behind t c c' o
