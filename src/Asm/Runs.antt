-- ===== src/Asm/Runs.antt =====
-- asm.c: the lines that `eval_asm` writes, run on the machine.
use my_lang.Prelude.{
  ℕ, ◌≤◌, ◌≡◌, refl, List, ◌++◌, length, Outcome, ok, Post, returns, stops, Post-ok,
}
use my_lang.Ast.{AstNode}
use my_lang.Asm.Target.{Line}
use my_lang.Asm.State.{Riscv, temp_count}
use my_lang.Asm.Eval.{eval_asm}
use my_lang.Asm.Machine.{Machine}
use my_lang.Asm.Meaning.{Memory, Evaluates}
use my_lang.Asm.Code.{At, IsFresh, Final}
use my_lang.Asm.Correct.{code-Computes}
use my_lang.Asm.Enough.{free_count, need}
use my_lang.Asm.Suffices.{eval_asm-Returns}

returned :
    {A : Type 0} {r : Outcome A} → Post (λ (a : A). Unit {0}) (λ e. ⊥) r → (a : A) × (r ≡ ok a)
returned (returns {a} h) = (a, refl)
returned (stops h) = elim h [ ]

-- Let an expression have a meaning (`Evaluates`) in the memory `m`: a value `v`, and a memory `m'` behind
-- it. That is an expression without calls and without assignments to parameters, that divides by nothing
-- that is 0 and shifts by less than a word, where an operand of `&&` or `||` that C would skip has a meaning
-- and changes nothing, and whose numbers and places in the frame fit the twelve bits of an immediate. Where all seven flags are there, as many registers are free as the expression needs, and no label of
-- a `&&` or `||` from the counters on, and no function of such a name, is written yet, the code generator returns a register and has only
-- added lines. In every program that begins with the lines written so far, a machine that comes to the
-- first of the new ones, with that memory behind the frame pointer, comes to their end: with the value in
-- the register, the memory `m'`, and every register in use as it was.
pub eval_asm-Evaluates :
    {a : AstNode} {fp v : ℕ} {m m' : Memory} (s : Riscv)
    → Evaluates s.symbols fp a m v m'
    → length s.temp_free ≡ temp_count
    → need a ≤ free_count s.temp_free
    → IsFresh s
    → (rest : List Line) (start : Machine) → At s fp m start
    → (x : ℕ) × (s' : Riscv) × (code : List Line) × (eval_asm a s ≡ ok (x, s'))
      × (s'.out ≡ s.out ++ code)
      × Final (s'.out ++ rest) s' x fp v m' s.temp_free start
eval_asm-Evaluates s d h n fresh rest start at =
    let ((x, s'), e) = returned (eval_asm-Returns d s h refl n) in
    let c = Post-ok (code-Computes d s h refl) e in
    (x, s', c.code, e, c.written, c.does _ rest start fresh refl at tt)
