-- ===== src/Asm/Suffices.antt =====
-- asm.c: `eval_asm` has a register for everything it needs, or not.
use my_lang.Prelude.{
  ℕ, suc, ◌+◌, ◌≤◌, ◌<◌, ◌≡◌, refl, sym, ◌∙◌, true, false, some, List, length, get_elem?, set,
  arith, returns, Post-bind,
}
use mathlib.Core.Path.{subst}
use my_lang.Prelude.Int.{ℤ}
use my_lang.Symbol.{SymTabEntry}
use my_lang.Ast.{AstNode, ident, lval}
use my_lang.Asm.State.{Riscv, temp_count, free_register}
use my_lang.Asm.Eval.{
  eval_int_const, load_const, load_arg, load_local, load_variable, eval_ident, eval_lval,
  store_lval, eval_asm,
}
use my_lang.Asm.Meaning.{
  Memory, Evaluates, number, constant, parameter, variable, negation, operation, assignment,
}
use my_lang.Asm.Flags.{Takes, Takes-length}
use my_lang.Asm.Balance.{eval_asm-Takes}
use my_lang.Asm.Compute.{symbol_at-bind, initialized-bind, load_variable-const, load_variable-frame}
use my_lang.Asm.Correct.{Post-and, code-Computes, lval-Computes, entry}
use my_lang.Asm.Enough.{
  free_count, free_count-Takes, need, extra, max-le, Returns, taken-bind, eval_operator-Returns,
}

module _ (s : Riscv) (free : 0 < free_count s.temp_free) where
  eval_int_const-Returns : (z : ℤ) → Returns (eval_int_const z s)
  unfolding eval_int_const
  eval_int_const-Returns z = taken-bind _ s free λ x f e. returns tt

  load_const-Returns : (e : SymTabEntry) (n : ℕ) → e.const_value ≡ some n → Returns (load_const e s)
  unfolding load_const
  load_const-Returns e n h = taken-bind _ s free λ x f t. initialized-bind _ _ h (returns tt)

  load_arg-Returns : (e : SymTabEntry) (i : ℕ) → e.arg_reg ≡ some i → Returns (load_arg e s)
  unfolding load_arg
  load_arg-Returns e i h =
      taken-bind _ (record s { out = _ }) free λ x f t. initialized-bind _ _ h (returns tt)

  load_local-Returns : (e : SymTabEntry) (o : ℕ) → e.offset ≡ some o → Returns (load_local e s)
  unfolding load_local
  load_local-Returns e o h =
      taken-bind _ (record s { out = _ }) free λ x f t. initialized-bind _ _ h (returns tt)

  module _ (p : ℕ) (e : SymTabEntry) (found : get_elem? s.symbols p ≡ some e) where
    eval_ident-Returns : Returns (load_variable e.symbol e s) → Returns (eval_ident (some p) s)
    unfolding eval_ident
    eval_ident-Returns h = symbol_at-bind _ p s found h

    eval_lval-Returns :
        (x : List ℕ) (o : ℕ) → e.offset ≡ some o → Returns (eval_lval (ident x (some p)) s)
    unfolding eval_lval
    eval_lval-Returns x o h = taken-bind _ s free λ r f t.
        symbol_at-bind _ p (record s { temp_free = set s.temp_free r false }) found
          (initialized-bind _ _ h (returns tt))

module _ {symbols : List SymTabEntry} {fp : ℕ} where
  pub eval_asm-Returns :
      {a : AstNode} {v : ℕ} {m m' : Memory}
      → Evaluates symbols fp a m v m'
      → (s : Riscv) → length s.temp_free ≡ temp_count
      → s.symbols ≡ symbols
      → need a ≤ free_count s.temp_free
      → Returns (eval_asm a s)
  unfolding eval_asm free_register need store_lval
  eval_asm-Returns (number {z} small) s h e n = eval_int_const-Returns s n z
  eval_asm-Returns (constant {p = p} {n = c} {e = y} found kind value small) s h e n =
      eval_ident-Returns s n p y (entry p e found)
        (subst Returns (sym (load_variable-const _ y s kind)) (load_const-Returns s n y c value))
  eval_asm-Returns (parameter {p = p} {i = i} {e = y} found kind loaded place small) s h e n =
      eval_ident-Returns s n p y (entry p e found) (
        subst Returns (sym (load_variable-frame _ y s true kind loaded))
          (load_arg-Returns s n y i place))
  eval_asm-Returns (variable {p = p} {o = o} {e = y} found kind loaded place small) s h e n =
      eval_ident-Returns s n p y (entry p e found) (
        subst Returns (sym (load_variable-frame _ y s false kind loaded))
          (load_local-Returns s n y o place))
  eval_asm-Returns (negation {x} {a} {v = v} d) s h e n =
      taken-bind _ s (omega (arith, n)) λ r free k.
        let s₁ : Riscv = record s { temp_free = set s.temp_free r false } in
        let taken : Takes s.temp_free r s₁.temp_free = record { was_free = free; becomes = refl } in
        Post-bind (eval_asm-Returns d s₁ (Takes-length taken ∙ h) e (omega (arith, n, k)))
          λ (y, s₂) c. returns tt
  eval_asm-Returns (operation {op = op} {l} {r} {v = v} {w = w} {m₁ = m₁} {m₂} d d' defined) s h e
        n =
      let (nl, n') = max-le (need l) _ _ n in
      let (nr, nop) = max-le (suc (need r)) (2 + extra op) _ n' in
      Post-bind
        (Post-and (eval_asm-Returns d s h e nl)
          (Post-and (code-Computes d s h e) (eval_asm-Takes l s h)))
        λ (x, s₁) (_, (c, t)).
          Post-bind
            (Post-and
              (eval_asm-Returns d' s₁ (Takes-length t ∙ h) (c.symbols ∙ e)
                (omega (arith, nr, free_count-Takes t)))
              (eval_asm-Takes r s₁ (Takes-length t ∙ h)))
            λ (y, s₂) (_, u).
              eval_operator-Returns x y s₂ op v w m₁ m₂ defined
                (omega (arith, nop, free_count-Takes t, free_count-Takes u))
  eval_asm-Returns (assignment {x} {p} {o} {v} {e = y} {r} {m} found loaded place small d) s h e n =
      Post-bind
        (Post-and (eval_lval-Returns s (omega (arith, n)) p y (entry p e found) x o place) (
          Post-and (lval-Computes {fp = fp} x p o y s m (entry p e found) place small)
            (eval_asm-Takes (lval (ident x (some p))) s h)))
        λ (l, s₁) (_, (c, t)).
          Post-bind
            (eval_asm-Returns d s₁ (Takes-length t ∙ h) (c.symbols ∙ e)
              (omega (arith, n, free_count-Takes t)))
            λ (r, s₂) k. returns tt
