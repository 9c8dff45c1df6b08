-- ===== src/Asm/Balance.antt =====
-- asm.c: the temporary registers in use before and after the code of an expression, calls included.
use my_lang.Prelude.{
  Fueled, ℕ, zero, suc, ◌+◌, ◌≤◌, ◌≡◌, refl, ap, sym, ◌∙◌, Bool, true, false, List, [], ◌∷◌, ◌++◌,
  length, get_or, set, drop, replicate, arith, ok, stop, Stop, Post, returns, stops, Post-bind,
  Option, none, some, get_elem?,
}
use mathlib.Core.Path.{subst}
use my_lang.Lex.Token.{tok_not}
use my_lang.Symbol.{SymTabEntry, StackFrame}
use my_lang.Ast.{
  SymbolRef, AstNode, int_const, bin_exp, ident, func_call, var_asgn, unary_expr, lval, Nodes,
  no_nodes, node, nodes_length,
}
use my_lang.Asm.State.{Riscv, frame_size_of, temp_count, arg_count, free_register}
use my_lang.Asm.Eval.{
  save_temps, restore_temp, restore_temps, take_register, load_args, finish_call, begin_call,
  store_arg, eval_asm, eval_args,
}
use my_lang.Asm.Flags.{
  Takes, Takes-length, release, set-between, replicate-between, replicate-nil, drop-get_or,
  drop-length,
}
use my_lang.Asm.Registers.{
  Yields, Keeps, alloc_register-Yields, alloc-Yields, eval_operator-Yields, store_lval-Yields,
  eval_int_const-Yields, symbol_at-Keeps, eval_ident-Yields, eval_lval-Yields,
}

-- The registers of the flags `f` from place `i` on are stored and freed.
save_temps-Keeps :
    (i : ℕ) (f : List Bool) (offset n : ℕ) (s : Riscv)
    → s.temp_free ≡ replicate i true ++ f
    → i + length f ≡ n
    → Keeps (replicate n true) (save_temps i f offset s)
unfolding save_temps free_register
save_temps-Keeps i [] offset n s e h =
    returns (e ∙ replicate-nil i ∙ ap (λ k. replicate k true) (omega arith))
save_temps-Keeps i (true ∷ f) offset n s e h =
    save_temps-Keeps (suc i) f offset n s (e ∙ replicate-between i f) (omega arith)
save_temps-Keeps i (false ∷ f) offset n s e h =
    save_temps-Keeps (suc i) f (offset + 4) n _
      (ap (λ x. set x i true) e ∙ set-between i f false true ∙ replicate-between i f) (omega arith)

restore_temp-Keeps :
    (i : ℕ) (b : Bool) (f : List Bool) (offset : ℕ) (s : Riscv)
    → s.temp_free ≡ replicate i true ++ true ∷ f
    → Keeps (replicate i true ++ b ∷ f) (restore_temp i b offset s)
unfolding restore_temp take_register
restore_temp-Keeps i true f offset s e = returns e
restore_temp-Keeps i false f offset s e =
    returns (ap (λ x. set x i false) e ∙ set-between i f true false)

restore_temps-Keeps :
    (i : ℕ) (f : List Bool) (offset : ℕ) (s : Riscv)
    → s.temp_free ≡ replicate i true ++ drop i f
    → i ≤ length f
    → Keeps f (restore_temps i f offset s)
unfolding restore_temps
restore_temps-Keeps zero f offset s e h = returns e
restore_temps-Keeps (suc i) f offset s e h =
    Post-bind
      (restore_temp-Keeps i (get_or f i true) (drop (suc i) f) offset s
        (e ∙ sym (replicate-between i (drop (suc i) f))))
      λ (below, s') k.
        restore_temps-Keeps i f below s'
          (k ∙ ap (λ x. replicate i true ++ x) (sym (drop-get_or i f (omega arith)))) (omega arith)

load_args-Keeps :
    (count places i offset : ℕ) (s : Riscv) → Keeps s.temp_free (load_args count places i offset s)
unfolding load_args
load_args-Keeps zero places i offset s = returns refl
load_args-Keeps (suc count) zero i offset s = returns refl
load_args-Keeps (suc count) (suc places) i offset s =
    load_args-Keeps count places (suc i) (offset + 4) _

finish_call-Yields :
    (name : List ℕ) (f : List Bool) (count offset : ℕ) (s : Riscv)
    → s.temp_free ≡ replicate temp_count true
    → length f ≡ temp_count
    → Yields f (finish_call name f count offset s)
unfolding finish_call
finish_call-Yields name f count offset s e h =
    Post-bind (load_args-Keeps count arg_count 0 offset _) λ (_, s₁) k.
      Post-bind (restore_temps-Keeps temp_count f offset _ (k ∙ e ∙ all_free) (omega (arith, h)))
        λ (_, s₂) m. Post-bind (alloc-Yields s₂ m) λ (x, s₃) t. returns t
  where
    all_free : replicate temp_count true ≡ replicate temp_count true ++ drop temp_count f
    all_free =
        ap (λ d. replicate temp_count true ++ d)
          (sym (subst (λ n. drop n f ≡ []) h (drop-length f)))

pub frame_size_of-Keeps :
    (e : SymTabEntry) (s : Riscv) → Post (λ (r : ℕ × Riscv). r.1 ≡ s) Fueled (frame_size_of e s)
unfolding frame_size_of
frame_size_of-Keeps e s = of e.frame
  where
    found :
        (o : Option StackFrame)
        → Post
            (λ (r : ℕ × Riscv). r.1 ≡ s)
            Fueled
            (elim o [ none ↦ stop Stop.undefined | some f ↦ ok (f.size, s) ])
    found none = stops (cc)
    found (some f) = returns refl

    of :
        (o : Option ℕ)
        → Post
            (λ (r : ℕ × Riscv). r.1 ≡ s)
            Fueled
            (elim o [
              | none ↦ stop Stop.undefined
              | some i ↦ elim (get_elem? s.frames i) [
                | none ↦ stop Stop.undefined
                | some f ↦ ok (f.size, s)
              ]
            ])
    of none = stops (cc)
    of (some i) = found (get_elem? s.frames i)

begin_call-Keeps :
    (symbol : SymbolRef) (s : Riscv)
    → length s.temp_free ≡ temp_count
    → Keeps (replicate temp_count true) (begin_call symbol s)
unfolding begin_call
begin_call-Keeps symbol s h = Post-bind (symbol_at-Keeps symbol s) λ (e, s₁) k.
    Post-bind (frame_size_of-Keeps e s₁) λ (size, s₂) m.
      Post-bind
        (save_temps-Keeps 0 s.temp_free _ temp_count _ (ap (λ x. x.temp_free) (m ∙ k))
          (omega (arith, h)))
        λ (offset, s₃) n. returns n

mutual
  unfolding eval_asm free_register store_arg

  expr-Yields :
      (e : AstNode) (s : Riscv)
      → length s.temp_free ≡ temp_count
      → Yields s.temp_free (eval_asm e s)
  expr-Yields (unary_expr e value tok_not) s h = Post-bind (alloc_register-Yields s) λ (x, s₁) t.
      Post-bind (expr-Yields e s₁ (Takes-length t ∙ h))
        λ (y, s₂) u. returns (subst (λ f. Takes s.temp_free x f) (sym (release u)) t)
  expr-Yields (int_const v) s h = eval_int_const-Yields v s
  expr-Yields (func_call name args symbol) s h =
      Post-bind (begin_call-Keeps symbol s h) λ (offset, s₁) k.
        Post-bind (eval_args-Keeps args offset s₁ k)
          λ (_, s₂) m. finish_call-Yields name s.temp_free (nodes_length args) offset s₂ m h
  expr-Yields (ident value symbol) s h = eval_ident-Yields symbol s
  expr-Yields (bin_exp value op left right) s h = Post-bind (expr-Yields left s h) λ (l, s₁) t.
      Post-bind (expr-Yields right s₁ (Takes-length t ∙ h))
        λ (r, s₂) u. eval_operator-Yields t u s₂ refl op
  expr-Yields (var_asgn left right) s h = Post-bind (expr-Yields left s h) λ (l, s₁) t.
      Post-bind (expr-Yields right s₁ (Takes-length t ∙ h))
        λ (r, s₂) u. store_lval-Yields t u s₂ refl
  expr-Yields (lval e) s h = eval_lval-Yields e s
  expr-Yields other s h = stops (cc)

  eval_args-Keeps :
      (args : Nodes) (offset : ℕ) (s : Riscv)
      → s.temp_free ≡ replicate temp_count true
      → Keeps (replicate temp_count true) (eval_args args offset s)
  eval_args-Keeps no_nodes offset s h = returns h
  eval_args-Keeps (node a rest) offset s h =
      Post-bind (expr-Yields a s (ap length h))
        λ (x, s₁) t. eval_args-Keeps rest (offset + 4) _ (release t ∙ h)

-- Where all seven flags are there and the code of an expression is written, calls included, exactly one
-- register more is in use at its end, which was free before and is the one that is returned: all others
-- are as they were.
pub eval_asm-Takes :
    (e : AstNode) (s : Riscv)
    → length s.temp_free ≡ temp_count
    → Post (λ (i, s'). Takes s.temp_free i s'.temp_free) Fueled (eval_asm e s)
eval_asm-Takes = expr-Yields
