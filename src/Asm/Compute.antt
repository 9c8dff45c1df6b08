-- ===== src/Asm/Compute.antt =====
-- asm.c: the code of `eval_asm`, for an expression without calls.
use my_lang.Prelude.{
  ℕ, ◌+◌, ◌*◌, ◌≡◌, ◌≤◌, ◌<◌, leb, refl, sym, ap, ◌∙◌, Bool, true, false, Option, none, some, List,
  [], ◌∷◌, ◌++◌, get_elem?, get_or, set, arith, ◌==◌, if◌then◌else◌, initialized, Outcome, ok, stop,
  Stop, Post, returns, bind,
}
use mathlib.Core.Path.{subst}
use my_lang.Prelude.Int.{ℤ, pos}
use my_lang.Symbol.{SymTabEntry, SymbolType, sym_const, sym_variable}
use my_lang.Ast.{ident}
use my_lang.Asm.Target.{temp, save, zero_reg, Line, sub, binary, seqz, addi, lw_fp, sw_at}
use my_lang.Asm.State.{Riscv, symbol_at, free_register}
use my_lang.Asm.Eval.{
  eval_int_const, load_const, load_arg, load_local, load_variable, eval_ident, eval_lval,
  store_lval, locals_base,
}
use my_lang.Asm.Machine.{Machine, word, word_of, minus, bit, put, write, store, fits, exec, alu}
use my_lang.Asm.Meaning.{Memory}
use my_lang.Asm.Flags.{Takes, swap}
use my_lang.Asm.Registers.{alloc_register-bind}
use my_lang.Asm.Code.{Codes}
use my_lang.Asm.Pieces.{InUse-Takes, InUse-taken, InUse-other, seq, one, writes, commented}
use my_lang.Asm.Operators.{Any, Operands}
use my_lang.Asm.Logic.{word-word_of}

abbrev pub Nothing : Machine → Type 0
Nothing m = Unit

-- The run writes code that leaves a value and a memory.
abbrev pub Computes :
    Riscv → ℕ → List Bool → (Machine → Type 0) → Memory → ℕ → Memory → Outcome (ℕ × Riscv) → Type 0
Computes s fp f K mem v mem' = Post (λ (r : ℕ × Riscv). Codes s r.1 r.0 fp f K mem v mem') Any

module _ {A B : Type 0} {Q : B → Type 0} {E : Stop → Type 0} where
  -- A value that was set is read.
  pub initialized-bind :
      {o : Option A} {a : A} (k : A × Riscv → Outcome B) (s : Riscv)
      → o ≡ some a
      → Post Q E (k (a, s))
      → Post Q E (bind (initialized o s) k)
  initialized-bind k s e h = subst (λ o. Post Q E (bind (initialized o s) k)) (sym e) h

-- The entry of a name is read.
pub symbol_at-bind :
    {B : Type 0} {Q : B → Type 0} {E : Stop → Type 0} {e : SymTabEntry}
    (k : SymTabEntry × Riscv → Outcome B) (p : ℕ) (s : Riscv)
    → get_elem? s.symbols p ≡ some e
    → Post Q E (k (e, s))
    → Post Q E (bind (symbol_at (some p) s) k)
unfolding symbol_at
symbol_at-bind {Q = Q} {E} k p s h r =
    subst (λ o. Post Q E (bind (elim o [ none ↦ stop Stop.undefined | some e ↦ ok (e, s) ]) k))
      (sym h) r

exec-addi :
    (x : ℕ) (z : ℤ)
    → fits z ≡ true
    → (prog : List Line) (m : Machine)
    → exec prog (addi (temp x) zero_reg z) m ≡ some (write m (temp x) (0 + word_of z))
unfolding exec
exec-addi x z h prog m = ap (λ b. if b then some (write m (temp x) (0 + word_of z)) else none) h

exec-lw_fp :
    (x off : ℕ)
    → off ≤ 2048
    → (prog : List Line) (m : Machine)
    → exec prog (lw_fp (temp x) off) m
      ≡ some (write m (temp x) (m.mem (minus (m.regs (save 0)) off)))
unfolding exec
exec-lw_fp x off h prog m =
    let small : leb off 2048 ≡ true = ground (arith, h) in
    ap (λ b. if b then some (write m (temp x) (m.mem (minus (m.regs (save 0)) off))) else none)
      small

pub exec-seqz :
    (x y : ℕ) (prog : List Line) (m : Machine)
    → exec prog (seqz (temp x) (temp y)) m ≡ some (write m (temp x) (bit (m.regs (temp y) == 0)))
unfolding exec
exec-seqz x y prog m = refl

exec-address :
    (x : ℕ) (prog : List Line) (m : Machine)
    → exec prog (binary sub (temp x) (save 0) (temp x)) m
      ≡ some (write m (temp x) (minus (m.regs (save 0)) (m.regs (temp x))))
unfolding exec alu
exec-address x prog m = refl

exec-sw_at :
    (x y : ℕ) (prog : List Line) (m : Machine)
    → exec prog (sw_at (temp x) (temp y)) m ≡ some (store m (m.regs (temp y)) (m.regs (temp x)))
unfolding exec
exec-sw_at x y prog m = refl

module _ (s : Riscv) {fp : ℕ} {mem : Memory} where
  -- A constant is written to a new register.
  constant-Computes :
      (z : ℤ) (x : ℕ) (s' : Riscv)
      → fits z ≡ true
      → get_or s.temp_free x false ≡ true
      → s'.out ≡ s.out ++ addi (temp x) zero_reg z ∷ []
      → s'.symbols ≡ s.symbols
      → s'.and_count ≡ s.and_count
      → s'.or_count ≡ s.or_count
      → Codes s s' x fp s.temp_free Nothing mem (word_of z) mem
  constant-Computes z x s' small free out symbols ands ors =
      writes s s' (addi (temp x) zero_reg z) (λ m. 0 + word_of z) out symbols ands ors
        (λ n t. (refl, refl)) (exec-addi x z small) (λ i u. InUse-other s.temp_free x i free u)
        (λ m at k. word-word_of z)

  pub eval_int_const-Computes :
      (z : ℤ)
      → fits z ≡ true
      → Computes s fp s.temp_free Nothing mem (word_of z) mem (eval_int_const z s)
  unfolding eval_int_const
  eval_int_const-Computes z small =
      alloc_register-bind _ s tt
        λ x free. returns (constant-Computes z x _ small free refl refl refl refl)

  pub load_const-Computes :
      (e : SymTabEntry) (n : ℕ)
      → e.const_value ≡ some n
      → n < 2048
      → Computes s fp s.temp_free Nothing mem (word n) mem (load_const e s)
  unfolding load_const
  load_const-Computes e n h small = alloc_register-bind _ s tt λ x free.
      initialized-bind _ _ h
        (returns (constant-Computes (pos n) x _ (ground (arith, small)) free refl refl refl refl))

-- A word of the frame is loaded to a new register.
frame-Computes :
    (s : Riscv) (fp off : ℕ) (mem : Memory) (x : ℕ) (s' : Riscv)
    → off ≤ 2048
    → get_or s.temp_free x false ≡ true
    → s'.out ≡ s.out ++ lw_fp (temp x) off ∷ []
    → s'.symbols ≡ s.symbols
    → s'.and_count ≡ s.and_count
    → s'.or_count ≡ s.or_count
    → Codes s s' x fp s.temp_free Nothing mem (word (mem (minus fp off))) mem
frame-Computes s fp off mem x s' small free out symbols ands ors =
    writes s s' (lw_fp (temp x) off) (λ m. m.mem (minus (m.regs (save 0)) off)) out symbols ands ors
      (λ n t. (refl, refl)) (exec-lw_fp x off small) (λ i u. InUse-other s.temp_free x i free u)
      (λ m at k.
        ap (λ g. word (g (minus (m.regs (save 0)) off))) at.memory
        ∙ ap (λ r. word (mem (minus r off))) at.frame)

module _ (s : Riscv) {fp : ℕ} {mem : Memory} (e : SymTabEntry) where
  pub load_arg-Computes :
      (i : ℕ)
      → e.arg_reg ≡ some i
      → 4 * (3 + i) ≤ 2048
      → Computes s fp s.temp_free Nothing mem
          (word (mem (minus fp (4 * (3 + i)))))
          mem
          (load_arg e s)
  unfolding load_arg
  load_arg-Computes i h small =
      alloc_register-bind _ (record s { out = _ }) tt
        λ x free. initialized-bind _ _ h (
          returns (
            commented s _ _ (λ m k. tt)
              (frame-Computes (record s { out = _ }) fp (4 * (3 + i)) mem x _ small free refl refl
                refl refl)))

  pub load_local-Computes :
      (o : ℕ)
      → e.offset ≡ some o
      → o + locals_base ≤ 2048
      → Computes s fp s.temp_free Nothing mem
          (word (mem (minus fp (o + locals_base))))
          mem
          (load_local e s)
  unfolding load_local
  load_local-Computes o h small =
      alloc_register-bind _ (record s { out = _ }) tt
        λ x free. initialized-bind _ _ h (
          returns (
            commented s _ _ (λ m k. tt)
              (frame-Computes (record s { out = _ }) fp (o + locals_base) mem x _ small free refl
                refl refl refl)))

module _ (s : Riscv) {fp : ℕ} {mem : Memory} (p : ℕ) (e : SymTabEntry)
    (found : get_elem? s.symbols p ≡ some e) where
  -- The entry of a name is read, then one of the three ways to load it.
  pub eval_ident-Computes :
      {v : ℕ}
      → Computes s fp s.temp_free Nothing mem v mem (load_variable e.symbol e s)
      → Computes s fp s.temp_free Nothing mem v mem (eval_ident (some p) s)
  unfolding eval_ident
  eval_ident-Computes {v} h = symbol_at-bind _ p s found h

  pub eval_lval-Computes :
      (x : List ℕ) (o : ℕ)
      → e.offset ≡ some o
      → o + locals_base < 2048
      → Computes s fp s.temp_free Nothing mem
          (word (locals_base + o))
          mem
          (eval_lval (ident x (some p)) s)
  unfolding eval_lval
  eval_lval-Computes x o h small = alloc_register-bind _ s tt λ r free.
      symbol_at-bind _ p (record s { temp_free = set s.temp_free r false }) found
        (initialized-bind _ _ h (
          returns (
            constant-Computes s (pos (locals_base + o)) r _ (ground (arith, small)) free refl refl
              refl refl)))

-- A constant and the frame, by the kind of the entry.
pub load_variable-const :
    (k : SymbolType) (e : SymTabEntry) (s : Riscv)
    → k ≡ sym_const
    → load_variable k e s ≡ load_const e s
unfolding load_variable
load_variable-const k e s h = ap (λ k. load_variable k e s) h

pub load_variable-frame :
    (k : SymbolType) (e : SymTabEntry) (s : Riscv) (b : Bool)
    → k ≡ sym_variable
    → e.is_arg_loaded ≡ b
    → load_variable k e s ≡ (if b then load_arg e else load_local e) s
unfolding load_variable
load_variable-frame k e s b h n =
    ap (λ k. load_variable k e s) h ∙ ap (λ b. (if b then load_arg e else load_local e) s) n

address : (fp n : ℕ) → word (minus fp (word n)) ≡ minus fp n
address fp n = omega arith

-- The address of the variable is computed in the first register, and the value of the second stored there.
module _ {f f₁ f₂ : List Bool} {l r : ℕ} (p : Takes f l f₁) (q : Takes f₁ r f₂) (s : Riscv) where
  pub store_lval-Computes :
      (off : ℕ) {fp v : ℕ} {mem : Memory}
      → Computes s fp f
          (Operands l r (word off) v)
          mem
          v
          (put mem (minus fp off) v)
          (store_lval l r s)
  unfolding store_lval free_register
  store_lval-Computes off {fp} {v} {mem} =
      let (g, first, second) = swap p q in
      let line = binary sub (temp l) (save 0) (temp l) in
      let s₁ : Riscv = record s { out = s.out ++ line ∷ [] } in
      returns (
        seq
          (writes {v = minus fp off} {f = g} s s₁ line
            (λ m. minus (m.regs (save 0)) (m.regs (temp l))) refl refl refl refl
            (λ n t. (refl, refl)) (exec-address l) (λ i u. InUse-other g l i second.was_free u)
            (λ m at k.
              ap (λ x. word (minus x (m.regs (temp l)))) at.frame
              ∙ ap (λ x. word (minus fp x)) k.0
              ∙ address fp off))
          (one {f = f} {K = λ m. (m.regs (temp l) ≡ minus fp off) × (m.regs (temp r) ≡ v)} s₁ _
            (sw_at (temp r) (temp l)) (λ m. store m (m.regs (temp l)) (m.regs (temp r))) refl refl
            refl refl (λ n t. (refl, refl)) (exec-sw_at r l)
            (λ m at k. (
              refl,
              at.frame,
              ap (λ x. put x (m.regs (temp l)) (m.regs (temp r))) at.memory
                  ∙ ap (λ x. put mem x (m.regs (temp r))) k.0
                  ∙ ap (λ x. put mem (minus fp off) x) k.1,
              k.1,
              λ i u. refl,
            )))
          (λ i u. InUse-Takes i first u) (λ i u. u)
          (λ prog m done k. (done.value, done.kept r (InUse-taken first) ∙ k.1)))
