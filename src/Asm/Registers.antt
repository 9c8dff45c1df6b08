-- ===== src/Asm/Registers.antt =====
-- asm.c: the temporary registers in use before and after the functions that `eval_asm` calls.
use my_lang.Prelude.{
  Fueled, ◌>>=◌, initialized, ℕ, suc, ◌≡◌, refl, ap, sym, Bool, true, false, Option, none, some,
  List, [], ◌∷◌, get_elem?, get_or, set, Outcome, ok, stop, Stop, bind, Post, returns, stops,
  Post-bind, if◌then◌else◌,
}
use mathlib.Core.Path.{subst}
use my_lang.Lex.Token.{
  TokenType, tok_add, tok_sub, tok_mult, tok_div, tok_equal, tok_not_equal, tok_and, tok_or,
  tok_xor, tok_log_or, tok_log_and, tok_lshift, tok_rshift, tok_gt, tok_lt, tok_gt_eq, tok_lt_eq,
}
use my_lang.Symbol.{SymTabEntry, SymbolType, sym_const, sym_function, sym_variable, sym_keyword}
use my_lang.Prelude.Int.{ℤ}
use my_lang.Ast.{SymbolRef, AstNode, ident}
use my_lang.Asm.Target.{Register, Line, BinOp}
use my_lang.Asm.State.{Riscv, Gen, first_free, alloc_register, free_register, symbol_at}
use my_lang.Asm.Eval.{
  emit_in_place, free_operands, eval_log_and, eval_log_or, eval_to_new, eval_equality,
  eval_inverted, eval_operator, eval_int_const, load_const, load_arg, load_local, load_variable,
  eval_ident, eval_lval, store_lval,
}
use my_lang.Asm.Flags.{Takes, free_two, free_three, free_last, free_first}

-- The run takes one register, which it returns.
abbrev pub Yields : List Bool → Outcome (ℕ × Riscv) → Type 0
Yields f = Post (λ r. Takes f r.0 r.1.temp_free) Fueled

-- The run leaves the flags as they were.
abbrev pub Keeps {ℓ} : {A : Type ℓ} → List Bool → Outcome (A × Riscv) → Type ℓ
Keeps f = Post (λ r. r.1.temp_free ≡ f) Fueled

-- A place that was found is that of a free register.
Found : List Bool → Option ℕ → Type 0
Found f none = Unit
Found f (some i) = get_or f i false ≡ true

first_free-Found : (f : List Bool) → Found f (first_free f)
unfolding first_free Found
first_free-Found [] = tt
first_free-Found (true ∷ f) = refl
first_free-Found (false ∷ f) = later (first_free f) (first_free-Found f)
  where
    later :
        (o : Option ℕ)
        → Found f o
        → Found (false ∷ f) (elim o [ none ↦ none | some i ↦ some (suc i) ])
    later none h = tt
    later (some i) h = h

pub alloc_register-Yields : (s : Riscv) → Yields s.temp_free (alloc_register s)
unfolding alloc_register Found
alloc_register-Yields s = of (first_free s.temp_free) (first_free-Found s.temp_free)
  where
    of :
        (o : Option ℕ)
        → Found s.temp_free o
        → Yields s.temp_free (elim o [
          | none ↦ stop Stop.failure
          | some i ↦ ok (i, record s { temp_free = set s.temp_free i false })
        ])
    of none h = stops (cc)
    of (some i) h = returns (record { was_free = h; becomes = refl })

-- A register that was free is taken, and nothing else of the state changes.
pub alloc_register-bind {ℓ κ} :
    {B : Type ℓ} {Q : B → Type κ} {E : Stop → Type 0} (k : ℕ × Riscv → Outcome B) (s : Riscv)
    → E Stop.failure
    → ((x : ℕ)
        → get_or s.temp_free x false ≡ true
        → Post Q E (k (x, record s { temp_free = set s.temp_free x false })))
    → Post Q E (bind (alloc_register s) k)
unfolding alloc_register Found
alloc_register-bind {Q = Q} {E} k s full h =
    of (first_free s.temp_free) (first_free-Found s.temp_free)
  where
    of :
        (o : Option ℕ)
        → Found s.temp_free o
        → Post Q E (
            bind
              (elim o [
                | none ↦ stop Stop.failure
                | some i ↦ ok (i, record s { temp_free = set s.temp_free i false })
              ])
              k)
    of none u = stops full
    of (some i) u = h i u

pub alloc-Yields : {f : List Bool} (s : Riscv) → s.temp_free ≡ f → Yields f (alloc_register s)
alloc-Yields s e = subst (λ x. Yields x (alloc_register s)) e (alloc_register-Yields s)

module _ {f f₁ f₂ : List Bool} {l r : ℕ} (p : Takes f l f₁) (q : Takes f₁ r f₂) (s : Riscv)
    (e : s.temp_free ≡ f₂) where
  emit_in_place-Yields : (op : BinOp) → Yields f (emit_in_place op l r s)
  unfolding emit_in_place free_register
  emit_in_place-Yields op = returns (rw e (free_last p q))

  eval_to_new-Yields : (op : BinOp) (a b : ℕ) → Yields f (eval_to_new op a b l r s)
  unfolding eval_to_new free_operands free_register
  eval_to_new-Yields op a b = Post-bind (alloc-Yields s e) λ (x, s') t. returns (free_two p q t)

  eval_equality-Yields : (test : Register → Register → Line) → Yields f (eval_equality test l r s)
  unfolding eval_equality free_operands free_register
  eval_equality-Yields test = Post-bind (alloc-Yields s e) λ (x, s') t. returns (free_two p q t)

  eval_log_and-Yields : Yields f (eval_log_and l r s)
  unfolding eval_log_and free_operands free_register
  eval_log_and-Yields = Post-bind (alloc-Yields s e) λ (x, s₁) t. returns (free_two p q t)

  eval_log_or-Yields : Yields f (eval_log_or l r s)
  unfolding eval_log_or free_operands free_register
  eval_log_or-Yields = Post-bind (alloc-Yields s e) λ (x, s₁) t. returns (free_two p q t)

  eval_inverted-Yields : (a b : ℕ) → Yields f (eval_inverted a b l r s)
  unfolding eval_inverted free_operands free_register
  eval_inverted-Yields a b =
      Post-bind (alloc-Yields s e)
        λ (x, s₁) t. Post-bind (alloc-Yields s₁ refl) λ (y, s₂) u. returns (free_three p q t u)

  pub eval_operator-Yields : (op : TokenType) → Yields f (eval_operator op l r s)
  unfolding eval_operator
  eval_operator-Yields tok_add = emit_in_place-Yields BinOp.add
  eval_operator-Yields tok_sub = emit_in_place-Yields BinOp.sub
  eval_operator-Yields tok_mult = emit_in_place-Yields BinOp.mul
  eval_operator-Yields tok_div = emit_in_place-Yields BinOp.div
  eval_operator-Yields tok_equal = eval_equality-Yields Line.seqz
  eval_operator-Yields tok_not_equal = eval_equality-Yields Line.snez
  eval_operator-Yields tok_log_and = eval_log_and-Yields
  eval_operator-Yields tok_log_or = eval_log_or-Yields
  eval_operator-Yields tok_lt = eval_to_new-Yields BinOp.slt l r
  eval_operator-Yields tok_lt_eq = eval_inverted-Yields r l
  eval_operator-Yields tok_gt = eval_to_new-Yields BinOp.slt r l
  eval_operator-Yields tok_gt_eq = eval_inverted-Yields l r
  eval_operator-Yields tok_lshift = eval_to_new-Yields BinOp.sll l r
  eval_operator-Yields tok_rshift = eval_to_new-Yields BinOp.sra l r
  eval_operator-Yields tok_and = eval_to_new-Yields BinOp.and l r
  eval_operator-Yields tok_or = eval_to_new-Yields BinOp.or l r
  eval_operator-Yields tok_xor = eval_to_new-Yields BinOp.xor l r
  eval_operator-Yields op = stops (cc)

  pub store_lval-Yields : Yields f (store_lval l r s)
  unfolding store_lval free_register
  store_lval-Yields = returns (rw e (free_first p q))

-- One value is loaded into a new register.
pub eval_int_const-Yields : (v : ℤ) (s : Riscv) → Yields s.temp_free (eval_int_const v s)
unfolding eval_int_const
eval_int_const-Yields v s = Post-bind (alloc_register-Yields s) λ (x, s') t. returns t

pub symbol_at-Keeps :
    (symbol : SymbolRef) (s : Riscv)
    → Post (λ (r : SymTabEntry × Riscv). r.1 ≡ s) Fueled (symbol_at symbol s)
unfolding symbol_at
symbol_at-Keeps none s = stops (cc)
symbol_at-Keeps (some i) s = of (get_elem? s.symbols i)
  where
    of :
        (o : Option SymTabEntry)
        → Post
            (λ (r : SymTabEntry × Riscv). r.1 ≡ s)
            Fueled
            (elim o [ none ↦ stop Stop.undefined | some e ↦ ok (e, s) ])
    of none = stops (cc)
    of (some e) = returns refl

-- A field is read once a register was taken.
initialized-Yields :
    {A : Type 0} {f : List Bool} {x : ℕ} {s : Riscv}
    → Takes f x s.temp_free
    → (o : Option A) (k : A → Gen ℕ) → ((a : A) → Yields f (k a s))
    → Yields f ((initialized o >>= k) s)
initialized-Yields t none k h = stops (cc)
initialized-Yields t (some a) k h = h a

memory-Yields :
    (b : Bool) (e : SymTabEntry) (s : Riscv)
    → Yields s.temp_free ((if b then load_arg e else load_local e) s)
unfolding load_arg load_local
memory-Yields true e s =
    Post-bind (alloc_register-Yields _) λ (x, s') t. initialized-Yields t e.arg_reg _ λ v. returns t
memory-Yields false e s =
    Post-bind (alloc_register-Yields _) λ (x, s') t. initialized-Yields t e.offset _ λ v. returns t

load_variable-Yields :
    (kind : SymbolType) (e : SymTabEntry) (s : Riscv) → Yields s.temp_free (load_variable kind e s)
unfolding load_variable load_const
load_variable-Yields sym_const e s =
    Post-bind (alloc_register-Yields s)
      λ (x, s') t. initialized-Yields t e.const_value _ λ v. returns t
load_variable-Yields sym_function e s = memory-Yields e.is_arg_loaded e s
load_variable-Yields sym_variable e s = memory-Yields e.is_arg_loaded e s
load_variable-Yields sym_keyword e s = memory-Yields e.is_arg_loaded e s

pub eval_ident-Yields : (symbol : SymbolRef) (s : Riscv) → Yields s.temp_free (eval_ident symbol s)
unfolding eval_ident
eval_ident-Yields symbol s = Post-bind (symbol_at-Keeps symbol s) λ (e, s') k.
    subst (λ f. Yields f (load_variable e.symbol e s')) (ap (λ x. x.temp_free) k)
      (load_variable-Yields e.symbol e s')

pub eval_lval-Yields : (e : AstNode) (s : Riscv) → Yields s.temp_free (eval_lval e s)
unfolding eval_lval
eval_lval-Yields (ident value symbol) s = Post-bind (alloc_register-Yields s) λ (x, s₁) t.
    Post-bind (symbol_at-Keeps symbol s₁) λ (e, s₂) k.
      let u : Takes s.temp_free x s₂.temp_free =
        subst (λ y. Takes s.temp_free x y.temp_free) (sym k) t in
      initialized-Yields u e.offset _ λ v. returns u
eval_lval-Yields other s = stops (cc)

pub initialized-Keeps :
    {A : Type 0} {f : List Bool} {s : Riscv} (o : Option A) (k : A → Gen (Unit {0}))
    → ((a : A) → Keeps f (k a s))
    → Keeps f ((initialized o >>= k) s)
initialized-Keeps none k h = stops (cc)
initialized-Keeps (some a) k h = h a
