-- ===== src/Asm/Enough.antt =====
-- asm.c: how many of the temporary registers the code of an expression needs.
use my_lang.Prelude.{
  ℕ, zero, suc, ◌+◌, ◌≤◌, ◌<◌, ◌≡◌, refl, sym, ap, ◌∙◌, Bool, true, false, none, some, List, [],
  ◌∷◌, leb, get_or, set, arith, if◌then◌else◌, Outcome, ok, stop, Stop, Post, returns, Post-ok,
  bind,
}
use mathlib.Core.Path.{subst}
use my_lang.Lex.Token.{
  TokenType, tok_add, tok_sub, tok_mult, tok_div, tok_equal, tok_not_equal, tok_and, tok_or,
  tok_xor, tok_log_or, tok_log_and, tok_lshift, tok_rshift, tok_gt, tok_lt, tok_gt_eq, tok_lt_eq,
}
use my_lang.Ast.{AstNode, bin_exp, var_asgn, unary_expr}
use my_lang.Asm.Target.{Register, Line, BinOp, seqz, snez}
use my_lang.Asm.State.{Riscv, first_free, alloc_register, free_register, create_base_cond_label}
use my_lang.Asm.Eval.{
  emit_in_place, free_operands, eval_log_and, eval_log_or, eval_to_new, eval_equality,
  eval_inverted, eval_operator,
}
use my_lang.Asm.Flags.{Takes}
use my_lang.Asm.Meaning.{Memory, IsDefined}
use my_lang.Asm.Registers.{alloc_register-Yields}

-- The registers that are free.
unfoldable pub free_count : List Bool → ℕ
free_count [] = 0
free_count (true ∷ f) = suc (free_count f)
free_count (false ∷ f) = free_count f

-- The registers that an operator takes for its result, beside those of the operands.
unfoldable pub extra : TokenType → ℕ
extra tok_add = 0
extra tok_sub = 0
extra tok_mult = 0
extra tok_div = 0
extra tok_lt_eq = 2
extra tok_gt_eq = 2
extra op = 1

abbrev max : ℕ → ℕ → ℕ
max a b = if leb a b then b else a

-- The registers that an expression without calls needs: while the right operand is computed the left one
-- has its register, and a negation takes its register first.
unfoldable pub need : AstNode → ℕ
unfolding extra
need (unary_expr a x op) = suc (need a)
need (bin_exp x op l r) = max (need l) (max (suc (need r)) (2 + extra op))
need (var_asgn l r) = suc (need r)
need other = 1

pub max-le : (a b c : ℕ) → max a b ≤ c → (a ≤ c) × (b ≤ c)
max-le a b c h = (ground (arith, h), ground (arith, h))

-- No run ends this way.
abbrev pub Never : Stop → Type 0
Never e = ⊥

first_free-some : (f : List Bool) → 0 < free_count f → (i : ℕ) × (first_free f ≡ some i)
unfolding first_free free_count
first_free-some [] h = ground arith
first_free-some (true ∷ f) h = (0, refl)
first_free-some (false ∷ f) h =
    let (i, e) = first_free-some f h in
    (suc i, ap (λ o. elim o [ none ↦ none | some i ↦ some (suc i) ]) e)

free_count-set :
    (f : List Bool) (x : ℕ)
    → get_or f x false ≡ true
    → free_count f ≡ suc (free_count (set f x false))
unfolding free_count
free_count-set [] x h = cc
free_count-set (true ∷ f) zero h = refl
free_count-set (false ∷ f) zero h = cc
free_count-set (true ∷ f) (suc x) h = ap suc (free_count-set f x h)
free_count-set (false ∷ f) (suc x) h = free_count-set f x h

pub free_count-Takes : {f g : List Bool} {x : ℕ} → Takes f x g → free_count f ≡ suc (free_count g)
free_count-Takes {f} {g} {x} t =
    free_count-set f x t.was_free ∙ ap (λ g. suc (free_count g)) (sym t.becomes)

-- Where a register is free, one is taken.
pub taken-bind :
    {B : Type 0} {Q : B → Type 0} (k : ℕ × Riscv → Outcome B) (s : Riscv)
    → 0 < free_count s.temp_free
    → ((x : ℕ)
        → get_or s.temp_free x false ≡ true
        → free_count s.temp_free ≡ suc (free_count (set s.temp_free x false))
        → Post Q Never (k (x, record s { temp_free = set s.temp_free x false })))
    → Post Q Never (bind (alloc_register s) k)
unfolding alloc_register
taken-bind {Q = Q} k s h on =
    let (i, e) = first_free-some s.temp_free h in
    let got : alloc_register s ≡ ok (i, record s { temp_free = set s.temp_free i false }) =
      ap
        (λ o. elim o [
          | none ↦ stop Stop.failure
          | some i ↦ ok (i, record s { temp_free = set s.temp_free i false })
        ])
        e in
    let t = Post-ok (alloc_register-Yields s) got in
    subst (λ r. Post Q Never (bind r k)) (sym got)
      (on i t.was_free (free_count-set s.temp_free i t.was_free))

abbrev pub Returns : Outcome (ℕ × Riscv) → Type 0
Returns = Post (λ (r : ℕ × Riscv). Unit {0}) Never

module _ (l r : ℕ) (s : Riscv) where
  eval_to_new-Returns :
      (op : BinOp) (a b : ℕ) → 0 < free_count s.temp_free → Returns (eval_to_new op a b l r s)
  unfolding eval_to_new free_operands free_register
  eval_to_new-Returns op a b h = taken-bind _ s h λ x free e. returns tt

  eval_equality-Returns :
      (test : Register → Register → Line)
      → 0 < free_count s.temp_free
      → Returns (eval_equality test l r s)
  unfolding eval_equality free_operands free_register
  eval_equality-Returns test h = taken-bind _ s h λ x free e. returns tt

  eval_inverted-Returns : (a b : ℕ) → 1 < free_count s.temp_free → Returns (eval_inverted a b l r s)
  unfolding eval_inverted free_operands free_register
  eval_inverted-Returns a b h = taken-bind _ s (omega (arith, h)) λ x free e.
      taken-bind _ (record s { temp_free = set s.temp_free x false }) (omega (arith, h, e))
        λ y free e. returns tt

  eval_log_and-Returns : 0 < free_count s.temp_free → Returns (eval_log_and l r s)
  unfolding eval_log_and free_operands free_register create_base_cond_label
  eval_log_and-Returns h = taken-bind _ s h λ x free e. returns tt

  eval_log_or-Returns : 0 < free_count s.temp_free → Returns (eval_log_or l r s)
  unfolding eval_log_or free_operands free_register create_base_cond_label
  eval_log_or-Returns h = taken-bind _ s h λ x free e. returns tt

  pub eval_operator-Returns :
      (op : TokenType) (a b : ℕ) (m m' : Memory)
      → IsDefined op a b m m'
      → extra op ≤ free_count s.temp_free
      → Returns (eval_operator op l r s)
  unfolding eval_operator emit_in_place free_register extra
  eval_operator-Returns tok_add a b m m' d h = returns tt
  eval_operator-Returns tok_sub a b m m' d h = returns tt
  eval_operator-Returns tok_mult a b m m' d h = returns tt
  eval_operator-Returns tok_div a b m m' d h = returns tt
  eval_operator-Returns tok_equal a b m m' d h = eval_equality-Returns seqz h
  eval_operator-Returns tok_not_equal a b m m' d h = eval_equality-Returns snez h
  eval_operator-Returns tok_log_and a b m m' d h = eval_log_and-Returns h
  eval_operator-Returns tok_log_or a b m m' d h = eval_log_or-Returns h
  eval_operator-Returns tok_lt a b m m' d h = eval_to_new-Returns BinOp.slt l r h
  eval_operator-Returns tok_lt_eq a b m m' d h = eval_inverted-Returns r l h
  eval_operator-Returns tok_gt a b m m' d h = eval_to_new-Returns BinOp.slt r l h
  eval_operator-Returns tok_gt_eq a b m m' d h = eval_inverted-Returns l r h
  eval_operator-Returns tok_lshift a b m m' d h = eval_to_new-Returns BinOp.sll l r h
  eval_operator-Returns tok_rshift a b m m' d h = eval_to_new-Returns BinOp.sra l r h
  eval_operator-Returns tok_and a b m m' d h = eval_to_new-Returns BinOp.and l r h
  eval_operator-Returns tok_or a b m m' d h = eval_to_new-Returns BinOp.or l r h
  eval_operator-Returns tok_xor a b m m' d h = eval_to_new-Returns BinOp.xor l r h
  eval_operator-Returns op a b m m' d h = elim d [ ]
