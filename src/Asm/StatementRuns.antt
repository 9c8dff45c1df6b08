-- ===== src/Asm/StatementRuns.antt =====
-- asm.c: the lines that `_gen_asm` writes for a statement, run on the machine.
use my_lang.Prelude.{ℕ, ◌≡◌, ◌≢◌, refl, sym, ap, ◌∙◌, List, ◌++◌, length, arith, pure, ok}
use mathlib.Core.Path.{subst}
use my_lang.Symbol.{SymTabEntry}
use my_lang.Ast.{AstNode, comp_stmt, if_else, null, just}
use my_lang.Asm.Target.{Line}
use my_lang.Asm.State.{Riscv, temp_count}
use my_lang.Asm.Gen.{eval_discarded, gen_expr_stmt, gen_node, gen_maybe}
use my_lang.Asm.Machine.{Machine, Reaches, here}
use my_lang.Asm.Meaning.{
  Memory, Evaluates, number, constant, parameter, variable, negation, operation, assignment,
}
use my_lang.Asm.Code.{At}
use my_lang.Asm.Labels.{count}
use my_lang.Asm.Executes.{
  Executes, Executes-IsStatement, nothing, declaration, enumeration, semicolon, expression,
  definition, block_end, block_next, if_true, if_false, if_else_false, while_end, while_next,
}
use my_lang.Asm.Starts.{for_start}
use my_lang.Asm.Places.{Ready, AllFresh, Comes, bind-ok, ok-injective}
use my_lang.Asm.Branches.{discards, defines}
use my_lang.Asm.Conditions.{if-parts, else_start, while-parts, node-After}
use my_lang.Asm.Target.{step_suffix, body_suffix, cond_suffix}
use my_lang.Asm.Gen.{gen_for_init}
use my_lang.Ast.{expr_stmt, var_def}
use my_lang.Asm.Executes.{
  Rounds, Rounds-IsStatement, last_round, round, for_definition, for_expression,
}
use my_lang.Asm.ForLoops.{ForParts, for-parts, mark}
use my_lang.Asm.Rounds.{
  for_next, for_body, for_init, for-first, for-top, for-steps, for-enters, for-exits, for-again,
}
use my_lang.Asm.Follows.{
  earlier, if_body, if-enters, if-skips, if-leaves, while_body, while-enters, while-exits,
  while-again,
}

-- An expression with a meaning is not the empty one.
not_empty :
    {symbols : List SymTabEntry} {fp : ℕ} {e : AstNode} {m : Memory} {v : ℕ} {m' : Memory}
    → Evaluates symbols fp e m v m'
    → gen_expr_stmt e ≡ eval_discarded e
unfolding gen_expr_stmt
not_empty (number h) = refl
not_empty (constant h k l n) = refl
not_empty (parameter h k l n o) = refl
not_empty (variable h k l n o) = refl
not_empty (negation d) = refl
not_empty (operation d e h) = refl
not_empty (assignment h k l n d) = refl

-- The first clause of a `for` is an expression, or nothing.
starts :
    {symbols : List SymTabEntry} {fp : ℕ} {e : AstNode} {m m' : Memory}
    → Executes symbols fp (expr_stmt e) m m'
    → (s : Riscv) → gen_for_init e s ≡ gen_expr_stmt e s
unfolding gen_for_init gen_expr_stmt
starts semicolon s = refl
starts (expression d) s = of d
  where
    of :
        {symbols : List SymTabEntry} {fp : ℕ} {e : AstNode} {m : Memory} {v : ℕ} {m' : Memory}
        → Evaluates symbols fp e m v m'
        → gen_for_init e s ≡ gen_expr_stmt e s
    of (number h) = refl
    of (constant h k l n) = refl
    of (parameter h k l n o) = refl
    of (variable h k l n o) = refl
    of (negation d) = refl
    of (operation d e h) = refl
    of (assignment h k l n d) = refl

same_lines : {s s' : Riscv} {u : Unit {0}} → pure tt s ≡ ok (u, s') → s.out ≡ s'.out
same_lines e = ap (λ r. r.1.out) (ok-injective e)

stays :
    {prog : List Line} {start : Machine} {fp : ℕ} {m : Memory} {s s' : Riscv} {u : Unit {0}}
    → pure tt s ≡ ok (u, s')
    → Comes prog start (length s.out) fp m
    → Comes prog start (length s'.out) fp m
stays {prog} {start} {fp} {m} e c = subst (λ o. Comes prog start (length o) fp m) (same_lines e) c

module _ {symbols : List SymTabEntry} {fp : ℕ} {prog : List Line} {start : Machine} where
  mutual
    unfolding gen_node gen_expr_stmt gen_maybe gen_for_init

    statement-Comes :
        {a : AstNode} {m m' : Memory}
        → Executes symbols fp a m m'
        → (s s' : Riscv) (u : Unit {0}) → gen_node a s ≡ ok (u, s')
        → Ready symbols s
        → (rest : List Line) → prog ≡ s'.out ++ rest
        → Comes prog start (length s.out) fp m
        → Comes prog start (length s'.out) fp m'
    statement-Comes nothing s s' u e r rest whole c = stays e c
    statement-Comes declaration s s' u e r rest whole c = stays e c
    statement-Comes enumeration s s' u e r rest whole c = stays e c
    statement-Comes semicolon s s' u e r rest whole c = stays e c
    statement-Comes (expression d) s s' u e r rest whole c =
        discards rest d r whole c (ap (λ g. g s) (sym (not_empty d)) ∙ e)
    statement-Comes (definition {p = p} {o} {y = y} found place small d) s s' u e r rest whole c =
        defines rest d r whole c p o y found place small e
    statement-Comes block_end s s' u e r rest whole c = stays e c
    statement-Comes (block_next {a} {rest = list} d d') s s' u e r rest whole c =
        let ((_, s₁), e₁, e₂) = bind-ok (gen_node a s) _ _ e in
        let (x, r₁) =
          node-After {lo = count s} a (λ k. omega arith) (Executes-IsStatement d) r e₁ in
        let (y, r₂) =
          node-After {lo = count s} (comp_stmt list) (λ k. x.grows k) (Executes-IsStatement d') r₁
            e₂ in
        statement-Comes d' s₁ s' u e₂ r₁ rest whole
          (statement-Comes d s s₁ tt e₁ r (y.code ++ rest) (earlier rest y whole) c)
    statement-Comes (if_true d n d') s s' u e r rest whole c =
        let parts = if-parts {other = null} (Executes-IsStatement d') r e in
        let there : prog ≡ (else_start s parts.s₄).out ++ rest =
          whole ∙ ap (λ o. o ++ rest) (sym (same_lines parts.else_part)) in
        stays {s = else_start s parts.s₄} parts.else_part (
          if-leaves parts rest there (
            statement-Comes d' parts.s₃ parts.s₄ tt parts.then_part parts.ready₃ _
              (if_body parts rest there) (if-enters parts rest there c d n)))
    statement-Comes (if_false d p) s s' u e r rest whole c =
        let parts = if-parts {other = null} p r e in
        let there : prog ≡ (else_start s parts.s₄).out ++ rest =
          whole ∙ ap (λ o. o ++ rest) (sym (same_lines parts.else_part)) in
        stays {s = else_start s parts.s₄} parts.else_part (if-skips parts rest there c d)
    statement-Comes (if_else_false {other = other} d p d') s s' u e r rest whole c =
        let parts = if-parts {other = just other} p r e in
        let (x, r₅) =
          node-After {lo = count (else_start s parts.s₄)} other (λ k. omega arith)
            (Executes-IsStatement d') parts.ready₅ parts.else_part in
        statement-Comes d' (else_start s parts.s₄) s' u parts.else_part parts.ready₅ rest whole
          (if-skips parts (x.code ++ rest) (earlier rest x whole) c d)
    statement-Comes (while_end d p) s s' u e r rest whole c =
        while-exits (while-parts p r e) rest whole c d
    statement-Comes (while_next d n d' d'') s s' u e r rest whole c =
        let parts = while-parts (Executes-IsStatement d') r e in
        statement-Comes d'' s s' u e r rest whole (
          while-again parts rest whole r.fresh (
            statement-Comes d' parts.s₃ parts.s₄ tt parts.loop_body parts.ready₃ _
              (while_body parts rest whole) (while-enters parts rest whole c d n)))
    statement-Comes (for_definition {x} {ty} {e = i} {p} d d') s s' u e r rest whole c =
        let parts = for-parts {init = var_def x ty i p} (Rounds-IsStatement d') r e in
        rounds-Comes d' s s' parts rest whole (
          for-top parts rest whole (
            statement-Comes d (for_start s) parts.s₃ tt parts.start parts.ready₂ _
              (for_init parts rest whole) (for-first parts rest whole c)))
    statement-Comes (for_expression {e = i} d d') s s' u e r rest whole c =
        let parts = for-parts {init = i} (Rounds-IsStatement d') r e in
        rounds-Comes d' s s' parts rest whole (
          for-top parts rest whole (
            statement-Comes d (for_start s) parts.s₃ tt (sym (starts d (for_start s)) ∙ parts.start)
              parts.ready₂ _ (for_init parts rest whole) (for-first parts rest whole c)))

    rounds-Comes :
        {init cond step body : AstNode} {m m' : Memory}
        → Rounds symbols fp cond step body m m'
        → (s s' : Riscv) (parts : ForParts symbols init cond step body s s') (rest : List Line)
        → prog ≡ s'.out ++ rest
        → Comes prog start (length (mark parts.s₃ s.for_count cond_suffix).out) fp m
        → Comes prog start (length s'.out) fp m'
    rounds-Comes (last_round d p) s s' parts rest whole c = for-exits parts rest whole c d
    rounds-Comes (round d n d₁ d₂ d₃) s s' parts rest whole c =
        rounds-Comes d₃ s s' parts rest whole (
          for-again parts rest whole (
            statement-Comes d₂ (mark parts.s₅ s.for_count step_suffix) parts.s₆ tt parts.next
              parts.ready₅ _ (for_next parts rest whole)
              (for-steps parts rest whole (
                statement-Comes d₁ (mark parts.s₄ s.for_count body_suffix) parts.s₅ tt
                  parts.loop_body parts.ready₄ _ (for_body parts rest whole)
                  (for-enters parts rest whole c d n)))))

-- Let a statement, in the memory `m`, come to its end and leave the memory `m'` (`Executes`). That is a
-- statement made of expressions that have a meaning (`Evaluates`: no calls, no assignments to parameters, no
-- effect in an operand of `&&` or `||` that C would skip, nothing that does not fit the twelve bits of an
-- immediate), of definitions with a value and declarations, blocks, `while`, `for` with a condition, `if`
-- without an `else`, and `if` with an `else` whose condition is zero: no `return`, no `if` with an `else`
-- whose condition holds, and no function inside, also where a body is not run. Where the code generator
-- writes it from a state with all seven flags, in which no label with a number from the counters on, and no
-- function of such a name, is written yet, in every program that begins with the lines written up to its end
-- a machine that comes to its first line, with that memory behind the frame pointer, comes to its end, with
-- the frame pointer kept and the memory `m'`.
pub gen_node-Executes :
    {a : AstNode} {fp : ℕ} {m m' : Memory} (s s' : Riscv)
    → Executes s.symbols fp a m m'
    → gen_node a s ≡ ok (tt, s')
    → length s.temp_free ≡ temp_count
    → AllFresh s
    → (rest : List Line) (start : Machine) → At s fp m start
    → (last : Machine) × Reaches (s'.out ++ rest) start last × At s' fp m' last
gen_node-Executes s s' d e h fresh rest start at =
    let c =
      statement-Comes {prog = s'.out ++ rest} {start = start} d s s' tt e
        (record { seven = h; names = refl; fresh = fresh }) rest refl
        (record {
          last = start;
          run = here;
          place = at.place;
          frame = at.frame;
          memory = at.memory;
        }) in
    (c.last, c.run, record { place = c.place; frame = c.frame; memory = c.memory })

-- Where the condition of an `if` with an `else` holds, and the condition, the body and the `else` are of the
-- kinds of which the theorem above speaks, the code goes on from the body into the `else`: a machine that comes to its first line, as for other statements, comes to its end with the memory that the
-- body leaves to the `else`, and the `else` leaves.
pub gen_node-if_else :
    {c body other : AstNode} {fp v : ℕ} {m m₁ m₂ m₃ : Memory} (s s' : Riscv)
    → Evaluates s.symbols fp c m v m₁
    → v ≢ 0
    → Executes s.symbols fp body m₁ m₂
    → Executes s.symbols fp other m₂ m₃
    → gen_node (if_else c body (just other)) s ≡ ok (tt, s')
    → length s.temp_free ≡ temp_count
    → AllFresh s
    → (rest : List Line) (start : Machine) → At s fp m start
    → (last : Machine) × Reaches (s'.out ++ rest) start last × At s' fp m₃ last
unfolding gen_maybe
gen_node-if_else {other = other} {fp = fp} {m = m} {m₃ = m₃} s s' d n d' d'' e h fresh rest start
      at =
    let r : Ready s.symbols s = record { seven = h; names = refl; fresh = fresh } in
    let from : Comes (s'.out ++ rest) start (length s.out) fp m = record {
      last = start;
      run = here;
      place = at.place;
      frame = at.frame;
      memory = at.memory;
    } in
    let parts = if-parts {symbols = s.symbols} {other = just other} (Executes-IsStatement d') r e in
    let (x, r₅) =
      node-After {lo = count (else_start s parts.s₄)} other (λ k. omega arith)
        (Executes-IsStatement d'') parts.ready₅ parts.else_part in
    let there : s'.out ++ rest ≡ (else_start s parts.s₄).out ++ (x.code ++ rest) =
      earlier rest x refl in
    let c : Comes (s'.out ++ rest) start (length s'.out) fp m₃ =
      statement-Comes {start = start} d'' (else_start s parts.s₄) s' tt parts.else_part parts.ready₅
        rest refl
        (if-leaves parts (x.code ++ rest) there (
          statement-Comes d' parts.s₃ parts.s₄ tt parts.then_part parts.ready₃ _
            (if_body parts (x.code ++ rest) there)
            (if-enters parts (x.code ++ rest) there from d n))) in
    (c.last, c.run, record { place = c.place; frame = c.frame; memory = c.memory })
