-- ===== src/Asm/Branches.antt =====
-- asm.c: the pieces of a statement's code that hold one expression.
use my_lang.Prelude.{
  ℕ, ◌+◌, ◌≤◌, leb, ◌≡◌, ◌≢◌, refl, sym, ap, ◌∙◌, Bool, true, false, none, some, List, [], ◌∷◌,
  ◌++◌, append_assoc, length, length-append, get_elem?, arith, ◌==◌, if◌then◌else◌, initialized,
  Bytes, bytes, ok, stop, Stop, Post-ok,
}
use mathlib.Core.Path.{subst}
use my_lang.Symbol.{SymTabEntry}
use my_lang.Ast.{AstNode, just}
use my_lang.Asm.Target.{LabelKind, Label, Line, temp, save, zero_reg, beq, sw_fp, comment}
use my_lang.Asm.State.{Riscv, free_register, symbol_at}
use my_lang.Asm.Eval.{eval_asm, locals_base}
use my_lang.Asm.Gen.{branch_if_zero, eval_discarded, gen_var_def, eval_maybe}
use my_lang.Asm.Machine.{
  Machine, skip, store, minus, put, go, find_label, exec, here, onward, Reaches-trans,
}
use my_lang.Asm.Meaning.{Memory, Evaluates}
use my_lang.Asm.Code.{Final, step-at}
use my_lang.Asm.Correct.{entry}
use my_lang.Asm.Labels.{count, Extends, plain-Extends}
use my_lang.Asm.Extending.{eval_asm-Adds}
use my_lang.Asm.Places.{
  Ready-Extends, Ready, Comes, moves, bind-ok, bind-known, ok-injective, evaluates,
}

symbol_at-found :
    (p : ℕ) {y : SymTabEntry} (s : Riscv)
    → get_elem? s.symbols p ≡ some y
    → symbol_at (some p) s ≡ ok (y, s)
unfolding symbol_at
symbol_at-found p s h = ap (λ o. elim o [ none ↦ stop Stop.undefined | some y ↦ ok (y, s) ]) h

abbrev pub arrived :
    {prog : List Line} {start : Machine} {s : Riscv} {p x fp v : ℕ} {mem mem' : Memory}
    {f : List Bool} (c : Comes prog start p fp mem)
    → Final prog s x fp v mem' f c.last
    → Comes prog start (length s.out) fp mem'
arrived c d = record {
  last = d.last;
  run = Reaches-trans c.run d.run;
  place = d.at.place;
  frame = d.at.frame;
  memory = d.at.memory;
}

exec-beq :
    (prog : List Line) (x : ℕ) (l : Label) (m : Machine)
    → exec prog (beq (temp x) zero_reg l) m
      ≡ (if m.regs (temp x) == 0 then go prog l m else some (skip m))
unfolding exec
exec-beq prog x l m = refl

module _ {symbols : List SymTabEntry} {fp v : ℕ} {a : AstNode} {mem mem' : Memory} {s s' : Riscv}
    {u : Unit {0}} {prog : List Line} {start : Machine} (rest : List Line)
    (d : Evaluates symbols fp a mem v mem') (r : Ready symbols s) (whole : prog ≡ s'.out ++ rest)
    (c : Comes prog start (length s.out) fp mem) where
  -- An expression whose value is not used.
  pub discards : eval_discarded a s ≡ ok (u, s') → Comes prog start (length s'.out) fp mem'
  unfolding eval_discarded free_register
  discards e =
      let ((x, s₁), e₁, e₂) = bind-ok (eval_asm a s) _ _ e in
      let out : s₁.out ≡ s'.out = ap (λ r. r.1.out) (ok-injective e₂) in
      subst (λ o. Comes prog start (length o) fp mem') out
        (arrived c (evaluates rest d r e₁ (whole ∙ ap (λ o. o ++ rest) (sym out)) c))

  module _ (target : Label) (e : branch_if_zero a target s ≡ ok (u, s')) where
    record Tested : Type 0 where
      s₁ : Riscv
      x : ℕ
      out : s'.out ≡ s₁.out ++ beq (temp x) zero_reg target ∷ []
      there : prog ≡ s₁.out ++ (beq (temp x) zero_reg target ∷ rest)
      done : Final prog s₁ x fp v mem' s.temp_free c.last

    tested : Tested
    unfolding branch_if_zero free_register
    tested =
        let ((x, s₁), e₁, e₂) = bind-ok (eval_asm a s) _ _ e in
        let out : s₁.out ++ beq (temp x) zero_reg target ∷ [] ≡ s'.out =
          ap (λ r. r.1.out) (ok-injective e₂) in
        let there =
          whole
          ∙ ap (λ o. o ++ rest) (sym out)
          ∙ append_assoc s₁.out (beq (temp x) zero_reg target ∷ []) rest in
        record {
          s₁ = s₁;
          x = x;
          out = sym out;
          there = there;
          done = evaluates (beq (temp x) zero_reg target ∷ rest) d r e₁ there c;
        }

    tests :
        (t : Tested)
        → exec prog (beq (temp t.x) zero_reg target) t.done.last
          ≡ (if v == 0 then go prog target t.done.last else some (skip (t.done.last)))
    tests t =
        exec-beq prog t.x target t.done.last
        ∙ ap (λ w. if w == 0 then go prog target t.done.last else some (skip (t.done.last)))
            t.done.value

    -- The branch, from the place behind the expression.
    at-branch :
        (t : Tested) (p : ℕ)
        → (if v == 0 then go prog target t.done.last else some (skip (t.done.last)))
          ≡ some (record (t.done.last) { pc = p })
        → Comes prog start p fp mem'
    at-branch t p e =
        moves t.s₁.out rest (beq (temp t.x) zero_reg target) {q = p} (arrived c t.done) t.there refl
          (tests t ∙ e)

    -- The condition holds: the machine goes on behind the branch.
    pub branch-falls : v ≢ 0 → Comes prog start (length s'.out) fp mem'
    branch-falls n = of tested
      where
        other : (v == 0) ≡ false
        other = ground (arith, n)

        of : Tested → Comes prog start (length s'.out) fp mem'
        of t = at-branch t (length s'.out) (
            ap (λ b. if b then go prog target t.done.last else some (skip (t.done.last))) other
            ∙ ap (λ p. some (record (t.done.last) { pc = p }))
                (omega (
                  arith,
                  t.done.at.place,
                  ap length t.out,
                  length-append t.s₁.out (beq (temp t.x) zero_reg target ∷ []),
                )))

    -- The condition does not hold: it goes to the label.
    pub branch-jumps :
        (p : ℕ) → v ≡ 0 → find_label target prog ≡ some p → Comes prog start p fp mem'
    branch-jumps p n h = of tested
      where
        of : Tested → Comes prog start p fp mem'
        of t = at-branch t p (
            ap (λ w. if w == 0 then go prog target t.done.last else some (skip (t.done.last))) n
            ∙ ap (λ o. elim o [ none ↦ none | some p ↦ some (record (t.done.last) { pc = p }) ]) h)

commented-Extends :
    {lo : LabelKind → ℕ} (s : Riscv) (text : Bytes)
    → Extends lo s (record s { out = s.out ++ comment text ∷ [] })
unfolding find_label
commented-Extends s text =
    plain-Extends s _ (comment text ∷ []) refl refl (λ k. refl) (λ k n t. refl)

past_comment :
    {prog : List Line} {start : Machine} {fp : ℕ} {mem : Memory} (out ys : List Line) (text : Bytes)
    → prog ≡ out ++ (comment text ∷ ys)
    → Comes prog start (length out) fp mem
    → Comes prog start (length (out ++ comment text ∷ [])) fp mem
unfolding exec
past_comment out ys text e c = moves out ys (comment text) c e refl (
    ap (λ p. some (record (c.last) { pc = p }))
      (omega (arith, c.place, length-append out (comment text ∷ []))))

-- The value is stored in the frame.
stored :
    {prog : List Line} {start : Machine} {s : Riscv} {p fp v : ℕ} {mem mem' : Memory}
    {f : List Bool} (out ys : List Line) (x off : ℕ)
    → off ≤ 2048
    → prog ≡ out ++ (sw_fp (temp x) off ∷ ys)
    → (c : Comes prog start p fp mem) → Final prog s x fp v mem' f c.last
    → s.out ≡ out
    → Comes prog start (length (out ++ sw_fp (temp x) off ∷ [])) fp (put mem' (minus fp off) v)
unfolding exec
stored {prog} {s = s} {fp = fp} {v} {mem' = mem'} out ys x off small there c d same =
    let less : leb off 2048 ≡ true = ground (arith, small) in
    let m = d.last in
    let m' = store m (minus (m.regs (save 0)) off) (m.regs (temp x)) in
    let at : m.pc ≡ length out = d.at.place ∙ ap length same in
    record {
      last = m';
      run = Reaches-trans c.run (
          Reaches-trans d.run (
            onward
              (step-at prog out (sw_fp (temp x) off ∷ ys) 0 (sw_fp (temp x) off) m m' there refl
                (omega (arith, at)) (ap (λ b. if b then some m' else none) less))
              here));
      place = omega (arith, at, length-append out (sw_fp (temp x) off ∷ []));
      frame = d.at.frame;
      memory =
          ap (λ g. put g (minus (m.regs (save 0)) off) (m.regs (temp x))) d.at.memory
          ∙ ap (λ r. put mem' (minus r off) (m.regs (temp x))) d.at.frame
          ∙ ap (λ w. put mem' (minus fp off) w) d.value;
    }

module _ {symbols : List SymTabEntry} {fp v : ℕ} {a : AstNode} {mem mem' : Memory} {s s' : Riscv}
    {u : Unit {0}} {prog : List Line} {start : Machine} (rest : List Line)
    (d : Evaluates symbols fp a mem v mem') (r : Ready symbols s) (whole : prog ≡ s'.out ++ rest)
    (c : Comes prog start (length s.out) fp mem) where
  -- A variable that is defined gets the value.
  pub defines :
      (p o : ℕ) (y : SymTabEntry)
      → get_elem? symbols p ≡ some y
      → y.offset ≡ some o
      → o + locals_base ≤ 2048
      → gen_var_def (just a) (some p) s ≡ ok (u, s')
      → Comes prog start (length s'.out) fp (put mem' (minus fp (o + locals_base)) v)
  unfolding gen_var_def eval_maybe free_register
  defines p o y found place small e =
      let s₀ : Riscv = record s {
        out = s.out ++ comment (bytes "Variable definition: " ++ y.key) ∷ [];
      } in
      let e₁ = bind-known _ (symbol_at-found p s (entry p r.names found)) e in
      let e₂ = bind-known _ (ap (λ o. initialized o s) place) e₁ in
      let ((x, s₁), e₃, e₄) = bind-ok (eval_asm a s₀) _ _ e₂ in
      let out : s₁.out ++ sw_fp (temp x) (o + locals_base) ∷ [] ≡ s'.out =
        ap (λ r. r.1.out) (ok-injective e₄) in
      let there : prog ≡ s₁.out ++ (sw_fp (temp x) (o + locals_base) ∷ rest) =
        whole
        ∙ ap (λ o. o ++ rest) (sym out)
        ∙ append_assoc s₁.out (sw_fp (temp x) (o + locals_base) ∷ []) rest in
      let text = comment (bytes "Variable definition: " ++ y.key) in
      let ready =
        Ready-Extends {lo = count s} r
          (commented-Extends s (bytes "Variable definition: " ++ y.key)) refl in
      let added = Post-ok (eval_asm-Adds {lo = count s₀} a s₀ (λ k. omega arith)) e₃ in
      let c₀ =
        past_comment s.out (added.code ++ (sw_fp (temp x) (o + locals_base) ∷ rest))
          (bytes "Variable definition: " ++ y.key)
          (there
            ∙ ap (λ l. l ++ (sw_fp (temp x) (o + locals_base) ∷ rest)) added.written
            ∙ append_assoc s₀.out added.code (sw_fp (temp x) (o + locals_base) ∷ rest)
            ∙ append_assoc s.out (text ∷ [])
                (added.code ++ (sw_fp (temp x) (o + locals_base) ∷ rest)))
          c in
      subst (λ l. Comes prog start (length l) fp (put mem' (minus fp (o + locals_base)) v)) out
        (stored s₁.out rest x (o + locals_base) small there c₀
          (evaluates (sw_fp (temp x) (o + locals_base) ∷ rest) d ready e₃ there c₀) refl)
