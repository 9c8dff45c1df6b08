-- ===== src/Asm/ForLoops.antt =====
-- asm.c: the parts of the code of a `for`, and where its labels stand.
use my_lang.Prelude.{
  ℕ, ◌≤◌, ◌<◌, ◌≡◌, refl, sym, ap, ◌∙◌, Bool, true, false, List, [], ◌∷◌, ◌++◌, arith, ◌==◌, ◌&&◌,
  ok, Post-ok,
}
use my_lang.Symbol.{SymTabEntry}
use my_lang.Ast.{AstNode, for_loop}
use my_lang.Asm.Target.{
  LabelKind, lbl_for, Suffix, end_suffix, init_suffix, cond_suffix, body_suffix, step_suffix,
  cond_label, label, j,
}
use my_lang.Asm.State.{Riscv, create_base_cond_label}
use my_lang.Asm.Gen.{gen_for_init, gen_for_cond, gen_node, gen_expr_stmt}
use my_lang.Asm.Machine.{is_label}
use my_lang.Asm.Code.{find_label-last}
use my_lang.Asm.Labels.{count, Absent, Extends, Lower, label-Extends}
use my_lang.Asm.Starts.{for_start, for_start-Extends}
use my_lang.Asm.Bodies.{IsStatement, gen_for_init-Adds, gen_for_cond-Adds, gen_expr_stmt-Adds}
use my_lang.Asm.Statements.{gen_for_init-Neutral, gen_for_cond-Neutral}
use my_lang.Asm.Places.{Ready, Ready-Extends, bind-ok, ok-injective}
use my_lang.Asm.Conditions.{still-Absent, node-After}

abbrev pub mark : Riscv → ℕ → Suffix → Riscv
mark s n t = record s { out = s.out ++ label (cond_label lbl_for n t) ∷ [] }

-- A label with a number that was given out.
mark-After :
    {symbols : List SymTabEntry} {lo : LabelKind → ℕ} {s : Riscv} (n : ℕ) (t : Suffix)
    → lo lbl_for ≤ n
    → n < s.for_count
    → Ready symbols s
    → Extends lo s (mark s n t) × Ready symbols (mark s n t)
mark-After {lo = lo} {s} n t low high r =
    let x : Extends lo s (mark s n t) =
      label-Extends s (mark s n t) lbl_for n t refl refl (λ k. refl) low high in
    (x, Ready-Extends r x refl)

pub record ForParts (symbols : List SymTabEntry) (init cond step body : AstNode) (s s' : Riscv)
    : Type 0 where
  pub s₃ : Riscv
  pub s₄ : Riscv
  pub s₅ : Riscv
  pub s₆ : Riscv
  pub start : gen_for_init init (for_start s) ≡ ok (tt, s₃)
  pub test :
      gen_for_cond cond
        (cond_label lbl_for s.for_count end_suffix)
        (mark s₃ s.for_count cond_suffix)
      ≡ ok (tt, s₄)
  pub loop_body : gen_node body (mark s₄ s.for_count body_suffix) ≡ ok (tt, s₅)
  pub next : gen_expr_stmt step (mark s₅ s.for_count step_suffix) ≡ ok (tt, s₆)
  pub ready₂ : Ready symbols (for_start s)
  pub ready₃ : Ready symbols (mark s₃ s.for_count cond_suffix)
  pub ready₄ : Ready symbols (mark s₄ s.for_count body_suffix)
  pub ready₅ : Ready symbols (mark s₅ s.for_count step_suffix)
  pub code₃ : Extends (count (for_start s)) (for_start s) s₃
  pub code₄ : Extends (count (for_start s)) (mark s₃ s.for_count cond_suffix) s₄
  pub code₅ : Extends (count (for_start s)) (mark s₄ s.for_count body_suffix) s₅
  pub code₆ : Extends (count (for_start s)) (mark s₅ s.for_count step_suffix) s₆
  pub ends :
      s'.out
      ≡ s₆.out
        ++ j (cond_label lbl_for s.for_count cond_suffix) ∷ []
        ++ label (cond_label lbl_for s.for_count end_suffix) ∷ []
  pub cond_absent : Absent (cond_label lbl_for s.for_count cond_suffix) s₃.out
  pub end_absent :
      Absent
        (cond_label lbl_for s.for_count end_suffix)
        (s₆.out ++ j (cond_label lbl_for s.for_count cond_suffix) ∷ [])

-- Another label of the same number, and lines behind it whose labels have higher ones.
past-Absent :
    {lo : LabelKind → ℕ} (s : Riscv) {s' : Riscv} (n : ℕ) (t u : Suffix)
    → is_label (cond_label lbl_for n t) (label (cond_label lbl_for n u)) ≡ false
    → Absent (cond_label lbl_for n t) s.out
    → n < lo lbl_for
    → Extends lo (mark s n u) s'
    → Absent (cond_label lbl_for n t) s'.out
past-Absent s n t u other h low x =
    still-Absent lbl_for n t
      (find_label-last (cond_label lbl_for n t) s.out (label (cond_label lbl_for n u)) h other) low
      x

pub for-parts :
    {symbols : List SymTabEntry} {init cond step body : AstNode} {s s' : Riscv} {u : Unit {0}}
    → IsStatement body
    → Ready symbols s
    → gen_node (for_loop init cond step body) s ≡ ok (u, s')
    → ForParts symbols init cond step body s s'
unfolding gen_node create_base_cond_label
for-parts {init = init} {cond} {step} {body} {s} p r e =
    let n = s.for_count in
    let target = cond_label lbl_for n end_suffix in
    let lo = count (for_start s) in
    let ((_, s₃), e₁, f₁) = bind-ok (gen_for_init init (for_start s)) _ _ e in
    let ((_, s₄), e₂, f₂) = bind-ok (gen_for_cond cond target (mark s₃ n cond_suffix)) _ _ f₁ in
    let ((_, s₅), e₃, f₃) = bind-ok (gen_node body (mark s₄ n body_suffix)) _ _ f₂ in
    let ((_, s₆), e₄, f₄) = bind-ok (gen_expr_stmt step (mark s₅ n step_suffix)) _ _ f₃ in
    let ready₂ = Ready-Extends r (for_start-Extends {lo = count s} s (λ k. omega arith)) refl in
    let x₃ = Post-ok (gen_for_init-Adds {lo = lo} init (for_start s) (λ k. omega arith)) e₁ in
    let g₃ = x₃.grows lbl_for in
    let r₃ =
      Ready-Extends ready₂ x₃
        (Post-ok (gen_for_init-Neutral init s.temp_free (for_start s) r.seven refl) e₁) in
    let (y₃, ready₃) = mark-After {lo = count s} n cond_suffix (omega arith) (omega arith) r₃ in
    let x₄ =
      Post-ok (gen_for_cond-Adds {lo = lo} cond target (mark s₃ n cond_suffix) (λ k. x₃.grows k))
        e₂ in
    let g₄ = x₄.grows lbl_for in
    let r₄ = Ready-Extends ready₃ x₄ (
      Post-ok
        (gen_for_cond-Neutral cond target s₃.temp_free (mark s₃ n cond_suffix) ready₃.seven refl)
        e₂) in
    let (y₄, ready₄) = mark-After {lo = count s} n body_suffix (omega arith) (omega arith) r₄ in
    let low₄ : Lower lo s₄ = λ k. let a = x₃.grows k in let b = x₄.grows k in omega arith in
    let (x₅, r₅) = node-After {lo = lo} body low₄ p ready₄ e₃ in
    let g₅ = x₅.grows lbl_for in
    let (y₅, ready₅) = mark-After {lo = count s} n step_suffix (omega arith) (omega arith) r₅ in
    let x₆ =
      Post-ok
        (gen_expr_stmt-Adds {lo = lo} step (mark s₅ n step_suffix)
          (λ k. let a = low₄ k in let b = x₅.grows k in omega arith))
        e₄ in
    let end₂ =
      find_label-last target s.out (label (cond_label lbl_for n init_suffix))
        (r.fresh lbl_for n end_suffix (omega arith)) (differs n 2 5 refl) in
    let end₃ = still-Absent lbl_for n end_suffix end₂ (omega arith) x₃ in
    let end₄ = past-Absent s₃ n end_suffix cond_suffix (differs n 2 6 refl) end₃ (omega arith) x₄ in
    let end₅ = past-Absent s₄ n end_suffix body_suffix (differs n 2 7 refl) end₄ (omega arith) x₅ in
    let end₆ = past-Absent s₅ n end_suffix step_suffix (differs n 2 8 refl) end₅ (omega arith) x₆ in
    record {
      s₃ = s₃;
      s₄ = s₄;
      s₅ = s₅;
      s₆ = s₆;
      start = e₁;
      test = e₂;
      loop_body = e₃;
      next = e₄;
      ready₂ = ready₂;
      ready₃ = ready₃;
      ready₄ = ready₄;
      ready₅ = ready₅;
      code₃ = x₃;
      code₄ = x₄;
      code₅ = x₅;
      code₆ = x₆;
      ends = sym (ap (λ r. r.1.out) (ok-injective f₄));
      cond_absent =
          still-Absent lbl_for n cond_suffix
            (find_label-last (cond_label lbl_for n cond_suffix) s.out
              (label (cond_label lbl_for n init_suffix))
              (r.fresh lbl_for n cond_suffix (omega arith)) (differs n 6 5 refl))
            (omega arith) x₃;
      end_absent = find_label-last target s₆.out (j (cond_label lbl_for n cond_suffix)) end₆ refl;
    }
  where
    differs : (n t u : ℕ) → (t == u) ≡ false → ((n == n) && (t == u)) ≡ false
    differs n t u e = ap (λ b. (n == n) && b) e ∙ and-false (n == n)
      where
        and-false : (b : Bool) → (b && false) ≡ false
        and-false true = refl
        and-false false = refl
