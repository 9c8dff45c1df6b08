-- ===== src/Asm/Conditions.antt =====
-- asm.c: the parts of the code of an `if` and of a `while`, and where their labels stand.
use my_lang.Prelude.{
  ℕ, ◌<◌, ◌≡◌, inl, refl, sym, ap, ◌∙◌, Bool, true, false, some, List, [], ◌∷◌, ◌++◌, length, arith,
  ◌==◌, ◌&&◌, ok, Post-ok,
}
use mathlib.Core.Path.{subst}
use my_lang.Symbol.{SymTabEntry}
use my_lang.Ast.{AstNode, MaybeNode, if_else, while_loop}
use my_lang.Asm.Target.{
  LabelKind, lbl_if, lbl_while, lbl_else, Suffix, no_suffix, start_suffix, end_suffix, Label,
  cond_label, Line, label, j,
}
use my_lang.Asm.State.{Riscv, create_base_cond_label}
use my_lang.Asm.Gen.{branch_if_zero, gen_node, gen_maybe}
use my_lang.Asm.Machine.{is_label, first, find_label}
use my_lang.Asm.Code.{find_label-append, find_label-last}
use my_lang.Asm.Labels.{
  count, Absent, Extends, Extends-trans, Lower, label-Extends, find_label-none,
}
use my_lang.Asm.Starts.{if_start, if_start-Extends, while_start, while_start-Extends}
use my_lang.Asm.Bodies.{IsStatement, branch_if_zero-Adds, gen_node-Adds}
use my_lang.Asm.Statements.{branch_if_zero-Neutral, gen_node-Keeps}
use my_lang.Asm.Places.{Ready, Ready-Extends, bind-ok, ok-injective}

-- A statement's code ran: what is known of the state behind it.
pub node-After :
    {symbols : List SymTabEntry} {lo : LabelKind → ℕ} (a : AstNode) {s s' : Riscv} {u : Unit {0}}
    → Lower lo s
    → IsStatement a
    → Ready symbols s
    → gen_node a s ≡ ok (u, s')
    → Extends lo s s' × Ready symbols s'
node-After a {s} h p r e =
    let x = Post-ok (gen_node-Adds a s h p) e in
    (x, Ready-Extends r x (Post-ok (gen_node-Keeps a s r.seven) e))

branch-After :
    {symbols : List SymTabEntry} {lo : LabelKind → ℕ} (a : AstNode) (target : Label) {s s' : Riscv}
    {u : Unit {0}}
    → Lower lo s
    → Ready symbols s
    → branch_if_zero a target s ≡ ok (u, s')
    → Extends lo s s' × Ready symbols s'
branch-After a target {s} h r e =
    let x = Post-ok (branch_if_zero-Adds a target s h) e in
    (x, Ready-Extends r x (Post-ok (branch_if_zero-Neutral a target s.temp_free s r.seven refl) e))

-- A label that the earlier lines do not have, and whose number is below those of the later ones.
pub still-Absent :
    {lo : LabelKind → ℕ} {s s' : Riscv} (k : LabelKind) (n : ℕ) (t : Suffix)
    → Absent (cond_label k n t) s.out
    → n < lo k
    → Extends lo s s'
    → Absent (cond_label k n t) s'.out
still-Absent {s = s} k n t h low x =
    subst (Absent (cond_label k n t)) (sym x.written)
      (find_label-none (cond_label k n t) s.out x.code h (x.labels k n t (inl low)))

-- A label stands where it was written.
pub found-at :
    (l : Label) (out ys : List Line) (prog : List Line)
    → prog ≡ out ++ (label l ∷ ys)
    → is_label l (label l) ≡ true
    → Absent l out
    → find_label l prog ≡ some (length out)
unfolding find_label
found-at l out ys prog e same h =
    ap (find_label l) e
    ∙ find_label-append l out (label l ∷ ys) 0 h (ap (λ b. first b (find_label l ys)) same)
    ∙ ap some (omega arith)

-- Behind the second label of an `if`.
abbrev pub else_start : Riscv → Riscv → Riscv
else_start s s₄ = record s₄ {
  out = s₄.out ++ label (cond_label lbl_else s.else_count no_suffix) ∷ [];
}

pub record IfParts (symbols : List SymTabEntry) (c body : AstNode) (other : MaybeNode)
    (s s' : Riscv) (u : Unit {0}) : Type 0 where
  pub s₃ : Riscv
  pub s₄ : Riscv
  pub cond :
      branch_if_zero c (cond_label lbl_else s.else_count no_suffix) (if_start s) ≡ ok (tt, s₃)
  pub then_part : gen_node body s₃ ≡ ok (tt, s₄)
  pub else_part : gen_maybe other (else_start s s₄) ≡ ok (u, s')
  pub ready₂ : Ready symbols (if_start s)
  pub ready₃ : Ready symbols s₃
  pub ready₅ : Ready symbols (else_start s s₄)
  pub code₃ : Extends (count (if_start s)) (if_start s) s₃
  pub code₄ : Extends (count (if_start s)) s₃ s₄
  pub target_absent : Absent (cond_label lbl_else s.else_count no_suffix) s₄.out

pub if-parts :
    {symbols : List SymTabEntry} {c body : AstNode} {other : MaybeNode} {s s' : Riscv}
    {u : Unit {0}}
    → IsStatement body
    → Ready symbols s
    → gen_node (if_else c body other) s ≡ ok (u, s')
    → IfParts symbols c body other s s' u
unfolding gen_node create_base_cond_label
if-parts {c = c} {body} {other} {s} p r e =
    let target = cond_label lbl_else s.else_count no_suffix in
    let ((_, s₃), e₁, f₁) = bind-ok (branch_if_zero c target (if_start s)) _ _ e in
    let ((_, s₄), e₂, f₂) = bind-ok (gen_node body s₃) _ _ f₁ in
    let ready₂ = Ready-Extends r (if_start-Extends {lo = count s} s (λ k. omega arith)) refl in
    let (x₃, ready₃) =
      branch-After {lo = count (if_start s)} c target (λ k. omega arith) ready₂ e₁ in
    let (x₄, ready₄) = node-After body (λ k. x₃.grows k) p ready₃ e₂ in
    let g₃ = x₃.grows lbl_else in
    let g₄ = x₄.grows lbl_else in
    record {
      s₃ = s₃;
      s₄ = s₄;
      cond = e₁;
      then_part = e₂;
      else_part = f₂;
      ready₂ = ready₂;
      ready₃ = ready₃;
      ready₅ =
          Ready-Extends {lo = count s} ready₄
            (label-Extends s₄ (else_start s s₄) lbl_else s.else_count no_suffix refl refl
              (λ k. refl) (omega arith) (omega arith))
            refl;
      code₃ = x₃;
      code₄ = x₄;
      target_absent =
          still-Absent lbl_else s.else_count no_suffix
            (find_label-last target s.out (label (cond_label lbl_if s.if_count no_suffix))
              (r.fresh lbl_else s.else_count no_suffix (omega arith)) refl)
            (omega arith) (Extends-trans x₃ x₄);
    }

pub record WhileParts (symbols : List SymTabEntry) (c body : AstNode) (s s' : Riscv) : Type 0 where
  pub s₃ : Riscv
  pub s₄ : Riscv
  pub cond :
      branch_if_zero c (cond_label lbl_while s.while_count end_suffix) (while_start s) ≡ ok (tt, s₃)
  pub loop_body : gen_node body s₃ ≡ ok (tt, s₄)
  pub ready₂ : Ready symbols (while_start s)
  pub ready₃ : Ready symbols s₃
  pub code₃ : Extends (count (while_start s)) (while_start s) s₃
  pub code₄ : Extends (count (while_start s)) s₃ s₄
  pub ends :
      s'.out
      ≡ s₄.out
        ++ j (cond_label lbl_while s.while_count start_suffix) ∷ []
        ++ label (cond_label lbl_while s.while_count end_suffix) ∷ []
  pub end_absent :
      Absent
        (cond_label lbl_while s.while_count end_suffix)
        (s₄.out ++ j (cond_label lbl_while s.while_count start_suffix) ∷ [])

pub while-parts :
    {symbols : List SymTabEntry} {c body : AstNode} {s s' : Riscv} {u : Unit {0}}
    → IsStatement body
    → Ready symbols s
    → gen_node (while_loop c body) s ≡ ok (u, s')
    → WhileParts symbols c body s s'
unfolding gen_node create_base_cond_label
while-parts {c = c} {body} {s} p r e =
    let target = cond_label lbl_while s.while_count end_suffix in
    let ((_, s₃), e₁, f₁) = bind-ok (branch_if_zero c target (while_start s)) _ _ e in
    let ((_, s₄), e₂, f₂) = bind-ok (gen_node body s₃) _ _ f₁ in
    let ready₂ = Ready-Extends r (while_start-Extends {lo = count s} s (λ k. omega arith)) refl in
    let (x₃, ready₃) =
      branch-After {lo = count (while_start s)} c target (λ k. omega arith) ready₂ e₁ in
    let (x₄, ready₄) = node-After body (λ k. x₃.grows k) p ready₃ e₂ in
    record {
      s₃ = s₃;
      s₄ = s₄;
      cond = e₁;
      loop_body = e₂;
      ready₂ = ready₂;
      ready₃ = ready₃;
      code₃ = x₃;
      code₄ = x₄;
      ends = sym (ap (λ r. r.1.out) (ok-injective f₂));
      end_absent =
          find_label-last target s₄.out (j (cond_label lbl_while s.while_count start_suffix))
            (still-Absent lbl_while s.while_count end_suffix
              (find_label-last target s.out
                (label (cond_label lbl_while s.while_count start_suffix))
                (r.fresh lbl_while s.while_count end_suffix (omega arith))
                (and-false (s.while_count == s.while_count)))
              (omega arith) (Extends-trans x₃ x₄))
            refl;
    }
  where
    and-false : (b : Bool) → (b && false) ≡ false
    and-false true = refl
    and-false false = refl
