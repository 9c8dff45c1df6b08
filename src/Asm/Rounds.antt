-- ===== src/Asm/Rounds.antt =====
-- asm.c: the machine in the code of a `for`.
use my_lang.Prelude.{ℕ, ◌≡◌, ◌≢◌, refl, sym, ap, ◌∙◌, List, [], ◌∷◌, ◌++◌, append_assoc, length}
use mathlib.Core.Path.{subst}
use my_lang.Symbol.{SymTabEntry}
use my_lang.Ast.{AstNode}
use my_lang.Asm.Target.{
  lbl_for, end_suffix, init_suffix, cond_suffix, body_suffix, step_suffix, Label, cond_label, Line,
  label, j,
}
use my_lang.Asm.State.{Riscv}
use my_lang.Asm.Gen.{gen_for_cond, branch_if_zero}
use my_lang.Asm.Machine.{Machine}
use my_lang.Asm.Meaning.{
  Memory, Evaluates, number, constant, parameter, variable, negation, operation, assignment,
}
use my_lang.Asm.Starts.{for_start}
use my_lang.Asm.Places.{Comes, jumps}
use my_lang.Asm.Branches.{branch-falls, branch-jumps}
use my_lang.Asm.Conditions.{found-at}
use my_lang.Asm.Follows.{earlier, same-label, past_label}
use my_lang.Asm.ForLoops.{ForParts, mark}

-- A condition with a meaning is not the empty one.
tested-cond :
    {symbols : List SymTabEntry} {fp : ℕ} {e : AstNode} {m : Memory} {v : ℕ} {m' : Memory}
    → Evaluates symbols fp e m v m'
    → (target : Label) (s : Riscv) → gen_for_cond e target s ≡ branch_if_zero e target s
unfolding gen_for_cond
tested-cond (number h) target s = refl
tested-cond (constant h k l n) target s = refl
tested-cond (parameter h k l n o) target s = refl
tested-cond (variable h k l n o) target s = refl
tested-cond (negation d) target s = refl
tested-cond (operation d e h) target s = refl
tested-cond (assignment h k l n d) target s = refl

module _ {symbols : List SymTabEntry} {init cond step body : AstNode} {s s' : Riscv}
    (parts : ForParts symbols init cond step body s s') {prog : List Line} (rest : List Line)
    (whole : prog ≡ s'.out ++ rest) where
  for_last :
      prog
      ≡ (parts.s₆.out
          ++ j (cond_label lbl_for s.for_count cond_suffix) ∷ []
          ++ label (cond_label lbl_for s.for_count end_suffix) ∷ [])
        ++ rest
  for_last = whole ∙ ap (λ o. o ++ rest) parts.ends

  for_end_there :
      prog
      ≡ (parts.s₆.out ++ j (cond_label lbl_for s.for_count cond_suffix) ∷ [])
        ++ (label (cond_label lbl_for s.for_count end_suffix) ∷ rest)
  for_end_there =
      for_last
      ∙ append_assoc (parts.s₆.out ++ j (cond_label lbl_for s.for_count cond_suffix) ∷ [])
          (label (cond_label lbl_for s.for_count end_suffix) ∷ []) rest

  pub for_next :
      prog
      ≡ parts.s₆.out
        ++ (j (cond_label lbl_for s.for_count cond_suffix)
            ∷ label (cond_label lbl_for s.for_count end_suffix)
            ∷ rest)
  for_next =
      for_end_there
      ∙ append_assoc parts.s₆.out (j (cond_label lbl_for s.for_count cond_suffix) ∷ [])
          (label (cond_label lbl_for s.for_count end_suffix) ∷ rest)

  abbrev after_body : List Line
  after_body =
      parts.code₆.code
      ++ (j (cond_label lbl_for s.for_count cond_suffix)
          ∷ label (cond_label lbl_for s.for_count end_suffix)
          ∷ rest)

  step_there : prog ≡ (mark parts.s₅ s.for_count step_suffix).out ++ after_body
  step_there = earlier _ parts.code₆ for_next

  pub for_body :
      prog ≡ parts.s₅.out ++ (label (cond_label lbl_for s.for_count step_suffix) ∷ after_body)
  for_body =
      step_there
      ∙ append_assoc parts.s₅.out (label (cond_label lbl_for s.for_count step_suffix) ∷ [])
          after_body

  abbrev after_cond : List Line
  after_cond = parts.code₅.code ++ (label (cond_label lbl_for s.for_count step_suffix) ∷ after_body)

  body_there : prog ≡ (mark parts.s₄ s.for_count body_suffix).out ++ after_cond
  body_there = earlier _ parts.code₅ for_body

  for_cond :
      prog ≡ parts.s₄.out ++ (label (cond_label lbl_for s.for_count body_suffix) ∷ after_cond)
  for_cond =
      body_there
      ∙ append_assoc parts.s₄.out (label (cond_label lbl_for s.for_count body_suffix) ∷ [])
          after_cond

  abbrev after_init : List Line
  after_init = parts.code₄.code ++ (label (cond_label lbl_for s.for_count body_suffix) ∷ after_cond)

  cond_there : prog ≡ (mark parts.s₃ s.for_count cond_suffix).out ++ after_init
  cond_there = earlier _ parts.code₄ for_cond

  pub for_init :
      prog ≡ parts.s₃.out ++ (label (cond_label lbl_for s.for_count cond_suffix) ∷ after_init)
  for_init =
      cond_there
      ∙ append_assoc parts.s₃.out (label (cond_label lbl_for s.for_count cond_suffix) ∷ [])
          after_init

  module _ {start : Machine} {fp : ℕ} {mem : Memory} where
    pub for-first :
        Comes prog start (length s.out) fp mem → Comes prog start (length (for_start s).out) fp mem
    for-first =
        past_label s.out _ (cond_label lbl_for s.for_count init_suffix)
          (earlier _ parts.code₃ for_init)

    pub for-top :
        Comes prog start (length parts.s₃.out) fp mem
        → Comes prog start (length (mark parts.s₃ s.for_count cond_suffix).out) fp mem
    for-top = past_label parts.s₃.out _ (cond_label lbl_for s.for_count cond_suffix) cond_there

    pub for-steps :
        Comes prog start (length parts.s₅.out) fp mem
        → Comes prog start (length (mark parts.s₅ s.for_count step_suffix).out) fp mem
    for-steps = past_label parts.s₅.out _ (cond_label lbl_for s.for_count step_suffix) step_there

    pub for-enters :
        {v : ℕ} {mem' : Memory}
        → Comes prog start (length (mark parts.s₃ s.for_count cond_suffix).out) fp mem
        → Evaluates symbols fp cond mem v mem'
        → v ≢ 0
        → Comes prog start (length (mark parts.s₄ s.for_count body_suffix).out) fp mem'
    for-enters from d n =
        past_label parts.s₄.out _ (cond_label lbl_for s.for_count body_suffix) body_there
          (branch-falls _ d parts.ready₃ for_cond from _ (sym (tested-cond d _ _) ∙ parts.test) n)

    pub for-exits :
        {mem' : Memory}
        → Comes prog start (length (mark parts.s₃ s.for_count cond_suffix).out) fp mem
        → Evaluates symbols fp cond mem 0 mem'
        → Comes prog start (length s'.out) fp mem'
    for-exits {mem'} from d =
        subst (λ o. Comes prog start (length o) fp mem') (sym parts.ends)
          (past_label (parts.s₆.out ++ j (cond_label lbl_for s.for_count cond_suffix) ∷ []) rest
            (cond_label lbl_for s.for_count end_suffix) for_last
            (branch-jumps _ d parts.ready₃ for_cond from _ (sym (tested-cond d _ _) ∙ parts.test) _
              refl
              (found-at (cond_label lbl_for s.for_count end_suffix) _ rest prog for_end_there
                (same-label 0 s.for_count 2) parts.end_absent)))

    -- Back to the condition.
    pub for-again :
        Comes prog start (length parts.s₆.out) fp mem
        → Comes prog start (length (mark parts.s₃ s.for_count cond_suffix).out) fp mem
    for-again from = for-top (
        jumps parts.s₆.out _ (cond_label lbl_for s.for_count cond_suffix) (length parts.s₃.out)
          for_next
          (found-at (cond_label lbl_for s.for_count cond_suffix) parts.s₃.out _ prog for_init
            (same-label 0 s.for_count 6) parts.cond_absent)
          from)
