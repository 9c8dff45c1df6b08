-- ===== src/Asm/Follows.antt =====
-- asm.c: the code of `_gen_asm` on the machine, for statements that come to their end.
use my_lang.Prelude.{
  ℕ, ◌≡◌, ◌≢◌, refl, sym, ap, ◌∙◌, true, List, [], ◌∷◌, ◌++◌, append_assoc, length, length-append,
  arith, ◌==◌, ◌&&◌,
}
use mathlib.Core.Path.{subst}
use my_lang.Symbol.{SymTabEntry}
use my_lang.Ast.{AstNode, MaybeNode}
use my_lang.Asm.Target.{
  LabelKind, lbl_if, lbl_while, lbl_else, no_suffix, start_suffix, end_suffix, Label, cond_label,
  Line, label, j,
}
use my_lang.Asm.State.{Riscv}
use my_lang.Asm.Machine.{Machine}
use my_lang.Asm.Meaning.{Memory, Evaluates}
use my_lang.Asm.Pieces.{==-refl}
use my_lang.Asm.Labels.{Extends}
use my_lang.Asm.Starts.{if_start, while_start}
use my_lang.Asm.Places.{AllFresh, Comes, passes, jumps}
use my_lang.Asm.Branches.{branch-falls, branch-jumps}
use my_lang.Asm.Conditions.{IfParts, else_start, WhileParts, found-at}

pub earlier :
    {lo : LabelKind → ℕ} {s s' : Riscv} {prog : List Line} (rest : List Line) (x : Extends lo s s')
    → prog ≡ s'.out ++ rest
    → prog ≡ s.out ++ (x.code ++ rest)
earlier {s = s} rest x e = e ∙ ap (λ o. o ++ rest) x.written ∙ append_assoc s.out x.code rest

pub same-label : (k n t : ℕ) → ((k == k) && ((n == n) && (t == t))) ≡ true
same-label k n t =
    ap (λ b. b && ((n == n) && (t == t))) (==-refl k)
    ∙ ap (λ b. b && (t == t)) (==-refl n)
    ∙ ==-refl t

pub past_label :
    {prog : List Line} {start : Machine} {fp : ℕ} {mem : Memory} (out ys : List Line) (l : Label)
    → prog ≡ out ++ label l ∷ [] ++ ys
    → Comes prog start (length out) fp mem
    → Comes prog start (length (out ++ label l ∷ [])) fp mem
past_label {prog} {start} {fp} {mem} out ys l e c =
    subst (λ p. Comes prog start p fp mem) (sym (length-append out (label l ∷ [])))
      (passes out ys l (e ∙ append_assoc out (label l ∷ []) ys) c)

module _ {symbols : List SymTabEntry} {c body : AstNode} {other : MaybeNode} {s s' : Riscv}
    {u : Unit {0}} (parts : IfParts symbols c body other s s' u) {prog : List Line}
    (rest : List Line) (whole : prog ≡ (else_start s parts.s₄).out ++ rest) where
  pub if_body : prog ≡ parts.s₄.out ++ (label (cond_label lbl_else s.else_count no_suffix) ∷ rest)
  if_body =
      whole
      ∙ append_assoc parts.s₄.out (label (cond_label lbl_else s.else_count no_suffix) ∷ []) rest

  pub if-leaves :
      {start : Machine} {fp : ℕ} {mem : Memory}
      → Comes prog start (length parts.s₄.out) fp mem
      → Comes prog start (length (else_start s parts.s₄).out) fp mem
  if-leaves = past_label parts.s₄.out rest (cond_label lbl_else s.else_count no_suffix) whole

  module _ {start : Machine} {fp : ℕ} {mem : Memory}
      (from : Comes prog start (length s.out) fp mem) where
    if_first : Comes prog start (length (if_start s).out) fp mem
    if_first =
        past_label s.out _ (cond_label lbl_if s.if_count no_suffix)
          (earlier _ parts.code₃ (earlier _ parts.code₄ if_body)) from

    pub if-enters :
        {v : ℕ} {mem' : Memory}
        → Evaluates symbols fp c mem v mem'
        → v ≢ 0
        → Comes prog start (length parts.s₃.out) fp mem'
    if-enters d n =
        branch-falls _ d parts.ready₂ (earlier _ parts.code₄ if_body) if_first _ parts.cond n

    pub if-skips :
        {mem' : Memory}
        → Evaluates symbols fp c mem 0 mem'
        → Comes prog start (length (else_start s parts.s₄).out) fp mem'
    if-skips d = past_label parts.s₄.out rest (cond_label lbl_else s.else_count no_suffix) whole (
        branch-jumps _ d parts.ready₂ (earlier _ parts.code₄ if_body) if_first _ parts.cond
          (length parts.s₄.out) refl
          (found-at (cond_label lbl_else s.else_count no_suffix) parts.s₄.out rest prog if_body
            (same-label 3 s.else_count 0) parts.target_absent))

module _ {symbols : List SymTabEntry} {c body : AstNode} {s s' : Riscv}
    (parts : WhileParts symbols c body s s') {prog : List Line} (rest : List Line)
    (whole : prog ≡ s'.out ++ rest) where
  while_last :
      prog
      ≡ (parts.s₄.out
          ++ j (cond_label lbl_while s.while_count start_suffix) ∷ []
          ++ label (cond_label lbl_while s.while_count end_suffix) ∷ [])
        ++ rest
  while_last = whole ∙ ap (λ o. o ++ rest) parts.ends

  while_end_there :
      prog
      ≡ (parts.s₄.out ++ j (cond_label lbl_while s.while_count start_suffix) ∷ [])
        ++ (label (cond_label lbl_while s.while_count end_suffix) ∷ rest)
  while_end_there =
      while_last
      ∙ append_assoc (parts.s₄.out ++ j (cond_label lbl_while s.while_count start_suffix) ∷ [])
          (label (cond_label lbl_while s.while_count end_suffix) ∷ []) rest

  pub while_body :
      prog
      ≡ parts.s₄.out
        ++ (j (cond_label lbl_while s.while_count start_suffix)
            ∷ label (cond_label lbl_while s.while_count end_suffix)
            ∷ rest)
  while_body =
      while_end_there
      ∙ append_assoc parts.s₄.out (j (cond_label lbl_while s.while_count start_suffix) ∷ [])
          (label (cond_label lbl_while s.while_count end_suffix) ∷ rest)

  module _ {start : Machine} {fp : ℕ} {mem : Memory} where
    while_first :
        Comes prog start (length s.out) fp mem
        → Comes prog start (length (while_start s).out) fp mem
    while_first =
        past_label s.out _ (cond_label lbl_while s.while_count start_suffix)
          (earlier _ parts.code₃ (earlier _ parts.code₄ while_body))

    pub while-enters :
        {v : ℕ} {mem' : Memory}
        → Comes prog start (length s.out) fp mem
        → Evaluates symbols fp c mem v mem'
        → v ≢ 0
        → Comes prog start (length parts.s₃.out) fp mem'
    while-enters from d n =
        branch-falls _ d parts.ready₂ (earlier _ parts.code₄ while_body) (while_first from) _
          parts.cond n

    pub while-exits :
        {mem' : Memory}
        → Comes prog start (length s.out) fp mem
        → Evaluates symbols fp c mem 0 mem'
        → Comes prog start (length s'.out) fp mem'
    while-exits {mem'} from d =
        subst (λ o. Comes prog start (length o) fp mem') (sym parts.ends)
          (past_label (parts.s₄.out ++ j (cond_label lbl_while s.while_count start_suffix) ∷ [])
            rest (cond_label lbl_while s.while_count end_suffix) while_last
            (branch-jumps _ d parts.ready₂ (earlier _ parts.code₄ while_body) (while_first from) _
              parts.cond _ refl
              (found-at (cond_label lbl_while s.while_count end_suffix) _ rest prog while_end_there
                (same-label 2 s.while_count 2) parts.end_absent)))

    -- Back to the first label.
    pub while-again :
        AllFresh s
        → Comes prog start (length parts.s₄.out) fp mem
        → Comes prog start (length s.out) fp mem
    while-again fresh from =
        jumps parts.s₄.out _ (cond_label lbl_while s.while_count start_suffix) (length s.out)
          while_body
          (found-at (cond_label lbl_while s.while_count start_suffix) s.out _ prog
            (earlier _ parts.code₃ (earlier _ parts.code₄ while_body)
              ∙ append_assoc s.out (label (cond_label lbl_while s.while_count start_suffix) ∷ []) _)
            (same-label 2 s.while_count 1)
            (fresh lbl_while s.while_count start_suffix (omega arith)))
          from
