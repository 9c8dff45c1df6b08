-- ===== src/Asm/Starts.antt =====
-- asm.c: the state behind the first label of an `if`, a `while` and a `for`.
use my_lang.Prelude.{ℕ, ◌+◌, refl, [], ◌∷◌, ◌++◌, arith}
use my_lang.Asm.Target.{
  LabelKind, lbl_for, lbl_if, lbl_while, lbl_else, lbl_log_and, lbl_log_or, no_suffix, start_suffix,
  init_suffix, cond_label, label,
}
use my_lang.Asm.State.{Riscv}
use my_lang.Asm.Labels.{Extends, Extends-trans, Lower, label-Extends, counted-Extends}

-- What holds of the six kinds of labels holds of every one.
pub every :
    (P : LabelKind → Type 0)
    → P lbl_for
    → P lbl_if
    → P lbl_while
    → P lbl_else
    → P lbl_log_and
    → P lbl_log_or
    → (k : LabelKind) → P k
every P a b c d e f lbl_for = a
every P a b c d e f lbl_if = b
every P a b c d e f lbl_while = c
every P a b c d e f lbl_else = d
every P a b c d e f lbl_log_and = e
every P a b c d e f lbl_log_or = f

abbrev pub if_start : Riscv → Riscv
if_start s = record s {
  if_count = s.if_count + 1;
  else_count = s.else_count + 1;
  out = s.out ++ label (cond_label lbl_if s.if_count no_suffix) ∷ [];
}

pub if_start-Extends : {lo : LabelKind → ℕ} (s : Riscv) → Lower lo s → Extends lo s (if_start s)
if_start-Extends s h =
    Extends-trans
      (counted-Extends s (record s { if_count = s.if_count + 1; else_count = s.else_count + 1 })
        refl refl
        (every _ (omega arith) (omega arith) (omega arith) (omega arith) (omega arith)
          (omega arith)))
      (label-Extends _ (if_start s) lbl_if s.if_count no_suffix refl refl (λ k. refl) (h lbl_if)
        (omega arith))

abbrev pub while_start : Riscv → Riscv
while_start s = record s {
  while_count = s.while_count + 1;
  out = s.out ++ label (cond_label lbl_while s.while_count start_suffix) ∷ [];
}

pub while_start-Extends :
    {lo : LabelKind → ℕ} (s : Riscv) → Lower lo s → Extends lo s (while_start s)
while_start-Extends s h =
    Extends-trans
      (counted-Extends s (record s { while_count = s.while_count + 1 }) refl refl
        (every _ (omega arith) (omega arith) (omega arith) (omega arith) (omega arith)
          (omega arith)))
      (label-Extends _ (while_start s) lbl_while s.while_count start_suffix refl refl (λ k. refl)
        (h lbl_while) (omega arith))

abbrev pub for_start : Riscv → Riscv
for_start s = record s {
  for_count = s.for_count + 1;
  out = s.out ++ label (cond_label lbl_for s.for_count init_suffix) ∷ [];
}

pub for_start-Extends : {lo : LabelKind → ℕ} (s : Riscv) → Lower lo s → Extends lo s (for_start s)
for_start-Extends s h =
    Extends-trans
      (counted-Extends s (record s { for_count = s.for_count + 1 }) refl refl
        (every _ (omega arith) (omega arith) (omega arith) (omega arith) (omega arith)
          (omega arith)))
      (label-Extends _ (for_start s) lbl_for s.for_count init_suffix refl refl (λ k. refl)
        (h lbl_for) (omega arith))
