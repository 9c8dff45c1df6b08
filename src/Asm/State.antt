-- ===== src/Asm/State.antt =====
-- asm.c: the generator's state (`struct RISCV`), with the stores of symbols and frames that it reads,
-- and functions over it.
use my_lang.Prelude.{
  ℕ, suc, ◌+◌, Bool, true, false, Option, none, some, List, [], ◌∷◌, ◌++◌, get_elem?, set,
  replicate, Stateful, ok, stop, Stop,
}
use my_lang.Symbol.{SymTabEntry, StackFrame}
use my_lang.Asm.Target.{
  LabelKind, lbl_for, lbl_if, lbl_while, lbl_else, lbl_log_and, lbl_log_or, Label, cond_label,
  Suffix, Line,
}

-- `temp` holds the `free` flags of `t0` to `t6`; those of the other registers are never read.
pub record Riscv : Type 0 where
  pub temp_free : List Bool
  pub out : List Line
  pub for_count : ℕ
  pub while_count : ℕ
  pub if_count : ℕ
  pub else_count : ℕ
  pub and_count : ℕ
  pub or_count : ℕ
  pub symbols : List SymTabEntry
  pub frames : List StackFrame

abbrev pub Gen {ℓ} : Type ℓ → Type ℓ
Gen = Stateful Riscv

abbrev pub emit : Line → Gen (Unit {0})
emit l s = ok (tt, record s { out = s.out ++ l ∷ [] })

abbrev pub temp_count : ℕ
temp_count = 7

abbrev pub arg_count : ℕ
arg_count = 8

unfoldable pub make_riscv : List SymTabEntry → List StackFrame → Riscv
make_riscv symbols frames = record {
  temp_free = replicate temp_count true;
  out = [];
  for_count = 0;
  while_count = 0;
  if_count = 0;
  else_count = 0;
  and_count = 0;
  or_count = 0;
  symbols = symbols;
  frames = frames;
}

-- The place of the first free register.
unfoldable pub first_free : List Bool → Option ℕ
first_free [] = none
first_free (true ∷ fs) = some 0
first_free (false ∷ fs) = elim (first_free fs) [ none ↦ none | some i ↦ some (suc i) ]

-- "No free registers" ends the compiler.
unfoldable pub alloc_register : Gen ℕ
unfolding first_free
alloc_register s = elim (first_free s.temp_free) [
  | none ↦ stop Stop.failure
  | some i ↦ ok (i, record s { temp_free = set s.temp_free i false })
]

unfoldable pub free_register : ℕ → Gen (Unit {0})
free_register i s = ok (tt, record s { temp_free = set s.temp_free i true })

unfoldable pub create_base_cond_label : LabelKind → Gen (Suffix → Label)
create_base_cond_label lbl_for s =
    ok (cond_label lbl_for s.for_count, record s { for_count = s.for_count + 1 })
create_base_cond_label lbl_if s =
    ok (cond_label lbl_if s.if_count, record s { if_count = s.if_count + 1 })
create_base_cond_label lbl_while s =
    ok (cond_label lbl_while s.while_count, record s { while_count = s.while_count + 1 })
create_base_cond_label lbl_else s =
    ok (cond_label lbl_else s.else_count, record s { else_count = s.else_count + 1 })
create_base_cond_label lbl_log_and s =
    ok (cond_label lbl_log_and s.and_count, record s { and_count = s.and_count + 1 })
create_base_cond_label lbl_log_or s =
    ok (cond_label lbl_log_or s.or_count, record s { or_count = s.or_count + 1 })

-- `*symbol`; a NULL pointer is read through.
unfoldable pub symbol_at : Option ℕ → Gen SymTabEntry
symbol_at none s = stop Stop.null_pointer
symbol_at (some i) s = elim (get_elem? s.symbols i) [
  | none ↦ stop Stop.undefined
  | some e ↦ ok (e, s)
]

-- `symbol->frame->size`
unfoldable pub frame_size_of : SymTabEntry → Gen ℕ
frame_size_of e s = elim e.frame [
  | none ↦ stop Stop.undefined
  | some i ↦ elim (get_elem? s.frames i) [ none ↦ stop Stop.undefined | some f ↦ ok (f.size, s) ]
]
