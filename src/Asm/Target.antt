-- ===== src/Asm/Target.antt =====
-- asm.c: what is written to the assembly file. Each `fprintf` writes one line; a line is a value here.
use my_lang.Prelude.{ℕ, [], ◌++◌, Bytes, bytes}
use my_lang.Util.{digits}
use my_lang.Prelude.Int.{ℤ}

-- The registers that the generator names: `t0`-`t6`, `a0`-`a7`, `s0`, and three more.
pub data Register : Type 0 where
  temp : ℕ → Register
  arg : ℕ → Register
  save : ℕ → Register
  ra sp zero_reg : Register

pub data LabelKind : Type 0 where
  lbl_for lbl_if lbl_while lbl_else lbl_log_and lbl_log_or : LabelKind

-- What `extend_label` hangs on a base label.
pub data Suffix : Type 0 where
  no_suffix : Suffix
  start_suffix end_suffix false_suffix true_suffix : Suffix
  init_suffix cond_suffix body_suffix step_suffix : Suffix

-- A label that the generator makes, or the name of a function.
pub data Label : Type 0 where
  cond_label : LabelKind → ℕ → Suffix → Label
  func_label : Bytes → Label

-- What `create_base_cond_label` prints before the number, and what `extend_label` hangs on behind it.
abbrev pub kind_text : LabelKind → Bytes
kind_text lbl_for = bytes "for"
kind_text lbl_if = bytes "if"
kind_text lbl_while = bytes "while"
kind_text lbl_else = bytes "else"
kind_text lbl_log_and = bytes "and"
kind_text lbl_log_or = bytes "or"

abbrev pub suffix_text : Suffix → Bytes
suffix_text no_suffix = []
suffix_text start_suffix = bytes "start"
suffix_text end_suffix = bytes "end"
suffix_text false_suffix = bytes "false"
suffix_text true_suffix = bytes "true"
suffix_text init_suffix = bytes "init"
suffix_text cond_suffix = bytes "cond"
suffix_text body_suffix = bytes "body"
suffix_text step_suffix = bytes "step"

-- The text of a label; a `size_t` has at most twenty digits.
unfoldable pub label_text : Label → Bytes
unfolding digits
label_text (cond_label k n s) = kind_text k ++ digits 20 n ++ suffix_text s
label_text (func_label f) = f

pub data BinOp : Type 0 where
  add sub mul div slt sll sra and or xor : BinOp

-- `lw` and `sw` take the base register and the offset, which is `-off` under `s0`.
pub data Line : Type 0 where
  binary : BinOp → Register → Register → Register → Line
  seqz snez mv : Register → Register → Line
  xori : Register → Register → ℕ → Line
  addi : Register → Register → ℤ → Line
  beq bne : Register → Register → Label → Line
  j jal : Label → Line
  jalr_ra : Line
  lw_sp sw_sp : Register → ℕ → Line
  lw_fp sw_fp : Register → ℕ → Line
  sw_at : Register → Register → Line
  label : Label → Line
  comment : Bytes → Line
  directive : Bytes → Line
