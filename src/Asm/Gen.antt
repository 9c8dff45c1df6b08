-- ===== src/Asm/Gen.antt =====
-- asm.c: code for statements and functions, and the whole file.
use my_lang.Prelude.{
  ◌>>=◌, ◌>>◌, pure, fail, initialized, ℕ, zero, suc, ◌+◌, ◌*◌, ◌-◌, ◌%◌, true, none, some, List,
  [], ◌∷◌, ◌++◌, set, get_elem?, Outcome, ok, stop, Stop, bind, Bytes, bytes, strcmp_eq,
  if◌then◌else◌,
}
use my_lang.Prelude.Int.{ℤ, pos, negsuc}
use my_lang.Symbol.{SymTabEntry, StackFrame}
use my_lang.Ast.{
  SymbolRef, Param, AstNode, func_def, var_def, comp_stmt, ret, if_else, enum, var_dec, while_loop,
  for_loop, empty_expr, expr_stmt, Nodes, no_nodes, node, MaybeNode, null, just,
}
use my_lang.Asm.Target.{
  temp, arg, save, ra, sp, zero_reg, lbl_for, lbl_if, lbl_while, lbl_else, no_suffix, start_suffix,
  Label, end_suffix, init_suffix, cond_suffix, body_suffix, step_suffix, func_label, Line, mv, addi,
  beq, j, jalr_ra, lw_sp, sw_sp, sw_fp, label, comment, directive,
}
use my_lang.Asm.State.{
  Gen, emit, temp_count, arg_count, make_riscv, free_register, create_base_cond_label, symbol_at,
  frame_size_of,
}
use my_lang.Asm.Eval.{eval_asm, locals_base}

-- `frame_size` of `gen_func_def` and `gen_ret` over the size of the locals.
unfoldable pub frame_size : ℕ → ℕ
frame_size locals = align (4 * 2 + locals + 4 * (temp_count + arg_count * 2))
  where
    align : ℕ → ℕ
    align size = size + (16 - size % 16)

-- `addi sp, sp, -bytes`
abbrev pub negative : ℕ → ℤ
negative zero = pos 0
negative (suc n) = negsuc n

abbrev pub emit_sp_decrease : ℕ → Gen (Unit {0})
emit_sp_decrease size = emit (addi sp sp (negative size))

abbrev pub emit_sp_increase : ℕ → Gen (Unit {0})
emit_sp_increase size = emit (addi sp sp (pos size))

-- `ra` and the frame pointer are loaded, and the stack pointer is set back.
unfoldable pub restore_frame : ℕ → Gen (Unit {0})
restore_frame size = do
  emit (lw_sp ra (size - 4))
  emit (lw_sp (save 0) (size - 4 * 2))
  emit_sp_increase size

-- An expression whose value is not used.
unfoldable pub eval_discarded : AstNode → Gen (Unit {0})
unfolding eval_asm free_register
eval_discarded expr = do reg ← eval_asm expr; free_register reg

unfoldable pub ret_expr : AstNode → Gen (Unit {0})
unfolding eval_asm free_register
ret_expr expr = do
  emit (comment (bytes "Evaluate Return"))
  reg ← eval_asm expr
  emit (mv (arg 0) (temp reg))
  free_register reg

-- The returned value, in `a0`; an empty expression has none.
unfoldable pub ret_value : AstNode → Gen (Unit {0})
unfolding ret_expr
ret_value empty_expr = pure tt
ret_value expr = ret_expr expr

unfoldable pub gen_ret : AstNode → SymbolRef → Gen (Unit {0})
unfolding symbol_at frame_size_of restore_frame ret_value frame_size
gen_ret expr func = do
  entry ← symbol_at func
  size ← frame_size_of entry
  ret_value expr
  emit (comment (bytes "Function Return"))
  restore_frame (frame_size size)
  emit jalr_ra

unfoldable pub load_param : ℕ → SymbolRef → Gen (Unit {0})
load_param i none s = stop Stop.null_pointer
load_param i (some p) s = elim (get_elem? s.symbols p) [
  | none ↦ stop Stop.undefined
  | some e ↦ ok (
    tt,
    record s { symbols = set s.symbols p (record e { is_arg_loaded = true; arg_reg = some i }) },
  )
]

-- `param->symbol->is_arg_loaded = true` and `param->symbol->arg_reg = i`, for every parameter.
unfoldable pub load_params : ℕ → List Param → Gen (Unit {0})
unfolding load_param
load_params i [] = pure tt
load_params i (p ∷ ps) = do load_param i p.symbol; load_params (suc i) ps

-- Every argument register is stored below the saved registers.
unfoldable pub save_args : ℕ → ℕ → ℕ → Gen (Unit {0})
save_args zero i offset = pure tt
save_args (suc count) i offset = do
  emit (sw_fp (arg i) offset)
  save_args count (suc i) (offset + 4)

unfoldable pub gen_prologue : ℕ → Gen (Unit {0})
unfolding save_args
gen_prologue size = do
  emit (comment (bytes "Function Prolouge"))
  emit_sp_decrease size
  emit (sw_sp ra (size - 4))
  emit (sw_sp (save 0) (size - 4 * 2))
  emit (addi (save 0) sp (pos size))
  emit (comment (bytes "Save Arg Registers"))
  save_args arg_count 0 (4 * 3)

-- "I think this is only for non void": the test is for `void`.
unfoldable pub gen_epilogue : Bytes → ℕ → Gen (Unit {0})
unfolding restore_frame
gen_epilogue type size = do
  (if strcmp_eq (bytes "void") type then restore_frame size else pure tt)
  emit jalr_ra

-- What `gen_func_def` does before the body; the size of the frame is returned.
unfoldable pub begin_func : Bytes → List Param → SymbolRef → Gen ℕ
unfolding load_params symbol_at frame_size_of gen_prologue frame_size
begin_func value params symbol = do
  emit (label (func_label value))
  load_params 0 params
  entry ← symbol_at symbol
  size ← frame_size_of entry
  gen_prologue (frame_size size)
  pure (frame_size size)

-- A NULL expression is read through.
unfoldable pub eval_maybe : MaybeNode → Gen ℕ
unfolding eval_asm
eval_maybe null = fail Stop.null_pointer
eval_maybe (just e) = eval_asm e

unfoldable pub gen_var_def : MaybeNode → SymbolRef → Gen (Unit {0})
unfolding symbol_at eval_maybe free_register
gen_var_def expr symbol = do
  entry ← symbol_at symbol
  offset ← initialized entry.offset
  emit (comment (bytes "Variable definition: " ++ entry.key))
  reg ← eval_maybe expr
  emit (sw_fp (temp reg) (offset + locals_base))
  free_register reg

-- A condition, with a branch to the label when it is zero.
unfoldable pub branch_if_zero : AstNode → Label → Gen (Unit {0})
unfolding eval_asm free_register
branch_if_zero cond target = do
  reg ← eval_asm cond
  emit (beq (temp reg) zero_reg target)
  free_register reg

-- The first clause of a `for`: a declaration, a definition or nothing is a statement, all else an
-- expression.
unfoldable pub gen_for_init : AstNode → Gen (Unit {0})
unfolding eval_discarded gen_var_def
gen_for_init (var_dec value type symbol) = pure tt
gen_for_init (var_def value type expr symbol) = gen_var_def expr symbol
gen_for_init empty_expr = pure tt
gen_for_init expr = eval_discarded expr

unfoldable pub gen_for_cond : AstNode → Label → Gen (Unit {0})
unfolding branch_if_zero
gen_for_cond empty_expr target = pure tt
gen_for_cond cond target = branch_if_zero cond target

-- An expression statement, or the last clause of a `for`.
unfoldable pub gen_expr_stmt : AstNode → Gen (Unit {0})
unfolding eval_discarded
gen_expr_stmt empty_expr = pure tt
gen_expr_stmt expr = eval_discarded expr

-- `_gen_asm`, with `gen_if`, `gen_comp_stmt`, `gen_func_def`, `gen_while` and `gen_for`.
unfoldable mutual
  unfolding gen_ret begin_func gen_epilogue gen_var_def branch_if_zero gen_for_init gen_for_cond
      gen_expr_stmt create_base_cond_label

  pub gen_node : AstNode → Gen (Unit {0})
  gen_node (ret expr func) = gen_ret expr func
  gen_node (if_else if_expr if_body else_body) = do
    if_label ← create_base_cond_label lbl_if
    else_label ← create_base_cond_label lbl_else
    emit (label (if_label no_suffix))
    branch_if_zero if_expr (else_label no_suffix)
    gen_node if_body
    emit (label (else_label no_suffix))
    gen_maybe else_body
  gen_node (comp_stmt body) = gen_nodes body
  gen_node (func_def value type body params symbol) = do
    size ← begin_func value params symbol
    gen_node body
    gen_epilogue type size
  gen_node (var_def value type expr symbol) = gen_var_def expr symbol
  gen_node (while_loop expr body) = do
    while_label ← create_base_cond_label lbl_while
    emit (label (while_label start_suffix))
    branch_if_zero expr (while_label end_suffix)
    gen_node body
    emit (j (while_label start_suffix))
    emit (label (while_label end_suffix))
  gen_node (for_loop init cond step body) = do
    for_label ← create_base_cond_label lbl_for
    emit (label (for_label init_suffix))
    gen_for_init init
    emit (label (for_label cond_suffix))
    gen_for_cond cond (for_label end_suffix)
    emit (label (for_label body_suffix))
    gen_node body
    emit (label (for_label step_suffix))
    gen_expr_stmt step
    emit (j (for_label cond_suffix))
    emit (label (for_label end_suffix))
  gen_node (expr_stmt expr) = gen_expr_stmt expr
  gen_node (enum value enums) = pure tt
  gen_node empty_expr = pure tt
  gen_node (var_dec value type symbol) = pure tt
  gen_node other = fail Stop.failure

  pub gen_nodes : Nodes → Gen (Unit {0})
  gen_nodes no_nodes = pure tt
  gen_nodes (node a rest) = do gen_node a; gen_nodes rest

  pub gen_maybe : MaybeNode → Gen (Unit {0})
  gen_maybe null = pure tt
  gen_maybe (just a) = gen_node a

unfoldable pub emit_linux_prologue : Gen (Unit {0})
emit_linux_prologue = do
  emit (directive (bytes ".section .text"))
  emit (directive (bytes "\t.globl _start"))
  emit (directive (bytes "_start:"))
  emit (directive (bytes "\tcall main"))
  emit (directive (bytes "\tli a7, 93"))
  emit (directive (bytes "\tecall"))

-- The loop over the program.
unfoldable pub gen_program : List AstNode → Gen (Unit {0})
unfolding gen_node
gen_program [] = pure tt
gen_program (a ∷ prog) = do gen_node a; gen_program prog

-- The lines of `asm.s`, from the tree and the stores that `sema_check` left.
unfoldable pub gen_asm : List AstNode → List SymTabEntry → List StackFrame → Outcome (List Line)
unfolding make_riscv emit_linux_prologue gen_program
gen_asm prog symbols frames =
    bind ((do emit_linux_prologue; gen_program prog) (make_riscv symbols frames)) λ (_, s). ok s.out
