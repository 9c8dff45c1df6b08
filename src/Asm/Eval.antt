-- ===== src/Asm/Eval.antt =====
-- asm.c: code for an expression. The value is left in a temporary register, whose place is returned.
use my_lang.Prelude.{
  ◌>>=◌, ◌>>◌, pure, fail, initialized, ℕ, zero, suc, ◌+◌, ◌*◌, ◌-◌, Bool, true, false, List, [],
  ◌∷◌, ◌++◌, get_or, set, ok, Stop, Bytes, bytes, if◌then◌else◌,
}
use my_lang.Prelude.Int.{ℤ, pos}
use my_lang.Lex.Token.{
  TokenType, tok_add, tok_sub, tok_mult, tok_div, tok_equal, tok_not_equal, tok_not, tok_and,
  tok_or, tok_xor, tok_log_or, tok_log_and, tok_lshift, tok_rshift, tok_gt, tok_lt, tok_gt_eq,
  tok_lt_eq,
}
use my_lang.Symbol.{SymbolType, sym_const, SymTabEntry}
use my_lang.Ast.{
  SymbolRef, AstNode, int_const, bin_exp, ident, func_call, var_asgn, unary_expr, lval, Nodes,
  no_nodes, node, nodes_length,
}
use my_lang.Asm.Target.{
  Register, temp, arg, save, zero_reg, lbl_log_and, lbl_log_or, false_suffix, true_suffix,
  end_suffix, func_label, BinOp, add, sub, mul, div, slt, sll, sra, and, or, xor, Line, binary,
  seqz, snez, mv, xori, addi, beq, bne, j, jal, lw_fp, sw_fp, sw_at, label, comment,
}
use my_lang.Asm.State.{
  Gen, emit, temp_count, arg_count, alloc_register, free_register, create_base_cond_label,
  symbol_at, frame_size_of,
}

-- `base_offset` of the locals below the frame pointer: `REGISTER_SIZE * (3 + 8)`.
abbrev pub locals_base : ℕ
locals_base = 4 * (3 + arg_count)

abbrev pub emit_load_register : ℕ → ℤ → Gen (Unit {0})
emit_load_register reg value = emit (addi (temp reg) zero_reg value)

-- `emit_reg_add`, `emit_reg_sub`, `emit_reg_mult` and `emit_reg_div`.
unfoldable pub emit_in_place : BinOp → ℕ → ℕ → Gen ℕ
unfolding free_register
emit_in_place op reg1 reg2 = do
  emit (binary op (temp reg1) (temp reg1) (temp reg2))
  free_register reg2
  pure reg1

unfoldable pub free_operands : ℕ → ℕ → ℕ → Gen ℕ
unfolding free_register
free_operands left right reg = do free_register left; free_register right; pure reg

unfoldable pub eval_log_and : ℕ → ℕ → Gen ℕ
unfolding alloc_register create_base_cond_label free_operands
eval_log_and left right = do
  reg ← alloc_register
  and_label ← create_base_cond_label lbl_log_and
  emit (beq (temp left) zero_reg (and_label false_suffix))
  emit (beq (temp right) zero_reg (and_label false_suffix))
  emit_load_register reg (pos 1)
  emit (j (and_label end_suffix))
  emit (label (and_label false_suffix))
  emit_load_register reg (pos 0)
  emit (label (and_label end_suffix))
  free_operands left right reg

unfoldable pub eval_log_or : ℕ → ℕ → Gen ℕ
unfolding alloc_register create_base_cond_label free_operands
eval_log_or left right = do
  reg ← alloc_register
  or_label ← create_base_cond_label lbl_log_or
  emit (bne (temp left) zero_reg (or_label true_suffix))
  emit (bne (temp right) zero_reg (or_label true_suffix))
  emit_load_register reg (pos 0)
  emit (j (or_label end_suffix))
  emit (label (or_label true_suffix))
  emit_load_register reg (pos 1)
  emit (label (or_label end_suffix))
  free_operands left right reg

-- A case of the switch that writes one line to a new register.
unfoldable pub eval_to_new : BinOp → ℕ → ℕ → ℕ → ℕ → Gen ℕ
unfolding alloc_register free_operands
eval_to_new op reg1 reg2 left right = do
  reg ← alloc_register
  emit (binary op (temp reg) (temp reg1) (temp reg2))
  free_operands left right reg

-- `==` and `!=`: the difference, then a test for zero.
unfoldable pub eval_equality : (Register → Register → Line) → ℕ → ℕ → Gen ℕ
unfolding alloc_register free_operands
eval_equality test left right = do
  reg ← alloc_register
  emit (binary sub (temp reg) (temp right) (temp left))
  emit (test (temp reg) (temp reg))
  free_operands left right reg

-- `<=` and `>=`: the strict comparison the other way, inverted.
unfoldable pub eval_inverted : ℕ → ℕ → ℕ → ℕ → Gen ℕ
unfolding alloc_register free_operands free_register
eval_inverted reg1 reg2 left right = do
  reg ← alloc_register
  tmp ← alloc_register
  emit (binary slt (temp tmp) (temp reg1) (temp reg2))
  emit (xori (temp reg) (temp tmp) 1)
  _ ← free_operands left right reg
  free_register tmp
  pure reg

-- The switch of `eval_bin_exp`.
unfoldable pub eval_operator : TokenType → ℕ → ℕ → Gen ℕ
unfolding emit_in_place eval_log_and eval_log_or eval_to_new eval_equality eval_inverted
eval_operator tok_add left right = emit_in_place add left right
eval_operator tok_sub left right = emit_in_place sub left right
eval_operator tok_mult left right = emit_in_place mul left right
eval_operator tok_div left right = emit_in_place div left right
eval_operator tok_equal left right = eval_equality seqz left right
eval_operator tok_not_equal left right = eval_equality snez left right
eval_operator tok_log_and left right = eval_log_and left right
eval_operator tok_log_or left right = eval_log_or left right
eval_operator tok_lt left right = eval_to_new slt left right left right
eval_operator tok_lt_eq left right = eval_inverted right left left right
eval_operator tok_gt left right = eval_to_new slt right left left right
eval_operator tok_gt_eq left right = eval_inverted left right left right
eval_operator tok_lshift left right = eval_to_new sll left right left right
eval_operator tok_rshift left right = eval_to_new sra left right left right
eval_operator tok_and left right = eval_to_new and left right left right
eval_operator tok_or left right = eval_to_new or left right left right
eval_operator tok_xor left right = eval_to_new xor left right left right
eval_operator op left right = fail Stop.failure

unfoldable pub eval_int_const : ℤ → Gen ℕ
unfolding alloc_register
eval_int_const value = do reg ← alloc_register; emit_load_register reg value; pure reg

unfoldable pub load_const : SymTabEntry → Gen ℕ
unfolding alloc_register
load_const var = do
  reg ← alloc_register
  value ← initialized var.const_value
  emit_load_register reg (pos value)
  pure reg

unfoldable pub load_arg : SymTabEntry → Gen ℕ
unfolding alloc_register
load_arg var = do
  emit (comment (bytes "Load Arg from stack: " ++ var.key))
  reg ← alloc_register
  place ← initialized var.arg_reg
  emit (lw_fp (temp reg) (4 * (3 + place)))
  pure reg

unfoldable pub load_local : SymTabEntry → Gen ℕ
unfolding alloc_register
load_local var = do
  emit (comment (bytes "Load Value from frame: " ++ var.key))
  reg ← alloc_register
  offset ← initialized var.offset
  emit (lw_fp (temp reg) (offset + locals_base))
  pure reg

-- The three cases of `eval_ident`, once the entry is read.
unfoldable pub load_variable : SymbolType → SymTabEntry → Gen ℕ
unfolding load_const load_arg load_local
load_variable sym_const var = load_const var
load_variable kind var = if var.is_arg_loaded then load_arg var else load_local var

unfoldable pub eval_ident : SymbolRef → Gen ℕ
unfolding symbol_at load_variable
eval_ident symbol = do var ← symbol_at symbol; load_variable var.symbol var

-- Only an identifier is made an lvalue; `as` of another node is read as one.
unfoldable pub eval_lval : AstNode → Gen ℕ
unfolding symbol_at alloc_register
eval_lval (ident value symbol) = do
  reg ← alloc_register
  var ← symbol_at symbol
  offset ← initialized var.offset
  emit_load_register reg (pos (locals_base + offset))
  pure reg
eval_lval other = fail Stop.undefined

-- The registers in use are stored below `offset` and freed; the flags are those before the call.
unfoldable pub save_temps : ℕ → List Bool → ℕ → Gen ℕ
unfolding free_register
save_temps i [] offset = pure offset
save_temps i (true ∷ free) offset = save_temps (suc i) free offset
save_temps i (false ∷ free) offset = do
  emit (sw_fp (temp i) (offset + 4))
  free_register i
  save_temps (suc i) free (offset + 4)

-- `reg->free = false`
unfoldable pub take_register : ℕ → Gen (Unit {0})
take_register i s = ok (tt, record s { temp_free = set s.temp_free i false })

-- A register that was saved is loaded again; the place of the next one is returned.
unfoldable pub restore_temp : ℕ → Bool → ℕ → Gen ℕ
unfolding take_register
restore_temp i true offset = pure offset
restore_temp i false offset = do emit (lw_fp (temp i) offset); take_register i; pure (offset - 4)

-- From `t6` down to `t0`: those that were saved are loaded again.
unfoldable pub restore_temps : ℕ → List Bool → ℕ → Gen (Unit {0})
unfolding restore_temp
restore_temps zero free offset = pure tt
restore_temps (suc i) free offset = do
  below ← restore_temp i (get_or free i true) offset
  restore_temps i free below

-- `count` arguments from `a_i` on, one word each, while there are argument registers.
unfoldable pub load_args : ℕ → ℕ → ℕ → ℕ → Gen (Unit {0})
load_args zero places i offset = pure tt
load_args (suc count) zero i offset = pure tt
load_args (suc count) (suc places) i offset = do
  emit (lw_fp (arg i) (offset + 4))
  load_args count places (suc i) (offset + 4)

-- What stands after the arguments were stored: they are loaded, the function is called, and its value
-- is moved to a register.
unfoldable pub finish_call : Bytes → List Bool → ℕ → ℕ → Gen ℕ
unfolding alloc_register load_args restore_temps
finish_call name free count temp_offset = do
  emit (comment (bytes "Move Evaluated Args to Registers"))
  load_args count arg_count 0 temp_offset
  emit (jal (func_label name))
  restore_temps temp_count free temp_offset
  reg ← alloc_register
  emit (mv (temp reg) (arg 0))
  pure reg

-- The base of the spill area: the size of the frame of the function that is CALLED is read.
unfoldable pub begin_call : SymbolRef → Gen ℕ
unfolding symbol_at frame_size_of save_temps
begin_call symbol s =
    (do
      entry ← symbol_at symbol
      size ← frame_size_of entry
      emit (comment (bytes "Function Call"))
      temp_offset ← save_temps 0 s.temp_free (size + locals_base)
      emit (comment (bytes "Evaluate Args"))
      pure temp_offset)
      s

-- `sw rval, 0(lval)` after the address was computed.
unfoldable pub store_lval : ℕ → ℕ → Gen ℕ
unfolding free_register
store_lval left right = do
  emit (binary sub (temp left) (save 0) (temp left))
  emit (sw_at (temp right) (temp left))
  free_register left
  pure right

-- The flags of the temporary registers, as `freed` keeps them over a call.
abbrev pub live_temps : Gen (List Bool)
live_temps s = ok (s.temp_free, s)

unfoldable pub store_arg : ℕ → ℕ → Gen (Unit {0})
unfolding free_register
store_arg reg offset = do emit (sw_fp (temp reg) offset); free_register reg

-- `eval_asm`, with `eval_unary_expr`, `eval_bin_exp`, `eval_func_call` and `eval_var_asgn`.
unfoldable mutual
  unfolding alloc_register free_register eval_int_const begin_call finish_call eval_ident
      eval_operator store_lval eval_lval store_arg

  pub eval_asm : AstNode → Gen ℕ
  eval_asm (unary_expr postfix_expr value tok_not) = do
    reg ← alloc_register
    tmp ← eval_asm postfix_expr
    emit (seqz (temp reg) (temp tmp))
    free_register tmp
    pure reg
  eval_asm (int_const value) = eval_int_const value
  eval_asm (func_call name args symbol) = do
    free ← live_temps
    temp_offset ← begin_call symbol
    eval_args args temp_offset
    finish_call name free (nodes_length args) temp_offset
  eval_asm (ident value symbol) = eval_ident symbol
  eval_asm (bin_exp value op_type left right) = do
    l ← eval_asm left
    r ← eval_asm right
    eval_operator op_type l r
  eval_asm (var_asgn left right) = do l ← eval_asm left; r ← eval_asm right; store_lval l r
  eval_asm (lval ident_node) = eval_lval ident_node
  eval_asm other = fail Stop.failure

  -- The loop over the arguments: each is evaluated, stored one word further down, and freed.
  pub eval_args : Nodes → ℕ → Gen (Unit {0})
  eval_args no_nodes offset = pure tt
  eval_args (node a rest) offset = do
    reg ← eval_asm a
    store_arg reg (offset + 4)
    eval_args rest (offset + 4)
