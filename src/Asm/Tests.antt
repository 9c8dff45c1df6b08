-- ===== src/Asm/Tests.antt =====
-- Runs of the code generator.
use my_lang.Prelude.{
  Fueled, ℕ, ◌+◌, ◌*◌, ◌%◌, ◌≤◌, ◌≡◌, refl, true, false, some, List, [], ◌∷◌, Outcome, ok, Post,
  bind, bytes,
}
use my_lang.Prelude.Int.{pos}
use my_lang.Lex.Token.{tok_add}
use my_lang.Symbol.{SymTabEntry, sym_function, ts_int, make_symtab_entry}
use my_lang.Ast.{
  AstNode, int_const, bin_exp, expr_stmt, func_call, if_else, comp_stmt, no_nodes, node, null,
}
use my_lang.Asm.Machine.{label_eq}
use my_lang.Prelude.{strcmp_eq}
use my_lang.Asm.Target.{
  cond_label, func_label, label_text, lbl_else, lbl_while, no_suffix, start_suffix,
}
use my_lang.Asm.Target.{Line, binary, add, temp, addi, zero_reg}
use my_lang.Asm.State.{Riscv, make_riscv, temp_count, arg_count}
use my_lang.Asm.Eval.{eval_asm, locals_base}
use my_lang.Asm.Gen.{frame_size, gen_node}
use my_lang.Asm.Flags.{Takes}
use my_lang.Asm.Balance.{eval_asm-Takes}
use my_lang.Asm.Statements.{gen_node-Keeps}
use my_lang.Asm.Frame.{frame_size-layout}

abbrev callee : SymTabEntry
callee = record (make_symtab_entry (bytes "f") ts_int sym_function) { frame = some 0 }

abbrev start : Riscv
start = make_riscv (callee ∷ []) (record { size = 8; func = bytes "f" } ∷ [])

-- `1 + f(2)`
abbrev sum : AstNode
sum =
    bin_exp (bytes "+") tok_add (int_const (pos 1))
      (func_call (bytes "f") (node (int_const (pos 2)) no_nodes) (some 0))

lines : Outcome (ℕ × Riscv) → Outcome (List Line)
lines r = bind r λ (_, s). ok s.out

-- `1 + 2`
sum_lines :
    lines (eval_asm (bin_exp (bytes "+") tok_add (int_const (pos 1)) (int_const (pos 2))) start)
    ≡ ok (
        addi (temp 0) zero_reg (pos 1)
        ∷ addi (temp 1) zero_reg (pos 2)
        ∷ binary add (temp 0) (temp 0) (temp 1)
        ∷ [])
unfolding lines eval_asm make_riscv make_symtab_entry
sum_lines = refl

seven_free : (start.temp_free) ≡ true ∷ true ∷ true ∷ true ∷ true ∷ true ∷ true ∷ []
unfolding make_riscv
seven_free = refl

sum_flags :
    bind (eval_asm sum start) (λ (_, s). ok s.temp_free)
    ≡ ok (false ∷ true ∷ true ∷ true ∷ true ∷ true ∷ true ∷ [])
unfolding eval_asm make_riscv make_symtab_entry
sum_flags = refl

eval_asm-Takes_example :
    Post (λ (i, s'). Takes start.temp_free i s'.temp_free) Fueled (eval_asm sum start)
unfolding make_riscv
eval_asm-Takes_example = eval_asm-Takes sum start refl

abbrev choice : AstNode
choice = if_else sum (comp_stmt (node (expr_stmt sum) no_nodes)) null

choice_flags : bind (gen_node choice start) (λ (_, s). ok s.temp_free) ≡ ok (start.temp_free)
unfolding gen_node make_riscv make_symtab_entry
choice_flags = refl

gen_node-Keeps_example :
    Post (λ (_, s'). s'.temp_free ≡ start.temp_free) Fueled (gen_node choice start)
unfolding make_riscv
gen_node-Keeps_example = gen_node-Keeps choice start refl

frame_size-layout_example :
    (frame_size (4 * 3) % 16 ≡ 0)
    × (locals_base + 4 * 3 + 4 * temp_count + 4 * arg_count ≤ frame_size (4 * 3))
    × (frame_size (4 * 3) ≤ 4 * 2 + 4 * 3 + 4 * (temp_count + arg_count * 2) + 16)
frame_size-layout_example = frame_size-layout 3

-- The names of functions and the labels of the generator are not kept apart: a function `else0`, or `while0start`,
-- has the text of a label.
same_text :
    (label_eq (cond_label lbl_else 0 no_suffix) (func_label (bytes "else0")) ≡ true)
    × (label_eq (func_label (bytes "while0start")) (cond_label lbl_while 0 start_suffix) ≡ true)
unfolding label_text strcmp_eq
same_text = (refl, refl)
