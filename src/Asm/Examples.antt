-- ===== src/Asm/Examples.antt =====
-- Runs of generated code on the machine.
use my_lang.Prelude.{ℕ, ◌≡◌, refl, arith, some, List, [], ◌∷◌, ◌++◌, ok, bytes, inr}
use my_lang.Prelude.Int.{pos}
use my_lang.Lex.Token.{tok_log_and, tok_lt}
use my_lang.Symbol.{SymTabEntry, sym_variable, sym_const, ts_int, make_symtab_entry}
use my_lang.Ast.{AstNode, int_const, bin_exp, ident, var_asgn, lval}
use my_lang.Asm.Target.{Line}
use my_lang.Asm.State.{Riscv, make_riscv}
use my_lang.Asm.Eval.{eval_asm}
use my_lang.Asm.Machine.{Machine, put, find_label}
use my_lang.Asm.Meaning.{meaning, Memory, number, constant, variable, operation, assignment}
use my_lang.Asm.Code.{At, Final}
use my_lang.Asm.Enough.{need, free_count}
use my_lang.Asm.Bodies.{IsStatement, gen_node-Adds}
use my_lang.Asm.Labels.{Adds, count}
use my_lang.Asm.Executes.{Executes, expression, while_next, while_end}
use my_lang.Asm.StatementRuns.{gen_node-Executes, gen_node-if_else}
use my_lang.Asm.Gen.{gen_node}
use my_lang.Asm.Machine.{Reaches}
use my_lang.Lex.Token.{tok_add}
use my_lang.Ast.{expr_stmt, while_loop, if_else, just}
use my_lang.Prelude.{Outcome, stop}
use my_lang.Prelude.{none, zero, suc, strcmp_eq}
use my_lang.Asm.Machine.{step}
use my_lang.Asm.Target.{Line, arg}
use my_lang.Ast.{func_def, ret, comp_stmt, node, no_nodes}
use my_lang.Lex.Token.{tok_mult}
use my_lang.Asm.Gen.{gen_asm}
use my_lang.Symbol.{sym_function}
use my_lang.Asm.Runs.{eval_asm-Evaluates}

abbrev var_x : SymTabEntry
var_x = record (make_symtab_entry (bytes "x") ts_int sym_variable) { offset = some 4 }

abbrev const_c : SymTabEntry
const_c = record (make_symtab_entry (bytes "c") ts_int sym_const) { const_value = some 7 }

abbrev two_names : Riscv
two_names = make_riscv (var_x ∷ const_c ∷ []) []

-- `x = c && x < 5`
abbrev in_range : AstNode
in_range = var_asgn (lval (ident (bytes "x") (some 0))) (
    bin_exp (bytes "&&") tok_log_and (ident (bytes "c") (some 1))
      (bin_exp (bytes "<") tok_lt (ident (bytes "x") (some 0)) (int_const (pos 5))))

abbrev zeros : Memory
zeros a = 0

abbrev at_start : Machine
at_start = record { pc = 0; regs = λ r. 1000; mem = zeros }

eval_asm-Evaluates_example :
    (x : ℕ) × (s' : Riscv) × (code : List Line) × (eval_asm in_range two_names ≡ ok (x, s'))
    × (s'.out ≡ two_names.out ++ code)
    × Final (s'.out ++ []) s' x 1000 1 (put zeros 952 1) two_names.temp_free at_start
unfolding meaning make_riscv find_label make_symtab_entry need free_count
eval_asm-Evaluates_example =
    eval_asm-Evaluates {a = in_range} {fp = 1000} {v = 1} {m = zeros} {m' = put zeros 952 1}
      two_names
      (assignment refl refl refl (omega arith) (
        operation {op = tok_log_and} {v = 7} {w = 1} (constant refl refl refl (omega arith))
          (operation {op = tok_lt} {v = 0} {w = 5} (variable refl refl refl refl (omega arith))
            (number refl) tt)
          (inr refl)))
      refl (omega arith) (record { no_and = λ n s le. refl; no_or = λ n s le. refl }) [] at_start
      (record { place = refl; frame = refl; memory = refl })

-- The state behind a run that returns.
abbrev left_by : Outcome (Unit {0} × Riscv) → Riscv
left_by (ok (u, s)) = s
left_by (stop e) = two_names

-- `x = x + 1;`
abbrev count_up : AstNode
count_up = expr_stmt (
    var_asgn (lval (ident (bytes "x") (some 0)))
      (bin_exp (bytes "+") tok_add (ident (bytes "x") (some 0)) (int_const (pos 1))))

-- `while (x < 1) x = x + 1;`
abbrev loop : AstNode
loop =
    while_loop (bin_exp (bytes "<") tok_lt (ident (bytes "x") (some 0)) (int_const (pos 1)))
      count_up

count_up-Executes : Executes two_names.symbols 1000 count_up zeros (put zeros 952 1)
unfolding meaning make_riscv make_symtab_entry
count_up-Executes = expression (
    assignment refl refl refl (omega arith) (
      operation {op = tok_add} {v = 0} {w = 1} (variable refl refl refl refl (omega arith))
        (number refl) tt))

loop-Executes : Executes two_names.symbols 1000 loop zeros (put zeros 952 1)
unfolding meaning make_riscv make_symtab_entry IsStatement
loop-Executes =
    while_next
      (operation {op = tok_lt} {v = 0} {w = 1} (variable refl refl refl refl (omega arith))
        (number refl) tt)
      (ground arith) count_up-Executes
      (while_end
        (operation {op = tok_lt} {v = 1} {w = 1} (variable refl refl refl refl (omega arith))
          (number refl) tt)
        tt)

gen_node-Executes_example :
    (last : Machine) × Reaches ((left_by (gen_node loop two_names)).out ++ []) at_start last
    × At (left_by (gen_node loop two_names)) 1000 (put zeros 952 1) last
unfolding gen_node make_riscv make_symtab_entry find_label
gen_node-Executes_example =
    gen_node-Executes {a = loop} {fp = 1000} {m = zeros} {m' = put zeros 952 1} two_names
      (left_by (gen_node loop two_names)) loop-Executes refl refl (λ k n t h. refl) [] at_start
      (record { place = refl; frame = refl; memory = refl })

-- `if (1) x = x + 1; else x = 8;`
abbrev choice : AstNode
choice =
    if_else (int_const (pos 1)) count_up
      (just (expr_stmt (var_asgn (lval (ident (bytes "x") (some 0))) (int_const (pos 8)))))

gen_node-if_else_example :
    (last : Machine) × Reaches ((left_by (gen_node choice two_names)).out ++ []) at_start last
    × At (left_by (gen_node choice two_names)) 1000 (put (put zeros 952 1) 952 8) last
unfolding gen_node make_riscv make_symtab_entry find_label
gen_node-if_else_example =
    gen_node-if_else {c = int_const (pos 1)} {body = count_up}
      {other = expr_stmt (var_asgn (lval (ident (bytes "x") (some 0))) (int_const (pos 8)))}
      {fp = 1000} {v = 1} {m = zeros} {m₁ = zeros} {m₂ = put zeros 952 1}
      {m₃ = put (put zeros 952 1) 952 8} two_names (left_by (gen_node choice two_names))
      (number refl) (ground arith) count_up-Executes
      (expression (assignment refl refl refl (omega arith) (number refl))) refl refl
      (λ k n t h. refl) [] at_start (record { place = refl; frame = refl; memory = refl })

gen_node-Adds_example : Adds (count two_names) two_names (gen_node loop two_names)
unfolding IsStatement
gen_node-Adds_example = gen_node-Adds loop two_names (λ k. omega arith) tt

-- Steps, while there is a line.
runs : ℕ → List Line → Machine → Machine
unfolding step
runs zero lines m = m
runs (suc fuel) lines m = elim (step lines m) [ none ↦ m | some m' ↦ runs fuel lines m' ]

abbrev main_entry : SymTabEntry
main_entry = record (make_symtab_entry (bytes "main") ts_int sym_function) { frame = some 0 }

-- `int main() { return 2 + 3 * 4; }`
abbrev main_tree : AstNode
main_tree =
    func_def (bytes "main") (bytes "int")
      (comp_stmt (
        node
          (ret
            (bin_exp (bytes "+") tok_add (int_const (pos 2))
              (bin_exp (bytes "*") tok_mult (int_const (pos 3)) (int_const (pos 4))))
            (some 0))
          no_nodes))
      [] (some 0)

lines_of : Outcome (List Line) → List Line
lines_of (ok ls) = ls
lines_of (stop e) = []

-- The machine comes to the first line of `main`, which stands behind six directives.
called : Machine
called = record { pc = 6; regs = λ r. 1000; mem = zeros }

main_value :
    (runs 60
        (lines_of (
          gen_asm
            (main_tree ∷ [])
            (main_entry ∷ [])
            (record { size = 0; func = bytes "main" } ∷ [])))
        called).regs
      (arg 0)
    ≡ 14
unfolding runs lines_of called gen_asm make_symtab_entry strcmp_eq
main_value = refl
