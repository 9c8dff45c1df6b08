-- ===== src/Driver/Ends.antt =====
-- main.c: termination of the compiler.
use my_lang.Prelude.{
  ◌≡◌, refl, ap, ◌∙◌, Bool, true, false, if◌then◌else◌, Option, List, [], ◌∷◌, length, Outcome, ok,
  stop, Stop, Post, returns, stops, Fueled, Post-bind, Post-stop, bind, Bytes, get_or, ◌-◌, ◌≢◌,
}
use my_lang.Lex.Token.{Token}
use my_lang.Lex.Ends.{tokenize-Fueled, opens_pair}
use my_lang.Parse.Statement.{parse}
use my_lang.Parse.ProgramTotal.{parse-ne-out_of_fuel}
use my_lang.Ast.{AstNode}
use my_lang.Symbol.{SymTabEntry, StackFrame}
use my_lang.HashMap.Table.{hashmap_new}
use my_lang.Sema.State.{Sema}
use my_lang.Sema.Program.{type_env_init}
use my_lang.Sema.Sound.{sema_check-Fueled}
use my_lang.Asm.Target.{Line}
use my_lang.Asm.State.{Riscv, make_riscv, temp_count}
use my_lang.Asm.Gen.{gen_asm, gen_program, emit_linux_prologue}
use my_lang.Asm.Statements.{gen_node-Keeps}
use my_lang.Driver.{
  CompilerOptions, Output, printed_tokens, printed_tree, assembly, contents, finish, compile_file,
}

gen_program-Fueled :
    (prog : List AstNode) (s : Riscv)
    → length s.temp_free ≡ temp_count
    → Post (λ (r : Unit {0} × Riscv). Unit {0}) Fueled (gen_program prog s)
unfolding gen_program
gen_program-Fueled [] s h = returns tt
gen_program-Fueled (a ∷ prog) s h =
    Post-bind (gen_node-Keeps a s h) λ (_, s₁) k. gen_program-Fueled prog s₁ (ap length k ∙ h)

gen_asm-Fueled :
    (prog : List AstNode) (symbols : List SymTabEntry) (frames : List StackFrame)
    → Post (λ (ls : List Line). Unit {0}) Fueled (gen_asm prog symbols frames)
unfolding gen_asm emit_linux_prologue make_riscv
gen_asm-Fueled prog symbols frames =
    Post-bind (gen_program-Fueled prog _ refl) λ (_, s) _. returns tt

finish-Fueled :
    (opt : CompilerOptions) (tokens : List Token) (prog : List AstNode) (s : Sema)
    → Post (λ (o : Output). Unit {0}) Fueled (finish opt tokens prog s)
unfolding finish
finish-Fueled opt tokens prog s = of opt.dump_tokens opt.dump_ast
  where
    of :
        (b c : Bool)
        → Post
            (λ (o : Output). Unit {0})
            Fueled
            (if b
              then ok (printed_tokens tokens)
              else if c
              then ok (printed_tree prog)
              else bind (gen_asm prog s.entries s.frames) (λ lines. ok (assembly lines)))
    of true c = returns tt
    of false true = returns tt
    of false false = Post-bind (gen_asm-Fueled prog s.entries s.frames) λ ls _. returns tt

parse-Fueled : (tokens : List Token) → Post (λ (p : List AstNode). Unit {0}) Fueled (parse tokens)
parse-Fueled tokens = of (parse tokens) (parse-ne-out_of_fuel tokens)
  where
    of :
        (r : Outcome (List AstNode))
        → r ≢ stop Stop.out_of_fuel
        → Post (λ (p : List AstNode). Unit {0}) Fueled r
    of (ok p) h = returns tt
    of (stop e) h = stops (λ k. h (ap stop k))

-- Where the last character of the file opens no two-character token, or the file is empty or not there,
-- the compiler ends: with its output, with a message, or with undefined behaviour.
pub compile_file-ne-out_of_fuel :
    (read_file : Bytes → Option Bytes) (opt : CompilerOptions)
    → opens_pair (
        get_or
          (contents (read_file opt.file_name))
          (length (contents (read_file opt.file_name)) - 1)
          0)
      ≡ false
    → compile_file read_file opt ≢ stop Stop.out_of_fuel
unfolding compile_file
compile_file-ne-out_of_fuel read_file opt closed k =
    let input = contents (read_file opt.file_name) in
    Post-stop {P = λ r. Unit {0}}
      (Post-bind (tokenize-Fueled input (length input) closed) λ tokens _.
        Post-bind (parse-Fueled tokens) λ prog _.
          Post-bind (sema_check-Fueled prog (type_env_init hashmap_new))
            λ (prog', s, ws) _. Post-bind (finish-Fueled opt tokens prog' s) λ o _. returns tt)
      k refl
