-- ===== src/Driver/Tests.antt =====
-- Runs of the whole compiler.
use my_lang.Prelude.{
  ◌≢◌, ◌++◌, strcmp_eq, if◌then◌else◌, ◌||◌, ℕ, ◌≡◌, refl, false, Option, some, List, [], ◌∷◌,
  Outcome, ok, stop, Stop, bind, Bytes, bytes, length,
}
use my_lang.Lex.Tokenize.{lexer_program}
use my_lang.Parse.Expression.{expression_program}
use my_lang.Parse.Statement.{parser_program}
use my_lang.Asm.State.{make_riscv}
use my_lang.Symbol.{make_symtab_entry}
use my_lang.HashMap.Table.{hashmap_new, hashmap_add, hashmap_get, symtab_clone, bucket_index}
use my_lang.HashMap.Chain.{insert, find}
use my_lang.Sema.Scope.{enter_scope, exit_scope, scope_add, scope_lookup, in_scope, stackframe_add}
use my_lang.Sema.Program.{sema_check}
use my_lang.Asm.Gen.{gen_asm}
use my_lang.Driver.{
  CompilerOptions, Output, no_input, help, version, assembly, compile, compile_file, parse_args,
}
use my_lang.Driver.Ends.{compile_file-ne-out_of_fuel}
use my_lang.Driver.Arguments.{options_of, parse_args-compile}

abbrev source : Bytes
source =
    bytes "int add(int a, int b) { int c = a + b; return c; } int main() { return add(1, 2); }\n"

abbrev opt : CompilerOptions
opt = record { file_name = bytes "a.c"; dump_ast = false; dump_tokens = false }

count : Outcome (List Bytes × Output) → Outcome (ℕ × ℕ)
count r = bind r λ (warnings, o). elim o [
  | assembly ls ↦ ok (length warnings, length ls)
  | _ ↦ stop Stop.failure
]

compile_source : count (compile_file (λ _. some source) opt) ≡ ok (0, 72)
unfolding count compile_file lexer_program expression_program parser_program sema_check gen_asm
    make_riscv make_symtab_entry enter_scope exit_scope scope_add scope_lookup in_scope
    stackframe_add hashmap_new hashmap_add hashmap_get symtab_clone bucket_index insert find
compile_source = refl

abbrev files : Bytes → Option Bytes
files name = some source

compile_file-ne-out_of_fuel_example : compile_file files opt ≢ stop Stop.out_of_fuel
compile_file-ne-out_of_fuel_example = compile_file-ne-out_of_fuel files opt refl

parse_args-compile_example :
    (parse_args (bytes "my-lang" ∷ []) ≡ no_input)
    × (parse_args (bytes "my-lang" ∷ [] ++ bytes "a.c" ∷ []) ≡ (
        if strcmp_eq (bytes "-h") (bytes "a.c") || strcmp_eq (bytes "--help") (bytes "a.c")
        then help
        else if strcmp_eq (bytes "-v") (bytes "a.c") || strcmp_eq (bytes "--version") (bytes "a.c")
        then version
        else compile (options_of (bytes "my-lang") [] (bytes "a.c"))))
parse_args-compile_example = parse_args-compile (bytes "my-lang") [] (bytes "a.c")
