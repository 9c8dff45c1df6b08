-- ===== src/Driver.antt =====
-- main.c: the command line and the order of the passes. The file system is a function from a name to the
-- bytes of the file, if there is one; what is printed or written is the result.
pub mod Ends
pub mod Arguments
mod Tests
use my_lang.Prelude.{
  ℕ, Bool, true, false, ◌||◌, Option, none, some, List, [], ◌∷◌, length, Outcome, ok, stop, bind,
  Bytes, bytes, strcmp_eq, if◌then◌else◌,
}
use my_lang.Lex.Token.{Token}
use my_lang.Lex.Tokenize.{tokenize}
use my_lang.Ast.{AstNode}
use my_lang.Parse.Statement.{parse}
use my_lang.HashMap.Table.{hashmap_new}
use my_lang.Sema.State.{Sema}
use my_lang.Sema.Program.{type_env_init, sema_check}
use my_lang.Asm.Target.{Line}
use my_lang.Asm.Gen.{gen_asm}

pub record CompilerOptions : Type 0 where
  pub file_name : Bytes
  pub dump_ast : Bool
  pub dump_tokens : Bool

-- What `parse_args` leaves: a text was printed and the program has ended, or the options.
pub data Command : Type 0 where
  no_input help version : Command
  compile : CompilerOptions → Command

-- The flag stands among the arguments before the last: the loop runs to `argc - 1`.
unfoldable pub flag_given : Bytes → List Bytes → Bool
flag_given flag [] = false
flag_given flag (a ∷ []) = false
flag_given flag (a ∷ b ∷ rest) = strcmp_eq flag a || flag_given flag (b ∷ rest)

-- `argv[argc - 1]`
unfoldable pub last_arg : Bytes → List Bytes → Bytes
last_arg a [] = a
last_arg a (b ∷ rest) = last_arg b rest

-- `argv` begins with the name of the program.
unfoldable pub parse_args : List Bytes → Command
unfolding flag_given last_arg
parse_args [] = no_input
parse_args (program ∷ []) = no_input
parse_args (program ∷ a ∷ rest) =
    if strcmp_eq (bytes "-h") a || strcmp_eq (bytes "--help") a
    then help
    else if strcmp_eq (bytes "-v") a || strcmp_eq (bytes "--version") a
    then version
    else compile (record {
      file_name = last_arg a rest;
      dump_ast = flag_given (bytes "-dump-ast") (program ∷ a ∷ rest);
      dump_tokens = flag_given (bytes "-dump-tokens") (program ∷ a ∷ rest);
    })

pub data Output : Type 0 where
  printed_tokens : List Token → Output
  printed_tree : List AstNode → Output
  assembly : List Line → Output

-- `read_file` returns NULL for a file that is not there, and the length stays 0.
abbrev pub contents : Option Bytes → Bytes
contents none = []
contents (some input) = input

-- Behind the passes: the tokens or the tree are printed, or the code is written.
unfoldable pub finish : CompilerOptions → List Token → List AstNode → Sema → Outcome Output
unfolding gen_asm
finish opt tokens prog s =
    if opt.dump_tokens
    then ok (printed_tokens tokens)
    else if opt.dump_ast
    then ok (printed_tree prog)
    else bind (gen_asm prog s.entries s.frames) (λ lines. ok (assembly lines))

-- `my_lang`: the output behind the warnings.
unfoldable pub compile_file :
    (Bytes → Option Bytes) → CompilerOptions → Outcome (List Bytes × Output)
unfolding finish tokenize parse type_env_init sema_check
compile_file read_file opt =
    let input = contents (read_file opt.file_name) in
    bind (tokenize input (length input)) λ tokens. bind (parse tokens) λ prog.
      bind (sema_check prog (type_env_init hashmap_new))
        λ (prog', s, warnings). bind (finish opt tokens prog' s) λ output. ok (warnings, output)
