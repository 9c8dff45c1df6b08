-- ===== src/Driver/Arguments.antt =====
-- main.c: what `parse_args` makes of the command line.
use my_lang.Prelude.{
  ◌≡◌, refl, ap, ◌∙◌, Bool, false, ◌||◌, List, [], ◌∷◌, ◌++◌, Bytes, bytes, strcmp_eq,
  if◌then◌else◌,
}
use my_lang.Driver.{
  CompilerOptions, no_input, help, version, compile, flag_given, last_arg, parse_args,
}

-- The flag is one of the arguments.
unfoldable pub holds_flag : Bytes → List Bytes → Bool
holds_flag flag [] = false
holds_flag flag (a ∷ args) = strcmp_eq flag a || holds_flag flag args

flag_given-last :
    (flag : Bytes) (args : List Bytes) (file : Bytes)
    → flag_given flag (args ++ file ∷ []) ≡ holds_flag flag args
unfolding flag_given holds_flag
flag_given-last flag [] file = refl
flag_given-last flag (a ∷ []) file = refl
flag_given-last flag (a ∷ b ∷ args) file =
    ap (λ r. strcmp_eq flag a || r) (flag_given-last flag (b ∷ args) file)

last_arg-last :
    (a : Bytes) (args : List Bytes) (file : Bytes) → last_arg a (args ++ file ∷ []) ≡ file
unfolding last_arg
last_arg-last a [] file = refl
last_arg-last a (b ∷ args) file = last_arg-last b args file

-- The first of the arguments, before the last one or that one itself.
abbrev pub first_of : List Bytes → Bytes → Bytes
first_of [] file = file
first_of (a ∷ args) file = a

-- The options of a compilation.
abbrev pub options_of : Bytes → List Bytes → Bytes → CompilerOptions
options_of program args file = record {
  file_name = file;
  dump_ast = holds_flag (bytes "-dump-ast") (program ∷ args);
  dump_tokens = holds_flag (bytes "-dump-tokens") (program ∷ args);
}

read_options :
    (program : Bytes) (args : List Bytes) (file last : Bytes)
    → last ≡ file
    → compile (record {
      file_name = last;
      dump_ast = flag_given (bytes "-dump-ast") (program ∷ args ++ file ∷ []);
      dump_tokens = flag_given (bytes "-dump-tokens") (program ∷ args ++ file ∷ []);
    })
      ≡ compile (options_of program args file)
read_options program args file last e = ap compile (
    ap
      (λ f. record {
        file_name = f;
        dump_ast = flag_given (bytes "-dump-ast") (program ∷ args ++ file ∷ []);
        dump_tokens = flag_given (bytes "-dump-tokens") (program ∷ args ++ file ∷ []);
      })
      e
    ∙ ap
        (λ b. record {
          file_name = file;
          dump_ast = b;
          dump_tokens = flag_given (bytes "-dump-tokens") (program ∷ args ++ file ∷ []);
        })
        (flag_given-last (bytes "-dump-ast") (program ∷ args) file)
    ∙ ap
        (λ b. record {
          file_name = file;
          dump_ast = holds_flag (bytes "-dump-ast") (program ∷ args);
          dump_tokens = b;
        })
        (flag_given-last (bytes "-dump-tokens") (program ∷ args) file))

-- Without an argument, one is asked for. With one or more, the help text is printed where the first is `-h`
-- or `--help`, and the version where it is `-v` or `--version`; else the last, which may be the first,
-- names the file to compile, whatever it is, and a flag is set when it is among the others or the name of
-- the program.
pub parse_args-compile :
    (program : Bytes) (args : List Bytes) (file : Bytes)
    → (parse_args (program ∷ []) ≡ no_input)
      × (parse_args (program ∷ args ++ file ∷ []) ≡ (
          if strcmp_eq (bytes "-h") (first_of args file)
            || strcmp_eq (bytes "--help") (first_of args file)
          then help
          else if strcmp_eq (bytes "-v") (first_of args file)
              || strcmp_eq (bytes "--version") (first_of args file)
          then version
          else compile (options_of program args file)))
unfolding parse_args
parse_args-compile program [] file = (
  refl,
  ap
      (λ r.
        if strcmp_eq (bytes "-h") file || strcmp_eq (bytes "--help") file
        then help
        else if strcmp_eq (bytes "-v") file || strcmp_eq (bytes "--version") file
        then version
        else r)
      (read_options program [] file (last_arg file []) (last_arg-last file [] file)),
)
parse_args-compile program (a ∷ args) file = (
  refl,
  ap
      (λ r.
        if strcmp_eq (bytes "-h") a || strcmp_eq (bytes "--help") a
        then help
        else if strcmp_eq (bytes "-v") a || strcmp_eq (bytes "--version") a
        then version
        else r)
      (read_options program (a ∷ args) file (last_arg a (args ++ file ∷ []))
        (last_arg-last a args file)),
)
