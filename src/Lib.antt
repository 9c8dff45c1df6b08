-- ===== src/Lib.antt =====
-- A compiler for a small C-like language, written in C (src/*.c, include/mylang/*.h). It reads a
-- program, lexes it, parses it, checks names and types, and writes RISC-V assembly.
--
-- The parts, in the order in which a program goes through them:
--   Util      src/util.c: numbers from text and text from numbers; RoundTrip is about
--             the one behind the other. Vector has the growing array and Refines is about it as a list;
--             Strings has the strings over it and Copies is about them as lists of characters.
--   Lex       src/lex.c: `tokenize` and what it calls. Token has the types of tokens, Scan the character
--             stream and the tokens of more than one kind of character, Tokenize the main loop; Total
--             and Ends are about its termination.
--   Ast       include/mylang/ast.h and src/ast.c: the syntax tree and the functions that make its nodes.
--   Parse     src/parse.c: Stream has the functions over the tokens that remain, Indexed the vector and
--             the place in it that the program keeps; Expression and Statement have the parser, a
--             function for each of the source's; Grammar is a specification of expressions;
--             Levels, Operands, Steps and Complete are about the parser and the grammar; Total
--             and ProgramTotal are about its termination.
--   HashMap   src/hashmap.c: chains, the hash function and the table; Index is about the index of a
--             key, Lookup about what is found, Clone about `symtab_clone`.
--   Symbol    include/mylang/hashmap.h: symbol table entries, stack frames and types by name. Entries and
--             frames are shared by pointer in the program and stand in stores here: a pointer is the
--             place in the store.
--   Sema      src/sema.c. Scope has scopes and stack frames, Lookup what names stand for; State the stores
--             and the steps on them, Names `sym_check`, Types `type_check`, Program `warn_unused` and
--             `sema_check`. Later is about what a later state keeps of an earlier one, Resolved about
--             trees whose pointers are set, Steps, Walk and Entries about the pieces of the walk, Binding
--             and Bound about the walk itself, Sound about `type_check` behind it, Accepted about programs
--             that come through, Blocks about the scope behind a block, Leak about parameters, Erase
--             about the tree without pointers, Slots, Stacking, Taking and Locals about the words of a
--             stack frame, Warnings about `warn_unused`, TypeNames about the names of types.
--   Asm       src/asm.c: the code generator. Target has the lines of assembly, State the struct `RISCV`
--             with the stores that the generator reads, Eval the code of expressions, Gen that of
--             statements and functions; Flags, Registers, Balance and Statements are about the
--             registers in use, Frame about the stack frame. Machine says what the lines do on a machine
--             of RV32IM, Meaning what an expression means; Code, Pieces, Operators, Logic, Shortcut,
--             Values, Compute and Correct are about the machine in the code of an expression, Enough and
--             Suffices about the registers that it needs, Runs about both. Labels, Adding, Extending, Starts
--             and Bodies are about the lines that are added and the numbers of their labels; Executes
--             says what a statement does, and Places, Branches, Conditions, ForLoops, Follows, Rounds and
--             StatementRuns are about the machine in its code.
--   Driver    src/main.c: the command line (`parse_args`), about which Arguments is, and the order of the
--             passes (`my_lang`, here `compile_file`), about whose termination Ends is. The file
--             system is a parameter, a function from a name to the bytes of the file, if there is one.
--   Prelude   shared names, lists over native numbers, outcomes of a run and postconditions on them, and
--             state passing with outcomes.
--
-- A run ends with a value or with the reason for which there is none: a message and `exit(1)`, a NULL
-- pointer that is read through, other undefined behaviour, or fuel that is used up, which has no
-- counterpart in the program. Loops that read characters or tokens run on fuel: one more than the length
-- of the input. The recursion of the parser runs on one more than the number of tokens. The generator
-- recurses on the tree and needs no fuel.
--
-- Integers: `hash` is computed modulo 2^64 and the `int` that keeps it modulo 2^32; a number of the
-- program that does not fit an `int` is undefined behaviour in `tokenize_digit`. Sizes and places
-- (`size_t`) are natural numbers: they count characters, tokens and words of stack, and do not wrap
-- around below 2^64. Where the source subtracts from them, something was added before.
--
-- `sym_check` writes to the tree in place: here the tree with its pointers set is returned. Vectors are
-- modelled by themselves, Indexed reads the tokens from one, and they are lists in the other parts. Scopes and
-- tables are values: that a new scope has a table of its own, and shares none with its parent, is how
-- `enter_scope` is written here and is not a theorem.
--
-- The machine on which the generated lines are run is written down from the instruction set, not from
-- the source: registers and memory hold words of 32 bits, an address of code is a place in the list of
-- lines, an immediate has twelve bits with a sign and a line with a larger one is none, and memory is
-- addressed by the words that the code itself computes. The name of a function is a label too, and may be
-- the text of a label that the generator makes. Where the code and C differ nothing is said of runs, but for
-- the missing jump of an `if` with an `else`: an assignment to a parameter goes elsewhere, and an operand of
-- `&&` or `||` that C skips is evaluated. Calls, `return` and a `for` without a condition are outside too.
--
-- Not modelled: memory, which does not run out (include/mylang/arena.h is a copy of another project's
-- allocator; `str_clone` and `context_alloc` only allocate); printing (`dump_tokens`, `_print_ast`, the
-- help texts); reading and writing files.
pub mod Prelude
pub mod Util
pub mod Lex
pub mod HashMap
pub mod Ast
pub mod Parse
pub mod Symbol
pub mod Asm
pub mod Sema
pub mod Driver
