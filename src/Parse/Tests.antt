-- ===== src/Parse/Tests.antt =====
-- Runs of the lexer and the parser together.
use my_lang.Prelude.{
  ◌≡◌, ◌≢◌, ◌≤◌, ◌++◌, refl, Post, Fueled, arith, none, List, [], ◌∷◌, length, Bytes, bytes,
  Outcome, ok, stop, Stop, bind,
}
use my_lang.Prelude.Int.{ℤ, pos}
use my_lang.Lex.Token.{tok_add, tok_mult, tok_num, tok_semicolon}
use my_lang.Lex.Tokenize.{tokenize, lexer_program}
use my_lang.Ast.{AstNode, func_def, comp_stmt, node, no_nodes, ret, bin_exp, int_const}
use my_lang.Parse.Expression.{expression, parse_expression, expression_program}
use my_lang.Util.{str2int, success}
use my_lang.Parse.Stream
use my_lang.Parse.Stream.{Tokens}
use my_lang.Parse.Indexed
use my_lang.Util.Refines.{vector_of}
use my_lang.Parse.Indexed.{TokenStream, IsStream, remaining, IsStream-remaining}
use my_lang.Parse.Grammar.{
  Spelling, of, number, primary, Binary, unary, tighter, operation, Expr, conditional,
}
use my_lang.Parse.Complete.{expression-Derives}
use my_lang.Parse.Total.{parse_expression-Fueled}
use my_lang.Parse.ProgramTotal.{parse-ne-out_of_fuel}
use my_lang.Parse.Statement.{parse, parser_program}

compile_front : Bytes → Outcome (List AstNode)
unfolding lexer_program expression_program parser_program
compile_front s = bind (tokenize s (length s)) parse

abbrev main_tree : List AstNode
main_tree =
    func_def (bytes "main") (bytes "int")
      (comp_stmt (
        node
          (ret
            (bin_exp (bytes "+") tok_add (int_const (pos 1))
              (bin_exp (bytes "*") tok_mult (int_const (pos 2)) (int_const (pos 3))))
            none)
          no_nodes))
      [] none
    ∷ []

front_main : compile_front (bytes "int main(){ return 1 + 2 * 3; }") ≡ ok main_tree
unfolding compile_front
front_main = refl

-- The closing brace may be missing at the end of the input.
front_unclosed : compile_front (bytes "int main(){ return 1 + 2 * 3;") ≡ ok main_tree
unfolding compile_front
front_unclosed = refl

abbrev spell : Bytes → Spelling
spell text = (text, 1, 1)

-- `1 + 2 * 3`
abbrev sum_tokens : Tokens
sum_tokens =
    of tok_num (spell (bytes "1"))
    ∷ of tok_add (spell (bytes "+"))
    ∷ of tok_num (spell (bytes "2"))
    ∷ of tok_mult (spell (bytes "*"))
    ∷ of tok_num (spell (bytes "3"))
    ∷ []

abbrev sum_tree : AstNode
sum_tree =
    bin_exp (bytes "+") tok_add (int_const (pos 1))
      (bin_exp (bytes "*") tok_mult (int_const (pos 2)) (int_const (pos 3)))

abbrev semicolon : Tokens
semicolon = of tok_semicolon (spell (bytes ";")) ∷ []

one_number :
    (text : Bytes) (n : ℤ)
    → str2int text ≡ success n
    → Binary 0 (of tok_num (spell text) ∷ []) (int_const n)
one_number text n e = unary (primary (number (spell text) n e))

sum_derivation : Expr sum_tokens sum_tree
unfolding str2int
sum_derivation = conditional (
    tighter (
      tighter (
        tighter (
          tighter (
            tighter (
              tighter (
                tighter (
                  tighter (
                    operation tok_add (spell (bytes "+")) refl
                      (tighter (tighter (one_number (bytes "1") (pos 1) refl)))
                      (operation tok_mult (spell (bytes "*")) refl
                        (tighter (one_number (bytes "2") (pos 2) refl))
                        (one_number (bytes "3") (pos 3) refl)))))))))))

expression-Derives_example : expression (sum_tokens ++ semicolon) ≡ ok (sum_tree, semicolon)
expression-Derives_example = expression-Derives semicolon sum_derivation (omega arith)

parse_expression-Fueled_example :
    Post (λ (_, us). length us ≤ 5) Fueled (parse_expression 6 sum_tokens)
parse_expression-Fueled_example = parse_expression-Fueled 6 sum_tokens (omega arith)

parse-ne-out_of_fuel_example : parse sum_tokens ≢ stop Stop.out_of_fuel
parse-ne-out_of_fuel_example = parse-ne-out_of_fuel sum_tokens

abbrev sum_stream : TokenStream
sum_stream = record { tokens = vector_of sum_tokens (none ∷ []); current = 1 }

sum_stream-IsStream : IsStream sum_stream sum_tokens
sum_stream-IsStream = record {
  holds = record { rest = none ∷ []; same = refl; some_cell = omega arith };
  place = omega arith;
}

IsStream-remaining_example :
    (Indexed.current_token sum_stream ≡ ok (Stream.current_token (remaining sum_stream sum_tokens)))
    × (Indexed.peek sum_stream 9 ≡ ok (Stream.peek (remaining sum_stream sum_tokens) 9))
    × (remaining (Indexed.next_token sum_stream) sum_tokens
        ≡ Stream.next_token (remaining sum_stream sum_tokens))
    × IsStream (Indexed.next_token sum_stream) sum_tokens
IsStream-remaining_example = IsStream-remaining sum_stream sum_tokens 9 sum_stream-IsStream
