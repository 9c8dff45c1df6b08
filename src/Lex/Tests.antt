-- ===== src/Lex/Tests.antt =====
-- Runs of the lexer.
use my_lang.Prelude.{
  ℕ, ◌≡◌, refl, List, [], ◌∷◌, length, Bytes, bytes, Outcome, ok, stop, Stop, Post, Fueled, bind,
}
use my_lang.Lex.Token.{Token, number}
use my_lang.Lex.Tokenize.{tokenize, tokenize_loop, lexer_program}
use my_lang.Lex.Ends.{tokenize-Fueled, tokenize_loop_diverges}

types : List Token → List ℕ
types [] = []
types (t ∷ ts) = number t.type ∷ types ts

lex_types : Bytes → Outcome (List ℕ)
unfolding types lexer_program
lex_types s = bind (tokenize s (length s)) λ ts. ok (types ts)

lex_main :
    lex_types (bytes "int main(){ return x1 >= 042; } // end\n")
    ≡ ok (14 ∷ 0 ∷ 8 ∷ 9 ∷ 10 ∷ 16 ∷ 0 ∷ 34 ∷ 1 ∷ 12 ∷ 11 ∷ [])
unfolding lex_types
lex_main = refl

lex_bang : lex_types (bytes "a !") ≡ stop Stop.out_of_fuel
unfolding lex_types
lex_bang = refl

tokenize-Fueled_example : Post (λ _. Unit {0}) Fueled (tokenize (bytes "a = 1;") 6)
tokenize-Fueled_example = tokenize-Fueled (bytes "a = 1;") 6 refl

tokenize_loop_diverges_example :
    tokenize_loop 9 (record { input = bytes "a="; curr = 1; length = 2 }) 2 1
    ≡ stop Stop.out_of_fuel
tokenize_loop_diverges_example =
    tokenize_loop_diverges (record { input = bytes "a="; curr = 1; length = 2 }) refl refl 9 2 1
