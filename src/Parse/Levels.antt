-- ===== src/Parse/Levels.antt =====
-- The ten parsers of binary operators as one family over the level.
use my_lang.Prelude.{ℕ, zero, suc, ◌≤◌, ◌≡◌, refl, Bool, false, List, [], ◌∷◌, get_or, ◌==◌, arith}
use my_lang.Lex.Token.{TokenType, type_eq, tok_ident}
use my_lang.Ast.{AstNode}
use my_lang.Parse.Stream.{Parser}
use my_lang.Parse.Expression.{
  binary_level, parse_cast_expression, is_multiplicative_op, is_additive_op, is_shift_op,
  is_relational_op, is_equality_op, is_and_op, is_xor_op, is_or_op, is_log_and_op, is_log_or_op,
  parse_multiplicative_expression, parse_additive_expression, parse_shift_expression,
  parse_relational_expression, parse_equality_expression, parse_and_expression,
  parse_xor_expression, parse_or_expression, parse_log_and_expression, parse_log_or_expression,
  parse_conditional_expression,
}
use my_lang.Parse.Grammar.{rank}

abbrev op_tests : List (TokenType → Bool)
op_tests =
    is_multiplicative_op ∷ is_additive_op ∷ is_shift_op ∷ is_relational_op ∷ is_equality_op
    ∷ is_and_op ∷ is_xor_op ∷ is_or_op ∷ is_log_and_op ∷ is_log_or_op ∷ []

-- The test of the loop at level `k + 1`.
abbrev pub op_test : ℕ → TokenType → Bool
op_test k = get_or op_tests k (λ _. false)

mult_rank : (t : TokenType) → is_multiplicative_op t ≡ (rank t == 1)
unfolding type_eq
mult_rank tok_ident = refl
mult_rank _ = refl

add_rank : (t : TokenType) → is_additive_op t ≡ (rank t == 2)
unfolding type_eq
add_rank tok_ident = refl
add_rank _ = refl

shift_rank : (t : TokenType) → is_shift_op t ≡ (rank t == 3)
unfolding type_eq
shift_rank tok_ident = refl
shift_rank _ = refl

relational_rank : (t : TokenType) → is_relational_op t ≡ (rank t == 4)
unfolding type_eq
relational_rank tok_ident = refl
relational_rank _ = refl

equality_rank : (t : TokenType) → is_equality_op t ≡ (rank t == 5)
unfolding type_eq
equality_rank tok_ident = refl
equality_rank _ = refl

and_rank : (t : TokenType) → is_and_op t ≡ (rank t == 6)
unfolding type_eq
and_rank tok_ident = refl
and_rank _ = refl

xor_rank : (t : TokenType) → is_xor_op t ≡ (rank t == 7)
unfolding type_eq
xor_rank tok_ident = refl
xor_rank _ = refl

or_rank : (t : TokenType) → is_or_op t ≡ (rank t == 8)
unfolding type_eq
or_rank tok_ident = refl
or_rank _ = refl

log_and_rank : (t : TokenType) → is_log_and_op t ≡ (rank t == 9)
unfolding type_eq
log_and_rank tok_ident = refl
log_and_rank _ = refl

log_or_rank : (t : TokenType) → is_log_or_op t ≡ (rank t == 10)
unfolding type_eq
log_or_rank tok_ident = refl
log_or_rank _ = refl

pub op_test-rank : (k : ℕ) → suc k ≤ 10 → (t : TokenType) → op_test k t ≡ (rank t == suc k)
op_test-rank zero h t = mult_rank t
op_test-rank (suc zero) h t = add_rank t
op_test-rank (suc (suc zero)) h t = shift_rank t
op_test-rank (suc (suc (suc zero))) h t = relational_rank t
op_test-rank (suc (suc (suc (suc zero)))) h t = equality_rank t
op_test-rank (suc (suc (suc (suc (suc zero))))) h t = and_rank t
op_test-rank (suc (suc (suc (suc (suc (suc zero)))))) h t = xor_rank t
op_test-rank (suc (suc (suc (suc (suc (suc (suc zero))))))) h t = or_rank t
op_test-rank (suc (suc (suc (suc (suc (suc (suc (suc zero)))))))) h t = log_and_rank t
op_test-rank (suc (suc (suc (suc (suc (suc (suc (suc (suc zero))))))))) h t = log_or_rank t
op_test-rank (suc (suc (suc (suc (suc (suc (suc (suc (suc (suc k)))))))))) h t =
    absurd (omega arith)

-- Level 0 is `parse_cast_expression`, level 10 `parse_log_or_expression`.
unfoldable pub level_parser : Parser AstNode → ℕ → Parser AstNode
level_parser pe zero = parse_cast_expression pe
level_parser pe (suc k) = binary_level (op_test k) (level_parser pe k)

pub conditional-level : (pe : Parser AstNode) → parse_conditional_expression pe ≡ level_parser pe 10
unfolding level_parser parse_conditional_expression parse_log_or_expression parse_log_and_expression
    parse_or_expression parse_xor_expression parse_and_expression parse_equality_expression
    parse_relational_expression parse_shift_expression parse_additive_expression
    parse_multiplicative_expression
conditional-level pe = refl
