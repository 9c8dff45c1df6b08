-- ===== src/Parse/Steps.antt =====
-- Single calls of the expression parser at the tokens that the grammar derives.
use my_lang.Prelude.{
  ℕ, zero, suc, ◌+◌, ◌≤◌, ◌<◌, ◌≡◌, refl, ◌∙◌, false, none, ◌∷◌, ◌++◌, length, arith, ok, ==_iff,
}
use my_lang.Prelude.Int.{ℤ}
use my_lang.Util.{success, str2int}
use my_lang.Lex.Token.{
  Token, TokenType, type_eq, tok_ident, tok_num, tok_lparen, tok_rparen, tok_not, tok_assign,
}
use my_lang.Ast.{
  AstNode, Nodes, no_nodes, bin_exp, int_const, ident, func_call, unary_expr, var_asgn, lval,
}
use my_lang.Parse.Stream.{
  Tokens, Parser, current_token, next_token, peek, type_of, deref, expect, both_types,
}
use my_lang.Parse.Expression.{
  is_func_call_start, is_var_asgn, args_loop, parse_func_call, parse_ident, literal,
  parse_primary_expression, parse_postfix_expression, parse_unary_expression, parse_cast_expression,
  binary_level, parse_var_asgn, parse_expression,
}
use my_lang.Parse.Grammar.{rank, of, Spelling, Primary, number, variable, call_empty, call, parens}
use my_lang.Parse.Levels.{op_test, op_test-rank, level_parser, conditional-level}
use my_lang.Parse.Operands.{finish, loop_true, not_lparen}

pub cast-primary :
    {ts : Tokens} {e : AstNode} (pe : Parser AstNode) (rest : Tokens)
    → Primary ts e
    → parse_cast_expression pe (ts ++ rest) ≡ parse_primary_expression pe (ts ++ rest)
unfolding parse_cast_expression parse_unary_expression parse_postfix_expression deref current_token
    type_eq
cast-primary pe rest (number s n h) = refl
cast-primary pe rest (variable s) = refl
cast-primary pe rest (call_empty s l r) = refl
cast-primary pe rest (call s l r a) = refl
cast-primary pe rest (parens l r a) = refl

pub level_step :
    (pe : Parser AstNode) (k : ℕ) (ts : Tokens) (e : AstNode) (rest : Tokens)
    → level_parser pe k ts ≡ ok (e, rest)
    → level_parser pe (suc k) ts ≡ finish pe (suc k) (suc (length rest)) e rest
unfolding level_parser binary_level
level_step pe k ts e rest p = rw p

-- The loop of level `k + 1` at one of its operators.
pub loop_operation :
    (pe : Parser AstNode) (k g : ℕ) (o : TokenType) (s : Spelling) (e e' : AstNode)
    (us rest : Tokens)
    → suc k ≤ 10
    → rank o ≡ suc k
    → length (us ++ rest) + 1 < g
    → length rest ≤ length (us ++ rest)
    → level_parser pe k (us ++ rest) ≡ ok (e', rest)
    → (f : ℕ) × (length rest < f)
      × (finish pe (suc k) g e (of o s ∷ (us ++ rest))
          ≡ finish pe (suc k) f (bin_exp s.0 o e e') rest)
loop_operation pe k zero o s e e' us rest h r l m p = absurd (omega arith)
loop_operation pe k (suc g) o s e e' us rest h r l m p = (
  g,
  omega arith,
  loop_true (op_test k) (level_parser pe k) g e (of o s) (us ++ rest)
        (rw (op_test-rank k h o) ((==_iff (rank o) (suc k)).1 r))
      ∙ rw p refl,
)

module _ (pe : Parser AstNode) (rest : Tokens) where
  pub number_step :
      (s : Spelling) (n : ℤ)
      → str2int s.0 ≡ success n
      → parse_primary_expression pe (of tok_num s ∷ rest) ≡ ok (int_const n, rest)
  unfolding parse_primary_expression type_eq literal
  number_step s n h = rw (h, literal)

  pub call_empty_step :
      (s a b : Spelling)
      → parse_primary_expression pe (of tok_ident s ∷ of tok_lparen a ∷ of tok_rparen b ∷ rest)
        ≡ ok (func_call s.0 no_nodes none, rest)
  unfolding parse_primary_expression type_eq parse_ident parse_func_call is_func_call_start
      both_types peek type_of deref current_token expect args_loop
  call_empty_step s a b = refl

  pub call_step :
      (s a b : Spelling) (ts : Tokens) (es : Nodes)
      → args_loop pe (suc (length ts)) ts ≡ ok (es, of tok_rparen b ∷ rest)
      → parse_primary_expression pe (of tok_ident s ∷ of tok_lparen a ∷ ts)
        ≡ ok (func_call s.0 es none, rest)
  unfolding parse_primary_expression type_eq parse_ident parse_func_call is_func_call_start
      both_types peek type_of deref current_token expect
  call_step s a b ts es p = rw p

  pub parens_step :
      (a b : Spelling) (ts : Tokens) (e : AstNode)
      → pe ts ≡ ok (e, of tok_rparen b ∷ rest)
      → parse_primary_expression pe (of tok_lparen a ∷ ts) ≡ ok (e, rest)
  unfolding parse_primary_expression type_eq expect
  parens_step a b ts e p = rw p

  pub negation_step :
      (s : Spelling) (ts : Tokens) (e : AstNode)
      → parse_primary_expression pe ts ≡ ok (e, rest)
      → parse_cast_expression pe (of tok_not s ∷ ts) ≡ ok (unary_expr e s.0 tok_not, rest)
  unfolding parse_cast_expression parse_unary_expression parse_postfix_expression deref
      current_token type_eq next_token
  negation_step s ts e p = rw p

pub variable_step :
    (pe : Parser AstNode) (s : Spelling) (t : Token) (rest : Tokens)
    → 0 < rank t.type
    → parse_primary_expression pe (of tok_ident s ∷ t ∷ rest) ≡ ok (ident s.0 none, t ∷ rest)
unfolding parse_primary_expression parse_ident is_func_call_start both_types peek type_of deref
    current_token next_token type_eq
variable_step pe s t rest f = rw (not_lparen t.type f)

pub conditional_step :
    (n : ℕ) (ts : Tokens) (r : AstNode × Tokens)
    → is_var_asgn ts ≡ ok false
    → level_parser (parse_expression n) 10 ts ≡ ok r
    → parse_expression (suc n) ts ≡ ok r
unfolding parse_expression
conditional_step n ts r a p = rw (a, conditional-level) p

pub assignment_step :
    (n : ℕ) (s a : Spelling) (ts rest : Tokens) (e : AstNode)
    → parse_expression n ts ≡ ok (e, rest)
    → parse_expression (suc n) (of tok_ident s ∷ of tok_assign a ∷ ts)
      ≡ ok (var_asgn (lval (ident s.0 none)) e, rest)
unfolding parse_expression parse_var_asgn parse_ident is_func_call_start is_var_asgn both_types peek
    type_of deref current_token next_token type_eq expect
assignment_step n s a ts rest e p = rw p

pub level_zero :
    (pe : Parser AstNode) (ts : Tokens) → level_parser pe 0 ts ≡ parse_cast_expression pe ts
unfolding level_parser
level_zero pe ts = refl
