-- ===== src/Parse/Expression.antt =====
-- parse.c: expressions. A parser that calls `parse_expression` again takes it as the argument `pe`.
use my_lang.Prelude.{
  ℕ, zero, suc, Bool, true, false, ◌||◌, [], ◌∷◌, length, if◌then◌else◌, Outcome, ok, stop, Stop,
  bind,
}
use my_lang.Lex.Token.{
  Token, TokenType, type_eq, tok_ident, tok_num, tok_add, tok_sub, tok_mult, tok_div, tok_lparen,
  tok_rparen, tok_assign, tok_comma, tok_equal, tok_not_equal, tok_not, tok_and, tok_or, tok_xor,
  tok_log_or, tok_log_and, tok_lshift, tok_rshift, tok_gt, tok_lt, tok_gt_eq, tok_lt_eq,
}
use my_lang.Util.{success, error, str2int}
use my_lang.Ast.{
  AstNode, Nodes, no_nodes, node, empty_expr, make_int_const, make_ast_ident, make_ast_bin_exp,
  make_ast_unary_expr, make_ast_func_call, make_ast_var_asgn, make_ast_lval,
}
use my_lang.Parse.Stream.{
  Tokens, Parser, current_token, next_token, type_of, deref, expect, both_types, three_types,
}

unfoldable pub is_func_call_start : Tokens → Outcome Bool
is_func_call_start ts = both_types tok_ident tok_lparen ts

unfoldable pub is_var_asgn : Tokens → Outcome Bool
is_var_asgn ts = both_types tok_ident tok_assign ts

abbrev pub is_unary_op : TokenType → Bool
is_unary_op op_type = type_eq op_type tok_not

-- `str2int` leaves `lit` indeterminate where it fails.
unfoldable pub literal : Token → Tokens → Outcome (AstNode × Tokens)
literal t ts = elim (str2int t.value) [
  | success lit ↦ ok (make_int_const lit, ts)
  | error _ ↦ stop Stop.undefined
]

module _ (pe : Parser AstNode) where
  -- The loop over the arguments of a call.
  unfoldable pub args_loop : ℕ → Parser Nodes
  args_loop zero ts = stop Stop.out_of_fuel
  args_loop (suc f) ts = bind (type_of (current_token ts)) λ t. elim (type_eq t tok_rparen) [
    | true ↦ ok (no_nodes, ts)
    | false ↦ bind (pe ts) λ (expr, ts₁). bind (type_of (current_token ts₁)) λ t₁.
        elim (type_eq t₁ tok_rparen) [
          | true ↦ ok (node expr no_nodes, ts₁)
          | false ↦
              bind (expect tok_comma ts₁)
                λ (_, ts₂). bind (args_loop f ts₂) λ (args, ts₃). ok (node expr args, ts₃)
        ]
  ]

  unfoldable pub parse_func_call : Parser AstNode
  parse_func_call ts = bind (expect tok_ident ts) λ (name, ts₁). bind (deref name) λ t.
      bind (expect tok_lparen ts₁) λ (_, ts₂).
        bind (args_loop (suc (length ts₂)) ts₂) λ (args, ts₃).
          bind (expect tok_rparen ts₃) λ (_, ts₄). ok (make_ast_func_call t.value args, ts₄)

  unfoldable pub parse_ident : Parser AstNode
  parse_ident ts = bind (deref (current_token ts)) λ t.
      bind (is_func_call_start ts)
        λ call. if call then parse_func_call ts else ok (make_ast_ident t.value, next_token ts)

  -- Where no expression begins an empty one is returned, and nothing is read.
  unfoldable pub parse_primary_expression : Parser AstNode
  parse_primary_expression [] = ok (empty_expr, [])
  parse_primary_expression (t ∷ ts) =
      if type_eq t.type tok_num
      then literal t ts
      else if type_eq t.type tok_ident
      then parse_ident (t ∷ ts)
      else if type_eq t.type tok_lparen
      then bind (pe ts) (λ (inner, ts₁). bind (expect tok_rparen ts₁) (λ (_, ts₂). ok (inner, ts₂)))
      else ok (empty_expr, t ∷ ts)

  unfoldable pub parse_postfix_expression : Parser AstNode
  parse_postfix_expression ts = parse_primary_expression ts

  unfoldable pub parse_unary_expression : Parser AstNode
  parse_unary_expression ts = bind (deref (current_token ts)) λ t.
      if is_unary_op t.type
      then bind (parse_postfix_expression (next_token ts))
          (λ (e, ts₁). ok (make_ast_unary_expr e t.value t.type, ts₁))
      else parse_postfix_expression ts

  unfoldable pub parse_cast_expression : Parser AstNode
  parse_cast_expression ts = parse_unary_expression ts

-- The loop that the ten parsers of binary operators share: while an operator stands at the front, its
-- right side is read by the parser of the next tighter level, and the two sides are joined.
unfoldable pub binary_loop : (TokenType → Bool) → Parser AstNode → ℕ → AstNode → Parser AstNode
binary_loop test sub zero left ts = stop Stop.out_of_fuel
binary_loop test sub (suc f) left [] = ok (left, [])
binary_loop test sub (suc f) left (t ∷ ts) = elim (test t.type) [
  | true ↦
      bind (sub ts)
        λ (right, ts₁). binary_loop test sub f (make_ast_bin_exp t.value t.type left right) ts₁
  | false ↦ ok (left, t ∷ ts)
]

-- The left side, then the loop.
unfoldable pub binary_level : (TokenType → Bool) → Parser AstNode → Parser AstNode
binary_level test sub ts =
    bind (sub ts) λ (left, ts₁). binary_loop test sub (suc (length ts₁)) left ts₁

abbrev pub is_multiplicative_op : TokenType → Bool
is_multiplicative_op t = type_eq t tok_mult || type_eq t tok_div

abbrev pub is_additive_op : TokenType → Bool
is_additive_op t = type_eq t tok_add || type_eq t tok_sub

abbrev pub is_shift_op : TokenType → Bool
is_shift_op t = type_eq t tok_lshift || type_eq t tok_rshift

abbrev pub is_relational_op : TokenType → Bool
is_relational_op t =
    type_eq t tok_gt || type_eq t tok_lt || type_eq t tok_gt_eq || type_eq t tok_lt_eq

abbrev pub is_equality_op : TokenType → Bool
is_equality_op t = type_eq t tok_not_equal || type_eq t tok_equal

abbrev pub is_and_op : TokenType → Bool
is_and_op t = type_eq t tok_and

abbrev pub is_xor_op : TokenType → Bool
is_xor_op t = type_eq t tok_xor

abbrev pub is_or_op : TokenType → Bool
is_or_op t = type_eq t tok_or

abbrev pub is_log_and_op : TokenType → Bool
is_log_and_op t = type_eq t tok_log_and

abbrev pub is_log_or_op : TokenType → Bool
is_log_or_op t = type_eq t tok_log_or

module _ (pe : Parser AstNode) where
  unfoldable pub parse_multiplicative_expression : Parser AstNode
  parse_multiplicative_expression = binary_level is_multiplicative_op (parse_cast_expression pe)

  unfoldable pub parse_additive_expression : Parser AstNode
  parse_additive_expression = binary_level is_additive_op parse_multiplicative_expression

  unfoldable pub parse_shift_expression : Parser AstNode
  parse_shift_expression = binary_level is_shift_op parse_additive_expression

  unfoldable pub parse_relational_expression : Parser AstNode
  parse_relational_expression = binary_level is_relational_op parse_shift_expression

  unfoldable pub parse_equality_expression : Parser AstNode
  parse_equality_expression = binary_level is_equality_op parse_relational_expression

  unfoldable pub parse_and_expression : Parser AstNode
  parse_and_expression = binary_level is_and_op parse_equality_expression

  unfoldable pub parse_xor_expression : Parser AstNode
  parse_xor_expression = binary_level is_xor_op parse_and_expression

  unfoldable pub parse_or_expression : Parser AstNode
  parse_or_expression = binary_level is_or_op parse_xor_expression

  unfoldable pub parse_log_and_expression : Parser AstNode
  parse_log_and_expression = binary_level is_log_and_op parse_or_expression

  unfoldable pub parse_log_or_expression : Parser AstNode
  parse_log_or_expression = binary_level is_log_or_op parse_log_and_expression

  unfoldable pub parse_conditional_expression : Parser AstNode
  parse_conditional_expression = parse_log_or_expression

  unfoldable pub parse_var_asgn : Parser AstNode
  parse_var_asgn ts = bind (parse_ident pe ts) λ (ident_node, ts₁).
      bind (expect tok_assign ts₁) λ (_, ts₂).
        bind (pe ts₂) λ (rval, ts₃). ok (make_ast_var_asgn (make_ast_lval ident_node) rval, ts₃)

-- The fuel bounds how deep expressions nest.
unfoldable pub parse_expression : ℕ → Parser AstNode
parse_expression zero ts = stop Stop.out_of_fuel
parse_expression (suc f) ts = bind (is_var_asgn ts) λ asgn. elim asgn [
  | true ↦ parse_var_asgn (parse_expression f) ts
  | false ↦ parse_conditional_expression (parse_expression f) ts
]

-- An expression nests less deep than the tokens that remain are many.
abbrev pub expression : Parser AstNode
expression ts = parse_expression (suc (length ts)) ts

-- What a run of the expression parser unfolds.
unfoldable pub expression_program : Unit {0}
unfolding parse_expression parse_var_asgn parse_conditional_expression parse_log_or_expression
    parse_log_and_expression parse_or_expression parse_xor_expression parse_and_expression
    parse_equality_expression parse_relational_expression parse_shift_expression
    parse_additive_expression parse_multiplicative_expression binary_level binary_loop
    parse_cast_expression parse_unary_expression parse_postfix_expression parse_primary_expression
    literal parse_ident parse_func_call args_loop is_var_asgn is_func_call_start current_token
    next_token type_of deref expect both_types three_types str2int type_eq
expression_program = tt
