-- ===== src/Parse/Statement.antt =====
-- parse.c: declarations, statements, functions and the program. A parser that calls `parse_statement`
-- again takes it as the argument `ps`.
use my_lang.Prelude.{
  ℕ, zero, suc, Bool, true, false, not, ◌||◌, none, List, [], ◌∷◌, length, if◌then◌else◌, Bytes,
  Outcome, ok, stop, Stop, bind,
}
use my_lang.Lex.Token.{
  Token, TokenType, type_eq, tok_ident, tok_lparen, tok_rparen, tok_lbrace, tok_rbrace,
  tok_semicolon, tok_assign, tok_type, tok_comma, tok_return, tok_if, tok_else, tok_enum, tok_while,
  tok_for,
}
use my_lang.Ast.{
  AstNode, Nodes, no_nodes, node, MaybeNode, null, just, Param, make_expr_stmt, make_ast_enum,
  make_ast_comp_stmt, make_ast_func_def, make_ast_ret, make_ast_var_dec, make_ast_var_def,
  make_ast_if_else, make_ast_while, make_ast_for,
}
use my_lang.Parse.Stream.{
  Tokens, Parser, current_token, next_token, type_of, deref, expect, three_types,
}
use my_lang.Parse.Expression.{expression}

-- `current->type` of a token that is tested for NULL first.
unfoldable pub stands : TokenType → Tokens → Bool
stands want [] = false
stands want (t ∷ ts) = type_eq t.type want

unfoldable pub stands_other : TokenType → Tokens → Bool
stands_other want [] = false
stands_other want (t ∷ ts) = not (type_eq t.type want)

unfoldable pub is_var_def_start : Tokens → Outcome Bool
is_var_def_start ts = three_types tok_type tok_ident tok_assign ts

unfoldable pub is_var_dec : Tokens → Outcome Bool
is_var_dec ts = three_types tok_type tok_ident tok_semicolon ts

unfoldable pub is_declartion : Tokens → Outcome Bool
is_declartion ts = bind (is_var_dec ts) λ b. if b then ok true else is_var_def_start ts

-- Two tokens that are read through: a type and a name.
unfoldable pub typed_name : Parser (Token × Token)
typed_name ts = bind (expect tok_type ts) λ (t, ts₁).
    bind (expect tok_ident ts₁)
      λ (n, ts₂). bind (deref n) λ name. bind (deref t) λ type. ok ((type, name), ts₂)

unfoldable pub parse_var_dec : Parser AstNode
parse_var_dec ts = bind (typed_name ts) λ ((type, name), ts₁).
    bind (expect tok_semicolon ts₁) λ (_, ts₂). ok (make_ast_var_dec name.value type.value, ts₂)

unfoldable pub parse_init : Parser MaybeNode
parse_init ts = bind (type_of (current_token ts)) λ t.
    if type_eq t tok_assign
    then bind (expression (next_token ts)) (λ (e, ts₁). ok (just e, ts₁))
    else ok (null, ts)

unfoldable pub parse_var_def : Parser AstNode
parse_var_def ts = bind (typed_name ts) λ ((type, name), ts₁). bind (parse_init ts₁) λ (init, ts₂).
    bind (expect tok_semicolon ts₂)
      λ (_, ts₃). ok (make_ast_var_def name.value type.value init, ts₃)

unfoldable pub parse_declartion : Parser AstNode
parse_declartion ts =
    bind (is_var_def_start ts) λ b. if b then parse_var_def ts else parse_var_dec ts

unfoldable pub parse_expression_statement : Parser AstNode
parse_expression_statement ts =
    bind (expression ts)
      λ (expr, ts₁). bind (expect tok_semicolon ts₁) λ (_, ts₂). ok (make_expr_stmt expr, ts₂)

unfoldable pub parse_return : Parser AstNode
parse_return ts = bind (expect tok_return ts) λ (_, ts₁).
    bind (expression ts₁)
      λ (expr, ts₂). bind (expect tok_semicolon ts₂) λ (_, ts₃). ok (make_ast_ret expr, ts₃)

unfoldable pub parse_jump_statement : Parser AstNode
parse_jump_statement ts = parse_return ts

-- The loop over the enumerators.
unfoldable pub enum_loop : ℕ → Parser (List Bytes)
enum_loop zero ts = stop Stop.out_of_fuel
enum_loop (suc f) [] = ok ([], [])
enum_loop (suc f) (t ∷ ts) = elim (type_eq t.type tok_rbrace) [
  | true ↦ ok ([], t ∷ ts)
  | false ↦ bind (expect tok_ident (t ∷ ts)) λ (enum_ident, ts₁). bind (deref enum_ident) λ name.
      elim (stands_other tok_comma ts₁) [
        | true ↦ ok (name.value ∷ [], ts₁)
        | false ↦
            bind (expect tok_comma ts₁)
              λ (_, ts₂). bind (enum_loop f ts₂) λ (enums, ts₃). ok (name.value ∷ enums, ts₃)
      ]
]

unfoldable pub parse_enum : Parser AstNode
parse_enum ts = bind (expect tok_enum ts) λ (_, ts₁).
    bind (expect tok_ident ts₁) λ (parent_enum, ts₂). bind (expect tok_lbrace ts₂) λ (_, ts₃).
      bind (enum_loop (suc (length ts₃)) ts₃) λ (enums, ts₄).
        bind (expect tok_rbrace ts₄) λ (_, ts₅).
          bind (expect tok_semicolon ts₅)
            λ (_, ts₆). bind (deref parent_enum) λ t. ok (make_ast_enum t.value enums, ts₆)

-- `( expression )` behind a keyword.
unfoldable pub condition : TokenType → Parser AstNode
condition keyword ts = bind (expect keyword ts) λ (_, ts₁). bind (expect tok_lparen ts₁) λ (_, ts₂).
    bind (expression ts₂) λ (expr, ts₃). bind (expect tok_rparen ts₃) λ (_, ts₄). ok (expr, ts₄)

unfoldable pub parse_for_init : Parser AstNode
parse_for_init ts = bind (is_declartion ts) λ b.
    if b
    then parse_declartion ts
    else bind (expression ts)
        (λ (init, ts₁). bind (expect tok_semicolon ts₁) (λ (_, ts₂). ok (init, ts₂)))

module _ (ps : Parser AstNode) where
  unfoldable pub parse_else : Parser MaybeNode
  parse_else ts =
      if stands tok_else ts
      then bind (expect tok_else ts) (λ (_, ts₁). bind (ps ts₁) (λ (e, ts₂). ok (just e, ts₂)))
      else ok (null, ts)

  unfoldable pub parse_if_else_statement : Parser AstNode
  parse_if_else_statement ts = bind (condition tok_if ts) λ (expr, ts₁).
      bind (ps ts₁) λ (if_body, ts₂).
        bind (parse_else ts₂) λ (else_body, ts₃). ok (make_ast_if_else expr if_body else_body, ts₃)

  unfoldable pub parse_selection_statement : Parser AstNode
  parse_selection_statement ts = parse_if_else_statement ts

  -- The loop over the statements of a block.
  unfoldable pub body_loop : ℕ → Parser Nodes
  body_loop zero ts = stop Stop.out_of_fuel
  body_loop (suc f) [] = ok (no_nodes, [])
  body_loop (suc f) (t ∷ ts) = elim (type_eq t.type tok_rbrace) [
    | true ↦ ok (no_nodes, t ∷ ts)
    | false ↦
        bind (ps (t ∷ ts))
          λ (stmt, ts₁). bind (body_loop f ts₁) λ (body, ts₂). ok (node stmt body, ts₂)
  ]

  unfoldable pub parse_comp_stmt : Parser AstNode
  parse_comp_stmt ts = bind (expect tok_lbrace ts) λ (_, ts₁).
      bind (body_loop (suc (length ts₁)) ts₁)
        λ (body, ts₂). bind (expect tok_rbrace ts₂) λ (_, ts₃). ok (make_ast_comp_stmt body, ts₃)

  unfoldable pub parse_while : Parser AstNode
  parse_while ts =
      bind (condition tok_while ts)
        λ (expr, ts₁). bind (ps ts₁) λ (body, ts₂). ok (make_ast_while expr body, ts₂)

  unfoldable pub parse_for : Parser AstNode
  parse_for ts = bind (expect tok_for ts) λ (_, ts₁). bind (expect tok_lparen ts₁) λ (_, ts₂).
      bind (parse_for_init ts₂) λ (init, ts₃). bind (expression ts₃) λ (cond, ts₄).
        bind (expect tok_semicolon ts₄) λ (_, ts₅). bind (expression ts₅) λ (step, ts₆).
          bind (expect tok_rparen ts₆)
            λ (_, ts₇). bind (ps ts₇) λ (body, ts₈). ok (make_ast_for init cond step body, ts₈)

  unfoldable pub parse_iter_statement : Parser AstNode
  parse_iter_statement ts =
      bind (type_of (current_token ts))
        λ t. if type_eq t tok_for then parse_for ts else parse_while ts

  -- The tests of `parse_statement`, in its order.
  unfoldable pub statement_kind : TokenType → Bool → Parser AstNode
  statement_kind t declartion ts =
      if type_eq t tok_while || type_eq t tok_for
      then parse_iter_statement ts
      else if declartion
      then parse_declartion ts
      else if type_eq t tok_return
      then parse_jump_statement ts
      else if type_eq t tok_if
      then parse_selection_statement ts
      else if type_eq t tok_enum
      then parse_enum ts
      else if type_eq t tok_lbrace
      then parse_comp_stmt ts
      else parse_expression_statement ts

-- The fuel bounds how deep statements nest. `is_declartion` is asked only behind the first test.
unfoldable pub parse_statement : ℕ → Parser AstNode
parse_statement zero ts = stop Stop.out_of_fuel
parse_statement (suc f) ts = bind (type_of (current_token ts)) λ t.
    bind (if type_eq t tok_while || type_eq t tok_for then ok false else is_declartion ts)
      λ d. statement_kind (parse_statement f) t d ts

abbrev pub statement : Parser AstNode
statement ts = parse_statement (suc (length ts)) ts

-- The loop over the parameters.
unfoldable pub params_loop : ℕ → Parser (List Param)
params_loop zero ts = stop Stop.out_of_fuel
params_loop (suc f) ts = elim (stands tok_type ts) [
  | false ↦ ok ([], ts)
  | true ↦ bind (typed_name ts) λ ((type, name), ts₁).
      let param : Param = record { value = name.value; type = type.value; symbol = none } in
      bind (type_of (current_token ts₁)) λ t. elim (type_eq t tok_rparen) [
        | true ↦ ok (param ∷ [], ts₁)
        | false ↦
            bind (expect tok_comma ts₁)
              λ (_, ts₂). bind (params_loop f ts₂) λ (params, ts₃). ok (param ∷ params, ts₃)
      ]
]

unfoldable pub parse_func_params : Parser (List Param)
parse_func_params ts = params_loop (suc (length ts)) ts

unfoldable pub parse_func_def : Parser AstNode
parse_func_def ts = bind (expect tok_type ts) λ (func_type, ts₁).
    bind (expect tok_ident ts₁) λ (func_name, ts₂). bind (deref func_name) λ name.
      bind (expect tok_lparen ts₂) λ (_, ts₃). bind (parse_func_params ts₃) λ (params, ts₄).
        bind (expect tok_rparen ts₄) λ (_, ts₅). bind (deref func_type) λ type.
          bind (parse_comp_stmt statement ts₅)
            λ (body, ts₆). ok (make_ast_func_def name.value type.value body params, ts₆)

-- The loop over the functions.
unfoldable pub prog_loop : ℕ → Tokens → Outcome (List AstNode)
prog_loop zero ts = stop Stop.out_of_fuel
prog_loop (suc f) [] = ok []
prog_loop (suc f) (t ∷ ts) =
    bind (parse_func_def (t ∷ ts)) λ (stmt, ts₁). bind (prog_loop f ts₁) λ prog. ok (stmt ∷ prog)

unfoldable pub parse_prog : Tokens → Outcome (List AstNode)
parse_prog ts = prog_loop (suc (length ts)) ts

unfoldable pub parse : Tokens → Outcome (List AstNode)
parse tokens = parse_prog tokens

-- What a run of the parser unfolds.
unfoldable pub parser_program : Unit {0}
unfolding parse parse_prog prog_loop parse_func_def parse_func_params params_loop parse_statement
    statement_kind parse_iter_statement parse_for parse_for_init parse_while parse_comp_stmt
    body_loop parse_selection_statement parse_if_else_statement parse_else condition parse_enum
    enum_loop parse_jump_statement parse_return parse_expression_statement parse_declartion
    parse_var_def parse_init parse_var_dec typed_name is_declartion is_var_dec is_var_def_start
    stands stands_other
parser_program = tt
