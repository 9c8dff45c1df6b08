-- ===== src/Parse/ProgramTotal.antt =====
-- parse.c: termination of the parser of statements and programs.
use my_lang.Prelude.{
  ℕ, zero, suc, ◌-◌, ◌≤◌, ◌<◌, ◌≡◌, refl, ◌≢◌, Bool, ◌||◌, [], ◌∷◌, length, arith, stop, Stop, Post,
  returns, stops, Fueled, Post-bind, Post-mono, Post-stop, Outcome,
}
use my_lang.Lex.Token.{
  TokenType, type_eq, tok_ident, tok_lparen, tok_rparen, tok_lbrace, tok_rbrace, tok_semicolon,
  tok_assign, tok_type, tok_comma, tok_return, tok_if, tok_else, tok_enum, tok_while, tok_for,
}
use my_lang.Ast.{AstNode}
use my_lang.Parse.Stream.{
  Tokens, Parser, current_token, type_of, next_token, peek, both_types, three_types,
}
use my_lang.Parse.Expression.{expression}
use my_lang.Parse.Total.{
  Shrinks, Ends, type_of-Ends, deref-Ends, expect-Post, if-Post, elim-Post, three_types-Ends,
  length-next_token, parse_expression-Total,
}
use my_lang.Parse.Statement.{
  stands, stands_other, is_var_def_start, is_var_dec, is_declartion, typed_name, parse_var_dec,
  parse_init, parse_var_def, parse_declartion, parse_expression_statement, parse_return,
  parse_jump_statement, enum_loop, parse_enum, condition, parse_else, parse_if_else_statement,
  parse_selection_statement, body_loop, parse_comp_stmt, parse_while, parse_for_init, parse_for,
  parse_iter_statement, statement_kind, parse_statement, statement, params_loop, parse_func_params,
  parse_func_def, prog_loop, parse_prog, parse,
}

-- Fewer tokens remain than there were.
abbrev Moves {ℓ} : {A : Type ℓ} → ℕ → Outcome (A × Tokens) → Type ℓ
Moves n = Post (λ r. length r.1 < n) Fueled

expression-Shrinks : (ts : Tokens) → Shrinks (length ts) (expression ts)
expression-Shrinks ts = parse_expression-Total (suc (length ts)) ts (omega arith)

is_declartion-Ends : (ts : Tokens) → Ends (is_declartion ts)
unfolding is_declartion is_var_dec is_var_def_start
is_declartion-Ends ts =
    Post-bind (three_types-Ends tok_type tok_ident tok_semicolon ts)
      λ b _. if-Post _ b (returns tt) (three_types-Ends tok_type tok_ident tok_assign ts)

typed_name-Post : (ts : Tokens) → Post (λ r. length r.1 ≡ length ts - 1 - 1) Fueled (typed_name ts)
unfolding typed_name
typed_name-Post ts = Post-bind (expect-Post tok_type ts) λ (t, ts₁) l₁.
    Post-bind (expect-Post tok_ident ts₁) λ (n, ts₂) l₂.
      Post-bind (deref-Ends n) λ name _. Post-bind (deref-Ends t) λ type _. returns (omega arith)

parse_var_dec-Moves : (ts : Tokens) → 0 < length ts → Moves (length ts) (parse_var_dec ts)
unfolding parse_var_dec
parse_var_dec-Moves ts h = Post-bind (typed_name-Post ts) λ ((type, name), ts₁) l₁.
    Post-bind (expect-Post tok_semicolon ts₁) λ (_, ts₂) l₂. returns (omega arith)

parse_init-Shrinks : (ts : Tokens) → Shrinks (length ts) (parse_init ts)
unfolding parse_init
parse_init-Shrinks ts =
    let l = length-next_token ts in
    Post-bind (type_of-Ends (current_token ts)) λ t _.
      if-Post _ (type_eq t tok_assign)
        (Post-bind (expression-Shrinks (next_token ts)) λ (e, ts₁) l₁. returns (omega arith))
        (returns (omega arith))

parse_var_def-Moves : (ts : Tokens) → 0 < length ts → Moves (length ts) (parse_var_def ts)
unfolding parse_var_def
parse_var_def-Moves ts h = Post-bind (typed_name-Post ts) λ ((type, name), ts₁) l₁.
    Post-bind (parse_init-Shrinks ts₁) λ (init, ts₂) l₂.
      Post-bind (expect-Post tok_semicolon ts₂) λ (_, ts₃) l₃. returns (omega arith)

parse_declartion-Moves : (ts : Tokens) → 0 < length ts → Moves (length ts) (parse_declartion ts)
unfolding parse_declartion is_var_def_start
parse_declartion-Moves ts h =
    Post-bind (three_types-Ends tok_type tok_ident tok_assign ts)
      λ b _. if-Post _ b (parse_var_def-Moves ts h) (parse_var_dec-Moves ts h)

parse_expression_statement-Moves :
    (ts : Tokens) → 0 < length ts → Moves (length ts) (parse_expression_statement ts)
unfolding parse_expression_statement
parse_expression_statement-Moves ts h =
    Post-bind (expression-Shrinks ts) λ (expr, ts₁) l₁.
      Post-bind (expect-Post tok_semicolon ts₁) λ (_, ts₂) l₂. returns (omega arith)

parse_return-Moves : (ts : Tokens) → 0 < length ts → Moves (length ts) (parse_return ts)
unfolding parse_return
parse_return-Moves ts h = Post-bind (expect-Post tok_return ts) λ (_, ts₁) l₁.
    Post-bind (expression-Shrinks ts₁) λ (expr, ts₂) l₂.
      Post-bind (expect-Post tok_semicolon ts₂) λ (_, ts₃) l₃. returns (omega arith)

enum_loop-Shrinks : (f : ℕ) (ts : Tokens) → length ts < f → Shrinks (length ts) (enum_loop f ts)
unfolding enum_loop
enum_loop-Shrinks zero ts h = absurd (omega arith)
enum_loop-Shrinks (suc f) [] h = returns (omega arith)
enum_loop-Shrinks (suc f) (t ∷ ts) h =
    elim-Post _ (type_eq t.type tok_rbrace) (returns (omega arith)) (
      Post-bind (expect-Post tok_ident (t ∷ ts)) λ (enum_ident, ts₁) l₁.
        Post-bind (deref-Ends enum_ident) λ name _.
          elim-Post _ (stands_other tok_comma ts₁) (returns (omega arith)) (
            Post-bind (expect-Post tok_comma ts₁) λ (_, ts₂) l₂.
              Post-bind (enum_loop-Shrinks f ts₂ (omega arith))
                λ (enums, ts₃) l₃. returns (omega arith)))

parse_enum-Moves : (ts : Tokens) → 0 < length ts → Moves (length ts) (parse_enum ts)
unfolding parse_enum
parse_enum-Moves ts h = Post-bind (expect-Post tok_enum ts) λ (_, ts₁) l₁.
    Post-bind (expect-Post tok_ident ts₁) λ (parent, ts₂) l₂.
      Post-bind (expect-Post tok_lbrace ts₂) λ (_, ts₃) l₃.
        Post-bind (enum_loop-Shrinks (suc (length ts₃)) ts₃ (omega arith)) λ (enums, ts₄) l₄.
          Post-bind (expect-Post tok_rbrace ts₄) λ (_, ts₅) l₅.
            Post-bind (expect-Post tok_semicolon ts₅)
              λ (_, ts₆) l₆. Post-bind (deref-Ends parent) λ t _. returns (omega arith)

condition-Moves :
    (keyword : TokenType) (ts : Tokens) → 0 < length ts → Moves (length ts) (condition keyword ts)
unfolding condition
condition-Moves keyword ts h = Post-bind (expect-Post keyword ts) λ (_, ts₁) l₁.
    Post-bind (expect-Post tok_lparen ts₁) λ (_, ts₂) l₂.
      Post-bind (expression-Shrinks ts₂) λ (expr, ts₃) l₃.
        Post-bind (expect-Post tok_rparen ts₃) λ (_, ts₄) l₄. returns (omega arith)

parse_for_init-Shrinks : (ts : Tokens) → Shrinks (length ts) (parse_for_init ts)
unfolding parse_for_init is_declartion is_var_dec three_types both_types peek type_of
parse_for_init-Shrinks [] = stops cc
parse_for_init-Shrinks (t ∷ ts) = unfolded (t ∷ ts) (omega arith)
  where
    unfolded : (ts : Tokens) → 0 < length ts → Shrinks (length ts) (parse_for_init ts)
    unfolded ts p = Post-bind (is_declartion-Ends ts) λ b _.
        if-Post _ b (Post-mono (parse_declartion-Moves ts p) (λ r l. omega arith)) (
          Post-bind (expression-Shrinks ts) λ (init, ts₁) l₁.
            Post-bind (expect-Post tok_semicolon ts₁) λ (_, ts₂) l₂. returns (omega arith))

module _ (n : ℕ) (ps : Parser AstNode)
    (moves : (ts : Tokens) → length ts < n → Moves (length ts) (ps ts)) where
  parse_else-Shrinks : (ts : Tokens) → length ts ≤ n → Shrinks (length ts) (parse_else ps ts)
  unfolding parse_else stands
  parse_else-Shrinks [] h = returns (omega arith)
  parse_else-Shrinks (t ∷ ts) h =
      if-Post _ (type_eq t.type tok_else)
        (Post-bind (expect-Post tok_else (t ∷ ts))
          λ (_, ts₁) l₁. Post-bind (moves ts₁ (omega arith)) λ (e, ts₂) l₂. returns (omega arith))
        (returns (omega arith))

  parse_if-Moves :
      (ts : Tokens)
      → length ts ≤ n
      → 0 < length ts
      → Moves (length ts) (parse_if_else_statement ps ts)
  unfolding parse_if_else_statement
  parse_if-Moves ts h p = Post-bind (condition-Moves tok_if ts p) λ (expr, ts₁) l₁.
      Post-bind (moves ts₁ (omega arith)) λ (if_body, ts₂) l₂.
        Post-bind (parse_else-Shrinks ts₂ (omega arith))
          λ (else_body, ts₃) l₃. returns (omega arith)

  body_loop-Shrinks :
      (f : ℕ) (ts : Tokens)
      → length ts < f
      → length ts < n
      → Shrinks (length ts) (body_loop ps f ts)
  unfolding body_loop
  body_loop-Shrinks zero ts h k = absurd (omega arith)
  body_loop-Shrinks (suc f) [] h k = returns (omega arith)
  body_loop-Shrinks (suc f) (t ∷ ts) h k =
      elim-Post _ (type_eq t.type tok_rbrace) (returns (omega arith)) (
        Post-bind (moves (t ∷ ts) k) λ (stmt, ts₁) l₁.
          Post-bind (body_loop-Shrinks f ts₁ (omega arith) (omega arith))
            λ (body, ts₂) l₂. returns (omega arith))

  parse_comp_stmt-Moves :
      (ts : Tokens) → length ts ≤ n → 0 < length ts → Moves (length ts) (parse_comp_stmt ps ts)
  unfolding parse_comp_stmt
  parse_comp_stmt-Moves ts h p = Post-bind (expect-Post tok_lbrace ts) λ (_, ts₁) l₁.
      Post-bind (body_loop-Shrinks (suc (length ts₁)) ts₁ (omega arith) (omega arith))
        λ (body, ts₂) l₂.
          Post-bind (expect-Post tok_rbrace ts₂) λ (_, ts₃) l₃. returns (omega arith)

  parse_while-Moves :
      (ts : Tokens) → length ts ≤ n → 0 < length ts → Moves (length ts) (parse_while ps ts)
  unfolding parse_while
  parse_while-Moves ts h p =
      Post-bind (condition-Moves tok_while ts p) λ (expr, ts₁) l₁.
        Post-bind (moves ts₁ (omega arith)) λ (body, ts₂) l₂. returns (omega arith)

  parse_for-Moves :
      (ts : Tokens) → length ts ≤ n → 0 < length ts → Moves (length ts) (parse_for ps ts)
  unfolding parse_for
  parse_for-Moves ts h p = Post-bind (expect-Post tok_for ts) λ (_, ts₁) l₁.
      Post-bind (expect-Post tok_lparen ts₁) λ (_, ts₂) l₂.
        Post-bind (parse_for_init-Shrinks ts₂) λ (init, ts₃) l₃.
          Post-bind (expression-Shrinks ts₃) λ (cond, ts₄) l₄.
            Post-bind (expect-Post tok_semicolon ts₄) λ (_, ts₅) l₅.
              Post-bind (expression-Shrinks ts₅) λ (step, ts₆) l₆.
                Post-bind (expect-Post tok_rparen ts₆) λ (_, ts₇) l₇.
                  Post-bind (moves ts₇ (omega arith)) λ (body, ts₈) l₈. returns (omega arith)

  parse_iter_statement-Moves :
      (ts : Tokens) → length ts ≤ n → 0 < length ts → Moves (length ts) (parse_iter_statement ps ts)
  unfolding parse_iter_statement
  parse_iter_statement-Moves ts h p =
      Post-bind (type_of-Ends (current_token ts))
        λ t _. if-Post _ (type_eq t tok_for) (parse_for-Moves ts h p) (parse_while-Moves ts h p)

  statement_kind-Moves :
      (t : TokenType) (d : Bool) (ts : Tokens)
      → length ts ≤ n
      → 0 < length ts
      → Moves (length ts) (statement_kind ps t d ts)
  unfolding statement_kind parse_jump_statement parse_selection_statement
  statement_kind-Moves t d ts h p =
      if-Post _ (type_eq t tok_while || type_eq t tok_for) (parse_iter_statement-Moves ts h p) (
        if-Post _ d (parse_declartion-Moves ts p) (
          if-Post _ (type_eq t tok_return) (parse_return-Moves ts p) (
            if-Post _ (type_eq t tok_if) (parse_if-Moves ts h p) (
              if-Post _ (type_eq t tok_enum) (parse_enum-Moves ts p) (
                if-Post _ (type_eq t tok_lbrace) (parse_comp_stmt-Moves ts h p)
                  (parse_expression_statement-Moves ts p))))))

parse_statement-Moves :
    (n : ℕ) (ts : Tokens) → length ts < n → Moves (length ts) (parse_statement n ts)
unfolding parse_statement current_token type_of
parse_statement-Moves zero ts h = absurd (omega arith)
parse_statement-Moves (suc n) [] h = stops cc
parse_statement-Moves (suc n) (t ∷ ts) h =
    Post-bind
      (if-Post _ (type_eq t.type tok_while || type_eq t.type tok_for) (returns tt)
        (is_declartion-Ends (t ∷ ts)))
      λ d _.
        statement_kind-Moves n (parse_statement n) (parse_statement-Moves n) t.type d (t ∷ ts)
          (omega arith) (omega arith)

statement-Moves : (n : ℕ) (ts : Tokens) → length ts < n → Moves (length ts) (statement ts)
statement-Moves n ts h = parse_statement-Moves (suc (length ts)) ts (omega arith)

params_loop-Shrinks : (f : ℕ) (ts : Tokens) → length ts < f → Shrinks (length ts) (params_loop f ts)
unfolding params_loop stands
params_loop-Shrinks zero ts h = absurd (omega arith)
params_loop-Shrinks (suc f) [] h = returns (omega arith)
params_loop-Shrinks (suc f) (t ∷ ts) h =
    elim-Post _ (type_eq t.type tok_type)
      (Post-bind (typed_name-Post (t ∷ ts)) λ ((type, name), ts₁) l₁.
        Post-bind (type_of-Ends (current_token ts₁)) λ t₁ _.
          elim-Post _ (type_eq t₁ tok_rparen) (returns (omega arith)) (
            Post-bind (expect-Post tok_comma ts₁) λ (_, ts₂) l₂.
              Post-bind (params_loop-Shrinks f ts₂ (omega arith))
                λ (params, ts₃) l₃. returns (omega arith)))
      (returns (omega arith))

comp_stmt-Shrinks : (ts : Tokens) → Shrinks (length ts) (parse_comp_stmt statement ts)
unfolding parse_comp_stmt
comp_stmt-Shrinks ts = Post-bind (expect-Post tok_lbrace ts) λ (_, ts₁) l₁.
    Post-bind
      (body_loop-Shrinks (suc (length ts₁)) statement (statement-Moves (suc (length ts₁)))
        (suc (length ts₁)) ts₁ (omega arith) (omega arith))
      λ (body, ts₂) l₂. Post-bind (expect-Post tok_rbrace ts₂) λ (_, ts₃) l₃. returns (omega arith)

parse_func_def-Moves : (ts : Tokens) → 0 < length ts → Moves (length ts) (parse_func_def ts)
unfolding parse_func_def parse_func_params
parse_func_def-Moves ts p = Post-bind (expect-Post tok_type ts) λ (func_type, ts₁) l₁.
    Post-bind (expect-Post tok_ident ts₁) λ (func_name, ts₂) l₂.
      Post-bind (deref-Ends func_name) λ name _.
        Post-bind (expect-Post tok_lparen ts₂) λ (_, ts₃) l₃.
          Post-bind (params_loop-Shrinks (suc (length ts₃)) ts₃ (omega arith)) λ (params, ts₄) l₄.
            Post-bind (expect-Post tok_rparen ts₄) λ (_, ts₅) l₅.
              Post-bind (deref-Ends func_type)
                λ type _. Post-bind (comp_stmt-Shrinks ts₅) λ (body, ts₆) l₆. returns (omega arith)

prog_loop-Ends : (f : ℕ) (ts : Tokens) → length ts < f → Ends (prog_loop f ts)
unfolding prog_loop
prog_loop-Ends zero ts h = absurd (omega arith)
prog_loop-Ends (suc f) [] h = returns tt
prog_loop-Ends (suc f) (t ∷ ts) h =
    Post-bind (parse_func_def-Moves (t ∷ ts) (omega arith))
      λ (stmt, ts₁) l. Post-bind (prog_loop-Ends f ts₁ (omega arith)) λ prog _. returns tt

-- The parser ends on every list of tokens: no run of it is out of fuel.
pub parse-ne-out_of_fuel : (tokens : Tokens) → parse tokens ≢ stop Stop.out_of_fuel
unfolding parse parse_prog
parse-ne-out_of_fuel tokens e =
    Post-stop (prog_loop-Ends (suc (length tokens)) tokens (omega arith)) e refl
