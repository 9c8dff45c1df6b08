-- ===== src/Parse/Total.antt =====
-- parse.c: termination of the expression parser: a call reads on, or stands one level deeper behind a
-- token that was read.
use my_lang.Prelude.{
  ℕ, zero, suc, ◌-◌, ◌≤◌, ◌<◌, ◌≡◌, inl, inr, Bool, true, false, Option, none, some, [], ◌∷◌,
  length, if◌then◌else◌, arith, Outcome, ok, stop, Stop, Post, returns, stops, Fueled, Post-bind,
  Post-mono, Bool-cases,
}
use my_lang.Util.{success, error, str2int}
use my_lang.Lex.Token.{
  Token, TokenType, type_eq, tok_ident, tok_num, tok_lparen, tok_rparen, tok_comma, tok_assign,
}
use my_lang.Ast.{AstNode, make_ast_bin_exp, make_int_const}
use my_lang.Parse.Stream.{
  Tokens, Parser, current_token, peek, next_token, type_of, deref, expect, both_types, three_types,
}
use my_lang.Parse.Expression.{
  is_func_call_start, is_var_asgn, is_multiplicative_op, is_additive_op, is_shift_op,
  is_relational_op, is_equality_op, is_and_op, is_xor_op, is_or_op, is_log_and_op, is_log_or_op,
  args_loop, parse_func_call, parse_ident, literal, parse_primary_expression,
  parse_postfix_expression, is_unary_op, parse_unary_expression, parse_cast_expression, binary_loop,
  binary_level, parse_multiplicative_expression, parse_additive_expression, parse_shift_expression,
  parse_relational_expression, parse_equality_expression, parse_and_expression,
  parse_xor_expression, parse_or_expression, parse_log_and_expression, parse_log_or_expression,
  parse_conditional_expression, parse_var_asgn, parse_expression,
}

-- No more tokens remain than there were.
abbrev pub Shrinks {ℓ} : {A : Type ℓ} → ℕ → Outcome (A × Tokens) → Type ℓ
Shrinks n = Post (λ r. length r.1 ≤ n) Fueled

-- On fewer than `n` tokens the parser keeps within its fuel.
abbrev pub Total {ℓ} : {A : Type ℓ} → ℕ → Parser A → Type ℓ
Total n p = (ts : Tokens) → length ts < n → Shrinks (length ts) (p ts)

abbrev pub Ends {ℓ} : {A : Type ℓ} → Outcome A → Type ℓ
Ends = Post (λ _. Unit {0}) Fueled

pub type_of-Ends : (o : Option Token) → Ends (type_of o)
unfolding type_of
type_of-Ends none = stops cc
type_of-Ends (some t) = returns tt

pub deref-Ends : (o : Option Token) → Ends (deref o)
unfolding deref
deref-Ends none = stops cc
deref-Ends (some t) = returns tt

pub expect-Post :
    (want : TokenType) (ts : Tokens)
    → Post (λ r. length r.1 ≡ length ts - 1) Fueled (expect want ts)
unfolding expect
expect-Post want [] = returns (omega arith)
expect-Post want (t ∷ ts) = elim (Bool-cases (type_eq t.type want)) [
  | inl e ↦ rw e (returns (omega arith))
  | inr e ↦ rw e (stops cc)
]

pub if-Post {ℓ κ} :
    {A : Type ℓ} (P : A → Type κ) (b : Bool) {x y : Outcome A}
    → Post P Fueled x
    → Post P Fueled y
    → Post P Fueled (if b then x else y)
if-Post P true hx hy = hx
if-Post P false hx hy = hy

pub elim-Post {ℓ κ} :
    {A : Type ℓ} (P : A → Type κ) (b : Bool) {x y : Outcome A}
    → Post P Fueled x
    → Post P Fueled y
    → Post P Fueled (elim b [ true ↦ x | false ↦ y ])
elim-Post P true hx hy = hx
elim-Post P false hx hy = hy

pub both_types-Ends : (s t : TokenType) (ts : Tokens) → Ends (both_types s t ts)
unfolding both_types
both_types-Ends s t ts = Post-bind (type_of-Ends (peek ts 0)) λ a _.
    if-Post _ (type_eq a s) (Post-bind (type_of-Ends (peek ts 1)) λ b _. returns tt) (returns tt)

pub three_types-Ends : (s t u : TokenType) (ts : Tokens) → Ends (three_types s t u ts)
unfolding three_types
three_types-Ends s t u ts =
    Post-bind (both_types-Ends s t ts)
      λ b _. if-Post _ b (Post-bind (type_of-Ends (peek ts 2)) λ c _. returns tt) (returns tt)

pub length-next_token : (ts : Tokens) → length (next_token ts) ≡ length ts - 1
unfolding next_token
length-next_token [] = omega arith
length-next_token (t ∷ ts) = omega arith

literal-Total : (t : Token) (ts : Tokens) → Shrinks (length ts) (literal t ts)
unfolding literal
literal-Total t ts =
    elim (str2int t.value)
      as (λ c.
        Shrinks {A = AstNode} (length ts)
          (elim c [ success lit ↦ ok (make_int_const lit, ts) | error _ ↦ stop Stop.undefined ])) [
            | success lit ↦ returns (omega arith)
            | error e ↦ stops cc
          ]

module _ (n : ℕ) (pe : Parser AstNode) (total : Total n pe) where
  args_loop-Total :
      (f : ℕ) (ts : Tokens)
      → length ts < f
      → length ts < n
      → Shrinks (length ts) (args_loop pe f ts)
  unfolding args_loop type_of current_token
  args_loop-Total zero ts h k = absurd (omega arith)
  args_loop-Total (suc f) [] h k = stops cc
  args_loop-Total (suc f) (t ∷ ts) h k =
      elim-Post _ (type_eq t.type tok_rparen) (returns (omega arith)) (
        Post-bind (total (t ∷ ts) k) λ (expr, ts₁) l₁.
          Post-bind (type_of-Ends (current_token ts₁)) λ t₁ _.
            elim-Post _ (type_eq t₁ tok_rparen) (returns (omega arith)) (
              Post-bind (expect-Post tok_comma ts₁) λ (_, ts₂) l₂.
                Post-bind (args_loop-Total f ts₂ (omega arith) (omega arith))
                  λ (args, ts₃) l₃. returns (omega arith)))

  parse_func_call-Total :
      (ts : Tokens)
      → length ts ≤ n
      → Post (λ r. length r.1 < length ts) Fueled (parse_func_call pe ts)
  unfolding parse_func_call expect deref
  parse_func_call-Total [] h = stops cc
  parse_func_call-Total (t ∷ ts) h = Post-bind (expect-Post tok_ident (t ∷ ts)) λ (name, ts₁) l₁.
      Post-bind (deref-Ends name) λ name _. Post-bind (expect-Post tok_lparen ts₁) λ (_, ts₂) l₂.
        Post-bind (args_loop-Total (suc (length ts₂)) ts₂ (omega arith) (omega arith))
          λ (args, ts₃) l₃.
            Post-bind (expect-Post tok_rparen ts₃) λ (_, ts₄) l₄. returns (omega arith)

  pub parse_ident-Total :
      (ts : Tokens) → length ts ≤ n → Post (λ r. length r.1 < length ts) Fueled (parse_ident pe ts)
  unfolding parse_ident is_func_call_start current_token deref next_token
  parse_ident-Total [] h = stops cc
  parse_ident-Total (t ∷ ts) h =
      Post-bind (both_types-Ends tok_ident tok_lparen (t ∷ ts))
        λ call _. if-Post _ call (parse_func_call-Total (t ∷ ts) h) (returns (omega arith))

  parse_primary_expression-Total : Total (suc n) (parse_primary_expression pe)
  unfolding parse_primary_expression
  parse_primary_expression-Total [] h = returns (omega arith)
  parse_primary_expression-Total (t ∷ ts) h =
      if-Post _ (type_eq t.type tok_num) (Post-mono (literal-Total t ts) (λ r l. omega arith)) (
        if-Post _ (type_eq t.type tok_ident)
          (Post-mono (parse_ident-Total (t ∷ ts) (omega arith)) (λ r l. omega arith))
          (if-Post _ (type_eq t.type tok_lparen)
            (Post-bind (total ts (omega arith)) λ (inner, ts₁) l₁.
              Post-bind (expect-Post tok_rparen ts₁) λ (_, ts₂) l₂. returns (omega arith))
            (returns (omega arith))))

  parse_cast_expression-Total : Total (suc n) (parse_cast_expression pe)
  unfolding parse_cast_expression parse_unary_expression parse_postfix_expression
  parse_cast_expression-Total ts h =
      let l = length-next_token ts in
      Post-bind (deref-Ends (current_token ts)) λ t _.
        if-Post _ (is_unary_op t.type)
          (Post-bind (parse_primary_expression-Total (next_token ts) (omega arith))
            λ (e, ts₁) l₁. returns (omega arith))
          (parse_primary_expression-Total ts h)

module _ (test : TokenType → Bool) (n : ℕ) (sub : Parser AstNode) (total : Total n sub) where
  binary_loop-Total :
      (f : ℕ) (left : AstNode) (ts : Tokens)
      → length ts < f
      → length ts ≤ n
      → Shrinks (length ts) (binary_loop test sub f left ts)
  unfolding binary_loop
  binary_loop-Total zero left ts h k = absurd (omega arith)
  binary_loop-Total (suc f) left [] h k = returns (omega arith)
  binary_loop-Total (suc f) left (t ∷ ts) h k =
      elim-Post _ (test t.type)
        (Post-bind (total ts (omega arith)) λ (right, ts₁) l₁.
          Post-mono
            (binary_loop-Total f (make_ast_bin_exp t.value t.type left right) ts₁ (omega arith)
              (omega arith))
            (λ r l. omega arith))
        (returns (omega arith))

  binary_level-Total : Total n (binary_level test sub)
  unfolding binary_level
  binary_level-Total ts h = Post-bind (total ts h) λ (left, ts₁) l₁.
      Post-mono (binary_loop-Total (suc (length ts₁)) left ts₁ (omega arith) (omega arith))
        (λ r l. omega arith)

module _ (n : ℕ) (pe : Parser AstNode) (total : Total n pe) where
  parse_conditional_expression-Total : Total (suc n) (parse_conditional_expression pe)
  unfolding parse_conditional_expression parse_log_or_expression parse_log_and_expression
      parse_or_expression parse_xor_expression parse_and_expression parse_equality_expression
      parse_relational_expression parse_shift_expression parse_additive_expression
      parse_multiplicative_expression
  parse_conditional_expression-Total =
      let t₁ =
        binary_level-Total is_multiplicative_op (suc n) _
          (parse_cast_expression-Total n pe total) in
      let t₂ = binary_level-Total is_additive_op (suc n) _ t₁ in
      let t₃ = binary_level-Total is_shift_op (suc n) _ t₂ in
      let t₄ = binary_level-Total is_relational_op (suc n) _ t₃ in
      let t₅ = binary_level-Total is_equality_op (suc n) _ t₄ in
      let t₆ = binary_level-Total is_and_op (suc n) _ t₅ in
      let t₇ = binary_level-Total is_xor_op (suc n) _ t₆ in
      let t₈ = binary_level-Total is_or_op (suc n) _ t₇ in
      let t₉ = binary_level-Total is_log_and_op (suc n) _ t₈ in
      binary_level-Total is_log_or_op (suc n) _ t₉

  parse_var_asgn-Total : Total (suc n) (parse_var_asgn pe)
  unfolding parse_var_asgn
  parse_var_asgn-Total ts h =
      Post-bind (parse_ident-Total n pe total ts (omega arith)) λ (ident_node, ts₁) l₁.
        Post-bind (expect-Post tok_assign ts₁)
          λ (_, ts₂) l₂. Post-bind (total ts₂ (omega arith)) λ (rval, ts₃) l₃. returns (omega arith)

pub parse_expression-Total : (n : ℕ) → Total n (parse_expression n)
unfolding parse_expression is_var_asgn
parse_expression-Total zero ts h = absurd (omega arith)
parse_expression-Total (suc n) ts h =
    let ih = parse_expression-Total n in
    Post-bind (both_types-Ends tok_ident tok_assign ts) λ asgn _.
      elim-Post _ asgn (parse_var_asgn-Total n (parse_expression n) ih ts h)
        (parse_conditional_expression-Total n (parse_expression n) ih ts h)

-- With fuel above the number of tokens, the expression parser keeps within its fuel, and where it
-- returns an expression, no more tokens remain than there were.
pub parse_expression-Fueled :
    (n : ℕ) (ts : Tokens)
    → length ts < n
    → Post (λ (_, us). length us ≤ length ts) Fueled (parse_expression n ts)
parse_expression-Fueled = parse_expression-Total
