-- ===== src/Parse/Operands.antt =====
-- What follows an operand, how one begins, and single steps of the parser's loops.
use my_lang.Prelude.{
  ℕ, zero, suc, ◌≤◌, ◌<◌, ◌≡◌, refl, ap, Bool, true, false, some, [], ◌∷◌, ◌++◌, length, arith, ok,
  bind, append_assoc,
}
use my_lang.Lex.Token.{
  Token, TokenType, type_eq, type_eq_refl, tok_ident, tok_lparen, tok_rparen, tok_assign, tok_comma,
  tok_not, tok_num,
}
use my_lang.Ast.{AstNode, Nodes, no_nodes, node, bin_exp}
use my_lang.Parse.Stream.{Tokens, Parser, current_token, peek, type_of, expect, both_types}
use my_lang.Parse.Expression.{is_var_asgn, args_loop, binary_loop}
use my_lang.Parse.Grammar.{
  rank, of, Spelling, Primary, number, variable, call_empty, call, parens, Unary, primary, negation,
  Binary, unary, tighter, operation, Expr, conditional, assignment,
}
use my_lang.Parse.Levels.{op_test, op_test-rank, level_parser}

-- What follows an operand: a token that level `k` and the tighter ones leave alone.
abbrev pub Follows : ℕ → Tokens → Type 0
Follows k [] = ⊥
Follows k (t ∷ ts) = k < rank t.type

pub Follows-le : (j k : ℕ) (rest : Tokens) → j ≤ k → Follows k rest → Follows j rest
Follows-le j k [] h f = f
Follows-le j k (t ∷ ts) h f = omega arith

-- The loop of level `k` at the end of its operands.
abbrev pub finish : Parser AstNode → ℕ → ℕ → AstNode → Parser AstNode
finish pe zero f e rest = ok (e, rest)
finish pe (suc k) f e rest = binary_loop (op_test k) (level_parser pe k) f e rest

op_test-Follows : (k : ℕ) (t : TokenType) → suc k ≤ 10 → suc k < rank t → op_test k t ≡ false
op_test-Follows k t h f = rw (op_test-rank k h t) (ground arith)

pub finish-Follows :
    (pe : Parser AstNode) (k f : ℕ) (e : AstNode) (rest : Tokens)
    → k ≤ 10
    → length rest < f
    → Follows k rest
    → finish pe k f e rest ≡ ok (e, rest)
unfolding binary_loop
finish-Follows pe zero f e rest h l w = refl
finish-Follows pe (suc k) zero e rest h l w = absurd (omega arith)
finish-Follows pe (suc k) (suc f) e [] h l w = absurd w
finish-Follows pe (suc k) (suc f) e (t ∷ rest) h l w =
    rw (op_test-Follows k t.type h w, binary_loop)

-- How an operand begins: it is no assignment, and no closing parenthesis.
not_assign : (t : TokenType) → 0 < rank t → type_eq t tok_assign ≡ false
unfolding type_eq
not_assign tok_assign h = absurd (omega arith)
not_assign _ h = refl

pub not_lparen : (t : TokenType) → 0 < rank t → type_eq t tok_lparen ≡ false
unfolding type_eq
not_lparen tok_lparen h = absurd (omega arith)
not_lparen _ h = refl

pub record Begins (ts : Tokens) : Type 0 where
  pub no_asgn : is_var_asgn ts ≡ ok false
  pub head : TokenType
  pub headed : type_of (current_token ts) ≡ ok head
  pub open_head : type_eq head tok_rparen ≡ false

Primary-Begins :
    {ts : Tokens} {e : AstNode} (rest : Tokens)
    → Primary ts e
    → Follows 0 rest
    → Begins (ts ++ rest)
unfolding is_var_asgn both_types peek type_of current_token type_eq
Primary-Begins rest (number s n h) f = record {
  no_asgn = refl;
  head = tok_num;
  headed = refl;
  open_head = refl;
}
Primary-Begins [] (variable s) f = absurd f
Primary-Begins (t ∷ rest) (variable s) f = record {
  no_asgn = ap ok (not_assign t.type f);
  head = tok_ident;
  headed = refl;
  open_head = refl;
}
Primary-Begins rest (call_empty s l r) f = record {
  no_asgn = refl;
  head = tok_ident;
  headed = refl;
  open_head = refl;
}
Primary-Begins rest (call s l r a) f = record {
  no_asgn = refl;
  head = tok_ident;
  headed = refl;
  open_head = refl;
}
Primary-Begins rest (parens l r a) f = record {
  no_asgn = refl;
  head = tok_lparen;
  headed = refl;
  open_head = refl;
}

Unary-Begins :
    {ts : Tokens} {e : AstNode} (rest : Tokens) → Unary ts e → Follows 0 rest → Begins (ts ++ rest)
unfolding is_var_asgn both_types peek type_of current_token type_eq
Unary-Begins rest (primary p) f = Primary-Begins rest p f
Unary-Begins rest (negation s p) f = record {
  no_asgn = refl;
  head = tok_not;
  headed = refl;
  open_head = refl;
}

pub Binary-Begins :
    {k : ℕ} {ts : Tokens} {e : AstNode} (rest : Tokens)
    → Binary k ts e
    → Follows 0 rest
    → Begins (ts ++ rest)
Binary-Begins rest (unary u) f = Unary-Begins rest u f
Binary-Begins rest (tighter b) f = Binary-Begins rest b f
Binary-Begins rest (operation o s {ts} {us} r b c) f =
    rw (append_assoc ts (of o s ∷ us) rest) (Binary-Begins (of o s ∷ (us ++ rest)) b (omega arith))

-- The first token of an expression does not close a list of arguments.
pub Expr-Begins :
    {ts : Tokens} {e : AstNode} (rest : Tokens)
    → Expr ts e
    → Follows 0 rest
    → (t : TokenType) × (type_of (current_token (ts ++ rest)) ≡ ok t)
      × (type_eq t tok_rparen ≡ false)
unfolding type_of current_token type_eq
Expr-Begins rest (conditional b) f =
    let s = Binary-Begins rest b f in (s.head, s.headed, s.open_head)
Expr-Begins rest (assignment s a e) f = (tok_ident, refl, refl)

pub loop_true :
    (test : TokenType → Bool) (sub : Parser AstNode) (f : ℕ) (left : AstNode) (t : Token)
    (ts : Tokens)
    → test t.type ≡ true
    → binary_loop test sub (suc f) left (t ∷ ts)
      ≡ bind
          (sub ts)
          (λ (right, ts₁). binary_loop test sub f (bin_exp t.value t.type left right) ts₁)
unfolding binary_loop
loop_true test sub f left t ts e = rw (e, binary_loop)

pub expect_same :
    (o : TokenType) (s : Spelling) (ts : Tokens) → expect o (of o s ∷ ts) ≡ ok (some (of o s), ts)
unfolding expect
expect_same o s ts = rw (type_eq_refl o)

-- One turn of the loop over arguments, at the last argument and before a comma.
module _ (pe : Parser AstNode) (f : ℕ) (ts : Tokens) (h : TokenType) where
  pub args_last :
      type_of (current_token ts) ≡ ok h
      → type_eq h tok_rparen ≡ false
      → (e : AstNode) (r : Spelling) (rest : Tokens) → pe ts ≡ ok (e, of tok_rparen r ∷ rest)
      → args_loop pe (suc f) ts ≡ ok (node e no_nodes, of tok_rparen r ∷ rest)
  unfolding args_loop type_of current_token type_eq
  args_last a b e r rest p = rw (a, args_loop) (rw (b, bind) (rw (p, bind)))

  pub args_more :
      type_of (current_token ts) ≡ ok h
      → type_eq h tok_rparen ≡ false
      → (e : AstNode) (es : Nodes) (c : Spelling) (us rest : Tokens)
      → pe ts ≡ ok (e, of tok_comma c ∷ us)
      → args_loop pe f us ≡ ok (es, rest)
      → args_loop pe (suc f) ts ≡ ok (node e es, rest)
  unfolding args_loop type_of current_token type_eq expect
  args_more a b e es c us rest p q = rw (a, args_loop) (rw (b, bind) (rw (p, bind) (rw q)))
