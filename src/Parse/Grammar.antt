-- ===== src/Parse/Grammar.antt =====
-- The grammar of expressions, as a specification of the parser of parse.c: C's, cut down to ten levels
-- of binary operators, all of which group to the left.
use my_lang.Prelude.{ℕ, zero, suc, ◌≡◌, none, [], ◌∷◌, ◌++◌, Bytes}
use my_lang.Prelude.Int.{ℤ}
use my_lang.Util.{success, str2int}
use my_lang.Lex.Token.{
  Token, TokenType, tok_ident, tok_num, tok_add, tok_sub, tok_mult, tok_div, tok_lparen, tok_rparen,
  tok_assign, tok_comma, tok_equal, tok_not_equal, tok_not, tok_and, tok_or, tok_xor, tok_log_or,
  tok_log_and, tok_lshift, tok_rshift, tok_gt, tok_lt, tok_gt_eq, tok_lt_eq,
}
use my_lang.Ast.{
  AstNode, Nodes, no_nodes, node, int_const, ident, func_call, unary_expr, bin_exp, var_asgn, lval,
}
use my_lang.Parse.Stream.{Tokens}

-- How loosely an operator binds: 1 for `*` and `/`, 10 for `||`. Any other token ends an operand of
-- every level, but for `(` and `=`, which behind a name begin a call and an assignment.
abbrev pub rank : TokenType → ℕ
rank tok_mult = 1
rank tok_div = 1
rank tok_add = 2
rank tok_sub = 2
rank tok_lshift = 3
rank tok_rshift = 3
rank tok_gt = 4
rank tok_lt = 4
rank tok_gt_eq = 4
rank tok_lt_eq = 4
rank tok_equal = 5
rank tok_not_equal = 5
rank tok_and = 6
rank tok_xor = 7
rank tok_or = 8
rank tok_log_and = 9
rank tok_log_or = 10
rank tok_lparen = 0
rank tok_assign = 0
rank _ = 11

abbrev pub tok : TokenType → Bytes → ℕ → ℕ → Token
tok t v p l = record { type = t; value = v; pos = p; line = l }

-- A token of a type, with any text and place.
abbrev pub Spelling : Type 0
Spelling = Bytes × ℕ × ℕ

abbrev pub of : TokenType → Spelling → Token
of t s = tok t s.0 s.1 s.2

mutual
  pub data Primary : Tokens → AstNode → Type 0 where
    number :
        (s : Spelling) (n : ℤ) → str2int s.0 ≡ success n → Primary (of tok_num s ∷ []) (int_const n)
    variable : (s : Spelling) → Primary (of tok_ident s ∷ []) (ident s.0 none)
    call_empty :
        (s l r : Spelling)
        → Primary
            (of tok_ident s ∷ of tok_lparen l ∷ of tok_rparen r ∷ [])
            (func_call s.0 no_nodes none)
    call :
        (s l r : Spelling) {ts : Tokens} {es : Nodes}
        → Args ts es
        → Primary
            (of tok_ident s ∷ of tok_lparen l ∷ (ts ++ of tok_rparen r ∷ []))
            (func_call s.0 es none)
    parens :
        (l r : Spelling) {ts : Tokens} {e : AstNode}
        → Expr ts e
        → Primary (of tok_lparen l ∷ (ts ++ of tok_rparen r ∷ [])) e

  pub data Unary : Tokens → AstNode → Type 0 where
    primary : {ts : Tokens} {e : AstNode} → Primary ts e → Unary ts e
    negation :
        (s : Spelling) {ts : Tokens} {e : AstNode}
        → Primary ts e
        → Unary (of tok_not s ∷ ts) (unary_expr e s.0 tok_not)

  -- An operand of the operators that bind more loosely than level `k`.
  pub data Binary : ℕ → Tokens → AstNode → Type 0 where
    unary : {ts : Tokens} {e : AstNode} → Unary ts e → Binary zero ts e
    tighter : {k : ℕ} {ts : Tokens} {e : AstNode} → Binary k ts e → Binary (suc k) ts e
    operation :
        {k : ℕ} (o : TokenType) (s : Spelling) {ts us : Tokens} {e e' : AstNode}
        → rank o ≡ suc k
        → Binary (suc k) ts e
        → Binary k us e'
        → Binary (suc k) (ts ++ of o s ∷ us) (bin_exp s.0 o e e')

  pub data Expr : Tokens → AstNode → Type 0 where
    conditional : {ts : Tokens} {e : AstNode} → Binary 10 ts e → Expr ts e
    assignment :
        (s a : Spelling) {ts : Tokens} {e : AstNode}
        → Expr ts e
        → Expr (of tok_ident s ∷ of tok_assign a ∷ ts) (var_asgn (lval (ident s.0 none)) e)

  pub data Args : Tokens → Nodes → Type 0 where
    last : {ts : Tokens} {e : AstNode} → Expr ts e → Args ts (node e no_nodes)
    more :
        (c : Spelling) {ts us : Tokens} {e : AstNode} {es : Nodes}
        → Expr ts e
        → Args us es
        → Args (ts ++ of tok_comma c ∷ us) (node e es)
