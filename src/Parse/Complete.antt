-- ===== src/Parse/Complete.antt =====
-- parse.c: the expression parser on what the grammar derives.
use my_lang.Prelude.{
  ℕ, zero, suc, ◌+◌, ◌≤◌, ◌<◌, ◌≡◌, ◌∙◌, [], ◌∷◌, ◌++◌, length, arith, ok, append_assoc,
  length-append,
}
use my_lang.Lex.Token.{tok_rparen, tok_comma}
use my_lang.Ast.{AstNode, Nodes}
use my_lang.Parse.Stream.{Tokens}
use my_lang.Parse.Expression.{
  args_loop, parse_primary_expression, parse_cast_expression, parse_expression, expression,
}
use my_lang.Parse.Grammar.{
  of, Spelling, Primary, number, variable, call_empty, call, parens, Unary, primary, negation,
  Binary, unary, tighter, operation, Expr, conditional, assignment, Args, last, more,
}
use my_lang.Parse.Levels.{level_parser}
use my_lang.Parse.Steps.{
  cast-primary, level_step, loop_operation, number_step, call_empty_step, call_step, parens_step,
  negation_step, variable_step, conditional_step, assignment_step, level_zero,
}
use my_lang.Parse.Operands.{
  Follows, Follows-le, finish, finish-Follows, Binary-Begins, Expr-Begins, args_last, args_more,
}

-- What is proved of a derivation at each level, with fuel `n` above the length of what is read.
abbrev ReadsPrimary : Tokens → AstNode → Type 0
ReadsPrimary ts e =
    (n : ℕ) (rest : Tokens)
    → length ts ≤ n
    → Follows 0 rest
    → parse_primary_expression (parse_expression n) (ts ++ rest) ≡ ok (e, rest)

abbrev ReadsUnary : Tokens → AstNode → Type 0
ReadsUnary ts e =
    (n : ℕ) (rest : Tokens)
    → length ts ≤ n
    → Follows 0 rest
    → parse_cast_expression (parse_expression n) (ts ++ rest) ≡ ok (e, rest)

-- The level whose operators may follow an operand of level `k`.
abbrev below : ℕ → ℕ
below zero = zero
below (suc k) = k

below-le : (k : ℕ) → below k ≤ k
below-le zero = omega arith
below-le (suc k) = omega arith

abbrev ReadsBinary : ℕ → Tokens → AstNode → Type 0
ReadsBinary k ts e =
    (n : ℕ) (rest : Tokens)
    → k ≤ 10
    → length ts ≤ n
    → Follows (below k) rest
    → (f : ℕ) × (length rest < f)
      × (level_parser (parse_expression n) k (ts ++ rest) ≡ finish (parse_expression n) k f e rest)

abbrev ReadsExpr : Tokens → AstNode → Type 0
ReadsExpr ts e =
    (n : ℕ) (rest : Tokens)
    → length ts < n
    → Follows 10 rest
    → parse_expression n (ts ++ rest) ≡ ok (e, rest)

abbrev ReadsArgs : Tokens → Nodes → Type 0
ReadsArgs ts es =
    (n f : ℕ) (r : Spelling) (rest : Tokens)
    → length ts < n
    → length ts < f
    → args_loop (parse_expression n) f (ts ++ of tok_rparen r ∷ rest)
      ≡ ok (es, of tok_rparen r ∷ rest)

length-append_tokens : (xs ys : Tokens) → length (xs ++ ys) ≡ length xs + length ys
length-append_tokens = length-append

ruleset lengths = (arith, length-append_tokens)

mutual
  Primary-Reads : {ts : Tokens} {e : AstNode} → Primary ts e → ReadsPrimary ts e
  Primary-Reads (number s n h) m rest l f = number_step (parse_expression m) rest s n h
  Primary-Reads (variable s) m [] l f = absurd f
  Primary-Reads (variable s) m (t ∷ rest) l f = variable_step (parse_expression m) s t rest f
  Primary-Reads (call_empty s a b) m rest l f = call_empty_step (parse_expression m) rest s a b
  Primary-Reads (call s a b {ts} {es} d) m rest l f =
      let tail = ts ++ of tok_rparen b ∷ rest in
      rw (append_assoc ts (of tok_rparen b ∷ []) rest) (
        call_step (parse_expression m) rest s a b tail es
          (Args-Reads d m (suc (length tail)) b rest (omega lengths) (omega lengths)))
  Primary-Reads (parens a b {ts} {e} d) m rest l f =
      let tail = ts ++ of tok_rparen b ∷ rest in
      rw (append_assoc ts (of tok_rparen b ∷ []) rest) (
        parens_step (parse_expression m) rest a b tail e
          (Expr-Reads d m (of tok_rparen b ∷ rest) (omega lengths) (omega arith)))

  Unary-Reads : {ts : Tokens} {e : AstNode} → Unary ts e → ReadsUnary ts e
  Unary-Reads (primary p) n rest l f =
      cast-primary (parse_expression n) rest p ∙ Primary-Reads p n rest l f
  Unary-Reads (negation s {ts} {e} p) n rest l f =
      negation_step (parse_expression n) rest s (ts ++ rest) e
        (Primary-Reads p n rest (omega arith) f)

  Binary-Reads : {k : ℕ} {ts : Tokens} {e : AstNode} → Binary k ts e → ReadsBinary k ts e
  Binary-Reads (unary {ts} {e} u) n rest h l f = (
    suc (length rest),
    omega arith,
    level_zero (parse_expression n) (ts ++ rest) ∙ Unary-Reads u n rest l f,
  )
  Binary-Reads (tighter {k} {ts} {e} b) n rest h l f =
      let (g, lt, run) =
        Binary-Reads b n rest (omega arith) l (Follows-le (below k) k rest (below-le k) f) in
      (
        suc (length rest),
        omega arith,
        level_step (parse_expression n) k (ts ++ rest) e rest
            (run ∙ finish-Follows (parse_expression n) k g e rest (omega arith) lt f),
      )
  Binary-Reads (operation {k} o s {ts} {us} {e} {e'} r b c) n rest h l f =
      let (g, lt, run) = Binary-Reads b n (of o s ∷ (us ++ rest)) h (omega lengths) (omega arith) in
      let (g', lt', run') =
        Binary-Reads c n rest (omega arith) (omega lengths)
          (Follows-le (below k) k rest (below-le k) f) in
      let (f', m, step) =
        loop_operation (parse_expression n) k g o s e e' us rest h r (omega arith) (omega lengths)
          (run' ∙ finish-Follows (parse_expression n) k g' e' rest (omega arith) lt' f) in
      (f', m, rw (append_assoc ts (of o s ∷ us) rest) (run ∙ step))

  Expr-Reads : {ts : Tokens} {e : AstNode} → Expr ts e → ReadsExpr ts e
  Expr-Reads (conditional b) zero rest l f = absurd (omega arith)
  Expr-Reads (conditional {ts} {e} b) (suc n) rest l f =
      let (g, lt, run) =
        Binary-Reads b n rest (omega arith) (omega arith) (Follows-le 9 10 rest (omega arith) f) in
      let begin = Binary-Begins rest b (Follows-le 0 10 rest (omega arith) f) in
      conditional_step n (ts ++ rest) (e, rest) begin.no_asgn
        (run ∙ finish-Follows (parse_expression n) 10 g e rest (omega arith) lt f)
  Expr-Reads (assignment s a b) zero rest l f = absurd (omega arith)
  Expr-Reads (assignment s a {ts} {e} b) (suc n) rest l f =
      assignment_step n s a (ts ++ rest) rest e (Expr-Reads b n rest (omega arith) f)

  Args-Reads : {ts : Tokens} {es : Nodes} → Args ts es → ReadsArgs ts es
  Args-Reads (last e) n zero r rest l m = absurd (omega arith)
  Args-Reads (last {ts} {e = x} d) n (suc f) r rest l m =
      let (h, a, b) = Expr-Begins (of tok_rparen r ∷ rest) d (omega arith) in
      args_last (parse_expression n) f (ts ++ of tok_rparen r ∷ rest) h a b x r rest
        (Expr-Reads d n (of tok_rparen r ∷ rest) l (omega arith))
  Args-Reads (more c e a) n zero r rest l m = absurd (omega arith)
  Args-Reads (more c {ts} {us} {e = x} {es} d a) n (suc f) r rest l m =
      let tail = us ++ of tok_rparen r ∷ rest in
      let (h, q, b) = Expr-Begins (of tok_comma c ∷ tail) d (omega arith) in
      rw (append_assoc ts (of tok_comma c ∷ us) (of tok_rparen r ∷ rest)) (
        args_more (parse_expression n) f (ts ++ of tok_comma c ∷ tail) h q b x es c tail
          (of tok_rparen r ∷ rest)
          (Expr-Reads d n (of tok_comma c ∷ tail) (omega lengths) (omega arith))
          (Args-Reads a n f r rest (omega lengths) (omega lengths)))

-- The grammar derives `ts` as an expression with tree `e`: then the parser, on `ts` and any tokens
-- behind it that begin with one that no expression goes on with, returns `e` and leaves those tokens.
pub expression-Derives :
    {ts : Tokens} {e : AstNode} (rest : Tokens)
    → Expr ts e
    → Follows 10 rest
    → expression (ts ++ rest) ≡ ok (e, rest)
expression-Derives {ts} rest d f = Expr-Reads d (suc (length (ts ++ rest))) rest (omega lengths) f
