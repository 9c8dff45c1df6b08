-- ===== src/Lex/Tokenize.antt =====
-- lex.c: `tokenize`.
use my_lang.Prelude.{
  ℕ, zero, suc, ◌+◌, Bool, true, false, ◌||◌, Option, none, some, List, [], ◌∷◌, ◌==◌,
  if◌then◌else◌, Bytes, Outcome, ok, stop, Stop, bind,
}
use my_lang.Util.{is_digit}
use my_lang.Lex.Token.{
  TokenType, Token, tok_add, tok_sub, tok_mult, tok_div, tok_lparen, tok_rparen, tok_lbrace,
  tok_rbrace, tok_semicolon, tok_assign, tok_comma, tok_equal, tok_not_equal, tok_not, tok_and,
  tok_or, tok_xor, tok_log_or, tok_log_and, tok_lshift, tok_rshift, tok_gt, tok_lt, tok_gt_eq,
  tok_lt_eq,
}
use my_lang.Lex.Scan.{
  Lexer, next, back, is_ident_start, tokenize_digit, tokenize_ident, comment_loop,
}

-- What one turn of the loop leaves: the type and value that were written to the token, if any, the
-- variables `c`, `pos` and `line`, and the lexer.
pub record Scanned : Type 0 where
  pub written : Option (TokenType × Bytes)
  pub c : ℕ
  pub lexer : Lexer
  pub pos : ℕ
  pub line : ℕ

-- The cases of one character.
unfoldable pub single_char : ℕ → Option TokenType
single_char c =
    if c == b'+'
    then some tok_add
    else if c == b'-'
    then some tok_sub
    else if c == b'*'
    then some tok_mult
    else if c == b';'
    then some tok_semicolon
    else if c == b'('
    then some tok_lparen
    else if c == b')'
    then some tok_rparen
    else if c == b'{'
    then some tok_lbrace
    else if c == b'}'
    then some tok_rbrace
    else if c == b'^'
    then some tok_xor
    else if c == b','
    then some tok_comma
    else none

-- The cases of `&`, `|`, `=` and `!`: the type at a second character, and the type without it.
unfoldable pub pair_char : ℕ → Option (ℕ × TokenType × TokenType)
pair_char c =
    if c == b'&'
    then some (b'&', tok_log_and, tok_and)
    else if c == b'|'
    then some (b'|', tok_log_or, tok_or)
    else if c == b'='
    then some (b'=', tok_equal, tok_assign)
    else if c == b'!'
    then some (b'=', tok_not_equal, tok_not)
    else none

-- The cases of `<` and `>`: the types at the same character again, at `=`, and without either.
unfoldable pub angle_char : ℕ → Option (TokenType × TokenType × TokenType)
angle_char c =
    if c == b'<'
    then some (tok_lshift, tok_lt_eq, tok_lt)
    else if c == b'>'
    then some (tok_rshift, tok_gt_eq, tok_gt)
    else none

module _ (c : ℕ) (lx : Lexer) (pos line : ℕ) where
  abbrev pub write : TokenType → Bytes → Lexer → Scanned
  write t v lx' = record { written = some (t, v); c = c; lexer = lx'; pos = pos; line = line }

  unfoldable pub scan_pair : ℕ → TokenType → TokenType → Scanned
  scan_pair second double single =
      if (next lx).0 == second
      then write double (c ∷ second ∷ []) (next lx).1
      else write single (c ∷ []) (back (next lx).1)

  unfoldable pub scan_angle : TokenType → TokenType → TokenType → Scanned
  scan_angle shift or_equal plain =
      if (next lx).0 == c
      then write shift (c ∷ c ∷ []) (next lx).1
      else if (next lx).0 == b'='
      then write or_equal (c ∷ b'=' ∷ []) (next lx).1
      else write plain (c ∷ []) (back (next lx).1)

  -- A comment writes nothing to the token, and `c` becomes the character that ended it.
  unfoldable pub scan_slash : Outcome Scanned
  scan_slash =
      if (next lx).0 == b'/'
      then bind (comment_loop (suc (suc lx.length)) (next lx).1) (λ (c', lx').
        ok (record { written = none; c = c'; lexer = lx'; pos = 1; line = line + 1 }))
      else ok (write tok_div (c ∷ []) (back (next lx).1))

  -- The blank characters, and the default case.
  unfoldable pub scan_other : Outcome Scanned
  scan_other =
      if c == 10
      then ok (record { written = none; c = c; lexer = lx; pos = 1; line = line + 1 })
      else if c == 9 || c == 32
      then ok (record { written = none; c = c; lexer = lx; pos = pos; line = line })
      else if is_digit c
      then bind (tokenize_digit c lx) (λ (t, v, lx'). ok (write t v lx'))
      else if is_ident_start c
      then bind (tokenize_ident c lx) (λ (t, v, lx'). ok (write t v lx'))
      else stop Stop.failure

  -- The `switch`, at the character `c` that was read.
  unfoldable pub scan : Outcome Scanned
  scan = elim (single_char c) [
    | some t ↦ ok (write t (c ∷ []) lx)
    | none ↦ elim (pair_char c) [
      | some (second, double, single) ↦ ok (scan_pair second double single)
      | none ↦ elim (angle_char c) [
        | some (shift, or_equal, plain) ↦ ok (scan_angle shift or_equal plain)
        | none ↦ if c == b'/' then scan_slash else scan_other
      ]
    ]
  ]

abbrev pub is_blank : ℕ → Bool
is_blank c = c == 32 || c == 10 || c == 9

-- The main loop; the result holds the tokens that are pushed from here on. A token that is pushed
-- with no type and value written holds indeterminate memory, which the parser reads.
unfoldable pub tokenize_loop : ℕ → Lexer → ℕ → ℕ → Outcome (List Token)
tokenize_loop zero lx pos line = stop Stop.out_of_fuel
tokenize_loop (suc f) lx pos line = elim ((next lx).0 == 0) [
  | true ↦ ok []
  | false ↦ bind (scan (next lx).0 (next lx).1 pos line) λ s. elim (is_blank s.c) [
    | true ↦ tokenize_loop f s.lexer (s.pos + 1) s.line
    | false ↦ elim s.written [
      | none ↦ stop Stop.undefined
      | some (t, v) ↦
          bind (tokenize_loop f s.lexer (s.pos + 1) s.line)
            λ ts. ok (record { type = t; value = v; pos = s.pos; line = s.line } ∷ ts)
    ]
  ]
]

unfoldable pub tokenize : Bytes → ℕ → Outcome (List Token)
tokenize input length =
    tokenize_loop (suc length) (record { input = input; curr = 0; length = length }) 1 1

-- What a run of the lexer unfolds.
unfoldable pub lexer_program : Unit {0}
unfolding tokenize tokenize_loop scan single_char pair_char angle_char scan_pair scan_angle
    scan_slash scan_other comment_loop tokenize_digit tokenize_ident next back
lexer_program = tt
