-- ===== src/Lex/Scan.antt =====
-- lex.c: the character stream, and the tokens of more than one kind of character.
use my_lang.Prelude.{
  ℕ, zero, suc, ◌+◌, ◌-◌, ◌*◌, Bool, not, ◌&&◌, ◌||◌, [], ◌∷◌, ◌++◌, ltb, leb, ◌==◌, if◌then◌else◌,
  get_or, Bytes, bytes, strcmp_eq, Outcome, ok, stop, Stop, bind,
}
use my_lang.Prelude.Int.{pos}
use my_lang.Util.{int_max, is_digit, int_to_str}
use my_lang.Lex.Token.{
  TokenType, tok_ident, tok_num, tok_type, tok_return, tok_if, tok_else, tok_enum, tok_while,
  tok_for,
}

-- `struct Lexer`. `curr` never falls below 0: `back` follows a `next` that has moved it.
pub record Lexer : Type 0 where
  pub input : Bytes
  pub curr : ℕ
  pub length : ℕ

-- The character and the lexer behind it; 0 at the end of the stream, where `curr` stays.
unfoldable pub next : Lexer → ℕ × Lexer
next lx =
    if leb lx.length lx.curr
    then (0, lx)
    else (get_or lx.input lx.curr 0, record lx { curr = lx.curr + 1 })

-- `lexer->curr--`, at the end of the stream as elsewhere.
unfoldable pub back : Lexer → Lexer
back lx = record lx { curr = lx.curr - 1 }

abbrev pub is_ident_start : ℕ → Bool
is_ident_start c = leb b'A' c && leb c b'Z' || leb b'a' c && leb c b'z' || c == b'_'

abbrev pub is_ident_char : ℕ → Bool
is_ident_char c =
    leb b'A' c && leb c b'Z' || leb b'a' c && leb c b'z' || leb b'0' c && leb c b'9' || c == b'_'

-- "Put back last char" unless it is the end of the stream.
abbrev pub put_back : ℕ → Lexer → Lexer
put_back c lx = if c == 0 then lx else back lx

-- The `while` loop of `tokenize_digit`: the character that ends it, `digit`, `size`, the lexer.
unfoldable pub digit_loop : ℕ → ℕ → ℕ → ℕ → Lexer → Outcome (ℕ × ℕ × ℕ × Lexer)
digit_loop zero c digit size lx = stop Stop.out_of_fuel
digit_loop (suc f) c digit size lx =
    let digit' = digit * 10 + (c - 48) in
    let more = digit_loop f (next lx).0 digit' (size + 1) (next lx).1 in
    if not (c == 0) && is_digit c
    then if ltb int_max digit' then stop Stop.undefined else more
    else ok (c, digit, size, lx)

-- `tokenize_digit`: the value and type of the token, and the lexer behind it.
unfoldable pub tokenize_digit : ℕ → Lexer → Outcome (TokenType × Bytes × Lexer)
unfolding digit_loop next back int_to_str
tokenize_digit c lx =
    bind (digit_loop (suc (suc lx.length)) c 0 1 lx)
      λ (c', digit, size, lx'). ok (tok_num, int_to_str (pos digit) size, put_back c' lx')

-- The `while` loop of `tokenize_ident`.
unfoldable pub ident_loop : ℕ → ℕ → Bytes → Lexer → Outcome (ℕ × Bytes × Lexer)
ident_loop zero c ident lx = stop Stop.out_of_fuel
ident_loop (suc f) c ident lx =
    let more = ident_loop f (next lx).0 (ident ++ c ∷ []) (next lx).1 in
    if not (c == 0) && is_ident_char c then more else ok (c, ident, lx)

-- "Handle Keywords"
unfoldable pub keyword : Bytes → TokenType
unfolding strcmp_eq
keyword s =
    if strcmp_eq s (bytes "int")
    then tok_type
    else if strcmp_eq s (bytes "void")
    then tok_type
    else if strcmp_eq s (bytes "return")
    then tok_return
    else if strcmp_eq s (bytes "if")
    then tok_if
    else if strcmp_eq s (bytes "else")
    then tok_else
    else if strcmp_eq s (bytes "enum")
    then tok_enum
    else if strcmp_eq s (bytes "while")
    then tok_while
    else if strcmp_eq s (bytes "for")
    then tok_for
    else tok_ident

unfoldable pub tokenize_ident : ℕ → Lexer → Outcome (TokenType × Bytes × Lexer)
unfolding ident_loop next back keyword
tokenize_ident c lx =
    bind (ident_loop (suc (suc lx.length)) c [] lx)
      λ (c', ident, lx'). ok (keyword ident, ident, put_back c' lx')

-- The rest of a line comment: the character that ends it, a newline or 0.
unfoldable pub comment_loop : ℕ → Lexer → Outcome (ℕ × Lexer)
comment_loop zero lx = stop Stop.out_of_fuel
comment_loop (suc f) lx =
    let more = comment_loop f (next lx).1 in
    let peek = (next lx).0 in
    if not (peek == 0) && not (peek == 10) then more else ok (peek, (next lx).1)
