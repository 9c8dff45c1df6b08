-- ===== src/Parse/Stream.antt =====
-- parse.c: the token stream. A `TokenStream` is the vector of tokens and the place of the current one;
-- the parser's functions take and return the tokens from that place on, which is all they look at.
use my_lang.Prelude.{
  ℕ, Bool, false, Option, none, some, List, [], ◌∷◌, get_elem?, if◌then◌else◌, Outcome, ok, stop,
  Stop, bind,
}
use my_lang.Lex.Token.{Token, TokenType, type_eq}

abbrev pub Tokens : Type 0
Tokens = List Token

abbrev pub Parser {ℓ} : Type ℓ → Type ℓ
Parser A = Tokens → Outcome (A × Tokens)

unfoldable pub current_token : Tokens → Option Token
current_token [] = none
current_token (t ∷ ts) = some t

unfoldable pub peek : Tokens → ℕ → Option Token
peek ts n = get_elem? ts n

unfoldable pub next_token : Tokens → Tokens
next_token [] = []
next_token (t ∷ ts) = ts

-- `token->type`.
unfoldable pub type_of : Option Token → Outcome TokenType
type_of none = stop Stop.null_pointer
type_of (some t) = ok t.type

-- `token->value`.
unfoldable pub deref : Option Token → Outcome Token
deref none = stop Stop.null_pointer
deref (some t) = ok t

-- At the end of the stream nothing is read, and NULL is returned.
unfoldable pub expect : TokenType → Parser (Option Token)
expect want [] = ok (none, [])
expect want (t ∷ ts) = if type_eq t.type want then ok (some t, ts) else stop Stop.failure

-- `a->type == s && b->type == t`: `b` is read only if the first test passes.
unfoldable pub both_types : TokenType → TokenType → Tokens → Outcome Bool
unfolding peek type_of
both_types s t ts =
    bind (type_of (peek ts 0))
      λ a. if type_eq a s then bind (type_of (peek ts 1)) (λ b. ok (type_eq b t)) else ok false

-- The same over three tokens, the first two of a type and an identifier's.
unfoldable pub three_types : TokenType → TokenType → TokenType → Tokens → Outcome Bool
unfolding peek type_of
three_types s t u ts =
    bind (both_types s t ts)
      λ b. if b then bind (type_of (peek ts 2)) (λ c. ok (type_eq c u)) else ok false
