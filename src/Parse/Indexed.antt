-- ===== src/Parse/Indexed.antt =====
-- parse.c: `TokenStream` as it stands, a vector and a place in it, beside the functions of `Stream`.
use native.Mathlib.Nat.{add-zero, add-suc}
use native.Mathlib.Numerals.{add-one}
use my_lang.Prelude.{
  ℕ, zero, suc, ◌+◌, ◌≤◌, ◌<◌, ◌≡◌, sym, ap, ◌∙◌, leb→le, refl, Option, none, some, [], ◌∷◌, length,
  get_elem?, drop, leb, if◌then◌else◌, arith, Bool-cases, inl, inr, Outcome, ok, stop, Stop, bind,
}
use my_lang.Lex.Token.{Token}
use my_lang.Util.Vector.{Vector, vector_get}
use my_lang.Util.Refines.{Represents, get-Represents}
use my_lang.Parse.Stream
use my_lang.Parse.Stream.{Tokens}

pub record TokenStream : Type 0 where
  pub tokens : Vector Token
  pub current : ℕ

unfoldable pub make_token_stream : Vector Token → TokenStream
make_token_stream tokens = record { tokens = tokens; current = 0 }

-- `(Token *)vector_get(...)` is returned, a pointer that is not NULL.
abbrev token_at : Vector Token → ℕ → Outcome (Option Token)
token_at tokens index = bind (vector_get tokens index) λ t. ok (some t)

unfoldable pub current_token : TokenStream → Outcome (Option Token)
current_token s = if leb s.tokens.length s.current then ok none else token_at s.tokens s.current

unfoldable pub peek : TokenStream → ℕ → Outcome (Option Token)
peek s n =
    if leb s.tokens.length (n + s.current) then ok none else token_at s.tokens (n + s.current)

unfoldable pub next_token : TokenStream → TokenStream
next_token s = if leb s.tokens.length s.current then s else record s { current = s.current + 1 }

-- The vector holds the tokens, and the place is one of them, or behind them.
pub record IsStream (s : TokenStream) (ts : Tokens) : Type 0 where
  pub holds : Represents s.tokens ts
  pub place : s.current ≤ length ts

-- The tokens from the current one on.
abbrev pub remaining : TokenStream → Tokens → Tokens
remaining s ts = drop s.current ts

get_elem?-drop : (n m : ℕ) (ts : Tokens) → get_elem? (drop m ts) n ≡ get_elem? ts (n + m)
get_elem?-drop n zero ts = rw (add-zero)
get_elem?-drop n (suc m) [] = ground arith
get_elem?-drop n (suc m) (t ∷ ts) = rw (add-suc) (get_elem?-drop n m ts)

get_elem?-beyond : (ts : Tokens) (n : ℕ) → length ts ≤ n → get_elem? ts n ≡ none
get_elem?-beyond [] n h = refl
get_elem?-beyond (t ∷ ts) zero h = absurd (omega arith)
get_elem?-beyond (t ∷ ts) (suc n) h = get_elem?-beyond ts n (omega arith)

drop-beyond : (ts : Tokens) (n : ℕ) → length ts ≤ n → drop n ts ≡ []
drop-beyond [] zero h = refl
drop-beyond [] (suc n) h = refl
drop-beyond (t ∷ ts) zero h = absurd (omega arith)
drop-beyond (t ∷ ts) (suc n) h = drop-beyond ts n (omega arith)

drop-next : (ts : Tokens) (n : ℕ) → drop (suc n) ts ≡ Stream.next_token (drop n ts)
unfolding Stream.next_token
drop-next [] zero = refl
drop-next [] (suc n) = refl
drop-next (t ∷ ts) zero = refl
drop-next (t ∷ ts) (suc n) = drop-next ts n

head-get : (ts : Tokens) → Stream.current_token ts ≡ get_elem? ts 0
unfolding Stream.current_token
head-get [] = refl
head-get (t ∷ ts) = refl

same-length : {v : Vector Token} {ts : Tokens} → Represents v ts → v.length ≡ length ts
same-length r = ap (λ v. v.length) r.same

-- A guarded read gives the token at the place, if there is one.
guarded :
    (v : Vector Token) (ts : Tokens) (i : ℕ)
    → Represents v ts
    → (if leb v.length i then ok none else token_at v i) ≡ ok (get_elem? ts i)
guarded v ts i r =
    ap (λ n. if leb n i then ok none else token_at v i) (same-length r)
    ∙ ap (λ q. if leb (length ts) i then ok none else bind q λ t. ok (some t))
        (get-Represents v ts i r)
    ∙ elim (Bool-cases (leb (length ts) i)) [
      | inl e ↦ rw e (sym (ap ok (get_elem?-beyond ts i (leb→le _ _ e))))
      | inr e ↦ rw e (inside ts i (ground (arith, e)))
    ]
  where
    inside :
        (ts : Tokens) (i : ℕ)
        → i < length ts
        → bind
            (elim (get_elem? ts i) [ none ↦ stop Stop.failure | some a ↦ ok a ])
            (λ t. ok (some t))
          ≡ ok (get_elem? ts i)
    inside [] i h = absurd (omega arith)
    inside (t ∷ ts) zero h = refl
    inside (t ∷ ts) (suc i) h = inside ts i (omega arith)

module _ (s : TokenStream) (ts : Tokens) (w : IsStream s ts) where
  here : current_token s ≡ ok (Stream.current_token (remaining s ts))
  unfolding current_token
  here =
      guarded s.tokens ts s.current w.holds
      ∙ ap ok (
          sym (
            head-get (remaining s ts)
            ∙ get_elem?-drop 0 s.current ts
            ∙ ap (get_elem? ts) (omega arith)))

  ahead : (n : ℕ) → peek s n ≡ ok (Stream.peek (remaining s ts) n)
  unfolding peek Stream.peek
  ahead n =
      guarded s.tokens ts (n + s.current) w.holds ∙ ap ok (sym (get_elem?-drop n s.current ts))

  next-IsStream : IsStream (next_token s) ts
  unfolding next_token
  next-IsStream =
      let same = same-length w.holds in
      elim (Bool-cases (leb s.tokens.length s.current)) [
        | inl e ↦ rw e w
        | inr e ↦ rw e (record { holds = w.holds; place = ground (arith, e, same) })
      ]

  moved : remaining (next_token s) ts ≡ Stream.next_token (remaining s ts)
  unfolding next_token Stream.next_token
  moved =
      let same = same-length w.holds in
      elim (Bool-cases (leb s.tokens.length s.current)) [
        | inl e ↦ rw (e, drop-beyond ts s.current (ground (arith, e, same)))
        | inr e ↦ rw (e, add-one) (drop-next ts s.current)
      ]

-- Over a vector that holds the tokens and a place in it, or just behind them: looking at the current token
-- and looking ahead by any number of tokens come to an end, without the message of `vector_get` about the
-- index, and give what they give over the list of the tokens that remain; moving on leaves the list that
-- it leaves there, and a place that is in the vector or just behind it again.
pub IsStream-remaining :
    (s : TokenStream) (ts : Tokens) (n : ℕ)
    → IsStream s ts
    → (current_token s ≡ ok (Stream.current_token (remaining s ts)))
      × (peek s n ≡ ok (Stream.peek (remaining s ts) n))
      × (remaining (next_token s) ts ≡ Stream.next_token (remaining s ts))
      × IsStream (next_token s) ts
IsStream-remaining s ts n w = (here s ts w, ahead s ts w n, moved s ts w, next-IsStream s ts w)
