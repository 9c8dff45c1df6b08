-- ===== src/Lex/Total.antt =====
-- lex.c: how far the loops of the lexer move, for its termination.
use my_lang.Prelude.{
  ℕ, zero, suc, ◌+◌, ◌-◌, ◌*◌, ◌≤◌, ◌<◌, ◌≡◌, ◌≢◌, ◌⊎◌, inl, inr, Bool, true, not, ◌&&◌, [], ◌∷◌,
  ◌++◌, ◌==◌, ltb, arith, Bytes, Post, returns, stops, Fueled, Post-bind, Bool-cases,
}
use my_lang.Util.{int_max, is_digit}
use my_lang.Lex.Scan.{
  Lexer, next, back, put_back, digit_loop, tokenize_digit, ident_loop, is_ident_char,
  is_ident_start, tokenize_ident, comment_loop,
}

-- `lx` reads the input of `lx₀` and stands at or after it; past it, if `c` is no end of the stream.
pub record Behind (lx₀ : Lexer) (c : ℕ) (lx : Lexer) : Type 0 where
  pub same_input : lx.input ≡ lx₀.input
  pub same_length : lx.length ≡ lx₀.length
  pub after : lx₀.curr ≤ lx.curr
  pub beyond : (c ≡ 0) ⊎ (lx₀.curr < lx.curr)

-- Enough fuel for a loop at the character `c`.
abbrev Enough : ℕ → ℕ → Lexer → Type 0
Enough f c lx = (1 ≤ f) × ((c ≡ 0) ⊎ (lx.length - lx.curr + 2 ≤ f))

next-Behind :
    (lx₀ : Lexer) (c : ℕ) (lx : Lexer) → Behind lx₀ c lx → Behind lx₀ (next lx).0 (next lx).1
unfolding next
next-Behind lx₀ c lx b = ground arith

pub next-Behind_self : (lx : Lexer) → Behind lx (next lx).0 (next lx).1
unfolding next
next-Behind_self lx = ground arith

next-Enough :
    (f c : ℕ) (lx : Lexer) → Enough (suc f) c lx → c ≢ 0 → Enough f (next lx).0 (next lx).1
unfolding next
next-Enough f c lx e h = ground arith

put_back-le : (lx₀ : Lexer) (c : ℕ) (lx : Lexer) → Behind lx₀ c lx → Behind lx₀ 0 (put_back c lx)
unfolding back
put_back-le lx₀ c lx b = ground arith

nonzero : (c : ℕ) (b : Bool) → (not (c == 0) && b) ≡ true → c ≢ 0
nonzero c b h = ground arith

digit_loop-Behind :
    (lx₀ : Lexer) (f c digit size : ℕ) (lx : Lexer)
    → Enough f c lx
    → Behind lx₀ c lx
    → Post (λ r. Behind lx₀ r.0 r.3) Fueled (digit_loop f c digit size lx)
unfolding digit_loop
digit_loop-Behind lx₀ zero c digit size lx e b = absurd (omega arith)
digit_loop-Behind lx₀ (suc f) c digit size lx e b =
    let v = digit * 10 + (c - 48) in
    elim (Bool-cases (not (c == 0) && is_digit c)) [
      | inr done ↦ rw done (returns b)
      | inl more ↦
          let ih =
            digit_loop-Behind lx₀ f (next lx).0 v (size + 1) (next lx).1
              (next-Enough f c lx e (nonzero c _ more)) (next-Behind lx₀ c lx b) in
          elim (Bool-cases (ltb int_max v)) [
            | inl big ↦ rw (more, big) (stops cc)
            | inr small ↦ rw (more, small) ih
          ]
    ]

ident_loop-Behind :
    (lx₀ : Lexer) (f c : ℕ) (ident : Bytes) (lx : Lexer)
    → Enough f c lx
    → Behind lx₀ c lx
    → Post (λ r. Behind lx₀ r.0 r.2) Fueled (ident_loop f c ident lx)
unfolding ident_loop
ident_loop-Behind lx₀ zero c ident lx e b = absurd (omega arith)
ident_loop-Behind lx₀ (suc f) c ident lx e b = elim (Bool-cases (not (c == 0) && is_ident_char c)) [
  | inr done ↦ rw done (returns b)
  | inl more ↦ rw more (
      ident_loop-Behind lx₀ f (next lx).0 (ident ++ c ∷ []) (next lx).1
        (next-Enough f c lx e (nonzero c _ more)) (next-Behind lx₀ c lx b))
]

next_fuel :
    (f : ℕ) (lx : Lexer)
    → lx.length - lx.curr + 1 ≤ suc f
    → (next lx).0 ≢ 0
    → (next lx).1.length - (next lx).1.curr + 1 ≤ f
unfolding next
next_fuel f lx e h = ground arith

pub weaken : (lx₀ : Lexer) (c : ℕ) (lx : Lexer) → Behind lx₀ c lx → Behind lx₀ 0 lx
weaken lx₀ c lx b = ground arith

pub comment_loop-Behind :
    (lx₀ : Lexer) (f : ℕ) (lx : Lexer)
    → lx.length - lx.curr + 1 ≤ f
    → Behind lx₀ 0 lx
    → Post (λ r. Behind lx₀ 0 r.1) Fueled (comment_loop f lx)
unfolding comment_loop
comment_loop-Behind lx₀ zero lx e b = absurd (omega arith)
comment_loop-Behind lx₀ (suc f) lx e b =
    elim (Bool-cases (not ((next lx).0 == 0) && not ((next lx).0 == 10))) [
      | inr done ↦ rw done (returns (weaken lx₀ _ _ (next-Behind lx₀ 0 lx b)))
      | inl more ↦ rw more (
          comment_loop-Behind lx₀ f (next lx).1 (next_fuel f lx e (nonzero _ _ more))
            (weaken lx₀ _ _ (next-Behind lx₀ 0 lx b)))
    ]

test_true : (c : ℕ) (b : Bool) → c ≢ 0 → b ≡ true → (not (c == 0) && b) ≡ true
test_true c b h e = ground arith

-- The first turn of each loop is taken, so that the lexer is past its start when it stops.
digit_first :
    (lx : Lexer) (f c digit size : ℕ)
    → c ≢ 0
    → is_digit c ≡ true
    → Enough f (next lx).0 (next lx).1
    → Post (λ r. Behind lx r.0 r.3) Fueled (digit_loop (suc f) c digit size lx)
unfolding digit_loop
digit_first lx f c digit size h d e =
    let v = digit * 10 + (c - 48) in
    elim (Bool-cases (ltb int_max v)) [
      | inl big ↦ rw (test_true c _ h d, big) (stops cc)
      | inr small ↦
          rw (test_true c _ h d, small)
            (digit_loop-Behind lx f (next lx).0 v (size + 1) (next lx).1 e (next-Behind_self lx))
    ]

ident_first :
    (lx : Lexer) (f c : ℕ) (ident : Bytes)
    → c ≢ 0
    → is_ident_char c ≡ true
    → Enough f (next lx).0 (next lx).1
    → Post (λ r. Behind lx r.0 r.2) Fueled (ident_loop (suc f) c ident lx)
unfolding ident_loop
ident_first lx f c ident h d e =
    rw (test_true c _ h d)
      (ident_loop-Behind lx f (next lx).0 (ident ++ c ∷ []) (next lx).1 e (next-Behind_self lx))

start-Enough : (lx : Lexer) → Enough (suc lx.length) (next lx).0 (next lx).1
unfolding next
start-Enough lx = ground arith

pub tokenize_digit-Behind :
    (c : ℕ) (lx : Lexer)
    → c ≢ 0
    → is_digit c ≡ true
    → Post (λ r. Behind lx 0 r.2) Fueled (tokenize_digit c lx)
unfolding tokenize_digit
tokenize_digit-Behind c lx h d =
    Post-bind (digit_first lx (suc lx.length) c 0 1 h d (start-Enough lx))
      λ (c', digit, size, lx') b. returns (put_back-le lx c' lx' b)

ident_start-char : (c : ℕ) → is_ident_start c ≡ true → is_ident_char c ≡ true
ident_start-char c h = ground arith

pub tokenize_ident-Behind :
    (c : ℕ) (lx : Lexer)
    → c ≢ 0
    → is_ident_start c ≡ true
    → Post (λ r. Behind lx 0 r.2) Fueled (tokenize_ident c lx)
unfolding tokenize_ident
tokenize_ident-Behind c lx h d =
    Post-bind (ident_first lx (suc lx.length) c [] h (ident_start-char c d) (start-Enough lx))
      λ (c', ident, lx') b. returns (put_back-le lx c' lx' b)
