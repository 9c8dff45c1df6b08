-- ===== src/Lex/Ends.antt =====
-- lex.c: termination of `tokenize`, by the last character of the input.
use my_lang.Prelude.{
  ℕ, zero, suc, ◌+◌, ◌-◌, ◌<◌, ◌≡◌, refl, sym, ◌∙◌, ◌≢◌, ◌⊎◌, inl, inr, Bool, true, false, ◌||◌,
  some, [], ◌∷◌, ◌==◌, get_or, arith, Bytes, Stop, stop, ok, bind, Post, returns, stops, Fueled,
  Post-bind, Bool-cases, Option-cases,
}
use mathlib.Core.Path.{subst}
use native.Mathlib.Decide.{dec_lt}
use my_lang.Util.{is_digit}
use my_lang.Lex.Token.{TokenType, tok_div, tok_and, tok_or, tok_assign, tok_not, tok_lt, tok_gt}
use my_lang.Lex.Scan.{Lexer, next, back, is_ident_start}
use my_lang.Lex.Tokenize.{
  Scanned, single_char, pair_char, angle_char, scan_pair, scan_angle, scan_slash, scan_other, scan,
  tokenize_loop, tokenize, is_blank, write,
}
use my_lang.Lex.Total.{
  Behind, comment_loop-Behind, tokenize_digit-Behind, tokenize_ident-Behind, next-Behind_self,
  weaken,
}

-- A character after which the `switch` reads one more: `/ & | = ! < >`.
abbrev pub opens_pair : ℕ → Bool
opens_pair c =
    c == b'/' || c == b'&' || c == b'|' || c == b'=' || c == b'!' || c == b'<' || c == b'>'

module _ (c : ℕ) (lx : Lexer) (room : (lx.curr < lx.length) ⊎ (opens_pair c ≡ false)) where
  pair_room : (r : ℕ × TokenType × TokenType) → pair_char c ≡ some r → lx.curr < lx.length
  unfolding pair_char
  pair_room r e = ground arith

  angle_room : (r : TokenType × TokenType × TokenType) → angle_char c ≡ some r → lx.curr < lx.length
  unfolding angle_char
  angle_room r e = ground arith

  slash_room : (c == b'/') ≡ true → lx.curr < lx.length
  slash_room e = ground arith

record Advanced (lx : Lexer) (c : ℕ) (lx' : Lexer) : Type 0 where
  char : c ≡ get_or lx.input lx.curr 0
  room : lx.curr < lx.length
  one : lx'.curr ≡ lx.curr + 1
  same_input : lx'.input ≡ lx.input
  same_length : lx'.length ≡ lx.length

abbrev Keeps : Lexer → Scanned → Type 0
Keeps lx s = Behind lx 0 s.lexer

self-Behind : (lx : Lexer) → Behind lx 0 lx
self-Behind lx = ground arith

back-Behind : (lx : Lexer) → lx.curr < lx.length → Behind lx 0 (back (next lx).1)
unfolding next back
back-Behind lx h = ground arith

module _ (c : ℕ) (lx : Lexer) (pos line : ℕ) where
  scan_pair-Keeps :
      (second : ℕ) (d s : TokenType)
      → lx.curr < lx.length
      → Keeps lx (scan_pair c lx pos line second d s)
  unfolding scan_pair
  scan_pair-Keeps second d s h = elim (Bool-cases ((next lx).0 == second)) [
    | inl e ↦ rw e (weaken lx _ _ (next-Behind_self lx))
    | inr e ↦ rw e (back-Behind lx h)
  ]

  scan_angle-Keeps :
      (d e s : TokenType) → lx.curr < lx.length → Keeps lx (scan_angle c lx pos line d e s)
  unfolding scan_angle
  scan_angle-Keeps d e s h = elim (Bool-cases ((next lx).0 == c)) [
    | inl q ↦ rw q (weaken lx _ _ (next-Behind_self lx))
    | inr q ↦ elim (Bool-cases ((next lx).0 == b'=')) [
      | inl r ↦ rw (q, r) (weaken lx _ _ (next-Behind_self lx))
      | inr r ↦ rw (q, r) (back-Behind lx h)
    ]
  ]

  scan_slash-Keeps : lx.curr < lx.length → Post (Keeps lx) Fueled (scan_slash c lx pos line)
  unfolding scan_slash
  scan_slash-Keeps h = elim (Bool-cases ((next lx).0 == b'/')) [
    | inl e ↦
        let b = weaken lx _ _ (next-Behind_self lx) in
        rw e (
          Post-bind (comment_loop-Behind lx (suc (suc lx.length)) (next lx).1 (omega arith) b)
            λ (c', lx') b'. returns b')
    | inr e ↦ rw e (returns (back-Behind lx h))
  ]

  scan_other-Keeps : c ≢ 0 → Post (Keeps lx) Fueled (scan_other c lx pos line)
  unfolding scan_other
  scan_other-Keeps nz = elim (Bool-cases (c == 10)) [
    | inl e ↦ rw e (returns (self-Behind lx))
    | inr e ↦ elim (Bool-cases (c == 9 || c == 32)) [
      | inl e₁ ↦ rw (e, e₁) (returns (self-Behind lx))
      | inr e₁ ↦ elim (Bool-cases (is_digit c)) [
        | inl d ↦
            rw (e, e₁, d) (Post-bind (tokenize_digit-Behind c lx nz d) λ (t, v, lx') b. returns b)
        | inr d ↦ elim (Bool-cases (is_ident_start c)) [
          | inl i ↦
              rw (e, e₁, d, i)
                (Post-bind (tokenize_ident-Behind c lx nz i) λ (t, v, lx') b. returns b)
          | inr i ↦ rw (e, e₁, d, i) (stops cc)
        ]
      ]
    ]
  ]

  -- At the last character of the input the `switch` must not look for a second one.
  scan-Keeps :
      c ≢ 0
      → (lx.curr < lx.length) ⊎ (opens_pair c ≡ false)
      → Post (Keeps lx) Fueled (scan c lx pos line)
  unfolding scan
  scan-Keeps nz room = elim (Option-cases (single_char c)) [
    | inr (t, e) ↦ rw (e, scan) (returns (self-Behind lx))
    | inl e ↦ elim (Option-cases (pair_char c)) [
      | inr ((second, d, s), p) ↦
          rw (e, p, scan) (returns (scan_pair-Keeps second d s (pair_room c lx room _ p)))
      | inl p ↦ elim (Option-cases (angle_char c)) [
        | inr ((d, o, s), a) ↦
            rw (e, p, a, scan) (returns (scan_angle-Keeps d o s (angle_room c lx room _ a)))
        | inl a ↦ elim (Bool-cases (c == b'/')) [
          | inl q ↦ rw (e, p, a, q, scan) (scan_slash-Keeps (slash_room c lx room q))
          | inr q ↦ rw (e, p, a, q, scan) (scan_other-Keeps nz)
        ]
      ]
    ]
  ]

next-input : (lx : Lexer) → (next lx).0 ≢ 0 → Advanced lx (next lx).0 (next lx).1
unfolding next
next-input lx h = ground arith

-- `input` is read from `curr`, and its last character opens no pair.
module _ (input : Bytes) (n : ℕ) (closed : opens_pair (get_or input (n - 1) 0) ≡ false) where
  room :
      (lx : Lexer) (c : ℕ) (lx' : Lexer)
      → Advanced lx c lx'
      → lx.input ≡ input
      → lx.length ≡ n
      → (lx'.curr < lx'.length) ⊎ (opens_pair c ≡ false)
  room lx c lx' a i l = elim (dec_lt lx'.curr lx'.length) [
    | yes p ↦ inl p
    | no p ↦ let e : lx.curr ≡ n - 1 = omega arith in inr (rw (a.char, i, e) closed)
  ]

  tokenize_loop-Fueled :
      (f : ℕ) (lx : Lexer) (pos line : ℕ)
      → lx.input ≡ input
      → lx.length ≡ n
      → n - lx.curr < f
      → Post (λ _. Unit {0}) Fueled (tokenize_loop f lx pos line)
  unfolding tokenize_loop
  tokenize_loop-Fueled zero lx pos line i l h = absurd (omega arith)
  tokenize_loop-Fueled (suc f) lx pos line i l h = elim (Bool-cases ((next lx).0 == 0)) [
    | inl e ↦ rw (e, tokenize_loop) (returns tt)
    | inr e ↦
        let nz : (next lx).0 ≢ 0 = ground arith in
        let a = next-input lx nz in
        rw (e, tokenize_loop)
          (Post-bind (scan-Keeps (next lx).0 (next lx).1 pos line nz (room lx _ _ a i l)) λ s b.
            let ih =
              tokenize_loop-Fueled f s.lexer (s.pos + 1) s.line (b.same_input ∙ a.same_input ∙ i)
                (b.same_length ∙ a.same_length ∙ l) (omega arith) in
            elim (Bool-cases (is_blank s.c)) [
              | inl blank ↦ rw blank ih
              | inr solid ↦ elim (Option-cases s.written) [
                | inl w ↦ rw (solid, w) (stops cc)
                | inr (v, w) ↦ rw (solid, w) (Post-bind ih λ ts _. returns tt)
              ]
            ])
  ]

  -- Where the last character opens no pair, the lexer ends: with tokens, or with one of the program's
  -- own failures.
  pub tokenize-Fueled : Post (λ _. Unit {0}) Fueled (tokenize input n)
  unfolding tokenize
  tokenize-Fueled =
      tokenize_loop-Fueled (suc n) (record { input = input; curr = 0; length = n }) 1 1 refl refl
        (omega arith)

seven :
    (c : ℕ)
    → opens_pair c ≡ true
    → (c ≡ b'/') ⊎ (c ≡ b'&') ⊎ (c ≡ b'|') ⊎ (c ≡ b'=') ⊎ (c ≡ b'!') ⊎ (c ≡ b'<') ⊎ (c ≡ b'>')
seven c h = ground arith

-- `lx'` is at its end, and stepping back leads to `lx`.
module _ (lx lx' : Lexer) (pos line : ℕ) (z : (next lx').0 ≡ 0) (b : back (next lx').1 ≡ lx) where
  abbrev Rescans : ℕ → Type 0
  Rescans c =
      (t : TokenType) × (v : Bytes) × (scan c lx' pos line ≡ ok (write c lx' pos line t v lx))

  rescan : (c : ℕ) → opens_pair c ≡ true → Rescans c
  unfolding scan single_char pair_char angle_char scan_pair scan_angle scan_slash
  rescan c h = elim (seven c h) [
    | inl e ↦ subst Rescans (sym e) (tok_div, b'/' ∷ [], rw (z, b))
    | inr (inl e) ↦ subst Rescans (sym e) (tok_and, b'&' ∷ [], rw (z, b))
    | inr (inr (inl e)) ↦ subst Rescans (sym e) (tok_or, b'|' ∷ [], rw (z, b))
    | inr (inr (inr (inl e))) ↦ subst Rescans (sym e) (tok_assign, b'=' ∷ [], rw (z, b))
    | inr (inr (inr (inr (inl e)))) ↦ subst Rescans (sym e) (tok_not, b'!' ∷ [], rw (z, b))
    | inr (inr (inr (inr (inr (inl e))))) ↦ subst Rescans (sym e) (tok_lt, b'<' ∷ [], rw (z, b))
    | inr (inr (inr (inr (inr (inr e))))) ↦ subst Rescans (sym e) (tok_gt, b'>' ∷ [], rw (z, b))
  ]

opens_pair-solid : (c : ℕ) → opens_pair c ≡ true → (is_blank c ≡ false) × ((c == 0) ≡ false)
opens_pair-solid c h = ground arith

module _ (lx : Lexer) (last : suc lx.curr ≡ lx.length) where
  end_back : ((next (next lx).1).0 ≡ 0) × (back (next (next lx).1).1 ≡ lx)
  unfolding next back
  end_back = ground arith

  end_char : (next lx).0 ≡ get_or lx.input lx.curr 0
  unfolding next
  end_char = ground arith

  -- A character that opens a pair, at the very end of the input, is read again for ever: `back` is
  -- called although `next` found the end of the stream and did not move, so no fuel is enough.
  pub tokenize_loop_diverges :
      opens_pair (get_or lx.input lx.curr 0) ≡ true
      → (f pos line : ℕ) → tokenize_loop f lx pos line ≡ stop Stop.out_of_fuel
  unfolding tokenize_loop
  tokenize_loop_diverges h zero pos line = refl
  tokenize_loop_diverges h (suc f) pos line =
      let h' : opens_pair (next lx).0 ≡ true = rw end_char h in
      let (t, v, run) = rescan lx (next lx).1 pos line end_back.0 end_back.1 (next lx).0 h' in
      let (solid, nz) = opens_pair-solid (next lx).0 h' in
      rw (nz, tokenize_loop, run)
        (rw (solid, bind) (rw (tokenize_loop_diverges h f (pos + 1) line)))
