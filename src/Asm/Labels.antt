-- ===== src/Asm/Labels.antt =====
-- asm.c: the numbers of the labels in what a part of the generator writes.
use my_lang.Prelude.{
  ℕ, ◌≤◌, ◌<◌, ◌≡◌, ◌⊎◌, inl, inr, refl, sym, ap, ◌∙◌, Bool, true, false, none, List, [], ◌∷◌, ◌++◌,
  append_assoc, append-nil, if◌then◌else◌, ◌==◌, ◌&&◌, arith, Outcome, Stop, Post, returns, stops,
  bind,
}
use mathlib.Core.Path.{subst}
use my_lang.Asm.Target.{
  LabelKind, lbl_for, lbl_if, lbl_while, lbl_else, lbl_log_and, lbl_log_or, Suffix, Label,
  cond_label, Line, label,
}
use my_lang.Asm.State.{Riscv}
use my_lang.Asm.Machine.{kind_number, suffix_number, is_label, later, first, find_label}
use my_lang.Asm.Code.{first-none}
use my_lang.Asm.Operators.{Any}

record Counts : Type 0 where
  fors : ℕ
  ifs : ℕ
  whiles : ℕ
  elses : ℕ
  ands : ℕ
  ors : ℕ

abbrev counts : Riscv → Counts
counts s = record {
  fors = s.for_count;
  ifs = s.if_count;
  whiles = s.while_count;
  elses = s.else_count;
  ands = s.and_count;
  ors = s.or_count;
}

abbrev pick : LabelKind → Counts → ℕ
pick lbl_for c = c.fors
pick lbl_if c = c.ifs
pick lbl_while c = c.whiles
pick lbl_else c = c.elses
pick lbl_log_and c = c.ands
pick lbl_log_or c = c.ors

-- The number of the next label of a kind.
abbrev pub count : Riscv → LabelKind → ℕ
count s k = pick k (counts s)

abbrev pub Absent : Label → List Line → Type 0
Absent l xs = find_label l xs ≡ none

pub find_label-none :
    (l : Label) (xs ys : List Line) → Absent l xs → Absent l ys → Absent l (xs ++ ys)
unfolding find_label
find_label-none l [] ys h k = k
find_label-none l (x ∷ xs) ys h k =
    let (b, o) = first-none (is_label l x) (find_label l xs) h in
    ap (λ b. first b (find_label l (xs ++ ys))) b ∙ ap later (find_label-none l xs ys o k)

-- The labels of the lines have numbers from `lo` on and below `hi`.
abbrev pub Within : (LabelKind → ℕ) → (LabelKind → ℕ) → List Line → Type 0
Within lo hi code =
    (k : LabelKind) (n : ℕ) (t : Suffix) → (n < lo k) ⊎ (hi k ≤ n) → Absent (cond_label k n t) code

-- From `s` to `s'` lines were added whose labels have numbers from `lo` on and below the counters.
pub record Extends (lo : LabelKind → ℕ) (s s' : Riscv) : Type 0 where
  pub code : List Line
  pub written : s'.out ≡ s.out ++ code
  pub symbols : s'.symbols ≡ s.symbols
  pub grows : (k : LabelKind) → count s k ≤ count s' k
  pub labels : Within lo (count s') code

abbrev pub Lower : (LabelKind → ℕ) → Riscv → Type 0
Lower lo s = (k : LabelKind) → lo k ≤ count s k

pub Lower-grows : {lo : LabelKind → ℕ} {s s' : Riscv} → Lower lo s → Extends lo s s' → Lower lo s'
Lower-grows h x k = let a = h k in let b = x.grows k in omega arith

pub Extends-trans :
    {lo : LabelKind → ℕ} {s s₁ s₂ : Riscv} → Extends lo s s₁ → Extends lo s₁ s₂ → Extends lo s s₂
Extends-trans {lo} {s} {s₁} {s₂} x y = record {
  code = x.code ++ y.code;
  written = y.written ∙ ap (λ o. o ++ y.code) x.written ∙ append_assoc s.out x.code y.code;
  symbols = y.symbols ∙ x.symbols;
  grows = λ k. let a = x.grows k in let b = y.grows k in omega arith;
  labels = λ k n t h.
      find_label-none (cond_label k n t) x.code y.code (x.labels k n t (lower k n h))
        (y.labels k n t h);
}
  where
    lower : (k : LabelKind) (n : ℕ) → (n < lo k) ⊎ (count s₂ k ≤ n) → (n < lo k) ⊎ (count s₁ k ≤ n)
    lower k n (inl h) = inl h
    lower k n (inr h) = let g = y.grows k in inr (omega arith)

-- Lines without a label of these kinds.
pub plain-Extends :
    {lo : LabelKind → ℕ} (s s' : Riscv) (code : List Line)
    → s'.out ≡ s.out ++ code
    → s'.symbols ≡ s.symbols
    → ((k : LabelKind) → count s' k ≡ count s k)
    → ((k : LabelKind) (n : ℕ) (t : Suffix) → Absent (cond_label k n t) code)
    → Extends lo s s'
plain-Extends s s' code written symbols counters absent = record {
  code = code;
  written = written;
  symbols = symbols;
  grows = λ k. let e = counters k in omega arith;
  labels = λ k n t h. absent k n t;
}

-- The run adds lines.
abbrev pub Adds {ℓ} : {A : Type ℓ} → (LabelKind → ℕ) → Riscv → Outcome (A × Riscv) → Type ℓ
Adds {A = A} lo s = Post (λ (r : A × Riscv). Extends lo s r.1) Any

module _ {ℓ} {A : Type ℓ} {lo : LabelKind → ℕ} {s : Riscv} where
  pub after : {s₁ : Riscv} {r : Outcome (A × Riscv)} → Extends lo s s₁ → Adds lo s₁ r → Adds lo s r
  after x (returns h) = returns (Extends-trans x h)
  after x (stops h) = stops h

pub Adds-extend {ℓ κ} :
    {A : Type ℓ} {B : Type κ} {lo : LabelKind → ℕ} {s : Riscv} {r : Outcome (A × Riscv)}
    (f : A × Riscv → Outcome (B × Riscv))
    → Adds lo s r
    → ((a : A) (s₁ : Riscv) → Extends lo s s₁ → Adds lo s₁ (f (a, s₁)))
    → Adds lo s (bind r f)
Adds-extend f (returns {a} x) k = after x (k a.0 a.1 x)
Adds-extend f (stops e) k = stops e

pub Adds-bind {ℓ κ} :
    {A : Type ℓ} {B : Type κ} {lo : LabelKind → ℕ} {s : Riscv} {r : Outcome (A × Riscv)}
    (f : A × Riscv → Outcome (B × Riscv))
    → Lower lo s
    → Adds lo s r
    → ((a : A) (s₁ : Riscv) → Lower lo s₁ → Adds lo s₁ (f (a, s₁)))
    → Adds lo s (bind r f)
Adds-bind f h r k = Adds-extend f r λ a s₁ x. k a s₁ (Lower-grows h x)

module _ {lo : LabelKind → ℕ} where
  -- Nothing is written.
  pub same-Extends :
      (s s' : Riscv)
      → s'.out ≡ s.out
      → s'.symbols ≡ s.symbols
      → ((k : LabelKind) → count s' k ≡ count s k)
      → Extends lo s s'
  unfolding find_label
  same-Extends s s' out symbols counters =
      plain-Extends s s' [] (out ∙ sym (append-nil s.out)) symbols counters (λ k n t. refl)

  pub same-Adds {ℓ} :
      {A : Type ℓ} {E : Stop → Type 0} {s : Riscv} {r : Outcome (A × Riscv)}
      → Post (λ (r : A × Riscv). r.1 ≡ s) E r
      → Adds lo s r
  same-Adds {s = s} (returns {a} e) =
      returns (
        same-Extends s a.1 (ap (λ x. x.out) e) (ap (λ x. x.symbols) e) (λ k. ap (λ x. count x k) e))
  same-Adds (stops h) = stops tt

kind_of : ℕ → LabelKind
kind_of n =
    if n == 0
    then lbl_for
    else (if n == 1
        then lbl_if
        else (if n == 2
            then lbl_while
            else (if n == 3 then lbl_else else (if n == 4 then lbl_log_and else lbl_log_or))))

kind_of-kind_number : (k : LabelKind) → kind_of (kind_number k) ≡ k
unfolding kind_of
kind_of-kind_number lbl_for = refl
kind_of-kind_number lbl_if = refl
kind_of-kind_number lbl_while = refl
kind_of-kind_number lbl_else = refl
kind_of-kind_number lbl_log_and = refl
kind_of-kind_number lbl_log_or = refl

-- A label whose number is out of range is another one.
pub other-label :
    (lo hi : LabelKind → ℕ) (l : LabelKind) (i : ℕ) (u : Suffix) (k : LabelKind) (n : ℕ)
    (t : Suffix)
    → lo l ≤ i
    → i < hi l
    → (n < lo k) ⊎ (hi k ≤ n)
    → is_label (cond_label k n t) (label (cond_label l i u)) ≡ false
unfolding kind_of
other-label lo hi l i u k n t below above h = of (kind_number k == kind_number l) refl
  where
    out_of : (n < lo l) ⊎ (hi l ≤ n) → (n == i) ≡ false
    out_of (inl h) = ground (arith)
    out_of (inr h) = ground (arith)

    of :
        (b : Bool)
        → (kind_number k == kind_number l) ≡ b
        → is_label (cond_label k n t) (label (cond_label l i u)) ≡ false
    of false e = ap (λ b. b && ((n == i) && (suffix_number t == suffix_number u))) e
    of true e =
        let same : kind_number k ≡ kind_number l = ground (arith, e) in
        let kinds : k ≡ l = sym (kind_of-kind_number k) ∙ ap kind_of same ∙ kind_of-kind_number l in
        let off = out_of (subst (λ k. (n < lo k) ⊎ (hi k ≤ n)) kinds h) in
        ap (λ c. (kind_number k == kind_number l) && (c && (suffix_number t == suffix_number u)))
          off
        ∙ ap (λ b. b && false) e

-- One label, behind what is written.
pub label-Extends :
    {lo : LabelKind → ℕ} (s s' : Riscv) (l : LabelKind) (i : ℕ) (u : Suffix)
    → s'.out ≡ s.out ++ label (cond_label l i u) ∷ []
    → s'.symbols ≡ s.symbols
    → ((k : LabelKind) → count s' k ≡ count s k)
    → lo l ≤ i
    → i < count s' l
    → Extends lo s s'
unfolding find_label
label-Extends {lo} s s' l i u written symbols counters below above = record {
  code = label (cond_label l i u) ∷ [];
  written = written;
  symbols = symbols;
  grows = λ k. let e = counters k in omega arith;
  labels = λ k n t h. ap (λ b. first b none) (other-label lo (count s') l i u k n t below above h);
}

-- A counter moves on.
pub counted-Extends :
    {lo : LabelKind → ℕ} (s s' : Riscv)
    → s'.out ≡ s.out
    → s'.symbols ≡ s.symbols
    → ((k : LabelKind) → count s k ≤ count s' k)
    → Extends lo s s'
unfolding find_label
counted-Extends s s' out symbols grows = record {
  code = [];
  written = out ∙ sym (append-nil s.out);
  symbols = symbols;
  grows = grows;
  labels = λ k n t h. refl;
}
