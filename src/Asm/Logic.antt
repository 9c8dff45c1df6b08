-- ===== src/Asm/Logic.antt =====
-- asm.c: the code of `&&` and `||`: two branches to one label, and a value on each way.
use my_lang.Prelude.{
  ℕ, ◌+◌, ◌≤◌, ◌≡◌, ◌≢◌, refl, ap, ◌∙◌, Bool, true, false, none, some, List, [], ◌∷◌, ◌++◌, length,
  get_elem?, arith, if◌then◌else◌,
}
use mathlib.Core.Path.{subst}
use my_lang.Prelude.Int.{ℤ, pos, negsuc}
use my_lang.Asm.Target.{
  Register, temp, save, zero_reg, Line, Label, cond_label, lbl_log_and, lbl_log_or, Suffix, addi, j,
  label,
}
use my_lang.Asm.Machine.{
  Machine, word, word_of, fits, write, skip, go, is_label, find_label, exec, step, Reaches, here,
  onward,
}
use my_lang.Asm.Code.{find_label-last, Fresh, step-at}
use my_lang.Asm.Pieces.{==-refl, ==-other}

-- The seven lines.
abbrev pub logic_code :
    (Register → Register → Label → Line) → ℕ → ℕ → ℕ → Label → Label → ℤ → ℤ → List Line
logic_code branch l r x target end below at =
    branch (temp l) zero_reg target
    ∷ branch (temp r) zero_reg target
    ∷ addi (temp x) zero_reg below
    ∷ j end
    ∷ label target
    ∷ addi (temp x) zero_reg at
    ∷ label end
    ∷ []

exec-addi :
    (prog : List Line) (x : ℕ) (z : ℤ) (m : Machine)
    → fits z ≡ true
    → exec prog (addi (temp x) zero_reg z) m ≡ some (write m (temp x) (0 + word_of z))
unfolding exec
exec-addi prog x z m h = ap (λ b. if b then some (write m (temp x) (0 + word_of z)) else none) h

pub word-word_of : (z : ℤ) → word (0 + word_of z) ≡ word_of z
word-word_of (pos n) = omega arith
word-word_of (negsuc n) = omega arith

exec-label : (prog : List Line) (l : Label) (m : Machine) → exec prog (label l) m ≡ some (skip m)
unfolding exec
exec-label prog l m = refl

exec-j :
    (prog : List Line) (l : Label) (m : Machine) (p : ℕ)
    → find_label l prog ≡ some p
    → exec prog (j l) m ≡ some (record m { pc = p })
unfolding exec
exec-j prog l m p h = ap (λ o. elim o [ none ↦ none | some p ↦ some (record m { pc = p }) ]) h

module _ (branch : Register → Register → Label → Line) (jumps : ℕ → Bool)
    (prog out rest : List Line) (l r x : ℕ) (target end : Label) (below at : ℤ)
    (whole : prog ≡ out ++ (logic_code branch l r x target end below at ++ rest))
    (below_fits : fits below ≡ true) (at_fits : fits at ≡ true)
    (find_target : find_label target prog ≡ some (length out + 4))
    (find_end : find_label end prog ≡ some (length out + 6))
    (branches : (i : ℕ) (m : Machine)
      → exec prog (branch (temp i) zero_reg target) m
        ≡ (if jumps (m.regs (temp i)) then go prog target m else some (skip m))) where
  -- The machine is behind the code, with a value in `x`.
  pub record Landed (m : Machine) (v : ℕ) : Type 0 where
    pub last : Machine
    pub run : Reaches prog m last
    pub place : last.pc ≡ length out + 7
    pub value : last.regs (temp x) ≡ v
    pub others : (i : ℕ) → x ≢ i → last.regs (temp i) ≡ m.regs (temp i)
    pub frame : last.regs (save 0) ≡ m.regs (save 0)
    pub memory : last.mem ≡ m.mem

  later-Landed :
      (m m' : Machine) (v : ℕ)
      → step prog m ≡ some m'
      → m'.regs ≡ m.regs
      → m'.mem ≡ m.mem
      → Landed m' v
      → Landed m v
  later-Landed m m' v e regs mem h = record {
    last = h.last;
    run = onward e h.run;
    place = h.place;
    value = h.value;
    others = λ i n. h.others i n ∙ ap (λ g. g (temp i)) regs;
    frame = h.frame ∙ ap (λ g. g (save 0)) regs;
    memory = h.memory ∙ mem;
  }

  line-at :
      (k : ℕ) (line : Line) (m m' : Machine)
      → get_elem? (logic_code branch l r x target end below at ++ rest) k ≡ some line
      → m.pc ≡ length out + k
      → exec prog line m ≡ some m'
      → step prog m ≡ some m'
  line-at k line m m' g p e =
      step-at prog out (logic_code branch l r x target end below at ++ rest) k line m m' whole g p e

  written : (m : Machine) (z : ℤ) → (write m (temp x) (0 + word_of z)).regs (temp x) ≡ word_of z
  written m z =
      ap (λ b. if b then word (0 + word_of z) else m.regs (temp x)) (==-refl x) ∙ word-word_of z

  -- At the second label.
  end-Landed : (m : Machine) → m.pc ≡ length out + 6 → Landed m (m.regs (temp x))
  end-Landed m p = record {
    last = skip m;
    run = onward (line-at 6 (label end) m (skip m) refl p (exec-label prog end m)) here;
    place = omega (arith, p);
    value = refl;
    others = λ i n. refl;
    frame = refl;
    memory = refl;
  }

  -- A value is written, then the machine goes to the second label.
  value-Landed :
      (k : ℕ) (z : ℤ) (m : Machine)
      → get_elem? (logic_code branch l r x target end below at ++ rest) k
        ≡ some (addi (temp x) zero_reg z)
      → fits z ≡ true
      → m.pc ≡ length out + k
      → ((v : ℕ)
          → (m' : Machine) → m'.pc ≡ length out + (k + 1)
          → m'.regs (temp x) ≡ v
          → Landed m' v)
      → Landed m (word_of z)
  value-Landed k z m g small p on =
      let m' = write m (temp x) (0 + word_of z) in
      let h = on (word_of z) m' (omega (arith, p)) (written m z) in
      record {
        last = h.last;
        run =
            onward (line-at k (addi (temp x) zero_reg z) m m' g p (exec-addi prog x z m small))
              h.run;
        place = h.place;
        value = h.value;
        others = λ i n.
            h.others i n
            ∙ ap (λ b. if b then word (0 + word_of z) else m.regs (temp i)) (==-other x i n);
        frame = h.frame;
        memory = h.memory;
      }

  at-target : (m : Machine) → m.pc ≡ length out + 4 → Landed m (word_of at)
  at-target m p =
      later-Landed m (skip m) _
        (line-at 4 (label target) m (skip m) refl p (exec-label prog target m)) refl refl
        (value-Landed 5 at (skip m) refl at_fits (omega (arith, p))
          λ v m' p' e. subst (Landed m') e (end-Landed m' p'))

  at-below : (m : Machine) → m.pc ≡ length out + 2 → Landed m (word_of below)
  at-below m p = value-Landed 2 below m refl below_fits p λ v m' p' e.
      let m₂ : Machine = record m' { pc = length out + 6 } in
      later-Landed m' m₂ v
        (line-at 3 (j end) m' m₂ refl p' (exec-j prog end m' (length out + 6) find_end)) refl refl
        (subst (Landed m₂) e (end-Landed m₂ refl))

  -- A branch, to the first label or on.
  branch-Landed :
      (k i : ℕ) (m : Machine) (v : ℕ)
      → get_elem? (logic_code branch l r x target end below at ++ rest) k
        ≡ some (branch (temp i) zero_reg target)
      → m.pc ≡ length out + k
      → ((m' : Machine) → m'.pc ≡ length out + (k + 1) → m'.regs ≡ m.regs → Landed m' v)
      → Landed m (if jumps (m.regs (temp i)) then word_of at else v)
  branch-Landed k i m v g p on = of (jumps (m.regs (temp i))) refl
    where
      of : (b : Bool) → jumps (m.regs (temp i)) ≡ b → Landed m (if b then word_of at else v)
      of true e =
          let m' : Machine = record m { pc = length out + 4 } in
          later-Landed m m' (word_of at)
            (line-at k (branch (temp i) zero_reg target) m m' g p (
              branches i m
              ∙ ap (λ b. if b then go prog target m else some (skip m)) e
              ∙ ap (λ o. elim o [ none ↦ none | some p ↦ some (record m { pc = p }) ]) find_target))
            refl refl (at-target m' refl)
      of false e =
          later-Landed m (skip m) v
            (line-at k (branch (temp i) zero_reg target) m (skip m) g p
              (branches i m ∙ ap (λ b. if b then go prog target m else some (skip m)) e))
            refl refl (on (skip m) (omega (arith, p)) refl)

  pub code-Landed :
      (m : Machine)
      → m.pc ≡ length out
      → Landed m (
          if jumps (m.regs (temp l))
          then word_of at
          else (if jumps (m.regs (temp r)) then word_of at else word_of below))
  code-Landed m p = branch-Landed 0 l m _ refl (omega (arith, p)) λ m₁ p₁ e.
      subst (λ g. Landed m₁ (if jumps (g (temp r)) then word_of at else word_of below)) e
        (branch-Landed 1 r m₁ (word_of below) refl p₁ λ m₂ p₂ e₂. at-below m₂ p₂)

-- The numbers from the counters on stay unused when a label below them is written.
pub Fresh-label :
    (out : List Line) (ands ors : ℕ) (line : Line)
    → ((n : ℕ) (s : Suffix) → ands ≤ n → is_label (cond_label lbl_log_and n s) line ≡ false)
    → ((n : ℕ) (s : Suffix) → ors ≤ n → is_label (cond_label lbl_log_or n s) line ≡ false)
    → Fresh out ands ors
    → Fresh (out ++ line ∷ []) ands ors
Fresh-label out ands ors line no_and no_or h = record {
  no_and = λ n s le. find_label-last _ out line (h.no_and n s le) (no_and n s le);
  no_or = λ n s le. find_label-last _ out line (h.no_or n s le) (no_or n s le);
}
