-- ===== src/Asm/Code.antt =====
-- asm.c: code that stands inside a program, and the machine that comes to its place.
use my_lang.Prelude.{
  ℕ, suc, ◌+◌, ◌≤◌, ◌≡◌, refl, ap, ◌∙◌, Bool, true, false, Option, none, some, List, [], ◌∷◌, ◌++◌,
  length, get_elem?, arith,
}
use my_lang.Asm.Target.{temp, save, lbl_log_and, lbl_log_or, Suffix, Label, cond_label, Line}
use my_lang.Asm.State.{Riscv}
use my_lang.Asm.Machine.{Machine, is_label, later, first, find_label, exec, step, Reaches}
use my_lang.Asm.Meaning.{Memory}

get_elem?-append :
    {A : Type 0} (xs ys : List A) (k : ℕ) → get_elem? (xs ++ ys) (length xs + k) ≡ get_elem? ys k
get_elem?-append [] ys k = ap (λ i. get_elem? ys i) (omega arith)
get_elem?-append (x ∷ xs) ys k =
    let e : suc (length xs) + k ≡ suc (length xs + k) = omega arith in
    rw e (get_elem?-append xs ys k)

pub first-none : (b : Bool) (o : Option ℕ) → first b o ≡ none → (b ≡ false) × (o ≡ none)
first-none true o e = cc
first-none false none e = (refl, refl)
first-none false (some p) e = cc

-- A label that the first part does not have.
pub find_label-append :
    (l : Label) (xs ys : List Line) (p : ℕ)
    → find_label l xs ≡ none
    → find_label l ys ≡ some p
    → find_label l (xs ++ ys) ≡ some (length xs + p)
unfolding find_label
find_label-append l [] ys p h k = k ∙ ap some (omega arith)
find_label-append l (x ∷ xs) ys p h k =
    let (b, o) = first-none (is_label l x) (find_label l xs) h in
    ap (λ b. first b (find_label l (xs ++ ys))) b
    ∙ ap later (find_label-append l xs ys p o k)
    ∙ ap some (omega arith)

pub find_label-last :
    (l : Label) (xs : List Line) (x : Line)
    → find_label l xs ≡ none
    → is_label l x ≡ false
    → find_label l (xs ++ x ∷ []) ≡ none
unfolding find_label
find_label-last l [] x h k = ap (λ b. first b none) k
find_label-last l (y ∷ xs) x h k =
    let (b, o) = first-none (is_label l y) (find_label l xs) h in
    ap (λ b. first b (find_label l (xs ++ x ∷ []))) b ∙ ap later (find_label-last l xs x o k)

-- No label of a `&&` or a `||` with a number from the counters on is written yet.
pub record Fresh (out : List Line) (ands ors : ℕ) : Type 0 where
  pub no_and : (n : ℕ) (s : Suffix) → ands ≤ n → find_label (cond_label lbl_log_and n s) out ≡ none
  pub no_or : (n : ℕ) (s : Suffix) → ors ≤ n → find_label (cond_label lbl_log_or n s) out ≡ none

abbrev pub IsFresh : Riscv → Type 0
IsFresh s = Fresh s.out s.and_count s.or_count

-- The line is no label of these.
abbrev pub IsPlain : Line → Type 0
IsPlain line =
    (n : ℕ) (s : Suffix)
    → (is_label (cond_label lbl_log_and n s) line ≡ false)
      × (is_label (cond_label lbl_log_or n s) line ≡ false)

pub Fresh-last :
    (out : List Line) (ands ors : ℕ) (line : Line)
    → IsPlain line
    → Fresh out ands ors
    → Fresh (out ++ line ∷ []) ands ors
Fresh-last out ands ors line plain h = record {
  no_and = λ n s le. find_label-last _ out line (h.no_and n s le) (plain n s).0;
  no_or = λ n s le. find_label-last _ out line (h.no_or n s le) (plain n s).1;
}

-- The line at `k` behind what is written, in a machine that is there.
pub step-at :
    (prog out ys : List Line) (k : ℕ) (line : Line) (m m' : Machine)
    → prog ≡ out ++ ys
    → get_elem? ys k ≡ some line
    → m.pc ≡ length out + k
    → exec prog line m ≡ some m'
    → step prog m ≡ some m'
unfolding step
step-at prog out ys k line m m' e g p x =
    ap (λ o. elim o [ none ↦ none | some line ↦ exec prog line m ])
      (ap (λ i. get_elem? prog i) p
        ∙ ap (λ l. get_elem? l (length out + k)) e
        ∙ get_elem?-append out ys k
        ∙ g)
    ∙ x

-- The machine is behind what is written, with the frame pointer and the memory.
pub record At (s : Riscv) (fp : ℕ) (mem : Memory) (m : Machine) : Type 0 where
  pub place : m.pc ≡ length s.out
  pub frame : m.regs (save 0) ≡ fp
  pub memory : m.mem ≡ mem

-- The registers in use by the flags.
abbrev pub InUse : List Bool → ℕ → Type 0
InUse f i = get_elem? f i ≡ some false

pub record Final (prog : List Line) (s' : Riscv) (x fp v : ℕ) (mem' : Memory) (f : List Bool)
    (m : Machine) : Type 0 where
  pub last : Machine
  pub run : Reaches prog m last
  pub at : At s' fp mem' last
  pub value : last.regs (temp x) ≡ v
  pub kept : (i : ℕ) → InUse f i → last.regs (temp i) ≡ m.regs (temp i)

-- From `s` to `s'` code was written that, where `K` holds of the machine, leaves `v` in `x`, turns the
-- memory `mem` into `mem'`, and keeps the registers in use by `f`.
pub record Codes (s s' : Riscv) (x fp : ℕ) (f : List Bool) (K : Machine → Type 0) (mem : Memory)
    (v : ℕ) (mem' : Memory) : Type 0 where
  pub code : List Line
  pub written : s'.out ≡ s.out ++ code
  pub symbols : s'.symbols ≡ s.symbols
  pub fresh : IsFresh s → IsFresh s'
  pub does :
      (prog rest : List Line) (m : Machine)
      → IsFresh s
      → prog ≡ s'.out ++ rest
      → At s fp mem m
      → K m
      → Final prog s' x fp v mem' f m
