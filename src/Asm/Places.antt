-- ===== src/Asm/Places.antt =====
-- asm.c: places in the lines of a whole function, and runs of the machine from one to another.
use my_lang.Prelude.{
  ℕ, ◌+◌, ◌≤◌, ◌≡◌, inr, refl, sym, ap, ◌∙◌, none, some, List, ◌∷◌, ◌++◌, length, arith, Outcome,
  ok, stop, Post-ok, bind,
}
use mathlib.Core.Path.{subst}
use my_lang.Symbol.{SymTabEntry}
use my_lang.Ast.{AstNode}
use my_lang.Asm.Target.{
  LabelKind, lbl_log_and, lbl_log_or, Suffix, Label, cond_label, Line, label, save, j,
}
use my_lang.Asm.State.{Riscv, temp_count}
use my_lang.Asm.Eval.{eval_asm}
use my_lang.Asm.Machine.{Machine, find_label, exec, Reaches, here, onward, Reaches-trans}
use my_lang.Asm.Meaning.{Memory, Evaluates}
use my_lang.Asm.Code.{IsFresh, Final, step-at}
use my_lang.Asm.Correct.{code-Computes}
use my_lang.Asm.Labels.{count, Absent, Extends, find_label-none}

-- No label from the counters on is written yet.
abbrev pub AllFresh : Riscv → Type 0
AllFresh s = (k : LabelKind) (n : ℕ) (t : Suffix) → count s k ≤ n → Absent (cond_label k n t) s.out

-- A state in which the generator starts on a statement.
pub record Ready (symbols : List SymTabEntry) (s : Riscv) : Type 0 where
  pub seven : length s.temp_free ≡ temp_count
  pub names : s.symbols ≡ symbols
  pub fresh : AllFresh s

pub Ready-Extends :
    {symbols : List SymTabEntry} {lo : LabelKind → ℕ} {s s' : Riscv}
    → Ready symbols s
    → Extends lo s s'
    → s'.temp_free ≡ s.temp_free
    → Ready symbols s'
Ready-Extends {s = s} {s'} r x e = record {
  seven = ap length e ∙ r.seven;
  names = x.symbols ∙ r.names;
  fresh = λ k n t h.
      let g = x.grows k in
      subst (Absent (cond_label k n t)) (sym x.written) (
        find_label-none (cond_label k n t) s.out x.code (r.fresh k n t (omega arith))
          (x.labels k n t (inr h)));
}

-- A machine from `start` comes to the place `p`, with the frame pointer and the memory.
pub record Comes (prog : List Line) (start : Machine) (p fp : ℕ) (mem : Memory) : Type 0 where
  pub last : Machine
  pub run : Reaches prog start last
  pub place : last.pc ≡ p
  pub frame : last.regs (save 0) ≡ fp
  pub memory : last.mem ≡ mem

pub Comes-trans :
    {prog : List Line} {start : Machine} {p q fp : ℕ} {mem mem' : Memory}
    (c : Comes prog start p fp mem)
    → Comes prog c.last q fp mem'
    → Comes prog start q fp mem'
Comes-trans c d = record {
  last = d.last;
  run = Reaches-trans c.run d.run;
  place = d.place;
  frame = d.frame;
  memory = d.memory;
}

-- One line that leaves registers and memory alone.
pub moves :
    {prog : List Line} (out ys : List Line) (line : Line) {start : Machine} {p q fp : ℕ}
    {mem : Memory} (c : Comes prog start p fp mem)
    → prog ≡ out ++ (line ∷ ys)
    → p ≡ length out
    → exec prog line c.last ≡ some (record (c.last) { pc = q })
    → Comes prog start q fp mem
moves {prog} out ys line {q = q} c e place x = record {
  last = record (c.last) { pc = q };
  run = Reaches-trans c.run (
      onward
        (step-at prog out (line ∷ ys) 0 line c.last (record (c.last) { pc = q }) e refl
          (omega (arith, c.place, place)) x)
        here);
  place = refl;
  frame = c.frame;
  memory = c.memory;
}

exec-label :
    (prog : List Line) (l : Label) (m : Machine) (p : ℕ)
    → m.pc ≡ p
    → exec prog (label l) m ≡ some (record m { pc = p + 1 })
unfolding exec
exec-label prog l m p e = ap (λ p. some (record m { pc = p + 1 })) e

exec-j :
    (prog : List Line) (l : Label) (m : Machine) (p : ℕ)
    → find_label l prog ≡ some p
    → exec prog (j l) m ≡ some (record m { pc = p })
unfolding exec
exec-j prog l m p h = ap (λ o. elim o [ none ↦ none | some p ↦ some (record m { pc = p }) ]) h

module _ {prog : List Line} (out ys : List Line) (l : Label) {start : Machine} {fp : ℕ}
    {mem : Memory} where
  -- Past a label.
  pub passes :
      prog ≡ out ++ (label l ∷ ys)
      → Comes prog start (length out) fp mem
      → Comes prog start (length out + 1) fp mem
  passes e c = moves out ys (label l) c e refl (exec-label prog l c.last (length out) c.place)

  pub jumps :
      (p : ℕ)
      → prog ≡ out ++ (j l ∷ ys)
      → find_label l prog ≡ some p
      → Comes prog start (length out) fp mem
      → Comes prog start p fp mem
  jumps p e h c = moves out ys (j l) c e refl (exec-j prog l c.last p h)

pub bind-ok {ℓ κ} :
    {A : Type ℓ} {B : Type κ} (r : Outcome A) (f : A → Outcome B) (b : B)
    → bind r f ≡ ok b
    → (a : A) × (r ≡ ok a) × (f a ≡ ok b)
bind-ok (ok a) f b e = (a, refl, e)
bind-ok (stop s) f b e = cc

pub bind-known {ℓ κ} :
    {A : Type ℓ} {B : Type κ} {r : Outcome A} {a : A} (f : A → Outcome B) {b : B}
    → r ≡ ok a
    → bind r f ≡ ok b
    → f a ≡ ok b
bind-known f h e = ap (λ r. bind r f) (sym h) ∙ e

pub ok-injective {ℓ} : {A : Type ℓ} {a b : A} → ok a ≡ ok b → a ≡ b
ok-injective e = cc

pub Ready-IsFresh : {symbols : List SymTabEntry} {s : Riscv} → Ready symbols s → IsFresh s
Ready-IsFresh r = record {
  no_and = λ n t h. r.fresh lbl_log_and n t h;
  no_or = λ n t h. r.fresh lbl_log_or n t h;
}

-- The code of an expression, from its first line.
pub evaluates :
    {symbols : List SymTabEntry} {fp v : ℕ} {a : AstNode} {mem mem' : Memory} {s s' : Riscv} {x : ℕ}
    {prog : List Line} {start : Machine} (rest : List Line)
    → Evaluates symbols fp a mem v mem'
    → Ready symbols s
    → eval_asm a s ≡ ok (x, s')
    → prog ≡ s'.out ++ rest
    → (c : Comes prog start (length s.out) fp mem) → Final prog s' x fp v mem' s.temp_free c.last
evaluates {s = s} {prog = prog} rest d r e whole c =
    (Post-ok (code-Computes d s r.seven r.names) e).does prog rest c.last (Ready-IsFresh r) whole
      (record { place = c.place; frame = c.frame; memory = c.memory }) tt
