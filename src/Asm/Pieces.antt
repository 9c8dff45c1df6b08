-- ===== src/Asm/Pieces.antt =====
-- asm.c: pieces of code put together, and code of one line.
use my_lang.Prelude.{
  ℕ, zero, suc, ◌+◌, ◌≡◌, ◌≢◌, refl, sym, ap, ◌∙◌, Bool, true, false, some, List, [], ◌∷◌, ◌++◌,
  append_assoc, length, length-append, get_or, set, arith, ◌==◌, if◌then◌else◌,
}
use mathlib.Core.Path.{subst}
use my_lang.Asm.Target.{temp, save, Line, comment}
use my_lang.Prelude.{Bytes}
use my_lang.Asm.State.{Riscv}
use my_lang.Asm.Machine.{Machine, word, write, skip, exec, here, onward, Reaches-trans}
use my_lang.Asm.Meaning.{Memory}
use my_lang.Asm.Flags.{Takes}
use my_lang.Asm.Code.{IsPlain, Fresh-last, step-at, At, InUse, Final, Codes}

pub InUse-Takes : {f g : List Bool} {x : ℕ} (i : ℕ) → Takes f x g → InUse f i → InUse g i
InUse-Takes {f} {g} {x} i t h = subst (λ g. InUse g i) (sym t.becomes) (of f x i h)
  where
    of : (f : List Bool) (x i : ℕ) → InUse f i → InUse (set f x false) i
    of [] x i h = h
    of (b ∷ f) zero zero h = refl
    of (b ∷ f) zero (suc i) h = h
    of (b ∷ f) (suc x) zero h = h
    of (b ∷ f) (suc x) (suc i) h = of f x i h

pub InUse-taken : {f g : List Bool} {x : ℕ} → Takes f x g → InUse g x
InUse-taken {f} {g} {x} t = subst (λ g. InUse g x) (sym t.becomes) (of f x t.was_free)
  where
    of : (f : List Bool) (x : ℕ) → get_or f x false ≡ true → InUse (set f x false) x
    of [] x h = cc
    of (b ∷ f) zero h = refl
    of (b ∷ f) (suc x) h = of f x h

pub InUse-other : (f : List Bool) (x i : ℕ) → get_or f x false ≡ true → InUse f i → x ≢ i
InUse-other [] x i h k = cc
InUse-other (b ∷ f) zero zero h k = cc
InUse-other (b ∷ f) zero (suc i) h k = omega arith
InUse-other (b ∷ f) (suc x) zero h k = omega arith
InUse-other (b ∷ f) (suc x) (suc i) h k = let n = InUse-other f x i h k in omega arith

module _ {fp : ℕ} {mem mem₁ mem₂ : Memory} {x y v w : ℕ} where
  -- Code behind code. What the second asks for comes of what the first leaves.
  pub seq :
      {s s₁ s₂ : Riscv} {f g f₁ : List Bool} {K K₁ : Machine → Type 0}
      → Codes s s₁ x fp g K mem v mem₁
      → Codes s₁ s₂ y fp f₁ K₁ mem₁ w mem₂
      → ((i : ℕ) → InUse f i → InUse g i)
      → ((i : ℕ) → InUse f i → InUse f₁ i)
      → ((prog : List Line) (m : Machine) (done : Final prog s₁ x fp v mem₁ g m)
          → K m
          → K₁ done.last)
      → Codes s s₂ y fp f K mem w mem₂
  seq {s} {s₁} {s₂} {f} {g} {f₁} {K} {K₁} c d keep keep₁ link = record {
    code = c.code ++ d.code;
    written = d.written ∙ ap (λ o. o ++ d.code) c.written ∙ append_assoc s.out c.code d.code;
    symbols = d.symbols ∙ c.symbols;
    fresh = λ h. d.fresh (c.fresh h);
    does = λ prog rest m h e at k.
        let done =
          c.does prog (d.code ++ rest) m h
            (e ∙ ap (λ o. o ++ rest) d.written ∙ append_assoc s₁.out d.code rest) at k in
        let after = d.does prog rest done.last (c.fresh h) e done.at (link prog m done k) in
        record {
          last = after.last;
          run = Reaches-trans done.run after.run;
          at = after.at;
          value = after.value;
          kept = λ i u. after.kept i (keep₁ i u) ∙ done.kept i (keep i u);
        };
  }

module _ {fp x v : ℕ} {mem mem' : Memory} {f : List Bool} where
  -- What is asked for beyond what the code needs.
  pub strengthen :
      {s s' : Riscv} {K K' : Machine → Type 0}
      → ((m : Machine) → K' m → K m)
      → Codes s s' x fp f K mem v mem'
      → Codes s s' x fp f K' mem v mem'
  strengthen imp c = record {
    code = c.code;
    written = c.written;
    symbols = c.symbols;
    fresh = c.fresh;
    does = λ prog rest m h e at k. c.does prog rest m h e at (imp m k);
  }

-- One line that is no label and goes on to the next.
pub one :
    {fp x v : ℕ} {mem mem' : Memory} {f : List Bool} {K : Machine → Type 0} (s s' : Riscv)
    (line : Line) (next : Machine → Machine)
    → s'.out ≡ s.out ++ line ∷ []
    → s'.symbols ≡ s.symbols
    → s'.and_count ≡ s.and_count
    → s'.or_count ≡ s.or_count
    → IsPlain line
    → ((prog : List Line) (m : Machine) → exec prog line m ≡ some (next m))
    → ((m : Machine)
        → At s fp mem m
        → K m
        → ((next m).pc ≡ m.pc + 1)
          × ((next m).regs (save 0) ≡ fp)
          × ((next m).mem ≡ mem')
          × ((next m).regs (temp x) ≡ v)
          × ((i : ℕ) → InUse f i → (next m).regs (temp i) ≡ m.regs (temp i)))
    → Codes s s' x fp f K mem v mem'
one s s' line next written symbols ands ors plain exec_line facts = record {
  code = line ∷ [];
  written = written;
  symbols = symbols;
  fresh = λ h. rw (written, ands, ors) (Fresh-last s.out s.and_count s.or_count line plain h);
  does = λ prog rest m h e at k.
      let (pc, frame, memory, value, kept) = facts m at k in
      record {
        last = next m;
        run =
            onward
              (step-at prog s.out (line ∷ rest) 0 line m (next m)
                (e ∙ ap (λ o. o ++ rest) written ∙ append_assoc s.out (line ∷ []) rest) refl
                (omega (arith, at.place)) (exec_line prog m))
              here;
        at = record {
          place = pc ∙ omega (arith, at.place, ap length written, length-append s.out (line ∷ []));
          frame = frame;
          memory = memory;
        };
        value = value;
        kept = kept;
      };
}

pub ==-refl : (n : ℕ) → (n == n) ≡ true
==-refl n = ground arith

pub ==-other : (n k : ℕ) → n ≢ k → (n == k) ≡ false
==-other n k h = ground arith

-- One line that writes a word to a register that is not in use.
pub writes :
    {fp x v : ℕ} {mem : Memory} {f : List Bool} {K : Machine → Type 0} (s s' : Riscv) (line : Line)
    (value : Machine → ℕ)
    → s'.out ≡ s.out ++ line ∷ []
    → s'.symbols ≡ s.symbols
    → s'.and_count ≡ s.and_count
    → s'.or_count ≡ s.or_count
    → IsPlain line
    → ((prog : List Line) (m : Machine) → exec prog line m ≡ some (write m (temp x) (value m)))
    → ((i : ℕ) → InUse f i → x ≢ i)
    → ((m : Machine) → At s fp mem m → K m → word (value m) ≡ v)
    → Codes s s' x fp f K mem v mem
writes {x = x} s s' line value written symbols ands ors plain exec_line other gives =
    one s s' line (λ m. write m (temp x) (value m)) written symbols ands ors plain exec_line
      λ m at k. (
        refl,
        at.frame,
        at.memory,
        ap (λ b. if b then word (value m) else m.regs (temp x)) (==-refl x) ∙ gives m at k,
        λ i u. ap (λ b. if b then word (value m) else m.regs (temp i)) (==-other x i (other i u)),
      )

exec-comment :
    (prog : List Line) (text : Bytes) (m : Machine) → exec prog (comment text) m ≡ some (skip m)
unfolding exec
exec-comment prog text m = refl

-- A comment before the code.
pub commented :
    {fp x v : ℕ} {mem mem' : Memory} {f : List Bool} {K : Machine → Type 0} (s s' : Riscv)
    (text : Bytes)
    → ((m : Machine) → K m → K (skip m))
    → Codes (record s { out = s.out ++ comment text ∷ [] }) s' x fp f K mem v mem'
    → Codes s s' x fp f K mem v mem'
commented s s' text passes c = record {
  code = comment text ∷ c.code;
  written = c.written ∙ append_assoc s.out (comment text ∷ []) c.code;
  symbols = c.symbols;
  fresh =
      λ h. c.fresh (Fresh-last s.out s.and_count s.or_count (comment text) (λ n s. (refl, refl)) h);
  does = λ prog rest m h e at k.
      let done =
        c.does prog rest (skip m)
          (Fresh-last s.out s.and_count s.or_count (comment text) (λ n s. (refl, refl)) h) e
          (record {
            place = omega (arith, at.place, length-append s.out (comment text ∷ []));
            frame = at.frame;
            memory = at.memory;
          })
          (passes m k) in
      record {
        last = done.last;
        run =
            onward
              (step-at prog s.out (comment text ∷ c.code ++ rest) 0 (comment text) m (skip m)
                (e
                  ∙ ap (λ o. o ++ rest) (c.written ∙ append_assoc s.out (comment text ∷ []) c.code)
                  ∙ append_assoc s.out (comment text ∷ c.code) rest)
                refl (omega (arith, at.place)) (exec-comment prog text m))
              done.run;
        at = done.at;
        value = done.value;
        kept = done.kept;
      };
}
