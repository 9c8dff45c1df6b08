-- ===== src/Sema/Slots.antt =====
-- sema.c: the words of one stack frame that the steps of the walk hand out.
use my_lang.Prelude.{
  ℕ, zero, suc, ◌+◌, ◌≡◌, ◌≢◌, refl, sym, Option, none, some, Bool, true, false, List, [], ◌∷◌,
  ◌++◌,
}
use mathlib.Core.Path.{subst}
use my_lang.Symbol.{StackFrame, SymTabEntry}
use my_lang.Sema.State.{Sema}

-- The size of the frame at a place, and the offset of the entry at a place.
abbrev pub size_at : List StackFrame → ℕ → Option ℕ
size_at [] i = none
size_at (f ∷ fs) zero = some f.size
size_at (f ∷ fs) (suc i) = size_at fs i

abbrev pub offset_at : List SymTabEntry → ℕ → Option ℕ
offset_at [] i = none
offset_at (e ∷ es) zero = e.offset
offset_at (e ∷ es) (suc i) = offset_at es i

-- The entries at the places have the offsets `z`, `z + 4` and so on, up to `top`.
abbrev pub Slots : List SymTabEntry → ℕ → List ℕ → ℕ → Type 0
Slots es z [] top = top ≡ z
Slots es z (p ∷ ps) top = (offset_at es p ≡ some z) × Slots es (z + 4) ps top

abbrev pub Kept : List SymTabEntry → List SymTabEntry → Type 0
Kept es es' = (p z : ℕ) → offset_at es p ≡ some z → offset_at es' p ≡ some z

Slots-Kept :
    (es es' : List SymTabEntry) (z : ℕ) (ps : List ℕ) (top : ℕ)
    → Kept es es'
    → Slots es z ps top
    → Slots es' z ps top
Slots-Kept es es' z [] top k h = h
Slots-Kept es es' z (p ∷ ps) top k h = (k p z h.0, Slots-Kept es es' (z + 4) ps top k h.1)

Slots-append :
    (es : List SymTabEntry) (z : ℕ) (ps qs : List ℕ) (mid top : ℕ)
    → Slots es z ps mid
    → Slots es mid qs top
    → Slots es z (ps ++ qs) top
Slots-append es z [] qs mid top h k = subst (λ z. Slots es z qs top) h k
Slots-append es z (p ∷ ps) qs mid top h k = (h.0, Slots-append es (z + 4) ps qs mid top h.1 k)

-- Whether the frame that the walk is in is the one looked at.
pub data Whose (f : ℕ) : Option ℕ → Bool → Type 0 where
  ours : Whose f (some f) true
  other : {g : Option ℕ} → g ≢ some f → Whose f g false

abbrev pub mine : Bool → List ℕ → List ℕ
mine true ps = ps
mine false ps = []

mine-append : (b : Bool) (ps qs : List ℕ) → mine b (ps ++ qs) ≡ mine b ps ++ mine b qs
mine-append true ps qs = refl
mine-append false ps qs = refl

nothing_taken : (b : Bool) (es : List SymTabEntry) (z : ℕ) → Slots es z (mine b []) z
nothing_taken true es z = refl
nothing_taken false es z = refl

-- Between two states the frame at `f` has grown from `z`, by a word for each of the places, if they are in it.
pub record Stacked (f : ℕ) (b : Bool) (z : ℕ) (ps : List ℕ) (s s' : Sema) : Type 0 where
  pub kept : Kept s.entries s'.entries
  pub top : ℕ
  pub size : size_at s'.frames f ≡ some top
  pub slots : Slots s'.entries z (mine b ps) top

module _ {f : ℕ} {b : Bool} where
  pub seq :
      {z : ℕ} {ps qs : List ℕ} {s s₁ s₂ : Sema}
      → (h : Stacked f b z ps s s₁) → Stacked f b h.top qs s₁ s₂
      → Stacked f b z (ps ++ qs) s s₂
  seq {z} {ps} {qs} {s} {s₁} {s₂} h k = record {
    kept = λ p o e. k.kept p o (h.kept p o e);
    top = k.top;
    size = k.size;
    slots =
        subst (λ l. Slots s₂.entries z l k.top) (sym (mine-append b ps qs))
          (Slots-append s₂.entries z (mine b ps) (mine b qs) h.top k.top
            (Slots-Kept s₁.entries s₂.entries z (mine b ps) h.top k.kept h.slots) k.slots);
  }

  -- Nothing of the frame is handed out.
  pub still :
      {z : ℕ} {s s' : Sema}
      → Kept s.entries s'.entries
      → size_at s'.frames f ≡ some z
      → Stacked f b z [] s s'
  still {z} {s} {s'} k e = record {
    kept = k;
    top = z;
    size = e;
    slots = nothing_taken b s'.entries z;
  }
