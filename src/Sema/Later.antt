-- ===== src/Sema/Later.antt =====
-- sema.c: well-formed states of the walk over the tree, and what a later state keeps of an earlier one.
use my_lang.Prelude.{
  ℕ, zero, suc, ◌*◌, All, All-mono, ◌<◌, ◌≤◌, ◌≡◌, refl, ap, Option, none, some, inl, inr, List, [],
  ◌∷◌, length, arith, Bytes, ◌⊎◌,
}
use my_lang.HashMap.Table.{HashMap, hashmap_get}
use my_lang.Symbol.{StackFrame}
use my_lang.Sema.Scope.{Scope, no_scope, scope, or_outer, scope_lookup}
use my_lang.Sema.Lookup.{IsScope}
use my_lang.Sema.State.{Sema}

-- The table holds an entry under the key.
abbrev pub Holds : HashMap ℕ → Bytes → Type 0
Holds t key = (place : ℕ) × (hashmap_get t key ≡ some place)

-- Every entry of the table stands among the first `n` of the store.
abbrev pub TableBelow : ℕ → HashMap ℕ → Type 0
TableBelow n t = (key : Bytes) (place : ℕ) → hashmap_get t key ≡ some place → place < n

abbrev pub ScopeBelow : ℕ → Scope → Type 0
ScopeBelow n no_scope = Unit
ScopeBelow n (scope t parent) = TableBelow n t × ScopeBelow n parent

pub ScopeBelow-mono : {m n : ℕ} (sc : Scope) → m ≤ n → ScopeBelow m sc → ScopeBelow n sc
ScopeBelow-mono no_scope le h = tt
ScopeBelow-mono (scope t parent) le h =
    ((λ key place e. omega (arith, h.0 key place e)), ScopeBelow-mono parent le h.1)

-- A frame is made of whole words.
pub record IsFrame (frame : StackFrame) : Type 0 where
  pub words : ℕ
  pub size : frame.size ≡ 4 * words

-- Frames, and the entries that are listed, of a store of `n` entries.
pub record IsStore (n : ℕ) (frames : List StackFrame) (symbols : List ℕ) : Type 0 where
  pub framed : All IsFrame frames
  pub listed : All (λ place. place < n) symbols

pub IsStore-mono :
    {m n : ℕ} {frames : List StackFrame} {symbols : List ℕ}
    → m ≤ n
    → IsStore m frames symbols
    → IsStore n frames symbols
IsStore-mono {symbols = symbols} le h = record {
  framed = h.framed;
  listed = All-mono _ _ symbols (λ place lt. omega arith) h.listed;
}

pub record IsWell (s : Sema) : Type 0 where
  pub tables : IsScope s.scope
  pub below : ScopeBelow (length s.entries) s.scope
  pub store : IsStore (length s.entries) s.frames s.symbols

-- The scope may hold more entries, and has the same parent.
pub data Extends : Scope → Scope → Type 0 where
  nowhere : Extends no_scope no_scope
  wider :
      {t t' : HashMap ℕ} (parent : Scope)
      → ((key : Bytes) → Holds t key → Holds t' key)
      → Extends (scope t parent) (scope t' parent)

pub Extends-refl : (sc : Scope) → Extends sc sc
Extends-refl no_scope = nowhere
Extends-refl (scope t parent) = wider parent λ key h. h

pub Extends-trans : {a b c : Scope} → Extends a b → Extends b c → Extends a c
Extends-trans nowhere h = h
Extends-trans (wider parent f) (wider _ g) = wider parent λ key h. g key (f key h)

-- The function that the frame at a place is of.
abbrev pub frame_func : List StackFrame → ℕ → Option Bytes
frame_func [] i = none
frame_func (f ∷ fs) zero = some f.func
frame_func (f ∷ fs) (suc i) = frame_func fs i

pub record Later (s s' : Sema) : Type 0 where
  pub grown : length s.entries ≤ length s'.entries
  pub named :
      (i : ℕ) (name : Bytes)
      → frame_func s.frames i ≡ some name
      → frame_func s'.frames i ≡ some name
  pub extended : Extends s.scope s'.scope

pub Later-trans : {a b c : Sema} → Later a b → Later b c → Later a c
Later-trans p q = record {
  grown = omega (arith, p.grown, q.grown);
  named = λ i name e. q.named i name (p.named i name e);
  extended = Extends-trans p.extended q.extended;
}

-- The name of the function of the current frame stands for something.
abbrev pub Within : Option ℕ → Sema → Type 0
Within none s = Unit
Within (some i) s =
    (name : Bytes) × (place : ℕ) × (frame_func s.frames i ≡ some name)
    × (scope_lookup s.scope name ≡ some place)

outer_known :
    (o r : Option ℕ) (place : ℕ) → or_outer o r ≡ some place → (o ≡ some place) ⊎ (r ≡ some place)
outer_known none r place e = inr e
outer_known (some p) r place e = inl e

pub scope_lookup-lt :
    (n : ℕ) (sc : Scope) (key : Bytes) (place : ℕ)
    → ScopeBelow n sc
    → scope_lookup sc key ≡ some place
    → place < n
unfolding scope_lookup
scope_lookup-lt n no_scope key place h e = cc
scope_lookup-lt n (scope t parent) key place h e =
    elim (outer_known (hashmap_get t key) (scope_lookup parent key) place e) [
      | inl p ↦ h.0 key place p
      | inr p ↦ scope_lookup-lt n parent key place h.1 p
    ]

known_or :
    (o : Option ℕ) (r : Option ℕ) (place : ℕ) → r ≡ some place → (p : ℕ) × (or_outer o r ≡ some p)
known_or none r place e = (place, e)
known_or (some p) r place e = (p, refl)

pub scope_lookup-Extends :
    {sc sc' : Scope} (key : Bytes) (place : ℕ)
    → Extends sc sc'
    → scope_lookup sc key ≡ some place
    → (p : ℕ) × (scope_lookup sc' key ≡ some p)
unfolding scope_lookup
scope_lookup-Extends key place nowhere e = cc
scope_lookup-Extends key place (wider {t} {t'} parent f) e =
    elim (outer_known (hashmap_get t key) (scope_lookup parent key) place e) [
      | inl p ↦
          let (q, e') = f key (place, p) in (q, ap (λ o. or_outer o (scope_lookup parent key)) e')
      | inr p ↦ known_or (hashmap_get t' key) (scope_lookup parent key) place p
    ]

pub Within-Later : {s s' : Sema} (frame : Option ℕ) → Later s s' → Within frame s → Within frame s'
Within-Later none l w = tt
Within-Later (some i) l (name, place, e, k) =
    let (p, k') = scope_lookup-Extends name place l.extended k in (name, p, l.named i name e, k')

-- The name stands for an entry.
abbrev pub Known : Sema → Bytes → Type 0
Known s name = (place : ℕ) × (scope_lookup s.scope name ≡ some place)

pub Known-Later : {s s' : Sema} (name : Bytes) → Later s s' → Known s name → Known s' name
Known-Later name l (place, e) = scope_lookup-Extends name place l.extended e
