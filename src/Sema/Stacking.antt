-- ===== src/Sema/Stacking.antt =====
-- sema.c: the steps of the walk, for the words that they hand out of one stack frame.
use my_lang.Prelude.{
  ℕ, zero, suc, ◌<◌, ◌≡◌, ◌≢◌, refl, ap, Option, none, some, Bool, true, false, List, [], ◌∷◌, ◌++◌,
  length, get_elem?, set, arith, Outcome, ok, stop, Stop, Post, returns, stops, bind, Bytes, lift,
}
use my_lang.Symbol.{StackFrame, SymTabEntry}
use my_lang.Sema.Scope.{Scope, enter_scope, exit_scope, scope_add, in_scope}
use my_lang.Sema.State.{Sema, Check, enter, leave, check_new, add_entry, mark_used}
use my_lang.Sema.Slots.{size_at, offset_at, Kept, Stacked, still}

abbrev pub Any : Stop → Type 0
Any e = Unit

-- A run of which the frame at `f`, of size `z` before it, gives words to the places.
abbrev pub Stacks : {A : Type 0} → ℕ → Bool → (A → List ℕ) → Check A → Type 0
Stacks {A} f b ps m =
    (s : Sema) (z : ℕ)
    → size_at s.frames f ≡ some z
    → Post (λ (r : A × Sema). Stacked f b z (ps r.0) s r.1) Any (m s)

abbrev pub nowhere : {A : Type 0} → A → List ℕ
nowhere a = []

pub same_entries : (es : List SymTabEntry) → Kept es es
same_entries es p z e = e

pub offset_at-append : (es : List SymTabEntry) (e : SymTabEntry) → Kept es (es ++ e ∷ [])
offset_at-append [] e p z h = cc
offset_at-append (x ∷ es) e zero z h = h
offset_at-append (x ∷ es) e (suc p) z h = offset_at-append es e p z h

pub offset_at-last :
    (es : List SymTabEntry) (e : SymTabEntry) → offset_at (es ++ e ∷ []) (length es) ≡ e.offset
offset_at-last [] e = refl
offset_at-last (x ∷ es) e = offset_at-last es e

offset_at-set :
    (es : List SymTabEntry) (i : ℕ) (e e' : SymTabEntry)
    → get_elem? es i ≡ some e
    → e'.offset ≡ e.offset
    → Kept es (set es i e')
offset_at-set [] i e e' g o p z h = cc
offset_at-set (x ∷ es) zero e e' g o zero z h = cc
offset_at-set (x ∷ es) zero e e' g o (suc p) z h = h
offset_at-set (x ∷ es) (suc i) e e' g o zero z h = h
offset_at-set (x ∷ es) (suc i) e e' g o (suc p) z h = offset_at-set es i e e' g o p z h

pub size_at-append :
    (fs : List StackFrame) (x : StackFrame) (i z : ℕ)
    → size_at fs i ≡ some z
    → size_at (fs ++ x ∷ []) i ≡ some z
size_at-append [] x i z h = cc
size_at-append (y ∷ fs) x zero z h = h
size_at-append (y ∷ fs) x (suc i) z h = size_at-append fs x i z h

pub size_at-lt : (fs : List StackFrame) (i z : ℕ) → size_at fs i ≡ some z → i < length fs
size_at-lt [] i z h = cc
size_at-lt (y ∷ fs) zero z h = omega arith
size_at-lt (y ∷ fs) (suc i) z h = omega (arith, size_at-lt fs i z h)

pub size_at-get :
    (fs : List StackFrame) (i : ℕ) (x : StackFrame)
    → get_elem? fs i ≡ some x
    → size_at fs i ≡ some x.size
size_at-get [] i x h = cc
size_at-get (y ∷ fs) zero x h = cc
size_at-get (y ∷ fs) (suc i) x h = size_at-get fs i x h

pub size_at-set_same :
    (fs : List StackFrame) (i : ℕ) (x y : StackFrame)
    → get_elem? fs i ≡ some x
    → size_at (set fs i y) i ≡ some y.size
size_at-set_same [] i x y h = cc
size_at-set_same (w ∷ fs) zero x y h = refl
size_at-set_same (w ∷ fs) (suc i) x y h = size_at-set_same fs i x y h

pub size_at-set_other :
    (fs : List StackFrame) (i j z : ℕ) (y : StackFrame)
    → j ≢ i
    → size_at fs i ≡ some z
    → size_at (set fs j y) i ≡ some z
size_at-set_other [] i j z y n h = h
size_at-set_other (w ∷ fs) zero zero z y n h = absurd (n refl)
size_at-set_other (w ∷ fs) zero (suc j) z y n h = h
size_at-set_other (w ∷ fs) (suc i) zero z y n h = h
size_at-set_other (w ∷ fs) (suc i) (suc j) z y n h =
    size_at-set_other fs i j z y (λ e. n (ap suc e)) h

module _ (f : ℕ) (b : Bool) where
  scoped :
      (r : Outcome Scope)
      → Stacks f b nowhere (λ s. bind r λ sc. ok (tt {0}, record s { scope = sc }))
  scoped (ok sc) s z h = returns (still (same_entries s.entries) h)
  scoped (stop e) s z h = stops tt

  pub lifted : {A : Type 0} (r : Outcome A) → Stacks f b nowhere (lift r)
  lifted (ok a) s z h = returns (still (same_entries s.entries) h)
  lifted (stop e) s z h = stops tt

  pub add_entry-Stacks : (place : ℕ) (e : SymTabEntry) → Stacks f b nowhere (add_entry place e)
  add_entry-Stacks place e s z h = scoped (scope_add s.scope place e) s z h

  pub enter-Stacks : Stacks f b nowhere enter
  enter-Stacks s z h = scoped (enter_scope s.scope) s z h

  pub leave-Stacks : Stacks f b nowhere leave
  leave-Stacks s z h = scoped (exit_scope s.scope) s z h

  pub check_new-Stacks : (key : Bytes) → Stacks f b nowhere (check_new key)
  check_new-Stacks key s z h = of (in_scope s.scope key)
    where
      of :
          (t : Bool)
          → Post
              (λ (r : Unit {0} × Sema). Stacked f b z [] s r.1)
              Any
              (elim t [ true ↦ stop Stop.failure | false ↦ ok (tt {0}, s) ])
      of true = stops tt
      of false = returns (still (same_entries s.entries) h)

  pub mark_used-Stacks : (place : ℕ) → Stacks f b nowhere (mark_used place)
  mark_used-Stacks place s z h = of (get_elem? s.entries place) refl
    where
      of :
          (o : Option SymTabEntry)
          → get_elem? s.entries place ≡ o
          → Post
              (λ (r : SymTabEntry × Sema). Stacked f b z [] s r.1)
              Any
              (bind
                (elim o [ none ↦ stop Stop.undefined | some entry ↦ ok entry ])
                λ e.
                  ok (e, record s { entries = set s.entries place (record e { is_used = true }) }))
      of none g = stops tt
      of (some e) g =
          returns (still (offset_at-set s.entries place e (record e { is_used = true }) g refl) h)

  pub allocated :
      (e : SymTabEntry) (s : Sema) (z : ℕ)
      → size_at s.frames f ≡ some z
      → Stacked f b z [] s (record s { entries = s.entries ++ e ∷ [] })
  allocated e s z h = still (offset_at-append s.entries e) h
