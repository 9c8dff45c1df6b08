-- ===== src/Sema/Steps.antt =====
-- sema.c: the steps of the walk over the tree, from well-formed states.
use my_lang.Prelude.{
  ℕ, zero, suc, ◌+◌, ◌<◌, ◌≡◌, refl, Option, none, some, Bool, true, false, List, [], ◌∷◌, ◌++◌,
  length, get_elem?, set, All-append, All-get, All-set, length-append, length-set, arith, ok, stop,
  Stop, Post, returns, stops, Fueled, bind, Bytes,
}
use my_lang.Symbol.{StackFrame, SymTabEntry}
use my_lang.Sema.Scope.{make_stack_frame, in_scope, stackframe_add}
use my_lang.Sema.State.{Sema, Check, check_new, mark_used, add_slot}
use my_lang.Sema.Later.{
  ScopeBelow-mono, IsFrame, IsStore-mono, IsWell, Extends-refl, frame_func, Later, Later-trans,
  Within,
}

-- The state that a run leaves is well formed and later than `s`, and `R` holds of the value.
module _ {A : Type 0} where
  pub record Done (R : ℕ → A → Type 0) (s : Sema) (r : A × Sema) : Type 0 where
    pub well : IsWell r.1
    pub later : Later s r.1
    pub result : R (length r.1.entries) r.0

abbrev pub Walks : {A : Type 0} → Option ℕ → (ℕ → A → Type 0) → Check A → Type 0
Walks frame R m = (s : Sema) → IsWell s → Within frame s → Post (Done R s) Fueled (m s)

abbrev pub Nothing : ℕ → Unit {0} → Type 0
Nothing n u = Unit

abbrev pub Below : ℕ → ℕ → Type 0
Below n place = place < n

pub Later-refl : (s : Sema) → Later s s
Later-refl s = record {
  grown = omega arith;
  named = λ i name e. e;
  extended = Extends-refl s.scope;
}

pub unchanged :
    {A : Type 0} {R : ℕ → A → Type 0} {a : A} (s : Sema)
    → IsWell s
    → R (length s.entries) a
    → Done R s (a, s)
unchanged s w r = record { well = w; later = Later-refl s; result = r }

-- What holds from the middle on holds from the start on.
pub from :
    {A : Type 0} {R : ℕ → A → Type 0} {a b : Sema} {r : A × Sema}
    → Later a b
    → Done R b r
    → Done R a r
from l d = record { well = d.well; later = Later-trans l d.later; result = d.result }

pub check_new-Done :
    (key : Bytes) (s : Sema) → IsWell s → Post (Done Nothing s) Fueled (check_new key s)
check_new-Done key s w = of (in_scope s.scope key)
  where
    of :
        (b : Bool)
        → Post
            (Done Nothing s)
            Fueled
            (elim b [ true ↦ stop Stop.failure | false ↦ ok (tt {0}, s) ])
    of true = stops (cc)
    of false = returns (unchanged s w tt)

pub allocate-Done :
    (e : SymTabEntry) (s : Sema)
    → IsWell s
    → Done Below s (length s.entries, record s { entries = s.entries ++ e ∷ [] })
allocate-Done e s w =
    let l : length (s.entries ++ e ∷ []) ≡ length s.entries + 1 =
      length-append s.entries (e ∷ []) in
    record {
      well = record {
        tables = w.tables;
        below = ScopeBelow-mono s.scope (omega arith) w.below;
        store = IsStore-mono (omega arith) w.store;
      };
      later = record {
        grown = omega arith;
        named = λ i name e. e;
        extended = Extends-refl s.scope;
      };
      result = omega arith;
    }

pub push_symbol-Done :
    (place : ℕ) (s : Sema)
    → place < length s.entries
    → IsWell s
    → Done Nothing s (tt, record s { symbols = s.symbols ++ place ∷ [] })
push_symbol-Done place s lt w = record {
  well = record {
    tables = w.tables;
    below = w.below;
    store = record {
      framed = w.store.framed;
      listed = All-append _ s.symbols (place ∷ []) w.store.listed (lt, tt);
    };
  };
  later = record { grown = omega arith; named = λ i name e. e; extended = Extends-refl s.scope };
  result = tt;
}

frame_func-append :
    (fs : List StackFrame) (f : StackFrame) (i : ℕ) (name : Bytes)
    → frame_func fs i ≡ some name
    → frame_func (fs ++ f ∷ []) i ≡ some name
frame_func-append [] f i name e = cc
frame_func-append (g ∷ fs) f zero name e = e
frame_func-append (g ∷ fs) f (suc i) name e = frame_func-append fs f i name e

frame_func-last :
    (fs : List StackFrame) (f : StackFrame) → frame_func (fs ++ f ∷ []) (length fs) ≡ some f.func
frame_func-last [] f = refl
frame_func-last (g ∷ fs) f = frame_func-last fs f

pub new_frame-Done :
    (func : Bytes) (s : Sema)
    → IsWell s
    → Done
        (λ n (frame : ℕ). Unit)
        s
        (length s.frames, record s { frames = s.frames ++ make_stack_frame func ∷ [] })
      × (frame_func (s.frames ++ make_stack_frame func ∷ []) (length s.frames) ≡ some func)
new_frame-Done func s w = (
  record {
    well = record {
      tables = w.tables;
      below = w.below;
      store = record {
        framed =
            All-append IsFrame s.frames _ w.store.framed (record { words = 0; size = refl }, tt);
        listed = w.store.listed;
      };
    };
    later = record {
      grown = omega arith;
      named = frame_func-append s.frames (make_stack_frame func);
      extended = Extends-refl s.scope;
    };
    result = tt;
  },
  frame_func-last s.frames (make_stack_frame func),
)

pub frame_func-get :
    (fs : List StackFrame) (i : ℕ) (f : StackFrame)
    → get_elem? fs i ≡ some f
    → frame_func fs i ≡ some f.func
frame_func-get [] i f e = cc
frame_func-get (g ∷ fs) zero f e = cc
frame_func-get (g ∷ fs) (suc i) f e = frame_func-get fs i f e

frame_func-set :
    (fs : List StackFrame) (j : ℕ) (f f' : StackFrame) (i : ℕ) (name : Bytes)
    → get_elem? fs j ≡ some f
    → f'.func ≡ f.func
    → frame_func fs i ≡ some name
    → frame_func (set fs j f') i ≡ some name
frame_func-set [] j f f' i name g h e = cc
frame_func-set (x ∷ fs) zero f f' zero name g h e = cc
frame_func-set (x ∷ fs) zero f f' (suc i) name g h e = e
frame_func-set (x ∷ fs) (suc j) f f' zero name g h e = e
frame_func-set (x ∷ fs) (suc j) f f' (suc i) name g h e = frame_func-set fs j f f' i name g h e

grown : (f : StackFrame) → IsFrame f → IsFrame (stackframe_add f 1 4).1
unfolding stackframe_add
grown f h = record { words = h.words + 1; size = omega (arith, h.size) }

pub add_slot-Done :
    (frame : Option ℕ) (s : Sema)
    → IsWell s
    → Post (Done (λ n offset. Unit) s) Fueled (add_slot frame s)
unfolding add_slot stackframe_add
add_slot-Done none s w = stops (cc)
add_slot-Done (some place) s w = of (get_elem? s.frames place) refl
  where
    of :
        (o : Option StackFrame)
        → get_elem? s.frames place ≡ o
        → Post (Done (λ n offset. Unit) s) Fueled (elim o [
          | none ↦ stop Stop.undefined
          | some frame ↦
              let (offset, frame') = stackframe_add frame 1 4 in
              ok (offset, record s { frames = set s.frames place frame' })
        ])
    of none e = stops (cc)
    of (some f) e = returns (record {
      well = record {
        tables = w.tables;
        below = w.below;
        store = record {
          framed =
              All-set IsFrame s.frames place _ w.store.framed
                (grown f (All-get IsFrame s.frames place f w.store.framed e));
          listed = w.store.listed;
        };
      };
      later = record {
        grown = omega arith;
        named =
            λ i name k. frame_func-set s.frames place f (stackframe_add f 1 4).1 i name e refl k;
        extended = Extends-refl s.scope;
      };
      result = tt;
    })

pub mark_used-Done :
    (place : ℕ) (s : Sema) → IsWell s → Post (Done (λ n entry. Unit) s) Fueled (mark_used place s)
mark_used-Done place s w = of (get_elem? s.entries place)
  where
    of :
        (o : Option SymTabEntry)
        → Post (Done (λ n entry. Unit) s) Fueled (
            bind
              (elim o [ none ↦ stop Stop.undefined | some entry ↦ ok entry ])
              λ e. ok (e, record s { entries = set s.entries place (record e { is_used = true }) }))
    of none = stops (cc)
    of (some e) =
        let l : length (set s.entries place (record e { is_used = true })) ≡ length s.entries =
          length-set s.entries place _ in
        returns (record {
          well = record {
            tables = w.tables;
            below = ScopeBelow-mono s.scope (omega arith) w.below;
            store = IsStore-mono (omega arith) w.store;
          };
          later = record {
            grown = omega arith;
            named = λ i name e. e;
            extended = Extends-refl s.scope;
          };
          result = tt;
        })
