-- ===== src/Prelude/Results.antt =====
-- The outcome of a run of the compiler, and postconditions on it.
use mathlib.Core.Path.{◌≡◌, refl, subst}
use mathlib.Core.Logic.{◌≢◌}

-- How a run ends early. `failure` is `exit(1)` behind a message; `null_pointer` reads through NULL;
-- `undefined` is any other undefined behaviour of C (an indeterminate value is read, an `int`
-- overflows); `out_of_fuel` has no counterpart in the program.
pub data Stop : Type 0 where
  failure null_pointer undefined out_of_fuel : Stop

pub data Outcome {ℓ} (A : Type ℓ) : Type ℓ where
  ok : A → Outcome A
  stop : Stop → Outcome A

abbrev pub bind {ℓ κ} : {A : Type ℓ} {B : Type κ} → Outcome A → (A → Outcome B) → Outcome B
bind (ok a) f = f a
bind (stop e) f = stop e

-- `P` holds of the value, `E` of the reason for which there is none.
pub data Post {ℓ κ} {A : Type ℓ} (P : A → Type κ) (E : Stop → Type 0)
    : Outcome A → Type (ℓ ⊔ κ) where
  returns : {a : A} → P a → Post P E (ok a)
  stops : {e : Stop} → E e → Post P E (stop e)

-- The run kept within its fuel.
abbrev pub Fueled : Stop → Type 0
Fueled e = e ≢ Stop.out_of_fuel

module _ {ℓ κ} {A : Type ℓ} {P : A → Type κ} {E : Stop → Type 0} where
  pub Post-ok : {r : Outcome A} {a : A} → Post P E r → r ≡ ok a → P a
  Post-ok (returns h) e = subst P (cc) h
  Post-ok (stops h) e = cc

  pub Post-stop : {r : Outcome A} {s : Stop} → Post P E r → r ≡ stop s → E s
  Post-stop (returns h) e = cc
  Post-stop (stops h) e = subst E (cc) h

  pub Post-bind {ℓ' κ'} :
      {B : Type ℓ'} {Q : B → Type κ'} {r : Outcome A} {f : A → Outcome B}
      → Post P E r
      → ((a : A) → P a → Post Q E (f a))
      → Post Q E (bind r f)
  Post-bind (returns {a} h) k = k a h
  Post-bind (stops h) k = stops h

  pub Post-mono {κ'} :
      {Q : A → Type κ'} {r : Outcome A} → Post P E r → ((a : A) → P a → Q a) → Post Q E r
  Post-mono (returns {a} h) k = returns (k a h)
  Post-mono (stops h) k = stops h

pub bind_assoc {ℓ κ μ} :
    {A : Type ℓ} {B : Type κ} {C : Type μ} (r : Outcome A) (f : A → Outcome B) (g : B → Outcome C)
    → bind (bind r f) g ≡ bind r (λ a. bind (f a) g)
bind_assoc (ok a) f g = refl
bind_assoc (stop e) f g = refl
