-- ===== src/Prelude/State.antt =====
-- State passing with outcomes: how the passes that write to shared objects are composed.
use my_lang.Prelude.Results.{Outcome, ok, stop, Stop, bind}
use mathlib.Core.Option.{Option, none, some}

abbrev pub Stateful {ℓ κ} : Type ℓ → Type κ → Type (ℓ ⊔ κ)
Stateful S A = S → Outcome (A × S)

module _ {σ} {S : Type σ} where
  infixl 5 ◌>>=◌ ◌>>◌
  abbrev pub ◌>>=◌ {ℓ κ} :
      {A : Type ℓ} {B : Type κ} → Stateful S A → (A → Stateful S B) → Stateful S B
  ◌>>=◌ m f s = bind (m s) λ (a, s'). f a s'

  abbrev pub ◌>>◌ {ℓ} : {B : Type ℓ} → Stateful S (Unit {0}) → Stateful S B → Stateful S B
  ◌>>◌ m k = m >>= λ _. k

  abbrev pub pure {ℓ} : {A : Type ℓ} → A → Stateful S A
  pure a s = ok (a, s)

  abbrev pub fail {ℓ} : {A : Type ℓ} → Stop → Stateful S A
  fail e s = stop e

  -- An outcome that neither reads nor writes the state.
  abbrev pub lift {ℓ} : {A : Type ℓ} → Outcome A → Stateful S A
  lift r s = bind r λ a. ok (a, s)

  -- A field behind a pointer that was never set holds no value.
  abbrev pub initialized {ℓ} : {A : Type ℓ} → Option A → Stateful S A
  initialized none = fail Stop.undefined
  initialized (some a) = pure a
