-- ===== src/Asm/Flags.antt =====
-- asm.c: the `free` flags of the temporary registers, as a list.
use my_lang.Prelude.{
  ℕ, zero, suc, ◌≡◌, refl, ap, sym, ◌∙◌, Bool, true, false, List, [], ◌∷◌, ◌++◌, length, get_or,
  set, replicate, length-set, ◌<◌, drop, arith,
}
use mathlib.Core.Path.{subst}

-- The register was free, and only its flag was cleared.
pub record Takes (f : List Bool) (i : ℕ) (g : List Bool) : Type 0 where
  pub was_free : get_or f i false ≡ true
  pub becomes : g ≡ set f i false

pub Takes-length : {f g : List Bool} {i : ℕ} → Takes f i g → length g ≡ length f
Takes-length {f} {i = i} t = ap length t.becomes ∙ length-set f i false

set-set : (f : List Bool) (i : ℕ) → get_or f i false ≡ true → set (set f i false) i true ≡ f
set-set [] i h = cc
set-set (b ∷ f) zero h = cc
set-set (b ∷ f) (suc i) h = ap (λ x. b ∷ x) (set-set f i h)

pub release : {f g : List Bool} {i : ℕ} → Takes f i g → set g i true ≡ f
release {f} {i = i} t = rw (t.becomes) (set-set f i t.was_free)

set-swap :
    (f : List Bool) (i j : ℕ)
    → get_or f i false ≡ true
    → get_or (set f i false) j false ≡ true
    → (get_or f j false ≡ true)
      × (get_or (set f j false) i false ≡ true)
      × (set (set f i false) j false ≡ set (set f j false) i false)
set-swap [] i j h k = cc
set-swap (b ∷ f) zero zero h k = cc
set-swap (b ∷ f) zero (suc j) h k = (k, h, refl)
set-swap (b ∷ f) (suc i) zero h k = (k, h, refl)
set-swap (b ∷ f) (suc i) (suc j) h k =
    let (p, q, e) = set-swap f i j h k in (p, q, ap (λ x. b ∷ x) e)

-- Two registers that were taken one after the other could have been taken the other way round.
pub swap :
    {f g h : List Bool} {i j : ℕ}
    → Takes f i g
    → Takes g j h
    → (k : List Bool) × Takes f j k × Takes k i h
swap {f} {i = i} {j} p q =
    let (a, b, c) =
      set-swap f i j p.was_free (subst (λ x. get_or x j false ≡ true) p.becomes q.was_free) in
    (
      set f j false,
      record { was_free = a; becomes = refl },
      record { was_free = b; becomes = q.becomes ∙ ap (λ x. set x j false) p.becomes ∙ c },
    )

-- The operands are freed after the result was taken.
pub free_two :
    {f f₁ f₂ f₃ : List Bool} {l r x : ℕ}
    → Takes f l f₁
    → Takes f₁ r f₂
    → Takes f₂ x f₃
    → Takes f x (set (set f₃ l true) r true)
free_two {f} {r = r} {x} p q t =
    let (a, p₁, q₁) = swap q t in
    let (b, p₂, q₂) = swap p p₁ in
    let (c, p₃, q₃) = swap q₂ q₁ in
    subst (λ y. Takes f x y) (sym (ap (λ y. set y r true) (release q₃) ∙ release p₃)) p₂

-- The first operand keeps the result, the second is freed.
pub free_last :
    {f f₁ f₂ : List Bool} {l r : ℕ} → Takes f l f₁ → Takes f₁ r f₂ → Takes f l (set f₂ r true)
free_last {f} {l = l} p q = subst (λ y. Takes f l y) (sym (release q)) p

pub free_first :
    {f f₁ f₂ : List Bool} {l r : ℕ} → Takes f l f₁ → Takes f₁ r f₂ → Takes f r (set f₂ l true)
free_first {f} {r = r} p q =
    let (a, p₁, q₁) = swap p q in subst (λ y. Takes f r y) (sym (release q₁)) p₁

-- A second register was taken for a while.
pub free_three :
    {f f₁ f₂ f₃ f₄ : List Bool} {l r x y : ℕ}
    → Takes f l f₁
    → Takes f₁ r f₂
    → Takes f₂ x f₃
    → Takes f₃ y f₄
    → Takes f x (set (set (set f₄ l true) r true) y true)
free_three {f} {x = x} p q t u =
    let (a, q₁, t₁) = swap q t in
    let (b, p₁, v) = swap p q₁ in subst (λ z. Takes f x z) (sym (release (free_two v t₁ u))) p₁

-- Flags that are all set, then those of `f`: what stands while the registers are saved or restored.
pub set-between :
    (i : ℕ) (f : List Bool) (b c : Bool)
    → set (replicate i true ++ b ∷ f) i c ≡ replicate i true ++ c ∷ f
set-between zero f b c = refl
set-between (suc i) f b c = ap (λ x. true ∷ x) (set-between i f b c)

pub replicate-between :
    (i : ℕ) (f : List Bool) → replicate i true ++ true ∷ f ≡ replicate (suc i) true ++ f
replicate-between zero f = refl
replicate-between (suc i) f = ap (λ x. true ∷ x) (replicate-between i f)

pub replicate-nil : (i : ℕ) → replicate i true ++ [] ≡ replicate i true
replicate-nil zero = refl
replicate-nil (suc i) = ap (λ x. true ∷ x) (replicate-nil i)

pub drop-get_or :
    (i : ℕ) (f : List Bool) → i < length f → drop i f ≡ get_or f i true ∷ drop (suc i) f
drop-get_or i [] h = ground arith
drop-get_or zero (b ∷ f) h = refl
drop-get_or (suc i) (b ∷ f) h = drop-get_or i f (omega arith)

pub drop-length : (f : List Bool) → drop (length f) f ≡ []
drop-length [] = refl
drop-length (b ∷ f) = drop-length f
