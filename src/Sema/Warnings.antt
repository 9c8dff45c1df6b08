-- ===== src/Sema/Warnings.antt =====
-- sema.c: the names that `warn_unused` prints.
use my_lang.Prelude.{
  ℕ, ◌≡◌, ◌⊎◌, ◌↔◌, inl, inr, refl, Bool, true, false, ◌||◌, Bool-cases, Option, none, some, List,
  [], ◌∷◌, get_elem?, if◌then◌else◌, ok, stop, Stop, Post, returns, stops, Post-bind, Post-ok, bind,
  Bytes, bytes, strcmp_eq,
}
use mathlib.Core.Path.{subst}
use my_lang.Symbol.{SymTabEntry}
use my_lang.Sema.Program.{warn_unused}

-- Some element of the list.
abbrev pub Among : {A : Type 0} → (A → Type 0) → List A → Type 0
Among P [] = ⊥
Among P (x ∷ xs) = P x ⊎ Among P xs

-- The place holds an entry with the key, which no name was resolved to, and which is not `main`.
pub record IsUnused (entries : List SymTabEntry) (key : Bytes) (place : ℕ) : Type 0 where
  pub entry : SymTabEntry
  pub stored : get_elem? entries place ≡ some entry
  pub unused : entry.is_used ≡ false
  pub other_than_main : strcmp_eq entry.key (bytes "main") ≡ false
  pub named : entry.key ≡ key

abbrev Told : List SymTabEntry → List ℕ → List Bytes → Type 0
Told entries places ws =
    (key : Bytes)
    → (Among (λ w. w ≡ key) ws → Among (IsUnused entries key) places)
      × (Among (IsUnused entries key) places → Among (λ w. w ≡ key) ws)

silent : (u m : Bool) → (u || m) ≡ false → (u ≡ false) × (m ≡ false)
silent true m e = cc
silent false m e = (refl, e)

loud : (u m : Bool) → (u || m) ≡ true → u ≡ false → m ≡ false → ⊥
loud true m e h k = cc
loud false m e h k = cc

module _ (entries : List SymTabEntry) where
  -- One more entry, of which a warning is printed or not.
  one_more :
      (place : ℕ) (places : List ℕ) (ws : List Bytes) (e : SymTabEntry)
      → get_elem? entries place ≡ some e
      → Told entries places ws
      → Told entries
          (place ∷ places)
          (if e.is_used || strcmp_eq e.key (bytes "main") then ws else e.key ∷ ws)
  one_more place places ws e g h key =
      elim (Bool-cases (e.is_used || strcmp_eq e.key (bytes "main"))) [
        | inl b ↦ rw b (
          (λ m. inr ((h key).0 m)),
          λ m. elim m [ inl u ↦ absurd (known b u) | inr m ↦ (h key).1 m ],
        )
        | inr b ↦
            let (u, n) = silent e.is_used (strcmp_eq e.key (bytes "main")) b in
            rw b (
              (λ m. elim m [
                | inl k ↦
                    inl
                      (record { entry = e; stored = g; unused = u; other_than_main = n; named = k })
                | inr m ↦ inr ((h key).0 m)
              ]),
              λ m. elim m [ inl u ↦ inl (same u) | inr m ↦ inr ((h key).1 m) ],
            )
      ]
    where
      entry_same : (u : IsUnused entries key place) → u.entry ≡ e
      entry_same u = (cc (u.stored, g))

      known : (e.is_used || strcmp_eq e.key (bytes "main")) ≡ true → IsUnused entries key place → ⊥
      known b u =
          loud e.is_used (strcmp_eq e.key (bytes "main")) b
            (subst (λ x. x.is_used ≡ false) (entry_same u) u.unused)
            (subst (λ x. strcmp_eq x.key (bytes "main") ≡ false) (entry_same u) u.other_than_main)

      same : (u : IsUnused entries key place) → e.key ≡ key
      same u = subst (λ x. x.key ≡ key) (entry_same u) u.named

  warn-Told :
      (places : List ℕ) → Post (Told entries places) (λ e. Unit {0}) (warn_unused entries places)
  unfolding warn_unused
  warn-Told [] = returns (λ key. ((λ m. m), λ m. m))
  warn-Told (place ∷ places) = of (get_elem? entries place) refl (warn-Told places)
    where
      of :
          (o : Option SymTabEntry)
          → get_elem? entries place ≡ o
          → Post (Told entries places) (λ e. Unit {0}) (warn_unused entries places)
          → Post
              (Told entries (place ∷ places))
              (λ e. Unit {0})
              (bind
                (elim o [ none ↦ stop Stop.undefined | some entry ↦ ok entry ])
                λ symbol. bind (warn_unused entries places) λ ws. ok (
                  if symbol.is_used || strcmp_eq symbol.key (bytes "main")
                  then ws
                  else symbol.key ∷ ws))
      of none g rest = stops tt
      of (some e) g rest = Post-bind rest λ ws h. returns (one_more place places ws e g h)

-- Where `warn_unused` comes to its end, a name is warned of just when one of the entries it looks at has
-- that name, was never used, and is not `main`.
pub warn_unused-IsUnused :
    (entries : List SymTabEntry) (places : List ℕ) (warnings : List Bytes) (key : Bytes)
    → warn_unused entries places ≡ ok warnings
    → Among (λ w. w ≡ key) warnings ↔ Among (IsUnused entries key) places
warn_unused-IsUnused entries places warnings key e = Post-ok (warn-Told entries places) e key
