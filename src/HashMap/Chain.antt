-- ===== src/HashMap/Chain.antt =====
-- hashmap.c: one chain of `TableNode`s.
use my_lang.Prelude.{
  ◌≡◌, refl, true, Option, none, some, List, [], ◌∷◌, if◌then◌else◌, arith, Bytes, strcmp_eq,
  strcmp_eq→eq, strcmp_eq_refl,
}

-- A node's key and data, and the nodes behind it.
abbrev pub TableNode {ℓ} : Type ℓ → Type ℓ
TableNode V = List (Bytes × V)

strcmp_congr : (a b c : Bytes) → strcmp_eq a b ≡ true → strcmp_eq a c ≡ strcmp_eq b c
strcmp_congr a b c h = rw (strcmp_eq→eq a b h)

strcmp_join : (a b c : Bytes) → strcmp_eq a c ≡ true → strcmp_eq b c ≡ true → strcmp_eq a b ≡ true
strcmp_join a b c h k = rw (strcmp_eq→eq a c h, strcmp_eq→eq b c k) (strcmp_eq_refl c)

module _ {ℓ} {V : Type ℓ} where
  unfoldable pub find : TableNode V → Bytes → Option V
  find [] key = none
  find ((k, v) ∷ nodes) key = if strcmp_eq k key then some v else find nodes key

  unfoldable pub insert : TableNode V → V → Bytes → TableNode V
  insert [] v key = (key, v) ∷ []
  insert ((k, w) ∷ nodes) v key =
      if strcmp_eq key k then (k, v) ∷ nodes else (k, w) ∷ insert nodes v key

  -- A key that was inserted is found with its data, and every other key as before.
  pub find-insert :
      (nodes : TableNode V) (v : V) (key q : Bytes)
      → find (insert nodes v key) q ≡ (if strcmp_eq key q then some v else find nodes q)
  unfolding find insert
  find-insert [] v key q = refl
  find-insert ((k, w) ∷ nodes) v key q =
      ground (arith, find-insert nodes v key q, strcmp_congr key k q, strcmp_join key k q)
