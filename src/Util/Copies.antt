-- ===== src/Util/Copies.antt =====
-- util.c: a `String` as its characters.
use my_lang.Prelude.{
  ℕ, zero, suc, ◌+◌, ◌≤◌, ◌≡◌, refl, sym, ap, ◌∙◌, Bool, true, false, ◌&&◌, none, some, [], ◌∷◌,
  ◌++◌, append-nil, append_assoc, length-append, length, get_elem?, get_elem?-known, get_or, drop,
  ◌==◌, if◌then◌else◌, arith, ok, stop, Stop, bind, Bytes, strcmp_eq, strcmp_eq→eq, Bool-cases, inl,
  inr,
}
use mathlib.Core.Path.{subst}
use my_lang.Util.Vector.{Vector, vector_get}
use my_lang.Util.Strings.{
  String, string_new, string_append, append_all, string, clone_loop, string_clone, eq_loop,
  string_eq, chars, as_str,
}
use my_lang.Util.Refines.{Represents, vector_new-Represents, vector-Represents}

-- The string holds the characters in order.
pub record IsString (s : String) (xs : Bytes) : Type 0 where
  pub count : s.length ≡ length xs
  pub held : Represents s.vector xs

string_new-IsString : IsString string_new []
unfolding string_new
string_new-IsString = record { count = refl; held = vector_new-Represents }

string_append-IsString :
    (s : String) (xs : Bytes) (c : ℕ) → IsString s xs → IsString (string_append s c) (xs ++ c ∷ [])
unfolding string_append
string_append-IsString s xs c h = record {
  count = omega (arith, h.count, length-append xs (c ∷ []));
  held = (vector-Represents s.vector xs c 0 h.held).0;
}

append_all-IsString :
    (s : String) (xs str : Bytes) → IsString s xs → IsString (append_all s str) (xs ++ str)
unfolding append_all
append_all-IsString s xs [] h = subst (IsString s) (sym (append-nil xs)) h
append_all-IsString s xs (c ∷ str) h =
    subst (IsString (append_all (string_append s c) str)) (append_assoc xs (c ∷ []) str)
      (append_all-IsString (string_append s c) (xs ++ c ∷ []) str (string_append-IsString s xs c h))

vector_get-at :
    (v : Vector ℕ) (xs : Bytes) (i c : ℕ)
    → Represents v xs
    → get_elem? xs i ≡ some c
    → vector_get v i ≡ ok c
vector_get-at v xs i c h e =
    (vector-Represents v xs 0 i h).1
    ∙ ap (λ o. elim o [ none ↦ stop Stop.failure | some a ↦ ok a ]) e

drop-get : (xs : Bytes) (i c : ℕ) → get_elem? xs i ≡ some c → drop i xs ≡ c ∷ drop (suc i) xs
drop-get [] i c e = cc
drop-get (x ∷ xs) zero c e = cc
drop-get (x ∷ xs) (suc i) c e = drop-get xs i c e

drop-all : (xs : Bytes) (i : ℕ) → length xs ≤ i → drop i xs ≡ []
drop-all [] zero h = refl
drop-all [] (suc i) h = refl
drop-all (x ∷ xs) zero h = absurd (omega arith)
drop-all (x ∷ xs) (suc i) h = drop-all xs i (omega arith)

get_or-some : (xs : Bytes) (i d c : ℕ) → get_elem? xs i ≡ some c → get_or xs i d ≡ c
get_or-some [] i d c e = cc
get_or-some (x ∷ xs) zero d c e = cc
get_or-some (x ∷ xs) (suc i) d c e = get_or-some xs i d c e

tested : (b r : Bool) → (if b then ok r else ok false) ≡ ok (b && r)
tested true r = refl
tested false r = refl

module _ (v : Vector ℕ) (xs : Bytes) (h : Represents v xs) where
  chars-drop : (n i : ℕ) → i + n ≡ length xs → chars n i v ≡ ok (drop i xs)
  unfolding chars
  chars-drop zero i e = sym (ap ok (drop-all xs i (omega arith)))
  chars-drop (suc n) i e =
      let (c, k) = get_elem?-known xs i (omega arith) in
      let next : i + 1 ≡ suc i = omega arith in
      ap (λ r. bind r λ c. bind (chars n (i + 1) v) λ s. ok (c ∷ s)) (vector_get-at v xs i c h k)
      ∙ ap (λ r. bind r λ s. ok (c ∷ s)) (chars-drop n (i + 1) (omega arith))
      ∙ ap ok (ap (λ j. c ∷ drop j xs) next ∙ sym (drop-get xs i c k))

  clone-drop :
      (n i : ℕ) (s : String) (ys : Bytes)
      → i + n ≡ length xs
      → IsString s ys
      → (s' : String) × (clone_loop n i v s ≡ ok s') × IsString s' (ys ++ drop i xs)
  unfolding clone_loop
  clone-drop zero i s ys e k = (
    s,
    refl,
    subst (IsString s) (sym (ap (λ z. ys ++ z) (drop-all xs i (omega arith)) ∙ append-nil ys)) k,
  )
  clone-drop (suc n) i s ys e k =
      let next : i + 1 ≡ suc i = omega arith in
      let (c, g) = get_elem?-known xs i (omega arith) in
      let (s', r, k') =
        clone-drop n (i + 1) (string_append s c) (ys ++ c ∷ []) (omega arith)
          (string_append-IsString s ys c k) in
      (
        s',
        ap (λ r. bind r λ c. clone_loop n (i + 1) v (string_append s c))
              (vector_get-at v xs i c h g)
            ∙ r,
        subst (IsString s')
            (append_assoc ys (c ∷ []) (drop (i + 1) xs)
              ∙ ap (λ z. ys ++ z) (ap (λ j. c ∷ drop j xs) next ∙ sym (drop-get xs i c g)))
            k',
      )

  eq-drop :
      (cmp : Bytes) (n i : ℕ)
      → i + n ≡ length xs
      → length cmp ≡ length xs
      → eq_loop n i v cmp ≡ ok (strcmp_eq (drop i xs) (drop i cmp))
  unfolding eq_loop strcmp_eq
  eq-drop cmp zero i e l = sym (
      ap ok (
        ap (λ z. strcmp_eq z (drop i cmp)) (drop-all xs i (omega arith))
        ∙ ap (λ z. strcmp_eq [] z) (drop-all cmp i (omega arith))))
  eq-drop cmp (suc n) i e l =
      let next : i + 1 ≡ suc i = omega arith in
      let (c, k) = get_elem?-known xs i (omega arith) in
      let (d, m) = get_elem?-known cmp i (omega arith) in
      ap (λ r. bind r λ c. if c == get_or cmp i 0 then eq_loop n (i + 1) v cmp else ok false)
        (vector_get-at v xs i c h k)
      ∙ ap (λ d. if c == d then eq_loop n (i + 1) v cmp else ok false) (get_or-some cmp i 0 d m)
      ∙ ap (λ r. if c == d then r else ok false) (eq-drop cmp n (i + 1) (omega arith) l)
      ∙ tested (c == d) (strcmp_eq (drop (i + 1) xs) (drop (i + 1) cmp))
      ∙ ap (λ j. ok (c == d && strcmp_eq (drop j xs) (drop j cmp))) next
      ∙ sym (
          ap ok (
            ap (λ z. strcmp_eq z (drop i cmp)) (drop-get xs i c k)
            ∙ ap (λ z. strcmp_eq (c ∷ drop (suc i) xs) z) (drop-get cmp i d m)))

as_str-IsString : (s : String) (xs : Bytes) → IsString s xs → as_str s ≡ ok xs
unfolding as_str
as_str-IsString s xs h = chars-drop s.vector xs h.held s.length 0 (omega (arith, h.count))

string_clone-IsString :
    (s : String) (xs : Bytes)
    → IsString s xs
    → (s' : String) × (string_clone s ≡ ok s') × IsString s' xs
unfolding string_clone
string_clone-IsString s xs h =
    clone-drop s.vector xs h.held s.length 0 string_new [] (omega (arith, h.count))
      string_new-IsString

strcmp_eq-length : (xs ys : Bytes) → strcmp_eq xs ys ≡ true → length xs ≡ length ys
strcmp_eq-length xs ys e = ap length (strcmp_eq→eq xs ys e)

string_eq-IsString :
    (s : String) (xs cmp : Bytes) → IsString s xs → string_eq s cmp ≡ ok (strcmp_eq xs cmp)
unfolding string_eq
string_eq-IsString s xs cmp h = elim (Bool-cases (s.length == length cmp)) [
  | inl b ↦
      let same : s.length ≡ length cmp = ground (arith, b) in
      rw b (
        eq-drop s.vector xs h.held cmp s.length 0 (omega (arith, h.count)) (omega (arith, h.count)))
  | inr b ↦ rw b (elim (Bool-cases (strcmp_eq xs cmp)) [
    | inl e ↦ absurd (ground (arith, b, h.count, strcmp_eq-length xs cmp e))
    | inr e ↦ sym (ap ok e)
  ])
]

-- What was made from a C string, and appended to, is read back as those characters; the clone holds the
-- same ones, and the comparison with a C string is equality with it.
pub as_str-string :
    (str more cmp : Bytes)
    → (as_str (append_all (string str) more) ≡ ok (str ++ more))
      × ((s' : String) × (string_clone (append_all (string str) more) ≡ ok s')
          × (as_str s' ≡ ok (str ++ more)))
      × (string_eq (append_all (string str) more) cmp ≡ ok (strcmp_eq (str ++ more) cmp))
unfolding string
as_str-string str more cmp =
    let h =
      append_all-IsString (string str) str more
        (append_all-IsString string_new [] str string_new-IsString) in
    let (s', e, k) = string_clone-IsString _ _ h in
    (as_str-IsString _ _ h, (s', e, as_str-IsString _ _ k), string_eq-IsString _ _ cmp h)
