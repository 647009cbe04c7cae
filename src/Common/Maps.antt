-- ===== src/Common/Maps.antt =====
-- A JavaScript `Map` with string keys: its entries in the order of insertion.
use Prim.Native.String.{String}
use Prim.Native.Nat.{suc, ◌≤◌}
use mathlib.Core.Path.{◌≡◌, refl, sym, ap, ◌∙◌, subst}
use mathlib.Core.Logic.{inl, inr}
use mathlib.Core.Bool.{Bool, true, false}
use mathlib.Core.Option.{Option, none, some}
use mathlib.Core.List.{List, [], ◌∷◌, ◌++◌}
use native.Mathlib.Omega.{arith}
unfoldable use text.Mathlib.Text.{◌==◌ as str_eq}
use text.Mathlib.TextEquality.{eq_iff as str_eq_iff}
use errorcore.Common.Tests.{if◌then◌else◌, Bool-cases, true_ne_false}
use errorcore.Common.Lists.{length}

pub str_eq_refl : (a : String) → str_eq a a ≡ true
str_eq_refl a = (str_eq_iff a a).1 refl

str_eq-path : (a b : String) → str_eq a b ≡ true → a ≡ b
str_eq-path a b h = (str_eq_iff a b).0 h

-- Two keys that differ from each other do not both equal a third.
str_eq-ne : (a b k : String) → str_eq a b ≡ false → str_eq b k ≡ true → str_eq a k ≡ false
str_eq-ne a b k ne e = subst (λ x. str_eq a x ≡ false) (str_eq-path b k e) ne

str_eq-sym : (a b : String) → str_eq a b ≡ false → str_eq b a ≡ false
str_eq-sym a b h = elim (Bool-cases (str_eq b a)) [
  | inl e ↦
      let p = str_eq-path b a e in
      absurd (true_ne_false (sym (subst (λ x. str_eq x b ≡ true) p (str_eq_refl b)) ∙ h))
  | inr e ↦ e
]

module _ {ℓ} {A : Type ℓ} where
  abbrev pub map_get : String → List (String × A) → Option A
  map_get key [] = none
  map_get key ((k, v) ∷ m) = if str_eq key k then some v else map_get key m

  abbrev pub has_key : String → List (String × A) → Bool
  has_key key [] = false
  has_key key ((k, v) ∷ m) = if str_eq key k then true else has_key key m

  -- An entry that there is keeps its place.
  abbrev pub map_set : String → A → List (String × A) → List (String × A)
  map_set key value [] = (key, value) ∷ []
  map_set key value ((k, v) ∷ m) =
      if str_eq key k then (k, value) ∷ m else (k, v) ∷ map_set key value m

  abbrev pub map_delete : String → List (String × A) → List (String × A)
  map_delete key [] = []
  map_delete key ((k, v) ∷ m) = if str_eq key k then m else (k, v) ∷ map_delete key m

  -- No key stands twice, as in every `Map`.
  abbrev pub HasDistinctKeys : List (String × A) → Type 0
  HasDistinctKeys [] = Unit {0}
  HasDistinctKeys ((k, v) ∷ m) = (has_key k m ≡ false) × HasDistinctKeys m

  pub length-map_set :
      (key : String) (v : A) (m : List (String × A)) → length (map_set key v m) ≤ suc (length m)
  length-map_set key v [] = omega arith
  length-map_set key v ((k, w) ∷ m) = ground (arith, length-map_set key v m)

  pub length-map_delete :
      (key : String) (m : List (String × A)) → length (map_delete key m) ≤ length m
  length-map_delete key [] = omega arith
  length-map_delete key ((k, w) ∷ m) = ground (arith, length-map_delete key m)

  map_get-absent :
      (key : String) (m : List (String × A)) → has_key key m ≡ false → map_get key m ≡ none
  map_get-absent key [] h = refl
  map_get-absent key ((k, w) ∷ m) h = elim (Bool-cases (str_eq key k)) [
    | inl e ↦ absurd (true_ne_false (subst (λ t. (if t then true else has_key key m) ≡ false) e h))
    | inr e ↦
        rw e (map_get-absent key m (subst (λ t. (if t then true else has_key key m) ≡ false) e h))
  ]

  -- What `delete` does to a later `get`.
  pub map_get-map_delete_self :
      (key : String) (m : List (String × A))
      → HasDistinctKeys m
      → map_get key (map_delete key m) ≡ none
  map_get-map_delete_self key [] d = refl
  map_get-map_delete_self key ((k, w) ∷ m) (fresh, d) = elim (Bool-cases (str_eq key k)) [
    | inl e ↦
        rw e (
          map_get-absent key m (subst (λ x. has_key x m ≡ false) (sym (str_eq-path key k e)) fresh))
    | inr e ↦ rw e (rw e (map_get-map_delete_self key m d))
  ]

  pub map_get-map_delete_ne :
      (key other : String) (m : List (String × A))
      → str_eq key other ≡ false
      → map_get key (map_delete other m) ≡ map_get key m
  map_get-map_delete_ne key other [] ne = refl
  map_get-map_delete_ne key other ((k, w) ∷ m) ne = elim (Bool-cases (str_eq other k)) [
    | inl e ↦ rw (e, str_eq-ne key other k ne e) refl
    | inr e ↦ let ih = map_get-map_delete_ne key other m ne in rw (e, ih) refl
  ]

  has_key-map_delete :
      (key other : String) (m : List (String × A))
      → has_key key m ≡ false
      → has_key key (map_delete other m) ≡ false
  has_key-map_delete key other [] h = refl
  has_key-map_delete key other ((k, w) ∷ m) h = elim (Bool-cases (str_eq other k)) [
    | inl e ↦ rw e (ground (arith, h))
    | inr e ↦ rw e (ground (arith, h, has_key-map_delete key other m))
  ]

  pub map_delete-HasDistinctKeys :
      (key : String) (m : List (String × A))
      → HasDistinctKeys m
      → HasDistinctKeys (map_delete key m)
  map_delete-HasDistinctKeys key [] d = tt
  map_delete-HasDistinctKeys key ((k, w) ∷ m) (fresh, d) = elim (Bool-cases (str_eq key k)) [
    | inl e ↦ rw e d
    | inr e ↦ rw e (has_key-map_delete k key m fresh, map_delete-HasDistinctKeys key m d)
  ]

  has_key-map_set_ne :
      (key other : String) (v : A) (m : List (String × A))
      → str_eq key other ≡ false
      → has_key key m ≡ false
      → has_key key (map_set other v m) ≡ false
  has_key-map_set_ne key other v [] ne h = rw ne refl
  has_key-map_set_ne key other v ((k, w) ∷ m) ne h = elim (Bool-cases (str_eq other k)) [
    | inl e ↦ rw e h
    | inr e ↦ rw e (ground (arith, h, has_key-map_set_ne key other v m ne))
  ]

  pub map_set-HasDistinctKeys :
      (key : String) (v : A) (m : List (String × A))
      → HasDistinctKeys m
      → HasDistinctKeys (map_set key v m)
  map_set-HasDistinctKeys key v [] d = (refl, tt)
  map_set-HasDistinctKeys key v ((k, w) ∷ m) (fresh, d) = elim (Bool-cases (str_eq key k)) [
    | inl e ↦ rw e (fresh, d)
    | inr e ↦
        rw e (
          has_key-map_set_ne k key v m (str_eq-sym key k e) fresh,
          map_set-HasDistinctKeys key v m d,
        )
  ]

  pub map_get-map_set_self :
      (key : String) (v : A) (m : List (String × A)) → map_get key (map_set key v m) ≡ some v
  map_get-map_set_self key v [] = rw (str_eq_refl key) refl
  map_get-map_set_self key v ((k, w) ∷ m) = elim (Bool-cases (str_eq key k)) [
    | inl e ↦ rw e (rw e refl)
    | inr e ↦ rw e (rw e (map_get-map_set_self key v m))
  ]

  pub map_get-map_set_ne :
      (key other : String) (v : A) (m : List (String × A))
      → str_eq key other ≡ false
      → map_get key (map_set other v m) ≡ map_get key m
  map_get-map_set_ne key other v [] ne = rw ne refl
  map_get-map_set_ne key other v ((k, w) ∷ m) ne = elim (Bool-cases (str_eq other k)) [
    | inl e ↦ rw (e, str_eq-ne key other k ne e) refl
    | inr e ↦ rw (e, map_get-map_set_ne key other v m ne) refl
  ]

  has_key-middle :
      (x k : String) (v : A) (pre m : List (String × A))
      → has_key x (pre ++ (k, v) ∷ m) ≡ false
      → str_eq x k ≡ false
  has_key-middle x k v [] m h = ground (arith, h)
  has_key-middle x k v ((k', v') ∷ pre) m h = ground (arith, h, has_key-middle x k v pre m)

  pub has_key-before :
      (k : String) (v : A) (pre m : List (String × A))
      → HasDistinctKeys (pre ++ (k, v) ∷ m)
      → has_key k pre ≡ false
  has_key-before k v [] m d = refl
  has_key-before k v ((k', v') ∷ pre) m (fresh, d) =
      rw (str_eq-sym k' k (has_key-middle k' k v pre m fresh)) (has_key-before k v pre m d)

  pub map_delete-append :
      (k : String) (v : A) (pre m : List (String × A))
      → has_key k pre ≡ false
      → map_delete k (pre ++ (k, v) ∷ m) ≡ pre ++ m
  map_delete-append k v [] m h = rw (str_eq_refl k) refl
  map_delete-append k v ((k', v') ∷ pre) m h = elim (Bool-cases (str_eq k k')) [
    | inl e ↦ absurd (true_ne_false (subst (λ t. (if t then true else has_key k pre) ≡ false) e h))
    | inr e ↦ rw e (
        ap (λ xs. (k', v') ∷ xs)
          (map_delete-append k v pre m
            (subst (λ t. (if t then true else has_key k pre) ≡ false) e h)))
  ]
