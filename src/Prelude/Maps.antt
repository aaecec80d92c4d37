-- ===== src/Prelude/Maps.antt =====
-- Go's `map[string]V` as an association list with one entry for a key.
use Prim.Native.Nat.{◌+◌, ◌≤◌}
use Prim.Native.String.{String}
use mathlib.Core.Path.{◌≡◌, refl}
use mathlib.Core.Logic.{inl, inr}
use mathlib.Core.Bool.{Bool, true, false}
use mathlib.Core.Option.{Option, none, some}
use mathlib.Core.List.{List, [], ◌∷◌}
use native.Mathlib.Omega.{arith}
use text.Mathlib.Text.{◌==◌ as str_eq}
use text.Mathlib.TextEquality.{eq_iff}
use puzzle_bubble.Prelude.Tests.{if◌then◌else◌, Bool-cases}
use puzzle_bubble.Prelude.Lists.{length}

module _ {ℓ} {V : Type ℓ} where
  -- `v, ok := m[k]`.
  unfoldable pub lookup : String → List (String × V) → Option V
  lookup key [] = none
  lookup key ((name, held) ∷ rest) = if str_eq name key then some held else lookup key rest

  -- `m[k] = v`.
  unfoldable pub insert : String → V → List (String × V) → List (String × V)
  insert key new [] = (key, new) ∷ []
  insert key new ((name, held) ∷ rest) =
      if str_eq name key then (key, new) ∷ rest else (name, held) ∷ insert key new rest

  -- `delete(m, k)`.
  unfoldable pub erase : String → List (String × V) → List (String × V)
  erase k [] = []
  erase k ((j, w) ∷ m) = if str_eq j k then erase k m else (j, w) ∷ erase k m

  -- `_, ok := m[k]`.
  unfoldable pub has : String → List (String × V) → Bool
  has k [] = false
  has k ((j, v) ∷ m) = if str_eq j k then true else has k m

  pub lookup-insert :
      (new_key key : String) (new : V) (entries : List (String × V))
      → lookup key (insert new_key new entries)
        ≡ (if str_eq new_key key then some new else lookup key entries)
  unfolding insert lookup
  lookup-insert new_key key new [] = refl
  lookup-insert new_key key new ((name, held) ∷ rest) = ground (
    arith,
    lookup-insert new_key key new rest,
    eq_iff name key,
    eq_iff new_key key,
    eq_iff name new_key,
  )

  pub lookup-erase :
      (k j : String) (m : List (String × V))
      → lookup j (erase k m) ≡ (if str_eq k j then none else lookup j m)
  unfolding lookup erase
  lookup-erase k j [] = ground arith
  lookup-erase k j ((i, w) ∷ m) =
      ground (arith, eq_iff k j, eq_iff i k, eq_iff i j, lookup-erase k j m)

  pub has-insert :
      (k j : String) (v : V) (m : List (String × V))
      → has j (insert k v m) ≡ (if str_eq k j then true else has j m)
  unfolding has insert
  has-insert k j v [] = refl
  has-insert k j v ((i, w) ∷ m) =
      ground (arith, eq_iff k j, eq_iff i k, eq_iff i j, has-insert k j v m)

  pub has-erase :
      (k j : String) (m : List (String × V))
      → has j (erase k m) ≡ (if str_eq k j then false else has j m)
  unfolding has erase
  has-erase k j [] = ground arith
  has-erase k j ((i, w) ∷ m) = ground (arith, eq_iff k j, eq_iff i k, eq_iff i j, has-erase k j m)

  pub has_of_lookup :
      (k : String) (v : V) (m : List (String × V)) → lookup k m ≡ some v → has k m ≡ true
  unfolding has lookup
  has_of_lookup k v [] e = absurd (cc)
  has_of_lookup k v ((i, w) ∷ m) e = ground (arith, has_of_lookup k v m)

  pub lookup_of_has :
      (k : String) (m : List (String × V)) → has k m ≡ true → (v : V) × (lookup k m ≡ some v)
  unfolding has lookup
  lookup_of_has k [] e = absurd (cc)
  lookup_of_has k ((i, w) ∷ m) e = elim (Bool-cases (str_eq i k)) [
    | inl same ↦ (w, rw same)
    | inr other ↦ let (v, h) = lookup_of_has k m (rw other at e) in (v, rw other h)
  ]

  pub lookup_of_has_not : (k : String) (m : List (String × V)) → has k m ≡ false → lookup k m ≡ none
  unfolding has lookup
  lookup_of_has_not k [] h = refl
  lookup_of_has_not k ((i, w) ∷ m) h = ground (arith, lookup_of_has_not k m)

  pub length-insert-le :
      (k : String) (v : V) (m : List (String × V)) → length (insert k v m) ≤ length m + 1
  unfolding insert
  length-insert-le k v [] = omega arith
  length-insert-le k v ((i, w) ∷ m) = ground (arith, length-insert-le k v m)

  pub length-insert_of_has :
      (k : String) (v : V) (m : List (String × V))
      → has k m ≡ true
      → length (insert k v m) ≡ length m
  unfolding insert has
  length-insert_of_has k v [] h = absurd (cc)
  length-insert_of_has k v ((i, w) ∷ m) h = ground (arith, length-insert_of_has k v m)

  pub length-erase-le : (k : String) (m : List (String × V)) → length (erase k m) ≤ length m
  unfolding erase
  length-erase-le k [] = omega arith
  length-erase-le k ((i, w) ∷ m) = ground (arith, length-erase-le k m)

module _ {ℓ} {V : Type ℓ} where
  -- `for k, v := range m { m[k] = f(k, v) }`.
  unfoldable pub map_values : (String → V → V) → List (String × V) → List (String × V)
  map_values f [] = []
  map_values f ((j, v) ∷ m) = (j, f j v) ∷ map_values f m

  -- Every value has the property.
  abbrev pub Each {κ} : (V → Type κ) → List (String × V) → Type κ
  Each P [] = Unit
  Each P ((j, v) ∷ m) = P v × Each P m

  pub Each-insert {κ} :
      (P : V → Type κ) (k : String) (v : V) (m : List (String × V))
      → P v
      → Each P m
      → Each P (insert k v m)
  unfolding insert
  Each-insert P k v [] p h = (p, tt)
  Each-insert P k v ((j, w) ∷ m) p h = elim (Bool-cases (str_eq j k)) [
    | inl same ↦ rw same (p, h.1)
    | inr other ↦ rw other (h.0, Each-insert P k v m p h.1)
  ]

  pub Each-erase {κ} :
      (P : V → Type κ) (k : String) (m : List (String × V)) → Each P m → Each P (erase k m)
  unfolding erase
  Each-erase P k [] h = tt
  Each-erase P k ((j, w) ∷ m) h = elim (Bool-cases (str_eq j k)) [
    | inl same ↦ rw same (Each-erase P k m h.1)
    | inr other ↦ rw other (h.0, Each-erase P k m h.1)
  ]

  pub Each-lookup {κ} :
      (P : V → Type κ) (k : String) (v : V) (m : List (String × V))
      → Each P m
      → lookup k m ≡ some v
      → P v
  unfolding lookup
  Each-lookup P k v [] h e = absurd (cc)
  Each-lookup P k v ((j, w) ∷ m) h e = elim (Bool-cases (str_eq j k)) [
    | inl same ↦ rw (← some_inj w v (rw same at e)) h.0
    | inr other ↦ Each-lookup P k v m h.1 (rw other at e)
  ]
    where
      some_inj : (a b : V) → some a ≡ some b → a ≡ b
      some_inj a b q = cc

  pub Each-map_values {κ} :
      (P : V → Type κ) (f : String → V → V) (m : List (String × V))
      → ((j : String) (v : V) → P v → P (f j v))
      → Each P m
      → Each P (map_values f m)
  unfolding map_values
  Each-map_values P f [] g h = tt
  Each-map_values P f ((j, v) ∷ m) g h = (g j v h.0, Each-map_values P f m g h.1)

  pub lookup-map_values :
      (f : String → V → V) (k : String) (m : List (String × V))
      → lookup k (map_values f m) ≡ elim (lookup k m) [ none ↦ none | some v ↦ some (f k v) ]
  unfolding lookup map_values
  lookup-map_values f k [] = refl
  lookup-map_values f k ((j, v) ∷ m) = elim (Bool-cases (str_eq j k)) [
    | inl same ↦ rw (same, (eq_iff j k).0 same) refl
    | inr other ↦ rw other (lookup-map_values f k m)
  ]

  -- No key stands twice.
  abbrev pub IsMap : List (String × V) → Type 0
  IsMap [] = Unit
  IsMap ((j, v) ∷ m) = (has j m ≡ false) × IsMap m

  pub IsMap-insert : (k : String) (v : V) (m : List (String × V)) → IsMap m → IsMap (insert k v m)
  unfolding insert has
  IsMap-insert k v [] h = (refl, tt)
  IsMap-insert k v ((j, w) ∷ m) h = elim (Bool-cases (str_eq j k)) [
    | inl same ↦ rw (same, ← (eq_iff j k).0 same) h
    | inr other ↦
        rw other (ground (arith, has-insert k j v m, eq_iff k j, h.0), IsMap-insert k v m h.1)
  ]
