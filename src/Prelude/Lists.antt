-- ===== src/Prelude/Lists.antt =====
-- Lists measured and indexed by native numbers, membership by recursion, and distinct lists.
use Prim.Native.Nat.{ℕ, zero, suc, ◌+◌, ◌<◌, ◌≤◌}
use mathlib.Core.Path.{◌≡◌, refl, ap, sym}
use mathlib.Core.Logic.{◌≢◌, ◌⊎◌, ◌↔◌, inl, inr}
use mathlib.Core.List.{List, [], ◌∷◌, ◌++◌}
use native.Mathlib.Omega.{arith}
use puzzle_bubble.Prelude.Tests.{◌==◌, ==_iff, if◌then◌else◌, Bool-cases}

module _ {ℓ} {A : Type ℓ} where
  abbrev pub length : List A → ℕ
  length [] = 0
  length (x ∷ xs) = suc (length xs)

  abbrev pub get_or : List A → ℕ → A → A
  get_or [] i d = d
  get_or (x ∷ xs) zero d = x
  get_or (x ∷ xs) (suc i) d = get_or xs i d

  -- A write out of bounds changes nothing.
  abbrev pub set : List A → ℕ → A → List A
  set [] i v = []
  set (x ∷ xs) zero v = v ∷ xs
  set (x ∷ xs) (suc i) v = x ∷ set xs i v

  abbrev pub replicate : ℕ → A → List A
  replicate zero a = []
  replicate (suc n) a = a ∷ replicate n a

  abbrev pub take : ℕ → List A → List A
  take zero xs = []
  take (suc n) [] = []
  take (suc n) (x ∷ xs) = x ∷ take n xs

  abbrev pub drop : ℕ → List A → List A
  drop zero xs = xs
  drop (suc n) [] = []
  drop (suc n) (x ∷ xs) = drop n xs

-- Membership is a type at level 0, as ⊥ is.
module _ {A : Type 0} where
  infix 50 ◌∈◌
  abbrev pub ◌∈◌ : A → List A → Type 0
  a ∈ [] = ⊥
  a ∈ (x ∷ xs) = (a ≡ x) ⊎ (a ∈ xs)

  -- No element stands twice.
  abbrev pub Distinct : List A → Type 0
  Distinct [] = Unit {0}
  Distinct (x ∷ xs) = (¬ (x ∈ xs)) × Distinct xs

module _ {ℓ} {A : Type ℓ} where
  pub length-append : (xs ys : List A) → length (xs ++ ys) ≡ length xs + length ys
  length-append [] ys = omega arith
  length-append (x ∷ xs) ys = omega (arith, length-append xs ys)

  pub length-set : (xs : List A) (i : ℕ) (v : A) → length (set xs i v) ≡ length xs
  length-set [] i v = refl
  length-set (x ∷ xs) zero v = refl
  length-set (x ∷ xs) (suc i) v = ap suc (length-set xs i v)

  pub length-replicate : (n : ℕ) (a : A) → length (replicate n a) ≡ n
  length-replicate zero a = refl
  length-replicate (suc n) a = ap suc (length-replicate n a)

  pub get_or-set_self :
      (xs : List A) (i : ℕ) (v d : A) → i < length xs → get_or (set xs i v) i d ≡ v
  get_or-set_self [] i v d h = elim h [ ]
  get_or-set_self (x ∷ xs) zero v d h = refl
  get_or-set_self (x ∷ xs) (suc i) v d h = get_or-set_self xs i v d (omega arith)

  pub get_or-set_ne :
      (xs : List A) (i j : ℕ) (v d : A) → i ≢ j → get_or (set xs i v) j d ≡ get_or xs j d
  get_or-set_ne [] i j v d h = refl
  get_or-set_ne (x ∷ xs) zero zero v d h = absurd (h refl)
  get_or-set_ne (x ∷ xs) zero (suc j) v d h = refl
  get_or-set_ne (x ∷ xs) (suc i) zero v d h = refl
  get_or-set_ne (x ∷ xs) (suc i) (suc j) v d h = get_or-set_ne xs i j v d (λ e. h (ap suc e))

  pub get_or-set :
      (xs : List A) (i j : ℕ) (v d : A)
      → i < length xs
      → get_or (set xs i v) j d ≡ (if i == j then v else get_or xs j d)
  get_or-set xs i j v d h = elim (Bool-cases (i == j)) [
    | inl e ↦ rw (e, ← (==_iff i j).0 e) (get_or-set_self xs i v d h)
    | inr n ↦ rw n (get_or-set_ne xs i j v d (ground arith))
  ]

module _ {A : Type 0} where
  pub mem-append : (a : A) (xs ys : List A) → (a ∈ (xs ++ ys)) ↔ ((a ∈ xs) ⊎ (a ∈ ys))
  mem-append a [] ys = (inr, λ h. ground arith)
  mem-append a (x ∷ xs) ys = ground (arith, mem-append a xs ys)

  pub Distinct-concat : (xs : List A) (a : A) → Distinct xs → ¬ (a ∈ xs) → Distinct (xs ++ a ∷ [])
  Distinct-concat [] a d h = (λ e. e, tt)
  Distinct-concat (x ∷ xs) a d h = (
    λ m. ground (arith, (mem-append x xs (a ∷ [])).0 m, d.0, λ (e : x ≡ a). h (inl (sym e))),
    Distinct-concat xs a d.1 (λ m. h (inr m)),
  )

  -- `y` occurs in `ys`, so it stands between two parts.
  Splits : A → List A → Type 0
  Splits y ys = (l : List A) × (r : List A) × (ys ≡ l ++ y ∷ r)

  split_mem : (y : A) (ys : List A) → y ∈ ys → Splits y ys
  unfolding Splits
  split_mem y [] m = absurd m
  split_mem y (x ∷ xs) (inl e) = ([], xs, ap (λ (z : A). z ∷ xs) (sym e))
  split_mem y (x ∷ xs) (inr m) = let (l, r, e) = split_mem y xs m in (x ∷ l, r, ap (◌∷◌ x) e)

  mem-around : (a y : A) (l r : List A) → a ≢ y → a ∈ (l ++ y ∷ r) → a ∈ (l ++ r)
  mem-around a y l r ne m = ground (arith, (mem-append a l (y ∷ r)).0 m, (mem-append a l r).1)

  -- A distinct list is no longer than a list that holds its elements.
  pub length-le_of_Distinct :
      (xs ys : List A) → Distinct xs → ((a : A) → a ∈ xs → a ∈ ys) → length xs ≤ length ys
  unfolding Splits
  length-le_of_Distinct [] ys d h = omega arith
  length-le_of_Distinct (x ∷ xs) ys d h =
      let (l, r, e) = split_mem x ys (h x (inl refl)) in
      let rest =
        λ (a : A) (m : a ∈ xs). mem-around a x l r (λ q. d.0 (rw q at m)) (rw e at (h a (inr m))) in
      omega (
        arith,
        length-le_of_Distinct xs (l ++ r) d.1 rest,
        ap length e,
        length-append l r,
        length-append l (x ∷ r),
      )

module _ {A : Type 0} where
  pub Distinct-append :
      (xs ys : List A)
      → Distinct xs
      → Distinct ys
      → ((a : A) → a ∈ xs → ¬ (a ∈ ys))
      → Distinct (xs ++ ys)
  Distinct-append [] ys dx dy h = dy
  Distinct-append (x ∷ xs) ys dx dy h = (
    λ m. ground (arith, (mem-append x xs ys).0 m, dx.0, h x (inl refl)),
    Distinct-append xs ys dx.1 dy (λ a m. h a (inr m)),
  )
