-- ===== src/Prelude/Texts.antt =====
-- Texts put together.
use Prim.Native.String.{String, ◌++◌, len}
use mathlib.Core.Path.{◌≡◌, sym, ap, ◌∙◌}
use mathlib.Core.Logic.{inl, inr}
use mathlib.Core.Bool.{Bool, false}
use native.Mathlib.Omega.{arith}
use text.Mathlib.Text.{◌==◌ as str_eq}
use text.Mathlib.TextEquality.{eq_iff}
use text.Mathlib.TextPositions.{len-append, slice-append_right}
use puzzle_bubble.Prelude.Tests.{Bool-cases}

append_cancel : (p a b : String) → p ++ a ≡ p ++ b → a ≡ b
append_cancel p a b e =
    let same : len a ≡ len b = omega (arith, len-append p a, len-append p b, ap len e) in
    sym (slice-append_right p a) ∙ rw (e, same) (slice-append_right p b)

-- A common prefix does not matter to equality.
pub str_eq-append : (p a b : String) → str_eq (p ++ a) (p ++ b) ≡ str_eq a b
str_eq-append p a b = elim (Bool-cases (str_eq a b)) [
  | inl same ↦ rw same ((eq_iff (p ++ a) (p ++ b)).1 (ap (λ s. p ++ s) ((eq_iff a b).0 same)))
  | inr other ↦ elim (Bool-cases (str_eq (p ++ a) (p ++ b))) [
    | inl whole ↦
        absurd (
          ground (arith, (eq_iff a b).1 (append_cancel p a b ((eq_iff (p ++ a) (p ++ b)).0 whole))))
    | inr apart ↦ rw (other, apart) (refl_of false)
  ]
]
  where
    refl_of : (b : Bool) → b ≡ b
    refl_of b = ground arith
