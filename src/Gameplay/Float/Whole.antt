-- ===== src/Gameplay/Float/Whole.antt =====
-- Integers in place of floats, for the tests: 32 and 28 are exact there, an angle counts degrees,
-- and `none` is the greatest number.
use puzzle_bubble.Prelude.{
  ◌+◌, ◌*◌, ◌/◌, ℤ, pos, negsuc, sub_ℕ, pos_part, neg_part, ◌+ℤ◌, ◌-ℤ◌, ltb_ℤ, Bool, true, false,
  if◌then◌else◌, not, Option, none, some,
}
use puzzle_bubble.Gameplay.Float.{Float}

abbrev pub neg_ℤ : ℤ → ℤ
neg_ℤ a = pos 0 -ℤ a

abbrev pub mul_ℤ : ℤ → ℤ → ℤ
mul_ℤ a b =
    sub_ℕ (pos_part a * pos_part b + neg_part a * neg_part b)
      (pos_part a * neg_part b + neg_part a * pos_part b)

-- The division rounds to the nearest number, so `round` has nothing to do.
abbrev pub div_ℤ : ℤ → ℤ → ℤ
div_ℤ a b =
    let n = (pos_part a + neg_part a + pos_part b / 2) / pos_part b in
    if ltb_ℤ a (pos 0) then neg_ℤ (pos n) else pos n

abbrev pub both : (ℤ → ℤ → ℤ) → Option ℤ → Option ℤ → Option ℤ
both f none b = none
both f (some a) none = none
both f (some a) (some b) = some (f a b)

abbrev pub below : Option ℤ → Option ℤ → Bool
below none b = false
below (some a) none = true
below (some a) (some b) = ltb_ℤ a b

abbrev pub to_int_or : Option ℤ → ℤ
to_int_or none = pos 0
to_int_or (some a) = a

-- Every aim goes straight up.
abbrev pub whole : Float
whole = record {
  F = Option ℤ;
  of_int = some;
  to_int = to_int_or;
  add = both (λ a b. a +ℤ b);
  sub = both (λ a b. a -ℤ b);
  mul = both mul_ℤ;
  div = both div_ℤ;
  lt = below;
  le = λ a b. not (below b a);
  neg = both (λ a b. a -ℤ b) (some (pos 0));
  abs = λ a. if below a (some (pos 0)) then both (λ b c. b -ℤ c) (some (pos 0)) a else a;
  round = λ a. a;
  cos = λ a. some (pos 0);
  sin = λ a. some (negsuc 0);
  max_float = none;
  straight_up = some (negsuc 89);
  min_angle = some (negsuc 169);
  max_angle = some (negsuc 9);
  max_dt = some (pos 1);
}
