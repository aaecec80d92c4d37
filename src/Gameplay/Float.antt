-- ===== src/Gameplay/Float.antt =====
-- float64, which the model takes as a parameter: the operations and the constants that the rules
-- of the game use. A theorem that needs a law of them names it as a hypothesis.
pub mod Whole
use package.puzzle_bubble.Prelude.{ℤ, Bool}

pub record Float : Type 1 where
  pub F : Type 0
  -- `float64(n)` and integer constants.
  pub of_int : ℤ → F
  -- `int(x)`.
  pub to_int : F → ℤ
  pub add : F → F → F
  pub sub : F → F → F
  pub mul : F → F → F
  pub div : F → F → F
  pub lt : F → F → Bool
  pub le : F → F → Bool
  -- `-x`, and the functions of Go's package math.
  pub neg : F → F
  pub abs : F → F
  pub round : F → F
  pub cos : F → F
  pub sin : F → F
  -- `math.MaxFloat64`, `-math.Pi / 2`, and the constants gbMinAngle, gbMaxAngle, gbMaxDt.
  pub max_float : F
  pub straight_up : F
  pub min_angle : F
  pub max_angle : F
  pub max_dt : F
