-- ===== src/Gameplay/Shots/Aim.antt =====
-- The aim is kept within the launcher's range.
use puzzle_bubble.Prelude.{◌≡◌, arith, false}
use puzzle_bubble.Gameplay.Float.{Float}
use puzzle_bubble.Gameplay.Place.Nearest.{IsOrder}
use puzzle_bubble.Gameplay.Shots.{clamp_aim}

-- Where `<` is irreflexive and transitive and the greatest angle is not below the least, the aim
-- that `ClampAim` returns is neither below the least nor above the greatest angle, and clamping
-- it again changes nothing.
pub clamp_aim_bounds :
    (fl : Float) (angle : fl.F)
    → IsOrder fl
    → fl.lt fl.max_angle fl.min_angle ≡ false
    → (fl.lt (clamp_aim fl angle) fl.min_angle ≡ false)
      × (fl.lt fl.max_angle (clamp_aim fl angle) ≡ false)
      × (clamp_aim fl (clamp_aim fl angle) ≡ clamp_aim fl angle)
unfolding clamp_aim
clamp_aim_bounds fl angle order range =
    ground (arith, order.irreflexive fl.min_angle, order.irreflexive fl.max_angle)
