-- ===== src/Gameplay/Place/Cases.antt =====
-- The three ways in which `placeAndResolve` ends.
use puzzle_bubble.Prelude.{◌≡◌, inl, inr, ℤ, Option, none, some, Option-cases}
use puzzle_bubble.Gameplay.Grid.{Pos}
use puzzle_bubble.Gameplay.Float.{Float}
use puzzle_bubble.Gameplay.State.{PlayerState, MovingBubble}
use puzzle_bubble.Gameplay.Place.{landing, settle, place_and_resolve}

pub place_cases {ℓ} :
    (fl : Float) (P : Option (PlayerState fl.F) → Type ℓ) (st : PlayerState fl.F) (drawn : ℤ)
    → (st.moving ≡ none → P (some st))
    → ((m : MovingBubble fl.F)
        → st.moving ≡ some m
        → landing fl st.board m.x m.y ≡ none
        → P (some (record st { moving = none })))
    → ((m : MovingBubble fl.F) (p : Pos)
        → st.moving ≡ some m
        → landing fl st.board m.x m.y ≡ some p
        → P (settle fl st p m.color drawn))
    → P (place_and_resolve fl st drawn)
unfolding place_and_resolve
place_cases fl P st drawn idle lost landed = elim (Option-cases st.moving) [
  | inl e ↦ rw (e, place_and_resolve) (idle e)
  | inr (m, e) ↦ elim (Option-cases (landing fl st.board m.x m.y)) [
    | inl nowhere ↦ rw (e, place_and_resolve, nowhere) (lost m e nowhere)
    | inr (p, there) ↦ rw (e, place_and_resolve, there) (landed m p e there)
  ]
]
