-- ===== src/Gameplay/Shots/Cases.antt =====
-- The ways in which the operations on a player's state end, as rules for a predicate `P`.
use puzzle_bubble.Prelude.{
  ◌≡◌, inl, inr, ℤ, true, false, not, ◌||◌, Option, some, Option-cases, Bool-cases,
}
use puzzle_bubble.Gameplay.Float.{Float}
use puzzle_bubble.Gameplay.State.{PlayerState, MovingBubble}
use puzzle_bubble.Gameplay.Shots.{
  Result, err, game_already_finished, no_pending_shot, invalid_landing_position, elapsed, fly, tick,
  land_reported, commit_landing, is_playing, in_flight, outside,
}

module _ {ℓ} (fl : Float) (st : PlayerState fl.F) where
  pub tick_cases :
      (P : Option (PlayerState fl.F) → Type ℓ) (now drawn : ℤ)
      → P (some (record st { last_tick_ms = now }))
      → ((m : MovingBubble fl.F)
          → is_playing st.status ≡ true
          → st.moving ≡ some m
          → P (fly fl (record st { last_tick_ms = now }) m (elapsed fl now st.last_tick_ms) drawn))
      → P (tick fl st now drawn)
  unfolding tick
  tick_cases P now drawn stays flies = elim (Bool-cases (is_playing st.status)) [
    | inr over ↦ rw (over, tick) stays
    | inl going ↦ elim (Option-cases st.moving) [
      | inl e ↦ rw (going, e, tick) stays
      | inr (m, e) ↦ rw (going, e, tick) (flies m going e)
    ]
  ]

  pub commit_cases :
      (P : Result (PlayerState fl.F) → Type ℓ) (angle x y : fl.F) (drawn : ℤ)
      → (is_playing st.status ≡ false → P (err game_already_finished))
      → (is_playing st.status ≡ true
          → (not st.pending_shot || in_flight fl st) ≡ true
          → P (err no_pending_shot))
      → (is_playing st.status ≡ true
          → (not st.pending_shot || in_flight fl st) ≡ false
          → outside fl x y ≡ true
          → P (err invalid_landing_position))
      → (is_playing st.status ≡ true
          → (not st.pending_shot || in_flight fl st) ≡ false
          → outside fl x y ≡ false
          → P (land_reported fl st angle x y drawn))
      → P (commit_landing fl (some st) angle x y drawn)
  unfolding commit_landing
  commit_cases P angle x y drawn over none_due off lands =
      elim (Bool-cases (is_playing st.status)) [
        | inr e ↦ rw e (over e)
        | inl e ↦ elim (Bool-cases (not st.pending_shot || in_flight fl st)) [
          | inl e₁ ↦ rw (e, e₁) (none_due e e₁)
          | inr e₁ ↦ elim (Bool-cases (outside fl x y)) [
            | inl e₂ ↦ rw (e, e₁, e₂) (off e e₁ e₂)
            | inr e₂ ↦ rw (e, e₁, e₂) (lands e e₁ e₂)
          ]
        ]
      ]
