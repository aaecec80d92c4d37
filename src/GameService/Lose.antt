-- ===== src/GameService/Lose.antt =====
-- What holds of a session's states through the loss of a player and through the timeouts.
use puzzle_bubble.Prelude.{
  ◌≡◌, inl, inr, ℤ, true, false, Bool-cases, Option-cases, some, List, [], ◌∷◌, String, lookup,
  insert,
}
use puzzle_bubble.Gameplay.State.{lose, has_lost, PlayerState}
use puzzle_bubble.GameService.{overdue, lose_player, expire}

module _ {F : Type 0} where
  -- Either nothing changes, or a state that is not lost becomes lost.
  pub lose_player-cases :
      (P : List (String × PlayerState F) → Type 0) (p : String)
      (states : List (String × PlayerState F))
      → (((st : PlayerState F) → lookup p states ≡ some st → has_lost st.status ≡ true) → P states)
      → ((st : PlayerState F)
          → lookup p states ≡ some st
          → has_lost st.status ≡ false
          → P (insert p (record st { status = lose }) states))
      → P (lose_player p states)
  unfolding lose_player
  lose_player-cases P p states same loses = elim (Option-cases (lookup p states)) [
    | inl e ↦ rw (lose_player, e) (same (λ st e'. absurd (cc)))
    | inr (st, e) ↦ elim (Bool-cases (has_lost st.status)) [
      | inl lost ↦
          rw (lose_player, e, lost) (same (λ st' e'. let one : st' ≡ st = cc in rw one lost))
      | inr plays ↦ rw (lose_player, e, plays) (loses st e plays)
    ]
  ]

  pub expire-keeps :
      (P : List (String × PlayerState F) → Type 0) (timeout now : ℤ) (beats : List (String × ℤ))
      → ((p : String) (states : List (String × PlayerState F))
          → P states
          → P (lose_player p states))
      → (states : List (String × PlayerState F)) → P states
      → P (expire timeout now beats states)
  unfolding expire
  expire-keeps P timeout now [] step states v = v
  expire-keeps P timeout now ((p, hb) ∷ beats) step states v =
      elim (Bool-cases (overdue timeout now hb)) [
        | inl due ↦
            rw (expire, due)
              (expire-keeps P timeout now beats step (lose_player p states) (step p states v))
        | inr timely ↦ rw (expire, timely) (expire-keeps P timeout now beats step states v)
      ]
