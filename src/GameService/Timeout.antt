-- ===== src/GameService/Timeout.antt =====
-- Who loses by silence.
use puzzle_bubble.Prelude.{
  ◌≡◌, refl, ◌∙◌, inl, inr, arith, ℕ, ℤ, Bool, true, false, ◌&&◌, ◌||◌, ◌==◌, Bool-cases, Option,
  none, some, List, [], ◌∷◌, String, length, str_eq, eq_iff, lookup, lookup-insert, if◌then◌else◌,
  IsMap, IsMap-insert, has_of_lookup, length-insert_of_has,
}
use puzzle_bubble.Gameplay.State.{lose, has_lost, PlayerState}
use puzzle_bubble.Room.{Manager}
use puzzle_bubble.GameService.{
  Session, Moment, overdue, lose_player, expire, timeout_or, apply_heartbeat_timeouts,
}
use puzzle_bubble.GameService.Lose.{lose_player-cases, expire-keeps}
use puzzle_bubble.GameService.Seats.{resolve_outcome-states}

-- A heartbeat of the player is overdue.
unfoldable pub late : ℤ → ℤ → String → List (String × ℤ) → Bool
late timeout now q [] = false
late timeout now q ((p, hb) ∷ beats) =
    (str_eq p q && overdue timeout now hb) || late timeout now q beats

late-none :
    (timeout now : ℤ) (q : String) (beats : List (String × ℤ))
    → (length beats == 0) ≡ true
    → late timeout now q beats ≡ false
unfolding late
late-none timeout now q [] e = refl
late-none timeout now q (b ∷ beats) e = absurd (ground arith)

module _ {F : Type 0} where
  abbrev pub lost_or : Option (PlayerState F) → Option (PlayerState F)
  lost_or none = none
  lost_or (some st) = some (if has_lost st.status then st else record st { status = lose })

  lost_or-lost_or : (o : Option (PlayerState F)) → lost_or (lost_or o) ≡ lost_or o
  lost_or-lost_or none = refl
  lost_or-lost_or (some st) = elim (Bool-cases (has_lost st.status)) [
    | inl lost ↦ rw (lost, lost) refl
    | inr plays ↦ rw plays refl
  ]

  lookup-lose_player :
      (p q : String) (states : List (String × PlayerState F))
      → lookup q (lose_player p states)
        ≡ (if str_eq p q then lost_or (lookup q states) else lookup q states)
  lookup-lose_player p q states =
      lose_player-cases
        (λ after.
          lookup q after ≡ (if str_eq p q then lost_or (lookup q states) else lookup q states))
        p states (λ lost. unchanged lost (lookup q states) refl)
        (λ st e plays.
          ground
            (arith, eq_iff p q, e, plays, lookup-insert p q (record st { status = lose }) states))
    where
      unchanged :
          ((st : PlayerState F) → lookup p states ≡ some st → has_lost st.status ≡ true)
          → (o : Option (PlayerState F)) → lookup q states ≡ o
          → lookup q states ≡ (if str_eq p q then lost_or (lookup q states) else lookup q states)
      unchanged lost none e = ground (arith, e)
      unchanged lost (some st) e = elim (Bool-cases (str_eq p q)) [
        | inl same ↦
            let is_lost = lost st (rw ((eq_iff p q).0 same) e) in rw (same, e, is_lost) refl
        | inr other ↦ rw other refl
      ]

  pub lookup-expire :
      (timeout now : ℤ) (beats : List (String × ℤ)) (q : String)
      (states : List (String × PlayerState F))
      → lookup q (expire timeout now beats states)
        ≡ (if late timeout now q beats then lost_or (lookup q states) else lookup q states)
  unfolding expire late
  lookup-expire timeout now [] q states = refl
  lookup-expire timeout now ((p, hb) ∷ beats) q states =
      elim (Bool-cases (overdue timeout now hb)) [
        | inr timely ↦ rw timely (ground (arith, lookup-expire timeout now beats q states))
        | inl due ↦ rw due (
            ground (
              arith,
              lookup-expire timeout now beats q (lose_player p states),
              lookup-lose_player p q states,
              lost_or-lost_or (lookup q states),
            ))
      ]

  -- A map of that many entries.
  abbrev IsMapOf : ℕ → List (String × PlayerState F) → Type 0
  IsMapOf n states = IsMap states × (length states ≡ n)

  lose_player-IsMapOf :
      (n : ℕ) (p : String) (states : List (String × PlayerState F))
      → IsMapOf n states
      → IsMapOf n (lose_player p states)
  lose_player-IsMapOf n p states h =
      lose_player-cases (IsMapOf n) p states (λ _. h)
        (λ st e plays.
          let st' = record st { status = lose } in
          (
            IsMap-insert p st' states h.0,
            length-insert_of_has p st' states (has_of_lookup p st states e) ∙ h.1,
          ))

  pub expire-IsMap :
      (timeout now : ℤ) (beats : List (String × ℤ)) (states : List (String × PlayerState F))
      → IsMap states
      → IsMap (expire timeout now beats states)
        × (length (expire timeout now beats states) ≡ length states)
  expire-IsMap timeout now beats states h =
      expire-keeps (IsMapOf (length states)) timeout now beats (lose_player-IsMapOf (length states))
        states (h, refl)

module _ {F Payload : Type 0} where
  -- If the match has no winner yet, then after the timeouts every player of the session with an
  -- overdue heartbeat has a lost state, which is its state before with the status `lose` unless it
  -- was lost before, and every other player's state is as it was.
  pub apply_heartbeat_timeouts-loses :
      (timeout : ℤ) (sess : Session F) (m : Manager Payload) (t : Moment) (q : String)
      → str_eq sess.winner_id "" ≡ true
      → lookup q (apply_heartbeat_timeouts timeout sess m t).0.states ≡ (
          if late (timeout_or timeout) t.ms q sess.last_heartbeat
          then lost_or (lookup q sess.states)
          else lookup q sess.states)
  unfolding apply_heartbeat_timeouts
  apply_heartbeat_timeouts-loses timeout sess m t q going =
      elim (Bool-cases (length sess.last_heartbeat == 0)) [
        | inl mute ↦
            rw
              (
                apply_heartbeat_timeouts,
                going,
                mute,
                late-none (timeout_or timeout) t.ms q sess.last_heartbeat mute,
              )
              refl
        | inr heard ↦
            let states = expire (timeout_or timeout) t.ms sess.last_heartbeat sess.states in
            rw
              (
                apply_heartbeat_timeouts,
                going,
                heard,
                resolve_outcome-states (record sess { states = states }) m t,
              )
              (lookup-expire (timeout_or timeout) t.ms sess.last_heartbeat q sess.states)
      ]
