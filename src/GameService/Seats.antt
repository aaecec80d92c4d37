-- ===== src/GameService/Seats.antt =====
-- No timeout, tick or outcome takes a player out of a session.
use puzzle_bubble.Prelude.{
  ◌≡◌, refl, inl, inr, arith, ℤ, not, ◌&&◌, ◌||◌, ◌==◌, leb, Bool-cases, none, List, [], ◌∷◌,
  String, length, str_eq, lookup, lookup-insert, lookup-map_values,
}
use puzzle_bubble.Gameplay.Float.{Float}
use puzzle_bubble.Gameplay.State.{lose, PlayerState}
use puzzle_bubble.Gameplay.Shots.History.{ticks, step}
use puzzle_bubble.Room.{Manager}
use puzzle_bubble.GameService.{
  Session, Moment, lose_player, expire, timeout_or, resolve_outcome, apply_heartbeat_timeouts,
  finalize_room, alive,
}
use puzzle_bubble.GameService.Lose.{lose_player-cases, expire-keeps}
use puzzle_bubble.GameService.Play.{advance}

module _ {F : Type 0} where
  abbrev pub IsIn : String → List (String × PlayerState F) → Type 0
  IsIn p states = ¬ (lookup p states ≡ none)

  lose_player-IsIn :
      (q p : String) (states : List (String × PlayerState F))
      → IsIn q states
      → IsIn q (lose_player p states)
  lose_player-IsIn q p states held =
      lose_player-cases (IsIn q) p states (λ _. held)
        (λ st e plays h.
          held (ground (arith, lookup-insert p q (record st { status = lose }) states)))

module _ {F Payload : Type 0} where
  finalize-states :
      (sess : Session F) (m : Manager Payload) (winner : String) (t : Moment)
      → (finalize_room sess m winner t).0.states ≡ sess.states
  unfolding finalize_room
  finalize-states sess m winner t = elim (Bool-cases (str_eq winner "" || sess.finalized)) [
    | inl done ↦ rw (finalize_room, done) refl
    | inr open_yet ↦ rw (finalize_room, open_yet) refl
  ]

  crowned-states :
      (sess : Session F) (m : Manager Payload) (t : Moment) (ps : List String)
      → (elim ps as (λ _. Session F × Manager Payload) [
        | [] ↦ (sess, m)
        | winner ∷ _ ↦ finalize_room (record sess { winner_id = winner }) m winner t
      ]).0.states
        ≡ sess.states
  crowned-states sess m t [] = refl
  crowned-states sess m t (p ∷ ps) = finalize-states (record sess { winner_id = p }) m p t

  pub resolve_outcome-states :
      (sess : Session F) (m : Manager Payload) (t : Moment)
      → (resolve_outcome sess m t).0.states ≡ sess.states
  unfolding resolve_outcome
  resolve_outcome-states sess m t =
      elim (Bool-cases (leb 2 (length sess.states) && length (alive sess.states) == 1)) [
        | inr going ↦ rw (resolve_outcome, going) refl
        | inl over ↦ rw (resolve_outcome, over) (crowned-states sess m t (alive sess.states))
      ]

  timeouts-IsIn :
      (timeout : ℤ) (sess : Session F) (m : Manager Payload) (t : Moment) (q : String)
      → IsIn q sess.states
      → IsIn q (apply_heartbeat_timeouts timeout sess m t).0.states
  unfolding apply_heartbeat_timeouts
  timeouts-IsIn timeout sess m t q held = elim (Bool-cases (not (str_eq sess.winner_id ""))) [
    | inl won ↦ rw (apply_heartbeat_timeouts, won) held
    | inr going ↦ elim (Bool-cases (length sess.last_heartbeat == 0)) [
      | inl mute ↦ rw (apply_heartbeat_timeouts, going, mute) held
      | inr heard ↦
          let states = expire (timeout_or timeout) t.ms sess.last_heartbeat sess.states in
          rw
            (
              apply_heartbeat_timeouts,
              going,
              heard,
              resolve_outcome-states (record sess { states = states }) m t,
            )
            (expire-keeps (IsIn q) (timeout_or timeout) t.ms sess.last_heartbeat
              (lose_player-IsIn q) sess.states held)
    ]
  ]

module _ (fl : Float) {Payload : Type 0} where
  pub advance-IsIn :
      (timeout : ℤ) (sess : Session fl.F) (m : Manager Payload) (t : Moment) (drawn : String → ℤ)
      (q : String)
      → IsIn q sess.states
      → IsIn q (advance fl timeout sess m t drawn).0.states
  unfolding advance
  advance-IsIn timeout sess m t drawn q held e =
      let states = (apply_heartbeat_timeouts timeout sess m t).0.states in
      timeouts-IsIn timeout sess m t q held
        (ground (arith, lookup-map_values (λ p st. step fl st (ticks t.ms (drawn p))) q states, e))
