-- ===== src/GameService/Standing.antt =====
-- The last player standing wins, and the others leave their rooms.
use puzzle_bubble.Prelude.{
  ◌≡◌, refl, inl, inr, arith, ℤ, true, false, not, ◌&&◌, ◌==◌, leb, Bool-cases, none, List, [], ◌∷◌,
  String, length, str_eq, eq_iff, lookup, has, if◌then◌else◌, IsMap,
}
use puzzle_bubble.Gameplay.State.{PlayerState}
use puzzle_bubble.Room.{Manager, leave_room}
use puzzle_bubble.Room.Invariant as Rooms
use puzzle_bubble.Room.Leave.{leave_room-IsValid, leave_room-player_room}
use puzzle_bubble.GameService.{
  Session, Moment, expire, timeout_or, resolve_outcome, apply_heartbeat_timeouts, finalize_room,
  evict, alive,
}
use puzzle_bubble.GameService.Alive.{Lives, has-expire, alive-expire}
use puzzle_bubble.GameService.Timeout.{late, expire-IsMap}

module _ {F Payload : Type 0} where
  evict-player_room :
      (m : Manager Payload) (winner : String) (states : List (String × PlayerState F)) (t : Moment)
      (q : String)
      → Rooms.IsValid m
      → lookup q (evict m winner states t).player_room
        ≡ (if has q states && not (str_eq q winner) then none else lookup q m.player_room)
  unfolding evict has
  evict-player_room m winner [] t q v = refl
  evict-player_room m winner ((p, st) ∷ states) t q v = elim (Bool-cases (str_eq p winner)) [
    | inl wins ↦
        rw (evict, wins) (ground (arith, evict-player_room m winner states t q v, eq_iff p q, wins))
    | inr goes ↦
        let m' = (leave_room m p (t.first p) t.ns).0 in
        rw (evict, goes)
          (ground (
            arith,
            evict-player_room m' winner states t q (leave_room-IsValid m p (t.first p) t.ns v),
            leave_room-player_room m p (t.first p) t.ns q v,
            eq_iff p q,
            goes,
          ))
  ]

  -- If the rooms are valid, the winner has a name and the match was not closed before, then closing
  -- it for the winner takes every other player of the session out of its room, leaves the winner and
  -- all who are not of the session where they are, and marks the session; closing it once more
  -- changes nothing.
  pub finalize_room-evicts :
      (sess : Session F) (m : Manager Payload) (winner : String) (t t' : Moment)
      → Rooms.IsValid m
      → str_eq winner "" ≡ false
      → sess.finalized ≡ false
      → let out = finalize_room sess m winner t in
        ((q : String)
          → lookup q out.1.player_room
            ≡ (if has q sess.states && not (str_eq q winner) then none else lookup q m.player_room))
        × (out.0.finalized ≡ true)
        × (finalize_room out.0 out.1 winner t' ≡ out)
  unfolding finalize_room
  finalize_room-evicts sess m winner t t' v named open_yet =
      rw (finalize_room, named, open_yet)
        (λ q. evict-player_room m winner sess.states t q v, refl, refl)

module _ {F Payload : Type 0} where
  resolve_outcome-standing :
      (sess : Session F) (m : Manager Payload) (t : Moment) (w : String)
      → leb 2 (length sess.states) ≡ true
      → alive sess.states ≡ w ∷ []
      → resolve_outcome sess m t ≡ finalize_room (record sess { winner_id = w }) m w t
  unfolding resolve_outcome
  resolve_outcome-standing sess m t w two one = rw (resolve_outcome, two, one) refl

  finalize-winner_id :
      (sess : Session F) (m : Manager Payload) (w : String) (t : Moment)
      → (finalize_room sess m w t).0.winner_id ≡ sess.winner_id
  unfolding finalize_room
  finalize-winner_id sess m w t = ground arith

  -- If the match has no winner yet and was not closed, it has at least two players, no key twice and
  -- a heartbeat, the rooms are valid, one player with a name has a state that is not lost and no
  -- overdue heartbeat, and every other state is lost or its player has an overdue heartbeat, then
  -- the timeouts make that player the winner, close the match, take every other player of the
  -- session out of its room, and leave the winner and all who are not of the session where they are.
  pub apply_heartbeat_timeouts-last_standing :
      (timeout : ℤ) (sess : Session F) (m : Manager Payload) (t : Moment) (w : String)
      → Rooms.IsValid m
      → str_eq sess.winner_id "" ≡ true
      → sess.finalized ≡ false
      → leb 2 (length sess.states) ≡ true
      → IsMap sess.states
      → (length sess.last_heartbeat == 0) ≡ false
      → str_eq w "" ≡ false
      → Lives (lookup w sess.states)
      → late (timeout_or timeout) t.ms w sess.last_heartbeat ≡ false
      → ((p : String)
          → Lives (lookup p sess.states)
          → str_eq p w ≡ false
          → late (timeout_or timeout) t.ms p sess.last_heartbeat ≡ true)
      → let out = apply_heartbeat_timeouts timeout sess m t in
        (out.0.winner_id ≡ w)
        × (out.0.finalized ≡ true)
        × ((q : String)
            → lookup q out.1.player_room
              ≡ (if has q sess.states && not (str_eq q w) then none else lookup q m.player_room))
  unfolding apply_heartbeat_timeouts
  apply_heartbeat_timeouts-last_standing timeout sess m t w v going open_yet two keys heard named
        lives timely silent =
      let beats = sess.last_heartbeat in
      let states = expire (timeout_or timeout) t.ms beats sess.states in
      let sess' = record sess { states = states } in
      let two' : leb 2 (length states) ≡ true =
        rw (expire-IsMap (timeout_or timeout) t.ms beats sess.states keys).1 two in
      let one =
        alive-expire (timeout_or timeout) t.ms beats sess.states w keys lives timely silent in
      let out = finalize_room-evicts (record sess' { winner_id = w }) m w t t v named open_yet in
      rw (apply_heartbeat_timeouts, going, heard, resolve_outcome-standing sess' m t w two' one)
        (
          finalize-winner_id (record sess' { winner_id = w }) m w t,
          out.1,
          λ q. rw (← has-expire (timeout_or timeout) t.ms beats q sess.states) (out.0 q),
        )
