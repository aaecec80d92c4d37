-- ===== src/GameService/Valid.antt =====
-- Every operation of the game service keeps the boards of every session and the rooms valid.
use puzzle_bubble.Prelude.{
  ◌==◌, inl, inr, leb, ℤ, not, ◌&&◌, ◌||◌, Bool-cases, Option-cases, List, [], ◌∷◌, length, String,
  str_eq, lookup, Each, Each-insert, Each-lookup,
}
use puzzle_bubble.Gameplay.State.{Status, lose, PlayerState}
use puzzle_bubble.Gameplay.Shots.Invariant as Board
use puzzle_bubble.Gameplay.Shots.Invariant.{IsColor}
use puzzle_bubble.Room.{Manager, leave_room}
use puzzle_bubble.Room.Invariant as Rooms
use puzzle_bubble.Room.Leave.{leave_room-IsValid}
use puzzle_bubble.GameService.{
  Session, Server, Moment, alive, evict, finalize_room, resolve_outcome, lose_player, timeout_or,
  apply_heartbeat_timeouts,
}
use puzzle_bubble.GameService.Lose.{lose_player-cases, expire-keeps}
use puzzle_bubble.GameService.Play.{act}

-- Every player's state in the session is valid.
abbrev pub SessionOk : {F : Type 0} → Session F → Type 0
SessionOk sess = Each Board.IsValid sess.states

module _ {F Payload : Type 0} where
  pub record IsValid (s : Server F Payload) : Type 0 where
    pub sessions : Each SessionOk s.sessions
    pub rooms : Rooms.IsValid s.room_mgr

  -- A session and the rooms, between two steps of a handler.
  abbrev pub Ok : Session F × Manager Payload → Type 0
  Ok (sess, m) = SessionOk sess × Rooms.IsValid m

module _ {F : Type 0} where
  restatus-IsValid :
      (st : PlayerState F) (q : Status)
      → Board.IsValid st
      → Board.IsValid (record st { status = q })
  restatus-IsValid st q v = record {
    shape = v.shape;
    coloured = v.coloured;
    current = v.current;
    next = v.next;
    shot = v.shot;
    flying = v.flying;
    score = v.score;
    seq = v.seq;
  }

  pub reaim-IsValid :
      (st : PlayerState F) (angle : F)
      → Board.IsValid st
      → Board.IsValid (record st { aim_angle = angle })
  reaim-IsValid st angle v = record {
    shape = v.shape;
    coloured = v.coloured;
    current = v.current;
    next = v.next;
    shot = v.shot;
    flying = v.flying;
    score = v.score;
    seq = v.seq;
  }

  lose_player-Each :
      (p : String) (states : List (String × PlayerState F))
      → Each Board.IsValid states
      → Each Board.IsValid (lose_player p states)
  lose_player-Each p states v =
      lose_player-cases (Each Board.IsValid) p states (λ _. v)
        (λ st e _.
          Each-insert Board.IsValid p (record st { status = lose }) states
            (restatus-IsValid st lose (Each-lookup Board.IsValid p st states v e)) v)

  pub act-Ok :
      (sess : Session F) (p : String) (f : PlayerState F → PlayerState F)
      → ((st : PlayerState F) → Board.IsValid st → Board.IsValid (f st))
      → SessionOk sess
      → SessionOk (act sess p f)
  unfolding act
  act-Ok sess p f keeps v = elim (Option-cases (lookup p sess.states)) [
    | inl e ↦ rw (act, e) v
    | inr (st, e) ↦
        rw (act, e)
          (Each-insert Board.IsValid p (f st) sess.states
            (keeps st (Each-lookup Board.IsValid p st sess.states v e)) v)
  ]

module _ {F Payload : Type 0} where
  pub evict-IsValid :
      (m : Manager Payload) (winner : String) (states : List (String × PlayerState F)) (t : Moment)
      → Rooms.IsValid m
      → Rooms.IsValid (evict m winner states t)
  unfolding evict
  evict-IsValid m winner [] t v = v
  evict-IsValid m winner ((p, st) ∷ states) t v = elim (Bool-cases (str_eq p winner)) [
    | inl wins ↦ rw wins (evict-IsValid m winner states t v)
    | inr goes ↦ rw goes (
        evict-IsValid (leave_room m p (t.first p) t.ns).0 winner states t
          (leave_room-IsValid m p (t.first p) t.ns v))
  ]

  finalize-Ok :
      (sess : Session F) (m : Manager Payload) (winner : String) (t : Moment)
      → Ok (sess, m)
      → Ok (finalize_room sess m winner t)
  unfolding finalize_room
  finalize-Ok sess m winner t (v, w) = elim (Bool-cases (str_eq winner "" || sess.finalized)) [
    | inl done ↦ rw (finalize_room, done) (v, w)
    | inr open_yet ↦ rw (finalize_room, open_yet) (v, evict-IsValid m winner sess.states t w)
  ]

  crowned :
      (sess : Session F) (m : Manager Payload) (t : Moment)
      → Ok (sess, m)
      → (ps : List String)
      → Ok {Payload = Payload} (elim ps as (λ _. Session F × Manager Payload) [
        | [] ↦ (sess, m)
        | winner ∷ _ ↦ finalize_room (record sess { winner_id = winner }) m winner t
      ])
  crowned sess m t ok [] = ok
  crowned sess m t ok (p ∷ ps) = finalize-Ok (record sess { winner_id = p }) m p t ok

  pub resolve_outcome-Ok :
      (sess : Session F) (m : Manager Payload) (t : Moment)
      → Ok (sess, m)
      → Ok (resolve_outcome sess m t)
  unfolding resolve_outcome
  resolve_outcome-Ok sess m t ok =
      elim (Bool-cases (leb 2 (length sess.states) && length (alive sess.states) == 1)) [
        | inr going ↦ rw (resolve_outcome, going) ok
        | inl over ↦ rw (resolve_outcome, over) (crowned sess m t ok (alive sess.states))
      ]

  pub timeouts-Ok :
      (timeout : ℤ) (sess : Session F) (m : Manager Payload) (t : Moment)
      → Ok (sess, m)
      → Ok (apply_heartbeat_timeouts timeout sess m t)
  unfolding apply_heartbeat_timeouts
  timeouts-Ok timeout sess m t (v, w) = elim (Bool-cases (not (str_eq sess.winner_id ""))) [
    | inl won ↦ rw (apply_heartbeat_timeouts, won) (v, w)
    | inr going ↦ elim (Bool-cases (length sess.last_heartbeat == 0)) [
      | inl mute ↦ rw (apply_heartbeat_timeouts, going, mute) (v, w)
      | inr heard ↦
          rw (apply_heartbeat_timeouts, going, heard)
            (resolve_outcome-Ok _ m t (
              expire-keeps (Each Board.IsValid) (timeout_or timeout) t.ms sess.last_heartbeat
                  lose_player-Each sess.states v,
              w,
            ))
    ]
  ]
