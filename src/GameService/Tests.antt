-- ===== src/GameService/Tests.antt =====
-- Runs of the game service.
use puzzle_bubble.Prelude.{
  ◌≡◌, refl, arith, ℤ, pos, negsuc, true, false, not, ◌&&◌, ◌==◌, Bool-cases, inl, inr, eq_iff,
  str_eq, sub64, Option, none, some, List, [], ◌∷◌, String, lookup, has, erase, insert,
  if◌then◌else◌,
}
use puzzle_bubble.Gameplay.Float.Whole.{whole}
use puzzle_bubble.Gameplay.State.{PlayerState, Draws, new_initial_state}
use puzzle_bubble.Gameplay.Shots.History.{AreColors}
use puzzle_bubble.Room.{Manager, new_manager}
use puzzle_bubble.Room.History.{new_manager-IsValid}
use puzzle_bubble.GameService.{
  Server, resolve_outcome, Session, new_server, Moment, timeout_or, create_session, seat,
  finalize_room, apply_heartbeat_timeouts,
}
use puzzle_bubble.GameService.Play.{open_game, touch, read_ws, play, act, shot, aim}
use puzzle_bubble.GameService.Timeout.{late, lost_or, apply_heartbeat_timeouts-loses}
use puzzle_bubble.GameService.Alive.{Lives}
use puzzle_bubble.GameService.Standing.{
  finalize_room-evicts, apply_heartbeat_timeouts-last_standing,
}
use puzzle_bubble.GameService.Lobby.{
  monitor, expel, end_monitor, silent, dismiss, count_players, forget_player,
}
use puzzle_bubble.GameService.Monitor.{is_silent, monitor_lem}
use puzzle_bubble.GameService.Events.{Event, creates, opens_game, says, closes_game, after, replay}
use puzzle_bubble.GameService.History.{Survives, replay-new-Survives}

abbrev ones : Draws
ones = record { current = pos 1; next = pos 1; fills = λ r c. true; color = λ r c. pos 1 }

ones-AreColors : AreColors ones
ones-AreColors = record { current = omega arith; next = omega arith; cell = λ r c. omega arith }

abbrev first : PlayerState (Option ℤ)
first = new_initial_state whole ones (pos 0)

-- "ann" was heard at 1 s, "bob" at 7 s.
abbrev match : Session (Option ℤ)
match = record {
  room_id = "room-1";
  players = ("ann", tt) ∷ ("bob", tt) ∷ [];
  tickets = ("ann", "t1") ∷ ("bob", "t2") ∷ [];
  states = ("ann", first) ∷ ("bob", first) ∷ [];
  winner_id = "";
  last_heartbeat = ("ann", pos 1_000) ∷ ("bob", pos 7_000) ∷ [];
  finalized = false;
}

abbrev empty : Manager Unit
empty = new_manager (pos 0)

abbrev now : Moment
now = record { ms = pos 8_000; later = pos 8_001; ns = pos 8_000_000_000; first = λ p. 0 }

-- "ann" is silent, so "bob" wins.
bob_wins : (apply_heartbeat_timeouts (pos 5_000) match empty now).0.winner_id ≡ "bob"
unfolding apply_heartbeat_timeouts new_initial_state sub64
bob_wins = refl

apply_heartbeat_timeouts-loses_example :
    lookup "ann" (apply_heartbeat_timeouts (pos 5_000) match empty now).0.states ≡ (
      if late (timeout_or (pos 5_000)) (pos 8_000) "ann" match.last_heartbeat
      then lost_or (lookup "ann" match.states)
      else lookup "ann" match.states)
apply_heartbeat_timeouts-loses_example =
    apply_heartbeat_timeouts-loses (pos 5_000) match empty now "ann" refl

finalize_room-evicts_example :
    let out = finalize_room match empty "bob" now in
    ((q : String)
      → lookup q out.1.player_room
        ≡ (if has q match.states && not (str_eq q "bob") then none else lookup q empty.player_room))
    × (out.0.finalized ≡ true)
    × (finalize_room out.0 out.1 "bob" now ≡ out)
finalize_room-evicts_example =
    finalize_room-evicts match empty "bob" now now (new_manager-IsValid Unit (pos 0)) refl refl

only_ann_is_late :
    (p : String)
    → Lives (lookup p match.states)
    → str_eq p "bob" ≡ false
    → late (timeout_or (pos 5_000)) (pos 8_000) p match.last_heartbeat ≡ true
unfolding lookup late sub64
only_ann_is_late p lives other = elim (Bool-cases (str_eq "ann" p)) [
  | inl same ↦ ground arith
  | inr neither ↦
      let not_bob : str_eq "bob" p ≡ false =
        ground (arith, eq_iff "bob" p, eq_iff p "bob", other) in
      absurd (rw (neither, not_bob) at lives)
]

apply_heartbeat_timeouts-last_standing_example :
    let out = apply_heartbeat_timeouts (pos 5_000) match empty now in
    (out.0.winner_id ≡ "bob")
    × (out.0.finalized ≡ true)
    × ((q : String)
        → lookup q out.1.player_room ≡ (
            if has q match.states && not (str_eq q "bob")
            then none
            else lookup q empty.player_room))
unfolding has lookup late sub64 new_initial_state
apply_heartbeat_timeouts-last_standing_example =
    apply_heartbeat_timeouts-last_standing (pos 5_000) match empty now "bob"
      (new_manager-IsValid Unit (pos 0)) refl refl refl (refl, (refl, tt)) refl refl refl refl
      only_ann_is_late

-- A session, both sockets, a shot, an aim, a state and a socket closed.
abbrev evening : List (Event (Option ℤ) Unit)
evening =
    creates (some ("room-1", some "ann" ∷ none ∷ some "bob" ∷ [])) (pos 1_000)
      (λ i. if i == 0 then "t1" else "t2") (λ i. (ones, pos 0))
    ∷ opens_game "room-1" "ann" "t1" "secret" (some ("ann", true)) 1 (pos 1_001)
    ∷ says "room-1" "ann" (shot (some (negsuc 89))) now (pos 1) true
    ∷ says "room-1" "bob" (aim (some (negsuc 29))) now (pos 1) true
    ∷ closes_game "room-1" "ann"
    ∷ []

replay-new-Survives_example : Survives whole (replay whole (new_server (pos 0) (pos 0)) evening)
unfolding after new_server create_session seat open_game touch read_ws play act resolve_outcome has
    lookup insert
replay-new-Survives_example =
    replay-new-Survives whole Unit (pos 0) (pos 0) evening
      (λ j. ones-AreColors, (tt, ((omega arith, refl), ((omega arith, refl), (tt, tt)))))

-- "ann" was last heard at 1 s, and the monitor looks at 8 s.
abbrev watched : Server (Option ℤ) Unit
watched = record {
  timeout_ms = pos 5_000;
  sessions = [];
  ws_conns = [];
  room_mgr = empty;
  room_ws = [];
  room_last_hb = ("ann", pos 1_000) ∷ ("bob", pos 7_000) ∷ [];
  room_of_player = ("ann", "room-1") ∷ ("bob", "room-1") ∷ [];
  room_monitor = ("room-1", tt) ∷ [];
}

bob_stays : (monitor watched "room-1" now).room_of_player ≡ ("bob", "room-1") ∷ []
unfolding monitor silent dismiss expel end_monitor count_players forget_player lookup erase sub64
bob_stays = refl

monitor_lem_example :
    (lookup "ann" (monitor watched "room-1" now).room_of_player ≡ (
      if is_silent watched "room-1" (pos 8_000) "ann"
      then none
      else lookup "ann" watched.room_of_player))
    × (lookup "ann" (monitor watched "room-1" now).room_mgr.player_room ≡ (
        if is_silent watched "room-1" (pos 8_000) "ann"
        then none
        else lookup "ann" watched.room_mgr.player_room))
unfolding has
monitor_lem_example =
    monitor_lem watched "room-1" now "ann" (new_manager-IsValid Unit (pos 0)) (refl, (refl, tt))
