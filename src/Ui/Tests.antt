-- ===== src/Ui/Tests.antt =====
-- Two players in a room: the match starts, and one of them leaves.
use puzzle_bubble.Prelude.{
  ◌≡◌, ◌⊎◌, refl, ℤ, pos, negsuc, true, false, Option, none, some, [], ◌∷◌, lookup, has, erase,
  insert,
}
use puzzle_bubble.Gameplay.Float.Whole.{whole}
use puzzle_bubble.Gameplay.State.{PlayerState, Draws, new_initial_state}
use puzzle_bubble.Gameplay.Shots.{Result, fire, ok, err, Error}
use puzzle_bubble.Ui.{
  RoomItem, Server, Shot, done, refused, room_not_playing, player_not_in_room, with_state,
}
use puzzle_bubble.Ui.Shooting.{board_or, MayShoot, IsBoard, with_state_lem}
use puzzle_bubble.Ui.Removal.{remove_player_from_room, take_out, unfile}
use puzzle_bubble.Ui.Start.{
  calls, check_start, check_calls, after_check, game_service_unavailable, room_service_unavailable,
  start_room_failed,
}
use puzzle_bubble.Ui.Leave.{left, leave_room, after_removal}

abbrev ones : Draws
ones = record { current = pos 1; next = pos 1; fills = λ r c. true; color = λ r c. pos 1 }

abbrev first : PlayerState (Option ℤ)
first = new_initial_state whole ones (pos 0)

abbrev den : RoomItem
den = record {
  room_id = "room-1";
  name = "den";
  owner_id = "ann";
  state = "waiting";
  winner_id = "";
  player_cnt = pos 2;
  max_players = pos 2;
}

abbrev lobby : Server (Option ℤ)
lobby = record {
  rooms = ("room-1", den) ∷ [];
  player_room = ("ann", "room-1") ∷ ("bob", "room-1") ∷ [];
  room_members = ("room-1", ("ann", tt) ∷ ("bob", tt) ∷ []) ∷ [];
  game_states = [];
  room_next_add = [];
  room_game_addr = [];
  room_tickets = [];
}

ann_may_start : check_start lobby "ann" "room-1" ≡ calls ("ann" ∷ "bob" ∷ [])
unfolding check_start lookup
ann_may_start = refl

abbrev match : Server (Option ℤ)
match = record lobby {
  rooms = ("room-1", record den { state = "playing" }) ∷ [];
  game_states = ("room-1", ("ann", first) ∷ ("bob", first) ∷ []) ∷ [];
}

-- "ann" leaves, and "bob" wins.
bob_wins : (leave_room match "ann" "" "bob").1 ≡ left false true "bob"
unfolding leave_room remove_player_from_room take_out unfile after_removal lookup insert erase has
bob_wins = refl

-- The game service does not answer, or the room service refuses: nothing changes.
not_started :
    let go = after_check (λ v. v) lobby "ann" "room-1" in
    (go none (some (pos 0)) (λ p. first) (pos 5) ≡ (lobby, game_service_unavailable))
    × (go (some ("game:1", none)) none (λ p. first) (pos 5) ≡ (lobby, room_service_unavailable))
    × (go (some ("game:1", none)) (some (pos 300)) (λ p. first) (pos 5)
        ≡ (lobby, start_room_failed))
unfolding after_check check_calls
not_started = (refl, refl, refl)

abbrev shoot : Option (PlayerState (Option ℤ)) → Result (PlayerState (Option ℤ))
shoot st = fire whole st (some (negsuc 89))

with_state_lem_example :
    let out = with_state match "room-1" "ann" first shoot in
    let board = board_or match "room-1" "ann" first in
    (MayShoot match "room-1" "ann"
      × (((out.1 ≡ done)
            × (st : PlayerState (Option ℤ)) × (shoot (some board) ≡ ok st)
            × IsBoard match out.0 "room-1" "ann" st)
          ⊎ ((e : Error) × (out.1 ≡ refused e)
              × (shoot (some board) ≡ err e)
              × IsBoard match out.0 "room-1" "ann" board)))
    ⊎ (((out.1 ≡ Shot.room_not_found) ⊎ (out.1 ≡ room_not_playing) ⊎ (out.1 ≡ player_not_in_room))
        × (out.0 ≡ match))
with_state_lem_example = with_state_lem match "room-1" "ann" first shoot
