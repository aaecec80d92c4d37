-- ===== src/Room/Tests.antt =====
-- Runs of rooms. A command has no payload here.
use puzzle_bubble.Prelude.{
  ℕ, arith, ◌≡◌, refl, arith, pos, true, none, Option, some, List, [], ◌∷◌, lookup, ◌-◌, length,
  drop, String,
}
use puzzle_bubble.Room.{
  Manager, Room, playing, Player, CommandEvent, ok, new_manager, create_room, join_room, set_ready,
  leave_room, submit_input, pull_inputs, newer, submitted, current_frame,
}
use puzzle_bubble.Room.Invariant.{IsValid}
use puzzle_bubble.Room.History.{Call, creates, joins, readies, submits, replay, replay-new-IsValid}
use puzzle_bubble.Room.Service.{Body, Request, Clock, route, handle_gateway_message}
use puzzle_bubble.Room.Service.Atomic.{handle_gateway_message-atomic}
use puzzle_bubble.Room.Service.Valid.{handle_gateway_message-IsValid}
use puzzle_bubble.Room.Inputs.{newer_lem, pull_inputs-submit_input}

abbrev empty : Manager Unit
empty = new_manager (pos 0)

-- Two players meet and start, and one of them leaves.
abbrev game : List (Call Unit)
game =
    creates "ann" "bubbles" (pos 2) "room-1"
    ∷ joins "bob" "room-1" (pos 10)
    ∷ readies "bob" true (pos 20)
    ∷ readies "ann" true (pos 30)
    ∷ submits "bob" "shoot" tt (pos 100_000_030) (pos 0)
    ∷ []

abbrev two : List (String × Player)
two =
    ("ann", record { player_id = "ann"; ready = true })
    ∷ ("bob", record { player_id = "bob"; ready = true })
    ∷ []

abbrev shoot : CommandEvent Unit
shoot = record { seq = 1; frame = 2; player_id = "bob"; cmd = "shoot"; payload = tt; ts = pos 0 }

abbrev room_1 : Room Unit
room_1 = record {
  id = "room-1";
  name = "bubbles";
  owner_id = "ann";
  state = playing;
  max_players = pos 2;
  players = two;
  cmd_seq = 1;
  commands = shoot ∷ [];
  playing_since = some (pos 30);
}

game_ends : replay empty game ≡ record {
  rooms = ("room-1", room_1) ∷ [];
  player_room = ("ann", "room-1") ∷ ("bob", "room-1") ∷ [];
  frame_tick = 50_000_000;
}
unfolding replay new_manager create_room join_room set_ready submit_input
game_ends = refl

replay-new-IsValid_example : IsValid (replay empty game)
unfolding new_manager lookup
replay-new-IsValid_example = replay-new-IsValid Unit (pos 0) game (refl, (tt, (tt, (tt, (tt, tt)))))

newer_lem_example : newer 0 (shoot ∷ []) ≡ drop (length (shoot ∷ []) - (1 - 0)) (shoot ∷ [])
newer_lem_example = newer_lem 0 1 (shoot ∷ []) (refl, tt)

abbrev playing_now : Manager Unit
playing_now = record {
  rooms = ("room-1", room_1) ∷ [];
  player_room = ("ann", "room-1") ∷ ("bob", "room-1") ∷ [];
  frame_tick = 50_000_000;
}

pull_inputs-submit_input_example :
    let ev : CommandEvent Unit = record {
      seq = 2;
      frame = current_frame playing_now room_1 (pos 300_000_000);
      player_id = "ann";
      cmd = "aim";
      payload = tt;
      ts = pos 5;
    } in
    let m' = (submit_input playing_now "ann" "aim" tt (pos 300_000_000) (pos 5)).0 in
    pull_inputs m' "bob" 1 (pos 400_000_000)
    ≡ ok (ev ∷ [], current_frame m' (submitted room_1 ev) (pos 400_000_000), submitted room_1 ev)
unfolding lookup
pull_inputs-submit_input_example =
    pull_inputs-submit_input Unit playing_now "ann" "bob" "aim" tt (pos 300_000_000) (pos 5)
      (pos 400_000_000) "room-1" room_1 refl refl refl refl refl (refl, tt) (omega arith)

abbrev blank : Body Unit
blank = record {
  name = "";
  capacity = pos 4;
  room_id = "";
  ready = none;
  cmd = "";
  payload = tt;
  last_seq = 0;
}

abbrev noon : Clock
noon = record { key = "room-2"; default_name = "Room-7"; now = pos 7; ms = pos 0; first = 0 }

-- Nobody can leave a room who is in none.
abbrev leave_nowhere : Option (Request Unit)
leave_nowhere = some (record { player_id = "eve"; msg_id = 1004; body = blank })

abbrev create_second : Option (Request Unit)
create_second = some (record { player_id = "eve"; msg_id = 1001; body = blank })

not_ok : ¬ (◌≡◌ {A = Option ℕ} (some 300) (some 0))
not_ok e = ground arith

handle_gateway_message-atomic_example :
    (handle_gateway_message playing_now leave_nowhere noon).0 ≡ playing_now
unfolding handle_gateway_message route leave_room lookup
handle_gateway_message-atomic_example =
    handle_gateway_message-atomic Unit playing_now leave_nowhere noon not_ok

handle_gateway_message-IsValid_example :
    IsValid (handle_gateway_message (replay empty game) create_second noon).0
unfolding replay new_manager create_room join_room set_ready submit_input lookup
handle_gateway_message-IsValid_example =
    handle_gateway_message-IsValid Unit (replay empty game) create_second noon
      (replay-new-IsValid Unit (pos 0) game (refl, (tt, (tt, (tt, (tt, tt)))))) refl
