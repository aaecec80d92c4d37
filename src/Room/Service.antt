-- ===== src/Room/Service.antt =====
-- internal/room/service.go: `HandleGatewayMessage`, which takes a message to the rooms, and the
-- two operations that only read. The JSON body is an argument, as what the source's type
-- assertions and conversions make of its fields.
pub mod Atomic
pub mod Valid
use package.puzzle_bubble.Prelude.{
  ℕ, ℤ, ◌==◌, Bool, true, false, if◌then◌else◌, Option, none, some, List, [], ◌∷◌, String, str_eq,
  erase,
}
use puzzle_bubble.Room.{
  Manager, Room, CommandEvent, RoomError, panic, Result, ok, err, Outcome, must_get_player_room,
  create_room, join_room, set_ready, start_game, leave_room, submit_input, pull_inputs,
  current_frame,
}

-- `ready` is `none` where the body has no such Boolean; a missing text is "".
pub record Body (Payload : Type 0) : Type 0 where
  pub name : String
  pub capacity : ℤ
  pub room_id : String
  pub ready : Option Bool
  pub cmd : String
  pub payload : Payload
  pub last_seq : ℕ

pub record Request (Payload : Type 0) : Type 0 where
  pub player_id : String
  pub msg_id : ℕ
  pub body : Body Payload

-- The readings of the clock: as a room's key, as the name of a room without one, and as times;
-- `first` says where a `range` begins.
pub record Clock : Type 0 where
  pub key : String
  pub default_name : String
  pub now : ℤ
  pub ms : ℤ
  pub first : ℕ

pub data Reply (Payload : Type 0) : Type 0 where
  nil_request missing_player_id unknown_msg_id : Reply Payload
  refused : RoomError → Reply Payload
  room : Room Payload → Reply Payload
  event : CommandEvent Payload → Reply Payload
  inputs : List (CommandEvent Payload) → ℕ → Room Payload → Reply Payload
  snapshot : Room Payload → ℕ → Reply Payload
  rooms : List (Room Payload) → Reply Payload
  panics : Reply Payload

-- An error of an operation is answered with its text; a read through a nil pointer is no answer.
abbrev pub error_reply : {Payload : Type 0} → RoomError → Reply Payload
error_reply panic = panics
error_reply e = refused e

-- The first argument of `mapResp`; a panic has none.
abbrev pub code : {Payload : Type 0} → Reply Payload → Option ℕ
code nil_request = some 100
code missing_player_id = some 100
code unknown_msg_id = some 100
code (refused e) = some 300
code (room r) = some 0
code (event ev) = some 0
code (inputs evs frame r) = some 0
code (snapshot r frame) = some 0
code (rooms rs) = some 0
code panics = none

abbrev pub ready_flag : Option Bool → Bool
ready_flag none = true
ready_flag (some flag) = flag

module _ {Payload : Type 0} where
  -- The rooms of a list of entries; `range` may yield them in any order, and here in the list's.
  pub values : List (String × Room Payload) → List (Room Payload)
  values [] = []
  values ((k, r) ∷ rs) = r ∷ values rs

  pub list_rooms : Manager Payload → List (Room Payload)
  unfolding values
  list_rooms m = values m.rooms

  pub snapshot_of : Manager Payload → String → ℤ → Result (Room Payload × ℕ)
  unfolding must_get_player_room current_frame
  snapshot_of m player now = elim (must_get_player_room m player) [
    | err e ↦ err e
    | ok (rid, r) ↦ ok (r, current_frame m r now)
  ]

  abbrev pub room_reply : Outcome Payload → Manager Payload × Reply Payload
  room_reply (m, ok r) = (m, room r)
  room_reply (m, err e) = (m, error_reply e)

  abbrev pub event_reply :
      Manager Payload × Result (CommandEvent Payload) → Manager Payload × Reply Payload
  event_reply (m, ok ev) = (m, event ev)
  event_reply (m, err e) = (m, error_reply e)

  abbrev pub inputs_reply :
      Manager Payload
      → Result (List (CommandEvent Payload) × ℕ × Room Payload)
      → Manager Payload × Reply Payload
  inputs_reply m (ok (evs, frame, r)) = (m, inputs evs frame r)
  inputs_reply m (err e) = (m, error_reply e)

  abbrev pub snapshot_reply :
      Manager Payload → Result (Room Payload × ℕ) → Manager Payload × Reply Payload
  snapshot_reply m (ok (r, frame)) = (m, snapshot r frame)
  snapshot_reply m (err e) = (m, error_reply e)

  -- The `switch`, with the numbers of internal/protocol/room_msg.go.
  unfoldable pub route :
      Manager Payload → String → ℕ → Body Payload → Clock → Manager Payload × Reply Payload
  route m player msg_id b t =
      if msg_id == 1001
      then room_reply (
          create_room m player (if str_eq b.name "" then t.default_name else b.name) b.capacity
            t.key)
      else if msg_id == 1002
      then room_reply (join_room m player b.room_id t.now)
      else if msg_id == 1003
      then room_reply (set_ready m player (ready_flag b.ready) t.now)
      else if msg_id == 1005
      then room_reply (start_game m player t.now)
      else if msg_id == 1004
      then room_reply (leave_room m player t.first t.now)
      else if msg_id == 1101
      then event_reply (submit_input m player b.cmd b.payload t.now t.ms)
      else if msg_id == 1102
      then inputs_reply m (pull_inputs m player b.last_seq t.now)
      else if msg_id == 1201
      then snapshot_reply m (snapshot_of m player t.now)
      else if msg_id == 1202
      then (m, rooms (list_rooms m))
      else (m, unknown_msg_id)

  unfoldable pub handle_gateway_message :
      Manager Payload → Option (Request Payload) → Clock → Manager Payload × Reply Payload
  handle_gateway_message m none t = (m, nil_request)
  handle_gateway_message m (some req) t =
      if str_eq req.player_id ""
      then (m, missing_player_id)
      else route m req.player_id req.msg_id req.body t
