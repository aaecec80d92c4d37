-- ===== src/GameService/Lobby.antt =====
-- internal/gamesvc/server.go: the web socket of a room, the messages from the gateway, and the
-- monitor that lets silent players leave their room.
use puzzle_bubble.Prelude.{
  ℕ, ◌+◌, ◌==◌, ℤ, pos, leb_ℤ, sub64, Bool, false, not, ◌&&◌, ◌||◌, if◌then◌else◌, Option, none,
  some, List, [], ◌∷◌, String, str_eq, lookup, insert, erase,
}
use puzzle_bubble.Room.{
  Manager, Room, Result, ok, err, create_room, join_room, start_game, leave_room,
}
use puzzle_bubble.Room.Service.{
  Body, Request, Clock, Reply, nil_request, missing_player_id, unknown_msg_id, room, error_reply,
  rooms, room_reply, list_rooms,
}
use puzzle_bubble.GameService.{Server, Moment, timeout_or}
use puzzle_bubble.GameService.Play.{verify_token, touch}

-- What opening the socket of a room leads to; with a ticket it goes on as the socket of a match.
pub data Entry : Type 0 where
  missing_parameter unauthorized entered to_game : Entry

-- How many players the round saw.
unfoldable pub count_players : String → List (String × String) → ℕ
count_players rid [] = 0
count_players rid ((player, r) ∷ entries) =
    (if str_eq r rid then 1 else 0) + count_players rid entries

module _ {F Payload : Type 0} where
  unfoldable pub open_room :
      Server F Payload
      → String
      → String
      → String
      → String
      → Option (String × Bool)
      → ℕ
      → ℤ
      → Server F Payload × Entry
  unfolding touch
  open_room s rid player ticket token answer conn ms =
      if str_eq rid "" || str_eq player "" || str_eq token ""
      then (s, missing_parameter)
      else if not (verify_token answer token player)
      then (s, unauthorized)
      else if not (str_eq ticket "")
      then (s, to_game)
      else (touch (record s { room_ws = insert player conn s.room_ws }) rid player ms, entered)

  -- The deferred end: only the connection that is still the player's is taken off.
  unfoldable pub close_room : Server F Payload → String → ℕ → Server F Payload
  close_room s player conn = elim (lookup player s.room_ws) [
    | none ↦ s
    | some current ↦ if current == conn then record s { room_ws = erase player s.room_ws } else s
  ]

  -- A message on the socket of a room; a heartbeat that is not refreshed ends the connection.
  unfoldable pub read_room : Server F Payload → String → ℤ → Bool → Bool → Server F Payload × Bool
  read_room s player ms is_heartbeat refreshed =
      (record s { room_last_hb = insert player ms s.room_last_hb }, is_heartbeat && not refreshed)

  -- What the service forgets of a player who left.
  unfoldable pub forget_player : Server F Payload → String → Server F Payload
  forget_player s player = record s {
    room_of_player = erase player s.room_of_player;
    room_last_hb = erase player s.room_last_hb;
    room_ws = erase player s.room_ws;
  }

  unfoldable pub leave_reply :
      Server F Payload
      → String
      → Manager Payload × Result (Room Payload)
      → Server F Payload × Reply Payload
  unfolding forget_player
  leave_reply s player (m, err e) = (record s { room_mgr = m }, error_reply e)
  leave_reply s player (m, ok r) = (forget_player (record s { room_mgr = m }) player, room r)

  abbrev pub with_mgr :
      Server F Payload → Manager Payload × Reply Payload → Server F Payload × Reply Payload
  with_mgr s (m, reply) = (record s { room_mgr = m }, reply)

  -- `HandleGatewayMessage`, with the numbers of internal/protocol/room_msg.go.
  unfoldable pub route :
      Server F Payload → String → ℕ → Body Payload → Clock → Server F Payload × Reply Payload
  unfolding leave_reply
  route s player msg_id b t =
      if msg_id == 1001
      then with_mgr s (
          room_reply (
            create_room s.room_mgr player (if str_eq b.name "" then t.default_name else b.name)
              b.capacity t.key))
      else if msg_id == 1002
      then with_mgr s (room_reply (join_room s.room_mgr player b.room_id t.now))
      else if msg_id == 1005
      then with_mgr s (room_reply (start_game s.room_mgr player t.now))
      else if msg_id == 1004
      then leave_reply s player (leave_room s.room_mgr player t.first t.now)
      else if msg_id == 1202
      then (s, rooms (list_rooms s.room_mgr))
      else (s, unknown_msg_id)

  unfoldable pub handle_gateway_message :
      Server F Payload → Option (Request Payload) → Clock → Server F Payload × Reply Payload
  unfolding route
  handle_gateway_message s none t = (s, nil_request)
  handle_gateway_message s (some req) t =
      if str_eq req.player_id ""
      then (s, missing_player_id)
      else route s req.player_id req.msg_id req.body t

  -- `hb > 0 && now-hb > timeoutMs`; a player who was not heard has 0.
  abbrev pub is_late : Server F Payload → ℤ → String → Bool
  is_late s now player = elim (lookup player s.room_last_hb) [
    | none ↦ false
    | some hb ↦ not (leb_ℤ hb (pos 0)) && not (leb_ℤ (sub64 now hb) (timeout_or s.timeout_ms))
  ]

  -- The first loop of a round of the monitor: the silent players of the room.
  unfoldable pub silent : Server F Payload → String → ℤ → List (String × String) → List String
  silent s rid now [] = []
  silent s rid now ((player, r) ∷ entries) =
      let rest = silent s rid now entries in
      if str_eq r rid && is_late s now player then player ∷ rest else rest

  -- The departure in the second loop, which has the lock of the rooms only; its error is dropped.
  unfoldable pub expel : Server F Payload → String → Moment → Server F Payload
  expel s player t = record s { room_mgr = (leave_room s.room_mgr player (t.first player) t.ns).0 }

  -- The second loop, when nothing else happens between its departures.
  unfoldable pub dismiss : Server F Payload → List String → Moment → Server F Payload
  unfolding forget_player expel
  dismiss s [] t = s
  dismiss s (player ∷ players) t = dismiss (forget_player (expel s player t) player) players t

  -- `delete(s.roomMonitor, roomID)` at the monitor's end.
  unfoldable pub end_monitor : Server F Payload → String → Server F Payload
  end_monitor s rid = record s { room_monitor = erase rid s.room_monitor }

  -- A round of the monitor of a room, when nothing else happens between its steps: the source gives
  -- up the lock after `silent` and around each departure, and there other requests may come in. The
  -- monitor ends with the first round that saw no player.
  unfoldable pub monitor : Server F Payload → String → Moment → Server F Payload
  unfolding silent count_players dismiss end_monitor
  monitor s rid t =
      let s' = dismiss s (silent s rid t.ms s.room_of_player) t in
      if count_players rid s.room_of_player == 0 then end_monitor s' rid else s'
