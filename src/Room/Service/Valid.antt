-- ===== src/Room/Service/Valid.antt =====
-- A message keeps the rooms valid.
use puzzle_bubble.Prelude.{ℕ, ◌≡◌, inl, inr, Bool-cases, List, Option, none, some, str_eq, lookup}
use puzzle_bubble.Room.{CommandEvent, Manager, Room, Result, ok, err, Outcome}
use puzzle_bubble.Room.Invariant.{IsValid, start_game-IsValid, set_ready-IsValid}
use puzzle_bubble.Room.Moves.{create_room-IsValid, join_room-IsValid, submit_input-IsValid}
use puzzle_bubble.Room.Leave.{leave_room-IsValid}
use puzzle_bubble.Room.Service.{
  Request, Clock, room_reply, event_reply, inputs_reply, snapshot_reply, handle_gateway_message,
}
use puzzle_bubble.Room.Service.Atomic.{route-cases}

module _ {Payload : Type 0} where
  pub room_reply-IsValid : (o : Outcome Payload) → IsValid o.0 → IsValid (room_reply o).0
  room_reply-IsValid (m, ok r) v = v
  room_reply-IsValid (m, err e) v = v

  event_reply-IsValid :
      (o : Manager Payload × Result (CommandEvent Payload))
      → IsValid o.0
      → IsValid (event_reply o).0
  event_reply-IsValid (m, ok r) v = v
  event_reply-IsValid (m, err e) v = v

  inputs_reply-IsValid :
      (m : Manager Payload) (r : Result (List (CommandEvent Payload) × ℕ × Room Payload))
      → IsValid m
      → IsValid (inputs_reply m r).0
  inputs_reply-IsValid m (ok r) v = v
  inputs_reply-IsValid m (err e) v = v

  snapshot_reply-IsValid :
      (m : Manager Payload) (r : Result (Room Payload × ℕ))
      → IsValid m
      → IsValid (snapshot_reply m r).0
  snapshot_reply-IsValid m (ok r) v = v
  snapshot_reply-IsValid m (err e) v = v

-- If the clock's reading is no room's key, every message, whatever its number and its body, keeps
-- the rooms valid.
pub handle_gateway_message-IsValid :
    (Payload : Type 0) (m : Manager Payload) (req : Option (Request Payload)) (t : Clock)
    → IsValid m
    → lookup t.key m.rooms ≡ none
    → IsValid (handle_gateway_message m req t).0
unfolding handle_gateway_message
handle_gateway_message-IsValid Payload m none t v fresh = v
handle_gateway_message-IsValid Payload m (some req) t v fresh =
    elim (Bool-cases (str_eq req.player_id "")) [
      | inl nobody ↦ rw (handle_gateway_message, nobody) v
      | inr player ↦
          let p = req.player_id in
          let b = req.body in
          rw (handle_gateway_message, player)
            (route-cases (λ o. IsValid o.0) m p req.msg_id b t
              (λ name. room_reply-IsValid _ (create_room-IsValid m p name b.capacity t.key v fresh))
              (room_reply-IsValid _ (join_room-IsValid m p b.room_id t.now v))
              (λ flag. room_reply-IsValid _ (set_ready-IsValid m p flag t.now v))
              (room_reply-IsValid _ (start_game-IsValid m p t.now v))
              (room_reply-IsValid _ (leave_room-IsValid m p t.first t.now v))
              (event_reply-IsValid _ (submit_input-IsValid m p b.cmd b.payload t.now t.ms v))
              (λ r. inputs_reply-IsValid m r v) (λ r. snapshot_reply-IsValid m r v) (λ r. v))
    ]
