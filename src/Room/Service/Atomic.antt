-- ===== src/Room/Service/Atomic.antt =====
-- A message that is answered with an error changes nothing.
use puzzle_bubble.Prelude.{
  ℕ, ◌≡◌, refl, inl, inr, arith, ℤ, ◌==◌, Bool, Bool-cases, List, Option, none, some, String,
  str_eq,
}
use puzzle_bubble.Room.{
  CommandEvent, Manager, Room, RoomError, Result, ok, err, Outcome, create_room, join_room,
  set_ready, start_game, leave_room, submit_input,
}
use puzzle_bubble.Room.Service.{
  Body, Request, Clock, Reply, code, room_reply, event_reply, inputs_reply, snapshot_reply, route,
  handle_gateway_message,
}

module _ {Payload : Type 0} where
  -- An error comes with the manager as it was.
  abbrev pub IsAtomic : {A : Type 0} → Manager Payload → Manager Payload × Result A → Type 0
  IsAtomic m o = (e : RoomError) → o.1 ≡ err e → o.0 ≡ m

  create_room-IsAtomic :
      (m : Manager Payload) (player name : String) (capacity : ℤ) (key : String)
      → IsAtomic m (create_room m player name capacity key)
  unfolding create_room
  create_room-IsAtomic m player name capacity key e h = ground arith

  join_room-IsAtomic :
      (m : Manager Payload) (player rid : String) (now : ℤ)
      → IsAtomic m (join_room m player rid now)
  unfolding join_room
  join_room-IsAtomic m player rid now e h = ground arith

  set_ready-IsAtomic :
      (m : Manager Payload) (player : String) (flag : Bool) (now : ℤ)
      → IsAtomic m (set_ready m player flag now)
  unfolding set_ready
  set_ready-IsAtomic m player flag now e h = ground arith

  start_game-IsAtomic :
      (m : Manager Payload) (player : String) (now : ℤ) → IsAtomic m (start_game m player now)
  unfolding start_game
  start_game-IsAtomic m player now e h = ground arith

  leave_room-IsAtomic :
      (m : Manager Payload) (player : String) (first : ℕ) (now : ℤ)
      → IsAtomic m (leave_room m player first now)
  unfolding leave_room
  leave_room-IsAtomic m player first now e h = ground arith

  submit_input-IsAtomic :
      (m : Manager Payload) (player cmd : String) (payload : Payload) (now ms : ℤ)
      → IsAtomic m (submit_input m player cmd payload now ms)
  unfolding submit_input
  submit_input-IsAtomic m player cmd payload now ms e h = ground arith

  room_reply-same :
      (m : Manager Payload) (o : Outcome Payload)
      → IsAtomic m o
      → ¬ (code (room_reply o).1 ≡ some 0)
      → (room_reply o).0 ≡ m
  room_reply-same m (m', ok r) atomic h = absurd (h refl)
  room_reply-same m (m', err e) atomic h = atomic e refl

  event_reply-same :
      (m : Manager Payload) (o : Manager Payload × Result (CommandEvent Payload))
      → IsAtomic m o
      → ¬ (code (event_reply o).1 ≡ some 0)
      → (event_reply o).0 ≡ m
  event_reply-same m (m', ok ev) atomic h = absurd (h refl)
  event_reply-same m (m', err e) atomic h = atomic e refl

  inputs_reply-same :
      (m : Manager Payload) (r : Result (List (CommandEvent Payload) × ℕ × Room Payload))
      → (inputs_reply m r).0 ≡ m
  inputs_reply-same m (ok r) = refl
  inputs_reply-same m (err e) = refl

  snapshot_reply-same :
      (m : Manager Payload) (r : Result (Room Payload × ℕ)) → (snapshot_reply m r).0 ≡ m
  snapshot_reply-same m (ok r) = refl
  snapshot_reply-same m (err e) = refl

  -- What holds of every branch of the `switch` holds of the message.
  pub route-cases :
      (P : Manager Payload × Reply Payload → Type 0) (m : Manager Payload) (player : String)
      (msg_id : ℕ) (b : Body Payload) (t : Clock)
      → ((name : String) → P (room_reply (create_room m player name b.capacity t.key)))
      → P (room_reply (join_room m player b.room_id t.now))
      → ((flag : Bool) → P (room_reply (set_ready m player flag t.now)))
      → P (room_reply (start_game m player t.now))
      → P (room_reply (leave_room m player t.first t.now))
      → P (event_reply (submit_input m player b.cmd b.payload t.now t.ms))
      → ((r : Result (List (CommandEvent Payload) × ℕ × Room Payload)) → P (inputs_reply m r))
      → ((r : Result (Room Payload × ℕ)) → P (snapshot_reply m r))
      → ((r : Reply Payload) → P (m, r))
      → P (route m player msg_id b t)
  unfolding route
  route-cases P m player msg_id b t c j s g l i p q n = elim (Bool-cases (msg_id == 1001)) [
    | inl e ↦ rw (route, e) (c _)
    | inr e ↦ elim (Bool-cases (msg_id == 1002)) [
      | inl e₁ ↦ rw (route, e, e₁) j
      | inr e₁ ↦ elim (Bool-cases (msg_id == 1003)) [
        | inl e₂ ↦ rw (route, e, e₁, e₂) (s _)
        | inr e₂ ↦ elim (Bool-cases (msg_id == 1005)) [
          | inl e₃ ↦ rw (route, e, e₁, e₂, e₃) g
          | inr e₃ ↦ elim (Bool-cases (msg_id == 1004)) [
            | inl e₄ ↦ rw (route, e, e₁, e₂, e₃, e₄) l
            | inr e₄ ↦ elim (Bool-cases (msg_id == 1101)) [
              | inl e₅ ↦ rw (route, e, e₁, e₂, e₃, e₄, e₅) i
              | inr e₅ ↦ elim (Bool-cases (msg_id == 1102)) [
                | inl e₆ ↦ rw (route, e, e₁, e₂, e₃, e₄, e₅, e₆) (p _)
                | inr e₆ ↦ elim (Bool-cases (msg_id == 1201)) [
                  | inl e₇ ↦ rw (route, e, e₁, e₂, e₃, e₄, e₅, e₆, e₇) (q _)
                  | inr e₇ ↦ elim (Bool-cases (msg_id == 1202)) [
                    | inl e₈ ↦ rw (route, e, e₁, e₂, e₃, e₄, e₅, e₆, e₇, e₈) (n _)
                    | inr e₈ ↦ rw (route, e, e₁, e₂, e₃, e₄, e₅, e₆, e₇, e₈) (n _)
                  ]
                ]
              ]
            ]
          ]
        ]
      ]
    ]
  ]

-- A message that is not answered with the code 0, but with another one or by a panic, leaves the
-- rooms as they were.
pub handle_gateway_message-atomic :
    (Payload : Type 0) (m : Manager Payload) (req : Option (Request Payload)) (t : Clock)
    → ¬ (code (handle_gateway_message m req t).1 ≡ some 0)
    → (handle_gateway_message m req t).0 ≡ m
unfolding handle_gateway_message
handle_gateway_message-atomic Payload m none t = λ h. refl
handle_gateway_message-atomic Payload m (some req) t = elim (Bool-cases (str_eq req.player_id "")) [
  | inl nobody ↦ rw (handle_gateway_message, nobody) (λ h. refl)
  | inr player ↦
      rw (handle_gateway_message, player)
        (route-cases (λ o. ¬ (code o.1 ≡ some 0) → o.0 ≡ m) m req.player_id req.msg_id req.body t
          (λ name.
            room_reply-same m _ (create_room-IsAtomic m req.player_id name req.body.capacity t.key))
          (room_reply-same m _ (join_room-IsAtomic m req.player_id req.body.room_id t.now))
          (λ flag. room_reply-same m _ (set_ready-IsAtomic m req.player_id flag t.now))
          (room_reply-same m _ (start_game-IsAtomic m req.player_id t.now))
          (room_reply-same m _ (leave_room-IsAtomic m req.player_id t.first t.now))
          (event_reply-same m _
            (submit_input-IsAtomic m req.player_id req.body.cmd req.body.payload t.now t.ms))
          (λ r h. inputs_reply-same m r) (λ r h. snapshot_reply-same m r) (λ r h. refl))
]
