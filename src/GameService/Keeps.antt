-- ===== src/GameService/Keeps.antt =====
-- What opens, closes or reaches a room's socket or the gateway keeps the service valid.
use puzzle_bubble.Prelude.{
  ℕ, ◌==◌, ◌≡◌, inl, inr, ℤ, Bool, not, ◌||◌, Bool-cases, Option-cases, if◌then◌else◌, Option, none,
  some, List, [], ◌∷◌, length, String, str_eq, lookup, erase, has, Each-insert, Each-lookup,
}
use puzzle_bubble.Room.{Manager, ok, err, Outcome}
use puzzle_bubble.Room.Invariant as Rooms
use puzzle_bubble.Room.Invariant.{start_game-IsValid}
use puzzle_bubble.Room.Moves.{create_room-IsValid, join_room-IsValid}
use puzzle_bubble.Room.Leave.{leave_room-IsValid}
use puzzle_bubble.Room.Service.{Body, Request, Clock}
use puzzle_bubble.Room.Service.Valid.{room_reply-IsValid}
use puzzle_bubble.GameService.{Server, Moment}
use puzzle_bubble.GameService.Play.{
  verify_token, ticket_of, ensure_room_monitor, touch, open_game, close_game, beat,
}
use puzzle_bubble.GameService.Lobby.{
  open_room, close_room, forget_player, leave_reply, route, handle_gateway_message, dismiss, expel,
  end_monitor, silent, monitor, count_players,
}
use puzzle_bubble.GameService.Valid.{SessionOk, IsValid}

module _ {F Payload : Type 0} where
  pub touch-IsValid :
      (s : Server F Payload) (rid player : String) (ms : ℤ)
      → IsValid s
      → IsValid (touch s rid player ms)
  unfolding touch ensure_room_monitor
  touch-IsValid s rid player ms v = elim (Bool-cases (str_eq rid "")) [
    | inl blank ↦
        rw (touch, ensure_room_monitor, blank) (record { sessions = v.sessions; rooms = v.rooms })
    | inr named ↦ elim (Bool-cases (has rid s.room_monitor)) [
      | inl runs ↦
          rw (touch, ensure_room_monitor, named, runs)
            (record { sessions = v.sessions; rooms = v.rooms })
      | inr new ↦
          rw (touch, ensure_room_monitor, named, new)
            (record { sessions = v.sessions; rooms = v.rooms })
    ]
  ]

  pub open_game-IsValid :
      (s : Server F Payload) (rid player ticket token : String) (answer : Option (String × Bool))
      (conn : ℕ) (ms : ℤ)
      → IsValid s
      → IsValid (open_game s rid player ticket token answer conn ms).0
  unfolding open_game
  open_game-IsValid s rid player ticket token answer conn ms v =
      elim (Bool-cases (str_eq rid "" || str_eq player "" || str_eq ticket "" || str_eq token "")) [
        | inl e ↦ rw (open_game, e) v
        | inr e ↦ elim (Bool-cases (not (verify_token answer token player))) [
          | inl e₁ ↦ rw (open_game, e, e₁) v
          | inr e₁ ↦ elim (Option-cases (lookup rid s.sessions)) [
            | inl e₂ ↦ rw (open_game, e, e₁, e₂) v
            | inr (sess, e₂) ↦ elim (Bool-cases (not (str_eq (ticket_of sess player) ticket))) [
              | inl e₃ ↦ rw (open_game, e, e₁, e₂, e₃) v
              | inr e₃ ↦
                  rw (open_game, e, e₁, e₂, e₃)
                    (touch-IsValid _ rid player ms (record {
                      sessions =
                          Each-insert SessionOk rid (beat sess player ms) s.sessions
                            (Each-lookup SessionOk rid sess s.sessions v.sessions e₂) v.sessions;
                      rooms = v.rooms;
                    }))
            ]
          ]
        ]
      ]

  pub close_game-IsValid :
      (s : Server F Payload) (rid player : String) → IsValid s → IsValid (close_game s rid player)
  unfolding close_game
  close_game-IsValid s rid player v = elim (Option-cases (lookup rid s.ws_conns)) [
    | inl e ↦ rw (close_game, e) v
    | inr (conns, e) ↦ elim (Bool-cases (length (erase player conns) == 0)) [
      | inl last ↦ rw (close_game, e, last) (record { sessions = v.sessions; rooms = v.rooms })
      | inr more ↦ rw (close_game, e, more) (record { sessions = v.sessions; rooms = v.rooms })
    ]
  ]

  pub open_room-IsValid :
      (s : Server F Payload) (rid player ticket token : String) (answer : Option (String × Bool))
      (conn : ℕ) (ms : ℤ)
      → IsValid s
      → IsValid (open_room s rid player ticket token answer conn ms).0
  unfolding open_room
  open_room-IsValid s rid player ticket token answer conn ms v =
      elim (Bool-cases (str_eq rid "" || str_eq player "" || str_eq token "")) [
        | inl e ↦ rw (open_room, e) v
        | inr e ↦ elim (Bool-cases (not (verify_token answer token player))) [
          | inl e₁ ↦ rw (open_room, e, e₁) v
          | inr e₁ ↦ elim (Bool-cases (not (str_eq ticket ""))) [
            | inl e₂ ↦ rw (open_room, e, e₁, e₂) v
            | inr e₂ ↦
                rw (open_room, e, e₁, e₂)
                  (touch-IsValid _ rid player ms
                    (record { sessions = v.sessions; rooms = v.rooms }))
          ]
        ]
      ]

  pub close_room-IsValid :
      (s : Server F Payload) (player : String) (conn : ℕ)
      → IsValid s
      → IsValid (close_room s player conn)
  unfolding close_room
  close_room-IsValid s player conn v = elim (Option-cases (lookup player s.room_ws)) [
    | inl e ↦ rw (close_room, e) v
    | inr (current, e) ↦ elim (Bool-cases (current == conn)) [
      | inl mine ↦ rw (close_room, e, mine) (record { sessions = v.sessions; rooms = v.rooms })
      | inr newer ↦ rw (close_room, e, newer) v
    ]
  ]

  with_mgr-IsValid :
      (s : Server F Payload) (m : Manager Payload)
      → IsValid s
      → Rooms.IsValid m
      → IsValid (record s { room_mgr = m })
  with_mgr-IsValid s m v w = record { sessions = v.sessions; rooms = w }

  leave_reply-IsValid :
      (s : Server F Payload) (player : String) (o : Outcome Payload)
      → IsValid s
      → Rooms.IsValid o.0
      → IsValid (leave_reply s player o).0
  unfolding leave_reply
  leave_reply-IsValid s player (m, ok r) v w = record { sessions = v.sessions; rooms = w }
  leave_reply-IsValid s player (m, err e) v w = record { sessions = v.sessions; rooms = w }

  pub expel-IsValid :
      (s : Server F Payload) (player : String) (t : Moment) → IsValid s → IsValid (expel s player t)
  unfolding expel
  expel-IsValid s player t v = record {
    sessions = v.sessions;
    rooms = leave_room-IsValid s.room_mgr player (t.first player) t.ns v.rooms;
  }

  dismiss-IsValid :
      (s : Server F Payload) (players : List String) (t : Moment)
      → IsValid s
      → IsValid (dismiss s players t)
  unfolding dismiss forget_player
  dismiss-IsValid s [] t v = v
  dismiss-IsValid s (p ∷ players) t v =
      let w = expel-IsValid s p t v in
      dismiss-IsValid (forget_player (expel s p t) p) players t
        (record { sessions = w.sessions; rooms = w.rooms })

  pub monitor-IsValid :
      (s : Server F Payload) (rid : String) (t : Moment) → IsValid s → IsValid (monitor s rid t)
  unfolding monitor end_monitor
  monitor-IsValid s rid t v =
      let w = dismiss-IsValid s (silent s rid t.ms s.room_of_player) t v in
      elim (Bool-cases (count_players rid s.room_of_player == 0)) [
        | inl last ↦ rw (monitor, last) (record { sessions = w.sessions; rooms = w.rooms })
        | inr more ↦ rw (monitor, more) w
      ]

  route-IsValid :
      (s : Server F Payload) (player : String) (msg_id : ℕ) (b : Body Payload) (t : Clock)
      → IsValid s
      → lookup t.key s.room_mgr.rooms ≡ none
      → IsValid (route s player msg_id b t).0
  unfolding route
  route-IsValid s player msg_id b t v fresh = elim (Bool-cases (msg_id == 1001)) [
    | inl e ↦
        rw (route, e)
          (with_mgr-IsValid s _ v (
            room_reply-IsValid _ (
              create_room-IsValid s.room_mgr player
                (if str_eq b.name "" then t.default_name else b.name) b.capacity t.key v.rooms
                fresh)))
    | inr e ↦ elim (Bool-cases (msg_id == 1002)) [
      | inl e₁ ↦
          rw (route, e, e₁)
            (with_mgr-IsValid s _ v
              (room_reply-IsValid _ (join_room-IsValid s.room_mgr player b.room_id t.now v.rooms)))
      | inr e₁ ↦ elim (Bool-cases (msg_id == 1005)) [
        | inl e₂ ↦
            rw (route, e, e₁, e₂)
              (with_mgr-IsValid s _ v
                (room_reply-IsValid _ (start_game-IsValid s.room_mgr player t.now v.rooms)))
        | inr e₂ ↦ elim (Bool-cases (msg_id == 1004)) [
          | inl e₃ ↦
              rw (route, e, e₁, e₂, e₃)
                (leave_reply-IsValid s player _ v
                  (leave_room-IsValid s.room_mgr player t.first t.now v.rooms))
          | inr e₃ ↦ elim (Bool-cases (msg_id == 1202)) [
            | inl e₄ ↦ rw (route, e, e₁, e₂, e₃, e₄) v
            | inr e₄ ↦ rw (route, e, e₁, e₂, e₃, e₄) v
          ]
        ]
      ]
    ]
  ]

  pub gateway-IsValid :
      (s : Server F Payload) (req : Option (Request Payload)) (t : Clock)
      → IsValid s
      → lookup t.key s.room_mgr.rooms ≡ none
      → IsValid (handle_gateway_message s req t).0
  unfolding handle_gateway_message
  gateway-IsValid s none t v fresh = v
  gateway-IsValid s (some req) t v fresh = elim (Bool-cases (str_eq req.player_id "")) [
    | inl nobody ↦ rw (handle_gateway_message, nobody) v
    | inr player ↦
        rw (handle_gateway_message, player)
          (route-IsValid s req.player_id req.msg_id req.body t v fresh)
  ]
