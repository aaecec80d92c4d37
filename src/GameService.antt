-- ===== src/GameService.antt =====
-- internal/gamesvc/server.go: the sessions of the game service and the end of a match, with the
-- room manager that the service keeps. A session, and a player's state in it, is an object that the
-- source changes in place; here it is stored back under its key. The readings of the clock, the
-- entry at which a `range` of a departure begins, the random tickets, boards and colours are
-- arguments.
pub mod Play
pub mod Lobby
pub mod Lose
pub mod Valid
pub mod Steps
pub mod Events
pub mod Seats
pub mod Timeout
pub mod Alive
pub mod Standing
pub mod Monitor
pub mod Keeps
pub mod History
pub mod Tests
use package.puzzle_bubble.Prelude.{
  ℕ, suc, ◌==◌, leb, ℤ, pos, pos_part, ◌/◌, leb_ℤ, sub64, Bool, true, false, not, ◌&&◌, ◌||◌,
  if◌then◌else◌, Option, none, some, List, [], ◌∷◌, length, String, str_eq, lookup, insert,
}
use puzzle_bubble.Gameplay.Float.{Float}
use puzzle_bubble.Gameplay.State.{lose, has_lost, PlayerState, Draws, new_initial_state}
use puzzle_bubble.Room.{Manager, new_manager, leave_room}

pub record Session (F : Type 0) : Type 0 where
  pub room_id : String
  pub players : List (String × Unit {0})
  pub tickets : List (String × String)
  pub states : List (String × PlayerState F)
  pub winner_id : String
  pub last_heartbeat : List (String × ℤ)
  pub finalized : Bool

-- A connection is known by a number. `timeout_ms` is `cfg.HeartbeatTimeout.Milliseconds()`.
pub record Server (F Payload : Type 0) : Type 0 where
  pub timeout_ms : ℤ
  pub sessions : List (String × Session F)
  pub ws_conns : List (String × List (String × ℕ))
  pub room_mgr : Manager Payload
  pub room_ws : List (String × ℕ)
  pub room_last_hb : List (String × ℤ)
  pub room_of_player : List (String × String)
  pub room_monitor : List (String × Unit {0})

-- The readings of the clock in milliseconds (`later` is the second one of a message) and in
-- nanoseconds, and where `range` begins when a player leaves.
pub record Moment : Type 0 where
  pub ms : ℤ
  pub later : ℤ
  pub ns : ℤ
  pub first : String → ℕ

-- `New`, with the durations in nanoseconds.
unfoldable pub new_server : {F Payload : Type 0} → ℤ → ℤ → Server F Payload
new_server timeout tick = record {
  timeout_ms = if leb_ℤ timeout (pos 0) then pos 5_000 else pos (pos_part timeout / 1_000_000);
  sessions = [];
  ws_conns = [];
  room_mgr = new_manager tick;
  room_ws = [];
  room_last_hb = [];
  room_of_player = [];
  room_monitor = [];
}

-- A timeout that is not positive counts as five seconds.
abbrev pub timeout_or : ℤ → ℤ
timeout_or t = if leb_ℤ t (pos 0) then pos 5_000 else t

-- `!(hb <= 0) && !(nowMillis-hb <= timeoutMs)`.
abbrev pub overdue : ℤ → ℤ → ℤ → Bool
overdue timeout now hb = not (leb_ℤ hb (pos 0)) && not (leb_ℤ (sub64 now hb) timeout)

module _ {F : Type 0} where
  -- The players that have not lost.
  unfoldable pub alive : List (String × PlayerState F) → List String
  alive [] = []
  alive ((p, st) ∷ states) =
      let rest = alive states in if has_lost st.status then rest else p ∷ rest

  -- `st.Status = "lose"`, if the player has a state that is not lost.
  unfoldable pub lose_player :
      String → List (String × PlayerState F) → List (String × PlayerState F)
  unfolding lookup insert
  lose_player p states = elim (lookup p states) [
    | none ↦ states
    | some st ↦ if has_lost st.status then states else insert p (record st { status = lose }) states
  ]

  -- The loop over `LastHeartbeat`.
  unfoldable pub expire :
      ℤ → ℤ → List (String × ℤ) → List (String × PlayerState F) → List (String × PlayerState F)
  unfolding lose_player
  expire timeout now [] states = states
  expire timeout now ((p, hb) ∷ beats) states =
      expire timeout now beats (if overdue timeout now hb then lose_player p states else states)

module _ {F Payload : Type 0} where
  -- The loop of `finalizeRoomAfterWinLocked`.
  pub evict : Manager Payload → String → List (String × PlayerState F) → Moment → Manager Payload
  evict m winner [] t = m
  evict m winner ((p, st) ∷ states) t =
      evict (if str_eq p winner then m else (leave_room m p (t.first p) t.ns).0) winner states t

  pub finalize_room : Session F → Manager Payload → String → Moment → Session F × Manager Payload
  unfolding evict
  finalize_room sess m winner t =
      if str_eq winner "" || sess.finalized
      then (sess, m)
      else (record sess { finalized = true }, evict m winner sess.states t)

  unfoldable pub resolve_outcome :
      Session F → Manager Payload → Moment → Session F × Manager Payload
  unfolding alive finalize_room
  resolve_outcome sess m t =
      if leb 2 (length sess.states) && length (alive sess.states) == 1
      then elim (alive sess.states) [
        | [] ↦ (sess, m)
        | winner ∷ _ ↦ finalize_room (record sess { winner_id = winner }) m winner t
      ]
      else (sess, m)

  unfoldable pub apply_heartbeat_timeouts :
      ℤ → Session F → Manager Payload → Moment → Session F × Manager Payload
  unfolding expire resolve_outcome
  apply_heartbeat_timeouts timeout sess m t =
      if not (str_eq sess.winner_id "")
      then (sess, m)
      else if length sess.last_heartbeat == 0
      then (sess, m)
      else resolve_outcome
          (record sess {
            states = expire (timeout_or timeout) t.ms sess.last_heartbeat sess.states;
          })
          m t

-- What `CreateSession` returns; the address of the service is left out.
pub data Created : Type 0 where
  nil_req missing_room_id missing_players empty_players : Created
  created : List (String × String) → Created

-- The texts that are not empty among the items of the list.
pub names : List (Option String) → List String
names [] = []
names (none ∷ items) = names items
names (some p ∷ items) = let rest = names items in if str_eq p "" then rest else p ∷ rest

module _ (fl : Float) where
  -- The loop over the players; the `i`-th one draws the `i`-th ticket, and the `i`-th board at its
  -- own reading of the clock.
  unfoldable pub seat :
      Session fl.F → List String → ℕ → ℤ → (ℕ → String) → (ℕ → Draws × ℤ) → Session fl.F
  unfolding insert
  seat sess [] i now ticket draws = sess
  seat sess (p ∷ ps) i now ticket draws =
      seat
        (record sess {
          players = insert p tt sess.players;
          states = insert p (new_initial_state fl (draws i).0 (draws i).1) sess.states;
          last_heartbeat = insert p now sess.last_heartbeat;
          tickets = insert p (ticket i) sess.tickets;
        })
        ps (suc i) now ticket draws

  abbrev pub new_session : String → Session fl.F
  new_session rid = record {
    room_id = rid;
    players = [];
    tickets = [];
    states = [];
    winner_id = "";
    last_heartbeat = [];
    finalized = false;
  }

module _ (fl : Float) {Payload : Type 0} where
  -- `none` is the nil request; `players` is `none` where the field is no list.
  unfoldable pub create_session :
      Server fl.F Payload
      → Option (String × List (Option String))
      → ℤ
      → (ℕ → String)
      → (ℕ → Draws × ℤ)
      → Server fl.F Payload × Created
  unfolding names seat insert
  create_session s none now ticket draws = (s, nil_req)
  create_session s (some (rid, items)) now ticket draws =
      if str_eq rid ""
      then (s, missing_room_id)
      else if length items == 0
      then (s, missing_players)
      else if length (names items) == 0
      then (s, empty_players)
      else let sess = seat fl (new_session fl rid) (names items) 0 now ticket draws in
        (record s { sessions = insert rid sess s.sessions }, created sess.tickets)
