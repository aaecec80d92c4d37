-- ===== src/Room/History.antt =====
-- Any sequence of calls on the rooms, from the first manager on.
use puzzle_bubble.Prelude.{ℕ, ◌≡◌, arith, ℤ, Bool, none, List, [], ◌∷◌, String, lookup}
use puzzle_bubble.Room.{
  Manager, new_manager, create_room, join_room, set_ready, start_game, leave_room, submit_input,
}
use puzzle_bubble.Room.Invariant.{IsValid, start_game-IsValid, set_ready-IsValid}
use puzzle_bubble.Room.Moves.{create_room-IsValid, join_room-IsValid, submit_input-IsValid}
use puzzle_bubble.Room.Leave.{leave_room-IsValid}

-- A call by a player, with the readings of the clock during it.
pub data Call (Payload : Type 0) : Type 0 where
  creates : String → String → ℤ → String → Call Payload
  joins : String → String → ℤ → Call Payload
  readies : String → Bool → ℤ → Call Payload
  starts : String → ℤ → Call Payload
  leaves : String → ℕ → ℤ → Call Payload
  submits : String → String → Payload → ℤ → ℤ → Call Payload

module _ {Payload : Type 0} where
  pub step : Manager Payload → Call Payload → Manager Payload
  step m (creates player name capacity room_id) = (create_room m player name capacity room_id).0
  step m (joins player rid now) = (join_room m player rid now).0
  step m (readies player flag now) = (set_ready m player flag now).0
  step m (starts player now) = (start_game m player now).0
  step m (leaves player first now) = (leave_room m player first now).0
  step m (submits player cmd payload now ms) = (submit_input m player cmd payload now ms).0

  unfoldable pub replay : Manager Payload → List (Call Payload) → Manager Payload
  unfolding step
  replay m [] = m
  replay m (c ∷ cs) = replay (step m c) cs

  -- A new room's key, which is a reading of the clock, is that of no room.
  abbrev pub IsFresh : Manager Payload → Call Payload → Type 0
  IsFresh m (creates player name capacity room_id) = lookup room_id m.rooms ≡ none
  IsFresh m (joins player rid now) = Unit
  IsFresh m (readies player flag now) = Unit
  IsFresh m (starts player now) = Unit
  IsFresh m (leaves player first now) = Unit
  IsFresh m (submits player cmd payload now ms) = Unit

  abbrev pub AllFresh : Manager Payload → List (Call Payload) → Type 0
  AllFresh m [] = Unit
  AllFresh m (c ∷ cs) = IsFresh m c × AllFresh (step m c) cs

  step-IsValid :
      (m : Manager Payload) (c : Call Payload) → IsFresh m c → IsValid m → IsValid (step m c)
  unfolding step
  step-IsValid m (creates player name capacity room_id) fresh v =
      create_room-IsValid m player name capacity room_id v fresh
  step-IsValid m (joins player rid now) _ v = join_room-IsValid m player rid now v
  step-IsValid m (readies player flag now) _ v = set_ready-IsValid m player flag now v
  step-IsValid m (starts player now) _ v = start_game-IsValid m player now v
  step-IsValid m (leaves player first now) _ v = leave_room-IsValid m player first now v
  step-IsValid m (submits player cmd payload now ms) _ v =
      submit_input-IsValid m player cmd payload now ms v

  replay-IsValid :
      (m : Manager Payload) (cs : List (Call Payload))
      → AllFresh m cs
      → IsValid m
      → IsValid (replay m cs)
  unfolding replay
  replay-IsValid m [] f v = v
  replay-IsValid m (c ∷ cs) f v = replay-IsValid (step m c) cs f.1 (step-IsValid m c f.0 v)

pub new_manager-IsValid : (Payload : Type 0) (t : ℤ) → IsValid {Payload = Payload} (new_manager t)
unfolding new_manager lookup
new_manager-IsValid Payload t = record {
  tracks = λ p rid e. absurd (cc);
  housed = λ rid p r e member. absurd (cc);
  in_order = λ rid r e. absurd (cc);
  tick = ground arith;
}

-- After any sequence of rooms created, joined, made ready, started and left and of commands
-- submitted, from the first manager on, if each new room's key is that of no room then: a player
-- is filed under a room exactly if it is among the room's players, so it is in one room at most;
-- every room stands under its own id, its owner is one of its players, it has no more players
-- than it may have, and its log has at most 2048 commands, numbered in order up to the
-- room's last number modulo 2^64.
pub replay-new-IsValid :
    (Payload : Type 0) (tick : ℤ) (cs : List (Call Payload))
    → AllFresh (new_manager tick) cs
    → IsValid (replay (new_manager tick) cs)
replay-new-IsValid Payload tick cs fresh =
    replay-IsValid (new_manager tick) cs fresh (new_manager-IsValid Payload tick)
