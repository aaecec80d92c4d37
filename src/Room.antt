-- ===== src/Room.antt =====
-- internal/room/service.go: the rooms and who is in them. The readings of the clock, the entry at
-- which `range` over a map begins and the payload of a command are arguments.
pub mod Update
pub mod Invariant
pub mod Moves
pub mod Leave
pub mod History
pub mod Inputs
pub mod Service
mod Tests
use package.puzzle_bubble.Prelude.{
  ℕ, zero, suc, ◌+◌, ◌-◌, ◌*◌, ◌/◌, ◌%◌, ◌^◌, ℤ, pos, negsuc, ◌-ℤ◌, leb_ℤ, ltb_ℤ, bits64, ltb, leb,
  ◌==◌, Bool, true, false, not, ◌||◌, if◌then◌else◌, Option, none, some, List, [], ◌∷◌, ◌++◌,
  length, drop, String, str_eq, lookup, insert, erase,
}

pub data RoomState : Type 0 where
  idle ready loading playing settlement closed : RoomState

pub record Player : Type 0 where
  pub player_id : String
  pub ready : Bool

-- `seq` and `frame` are uint64 values.
pub record CommandEvent (Payload : Type 0) : Type 0 where
  pub seq : ℕ
  pub frame : ℕ
  pub player_id : String
  pub cmd : String
  pub payload : Payload
  pub ts : ℤ

-- `playing_since` is in nanoseconds, and `none` for the zero time.
pub record Room (Payload : Type 0) : Type 0 where
  pub id : String
  pub name : String
  pub owner_id : String
  pub state : RoomState
  pub max_players : ℤ
  pub players : List (String × Player)
  pub cmd_seq : ℕ
  pub commands : List (CommandEvent Payload)
  pub playing_since : Option ℤ

-- `frame_tick` is in nanoseconds.
pub record Manager (Payload : Type 0) : Type 0 where
  pub rooms : List (String × Room Payload)
  pub player_room : List (String × String)
  pub frame_tick : ℕ

-- `panic` is a read through a nil pointer.
pub data RoomError : Type 0 where
  player_already_in_room room_not_found room_full player_not_in_room : RoomError
  only_owner_can_start need_two_players empty_cmd panic : RoomError
  state_does_not_allow_join not_playing : RoomState → RoomError

pub data Result (A : Type 0) : Type 0 where
  ok : A → Result A
  err : RoomError → Result A

abbrev pub is_playing : RoomState → Bool
is_playing playing = true
is_playing idle = false
is_playing ready = false
is_playing loading = false
is_playing settlement = false
is_playing closed = false

-- `r.State == StateClosed || r.State == StateSettlement || r.State == StatePlaying`.
abbrev pub refuses_join : RoomState → Bool
refuses_join closed = true
refuses_join settlement = true
refuses_join playing = true
refuses_join idle = false
refuses_join ready = false
refuses_join loading = false

pub all_ready : List (String × Player) → Bool
all_ready [] = true
all_ready ((k, p) ∷ ps) = let rest = all_ready ps in if p.ready then rest else false

-- The entry that `range` yields first, if it begins at entry `n`.
pub entry_at : List (String × Player) → ℕ → Option Player
entry_at [] n = none
entry_at ((k, p) ∷ ps) zero = some p
entry_at ((k, p) ∷ ps) (suc n) = entry_at ps n

abbrev at_most : ℕ → ℕ → ℕ
at_most bound n = if ltb bound n then bound else n

-- `time.Since(r.PlayingSince) / m.frameTick` as a uint64; `time.Since` stops at the least and the
-- greatest int64, and the division rounds to zero.
pub frames_between : ℤ → ℤ → ℕ → ℕ
frames_between since now tick = elim (now -ℤ since) [
  | pos n ↦ (at_most (2 ^ 63 - 1) n / tick) % 2 ^ 64
  | negsuc n ↦ (2 ^ 64 - (at_most (2 ^ 63) (suc n) / tick) % 2 ^ 64) % 2 ^ 64
]

-- `if r.PlayingSince.IsZero() { r.PlayingSince = time.Now() }`.
abbrev pub since_or : Option ℤ → ℤ → Option ℤ
since_or none now = some now
since_or (some t) now = some t

abbrev pub starts : RoomState → Bool
starts idle = true
starts ready = true
starts loading = true
starts playing = false
starts settlement = false
starts closed = false

-- What an operation returns: the manager afterwards, and the room or the error.
abbrev pub Outcome : Type 0 → Type 0
Outcome Payload = Manager Payload × Result (Room Payload)

module _ {Payload : Type 0} where
  -- `50 * time.Millisecond` in place of a tick that is not positive.
  pub new_manager : ℤ → Manager Payload
  new_manager tick =
      let ns : ℕ = elim tick [ pos n ↦ n | negsuc n ↦ 0 ] in
      record { rooms = []; player_room = []; frame_tick = if ns == 0 then 50_000_000 else ns }

  -- `updateRoomStateLocked`.
  pub update_room_state : Room Payload → ℤ → Room Payload
  unfolding all_ready
  update_room_state r now =
      let n = length r.players in
      if n == 0
      then record r { state = closed }
      else if n == 1
      then record r { state = idle }
      else if not (all_ready r.players)
      then record r { state = ready }
      else if starts r.state
      then record r { state = playing; playing_since = since_or r.playing_since now }
      else r

  -- `m.rooms[r.ID] = r` for a room that the source changes in place.
  abbrev pub store : Manager Payload → String → Room Payload → Manager Payload
  store m rid r = record m { rooms = insert rid r m.rooms }

  -- `mustGetPlayerRoomLocked`: the room's key and the room.
  pub must_get_player_room : Manager Payload → String → Result (String × Room Payload)
  unfolding lookup
  must_get_player_room m player = elim (lookup player m.player_room) [
    | none ↦ err player_not_in_room
    | some rid ↦ elim (lookup rid m.rooms) [ none ↦ err room_not_found | some r ↦ ok (rid, r) ]
  ]

  abbrev pub new_room : String → String → String → ℤ → Room Payload
  new_room room_id player name capacity = record {
    id = room_id;
    name = name;
    owner_id = player;
    state = idle;
    max_players = if leb_ℤ capacity (pos 1) then pos 2 else capacity;
    players = (player, record { player_id = player; ready = false }) ∷ [];
    cmd_seq = 0;
    commands = [];
    playing_since = none;
  }

  -- `room_id` is the text of the clock's reading.
  unfoldable pub create_room : Manager Payload → String → String → ℤ → String → Outcome Payload
  unfolding lookup insert
  create_room m player name capacity room_id = elim (lookup player m.player_room) [
    | some rid ↦ (m, err player_already_in_room)
    | none ↦
        let r = new_room room_id player name capacity in
        (
          record m {
            rooms = insert room_id r m.rooms;
            player_room = insert player room_id m.player_room;
          },
          ok r,
        )
  ]

  pub joined : Room Payload → String → ℤ → Room Payload
  unfolding update_room_state insert
  joined r player now =
      update_room_state
        (record r {
          players = insert player (record { player_id = player; ready = false }) r.players;
        })
        now

  unfoldable pub join_room : Manager Payload → String → String → ℤ → Outcome Payload
  unfolding lookup insert joined
  join_room m player rid now = elim (lookup player m.player_room) [
    | some other ↦ (m, err player_already_in_room)
    | none ↦ elim (lookup rid m.rooms) [
      | none ↦ (m, err room_not_found)
      | some r ↦
          if refuses_join r.state
          then (m, err (state_does_not_allow_join r.state))
          else if leb_ℤ r.max_players (pos (length r.players))
          then (m, err room_full)
          else let r' = joined r player now in
            (
              record m {
                rooms = insert rid r' m.rooms;
                player_room = insert player rid m.player_room;
              },
              ok r',
            )
    ]
  ]

  pub readied : Room Payload → Player → String → Bool → ℤ → Room Payload
  unfolding update_room_state insert
  readied r p player flag now =
      update_room_state (record r { players = insert player (record p { ready = flag }) r.players })
        now

  unfoldable pub set_ready : Manager Payload → String → Bool → ℤ → Outcome Payload
  unfolding must_get_player_room readied
  set_ready m player flag now = elim (must_get_player_room m player) [
    | err e ↦ (m, err e)
    | ok (rid, r) ↦ elim (lookup player r.players) [
      | none ↦ (m, err panic)
      | some p ↦ let r' = readied r p player flag now in (store m rid r', ok r')
    ]
  ]

  pub started : Room Payload → ℤ → Room Payload
  started r now = record r { state = playing; playing_since = since_or r.playing_since now }

  unfoldable pub start_game : Manager Payload → String → ℤ → Outcome Payload
  unfolding must_get_player_room started
  start_game m player now = elim (must_get_player_room m player) [
    | err e ↦ (m, err e)
    | ok (rid, r) ↦
        if not (str_eq r.owner_id player)
        then (m, err only_owner_can_start)
        else if ltb (length r.players) 2
        then (m, err need_two_players)
        else let r' = started r now in (store m rid r', ok r')
  ]

  -- The owner after `player` is gone; `first` says where `range` begins.
  pub heir : Room Payload → String → ℕ → String
  unfolding entry_at
  heir r player first =
      if str_eq r.owner_id player
      then elim (entry_at r.players (first % length r.players)) [
        | none ↦ r.owner_id
        | some p ↦ p.player_id
      ]
      else r.owner_id

  -- The room without the player, before its state is set.
  pub without : Room Payload → String → Room Payload
  unfolding erase
  without r player = record r { players = erase player r.players }

  -- The room that stays when a player leaves others behind.
  pub left : Room Payload → String → ℕ → ℤ → Room Payload
  unfolding without heir update_room_state
  left r player first now =
      let r' = without r player in
      update_room_state (record r' { owner_id = heir r' player first }) now

  unfoldable pub leave_room : Manager Payload → String → ℕ → ℤ → Outcome Payload
  unfolding must_get_player_room erase
  leave_room m player first now = elim (must_get_player_room m player) [
    | err e ↦ (m, err e)
    | ok (rid, r) ↦
        let m' = record m { player_room = erase player m.player_room } in
        if length (without r player).players == 0
        then (
          record m' { rooms = erase r.id m.rooms },
          ok (record (without r player) { state = closed }),
        )
        else let r' = left r player first now in (store m' rid r', ok r')
  ]

  pub current_frame : Manager Payload → Room Payload → ℤ → ℕ
  unfolding frames_between
  current_frame m r now =
      if is_playing r.state
      then elim r.playing_since [ none ↦ 0 | some t ↦ frames_between t now m.frame_tick ]
      else 0

  -- `append`, and the cut to the last 2048 commands.
  pub log : List (CommandEvent Payload) → CommandEvent Payload → List (CommandEvent Payload)
  log events ev =
      let all = events ++ ev ∷ [] in
      if ltb 2048 (length all) then drop (length all - 2048) all else all

  pub submitted : Room Payload → CommandEvent Payload → Room Payload
  unfolding log
  submitted r ev = record r { cmd_seq = ev.seq; commands = log r.commands ev }

  unfoldable pub submit_input :
      Manager Payload
      → String
      → String
      → Payload
      → ℤ
      → ℤ
      → Manager Payload × Result (CommandEvent Payload)
  unfolding must_get_player_room current_frame submitted
  submit_input m player cmd payload now ms = elim (must_get_player_room m player) [
    | err e ↦ (m, err e)
    | ok (rid, r) ↦
        if not (is_playing r.state)
        then (m, err (not_playing r.state))
        else if str_eq cmd ""
        then (m, err empty_cmd)
        else let ev : CommandEvent Payload = record {
          seq = (r.cmd_seq + 1) % 2 ^ 64;
          frame = current_frame m r now;
          player_id = player;
          cmd = cmd;
          payload = payload;
          ts = ms;
        } in
          (store m rid (submitted r ev), ok ev)
  ]

  -- The events behind `last_seq`.
  pub newer : ℕ → List (CommandEvent Payload) → List (CommandEvent Payload)
  newer last_seq [] = []
  newer last_seq (ev ∷ evs) =
      let rest = newer last_seq evs in if ltb last_seq ev.seq then ev ∷ rest else rest

  unfoldable pub pull_inputs :
      Manager Payload → String → ℕ → ℤ → Result (List (CommandEvent Payload) × ℕ × Room Payload)
  unfolding must_get_player_room newer current_frame
  pull_inputs m player last_seq now = elim (must_get_player_room m player) [
    | err e ↦ err e
    | ok (rid, r) ↦ ok (newer last_seq r.commands, current_frame m r now, r)
  ]
