-- ===== src/Mono.antt =====
-- internal/mono/server.go: the rooms of the single-process server and the end of a match in one.
-- The player of a request, which `authPlayer` returns, its JSON body, the readings of the clock
-- and the random tickets and boards are arguments; the sockets are left out.
pub mod Outcome
pub mod Ends
pub mod Layers
mod Tests
use package.puzzle_bubble.Prelude.{
  ℕ, ◌+◌, ◌==◌, ltb, leb, ℤ, pos, ltb_ℤ, leb_ℤ, ◌+ℤ◌, Bool, true, false, not, ◌&&◌, ◌||◌,
  if◌then◌else◌, Option, none, some, List, [], ◌∷◌, ◌++◌, length, map, String, str_eq, lookup,
  insert, erase, has,
}
use puzzle_bubble.Gameplay.State.{has_lost, Status, playing, win, lose, PlayerState}

pub data Phase : Type 0 where
  waiting started : Phase

-- A set of names, `map[string]struct{}`.
abbrev pub Names : Type 0
Names = List (String × Unit {0})

pub record Room : Type 0 where
  pub id : String
  pub name : String
  pub owner_id : String
  pub phase : Phase
  pub winner_id : String
  pub max_players : ℤ
  pub players : Names

pub record Server (F : Type 0) : Type 0 where
  pub rooms : List (String × Room)
  pub player_room : List (String × String)
  pub game_states : List (String × List (String × PlayerState F))
  pub room_tickets : List (String × List (String × String))
  pub room_next_add : List (String × ℤ)

-- What a request is answered.
pub data Answer : Type 0 where
  done room_not_found room_full only_owner_can_start need_two_players : Answer

abbrev pub is_started : Phase → Bool
is_started waiting = false
is_started started = true

-- The first player that `range` yields who has not lost.
pub survivor : {F : Type 0} → Names → List (String × PlayerState F) → Option String
unfolding lookup
survivor [] states = none
survivor ((p, _) ∷ ps) states =
    let rest = survivor ps states in
    elim (lookup p states) [ none ↦ rest | some st ↦ if has_lost st.status then rest else some p ]

-- Every player gets a board and a ticket.
pub deal : {A : Type 0} → Names → (String → A) → List (String × A)
deal [] draw = []
deal ((p, _) ∷ ps) draw = (p, draw p) ∷ deal ps draw

module _ {F : Type 0} where
  -- `alive` of `resolveRoomOutcomeLocked`, and `losers`.
  pub alive : Names → List (String × PlayerState F) → List String
  alive [] states = []
  alive ((p, _) ∷ ps) states =
      let rest = alive ps states in
      elim (lookup p states) [
        | none ↦ rest
        | some st ↦ if has_lost st.status then rest else p ∷ rest
      ]

  pub losers : Names → List (String × PlayerState F) → ℕ
  losers [] states = 0
  losers ((p, _) ∷ ps) states =
      let rest = losers ps states in
      elim (lookup p states) [
        | none ↦ rest
        | some st ↦ if has_lost st.status then rest + 1 else rest
      ]

  -- The states of the players after the match, which others may still hold.
  pub finish : String → List (String × PlayerState F) → List (String × PlayerState F)
  finish winner [] = []
  finish winner ((p, st) ∷ states) =
      (
        p,
        record st {
          moving = none;
          pending_shot = false;
          status = if str_eq p winner then if has_lost st.status then st.status else win else lose;
        },
      )
      ∷ finish winner states

  abbrev pub forget : Server F → String → Server F
  forget s rid = record s {
    game_states = erase rid s.game_states;
    room_tickets = erase rid s.room_tickets;
    room_next_add = erase rid s.room_next_add;
  }

  -- The server, and the winner with the last states if the match is over.
  unfoldable pub resolve_room_outcome :
      Server F → String → Server F × Option (String × List (String × PlayerState F))
  resolve_room_outcome s rid = elim (lookup rid s.rooms) [
    | none ↦ (s, none)
    | some room ↦
        if not (is_started room.phase) then (s, none) else elim (lookup rid s.game_states) [
          | none ↦ (s, none)
          | some states ↦
              if ltb (length room.players) 2
              then (s, none)
              else if (losers room.players states == 0)
                  || not (length (alive room.players states) == 1)
              then (s, none)
              else elim (alive room.players states) [
                | [] ↦ (s, none)
                | winner ∷ _ ↦ (
                  forget
                      (record s {
                        rooms =
                            insert rid (record room { phase = waiting; winner_id = winner })
                              s.rooms;
                      })
                      rid,
                  some (winner, finish winner states),
                )
              ]
        ]
  ]

  -- A player leaves; `first` is the player that `range` yields first of those who stay.
  pub remove_player : Server F → String → String → String → Server F
  unfolding survivor
  remove_player s pid rid first = elim (lookup rid s.rooms) [
    | none ↦ record s { player_room = erase pid s.player_room }
    | some room ↦
        let players = erase pid room.players in
        let s' = record s { player_room = erase pid s.player_room } in
        if length players == 0
        then forget (record s' { rooms = erase rid s.rooms }) rid
        else let owner = if str_eq room.owner_id pid then first else room.owner_id in
          let stays = record room { players = players; owner_id = owner } in
          if is_started room.phase && leb (length players) 1
          then (let states : List (String × PlayerState F) = elim (lookup rid s.game_states) [
            | none ↦ []
            | some states ↦ states
          ] in
              let winner : String = elim (survivor players states) [ none ↦ "" | some p ↦ p ] in
              forget
                (record s' {
                  rooms = insert rid (record stays { phase = waiting; winner_id = winner }) s.rooms;
                })
                rid)
          else record s' { rooms = insert rid stays s.rooms }
  ]

  pub create_room : Server F → String → String → ℤ → String → String → Server F
  unfolding remove_player
  create_room s pid name max_players rid first =
      let s' : Server F = elim (lookup pid s.player_room) [
        | none ↦ s
        | some old ↦ remove_player s pid old first
      ] in
      let at_least = if ltb_ℤ max_players (pos 2) then pos 2 else max_players in
      let capacity = if ltb_ℤ (pos 8) at_least then pos 8 else at_least in
      let room : Room = record {
        id = rid;
        name = if str_eq name "" then "Room" else name;
        owner_id = pid;
        phase = waiting;
        winner_id = "";
        max_players = capacity;
        players = (pid, tt) ∷ [];
      } in
      record s' { rooms = insert rid room s'.rooms; player_room = insert pid rid s'.player_room }

  unfoldable pub join : Server F → String → String → Server F × Answer
  join s pid rid = elim (lookup rid s.rooms) [
    | none ↦ (s, room_not_found)
    | some room ↦
        if has pid room.players
        then (s, done)
        else if leb_ℤ room.max_players (pos (length room.players))
        then (s, room_full)
        else (
          record s {
            rooms = insert rid (record room { players = insert pid tt room.players }) s.rooms;
            player_room = insert pid room.id s.player_room;
          },
          done,
        )
  ]

  pub leave : Server F → String → String → Server F
  unfolding remove_player
  leave s pid first = elim (lookup pid s.player_room) [
    | none ↦ s
    | some rid ↦ if str_eq rid "" then s else remove_player s pid rid first
  ]

  pub start :
      Server F
      → String
      → String
      → (String → PlayerState F)
      → (String → String)
      → ℤ
      → Server F × Answer
  unfolding deal
  start s pid rid board ticket now_ms = elim (lookup rid s.rooms) [
    | none ↦ (s, room_not_found)
    | some room ↦
        if not (str_eq room.owner_id pid)
        then (s, only_owner_can_start)
        else if ltb (length room.players) 2
        then (s, need_two_players)
        else (
          record s {
            rooms = insert rid (record room { phase = started; winner_id = "" }) s.rooms;
            game_states = insert room.id (deal room.players board) s.game_states;
            room_tickets = insert room.id (deal room.players ticket) s.room_tickets;
            room_next_add = insert room.id (now_ms +ℤ pos 10_000) s.room_next_add;
          },
          done,
        )
  ]
