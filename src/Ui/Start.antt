-- ===== src/Ui/Start.antt =====
-- internal/ui/server.go: `handleStartGame`. It gives up the lock while it calls the game service
-- and the room service, so what it does before and after are two steps, on two servers.
use puzzle_bubble.Prelude.{
  ltb, ℤ, pos, eq_ℤ, ◌+ℤ◌, Bool, true, false, not, ◌||◌, if◌then◌else◌, Option, none, some, List,
  [], ◌∷◌, length, String, str_eq, lookup, insert, erase,
}
use puzzle_bubble.Gameplay.State.{PlayerState}
use puzzle_bubble.Ui.{Names, Server}
use puzzle_bubble.Ui.Removal.{forget_match}

pub data Answer : Type 0 where
  missing_player missing_room_id room_not_found only_owner_can_start already_started
        need_two_players :
      Answer
  game_service_unavailable room_service_unavailable start_room_failed : Answer
  room_members_changed invalid_game_session : Answer
  calls : List String → Answer
  started : String → String → Answer

abbrev pub keys : Names → List String
keys [] = []
keys ((p, _) ∷ ps) = p ∷ keys ps

abbrev pub ticket_of : List (String × String) → String → String
ticket_of tickets player = elim (lookup player tickets) [ none ↦ "" | some ticket ↦ ticket ]

-- `strings.TrimSpace` is `trim`.
unfoldable pub all_ready : (String → String) → List (String × String) → Names → Bool
all_ready trim tickets [] = true
all_ready trim tickets ((p, _) ∷ ps) =
    let rest = all_ready trim tickets ps in
    if str_eq (trim (ticket_of tickets p)) "" then false else rest

-- The tickets of the session, and whether every member has one; `none` is no such map.
abbrev pub tickets_or_none : Option (List (String × String)) → List (String × String)
tickets_or_none none = []
tickets_or_none (some tickets) = tickets

-- The calls in between: the session that the game service made, and the code that the room
-- service answered, each `none` where the call failed; the answer if the start ends here.
unfoldable pub check_calls :
    Option (String × Option (List (String × String))) → Option ℤ → Option Answer
check_calls none code = some game_service_unavailable
check_calls (some session) none = some room_service_unavailable
check_calls (some session) (some code) = if eq_ℤ code (pos 0) then none else some start_room_failed

module _ {F : Type 0} where
  -- Before the calls; `calls` names the players of the session to create.
  unfoldable pub check_start : Server F → String → String → Answer
  check_start s player rid =
      if str_eq player ""
      then missing_player
      else if str_eq rid ""
      then missing_room_id
      else elim (lookup rid s.rooms) [
        | none ↦ room_not_found
        | some room ↦
            if not (str_eq room.owner_id player)
            then only_owner_can_start
            else if str_eq room.state "playing"
            then already_started
            else elim (lookup rid s.room_members) [
              | none ↦ need_two_players
              | some members ↦
                  if ltb (length members) 2 then need_two_players else calls (keys members)
            ]
      ]

  -- `NewInitialState` for every member.
  unfoldable pub deal : Names → (String → PlayerState F) → List (String × PlayerState F)
  deal [] fresh = []
  deal ((p, _) ∷ ps) fresh = (p, fresh p) ∷ deal ps fresh

  -- After the calls. A missing address is "".
  unfoldable pub finish_start :
      (String → String)
      → Server F
      → String
      → String
      → String
      → Option (List (String × String))
      → (String → PlayerState F)
      → ℤ
      → Server F × Answer
  unfolding deal all_ready
  finish_start trim s player rid addr tickets fresh now = elim (lookup rid s.rooms) [
    | none ↦ (s, room_not_found)
    | some room ↦
        if str_eq room.state "playing"
        then (s, already_started)
        else elim (lookup rid s.room_members) [
          | none ↦ (s, room_members_changed)
          | some members ↦
              let given = tickets_or_none tickets in
              let ticket = ticket_of given player in
              if ltb (length members) 2
              then (s, room_members_changed)
              else if str_eq addr "" || str_eq ticket "" || not (all_ready trim given members)
              then (
                forget_match
                    (record s {
                      rooms =
                          insert rid (record room { state = "waiting"; winner_id = "" }) s.rooms;
                      game_states = erase rid s.game_states;
                    })
                    rid,
                invalid_game_session,
              )
              else (
                record s {
                  rooms = insert rid (record room { state = "playing"; winner_id = "" }) s.rooms;
                  game_states = insert rid (deal members fresh) s.game_states;
                  room_next_add = insert rid (now +ℤ pos 10_000) s.room_next_add;
                  room_game_addr = insert rid addr s.room_game_addr;
                  room_tickets = insert rid given s.room_tickets;
                },
                started addr ticket,
              )
        ]
  ]

  -- From the calls on. A session is its address, "" where it has none, and its tickets.
  unfoldable pub after_check :
      (String → String)
      → Server F
      → String
      → String
      → Option (String × Option (List (String × String)))
      → Option ℤ
      → (String → PlayerState F)
      → ℤ
      → Server F × Answer
  unfolding check_calls finish_start
  after_check trim s player rid none code fresh now = (s, game_service_unavailable)
  after_check trim s player rid (some (addr, tickets)) code fresh now =
      elim (check_calls (some (addr, tickets)) code) [
        | some answer ↦ (s, answer)
        | none ↦ finish_start trim s player rid addr tickets fresh now
      ]
