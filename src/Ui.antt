-- ===== src/Ui.antt =====
-- internal/ui/game_state.go and internal/ui/server.go: the rooms that the user interface server
-- caches, and the boards of its matches. What the services behind it answer, the readings of the
-- clock, the boards that are drawn and what a `range` yields first are arguments; the events that
-- are sent out are left out.
pub mod Shooting
pub mod Removal
pub mod Start
pub mod Started
pub mod Leave
pub mod Left
pub mod Departure
pub mod Tests
use package.puzzle_bubble.Prelude.{
  ℕ, ◌==◌, ℤ, pos, sub64, ltb_ℤ, Bool, true, false, not, ◌&&◌, ◌||◌, if◌then◌else◌, Option, none,
  some, List, [], ◌∷◌, length, String, str_eq, lookup, insert, erase, has,
}
use puzzle_bubble.Gameplay.Float.{Float}
use puzzle_bubble.Gameplay.State.{PlayerState}
use puzzle_bubble.Gameplay.Shots as Shots
use puzzle_bubble.Gameplay.Shots.{Result, ok, err, Error}

pub record RoomItem : Type 0 where
  pub room_id : String
  pub name : String
  pub owner_id : String
  pub state : String
  pub winner_id : String
  pub player_cnt : ℤ
  pub max_players : ℤ

-- A set of names, `map[string]struct{}`.
abbrev pub Names : Type 0
Names = List (String × Unit {0})

pub record Server (F : Type 0) : Type 0 where
  pub rooms : List (String × RoomItem)
  pub player_room : List (String × String)
  pub room_members : List (String × Names)
  pub game_states : List (String × List (String × PlayerState F))
  pub room_next_add : List (String × ℤ)
  pub room_game_addr : List (String × String)
  pub room_tickets : List (String × List (String × String))

-- The answer to a shot.
pub data Shot : Type 0 where
  room_not_found room_not_playing player_not_in_room : Shot
  refused : Error → Shot
  done : Shot

module _ {F : Type 0} where
  -- The states of the room; a room without has none.
  abbrev pub states_of : Server F → String → List (String × PlayerState F)
  states_of s rid = elim (lookup rid s.game_states) [ none ↦ [] | some states ↦ states ]

  -- `fresh` is the state that `NewInitialState` draws.
  unfoldable pub ensure_player_game_state : Server F → String → String → PlayerState F → Server F
  ensure_player_game_state s rid player fresh =
      if has player (states_of s rid) then s else record s {
        game_states = insert rid (insert player fresh (states_of s rid)) s.game_states;
      }

  -- Whether the player is filed under the room.
  abbrev pub is_in_room : Server F → String → String → Bool
  is_in_room s rid player = elim (lookup player s.player_room) [
    | none ↦ false
    | some current ↦ str_eq current rid
  ]

  -- What `fireLocked`, `beginClientShotLocked` and `commitLandingLocked` do round the engine's call.
  unfoldable pub with_state :
      Server F
      → String
      → String
      → PlayerState F
      → (Option (PlayerState F) → Result (PlayerState F))
      → Server F × Shot
  unfolding ensure_player_game_state
  with_state s rid player fresh call = elim (lookup rid s.rooms) [
    | none ↦ (s, room_not_found)
    | some room ↦
        if not (str_eq room.state "playing")
        then (s, room_not_playing)
        else if not (is_in_room s rid player)
        then (s, player_not_in_room)
        else let s' = ensure_player_game_state s rid player fresh in
          elim (call (lookup player (states_of s' rid))) [
            | err e ↦ (s', refused e)
            | ok st ↦ (
              record s' {
                game_states = insert rid (insert player st (states_of s' rid)) s'.game_states;
              },
              done,
            )
          ]
  ]

module _ (fl : Float) where
  unfoldable pub fire : Server fl.F → String → String → fl.F → PlayerState fl.F → Server fl.F × Shot
  unfolding with_state
  fire s rid player angle fresh = with_state s rid player fresh (λ st. Shots.fire fl st angle)

  unfoldable pub begin_client_shot :
      Server fl.F → String → String → fl.F → ℤ → PlayerState fl.F → Server fl.F × Shot
  unfolding with_state
  begin_client_shot s rid player angle now fresh =
      with_state s rid player fresh (λ st. Shots.begin_client_shot fl st angle now)

  unfoldable pub commit_landing :
      Server fl.F → String → String → fl.F → fl.F → fl.F → ℤ → PlayerState fl.F → Server fl.F × Shot
  unfolding with_state
  commit_landing s rid player angle x y drawn fresh =
      with_state s rid player fresh (λ st. Shots.commit_landing fl st angle x y drawn)
