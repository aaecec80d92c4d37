-- ===== src/GameService/Events.antt =====
-- What reaches the game service, one thing after the other.
use puzzle_bubble.Prelude.{
  ℕ, ◌≡◌, ℤ, Bool, true, Option, none, some, List, [], ◌∷◌, String, lookup, has,
}
use puzzle_bubble.Gameplay.Float.{Float}
use puzzle_bubble.Gameplay.State.{Draws}
use puzzle_bubble.Gameplay.Shots.Invariant.{IsColor}
use puzzle_bubble.Gameplay.Shots.History.{AreColors}
use puzzle_bubble.Room.Service.{Request, Clock}
use puzzle_bubble.GameService.{Server, Moment, create_session}
use puzzle_bubble.GameService.Play.{
  Message, is_heartbeat, open_game, close_game, read_ws, build_state,
}
use puzzle_bubble.GameService.Lobby.{
  open_room, close_room, read_room, handle_gateway_message, monitor, expel, forget_player,
  end_monitor,
}

-- What happens at the service, with what is drawn, read from the clock and answered meanwhile. A
-- round of a monitor is one event, `monitors`, or, when other events come in between, its steps:
-- the departures (`expels`), what the service then forgets (`forgets`) and the monitor's end.
pub data Event (F Payload : Type 0) : Type 0 where
  creates :
      Option (String × List (Option String)) → ℤ → (ℕ → String) → (ℕ → Draws × ℤ) → Event F Payload
  opens_game : String → String → String → String → Option (String × Bool) → ℕ → ℤ → Event F Payload
  closes_game : String → String → Event F Payload
  says : String → String → Message F → Moment → ℤ → Bool → Event F Payload
  pulls : String → String → Moment → (String → ℤ) → Event F Payload
  opens_room : String → String → String → String → Option (String × Bool) → ℕ → ℤ → Event F Payload
  closes_room : String → ℕ → Event F Payload
  says_in_room : String → ℤ → Bool → Bool → Event F Payload
  gateway : Option (Request Payload) → Clock → Event F Payload
  monitors : String → Moment → Event F Payload
  expels : String → Moment → Event F Payload
  forgets : String → Event F Payload
  ends_monitor : String → Event F Payload

-- The first of a pair, if there is one.
abbrev pub kept : {A B : Type 0} → Option (A × B) → Option A
kept none = none
kept (some (a, b)) = some a

module _ (fl : Float) {Payload : Type 0} where
  -- The server after it; `none` is a panic.
  unfoldable pub after : Server fl.F Payload → Event fl.F Payload → Option (Server fl.F Payload)
  after s (creates req now ticket draws) = some (create_session fl s req now ticket draws).0
  after s (opens_game rid player ticket token answer conn ms) =
      some (open_game s rid player ticket token answer conn ms).0
  after s (closes_game rid player) = some (close_game s rid player)
  after s (says rid player msg t drawn refreshed) =
      kept (read_ws fl s rid player msg t drawn refreshed)
  after s (pulls rid player t drawn) = kept (build_state fl s rid player t drawn)
  after s (opens_room rid player ticket token answer conn ms) =
      some (open_room s rid player ticket token answer conn ms).0
  after s (closes_room player conn) = some (close_room s player conn)
  after s (says_in_room player ms is_heartbeat refreshed) =
      some (read_room s player ms is_heartbeat refreshed).0
  after s (gateway req t) = some (handle_gateway_message s req t).0
  after s (monitors rid t) = some (monitor s rid t)
  after s (expels player t) = some (expel s player t)
  after s (forgets player) = some (forget_player s player)
  after s (ends_monitor rid) = some (end_monitor s rid)

  unfoldable pub replay :
      Server fl.F Payload → List (Event fl.F Payload) → Option (Server fl.F Payload)
  unfolding after
  replay s [] = some s
  replay s (e ∷ es) = elim (after s e) [ none ↦ none | some s' ↦ replay s' es ]

  -- The player has a state in the session of that room, where the room has a session.
  abbrev pub IsSeated : Server fl.F Payload → String → String → Type 0
  IsSeated s rid player =
      elim (lookup rid s.sessions) [ none ↦ true | some sess ↦ has player sess.states ] ≡ true

  -- What is drawn is a colour, a new room's key is that of no room, and a player whose state is
  -- read has one.
  abbrev pub IsSafe : Server fl.F Payload → Event fl.F Payload → Type 0
  IsSafe s (creates req now ticket draws) = (j : ℕ) → AreColors (draws j).0
  IsSafe s (opens_game rid player ticket token answer conn ms) = Unit
  IsSafe s (closes_game rid player) = Unit
  IsSafe s (says rid player msg t drawn refreshed) = IsColor drawn × IsSeated s rid player
  IsSafe s (pulls rid player t drawn) = ((p : String) → IsColor (drawn p)) × IsSeated s rid player
  IsSafe s (opens_room rid player ticket token answer conn ms) = Unit
  IsSafe s (closes_room player conn) = Unit
  IsSafe s (says_in_room player ms is_heartbeat refreshed) = Unit
  IsSafe s (gateway req t) = lookup t.key s.room_mgr.rooms ≡ none
  IsSafe s (monitors rid t) = Unit
  IsSafe s (expels player t) = Unit
  IsSafe s (forgets player) = Unit
  IsSafe s (ends_monitor rid) = Unit

  abbrev pub AllSafe : Server fl.F Payload → List (Event fl.F Payload) → Type 0
  AllSafe s [] = Unit
  AllSafe s (e ∷ es) =
      IsSafe s e × elim (after s e) as (λ _. Type 0) [ none ↦ Unit | some s' ↦ AllSafe s' es ]
