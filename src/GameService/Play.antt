-- ===== src/GameService/Play.antt =====
-- internal/gamesvc/server.go: the web socket of a match, message by message.
use puzzle_bubble.Prelude.{
  ℕ, ◌==◌, ℤ, Bool, true, false, not, ◌&&◌, ◌||◌, if◌then◌else◌, Option, none, some, List, [], ◌∷◌,
  length, String, str_eq, lookup, insert, erase, has, map_values,
}
use puzzle_bubble.Gameplay.Float.{Float}
use puzzle_bubble.Gameplay.State.{PlayerState}
use puzzle_bubble.Gameplay.Clone.{View, clone_state}
use puzzle_bubble.Gameplay.Shots.{clamp_aim}
use puzzle_bubble.Gameplay.Shots.History.{ticks, begins, lands, step}
use puzzle_bubble.Room.{Manager}
use puzzle_bubble.GameService.{Session, Server, Moment, resolve_outcome, apply_heartbeat_timeouts}

-- The answer of the token service: the user of the token and whether it is valid, or an error.
abbrev pub verify_token : Option (String × Bool) → String → String → Bool
verify_token answer token player =
    if str_eq token "" || str_eq player ""
    then false
    else elim answer [ none ↦ false | some (user, ok) ↦ if ok then str_eq user player else false ]

pub data Opening : Type 0 where
  missing_parameter unauthorized invalid_session_or_ticket opened : Opening

-- A missing session has no tickets, and a missing ticket reads as "".
abbrev pub ticket_of : {F : Type 0} → Session F → String → String
ticket_of sess player = elim (lookup player sess.tickets) [ none ↦ "" | some ticket ↦ ticket ]

pub data Message (F : Type 0) : Type 0 where
  shot : F → Message F
  land : F → F → F → Message F
  aim : F → Message F
  heartbeat : Message F
  other : Message F

abbrev pub is_heartbeat : {F : Type 0} → Message F → Bool
is_heartbeat heartbeat = true
is_heartbeat (shot a) = false
is_heartbeat (land a x y) = false
is_heartbeat (aim a) = false
is_heartbeat other = false

pub record StateMessage (F : Type 0) : Type 0 where
  pub waiting : Bool
  pub winner_id : String
  pub self : View F
  pub others : List (String × View F)

module _ {F : Type 0} where
  abbrev pub beat : Session F → String → ℤ → Session F
  beat sess player ms = record sess { last_heartbeat = insert player ms sess.last_heartbeat }

  -- A call on the player's state; on the nil state it is an error, which the source drops.
  unfoldable pub act : Session F → String → (PlayerState F → PlayerState F) → Session F
  unfolding lookup insert
  act sess player f = elim (lookup player sess.states) [
    | none ↦ sess
    | some st ↦ record sess { states = insert player (f st) sess.states }
  ]

  -- The states of the others.
  pub others_of : String → List (String × PlayerState F) → List (String × View F)
  others_of player [] = []
  others_of player ((p, st) ∷ states) =
      let rest = others_of player states in
      if str_eq p player
      then rest
      else elim (clone_state (some st)) [ none ↦ rest | some v ↦ (p, v) ∷ rest ]

module _ {F Payload : Type 0} where
  -- `ensureRoomMonitorLocked`, which starts the monitor of a room that has none.
  unfoldable pub ensure_room_monitor : Server F Payload → String → Server F Payload
  ensure_room_monitor s rid =
      if str_eq rid ""
      then s
      else if has rid s.room_monitor
      then s
      else record s { room_monitor = insert rid tt s.room_monitor }

  -- What every message but a failed heartbeat does last.
  unfoldable pub touch : Server F Payload → String → String → ℤ → Server F Payload
  unfolding ensure_room_monitor
  touch s rid player ms =
      ensure_room_monitor
        (record s {
          room_last_hb = insert player ms s.room_last_hb;
          room_of_player = insert player rid s.room_of_player;
        })
        rid

  abbrev pub conns_of : Server F Payload → String → List (String × ℕ)
  conns_of s rid = elim (lookup rid s.ws_conns) [ none ↦ [] | some conns ↦ conns ]

  -- `handleWSGame` up to the loop, for connection `conn`.
  unfoldable pub open_game :
      Server F Payload
      → String
      → String
      → String
      → String
      → Option (String × Bool)
      → ℕ
      → ℤ
      → Server F Payload × Opening
  unfolding touch
  open_game s rid player ticket token answer conn ms =
      if str_eq rid "" || str_eq player "" || str_eq ticket "" || str_eq token ""
      then (s, missing_parameter)
      else if not (verify_token answer token player)
      then (s, unauthorized)
      else elim (lookup rid s.sessions) [
        | none ↦ (s, invalid_session_or_ticket)
        | some sess ↦
            if not (str_eq (ticket_of sess player) ticket)
            then (s, invalid_session_or_ticket)
            else (
              touch
                  (record s {
                    ws_conns = insert rid (insert player conn (conns_of s rid)) s.ws_conns;
                    sessions = insert rid (beat sess player ms) s.sessions;
                  })
                  rid player ms,
              opened,
            )
      ]

  -- The deferred end of `handleWSGame`.
  unfoldable pub close_game : Server F Payload → String → String → Server F Payload
  close_game s rid player = elim (lookup rid s.ws_conns) [
    | none ↦ s
    | some conns ↦
        let rest = erase player conns in
        if length rest == 0
        then record s { ws_conns = erase rid s.ws_conns }
        else record s { ws_conns = insert rid rest s.ws_conns }
  ]

module _ (fl : Float) {Payload : Type 0} where
  -- The `switch` of `readWS` on a session; `none` is the panic on a nil state.
  unfoldable pub play :
      Session fl.F
      → Manager Payload
      → String
      → Message fl.F
      → Moment
      → ℤ
      → Option (Session fl.F × Manager Payload)
  unfolding act resolve_outcome
  play sess m player (shot angle) t drawn =
      some (act (beat sess player t.ms) player (λ st. step fl st (begins angle t.later)), m)
  play sess m player (land angle x y) t drawn = some (
      resolve_outcome
        (act (beat sess player t.ms) player (λ st. step fl st (lands angle x y drawn))) m t)
  play sess m player (aim angle) t drawn = elim (lookup player sess.states) [
    | none ↦ none
    | some st ↦
        some (
          act (beat sess player t.ms) player (λ st. record st { aim_angle = clamp_aim fl angle }),
          m,
        )
  ]
  play sess m player heartbeat t drawn = some (beat sess player t.ms, m)
  play sess m player other t drawn = some (sess, m)

  -- A message that `readWS` read: the server, and whether the connection ends.
  unfoldable pub read_ws :
      Server fl.F Payload
      → String
      → String
      → Message fl.F
      → Moment
      → ℤ
      → Bool
      → Option (Server fl.F Payload × Bool)
  unfolding play touch
  read_ws s rid player msg t drawn refreshed =
      let after : Option (Server fl.F Payload) = elim (lookup rid s.sessions) [
        | none ↦ some s
        | some sess ↦ elim (play sess s.room_mgr player msg t drawn) [
          | none ↦ none
          | some (sess', m) ↦
              some (record s { sessions = insert rid sess' s.sessions; room_mgr = m })
        ]
      ] in
      elim after [
        | none ↦ none
        | some s' ↦
            if is_heartbeat msg && not refreshed
            then some (s', true)
            else some (touch s' rid player t.ms, false)
      ]

  -- The session after the timeouts and the ticks.
  unfoldable pub advance :
      ℤ → Session fl.F → Manager Payload → Moment → (String → ℤ) → Session fl.F × Manager Payload
  unfolding apply_heartbeat_timeouts
  advance timeout sess m t drawn =
      let (sess', m') = apply_heartbeat_timeouts timeout sess m t in
      (
        record sess' {
          states = map_values (λ p st. step fl st (ticks t.ms (drawn p))) sess'.states;
        },
        m',
      )

  -- The outer option is the panic on a nil state, the inner one the missing session.
  unfoldable pub build_state :
      Server fl.F Payload
      → String
      → String
      → Moment
      → (String → ℤ)
      → Option (Server fl.F Payload × Option (StateMessage fl.F))
  unfolding advance others_of
  build_state s rid player t drawn = elim (lookup rid s.sessions) [
    | none ↦ some (s, none)
    | some sess ↦
        let (sess', m) = advance s.timeout_ms sess s.room_mgr t drawn in
        elim (clone_state (lookup player sess'.states)) [
          | none ↦ none
          | some self ↦ some (
            record s { sessions = insert rid sess' s.sessions; room_mgr = m },
            some (record {
              waiting = not (str_eq sess'.winner_id "");
              winner_id = sess'.winner_id;
              self = self;
              others = others_of player sess'.states;
            }),
          )
        ]
  ]
