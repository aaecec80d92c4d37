-- ===== src/GameService/History.antt =====
-- Any sequence of what reaches the game service, from the first server on.
use puzzle_bubble.Prelude.{
  ◌≡◌, refl, inl, inr, arith, if◌then◌else◌, ℤ, Bool, true, false, not, ◌&&◌, Option-cases, Option,
  none, some, List, [], ◌∷◌, String, lookup, has, lookup_of_has, insert, Each-insert, Each-lookup,
}
use puzzle_bubble.Gameplay.Float.{Float}
use puzzle_bubble.Gameplay.State.{PlayerState}
use puzzle_bubble.Gameplay.Shots.Invariant.{IsColor}
use puzzle_bubble.Room.{Manager}
use puzzle_bubble.Room.History.{new_manager-IsValid}
use puzzle_bubble.GameService.{Session, Server, new_server, Moment}
use puzzle_bubble.GameService.Play.{
  Message, shot, land, aim, heartbeat, other, is_heartbeat, play, read_ws, advance, build_state,
  touch,
}
use puzzle_bubble.GameService.Lobby.{read_room, forget_player, end_monitor}
use puzzle_bubble.GameService.Valid.{SessionOk, Ok, IsValid}
use puzzle_bubble.GameService.Steps.{OkIf, create_session-IsValid, play-Ok, advance-Ok}
use puzzle_bubble.GameService.Seats.{IsIn, advance-IsIn}
use puzzle_bubble.GameService.Keeps.{
  touch-IsValid, open_game-IsValid, close_game-IsValid, open_room-IsValid, close_room-IsValid,
  expel-IsValid, monitor-IsValid, gateway-IsValid,
}
use puzzle_bubble.GameService.Events.{
  Event, creates, opens_game, closes_game, says, pulls, opens_room, closes_room, says_in_room,
  gateway, monitors, expels, forgets, ends_monitor, kept, after, replay, IsSeated, IsSafe, AllSafe,
}

has-IsIn :
    {F : Type 0} (p : String) (states : List (String × PlayerState F))
    → has p states ≡ true
    → IsIn p states
has-IsIn p states h e = let (st, there) = lookup_of_has p states h in cc

module _ (fl : Float) {Payload : Type 0} where
  -- There is a server, and it is valid.
  abbrev pub Survives : Option (Server fl.F Payload) → Type 0
  Survives o = (s : Server fl.F Payload) × (o ≡ some s) × IsValid s

  survives : (s : Server fl.F Payload) → IsValid s → Survives (some s)
  survives s v = (s, refl, v)

  play-returns :
      (sess : Session fl.F) (m : Manager Payload) (player : String) (msg : Message fl.F)
      (t : Moment) (drawn : ℤ)
      → IsIn player sess.states
      → ¬ (play fl sess m player msg t drawn ≡ none)
  unfolding play
  play-returns sess m player (shot angle) t drawn seated e = absurd (cc)
  play-returns sess m player (land angle x y) t drawn seated e = absurd (cc)
  play-returns sess m player (aim angle) t drawn seated e = ground arith
  play-returns sess m player heartbeat t drawn seated e = absurd (cc)
  play-returns sess m player other t drawn seated e = absurd (cc)

  -- The last lines of `read_ws`, from the server after the message.
  kept-Survives :
      (s : Server fl.F Payload) (rid player : String) (ms : ℤ) (ends : Bool)
      → IsValid s
      → Survives (kept (if ends then some (s, true) else some (touch s rid player ms, false)))
  kept-Survives s rid player ms true v = survives s v
  kept-Survives s rid player ms false v = survives _ (touch-IsValid s rid player ms v)

  read_ws-Survives :
      (s : Server fl.F Payload) (rid player : String) (msg : Message fl.F) (t : Moment) (drawn : ℤ)
      (refreshed : Bool)
      → IsColor drawn
      → IsSeated fl s rid player
      → IsValid s
      → Survives (kept (read_ws fl s rid player msg t drawn refreshed))
  unfolding read_ws
  read_ws-Survives s rid player msg t drawn refreshed d seated v =
      let ends = is_heartbeat msg && not refreshed in
      elim (Option-cases (lookup rid s.sessions)) [
        | inl e ↦ rw (read_ws, e) (kept-Survives s rid player t.ms ends v)
        | inr (sess, e) ↦ elim (Option-cases (play fl sess s.room_mgr player msg t drawn)) [
          | inl e₁ ↦ absurd (
              play-returns sess s.room_mgr player msg t drawn
                (has-IsIn player sess.states (rw e at seated)) e₁)
          | inr ((sess', m), e₁) ↦
              let kept_ok : OkIf fl (some (sess', m)) = rw e₁ at (
                play-Ok fl sess s.room_mgr player msg t drawn d
                  (Each-lookup SessionOk rid sess s.sessions v.sessions e, v.rooms)) in
              rw (read_ws, e, e₁)
                (kept-Survives (record s { sessions = insert rid sess' s.sessions; room_mgr = m })
                  rid player t.ms ends
                  (record {
                    sessions = Each-insert SessionOk rid sess' s.sessions kept_ok.0 v.sessions;
                    rooms = kept_ok.1;
                  }))
        ]
      ]

  build_state-Survives :
      (s : Server fl.F Payload) (rid player : String) (t : Moment) (drawn : String → ℤ)
      → ((p : String) → IsColor (drawn p))
      → IsSeated fl s rid player
      → IsValid s
      → Survives (kept (build_state fl s rid player t drawn))
  unfolding build_state
  build_state-Survives s rid player t drawn d seated v =
      elim (Option-cases (lookup rid s.sessions)) [
        | inl e ↦ rw (build_state, e) (survives s v)
        | inr (sess, e) ↦
            let r = advance fl s.timeout_ms sess s.room_mgr t drawn in
            let ok : Ok r =
              advance-Ok fl s.timeout_ms sess s.room_mgr t drawn d
                (Each-lookup SessionOk rid sess s.sessions v.sessions e, v.rooms) in
            elim (Option-cases (lookup player r.0.states)) [
              | inl e₁ ↦ absurd (
                  advance-IsIn fl s.timeout_ms sess s.room_mgr t drawn player
                    (has-IsIn player sess.states (rw e at seated)) e₁)
              | inr (st, e₁) ↦
                  rw (build_state, e, e₁)
                    (survives (record s { sessions = insert rid r.0 s.sessions; room_mgr = r.1 })
                      (record {
                        sessions = Each-insert SessionOk rid r.0 s.sessions ok.0 v.sessions;
                        rooms = ok.1;
                      }))
            ]
      ]

  after-Survives :
      (s : Server fl.F Payload) (e : Event fl.F Payload)
      → IsSafe fl s e
      → IsValid s
      → Survives (after fl s e)
  unfolding after read_room forget_player end_monitor
  after-Survives s (creates req now ticket draws) safe v =
      survives _ (create_session-IsValid fl s req now ticket draws safe v)
  after-Survives s (opens_game rid player ticket token answer conn ms) _ v =
      survives _ (open_game-IsValid s rid player ticket token answer conn ms v)
  after-Survives s (closes_game rid player) _ v = survives _ (close_game-IsValid s rid player v)
  after-Survives s (says rid player msg t drawn refreshed) safe v =
      read_ws-Survives s rid player msg t drawn refreshed safe.0 safe.1 v
  after-Survives s (pulls rid player t drawn) safe v =
      build_state-Survives s rid player t drawn safe.0 safe.1 v
  after-Survives s (opens_room rid player ticket token answer conn ms) _ v =
      survives _ (open_room-IsValid s rid player ticket token answer conn ms v)
  after-Survives s (closes_room player conn) _ v = survives _ (close_room-IsValid s player conn v)
  after-Survives s (says_in_room player ms is_heartbeat refreshed) _ v =
      survives _ (record { sessions = v.sessions; rooms = v.rooms })
  after-Survives s (gateway req t) fresh v = survives _ (gateway-IsValid s req t v fresh)
  after-Survives s (monitors rid t) _ v = survives _ (monitor-IsValid s rid t v)
  after-Survives s (expels player t) _ v = survives _ (expel-IsValid s player t v)
  after-Survives s (forgets player) _ v =
      survives _ (record { sessions = v.sessions; rooms = v.rooms })
  after-Survives s (ends_monitor rid) _ v =
      survives _ (record { sessions = v.sessions; rooms = v.rooms })

  replay-Survives :
      (s : Server fl.F Payload) (es : List (Event fl.F Payload))
      → AllSafe fl s es
      → IsValid s
      → Survives (replay fl s es)
  unfolding replay
  replay-Survives s [] safe v = survives s v
  replay-Survives s (e ∷ es) safe v =
      let (s', returns, v') = after-Survives s e safe.0 v in
      rw (replay, returns) (replay-Survives s' es (rw returns at safe.1) v')

-- If, at each event of a sequence that starts with the first server, what is drawn is a colour, a
-- new room's key is that of no room and a player whose message or state is handled has a state in
-- the session of its room, where there is one, then the sequence, of sessions created, sockets
-- opened and closed, messages of matches, rooms and the gateway, states built, rounds of the
-- monitors and the single steps of such rounds in any order, runs without a panic on a missing state, and leaves the board of every player of every
-- session valid and the rooms valid.
pub replay-new-Survives :
    (fl : Float) (Payload : Type 0) (timeout tick : ℤ) (es : List (Event fl.F Payload))
    → AllSafe fl (new_server timeout tick) es
    → Survives fl (replay fl (new_server timeout tick) es)
unfolding new_server
replay-new-Survives fl Payload timeout tick es safe =
    replay-Survives fl (new_server timeout tick) es safe
      (record { sessions = tt; rooms = new_manager-IsValid Payload tick })
