-- ===== src/GameService/Steps.antt =====
-- A session that is created, a message that is played and a round of ticks keep the boards valid.
use puzzle_bubble.Prelude.{
  ℕ, suc, ◌==◌, inl, inr, ℤ, Bool-cases, Option-cases, Option, none, some, List, [], ◌∷◌, length,
  String, str_eq, lookup, insert, Each-insert, Each-map_values,
}
use puzzle_bubble.Gameplay.Float.{Float}
use puzzle_bubble.Gameplay.State.{Draws, new_initial_state}
use puzzle_bubble.Gameplay.Shots.{clamp_aim}
use puzzle_bubble.Gameplay.Shots.Invariant as Board
use puzzle_bubble.Gameplay.Shots.Invariant.{IsColor}
use puzzle_bubble.Gameplay.Shots.History.{
  ticks, begins, lands, step-IsValid, AreColors, new_initial_state-IsValid,
}
use puzzle_bubble.Room.{Manager}
use puzzle_bubble.GameService.{Session, Server, Moment, names, seat, new_session, create_session}
use puzzle_bubble.GameService.Play.{Message, shot, land, aim, heartbeat, other, beat, play, advance}
use puzzle_bubble.GameService.Valid.{
  SessionOk, IsValid, Ok, act-Ok, reaim-IsValid, resolve_outcome-Ok, timeouts-Ok,
}

module _ (fl : Float) where
  seat-Ok :
      (sess : Session fl.F) (ps : List String) (i : ℕ) (now : ℤ) (ticket : ℕ → String)
      (draws : ℕ → Draws × ℤ)
      → ((j : ℕ) → AreColors (draws j).0)
      → SessionOk sess
      → SessionOk (seat fl sess ps i now ticket draws)
  unfolding seat
  seat-Ok sess [] i now ticket draws drawn v = v
  seat-Ok sess (p ∷ ps) i now ticket draws drawn v =
      seat-Ok
        (record sess {
          players = insert p tt sess.players;
          states = insert p (new_initial_state fl (draws i).0 (draws i).1) sess.states;
          last_heartbeat = insert p now sess.last_heartbeat;
          tickets = insert p (ticket i) sess.tickets;
        })
        ps (suc i) now ticket draws drawn
        (Each-insert Board.IsValid p _ sess.states
          (new_initial_state-IsValid fl (draws i).0 (draws i).1 (drawn i)) v)

module _ (fl : Float) {Payload : Type 0} where
  pub create_session-IsValid :
      (s : Server fl.F Payload) (req : Option (String × List (Option String))) (now : ℤ)
      (ticket : ℕ → String) (draws : ℕ → Draws × ℤ)
      → ((j : ℕ) → AreColors (draws j).0)
      → IsValid s
      → IsValid (create_session fl s req now ticket draws).0
  unfolding create_session
  create_session-IsValid s none now ticket draws drawn v = v
  create_session-IsValid s (some (rid, items)) now ticket draws drawn v =
      elim (Bool-cases (str_eq rid "")) [
        | inl e ↦ rw (create_session, e) v
        | inr e ↦ elim (Bool-cases (length items == 0)) [
          | inl e₁ ↦ rw (create_session, e, e₁) v
          | inr e₁ ↦ elim (Bool-cases (length (names items) == 0)) [
            | inl e₂ ↦ rw (create_session, e, e₁, e₂) v
            | inr e₂ ↦
                rw (create_session, e, e₁, e₂)
                  (record {
                    sessions =
                        Each-insert SessionOk rid _ s.sessions
                          (seat-Ok fl (new_session fl rid) (names items) 0 now ticket draws drawn
                            tt)
                          v.sessions;
                    rooms = v.rooms;
                  })
          ]
        ]
      ]

  -- What a message leaves behind, unless it panics.
  abbrev pub OkIf : Option (Session fl.F × Manager Payload) → Type 0
  OkIf none = Unit
  OkIf (some p) = Ok p

  pub play-Ok :
      (sess : Session fl.F) (m : Manager Payload) (player : String) (msg : Message fl.F)
      (t : Moment) (drawn : ℤ)
      → IsColor drawn
      → Ok (sess, m)
      → OkIf (play fl sess m player msg t drawn)
  unfolding play
  play-Ok sess m player (shot angle) t drawn d (v, w) = (
    act-Ok (beat sess player t.ms) player _ (λ st. step-IsValid fl st (begins angle t.later) tt) v,
    w,
  )
  play-Ok sess m player (land angle x y) t drawn d (v, w) = resolve_outcome-Ok _ m t (
    act-Ok (beat sess player t.ms) player _ (λ st. step-IsValid fl st (lands angle x y drawn) d) v,
    w,
  )
  play-Ok sess m player (aim angle) t drawn d (v, w) =
      elim (Option-cases (lookup player sess.states)) [
        | inl e ↦ rw (play, e) tt
        | inr (st, e) ↦
            rw (play, e)
              (
                act-Ok (beat sess player t.ms) player _
                    (λ st. reaim-IsValid st (clamp_aim fl angle)) v,
                w,
              )
      ]
  play-Ok sess m player heartbeat t drawn d ok = ok
  play-Ok sess m player other t drawn d ok = ok

  pub advance-Ok :
      (timeout : ℤ) (sess : Session fl.F) (m : Manager Payload) (t : Moment) (drawn : String → ℤ)
      → ((p : String) → IsColor (drawn p))
      → Ok (sess, m)
      → Ok (advance fl timeout sess m t drawn)
  unfolding advance
  advance-Ok timeout sess m t drawn d ok =
      let (v, w) = timeouts-Ok timeout sess m t ok in
      (
        Each-map_values Board.IsValid _ _ (λ p st. step-IsValid fl st (ticks t.ms (drawn p)) (d p))
            v,
        w,
      )
