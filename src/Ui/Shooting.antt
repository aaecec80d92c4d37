-- ===== src/Ui/Shooting.antt =====
-- A shot touches the board of its player only.
use puzzle_bubble.Prelude.{
  ◌≡◌, ◌⊎◌, refl, sym, ap, ◌∙◌, inl, inr, arith, true, false, Bool-cases, Option-cases,
  if◌then◌else◌, Option, none, some, List, String, str_eq, eq_iff, lookup, insert, has,
  lookup-insert, lookup_of_has, lookup_of_has_not,
}
use mathlib.Core.Path.{subst}
use text.Mathlib.TextPositions.{eq_refl}
use puzzle_bubble.Gameplay.State.{PlayerState}
use puzzle_bubble.Gameplay.Shots.{Result, ok, err, Error}
use puzzle_bubble.Ui.{
  RoomItem, Server, done, refused, room_not_found, room_not_playing, player_not_in_room, states_of,
  ensure_player_game_state, is_in_room, with_state,
}

Result-cases : {A : Type 0} (r : Result A) → ((a : A) × (r ≡ ok a)) ⊎ ((e : Error) × (r ≡ err e))
Result-cases (ok a) = inl (a, refl)
Result-cases (err e) = inr (e, refl)

is_own : {A : Type 0} (p : String) (a b : A) → (if str_eq p p then a else b) ≡ a
is_own p a b = rw (eq_refl p) refl

module _ {F : Type 0} where
  abbrev pub or_fresh : PlayerState F → Option (PlayerState F) → PlayerState F
  or_fresh fresh none = fresh
  or_fresh fresh (some st) = st

  -- The player's board in the room, or the one it is given now.
  abbrev pub board_or : Server F → String → String → PlayerState F → PlayerState F
  board_or s rid player fresh = or_fresh fresh (lookup player (states_of s rid))

  -- All is as it was but the player's board in the room, which is `st`.
  abbrev pub IsBoard : Server F → Server F → String → String → PlayerState F → Type 0
  IsBoard s s' rid player st =
      ((q : String)
        → lookup q (states_of s' rid)
          ≡ (if str_eq player q then some st else lookup q (states_of s rid)))
      × ((j : String) → str_eq rid j ≡ false → lookup j s'.game_states ≡ lookup j s.game_states)
      × (s'.rooms ≡ s.rooms)
      × (s'.player_room ≡ s.player_room)
      × (s'.room_members ≡ s.room_members)

  put-IsBoard :
      (s : Server F) (rid player : String) (st : PlayerState F)
      → IsBoard s
          (record s { game_states = insert rid (insert player st (states_of s rid)) s.game_states })
          rid
          player
          st
  put-IsBoard s rid player st = (
    λ q.
        rw
          (
            states_of,
            lookup-insert rid rid (insert player st (states_of s rid)) s.game_states,
            eq_refl rid,
          )
          (lookup-insert player q st (states_of s rid)),
    λ j other.
        rw (lookup-insert rid j (insert player st (states_of s rid)) s.game_states, other) refl,
    refl,
    refl,
    refl,
  )

  ensure-IsBoard :
      (s : Server F) (rid player : String) (fresh : PlayerState F)
      → IsBoard s
          (ensure_player_game_state s rid player fresh)
          rid
          player
          (board_or s rid player fresh)
  unfolding ensure_player_game_state
  ensure-IsBoard s rid player fresh = elim (Bool-cases (has player (states_of s rid))) [
    | inl held ↦
        let (st, there) = lookup_of_has player (states_of s rid) held in
        subst (λ b. IsBoard s (ensure_player_game_state s rid player fresh) rid player b)
          (sym (ap (or_fresh fresh) there))
          (rw (ensure_player_game_state, held)
            (λ q. itself player q st (states_of s rid) there, λ j other. refl, refl, refl, refl))
    | inr lacking ↦
        subst (λ b. IsBoard s (ensure_player_game_state s rid player fresh) rid player b)
          (sym (ap (or_fresh fresh) (lookup_of_has_not player (states_of s rid) lacking)))
          (rw (ensure_player_game_state, lacking) (put-IsBoard s rid player fresh))
  ]
    where
      itself :
          (p q : String) (st : PlayerState F) (states : List (String × PlayerState F))
          → lookup p states ≡ some st
          → lookup q states ≡ (if str_eq p q then some st else lookup q states)
      itself p q st states there = ground (arith, eq_iff p q, there)

  then-IsBoard :
      (s s₁ s₂ : Server F) (rid player : String) (b st : PlayerState F)
      → IsBoard s s₁ rid player b
      → IsBoard s₁ s₂ rid player st
      → IsBoard s s₂ rid player st
  then-IsBoard s s₁ s₂ rid player b st (q₁, j₁, r₁, p₁, m₁) (q₂, j₂, r₂, p₂, m₂) = (
    λ q. q₂ q ∙ after q (lookup q (states_of s₁ rid)) (q₁ q),
    λ j other. j₂ j other ∙ j₁ j other,
    r₂ ∙ r₁,
    p₂ ∙ p₁,
    m₂ ∙ m₁,
  )
    where
      after :
          (q : String) (o : Option (PlayerState F))
          → o ≡ (if str_eq player q then some b else lookup q (states_of s rid))
          → (if str_eq player q then some st else o)
            ≡ (if str_eq player q then some st else lookup q (states_of s rid))
      after q o e = elim (Bool-cases (str_eq player q)) [
        | inl same ↦ rw same refl
        | inr other ↦ rw (e, other) refl
      ]

  -- The room plays, and the player is in it.
  abbrev pub MayShoot : Server F → String → String → Type 0
  MayShoot s rid player =
      ((room : RoomItem) × (lookup rid s.rooms ≡ some room) × (str_eq room.state "playing" ≡ true))
      × (is_in_room s rid player ≡ true)

  -- A shot, whichever call of the engine it is, is done or refused by the engine only if the room
  -- plays and the player is in it. If it is done, the player's board in the room is what the engine
  -- makes of the board it had, or of a new one; if the engine refuses it, it is that board; and
  -- every other board, room and member is as it was. Otherwise the answer is that there is no such
  -- room, that it does not play, or that the player is not in it, and nothing has changed.
  pub with_state_lem :
      (s : Server F) (rid player : String) (fresh : PlayerState F)
      (call : Option (PlayerState F) → Result (PlayerState F))
      → let out = with_state s rid player fresh call in
        let board = board_or s rid player fresh in
        (MayShoot s rid player
          × (((out.1 ≡ done)
                × (st : PlayerState F) × (call (some board) ≡ ok st)
                × IsBoard s out.0 rid player st)
              ⊎ ((e : Error) × (out.1 ≡ refused e)
                  × (call (some board) ≡ err e)
                  × IsBoard s out.0 rid player board)))
        ⊎ (((out.1 ≡ room_not_found) ⊎ (out.1 ≡ room_not_playing) ⊎ (out.1 ≡ player_not_in_room))
            × (out.0 ≡ s))
  unfolding with_state
  with_state_lem s rid player fresh call = elim (Option-cases (lookup rid s.rooms)) [
    | inl e ↦ rw (with_state, e) (inr (inl refl, refl))
    | inr (room, e) ↦ elim (Bool-cases (str_eq room.state "playing")) [
      | inr waits ↦ rw (with_state, e, waits) (inr (inr (inl refl), refl))
      | inl plays ↦ elim (Bool-cases (is_in_room s rid player)) [
        | inr elsewhere ↦ rw (with_state, e, plays, elsewhere) (inr (inr (inr refl), refl))
        | inl here ↦
            let s' = ensure_player_game_state s rid player fresh in
            let board = board_or s rid player fresh in
            let given = ensure-IsBoard s rid player fresh in
            let held : lookup player (states_of s' rid) ≡ some board =
              given.0 player ∙ is_own player (some board) (lookup player (states_of s rid)) in
            elim (Result-cases (call (some board))) [
              | inl (st, made) ↦
                  rw (with_state, e, plays, here, held, made)
                    (inl (
                      ((room, refl, plays), refl),
                      inl (
                        refl,
                        st,
                        refl,
                        then-IsBoard s s'
                            (record s' {
                              game_states =
                                  insert rid (insert player st (states_of s' rid)) s'.game_states;
                            })
                            rid player board st given (put-IsBoard s' rid player st),
                      ),
                    ))
              | inr (error, failed) ↦
                  rw (with_state, e, plays, here, held, failed)
                    (inl (((room, refl, plays), refl), inr (error, refl, refl, given)))
            ]
      ]
    ]
  ]
