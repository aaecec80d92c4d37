-- ===== src/Mono/Outcome.antt =====
-- Who wins a match.
use puzzle_bubble.Prelude.{
  ◌≡◌, refl, sym, ◌∙◌, ◌⊎◌, inl, inr, arith, ◌==◌, ltb, true, false, Bool-cases, Option-cases, none,
  some, List, [], ◌∷◌, ◌∈◌, length, String, str_eq, eq_iff, lookup, has, insert, lookup-insert,
  lookup-erase, not, ◌||◌,
}
use puzzle_bubble.Gameplay.State.{PlayerState, has_lost}
use text.Mathlib.TextPositions.{eq_refl}
use puzzle_bubble.Mono.{
  losers, waiting, finish, forget, Names, Room, Server, is_started, alive, resolve_room_outcome,
}

-- A list of one name holds no other.
only_one : (ps : List String) (a b : String) → (length ps == 1) ≡ true → a ∈ ps → b ∈ ps → a ≡ b
only_one [] a b e ha hb = absurd ha
only_one (p ∷ []) a b e (inl ha) (inl hb) = ha ∙ sym hb
only_one (p ∷ []) a b e (inl ha) (inr hb) = absurd hb
only_one (p ∷ []) a b e (inr ha) hb = absurd ha
only_one (p ∷ q ∷ ps) a b e ha hb = absurd (ground arith)

module _ {F : Type 0} where
  -- A player of the room whose board is not lost.
  abbrev pub IsAlive : Names → List (String × PlayerState F) → String → Type 0
  IsAlive ps states p =
      (has p ps ≡ true)
      × (st : PlayerState F) × (lookup p states ≡ some st)
      × (has_lost st.status ≡ false)

  pub alive_iff :
      (ps : Names) (states : List (String × PlayerState F)) (p : String)
      → IsAlive ps states p
      → p ∈ alive ps states
  unfolding alive has
  alive_iff [] states p (h, st, e, live) = absurd (cc)
  alive_iff ((q, u) ∷ ps) states p (h, st, e, live) = elim (Bool-cases (str_eq q p)) [
    | inl same ↦
        let at_q : lookup q states ≡ some st = rw ((eq_iff q p).0 same) e in
        rw (alive, at_q, live) (inl (sym ((eq_iff q p).0 same)))
    | inr other ↦
        let later = alive_iff ps states p (ground (arith, h, other), st, e, live) in
        elim (Option-cases (lookup q states)) [
          | inl gone ↦ rw (alive, gone) later
          | inr (t, there) ↦ elim (Bool-cases (has_lost t.status)) [
            | inl lost ↦ rw (alive, there, lost) later
            | inr lives ↦ rw (alive, there, lives) (inr later)
          ]
        ]
  ]

  pub alive_only :
      (ps : Names) (states : List (String × PlayerState F)) (p : String)
      → p ∈ alive ps states
      → IsAlive ps states p
  unfolding alive has
  alive_only [] states p m = absurd m
  alive_only ((q, u) ∷ ps) states p m = elim (Option-cases (lookup q states)) [
    | inl gone ↦ further (alive_only ps states p (rw (alive, gone) at m))
    | inr (t, there) ↦ elim (Bool-cases (has_lost t.status)) [
      | inl lost ↦ further (alive_only ps states p (rw (alive, there, lost) at m))
      | inr lives ↦ elim (member t there lives m) [
        | inl e ↦ rw e (ground (arith, eq_iff q q), t, there, lives)
        | inr later ↦ further (alive_only ps states p later)
      ]
    ]
  ]
    where
      member :
          (t : PlayerState F)
          → lookup q states ≡ some t
          → has_lost t.status ≡ false
          → p ∈ alive ((q, u) ∷ ps) states
          → (p ≡ q) ⊎ (p ∈ alive ps states)
      member t there lives h = rw (alive, there, lives) at h

      further : IsAlive ps states p → IsAlive ((q, u) ∷ ps) states p
      further (h, st, e, live) = (ground (arith, h), st, e, live)

  abbrev reopened : Server F → String → Room → String → Server F
  reopened s rid room winner =
      forget
        (record s {
          rooms = insert rid (record room { phase = waiting; winner_id = winner }) s.rooms;
        })
        rid

  -- The room waits again under the winner's name, nothing of its match is kept, and every other
  -- room is as it was.
  abbrev pub WaitsAgain : Server F → Server F → String → Room → String → Type 0
  WaitsAgain s s' rid room winner =
      (lookup rid s'.rooms ≡ some (record room { phase = waiting; winner_id = winner }))
      × (lookup rid s'.game_states ≡ none)
      × (lookup rid s'.room_tickets ≡ none)
      × (lookup rid s'.room_next_add ≡ none)
      × ((j : String) → str_eq rid j ≡ false → lookup j s'.rooms ≡ lookup j s.rooms)

  waits_again :
      (s : Server F) (rid : String) (room : Room) (winner : String)
      → WaitsAgain s (reopened s rid room winner) rid room winner
  waits_again s rid room winner =
      let after = record room { phase = waiting; winner_id = winner } in
      (
        rw (lookup-insert rid rid after s.rooms, eq_refl rid) refl,
        rw (lookup-erase rid rid s.game_states, eq_refl rid) refl,
        rw (lookup-erase rid rid s.room_tickets, eq_refl rid) refl,
        rw (lookup-erase rid rid s.room_next_add, eq_refl rid) refl,
        λ j other. rw (lookup-insert rid j after s.rooms, other) refl,
      )

  -- If a match is over, two players or more were in it, the winner is a player of the room whose
  -- board is not lost, and the board of every other player is lost or missing. Afterwards the room
  -- waits again under the winner's name, its boards, tickets and due layer are gone, every other
  -- room is as it was, and the boards that are returned are those of the match, finished.
  pub resolve_room_outcome-winner :
      (s : Server F) (rid winner : String) (last : List (String × PlayerState F))
      → (resolve_room_outcome s rid).1 ≡ some (winner, last)
      → (room : Room) × (states : List (String × PlayerState F)) × (lookup rid s.rooms ≡ some room)
        × (lookup rid s.game_states ≡ some states)
        × (is_started room.phase ≡ true)
        × (ltb (length room.players) 2 ≡ false)
        × IsAlive room.players states winner
        × ((p : String) → IsAlive room.players states p → p ≡ winner)
        × (last ≡ finish winner states)
        × WaitsAgain s (resolve_room_outcome s rid).0 rid room winner
  unfolding resolve_room_outcome
  resolve_room_outcome-winner s rid winner last h = elim (Option-cases (lookup rid s.rooms)) [
    | inl e ↦ absurd (ground (arith, h))
    | inr (room, e) ↦ elim (Option-cases (lookup rid s.game_states)) [
      | inl e' ↦ absurd (ground (arith, h))
      | inr (states, e') ↦
          let first = won room states e e' in
          (
            room,
            states,
            e,
            e',
            ground (arith, h),
            ground (arith, h),
            alive_only room.players states winner first.0,
            λ p live.
                only_one (alive room.players states) p winner first.1
                  (alive_iff room.players states p live) first.0,
            first.2,
            rw first.3 (waits_again s rid room winner),
          )
    ]
  ]
    where
      won :
          (room : Room) (states : List (String × PlayerState F))
          → lookup rid s.rooms ≡ some room
          → lookup rid s.game_states ≡ some states
          → (winner ∈ alive room.players states)
            × ((length (alive room.players states) == 1) ≡ true)
            × (last ≡ finish winner states)
            × ((resolve_room_outcome s rid).0 ≡ reopened s rid room winner)
      won room states e e' = split (alive room.players states) refl
        where
          split :
              (ps : List String)
              → alive room.players states ≡ ps
              → (winner ∈ alive room.players states)
                × ((length (alive room.players states) == 1) ≡ true)
                × (last ≡ finish winner states)
                × ((resolve_room_outcome s rid).0 ≡ reopened s rid room winner)
          split [] is = absurd (ground (arith, h, e, e', is))
          split (w ∷ rest) is =
              let same : winner ≡ w = ground (arith, h, e, e', is) in
              let going : is_started room.phase ≡ true = ground (arith, h, e) in
              let many : ltb (length room.players) 2 ≡ false = ground (arith, h, e, e') in
              let over : ((losers room.players states == 0)
                    || not (length (alive room.players states) == 1))
                  ≡ false =
                ground (arith, h, e, e') in
              (
                rw is (inl same),
                ground (arith, h, e, e', is),
                ground (arith, h, e, e', is),
                rw same (rw (resolve_room_outcome, e, going, e', many, over, is) refl),
              )
