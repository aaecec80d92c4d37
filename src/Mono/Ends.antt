-- ===== src/Mono/Ends.antt =====
-- When a match ends.
use puzzle_bubble.Prelude.{
  ◌<◌, ◌≡◌, refl, sym, ◌∙◌, inl, inr, arith, ◌==◌, ltb, true, false, Bool-cases, Option-cases, some,
  List, [], ◌∷◌, ◌∈◌, Distinct, length, String, str_eq, eq_iff, lookup, has, IsMap,
}
use puzzle_bubble.Gameplay.State.{PlayerState, has_lost}
use puzzle_bubble.Mono.{
  Names, Room, Server, is_started, alive, losers, finish, resolve_room_outcome,
}
use puzzle_bubble.Mono.Outcome.{IsAlive, alive_iff, alive_only}

-- A list without repetitions whose only member is `w`.
alone :
    (xs : List String) (w : String)
    → Distinct xs
    → w ∈ xs
    → ((q : String) → q ∈ xs → q ≡ w)
    → xs ≡ w ∷ []
alone [] w d m only = absurd m
alone (x ∷ []) w d m only = rw (only x (inl refl)) refl
alone (x ∷ y ∷ xs) w d m only =
    absurd (d.0 (inl (only x (inl refl) ∙ sym (only y (inr (inl refl))))))

module _ {F : Type 0} where
  alive-Distinct :
      (ps : Names) (states : List (String × PlayerState F)) → IsMap ps → Distinct (alive ps states)
  unfolding alive
  alive-Distinct [] states v = tt
  alive-Distinct ((p, u) ∷ ps) states v =
      let rest = alive-Distinct ps states v.1 in
      elim (Option-cases (lookup p states)) [
        | inl gone ↦ rw (alive, gone) rest
        | inr (st, there) ↦ elim (Bool-cases (has_lost st.status)) [
          | inl lost ↦ rw (alive, there, lost) rest
          | inr lives ↦
              rw (alive, there, lives)
                (
                  λ m.
                      let (member, _, _, _) = alive_only ps states p m in
                      absurd (ground (arith, member, v.0)),
                  rest,
                )
        ]
      ]

  -- A player of the room whose board is lost.
  abbrev pub IsLost : Names → List (String × PlayerState F) → String → Type 0
  IsLost ps states p =
      (has p ps ≡ true)
      × (st : PlayerState F) × (lookup p states ≡ some st)
      × (has_lost st.status ≡ true)

  losers_pos :
      (ps : Names) (states : List (String × PlayerState F)) (p : String)
      → IsLost ps states p
      → 0 < losers ps states
  unfolding losers has
  losers_pos [] states p (h, st, e, lost) = absurd (cc)
  losers_pos ((q, u) ∷ ps) states p (h, st, e, lost) = elim (Bool-cases (str_eq q p)) [
    | inl same ↦
        let at_q : lookup q states ≡ some st = rw ((eq_iff q p).0 same) e in
        rw (losers, at_q, lost) (omega arith)
    | inr other ↦
        let later = losers_pos ps states p (ground (arith, h, other), st, e, lost) in
        elim (Option-cases (lookup q states)) [
          | inl gone ↦ rw (losers, gone) later
          | inr (t, there) ↦ elim (Bool-cases (has_lost t.status)) [
            | inl lost' ↦ rw (losers, there, lost') (omega arith)
            | inr lives ↦ rw (losers, there, lives) later
          ]
        ]
  ]

  -- In a match of two players or more, each listed once, as soon as one player has lost and one
  -- other is the only one whose board is there and not lost, the match is over: that player is
  -- the winner, and the boards are returned finished.
  pub resolve_room_outcome-ends :
      (s : Server F) (rid winner loser : String) (room : Room)
      (states : List (String × PlayerState F))
      → lookup rid s.rooms ≡ some room
      → lookup rid s.game_states ≡ some states
      → is_started room.phase ≡ true
      → ltb (length room.players) 2 ≡ false
      → IsMap room.players
      → IsLost room.players states loser
      → IsAlive room.players states winner
      → ((p : String) → IsAlive room.players states p → p ≡ winner)
      → (resolve_room_outcome s rid).1 ≡ some (winner, finish winner states)
  unfolding resolve_room_outcome
  resolve_room_outcome-ends s rid winner loser room states e e' going many v lost lives only =
      let left : alive room.players states ≡ winner ∷ [] =
        alone (alive room.players states) winner (alive-Distinct room.players states v)
          (alive_iff room.players states winner lives)
          (λ q m. only q (alive_only room.players states q m)) in
      let one : (length (alive room.players states) == 1) ≡ true = rw left refl in
      let some_lost : (losers room.players states == 0) ≡ false =
        ground (arith, losers_pos room.players states loser lost) in
      rw (resolve_room_outcome, e, going, e', many, some_lost, one, left) refl
