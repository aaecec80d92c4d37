-- ===== src/Room/Moves.antt =====
-- Creating, joining and leaving keep the manager valid; so does a submitted command.
use puzzle_bubble.Prelude.{
  ◌+◌, ◌%◌, ◌^◌, ◌≡◌, ◌↔◌, refl, ap, ◌∙◌, inl, inr, arith, ℤ, pos, leb_ℤ, Bool, true, false, not,
  Bool-cases, Option-cases, if◌then◌else◌, none, some, List, length, String, str_eq, eq_iff, lookup,
  insert, has, lookup-insert, has-insert,
}
use text.Mathlib.TextPositions.{eq_refl}
use puzzle_bubble.Room.{
  Manager, Room, Player, CommandEvent, RoomError, Result, ok, err, is_playing, refuses_join,
  new_room, create_room, joined, join_room, submitted, submit_input, current_frame,
}
use puzzle_bubble.Room.Update.{RoomOk, update-SameRoom, submitted-RoomOk, joined-RoomOk}
use puzzle_bubble.Room.Invariant.{IsValid, Touches-IsValid, store-IsValid, must_get-Found}

new_room-has :
    (Payload : Type 0) (room_id player name q : String) (capacity : ℤ)
    → has q (new_room {Payload = Payload} room_id player name capacity).players ≡ str_eq player q
unfolding has
new_room-has Payload room_id player name q capacity = ground arith

module _ {Payload : Type 0} where
  joined-has :
      (r : Room Payload) (player : String) (now : ℤ) (q : String)
      → has q (joined r player now).players ≡ (if str_eq player q then true else has q r.players)
  unfolding joined
  joined-has r player now q =
      let p : Player = record { player_id = player; ready = false } in
      rw ((update-SameRoom (record r { players = insert player p r.players }) now).players)
        (has-insert player q p r.players)

  submitted-players :
      (r : Room Payload) (ev : CommandEvent Payload) → (submitted r ev).players ≡ r.players
  unfolding submitted
  submitted-players r ev = refl

  -- A player that was in no room is filed under `rid`.
  module _ (m : Manager Payload) (v : IsValid m) (player rid : String)
      (homeless : lookup player m.player_room ≡ none) where
    file_under :
        (q j : String)
        → str_eq rid j ≡ false
        → (lookup q (insert player rid m.player_room) ≡ some j) ↔ (lookup q m.player_room ≡ some j)
    file_under q j other =
        ground
          (arith, lookup-insert player q rid m.player_room, eq_iff player q, eq_iff rid j, homeless)

    settled_in :
        (r : Room Payload) (rooms : List (String × Room Payload))
        → RoomOk rid r
        → ((q : String)
            → (lookup q m.player_room ≡ some rid)
              ↔ ((str_eq player q ≡ false) × (has q r.players ≡ true)))
        → has player r.players ≡ true
        → lookup rid rooms ≡ some r
        → ((j : String) → str_eq rid j ≡ false → lookup j rooms ≡ lookup j m.rooms)
        → IsValid (record m { rooms = rooms; player_room = insert player rid m.player_room })
    settled_in r rooms fine members enters here elsewhere =
        Touches-IsValid m _ rid (some r)
          (record {
            here = here;
            elsewhere = elsewhere;
            filed = λ q. ground (
              arith,
              lookup-insert player q rid m.player_room,
              eq_iff player q,
              members q,
              enters,
            );
            filed_else = file_under;
            fine = fine;
            same_tick = refl;
          })
          v

  -- Nobody is filed under a key that no room has.
  unfiled :
      (m : Manager Payload) (rid : String)
      → IsValid m
      → lookup rid m.rooms ≡ none
      → (q : String) → ¬ (lookup q m.player_room ≡ some rid)
  unfiled m rid v fresh q e =
      let (r, at_rid, member) = v.tracks q rid e in ground (arith, fresh, at_rid)

  -- The players of a room are those that are filed under its key.
  pub members_iff :
      (m : Manager Payload) (rid q : String) (r : Room Payload)
      → IsValid m
      → lookup rid m.rooms ≡ some r
      → (lookup q m.player_room ≡ some rid) ↔ (has q r.players ≡ true)
  members_iff m rid q r v at_rid = (
    λ e. let (s, at_rid', member) = v.tracks q rid e in ground (arith, at_rid, at_rid', member),
    v.housed rid q r at_rid,
  )

  new_room-RoomOk :
      (room_id player name : String) (capacity : ℤ)
      → RoomOk room_id (new_room {Payload = Payload} room_id player name capacity)
  new_room-RoomOk room_id player name capacity = record {
    named = refl;
    owner = new_room-has Payload room_id player name player capacity ∙ eq_refl player;
    keyed = (refl, tt);
    capacity = ground arith;
    bounded = omega arith;
    numbered = tt;
    seq = omega arith;
  }

  -- If no room has the new key, `CreateRoom` keeps the manager valid.
  pub create_room-IsValid :
      (m : Manager Payload) (player name : String) (capacity : ℤ) (room_id : String)
      → IsValid m
      → lookup room_id m.rooms ≡ none
      → IsValid (create_room m player name capacity room_id).0
  unfolding create_room
  create_room-IsValid m player name capacity room_id v fresh =
      elim (Option-cases (lookup player m.player_room)) [
        | inr (rid, e) ↦ rw (e, create_room) v
        | inl e ↦
            let r = new_room room_id player name capacity in
            rw (e, create_room)
              (settled_in m v player room_id e r (insert room_id r m.rooms)
                (new_room-RoomOk room_id player name capacity)
                (λ q. (
                  λ filed. absurd (unfiled m room_id v fresh q filed),
                  λ (other, member).
                      absurd (
                        clash q other (new_room-has Payload room_id player name q capacity) member),
                ))
                (new_room-has Payload room_id player name player capacity ∙ eq_refl player)
                (rw (lookup-insert room_id room_id, eq_refl room_id))
                (λ j other. rw (lookup-insert room_id j, other)))
      ]
    where
      clash : (q : String) {b : Bool} → str_eq player q ≡ false → b ≡ str_eq player q → b ≡ true → ⊥
      clash q other same member = cc

  join-cases {ℓ} :
      (P : Manager Payload × Result (Room Payload) → Type ℓ) (m : Manager Payload)
      (player rid : String) (now : ℤ)
      → ((e : RoomError) → P (m, err e))
      → ((r : Room Payload)
          → lookup player m.player_room ≡ none
          → lookup rid m.rooms ≡ some r
          → refuses_join r.state ≡ false
          → leb_ℤ r.max_players (pos (length r.players)) ≡ false
          → P (
            record m {
              rooms = insert rid (joined r player now) m.rooms;
              player_room = insert player rid m.player_room;
            },
            ok (joined r player now),
          ))
      → P (join_room m player rid now)
  unfolding join_room
  join-cases P m player rid now refused enters = elim (Option-cases (lookup player m.player_room)) [
    | inr (other, e) ↦ rw (e, join_room) (refused _)
    | inl e ↦ elim (Option-cases (lookup rid m.rooms)) [
      | inl e₁ ↦ rw (e, join_room, e₁) (refused _)
      | inr (r, e₁) ↦ elim (Bool-cases (refuses_join r.state)) [
        | inl e₂ ↦ rw (e, join_room, e₁, e₂) (refused _)
        | inr e₂ ↦ elim (Bool-cases (leb_ℤ r.max_players (pos (length r.players)))) [
          | inl e₃ ↦ rw (e, join_room, e₁, e₂, e₃) (refused _)
          | inr e₃ ↦ rw (e, join_room, e₁, e₂, e₃) (enters r e e₁ e₂ e₃)
        ]
      ]
    ]
  ]

  pub join_room-IsValid :
      (m : Manager Payload) (player rid : String) (now : ℤ)
      → IsValid m
      → IsValid (join_room m player rid now).0
  join_room-IsValid m player rid now v =
      join-cases (λ o. IsValid o.0) m player rid now (λ e. v)
        λ r homeless at_rid open_room space.
          settled_in m v player rid homeless (joined r player now) _
            (joined-RoomOk rid r player now space (v.in_order rid r at_rid))
            (λ q. ground (
              arith,
              joined-has r player now q,
              members_iff m rid q r v at_rid,
              eq_iff player q,
              homeless,
            ))
            (rw (joined-has r player now player, eq_refl player))
            (rw (lookup-insert rid rid, eq_refl rid)) (λ j other. rw (lookup-insert rid j, other))

  pub submit_input-IsValid :
      (m : Manager Payload) (player cmd : String) (payload : Payload) (now ms : ℤ)
      → IsValid m
      → IsValid (submit_input m player cmd payload now ms).0
  unfolding submit_input
  submit_input-IsValid m player cmd payload now ms v = elim (must_get-Found m player v) [
    | inl (e, _) ↦ rw (e, submit_input) v
    | inr (rid, r, e, at_player, at_rid, member) ↦ elim (Bool-cases (not (is_playing r.state))) [
      | inl out ↦ rw (e, submit_input, out) v
      | inr going ↦ elim (Bool-cases (str_eq cmd "")) [
        | inl blank ↦ rw (e, submit_input, going, blank) v
        | inr given ↦
            let ev : CommandEvent Payload = record {
              seq = (r.cmd_seq + 1) % 2 ^ 64;
              frame = current_frame m r now;
              player_id = player;
              cmd = cmd;
              payload = payload;
              ts = ms;
            } in
            rw (e, submit_input, going, given)
              (store-IsValid m v rid r (submitted r ev) at_rid
                (submitted-RoomOk rid r ev refl (v.in_order rid r at_rid))
                (λ q. ap (has q) (submitted-players r ev)))
      ]
    ]
  ]
