-- ===== src/Room/Leave.antt =====
-- `LeaveRoom` keeps the manager valid: the room passes to one of the others, or it goes.
use puzzle_bubble.Prelude.{
  ℕ, ◌≡◌, ◌↔◌, refl, inl, inr, arith, ℤ, ◌==◌, true, false, Bool-cases, if◌then◌else◌, none, some,
  List, [], ◌∷◌, length, String, str_eq, eq_iff, lookup, insert, erase, has, lookup-insert,
  lookup-erase, has-erase,
}
use text.Mathlib.TextPositions.{eq_refl}
use puzzle_bubble.Room.{Manager, Room, Player, heir, without, left, leave_room}
use puzzle_bubble.Room.Update.{update-SameRoom, left-RoomOk}
use puzzle_bubble.Room.Invariant.{IsValid, Touches-IsValid, must_get-Found}
use puzzle_bubble.Room.Moves.{members_iff}

empty_has : (q : String) (ps : List (String × Player)) → (length ps == 0) ≡ true → has q ps ≡ false
unfolding has
empty_has q [] h = refl
empty_has q (p ∷ ps) h = absurd (ground arith)

module _ {Payload : Type 0} where
  pub left-has :
      (r : Room Payload) (player : String) (first : ℕ) (now : ℤ) (q : String)
      → has q (left r player first now).players
        ≡ (if str_eq player q then false else has q r.players)
  unfolding left without
  left-has r player first now q =
      let r' = without r player in
      rw ((update-SameRoom (record r' { owner_id = heir r' player first }) now).players)
        (has-erase player q r.players)

  without-players :
      (r : Room Payload) (player : String) → (without r player).players ≡ erase player r.players
  unfolding without
  without-players r player = refl

  module _ (m : Manager Payload) (v : IsValid m) (player rid : String) (r : Room Payload)
      (at_player : lookup player m.player_room ≡ some rid)
      (at_rid : lookup rid m.rooms ≡ some r) where
    gone :
        (q j : String)
        → str_eq rid j ≡ false
        → (lookup q (erase player m.player_room) ≡ some j) ↔ (lookup q m.player_room ≡ some j)
    gone q j other =
        ground
          (arith, lookup-erase player q m.player_room, eq_iff player q, eq_iff rid j, at_player)

    -- The last player is gone, and the room with it.
    closes-IsValid :
        (length (erase player r.players) == 0) ≡ true
        → IsValid (record m { rooms = erase rid m.rooms; player_room = erase player m.player_room })
    closes-IsValid last =
        Touches-IsValid m _ rid none
          (record {
            here = rw (lookup-erase rid rid, eq_refl rid);
            elsewhere = λ j other. rw (lookup-erase rid j, other);
            filed = λ q. (
              λ e. ground (
                arith,
                lookup-erase player q m.player_room,
                members_iff m rid q r v at_rid,
                has-erase player q r.players,
                empty_has q (erase player r.players) last,
                e,
              ),
              λ none_in. absurd none_in,
            );
            filed_else = gone;
            fine = tt;
            same_tick = refl;
          })
          v

    -- Others stay.
    stays-IsValid :
        (first : ℕ) (now : ℤ)
        → (length (erase player r.players) == 0) ≡ false
        → IsValid (record m {
          rooms = insert rid (left r player first now) m.rooms;
          player_room = erase player m.player_room;
        })
    stays-IsValid first now more =
        Touches-IsValid m _ rid (some (left r player first now))
          (record {
            here = rw (lookup-insert rid rid, eq_refl rid);
            elsewhere = λ j other. rw (lookup-insert rid j, other);
            filed = λ q. ground (
              arith,
              lookup-erase player q m.player_room,
              members_iff m rid q r v at_rid,
              left-has r player first now q,
            );
            filed_else = gone;
            fine = left-RoomOk rid r player first now (ground arith) (v.in_order rid r at_rid);
            same_tick = refl;
          })
          v

  pub leave_room-IsValid :
      (m : Manager Payload) (player : String) (first : ℕ) (now : ℤ)
      → IsValid m
      → IsValid (leave_room m player first now).0
  unfolding leave_room
  leave_room-IsValid m player first now v = elim (must_get-Found m player v) [
    | inl (e, _) ↦ rw (e, leave_room) v
    | inr (rid, r, e, at_player, at_rid, member) ↦
        let named = (v.in_order rid r at_rid).named in
        elim (Bool-cases (length (erase player r.players) == 0)) [
          | inl last ↦
              rw (e, leave_room, without-players r player, last, named)
                (closes-IsValid m v player rid r at_player at_rid last)
          | inr more ↦
              rw (e, leave_room, without-players r player, more)
                (stays-IsValid m v player rid r at_player at_rid first now more)
        ]
  ]

  -- A departure takes the player's entry, and no one else's.
  pub leave_room-player_room :
      (m : Manager Payload) (player : String) (first : ℕ) (now : ℤ) (q : String)
      → IsValid m
      → lookup q (leave_room m player first now).0.player_room
        ≡ (if str_eq player q then none else lookup q m.player_room)
  unfolding leave_room
  leave_room-player_room m player first now q v = elim (must_get-Found m player v) [
    | inl (e, at_player) ↦ rw (e, leave_room) (ground (arith, eq_iff player q, at_player))
    | inr (rid, r, e, at_player, at_rid, member) ↦
        elim (Bool-cases (length (without r player).players == 0)) [
          | inl last ↦ rw (e, leave_room, last) (lookup-erase player q m.player_room)
          | inr more ↦ rw (e, leave_room, more) (lookup-erase player q m.player_room)
        ]
  ]
