-- ===== src/Room/Invariant.antt =====
-- The two maps of the manager agree, and every room is in order, after every operation.
use puzzle_bubble.Prelude.{
  ◌<◌, ◌≡◌, ◌↔◌, refl, sym, ap, ◌∙◌, ◌⊎◌, inl, inr, arith, ℤ, ltb, Bool, true, false, not,
  Bool-cases, Option-cases, Option, none, some, length, String, str_eq, eq_iff, lookup, insert, has,
  lookup-insert, has-insert, lookup_of_has,
}
use puzzle_bubble.Room.{
  Manager, Room, Player, player_not_in_room, ok, err, store, must_get_player_room, readied,
  set_ready, started, start_game,
}
use puzzle_bubble.Room.Update.{RoomOk, update-SameRoom, started-RoomOk, readied-RoomOk}

module _ {Payload : Type 0} where
  pub record IsValid (m : Manager Payload) : Type 0 where
    -- A player that is filed under a room is in that room.
    pub tracks :
        (p rid : String)
        → lookup p m.player_room ≡ some rid
        → (r : Room Payload) × (lookup rid m.rooms ≡ some r) × (has p r.players ≡ true)
    -- A player that is in a room is filed under it, so no player is in two rooms.
    pub housed :
        (rid p : String) (r : Room Payload)
        → lookup rid m.rooms ≡ some r
        → has p r.players ≡ true
        → lookup p m.player_room ≡ some rid
    pub in_order : (rid : String) (r : Room Payload) → lookup rid m.rooms ≡ some r → RoomOk rid r
    pub tick : 0 < m.frame_tick

  -- `p` is in the room of `o`; the room of `o` is in order.
  abbrev pub IsIn : String → Option (Room Payload) → Type 0
  IsIn p none = ⊥
  IsIn p (some r) = has p r.players ≡ true

  abbrev pub Fine : String → Option (Room Payload) → Type 0
  Fine rid none = Unit
  Fine rid (some r) = RoomOk rid r

  -- A step that touches the room of one key alone: what stands there afterwards is `o`, and the
  -- players that are filed under it are those of `o`.
  pub record Touches (m m' : Manager Payload) (rid : String) (o : Option (Room Payload))
      : Type 0 where
    pub here : lookup rid m'.rooms ≡ o
    pub elsewhere : (j : String) → str_eq rid j ≡ false → lookup j m'.rooms ≡ lookup j m.rooms
    pub filed : (p : String) → (lookup p m'.player_room ≡ some rid) ↔ IsIn p o
    pub filed_else :
        (p j : String)
        → str_eq rid j ≡ false
        → (lookup p m'.player_room ≡ some j) ↔ (lookup p m.player_room ≡ some j)
    pub fine : Fine rid o
    pub same_tick : m'.frame_tick ≡ m.frame_tick

  room_here :
      (rid p : String) (o : Option (Room Payload))
      → IsIn p o
      → (r : Room Payload) × (o ≡ some r) × (has p r.players ≡ true)
  room_here rid p none h = absurd h
  room_here rid p (some r) h = (r, refl, h)

  pub Touches-IsValid :
      (m m' : Manager Payload) (rid : String) (o : Option (Room Payload))
      → Touches m m' rid o
      → IsValid m
      → IsValid m'
  Touches-IsValid m m' rid o t v = record {
    tracks = λ p j e. elim (Bool-cases (str_eq rid j)) [
      | inl same ↦
          let same' = (eq_iff rid j).0 same in
          let (r, is_o, member) = room_here rid p o ((t.filed p).0 (rw same' e)) in
          (r, rw (← same') (t.here ∙ is_o), member)
      | inr other ↦
          let (r, at_j, member) = v.tracks p j ((t.filed_else p j other).0 e) in
          (r, t.elsewhere j other ∙ at_j, member)
    ];
    housed = λ j p r e member. elim (Bool-cases (str_eq rid j)) [
      | inl same ↦
          let same' = (eq_iff rid j).0 same in
          rw (← same') ((t.filed p).1 (is_in p o r (sym t.here ∙ rw same' e) member))
      | inr other ↦
          (t.filed_else p j other).1 (v.housed j p r (sym (t.elsewhere j other) ∙ e) member)
    ];
    in_order = λ j r e. elim (Bool-cases (str_eq rid j)) [
      | inl same ↦
          let same' = (eq_iff rid j).0 same in
          rw (← same') (is_fine o r (sym t.here ∙ rw same' e) t.fine)
      | inr other ↦ v.in_order j r (sym (t.elsewhere j other) ∙ e)
    ];
    tick = rw t.same_tick v.tick;
  }
    where
      is_in :
          (p : String) (o' : Option (Room Payload)) (r : Room Payload)
          → o' ≡ some r
          → has p r.players ≡ true
          → IsIn p o'
      is_in p o' r e h = rw e h

      is_fine :
          (o' : Option (Room Payload)) (r : Room Payload) → o' ≡ some r → Fine rid o' → RoomOk rid r
      is_fine o' r e h = rw e at h

  module _ (m : Manager Payload) (v : IsValid m) (rid : String) (r r' : Room Payload)
      (there : lookup rid m.rooms ≡ some r) (fine : RoomOk rid r') where
    -- A room is replaced by one with the same players.
    pub store-IsValid :
        ((p : String) → has p r'.players ≡ has p r.players) → IsValid (store m rid r')
    store-IsValid same =
        Touches-IsValid m (store m rid r') rid (some r')
          (record {
            here = rw (lookup-insert rid rid) (ground (arith, eq_iff rid rid));
            elsewhere = λ j other. rw (lookup-insert rid j, other);
            filed = λ p. (
              λ e.
                  let (s, at_rid, member) = v.tracks p rid e in
                  ground (arith, same p, there, at_rid, member),
              λ member. v.housed rid p r there (ground (arith, same p)),
            );
            filed_else = λ p j other. (λ e. e, λ e. e);
            fine = fine;
            same_tick = refl;
          })
          v

  -- In a valid manager the look-up of a player's room fails only for a player in no room.
  abbrev pub Found : Manager Payload → String → Type 0
  Found m player =
      ((must_get_player_room m player ≡ err player_not_in_room)
        × (lookup player m.player_room ≡ none))
      ⊎ ((rid : String) × (r : Room Payload) × (must_get_player_room m player ≡ ok (rid, r))
          × (lookup player m.player_room ≡ some rid)
          × (lookup rid m.rooms ≡ some r)
          × (has player r.players ≡ true))

  pub must_get-Found : (m : Manager Payload) (player : String) → IsValid m → Found m player
  unfolding must_get_player_room
  must_get-Found m player v = elim (Option-cases (lookup player m.player_room)) [
    | inl e ↦ inl (rw (e, must_get_player_room), e)
    | inr (rid, e) ↦
        let (r, at_rid, member) = v.tracks player rid e in
        inr (rid, r, rw (e, must_get_player_room, at_rid), e, at_rid, member)
  ]

  started-players : (r : Room Payload) (now : ℤ) → (started r now).players ≡ r.players
  unfolding started
  started-players r now = refl

  pub start_game-IsValid :
      (m : Manager Payload) (player : String) (now : ℤ)
      → IsValid m
      → IsValid (start_game m player now).0
  unfolding start_game
  start_game-IsValid m player now v = elim (must_get-Found m player v) [
    | inl (e, _) ↦ rw (e, start_game) v
    | inr (rid, r, e, at_player, at_rid, member) ↦
        elim (Bool-cases (not (str_eq r.owner_id player))) [
          | inl other ↦ rw (e, start_game, other) v
          | inr owner ↦ elim (Bool-cases (ltb (length r.players) 2)) [
            | inl few ↦ rw (e, start_game, owner, few) v
            | inr enough ↦
                rw (e, start_game, owner, enough)
                  (store-IsValid m v rid r (started r now) at_rid
                    (started-RoomOk rid r now (v.in_order rid r at_rid))
                    (λ p. ap (has p) (started-players r now)))
          ]
        ]
  ]

  readied-has :
      (r : Room Payload) (p : Player) (player : String) (flag : Bool) (now : ℤ)
      → has player r.players ≡ true
      → (q : String) → has q (readied r p player flag now).players ≡ has q r.players
  unfolding readied
  readied-has r p player flag now member q = ground (
    arith,
    (update-SameRoom (record r { players = insert player (record p { ready = flag }) r.players })
        now).players,
    has-insert player q (record p { ready = flag }) r.players,
    eq_iff player q,
    member,
  )

  pub set_ready-IsValid :
      (m : Manager Payload) (player : String) (flag : Bool) (now : ℤ)
      → IsValid m
      → IsValid (set_ready m player flag now).0
  unfolding set_ready
  set_ready-IsValid m player flag now v = elim (must_get-Found m player v) [
    | inl (e, _) ↦ rw (e, set_ready) v
    | inr (rid, r, e, at_player, at_rid, member) ↦
        let (p, here) = lookup_of_has player r.players member in
        rw (e, set_ready, here)
          (store-IsValid m v rid r (readied r p player flag now) at_rid
            (readied-RoomOk rid r p player flag now here (v.in_order rid r at_rid))
            (readied-has r p player flag now member))
  ]
