-- ===== src/Room/Update.antt =====
-- What the operations do to one room.
use puzzle_bubble.Prelude.{
  ℕ, zero, suc, ◌+◌, ◌-◌, ◌%◌, ◌^◌, ◌≤◌, ◌<◌, ◌≡◌, refl, ◌∙◌, inl, inr, arith, ℤ, pos, leb_ℤ, ltb,
  Bool, true, false, Bool-cases, some, List, [], ◌∷◌, ◌++◌, length, length-append, drop, String,
  str_eq, eq_iff, lookup, insert, erase, has, has-insert, has-erase, length-insert-le,
  length-erase-le, length-insert_of_has, has_of_lookup,
}
use puzzle_bubble.Room.{
  Player, CommandEvent, Room, update_room_state, entry_at, joined, readied, started, heir, without,
  left, log, submitted,
}

-- Every entry holds the player that it is filed under.
abbrev pub Keyed : List (String × Player) → Type 0
Keyed [] = Unit
Keyed ((k, p) ∷ ps) = (p.player_id ≡ k) × Keyed ps

insert-Keyed :
    (k : String) (p : Player) (ps : List (String × Player))
    → p.player_id ≡ k
    → Keyed ps
    → Keyed (insert k p ps)
unfolding insert
insert-Keyed k p [] e h = (e, tt)
insert-Keyed k p ((j, q) ∷ ps) e h = elim (Bool-cases (str_eq j k)) [
  | inl same ↦ rw same (e, h.1)
  | inr other ↦ rw other (h.0, insert-Keyed k p ps e h.1)
]

erase-Keyed : (k : String) (ps : List (String × Player)) → Keyed ps → Keyed (erase k ps)
unfolding erase
erase-Keyed k [] h = tt
erase-Keyed k ((j, q) ∷ ps) h = elim (Bool-cases (str_eq j k)) [
  | inl same ↦ rw same (erase-Keyed k ps h.1)
  | inr other ↦ rw other (h.0, erase-Keyed k ps h.1)
]

lookup-Keyed :
    (k : String) (p : Player) (ps : List (String × Player))
    → Keyed ps
    → lookup k ps ≡ some p
    → p.player_id ≡ k
unfolding lookup
lookup-Keyed k p [] h e = absurd (cc)
lookup-Keyed k p ((j, q) ∷ ps) h e = ground (arith, eq_iff j k, lookup-Keyed k p ps, h.0, h.1)

entry_at-has :
    (ps : List (String × Player)) (n : ℕ)
    → Keyed ps
    → n < length ps
    → (p : Player) × (entry_at ps n ≡ some p) × (has p.player_id ps ≡ true)
unfolding entry_at has
entry_at-has [] n h lt = absurd (omega arith)
entry_at-has ((k, p) ∷ ps) zero h lt = (p, refl, ground (arith, eq_iff k p.player_id, h.0))
entry_at-has ((k, p) ∷ ps) (suc n) h lt =
    let (q, e, there) = entry_at-has ps n h.1 (omega arith) in (q, e, ground (arith, there))

module _ {Payload : Type 0} where
  -- The sequence numbers of the log count up to `s`, modulo 2^64.
  abbrev pub CountsTo : ℕ → List (CommandEvent Payload) → Type 0
  CountsTo s [] = Unit
  CountsTo s (ev ∷ evs) = ((ev.seq + length evs) % 2 ^ 64 ≡ s) × CountsTo s evs

  -- A room that stands under the key `rid`.
  pub record RoomOk (rid : String) (r : Room Payload) : Type 0 where
    pub named : r.id ≡ rid
    pub owner : has r.owner_id r.players ≡ true
    pub keyed : Keyed r.players
    pub capacity : leb_ℤ (pos (length r.players)) r.max_players ≡ true
    pub bounded : length r.commands ≤ 2048
    pub numbered : CountsTo r.cmd_seq r.commands
    pub seq : r.cmd_seq < 2 ^ 64

  -- The fields that `RoomOk` speaks of.
  pub record SameRoom (r r' : Room Payload) : Type 0 where
    pub id : r'.id ≡ r.id
    pub owner_id : r'.owner_id ≡ r.owner_id
    pub players : r'.players ≡ r.players
    pub max_players : r'.max_players ≡ r.max_players
    pub cmd_seq : r'.cmd_seq ≡ r.cmd_seq
    pub commands : r'.commands ≡ r.commands

  pub SameRoom-RoomOk :
      (rid : String) (r r' : Room Payload) → SameRoom r r' → RoomOk rid r → RoomOk rid r'
  SameRoom-RoomOk rid r r' s ok = record {
    named = s.id ∙ ok.named;
    owner = rw (s.owner_id, s.players) ok.owner;
    keyed = rw s.players ok.keyed;
    capacity = rw (s.max_players, s.players) ok.capacity;
    bounded = rw s.commands ok.bounded;
    numbered = rw (s.cmd_seq, s.commands) ok.numbered;
    seq = rw s.cmd_seq ok.seq;
  }

  -- `updateRoomStateLocked` sets the state and the start time alone.
  pub update-SameRoom : (r : Room Payload) (now : ℤ) → SameRoom r (update_room_state r now)
  unfolding update_room_state
  update-SameRoom r now = record {
    id = ground arith;
    owner_id = ground arith;
    players = ground arith;
    max_players = ground arith;
    cmd_seq = ground arith;
    commands = ground arith;
  }

  drop-CountsTo :
      (s n : ℕ) (evs : List (CommandEvent Payload)) → CountsTo s evs → CountsTo s (drop n evs)
  drop-CountsTo s zero evs h = h
  drop-CountsTo s (suc n) [] h = tt
  drop-CountsTo s (suc n) (ev ∷ evs) h = drop-CountsTo s n evs h.1

  append-CountsTo :
      (s : ℕ) (evs : List (CommandEvent Payload)) (ev : CommandEvent Payload)
      → ev.seq ≡ (s + 1) % 2 ^ 64
      → CountsTo s evs
      → CountsTo ev.seq (evs ++ ev ∷ [])
  append-CountsTo s [] ev e h = (omega arith, tt)
  append-CountsTo s (x ∷ xs) ev e h =
      (omega (arith, length-append xs (ev ∷ []), h.0), append-CountsTo s xs ev e h.1)

  length-drop : (n : ℕ) (evs : List (CommandEvent Payload)) → length (drop n evs) ≡ length evs - n
  length-drop zero evs = omega arith
  length-drop (suc n) [] = omega arith
  length-drop (suc n) (ev ∷ evs) = omega (arith, length-drop n evs)

  log-bounded :
      (events : List (CommandEvent Payload)) (ev : CommandEvent Payload)
      → length (log events ev) ≤ 2048
  unfolding log
  log-bounded events ev =
      let all = events ++ ev ∷ [] in
      elim (Bool-cases (ltb 2048 (length all))) [
        | inl over ↦ rw over (omega (arith, length-drop (length all - 2048) all))
        | inr fits ↦ rw fits (ground arith)
      ]

  log-CountsTo :
      (s : ℕ) (events : List (CommandEvent Payload)) (ev : CommandEvent Payload)
      → CountsTo s (events ++ ev ∷ [])
      → CountsTo s (log events ev)
  unfolding log
  log-CountsTo s events ev h =
      let all = events ++ ev ∷ [] in
      elim (Bool-cases (ltb 2048 (length all))) [
        | inl over ↦ rw over (drop-CountsTo s (length all - 2048) all h)
        | inr fits ↦ rw fits h
      ]

  -- A command that is logged under the next number keeps the room in order.
  pub submitted-RoomOk :
      (rid : String) (r : Room Payload) (ev : CommandEvent Payload)
      → ev.seq ≡ (r.cmd_seq + 1) % 2 ^ 64
      → RoomOk rid r
      → RoomOk rid (submitted r ev)
  unfolding submitted
  submitted-RoomOk rid r ev e ok = record {
    named = ok.named;
    owner = ok.owner;
    keyed = ok.keyed;
    capacity = ok.capacity;
    bounded = log-bounded r.commands ev;
    numbered =
        log-CountsTo ev.seq r.commands ev (append-CountsTo r.cmd_seq r.commands ev e ok.numbered);
    seq = omega arith;
  }

  pub started-RoomOk :
      (rid : String) (r : Room Payload) (now : ℤ) → RoomOk rid r → RoomOk rid (started r now)
  unfolding started
  started-RoomOk rid r now ok = record {
    named = ok.named;
    owner = ok.owner;
    keyed = ok.keyed;
    capacity = ok.capacity;
    bounded = ok.bounded;
    numbered = ok.numbered;
    seq = ok.seq;
  }

  pub readied-RoomOk :
      (rid : String) (r : Room Payload) (p : Player) (player : String) (flag : Bool) (now : ℤ)
      → lookup player r.players ≡ some p
      → RoomOk rid r
      → RoomOk rid (readied r p player flag now)
  unfolding readied
  readied-RoomOk rid r p player flag now there ok =
      let member = has_of_lookup player p r.players there in
      let same = length-insert_of_has player (record p { ready = flag }) r.players member in
      SameRoom-RoomOk rid _ _ (update-SameRoom _ now) (record {
        named = ok.named;
        owner = rw (has-insert player r.owner_id) (ground (arith, ok.owner));
        keyed =
            insert-Keyed player (record p { ready = flag }) r.players
              (lookup-Keyed player p r.players ok.keyed there) ok.keyed;
        capacity = rw same ok.capacity;
        bounded = ok.bounded;
        numbered = ok.numbered;
        seq = ok.seq;
      })

  pub joined-RoomOk :
      (rid : String) (r : Room Payload) (player : String) (now : ℤ)
      → leb_ℤ r.max_players (pos (length r.players)) ≡ false
      → RoomOk rid r
      → RoomOk rid (joined r player now)
  unfolding joined
  joined-RoomOk rid r player now room ok =
      let p : Player = record { player_id = player; ready = false } in
      SameRoom-RoomOk rid _ _ (update-SameRoom _ now) (record {
        named = ok.named;
        owner = rw (has-insert player r.owner_id) (ground (arith, ok.owner));
        keyed = insert-Keyed player p r.players refl ok.keyed;
        capacity = ground (arith, room, length-insert-le player p r.players);
        bounded = ok.bounded;
        numbered = ok.numbered;
        seq = ok.seq;
      })

  heir-has :
      (r : Room Payload) (player : String) (first : ℕ)
      → Keyed r.players
      → 0 < length r.players
      → (str_eq r.owner_id player ≡ false → has r.owner_id r.players ≡ true)
      → has (heir r player first) r.players ≡ true
  unfolding heir
  heir-has r player first keyed some_left stays =
      let n = first % length r.players in
      let (p, e, there) = entry_at-has r.players n keyed (grind arith) in
      elim (Bool-cases (str_eq r.owner_id player)) [
        | inl gone ↦ rw (gone, e) there
        | inr kept ↦ rw kept (stays kept)
      ]

  pub left-RoomOk :
      (rid : String) (r : Room Payload) (player : String) (first : ℕ) (now : ℤ)
      → 0 < length (erase player r.players)
      → RoomOk rid r
      → RoomOk rid (left r player first now)
  unfolding left without
  left-RoomOk rid r player first now some_left ok =
      let r' = without r player in
      let keyed = erase-Keyed player r.players ok.keyed in
      SameRoom-RoomOk rid _ _ (update-SameRoom _ now) (record {
        named = ok.named;
        owner = heir-has r' player first keyed some_left (λ kept.
            rw (has-erase player r.owner_id)
              (ground (arith, eq_iff player r.owner_id, eq_iff r.owner_id player, ok.owner)));
        keyed = keyed;
        capacity = ground (arith, ok.capacity, length-erase-le player r.players);
        bounded = ok.bounded;
        numbered = ok.numbered;
        seq = ok.seq;
      })
