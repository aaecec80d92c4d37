-- ===== src/Mono/Tests.antt =====
-- A match of two.
use puzzle_bubble.Prelude.{
  Bool-cases, inl, inr, sym, arith, str_eq, eq_iff, ℕ, ◌≡◌, refl, pos, true, false, none, some,
  List, [], ◌∷◌, length, ltb, String, lookup, insert, has,
}
use puzzle_bubble.Gameplay.State.{Status, playing, lose, PlayerState}
use puzzle_bubble.Mono.{
  Room, Server, started, is_started, resolve_room_outcome, finish, alive, losers, join,
}
use puzzle_bubble.Mono.Outcome.{WaitsAgain, IsAlive, resolve_room_outcome-winner}
use puzzle_bubble.Mono.Ends.{resolve_room_outcome-ends}

abbrev board_of : Status → PlayerState ℕ
board_of status = record {
  board = [];
  current_color = pos 0;
  next_color = pos 0;
  aim_angle = 0;
  moving = none;
  pending_shot = false;
  shot_seq = 0;
  shot_angle = 0;
  shot_color = pos 0;
  shot_at_ms = pos 0;
  score = 0;
  status = status;
  last_tick_ms = pos 0;
}

abbrev boards : List (String × PlayerState ℕ)
boards = ("ann", board_of playing) ∷ ("bob", board_of lose) ∷ []

abbrev room : Room
room = record {
  id = "r";
  name = "Room";
  owner_id = "ann";
  phase = started;
  winner_id = "";
  max_players = pos 2;
  players = ("ann", tt) ∷ ("bob", tt) ∷ [];
}

abbrev server : Server ℕ
server = record {
  rooms = ("r", room) ∷ [];
  player_room = ("ann", "r") ∷ ("bob", "r") ∷ [];
  game_states = ("r", boards) ∷ [];
  room_tickets = [];
  room_next_add = [];
}

-- Who joins a second room stays among the players of the first: the later entry is all that changes.
abbrev spare : Room
spare = record room { id = "q"; players = ("eve", tt) ∷ [] }

abbrev two_rooms : Server ℕ
two_rooms = record server { rooms = ("r", room) ∷ ("q", spare) ∷ [] }

ann_twice :
    (join two_rooms "ann" "q").0.rooms
    ≡ ("r", room) ∷ ("q", record spare { players = ("eve", tt) ∷ ("ann", tt) ∷ [] }) ∷ []
unfolding join lookup has insert
ann_twice = refl

resolve_room_outcome-winner_example :
    (r : Room) × (states : List (String × PlayerState ℕ)) × (lookup "r" server.rooms ≡ some r)
    × (lookup "r" server.game_states ≡ some states)
    × (is_started r.phase ≡ true)
    × (ltb (length r.players) 2 ≡ false)
    × IsAlive r.players states "ann"
    × ((p : String) → IsAlive r.players states p → p ≡ "ann")
    × (finish "ann" boards ≡ finish "ann" states)
    × WaitsAgain server (resolve_room_outcome server "r").0 "r" r "ann"
unfolding resolve_room_outcome lookup losers alive
resolve_room_outcome-winner_example =
    resolve_room_outcome-winner server "r" "ann" (finish "ann" boards) refl

only_ann : (p : String) → IsAlive room.players boards p → p ≡ "ann"
unfolding lookup has
only_ann p (h, st, e, lives) = elim (Bool-cases (str_eq "ann" p)) [
  | inl same ↦ sym ((eq_iff "ann" p).0 same)
  | inr other ↦ elim (Bool-cases (str_eq "bob" p)) [
    | inl same ↦
        let is_bob = (eq_iff "bob" p).0 same in
        let lost : board_of lose ≡ st = ground (arith, rw (← is_bob) at e) in
        absurd (ground (arith, rw (← lost) at lives))
    | inr neither ↦ absurd (ground (arith, h, other, neither))
  ]
]

resolve_room_outcome-ends_example :
    (resolve_room_outcome server "r").1 ≡ some ("ann", finish "ann" boards)
unfolding lookup has
resolve_room_outcome-ends_example =
    resolve_room_outcome-ends server "r" "ann" "bob" room boards refl refl refl refl
      (refl, (refl, tt)) (refl, board_of lose, refl, refl) (refl, board_of playing, refl, refl)
      only_ann
