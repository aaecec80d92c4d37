-- ===== src/Ui/Removal.antt =====
-- internal/ui/server.go: `removePlayerFromRoomLocked`.
use puzzle_bubble.Prelude.{
  ◌==◌, pos, ltb_ℤ, sub64, Bool, ◌&&◌, if◌then◌else◌, none, some, length, String, str_eq, lookup,
  insert, erase, has,
}
use puzzle_bubble.Ui.{RoomItem, Names, Server}

-- The room with one player less, if the player was counted in.
pub counted : RoomItem → Bool → RoomItem
counted room was_in =
    if was_in && ltb_ℤ (pos 0) room.player_cnt
    then record room { player_cnt = sub64 room.player_cnt (pos 1) }
    else room

module _ {F : Type 0} where
  -- `delete` of what is kept for the match of a room, without its states.
  abbrev pub forget_match : Server F → String → Server F
  forget_match s rid = record s {
    room_next_add = erase rid s.room_next_add;
    room_game_addr = erase rid s.room_game_addr;
    room_tickets = erase rid s.room_tickets;
  }

  -- The last lines: the player's entry and its state.
  unfoldable pub unfile : Server F → String → String → Server F
  unfile s player rid =
      let s' = record s { player_room = erase player s.player_room } in
      elim (lookup rid s.game_states) [
        | none ↦ s'
        | some states ↦
            let rest = erase player states in
            if length rest == 0
            then record s' { game_states = erase rid s.game_states }
            else record s' { game_states = insert rid rest s.game_states }
      ]

  -- The members, the room and its owner; `first` is the member that `range` yields first.
  unfoldable pub take_out : Server F → String → String → RoomItem → Names → String → Server F
  unfolding counted
  take_out s player rid room members first =
      let rest = erase player members in
      let less = counted room (has player members) in
      if length rest == 0
      then forget_match
          (record s {
            room_members = erase rid s.room_members;
            rooms = erase rid s.rooms;
            game_states = erase rid s.game_states;
          })
          rid
      else record s {
        room_members = insert rid rest s.room_members;
        rooms =
            insert rid
              (if str_eq less.owner_id player then record less { owner_id = first } else less)
              s.rooms;
      }

  unfoldable pub remove_player_from_room : Server F → String → String → String → Server F
  unfolding take_out unfile
  remove_player_from_room s player rid first = elim (lookup rid s.rooms) [
    | none ↦ record s { player_room = erase player s.player_room }
    | some room ↦ elim (lookup rid s.room_members) [
      | none ↦ unfile s player rid
      | some members ↦ unfile (take_out s player rid room members first) player rid
    ]
  ]
