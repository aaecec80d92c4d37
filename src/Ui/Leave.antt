-- ===== src/Ui/Leave.antt =====
-- internal/ui/server.go: `handleLeaveRoom`, after the call of the room service, whose answer it
-- drops.
use puzzle_bubble.Prelude.{
  ◌==◌, Bool, true, false, not, ◌&&◌, if◌then◌else◌, none, some, [], ◌∷◌, length, String, str_eq,
  lookup, insert, erase,
}
use puzzle_bubble.Gameplay.State.{has_lost}
use puzzle_bubble.Ui.{RoomItem, Names, Server, states_of}
use puzzle_bubble.Ui.Removal.{forget_match, remove_player_from_room}

-- `left` says whether the room was deleted, whether the match stopped, and who is left in it.
pub data Answer : Type 0 where
  missing_player not_in_that_room was_in_no_room : Answer
  left : Bool → Bool → String → Answer

-- The name that the loop over the members leaves, of the one that there is.
abbrev pub remaining : Names → String
remaining [] = ""
remaining ((p, _) ∷ ps) = p

module _ {F : Type 0} where
  abbrev pub members_of : Server F → String → Names
  members_of s rid = elim (lookup rid s.room_members) [ none ↦ [] | some members ↦ members ]

  -- `announceWinner`.
  abbrev pub announces : Server F → String → String → Bool
  announces s rid player = elim (lookup player (states_of s rid)) [
    | none ↦ false
    | some st ↦ not (has_lost st.status)
  ]

  -- The match of the room ends, since one player is left.
  unfoldable pub stop_game : Server F → String → RoomItem → Server F
  stop_game s rid room =
      let winner = remaining (members_of s rid) in
      forget_match
        (record s {
          rooms =
              insert rid
                (record room {
                  state = "waiting";
                  winner_id = if announces s rid winner then winner else "";
                })
                s.rooms;
          game_states = erase rid s.game_states;
        })
        rid

  -- What follows the removal of the player; `was_playing` is the room's state before.
  unfoldable pub after_removal : Server F → String → Bool → Server F × Answer
  unfolding stop_game
  after_removal s rid was_playing = elim (lookup rid s.rooms) [
    | none ↦ (forget_match s rid, left true false "")
    | some room ↦
        if was_playing && length (members_of s rid) == 1
        then (stop_game s rid room, left false true (remaining (members_of s rid)))
        else (s, left false false "")
  ]

  abbrev pub is_playing : Server F → String → Bool
  is_playing s rid = elim (lookup rid s.rooms) [
    | none ↦ false
    | some room ↦ str_eq room.state "playing"
  ]

  unfoldable pub leave_room : Server F → String → String → String → Server F × Answer
  unfolding remove_player_from_room after_removal
  leave_room s player rid first =
      if str_eq player "" then (s, missing_player) else elim (lookup player s.player_room) [
        | none ↦ (s, was_in_no_room)
        | some current ↦
            let named = if str_eq rid "" then current else rid in
            if str_eq current named
            then after_removal (remove_player_from_room s player named first) named
                (is_playing s named)
            else (s, not_in_that_room)
      ]
