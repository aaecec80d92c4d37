-- ===== src/Ui/Departure.antt =====
-- How a departure from a room may end.
use puzzle_bubble.Prelude.{
  ◌≡◌, ◌==◌, Bool, true, false, ◌&&◌, if◌then◌else◌, some, length, String, lookup,
}
use puzzle_bubble.Ui.{RoomItem, Server}
use puzzle_bubble.Ui.Started.{IsIdle}
use puzzle_bubble.Ui.Leave.{members_of, announces, remaining}

module _ {F : Type 0} where
  -- The match is over: the last member is the winner unless its board, if it has one, is lost.
  abbrev pub IsStopped : Server F → Server F → String → String → Bool → Type 0
  IsStopped s s' rid winner was_playing =
      (was_playing ≡ true)
      × ((length (members_of s rid) == 1) ≡ true)
      × (winner ≡ remaining (members_of s rid))
      × IsIdle rid s'
      × (final : RoomItem) × (lookup rid s'.rooms ≡ some final)
      × (final.winner_id ≡ (if announces s rid winner then winner else ""))

  -- The room is still there, and no match of it has come down to one member.
  abbrev pub GoesOn : Server F → String → Bool → Type 0
  GoesOn s rid was_playing =
      ((room : RoomItem) × (lookup rid s.rooms ≡ some room))
      × ((was_playing && length (members_of s rid) == 1) ≡ false)
