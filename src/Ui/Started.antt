-- ===== src/Ui/Started.antt =====
-- What a start leaves behind.
use puzzle_bubble.Prelude.{
  ◌≡◌, ◌⊎◌, refl, ltb, ℤ, pos, ◌+ℤ◌, Bool, true, false, not, ◌||◌, none, some, List, length, String,
  str_eq, lookup, insert, erase, has, lookup-insert, lookup-erase,
}
use text.Mathlib.TextPositions.{eq_refl}
use puzzle_bubble.Gameplay.State.{PlayerState}
use puzzle_bubble.Ui.{RoomItem, Names, Server, states_of}
use puzzle_bubble.Ui.Start.{
  Answer, already_started, room_not_found, room_members_changed, ticket_of, all_ready,
}

pub lookup-insert_self :
    {V : Type 0} (k : String) (v : V) (m : List (String × V)) → lookup k (insert k v m) ≡ some v
lookup-insert_self k v m = rw (lookup-insert k k v m, eq_refl k) refl

pub lookup-erase_self :
    {V : Type 0} (k : String) (m : List (String × V)) → lookup k (erase k m) ≡ none
lookup-erase_self k m = rw (lookup-erase k k m, eq_refl k) refl

-- The session has no address, no ticket for the owner, or none for some member.
abbrev pub incomplete : (String → String) → Names → String → String → List (String × String) → Bool
incomplete trim members player addr given =
    str_eq addr "" || str_eq (ticket_of given player) "" || not (all_ready trim given members)

module _ {F : Type 0} where
  -- A match of the room is under way: its members have new boards, and tickets.
  pub record IsUnderWay (trim : String → String) (fresh : String → PlayerState F) (now : ℤ)
      (rid player addr ticket : String) (s : Server F) : Type 0 where
    pub room : RoomItem
    pub members : Names
    pub at_room : lookup rid s.rooms ≡ some room
    pub at_members : lookup rid s.room_members ≡ some members
    pub plays : room.state ≡ "playing"
    pub no_winner : room.winner_id ≡ ""
    pub enough : ltb (length members) 2 ≡ false
    pub boards : (p : String) → has p members ≡ true → lookup p (states_of s rid) ≡ some (fresh p)
    pub tickets : List (String × String)
    pub at_tickets : lookup rid s.room_tickets ≡ some tickets
    pub admitted :
        (p : String) → has p members ≡ true → str_eq (trim (ticket_of tickets p)) "" ≡ false
    pub own_ticket : (ticket_of tickets player ≡ ticket) × (str_eq ticket "" ≡ false)
    pub address : (lookup rid s.room_game_addr ≡ some addr) × (str_eq addr "" ≡ false)
    pub due : lookup rid s.room_next_add ≡ some (now +ℤ pos 10_000)

  -- No trace of a match of the room.
  pub record IsIdle (rid : String) (s : Server F) : Type 0 where
    pub room : RoomItem
    pub at_room : lookup rid s.rooms ≡ some room
    pub waits : room.state ≡ "waiting"
    pub no_boards : lookup rid s.game_states ≡ none
    pub no_tickets : lookup rid s.room_tickets ≡ none
    pub no_address : lookup rid s.room_game_addr ≡ none
    pub not_due : lookup rid s.room_next_add ≡ none

  -- The room was there, did not play, and has at least two members.
  abbrev pub MayStart : Server F → String → Names → Type 0
  MayStart s rid members =
      ((room : RoomItem) × (lookup rid s.rooms ≡ some room) × (str_eq room.state "playing" ≡ false))
      × (lookup rid s.room_members ≡ some members)
      × (ltb (length members) 2 ≡ false)

  -- Why a start is refused, and with which answer.
  abbrev pub IsRefused : Server F → String → Answer → Type 0
  IsRefused s rid answer =
      ((lookup rid s.rooms ≡ none) × (answer ≡ room_not_found))
      ⊎ ((room : RoomItem) × (lookup rid s.rooms ≡ some room)
          × (((str_eq room.state "playing" ≡ true) × (answer ≡ already_started))
              ⊎ ((str_eq room.state "playing" ≡ false)
                  × (answer ≡ room_members_changed)
                  × ((lookup rid s.room_members ≡ none)
                      ⊎ ((members : Names) × (lookup rid s.room_members ≡ some members)
                          × (ltb (length members) 2 ≡ true))))))
