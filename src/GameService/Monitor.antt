-- ===== src/GameService/Monitor.antt =====
-- Which players a round of a room's monitor lets go.
use puzzle_bubble.Prelude.{
  ◌≡◌, refl, sym, ◌∙◌, inl, inr, arith, ℤ, ◌==◌, Bool, false, ◌&&◌, ◌||◌, Bool-cases, if◌then◌else◌,
  none, some, List, [], ◌∷◌, String, str_eq, eq_iff, lookup, lookup-erase, lookup_of_has_not, IsMap,
}
use puzzle_bubble.Room.{leave_room}
use puzzle_bubble.Room.Invariant as Rooms
use puzzle_bubble.Room.Leave.{leave_room-IsValid, leave_room-player_room}
use puzzle_bubble.GameService.{Server, Moment}
use puzzle_bubble.GameService.Lobby.{
  count_players, forget_player, is_late, silent, dismiss, end_monitor, monitor,
}

unfoldable pub among : String → List String → Bool
among p [] = false
among p (q ∷ qs) = str_eq q p || among p qs

module _ {F Payload : Type 0} where
  -- The player is filed under the room, and its last heartbeat is too old.
  abbrev pub is_silent : Server F Payload → String → ℤ → String → Bool
  is_silent s rid now p = elim (lookup p s.room_of_player) [
    | none ↦ false
    | some r ↦ str_eq r rid && is_late s now p
  ]

  silent-among :
      (s : Server F Payload) (rid : String) (now : ℤ) (entries : List (String × String))
      (p : String)
      → IsMap entries
      → among p (silent s rid now entries)
        ≡ elim (lookup p entries) [ none ↦ false | some r ↦ str_eq r rid && is_late s now p ]
  unfolding among silent lookup
  silent-among s rid now [] p h = refl
  silent-among s rid now ((q, r) ∷ entries) p h =
      let rest = silent-among s rid now entries p h.1 in
      elim (Bool-cases (str_eq r rid && is_late s now q)) [
        | inl late ↦ elim (Bool-cases (str_eq q p)) [
          | inl same ↦
              rw (silent, late, among, lookup, same) (rw (← (eq_iff q p).0 same) (sym late))
          | inr other ↦ rw (silent, late, among, lookup, other) rest
        ]
        | inr heard ↦ elim (Bool-cases (str_eq q p)) [
          | inr other ↦ rw (silent, heard, lookup, other) rest
          | inl same ↦
              let is_p = (eq_iff q p).0 same in
              let gone : lookup p entries ≡ none = lookup_of_has_not p entries (rw is_p at h.0) in
              rw (silent, heard, lookup, same) ((rw gone at rest) ∙ rw (← is_p) (sym heard))
        ]
      ]

  -- Where a player is filed after the second loop, here and among the rooms.
  dismiss-lookup :
      (s : Server F Payload) (players : List String) (t : Moment) (p : String)
      → Rooms.IsValid s.room_mgr
      → (lookup p (dismiss s players t).room_of_player
          ≡ (if among p players then none else lookup p s.room_of_player))
        × (lookup p (dismiss s players t).room_mgr.player_room
            ≡ (if among p players then none else lookup p s.room_mgr.player_room))
  unfolding dismiss among forget_player
  dismiss-lookup s [] t p v = (refl, refl)
  dismiss-lookup s (q ∷ players) t p v =
      let m = (leave_room s.room_mgr q (t.first q) t.ns).0 in
      let rest =
        dismiss-lookup (forget_player (record s { room_mgr = m }) q) players t p
          (leave_room-IsValid s.room_mgr q (t.first q) t.ns v) in
      (
        ground (arith, rest.0, lookup-erase q p s.room_of_player),
        ground (arith, rest.1, leave_room-player_room s.room_mgr q (t.first q) t.ns p v),
      )

  -- If the rooms are valid and no player is filed twice, a round of the monitor of a room, with
  -- nothing else happening between its steps, takes each player who is filed under that room and
  -- whose last heartbeat is too old out of it, in the service's own list and in the rooms, and leaves
  -- every other player where it is in both.
  pub monitor_lem :
      (s : Server F Payload) (rid : String) (t : Moment) (p : String)
      → Rooms.IsValid s.room_mgr
      → IsMap s.room_of_player
      → (lookup p (monitor s rid t).room_of_player
          ≡ (if is_silent s rid t.ms p then none else lookup p s.room_of_player))
        × (lookup p (monitor s rid t).room_mgr.player_room
            ≡ (if is_silent s rid t.ms p then none else lookup p s.room_mgr.player_room))
  unfolding monitor end_monitor
  monitor_lem s rid t p v keys =
      let (here, there) = dismiss-lookup s (silent s rid t.ms s.room_of_player) t p v in
      let who = silent-among s rid t.ms s.room_of_player p keys in
      elim (Bool-cases (count_players rid s.room_of_player == 0)) [
        | inl last ↦ rw (monitor, last, ← who) (here, there)
        | inr more ↦ rw (monitor, more, ← who) (here, there)
      ]
