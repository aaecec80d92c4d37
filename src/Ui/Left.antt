-- ===== src/Ui/Left.antt =====
-- Who leaves is nowhere, and nobody else is moved.
use puzzle_bubble.Prelude.{
  ◌≡◌, refl, ◌∙◌, inl, inr, ◌==◌, false, Bool-cases, Option-cases, if◌then◌else◌, none, some,
  length, String, str_eq, lookup, erase, has, lookup-insert, lookup-erase, has-erase,
}
use text.Mathlib.TextPositions.{eq_refl}
use puzzle_bubble.Ui.{RoomItem, Names, Server}
use puzzle_bubble.Ui.Removal.{unfile, take_out, remove_player_from_room}

module _ {F : Type 0} where
  -- Another room's entries are as they were.
  abbrev pub IsSameRoom : Server F → Server F → String → Type 0
  IsSameRoom s s' j =
      (lookup j s'.rooms ≡ lookup j s.rooms)
      × (lookup j s'.room_members ≡ lookup j s.room_members)
      × (lookup j s'.game_states ≡ lookup j s.game_states)

  abbrev pub IsUnfiled : Server F → Server F → String → Type 0
  IsUnfiled s s' player =
      (q : String)
      → lookup q s'.player_room ≡ (if str_eq player q then none else lookup q s.player_room)

  -- The player is not among the members of the room.
  abbrev pub IsOut : Server F → String → String → Type 0
  IsOut s player rid =
      (members : Names) → lookup rid s.room_members ≡ some members → has player members ≡ false

  unfile-fields :
      (s : Server F) (player rid : String)
      → ((unfile s player rid).rooms ≡ s.rooms)
        × ((unfile s player rid).room_members ≡ s.room_members)
        × ((unfile s player rid).player_room ≡ erase player s.player_room)
        × ((j : String)
            → str_eq rid j ≡ false
            → lookup j (unfile s player rid).game_states ≡ lookup j s.game_states)
  unfolding unfile
  unfile-fields s player rid = elim (Option-cases (lookup rid s.game_states)) [
    | inl e ↦ rw (unfile, e) (refl, refl, refl, λ j other. refl)
    | inr (states, e) ↦ elim (Bool-cases (length (erase player states) == 0)) [
      | inl last ↦
          rw (unfile, e, last)
            (refl, refl, refl, λ j other. rw (lookup-erase rid j s.game_states, other) refl)
      | inr more ↦
          rw (unfile, e, more)
            (
              refl,
              refl,
              refl,
              λ j other. rw (lookup-insert rid j (erase player states) s.game_states, other) refl,
            )
    ]
  ]

  take_out-fields :
      (s : Server F) (player rid first : String) (room : RoomItem) (members : Names)
      → ((take_out s player rid room members first).player_room ≡ s.player_room)
        × IsOut (take_out s player rid room members first) player rid
        × ((j : String)
            → str_eq rid j ≡ false
            → IsSameRoom s (take_out s player rid room members first) j)
  unfolding take_out
  take_out-fields s player rid first room members =
      elim (Bool-cases (length (erase player members) == 0)) [
        | inl last ↦
            rw (take_out, last)
              (
                refl,
                λ there e.
                    absurd
                      (no_entry there (rw (lookup-erase rid rid s.room_members, eq_refl rid) at e)),
                λ j other. (
                  rw (lookup-erase rid j s.rooms, other) refl,
                  rw (lookup-erase rid j s.room_members, other) refl,
                  rw (lookup-erase rid j s.game_states, other) refl,
                ),
              )
        | inr more ↦
            rw (take_out, more)
              (
                refl,
                λ there e. one_less there (
                    rw (lookup-insert rid rid (erase player members) s.room_members, eq_refl rid) at
                      e),
                λ j other. (
                  rw (lookup-insert rid j _ s.rooms, other) refl,
                  rw (lookup-insert rid j (erase player members) s.room_members, other) refl,
                  refl,
                ),
              )
      ]
    where
      no_entry : (there : Names) → none ≡ some there → ⊥
      no_entry there e = cc

      one_less :
          (there : Names) → some (erase player members) ≡ some there → has player there ≡ false
      one_less there e =
          let same : there ≡ erase player members = cc in
          rw (same, has-erase player player members, eq_refl player) refl

  pub remove-fields :
      (s : Server F) (player rid first : String) (room : RoomItem)
      → lookup rid s.rooms ≡ some room
      → let s' = remove_player_from_room s player rid first in
        IsUnfiled s s' player
        × IsOut s' player rid
        × ((j : String) → str_eq rid j ≡ false → IsSameRoom s s' j)
  unfolding remove_player_from_room
  remove-fields s player rid first room e = elim (Option-cases (lookup rid s.room_members)) [
    | inl none_in ↦
        let (rooms, members, filed, states) = unfile-fields s player rid in
        rw (remove_player_from_room, e, none_in, rooms, members, filed)
          (
            λ q. lookup-erase player q s.player_room,
            λ there e'. absurd (cc),
            λ j other. (refl, refl, states j other),
          )
    | inr (members, at_members) ↦
        let t = take_out s player rid room members first in
        let (filed₁, out, elsewhere) = take_out-fields s player rid first room members in
        let (rooms, same, filed, states) = unfile-fields t player rid in
        rw (remove_player_from_room, e, at_members, rooms, same, filed, filed₁)
          (
            λ q. lookup-erase player q s.player_room,
            out,
            λ j other. let (r, m, g) = elsewhere j other in (r, m, states j other ∙ g),
          )
  ]
