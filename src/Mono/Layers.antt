-- ===== src/Mono/Layers.antt =====
-- internal/mono/server.go: when a layer is added to the boards of a match. A time is a number of
-- milliseconds, which is not negative; the rows that are drawn are an argument.
use puzzle_bubble.Prelude.{
  ℕ, zero, suc, ◌+◌, ◌/◌, ℤ, pos, negsuc, leb, ◌==◌, Bool, true, false, not, ◌&&◌, ◌||◌,
  if◌then◌else◌, none, some, List, [], ◌∷◌, length, String, lookup, insert, erase,
}
use puzzle_bubble.Gameplay.Float.{Float}
use puzzle_bubble.Gameplay.State.{Status, playing, win, lose, PlayerState}
use puzzle_bubble.Gameplay.Layer.{add_top_layer}
use puzzle_bubble.Mono.{Server, is_started}

abbrev is_playing : Status → Bool
is_playing playing = true
is_playing win = false
is_playing lose = false

abbrev in_flight : {F : Type 0} → PlayerState F → Bool
in_flight st = elim st.moving [ none ↦ false | some m ↦ true ]

module _ (fl : Float) where
  abbrev States : Type 0
  States = List (String × PlayerState fl.F)

  pub all_idle : States → Bool
  all_idle [] = true
  all_idle ((p, st) ∷ states) =
      let rest = all_idle states in
      if not (is_playing st.status) || in_flight st || st.pending_shot then false else rest

  pub can_add_layer : States → Bool
  unfolding all_idle
  can_add_layer states = not (length states == 0) && all_idle states

  -- `for _, st := range states`; `top` is the row drawn for each player.
  pub add_layer : States → (String → List ℤ) → States
  unfolding add_top_layer
  add_layer [] top = []
  add_layer ((p, st) ∷ states) top = (p, add_top_layer fl st (top p)) ∷ add_layer states top

  -- The loop `for now >= nextAt`, on fuel; `top k` are the rows of the round with `k` to go.
  pub add_layers : ℕ → ℕ → ℕ → (ℕ → String → List ℤ) → States → States × ℕ
  unfolding can_add_layer add_layer
  add_layers zero now next_at top states = (states, next_at)
  add_layers (suc n) now next_at top states =
      let rest = add_layers n now (next_at + 10_000) top (add_layer states (top n)) in
      if leb next_at now && can_add_layer states then rest else (states, next_at)

  -- The rounds that are enough: one more than there are periods up to `now`.
  abbrev pub rounds : ℕ → ℕ
  rounds now = now / 10_000 + 1

  -- `maybeAddTopLayerLocked`. A missing time reads 0.
  pub maybe_add_top_layer : Server fl.F → String → ℕ → (ℕ → String → List ℤ) → Server fl.F
  unfolding add_layers
  maybe_add_top_layer s rid now top =
      let going : Bool = elim (lookup rid s.rooms) [
        | none ↦ false
        | some room ↦ is_started room.phase
      ] in
      let states : States = elim (lookup rid s.game_states) [ none ↦ [] | some found ↦ found ] in
      let due : ℕ = elim (lookup rid s.room_next_add) [
        | none ↦ 0
        | some (pos t) ↦ t
        | some (negsuc t) ↦ 0
      ] in
      if not going
      then record s { room_next_add = erase rid s.room_next_add }
      else if length states == 0
      then s
      else if due == 0
      then record s { room_next_add = insert rid (pos (now + 10_000)) s.room_next_add }
      else if leb due now && not (can_add_layer states)
      then s
      else let (states', next_at) = add_layers (rounds now) now due top states in
        record s {
          game_states = insert rid states' s.game_states;
          room_next_add = insert rid (pos next_at) s.room_next_add;
        }
