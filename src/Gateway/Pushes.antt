-- ===== src/Gateway/Pushes.antt =====
-- internal/gateway/tcp_gateway.go: the pushes to players, over TCP and over web sockets. Whether a
-- write succeeds is an argument, for a session and for a web socket, each known by its number.
use puzzle_bubble.Prelude.{
  ℕ, ◌+◌, Bool, true, false, if◌then◌else◌, none, some, List, [], ◌∷◌, String, str_eq, lookup,
  erase,
}
use puzzle_bubble.Gateway.{Gateway}

-- `wsByPlayer` and `wsToken`.
pub record Sockets : Type 0 where
  pub ws_by_player : List (String × ℕ)
  pub ws_token : List (String × String)

-- How many writes succeeded, and whether there is a first error.
abbrev pub Tally : Type 0
Tally = ℕ × Bool

-- A write more.
abbrev pub count : Bool → Tally → Tally
count true (n, failed) = (n + 1, failed)
count false (n, failed) = (n, true)

abbrev pub drop_socket : Sockets → String → Sockets
drop_socket w player = record {
  ws_by_player = erase player w.ws_by_player;
  ws_token = erase player w.ws_token;
}

pub data Push : Type 0 where
  empty_player_id session_not_found : Push
  pushed : Tally → Push

module _ (tcp_ok ws_ok : ℕ → Bool) where
  -- `none` is the error on an empty player.
  unfoldable pub push_to_player : Gateway → Sockets → String → Sockets × Push
  push_to_player g w player =
      if str_eq player ""
      then (w, empty_player_id)
      else let over_tcp : Tally = elim (lookup player g.player_index) [
        | none ↦ (0, false)
        | some id ↦ count (tcp_ok id) (0, false)
      ] in
        elim (lookup player w.ws_by_player) [
          | none ↦ (w, pushed over_tcp)
          | some conn ↦
              (if ws_ok conn then w else drop_socket w player, pushed (count (ws_ok conn) over_tcp))
        ]

  unfoldable pub push_to_session : Gateway → ℕ → Push
  push_to_session g id = elim (g.sessions id) [
    | none ↦ session_not_found
    | some s ↦ pushed (count (tcp_ok id) (0, false))
  ]

  -- The loop over `playerIndex`, and the one over the copy of `wsByPlayer`.
  unfoldable pub push_tcp : List (String × ℕ) → Tally → Tally
  push_tcp [] t = t
  push_tcp ((_, id) ∷ entries) t = push_tcp entries (count (tcp_ok id) t)

  unfoldable pub push_ws : List (String × ℕ) → Sockets → Tally → Sockets × Tally
  push_ws [] w t = (w, t)
  push_ws ((player, conn) ∷ targets) w t =
      push_ws targets (if ws_ok conn then w else drop_socket w player) (count (ws_ok conn) t)

  unfoldable pub push_to_all : Gateway → Sockets → Sockets × Tally
  unfolding push_tcp push_ws
  push_to_all g w = push_ws w.ws_by_player w (push_tcp g.player_index (0, false))
