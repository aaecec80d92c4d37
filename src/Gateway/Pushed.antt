-- ===== src/Gateway/Pushed.antt =====
-- What a push to all reaches.
use puzzle_bubble.Prelude.{
  ℕ, ◌+◌, ◌≡◌, refl, ◌∙◌, inl, inr, arith, Bool, true, false, not, ◌&&◌, ◌||◌, Bool-cases,
  if◌then◌else◌, none, List, [], ◌∷◌, String, str_eq, lookup, lookup-erase,
}
use puzzle_bubble.Gateway.{Gateway}
use puzzle_bubble.Gateway.Pushes.{
  Sockets, Tally, count, drop_socket, push_tcp, push_ws, push_to_all,
}

-- How many of the entries pass the test.
unfoldable pub passing : (ℕ → Bool) → List (String × ℕ) → ℕ
passing test [] = 0
passing test ((_, id) ∷ entries) = (if test id then 1 else 0) + passing test entries

-- The player has an entry that fails the test.
unfoldable pub fails : (ℕ → Bool) → String → List (String × ℕ) → Bool
fails test p [] = false
fails test p ((q, id) ∷ entries) = (str_eq q p && not (test id)) || fails test p entries

-- Some entry fails the test.
unfoldable pub some_fails : (ℕ → Bool) → List (String × ℕ) → Bool
some_fails test [] = false
some_fails test ((q, id) ∷ entries) = not (test id) || some_fails test entries

module _ (tcp_ok ws_ok : ℕ → Bool) where
  push_tcp-tally :
      (entries : List (String × ℕ)) (n : ℕ) (failed : Bool)
      → push_tcp tcp_ok ws_ok entries (n, failed)
        ≡ (n + passing tcp_ok entries, some_fails tcp_ok entries || failed)
  unfolding push_tcp passing some_fails
  push_tcp-tally [] n failed = ground arith
  push_tcp-tally ((q, id) ∷ entries) n failed = elim (Bool-cases (tcp_ok id)) [
    | inl sent ↦
        rw (push_tcp, passing, some_fails, sent, push_tcp-tally entries (n + 1) failed)
          (ground arith)
    | inr lost ↦
        rw (push_tcp, passing, some_fails, lost, push_tcp-tally entries n true) (ground arith)
  ]

  push_ws-tally :
      (targets : List (String × ℕ)) (w : Sockets) (n : ℕ) (failed : Bool)
      → (push_ws tcp_ok ws_ok targets w (n, failed)).1
        ≡ (n + passing ws_ok targets, some_fails ws_ok targets || failed)
  unfolding push_ws passing some_fails
  push_ws-tally [] w n failed = ground arith
  push_ws-tally ((q, id) ∷ targets) w n failed = elim (Bool-cases (ws_ok id)) [
    | inl sent ↦
        rw (push_ws, passing, some_fails, sent, push_ws-tally targets w (n + 1) failed)
          (ground arith)
    | inr lost ↦
        rw (push_ws, passing, some_fails, lost, push_ws-tally targets (drop_socket w q) n true)
          (ground arith)
  ]

  push_ws-lookup :
      (targets : List (String × ℕ)) (w : Sockets) (t : Tally) (p : String)
      → let w' = (push_ws tcp_ok ws_ok targets w t).0 in
        (lookup p w'.ws_by_player
          ≡ (if fails ws_ok p targets then none else lookup p w.ws_by_player))
        × (lookup p w'.ws_token ≡ (if fails ws_ok p targets then none else lookup p w.ws_token))
  unfolding push_ws fails
  push_ws-lookup [] w t p = (refl, refl)
  push_ws-lookup ((q, id) ∷ targets) w t p = elim (Bool-cases (ws_ok id)) [
    | inl sent ↦
        let rest = push_ws-lookup targets w (count true t) p in
        rw (push_ws, fails, sent) (ground (arith, rest.0), ground (arith, rest.1))
    | inr lost ↦
        let rest = push_ws-lookup targets (drop_socket w q) (count false t) p in
        rw (push_ws, fails, lost)
          (
            ground (arith, rest.0, lookup-erase q p w.ws_by_player),
            ground (arith, rest.1, lookup-erase q p w.ws_token),
          )
  ]

  -- A push to all counts the sessions of the index and the web sockets that took it, and reports an
  -- error exactly if one of them did not. A player loses its web socket and its token if and only if
  -- the write to its web socket fails; a connection that fails does not stop the push to the others.
  pub push_to_all_lem :
      (g : Gateway) (w : Sockets)
      → let out = push_to_all tcp_ok ws_ok g w in
        (out.1 ≡ (
          passing tcp_ok g.player_index + passing ws_ok w.ws_by_player,
          some_fails ws_ok w.ws_by_player || some_fails tcp_ok g.player_index,
        ))
        × ((p : String)
            → (lookup p out.0.ws_by_player
                ≡ (if fails ws_ok p w.ws_by_player then none else lookup p w.ws_by_player))
              × (lookup p out.0.ws_token
                  ≡ (if fails ws_ok p w.ws_by_player then none else lookup p w.ws_token)))
  unfolding push_to_all
  push_to_all_lem g w =
      let sent = 0 + passing tcp_ok g.player_index in
      let failed = some_fails tcp_ok g.player_index || false in
      let over_tcp = push_tcp-tally g.player_index 0 false in
      rw (push_to_all, over_tcp)
        (
          push_ws-tally w.ws_by_player w sent failed ∙ ground arith,
          λ p. push_ws-lookup w.ws_by_player w (sent, failed) p,
        )
