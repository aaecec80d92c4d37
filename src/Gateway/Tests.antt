-- ===== src/Gateway/Tests.antt =====
-- A player who logs in on two connections.
use puzzle_bubble.Prelude.{
  ℕ, Bool, String, none, ◌+◌, ◌||◌, if◌then◌else◌, ◌≡◌, refl, ◌==◌, inl, true, false, some, [], ◌∷◌,
  lookup, insert,
}
use puzzle_bubble.Gateway.{
  Gateway, Session, World, Envelope, routed, game_message, service_auth, handle_game_message,
  auth_req, connect, receive, disconnect, kick_old, store_index,
}
use puzzle_bubble.Gateway.Pushes.{Sockets, push_to_all, push_tcp, push_ws}
use puzzle_bubble.Gateway.Pushed.{passing, fails, some_fails, push_to_all_lem}
use puzzle_bubble.Gateway.Routing.{handle_game_message-routed}

-- The token "t" is ann's; the message goes to service 5, which answers 7.
abbrev world : World ℕ
world = record {
  token = some "t";
  message = some (record { service_id = 5; msg_id = 1001; body = 3 });
  verify = λ t. some (record { player_id = "ann"; ok = true; reason = "" });
  refresh = λ t. some (true, "");
  serve = λ p e. some 7;
  nanos = 12;
}

abbrev new_gateway : Gateway
new_gateway = record { seq = 0; sessions = λ id. none; player_index = []; closed = [] }

abbrev ann : Session
ann = record { player_id = "ann"; token = "t"; authenticated = true }

abbrev connected : Gateway
connected = (connect (connect new_gateway).0).0

abbrev both_in : Gateway
both_in = (receive (receive connected 1 auth_req 1 world).0 2 auth_req 1 world).0

-- Of two logins one after the other, the second closes the connection of the first.
first_closed : both_in.closed ≡ 1 ∷ []
unfolding receive connect kick_old store_index lookup insert
first_closed = refl

-- The later session stays the player's when the earlier one ends.
still_indexed : lookup "ann" (disconnect both_in 1).player_index ≡ some 2
unfolding receive connect disconnect kick_old store_index lookup insert
still_indexed = refl

-- Two logins at the same time: both look for an earlier session before either is stored.
abbrev raced : Gateway
raced =
    let g = (kick_old {Body = ℕ} (kick_old {Body = ℕ} connected 1 "ann" 0).0 2 "ann" 0).0 in
    store_index (store_index g 1 "ann") 2 "ann"

-- Then neither connection is closed.
none_closed : raced.closed ≡ []
unfolding connect kick_old store_index lookup insert
none_closed = refl

handle_game_message-routed_example :
    (ann.authenticated ≡ true)
    × (req : Envelope ℕ) × (world.message ≡ some req)
    × (world.serve ann.player_id req ≡ some 7)
    × ((req.service_id == service_auth) ≡ false)
    × (◌≡◌ {A = ℕ} 1 1)
    × (◌≡◌ {A = ℕ} 9 9)
unfolding handle_game_message
handle_game_message-routed_example =
    handle_game_message-routed ℕ new_gateway 1 ann 9 world
      (record { to = 1; cmd = game_message; seq = 9; reply = routed 7 }) 7 (inl refl) refl

-- "ann" has a session and a socket that is broken, "bob" a socket.
abbrev sockets : Sockets
sockets = record {
  ws_by_player = ("ann", 8) ∷ ("bob", 9) ∷ [];
  ws_token = ("ann", "t") ∷ ("bob", "u") ∷ [];
}

abbrev one_session : Gateway
one_session = record { seq = 1; sessions = λ n. none; player_index = ("ann", 1) ∷ []; closed = [] }

abbrev not_eight : ℕ → Bool
not_eight n = if n == 8 then false else true

two_of_three : (push_to_all (λ n. true) not_eight one_session sockets).1 ≡ (2, true)
unfolding push_to_all push_tcp push_ws
two_of_three = refl

push_to_all_lem_example :
    let out = push_to_all (λ n. true) not_eight one_session sockets in
    (out.1 ≡ (
      passing (λ n. true) one_session.player_index + passing not_eight sockets.ws_by_player,
      some_fails not_eight sockets.ws_by_player || some_fails (λ n. true) one_session.player_index,
    ))
    × ((p : String)
        → (lookup p out.0.ws_by_player ≡ (
            if fails not_eight p sockets.ws_by_player then none else lookup p sockets.ws_by_player))
          × (lookup p out.0.ws_token ≡ (
              if fails not_eight p sockets.ws_by_player then none else lookup p sockets.ws_token)))
push_to_all_lem_example = push_to_all_lem (λ n. true) not_eight one_session sockets
