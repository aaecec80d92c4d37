-- ===== src/Gateway.antt =====
-- internal/gateway/tcp_gateway.go: the sessions of the TCP connections, and what a packet does. The
-- texts of JSON, the token service and the services behind the gateway are arguments: what they
-- answer to the packet at hand. A write that fails ends the connection, as `disconnect` does. Every
-- connection has its goroutine, and no lock is held while a packet is handled: the handlers here say
-- what one packet does when no other is handled meanwhile. Where that matters, in
-- `bindUniquePlayerSession`, the two accesses to the index are definitions of their own.
pub mod Routing
pub mod Pushes
pub mod Pushed
mod Tests
use package.puzzle_bubble.Prelude.{
  ℕ, ◌+◌, ◌%◌, ◌^◌, ◌==◌, Bool, true, false, not, ◌||◌, if◌then◌else◌, Option, none, some, List, [],
  ◌∷◌, ◌++◌, String, str_eq, lookup, insert, erase,
}

-- The numbers of internal/protocol/packet.go.
abbrev pub auth_req : ℕ
auth_req = 1001

abbrev pub auth_resp : ℕ
auth_resp = 1002

abbrev pub heartbeat_req : ℕ
heartbeat_req = 1003

abbrev pub heartbeat_resp : ℕ
heartbeat_resp = 1004

abbrev pub game_message : ℕ
game_message = 2001

abbrev pub error : ℕ
error = 9001

-- `protocol.ServiceAuth`.
abbrev pub service_auth : ℕ
service_auth = 2

pub record Session : Type 0 where
  pub player_id : String
  pub token : String
  pub authenticated : Bool

-- `sessions` by number; `player_index` holds the number of the session it points to. The
-- connections in `closed` are those that the gateway closed itself.
pub record Gateway : Type 0 where
  pub seq : ℕ
  pub sessions : ℕ → Option Session
  pub player_index : List (String × ℕ)
  pub closed : List ℕ

-- `protocol.RouteEnvelope`.
pub record Envelope (Body : Type 0) : Type 0 where
  pub service_id : ℕ
  pub msg_id : ℕ
  pub body : Body

-- The payloads that the gateway writes.
pub data Reply (Body : Type 0) : Type 0 where
  bad_json missing_token verify_service_error : Reply Body
  rejected : String → Reply Body
  welcome : String → Reply Body
  unknown_cmd unauthorized kicked_by_new_login refresh_token_failed beat : Reply Body
  token_invalid : String → Reply Body
  bad_route_message missing_service_or_msg_id auth_service_not_allowed internal_error : Reply Body
  routed : Body → Reply Body

-- A packet to session `to`.
pub record Sent (Body : Type 0) : Type 0 where
  pub to : ℕ
  pub cmd : ℕ
  pub seq : ℕ
  pub reply : Reply Body

-- What `VerifyToken` returns.
pub record Verdict : Type 0 where
  pub player_id : String
  pub ok : Bool
  pub reason : String

-- What the world answers while a packet is handled: its payload as a token and as a message, if it
-- is such JSON, the answers of the token service and of the service the message goes to, `none`
-- for an error, and the clock's number for a packet of the gateway's own.
pub record World (Body : Type 0) : Type 0 where
  pub token : Option String
  pub message : Option (Envelope Body)
  pub verify : String → Option Verdict
  pub refresh : String → Option (Bool × String)
  pub serve : String → Envelope Body → Option Body
  pub nanos : ℕ

-- `m.Store(k, v)` and `m.Delete(k)` of a map by number.
abbrev pub update : {A : Type 0} → (ℕ → Option A) → ℕ → Option A → ℕ → Option A
update m k v j = if k == j then v else m j

abbrev pub or_else : String → String → String
or_else reason default = if str_eq reason "" then default else reason

-- What a handler returns: the gateway, what it wrote, and whether the connection ends.
abbrev pub Handled : Type 0 → Type 0
Handled Body = Gateway × List (Sent Body) × Bool

-- The session that `bindUniquePlayerSession` throws out.
abbrev pub old_session : Gateway → ℕ → String → Option ℕ
old_session g id player = elim (lookup player g.player_index) [
  | none ↦ none
  | some old ↦ if old == id then none else some old
]

-- `g.playerIndex.Store`, at the end of `bindUniquePlayerSession`.
unfoldable pub store_index : Gateway → ℕ → String → Gateway
unfolding insert
store_index g id player = record g { player_index = insert player id g.player_index }

pub unbind : Gateway → ℕ → String → Gateway
unfolding lookup erase
unbind g id player = if str_eq player "" then g else elim (lookup player g.player_index) [
  | none ↦ g
  | some current ↦
      if current == id then record g { player_index = erase player g.player_index } else g
]

module _ {Body : Type 0} where
  abbrev answer : Gateway → ℕ → ℕ → ℕ → Reply Body → Handled Body
  answer g to cmd seq reply =
      (g, record { to = to; cmd = cmd; seq = seq; reply = reply } ∷ [], false)

  -- From the `Load` of the player's session to the close of its connection.
  unfoldable pub kick_old : Gateway → ℕ → String → ℕ → Gateway × List (Sent Body)
  unfolding lookup
  kick_old g id player nanos = elim (old_session g id player) [
    | none ↦ (g, [])
    | some old ↦ (
      record g { closed = old ∷ g.closed },
      record { to = old; cmd = error; seq = nanos % 2 ^ 32; reply = kicked_by_new_login } ∷ [],
    )
  ]

  -- Both steps, with no other login in between.
  pub bind_unique : Gateway → ℕ → String → ℕ → Gateway × List (Sent Body)
  unfolding kick_old store_index
  bind_unique g id player nanos =
      if str_eq player ""
      then (g, [])
      else let (g', sent) = kick_old g id player nanos in (store_index g' id player, sent)

  -- The end of `handleAuth`, for a token that was accepted.
  pub welcomed : Gateway → ℕ → ℕ → String → String → ℕ → Handled Body
  unfolding bind_unique
  welcomed g id seq player token nanos =
      let s : Session = record { player_id = player; token = token; authenticated = true } in
      let (g', kicked) =
        bind_unique (record g { sessions = update g.sessions id (some s) }) id player nanos in
      (
        g',
        kicked ++ record { to = id; cmd = auth_resp; seq = seq; reply = welcome player } ∷ [],
        false,
      )

  unfoldable pub handle_auth : Gateway → ℕ → ℕ → World Body → Handled Body
  unfolding welcomed
  handle_auth g id seq w = elim w.token [
    | none ↦ answer g id auth_resp seq bad_json
    | some token ↦
        if str_eq token "" then answer g id auth_resp seq missing_token else elim (w.verify token) [
          | none ↦ answer g id auth_resp seq verify_service_error
          | some v ↦
              if not v.ok || str_eq v.player_id ""
              then answer g id auth_resp seq (rejected (or_else v.reason "invalid_token"))
              else welcomed g id seq v.player_id token w.nanos
        ]
  ]

  unfoldable pub handle_heartbeat : Gateway → ℕ → Session → ℕ → World Body → Handled Body
  handle_heartbeat g id s seq w =
      if not s.authenticated then answer g id error seq unauthorized else elim (w.refresh s.token) [
        | none ↦
            (g, record { to = id; cmd = error; seq = seq; reply = refresh_token_failed } ∷ [], true)
        | some (ok, reason) ↦
            if not ok
            then (
              g,
              record {
                to = id;
                cmd = error;
                seq = seq;
                reply = token_invalid (or_else reason "token_invalid");
              }
                  ∷ [],
              true,
            )
            else answer g id heartbeat_resp seq beat
      ]

  unfoldable pub handle_game_message : Gateway → ℕ → Session → ℕ → World Body → Handled Body
  handle_game_message g id s seq w =
      if not s.authenticated then answer g id error seq unauthorized else elim w.message [
        | none ↦ answer g id game_message seq bad_route_message
        | some req ↦
            if (req.service_id == 0) || (req.msg_id == 0)
            then answer g id game_message seq missing_service_or_msg_id
            else if req.service_id == service_auth
            then answer g id game_message seq auth_service_not_allowed
            else elim (w.serve s.player_id req) [
              | none ↦ answer g id game_message seq internal_error
              | some body ↦ answer g id game_message seq (routed body)
            ]
      ]

  unfoldable pub dispatch : Gateway → ℕ → Session → ℕ → ℕ → World Body → Handled Body
  unfolding handle_auth handle_heartbeat handle_game_message
  dispatch g id s cmd seq w =
      if cmd == auth_req
      then handle_auth g id seq w
      else if cmd == heartbeat_req
      then handle_heartbeat g id s seq w
      else if cmd == game_message
      then handle_game_message g id s seq w
      else answer g id error seq unknown_cmd

-- A connection: its session gets the next number.
unfoldable pub connect : Gateway → Gateway × ℕ
connect g =
    let id = (g.seq + 1) % 2 ^ 64 in
    let s : Session = record { player_id = ""; token = ""; authenticated = false } in
    (record g { seq = id; sessions = update g.sessions id (some s) }, id)

-- The end of `handleConn`.
unfoldable pub disconnect : Gateway → ℕ → Gateway
unfolding unbind
disconnect g id = elim (g.sessions id) [
  | none ↦ g
  | some s ↦ unbind (record g { sessions = update g.sessions id none }) id s.player_id
]

-- One round of the loop of `handleConn` that has read a packet, with no other packet handled
-- meanwhile.
unfoldable pub receive :
    {Body : Type 0} → Gateway → ℕ → ℕ → ℕ → World Body → Gateway × List (Sent Body)
unfolding dispatch disconnect
receive g id cmd seq w = elim (g.sessions id) [
  | none ↦ (g, [])
  | some s ↦
      let (g', outs, ends) = dispatch g id s cmd seq w in
      if ends then (disconnect g' id, outs) else (g', outs)
]
