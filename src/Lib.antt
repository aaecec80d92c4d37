-- ===== src/Lib.antt =====
-- Puzzle Bubble: a match of bubble shooters behind a gateway, rooms and a game service.
--
-- internal/gameplay/engine.go holds the rules of one player's board. Gameplay models it:
-- Gameplay/Grid the board of 14 rows of 17 cells with odd rows shifted (`neighbors`, `inBoard`,
-- `clampCell`), Gameplay/Search the breadth-first search that `clearMatches` and `dropFloating`
-- both write out, Gameplay/Matches and Gameplay/Floating these two, Gameplay/State the state of a
-- player, `NewInitialState` and `checkState`, Gameplay/Place `placeAndResolve` with `nearestCell`
-- and `findNearestEmpty`, Gameplay/Shots `TickState`, `Fire`, `BeginClientShot`, `CommitLanding`
-- and `ClampAim`, Gameplay/Layer `AddTopLayer`. A float64 is an element of a type that is a
-- parameter (Gameplay/Float) with the operations on it; a theorem names the laws that it relies on.
-- What the random generator returns is an argument. A loop over a queue runs on fuel: 238 rounds,
-- one for each cell of the board, are enough, since no cell enters the queue twice.
--
-- internal/room/service.go holds the rooms. Room models `Manager` and its operations; a map is a
-- list of entries, the readings of the clock and the entry at which `range` begins are arguments,
-- and a room that the source changes in place is stored back under its key. The lock of the source
-- makes each operation one step, and Room/History runs any sequence of steps. Room/Service models
-- `HandleGatewayMessage`, `ListRooms` and `Snapshot`; a read through a nil pointer is the reply
-- `panics`, which is no answer.
--
-- internal/protocol/packet.go reads and writes packets. Protocol models it over lists of bytes.
--
-- internal/gateway/tcp_gateway.go holds the connections. Gateway models `handleConn` packet by
-- packet, `dispatch` and its handlers, `bindUniquePlayerSession` and `unbindPlayerSession`. Each
-- connection has a goroutine and no lock is held while a packet is handled, so these are what one
-- packet does when no other is handled meanwhile; `kick_old` and `store_index` are the two accesses
-- of `bindUniquePlayerSession` to the index, between which another login may come in. What the
-- token service and the services behind the gateway answer is an argument. Gateway/Pushes models
-- the pushes to players.
--
-- internal/mono/server.go is the whole game in one process. Mono models its rooms, the removal of a
-- player and the outcome of a match; Mono/Outcome and Mono/Ends say when a match ends and who wins.
-- Mono/Layers models `maybeAddTopLayerLocked`, whose loop runs on one round of fuel more than there
-- are periods of ten seconds before the reading of the clock, which is enough since each round
-- moves the due time by one period.
--
-- internal/gamesvc/server.go runs the matches. GameService models its sessions, the time-outs and
-- the end of a match, GameService/Play the socket of a match, GameService/Lobby that of a room, the
-- messages of the gateway and the monitors of rooms, and GameService/History any sequence of these
-- on top of the engine and of the room manager that the service keeps. What a `range` over a map
-- visits first, the readings of the clock, what is drawn, and the answers of the token service are
-- arguments. A step that takes several locks one after the other is one step, when nothing else
-- happens in between. The round of a monitor, which gives up its lock after it has collected the
-- silent players and around each departure, is given both as one step (`monitor`) and in its single
-- steps (`expel`, `forget_player`, `end_monitor`), which GameService/History allows in any order
-- with the others.
--
-- internal/usersystem/server.go logs users in and keeps their tokens in Redis. UserSystem models
-- its handlers over a store with the three commands that they call, UserSystem/Store says what
-- Redis documents of these, and UserSystem/Tokens is the abstract promise, a list of granted tokens
-- with their ends. internal/config/config.go is Config, and internal/game/router.go is Router.
--
-- internal/ui/server.go and internal/ui/game_state.go serve the browser. Ui models the shots,
-- Ui/Start and Ui/Leave the start of a match and the departure of a player, on the rooms that the
-- server caches; what the services behind it answer is an argument.
--
-- Not modelled: the gateway's web sockets, the rest of the single-process server and of the user
-- interface server; sockets, gRPC, JSON, HTTP and the database; the browser's client.
pub mod Prelude
pub mod Gameplay
pub mod Room
pub mod UserSystem
pub mod Config
pub mod Router
pub mod Ui
pub mod Protocol
pub mod Gateway
pub mod Mono
pub mod GameService
