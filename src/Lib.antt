-- ===== src/Lib.antt =====
-- Aelora, a realtime chat backend in Go: REST and WebSocket APIs, PostgreSQL for rooms and messages,
-- Valkey for streams, presence and a cache.
--
-- Parts. A request reaches a use case of internal/application, which works on rooms and messages of
-- internal/domain through the interfaces of internal/ports. The adapters implement those interfaces.
--
-- Files, by the Go files that they model:
--   Prelude           names that all modules share; Go's string functions and integers
--   Domain            internal/domain, and the error values of internal/application/errors.go
--   Call              a Go method that may fail, over an explicit state; Call/Post has one rule for each
--                     way to compose such calls, which the proofs follow
--   Ports             internal/ports
--   Application       internal/application: CreateRoom, JoinRoom, ListMessages, SendMessage,
--                     SyncMessages (with the acknowledgement), Push and RoomId
--   RateLimit         internal/platform/ratelimit/fixed_window.go: calls one after another; Concurrent takes
--                     calls for one key that run at once by their atomic operations
--   Postgres          internal/adapters/outbound/postgres: room_repo.go (Rooms), message_repo.go
--                     (Messages) and outbox_repo.go (Outbox), over tables; Statement says what one
--                     statement and one transaction do, Messages/Once and Outbox/Later take the calls
--                     of a repository as steps, and Connect is pool.go
--   Relay             internal/workers/outbox_relay.go; Drain runs it over the outbox of Postgres
--   RoomCache         internal/adapters/outbound/roomcache/repository.go
--   WebSocket         internal/adapters/inbound/http/websocket.go: a client's queue, the answers, and
--                     the write pump as steps beside all that offers frames (Pump), and a connection
--                     beside the refresh of its presence (Connection)
--   Http              internal/adapters/inbound/http/response_helpers.go (Errors, Context), crud.go
--                     (Handlers), handler.go (Routes), request_logging.go (Logging), observability.go and
--                     audit.go (RequestLog), frontend_sidecar.go (Frontend)
--   Hub               internal/adapters/inbound/http/hub.go
--   Auth              internal/platform/auth/cognito.go: the pool's keys and the check of a token
--   Health            internal/platform/health/service.go
--   Valkey            internal/adapters/outbound/valkey: ack_repo.go and room_id_sequence.go (Acks),
--                     presence_repo.go (Presence), push_token_repo.go (PushTokens), room_repository.go
--                     (Rooms), stream_repo.go (Streams; Subscription takes the goroutine of a
--                     subscription as steps beside the hub), cached_repo.go (Breaker), client.go
--                     (Connect)
--   PushService       internal/adapters/outbound/push
--   Migrations        internal/platform/migrations/runner.go, over the server of Postgres
--   System            internal/adapters/outbound/system/id_clock.go
--   Telemetry         internal/platform/telemetry/telemetry.go: the counters and what they count, the
--                     page that shows them (Page), and setting up OpenTelemetry (Provider)
--   Config            internal/platform/config/config.go
--   Logger            internal/platform/logger/logger.go: the level of a logger
--   Server            cmd/server/main.go: the address for the frontend's proxy, the order of start-up
--                     and shutdown (Start), and the settings of the limiter (Limits)
--   Tests             an in-memory world, and the theorems at concrete inputs
--
-- How the code is read. A method that takes a context and returns an error is a call: from a state to
-- a result, which is a value or an error, and the state after it. The state is arbitrary in the use
-- cases, since what a port does to it is the adapter's affair; what a theorem needs of it is one of the
-- theorem's hypotheses. What a call has written before it fails stays written. A nil interface is an
-- empty option, an error value is a constructor of the type of errors, a map is an association list, a
-- set is a list without repetitions. Contexts and timeouts are left out, and so is logging but for what RequestLog says. Times count
-- nanoseconds from Go's zero time; a time before that would be the zero time itself.
--
-- Integers. Limits are integers of both signs. The room id generator computes in 64 and 32 bits, and
-- its wrap-around is written out, as is that of a key's exponent and of the bytes of a message id. Loops
-- are structural: on lists, on the six rounds of the obfuscation and on the width of a text of digits.
--
-- PostgreSQL is not part of the program: what a statement does to the tables is read off its text, and
-- which of the statements fail is a schedule that is arbitrary. Valkey is not part of it either: its
-- commands are the fields of Valkey.Client, and the theorems name what they need of them (HashLaws,
-- PresenceLaws). So are package jwt (Auth.Tokens.Verifies), the HTTP clients, and the circuit breaker.
--
-- How the parts meet. The records of Ports are the interfaces: a use case takes them as parameters, and
-- Postgres, RoomCache and the in-memory world of Tests fill them. WebSocket runs the use cases and
-- shows a client what Contract says of a sent message; Hub offers its frames to the clients of
-- WebSocket and runs Push for the members that are offline; Relay works on the outbox that SendMessage
-- fills. Http.Handlers runs the use cases and shows the report of Health, and Http.Routes puts the
-- validator of Auth in front of it; the repositories of Valkey fill the records of Ports for
-- acknowledgements, presence, push tokens, streams and the room cache.
--
-- Parameters for code that is not here: the digest behind a message's key, the JSON codecs, the base64
-- decoder, the orders by which texts and messages are sorted where the database sorts them, package jwt,
-- the HTTP clients, the clock and the random source of the ids, the directory of migrations and what
-- its statements do to the schema, the environment, the file system, floating-point numbers, the drivers
-- of the stores, and what echo answers of a request.
--
-- Fuel. Only the relay's loop runs for a number of ticks, which is a parameter: Relay.Drain says how many
-- are enough to empty an outbox.
--
-- Not modelled: Go's scheduler, and the interleaving of two requests but for the calls of the limiter;
-- the frameworks (echo, gorilla, pgx, valkey-go, zap, OpenTelemetry); handing the parts to one another at
-- start-up; the deadlines and pongs of a socket; the files of the frontend; which lines of the audit a
-- handler writes; a COMMIT of PostgreSQL that was carried out and whose answer was lost; the test support
-- of internal/testutil.
pub mod Prelude
pub mod Domain
pub mod Call
pub mod Ports
pub mod Application
pub mod RateLimit
pub mod Postgres
pub mod Relay
pub mod RoomCache
pub mod WebSocket
pub mod Hub
pub mod Auth
pub mod Health
pub mod Http
pub mod Valkey
pub mod PushService
pub mod Migrations
pub mod System
pub mod Telemetry
pub mod Config
pub mod Logger
pub mod Server
pub mod Tests
