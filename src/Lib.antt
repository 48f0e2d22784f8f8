-- ===== src/Lib.antt =====
-- A model of helix-fnd, a foundation library for Go services: the start and shutdown of a
-- service, its configuration and connections, Kafka producers and consumers, audit logging, HTTP
-- and gRPC middlewares, token verification, and error responses.
--
-- The runner calls a service's main function, which loads a configuration, opens Postgres and
-- Redis, starts the consumers, and starts the HTTP and gRPC servers until a signal cancels its
-- context. A request passes middlewares, which a service puts in an order of its own: security
-- headers, access log, metrics, recovery, trace ids, rate limit, authentication, idempotency.
-- Each wraps the next handler, reads or extends the request's context, and may answer by itself.
-- Authentication asks a strategy, which asks the JWKS client for the key that signed the token.
-- Errors of the database become codes, and codes become statuses. A consumer polls Kafka, retries
-- each record, and commits what was settled. The producer puts the trace of its caller into the
-- headers of a record, from which the consumer takes it. The audit logger passes events through a
-- channel to one worker, and the Kafka logger hands them to Kafka.
--
-- The files and the code:
--
-- - Messaging: messaging/consumer.go. Env holds the configuration, the handler and the
--   dead-letter producer; Retry is processWithRetry, one turn of its loop at a time; Loop is
--   Start, with the span around each record and the fuel of the polls and of the retries, and
--   Loop/Gapless counts what was polled against what was committed; Loop/Total is about the fuel,
--   and Loop/Headers about the carrier of a record; Consumer is the constructor. Producer is
--   messaging/producer.go, and Manager is messaging/manager.go with its goroutines and its
--   WaitGroup as steps.
-- - Audit: audit/audit.go and audit/async_writer.go. Async is the channel, Log, worker and Close;
--   Drops has the atomic operations of handleDrop as steps, so that callers interleave. Kafka is
--   audit/kafka_logger.go.
-- - RateLimit: server/middleware/ratelimit.go and grpc_ratelimit.go. Gcra is the Lua script over
--   a key with its expiry; Gcra/Bucket has a token bucket, as a specification of the script; Http
--   and Grpc are the middlewares; Arrivals and Traffic join them to one Redis and send them a
--   stream of requests and calls.
-- - Middleware: server/middleware/idempotency.go (Idempotency/Once while a key is held,
--   Idempotency/Spacing with its expiry), recovery.go, grpc_recovery.go and trace.go; Base is
--   base.go and metrics.go. Gate says what it is for one of them to turn a request away or to let
--   it pass, and Gate/Service puts the recovery, the rate limit, the authentication and the
--   idempotency of HTTP behind one another, over one state.
-- - Server: server/server.go, where Start, its goroutines and the shutdown are a step relation;
--   Health is server/health/checker.go.
-- - App and Config: app/app.go; config/loader.go and app/config.go.
-- - Auth: server/middleware/auth.go and strategy_jwt.go; Jwt/Signed joins them to the JWKS
--   client, and Jwt/Recovered puts the recovery around them. Jwt/Identity is about whom an
--   authenticated context names. Headers and Jwt/Order are about the order in which a map of
--   headers is ranged over.
-- - Crypto: crypto/jwks_client.go, claims.go and hash.go. Jwks takes one call at a time, and
--   Jwks/Leeway is about the times that are checked twice; Jwks/Concurrent (with Concurrent/Work
--   and Concurrent/Progress on what is left to do for them) has the lookups of many callers, the
--   refresher and the shared refresh as steps, between which the locks let others run.
-- - Context: pkg/contextx/context.go.
-- - Response and Database: http/response and database/errors.go; Database/Postgres is
--   database/postgres.go.
-- - Cache: cache/redis.go, where a command may also panic.
-- - Tracing: what the code uses of OpenTelemetry's spans, as a list of calls.
-- - Log: log/logger.go and pkg/telemetry/otel_handler.go, with what slog does with a ReplaceAttr
--   function; Log/Pipeline is New, the wrapping handler and slog's JSON handler around them, from
--   the call of a logger to the attributes of a line.
-- - Http, Grpc and Text: what the code uses of Go's net/http, net, strings, strconv and
--   net/textproto and of grpc-go, and no more.
-- - Prelude: integers, lists, maps and Boolean tests that the others share.
--
-- A handler takes the state of its surroundings and its response, and returns them or panics with
-- them. Redis, Kafka, bcrypt, the JWT parser, the JSON encoder, the clock and the generator of
-- UUIDs are parameters; where a theorem relies on what their documentation promises, this is a
-- record of named hypotheses. What a token says by itself, its header, its claims and its
-- signature, is one more parameter, which the JWT parser and the theorems share.
--
-- Bounds. The loop of processWithRetry runs on fuel, of which MaxRetries is enough, where it is
-- positive, for Start to get through any number of polls; with an unlimited MaxRetries the loop
-- need not end. Delays and 64-bit integers keep their wrap-around. Times in the rate limit script
-- are counted in units of 1 / (rate * 10^9) seconds, so that its quotients are whole numbers; the
-- script's floating point, and the printing of the number that it stores, are not modelled. Case
-- mapping and white space are those of ASCII.
--
-- Not modelled: a handler of records that never returns; a second call of the manager's Close
-- while one runs; the contents of log lines, unless the text says so; goroutine scheduling other
-- than in Drops, Async, Server, Manager and Jwks/Concurrent; timeouts of pings and shutdowns,
-- which the libraries observe; the options of the Kafka clients and the fields of http.Server and
-- tls.Config, which are constants passed on; the console handler of the package tint;
-- informational statuses; OTelMiddleware, DialHook and RegisterRoutes, which pass their arguments
-- to a library; and audit/config.go, which no code reads.
pub mod App
pub mod Audit
pub mod Auth
pub mod Cache
pub mod Config
pub mod Context
pub mod Crypto
pub mod Database
pub mod Grpc
pub mod Http
pub mod Log
pub mod Messaging
pub mod Middleware
pub mod Prelude
pub mod RateLimit
pub mod Response
pub mod Server
pub mod Text
pub mod Tracing
