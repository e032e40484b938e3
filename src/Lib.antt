-- ===== src/Lib.antt =====
-- The verification library of the cooking platform: a Go service in which users publish posts, like
-- them and follow each other. A request passes the middleware and goes to a service, which reads and
-- writes Redis and MySQL and hands an event to the event bus; consumers take the events, drop
-- redelivered ones, and write rows and counters to MySQL in batches.
--
-- The parts, and the files that model them:
--   * Errcode: pkg/errcode/errcode.go and `FromError` of pkg/response/response.go. `AppError` has one
--     constructor for each `Err…` variable; `GoError` is a Go error as the code tells it apart.
--   * Config: the settings of pkg/config/config.go, with `validate` in Config.Checks and
--     Config.Validation.
--   * Model, Events: the rows of internal/model and the events of internal/event/types.go. A payload
--     is its record, not its JSON text.
--   * Crypto, Jwt, Oss: pkg/crypto, pkg/jwt and pkg/oss/whitelist.go.
--   * Cache: internal/cache. Cache.Redis has the commands of the like cache with what Redis documents
--     of them, Cache.Like the like cache with its two Lua scripts (Effects, Adding and Removing prove
--     what its methods do), Cache.Dedup and Cache.Marker the event ids and the write markers,
--     Cache.User the codes, limits and revoked tokens, Cache.Feed the pages and views
--     (RoundTrip is about what is read back).
--   * Repository: Likes, Follows, Users and Posts of internal/repository, over the SQL statements.
--   * Service: internal/service, with Redis, the database and the events handed to the bus in one
--     `World`. Service.Like and Service.Follow (Service.Like.Trace is about sequences of calls,
--     Service.Follow.Pages about a client that reads a list page by page); Service.User with Codes,
--     Login, Session and Profile; Service.Post with Writing, Reading, Feed and Pages;
--     Service.Authors, which is author_assembler.go; Service.Search; and Service.Upload, with
--     internal/cache/upload_cache.go.
--   * Bus: Bus.Channel is internal/event/channel.go, whose goroutines act on the bus one at a time.
--     Bus.Rabbit is `Publish` of internal/event/rabbitmq.go with its retries, Bus.Rabbit.Connection
--     its connection, and Bus.Rabbit.Subscription `Subscribe`, where what the `select` of a session
--     receives is a record.
--   * Consumer: Like, View, Count and Audit of internal/consumer. The variables of a `flushLoop` are a
--     state record; what its `select` receives is a list, so that the theorems hold for every order of
--     events and ticks; the case that the `select` of the view handler takes is given with each event.
--     `flush_loop` ends with the cancellation, the drain of the channel and the last flush.
--     Consumer.Like.Scale is `scaleDeltas`.
--   * Middleware: Middleware.RateLimit is the sliding window of internal/middleware/ratelimit.go,
--     Middleware.Auth the bearer token of internal/middleware/auth.go and the keys of the limits.
--   * Migration: cmd/migrate-phone/main.go, the encryption of stored phone numbers.
--   * Strconv, Strings: what the source uses of the Go packages. Strings works on the bytes of
--     UTF-8, Strings.Runes on runes, both with the white space of Unicode; case is that of ASCII.
--   * Action: functions that return `(T, error)` and act on a state; Action.Keeps has the rules for
--     what an action leaves as it was. Prelude: shared names, lists, integers and byte strings.
--   * Tests: the parameters held in memory, small runs, and the theorems applied to them.
--
-- Redis, MySQL, the AMQP client, the object store, the cryptographic and the JSON packages are
-- parameters: records of operations over a state, with named records for what their documentation
-- promises (`RedisLaws`, `LikeTablesLaws`, `FollowTableLaws`, `JwtLaws`, …). Most laws speak of a
-- command that succeeds, `AuditLaws` of a failed update as well; theorems that need every statement to
-- succeed say so. The laws of Redis assume that no key expires between the calls of a theorem.
--
-- Ids, counts and times are natural numbers; an int64 that may be negative is an integer. Sums of
-- batches stay far below 2^63 and are not wrapped; `uint32` of a like count is, and so is the offset
-- in the cursor of a search. A Go map is an association list in the order in which it is ranged over.
-- Loops are structural recursion: over what is received, over the rows, and over the attempts left,
-- which `Publish` and `Subscribe` count down from their configured number. The loop over the batches
-- of the migration runs on fuel, and more fuel than there are rows is enough. Log lines and metrics
-- are left out.
--
-- Not modelled: the audit providers, the clients of the message and storage providers, the middleware
-- that sets headers, logs or counts, the consumer manager, whose goroutines and wait group only start
-- and stop the consumers, the HTTP handlers, and start-up.
pub mod Prelude
pub mod Errcode
pub mod Strconv
pub mod Crypto
pub mod Jwt
pub mod Strings
pub mod Oss
pub mod Action
pub mod Cache
pub mod Repository
pub mod Consumer
pub mod Model
pub mod Config
pub mod Migration
pub mod Events
pub mod Bus
pub mod Service
pub mod Middleware
pub mod Tests
