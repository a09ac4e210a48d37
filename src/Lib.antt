-- ===== src/Lib.antt =====
-- Models of icyre, a music streaming platform of Go services, and the theorems about them.
--
-- The program. Each service (services/<name>) has a domain package, an application package with
-- its use cases, and adapters: PostgreSQL for its tables, Kafka for its events, Redis and HTTP for
-- the rest. A use case reads and writes its tables in a unit of work
-- (libs/platform/postgres/tx.go) and puts its events into an outbox table in the same transaction
-- (libs/platform/outbox/outbox.go); a relay (libs/platform/outbox/relay.go) takes them to Kafka,
-- and workers (workers/<name>) consume them.
--
-- Which file models what.
--   Prelude              shared names, Boolean tests, lists, sorting, texts as code points
--   Platform/Postgres    libs/platform/postgres/tx.go (`in_tx` is InTx), and the calls of the driver;
--                        its children are the proof rules for code built from such calls
--   Platform/Outbox      libs/platform/outbox/{outbox,relay}.go and Publish of
--                        libs/platform/kafka/producer.go (`write` is Write, `relay_once` is RelayOnce,
--                        `run` is Run); TableName is checkTable, Announce the publishers of services
--   Platform/Kafka       libs/platform/kafka/consumer.go (`process`, `to_dlq` and `run` are process,
--                        toDLQ and Run); Batch is batch.go there
--   Keyset               the keyset pages of services/library and services/social; Encoding is the text
--                        of their cursors (Encode, DecodeCursor), over Base64
--   Playlist             services/playlist/internal/domain/playlist.go (`check_order` is CheckOrder);
--                        Title is NormalizeTitle; Repository has the methods of
--                        adapters/postgres/repository.go, and Repository/Sql their statements; Service
--                        is application/service.go with the events of adapters/kafka/publisher.go
--   Auth                 services/auth/internal/domain/domain.go; Repository has the methods of
--                        adapters/postgres/repositories.go, and Repository/Sql their statements; Service
--                        is application/service.go; History is about the interleavings of statements;
--                        Throttle is adapters/redis/throttle.go
--   Library              services/library/internal/domain/library.go; Repository is
--                        adapters/postgres/repository.go, Service is application/service.go with the
--                        events of adapters/kafka/publisher.go
--   Social               services/social/internal/domain/social.go; Repository is
--                        adapters/postgres/repository.go, and Sql its statements; Service is
--                        application/service.go with the events of adapters/kafka/publisher.go
--   Catalog              services/catalog/internal/domain/track.go; Tracks is the repository of tracks of
--                        adapters/postgres/repositories.go with the requests of
--                        application/usecases.go that change a track
--   StreamAuth           services/stream-auth/internal/domain/stream.go and application/service.go
--   UserProfile          services/user-profile/internal/domain/profile.go; Changes is its Apply,
--                        Registration (CreateForNewUser) and Update are application/service.go with
--                        adapters/postgres/repository.go
--   MediaIngest          services/media-ingest/internal/domain/upload.go, with the reasons and keys of
--                        libs/contracts; Repository is adapters/postgres/repository.go, Service is
--                        application/service.go; History is about the order of its transactions
--
-- How state and failure are modelled. A piece of code is a function from a world, which holds the
-- database, what lies outside it (a topic, Redis) and one flag for each call to come, to a result
-- and a world. A call whose flag is set fails and does nothing, so that a theorem for all worlds
-- covers every pattern of failures. An error that the code tells apart by errors.Is is a value of
-- the service's error type; any other one is `fault`. A table is the list of its rows, and a
-- statement a function on it, with the constraints of the migrations.
--
-- What the models rely on, as parameters. `Pgx` is pgx.BeginFunc: it commits if the function
-- returned nil and rolls back otherwise. `Broker` is ProduceSync of franz-go: an acknowledged
-- batch is in the topic in its order. `Mail` is strings.ToLower and net/mail, `Deps` the ports of
-- Auth for hashing, tokens and Redis, `Storage` the bucket of uploads, `Redis` the counters of the
-- throttle, `Json` the JSON of a cursor, `Cases` the letters' cases, the `Deps` of StreamAuth the Catalog, the object store and
-- the signer, `Client` the handler, the pauses, the sink and the client of a Kafka consumer.
-- Platform/Postgres/Reference is an instance of `Pgx`. The clock, new UUIDs and new
-- tokens are arguments.
--
-- Bounds. Loops are recursions on a list or on the attempts that are left. The endless loops of the
-- relay and of the consumers are modelled by their rounds up to the end of the context, as a list.
-- Only a client that walks through pages takes fuel, for which one more than the rows is enough.
--
-- Not modelled. Auth and Catalog keep times in microseconds, as their tables do. Times are whole numbers in
-- UTC, and a UUID is a number. The gaps of identity columns, the overflow of a track's position
-- (int4), a negative page limit (read as 0), JSON and headers of messages, metrics, logs and HTTP
-- handlers are left out, and so are the other services and the workers, of which some only wrap
-- libraries or external programs. Two transactions of the Playlist service run one after the
-- other, which its row lock enforces for one playlist, and so do two that settle one upload, for the
-- same reason. Only Platform/Outbox/Delivery lets transactions overlap: elsewhere a row of the outbox
-- takes its number as if no other transaction ran.
pub mod Prelude
pub mod Platform
pub mod Playlist
pub mod Auth
pub mod MediaIngest
pub mod Keyset
pub mod Library
pub mod Social
pub mod Catalog
pub mod StreamAuth
pub mod UserProfile
