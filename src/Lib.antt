-- ===== src/Lib.antt =====
-- A verification library for the URL shortener.
--
-- The program makes short links and redirects by them. Its core is internal/link: a domain of links
-- with a lifecycle and a version, use cases over ports, and adapters that implement the ports. A
-- link is created under a random code; its owner changes it with the version that the owner has
-- seen; a visitor is redirected through a read model, which a cache may hold.
--
-- Shared modules:
--   Prelude, Prelude/*      numbers, lists, integers and maps for all the files
--   Text, Text/*            Go strings: trimming, lower case, decimal printing and parsing
--   Time                    time.Time and time.Duration: numbers of nanoseconds
--   Errors, Io              Go errors, early returns, and code that changes a state
--   Net                     what the program uses of net/url, as a parameter with its laws
--
-- Parts of the program:
--   Domain/Status           internal/link/domain/status.go
--   Domain/Destination      internal/link/domain/destination_url.go
--   Domain/Link             internal/link/domain/link.go: Link, NewLink, RehydrateLink, read methods
--   Domain/Link/Methods     internal/link/domain/link.go: the methods with a pointer receiver
--   Domain/Mapping          internal/link/domain/redirect_mapping.go
--   Ports                   internal/link/ports: an interface is a record of operations on a state
--   Memory/Repository       internal/link/adapters/memory/repository.go
--   Memory/Idempotency      internal/link/adapters/memory/idempotency.go
--   Application/Management  internal/link/application: get_managed_link.go and change_link_*.go
--   Application/Creation    internal/link/application/create_generated_link.go
--   Application/Cache       internal/link/application: cache_aside_resolver.go,
--                           redirect_cache_refresher.go, cache_refreshing_repository.go,
--                           repository_resolver.go
--   Application/Redirect    internal/link/application/redirect_link.go
--   Redis                   internal/link/adapters/redis/redirect_cache.go: the script, PutIfNewer
--   Redis/Decode            internal/link/adapters/redis/redirect_cache.go: Get
--   Codegen                 internal/link/adapters/codegen/base62.go
--   Application/Lookups     internal/link/application: link_finder.go and time_provider.go
--   Postgres                what the program uses of PostgreSQL, as a parameter
--   Postgres/Laws           what the adapters rely on in it
--   Postgres/Repository     internal/link/adapters/postgres/repository.go
--   Postgres/Store          internal/link/adapters/postgres/idempotency.go and
--                           internal/analytics/adapters/postgres/redirect_event_recorder.go
--   Migrations              internal/storage/postgres/migrations.go: the files and their order
--   Migrations/Run          internal/storage/postgres/migrations.go: the run
--   Migrations/Command      cmd/migrate/main.go
--   Analytics               internal/analytics: domain, ports and the recorder in memory
--   Metrics                 internal/metrics/recorder.go: the histogram
--   Metrics/Recorder        internal/metrics/recorder.go: counters, snapshot and handler
--   Access                  the token check of internal/health/health.go and of
--                           internal/metrics/recorder.go
--   Health                  internal/health/health.go
--   Config                  internal/config/config.go
--   Http, Http/Etag         internal/link/adapters/httpapi: error answers, If-Match and ETag
--   Http/Handler            internal/link/adapters/httpapi/handler.go: creation and redirects
--   Http/Patch              internal/link/adapters/httpapi/management_handler.go: Get and Patch
--   Application/Concurrent  the change requests of internal/link/application, several at once
--   Application/Creation/Race
--                           create_generated_link.go: several creations at once
--   Server                  cmd/linkd/main.go: the parts that the server is built of, and its handlers
--   Server/Process          cmd/linkd/main.go: run, from the configuration to the shutdown
--   Tests, Tests/*          concrete parameters and runs
--
-- The use cases take any implementation of their ports, over any state; Ports/Laws.antt says what
-- they rely on. An operation is a function from the state to a result and the state as the code left
-- it, also beside an error. A Go method Execute of a use case has the name of the use case here:
-- ChangeLinkStatus.Execute is change_link_status, CreateGeneratedLink.Execute is
-- create_generated_link. A lock that a method holds throughout makes the method one step. A context
-- is the error that ctx.Err() gives while the call runs, or nothing.
--
-- Bounds and fuel: versions and counters are uint64 and wrap; a theorem that needs them not to wrap
-- says so. The loop of create_generated_link counts its rounds as the code does. The loop of the code
-- generator runs over a list of the answers of its reader, and a run that the list does not finish
-- is told apart. Printing a number takes one digit of fuel more than the number, which is enough.
--
-- Application/Concurrent and Application/Creation/Race take the Execute methods of the change requests
-- and of the creations apart into their calls on the shared state, which the goroutines of a server
-- make in any order: a schedule is a list of events, each the next call of one request, or an
-- insertion, a lookup or a clock reading that some other request makes. A call is one step: it holds
-- a lock, or writes by one statement of a database.
--
-- The Location header of a redirect is the destination itself; that http.Redirect escapes what is not
-- ASCII in it is outside the model. So is a second migrator at the same time: the recorded history is
-- taken to stand still while a run of the migrations waits for its lock.
--
-- Not modelled: the sockets of net/http and the choice that its ServeMux makes among the patterns,
-- the signals themselves, JSON, the system clock, and the SQL of the migration scripts, which are
-- input and output round the parts above. PostgreSQL and Redis are parameters: the statements of the
-- adapters are operations of a database whose laws Postgres/Laws.antt and
-- Migrations/Run/History.antt state. Durations that only feed the metrics, the uptime in a snapshot,
-- and the text of errors decide nothing and are left out.
pub mod Prelude
pub mod Text
pub mod Time
pub mod Errors
pub mod Io
pub mod Migrations
pub mod Net
pub mod Domain
pub mod Ports
pub mod Postgres
pub mod Memory
pub mod Application
pub mod Redis
pub mod Codegen
pub mod Analytics
pub mod Access
pub mod Health
pub mod Metrics
pub mod Config
pub mod Http
pub mod Server
mod Tests
