-- ===== src/Lib.antt =====
-- The core of a small hosting platform: tenants register and hold API keys, run services in Docker
-- containers, and a reconciler repairs what the database says of them. Paths are from the
-- repository's root.
--
-- Parts and files:
--   Prelude          Booleans, lists over the native numbers and text as bytes, for all modules.
--   Store            the rows of the state database (internal/db/migrations).
--   Runtime          the actions on a `World` (database, Docker calls made, queue, slots) in an
--                    `Env` that answers for SQLite's failures, Docker, the clock, randomness and
--                    the other goroutines; Keeps and Post are the reasoning about actions.
--   Services         internal/services: Validate (ValidateImage, ValidateEnvVars), Rows (getOwned,
--                    the status updates), Launch and Deploy (Deploy, DeployImage), Control (Stop,
--                    Start, Restart, Delete, StopAllForTenant, Get, List, Logs,
--                    ResetCircuitBreaker), EnvVars (Create, SetEnv, GetEnv, DeleteEnv). The others
--                    are their theorems.
--   Reconciler       internal/reconciler: Breaker (the SQL of the circuit breaker as updates of a
--                    row), Loop (reconcileOnce and its passes); Window, Outage and Recover are
--                    their theorems.
--   BoundedMap       the Go maps with eviction of the oldest entry, and their laws.
--   Auth             internal/middleware/auth.go: Token (the header), Cache (authCache,
--                    lastUsedTracker), Gate (the request path), Keys (handleKeyCreate,
--                    handleKeyRevoke, handleTenantDelete of internal/api); Backing, Coherent and
--                    Access hold the invariant of the cache and what follows from it.
--   Idempotency      internal/middleware/idempotency.go: the recorder, the store, the middleware.
--   Registration     internal/api/tenants.go: Limit (registrationLimiter), Email (emailRegex),
--                    Handler (handleTenantRegister),
--                    Profile (handleTenantGet, handleTenantUpdate).
--   Server           internal/api/server.go: which proxy headers a request is believed, the HTTPS
--                    check, the address of the client; Routes is the table of setupRoutes with the
--                    middlewares in front of each; Replies is what the handlers share. The
--                    handlers stand with their managers: Services.Handlers, Builds.Handlers and
--                    Databases.Handlers (internal/api/services.go, builds.go, databases.go), over
--                    the errors' texts in Services.Messages.
--   RateLimit        internal/middleware/ratelimit.go: a bucket for each tenant, and one for all.
--   Databases        internal/databases/databases.go: Rows (updateStatus, the SQL, the texts), Ports
--                    (findFreePort), Provision (Create and the wait for the new database), Control
--                    (Get, List, GetConnectionString, Delete, ReconcileStale), Handlers
--                    (internal/api/databases.go). Least, Wait, Cleanup, Removal, Secrets, RoundTrip
--                    and Answers are their theorems.
--   Gc               internal/gc/gc.go: Collect (collectOnce and its searches, cleanOldBuildDirs);
--                    Audit is the reasoning about what a pass may call, Listing what Docker lists,
--                    Spared the theorem.
--   Builds           internal/builds/builds.go and internal/builder/builder.go: Validate
--                    (validateGitURL, validateSourceRef), Site (the manager's and the builder's
--                    state, the log), Job (runBuild with Build, one goroutine cut into steps),
--                    Control (StartBuild, CancelBuild, GetBuild, reconcileStaleBuilds), Steps (the
--                    interleaving of all of them as a list of events). The others are theorems.
--   Docker           internal/docker/client.go over the Docker SDK: Launch (EnsureNetwork,
--                    RunContainer, RunDatabase), Client (the other methods of Client). Confined and
--                    Started are their theorems, on the log of the SDK's calls.
--   Migrations       internal/db/db.go: Open and runMigrations; Replay and Again are its theorems.
--   Crypto           internal/crypto/crypto.go: Encrypt and Decrypt over a cipher and a codec.
--   Backup           cmd/ah/backup.go: Retention (enforceRetention), Files (backupSQLite,
--                    gzipFileAtomic), Command (runBackup). The others are its theorems.
--   Startup          cmd/ah/main.go up to the configured server.
--
-- How they interact: the reconciler and the service manager share the rows of the database; a
-- deletion of a tenant changes tenants and keys, empties the cache of that tenant, and goes on to
-- Services.Control.stop_all_for_tenant. The collector asks the rows of services and databases before
-- it removes what Docker lists; a build that succeeds hands its image to DeployImage, which stands in
-- Builds as the list of the images handed over.
--
-- Conventions. A statement on the database succeeds or fails as the `Env` or a Boolean of the
-- request says, and a transaction that does not commit leaves the database as it was. What other
-- goroutines do while Docker works is a function of the `Env`; what they do between the query of
-- an authentication and its cache.set is a function of the request, what they do to a key count
-- before its insertion is the count itself, and Create's check and its insertion can be run
-- apart. Code outside the repository is a parameter: HMAC, SHA-256, the cipher, Docker, SQLite's
-- failures, the handler under a middleware. Loops are recursions on a list or on a counter of the
-- source; only the wait for a new database needs fuel, 31 rounds, which Databases.Wait shows to
-- be enough. Unix times are seconds; the caches and limiters count nanoseconds. An int64 that
-- cannot be negative in the code is a natural number; the bounds on ports, sizes and counts are
-- the source's.
--
-- Not modelled: logging, JSON, the matching of paths, the shutdown, the health handlers' shell
-- commands, disk checks and passwords' hashes, which are input, output or calls of libraries; the
-- sending of log lines to subscribers; the tickers and the recovery from panics around the
-- collector and the reconciler. Requests of the middlewares are single steps, but for the gap
-- between the query of an authentication and its cache.set: what two requests do between the
-- locks of one of them is not modelled. In Builds a step of a goroutine ends where it waits for a
-- lock or a process, and behind the update to running; the line and the status that end a build,
-- or that hand it to its deploy, are statements of one step. The lines that a process writes are
-- events of their own. The managers take the Docker client as an interface (Env); Docker is that
-- client by itself.
pub mod Prelude
pub mod Store
pub mod Runtime
pub mod Services
pub mod Reconciler
pub mod Server
pub mod BoundedMap
pub mod Builds
pub mod Databases
pub mod Gc
pub mod Auth
pub mod Idempotency
pub mod Registration
pub mod RateLimit
pub mod Backup
pub mod Migrations
pub mod Docker
pub mod Startup
pub mod Crypto
