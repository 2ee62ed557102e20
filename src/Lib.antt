-- ===== src/Lib.antt =====
-- The indexing core of pubky-nexus: nexus-watcher follows homeservers, turns their events into
-- graph and cache writes, and retries what fails.
--
-- The parts, and the files that model them (paths from the repository's root):
--   Errors     nexus-watcher/src/errors.rs, nexus-watcher/src/homeserver/error.rs and the error types
--              of nexus-common: every error, the conversions between them, and the tests that decide
--              whether an error stops a run, is retried or is dropped.
--   Event      nexus-watcher/src/events/event.rs: event lines and stream events.
--   Retry      nexus-watcher/src/events/retry/: entries and their keys (Entry), the store as an
--              interface (Store), in memory (InMemory) and in Redis (Redis, Nonce), the scheduler
--              (Scheduler), the processor (Processor) and its backoff (Backoff).
--   Homeserver nexus-common/src/models/homeserver.rs: the stored cursor of a homeserver, over the
--              Redis commands as an interface (`CursorIndex`).
--   Indexer    nexus-watcher/src/service/indexer/: how a processor deals with one event (Processor,
--              for mod.rs), one batch of the primary homeserver (Primary, for homeserver.rs), one
--              batch of one user's stream and a run over all users (UserEvents and UserRun, for
--              key_based.rs).
--   Runner     nexus-watcher/src/service/runner/ and nexus-watcher/src/service/stats.rs: the loop
--              over the homeservers (Run) and what is kept in memory between runs, the backoff of a
--              homeserver (HsBackoff), the skips of a user (UserBackoff) and the resume points
--              (Resume).
--   Resolver   nexus-watcher/src/service/user_hs_resolver.rs: a round over the users whose homeserver
--              is looked up (Run), the order of the lookups (Bisection), the waiting of users who
--              publish nothing (Unbound), one resolution and its labels (Resolve); and the records
--              that users publish (Record), nexus-common/src/models/user/homeserver_resolver.rs.
--   Keyset     nexus-common/src/db/graph/pagination.rs: the scan over the pages of a graph query.
--   Jobs       nexusd/src/jobs/: the lock of a job (Lock, for lock.rs), one fire of it by the scheduler
--              or on demand (Fire, for scheduler.rs and runner.rs), and the loop over its schedule
--              (Scheduler, for scheduler.rs).
--   Base       lists, maps, results, machine words and orders that the parts share.
--
-- How the parts meet. A processor hands an event to its handler; an error is classified by Errors and
-- goes to the scheduler, which writes a retry entry. The retry processor takes due entries from the
-- store, parses them again as Event does and settles each one. A runner builds a processor for each
-- homeserver in turn and keeps the backoff between runs. The primary homeserver's run stores its
-- cursor through Homeserver; the run of any other goes over its users in the order that the resume
-- points give. The resolver decides which homeserver a user is bound to and whether that binding is
-- stale, which is what the primary's run asks the graph for. The retry queue is used through
-- `RetryStore`, which the in-memory store and the Redis store implement. Every fire of a daemon job
-- goes through the lock.
--
-- How the code is modelled. An async method is a step: it takes the world and returns a result and
-- the new world. The clock, the shutdown flag, handlers and stores are parameters that may change
-- the world at each read, which is where other tasks act. What the source calls but does not
-- contain is a parameter: the URI grammar of pubky-app-specs (`Specs`), the texts of errors
-- (`Messages`), the hash behind an index key, keys and signed packets (`Pkarr`), and the
-- database that runs a query (`Graph`, whose queries are modelled as changes of one user), the
-- commands of Redis and the JSON library under the retry queue (`Commands`, `Connection`, `Json`), the
-- backend of the job lock (`RunLock`), and the cron library and the clock of a job (`Daemon`).
-- A `HashMap` is an association list in which the first entry of a key counts. An `i64` is its bit
-- pattern, and `u32` and `u64` sums and products wrap, as they do in a release build. Log lines and
-- metrics are left out.
--
-- Fuel. The retry processor's outer loop, the keyset scan and the bisection run on fuel and answer
-- `none` when it runs out. One batch more than there are keys is enough for the scan, and `2 n + 2`
-- rounds for the bisection of `n` keys. The loop of a scheduled job has no end of its own: its fuel is
-- the number of fires looked at, and what is stated of it holds for any number. Every other loop is
-- structural.
--
-- Not modelled: the other graph and Redis queries, the HTTP interface, network access, the daemon's
-- supervision of its jobs, its registry and its migrations, and the handlers of the single event kinds.
pub mod Base
pub mod Errors
pub mod Event
pub mod Keyset
pub mod Retry
pub mod Homeserver
pub mod Indexer
pub mod Runner
pub mod Resolver
pub mod Jobs
