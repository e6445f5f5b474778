-- ===== src/Lib.antt =====
-- pgwarden backs up PostgreSQL databases: a scheduler and an API put executions into a queue in the
-- metadata database, workers claim them, dump the database and upload the archive; a discovery finds servers
-- and registers their databases; role-based access decides who sees and restores what. The modules, with the
-- code of each (paths from the repository's root):
--
--   Plan       planDataJobs: which tables each pg_dump process of a parallel dump takes
--              (internal/integration/postgres/parallel_dump.go)
--   Dump       arguments of pg_dump, the limits of a parallel dump, the entries of its archive and the writers
--              below it (parallel_dump.go and postgres.go of internal/integration/postgres)
--   Queue      the table of executions, its index and statements, EnqueueExecution, ClaimExecution, heartbeat and
--              reaper (internal/service/executions/run_execution.go and the SQL files beside it)
--   Run        RunClaimedExecution (internal/service/executions/run_execution.go)
--   Retention  which executions expire, how they are deleted and purged: HousekeepExecutions and
--              SoftDeleteExecution (soft_delete_expired_executions.go, soft_delete_execution.go and
--              purge_deleted_executions.sql of internal/service/executions)
--   Worker     the rounds of a worker on the queue (internal/service/worker/worker.go)
--   Restore    what a job of the restorations' queue does: RunRestoration, RunClaimedRestoration and the owner
--              fix (internal/service/restorations), with the statements of internal/integration/postgres/admin.go
--   Unpack     the files of an archive, and the goroutines that feed its data to psql
--              (internal/integration/postgres/restore.go)
--   Sanitize   the filter on a dump's lines (internal/integration/postgres/dump_sanitize.go)
--   Presets    the restore presets, and how a restore gets into the queue: StartRestore, FixOwner,
--              EnqueueRestoration (internal/service/restorations), PreflightTarget (admin.go)
--   Auth       bearer tokens and the groups of their claims (internal/service/auth/bearer.go, groups.go)
--   LogTail    the tail of a dump's log and the progress reader (internal/util/logtail, internal/util/progress)
--   Paths      CreatePath and its neighbours (internal/util/strutil)
--   Config     the discovery's configuration and its schedule (internal/service/discovery/config.go, randomCron)
--   Scan       the port scan of a host (discoverClusters in internal/service/discovery/discovery.go)
--   Discovery  runLocked, ensureBackup, ensureDatabase, beginRun and Running (the same file)
--   Conn       parsing and printing of connection strings (internal/integration/postgres/connstring.go)
--   Pages      pages of a list (internal/util/paginateutil, PaginateEvents)
--   Rbac       the decisions of internal/service/rbac/rbac.go
--   Commas     IntWithCommas (internal/util/numutil/int_with_commas.go)
--   Go         functions of packages strings and strconv; Prelude: lists, texts, tests and results
--
-- A text is its list of bytes, and Go's integers are natural numbers or the type ℤ of Go.Strconv, with the
-- wrap-around of int64 written out where the code multiplies. A Go function with an error result returns a
-- Result. A statement of SQL is one atomic step on the table; processes interleave as a sequence of steps. Run
-- uses Queue's update, LogTail's text of the log, Dump's options and Paths; Worker is Queue's claim followed by
-- Run, round after round; Dump uses Plan; Unpack restores what Dump's parallel dump returned; Restore and
-- Presets use Conn and Dump's versions; Discovery uses Config and Scan.
--
-- The metadata database's failures, PostgreSQL, S3, the clock, UUIDs, random draws and the network are arguments of
-- the functions that use them. Goroutines appear through the order of their results, in Unpack as steps. A
-- restoration is a monad of a trace of actions and a result. Loops are structural, but for five that run on fuel: the lines of a log tail (fuel: the length of the text, since a round takes a line
-- break), the chunks of a writer (the length of the text, since a chunk takes a byte), the digits and the groups of
-- a number (more than the number, which each round divides) and the rounds of a worker (how many are enough is a
-- theorem). Not modelled: the web interface, storage, the settings, sessions and logins, the table of restorations
-- but for the rows that a job writes, the zip format; running processes; the texts of the discovery's messages. A sum of table sizes past 2^63 is out of
-- the model.
pub mod Prelude
pub mod Go
pub mod Plan
pub mod Dump
pub mod Paths
pub mod Queue
pub mod LogTail
pub mod Restore
pub mod Unpack
pub mod Sanitize
pub mod Presets
pub mod Run
pub mod Worker
pub mod Auth
pub mod Rbac
pub mod Config
pub mod Scan
pub mod Discovery
pub mod Conn
pub mod Pages
pub mod Commas
pub mod Retention
