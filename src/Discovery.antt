-- ===== src/Discovery.antt =====
-- internal/service/discovery/discovery.go: a run of the discovery, which registers the databases that it
-- finds. The scan of a host is module Scan. PostgreSQL servers, the metadata database's failures, uuid.Parse and
-- the cron draw are outside: they are the arguments `Calls`. The state holds the events that are handed to logEvent, in order;
-- which of them get into the table is `event_rows`, since logEvent ignores the insertion's error.
pub mod Register
pub mod Tally
pub mod Counters
pub mod Registered
pub mod Lock
mod Tests
use pgwarden.Prelude.{
  ℕ, zero, suc, ◌+◌, Bool, true, false, not, ◌&&◌, ◌||◌, Option, none, some, Result, ok, err, List,
  [], ◌∷◌, ◌++◌, map, keep, Bytes, codes, text_eq, any, ltb, is_empty, if◌then◌else◌,
}
use pgwarden.Queue.{is_none}
use pgwarden.Go.Strconv.{ℤ, pos, negsuc, exceeds, itoa}
use pgwarden.Config.{
  Config, DefaultsConfig, HostConfig, ClusterConfig, ConfigError, tag_for_host, max_db_size_bytes,
}
use pgwarden.Scan.{
  Event, EventKind, Level, info, error, Network, host_event, port_event, port_column,
  discover_clusters, scan_started, scan_finished, failure, cluster_list_started,
  cluster_list_finished, database_skipped_size, database_found, database_register_started,
  database_created, backup_created, skipped_existing,
}
use pgwarden.Discovery.Register.{
  RunResult, RemoteDatabase, Database, Backup, State, Calls, print_int, connection_address,
  is_excluded, backup_name, dest_dir, has_backup, has_database, on_error, new_database,
  ensure_database, Ensured, active_flag, new_backup, no_effect, create_backup, finish_backup,
  add_backup, ensure_backup,
}

-- logEvent: the event is handed on, and the run goes on whatever becomes of it.
pub log : Event → State → State
log e s = record s { events = s.events ++ e ∷ [] }

-- The rows of the table of events: those of which DiscoveryServiceCreateEvent took place.
pub event_rows : Calls → List Event → List Event
event_rows calls events = keep (λ e. is_none (calls.create_event e)) events

pub database_event : Level → EventKind → HostConfig → ClusterConfig → RemoteDatabase → Event
database_event level event host cluster db = record {
  level = level;
  event = event;
  host = host.name;
  port = port_column cluster.port;
  database_name = if is_empty db.name then none else some db.name;
}

-- The counters, each with the event that goes with it.
pub fail_with : Event → State → State
fail_with e s = log e (record s { result = record s.result { errors = s.result.errors + 1 } })

pub count_cluster : Event → State → State
count_cluster e s =
    log e
      (record s { result = record s.result { clusters_scanned = s.result.clusters_scanned + 1 } })

pub count_seen : Event → State → State
count_seen e s =
    log e (record s { result = record s.result { databases_seen = s.result.databases_seen + 1 } })

pub count_database : Bool → Event → State → State
count_database false e s = s
count_database true e s =
    log e
      (record s { result = record s.result { databases_created = s.result.databases_created + 1 } })

pub count_backup : Bool → Event → State → State
count_backup false e s = s
count_backup true e s =
    log e (record s { result = record s.result { backups_created = s.result.backups_created + 1 } })

pub count_skipped : Bool → Event → State → State
count_skipped false e s = s
count_skipped true e s =
    log e
      (record s { result = record s.result { skipped_existing = s.result.skipped_existing + 1 } })

-- What runLocked does with the reply of ensureBackup.
pub record_ensured : HostConfig → ClusterConfig → RemoteDatabase → Ensured × State → State
record_ensured host cluster db (r, s) =
    on_error r.failed (λ e. fail_with (database_event error failure host cluster db) s)
      (count_skipped r.skipped (database_event info skipped_existing host cluster db) (
        count_backup r.created_backup (database_event info backup_created host cluster db)
          (count_database r.created_db (database_event info database_created host cluster db) s)))

-- `maxSizeBytes > 0 && db.SizeBytes > maxSizeBytes`; the error of MaxDBSizeBytes is dropped, and its value
-- is 0 then.
pub is_too_big : Result ConfigError ℤ → ℕ → Bool
is_too_big (ok (pos limit)) size = ltb 0 limit && ltb limit size
is_too_big (ok (negsuc limit)) size = false
is_too_big (err e) size = false

-- One database of a cluster.
pub run_database :
    Calls → Config → HostConfig → Bool → ClusterConfig → RemoteDatabase → State → State
run_database calls cfg host no_replica cluster db s =
    if is_excluded cfg db.name host cluster
    then s
    else if is_too_big (max_db_size_bytes cfg.defaults) db.size_bytes
    then log (database_event info database_skipped_size host cluster db) s
    else record_ensured host cluster db (
        ensure_backup calls cfg host cluster db no_replica (
          log (database_event info database_register_started host cluster db)
            (count_seen (database_event info database_found host cluster db) s)))

pub run_databases :
    Calls → Config → HostConfig → Bool → ClusterConfig → List RemoteDatabase → State → State
run_databases calls cfg host no_replica cluster [] s = s
run_databases calls cfg host no_replica cluster (db ∷ dbs) s =
    run_databases calls cfg host no_replica cluster dbs
      (run_database calls cfg host no_replica cluster db s)

-- The databases of a cluster, or the error of listing them.
pub run_listed :
    Calls
    → Config
    → HostConfig
    → Bool
    → ClusterConfig
    → Result Bytes (List RemoteDatabase)
    → State
    → State
run_listed calls cfg host no_replica cluster (err e) s =
    fail_with (port_event error failure host.name cluster.port) s
run_listed calls cfg host no_replica cluster (ok dbs) s =
    run_databases calls cfg host no_replica cluster dbs
      (log (port_event info cluster_list_finished host.name cluster.port) s)

pub run_clusters : Calls → Config → HostConfig → Bool → List ClusterConfig → State → State
run_clusters calls cfg host no_replica [] s = s
run_clusters calls cfg host no_replica (cluster ∷ clusters) s =
    run_clusters calls cfg host no_replica clusters (
      run_listed calls cfg host no_replica cluster (calls.list_databases host cluster)
        (count_cluster (port_event info cluster_list_started host.name cluster.port) s))

pub run_scanned :
    Calls
    → Config
    → HostConfig
    → Bool
    → List Event × Result ConfigError (List ClusterConfig)
    → State
    → State
run_scanned calls cfg host no_replica (scanned, err e) s =
    fail_with (host_event error failure host.name) (record s { events = s.events ++ scanned })
run_scanned calls cfg host no_replica (scanned, ok clusters) s =
    run_clusters calls cfg host no_replica clusters (record s { events = s.events ++ scanned })

pub run_hosts : Calls → Config → List (HostConfig × Bool) → State → State
run_hosts calls cfg [] s = s
run_hosts calls cfg ((host, no_replica) ∷ hosts) s =
    run_hosts calls cfg hosts
      (run_scanned calls cfg host no_replica (discover_clusters calls.network cfg host) s)

pub all_hosts : Config → List (HostConfig × Bool)
all_hosts cfg = map (λ h. (h, false)) cfg.hosts ++ map (λ h. (h, true)) cfg.hosts_no_replica

abbrev pub no_result : RunResult
no_result = record {
  clusters_scanned = 0;
  databases_seen = 0;
  databases_created = 0;
  backups_created = 0;
  skipped_existing = 0;
  errors = 0;
}

-- runLocked; the events of the run are those behind the events that were there.
pub run_locked : Calls → Config → State → State
run_locked calls cfg s = log (host_event info scan_finished (codes "*")) (
    run_hosts calls cfg (all_hosts cfg)
      (log (host_event info scan_started (codes "*")) (record s { result = no_result })))

-- The lock of a run: the flag in memory, beside what the metadata database says.
pub data RunError : Type 0 where
  already_running password_required : RunError
  db_error : Bytes → RunError

-- beginRun from the second DiscoveryServiceHasActiveRun on: the flag afterwards, with the error.
pub claim_run : Result Bytes Bool → Bool × Option RunError
claim_run (err e) = (false, some (db_error e))
claim_run (ok true) = (false, some already_running)
claim_run (ok false) = (true, none)

-- beginRun; the first question is asked only if the flag is set.
pub begin_run : Bool → Result Bytes Bool → Result Bytes Bool → Bool × Option RunError
begin_run true (err e) second = (true, some (db_error e))
begin_run true (ok true) second = (true, some already_running)
begin_run true (ok false) second = claim_run second
begin_run false first second = claim_run second

-- Running: the answer, its error, and the flag afterwards.
pub running : Bool → Result Bytes Bool → (Bool × Option Bytes) × Bool
running false active = ((false, none), false)
running true (err e) = ((true, some e), true)
running true (ok true) = ((true, none), true)
running true (ok false) = ((false, none), false)
