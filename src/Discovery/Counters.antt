-- ===== src/Discovery/Counters.antt =====
-- The counters of a run against its log.
use pgwarden.Prelude.{
  keep, none, ◌+◌, ◌≡◌, refl, Bool, true, false, Result, ok, err, List, [], ◌∷◌, Bytes, codes,
  arith, Bool-cases, Option-cases, inl, inr,
}
use pgwarden.Queue.{is_none}
use pgwarden.Config.{Config, HostConfig, ClusterConfig, ConfigError, max_db_size_bytes}
use pgwarden.Scan.{
  Event, info, error, host_event, port_event, discover_clusters, failure, cluster_list_started,
  database_found, database_created, backup_created, skipped_existing, database_register_started,
  database_skipped_size, cluster_list_finished, scan_started, scan_finished,
}
use pgwarden.Scan.Quiet.{is_tallied, AreQuiet, discover_clusters-quiet}
use pgwarden.Discovery.{
  event_rows, no_result, log, database_event, fail_with, count_cluster, count_seen, count_database,
  count_backup, count_skipped, record_ensured, run_database, run_databases, run_listed,
  run_clusters, run_scanned, run_hosts, run_locked, all_hosts, is_too_big,
}
use pgwarden.Discovery.Register.{
  State, Calls, RemoteDatabase, Backup, Ensured, ensure_database, ensure_backup, add_backup,
  create_backup, finish_backup, is_excluded, has_backup, dest_dir, backup_name, new_backup,
}
use pgwarden.Discovery.Tally.{AreCounted, step, quiet, start}

abbrev Good : List Event → State → Type 0
Good base s = AreCounted base s.events s.result

fail_with-Good :
    (base : List Event) (e : Event) (s : State)
    → e.event ≡ failure
    → Good base s
    → Good base (fail_with e s)
unfolding fail_with log
fail_with-Good base e s k h =
    step base s.events s.result (record s.result { errors = s.result.errors + 1 }) e
      (rw k (omega arith)) (rw k (omega arith)) (rw k (omega arith)) (rw k (omega arith))
      (rw k (omega arith)) (rw k (omega arith)) h

count_cluster-Good :
    (base : List Event) (e : Event) (s : State)
    → e.event ≡ cluster_list_started
    → Good base s
    → Good base (count_cluster e s)
unfolding count_cluster log
count_cluster-Good base e s k h =
    step base s.events s.result
      (record s.result { clusters_scanned = s.result.clusters_scanned + 1 }) e (rw k (omega arith))
      (rw k (omega arith)) (rw k (omega arith)) (rw k (omega arith)) (rw k (omega arith))
      (rw k (omega arith)) h

count_seen-Good :
    (base : List Event) (e : Event) (s : State)
    → e.event ≡ database_found
    → Good base s
    → Good base (count_seen e s)
unfolding count_seen log
count_seen-Good base e s k h =
    step base s.events s.result (record s.result { databases_seen = s.result.databases_seen + 1 }) e
      (rw k (omega arith)) (rw k (omega arith)) (rw k (omega arith)) (rw k (omega arith))
      (rw k (omega arith)) (rw k (omega arith)) h

count_database-Good :
    (base : List Event) (b : Bool) (e : Event) (s : State)
    → e.event ≡ database_created
    → Good base s
    → Good base (count_database b e s)
unfolding count_database log
count_database-Good base false e s k h = h
count_database-Good base true e s k h =
    step base s.events s.result
      (record s.result { databases_created = s.result.databases_created + 1 }) e
      (rw k (omega arith)) (rw k (omega arith)) (rw k (omega arith)) (rw k (omega arith))
      (rw k (omega arith)) (rw k (omega arith)) h

count_backup-Good :
    (base : List Event) (b : Bool) (e : Event) (s : State)
    → e.event ≡ backup_created
    → Good base s
    → Good base (count_backup b e s)
unfolding count_backup log
count_backup-Good base false e s k h = h
count_backup-Good base true e s k h =
    step base s.events s.result (record s.result { backups_created = s.result.backups_created + 1 })
      e (rw k (omega arith)) (rw k (omega arith)) (rw k (omega arith)) (rw k (omega arith))
      (rw k (omega arith)) (rw k (omega arith)) h

count_skipped-Good :
    (base : List Event) (b : Bool) (e : Event) (s : State)
    → e.event ≡ skipped_existing
    → Good base s
    → Good base (count_skipped b e s)
unfolding count_skipped log
count_skipped-Good base false e s k h = h
count_skipped-Good base true e s k h =
    step base s.events s.result
      (record s.result { skipped_existing = s.result.skipped_existing + 1 }) e (rw k (omega arith))
      (rw k (omega arith)) (rw k (omega arith)) (rw k (omega arith)) (rw k (omega arith))
      (rw k (omega arith)) h

log-Good :
    (base : List Event) (e : Event) (s : State)
    → is_tallied e.event ≡ false
    → Good base s
    → Good base (log e s)
unfolding log
log-Good base e s k h = quiet base s.events (e ∷ []) s.result (k, tt) h

-- Registering a database touches neither the log nor the counters.
ensure_database-log :
    (calls : Calls) (cfg : Config) (host : HostConfig) (cluster : ClusterConfig)
    (db : RemoteDatabase) (name : Bytes) (s : State)
    → ((ensure_database calls cfg host cluster db name s).1.events ≡ s.events)
      × ((ensure_database calls cfg host cluster db name s).1.result ≡ s.result)
unfolding ensure_database
ensure_database-log calls cfg host cluster db name s = ground arith

add_backup-log :
    (calls : Calls) (cfg : Config) (b : Backup) (r : Result Bytes Bool) (s : State)
    → ((add_backup calls cfg b (r, s)).1.events ≡ s.events)
      × ((add_backup calls cfg b (r, s)).1.result ≡ s.result)
unfolding add_backup finish_backup create_backup
add_backup-log calls cfg b (err e) s = (refl, refl)
add_backup-log calls cfg b (ok created) s =
    elim (Option-cases (calls.parse_uuid cfg.defaults.destination_id)) [
      | inr (e, bad) ↦ rw bad (refl, refl)
      | inl fine ↦ elim (Option-cases (calls.insert_backup b.dest_dir)) [
        | inr (e, bad) ↦ rw (fine, bad) (refl, refl)
        | inl inserted ↦ elim (Option-cases (calls.schedule_job b.dest_dir)) [
          | inr (e, bad) ↦ rw (fine, inserted, bad) (refl, refl)
          | inl scheduled ↦ rw (fine, inserted, scheduled) (refl, refl)
        ]
      ]
    ]

ensure_backup-Good :
    (base : List Event) (calls : Calls) (cfg : Config) (host : HostConfig) (cluster : ClusterConfig)
    (db : RemoteDatabase) (serializable : Bool) (s : State)
    → Good base s
    → Good base (ensure_backup calls cfg host cluster db serializable s).1
unfolding ensure_backup
ensure_backup-Good base calls cfg host cluster db serializable s h =
    let d = ensure_database calls cfg host cluster db (backup_name host cluster db) s in
    let first = ensure_database-log calls cfg host cluster db (backup_name host cluster db) s in
    let then_ =
      add_backup-log calls cfg (new_backup calls cfg host cluster db serializable) d.0 d.1 in
    elim (Option-cases (calls.find_backup (dest_dir host cluster db))) [
      | inr (e, bad) ↦ rw bad h
      | inl fine ↦ elim (Bool-cases (has_backup (dest_dir host cluster db) s.backups)) [
        | inl known ↦ rw (fine, known) h
        | inr fresh ↦ rw (fine, fresh) (rw (then_.0, then_.1) (rw (first.0, first.1) h))
      ]
    ]

record_ensured-Good :
    (base : List Event) (host : HostConfig) (cluster : ClusterConfig) (db : RemoteDatabase)
    (r : Ensured) (s : State)
    → Good base s
    → Good base (record_ensured host cluster db (r, s))
unfolding record_ensured database_event
record_ensured-Good base host cluster db r s h = elim (Option-cases r.failed) [
  | inr (e, bad) ↦
      rw bad (fail_with-Good base (database_event error failure host cluster db) s refl h)
  | inl fine ↦ rw fine (
      count_skipped-Good base r.skipped (database_event info skipped_existing host cluster db) _
        refl
        (count_backup-Good base r.created_backup
          (database_event info backup_created host cluster db) _ refl
          (count_database-Good base r.created_db
            (database_event info database_created host cluster db) s refl h)))
]

module _ (base : List Event) (calls : Calls) (cfg : Config) where
  run_database-Good :
      (host : HostConfig) (no_replica : Bool) (cluster : ClusterConfig) (db : RemoteDatabase)
      (s : State)
      → Good base s
      → Good base (run_database calls cfg host no_replica cluster db s)
  unfolding run_database database_event
  run_database-Good host no_replica cluster db s h =
      let seen =
        log (database_event info database_register_started host cluster db)
          (count_seen (database_event info database_found host cluster db) s) in
      let ensured = ensure_backup calls cfg host cluster db no_replica seen in
      elim (Bool-cases (is_excluded cfg db.name host cluster)) [
        | inl out ↦ rw out h
        | inr wanted ↦
            elim (Bool-cases (is_too_big (max_db_size_bytes cfg.defaults) db.size_bytes)) [
              | inl big ↦
                  rw (wanted, big)
                    (log-Good base (database_event info database_skipped_size host cluster db) s
                      refl h)
              | inr fits ↦
                  rw (wanted, fits)
                    (record_ensured-Good base host cluster db ensured.0 ensured.1 (
                      ensure_backup-Good base calls cfg host cluster db no_replica seen (
                        log-Good base
                          (database_event info database_register_started host cluster db) _ refl
                          (count_seen-Good base (database_event info database_found host cluster db)
                            s refl h))))
            ]
      ]

  run_databases-Good :
      (host : HostConfig) (no_replica : Bool) (cluster : ClusterConfig) (dbs : List RemoteDatabase)
      (s : State)
      → Good base s
      → Good base (run_databases calls cfg host no_replica cluster dbs s)
  unfolding run_databases
  run_databases-Good host no_replica cluster [] s h = h
  run_databases-Good host no_replica cluster (db ∷ dbs) s h =
      run_databases-Good host no_replica cluster dbs
        (run_database calls cfg host no_replica cluster db s)
        (run_database-Good host no_replica cluster db s h)

  run_listed-Good :
      (host : HostConfig) (no_replica : Bool) (cluster : ClusterConfig)
      (listed : Result Bytes (List RemoteDatabase)) (s : State)
      → Good base s
      → Good base (run_listed calls cfg host no_replica cluster listed s)
  unfolding run_listed
  run_listed-Good host no_replica cluster (err e) s h =
      fail_with-Good base (port_event error failure host.name cluster.port) s refl h
  run_listed-Good host no_replica cluster (ok dbs) s h =
      run_databases-Good host no_replica cluster dbs _
        (log-Good base (port_event info cluster_list_finished host.name cluster.port) s refl h)

  run_clusters-Good :
      (host : HostConfig) (no_replica : Bool) (clusters : List ClusterConfig) (s : State)
      → Good base s
      → Good base (run_clusters calls cfg host no_replica clusters s)
  unfolding run_clusters
  run_clusters-Good host no_replica [] s h = h
  run_clusters-Good host no_replica (cluster ∷ clusters) s h =
      run_clusters-Good host no_replica clusters _ (
        run_listed-Good host no_replica cluster (calls.list_databases host cluster) _ (
          count_cluster-Good base (port_event info cluster_list_started host.name cluster.port) s
            refl h))

  run_scanned-Good :
      (host : HostConfig) (no_replica : Bool)
      (scanned : List Event × Result ConfigError (List ClusterConfig)) (s : State)
      → AreQuiet scanned.0
      → Good base s
      → Good base (run_scanned calls cfg host no_replica scanned s)
  unfolding run_scanned
  run_scanned-Good host no_replica (events, err e) s q h =
      fail_with-Good base (host_event error failure host.name) _ refl
        (quiet base s.events events s.result q h)
  run_scanned-Good host no_replica (events, ok clusters) s q h =
      run_clusters-Good host no_replica clusters _ (quiet base s.events events s.result q h)

  run_hosts-Good :
      (hosts : List (HostConfig × Bool)) (s : State)
      → Good base s
      → Good base (run_hosts calls cfg hosts s)
  unfolding run_hosts
  run_hosts-Good [] s h = h
  run_hosts-Good ((host, no_replica) ∷ hosts) s h = run_hosts-Good hosts _ (
      run_scanned-Good host no_replica (discover_clusters calls.network cfg host) s
        (discover_clusters-quiet calls.network cfg host) h)

-- Each counter is the number of its events among all those that are handed to logEvent.
handed-AreCounted :
    (calls : Calls) (cfg : Config) (s : State)
    → let after = run_locked calls cfg s in AreCounted s.events after.events after.result
unfolding run_locked
handed-AreCounted calls cfg s =
    log-Good s.events (host_event info scan_finished (codes "*")) _ refl (
      run_hosts-Good s.events calls cfg (all_hosts cfg) _ (
        log-Good s.events (host_event info scan_started (codes "*"))
          (record s { result = no_result }) refl (start s.events)))

-- If no event is lost, all that are handed on are in the table.
event_rows-all :
    (calls : Calls) (events : List Event)
    → ((e : Event) → calls.create_event e ≡ none)
    → event_rows calls events ≡ events
unfolding event_rows
event_rows-all calls [] h = refl
event_rows-all calls (e ∷ events) h =
    let rest : keep (λ x. is_none (calls.create_event x)) events ≡ events =
      event_rows-all calls events h in
    rw (h e, rest) refl

-- If the metadata database takes every event, the counters that a run reports agree with the log that it
-- leaves in the table: each is the number of events of its kind that the run added (errors, clusters listed,
-- databases found, databases and backups created, backups that were there), whatever the network, the
-- servers and the other statements answer.
pub run_locked-AreCounted :
    (calls : Calls) (cfg : Config) (s : State)
    → ((e : Event) → calls.create_event e ≡ none)
    → let after = run_locked calls cfg s in
      AreCounted (event_rows calls s.events) (event_rows calls after.events) after.result
run_locked-AreCounted calls cfg s taken =
    rw
      (
        event_rows-all calls s.events taken,
        event_rows-all calls (run_locked calls cfg s).events taken,
      )
      (handed-AreCounted calls cfg s)
