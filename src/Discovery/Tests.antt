-- ===== src/Discovery/Tests.antt =====
-- A run over a host that both lists of hosts name.
use pgwarden.Prelude.{
  ℕ, ◌≡◌, refl, Bool, true, false, not, Option, none, some, Result, ok, err, List, [], ◌∷◌, ◌++◌,
  Bytes, codes,
}
use pgwarden.Go.Strconv.{pos}
use pgwarden.Config.{DefaultsConfig, ClusterConfig, HostConfig, Config}
use pgwarden.Scan.{Network, EventKind}
use pgwarden.Discovery.{RunError, no_result, run_locked, begin_run, running}
use pgwarden.Discovery.Register.{
  Calls, State, RemoteDatabase, no_effect, ensure_backup, has_backup, dest_dir, add_backup,
  finish_backup, create_backup, ensure_database,
}
use pgwarden.Discovery.{event_rows}
use pgwarden.Discovery.Tally.{AreCounted}
use pgwarden.Discovery.Counters.{run_locked-AreCounted}
use pgwarden.Discovery.Registered.{AreSound, run_locked-AreSound, ensure_backup-registers}

abbrev cluster : ClusterConfig
cluster = record { port = pos 5432; pg_version = codes "17"; exclude_databases = [] }

abbrev host : HostConfig
host = record {
  name = codes "h";
  connection_host = codes "10.0.0.1";
  exclude_databases = codes "postgres" ∷ [];
  clusters = cluster ∷ [];
  tag = [];
}

abbrev config : Config
config = record {
  defaults = record {
    destination_id = codes "d";
    retention_days = pos 30;
    monthly_retention_enabled = false;
    parallel_dump = true;
    time_zone = codes "UTC";
    is_active = some true;
    exclude_databases = [];
    cron_minute_step = pos 5;
    cron_hour_from = pos 0;
    cron_hour_to = pos 5;
    connection_sslmode = codes "disable";
    scan_ports = codes "5432" ∷ [];
    max_db_size = [];
    tag = [];
  };
  hosts = host ∷ [];
  hosts_no_replica = host ∷ [];
  host_tags = [];
}

abbrev app : RemoteDatabase
app = record { name = codes "app"; version = codes "17"; size_bytes = 1000 }

abbrev calls : Calls
calls = record {
  network = record { tcp = λ h ports. []; probes = λ h ports. [] };
  list_databases = λ h c. ok (app ∷ record app { name = codes "postgres" } ∷ []);
  connection_string = λ h port db. h ++ db;
  find_backup = λ dir. none;
  find_database = λ name. none;
  test_database = λ conn. none;
  insert_database = λ name. none;
  parse_uuid = λ id. none;
  insert_backup = λ dir. none;
  schedule_job = λ dir. none;
  random_cron = λ name. codes "0 1 * * *";
  create_event = λ e. none;
}

abbrev empty : State
empty = record { databases = []; backups = []; events = []; result = no_result }

-- The second host finds the backup of the first one.
counted : (run_locked calls config empty).result ≡ record {
  clusters_scanned = 2;
  databases_seen = 2;
  databases_created = 1;
  backups_created = 1;
  skipped_existing = 1;
  errors = 0;
}
unfolding run_locked pgwarden.Discovery.log pgwarden.Discovery.run_hosts
    pgwarden.Discovery.all_hosts pgwarden.Discovery.run_scanned pgwarden.Discovery.run_clusters
    pgwarden.Discovery.run_listed pgwarden.Discovery.run_databases pgwarden.Discovery.run_database
    pgwarden.Discovery.Register.is_excluded pgwarden.Discovery.is_too_big
    pgwarden.Discovery.record_ensured pgwarden.Discovery.count_seen pgwarden.Discovery.count_skipped
    pgwarden.Discovery.count_backup pgwarden.Discovery.count_database
    pgwarden.Discovery.count_cluster pgwarden.Discovery.fail_with ensure_backup ensure_database
    add_backup finish_backup create_backup dest_dir has_backup
    pgwarden.Discovery.Register.has_database pgwarden.Discovery.Register.backup_name
    pgwarden.Discovery.Register.print_int pgwarden.Scan.discover_clusters
    pgwarden.Config.max_db_size_bytes pgwarden.Go.Strings.trim_space pgwarden.Prelude.text_eq
    pgwarden.Go.Strconv.itoa
counted = refl

-- A database that was made is not counted when its backup could not be made.
uncounted :
    (run_locked
      (record calls { insert_backup = λ dir. some (codes "full") })
      config
      empty).result.databases_created
    ≡ 0
unfolding run_locked pgwarden.Discovery.log pgwarden.Discovery.run_hosts
    pgwarden.Discovery.all_hosts pgwarden.Discovery.run_scanned pgwarden.Discovery.run_clusters
    pgwarden.Discovery.run_listed pgwarden.Discovery.run_databases pgwarden.Discovery.run_database
    pgwarden.Discovery.Register.is_excluded pgwarden.Discovery.is_too_big
    pgwarden.Discovery.record_ensured pgwarden.Discovery.count_seen pgwarden.Discovery.count_skipped
    pgwarden.Discovery.count_backup pgwarden.Discovery.count_database
    pgwarden.Discovery.count_cluster pgwarden.Discovery.fail_with ensure_backup ensure_database
    add_backup finish_backup create_backup dest_dir has_backup
    pgwarden.Discovery.Register.has_database pgwarden.Discovery.Register.backup_name
    pgwarden.Discovery.Register.print_int pgwarden.Scan.discover_clusters
    pgwarden.Config.max_db_size_bytes pgwarden.Go.Strings.trim_space pgwarden.Prelude.text_eq
    pgwarden.Go.Strconv.itoa
uncounted = refl

recovered : running true (ok false) ≡ ((false, none), false)
unfolding running
recovered = refl

run_locked-AreCounted_example :
    let after = run_locked calls config empty in
    AreCounted (event_rows calls empty.events) (event_rows calls after.events) after.result
run_locked-AreCounted_example = run_locked-AreCounted calls config empty (λ e. refl)

run_locked-AreSound_example : AreSound (run_locked calls config empty).backups
unfolding AreSound
run_locked-AreSound_example = run_locked-AreSound calls config empty tt

ensure_backup-registers_example :
    let (r, after) = ensure_backup calls config host cluster app false empty in
    ((r.created_backup ≡ not r.skipped)
      × (has_backup (dest_dir host cluster app) after.backups ≡ true))
    × (ensure_backup calls config host cluster app false after
        ≡ (record no_effect { skipped = true }, after))
unfolding ensure_backup has_backup add_backup ensure_database
    pgwarden.Discovery.Register.has_database finish_backup create_backup
ensure_backup-registers_example =
    ensure_backup-registers calls config host cluster app false empty refl
