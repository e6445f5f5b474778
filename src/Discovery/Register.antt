-- ===== src/Discovery/Register.antt =====
-- ensureDatabase and ensureBackup of internal/service/discovery/discovery.go, with the state of a run.
use pgwarden.Prelude.{
  ℕ, suc, Bool, true, false, not, ◌&&◌, Option, none, some, Result, ok, err, List, [], ◌∷◌, ◌++◌,
  Bytes, text_eq, any, is_empty, if◌then◌else◌,
}
use pgwarden.Go.Strconv.{ℤ, pos, negsuc, itoa}
use pgwarden.Config.{Config, HostConfig, ClusterConfig, tag_for_host}
use pgwarden.Scan.{Event, Network}

pub record RunResult : Type 0 where
  pub clusters_scanned : ℕ
  pub databases_seen : ℕ
  pub databases_created : ℕ
  pub backups_created : ℕ
  pub skipped_existing : ℕ
  pub errors : ℕ

pub record RemoteDatabase : Type 0 where
  pub name : Bytes
  pub version : Bytes
  pub size_bytes : ℕ

-- The columns of `databases` that the discovery fills.
pub record Database : Type 0 where
  pub name : Bytes
  pub connection_string : Bytes
  pub pg_version : Bytes
  pub tag : Bytes

-- The columns of `backups` that the discovery fills; the dump options that it leaves false are left out.
pub record Backup : Type 0 where
  pub database : Bytes
  pub destination_id : Bytes
  pub name : Bytes
  pub cron_expression : Bytes
  pub time_zone : Bytes
  pub is_active : Bool
  pub dest_dir : Bytes
  pub retention_days : ℤ
  pub monthly_retention_enabled : Bool
  pub opt_serializable_deferrable : Bool
  pub parallel_dump_enabled : Bool
  pub tag : Bytes

-- The metadata, the log of events and the counters of the run.
pub record State : Type 0 where
  pub databases : List Database
  pub backups : List Backup
  pub events : List Event
  pub result : RunResult

-- What is outside. A failure is an error's text; `none` is success.
pub record Calls : Type 0 where
  pub network : Network
  pub list_databases : HostConfig → ClusterConfig → Result Bytes (List RemoteDatabase)
  pub connection_string : Bytes → ℤ → Bytes → Bytes
  pub find_backup : Bytes → Option Bytes
  pub find_database : Bytes → Option Bytes
  pub test_database : Bytes → Option Bytes
  pub insert_database : Bytes → Option Bytes
  pub parse_uuid : Bytes → Option Bytes
  pub insert_backup : Bytes → Option Bytes
  pub schedule_job : Bytes → Option Bytes
  pub random_cron : Bytes → Bytes
  pub create_event : Event → Option Bytes

-- `%d`
unfoldable pub print_int : ℤ → Bytes
print_int (pos n) = itoa n
print_int (negsuc n) = b'-' ∷ itoa (suc n)

unfoldable pub connection_address : HostConfig → Bytes
connection_address h = if not (is_empty h.connection_host) then h.connection_host else h.name

unfoldable pub is_excluded : Config → Bytes → HostConfig → ClusterConfig → Bool
is_excluded cfg db host cluster =
    any (λ excluded. text_eq db excluded)
      (cfg.defaults.exclude_databases ++ (host.exclude_databases ++ cluster.exclude_databases))

unfoldable pub backup_name : HostConfig → ClusterConfig → RemoteDatabase → Bytes
backup_name host cluster db = host.name ++ (b':' ∷ (print_int cluster.port ++ (b'-' ∷ db.name)))

unfoldable pub dest_dir : HostConfig → ClusterConfig → RemoteDatabase → Bytes
dest_dir host cluster db =
    b'/' ∷ (host.name ++ (b'/' ∷ (print_int cluster.port ++ (b'/' ∷ db.name))))

unfoldable pub has_backup : Bytes → List Backup → Bool
has_backup dir backups = any (λ b. text_eq b.dest_dir dir) backups

unfoldable pub has_database : Bytes → List Database → Bool
has_database name databases = any (λ d. text_eq d.name name) databases

-- `if err != nil { return … }`
abbrev pub on_error : {A : Type 0} → Option Bytes → (Bytes → A) → A → A
on_error none stop go = go
on_error (some e) stop go = stop e

abbrev pub new_database :
    Calls → Config → HostConfig → ClusterConfig → RemoteDatabase → Bytes → Database
new_database calls cfg host cluster db name = record {
  name = name;
  connection_string = calls.connection_string (connection_address host) cluster.port db.name;
  pg_version = db.version;
  tag = tag_for_host cfg host;
}

-- ensureDatabase: whether a row was made, and the error. CreateDatabase tests the connection first.
unfoldable pub ensure_database :
    Calls
    → Config
    → HostConfig
    → ClusterConfig
    → RemoteDatabase
    → Bytes
    → State
    → Result Bytes Bool × State
ensure_database calls cfg host cluster db name s =
    let row = new_database calls cfg host cluster db name in
    let created : Result Bytes Bool × State =
      on_error (calls.test_database row.connection_string) (λ e. (err e, s))
        (on_error (calls.insert_database name) (λ e. (err e, s))
          (ok true, record s { databases = s.databases ++ row ∷ [] })) in
    on_error (calls.find_database name) (λ e. (err e, s))
      (if has_database name s.databases then (ok false, s) else created)

-- What ensureBackup returns.
pub record Ensured : Type 0 where
  pub created_db : Bool
  pub created_backup : Bool
  pub skipped : Bool
  pub failed : Option Bytes

-- The dereference of `IsActive`, which setDefaults never leaves nil.
abbrev pub active_flag : Option Bool → Bool
active_flag none = false
active_flag (some b) = b

abbrev pub new_backup : Calls → Config → HostConfig → ClusterConfig → RemoteDatabase → Bool → Backup
new_backup calls cfg host cluster db serializable_deferrable = record {
  database = backup_name host cluster db;
  destination_id = cfg.defaults.destination_id;
  name = backup_name host cluster db;
  cron_expression = calls.random_cron (backup_name host cluster db);
  time_zone = cfg.defaults.time_zone;
  is_active = active_flag cfg.defaults.is_active;
  dest_dir = dest_dir host cluster db;
  retention_days = cfg.defaults.retention_days;
  monthly_retention_enabled = cfg.defaults.monthly_retention_enabled;
  opt_serializable_deferrable = serializable_deferrable;
  parallel_dump_enabled = cfg.defaults.parallel_dump && not serializable_deferrable;
  tag = tag_for_host cfg host;
}

abbrev pub no_effect : Ensured
no_effect = record { created_db = false; created_backup = false; skipped = false; failed = none }

-- CreateBackup: the row stays when the job cannot be scheduled.
unfoldable pub create_backup : Calls → Backup → State → Option Bytes × State
create_backup calls b s =
    on_error (calls.insert_backup b.dest_dir) (λ e. (some e, s))
      (calls.schedule_job b.dest_dir, record s { backups = s.backups ++ b ∷ [] })

-- The last step of ensureBackup.
unfoldable pub finish_backup : Bool → Option Bytes × State → Ensured × State
finish_backup created_db (some e, s) =
    (record no_effect { created_db = created_db; failed = some e }, s)
finish_backup created_db (none, s) =
    (record no_effect { created_db = created_db; created_backup = true }, s)

-- ensureBackup once the database is registered.
unfoldable pub add_backup : Calls → Config → Backup → Result Bytes Bool × State → Ensured × State
add_backup calls cfg b (err e, s) = (record no_effect { failed = some e }, s)
add_backup calls cfg b (ok created_db, s) =
    on_error (calls.parse_uuid cfg.defaults.destination_id)
      (λ e. (record no_effect { failed = some e }, s))
      (finish_backup created_db (create_backup calls b s))

unfoldable pub ensure_backup :
    Calls → Config → HostConfig → ClusterConfig → RemoteDatabase → Bool → State → Ensured × State
ensure_backup calls cfg host cluster db serializable_deferrable s =
    let dir = dest_dir host cluster db in
    let added =
      add_backup calls cfg (new_backup calls cfg host cluster db serializable_deferrable)
        (ensure_database calls cfg host cluster db (backup_name host cluster db) s) in
    on_error (calls.find_backup dir) (λ e. (record no_effect { failed = some e }, s))
      (if has_backup dir s.backups then (record no_effect { skipped = true }, s) else added)
