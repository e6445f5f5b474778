-- ===== src/Presets/Start.antt =====
-- How a restore or a change of owner gets into the queue: StartRestore and resolveRestoreExecution
-- (internal/service/restorations/restore_action.go), FixOwner (fix_owner.go), resolveRestoreTargetConnection
-- (restore_target.go), loadPresetBuildContext (restore_preset_info.go), EnqueueRestoration (queue.go) and
-- PreflightTarget (internal/integration/postgres/admin.go). The statements, psql, url.Parse, json.Marshal
-- and pq.QuoteLiteral are arguments. Times are seconds. The texts for display are left out.
use pgwarden.Prelude.{
  ℕ, ◌+◌, ◌-◌, ◌%◌, Bool, true, false, not, Option, none, some, Result, ok, err, ◌>>=◌, ◌>>◌, guard,
  List, [], ◌∷◌, ◌++◌, Bytes, codes, text_eq, is_empty, if◌then◌else◌,
}
use pgwarden.Go.Strings.{trim_space}
use pgwarden.Dump.{PgVersion, parse_version}
use pgwarden.Conn.{Uri, ConnInfo, ConnError, parse_conn_string, with_database, with_endpoint}
use pgwarden.Presets.{
  Preset, Target, find_restore_preset, find_restore_target_by_environment, normalize_environment,
}

-- The row of RestorationsServiceGetLatestSuccessExecutionByBackupName and its like.
pub record BackupRow : Type 0 where
  pub id : ℕ
  pub finished_at : Option ℕ
  pub path : Option Bytes
  pub pg_version : Bytes

pub data RowError : Type 0 where
  no_rows : RowError
  row_failed : Bytes → RowError

pub data InsertError : Type 0 where
  unique_violation : InsertError
  insert_failed : Bytes → InsertError

pub data StartError : Type 0 where
  not_found environment_required environment_not_found not_ready : StartError
  backup_not_found no_finished_at no_owner already_running : StartError
  unknown_version : Bytes → StartError
  bad_connection : ConnError → StartError
  preflight_failed : Bytes → StartError
  call_failed : Bytes → StartError

-- queuedRestoreParams
pub record QueuedParams : Type 0 where
  pub op : Bytes
  pub target_database_name : Bytes
  pub target_owner : Bytes

-- EnqueueRestorationParams. Both callers give a target.
pub record EnqueueParams : Type 0 where
  pub op : Bytes
  pub execution_id : ℕ
  pub database_id : Option ℕ
  pub target_pbw_name : Bytes
  pub conn_string : Bytes
  pub target : Bytes × Bytes
  pub tag : Bytes

-- The values of RestorationsServiceEnqueueRestoration.
pub record Inserted : Type 0 where
  pub execution_id : ℕ
  pub database_id : Option ℕ
  pub target_database_name : Option Bytes
  pub params : Bytes
  pub conn_string : Bytes
  pub tag : Bytes

pub record Calls : Type 0 where
  pub get_all_databases : Result Bytes (List (Bytes × ℕ))
  pub get_database : ℕ → Result Bytes (Bytes × Bytes)
  pub latest_success : Bytes → Result RowError BackupRow
  pub success_by_id : Bytes → ℕ → Result RowError BackupRow
  pub success_between : Bytes → (day_start day_end : ℕ) → Result RowError BackupRow
  pub psql_query : PgVersion → (conn sql : Bytes) → Result Bytes Bytes
  pub quote_literal : Bytes → Bytes
  pub parse_url : Bytes → Option Uri
  pub marshal : QueuedParams → Bytes
  pub insert : Inserted → Result InsertError ℕ

abbrev pub called {ℓ} : {A : Type ℓ} → Result Bytes A → Result StartError A
called (ok a) = ok a
called (err e) = err (call_failed e)

abbrev pub found_or {ℓ} : {A : Type ℓ} → StartError → Option A → Result StartError A
found_or e none = err e
found_or e (some a) = ok a

-- databaseIDs[name], of a map that is filled in the order of the list
unfoldable pub database_id : List (Bytes × ℕ) → Bytes → Option ℕ
database_id [] name = none
database_id ((n, id) ∷ rows) name = last (database_id rows name) (text_eq n name) id
  where
    last : Option ℕ → Bool → ℕ → Option ℕ
    last (some later) b id = some later
    last none true id = some id
    last none false id = none

-- loadPresetBuildContext: the latest backup of the source, if one is ready.
unfoldable pub ready_backup : Result RowError BackupRow → Result StartError (Option BackupRow)
ready_backup (err no_rows) = ok none
ready_backup (err (row_failed e)) = err (call_failed e)
ready_backup (ok row) = ok (ready row.finished_at row.path row)
  where
    ready : Option ℕ → Option Bytes → BackupRow → Option BackupRow
    ready (some t) (some p) row = some row
    ready t p row = none

pub record Connection : Type 0 where
  pub database_id : Option ℕ
  pub conn_string : Bytes

abbrev parsed_or : Result ConnError ConnInfo → Result StartError ConnInfo
parsed_or (ok info) = ok info
parsed_or (err e) = err (bad_connection e)

-- The registered database, or the source's server with the target's endpoint.
unfoldable pub target_connection :
    Calls → List (Bytes × ℕ) → Preset → Target → Option ℕ → Result StartError Connection
target_connection calls ids preset target (some id) = do
  (name, conn) ← called (calls.get_database id)
  ok (record { database_id = some id; conn_string = conn })
target_connection calls ids preset target none = do
  source ← found_or not_ready (database_id ids preset.source.pbw_name)
  (name, conn) ← called (calls.get_database source)
  info ← parsed_or (parse_conn_string calls.parse_url conn)
  ok (record {
    database_id = none;
    conn_string =
        with_endpoint info target.endpoint.host target.endpoint.port target.endpoint.database;
  })

-- resolveRestoreTargetConnection
unfoldable pub resolve_target_connection :
    Calls → List (Bytes × ℕ) → Preset → Target → Result StartError Connection
resolve_target_connection calls ids preset target =
    target_connection calls ids preset target (database_id ids target.endpoint.pbw_name)

-- What the caller asks for: a backup by its execution, by its day, or the latest one.
pub data Selection : Type 0 where
  by_execution : ℕ → Selection
  by_day : (finished_at : ℕ) → Selection
  latest : Selection

-- utcDayBounds
unfoldable pub utc_day_bounds : ℕ → ℕ × ℕ
utc_day_bounds t = let day_start = t - t % 86400 in (day_start, day_start + 86400)

unfoldable pub resolve_execution : Calls → Bytes → Selection → Result RowError BackupRow
resolve_execution calls name (by_execution id) = calls.success_by_id name id
resolve_execution calls name (by_day t) =
    let (day_start, day_end) = utc_day_bounds t in calls.success_between name day_start day_end
resolve_execution calls name latest = calls.latest_success name

abbrev pub backup_or : Result RowError BackupRow → Result StartError BackupRow
backup_or (ok row) = ok row
backup_or (err no_rows) = err backup_not_found
backup_or (err (row_failed e)) = err (call_failed e)

abbrev pub version_or : Bytes → Option PgVersion → Result StartError PgVersion
version_or v none = err (unknown_version v)
version_or v (some version) = ok version

-- info.Extra with the timeout, unless it has one
unfoldable pub with_timeout : List (Bytes × Bytes) → List (Bytes × Bytes)
with_timeout [] = (codes "connect_timeout", codes "30") ∷ []
with_timeout ((k, v) ∷ extra) =
    let rest = with_timeout extra in
    if text_eq k (codes "connect_timeout") then (k, v) ∷ extra else (k, v) ∷ rest

abbrev pub unreachable : Bytes → StartError
unreachable output = preflight_failed (codes "target host unreachable: " ++ trim_space output)

abbrev answered : Result Bytes Bytes → Result StartError Bytes
answered (ok output) = ok output
answered (err output) = err (unreachable output)

unfoldable pub check_owner : Calls → PgVersion → Bytes → Bytes → Result StartError (Unit {0})
check_owner calls version conn [] = do
  output ← answered (calls.psql_query version conn (codes "SELECT 1;"))
  ok tt
check_owner calls version conn (c ∷ owner) = do
  output ← answered (
      calls.psql_query version conn
        (codes "SELECT 1 FROM pg_roles WHERE rolname = " ++ calls.quote_literal (c ∷ owner)))
  guard (text_eq (trim_space output) (codes "1"))
      (preflight_failed (codes "owner role does not exist on target cluster"))

abbrev preflight_or : Result ConnError ConnInfo → Result StartError ConnInfo
preflight_or (ok info) = ok info
preflight_or (err e) = err (preflight_failed (codes "parse connection string"))

-- PreflightTarget
unfoldable pub preflight_target : Calls → PgVersion → Bytes → Bytes → Result StartError (Unit {0})
preflight_target calls version conn owner = do
  info ← preflight_or (parse_conn_string calls.parse_url conn)
  let patient = record info { extra = with_timeout info.extra }
  check_owner calls version (with_database patient (codes "postgres")) (trim_space owner)

abbrev name_of : Result Bytes (Bytes × Bytes) → Bytes
name_of (ok (name, conn)) = name
name_of (err e) = []

abbrev non_empty : Bytes → Option Bytes
non_empty [] = none
non_empty (c ∷ s) = some (c ∷ s)

-- The name of the target for the queue.
unfoldable pub pbw_name_or : Calls → Bytes → Option ℕ → Bytes
pbw_name_or calls [] (some id) = name_of (calls.get_database id)
pbw_name_or calls name id = name

abbrev pub inserted_or : Result InsertError ℕ → Result StartError ℕ
inserted_or (ok id) = ok id
inserted_or (err unique_violation) = err already_running
inserted_or (err (insert_failed e)) = err (call_failed e)

-- What EnqueueRestoration inserts.
unfoldable pub queued_row : Calls → EnqueueParams → Inserted
queued_row calls params = record {
  execution_id = params.execution_id;
  database_id = params.database_id;
  target_database_name = non_empty (pbw_name_or calls params.target_pbw_name params.database_id);
  params = calls.marshal (record {
    op = params.op;
    target_database_name = params.target.0;
    target_owner = params.target.1;
  });
  conn_string = params.conn_string;
  tag = if is_empty params.tag then codes "default" else params.tag;
}

-- EnqueueRestoration
unfoldable pub enqueue_restoration : Calls → EnqueueParams → Result StartError ℕ
enqueue_restoration calls params = inserted_or (calls.insert (queued_row calls params))

-- The target that a request names.
unfoldable pub requested_target :
    List Preset → (preset_id environment : Bytes) → Result StartError (Preset × Target)
requested_target presets preset_id environment = do
  preset ← found_or not_found (find_restore_preset presets preset_id)
  guard (not (is_empty (normalize_environment environment))) environment_required
  target ←
      found_or environment_not_found
        (find_restore_target_by_environment preset (normalize_environment environment))
  ok (preset, target)

-- The steps that StartRestore and FixOwner share: the latest backup of the source and the connection.
unfoldable pub ready_target : Calls → Preset → Target → Result StartError (BackupRow × Connection)
ready_target calls preset target = do
  ids ← called calls.get_all_databases
  ready ← ready_backup (calls.latest_success preset.source.pbw_name)
  backup ← found_or not_ready ready
  connection ← resolve_target_connection calls ids preset target
  ok (backup, connection)

unfoldable pub restore_params : Target → Connection → BackupRow → EnqueueParams
restore_params target connection row = record {
  op = [];
  execution_id = row.id;
  database_id = connection.database_id;
  target_pbw_name = target.endpoint.pbw_name;
  conn_string = connection.conn_string;
  target = (target.endpoint.database, target.endpoint.owner);
  tag = target.tag;
}

-- StartRestore, up to the insert
unfoldable pub restore_request :
    Calls → List Preset → Bytes → Bytes → Selection → Result StartError EnqueueParams
restore_request calls presets preset_id environment selection = do
  (preset, target) ← requested_target presets preset_id environment
  (backup, connection) ← ready_target calls preset target
  row ← backup_or (resolve_execution calls preset.source.pbw_name selection)
  finished ← found_or no_finished_at row.finished_at
  version ← version_or row.pg_version (parse_version row.pg_version)
  preflight_target calls version connection.conn_string target.endpoint.owner
  ok (restore_params target connection row)

-- StartRestore: the id of the restoration in the queue
unfoldable pub start_restore : Calls → List Preset → Bytes → Bytes → Selection → Result StartError ℕ
start_restore calls presets preset_id environment selection =
    restore_request calls presets preset_id environment selection >>= enqueue_restoration calls

-- FixOwner, up to the insert
unfoldable pub fix_owner_request :
    Calls → List Preset → Bytes → Bytes → Result StartError EnqueueParams
fix_owner_request calls presets preset_id environment = do
  (preset, target) ← requested_target presets preset_id environment
  guard (not (is_empty target.endpoint.owner)) no_owner
  (backup, connection) ← ready_target calls preset target
  ok (record (restore_params target connection backup) { op = codes "fix_owner" })

-- FixOwner
unfoldable pub fix_owner : Calls → List Preset → Bytes → Bytes → Result StartError ℕ
fix_owner calls presets preset_id environment =
    fix_owner_request calls presets preset_id environment >>= enqueue_restoration calls
