-- ===== src/Restore/Checks.antt =====
-- What a job reads and checks before it touches its target: the first half of RunRestoration and of
-- runFixOwnerTask (internal/service/restorations/run_restoration.go, fix_owner.go), with
-- GetExecutionRestoreFile (internal/service/executions/get_execution_restore_file.go).
use pgwarden.Prelude.{
  ℕ, Bool, true, false, not, ◌&&◌, ◌||◌, Option, none, some, Result, ok, err, ◌>>=◌, ◌>>◌, guard,
  [], ◌++◌, Bytes, codes, is_empty, if◌then◌else◌,
}
use pgwarden.Dump.{PgVersion, parse_version}
use pgwarden.Restore.{
  RunRestorationParams, Execution, DownloadData, RestoreFile, Calls, fault, prefixed,
}

abbrev pub given {ℓ} : {A : Type ℓ} → Bytes → Option A → Result Bytes A
given text none = err text
given text (some a) = ok a

abbrev pub is_some {ℓ} : {A : Type ℓ} → Option A → Bool
is_some none = false
is_some (some a) = true

-- The coordinates of a file in the object store.
unfoldable pub s3_file :
    DownloadData → Bytes → Option Bytes → Option Bytes → Option Bytes → Result Bytes RestoreFile
s3_file row path (some bucket) (some region) (some endpoint) = ok (record {
  is_local = false;
  path = path;
  bucket = bucket;
  region = region;
  endpoint = endpoint;
  access_key = row.decrypted_access_key;
  secret_key = row.decrypted_secret_key;
})
s3_file row path bucket region endpoint = err (codes "execution S3 destination is incomplete")

abbrev pub local_file : Bytes → RestoreFile
local_file path = record {
  is_local = true;
  path = path;
  bucket = [];
  region = [];
  endpoint = [];
  access_key = [];
  secret_key = [];
}

-- GetExecutionRestoreFile
unfoldable pub get_execution_restore_file : Calls → ℕ → Result Bytes RestoreFile
get_execution_restore_file calls execution_id = do
  row ← calls.get_download_data execution_id
  path ← given (codes "execution has no file associated") row.path
  if row.is_local
      then ok (local_file (calls.local_get_full_path path))
      else s3_file row path row.bucket_name row.region row.endpoint

-- The connection string of the registered database, if there is one, else the given one.
unfoldable pub conn_string_of : Calls → Option ℕ → Bytes → Result Bytes Bytes
conn_string_of calls none conn = ok conn
conn_string_of calls (some id) conn = do
  db ← calls.get_database id
  ok db.decrypted_connection_string

abbrev pub version_of : Bytes → Result Bytes PgVersion
version_of v = given (codes "pg version not allowed: " ++ v) (parse_version v)

unfoldable pub is_restorable : Execution → Bool
is_restorable e = e.succeeded && is_some e.path

-- S3ObjectSize, for a file in the object store.
abbrev pub s3_check : Calls → RestoreFile → Option Bytes
s3_check calls file = if file.is_local then none else calls.s3_object_size file

-- What a restoration works with.
pub record Source : Type 0 where
  pub conn_string : Bytes
  pub version : PgVersion
  pub file : RestoreFile

-- RunRestoration, up to the first action on the target.
unfoldable pub check_restoration : Calls → RunRestorationParams → Result Bytes Source
check_restoration calls p = do
  guard (is_some p.database_id || not (is_empty p.conn_string))
      (codes "database_id or connection_string must be provided")
  execution ← calls.get_execution p.execution_id
  guard (is_restorable execution) (codes "backup execution must be successful")
  conn ← conn_string_of calls p.database_id p.conn_string
  version ← version_of execution.database_pg_version
  file ← get_execution_restore_file calls p.execution_id
  prefixed (codes "backup file not accessible in S3: ") (fault (s3_check calls file))
  ok (record { conn_string = conn; version = version; file = file })

-- runFixOwnerTask, up to the script: the connection string and the version.
pub check_fix_owner : Calls → Option ℕ → Bytes → ℕ → Bytes → Result Bytes (Bytes × PgVersion)
check_fix_owner calls database_id conn_string execution_id owner = do
  guard (not (is_empty owner)) (codes "fix owner task without target owner")
  conn ← conn_string_of calls database_id conn_string
  guard (not (is_empty conn)) (codes "fix owner task without connection string")
  execution ← calls.get_execution execution_id
  version ← version_of execution.database_pg_version
  ok (conn, version)
