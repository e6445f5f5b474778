-- ===== src/Run.antt =====
-- internal/service/executions/run_execution.go: how a worker runs an execution that it has claimed.
-- The calls of other systems (the metadata query, S3, psql, pg_dump, the upload, the clock and the
-- UUID generator) are arguments, as functions of what they are given. The result is the statements
-- for its row that the database has executed, in order, and the error that the function returns: the
-- error of an update is logged and goes no further. The updates of the log's
-- text while the dump runs are left out: module LogTail has them.
mod Tests
pub mod Settles
use pgwarden.Prelude.{
  ℕ, ◌+◌, min, max, Bool, true, false, not, ◌&&◌, Option, none, some, Result, ok, err, ◌>>=◌, List,
  [], ◌∷◌, ◌++◌, map, keep, Bytes, codes, ◌==◌, if◌then◌else◌,
}
use pgwarden.LogTail.{join_lines}
use pgwarden.Paths.{create_path}
use pgwarden.Dump.{DumpParams, PgVersion, parse_version, PrepareError, unsupported, failed}
use pgwarden.Queue
use pgwarden.Queue.{UpdateParams, no_update, Status, is_none}

-- The row of ExecutionsServiceGetBackupData.
pub record BackupData : Type 0 where
  pub is_local : Bool
  pub dest_dir : Bytes
  pub opt_data_only : Bool
  pub opt_schema_only : Bool
  pub opt_clean : Bool
  pub opt_if_exists : Bool
  pub opt_create : Bool
  pub opt_no_comments : Bool
  pub opt_serializable_deferrable : Bool
  pub parallel_dump_enabled : Bool
  pub parallel_dump_jobs : ℕ
  pub conn_string : Bytes
  pub pg_version : Bytes

-- The settings of the environment that a run reads.
pub record RunEnv : Type 0 where
  pub dump_lock_wait_timeout : Bytes
  pub dump_compression_level : ℕ
  pub dump_parallel_jobs : ℕ

-- ResolveParallelDumpJobs; the column is not negative.
pub resolve_parallel_dump_jobs : RunEnv → ℕ → ℕ
resolve_parallel_dump_jobs env configured =
    max 2 (min (if configured == 0 then env.dump_parallel_jobs else configured) 16)

-- parallelDumpUsable, with its reason.
unfoldable pub parallel_dump_usable : BackupData → Bool × Bytes
parallel_dump_usable back =
    if not back.parallel_dump_enabled
    then (false, [])
    else if back.opt_schema_only
    then (false, codes "schema-only backup")
    else if back.opt_data_only
    then (false, codes "data-only backup")
    else if back.opt_serializable_deferrable
    then (false, codes "serializable-deferrable is incompatible with snapshot export")
    else (true, [])

-- The dump that is uploaded.
pub data DumpKind : Type 0 where
  parallel : (jobs : ℕ) → DumpParams → DumpKind
  classic : DumpParams → DumpKind

-- What the other systems answer in this run.
pub record Calls : Type 0 where
  pub get_backup_data : Result Bytes BackupData
  pub s3_test : BackupData → Option Bytes
  pub pg_test : PgVersion → Bytes → Option Bytes
  pub prepare_parallel_dump : Bytes → Option PrepareError
  pub upload : DumpKind → Bytes → Result Bytes ℕ
  pub update_execution : UpdateParams → Option Bytes
  pub date : Bytes
  pub timestamp : Bytes
  pub uuid : Bytes
  pub finished_at : ℕ
  -- the sizes that the progress reader reported, and the lines of pg_dump's log when the run ended
  pub progress : List ℕ
  pub log_lines : List Bytes

pub dump_params : RunEnv → BackupData → DumpParams
dump_params env back = record {
  data_only = back.opt_data_only;
  schema_only = back.opt_schema_only;
  clean = back.opt_clean;
  if_exists = back.opt_if_exists;
  create = back.opt_create;
  no_comments = back.opt_no_comments;
  lock_wait_timeout = env.dump_lock_wait_timeout;
  serializable_deferrable = back.opt_serializable_deferrable;
  compression_level = env.dump_compression_level;
}

-- An error of the run, and the path of the file if the upload had begun.
pub record Failure : Type 0 where
  pub error : Bytes
  pub path : Bytes

abbrev pub early {ℓ} : {A : Type ℓ} → Bytes → Result Failure A
early e = err (record { error = e; path = [] })

abbrev pub unless : Option Bytes → Result Failure (Unit {0})
unless none = ok tt
unless (some e) = early e

abbrev pub known_version : Bytes → Option PgVersion → Result Failure PgVersion
known_version v none = early (codes "pg version not allowed: " ++ v)
known_version v (some version) = ok version

abbrev pub row_of : Result Bytes BackupData → Result Failure BackupData
row_of (ok back) = ok back
row_of (err e) = early e

-- The reply of `ParallelDumpZip`: the parallel dump, the classic one instead, or the end of the run.
unfoldable pub after_prepare : ℕ → DumpParams → Option PrepareError → Result Failure DumpKind
after_prepare jobs p none = ok (parallel jobs p)
after_prepare jobs p (some unsupported) = ok (classic p)
after_prepare jobs p (some (failed e)) = early (codes "parallel dump: " ++ e)

unfoldable pub choose_dump : Calls → RunEnv → BackupData → Result Failure DumpKind
choose_dump calls env back =
    if (parallel_dump_usable back).0
    then after_prepare (resolve_parallel_dump_jobs env back.parallel_dump_jobs)
        (dump_params env back) (calls.prepare_parallel_dump back.conn_string)
    else ok (classic (dump_params env back))

-- All that comes before the upload.
unfoldable pub prepare_run : Calls → RunEnv → Result Failure (BackupData × DumpKind)
prepare_run calls env = do
  back ← row_of calls.get_backup_data
  tested ← unless (if back.is_local then none else calls.s3_test back)
  version ← known_version back.pg_version (parse_version back.pg_version)
  reached ← unless (calls.pg_test version back.conn_string)
  kind ← choose_dump calls env back
  ok (back, kind)

-- The path of the backup file.
pub file_path : Calls → BackupData → Bytes
file_path calls back = create_path false (
    back.dest_dir
    ∷ calls.date
    ∷ (codes "dump-" ++ (calls.timestamp ++ (b'-' ∷ (calls.uuid ++ codes ".zip"))))
    ∷ [])

abbrev pub uploaded : Bytes → Result Bytes ℕ → Result Failure (Bytes × ℕ)
uploaded path (ok size) = ok (path, size)
uploaded path (err e) = err (record { error = e; path = path })

unfoldable pub do_upload : Calls → BackupData × DumpKind → Result Failure (Bytes × ℕ)
do_upload calls (back, kind) =
    let path = file_path calls back in uploaded path (calls.upload kind path)

-- FlushNow of the run's log tail.
unfoldable pub flush_now : ℕ → List Bytes → List UpdateParams
flush_now id [] = []
flush_now id (l ∷ lines) = record (no_update id) { log_tail = some (join_lines (l ∷ lines)) } ∷ []

-- The updates of the progress reader.
unfoldable pub progress_updates : ℕ → List ℕ → List UpdateParams
progress_updates id [] = []
progress_updates id (n ∷ sizes) =
    record (no_update id) { file_size = some n } ∷ progress_updates id sizes

abbrev some_path : Bytes → Option Bytes
some_path [] = none
some_path (c ∷ path) = some (c ∷ path)

-- The last statement of `failExec`.
unfoldable pub fail_update : ℕ → ℕ → Failure → UpdateParams
fail_update id now f = record (no_update id) {
  status = some Queue.Status.failed;
  message = some f.error;
  finished_at = some now;
  path = some_path f.path;
}

unfoldable pub done_update : ℕ → ℕ → Bytes × ℕ → UpdateParams
done_update id now (path, size) = record (no_update id) {
  status = some Queue.Status.success;
  message = some (codes "Backup created successfully");
  path = some path;
  finished_at = some now;
  file_size = some size;
}

unfoldable pub final_update : ℕ → ℕ → Result Failure (Bytes × ℕ) → UpdateParams
final_update id now (ok done) = done_update id now done
final_update id now (err f) = fail_update id now f

abbrev pub returned : Result Failure (Bytes × ℕ) → Option Bytes
returned (ok done) = none
returned (err f) = some f.error

-- Progress is reported only while the upload reads the dump.
abbrev pub progress_of : Calls → ℕ → Result Failure (BackupData × DumpKind) → List UpdateParams
progress_of calls id (ok r) = progress_updates id calls.progress
progress_of calls id (err f) = []

-- updateExec, for each update that a run issues: one that fails leaves the row as it is.
unfoldable pub update_exec : Calls → List UpdateParams → List UpdateParams
update_exec calls us = keep (λ u. is_none (calls.update_execution u)) us

-- RunClaimedExecution
unfoldable pub run_claimed_execution : Calls → RunEnv → ℕ → List UpdateParams × Option Bytes
run_claimed_execution calls env id =
    let prepared = prepare_run calls env in
    let result = prepared >>= do_upload calls in
    (
      update_exec calls (
          (progress_of calls id prepared ++ flush_now id calls.log_lines)
          ++ final_update id calls.finished_at result ∷ []),
      returned result,
    )
