-- ===== src/Retention.antt =====
-- Which executions expire and how they are deleted: soft_delete_expired_executions and
-- soft_delete_execution (.go and .sql) of internal/service/executions. A day is 86400 seconds.
-- The calendar of PostgreSQL (the month of a time, and a time some months later) is an argument, as are the
-- answers of the two stores. Among the successes of a month that finished at the same time, the first row
-- is kept, where PostgreSQL may keep any.
pub mod Expired
pub mod Purge
mod Tests
use pgwarden.Prelude.{
  ℕ, ◌+◌, ◌*◌, Bool, true, false, not, ◌&&◌, Option, none, some, List, [], ◌∷◌, ◌++◌, Bytes, take,
  any, keep, ltb, leb, ◌==◌, if◌then◌else◌,
}
use pgwarden.Queue.{
  Status, success, deleted, is_deleted, Execution, Db, DbError, no_rows, soft_delete_statement,
}

pub record Calendar : Type 0 where
  pub month_of : ℕ → ℕ
  pub months_later : ℕ → ℕ → ℕ

-- The part of a row of `backups` that is read.
pub record Backup : Type 0 where
  pub is_local : Bool
  pub monthly_retention_enabled : Bool
  pub retention_days : ℕ

-- PBW_EXECUTION_RETENTION_DAYS and PBW_MONTHLY_RETENTION_MONTHS
pub record Settings : Type 0 where
  pub default_retention_days : ℕ
  pub default_monthly_retention_months : ℕ

abbrev is_success : Status → Bool
is_success success = true
is_success _ = false

abbrev has_monthly : Option Backup → Bool
has_monthly none = false
has_monthly (some b) = b.monthly_retention_enabled

abbrev in_month : Calendar → ℕ → Option ℕ → Bool
in_month cal month none = false
in_month cal month (some t) = cal.month_of t == month

-- A row of the group (backup, month) of monthly_keepers.
unfoldable pub in_group : Calendar → ℕ → ℕ → Execution → Bool
in_group cal backup month e =
    e.backup_id == backup && is_success e.status && in_month cal month e.finished_at

abbrev finished_before : Option ℕ → Option ℕ → Bool
finished_before (some s) (some t) = leb s t
finished_before s t = true

abbrev earlier : Execution → Option Execution → Execution
earlier e none = e
earlier e (some f) = if finished_before e.finished_at f.finished_at then e else f

-- The row of the group that finished first.
unfoldable pub earliest : (Execution → Bool) → List Execution → Option Execution
earliest p [] = none
earliest p (e ∷ es) = let rest = earliest p es in if p e then some (earlier e rest) else rest

abbrev has_id : Option Execution → ℕ → Bool
has_id none id = false
has_id (some e) id = e.id == id

-- Whether the row is one of monthly_keepers; `t` is when it finished.
unfoldable pub is_monthly_keeper :
    Calendar → (ℕ → Option Backup) → List Execution → Execution → ℕ → Bool
is_monthly_keeper cal backups es e t =
    has_monthly (backups e.backup_id)
    && has_id (earliest (in_group cal e.backup_id (cal.month_of t)) es) e.id

unfoldable pub retention_days_or : Settings → Backup → ℕ
retention_days_or settings b =
    if ltb 0 b.retention_days then b.retention_days else settings.default_retention_days

-- When a row that finished at `t` expires.
unfoldable pub expires_at :
    Calendar → Settings → (ℕ → Option Backup) → List Execution → Execution → Backup → ℕ → ℕ
expires_at cal settings backups es e b t =
    if is_monthly_keeper cal backups es e t
    then cal.months_later t settings.default_monthly_retention_months
    else t + 86400 * retention_days_or settings b

unfoldable pub expired_at :
    Calendar → Settings → (ℕ → Option Backup) → Db → Execution → Option Backup → Option ℕ → Bool
expired_at cal settings backups db e (some b) (some t) =
    ltb (expires_at cal settings backups db.executions e b t) db.now
expired_at cal settings backups db e b t = false

-- The WHERE clause of ExecutionsServiceGetExpiredExecutions
unfoldable pub is_expired : Calendar → Settings → (ℕ → Option Backup) → Db → Execution → Bool
is_expired cal settings backups db e =
    not (is_deleted e.status)
    && expired_at cal settings backups db e (backups e.backup_id) e.finished_at

-- ORDER BY, with the order as an argument
unfoldable pub insert_by :
    (Execution → Execution → Bool) → Execution → List Execution → List Execution
insert_by before e [] = e ∷ []
insert_by before e (f ∷ es) =
    let rest = insert_by before e es in if before e f then e ∷ f ∷ es else f ∷ rest

unfoldable pub sort_by : (Execution → Execution → Bool) → List Execution → List Execution
sort_by before [] = []
sort_by before (e ∷ es) = insert_by before e (sort_by before es)

abbrev pub finishes_before : Execution → Execution → Bool
finishes_before e f = finished_before e.finished_at f.finished_at

abbrev pub execution_housekeep_batch_limit : ℕ
execution_housekeep_batch_limit = 200

-- ExecutionsServiceGetExpiredExecutions
unfoldable pub get_expired_executions :
    Calendar → Settings → (ℕ → Option Backup) → Db → List Execution
get_expired_executions cal settings backups db =
    take execution_housekeep_batch_limit
      (sort_by finishes_before (keep (is_expired cal settings backups db) db.executions))

-- The stores and the database: whether a file could be deleted, and whether the statement ran.
pub record Stores : Type 0 where
  pub s3_delete : Bytes → Option Bytes
  pub local_delete : Bytes → Option Bytes
  pub statement : ℕ → Option Bytes

-- A handler's error and the files that it has deleted.
pub record Deletion : Type 0 where
  pub error : Option Bytes
  pub files : List Bytes
  pub db : Db

abbrev pub find_execution : ℕ → List Execution → Option Execution
find_execution id [] = none
find_execution id (e ∷ es) = let rest = find_execution id es in if e.id == id then some e else rest

unfoldable pub mark_deleted : Option Bytes → ℕ → List Bytes → Db → Deletion
mark_deleted (some e) id files db = record { error = some e; files = files; db = db }
mark_deleted none id files db = record {
  error = none;
  files = files;
  db = soft_delete_statement db id;
}

unfoldable pub after_file : Stores → Option Bytes → ℕ → Bytes → Db → Deletion
after_file stores (some e) id path db = record { error = some e; files = []; db = db }
after_file stores none id path db = mark_deleted (stores.statement id) id (path ∷ []) db

unfoldable pub delete_file : Stores → Bool → Option Bytes → ℕ → Db → Deletion
delete_file stores local none id db = mark_deleted (stores.statement id) id [] db
delete_file stores true (some path) id db = after_file stores (stores.local_delete path) id path db
delete_file stores false (some path) id db = after_file stores (stores.s3_delete path) id path db

unfoldable pub delete_found : Stores → Option Execution → (ℕ → Option Backup) → ℕ → Db → Deletion
delete_found stores none backups id db = record { error = none; files = []; db = db }
delete_found stores (some e) backups id db = with_backup (backups e.backup_id)
  where
    with_backup : Option Backup → Deletion
    with_backup none = record { error = none; files = []; db = db }
    with_backup (some b) = delete_file stores b.is_local e.path id db

-- SoftDeleteExecution
unfoldable pub soft_delete_execution : Stores → (ℕ → Option Backup) → ℕ → Db → Deletion
soft_delete_execution stores backups id db =
    delete_found stores (find_execution id db.executions) backups id db

-- The loop of SoftDeleteExpiredExecutions, which goes on after an error.
unfoldable pub delete_each : Stores → (ℕ → Option Backup) → List Execution → Db → Db
delete_each stores backups [] db = db
delete_each stores backups (e ∷ es) db =
    delete_each stores backups es (soft_delete_execution stores backups e.id db).db

-- SoftDeleteExpiredExecutions, once the rows have been read
unfoldable pub soft_delete_expired_executions :
    Calendar → Settings → Stores → (ℕ → Option Backup) → Db → Db
soft_delete_expired_executions cal settings stores backups db =
    delete_each stores backups (get_expired_executions cal settings backups db) db
