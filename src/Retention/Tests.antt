-- ===== src/Retention/Tests.antt =====
-- Two successes of one month, past their days: the first is kept for the month, the other is deleted.
use pgwarden.Prelude.{
  ℕ, ◌+◌, ◌*◌, ◌/◌, ◌≡◌, refl, true, Option, none, some, [], ◌∷◌, codes, All, In, inl, inr, false,
}
use pgwarden.Queue.{success, Execution, Db, update_where, soft_delete_statement}
use pgwarden.Queue.Rows.{DistinctIds}
use pgwarden.Retention.{
  Calendar, Backup, Settings, Stores, in_group, earliest, is_monthly_keeper, retention_days_or,
  expires_at, expired_at, is_expired, insert_by, sort_by, get_expired_executions, find_execution,
  mark_deleted, after_file, delete_file, delete_found, soft_delete_execution, delete_each,
  soft_delete_expired_executions,
}
use pgwarden.Retention.Purge.{
  housekeep_executions, housekeep_spares, purge_deleted_executions, purged_rows,
}
use pgwarden.Retention.Expired.{
  IsKeptOrGone, gone, IsOutcome, file_before_row, only_expired_deleted,
}

abbrev calendar : Calendar
calendar = record { month_of = λ t. t / 2592000; months_later = λ t n. t + n * 2592000 }

abbrev settings : Settings
settings = record { default_retention_days = 30; default_monthly_retention_months = 12 }

abbrev backups : ℕ → Option Backup
backups id = some (record { is_local = true; monthly_retention_enabled = true; retention_days = 0 })

abbrev first : Execution
first = record {
  id = 1;
  backup_id = 7;
  status = success;
  message = none;
  path = some (codes "a.zip");
  started_at = 900;
  finished_at = some 1000;
  deleted_at = none;
  file_size = none;
  log_tail = none;
  claimed_by = none;
  heartbeat_at = none;
}

abbrev second : Execution
second = record first { id = 2; finished_at = some 2000; path = some (codes "b.zip") }

abbrev table : Db
table = record {
  executions = second ∷ first ∷ [];
  backup_tag = λ id. some (codes "default");
  now = 3000000;
  next_id = 3;
}

abbrev stores : Stores
stores = record { s3_delete = λ path. none; local_delete = λ path. none; statement = λ id. none }

-- The second row goes for good, once its file is deleted.
purged : (housekeep_executions calendar settings stores backups table).executions ≡ first ∷ []
unfolding housekeep_executions purge_deleted_executions purged_rows soft_delete_expired_executions
    get_expired_executions is_expired expired_at expires_at is_monthly_keeper in_group earliest
    retention_days_or insert_by sort_by delete_each soft_delete_execution delete_found delete_file
    after_file mark_deleted soft_delete_statement update_where
purged = refl

second_goes :
    (soft_delete_expired_executions calendar settings stores backups table).executions
    ≡ gone 3000000 second ∷ first ∷ []
unfolding soft_delete_expired_executions get_expired_executions is_expired expired_at expires_at
    is_monthly_keeper in_group earliest retention_days_or insert_by sort_by delete_each
    soft_delete_execution delete_found delete_file after_file mark_deleted soft_delete_statement
    update_where gone
second_goes = refl

table-DistinctIds : DistinctIds table.executions
table-DistinctIds = (((λ h. cc), tt), (tt, tt))

only_expired_deleted_example :
    All
      (IsKeptOrGone (is_expired calendar settings backups table) table)
      (soft_delete_expired_executions calendar settings stores backups table).executions
only_expired_deleted_example =
    only_expired_deleted calendar settings stores backups table table-DistinctIds

file_before_row_example :
    IsOutcome stores
      (find_execution 2 table.executions)
      backups
      2
      table
      (soft_delete_execution stores backups 2 table)
file_before_row_example = file_before_row stores backups 2 table

first_is_fresh : is_expired calendar settings backups table first ≡ false
unfolding is_expired expired_at expires_at is_monthly_keeper in_group earliest retention_days_or
first_is_fresh = refl

housekeep_spares_example :
    In first (housekeep_executions calendar settings stores backups table).executions
housekeep_spares_example =
    housekeep_spares calendar settings stores backups table first table-DistinctIds (inr (inl refl))
      refl first_is_fresh
