-- ===== src/Run/Tests.antt =====
-- A run of a backup to the object store.
use pgwarden.Prelude.{◌≡◌, refl, true, false, none, some, ok, [], ◌∷◌, codes, text_eq}
use pgwarden.Dump.{parse_version}
use pgwarden.Queue.{Execution, running}
use pgwarden.Run.{
  BackupData, RunEnv, Calls, DumpKind, parallel, run_claimed_execution, choose_dump, prepare_run,
  do_upload, dump_params, resolve_parallel_dump_jobs, parallel_dump_usable,
}
use pgwarden.Run.Settles.{IsSettled, IsReady, after_updates, run_settles, run_success_needs}

abbrev backup : BackupData
backup = record {
  is_local = false;
  dest_dir = codes "/prod/app";
  opt_data_only = false;
  opt_schema_only = false;
  opt_clean = true;
  opt_if_exists = true;
  opt_create = false;
  opt_no_comments = false;
  opt_serializable_deferrable = false;
  parallel_dump_enabled = true;
  parallel_dump_jobs = 40;
  conn_string = codes "host=a";
  pg_version = codes "17";
}

abbrev settings : RunEnv
settings = record {
  dump_lock_wait_timeout = codes "10min";
  dump_compression_level = 3;
  dump_parallel_jobs = 4;
}

abbrev answers : Calls
answers = record {
  get_backup_data = ok backup;
  s3_test = λ back. none;
  pg_test = λ version conn. none;
  prepare_parallel_dump = λ conn. none;
  upload = λ kind path. ok 4096;
  update_execution = λ u. none;
  date = codes "2026/07/11";
  timestamp = codes "20260711090000";
  uuid = codes "u";
  finished_at = 500;
  progress = 1024 ∷ [];
  log_lines = codes "dumping" ∷ [];
}

-- The object store is not reached.
abbrev no_store : Calls
no_store = record answers { s3_test = λ back. some (codes "no such bucket") }

abbrev claimed : Execution
claimed = record {
  id = 7;
  backup_id = 3;
  status = running;
  message = none;
  path = none;
  started_at = 400;
  finished_at = none;
  deleted_at = none;
  file_size = none;
  log_tail = none;
  claimed_by = some (codes "w");
  heartbeat_at = some 400;
}

no_store-fails : (run_claimed_execution no_store settings 7).1 ≡ some (codes "no such bucket")
unfolding run_claimed_execution prepare_run
no_store-fails = refl

run_settles_example :
    IsSettled
      (after_updates (run_claimed_execution answers settings 7).0 claimed)
      (run_claimed_execution answers settings 7).1
      500
run_settles_example = run_settles answers settings claimed (λ u h. refl)

run_success_needs_example : (back : BackupData) × IsReady answers settings back
unfolding run_claimed_execution prepare_run choose_dump do_upload parse_version text_eq
    parallel_dump_usable pgwarden.Run.after_prepare
run_success_needs_example = run_success_needs answers settings 7 refl
