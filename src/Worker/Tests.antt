-- ===== src/Worker/Tests.antt =====
-- A worker whose only job fails for want of a version.
use pgwarden.Prelude.{
  true, false, In, ◌≡◌, refl, none, some, ok, err, [], ◌∷◌, codes, All, inl, text_eq,
}
use pgwarden.Queue.{queued, running, success, Execution, Db, claimable, soft_delete_statement}
use pgwarden.Run.{
  BackupData, Calls, RunEnv, run_claimed_execution, prepare_run, choose_dump, do_upload,
  parallel_dump_usable,
}
use pgwarden.Dump.{parse_version}
use pgwarden.Worker.{Worker, new_worker, apply_all, claim_loop}
use pgwarden.Worker.Late.{deleted_comes_back}
use pgwarden.Worker.Live.{HasEnded, ahead, queued_is_reached}

abbrev waiting_row : Execution
waiting_row = record {
  id = 1;
  backup_id = 7;
  status = queued;
  message = none;
  path = none;
  started_at = 100;
  finished_at = none;
  deleted_at = none;
  file_size = none;
  log_tail = none;
  claimed_by = none;
  heartbeat_at = none;
}

abbrev table : Db
table = record {
  executions = waiting_row ∷ [];
  backup_tag = λ id. some (codes "default");
  now = 105;
  next_id = 2;
}

abbrev no_answers : Calls
no_answers = record {
  get_backup_data = err (codes "no rows");
  s3_test = λ back. none;
  pg_test = λ v conn. none;
  prepare_parallel_dump = λ conn. none;
  upload = λ kind path. ok 0;
  update_execution = λ u. none;
  date = [];
  timestamp = [];
  uuid = [];
  finished_at = 106;
  progress = [];
  log_lines = [];
}

abbrev settings : RunEnv
settings = record {
  dump_lock_wait_timeout = [];
  dump_compression_level = 3;
  dump_parallel_jobs = 4;
}

abbrev worker : Worker
worker = record { name = codes "w"; concurrency = 1; tags = codes "default" ∷ [] }

default_worker : new_worker (codes "w") 0 [] ≡ worker
unfolding new_worker
default_worker = refl

queued_is_reached_example :
    All
      (λ f. f.id ≡ 1 → HasEnded f.status)
      (claim_loop
        (λ id. no_answers)
        settings
        worker
        (ahead table worker.tags waiting_row)
        table).executions
unfolding claimable text_eq
queued_is_reached_example =
    queued_is_reached (λ id. no_answers) settings worker table waiting_row (λ i u h. refl)
      (inl refl) refl

abbrev backup : BackupData
backup = record {
  is_local = true;
  dest_dir = codes "/app";
  opt_data_only = false;
  opt_schema_only = false;
  opt_clean = false;
  opt_if_exists = false;
  opt_create = false;
  opt_no_comments = false;
  opt_serializable_deferrable = false;
  parallel_dump_enabled = false;
  parallel_dump_jobs = 0;
  conn_string = codes "host=a";
  pg_version = codes "17";
}

abbrev good_answers : Calls
good_answers = record no_answers { get_backup_data = ok backup }

abbrev running_row : Execution
running_row = record waiting_row { status = running }

abbrev busy_table : Db
busy_table = record table { executions = running_row ∷ [] }

deleted_comes_back_example :
    let after =
      apply_all
        (run_claimed_execution good_answers settings 1).0
        (soft_delete_statement busy_table 1) in
    (r : Execution) × (In r after.executions
      × ((r.id ≡ 1) × ((r.status ≡ success) × (r.deleted_at ≡ some 105))))
unfolding run_claimed_execution prepare_run choose_dump do_upload parse_version text_eq
    parallel_dump_usable pgwarden.Run.after_prepare
deleted_comes_back_example =
    deleted_comes_back good_answers settings busy_table running_row (λ u h. refl) (inl refl) refl
      refl
