-- ===== src/Restore/Tests.antt =====
-- A restore from the object store into a target with an owner, and a change of owner.
use pgwarden.Prelude.{
  ℕ, ◌≡◌, refl, true, false, none, some, Result, ok, err, List, [], ◌∷◌, map, Bytes, codes, All,
  keep,
}
use pgwarden.Go.Strings
use pgwarden.Dump.{pg17}
use pgwarden.Restore
use pgwarden.Restore.{Status, Calls, RestoreTargetOptions, RunRestorationParams, answer, queued}
use pgwarden.Restore.Admin.{prepare_target_database}
use pgwarden.Restore.Job.{
  Claim, QueuedRestoreParams, run_restoration, run_claimed_restoration, restore_op_fix_owner,
}
use pgwarden.Restore.Traces.{touches, StopsAtFailure, run_claimed-stops}
use pgwarden.Restore.Settles.{Restoration, IsSettled, after_trace, run_claimed_settles}
use pgwarden.Restore.Guarded.{
  IsAccessible, IsPreparation, restore_guarded, prepare_spares_maintenance,
}

abbrev server : Bytes
server = codes "postgres://a/app"

abbrev answers : Calls
answers = record {
  get_database =
      λ id. ok (record { name = codes "a:5432-app"; decrypted_connection_string = server });
  create_restoration = λ name. ok 9;
  get_execution = λ id. ok (record {
    succeeded = true;
    path = some (codes "/b/dump.zip");
    database_pg_version = codes "17";
  });
  get_download_data = λ id. ok (record {
    is_local = false;
    path = some (codes "/b/dump.zip");
    bucket_name = some (codes "b");
    region = some (codes "r");
    endpoint = some (codes "e");
    decrypted_access_key = codes "k";
    decrypted_secret_key = codes "s";
  });
  local_get_full_path = λ path. path;
  s3_object_size = λ file. none;
  parse_url = λ url. some (record {
    hostname = codes "a";
    port = [];
    path = codes "/app";
    raw_query = [];
    user = none;
    query = [];
  });
  url_error = λ url. url;
  quote_identifier = λ name. name;
  quote_literal = λ text. text;
  test = λ v conn. none;
  psql = λ v conn sql. none;
  reassign = λ v conn owner database. none;
  restore_from_zip = λ v conn file. none;
  update_restoration = λ u. none;
  now = 500;
  log_lines = codes "restored" ∷ [];
}

-- The target refuses to drop its database.
abbrev busy : Calls
busy = record answers { psql = λ v conn sql. some (codes "in use") }

abbrev target : RestoreTargetOptions
target = record { database_name = codes "app"; owner = codes "app_owner" }

abbrev job : RunRestorationParams
job = record {
  execution_id = 3;
  database_id = some 1;
  conn_string = [];
  existing_restoration_id = none;
  target = some target;
}

abbrev claim : Claim
claim = record {
  id = 9;
  execution_id = 3;
  database_id = none;
  params = some (codes "{}");
  conn_string = server;
}

abbrev whole_restore : Bytes → Result Bytes QueuedRestoreParams
whole_restore text =
    ok (record { op = []; target_database_name = codes "app"; target_owner = codes "app_owner" })

abbrev owner_change : QueuedRestoreParams
owner_change = record {
  op = codes "fix_owner";
  target_database_name = codes "app";
  target_owner = codes "app_owner";
}

abbrev row : Restoration
row = record { id = 9; status = queued; message = none; log_tail = none; finished_at = none }

restores : (run_claimed_restoration whole_restore answers claim).error ≡ none
unfolding run_claimed_restoration pgwarden.Restore.Job.run_queued pgwarden.Restore.Job.queued_params
    pgwarden.Prelude.text_eq restore_op_fix_owner run_restoration pgwarden.Restore.Job.run_on
    pgwarden.Restore.Job.restoration_row pgwarden.Restore.Job.claim_params
    pgwarden.Restore.Job.settled pgwarden.Restore.Job.settle Restore.◌>>=◌ Restore.go_on
    pgwarden.Restore.Checks.check_restoration pgwarden.Restore.Checks.is_restorable
    pgwarden.Restore.Checks.conn_string_of pgwarden.Restore.Checks.s3_file
    pgwarden.Restore.Checks.get_execution_restore_file pgwarden.Restore.Job.target_of
    pgwarden.Dump.parse_version Strings.is_space Strings.trim Strings.trim_left Strings.trim_right
    Strings.trim_space Strings.has_prefix Strings.trim_prefix pgwarden.Conn.parse_conn_string
    pgwarden.Conn.parse_uri_conn_string pgwarden.Restore.Admin.droppable
    pgwarden.Restore.Admin.parsed prepare_target_database
    pgwarden.Restore.Admin.reassign_database_owner pgwarden.Restore.Admin.reassign_script
    pgwarden.Restore.Admin.target_name pgwarden.Restore.Job.hand_over
    pgwarden.Restore.Job.prepare_target pgwarden.Restore.Job.restore_target Restore.act answer
    Restore.set_message Restore.with_text
restores = refl

-- The first command fails, and the job ends with its error.
busy-fails :
    (run_claimed_restoration whole_restore busy claim).error
    ≡ some (codes "terminate connections: in use")
unfolding run_claimed_restoration pgwarden.Restore.Job.run_queued pgwarden.Restore.Job.queued_params
    pgwarden.Prelude.text_eq restore_op_fix_owner run_restoration pgwarden.Restore.Job.run_on
    pgwarden.Restore.Job.restoration_row pgwarden.Restore.Job.claim_params
    pgwarden.Restore.Job.settled pgwarden.Restore.Job.settle Restore.◌>>=◌ Restore.go_on
    pgwarden.Restore.Checks.check_restoration pgwarden.Restore.Checks.is_restorable
    pgwarden.Restore.Checks.conn_string_of pgwarden.Restore.Checks.s3_file
    pgwarden.Restore.Checks.get_execution_restore_file pgwarden.Restore.Job.target_of
    pgwarden.Dump.parse_version Strings.is_space Strings.trim Strings.trim_left Strings.trim_right
    Strings.trim_space Strings.has_prefix Strings.trim_prefix pgwarden.Conn.parse_conn_string
    pgwarden.Conn.parse_uri_conn_string pgwarden.Restore.Admin.droppable
    pgwarden.Restore.Admin.parsed prepare_target_database
    pgwarden.Restore.Admin.reassign_database_owner pgwarden.Restore.Admin.reassign_script
    pgwarden.Restore.Admin.target_name pgwarden.Restore.Job.hand_over
    pgwarden.Restore.Job.prepare_target pgwarden.Restore.Job.restore_target Restore.act answer
    Restore.set_message Restore.with_text
busy-fails = refl

run_claimed-stops_example :
    StopsAtFailure busy (keep touches (run_claimed_restoration whole_restore busy claim).trace)
run_claimed-stops_example = run_claimed-stops whole_restore busy claim

run_claimed_settles_example :
    IsSettled
      (after_trace answers (run_claimed_restoration whole_restore answers claim).trace row)
      (run_claimed_restoration whole_restore answers claim).error
      500
run_claimed_settles_example = run_claimed_settles whole_restore answers claim row (λ u h. refl)

restore_guarded_example :
    All (λ a. touches a ≡ true → IsAccessible answers 3) (run_restoration answers job).trace
restore_guarded_example = restore_guarded answers job

prepare_spares_maintenance_example :
    All
      (IsPreparation answers pg17 target)
      (prepare_target_database answers pg17 server target).trace
prepare_spares_maintenance_example = prepare_spares_maintenance answers pg17 server target
