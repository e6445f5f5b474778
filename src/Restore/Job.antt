-- ===== src/Restore/Job.antt =====
-- internal/service/restorations/run_restoration.go, fix_owner.go (runFixOwnerTask) and queue.go
-- (RunClaimedRestoration): what a worker does with a claimed job. The updates of the log's text while
-- psql runs are left out. json.Unmarshal is an argument.
use pgwarden.Prelude.{
  ℕ, ◌&&◌, Option, none, some, Result, ok, err, List, [], ◌∷◌, ◌++◌, Bytes, codes, text_eq,
  is_empty, if◌then◌else◌,
}
use pgwarden.LogTail.{join_lines}
use pgwarden.Restore
use pgwarden.Restore.{
  UpdateParams, no_update, RestoreTargetOptions, RunRestorationParams, Database, Action, update,
  restore_zip, psql_test, CreateError, unique_violation, other, Calls, Traced, ◌>>=◌, ◌>>◌, lift,
  fault, prefixed, with_text, act, set_message,
}
use pgwarden.Restore.Admin.{prepare_target_database, reassign_database_owner}
use pgwarden.Restore.Checks.{Source, check_restoration, check_fix_owner}

unfoldable pub prepare_target : Calls → ℕ → Source → Option RestoreTargetOptions → Traced (Unit {0})
prepare_target calls id src none = lift (ok tt)
prepare_target calls id src (some target) = do
  set_message calls id (codes "preparing target database")
  prepare_target_database calls src.version src.conn_string target

unfoldable pub hand_over : Calls → ℕ → Source → Option RestoreTargetOptions → Traced (Unit {0})
hand_over calls id src none = lift (ok tt)
hand_over calls id src (some target) =
    if is_empty target.owner
    then lift (ok tt)
    else set_message calls id (codes "reassigning owner")
      >> reassign_database_owner calls src.version src.conn_string target.owner

-- RunRestoration, from the first action on the target to the last.
unfoldable pub restore_target : Calls → ℕ → Option RestoreTargetOptions → Source → Traced (Unit {0})
restore_target calls id target src = do
  prepare_target calls id src target
  act calls (psql_test src.version src.conn_string)
  set_message calls id (codes "restoring backup")
  act calls (restore_zip src.version src.conn_string src.file)
  hand_over calls id src target

-- FlushNow of the job's log tail.
unfoldable pub flush_now : ℕ → List Bytes → List Action
flush_now id [] = []
flush_now id (l ∷ lines) =
    update (record (no_update id) { log_tail = some (join_lines (l ∷ lines)) }) ∷ []

unfoldable pub fail_update : Calls → ℕ → Bytes → UpdateParams
fail_update calls id error = record (no_update id) {
  status = some Restore.Status.failed;
  message = some error;
  finished_at = some calls.now;
}

unfoldable pub done_update : Calls → ℕ → Bytes → UpdateParams
done_update calls id message = record (no_update id) {
  status = some Restore.Status.success;
  message = some message;
  finished_at = some calls.now;
}

-- What a job did, the row it is about and the error that it returned.
pub record Ran : Type 0 where
  pub trace : List Action
  pub id : Option ℕ
  pub error : Option Bytes

-- The end of a job: the log is flushed and the row gets its last update. An error of the update that
-- reports a success goes through `last`, which tells whether the job returns it; that of any other
-- update is dropped.
unfoldable pub settle :
    Calls → ℕ → Bytes → (Option Bytes → Option Bytes) → List Action → Result Bytes (Unit {0}) → Ran
settle calls id message last trace (ok u) = record {
  trace = trace ++ (flush_now id calls.log_lines ++ update (done_update calls id message) ∷ []);
  id = some id;
  error = last (calls.update_restoration (done_update calls id message));
}
settle calls id message last trace (err e) = record {
  trace = trace ++ (flush_now id calls.log_lines ++ update (fail_update calls id e) ∷ []);
  id = some id;
  error = some e;
}

unfoldable pub settled : Calls → ℕ → Bytes → (Option Bytes → Option Bytes) → Traced (Unit {0}) → Ran
settled calls id message last m = settle calls id message last m.trace m.result

-- The row of a restoration that is not taken from the queue.
abbrev pub name_of : Result Bytes Database → Option Bytes
name_of (ok db) = some db.name
name_of (err e) = none

pub target_database_name : Calls → Option ℕ → Option Bytes
target_database_name calls none = none
target_database_name calls (some database) = name_of (calls.get_database database)

-- The row that a job works on.
unfoldable pub restoration_row : Calls → RunRestorationParams → Option ℕ → Result CreateError ℕ
restoration_row calls p (some id) = ok id
restoration_row calls p none = calls.create_restoration (target_database_name calls p.database_id)

abbrev pub create_error : CreateError → Bytes
create_error unique_violation = codes "restore is already running for this target database"
create_error (other e) = e

unfoldable pub run_on : Calls → RunRestorationParams → Result CreateError ℕ → Ran
run_on calls p (err e) = record { trace = []; id = none; error = some (create_error e) }
run_on calls p (ok id) =
    settled calls id (codes "Backup restored successfully") (λ error. error)
      (lift (check_restoration calls p) >>= restore_target calls id p.target)

-- RunRestoration
unfoldable pub run_restoration : Calls → RunRestorationParams → Ran
run_restoration calls p = run_on calls p (restoration_row calls p p.existing_restoration_id)

pub record QueuedRestoreParams : Type 0 where
  pub op : Bytes
  pub target_database_name : Bytes
  pub target_owner : Bytes

-- The row of RestorationsServiceClaimRestoration.
pub record Claim : Type 0 where
  pub id : ℕ
  pub execution_id : ℕ
  pub database_id : Option ℕ
  pub params : Option Bytes
  pub conn_string : Bytes

-- runFixOwnerTask
unfoldable pub run_fix_owner_task : Calls → Claim → QueuedRestoreParams → Ran
run_fix_owner_task calls claim queued =
    settled calls claim.id (codes "Owner reassigned successfully") (λ error. none)
      (do
        (conn, version) ← lift (
            check_fix_owner calls claim.database_id claim.conn_string claim.execution_id
              queued.target_owner)
        set_message calls claim.id (codes "reassigning owner")
        with_text (codes "reassign owner: ")
            (reassign_database_owner calls version conn queued.target_owner))

unfoldable pub restore_op_fix_owner : Bytes
restore_op_fix_owner = codes "fix_owner"

abbrev no_params : QueuedRestoreParams
no_params = record { op = []; target_database_name = []; target_owner = [] }

-- The parameters of a queued job.
unfoldable pub queued_params :
    (Bytes → Result Bytes QueuedRestoreParams) → Option Bytes → Result Bytes QueuedRestoreParams
queued_params unmarshal none = ok no_params
queued_params unmarshal (some []) = ok no_params
queued_params unmarshal (some (c ∷ text)) =
    prefixed (codes "invalid queued restore params: ") (unmarshal (c ∷ text))

unfoldable pub target_of : QueuedRestoreParams → Option RestoreTargetOptions
target_of queued =
    if is_empty queued.target_database_name && is_empty queued.target_owner
    then none
    else some (record { database_name = queued.target_database_name; owner = queued.target_owner })

unfoldable pub claim_params : Claim → Option RestoreTargetOptions → RunRestorationParams
claim_params claim target = record {
  execution_id = claim.execution_id;
  database_id = claim.database_id;
  conn_string = claim.conn_string;
  existing_restoration_id = some claim.id;
  target = target;
}

unfoldable pub run_queued : Calls → Claim → Result Bytes QueuedRestoreParams → Ran
run_queued calls claim (err e) = record {
  trace = update (fail_update calls claim.id e) ∷ [];
  id = some claim.id;
  error = some e;
}
run_queued calls claim (ok queued) =
    if text_eq queued.op restore_op_fix_owner
    then run_fix_owner_task calls claim queued
    else run_restoration calls (claim_params claim (target_of queued))

-- RunClaimedRestoration
unfoldable pub run_claimed_restoration :
    (Bytes → Result Bytes QueuedRestoreParams) → Calls → Claim → Ran
run_claimed_restoration unmarshal calls claim =
    run_queued calls claim (queued_params unmarshal claim.params)
