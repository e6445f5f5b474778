-- ===== src/Queue.antt =====
-- The queue of backup executions: the table `executions` with its statements
-- (internal/service/executions/*.sql), the partial unique index
-- executions_one_active_per_backup_uidx, and the Go functions that issue them
-- (internal/service/executions/run_execution.go and its neighbours).
-- Identifiers are numbers; a new row takes the next one, as a fresh UUID would be. Times are seconds.
-- A statement is one atomic step. A failure of the database is an argument of each handler.
pub mod Rows
pub mod Steps
pub mod Active
pub mod Claims
pub mod Enqueue
pub mod Reaper
pub mod Phases
pub mod Refines
mod Tests
use pgwarden.Prelude.{
  ℕ, suc, ◌+◌, Bool, true, false, not, ◌&&◌, ◌||◌, Option, none, some, Result, ok, err, List, [],
  ◌∷◌, ◌++◌, Bytes, codes, text_eq, any, take, ltb, leb, ◌==◌, if◌then◌else◌,
}

pub data Status : Type 0 where
  queued running success failed deleted : Status

abbrev pub is_queued : Status → Bool
is_queued queued = true
is_queued _ = false

abbrev pub is_running : Status → Bool
is_running running = true
is_running _ = false

abbrev pub is_deleted : Status → Bool
is_deleted deleted = true
is_deleted _ = false

abbrev pub is_none {ℓ} : {A : Type ℓ} → Option A → Bool
is_none none = true
is_none (some a) = false

-- A row of `executions`.
pub record Execution : Type 0 where
  pub id : ℕ
  pub backup_id : ℕ
  pub status : Status
  pub message : Option Bytes
  pub path : Option Bytes
  pub started_at : ℕ
  pub finished_at : Option ℕ
  pub deleted_at : Option ℕ
  pub file_size : Option ℕ
  pub log_tail : Option Bytes
  pub claimed_by : Option Bytes
  pub heartbeat_at : Option ℕ

-- The part of the metadata database that the queue uses: the table, the tag of each backup that
-- exists, the clock and the next identifier.
pub record Db : Type 0 where
  pub executions : List Execution
  pub backup_tag : ℕ → Option Bytes
  pub now : ℕ
  pub next_id : ℕ

pub data DbError : Type 0 where
  no_rows unique_violation foreign_key_violation : DbError
  other : Bytes → DbError

-- The predicate of executions_one_active_per_backup_uidx.
pub is_active : Execution → Bool
is_active e = (is_queued e.status || is_running e.status) && is_none e.deleted_at

pub active_for : ℕ → Execution → Bool
active_for backup e = e.backup_id == backup && is_active e

-- UPDATE executions SET … WHERE …
unfoldable pub update_where :
    (Execution → Bool) → (Execution → Execution) → List Execution → List Execution
update_where p f [] = []
update_where p f (e ∷ es) = (if p e then f e else e) ∷ update_where p f es

-- ExecutionsServiceHasRunningExecution
pub has_running_execution : Db → ℕ → Bool
has_running_execution db backup = any (active_for backup) db.executions

abbrev pub new_execution : Db → ℕ → Status → Execution
new_execution db backup status = record {
  id = db.next_id;
  backup_id = backup;
  status = status;
  message = none;
  path = none;
  started_at = db.now;
  finished_at = none;
  deleted_at = none;
  file_size = none;
  log_tail = none;
  claimed_by = none;
  heartbeat_at = none;
}

-- The insert of a queued row for a backup of this tag, which the index refuses while the backup has
-- an active row.
pub insert_queued : Db → ℕ → Option Bytes → Result DbError Db
insert_queued db backup none = err foreign_key_violation
insert_queued db backup (some tag) =
    if any (active_for backup) db.executions
    then err unique_violation
    else ok (record db {
      executions = db.executions ++ new_execution db backup queued ∷ [];
      next_id = suc db.next_id;
    })

-- ExecutionsServiceCreateExecution, as the enqueuer calls it
pub create_execution : Db → ℕ → Result DbError Db
create_execution db backup = insert_queued db backup (db.backup_tag backup)

pub data EnqueueError : Type 0 where
  already_queued_or_running : ℕ → EnqueueError
  db_failed : DbError → EnqueueError

abbrev unique_or : ℕ → DbError → EnqueueError
unique_or backup unique_violation = already_queued_or_running backup
unique_or backup e = db_failed e

pub insert_reply : Db → ℕ → Result DbError Db → Result EnqueueError (Unit {0}) × Db
insert_reply db backup (ok db') = (ok tt, db')
insert_reply db backup (err e) = (err (unique_or backup e), db)

-- What the insert of `EnqueueExecution` comes to.
pub enqueue_insert : Option DbError → Db → ℕ → Result EnqueueError (Unit {0}) × Db
enqueue_insert (some fault) db backup = insert_reply db backup (err fault)
enqueue_insert none db backup = insert_reply db backup (create_execution db backup)

-- EnqueueExecution. Between its two statements others may change the table: the first one reads
-- `seen`, and the insert meets `db`.
pub enqueue_execution :
    Option DbError → Option DbError → Db → Db → ℕ → Result EnqueueError (Unit {0}) × Db
enqueue_execution (some fault) insert_fault seen db backup = (err (db_failed fault), db)
enqueue_execution none insert_fault seen db backup =
    if has_running_execution seen backup
    then (err (already_queued_or_running backup), db)
    else enqueue_insert insert_fault db backup

abbrev tag_in : List Bytes → Option Bytes → Bool
tag_in tags none = false
tag_in tags (some tag) = any (text_eq tag) tags

-- The WHERE clause of ExecutionsServiceClaimExecution; `locked` are the rows that other transactions
-- have locked, which SKIP LOCKED passes over.
unfoldable pub claimable : Db → List Bytes → (ℕ → Bool) → Execution → Bool
claimable db tags locked e =
    is_queued e.status
    && is_none e.deleted_at
    && tag_in tags (db.backup_tag e.backup_id)
    && not (locked e.id)

abbrev earlier : Execution → Option Execution → Execution
earlier e none = e
earlier e (some f) = if leb e.started_at f.started_at then e else f

-- ORDER BY started_at LIMIT 1
pub oldest : (Execution → Bool) → List Execution → Option Execution
oldest p [] = none
oldest p (e ∷ es) = let rest = oldest p es in if p e then some (earlier e rest) else rest

abbrev pub claimed : Db → Bytes → Execution → Execution
claimed db worker e = record e {
  status = running;
  claimed_by = some worker;
  heartbeat_at = some db.now;
  started_at = db.now;
}

-- The update of the row that the subquery found.
unfoldable pub claim_row : Db → Bytes → Option Execution → Result DbError Execution × Db
claim_row db worker none = (err no_rows, db)
claim_row db worker (some e) = (
  ok (claimed db worker e),
  record db { executions = update_where (λ f. f.id == e.id) (claimed db worker) db.executions },
)

-- ExecutionsServiceClaimExecution
unfoldable pub claim_statement :
    Db → Bytes → List Bytes → (ℕ → Bool) → Result DbError Execution × Db
claim_statement db worker tags locked =
    claim_row db worker (oldest (claimable db tags locked) db.executions)

abbrev pub claim_reply : Result DbError Execution → Result DbError (Option Execution)
claim_reply (ok e) = ok (some e)
claim_reply (err no_rows) = ok none
claim_reply (err e) = err e

-- ClaimExecution: `ok none` is its ok=false, an empty queue.
unfoldable pub claim_execution :
    Option DbError → Db → Bytes → List Bytes → (ℕ → Bool) → Result DbError (Option Execution) × Db
claim_execution (some fault) db worker tags locked = (claim_reply (err fault), db)
claim_execution none db worker tags locked =
    let (reply, db') = claim_statement db worker tags locked in (claim_reply reply, db')

-- ExecutionsServiceHeartbeatExecution
unfoldable pub heartbeat_execution : Db → ℕ → Db
heartbeat_execution db id = record db {
  executions =
      update_where (λ e. e.id == id && is_running e.status)
        (λ e. record e { heartbeat_at = some db.now }) db.executions;
}

-- `heartbeat_at < now() - make_interval(…)`, with the interval on the other side.
abbrev stale_heartbeat : ℕ → ℕ → Option ℕ → Bool
stale_heartbeat now stale none = false
stale_heartbeat now stale (some t) = ltb (t + stale) now

pub is_stale : ℕ → ℕ → Execution → Bool
is_stale now stale e =
    is_running e.status && is_none e.deleted_at && stale_heartbeat now stale e.heartbeat_at

abbrev pub lost : ℕ → Execution → Execution
lost now e = record e {
  status = failed;
  message = some (codes "Backup interrupted: worker lost (heartbeat timed out)");
  finished_at = some now;
}

-- ExecutionsServiceReapStaleExecutions, called with reapStaleAfter in seconds
pub reap_stale_executions : Db → ℕ → Db
reap_stale_executions db stale = record db {
  executions = update_where (is_stale db.now stale) (lost db.now) db.executions;
}

-- ExecutionsServiceMarkStaleExecutions
pub mark_stale_executions : Db → Db
mark_stale_executions db = record db {
  executions =
      update_where (λ e. is_running e.status && is_none e.deleted_at)
        (λ e. record e {
          status = failed;
          message = some (codes "Backup interrupted: process restarted while running");
          finished_at = some db.now;
        })
        db.executions;
}

-- The arguments of ExecutionsServiceUpdateExecution; `none` leaves a column as it is.
pub record UpdateParams : Type 0 where
  pub id : ℕ
  pub status : Option Status
  pub message : Option Bytes
  pub path : Option Bytes
  pub finished_at : Option ℕ
  pub deleted_at : Option ℕ
  pub file_size : Option ℕ
  pub log_tail : Option Bytes

abbrev pub no_update : ℕ → UpdateParams
no_update id = record {
  id = id;
  status = none;
  message = none;
  path = none;
  finished_at = none;
  deleted_at = none;
  file_size = none;
  log_tail = none;
}

abbrev pub coalesce {ℓ} : {A : Type ℓ} → Option A → A → A
coalesce none a = a
coalesce (some b) a = b

-- COALESCE of a nullable column
abbrev pub or_else {ℓ} : {A : Type ℓ} → Option A → Option A → Option A
or_else none a = a
or_else (some b) a = some b

unfoldable pub updated : UpdateParams → Execution → Execution
updated p e = record e {
  status = coalesce p.status e.status;
  message = or_else p.message e.message;
  path = or_else p.path e.path;
  finished_at = or_else p.finished_at e.finished_at;
  deleted_at = or_else p.deleted_at e.deleted_at;
  file_size = or_else p.file_size e.file_size;
  log_tail = or_else p.log_tail e.log_tail;
}

-- ExecutionsServiceUpdateExecution
unfoldable pub update_execution : Db → UpdateParams → Db
update_execution db p = record db {
  executions = update_where (λ e. e.id == p.id) (updated p) db.executions;
}

-- ExecutionsServiceSoftDeleteExecution
unfoldable pub soft_delete_statement : Db → ℕ → Db
soft_delete_statement db id = record db {
  executions =
      update_where (λ e. e.id == id) (λ e. record e { status = deleted; deleted_at = some db.now })
        db.executions;
}
