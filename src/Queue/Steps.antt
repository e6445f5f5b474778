-- ===== src/Queue/Steps.antt =====
-- The statements of the queue as steps of processes, and what a sound table is.
use pgwarden.Prelude.{ℕ, ◌+◌, ◌<◌, ◌≡◌, Bool, Option, none, some, List, Bytes, All, keep}
use pgwarden.Queue.{
  Status, success, failed, Execution, Db, DbError, enqueue_execution, claim_execution,
  heartbeat_execution, reap_stale_executions, mark_stale_executions, UpdateParams, update_execution,
  soft_delete_statement,
}
use pgwarden.Queue.Rows.{OneActive, DistinctIds}

-- What a worker writes of its job: progress, or the end of it.
abbrev pub EndsOrKeeps : Option Status → Type 0
EndsOrKeeps none = Unit
EndsOrKeeps (some success) = Unit
EndsOrKeeps (some failed) = Unit
EndsOrKeeps (some _) = ⊥

-- One statement of one process. `enqueue` is the whole of EnqueueExecution, whose first statement
-- read some other state `seen`; `delete` is the purge and the deletion of a backup; `backups` stands
-- for any change of the other tables.
pub data Step (db : Db) : Db → Type 0 where
  enqueue :
      (f g : Option DbError) (seen : Db) (backup : ℕ)
      → Step db (enqueue_execution f g seen db backup).1
  claim :
      (f : Option DbError) (worker : Bytes) (tags : List Bytes) (locked : ℕ → Bool)
      → Step db (claim_execution f db worker tags locked).1
  heartbeat : (id : ℕ) → Step db (heartbeat_execution db id)
  reap : (stale : ℕ) → Step db (reap_stale_executions db stale)
  mark_stale : Step db (mark_stale_executions db)
  update :
      (p : UpdateParams)
      → EndsOrKeeps p.status
      → p.deleted_at ≡ none
      → Step db (update_execution db p)
  soft_delete : (id : ℕ) → Step db (soft_delete_statement db id)
  delete : (p : Execution → Bool) → Step db (record db { executions = keep p db.executions })
  backups : (tag : ℕ → Option Bytes) → Step db (record db { backup_tag = tag })
  tick : (d : ℕ) → Step db (record db { now = db.now + d })

pub data Steps (db : Db) : Db → Type 0 where
  here : Steps db db
  next : {a b : Db} → Steps db a → Step a b → Steps db b

-- Identifiers are distinct and were given out, and every backup has one active row at most.
pub record IsSound (db : Db) : Type 0 where
  pub one_active : OneActive db.executions
  pub distinct : DistinctIds db.executions
  pub given : All (λ e. e.id < db.next_id) db.executions
