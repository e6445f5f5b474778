-- ===== src/Worker.antt =====
-- internal/service/worker/worker.go: a worker claims queued executions and runs them, one after the other.
-- What the other systems answer while a job runs depends on the job. The heartbeats of a running job and
-- the restorations, which a slot claims when no execution is queued, are left out here: neither changes
-- what stands in the queue of executions.
pub mod Rounds
pub mod Live
pub mod Late
mod Tests
use pgwarden.Prelude.{
  ℕ, zero, suc, Bool, true, false, Option, none, some, Result, ok, err, List, [], ◌∷◌, Bytes, codes,
  is_empty, ltb, if◌then◌else◌,
}
use pgwarden.Queue.{Execution, Db, DbError, UpdateParams, claim_execution, update_execution}
use pgwarden.Run.{Calls, RunEnv, run_claimed_execution}

pub record Worker : Type 0 where
  pub name : Bytes
  pub concurrency : ℕ
  pub tags : List Bytes

-- New
pub new_worker : Bytes → ℕ → List Bytes → Worker
new_worker name concurrency tags = record {
  name = name;
  concurrency = if ltb concurrency 1 then 1 else concurrency;
  tags = if is_empty tags then codes "default" ∷ [] else tags;
}

-- The statements of a run, one after the other.
pub apply_all : List UpdateParams → Db → Db
apply_all [] db = db
apply_all (u ∷ us) db = apply_all us (update_execution db u)

pub run_claim : (ℕ → Calls) → RunEnv → Result DbError (Option Execution) × Db → Bool × Db
run_claim calls env (ok (some e), db) =
    (true, apply_all (run_claimed_execution (calls e.id) env e.id).0 db)
run_claim calls env (ok none, db) = (false, db)
run_claim calls env (err e, db) = (false, db)

-- claimAndRunExecution
pub claim_and_run_execution :
    (ℕ → Calls) → RunEnv → Worker → Option DbError → (ℕ → Bool) → Db → Bool × Db
claim_and_run_execution calls env w fault locked db =
    run_claim calls env (claim_execution fault db w.name w.tags locked)

-- This many rounds of claimLoop, in which nobody else holds a row and the database answers.
pub claim_loop : (ℕ → Calls) → RunEnv → Worker → ℕ → Db → Db
claim_loop calls env w zero db = db
claim_loop calls env w (suc n) db =
    claim_loop calls env w n (claim_and_run_execution calls env w none (λ id. false) db).1
