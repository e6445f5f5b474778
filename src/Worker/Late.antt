-- ===== src/Worker/Late.antt =====
-- A run (RunClaimedExecution) whose execution is deleted while it is busy.
use pgwarden.Prelude.{
  ℕ, ◌≡◌, refl, ap, ◌∙◌, Bool, true, Option, none, some, Result, ok, err, List, [], ◌∷◌, ◌++◌,
  Bytes, All, All-append, All-keep, In, inl, inr, ◌==◌, ==_iff,
}
use pgwarden.Queue.{
  running, success, deleted, Execution, Db, UpdateParams, update_where, updated,
  soft_delete_statement,
}
use pgwarden.Run.{
  BackupData, DumpKind, Failure, Calls, RunEnv, run_claimed_execution, progress_of,
  progress_updates, flush_now, update_exec, final_update, done_update, fail_update, prepare_run,
}
use pgwarden.Run.Settles.{IsSettled, EndsAreWritten, after_updates, run_settles}
use pgwarden.Worker.{apply_all}
use pgwarden.Worker.Rounds.{apply_all-rows, run-ids}

In-updated :
    (p : Execution → Bool) (f : Execution → Execution) (es : List Execution) (e : Execution)
    → In e es
    → p e ≡ true
    → In (f e) (update_where p f es)
unfolding update_where
In-updated p f [] e m h = absurd m
In-updated p f (x ∷ es) e (inl same) h =
    let fits = ap (λ (y : Execution). p y) same ∙ h in
    rw fits (inl (ap (λ (y : Execution). f y) same))
In-updated p f (x ∷ es) e (inr m) h = inr (In-updated p f es e m h)

-- Updates that leave the time of deletion alone.
after_updates-deleted_at :
    (us : List UpdateParams) (e : Execution)
    → All (λ u. u.deleted_at ≡ none) us
    → (after_updates us e).deleted_at ≡ e.deleted_at
unfolding after_updates updated
after_updates-deleted_at [] e h = refl
after_updates-deleted_at (u ∷ us) e h =
    after_updates-deleted_at us (updated u e) h.1 ∙ rw (h.0) refl

after_updates-id : (us : List UpdateParams) (e : Execution) → (after_updates us e).id ≡ e.id
unfolding after_updates updated
after_updates-id [] e = refl
after_updates-id (u ∷ us) e = after_updates-id us (updated u e)

progress-undeleted :
    (i : ℕ) (sizes : List ℕ) → All (λ u. u.deleted_at ≡ none) (progress_updates i sizes)
unfolding progress_updates
progress-undeleted i [] = tt
progress-undeleted i (n ∷ sizes) = (refl, progress-undeleted i sizes)

progress_of-undeleted :
    (calls : Calls) (i : ℕ) (r : Result Failure (BackupData × DumpKind))
    → All (λ u. u.deleted_at ≡ none) (progress_of calls i r)
progress_of-undeleted calls i (ok r) = progress-undeleted i calls.progress
progress_of-undeleted calls i (err f) = tt

flush-undeleted : (i : ℕ) (lines : List Bytes) → All (λ u. u.deleted_at ≡ none) (flush_now i lines)
unfolding flush_now
flush-undeleted i [] = tt
flush-undeleted i (l ∷ lines) = (refl, tt)

final-undeleted :
    (i now : ℕ) (r : Result Failure (Bytes × ℕ)) → (final_update i now r).deleted_at ≡ none
unfolding final_update fail_update done_update
final-undeleted i now (ok d) = refl
final-undeleted i now (err f) = refl

-- No statement of a run touches the time of deletion.
run-undeleted :
    (calls : Calls) (env : RunEnv) (i : ℕ)
    → All (λ u. u.deleted_at ≡ none) (run_claimed_execution calls env i).0
unfolding run_claimed_execution update_exec
run-undeleted calls env i =
    All-keep _ _
      ((progress_of calls i (prepare_run calls env) ++ flush_now i calls.log_lines) ++ _ ∷ [])
      (All-append _ (progress_of calls i (prepare_run calls env) ++ flush_now i calls.log_lines) _
        (All-append _ (progress_of calls i (prepare_run calls env)) _
          (progress_of-undeleted calls i (prepare_run calls env))
          (flush-undeleted i calls.log_lines))
        (final-undeleted i calls.finished_at _, tt))

settled-success :
    (e : Execution) (o : Option Bytes) (now : ℕ) → o ≡ none → IsSettled e o now → e.status ≡ success
unfolding IsSettled
settled-success e none now h k = k.0
settled-success e (some x) now h k = absurd (cc)

-- An execution that is running and is deleted before the statements of its run comes back: if the run
-- ends well and the updates of the status are executed, those statements leave a row that is a success and
-- carries the time of its deletion.
pub deleted_comes_back :
    (calls : Calls) (env : RunEnv) (db : Db) (e : Execution)
    → EndsAreWritten calls
    → In e db.executions
    → e.status ≡ running
    → (run_claimed_execution calls env e.id).1 ≡ none
    → let after =
        apply_all (run_claimed_execution calls env e.id).0 (soft_delete_statement db e.id) in
      (r : Execution) × (In r after.executions
        × ((r.id ≡ e.id) × ((r.status ≡ success) × (r.deleted_at ≡ some db.now))))
unfolding soft_delete_statement
deleted_comes_back calls env db e written m busy done =
    let us = (run_claimed_execution calls env e.id).0 in
    let gone : Execution = record e { status = deleted; deleted_at = some db.now } in
    let here : In gone (soft_delete_statement db e.id).executions =
      In-updated (λ x. x.id == e.id) (λ x. record x { status = deleted; deleted_at = some db.now })
        db.executions e m ((==_iff e.id e.id).1 refl) in
    (
      after_updates us gone,
      (
        rw (apply_all-rows e.id us (soft_delete_statement db e.id) (run-ids calls env e.id)) (
            In-updated (λ x. x.id == e.id) (after_updates us) _ gone here
              ((==_iff e.id e.id).1 refl)),
        (
          after_updates-id us gone,
          (
            settled-success _ _ _ done (run_settles calls env gone written),
            after_updates-deleted_at us gone (run-undeleted calls env e.id),
          ),
        ),
      ),
    )
