-- ===== src/Restore/Settles.antt =====
-- What a job leaves in its row of the table.
use pgwarden.Prelude.{
  ℕ, ◌≡◌, refl, true, Option, none, some, Result, ok, err, List, [], ◌∷◌, ◌++◌, Bytes, text_eq, inl,
  inr, Bool-cases,
}
use mathlib.Core.List.{append_assoc}
use pgwarden.Restore
use pgwarden.Restore.{
  Status, UpdateParams, RunRestorationParams, Action, update, psql_command, psql_script,
  restore_zip, psql_test, Calls, Traced, CreateError,
}
use pgwarden.Restore.Checks.{is_some}
use pgwarden.Restore.Job.{
  Claim, QueuedRestoreParams, flush_now, settle, settled, run_on, run_restoration,
  run_fix_owner_task, run_queued, run_claimed_restoration, queued_params, restoration_row,
  restore_op_fix_owner, fail_update, done_update, claim_params,
}

-- The part of a row of `restorations` that a job writes.
pub record Restoration : Type 0 where
  pub id : ℕ
  pub status : Status
  pub message : Option Bytes
  pub log_tail : Option Bytes
  pub finished_at : Option ℕ

abbrev coalesce {ℓ} : {A : Type ℓ} → Option A → A → A
coalesce none a = a
coalesce (some b) a = b

abbrev or_else {ℓ} : {A : Type ℓ} → Option A → Option A → Option A
or_else none a = a
or_else (some b) a = some b

-- RestorationsServiceUpdateRestoration, on the row that it is for
pub updated : UpdateParams → Restoration → Restoration
updated p e = record e {
  status = coalesce p.status e.status;
  message = or_else p.message e.message;
  log_tail = or_else p.log_tail e.log_tail;
  finished_at = or_else p.finished_at e.finished_at;
}

-- An update changes the row only if the database executes it.
abbrev if_written : Option Bytes → UpdateParams → Restoration → Restoration
if_written none u e = updated u e
if_written (some error) u e = e

-- The row after the updates of a trace.
pub after_trace : Calls → List Action → Restoration → Restoration
after_trace calls [] e = e
after_trace calls (update u ∷ t) e =
    after_trace calls t (if_written (calls.update_restoration u) u e)
after_trace calls (psql_command v conn sql ∷ t) e = after_trace calls t e
after_trace calls (psql_script v conn owner database ∷ t) e = after_trace calls t e
after_trace calls (restore_zip v conn file ∷ t) e = after_trace calls t e
after_trace calls (psql_test v conn ∷ t) e = after_trace calls t e

-- The updates that end a restoration are executed.
abbrev pub EndsAreWritten : Calls → Type 0
EndsAreWritten calls =
    (u : UpdateParams) → is_some u.status ≡ true → calls.update_restoration u ≡ none

after_trace-last :
    (calls : Calls) (t : List Action) (u : UpdateParams) (e : Restoration)
    → calls.update_restoration u ≡ none
    → after_trace calls (t ++ update u ∷ []) e ≡ updated u (after_trace calls t e)
unfolding after_trace
after_trace-last calls [] u e h = rw h
after_trace-last calls (update v ∷ t) u e h =
    after_trace-last calls t u (if_written (calls.update_restoration v) v e) h
after_trace-last calls (psql_command v conn sql ∷ t) u e h = after_trace-last calls t u e h
after_trace-last calls (psql_script v conn owner database ∷ t) u e h =
    after_trace-last calls t u e h
after_trace-last calls (restore_zip v conn file ∷ t) u e h = after_trace-last calls t u e h
after_trace-last calls (psql_test v conn ∷ t) u e h = after_trace-last calls t u e h

-- What the row of a finished job says, and what the job returned.
pub IsSettled : Restoration → Option Bytes → ℕ → Type 0
IsSettled e none now = (e.status ≡ Restore.Status.success) × (e.finished_at ≡ some now)
IsSettled e (some error) now =
    (e.status ≡ Restore.Status.failed) × ((e.message ≡ some error) × (e.finished_at ≡ some now))

settle-IsSettled :
    (calls : Calls) (id : ℕ) (message : Bytes) (last : Option Bytes → Option Bytes)
    (trace : List Action) (r : Result Bytes (Unit {0})) (e : Restoration)
    → last none ≡ none
    → EndsAreWritten calls
    → let ran = settle calls id message last trace r in
      IsSettled (after_trace calls ran.trace e) ran.error calls.now
unfolding settle IsSettled updated done_update fail_update
settle-IsSettled calls id message last trace (ok u) e h written =
    let end = done_update calls id message in
    rw
      (
        ← append_assoc trace (flush_now id calls.log_lines) (update end ∷ []),
        after_trace-last calls (trace ++ flush_now id calls.log_lines) end e (written end refl),
        written end refl,
        h,
      )
      (refl, refl)
settle-IsSettled calls id message last trace (err error) e h written =
    let end = fail_update calls id error in
    rw
      (
        ← append_assoc trace (flush_now id calls.log_lines) (update end ∷ []),
        after_trace-last calls (trace ++ flush_now id calls.log_lines) end e (written end refl),
      )
      (refl, (refl, refl))

run_queued-IsSettled :
    (calls : Calls) (claim : Claim) (r : Result Bytes QueuedRestoreParams) (e : Restoration)
    → EndsAreWritten calls
    → let ran = run_queued calls claim r in
      IsSettled (after_trace calls ran.trace e) ran.error calls.now
unfolding run_queued run_restoration run_on restoration_row run_fix_owner_task settled claim_params
    IsSettled after_trace updated fail_update
run_queued-IsSettled calls claim (err error) e written =
    rw (written (fail_update calls claim.id error) refl) (refl, (refl, refl))
run_queued-IsSettled calls claim (ok queued) e written =
    elim (Bool-cases (text_eq queued.op restore_op_fix_owner)) [
      | inl fix ↦ rw fix (settle-IsSettled calls claim.id _ _ _ _ e refl written)
      | inr whole ↦ rw whole (settle-IsSettled calls claim.id _ _ _ _ e refl written)
    ]

-- Whatever the claimed row says and the other systems answer, the job of a claimed restoration, be it a
-- restore or a change of owner, ends with the row saying what the function returns: success if
-- it returns no error, else failed with the error as the message, and finished either way. This holds if
-- the updates that set the row's status, to success or to failed, are executed; any other update may
-- fail.
pub run_claimed_settles :
    (unmarshal : Bytes → Result Bytes QueuedRestoreParams) (calls : Calls) (claim : Claim)
    (e : Restoration)
    → EndsAreWritten calls
    → let ran = run_claimed_restoration unmarshal calls claim in
      IsSettled (after_trace calls ran.trace e) ran.error calls.now
unfolding run_claimed_restoration
run_claimed_settles unmarshal calls claim e written =
    run_queued-IsSettled calls claim (queued_params unmarshal claim.params) e written
