-- ===== src/Worker/Rounds.antt =====
-- What one round of a worker does to the table.
use pgwarden.Prelude.{
  ℕ, ◌≡◌, refl, sym, ap, ◌∙◌, Bool, true, false, none, some, Result, ok, err, List, [], ◌∷◌, Bytes,
  All, All-append, All-keep, ◌++◌, inl, inr, Bool-cases, ◌==◌,
}
use pgwarden.Queue.{
  Execution, Db, UpdateParams, claimable, oldest, claimed, claim_row, claim_statement,
  claim_execution, update_where, updated, update_execution,
}
use pgwarden.Run.{
  Calls, RunEnv, Failure, run_claimed_execution, progress_of, progress_updates, flush_now,
  update_exec, BackupData, DumpKind, final_update, fail_update, done_update, prepare_run,
}
use pgwarden.Run.Settles.{after_updates}
use pgwarden.Worker.{Worker, apply_all, run_claim, claim_and_run_execution}

-- Two updates of the same rows are one.
update_where-fuse :
    (i : ℕ) (f g h : Execution → Execution) (es : List Execution)
    → ((e : Execution) → (f e).id ≡ e.id)
    → ((e : Execution) → h e ≡ g (f e))
    → update_where (λ e. e.id == i) g (update_where (λ e. e.id == i) f es)
      ≡ update_where (λ e. e.id == i) h es
unfolding update_where
update_where-fuse i f g h [] same both = refl
update_where-fuse i f g h (e ∷ es) same both = elim (Bool-cases (e.id == i)) [
  | inl fits ↦
      (let still = ap (λ (n : ℕ). n == i) (same e) ∙ fits in
        rw (fits, still, both e, update_where-fuse i f g h es same both))
  | inr other ↦ rw (other, other, update_where-fuse i f g h es same both)
]

update_where-same :
    (p : Execution → Bool) (f : Execution → Execution) (es : List Execution)
    → ((e : Execution) → f e ≡ e)
    → update_where p f es ≡ es
unfolding update_where
update_where-same p f [] same = refl
update_where-same p f (e ∷ es) same = elim (Bool-cases (p e)) [
  | inl fits ↦ rw (fits, same e, update_where-same p f es same)
  | inr other ↦ rw (other, update_where-same p f es same)
]

-- The statements of a run, all of which are about its row.
pub apply_all-rows :
    (i : ℕ) (us : List UpdateParams) (db : Db)
    → All (λ u. u.id ≡ i) us
    → apply_all us db
      ≡ record db { executions = update_where (λ e. e.id == i) (after_updates us) db.executions }
unfolding apply_all update_execution after_updates updated
apply_all-rows i [] db h =
    ap (λ (es : List Execution). record db { executions = es })
      (sym (update_where-same _ (after_updates []) db.executions (λ e. refl)))
apply_all-rows i (u ∷ us) db h =
    apply_all-rows i us (update_execution db u) h.1
    ∙ ap (λ (es : List Execution). record db { executions = es })
        (rw (h.0) (
          update_where-fuse i (updated u) (after_updates us) (after_updates (u ∷ us)) db.executions
            (λ e. refl) (λ e. refl)))

progress-ids : (i : ℕ) (sizes : List ℕ) → All (λ u. u.id ≡ i) (progress_updates i sizes)
unfolding progress_updates
progress-ids i [] = tt
progress-ids i (n ∷ sizes) = (refl, progress-ids i sizes)

progress_of-ids :
    (calls : Calls) (i : ℕ) (r : Result Failure (BackupData × DumpKind))
    → All (λ u. u.id ≡ i) (progress_of calls i r)
progress_of-ids calls i (ok r) = progress-ids i calls.progress
progress_of-ids calls i (err f) = tt

flush-ids : (i : ℕ) (lines : List Bytes) → All (λ u. u.id ≡ i) (flush_now i lines)
unfolding flush_now
flush-ids i [] = tt
flush-ids i (l ∷ lines) = (refl, tt)

final-id : (i now : ℕ) (r : Result Failure (Bytes × ℕ)) → (final_update i now r).id ≡ i
unfolding final_update fail_update done_update
final-id i now (ok d) = refl
final-id i now (err f) = refl

-- Every statement of a run is about its row.
pub run-ids :
    (calls : Calls) (env : RunEnv) (i : ℕ)
    → All (λ u. u.id ≡ i) (run_claimed_execution calls env i).0
unfolding run_claimed_execution update_exec
run-ids calls env i =
    All-keep _ _
      ((progress_of calls i (prepare_run calls env) ++ flush_now i calls.log_lines) ++ _ ∷ [])
      (All-append _ (progress_of calls i (prepare_run calls env) ++ flush_now i calls.log_lines) _
        (All-append _ (progress_of calls i (prepare_run calls env)) _
          (progress_of-ids calls i (prepare_run calls env)) (flush-ids i calls.log_lines))
        (final-id i calls.finished_at _, tt))

-- A round that finds a row to claim: the row, and what becomes of it.
unfoldable pub worked : (ℕ → Calls) → RunEnv → Worker → Db → ℕ → Execution → Execution
worked calls env w db i e =
    after_updates (run_claimed_execution (calls i) env i).0 (claimed db w.name e)

pub round-rows :
    (calls : ℕ → Calls) (env : RunEnv) (w : Worker) (db : Db) (locked : ℕ → Bool) (r : Execution)
    → oldest (claimable db w.tags locked) db.executions ≡ some r
    → claim_and_run_execution calls env w none locked db ≡ (
      true,
      record db {
        executions = update_where (λ e. e.id == r.id) (worked calls env w db r.id) db.executions;
      },
    )
unfolding claim_and_run_execution run_claim claim_execution claim_statement claim_row worked
round-rows calls env w db locked r found = rw (found) (
    ap (λ (d : Db). (true, d))
      (apply_all-rows r.id (run_claimed_execution (calls r.id) env r.id).0 _
          (run-ids (calls r.id) env r.id)
        ∙ ap (λ (es : List Execution). record db { executions = es })
            (update_where-fuse r.id (claimed db w.name)
              (after_updates (run_claimed_execution (calls r.id) env r.id).0)
              (worked calls env w db r.id) db.executions (λ e. refl) (λ e. refl))))

-- A round that finds none.
pub round-none :
    (calls : ℕ → Calls) (env : RunEnv) (w : Worker) (db : Db) (locked : ℕ → Bool)
    → oldest (claimable db w.tags locked) db.executions ≡ none
    → claim_and_run_execution calls env w none locked db ≡ (false, db)
unfolding claim_and_run_execution run_claim claim_execution claim_statement claim_row
round-none calls env w db locked empty = rw empty refl
