-- ===== src/Run/Settles.antt =====
-- What a run leaves in its row.
use pgwarden.Prelude.{
  ℕ, ◌≤◌, ◌≡◌, refl, ap, true, false, Option, none, some, Result, ok_inj, ok, err, ◌>>=◌, List, [],
  ◌∷◌, ◌++◌, ◌∙◌, keep-append, Bytes, codes, inl, inr, Bool-cases, ok≢err, bind-ok, if◌then◌else◌,
  arith,
}
use pgwarden.Dump.{DumpParams, PgVersion, parse_version, PrepareError, unsupported, failed}
use pgwarden.Queue
use pgwarden.Queue.{is_none, Execution, UpdateParams, Status, updated}
use pgwarden.Run.{
  BackupData, RunEnv, Calls, DumpKind, parallel, classic, Failure, prepare_run, do_upload,
  file_path, choose_dump, after_prepare, parallel_dump_usable, resolve_parallel_dump_jobs,
  progress_of, flush_now, update_exec, final_update, fail_update, done_update, returned,
  run_claimed_execution, uploaded, row_of, unless, known_version, dump_params,
}

-- The row after the updates of a run, first to last.
unfoldable pub after_updates : List UpdateParams → Execution → Execution
after_updates [] e = e
after_updates (u ∷ us) e = after_updates us (updated u e)

after_updates-last :
    (us : List UpdateParams) (u : UpdateParams) (e : Execution)
    → after_updates (us ++ u ∷ []) e ≡ updated u (after_updates us e)
unfolding after_updates
after_updates-last [] u e = refl
after_updates-last (v ∷ us) u e = after_updates-last us u (updated v e)

-- What the row of a finished run says, and what the run returned.
unfoldable pub IsSettled : Execution → Option Bytes → ℕ → Type 0
IsSettled e none now =
    (e.status ≡ Queue.Status.success)
    × ((e.message ≡ some (codes "Backup created successfully"))
        × ((e.finished_at ≡ some now)
            × (((p : Bytes) × (e.path ≡ some p)) × ((n : ℕ) × (e.file_size ≡ some n)))))
IsSettled e (some error) now =
    (e.status ≡ Queue.Status.failed) × ((e.message ≡ some error) × (e.finished_at ≡ some now))

final-IsSettled :
    (id now : ℕ) (e : Execution) (r : Result Failure (Bytes × ℕ))
    → IsSettled (updated (final_update id now r) e) (returned r) now
unfolding IsSettled final_update done_update fail_update updated
final-IsSettled id now e (ok (p, n)) = (refl, (refl, (refl, ((p, refl), (n, refl)))))
final-IsSettled id now e (err f) = (refl, (refl, refl))

-- The updates that end an execution are executed.
abbrev pub EndsAreWritten : Calls → Type 0
EndsAreWritten calls =
    (u : UpdateParams) → is_none u.status ≡ false → calls.update_execution u ≡ none

final-status :
    (id now : ℕ) (r : Result Failure (Bytes × ℕ)) → is_none (final_update id now r).status ≡ false
unfolding final_update done_update fail_update
final-status id now (ok done) = refl
final-status id now (err f) = refl

-- The last update of a run is executed.
exec-last :
    (calls : Calls) (us : List UpdateParams) (u : UpdateParams)
    → calls.update_execution u ≡ none
    → update_exec calls (us ++ u ∷ []) ≡ update_exec calls us ++ u ∷ []
unfolding update_exec
exec-last calls us u h =
    keep-append (λ x. is_none (calls.update_execution x)) us (u ∷ []) ∙ rw h refl

-- If the update of the row's status is executed, then, whatever the other systems answer and whichever other
-- update fails, a run of a claimed execution ends with the row saying what the function returns: success,
-- with a path and a size, if it returns no error; else failed, with the error as the message. Either way it is
-- finished.
pub run_settles :
    (calls : Calls) (env : RunEnv) (e : Execution)
    → EndsAreWritten calls
    → let (updates, error) = run_claimed_execution calls env e.id in
      IsSettled (after_updates updates e) error calls.finished_at
unfolding run_claimed_execution
run_settles calls env e written =
    let prepared = prepare_run calls env in
    let result = prepared >>= do_upload calls in
    let before = progress_of calls e.id prepared ++ flush_now e.id calls.log_lines in
    let last = final_update e.id calls.finished_at result in
    rw
      (
        exec-last calls before last (written last (final-status e.id calls.finished_at result)),
        after_updates-last (update_exec calls before) last e,
      )
      (final-IsSettled e.id calls.finished_at (after_updates (update_exec calls before) e) result)

-- The data for which a run succeeds.
pub IsReady : Calls → RunEnv → BackupData → Type 0
IsReady calls env back =
    (calls.get_backup_data ≡ ok back)
    × (((if back.is_local then none else calls.s3_test back) ≡ none)
        × (((v : PgVersion) × ((parse_version back.pg_version ≡ some v)
                × (calls.pg_test v back.conn_string ≡ none)))
            × ((kind : DumpKind) × ((choose_dump calls env back ≡ ok kind)
                  × ((size : ℕ) × (calls.upload kind (file_path calls back) ≡ ok size))))))

returned-none :
    (r : Result Failure (Bytes × ℕ)) → returned r ≡ none → (done : Bytes × ℕ) × (r ≡ ok done)
returned-none (ok done) h = (done, refl)
returned-none (err f) h = absurd (cc)

row_of-ok : (r : Result Bytes BackupData) (back : BackupData) → row_of r ≡ ok back → r ≡ ok back
row_of-ok (ok back') back h = ap (λ (b : BackupData). ok b) (ok_inj h)
row_of-ok (err e) back h = absurd (ok≢err h)

unless-ok : (o : Option Bytes) (u : Unit {0}) → unless o ≡ ok u → o ≡ none
unless-ok none u h = refl
unless-ok (some e) u h = absurd (ok≢err h)

known_version-ok :
    (s : Bytes) (o : Option PgVersion) (v : PgVersion) → known_version s o ≡ ok v → o ≡ some v
known_version-ok s none v h = absurd (ok≢err h)
known_version-ok s (some w) v h = ap (λ (x : PgVersion). some x) (ok_inj h)

uploaded-ok :
    (path : Bytes) (r : Result Bytes ℕ) (done : Bytes × ℕ)
    → uploaded path r ≡ ok done
    → (size : ℕ) × (r ≡ ok size)
uploaded-ok path (ok size) done h = (size, refl)
uploaded-ok path (err e) done h = absurd (ok≢err h)

prepare_run-ok :
    (calls : Calls) (env : RunEnv) (back : BackupData) (kind : DumpKind)
    → prepare_run calls env ≡ ok (back, kind)
    → (calls.get_backup_data ≡ ok back)
      × (((if back.is_local then none else calls.s3_test back) ≡ none)
          × (((v : PgVersion) × ((parse_version back.pg_version ≡ some v)
                  × (calls.pg_test v back.conn_string ≡ none)))
              × (choose_dump calls env back ≡ ok kind)))
unfolding prepare_run
prepare_run-ok calls env back kind h =
    let (b, (read, h1)) = bind-ok (row_of calls.get_backup_data) _ (back, kind) h in
    let (u, (s3, h2)) =
      bind-ok (unless (if b.is_local then none else calls.s3_test b)) _ (back, kind) h1 in
    let (v, (version, h3)) =
      bind-ok (known_version b.pg_version (parse_version b.pg_version)) _ (back, kind) h2 in
    let (w, (pg, h4)) = bind-ok (unless (calls.pg_test v b.conn_string)) _ (back, kind) h3 in
    let (k, (chosen, h5)) = bind-ok (choose_dump calls env b) _ (back, kind) h4 in
    let same_back = ap (λ (x : BackupData × DumpKind). x.0) (ok_inj h5) in
    let same_kind = ap (λ (x : BackupData × DumpKind). x.1) (ok_inj h5) in
    rw (← same_back, ← same_kind)
      (
        row_of-ok calls.get_backup_data b read,
        (
          unless-ok (if b.is_local then none else calls.s3_test b) u s3,
          (
            (
              v,
              (
                known_version-ok b.pg_version (parse_version b.pg_version) v version,
                unless-ok (calls.pg_test v b.conn_string) w pg,
              ),
            ),
            chosen,
          ),
        ),
      )

-- A run reports success only if the backup's data could be read, the object store answered its test
-- (where the backup is not local), the version is one that the program knows, the database answered
-- its test, a dump could be started and the upload of that very dump to the path of the file succeeded.
pub run_success_needs :
    (calls : Calls) (env : RunEnv) (id : ℕ)
    → (run_claimed_execution calls env id).1 ≡ none
    → (back : BackupData) × IsReady calls env back
unfolding run_claimed_execution IsReady do_upload
run_success_needs calls env id h =
    let (done, all_ok) = returned-none (prepare_run calls env >>= do_upload calls) h in
    let (prepared, (prepared_ok, upload_ok)) =
      bind-ok (prepare_run calls env) (do_upload calls) done all_ok in
    let (read, (s3, (pg, chosen))) = prepare_run-ok calls env prepared.0 prepared.1 prepared_ok in
    let (size, sent) =
      uploaded-ok (file_path calls prepared.0)
        (calls.upload prepared.1 (file_path calls prepared.0)) done upload_ok in
    (prepared.0, (read, (s3, (pg, (prepared.1, (chosen, (size, sent)))))))

job_count : DumpKind → ℕ
job_count (parallel jobs p) = jobs
job_count (classic p) = 0

after_prepare-jobs :
    (n jobs : ℕ) (q p : DumpParams) (o : Option PrepareError)
    → after_prepare n q o ≡ ok (parallel jobs p)
    → n ≡ jobs
unfolding after_prepare job_count
after_prepare-jobs n jobs q p none h = ap (λ (k : DumpKind). job_count k) (ok_inj h)
after_prepare-jobs n jobs q p (some unsupported) h = absurd (cc)
after_prepare-jobs n jobs q p (some (failed e)) h = absurd (ok≢err h)

usable-options :
    (back : BackupData)
    → (parallel_dump_usable back).0 ≡ true
    → (back.parallel_dump_enabled ≡ true)
      × ((back.opt_schema_only ≡ false)
          × ((back.opt_data_only ≡ false) × (back.opt_serializable_deferrable ≡ false)))
unfolding parallel_dump_usable
usable-options back h = ground arith

resolve-bounds :
    (env : RunEnv) (n : ℕ)
    → (2 ≤ resolve_parallel_dump_jobs env n) × (resolve_parallel_dump_jobs env n ≤ 16)
unfolding resolve_parallel_dump_jobs
resolve-bounds env n = ground arith

-- The parallel dump runs only where the backup asks for it and neither schema-only, data-only nor
-- serializable-deferrable is set, and then with at least 2 and at most 16 jobs.
parallel_in_range :
    (calls : Calls) (env : RunEnv) (back : BackupData) (jobs : ℕ) (p : DumpParams)
    → choose_dump calls env back ≡ ok (parallel jobs p)
    → (back.parallel_dump_enabled ≡ true)
      × ((back.opt_schema_only ≡ false)
          × ((back.opt_data_only ≡ false)
              × ((back.opt_serializable_deferrable ≡ false) × ((2 ≤ jobs) × (jobs ≤ 16)))))
unfolding choose_dump
parallel_in_range calls env back jobs p h = elim (Bool-cases (parallel_dump_usable back).0) [
  | inl usable ↦
      (let options = usable-options back usable in
        let same =
          after_prepare-jobs (resolve_parallel_dump_jobs env back.parallel_dump_jobs) jobs
            (dump_params env back) p (calls.prepare_parallel_dump back.conn_string)
            (rw usable at h) in
        let bounds = resolve-bounds env back.parallel_dump_jobs in
        (
          options.0,
          (
            options.1.0,
            (
              options.1.1.0,
              (options.1.1.1, (omega (arith, same, bounds), omega (arith, same, bounds))),
            ),
          ),
        ))
  | inr off ↦ absurd (let no = rw off at h in cc)
]
