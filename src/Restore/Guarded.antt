-- ===== src/Restore/Guarded.antt =====
-- What a job may do to the target, and when.
use pgwarden.Prelude.{
  ℕ, ◌≡◌, ◌≢◌, refl, subst, Bool, true, false, not, ◌||◌, Option, none, some, Result, ok, err,
  ok_inj, ok≢err, bind-ok, guard, List, [], ◌∷◌, Bytes, codes, text_eq, text_eq_iff, is_empty, inl,
  inr, ◌⊎◌, All, All-All, All-append, Bool-cases,
}
use pgwarden.Go.Strings.{trim_space}
use pgwarden.Dump.{PgVersion}
use pgwarden.Conn.{ConnInfo, with_database}
use pgwarden.Restore.{
  RunRestorationParams, RestoreTargetOptions, Execution, RestoreFile, UpdateParams, Action, update,
  psql_command, psql_script, restore_zip, psql_test, Calls, CreateError, lift, fault, prefixed,
  with_text, act, set_message,
}
use pgwarden.Restore.Admin.{
  prepare_target_database, reassign_database_owner, reassign_script, target_name, droppable, parsed,
  maintenance_database, terminate_sql, drop_sql, create_sql,
}
use pgwarden.Restore.Checks.{
  Source, is_some, conn_string_of, version_of, is_restorable, s3_check, get_execution_restore_file,
  check_restoration, check_fix_owner,
}
use pgwarden.Restore.Job.{
  Claim, QueuedRestoreParams, restore_target, flush_now, settle, settled, run_on, run_restoration,
  run_fix_owner_task, run_queued, run_claimed_restoration, queued_params, restoration_row,
  restore_op_fix_owner,
}
use pgwarden.Restore.Traces.{touches, bind-All}

-- The backup of an execution is there to be restored.
pub IsAccessible : Calls → ℕ → Type 0
IsAccessible calls execution_id =
    ((e : Execution) × ((calls.get_execution execution_id ≡ ok e) × (is_restorable e ≡ true)))
    × ((file : RestoreFile) × ((get_execution_restore_file calls execution_id ≡ ok file)
          × (s3_check calls file ≡ none)))

guard-true : {E : Type 0} (b : Bool) (e : E) (u : Unit {0}) → guard b e ≡ ok u → b ≡ true
guard-true true e u h = refl
guard-true false e u h = absurd (ok≢err h)

fault-none :
    (text : Bytes) (o : Option Bytes) (u : Unit {0}) → prefixed text (fault o) ≡ ok u → o ≡ none
fault-none text none u h = refl
fault-none text (some e) u h = absurd (ok≢err h)

abbrev not_restorable : Bytes
not_restorable = codes "backup execution must be successful"

abbrev s3_text : Bytes
s3_text = codes "backup file not accessible in S3: "

check-IsAccessible :
    (calls : Calls) (p : RunRestorationParams) (src : Source)
    → check_restoration calls p ≡ ok src
    → IsAccessible calls p.execution_id
unfolding check_restoration IsAccessible
check-IsAccessible calls p src h =
    let (u, (given, h1)) =
      bind-ok
        (guard (is_some p.database_id || not (is_empty p.conn_string))
          (codes "database_id or connection_string must be provided"))
        _ src h in
    let (e, (read, h2)) = bind-ok (calls.get_execution p.execution_id) _ src h1 in
    let (v, (good, h3)) = bind-ok (guard (is_restorable e) not_restorable) _ src h2 in
    let (conn, (connected, h4)) =
      bind-ok (conn_string_of calls p.database_id p.conn_string) _ src h3 in
    let (version, (known, h5)) = bind-ok (version_of e.database_pg_version) _ src h4 in
    let (file, (found, h6)) = bind-ok (get_execution_restore_file calls p.execution_id) _ src h5 in
    let (w, (there, h7)) = bind-ok (prefixed s3_text (fault (s3_check calls file))) _ src h6 in
    (
      (e, (read, guard-true (is_restorable e) not_restorable v good)),
      (file, (found, fault-none s3_text (s3_check calls file) w there)),
    )

-- What holds of the actions of a job and of every update holds of all that it does.
module _ {κ} (P : Action → Type κ) (quiet : (u : UpdateParams) → P (update u)) where
  flush-All : (id : ℕ) (lines : List Bytes) → All P (flush_now id lines)
  unfolding flush_now
  flush-All id [] = tt
  flush-All id (l ∷ lines) = (quiet _, tt)

  pub settle-All :
      (calls : Calls) (id : ℕ) (message : Bytes) (last : Option Bytes → Option Bytes)
      (trace : List Action) (r : Result Bytes (Unit {0}))
      → All P trace
      → All P (settle calls id message last trace r).trace
  unfolding settle
  settle-All calls id message last trace (ok u) h =
      All-append P trace _ h (All-append P _ _ (flush-All id calls.log_lines) (quiet _, tt))
  settle-All calls id message last trace (err e) h =
      All-append P trace _ h (All-append P _ _ (flush-All id calls.log_lines) (quiet _, tt))

still : (u : UpdateParams) → touches (update u) ≡ true → ⊥
unfolding touches
still u h = cc

run_on-guarded :
    (calls : Calls) (p : RunRestorationParams) (r : Result CreateError ℕ)
    → All (λ a. touches a ≡ true → IsAccessible calls p.execution_id) (run_on calls p r).trace
unfolding run_on settled
run_on-guarded calls p (err e) = tt
run_on-guarded calls p (ok id) =
    settle-All _ (λ u far. absurd (still u far)) calls id _ _ _ _
      (bind-All _ (lift (check_restoration calls p)) (restore_target calls id p.target) tt
        (λ src checked. All-All _ _ (λ a far. check-IsAccessible calls p src checked)))

-- A restore reaches the target server, be it to drop a database, to create one, to fill it or to change its
-- owner, only if its execution is a success with a path, the file of the backup is known and, where it
-- lies in the object store, the store has answered for it.
pub restore_guarded :
    (calls : Calls) (p : RunRestorationParams)
    → All
        (λ a. touches a ≡ true → IsAccessible calls p.execution_id)
        (run_restoration calls p).trace
unfolding run_restoration
restore_guarded calls p = run_on-guarded calls p (restoration_row calls p p.existing_restoration_id)

-- An action that may lose data of the target.
pub destroys : Action → Bool
destroys (update u) = false
destroys (psql_command v conn sql) = true
destroys (psql_script v conn owner database) = false
destroys (restore_zip v conn file) = true
destroys (psql_test v conn) = false

act-keeps :
    (calls : Calls) (a : Action)
    → destroys a ≡ false
    → All (λ x. destroys x ≡ false) (act calls a).trace
unfolding act
act-keeps calls a h = (h, tt)

reassign-keeps :
    (calls : Calls) (v : PgVersion) (conn owner : Bytes)
    → All (λ x. destroys x ≡ false) (reassign_database_owner calls v conn owner).trace
unfolding reassign_database_owner reassign_script destroys
reassign-keeps calls v conn owner = elim (Bool-cases (is_empty (trim_space owner))) [
  | inl nobody ↦ rw nobody tt
  | inr somebody ↦
      rw somebody (bind-All _ (lift (parsed calls conn)) _ tt (λ info h. act-keeps calls _ refl))
]

fix_owner-keeps :
    (calls : Calls) (claim : Claim) (queued : QueuedRestoreParams)
    → All (λ x. destroys x ≡ false) (run_fix_owner_task calls claim queued).trace
unfolding run_fix_owner_task settled destroys set_message with_text
fix_owner-keeps calls claim queued =
    settle-All _ (λ u. refl) calls claim.id _ _ _ _
      (bind-All _
        (lift (
          check_fix_owner calls claim.database_id claim.conn_string claim.execution_id
            queued.target_owner))
        _ tt
        (λ found h.
          bind-All _ (set_message calls claim.id _) _ (act-keeps calls _ refl)
            (λ u k. reassign-keeps calls found.1 found.0 queued.target_owner)))

-- A claimed change of owner drops, creates and fills no database.
pub fix_owner_keeps_data :
    (unmarshal : Bytes → Result Bytes QueuedRestoreParams) (calls : Calls) (claim : Claim)
    (queued : QueuedRestoreParams)
    → queued_params unmarshal claim.params ≡ ok queued
    → queued.op ≡ restore_op_fix_owner
    → All (λ x. destroys x ≡ false) (run_claimed_restoration unmarshal calls claim).trace
unfolding run_claimed_restoration run_queued
fix_owner_keeps_data unmarshal calls claim queued read fix =
    rw (read, (text_eq_iff queued.op restore_op_fix_owner).1 fix)
      (fix_owner-keeps calls claim queued)

-- A command of PrepareTargetDatabase: it ends the sessions of, drops or creates one database, by a
-- connection to the maintenance database.
pub IsAbout : Calls → PgVersion → ConnInfo → Bytes → Bytes → Action → Type 0
IsAbout calls v info name owner a =
    (a ≡ psql_command v (with_database info maintenance_database) (terminate_sql calls name))
    ⊎ ((a ≡ psql_command v (with_database info maintenance_database) (drop_sql calls name))
        ⊎ (a
            ≡ psql_command v (with_database info maintenance_database)
                (create_sql calls name (trim_space owner))))

-- The same, of a database that has a name and is not the maintenance database.
pub IsPreparation : Calls → PgVersion → RestoreTargetOptions → Action → Type 0
IsPreparation calls v target a =
    (info : ConnInfo) × ((name : Bytes) × ((is_empty name ≡ false)
        × ((name ≢ maintenance_database) × IsAbout calls v info name target.owner a)))

droppable-ok :
    (n name : Bytes)
    → droppable n ≡ ok name
    → (is_empty name ≡ false) × (name ≢ maintenance_database)
unfolding droppable
droppable-ok n name h = elim (Bool-cases (is_empty n)) [
  | inl nameless ↦ absurd (ok≢err (rw nameless at h))
  | inr named ↦ elim (Bool-cases (text_eq n maintenance_database)) [
    | inl own ↦ absurd (ok≢err (rw (named, own) at h))
    | inr other ↦
        let is = ok_inj (rw (named, other) at h) in
        subst (λ (m : Bytes). (is_empty m ≡ false) × (m ≢ maintenance_database)) is
          (named, λ at. absurd (let yes = (text_eq_iff n maintenance_database).1 at in cc))
  ]
]

target_name-ok :
    (given own name : Bytes)
    → target_name given own ≡ ok name
    → (is_empty name ≡ false) × (name ≢ maintenance_database)
unfolding target_name
target_name-ok given own name h = droppable-ok _ name h

-- PrepareTargetDatabase ends the sessions of, drops and creates only a database that has a name and is
-- not the maintenance database, and does so by a connection to the maintenance database.
pub prepare_spares_maintenance :
    (calls : Calls) (v : PgVersion) (conn : Bytes) (target : RestoreTargetOptions)
    → All (IsPreparation calls v target) (prepare_target_database calls v conn target).trace
unfolding prepare_target_database IsPreparation IsAbout with_text act
prepare_spares_maintenance calls v conn target =
    let P : Action → Type 0 = IsPreparation calls v target in
    bind-All P (lift (parsed calls conn)) _ tt λ info read.
      bind-All P (lift (target_name target.database_name info.database)) _ tt λ name checked.
        let (named, other) = target_name-ok target.database_name info.database name checked in
        bind-All P (with_text (codes "terminate connections: ") (act calls _)) _
          ((info, (name, (named, (other, inl refl)))), tt)
          λ u h.
            bind-All P (with_text (codes "drop database: ") (act calls _)) _
              ((info, (name, (named, (other, inr (inl refl))))), tt)
              λ w k. ((info, (name, (named, (other, inr (inr refl))))), tt)
