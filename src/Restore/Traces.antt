-- ===== src/Restore/Traces.antt =====
-- How the traces of a job's parts are put together, and that a job stops at its first failure.
use pgwarden.Prelude.{
  ℕ, ◌≡◌, refl, sym, subst, Bool, true, false, Option, none, some, Result, ok, err, ok≢err, List,
  [], ◌∷◌, ◌++◌, Bytes, All, All-append, keep, keep-append, ◌⊎◌, inl, inr, Bool-cases, Result-cases,
  is_empty, text_eq,
}
use pgwarden.Go.Strings.{trim_space}
use pgwarden.Dump.{PgVersion}
use mathlib.Core.List.{append-nil}
use pgwarden.Restore.{
  UpdateParams, RunRestorationParams, CreateError, RestoreTargetOptions, Action, update,
  psql_command, psql_script, restore_zip, psql_test, Calls, answer, Traced, go_on, ◌>>=◌, ◌>>◌,
  lift, fault, prefixed, with_text, act, set_message,
}
use pgwarden.Restore.Admin.{
  prepare_target_database, reassign_database_owner, reassign_script, parsed, target_name,
}
use pgwarden.Restore.Checks.{Source, check_restoration, check_fix_owner}
use pgwarden.Restore.Job.{
  Claim, QueuedRestoreParams, prepare_target, hand_over, restore_target, flush_now, settle, settled,
  run_on, run_restoration, run_fix_owner_task, run_queued, run_claimed_restoration, queued_params,
  restore_op_fix_owner,
}

-- An action that reaches the target server.
unfoldable pub touches : Action → Bool
touches (update u) = false
touches (psql_command v conn sql) = true
touches (psql_script v conn owner database) = true
touches (restore_zip v conn file) = true
touches (psql_test v conn) = true

-- What holds of the actions of two parts holds of their sequence.
pub bind-All {κ} :
    {A B : Type 0} (P : Action → Type κ) (m : Traced A) (f : A → Traced B)
    → All P m.trace
    → ((a : A) → m.result ≡ ok a → All P (f a).trace)
    → All P (m >>= f).trace
unfolding pgwarden.Restore.◌>>=◌ go_on
bind-All P m f h k = elim (Result-cases m.result) [
  | inl (a, good) ↦ rw good (All-append P m.trace (f a).trace h (k a good))
  | inr (e, bad) ↦ rw bad h
]

module _ (calls : Calls) where
  -- Every action but the last one has succeeded.
  abbrev pub StopsAtFailure : List Action → Type 0
  StopsAtFailure [] = Unit
  StopsAtFailure (a ∷ acts) = (acts ≡ []) ⊎ ((answer calls a ≡ none) × StopsAtFailure acts)

  -- A part that goes on only while its actions succeed, and returns a value only if all did.
  pub record IsCareful {A : Type 0} (m : Traced A) : Type 0 where
    pub stops : StopsAtFailure m.trace
    pub clean : (a : A) → m.result ≡ ok a → All (λ x. answer calls x ≡ none) m.trace

  stops-append :
      (xs ys : List Action)
      → All (λ x. answer calls x ≡ none) xs
      → StopsAtFailure ys
      → StopsAtFailure (xs ++ ys)
  stops-append [] ys h k = k
  stops-append (x ∷ xs) ys h k = inr (h.0, stops-append xs ys h.1 k)

  stops-keep : (acts : List Action) → StopsAtFailure acts → StopsAtFailure (keep touches acts)
  stops-keep [] h = tt
  stops-keep (a ∷ acts) (inl last) = elim (Bool-cases (touches a)) [
    | inl far ↦ rw (far, last) (inl refl)
    | inr near ↦ rw (near, last) tt
  ]
  stops-keep (a ∷ acts) (inr (good, rest)) = elim (Bool-cases (touches a)) [
    | inl far ↦ rw far (inr (good, stops-keep acts rest))
    | inr near ↦ rw near (stops-keep acts rest)
  ]

  bind-IsCareful :
      {A B : Type 0} (m : Traced A) (f : A → Traced B)
      → IsCareful m
      → ((a : A) → IsCareful (f a))
      → IsCareful (m >>= f)
  unfolding pgwarden.Restore.◌>>=◌ go_on
  bind-IsCareful m f h k = elim (Result-cases m.result) [
    | inl (a, good) ↦ rw good (record {
      stops = stops-append m.trace (f a).trace (h.clean a good) (k a).stops;
      clean = λ b done. All-append _ m.trace (f a).trace (h.clean a good) ((k a).clean b done);
    })
    | inr (e, bad) ↦ rw bad (record { stops = h.stops; clean = λ b done. absurd (ok≢err done) })
  ]

  lift-IsCareful : {A : Type 0} (r : Result Bytes A) → IsCareful (lift r)
  lift-IsCareful r = record { stops = tt; clean = λ a h. tt }

  fault-ok : (o : Option Bytes) (u : Unit {0}) → fault o ≡ ok u → o ≡ none
  fault-ok none u h = refl
  fault-ok (some e) u h = absurd (ok≢err h)

  act-IsCareful : (a : Action) → IsCareful (act calls a)
  unfolding act
  act-IsCareful a = record { stops = inl refl; clean = λ u h. (fault-ok (answer calls a) u h, tt) }

  prefixed-ok :
      {A : Type 0} (text : Bytes) (r : Result Bytes A) (a : A) → prefixed text r ≡ ok a → r ≡ ok a
  prefixed-ok text (ok b) a h = h
  prefixed-ok text (err e) a h = absurd (ok≢err h)

  with_text-IsCareful :
      {A : Type 0} (text : Bytes) (m : Traced A) → IsCareful m → IsCareful (with_text text m)
  unfolding with_text
  with_text-IsCareful text m h = record {
    stops = h.stops;
    clean = λ a done. h.clean a (prefixed-ok text m.result a done);
  }

  set_message-IsCareful : (id : ℕ) (message : Bytes) → IsCareful (set_message calls id message)
  unfolding set_message
  set_message-IsCareful id message = act-IsCareful _

  prepare-IsCareful :
      (v : PgVersion) (conn : Bytes) (target : RestoreTargetOptions)
      → IsCareful (prepare_target_database calls v conn target)
  unfolding prepare_target_database
  prepare-IsCareful v conn target =
      bind-IsCareful (lift (parsed calls conn)) _ (lift-IsCareful _) λ info.
        bind-IsCareful (lift (target_name target.database_name info.database)) _ (lift-IsCareful _)
          λ name.
            bind-IsCareful (with_text _ (act calls _)) _ (with_text-IsCareful _ _ (act-IsCareful _))
              λ u.
                bind-IsCareful (with_text _ (act calls _)) _
                  (with_text-IsCareful _ _ (act-IsCareful _))
                  λ w. with_text-IsCareful _ _ (act-IsCareful _)

  reassign-IsCareful :
      (v : PgVersion) (conn owner : Bytes) → IsCareful (reassign_database_owner calls v conn owner)
  unfolding reassign_database_owner reassign_script
  reassign-IsCareful v conn owner = elim (Bool-cases (is_empty (trim_space owner))) [
    | inl nobody ↦ rw nobody (lift-IsCareful _)
    | inr some_owner ↦
        rw some_owner
          (bind-IsCareful (lift (parsed calls conn)) _ (lift-IsCareful _) λ info. act-IsCareful _)
  ]

  prepare_target-IsCareful :
      (id : ℕ) (src : Source) (target : Option RestoreTargetOptions)
      → IsCareful (prepare_target calls id src target)
  unfolding prepare_target
  prepare_target-IsCareful id src none = lift-IsCareful _
  prepare_target-IsCareful id src (some target) =
      bind-IsCareful (set_message calls id _) _ (set_message-IsCareful id _)
        λ u. prepare-IsCareful src.version src.conn_string target

  hand_over-IsCareful :
      (id : ℕ) (src : Source) (target : Option RestoreTargetOptions)
      → IsCareful (hand_over calls id src target)
  unfolding hand_over
  hand_over-IsCareful id src none = lift-IsCareful _
  hand_over-IsCareful id src (some target) = elim (Bool-cases (is_empty target.owner)) [
    | inl nobody ↦ rw nobody (lift-IsCareful _)
    | inr owner ↦ rw owner (
        bind-IsCareful (set_message calls id _) _ (set_message-IsCareful id _)
          λ u. reassign-IsCareful src.version src.conn_string target.owner)
  ]

  restore_target-IsCareful :
      (id : ℕ) (target : Option RestoreTargetOptions) (src : Source)
      → IsCareful (restore_target calls id target src)
  unfolding restore_target
  restore_target-IsCareful id target src =
      bind-IsCareful (prepare_target calls id src target) _ (prepare_target-IsCareful id src target)
        λ u.
          bind-IsCareful (act calls (psql_test src.version src.conn_string)) _ (act-IsCareful _)
            λ v. bind-IsCareful (set_message calls id _) _ (set_message-IsCareful id _) λ w.
              bind-IsCareful (act calls _) _ (act-IsCareful _)
                λ x. hand_over-IsCareful id src target

  -- The updates at the end of a job do not reach the target.
  keep-flush_now : (id : ℕ) (lines : List Bytes) → keep touches (flush_now id lines) ≡ []
  unfolding flush_now touches
  keep-flush_now id [] = refl
  keep-flush_now id (l ∷ lines) = refl

  ends_quietly :
      (trace : List Action) (id : ℕ) (u : UpdateParams)
      → StopsAtFailure trace
      → StopsAtFailure (keep touches (trace ++ (flush_now id calls.log_lines ++ update u ∷ [])))
  unfolding touches
  ends_quietly trace id u h =
      rw
        (
          keep-append touches trace (flush_now id calls.log_lines ++ update u ∷ []),
          keep-append touches (flush_now id calls.log_lines) (update u ∷ []),
          keep-flush_now id calls.log_lines,
        )
        (subst StopsAtFailure (sym (append-nil (keep touches trace))) (stops-keep trace h))

  settle-stops :
      (id : ℕ) (message : Bytes) (last : Option Bytes → Option Bytes) (trace : List Action)
      (r : Result Bytes (Unit {0}))
      → StopsAtFailure trace
      → StopsAtFailure (keep touches (settle calls id message last trace r).trace)
  unfolding settle
  settle-stops id message last trace (ok u) h = ends_quietly trace id _ h
  settle-stops id message last trace (err e) h = ends_quietly trace id _ h

  run_on-stops :
      (p : RunRestorationParams) (r : Result CreateError ℕ)
      → StopsAtFailure (keep touches (run_on calls p r).trace)
  unfolding run_on settled
  run_on-stops p (err e) = tt
  run_on-stops p (ok id) =
      settle-stops id _ _ _ _
        (bind-IsCareful (lift (check_restoration calls p)) (restore_target calls id p.target)
          (lift-IsCareful _) (λ src. restore_target-IsCareful id p.target src)).stops

  fix_owner-stops :
      (claim : Claim) (queued : QueuedRestoreParams)
      → StopsAtFailure (keep touches (run_fix_owner_task calls claim queued).trace)
  unfolding run_fix_owner_task settled
  fix_owner-stops claim queued =
      settle-stops claim.id _ _ _ _
        (bind-IsCareful
          (lift (
            check_fix_owner calls claim.database_id claim.conn_string claim.execution_id
              queued.target_owner))
          _ (lift-IsCareful _)
          λ found.
            bind-IsCareful (set_message calls claim.id _) _ (set_message-IsCareful claim.id _) λ u.
              with_text-IsCareful _ _
                (reassign-IsCareful found.1 found.0 queued.target_owner)).stops

  run_queued-stops :
      (claim : Claim) (r : Result Bytes QueuedRestoreParams)
      → StopsAtFailure (keep touches (run_queued calls claim r).trace)
  unfolding run_queued run_restoration touches
  run_queued-stops claim (err e) = tt
  run_queued-stops claim (ok queued) = elim (Bool-cases (text_eq queued.op restore_op_fix_owner)) [
    | inl fix ↦ rw fix (fix_owner-stops claim queued)
    | inr whole ↦ rw whole (run_on-stops _ _)
  ]

-- A job stops at its first failure: whatever the claimed row says and whatever the other systems answer,
-- every psql command, script, connection test or restore that the job runs on the target comes
-- after ones that succeeded.
pub run_claimed-stops :
    (unmarshal : Bytes → Result Bytes QueuedRestoreParams) (calls : Calls) (claim : Claim)
    → StopsAtFailure calls (keep touches (run_claimed_restoration unmarshal calls claim).trace)
unfolding run_claimed_restoration
run_claimed-stops unmarshal calls claim =
    run_queued-stops calls claim (queued_params unmarshal claim.params)
