-- ===== src/Queue/Refines.antt =====
-- The queue seen from one backup: it is idle, waits, or runs.
use pgwarden.Prelude.{
  ℕ, ◌≡◌, refl, sym, ap, ◌∙◌, subst, Bool, true, false, Option, none, some, List, [], ◌∷◌, ◌++◌,
  Bytes, All-All, All-imp, inl, inr, any, any-keep, keep, arith, Bool-cases, Option-cases, ==_iff,
}
use pgwarden.Queue.{
  Status, queued, running, success, failed, deleted, Execution, Db, DbError, is_active, active_for,
  has_running_execution, create_execution, insert_queued, insert_reply, claim_row, new_execution,
  enqueue_insert, enqueue_execution, claimable, oldest, claimed, claim_statement, claim_execution,
  heartbeat_execution, reap_stale_executions, coalesce, mark_stale_executions, UpdateParams,
  updated, update_execution, soft_delete_statement,
}
use pgwarden.Queue.Rows.{OneActive, DistinctIds-In, oldest_lem}
use pgwarden.Queue.Active.{Steps-IsSound, claim-IsCalm, calm_update}
use pgwarden.Queue.Steps.{
  EndsOrKeeps, Step, enqueue, claim, heartbeat, reap, mark_stale, update, soft_delete, delete,
  backups, tick, Steps, IsSound,
}
use pgwarden.Queue.Phases.{
  Phase, waits, runs, phase_of_status, phase, Move, stay, put, take, done, phase-inactive,
  of_backup, phase-update_where, ending,
}

heartbeat-Move :
    (b id : ℕ) (db : Db)
    → IsSound db
    → Move (phase b db.executions) (phase b (heartbeat_execution db id).executions)
unfolding heartbeat_execution is_active
heartbeat-Move b id db h =
    phase-update_where _ _ b db.executions
      (record {
        same_id = λ e. refl;
        same_backup = λ e. refl;
        no_activity = All-All _ db.executions (λ e fits act. act);
      })
      h.one_active (All-All _ db.executions (λ e fits act. stay))

status-Move :
    (s : Option Status) (old : Status)
    → EndsOrKeeps s
    → Move (phase_of_status old) (phase_of_status (coalesce s old))
status-Move none old ends = stay
status-Move (some success) old ends = done
status-Move (some failed) old ends = done
status-Move (some queued) old ends = absurd ends
status-Move (some running) old ends = absurd ends
status-Move (some deleted) old ends = absurd ends

update-Move :
    (b : ℕ) (p : UpdateParams) (db : Db)
    → EndsOrKeeps p.status
    → p.deleted_at ≡ none
    → IsSound db
    → Move (phase b db.executions) (phase b (update_execution db p).executions)
unfolding update_execution updated
update-Move b p db ends keeps h =
    phase-update_where _ (updated p) b db.executions
      (record {
        same_id = λ e. refl;
        same_backup = λ e. refl;
        no_activity = All-All _ db.executions (λ e fits act. calm_update p e ends keeps act);
      })
      h.one_active (All-All _ db.executions (λ e fits act. status-Move p.status e.status ends))

queued_waits :
    (db : Db) (tags : List Bytes) (locked : ℕ → Bool) (a : Execution)
    → claimable db tags locked a ≡ true
    → phase_of_status a.status ≡ waits
unfolding claimable
queued_waits db tags locked a h = ground arith

claim-Move :
    (b : ℕ) (f : Option DbError) (db : Db) (worker : Bytes) (tags : List Bytes) (locked : ℕ → Bool)
    → IsSound db
    → Move (phase b db.executions) (phase b (claim_execution f db worker tags locked).1.executions)
unfolding claim_execution claim_statement claim_row
claim-Move b (some fault) db worker tags locked h = stay
claim-Move b none db worker tags locked h =
    elim (Option-cases (oldest (claimable db tags locked) db.executions)) [
      | inl empty ↦ rw empty stay
      | inr (a, found) ↦
          let (m, fits, _) = oldest_lem _ db.executions a found in
          let in_queue = queued_waits db tags locked a fits in
          rw found (
            phase-update_where _ (claimed db worker) b db.executions
              (claim-IsCalm db worker tags locked a h.distinct m fits) h.one_active
              (All-imp _ _ db.executions
                (λ e only same act.
                  subst (λ (x : Phase). Move x runs)
                    (sym (
                      ap (λ (r : Execution). phase_of_status r.status)
                        (only ((==_iff e.id a.id).0 same))
                      ∙ in_queue))
                    take)
                (DistinctIds-In db.executions a h.distinct m)))
    ]

phase-append :
    (b : ℕ) (es : List Execution) (e : Execution)
    → any (active_for e.backup_id) es ≡ false
    → phase_of_status e.status ≡ waits
    → Move (phase b es) (phase b (es ++ e ∷ []))
unfolding phase
phase-append b [] e free new = elim (Bool-cases (active_for b e)) [
  | inl act ↦ rw (act, new) put
  | inr far ↦ rw far stay
]
phase-append b (x ∷ es) e free new = elim (Bool-cases (active_for b x)) [
  | inl act ↦ rw act stay
  | inr far ↦ rw far (phase-append b es e (ground (arith, free)) new)
]

insert_reply-Move :
    (b : ℕ) (db : Db) (backup : ℕ) (tag : Option Bytes)
    → Move
        (phase b db.executions)
        (phase b (insert_reply db backup (insert_queued db backup tag)).1.executions)
unfolding insert_reply insert_queued
insert_reply-Move b db backup none = stay
insert_reply-Move b db backup (some tag) =
    elim (Bool-cases (any (active_for backup) db.executions)) [
      | inl taken ↦ rw taken stay
      | inr free ↦ rw free (phase-append b db.executions (new_execution db backup queued) free refl)
    ]

enqueue-Move :
    (b : ℕ) (f g : Option DbError) (seen db : Db) (backup : ℕ)
    → Move (phase b db.executions) (phase b (enqueue_execution f g seen db backup).1.executions)
unfolding enqueue_execution enqueue_insert insert_reply create_execution
enqueue-Move b (some fault) g seen db backup = stay
enqueue-Move b none (some fault) seen db backup =
    elim (Bool-cases (has_running_execution seen backup)) [
      | inl taken ↦ rw taken stay
      | inr free ↦ rw free stay
    ]
enqueue-Move b none none seen db backup = elim (Bool-cases (has_running_execution seen backup)) [
  | inl taken ↦ rw taken stay
  | inr free ↦ rw free (insert_reply-Move b db backup (db.backup_tag backup))
]

keep-Move :
    (b : ℕ) (p : Execution → Bool) (es : List Execution)
    → OneActive es
    → Move (phase b es) (phase b (keep p es))
unfolding phase
keep-Move b p [] h = stay
keep-Move b p (e ∷ es) h =
    let ih = keep-Move b p es h.1 in
    elim (Bool-cases (p e)) [
      | inl fits ↦ elim (Bool-cases (active_for b e)) [
        | inl act ↦ rw (fits, act) stay
        | inr far ↦ rw (fits, far) ih
      ]
      | inr other ↦ elim (Bool-cases (active_for b e)) [
        | inl act ↦
            (let (same, alive) = of_backup b e act in
              let alone = subst (λ n. any (active_for n) es ≡ false) same (h.0 alive) in
              rw (other, act, phase-inactive b (keep p es) (any-keep (active_for b) p es alone))
                done)
        | inr far ↦ rw (other, far) ih
      ]
    ]

Step-Move :
    (b : ℕ) {db after : Db}
    → Step db after
    → IsSound db
    → Move (phase b db.executions) (phase b after.executions)
unfolding reap_stale_executions mark_stale_executions soft_delete_statement is_active
Step-Move b {db} (enqueue f g seen backup) h = enqueue-Move b f g seen db backup
Step-Move b {db} (claim f worker tags locked) h = claim-Move b f db worker tags locked h
Step-Move b {db} (heartbeat id) h = heartbeat-Move b id db h
Step-Move b {db} (reap stale) h = ending b _ _ db (λ e. refl) (λ e. refl) (λ e. refl) h
Step-Move b {db} mark_stale h = ending b _ _ db (λ e. refl) (λ e. refl) (λ e. refl) h
Step-Move b {db} (update p ends keeps) h = update-Move b p db ends keeps h
Step-Move b {db} (soft_delete id) h = ending b _ _ db (λ e. refl) (λ e. refl) (λ e. refl) h
Step-Move b {db} (delete p) h = keep-Move b p db.executions h.one_active
Step-Move b (backups tag) h = stay
Step-Move b (tick d) h = stay

-- The queue refines a machine of three phases for each backup: in any state that the processes reach from a
-- sound table, a statement leaves the backup in its phase, puts it from idle into the queue, takes it from
-- the queue to run, or ends it. So no backup runs that did not wait, and none goes back from running
-- into the queue.
pub queue_refines :
    (b : ℕ) {start db after : Db}
    → IsSound start
    → Steps start db
    → Step db after
    → Move (phase b db.executions) (phase b after.executions)
queue_refines b h run s = Step-Move b s (Steps-IsSound run h)
