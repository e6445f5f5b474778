-- ===== src/Queue/Active.antt =====
-- The invariant of the executions table under the statements of internal/service/executions, run by any
-- number of processes in any order.
use pgwarden.Prelude.{
  ℕ, suc, ◌<◌, ◌≡◌, refl, sym, subst, Bool, true, false, Option, none, some, Result, ok, err, List,
  [], ◌∷◌, ◌++◌, Bytes, All, All-All, All-imp, All-append, In, inl, inr, any, keep, any-keep,
  All-keep, arith, Bool-cases, Option-cases, ok_inj, ◌==◌, ==_iff,
}
use pgwarden.Queue.{
  queued, Execution, Db, DbError, is_active, active_for, update_where, has_running_execution,
  create_execution, insert_queued, insert_reply, claim_row, new_execution, enqueue_insert,
  enqueue_execution, claimable, oldest, claimed, claim_statement, claim_execution,
  heartbeat_execution, reap_stale_executions, mark_stale_executions, UpdateParams, updated,
  update_execution, soft_delete_statement,
}
use pgwarden.Queue.Rows.{
  OneActive, DistinctIds, IsCalm, ids-update_where, OneActive-update_where,
  DistinctIds-update_where, DistinctIds-In, oldest_lem,
}
use pgwarden.Queue.Steps.{
  EndsOrKeeps, Step, Steps, IsSound, enqueue, claim, heartbeat, reap, mark_stale, update,
  soft_delete, delete, backups, tick, here, next,
}

-- An update of rows that is calm keeps the table sound.
module _ (db : Db) (p : Execution → Bool) (f : Execution → Execution)
    (calm : IsCalm p f db.executions) (h : IsSound db) where
  update_where-IsSound : IsSound (record db { executions = update_where p f db.executions })
  update_where-IsSound = record {
    one_active = OneActive-update_where p f db.executions calm h.one_active;
    distinct = DistinctIds-update_where p f db.executions calm.same_id h.distinct;
    given = ids-update_where p f (λ n. n < db.next_id) db.executions calm.same_id h.given;
  }

heartbeat-IsSound : (db : Db) (id : ℕ) → IsSound db → IsSound (heartbeat_execution db id)
unfolding heartbeat_execution is_active
heartbeat-IsSound db id h =
    update_where-IsSound db _ _
      (record {
        same_id = λ e. refl;
        same_backup = λ e. refl;
        no_activity = All-All _ _ (λ e _ a. a);
      })
      h

reap-IsSound : (db : Db) (stale : ℕ) → IsSound db → IsSound (reap_stale_executions db stale)
unfolding reap_stale_executions is_active
reap-IsSound db stale h =
    update_where-IsSound db _ _
      (record {
        same_id = λ e. refl;
        same_backup = λ e. refl;
        no_activity = All-All _ _ (λ e _ a. cc);
      })
      h

mark_stale-IsSound : (db : Db) → IsSound db → IsSound (mark_stale_executions db)
unfolding mark_stale_executions is_active
mark_stale-IsSound db h =
    update_where-IsSound db _ _
      (record {
        same_id = λ e. refl;
        same_backup = λ e. refl;
        no_activity = All-All _ _ (λ e _ a. cc);
      })
      h

soft_delete-IsSound : (db : Db) (id : ℕ) → IsSound db → IsSound (soft_delete_statement db id)
unfolding soft_delete_statement is_active
soft_delete-IsSound db id h =
    update_where-IsSound db _ _
      (record {
        same_id = λ e. refl;
        same_backup = λ e. refl;
        no_activity = All-All _ _ (λ e _ a. cc);
      })
      h

pub calm_update :
    (p : UpdateParams) (e : Execution)
    → EndsOrKeeps p.status
    → p.deleted_at ≡ none
    → is_active (updated p e) ≡ true
    → is_active e ≡ true
unfolding is_active updated
calm_update p e ends keeps a = ground arith

update-IsSound :
    (db : Db) (p : UpdateParams)
    → EndsOrKeeps p.status
    → p.deleted_at ≡ none
    → IsSound db
    → IsSound (update_execution db p)
unfolding update_execution updated
update-IsSound db p ends keeps h =
    update_where-IsSound db _ _
      (record {
        same_id = λ e. refl;
        same_backup = λ e. refl;
        no_activity = All-All _ _ (λ e _ a. calm_update p e ends keeps a);
      })
      h

-- The row that a claim takes was active, and it is the only one of its identifier.
pub claim-IsCalm :
    (db : Db) (worker : Bytes) (tags : List Bytes) (locked : ℕ → Bool) (a : Execution)
    → DistinctIds db.executions
    → In a db.executions
    → claimable db tags locked a ≡ true
    → IsCalm (λ f. f.id == a.id) (claimed db worker) db.executions
unfolding claimable is_active
claim-IsCalm db worker tags locked a d m fits = record {
  same_id = λ e. refl;
  same_backup = λ e. refl;
  no_activity =
      All-imp _ _ db.executions
        (λ e only same act.
          subst (λ r. is_active r ≡ true) (sym (only ((==_iff e.id a.id).0 same))) (ground arith))
        (DistinctIds-In db.executions a d m);
}

claim-IsSound :
    (f : Option DbError) (db : Db) (worker : Bytes) (tags : List Bytes) (locked : ℕ → Bool)
    → IsSound db
    → IsSound (claim_execution f db worker tags locked).1
unfolding claim_execution claim_statement claim_row
claim-IsSound (some fault) db worker tags locked h = h
claim-IsSound none db worker tags locked h =
    elim (Option-cases (oldest (claimable db tags locked) db.executions)) [
      | inl empty ↦ rw empty h
      | inr (a, found) ↦
          let (m, fits, _) = oldest_lem _ db.executions a found in
          rw found
            (update_where-IsSound db _ _ (claim-IsCalm db worker tags locked a h.distinct m fits) h)
    ]

inactive-append :
    (b : ℕ) (es : List Execution) (e : Execution)
    → any (active_for b) es ≡ false
    → active_for b e ≡ false
    → any (active_for b) (es ++ e ∷ []) ≡ false
inactive-append b [] e h k = ground arith
inactive-append b (x ∷ es) e h k = ground (arith, inactive-append b es e)

-- A row of another backup, or of one that has no active row.
active_other :
    (x e : Execution)
    → is_active x ≡ true
    → active_for e.backup_id x ≡ false
    → active_for x.backup_id e ≡ false
unfolding active_for
active_other x e act k = ground arith

OneActive-append :
    (es : List Execution) (e : Execution)
    → OneActive es
    → any (active_for e.backup_id) es ≡ false
    → OneActive (es ++ e ∷ [])
OneActive-append [] e h k = (λ _. refl, tt)
OneActive-append (x ∷ es) e h k = (
  λ act. inactive-append x.backup_id es e (h.0 act) (active_other x e act (ground arith)),
  OneActive-append es e h.1 (ground arith),
)

DistinctIds-append :
    (es : List Execution) (e : Execution)
    → DistinctIds es
    → All (λ f. f.id < e.id) es
    → DistinctIds (es ++ e ∷ [])
DistinctIds-append [] e h k = (tt, tt)
DistinctIds-append (x ∷ es) e h k = (
  All-append _ es (e ∷ []) h.0 ((λ same. omega (arith, k.0)), tt),
  DistinctIds-append es e h.1 k.1,
)

insert-IsSound :
    (db : Db) (backup : ℕ)
    → any (active_for backup) db.executions ≡ false
    → IsSound db
    → IsSound (record db {
      executions = db.executions ++ new_execution db backup queued ∷ [];
      next_id = suc db.next_id;
    })
insert-IsSound db backup free h = record {
  one_active = OneActive-append db.executions _ h.one_active free;
  distinct = DistinctIds-append db.executions _ h.distinct h.given;
  given =
      All-append _ db.executions _ (All-imp _ _ db.executions (λ e lt. omega arith) h.given)
        (omega arith, tt);
}

insert_queued-IsSound :
    (db : Db) (backup : ℕ) (tag : Option Bytes) (db' : Db)
    → insert_queued db backup tag ≡ ok db'
    → IsSound db
    → IsSound db'
unfolding insert_queued
insert_queued-IsSound db backup none db' e h = cc
insert_queued-IsSound db backup (some tag) db' e h =
    elim (Bool-cases (any (active_for backup) db.executions)) [
      | inl busy ↦ ground (arith, rw busy at e)
      | inr free ↦ subst IsSound (ok_inj (rw free at e)) (insert-IsSound db backup free h)
    ]

insert_reply-IsSound :
    (db : Db) (backup : ℕ) (r : Result DbError Db)
    → IsSound db
    → ((db' : Db) → r ≡ ok db' → IsSound db')
    → IsSound (insert_reply db backup r).1
unfolding insert_reply
insert_reply-IsSound db backup (ok db') h k = k db' refl
insert_reply-IsSound db backup (err e) h k = h

create-IsSound :
    (db : Db) (backup : ℕ) (db' : Db)
    → create_execution db backup ≡ ok db'
    → IsSound db
    → IsSound db'
unfolding create_execution
create-IsSound db backup db' e h = insert_queued-IsSound db backup (db.backup_tag backup) db' e h

enqueue_insert-IsSound :
    (g : Option DbError) (db : Db) (backup : ℕ)
    → IsSound db
    → IsSound (enqueue_insert g db backup).1
unfolding enqueue_insert
enqueue_insert-IsSound (some fault) db backup h = insert_reply-IsSound db backup _ h (λ db' e. cc)
enqueue_insert-IsSound none db backup h =
    insert_reply-IsSound db backup _ h (λ db' e. create-IsSound db backup db' e h)

enqueue-IsSound :
    (f g : Option DbError) (seen db : Db) (backup : ℕ)
    → IsSound db
    → IsSound (enqueue_execution f g seen db backup).1
unfolding enqueue_execution
enqueue-IsSound (some fault) g seen db backup h = h
enqueue-IsSound none g seen db backup h = elim (Bool-cases (has_running_execution seen backup)) [
  | inl busy ↦ rw busy h
  | inr free ↦ rw free (enqueue_insert-IsSound g db backup h)
]

OneActive-keep : (p : Execution → Bool) (es : List Execution) → OneActive es → OneActive (keep p es)
OneActive-keep p [] h = tt
OneActive-keep p (e ∷ es) h = elim (Bool-cases (p e)) [
  | inl fits ↦ rw fits ((λ act. any-keep _ p es (h.0 act)), OneActive-keep p es h.1)
  | inr other ↦ rw other (OneActive-keep p es h.1)
]

DistinctIds-keep :
    (p : Execution → Bool) (es : List Execution) → DistinctIds es → DistinctIds (keep p es)
DistinctIds-keep p [] h = tt
DistinctIds-keep p (e ∷ es) h = elim (Bool-cases (p e)) [
  | inl fits ↦ rw fits (All-keep _ p es h.0, DistinctIds-keep p es h.1)
  | inr other ↦ rw other (DistinctIds-keep p es h.1)
]

delete-IsSound :
    (db : Db) (p : Execution → Bool)
    → IsSound db
    → IsSound (record db { executions = keep p db.executions })
delete-IsSound db p h = record {
  one_active = OneActive-keep p db.executions h.one_active;
  distinct = DistinctIds-keep p db.executions h.distinct;
  given = All-keep _ p db.executions h.given;
}

pub Step-IsSound : {a b : Db} → Step a b → IsSound a → IsSound b
Step-IsSound {a} (enqueue f g seen backup) h = enqueue-IsSound f g seen a backup h
Step-IsSound {a} (claim f worker tags locked) h = claim-IsSound f a worker tags locked h
Step-IsSound {a} (heartbeat id) h = heartbeat-IsSound a id h
Step-IsSound {a} (reap stale) h = reap-IsSound a stale h
Step-IsSound {a} mark_stale h = mark_stale-IsSound a h
Step-IsSound {a} (update p ends keeps) h = update-IsSound a p ends keeps h
Step-IsSound {a} (soft_delete id) h = soft_delete-IsSound a id h
Step-IsSound {a} (delete p) h = delete-IsSound a p h
Step-IsSound (backups tag) h = record {
  one_active = h.one_active;
  distinct = h.distinct;
  given = h.given;
}
Step-IsSound (tick d) h = record {
  one_active = h.one_active;
  distinct = h.distinct;
  given = h.given;
}

-- From a sound table, whatever statements the processes run and in whatever order, the table stays
-- sound: identifiers stay distinct, and no backup ever has two active executions.
pub Steps-IsSound : {a b : Db} → Steps a b → IsSound a → IsSound b
Steps-IsSound here h = h
Steps-IsSound (next r s) h = Step-IsSound s (Steps-IsSound r h)
