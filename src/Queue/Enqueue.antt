-- ===== src/Queue/Enqueue.antt =====
-- Concurrent requests for one backup: EnqueueExecution of internal/service/executions/run_execution.go.
use pgwarden.Prelude.{
  ℕ, ◌≡◌, refl, subst, Bool, true, Option, none, some, Result, ok, err, List, [], ◌∷◌, ◌++◌, Bytes,
  arith, Bool-cases, any, inl, inr,
}
use pgwarden.Queue.{
  queued, Execution, Db, is_active, active_for, has_running_execution, create_execution,
  insert_queued, insert_reply, new_execution, enqueue_insert, enqueue_execution, EnqueueError,
  already_queued_or_running,
}

any-append_self :
    (p : Execution → Bool) (es : List Execution) (e : Execution)
    → p e ≡ true
    → any p (es ++ e ∷ []) ≡ true
any-append_self p [] e h = ground arith
any-append_self p (x ∷ es) e h = ground (arith, any-append_self p es e)

-- The insert has put an active row of the backup into the table.
insert_active :
    (db : Db) (backup : ℕ) (tag : Option Bytes)
    → (insert_reply db backup (insert_queued db backup tag)).0 ≡ ok tt
    → any (active_for backup) (insert_reply db backup (insert_queued db backup tag)).1.executions
      ≡ true
unfolding insert_reply insert_queued
insert_active db backup none h = cc
insert_active db backup (some tag) h = elim (Bool-cases (any (active_for backup) db.executions)) [
  | inl busy ↦ ground (arith, rw busy at h)
  | inr free ↦ rw free (
      any-append_self (active_for backup) db.executions (new_execution db backup queued)
        (unfold active_for is_active in ground arith))
]

insert_tag :
    (db : Db) (backup : ℕ) (tag : Option Bytes)
    → (insert_reply db backup (insert_queued db backup tag)).0 ≡ ok tt
    → (insert_reply db backup (insert_queued db backup tag)).1.backup_tag ≡ db.backup_tag
unfolding insert_reply insert_queued
insert_tag db backup none h = refl
insert_tag db backup (some tag) h = ground arith

-- The index refuses the insert, and the table stays as it is.
insert_refused :
    (db : Db) (backup : ℕ) (tag : Bytes)
    → any (active_for backup) db.executions ≡ true
    → insert_reply db backup (insert_queued db backup (some tag))
      ≡ (err (already_queued_or_running backup), db)
unfolding insert_reply insert_queued
insert_refused db backup tag busy = rw busy

accepted_tag :
    (db : Db) (backup : ℕ) (tag : Option Bytes)
    → (insert_reply db backup (insert_queued db backup tag)).0 ≡ ok tt
    → (t : Bytes) × (tag ≡ some t)
unfolding insert_reply insert_queued
accepted_tag db backup none h = cc
accepted_tag db backup (some t) h = (t, refl)

enqueue_is_insert :
    (seen db : Db) (backup : ℕ)
    → (enqueue_execution none none seen db backup).0 ≡ ok tt
    → enqueue_execution none none seen db backup
      ≡ insert_reply db backup (insert_queued db backup (db.backup_tag backup))
unfolding enqueue_execution enqueue_insert create_execution
enqueue_is_insert seen db backup h = elim (Bool-cases (has_running_execution seen backup)) [
  | inl busy ↦ ground (arith, rw busy at h)
  | inr free ↦ rw free
]

enqueue_refused :
    (seen db : Db) (backup : ℕ) (tag : Bytes)
    → db.backup_tag backup ≡ some tag
    → any (active_for backup) db.executions ≡ true
    → enqueue_execution none none seen db backup ≡ (err (already_queued_or_running backup), db)
unfolding enqueue_execution enqueue_insert create_execution
enqueue_refused seen db backup tag t busy = elim (Bool-cases (has_running_execution seen backup)) [
  | inl early ↦ rw early
  | inr late ↦ rw (late, t) (insert_refused db backup tag busy)
]

-- Of two requests for one backup that are inserted one right after the other, where the first one is
-- accepted and the database answers both, the second one is refused and changes nothing, whatever state
-- each of them saw when it looked for an active execution.
pub enqueue_collapses :
    (seen seen_later db : Db) (backup : ℕ)
    → (enqueue_execution none none seen db backup).0 ≡ ok tt
    → let db' = (enqueue_execution none none seen db backup).1 in
      enqueue_execution none none seen_later db' backup
      ≡ (err (already_queued_or_running backup), db')
enqueue_collapses seen seen_later db backup h =
    let same = enqueue_is_insert seen db backup h in
    let accepted = subst (λ (r : Result EnqueueError (Unit {0}) × Db). r.0 ≡ ok tt) same h in
    let (tag, t) = accepted_tag db backup (db.backup_tag backup) accepted in
    rw same (
      enqueue_refused seen_later _ backup tag
        (rw (insert_tag db backup (db.backup_tag backup) accepted) t)
        (insert_active db backup (db.backup_tag backup) accepted))
