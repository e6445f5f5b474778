-- ===== src/Queue/Tests.antt =====
-- A backup that is requested twice, claimed, and lost.
use pgwarden.Prelude.{
  ℕ, ◌+◌, ◌<◌, ◌≤◌, ◌≡◌, ◌≢◌, refl, Bool, false, Option, none, some, ok, err, List, [], ◌∷◌, Bytes,
  codes, In, inl, text_eq, arith,
}
use pgwarden.Queue.{
  queued, Execution, Db, is_active, active_for, update_where, has_running_execution,
  create_execution, insert_queued, insert_reply, enqueue_insert, enqueue_execution,
  already_queued_or_running, claimable, oldest, claimed, claim_row, claim_statement,
  claim_execution, new_execution, heartbeat_execution, lost, reap_stale_executions,
}
use pgwarden.Queue.Refines.{queue_refines}
use pgwarden.Queue.Phases.{Move, phase, waits, runs}
use pgwarden.Queue.Active.{Steps-IsSound}
use pgwarden.Queue.Steps.{here, next, claim, heartbeat, IsSound}
use pgwarden.Queue.Claims.{Took, claim_takes_oldest, claimed_once}
use pgwarden.Queue.Enqueue.{enqueue_collapses}
use pgwarden.Queue.Reaper.{heartbeat_lease}

abbrev backups_of : ℕ → Option Bytes
backups_of n = some (codes "default")

abbrev empty_db : Db
empty_db = record { executions = []; backup_tag = backups_of; now = 100; next_id = 1 }

-- One backup waits.
abbrev waiting : Db
waiting = record {
  executions = new_execution empty_db 7 queued ∷ [];
  backup_tag = backups_of;
  now = 105;
  next_id = 2;
}

abbrev worker_tags : List Bytes
worker_tags = codes "default" ∷ []

abbrev nothing_locked : ℕ → Bool
nothing_locked n = false

abbrev taken_row : Execution
taken_row = claimed waiting (codes "w1") (new_execution empty_db 7 queued)

empty-IsSound : IsSound empty_db
empty-IsSound = record { one_active = tt; distinct = tt; given = tt }

waiting-IsSound : IsSound waiting
waiting-IsSound = record {
  one_active = ((λ _. refl), tt);
  distinct = (tt, tt);
  given = (omega arith, tt);
}

claims :
    (claim_execution none waiting (codes "w1") worker_tags nothing_locked).0 ≡ ok (some taken_row)
unfolding claim_execution claim_statement claim_row claimable oldest text_eq
claims = refl

Steps-IsSound_example : IsSound (heartbeat_execution waiting 1)
Steps-IsSound_example = Steps-IsSound (next here (heartbeat 1)) waiting-IsSound

claim_takes_oldest_example :
    Took waiting
      (codes "w1")
      worker_tags
      nothing_locked
      taken_row
      (claim_execution none waiting (codes "w1") worker_tags nothing_locked).1
claim_takes_oldest_example =
    claim_takes_oldest waiting (codes "w1") worker_tags nothing_locked taken_row claims

other_tag :
    (claim_execution none waiting (codes "w2") (codes "gpu" ∷ []) nothing_locked).0 ≡ ok none
unfolding claim_execution claim_statement claim_row claimable oldest text_eq
other_tag = refl

-- A second backup waits behind the first one.
abbrev second_row : Execution
second_row = new_execution (record waiting { now = 103; next_id = 2 }) 8 queued

abbrev two_waiting : Db
two_waiting = record {
  executions = new_execution empty_db 7 queued ∷ second_row ∷ [];
  backup_tag = backups_of;
  now = 105;
  next_id = 3;
}

two_waiting-IsSound : IsSound two_waiting
unfolding active_for is_active
two_waiting-IsSound = record {
  one_active = ((λ _. refl), ((λ _. refl), tt));
  distinct = ((omega arith, tt), (tt, tt));
  given = (omega arith, (omega arith, tt));
}

abbrev first_taken : Execution
first_taken = claimed two_waiting (codes "w1") (new_execution empty_db 7 queued)

abbrev second_taken : Execution
second_taken = claimed two_waiting (codes "w2") second_row

abbrev after_first : Db
after_first = (claim_execution none two_waiting (codes "w1") worker_tags nothing_locked).1

first_claim :
    (claim_execution none two_waiting (codes "w1") worker_tags nothing_locked).0
    ≡ ok (some first_taken)
unfolding claim_execution claim_statement claim_row claimable oldest text_eq
first_claim = refl

second_claim :
    (claim_execution none after_first (codes "w2") worker_tags nothing_locked).0
    ≡ ok (some second_taken)
unfolding claim_execution claim_statement claim_row claimable oldest text_eq update_where
second_claim = refl

claimed_once_example : first_taken.id ≢ second_taken.id
claimed_once_example =
    claimed_once two_waiting after_first (codes "w1") (codes "w2") worker_tags worker_tags
      nothing_locked nothing_locked first_taken second_taken two_waiting-IsSound first_claim here
      second_claim

enqueues : (enqueue_execution none none empty_db empty_db 7).0 ≡ ok tt
unfolding enqueue_execution enqueue_insert insert_reply create_execution insert_queued
    has_running_execution
enqueues = refl

enqueue_collapses_example :
    let db = (enqueue_execution none none empty_db empty_db 7).1 in
    enqueue_execution none none empty_db db 7 ≡ (err (already_queued_or_running 7), db)
enqueue_collapses_example = enqueue_collapses empty_db empty_db empty_db 7 enqueues

abbrev busy : Db
busy = record waiting { executions = taken_row ∷ [] }

heartbeat_lease_example :
    let later = record (heartbeat_execution busy 1) { now = busy.now + 301 } in
    let kept = record taken_row { heartbeat_at = some 105 } in
    (301 ≤ 300 → In kept (reap_stale_executions later 300).executions)
    × (300 < 301 → In (lost (busy.now + 301) kept) (reap_stale_executions later 300).executions)
heartbeat_lease_example = heartbeat_lease busy 301 300 taken_row (inl refl) refl refl

queue_refines_example :
    Move
      (phase 7 waiting.executions)
      (phase 7 (claim_execution none waiting (codes "w1") worker_tags nothing_locked).1.executions)
queue_refines_example =
    queue_refines 7 waiting-IsSound here (claim none (codes "w1") worker_tags nothing_locked)

-- The backup waits, and runs once it is claimed.
phases :
    (phase 7 waiting.executions ≡ waits)
    × (phase 7 (claim_execution none waiting (codes "w1") worker_tags nothing_locked).1.executions
        ≡ runs)
unfolding phase active_for is_active claim_execution claim_statement claim_row claimable oldest
    text_eq update_where
phases = (refl, refl)
