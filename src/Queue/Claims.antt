-- ===== src/Queue/Claims.antt =====
-- What a worker gets when it claims an execution.
use pgwarden.Prelude.{
  ℕ, ◌<◌, ◌≡◌, ◌≢◌, refl, sym, ap, ◌∙◌, subst, Bool, true, false, Option, none, some, ok_inj, ok,
  List, Bytes, All, All-All, All-imp, All-In, All-append, All-keep, inl, inr, any, arith,
  Bool-cases, ◌==◌, ==_iff,
}
use pgwarden.Queue.{
  is_queued, Execution, Db, DbError, active_for, update_where, has_running_execution,
  create_execution, insert_queued, insert_reply, claim_row, claim_reply, enqueue_insert,
  enqueue_execution, claimable, oldest, claimed, claim_statement, claim_execution,
  heartbeat_execution, reap_stale_executions, mark_stale_executions, UpdateParams, updated,
  update_execution, soft_delete_statement,
}
use pgwarden.Queue.Rows.{All-update_where, All-update_split, IsOldest, oldest_lem, oldest-none}
use pgwarden.Queue.Steps.{
  EndsOrKeeps, Step, enqueue, claim, heartbeat, reap, mark_stale, update, soft_delete, delete,
  backups, tick, Steps, here, next, IsSound,
}

-- What a claim that returns a row did: the row is the oldest one that could be claimed, as the
-- statement left it, and the table has changed in that row alone.
pub record Took (db : Db) (worker : Bytes) (tags : List Bytes) (locked : ℕ → Bool) (a : Execution)
    (db' : Db) : Type 0 where
  pub row : Execution
  pub is_oldest : IsOldest (claimable db tags locked) db.executions row
  pub as_claimed : a ≡ claimed db worker row
  pub only_row : db' ≡ record db {
    executions = update_where (λ f. f.id == row.id) (claimed db worker) db.executions;
  }

claim_row-Took :
    (db : Db) (worker : Bytes) (tags : List Bytes) (locked : ℕ → Bool) (o : Option Execution)
    (a : Execution) (db' : Db)
    → oldest (claimable db tags locked) db.executions ≡ o
    → (claim_row db worker o).0 ≡ ok a
    → (claim_row db worker o).1 ≡ db'
    → Took db worker tags locked a db'
unfolding claim_row
claim_row-Took db worker tags locked none a db' found h k = cc
claim_row-Took db worker tags locked (some e) a db' found h k = record {
  row = e;
  is_oldest = oldest_lem _ db.executions e found;
  as_claimed = sym (ok_inj h);
  only_row = sym k;
}

claim_reply-some :
    (db : Db) (worker : Bytes) (o : Option Execution) (a : Execution)
    → claim_reply (claim_row db worker o).0 ≡ ok (some a)
    → (claim_row db worker o).0 ≡ ok a
unfolding claim_row
claim_reply-some db worker none a h = cc
claim_reply-some db worker (some e) a h = cc

-- A claim that returns an execution has taken the oldest queued row whose backup has one of the
-- worker's tags and which no other transaction holds; it returns that row as running, claimed by the
-- worker and with a heartbeat, and changes no other row.
pub claim_takes_oldest :
    (db : Db) (worker : Bytes) (tags : List Bytes) (locked : ℕ → Bool) (a : Execution)
    → (claim_execution none db worker tags locked).0 ≡ ok (some a)
    → Took db worker tags locked a (claim_execution none db worker tags locked).1
unfolding claim_execution claim_statement
claim_takes_oldest db worker tags locked a h =
    claim_row-Took db worker tags locked (oldest (claimable db tags locked) db.executions) a _ refl
      (claim_reply-some db worker _ a h) refl

claim_reply-none :
    (db : Db) (worker : Bytes) (o : Option Execution)
    → claim_reply (claim_row db worker o).0 ≡ ok none
    → o ≡ none
unfolding claim_row
claim_reply-none db worker none h = refl
claim_reply-none db worker (some e) h = cc

-- A claim that finds the queue empty leaves the table alone, and no row could be claimed.
pub claim_empty :
    (db : Db) (worker : Bytes) (tags : List Bytes) (locked : ℕ → Bool)
    → (claim_execution none db worker tags locked).0 ≡ ok none
    → All (λ e. claimable db tags locked e ≡ false) db.executions
      × ((claim_execution none db worker tags locked).1 ≡ db)
unfolding claim_execution claim_statement
claim_empty db worker tags locked h =
    let empty = claim_reply-none db worker (oldest (claimable db tags locked) db.executions) h in
    (oldest-none _ db.executions empty, rw empty (unfold claim_row in refl))

-- The row `i` has been given out and is not in the queue.
record IsTaken (i : ℕ) (db : Db) : Type 0 where
  given : i < db.next_id
  settled : All (λ e. e.id ≡ i → is_queued e.status ≡ false) db.executions

-- An update that puts no row into the queue.
module _ (i : ℕ) (db : Db) (p : Execution → Bool) (f : Execution → Execution)
    (same : (e : Execution) → (f e).id ≡ e.id)
    (leaves : (e : Execution) → is_queued e.status ≡ false → is_queued (f e).status ≡ false)
    (h : IsTaken i db) where
  update_where-IsTaken : IsTaken i (record db { executions = update_where p f db.executions })
  update_where-IsTaken = record {
    given = h.given;
    settled =
        All-update_where _ p f db.executions h.settled
          (All-imp _ _ db.executions (λ e k _ at. leaves e (k (sym (same e) ∙ at))) h.settled);
  }

settled_update :
    (p : UpdateParams) (e : Execution)
    → EndsOrKeeps p.status
    → is_queued e.status ≡ false
    → is_queued (updated p e).status ≡ false
unfolding updated
settled_update p e ends k = ground arith

claim_row-IsTaken :
    (i : ℕ) (db : Db) (worker : Bytes) (o : Option Execution)
    → IsTaken i db
    → IsTaken i (claim_row db worker o).1
unfolding claim_row
claim_row-IsTaken i db worker none h = h
claim_row-IsTaken i db worker (some e) h = update_where-IsTaken i db _ _ (λ e. refl) (λ e k. refl) h

claim-IsTaken :
    (i : ℕ) (f : Option DbError) (db : Db) (worker : Bytes) (tags : List Bytes) (locked : ℕ → Bool)
    → IsTaken i db
    → IsTaken i (claim_execution f db worker tags locked).1
unfolding claim_execution claim_statement
claim-IsTaken i (some fault) db worker tags locked h = h
claim-IsTaken i none db worker tags locked h = claim_row-IsTaken i db worker _ h

insert_reply-IsTaken :
    (i : ℕ) (db : Db) (backup : ℕ) (tag : Option Bytes)
    → IsTaken i db
    → IsTaken i (insert_reply db backup (insert_queued db backup tag)).1
unfolding insert_reply insert_queued
insert_reply-IsTaken i db backup none h = h
insert_reply-IsTaken i db backup (some tag) h =
    elim (Bool-cases (any (active_for backup) db.executions)) [
      | inl busy ↦ rw busy h
      | inr free ↦ rw free (record {
        given = omega (arith, h.given);
        settled =
            All-append _ db.executions _ h.settled ((λ same. absurd (omega (arith, h.given))), tt);
      })
    ]

enqueue-IsTaken :
    (i : ℕ) (f g : Option DbError) (seen db : Db) (backup : ℕ)
    → IsTaken i db
    → IsTaken i (enqueue_execution f g seen db backup).1
unfolding enqueue_execution enqueue_insert insert_reply create_execution
enqueue-IsTaken i (some fault) g seen db backup h = h
enqueue-IsTaken i none (some fault) seen db backup h =
    elim (Bool-cases (has_running_execution seen backup)) [
      | inl busy ↦ rw busy h
      | inr free ↦ rw free h
    ]
enqueue-IsTaken i none none seen db backup h =
    elim (Bool-cases (has_running_execution seen backup)) [
      | inl busy ↦ rw busy h
      | inr free ↦ rw free (insert_reply-IsTaken i db backup (db.backup_tag backup) h)
    ]

Step-IsTaken : (i : ℕ) {a b : Db} → Step a b → IsTaken i a → IsTaken i b
unfolding heartbeat_execution reap_stale_executions mark_stale_executions update_execution
    soft_delete_statement updated
Step-IsTaken i {a} (enqueue f g seen backup) h = enqueue-IsTaken i f g seen a backup h
Step-IsTaken i {a} (claim f worker tags locked) h = claim-IsTaken i f a worker tags locked h
Step-IsTaken i {a} (heartbeat id) h = update_where-IsTaken i a _ _ (λ e. refl) (λ e k. k) h
Step-IsTaken i {a} (reap stale) h = update_where-IsTaken i a _ _ (λ e. refl) (λ e k. refl) h
Step-IsTaken i {a} mark_stale h = update_where-IsTaken i a _ _ (λ e. refl) (λ e k. refl) h
Step-IsTaken i {a} (update p ends keeps) h =
    update_where-IsTaken i a _ _ (λ e. refl) (λ e. settled_update p e ends) h
Step-IsTaken i {a} (soft_delete id) h = update_where-IsTaken i a _ _ (λ e. refl) (λ e k. refl) h
Step-IsTaken i {a} (delete p) h = record {
  given = h.given;
  settled = All-keep _ p a.executions h.settled;
}
Step-IsTaken i (backups tag) h = record { given = h.given; settled = h.settled }
Step-IsTaken i (tick d) h = record { given = h.given; settled = h.settled }

Steps-IsTaken : (i : ℕ) {a b : Db} → Steps a b → IsTaken i a → IsTaken i b
Steps-IsTaken i here h = h
Steps-IsTaken i (next r s) h = Step-IsTaken i s (Steps-IsTaken i r h)

Took-IsTaken :
    {db : Db} {worker : Bytes} {tags : List Bytes} {locked : ℕ → Bool} {a : Execution} {db' : Db}
    → IsSound db
    → Took db worker tags locked a db'
    → IsTaken a.id db'
Took-IsTaken {db} {worker} {a} h t = subst (IsTaken a.id) (sym t.only_row) (
    subst (λ n. IsTaken n taken) (sym (ap (λ (e : Execution). e.id) t.as_claimed))
      (record {
        given = All-In (λ e. e.id < db.next_id) db.executions h.given t.is_oldest.0;
        settled =
            All-update_split _ _ _ db.executions
              (All-All _ _ (λ e other same. ground (arith, (==_iff e.id t.row.id).1 same)))
              (All-All _ _ (λ e fits same. refl));
      }))
  where
    taken : Db
    taken = record db {
      executions = update_where (λ f. f.id == t.row.id) (claimed db worker) db.executions;
    }

not_taken :
    (db : Db) (tags : List Bytes) (locked : ℕ → Bool) (e : Execution)
    → claimable db tags locked e ≡ true
    → is_queued e.status ≡ true
unfolding claimable
not_taken db tags locked e h = ground arith

-- An execution is claimed once: after a claim has returned it, and whatever statements follow, no
-- claim by any worker returns a row of the same identifier.
pub claimed_once :
    (db later : Db) (worker other_worker : Bytes) (tags other_tags : List Bytes)
    (locked other_locked : ℕ → Bool) (a b : Execution)
    → IsSound db
    → (claim_execution none db worker tags locked).0 ≡ ok (some a)
    → Steps (claim_execution none db worker tags locked).1 later
    → (claim_execution none later other_worker other_tags other_locked).0 ≡ ok (some b)
    → a.id ≢ b.id
claimed_once db later worker other_worker tags other_tags locked other_locked a b h ca run cb same =
    let first = claim_takes_oldest db worker tags locked a ca in
    let second = claim_takes_oldest later other_worker other_tags other_locked b cb in
    let taken = Steps-IsTaken a.id run (Took-IsTaken h first) in
    let settled =
      All-In (λ (e : Execution). e.id ≡ a.id → is_queued e.status ≡ false) later.executions
        taken.settled second.is_oldest.0 in
    let row_id = ap (λ (e : Execution). e.id) second.as_claimed in
    cc (
      settled (sym row_id ∙ sym same),
      not_taken later other_tags other_locked second.row second.is_oldest.1,
    )
