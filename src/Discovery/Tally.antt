-- ===== src/Discovery/Tally.antt =====
-- How many events of a kind a log holds, and what one event more does to the counters of a run.
use pgwarden.Prelude.{ℕ, ◌+◌, ◌≡◌, sym, subst, Bool, true, false, List, [], ◌∷◌, ◌++◌, arith}
use mathlib.Core.List.{append_assoc, append-nil}
use pgwarden.Scan.{
  Event, EventKind, failure, cluster_list_started, database_found, database_created, backup_created,
  skipped_existing,
}
use pgwarden.Scan.Quiet.{is_tallied, AreQuiet}
use pgwarden.Discovery.{no_result}
use pgwarden.Discovery.Register.{RunResult}

abbrev pub is_failure : EventKind → Bool
is_failure failure = true
is_failure _ = false

abbrev pub is_cluster : EventKind → Bool
is_cluster cluster_list_started = true
is_cluster _ = false

abbrev pub is_found : EventKind → Bool
is_found database_found = true
is_found _ = false

abbrev pub is_database : EventKind → Bool
is_database database_created = true
is_database _ = false

abbrev pub is_backup : EventKind → Bool
is_backup backup_created = true
is_backup _ = false

abbrev pub is_skip : EventKind → Bool
is_skip skipped_existing = true
is_skip _ = false

abbrev one : Bool → ℕ
one true = 1
one false = 0

-- How many events are of a kind.
pub count : (EventKind → Bool) → List Event → ℕ
count is [] = 0
count is (e ∷ events) = one (is e.event) + count is events

-- Each counter is the number of its events behind those of `base`.
pub AreCounted : List Event → List Event → RunResult → Type 0
AreCounted base events r =
    ((count is_failure events ≡ count is_failure base + r.errors)
      × ((count is_cluster events ≡ count is_cluster base + r.clusters_scanned)
          × ((count is_found events ≡ count is_found base + r.databases_seen)
              × ((count is_database events ≡ count is_database base + r.databases_created)
                  × ((count is_backup events ≡ count is_backup base + r.backups_created)
                      × (count is_skip events ≡ count is_skip base + r.skipped_existing))))))

count-append :
    (is : EventKind → Bool) (xs ys : List Event) → count is (xs ++ ys) ≡ count is xs + count is ys
unfolding count
count-append is [] ys = omega arith
count-append is (e ∷ xs) ys = omega (arith, count-append is xs ys)

count-snoc :
    (is : EventKind → Bool) (xs : List Event) (e : Event)
    → count is (xs ++ e ∷ []) ≡ count is xs + one (is e.event)
unfolding count
count-snoc is xs e = omega (arith, count-append is xs (e ∷ []))

-- One event more, and the counters that it goes with.
pub step :
    (base events : List Event) (r q : RunResult) (e : Event)
    → q.errors ≡ r.errors + one (is_failure e.event)
    → q.clusters_scanned ≡ r.clusters_scanned + one (is_cluster e.event)
    → q.databases_seen ≡ r.databases_seen + one (is_found e.event)
    → q.databases_created ≡ r.databases_created + one (is_database e.event)
    → q.backups_created ≡ r.backups_created + one (is_backup e.event)
    → q.skipped_existing ≡ r.skipped_existing + one (is_skip e.event)
    → AreCounted base events r
    → AreCounted base (events ++ e ∷ []) q
unfolding AreCounted
step base events r q e h1 h2 h3 h4 h5 h6 h = (
  omega (arith, count-snoc is_failure events e, h1, h.0),
  (
    omega (arith, count-snoc is_cluster events e, h2, h.1.0),
    (
      omega (arith, count-snoc is_found events e, h3, h.1.1.0),
      (
        omega (arith, count-snoc is_database events e, h4, h.1.1.1.0),
        (
          omega (arith, count-snoc is_backup events e, h5, h.1.1.1.1.0),
          (omega (arith, count-snoc is_skip events e, h6, h.1.1.1.1.1)),
        ),
      ),
    ),
  ),
)

quiet-cases :
    (k : EventKind)
    → is_tallied k ≡ false
    → ((is_failure k ≡ false)
        × ((is_cluster k ≡ false)
            × ((is_found k ≡ false)
                × ((is_database k ≡ false) × ((is_backup k ≡ false) × (is_skip k ≡ false))))))
quiet-cases k h = ground arith

pub quiet :
    (base events new : List Event) (r : RunResult)
    → AreQuiet new
    → AreCounted base events r
    → AreCounted base (events ++ new) r
quiet base events [] r q h =
    subst (λ (x : List Event). AreCounted base x r) (sym (append-nil events)) h
quiet base events (e ∷ new) r q h =
    let none_of = quiet-cases e.event q.0 in
    rw (← append_assoc events (e ∷ []) new) (
      quiet base (events ++ e ∷ []) new r q.1 (
        step base events r r e (rw none_of.0 (omega arith)) (rw none_of.1.0 (omega arith))
          (rw none_of.1.1.0 (omega arith)) (rw none_of.1.1.1.0 (omega arith))
          (rw none_of.1.1.1.1.0 (omega arith)) (rw none_of.1.1.1.1.1 (omega arith)) h))

pub start : (events : List Event) → AreCounted events events no_result
unfolding AreCounted
start events =
    (omega arith, (omega arith, (omega arith, (omega arith, (omega arith, (omega arith))))))
