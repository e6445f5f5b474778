-- ===== src/Discovery/Lock.antt =====
-- The lock of a run: the flag in memory and the metadata database.
use pgwarden.Prelude.{◌≡◌, refl, Bool, true, false, Option, none, some, Result, ok, err, Bytes}
use pgwarden.Discovery.{RunError, claim_run, begin_run}

-- The questions that beginRun asks: one if the flag is clear, else two.
pub IsIdle : Bool → Result Bytes Bool → Result Bytes Bool → Type 0
IsIdle false first second = second ≡ ok false
IsIdle true first second = (first ≡ ok false) × (second ≡ ok false)

refused : {e : RunError} {A : Type 0} → ◌≡◌ {A = Option RunError} (some e) none → A
refused h = absurd (cc)

claims :
    (second : Result Bytes Bool)
    → (claim_run second).1 ≡ none
    → ((claim_run second).0 ≡ true) × (second ≡ ok false)
unfolding claim_run
claims (err e) h = refused h
claims (ok true) h = refused h
claims (ok false) h = (refl, refl)

sets : (second : Result Bytes Bool) → (claim_run second).0 ≡ true → (claim_run second).1 ≡ none
unfolding claim_run
sets (err e) h = absurd (cc)
sets (ok true) h = absurd (cc)
sets (ok false) h = refl

-- A run that may begin has set the flag, and each question that was asked found no active run in the
-- metadata database; one that may not begin leaves a flag that was clear clear.
pub begin_run-exclusive :
    (flag : Bool) (first second : Result Bytes Bool)
    → ((begin_run flag first second).1 ≡ none
        → ((begin_run flag first second).0 ≡ true) × IsIdle flag first second)
      × ((begin_run false first second).0 ≡ true → (begin_run false first second).1 ≡ none)
unfolding begin_run IsIdle
begin_run-exclusive false first second = (claims second, sets second)
begin_run-exclusive true (err e) second = (λ h. refused h, sets second)
begin_run-exclusive true (ok true) second = (λ h. refused h, sets second)
begin_run-exclusive true (ok false) second =
    (λ h. let c = claims second h in (c.0, (refl, c.1)), sets second)
