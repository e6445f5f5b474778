-- ===== src/Queue/Phases.antt =====
-- The phase of a backup, read off the table, and how an update of the rows moves it.
use pgwarden.Prelude.{
  ℕ, ◌≡◌, refl, subst, Bool, true, false, List, [], ◌∷◌, All, All-All, inl, inr, any, arith,
  Bool-cases, if◌then◌else◌,
}
use pgwarden.Queue.{Status, queued, running, Execution, Db, is_active, active_for, update_where}
use pgwarden.Queue.Rows.{OneActive, IsCalm, IsCalm-tail, inactive-update_where}
use pgwarden.Queue.Steps.{IsSound}

-- What the callers of the queue know of a backup.
pub data Phase : Type 0 where
  idle waits runs : Phase

abbrev pub phase_of_status : Status → Phase
phase_of_status queued = waits
phase_of_status running = runs
phase_of_status _ = idle

-- The phase of a backup, read off the table.
unfoldable pub phase : ℕ → List Execution → Phase
phase b [] = idle
phase b (e ∷ es) =
    let rest = phase b es in if active_for b e then phase_of_status e.status else rest

-- The moves of the abstract queue: a backup is put into it, taken from it, or done with.
pub data Move : Phase → Phase → Type 0 where
  stay : {a : Phase} → Move a a
  put : Move idle waits
  take : Move waits runs
  done : {a : Phase} → Move a idle

pub phase-inactive :
    (b : ℕ) (es : List Execution) → any (active_for b) es ≡ false → phase b es ≡ idle
unfolding phase
phase-inactive b [] h = refl
phase-inactive b (e ∷ es) h = ground (arith, phase-inactive b es)

-- What an update makes of a row, seen from its backup.
abbrev Moves : (Execution → Bool) → (Execution → Execution) → Execution → Type 0
Moves p f e =
    p e ≡ true
    → is_active (f e) ≡ true
    → Move (phase_of_status e.status) (phase_of_status (f e).status)

pub of_backup :
    (b : ℕ) (e : Execution) → active_for b e ≡ true → (e.backup_id ≡ b) × (is_active e ≡ true)
unfolding active_for
of_backup b e h = (ground (arith, h), ground (arith, h))

active_elsewhere :
    (b : ℕ) (e e' : Execution)
    → e'.backup_id ≡ e.backup_id
    → (is_active e' ≡ true → is_active e ≡ true)
    → active_for b e ≡ false
    → active_for b e' ≡ false
unfolding active_for
active_elsewhere b e e' same back h = ground (arith, same, back, h)

module _ (p : Execution → Bool) (f : Execution → Execution) where
  pub phase-update_where :
      (b : ℕ) (es : List Execution)
      → IsCalm p f es
      → OneActive es
      → All (Moves p f) es
      → Move (phase b es) (phase b (update_where p f es))
  unfolding phase update_where
  phase-update_where b [] c h m = stay
  phase-update_where b (e ∷ es) c h m = elim (Bool-cases (active_for b e)) [
    | inl act ↦
        (let (same, alive) = of_backup b e act in
          let alone = subst (λ n. any (active_for n) es ≡ false) same (h.0 alive) in
          let rest =
            phase-inactive b (update_where p f es)
              (inactive-update_where p f b es (IsCalm-tail p f e es c) alone) in
          elim (Bool-cases (p e)) [
            | inl fits ↦ elim (Bool-cases (active_for b (f e))) [
              | inl still ↦ rw (act, fits, still) (m.0 fits (of_backup b (f e) still).1)
              | inr ended ↦ rw (act, fits, ended, rest) done
            ]
            | inr other ↦ rw (act, other, act) stay
          ])
    | inr far ↦
        (let ih = phase-update_where b es (IsCalm-tail p f e es c) h.1 m.1 in
          elim (Bool-cases (p e)) [
            | inl fits ↦
                (let still =
                    active_elsewhere b e (f e) (c.same_backup e) (c.no_activity.0 fits) far in
                  rw (far, fits, still) ih)
            | inr other ↦ rw (far, other, far) ih
          ])
  ]

-- An update that ends the rows that it touches.
pub ending :
    (b : ℕ) (p : Execution → Bool) (f : Execution → Execution) (db : Db)
    → ((e : Execution) → (f e).id ≡ e.id)
    → ((e : Execution) → (f e).backup_id ≡ e.backup_id)
    → ((e : Execution) → is_active (f e) ≡ false)
    → IsSound db
    → Move (phase b db.executions) (phase b (update_where p f db.executions))
ending b p f db same_id same_backup ends h =
    phase-update_where p f b db.executions
      (record {
        same_id = same_id;
        same_backup = same_backup;
        no_activity = All-All _ db.executions (λ e fits act. absurd (let no = ends e in cc));
      })
      h.one_active (All-All _ db.executions (λ e fits act. absurd (let no = ends e in cc)))
