-- ===== src/Retention/Purge.antt =====
-- HousekeepExecutions and PurgeDeletedExecutions of internal/service/executions/
-- soft_delete_expired_executions.go, with purge_deleted_executions.sql. Among rows that were deleted at the
-- same time, the first ones are purged first, where PostgreSQL may take any.
use pgwarden.Prelude.{
  ℕ, ◌≡◌, refl, ap, ◌∙◌, Bool, true, false, not, Option, none, some, List, [], ◌∷◌, take, any, keep,
  All, All-imp, All-In, In, inl, inr, Bool-cases, ◌==◌, ==_iff, leb,
}
use pgwarden.Queue.{Execution, Db, is_deleted, soft_delete_statement, update_where}
use pgwarden.Queue.Rows.{DistinctIds, DistinctIds-In, DistinctIds-update_where}
use pgwarden.Retention.{
  Calendar, Settings, Backup, Stores, is_expired, sort_by, get_expired_executions,
  execution_housekeep_batch_limit, soft_delete_execution, delete_each,
  soft_delete_expired_executions,
}
use pgwarden.Retention.Expired.{
  All-sort_by, All-take, In-self, keep-passes, one_deleted, expired-AreExpired,
}

-- `deleted_at ASC NULLS FIRST`
abbrev deleted_before : Option ℕ → Option ℕ → Bool
deleted_before none t = true
deleted_before (some s) none = false
deleted_before (some s) (some t) = leb s t

abbrev goes_before : Execution → Execution → Bool
goes_before e f = deleted_before e.deleted_at f.deleted_at

-- The rows that ExecutionsServicePurgeDeletedExecutions selects.
unfoldable pub purged_rows : List Execution → List Execution
purged_rows es =
    take execution_housekeep_batch_limit (sort_by goes_before (keep (λ e. is_deleted e.status) es))

-- PurgeDeletedExecutions
unfoldable pub purge_deleted_executions : Db → Db
purge_deleted_executions db = record db {
  executions = keep (λ e. not (any (λ f. f.id == e.id) (purged_rows db.executions))) db.executions;
}

-- HousekeepExecutions
unfoldable pub housekeep_executions : Calendar → Settings → Stores → (ℕ → Option Backup) → Db → Db
housekeep_executions cal settings stores backups db =
    purge_deleted_executions (soft_delete_expired_executions cal settings stores backups db)

In-keep :
    (p : Execution → Bool) (e : Execution) (es : List Execution)
    → In e es
    → p e ≡ true
    → In e (keep p es)
In-keep p e [] m fits = absurd m
In-keep p e (f ∷ es) (inl same) fits = rw same (rw fits (inl refl))
In-keep p e (f ∷ es) (inr m) fits = elim (Bool-cases (p f)) [
  | inl hit ↦ rw hit (inr (In-keep p e es m fits))
  | inr miss ↦ rw miss (In-keep p e es m fits)
]

none_of :
    (q : Execution → Bool) (es : List Execution) → All (λ e. q e ≡ false) es → any q es ≡ false
none_of q [] h = refl
none_of q (e ∷ es) h = rw (h.0, none_of q es h.1)

-- A row stays in an update that is not about it.
In-update_where :
    (p : Execution → Bool) (f : Execution → Execution) (e : Execution) (es : List Execution)
    → In e es
    → p e ≡ false
    → In e (update_where p f es)
unfolding update_where
In-update_where p f e [] m other = absurd m
In-update_where p f e (g ∷ es) (inl same) other = rw same (rw other (inl refl))
In-update_where p f e (g ∷ es) (inr m) other = inr (In-update_where p f e es m other)

not_both : (b : Bool) → b ≡ true → b ≡ false → ⊥
not_both b h k = cc

-- Two rows of one table, of which one passes a test and the other does not, have two identifiers.
apart :
    (p : Execution → Bool) (e f : Execution) (es : List Execution)
    → DistinctIds es
    → In e es
    → In f es
    → p f ≡ true
    → p e ≡ false
    → (f.id == e.id) ≡ false
apart p e f es distinct m k fits other = elim (Bool-cases (f.id == e.id)) [
  | inl hit ↦
      let same : f ≡ e =
        All-In (λ (r : Execution). r.id ≡ e.id → r ≡ e) es (DistinctIds-In es e distinct m) k
          ((==_iff f.id e.id).0 hit) in
      absurd (not_both (p f) fits (ap p same ∙ other))
  | inr miss ↦ miss
]

-- The purge deletes rows that are marked as deleted, and only those.
purge-keeps :
    (e : Execution) (db : Db)
    → DistinctIds db.executions
    → In e db.executions
    → is_deleted e.status ≡ false
    → In e (purge_deleted_executions db).executions
unfolding purge_deleted_executions purged_rows
purge-keeps e db distinct m alive =
    let p : Execution → Bool = λ (f : Execution). is_deleted f.status in
    let Q : Execution → Type 0 = λ (f : Execution). In f db.executions × (p f ≡ true) in
    let rows = purged_rows db.executions in
    let Q_rows : All Q rows =
      All-take Q execution_housekeep_batch_limit (sort_by goes_before (keep p db.executions)) (
        All-sort_by goes_before Q (keep p db.executions)
          (keep-passes p (λ f. In f db.executions) db.executions (In-self db.executions))) in
    let missed : any (λ f. f.id == e.id) rows ≡ false =
      none_of (λ f. f.id == e.id) rows
        (All-imp Q (λ f. (f.id == e.id) ≡ false) rows
          (λ f h. apart p e f db.executions distinct m h.0 h.1 alive) Q_rows) in
    In-keep (λ f. not (any (λ g. g.id == f.id) rows)) e db.executions m (rw missed refl)

module _ (p : Execution → Bool) (e : Execution) (old : Db) (distinct : DistinctIds old.executions)
    (m : In e old.executions) (fresh : p e ≡ false) where
  delete_one-spares :
      (stores : Stores) (backups : ℕ → Option Backup) (f : Execution) (db : Db)
      → In f old.executions
      → p f ≡ true
      → In e db.executions
      → DistinctIds db.executions
      → In e (soft_delete_execution stores backups f.id db).db.executions
        × DistinctIds (soft_delete_execution stores backups f.id db).db.executions
  unfolding soft_delete_statement
  delete_one-spares stores backups f db k fits here distinct' =
      elim (one_deleted stores backups f.id db) [
        | inl same ↦ rw same (here, distinct')
        | inr is ↦ rw is (
          In-update_where (λ r. r.id == f.id) _ e db.executions here
              (apart (λ r. not (p r)) f e old.executions distinct k m (rw fresh refl)
                (rw fits refl)),
          DistinctIds-update_where (λ r. r.id == f.id) _ db.executions (λ r. refl) distinct',
        )
      ]

  delete_each-spares :
      (stores : Stores) (backups : ℕ → Option Backup) (es : List Execution) (db : Db)
      → All (λ f. In f old.executions × (p f ≡ true)) es
      → In e db.executions
      → DistinctIds db.executions
      → In e (delete_each stores backups es db).executions
        × DistinctIds (delete_each stores backups es db).executions
  unfolding delete_each
  delete_each-spares stores backups [] db l here distinct' = (here, distinct')
  delete_each-spares stores backups (f ∷ es) db l here distinct' =
      let (still, apart') = delete_one-spares stores backups f db l.0.0 l.0.1 here distinct' in
      delete_each-spares stores backups es _ l.1 still apart'

-- An execution that is not deleted and has not expired is in the table after housekeeping as it was before,
-- whatever the stores and the database answer.
pub housekeep_spares :
    (cal : Calendar) (settings : Settings) (stores : Stores) (backups : ℕ → Option Backup) (db : Db)
    (e : Execution)
    → DistinctIds db.executions
    → In e db.executions
    → is_deleted e.status ≡ false
    → is_expired cal settings backups db e ≡ false
    → In e (housekeep_executions cal settings stores backups db).executions
unfolding housekeep_executions soft_delete_expired_executions
housekeep_spares cal settings stores backups db e distinct m alive fresh =
    let p = is_expired cal settings backups db in
    let (still, distinct') =
      delete_each-spares p e db distinct m fresh stores backups
        (get_expired_executions cal settings backups db) db
        (expired-AreExpired cal settings backups db) m distinct in
    purge-keeps e _ distinct' still alive
