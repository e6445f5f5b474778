-- ===== src/Retention/Expired.antt =====
-- What SoftDeleteExecution and SoftDeleteExpiredExecutions (internal/service/executions) do to the table.
use pgwarden.Prelude.{
  ℕ, zero, suc, ◌≡◌, refl, sym, ap, subst, Bool, true, false, Option, none, some, List, [], ◌∷◌,
  Bytes, take, keep, All, All-imp, All-In, In, ◌⊎◌, inl, inr, Bool-cases, Option-cases, ==_iff,
}
use pgwarden.Queue.{Execution, Db, deleted, soft_delete_statement}
use pgwarden.Queue.Rows.{DistinctIds, DistinctIds-In, All-update_split}
use pgwarden.Retention.{
  Calendar, Settings, Backup, Stores, Deletion, is_expired, insert_by, sort_by, finishes_before,
  get_expired_executions, execution_housekeep_batch_limit, find_execution, mark_deleted, after_file,
  delete_file, delete_found, soft_delete_execution, delete_each, soft_delete_expired_executions,
}

-- A row as the soft deletion leaves it.
unfoldable pub gone : ℕ → Execution → Execution
gone now e = record e { status = deleted; deleted_at = some now }

-- The files of an execution.
abbrev pub files_of : Option Bytes → List Bytes
files_of none = []
files_of (some path) = path ∷ []

-- What the store in which a backup keeps its files answers when the file of an execution is deleted.
abbrev pub file_answer : Stores → Bool → Option Bytes → Option Bytes
file_answer stores local none = none
file_answer stores true (some path) = stores.local_delete path
file_answer stores false (some path) = stores.s3_delete path

-- The file was deleted, and the row is marked.
unfoldable pub IsMarked : Stores → Bool → Option Bytes → ℕ → Db → Deletion → Type 0
IsMarked stores local path id db d =
    ((file_answer stores local path ≡ none) × (stores.statement id ≡ none))
    × ((d.db ≡ soft_delete_statement db id) × ((d.files ≡ files_of path) × (d.error ≡ none)))

-- The store or the database has failed: its error is returned, and the table is left alone.
unfoldable pub IsRefused : Stores → Bool → Option Bytes → ℕ → Db → Deletion → Type 0
IsRefused stores local path id db d =
    (d.db ≡ db)
    × ((e : Bytes) × ((d.error ≡ some e)
          × ((file_answer stores local path ≡ some e) ⊎ (stores.statement id ≡ some e))))

-- There is no such execution, or none with a backup: nothing happens.
unfoldable pub IsUnknown : Option Execution → (ℕ → Option Backup) → Db → Deletion → Type 0
IsUnknown o backups db d =
    ((o ≡ none) ⊎ ((e : Execution) × ((o ≡ some e) × (backups e.backup_id ≡ none))))
    × ((d.db ≡ db) × (d.error ≡ none))

mark-outcome :
    (stores : Stores) (o : Option Bytes) (local : Bool) (path : Option Bytes) (id : ℕ) (db : Db)
    → stores.statement id ≡ o
    → file_answer stores local path ≡ none
    → IsMarked stores local path id db (mark_deleted o id (files_of path) db)
      ⊎ IsRefused stores local path id db (mark_deleted o id (files_of path) db)
unfolding mark_deleted IsMarked IsRefused
mark-outcome stores (some e) local path id db h gone = inr (refl, (e, (refl, inr h)))
mark-outcome stores none local path id db h gone = inl ((gone, h), (refl, (refl, refl)))

after_file-outcome :
    (stores : Stores) (o : Option Bytes) (local : Bool) (id : ℕ) (path : Bytes) (db : Db)
    → file_answer stores local (some path) ≡ o
    → IsMarked stores local (some path) id db (after_file stores o id path db)
      ⊎ IsRefused stores local (some path) id db (after_file stores o id path db)
unfolding after_file IsRefused
after_file-outcome stores (some e) local id path db h = inr (refl, (e, (refl, inl h)))
after_file-outcome stores none local id path db h =
    mark-outcome stores (stores.statement id) local (some path) id db refl h

delete_file-outcome :
    (stores : Stores) (local : Bool) (path : Option Bytes) (id : ℕ) (db : Db)
    → IsMarked stores local path id db (delete_file stores local path id db)
      ⊎ IsRefused stores local path id db (delete_file stores local path id db)
unfolding delete_file
delete_file-outcome stores local none id db =
    mark-outcome stores (stores.statement id) local none id db refl refl
delete_file-outcome stores true (some path) id db = after_file-outcome stores _ true id path db refl
delete_file-outcome stores false (some path) id db =
    after_file-outcome stores _ false id path db refl

-- What SoftDeleteExecution does with the execution that it has looked up.
unfoldable pub IsOutcome :
    Stores → Option Execution → (ℕ → Option Backup) → ℕ → Db → Deletion → Type 0
IsOutcome stores o backups id db d =
    ((e : Execution) × ((b : Backup) × (((o ≡ some e) × (backups e.backup_id ≡ some b))
          × (IsMarked stores b.is_local e.path id db d
              ⊎ IsRefused stores b.is_local e.path id db d))))
    ⊎ IsUnknown o backups db d

delete_found-IsOutcome :
    (stores : Stores) (o : Option Execution) (backups : ℕ → Option Backup) (id : ℕ) (db : Db)
    → IsOutcome stores o backups id db (delete_found stores o backups id db)
unfolding delete_found IsOutcome IsUnknown
delete_found-IsOutcome stores none backups id db = inr (inl refl, (refl, refl))
delete_found-IsOutcome stores (some e) backups id db = elim (Option-cases (backups e.backup_id)) [
  | inl missing ↦ rw missing (inr (inr (e, (refl, missing)), (refl, refl)))
  | inr (b, there) ↦
      rw there (inl (e, (b, ((refl, there), delete_file-outcome stores b.is_local e.path id db))))
]

-- SoftDeleteExecution marks an execution as deleted, and returns no error, if the store in which its backup
-- keeps files has deleted its file (where it has one) and the statement is executed; if either fails, its error
-- is returned and the table stays as it is. Nothing happens if there is no such execution with a backup.
pub file_before_row :
    (stores : Stores) (backups : ℕ → Option Backup) (id : ℕ) (db : Db)
    → IsOutcome stores
        (find_execution id db.executions)
        backups
        id
        db
        (soft_delete_execution stores backups id db)
unfolding soft_delete_execution
file_before_row stores backups id db =
    delete_found-IsOutcome stores (find_execution id db.executions) backups id db

-- The table after the deletion of one execution.
pub one_deleted :
    (stores : Stores) (backups : ℕ → Option Backup) (id : ℕ) (db : Db)
    → ((soft_delete_execution stores backups id db).db ≡ db)
      ⊎ ((soft_delete_execution stores backups id db).db ≡ soft_delete_statement db id)
unfolding IsOutcome IsRefused IsUnknown IsMarked
one_deleted stores backups id db = elim (file_before_row stores backups id db) [
  | inl (e, (b, (found, inl marked))) ↦ inr marked.1.0
  | inl (e, (b, (found, inr refused))) ↦ inl refused.0
  | inr unknown ↦ inl unknown.1.0
]

-- A row of the table as it was, or a row that had expired and is deleted.
pub IsKeptOrGone : (Execution → Bool) → Db → Execution → Type 0
IsKeptOrGone p db r =
    In r db.executions
    ⊎ ((e : Execution) × (In e db.executions × ((p e ≡ true) × (r ≡ gone db.now e))))

pub In-self : (es : List Execution) → All (λ e. In e es) es
In-self [] = tt
In-self (e ∷ es) = (inl refl, All-imp (λ f. In f es) _ es (λ f m. inr m) (In-self es))

-- The rows that pass a test do so, and are rows of the list.
pub keep-passes :
    (p : Execution → Bool) (Q : Execution → Type 0) (es : List Execution)
    → All Q es
    → All (λ e. Q e × (p e ≡ true)) (keep p es)
keep-passes p Q [] h = tt
keep-passes p Q (e ∷ es) h = elim (Bool-cases (p e)) [
  | inl fits ↦ rw fits ((h.0, fits), keep-passes p Q es h.1)
  | inr other ↦ rw other (keep-passes p Q es h.1)
]

All-insert_by :
    (before : Execution → Execution → Bool) (Q : Execution → Type 0) (e : Execution)
    (es : List Execution)
    → Q e
    → All Q es
    → All Q (insert_by before e es)
unfolding insert_by
All-insert_by before Q e [] q h = (q, tt)
All-insert_by before Q e (f ∷ es) q h = elim (Bool-cases (before e f)) [
  | inl first ↦ rw first (q, h)
  | inr later ↦ rw later (h.0, All-insert_by before Q e es q h.1)
]

pub All-sort_by :
    (before : Execution → Execution → Bool) (Q : Execution → Type 0) (es : List Execution)
    → All Q es
    → All Q (sort_by before es)
unfolding sort_by
All-sort_by before Q [] h = tt
All-sort_by before Q (e ∷ es) h =
    All-insert_by before Q e (sort_by before es) h.0 (All-sort_by before Q es h.1)

pub All-take : (Q : Execution → Type 0) (n : ℕ) (es : List Execution) → All Q es → All Q (take n es)
All-take Q zero es h = tt
All-take Q (suc n) [] h = tt
All-take Q (suc n) (e ∷ es) h = (h.0, All-take Q n es h.1)

-- The batch holds expired rows of the table only.
pub expired-AreExpired :
    (cal : Calendar) (settings : Settings) (backups : ℕ → Option Backup) (db : Db)
    → All
        (λ f. In f db.executions × (is_expired cal settings backups db f ≡ true))
        (get_expired_executions cal settings backups db)
unfolding get_expired_executions
expired-AreExpired cal settings backups db =
    let p = is_expired cal settings backups db in
    let Q : Execution → Type 0 = λ (f : Execution). In f db.executions × (p f ≡ true) in
    All-take Q execution_housekeep_batch_limit (sort_by finishes_before (keep p db.executions)) (
      All-sort_by finishes_before Q (keep p db.executions)
        (keep-passes p (λ f. In f db.executions) db.executions (In-self db.executions)))

module _ (p : Execution → Bool) (old : Db) (distinct : DistinctIds old.executions) where
  -- A row of the identifier of an expired row, once that row is deleted.
  gone-IsKeptOrGone :
      (f r : Execution)
      → In f old.executions
      → p f ≡ true
      → IsKeptOrGone p old r
      → r.id ≡ f.id
      → IsKeptOrGone p old (gone old.now r)
  unfolding IsKeptOrGone gone
  gone-IsKeptOrGone f r m fits (inl k) same =
      let is : r ≡ f =
        All-In (λ (e : Execution). e.id ≡ f.id → e ≡ f) old.executions
          (DistinctIds-In old.executions f distinct m) k same in
      inr (f, (m, (fits, ap (λ (e : Execution). gone old.now e) is)))
  gone-IsKeptOrGone f r m fits (inr (e, (k, (q, is)))) same =
      inr (e, (k, (q, ap (λ (x : Execution). gone old.now x) is)))

  delete_one-kept :
      (stores : Stores) (backups : ℕ → Option Backup) (f : Execution) (db : Db)
      → In f old.executions
      → p f ≡ true
      → db.now ≡ old.now
      → All (IsKeptOrGone p old) db.executions
      → ((soft_delete_execution stores backups f.id db).db.now ≡ old.now)
        × All (IsKeptOrGone p old) (soft_delete_execution stores backups f.id db).db.executions
  unfolding soft_delete_statement gone
  delete_one-kept stores backups f db m fits at h = elim (one_deleted stores backups f.id db) [
    | inl same ↦ rw same (at, h)
    | inr is ↦ rw is (
      at,
      All-update_split _ _ _ db.executions (All-imp _ _ db.executions (λ r k other. k) h) (
          All-imp _ _ db.executions
            (λ r k hit.
              subst
                (λ (n : ℕ). IsKeptOrGone p old (record r { status = deleted; deleted_at = some n }))
                (sym at) (gone-IsKeptOrGone f r m fits k ((==_iff r.id f.id).0 hit)))
            h),
    )
  ]

  delete_each-kept :
      (stores : Stores) (backups : ℕ → Option Backup) (es : List Execution) (db : Db)
      → All (λ f. In f old.executions × (p f ≡ true)) es
      → db.now ≡ old.now
      → All (IsKeptOrGone p old) db.executions
      → All (IsKeptOrGone p old) (delete_each stores backups es db).executions
  unfolding delete_each
  delete_each-kept stores backups [] db l at h = h
  delete_each-kept stores backups (f ∷ es) db l at h =
      let (still, kept) = delete_one-kept stores backups f db l.0.0 l.0.1 at h in
      delete_each-kept stores backups es _ l.1 still kept

-- Housekeeping deletes expired executions only: afterwards every row is a row that was there, as it was, or
-- a row that had expired, marked as deleted at this time. An execution has expired if it is not deleted and
-- finished longer ago than its backup's days, or than the months of the setting if it is the first
-- success of its month in a backup that keeps one for each month.
pub only_expired_deleted :
    (cal : Calendar) (settings : Settings) (stores : Stores) (backups : ℕ → Option Backup) (db : Db)
    → DistinctIds db.executions
    → All
        (IsKeptOrGone (is_expired cal settings backups db) db)
        (soft_delete_expired_executions cal settings stores backups db).executions
unfolding soft_delete_expired_executions IsKeptOrGone
only_expired_deleted cal settings stores backups db distinct =
    delete_each-kept (is_expired cal settings backups db) db distinct stores backups _ db
      (expired-AreExpired cal settings backups db) refl
      (All-imp (λ f. In f db.executions) _ db.executions (λ f m. inl m) (In-self db.executions))
