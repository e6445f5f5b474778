-- ===== src/Dump/Args.antt =====
-- The command lines of a parallel dump, and the tables that they name.
use pgwarden.Prelude.{
  Bool, false, take, is_empty, Bool-cases, inl, inr, ℕ, ◌+◌, ◌≤◌, ◌<◌, ◌≡◌, refl, sym, ap, ◌∙◌,
  List, [], ◌∷◌, ◌++◌, Bytes, codes, length, length-append, concat, concat-append, arith, ok, err,
}
use mathlib.Core.List.{append_assoc, append-nil}
use pgwarden.Go.Strings.{has_prefix}
use pgwarden.Plan.{ParallelDumpJob, ParallelDumpTableInfo, plan_data_jobs}
use pgwarden.Plan.Partition.{Takes, none_taken, one_more, patterns_of, plan_partition}
use pgwarden.Dump.{
  patterns_of_tables, queued_jobs, exclude_args_len, check_tables, unsupported,
  parallel_dump_max_exclude_args_len, with_prefix, worker_count, DumpParams, base_args, data_args,
}
use pgwarden.Dump.Options.{values_of, values_of-append, values_of-with_prefix, values_of-other}

-- All the `--table` patterns of some jobs.
abbrev pub dumped : List ParallelDumpJob → List Bytes
dumped [] = []
dumped (j ∷ js) = j.patterns ++ dumped js

dumped-append : (js ks : List ParallelDumpJob) → dumped (js ++ ks) ≡ dumped js ++ dumped ks
dumped-append [] ks = refl
dumped-append (j ∷ js) ks =
    rw (dumped-append js ks) (sym (append_assoc j.patterns (dumped js) (dumped ks)))

patterns_of_tables-append :
    (xs ys : List ParallelDumpTableInfo)
    → patterns_of_tables (xs ++ ys) ≡ patterns_of_tables xs ++ patterns_of_tables ys
unfolding patterns_of_tables
patterns_of_tables-append [] ys = refl
patterns_of_tables-append (x ∷ xs) ys = ap (λ l. x.pattern ∷ l) (patterns_of_tables-append xs ys)

patterns_same : (ts : List ParallelDumpTableInfo) → patterns_of ts ≡ patterns_of_tables ts
unfolding patterns_of_tables
patterns_same [] = refl
patterns_same (t ∷ ts) = ap (λ l. t.pattern ∷ l) (patterns_same ts)

Takes-dumped :
    {jobs : List ParallelDumpJob} {groups : List (List ParallelDumpTableInfo)}
    → Takes jobs groups
    → dumped jobs ≡ patterns_of_tables (concat groups)
unfolding patterns_of_tables
Takes-dumped none_taken = refl
Takes-dumped (one_more {jobs} {groups} job group rest same bounded) =
    dumped-append jobs (job ∷ [])
    ∙ rw (Takes-dumped rest, append-nil)
        (ap (λ l. patterns_of_tables (concat groups) ++ l) (same ∙ patterns_same group)
          ∙ sym (patterns_of_tables-append (concat groups) group)
          ∙ ap patterns_of_tables (
              sym (
                concat-append groups (group ∷ [])
                ∙ ap (λ l. concat groups ++ l) (append-nil group))))

abbrev pub table_option : Bytes
table_option = codes "--table="

abbrev pub exclude_option : Bytes
exclude_option = codes "--exclude-table-data="

module _ (conn snapshot : Bytes) (p : DumpParams) (verbose : Bool) where
  -- What comes before the tables on a command line names none of them.
  base-values :
      (name : Bytes)
      → has_prefix conn name ≡ false
      → ((v : Bytes) → has_prefix (codes "--snapshot=" ++ v) name ≡ false)
      → ((v : Bytes) → has_prefix (codes "--lock-wait-timeout=" ++ v) name ≡ false)
      → has_prefix (codes "--verbose") name ≡ false
      → has_prefix (codes "--section=data") name ≡ false
      → values_of name (base_args conn snapshot p verbose ++ codes "--section=data" ∷ []) ≡ []
  unfolding values_of base_args
  base-values name h1 h2 h3 h4 h5 = elim (Bool-cases (is_empty p.lock_wait_timeout)) [
    | inl unset ↦ elim (Bool-cases verbose) [
      | inl loud ↦ rw (unset, loud) (rw (h1, h2 snapshot, h4, h5) refl)
      | inr still ↦ rw (unset, still) (rw (h1, h2 snapshot, h5) refl)
    ]
    | inr waits ↦ elim (Bool-cases verbose) [
      | inl loud ↦ rw (waits, loud) (rw (h1, h2 snapshot, h3 p.lock_wait_timeout, h4, h5) refl)
      | inr still ↦ rw (waits, still) (rw (h1, h2 snapshot, h3 p.lock_wait_timeout, h5) refl)
    ]
  ]

  tables_of_line :
      (j : ParallelDumpJob)
      → has_prefix conn table_option ≡ false
      → values_of table_option (data_args conn snapshot j p verbose) ≡ j.patterns
  unfolding data_args has_prefix
  tables_of_line j h =
      let base = base_args conn snapshot p verbose ++ codes "--section=data" ∷ [] in
      values_of-append table_option (base ++ with_prefix table_option j.patterns)
        (with_prefix exclude_option j.exclude)
      ∙ rw
          (
            values_of-append table_option base (with_prefix table_option j.patterns),
            base-values table_option h (λ v. refl) (λ v. refl) refl refl,
            values_of-with_prefix table_option j.patterns,
            values_of-other table_option exclude_option j.exclude (λ v. refl),
          )
          (append-nil j.patterns)

  excludes_of_line :
      (j : ParallelDumpJob)
      → has_prefix conn exclude_option ≡ false
      → values_of exclude_option (data_args conn snapshot j p verbose) ≡ j.exclude
  unfolding data_args has_prefix
  excludes_of_line j h =
      let base = base_args conn snapshot p verbose ++ codes "--section=data" ∷ [] in
      values_of-append exclude_option (base ++ with_prefix table_option j.patterns)
        (with_prefix exclude_option j.exclude)
      ∙ rw
          (
            values_of-append exclude_option base (with_prefix table_option j.patterns),
            base-values exclude_option h (λ v. refl) (λ v. refl) refl refl,
            values_of-other exclude_option table_option j.patterns (λ v. refl),
            values_of-with_prefix exclude_option j.exclude,
          )
          refl

  -- The values of an option on the command lines of some jobs, one line after the other.
  pub line_values : Bytes → List ParallelDumpJob → List Bytes
  line_values name [] = []
  line_values name (j ∷ js) =
      values_of name (data_args conn snapshot j p verbose) ++ line_values name js

  line_values-dumped :
      (js : List ParallelDumpJob)
      → has_prefix conn table_option ≡ false
      → line_values table_option js ≡ dumped js
  unfolding line_values
  line_values-dumped [] h = refl
  line_values-dumped (j ∷ js) h = rw (tables_of_line j h, line_values-dumped js h)

-- The data command lines of a parallel dump (data_args of each job that is queued) ask by their `--table=`
-- options for every table once, in the order given; and the first of them, which dumps what is left, leaves out
-- by `--exclude-table-data=` exactly the tables that the others ask for. The connection string, which is an
-- argument of the line, does not begin like one of the two options.
pub dump_covers :
    (tables : List ParallelDumpTableInfo) (conn snapshot : Bytes) (p : DumpParams) (verbose : Bool)
    → has_prefix conn table_option ≡ false
    → has_prefix conn exclude_option ≡ false
    → (line_values conn snapshot p verbose table_option (queued_jobs tables)
        ≡ patterns_of_tables tables)
      × (line_values conn snapshot p verbose exclude_option (take 1 (queued_jobs tables))
          ≡ line_values conn snapshot p verbose table_option (plan_data_jobs tables))
unfolding queued_jobs line_values
dump_covers tables conn snapshot p verbose ht he =
    let (groups, takes, all) = plan_partition tables in
    let covers = Takes-dumped takes ∙ ap patterns_of_tables all in
    (
      line_values-dumped conn snapshot p verbose (queued_jobs tables) ht ∙ covers,
      append-nil _
          ∙ excludes_of_line conn snapshot p verbose _ he
          ∙ sym covers
          ∙ sym (line_values-dumped conn snapshot p verbose (plan_data_jobs tables) ht),
    )

-- The length of arguments on a command line, each with the space before it.
abbrev args_len : List Bytes → ℕ
args_len [] = 0
args_len (a ∷ args) = length a + 1 + args_len args

exclude_args_len_lem :
    (n : ℕ) (tables : List ParallelDumpTableInfo)
    → exclude_args_len n tables
      ≡ n + args_len (with_prefix (codes "--exclude-table-data=") (patterns_of_tables tables))
unfolding exclude_args_len with_prefix patterns_of_tables
exclude_args_len_lem n [] = omega arith
exclude_args_len_lem n (t ∷ tables) = omega (
  arith,
  exclude_args_len_lem (n + (length (codes "--exclude-table-data=") + length t.pattern + 1)) tables,
  length-append (codes "--exclude-table-data=") t.pattern,
)

-- A parallel dump is refused exactly when the exclusions of its remainder job take more than 1 MiB of
-- the command line; otherwise the tables are taken as they are.
check_tables_exact :
    (tables : List ParallelDumpTableInfo)
    → let len =
        args_len (with_prefix (codes "--exclude-table-data=") (patterns_of_tables tables)) in
      (len ≤ parallel_dump_max_exclude_args_len → check_tables tables ≡ ok tables)
      × (parallel_dump_max_exclude_args_len < len → check_tables tables ≡ err unsupported)
unfolding check_tables
check_tables_exact tables = (
  λ short. ground (arith, exclude_args_len_lem 0 tables, short),
  λ long. ground (arith, exclude_args_len_lem 0 tables, long),
)

-- At least one worker is started, and never more than there are jobs in the queue or, if that is
-- positive, than were asked for.
worker_count_bounds :
    (jobs : ℕ) (tables : List ParallelDumpTableInfo)
    → (1 ≤ worker_count jobs (plan_data_jobs tables))
      × (worker_count jobs (plan_data_jobs tables) ≤ length (queued_jobs tables))
      × (1 ≤ jobs → worker_count jobs (plan_data_jobs tables) ≤ jobs)
unfolding worker_count queued_jobs
worker_count_bounds jobs tables = ground arith
