-- ===== src/Dump/Tests.antt =====
-- A dump of two tables.
use pgwarden.Prelude.{
  true, false, take, ◌≡◌, refl, true, false, none, some, List, [], ◌∷◌, ◌++◌, codes, text_eq,
}
use pgwarden.Plan.{ParallelDumpTableInfo, plan_data_jobs}
use pgwarden.Dump.{
  DumpParams, section_args, base_args, patterns_of_tables, queued_jobs, Arrival, run_parallel_dump,
  pre_data_file_name, post_data_file_name, write_chunks, chunks_fuel, parse_version, pg17,
}
use pgwarden.Go.Strings.{has_prefix}
use pgwarden.Dump.Args.{line_values, table_option, exclude_option, dump_covers}
use pgwarden.Dump.Archive.{errors_of, names_of, first_error, outcome, parallel_dump_outcome}

abbrev tables : List ParallelDumpTableInfo
tables =
    record { pattern = codes "public.events"; bytes = 300000000 }
    ∷ record { pattern = codes "public.users"; bytes = 20 }
    ∷ []

abbrev params : DumpParams
params = record {
  data_only = false;
  schema_only = false;
  clean = true;
  if_exists = false;
  create = true;
  no_comments = false;
  lock_wait_timeout = codes "10min";
  serializable_deferrable = false;
  compression_level = 3;
}

-- The database is created before the data only.
post_data_args :
    section_args (codes "host=a") (codes "0001") (codes "post-data") params false
    ≡ codes "host=a"
      ∷ codes "--snapshot=0001"
      ∷ codes "--lock-wait-timeout=10min"
      ∷ codes "--section=post-data"
      ∷ codes "--clean"
      ∷ []
unfolding section_args base_args text_eq
post_data_args = refl

version_17 : parse_version (codes "17") ≡ some pg17
unfolding parse_version text_eq
version_17 = refl

version_12 : parse_version (codes "12") ≡ none
unfolding parse_version text_eq
version_12 = refl

two_chunks : write_chunks (codes "abc") ≡ codes "abc" ∷ []
unfolding write_chunks chunks_fuel
two_chunks = refl

abbrev no_options : DumpParams
no_options = record {
  data_only = false;
  schema_only = false;
  clean = false;
  if_exists = false;
  create = false;
  no_comments = false;
  lock_wait_timeout = codes "10min";
  serializable_deferrable = false;
  compression_level = 3;
}

dump_covers_example :
    let values = line_values (codes "host=a") (codes "s1") no_options true in
    (values table_option (queued_jobs tables) ≡ patterns_of_tables tables)
    × (values exclude_option (take 1 (queued_jobs tables))
        ≡ values table_option (plan_data_jobs tables))
unfolding has_prefix
dump_covers_example = dump_covers tables (codes "host=a") (codes "s1") no_options true refl refl

abbrev arrivals : List Arrival
arrivals =
    record { name = codes "10-data-globals.sql"; error = none }
    ∷ record { name = codes "20-data-00001-a.sql"; error = some (codes "lost") }
    ∷ []

parallel_dump_outcome_example :
    run_parallel_dump none arrivals none none
    ≡ outcome
        (first_error (none ∷ (errors_of arrivals ++ none ∷ none ∷ [])))
        (pre_data_file_name ∷ (names_of arrivals ++ post_data_file_name ∷ []))
parallel_dump_outcome_example = parallel_dump_outcome none arrivals none none
