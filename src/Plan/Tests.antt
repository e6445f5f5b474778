-- ===== src/Plan/Tests.antt =====
-- A plan for a large table and two small ones.
use pgwarden.Prelude.{◌≡◌, ◌≢◌, refl, List, [], ◌∷◌, codes, concat, arith, some, get_elem?}
use pgwarden.Plan.{
  ParallelDumpJob, ParallelDumpTableInfo, solo_job, solo_loop, batch_loop, add_to_batch,
  batch_is_full, flush, batch_name, plan_data_jobs, sanitize_entry_name, replace_runs,
  allowed_in_entry, pad5,
}
use pgwarden.Plan.Partition.{Takes, plan_partition}
use pgwarden.Plan.Names.{plan_names_distinct}
use pgwarden.Go.Strconv.{itoa, is_digit}
use pgwarden.Go.Strings.{remove_all}

abbrev events : ParallelDumpTableInfo
events = record { pattern = codes "public.events"; bytes = 300000000 }

abbrev users : ParallelDumpTableInfo
users = record { pattern = codes "public.users"; bytes = 200000000 }

abbrev roles : ParallelDumpTableInfo
roles = record { pattern = codes "public.roles"; bytes = 100000000 }

abbrev tables : List ParallelDumpTableInfo
tables = events ∷ users ∷ roles ∷ []

abbrev users_job : ParallelDumpJob
users_job = record {
  patterns = codes "public.users" ∷ [];
  exclude = [];
  file_name = codes "20-data-00002-batch.sql";
}

clean_name : sanitize_entry_name (codes "\"My Schema\".orders") ≡ codes "My_Schema.orders"
unfolding sanitize_entry_name replace_runs allowed_in_entry is_digit remove_all
clean_name = refl

second_job : get_elem? (plan_data_jobs tables) 1 ≡ some users_job
unfolding plan_data_jobs solo_loop solo_job batch_loop add_to_batch batch_is_full flush batch_name
    pad5 itoa
second_job = refl

first_job : get_elem? (plan_data_jobs tables) 0 ≡ some (solo_job [] events)
unfolding plan_data_jobs solo_loop solo_job batch_loop add_to_batch batch_is_full flush
first_job = refl

plan_partition_example :
    (groups : List (List ParallelDumpTableInfo)) × Takes (plan_data_jobs tables) groups
    × (concat groups ≡ tables)
plan_partition_example = plan_partition tables

plan_names_distinct_example : (solo_job [] events).file_name ≢ users_job.file_name
plan_names_distinct_example =
    plan_names_distinct tables 0 1 (solo_job [] events) users_job first_job second_job (omega arith)
