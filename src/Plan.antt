-- ===== src/Plan.antt =====
-- internal/integration/postgres/parallel_dump.go: which tables each pg_dump process of a parallel
-- dump takes, and the names of the files of the archive. Sizes are those of `pg_table_size`, which
-- are not negative; a sum of them that passes 2^63 is out of the model.
pub mod Partition
pub mod Names
mod Tests
use pgwarden.Prelude.{
  ℕ, suc, ◌+◌, ◌-◌, ◌*◌, ◌^◌, ◌≤◌, Bool, true, false, ◌&&◌, ◌||◌, not, List, [], ◌∷◌, ◌++◌, map,
  Bytes, codes, length, take, is_empty, leb, ltb, ◌==◌, if◌then◌else◌,
}
use pgwarden.Go.Strings.{remove_all}
use pgwarden.Go.Strconv.{itoa, is_digit}

abbrev pub parallel_dump_solo_bytes : ℕ
parallel_dump_solo_bytes = 256 * 1024 * 1024

abbrev pub parallel_dump_batch_bytes : ℕ
parallel_dump_batch_bytes = 256 * 1024 * 1024

abbrev pub parallel_dump_batch_max_count : ℕ
parallel_dump_batch_max_count = 200

pub record ParallelDumpJob : Type 0 where
  pub patterns : List Bytes
  pub exclude : List Bytes
  pub file_name : Bytes

pub record ParallelDumpTableInfo : Type 0 where
  pub pattern : Bytes
  pub bytes : ℕ

-- The bytes that `[^A-Za-z0-9_.-]` does not match.
allowed_in_entry : ℕ → Bool
unfolding is_digit
allowed_in_entry c =
    (leb b'A' c && leb c b'Z')
    || (leb b'a' c && leb c b'z')
    || is_digit c
    || c == b'_'
    || c == b'.'
    || c == b'-'

-- Each run of other bytes becomes one `_`; `in_run` says that the byte before is in such a run.
replace_runs : Bool → Bytes → Bytes
unfolding allowed_in_entry
replace_runs in_run [] = []
replace_runs in_run (c ∷ s) =
    let rest = replace_runs (not (allowed_in_entry c)) s in
    if allowed_in_entry c then c ∷ rest else if in_run then rest else b'_' ∷ rest

pub sanitize_entry_name : Bytes → Bytes
unfolding replace_runs remove_all
sanitize_entry_name s = take 120 (replace_runs false (remove_all b'"' s))

abbrev zeros : ℕ → Bytes
zeros ℕ.zero = []
zeros (suc n) = b'0' ∷ zeros n

-- `%05d`
pub pad5 : ℕ → Bytes
unfolding itoa
pad5 n = let digits = itoa n in zeros (5 - length digits) ++ digits

-- The name of the file of the job that follows `jobs`.
pub solo_name : List ParallelDumpJob → Bytes → Bytes
unfolding pad5 sanitize_entry_name
solo_name jobs pattern =
    codes "20-data-"
    ++ (pad5 (length jobs + 1) ++ (b'-' ∷ (sanitize_entry_name pattern ++ codes ".sql")))

pub batch_name : List ParallelDumpJob → Bytes
unfolding pad5
batch_name jobs = codes "20-data-" ++ (pad5 (length jobs + 1) ++ codes "-batch.sql")

-- The variables of `planDataJobs` while it groups the small tables.
pub record PlanState : Type 0 where
  pub jobs : List ParallelDumpJob
  pub batch : List Bytes
  pub batch_bytes : ℕ

-- The function `flush` in `planDataJobs`.
pub flush : PlanState → PlanState
flush s = if is_empty s.batch then s else record {
  jobs = s.jobs ++ record { patterns = s.batch; exclude = []; file_name = batch_name s.jobs } ∷ [];
  batch = [];
  batch_bytes = 0;
}

pub batch_is_full : PlanState → ParallelDumpTableInfo → Bool
batch_is_full s t =
    not (is_empty s.batch)
    && (ltb parallel_dump_batch_bytes (s.batch_bytes + t.bytes)
        || leb parallel_dump_batch_max_count (length s.batch))

-- One round of the second loop.
pub add_to_batch : PlanState → ParallelDumpTableInfo → PlanState
add_to_batch s t =
    let s' = if batch_is_full s t then flush s else s in
    record s' { batch = s'.batch ++ t.pattern ∷ []; batch_bytes = s'.batch_bytes + t.bytes }

pub batch_loop : PlanState → List ParallelDumpTableInfo → PlanState
batch_loop s [] = s
batch_loop s (t ∷ tables) = batch_loop (add_to_batch s t) tables

-- The job that `t` has to itself.
pub solo_job : List ParallelDumpJob → ParallelDumpTableInfo → ParallelDumpJob
solo_job jobs t = record {
  patterns = t.pattern ∷ [];
  exclude = [];
  file_name = solo_name jobs t.pattern;
}

-- The first loop, which goes on into the second one at the first small table.
pub solo_loop : List ParallelDumpJob → List ParallelDumpTableInfo → PlanState
solo_loop jobs [] = record { jobs = jobs; batch = []; batch_bytes = 0 }
solo_loop jobs (t ∷ tables) =
    let solo = solo_loop (jobs ++ solo_job jobs t ∷ []) tables in
    let batches = batch_loop (record { jobs = jobs; batch = []; batch_bytes = 0 }) (t ∷ tables) in
    if leb parallel_dump_solo_bytes t.bytes then solo else batches

pub plan_data_jobs : List ParallelDumpTableInfo → List ParallelDumpJob
plan_data_jobs tables = (flush (solo_loop [] tables)).jobs
