-- ===== src/Dump.antt =====
-- How pg_dump is called and how the archive of a parallel dump is put together:
-- internal/integration/postgres/postgres.go and parallel_dump.go. Running pg_dump, the compressor and
-- the zip writer are outside: what they produce is an argument.
pub mod Options
pub mod Args
pub mod Chunks
pub mod Archive
mod Tests
use pgwarden.Prelude.{
  ℕ, zero, suc, ◌+◌, ◌-◌, ◌*◌, ◌^◌, ◌≤◌, min, Bool, true, false, ◌&&◌, ◌||◌, not, Option, none,
  some, Result, ok, err, List, [], ◌∷◌, ◌++◌, map, Bytes, codes, text_eq, length, take, drop,
  is_empty, concat, leb, ltb, ◌==◌, if◌then◌else◌,
}
use pgwarden.Plan.{ParallelDumpJob, ParallelDumpTableInfo, plan_data_jobs}

pub record DumpParams : Type 0 where
  pub data_only : Bool
  pub schema_only : Bool
  pub clean : Bool
  pub if_exists : Bool
  pub create : Bool
  pub no_comments : Bool
  pub lock_wait_timeout : Bytes
  pub serializable_deferrable : Bool
  pub compression_level : ℕ

-- `if c { args = append(args, arg) }`
abbrev pub append_if : Bool → Bytes → List Bytes → List Bytes
append_if c arg args = if c then args ++ arg ∷ [] else args

-- The arguments of `Dump`; `verbose` is `log != nil`.
pub dump_args : Bytes → DumpParams → Bool → List Bytes
dump_args conn_string p verbose =
    let args = conn_string ∷ [] in
    let args = append_if p.data_only (codes "--data-only") args in
    let args = append_if p.schema_only (codes "--schema-only") args in
    let args = append_if p.clean (codes "--clean") args in
    let args = append_if p.if_exists (codes "--if-exists") args in
    let args = append_if p.create (codes "--create") args in
    let args = append_if p.no_comments (codes "--no-comments") args in
    let args =
      append_if (not (is_empty p.lock_wait_timeout))
        (codes "--lock-wait-timeout=" ++ p.lock_wait_timeout) args in
    let args = append_if p.serializable_deferrable (codes "--serializable-deferrable") args in
    append_if verbose (codes "--verbose") args

pub base_args : Bytes → Bytes → DumpParams → Bool → List Bytes
base_args conn_string snapshot p verbose =
    let args = conn_string ∷ (codes "--snapshot=" ++ snapshot) ∷ [] in
    let args =
      append_if (not (is_empty p.lock_wait_timeout))
        (codes "--lock-wait-timeout=" ++ p.lock_wait_timeout) args in
    append_if verbose (codes "--verbose") args

pub section_args : Bytes → Bytes → Bytes → DumpParams → Bool → List Bytes
section_args conn_string snapshot section p verbose =
    let args = base_args conn_string snapshot p verbose ++ (codes "--section=" ++ section) ∷ [] in
    let args = append_if p.clean (codes "--clean") args in
    let args = append_if p.if_exists (codes "--if-exists") args in
    let args = append_if p.no_comments (codes "--no-comments") args in
    append_if (p.create && text_eq section (codes "pre-data")) (codes "--create") args

pub with_prefix : Bytes → List Bytes → List Bytes
with_prefix prefix [] = []
with_prefix prefix (p ∷ ps) = (prefix ++ p) ∷ with_prefix prefix ps

pub data_args : Bytes → Bytes → ParallelDumpJob → DumpParams → Bool → List Bytes
data_args conn_string snapshot job p verbose =
    ((base_args conn_string snapshot p verbose ++ codes "--section=data" ∷ [])
      ++ with_prefix (codes "--table=") job.patterns)
    ++ with_prefix (codes "--exclude-table-data=") job.exclude

abbrev pub parallel_dump_max_exclude_args_len : ℕ
parallel_dump_max_exclude_args_len = 2 ^ 20

-- The length that the remainder job's exclusions take on a command line.
pub exclude_args_len : ℕ → List ParallelDumpTableInfo → ℕ
exclude_args_len n [] = n
exclude_args_len n (t ∷ tables) =
    exclude_args_len (n + (length (codes "--exclude-table-data=") + length t.pattern + 1)) tables

pub data PrepareError : Type 0 where
  unsupported : PrepareError
  failed : Bytes → PrepareError

-- The end of `prepareParallelDump`, once the snapshot is exported and the tables are listed.
pub check_tables : List ParallelDumpTableInfo → Result PrepareError (List ParallelDumpTableInfo)
check_tables tables =
    if ltb parallel_dump_max_exclude_args_len (exclude_args_len 0 tables)
    then err unsupported
    else ok tables

-- The number of workers that `runParallelDump` starts.
pub worker_count : ℕ → List ParallelDumpJob → ℕ
worker_count jobs data_jobs =
    let most = length data_jobs + 1 in
    let jobs = if ltb most jobs then most else jobs in if ltb jobs 1 then 1 else jobs

abbrev pub pre_data_file_name : Bytes
pre_data_file_name = codes "00-pre-data.sql"

abbrev pub globals_file_name : Bytes
globals_file_name = codes "10-data-globals.sql"

abbrev pub post_data_file_name : Bytes
post_data_file_name = codes "99-post-data.sql"

pub patterns_of_tables : List ParallelDumpTableInfo → List Bytes
patterns_of_tables [] = []
patterns_of_tables (t ∷ tables) = t.pattern ∷ patterns_of_tables tables

-- What `runParallelDump` puts into its queue: the remainder job, then the data jobs.
pub queued_jobs : List ParallelDumpTableInfo → List ParallelDumpJob
queued_jobs tables =
    record { patterns = []; exclude = patterns_of_tables tables; file_name = globals_file_name }
    ∷ plan_data_jobs tables

-- An entry as the writer meets it: its name, and the error that it ends with.
pub record Arrival : Type 0 where
  pub name : Bytes
  pub error : Option Bytes

abbrev pub name_if : Option Bytes → Bytes → List Bytes → List Bytes
name_if none name names = names ++ name ∷ []
name_if (some e) name names = names

-- The loop over `entries`, with `firstErr` and `fileNames`: what comes after an error is discarded.
unfoldable pub collect : Option Bytes → List Bytes → List Arrival → Option Bytes × List Bytes
collect first_err names [] = (first_err, names)
collect (some e) names (a ∷ arrivals) = collect (some e) names arrivals
collect none names (a ∷ arrivals) = collect a.error (name_if a.error a.name names) arrivals

abbrev pub after_data :
    Option Bytes × List Bytes → Option Bytes → Option Bytes → Result Bytes (List Bytes)
after_data (some e, names) post meta = err e
after_data (none, names) (some e) meta = err e
after_data (none, names) none (some e) = err e
after_data (none, names) none none = ok (names ++ post_data_file_name ∷ [])

-- `runParallelDump`: the result of the pre-data section, the entries in the order in which the workers
-- hand them in, the result of the post-data section and that of writing the manifest. It returns the
-- files of the manifest.
unfoldable pub run_parallel_dump :
    Option Bytes → List Arrival → Option Bytes → Option Bytes → Result Bytes (List Bytes)
run_parallel_dump (some e) arrivals post meta = err e
run_parallel_dump none arrivals post meta =
    after_data (collect none (pre_data_file_name ∷ []) arrivals) post meta

abbrev pub parallel_dump_chunk_size : ℕ
parallel_dump_chunk_size = 256 * 1024

-- countingChunkWriter.Write while its context lives: the chunks that are sent. The fuel is the
-- length of the text, since each chunk takes a byte at least.
pub chunks_fuel : ℕ → Bytes → List Bytes
chunks_fuel zero p = []
chunks_fuel (suc f) [] = []
chunks_fuel (suc f) (b ∷ p) =
    let n = min (length (b ∷ p)) parallel_dump_chunk_size in
    take n (b ∷ p) ∷ chunks_fuel f (drop n (b ∷ p))

pub write_chunks : Bytes → List Bytes
write_chunks p = chunks_fuel (length p) p

abbrev pub max_uint32 : ℕ
max_uint32 = 2 ^ 32 - 1

-- The 32-bit copy of a size, for the header of an entry.
pub size_mirror32 : ℕ → ℕ
size_mirror32 v = if leb max_uint32 v then max_uint32 else v

abbrev pub tail_buffer_max : ℕ
tail_buffer_max = 8 * 1024

-- tailBuffer.Write: the buffer keeps the last bytes.
pub tail_write : Bytes → Bytes → Bytes
tail_write buf p =
    let all = buf ++ p in
    if ltb tail_buffer_max (length all) then drop (length all - tail_buffer_max) all else all

-- ParseVersion; the versions are those of the pg_dump clients that the image holds.
pub data PgVersion : Type 0 where
  pg13 pg14 pg15 pg16 pg17 pg18 : PgVersion

unfoldable pub parse_version : Bytes → Option PgVersion
parse_version v =
    if text_eq v (codes "13")
    then some pg13
    else if text_eq v (codes "14")
    then some pg14
    else if text_eq v (codes "15")
    then some pg15
    else if text_eq v (codes "16")
    then some pg16
    else if text_eq v (codes "17")
    then some pg17
    else if text_eq v (codes "18")
    then some pg18
    else none
