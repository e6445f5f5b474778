-- ===== src/Unpack.antt =====
-- internal/integration/postgres/restore.go: how the files of a backup's archive are fed to psql. The zip
-- format and json.Unmarshal are outside; psql's answer for a file is an argument. An archive is the list
-- of its entries, and of entries of one name the last counts.
pub mod Phase
pub mod Ends
pub mod Drains
pub mod Order
mod Tests
use pgwarden.Prelude.{
  ℕ, max, min, Bool, true, false, Option, none, some, Result, ok, err, ◌>>=◌, ◌>>◌, guard, List, [],
  ◌∷◌, ◌++◌, Bytes, codes, text_eq, length, is_empty, not, if◌then◌else◌,
}
use pgwarden.Dump.{pre_data_file_name, post_data_file_name}

-- An entry of the archive: its name and its text.
pub record ZipFile : Type 0 where
  pub name : Bytes
  pub text : Bytes

pub record Manifest : Type 0 where
  pub format : Bytes
  pub files : List Bytes

abbrev or_last : Option ZipFile → Option ZipFile → Option ZipFile
or_last none f = f
or_last (some g) f = some g

-- files[name]
unfoldable pub find_file : List ZipFile → Bytes → Option ZipFile
find_file [] name = none
find_file (f ∷ files) name =
    let rest = find_file files name in or_last rest (if text_eq f.name name then some f else none)

abbrev pub backup_zip_dump_file : Bytes
backup_zip_dump_file = codes "dump.sql"

abbrev pub manifest_file_name : Bytes
manifest_file_name = codes "manifest.json"

abbrev pub parallel_dump_format : Bytes
parallel_dump_format = codes "pgwarden-parallel-v1"

pub data UnpackError : Type 0 where
  -- neither dump.sql nor manifest.json
  no_dump : UnpackError
  bad_manifest : Bytes → UnpackError
  unsupported_format : Bytes → UnpackError
  empty_file_list : UnpackError
  -- a file of the manifest that the archive does not have
  missing_file : Bytes → UnpackError
  -- psql's error, for the file dump.sql and for a file of a parallel dump
  restore_failed : Bytes → UnpackError
  file_failed : (name error : Bytes) → UnpackError

abbrev manifest_or : Result Bytes Manifest → Result UnpackError Manifest
manifest_or (ok m) = ok m
manifest_or (err e) = err (bad_manifest e)

-- readRestoreManifest
pub read_restore_manifest : (Bytes → Result Bytes Manifest) → ZipFile → Result UnpackError Manifest
read_restore_manifest unmarshal file = do
  manifest ← manifest_or (unmarshal file.text)
  guard (text_eq manifest.format parallel_dump_format) (unsupported_format manifest.format)
  guard (not (is_empty manifest.files)) empty_file_list
  ok manifest

-- preData, postData and dataFiles.
pub record Parts : Type 0 where
  pub pre_data : Option ZipFile
  pub post_data : Option ZipFile
  pub data_files : List ZipFile

abbrev pub no_parts : Parts
no_parts = record { pre_data = none; post_data = none; data_files = [] }

-- The switch on the name.
pub add_part : Parts → Bytes → ZipFile → Parts
add_part parts name f =
    if text_eq name pre_data_file_name
    then record parts { pre_data = some f }
    else if text_eq name post_data_file_name
    then record parts { post_data = some f }
    else record parts { data_files = parts.data_files ++ f ∷ [] }

abbrev pub found : Bytes → Option ZipFile → Result UnpackError ZipFile
found name none = err (missing_file name)
found name (some f) = ok f

-- The loop over manifest.Files.
pub sort_parts : List ZipFile → Parts → List Bytes → Result UnpackError Parts
sort_parts files parts [] = ok parts
sort_parts files parts (name ∷ names) =
    found name (find_file files name) >>= λ f. sort_parts files (add_part parts name f) names

-- The number of goroutines of restoreDataFiles; it starts none for no files.
unfoldable pub data_workers : ℕ → List ZipFile → ℕ
data_workers jobs files = max 1 (min jobs (length files))

abbrev pub file_error : ZipFile → Option Bytes → Option UnpackError
file_error f none = none
file_error f (some e) = some (file_failed f.name e)

abbrev pub restored_part : (ZipFile → Option Bytes) → Option ZipFile → Option UnpackError
restored_part psql none = none
restored_part psql (some f) = file_error f (psql f)

abbrev pub unit_or : Option UnpackError → Result UnpackError (Unit {0})
unit_or none = ok tt
unit_or (some e) = err e

-- restoreParallelDump. `data_phase` is what restoreDataFiles returns for its files.
pub restore_parallel_dump :
    (ZipFile → Option Bytes)
    → (List ZipFile → Option UnpackError)
    → List ZipFile
    → Manifest
    → Result UnpackError (Unit {0})
restore_parallel_dump psql data_phase files manifest = do
  parts ← sort_parts files no_parts manifest.files
  unit_or (restored_part psql parts.pre_data)
  unit_or (data_phase parts.data_files)
  unit_or (restored_part psql parts.post_data)

abbrev whole_dump : Option Bytes → Result UnpackError (Unit {0})
whole_dump none = ok tt
whole_dump (some e) = err (restore_failed e)

pub restore_manifest :
    (Bytes → Result Bytes Manifest)
    → (ZipFile → Option Bytes)
    → (List ZipFile → Option UnpackError)
    → List ZipFile
    → Option ZipFile
    → Result UnpackError (Unit {0})
restore_manifest unmarshal psql data_phase files none = err no_dump
restore_manifest unmarshal psql data_phase files (some f) =
    read_restore_manifest unmarshal f >>= restore_parallel_dump psql data_phase files

pub restore_dump_or :
    (Bytes → Result Bytes Manifest)
    → (ZipFile → Option Bytes)
    → (List ZipFile → Option UnpackError)
    → List ZipFile
    → Option ZipFile
    → Result UnpackError (Unit {0})
restore_dump_or unmarshal psql data_phase files (some f) = whole_dump (psql f)
restore_dump_or unmarshal psql data_phase files none =
    restore_manifest unmarshal psql data_phase files (find_file files manifest_file_name)

-- restoreFromZipReaderAt, once the archive has been opened
pub restore_from_zip :
    (Bytes → Result Bytes Manifest)
    → (ZipFile → Option Bytes)
    → (List ZipFile → Option UnpackError)
    → List ZipFile
    → Result UnpackError (Unit {0})
restore_from_zip unmarshal psql data_phase files =
    restore_dump_or unmarshal psql data_phase files (find_file files backup_zip_dump_file)
