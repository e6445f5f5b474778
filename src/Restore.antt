-- ===== src/Restore.antt =====
-- The restorations (internal/service/restorations): what a job is given, what it does and in which
-- order. A job acts on the table of restorations and, through psql, on the target server; each action is
-- an entry of its trace. The answers of the other systems are arguments, as functions of what they are
-- asked.
pub mod Admin
pub mod Checks
pub mod Job
pub mod Traces
pub mod Settles
pub mod Guarded
mod Tests
use pgwarden.Prelude.{
  ℕ, Bool, Option, none, some, Result, ok, err, List, [], ◌∷◌, ◌++◌, Bytes, codes,
}
use pgwarden.Dump.{PgVersion}
use pgwarden.Conn.{Uri}

pub data Status : Type 0 where
  queued running success failed : Status

-- RestorationsServiceUpdateRestorationParams; `none` leaves a column as it is.
pub record UpdateParams : Type 0 where
  pub id : ℕ
  pub status : Option Status
  pub message : Option Bytes
  pub log_tail : Option Bytes
  pub finished_at : Option ℕ

abbrev pub no_update : ℕ → UpdateParams
no_update id = record {
  id = id;
  status = none;
  message = none;
  log_tail = none;
  finished_at = none;
}

-- RestoreTargetOptions
pub record RestoreTargetOptions : Type 0 where
  pub database_name : Bytes
  pub owner : Bytes

pub record RunRestorationParams : Type 0 where
  pub execution_id : ℕ
  pub database_id : Option ℕ
  pub conn_string : Bytes
  pub existing_restoration_id : Option ℕ
  pub target : Option RestoreTargetOptions

-- The part of a registered database that a job reads.
pub record Database : Type 0 where
  pub name : Bytes
  pub decrypted_connection_string : Bytes

-- The part of an execution that a job reads; `succeeded` says that its status is "success".
pub record Execution : Type 0 where
  pub succeeded : Bool
  pub path : Option Bytes
  pub database_pg_version : Bytes

-- The row of ExecutionsServiceGetDownloadLinkOrPathData.
pub record DownloadData : Type 0 where
  pub is_local : Bool
  pub path : Option Bytes
  pub bucket_name : Option Bytes
  pub region : Option Bytes
  pub endpoint : Option Bytes
  pub decrypted_access_key : Bytes
  pub decrypted_secret_key : Bytes

pub record RestoreFile : Type 0 where
  pub is_local : Bool
  pub path : Bytes
  pub bucket : Bytes
  pub region : Bytes
  pub endpoint : Bytes
  pub access_key : Bytes
  pub secret_key : Bytes

-- What a job does to the table and to the target server.
pub data Action : Type 0 where
  update : UpdateParams → Action
  psql_command : PgVersion → (conn sql : Bytes) → Action
  psql_script : PgVersion → (conn : Bytes) → (owner database : Bytes) → Action
  restore_zip : PgVersion → (conn : Bytes) → RestoreFile → Action
  psql_test : PgVersion → (conn : Bytes) → Action

pub data CreateError : Type 0 where
  unique_violation : CreateError
  other : Bytes → CreateError

-- What the other systems answer.
pub record Calls : Type 0 where
  pub get_database : ℕ → Result Bytes Database
  pub create_restoration : Option Bytes → Result CreateError ℕ
  pub get_execution : ℕ → Result Bytes Execution
  pub get_download_data : ℕ → Result Bytes DownloadData
  pub local_get_full_path : Bytes → Bytes
  pub s3_object_size : RestoreFile → Option Bytes
  pub parse_url : Bytes → Option Uri
  pub url_error : Bytes → Bytes
  pub quote_identifier : Bytes → Bytes
  pub quote_literal : Bytes → Bytes
  pub test : PgVersion → Bytes → Option Bytes
  pub psql : PgVersion → Bytes → Bytes → Option Bytes
  pub reassign : PgVersion → Bytes → Bytes → Bytes → Option Bytes
  pub restore_from_zip : PgVersion → Bytes → RestoreFile → Option Bytes
  pub update_restoration : UpdateParams → Option Bytes
  pub now : ℕ
  pub log_lines : List Bytes

-- How an action that the job waits for ends. The error of an update is dropped.
pub answer : Calls → Action → Option Bytes
answer calls (update u) = none
answer calls (psql_command v conn sql) = calls.psql v conn sql
answer calls (psql_script v conn owner database) = calls.reassign v conn owner database
answer calls (restore_zip v conn file) = calls.restore_from_zip v conn file
answer calls (psql_test v conn) = calls.test v conn

-- A part of a job: its actions, in order, and its result.
pub record Traced (A : Type 0) : Type 0 where
  pub trace : List Action
  pub result : Result Bytes A

pub go_on : {A B : Type 0} → List Action → Result Bytes A → (A → Traced B) → Traced B
go_on t (ok a) f = let rest = f a in record { trace = t ++ rest.trace; result = rest.result }
go_on t (err e) f = record { trace = t; result = err e }

infixl 5 ◌>>=◌ ◌>>◌
pub ◌>>=◌ : {A B : Type 0} → Traced A → (A → Traced B) → Traced B
m >>= f = go_on m.trace m.result f

abbrev pub ◌>>◌ : {A B : Type 0} → Traced A → Traced B → Traced B
m >> k = m >>= λ _. k

-- A part that only reads.
abbrev pub lift : {A : Type 0} → Result Bytes A → Traced A
lift r = record { trace = []; result = r }

abbrev pub fault : Option Bytes → Result Bytes (Unit {0})
fault none = ok tt
fault (some e) = err e

-- fmt.Errorf("…: %w", err)
abbrev pub prefixed {ℓ} : {A : Type ℓ} → Bytes → Result Bytes A → Result Bytes A
prefixed text (ok a) = ok a
prefixed text (err e) = err (text ++ e)

pub with_text : {A : Type 0} → Bytes → Traced A → Traced A
with_text text m = record { trace = m.trace; result = prefixed text m.result }

-- One action, and how it ends.
pub act : Calls → Action → Traced (Unit {0})
act calls a = record { trace = a ∷ []; result = fault (answer calls a) }

-- setMessage
pub set_message : Calls → ℕ → Bytes → Traced (Unit {0})
set_message calls id message = act calls (update (record (no_update id) { message = some message }))
