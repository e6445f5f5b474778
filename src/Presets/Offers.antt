-- ===== src/Presets/Offers.antt =====
-- What a restore that was accepted is about.
use pgwarden.Prelude.{ℕ, ◌≡◌, some, ok, List, Bytes, In}
use pgwarden.Dump.{PgVersion, parse_version}
use pgwarden.Presets.{Preset, Target, normalize_environment}
use pgwarden.Presets.Start.{
  Calls, BackupRow, EnqueueParams, Selection, resolve_execution, preflight_target,
}

-- The target that a request names is one of the presets'.
pub record IsRequested (presets : List Preset) (id env : Bytes) (p : Preset) (t : Target)
    : Type 0 where
  pub listed : In p presets
  pub named : p.id ≡ id
  pub offered : In t p.targets
  pub environment : t.environment ≡ normalize_environment (normalize_environment env)

-- What goes into the queue restores this backup into this target.
pub record IsRestoreOf (calls : Calls) (selection : Selection) (p : Preset) (t : Target)
    (params : EnqueueParams) : Type 0 where
  pub aimed : params.target ≡ (t.endpoint.database, t.endpoint.owner)
  pub name : params.target_pbw_name ≡ t.endpoint.pbw_name
  pub backup : BackupRow
  pub selected : resolve_execution calls p.source.pbw_name selection ≡ ok backup
  pub same_execution : params.execution_id ≡ backup.id
  pub finished : (at : ℕ) × (backup.finished_at ≡ some at)
  pub version : PgVersion
  pub known : parse_version backup.pg_version ≡ some version
  pub checked : preflight_target calls version params.conn_string t.endpoint.owner ≡ ok tt
