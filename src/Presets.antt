-- ===== src/Presets.antt =====
-- The restore presets: internal/service/restorations/presets.go and presets_load.go. yaml.Unmarshal is an
-- argument, and its result starts here. An error keeps the place and what is wrong there.
pub mod Sound
pub mod Start
pub mod Offers
mod Tests
use pgwarden.Prelude.{
  ℕ, zero, suc, ◌+◌, Bool, true, false, not, ◌||◌, Option, none, some, Result, ok, err, ◌>>=◌, ◌>>◌,
  guard, List, [], ◌∷◌, ◌++◌, Bytes, codes, text_eq, is_empty, any, if◌then◌else◌,
}
use pgwarden.Go.Strings.{trim_space, to_lower}
use pgwarden.Go.Strconv.{ℤ, less, exceeds, pos_part, itoa}

pub record EndpointYaml : Type 0 where
  pub host : Bytes
  pub port : ℤ
  pub database : Bytes
  pub owner : Bytes

pub record TargetYaml : Type 0 where
  pub environment : Bytes
  pub endpoint : EndpointYaml

pub record Rbac : Type 0 where
  pub view_group : Bytes
  pub execute_group : Bytes

pub record PresetYaml : Type 0 where
  pub id : Bytes
  pub title : Bytes
  pub description : Bytes
  pub rbac : Rbac
  pub source : EndpointYaml
  pub targets : List TargetYaml

pub record PresetsFile : Type 0 where
  pub admin_group : Bytes
  pub presets : List PresetYaml

pub record Endpoint : Type 0 where
  pub host : Bytes
  pub port : ℕ
  pub database : Bytes
  pub owner : Bytes
  pub pbw_name : Bytes

pub record Target : Type 0 where
  pub environment : Bytes
  pub endpoint : Endpoint
  pub tag : Bytes

pub record Preset : Type 0 where
  pub id : Bytes
  pub title : Bytes
  pub description : Bytes
  pub rbac : Rbac
  pub source : Endpoint
  pub targets : List Target

pub data Fault : Type 0 where
  id_required title_required host_required bad_port database_required : Fault
  environment_required : Fault
  duplicate_environment : Bytes → Fault
  duplicate_id : Bytes → Fault

pub data PresetError : Type 0 where
  bad_yaml : Bytes → PresetError
  empty_list : PresetError
  at_preset : (index : ℕ) → Fault → PresetError
  at_source : (index : ℕ) → Fault → PresetError
  at_target : (index target : ℕ) → Fault → PresetError

-- pbwName
unfoldable pub pbw_name : Bytes → ℕ → Bytes → Bytes
unfolding itoa
pbw_name host port database = host ++ (b':' ∷ (itoa port ++ (b'-' ∷ database)))

unfoldable pub normalize_environment : Bytes → Bytes
unfolding to_lower trim_space
normalize_environment raw = to_lower (trim_space raw)

-- normalizeEndpointYAML; `place` puts a fault where it belongs.
unfoldable pub normalize_endpoint :
    (Fault → PresetError) → EndpointYaml → Result PresetError Endpoint
normalize_endpoint place item = do
  let host = trim_space item.host
  let database = trim_space item.database
  guard (not (is_empty host)) (place host_required)
  guard (not (less item.port 1 || exceeds item.port 65535)) (place bad_port)
  guard (not (is_empty database)) (place database_required)
  ok (record {
    host = host;
    port = pos_part item.port;
    database = database;
    owner = trim_space item.owner;
    pbw_name = pbw_name host (pos_part item.port) database;
  })

-- normalizeTargetYAML, with the environments seen before
unfoldable pub normalize_target :
    (Fault → PresetError) → List Bytes → TargetYaml → Result PresetError Target
normalize_target place seen item = do
  let environment = normalize_environment item.environment
  guard (not (is_empty environment)) (place environment_required)
  guard (not (any (text_eq environment) seen)) (place (duplicate_environment environment))
  endpoint ← normalize_endpoint place item.endpoint
  ok (record { environment = environment; endpoint = endpoint; tag = [] })

-- The loop over the targets of the preset `index`, from target `i` on.
unfoldable pub normalize_targets :
    (index i : ℕ) → List Bytes → List TargetYaml → Result PresetError (List Target)
normalize_targets index i seen [] = ok []
normalize_targets index i seen (item ∷ items) = do
  target ← normalize_target (at_target index i) seen item
  targets ← normalize_targets index (suc i) (target.environment ∷ seen) items
  ok (target ∷ targets)

-- normalizePresetYAML
unfoldable pub normalize_preset : ℕ → PresetYaml → Result PresetError Preset
normalize_preset index item = do
  guard (not (is_empty (trim_space item.id))) (at_preset index id_required)
  guard (not (is_empty (trim_space item.title))) (at_preset index title_required)
  source ← normalize_endpoint (at_source index) item.source
  targets ← normalize_targets index 0 [] item.targets
  ok (record {
    id = trim_space item.id;
    title = trim_space item.title;
    description = trim_space item.description;
    rbac = item.rbac;
    source = source;
    targets = targets;
  })

-- The loop over the presets, from preset `i` on, with the ids seen before.
unfoldable pub normalize_presets :
    ℕ → List Bytes → List PresetYaml → Result PresetError (List Preset)
normalize_presets i seen [] = ok []
normalize_presets i seen (item ∷ items) = do
  preset ← normalize_preset i item
  guard (not (any (text_eq preset.id) seen)) (at_preset i (duplicate_id preset.id))
  presets ← normalize_presets (suc i) (preset.id ∷ seen) items
  ok (preset ∷ presets)

abbrev file_or : Result Bytes PresetsFile → Result PresetError PresetsFile
file_or (ok file) = ok file
file_or (err e) = err (bad_yaml e)

-- parsePresetsYAML
unfoldable pub parse_presets : Result Bytes PresetsFile → Result PresetError (List Preset × Bytes)
parse_presets unmarshalled = do
  file ← file_or unmarshalled
  guard (not (is_empty file.presets)) empty_list
  presets ← normalize_presets 0 [] file.presets
  ok (presets, trim_space file.admin_group)

-- The presets and the admin group that the handlers read, restorePresets and restoreAdminGroup.
pub record Loaded : Type 0 where
  pub presets : List Preset
  pub admin_group : Bytes

abbrev pub keep_or : Loaded → Result PresetError (List Preset × Bytes) → Option PresetError × Loaded
keep_or old (ok (presets, admin)) = (none, record { presets = presets; admin_group = admin })
keep_or old (err e) = (some e, old)

-- LoadPresetsFromBytes: the presets are replaced, unless there is an error.
unfoldable pub load_presets : Loaded → Result Bytes PresetsFile → Option PresetError × Loaded
load_presets old unmarshalled = keep_or old (parse_presets unmarshalled)

-- The loop of findRestorePreset; the map of aliases is empty.
unfoldable pub find_restore_preset : List Preset → Bytes → Option Preset
find_restore_preset [] id = none
find_restore_preset (p ∷ presets) id =
    let rest = find_restore_preset presets id in if text_eq p.id id then some p else rest

unfoldable pub find_target : List Target → Bytes → Option Target
find_target [] environment = none
find_target (t ∷ targets) environment =
    let rest = find_target targets environment in
    if text_eq t.environment environment then some t else rest

-- findRestoreTargetByEnvironment
unfoldable pub find_restore_target_by_environment : Preset → Bytes → Option Target
find_restore_target_by_environment preset environment =
    find_target preset.targets (normalize_environment environment)
