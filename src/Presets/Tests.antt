-- ===== src/Presets/Tests.antt =====
-- A preset with one target, and a restore of its latest backup.
use pgwarden.Prelude.{◌≡◌, refl, none, some, ok, [], ◌∷◌, codes, All, text_eq}
use pgwarden.Go.Strings.{is_space, trim, trim_left, trim_right, trim_space, to_lower}
use pgwarden.Go.Strconv.{ℤ, itoa, itoa_fuel}
use pgwarden.Presets.{
  EndpointYaml, PresetYaml, PresetsFile, Target, Preset, at_preset, duplicate_id, parse_presets,
  normalize_presets, normalize_preset, normalize_targets, normalize_target, normalize_endpoint,
  normalize_environment, pbw_name, load_presets,
}
use pgwarden.Presets.Sound.{IsPreset, Fresh, ids, presets_load_sound}
use pgwarden.Presets.Start.{Calls, BackupRow}

abbrev production : EndpointYaml
production = record { host = codes " prod "; port = ℤ.pos 5432; database = codes "app"; owner = [] }

abbrev stage : EndpointYaml
stage = record production { host = codes "stage"; owner = codes "app_owner" }

abbrev item : PresetYaml
item = record {
  id = codes "app";
  title = codes "App";
  description = [];
  rbac = record { view_group = []; execute_group = [] };
  source = production;
  targets = record { environment = codes " Stage"; endpoint = stage } ∷ [];
}

abbrev file : PresetsFile
file = record { admin_group = []; presets = item ∷ [] }

abbrev stage_target : Target
stage_target = record {
  environment = codes "stage";
  endpoint = record {
    host = codes "stage";
    port = 5432;
    database = codes "app";
    owner = codes "app_owner";
    pbw_name = codes "stage:5432-app";
  };
  tag = [];
}

abbrev preset : Preset
preset = record {
  id = codes "app";
  title = codes "App";
  description = [];
  rbac = record { view_group = []; execute_group = [] };
  source = record {
    host = codes "prod";
    port = 5432;
    database = codes "app";
    owner = [];
    pbw_name = codes "prod:5432-app";
  };
  targets = stage_target ∷ [];
}

loads : parse_presets (ok file) ≡ ok (preset ∷ [], [])
unfolding parse_presets normalize_presets normalize_preset normalize_targets normalize_target
    normalize_endpoint normalize_environment pbw_name itoa itoa_fuel is_space trim trim_left
    trim_right trim_space to_lower text_eq
loads = refl

-- A second preset of the same id is refused, and the presets loaded before stay.
refuses :
    load_presets
      (record { presets = preset ∷ []; admin_group = [] })
      (ok (record file { presets = item ∷ item ∷ [] }))
    ≡ (
      some (at_preset 1 (duplicate_id (codes "app"))),
      record { presets = preset ∷ []; admin_group = [] },
    )
unfolding load_presets parse_presets normalize_presets normalize_preset normalize_targets
    normalize_target normalize_endpoint normalize_environment pbw_name itoa itoa_fuel is_space trim
    trim_left trim_right trim_space to_lower text_eq
refuses = refl

presets_load_sound_example : All IsPreset (preset ∷ []) × Fresh [] (ids (preset ∷ []))
presets_load_sound_example = presets_load_sound file (preset ∷ []) [] loads

abbrev backup : BackupRow
backup = record {
  id = 3;
  finished_at = some 1000;
  path = some (codes "/dump.zip");
  pg_version = codes "17";
}

abbrev answers : Calls
answers = record {
  get_all_databases = ok ((codes "stage:5432-app", 4) ∷ []);
  get_database = λ id. ok (codes "stage:5432-app", codes "postgres://stage/app");
  latest_success = λ name. ok backup;
  success_by_id = λ name id. ok backup;
  success_between = λ name day_start day_end. ok backup;
  psql_query = λ v conn sql. ok (codes "1");
  quote_literal = λ text. text;
  parse_url = λ url. some (record {
    hostname = codes "stage";
    port = [];
    path = codes "/app";
    raw_query = [];
    user = none;
    query = [];
  });
  marshal = λ params. params.op;
  insert = λ row. ok 9;
}
