-- ===== src/Presets/Sound.antt =====
-- What holds of the presets that were loaded.
use pgwarden.Prelude.{
  ℕ, suc, ◌≤◌, ◌≡◌, refl, ap, subst, Bool, true, false, not, ◌||◌, ok, ok_inj, ok≢err, bind-ok,
  guard, List, [], ◌∷◌, Bytes, text_eq, is_empty, any, All, arith,
}
use pgwarden.Go.Strings.{trim_space}
use pgwarden.Go.Strconv.{ℤ, less, exceeds, pos_part}
use pgwarden.Presets.{
  EndpointYaml, TargetYaml, PresetYaml, PresetsFile, Endpoint, Target, Preset, Fault, PresetError,
  at_preset, at_source, at_target, host_required, bad_port, database_required, environment_required,
  duplicate_environment, duplicate_id, id_required, title_required, empty_list, normalize_endpoint,
  normalize_target, normalize_targets, normalize_preset, normalize_presets, normalize_environment,
  parse_presets, pbw_name,
}

-- Different texts, none of which has been seen.
abbrev pub Fresh : List Bytes → List Bytes → Type 0
Fresh seen [] = Unit
Fresh seen (x ∷ xs) = (any (text_eq x) seen ≡ false) × Fresh (x ∷ seen) xs

abbrev pub environments : List Target → List Bytes
environments [] = []
environments (t ∷ targets) = t.environment ∷ environments targets

abbrev pub ids : List Preset → List Bytes
ids [] = []
ids (p ∷ presets) = p.id ∷ ids presets

pub record IsEndpoint (e : Endpoint) : Type 0 where
  pub has_host : is_empty e.host ≡ false
  pub has_database : is_empty e.database ≡ false
  pub low : 1 ≤ e.port
  pub high : e.port ≤ 65535
  pub named : e.pbw_name ≡ pbw_name e.host e.port e.database

pub record IsTarget (t : Target) : Type 0 where
  pub has_environment : is_empty t.environment ≡ false
  pub untagged : t.tag ≡ []
  pub endpoint : IsEndpoint t.endpoint

pub record IsPreset (p : Preset) : Type 0 where
  pub has_id : is_empty p.id ≡ false
  pub has_title : is_empty p.title ≡ false
  pub source : IsEndpoint p.source
  pub targets : All IsTarget p.targets
  pub distinct : Fresh [] (environments p.targets)

guard-not : (b : Bool) (e : PresetError) (u : Unit {0}) → guard (not b) e ≡ ok u → b ≡ false
guard-not true e u h = absurd (ok≢err h)
guard-not false e u h = refl

in_range :
    (port : ℤ)
    → (less port 1 || exceeds port 65535) ≡ false
    → (1 ≤ pos_part port) × (pos_part port ≤ 65535)
in_range (ℤ.pos n) h = ground arith
in_range (ℤ.negsuc n) h = absurd (cc)

endpoint-IsEndpoint :
    (place : Fault → PresetError) (item : EndpointYaml) (e : Endpoint)
    → normalize_endpoint place item ≡ ok e
    → IsEndpoint e
unfolding normalize_endpoint
endpoint-IsEndpoint place item e h =
    let bad = less item.port 1 || exceeds item.port 65535 in
    let (u, (host, h1)) =
      bind-ok (guard (not (is_empty (trim_space item.host))) (place host_required)) _ e h in
    let (v, (port, h2)) = bind-ok (guard (not bad) (place bad_port)) _ e h1 in
    let (w, (database, h3)) =
      bind-ok (guard (not (is_empty (trim_space item.database))) (place database_required)) _ e
        h2 in
    let (low, high) = in_range item.port (guard-not bad (place bad_port) v port) in
    subst IsEndpoint (ok_inj h3) (record {
      has_host = guard-not _ (place host_required) u host;
      has_database = guard-not _ (place database_required) w database;
      low = low;
      high = high;
      named = refl;
    })

target-IsTarget :
    (place : Fault → PresetError) (seen : List Bytes) (item : TargetYaml) (t : Target)
    → normalize_target place seen item ≡ ok t
    → IsTarget t × (any (text_eq t.environment) seen ≡ false)
unfolding normalize_target
target-IsTarget place seen item t h =
    let env = normalize_environment item.environment in
    let (u, (present, h1)) =
      bind-ok (guard (not (is_empty env)) (place environment_required)) _ t h in
    let (v, (fresh, h2)) =
      bind-ok (guard (not (any (text_eq env) seen)) (place (duplicate_environment env))) _ t h1 in
    let (e, (endpoint, h3)) = bind-ok (normalize_endpoint place item.endpoint) _ t h2 in
    subst (λ (x : Target). IsTarget x × (any (text_eq x.environment) seen ≡ false)) (ok_inj h3)
      (
        record {
          has_environment = guard-not (is_empty env) (place environment_required) u present;
          untagged = refl;
          endpoint = endpoint-IsEndpoint place item.endpoint e endpoint;
        },
        guard-not (any (text_eq env) seen) (place (duplicate_environment env)) v fresh,
      )

targets-AreTargets :
    (index i : ℕ) (seen : List Bytes) (items : List TargetYaml) (ts : List Target)
    → normalize_targets index i seen items ≡ ok ts
    → All IsTarget ts × Fresh seen (environments ts)
unfolding normalize_targets
targets-AreTargets index i seen [] ts h =
    subst (λ (xs : List Target). All IsTarget xs × Fresh seen (environments xs)) (ok_inj h) (tt, tt)
targets-AreTargets index i seen (item ∷ items) ts h =
    let (t, (first, h1)) = bind-ok (normalize_target (at_target index i) seen item) _ ts h in
    let (rest, (others, h2)) =
      bind-ok (normalize_targets index (suc i) (t.environment ∷ seen) items) _ ts h1 in
    let (good, fresh) = target-IsTarget (at_target index i) seen item t first in
    let (all_good, all_fresh) =
      targets-AreTargets index (suc i) (t.environment ∷ seen) items rest others in
    subst (λ (xs : List Target). All IsTarget xs × Fresh seen (environments xs)) (ok_inj h2)
      ((good, all_good), (fresh, all_fresh))

preset-IsPreset :
    (index : ℕ) (item : PresetYaml) (p : Preset) → normalize_preset index item ≡ ok p → IsPreset p
unfolding normalize_preset
preset-IsPreset index item p h =
    let (u, (id, h1)) =
      bind-ok (guard (not (is_empty (trim_space item.id))) (at_preset index id_required)) _ p h in
    let (v, (title, h2)) =
      bind-ok (guard (not (is_empty (trim_space item.title))) (at_preset index title_required)) _ p
        h1 in
    let (source, (sourced, h3)) =
      bind-ok (normalize_endpoint (at_source index) item.source) _ p h2 in
    let (targets, (listed, h4)) = bind-ok (normalize_targets index 0 [] item.targets) _ p h3 in
    let (good, fresh) = targets-AreTargets index 0 [] item.targets targets listed in
    subst IsPreset (ok_inj h4) (record {
      has_id = guard-not _ (at_preset index id_required) u id;
      has_title = guard-not _ (at_preset index title_required) v title;
      source = endpoint-IsEndpoint (at_source index) item.source source sourced;
      targets = good;
      distinct = fresh;
    })

presets-ArePresets :
    (i : ℕ) (seen : List Bytes) (items : List PresetYaml) (ps : List Preset)
    → normalize_presets i seen items ≡ ok ps
    → All IsPreset ps × Fresh seen (ids ps)
unfolding normalize_presets
presets-ArePresets i seen [] ps h =
    subst (λ (xs : List Preset). All IsPreset xs × Fresh seen (ids xs)) (ok_inj h) (tt, tt)
presets-ArePresets i seen (item ∷ items) ps h =
    let (p, (first, h1)) = bind-ok (normalize_preset i item) _ ps h in
    let (u, (new, h2)) =
      bind-ok (guard (not (any (text_eq p.id) seen)) (at_preset i (duplicate_id p.id))) _ ps h1 in
    let (rest, (others, h3)) = bind-ok (normalize_presets (suc i) (p.id ∷ seen) items) _ ps h2 in
    let (all_good, all_fresh) = presets-ArePresets (suc i) (p.id ∷ seen) items rest others in
    subst (λ (xs : List Preset). All IsPreset xs × Fresh seen (ids xs)) (ok_inj h3)
      (
        (preset-IsPreset i item p first, all_good),
        (guard-not (any (text_eq p.id) seen) (at_preset i (duplicate_id p.id)) u new, all_fresh),
      )

-- Presets that load are sound: ids differ and are not empty, as are the environments of a preset's targets;
-- every host and database has a name, every port is from 1 to 65535, and every endpoint carries
-- its own name. No target has a tag.
pub presets_load_sound :
    (file : PresetsFile) (presets : List Preset) (admin : Bytes)
    → parse_presets (ok file) ≡ ok (presets, admin)
    → All IsPreset presets × Fresh [] (ids presets)
unfolding parse_presets
presets_load_sound file presets admin h =
    let (u, (filled, h1)) =
      bind-ok (guard (not (is_empty file.presets)) empty_list) _ (presets, admin) h in
    let (ps, (listed, h2)) = bind-ok (normalize_presets 0 [] file.presets) _ (presets, admin) h1 in
    subst (λ (xs : List Preset). All IsPreset xs × Fresh [] (ids xs))
      (ap (λ (x : List Preset × Bytes). x.0) (ok_inj h2))
      (presets-ArePresets 0 [] file.presets ps listed)
