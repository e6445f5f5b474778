-- ===== src/Rbac.antt =====
-- internal/service/rbac/rbac.go: what the groups of a user allow. The presets and the admin group are
-- read anew on every call, so they are one state of the service here. A set of names
-- (map[string]struct{}) is a list without repetitions; Go's order of its keys is any order.
pub mod Grants
mod Tests
use pgwarden.Prelude.{
  ℕ, Bool, true, false, not, ◌&&◌, ◌||◌, List, [], ◌∷◌, ◌++◌, Bytes, codes, text_eq, is_empty, any,
  ◌==◌, if◌then◌else◌,
}
use pgwarden.Go.Strings.{trim, trim_space, after_last}

-- The fields of restorations.RestorePreset that rbac.go reads.
pub record RestorePreset : Type 0 where
  pub id : Bytes
  pub pbw_name : Bytes
  pub view_group : Bytes
  pub execute_group : Bytes

pub record Service : Type 0 where
  pub admin_group : Bytes
  pub presets : List RestorePreset

pub record Access : Type 0 where
  pub enabled : Bool
  pub full_access : Bool
  pub admin : Bool
  pub view_pbw_names : List Bytes
  pub exec_pbw_names : List Bytes
  pub view_presets : List Bytes
  pub exec_presets : List Bytes

-- NewLive
pub new_live : Bytes → Service → Service
new_live env_admin_group yaml =
    if is_empty env_admin_group then yaml else record yaml { admin_group = env_admin_group }

pub enabled : Service → Bool
enabled s =
    not (is_empty s.admin_group)
    || any (λ p. not (is_empty p.view_group) || not (is_empty p.execute_group)) s.presets

unfoldable pub normalize_group_name : Bytes → Bytes
normalize_group_name raw =
    let value = trim (λ c. c == b'/') (trim_space raw) in
    if is_empty value then [] else after_last b'/' value

pub has_group : List Bytes → Bytes → Bool
has_group groups want =
    let want = normalize_group_name want in
    if is_empty want then false else any (λ g. text_eq (normalize_group_name g) want) groups

abbrev pub has_name : Bytes → List Bytes → Bool
has_name n names = any (λ k. text_eq k n) names

-- m[n] = struct{}{}
unfoldable pub insert_name : Bytes → List Bytes → List Bytes
insert_name n names = if has_name n names then names else names ++ n ∷ []

pub may_view : List Bytes → RestorePreset → Bool
may_view groups p = not (is_empty p.view_group) && has_group groups p.view_group

pub may_execute : List Bytes → RestorePreset → Bool
may_execute groups p = not (is_empty p.execute_group) && has_group groups p.execute_group

-- One round of the loop of `Access`.
pub grant : List Bytes → Access → RestorePreset → Access
grant groups a p =
    if may_execute groups p
    then record a {
      exec_presets = insert_name p.id a.exec_presets;
      exec_pbw_names = insert_name p.pbw_name a.exec_pbw_names;
      view_presets = insert_name p.id a.view_presets;
      view_pbw_names = insert_name p.pbw_name a.view_pbw_names;
    }
    else if may_view groups p
    then record a {
      view_presets = insert_name p.id a.view_presets;
      view_pbw_names = insert_name p.pbw_name a.view_pbw_names;
    }
    else a

pub grant_all : List Bytes → Access → List RestorePreset → Access
grant_all groups a [] = a
grant_all groups a (p ∷ ps) = grant_all groups (grant groups a p) ps

abbrev pub no_access : Access
no_access = record {
  enabled = false;
  full_access = false;
  admin = false;
  view_pbw_names = [];
  exec_pbw_names = [];
  view_presets = [];
  exec_presets = [];
}

-- (*Service).Access
pub access : Service → List Bytes → Bool → Access
access s groups full_access =
    if not (enabled s) || full_access
    then record no_access { full_access = true }
    else if not (is_empty s.admin_group) && has_group groups s.admin_group
    then record no_access { admin = true }
    else grant_all groups (record no_access { enabled = true }) s.presets

pub unrestricted : Access → Bool
unrestricted a = not a.enabled || a.full_access || a.admin

pub can_manage_app : Access → Bool
can_manage_app a = unrestricted a

pub can_see_connection_secrets : Access → Bool
can_see_connection_secrets a = unrestricted a

pub can_view_preset : Access → Bytes → Bool
can_view_preset a id = if unrestricted a then true else has_name id a.view_presets

pub can_execute_preset : Access → Bytes → Bool
can_execute_preset a id = if unrestricted a then true else has_name id a.exec_presets

pub can_view_pbw_name : Access → Bytes → Bool
can_view_pbw_name a name = if unrestricted a then true else has_name name a.view_pbw_names

pub can_execute_pbw_name : Access → Bytes → Bool
can_execute_pbw_name a name = if unrestricted a then true else has_name name a.exec_pbw_names

-- The `nil` of an unrestricted subject is the empty list.
pub names_filter : Access → List Bytes
names_filter a = if unrestricted a then [] else a.view_pbw_names
