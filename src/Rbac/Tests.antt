-- ===== src/Rbac/Tests.antt =====
-- Two presets, and a user of one of their groups.
use pgwarden.Prelude.{◌≡◌, refl, true, false, ◌&&◌, ◌||◌, List, [], ◌∷◌, Bytes, codes, text_eq, any}
use pgwarden.Rbac.{
  Service, enabled, normalize_group_name, has_group, insert_name, may_view, may_execute, access,
  new_live, can_manage_app, can_see_connection_secrets, can_view_preset, can_execute_preset,
  can_view_pbw_name, can_execute_pbw_name, names_filter, unrestricted, grant, grant_all,
}
use pgwarden.Rbac.Grants.{sees_all, access_decides}

abbrev service : Service
service = record {
  admin_group = codes "dba";
  presets =
      record {
        id = codes "p1";
        pbw_name = codes "app";
        view_group = [];
        execute_group = codes "/team/ops/";
      }
      ∷ record {
        id = codes "p2";
        pbw_name = codes "crm";
        view_group = codes "crm";
        execute_group = [];
      }
      ∷ [];
}

abbrev groups : List Bytes
groups = codes "ops" ∷ []

own_names : names_filter (access service groups false) ≡ codes "app" ∷ []
unfolding names_filter unrestricted access enabled has_group normalize_group_name
    pgwarden.Go.Strings.trim pgwarden.Go.Strings.trim_space pgwarden.Go.Strings.after_last text_eq
    grant_all grant may_execute may_view insert_name
own_names = refl

no_secrets : can_see_connection_secrets (access service groups false) ≡ false
unfolding can_see_connection_secrets unrestricted access enabled has_group normalize_group_name
    pgwarden.Go.Strings.trim pgwarden.Go.Strings.trim_space pgwarden.Go.Strings.after_last text_eq
    grant_all grant may_execute may_view
no_secrets = refl

env_group_wins : can_manage_app (access (new_live (codes "ops") service) groups false) ≡ true
unfolding can_manage_app unrestricted access enabled new_live has_group normalize_group_name
    pgwarden.Go.Strings.trim pgwarden.Go.Strings.trim_space pgwarden.Go.Strings.after_last text_eq
env_group_wins = refl

access_decides_example :
    let a = access service groups false in
    let x = codes "p2" in
    let all = sees_all service groups false in
    let runs = may_execute groups in
    (can_execute_preset a x ≡ (all || any (λ p. runs p && text_eq p.id x) service.presets))
    × ((can_view_preset a x
          ≡ (all || any (λ p. (runs p || may_view groups p) && text_eq p.id x) service.presets))
        × ((can_execute_pbw_name a x
              ≡ (all || any (λ p. runs p && text_eq p.pbw_name x) service.presets))
            × (can_view_pbw_name a x ≡ (
                all
                || any
                    (λ p. (runs p || may_view groups p) && text_eq p.pbw_name x)
                    service.presets))))
access_decides_example = access_decides service groups false (codes "p2")
