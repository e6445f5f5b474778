-- ===== src/Rbac/Grants.antt =====
-- The decisions on presets, read off the presets directly.
use pgwarden.Prelude.{
  ◌≡◌, refl, ◌∙◌, Bool, true, false, not, ◌&&◌, ◌||◌, List, [], ◌∷◌, ◌++◌, Bytes, text_eq,
  text_eq_iff, is_empty, any, arith, Bool-cases, inl, inr, ◌⊎◌,
}
use pgwarden.Rbac.{
  RestorePreset, Service, Access, enabled, has_group, has_name, insert_name, may_view, may_execute,
  grant, grant_all, no_access, access, unrestricted, can_view_preset, can_execute_preset,
  can_view_pbw_name, can_execute_pbw_name,
}

has_name-append :
    (x n : Bytes) (names : List Bytes)
    → has_name x (names ++ n ∷ []) ≡ (has_name x names || text_eq n x)
has_name-append x n [] = ground arith
has_name-append x n (k ∷ names) = ground (arith, has_name-append x n names)

has_name-insert :
    (x n : Bytes) (names : List Bytes)
    → has_name x (insert_name n names) ≡ (has_name x names || text_eq n x)
unfolding insert_name
has_name-insert x n names = elim (Bool-cases (has_name n names)) [
  | inl known ↦ rw known (elim (Bool-cases (text_eq n x)) [
    | inl same ↦ (let e = (text_eq_iff n x).0 same in rw (same, ← e) (rw known refl))
    | inr differs ↦ rw differs (ground arith)
  ])
  | inr fresh ↦ rw fresh (has_name-append x n names)
]

grant-exec_presets :
    (x : Bytes) (groups : List Bytes) (a : Access) (p : RestorePreset)
    → has_name x (grant groups a p).exec_presets
      ≡ (has_name x a.exec_presets || (may_execute groups p && text_eq p.id x))
unfolding grant
grant-exec_presets x groups a p = ground (arith, has_name-insert x p.id a.exec_presets)

grant_all-exec_presets :
    (x : Bytes) (groups : List Bytes) (a : Access) (ps : List RestorePreset)
    → has_name x (grant_all groups a ps).exec_presets
      ≡ (has_name x a.exec_presets || any (λ p. may_execute groups p && text_eq p.id x) ps)
unfolding grant_all
grant_all-exec_presets x groups a [] = ground arith
grant_all-exec_presets x groups a (p ∷ ps) =
    grant_all-exec_presets x groups (grant groups a p) ps
    ∙ ground (arith, grant-exec_presets x groups a p)

grant-exec_pbw_names :
    (x : Bytes) (groups : List Bytes) (a : Access) (p : RestorePreset)
    → has_name x (grant groups a p).exec_pbw_names
      ≡ (has_name x a.exec_pbw_names || (may_execute groups p && text_eq p.pbw_name x))
unfolding grant
grant-exec_pbw_names x groups a p = ground (arith, has_name-insert x p.pbw_name a.exec_pbw_names)

grant_all-exec_pbw_names :
    (x : Bytes) (groups : List Bytes) (a : Access) (ps : List RestorePreset)
    → has_name x (grant_all groups a ps).exec_pbw_names
      ≡ (has_name x a.exec_pbw_names || any (λ p. may_execute groups p && text_eq p.pbw_name x) ps)
unfolding grant_all
grant_all-exec_pbw_names x groups a [] = ground arith
grant_all-exec_pbw_names x groups a (p ∷ ps) =
    grant_all-exec_pbw_names x groups (grant groups a p) ps
    ∙ ground (arith, grant-exec_pbw_names x groups a p)

grant-view_presets :
    (x : Bytes) (groups : List Bytes) (a : Access) (p : RestorePreset)
    → has_name x (grant groups a p).view_presets ≡ (
        has_name x a.view_presets
        || ((may_execute groups p || may_view groups p) && text_eq p.id x))
unfolding grant
grant-view_presets x groups a p = ground (arith, has_name-insert x p.id a.view_presets)

grant_all-view_presets :
    (x : Bytes) (groups : List Bytes) (a : Access) (ps : List RestorePreset)
    → has_name x (grant_all groups a ps).view_presets ≡ (
        has_name x a.view_presets
        || any (λ p. (may_execute groups p || may_view groups p) && text_eq p.id x) ps)
unfolding grant_all
grant_all-view_presets x groups a [] = ground arith
grant_all-view_presets x groups a (p ∷ ps) =
    grant_all-view_presets x groups (grant groups a p) ps
    ∙ ground (arith, grant-view_presets x groups a p)

grant-view_pbw_names :
    (x : Bytes) (groups : List Bytes) (a : Access) (p : RestorePreset)
    → has_name x (grant groups a p).view_pbw_names ≡ (
        has_name x a.view_pbw_names
        || ((may_execute groups p || may_view groups p) && text_eq p.pbw_name x))
unfolding grant
grant-view_pbw_names x groups a p = ground (arith, has_name-insert x p.pbw_name a.view_pbw_names)

grant_all-view_pbw_names :
    (x : Bytes) (groups : List Bytes) (a : Access) (ps : List RestorePreset)
    → has_name x (grant_all groups a ps).view_pbw_names ≡ (
        has_name x a.view_pbw_names
        || any (λ p. (may_execute groups p || may_view groups p) && text_eq p.pbw_name x) ps)
unfolding grant_all
grant_all-view_pbw_names x groups a [] = ground arith
grant_all-view_pbw_names x groups a (p ∷ ps) =
    grant_all-view_pbw_names x groups (grant groups a p) ps
    ∙ ground (arith, grant-view_pbw_names x groups a p)

grant_all-unrestricted :
    (groups : List Bytes) (a : Access) (ps : List RestorePreset)
    → unrestricted (grant_all groups a ps) ≡ unrestricted a
unfolding grant_all grant unrestricted
grant_all-unrestricted groups a [] = refl
grant_all-unrestricted groups a (p ∷ ps) =
    grant_all-unrestricted groups (grant groups a p) ps ∙ ground arith

-- The subjects that see everything: RBAC is off, the caller has full access, or one of the groups is
-- the admin group.
pub sees_all : Service → List Bytes → Bool → Bool
sees_all s groups full =
    not (enabled s) || full || (not (is_empty s.admin_group) && has_group groups s.admin_group)

access-cases :
    (s : Service) (groups : List Bytes) (full : Bool)
    → ((sees_all s groups full ≡ true) × (unrestricted (access s groups full) ≡ true))
      ⊎ ((sees_all s groups full ≡ false)
          × ((access s groups full
                ≡ grant_all groups (record no_access { enabled = true }) s.presets)
              × (unrestricted (access s groups full) ≡ false)))
unfolding sees_all access unrestricted
access-cases s groups full = elim (Bool-cases (not (enabled s) || full)) [
  | inl off ↦ inl (ground (arith, off), rw off refl)
  | inr closed ↦
      elim (Bool-cases (not (is_empty s.admin_group) && has_group groups s.admin_group)) [
        | inl admin ↦ inl (ground (arith, admin), rw closed (rw admin refl))
        | inr other ↦ inr (
          ground (arith, closed, other),
          rw closed (
              rw other (
                refl,
                grant_all-unrestricted groups (record no_access { enabled = true }) s.presets,
              )),
        )
      ]
]

module _ (s : Service) (groups : List Bytes) (full : Bool) (x : Bytes) where
  pub can_view_preset-presets : can_view_preset (access s groups full) x ≡ (
      sees_all s groups full
      || any (λ p. (may_execute groups p || may_view groups p) && text_eq p.id x) s.presets)
  unfolding can_view_preset
  can_view_preset-presets = elim (access-cases s groups full) [
    | inl all ↦ rw (all.1, all.0) refl
    | inr some_only ↦
        rw (some_only.1.1, some_only.0)
          (rw some_only.1.0
            (grant_all-view_presets x groups (record no_access { enabled = true }) s.presets))
  ]

  pub can_execute_preset-presets :
      can_execute_preset (access s groups full) x
      ≡ (sees_all s groups full || any (λ p. may_execute groups p && text_eq p.id x) s.presets)
  unfolding can_execute_preset
  can_execute_preset-presets = elim (access-cases s groups full) [
    | inl all ↦ rw (all.1, all.0) refl
    | inr some_only ↦
        rw (some_only.1.1, some_only.0)
          (rw some_only.1.0
            (grant_all-exec_presets x groups (record no_access { enabled = true }) s.presets))
  ]

  pub can_view_pbw_name-presets : can_view_pbw_name (access s groups full) x ≡ (
      sees_all s groups full
      || any (λ p. (may_execute groups p || may_view groups p) && text_eq p.pbw_name x) s.presets)
  unfolding can_view_pbw_name
  can_view_pbw_name-presets = elim (access-cases s groups full) [
    | inl all ↦ rw (all.1, all.0) refl
    | inr some_only ↦
        rw (some_only.1.1, some_only.0)
          (rw some_only.1.0
            (grant_all-view_pbw_names x groups (record no_access { enabled = true }) s.presets))
  ]

  pub can_execute_pbw_name-presets : can_execute_pbw_name (access s groups full) x ≡ (
      sees_all s groups full || any (λ p. may_execute groups p && text_eq p.pbw_name x) s.presets)
  unfolding can_execute_pbw_name
  can_execute_pbw_name-presets = elim (access-cases s groups full) [
    | inl all ↦ rw (all.1, all.0) refl
    | inr some_only ↦
        rw (some_only.1.1, some_only.0)
          (rw some_only.1.0
            (grant_all-exec_pbw_names x groups (record no_access { enabled = true }) s.presets))
  ]

-- What a user is allowed is read off the presets: all of it, if RBAC is off (no admin group is set and no
-- preset names a group), the caller has full access or is in the admin group; else, also where no admin
-- group is set, a preset or a backup name may be executed exactly if a preset with it names
-- a group of the user's for execution, and seen exactly if a preset with it names one for execution or
-- for viewing.
pub access_decides :
    (s : Service) (groups : List Bytes) (full : Bool) (x : Bytes)
    → let a = access s groups full in
      let all = sees_all s groups full in
      let runs = may_execute groups in
      (can_execute_preset a x ≡ (all || any (λ p. runs p && text_eq p.id x) s.presets))
      × ((can_view_preset a x
            ≡ (all || any (λ p. (runs p || may_view groups p) && text_eq p.id x) s.presets))
          × ((can_execute_pbw_name a x
                ≡ (all || any (λ p. runs p && text_eq p.pbw_name x) s.presets))
              × (can_view_pbw_name a x ≡ (
                  all
                  || any (λ p. (runs p || may_view groups p) && text_eq p.pbw_name x) s.presets))))
access_decides s groups full x = (
  can_execute_preset-presets s groups full x,
  (
    can_view_preset-presets s groups full x,
    (can_execute_pbw_name-presets s groups full x, can_view_pbw_name-presets s groups full x),
  ),
)

any-imp :
    (p q : RestorePreset → Bool) (ps : List RestorePreset)
    → ((r : RestorePreset) → p r ≡ true → q r ≡ true)
    → any p ps ≡ true
    → any q ps ≡ true
any-imp p q [] k h = h
any-imp p q (r ∷ ps) k h = ground (arith, k r, any-imp p q ps k)

-- Who may execute a preset, or the backups of a name, may also see it.
pub executes_sees :
    (s : Service) (groups : List Bytes) (full : Bool) (x : Bytes)
    → let a = access s groups full in
      (can_execute_preset a x ≡ true → can_view_preset a x ≡ true)
      × (can_execute_pbw_name a x ≡ true → can_view_pbw_name a x ≡ true)
executes_sees s groups full x = (
  λ h.
      can_view_preset-presets s groups full x
      ∙ ground (
        arith,
        h,
        can_execute_preset-presets s groups full x,
        any-imp (λ p. may_execute groups p && text_eq p.id x)
            (λ p. (may_execute groups p || may_view groups p) && text_eq p.id x) s.presets
            (λ r e. ground (arith, e)),
      ),
  λ h.
      can_view_pbw_name-presets s groups full x
      ∙ ground (
        arith,
        h,
        can_execute_pbw_name-presets s groups full x,
        any-imp (λ p. may_execute groups p && text_eq p.pbw_name x)
            (λ p. (may_execute groups p || may_view groups p) && text_eq p.pbw_name x) s.presets
            (λ r e. ground (arith, e)),
      ),
)
