-- ===== src/Scenarios/Access.antt =====
-- Subjects and a session.
use botchatgptclaude.Prelude.{
  ◌≡◌, ◌≢◌, ◌⊎◌, refl, true, false, not, ◌&&◌, ◌||◌, some, List, [], ◌∷◌,
}
use botchatgptclaude.Text.{is_empty}
use botchatgptclaude.Rbac.{
  owner, admin, developer, allow, deny, PermissionOverride, includes, role_permissions, add_allowed,
  delete_denied, effective_permissions, RbacSubject, RbacSession, can_access_session,
  can_create_pull_request, can_manage_user, role_rank,
}
use botchatgptclaude.Rbac.Effective.{
  allows, denies, effective_permissions-deny_wins, can_create_pull_request-gates,
  can_manage_user-ranks, can_manage_user-same_role,
}

abbrev overrides : List PermissionOverride
overrides =
    (record { permission = "ai:pr:create"; effect = allow })
    ∷ (record { permission = "ai:run"; effect = deny })
    ∷ (record { permission = "ai:run"; effect = allow })
    ∷ []

effective_permissions-deny_wins_example :
    includes "ai:run" (effective_permissions developer overrides) ≡ (
      (includes "ai:run" (role_permissions developer) || allows "ai:run" overrides)
      && not (denies "ai:run" overrides))
effective_permissions-deny_wins_example =
    effective_permissions-deny_wins "ai:run" developer overrides

abbrev dev : RbacSubject
dev = record {
  user_id = some "u1";
  role = developer;
  permissions = effective_permissions developer overrides;
}

abbrev approved_session : RbacSession
approved_session = record { user_id = some "u1"; status = "running"; approval = "approved" }

dev_opens : can_create_pull_request dev approved_session false ≡ true
unfolding can_create_pull_request can_access_session effective_permissions add_allowed delete_denied
    role_permissions includes is_empty
dev_opens = refl

can_create_pull_request-gates_example :
    (denies "ai:pr:create" overrides ≡ false)
    × ((developer ≡ owner) ⊎ (developer ≡ admin) ⊎ (allows "ai:pr:create" overrides ≡ true))
    × (can_access_session dev approved_session false ≡ true)
    × ((approved_session.approval ≡ "approved") ⊎ (approved_session.status ≡ "passed"))
can_create_pull_request-gates_example =
    can_create_pull_request-gates dev approved_session false overrides refl dev_opens

abbrev an_admin : RbacSubject
an_admin = record { user_id = some "u2"; role = admin; permissions = role_permissions admin }

admin_manages : includes "ai:users:manage" an_admin.permissions ≡ true
unfolding role_permissions includes
admin_manages = refl

can_manage_user-same_role_example : can_manage_user an_admin admin ≡ true
can_manage_user-same_role_example =
    can_manage_user-same_role an_admin admin refl admin_manages (λ e. cc)

admin_manages_admin : can_manage_user an_admin admin ≡ true
unfolding can_manage_user role_rank role_permissions includes
admin_manages_admin = refl

can_manage_user-ranks_example : (admin ≡ owner) ⊎ (admin ≡ admin) × (admin ≢ owner)
can_manage_user-ranks_example = can_manage_user-ranks an_admin admin refl admin_manages_admin
