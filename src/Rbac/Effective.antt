-- ===== src/Rbac/Effective.antt =====
-- What roles and overrides amount to.
use botchatgptclaude.Prelude.{
  ◌≡◌, ◌≢◌, ◌∙◌, ◌⊎◌, refl, inl, inr, ap, sym, Bool, true, false, not, ◌&&◌, ◌||◌, List, [], ◌∷◌,
  ◌++◌, arith, ◌==◌, eq_iff, filter, any, Bool-cases,
}
use botchatgptclaude.Rbac.{
  role_rank, Role, owner, admin, developer, reviewer, viewer, Permission, PermissionOverride,
  is_allow, includes, role_permissions, add_allowed, delete_denied, effective_permissions,
  RbacSubject, RbacSession, can_access_session, can_create_pull_request, can_manage_user,
}

-- Some override of the list allows, or denies, the permission.
abbrev pub allows : Permission → List PermissionOverride → Bool
allows p = any (λ o. is_allow o.effect && (o.permission == p))

abbrev pub denies : Permission → List PermissionOverride → Bool
denies p = any (λ o. not (is_allow o.effect) && (o.permission == p))

includes-snoc :
    (p q : Permission) (xs : List Permission)
    → includes p (xs ++ q ∷ []) ≡ (includes p xs || (q == p))
unfolding includes
includes-snoc p q [] = ground arith
includes-snoc p q (x ∷ xs) = ground (arith, includes-snoc p q xs)

includes-delete :
    (p q : Permission) (xs : List Permission)
    → includes p (filter (λ x. not (x == q)) xs) ≡ (includes p xs && not (q == p))
unfolding includes
includes-delete p q [] = ground arith
includes-delete p q (x ∷ xs) =
    ground (arith, includes-delete p q xs, eq_iff x q, eq_iff x p, eq_iff q p)

includes-add_allowed :
    (p : Permission) (os : List PermissionOverride) (set : List Permission)
    → includes p (add_allowed os set) ≡ (includes p set || allows p os)
unfolding add_allowed
includes-add_allowed p [] set = ground arith
includes-add_allowed p (o ∷ os) set = elim (Bool-cases (is_allow o.effect)) [
  | inr d ↦ rw d (ground (arith, includes-add_allowed p os set))
  | inl a ↦ elim (Bool-cases (includes o.permission set)) [
    | inl held ↦ rw (a, held) (ground (arith, includes-add_allowed p os set, present held))
    | inr new ↦
        rw (a, new)
          (ground (
            arith,
            includes-add_allowed p os (set ++ o.permission ∷ []),
            includes-snoc p o.permission set,
          ))
  ]
]
  where
    present : includes o.permission set ≡ true → (not (o.permission == p) || includes p set) ≡ true
    present held = elim (Bool-cases (o.permission == p)) [
      | inl same ↦ rw same (sym (ap (λ q. includes q set) ((eq_iff o.permission p).0 same)) ∙ held)
      | inr apart ↦ rw apart
    ]

includes-delete_denied :
    (p : Permission) (os : List PermissionOverride) (set : List Permission)
    → includes p (delete_denied os set) ≡ (includes p set && not (denies p os))
unfolding delete_denied
includes-delete_denied p [] set = ground arith
includes-delete_denied p (o ∷ os) set = elim (Bool-cases (is_allow o.effect)) [
  | inl a ↦ rw a (ground (arith, includes-delete_denied p os set))
  | inr d ↦ rw d (
      ground (
        arith,
        includes-delete_denied p os (filter (λ q. not (q == o.permission)) set),
        includes-delete p o.permission set,
      ))
]

-- A permission is effective exactly when the role has it or an override allows it, and no override
-- denies it: a denial wins, wherever it stands in the list.
pub effective_permissions-deny_wins :
    (p : Permission) (role : Role) (os : List PermissionOverride)
    → includes p (effective_permissions role os)
      ≡ ((includes p (role_permissions role) || allows p os) && not (denies p os))
unfolding effective_permissions
effective_permissions-deny_wins p role os =
    includes-delete_denied p os (add_allowed os (role_permissions role))
    ∙ ap (λ b. b && not (denies p os)) (includes-add_allowed p os (role_permissions role))

pr_roles :
    (r : Role) → includes "ai:pr:create" (role_permissions r) ≡ true → (r ≡ owner) ⊎ (r ≡ admin)
unfolding role_permissions includes
pr_roles owner e = inl refl
pr_roles admin e = inr refl
pr_roles developer e = cc
pr_roles reviewer e = cc
pr_roles viewer e = cc

manage_roles :
    (r : Role) → includes "ai:users:manage" (role_permissions r) ≡ true → (r ≡ owner) ⊎ (r ≡ admin)
unfolding role_permissions includes
manage_roles owner e = inl refl
manage_roles admin e = inr refl
manage_roles developer e = cc
manage_roles reviewer e = cc
manage_roles viewer e = cc

-- Who opens a pull request, with the permissions of a role and its overrides, was not denied it, is
-- an owner or an admin or was allowed it, has access to the session, and the session was approved
-- or has passed.
pub can_create_pull_request-gates :
    (subject : RbacSubject) (session : RbacSession) (collaborator : Bool)
    (os : List PermissionOverride)
    → subject.permissions ≡ effective_permissions subject.role os
    → can_create_pull_request subject session collaborator ≡ true
    → (denies "ai:pr:create" os ≡ false)
      × ((subject.role ≡ owner) ⊎ (subject.role ≡ admin) ⊎ (allows "ai:pr:create" os ≡ true))
      × (can_access_session subject session collaborator ≡ true)
      × ((session.approval ≡ "approved") ⊎ (session.status ≡ "passed"))
unfolding can_create_pull_request
can_create_pull_request-gates subject session collaborator os e h =
    let has : includes "ai:pr:create" (effective_permissions subject.role os) ≡ true =
      sym (ap (includes "ai:pr:create") e) ∙ ground (arith, h) in
    let law = sym (effective_permissions-deny_wins "ai:pr:create" subject.role os) ∙ has in
    (
      ground (arith, law),
      elim (Bool-cases (allows "ai:pr:create" os)) [
        | inl allowed ↦ inr (inr allowed)
        | inr silent ↦ elim (pr_roles subject.role (ground (arith, law, silent))) [
          | inl o ↦ inl o
          | inr a ↦ inr (inl a)
        ]
      ],
      ground (arith, h),
      elim (Bool-cases (session.approval == "approved")) [
        | inl y ↦ inl ((eq_iff session.approval "approved").0 y)
        | inr n ↦ inr ((eq_iff session.status "passed").0 (ground (arith, h, n)))
      ],
    )

-- With the permissions of its role alone, only an owner or an admin manages users, and an admin
-- manages no owner.
pub can_manage_user-ranks :
    (actor : RbacSubject) (target : Role)
    → actor.permissions ≡ role_permissions actor.role
    → can_manage_user actor target ≡ true
    → (actor.role ≡ owner) ⊎ (actor.role ≡ admin) × (target ≢ owner)
unfolding can_manage_user role_rank
can_manage_user-ranks actor target e h =
    let has : includes "ai:users:manage" actor.permissions ≡ true = ground (arith, h) in
    elim (manage_roles actor.role (sym (ap (includes "ai:users:manage") e) ∙ has)) [
      | inl o ↦ inl o
      | inr a ↦ inr (a, λ t. ground (arith, h, a, t))
    ]

-- Who has the permission to manage users and is no viewer manages every user of the same role.
pub can_manage_user-same_role :
    (actor : RbacSubject) (target : Role)
    → actor.role ≡ target
    → includes "ai:users:manage" actor.permissions ≡ true
    → target ≢ viewer
    → can_manage_user actor target ≡ true
unfolding can_manage_user role_rank
can_manage_user-same_role actor target same has n = ground (arith, same, has, n)
