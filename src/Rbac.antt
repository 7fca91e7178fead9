-- ===== src/Rbac.antt =====
-- Roles, permissions and access checks: lib/ai-orchestrator/auth/roles.ts, permissions.ts and
-- rbac.ts. A permission is its text; a `Set` is the list of its members in insertion order.
pub mod Effective
use botchatgptclaude.Prelude.{
  ℕ, leb, String, Bool, true, false, not, ◌&&◌, ◌||◌, Option, none, some, List, [], ◌∷◌, ◌++◌, ◌==◌,
  if◌then◌else◌, filter,
}
use botchatgptclaude.Text.{is_empty}

pub data Role : Type 0 where
  owner admin developer reviewer viewer : Role

unfoldable pub role_rank : Role → ℕ
role_rank owner = 100
role_rank admin = 80
role_rank developer = 50
role_rank reviewer = 30
role_rank viewer = 10

abbrev pub Permission : Type 0
Permission = String

abbrev pub all_permissions : List Permission
all_permissions =
    "ai:run" ∷ "ai:session:create" ∷ "ai:session:read" ∷ "ai:session:read_all"
    ∷ "ai:session:approve" ∷ "ai:session:reject" ∷ "ai:artifact:create" ∷ "ai:audit:read"
    ∷ "ai:users:manage" ∷ "ai:apikey:manage" ∷ "ai:config:manage" ∷ "ai:patch:create"
    ∷ "ai:pr:create" ∷ "ai:run_tests" ∷ []

unfoldable pub role_permissions : Role → List Permission
role_permissions owner = all_permissions
role_permissions admin =
    "ai:run" ∷ "ai:session:create" ∷ "ai:session:read" ∷ "ai:session:read_all"
    ∷ "ai:session:approve" ∷ "ai:session:reject" ∷ "ai:artifact:create" ∷ "ai:audit:read"
    ∷ "ai:users:manage" ∷ "ai:apikey:manage" ∷ "ai:patch:create" ∷ "ai:pr:create" ∷ "ai:run_tests"
    ∷ []
role_permissions developer =
    "ai:run" ∷ "ai:session:create" ∷ "ai:session:read" ∷ "ai:artifact:create" ∷ "ai:patch:create"
    ∷ "ai:run_tests" ∷ []
role_permissions reviewer = "ai:session:read" ∷ []
role_permissions viewer = "ai:session:read" ∷ []

pub data OverrideEffect : Type 0 where
  allow deny : OverrideEffect

pub record PermissionOverride : Type 0 where
  pub permission : Permission
  pub effect : OverrideEffect

unfoldable pub includes : Permission → List Permission → Bool
includes p [] = false
includes p (q ∷ qs) = (q == p) || includes p qs

abbrev pub is_allow : OverrideEffect → Bool
is_allow allow = true
is_allow deny = false

-- `set.add`
abbrev add : Permission → List Permission → List Permission
add p set = if includes p set then set else set ++ p ∷ []

-- `set.delete`
abbrev delete : Permission → List Permission → List Permission
delete p set = filter (λ q. not (q == p)) set

unfoldable pub add_allowed : List PermissionOverride → List Permission → List Permission
add_allowed [] set = set
add_allowed (o ∷ os) set = add_allowed os (if is_allow o.effect then add o.permission set else set)

unfoldable pub delete_denied : List PermissionOverride → List Permission → List Permission
delete_denied [] set = set
delete_denied (o ∷ os) set =
    delete_denied os (if is_allow o.effect then set else delete o.permission set)

unfoldable pub effective_permissions : Role → List PermissionOverride → List Permission
unfolding add_allowed delete_denied role_permissions
effective_permissions role overrides =
    delete_denied overrides (add_allowed overrides (role_permissions role))

pub record RbacSubject : Type 0 where
  pub user_id : Option String
  pub role : Role
  pub permissions : List Permission

pub record RbacSession : Type 0 where
  pub user_id : Option String
  pub status : String
  pub approval : String

abbrev pub subject_has_permission : RbacSubject → Permission → Bool
subject_has_permission subject p = includes p subject.permissions

-- `subject.userId && session.user_id === subject.userId`
abbrev is_own : Option String → Option String → Bool
is_own none s = false
is_own (some u) none = false
is_own (some u) (some s) = not (is_empty u) && (s == u)

unfoldable pub can_access_session : RbacSubject → RbacSession → Bool → Bool
can_access_session subject session is_collaborator =
    if subject_has_permission subject "ai:session:read_all"
    then true
    else if not (subject_has_permission subject "ai:session:read")
    then false
    else if is_own subject.user_id session.user_id
    then true
    else is_collaborator

unfoldable pub can_approve_session : RbacSubject → RbacSession → Bool → Bool
can_approve_session subject session c =
    subject_has_permission subject "ai:session:approve" && can_access_session subject session c

unfoldable pub can_reject_session : RbacSubject → RbacSession → Bool → Bool
can_reject_session subject session c =
    subject_has_permission subject "ai:session:reject" && can_access_session subject session c

unfoldable pub can_validate_patch : RbacSubject → RbacSession → Bool → Bool
can_validate_patch subject session c =
    if not (subject_has_permission subject "ai:patch:create")
    then false
    else can_access_session subject session c

unfoldable pub can_create_pull_request : RbacSubject → RbacSession → Bool → Bool
can_create_pull_request subject session c =
    if not (subject_has_permission subject "ai:pr:create")
    then false
    else if not (can_access_session subject session c)
    then false
    else (session.approval == "approved") || (session.status == "passed")

abbrev is_viewer : Role → Bool
is_viewer viewer = true
is_viewer _ = false

unfoldable pub can_manage_user : RbacSubject → Role → Bool
unfolding role_rank
can_manage_user actor target =
    if not (subject_has_permission actor "ai:users:manage")
    then false
    else leb (role_rank target) (role_rank actor.role) && not (is_viewer actor.role)
