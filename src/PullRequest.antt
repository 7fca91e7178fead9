-- ===== src/PullRequest.antt =====
-- The pull request flow: `createPullRequestForSession` of
-- lib/ai-orchestrator/github/pull-request-service.ts, with `validateAndStorePatch` of
-- github/patch-service.ts as the flow calls it. Each gate stops the flow with its answer or lets it
-- go on; what lies behind the gates is in PullRequest/Publish.antt.
pub mod Steps
pub mod TestGate
pub mod Publish
pub mod Gates
pub mod Resolved
pub mod Tested
pub mod Flow
pub mod Contained
use Prim.Native.String.{◌++◌}
use botchatgptclaude.Prelude.{
  ℕ, String, Bool, true, false, not, ◌&&◌, ◌||◌, Option, none, some, get_or, List, [], ◌∷◌, ◌==◌,
  if◌then◌else◌, is_some, length, Result, ok, err,
}
use botchatgptclaude.Prelude
use botchatgptclaude.Audit
use botchatgptclaude.Audit.{AuditEventType}
use botchatgptclaude.Text.{show, slice, is_empty}
use botchatgptclaude.Job.{WorkerJob}
use botchatgptclaude.Queue.{Jobs}
use botchatgptclaude.Store
use botchatgptclaude.Store.{SessionRecord, SessionStatus, Approval}
use botchatgptclaude.Rbac.{
  Role, owner, admin, RbacSubject, RbacSession, subject_has_permission, can_access_session,
}
use botchatgptclaude.Report.{TestReport}
use botchatgptclaude.Effect.{return, throw, ◌>>=◌, ◌>>◌, modify}
use botchatgptclaude.Hub
use botchatgptclaude.Hub.{
  PatchSetStatus, PatchSetRecord, PatchFileRecord, PatchFileChangeType, PullRequestRecord,
  GithubClient, Hub, HubAction,
}
use botchatgptclaude.Hub.Tables.{
  create_patch_set, PatchSetArgs, update_patch_set, PatchSetPatch, add_patch_file,
  create_pull_request,
}
use botchatgptclaude.Github.{build_branch_name}
use botchatgptclaude.Patch
use botchatgptclaude.Patch.{
  Patterns, PatchFileAction, PatchFileSpec, PatchArtifact, ValidatePatchOptions,
  PatchValidationResult, validate_patch,
}

pub data PrBlockReason : Type 0 where
  permission_denied not_approved patch_not_validated github_disabled : PrBlockReason
  github_not_configured tests_disabled tests_failed health_failed smoke_required : PrBlockReason
  worker_required worker_failed worker_patch_mismatch worker_hash_not_checked : PrBlockReason
  base_hash_mismatch github_error : PrBlockReason

pub record GithubConfig : Type 0 where
  pub token : String
  pub owner_name : String
  pub repo : String
  pub default_branch : String

pub record PrFlowConfig : Type 0 where
  pub enable_github_pr : Bool
  pub dry_run : Bool
  pub execute_tests : Bool
  pub require_smoke_pass : Bool
  pub smoke_passed_at : Option String
  pub github_config : Option GithubConfig
  pub default_branch : String
  pub allow_inline_commands : Bool
  pub patch_hash_strict : Bool

-- What the flow is given, and what it calls outside of the program.
pub record PrFlowDeps : Type 0 where
  pub subject : RbacSubject
  pub is_collaborator : Bool
  pub session : SessionRecord
  pub patch_artifact_text : Option String
  pub existing_patch_set : Option PatchSetRecord
  pub config : PrFlowConfig
  pub github_client : Option GithubClient
  pub create_client : GithubConfig → GithubClient
  pub run_tests : TestReport
  pub health_check : Result Bool
  pub jobs : Jobs
  pub is_production : Bool
  pub timestamp : ℕ
  pub parse_patch : String → Result PatchArtifact
  pub patterns : Patterns
  pub hash : String → String
  -- the ids that the database draws, and the clock
  pub patch_set_id : String
  pub pull_request_id : String
  pub failed_id : String
  pub now : ℕ

pub record PrFlowResult : Type 0 where
  pub ok : Bool
  pub http_status : ℕ
  pub is_dry_run : Bool
  pub blocked_reason : Option PrBlockReason
  pub message : String
  pub patch_set_id : Option String
  pub branch_name : Option String
  pub pull_request : Option PullRequestRecord
  pub pr_url : Option String
  pub validation_errors : Option (List String)
  pub test_report : Option String

-- A gate's answer, or what it lets go on.
pub data Gate (A : Type 0) : Type 0 where
  stop : PrFlowResult → Gate A
  go : A → Gate A

abbrev pub continue : {A : Type 0} → (A → HubAction PrFlowResult) → Gate A → HubAction PrFlowResult
continue f (stop r) = return r
continue f (go a) = f a

abbrev pub is_validated : PatchSetStatus → Bool
is_validated Hub.validated = true
is_validated _ = false

abbrev pub is_approved : SessionRecord → Bool
is_approved session = approves session.approval || passes session.status
  where
    approves : Approval → Bool
    approves Store.approved = true
    approves _ = false

    passes : SessionStatus → Bool
    passes Store.SessionStatus.passed = true
    passes _ = false

abbrev pub change_type : PatchFileAction → PatchFileChangeType
change_type Patch.create = Hub.create
change_type Patch.modify = Hub.modify
change_type Patch.delete = Hub.delete

abbrev pub is_delete : PatchFileAction → Bool
is_delete Patch.delete = true
is_delete _ = false

-- `roleCanDelete`
unfoldable pub role_can_delete : Role → Bool
role_can_delete owner = true
role_can_delete admin = true
role_can_delete _ = false

-- Who owns the session is all that the access check reads.
abbrev pub rbac_session : SessionRecord → RbacSession
rbac_session s = record { user_id = s.user_id; status = ""; approval = "" }

pub record Stored : Type 0 where
  pub patch_set : PatchSetRecord
  pub patch : Option PatchArtifact
  pub is_ok : Bool
  pub errors : List String

module _ (deps : PrFlowDeps) where
  unfoldable pub audit : AuditEventType → String → HubAction Unit
  audit type status = modify (λ h. record h {
    audits = Prelude.◌++◌ h.audits (
        (record {
          event_type = type;
          status = status;
          session_id = some deps.session.id;
          user_id = deps.subject.user_id;
        })
        ∷ []);
  })

  abbrev pub blocked_with :
      PrBlockReason → ℕ → String → Option String → Option (List String) → PrFlowResult
  blocked_with reason status message set errors = record {
    ok = false;
    http_status = status;
    is_dry_run = deps.config.dry_run;
    blocked_reason = some reason;
    message = message;
    patch_set_id = set;
    branch_name = none;
    pull_request = none;
    pr_url = none;
    validation_errors = errors;
    test_report = none;
  }

  abbrev pub blocked :
      {A : Type 0} → PrBlockReason → ℕ → String → Option String → HubAction (Gate A)
  blocked reason status message set = return (stop (blocked_with reason status message set none))

  abbrev pub intended_branch : String
  intended_branch = build_branch_name deps.session.id deps.timestamp

  abbrev pub validate_options : ValidatePatchOptions
  validate_options = record {
    can_delete = role_can_delete deps.subject.role;
    package_lock_approved = false;
  }
