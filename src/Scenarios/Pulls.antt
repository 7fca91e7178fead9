-- ===== src/Scenarios/Pulls.antt =====
-- A pull request of a session whose patch a sandbox job has passed.
use botchatgptclaude.Prelude.{true, false, none, some, [], ◌∷◌, ok}
use botchatgptclaude.Job
use botchatgptclaude.Job.{WorkerJob, test_patch}
use botchatgptclaude.Store
use botchatgptclaude.Rbac.{developer}
use botchatgptclaude.Hub
use botchatgptclaude.Hub.{GithubClient, Hub, PatchSetRecord}
use botchatgptclaude.Patch.{Patterns, PatchArtifact, create}
use botchatgptclaude.PullRequest.{PrFlowConfig, PrFlowDeps}
use botchatgptclaude.PullRequest.Publish.{create_pull_request_for_session}
use botchatgptclaude.PullRequest.Flow.{IsGuarded, create_pull_request_for_session-IsGuarded}
use botchatgptclaude.Scenarios.{waiting_job, no_result}
use botchatgptclaude.Scenarios.Runs.{session}

abbrev pub patterns : Patterns
patterns = record {
  found = λ n s. none;
  redact = λ s. s;
  extra_secret = λ s. false;
  deploys = λ s. false;
}

abbrev pub patch : PatchArtifact
patch = record {
  files = (record { path = "src/a.ts"; action = create; content = some "x"; reason = "" }) ∷ [];
  commands_to_run = "npm test" ∷ [];
  risk_notes = [];
}

-- A client on an empty repository, where everything works.
abbrev client : GithubClient
client = record {
  on_branch_sha = λ log branch. ok (some "sha");
  on_branch_exists = λ log branch. ok false;
  on_create_branch = λ log branch sha. ok tt;
  on_get_file = λ log path ref. ok none;
  on_put_file = λ log args. ok tt;
  on_delete_file = λ log args. ok tt;
  on_pull_request = λ log args. ok (record { number = 1; url = "pr" });
}

abbrev config : PrFlowConfig
config = record {
  enable_github_pr = true;
  dry_run = false;
  execute_tests = false;
  require_smoke_pass = false;
  smoke_passed_at = none;
  github_config = none;
  default_branch = "main";
  allow_inline_commands = false;
  patch_hash_strict = true;
}

abbrev pub patch_set : PatchSetRecord
patch_set = record {
  id = "p1";
  session_id = "s1";
  user_id = none;
  status = Hub.validated;
  base_branch = "main";
  target_branch = "b";
  base_sha = none;
  patch_summary = none;
  patch_text = none;
  validation_errors = none;
  created_at = 0;
  updated_at = 0;
}

abbrev passed_job : WorkerJob
passed_job = record (waiting_job "j1" 5 10) {
  job_type = test_patch;
  status = Job.passed;
  patch_set_id = some "p1";
  result = some (record no_result { patch_applied = some true; base_hash_checked = some true });
}

abbrev flow : PrFlowDeps
flow = record {
  subject = record {
    user_id = some "u1";
    role = developer;
    permissions = "ai:pr:create" ∷ "ai:session:read_all" ∷ [];
  };
  is_collaborator = false;
  session = record session { approval = Store.approved };
  patch_artifact_text = some "patch";
  existing_patch_set = some patch_set;
  config = config;
  github_client = some client;
  create_client = λ c. client;
  run_tests = record { results = []; passed = false };
  health_check = ok true;
  jobs = passed_job ∷ [];
  is_production = true;
  timestamp = 7;
  parse_patch = λ text. ok patch;
  patterns = patterns;
  hash = λ s. s;
  patch_set_id = "p2";
  pull_request_id = "q1";
  failed_id = "q2";
  now = 50;
}

abbrev hub : Hub
hub = record {
  patch_sets = patch_set ∷ [];
  patch_files = [];
  pull_requests = [];
  audits = [];
  calls = [];
}

create_pull_request_for_session-IsGuarded_example :
    IsGuarded flow []
      (create_pull_request_for_session flow hub).0
      (create_pull_request_for_session flow hub).1
create_pull_request_for_session-IsGuarded_example =
    create_pull_request_for_session-IsGuarded flow hub
