-- ===== src/Hub.antt =====
-- The state of the pull request flow: the records of lib/ai-orchestrator/types.ts and the client's
-- port of github/types.ts. The client is a parameter that answers by the calls made before; `Hub`
-- keeps the calls in order, with the tables and the audit trail.
pub mod Tables
use botchatgptclaude.Prelude.{ℕ, String, Bool, Option, List, [], ◌∷◌, ◌++◌, Result}
use botchatgptclaude.Audit.{AuditEntry}
use botchatgptclaude.Effect.{Effect}

pub record GithubFileContent : Type 0 where
  pub content : String
  pub sha : String

pub record PutFileArgs : Type 0 where
  pub path : String
  pub content : String
  pub message : String
  pub branch : String
  pub sha : Option String

pub record DeleteFileArgs : Type 0 where
  pub path : String
  pub message : String
  pub branch : String
  pub sha : String

pub record CreatePullRequestArgs : Type 0 where
  pub title : String
  pub head : String
  pub base : String
  pub body : String

pub record CreatedPullRequest : Type 0 where
  pub number : ℕ
  pub url : String

pub data Call : Type 0 where
  get_branch_sha branch_exists : String → Call
  create_branch : String → String → Call
  get_file : String → String → Call
  put_file : PutFileArgs → Call
  delete_file : DeleteFileArgs → Call
  create_pull_request : CreatePullRequestArgs → Call

-- What the client answers to a call after others, or throws.
pub record GithubClient : Type 0 where
  pub on_branch_sha : List Call → String → Result (Option String)
  pub on_branch_exists : List Call → String → Result Bool
  pub on_create_branch : List Call → String → String → Result (Unit {0})
  pub on_get_file : List Call → String → String → Result (Option GithubFileContent)
  pub on_put_file : List Call → PutFileArgs → Result (Unit {0})
  pub on_delete_file : List Call → DeleteFileArgs → Result (Unit {0})
  pub on_pull_request : List Call → CreatePullRequestArgs → Result CreatedPullRequest

pub data PatchSetStatus : Type 0 where
  draft validated applied failed superseded : PatchSetStatus

pub record PatchSetRecord : Type 0 where
  pub id : String
  pub session_id : String
  pub user_id : Option String
  pub status : PatchSetStatus
  pub base_branch : String
  pub target_branch : String
  pub base_sha : Option String
  pub patch_summary : Option String
  pub patch_text : Option String
  pub validation_errors : Option (List String)
  pub created_at : ℕ
  pub updated_at : ℕ

pub data PatchFileChangeType : Type 0 where
  create modify delete rename : PatchFileChangeType

pub record PatchFileRecord : Type 0 where
  pub patch_set_id : String
  pub file_path : String
  pub change_type : PatchFileChangeType
  pub old_content_hash : Option String
  pub new_content_hash : Option String
  pub patch_hunk : Option String
  pub reason : Option String
  pub new_content_redacted : Option String

pub data PullRequestStatus : Type 0 where
  dry_run created closed merged failed : PullRequestStatus

pub record PullRequestRecord : Type 0 where
  pub id : String
  pub session_id : String
  pub patch_set_id : String
  pub user_id : Option String
  pub github_pr_number : Option ℕ
  pub github_pr_url : Option String
  pub branch_name : String
  pub base_branch : String
  pub status : PullRequestStatus
  pub error_message : Option String
  pub created_at : ℕ
  pub updated_at : ℕ

pub record Hub : Type 0 where
  pub patch_sets : List PatchSetRecord
  pub patch_files : List PatchFileRecord
  pub pull_requests : List PullRequestRecord
  pub audits : List AuditEntry
  pub calls : List Call

abbrev pub HubAction : Type 0 → Type 0
HubAction A = Effect Hub A

-- One call of the client.
unfoldable pub ask : {A : Type 0} → Call → (List Call → Result A) → HubAction A
ask c answer h = (record h { calls = h.calls ++ c ∷ [] }, answer h.calls)
