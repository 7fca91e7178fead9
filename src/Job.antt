-- ===== src/Job.antt =====
-- The records of a sandbox worker job: lib/ai-orchestrator/types.ts, and the argument shapes of
-- lib/ai-orchestrator/worker/types.ts. An ISO timestamp is its number of milliseconds.
use botchatgptclaude.Prelude.{ℕ, String, Bool, true, false, Option, List}
use botchatgptclaude.Json.{Json}

pub data JobType : Type 0 where
  test_patch test_branch build lint : JobType

pub data JobStatus : Type 0 where
  queued running passed failed cancelled timed_out : JobStatus

pub data Stream : Type 0 where
  stdout stderr system : Stream

pub record CommandOutcome : Type 0 where
  pub command : String
  pub exit_code : Option ℕ
  pub duration_ms : ℕ
  pub timed_out : Bool
  pub truncated : Bool

pub record ApplyError : Type 0 where
  pub code : String
  pub file_path : Option String

pub record JobResult : Type 0 where
  pub passed : Bool
  pub commands : List CommandOutcome
  pub summary : String
  pub workspace_path : Option String
  pub patch_applied : Option Bool
  pub patch_set_id : Option String
  pub changed_files : Option (List String)
  pub diff_summary : Option String
  pub base_hash_checked : Option Bool
  pub errors : Option (List ApplyError)
  pub heartbeat_renewals : Option ℕ
  pub heartbeat_failures : Option ℕ
  pub lease_renewed : Option Bool
  pub cancelled_by_signal : Option Bool

pub record WorkerJob : Type 0 where
  pub id : String
  pub session_id : Option String
  pub patch_set_id : Option String
  pub pull_request_id : Option String
  pub user_id : Option String
  pub job_type : JobType
  pub status : JobStatus
  pub priority : ℕ
  pub payload : Json
  pub result : Option JobResult
  pub error_message : Option String
  pub lease_owner : Option String
  pub lease_expires_at : Option ℕ
  pub attempts : ℕ
  pub max_attempts : ℕ
  pub created_at : ℕ
  pub started_at : Option ℕ
  pub finished_at : Option ℕ
  pub updated_at : ℕ

pub record WorkerJobLog : Type 0 where
  pub id : String
  pub job_id : String
  pub stream : Stream
  pub content : String
  pub created_at : ℕ

pub record CreateWorkerJobInput : Type 0 where
  pub session_id : Option String
  pub patch_set_id : Option String
  pub pull_request_id : Option String
  pub user_id : Option String
  pub job_type : JobType
  pub payload : Json
  pub priority : Option ℕ
  pub max_attempts : Option ℕ

-- The outer `none` is `undefined` (keep the field), the inner one `null`.
pub record UpdateWorkerJobStatusInput : Type 0 where
  pub status : Option JobStatus
  pub result : Option (Option JobResult)
  pub error_message : Option (Option String)
  pub lease_owner : Option (Option String)
  pub lease_expires_at : Option (Option ℕ)
  pub attempts : Option ℕ
  pub started_at : Option (Option ℕ)
  pub finished_at : Option (Option ℕ)

abbrev pub is_queued : JobStatus → Bool
is_queued queued = true
is_queued _ = false

abbrev pub is_running : JobStatus → Bool
is_running running = true
is_running _ = false

abbrev pub is_passed : JobStatus → Bool
is_passed passed = true
is_passed _ = false

abbrev pub is_cancelled : JobStatus → Bool
is_cancelled cancelled = true
is_cancelled _ = false

-- The set `TERMINAL` of test-runner-worker.ts, which is also `TERMINAL_JOB` of
-- async-orchestrator.ts and `TERMINAL_JOB_STATUSES` of orchestration-resume-scheduler.ts.
abbrev pub is_terminal : JobStatus → Bool
is_terminal passed = true
is_terminal failed = true
is_terminal timed_out = true
is_terminal cancelled = true
is_terminal _ = false

abbrev pub is_test_patch : JobType → Bool
is_test_patch test_patch = true
is_test_patch _ = false
