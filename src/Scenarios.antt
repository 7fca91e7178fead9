-- ===== src/Scenarios.antt =====
-- Concrete jobs, and the theorems applied to them.
mod Queues
mod Leases
mod Workers
mod Runs
mod Access
mod Limits
mod Workflows
mod Pulls
mod Patches
use botchatgptclaude.Prelude.{ℕ, String, false, none, some, []}
use botchatgptclaude.Json.{null}
use botchatgptclaude.Job.{WorkerJob, JobResult, test_branch, queued, running}

abbrev pub waiting_job : String → ℕ → ℕ → WorkerJob
waiting_job id priority created = record {
  id = id;
  session_id = some "s1";
  patch_set_id = none;
  pull_request_id = none;
  user_id = none;
  job_type = test_branch;
  status = queued;
  priority = priority;
  payload = null;
  result = none;
  error_message = none;
  lease_owner = none;
  lease_expires_at = none;
  attempts = 0;
  max_attempts = 2;
  created_at = created;
  started_at = none;
  finished_at = none;
  updated_at = created;
}

-- A job that the worker `w1` runs, with a lease until 5000.
abbrev pub running_job : String → WorkerJob
running_job id = record (waiting_job id 5 10) {
  status = running;
  lease_owner = some "w1";
  lease_expires_at = some 5000;
  attempts = 1;
}

abbrev pub no_result : JobResult
no_result = record {
  passed = false;
  commands = [];
  summary = "";
  workspace_path = none;
  patch_applied = none;
  patch_set_id = none;
  changed_files = none;
  diff_summary = none;
  base_hash_checked = none;
  errors = none;
  heartbeat_renewals = none;
  heartbeat_failures = none;
  lease_renewed = none;
  cancelled_by_signal = none;
}
