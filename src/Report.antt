-- ===== src/Report.antt =====
-- The report of a sandbox job: `buildReportFromJob` and `enqueueOrchestratorTestJob` of
-- lib/ai-orchestrator/test-runner-worker.ts, and `formatTestReport` of test-runner.ts.
use Prim.Native.String
use botchatgptclaude.Prelude.{
  ℕ, eqb, String, Bool, true, not, Option, none, some, get_or, List, [], ◌∷◌, map, if◌then◌else◌,
}
use botchatgptclaude.Text.{show, slice, join_lines, is_empty}
use botchatgptclaude.Json.{str, num, arr, obj, Items, nil, cons, end, field}
use botchatgptclaude.Job.{
  JobStatus, JobResult, WorkerJob, CommandOutcome, CreateWorkerJobInput, test_branch, is_passed,
  queued, running, passed, failed, cancelled, timed_out,
}

pub record CommandResult : Type 0 where
  pub command : String
  pub allowed : Bool
  pub reason : String
  pub exit_code : Option ℕ
  pub stdout : String
  pub stderr : String
  pub executed : Bool

pub record TestReport : Type 0 where
  pub results : List CommandResult
  pub passed : Bool

pub data TestMode : Type 0 where
  inline worker : TestMode

pub record TestStepResult : Type 0 where
  pub report : TestReport
  pub mode : TestMode
  pub worker_job_id : Option String

abbrev pub status_text : JobStatus → String
status_text queued = "queued"
status_text running = "running"
status_text passed = "passed"
status_text failed = "failed"
status_text cancelled = "cancelled"
status_text timed_out = "timed_out"

abbrev worker_result : CommandOutcome → CommandResult
worker_result c = record {
  command = c.command;
  allowed = true;
  reason = "sandbox worker";
  exit_code = c.exit_code;
  stdout = "";
  stderr = "";
  executed = true;
}

abbrev job_commands : Option JobResult → List CommandOutcome
job_commands none = []
job_commands (some r) = r.commands

abbrev job_summary : JobStatus → Option JobResult → String
job_summary status none = status_text status
job_summary status (some r) = r.summary

-- The single result of a job that ran no command.
abbrev only_result : WorkerJob → CommandResult
only_result job = record {
  command = "(sandbox worker)";
  allowed = true;
  reason = "sandbox worker";
  exit_code = some (if is_passed job.status then 0 else 1);
  stdout = "";
  stderr = slice 400 (job_summary job.status job.result);
  executed = true;
}

abbrev or_only : WorkerJob → List CommandResult → List CommandResult
or_only job [] = only_result job ∷ []
or_only job (r ∷ rs) = r ∷ rs

unfoldable pub build_report_from_job : WorkerJob → TestReport
build_report_from_job job = record {
  results = or_only job (map worker_result (job_commands job.result));
  passed = is_passed job.status;
}

abbrev exit_text : Option ℕ → String
exit_text none = "FAIL(null)"
exit_text (some c) = if eqb c 0 then "PASS" else String.◌++◌ "FAIL(" (String.◌++◌ (show c) ")")

unfoldable pub result_status : CommandResult → String
result_status r =
    if not r.allowed
    then "BLOCKED"
    else if not r.executed
    then "DRY-RUN(ok)"
    else exit_text r.exit_code

abbrev result_line : CommandResult → String
result_line r = String.◌++◌ "$ " (
    String.◌++◌ r.command (
      String.◌++◌ "\n  -> " (
        String.◌++◌ (result_status r)
          (if is_empty r.stderr then "" else String.◌++◌ "\n  stderr: " (slice 400 r.stderr)))))

unfoldable pub format_test_report : TestReport → String
format_test_report report = String.◌++◌ "TEST REPORT (overall: " (
    String.◌++◌ (if report.passed then "PASS" else "FAIL")
      (String.◌++◌ ")\n" (join_lines (map result_line report.results))))

abbrev strings : List String → Items
strings [] = nil
strings (s ∷ ss) = cons (str s) (strings ss)

abbrev pub orchestrator_test_commands : List String
orchestrator_test_commands = "npm ci" ∷ "npm run typecheck" ∷ "npm test" ∷ "npm run build" ∷ []

pub record TestJobArgs : Type 0 where
  pub session_id : String
  pub round : ℕ
  pub repo_clone_url : String
  pub branch : String
  pub commands : Option (List String)
  pub user_id : Option String

-- What `enqueueOrchestratorTestJob` gives to `queue.enqueue`.
unfoldable pub orchestrator_test_input : TestJobArgs → CreateWorkerJobInput
orchestrator_test_input args = record {
  session_id = some args.session_id;
  patch_set_id = none;
  pull_request_id = none;
  user_id = args.user_id;
  job_type = test_branch;
  payload = obj (
      field "repo"
        (obj (field "clone_url" (str args.repo_clone_url) (field "branch" (str args.branch) end)))
        (field "commands" (arr (strings (get_or args.commands orchestrator_test_commands))) (
          field "session_id" (str args.session_id) (
            field "round" (num args.round)
              (field "source" (str "orchestrator_test_runner") end)))));
  priority = none;
  max_attempts = none;
}
