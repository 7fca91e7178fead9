-- ===== src/Async.antt =====
-- `AsyncOrchestrator` of lib/ai-orchestrator/async-orchestrator.ts: the orchestration that stops
-- at each sandbox job and is resumed when the job has ended. The repository and the queue are one
-- database (`Store`); the model adapters, the redaction and the scan's patterns are in `Deps`. The
-- clock is read once for each call.
pub mod Resumption
pub mod Outcome
pub mod Steps
pub mod Rounds
pub mod Ending
use Prim.Native.String.{◌++◌}
use botchatgptclaude.Prelude.{
  ℕ, suc, min, ltb, String, Bool, true, false, not, ◌&&◌, ◌||◌, Option, none, some, get_or, List,
  [], ◌∷◌, ◌==◌, if◌then◌else◌, length, Result, ok, err,
}
use botchatgptclaude.Audit
use botchatgptclaude.Audit.{AuditEventType}
use botchatgptclaude.Text.{show, is_empty}
use botchatgptclaude.Job
use botchatgptclaude.Job.{WorkerJob, is_passed}
use botchatgptclaude.Queue.{get, enqueue}
use botchatgptclaude.Agent.{
  AgentStatus, pass, needs_revision, fail, is_pass, ArtifactType, spec, review, plan, patch,
  test_report, AgentOutput, StepName, gpt_product_spec, claude_critical_review,
  gpt_implementation_plan, claude_code_implementer, test_runner, gpt_code_reviewer, qa_judge,
  system, step_provider, artifact_text, mock,
}
use botchatgptclaude.Scan.{
  Found, SafetyViolation, scan_content, has_blocking_violation, is_fatal, violation_output,
}
use botchatgptclaude.Report.{
  CommandResult, TestReport, build_report_from_job, format_test_report, orchestrator_test_input,
  TestJobArgs,
}
use botchatgptclaude.Store
use botchatgptclaude.Store.{
  OrchestrationState, OrchestrationRun, OrchestrationRunStatus, SessionStatus, Store, Action,
  return, throw, modify, read, ◌>>=◌, ◌>>◌, add_message, add_run, RunArgs,
}
use botchatgptclaude.Orchestration.{
  is_terminal, is_waiting, get_run, create_run, update_run, RunPatch, no_patch,
}
use botchatgptclaude.Session.{
  SessionPatch, empty_state, redact_state, update_session, create_session, append_event,
}

pub record Deps : Type 0 where
  -- the n-th answer of a model, by the number of messages stored before it
  pub complete : ℕ → StepName → String → AgentOutput → Result AgentOutput
  pub redact : String → String
  pub found : Found
  pub repo_clone_url : String
  pub branch : String
  pub commands : Option (List String)
  pub human_approved : Bool
  pub max_rounds : Option ℕ
  pub user_id : Option String

pub record AsyncResult : Type 0 where
  pub orchestration_run_id : String
  pub session_id : String
  pub status : OrchestrationRunStatus
  pub round : ℕ
  pub worker_job_id : Option String
  pub still_waiting : Bool

abbrev pub done : String → String → OrchestrationRunStatus → ℕ → AsyncResult
done rid sid status round = record {
  orchestration_run_id = rid;
  session_id = sid;
  status = status;
  round = round;
  worker_job_id = none;
  still_waiting = false;
}

abbrev pub max_rounds_limit : ℕ
max_rounds_limit = 3

abbrev session_status : OrchestrationRunStatus → SessionStatus
session_status Store.passed = Store.SessionStatus.passed
session_status Store.failed = Store.SessionStatus.failed
session_status _ = Store.SessionStatus.needs_revision

abbrev final_event : OrchestrationRunStatus → AuditEventType
final_event Store.failed = Audit.orchestration_failed
final_event _ = Audit.orchestration_completed

-- A judge cannot pass a run whose tests are red.
unfoldable pub guard_verdict : Bool → AgentStatus → AgentStatus
guard_verdict tests_passed v = if not tests_passed && is_pass v then needs_revision else v

module _ (deps : Deps) (now : ℕ) where
  abbrev pub event : AuditEventType → String → String → Action Unit
  event type rid sid = append_event type rid sid deps.user_id

  abbrev answered : String → StepName → ℕ → Result AgentOutput → Action AgentOutput
  answered sid step round (err m) = throw m
  answered sid step round (ok out) =
      add_message sid step (step_provider step) round out >> return out

  unfoldable pub run_step : String → StepName → ℕ → String → AgentOutput → Action AgentOutput
  run_step sid step round content mock_output s =
      answered sid step round (deps.complete (length s.messages) step content mock_output) s

  abbrev pub final_session : OrchestrationRunStatus → ℕ → SessionPatch
  final_session status round = record {
    status = some (session_status status);
    approval = none;
    rounds = some round;
  }

  abbrev pub final_run : OrchestrationRunStatus → OrchestrationState → RunPatch
  final_run status state = record no_patch {
    status = some status;
    current_step = some none;
    pending_worker_job_id = some none;
    finished_at = some (some now);
    state = some (redact_state deps.redact state);
  }

  unfoldable pub finalize :
      String → String → OrchestrationRunStatus → ℕ → OrchestrationState → Action AsyncResult
  finalize sid rid status round state = do
    update_session sid (final_session status round) now
    update_run deps.redact rid (final_run status state) now
    event (final_event status) rid sid
    return (done rid sid status round)

  abbrev job_args : String → ℕ → TestJobArgs
  job_args sid round = record {
    session_id = sid;
    round = round;
    repo_clone_url = deps.repo_clone_url;
    branch = deps.branch;
    commands = deps.commands;
    user_id = deps.user_id;
  }

  abbrev pub enqueue_job : String → String → ℕ → Action WorkerJob
  enqueue_job job_id sid round s =
      let (jobs, job) = enqueue job_id now (orchestrator_test_input (job_args sid round)) s.jobs in
      (record s { jobs = jobs }, ok job)

  abbrev pub queued_run : String → String → RunArgs
  queued_run sid job_id = record {
    session_id = sid;
    command = "(sandbox worker test)";
    allowed = true;
    exit_code = none;
    stdout = "";
    stderr = "[queued] worker job " ++ job_id;
    step = some test_runner;
    user_id = deps.user_id;
  }

  abbrev pub waiting_run : ℕ → String → OrchestrationState → RunPatch
  waiting_run round job_id state = record no_patch {
    status = some Store.waiting_for_worker;
    current_round = some round;
    current_step = some (some test_runner);
    pending_worker_job_id = some (some job_id);
    state = some (redact_state deps.redact state);
  }

  -- The last part of `implementAndEnqueue`: the sandbox job, and the run that waits for it.
  unfoldable pub enqueue_tests :
      String → String → String → ℕ → OrchestrationState → Action AsyncResult
  enqueue_tests job_id sid rid round state = do
    job ← enqueue_job job_id sid round
    add_run deps.redact (queued_run sid job.id)
    update_run deps.redact rid (waiting_run round job.id state) now
    event Audit.orchestration_worker_job_linked rid sid
    event Audit.orchestration_waiting_for_worker rid sid
    return (record (done rid sid Store.waiting_for_worker round) { worker_job_id = some job.id })

  abbrev blocked :
      List SafetyViolation → String → String → ℕ → OrchestrationState → Action AsyncResult
  blocked violations sid rid round state =
      let fatal = is_fatal violations in
      add_message sid claude_code_implementer system round (violation_output violations fatal)
      >> finalize sid rid (if fatal then Store.failed else Store.needs_revision) round state

  -- The safety scan of the proposed changes, and what follows it.
  unfoldable pub scan_and_enqueue :
      String → String → String → ℕ → OrchestrationState → Action AsyncResult
  scan_and_enqueue job_id sid rid round state =
      let violations = scan_content deps.found deps.human_approved state.patch_text in
      if has_blocking_violation violations
      then blocked violations sid rid round state
      else enqueue_tests job_id sid rid round state

  abbrev implementer_prompt : OrchestrationState → String
  implementer_prompt state =
      "Plan:\n"
      ++ state.plan_text
      ++ "\n\nCritique:\n"
      ++ state.critique_text
      ++ (if is_empty state.last_review_text
          then ""
          else "\n\nPrevious review to address:\n" ++ state.last_review_text)

  abbrev pub round_session : ℕ → SessionPatch
  round_session round = record { status = none; approval = none; rounds = some round }

  abbrev pub round_run : ℕ → OrchestrationState → RunPatch
  round_run round state = record no_patch {
    current_round = some round;
    current_step = some (some claude_code_implementer);
    state = some (redact_state deps.redact state);
  }

  unfoldable pub implement_and_enqueue :
      String → String → String → ℕ → OrchestrationState → Action AsyncResult
  implement_and_enqueue job_id sid rid round state = do
    update_session sid (round_session round) now
    update_run deps.redact rid (round_run round state) now
    event Audit.orchestration_round_started rid sid
    out ← run_step sid claude_code_implementer round (implementer_prompt state) (
        mock pass "Generated patch for the plan (mock no-op)." patch
          "MOCK PATCH\n--- no-op diff ---")
    scan_and_enqueue job_id sid rid round (record state { patch_text = artifact_text out patch })
