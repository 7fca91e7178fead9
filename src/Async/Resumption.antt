-- ===== src/Async/Resumption.antt =====
-- `start` and `resume` of the orchestrator: what it does with the report of a job that has ended.
use Prim.Native.String.{◌++◌}
use botchatgptclaude.Prelude.{
  ℕ, suc, min, ltb, String, Bool, true, not, ◌&&◌, ◌||◌, Option, none, some, get_or, List, [], ◌∷◌,
  if◌then◌else◌,
}
use botchatgptclaude.Audit
use botchatgptclaude.Audit.{AuditEventType}
use botchatgptclaude.Text.{show, is_empty}
use botchatgptclaude.Job
use botchatgptclaude.Job.{WorkerJob, is_passed}
use botchatgptclaude.Queue.{get}
use botchatgptclaude.Agent.{
  AgentStatus, pass, needs_revision, fail, is_pass, spec, review, plan, test_report, AgentOutput,
  StepName, gpt_product_spec, claude_critical_review, gpt_implementation_plan, test_runner,
  gpt_code_reviewer, qa_judge, system, artifact_text, mock,
}
use botchatgptclaude.Report.{CommandResult, build_report_from_job, format_test_report}
use botchatgptclaude.Store
use botchatgptclaude.Store.{
  OrchestrationState, OrchestrationRun, OrchestrationRunStatus, SessionStatus, Store, Action,
  return, throw, modify, read, ◌>>=◌, ◌>>◌, add_message, add_run, RunArgs,
}
use botchatgptclaude.Orchestration.{
  is_terminal, is_waiting, get_run, create_run, update_run, RunPatch, no_patch,
}
use botchatgptclaude.Session.{empty_state, redact_state, create_session}
use botchatgptclaude.Async.{
  Deps, AsyncResult, done, max_rounds_limit, guard_verdict, event, run_step, finalize,
  implement_and_enqueue,
}

module _ (deps : Deps) (now : ℕ) where
  -- `for (const r of report.results) await repo.addRun(…)`
  unfoldable pub record_results : String → List CommandResult → Action Unit
  record_results sid [] = return tt
  record_results sid (r ∷ rs) =
      add_run deps.redact (record {
        session_id = sid;
        command = r.command;
        allowed = r.allowed;
        exit_code = r.exit_code;
        stdout = r.stdout;
        stderr = r.stderr;
        step = some test_runner;
        user_id = deps.user_id;
      })
      >> record_results sid rs

  -- What the judge's verdict leads to.
  unfoldable pub conclude :
      AgentStatus → String → OrchestrationRun → OrchestrationState → Action AsyncResult
  conclude pass job_id run state =
      finalize deps now run.session_id run.id Store.passed run.current_round state
  conclude fail job_id run state =
      finalize deps now run.session_id run.id Store.failed run.current_round state
  conclude needs_revision job_id run state =
      if ltb run.current_round run.max_rounds
      then implement_and_enqueue deps now job_id run.session_id run.id (suc run.current_round) state
      else finalize deps now run.session_id run.id Store.needs_revision run.current_round state

  abbrev pub step_run : StepName → RunPatch
  step_run step = record no_patch { current_step = some (some step) }

  abbrev pub current_step : OrchestrationRun → StepName → Action Unit
  current_step run step = update_run deps.redact run.id (step_run step) now

  abbrev pub mock_verdict : Bool → AgentStatus
  mock_verdict b = if b then pass else needs_revision

  abbrev pub report_text : WorkerJob → String
  report_text job =
      "[worker_job_id: " ++ job.id ++ "]\n" ++ format_test_report (build_report_from_job job)

  -- The judge, and what its verdict leads to.
  unfoldable pub judge : String → OrchestrationRun → WorkerJob → AgentOutput → Action AsyncResult
  judge job_id run job reviewed = do
    current_step run qa_judge
    judged ←
        run_step deps now run.session_id qa_judge run.current_round
          ("Code review:\n" ++ artifact_text reviewed review ++ "\n\n" ++ report_text job)
          (mock (mock_verdict ((build_report_from_job job).passed && is_pass reviewed.status))
            "Final QA verdict." review ("MOCK VERDICT round " ++ show run.current_round ++ "."))
    conclude (guard_verdict (build_report_from_job job).passed judged.status) job_id run
        (record run.state {
          last_test_report = report_text job;
          last_review_text = artifact_text reviewed review;
        })

  unfoldable pub review_and_judge : String → OrchestrationRun → WorkerJob → Action AsyncResult
  review_and_judge job_id run job = do
    current_step run gpt_code_reviewer
    reviewed ←
        run_step deps now run.session_id gpt_code_reviewer run.current_round
          ("Patch:\n" ++ run.state.patch_text ++ "\n\n" ++ report_text job)
          (mock (mock_verdict (build_report_from_job job).passed)
            "Reviewed diff against test report." review
            "MOCK REVIEW\nNo blocking issues found in mock mode.")
    judge job_id run job reviewed

  abbrev pub test_message : WorkerJob → AgentOutput
  test_message job =
      mock (mock_verdict (build_report_from_job job).passed)
        ("Test suite "
          ++ (if (build_report_from_job job).passed then "passed" else "failed")
          ++ " (worker, job "
          ++ job.id
          ++ ").")
        test_report (report_text job)

  -- The part of `resume` after the job was found to have ended.
  unfoldable pub resume_with : String → OrchestrationRun → WorkerJob → Action AsyncResult
  resume_with job_id run job = do
    event deps now Audit.orchestration_resumed run.id run.session_id
    record_results run.session_id (build_report_from_job job).results
    add_message run.session_id test_runner system run.current_round (test_message job)
    review_and_judge job_id run job

  abbrev pub waiting_on : OrchestrationRun → OrchestrationRunStatus → Option String → AsyncResult
  waiting_on run status job_id = record {
    orchestration_run_id = run.id;
    session_id = run.session_id;
    status = status;
    round = run.current_round;
    worker_job_id = job_id;
    still_waiting = true;
  }

  abbrev pub resume_job : String → OrchestrationRun → String → Option WorkerJob → Action AsyncResult
  resume_job job_id run pending none =
      return (waiting_on run Store.waiting_for_worker (some pending))
  resume_job job_id run pending (some job) =
      if Job.is_terminal job.status
      then resume_with job_id run job
      else return (waiting_on run Store.waiting_for_worker (some pending))

  -- `!run.pending_worker_job_id` holds of a missing and of an empty id.
  abbrev pub resume_pending : String → OrchestrationRun → Option String → Action AsyncResult
  resume_pending job_id run none s = return (waiting_on run run.status none) s
  resume_pending job_id run (some pending) s =
      if not (is_waiting run.status) || is_empty pending
      then return (waiting_on run run.status none) s
      else resume_job job_id run pending (get pending s.jobs) s

  abbrev pub resume_run : String → String → Option OrchestrationRun → Action AsyncResult
  resume_run job_id rid none s = throw ("Orchestration run " ++ rid ++ " not found") s
  resume_run job_id rid (some run) s =
      if is_terminal run.status
      then return (done run.id run.session_id run.status run.current_round) s
      else resume_pending job_id run run.pending_worker_job_id s

  unfoldable pub resume : String → String → Action AsyncResult
  resume job_id rid s = resume_run job_id rid (get_run rid s.runs) s

  -- `Math.min(deps.maxRounds ?? MAX_ROUNDS, MAX_ROUNDS)`
  unfoldable pub max_rounds : ℕ
  max_rounds = min (get_or deps.max_rounds max_rounds_limit) max_rounds_limit

  unfoldable pub start : String → String → String → String → Action AsyncResult
  start sid rid job_id user_request = do
    _ ← create_session sid now user_request deps.user_id
    _ ← create_run rid now (record {
      session_id = sid;
      user_id = deps.user_id;
      status = some Store.running;
      current_round = some 1;
      max_rounds = some max_rounds;
      current_step = some gpt_product_spec;
      state = redact_state deps.redact state;
    })
    event deps now Audit.orchestration_async_started rid sid
    specified ← run_step deps now sid gpt_product_spec 0 ("User request:\n" ++ user_request) (
        mock pass "Drafted technical spec from the user request." spec
          "MOCK SPEC\nGoals, scope, data model, API surface, UI, acceptance criteria.")
    critique ←
        run_step deps now sid claude_critical_review 0
          ("User request:\n"
            ++ user_request
            ++ "\n\nSpec to review:\n"
            ++ artifact_text specified spec)
          (mock pass "Reviewed spec; no blocking gaps in mock mode." review
            "MOCK CRITIQUE\nEdge cases and assumptions to confirm.")
    planned ←
        run_step deps now sid gpt_implementation_plan 0
          ("Spec:\n"
            ++ artifact_text specified spec
            ++ "\n\nCritique:\n"
            ++ artifact_text critique review)
          (mock pass "Produced implementation plan." plan
            "MOCK PLAN\nFiles to add/change, migrations, test strategy.")
    implement_and_enqueue deps now job_id sid rid 1 (record state {
      spec_text = artifact_text specified spec;
      critique_text = artifact_text critique review;
      plan_text = artifact_text planned plan;
    })
    where
      state : OrchestrationState
      state = empty_state deps.redact user_request deps.human_approved
