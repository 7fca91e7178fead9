-- ===== src/Orchestrator.antt =====
-- `Orchestrator` of lib/ai-orchestrator/orchestrator.ts: the whole workflow in one call, with at
-- most three rounds of implementing, testing, reviewing and judging. The model adapters, the
-- redaction, the scan's patterns and the test executor are in `Options`. The clock is read once.
pub mod Round
pub mod Verdict
use Prim.Native.String.{◌++◌}
use botchatgptclaude.Prelude.{
  ℕ, zero, suc, min, String, Bool, true, false, not, ◌&&◌, Option, none, some, get_or, List, [],
  ◌∷◌, if◌then◌else◌, length, Result, ok, err,
}
use botchatgptclaude.Text.{show, is_empty}
use botchatgptclaude.Agent.{
  AgentStatus, pass, needs_revision, fail, is_pass, AgentOutput, StepName, spec, plan, patch,
  review, test_report, gpt_product_spec, claude_critical_review, gpt_implementation_plan,
  claude_code_implementer, test_runner, gpt_code_reviewer, qa_judge, system, step_provider,
  artifact_text, mock,
}
use botchatgptclaude.Scan.{
  Found, SafetyViolation, scan_content, has_blocking_violation, is_fatal, violation_output,
}
use botchatgptclaude.Report
use botchatgptclaude.Report.{
  CommandResult, TestReport, TestStepResult, TestMode, format_test_report,
}
use botchatgptclaude.Store
use botchatgptclaude.Store.{
  SessionStatus, Store, Action, return, throw, modify, ◌>>=◌, ◌>>◌, add_message, add_run, RunArgs,
}
use botchatgptclaude.Session.{SessionPatch, update_session, create_session}

pub record Options : Type 0 where
  -- the n-th answer of a model, by the number of messages stored before it
  pub complete : ℕ → StepName → String → AgentOutput → Result AgentOutput
  -- `TestExecutor.run`, for a session and a round
  pub test_executor : String → ℕ → Action TestStepResult
  pub redact : String → String
  pub found : Found
  pub human_approved : Bool
  pub max_rounds : Option ℕ
  pub user_id : Option String

pub record OrchestratorResult : Type 0 where
  pub session_id : String
  pub status : SessionStatus
  pub rounds : ℕ

-- How one pass of the revision loop ends: it breaks, or goes on with the review's text.
pub data RoundEnd : Type 0 where
  broke : SessionStatus → RoundEnd
  again : String → RoundEnd

abbrev pub max_rounds_limit : ℕ
max_rounds_limit = 3

abbrev mode_text : TestMode → String
mode_text Report.inline = "inline"
mode_text Report.worker = "worker"

abbrev job_prefix : Option String → String
job_prefix none = ""
job_prefix (some id) = if is_empty id then "" else "[worker_job_id: " ++ id ++ "]\n"

abbrev job_suffix : Option String → String
job_suffix none = ""
job_suffix (some id) = if is_empty id then "" else ", job " ++ id

abbrev pub mock_verdict : Bool → AgentStatus
mock_verdict b = if b then pass else needs_revision

abbrev pub report_text : TestStepResult → String
report_text t = job_prefix t.worker_job_id ++ format_test_report t.report

abbrev pub test_message : TestStepResult → AgentOutput
test_message t =
    mock (mock_verdict t.report.passed)
      ("Test suite "
        ++ (if t.report.passed then "passed" else "failed")
        ++ " ("
        ++ mode_text t.mode
        ++ job_suffix t.worker_job_id
        ++ ").")
      test_report (report_text t)

-- What the judge's verdict does to the loop.
unfoldable pub round_end : AgentStatus → String → RoundEnd
round_end pass review_text = broke Store.SessionStatus.passed
round_end fail review_text = broke Store.SessionStatus.failed
round_end needs_revision review_text = again review_text

-- The judge cannot pass a round whose tests are red.
unfoldable pub guard_verdict : Bool → AgentStatus → AgentStatus
guard_verdict tests_passed verdict =
    if not tests_passed && is_pass verdict then needs_revision else verdict

abbrev pub last_session : SessionStatus → ℕ → SessionPatch
last_session status rounds = record { status = some status; approval = none; rounds = some rounds }

abbrev pub round_session : ℕ → SessionPatch
round_session round = record { status = none; approval = none; rounds = some round }

module _ (opts : Options) (now : ℕ) where
  abbrev answered : String → StepName → ℕ → Result AgentOutput → Action AgentOutput
  answered sid step round (err m) = throw m
  answered sid step round (ok out) =
      add_message sid step (step_provider step) round out >> return out

  unfoldable pub run_step : String → StepName → ℕ → String → AgentOutput → Action AgentOutput
  run_step sid step round content mock_output s =
      answered sid step round (opts.complete (length s.messages) step content mock_output) s

  abbrev pub record_system_message : String → StepName → ℕ → AgentOutput → Action Unit
  record_system_message sid step round output = add_message sid step system round output

  -- `Math.min(opts.maxRounds ?? MAX_ROUNDS, MAX_ROUNDS)`
  unfoldable pub max_rounds : ℕ
  max_rounds = min (get_or opts.max_rounds max_rounds_limit) max_rounds_limit

  -- `for (const r of report.results) await this.repo.addRun(…)`
  unfoldable pub record_results : String → List CommandResult → Action Unit
  record_results sid [] = return tt
  record_results sid (r ∷ rs) =
      add_run opts.redact (record {
        session_id = sid;
        command = r.command;
        allowed = r.allowed;
        exit_code = r.exit_code;
        stdout = r.stdout;
        stderr = r.stderr;
        step = some test_runner;
        user_id = opts.user_id;
      })
      >> record_results sid rs

  -- The judge, on what the reviewer has said.
  unfoldable pub judge : String → ℕ → TestStepResult → AgentOutput → Action RoundEnd
  judge sid round tested reviewed = do
    judged ←
        run_step sid qa_judge round
          ("Code review:\n" ++ artifact_text reviewed review ++ "\n\n" ++ report_text tested)
          (mock (mock_verdict (tested.report.passed && is_pass reviewed.status)) "Final QA verdict."
            review ("MOCK VERDICT round " ++ show round ++ "."))
    return (
        round_end (guard_verdict tested.report.passed judged.status)
          (artifact_text reviewed review))

  -- The round from the test report on.
  unfoldable pub review_tests : String → ℕ → String → TestStepResult → Action RoundEnd
  review_tests sid round patch_text tested = do
    record_results sid tested.report.results
    record_system_message sid test_runner round (test_message tested)
    reviewed ←
        run_step sid gpt_code_reviewer round
          ("Patch:\n" ++ patch_text ++ "\n\n" ++ report_text tested)
          (mock (mock_verdict tested.report.passed) "Reviewed diff against test report." review
            "MOCK REVIEW\nNo blocking issues found in mock mode.")
    judge sid round tested reviewed

  abbrev blocked : List SafetyViolation → String → ℕ → Action RoundEnd
  blocked violations sid round =
      let fatal = is_fatal violations in
      record_system_message sid claude_code_implementer round (violation_output violations fatal)
      >> return
          (broke (if fatal then Store.SessionStatus.failed else Store.SessionStatus.needs_revision))

  -- The safety scan of the patch, and the tests of what it lets through.
  unfoldable pub scan_and_test : String → ℕ → String → Action RoundEnd
  scan_and_test sid round patch_text =
      let violations = scan_content opts.found opts.human_approved patch_text in
      if has_blocking_violation violations
      then blocked violations sid round
      else opts.test_executor sid round >>= review_tests sid round patch_text

  abbrev implementer_prompt : String → String → String → String
  implementer_prompt plan_text critique_text last_review =
      "Plan:\n"
      ++ plan_text
      ++ "\n\nCritique:\n"
      ++ critique_text
      ++ (if is_empty last_review then "" else "\n\nPrevious review to address:\n" ++ last_review)

  -- One pass of the loop's body.
  unfoldable pub one_round : String → String → String → ℕ → String → Action RoundEnd
  one_round sid plan_text critique_text round last_review = do
    update_session sid (round_session round) now
    patched ←
        run_step sid claude_code_implementer round
          (implementer_prompt plan_text critique_text last_review)
          (mock pass "Generated patch for the plan (mock no-op)." patch
            "MOCK PATCH\n--- no-op diff ---")
    scan_and_test sid round (artifact_text patched patch)

  abbrev pub next_round :
      ℕ → (String → Action (SessionStatus × ℕ)) → RoundEnd → Action (SessionStatus × ℕ)
  next_round round go (broke status) = return (status, round)
  next_round round go (again last_review) = go last_review

  -- `while (round < this.maxRounds)`, with `left` rounds to go after `round` of them.
  unfoldable pub rounds :
      String → String → String → ℕ → ℕ → String → SessionStatus → Action (SessionStatus × ℕ)
  rounds sid plan_text critique_text zero round last_review status = return (status, round)
  rounds sid plan_text critique_text (suc left) round last_review status =
      one_round sid plan_text critique_text (suc round) last_review
      >>= next_round (suc round) (λ last.
        rounds sid plan_text critique_text left (suc round) last Store.SessionStatus.needs_revision)

  -- The loop, and what follows it.
  unfoldable pub revise : String → String → String → Action OrchestratorResult
  revise sid plan_text critique_text = do
    ended ← rounds sid plan_text critique_text max_rounds 0 "" Store.SessionStatus.needs_revision
    update_session sid (last_session ended.0 ended.1) now
    return (record { session_id = sid; status = ended.0; rounds = ended.1 })

  unfoldable pub plan_and_revise : String → String → String → Action OrchestratorResult
  plan_and_revise sid spec_text critique_text = do
    planned ←
        run_step sid gpt_implementation_plan 0
          ("Spec:\n" ++ spec_text ++ "\n\nCritique:\n" ++ critique_text)
          (mock pass "Produced implementation plan." plan
            "MOCK PLAN\nFiles to add/change, migrations, test strategy.")
    revise sid (artifact_text planned plan) critique_text

  unfoldable pub review_spec : String → String → String → Action OrchestratorResult
  review_spec sid user_request spec_text = do
    critique ←
        run_step sid claude_critical_review 0
          ("User request:\n" ++ user_request ++ "\n\nSpec to review:\n" ++ spec_text)
          (mock pass "Reviewed spec; no blocking gaps in mock mode." review
            "MOCK CRITIQUE\nEdge cases and assumptions to confirm.")
    plan_and_revise sid spec_text (artifact_text critique review)

  unfoldable pub run : String → String → Action OrchestratorResult
  run sid user_request = do
    _ ← create_session sid now user_request opts.user_id
    specified ← run_step sid gpt_product_spec 0 ("User request:\n" ++ user_request) (
        mock pass "Drafted technical spec from the user request." spec
          "MOCK SPEC\nGoals, scope, data model, API surface, UI, acceptance criteria.")
    review_spec sid user_request (artifact_text specified spec)
