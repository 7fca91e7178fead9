-- ===== src/WorkerWait.antt =====
-- The test executor of the `worker_wait` mode: `defaultWaitForTerminal`, `timeoutReport` and
-- `runOrchestratorTestJob` of lib/ai-orchestrator/test-runner-worker.ts, with the audit sink that
-- `runOrchestration` of service.ts gives it. What other processes do to the queue while the caller
-- sleeps, and the readings of the clock, are in `WaitDeps`.
pub mod Bounds
use Prim.Native.String.{◌++◌}
use botchatgptclaude.Prelude.{
  ℕ, zero, suc, ◌+◌, leb, String, Bool, true, false, Option, none, some, List, [], ◌∷◌,
  if◌then◌else◌,
}
use botchatgptclaude.Prelude
use botchatgptclaude.Audit
use botchatgptclaude.Audit.{AuditEventType}
use botchatgptclaude.Text.{show}
use botchatgptclaude.Job.{WorkerJob, is_terminal, is_passed}
use botchatgptclaude.Queue.{Jobs, get, enqueue}
use botchatgptclaude.Report.{
  TestReport, TestStepResult, worker, build_report_from_job, orchestrator_test_input,
}
use botchatgptclaude.Store.{Store, Action, return, throw, modify, ◌>>=◌, ◌>>◌}

pub record WaitDeps : Type 0 where
  pub repo_clone_url : String
  pub branch : String
  pub commands : Option (List String)
  pub timeout_ms : ℕ
  pub user_id : Option String
  -- the n-th reading of the clock, and what the others do in the n-th pause
  pub clock : ℕ → ℕ
  pub meanwhile : ℕ → Jobs → Jobs

-- A wait ends with the finished job, or gives up; `unpolled` is a wait that ran out of fuel.
pub data Waited : Type 0 where
  finished : WorkerJob → Waited
  gave_up unpolled : Waited

unfoldable pub timeout_report : String → ℕ → TestReport
timeout_report job_id timeout_ms = record {
  results =
      (record {
        command = "(sandbox worker wait)";
        allowed = true;
        reason = "sandbox worker";
        exit_code = none;
        stdout = "";
        stderr =
            "[WAIT TIMEOUT] worker job "
            ++ job_id
            ++ " did not finish within "
            ++ show timeout_ms
            ++ "ms. "
            ++ "Start the sandbox worker (npm run ai:worker) or raise AI_ORCHESTRATOR_TEST_JOB_TIMEOUT_MS.";
        executed = false;
      })
      ∷ [];
  passed = false;
}

module _ (deps : WaitDeps) where
  -- `nowFn() - start >= opts.timeoutMs`, at the n-th poll
  abbrev pub is_over : ℕ → Bool
  is_over n = leb (deps.clock 0 + deps.timeout_ms) (deps.clock (suc n))

  abbrev paused : ℕ → Jobs → Jobs × Waited → Jobs × Waited
  paused n jobs rest = if is_over n then (jobs, gave_up) else rest

  abbrev pub polled : ℕ → Jobs → Jobs × Waited → Option WorkerJob → Jobs × Waited
  polled n jobs rest none = paused n jobs rest
  polled n jobs rest (some job) =
      if is_terminal job.status then (jobs, finished job) else paused n jobs rest

  -- The polls from the n-th on.
  unfoldable pub wait_from : ℕ → ℕ → String → Jobs → Jobs × Waited
  wait_from zero n job_id jobs = (jobs, unpolled)
  wait_from (suc fuel) n job_id jobs =
      polled n jobs (wait_from fuel (suc n) job_id (deps.meanwhile n jobs)) (get job_id jobs)

  -- A poll for each millisecond, and one more, are enough (WorkerWait/Bounds.antt).
  unfoldable pub wait_for_terminal : String → Jobs → Jobs × Waited
  wait_for_terminal job_id jobs = wait_from (suc deps.timeout_ms) 0 job_id jobs

  abbrev audit_status : AuditEventType → String
  audit_status Audit.orchestrator_test_job_failed = "fail"
  audit_status Audit.orchestrator_test_job_timeout = "fail"
  audit_status _ = "ok"

  unfoldable pub audit : AuditEventType → String → Action Unit
  audit type sid = modify (λ s. record s {
    audits = Prelude.◌++◌ s.audits (
        (record {
          event_type = type;
          status = audit_status type;
          session_id = some sid;
          user_id = deps.user_id;
        })
        ∷ []);
  })

  abbrev pub test_job : String → ℕ → ℕ → String → Action WorkerJob
  test_job job_id now round sid s =
      let (jobs, job) =
        enqueue job_id now
          (orchestrator_test_input (record {
            session_id = sid;
            round = round;
            repo_clone_url = deps.repo_clone_url;
            branch = deps.branch;
            commands = deps.commands;
            user_id = deps.user_id;
          }))
          s.jobs in
      (record s { jobs = jobs }, Prelude.ok job)

  abbrev pub wait_action : String → Action Waited
  wait_action job_id s =
      let (jobs, waited) = wait_for_terminal job_id s.jobs in
      (record s { jobs = jobs }, Prelude.ok waited)

  abbrev step_result : String → TestReport → TestStepResult
  step_result job_id report = record { report = report; mode = worker; worker_job_id = some job_id }

  unfoldable pub report_wait : String → String → Waited → Action TestStepResult
  report_wait job_id sid (finished job) =
      audit
        (if is_passed job.status
          then Audit.orchestrator_test_job_passed
          else Audit.orchestrator_test_job_failed)
        sid
      >> return (step_result job_id (build_report_from_job job))
  report_wait job_id sid gave_up =
      audit Audit.orchestrator_test_job_timeout sid
      >> return (step_result job_id (timeout_report job_id deps.timeout_ms))
  report_wait job_id sid unpolled = throw "unpolled"

  -- `next_id` is the id that the database draws for the job of a round, `now` the clock's reading.
  unfoldable pub run_orchestrator_test_job : (ℕ → String) → ℕ → String → ℕ → Action TestStepResult
  run_orchestrator_test_job next_id now sid round = do
    job ← test_job (next_id round) now round sid
    audit Audit.orchestrator_test_job_created sid
    waited ← wait_action job.id
    report_wait job.id sid waited
