-- ===== src/Scenarios/Workflows.antt =====
-- The whole workflow with sandbox tests, the wait for them, the inline suite, and the last resume.
use mathlib.Core.Path.{subst}
use mathlib.Core.Option.{some_inj}
use botchatgptclaude.Prelude.{
  ℕ, String, ◌≡◌, refl, ap, true, false, some, none, [], ◌∷◌, map, ok, arith, All, ◌↔◌,
}
use botchatgptclaude.Table.{find}
use botchatgptclaude.Text.{is_empty}
use botchatgptclaude.Job
use botchatgptclaude.Job.{WorkerJob}
use botchatgptclaude.Queue.{get}
use botchatgptclaude.Store.{OrchestrationRun, Store}
use botchatgptclaude.Orchestration.{get_run}
use botchatgptclaude.Session.{get_session}
use botchatgptclaude.Async.Resumption.{resume}
use botchatgptclaude.Async.Ending.{Worked, rest, turn, HasEnded, Turns-HasEnded}
use botchatgptclaude.Orchestrator
use botchatgptclaude.Orchestrator.{Options}
use botchatgptclaude.Orchestrator.Round.{IsExecutor}
use botchatgptclaude.Orchestrator.Verdict.{Settles, run-Settles}
use botchatgptclaude.WorkerWait.{WaitDeps, wait_from, run_orchestrator_test_job}
use botchatgptclaude.WorkerWait.Bounds.{
  IsPaced, Answers, Tested, wait_from-ends, run_orchestrator_test_job-Tested,
}
use botchatgptclaude.TestRunner.{SpawnResult, run_test_suite, test_suite}
use botchatgptclaude.TestRunner.Suite.{HasExited, run_test_suite_iff}
use botchatgptclaude.Scenarios.{waiting_job}
use botchatgptclaude.Scenarios.Runs.{deps, run, session, store}

abbrev pass_job : WorkerJob → WorkerJob
pass_job j = record j { status = Job.passed }

-- The worker passes every job in the first pause.
abbrev wait_deps : WaitDeps
wait_deps = record {
  repo_clone_url = "u";
  branch = "main";
  commands = none;
  timeout_ms = 100;
  user_id = none;
  clock = λ n. n;
  meanwhile = λ n jobs. map pass_job jobs;
}

paced : IsPaced wait_deps 1
paced = (omega arith, λ n. omega arith)

abbrev next_id : ℕ → String
next_id n = "j9"

abbrev options : Options
options = record {
  complete = λ n step content mock_output. ok mock_output;
  test_executor = run_orchestrator_test_job wait_deps next_id 50;
  redact = λ s. s;
  found = λ n s. none;
  human_approved = false;
  max_rounds = none;
  user_id = none;
}

executor_keeps : IsExecutor options
executor_keeps sid round s =
    let t =
      run_orchestrator_test_job-Tested wait_deps 1 next_id 50 sid round s (omega arith) paced in
    (t.same_sessions, t.same_messages)

run-Settles_example :
    Settles options 50 executor_keeps "s9"
      (Orchestrator.run options 50 "s9" "r" store).0
      (Orchestrator.run options 50 "s9" "r" store).1
run-Settles_example = run-Settles options 50 executor_keeps "s9" "r" store (refl, tt)

run_orchestrator_test_job-Tested_example :
    Tested wait_deps "j9" store
      (run_orchestrator_test_job wait_deps next_id 50 "s1" 1 store).0
      (run_orchestrator_test_job wait_deps next_id 50 "s1" 1 store).1
run_orchestrator_test_job-Tested_example =
    run_orchestrator_test_job-Tested wait_deps 1 next_id 50 "s1" 1 store (omega arith) paced

wait_from-ends_example :
    Answers wait_deps "j1" (wait_from wait_deps 101 0 "j1" (waiting_job "j1" 5 10 ∷ []))
wait_from-ends_example =
    wait_from-ends wait_deps 1 (omega arith) paced 101 "j1" (waiting_job "j1" 5 10 ∷ [])
      (omega arith)

abbrev exits : String → ℕ → SpawnResult
exits c t = record { exit_code = some 0; stdout = ""; stderr = "" }

run_test_suite_iff_example :
    ((run_test_suite exits true none).passed ≡ true)
    ↔ (true ≡ true → All (HasExited exits true none) (test_suite exits true none))
run_test_suite_iff_example = run_test_suite_iff exits true none

-- The run of the other scenarios in its last round.
abbrev last_run : OrchestrationRun
last_run = record run { current_round = 3 }

abbrev last_store : Store
last_store = record store { runs = last_run ∷ [] }

last_stored : get_run "r1" last_store.runs ≡ some last_run
unfolding get_run find
last_stored = refl

abbrev ended_job : WorkerJob
ended_job = record (waiting_job "j1" 5 10) { status = Job.failed }

worked : Worked deps "r1" last_store last_store
worked = record {
  same_runs = refl;
  same_sessions = refl;
  job_ends = λ r pending there on.
      let same : last_run ≡ r = some_inj.0 (cc (last_stored, there)) in
      let named : "j1" ≡ pending = some_inj.0 (cc (ap (λ x. x.pending_worker_job_id) same, on)) in
      (
        ended_job,
        subst (λ p. get p last_store.jobs ≡ some ended_job) named (unfold get find in refl),
        refl,
      );
}

Turns-HasEnded_example : HasEnded deps "r1" (resume deps 50 "j2" "r1" last_store).0
Turns-HasEnded_example =
    Turns-HasEnded deps "r1" (λ n step content mock_output. (mock_output, refl)) 1 last_run session
      "j1" last_store (resume deps 50 "j2" "r1" last_store).0 last_stored
      (unfold get_session find in refl) refl refl (unfold is_empty in refl) (omega arith)
      (omega arith) (turn 50 "j2" rest worked (refl, tt) (unfold is_empty in refl))
