-- ===== src/Async/Outcome.antt =====
-- Where a call of the orchestrator leaves a run.
use botchatgptclaude.Prelude.{ℕ, String, ◌≡◌, true, none, some, List, err}
use botchatgptclaude.Queue.{Jobs, get, new_job}
use botchatgptclaude.Agent.{AgentOutput, StepName}
use botchatgptclaude.Report.{orchestrator_test_input}
use botchatgptclaude.Store
use botchatgptclaude.Store.{
  OrchestrationState, OrchestrationRun, OrchestrationRunStatus, SessionRecord, Store, Action, ◌>>=◌,
  ◌>>◌, add_message, add_run,
}
use botchatgptclaude.Orchestration.{Runs, is_terminal, get_run}
use botchatgptclaude.Session.{get_session}
use botchatgptclaude.Async.{Deps, AsyncResult, job_args}

-- A run that has not moved since `run` was read, as far as its place in the workflow goes.
pub record IsLike (run r : OrchestrationRun) : Type 0 where
  pub same_session : r.session_id ≡ run.session_id
  pub same_status : r.status ≡ run.status
  pub same_pending : r.pending_worker_job_id ≡ run.pending_worker_job_id
  pub same_max : r.max_rounds ≡ run.max_rounds

-- The run and its session are stored, at the round `round`.
pub record Ready (run : OrchestrationRun) (round : ℕ) (runs : Runs) (sessions : List SessionRecord)
    : Type 0 where
  pub now_run : OrchestrationRun
  pub stored : get_run run.id runs ≡ some now_run
  pub like : IsLike run now_run
  pub at_round : now_run.current_round ≡ round
  pub session : SessionRecord
  pub session_stored : get_session run.session_id sessions ≡ some session

-- The run has ended with the status `status`, and its session too.
pub record Ended (run : OrchestrationRun) (jobs : Jobs) (s : Store) (a : AsyncResult) : Type 0 where
  pub ends : is_terminal a.status ≡ true
  pub last_run : OrchestrationRun
  pub stored : get_run run.id s.runs ≡ some last_run
  pub status_stored : last_run.status ≡ a.status
  pub no_pending : last_run.pending_worker_job_id ≡ none
  pub same_jobs : s.jobs ≡ jobs

-- The run waits for a new job, which is queued.
pub record Waits (deps : Deps) (now : ℕ) (job_id : String) (run : OrchestrationRun) (round : ℕ)
    (s : Store) (a : AsyncResult) : Type 0 where
  pub answer : a.status ≡ Store.waiting_for_worker
  pub job_named : a.worker_job_id ≡ some job_id
  pub next_run : OrchestrationRun
  pub stored : get_run run.id s.runs ≡ some next_run
  pub waits : next_run.status ≡ Store.waiting_for_worker
  pub pending : next_run.pending_worker_job_id ≡ some job_id
  pub at_round : next_run.current_round ≡ round
  pub same_max : next_run.max_rounds ≡ run.max_rounds
  pub same_session : next_run.session_id ≡ run.session_id
  pub session : SessionRecord
  pub session_stored : get_session run.session_id s.sessions ≡ some session
  pub job_queued :
      get job_id s.jobs
      ≡ some (new_job job_id now (orchestrator_test_input (job_args deps now run.session_id round)))

-- A model's answer was an exception; the run is where it was, at the round `round`.
pub record Threw (deps : Deps) (run : OrchestrationRun) (round : ℕ) (jobs : Jobs) (s : Store)
    (m : String) : Type 0 where
  pub call :
      (n : ℕ) × (step : StepName) × (content : String) × (mock_output : AgentOutput)
      × (deps.complete n step content mock_output ≡ err m)
  pub ready : Ready run round s.runs s.sessions
  pub same_jobs : s.jobs ≡ jobs
