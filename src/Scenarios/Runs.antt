-- ===== src/Scenarios/Runs.antt =====
-- A waiting orchestration whose job has passed, its resume and its lock.
use botchatgptclaude.Prelude.{
  ◌+◌, ◌*◌, List, ◌≤◌, map, All, ◌≡◌, refl, true, false, not, ◌||◌, ◌&&◌, none, some, [], ◌∷◌, ok,
  is_some, eqb, if◌then◌else◌, arith,
}
use botchatgptclaude.Table.{find, update}
use botchatgptclaude.Text.{is_empty}
use botchatgptclaude.Job
use botchatgptclaude.Job.{WorkerJob}
use botchatgptclaude.Queue.{get}
use botchatgptclaude.Scan.{Found, scan_content, has_blocking_violation, is_fatal}
use botchatgptclaude.Scan.Gate.{matches_hard, scan_content-blocks}
use botchatgptclaude.Store
use botchatgptclaude.Store.{OrchestrationState, OrchestrationRun, SessionRecord, Store}
use botchatgptclaude.Orchestration.{get_run, claim_resume_lock, is_lockable, lock_run, is_waiting}
use botchatgptclaude.Orchestration.Steps
use botchatgptclaude.Orchestration.Steps.{NeverGrants}
use botchatgptclaude.Orchestration.Lock.{claim_resume_lock-excludes}
use botchatgptclaude.Session.{get_session}
use botchatgptclaude.Async.{Deps}
use botchatgptclaude.Async.Resumption.{resume}
use botchatgptclaude.Async.Rounds.{Resumed, resume-Resumed}
use botchatgptclaude.Resume.{is_due, find_resumable, resume_due, ResumeRunResult, ResumeSummary}
use botchatgptclaude.Resume.Batch.{resume_due-accounts}
use botchatgptclaude.Scenarios.{waiting_job}

abbrev pub deps : Deps
deps = record {
  complete = λ n step content mock_output. ok mock_output;
  redact = λ s. s;
  found = λ n s. none;
  repo_clone_url = "u";
  branch = "main";
  commands = none;
  human_approved = false;
  max_rounds = none;
  user_id = none;
}

abbrev pub blank : OrchestrationState
blank = record {
  user_request = "r";
  spec_text = "";
  critique_text = "";
  plan_text = "";
  patch_text = "";
  last_review_text = "";
  last_test_report = "";
  human_approved = false;
}

abbrev pub run : OrchestrationRun
run = record {
  id = "r1";
  session_id = "s1";
  user_id = none;
  status = Store.waiting_for_worker;
  current_round = 1;
  max_rounds = 3;
  current_step = none;
  pending_worker_job_id = some "j1";
  last_error = none;
  state = blank;
  created_at = 0;
  updated_at = 0;
  finished_at = none;
  resume_lock_owner = none;
  resume_lock_expires_at = none;
  resume_attempts = 0;
  last_resume_attempt_at = none;
}

abbrev pub session : SessionRecord
session = record {
  id = "s1";
  user_request = "r";
  status = Store.SessionStatus.running;
  approval = Store.pending;
  rounds = 1;
  user_id = none;
  created_at = 0;
  updated_at = 0;
}

abbrev job : WorkerJob
job = record (waiting_job "j1" 5 10) { status = Job.failed }

abbrev pub store : Store
store = record {
  sessions = session ∷ [];
  runs = run ∷ [];
  messages = [];
  test_runs = [];
  jobs = job ∷ [];
  audits = [];
  events = [];
}

resume-Resumed_example :
    Resumed deps 50 "j2" run false store.jobs
      (resume deps 50 "j2" "r1" store).0
      (resume deps 50 "j2" "r1" store).1
resume-Resumed_example =
    resume-Resumed deps 50 "j2" run job store session "j1" (unfold get_run find in refl)
      (unfold get_session find in refl) refl refl (unfold is_empty in refl)
      (unfold get find in refl) refl (refl, tt)

lock_granted :
    (claim_resume_lock "r1" "cron-1" 120 50 store.runs).1 ≡ some (lock_run "cron-1" 120 50 run)
unfolding claim_resume_lock get_run find update is_lockable lock_run
lock_granted = refl

-- Another tick of cron, a foreign release, a count and the owner's own second claim.
abbrev lock_calls : List Steps.Call
lock_calls =
    Steps.claim "r1" "cron-2" 120 60
    ∷ Steps.release "r1" "cron-2" 70
    ∷ Steps.count "r1" 80
    ∷ Steps.claim "r1" "cron-1" 120 90
    ∷ []

claim_resume_lock-excludes_example :
    (get_run "r1" (claim_resume_lock "r1" "cron-1" 120 50 store.runs).0
      ≡ some (lock_run "cron-1" 120 50 run))
    × (is_waiting (lock_run "cron-1" 120 50 run).status ≡ true)
    × ((lock_run "cron-1" 120 50 run).resume_lock_owner ≡ some "cron-1")
    × NeverGrants
        (λ s. s)
        "r1"
        "cron-1"
        (50 + 120 * 1000)
        lock_calls
        (claim_resume_lock "r1" "cron-1" 120 50 store.runs).0
claim_resume_lock-excludes_example =
    claim_resume_lock-excludes (λ s. s) "r1" "cron-1" 120 50 store.runs
      (lock_run "cron-1" 120 50 run) lock_calls lock_granted
      (λ _. omega arith, (λ _. refl, (tt, (λ _. omega arith, tt))))

abbrev drops : Found
drops n s = if eqb n 7 then some "DROP TABLE" else none

scan_content-blocks_example :
    (has_blocking_violation (scan_content drops true "x")
      ≡ (matches_hard drops "x" || (is_some (drops 7 "x") && not true)))
    × (is_fatal (scan_content drops true "x") ≡ matches_hard drops "x")
scan_content-blocks_example = scan_content-blocks drops true "x"

abbrev tick : Store × ResumeSummary
tick = resume_due (resume deps 50 "j2") (λ s. s) "cron-1" 120 50 5 store

resume_due-accounts_example :
    (map ResumeRunResult.run_id tick.1.results ≡ map (λ r. r.id) (find_resumable 5 store))
    × (tick.1.scanned
        ≡ tick.1.resumed_count + tick.1.still_waiting_count + tick.1.skipped_count
          + tick.1.failed_count)
    × (tick.1.scanned ≤ 5)
    × All (λ r. is_due store.jobs r ≡ true) (find_resumable 5 store)
resume_due-accounts_example =
    resume_due-accounts (resume deps 50 "j2") (λ s. s) "cron-1" 120 50 5 store
