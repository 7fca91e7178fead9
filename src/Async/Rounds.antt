-- ===== src/Async/Rounds.antt =====
-- What a resume makes of a waiting run: the verdict, the bound on the rounds, and the way back
-- after an exception.
use botchatgptclaude.Prelude.{
  ℕ, suc, ◌<◌, String, ◌≡◌, refl, Bool, true, false, Option, some, List, [], ◌∷◌, arith, ltb,
  Result, ok, err, Bool-cases, inl, inr, ◌⊎◌,
}
use botchatgptclaude.Table.{IsFresh, update}
use botchatgptclaude.Job
use botchatgptclaude.Job.{WorkerJob, is_passed}
use botchatgptclaude.Queue.{Jobs, job_key, get}
use botchatgptclaude.Audit
use botchatgptclaude.Agent.{
  AgentOutput, AgentStatus, pass, fail, needs_revision, StepName, gpt_code_reviewer, qa_judge,
  test_runner, system, review, artifact_text,
}
use botchatgptclaude.Text.{is_empty}
use botchatgptclaude.Report.{CommandResult, build_report_from_job}
use botchatgptclaude.Store
use botchatgptclaude.Store.{
  OrchestrationState, OrchestrationRun, Store, SessionRecord, ◌>>◌, Action, ◌>>=◌, add_message,
  add_run,
}
use botchatgptclaude.Orchestration.{is_terminal, is_waiting, get_run, run_key, patch_run}
use botchatgptclaude.Orchestration.Cells.{update_run-ok, get_run-update}
use botchatgptclaude.Session.{get_session, append_event}
use botchatgptclaude.Async.{Deps, AsyncResult, guard_verdict}
use botchatgptclaude.Async.Resumption.{
  conclude, record_results, resume_with, resume_pending, judge, review_and_judge, test_message,
  resume, step_run, report_text,
}
use botchatgptclaude.Async.Outcome.{Ready, Ended, Waits, Threw}
use botchatgptclaude.Async.Steps.{run_step_then, finalize_then, implement_then}

module _ (deps : Deps) (now : ℕ) (job_id : String) (run : OrchestrationRun) where
  -- What a resume of `run` may end in, after the job with the given outcome, from the queue `jobs`.
  abbrev pub Resumed : Bool → Jobs → Store → Result AsyncResult → Type 0
  Resumed green jobs s' (ok a) =
      Ended run jobs s' a × (a.status ≡ Store.passed → green ≡ true)
      ⊎ (run.current_round < run.max_rounds)
        × Waits deps now job_id run (suc run.current_round) s' a
  Resumed green jobs s' (err m) =
      Threw deps run run.current_round jobs s' m
      ⊎ (run.current_round < run.max_rounds) × Threw deps run (suc run.current_round) jobs s' m

  conclude-Resumed :
      (green : Bool) (verdict : AgentStatus) (state : OrchestrationState) (s : Store)
      → (verdict ≡ pass → green ≡ true)
      → Ready run run.current_round s.runs s.sessions
      → IsFresh job_key job_id s.jobs
      → Resumed green s.jobs
          (conclude deps now verdict job_id run state s).0
          (conclude deps now verdict job_id run state s).1
  unfolding conclude
  conclude-Resumed green pass state s earned ready fresh =
      finalize_then deps now run run.current_round Store.passed run.current_round state
        (Resumed green s.jobs) s refl ready (λ s' a e ended. inl (ended, λ _. earned refl))
  conclude-Resumed green fail state s earned ready fresh =
      finalize_then deps now run run.current_round Store.failed run.current_round state
        (Resumed green s.jobs) s refl ready (λ s' a e ended. inl (ended, λ p. cc (e, p)))
  conclude-Resumed green needs_revision state s earned ready fresh =
      elim (Bool-cases (ltb run.current_round run.max_rounds)) [
        | inl more ↦
            let below : run.current_round < run.max_rounds = ground (arith, more) in
            rw more (
              implement_then deps now job_id run run.current_round (suc run.current_round) state
                (Resumed green s.jobs) s ready fresh (λ s' a waits. inr (below, waits))
                (λ s' a not_passed ended. inl (ended, λ p. absurd (not_passed p)))
                (λ s' m threw. inr (below, threw)))
        | inr last ↦ rw last (
            finalize_then deps now run run.current_round Store.needs_revision run.current_round
              state (Resumed green s.jobs) s refl ready
              (λ s' a e ended. inl (ended, λ p. cc (e, p))))
      ]

  record_results_then :
      {B : Type 0} (sid : String) (rs : List CommandResult) (f : Unit → Action B)
      (Q : Store → Result B → Type 0) (s : Store)
      → ((s' : Store)
          → s'.runs ≡ s.runs
          → s'.sessions ≡ s.sessions
          → s'.jobs ≡ s.jobs
          → Q (f tt s').0 (f tt s').1)
      → Q ((record_results deps now sid rs >>= f) s).0 ((record_results deps now sid rs >>= f) s).1
  unfolding record_results add_run
  record_results_then sid [] f Q s k = k s refl refl refl
  record_results_then sid (r ∷ rs) f Q s k =
      record_results_then sid rs f Q _ (λ s' a b c. k s' a b c)

  guarded : (green : Bool) (v : AgentStatus) → guard_verdict green v ≡ pass → green ≡ true
  unfolding guard_verdict
  guarded green v e = ground arith

  -- Moving the step marker leaves the run where it is.
  step_store : StepName → Store → Store
  step_store step s = record s {
    runs = update run_key run.id (patch_run deps.redact (step_run deps now step) now) s.runs;
  }

  step-Ready :
      (step : StepName) (s : Store)
      → Ready run run.current_round s.runs s.sessions
      → Ready run run.current_round (step_store step s).runs (step_store step s).sessions
  unfolding patch_run step_store
  step-Ready step s ready = record {
    now_run = _;
    stored = get_run-update deps.redact run.id (step_run deps now step) now s.runs ready.stored;
    like = record {
      same_session = ready.like.same_session;
      same_status = ready.like.same_status;
      same_pending = ready.like.same_pending;
      same_max = ready.like.same_max;
    };
    at_round = ready.at_round;
    session = ready.session;
    session_stored = ready.session_stored;
  }

  module _ (job : WorkerJob) where
    judge-Resumed :
        (reviewed : AgentOutput) (s : Store)
        → Ready run run.current_round s.runs s.sessions
        → IsFresh job_key job_id s.jobs
        → Resumed
            (is_passed job.status)
            s.jobs
            (judge deps now job_id run job reviewed s).0
            (judge deps now job_id run job reviewed s).1
    unfolding judge step_store build_report_from_job
    judge-Resumed reviewed s ready fresh =
        rw (update_run-ok deps.redact run.id (step_run deps now qa_judge) now s ready.stored) (
          run_step_then deps now run.session_id qa_judge run.current_round _ _
            (λ judged.
              conclude deps now (guard_verdict (build_report_from_job job).passed judged.status)
                job_id run
                (record run.state {
                  last_test_report = report_text deps now job;
                  last_review_text = artifact_text reviewed review;
                }))
            (Resumed (is_passed job.status) s.jobs) (step_store qa_judge s)
            (λ judged s' same_runs same_sessions same_jobs. rw (← same_jobs) (
              conclude-Resumed (is_passed job.status) _ _ s'
                (guarded (is_passed job.status) judged.status)
                (rw (same_runs, same_sessions) (step-Ready qa_judge s ready)) (rw same_jobs fresh)))
            (λ m e. inl (record {
              call = (_, _, _, _, e);
              ready = step-Ready qa_judge s ready;
              same_jobs = refl;
            })))

    review-Resumed :
        (s : Store)
        → Ready run run.current_round s.runs s.sessions
        → IsFresh job_key job_id s.jobs
        → Resumed
            (is_passed job.status)
            s.jobs
            (review_and_judge deps now job_id run job s).0
            (review_and_judge deps now job_id run job s).1
    unfolding review_and_judge step_store
    review-Resumed s ready fresh =
        rw
          (update_run-ok deps.redact run.id (step_run deps now gpt_code_reviewer) now s
            ready.stored)
          (run_step_then deps now run.session_id gpt_code_reviewer run.current_round _ _
            (λ reviewed. judge deps now job_id run job reviewed)
            (Resumed (is_passed job.status) s.jobs) (step_store gpt_code_reviewer s)
            (λ reviewed s' same_runs same_sessions same_jobs. rw (← same_jobs) (
              judge-Resumed reviewed s'
                (rw (same_runs, same_sessions) (step-Ready gpt_code_reviewer s ready))
                (rw same_jobs fresh)))
            (λ m e. inl (record {
              call = (_, _, _, _, e);
              ready = step-Ready gpt_code_reviewer s ready;
              same_jobs = refl;
            })))

    resume_with-Resumed :
        (s : Store)
        → Ready run run.current_round s.runs s.sessions
        → IsFresh job_key job_id s.jobs
        → Resumed
            (is_passed job.status)
            s.jobs
            (resume_with deps now job_id run job s).0
            (resume_with deps now job_id run job s).1
    unfolding resume_with append_event add_message
    resume_with-Resumed s ready fresh =
        record_results_then run.session_id (build_report_from_job job).results
          (λ _.
            add_message run.session_id test_runner system run.current_round
              (test_message deps now job)
            >> review_and_judge deps now job_id run job)
          (Resumed (is_passed job.status) s.jobs)
          (append_event Audit.orchestration_resumed run.id run.session_id deps.user_id s).0
          (λ s' same_runs same_sessions same_jobs. rw (← same_jobs) (
            review-Resumed
              (add_message run.session_id test_runner system run.current_round
                (test_message deps now job) s').0
              (rw (same_runs, same_sessions) ready) (rw same_jobs fresh)))

    waiting_not_terminal :
        (run : OrchestrationRun) → is_waiting run.status ≡ true → is_terminal run.status ≡ false
    waiting_not_terminal run e = ground (arith, e)

    reaches_job :
        (s : Store) (o : Option String) (pending : String)
        → o ≡ some pending
        → is_waiting run.status ≡ true
        → is_empty pending ≡ false
        → get pending s.jobs ≡ some job
        → Job.is_terminal job.status ≡ true
        → resume_pending deps now job_id run o s ≡ resume_with deps now job_id run job s
    reaches_job s o pending e waits named job_stored ended =
        rw (e, waits, named, job_stored, ended) refl

    -- A resume of a run that waits for a job that has ended, with the run's session stored and a
    -- fresh id for the next job: the run ends, with `passed` only if the job has passed; or there was
    -- a round left and the run waits at the next round for a new job, which is queued; or a model has
    -- thrown, and the run still waits for the same job.
    pub resume-Resumed :
        (s : Store) (session : SessionRecord) (pending : String)
        → get_run run.id s.runs ≡ some run
        → get_session run.session_id s.sessions ≡ some session
        → is_waiting run.status ≡ true
        → run.pending_worker_job_id ≡ some pending
        → is_empty pending ≡ false
        → get pending s.jobs ≡ some job
        → Job.is_terminal job.status ≡ true
        → IsFresh job_key job_id s.jobs
        → Resumed
            (is_passed job.status)
            s.jobs
            (resume deps now job_id run.id s).0
            (resume deps now job_id run.id s).1
    unfolding resume
    resume-Resumed s session pending stored session_stored waits on named job_stored ended fresh =
        rw
          (
            stored,
            waiting_not_terminal run waits,
            reaches_job s run.pending_worker_job_id pending on waits named job_stored ended,
          )
          (resume_with-Resumed s
            (record {
              now_run = run;
              stored = stored;
              like = record {
                same_session = refl;
                same_status = refl;
                same_pending = refl;
                same_max = refl;
              };
              at_round = refl;
              session = session;
              session_stored = session_stored;
            })
            fresh)
