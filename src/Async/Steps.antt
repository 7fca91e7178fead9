-- ===== src/Async/Steps.antt =====
-- The writes of one orchestration step: what `finalize`, `enqueue_tests` and
-- `implement_and_enqueue` leave of the run, of its session and of the queue.
use botchatgptclaude.Prelude.{
  ℕ, String, ◌≡◌, refl, true, false, eq_refl, Result, ok, err, Bool-cases, Result-cases, inl, inr,
  ◌∙◌, length,
}
use botchatgptclaude.Table.{update, IsFresh}
use botchatgptclaude.Queue.{job_key, new_job, enqueue}
use botchatgptclaude.Queue.Cells.{get-enqueue}
use botchatgptclaude.Audit
use botchatgptclaude.Agent.{
  claude_code_implementer, system, artifact_text, patch, AgentOutput, StepName,
}
use botchatgptclaude.Report.{orchestrator_test_input}
use botchatgptclaude.Scan.{violation_output, scan_content, has_blocking_violation, is_fatal}
use botchatgptclaude.Store
use botchatgptclaude.Store.{
  OrchestrationState, OrchestrationRun, OrchestrationRunStatus, SessionRecord, Store, Action, ◌>>=◌,
  ◌>>◌, add_message, add_run,
}
use botchatgptclaude.Orchestration.{run_key, is_terminal, patch_run}
use botchatgptclaude.Orchestration.Cells.{
  update_run-ok, update_session-ok, get_run-update, get_session-update,
}
use botchatgptclaude.Session.{session_key, patch_session, append_event}
use botchatgptclaude.Async.{
  Deps, AsyncResult, run_step, finalize, enqueue_tests, scan_and_enqueue, final_session, final_run,
  waiting_run, queued_run, enqueue_job, round_session, round_run, implement_and_enqueue, job_args,
}
use botchatgptclaude.Async.Outcome.{Ready, Ended, Waits, Threw}

module _ (deps : Deps) (now : ℕ) where
  -- A step either adds a message, or throws what its model throws and writes nothing.
  pub run_step_then :
      {B : Type 0} (sid : String) (step : StepName) (round : ℕ) (content : String)
      (mock_output : AgentOutput) (f : AgentOutput → Action B) (Q : Store → Result B → Type 0)
      (s : Store)
      → ((out : AgentOutput) (s' : Store)
          → s'.runs ≡ s.runs
          → s'.sessions ≡ s.sessions
          → s'.jobs ≡ s.jobs
          → Q (f out s').0 (f out s').1)
      → ((m : String)
          → deps.complete (length s.messages) step content mock_output ≡ err m
          → Q s (err m))
      → Q
          ((run_step deps now sid step round content mock_output >>= f) s).0
          ((run_step deps now sid step round content mock_output >>= f) s).1
  unfolding run_step add_message
  run_step_then sid step round content mock_output f Q s on_ok on_err =
      elim (Result-cases (deps.complete (length s.messages) step content mock_output)) [
        | inl (out, e) ↦ rw e (on_ok out _ refl refl refl)
        | inr (m, e) ↦ rw e (on_err m e)
      ]

  -- `finalize` ends a stored run and answers with its status.
  pub finalize_then :
      (run : OrchestrationRun) (round : ℕ) (status : OrchestrationRunStatus) (at : ℕ)
      (state : OrchestrationState) (Q : Store → Result AsyncResult → Type 0) (s : Store)
      → is_terminal status ≡ true
      → Ready run round s.runs s.sessions
      → ((s' : Store) (a : AsyncResult) → a.status ≡ status → Ended run s.jobs s' a → Q s' (ok a))
      → Q
          (finalize deps now run.session_id run.id status at state s).0
          (finalize deps now run.session_id run.id status at state s).1
  unfolding finalize append_event patch_run
  finalize_then run round status at state Q s final ready k =
      rw
        (update_session-ok run.session_id (final_session deps now status at) now s
          ready.session_stored)
        (rw
          (update_run-ok deps.redact run.id (final_run deps now status state) now
            (record s {
              sessions =
                  update session_key run.session_id
                    (patch_session (final_session deps now status at) now) s.sessions;
            })
            ready.stored)
          (k _ _ refl (record {
            ends = final;
            last_run = _;
            stored =
                get_run-update deps.redact run.id (final_run deps now status state) now s.runs
                  ready.stored;
            status_stored = refl;
            no_pending = refl;
            same_jobs = refl;
          })))

  pub enqueue_tests_then :
      (job_id : String) (run : OrchestrationRun) (round : ℕ) (state : OrchestrationState)
      (Q : Store → Result AsyncResult → Type 0) (s : Store)
      → Ready run round s.runs s.sessions
      → IsFresh job_key job_id s.jobs
      → ((s' : Store) (a : AsyncResult) → Waits deps now job_id run round s' a → Q s' (ok a))
      → Q
          (enqueue_tests deps now job_id run.session_id run.id round state s).0
          (enqueue_tests deps now job_id run.session_id run.id round state s).1
  unfolding enqueue_tests append_event add_run patch_run enqueue new_job
  enqueue_tests_then job_id run round state Q s ready fresh k =
      let s1 : Store =
        (add_run deps.redact (queued_run deps now run.session_id job_id)
          (enqueue_job deps now job_id run.session_id round s).0).0 in
      rw
        (update_run-ok deps.redact run.id (waiting_run deps now round job_id state) now s1
          ready.stored)
        (k _ _ (record {
          answer = refl;
          job_named = refl;
          next_run = _;
          stored =
              get_run-update deps.redact run.id (waiting_run deps now round job_id state) now s.runs
                ready.stored;
          waits = refl;
          pending = refl;
          at_round = refl;
          same_max = ready.like.same_max;
          same_session = ready.like.same_session;
          session = ready.session;
          session_stored = ready.session_stored;
          job_queued =
              get-enqueue job_id now
                (orchestrator_test_input (job_args deps now run.session_id round)) s.jobs job_id
                fresh
              ∙ rw eq_refl refl;
        }))

  scan_then :
      (job_id : String) (run : OrchestrationRun) (round : ℕ) (state : OrchestrationState)
      (Q : Store → Result AsyncResult → Type 0) (s : Store)
      → Ready run round s.runs s.sessions
      → IsFresh job_key job_id s.jobs
      → ((s' : Store) (a : AsyncResult) → Waits deps now job_id run round s' a → Q s' (ok a))
      → ((s' : Store) (a : AsyncResult)
          → (a.status ≡ Store.passed → ⊥)
          → Ended run s.jobs s' a
          → Q s' (ok a))
      → Q
          (scan_and_enqueue deps now job_id run.session_id run.id round state s).0
          (scan_and_enqueue deps now job_id run.session_id run.id round state s).1
  unfolding scan_and_enqueue add_message
  scan_then job_id run round state Q s ready fresh waits stops =
      let found = scan_content deps.found deps.human_approved state.patch_text in
      elim (Bool-cases (has_blocking_violation found)) [
        | inr clean ↦ rw clean (enqueue_tests_then job_id run round state Q s ready fresh waits)
        | inl dirty ↦ rw dirty (elim (Bool-cases (is_fatal found)) [
          | inl fatal ↦ rw fatal (
              finalize_then run round Store.failed round state Q
                (add_message run.session_id claude_code_implementer system round
                  (violation_output found true) s).0
                refl ready (λ s' a e. stops s' a (λ p. cc (e, p))))
          | inr soft ↦ rw soft (
              finalize_then run round Store.needs_revision round state Q
                (add_message run.session_id claude_code_implementer system round
                  (violation_output found false) s).0
                refl ready (λ s' a e. stops s' a (λ p. cc (e, p))))
        ])
      ]

  -- `implementAndEnqueue` from a stored run: a new job is queued and the run waits for it at the new
  -- round, or the scan has stopped the run, or the model threw.
  pub implement_then :
      (job_id : String) (run : OrchestrationRun) (old round : ℕ) (state : OrchestrationState)
      (Q : Store → Result AsyncResult → Type 0) (s : Store)
      → Ready run old s.runs s.sessions
      → IsFresh job_key job_id s.jobs
      → ((s' : Store) (a : AsyncResult) → Waits deps now job_id run round s' a → Q s' (ok a))
      → ((s' : Store) (a : AsyncResult)
          → (a.status ≡ Store.passed → ⊥)
          → Ended run s.jobs s' a
          → Q s' (ok a))
      → ((s' : Store) (m : String) → Threw deps run round s.jobs s' m → Q s' (err m))
      → Q
          (implement_and_enqueue deps now job_id run.session_id run.id round state s).0
          (implement_and_enqueue deps now job_id run.session_id run.id round state s).1
  unfolding implement_and_enqueue append_event patch_run
  implement_then job_id run old round state Q s ready fresh waits stops threw =
      rw
        (update_session-ok run.session_id (round_session deps now round) now s ready.session_stored)
        (rw (update_run-ok deps.redact run.id (round_run deps now round state) now s1 ready.stored)
          (run_step_then run.session_id claude_code_implementer round _ _
            (λ out.
              scan_and_enqueue deps now job_id run.session_id run.id round
                (record state { patch_text = artifact_text out patch }))
            Q s3
            (λ out s' same_runs same_sessions same_jobs.
              scan_then job_id run round (record state { patch_text = artifact_text out patch }) Q
                s' (rw (same_runs, same_sessions) moved) (rw same_jobs fresh) waits
                (λ t a not_passed ended. stops t a not_passed (rw same_jobs at ended)))
            (λ m threw_it.
              threw s3 m
                (record { call = (_, _, _, _, threw_it); ready = moved; same_jobs = refl }))))
    where
      s1 : Store
      s1 = record s {
        sessions =
            update session_key run.session_id (patch_session (round_session deps now round) now)
              s.sessions;
      }

      s2 : Store
      s2 = record s1 {
        runs =
            update run_key run.id (patch_run deps.redact (round_run deps now round state) now)
              s.runs;
      }

      s3 : Store
      s3 = (append_event Audit.orchestration_round_started run.id run.session_id deps.user_id s2).0

      moved : Ready run round s3.runs s3.sessions
      moved = record {
        now_run = _;
        stored =
            get_run-update deps.redact run.id (round_run deps now round state) now s.runs
              ready.stored;
        like = record {
          same_session = ready.like.same_session;
          same_status = ready.like.same_status;
          same_pending = ready.like.same_pending;
          same_max = ready.like.same_max;
        };
        at_round = refl;
        session = _;
        session_stored =
            get_session-update run.session_id (round_session deps now round) now s.sessions
              ready.session_stored;
      }
