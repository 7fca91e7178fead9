-- ===== src/Async/Ending.antt =====
-- How many resumes a run can take, among what the others do between them.
use mathlib.Core.Path.{subst}
use botchatgptclaude.Prelude.{
  ℕ, zero, suc, ◌+◌, ◌<◌, ◌≤◌, String, ◌≡◌, refl, sym, ◌∙◌, true, false, some, arith, Result, ok,
  err, inl, inr, ◌⊎◌,
}
use botchatgptclaude.Table.{IsFresh, find-key}
use botchatgptclaude.Text.{is_empty}
use botchatgptclaude.Job
use botchatgptclaude.Job.{WorkerJob, is_passed}
use botchatgptclaude.Queue.{job_key, get}
use botchatgptclaude.Agent.{AgentOutput, StepName}
use botchatgptclaude.Store.{OrchestrationRun, SessionRecord, Store}
use botchatgptclaude.Orchestration.{is_terminal, is_waiting, get_run, run_key}
use botchatgptclaude.Session.{get_session}
use botchatgptclaude.Async.{Deps, AsyncResult}
use botchatgptclaude.Async.Resumption.{resume}
use botchatgptclaude.Async.Outcome.{Threw}
use botchatgptclaude.Async.Rounds.{Resumed, resume-Resumed}

module _ (deps : Deps) (rid : String) where
  -- The others leave the run and its session alone, and end the job that the run waits for.
  pub record Worked (s s' : Store) : Type 0 where
    pub same_runs : s'.runs ≡ s.runs
    pub same_sessions : s'.sessions ≡ s.sessions
    pub job_ends :
        (run : OrchestrationRun) (pending : String)
        → get_run rid s.runs ≡ some run
        → run.pending_worker_job_id ≡ some pending
        → (job : WorkerJob) × (get pending s'.jobs ≡ some job) × (Job.is_terminal job.status ≡ true)

  -- So many turns, each of them the others' work and then a resume of the run.
  pub data Turns (start : Store) : ℕ → Store → Type 0 where
    rest : Turns start 0 start
    turn :
        {n : ℕ} {s s' : Store} (now : ℕ) (job_id : String)
        → Turns start n s
        → Worked s s'
        → IsFresh job_key job_id s'.jobs
        → is_empty job_id ≡ false
        → Turns start (suc n) (resume deps now job_id rid s').0

  -- The run has ended, or it waits and has come at least to this round.
  record Waiting (most round : ℕ) (s : Store) : Type 0 where
    run : OrchestrationRun
    stored : get_run rid s.runs ≡ some run
    waits : is_waiting run.status ≡ true
    pending : String
    on : run.pending_worker_job_id ≡ some pending
    named : is_empty pending ≡ false
    session : SessionRecord
    session_stored : get_session run.session_id s.sessions ≡ some session
    at_round : round ≤ run.current_round
    below : run.max_rounds ≡ most

  abbrev pub HasEnded : Store → Type 0
  HasEnded s =
      (run : OrchestrationRun) × (get_run rid s.runs ≡ some run) × (is_terminal run.status ≡ true)

  abbrev Comes : ℕ → ℕ → Store → Type 0
  Comes most round s = HasEnded s ⊎ (round ≤ most) × Waiting most round s

  resume-HasEnded :
      (now : ℕ) (job_id : String) (s : Store)
      → HasEnded s
      → HasEnded (resume deps now job_id rid s).0
  unfolding resume
  resume-HasEnded now job_id s (run, stored, ended) = rw (stored, ended) (run, stored, ended)

  module _
      (answers : (n : ℕ) (step : StepName) (content : String) (mock_output : AgentOutput)
        → (out : AgentOutput) × (deps.complete n step content mock_output ≡ ok out)) where
    after_resume :
        (now most round : ℕ) (job_id : String) (run : OrchestrationRun) (job : WorkerJob)
        (s s' : Store) (r : Result AsyncResult)
        → run.id ≡ rid
        → is_empty job_id ≡ false
        → round ≤ run.current_round
        → run.max_rounds ≡ most
        → Resumed deps now job_id run (is_passed job.status) s.jobs s' r
        → Comes most (suc round) s'
    after_resume now most round job_id run job s s' (ok a) own named late below (inl (ended, _)) =
        inl (ended.last_run, rw (← own) ended.stored, rw ended.status_stored ended.ends)
    after_resume now most round job_id run job s s' (ok a) own named late below (inr (room, w)) =
        inr (
          omega (arith, room, late, below),
          record {
            run = w.next_run;
            stored = rw (← own) w.stored;
            waits = rw w.waits refl;
            pending = job_id;
            on = w.pending;
            named = named;
            session = w.session;
            session_stored = rw w.same_session w.session_stored;
            at_round = omega (arith, w.at_round, late);
            below = w.same_max ∙ below;
          },
        )
    after_resume now most round job_id run job s s' (err m) own named late below threw =
        absurd (answered threw)
      where
        thrown : (round : ℕ) → Threw deps run round s.jobs s' m → ⊥
        thrown round t =
            let (n, step, content, mock_output, e) = t.call in
            let (out, good) = answers n step content mock_output in cc (e, good)

        answered :
            Threw deps run run.current_round s.jobs s' m
              ⊎ (run.current_round < run.max_rounds)
                × Threw deps run (suc run.current_round) s.jobs s' m
            → ⊥
        answered (inl t) = thrown run.current_round t
        answered (inr (_, t)) = thrown (suc run.current_round) t

    turn-Comes :
        (now most round : ℕ) (job_id : String) (s s' : Store)
        → Worked s s'
        → IsFresh job_key job_id s'.jobs
        → is_empty job_id ≡ false
        → Comes most round s
        → Comes most (suc round) (resume deps now job_id rid s').0
    turn-Comes now most round job_id s s' worked fresh named (inl (run, stored, ended)) =
        inl (resume-HasEnded now job_id s' (run, rw worked.same_runs stored, ended))
    turn-Comes now most round job_id s s' worked fresh named (inr (_, w)) =
        let run = w.run in
        let own : run.id ≡ rid = unfold get_run in find-key run_key rid s.runs run w.stored in
        let (job, job_stored, ended) = worked.job_ends run w.pending w.stored w.on in
        after_resume now most round job_id run job s' _ _ own named w.at_round w.below (
          subst
            (λ i.
              Resumed deps now job_id run (is_passed job.status) s'.jobs
                (resume deps now job_id i s').0 (resume deps now job_id i s').1)
            own
            (resume-Resumed deps now job_id run job s' w.session w.pending
              (subst (λ i. get_run i s'.runs ≡ some run) (sym own) (rw worked.same_runs w.stored))
              (rw worked.same_sessions w.session_stored) w.waits w.on w.named job_stored ended
              fresh))

    Turns-Comes :
        (most round n : ℕ) (start s : Store)
        → Turns start n s
        → Comes most round start
        → Comes most (round + n) s
    Turns-Comes most round zero start s rest c =
        subst (λ k. Comes most k start) {x = round} {y = round + 0} (omega arith) c
    Turns-Comes most round (suc n) start s (turn now job_id before worked fresh named) c =
        subst (λ k. Comes most k s) {x = suc (round + n)} {y = round + suc n} (omega arith)
          (turn-Comes now most (round + n) job_id _ _ worked fresh named
            (Turns-Comes most round n start _ before c))

    -- A waiting run whose models answer, with the worker ending its job before each resume: it takes
    -- at most the rounds that are left and one more turn, and after them it has ended.
    pub Turns-HasEnded :
        (n : ℕ) (run : OrchestrationRun) (session : SessionRecord) (pending : String)
        (start s : Store)
        → get_run rid start.runs ≡ some run
        → get_session run.session_id start.sessions ≡ some session
        → is_waiting run.status ≡ true
        → run.pending_worker_job_id ≡ some pending
        → is_empty pending ≡ false
        → run.max_rounds < run.current_round + n
        → run.current_round ≤ run.max_rounds
        → Turns start n s
        → HasEnded s
    Turns-HasEnded n run session pending start s stored session_stored waits on named enough room
          turns =
        elim (Turns-Comes run.max_rounds run.current_round n start s turns (
          inr (
            room,
            record {
              run = run;
              stored = stored;
              waits = waits;
              pending = pending;
              on = on;
              named = named;
              session = session;
              session_stored = session_stored;
              at_round = omega arith;
              below = refl;
            },
          ))) [ inl ended ↦ ended | inr (early, _) ↦ absurd (omega (arith, early, enough)) ]
