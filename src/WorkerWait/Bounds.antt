-- ===== src/WorkerWait/Bounds.antt =====
-- The bounded wait, and the executor as the workflow sees it.
use mathlib.Core.Option.{some_inj}
use botchatgptclaude.Prelude.{
  ℕ, zero, suc, ◌+◌, ◌*◌, ◌≤◌, ◌<◌, String, ◌≡◌, refl, true, false, some, arith, Bool-cases,
  Option-cases, inl, inr, ok, Result, if◌then◌else◌, ap, sym, ◌∙◌,
}
use botchatgptclaude.Job
use botchatgptclaude.Job.{WorkerJob, JobStatus, is_terminal, is_passed}
use botchatgptclaude.Queue.{Jobs, get, enqueue, new_job}
use botchatgptclaude.Report.{TestStepResult, build_report_from_job}
use botchatgptclaude.Store.{Store}
use botchatgptclaude.WorkerWait.{
  WaitDeps, Waited, finished, gave_up, unpolled, is_over, polled, wait_from, wait_for_terminal,
  timeout_report, run_orchestrator_test_job, report_wait, audit,
}

module _ (deps : WaitDeps) where
  -- The clock moves on by the time of a pause.
  abbrev pub IsPaced : ℕ → Type 0
  IsPaced poll =
      (deps.clock 0 ≤ deps.clock 1)
      × ((n : ℕ) → deps.clock (suc n) + poll ≤ deps.clock (suc (suc n)))

  -- The queue does not have the job as ended.
  abbrev pub IsOpen : String → Jobs → Type 0
  IsOpen job_id jobs =
      (job : WorkerJob) → get job_id jobs ≡ some job → is_terminal job.status ≡ false

  -- What a wait may end in, by the queue that it leaves.
  abbrev pub Answers : String → Jobs × Waited → Type 0
  Answers job_id (jobs, finished job) =
      (is_terminal job.status ≡ true) × (get job_id jobs ≡ some job)
  Answers job_id (jobs, gave_up) =
      IsOpen job_id jobs × ((n : ℕ) × (deps.clock 0 + deps.timeout_ms ≤ deps.clock (suc n)))
  Answers job_id (jobs, unpolled) = ⊥

  polled-Answers :
      (n : ℕ) (job_id : String) (jobs : Jobs) (rest : Jobs × Waited)
      → (is_over deps n ≡ false → Answers job_id rest)
      → Answers job_id (polled deps n jobs rest (get job_id jobs))
  polled-Answers n job_id jobs rest go = elim (Option-cases (get job_id jobs)) [
    | inl missing ↦ rw missing (pause (λ job there. cc (missing, there)))
    | inr (job, there) ↦ elim (Bool-cases (is_terminal job.status)) [
      | inl ended ↦ rw (there, ended) (ended, there)
      | inr open_job ↦
          rw (there, open_job)
            (pause (λ other there'.
              ap (λ j. is_terminal j.status) (some_inj.0 (sym there' ∙ there)) ∙ open_job))
    ]
  ]
    where
      pause : IsOpen job_id jobs → Answers job_id (if is_over deps n then (jobs, gave_up) else rest)
      pause unended = elim (Bool-cases (is_over deps n)) [
        | inl over ↦ rw over (unended, (n, ground (arith, over)))
        | inr early ↦ rw early (go early)
      ]

  module _ (poll : ℕ) (some_poll : 1 ≤ poll) (paced : IsPaced poll) where
    -- `spent` is the time that the pauses have taken.
    wait_from-Answers :
        (fuel n spent : ℕ) (job_id : String) (jobs : Jobs)
        → deps.clock 0 + spent ≤ deps.clock (suc n)
        → spent < deps.timeout_ms + poll
        → deps.timeout_ms + poll ≤ spent + fuel * poll
        → Answers job_id (wait_from deps fuel n job_id jobs)
    unfolding wait_from
    wait_from-Answers zero n spent job_id jobs late room enough =
        absurd (omega (arith, room, enough))
    wait_from-Answers (suc fuel) n spent job_id jobs late room enough =
        polled-Answers n job_id jobs _ (λ early.
          wait_from-Answers fuel (suc n) (spent + poll) job_id (deps.meanwhile n jobs)
            (omega (arith, late, paced.1 n)) (ground (arith, early, late)) (omega (arith, enough)))

    -- With pauses of `poll` milliseconds, a number of polls whose pauses cover the timeout and one
    -- pause more is enough: the wait ends with the job, ended, as the queue has it, or gives up, and
    -- only when the queue does not have it as ended and the clock is past the timeout.
    pub wait_from-ends :
        (polls : ℕ) (job_id : String) (jobs : Jobs)
        → deps.timeout_ms + poll ≤ polls * poll
        → Answers job_id (wait_from deps polls 0 job_id jobs)
    wait_from-ends polls job_id jobs enough =
        wait_from-Answers polls 0 0 job_id jobs (omega (arith, paced.0)) (omega (arith, some_poll))
          (omega (arith, enough))

    each_millisecond : IsPaced 1
    each_millisecond = (paced.0, λ n. omega (arith, paced.1 n, some_poll))

  -- What the executor gives back: a report, and green exactly if the queue that it leaves has the job
  -- as passed.
  pub record Tested (job_id : String) (s s' : Store) (r : Result TestStepResult) : Type 0 where
    pub tested : TestStepResult
    pub answer : r ≡ ok tested
    pub named : tested.worker_job_id ≡ some job_id
    pub same_sessions : s'.sessions ≡ s.sessions
    pub same_messages : s'.messages ≡ s.messages
    pub earned :
        tested.report.passed ≡ true
        → (job : WorkerJob) × (get job_id s'.jobs ≡ some job) × (is_passed job.status ≡ true)
    pub honoured :
        (job : WorkerJob)
        → get job_id s'.jobs ≡ some job
        → is_passed job.status ≡ true
        → tested.report.passed ≡ true

  is_passed-is_terminal : (status : JobStatus) → is_passed status ≡ true → is_terminal status ≡ true
  is_passed-is_terminal Job.passed h = refl
  is_passed-is_terminal Job.queued h = cc h
  is_passed-is_terminal Job.running h = cc h
  is_passed-is_terminal Job.failed h = refl
  is_passed-is_terminal Job.cancelled h = refl
  is_passed-is_terminal Job.timed_out h = refl

  report_wait-Tested :
      (job_id sid : String) (waited : Waited) (before s : Store)
      → s.sessions ≡ before.sessions
      → s.messages ≡ before.messages
      → Answers job_id (s.jobs, waited)
      → Tested job_id before
          (report_wait deps job_id sid waited s).0
          (report_wait deps job_id sid waited s).1
  unfolding report_wait audit build_report_from_job timeout_report
  report_wait-Tested job_id sid (finished job) before s same same' (ended, there) = record {
    tested = _;
    answer = refl;
    named = refl;
    same_sessions = same;
    same_messages = same';
    earned = λ green. (job, there, green);
    honoured = λ other there' passed.
        ap (λ j. is_passed j.status) (some_inj.0 (sym there ∙ there')) ∙ passed;
  }
  report_wait-Tested job_id sid gave_up before s same same' (unended, late) = record {
    tested = _;
    answer = refl;
    named = refl;
    same_sessions = same;
    same_messages = same';
    earned = λ green. cc green;
    honoured = λ job there passed. cc (unended job there, is_passed-is_terminal job.status passed);
  }
  report_wait-Tested job_id sid unpolled before s same same' bad = absurd bad

  -- The executor, with pauses of at least a millisecond: it always gives a report, whatever others
  -- do to the queue meanwhile; the report is green exactly if the queue that it leaves has its job
  -- as passed; and the sessions and the messages are as they were.
  pub run_orchestrator_test_job-Tested :
      (poll : ℕ) (next_id : ℕ → String) (now : ℕ) (sid : String) (round : ℕ) (s : Store)
      → 1 ≤ poll
      → IsPaced poll
      → Tested
          (next_id round)
          s
          (run_orchestrator_test_job deps next_id now sid round s).0
          (run_orchestrator_test_job deps next_id now sid round s).1
  unfolding run_orchestrator_test_job audit enqueue new_job wait_for_terminal
  run_orchestrator_test_job-Tested poll next_id now sid round s some_poll paced =
      report_wait-Tested (next_id round) sid _ s _ refl refl (
        wait_from-ends 1 (omega arith) (each_millisecond poll some_poll paced) (suc deps.timeout_ms)
          (next_id round) _ (omega arith))
