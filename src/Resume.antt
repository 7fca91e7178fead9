-- ===== src/Resume.antt =====
-- lib/ai-orchestrator/orchestration-resume-scheduler.ts: `findResumableOrchestrations` and
-- `resumeDueOrchestrations`. `resume` is the injected resume of one run (`deps.resume`).
pub mod Batch
use botchatgptclaude.Prelude.{
  ℕ, suc, ◌+◌, ◌*◌, ltb, leb, String, Bool, true, false, not, ◌&&◌, Option, none, some, List, [],
  ◌∷◌, ◌++◌, if◌then◌else◌, length, Result, ok, err,
}
use botchatgptclaude.Audit
use botchatgptclaude.Audit.{AuditEventType}
use botchatgptclaude.Text.{is_empty}
use botchatgptclaude.Job
use botchatgptclaude.Job.{WorkerJob}
use botchatgptclaude.Queue.{Jobs, get}
use botchatgptclaude.Store.{OrchestrationRun, OrchestrationRunStatus, Store, Action}
use botchatgptclaude.Orchestration.{
  Runs, is_waiting, list_waiting, claim_resume_lock, release_resume_lock, increment_resume_attempt,
  update_run, no_patch,
}
use botchatgptclaude.Async.{AsyncResult}

-- `job && TERMINAL_JOB_STATUSES.has(job.status)`
abbrev has_ended : Option WorkerJob → Bool
has_ended none = false
has_ended (some job) = Job.is_terminal job.status

abbrev due_pending : Jobs → Option String → Bool
due_pending jobs none = false
due_pending jobs (some id) = not (is_empty id) && has_ended (get id jobs)

abbrev pub is_due : Jobs → OrchestrationRun → Bool
is_due jobs run = due_pending jobs run.pending_worker_job_id

abbrev names_job : Option String → Bool
names_job none = false
names_job (some id) = not (is_empty id)

-- The loop of `findResumableOrchestrations`; a run that names no job goes on before the length is
-- tested.
unfoldable pub collect : ℕ → Jobs → Runs → Runs → Runs
collect limit jobs [] out = out
collect limit jobs (run ∷ rest) out =
    let skip = collect limit jobs rest out in
    let out' = if is_due jobs run then out ++ run ∷ [] else out in
    let next = collect limit jobs rest out' in
    if not (names_job run.pending_worker_job_id)
    then skip
    else if leb limit (length out')
    then out'
    else next

-- `Math.max(1, …)`
abbrev pub at_least_one : ℕ → ℕ
at_least_one n = if ltb n 1 then 1 else n

unfoldable pub find_resumable : ℕ → Store → Runs
unfolding collect
find_resumable limit s =
    collect (at_least_one limit) s.jobs (list_waiting (at_least_one limit * 4) s.runs) []

pub data ResumeOutcome : Type 0 where
  resumed still_waiting lock_skipped failed : ResumeOutcome

pub record ResumeRunResult : Type 0 where
  pub run_id : String
  pub session_id : String
  pub outcome : ResumeOutcome
  pub status : Option OrchestrationRunStatus

pub record ResumeSummary : Type 0 where
  pub scanned : ℕ
  pub resumed_count : ℕ
  pub still_waiting_count : ℕ
  pub skipped_count : ℕ
  pub failed_count : ℕ
  pub results : List ResumeRunResult

abbrev result_of :
    OrchestrationRun → ResumeOutcome → Option OrchestrationRunStatus → ResumeRunResult
result_of run outcome status = record {
  run_id = run.id;
  session_id = run.session_id;
  outcome = outcome;
  status = status;
}

-- The counter and the result of one run.
unfoldable pub note_result : ResumeRunResult → ResumeSummary → ResumeSummary
note_result r sum =
    let listed = record sum { results = sum.results ++ r ∷ [] } in
    elim r.outcome [
      | resumed ↦ record listed { resumed_count = sum.resumed_count + 1 }
      | still_waiting ↦ record listed { still_waiting_count = sum.still_waiting_count + 1 }
      | lock_skipped ↦ record listed { skipped_count = sum.skipped_count + 1 }
      | failed ↦ record listed { failed_count = sum.failed_count + 1 }
    ]

abbrev safe_event : OrchestrationRun → AuditEventType → Store → Store
safe_event run type s = record s {
  events =
      s.events
      ++ (record { orchestration_run_id = run.id; session_id = run.session_id; event_type = type })
        ∷ [];
}

module _ (resume : String → Action AsyncResult) (redact : String → String) (owner : String)
    (ttl now : ℕ) where
  abbrev pub answered : OrchestrationRun → Store → Result AsyncResult → Store × ResumeRunResult
  answered run s (ok r) =
      if is_waiting r.status
      then (s, result_of run still_waiting (some r.status))
      else (s, result_of run resumed (some r.status))
  answered run s (err m) = (
    (update_run redact run.id (record no_patch { last_error = some (some m) }) now s).0,
    result_of run failed none,
  )

  -- The `finally` block.
  abbrev released : OrchestrationRun → Store × ResumeRunResult → Store × ResumeRunResult
  released run (s, r) = (
    safe_event run Audit.orchestration_resume_lock_released
        (record s { runs = release_resume_lock run.id owner now s.runs }),
    r,
  )

  abbrev pub locked : OrchestrationRun → Store → Option OrchestrationRun → Store × ResumeRunResult
  locked run s none =
      (safe_event run Audit.orchestration_resume_lock_skipped s, result_of run lock_skipped none)
  locked run s (some held) =
      let s1 = safe_event run Audit.orchestration_resume_lock_acquired s in
      let s2 : Store = record s1 { runs = increment_resume_attempt run.id now s1.runs } in
      released run (answered run (resume run.id s2).0 (resume run.id s2).1)

  -- One round of the `for` loop.
  unfoldable pub resume_one : OrchestrationRun → Store → Store × ResumeRunResult
  resume_one run s =
      let (runs, held) = claim_resume_lock run.id owner ttl now s.runs in
      locked run (record s { runs = runs }) held

  unfoldable pub resume_each : Runs → Store → ResumeSummary → Store × ResumeSummary
  resume_each [] s sum = (s, sum)
  resume_each (run ∷ rest) s sum =
      let (s', r) = resume_one run s in resume_each rest s' (note_result r sum)

  unfoldable pub resume_due : ℕ → Store → Store × ResumeSummary
  unfolding resume_one resume_each find_resumable
  resume_due batch_size s =
      let candidates = find_resumable batch_size s in
      resume_each candidates s (record {
        scanned = length candidates;
        resumed_count = 0;
        still_waiting_count = 0;
        skipped_count = 0;
        failed_count = 0;
        results = [];
      })
