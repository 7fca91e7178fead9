-- ===== src/ControlPlane.antt =====
-- What the control plane does with jobs: `createTestJob`, `getJobView` and `cancelJob` of
-- lib/ai-orchestrator/worker/job-service.ts, on the state that it shares with the workers.
use botchatgptclaude.Prelude.{
  ℕ, String, Bool, true, false, Option, none, some, get_or, List, [], ◌∷◌, ◌++◌, if◌then◌else◌,
  Result, ok, err,
}
use botchatgptclaude.Json.{Json, str, bool, arr, obj, Items, nil, cons, end, field}
use botchatgptclaude.Audit
use botchatgptclaude.Audit.{AuditEntry, AuditEventType}
use botchatgptclaude.Job.{JobType, is_test_patch, Stream, WorkerJob, WorkerJobLog}
use botchatgptclaude.Queue.{Jobs, enqueue, cancel, get}
use botchatgptclaude.Queue.Logs.{Logs, get_logs}
use botchatgptclaude.Payload.{◌>>=◌, RepoRef, JobPayload, parse_job_payload}

pub record LogLine : Type 0 where
  pub job_id : String
  pub stream : Stream
  pub content : String

-- What the control plane and the workers share.
pub record Plane : Type 0 where
  pub jobs : Jobs
  pub audits : List AuditEntry
  pub logs : List LogLine

abbrev pub audit : AuditEventType → String → Option String → Option String → Plane → Plane
audit event status sid uid p = record p {
  audits =
      p.audits
      ++ (record { event_type = event; status = status; session_id = sid; user_id = uid }) ∷ [];
}

abbrev pub audit_job : AuditEventType → String → WorkerJob → Plane → Plane
audit_job event status job = audit event status job.session_id job.user_id

pub record CreateTestJobArgs : Type 0 where
  pub session_id : String
  pub patch_set_id : Option String
  pub pull_request_id : Option String
  pub user_id : Option String
  pub job_type : JobType
  pub repo : RepoRef
  pub commands : List String
  pub priority : Option ℕ

abbrev strings : List String → Items
strings [] = nil
strings (s ∷ ss) = cons (str s) (strings ss)

abbrev repo_json : RepoRef → Json
repo_json r = obj (
    field "clone_url" (str r.clone_url) (
      field "branch" (str r.branch)
        (elim r.commit_sha [ none ↦ end | some sha ↦ field "commit_sha" (str sha) end ])))

-- `patch_set_id: undefined` is no member.
unfoldable pub test_job_payload : CreateTestJobArgs → Json
test_job_payload args =
    if is_test_patch args.job_type
    then (let rest =
          field "apply_patch" (bool true) (field "commands" (arr (strings args.commands)) end) in
        obj (
          field "repo" (repo_json args.repo) (elim args.patch_set_id [
            | none ↦ rest
            | some psid ↦ field "patch_set_id" (str psid) rest
          ])))
    else obj
        (field "repo" (repo_json args.repo) (field "commands" (arr (strings args.commands)) end))

abbrev created :
    String → ℕ → CreateTestJobArgs → Plane → Option JobPayload → Result (Plane × WorkerJob)
created id now args p none = err "invalid payload"
created id now args p (some _) =
    let (jobs, job) =
      enqueue id now
        (record {
          session_id = some args.session_id;
          patch_set_id = args.patch_set_id;
          pull_request_id = args.pull_request_id;
          user_id = args.user_id;
          job_type = args.job_type;
          payload = test_job_payload args;
          priority = args.priority;
          max_attempts = none;
        })
        p.jobs in
    ok (
      audit Audit.worker_job_created "ok" (some args.session_id) args.user_id
          (record p { jobs = jobs }),
      job,
    )

unfoldable pub create_test_job : String → ℕ → CreateTestJobArgs → Plane → Result (Plane × WorkerJob)
unfolding test_job_payload
create_test_job id now args p =
    created id now args p (parse_job_payload args.job_type (test_job_payload args))

unfoldable pub cancel_job_for : String → ℕ → Option String → Option String → Plane → Plane × Bool
cancel_job_for id now sid uid p =
    let (jobs, done) = cancel id now p.jobs in
    let p' = record p { jobs = jobs } in
    if done then (audit Audit.worker_job_cancelled "ok" sid uid p', true) else (p', false)

pub record JobView : Type 0 where
  pub job : WorkerJob
  pub logs : List WorkerJobLog

-- A job with the first of its log lines, on the queue's two maps.
unfoldable pub get_job_view : String → Option ℕ → Jobs → Logs → Option JobView
get_job_view job_id limit jobs logs = do
  job ← get job_id jobs
  some (record { job = job; logs = get_logs job_id (some (get_or limit 200)) logs })
