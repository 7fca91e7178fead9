-- ===== src/JobService.antt =====
-- Running a claimed job: `processClaimedJob`, `pollAndRunOnce` and `findLatestRequiredWorkerJob` of
-- lib/ai-orchestrator/worker/job-service.ts. `processClaimedJob` is cut where other processes act:
-- `begin_job` up to the start of the heartbeat, then the sandbox run and the heartbeat
-- (Sandbox.antt, Heartbeat.antt), then `finish_job`.
pub mod Finish
pub mod Lease
use botchatgptclaude.Prelude.{
  ℕ, ◌*◌, String, Bool, true, false, ◌&&◌, Option, none, some, get_or, List, [], ◌∷◌, ◌++◌,
  if◌then◌else◌, Result, ok, err, first,
}
use botchatgptclaude.Json.{Json, str, bool, arr, obj, Items, nil, cons, end, field}
use botchatgptclaude.Audit
use botchatgptclaude.Audit.{AuditEntry, AuditEventType}
use botchatgptclaude.Job.{
  JobType, JobStatus, passed, failed, cancelled, timed_out, is_passed, is_test_patch, Stream,
  system, JobResult, WorkerJob, UpdateWorkerJobStatusInput,
}
use botchatgptclaude.Queue.{
  claim_next, Jobs, enqueue, get, set_status, cancel, is_owner, list_for_session,
}
use botchatgptclaude.Payload.{RepoRef, JobPayload, parse_job_payload}
use botchatgptclaude.Heartbeat.{AbortReason, lease_lost, lease_renewal_failed, HeartbeatStats}
use botchatgptclaude.Sandbox.{RunSandboxInput, RunSandboxResult}
use botchatgptclaude.ControlPlane.{Plane, audit, audit_job}

abbrev failed_result : String → JobResult
failed_result summary = record {
  passed = false;
  commands = [];
  summary = summary;
  workspace_path = none;
  patch_applied = none;
  patch_set_id = none;
  changed_files = none;
  diff_summary = none;
  base_hash_checked = none;
  errors = none;
  heartbeat_renewals = none;
  heartbeat_failures = none;
  lease_renewed = none;
  cancelled_by_signal = none;
}

abbrev no_change : UpdateWorkerJobStatusInput
no_change = record {
  status = none;
  result = none;
  error_message = none;
  lease_owner = none;
  lease_expires_at = none;
  attempts = none;
  started_at = none;
  finished_at = none;
}

-- A queue write of the worker; `none` is a throw.
abbrev pub write : Plane → Result Jobs → Option Plane
write p (err m) = none
write p (ok jobs) = some (record p { jobs = jobs })

-- The worker goes on with a sandbox input, or has ended the job for its payload.
pub data Begun : Type 0 where
  runs : RunSandboxInput → Begun
  rejected : JobStatus → JobResult → Begun

abbrev pub begun_patch : WorkerJob → Plane → Plane
begun_patch job p =
    if is_test_patch job.job_type then audit_job Audit.patch_apply_started "ok" job p else p

abbrev pub rejected_patch : String → ℕ → UpdateWorkerJobStatusInput
rejected_patch message now = record no_change {
  status = some failed;
  error_message = some (some message);
  finished_at = some (some now);
  lease_owner = some none;
  lease_expires_at = some none;
}

abbrev pub begin_rejected : WorkerJob → Option Plane → Option (Plane × Begun)
begin_rejected job none = none
begin_rejected job (some p) = some (
  audit_job Audit.worker_job_failed "fail" job p,
  rejected failed (failed_result "invalid payload"),
)

abbrev pub begin_with : String → ℕ → WorkerJob → Plane → Option JobPayload → Option (Plane × Begun)
begin_with message now job p (some payload) = some (
  audit_job Audit.worker_heartbeat_started "ok" job (begun_patch job p),
  runs (record {
    job_type = job.job_type;
    commands = payload.commands;
    patch_set_id = if is_test_patch job.job_type then payload.patch_set_id else none;
    apply_patch = if is_test_patch job.job_type then payload.apply_patch else true;
  }),
)
begin_with message now job p none =
    begin_rejected job (write p (set_status job.id (rejected_patch message now) now p.jobs))

-- `message` is the redacted message of the schema's error; `none` is a throw of the queue.
unfoldable pub begin_job : String → ℕ → WorkerJob → Plane → Option (Plane × Begun)
begin_job message now job p =
    begin_with message now job (audit_job Audit.worker_job_started "ok" job p)
      (parse_job_payload job.job_type job.payload)

abbrev begun : WorkerJob → Option (Plane × Begun) → Option (Plane × Option (WorkerJob × Begun))
begun job none = none
begun job (some (p, b)) = some (p, some (job, b))

abbrev begin_granted :
    String → ℕ → Plane → Option WorkerJob → Option (Plane × Option (WorkerJob × Begun))
begin_granted message now p none = some (p, none)
begin_granted message now p (some job) = begun job (begin_job message now job p)

-- `pollAndRunOnce` up to the sandbox run: the claim, with the lease of the heartbeat, and the begin;
-- without a claimable job it answers nothing.
unfoldable pub poll_and_begin :
    String → ℕ → String → ℕ → Plane → Option (Plane × Option (WorkerJob × Begun))
poll_and_begin worker lease_seconds message now p =
    let (jobs, granted) = claim_next worker now (some (lease_seconds * 1000)) p.jobs in
    begin_granted message now (record p { jobs = jobs }) granted

abbrev pub is_lost : Option AbortReason → Bool
is_lost (some lease_renewal_failed) = true
is_lost (some lease_lost) = true
is_lost _ = false

abbrev is_true : Option Bool → Bool
is_true none = false
is_true (some b) = b

unfoldable pub final_status : RunSandboxResult → HeartbeatStats → JobStatus
final_status out hb = if is_lost hb.reason then failed else out.status

unfoldable pub final_result : RunSandboxResult → HeartbeatStats → JobResult
final_result out hb =
    let r = record out.result {
      heartbeat_renewals = some hb.renewals;
      heartbeat_failures = some hb.failures;
      lease_renewed = some hb.lease_renewed;
    } in
    if is_lost hb.reason
    then record r {
      cancelled_by_signal = some true;
      errors =
          some (
            get_or r.errors []
            ++ (record { code = "lease_renewal_failed"; file_path = none }) ∷ []);
    }
    else r

abbrev apply_audit : WorkerJob → RunSandboxResult → Plane → Plane
apply_audit job out p =
    if is_test_patch job.job_type
    then (if is_true out.result.patch_applied
        then audit_job Audit.patch_apply_passed "ok" job p
        else audit_job Audit.patch_apply_failed "fail" job p)
    else p

abbrev lost_audit : WorkerJob → HeartbeatStats → Plane → Plane
lost_audit job hb p =
    if is_lost hb.reason then audit_job Audit.worker_lease_renew_failed "fail" job p else p

abbrev final_event : JobStatus → AuditEventType
final_event passed = Audit.worker_job_passed
final_event timed_out = Audit.worker_job_timed_out
final_event cancelled = Audit.worker_job_cancelled
final_event _ = Audit.worker_job_failed

abbrev worker_of : WorkerJob → String
worker_of job = get_or job.lease_owner "worker"

-- `fresh.lease_owner === workerId`, on the record that the store holds now.
abbrev owns : String → Option WorkerJob → Bool
owns worker none = false
owns worker (some fresh) = is_owner worker fresh.lease_owner

unfoldable pub final_patch : ℕ → JobStatus → JobResult → UpdateWorkerJobStatusInput
final_patch now status result = record no_change {
  status = some status;
  result = some (some result);
  finished_at = some (some now);
  lease_owner = some none;
  lease_expires_at = some none;
}

abbrev not_finalizing : WorkerJob → Plane → Plane
not_finalizing job p = record p {
  logs =
      p.logs
      ++ (record {
        job_id = job.id;
        stream = system;
        content = "not finalizing: lease no longer owned (job reclaimed or DB unreachable)";
      })
        ∷ [];
}

-- The owner-guarded write; `reachable` says that the re-read does not throw.
unfoldable pub finalize : Bool → ℕ → WorkerJob → JobStatus → JobResult → Plane → Option Plane
finalize reachable now job status result p =
    if reachable && owns (worker_of job) (get job.id p.jobs)
    then elim (write p (set_status job.id (final_patch now status result) now p.jobs)) [
      | none ↦ none
      | some p' ↦
          some (audit_job (final_event status) (if is_passed status then "ok" else "fail") job p')
    ]
    else some (not_finalizing job p)

unfoldable pub finish_job :
    Bool → ℕ → WorkerJob → RunSandboxResult → HeartbeatStats → Plane → Option Plane
finish_job reachable now job out hb p =
    finalize reachable now job (final_status out hb) (final_result out hb) (
      lost_audit job hb (apply_audit job out (audit_job Audit.worker_heartbeat_stopped "ok" job p)))

unfoldable pub find_latest_required : String → Jobs → Option WorkerJob
find_latest_required sid jobs =
    first (λ j. is_test_patch j.job_type) (list_for_session sid (some 50) jobs)
