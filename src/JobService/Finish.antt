-- ===== src/JobService/Finish.antt =====
-- What the end of a job writes.
use mathlib.Core.Option
use botchatgptclaude.Prelude.{
  none, Option, arith, eq_refl, ℕ, String, ◌≡◌, refl, Bool, true, false, ◌&&◌, some, ap, ◌∙◌, arith,
  ◌==◌, eq_refl, ok, if◌then◌else◌,
}
use botchatgptclaude.Table.{IsDistinct, update-IsDistinct, find-update, update}
use botchatgptclaude.Job.{
  failed, is_passed, WorkerJob, JobStatus, JobResult, cancelled, is_running,
  UpdateWorkerJobStatusInput,
}
use botchatgptclaude.Queue.{cancel, cancel_job, Jobs, job_key, get, set_status, patch_job, is_owner}
use botchatgptclaude.Audit
use botchatgptclaude.Queue.Cells.{get-cancel}
use botchatgptclaude.Heartbeat.{HeartbeatStats}
use botchatgptclaude.Sandbox.{RunSandboxResult}
use botchatgptclaude.JobService.{
  is_lost, owns, worker_of, final_status, final_result, final_patch, finalize, finish_job,
  apply_audit, lost_audit, not_finalizing, final_event,
}
use botchatgptclaude.ControlPlane.{Plane, cancel_job_for, audit_job}

pub patch_job-key :
    (u : UpdateWorkerJobStatusInput) (now : ℕ) (x : WorkerJob)
    → job_key (patch_job u now x) ≡ job_key x
unfolding patch_job
patch_job-key u now x = refl

-- The write of a status on a stored job, seen from every key.
pub get-set_status :
    (id : String) (u : UpdateWorkerJobStatusInput) (now : ℕ) (jobs : Jobs) {fresh : WorkerJob}
    → get id jobs ≡ some fresh
    → (jobs' : Jobs) × (set_status id u now jobs ≡ ok jobs')
      × (get id jobs' ≡ some (patch_job u now fresh))
      × ((k : String) → (id == k) ≡ false → get k jobs' ≡ get k jobs)
      × (IsDistinct job_key jobs → IsDistinct job_key jobs')
unfolding set_status get
get-set_status id u now jobs {fresh} e = (
  update job_key id (patch_job u now) jobs,
  rw e,
  rw (find-update job_key id (patch_job u now) (patch_job-key u now), eq_refl, e),
  λ k apart. rw (find-update job_key id (patch_job u now) (patch_job-key u now), apart),
  update-IsDistinct job_key id (patch_job u now) (patch_job-key u now) jobs,
)

module _ (now : ℕ) (job : WorkerJob) where
  finalize_lost :
      (reachable : Bool) (status : JobStatus) (result : JobResult) (q : Plane)
      → (reachable && owns (worker_of job) (get job.id q.jobs)) ≡ false
      → (p' : Plane) × (finalize reachable now job status result q ≡ some p') × (p'.jobs ≡ q.jobs)
  unfolding finalize
  finalize_lost reachable status result q lost = (not_finalizing job q, rw lost, refl)

  finalize_owned :
      (status : JobStatus) (result : JobResult) (q : Plane) {fresh : WorkerJob}
      → get job.id q.jobs ≡ some fresh
      → is_owner (worker_of job) fresh.lease_owner ≡ true
      → (p' : Plane) × (finalize true now job status result q ≡ some p')
        × (get job.id p'.jobs ≡ some (patch_job (final_patch now status result) now fresh))
        × ((k : String) → (job.id == k) ≡ false → get k p'.jobs ≡ get k q.jobs)
        × (IsDistinct job_key q.jobs → IsDistinct job_key p'.jobs)
  unfolding finalize
  finalize_owned status result q stored owner =
      let (jobs, written, here, others, keeps) =
        get-set_status job.id (final_patch now status result) now q.jobs stored in
      (
        audit_job (final_event status) (if is_passed status then "ok" else "fail") job
            (record q { jobs = jobs }),
        rw (stored, owner, written),
        here,
        others,
        keeps,
      )

  module _ (out : RunSandboxResult) (hb : HeartbeatStats) (p : Plane) where
    abbrev audited : Plane
    audited =
        lost_audit job hb
          (apply_audit job out (audit_job Audit.worker_heartbeat_stopped "ok" job p))

    -- The audits before the final write leave the queue alone.
    audited-jobs : audited.jobs ≡ p.jobs
    audited-jobs = ground arith

    -- A worker that no longer owns the job, or cannot read it, leaves every job as it is.
    pub finish_job_lost :
        (reachable : Bool)
        → (reachable && owns (worker_of job) (get job.id p.jobs)) ≡ false
        → (p' : Plane) × (finish_job reachable now job out hb p ≡ some p') × (p'.jobs ≡ p.jobs)
    unfolding finish_job
    finish_job_lost reachable lost =
        let (p', e, same) =
          finalize_lost reachable (final_status out hb) (final_result out hb) audited
            (rw audited-jobs lost) in
        (p', e, same ∙ audited-jobs)

    -- A worker that still owns the job writes its final status and result, gives the lease back,
    -- and leaves every other job as it is.
    pub finish_job_writes :
        (fresh : WorkerJob)
        → get job.id p.jobs ≡ some fresh
        → is_owner (worker_of job) fresh.lease_owner ≡ true
        → (p' : Plane) × (finish_job true now job out hb p ≡ some p')
          × (get job.id p'.jobs
              ≡ some (
                  patch_job
                    (final_patch now (final_status out hb) (final_result out hb))
                    now
                    fresh))
          × ((k : String) → (job.id == k) ≡ false → get k p'.jobs ≡ get k p.jobs)
          × (IsDistinct job_key p.jobs → IsDistinct job_key p'.jobs)
    unfolding finish_job
    finish_job_writes fresh stored owner =
        let (p', e, here, others, keeps) =
          finalize_owned (final_status out hb) (final_result out hb) audited
            (rw audited-jobs stored) owner in
        (
          p',
          e,
          here,
          λ k apart. others k apart ∙ ap (get k) audited-jobs,
          λ d. keeps (rw audited-jobs d),
        )

-- The record of a job that its owner has ended.
pub record IsFinal (now : ℕ) (out : RunSandboxResult) (hb : HeartbeatStats) (fresh j : WorkerJob)
    : Type 0 where
  pub status : j.status ≡ (if is_lost hb.reason then failed else out.status)
  pub result : j.result ≡ some (final_result out hb)
  pub freed : j.lease_owner ≡ none
  pub no_lease : j.lease_expires_at ≡ none
  pub finished : j.finished_at ≡ some now
  pub same_attempts : j.attempts ≡ fresh.attempts
  pub same_error : j.error_message ≡ fresh.error_message

-- A worker that still owns the job ends it: with `failed` if the heartbeat lost the lease and else
-- with the runner's status, with the result, and without a lease; every other job stays as it is.
pub finish_job_owned :
    (now : ℕ) (job : WorkerJob) (out : RunSandboxResult) (hb : HeartbeatStats) (p : Plane)
    (fresh : WorkerJob)
    → get job.id p.jobs ≡ some fresh
    → is_owner (worker_of job) fresh.lease_owner ≡ true
    → (p' : Plane) × (j : WorkerJob) × (finish_job true now job out hb p ≡ some p')
      × (get job.id p'.jobs ≡ some j)
      × IsFinal now out hb fresh j
      × ((k : String) → (job.id == k) ≡ false → get k p'.jobs ≡ get k p.jobs)
finish_job_owned now job out hb p fresh stored owner =
    let (p', e, here, others, keeps) = finish_job_writes now job out hb p fresh stored owner in
    (
      p',
      patch_job (final_patch now (final_status out hb) (final_result out hb)) now fresh,
      e,
      here,
      record {
        status = unfold patch_job final_patch final_status in refl;
        result = unfold patch_job final_patch in refl;
        freed = unfold patch_job final_patch in refl;
        no_lease = unfold patch_job final_patch in refl;
        finished = unfold patch_job final_patch in refl;
        same_attempts = unfold patch_job final_patch in refl;
        same_error = unfold patch_job final_patch in refl;
      },
      others,
    )

cancel_job_for-jobs :
    (id : String) (now : ℕ) (sid uid : Option String) (p : Plane)
    → (cancel_job_for id now sid uid p).0.jobs ≡ (cancel id now p.jobs).0
unfolding cancel_job_for
cancel_job_for-jobs id now sid uid p = ground arith

-- A cancellation of a job that a worker runs does not last: the worker still owns the job, and when
-- it ends the job, its own status takes the place of `cancelled`.
pub cancelled_overwritten :
    (now later : ℕ) (sid uid : Option String) (job : WorkerJob) (out : RunSandboxResult)
    (hb : HeartbeatStats) (p : Plane) (fresh : WorkerJob)
    → get job.id p.jobs ≡ some fresh
    → is_running fresh.status ≡ true
    → is_owner (worker_of job) fresh.lease_owner ≡ true
    → let q = (cancel_job_for job.id now sid uid p).0 in
      (Option.map WorkerJob.status (get job.id q.jobs) ≡ some cancelled)
      × ((p' : Plane) × (finish_job true later job out hb q ≡ some p')
          × (Option.map WorkerJob.status (get job.id p'.jobs) ≡ some (final_status out hb)))
unfolding cancel_job_for
cancelled_overwritten now later sid uid job out hb p fresh stored runs mine =
    let q = (cancel_job_for job.id now sid uid p).0 in
    let here : get job.id q.jobs ≡ some (cancel_job now fresh) =
      ap (get job.id) (cancel_job_for-jobs job.id now sid uid p)
      ∙ get-cancel job.id now p.jobs job.id
      ∙ rw (eq_refl, stored, runs) (ground (arith, runs)) in
    let (p', e, there, others, keeps) =
      finish_job_writes later job out hb q (cancel_job now fresh) here
        (unfold cancel_job in mine) in
    (rw here (unfold cancel_job in refl), (p', e, rw there (unfold patch_job final_patch in refl)))
