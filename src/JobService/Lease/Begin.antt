-- ===== src/JobService/Lease/Begin.antt =====
-- What the begin of a job writes.
use Prim.Native.String
use botchatgptclaude.Prelude.{
  ℕ, String, ◌≡◌, refl, false, none, some, ◌==◌, err, Bool-cases, Option-cases, inl, inr,
}
use botchatgptclaude.Table.{IsDistinct}
use botchatgptclaude.Job.{WorkerJob, UpdateWorkerJobStatusInput, is_test_patch}
use botchatgptclaude.Queue.{Jobs, job_key, get, set_status}
use botchatgptclaude.ControlPlane.{Plane}
use botchatgptclaude.Payload.{JobPayload, parse_job_payload}
use botchatgptclaude.JobService.{begin_job, rejected_patch}
use botchatgptclaude.JobService.Finish.{get-set_status}
use botchatgptclaude.JobService.Lease.{begun_plane}

-- With a payload that parses, the queue stays as it is.
pub begin_job_runs :
    (message : String) (now : ℕ) (job : WorkerJob) (p : Plane) (payload : JobPayload)
    → parse_job_payload job.job_type job.payload ≡ some payload
    → (begun_plane p (begin_job message now job p)).jobs ≡ p.jobs
unfolding begin_job
begin_job_runs message now job p payload parsed =
    rw parsed (elim (Bool-cases (is_test_patch job.job_type)) [
      | inl patch ↦ rw patch refl
      | inr branch ↦ rw branch refl
    ])

set_status_missing :
    (id : String) (u : UpdateWorkerJobStatusInput) (now : ℕ) (jobs : Jobs)
    → get id jobs ≡ none
    → (m : String) × (set_status id u now jobs ≡ err m)
unfolding set_status
set_status_missing id u now jobs missing =
    (String.◌++◌ "Worker job " (String.◌++◌ id " not found"), rw missing refl)

-- With another payload, every other job stays as it is.
pub begin_job_rejects :
    (message : String) (now : ℕ) (job : WorkerJob) (p : Plane) (k : String)
    → parse_job_payload job.job_type job.payload ≡ none
    → (job.id == k) ≡ false
    → (get k (begun_plane p (begin_job message now job p)).jobs ≡ get k p.jobs)
      × (IsDistinct job_key p.jobs
          → IsDistinct job_key (begun_plane p (begin_job message now job p)).jobs)
unfolding begin_job
begin_job_rejects message now job p k broken apart = elim (Option-cases (get job.id p.jobs)) [
  | inl missing ↦
      let (m, threw) = set_status_missing job.id (rejected_patch message now) now p.jobs missing in
      rw (broken, threw) (refl, λ d. d)
  | inr (fresh, there) ↦
      let (jobs, written, here, others, keeps) =
        get-set_status job.id (rejected_patch message now) now p.jobs there in
      rw (broken, written) (others k apart, keeps)
]
