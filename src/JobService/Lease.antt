-- ===== src/JobService/Lease.antt =====
-- A lease among the other processes: what the operations of `InMemoryJobQueue` and the two steps of
-- `processClaimedJob` that write a job may do while one worker runs a job. `act` is one call; `acts`
-- is any interleaving of these calls, in the order in which the store serves them.
pub mod Begin
pub mod Calls
use mathlib.Core.Option.{some_inj}
use botchatgptclaude.Prelude.{
  ℕ, ◌+◌, ◌*◌, ◌≤◌, String, ◌≡◌, refl, ap, Bool, true, false, not, ◌&&◌, Option, none, some, get_or,
  List, [], ◌∷◌, arith, ◌==◌, eq_iff, eq_refl, All, if◌then◌else◌, Bool-cases, Option-cases, inl,
  inr, ◌∙◌, sym,
}
use botchatgptclaude.Table.{find, IsFresh, IsDistinct, find-key, at_find}
use botchatgptclaude.Job.{WorkerJob, CreateWorkerJobInput, is_running, is_queued}
use botchatgptclaude.Queue.{
  Jobs, job_key, get, enqueue, claim_next, renew_lease, renew, cancel, is_owner, is_candidate,
  lease,
}
use botchatgptclaude.Queue.Grant.{claim_next-frame, claim_next-IsDistinct}
use botchatgptclaude.Queue.Cells.{
  get-enqueue, get-renew_lease, get-cancel, cancel-IsDistinct, renew_lease-IsDistinct,
  enqueue-IsDistinct,
}
use botchatgptclaude.Heartbeat.{HeartbeatStats}
use botchatgptclaude.Sandbox.{RunSandboxResult}
use botchatgptclaude.ControlPlane.{Plane}
use botchatgptclaude.Payload.{JobPayload, parse_job_payload}
use botchatgptclaude.JobService.{Begun, begin_job, owns, worker_of, finish_job}
use botchatgptclaude.JobService.Finish.{finish_job_lost, finish_job_owned}

pub data Act : Type 0 where
  create : String → ℕ → CreateWorkerJobInput → Act
  claim : String → ℕ → Option ℕ → Act
  extend : String → String → ℕ → ℕ → Act
  stop : String → ℕ → Act
  begin : String → ℕ → WorkerJob → Act
  finish : Bool → ℕ → WorkerJob → RunSandboxResult → HeartbeatStats → Act

-- A queue that throws leaves the state as it was.
abbrev pub begun_plane : Plane → Option (Plane × Begun) → Plane
begun_plane p none = p
begun_plane p (some (p', b)) = p'

-- The state after a call, and the job that it grants to a worker.
abbrev pub act : Act → Plane → Plane × Option WorkerJob
act (create id now input) p = (record p { jobs = (enqueue id now input p.jobs).0 }, none)
act (claim worker now ms) p =
    (record p { jobs = (claim_next worker now ms p.jobs).0 }, (claim_next worker now ms p.jobs).1)
act (extend id worker secs now) p =
    (record p { jobs = (renew_lease id worker secs now p.jobs).0 }, none)
act (stop id now) p = (record p { jobs = (cancel id now p.jobs).0 }, none)
act (begin message now job) p = (begun_plane p (begin_job message now job p), none)
act (finish reachable now job out hb) p = (get_or (finish_job reachable now job out hb p) p, none)

abbrev pub acts : List Act → Plane → Plane
acts [] p = p
acts (a ∷ as') p = acts as' (act a p).0

abbrev pub GrantsOther : String → Option WorkerJob → Type 0
GrantsOther k none = Unit
GrantsOther k (some g) = (g.id == k) ≡ false

-- No call of the list grants the job `k`.
abbrev pub NeverGrants : String → List Act → Plane → Type 0
NeverGrants k [] p = Unit
NeverGrants k (a ∷ as') p = GrantsOther k (act a p).1 × NeverGrants k as' (act a p).0

-- The worker `w` runs the job `k`, and its lease lasts until `t` or longer.
pub record Holds (k w : String) (t : ℕ) (jobs : Jobs) : Type 0 where
  pub distinct : IsDistinct job_key jobs
  pub job : WorkerJob
  pub until : ℕ
  pub stored : get k jobs ≡ some job
  pub running : is_running job.status ≡ true
  pub owner : job.lease_owner ≡ some w
  pub expires : job.lease_expires_at ≡ some until
  pub lasts : t ≤ until

-- What the calls must respect: a new id is fresh, a claim comes no later than `t`, a renewal of `k`
-- does not shorten its lease to before `t`, nobody cancels `k` or ends it in the name of `w`, and
-- nobody begins `k` with a payload that does not parse: that write is not guarded by the owner.
abbrev pub Spares : String → String → ℕ → Act → Plane → Type 0
Spares k w t (create id now input) p = IsFresh job_key id p.jobs
Spares k w t (claim worker now ms) p = now ≤ t
Spares k w t (extend id worker secs now) p = (id == k) ≡ true → t ≤ now + secs * 1000
Spares k w t (stop id now) p = (id == k) ≡ false
Spares k w t (begin message now job) p =
    (job.id == k) ≡ true
    → (payload : JobPayload) × (parse_job_payload job.job_type job.payload ≡ some payload)
Spares k w t (finish reachable now job out hb) p =
    (job.id == k) ≡ true → (w == worker_of job) ≡ false

abbrev pub AllSpare : String → String → ℕ → List Act → Plane → Type 0
AllSpare k w t [] p = Unit
AllSpare k w t (a ∷ as') p = Spares k w t a p × AllSpare k w t as' (act a p).0
