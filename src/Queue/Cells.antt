-- ===== src/Queue/Cells.antt =====
-- The queue's writes, seen from every key.
use mathlib.Core.Option
use botchatgptclaude.Prelude.{
  ℕ, String, ◌≡◌, refl, Bool, not, ◌||◌, Option, none, some, arith, ◌==◌, eq_iff, if◌then◌else◌,
  Bool-cases, inl, inr,
}
use botchatgptclaude.Table.{
  find, find-update, find-key, find-append, IsFresh, IsDistinct, update-IsDistinct,
  append-IsDistinct,
}
use botchatgptclaude.Job.{WorkerJob, CreateWorkerJobInput, is_queued, is_running}
use botchatgptclaude.Queue.{
  Jobs, job_key, get, new_job, enqueue, renew, renew_found, renew_lease, is_owner, cancel_job,
  cancel_found, cancel,
}

abbrev pub is_active : WorkerJob → Bool
is_active j = is_queued j.status || is_running j.status

cancel_job-key : (now : ℕ) (x : WorkerJob) → job_key (cancel_job now x) ≡ job_key x
unfolding cancel_job
cancel_job-key now x = refl

renew-key : (now secs : ℕ) (x : WorkerJob) → job_key (renew now secs x) ≡ job_key x
unfolding renew
renew-key now secs x = refl

abbrev cancelled_cell : ℕ → WorkerJob → WorkerJob
cancelled_cell now j = if is_active j then cancel_job now j else j

cancel_found-cell :
    (id : String) (now : ℕ) (jobs : Jobs) (k : String) (o : Option WorkerJob)
    → find job_key id jobs ≡ o
    → find job_key k (cancel_found now jobs o).0 ≡ (
        if id == k
        then Option.map (cancelled_cell now) (find job_key k jobs)
        else find job_key k jobs)
cancel_found-cell id now jobs k none e = elim (Bool-cases (id == k)) [
  | inl same ↦ let e' : find job_key k jobs ≡ none = cc (e, (eq_iff id k).0 same) in rw (same, e')
  | inr apart ↦ rw apart
]
cancel_found-cell id now jobs k (some j) e =
    let own : j.id ≡ id = find-key job_key id jobs j e in
    let law = find-update job_key j.id (cancel_job now) (cancel_job-key now) k jobs in
    elim (Bool-cases (id == k)) [
      | inl same ↦
          let e' : find job_key k jobs ≡ some j = cc (e, (eq_iff id k).0 same) in
          rw (same, e') (ground (arith, law, eq_iff j.id k, e', own, (eq_iff id k).0 same))
      | inr apart ↦ rw apart (ground (arith, law, eq_iff j.id k, eq_iff id k, own))
    ]

-- A cancellation changes the record of its key alone, and that only while it is queued or running.
pub get-cancel :
    (id : String) (now : ℕ) (jobs : Jobs) (k : String)
    → get k (cancel id now jobs).0
      ≡ (if id == k then Option.map (cancelled_cell now) (get k jobs) else get k jobs)
unfolding cancel get
get-cancel id now jobs k = cancel_found-cell id now jobs k (find job_key id jobs) refl

abbrev renewed_cell : String → ℕ → ℕ → WorkerJob → WorkerJob
renewed_cell worker now secs j =
    if not (is_running j.status) || not (is_owner worker j.lease_owner) then j else renew now secs j

renew_found-cell :
    (id worker : String) (secs now : ℕ) (jobs : Jobs) (k : String) (o : Option WorkerJob)
    → find job_key id jobs ≡ o
    → find job_key k (renew_found worker now secs jobs o).0 ≡ (
        if id == k
        then Option.map (renewed_cell worker now secs) (find job_key k jobs)
        else find job_key k jobs)
renew_found-cell id worker secs now jobs k none e = elim (Bool-cases (id == k)) [
  | inl same ↦ let e' : find job_key k jobs ≡ none = cc (e, (eq_iff id k).0 same) in rw (same, e')
  | inr apart ↦ rw apart
]
renew_found-cell id worker secs now jobs k (some j) e =
    let own : j.id ≡ id = find-key job_key id jobs j e in
    let law = find-update job_key j.id (renew now secs) (renew-key now secs) k jobs in
    elim (Bool-cases (id == k)) [
      | inl same ↦
          let e' : find job_key k jobs ≡ some j = cc (e, (eq_iff id k).0 same) in
          rw (same, e') (ground (arith, law, eq_iff j.id k, e', own, (eq_iff id k).0 same))
      | inr apart ↦ rw apart (ground (arith, law, eq_iff j.id k, eq_iff id k, own))
    ]

-- A renewal changes the record of its key alone, and that only while the worker runs it.
pub get-renew_lease :
    (id worker : String) (secs now : ℕ) (jobs : Jobs) (k : String)
    → get k (renew_lease id worker secs now jobs).0
      ≡ (if id == k then Option.map (renewed_cell worker now secs) (get k jobs) else get k jobs)
unfolding renew_lease get
get-renew_lease id worker secs now jobs k =
    renew_found-cell id worker secs now jobs k (find job_key id jobs) refl

pub get-enqueue :
    (id : String) (now : ℕ) (input : CreateWorkerJobInput) (jobs : Jobs) (k : String)
    → IsFresh job_key id jobs
    → get k (enqueue id now input jobs).0
      ≡ (if id == k then some (new_job id now input) else get k jobs)
unfolding enqueue get
get-enqueue id now input jobs k fresh = find-append job_key k jobs (new_job id now input) fresh

cancel_found-IsDistinct :
    (now : ℕ) (jobs : Jobs) (o : Option WorkerJob)
    → IsDistinct job_key jobs
    → IsDistinct job_key (cancel_found now jobs o).0
cancel_found-IsDistinct now jobs none d = d
cancel_found-IsDistinct now jobs (some j) d =
    ground (arith, update-IsDistinct job_key j.id (cancel_job now) (cancel_job-key now) jobs d)

pub cancel-IsDistinct :
    (id : String) (now : ℕ) (jobs : Jobs)
    → IsDistinct job_key jobs
    → IsDistinct job_key (cancel id now jobs).0
unfolding cancel
cancel-IsDistinct id now jobs d = cancel_found-IsDistinct now jobs (get id jobs) d

renew_found-IsDistinct :
    (worker : String) (now secs : ℕ) (jobs : Jobs) (o : Option WorkerJob)
    → IsDistinct job_key jobs
    → IsDistinct job_key (renew_found worker now secs jobs o).0
renew_found-IsDistinct worker now secs jobs none d = d
renew_found-IsDistinct worker now secs jobs (some j) d =
    ground (arith, update-IsDistinct job_key j.id (renew now secs) (renew-key now secs) jobs d)

pub renew_lease-IsDistinct :
    (id worker : String) (secs now : ℕ) (jobs : Jobs)
    → IsDistinct job_key jobs
    → IsDistinct job_key (renew_lease id worker secs now jobs).0
unfolding renew_lease
renew_lease-IsDistinct id worker secs now jobs d =
    renew_found-IsDistinct worker now secs jobs (get id jobs) d

pub enqueue-IsDistinct :
    (id : String) (now : ℕ) (input : CreateWorkerJobInput) (jobs : Jobs)
    → IsFresh job_key id jobs
    → IsDistinct job_key jobs
    → IsDistinct job_key (enqueue id now input jobs).0
unfolding enqueue
enqueue-IsDistinct id now input jobs fresh d =
    append-IsDistinct job_key jobs (new_job id now input) fresh d
