-- ===== src/Queue.antt =====
-- The job queue with leases: `InMemoryJobQueue` of lib/ai-orchestrator/worker/job-queue.ts.
-- `jobs` holds the values of the `Map` in insertion order; `now` is the clock's reading, and the id
-- that `randomUUID` draws is an argument.
pub mod Logs
pub mod Loop
pub mod Grant
pub mod Cells
use Prim.Native.String
use botchatgptclaude.Prelude.{
  ℕ, ◌+◌, ◌*◌, ltb, leb, eqb, String, Bool, true, false, not, ◌&&◌, ◌||◌, Option, none, some,
  get_or, List, [], ◌∷◌, ◌++◌, ◌==◌, if◌then◌else◌, filter, take, Result, ok, err,
}
use botchatgptclaude.Table.{sort, update}
use botchatgptclaude.Table
use botchatgptclaude.Job.{
  queued, running, failed, cancelled, is_queued, is_running, WorkerJob, CreateWorkerJobInput,
  UpdateWorkerJobStatusInput,
}

abbrev pub job_key : WorkerJob → String
job_key j = j.id

abbrev pub Jobs : Type 0
Jobs = List WorkerJob

-- The record that `enqueue` stores.
unfoldable pub new_job : String → ℕ → CreateWorkerJobInput → WorkerJob
new_job id now input = record {
  id = id;
  session_id = input.session_id;
  patch_set_id = input.patch_set_id;
  pull_request_id = input.pull_request_id;
  user_id = input.user_id;
  job_type = input.job_type;
  status = queued;
  priority = get_or input.priority 5;
  payload = input.payload;
  result = none;
  error_message = none;
  lease_owner = none;
  lease_expires_at = none;
  attempts = 0;
  max_attempts = get_or input.max_attempts 2;
  created_at = now;
  started_at = none;
  finished_at = none;
  updated_at = now;
}

unfoldable pub enqueue : String → ℕ → CreateWorkerJobInput → Jobs → Jobs × WorkerJob
unfolding new_job
enqueue id now input jobs = let job = new_job id now input in (jobs ++ job ∷ [], job)

unfoldable pub get : String → Jobs → Option WorkerJob
get id jobs = Table.find job_key id jobs

-- `b.created_at - a.created_at` is at most 0: the newer one stands first.
abbrev newer_first : WorkerJob → WorkerJob → Bool
newer_first a b = leb b.created_at a.created_at

abbrev of_session : String → Option String → Bool
of_session sid none = false
of_session sid (some s) = s == sid

unfoldable pub list_for_session : String → Option ℕ → Jobs → Jobs
list_for_session sid limit jobs =
    take (get_or limit 50) (sort newer_first (filter (λ j. of_session sid j.session_id) jobs))

-- `!j.lease_expires_at || Date.parse(j.lease_expires_at) < Date.parse(nowTs)`
abbrev pub lease_lapsed : ℕ → Option ℕ → Bool
lease_lapsed now none = true
lease_lapsed now (some t) = ltb t now

unfoldable pub is_candidate : ℕ → WorkerJob → Bool
is_candidate now j =
    is_queued j.status || (is_running j.status && lease_lapsed now j.lease_expires_at)

-- The comparator of `claimNext` is not positive.
unfoldable pub claim_order : WorkerJob → WorkerJob → Bool
claim_order a b =
    ltb a.priority b.priority || (eqb a.priority b.priority && leb a.created_at b.created_at)

unfoldable pub is_exhausted : WorkerJob → Bool
is_exhausted j = leb j.max_attempts j.attempts

unfoldable pub exhaust : ℕ → WorkerJob → WorkerJob
exhaust now j = record j {
  status = failed;
  error_message = some "max attempts exceeded";
  finished_at = some now;
  updated_at = now;
}

unfoldable pub lease : String → ℕ → ℕ → WorkerJob → WorkerJob
lease worker now lease_ms j = record j {
  status = running;
  lease_owner = some worker;
  lease_expires_at = some (now + lease_ms);
  attempts = j.attempts + 1;
  started_at = some (get_or j.started_at now);
  updated_at = now;
}

-- The `for` loop of `claimNext`. A candidate is the object that the map holds, so what is written
-- to it is written to the map.
unfoldable pub claim_loop : String → ℕ → ℕ → Jobs → Jobs → Jobs × Option WorkerJob
claim_loop worker now lease_ms [] jobs = (jobs, none)
claim_loop worker now lease_ms (j ∷ rest) jobs =
    let skip = claim_loop worker now lease_ms rest (update job_key j.id (exhaust now) jobs) in
    if is_exhausted j
    then skip
    else (update job_key j.id (lease worker now lease_ms) jobs, some (lease worker now lease_ms j))

unfoldable pub candidates : ℕ → Jobs → Jobs
candidates now jobs = sort claim_order (filter (is_candidate now) jobs)

unfoldable pub claim_next : String → ℕ → Option ℕ → Jobs → Jobs × Option WorkerJob
unfolding claim_loop candidates
claim_next worker now lease_ms jobs =
    claim_loop worker now (get_or lease_ms 300000) (candidates now jobs) jobs

abbrev pub is_owner : String → Option String → Bool
is_owner worker none = false
is_owner worker (some w) = w == worker

unfoldable pub renew : ℕ → ℕ → WorkerJob → WorkerJob
renew now lease_seconds j = record j {
  lease_expires_at = some (now + lease_seconds * 1000);
  updated_at = now;
}

abbrev renew_found : String → ℕ → ℕ → Jobs → Option WorkerJob → Jobs × Option WorkerJob
renew_found worker now secs jobs none = (jobs, none)
renew_found worker now secs jobs (some j) =
    if not (is_running j.status) || not (is_owner worker j.lease_owner)
    then (jobs, none)
    else (update job_key j.id (renew now secs) jobs, some (renew now secs j))

unfoldable pub renew_lease : String → String → ℕ → ℕ → Jobs → Jobs × Option WorkerJob
unfolding get renew
renew_lease id worker lease_seconds now jobs =
    renew_found worker now lease_seconds jobs (get id jobs)

unfoldable pub patch_job : UpdateWorkerJobStatusInput → ℕ → WorkerJob → WorkerJob
patch_job p now j = record j {
  status = get_or p.status j.status;
  result = get_or p.result j.result;
  error_message = get_or p.error_message j.error_message;
  lease_owner = get_or p.lease_owner j.lease_owner;
  lease_expires_at = get_or p.lease_expires_at j.lease_expires_at;
  attempts = get_or p.attempts j.attempts;
  started_at = get_or p.started_at j.started_at;
  finished_at = get_or p.finished_at j.finished_at;
  updated_at = now;
}

abbrev set_found : UpdateWorkerJobStatusInput → String → ℕ → Jobs → Option WorkerJob → Result Jobs
set_found p id now jobs none = err (String.◌++◌ "Worker job " (String.◌++◌ id " not found"))
set_found p id now jobs (some j) = ok (update job_key id (patch_job p now) jobs)

unfoldable pub set_status : String → UpdateWorkerJobStatusInput → ℕ → Jobs → Result Jobs
unfolding get patch_job
set_status id p now jobs = set_found p id now jobs (get id jobs)

unfoldable pub cancel_job : ℕ → WorkerJob → WorkerJob
cancel_job now j = record j { status = cancelled; finished_at = some now; updated_at = now }

abbrev cancel_found : ℕ → Jobs → Option WorkerJob → Jobs × Bool
cancel_found now jobs none = (jobs, false)
cancel_found now jobs (some j) =
    if not (is_queued j.status) && not (is_running j.status)
    then (jobs, false)
    else (update job_key j.id (cancel_job now) jobs, true)

unfoldable pub cancel : String → ℕ → Jobs → Jobs × Bool
unfolding get cancel_job
cancel id now jobs = cancel_found now jobs (get id jobs)
