-- ===== src/Orchestration.antt =====
-- The orchestration runs of lib/ai-orchestrator/db/repository.ts, with the resume lock of the cron
-- resumer, and the session update; and `orchestration-state.ts`. A row is found by its id; each
-- SQL UPDATE is one step.
pub mod Steps
pub mod Lock
pub mod Cells
use Prim.Native.String
use botchatgptclaude.Prelude.{
  ℕ, ◌+◌, ◌*◌, ltb, String, Bool, true, false, not, ◌&&◌, ◌||◌, Option, none, some, get_or, List,
  [], ◌∷◌, ◌++◌, ◌==◌, if◌then◌else◌, filter, take, map, Result, ok, err,
}
use botchatgptclaude.Table
use botchatgptclaude.Session.{not_found}
use botchatgptclaude.Table.{sort}
use botchatgptclaude.Agent.{StepName}
use botchatgptclaude.Audit
use botchatgptclaude.Audit.{AuditEventType}
use botchatgptclaude.Text.{slice}
use botchatgptclaude.Store.{
  SessionRecord, SessionStatus, Approval, OrchestrationState, OrchestrationRun,
  OrchestrationRunStatus, queued, running, waiting_for_worker, passed, failed, needs_revision,
  cancelled, Store, Action, modify, modify, read, return, throw, ◌>>=◌, ◌>>◌,
}
use botchatgptclaude.Store

abbrev pub run_key : OrchestrationRun → String
run_key r = r.id

abbrev pub Runs : Type 0
Runs = List OrchestrationRun

-- The set `TERMINAL_ORCH`, which is also `TERMINAL_ORCH_STATUSES`.
abbrev pub is_terminal : OrchestrationRunStatus → Bool
is_terminal passed = true
is_terminal failed = true
is_terminal needs_revision = true
is_terminal cancelled = true
is_terminal _ = false

abbrev pub is_waiting : OrchestrationRunStatus → Bool
is_waiting waiting_for_worker = true
is_waiting _ = false

unfoldable pub get_run : String → Runs → Option OrchestrationRun
get_run id runs = Table.find run_key id runs

pub record CreateArgs : Type 0 where
  pub session_id : String
  pub user_id : Option String
  pub status : Option OrchestrationRunStatus
  pub current_round : Option ℕ
  pub max_rounds : Option ℕ
  pub current_step : Option StepName
  pub state : OrchestrationState

unfoldable pub new_run : String → ℕ → CreateArgs → OrchestrationRun
new_run id now args = record {
  id = id;
  session_id = args.session_id;
  user_id = args.user_id;
  status = get_or args.status queued;
  current_round = get_or args.current_round 1;
  max_rounds = get_or args.max_rounds 3;
  current_step = args.current_step;
  pending_worker_job_id = none;
  last_error = none;
  state = args.state;
  created_at = now;
  updated_at = now;
  finished_at = none;
  resume_lock_owner = none;
  resume_lock_expires_at = none;
  resume_attempts = 0;
  last_resume_attempt_at = none;
}

unfoldable pub create_run : String → ℕ → CreateArgs → Action OrchestrationRun
unfolding new_run
create_run id now args s =
    (record s { runs = s.runs ++ new_run id now args ∷ [] }, ok (new_run id now args))

-- `Partial<Pick<…>>`: the outer `none` is an absent field, an inner one `null`.
pub record RunPatch : Type 0 where
  pub status : Option OrchestrationRunStatus
  pub current_round : Option ℕ
  pub current_step : Option (Option StepName)
  pub pending_worker_job_id : Option (Option String)
  pub last_error : Option (Option String)
  pub state : Option OrchestrationState
  pub finished_at : Option (Option ℕ)

abbrev pub no_patch : RunPatch
no_patch = record {
  status = none;
  current_round = none;
  current_step = none;
  pending_worker_job_id = none;
  last_error = none;
  state = none;
  finished_at = none;
}

-- `next.last_error ? redactSecrets(next.last_error) : null`
abbrev stored_error : (String → String) → Option String → Option String
stored_error redact none = none
stored_error redact (some m) = if m == "" then none else some (redact m)

unfoldable pub patch_run : (String → String) → RunPatch → ℕ → OrchestrationRun → OrchestrationRun
patch_run redact p now r = record r {
  status = get_or p.status r.status;
  current_round = get_or p.current_round r.current_round;
  current_step = get_or p.current_step r.current_step;
  pending_worker_job_id = get_or p.pending_worker_job_id r.pending_worker_job_id;
  last_error = stored_error redact (get_or p.last_error r.last_error);
  state = get_or p.state r.state;
  finished_at = get_or p.finished_at r.finished_at;
  updated_at = now;
}

abbrev update_found :
    (String → String) → String → RunPatch → ℕ → Option OrchestrationRun → Action Unit
update_found redact id p now none s = (s, err (not_found "Orchestration run " id))
update_found redact id p now (some r) s =
    (record s { runs = Table.update run_key id (patch_run redact p now) s.runs }, ok tt)

unfoldable pub update_run : (String → String) → String → RunPatch → ℕ → Action Unit
update_run redact id p now s = update_found redact id p now (get_run id s.runs) s

unfoldable pub cancel_run : ℕ → OrchestrationRun → OrchestrationRun
cancel_run now r = record r {
  status = cancelled;
  pending_worker_job_id = none;
  finished_at = some now;
  updated_at = now;
}

abbrev cancel_found : String → ℕ → Runs → Option OrchestrationRun → Runs × Bool
cancel_found id now runs none = (runs, false)
cancel_found id now runs (some r) =
    if is_terminal r.status
    then (runs, false)
    else (Table.update run_key id (cancel_run now) runs, true)

unfoldable pub cancel_orchestration_run : String → ℕ → Runs → Runs × Bool
cancel_orchestration_run id now runs = cancel_found id now runs (get_run id runs)

-- `ORDER BY created_at ASC LIMIT ?`
unfoldable pub list_waiting : ℕ → Runs → Runs
list_waiting limit runs =
    take limit
      (sort (λ a b. not (ltb b.created_at a.created_at)) (filter (λ r. is_waiting r.status) runs))

abbrev lapsed : ℕ → Option ℕ → Bool
lapsed now none = true
lapsed now (some t) = ltb t now

abbrev is_null : Option String → Bool
is_null none = true
is_null (some o) = false

-- The WHERE clause of the lock's UPDATE, less the id.
unfoldable pub is_lockable : ℕ → OrchestrationRun → Bool
is_lockable now r =
    is_waiting r.status && (is_null r.resume_lock_owner || lapsed now r.resume_lock_expires_at)

-- `Math.max(1, Math.floor(ttlSeconds))`
abbrev at_least_one : ℕ → ℕ
at_least_one n = if ltb n 1 then 1 else n

unfoldable pub lock_run : String → ℕ → ℕ → OrchestrationRun → OrchestrationRun
lock_run owner ttl_seconds now r = record r {
  resume_lock_owner = some owner;
  resume_lock_expires_at = some (now + at_least_one ttl_seconds * 1000);
  last_resume_attempt_at = some now;
  updated_at = now;
}

abbrev pub where_run :
    (OrchestrationRun → Bool)
    → (OrchestrationRun → OrchestrationRun)
    → OrchestrationRun
    → OrchestrationRun
where_run test f r = if test r then f r else r

-- `!res.changes ? null : getOrchestrationRun(runId)`
abbrev pub locked_row :
    ℕ → Option OrchestrationRun → Option OrchestrationRun → Option OrchestrationRun
locked_row now none after = none
locked_row now (some r) after = if is_lockable now r then after else none

unfoldable pub claim_resume_lock : String → String → ℕ → ℕ → Runs → Runs × Option OrchestrationRun
claim_resume_lock id owner ttl_seconds now runs =
    let runs' =
      Table.update run_key id (where_run (is_lockable now) (lock_run owner ttl_seconds now)) runs in
    (runs', locked_row now (get_run id runs) (get_run id runs'))

abbrev pub owned_by : String → OrchestrationRun → Bool
owned_by owner r = elim r.resume_lock_owner [ none ↦ false | some o ↦ o == owner ]

unfoldable pub unlock_run : ℕ → OrchestrationRun → OrchestrationRun
unlock_run now r = record r {
  resume_lock_owner = none;
  resume_lock_expires_at = none;
  updated_at = now;
}

unfoldable pub release_resume_lock : String → String → ℕ → Runs → Runs
release_resume_lock id owner now runs =
    Table.update run_key id (where_run (owned_by owner) (unlock_run now)) runs

abbrev pub counted_run : ℕ → OrchestrationRun → OrchestrationRun
counted_run now r = record r { resume_attempts = r.resume_attempts + 1; updated_at = now }

unfoldable pub increment_resume_attempt : String → ℕ → Runs → Runs
increment_resume_attempt id now runs = Table.update run_key id (counted_run now) runs
