-- ===== src/Sandbox.antt =====
-- `runSandboxJob` of lib/ai-orchestrator/worker/sandbox-runner.ts. The outside world answers
-- through `Outside`: the answers to the successive questions whether the job is cancelled, the
-- preparation of the workspace, the patch applier, and the successive command runs; each of them
-- may throw. Log lines are taken to be written.
pub mod Rounds
pub mod Frames
pub mod Verdict
use Prim.Native.String
use botchatgptclaude.Prelude.{
  ℕ, suc, String, eqb, Bool, true, false, not, ◌||◌, Option, none, some, List, [], ◌∷◌, ◌++◌, ◌==◌,
  if◌then◌else◌, Result, ok, err, length, filter, first,
}
use botchatgptclaude.Text.{show}
use botchatgptclaude.Job.{
  JobType, JobStatus, passed, failed, cancelled, timed_out, is_passed, is_test_patch,
  CommandOutcome, ApplyError, JobResult,
}
use botchatgptclaude.Command.{CommandRunResult, validate_worker_command}
use botchatgptclaude.Config.{Env, is_production_env}

pub record ApplyPatchResult : Type 0 where
  pub patch_applied : Bool
  pub changed_files : List String
  pub diff_summary : String
  pub base_hash_checked : Bool
  pub errors : List ApplyError

pub record RunSandboxInput : Type 0 where
  pub job_type : JobType
  pub commands : List String
  pub patch_set_id : Option String
  pub apply_patch : Bool

pub record Outside : Type 0 where
  -- the n-th call of `cancelled()`
  pub cancelled_at : ℕ → Result Bool
  pub prepare : Result String
  -- `none` when no applier is configured
  pub apply_patch : Option (String → Result ApplyPatchResult)
  -- the n-th command that is started
  pub run_command : ℕ → String → Result CommandRunResult
  pub keep_workspace : Bool
  pub env : Env

-- The local variables of the function, with the commands that were started.
pub record Progress : Type 0 where
  pub status : JobStatus
  pub outcomes : List CommandOutcome
  pub workspace_dir : Option String
  pub cancelled_by_signal : Bool
  pub applied : Option ApplyPatchResult
  pub started : List String

pub record RunSandboxResult : Type 0 where
  pub status : JobStatus
  pub result : JobResult
  -- what happened outside: the commands started, and the directory that `cleanup` was given
  pub started : List String
  pub cleaned : Option String

unfoldable pub outcome_of : String → CommandRunResult → CommandOutcome
outcome_of command res = record {
  command = command;
  exit_code = res.exit_code;
  duration_ms = res.duration_ms;
  timed_out = res.timed_out;
  truncated = res.truncated;
}

abbrev blocked_outcome : String → CommandOutcome
blocked_outcome command = record {
  command = command;
  exit_code = none;
  duration_ms = 0;
  timed_out = false;
  truncated = false;
}

-- `(code ?? 1) === 0`
abbrev pub exit_zero : Option ℕ → Bool
exit_zero none = false
exit_zero (some c) = eqb c 0

-- The status after one command, and whether the loop goes on.
unfoldable pub after_command : CommandRunResult → JobStatus × Bool
after_command res =
    if res.aborted
    then (cancelled, false)
    else if res.timed_out
    then (timed_out, false)
    else if not res.allowed || not (exit_zero res.exit_code)
    then (failed, false)
    else (passed, true)

module _ (world : Outside) where
  -- A throw lands in the `catch` block: the status is `failed`, the rest stays as it was.
  thrown : Progress → Progress
  thrown p = record p { status = failed }

  abbrev ran : (Progress → Progress) → String → Progress → Result CommandRunResult → Progress
  ran rest command p (err m) = record p { status = failed; started = p.started ++ command ∷ [] }
  ran rest command p (ok res) =
      let (status, goes_on) = after_command res in
      let q = record p {
        status = status;
        outcomes = p.outcomes ++ outcome_of command res ∷ [];
        cancelled_by_signal = p.cancelled_by_signal || res.aborted;
        started = p.started ++ command ∷ [];
      } in
      if goes_on then rest q else q

  abbrev checked : (Progress → Progress) → ℕ → String → Progress → Result Bool → Progress
  checked rest n command p (err m) = thrown p
  checked rest n command p (ok true) = record p { status = cancelled }
  checked rest n command p (ok false) =
      if not (validate_worker_command command).allowed
      then record p { status = failed; outcomes = p.outcomes ++ blocked_outcome command ∷ [] }
      else ran rest command p (world.run_command n command)

  -- The `for` loop; the first question was asked before the workspace, so the n-th round asks
  -- question n + 1.
  unfoldable pub run_loop : ℕ → List String → Progress → Progress
  unfolding thrown
  run_loop n [] p = p
  run_loop n (command ∷ rest) p =
      checked (run_loop (suc n) rest) n command p (world.cancelled_at (suc n))

  abbrev applied_result : Progress → Result ApplyPatchResult → Progress
  applied_result p (err m) = record p { status = failed }
  applied_result p (ok ar) =
      let q = record p { applied = some ar } in
      if not ar.patch_applied then record q { status = failed } else q

  abbrev apply_with : Progress → String → Option (String → Result ApplyPatchResult) → Progress
  apply_with p psid none = record p { status = failed }
  apply_with p psid (some apply) = applied_result p (apply psid)

  -- `!input.patchSetId` holds of a missing and of an empty id.
  abbrev patch_by : RunSandboxInput → Progress → Option String → Progress
  patch_by input p none = record p { status = failed }
  patch_by input p (some psid) =
      if psid == ""
      then record p { status = failed }
      else if not input.apply_patch
      then (if is_production_env world.env then record p { status = failed } else p)
      else apply_with p psid world.apply_patch

  -- The patch step of a `test_patch` job.
  unfoldable pub patch_step : RunSandboxInput → Progress → Progress
  patch_step input p =
      if is_test_patch input.job_type then patch_by input p input.patch_set_id else p

  unfoldable pub commands_step : RunSandboxInput → Progress → Progress
  commands_step input p = if is_passed p.status then run_loop 0 input.commands p else p

abbrev pub start_progress : Progress
start_progress = record {
  status = passed;
  outcomes = [];
  workspace_dir = none;
  cancelled_by_signal = false;
  applied = none;
  started = [];
}

abbrev quoted : Option CommandOutcome → String
quoted none = "\"?\""
quoted (some o) = String.◌++◌ "\"" (String.◌++◌ o.command "\"")

abbrev summary_of : JobStatus → String → Option CommandOutcome → String
summary_of passed base bad = String.◌++◌ base " — all green"
summary_of cancelled base bad = String.◌++◌ base " — cancelled"
summary_of timed_out base bad = String.◌++◌ base (String.◌++◌ " — timed out on " (quoted bad))
summary_of _ base bad = String.◌++◌ base (String.◌++◌ " — failed on " (quoted bad))

unfoldable pub build_summary : JobStatus → List CommandOutcome → String
build_summary status outcomes =
    summary_of status
      (String.◌++◌ (show (length (filter (λ o. exit_zero o.exit_code) outcomes)))
        (String.◌++◌ "/" (String.◌++◌ (show (length outcomes)) " command(s) passed")))
      (first (λ o. o.timed_out || not (exit_zero o.exit_code)) outcomes)

abbrev errors_of : Option ApplyPatchResult → Option (List ApplyError)
errors_of none = none
errors_of (some ar) = elim ar.errors [ [] ↦ none | e ∷ es ↦ some ar.errors ]

-- The `finally` block and what follows it.
unfoldable pub finish : Outside → RunSandboxInput → Progress → RunSandboxResult
finish world input p =
    let patch = is_test_patch input.job_type in
    record {
      status = p.status;
      result = record {
        passed = is_passed p.status;
        commands = p.outcomes;
        summary = build_summary p.status p.outcomes;
        workspace_path = if world.keep_workspace then p.workspace_dir else none;
        patch_applied =
            if patch
            then some (elim p.applied [ none ↦ false | some ar ↦ ar.patch_applied ])
            else none;
        patch_set_id = if patch then input.patch_set_id else none;
        changed_files =
            if patch
            then some (elim p.applied [ none ↦ [] | some ar ↦ ar.changed_files ])
            else none;
        diff_summary =
            if patch then some (elim p.applied [ none ↦ "" | some ar ↦ ar.diff_summary ]) else none;
        base_hash_checked =
            if patch
            then some (elim p.applied [ none ↦ false | some ar ↦ ar.base_hash_checked ])
            else none;
        errors = if patch then errors_of p.applied else none;
        heartbeat_renewals = none;
        heartbeat_failures = none;
        lease_renewed = none;
        cancelled_by_signal = if p.cancelled_by_signal then some true else none;
      };
      started = p.started;
      cleaned = p.workspace_dir;
    }

cancelled_before_start : RunSandboxResult
cancelled_before_start = record {
  status = cancelled;
  result = record {
    passed = false;
    commands = [];
    summary = "cancelled before start";
    workspace_path = none;
    patch_applied = none;
    patch_set_id = none;
    changed_files = none;
    diff_summary = none;
    base_hash_checked = none;
    errors = none;
    heartbeat_renewals = none;
    heartbeat_failures = none;
    lease_renewed = none;
    cancelled_by_signal = none;
  };
  started = [];
  cleaned = none;
}

abbrev in_workspace : Outside → RunSandboxInput → Result String → RunSandboxResult
in_workspace world input (err m) = finish world input (record start_progress { status = failed })
in_workspace world input (ok dir) = finish world input (
    commands_step world input
      (patch_step world input (record start_progress { workspace_dir = some dir })))

abbrev unless_cancelled : Outside → RunSandboxInput → Result Bool → RunSandboxResult
unless_cancelled world input (err m) =
    finish world input (record start_progress { status = failed })
unless_cancelled world input (ok true) = cancelled_before_start
unless_cancelled world input (ok false) = in_workspace world input world.prepare

unfoldable pub run_sandbox_job : RunSandboxInput → Outside → RunSandboxResult
unfolding cancelled_before_start
run_sandbox_job input world = unless_cancelled world input (world.cancelled_at 0)
