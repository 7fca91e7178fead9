-- ===== src/Scenarios/Workers.antt =====
-- One sandbox job that passes, its payload, its commands, its heartbeat, and the settings.
use Prim.Native.String
use botchatgptclaude.Prelude.{
  ◌≤◌, ◌≡◌, ◌↔◌, refl, true, false, none, some, [], ◌∷◌, ok, err, ◌==◌, if◌then◌else◌, All, arith,
}
use botchatgptclaude.Text.{trim, trim_start, trim_end, space, is_empty, collapse_from}
use botchatgptclaude.Json.{Json, str, arr, obj, nil, cons, end, field, member, items}
use botchatgptclaude.Job.{test_branch, passed}
use botchatgptclaude.Command.{
  Host, validate_worker_command, resolve_executable, normalized, has_shell_control,
}
use botchatgptclaude.Command.Argv.{IsSafeArgv, allowed_argv}
use botchatgptclaude.Config.{
  Env, is_production_env, inline_commands_allowed, assert_worker_config, resolve_worker_provider,
  database, resolve_resume_batch_size, resolve_resume_lock_ttl_seconds,
}
use botchatgptclaude.Config.Safety.{assert_worker_config_iff, resume_limits}
use botchatgptclaude.Payload.{
  parse_job_payload, parse_command, parse_commands, command_list, parse_repo_ref, parse_test_branch,
  JobPayload,
}
use botchatgptclaude.Payload.Accepted.{
  IsAccepted, parse_job_payload-IsAccepted, listed_passes_runner,
}
use botchatgptclaude.Sandbox.{
  Outside, RunSandboxInput, run_sandbox_job, run_loop, commands_step, patch_step, after_command,
  finish,
}
use botchatgptclaude.Sandbox.Verdict.{
  Passed, run_sandbox_job_passed, run_sandbox_job-AllSafe, run_sandbox_job-cleaned,
}
use botchatgptclaude.Heartbeat.{Answers, new_heartbeat, ticks, lease_renewal_failed}
use botchatgptclaude.Heartbeat.FailClosed.{failed_ticks_abort}

abbrev no_env : Env
no_env name = none

abbrev input : RunSandboxInput
input = record {
  job_type = test_branch;
  commands = "npm  test" ∷ [];
  patch_set_id = none;
  apply_patch = true;
}

abbrev host : Host
host = record {
  is_windows = true;
  exec_path = "C:\\node.exe";
  cli_path = λ cli. String.◌++◌ "C:\\npm\\" cli;
}

abbrev world : Outside
world = record {
  cancelled_at = λ n. ok false;
  prepare = ok "/tmp/w";
  apply_patch = none;
  run_command = λ n c. ok (record {
    command = c;
    allowed = true;
    exit_code = some 0;
    stdout = "";
    stderr = "";
    timed_out = false;
    truncated = false;
    duration_ms = 7;
    aborted = false;
  });
  keep_workspace = false;
  env = no_env;
}

input_passes : (run_sandbox_job input world).status ≡ passed
unfolding run_sandbox_job run_loop commands_step patch_step after_command finish
    validate_worker_command normalized has_shell_control trim trim_start trim_end space is_empty
    collapse_from
input_passes = refl

run_sandbox_job_passed_example : Passed input world (run_sandbox_job input world)
run_sandbox_job_passed_example = run_sandbox_job_passed input world input_passes

run_sandbox_job-AllSafe_example :
    All (λ c. IsSafeArgv host (resolve_executable host c)) (run_sandbox_job input world).started
run_sandbox_job-AllSafe_example = run_sandbox_job-AllSafe input world host

run_sandbox_job-cleaned_example : (run_sandbox_job input world).cleaned ≡ some "/tmp/w"
run_sandbox_job-cleaned_example = run_sandbox_job-cleaned input world "/tmp/w" refl refl

spaced_allowed : (validate_worker_command " npm  test").allowed ≡ true
unfolding validate_worker_command normalized has_shell_control trim trim_start trim_end space
    is_empty collapse_from
spaced_allowed = refl

allowed_argv_example : IsSafeArgv host (resolve_executable host " npm  test")
allowed_argv_example = allowed_argv host " npm  test" spaced_allowed

abbrev raw : Json
raw = obj (
    field "repo" (obj (field "clone_url" (str "u") (field "branch" (str "main") end)))
      (field "commands" (arr (cons (str " npm test") nil)) end))

abbrev payload : JobPayload
payload = record {
  repo = record { clone_url = "u"; branch = "main"; commit_sha = none };
  patch_set_id = none;
  apply_patch = true;
  commands = " npm test" ∷ [];
}

raw_parsed : parse_job_payload test_branch raw ≡ some payload
unfolding parse_job_payload parse_test_branch parse_repo_ref command_list parse_commands
    parse_command member items trim trim_start trim_end space is_empty
raw_parsed = refl

parse_job_payload-IsAccepted_example : IsAccepted test_branch payload
parse_job_payload-IsAccepted_example =
    parse_job_payload-IsAccepted test_branch raw payload raw_parsed

listed_passes_runner_example : (validate_worker_command " npm test").allowed ≡ true
listed_passes_runner_example =
    listed_passes_runner " npm test" (unfold trim trim_start trim_end space is_empty in refl)
      (unfold has_shell_control in refl)

abbrev failing : Answers
failing = record { renewal = err "timeout"; status = none; first_log = true; second_log = true }

failed_ticks_abort_example :
    ((ticks 2 (failing ∷ failing ∷ []) new_heartbeat).aborted ≡ true)
    × ((ticks 2 (failing ∷ failing ∷ []) new_heartbeat).stats.reason ≡ some lease_renewal_failed)
failed_ticks_abort_example =
    failed_ticks_abort 2 (failing ∷ failing ∷ []) new_heartbeat (unfold new_heartbeat in refl)
      (("timeout", refl, refl), (("timeout", refl, refl), tt)) (omega arith)
      (unfold new_heartbeat in omega arith)

abbrev live : Env
live name = if name == "NODE_ENV" then some "production" else none

assert_worker_config_iff_example : (assert_worker_config live ≡ ok tt) ↔ (
    (resolve_worker_provider (live "AI_ORCHESTRATOR_WORKER_PROVIDER") ≡ ok database)
    × (inline_commands_allowed live ≡ false))
assert_worker_config_iff_example = assert_worker_config_iff live (unfold is_production_env in refl)

resume_limits_example :
    (1 ≤ resolve_resume_batch_size live)
    × (resolve_resume_batch_size live ≤ 50)
    × (10 ≤ resolve_resume_lock_ttl_seconds live)
    × (resolve_resume_lock_ttl_seconds live ≤ 900)
resume_limits_example = resume_limits live
