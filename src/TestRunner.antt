-- ===== src/TestRunner.antt =====
-- Inline tests: `isCommandAllowed` of lib/ai-orchestrator/safety.ts, `runCommand` and `runTestSuite`
-- of test-runner.ts. `spawn` stands for `spawnSync` on the command's words, with its captured output.
pub mod Suite
use Prim.Native.Char.{code}
use Prim.Native.String
use botchatgptclaude.Prelude.{
  ℕ, eqb, String, Bool, true, false, not, ◌&&◌, ◌||◌, Option, none, some, get_or, List, [], ◌∷◌,
  ◌==◌, if◌then◌else◌, all, min,
}
use botchatgptclaude.Text.{contains, starts_with}
use botchatgptclaude.Command.{CommandCheck, includes, normalized}
use botchatgptclaude.Report.{CommandResult, TestReport}

abbrev pub command_allowlist : List String
command_allowlist = "npm run typecheck" ∷ "npm test" ∷ "npm run build" ∷ "git diff" ∷ []

-- The class `[;&|`$><]`.
abbrev is_control : ℕ → Bool
is_control c = eqb c 59 || eqb c 38 || eqb c 124 || eqb c 96 || eqb c 36 || eqb c 62 || eqb c 60

unfoldable pub has_control : String → Bool
has_control String.[] = false
has_control (String.◌∷◌ c s) = is_control (code c) || has_control s

-- `/--?(output|exec|ext-diff)/`
abbrev pub has_write_flag : String → Bool
has_write_flag cmd = contains "-output" cmd || contains "-exec" cmd || contains "-ext-diff" cmd

abbrev is_git_diff : String → Bool
is_git_diff cmd = (cmd == "git diff") || starts_with "git diff " cmd

abbrev check : Bool → String → CommandCheck
check allowed reason = record { allowed = allowed; reason = reason }

abbrev check_normalized : String → CommandCheck
check_normalized cmd =
    if has_control cmd
    then check false "Command contains shell control characters and is rejected."
    else if is_git_diff cmd
    then (if has_write_flag cmd
        then check false "git diff flag is not permitted."
        else check true "git diff (read-only).")
    else if includes command_allowlist cmd
    then check true "Command is on the allowlist."
    else check false (
        String.◌++◌ "Command \"" (
          String.◌++◌ cmd
            "\" is not on the allowlist (npm run typecheck, npm test, npm run build, git diff)."))

unfoldable pub is_command_allowed : String → CommandCheck
is_command_allowed raw = check_normalized (normalized raw)

pub record SpawnResult : Type 0 where
  pub exit_code : Option ℕ
  pub stdout : String
  pub stderr : String

abbrev max_command_timeout_ms : ℕ
max_command_timeout_ms = 120000

module _ (spawn : String → ℕ → SpawnResult) (execute : Bool) (timeout_ms : Option ℕ) where
  abbrev pub clamped_timeout : ℕ
  clamped_timeout = min (get_or timeout_ms max_command_timeout_ms) max_command_timeout_ms

  unfoldable pub run_command : String → CommandResult
  run_command command =
      if not (is_command_allowed command).allowed
      then record {
        command = command;
        allowed = false;
        reason = (is_command_allowed command).reason;
        exit_code = none;
        stdout = "";
        stderr = String.◌++◌ "BLOCKED: " (is_command_allowed command).reason;
        executed = false;
      }
      else if not execute
      then record {
        command = command;
        allowed = true;
        reason = (is_command_allowed command).reason;
        exit_code = some 0;
        stdout =
            String.◌++◌ "[dry-run] '"
              (String.◌++◌ command "' is allowlisted but execution is disabled.");
        stderr = "";
        executed = false;
      }
      else record {
        command = command;
        allowed = true;
        reason = (is_command_allowed command).reason;
        exit_code = (spawn command clamped_timeout).exit_code;
        stdout = (spawn command clamped_timeout).stdout;
        stderr = (spawn command clamped_timeout).stderr;
        executed = true;
      }

  abbrev pub is_zero : Option ℕ → Bool
  is_zero none = false
  is_zero (some c) = eqb c 0

  -- The loop over the suite, which stops at the first failure.
  unfoldable pub run_commands : List String → List CommandResult
  run_commands [] = []
  run_commands (cmd ∷ cmds) =
      let r = run_command cmd in
      let rest = run_commands cmds in
      if r.allowed && r.executed && not (is_zero r.exit_code) then r ∷ [] else r ∷ rest

  abbrev pub test_suite : List String
  test_suite = "npm run typecheck" ∷ "npm test" ∷ "npm run build" ∷ []

  -- `(r.exitCode ?? 1) === 0`
  unfoldable pub run_test_suite : TestReport
  unfolding run_commands
  run_test_suite =
      let results = run_commands test_suite in
      record { results = results; passed = all (λ r. r.allowed && is_zero r.exit_code) results }
