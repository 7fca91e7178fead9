-- ===== src/Command.antt =====
-- The worker's commands: lib/ai-orchestrator/worker/command-runner.ts (the guard, the timeouts and
-- the argument vector) and the allowlist of worker/types.ts.
pub mod Argv
use Prim.Native.Char.{Char, code}
use Prim.Native.String
use botchatgptclaude.Prelude.{
  ℕ, String, eqb, Bool, true, false, not, ◌&&◌, ◌||◌, Option, none, some, List, [], ◌∷◌, any, ◌==◌,
  if◌then◌else◌,
}
use botchatgptclaude.Text.{trim, collapse_from, split_from}

abbrev pub worker_command_allowlist : List String
worker_command_allowlist =
    "npm ci" ∷ "npm run typecheck" ∷ "npm test" ∷ "npm run build" ∷ "git diff" ∷ []

-- `(list as readonly string[]).includes(s)`
abbrev pub includes : List String → String → Bool
includes xs s = any (λ x. x == s) xs

-- The class `[;&|`$><\n\r]`; the other alternatives of the pattern hold one of its characters.
abbrev is_shell_control : ℕ → Bool
is_shell_control c =
    eqb c 59
    || eqb c 38
    || eqb c 124
    || eqb c 96
    || eqb c 36
    || eqb c 62
    || eqb c 60
    || eqb c 10
    || eqb c 13

unfoldable pub has_shell_control : String → Bool
has_shell_control String.[] = false
has_shell_control (String.◌∷◌ c s) = is_shell_control (code c) || has_shell_control s

pub record CommandCheck : Type 0 where
  pub allowed : Bool
  pub reason : String

unfoldable pub normalized : String → String
normalized raw = collapse_from false (trim raw)

unfoldable pub validate_worker_command : String → CommandCheck
validate_worker_command raw =
    if has_shell_control raw
    then record { allowed = false; reason = "command contains shell control characters" }
    else if not (includes worker_command_allowlist (normalized raw))
    then record {
      allowed = false;
      reason = String.◌++◌ "\"" (String.◌++◌ (normalized raw) "\" is not on the worker allowlist");
    }
    else record { allowed = true; reason = "ok" }

abbrev timeout_of : String → ℕ
timeout_of c =
    if c == "npm ci"
    then 180000
    else if c == "npm run typecheck"
    then 120000
    else if c == "npm test"
    then 180000
    else if c == "npm run build"
    then 180000
    else if c == "git diff"
    then 30000
    else 120000

unfoldable pub command_timeout_ms : String → ℕ
command_timeout_ms command = timeout_of (trim command)

-- `process`, and `join(dirname(process.execPath), "node_modules", "npm", "bin", cli)`.
pub record Host : Type 0 where
  pub is_windows : Bool
  pub exec_path : String
  pub cli_path : String → String

-- The file, and then its arguments.
abbrev pub spawned : Host → List String → List String
spawned host [] = []
spawned host (file ∷ args) =
    if host.is_windows && (file == "npm" || file == "npx")
    then host.exec_path
      ∷ host.cli_path (if file == "npm" then "npm-cli.js" else "npx-cli.js")
      ∷ args
    else file ∷ args

unfoldable pub resolve_executable : Host → String → List String
resolve_executable host command = spawned host (split_from false "" (trim command))

pub record CommandRunResult : Type 0 where
  pub command : String
  pub allowed : Bool
  pub exit_code : Option ℕ
  pub stdout : String
  pub stderr : String
  pub timed_out : Bool
  pub truncated : Bool
  pub duration_ms : ℕ
  pub aborted : Bool
