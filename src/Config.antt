-- ===== src/Config.antt =====
-- The environment settings that decide where commands may run: worker/job-queue.ts (provider,
-- inline execution), test-runner-worker.ts (mode), worker/patch-applier.ts (strict hashes) and
-- worker/heartbeat.ts (times), all under lib/ai-orchestrator. An environment is a function from
-- names; `toLowerCase` is modelled on ASCII letters.
pub mod Safety
mod Tests
use Prim.Native.Char.{Char, code}
use Prim.Native.String
use botchatgptclaude.Prelude.{
  ℕ, zero, suc, ◌+◌, ◌*◌, ◌-◌, String, eqb, ltb, leb, Bool, true, false, not, ◌&&◌, ◌||◌, Option,
  none, some, get_or, ◌==◌, if◌then◌else◌, Result, ok, err,
}
use botchatgptclaude.Text.{trim, trim_start}

abbrev pub Env : Type 0
Env = String → Option String

-- `env[name] === value`
abbrev pub env_is : Env → String → String → Bool
env_is env name value = elim (env name) [ none ↦ false | some v ↦ v == value ]

unfoldable pub is_production_env : Env → Bool
is_production_env env = env_is env "NODE_ENV" "production"

unfoldable pub inline_commands_allowed : Env → Bool
inline_commands_allowed env = env_is env "AI_ORCHESTRATOR_ALLOW_INLINE_COMMANDS" "1"

lower_letters : String
lower_letters = "abcdefghijklmnopqrstuvwxyz"

-- The letter at a place of the alphabet.
letter_at : ℕ → String → Char → Char
letter_at n String.[] d = d
letter_at zero (String.◌∷◌ c s) d = c
letter_at (suc n) (String.◌∷◌ c s) d = letter_at n s d

lower : Char → Char
unfolding letter_at lower_letters
lower c = if leb 65 (code c) && leb (code c) 90 then letter_at (code c - 65) lower_letters c else c

unfoldable pub to_lower_case : String → String
unfolding lower
to_lower_case String.[] = ""
to_lower_case (String.◌∷◌ c s) = String.◌∷◌ (lower c) (to_lower_case s)

pub data WorkerProvider : Type 0 where
  database local : WorkerProvider

abbrev provider_of : String → String → Result WorkerProvider
provider_of raw v =
    if v == "" || v == "database"
    then ok database
    else if v == "local"
    then ok local
    else err (
        String.◌++◌ "Unknown AI_ORCHESTRATOR_WORKER_PROVIDER=\""
          (String.◌++◌ raw "\" (expected \"database\" or \"local\")."))

unfoldable pub resolve_worker_provider : Option String → Result WorkerProvider
resolve_worker_provider raw =
    provider_of (get_or raw "undefined") (to_lower_case (trim (get_or raw "database")))

abbrev no_local : Result WorkerProvider → Result (Unit {0})
no_local (err m) = err m
no_local (ok local) =
    err "AI_ORCHESTRATOR_WORKER_PROVIDER=local is not allowed in production; use 'database'."
no_local (ok database) = ok tt

infixl 5 ◌>>◌
abbrev ◌>>◌ : Result (Unit {0}) → Result (Unit {0}) → Result (Unit {0})
err m >> k = err m
ok _ >> k = k

unfoldable pub assert_worker_config : Env → Result (Unit {0})
assert_worker_config env =
    if not (is_production_env env)
    then ok tt
    else no_local (resolve_worker_provider (env "AI_ORCHESTRATOR_WORKER_PROVIDER"))
      >> (if inline_commands_allowed env
          then err
              "AI_ORCHESTRATOR_ALLOW_INLINE_COMMANDS=1 is forbidden in production; run the sandbox worker instead."
          else ok tt)

unfoldable pub assert_inline_execution_allowed : Env → Result (Unit {0})
assert_inline_execution_allowed env =
    if is_production_env env
    then err "Inline command execution is forbidden in production; use the sandbox worker."
    else if not (inline_commands_allowed env)
    then err
        "Inline command execution is disabled (set AI_ORCHESTRATOR_ALLOW_INLINE_COMMANDS=1 for local dev)."
    else ok tt

pub data TestRunnerMode : Type 0 where
  inline worker_wait worker_async : TestRunnerMode

abbrev mode_of : Env → String → TestRunnerMode
mode_of env raw =
    if raw == "inline"
    then inline
    else if raw == "worker_wait" || raw == "worker"
    then worker_wait
    else if raw == "worker_async"
    then worker_async
    else if is_production_env env
    then worker_async
    else inline

unfoldable pub resolve_test_runner_mode : Env → TestRunnerMode
resolve_test_runner_mode env =
    mode_of env (to_lower_case (trim (get_or (env "AI_ORCHESTRATOR_TEST_RUNNER_MODE") "")))

abbrev is_inline : TestRunnerMode → Bool
is_inline inline = true
is_inline _ = false

unfoldable pub assert_test_runner_mode_allowed : Env → Result (Unit {0})
assert_test_runner_mode_allowed env =
    if is_inline (resolve_test_runner_mode env)
      && is_production_env env
      && not (inline_commands_allowed env)
    then err "Inline TEST_RUNNER is blocked in production."
    else ok tt

unfoldable pub resolve_patch_hash_strict : Env → Bool
resolve_patch_hash_strict env =
    if env_is env "AI_ORCHESTRATOR_PATCH_HASH_STRICT" "1"
    then true
    else if env_is env "AI_ORCHESTRATOR_PATCH_HASH_STRICT" "0"
    then false
    else is_production_env env

-- `parseInt(s, 10)` on what the program reads: leading white space, a plus sign, then decimal digits;
-- `none` is NaN. A minus sign gives NaN too: each caller replaces a negative number by its default.
digits_from : Option ℕ → String → Option ℕ
digits_from acc String.[] = acc
digits_from acc (String.◌∷◌ c s) =
    let rest = digits_from (some (get_or acc 0 * 10 + (code c - 48))) s in
    if leb 48 (code c) && leb (code c) 57 then rest else acc

abbrev skip_plus : String → String
skip_plus String.[] = ""
skip_plus (String.◌∷◌ c s) = if eqb (code c) 43 then s else String.◌∷◌ c s

unfoldable pub parse_int : String → Option ℕ
unfolding digits_from
parse_int s = digits_from none (skip_plus (trim_start s))

-- `env.X || d`: an empty text is replaced too.
abbrev or_default : Option String → String → String
or_default none d = d
or_default (some v) d = if v == "" then d else v

-- `Number.isFinite(v) && v >= least ? v : d`
abbrev at_least : ℕ → ℕ → Option ℕ → ℕ
at_least least d none = d
at_least least d (some v) = if leb least v then v else d

unfoldable pub resolve_lease_seconds : Env → ℕ
resolve_lease_seconds env =
    at_least 30 300 (parse_int (or_default (env "AI_ORCHESTRATOR_WORKER_LEASE_SECONDS") "300"))

unfoldable pub resolve_heartbeat_interval_ms : Env → ℕ
resolve_heartbeat_interval_ms env =
    at_least 1000 60000
      (parse_int (or_default (env "AI_ORCHESTRATOR_WORKER_HEARTBEAT_INTERVAL_MS") "60000"))

unfoldable pub resolve_test_job_timeout_ms : Env → ℕ
resolve_test_job_timeout_ms env =
    at_least 1 900000 (parse_int (or_default (env "AI_ORCHESTRATOR_TEST_JOB_TIMEOUT_MS") "900000"))

unfoldable pub resolve_test_job_poll_ms : Env → ℕ
resolve_test_job_poll_ms env =
    at_least 1 3000 (parse_int (or_default (env "AI_ORCHESTRATOR_TEST_JOB_POLL_MS") "3000"))

-- orchestration-resume-scheduler.ts: a default below the least value, and a ceiling above.
abbrev clamped : ℕ → ℕ → ℕ → Option ℕ → ℕ
clamped least d most none = d
clamped least d most (some v) = if ltb v least then d else if ltb v most then v else most

unfoldable pub resolve_resume_batch_size : Env → ℕ
resolve_resume_batch_size env =
    clamped 1 5 50 (parse_int (or_default (env "AI_ORCHESTRATOR_RESUME_BATCH_SIZE") ""))

unfoldable pub resolve_resume_lock_ttl_seconds : Env → ℕ
resolve_resume_lock_ttl_seconds env =
    clamped 10 120 900 (parse_int (or_default (env "AI_ORCHESTRATOR_RESUME_LOCK_TTL_SECONDS") ""))
