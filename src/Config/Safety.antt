-- ===== src/Config/Safety.antt =====
-- What the settings guarantee in production.
use botchatgptclaude.Prelude.{◌≤◌, ◌≡◌, ◌↔◌, true, false, arith, ok}
use botchatgptclaude.Config.{
  Env, is_production_env, inline_commands_allowed, database, resolve_worker_provider,
  assert_worker_config, resolve_resume_batch_size, resolve_resume_lock_ttl_seconds,
}

-- A worker starts in production exactly when its provider is the database and inline commands are
-- off.
pub assert_worker_config_iff :
    (env : Env)
    → is_production_env env ≡ true
    → (assert_worker_config env ≡ ok tt) ↔ (
        (resolve_worker_provider (env "AI_ORCHESTRATOR_WORKER_PROVIDER") ≡ ok database)
        × (inline_commands_allowed env ≡ false))
unfolding assert_worker_config
assert_worker_config_iff env p = (λ h. ground arith, λ h. ground (arith, h))

-- The batch of a cron tick has 1 to 50 runs, and a resume lock lives 10 to 900 seconds, whatever
-- the environment says.
pub resume_limits :
    (env : Env)
    → (1 ≤ resolve_resume_batch_size env)
      × (resolve_resume_batch_size env ≤ 50)
      × (10 ≤ resolve_resume_lock_ttl_seconds env)
      × (resolve_resume_lock_ttl_seconds env ≤ 900)
unfolding resolve_resume_batch_size resolve_resume_lock_ttl_seconds
resume_limits env = (ground arith, ground arith, ground arith, ground arith)
