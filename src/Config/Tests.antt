-- ===== src/Config/Tests.antt =====
-- Inputs followed by hand in the source.
use botchatgptclaude.Prelude.{◌≡◌, refl, none, some, ok, ◌==◌, if◌then◌else◌}
use botchatgptclaude.Text.{trim, trim_start, trim_end, space, is_empty}
use botchatgptclaude.Config.{
  Env, database, resolve_worker_provider, resolve_resume_batch_size, parse_int, to_lower_case,
}

abbrev pub live : Env
live name =
    if name == "NODE_ENV"
    then some "production"
    else if name == "AI_ORCHESTRATOR_WORKER_PROVIDER"
    then some " DataBase "
    else if name == "AI_ORCHESTRATOR_RESUME_BATCH_SIZE"
    then some "700x"
    else none

live_provider : resolve_worker_provider (live "AI_ORCHESTRATOR_WORKER_PROVIDER") ≡ ok database
unfolding resolve_worker_provider trim trim_start trim_end space is_empty to_lower_case
live_provider = refl

live_batch : resolve_resume_batch_size live ≡ 50
unfolding resolve_resume_batch_size parse_int trim_start space
live_batch = refl

signed_number : parse_int " +7x" ≡ some 7
unfolding parse_int trim_start space
signed_number = refl
