-- ===== src/Orchestration/Cells.antt =====
-- One run or one session after an update.
use botchatgptclaude.Prelude.{ℕ, String, ◌≡◌, refl, some, ok, List, ◌∙◌, eq_refl}
use botchatgptclaude.Table.{update, find-update}
use botchatgptclaude.Store.{Store, OrchestrationRun, SessionRecord}
use botchatgptclaude.Orchestration.{Runs, run_key, get_run, RunPatch, patch_run, update_run}
use botchatgptclaude.Session.{session_key, get_session, SessionPatch, patch_session, update_session}

patch_run-key :
    (redact : String → String) (p : RunPatch) (now : ℕ) (r : OrchestrationRun)
    → run_key (patch_run redact p now r) ≡ run_key r
unfolding patch_run
patch_run-key redact p now r = refl

patch_session-key :
    (p : SessionPatch) (now : ℕ) (x : SessionRecord)
    → session_key (patch_session p now x) ≡ session_key x
unfolding patch_session
patch_session-key p now x = refl

pub get_run-update :
    (redact : String → String) (id : String) (p : RunPatch) (now : ℕ) (runs : Runs)
    {r : OrchestrationRun}
    → get_run id runs ≡ some r
    → get_run id (update run_key id (patch_run redact p now) runs) ≡ some (patch_run redact p now r)
unfolding get_run
get_run-update redact id p now runs {r} e =
    find-update run_key id (patch_run redact p now) (patch_run-key redact p now) id runs
    ∙ rw (eq_refl, e) refl

pub get_session-update :
    (id : String) (p : SessionPatch) (now : ℕ) (xs : List SessionRecord) {x : SessionRecord}
    → get_session id xs ≡ some x
    → get_session id (update session_key id (patch_session p now) xs) ≡ some (patch_session p now x)
unfolding get_session
get_session-update id p now xs {x} e =
    find-update session_key id (patch_session p now) (patch_session-key p now) id xs
    ∙ rw (eq_refl, e) refl

-- An update of a stored run succeeds and writes the table of the runs only.
pub update_run-ok :
    (redact : String → String) (id : String) (p : RunPatch) (now : ℕ) (s : Store)
    {r : OrchestrationRun}
    → get_run id s.runs ≡ some r
    → update_run redact id p now s
      ≡ (record s { runs = update run_key id (patch_run redact p now) s.runs }, ok tt)
unfolding update_run
update_run-ok redact id p now s e = rw e refl

pub update_session-ok :
    (id : String) (p : SessionPatch) (now : ℕ) (s : Store) {x : SessionRecord}
    → get_session id s.sessions ≡ some x
    → update_session id p now s
      ≡ (record s { sessions = update session_key id (patch_session p now) s.sessions }, ok tt)
unfolding update_session
update_session-ok id p now s e = rw e refl
