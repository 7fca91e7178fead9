-- ===== src/Session.antt =====
-- The sessions of lib/ai-orchestrator/db/repository.ts, the resumable state of
-- orchestration-state.ts, and `event` of async-orchestrator.ts.
use Prim.Native.String
use botchatgptclaude.Prelude.{
  ℕ, String, Bool, Option, none, some, get_or, List, [], ◌∷◌, ◌++◌, ok, err,
}
use botchatgptclaude.Text.{slice}
use botchatgptclaude.Audit
use botchatgptclaude.Audit.{AuditEventType}
use botchatgptclaude.Table
use botchatgptclaude.Store
use botchatgptclaude.Store.{
  SessionRecord, SessionStatus, Approval, OrchestrationState, Store, Action, modify,
}

abbrev pub not_found : String → String → String
not_found what id = String.◌++◌ what (String.◌++◌ id " not found")

abbrev pub session_key : SessionRecord → String
session_key s = s.id

module _ (redact : String → String) where
  unfoldable pub empty_state : String → Bool → OrchestrationState
  empty_state user_request human_approved = record {
    user_request = redact user_request;
    spec_text = "";
    critique_text = "";
    plan_text = "";
    patch_text = "";
    last_review_text = "";
    last_test_report = "";
    human_approved = human_approved;
  }

  unfoldable pub redact_state : OrchestrationState → OrchestrationState
  redact_state s = record {
    user_request = redact s.user_request;
    spec_text = redact s.spec_text;
    critique_text = redact s.critique_text;
    plan_text = redact s.plan_text;
    patch_text = redact s.patch_text;
    last_review_text = redact s.last_review_text;
    last_test_report = slice 8000 (redact s.last_test_report);
    human_approved = s.human_approved;
  }

pub record SessionPatch : Type 0 where
  pub status : Option SessionStatus
  pub approval : Option Approval
  pub rounds : Option ℕ

unfoldable pub patch_session : SessionPatch → ℕ → SessionRecord → SessionRecord
patch_session p now x = record x {
  status = get_or p.status x.status;
  approval = get_or p.approval x.approval;
  rounds = get_or p.rounds x.rounds;
  updated_at = now;
}

unfoldable pub get_session : String → List SessionRecord → Option SessionRecord
get_session id xs = Table.find session_key id xs

abbrev session_found : String → SessionPatch → ℕ → Option SessionRecord → Action Unit
session_found id p now none s = (s, err (not_found "Session " id))
session_found id p now (some x) s =
    (record s { sessions = Table.update session_key id (patch_session p now) s.sessions }, ok tt)

unfoldable pub update_session : String → SessionPatch → ℕ → Action Unit
update_session id p now s = session_found id p now (get_session id s.sessions) s

abbrev pub new_session : String → ℕ → String → Option String → SessionRecord
new_session id now user_request user_id = record {
  id = id;
  user_request = user_request;
  status = Store.running;
  approval = Store.pending;
  rounds = 0;
  user_id = user_id;
  created_at = now;
  updated_at = now;
}

unfoldable pub create_session : String → ℕ → String → Option String → Action SessionRecord
create_session id now user_request user_id s =
    let x = new_session id now user_request user_id in
    (record s { sessions = s.sessions ++ x ∷ [] }, ok x)

-- The status that `event` gives the audit entry: `eventType.includes("failed") ? "fail" : "ok"`.
abbrev event_status : AuditEventType → String
event_status Audit.auth_failed = "fail"
event_status Audit.ai_run_failed = "fail"
event_status Audit.patch_validation_failed = "fail"
event_status Audit.github_pr_failed = "fail"
event_status Audit.ai_pr_blocked_tests_failed = "fail"
event_status Audit.worker_job_failed = "fail"
event_status Audit.pr_blocked_worker_failed = "fail"
event_status Audit.patch_apply_failed = "fail"
event_status Audit.worker_lease_renew_failed = "fail"
event_status Audit.orchestrator_test_job_failed = "fail"
event_status Audit.orchestration_failed = "fail"
event_status Audit.orchestration_cron_resume_failed = "fail"
event_status _ = "ok"

-- `event` of async-orchestrator.ts: the audit entry and the timeline event.
unfoldable pub append_event : AuditEventType → String → String → Option String → Action Unit
append_event type run_id session_id user_id = modify (λ s. record s {
  audits =
      s.audits
      ++ (record {
        event_type = type;
        status = event_status type;
        session_id = some session_id;
        user_id = user_id;
      })
        ∷ [];
  events =
      s.events
      ++ (record { orchestration_run_id = run_id; session_id = session_id; event_type = type })
        ∷ [];
})
