-- ===== src/Store.antt =====
-- The repository's tables that the orchestrators write (lib/ai-orchestrator/db/repository.ts and
-- the records of types.ts), with the queue's jobs and the audit trail; and the actions on them. An
-- action that throws keeps what it has written. `redact` stands for `redactSecrets`, whose regular
-- expressions JavaScript runs. Ids that the database draws and nothing reads are left out.
use botchatgptclaude.Prelude.{ℕ, String, Bool, Option, List, [], ◌∷◌, ◌++◌}
pub use botchatgptclaude.Effect.{return, throw, ◌>>=◌, ◌>>◌, modify, read, bind_then}
use botchatgptclaude.Effect.{Effect}
use botchatgptclaude.Audit.{AuditEntry, AuditEventType}
use botchatgptclaude.Agent.{StepName, Provider, AgentOutput, RunStatus, derive_run_status}
use botchatgptclaude.Queue.{Jobs}

pub data SessionStatus : Type 0 where
  running passed needs_revision failed rejected : SessionStatus

pub data Approval : Type 0 where
  pending approved rejected_by_human : Approval

pub record SessionRecord : Type 0 where
  pub id : String
  pub user_request : String
  pub status : SessionStatus
  pub approval : Approval
  pub rounds : ℕ
  pub user_id : Option String
  pub created_at : ℕ
  pub updated_at : ℕ

pub record MessageRecord : Type 0 where
  pub session_id : String
  pub step : StepName
  pub provider : Provider
  pub round : ℕ
  pub output : AgentOutput

pub record RunRecord : Type 0 where
  pub session_id : String
  pub command : String
  pub allowed : Bool
  pub exit_code : Option ℕ
  pub stdout : String
  pub stderr : String
  pub step_name : Option StepName
  pub status : RunStatus
  pub user_id : Option String

-- The resumable state of orchestration-state.ts.
pub record OrchestrationState : Type 0 where
  pub user_request : String
  pub spec_text : String
  pub critique_text : String
  pub plan_text : String
  pub patch_text : String
  pub last_review_text : String
  pub last_test_report : String
  pub human_approved : Bool

pub data OrchestrationRunStatus : Type 0 where
  queued running waiting_for_worker passed failed needs_revision cancelled : OrchestrationRunStatus

pub record OrchestrationRun : Type 0 where
  pub id : String
  pub session_id : String
  pub user_id : Option String
  pub status : OrchestrationRunStatus
  pub current_round : ℕ
  pub max_rounds : ℕ
  pub current_step : Option StepName
  pub pending_worker_job_id : Option String
  pub last_error : Option String
  pub state : OrchestrationState
  pub created_at : ℕ
  pub updated_at : ℕ
  pub finished_at : Option ℕ
  pub resume_lock_owner : Option String
  pub resume_lock_expires_at : Option ℕ
  pub resume_attempts : ℕ
  pub last_resume_attempt_at : Option ℕ

pub record Event : Type 0 where
  pub orchestration_run_id : String
  pub session_id : String
  pub event_type : AuditEventType

pub record Store : Type 0 where
  pub sessions : List SessionRecord
  pub runs : List OrchestrationRun
  pub messages : List MessageRecord
  pub test_runs : List RunRecord
  pub jobs : Jobs
  pub audits : List AuditEntry
  pub events : List Event

abbrev pub Action : Type 0 → Type 0
Action A = Effect Store A

unfoldable pub add_message : String → StepName → Provider → ℕ → AgentOutput → Action Unit
add_message session_id step provider round output = modify (λ s. record s {
  messages =
      s.messages
      ++ (record {
        session_id = session_id;
        step = step;
        provider = provider;
        round = round;
        output = output;
      })
        ∷ [];
})

pub record RunArgs : Type 0 where
  pub session_id : String
  pub command : String
  pub allowed : Bool
  pub exit_code : Option ℕ
  pub stdout : String
  pub stderr : String
  pub step : Option StepName
  pub user_id : Option String

unfoldable pub add_run : (String → String) → RunArgs → Action Unit
add_run redact a = modify (λ s. record s {
  test_runs =
      s.test_runs
      ++ (record {
        session_id = a.session_id;
        command = a.command;
        allowed = a.allowed;
        exit_code = a.exit_code;
        stdout = redact a.stdout;
        stderr = redact a.stderr;
        step_name = a.step;
        status = derive_run_status a.allowed a.exit_code;
        user_id = a.user_id;
      })
        ∷ [];
})
