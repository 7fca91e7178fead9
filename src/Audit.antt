-- ===== src/Audit.antt =====
-- The audit trail: `AuditEventType` of lib/ai-orchestrator/types.ts, and what a call of
-- `recordAudit` adds, without its metadata, addresses and fingerprints. `recordAudit` never throws.
use botchatgptclaude.Prelude.{String, Option}

pub data AuditEventType : Type 0 where
  auth_failed auth_passed auth_denied rate_limited : AuditEventType
  ai_run_started ai_run_completed ai_run_failed session_approved session_rejected : AuditEventType
  user_created user_disabled user_enabled user_password_set model_key_updated : AuditEventType
  api_key_created api_key_revoked permission_denied : AuditEventType
  collaborator_added collaborator_removed legacy_admin_used : AuditEventType
  patch_validation_started patch_validation_passed patch_validation_failed : AuditEventType
  github_branch_created github_file_written github_pr_created github_pr_failed : AuditEventType
  ai_pr_blocked_tests_failed ai_pr_blocked_permission ai_pr_blocked_not_approved : AuditEventType
  ai_pr_dry_run_completed : AuditEventType
  worker_job_created worker_job_started worker_job_passed worker_job_failed : AuditEventType
  worker_job_cancelled worker_job_timed_out : AuditEventType
  pr_blocked_worker_required pr_blocked_worker_failed : AuditEventType
  patch_apply_started patch_apply_passed patch_apply_failed : AuditEventType
  pr_blocked_worker_patch_mismatch pr_blocked_worker_hash_not_checked : AuditEventType
  worker_heartbeat_started worker_heartbeat_stopped worker_lease_renewed : AuditEventType
  worker_lease_renew_failed worker_cancel_signal_sent : AuditEventType
  orchestrator_test_job_created orchestrator_test_job_passed : AuditEventType
  orchestrator_test_job_failed orchestrator_test_job_timeout : AuditEventType
  orchestrator_test_runner_inline_blocked : AuditEventType
  orchestration_async_started orchestration_waiting_for_worker : AuditEventType
  orchestration_resume_requested orchestration_resumed orchestration_cancelled : AuditEventType
  orchestration_completed orchestration_failed orchestration_round_started : AuditEventType
  orchestration_worker_job_linked orchestration_cron_resume_started : AuditEventType
  orchestration_cron_resume_completed orchestration_cron_resume_failed : AuditEventType
  orchestration_resume_lock_acquired orchestration_resume_lock_skipped : AuditEventType
  orchestration_resume_lock_released : AuditEventType

pub record AuditEntry : Type 0 where
  pub event_type : AuditEventType
  pub status : String
  pub session_id : Option String
  pub user_id : Option String
