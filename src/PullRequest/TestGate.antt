-- ===== src/PullRequest/TestGate.antt =====
-- The last gate of the flow: the tests of this patch.
use Prim.Native.String.{◌++◌}
use botchatgptclaude.Prelude.{
  ℕ, String, Bool, true, false, not, ◌&&◌, Option, none, some, get_or, List, [], ◌∷◌, ◌==◌,
  if◌then◌else◌, any, map, length, Result, ok, err,
}
use botchatgptclaude.Prelude
use botchatgptclaude.Audit
use botchatgptclaude.Text.{show, join_lines}
use botchatgptclaude.Job
use botchatgptclaude.Job.{WorkerJob, JobStatus, JobResult, CommandOutcome, ApplyError, is_passed}
use botchatgptclaude.JobService.{find_latest_required}
use botchatgptclaude.Report.{format_test_report, status_text}
use botchatgptclaude.Effect.{return, ◌>>◌}
use botchatgptclaude.Hub
use botchatgptclaude.Hub.{PatchSetRecord, GithubClient, Hub, HubAction, PullRequestRecord, ask}
use botchatgptclaude.Hub.Tables.{update_patch_set}
use botchatgptclaude.Github.{AppliedFile}
use botchatgptclaude.Patch.{action_text}
use botchatgptclaude.PullRequest.{
  PrFlowDeps, tests_disabled, tests_failed, worker_required, worker_failed, worker_patch_mismatch,
  worker_hash_not_checked, base_hash_mismatch, Gate, stop, go, audit, blocked, blocked_with,
}

-- What the test gate lets go on with: the report, and the sandbox job that it is of.
pub record Tests : Type 0 where
  pub report : String
  pub matched_job : Option WorkerJob

-- `x === true` of a member of the job's result
abbrev is_true : Option Bool → Bool
is_true none = false
is_true (some b) = b

abbrev pub patch_applied : Option JobResult → Bool
patch_applied none = false
patch_applied (some r) = is_true r.patch_applied

abbrev pub base_hash_checked : Option JobResult → Bool
base_hash_checked none = false
base_hash_checked (some r) = is_true r.base_hash_checked

abbrev pub drifted : Option JobResult → Bool
drifted none = false
drifted (some r) = any (λ e. e.code == "base_hash_mismatch") (get_or r.errors [])

abbrev is_of : Option String → String → Bool
is_of none id = false
is_of (some p) id = p == id

abbrev pub matches : WorkerJob → PatchSetRecord → Bool
matches job set = is_of job.patch_set_id set.id

abbrev pub has_failed : JobStatus → Bool
has_failed Job.failed = true
has_failed Job.timed_out = true
has_failed _ = false

abbrev exit_text : Option ℕ → String
exit_text none = "null"
exit_text (some c) = show c

abbrev command_line : CommandOutcome → String
command_line c = "  $ " ++ c.command ++ " -> exit " ++ exit_text c.exit_code

abbrev worker_report : String → Option JobResult → String
worker_report id none = "Sandbox job " ++ id ++ ": passed"
worker_report id (some r) =
    "SANDBOX TEST REPORT (job "
    ++ id
    ++ ")\n"
    ++ r.summary
    ++ "\n"
    ++ join_lines (map command_line r.commands)

-- `workerJobReport`
unfoldable pub worker_job_report : WorkerJob → String
worker_job_report job = worker_report job.id job.result

abbrev pub changed_line : Option JobResult → List String
changed_line none = []
changed_line (some r) = lines (length (get_or r.changed_files []))
  where
    lines : ℕ → List String
    lines n = if Prelude.eqb n 0 then [] else ("- changed_files: " ++ show n) ∷ []

-- The provenance of a pull request that a sandbox job has tested.
abbrev pub provenance : String → Option WorkerJob → List String
provenance set none = ("- patch_set_id: `" ++ set ++ "`") ∷ []
provenance set (some job) =
    ("- patch_set_id: `" ++ set ++ "`")
    ∷ ("- worker_job_id: `" ++ job.id ++ "`")
    ∷ "- patch_applied: `true`"
    ∷ changed_line job.result

abbrev pub file_line : AppliedFile → String
file_line f = "- `" ++ action_text f.action ++ "` " ++ f.path

module _ (deps : PrFlowDeps) where
  -- 11) Inline tests, for development.
  unfoldable pub inline_gate : PatchSetRecord → HubAction (Gate Tests)
  inline_gate set =
      if deps.is_production
      then blocked deps tests_disabled 412
          "Inline command execution is disabled in production; use the sandbox worker."
          (some set.id)
      else if not deps.config.execute_tests
      then blocked deps tests_disabled 412
          "real tests disabled (set AI_ORCHESTRATOR_EXECUTE_TESTS=1)." (some set.id)
      else if not deps.run_tests.passed
      then update_patch_set set.id
          (record {
            status = some Hub.PatchSetStatus.failed;
            base_sha = none;
            validation_errors = none;
          })
          deps.now
        >> audit deps Audit.ai_pr_blocked_tests_failed "fail"
        >> return (
            stop
              (record (blocked_with deps tests_failed 422 "Tests failed; PR not created."
                (some set.id) none) { test_report = some (format_test_report deps.run_tests) }))
      else return (go (record { report = format_test_report deps.run_tests; matched_job = none }))

  -- A job that has passed.
  abbrev pub passed_gate : PatchSetRecord → WorkerJob → HubAction (Gate Tests)
  passed_gate set job =
      if not (matches job set)
      then audit deps Audit.pr_blocked_worker_patch_mismatch "denied"
        >> blocked deps worker_patch_mismatch 409
            "Latest sandbox job tested a different patch set; re-run sandbox tests for this patch."
            (some set.id)
      else if not (patch_applied job.result)
      then audit deps Audit.pr_blocked_worker_required "denied"
        >> blocked deps worker_required 409
            "Sandbox job did not apply the patch (patch_applied=false); re-run sandbox tests."
            (some set.id)
      else if deps.config.patch_hash_strict && not (base_hash_checked job.result)
      then audit deps Audit.pr_blocked_worker_hash_not_checked "denied"
        >> blocked deps worker_hash_not_checked 409
            "Sandbox job did not verify base hashes (base drift not checked); re-run Patch Tests."
            (some set.id)
      else return (go (record { report = worker_job_report job; matched_job = some job }))

  abbrev pub unpassed_gate : PatchSetRecord → WorkerJob → HubAction (Gate Tests)
  unpassed_gate set job =
      if has_failed job.status
      then (if drifted job.result
          then audit deps Audit.pr_blocked_worker_failed "denied"
            >> blocked deps base_hash_mismatch 409
                "Base file changed after the patch was validated (base_hash_mismatch); re-validate the patch and re-run Patch Tests."
                (some set.id)
          else audit deps Audit.pr_blocked_worker_failed "denied"
            >> blocked deps worker_failed 409
                ("Sandbox job is '" ++ status_text job.status ++ "'; PR blocked until it passes.")
                (some set.id))
      else audit deps Audit.pr_blocked_worker_required "denied"
        >> blocked deps worker_required 409
            ("Sandbox job is '" ++ status_text job.status ++ "'; wait for it to pass.")
            (some set.id)

  abbrev pub job_gate : PatchSetRecord → Option WorkerJob → HubAction (Gate Tests)
  job_gate set none =
      audit deps Audit.pr_blocked_worker_required "denied"
      >> blocked deps worker_required 409 "Run sandbox tests first: no sandbox job for this patch."
          (some set.id)
  job_gate set (some job) =
      if is_passed job.status then passed_gate set job else unpassed_gate set job

  -- 11) The tests of this patch: a sandbox job, or inline.
  unfoldable pub test_gate : PatchSetRecord → HubAction (Gate Tests)
  test_gate set =
      if deps.config.allow_inline_commands
      then inline_gate set
      else job_gate set (find_latest_required deps.session.id deps.jobs)
