-- ===== src/PullRequest/Publish.antt =====
-- What the gates open: the branch, the files and the pull request on GitHub.
use Prim.Native.String.{◌++◌}
use botchatgptclaude.Prelude.{
  ℕ, String, Bool, true, false, not, ◌&&◌, Option, none, some, get_or, List, [], ◌∷◌, ◌==◌,
  if◌then◌else◌, any, map, length, Result, ok, err,
}
use botchatgptclaude.Prelude
use botchatgptclaude.Audit
use botchatgptclaude.Text.{slice, is_empty, join_lines}
use botchatgptclaude.Effect.{return, ◌>>=◌, ◌>>◌}
use botchatgptclaude.Hub
use botchatgptclaude.Hub.{PatchSetRecord, GithubClient, Hub, HubAction, PullRequestRecord, ask}
use botchatgptclaude.Hub.Tables.{update_patch_set, PatchSetPatch, create_pull_request}
use botchatgptclaude.Github.{
  short_session_id, CreatedBranch, AppliedFile, create_session_branch, apply_patch_files,
}
use botchatgptclaude.Patch.{PatchArtifact}
use botchatgptclaude.PullRequest.Steps.{
  check_access, resolve_patch_set, check_approval, dry_run_result, live_gates, reparse,
}
use botchatgptclaude.PullRequest.{
  PrFlowDeps, PrFlowResult, github_error, continue, audit, intended_branch,
}
use botchatgptclaude.PullRequest.TestGate.{Tests, provenance, file_line, test_gate}

module _ (deps : PrFlowDeps) where
  abbrev test_lines : String → List String
  test_lines report =
      if is_empty report
      then []
      else "" ∷ "**Sandbox test report:**" ∷ "```" ∷ slice 2000 report ∷ "```" ∷ []

  -- `buildPrBody`
  unfoldable pub build_pr_body : String → List AppliedFile → Tests → String
  build_pr_body set files tests = join_lines (
      Prelude.◌++◌
        (("Automated patch from AI Orchestrator session `" ++ deps.session.id ++ "`.")
          ∷ ""
          ∷ ("**Request:** " ++ slice 300 deps.session.user_request)
          ∷ ""
          ∷ "**Files:**"
          ∷ join_lines (map file_line files)
          ∷ ""
          ∷ "**Sandbox provenance:**"
          ∷ provenance set tests.matched_job)
        (Prelude.◌++◌ (test_lines tests.report) (
          ""
          ∷ "> ⚠\u{fe0f} Generated by an automated pipeline. **Do not auto-merge** — a human must"
          ∷ "> review and merge this PR. No production deploy is performed." ∷ [])))

  unfoldable pub audit_files : List AppliedFile → HubAction Unit
  audit_files [] = return tt
  audit_files (f ∷ fs) = audit deps Audit.github_file_written "ok" >> audit_files fs

  abbrev pub record_pull_request :
      String
      → PatchSetRecord
      → String
      → Hub.PullRequestStatus
      → Option ℕ
      → Option String
      → Option String
      → HubAction PullRequestRecord
  record_pull_request id set branch status number url message =
      create_pull_request id deps.now (record {
        session_id = deps.session.id;
        patch_set_id = set.id;
        user_id = deps.subject.user_id;
        branch_name = branch;
        base_branch = deps.config.default_branch;
        status = status;
        github_pr_number = number;
        github_pr_url = url;
        error_message = message;
      })

  abbrev pub pull_request_args :
      PatchSetRecord → Tests → CreatedBranch → List AppliedFile → Hub.CreatePullRequestArgs
  pull_request_args set tests branch files = record {
    title = "AI Orchestrator: " ++ slice 60 deps.session.user_request;
    head = branch.branch_name;
    base = deps.config.default_branch;
    body = build_pr_body set.id files tests;
  }

  abbrev pub announce :
      PatchSetRecord
      → Tests
      → CreatedBranch
      → Hub.CreatedPullRequest
      → PullRequestRecord
      → HubAction PrFlowResult
  announce set tests branch created pr =
      audit deps Audit.github_pr_created "ok"
      >> return (record {
        ok = true;
        http_status = 201;
        is_dry_run = false;
        blocked_reason = none;
        message = "Pull request created. Review and merge it manually in GitHub.";
        patch_set_id = some set.id;
        branch_name = some branch.branch_name;
        pull_request = some pr;
        pr_url = some created.url;
        validation_errors = none;
        test_report = some tests.report;
      })

  abbrev pub applied_now : PatchSetPatch
  applied_now = record { status = some Hub.applied; base_sha = none; validation_errors = none }

  abbrev pub recorded :
      PatchSetRecord
      → Tests
      → CreatedBranch
      → Hub.CreatedPullRequest
      → PullRequestRecord
      → HubAction PrFlowResult
  recorded set tests branch created pr =
      update_patch_set set.id applied_now deps.now >> announce set tests branch created pr

  -- What follows the pull request that GitHub has created.
  abbrev pub opened :
      PatchSetRecord → Tests → CreatedBranch → Hub.CreatedPullRequest → HubAction PrFlowResult
  opened set tests branch created =
      record_pull_request deps.pull_request_id set branch.branch_name Hub.PullRequestStatus.created
        (some created.number) (some created.url) none
      >>= recorded set tests branch created

  unfoldable pub open_pull_request :
      GithubClient
      → PatchSetRecord
      → Tests
      → CreatedBranch
      → List AppliedFile
      → HubAction PrFlowResult
  open_pull_request client set tests branch files =
      let args = pull_request_args set tests branch files in
      ask (Hub.create_pull_request args) (λ log. client.on_pull_request log args)
      >>= opened set tests branch

  abbrev pub message_prefix : String
  message_prefix = "ai-orchestrator " ++ short_session_id deps.session.id

  abbrev pub write_patch :
      GithubClient → PatchSetRecord → PatchArtifact → Tests → CreatedBranch → HubAction PrFlowResult
  write_patch client set patch tests branch = do
    audit deps Audit.github_branch_created "ok"
    files ←
        apply_patch_files client deps.patterns.redact deps.hash branch.branch_name
          deps.config.default_branch message_prefix patch.files
    audit_files files
    open_pull_request client set tests branch files

  abbrev pub branched_at : String → PatchSetPatch
  branched_at sha = record { status = none; base_sha = some (some sha); validation_errors = none }

  -- The files and the pull request, on the branch that was created.
  unfoldable pub open_on :
      GithubClient → PatchSetRecord → PatchArtifact → Tests → CreatedBranch → HubAction PrFlowResult
  open_on client set patch tests branch =
      update_patch_set set.id (branched_at branch.base_sha) deps.now
      >> write_patch client set patch tests branch

  -- The `catch` block, which knows of a branch if one was created.
  unfoldable pub github_failed : PatchSetRecord → Option String → String → HubAction PrFlowResult
  github_failed set branch m = do
    pr ←
        record_pull_request deps.failed_id set (get_or branch (intended_branch deps))
          Hub.PullRequestStatus.failed none none (some (deps.patterns.redact m))
    audit deps Audit.github_pr_failed "fail"
    return (record {
      ok = false;
      http_status = 502;
      is_dry_run = false;
      blocked_reason = some github_error;
      message = "GitHub operation failed: " ++ deps.patterns.redact m;
      patch_set_id = some set.id;
      branch_name = branch;
      pull_request = some pr;
      pr_url = none;
      validation_errors = none;
      test_report = none;
    })

  abbrev pub caught :
      PatchSetRecord → Option String → Hub → Result PrFlowResult → Hub × Result PrFlowResult
  caught set branch h (ok r) = (h, ok r)
  caught set branch h (err m) = github_failed set branch m h

  abbrev pub with_branch :
      GithubClient
      → PatchSetRecord
      → PatchArtifact
      → Tests
      → Hub
      → Result CreatedBranch
      → Hub × Result PrFlowResult
  with_branch client set patch tests h (err m) = github_failed set none m h
  with_branch client set patch tests h (ok branch) =
      let opened = open_on client set patch tests branch h in
      caught set (some branch.branch_name) opened.0 opened.1

  -- 13) The branch, the files and the pull request, in a `try` block.
  unfoldable pub publish :
      GithubClient → PatchSetRecord → PatchArtifact → Tests → HubAction PrFlowResult
  publish client set patch tests h =
      let made =
        create_session_branch client deps.patterns.redact deps.hash deps.session.id
          deps.config.default_branch deps.timestamp h in
      with_branch client set patch tests made.0 made.1

  abbrev pub live : PatchSetRecord → Option PatchArtifact → HubAction PrFlowResult
  live set patch =
      live_gates deps set
      >>= continue (λ client.
        reparse deps set patch
        >>= continue (λ p. test_gate deps set >>= continue (publish client set p)))

  abbrev pub approved : PatchSetRecord → Option PatchArtifact → Unit {0} → HubAction PrFlowResult
  approved set patch _ = if deps.config.dry_run then dry_run_result deps set else live set patch

  unfoldable pub create_pull_request_for_session : HubAction PrFlowResult
  create_pull_request_for_session =
      check_access deps
      >>= continue (λ _.
        resolve_patch_set deps
        >>= continue (λ r. check_approval deps r.0 >>= continue (approved r.0 r.1)))
