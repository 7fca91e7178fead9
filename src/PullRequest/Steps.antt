-- ===== src/PullRequest/Steps.antt =====
-- The gates of the flow before its tests, and the dry run.
use Prim.Native.String.{◌++◌}
use botchatgptclaude.Prelude.{
  String, Bool, true, false, not, ◌||◌, Option, none, some, get_or, List, [], ◌∷◌, if◌then◌else◌,
  length, Result, ok, err,
}
use botchatgptclaude.Audit
use botchatgptclaude.Audit.{AuditEventType}
use botchatgptclaude.Text.{show, slice, is_empty}
use botchatgptclaude.Rbac.{subject_has_permission, can_access_session}
use botchatgptclaude.Effect.{return, throw, ◌>>=◌, ◌>>◌}
use botchatgptclaude.Hub
use botchatgptclaude.Hub.{
  PatchSetStatus, PatchSetRecord, PatchFileRecord, PatchFileChangeType, PullRequestRecord,
  GithubClient, Hub, HubAction,
}
use botchatgptclaude.Hub.Tables.{
  create_patch_set, PatchSetArgs, update_patch_set, add_patch_file, create_pull_request,
}
use botchatgptclaude.Patch.{PatchFileSpec, PatchArtifact, validate_patch}
use botchatgptclaude.PullRequest.{
  permission_denied, not_approved, patch_not_validated, github_disabled, github_not_configured,
  health_failed, smoke_required, GithubConfig, PrFlowDeps, PrFlowResult, Gate, stop, go,
  is_validated, is_approved, change_type, is_delete, rbac_session, Stored, audit, blocked_with,
  blocked, intended_branch, validate_options,
}

module _ (deps : PrFlowDeps) where
  -- 1), 2) The permission to open pull requests, and access to the session.
  unfoldable pub check_access : HubAction (Gate Unit)
  check_access =
      if not (subject_has_permission deps.subject "ai:pr:create")
      then audit deps Audit.ai_pr_blocked_permission "denied"
        >> blocked deps permission_denied 403 "Missing permission ai:pr:create." none
      else if not (can_access_session deps.subject (rbac_session deps.session) deps.is_collaborator)
      then audit deps Audit.ai_pr_blocked_permission "denied"
        >> blocked deps permission_denied 403 "No access to this session." none
      else return (go tt)

  -- `addPatchFile` for each file; the flow gives no hasher of the base branch.
  unfoldable pub store_files : String → List PatchFileSpec → HubAction Unit
  store_files set [] = return tt
  store_files set (file ∷ files) =
      add_patch_file (record {
        patch_set_id = set;
        file_path = file.path;
        change_type = change_type file.action;
        old_content_hash = none;
        new_content_hash =
            if is_delete file.action || is_empty (get_or file.content "")
            then none
            else some (deps.hash (get_or file.content ""));
        patch_hunk = some (slice 4000 (deps.patterns.redact (get_or file.content "")));
        reason =
            if is_empty file.reason
            then none
            else some (slice 500 (deps.patterns.redact file.reason));
        new_content_redacted =
            if is_delete file.action
            then none
            else some (deps.patterns.redact (get_or file.content ""));
      })
      >> store_files set files

  abbrev pub files_of : Option PatchArtifact → List PatchFileSpec
  files_of none = []
  files_of (some patch) = patch.files

  abbrev summary : Option PatchArtifact → String
  summary none = "unparseable patch artifact"
  summary (some patch) =
      show (length patch.files)
      ++ " file(s); "
      ++ show (length patch.commands_to_run)
      ++ " command(s)"

  abbrev pub set_args : String → Option PatchArtifact → Bool → List String → PatchSetArgs
  set_args text patch is_ok errors = record {
    session_id = deps.session.id;
    user_id = deps.subject.user_id;
    status = if is_ok then Hub.validated else Hub.PatchSetStatus.failed;
    base_branch = deps.config.default_branch;
    target_branch = intended_branch deps;
    patch_summary = some (summary patch);
    patch_text = some (slice 200000 (deps.patterns.redact text));
    validation_errors = if is_ok then none else some errors;
  }

  abbrev pub store_as : String → Option PatchArtifact → Bool → List String → HubAction Stored
  store_as text patch is_ok errors = do
    set ← create_patch_set deps.patch_set_id deps.now (set_args text patch is_ok errors)
    store_files set.id (files_of patch)
    return (record { patch_set = set; patch = patch; is_ok = is_ok; errors = errors })

  abbrev pub store_parsed : String → Result PatchArtifact → HubAction Stored
  store_parsed text (err m) = store_as text none false (m ∷ [])
  store_parsed text (ok patch) =
      let v = validate_patch deps.patterns (validate_options deps) patch in
      store_as text (some patch) v.ok v.errors

  unfoldable pub validate_and_store_patch : String → HubAction Stored
  validate_and_store_patch text = store_parsed text (deps.parse_patch text)

  abbrev pub resolved : Stored → HubAction (Gate (PatchSetRecord × Option PatchArtifact))
  resolved stored =
      if not stored.is_ok
      then audit deps Audit.patch_validation_failed "fail"
        >> return (
            stop (
              blocked_with deps patch_not_validated 409 "Patch failed validation."
                (some stored.patch_set.id) (some stored.errors)))
      else audit deps Audit.patch_validation_passed "ok"
        >> return (go (stored.patch_set, stored.patch))

  abbrev pub validate_text :
      Option String → HubAction (Gate (PatchSetRecord × Option PatchArtifact))
  validate_text none =
      blocked deps patch_not_validated 409 "No patch artifact available to validate." none
  validate_text (some text) =
      if is_empty text
      then blocked deps patch_not_validated 409 "No patch artifact available to validate." none
      else audit deps Audit.patch_validation_started "ok"
        >> validate_and_store_patch text
        >>= resolved

  abbrev pub reuse :
      Option PatchSetRecord → HubAction (Gate (PatchSetRecord × Option PatchArtifact))
  reuse none = validate_text deps.patch_artifact_text
  reuse (some set) =
      if is_validated set.status
      then return (go (set, none))
      else validate_text deps.patch_artifact_text

  -- 3) A validated patch set, stored before or now.
  unfoldable pub resolve_patch_set : HubAction (Gate (PatchSetRecord × Option PatchArtifact))
  resolve_patch_set = reuse deps.existing_patch_set

  -- 4) The approval of the session, or its passed status.
  unfoldable pub check_approval : PatchSetRecord → HubAction (Gate Unit)
  check_approval set =
      if not (is_approved deps.session)
      then audit deps Audit.ai_pr_blocked_not_approved "denied"
        >> blocked deps not_approved 409 "Session is not approved; approve it before creating a PR."
            (some set.id)
      else return (go tt)

  -- 5) The dry run, which stops here.
  unfoldable pub dry_run_result : PatchSetRecord → HubAction PrFlowResult
  dry_run_result set = do
    pr ← create_pull_request deps.pull_request_id deps.now (record {
      session_id = deps.session.id;
      patch_set_id = set.id;
      user_id = deps.subject.user_id;
      branch_name = intended_branch deps;
      base_branch = deps.config.default_branch;
      status = Hub.dry_run;
      github_pr_number = none;
      github_pr_url = none;
      error_message = none;
    })
    audit deps Audit.ai_pr_dry_run_completed "ok"
    return (record {
      ok = true;
      http_status = 200;
      is_dry_run = true;
      blocked_reason = none;
      message = "DRY RUN — no GitHub write performed.";
      patch_set_id = some set.id;
      branch_name = some (intended_branch deps);
      pull_request = some pr;
      pr_url = none;
      validation_errors = none;
      test_report = none;
    })

  -- `deps.githubClient ?? (config.githubConfig ? createGithubClient(…) : null)`
  abbrev pub client_of : Option GithubClient → Option GithubConfig → Option GithubClient
  client_of (some c) config = some c
  client_of none none = none
  client_of none (some config) = some (deps.create_client config)

  abbrev has_text : Option String → Bool
  has_text none = false
  has_text (some t) = not (is_empty t)

  abbrev pub smoke_ok : Bool
  smoke_ok = not deps.config.require_smoke_pass || has_text deps.config.smoke_passed_at

  abbrev pub with_health :
      PatchSetRecord → GithubClient → Result Bool → HubAction (Gate GithubClient)
  with_health set client (err m) = throw m
  with_health set client (ok healthy) =
      if healthy
      then return (go client)
      else blocked deps health_failed 503 "Health check failed; refusing to create a PR."
          (some set.id)

  abbrev pub with_client : PatchSetRecord → Option GithubClient → HubAction (Gate GithubClient)
  with_client set none =
      blocked deps github_not_configured 412 "Missing GITHUB_TOKEN / GITHUB_OWNER / GITHUB_REPO."
        (some set.id)
  with_client set (some client) =
      if not smoke_ok
      then blocked deps smoke_required 412
          "Supabase smoke test required but not recorded (AI_ORCHESTRATOR_SUPABASE_SMOKE_PASSED_AT)."
          (some set.id)
      else with_health set client deps.health_check

  -- 6) to 9) The switch, the client, the smoke test and the health.
  unfoldable pub live_gates : PatchSetRecord → HubAction (Gate GithubClient)
  live_gates set =
      if not deps.config.enable_github_pr
      then blocked deps github_disabled 403
          "GitHub PR creation is disabled (AI_ORCHESTRATOR_ENABLE_GITHUB_PR != 1)." (some set.id)
      else with_client set (client_of deps.github_client deps.config.github_config)

  abbrev pub revalidated : PatchSetRecord → PatchArtifact → HubAction (Gate PatchArtifact)
  revalidated set patch =
      let v = validate_patch deps.patterns (validate_options deps) patch in
      if v.ok
      then return (go patch)
      else update_patch_set set.id
          (record {
            status = some Hub.PatchSetStatus.failed;
            base_sha = none;
            validation_errors = some (some v.errors);
          })
          deps.now
        >> return (
            stop (
              blocked_with deps patch_not_validated 409 "Patch failed re-validation before apply."
                (some set.id) (some v.errors)))

  abbrev pub reparsed : PatchSetRecord → Result PatchArtifact → HubAction (Gate PatchArtifact)
  reparsed set (err m) =
      blocked deps patch_not_validated 409 ("Patch re-parse failed: " ++ m) (some set.id)
  reparsed set (ok patch) = revalidated set patch

  abbrev pub reparse_text : PatchSetRecord → Option String → HubAction (Gate PatchArtifact)
  reparse_text set none =
      blocked deps patch_not_validated 409 "Patch artifact text unavailable for apply."
        (some set.id)
  reparse_text set (some text) =
      if is_empty text
      then blocked deps patch_not_validated 409 "Patch artifact text unavailable for apply."
          (some set.id)
      else reparsed set (deps.parse_patch text)

  -- 10) The patch, parsed and validated again if it was not just now.
  unfoldable pub reparse : PatchSetRecord → Option PatchArtifact → HubAction (Gate PatchArtifact)
  reparse set (some patch) = return (go patch)
  reparse set none = reparse_text set deps.patch_artifact_text
