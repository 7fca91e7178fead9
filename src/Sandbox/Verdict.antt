-- ===== src/Sandbox/Verdict.antt =====
-- What a sandbox verdict means, on every way through `runSandboxJob`.
use mathlib.Core.Path.{subst}
use botchatgptclaude.Prelude.{
  String, ◌≡◌, sym, ◌∙◌, ◌⊎◌, inl, inr, Bool, true, false, some, arith, All, Result, ok, err,
  Bool-cases,
}
use botchatgptclaude.Job.{passed, is_passed, is_test_patch}
use botchatgptclaude.Command.{Host, resolve_executable}
use botchatgptclaude.Command.Argv.{IsSafeArgv}
use botchatgptclaude.Sandbox.{
  Outside, Progress, RunSandboxInput, RunSandboxResult, patch_step, commands_step, start_progress,
  finish, in_workspace, unless_cancelled, run_sandbox_job,
}
use botchatgptclaude.Sandbox.Rounds.{IsAllowed, IsGreen, commands_of, Ran, run_loop_passed}
use botchatgptclaude.Sandbox.Frames.{
  AllSafe, run_loop-AllSafe, patch_step-started, run_loop-workspace_dir, WasApplied, SkipsPatch,
  patch_by_passed,
}

module _ (input : RunSandboxInput) (world : Outside) where
  -- What a job that ended in `passed` has behind it.
  pub record Passed (out : RunSandboxResult) : Type 0 where
    pub ran_all : commands_of out.result.commands ≡ input.commands
    pub all_green : All IsGreen out.result.commands
    pub started_all : out.started ≡ input.commands
    pub all_allowed : All IsAllowed input.commands
    pub reported : out.result.passed ≡ true
    pub patched :
        is_test_patch input.job_type ≡ true
        → (out.result.patch_applied ≡ some true) ⊎ SkipsPatch world input

  commands_step_passed :
      (p : Progress)
      → (commands_step world input p).status ≡ passed
      → (p.status ≡ passed) × Ran world input.commands p (commands_step world input p)
  unfolding commands_step
  commands_step_passed p e = elim (Bool-cases (is_passed p.status)) [
    | inl go ↦ (ground arith, rw go (run_loop_passed world 0 input.commands p (rw go at e)))
    | inr stop ↦ absurd (ground arith)
  ]

  patch_step_passed :
      (p : Progress)
      → is_test_patch input.job_type ≡ true
      → (patch_step world input p).status ≡ passed
      → WasApplied world (patch_step world input p) ⊎ SkipsPatch world input
  unfolding patch_step
  patch_step_passed p t e = rw t (patch_by_passed world input p input.patch_set_id (rw t at e))

  finished :
      (dir : String)
      → let p = record start_progress { workspace_dir = some dir } in
        (commands_step world input (patch_step world input p)).status ≡ passed
        → Passed (finish world input (commands_step world input (patch_step world input p)))
  unfolding finish
  finished dir e =
      let p : Progress = record start_progress { workspace_dir = some dir } in
      let p1 : Progress = patch_step world input p in
      let (status, r) = commands_step_passed p1 e in
      let (no_start, _, no_outcome) = patch_step-started world input p in
      record {
        ran_all = rw (r.recorded, no_outcome) r.in_order;
        all_green = rw (r.recorded, no_outcome) r.green;
        started_all = rw (r.started, no_start);
        all_allowed = r.allowed;
        reported = rw e;
        patched = λ t. elim (patch_step_passed p t status) [
          | inl (ar, found, whole) ↦ inl (rw (t, r.applied, found) (rw whole))
          | inr skips ↦ inr skips
        ];
      }

  in_workspace_passed :
      (dir : Result String)
      → (in_workspace world input dir).status ≡ passed
      → Passed (in_workspace world input dir)
  in_workspace_passed (err m) e = absurd (unfold finish in cc)
  in_workspace_passed (ok dir) e = finished dir (unfold finish in e)

  unless_cancelled_passed :
      (r : Result Bool)
      → (unless_cancelled world input r).status ≡ passed
      → Passed (unless_cancelled world input r)
  unless_cancelled_passed (err m) e = absurd (unfold finish in cc)
  unless_cancelled_passed (ok true) e = absurd (unfold run_sandbox_job in cc)
  unless_cancelled_passed (ok false) e = in_workspace_passed world.prepare e

  -- A job that ends in `passed` has started exactly its commands, in order; each was allowed, ended
  -- by itself with exit code 0 and is reported so; and the patch of a patch job was applied, unless
  -- the job asked to skip it outside production.
  pub run_sandbox_job_passed :
      (run_sandbox_job input world).status ≡ passed → Passed (run_sandbox_job input world)
  run_sandbox_job_passed e =
      unfold run_sandbox_job in unless_cancelled_passed (world.cancelled_at 0) e

  module _ (host : Host) where
    commands_step-AllSafe :
        (p : Progress)
        → AllSafe world host p.started
        → AllSafe world host (commands_step world input p).started
    unfolding commands_step
    commands_step-AllSafe p h = elim (Bool-cases (is_passed p.status)) [
      | inl go ↦ rw go (run_loop-AllSafe world host 0 input.commands p h)
      | inr stop ↦ rw stop h
    ]

    in_workspace-AllSafe :
        (dir : Result String) → AllSafe world host (in_workspace world input dir).started
    unfolding finish
    in_workspace-AllSafe (err m) = tt
    in_workspace-AllSafe (ok dir) =
        let p : Progress = record start_progress { workspace_dir = some dir } in
        commands_step-AllSafe (patch_step world input p)
          (rw (patch_step-started world input p).0 tt)

    unless_cancelled-AllSafe :
        (r : Result Bool) → AllSafe world host (unless_cancelled world input r).started
    unfolding run_sandbox_job
    unless_cancelled-AllSafe (err m) = unfold finish in tt
    unless_cancelled-AllSafe (ok true) = tt
    unless_cancelled-AllSafe (ok false) = in_workspace-AllSafe world.prepare

    -- Whatever happens, each command that was started runs, on every host, as one of the five
    -- argument vectors: git with diff, or npm with one of four lists of arguments, which on Windows is
    -- a script of the running node.
    pub run_sandbox_job-AllSafe :
        All (λ c. IsSafeArgv host (resolve_executable host c)) (run_sandbox_job input world).started
    run_sandbox_job-AllSafe =
        unfold run_sandbox_job in unless_cancelled-AllSafe (world.cancelled_at 0)

  commands_step-workspace_dir :
      (p : Progress) → (commands_step world input p).workspace_dir ≡ p.workspace_dir
  unfolding commands_step
  commands_step-workspace_dir p = elim (Bool-cases (is_passed p.status)) [
    | inl go ↦ rw go (run_loop-workspace_dir world 0 input.commands p)
    | inr stop ↦ rw stop
  ]

  -- Once the workspace is prepared it is handed to the clean-up, whatever happens after.
  pub run_sandbox_job-cleaned :
      (dir : String)
      → world.cancelled_at 0 ≡ ok false
      → world.prepare ≡ ok dir
      → (run_sandbox_job input world).cleaned ≡ some dir
  unfolding run_sandbox_job finish
  run_sandbox_job-cleaned dir c e =
      let p : Progress = record start_progress { workspace_dir = some dir } in
      subst (λ r. (unless_cancelled world input r).cleaned ≡ some dir) (sym c)
        (subst (λ d. (in_workspace world input d).cleaned ≡ some dir) (sym e)
          (commands_step-workspace_dir (patch_step world input p)
            ∙ (patch_step-started world input p).1))
