-- ===== src/Sandbox/Frames.antt =====
-- What holds on every way through the sandbox runner: the commands that are started, the workspace,
-- and the patch step.
use botchatgptclaude.Prelude.{
  ℕ, suc, String, ◌≡◌, refl, ◌⊎◌, inl, inr, Bool, true, false, Option, none, some, List, [], ◌∷◌,
  ◌++◌, arith, All, All-append, Result, ok, err, Bool-cases, ◌==◌,
}
use botchatgptclaude.Job.{passed}
use botchatgptclaude.Command.{Host, CommandRunResult, validate_worker_command, resolve_executable}
use botchatgptclaude.Command.Argv.{IsSafeArgv, allowed_argv}
use botchatgptclaude.Config.{is_production_env}
use botchatgptclaude.Sandbox.{
  Outside, Progress, RunSandboxInput, ApplyPatchResult, after_command, ran, checked, run_loop,
  applied_result, apply_with, patch_by, patch_step, thrown,
}

module _ (world : Outside) where
  module _ (host : Host) where
    abbrev pub AllSafe : List String → Type 0
    AllSafe = All (λ c. IsSafeArgv host (resolve_executable host c))

    ran-AllSafe :
        (rest : Progress → Progress) (command : String) (p : Progress) (r : Result CommandRunResult)
        → ((q : Progress) → AllSafe q.started → AllSafe (rest q).started)
        → AllSafe (p.started ++ command ∷ [])
        → AllSafe (ran world rest command p r).started
    ran-AllSafe rest command p (err m) later h = h
    ran-AllSafe rest command p (ok res) later h = elim (Bool-cases (after_command res).1) [
      | inl go ↦ rw go (later _ h)
      | inr stop ↦ rw stop h
    ]

    checked-AllSafe :
        (rest : Progress → Progress) (n : ℕ) (command : String) (p : Progress) (r : Result Bool)
        → ((q : Progress) → AllSafe q.started → AllSafe (rest q).started)
        → AllSafe p.started
        → AllSafe (checked world rest n command p r).started
    checked-AllSafe rest n command p (err m) later h = unfold thrown in h
    checked-AllSafe rest n command p (ok true) later h = h
    checked-AllSafe rest n command p (ok false) later h =
        elim (Bool-cases (validate_worker_command command).allowed) [
          | inl a ↦ rw a (
              ran-AllSafe rest command p (world.run_command n command) later (
                All-append (λ c. IsSafeArgv host (resolve_executable host c)) p.started
                  (command ∷ []) h (allowed_argv host command a, tt)))
          | inr b ↦ rw b h
        ]

    pub run_loop-AllSafe :
        (n : ℕ) (commands : List String) (p : Progress)
        → AllSafe p.started
        → AllSafe (run_loop world n commands p).started
    unfolding run_loop
    run_loop-AllSafe n [] p h = h
    run_loop-AllSafe n (command ∷ rest) p h =
        checked-AllSafe (run_loop world (suc n) rest) n command p (world.cancelled_at (suc n))
          (run_loop-AllSafe (suc n) rest) h

  -- The patch step starts no command and keeps the workspace.
  pub patch_step-started :
      (input : RunSandboxInput) (p : Progress)
      → ((patch_step world input p).started ≡ p.started)
        × ((patch_step world input p).workspace_dir ≡ p.workspace_dir)
        × ((patch_step world input p).outcomes ≡ p.outcomes)
  unfolding patch_step
  patch_step-started input p = ground arith

  ran-workspace_dir :
      (rest : Progress → Progress) (command : String) (p : Progress) (r : Result CommandRunResult)
      → ((q : Progress) → (rest q).workspace_dir ≡ q.workspace_dir)
      → (ran world rest command p r).workspace_dir ≡ p.workspace_dir
  ran-workspace_dir rest command p (err m) later = refl
  ran-workspace_dir rest command p (ok res) later = elim (Bool-cases (after_command res).1) [
    | inl go ↦ rw go (later _)
    | inr stop ↦ rw stop
  ]

  checked-workspace_dir :
      (rest : Progress → Progress) (n : ℕ) (command : String) (p : Progress) (r : Result Bool)
      → ((q : Progress) → (rest q).workspace_dir ≡ q.workspace_dir)
      → (checked world rest n command p r).workspace_dir ≡ p.workspace_dir
  checked-workspace_dir rest n command p (err m) later = unfold thrown in refl
  checked-workspace_dir rest n command p (ok true) later = refl
  checked-workspace_dir rest n command p (ok false) later =
      elim (Bool-cases (validate_worker_command command).allowed) [
        | inl a ↦ rw a (ran-workspace_dir rest command p (world.run_command n command) later)
        | inr b ↦ rw b
      ]

  pub run_loop-workspace_dir :
      (n : ℕ) (commands : List String) (p : Progress)
      → (run_loop world n commands p).workspace_dir ≡ p.workspace_dir
  unfolding run_loop
  run_loop-workspace_dir n [] p = refl
  run_loop-workspace_dir n (command ∷ rest) p =
      checked-workspace_dir (run_loop world (suc n) rest) n command p (world.cancelled_at (suc n))
        (run_loop-workspace_dir (suc n) rest)

  -- The applier reported that the whole patch set is in the workspace.
  abbrev pub WasApplied : Progress → Type 0
  WasApplied p = (ar : ApplyPatchResult) × (p.applied ≡ some ar) × (ar.patch_applied ≡ true)

  applied_result_passed :
      (p : Progress) (r : Result ApplyPatchResult)
      → (applied_result world p r).status ≡ passed
      → WasApplied (applied_result world p r)
  applied_result_passed p (err m) e = cc
  applied_result_passed p (ok ar) e = elim (Bool-cases ar.patch_applied) [
    | inl h ↦ (ar, rw h, h)
    | inr h ↦ absurd (ground arith)
  ]

  apply_with_passed :
      (p : Progress) (psid : String) (a : Option (String → Result ApplyPatchResult))
      → (apply_with world p psid a).status ≡ passed
      → WasApplied (apply_with world p psid a)
  apply_with_passed p psid none e = cc
  apply_with_passed p psid (some apply) e = applied_result_passed p (apply psid) e

  -- The debugging escape hatch, which production refuses.
  abbrev pub SkipsPatch : RunSandboxInput → Type 0
  SkipsPatch input = (input.apply_patch ≡ false) × (is_production_env world.env ≡ false)

  pub patch_by_passed :
      (input : RunSandboxInput) (p : Progress) (o : Option String)
      → (patch_by world input p o).status ≡ passed
      → WasApplied (patch_by world input p o) ⊎ SkipsPatch input
  patch_by_passed input p none e = cc
  patch_by_passed input p (some psid) e = elim (Bool-cases (psid == "")) [
    | inl h ↦ absurd (ground arith)
    | inr h ↦ elim (Bool-cases input.apply_patch) [
      | inl on ↦ rw (h, on) (inl (apply_with_passed p psid world.apply_patch (rw (h, on) at e)))
      | inr off ↦ inr (off, ground arith)
    ]
  ]
