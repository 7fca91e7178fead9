-- ===== src/PullRequest/Tested.antt =====
-- What the test gate lets through.
use botchatgptclaude.Prelude.{
  ◌≡◌, refl, true, false, not, ◌&&◌, Option, none, some, arith, Bool-cases, Option-cases, inl, inr,
  ◌⊎◌,
}
use botchatgptclaude.Job.{WorkerJob, is_passed}
use botchatgptclaude.JobService.{find_latest_required}
use botchatgptclaude.Hub.{PatchSetRecord, Hub}
use botchatgptclaude.Hub.Tables.{get_patch_set, update_patch_set}
use botchatgptclaude.PullRequest.Gates.{Passes, Passes-mono}
use botchatgptclaude.PullRequest.{PrFlowDeps, audit}
use botchatgptclaude.PullRequest.TestGate.{
  Tests, patch_applied, base_hash_checked, drifted, has_failed, matches, inline_gate, passed_gate,
  job_gate, test_gate,
}

module _ (deps : PrFlowDeps) where
  inline_gate-Passes :
      (set : PatchSetRecord) (h : Hub)
      → Passes h.calls
          (λ (_ : Tests).
            (deps.is_production ≡ false)
            × (deps.config.execute_tests ≡ true)
            × (deps.run_tests.passed ≡ true))
          (inline_gate deps set h).0
          (inline_gate deps set h).1
  unfolding inline_gate update_patch_set audit
  inline_gate-Passes set h = elim (Bool-cases deps.is_production) [
    | inl live_env ↦ rw live_env (refl, refl)
    | inr local_env ↦ elim (Bool-cases deps.config.execute_tests) [
      | inr off ↦ simp (local_env, off) (refl, refl)
      | inl on ↦ elim (Bool-cases deps.run_tests.passed) [
        | inl green ↦ simp (local_env, on, green) (refl, (refl, refl, refl))
        | inr red ↦ elim (Option-cases (get_patch_set set.id h.patch_sets)) [
          | inl missing ↦ simp (local_env, on, red, missing) refl
          | inr (x, there) ↦ simp (local_env, on, red, there) (refl, refl)
        ]
      ]
    ]
  ]

  -- The latest sandbox job of the session has passed on this patch set, with the patch applied, and
  -- with the base hashes checked where that is asked for.
  abbrev pub HasJob : PatchSetRecord → Type 0
  HasJob set =
      (job : WorkerJob) × (find_latest_required deps.session.id deps.jobs ≡ some job)
      × (is_passed job.status ≡ true)
      × (matches job set ≡ true)
      × (patch_applied job.result ≡ true)
      × (deps.config.patch_hash_strict ≡ true → base_hash_checked job.result ≡ true)

  passed_gate-Passes :
      (set : PatchSetRecord) (job : WorkerJob) (h : Hub)
      → find_latest_required deps.session.id deps.jobs ≡ some job
      → is_passed job.status ≡ true
      → Passes h.calls
          (λ (_ : Tests). HasJob set)
          (passed_gate deps set job h).0
          (passed_gate deps set job h).1
  unfolding audit
  passed_gate-Passes set job h found passed = elim (Bool-cases (matches job set)) [
    | inr other ↦ simp other (refl, refl)
    | inl same ↦ elim (Bool-cases (patch_applied job.result)) [
      | inr bare ↦ simp (same, bare) (refl, refl)
      | inl applied ↦
          elim (Bool-cases (deps.config.patch_hash_strict && not (base_hash_checked job.result))) [
            | inl unchecked ↦ simp (same, applied, unchecked) (refl, refl)
            | inr checked ↦
                simp (same, applied, checked)
                  (
                    refl,
                    (job, found, passed, same, applied, λ strict. ground (arith, strict, checked)),
                  )
          ]
    ]
  ]

  job_gate-Passes :
      (set : PatchSetRecord) (o : Option WorkerJob) (h : Hub)
      → find_latest_required deps.session.id deps.jobs ≡ o
      → Passes h.calls
          (λ (_ : Tests). HasJob set)
          (job_gate deps set o h).0
          (job_gate deps set o h).1
  unfolding audit
  job_gate-Passes set none h found = (refl, refl)
  job_gate-Passes set (some job) h found = elim (Bool-cases (is_passed job.status)) [
    | inl passed ↦ simp passed (passed_gate-Passes set job h found passed)
    | inr unpassed ↦ elim (Bool-cases (has_failed job.status)) [
      | inr early ↦ simp (unpassed, early) (refl, refl)
      | inl late ↦ elim (Bool-cases (drifted job.result)) [
        | inl moved ↦ simp (unpassed, late, moved) (refl, refl)
        | inr still ↦ simp (unpassed, late, still) (refl, refl)
      ]
    ]
  ]

  -- The tests of the patch set: inline and outside of production, or a sandbox job.
  abbrev pub IsTested : PatchSetRecord → Type 0
  IsTested set =
      (deps.config.allow_inline_commands ≡ true)
        × (deps.is_production ≡ false)
        × (deps.config.execute_tests ≡ true)
        × (deps.run_tests.passed ≡ true)
      ⊎ (deps.config.allow_inline_commands ≡ false) × HasJob set

  pub test_gate-Passes :
      (set : PatchSetRecord) (h : Hub)
      → Passes h.calls
          (λ (_ : Tests). IsTested set)
          (test_gate deps set h).0
          (test_gate deps set h).1
  unfolding test_gate
  test_gate-Passes set h = elim (Bool-cases deps.config.allow_inline_commands) [
    | inl inline ↦ simp inline (
        Passes-mono h.calls _ _ (inline_gate deps set h).0 (inline_gate deps set h).1
          (λ _ t. inl (refl, t.0, t.1, t.2)) (inline_gate-Passes set h))
    | inr sandbox ↦ simp sandbox (
        let o = find_latest_required deps.session.id deps.jobs in
        Passes-mono h.calls _ _ (job_gate deps set o h).0 (job_gate deps set o h).1
          (λ _ t. inr (refl, t)) (job_gate-Passes set o h refl))
  ]
