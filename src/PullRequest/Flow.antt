-- ===== src/PullRequest/Flow.antt =====
-- What the whole flow lets through.
use botchatgptclaude.Prelude.{
  ◌≡◌, refl, true, false, Option, List, Result, ok, err, Bool-cases, inl, inr, ◌⊎◌,
}
use botchatgptclaude.Effect.{◌>>=◌}
use botchatgptclaude.Hub.{PatchSetRecord, GithubClient, Hub, HubAction, Call}
use botchatgptclaude.Hub.Tables.{create_pull_request}
use botchatgptclaude.Patch.{PatchArtifact}
use botchatgptclaude.PullRequest.Gates.{
  Calls, Passes, gate_then, check_access-Passes, check_approval-Passes, IsPermitted, IsValid,
  IsLive, live_gates-Passes, reparse-Passes,
}
use botchatgptclaude.PullRequest.Resolved.{IsResolved, resolve_patch_set-Passes}
use botchatgptclaude.PullRequest.Tested.{IsTested, test_gate-Passes}
use botchatgptclaude.PullRequest.{PrFlowDeps, PrFlowResult, Gate, continue, is_approved, audit}
use botchatgptclaude.PullRequest.Steps.{
  check_access, resolve_patch_set, check_approval, dry_run_result, live_gates, reparse,
}
use botchatgptclaude.PullRequest.Publish.{publish, approved, create_pull_request_for_session}
use botchatgptclaude.PullRequest.TestGate.{Tests, test_gate}

module _ (deps : PrFlowDeps) where
  -- All gates were passed without a call, and what is left is `publish` with the patch, the patch
  -- set and the tests that passed them.
  pub record IsCleared (calls : Calls) (h : Hub) (r : Result PrFlowResult) : Type 0 where
    pub live_mode : deps.config.dry_run ≡ false
    pub permitted : IsPermitted deps
    pub approval : is_approved deps.session ≡ true
    pub open_gates : IsLive deps
    pub client : GithubClient
    pub patch : PatchArtifact
    pub valid : IsValid deps patch
    pub set : PatchSetRecord
    pub tests : Tests
    pub tested : IsTested deps set
    pub before : Hub
    pub uncalled : before.calls ≡ calls
    pub outcome : publish deps client set patch tests before ≡ (h, r)

  -- Nothing was called, and only a dry run is answered with success; or all gates were passed.
  abbrev pub IsGuarded : List Call → Hub → Result PrFlowResult → Type 0
  IsGuarded calls h (err m) = (h.calls ≡ calls) ⊎ IsCleared calls h (err m)
  IsGuarded calls h (ok r) =
      (h.calls ≡ calls) × (r.ok ≡ true → deps.config.dry_run ≡ true) ⊎ IsCleared calls h (ok r)

  cleared-IsGuarded :
      (calls : Calls) (h : Hub) (r : Result PrFlowResult)
      → IsCleared calls h r
      → IsGuarded calls h r
  cleared-IsGuarded calls h (ok r) c = inr c
  cleared-IsGuarded calls h (err m) c = inr c

  IsGuarded-then :
      {A : Type 0} (calls : Calls) (P : A → Type 0) (m : HubAction (Gate A))
      (f : A → HubAction PrFlowResult) (h : Hub)
      → Passes calls P (m h).0 (m h).1
      → ((h' : Hub) (a : A) → h'.calls ≡ calls → P a → IsGuarded calls (f a h').0 (f a h').1)
      → IsGuarded calls ((m >>= continue f) h).0 ((m >>= continue f) h).1
  IsGuarded-then calls P m f h passes goes =
      gate_then calls P (IsGuarded calls) m f h passes (λ h' m e. inl e)
        (λ h' r e bad. inl (e, λ good. cc (bad, good))) goes

  approved-IsGuarded :
      (calls : Calls) (set : PatchSetRecord) (o : Option PatchArtifact) (h : Hub)
      → h.calls ≡ calls
      → IsPermitted deps
      → is_approved deps.session ≡ true
      → IsResolved deps (set, o)
      → IsGuarded calls (approved deps set o tt h).0 (approved deps set o tt h).1
  unfolding dry_run_result audit create_pull_request
  approved-IsGuarded calls set o h same permitted agreed good =
      elim (Bool-cases deps.config.dry_run) [
        | inl dry ↦ simp dry (inl (same, λ _. refl))
        | inr live_mode ↦ simp live_mode (
            IsGuarded-then calls (λ (_ : GithubClient). IsLive deps) (live_gates deps set)
              (λ client.
                reparse deps set o
                >>= continue (λ p. test_gate deps set >>= continue (publish deps client set p)))
              h (rw (← same) (live_gates-Passes deps set h))
              (λ h1 client same1 gates.
                IsGuarded-then calls (IsValid deps) (reparse deps set o)
                  (λ p. test_gate deps set >>= continue (publish deps client set p)) h1
                  (rw (← same1) (reparse-Passes deps set o h1 good))
                  (λ h2 patch same2 valid.
                    IsGuarded-then calls (λ (_ : Tests). IsTested deps set) (test_gate deps set)
                      (publish deps client set patch) h2
                      (rw (← same2) (test_gate-Passes deps set h2))
                      (λ h3 tests same3 tested.
                        let out = publish deps client set patch tests h3 in
                        cleared-IsGuarded calls out.0 out.1 (record {
                          live_mode = live_mode;
                          permitted = permitted;
                          approval = agreed;
                          open_gates = gates;
                          patch = patch;
                          valid = valid;
                          set = set;
                          tested = tested;
                          client = client;
                          tests = tests;
                          before = h3;
                          uncalled = same3;
                          outcome = refl;
                        })))))
      ]

  -- A flow that has called GitHub, or has answered with success outside of a dry run, has passed
  -- every gate: the caller may open pull requests and reaches the session, the session was approved or
  -- has passed, the feature is on, the smoke test and the health are good, the patch is valid, and tests have
  -- passed, in a sandbox job of the patch set or inline outside of production; and the rest is
  -- `publish` of the valid patch.
  pub create_pull_request_for_session-IsGuarded :
      (h : Hub)
      → IsGuarded h.calls
          (create_pull_request_for_session deps h).0
          (create_pull_request_for_session deps h).1
  unfolding create_pull_request_for_session
  create_pull_request_for_session-IsGuarded h =
      IsGuarded-then h.calls (λ _. IsPermitted deps) (check_access deps)
        (λ _.
          resolve_patch_set deps
          >>= continue (λ r. check_approval deps r.0 >>= continue (approved deps r.0 r.1)))
        h (check_access-Passes deps h)
        (λ h1 _ same1 permitted.
          IsGuarded-then h.calls (IsResolved deps) (resolve_patch_set deps)
            (λ r. check_approval deps r.0 >>= continue (approved deps r.0 r.1)) h1
            (rw (← same1) (resolve_patch_set-Passes deps h1))
            (λ h2 r same2 good.
              IsGuarded-then h.calls (λ _. is_approved deps.session ≡ true)
                (check_approval deps r.0) (approved deps r.0 r.1) h2
                (rw (← same2) (check_approval-Passes deps r.0 h2))
                (λ h3 _ same3 agreed.
                  approved-IsGuarded h.calls r.0 r.1 h3 same3 permitted agreed good)))
