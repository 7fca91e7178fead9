-- ===== src/Sandbox/Rounds.antt =====
-- The loop over the commands of a sandbox job, when it ends in `passed`.
use mathlib.Core.List.{append_assoc, append-nil}
use botchatgptclaude.Prelude.{
  ℕ, suc, String, ◌≡◌, ◌≢◌, refl, sym, ap, ◌∙◌, inl, inr, Bool, true, false, ◌||◌, List, [], ◌∷◌,
  ◌++◌, map, arith, All, Result, ok, err, Bool-cases,
}
use botchatgptclaude.Job.{passed, CommandOutcome}
use botchatgptclaude.Command.{CommandRunResult, validate_worker_command}
use botchatgptclaude.Sandbox.{
  Outside, Progress, outcome_of, exit_zero, after_command, ran, checked, run_loop, thrown,
}

abbrev pub IsAllowed : String → Type 0
IsAllowed c = (validate_worker_command c).allowed ≡ true

-- The command ended by itself with exit code 0.
abbrev pub IsGreen : CommandOutcome → Type 0
IsGreen o = (o.timed_out ≡ false) × (exit_zero o.exit_code ≡ true)

abbrev pub commands_of : List CommandOutcome → List String
commands_of = map (λ o. o.command)

-- The loop goes on only after a green command, and stops with another status.
after_command_goes :
    (res : CommandRunResult)
    → (after_command res).1 ≡ true
    → (after_command res ≡ (passed, true))
      × (res.timed_out ≡ false)
      × (exit_zero res.exit_code ≡ true)
unfolding after_command
after_command_goes res h = ground arith

after_command_stops :
    (res : CommandRunResult) → (after_command res).1 ≡ false → (after_command res).0 ≢ passed
unfolding after_command
after_command_stops res h = ground arith

module _ (world : Outside) where
  -- The state after a green round.
  abbrev next : String → Progress → CommandRunResult → Progress
  next command p res = record p {
    status = passed;
    outcomes = p.outcomes ++ outcome_of command res ∷ [];
    cancelled_by_signal = p.cancelled_by_signal || res.aborted;
    started = p.started ++ command ∷ [];
  }

  record Round (rest : Progress → Progress) (command : String) (p q : Progress) : Type 0 where
    res : CommandRunResult
    allowed : IsAllowed command
    green : IsGreen (outcome_of command res)
    goes_on : q ≡ rest (next command p res)

  ran_passed :
      (rest : Progress → Progress) (command : String) (p : Progress) (r : Result CommandRunResult)
      → IsAllowed command
      → (ran world rest command p r).status ≡ passed
      → Round rest command p (ran world rest command p r)
  ran_passed rest command p (err m) a e = cc
  ran_passed rest command p (ok res) a e = elim (Bool-cases (after_command res).1) [
    | inl go ↦
        let (both, quick, zero) = after_command_goes res go in
        record {
          res = res;
          allowed = a;
          green = unfold outcome_of in (quick, zero);
          goes_on = rw both;
        }
    | inr stop ↦ absurd (after_command_stops res stop (rw stop at e))
  ]

  checked_passed :
      (rest : Progress → Progress) (n : ℕ) (command : String) (p : Progress) (r : Result Bool)
      → (checked world rest n command p r).status ≡ passed
      → Round rest command p (checked world rest n command p r)
  checked_passed rest n command p (err m) e = unfold thrown in cc
  checked_passed rest n command p (ok true) e = cc
  checked_passed rest n command p (ok false) e =
      elim (Bool-cases (validate_worker_command command).allowed) [
        | inl a ↦ rw a (ran_passed rest command p (world.run_command n command) a (rw a at e))
        | inr b ↦ absurd (ground arith)
      ]

  -- What a run of the loop that ends in `passed` has done to the variables.
  pub record Ran (commands : List String) (p q : Progress) : Type 0 where
    pub outcomes : List CommandOutcome
    pub recorded : q.outcomes ≡ p.outcomes ++ outcomes
    pub in_order : commands_of outcomes ≡ commands
    pub green : All IsGreen outcomes
    pub started : q.started ≡ p.started ++ commands
    pub applied : q.applied ≡ p.applied
    pub allowed : All IsAllowed commands

  pub run_loop_passed :
      (n : ℕ) (commands : List String) (p : Progress)
      → (run_loop world n commands p).status ≡ passed
      → Ran commands p (run_loop world n commands p)
  unfolding run_loop outcome_of
  run_loop_passed n [] p e = record {
    outcomes = [];
    recorded = sym (append-nil p.outcomes);
    in_order = refl;
    green = tt;
    started = sym (append-nil p.started);
    applied = refl;
    allowed = tt;
  }
  run_loop_passed n (command ∷ rest) p e =
      let r =
        checked_passed (run_loop world (suc n) rest) n command p (world.cancelled_at (suc n)) e in
      let q = next command p r.res in
      let more = run_loop_passed (suc n) rest q (rw r.goes_on at e) in
      record {
        outcomes = outcome_of command r.res ∷ more.outcomes;
        recorded = rw r.goes_on (more.recorded ∙ append_assoc p.outcomes _ _);
        in_order = ap (λ r. command ∷ r) more.in_order;
        green = (r.green, more.green);
        started = rw r.goes_on (more.started ∙ append_assoc p.started _ _);
        applied = rw r.goes_on more.applied;
        allowed = (r.allowed, more.allowed);
      }
