-- ===== src/TestRunner/Suite.antt =====
-- What a green report of the inline suite means.
use botchatgptclaude.Prelude.{
  ℕ, String, ◌≡◌, refl, Bool, true, ◌&&◌, Option, List, [], ◌∷◌, all, All, Bool-cases, inl, inr,
  ◌↔◌,
}
use botchatgptclaude.Text.{trim, trim_start, trim_end, collapse_from, space, starts_with, is_empty}
use botchatgptclaude.Command.{normalized}
use botchatgptclaude.Report.{CommandResult}
use botchatgptclaude.TestRunner.{
  SpawnResult, is_command_allowed, has_control, clamped_timeout, run_command, run_commands,
  run_test_suite, test_suite, is_zero,
}

module _ (spawn : String → ℕ → SpawnResult) (execute : Bool) (timeout_ms : Option ℕ) where
  abbrev is_good : CommandResult → Bool
  is_good r = r.allowed && is_zero spawn execute timeout_ms r.exit_code

  abbrev IsAllowed : String → Type 0
  IsAllowed c = (is_command_allowed c).allowed ≡ true

  -- The process of a command has ended with 0.
  abbrev pub HasExited : String → Type 0
  HasExited c =
      is_zero spawn execute timeout_ms
        (spawn c (clamped_timeout spawn execute timeout_ms)).exit_code
      ≡ true

  run_commands-green :
      (cmds : List String)
      → All IsAllowed cmds
      → execute ≡ true
      → all is_good (run_commands spawn execute timeout_ms cmds) ≡ true
      → All HasExited cmds
  unfolding run_commands run_command
  run_commands-green [] allowed on = λ green. tt
  run_commands-green (c ∷ cs) (here, rest) on =
      elim (Bool-cases (
        is_zero spawn execute timeout_ms
          (spawn c (clamped_timeout spawn execute timeout_ms)).exit_code)) [
            | inl zero ↦
                simp (here, on, zero) (λ green. (refl, run_commands-green cs rest on green))
            | inr bad ↦ simp (here, on, bad) (λ green. cc green)
          ]

  run_commands-exited :
      (cmds : List String)
      → All IsAllowed cmds
      → (execute ≡ true → All HasExited cmds)
      → all is_good (run_commands spawn execute timeout_ms cmds) ≡ true
  unfolding run_commands run_command
  run_commands-exited [] allowed k = refl
  run_commands-exited (c ∷ cs) (here, rest) k = elim (Bool-cases execute) [
    | inr off ↦ simp (here, off) (run_commands-exited cs rest (λ on. (k on).1))
    | inl on ↦ simp (here, on, (k on).0) (run_commands-exited cs rest (λ on. (k on).1))
  ]

  suite-IsAllowed : All IsAllowed (test_suite spawn execute timeout_ms)
  unfolding is_command_allowed normalized trim collapse_from has_control starts_with trim_start
      trim_end space is_empty
  suite-IsAllowed = (refl, (refl, (refl, tt)))

  -- The inline suite is green exactly when execution is off, which runs nothing, or each of its
  -- commands has ended with 0.
  pub run_test_suite_iff :
      ((run_test_suite spawn execute timeout_ms).passed ≡ true)
      ↔ (execute ≡ true → All HasExited (test_suite spawn execute timeout_ms))
  unfolding run_test_suite
  run_test_suite_iff = (
    λ green on. run_commands-green (test_suite spawn execute timeout_ms) suite-IsAllowed on green,
    run_commands-exited (test_suite spawn execute timeout_ms) suite-IsAllowed,
  )
