-- ===== src/Orchestrator/Round.antt =====
-- One pass of the revision loop, whatever the models and the test executor answer.
use mathlib.Core.List.{Memᴰ}
use mathlib.Core.List.Memᴰ
use botchatgptclaude.Prelude.{
  ℕ, String, ◌≡◌, refl, sym, Bool, true, false, some, List, [], ◌∷◌, ◌++◌, arith, length, Result,
  ok, err, Bool-cases, Result-cases, inl, inr, ◌⊎◌,
}
use botchatgptclaude.Table.{update}
use botchatgptclaude.Agent.{
  AgentOutput, AgentStatus, pass, fail, needs_revision, StepName, Provider, claude_code_implementer,
  gpt_code_reviewer, qa_judge, test_runner, system, openai, review, artifact_text, patch,
  step_provider, mock,
}
use botchatgptclaude.Scan.{scan_content, has_blocking_violation, is_fatal}
use botchatgptclaude.Report.{CommandResult, TestStepResult}
use botchatgptclaude.Store
use botchatgptclaude.Store.{
  SessionRecord, SessionStatus, MessageRecord, Store, Action, ◌>>=◌, ◌>>◌, return, add_message,
  add_run, bind_then,
}
use botchatgptclaude.Session.{session_key, get_session, patch_session}
use botchatgptclaude.Orchestration.Cells.{update_session-ok, get_session-update}
use botchatgptclaude.Orchestrator.{
  Options, RoundEnd, broke, again, round_end, guard_verdict, round_session, run_step,
  record_results, judge, review_tests, scan_and_test, one_round, test_message,
}

-- A message with these marks is stored.
abbrev pub Logged : String → StepName → Provider → ℕ → AgentStatus → List MessageRecord → Type 0
Logged sid step provider round status messages =
    (m : MessageRecord) × Memᴰ m messages
    × (m.session_id ≡ sid)
    × (m.step ≡ step)
    × (m.provider ≡ provider)
    × (m.round ≡ round)
    × (m.output.status ≡ status)

Logged-append :
    (sid : String) (step : StepName) (provider : Provider) (round : ℕ) (status : AgentStatus)
    (xs ys : List MessageRecord)
    → Logged sid step provider round status xs
    → Logged sid step provider round status (xs ++ ys)
Logged-append sid step provider round status xs ys (m, there, a, b, c, d, e) =
    (m, Memᴰ.append_left ys there, a, b, c, d, e)

-- The tests of a round have passed, and the judge has passed it.
pub record Verified (sid : String) (round : ℕ) (messages : List MessageRecord) : Type 0 where
  pub green : Logged sid test_runner system round pass messages
  pub judged : Logged sid qa_judge openai round pass messages

abbrev pub is_settled : SessionStatus → Bool
is_settled Store.SessionStatus.passed = true
is_settled Store.SessionStatus.failed = true
is_settled Store.SessionStatus.needs_revision = true
is_settled _ = false

module _ (opts : Options) where
  -- A model or the test executor has thrown the error.
  abbrev pub Threw : String → Type 0
  Threw m =
      ((n : ℕ) × (step : StepName) × (content : String) × (mock_output : AgentOutput)
        × (opts.complete n step content mock_output ≡ err m))
      ⊎ ((sid : String) × (round : ℕ) × (s : Store) × ((opts.test_executor sid round s).1 ≡ err m))

  -- A test executor leaves the sessions and the messages alone.
  abbrev pub IsExecutor : Type 0
  IsExecutor =
      (sid : String) (round : ℕ) (s : Store)
      → ((opts.test_executor sid round s).0.sessions ≡ s.sessions)
        × ((opts.test_executor sid round s).0.messages ≡ s.messages)

  module _ (sid : String) where
    abbrev pub HasSession : Store → Type 0
    HasSession s = (x : SessionRecord) × (get_session sid s.sessions ≡ some x)

    -- How a pass of the loop leaves the store.
    abbrev pub Played : ℕ → Store → Result RoundEnd → Type 0
    Played round s (ok (broke status)) =
        HasSession s
        × (is_settled status ≡ true)
        × (status ≡ Store.SessionStatus.passed → Verified sid round s.messages)
    Played round s (ok (again text)) = HasSession s
    Played round s (err m) = Threw m

    module _ (now : ℕ) where
      pub run_step_then :
          {B : Type 0} (step : StepName) (round : ℕ) (content : String) (mock_output : AgentOutput)
          (f : AgentOutput → Action B) (Q : Store → Result B → Type 0) (s : Store)
          → ((out : AgentOutput) (s' : Store)
              → s'.sessions ≡ s.sessions
              → s'.messages
                ≡ s.messages
                  ++ (record {
                    session_id = sid;
                    step = step;
                    provider = step_provider step;
                    round = round;
                    output = out;
                  })
                    ∷ []
              → Q (f out s').0 (f out s').1)
          → ((m : String) → Threw m → Q s (err m))
          → Q
              ((run_step opts now sid step round content mock_output >>= f) s).0
              ((run_step opts now sid step round content mock_output >>= f) s).1
      unfolding run_step add_message
      run_step_then step round content mock_output f Q s on_ok on_err =
          elim (Result-cases (opts.complete (length s.messages) step content mock_output)) [
            | inl (out, e) ↦ rw e (on_ok out _ refl refl)
            | inr (m, e) ↦ rw e (on_err m (inl (_, _, _, _, e)))
          ]

      round_end-Played :
          (verdict : AgentStatus) (text : String) (round : ℕ) (s : Store)
          → HasSession s
          → (verdict ≡ pass → Verified sid round s.messages)
          → Played round s (ok (round_end verdict text))
      unfolding round_end
      round_end-Played pass text round s has earned = (has, refl, λ _. earned refl)
      round_end-Played fail text round s has earned = (has, refl, λ p. cc p)
      round_end-Played needs_revision text round s has earned = has

      guarded :
          (green : Bool) (v : AgentStatus)
          → guard_verdict green v ≡ pass
          → (green ≡ true) × (v ≡ pass)
      unfolding guard_verdict
      guarded green v e = ground arith

      module _ (tested : TestStepResult) (round : ℕ) where
        judge-Played :
            (reviewed : AgentOutput) (s : Store)
            → HasSession s
            → (tested.report.passed ≡ true → Logged sid test_runner system round pass s.messages)
            → Played round
                (judge opts now sid round tested reviewed s).0
                (judge opts now sid round tested reviewed s).1
        unfolding judge step_provider
        judge-Played reviewed s has green =
            run_step_then qa_judge round _ _
              (λ judged. return (
                round_end (guard_verdict tested.report.passed judged.status)
                  (artifact_text reviewed review)))
              (Played round) s
              (λ judged s' same_sessions more.
                round_end-Played _ _ round s' (rw same_sessions has) (λ passed.
                  let (is_green, is_pass) = guarded tested.report.passed judged.status passed in
                  rw more (record {
                    green =
                        Logged-append sid test_runner system round pass s.messages _
                          (green is_green);
                    judged = (
                      _,
                      Memᴰ.append_right s.messages (Memᴰ.head refl),
                      refl,
                      refl,
                      refl,
                      refl,
                      is_pass,
                    );
                  })))
              (λ m threw. threw)

        record_results_then :
            {B : Type 0} (rs : List CommandResult) (f : Unit → Action B)
            (Q : Store → Result B → Type 0) (s : Store)
            → ((s' : Store)
                → s'.sessions ≡ s.sessions
                → s'.messages ≡ s.messages
                → Q (f tt s').0 (f tt s').1)
            → Q
                ((record_results opts now sid rs >>= f) s).0
                ((record_results opts now sid rs >>= f) s).1
        unfolding record_results add_run
        record_results_then [] f Q s k = k s refl refl
        record_results_then (r ∷ rs) f Q s k = record_results_then rs f Q _ (λ s' a b. k s' a b)

        green_message : tested.report.passed ≡ true → (test_message tested).status ≡ pass
        unfolding mock
        green_message e = rw e refl

        review_tests-Played :
            (patch_text : String) (s : Store)
            → HasSession s
            → Played round
                (review_tests opts now sid round patch_text tested s).0
                (review_tests opts now sid round patch_text tested s).1
        unfolding review_tests add_message
        review_tests-Played patch_text s has =
            record_results_then tested.report.results
              (λ _.
                add_message sid test_runner system round (test_message tested)
                >> (run_step opts now sid gpt_code_reviewer round _ _
                    >>= judge opts now sid round tested))
              (Played round) s
              (λ s' same_sessions same_messages.
                run_step_then gpt_code_reviewer round _ _ (judge opts now sid round tested)
                  (Played round)
                  (add_message sid test_runner system round (test_message tested) s').0
                  (λ reviewed t same_sessions' more.
                    judge-Played reviewed t (rw (same_sessions', same_sessions) has) (λ is_green.
                      rw more (
                        Logged-append sid test_runner system round pass (s'.messages ++ _ ∷ []) _ (
                          _,
                          Memᴰ.append_right s'.messages (Memᴰ.head refl),
                          refl,
                          refl,
                          refl,
                          refl,
                          green_message is_green,
                        ))))
                  (λ m threw. threw))

      module _ (keeps : IsExecutor) (round : ℕ) where
        scan_and_test-Played :
            (patch_text : String) (s : Store)
            → HasSession s
            → Played round
                (scan_and_test opts now sid round patch_text s).0
                (scan_and_test opts now sid round patch_text s).1
        unfolding scan_and_test add_message
        scan_and_test-Played patch_text s has =
            let found = scan_content opts.found opts.human_approved patch_text in
            elim (Bool-cases (has_blocking_violation found)) [
              | inl dirty ↦ rw dirty (elim (Bool-cases (is_fatal found)) [
                | inl fatal ↦ rw fatal (has, refl, λ p. cc p)
                | inr soft ↦ rw soft (has, refl, λ p. cc p)
              ])
              | inr clean ↦ rw clean (
                  bind_then (opts.test_executor sid round)
                    (λ tested. review_tests opts now sid round patch_text tested)
                    (λ s' r. (s'.sessions ≡ s.sessions) × (r ≡ (opts.test_executor sid round s).1))
                    (Played round) s ((keeps sid round s).0, refl)
                    (λ s' tested h. review_tests-Played tested round patch_text s' (rw h.0 has))
                    (λ s' m h. inr (sid, round, s, sym h.1)))
            ]

        -- A pass of the loop on a stored session.
        pub one_round-Played :
            (plan_text critique_text last_review : String) (s : Store)
            → HasSession s
            → Played round
                (one_round opts now sid plan_text critique_text round last_review s).0
                (one_round opts now sid plan_text critique_text round last_review s).1
        unfolding one_round
        one_round-Played plan_text critique_text last_review s (x, has) =
            rw (update_session-ok sid (round_session round) now s has) (
              run_step_then claude_code_implementer round _ _
                (λ patched. scan_and_test opts now sid round (artifact_text patched patch))
                (Played round)
                (record s {
                  sessions =
                      update session_key sid (patch_session (round_session round) now) s.sessions;
                })
                (λ patched s' same_sessions more. scan_and_test-Played _ s' (
                  rw same_sessions
                    (_, get_session-update sid (round_session round) now s.sessions has)))
                (λ m threw. threw))
