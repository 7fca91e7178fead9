-- ===== src/Orchestrator/Verdict.antt =====
-- What a call of the workflow leaves behind, whatever its models and its test executor answer.
use botchatgptclaude.Prelude.{
  ℕ, zero, suc, ◌+◌, ◌≤◌, String, ◌≡◌, refl, some, arith, Result, ok, err, ◌∙◌, eq_refl, true,
}
use botchatgptclaude.Table.{IsFresh, find-append}
use botchatgptclaude.Agent.{
  gpt_product_spec, claude_critical_review, gpt_implementation_plan, spec, plan, review,
  artifact_text,
}
use botchatgptclaude.Store
use botchatgptclaude.Store.{
  SessionRecord, SessionStatus, Store, Action, ◌>>=◌, ◌>>◌, return, bind_then,
}
use botchatgptclaude.Session.{
  session_key, get_session, patch_session, update_session, create_session, new_session,
}
use botchatgptclaude.Orchestration.Cells.{update_session-ok, get_session-update}
use botchatgptclaude.Orchestrator.{
  Options, OrchestratorResult, RoundEnd, broke, again, last_session, max_rounds, one_round,
  next_round, rounds, revise, plan_and_revise, review_spec, run,
}
use botchatgptclaude.Orchestrator.Round.{
  Verified, is_settled, Threw, IsExecutor, HasSession, Played, run_step_then, one_round-Played,
}

module _ (opts : Options) (now : ℕ) (keeps : IsExecutor opts) (sid : String) where
  -- How the loop ends: settled within `most` rounds, and passed only with a verified last round.
  abbrev Ends : ℕ → Store → Result (SessionStatus × ℕ) → Type 0
  Ends most s (ok (status, round)) =
      HasSession opts sid s
      × (is_settled status ≡ true)
      × (round ≤ most)
      × (status ≡ Store.SessionStatus.passed → Verified sid round s.messages)
  Ends most s (err m) = Threw opts m

  -- What follows a pass of the loop, by what the rest of the loop does.
  next_round-Ends :
      (round most : ℕ) (go : String → Action (SessionStatus × ℕ)) (s : Store) (ended : RoundEnd)
      → round ≤ most
      → ((last : String) (s' : Store)
          → HasSession opts sid s'
          → Ends most (go last s').0 (go last s').1)
      → Played opts sid round s (ok ended)
      → Ends most (next_round opts now round go ended s).0 (next_round opts now round go ended s).1
  next_round-Ends round most go s (broke status) room rest (has, settled, earned) =
      (has, settled, room, earned)
  next_round-Ends round most go s (again last) room rest has = rest last s has

  rounds-Ends :
      (plan_text critique_text last_review : String) (left round most : ℕ) (s : Store)
      → round + left ≤ most
      → HasSession opts sid s
      → Ends most
          (rounds opts now sid plan_text critique_text left round last_review
            Store.SessionStatus.needs_revision s).0
          (rounds opts now sid plan_text critique_text left round last_review
            Store.SessionStatus.needs_revision s).1
  unfolding rounds
  rounds-Ends plan_text critique_text last_review zero round most s room has =
      (has, refl, omega (arith, room), λ p. cc p)
  rounds-Ends plan_text critique_text last_review (suc left) round most s room has =
      bind_then (one_round opts now sid plan_text critique_text (suc round) last_review)
        (next_round opts now (suc round) (λ last.
          rounds opts now sid plan_text critique_text left (suc round) last
            Store.SessionStatus.needs_revision))
        (Played opts sid (suc round)) (Ends most) s
        (one_round-Played opts sid now keeps (suc round) plan_text critique_text last_review s has)
        (λ s' ended. next_round-Ends (suc round) most _ s' ended (omega (arith, room)) (λ last t.
          rounds-Ends plan_text critique_text last left (suc round) most t (omega (arith, room))))
        (λ s' m threw. threw)

  -- The answer of the workflow, and what it has stored.
  pub record Concluded (s : Store) (r : OrchestratorResult) : Type 0 where
    pub same_session : r.session_id ≡ sid
    pub settled : is_settled r.status ≡ true
    pub bounded : r.rounds ≤ 3
    pub session : SessionRecord
    pub stored : get_session sid s.sessions ≡ some session
    pub status_stored : session.status ≡ r.status
    pub rounds_stored : session.rounds ≡ r.rounds
    pub earned : r.status ≡ Store.SessionStatus.passed → Verified sid r.rounds s.messages

  abbrev pub Settles : Store → Result OrchestratorResult → Type 0
  Settles s (ok r) = Concluded s r
  Settles s (err m) = Threw opts m

  at_most_three : max_rounds opts now ≤ 3
  unfolding max_rounds
  at_most_three = ground arith

  revise-Settles :
      (plan_text critique_text : String) (s : Store)
      → HasSession opts sid s
      → Settles
          (revise opts now sid plan_text critique_text s).0
          (revise opts now sid plan_text critique_text s).1
  unfolding revise patch_session
  revise-Settles plan_text critique_text s has =
      bind_then
        (rounds opts now sid plan_text critique_text (max_rounds opts now) 0 ""
          Store.SessionStatus.needs_revision)
        (λ ended.
          update_session sid (last_session ended.0 ended.1) now
          >> return (record { session_id = sid; status = ended.0; rounds = ended.1 }))
        (Ends 3) Settles s
        (rounds-Ends plan_text critique_text "" (max_rounds opts now) 0 3 s
          (omega (arith, at_most_three)) has)
        (λ s' ended ((x, there), settled, few, earned).
          rw (update_session-ok sid (last_session ended.0 ended.1) now s' there) (record {
            same_session = refl;
            settled = settled;
            bounded = few;
            session = _;
            stored = get_session-update sid (last_session ended.0 ended.1) now s'.sessions there;
            status_stored = refl;
            rounds_stored = refl;
            earned = earned;
          }))
        (λ s' m threw. threw)

  created :
      (user_request : String) (s : Store)
      → IsFresh session_key sid s.sessions
      → HasSession opts sid (create_session sid now user_request opts.user_id s).0
  unfolding create_session get_session
  created user_request s fresh =
      let x = new_session sid now user_request opts.user_id in
      (x, find-append session_key sid s.sessions x fresh ∙ rw eq_refl refl)

  plan_and_revise-Settles :
      (spec_text critique_text : String) (s : Store)
      → HasSession opts sid s
      → Settles
          (plan_and_revise opts now sid spec_text critique_text s).0
          (plan_and_revise opts now sid spec_text critique_text s).1
  unfolding plan_and_revise
  plan_and_revise-Settles spec_text critique_text s has =
      run_step_then opts sid now gpt_implementation_plan 0 _ _
        (λ planned. revise opts now sid (artifact_text planned plan) critique_text) Settles s
        (λ planned s' same more. revise-Settles _ critique_text s' (rw same has)) (λ m threw. threw)

  review_spec-Settles :
      (user_request spec_text : String) (s : Store)
      → HasSession opts sid s
      → Settles
          (review_spec opts now sid user_request spec_text s).0
          (review_spec opts now sid user_request spec_text s).1
  unfolding review_spec
  review_spec-Settles user_request spec_text s has =
      run_step_then opts sid now claude_critical_review 0 _ _
        (λ critique. plan_and_revise opts now sid spec_text (artifact_text critique review)) Settles
        s (λ critique s' same more. plan_and_revise-Settles spec_text _ s' (rw same has))
        (λ m threw. threw)

  -- The workflow on a fresh session id, with a test executor that leaves the sessions and the
  -- messages alone: it settles the session within three rounds, stores the status and the rounds
  -- that it answers, and answers `passed` only when the tests of its last round have passed and the
  -- judge has passed it; or a model or the test executor has thrown what it throws.
  pub run-Settles :
      (user_request : String) (s : Store)
      → IsFresh session_key sid s.sessions
      → Settles (run opts now sid user_request s).0 (run opts now sid user_request s).1
  unfolding run create_session
  run-Settles user_request s fresh =
      run_step_then opts sid now gpt_product_spec 0 _ _
        (λ specified. review_spec opts now sid user_request (artifact_text specified spec)) Settles
        (create_session sid now user_request opts.user_id s).0
        (λ specified s' same more.
          review_spec-Settles user_request _ s' (rw same (created user_request s fresh)))
        (λ m threw. threw)
