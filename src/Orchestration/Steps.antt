-- ===== src/Orchestration/Steps.antt =====
-- A resume lock among the other calls on the table of runs, in the order in which the database of
-- lib/ai-orchestrator/db/repository.ts serves them.
use botchatgptclaude.Prelude.{
  ℕ, ◌≤◌, String, ◌≡◌, refl, true, false, none, some, Option, List, [], ◌∷◌, ◌++◌, arith, ◌==◌,
  eq_iff, ap, Bool-cases, Option-cases, inl, inr, ◌∙◌,
}
use botchatgptclaude.Table.{update, find, find-update, find-key}
use botchatgptclaude.Store.{OrchestrationRun}
use botchatgptclaude.Orchestration.{
  Runs, RunPatch, CreateArgs, run_key, get_run, new_run, claim_resume_lock, is_lockable, lock_run,
  locked_row, patch_run, cancel_run, is_terminal, owned_by, unlock_run, release_resume_lock,
  increment_resume_attempt, cancel_orchestration_run, where_run, counted_run,
}

-- The operations that write a run; one that finds no run leaves the table as it is.
pub data Call : Type 0 where
  create : String → ℕ → CreateArgs → Call
  claim : String → String → ℕ → ℕ → Call
  release : String → String → ℕ → Call
  count : String → ℕ → Call
  write : String → RunPatch → ℕ → Call
  cancel : String → ℕ → Call

-- The run `k` is locked by `owner` until the time `t` or longer.
pub record Locked (k owner : String) (t : ℕ) (runs : Runs) : Type 0 where
  pub run : OrchestrationRun
  pub stored : get_run k runs ≡ some run
  pub held : run.resume_lock_owner ≡ some owner
  pub until : ℕ
  pub expires : run.resume_lock_expires_at ≡ some until
  pub lasts : t ≤ until

abbrev pub GrantsOther : String → Option OrchestrationRun → Type 0
GrantsOther k none = Unit
GrantsOther k (some r) = (r.id == k) ≡ false

module _ (redact : String → String) (k owner : String) (t : ℕ) where
  -- The table after a call, and the run that it locks for its caller.
  abbrev pub call : Call → Runs → Runs × Option OrchestrationRun
  call (create id now args) runs = (runs ++ new_run id now args ∷ [], none)
  call (claim id other ttl now) runs = claim_resume_lock id other ttl now runs
  call (release id other now) runs = (release_resume_lock id other now runs, none)
  call (count id now) runs = (increment_resume_attempt id now runs, none)
  call (write id p now) runs = (update run_key id (patch_run redact p now) runs, none)
  call (cancel id now) runs = ((cancel_orchestration_run id now runs).0, none)

  -- No claim of `k` comes after the time, and nobody releases it in the owner's name.
  abbrev pub Respects : Call → Type 0
  Respects (claim id other ttl now) = (id == k) ≡ true → now ≤ t
  Respects (release id other now) = (id == k) ≡ true → (owner == other) ≡ false
  Respects _ = Unit

  abbrev pub AllRespect : List Call → Type 0
  AllRespect [] = Unit
  AllRespect (c ∷ cs) = Respects c × AllRespect cs

  -- No call of the list locks `k` for its caller.
  abbrev pub NeverGrants : List Call → Runs → Type 0
  NeverGrants [] runs = Unit
  NeverGrants (c ∷ cs) runs = GrantsOther k (call c runs).1 × NeverGrants cs (call c runs).0

  find-append_found :
      (new : OrchestrationRun) (xs : Runs) (r : OrchestrationRun)
      → find run_key k xs ≡ some r
      → find run_key k (xs ++ new ∷ []) ≡ some r
  unfolding find
  find-append_found new [] r e = cc e
  find-append_found new (x ∷ xs) r e = ground (arith, find-append_found new xs r)

  create-Locked :
      (runs : Runs) (new : OrchestrationRun)
      → Locked k owner t runs
      → Locked k owner t (runs ++ new ∷ [])
  unfolding get_run
  create-Locked runs new l = record {
    run = l.run;
    stored = find-append_found new runs l.run l.stored;
    held = l.held;
    until = l.until;
    expires = l.expires;
    lasts = l.lasts;
  }

  -- An update of a row keeps the lock if it does so on the locked row.
  update-Locked :
      (id : String) (f : OrchestrationRun → OrchestrationRun)
      → ((r : OrchestrationRun) → run_key (f r) ≡ run_key r)
      → (runs : Runs) (l : Locked k owner t runs)
      → ((id == k) ≡ true
          → ((f l.run).resume_lock_owner ≡ some owner)
            × ((f l.run).resume_lock_expires_at ≡ some l.until))
      → Locked k owner t (update run_key id f runs)
  unfolding get_run
  update-Locked id f keeps runs l stays = elim (Bool-cases (id == k)) [
    | inl same ↦ record {
      run = f l.run;
      stored = find-update run_key id f keeps k runs ∙ rw (same, l.stored) refl;
      held = (stays same).0;
      until = l.until;
      expires = (stays same).1;
      lasts = l.lasts;
    }
    | inr apart ↦ record {
      run = l.run;
      stored = find-update run_key id f keeps k runs ∙ rw apart l.stored;
      held = l.held;
      until = l.until;
      expires = l.expires;
      lasts = l.lasts;
    }
  ]

  not_lockable :
      (now : ℕ) (runs : Runs) (l : Locked k owner t runs) → now ≤ t → is_lockable now l.run ≡ false
  unfolding is_lockable
  not_lockable now runs l soon = ground (arith, l.held, l.expires, l.lasts, soon)

  claim-Locked :
      (id other : String) (ttl now : ℕ) (runs : Runs)
      → ((id == k) ≡ true → now ≤ t)
      → Locked k owner t runs
      → Locked k owner t (claim_resume_lock id other ttl now runs).0
  unfolding claim_resume_lock
  claim-Locked id other ttl now runs early l =
      update-Locked id (where_run (is_lockable now) (lock_run other ttl now))
        (λ r. unfold lock_run in ground arith) runs l
        (λ same. rw (not_lockable now runs l (early same)) (l.held, l.expires))

  release-Locked :
      (id other : String) (now : ℕ) (runs : Runs)
      → ((id == k) ≡ true → (owner == other) ≡ false)
      → Locked k owner t runs
      → Locked k owner t (release_resume_lock id other now runs)
  unfolding release_resume_lock
  release-Locked id other now runs foreign l =
      update-Locked id (where_run (owned_by other) (unlock_run now))
        (λ r. unfold unlock_run in ground arith) runs l
        (λ same. rw (foreign_lock (foreign same)) (l.held, l.expires))
    where
      foreign_lock : (owner == other) ≡ false → owned_by other l.run ≡ false
      foreign_lock apart = rw (l.held) apart

  cancel-Locked :
      (id : String) (now : ℕ) (runs : Runs)
      → Locked k owner t runs
      → Locked k owner t (cancel_orchestration_run id now runs).0
  unfolding cancel_orchestration_run
  cancel-Locked id now runs l = elim (Option-cases (get_run id runs)) [
    | inl missing ↦ rw missing l
    | inr (r, there) ↦ rw there (elim (Bool-cases (is_terminal r.status)) [
      | inl ended ↦ rw ended l
      | inr open_run ↦ rw open_run (
          update-Locked id (cancel_run now) (λ r. unfold cancel_run in refl) runs l
            (λ same. unfold cancel_run in (l.held, l.expires)))
    ])
  ]

  call-Locked :
      (c : Call) (runs : Runs)
      → Respects c
      → Locked k owner t runs
      → Locked k owner t (call c runs).0
  unfolding increment_resume_attempt
  call-Locked (create id now args) runs ok l = create-Locked runs (new_run id now args) l
  call-Locked (claim id other ttl now) runs early l = claim-Locked id other ttl now runs early l
  call-Locked (release id other now) runs foreign l = release-Locked id other now runs foreign l
  call-Locked (count id now) runs ok l =
      update-Locked id (counted_run now) (λ r. refl) runs l (λ same. (l.held, l.expires))
  call-Locked (write id p now) runs ok l =
      update-Locked id (patch_run redact p now) (λ r. unfold patch_run in refl) runs l
        (λ same. unfold patch_run in (l.held, l.expires))
  call-Locked (cancel id now) runs ok l = cancel-Locked id now runs l

  claim_resume_lock-key :
      (id other : String) (ttl now : ℕ) (runs : Runs) (r : OrchestrationRun)
      → (claim_resume_lock id other ttl now runs).1 ≡ some r
      → run_key r ≡ id
  unfolding claim_resume_lock get_run
  claim_resume_lock-key id other ttl now runs r e = elim (Option-cases (find run_key id runs)) [
    | inl missing ↦ cc (rw (missing, locked_row) at e)
    | inr (x, there) ↦ elim (Bool-cases (is_lockable now x)) [
      | inl free ↦ find-key run_key id _ r (rw (there, free, locked_row) at e)
      | inr busy ↦ cc (rw (there, busy, locked_row) at e)
    ]
  ]

  claim-GrantsOther :
      (id other : String) (ttl now : ℕ) (runs : Runs)
      → ((id == k) ≡ true → now ≤ t)
      → Locked k owner t runs
      → GrantsOther k (claim_resume_lock id other ttl now runs).1
  unfolding claim_resume_lock get_run
  claim-GrantsOther id other ttl now runs early l = elim (Bool-cases (id == k)) [
    | inl same ↦
        let here : get_run id runs ≡ some l.run =
          ap (λ i. get_run i runs) ((eq_iff id k).0 same) ∙ l.stored in
        rw (here, not_lockable now runs l (early same)) tt
    | inr apart ↦ elim (Option-cases (claim_resume_lock id other ttl now runs).1) [
      | inl nobody ↦ rw nobody tt
      | inr (r, granted) ↦
          rw granted (ground (arith, claim_resume_lock-key id other ttl now runs r granted, apart))
    ]
  ]

  call-GrantsOther :
      (c : Call) (runs : Runs) → Respects c → Locked k owner t runs → GrantsOther k (call c runs).1
  call-GrantsOther (claim id other ttl now) runs early l =
      claim-GrantsOther id other ttl now runs early l
  call-GrantsOther _ runs ok l = tt

  -- While the run is locked, no call that respects the lock hands it out.
  pub Locked-NeverGrants :
      (cs : List Call) (runs : Runs) → AllRespect cs → Locked k owner t runs → NeverGrants cs runs
  Locked-NeverGrants [] runs all l = tt
  Locked-NeverGrants (c ∷ cs) runs all l = (
    call-GrantsOther c runs all.0 l,
    Locked-NeverGrants cs (call c runs).0 all.1 (call-Locked c runs all.0 l),
  )
