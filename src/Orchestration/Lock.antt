-- ===== src/Orchestration/Lock.antt =====
-- The resume lock.
use mathlib.Core.Option.{some_inj}
use botchatgptclaude.Prelude.{
  List, ℕ, ◌+◌, ◌*◌, String, ◌≡◌, refl, ap, sym, true, some, arith, eq_refl, ap, sym, Bool-cases,
  Option-cases, ltb, inl, inr, ◌∙◌, if◌then◌else◌,
}
use botchatgptclaude.Table.{update, find-update}
use botchatgptclaude.Store.{OrchestrationRun}
use botchatgptclaude.Orchestration.Steps.{Call, AllRespect, NeverGrants, Locked-NeverGrants}
use botchatgptclaude.Orchestration.{
  Runs, run_key, get_run, claim_resume_lock, is_lockable, locked_row, lock_run, is_waiting,
}

abbrev locked_cell : String → ℕ → ℕ → OrchestrationRun → OrchestrationRun
locked_cell owner ttl now r = if is_lockable now r then lock_run owner ttl now r else r

locked_cell-key :
    (owner : String) (ttl now : ℕ) (r : OrchestrationRun)
    → run_key (locked_cell owner ttl now r) ≡ run_key r
unfolding lock_run
locked_cell-key owner ttl now r = ground arith

get_run-locked :
    (id owner : String) (ttl now : ℕ) (runs : Runs) (r : OrchestrationRun)
    → get_run id runs ≡ some r
    → is_lockable now r ≡ true
    → get_run id (update run_key id (locked_cell owner ttl now) runs)
      ≡ some (lock_run owner ttl now r)
unfolding get_run
get_run-locked id owner ttl now runs r stored free =
    find-update run_key id (locked_cell owner ttl now) (locked_cell-key owner ttl now) id runs
    ∙ rw (eq_refl, stored) (ap some (rw free refl))

claim_resume_lock_cell :
    (id owner : String) (ttl now : ℕ) (runs : Runs) (run : OrchestrationRun)
    → (claim_resume_lock id owner ttl now runs).1 ≡ some run
    → (r : OrchestrationRun) × (get_run id runs ≡ some r)
      × (is_lockable now r ≡ true)
      × (run ≡ lock_run owner ttl now r)
      × (get_run id (claim_resume_lock id owner ttl now runs).0 ≡ some run)
claim_resume_lock_cell id owner ttl now runs run granted = elim (Option-cases (get_run id runs)) [
  | inl missing ↦ unfold claim_resume_lock in cc (granted, missing)
  | inr (r, stored) ↦ elim (Bool-cases (is_lockable now r)) [
    | inl free ↦
        let there = get_run-locked id owner ttl now runs r stored free in
        let same : some (lock_run owner ttl now r) ≡ some run =
          sym there ∙ (unfold claim_resume_lock in rw (stored, free, locked_row) at granted) in
        (r, stored, free, sym (some_inj.0 same), unfold claim_resume_lock in there ∙ same)
    | inr busy ↦ unfold claim_resume_lock in cc (rw (stored, busy, locked_row) at granted)
  ]
]

-- A granted lock is stored on a waiting run; and none of the calls on the table that come after it,
-- as long as nobody releases it in its owner's name and no claim of the run comes after the granted
-- time, locks the run for its caller, the owner included.
pub claim_resume_lock-excludes :
    (redact : String → String) (id owner : String) (ttl now : ℕ) (runs : Runs)
    (run : OrchestrationRun) (cs : List Call)
    → (claim_resume_lock id owner ttl now runs).1 ≡ some run
    → AllRespect redact id owner (now + ttl * 1000) cs
    → (get_run id (claim_resume_lock id owner ttl now runs).0 ≡ some run)
      × (is_waiting run.status ≡ true)
      × (run.resume_lock_owner ≡ some owner)
      × NeverGrants redact id owner
          (now + ttl * 1000)
          cs
          (claim_resume_lock id owner ttl now runs).0
claim_resume_lock-excludes redact id owner ttl now runs run cs granted all =
    let (r, stored, free, is_run, there) =
      claim_resume_lock_cell id owner ttl now runs run granted in
    let owned : run.resume_lock_owner ≡ some owner = rw is_run (unfold lock_run in refl) in
    (
      there,
      rw is_run (unfold lock_run is_lockable in ground (arith, free)),
      owned,
      Locked-NeverGrants redact id owner (now + ttl * 1000) cs _ all (record {
        run = run;
        until = now + (if ltb ttl 1 then 1 else ttl) * 1000;
        stored = there;
        held = owned;
        expires = rw is_run (unfold lock_run in refl);
        lasts = ground arith;
      }),
    )
