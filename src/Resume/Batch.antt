-- ===== src/Resume/Batch.antt =====
-- What a cron tick does: which runs it takes, and what it says of them.
use botchatgptclaude.Prelude.{
  ℕ, suc, ◌+◌, ◌*◌, ◌≤◌, String, ◌≡◌, refl, sym, ap, ◌∙◌, true, false, Option, none, some, List, [],
  ◌∷◌, ◌++◌, arith, length, map, Result, ok, err, All, All-append, Bool-cases, inl, inr, leb,
}
use mathlib.Core.List.{append-nil}
use botchatgptclaude.Queue.{Jobs}
use botchatgptclaude.Store.{OrchestrationRun, Store, Action}
use botchatgptclaude.Orchestration.{Runs, list_waiting, claim_resume_lock}
use botchatgptclaude.Async.{AsyncResult}
use botchatgptclaude.Resume.{
  is_due, at_least_one, collect, names_job, find_resumable, ResumeRunResult, ResumeSummary,
  note_result, answered, locked, resume_one, resume_each, resume_due,
}

length-snoc : {A : Type 0} (xs : List A) (x : A) → length (xs ++ x ∷ []) ≡ suc (length xs)
length-snoc [] x = refl
length-snoc (y ∷ xs) x = ap suc (length-snoc xs x)

collect-IsDue :
    (limit : ℕ) (jobs : Jobs) (runs out : Runs)
    → suc (length out) ≤ limit
    → All (λ r. is_due jobs r ≡ true) out
    → (length (collect limit jobs runs out) ≤ limit)
      × All (λ r. is_due jobs r ≡ true) (collect limit jobs runs out)
unfolding collect
collect-IsDue limit jobs [] out room due = (omega arith, due)
collect-IsDue limit jobs (run ∷ rest) out room due =
    elim (Bool-cases (names_job run.pending_worker_job_id)) [
      | inr nameless ↦ rw nameless (collect-IsDue limit jobs rest out room due)
      | inl named ↦ elim (Bool-cases (is_due jobs run)) [
        | inr idle ↦
            let more : leb limit (length out) ≡ false = ground (arith, room) in
            rw (named, idle, more) (collect-IsDue limit jobs rest out room due)
        | inl ready ↦
            let longer = length-snoc out run in
            let all_due = All-append (λ r. is_due jobs r ≡ true) out (run ∷ []) due (ready, tt) in
            elim (Bool-cases (leb limit (length (out ++ run ∷ [])))) [
              | inl full ↦ rw (named, ready, full) (omega (arith, longer, room), all_due)
              | inr more ↦
                  let below : suc (length (out ++ run ∷ [])) ≤ limit = ground (arith, more) in
                  rw (named, ready, more)
                    (collect-IsDue limit jobs rest (out ++ run ∷ []) below all_due)
            ]
      ]
    ]

-- The counters add up to the runs noted.
total : ResumeSummary → ℕ
total sum = sum.resumed_count + sum.still_waiting_count + sum.skipped_count + sum.failed_count

note_result-total :
    (r : ResumeRunResult) (sum : ResumeSummary) → total (note_result r sum) ≡ suc (total sum)
unfolding note_result total
note_result-total r sum = ground arith

note_result-results :
    (r : ResumeRunResult) (sum : ResumeSummary)
    → (note_result r sum).results ≡ sum.results ++ r ∷ []
unfolding note_result
note_result-results r sum = ground arith

note_result-scanned :
    (r : ResumeRunResult) (sum : ResumeSummary) → (note_result r sum).scanned ≡ sum.scanned
unfolding note_result
note_result-scanned r sum = ground arith

abbrev ids : List ResumeRunResult → List String
ids = map ResumeRunResult.run_id

abbrev run_ids : Runs → List String
run_ids = map (λ r. r.id)

ids-snoc :
    (xs : List ResumeRunResult) (r : ResumeRunResult) (rest : List String)
    → ids (xs ++ r ∷ []) ++ rest ≡ ids xs ++ r.run_id ∷ rest
ids-snoc [] r rest = refl
ids-snoc (x ∷ xs) r rest = ap (λ ys. x.run_id ∷ ys) (ids-snoc xs r rest)

module _ (resume : String → Action AsyncResult) (redact : String → String) (owner : String)
    (ttl now : ℕ) where
  answered-run_id :
      (run : OrchestrationRun) (s : Store) (r : Result AsyncResult)
      → (answered resume redact owner ttl now run s r).1.run_id ≡ run.id
  answered-run_id run s (err m) = refl
  answered-run_id run s (ok r) = ground arith

  locked-run_id :
      (run : OrchestrationRun) (s : Store) (held : Option OrchestrationRun)
      → (locked resume redact owner ttl now run s held).1.run_id ≡ run.id
  locked-run_id run s none = refl
  locked-run_id run s (some held) = answered-run_id run _ _

  resume_one-run_id :
      (run : OrchestrationRun) (s : Store)
      → (resume_one resume redact owner ttl now run s).1.run_id ≡ run.id
  unfolding resume_one
  resume_one-run_id run s = locked-run_id run _ (claim_resume_lock run.id owner ttl now s.runs).1

  resume_each-accounts :
      (runs : Runs) (s : Store) (sum : ResumeSummary)
      → let out = (resume_each resume redact owner ttl now runs s sum).1 in
        (out.scanned ≡ sum.scanned)
        × (total out ≡ total sum + length runs)
        × (ids out.results ≡ ids sum.results ++ run_ids runs)
  unfolding resume_each
  resume_each-accounts [] s sum = (refl, omega arith, sym (append-nil (ids sum.results)))
  resume_each-accounts (run ∷ rest) s sum =
      let one = resume_one resume redact owner ttl now run s in
      let (same, counted, listed) = resume_each-accounts rest one.0 (note_result one.1 sum) in
      (
        same ∙ note_result-scanned one.1 sum,
        omega (arith, counted, note_result-total one.1 sum),
        listed
            ∙ (ap (λ xs. ids xs ++ run_ids rest) (note_result-results one.1 sum)
                ∙ ids-snoc sum.results one.1 (run_ids rest)
                ∙ ap (λ i. ids sum.results ++ i ∷ run_ids rest) (resume_one-run_id run s)),
      )

  -- A tick takes at most as many runs as the batch allows, each of them naming a job that has
  -- ended; it reports on each of them once, in order, and its four counters add up to their number.
  pub resume_due-accounts :
      (batch_size : ℕ) (s : Store)
      → let out = (resume_due resume redact owner ttl now batch_size s).1 in
        (ids out.results ≡ run_ids (find_resumable batch_size s))
        × (out.scanned
            ≡ out.resumed_count + out.still_waiting_count + out.skipped_count + out.failed_count)
        × (out.scanned ≤ at_least_one batch_size)
        × All (λ r. is_due s.jobs r ≡ true) (find_resumable batch_size s)
  resume_due-accounts batch_size s =
      let (same, counted, listed) = resume_each-accounts (find_resumable batch_size s) s (record {
        scanned = length (find_resumable batch_size s);
        resumed_count = 0;
        still_waiting_count = 0;
        skipped_count = 0;
        failed_count = 0;
        results = [];
      }) in
      let (bounded, due) =
        collect-IsDue (at_least_one batch_size) s.jobs
          (list_waiting (at_least_one batch_size * 4) s.runs) [] (ground arith) tt in
      (
        unfold resume_due in listed,
        unfold resume_due total in omega (arith, same, counted),
        unfold resume_due find_resumable in omega (arith, same, bounded),
        unfold find_resumable in due,
      )
