-- ===== src/Queue/Grant.antt =====
-- What `claimNext` promises a worker, and what it promises the jobs that it does not grant.
use botchatgptclaude.Prelude.{
  ℕ, ◌≤◌, String, ◌≡◌, true, false, Option, none, some, get_or, arith, ◌==◌, eq_iff, All_mono,
  Bool-cases, inl, inr, ◌∙◌,
}
use botchatgptclaude.Table.{find, IsDistinct}
use botchatgptclaude.Job.{WorkerJob, failed}
use botchatgptclaude.Queue.{
  Jobs, job_key, get, is_candidate, is_exhausted, exhaust, candidates, claim_loop, claim_next,
}
use botchatgptclaude.Queue.Loop.{
  IsEntry, entries, at_candidate, candidates-IsDistinct, candidates-IsEntry, claim_loop-none,
  claim_loop-frame, claim_loop-IsDistinct, claim_loop-exhausts,
}

module _ (worker : String) (now : ℕ) (lease_ms : Option ℕ) (jobs : Jobs)
    (distinct : IsDistinct job_key jobs) where
  -- If nothing is granted, every claimable job had used up its attempts, and is now stored as
  -- failed, with the message for it and the time, and otherwise as it was.
  pub claim_next-none :
      (claim_next worker now lease_ms jobs).1 ≡ none
      → (i : WorkerJob) → get i.id jobs ≡ some i
      → is_candidate now i ≡ true
      → (i.max_attempts ≤ i.attempts)
        × (get i.id (claim_next worker now lease_ms jobs).0
            ≡ some (record i {
              status = failed;
              error_message = some "max attempts exceeded";
              finished_at = some now;
              updated_at = now;
            }))
  unfolding claim_next exhaust
  claim_next-none e i stored claimable =
      let L = get_or lease_ms 300000 in
      let spent = claim_loop-none worker now L (candidates now jobs) jobs e in
      let marked =
        claim_loop-exhausts worker now L (candidates now jobs) jobs
          (candidates-IsDistinct now jobs distinct) (entries worker now L jobs distinct) spent in
      (
        at_candidate worker now L jobs distinct (λ c. c.max_attempts ≤ c.attempts)
            (All_mono (λ c. is_exhausted c ≡ true) (λ c. c.max_attempts ≤ c.attempts)
              (λ c h. unfold is_exhausted in ground (arith, h)) (candidates now jobs) spent)
            i stored claimable,
        unfold get in
            at_candidate worker now L jobs distinct
              (λ c.
                find job_key c.id (claim_loop worker now L (candidates now jobs) jobs).0
                ≡ some (exhaust now c))
              marked i stored claimable,
      )

  -- A record that is not claimable stays as it is.
  pub claim_next-frame :
      (i : WorkerJob)
      → get i.id jobs ≡ some i
      → is_candidate now i ≡ false
      → get i.id (claim_next worker now lease_ms jobs).0 ≡ some i
  unfolding claim_next get
  claim_next-frame i stored busy =
      claim_loop-frame worker now (get_or lease_ms 300000) i.id (candidates now jobs) jobs (
        All_mono (IsEntry now jobs) (λ c. (c.id == i.id) ≡ false) other (candidates now jobs)
          (candidates-IsEntry now jobs distinct))
      ∙ stored
    where
      other : (c : WorkerJob) → IsEntry now jobs c → (c.id == i.id) ≡ false
      other c entry = elim (Bool-cases (c.id == i.id)) [
        | inl same ↦ cc (entry.0, entry.1, stored, busy, (eq_iff c.id i.id).0 same)
        | inr apart ↦ apart
      ]

  pub claim_next-IsDistinct : IsDistinct job_key (claim_next worker now lease_ms jobs).0
  unfolding claim_next
  claim_next-IsDistinct =
      claim_loop-IsDistinct worker now (get_or lease_ms 300000) (candidates now jobs) jobs distinct
