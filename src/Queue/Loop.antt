-- ===== src/Queue/Loop.antt =====
-- The loop of `claimNext`: what it grants, what it marks as failed, and what it leaves alone.
use mathlib.Core.Path.{subst}
use botchatgptclaude.Prelude.{
  ◌+◌, ◌≤◌, ◌∙◌, ℕ, ◌<◌, String, ◌≡◌, refl, ◌⊎◌, inl, inr, Bool, true, false, none, some, [], ◌∷◌,
  arith, eq_iff, All, All-filter, All_mono, Bool-cases, sym, filter,
}
use botchatgptclaude.Table.{
  find, update, find-update, IsFresh, IsDistinct, IsSorted, filter-IsDistinct, sort-IsDistinct,
  update-IsDistinct, All-find, All-sort, All_of-sort, sort-IsSorted, at_find, All_of-filter,
}
use botchatgptclaude.Job.{is_running, WorkerJob}
use botchatgptclaude.Queue.{
  Jobs, job_key, get, is_candidate, is_exhausted, exhaust, lease, claim_order, claim_loop,
  candidates,
}

-- The candidates of the loop are records of the table, and each is claimable.
abbrev pub IsEntry : ℕ → Jobs → WorkerJob → Type 0
IsEntry now jobs c = (find job_key c.id jobs ≡ some c) × (is_candidate now c ≡ true)

claim_order_total : (a b : WorkerJob) → (claim_order a b ≡ true) ⊎ (claim_order b a ≡ true)
unfolding claim_order
claim_order_total a b = ground arith

claim_order_refl : (a : WorkerJob) → claim_order a a ≡ true
unfolding claim_order
claim_order_refl a = ground arith

claim_order_trans :
    (a b c : WorkerJob) → claim_order a b ≡ true → claim_order b c ≡ true → claim_order a c ≡ true
unfolding claim_order
claim_order_trans a b c p q = ground arith

filter-holds : (p : WorkerJob → Bool) (xs : Jobs) → All (λ x. p x ≡ true) (filter p xs)
filter-holds p [] = tt
filter-holds p (x ∷ xs) = elim (Bool-cases (p x)) [
  | inl e ↦ rw e (e, filter-holds p xs)
  | inr e ↦ rw e (filter-holds p xs)
]

All_both : (P Q : WorkerJob → Type 0) (xs : Jobs) → All P xs → All Q xs → All (λ x. P x × Q x) xs
All_both P Q [] h k = tt
All_both P Q (x ∷ xs) h k = ((h.0, k.0), All_both P Q xs h.1 k.1)

pub candidates-IsEntry :
    (now : ℕ) (jobs : Jobs) → IsDistinct job_key jobs → All (IsEntry now jobs) (candidates now jobs)
unfolding candidates
candidates-IsEntry now jobs d =
    All-sort claim_order (IsEntry now jobs) (filter (is_candidate now) jobs) (
      All_both (λ c. find job_key c.id jobs ≡ some c) (λ c. is_candidate now c ≡ true)
        (filter (is_candidate now) jobs)
        (All-filter (λ c. find job_key c.id jobs ≡ some c) (is_candidate now) jobs
          (All-find job_key jobs d))
        (filter-holds (is_candidate now) jobs))

pub candidates-IsDistinct :
    (now : ℕ) (jobs : Jobs) → IsDistinct job_key jobs → IsDistinct job_key (candidates now jobs)
unfolding candidates
candidates-IsDistinct now jobs d =
    sort-IsDistinct job_key claim_order (filter (is_candidate now) jobs)
      (filter-IsDistinct job_key (is_candidate now) jobs d)

module _ (worker : String) (now lease_ms : ℕ) where
  -- `claimNext` granted `job`, as the store had it before.
  pub record Handed (jobs jobs' : Jobs) (granted : WorkerJob) : Type 0 where
    pub job : WorkerJob
    pub was_stored : get job.id jobs ≡ some job
    pub was_candidate : is_candidate now job ≡ true
    pub had_attempts : job.attempts < job.max_attempts
    pub is_leased : granted ≡ lease worker now lease_ms job
    pub runs : is_running granted.status ≡ true
    pub owner : granted.lease_owner ≡ some worker
    pub expires : granted.lease_expires_at ≡ some (now + lease_ms)
    pub counted : granted.attempts ≡ job.attempts + 1
    pub is_stored : get job.id jobs' ≡ some granted
    pub is_first :
        (i : WorkerJob)
        → get i.id jobs ≡ some i
        → is_candidate now i ≡ true
        → i.attempts < i.max_attempts
        → (job.priority < i.priority)
          ⊎ (job.priority ≡ i.priority) × (job.created_at ≤ i.created_at)

  -- What the comparator says of the two numbers that it reads.
  claim_order_lem :
      (a b : WorkerJob)
      → claim_order a b ≡ true
      → (a.priority < b.priority) ⊎ (a.priority ≡ b.priority) × (a.created_at ≤ b.created_at)
  unfolding claim_order
  claim_order_lem a b h = ground arith

  exhaust-key : (x : WorkerJob) → job_key (exhaust now x) ≡ job_key x
  unfolding exhaust
  exhaust-key x = refl

  lease-key : (x : WorkerJob) → job_key (lease worker now lease_ms x) ≡ job_key x
  unfolding lease
  lease-key x = refl

  -- Marking one candidate as failed leaves the others where they are.
  entries-exhaust :
      (k : String) (jobs rest : Jobs)
      → IsFresh job_key k rest
      → All (λ c. find job_key c.id jobs ≡ some c) rest
      → All (λ c. find job_key c.id (update job_key k (exhaust now) jobs) ≡ some c) rest
  entries-exhaust k jobs [] f h = tt
  entries-exhaust k jobs (c ∷ rest) f h = (
    ground (
      arith,
      find-update job_key k (exhaust now) exhaust-key c.id jobs,
      eq_iff k c.id,
      eq_iff c.id k,
      f.0,
      h.0,
    ),
    entries-exhaust k jobs rest f.1 h.1,
  )

  claim_loop-some :
      (P : WorkerJob → Type 0) (cands jobs : Jobs) (granted : WorkerJob)
      → IsDistinct job_key cands
      → IsSorted claim_order cands
      → All (λ c. find job_key c.id jobs ≡ some c) cands
      → All P cands
      → (claim_loop worker now lease_ms cands jobs).1 ≡ some granted
      → (j : WorkerJob) × P j
        × (is_exhausted j ≡ false)
        × (granted ≡ lease worker now lease_ms j)
        × (find job_key j.id (claim_loop worker now lease_ms cands jobs).0 ≡ some granted)
        × All (λ i. is_exhausted i ≡ false → claim_order j i ≡ true) cands
  unfolding claim_loop
  claim_loop-some P [] jobs granted d s f p e = cc
  claim_loop-some P (c ∷ rest) jobs granted d s f p e = elim (Bool-cases (is_exhausted c)) [
    | inl skip ↦
        let (j, pj, left, g, st, fst) =
          claim_loop-some P rest (update job_key c.id (exhaust now) jobs) granted d.1 s.1
            (entries-exhaust c.id jobs rest d.0 f.1) p.1 (rw (skip, claim_loop) at e) in
        (j, pj, left, g, rw skip st, ((λ h. cc), fst))
    | inr take ↦
        let g : lease worker now lease_ms c ≡ granted = ground arith in
        (
          c,
          p.0,
          take,
          sym g,
          rw (take, find-update job_key c.id (lease worker now lease_ms) lease-key)
              (ground (arith, eq_iff c.id c.id, f.0, g)),
          (
            λ h. claim_order_refl c,
            All_mono (λ i. claim_order c i ≡ true)
                (λ i. is_exhausted i ≡ false → claim_order c i ≡ true) (λ i h _. h) rest s.0,
          ),
        )
  ]

  module _ (jobs : Jobs) (distinct : IsDistinct job_key jobs) where
    pub entries : All (λ c. find job_key c.id jobs ≡ some c) (candidates now jobs)
    entries =
        All_mono (IsEntry now jobs) (λ c. find job_key c.id jobs ≡ some c) (λ c h. h.0)
          (candidates now jobs) (candidates-IsEntry now jobs distinct)

    -- What the candidates satisfy, every claimable record of the table satisfies.
    pub at_candidate :
        (Q : WorkerJob → Type 0)
        → All Q (candidates now jobs)
        → (i : WorkerJob) → get i.id jobs ≡ some i
        → is_candidate now i ≡ true
        → Q i
    unfolding candidates get
    at_candidate Q h i e c =
        at_find job_key (λ x. is_candidate now x ≡ true → Q x) i.id jobs i
          (All_of-filter Q (is_candidate now) jobs (All_of-sort claim_order Q _ h)) e c

  pub claim_loop-Handed :
      (jobs : Jobs) (granted : WorkerJob)
      → IsDistinct job_key jobs
      → (claim_loop worker now lease_ms (candidates now jobs) jobs).1 ≡ some granted
      → Handed jobs (claim_loop worker now lease_ms (candidates now jobs) jobs).0 granted
  unfolding get
  claim_loop-Handed jobs granted distinct e =
      let (j, entry, left, g, st, fst) =
        claim_loop-some (IsEntry now jobs) (candidates now jobs) jobs granted
          (candidates-IsDistinct now jobs distinct)
          (unfold candidates in sort-IsSorted claim_order claim_order_total claim_order_trans _)
          (entries jobs distinct) (candidates-IsEntry now jobs distinct) e in
      record {
        job = j;
        was_stored = entry.0;
        was_candidate = entry.1;
        had_attempts = unfold is_exhausted in ground arith;
        is_leased = g;
        runs = rw g (unfold lease in refl);
        owner = rw g (unfold lease in refl);
        expires = rw g (unfold lease in refl);
        counted = rw g (unfold lease in refl);
        is_stored = st;
        is_first = λ i h c l. claim_order_lem j i (
            at_candidate jobs distinct (λ i. is_exhausted i ≡ false → claim_order j i ≡ true) fst i
              h c (unfold is_exhausted in ground arith));
      }

  -- An empty-handed claim has seen only candidates that had used up their attempts.
  pub claim_loop-none :
      (cands jobs : Jobs)
      → (claim_loop worker now lease_ms cands jobs).1 ≡ none
      → All (λ i. is_exhausted i ≡ true) cands
  unfolding claim_loop
  claim_loop-none [] jobs e = tt
  claim_loop-none (c ∷ rest) jobs e = elim (Bool-cases (is_exhausted c)) [
    | inl skip ↦ (
      skip,
      claim_loop-none rest (update job_key c.id (exhaust now) jobs) (rw (skip, claim_loop) at e),
    )
    | inr take ↦ ground arith
  ]

  -- A record whose key no candidate has is not touched.
  pub claim_loop-frame :
      (k : String) (cands jobs : Jobs)
      → IsFresh job_key k cands
      → find job_key k (claim_loop worker now lease_ms cands jobs).0 ≡ find job_key k jobs
  unfolding claim_loop
  claim_loop-frame k [] jobs f = refl
  claim_loop-frame k (c ∷ rest) jobs f = ground (
    arith,
    f.0,
    claim_loop-frame k rest (update job_key c.id (exhaust now) jobs) f.1,
    find-update job_key c.id (exhaust now) exhaust-key k jobs,
    find-update job_key c.id (lease worker now lease_ms) lease-key k jobs,
  )

  pub claim_loop-IsDistinct :
      (cands jobs : Jobs)
      → IsDistinct job_key jobs
      → IsDistinct job_key (claim_loop worker now lease_ms cands jobs).0
  unfolding claim_loop
  claim_loop-IsDistinct [] jobs d = d
  claim_loop-IsDistinct (c ∷ rest) jobs d = elim (Bool-cases (is_exhausted c)) [
    | inl skip ↦ rw skip (
        claim_loop-IsDistinct rest (update job_key c.id (exhaust now) jobs)
          (update-IsDistinct job_key c.id (exhaust now) exhaust-key jobs d))
    | inr take ↦
        rw take (update-IsDistinct job_key c.id (lease worker now lease_ms) lease-key jobs d)
  ]

  claim_loop-skip :
      (c : WorkerJob) (rest jobs : Jobs)
      → is_exhausted c ≡ true
      → claim_loop worker now lease_ms (c ∷ rest) jobs
        ≡ claim_loop worker now lease_ms rest (update job_key c.id (exhaust now) jobs)
  unfolding claim_loop
  claim_loop-skip c rest jobs h = rw h

  -- Candidates that have used up their attempts are all marked as failed.
  pub claim_loop-exhausts :
      (cands jobs : Jobs)
      → IsDistinct job_key cands
      → All (λ c. find job_key c.id jobs ≡ some c) cands
      → All (λ c. is_exhausted c ≡ true) cands
      → All
          (λ c.
            find job_key c.id (claim_loop worker now lease_ms cands jobs).0 ≡ some (exhaust now c))
          cands
  claim_loop-exhausts [] jobs d f h = tt
  claim_loop-exhausts (c ∷ rest) jobs d f h =
      subst (λ r. All (λ x. find job_key x.id r.0 ≡ some (exhaust now x)) (c ∷ rest))
        (sym (claim_loop-skip c rest jobs h.0))
        (
          claim_loop-frame c.id rest (update job_key c.id (exhaust now) jobs) d.0
              ∙ ground (
                arith,
                find-update job_key c.id (exhaust now) exhaust-key c.id jobs,
                eq_iff c.id c.id,
                f.0,
              ),
          claim_loop-exhausts rest (update job_key c.id (exhaust now) jobs) d.1
              (entries-exhaust c.id jobs rest d.0 f.1) h.1,
        )
