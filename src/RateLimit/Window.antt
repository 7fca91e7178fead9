-- ===== src/RateLimit/Window.antt =====
-- The limiter counts the calls of a sliding window.
use botchatgptclaude.Prelude.{
  ℕ, suc, ◌≤◌, leb, String, ◌≡◌, refl, sym, ap, ◌∙◌, false, ◌&&◌, get_or, List, [], ◌∷◌, ◌++◌, ◌==◌,
  eq_iff, arith, if◌then◌else◌, filter, length, All, Bool-cases, inl, inr,
}
use mathlib.Core.List.{append-nil, append_assoc}
use botchatgptclaude.RateLimit.{
  Hits, RateLimitOptions, is_live, hit, answer, rate_limit, default_limit, default_window_ms,
}

pub record Call : Type 0 where
  pub identifier : String
  pub time : ℕ

module _ (opts : RateLimitOptions) where
  abbrev window : ℕ
  window = get_or opts.window_ms default_window_ms

  -- The store after some calls.
  abbrev pub after : List Call → Hits → Hits
  after [] hits = hits
  after (c ∷ cs) hits = after cs (rate_limit c.identifier opts c.time hits).0

  -- The times of the calls of `id` that are less than a window before `now`.
  abbrev pub recent : String → ℕ → List Call → List ℕ
  recent id now [] = []
  recent id now (c ∷ cs) =
      if (c.identifier == id) && is_live window now c.time
      then c.time ∷ recent id now cs
      else recent id now cs

  -- Pruning at an earlier time and adding that time keeps what is live now.
  live-prune :
      (now t : ℕ) (xs : List ℕ)
      → t ≤ now
      → filter (is_live window now) (filter (is_live window t) xs ++ t ∷ [])
        ≡ filter (is_live window now) xs ++ (if is_live window now t then t ∷ [] else [])
  live-prune now t [] early = ground arith
  live-prune now t (x ∷ xs) early = elim (Bool-cases (is_live window t x)) [
    | inl old ↦ rw old (elim (Bool-cases (is_live window now x)) [
      | inl live ↦ rw live (ap (λ ys. x ∷ ys) (live-prune now t xs early))
      | inr dead ↦ rw dead (live-prune now t xs early)
    ])
    | inr gone ↦
        let dead : is_live window now x ≡ false = ground (arith, gone, early) in
        rw (gone, dead) (live-prune now t xs early)
  ]

  -- One call, seen at a later time.
  rate_limit-cell :
      (id : String) (now : ℕ) (c : Call) (hits : Hits)
      → c.time ≤ now
      → filter (is_live window now) ((rate_limit c.identifier opts c.time hits).0 id)
        ≡ filter (is_live window now) (hits id)
          ++ (if (c.identifier == id) && is_live window now c.time then c.time ∷ [] else [])
  unfolding rate_limit hit
  rate_limit-cell id now c hits early = elim (Bool-cases (c.identifier == id)) [
    | inl same ↦
        rw (same, ap hits ((eq_iff c.identifier id).0 same)) (live-prune now c.time (hits id) early)
    | inr apart ↦ rw (apart, append-nil) refl
  ]

  after-recent :
      (id : String) (now : ℕ) (cs : List Call) (hits : Hits)
      → All (λ c. c.time ≤ now) cs
      → filter (is_live window now) (after cs hits id)
        ≡ filter (is_live window now) (hits id) ++ recent id now cs
  after-recent id now [] hits early = sym (append-nil _)
  after-recent id now (c ∷ cs) hits early =
      after-recent id now cs (rate_limit c.identifier opts c.time hits).0 early.1
      ∙ ap (λ ys. ys ++ recent id now cs) (rate_limit-cell id now c hits early.0)
      ∙ added
    where
      added :
          (filter (is_live window now) (hits id)
              ++ (if (c.identifier == id) && is_live window now c.time then c.time ∷ [] else []))
            ++ recent id now cs
          ≡ filter (is_live window now) (hits id) ++ recent id now (c ∷ cs)
      added = elim (Bool-cases ((c.identifier == id) && is_live window now c.time)) [
        | inl y ↦
            rw y (
              append_assoc (filter (is_live window now) (hits id)) (c.time ∷ []) (recent id now cs))
        | inr n ↦ rw (n, append-nil) refl
      ]

  -- From an empty store, after any calls that came no later than `now`, a call is accepted exactly
  -- when it and the calls of the same identifier in the window before it, refused ones included, are
  -- no more than the limit.
  pub rate_limit-counts :
      (id : String) (now : ℕ) (cs : List Call)
      → All (λ c. c.time ≤ now) cs
      → (rate_limit id opts now (after cs (λ k. []))).1.is_ok
        ≡ leb (suc (length (recent id now cs))) (get_or opts.limit default_limit)
  unfolding rate_limit hit answer
  rate_limit-counts id now cs early =
      rw (after-recent id now cs (λ k. []) early) (ground (arith, snoc now (recent id now cs)))
    where
      snoc : (x : ℕ) (xs : List ℕ) → length (xs ++ x ∷ []) ≡ suc (length xs)
      snoc x [] = refl
      snoc x (y ∷ ys) = ap suc (snoc x ys)
