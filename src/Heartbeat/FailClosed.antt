-- ===== src/Heartbeat/FailClosed.antt =====
-- When the heartbeat stops the job.
use botchatgptclaude.Prelude.{
  ℕ, suc, ◌+◌, ◌≤◌, ◌<◌, String, ◌≡◌, refl, ◌⊎◌, inl, inr, true, false, Option, none, some, List,
  [], ◌∷◌, arith, All, length, err, is_some,
}
use botchatgptclaude.Heartbeat.{AbortReason, lease_renewal_failed, Heartbeat, Answers, tick, ticks}

abbrev to_list : Option AbortReason → List AbortReason
to_list none = []
to_list (some r) = r ∷ []

abbrev pub IsConsistent : Heartbeat → Type 0
IsConsistent h = (h.aborted ≡ is_some h.stats.reason) × (h.calls ≡ to_list h.stats.reason)

absorbed :
    (threshold : ℕ) (a : Answers) (h : Heartbeat)
    → h.aborted ≡ true
    → tick threshold a h ≡ (h, false)
unfolding tick
absorbed threshold a h f = rw f

aborted_stays :
    (threshold : ℕ) (as' : List Answers) (h : Heartbeat)
    → h.aborted ≡ true
    → ticks threshold as' h ≡ h
unfolding ticks
aborted_stays threshold [] h f = refl
aborted_stays threshold (a ∷ as') h f =
    rw (absorbed threshold a h f) (aborted_stays threshold as' h f)

-- The renewal threw and its log line was written.
abbrev pub FailedTick : Answers → Type 0
FailedTick a = (m : String) × (a.renewal ≡ err m) × (a.first_log ≡ true)

failed_tick :
    (threshold : ℕ) (a : Answers) (h : Heartbeat)
    → FailedTick a
    → h.aborted ≡ false
    → ((tick threshold a h).1 ≡ false)
      × (((tick threshold a h).0.aborted ≡ true)
            × ((tick threshold a h).0.stats.reason ≡ some lease_renewal_failed)
          ⊎ ((tick threshold a h).0.aborted ≡ false)
            × (suc h.consecutive < threshold)
            × ((tick threshold a h).0.consecutive ≡ suc h.consecutive))
unfolding tick
failed_tick threshold a h (m, e, l) f = rw e (ground arith, ground arith)

-- Failing renewals stop the job: from a heartbeat that has not aborted, as many failing ticks as the
-- threshold asks for, each of whose log lines is written, end in an abort for a failed renewal.
pub failed_ticks_abort :
    (threshold : ℕ) (as' : List Answers) (h : Heartbeat)
    → h.aborted ≡ false
    → All FailedTick as'
    → 0 < length as'
    → threshold ≤ h.consecutive + length as'
    → ((ticks threshold as' h).aborted ≡ true)
      × ((ticks threshold as' h).stats.reason ≡ some lease_renewal_failed)
unfolding ticks
failed_ticks_abort threshold [] h f all some_tick enough = absurd (omega arith)
failed_ticks_abort threshold (a ∷ as') h f all some_tick enough =
    let (goes, outcome) = failed_tick threshold a h all.0 f in
    rw goes (elim outcome [
      | inl (stopped, why) ↦
          rw (aborted_stays threshold as' (tick threshold a h).0 stopped) (stopped, why)
      | inr (goes_on, below, counted) ↦
          failed_ticks_abort threshold as' (tick threshold a h).0 goes_on all.1 (omega arith)
            (omega arith)
    ])
