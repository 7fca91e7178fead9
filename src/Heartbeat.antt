-- ===== src/Heartbeat.antt =====
-- The lease heartbeat: class `Heartbeat` of lib/ai-orchestrator/worker/heartbeat.ts. One tick gets
-- the answers of the calls that it makes; a log write that throws is part of them.
pub mod FailClosed
use botchatgptclaude.Prelude.{
  ℕ, ◌+◌, leb, Bool, true, false, Option, none, some, List, [], ◌∷◌, ◌++◌, if◌then◌else◌, Result,
  ok, err,
}
use botchatgptclaude.Job.{JobStatus, is_cancelled, WorkerJob}

pub data AbortReason : Type 0 where
  external_cancel lease_lost lease_renewal_failed : AbortReason

pub record HeartbeatStats : Type 0 where
  pub renewals : ℕ
  pub failures : ℕ
  pub lease_renewed : Bool
  pub reason : Option AbortReason

-- `calls` lists the calls of `onAbort`.
pub record Heartbeat : Type 0 where
  pub stats : HeartbeatStats
  pub consecutive : ℕ
  pub aborted : Bool
  pub calls : List AbortReason

unfoldable pub new_heartbeat : Heartbeat
new_heartbeat = record {
  stats = record { renewals = 0; failures = 0; lease_renewed = false; reason = none };
  consecutive = 0;
  aborted = false;
  calls = [];
}

-- What one tick meets: the renewal, the status behind a rejected renewal (`none` also when the
-- query fails), and whether its first and its second log write succeed.
pub record Answers : Type 0 where
  pub renewal : Result (Option WorkerJob)
  pub status : Option JobStatus
  pub first_log : Bool
  pub second_log : Bool

unfoldable pub fire : AbortReason → Heartbeat → Heartbeat
fire reason h = if h.aborted then h else record h {
  aborted = true;
  stats = record h.stats { reason = some reason };
  calls = h.calls ++ reason ∷ [];
}

abbrev one_failure : Heartbeat → Heartbeat
one_failure h = record h {
  stats = record h.stats { failures = h.stats.failures + 1 };
  consecutive = h.consecutive + 1;
}

-- The `catch` block. A log write that throws there rejects the tick before the threshold's test:
-- the Boolean says whether the tick is rejected.
unfoldable pub on_error : ℕ → Bool → Heartbeat → Heartbeat × Bool
unfolding fire
on_error threshold logged h =
    let h' = one_failure h in
    if logged
    then ((if leb threshold h'.consecutive then fire lease_renewal_failed h' else h'), false)
    else (h', true)

abbrev lost_reason : Option JobStatus → AbortReason
lost_reason none = lease_lost
lost_reason (some s) = if is_cancelled s then external_cancel else lease_lost

abbrev renewed : Heartbeat → Heartbeat
renewed h = record h {
  stats = record h.stats { renewals = h.stats.renewals + 1; lease_renewed = true };
  consecutive = 0;
}

abbrev on_renewal : ℕ → Answers → Heartbeat → Result (Option WorkerJob) → Heartbeat × Bool
on_renewal threshold a h (ok (some job)) =
    if a.first_log then (renewed h, false) else on_error threshold a.second_log (renewed h)
on_renewal threshold a h (ok none) =
    if a.first_log
    then (fire (lost_reason a.status) h, false)
    else on_error threshold a.second_log h
on_renewal threshold a h (err message) = on_error threshold a.first_log h

unfoldable pub tick : ℕ → Answers → Heartbeat → Heartbeat × Bool
unfolding on_error
tick threshold a h = if h.aborted then (h, false) else on_renewal threshold a h a.renewal

-- The timer drops a tick's promise, so a rejected tick ends the process: none follows it.
unfoldable pub ticks : ℕ → List Answers → Heartbeat → Heartbeat
ticks threshold [] h = h
ticks threshold (a ∷ as') h =
    let rest = ticks threshold as' (tick threshold a h).0 in
    if (tick threshold a h).1 then (tick threshold a h).0 else rest
