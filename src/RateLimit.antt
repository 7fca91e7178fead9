-- ===== src/RateLimit.antt =====
-- lib/ai-orchestrator/security/rate-limit.ts: the in-memory store and `rateLimit`. The map from
-- identifiers to times is a function; a missing entry is the empty list.
pub mod Window
use botchatgptclaude.Prelude.{
  ℕ, ◌+◌, ◌-◌, ◌*◌, ◌/◌, ltb, String, Bool, true, false, Option, get_or, List, [], ◌∷◌, ◌++◌, ◌==◌,
  if◌then◌else◌, filter, length,
}

abbrev pub Hits : Type 0
Hits = String → List ℕ

pub record RateLimitHit : Type 0 where
  pub count : ℕ
  pub oldest_timestamp : ℕ

pub record RateLimitOptions : Type 0 where
  pub limit : Option ℕ
  pub window_ms : Option ℕ

pub record RateLimitResult : Type 0 where
  pub is_ok : Bool
  pub limit : ℕ
  pub remaining : ℕ
  pub retry_after : ℕ
  pub status : ℕ

-- `t > now - windowMs`, which is a comparison of integers
abbrev pub is_live : ℕ → ℕ → ℕ → Bool
is_live window_ms now t = ltb now (t + window_ms)

abbrev first_or : ℕ → List ℕ → ℕ
first_or d [] = d
first_or d (t ∷ ts) = t

abbrev pub set_hits : String → List ℕ → Hits → Hits
set_hits key ts hits k = if key == k then ts else hits k

unfoldable pub hit : String → ℕ → ℕ → Hits → Hits × RateLimitHit
hit key window_ms now hits =
    let existing = filter (is_live window_ms now) (hits key) ++ now ∷ [] in
    (
      set_hits key existing hits,
      record { count = length existing; oldest_timestamp = first_or now existing },
    )

abbrev pub default_limit : ℕ
default_limit = 10

abbrev pub default_window_ms : ℕ
default_window_ms = 600000

-- `Math.max(1, Math.ceil((oldestTimestamp + windowMs - now) / 1000))`; a difference below 0 is
-- rounded up to at most 0, so that 1 is the greater one, as it is for 0.
unfoldable pub retry_seconds : ℕ → ℕ → ℕ → ℕ
retry_seconds oldest window_ms now =
    let s = (oldest + window_ms - now + 999) / 1000 in if ltb s 1 then 1 else s

unfoldable pub answer : ℕ → ℕ → ℕ → RateLimitHit → RateLimitResult
unfolding retry_seconds
answer limit window_ms now h =
    if ltb limit h.count
    then record {
      is_ok = false;
      limit = limit;
      remaining = 0;
      retry_after = retry_seconds h.oldest_timestamp window_ms now;
      status = 429;
    }
    else record {
      is_ok = true;
      limit = limit;
      remaining = limit - h.count;
      retry_after = 0;
      status = 200;
    }

unfoldable pub rate_limit : String → RateLimitOptions → ℕ → Hits → Hits × RateLimitResult
unfolding hit answer
rate_limit identifier opts now hits =
    let window_ms = get_or opts.window_ms default_window_ms in
    let (hits', h) = hit identifier window_ms now hits in
    (hits', answer (get_or opts.limit default_limit) window_ms now h)
