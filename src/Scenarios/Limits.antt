-- ===== src/Scenarios/Limits.antt =====
-- Three calls, two of them of one identifier in its window.
use botchatgptclaude.Prelude.{suc, ◌≡◌, some, List, [], ◌∷◌, length, leb, arith}
use botchatgptclaude.RateLimit.{RateLimitOptions, rate_limit}
use botchatgptclaude.RateLimit.Window.{Call, after, recent, rate_limit-counts}

abbrev two : RateLimitOptions
two = record { limit = some 2; window_ms = some 100 }

abbrev three_calls : List Call
three_calls =
    (record { identifier = "a"; time = 10 })
    ∷ (record { identifier = "b"; time = 120 })
    ∷ (record { identifier = "a"; time = 150 })
    ∷ []

rate_limit-counts_example :
    (rate_limit "a" two 160 (after two three_calls (λ k. []))).1.is_ok
    ≡ leb (suc (length (recent two "a" 160 three_calls))) 2
rate_limit-counts_example =
    rate_limit-counts two "a" 160 three_calls (omega arith, (omega arith, (omega arith, tt)))
