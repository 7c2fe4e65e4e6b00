-- ===== src/Registry/RateLimit/Tests.antt =====
-- Runs of the rate limit.
use clawdentity.Shared.{ℕ, ◌≤◌, refl, String, some, List, [], ◌∷◌, Option, arith}
use clawdentity.Shared.Dict.{get, retain}
use clawdentity.Registry.RateLimit.{RateLimitOptions, bucket_key_of, drop_over}
use clawdentity.Registry.RateLimit.Window.{count_passed, window_limit}

abbrev options : RateLimitOptions
options = record { bucket_key = "resolve"; max_requests = 2; max_buckets = 10; window_ms = 100 }

abbrev requests : List (ℕ × Option String)
requests =
    (60, some "1.1.1.1") ∷ (70, some "2.2.2.2") ∷ (80, some "1.1.1.1") ∷ (149, some "1.1.1.1") ∷ []

window_limit_example :
    count_passed options
      (bucket_key_of options (some "1.1.1.1"))
      ((50, some "1.1.1.1") ∷ requests)
      []
    ≤ 2
unfolding get drop_over retain
window_limit_example =
    window_limit options 50 (some "1.1.1.1") requests [] refl
      (omega arith, (omega arith, (omega arith, (omega arith, tt)))) (omega arith)
