-- ===== src/Registry/RateLimit.antt =====
-- apps/registry/src/rate-limit.ts: the limit on the requests of one client, in memory. A bucket
-- counts the requests of a key in a window of time.
pub mod Window
pub mod Tests
use clawdentity.Shared.{
  ℕ, ◌+◌, ◌-◌, String, Bool, true, false, Option, none, some, List, [], ◌∷◌, ◌++◌, leb, ltb, length,
  if◌then◌else◌,
}
use Prim.Native.String.{◌++◌ as append_text}
use clawdentity.Shared.Dict.{Dict, get, set, delete, retain}
use clawdentity.Shared.Text.{trim, is_empty}

pub record Bucket : Type 0 where
  pub window_started_at_ms : ℕ
  pub count : ℕ

pub record RateLimitOptions : Type 0 where
  pub bucket_key : String
  pub max_requests : ℕ
  pub max_buckets : ℕ
  pub window_ms : ℕ

-- The header `cf-connecting-ip`, if the request has it.
unfoldable pub resolve_client_ip : Option String → String
resolve_client_ip none = "unknown"
resolve_client_ip (some ip) = if is_empty (trim ip) then "unknown" else trim ip

-- What the middleware does: it calls `next`, or throws RATE_LIMIT_EXCEEDED.
pub data Verdict : Type 0 where
  passed : Verdict
  exceeded : Verdict

module _ (options : RateLimitOptions) where
  unfoldable pub bucket_key_of : Option String → String
  bucket_key_of ip = append_text options.bucket_key (append_text ":" (resolve_client_ip ip))

  -- `now - windowStartedAtMs >= windowMs`; a start later than now gives a negative difference.
  unfoldable pub is_over : ℕ → Bucket → Bool
  is_over now b = leb (b.window_started_at_ms + options.window_ms) now

  unfoldable pub drop_over : ℕ → Dict Bucket → Dict Bucket
  drop_over now buckets = retain (λ key b. if is_over now b then false else true) buckets

  -- The key of the earliest start, the first one among equals, from the best one so far on.
  oldest_from : Option (String × ℕ) → Dict Bucket → Option (String × ℕ)
  oldest_from best [] = best
  oldest_from none ((key, b) ∷ buckets) = oldest_from (some (key, b.window_started_at_ms)) buckets
  oldest_from (some (k, start)) ((key, b) ∷ buckets) =
      let keep = oldest_from (some (k, start)) buckets in
      let replace = oldest_from (some (key, b.window_started_at_ms)) buckets in
      if ltb b.window_started_at_ms start then replace else keep

  -- `if (oldestKey) buckets.delete(oldestKey)`: the empty key is not deleted.
  delete_oldest : Option (String × ℕ) → Dict Bucket → Dict Bucket
  delete_oldest none buckets = buckets
  delete_oldest (some (key, start)) buckets = if is_empty key then buckets else delete buckets key

  unfoldable pub make_room : Dict Bucket → Dict Bucket
  unfolding oldest_from delete_oldest
  make_room buckets =
      if leb options.max_buckets (length buckets)
      then delete_oldest (oldest_from none buckets) buckets
      else buckets

  unfoldable pub open_window : ℕ → String → Dict Bucket → Dict Bucket × Verdict
  open_window now key buckets =
      (set buckets key (record { window_started_at_ms = now; count = 1 }), passed)

  unfoldable pub count_request : ℕ → String → Option Bucket → Dict Bucket → Dict Bucket × Verdict
  count_request now key none buckets = open_window now key (make_room buckets)
  count_request now key (some b) buckets =
      if is_over now b
      then open_window now key buckets
      else if leb options.max_requests b.count
      then (buckets, exceeded)
      else (set buckets key (record b { count = b.count + 1 }), passed)

  -- The middleware for a request at this time.
  unfoldable pub rate_limit : ℕ → Option String → Dict Bucket → Dict Bucket × Verdict
  unfolding bucket_key_of
  rate_limit now ip buckets =
      let live = drop_over now buckets in
      let key = bucket_key_of ip in count_request now key (get live key) live
