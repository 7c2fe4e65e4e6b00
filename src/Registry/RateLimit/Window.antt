-- ===== src/Registry/RateLimit/Window.antt =====
-- How many requests of a client pass in a window of time.
use clawdentity.Shared.{
  ℕ, ◌+◌, ◌≤◌, ◌<◌, max, ◌≡◌, refl, ◌∙◌, String, true, false, Option, none, some, List, [], ◌∷◌,
  All, leb, length, ◌==◌, if◌then◌else◌, arith, eq_iff, eq_refl, Bool-cases, inl, inr,
}
use clawdentity.Shared.Dict.{
  Dict, get, set, get-set, get-set_self, get-retain_of_keep, length-set-le, length-set_of_some,
  length-retain-le,
}
use clawdentity.Registry.RateLimit.{
  Bucket, RateLimitOptions, Verdict, passed, exceeded, bucket_key_of, is_over, drop_over, make_room,
  open_window, count_request, rate_limit,
}

tally : Verdict → ℕ → ℕ
tally passed n = n + 1
tally exceeded n = n

module _ (options : RateLimitOptions) where
  -- The requests with this key that pass, of a sequence of times and headers.
  unfoldable pub count_passed : String → List (ℕ × Option String) → Dict Bucket → ℕ
  unfolding tally
  count_passed key [] buckets = 0
  count_passed key ((now, ip) ∷ requests) buckets =
      let (buckets', verdict) = rate_limit options now ip buckets in
      let rest = count_passed key requests buckets' in
      if bucket_key_of options ip == key then tally verdict rest else rest

  drop_over-some :
      (now : ℕ) (key : String) (b : Bucket) (buckets : Dict Bucket)
      → now < b.window_started_at_ms + options.window_ms
      → get buckets key ≡ some b
      → (get (drop_over options now buckets) key ≡ some b)
        × (length (drop_over options now buckets) ≤ length buckets)
  unfolding drop_over is_over
  drop_over-some now key b buckets early h =
      (get-retain_of_keep _ buckets key b h (ground (arith, early)), length-retain-le _ buckets)

  -- A request with another key leaves the bucket alone if there is room.
  count_other :
      (now : ℕ) (other key : String) (b : Bucket) (o : Option Bucket) (live : Dict Bucket)
      → (other == key) ≡ false
      → length live < options.max_buckets
      → get live key ≡ some b
      → (get (count_request options now other o live).0 key ≡ some b)
        × (length (count_request options now other o live).0 ≤ length live + 1)
  unfolding count_request open_window make_room
  count_other now other key b none live differs room h = ground (
    arith,
    room,
    get-set live other key (record { window_started_at_ms = now; count = 1 }),
    differs,
    h,
    length-set-le live other (record { window_started_at_ms = now; count = 1 }),
  )
  count_other now other key b (some b') live differs room h = ground (
    arith,
    differs,
    h,
    get-set live other key (record { window_started_at_ms = now; count = 1 }),
    length-set-le live other (record { window_started_at_ms = now; count = 1 }),
    get-set live other key (record b' { count = b'.count + 1 }),
    length-set-le live other (record b' { count = b'.count + 1 }),
  )

  -- A request of the window counts, or is refused once the count is reached.
  count_same :
      (now : ℕ) (key : String) (b : Bucket) (live : Dict Bucket)
      → now < b.window_started_at_ms + options.window_ms
      → count_request options now key (some b) live ≡ (
          if leb options.max_requests b.count
          then (live, exceeded)
          else (set live key (record b { count = b.count + 1 }), passed))
  unfolding count_request is_over
  count_same now key b live early = ground (arith, early)

  -- The bucket of the key is in this window and has this count.
  abbrev Counts : String → ℕ → ℕ → Dict Bucket → Type 0
  Counts key start n buckets =
      get buckets key ≡ some (record { window_started_at_ms = start; count = n })

  rate_limit_same :
      (now start n : ℕ) (ip : Option String) (key : String) (buckets : Dict Bucket)
      → now < start + options.window_ms
      → bucket_key_of options ip ≡ key
      → Counts key start n (drop_over options now buckets)
      → rate_limit options now ip buckets ≡ (
          if leb options.max_requests n then (drop_over options now buckets, exceeded) else (
            set
                (drop_over options now buckets)
                key
                (record { window_started_at_ms = start; count = n + 1 }),
            passed,
          ))
  unfolding rate_limit
  rate_limit_same now start n ip key buckets early same h =
      rw (same, h)
        (count_same now key (record { window_started_at_ms = start; count = n })
          (drop_over options now buckets) early)

  count_passed_same :
      (now : ℕ) (ip : Option String) (key : String) (requests : List (ℕ × Option String))
      (buckets next : Dict Bucket) (v : Verdict)
      → (bucket_key_of options ip == key) ≡ true
      → rate_limit options now ip buckets ≡ (next, v)
      → count_passed key ((now, ip) ∷ requests) buckets ≡ tally v (count_passed key requests next)
  unfolding count_passed
  count_passed_same now ip key requests buckets next v same e = rw (same, e) refl

  passed_within :
      (key : String) (start n : ℕ) (requests : List (ℕ × Option String)) (buckets : Dict Bucket)
      → All (λ r. r.0 < start + options.window_ms) requests
      → length buckets + length requests ≤ options.max_buckets
      → Counts key start n buckets
      → count_passed key requests buckets + n ≤ max options.max_requests n
  unfolding count_passed rate_limit tally
  passed_within key start n [] buckets early room h = omega arith
  passed_within key start n ((now, ip) ∷ requests) buckets (first, early) room h =
      let b : Bucket = record { window_started_at_ms = start; count = n } in
      let b' : Bucket = record { window_started_at_ms = start; count = n + 1 } in
      let live = drop_over options now buckets in
      let (there, shorter) = drop_over-some now key b buckets first h in
      elim (Bool-cases (bucket_key_of options ip == key)) [
        | inr differs ↦
            let (kept, longer) =
              count_other now (bucket_key_of options ip) key b (get live (bucket_key_of options ip))
                live differs (omega (arith, room, shorter)) there in
            rw differs (
              passed_within key start n requests _ early (omega (arith, room, shorter, longer))
                kept)
        | inl same ↦
            let verdict =
              rate_limit_same now start n ip key buckets first
                ((eq_iff (bucket_key_of options ip) key).0 same) there in
            elim (Bool-cases (leb options.max_requests n)) [
              | inl full ↦
                  let e =
                    count_passed_same now ip key requests buckets live exceeded same
                      (verdict ∙ rw full refl) in
                  let rest =
                    passed_within key start n requests live early (omega (arith, room, shorter))
                      there in
                  omega (arith, e, rest)
              | inr more ↦
                  let longer = length-set_of_some live key b' b there in
                  let e =
                    count_passed_same now ip key requests buckets (set live key b') passed same
                      (verdict ∙ rw more refl) in
                  let rest =
                    passed_within key start (n + 1) requests (set live key b') early
                      (omega (arith, room, shorter, longer)) (get-set_self live key b') in
                  ground (arith, e, rest, more)
            ]
      ]

  rate_limit_new :
      (start : ℕ) (ip : Option String) (buckets : Dict Bucket)
      → get (drop_over options start buckets) (bucket_key_of options ip) ≡ none
      → length (drop_over options start buckets) < options.max_buckets
      → rate_limit options start ip buckets ≡ (
        set
            (drop_over options start buckets)
            (bucket_key_of options ip)
            (record { window_started_at_ms = start; count = 1 }),
        passed,
      )
  unfolding rate_limit count_request open_window make_room
  rate_limit_new start ip buckets new room = rw new (ground (arith, room))

  -- Of the requests of one client in a window of time that its first request opens, at most
  -- `maxRequests` pass (at least the first one does), as long as the requests in between, of which
  -- others may be of other clients, cannot fill the buckets.
  pub window_limit :
      (start : ℕ) (ip : Option String) (requests : List (ℕ × Option String)) (buckets : Dict Bucket)
      → get (drop_over options start buckets) (bucket_key_of options ip) ≡ none
      → All (λ r. r.0 < start + options.window_ms) requests
      → length buckets + length requests < options.max_buckets
      → count_passed (bucket_key_of options ip) ((start, ip) ∷ requests) buckets
        ≤ max options.max_requests 1
  unfolding tally drop_over
  window_limit start ip requests buckets new early room =
      let key = bucket_key_of options ip in
      let b : Bucket = record { window_started_at_ms = start; count = 1 } in
      let live = drop_over options start buckets in
      let shorter : length live ≤ length buckets = length-retain-le _ buckets in
      let e =
        count_passed_same start ip key requests buckets (set live key b) passed (eq_refl key)
          (rate_limit_new start ip buckets new (omega (arith, room, shorter))) in
      let rest =
        passed_within key start 1 requests (set live key b) early
          (omega (arith, room, shorter, length-set-le live key b)) (get-set_self live key b) in
      omega (arith, e, rest)
