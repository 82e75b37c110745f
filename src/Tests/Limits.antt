-- ===== src/Tests/Limits.antt =====
-- crates/waf-core/src/state.rs and crates/waf-detection/src/rate_limit.rs: a client with a bucket.
use rust_waf.Common.{
  ℕ, ◌+◌, ◌-◌, ◌*◌, ◌/◌, min, max, true, false, [], ◌∷◌, Option, none, some, ◌≡◌, refl, arith,
  Bytes, codes, bytes_eq, leb,
}
use rust_waf.Core.Context.{IpAddr}
use rust_waf.Core.Config.{RateLimitKey, RateLimitAction, RateLimitConfig}
use rust_waf.Core.State.{
  Float, Acquired, Bucket, InMemoryStateStore, tracked_keys, lookup, insert, refilled, try_acquire,
}
use rust_waf.Core.State.Tracked.{MinimumIsBounded, Decided, try_acquire-tracked}
use rust_waf.Detection.RateLimit.{RateLimitModule, init}
use rust_waf.Detection.RateLimit.Burst.{WholeNumbers, verdicts, verdicts-burst}
use rust_waf.Tests.Requests.{request}

-- Whole numbers of tokens and seconds.
abbrev whole : Float ℕ
whole = record {
  zero = 0;
  add = λ a b. a + b;
  subtract = λ a b. a - b;
  multiply = λ a b. a * b;
  divide = λ a b. a / b;
  minimum = λ a b. min a b;
  maximum = λ a b. max a b;
  ceil = λ a. a;
  le = λ a b. leb a b;
  from_uint = λ n. n;
  as_u64 = λ n. n;
  as_secs_f64 = λ n. n / 1000000000;
  from_secs_f64 = λ n. some (n * 1000000000);
}

min_fits : MinimumIsBounded whole
min_fits a b h = ground arith

whole_numbers : (bound rate : ℕ) → WholeNumbers whole bound rate
whole_numbers bound rate = record {
  one_is_less = λ n h. ground arith;
  zero_is_less = refl;
  subtract_one = λ n h. omega arith;
  add_nothing = λ n h. omega arith;
  minimum_whole = λ n c h k. omega arith;
}

abbrev limiter : RateLimitModule ℕ
limiter = init whole (record {
  enabled = true;
  key = RateLimitKey.client_ip;
  requests = 10;
  window_seconds = 5;
  burst = none;
  action = RateLimitAction.block;
  score = 5;
  max_tracked_keys = 100;
})

-- A bucket that was emptied at the start.
abbrev emptied : Bucket ℕ
emptied = record { tokens = 0; last = 0 }

abbrev store : InMemoryStateStore ℕ
store = record {
  max_tracked_keys = 100;
  buckets = (codes "::1", emptied) ∷ (codes "10.0.0.1", emptied) ∷ [];
}

emptied_is_tracked : lookup (codes "10.0.0.1") store.buckets ≡ some emptied
unfolding lookup
emptied_is_tracked = refl

try_acquire-tracked_example :
    (acquired : Acquired ℕ) × (after : InMemoryStateStore ℕ) × (try_acquire whole 1000000000
        (codes "10.0.0.1")
        1
        limiter.params
        store
      ≡ some (acquired, after))
    × (leb (refilled whole 1000000000 limiter.params emptied) limiter.params.capacity ≡ true)
    × Decided whole 1 (refilled whole 1000000000 limiter.params emptied) acquired
    × (lookup (codes "10.0.0.1") after.buckets
        ≡ some (record { tokens = acquired.tokens_remaining; last = 1000000000 }))
    × ((other : Bytes)
        → bytes_eq (codes "10.0.0.1") other ≡ false
        → lookup other after.buckets ≡ lookup other store.buckets)
unfolding init
try_acquire-tracked_example =
    try_acquire-tracked whole 1000000000 (codes "10.0.0.1") 1 limiter.params store emptied min_fits
      refl emptied_is_tracked

-- Two requests in five seconds, with no burst of its own.
abbrev two_requests : RateLimitConfig
two_requests = record {
  enabled = true;
  key = RateLimitKey.client_ip;
  requests = 2;
  window_seconds = 5;
  burst = none;
  action = RateLimitAction.block;
  score = 5;
  max_tracked_keys = 100;
}

abbrev stranger : IpAddr → Bytes
stranger ip = codes "10.0.0.9"

stranger_is_fresh : lookup (codes "10.0.0.9") store.buckets ≡ none
unfolding lookup
stranger_is_fresh = refl

verdicts-burst_example :
    verdicts whole stranger (init whole two_requests) 7 store (request ∷ request ∷ request ∷ [])
    ≡ some (true ∷ true ∷ false ∷ [])
verdicts-burst_example =
    verdicts-burst whole stranger two_requests 10 7 store (codes "10.0.0.9")
      (request ∷ request ∷ request ∷ [])
      (whole_numbers 10 (init whole two_requests).params.refill_per_sec) refl (omega arith)
      stranger_is_fresh (omega arith) refl

-- In the same second there is no token, and one comes back after a second.
refused_at_once :
    try_acquire whole 0 (codes "10.0.0.1") 1 limiter.params store
    ≡ some (
        (
          record { allowed = false; tokens_remaining = 0 },
          record store { buckets = (codes "::1", emptied) ∷ (codes "10.0.0.1", emptied) ∷ [] },
        ))
unfolding try_acquire lookup insert init
refused_at_once = refl

-- The keys after an attempt.
abbrev keys_after : Option (Acquired ℕ × InMemoryStateStore ℕ) → ℕ
keys_after none = 0
keys_after (some (acquired, after)) = tracked_keys after

-- A store at its cap whose buckets are not full takes one key more.
one_over_the_cap :
    keys_after (
      try_acquire whole 0
        (codes "10.0.0.2")
        1
        limiter.params
        (record store { max_tracked_keys = 2 }))
    ≡ 3
unfolding try_acquire tracked_keys lookup insert init
one_over_the_cap = refl
