-- ===== src/Detection/RateLimit/Burst.antt =====
-- crates/waf-detection/src/rate_limit.rs: how many requests a client can make at one instant.
use rust_waf.Common.{
  ℕ, zero, suc, ◌-◌, ◌≤◌, ◌<◌, max, Bool, true, false, List, [], ◌∷◌, Option, none, some, ◌≡◌, refl,
  ap, ◌∙◌, arith, Bytes, bytes_eq, bytes_eq_iff, leb, length, all,
}
use mathlib.Core.Option
use rust_waf.Core.Context.{IpAddr, RequestContext}
use rust_waf.Core.Decision.{Decision}
use rust_waf.Core.Config.{RateLimitKey, RateLimitAction, RateLimitConfig}
use rust_waf.Core.State.{
  Float, Bucket, InMemoryStateStore, lookup, insert, refilled, consume, or_fresh, acquire_in,
  make_room, try_acquire,
}
use rust_waf.Core.State.Tracked.{lookup-insert}
use rust_waf.Detection.RateLimit.{
  RateLimitModule, unwrap_or, init, over_budget, judge, key_for, inspect,
}

-- A decision that lets the request through with no mark.
abbrev pub is_allow : Decision → Bool
is_allow Decision.allow = true
is_allow _ = false

-- The verdicts on `n` requests of a client that has `tokens` tokens and gets none.
abbrev pub budgeted : ℕ → ℕ → List Bool
budgeted tokens zero = []
budgeted zero (suc n) = false ∷ budgeted zero n
budgeted (suc tokens) (suc n) = true ∷ budgeted tokens n

-- What f64 does with whole numbers up to `bound`, 2^53 or less, where `rate` is a number that is not
-- negative and finite.
pub record WholeNumbers {F : Type 0} (f64 : Float F) (bound : ℕ) (rate : F) : Type 0 where
  pub one_is_less : (n : ℕ) → n < bound → f64.le (f64.from_uint 1) (f64.from_uint (suc n)) ≡ true
  pub zero_is_less : f64.le (f64.from_uint 1) (f64.from_uint 0) ≡ false
  pub subtract_one :
      (n : ℕ) → n < bound → f64.subtract (f64.from_uint (suc n)) (f64.from_uint 1) ≡ f64.from_uint n
  pub add_nothing :
      (n : ℕ)
      → n ≤ bound
      → f64.add (f64.from_uint n) (f64.multiply (f64.as_secs_f64 0) rate) ≡ f64.from_uint n
  pub minimum_whole :
      (n c : ℕ)
      → n ≤ c
      → c ≤ bound
      → f64.minimum (f64.from_uint n) (f64.from_uint c) ≡ f64.from_uint n

module _ {F : Type 0} (f64 : Float F) (to_string : IpAddr → Bytes) where
  abbrev pub and_then : {A B : Type 0} → Option A → (A → Option B) → Option B
  and_then none f = none
  and_then (some a) f = f a

  -- The verdicts of the module on requests at one instant, one after the other on the store that the
  -- one before leaves.
  abbrev pub verdicts :
      RateLimitModule F → ℕ → InMemoryStateStore F → List RequestContext → Option (List Bool)
  verdicts m now store [] = some []
  verdicts m now store (ctx ∷ ctxs) =
      and_then (inspect f64 to_string m now store ctx)
        λ r. Option.map (λ vs. is_allow r.0 ∷ vs) (verdicts m now r.1 ctxs)

  judge-is_allow :
      (allowed : Bool) (m : RateLimitModule F) (tokens : F)
      → is_allow (judge f64 allowed m tokens) ≡ allowed
  judge-is_allow true m tokens = refl
  judge-is_allow false m tokens = over m.action
    where
      over : (action : RateLimitAction) → is_allow (over_budget f64 action m tokens) ≡ false
      over RateLimitAction.block = refl
      over RateLimitAction.score = refl

  abbrev one_less : ℕ → ℕ
  one_less zero = 0
  one_less (suc t) = t

  abbrev holds_one : ℕ → Bool
  holds_one zero = false
  holds_one (suc t) = true

  abbrev AllFrom : RateLimitKey → Bytes → List RequestContext → Type 0
  AllFrom kind key [] = 0 ≤ 0
  AllFrom kind key (ctx ∷ ctxs) = (key_for f64 to_string kind ctx ≡ key) × AllFrom kind key ctxs

  clients_of :
      (kind : RateLimitKey) (key : Bytes) (ctxs : List RequestContext)
      → all (λ ctx. bytes_eq (key_for f64 to_string kind ctx) key) ctxs ≡ true
      → AllFrom kind key ctxs
  clients_of kind key [] h = omega arith
  clients_of kind key (ctx ∷ ctxs) h = (
    (bytes_eq_iff (key_for f64 to_string kind ctx) key).0 (ground (arith, h)),
    clients_of kind key ctxs (ground (arith, h)),
  )

  module _ (m : RateLimitModule F) (bound c now : ℕ)
      (numbers : WholeNumbers f64 bound m.params.refill_per_sec) (fits : c ≤ bound)
      (capacity : m.params.capacity ≡ f64.from_uint c) (on : m.enabled ≡ true) (key : Bytes) where
    -- The bucket holds `t` tokens at this instant, or is made with them, with no sweep before.
    abbrev Ready : ℕ → InMemoryStateStore F → Type 0
    Ready t store =
        (or_fresh f64 m.params now (lookup key store.buckets)
          ≡ record { tokens = f64.from_uint t; last = now })
        × (make_room f64 now m.params store (lookup key store.buckets) ≡ some store)

    refilled_whole :
        (t : ℕ)
        → t ≤ c
        → refilled f64 now m.params (record { tokens = f64.from_uint t; last = now })
          ≡ f64.from_uint t
    unfolding refilled
    refilled_whole t h =
        let still : now - now ≡ 0 = omega arith in
        ap
          (λ (elapsed : ℕ).
            f64.minimum
              (f64.add (f64.from_uint t)
                (f64.multiply (f64.as_secs_f64 elapsed) m.params.refill_per_sec))
              m.params.capacity)
          still
        ∙ (ap (λ (x : F). f64.minimum x m.params.capacity)
              (numbers.add_nothing t (omega (arith, fits)))
            ∙ (ap (f64.minimum (f64.from_uint t)) capacity ∙ numbers.minimum_whole t c h fits))

    consume_whole :
        (t : ℕ)
        → t ≤ c
        → consume f64 (f64.from_uint 1) (f64.from_uint t)
          ≡ record { allowed = holds_one t; tokens_remaining = f64.from_uint (one_less t) }
    unfolding consume
    consume_whole zero h = rw numbers.zero_is_less refl
    consume_whole (suc t) h =
        rw
          (
            numbers.one_is_less t (omega (arith, fits)),
            numbers.subtract_one t (omega (arith, fits)),
          )
          refl

    abbrev after : ℕ → InMemoryStateStore F → InMemoryStateStore F
    after t store = record store {
      buckets =
          insert key (record { tokens = f64.from_uint (one_less t); last = now }) store.buckets;
    }

    acquire_in-whole :
        (t : ℕ) (store : InMemoryStateStore F)
        → t ≤ c
        → Ready t store
        → acquire_in f64 now key (f64.from_uint 1) m.params store ≡ (
          record { allowed = holds_one t; tokens_remaining = f64.from_uint (one_less t) },
          after t store,
        )
    unfolding acquire_in
    acquire_in-whole t store h (found, room) =
        rw (found, refilled_whole t h, consume_whole t h) refl

    inspect-whole :
        (t : ℕ) (store : InMemoryStateStore F) (ctx : RequestContext)
        → t ≤ c
        → Ready t store
        → key_for f64 to_string m.key ctx ≡ key
        → inspect f64 to_string m now store ctx
          ≡ some (judge f64 (holds_one t) m (f64.from_uint (one_less t)), after t store)
    unfolding inspect try_acquire
    inspect-whole t store ctx h ready same = rw on (ap (Option.map _) tried)
      where
        tried :
            try_acquire f64 now (key_for f64 to_string m.key ctx) (f64.from_uint 1) m.params store
            ≡ some (
              record { allowed = holds_one t; tokens_remaining = f64.from_uint (one_less t) },
              after t store,
            )
        tried =
            ap (λ (k : Bytes). try_acquire f64 now k (f64.from_uint 1) m.params store) same
            ∙ (ap (Option.map (acquire_in f64 now key (f64.from_uint 1) m.params)) ready.1
                ∙ ap some (acquire_in-whole t store h ready))

    after-Ready : (t : ℕ) (store : InMemoryStateStore F) → Ready (one_less t) (after t store)
    unfolding make_room
    after-Ready t store =
        let b : Bucket F = record { tokens = f64.from_uint (one_less t); last = now } in
        rw (lookup-insert key b store.buckets) (refl, refl)

    verdicts-budgeted :
        (ctxs : List RequestContext) (t : ℕ) (store : InMemoryStateStore F)
        → t ≤ c
        → Ready t store
        → AllFrom m.key key ctxs
        → verdicts m now store ctxs ≡ some (budgeted t (length ctxs))
    verdicts-budgeted [] t store h ready same = refl
    verdicts-budgeted (ctx ∷ ctxs) zero store h ready (same, more) =
        rw
          (
            inspect-whole 0 store ctx h ready same,
            judge-is_allow false m (f64.from_uint 0),
            verdicts-budgeted ctxs 0 (after 0 store) h (after-Ready 0 store) more,
          )
          refl
    verdicts-budgeted (ctx ∷ ctxs) (suc t) store h ready (same, more) =
        rw
          (
            inspect-whole (suc t) store ctx h ready same,
            judge-is_allow true m (f64.from_uint t),
            verdicts-budgeted ctxs t (after (suc t) store) (omega arith) (after-Ready (suc t) store)
                more,
          )
          refl

  -- For whole numbers that f64 represents: a client that is not tracked, on a store below its cap,
  -- makes any number of requests at one instant. As many of them as the burst of the configuration
  -- (or else its requests, and at least one) are allowed, the first ones, and no other, whatever the
  -- configured action; the module does not panic.
  pub verdicts-burst :
      (rl : RateLimitConfig) (bound now : ℕ) (store : InMemoryStateStore F) (key : Bytes)
      (ctxs : List RequestContext)
      → WholeNumbers f64 bound (init f64 rl).params.refill_per_sec
      → rl.enabled ≡ true
      → max (unwrap_or rl.burst rl.requests) 1 ≤ bound
      → lookup key store.buckets ≡ none
      → length store.buckets < store.max_tracked_keys
      → all (λ ctx. bytes_eq (key_for f64 to_string rl.key ctx) key) ctxs ≡ true
      → verdicts (init f64 rl) now store ctxs
        ≡ some (budgeted (max (unwrap_or rl.burst rl.requests) 1) (length ctxs))
  unfolding init make_room
  verdicts-burst rl bound now store key ctxs numbers on fits fresh below clients =
      verdicts-budgeted (init f64 rl) bound c now numbers fits refl on key ctxs c store
        (omega arith) (rw fresh refl, rw (fresh, not_full) refl)
        (clients_of rl.key key ctxs clients)
    where
      c : ℕ
      c = max (unwrap_or rl.burst rl.requests) 1

      not_full : leb store.max_tracked_keys (length store.buckets) ≡ false
      not_full = ground (arith, below)
