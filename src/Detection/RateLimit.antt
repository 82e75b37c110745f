-- ===== src/Detection/RateLimit.antt =====
-- crates/waf-detection/src/rate_limit.rs, over the buckets in memory.
--
-- `IpAddr::to_string` is the argument `to_string`. The store is passed on; `none` is a panic in it.
pub mod Burst
use rust_waf.Common.{
  ℕ, zero, suc, ◌+◌, ◌-◌, ◌*◌, ◌/◌, ◌%◌, ◌^◌, ◌≤◌, ◌<◌, min, max, Bool, true, false, not, ◌&&◌,
  ◌||◌, List, [], ◌∷◌, ◌++◌, map, append_assoc, append-nil, Option, none, some, ◌≡◌, refl, sym, ap,
  ◌∙◌, subst, ◌≢◌, ◌↔◌, ◌⊎◌, inl, inr, arith, Bytes, codes, bytes_eq, bytes_eq_iff, is_ascii_digit,
  is_ascii_alphabetic, is_ascii_alphanumeric, to_ascii_lowercase, eq_ignore_ascii_case, starts_with,
  ltb, leb, ◌==◌, within, if◌then◌else◌, ltb→lt, lt→ltb, ==_iff, Bool-cases, Option-cases, length,
  get_elem?, take, drop, any, all, keep, find, is_empty, length-append, take-append-drop,
  length-take, length-drop, length-keep-le, decimal, parse_uint, white_len, trim_start, trim_end,
  trim, split, split_once, strip_prefix, strip_prefix_iff, ends_with, cons_head,
}
use rust_waf.Core.Context.{
  IpAddr, MultipartField, ParsedBody, Normalized, RequestContext, ScoreContribution,
}
use rust_waf.Core.Decision.{
  Severity, ScoreItem, Decision, Phase, FailMode, WafMode, SeverityScores, points_for,
}
use mathlib.Core.Option
use rust_waf.Core.Config.{RateLimitKey, RateLimitAction, RateLimitConfig}
use rust_waf.Core.State.{Float, BucketParams, Acquired, InMemoryStateStore, try_acquire}

pub record RateLimitModule (F : Type 0) : Type 0 where
  pub enabled : Bool
  pub params : BucketParams F
  pub action : RateLimitAction
  pub score : ℕ
  pub key : RateLimitKey

abbrev pub unwrap_or : Option ℕ → ℕ → ℕ
unwrap_or none d = d
unwrap_or (some n) d = n

module _ {F : Type 0} (f64 : Float F) where
  unfoldable pub init : RateLimitConfig → RateLimitModule F
  init rl = record {
    enabled = rl.enabled;
    params = record {
      capacity = f64.from_uint (max (unwrap_or rl.burst rl.requests) 1);
      refill_per_sec =
          f64.divide (f64.from_uint rl.requests) (f64.from_uint (max rl.window_seconds 1));
    };
    action = rl.action;
    score = rl.score;
    key = rl.key;
  }

  unfoldable pub retry_after : RateLimitModule F → F → ℕ
  retry_after m tokens =
      if f64.le m.params.refill_per_sec f64.zero
      then 1
      else f64.as_u64 (
          f64.maximum
            (f64.ceil (f64.divide (f64.subtract (f64.from_uint 1) tokens) m.params.refill_per_sec))
            (f64.from_uint 1))

  abbrev pub over_budget : RateLimitAction → RateLimitModule F → F → Decision
  over_budget RateLimitAction.block m tokens =
      Decision.reject (codes "rate-limit") (codes "rate limit exceeded") 429
        (some (retry_after m tokens))
  over_budget RateLimitAction.score m tokens = Decision.score (codes "rate-limit-exceeded") m.score

  abbrev pub judge : Bool → RateLimitModule F → F → Decision
  judge true m tokens = Decision.allow
  judge false m tokens = over_budget m.action m tokens

module _ {F : Type 0} (f64 : Float F) (to_string : IpAddr → Bytes) where
  abbrev pub key_for : RateLimitKey → RequestContext → Bytes
  key_for RateLimitKey.client_ip ctx = to_string ctx.client_ip

  unfoldable pub inspect :
      RateLimitModule F
      → ℕ
      → InMemoryStateStore F
      → RequestContext
      → Option (Decision × InMemoryStateStore F)
  unfolding retry_after
  inspect m now store ctx =
      if m.enabled
      then Option.map
          (λ (r : Acquired F × InMemoryStateStore F).
            (judge f64 r.0.allowed m r.0.tokens_remaining, r.1))
          (try_acquire f64 now (key_for m.key ctx) (f64.from_uint 1) m.params store)
      else some (Decision.allow, store)
