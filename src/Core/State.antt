-- ===== src/Core/State.antt =====
-- crates/waf-core/src/state.rs: the token buckets in memory.
--
-- f64 is the argument `F` with the operations the code uses, `le` its `<=`. An instant and a duration
-- are counts of nanoseconds, and the clock's reading is the argument `now`. The map of buckets is an
-- association list. `none` is the panic of `Duration::from_secs_f64` on a number out of its range.
pub mod Tracked
use rust_waf.Common.{
  ℕ, zero, suc, ◌+◌, ◌-◌, ◌*◌, ◌/◌, ◌%◌, ◌^◌, ◌≤◌, ◌<◌, min, max, Bool, true, false, not, ◌&&◌,
  ◌||◌, List, [], ◌∷◌, ◌++◌, map, append_assoc, append-nil, Option, none, some, ◌≡◌, refl, sym, ap,
  ◌∙◌, subst, ◌≢◌, ◌↔◌, ◌⊎◌, inl, inr, arith, Bytes, codes, bytes_eq, bytes_eq_iff, is_ascii_digit,
  is_ascii_alphabetic, is_ascii_alphanumeric, to_ascii_lowercase, eq_ignore_ascii_case, starts_with,
  ltb, leb, ◌==◌, within, if◌then◌else◌, ltb→lt, lt→ltb, ==_iff, Bool-cases, Option-cases, length,
  get_elem?, take, drop, any, all, keep, find, is_empty, length-append, take-append-drop,
  length-take, length-drop, length-keep-le, decimal, parse_uint, white_len, trim_start, trim_end,
  trim, split, split_once, strip_prefix, strip_prefix_iff, ends_with, cons_head,
}
use mathlib.Core.Option

pub record Float (F : Type 0) : Type 0 where
  pub zero : F
  pub add : F → F → F
  pub subtract : F → F → F
  pub multiply : F → F → F
  pub divide : F → F → F
  pub minimum : F → F → F
  pub maximum : F → F → F
  pub ceil : F → F
  pub le : F → F → Bool
  pub from_uint : ℕ → F
  pub as_u64 : F → ℕ
  pub as_secs_f64 : ℕ → F
  pub from_secs_f64 : F → Option ℕ

pub record BucketParams (F : Type 0) : Type 0 where
  pub capacity : F
  pub refill_per_sec : F

pub record Acquired (F : Type 0) : Type 0 where
  pub allowed : Bool
  pub tokens_remaining : F

pub record Bucket (F : Type 0) : Type 0 where
  pub tokens : F
  pub last : ℕ

abbrev pub Buckets : Type 0 → Type 0
Buckets F = List (Bytes × Bucket F)

pub record InMemoryStateStore (F : Type 0) : Type 0 where
  pub max_tracked_keys : ℕ
  pub buckets : Buckets F

module _ {F : Type 0} where
  unfoldable pub with_clock_and_cap : ℕ → InMemoryStateStore F
  with_clock_and_cap cap = record { max_tracked_keys = max cap 1; buckets = [] }

  unfoldable pub tracked_keys : InMemoryStateStore F → ℕ
  tracked_keys store = length store.buckets

  unfoldable pub lookup : Bytes → Buckets F → Option (Bucket F)
  lookup key [] = none
  lookup key ((k, b) ∷ buckets) =
      let rest = lookup key buckets in if bytes_eq k key then some b else rest

  unfoldable pub insert : Bytes → Bucket F → Buckets F → Buckets F
  insert key b [] = (key, b) ∷ []
  insert key b ((k, c) ∷ buckets) =
      let rest = insert key b buckets in if bytes_eq k key then (k, b) ∷ buckets else (k, c) ∷ rest

module _ {F : Type 0} (f64 : Float F) where
  unfoldable pub sweep_full_buckets : Buckets F → ℕ → BucketParams F → Option (Buckets F)
  sweep_full_buckets buckets now params =
      if f64.le params.refill_per_sec f64.zero
      then some buckets
      else Option.map
          (λ full_refill.
            keep (λ (kb : Bytes × Bucket F). ltb (now - kb.1.last) full_refill) buckets)
          (f64.from_secs_f64 (f64.divide params.capacity params.refill_per_sec))

  unfoldable pub refilled : ℕ → BucketParams F → Bucket F → F
  refilled now params b =
      f64.minimum
        (f64.add b.tokens (f64.multiply (f64.as_secs_f64 (now - b.last)) params.refill_per_sec))
        params.capacity

  -- By `tokens >= cost`: what is left.
  abbrev pub take_tokens : Bool → F → F → Acquired F
  take_tokens true cost tokens = record {
    allowed = true;
    tokens_remaining = f64.subtract tokens cost;
  }
  take_tokens false cost tokens = record { allowed = false; tokens_remaining = tokens }

  unfoldable pub consume : F → F → Acquired F
  consume cost tokens = take_tokens (f64.le cost tokens) cost tokens

  abbrev pub or_fresh : BucketParams F → ℕ → Option (Bucket F) → Bucket F
  or_fresh params now none = record { tokens = params.capacity; last = now }
  or_fresh params now (some b) = b

  -- The bucket is found or made, refilled, and written back.
  unfoldable pub acquire_in :
      ℕ → Bytes → F → BucketParams F → InMemoryStateStore F → Acquired F × InMemoryStateStore F
  unfolding refilled consume
  acquire_in now key cost params store =
      let b = or_fresh params now (lookup key store.buckets) in
      let acquired = consume cost (refilled now params b) in
      (
        acquired,
        record store {
          buckets =
              insert key (record { tokens = acquired.tokens_remaining; last = now }) store.buckets;
        },
      )

  unfoldable pub make_room :
      ℕ → BucketParams F → InMemoryStateStore F → Option (Bucket F) → Option (InMemoryStateStore F)
  unfolding sweep_full_buckets
  make_room now params store (some b) = some store
  make_room now params store none =
      if leb store.max_tracked_keys (length store.buckets)
      then Option.map (λ buckets. record store { buckets = buckets })
          (sweep_full_buckets store.buckets now params)
      else some store

  unfoldable pub try_acquire :
      ℕ
      → Bytes
      → F
      → BucketParams F
      → InMemoryStateStore F
      → Option (Acquired F × InMemoryStateStore F)
  unfolding make_room acquire_in
  try_acquire now key cost params store =
      Option.map (acquire_in now key cost params)
        (make_room now params store (lookup key store.buckets))
