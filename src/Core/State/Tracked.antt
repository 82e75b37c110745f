-- ===== src/Core/State/Tracked.antt =====
-- crates/waf-core/src/state.rs: an attempt on a key that is tracked.
use rust_waf.Common.{
  ℕ, true, false, [], ◌∷◌, Option, some, ◌≡◌, refl, sym, ap, subst, ◌⊎◌, inl, inr, Bytes, bytes_eq,
  bytes_eq_iff, if◌then◌else◌, Bool-cases,
}
use rust_waf.Core.State.{
  Float, BucketParams, Acquired, Bucket, Buckets, InMemoryStateStore, lookup, insert, refilled,
  consume, acquire_in, make_room, try_acquire,
}

module _ {F : Type 0} where
  pub lookup-insert :
      (key : Bytes) (b : Bucket F) (buckets : Buckets F)
      → lookup key (insert key b buckets) ≡ some b
  unfolding lookup insert
  lookup-insert key b [] = rw ((bytes_eq_iff key key).1 refl) refl
  lookup-insert key b ((k, c) ∷ buckets) = elim (Bool-cases (bytes_eq k key)) [
    | inl hit ↦ rw hit (rw hit refl)
    | inr miss ↦ rw miss (rw miss (lookup-insert key b buckets))
  ]

  lookup-insert_other :
      (key other : Bytes) (b : Bucket F) (buckets : Buckets F)
      → bytes_eq key other ≡ false
      → lookup other (insert key b buckets) ≡ lookup other buckets
  unfolding lookup insert
  lookup-insert_other key other b [] differ = rw differ refl
  lookup-insert_other key other b ((k, c) ∷ buckets) differ = elim (Bool-cases (bytes_eq k key)) [
    | inl hit ↦
        let skip : bytes_eq k other ≡ false =
          subst (λ k'. bytes_eq k' other ≡ false) (sym ((bytes_eq_iff k key).0 hit)) differ in
        rw hit (rw skip refl)
    | inr miss ↦ rw miss (
        ap (λ (r : Option (Bucket F)). if bytes_eq k other then some c else r)
          (lookup-insert_other key other b buckets differ))
  ]

-- `f64::min` gives no more than its second argument, unless that is NaN.
abbrev pub MinimumIsBounded : {F : Type 0} → Float F → Type 0
MinimumIsBounded {F} f64 = (a b : F) → f64.le b b ≡ true → f64.le (f64.minimum a b) b ≡ true

module _ {F : Type 0} (f64 : Float F) where
  -- An attempt allowed with the cost taken, or refused with nothing taken.
  abbrev pub Decided : F → F → Acquired F → Type 0
  Decided cost tokens acquired =
      ((acquired.allowed ≡ true)
        × (f64.le cost tokens ≡ true)
        × (acquired.tokens_remaining ≡ f64.subtract tokens cost))
      ⊎ ((acquired.allowed ≡ false)
          × (f64.le cost tokens ≡ false)
          × (acquired.tokens_remaining ≡ tokens))

  consume-Decided : (cost tokens : F) → Decided cost tokens (consume f64 cost tokens)
  unfolding consume
  consume-Decided cost tokens = elim (Bool-cases (f64.le cost tokens)) [
    | inl enough ↦ rw enough (inl (refl, refl, refl))
    | inr short ↦ rw short (inr (refl, refl, refl))
  ]

  -- For a capacity that is not NaN and an f64 whose `min` keeps to it, an attempt on a tracked key
  -- never panics. The bucket refills to no more than the capacity; the attempt is allowed if it then
  -- holds the cost, which is taken from it, and refused with nothing taken otherwise. What remains is
  -- written back at this instant, and every other key keeps its bucket.
  pub try_acquire-tracked :
      (now : ℕ) (key : Bytes) (cost : F) (params : BucketParams F) (store : InMemoryStateStore F)
      (b : Bucket F)
      → MinimumIsBounded f64
      → f64.le params.capacity params.capacity ≡ true
      → lookup key store.buckets ≡ some b
      → (acquired : Acquired F) × (after : InMemoryStateStore F) × (try_acquire f64 now key cost
            params store
          ≡ some (acquired, after))
        × (f64.le (refilled f64 now params b) params.capacity ≡ true)
        × Decided cost (refilled f64 now params b) acquired
        × (lookup key after.buckets
            ≡ some (record { tokens = acquired.tokens_remaining; last = now }))
        × ((other : Bytes)
            → bytes_eq key other ≡ false
            → lookup other after.buckets ≡ lookup other store.buckets)
  unfolding try_acquire make_room acquire_in refilled
  try_acquire-tracked now key cost params store b bounded number found =
      let tokens = refilled f64 now params b in
      let acquired = consume f64 cost tokens in
      let left : Bucket F = record { tokens = acquired.tokens_remaining; last = now } in
      (
        acquired,
        record store { buckets = insert key left store.buckets },
        rw found (rw found refl),
        bounded _ params.capacity number,
        consume-Decided cost tokens,
        lookup-insert key left store.buckets,
        λ other differ. lookup-insert_other key other left store.buckets differ,
      )
