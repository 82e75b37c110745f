-- ===== src/Normalizer/Body/Flatten/Depth.antt =====
-- crates/waf-normalizer/src/body.rs: `flatten_json` against the nesting of the value.
use rust_waf.Common.{
  ℕ, suc, ◌+◌, ◌≤◌, max, Bool, true, false, [], ◌∷◌, ◌++◌, append_assoc, append-nil, ◌≡◌, refl, sym,
  ap, ◌∙◌, inl, inr, arith, Bytes, codes, ltb, leb, if◌then◌else◌, Bool-cases, decimal,
}
use rust_waf.Core.Config.{LimitsConfig}
use rust_waf.Normalizer.Json.{Value, Elements, Members}
use rust_waf.Normalizer.Query.{NormalizationError, Result, ok, err}
use rust_waf.Normalizer.Body.Flatten.{
  Pairs, ◌>>=◌, key_under, too_deep, flatten_json, flatten_elements, flatten_members, flatten_value,
}

-- How deep arrays and objects are nested.
unfoldable mutual
  pub nesting : Value → ℕ
  nesting (Value.object members) = suc (nesting_members members)
  nesting (Value.array elements) = suc (nesting_elements elements)
  nesting _ = 0

  pub nesting_elements : Elements → ℕ
  nesting_elements Elements.no_more = 0
  nesting_elements (Elements.element v rest) = max (nesting v) (nesting_elements rest)

  pub nesting_members : Members → ℕ
  nesting_members Members.no_member = 0
  nesting_members (Members.member k v rest) = max (nesting v) (nesting_members rest)

-- Every scalar of the value with its path, in order.
unfoldable mutual
  pub leaves : Value → Bytes → Pairs
  leaves (Value.object members) prefix = leaves_of_members members prefix
  leaves (Value.array elements) prefix = leaves_of_elements elements 0 prefix
  leaves (Value.string s) prefix = (prefix, s) ∷ []
  leaves Value.null prefix = (prefix, codes "null") ∷ []
  leaves (Value.bool true) prefix = (prefix, codes "true") ∷ []
  leaves (Value.bool false) prefix = (prefix, codes "false") ∷ []
  leaves (Value.number n) prefix = (prefix, n) ∷ []

  pub leaves_of_elements : Elements → ℕ → Bytes → Pairs
  leaves_of_elements Elements.no_more i prefix = []
  leaves_of_elements (Elements.element v rest) i prefix =
      leaves v (key_under prefix (decimal i)) ++ leaves_of_elements rest (i + 1) prefix

  pub leaves_of_members : Members → Bytes → Pairs
  leaves_of_members Members.no_member prefix = []
  leaves_of_members (Members.member k v rest) prefix =
      leaves v (key_under prefix k) ++ leaves_of_members rest prefix

-- The outcome for a nesting below a depth.
abbrev pub up_to : ℕ → ℕ → ℕ → Pairs → Result Pairs
up_to depth nested max_depth out =
    if leb (depth + nested) (suc max_depth)
    then ok out
    else err (NormalizationError.json_depth_exceeded max_depth)

-- A part and then the rest.
up_to-both :
    (depth a b max_depth : ℕ) (out xs ys : Pairs) (r : Result Pairs) (f : Pairs → Result Pairs)
    → r ≡ up_to (depth + 1) a max_depth (out ++ xs)
    → f (out ++ xs) ≡ up_to depth (suc b) max_depth ((out ++ xs) ++ ys)
    → (r >>= f) ≡ up_to depth (suc (max a b)) max_depth (out ++ (xs ++ ys))
up_to-both depth a b m out xs ys r f p q = elim (Bool-cases (leb (depth + 1 + a) (suc m))) [
  | inl fits ↦ ap (λ (r' : Result Pairs). r' >>= f) (p ∙ held fits) ∙ q ∙ widen (ground arith)
  | inr deep ↦ ap (λ (r' : Result Pairs). r' >>= f) (p ∙ failed deep) ∙ sym (refuse (ground arith))
]
  where
    held : leb (depth + 1 + a) (suc m) ≡ true → up_to (depth + 1) a m (out ++ xs) ≡ ok (out ++ xs)
    held e = rw e refl

    failed :
        leb (depth + 1 + a) (suc m) ≡ false
        → up_to (depth + 1) a m (out ++ xs) ≡ err (NormalizationError.json_depth_exceeded m)
    failed e = rw e refl

    widen :
        leb (depth + suc b) (suc m) ≡ leb (depth + suc (max a b)) (suc m)
        → up_to depth (suc b) m ((out ++ xs) ++ ys)
          ≡ up_to depth (suc (max a b)) m (out ++ (xs ++ ys))
    widen e = rw (append_assoc out xs ys, e) refl

    refuse :
        leb (depth + suc (max a b)) (suc m) ≡ false
        → up_to depth (suc (max a b)) m (out ++ (xs ++ ys))
          ≡ err (NormalizationError.json_depth_exceeded m)
    refuse e = rw e refl

-- A container is entered at its own depth.
enter_container :
    (depth n max_depth : ℕ) (out : Pairs) (r : Result Pairs)
    → (depth ≤ max_depth → r ≡ up_to depth (suc n) max_depth out)
    → too_deep depth max_depth r ≡ up_to depth (suc n) max_depth out
enter_container depth n m out r h = elim (Bool-cases (ltb m depth)) [
  | inl deep ↦ rw deep (sym (refuse (ground arith)))
  | inr fits ↦ rw fits (h (ground arith))
]
  where
    refuse :
        leb (depth + suc n) (suc m) ≡ false
        → up_to depth (suc n) m out ≡ err (NormalizationError.json_depth_exceeded m)
    refuse e = rw e refl

leb-true : (a b : ℕ) → a ≤ b → leb a b ≡ true
leb-true a b h = ground arith

fits_at : (depth n m : ℕ) (out : Pairs) → depth + n ≤ suc m → ok out ≡ up_to depth n m out
fits_at depth n m out h = rw (leb-true (depth + n) (suc m) h) refl

mutual
  unfolding flatten_json flatten_elements flatten_members nesting nesting_elements nesting_members
      leaves leaves_of_elements leaves_of_members

  flatten_json-up_to :
      (v : Value) (prefix : Bytes) (out : Pairs) (depth m : ℕ)
      → depth ≤ suc m
      → flatten_json v prefix out depth m ≡ up_to depth (nesting v) m (out ++ leaves v prefix)
  flatten_json-up_to (Value.object members) prefix out depth m h =
      enter_container depth (nesting_members members) m (out ++ leaves_of_members members prefix) _
        (λ l. flatten_members-up_to members prefix out depth m l)
  flatten_json-up_to (Value.array elements) prefix out depth m h =
      enter_container depth (nesting_elements elements) m
        (out ++ leaves_of_elements elements 0 prefix) _
        (λ l. flatten_elements-up_to elements 0 prefix out depth m l)
  flatten_json-up_to (Value.string s) prefix out depth m h = fits_at depth 0 m _ (omega arith)
  flatten_json-up_to Value.null prefix out depth m h = fits_at depth 0 m _ (omega arith)
  flatten_json-up_to (Value.bool true) prefix out depth m h = fits_at depth 0 m _ (omega arith)
  flatten_json-up_to (Value.bool false) prefix out depth m h = fits_at depth 0 m _ (omega arith)
  flatten_json-up_to (Value.number n) prefix out depth m h = fits_at depth 0 m _ (omega arith)

  flatten_elements-up_to :
      (es : Elements) (i : ℕ) (prefix : Bytes) (out : Pairs) (depth m : ℕ)
      → depth ≤ m
      → flatten_elements es i prefix out depth m
        ≡ up_to depth (suc (nesting_elements es)) m (out ++ leaves_of_elements es i prefix)
  flatten_elements-up_to Elements.no_more i prefix out depth m h =
      rw (append-nil out) (fits_at depth 1 m out (omega arith))
  flatten_elements-up_to (Elements.element v rest) i prefix out depth m h =
      up_to-both depth (nesting v) (nesting_elements rest) m out _ _ _ _
        (flatten_json-up_to v (key_under prefix (decimal i)) out (depth + 1) m (omega arith))
        (flatten_elements-up_to rest (i + 1) prefix _ depth m h)

  flatten_members-up_to :
      (ms : Members) (prefix : Bytes) (out : Pairs) (depth m : ℕ)
      → depth ≤ m
      → flatten_members ms prefix out depth m
        ≡ up_to depth (suc (nesting_members ms)) m (out ++ leaves_of_members ms prefix)
  flatten_members-up_to Members.no_member prefix out depth m h =
      rw (append-nil out) (fits_at depth 1 m out (omega arith))
  flatten_members-up_to (Members.member k v rest) prefix out depth m h =
      up_to-both depth (nesting v) (nesting_members rest) m out _ _ _ _
        (flatten_json-up_to v (key_under prefix k) out (depth + 1) m (omega arith))
        (flatten_members-up_to rest prefix _ depth m h)

-- `flatten_value` gives every scalar of a value with its path, in order, if arrays and objects are
-- nested no deeper than `max_json_depth`, and otherwise refuses the value with that limit.
pub flatten_value-leaves :
    (v : Value) (limits : LimitsConfig)
    → flatten_value v limits ≡ (
        if leb (nesting v) limits.max_json_depth
        then ok (leaves v [])
        else err (NormalizationError.json_depth_exceeded limits.max_json_depth))
unfolding flatten_value
flatten_value-leaves v limits =
    let m = limits.max_json_depth in
    flatten_json-up_to v [] [] 1 m (omega arith)
    ∙ same_test (leb (1 + nesting v) (suc m)) (leb (nesting v) m) (ground arith)
  where
    same_test :
        (s t : Bool)
        → s ≡ t
        → (if s
            then ok (leaves v [])
            else err (NormalizationError.json_depth_exceeded limits.max_json_depth))
          ≡ (if t
              then ok (leaves v [])
              else err (NormalizationError.json_depth_exceeded limits.max_json_depth))
    same_test s t e = rw e refl
