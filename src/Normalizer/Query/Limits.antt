-- ===== src/Normalizer/Query/Limits.antt =====
-- crates/waf-normalizer/src/url.rs: the limits on parameters and cookies.
use rust_waf.Common.{
  ℕ, suc, ◌+◌, ◌≤◌, ◌<◌, true, false, not, List, [], ◌∷◌, ◌++◌, append_assoc, append-nil, ◌≡◌, ap,
  ◌∙◌, inl, inr, arith, Bytes, leb, if◌then◌else◌, Bool-cases, length, keep, is_empty,
  length-append, trim, split,
}
use rust_waf.Core.Config.{LimitsConfig}
use rust_waf.Normalizer.Percent.{canonicalize_value}
use rust_waf.Normalizer.Query.{
  NormalizationError, ok, err, key_value, ParsedQuery, nothing, cookie_pair, cookies_from,
  parse_cookies_limited, add_pair, query_from, parse_query,
}

abbrev pub nonempty : List Bytes → List Bytes
nonempty = keep (λ s. not (is_empty s))

module _ (nfkc : Bytes → Bytes) (derive_variants : Bytes → List Bytes) (limits : LimitsConfig) where
  -- A query's pairs one after another, with no limit.
  abbrev pub add_pairs : ParsedQuery → List Bytes → ParsedQuery
  add_pairs q [] = q
  add_pairs q (pair ∷ pairs) = add_pairs (add_pair nfkc derive_variants q pair) pairs

  length-add_pair :
      (q : ParsedQuery) (pair : Bytes)
      → length (add_pair nfkc derive_variants q pair).params ≡ suc (length q.params)
  unfolding add_pair
  length-add_pair q pair = omega (
    arith,
    length-append q.params (
        (
          (canonicalize_value nfkc (key_value pair).0 true).0,
          (canonicalize_value nfkc (key_value pair).1 true).0,
        )
        ∷ []),
  )

  query_from-add_pairs :
      (pairs : List Bytes) (q : ParsedQuery)
      → length q.params ≤ limits.max_params
      → query_from nfkc derive_variants limits q pairs ≡ (
          if leb (length q.params + length (nonempty pairs)) limits.max_params
          then ok (add_pairs q (nonempty pairs))
          else err (NormalizationError.too_many_params limits.max_params))
  unfolding query_from
  query_from-add_pairs [] q h = ground arith
  query_from-add_pairs (pair ∷ pairs) q h =
      let q' = add_pair nfkc derive_variants q pair in
      elim (Bool-cases (is_empty pair)) [
        | inl skip ↦ rw skip (query_from-add_pairs pairs q h)
        | inr named ↦ elim (Bool-cases (leb limits.max_params (length q.params))) [
          | inl full ↦ rw (named, full) (ground arith)
          | inr room ↦
              rw (named, room)
                (query_from-add_pairs pairs q' (omega (arith, length-add_pair q pair, below room))
                  ∙ ap
                      (λ (n : ℕ).
                        if leb n limits.max_params
                        then ok (add_pairs q' (nonempty pairs))
                        else err (NormalizationError.too_many_params limits.max_params))
                      {y = length q.params + length (pair ∷ nonempty pairs)}
                      (omega (arith, length-add_pair q pair)))
        ]
      ]
    where
      below : leb limits.max_params (length q.params) ≡ false → length q.params < limits.max_params
      below e = ground arith

  -- A query with at most `max_params` pairs that are not empty is parsed to all of them, in order and
  -- with repeated names, each canonicalized; a query with more is refused.
  pub parse_query-add_pairs :
      (query : Bytes)
      → parse_query nfkc derive_variants query limits ≡ (
          if leb (length (nonempty (split b'&' query))) limits.max_params
          then ok (add_pairs nothing (nonempty (split b'&' query)))
          else err (NormalizationError.too_many_params limits.max_params))
  unfolding parse_query
  parse_query-add_pairs query =
      query_from-add_pairs (split b'&' query) nothing (omega arith)
      ∙ ap
          (λ (n : ℕ).
            if leb n limits.max_params
            then ok (add_pairs nothing (nonempty (split b'&' query)))
            else err (NormalizationError.too_many_params limits.max_params))
          {y = length (nonempty (split b'&' query))} (omega arith)

-- The cookies of the pairs that are not blank.
abbrev pub cookies_of : List Bytes → List (Bytes × Bytes)
cookies_of [] = []
cookies_of (raw ∷ pairs) =
    let rest = cookies_of pairs in
    if is_empty (trim raw) then rest else cookie_pair (trim raw) ∷ rest

cookies_from-cookies_of :
    (limit : ℕ) (pairs : List Bytes) (cookies : List (Bytes × Bytes))
    → length cookies ≤ limit
    → cookies_from limit cookies pairs ≡ (
        if leb (length cookies + length (cookies_of pairs)) limit
        then ok (cookies ++ cookies_of pairs)
        else err (NormalizationError.too_many_cookies limit))
unfolding cookies_from
cookies_from-cookies_of limit [] cookies h = ground (arith, append-nil cookies)
cookies_from-cookies_of limit (raw ∷ pairs) cookies h =
    let pair = trim raw in
    let added = cookies ++ (cookie_pair pair ∷ []) in
    elim (Bool-cases (is_empty (trim raw))) [
      | inl skip ↦ rw skip (cookies_from-cookies_of limit pairs cookies h)
      | inr named ↦ elim (Bool-cases (leb limit (length cookies))) [
        | inl full ↦ rw (named, full) (ground arith)
        | inr room ↦
            rw (named, room)
              (ground (
                arith,
                length-append cookies (cookie_pair (trim raw) ∷ []),
                append_assoc cookies (cookie_pair (trim raw) ∷ []) (cookies_of pairs),
                cookies_from-cookies_of limit pairs (cookies ++ (cookie_pair (trim raw) ∷ [])),
              ))
      ]
    ]

-- A Cookie header with at most `max_cookies` pairs that are not blank is parsed to all of them in
-- order, names and values trimmed; a header with more is refused.
pub parse_cookies_limited-cookies_of :
    (header : Bytes) (limit : ℕ)
    → parse_cookies_limited header limit ≡ (
        if leb (length (cookies_of (split b';' header))) limit
        then ok (cookies_of (split b';' header))
        else err (NormalizationError.too_many_cookies limit))
unfolding parse_cookies_limited
parse_cookies_limited-cookies_of header limit =
    cookies_from-cookies_of limit (split b';' header) [] (omega arith)
    ∙ ap
        (λ (n : ℕ).
          if leb n limit
          then ok (cookies_of (split b';' header))
          else err (NormalizationError.too_many_cookies limit))
        {y = length (cookies_of (split b';' header))} (omega arith)
