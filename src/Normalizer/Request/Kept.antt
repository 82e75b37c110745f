-- ===== src/Normalizer/Request/Kept.antt =====
-- crates/waf-normalizer/src/lib.rs: what holds of a request that `Normalizer::normalize` lets pass.
use rust_waf.Common.{
  ◌≤◌, true, List, [], ◌∷◌, Option, none, some, ◌≡◌, refl, ap, inl, inr, arith, Bytes, ltb, leb,
  ltb→lt, Bool-cases, length, all,
}
use rust_waf.Core.Context.{ParsedBody, RequestContext}
use mathlib.Core.Option.{none-ne-some}
use mathlib.Core.Option
use rust_waf.Common.Utf8.{from_utf8}
use rust_waf.Core.Config.{LimitsConfig}
use rust_waf.Normalizer.Json.{Value}
use rust_waf.Normalizer.Path.{normalize_path, or_root, join_segments}
use rust_waf.Normalizer.Path.Segments.{AllOf, Plain}
use rust_waf.Normalizer.Path.Resolved.{resolve_path-Plain}
use rust_waf.Normalizer.Query.{NormalizationError, Result, ok, err, ParsedQuery}
use rust_waf.Normalizer.Grpc.Bounds.{grpc_extract-InLimits}
use rust_waf.Normalizer.Body.Undeclared.{parse_body-total}
use rust_waf.Normalizer.Request.Named.{
  Named, Errs, ErrsIfAny, query_of-Errs, cookies_in-Errs, parse_body-ErrsIfAny,
}
use rust_waf.Normalizer.Request.{
  grpc_limits, large_header, size_error, CookieJar, each, is_grpc, content_type_of,
  grpc_leaf_derived, raw_derived, body_derived, after_body, after_query, after_cookies, after_sizes,
  query_of, norm_headers, cookies_in, empty_jar, written, normalize,
}

-- The raw request is within the limits that stand before all parsing.
abbrev pub WithinLimits : LimitsConfig → RequestContext → Type 0
WithinLimits limits ctx =
    (length ctx.body ≤ limits.max_body_size)
    × (length ctx.headers ≤ limits.max_headers)
    × (all (λ (h : Bytes × Bytes). leb (length h.1) limits.max_header_size) ctx.headers ≡ true)

-- A path with no empty segment, no dot segment and no slash inside a segment.
abbrev pub IsPlain : Bytes → Type 0
IsPlain path = (segs : List Bytes) × AllOf Plain segs × (path ≡ or_root (join_segments segs))

-- Only the normalized part is new, and its path is plain.
abbrev pub Normal : RequestContext → RequestContext → Type 0
Normal ctx out = (out ≡ record ctx { normalized = out.normalized }) × IsPlain out.normalized.path

-- A request that passes is within the limits and normal; an error is one that a limit names.
abbrev pub Passed : LimitsConfig → RequestContext → Result RequestContext → Type 0
Passed limits ctx (ok out) = WithinLimits limits ctx × Normal ctx out
Passed limits ctx (err e) = Named limits e

-- The check of the sizes finds nothing exactly within the limits, and else names one.
abbrev Checked : LimitsConfig → Type 0 → Option NormalizationError → Type 0
Checked limits P none = P
Checked limits P (some e) = Named limits e

large_header-Checked :
    (limits : LimitsConfig) (headers : List (Bytes × Bytes))
    → Checked limits
        (all (λ (h : Bytes × Bytes). leb (length h.1) limits.max_header_size) headers ≡ true)
        (large_header limits.max_header_size headers)
unfolding large_header
large_header-Checked limits [] = refl
large_header-Checked limits ((name, value) ∷ headers) =
    elim (Bool-cases (ltb limits.max_header_size (length value))) [
      | inl over ↦ rw (over, Checked) (refl, ltb→lt limits.max_header_size (length value) over)
      | inr fits ↦
          rw (fits, Checked)
            (also (large_header limits.max_header_size headers)
              (large_header-Checked limits headers) (ground arith))
    ]
  where
    also :
        (r : Option NormalizationError)
        → Checked limits
            (all (λ (h : Bytes × Bytes). leb (length h.1) limits.max_header_size) headers ≡ true)
            r
        → (leb (length value) limits.max_header_size ≡ true)
        → Checked limits
            (all
                (λ (h : Bytes × Bytes). leb (length h.1) limits.max_header_size)
                ((name, value) ∷ headers)
              ≡ true)
            r
    also none h fit = ground (arith, h, fit)
    also (some e) h fit = h

size_error-Checked :
    (limits : LimitsConfig) (ctx : RequestContext)
    → Checked limits (WithinLimits limits ctx) (size_error limits ctx)
unfolding size_error
size_error-Checked limits ctx = elim (Bool-cases (ltb limits.max_body_size (length ctx.body))) [
  | inl over ↦ rw (over, Checked) (refl, ltb→lt limits.max_body_size (length ctx.body) over)
  | inr body ↦ elim (Bool-cases (ltb limits.max_headers (length ctx.headers))) [
    | inl many ↦ rw (body, many, Checked) refl
    | inr few ↦
        rw (body, few, Checked)
          (also (large_header limits.max_header_size ctx.headers)
            (large_header-Checked limits ctx.headers) (ground arith) (ground arith))
  ]
]
  where
    also :
        (r : Option NormalizationError)
        → Checked limits
            (all (λ (h : Bytes × Bytes). leb (length h.1) limits.max_header_size) ctx.headers
              ≡ true)
            r
        → length ctx.body ≤ limits.max_body_size
        → length ctx.headers ≤ limits.max_headers
        → Checked limits (WithinLimits limits ctx) r
    also none h body few = (body, few, h)
    also (some e) h body few = h

body_derived-some :
    (nfkc : Bytes → Bytes) (derive_variants json_leaf_derived : Bytes → List Bytes)
    (ct : Option Bytes) (body : ParsedBody)
    → (out : List Bytes) × (body_derived nfkc derive_variants json_leaf_derived ct body ≡ some out)
unfolding body_derived
body_derived-some nfkc derive_variants json_leaf_derived ct (ParsedBody.raw b) =
    elim (Bool-cases (is_grpc ct)) [
      | inl grpc ↦
          let (out, e, limited) = grpc_extract-InLimits b grpc_limits in
          (each (grpc_leaf_derived nfkc derive_variants) out.leaves, rw (grpc, e) refl)
      | inr other ↦ (raw_derived nfkc derive_variants (from_utf8 b), rw other refl)
    ]
body_derived-some nfkc derive_variants json_leaf_derived ct (ParsedBody.json_flattened pairs) =
    (_, refl)
body_derived-some nfkc derive_variants json_leaf_derived ct (ParsedBody.form_url_encoded pairs) =
    (_, refl)
body_derived-some nfkc derive_variants json_leaf_derived ct (ParsedBody.multipart fields) =
    (_, refl)
body_derived-some nfkc derive_variants json_leaf_derived ct ParsedBody.no_body = (_, refl)

module _ (from_str : Bytes → Option Value) (json_message utf8_message : Bytes → Bytes)
    (to_lowercase nfkc : Bytes → Bytes) (derive_variants json_leaf_derived : Bytes → List Bytes)
    (limits : LimitsConfig) where
  -- A result there is, and it is as `Passed` says.
  abbrev Answered : RequestContext → Option (Result RequestContext) → Type 0
  Answered ctx out = (r : Result RequestContext) × (out ≡ some r) × Passed limits ctx r

  written-Normal :
      (ctx : RequestContext) (headers : List (Bytes × Bytes)) (jar : CookieJar) (q : ParsedQuery)
      (body : ParsedBody) (from_body : List Bytes)
      → Normal ctx (
          written from_str json_message utf8_message to_lowercase nfkc derive_variants
            json_leaf_derived limits ctx headers jar q body from_body)
  unfolding written normalize_path
  written-Normal ctx headers jar q body from_body = (refl, resolve_path-Plain _)

  after_body-Answered :
      (ctx : RequestContext) (headers : List (Bytes × Bytes)) (jar : CookieJar) (q : ParsedQuery)
      (body : Option (Result ParsedBody)) (r : Result ParsedBody)
      → body ≡ some r
      → ErrsIfAny limits body
      → WithinLimits limits ctx
      → Answered ctx (
          after_body from_str json_message utf8_message to_lowercase nfkc derive_variants
            json_leaf_derived limits ctx headers jar q body)
  after_body-Answered ctx headers jar q none r e errs fits = elim (none-ne-some r e) [ ]
  after_body-Answered ctx headers jar q (some (err e)) r same errs fits = (err e, refl, errs)
  after_body-Answered ctx headers jar q (some (ok body)) r same errs fits =
      let (from_body, e) =
        body_derived-some nfkc derive_variants json_leaf_derived (content_type_of headers) body in
      (
        ok (
            written from_str json_message utf8_message to_lowercase nfkc derive_variants
              json_leaf_derived limits ctx headers jar q body from_body),
        ap
            (Option.map (λ d. ok (
              written from_str json_message utf8_message to_lowercase nfkc derive_variants
                json_leaf_derived limits ctx headers jar q body d)))
            e,
        (fits, written-Normal ctx headers jar q body from_body),
      )

  after_query-Answered :
      (ctx : RequestContext) (headers : List (Bytes × Bytes)) (jar : CookieJar)
      (q : Result ParsedQuery)
      → Errs limits q
      → WithinLimits limits ctx
      → Answered ctx (
          after_query from_str json_message utf8_message to_lowercase nfkc derive_variants
            json_leaf_derived limits ctx headers jar q)
  after_query-Answered ctx headers jar (err e) errs fits = (err e, refl, errs)
  after_query-Answered ctx headers jar (ok q) errs fits =
      let (r, e) =
        parse_body-total from_str json_message utf8_message to_lowercase nfkc
          (content_type_of headers) ctx.body limits in
      after_body-Answered ctx headers jar q _ r e
        (parse_body-ErrsIfAny limits from_str json_message utf8_message to_lowercase nfkc
          (content_type_of headers) ctx.body)
        fits

  after_cookies-Answered :
      (ctx : RequestContext) (headers : List (Bytes × Bytes)) (jar : Result CookieJar)
      → Errs limits jar
      → WithinLimits limits ctx
      → Answered ctx (
          after_cookies from_str json_message utf8_message to_lowercase nfkc derive_variants
            json_leaf_derived limits ctx headers jar)
  after_cookies-Answered ctx headers (err e) errs fits = (err e, refl, errs)
  after_cookies-Answered ctx headers (ok jar) errs fits =
      after_query-Answered ctx headers jar (query_of nfkc derive_variants limits ctx.query)
        (query_of-Errs limits nfkc derive_variants ctx.query) fits

  after_sizes-Answered :
      (ctx : RequestContext) (found : Option NormalizationError)
      → Checked limits (WithinLimits limits ctx) found
      → Answered ctx (
          after_sizes from_str json_message utf8_message to_lowercase nfkc derive_variants
            json_leaf_derived limits ctx found)
  after_sizes-Answered ctx (some e) named = (err e, refl, named)
  after_sizes-Answered ctx none fits =
      let headers = norm_headers to_lowercase ctx.headers in
      after_cookies-Answered ctx headers (cookies_in nfkc limits empty_jar headers)
        (cookies_in-Errs limits nfkc empty_jar headers) fits

  -- `normalize` answers on every request. A request that passes is within the limits on the body's
  -- size, the number of headers and the length of their values, only its normalized part is new, and
  -- the normalized path is the root or a slash before each of its segments, none of them empty, `.`,
  -- `..` or with a slash. An error of a limit carries the configured value, an error of a size a size
  -- over it, and no error is a multipart error.
  pub normalize-Passed :
      (ctx : RequestContext)
      → (r : Result RequestContext) × (normalize from_str json_message utf8_message to_lowercase
            nfkc derive_variants json_leaf_derived limits ctx
          ≡ some r)
        × Passed limits ctx r
  unfolding normalize
  normalize-Passed ctx =
      after_sizes-Answered ctx (size_error limits ctx) (size_error-Checked limits ctx)
