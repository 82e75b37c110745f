-- ===== src/Normalizer/Request.antt =====
-- crates/waf-normalizer/src/lib.rs: `Normalizer::normalize` and `body_canonical_strings`.
--
-- The request is passed on with its `normalized` part filled. The arguments are those of the parsers;
-- `derive_variants` and `json_leaf_derived` are arguments too. `none` would be fuel that ran out.
pub mod Named
pub mod Kept
use rust_waf.Common.{
  ℕ, zero, suc, ◌+◌, ◌-◌, ◌*◌, ◌/◌, ◌%◌, ◌^◌, ◌≤◌, ◌<◌, min, max, Bool, true, false, not, ◌&&◌,
  ◌||◌, List, [], ◌∷◌, ◌++◌, map, append_assoc, append-nil, Option, none, some, ◌≡◌, refl, sym, ap,
  ◌∙◌, subst, ◌≢◌, ◌↔◌, ◌⊎◌, inl, inr, arith, Bytes, codes, bytes_eq, bytes_eq_iff, is_ascii_digit,
  is_ascii_alphabetic, is_ascii_alphanumeric, to_ascii_lowercase, eq_ignore_ascii_case, starts_with,
  ltb, leb, ◌==◌, within, if◌then◌else◌, ltb→lt, lt→ltb, ==_iff, Bool-cases, Option-cases, length,
  get_elem?, take, drop, any, all, keep, find, is_empty, length-append, take-append-drop,
  length-take, length-drop, length-keep-le, decimal, parse_uint, white_len, trim_start, trim_end,
  trim, split, split_once, strip_prefix, strip_prefix_iff, ends_with, cons_head,
}
use rust_waf.Core.Context.{
  IpAddr, MultipartField, ParsedBody, Normalized, RequestContext, ScoreContribution,
}
use mathlib.Core.Option
use rust_waf.Common.Utf8.{from_utf8}
use rust_waf.Core.Config.{LimitsConfig}
use rust_waf.Normalizer.Json.{Value}
use rust_waf.Normalizer.Percent.{percent_decode, canonicalize_value, canonicalize_multipart_field}
use rust_waf.Normalizer.Path.{normalize_path}
use rust_waf.Normalizer.Headers.{header_base64_excluded}
use rust_waf.Normalizer.Query.{
  NormalizationError, Result, ok, err, ParsedQuery, nothing, parse_query, parse_cookies_limited,
}
use rust_waf.Normalizer.Grpc.{GrpcLimits, GrpcExtract, grpc_extract}
use rust_waf.Normalizer.Body.{parse_body}

-- `GrpcLimits::default()`
abbrev pub grpc_limits : GrpcLimits
grpc_limits = record { max_depth = 16; max_fields = 4096; max_leaves = 1024 }

-- The first header whose value is too long.
unfoldable pub large_header : ℕ → List (Bytes × Bytes) → Option NormalizationError
large_header limit [] = none
large_header limit ((name, value) ∷ headers) =
    let rest = large_header limit headers in
    if ltb limit (length value)
    then some (NormalizationError.header_too_large limit (length value))
    else rest

-- The first defensive limit that the raw request is over.
unfoldable pub size_error : LimitsConfig → RequestContext → Option NormalizationError
unfolding large_header
size_error limits ctx =
    if ltb limits.max_body_size (length ctx.body)
    then some (NormalizationError.body_too_large limits.max_body_size (length ctx.body))
    else if ltb limits.max_headers (length ctx.headers)
    then some (NormalizationError.too_many_headers limits.max_headers)
    else large_header limits.max_header_size ctx.headers

-- The cookies so far, and whether one was encoded twice.
pub record CookieJar : Type 0 where
  pub cookies : List (Bytes × Bytes)
  pub double_enc : Bool

abbrev pub empty_jar : CookieJar
empty_jar = record { cookies = []; double_enc = false }

-- `extend` by what each item gives.
abbrev pub each : {A : Type 0} → (A → List Bytes) → List A → List Bytes
each f [] = []
each f (x ∷ xs) = f x ++ each f xs

unfoldable pub content_type_of : List (Bytes × Bytes) → Option Bytes
content_type_of headers =
    Option.map (λ (h : Bytes × Bytes). h.1)
      (find (λ (h : Bytes × Bytes). bytes_eq h.0 (codes "content-type")) headers)

unfoldable pub is_grpc : Option Bytes → Bool
is_grpc none = false
is_grpc (some ct) = starts_with (codes "application/grpc") (trim_start ct)

unfoldable pub norm_headers : (Bytes → Bytes) → List (Bytes × Bytes) → List (Bytes × Bytes)
norm_headers to_lowercase headers =
    map (λ (h : Bytes × Bytes). (to_lowercase h.0, trim h.1)) headers

abbrev pub with_cookies :
    (List (Bytes × Bytes) → Result CookieJar) → Result (List (Bytes × Bytes)) → Result CookieJar
with_cookies go (err e) = err e
with_cookies go (ok pairs) = go pairs

abbrev pub or_none : {A : Type 0} → (A → Bytes) → Option A → List Bytes
or_none f none = []
or_none f (some x) = f x ∷ []

module _ (nfkc : Bytes → Bytes) where
  unfoldable pub add_cookies : CookieJar → List (Bytes × Bytes) → CookieJar
  add_cookies jar [] = jar
  add_cookies jar ((k, v) ∷ pairs) =
      let (dk, de_k) = canonicalize_value nfkc k false in
      let (dv, de_v) = canonicalize_value nfkc v false in
      add_cookies
        (record {
          cookies = jar.cookies ++ ((dk, dv) ∷ []);
          double_enc = jar.double_enc || (de_k || de_v);
        })
        pairs

  unfoldable pub cookies_in : LimitsConfig → CookieJar → List (Bytes × Bytes) → Result CookieJar
  cookies_in limits jar [] = ok jar
  cookies_in limits jar ((name, value) ∷ headers) =
      let skip = cookies_in limits jar headers in
      let go =
        λ (pairs : List (Bytes × Bytes)). cookies_in limits (add_cookies jar pairs) headers in
      if bytes_eq name (codes "cookie")
      then with_cookies go (parse_cookies_limited value limits.max_cookies)
      else skip

  unfoldable pub field_strings : MultipartField → List Bytes
  field_strings f =
      canonicalize_multipart_field nfkc f.name
      ∷ (or_none (canonicalize_multipart_field nfkc) f.filename
          ++ or_none (canonicalize_multipart_field nfkc) (from_utf8 f.payload))

  unfoldable pub body_canonical_strings : ParsedBody → List Bytes
  unfolding field_strings
  body_canonical_strings (ParsedBody.form_url_encoded p) = map (λ (kv : Bytes × Bytes). kv.1) p
  body_canonical_strings (ParsedBody.json_flattened p) =
      map (λ (kv : Bytes × Bytes). (canonicalize_value nfkc kv.1 false).0) p
  body_canonical_strings (ParsedBody.multipart fields) = each field_strings fields
  body_canonical_strings (ParsedBody.raw b) =
      or_none (λ s. (canonicalize_value nfkc s false).0) (from_utf8 b)
  body_canonical_strings ParsedBody.no_body = []

module _ (nfkc : Bytes → Bytes) (derive_variants : Bytes → List Bytes) where
  unfoldable pub path_derived : Bytes → List Bytes
  path_derived raw_path =
      each (λ seg. derive_variants (percent_decode seg false).0)
        (keep (λ seg. not (is_empty seg)) (split b'/' raw_path))

  unfoldable pub query_of : LimitsConfig → Option Bytes → Result ParsedQuery
  query_of limits none = ok nothing
  query_of limits (some q) = parse_query nfkc derive_variants q limits

  -- A leaf of a gRPC body, always with its canonical form.
  unfoldable pub grpc_leaf_derived : Bytes → List Bytes
  grpc_leaf_derived leaf =
      let canonical = (canonicalize_value nfkc leaf false).0 in
      derive_variants canonical ++ (canonical ∷ [])

  -- A raw text, with its canonical form where that differs.
  unfoldable pub raw_derived : Option Bytes → List Bytes
  raw_derived none = []
  raw_derived (some raw) =
      let canonical = (canonicalize_value nfkc raw false).0 in
      derive_variants canonical ++ (if bytes_eq canonical raw then [] else canonical ∷ [])

  unfoldable pub body_derived :
      (Bytes → List Bytes) → Option Bytes → ParsedBody → Option (List Bytes)
  unfolding grpc_leaf_derived raw_derived is_grpc
  body_derived json_leaf_derived ct (ParsedBody.json_flattened pairs) =
      some (each (λ (kv : Bytes × Bytes). json_leaf_derived kv.1) pairs)
  body_derived json_leaf_derived ct (ParsedBody.raw b) =
      if is_grpc ct
      then Option.map (λ (ex : GrpcExtract). each grpc_leaf_derived ex.leaves)
          (grpc_extract b grpc_limits)
      else some (raw_derived (from_utf8 b))
  body_derived json_leaf_derived ct other =
      some (each derive_variants (body_canonical_strings nfkc other))

  unfoldable pub header_derived : List (Bytes × Bytes) → List Bytes
  header_derived headers =
      each (λ (h : Bytes × Bytes). derive_variants h.1)
        (keep (λ (h : Bytes × Bytes). not (header_base64_excluded h.0)) headers)

module _ (from_str : Bytes → Option Value) (json_message utf8_message : Bytes → Bytes)
    (to_lowercase nfkc : Bytes → Bytes) (derive_variants json_leaf_derived : Bytes → List Bytes)
    (limits : LimitsConfig) where
  -- Step 8, with what the steps before it gave.
  unfoldable pub written :
      RequestContext
      → List (Bytes × Bytes)
      → CookieJar
      → ParsedQuery
      → ParsedBody
      → List Bytes
      → RequestContext
  written ctx headers jar q body from_body =
      let (path, path_double_enc) = normalize_path nfkc to_lowercase ctx.raw_path in
      record ctx {
        normalized = record {
          path = path;
          query = ctx.query;
          query_params = q.params;
          cookies = jar.cookies;
          headers = headers;
          body = body;
          double_encoding_detected = path_double_enc || (q.double_enc || jar.double_enc);
          derived_decoded =
              path_derived nfkc derive_variants ctx.raw_path
              ++ (q.derived ++ (from_body ++ header_derived nfkc derive_variants headers));
        };
      }

  abbrev pub after_body :
      RequestContext
      → List (Bytes × Bytes)
      → CookieJar
      → ParsedQuery
      → Option (Result ParsedBody)
      → Option (Result RequestContext)
  after_body ctx headers jar q none = none
  after_body ctx headers jar q (some (err e)) = some (err e)
  after_body ctx headers jar q (some (ok body)) =
      Option.map (λ from_body. ok (written ctx headers jar q body from_body))
        (body_derived nfkc derive_variants json_leaf_derived (content_type_of headers) body)

  abbrev pub after_query :
      RequestContext
      → List (Bytes × Bytes)
      → CookieJar
      → Result ParsedQuery
      → Option (Result RequestContext)
  after_query ctx headers jar (err e) = some (err e)
  after_query ctx headers jar (ok q) = after_body ctx headers jar q (
      parse_body from_str json_message utf8_message to_lowercase nfkc (content_type_of headers)
        ctx.body limits)

  abbrev pub after_cookies :
      RequestContext → List (Bytes × Bytes) → Result CookieJar → Option (Result RequestContext)
  after_cookies ctx headers (err e) = some (err e)
  after_cookies ctx headers (ok jar) =
      after_query ctx headers jar (query_of nfkc derive_variants limits ctx.query)

  abbrev pub after_sizes :
      RequestContext → Option NormalizationError → Option (Result RequestContext)
  after_sizes ctx (some e) = some (err e)
  after_sizes ctx none =
      let headers = norm_headers to_lowercase ctx.headers in
      after_cookies ctx headers (cookies_in nfkc limits empty_jar headers)

  unfoldable pub normalize : RequestContext → Option (Result RequestContext)
  unfolding size_error
  normalize ctx = after_sizes ctx (size_error limits ctx)
