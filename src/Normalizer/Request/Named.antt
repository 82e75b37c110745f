-- ===== src/Normalizer/Request/Named.antt =====
-- crates/waf-normalizer/src/lib.rs and body.rs: which errors the steps of `normalize` return.
use rust_waf.Common.{
  ◌≤◌, ◌<◌, Bool, true, false, List, [], ◌∷◌, Option, none, some, ◌≡◌, refl, sym, subst, arith,
  Bytes, codes, bytes_eq, starts_with, if◌then◌else◌, is_empty, trim_start, trim,
}
use rust_waf.Core.Context.{ParsedBody}
use mathlib.Core.Option
use rust_waf.Common.Utf8.{from_utf8}
use rust_waf.Core.Config.{LimitsConfig}
use rust_waf.Normalizer.Json.{Value}
use rust_waf.Normalizer.Query.{
  NormalizationError, Result, ok, err, parse_query, parse_cookies_limited,
}
use rust_waf.Normalizer.Query.Limits.{parse_query-add_pairs, parse_cookies_limited-cookies_of}
use rust_waf.Normalizer.Body.Flatten.{flatten_value, ◌>>=◌}
use rust_waf.Normalizer.Body.Flatten.Depth.{flatten_value-leaves}
use rust_waf.Normalizer.Body.Form.{
  text_or_empty, parse_form_urlencoded, parse_form_urlencoded-parse_query,
}
use rust_waf.Normalizer.Body.Multipart.{parse_multipart, extract_boundary}
use rust_waf.Normalizer.Body.{
  or_empty, form_type, json_type, declares, looks_like_json, flattened, sniff_value, sniff_text,
  sniff_json, value_or, text_or, parse_json, or_raw, multipart_at, parse_body,
}
use rust_waf.Normalizer.Request.{CookieJar, add_cookies, with_cookies, cookies_in, query_of}

-- The error carries the configured limit, and a size is over it. A multipart error is never raised.
abbrev pub Named : LimitsConfig → NormalizationError → Type 0
Named limits (NormalizationError.body_too_large limit actual) =
    (limit ≡ limits.max_body_size) × (limit < actual)
Named limits (NormalizationError.too_many_headers limit) = limit ≡ limits.max_headers
Named limits (NormalizationError.header_too_large limit actual) =
    (limit ≡ limits.max_header_size) × (limit < actual)
Named limits (NormalizationError.too_many_params limit) = limit ≡ limits.max_params
Named limits (NormalizationError.too_many_cookies limit) = limit ≡ limits.max_cookies
Named limits (NormalizationError.json_depth_exceeded limit) = limit ≡ limits.max_json_depth
Named limits (NormalizationError.json_parse_error message) = 0 ≤ 0
Named limits (NormalizationError.multipart_error message) = 1 ≤ 0

abbrev pub Errs : {A : Type 0} → LimitsConfig → Result A → Type 0
Errs limits (ok a) = 0 ≤ 0
Errs limits (err e) = Named limits e

abbrev pub ErrsIfAny : {A : Type 0} → LimitsConfig → Option (Result A) → Type 0
ErrsIfAny limits none = 0 ≤ 0
ErrsIfAny limits (some r) = Errs limits r

module _ (limits : LimitsConfig) where
  of_test :
      {A : Type 0} (test : Bool) (a : A) (e : NormalizationError)
      → Named limits e
      → Errs limits (if test then ok a else err e)
  of_test true a e h = omega arith
  of_test false a e h = h

  bind-Errs :
      {A B : Type 0} (r : Result A) (f : A → B) → Errs limits r → Errs limits (r >>= λ a. ok (f a))
  bind-Errs (ok a) f h = omega arith
  bind-Errs (err e) f h = h

  parse_query-Errs :
      (nfkc : Bytes → Bytes) (derive_variants : Bytes → List Bytes) (q : Bytes)
      → Errs limits (parse_query nfkc derive_variants q limits)
  parse_query-Errs nfkc derive_variants q =
      subst (Errs limits) (sym (parse_query-add_pairs nfkc derive_variants limits q))
        (of_test _ _ (NormalizationError.too_many_params limits.max_params) refl)

  pub query_of-Errs :
      (nfkc : Bytes → Bytes) (derive_variants : Bytes → List Bytes) (q : Option Bytes)
      → Errs limits (query_of nfkc derive_variants limits q)
  unfolding query_of
  query_of-Errs nfkc derive_variants none = omega arith
  query_of-Errs nfkc derive_variants (some q) = parse_query-Errs nfkc derive_variants q

  pub cookies_in-Errs :
      (nfkc : Bytes → Bytes) (jar : CookieJar) (headers : List (Bytes × Bytes))
      → Errs limits (cookies_in nfkc limits jar headers)
  unfolding cookies_in
  cookies_in-Errs nfkc jar [] = omega arith
  cookies_in-Errs nfkc jar ((name, value) ∷ headers) =
      by_name (bytes_eq name (codes "cookie")) (parse_cookies_limited value limits.max_cookies)
        (subst (Errs limits) (sym (parse_cookies_limited-cookies_of value limits.max_cookies))
          (of_test _ _ (NormalizationError.too_many_cookies limits.max_cookies) refl))
        (λ jar'. cookies_in-Errs nfkc jar' headers)
    where
      by_name :
          (is_cookie : Bool) (r : Result (List (Bytes × Bytes)))
          → Errs limits r
          → ((jar' : CookieJar) → Errs limits (cookies_in nfkc limits jar' headers))
          → Errs limits (
              if is_cookie
              then with_cookies
                  (λ pairs. cookies_in nfkc limits (add_cookies nfkc jar pairs) headers)
                  r
              else cookies_in nfkc limits jar headers)
      by_name true (ok pairs) h later = later (add_cookies nfkc jar pairs)
      by_name true (err e) h later = h
      by_name false r h later = later jar

  flattened-Errs : (value : Value) → Errs limits (flattened limits value)
  flattened-Errs value = bind-Errs (flatten_value value limits) ParsedBody.json_flattened (
      subst (Errs limits) (sym (flatten_value-leaves value limits))
        (of_test _ _ (NormalizationError.json_depth_exceeded limits.max_json_depth) refl))

  form-Errs :
      (nfkc : Bytes → Bytes) (body : Bytes) → Errs limits (parse_form_urlencoded nfkc body limits)
  form-Errs nfkc body =
      subst (Errs limits) (sym (parse_form_urlencoded-parse_query nfkc (λ s. []) limits body)) (
        bind-Errs (parse_query nfkc (λ s. []) (text_or_empty body) limits)
          (λ q. ParsedBody.form_url_encoded q.params)
          (parse_query-Errs nfkc (λ s. []) (text_or_empty body)))

  module _ (from_str : Bytes → Option Value) (json_message utf8_message : Bytes → Bytes)
      (to_lowercase nfkc : Bytes → Bytes) where
    value_or-Errs :
        (text : Bytes) (value : Option Value)
        → Errs limits (value_or from_str json_message utf8_message text limits value)
    value_or-Errs text none = omega arith
    value_or-Errs text (some value) = flattened-Errs value

    text_or-Errs :
        (body : Bytes) (text : Option Bytes)
        → Errs limits (text_or from_str json_message utf8_message body limits text)
    text_or-Errs body none = omega arith
    text_or-Errs body (some text) = value_or-Errs text (from_str text)

    or_raw-Errs :
        (body : Bytes) (r : Result (Option ParsedBody))
        → Errs limits r
        → Errs limits (or_raw from_str json_message utf8_message body r)
    or_raw-Errs body (ok none) h = omega arith
    or_raw-Errs body (ok (some parsed)) h = omega arith
    or_raw-Errs body (err e) h = h

    sniff_text-Errs :
        (text : Option Bytes)
        → Errs limits (sniff_text from_str json_message utf8_message limits text)
    sniff_text-Errs none = omega arith
    sniff_text-Errs (some text) =
        by_look (looks_like_json (trim_start text)) (from_str (trim_start text))
      where
        by_look :
            (looks : Bool) (value : Option Value)
            → Errs limits (
                if looks
                then sniff_value from_str json_message utf8_message limits value
                else ok none)
        by_look true none = omega arith
        by_look true (some value) = bind-Errs (flattened limits value) some (flattened-Errs value)
        by_look false value = omega arith

    multipart_at-Errs :
        (body : Bytes) (boundary : Option Bytes)
        → ErrsIfAny limits
            (multipart_at from_str json_message utf8_message to_lowercase nfkc body boundary)
    multipart_at-Errs body none = omega arith
    multipart_at-Errs body (some boundary) = always_ok (parse_multipart to_lowercase body boundary)
      where
        always_ok : (r : Option ParsedBody) → ErrsIfAny limits (Option.map ok r)
        always_ok none = omega arith
        always_ok (some parsed) = omega arith

    pub parse_body-ErrsIfAny :
        (content_type : Option Bytes) (body : Bytes)
        → ErrsIfAny limits (
            parse_body from_str json_message utf8_message to_lowercase nfkc content_type body
              limits)
    unfolding parse_body sniff_json parse_json
    parse_body-ErrsIfAny content_type body =
        by_type (declares form_type ct_lower) (starts_with (codes "multipart/") ct_lower)
          (declares json_type ct_lower) (is_empty body)
      where
        ct_lower : Bytes
        ct_lower = to_lowercase (trim (or_empty content_type))

        by_type :
            (form multi json blank : Bool)
            → ErrsIfAny limits (
                if form
                then some (parse_form_urlencoded nfkc body limits)
                else if multi
                then multipart_at from_str json_message utf8_message to_lowercase nfkc body
                    (extract_boundary to_lowercase (or_empty content_type))
                else if json
                then some (parse_json from_str json_message utf8_message body limits)
                else if blank
                then some (ok ParsedBody.no_body)
                else some (
                    or_raw from_str json_message utf8_message body
                      (sniff_json from_str json_message utf8_message body limits)))
        by_type true multi json blank = form-Errs nfkc body
        by_type false true json blank =
            multipart_at-Errs body (extract_boundary to_lowercase (or_empty content_type))
        by_type false false true blank = text_or-Errs body (from_utf8 body)
        by_type false false false true = omega arith
        by_type false false false false = or_raw-Errs body _ (sniff_text-Errs (from_utf8 body))
