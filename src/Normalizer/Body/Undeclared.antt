-- ===== src/Normalizer/Body/Undeclared.antt =====
-- crates/waf-normalizer/src/body.rs: `parse_body` ends, and how it reads a body of no declared type.
use rust_waf.Common.{
  Bool, true, false, Option, none, some, ◌≡◌, refl, sym, ap, ◌∙◌, Bytes, codes, starts_with,
  if◌then◌else◌, is_empty, white_len, trim_start, trim_end, trim,
}
use rust_waf.Core.Context.{ParsedBody}
use mathlib.Core.Option
use rust_waf.Common.Utf8.{from_utf8}
use rust_waf.Core.Config.{LimitsConfig}
use rust_waf.Normalizer.Json.{Value}
use rust_waf.Normalizer.Query.{Result, ok, err}
use rust_waf.Normalizer.Body.Flatten.{◌>>=◌}
use rust_waf.Normalizer.Body.Form.{parse_form_urlencoded}
use rust_waf.Normalizer.Body.Multipart.{extract_boundary}
use rust_waf.Normalizer.Body.Multipart.Total.{parse_multipart-fields}
use rust_waf.Normalizer.Body.{
  or_empty, form_type, json_type, declares, looks_like_json, flattened, sniff_json, parse_json,
  or_raw, multipart_at, parse_body,
}

-- No branch of `parse_body` that looks at the type takes the body.
abbrev pub Undeclared : Bytes → Type 0
Undeclared ct_lower =
    (declares form_type ct_lower ≡ false)
    × (starts_with (codes "multipart/") ct_lower ≡ false)
    × (declares json_type ct_lower ≡ false)

module _ (from_str : Bytes → Option Value) (json_message utf8_message : Bytes → Bytes)
    (to_lowercase nfkc : Bytes → Bytes) where
  multipart_at-total :
      (body : Bytes) (boundary : Option Bytes)
      → (r : Result ParsedBody) × (multipart_at from_str json_message utf8_message to_lowercase nfkc
            body boundary
          ≡ some r)
  multipart_at-total body none = (ok (ParsedBody.raw body), refl)
  multipart_at-total body (some boundary) =
      let (fields, e, named, bound) = parse_multipart-fields to_lowercase body boundary in
      (ok (ParsedBody.multipart fields), ap (Option.map ok) e)

  -- `parse_body` gives a body or an error on every input: the fuel of its loops is enough.
  pub parse_body-total :
      (content_type : Option Bytes) (body : Bytes) (limits : LimitsConfig)
      → (r : Result ParsedBody) × (parse_body from_str json_message utf8_message to_lowercase nfkc
            content_type body limits
          ≡ some r)
  unfolding parse_body
  parse_body-total content_type body limits =
      by_type (declares form_type ct_lower) (starts_with (codes "multipart/") ct_lower)
        (declares json_type ct_lower) (is_empty body)
    where
      ct_lower : Bytes
      ct_lower = to_lowercase (trim (or_empty content_type))

      by_type :
          (form multi json blank : Bool)
          → (r : Result ParsedBody) × ((if form
                then some (parse_form_urlencoded nfkc body limits)
                else if multi
                then multipart_at from_str json_message utf8_message to_lowercase nfkc body
                    (extract_boundary to_lowercase (or_empty content_type))
                else if json
                then some (parse_json from_str json_message utf8_message body limits)
                else if blank
                then some (ok ParsedBody.no_body)
                else some (
                    or_raw from_str json_message utf8_message body
                      (sniff_json from_str json_message utf8_message body limits)))
              ≡ some r)
      by_type true multi json blank = (_, refl)
      by_type false true json blank =
          multipart_at-total body (extract_boundary to_lowercase (or_empty content_type))
      by_type false false true blank = (_, refl)
      by_type false false false true = (_, refl)
      by_type false false false false = (_, refl)

  json_type-trim : trim json_type ≡ json_type
  unfolding trim trim_start trim_end white_len
  json_type-trim = refl

  regroup :
      (body : Bytes) (r : Result ParsedBody)
      → or_raw from_str json_message utf8_message body (r >>= λ parsed. ok (some parsed)) ≡ r
  regroup body (ok parsed) = refl
  regroup body (err e) = refl

  -- A body that is JSON and starts with a brace or a bracket is read under a type that declares
  -- nothing just as it is under `application/json`, its depth limit included, whatever lower case
  -- maps to, as long as it leaves `application/json` alone.
  pub parse_body-looks_like_json :
      (content_type : Option Bytes) (body text : Bytes) (value : Value) (limits : LimitsConfig)
      → to_lowercase json_type ≡ json_type
      → Undeclared (to_lowercase (trim (or_empty content_type)))
      → is_empty body ≡ false
      → from_utf8 body ≡ some text
      → trim_start text ≡ text
      → looks_like_json text ≡ true
      → from_str text ≡ some value
      → parse_body from_str json_message utf8_message to_lowercase nfkc content_type body limits
        ≡ parse_body from_str json_message utf8_message to_lowercase nfkc
            (some json_type)
            body
            limits
  unfolding parse_body sniff_json parse_json
  parse_body-looks_like_json content_type body text value limits lower (form, multi, json) full utf8
        bare looks parsed =
      undeclared ∙ sym declared
    where
      trimmed : trim json_type ≡ json_type
      trimmed = json_type-trim

      undeclared :
          parse_body from_str json_message utf8_message to_lowercase nfkc content_type body limits
          ≡ some (flattened limits value)
      undeclared =
          rw (form, multi, json, full, utf8, bare, looks, parsed)
            (ap some (regroup body (flattened limits value)))

      declared :
          parse_body from_str json_message utf8_message to_lowercase nfkc
            (some json_type)
            body
            limits
          ≡ some (flattened limits value)
      declared = rw (trimmed, lower, utf8, parsed) refl
