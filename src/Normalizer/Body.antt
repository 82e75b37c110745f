-- ===== src/Normalizer/Body.antt =====
-- crates/waf-normalizer/src/body.rs: the body by its content type.
--
-- `serde_json::from_str` is the argument `from_str`, and its message and that of `from_utf8` on a
-- failure are `json_message` and `utf8_message`. `str::to_lowercase` is `to_lowercase`, NFKC `nfkc`.
pub mod Flatten
pub mod Form
pub mod Multipart
pub mod Undeclared
use rust_waf.Common.{
  ℕ, zero, suc, ◌+◌, ◌-◌, ◌*◌, ◌/◌, ◌%◌, ◌^◌, ◌≤◌, ◌<◌, min, max, Bool, true, false, not, ◌&&◌,
  ◌||◌, List, [], ◌∷◌, ◌++◌, map, append_assoc, append-nil, Option, none, some, ◌≡◌, refl, sym, ap,
  ◌∙◌, subst, ◌≢◌, ◌↔◌, ◌⊎◌, inl, inr, arith, Bytes, codes, bytes_eq, bytes_eq_iff, is_ascii_digit,
  is_ascii_alphabetic, is_ascii_alphanumeric, to_ascii_lowercase, eq_ignore_ascii_case, starts_with,
  ltb, leb, ◌==◌, within, if◌then◌else◌, ltb→lt, lt→ltb, ==_iff, Bool-cases, Option-cases, length,
  get_elem?, take, drop, any, all, keep, find, is_empty, length-append, take-append-drop,
  length-take, length-drop, length-keep-le, decimal, parse_uint, white_len, trim_start, trim_end,
  trim, split, split_once, strip_prefix, strip_prefix_iff, ends_with, cons_head,
}
use rust_waf.Core.Context.{
  IpAddr, MultipartField, ParsedBody, Normalized, RequestContext, ScoreContribution,
}
use mathlib.Core.Option
use rust_waf.Common.Utf8.{from_utf8}
use rust_waf.Core.Config.{LimitsConfig}
use rust_waf.Normalizer.Json.{Value}
use rust_waf.Normalizer.Query.{NormalizationError, Result, ok, err}
use rust_waf.Normalizer.Body.Flatten.{flatten_value, ◌>>=◌}
use rust_waf.Normalizer.Body.Form.{parse_form_urlencoded}
use rust_waf.Normalizer.Body.Multipart.{parse_multipart, extract_boundary}

-- `unwrap_or("")`
abbrev pub or_empty : Option Bytes → Bytes
or_empty none = []
or_empty (some s) = s

abbrev pub form_type : Bytes
form_type = codes "application/x-www-form-urlencoded"

abbrev pub json_type : Bytes
json_type = codes "application/json"

-- The type alone, or the type with parameters.
abbrev pub declares : Bytes → Bytes → Bool
declares media ct_lower = bytes_eq ct_lower media || starts_with (media ++ codes ";") ct_lower

-- It starts with `{` or `[`.
abbrev pub looks_like_json : Bytes → Bool
looks_like_json trimmed = starts_with (codes "{") trimmed || starts_with (codes "[") trimmed

abbrev pub flattened : LimitsConfig → Value → Result ParsedBody
flattened limits value =
    flatten_value value limits >>= λ pairs. ok (ParsedBody.json_flattened pairs)

module _ (from_str : Bytes → Option Value) (json_message utf8_message : Bytes → Bytes) where
  abbrev pub sniff_value : LimitsConfig → Option Value → Result (Option ParsedBody)
  sniff_value limits none = ok none
  sniff_value limits (some value) = flattened limits value >>= λ parsed. ok (some parsed)

  abbrev pub sniff_text : LimitsConfig → Option Bytes → Result (Option ParsedBody)
  sniff_text limits none = ok none
  sniff_text limits (some text) =
      if looks_like_json (trim_start text)
      then sniff_value limits (from_str (trim_start text))
      else ok none

  unfoldable pub sniff_json : Bytes → LimitsConfig → Result (Option ParsedBody)
  sniff_json body limits = sniff_text limits (from_utf8 body)

  abbrev pub value_or : Bytes → LimitsConfig → Option Value → Result ParsedBody
  value_or text limits none = err (NormalizationError.json_parse_error (json_message text))
  value_or text limits (some value) = flattened limits value

  abbrev pub text_or : Bytes → LimitsConfig → Option Bytes → Result ParsedBody
  text_or body limits none = err (NormalizationError.json_parse_error (utf8_message body))
  text_or body limits (some text) = value_or text limits (from_str text)

  unfoldable pub parse_json : Bytes → LimitsConfig → Result ParsedBody
  parse_json body limits = text_or body limits (from_utf8 body)

  abbrev pub or_raw : Bytes → Result (Option ParsedBody) → Result ParsedBody
  or_raw body (ok none) = ok (ParsedBody.raw body)
  or_raw body (ok (some parsed)) = ok parsed
  or_raw body (err e) = err e

module _ (from_str : Bytes → Option Value) (json_message utf8_message : Bytes → Bytes)
    (to_lowercase nfkc : Bytes → Bytes) where
  abbrev pub multipart_at : Bytes → Option Bytes → Option (Result ParsedBody)
  multipart_at body none = some (ok (ParsedBody.raw body))
  multipart_at body (some boundary) = Option.map ok (parse_multipart to_lowercase body boundary)

  unfoldable pub parse_body : Option Bytes → Bytes → LimitsConfig → Option (Result ParsedBody)
  unfolding sniff_json parse_json
  parse_body content_type body limits =
      let ct = or_empty content_type in
      let ct_lower = to_lowercase (trim ct) in
      if declares form_type ct_lower
      then some (parse_form_urlencoded nfkc body limits)
      else if starts_with (codes "multipart/") ct_lower
      then multipart_at body (extract_boundary to_lowercase ct)
      else if declares json_type ct_lower
      then some (parse_json from_str json_message utf8_message body limits)
      else if is_empty body
      then some (ok ParsedBody.no_body)
      else some (
          or_raw from_str json_message utf8_message body
            (sniff_json from_str json_message utf8_message body limits))
