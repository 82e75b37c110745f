-- ===== src/Tests/Bodies.antt =====
-- crates/waf-normalizer/src/body.rs: bodies of each type.
use rust_waf.Common.{
  ◌≤◌, true, List, [], ◌∷◌, map, Option, none, some, ◌≡◌, refl, Bytes, codes, bytes_eq,
  to_ascii_lowercase, leb, if◌then◌else◌, length, all, decimal, white_len, trim_start, trim_end,
  trim, split, split_once, strip_prefix,
}
use rust_waf.Core.Context.{MultipartField, ParsedBody}
use rust_waf.Common.Utf8.{from_utf8}
use rust_waf.Core.Config.Defaults.{limits_default}
use rust_waf.Normalizer.Json.{Value, Elements, Members}
use rust_waf.Normalizer.Query.{NormalizationError, ok, err}
use rust_waf.Normalizer.Body.Flatten.{flatten_value}
use rust_waf.Normalizer.Body.Flatten.Depth.{nesting, leaves, flatten_value-leaves}
use rust_waf.Normalizer.Body.Multipart.{
  parse_multipart, extract_boundary, find_bytes, crlf_lines, header_of,
}
use rust_waf.Normalizer.Body.Multipart.Total.{is_named, payloads, parse_multipart-fields}
use rust_waf.Normalizer.Body.{json_type, or_empty, parse_body}
use rust_waf.Normalizer.Body.Undeclared.{Undeclared, parse_body-looks_like_json}

-- `{"a":["x",true]}`, once as a text and once parsed.
abbrev envelope : Bytes
envelope = codes "{\"a\":[\"x\",true]}"

abbrev parsed : Value
parsed = Value.object (
    Members.member (codes "a")
      (Value.array (
        Elements.element (Value.string (codes "x"))
          (Elements.element (Value.bool true) Elements.no_more)))
      Members.no_member)

abbrev from_str : Bytes → Option Value
from_str s = if bytes_eq s envelope then some parsed else none

abbrev message : Bytes → Bytes
message s = codes "expected value"

abbrev same : Bytes → Bytes
same s = s

abbrev no_variants : Bytes → List Bytes
no_variants s = []

flatten_value-leaves_example : flatten_value parsed limits_default ≡ (
    if leb (nesting parsed) limits_default.max_json_depth
    then ok (leaves parsed [])
    else err (NormalizationError.json_depth_exceeded limits_default.max_json_depth))
flatten_value-leaves_example = flatten_value-leaves parsed limits_default

flattened_pairs :
    flatten_value parsed limits_default
    ≡ ok ((codes "a.0", codes "x") ∷ (codes "a.1", codes "true") ∷ [])
unfolding flatten_value decimal
flattened_pairs = refl

too_deep_by_one :
    flatten_value parsed (record limits_default { max_json_depth = 1 })
    ≡ err (NormalizationError.json_depth_exceeded 1)
unfolding flatten_value decimal
too_deep_by_one = refl

abbrev upload : Bytes
upload =
    codes "--b\r\nContent-Disposition: form-data; name=\"f\"; filename=\"e.php\"\r\n\r\nhi\r\n--b--"

-- Lower case of ASCII letters.
abbrev lower : Bytes → Bytes
lower s = map to_ascii_lowercase s

one_field :
    parse_multipart lower upload (codes "b")
    ≡ some (
        ParsedBody.multipart (
          record {
            name = codes "f";
            filename = some (codes "e.php");
            content_type = none;
            payload = codes "hi";
          }
          ∷ []))
unfolding parse_multipart find_bytes crlf_lines header_of trim trim_start trim_end white_len split
    split_once from_utf8 strip_prefix
one_field = refl

the_boundary :
    extract_boundary lower (codes "multipart/form-data; Boundary=\"xY\"") ≡ some (codes "xY")
unfolding extract_boundary split trim trim_start trim_end white_len
the_boundary = refl

parse_multipart-fields_example :
    (fields : List MultipartField) × (parse_multipart lower upload (codes "b")
      ≡ some (ParsedBody.multipart fields))
    × (all is_named fields ≡ true)
    × (payloads fields ≤ length upload)
parse_multipart-fields_example = parse_multipart-fields lower upload (codes "b")

no_type_declared : Undeclared (lower (trim (or_empty none)))
unfolding trim trim_start trim_end white_len
no_type_declared = (refl, refl, refl)

envelope_is_utf8 : from_utf8 envelope ≡ some envelope
unfolding from_utf8
envelope_is_utf8 = refl

envelope_has_no_margin : trim_start envelope ≡ envelope
unfolding trim_start white_len
envelope_has_no_margin = refl

parse_body-looks_like_json_example :
    parse_body from_str message message lower same none envelope limits_default
    ≡ parse_body from_str message message lower same (some json_type) envelope limits_default
parse_body-looks_like_json_example =
    parse_body-looks_like_json from_str message message lower same none envelope envelope parsed
      limits_default refl no_type_declared refl envelope_is_utf8 envelope_has_no_margin refl refl
