-- ===== src/Tests/Normalizing.antt =====
-- crates/waf-normalizer/src/lib.rs: `normalize` on whole requests.
use rust_waf.Common.{
  List, [], ◌∷◌, map, Option, none, some, ◌≡◌, refl, Bytes, codes, to_ascii_lowercase,
}
use rust_waf.Core.Context.{ParsedBody, RequestContext}
use rust_waf.Core.Config.Defaults.{limits_default}
use rust_waf.Common.Utf8.{from_utf8}
use rust_waf.Normalizer.Percent.{canonicalize_multipart_field, is_space, is_escape, hex_pair}
use rust_waf.Normalizer.Json.{Value}
use rust_waf.Normalizer.Query.{NormalizationError, Result, err}
use rust_waf.Normalizer.Request.{normalize, body_canonical_strings}
use rust_waf.Normalizer.Request.Kept.{Passed, normalize-Passed}
use rust_waf.Tests.Requests.{request}

abbrev no_json : Bytes → Option Value
no_json s = none

abbrev message : Bytes → Bytes
message s = codes "expected value"

abbrev same : Bytes → Bytes
same s = s

abbrev lower : Bytes → Bytes
lower s = map to_ascii_lowercase s

abbrev no_variants : Bytes → List Bytes
no_variants s = []

-- A form with an encoded path and a cookie.
abbrev post : RequestContext
post = record request {
  method = codes "POST";
  raw_path = codes "/a/../%62//";
  headers =
      (codes "Content-Type", codes " application/x-www-form-urlencoded")
      ∷ (codes "Cookie", codes "s=1")
      ∷ [];
  body = codes "q=%3Cb%3E";
}

normalize-Passed_example :
    (r : Result RequestContext) × (normalize no_json message message lower same no_variants
        no_variants limits_default post
      ≡ some r)
    × Passed limits_default post r
normalize-Passed_example =
    normalize-Passed no_json message message lower same no_variants no_variants limits_default post

one_header_too_many :
    normalize no_json message message lower same no_variants no_variants
      (record limits_default { max_headers = 1 })
      post
    ≡ some (err (NormalizationError.too_many_headers 1))
unfolding normalize
one_header_too_many = refl

header_too_long :
    normalize no_json message message lower same no_variants no_variants
      (record limits_default { max_header_size = 3 })
      post
    ≡ some (err (NormalizationError.header_too_large 3 34))
unfolding normalize
header_too_long = refl

strings_of_a_part :
    body_canonical_strings same (
      ParsedBody.multipart (
        record {
          name = codes "f";
          filename = some (codes "%61");
          content_type = none;
          payload = 255 ∷ [];
        }
        ∷ []))
    ≡ codes "f" ∷ codes "a" ∷ []
unfolding body_canonical_strings canonicalize_multipart_field from_utf8 is_space is_escape hex_pair
strings_of_a_part = refl
