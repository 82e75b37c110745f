-- ===== src/Tests/Parsers.antt =====
-- crates/waf-normalizer: the decoders and parsers on short inputs.
use rust_waf.Common.{
  true, ◌<◌, false, List, [], ◌∷◌, ◌++◌, some, ◌≡◌, refl, arith, Bytes, codes, leb, if◌then◌else◌,
  length, trim, split,
}
use rust_waf.Common.Utf8.{is_utf8}
use rust_waf.Core.Config.Defaults.{limits_default}
use rust_waf.Normalizer.Percent.{
  is_space, is_escape, is_overlong, hex_pair, still_percent_encoded, percent_overlong_fixpoint,
}
use rust_waf.Normalizer.Percent.Shrink.{has_overlong}
use rust_waf.Normalizer.Percent.Fixpoint.{percent_overlong_fixpoint_lem}
use rust_waf.Normalizer.Headers.{header_base64_excluded, header_content_inspectable}
use rust_waf.Normalizer.Headers.Credentials.{header_content_inspectable-base64}
use rust_waf.Normalizer.Path.{resolve_path, or_root, join_segments}
use rust_waf.Normalizer.Path.Segments.{AllOf, Plain}
use rust_waf.Normalizer.Path.Resolved.{resolve_path-Plain, resolve_path-idempotent}
use rust_waf.Normalizer.Query.{
  NormalizationError, ok, err, nothing, parse_query, parse_cookies_limited,
}
use rust_waf.Normalizer.Query.Limits.{
  nonempty, add_pairs, cookies_of, parse_query-add_pairs, parse_cookies_limited-cookies_of,
}
use rust_waf.Normalizer.Graphql.{GraphqlStats, initial, scan, graphql_lex}
use rust_waf.Normalizer.Graphql.Counts.{Bounded, graphql_lex-Bounded}
use rust_waf.Normalizer.Graphql.Opaque.{scan-string}
use rust_waf.Normalizer.Grpc.{GrpcLimits, GrpcExtract, no_extract, and_then, grpc_extract}
use rust_waf.Normalizer.Grpc.Bounds.{grpc_extract-InLimits}
use rust_waf.Normalizer.Grpc.Rounds.{InLimits}
use rust_waf.Normalizer.Grpc.Framing.{Frame, encode, take_frames, at_end, grpc_extract-encode}

-- Two layers of encoding around a slash.
abbrev twice_encoded : Bytes
twice_encoded = codes "a%252Fb"

decodes_twice :
    percent_overlong_fixpoint twice_encoded false 5
    ≡ record { bytes = codes "a/b"; passes = 2; budget = 3 }
unfolding percent_overlong_fixpoint is_space is_escape is_overlong hex_pair
decodes_twice = refl

budget_left : 0 < (percent_overlong_fixpoint twice_encoded false 5).budget
budget_left = rw decodes_twice (omega arith)

percent_overlong_fixpoint_lem_example :
    (still_percent_encoded (percent_overlong_fixpoint twice_encoded false 5).bytes ≡ false)
    × (has_overlong (percent_overlong_fixpoint twice_encoded false 5).bytes ≡ false)
percent_overlong_fixpoint_lem_example =
    percent_overlong_fixpoint_lem twice_encoded false 5 budget_left

abbrev climbing : Bytes
climbing = codes "/a/./b/../../../etc/passwd"

climb_stops_at_root : resolve_path climbing ≡ codes "/etc/passwd"
unfolding resolve_path split
climb_stops_at_root = refl

resolve_path-Plain_example :
    (segs : List Bytes) × AllOf Plain segs × (resolve_path climbing ≡ or_root (join_segments segs))
resolve_path-Plain_example = resolve_path-Plain climbing

resolve_path-idempotent_example : resolve_path (resolve_path climbing) ≡ resolve_path climbing
resolve_path-idempotent_example = resolve_path-idempotent climbing

abbrev same : Bytes → Bytes
same s = s

abbrev no_variants : Bytes → List Bytes
no_variants s = []

parse_query-add_pairs_example : parse_query same no_variants (codes "a=1&&b=%32") limits_default ≡ (
    if leb (length (nonempty (split b'&' (codes "a=1&&b=%32")))) limits_default.max_params
    then ok (
        add_pairs same no_variants limits_default nothing
          (nonempty (split b'&' (codes "a=1&&b=%32"))))
    else err (NormalizationError.too_many_params limits_default.max_params))
parse_query-add_pairs_example =
    parse_query-add_pairs same no_variants limits_default (codes "a=1&&b=%32")

parse_cookies_limited-cookies_of_example : parse_cookies_limited (codes "a=1; b=2") 1 ≡ (
    if leb (length (cookies_of (split b';' (codes "a=1; b=2")))) 1
    then ok (cookies_of (split b';' (codes "a=1; b=2")))
    else err (NormalizationError.too_many_cookies 1))
parse_cookies_limited-cookies_of_example = parse_cookies_limited-cookies_of (codes "a=1; b=2") 1

too_many_cookies :
    parse_cookies_limited (codes "a=1; b=2") 1 ≡ err (NormalizationError.too_many_cookies 1)
unfolding parse_cookies_limited split trim
too_many_cookies = refl

abbrev query_text : Bytes
query_text = codes "{ a(x: {y: {z: 1}}) { b c } }"

arguments_add_no_depth :
    graphql_lex query_text
    ≡ some (record {
      max_depth = 2;
      aliases = 0;
      fields = 3;
      directives = 0;
      has_introspection = false;
    })
unfolding graphql_lex
arguments_add_no_depth = refl

graphql_lex-Bounded_example :
    (stats : GraphqlStats) × (graphql_lex query_text ≡ some stats)
    × Bounded (length query_text) stats
graphql_lex-Bounded_example = graphql_lex-Bounded query_text

scan-string_example :
    scan initial (b'"' ∷ b'{' ∷ (codes "{{" ++ (b'"' ∷ codes "{ a }")))
    ≡ scan initial (codes "{ a }")
scan-string_example = scan-string initial b'{' (codes "{{") (codes "{ a }") refl

abbrev grpc_limits : GrpcLimits
grpc_limits = record { max_depth = 16; max_fields = 4096; max_leaves = 1024 }

-- One frame that holds the field 1 with the text `hi`.
abbrev hello : Frame
hello = record { flag = 0; message = 0x0A ∷ 2 ∷ b'h' ∷ b'i' ∷ [] }

reads_hello :
    grpc_extract (encode (hello ∷ [])) grpc_limits
    ≡ some (record no_extract {
      messages = 1;
      total_payload_bytes = 4;
      max_message_len = 4;
      fields = 1;
      max_depth = 1;
      leaves = codes "hi" ∷ [];
    })
unfolding grpc_extract encode is_utf8
reads_hello = refl

grpc_extract-InLimits_example :
    (out : GrpcExtract) × (grpc_extract (encode (hello ∷ [])) grpc_limits ≡ some out)
    × InLimits grpc_limits out
grpc_extract-InLimits_example = grpc_extract-InLimits (encode (hello ∷ [])) grpc_limits

grpc_extract-encode_example :
    grpc_extract (encode (hello ∷ hello ∷ []) ++ (0 ∷ [])) grpc_limits
    ≡ and_then (take_frames grpc_limits (hello ∷ hello ∷ []) no_extract) (at_end (0 ∷ []))
grpc_extract-encode_example =
    grpc_extract-encode grpc_limits (hello ∷ hello ∷ []) (0 ∷ []) (omega arith)

x_api_is_read : header_content_inspectable (codes "x-api") ≡ true
unfolding header_content_inspectable
x_api_is_read = refl

header_content_inspectable-base64_example : header_base64_excluded (codes "x-api") ≡ false
header_content_inspectable-base64_example =
    header_content_inspectable-base64 (codes "x-api") x_api_is_read
