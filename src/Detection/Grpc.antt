-- ===== src/Detection/Grpc.antt =====
-- crates/waf-detection/src/grpc.rs: the caps on the shape of a gRPC body.
use rust_waf.Common.{
  ℕ, zero, suc, ◌+◌, ◌-◌, ◌*◌, ◌/◌, ◌%◌, ◌^◌, ◌≤◌, ◌<◌, min, max, Bool, true, false, not, ◌&&◌,
  ◌||◌, List, [], ◌∷◌, ◌++◌, map, append_assoc, append-nil, Option, none, some, ◌≡◌, refl, sym, ap,
  ◌∙◌, subst, ◌≢◌, ◌↔◌, ◌⊎◌, inl, inr, arith, Bytes, codes, bytes_eq, bytes_eq_iff, is_ascii_digit,
  is_ascii_alphabetic, is_ascii_alphanumeric, to_ascii_lowercase, eq_ignore_ascii_case, starts_with,
  ltb, leb, ◌==◌, within, if◌then◌else◌, ltb→lt, lt→ltb, ==_iff, Bool-cases, Option-cases, length,
  get_elem?, take, drop, any, all, keep, find, is_empty, length-append, take-append-drop,
  length-take, length-drop, length-keep-le, decimal, parse_uint, white_len, trim_start, trim_end,
  trim, split, split_once, strip_prefix, ends_with, cons_head,
}
use rust_waf.Core.Decision.{
  Severity, ScoreItem, Decision, Phase, FailMode, WafMode, SeverityScores, points_for,
}
use rust_waf.Core.Context.{
  IpAddr, MultipartField, ParsedBody, Normalized, RequestContext, ScoreContribution,
}
use mathlib.Core.Option
use rust_waf.Core.Config.{GrpcConfig, CompressedPolicy}
use rust_waf.Normalizer.Grpc.{GrpcLimits, GrpcExtract, grpc_extract}
pub mod Caps

-- The value of the first header of this name among the canonical headers.
unfoldable pub header : Bytes → RequestContext → Option Bytes
header name ctx =
    Option.map (λ (h : Bytes × Bytes). h.1)
      (find (λ (h : Bytes × Bytes). bytes_eq h.0 name) ctx.normalized.headers)

unfoldable pub content_type : RequestContext → Bytes
unfolding header
content_type ctx = elim (header (codes "content-type") ctx) [ none ↦ [] | some v ↦ v ]

unfoldable pub header_compressed : RequestContext → Bool
unfolding header
header_compressed ctx = elim (header (codes "grpc-encoding") ctx) [
  | none ↦ false
  | some v ↦ not (eq_ignore_ascii_case (trim v) (codes "identity"))
]

unfoldable pub reject : Bytes → Decision
reject reason = Decision.reject (codes "grpc") reason 400 none

abbrev pub limits_of : GrpcConfig → GrpcLimits
limits_of cfg = record { max_depth = cfg.max_depth; max_fields = cfg.max_fields; max_leaves = 0 }

unfoldable pub on_compressed : CompressedPolicy → Decision
unfolding reject
on_compressed CompressedPolicy.reject = reject (codes "gRPC compressed payload is not inspectable")
on_compressed CompressedPolicy.passthrough = Decision.allow

-- What follows the extraction, where `compressed` is by the header.
unfoldable pub judge : GrpcConfig → Bool → GrpcExtract → Decision
unfolding reject on_compressed
judge cfg compressed ex =
    if ex.malformed
    then reject (codes "malformed gRPC framing")
    else if ltb cfg.max_message_bytes ex.total_payload_bytes
    then reject (codes "gRPC message size exceeds limit")
    else if ex.compressed || compressed
    then on_compressed cfg.on_compressed
    else if ex.depth_exceeded
    then reject (codes "gRPC message nesting depth exceeds limit")
    else if ex.fields_exceeded
    then reject (codes "gRPC field count exceeds limit")
    else Decision.allow

-- `none` is a walk that does not end.
unfoldable pub judge_body : GrpcConfig → Bool → ParsedBody → Option Decision
unfolding judge
judge_body cfg compressed (ParsedBody.raw body) =
    Option.map (judge cfg compressed) (grpc_extract body (limits_of cfg))
judge_body cfg compressed _ = some Decision.allow

unfoldable pub inspect : GrpcConfig → RequestContext → Option Decision
unfolding content_type header_compressed judge_body
inspect cfg ctx =
    if not cfg.enabled
    then some Decision.allow
    else if starts_with (codes "application/grpc") (trim_start (content_type ctx))
    then judge_body cfg (header_compressed ctx) ctx.normalized.body
    else some Decision.allow
