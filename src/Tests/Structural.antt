-- ===== src/Tests/Structural.antt =====
-- crates/waf-detection: the structural modules on requests, and weights that wrap.
use rust_waf.Common.{
  ℕ, ◌+◌, ◌^◌, true, List, [], ◌∷◌, none, some, ◌≡◌, refl, ◌↔◌, arith, Bytes, codes, starts_with,
  trim_start,
}
use rust_waf.Core.Decision.{Severity, ScoreItem, Decision, FailMode, WafMode, points_for}
use rust_waf.Core.Context.{ParsedBody, RequestContext}
use rust_waf.Pipeline.{Pipeline, PipelineVerdict, apply_decision, run_connection}
use rust_waf.Common.Utf8.{is_utf8}
use rust_waf.Core.Config.{GrpcConfig}
use rust_waf.Core.Config.Defaults.{grpc_default}
use rust_waf.Normalizer.Grpc.{GrpcExtract, grpc_extract}
use rust_waf.Detection.Smuggling
use rust_waf.Detection.Smuggling.{request_smuggling, values_of}
use rust_waf.Detection.Smuggling.Framing.{Unambiguous, inspect-Unambiguous}
use rust_waf.Detection.Grpc
use rust_waf.Detection.Grpc.{content_type, header_compressed, limits_of}
use rust_waf.Detection.Grpc.Caps.{Acceptable, IsGrpc, inspect_total, inspect-Acceptable}
use rust_waf.Pipeline.Overflow.{two_items, apply_decision-wrap}
use rust_waf.Tests.Requests.{request, weights, allower, pipeline}

abbrev both_framings : RequestContext
both_framings = record request {
  headers = (codes "content-length", codes "5") ∷ (codes "transfer-encoding", codes "chunked") ∷ [];
}

both_are_refused :
    (run_connection
      (pipeline (request_smuggling true ∷ allower ∷ []) WafMode.blocking FailMode.fail_open)
      both_framings
      0).verdict
    ≡ PipelineVerdict.reject
        (codes "request-smuggling")
        (codes "content-length and transfer-encoding both present")
        400
        none
unfolding run_connection request_smuggling
both_are_refused = refl

inspect-Unambiguous_example :
    (Smuggling.inspect true both_framings ≡ Decision.allow)
    ↔ Unambiguous
        (values_of (codes "content-length") both_framings.headers)
        (values_of (codes "transfer-encoding") both_framings.headers)
inspect-Unambiguous_example = inspect-Unambiguous both_framings

abbrev grpc_on : GrpcConfig
grpc_on = record grpc_default { enabled = true }

-- One frame that holds the field 1 with the text `hi`.
abbrev hello : Bytes
hello = 0 ∷ 0 ∷ 0 ∷ 0 ∷ 4 ∷ 0x0A ∷ 2 ∷ b'h' ∷ b'i' ∷ []

abbrev grpc_request : RequestContext
grpc_request = record request {
  normalized = record (request.normalized) {
    headers = (codes "content-type", codes "application/grpc+proto") ∷ [];
    body = ParsedBody.raw hello;
  };
}

hello_is_named :
    starts_with (codes "application/grpc") (trim_start (content_type grpc_request)) ≡ true
unfolding content_type trim_start
hello_is_named = refl

grpc_request-IsGrpc : IsGrpc grpc_on grpc_request hello
grpc_request-IsGrpc = record { enabled = refl; named = hello_is_named; framed = refl }

hello_is_let_through : Grpc.inspect grpc_on grpc_request ≡ some Decision.allow
unfolding Grpc.inspect trim_start grpc_extract is_utf8
hello_is_let_through = refl

inspect_total_example : (d : Decision) × (Grpc.inspect grpc_on grpc_request ≡ some d)
inspect_total_example = inspect_total grpc_on grpc_request

inspect-Acceptable_example : (Grpc.inspect grpc_on grpc_request ≡ some Decision.allow) ↔ (
    (ex : GrpcExtract) × (grpc_extract hello (limits_of grpc_on) ≡ some ex)
    × Acceptable grpc_on (header_compressed grpc_request) ex)
inspect-Acceptable_example = inspect-Acceptable grpc_on grpc_request hello grpc_request-IsGrpc

-- The weights of `critical` and `error` are 2^31 each.
abbrev heavy : Pipeline ℕ
heavy = record (pipeline [] WafMode.blocking FailMode.fail_open) {
  severity_scores = record weights { critical = 2 ^ 31; error = 2 ^ 31 };
}

abbrev matches : List ScoreItem
matches = two_items (codes "r1") (codes "r2") Severity.critical Severity.error

sum_of_weights :
    points_for heavy.severity_scores Severity.critical
      + points_for heavy.severity_scores Severity.error
    ≡ 2 ^ 32
unfolding points_for
sum_of_weights = refl

apply_decision-wrap_example :
    ((apply_decision heavy request (codes "sqli") (Decision.scores matches)).1 ≡ none)
    × ((apply_decision heavy request (codes "sqli") (Decision.scores matches)).0.score
        ≡ request.score)
apply_decision-wrap_example =
    apply_decision-wrap heavy request (codes "sqli") (codes "r1") (codes "r2") Severity.critical
      Severity.error (omega arith) (omega arith) sum_of_weights
