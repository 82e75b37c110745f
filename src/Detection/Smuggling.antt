-- ===== src/Detection/Smuggling.antt =====
-- crates/waf-detection/src/request_smuggling.rs: the framing that a request's headers declare.
use rust_waf.Common.{
  ℕ, zero, suc, ◌+◌, ◌-◌, ◌*◌, ◌/◌, ◌%◌, ◌^◌, ◌≤◌, ◌<◌, min, max, Bool, true, false, not, ◌&&◌,
  ◌||◌, List, [], ◌∷◌, ◌++◌, map, append_assoc, append-nil, Option, none, some, ◌≡◌, refl, sym, ap,
  ◌∙◌, subst, ◌≢◌, ◌↔◌, ◌⊎◌, inl, inr, arith, Bytes, codes, bytes_eq, bytes_eq_iff, is_ascii_digit,
  is_ascii_alphabetic, is_ascii_alphanumeric, to_ascii_lowercase, eq_ignore_ascii_case, starts_with,
  ltb, leb, ◌==◌, within, if◌then◌else◌, ltb→lt, lt→ltb, ==_iff, Bool-cases, Option-cases, length,
  get_elem?, take, drop, any, all, keep, find, is_empty, length-append, take-append-drop,
  length-take, length-drop, length-keep-le, decimal, parse_uint, white_len, trim_start, trim_end,
  trim, split, split_once, strip_prefix, ends_with, cons_head,
}
use rust_waf.Core.Decision.{
  Severity, ScoreItem, Decision, Phase, FailMode, WafMode, SeverityScores, points_for,
}
use rust_waf.Core.Context.{
  IpAddr, MultipartField, ParsedBody, Normalized, RequestContext, ScoreContribution,
}
use rust_waf.Pipeline.{
  Pipeline, PipelineVerdict, WafModule, Outcome, Run, Report, accumulate, accumulate_items,
  threshold_check, enforce, settle, apply_decision, inspect_module, selected, same_phase,
  run_modules, run_loop, conclude, unless_broken, run_phases_filtered, run_phases, run,
  run_connection, run_inspection, run_inspection_gated, phase_order, inspection_phases, u32_add,
  last_rule_id,
}
pub mod Framing

unfoldable pub reject : Bytes → Decision
reject reason = Decision.reject (codes "request-smuggling") reason 400 none

unfoldable pub is_valid_content_length : Bytes → Bool
is_valid_content_length v = not (is_empty v) && all is_ascii_digit v

-- The values of the headers of this name, in order.
unfoldable pub values_of : Bytes → List (Bytes × Bytes) → List Bytes
values_of name headers =
    map (λ (h : Bytes × Bytes). h.1) (keep (λ (h : Bytes × Bytes). bytes_eq h.0 name) headers)

-- Rule 3, for the values of Transfer-Encoding.
unfoldable pub check_te : List Bytes → Decision
unfolding reject
check_te [] = Decision.allow
check_te (v ∷ []) =
    if eq_ignore_ascii_case v (codes "chunked")
    then Decision.allow
    else reject (codes "obfuscated or non-chunked transfer-encoding")
check_te (v ∷ w ∷ vs) = reject (codes "duplicate transfer-encoding headers")

-- Rule 2, for the values of Content-Length, and then rule 3.
unfoldable pub check_cl : List Bytes → List Bytes → Decision
unfolding reject check_te is_valid_content_length
check_cl [] te = check_te te
check_cl (v ∷ []) te =
    if is_valid_content_length v
    then check_te te
    else reject (codes "malformed content-length value")
check_cl (v ∷ w ∷ vs) te = reject (codes "duplicate content-length headers")

unfoldable pub judge : List Bytes → List Bytes → Decision
unfolding reject check_cl
judge cl te =
    if not (is_empty cl) && not (is_empty te)
    then reject (codes "content-length and transfer-encoding both present")
    else check_cl cl te

unfoldable pub inspect : Bool → RequestContext → Decision
unfolding judge values_of
inspect enabled ctx =
    if enabled
    then judge (values_of (codes "content-length") ctx.headers)
        (values_of (codes "transfer-encoding") ctx.headers)
    else Decision.allow

unfoldable pub request_smuggling : {W : Type 0} → Bool → WafModule W
unfolding inspect
request_smuggling enabled = record {
  id = codes "request_smuggling";
  phase = Phase.connection;
  structural = false;
  inspect = λ ctx w. (Outcome.decided (inspect enabled ctx), w);
}
