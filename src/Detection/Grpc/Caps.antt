-- ===== src/Detection/Grpc/Caps.antt =====
-- crates/waf-detection/src/grpc.rs: what the gRPC module decides.
use rust_waf.Common.{
  ◌≤◌, Bool, true, false, not, ◌||◌, Option, some, ◌≡◌, refl, sym, ap, ◌∙◌, subst, ◌↔◌, ◌⊎◌, inl,
  inr, arith, Bytes, codes, starts_with, ltb, Bool-cases, trim_start,
}
use rust_waf.Core.Decision.{Decision}
use rust_waf.Core.Context.{ParsedBody, RequestContext}
use mathlib.Core.Option
use rust_waf.Core.Config.{GrpcConfig, CompressedPolicy}
use rust_waf.Normalizer.Grpc.{GrpcLimits, GrpcExtract, grpc_extract}
use rust_waf.Normalizer.Grpc.Bounds.{grpc_extract-InLimits}
use rust_waf.Normalizer.Grpc.Rounds.{InLimits}
use rust_waf.Detection.Grpc.{
  content_type, header_compressed, reject, limits_of, on_compressed, judge, judge_body, inspect,
}

-- Well-formed, not too long, and either not compressed with the caps kept, or compressed where the
-- policy lets such a body pass.
abbrev pub Acceptable : GrpcConfig → Bool → GrpcExtract → Type 0
Acceptable cfg compressed ex =
    (ex.malformed ≡ false)
    × (ex.total_payload_bytes ≤ cfg.max_message_bytes)
    × ((((ex.compressed || compressed) ≡ true) × (cfg.on_compressed ≡ CompressedPolicy.passthrough))
        ⊎ ((ex.compressed ≡ false)
            × (compressed ≡ false)
            × (ex.depth_exceeded ≡ false)
            × (ex.fields ≤ cfg.max_fields)))

-- The module takes the request for gRPC with this body.
pub record IsGrpc (cfg : GrpcConfig) (ctx : RequestContext) (body : Bytes) : Type 0 where
  pub enabled : cfg.enabled ≡ true
  pub named : starts_with (codes "application/grpc") (trim_start (content_type ctx)) ≡ true
  pub framed : ctx.normalized.body ≡ ParsedBody.raw body

on_compressed_iff :
    (p : CompressedPolicy) → (on_compressed p ≡ Decision.allow) ↔ (p ≡ CompressedPolicy.passthrough)
unfolding on_compressed reject
on_compressed_iff CompressedPolicy.reject = ground arith
on_compressed_iff CompressedPolicy.passthrough = ground arith

judge_iff :
    (cfg : GrpcConfig) (compressed : Bool) (ex : GrpcExtract)
    → ex.fields_exceeded ≡ ltb cfg.max_fields ex.fields
    → (judge cfg compressed ex ≡ Decision.allow) ↔ Acceptable cfg compressed ex
unfolding judge reject
judge_iff cfg compressed ex e = ground (arith, on_compressed_iff cfg.on_compressed)

judge_body_total :
    (cfg : GrpcConfig) (compressed : Bool) (body : ParsedBody)
    → (d : Decision) × (judge_body cfg compressed body ≡ some d)
unfolding judge_body
judge_body_total cfg compressed (ParsedBody.raw body) =
    let (ex, e, h) = grpc_extract-InLimits body (limits_of cfg) in
    (judge cfg compressed ex, ap (Option.map (judge cfg compressed)) e)
judge_body_total cfg compressed ParsedBody.no_body = (_, refl)
judge_body_total cfg compressed (ParsedBody.form_url_encoded _) = (_, refl)
judge_body_total cfg compressed (ParsedBody.multipart _) = (_, refl)
judge_body_total cfg compressed (ParsedBody.json_flattened _) = (_, refl)

-- On every request, whatever the body, the module decides: the walk of the body ends.
pub inspect_total :
    (cfg : GrpcConfig) (ctx : RequestContext) → (d : Decision) × (inspect cfg ctx ≡ some d)
unfolding inspect
inspect_total cfg ctx = elim (Bool-cases (not cfg.enabled)) [
  | inl off ↦ rw off (Decision.allow, refl)
  | inr on ↦
      elim (Bool-cases (starts_with (codes "application/grpc") (trim_start (content_type ctx)))) [
        | inl named ↦
            rw (on, named) (judge_body_total cfg (header_compressed ctx) ctx.normalized.body)
        | inr other ↦ rw (on, other) (Decision.allow, refl)
      ]
]

inspect-judge :
    (cfg : GrpcConfig) (ctx : RequestContext) (body : Bytes) (ex : GrpcExtract)
    → IsGrpc cfg ctx body
    → grpc_extract body (limits_of cfg) ≡ some ex
    → inspect cfg ctx ≡ some (judge cfg (header_compressed ctx) ex)
unfolding inspect judge_body
inspect-judge cfg ctx body ex h e = rw (h.enabled, h.named, h.framed, e) refl

some-injective : (a b : GrpcExtract) → some a ≡ some b → a ≡ b
some-injective a b h = cc

some_iff : (o : Option Decision) (d e : Decision) → o ≡ some d → (o ≡ some e) ↔ (d ≡ e)
some_iff o d e h = ((λ k. cc), (λ k. cc))

-- What was extracted is within the limits.
extracted-InLimits :
    (body : Bytes) (limits : GrpcLimits) (ex : GrpcExtract)
    → grpc_extract body limits ≡ some ex
    → InLimits limits ex
extracted-InLimits body limits ex e =
    let (ex', e', h) = grpc_extract-InLimits body limits in
    subst (InLimits limits) (some-injective ex' ex (sym e' ∙ e)) h

inspect-decides :
    (cfg : GrpcConfig) (ctx : RequestContext) (body : Bytes) (ex : GrpcExtract)
    → IsGrpc cfg ctx body
    → grpc_extract body (limits_of cfg) ≡ some ex
    → (inspect cfg ctx ≡ some Decision.allow) ↔ Acceptable cfg (header_compressed ctx) ex
unfolding InLimits
inspect-decides cfg ctx body ex h e =
    let (_, _, _, _, cap) = extracted-InLimits body (limits_of cfg) ex e in
    let fits = judge_iff cfg (header_compressed ctx) ex cap in
    let both = some_iff _ _ Decision.allow (inspect-judge cfg ctx body ex h e) in
    ((λ k. fits.0 (both.0 k)), (λ k. both.1 (fits.1 k)))

-- A request that the module takes for gRPC is let through exactly when its body, as `grpc_extract`
-- reads it, is acceptable.
pub inspect-Acceptable :
    (cfg : GrpcConfig) (ctx : RequestContext) (body : Bytes)
    → IsGrpc cfg ctx body
    → (inspect cfg ctx ≡ some Decision.allow) ↔ (
        (ex : GrpcExtract) × (grpc_extract body (limits_of cfg) ≡ some ex)
        × Acceptable cfg (header_compressed ctx) ex)
inspect-Acceptable cfg ctx body h =
    let (ex, e, _) = grpc_extract-InLimits body (limits_of cfg) in
    (
      (λ k. (ex, e, (inspect-decides cfg ctx body ex h e).0 k)),
      (λ (ex', e', k). (inspect-decides cfg ctx body ex' h e').1 k),
    )
