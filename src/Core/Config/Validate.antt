-- ===== src/Core/Config/Validate.antt =====
-- crates/waf-core/src/lib.rs: `Config::validate`. The checks stand in the order of the source, and
-- each section's checks are a step of the chain.
pub mod Sound
use rust_waf.Common.{
  ℕ, zero, suc, ◌+◌, ◌-◌, ◌*◌, ◌/◌, ◌%◌, ◌^◌, ◌≤◌, ◌<◌, min, max, Bool, true, false, not, ◌&&◌,
  ◌||◌, List, [], ◌∷◌, ◌++◌, map, append_assoc, append-nil, Option, none, some, ◌≡◌, refl, sym, ap,
  ◌∙◌, subst, ◌≢◌, ◌↔◌, ◌⊎◌, inl, inr, arith, Bytes, codes, bytes_eq, bytes_eq_iff, is_ascii_digit,
  is_ascii_alphabetic, is_ascii_alphanumeric, to_ascii_lowercase, eq_ignore_ascii_case, starts_with,
  ltb, leb, ◌==◌, within, if◌then◌else◌, ltb→lt, lt→ltb, ==_iff, Bool-cases, Option-cases, length,
  get_elem?, take, drop, any, all, keep, find, is_empty, length-append, take-append-drop,
  length-take, length-drop, length-keep-le, decimal, parse_uint, white_len, trim_start, trim_end,
  trim, split, split_once, strip_prefix, ends_with, cons_head,
}
use rust_waf.Core.Context.{
  IpAddr, MultipartField, ParsedBody, Normalized, RequestContext, ScoreContribution,
}
use rust_waf.Core.Decision.{SeverityScores}
use rust_waf.Core.ClientIp.{is_valid_cidr}
use rust_waf.Core.Config.{
  Config, ProxyConfig, WafConfig, LimitsConfig, RateLimitAction, RateLimitConfig, NetworkConfig,
  ResilienceConfig, TlsConfig, GraphqlConfig, GrpcConfig, CrsConfig, WasmPluginConfig, WasmConfig,
}

pub data ConfigError : Type 0 where
  invalid_backend : Bytes → ConfigError
  block_threshold_zero : ConfigError
  paranoia_out_of_range : ℕ → ConfigError
  severity_weight_zero : Bytes → ConfigError
  limit_zero : Bytes → ConfigError
  rate_limit_value_zero : Bytes → ConfigError
  trusted_hops_out_of_range : ℕ → ConfigError
  invalid_cidr : Bytes → ConfigError
  empty_client_ip_header : ConfigError
  resilience_timeout_zero : ConfigError
  graphql_cap_zero : Bytes → ConfigError
  grpc_cap_zero : Bytes → ConfigError
  tls_path_empty : Bytes → ConfigError
  tls_alpn_invalid : ConfigError
  crs_no_files : ConfigError
  wasm_no_plugins : ConfigError
  wasm_plugin_path_empty : ConfigError

pub data Checked : Type 0 where
  ok : Checked
  err : ConfigError → Checked

-- `return Err(e)` leaves `validate`; what follows runs if no check failed.
infixl 5 ◌>>◌
abbrev pub ◌>>◌ : Checked → Checked → Checked
ok >> k = k
err e >> k = err e

abbrev pub fail_if : Bool → ConfigError → Checked
fail_if true e = err e
fail_if false e = ok

abbrev pub max_paranoia_level : ℕ
max_paranoia_level = 4

abbrev pub max_trusted_hops : ℕ
max_trusted_hops = 10

-- `for (name, v) in [..] { if v == 0 { return Err(e(name)) } }`
abbrev pub first_zero : (Bytes → ConfigError) → List (Bytes × ℕ) → Checked
first_zero e [] = ok
first_zero e ((name, v) ∷ rest) = fail_if (v == 0) (e name) >> first_zero e rest

abbrev pub is_blank : Bytes → Bool
is_blank s = is_empty (trim s)

-- `strip_prefix("http://")`, or else `strip_prefix("https://")`, of the trimmed address.
unfoldable pub authority : Bytes → Option Bytes
authority backend = elim (strip_prefix (codes "http://") backend) [
  | some a ↦ some a
  | none ↦ strip_prefix (codes "https://") backend
]

unfoldable pub is_authority : Option Bytes → Bool
is_authority none = false
is_authority (some a) = not (is_empty a) && not (starts_with (codes "/") a)

unfoldable pub check_backend : ProxyConfig → Checked
unfolding authority is_authority
check_backend p =
    fail_if (not (is_authority (authority (trim p.backend))))
      (ConfigError.invalid_backend p.backend)

unfoldable pub check_waf : WafConfig → Checked
check_waf w =
    fail_if (w.block_threshold == 0) ConfigError.block_threshold_zero
    >> fail_if (not (within 1 max_paranoia_level w.paranoia_level))
        (ConfigError.paranoia_out_of_range w.paranoia_level)
    >> first_zero ConfigError.severity_weight_zero (
        (codes "critical", w.severity_scores.critical)
        ∷ (codes "error", w.severity_scores.error)
        ∷ (codes "warning", w.severity_scores.warning)
        ∷ (codes "notice", w.severity_scores.notice)
        ∷ [])

unfoldable pub check_limits : LimitsConfig → Checked
check_limits l = first_zero ConfigError.limit_zero (
    (codes "max_body_size", l.max_body_size)
    ∷ (codes "max_header_size", l.max_header_size)
    ∷ (codes "max_headers", l.max_headers)
    ∷ (codes "max_params", l.max_params)
    ∷ (codes "max_cookies", l.max_cookies)
    ∷ (codes "max_json_depth", l.max_json_depth)
    ∷ [])

abbrev pub scores : RateLimitAction → Bool
scores RateLimitAction.score = true
scores RateLimitAction.block = false

abbrev pub is_some_zero : Option ℕ → Bool
is_some_zero none = false
is_some_zero (some n) = n == 0

unfoldable pub check_rate_limit : RateLimitConfig → Checked
check_rate_limit r =
    if not r.enabled
    then ok
    else fail_if (r.requests == 0) (ConfigError.rate_limit_value_zero (codes "requests"))
      >> fail_if (r.window_seconds == 0)
          (ConfigError.rate_limit_value_zero (codes "window_seconds"))
      >> fail_if (is_some_zero r.burst) (ConfigError.rate_limit_value_zero (codes "burst"))
      >> fail_if (r.max_tracked_keys == 0)
          (ConfigError.rate_limit_value_zero (codes "max_tracked_keys"))
      >> fail_if (scores r.action && r.score == 0)
          (ConfigError.rate_limit_value_zero (codes "score"))

unfoldable pub check_resilience : ResilienceConfig → Checked
check_resilience r = fail_if (r.upstream_timeout_ms == 0) ConfigError.resilience_timeout_zero

unfoldable pub check_tls : TlsConfig → Checked
check_tls t =
    if not t.enabled
    then ok
    else fail_if (is_blank t.cert_path) (ConfigError.tls_path_empty (codes "cert_path"))
      >> fail_if (is_blank t.key_path) (ConfigError.tls_path_empty (codes "key_path"))
      >> fail_if (is_empty t.alpn || any is_blank t.alpn) ConfigError.tls_alpn_invalid

unfoldable pub check_graphql : GraphqlConfig → Checked
check_graphql g =
    if not g.enabled
    then ok
    else first_zero ConfigError.graphql_cap_zero (
        (codes "max_depth", g.max_depth)
        ∷ (codes "max_aliases", g.max_aliases)
        ∷ (codes "max_fields", g.max_fields)
        ∷ (codes "max_directives", g.max_directives)
        ∷ (codes "max_batch", g.max_batch)
        ∷ [])

unfoldable pub check_grpc : GrpcConfig → Checked
check_grpc g =
    if not g.enabled
    then ok
    else first_zero ConfigError.grpc_cap_zero (
        (codes "max_message_bytes", g.max_message_bytes)
        ∷ (codes "max_fields", g.max_fields)
        ∷ (codes "max_depth", g.max_depth)
        ∷ [])

unfoldable pub check_crs : CrsConfig → Checked
check_crs c = fail_if (c.enabled && is_empty c.files) ConfigError.crs_no_files

unfoldable pub check_wasm : WasmConfig → Checked
check_wasm w =
    if not w.enabled
    then ok
    else fail_if (is_empty w.plugins) ConfigError.wasm_no_plugins
      >> fail_if (any (λ (p : WasmPluginConfig). is_blank p.path) w.plugins)
          ConfigError.wasm_plugin_path_empty

module _ (parse_addr : Bytes → Option IpAddr) where
  unfoldable pub check_cidrs : List Bytes → Checked
  unfolding is_valid_cidr
  check_cidrs [] = ok
  check_cidrs (cidr ∷ cidrs) =
      fail_if (not (is_valid_cidr parse_addr cidr)) (ConfigError.invalid_cidr cidr)
      >> check_cidrs cidrs

  unfoldable pub check_network : NetworkConfig → Checked
  unfolding check_cidrs
  check_network n =
      fail_if (not (within 1 max_trusted_hops n.trusted_hops))
        (ConfigError.trusted_hops_out_of_range n.trusted_hops)
      >> check_cidrs n.trusted_proxies
      >> fail_if (is_blank n.client_ip_header) ConfigError.empty_client_ip_header

  unfoldable pub validate : Config → Checked
  unfolding check_backend check_waf check_limits check_rate_limit check_resilience check_tls
      check_graphql check_grpc check_crs check_wasm check_network
  validate c =
      check_backend c.proxy
      >> check_waf c.waf
      >> check_limits c.limits
      >> check_rate_limit c.rate_limit
      >> check_network c.network
      >> check_resilience c.resilience
      >> check_tls c.tls
      >> check_graphql c.modules.graphql
      >> check_grpc c.modules.grpc
      >> check_crs c.modules.crs
      >> check_wasm c.modules.wasm
