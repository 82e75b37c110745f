-- ===== src/Core/Config.antt =====
-- crates/waf-core/src/lib.rs: the configuration. Machine integers are numbers here; a `String` is
-- its bytes and a `SocketAddr` its address and port. Text comes in through serde, which is not modelled.
pub mod Defaults
pub mod Validate
use rust_waf.Common.{ℕ, Bool, List, Option, Bytes}
use rust_waf.Core.Decision.{FailMode, WafMode, SeverityScores}
use rust_waf.Core.Context.{IpAddr}

pub record SocketAddr : Type 0 where
  pub ip : IpAddr
  pub port : ℕ

pub record MetricsConfig : Type 0 where
  pub enabled : Bool
  pub listen : SocketAddr

pub record TlsConfig : Type 0 where
  pub enabled : Bool
  pub cert_path : Bytes
  pub key_path : Bytes
  pub alpn : List Bytes

pub record ResilienceConfig : Type 0 where
  pub on_upstream_error : FailMode
  pub on_internal_error : FailMode
  pub on_config_error : FailMode
  pub on_parser_limit : FailMode
  pub upstream_timeout_ms : ℕ

pub record NetworkConfig : Type 0 where
  pub trusted_proxies : List Bytes
  pub client_ip_header : Bytes
  pub trusted_hops : ℕ

pub data RateLimitKey : Type 0 where
  client_ip : RateLimitKey

pub data RateLimitAction : Type 0 where
  block score : RateLimitAction

pub record RateLimitConfig : Type 0 where
  pub enabled : Bool
  pub key : RateLimitKey
  pub requests : ℕ
  pub window_seconds : ℕ
  pub burst : Option ℕ
  pub action : RateLimitAction
  pub score : ℕ
  pub max_tracked_keys : ℕ

pub record ModuleConfig : Type 0 where
  pub enabled : Bool

pub record GraphqlConfig : Type 0 where
  pub enabled : Bool
  pub paths : List Bytes
  pub max_depth : ℕ
  pub max_aliases : ℕ
  pub max_fields : ℕ
  pub max_directives : ℕ
  pub max_batch : ℕ
  pub block_introspection : Bool

pub data CompressedPolicy : Type 0 where
  reject passthrough : CompressedPolicy

pub record GrpcConfig : Type 0 where
  pub enabled : Bool
  pub max_message_bytes : ℕ
  pub max_fields : ℕ
  pub max_depth : ℕ
  pub on_compressed : CompressedPolicy

pub record CrsConfig : Type 0 where
  pub enabled : Bool
  pub files : List Bytes

pub record WasmPluginConfig : Type 0 where
  pub path : Bytes
  pub config : Option Bytes

pub record WasmConfig : Type 0 where
  pub enabled : Bool
  pub pool_size : ℕ
  pub fuel_per_request : ℕ
  pub max_memory_bytes : ℕ
  pub checkout_timeout_ms : ℕ
  pub plugins : List WasmPluginConfig

pub record ModulesConfig : Type 0 where
  pub sqli : ModuleConfig
  pub xss : ModuleConfig
  pub path_traversal : ModuleConfig
  pub rce : ModuleConfig
  pub lfi_rfi : ModuleConfig
  pub ssrf : ModuleConfig
  pub ldap : ModuleConfig
  pub nosql : ModuleConfig
  pub mail : ModuleConfig
  pub ssti : ModuleConfig
  pub scanner : ModuleConfig
  pub ssi : ModuleConfig
  pub xxe : ModuleConfig
  pub header_injection : ModuleConfig
  pub request_smuggling : ModuleConfig
  pub graphql : GraphqlConfig
  pub grpc : GrpcConfig
  pub crs : CrsConfig
  pub wasm : WasmConfig

pub record ProxyConfig : Type 0 where
  pub listen : SocketAddr
  pub backend : Bytes

pub record WafConfig : Type 0 where
  pub mode : WafMode
  pub block_threshold : ℕ
  pub paranoia_level : ℕ
  pub severity_scores : SeverityScores

pub record LimitsConfig : Type 0 where
  pub max_body_size : ℕ
  pub max_header_size : ℕ
  pub max_headers : ℕ
  pub max_params : ℕ
  pub max_cookies : ℕ
  pub max_json_depth : ℕ

pub record Config : Type 0 where
  pub proxy : ProxyConfig
  pub waf : WafConfig
  pub limits : LimitsConfig
  pub modules : ModulesConfig
  pub rate_limit : RateLimitConfig
  pub network : NetworkConfig
  pub resilience : ResilienceConfig
  pub tls : TlsConfig
  pub metrics : MetricsConfig
