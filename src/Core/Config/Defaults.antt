-- ===== src/Core/Config/Defaults.antt =====
-- crates/waf-core/src/lib.rs: the `Default` values of the configuration sections.
use rust_waf.Common.{ℕ, ◌*◌, true, false, [], ◌∷◌, none, codes}
use rust_waf.Core.Decision.{FailMode, WafMode, SeverityScores}
use rust_waf.Core.Context.{IpAddr}
use rust_waf.Core.Config.{
  SocketAddr, MetricsConfig, TlsConfig, ResilienceConfig, NetworkConfig, RateLimitKey,
  RateLimitAction, RateLimitConfig, ModuleConfig, GraphqlConfig, CompressedPolicy, GrpcConfig,
  CrsConfig, WasmConfig, ModulesConfig, ProxyConfig, WafConfig, LimitsConfig, Config,
}

-- 127.0.0.1
abbrev pub loopback : ℕ → SocketAddr
loopback port = record { ip = IpAddr.v4 0x7F00_0001; port = port }

abbrev pub metrics_default : MetricsConfig
metrics_default = record { enabled = false; listen = loopback 9090 }

abbrev pub tls_default : TlsConfig
tls_default = record {
  enabled = false;
  cert_path = [];
  key_path = [];
  alpn = codes "h2" ∷ codes "http/1.1" ∷ [];
}

abbrev pub resilience_default : ResilienceConfig
resilience_default = record {
  on_upstream_error = FailMode.fail_closed;
  on_internal_error = FailMode.fail_open;
  on_config_error = FailMode.fail_open;
  on_parser_limit = FailMode.fail_closed;
  upstream_timeout_ms = 30_000;
}

abbrev pub network_default : NetworkConfig
network_default = record {
  trusted_proxies = [];
  client_ip_header = codes "x-forwarded-for";
  trusted_hops = 1;
}

abbrev pub rate_limit_default : RateLimitConfig
rate_limit_default = record {
  enabled = false;
  key = RateLimitKey.client_ip;
  requests = 100;
  window_seconds = 60;
  burst = none;
  action = RateLimitAction.block;
  score = 5;
  max_tracked_keys = 100_000;
}

abbrev pub module_default : ModuleConfig
module_default = record { enabled = true }

abbrev pub graphql_default : GraphqlConfig
graphql_default = record {
  enabled = false;
  paths = codes "/graphql" ∷ [];
  max_depth = 15;
  max_aliases = 30;
  max_fields = 1000;
  max_directives = 50;
  max_batch = 10;
  block_introspection = false;
}

abbrev pub grpc_default : GrpcConfig
grpc_default = record {
  enabled = false;
  max_message_bytes = 4 * 1024 * 1024;
  max_fields = 4096;
  max_depth = 16;
  on_compressed = CompressedPolicy.reject;
}

abbrev pub crs_default : CrsConfig
crs_default = record { enabled = false; files = [] }

abbrev pub wasm_default : WasmConfig
wasm_default = record {
  enabled = false;
  pool_size = 4;
  fuel_per_request = 10_000_000;
  max_memory_bytes = 16 * 1024 * 1024;
  checkout_timeout_ms = 100;
  plugins = [];
}

abbrev pub modules_default : ModulesConfig
modules_default = record {
  sqli = module_default;
  xss = module_default;
  path_traversal = module_default;
  rce = module_default;
  lfi_rfi = module_default;
  ssrf = module_default;
  ldap = module_default;
  nosql = module_default;
  mail = module_default;
  ssti = module_default;
  scanner = module_default;
  ssi = module_default;
  xxe = module_default;
  header_injection = module_default;
  request_smuggling = module_default;
  graphql = graphql_default;
  grpc = grpc_default;
  crs = crs_default;
  wasm = wasm_default;
}

abbrev pub severity_default : SeverityScores
severity_default = record { critical = 6; error = 4; warning = 3; notice = 2 }

abbrev pub proxy_default : ProxyConfig
proxy_default = record { listen = loopback 8080; backend = codes "http://localhost:8080" }

abbrev pub waf_default : WafConfig
waf_default = record {
  mode = WafMode.detection_only;
  block_threshold = 5;
  paranoia_level = 1;
  severity_scores = severity_default;
}

abbrev pub limits_default : LimitsConfig
limits_default = record {
  max_body_size = 1_048_576;
  max_header_size = 8_192;
  max_headers = 100;
  max_params = 100;
  max_cookies = 50;
  max_json_depth = 20;
}

abbrev pub config_default : Config
config_default = record {
  proxy = proxy_default;
  waf = waf_default;
  limits = limits_default;
  modules = modules_default;
  rate_limit = rate_limit_default;
  network = network_default;
  resilience = resilience_default;
  tls = tls_default;
  metrics = metrics_default;
}
