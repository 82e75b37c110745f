-- ===== src/Core/Config/Validate/Sound.antt =====
-- crates/waf-core/src/lib.rs: `Config::validate` against the conditions on each section, written here
-- without reference to the checks.
use rust_waf.Common.{
  ℕ, ◌≤◌, true, false, List, [], ◌∷◌, ◌++◌, Option, some, ◌≡◌, refl, ◌≢◌, ◌↔◌, ◌⊎◌, inl, inr, arith,
  Bytes, codes, Option-cases, any, trim, strip_prefix, strip_prefix_iff,
}
use rust_waf.Core.Context.{IpAddr}
use rust_waf.Core.ClientIp.{is_valid_cidr}
use rust_waf.Core.Config.{
  Config, ProxyConfig, WafConfig, LimitsConfig, RateLimitAction, RateLimitConfig, NetworkConfig,
  ResilienceConfig, TlsConfig, GraphqlConfig, GrpcConfig, CrsConfig, WasmPluginConfig, WasmConfig,
}
use rust_waf.Core.Config.Validate.{
  Checked, ok, err, ◌>>◌, max_paranoia_level, max_trusted_hops, is_blank, is_authority,
  check_backend, check_waf, check_limits, check_rate_limit, check_resilience, check_tls,
  check_graphql, check_grpc, check_crs, check_wasm, check_cidrs, check_network, validate,
}

abbrev pub AllOf {ℓ κ} : {A : Type ℓ} → (A → Type κ) → List A → Type κ
AllOf P [] = Unit
AllOf P (x ∷ xs) = P x × AllOf P xs

-- An absolute http(s) address with a host.
abbrev pub ValidBackend : ProxyConfig → Type 0
ValidBackend p =
    (scheme : Bytes) × (c : ℕ) × (rest : Bytes) × ((scheme ≡ codes "http://")
      ⊎ (scheme ≡ codes "https://"))
    × (trim p.backend ≡ scheme ++ (c ∷ rest))
    × (c ≢ b'/')

abbrev pub ValidWaf : WafConfig → Type 0
ValidWaf w =
    (1 ≤ w.block_threshold)
    × (1 ≤ w.paranoia_level)
    × (w.paranoia_level ≤ max_paranoia_level)
    × (1 ≤ w.severity_scores.critical)
    × (1 ≤ w.severity_scores.error)
    × (1 ≤ w.severity_scores.warning)
    × (1 ≤ w.severity_scores.notice)

abbrev pub ValidLimits : LimitsConfig → Type 0
ValidLimits l =
    (1 ≤ l.max_body_size)
    × (1 ≤ l.max_header_size)
    × (1 ≤ l.max_headers)
    × (1 ≤ l.max_params)
    × (1 ≤ l.max_cookies)
    × (1 ≤ l.max_json_depth)

abbrev pub ValidRateLimit : RateLimitConfig → Type 0
ValidRateLimit r =
    r.enabled ≡ true
    → (1 ≤ r.requests)
      × (1 ≤ r.window_seconds)
      × (r.burst ≢ some 0)
      × (1 ≤ r.max_tracked_keys)
      × (r.action ≡ RateLimitAction.score → 1 ≤ r.score)

abbrev pub ValidNetwork : (Bytes → Option IpAddr) → NetworkConfig → Type 0
ValidNetwork parse_addr n =
    (1 ≤ n.trusted_hops)
    × (n.trusted_hops ≤ max_trusted_hops)
    × AllOf (λ s. is_valid_cidr parse_addr s ≡ true) n.trusted_proxies
    × (trim n.client_ip_header ≢ [])

abbrev pub ValidTls : TlsConfig → Type 0
ValidTls t =
    t.enabled ≡ true
    → (trim t.cert_path ≢ [])
      × (trim t.key_path ≢ [])
      × (t.alpn ≢ [])
      × AllOf (λ p. trim p ≢ []) t.alpn

abbrev pub ValidGraphql : GraphqlConfig → Type 0
ValidGraphql g =
    g.enabled ≡ true
    → (1 ≤ g.max_depth)
      × (1 ≤ g.max_aliases)
      × (1 ≤ g.max_fields)
      × (1 ≤ g.max_directives)
      × (1 ≤ g.max_batch)

abbrev pub ValidGrpc : GrpcConfig → Type 0
ValidGrpc g = g.enabled ≡ true → (1 ≤ g.max_message_bytes) × (1 ≤ g.max_fields) × (1 ≤ g.max_depth)

abbrev pub ValidWasm : WasmConfig → Type 0
ValidWasm w =
    w.enabled ≡ true
    → (w.plugins ≢ []) × AllOf (λ (p : WasmPluginConfig). trim p.path ≢ []) w.plugins

pub record IsValid (parse_addr : Bytes → Option IpAddr) (c : Config) : Type 0 where
  pub proxy : ValidBackend c.proxy
  pub waf : ValidWaf c.waf
  pub limits : ValidLimits c.limits
  pub rate_limit : ValidRateLimit c.rate_limit
  pub network : ValidNetwork parse_addr c.network
  pub resilience : 1 ≤ c.resilience.upstream_timeout_ms
  pub tls : ValidTls c.tls
  pub graphql : ValidGraphql c.modules.graphql
  pub grpc : ValidGrpc c.modules.grpc
  pub crs : c.modules.crs.enabled ≡ true → c.modules.crs.files ≢ []
  pub wasm : ValidWasm c.modules.wasm

check_waf_iff : (w : WafConfig) → (check_waf w ≡ ok) ↔ ValidWaf w
unfolding check_waf
check_waf_iff w = ground arith

check_limits_iff : (l : LimitsConfig) → (check_limits l ≡ ok) ↔ ValidLimits l
unfolding check_limits
check_limits_iff l = ground arith

check_rate_limit_iff : (r : RateLimitConfig) → (check_rate_limit r ≡ ok) ↔ ValidRateLimit r
unfolding check_rate_limit
check_rate_limit_iff r = ground arith

check_graphql_iff : (g : GraphqlConfig) → (check_graphql g ≡ ok) ↔ ValidGraphql g
unfolding check_graphql
check_graphql_iff g = ground arith

check_grpc_iff : (g : GrpcConfig) → (check_grpc g ≡ ok) ↔ ValidGrpc g
unfolding check_grpc
check_grpc_iff g = ground arith

is_blank_iff : (s : Bytes) → (is_blank s ≡ false) ↔ (trim s ≢ [])
is_blank_iff s = ground arith

any_blank_iff : (ss : List Bytes) → (any is_blank ss ≡ false) ↔ AllOf (λ p. trim p ≢ []) ss
any_blank_iff [] = ground arith
any_blank_iff (s ∷ ss) = ground (arith, is_blank_iff s, any_blank_iff ss)

check_tls_iff : (t : TlsConfig) → (check_tls t ≡ ok) ↔ ValidTls t
unfolding check_tls
check_tls_iff t =
    ground (arith, is_blank_iff t.cert_path, is_blank_iff t.key_path, any_blank_iff t.alpn)

check_crs_iff : (c : CrsConfig) → (check_crs c ≡ ok) ↔ (c.enabled ≡ true → c.files ≢ [])
unfolding check_crs
check_crs_iff c = ground arith

plugins_iff :
    (ps : List WasmPluginConfig)
    → (any (λ (p : WasmPluginConfig). is_blank p.path) ps ≡ false)
      ↔ AllOf (λ (p : WasmPluginConfig). trim p.path ≢ []) ps
plugins_iff [] = ground arith
plugins_iff (p ∷ ps) = ground (arith, is_blank_iff p.path, plugins_iff ps)

check_wasm_iff : (w : WasmConfig) → (check_wasm w ≡ ok) ↔ ValidWasm w
unfolding check_wasm
check_wasm_iff w = ground (arith, plugins_iff w.plugins)

check_cidrs_iff :
    (parse_addr : Bytes → Option IpAddr) (ss : List Bytes)
    → (check_cidrs parse_addr ss ≡ ok) ↔ AllOf (λ s. is_valid_cidr parse_addr s ≡ true) ss
unfolding check_cidrs
check_cidrs_iff parse_addr [] = ground arith
check_cidrs_iff parse_addr (s ∷ ss) = ground (arith, check_cidrs_iff parse_addr ss)

check_network_iff :
    (parse_addr : Bytes → Option IpAddr) (n : NetworkConfig)
    → (check_network parse_addr n ≡ ok) ↔ ValidNetwork parse_addr n
unfolding check_network
check_network_iff parse_addr n =
    ground (arith, check_cidrs_iff parse_addr n.trusted_proxies, is_blank_iff n.client_ip_header)

-- A host behind a scheme that was stripped.
behind :
    (p : ProxyConfig) (scheme a : Bytes)
    → (scheme ≡ codes "http://") ⊎ (scheme ≡ codes "https://")
    → strip_prefix scheme (trim p.backend) ≡ some a
    → is_authority (some a) ≡ true
    → ValidBackend p
unfolding is_authority
behind p scheme [] known stripped h = cc
behind p scheme (c ∷ rest) known stripped h = (
  scheme,
  c,
  rest,
  known,
  (strip_prefix_iff scheme (trim p.backend) (c ∷ rest)).0 stripped,
  ground arith,
)

check_backend_ok : (p : ProxyConfig) → check_backend p ≡ ok → ValidBackend p
unfolding check_backend
check_backend_ok p h = elim (Option-cases (strip_prefix (codes "http://") (trim p.backend))) [
  | inr (a, e) ↦ behind p (codes "http://") a (inl refl) e (ground arith)
  | inl e ↦ elim (Option-cases (strip_prefix (codes "https://") (trim p.backend))) [
    | inr (a, e') ↦ behind p (codes "https://") a (inr refl) e' (ground arith)
    | inl e' ↦ absurd (ground arith)
  ]
]

ok_check_backend : (p : ProxyConfig) → ValidBackend p → check_backend p ≡ ok
unfolding check_backend strip_prefix
ok_check_backend p (scheme, c, rest, inl e, t, ne) = rw (t, e) (ground arith)
ok_check_backend p (scheme, c, rest, inr e, t, ne) = rw (t, e) (ground arith)

check_backend_iff : (p : ProxyConfig) → (check_backend p ≡ ok) ↔ ValidBackend p
check_backend_iff p = (check_backend_ok p, ok_check_backend p)

check_resilience_iff :
    (r : ResilienceConfig) → (check_resilience r ≡ ok) ↔ (1 ≤ r.upstream_timeout_ms)
unfolding check_resilience
check_resilience_iff r = ground arith

>>-eq-ok : (a b : Checked) → (a >> b ≡ ok) ↔ ((a ≡ ok) × (b ≡ ok))
>>-eq-ok ok b = ground arith
>>-eq-ok (err e) b = ground arith

join : {P Q : Type 0} {a b : Checked} → (a ≡ ok) ↔ P → (b ≡ ok) ↔ Q → (a >> b ≡ ok) ↔ (P × Q)
join {a = a} {b = b} p q = (
  (λ h. let (ha, hb) = (>>-eq-ok a b).0 h in (p.0 ha, q.0 hb)),
  (λ h. (>>-eq-ok a b).1 (p.1 h.0, q.1 h.1)),
)

-- `validate` accepts a configuration exactly when every section meets its conditions: each bound is
-- at least 1 where it matters, the paranoia level and the trusted hops are in range, every trusted
-- proxy parses, the backend is an absolute http(s) address with a host, and an enabled TLS, GraphQL,
-- gRPC, CRS or WASM section has what it needs.
pub validate_iff :
    (parse_addr : Bytes → Option IpAddr) (c : Config)
    → (validate parse_addr c ≡ ok) ↔ IsValid parse_addr c
unfolding validate
validate_iff parse_addr c =
    let all =
      join
        (join
          (join
            (join
              (join
                (join
                  (join
                    (join
                      (join (join (check_backend_iff c.proxy) (check_waf_iff c.waf))
                        (check_limits_iff c.limits))
                      (check_rate_limit_iff c.rate_limit))
                    (check_network_iff parse_addr c.network))
                  (check_resilience_iff c.resilience))
                (check_tls_iff c.tls))
              (check_graphql_iff c.modules.graphql))
            (check_grpc_iff c.modules.grpc))
          (check_crs_iff c.modules.crs))
        (check_wasm_iff c.modules.wasm) in
    (
      (λ h.
          let v = all.0 h in
          record {
            proxy = v.0.0.0.0.0.0.0.0.0.0;
            waf = v.0.0.0.0.0.0.0.0.0.1;
            limits = v.0.0.0.0.0.0.0.0.1;
            rate_limit = v.0.0.0.0.0.0.0.1;
            network = v.0.0.0.0.0.0.1;
            resilience = v.0.0.0.0.0.1;
            tls = v.0.0.0.0.1;
            graphql = v.0.0.0.1;
            grpc = v.0.0.1;
            crs = v.0.1;
            wasm = v.1;
          }),
      (λ v. all.1 (
        (
          (
            (
              ((((((v.proxy, v.waf), v.limits), v.rate_limit), v.network), v.resilience), v.tls),
              v.graphql,
            ),
            v.grpc,
          ),
          v.crs,
        ),
        v.wasm,
      )),
    )
