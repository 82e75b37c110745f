-- ===== src/Tests/Network.antt =====
-- crates/waf-core/src/lib.rs and crates/waf-core/src/network/client_ip.rs: a resolver behind one
-- proxy, and the default configuration.
use rust_waf.Common.{
  true, List, [], ◌∷◌, ◌++◌, Option, none, some, ◌≡◌, refl, ◌↔◌, arith, Bytes, codes, bytes_eq,
  if◌then◌else◌, trim, split, strip_prefix,
}
use rust_waf.Core.Context.{IpAddr}
use rust_waf.Core.Config.Defaults.{config_default}
use rust_waf.Core.Config.Validate.{ok, validate}
use rust_waf.Core.Config.Validate.Sound.{IsValid, validate_iff}
use rust_waf.Core.ClientIp.{IpSource, ResolvedClientIp, Cidr, ClientIpResolver, contains, resolve}
use rust_waf.Core.ClientIp.Masks.{Covers, contains_iff}
use rust_waf.Core.ClientIp.Chain.{Justified, resolve-Justified, resolve-append}
use rust_waf.Tests.Requests.{peer}

-- Two addresses are known.
abbrev parse_addr : Bytes → Option IpAddr
parse_addr s =
    if bytes_eq s (codes "1.2.3.4")
    then some (IpAddr.v4 0x0102_0304)
    else if bytes_eq s (codes "5.6.7.8")
    then some (IpAddr.v4 0x0506_0708)
    else none

abbrev behind_proxy : ClientIpResolver
behind_proxy = record {
  trusted = Cidr.v4 0x0A00_0000 8 ∷ [];
  header = codes "x-forwarded-for";
  hops = 1;
}

abbrev forwarded : Bytes → List (Bytes × Bytes)
forwarded value = (codes "X-Forwarded-For", value) ∷ []

takes_hop_from_right :
    resolve parse_addr behind_proxy peer (forwarded (codes "5.6.7.8, 1.2.3.4"))
    ≡ some (record { ip = IpAddr.v4 0x0102_0304; source = IpSource.trusted_header })
unfolding resolve contains split trim
takes_hop_from_right = refl

one_address :
    resolve parse_addr behind_proxy peer (forwarded (codes "1.2.3.4"))
    ≡ some (record { ip = IpAddr.v4 0x0102_0304; source = IpSource.trusted_header })
unfolding resolve contains split trim
one_address = refl

empty_header_is_malformed :
    resolve parse_addr behind_proxy peer (forwarded [])
    ≡ some (record { ip = peer; source = IpSource.fallback_malformed })
unfolding resolve contains split trim
empty_header_is_malformed = refl

default_config_passes : validate parse_addr config_default ≡ ok
unfolding validate strip_prefix trim
default_config_passes = refl

contains_iff_example :
    (contains (Cidr.v4 0x0A00_0000 8) peer ≡ true) ↔ Covers (Cidr.v4 0x0A00_0000 8) peer
contains_iff_example =
    contains_iff (Cidr.v4 0x0A00_0000 8) peer (omega arith, omega arith) (omega arith)

resolve-Justified_example :
    (s : ResolvedClientIp) × (resolve parse_addr behind_proxy peer (forwarded (codes "1.2.3.4"))
      ≡ some s)
    × Justified parse_addr behind_proxy peer (forwarded (codes "1.2.3.4")) s s.source
resolve-Justified_example =
    resolve-Justified parse_addr behind_proxy peer (forwarded (codes "1.2.3.4"))

-- The header stands behind `Host` and before another one of its name.
resolve-append_example :
    (resolve parse_addr behind_proxy peer (
        (codes "Host", codes "a")
        ∷ ((codes "X-Forwarded-For", codes "1.2.3.4") ∷ forwarded (codes "5.6.7.8")))
      ≡ some (record { ip = IpAddr.v4 0x0102_0304; source = IpSource.trusted_header }))
    × (resolve parse_addr behind_proxy peer (
          (codes "Host", codes "a")
          ∷ ((codes "X-Forwarded-For", codes "5.6.7.8" ++ (b',' ∷ codes "1.2.3.4"))
              ∷ forwarded (codes "5.6.7.8")))
        ≡ some (record { ip = IpAddr.v4 0x0102_0304; source = IpSource.trusted_header }))
resolve-append_example =
    resolve-append parse_addr behind_proxy peer (IpAddr.v4 0x0102_0304) (codes "X-Forwarded-For")
      (codes "5.6.7.8") (codes "1.2.3.4") ((codes "Host", codes "a") ∷ [])
      (forwarded (codes "5.6.7.8")) refl refl one_address

validate_iff_example : (validate parse_addr config_default ≡ ok) ↔ IsValid parse_addr config_default
validate_iff_example = validate_iff parse_addr config_default
