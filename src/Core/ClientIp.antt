-- ===== src/Core/ClientIp.antt =====
-- crates/waf-core/src/network/client_ip.rs: the client's address behind trusted proxies.
--
-- `IpAddr::from_str` is the argument `parse_addr`, any such function.
pub mod Masks
pub mod Chain
use Prim.Native.Nat.{bit_and}
use mathlib.Core.Option
use rust_waf.Common.{
  ℕ, zero, suc, ◌+◌, ◌-◌, ◌*◌, ◌/◌, ◌%◌, ◌^◌, ◌≤◌, ◌<◌, min, max, Bool, true, false, not, ◌&&◌,
  ◌||◌, List, [], ◌∷◌, ◌++◌, map, append_assoc, append-nil, Option, none, some, ◌≡◌, refl, sym, ap,
  ◌∙◌, subst, ◌≢◌, ◌↔◌, ◌⊎◌, inl, inr, arith, Bytes, codes, bytes_eq, bytes_eq_iff, is_ascii_digit,
  is_ascii_alphabetic, is_ascii_alphanumeric, to_ascii_lowercase, eq_ignore_ascii_case, starts_with,
  ltb, leb, ◌==◌, within, if◌then◌else◌, ltb→lt, lt→ltb, ==_iff, Bool-cases, Option-cases, length,
  get_elem?, take, drop, any, all, keep, find, is_empty, length-append, take-append-drop,
  length-take, length-drop, length-keep-le, decimal, parse_uint, white_len, trim_start, trim_end,
  trim, split, split_once, strip_prefix, ends_with, cons_head,
}
use rust_waf.Core.Context.{
  IpAddr, MultipartField, ParsedBody, Normalized, RequestContext, ScoreContribution,
}
use rust_waf.Core.Config.{NetworkConfig}

pub data IpSource : Type 0 where
  direct_peer trusted_header fallback_missing_header fallback_malformed : IpSource

pub record ResolvedClientIp : Type 0 where
  pub ip : IpAddr
  pub source : IpSource

pub data Cidr : Type 0 where
  v4 : (net prefix : ℕ) → Cidr
  v6 : (net prefix : ℕ) → Cidr

pub record ClientIpResolver : Type 0 where
  pub trusted : List Cidr
  pub header : Bytes
  pub hops : ℕ

-- `u32::MAX << (32 - p)`, with the two edges that the source sets apart.
unfoldable pub mask_u32 : ℕ → ℕ
mask_u32 prefix =
    if prefix == 0
    then 0
    else if prefix == 32
    then 2 ^ 32 - 1
    else (2 ^ 32 - 1) * 2 ^ (32 - prefix) % 2 ^ 32

unfoldable pub mask_eq_u32 : ℕ → ℕ → ℕ → Bool
unfolding mask_u32
mask_eq_u32 a b prefix = bit_and a (mask_u32 prefix) == bit_and b (mask_u32 prefix)

unfoldable pub mask_u128 : ℕ → ℕ
mask_u128 prefix =
    if prefix == 0
    then 0
    else if prefix == 128
    then 2 ^ 128 - 1
    else (2 ^ 128 - 1) * 2 ^ (128 - prefix) % 2 ^ 128

unfoldable pub mask_eq_u128 : ℕ → ℕ → ℕ → Bool
unfolding mask_u128
mask_eq_u128 a b prefix = bit_and a (mask_u128 prefix) == bit_and b (mask_u128 prefix)

unfoldable pub contains : Cidr → IpAddr → Bool
unfolding mask_eq_u32 mask_eq_u128
contains (Cidr.v4 net prefix) (IpAddr.v4 addr) = mask_eq_u32 net addr prefix
contains (Cidr.v6 net prefix) (IpAddr.v6 addr) = mask_eq_u128 net addr prefix
contains _ _ = false

-- The header's chain of addresses, left to right.
unfoldable pub chain_of : Bytes → List Bytes
chain_of value = keep (λ s. not (is_empty s)) (map trim (split b',' value))

unfoldable pub header_value : ClientIpResolver → List (Bytes × Bytes) → Option Bytes
header_value r headers =
    Option.map (λ (h : Bytes × Bytes). h.1)
      (find (λ (h : Bytes × Bytes). eq_ignore_ascii_case h.0 r.header) headers)

module _ (parse_addr : Bytes → Option IpAddr) where
  -- The prefix of a CIDR block, when one is written, is a `u8` up to the width of the family.
  prefix_of : ℕ → Option Bytes → Option ℕ
  prefix_of width none = some width
  prefix_of width (some p) = elim (parse_uint 255 p) [
    | none ↦ none
    | some n ↦ if leb n width then some n else none
  ]

  cidr_of : Option IpAddr → Option Bytes → Option Cidr
  unfolding prefix_of
  cidr_of none p = none
  cidr_of (some (IpAddr.v4 a)) p = Option.map (Cidr.v4 a) (prefix_of 32 p)
  cidr_of (some (IpAddr.v6 a)) p = Option.map (Cidr.v6 a) (prefix_of 128 p)

  unfoldable pub parse : Bytes → Option Cidr
  unfolding cidr_of
  parse s = elim (split_once b'/' (trim s)) [
    | some (a, p) ↦ cidr_of (parse_addr (trim a)) (some (trim p))
    | none ↦ cidr_of (parse_addr (trim s)) none
  ]

  unfoldable pub is_valid_cidr : Bytes → Bool
  unfolding parse
  is_valid_cidr s = elim (parse s) [ none ↦ false | some c ↦ true ]

  unfoldable pub parse_all : List Bytes → List Cidr
  unfolding parse
  parse_all [] = []
  parse_all (s ∷ ss) = let rest = parse_all ss in elim (parse s) [ none ↦ rest | some c ↦ c ∷ rest ]

  unfoldable pub from_config : NetworkConfig → ClientIpResolver
  unfolding parse_all
  from_config cfg = record {
    trusted = parse_all cfg.trusted_proxies;
    header = map to_ascii_lowercase cfg.client_ip_header;
    hops = cfg.trusted_hops;
  }

  -- The end of `resolve`, on the header's value; `none` is the panic of `chain[idx]` out of range.
  unfoldable pub resolve_chain : ℕ → IpAddr → List Bytes → Option ResolvedClientIp
  resolve_chain hops peer chain =
      if hops == 0 || ltb (length chain) hops
      then some (record { ip = peer; source = IpSource.fallback_malformed })
      else elim (get_elem? chain (length chain - hops)) [
        | none ↦ none
        | some token ↦ elim (parse_addr token) [
          | some ip ↦ some (record { ip = ip; source = IpSource.trusted_header })
          | none ↦ some (record { ip = peer; source = IpSource.fallback_malformed })
        ]
      ]

  unfoldable pub resolve :
      ClientIpResolver → IpAddr → List (Bytes × Bytes) → Option ResolvedClientIp
  unfolding resolve_chain chain_of header_value
  resolve r peer headers =
      if not (any (λ c. contains c peer) r.trusted)
      then some (record { ip = peer; source = IpSource.direct_peer })
      else elim (header_value r headers) [
        | none ↦ some (record { ip = peer; source = IpSource.fallback_missing_header })
        | some value ↦ resolve_chain r.hops peer (chain_of value)
      ]
