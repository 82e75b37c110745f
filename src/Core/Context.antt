-- ===== src/Core/Context.antt =====
-- crates/waf-core/src/lib.rs: the request, its canonical forms and the audit of its score.
use rust_waf.Common.{ℕ, Bool, List, Option, Bytes}
use rust_waf.Core.Decision.{Severity}

-- `std::net::IpAddr` by the value of its address.
pub data IpAddr : Type 0 where
  v4 : ℕ → IpAddr
  v6 : ℕ → IpAddr

pub record MultipartField : Type 0 where
  pub name : Bytes
  pub filename : Option Bytes
  pub content_type : Option Bytes
  pub payload : Bytes

pub data ParsedBody : Type 0 where
  no_body : ParsedBody
  form_url_encoded : List (Bytes × Bytes) → ParsedBody
  multipart : List MultipartField → ParsedBody
  json_flattened : List (Bytes × Bytes) → ParsedBody
  raw : Bytes → ParsedBody

pub record Normalized : Type 0 where
  pub path : Bytes
  pub query : Option Bytes
  pub query_params : List (Bytes × Bytes)
  pub cookies : List (Bytes × Bytes)
  pub headers : List (Bytes × Bytes)
  pub body : ParsedBody
  pub double_encoding_detected : Bool
  pub derived_decoded : List Bytes

pub record ScoreContribution : Type 0 where
  pub module_id : Bytes
  pub rule_id : Bytes
  pub severity : Option Severity
  pub points : ℕ

pub record RequestContext : Type 0 where
  pub client_ip : IpAddr
  pub request_id : Bytes
  pub timestamp : ℕ
  pub method : Bytes
  pub path : Bytes
  pub raw_path : Bytes
  pub query : Option Bytes
  pub http_version : Bytes
  pub headers : List (Bytes × Bytes)
  pub cookies : List (Bytes × Bytes)
  pub body : Bytes
  pub normalized : Normalized
  pub score : ℕ
  pub score_contributions : List ScoreContribution
