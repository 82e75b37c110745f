-- ===== src/Detection/Crs/Ast.antt =====
-- crates/waf-detection/src/crs/ast.rs: what a rule file says, with the parts that no rule may have.
use rust_waf.Common.{
  ℕ, Bool, List, [], ◌∷◌, Option, some, Bytes, codes, bytes_eq, if◌then◌else◌, trim,
}
use rust_waf.Core.Decision.{Severity}
use rust_waf.Common.Chars.{to_upper}

-- `Result<A, String>`
pub data Result (A : Type 0) : Type 0 where
  ok : A → Result A
  err : Bytes → Result A

pub data Transform : Type 0 where
  none lowercase url_decode url_decode_uni html_entity_decode compress_whitespace : Transform
  remove_whitespace remove_nulls normalize_path base64_decode : Transform
  unsupported : Bytes → Transform

pub data Operator : Type 0 where
  rx : Bytes → Operator
  pm : List Bytes → Operator
  pm_from_file : Bytes → Operator
  contains begins_with ends_with within str_eq : Bytes → Operator
  unsupported : Bytes → Operator

pub data TargetKind : Type 0 where
  args args_names args_get args_post request_headers request_headers_names : TargetKind
  request_cookies request_cookies_names request_uri request_uri_raw request_filename : TargetKind
  query_string request_method request_protocol request_line request_body : TargetKind
  unsupported : Bytes → TargetKind

pub record Variable : Type 0 where
  pub kind : TargetKind
  pub selector : Option Bytes
  pub negated : Bool
  pub count : Bool
  pub regex_selector : Bool

pub record MatchUnit : Type 0 where
  pub variables : List Variable
  pub operator : Operator
  pub negated : Bool
  pub transforms : List Transform

pub record CrsRule : Type 0 where
  pub id : ℕ
  pub severity : Severity
  pub head : MatchUnit
  pub chain : List MatchUnit
  pub msg : Option Bytes
  pub line_no : ℕ

pub record SkippedRule : Type 0 where
  pub id : Option ℕ
  pub line_no : ℕ
  pub reason : Bytes

pub record ParsedRuleset : Type 0 where
  pub rules : List CrsRule
  pub skipped : List SkippedRule

-- `match` on a text: the value beside the first of the texts that is the same.
abbrev pub match_text : {A : Type 0} → Bytes → List (Bytes × A) → A → A
match_text s [] other = other
match_text s ((t, a) ∷ arms) other =
    let rest = match_text s arms other in if bytes_eq s t then a else rest

abbrev pub severity_words : List (Bytes × Option Severity)
severity_words =
    (codes "EMERGENCY", some Severity.critical)
    ∷ (codes "ALERT", some Severity.critical)
    ∷ (codes "CRITICAL", some Severity.critical)
    ∷ (codes "0", some Severity.critical)
    ∷ (codes "1", some Severity.critical)
    ∷ (codes "2", some Severity.critical)
    ∷ (codes "ERROR", some Severity.error)
    ∷ (codes "3", some Severity.error)
    ∷ (codes "WARNING", some Severity.warning)
    ∷ (codes "4", some Severity.warning)
    ∷ (codes "NOTICE", some Severity.notice)
    ∷ (codes "INFO", some Severity.notice)
    ∷ (codes "DEBUG", some Severity.notice)
    ∷ (codes "5", some Severity.notice)
    ∷ (codes "6", some Severity.notice)
    ∷ (codes "7", some Severity.notice)
    ∷ []

unfoldable pub map_severity : Bytes → Option Severity
map_severity word = match_text (to_upper (trim word)) severity_words Option.none
