-- ===== src/Detection/Crs/Operator.antt =====
-- crates/waf-detection/src/crs/operator.rs. The crate of regular expressions is an argument.
use rust_waf.Common
use rust_waf.Common.Chars
use rust_waf.Common.Chars.{to_lower}
use rust_waf.Common.{
  ℕ, Bool, List, ◌++◌, map, Option, none, some, Bytes, codes, bytes_eq, starts_with, any,
}
use rust_waf.Detection.Crs.Ast.{Result, ok, err, Operator}

-- `Regex` and `RegexSet`: how they are made, where making one fails with a message, and how they
-- match. A set gives the indices of its patterns that match.
pub record RegexCrate (Regex RegexSet : Type 0) : Type 0 where
  pub new : Bytes → Option Regex
  pub new_error : Bytes → Bytes
  pub is_match : Regex → Bytes → Bool
  pub new_set : List Bytes → Option RegexSet
  pub set_matches : RegexSet → Bytes → List ℕ

pub data Matcher (Regex : Type 0) : Type 0 where
  rx : Regex → Matcher Regex
  pm : List Bytes → Matcher Regex
  contains begins_with ends_with within str_eq : Bytes → Matcher Regex

module _ {Regex RegexSet : Type 0} (crate : RegexCrate Regex RegexSet) where
  unfoldable pub matches : Matcher Regex → Bytes → Bool
  unfolding Chars.contains
  matches (Matcher.rx re) value = crate.is_match re value
  matches (Matcher.pm phrases) value = any (λ p. Chars.contains p (to_lower value)) phrases
  matches (Matcher.contains s) value = Chars.contains s value
  matches (Matcher.begins_with s) value = starts_with s value
  matches (Matcher.ends_with s) value = Common.ends_with s value
  matches (Matcher.within set) value = Chars.contains value set
  matches (Matcher.str_eq s) value = bytes_eq value s

  abbrev pub invalid : Bytes → Bytes
  invalid pattern = codes "invalid @rx regex: " ++ crate.new_error pattern

  abbrev pub rx_or : Bytes → Option Regex → Result (Matcher Regex)
  rx_or pattern none = err (invalid pattern)
  rx_or pattern (some re) = ok (Matcher.rx re)

  unfoldable pub compile : Operator → Result (Matcher Regex)
  compile (Operator.rx pattern) = rx_or pattern (crate.new pattern)
  compile (Operator.pm phrases) = ok (Matcher.pm (map to_lower phrases))
  compile (Operator.pm_from_file path) =
      err (codes "@pmFromFile not supported in v1 (use inline @pm)")
  compile (Operator.contains s) = ok (Matcher.contains s)
  compile (Operator.begins_with s) = ok (Matcher.begins_with s)
  compile (Operator.ends_with s) = ok (Matcher.ends_with s)
  compile (Operator.within s) = ok (Matcher.within s)
  compile (Operator.str_eq s) = ok (Matcher.str_eq s)
  compile (Operator.unsupported name) = err (codes "unsupported operator @" ++ name)

abbrev pub rx_pattern : Operator → Option Bytes
rx_pattern (Operator.rx p) = some p
rx_pattern _ = none
