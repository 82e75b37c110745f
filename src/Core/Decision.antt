-- ===== src/Core/Decision.antt =====
-- crates/waf-core/src/lib.rs: what a module decides, and the weights of the severity classes.
use rust_waf.Common.{ℕ, List, Option, Bytes}

pub data Severity : Type 0 where
  critical error warning notice : Severity

pub record ScoreItem : Type 0 where
  pub rule_id : Bytes
  pub severity : Severity

pub data Decision : Type 0 where
  allow : Decision
  block : (rule_id reason : Bytes) → Decision
  monitor : (rule_id : Bytes) → Decision
  score : (rule_id : Bytes) (points : ℕ) → Decision
  scores : List ScoreItem → Decision
  reject : (rule_id reason : Bytes) (status : ℕ) (retry_after : Option ℕ) → Decision

pub data Phase : Type 0 where
  connection request_line headers body response : Phase

pub data FailMode : Type 0 where
  fail_open fail_closed : FailMode

pub data WafMode : Type 0 where
  detection_only blocking : WafMode

pub record SeverityScores : Type 0 where
  pub critical : ℕ
  pub error : ℕ
  pub warning : ℕ
  pub notice : ℕ

unfoldable pub points_for : SeverityScores → Severity → ℕ
points_for s Severity.critical = s.critical
points_for s Severity.error = s.error
points_for s Severity.warning = s.warning
points_for s Severity.notice = s.notice
