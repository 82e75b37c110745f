-- ===== src/Pipeline/Overflow.antt =====
-- crates/waf-pipeline/src/lib.rs: `ctx.score += points` in a build without overflow checks, where the
-- weights are as large as `validate` lets them be.
use rust_waf.Common.{◌+◌, ◌^◌, ◌<◌, List, [], ◌∷◌, none, ◌≡◌, arith, Bytes}
use rust_waf.Core.Decision.{Severity, ScoreItem, Decision, points_for}
use rust_waf.Core.Context.{RequestContext}
use rust_waf.Pipeline.{Pipeline, accumulate, accumulate_items, threshold_check, apply_decision}

abbrev pub two_items : (r q : Bytes) (s t : Severity) → List ScoreItem
two_items r q s t = record { rule_id = r; severity = s } ∷ record { rule_id = q; severity = t } ∷ []

module _ {W : Type 0} (p : Pipeline W) where
  -- Two matches whose weights sum to 2^32 count for nothing: a request whose score is below the
  -- threshold gets no verdict for them, however low the threshold, and its score is as before.
  pub apply_decision-wrap :
      (a : RequestContext) (module_id r q : Bytes) (s t : Severity)
      → a.score < 2 ^ 32
      → a.score < p.block_threshold
      → points_for p.severity_scores s + points_for p.severity_scores t ≡ 2 ^ 32
      → ((apply_decision p a module_id (Decision.scores (two_items r q s t))).1 ≡ none)
        × ((apply_decision p a module_id (Decision.scores (two_items r q s t))).0.score ≡ a.score)
  unfolding apply_decision accumulate_items accumulate threshold_check
  apply_decision-wrap a module_id r q s t small below sum = (ground arith, omega arith)
